-- ===== src/Core/Chain.antt =====
-- What the chain of digests protects: packages/kogg-core/src/node/diagnostic-owner-journal.ts.
use kogg.Prelude.{
  ℕ, suc, map, String, Bool, true, false, ◌&&◌, Option, none, some, List, [], ◌∷◌, ◌++◌, Eq, ◌==◌,
  ==_refl, length, ◌≡◌, refl, sym, ap, ◌∙◌, arith, if◌then◌else◌,
}
use kogg.Core.Journal.{
  last_row_sequence, checked_digest, Fact, EventRow, last_digest, next_row, is_taken, append,
  is_intact,
}

both : (a b : Bool) → (a && b) ≡ true → (a ≡ true) × (b ≡ true)
both true b h = (refl, h)
both false b h = cc

fact_of : List String → Fact
fact_of (a ∷ b ∷ c ∷ d ∷ e ∷ rest) = record {
  event_id = a;
  event_kind = b;
  report_id = c;
  observed_at = d;
  safe_payload = e;
}
fact_of _ = record {
  event_id = "";
  event_kind = "";
  report_id = "";
  observed_at = "";
  safe_payload = "";
}

-- What the digests of a row are computed of, and they themselves: all of it but its sequence.
abbrev pub protected : {D : Type 0} → EventRow D → Fact × D × D
protected row = (row.fact, row.previous_fact_digest, row.fact_digest)

module _ {D : Type 0} ⦃d : Eq D⦄ (hash : List String → D → D) where
  intact-append :
      (previous : D) (sequence : ℕ) (fact : Fact) (rows : List (EventRow D))
      → is_intact hash previous rows ≡ true
      → is_intact hash previous
          (rows ++ next_row hash sequence (last_digest hash previous rows) fact ∷ [])
        ≡ true
  unfolding is_intact last_digest next_row checked_digest
  intact-append previous sequence fact [] h =
      let row = next_row hash sequence previous fact in
      rw (==_refl previous, ==_refl (checked_digest hash previous row)) refl
  intact-append previous sequence fact (row ∷ rows) h =
      let own = checked_digest hash previous row in
      let (here, rest) =
        both (row.previous_fact_digest == previous && row.fact_digest == own)
          (is_intact hash own rows) h in
      let (linked, hashed) =
        both (row.previous_fact_digest == previous) (row.fact_digest == own) here in
      let same = (d.beq_iff row.fact_digest own).0 hashed in
      rw here (rw same (intact-append own sequence fact rows rest))

  inserted :
      (taken : Bool) (rows rows' : List (EventRow D))
      → (if taken then none else some rows) ≡ some rows'
      → rows ≡ rows'
  inserted true rows rows' e = cc
  inserted false rows rows' e =
      ap (λ (o : Option (List (EventRow D))). elim o [ none ↦ rows | some x ↦ x ]) e

  -- What `append` leaves passes the integrity check that the next start makes, if what it found did.
  pub append-is_intact :
      (empty : D) (fact : Fact) (rows rows' : List (EventRow D))
      → is_intact hash empty rows ≡ true
      → append hash empty fact rows ≡ some rows'
      → is_intact hash empty rows' ≡ true
  unfolding append
  append-is_intact empty fact rows rows' h e =
      let sequence = suc (last_row_sequence 0 rows) in
      let row = next_row hash sequence (last_digest hash empty rows) fact in
      rw (← inserted (is_taken hash row rows) (rows ++ row ∷ []) rows' e)
        (intact-append empty sequence fact rows h)

  row_checked :
      (previous : D) (row : EventRow D)
      → (row.previous_fact_digest == previous
          && row.fact_digest == checked_digest hash previous row)
        ≡ true
      → (row.previous_fact_digest ≡ previous) × (row.fact_digest ≡ checked_digest hash previous row)
  row_checked previous row h =
      let (linked, hashed) =
        both (row.previous_fact_digest == previous)
          (row.fact_digest == checked_digest hash previous row) h in
      (
        (d.beq_iff row.previous_fact_digest previous).0 linked,
        (d.beq_iff row.fact_digest (checked_digest hash previous row)).0 hashed,
      )

  checked_digest-injective :
      (previous previous' : D) (x y : EventRow D)
      → ((xs ys : List String) (a b : D) → hash xs a ≡ hash ys b → (xs ≡ ys) × (a ≡ b))
      → checked_digest hash previous x ≡ checked_digest hash previous' y
      → (x.fact ≡ y.fact) × (previous ≡ previous')
  unfolding checked_digest fact_of
  checked_digest-injective previous previous' x y injective e =
      let (texts, before) = injective _ _ previous previous' e in (ap fact_of texts, before)

  -- Two logs of one length that pass the check and end in the same digest are the same log but for
  -- the sequences of their rows, as far as no two lists of texts and digests have the same hash: no
  -- identifier, kind, report, time, payload or digest of a row can be changed without the last digest
  -- changing with it.
  pub intact-determined :
      (previous previous' : D) (rows rows' : List (EventRow D))
      → ((xs ys : List String) (a b : D) → hash xs a ≡ hash ys b → (xs ≡ ys) × (a ≡ b))
      → length rows ≡ length rows'
      → is_intact hash previous rows ≡ true
      → is_intact hash previous' rows' ≡ true
      → last_digest hash previous rows ≡ last_digest hash previous' rows'
      → (previous ≡ previous') × (map protected rows ≡ map protected rows')
  unfolding is_intact last_digest
  intact-determined previous previous' [] [] injective e h h' same = (same, refl)
  intact-determined previous previous' [] (y ∷ ys) injective e h h' same = absurd (omega arith)
  intact-determined previous previous' (x ∷ xs) [] injective e h h' same = absurd (omega arith)
  intact-determined previous previous' (x ∷ xs) (y ∷ ys) injective e h h' same =
      let own = checked_digest hash previous x in
      let own' = checked_digest hash previous' y in
      let (here, rest) =
        both (x.previous_fact_digest == previous && x.fact_digest == own) (is_intact hash own xs)
          h in
      let (here', rest') =
        both (y.previous_fact_digest == previous' && y.fact_digest == own') (is_intact hash own' ys)
          h' in
      let (linked, hashed) = row_checked previous x here in
      let (linked', hashed') = row_checked previous' y here' in
      let (hashes, tails) =
        intact-determined own own' xs ys injective (omega (arith, e)) rest rest' (
          ap (λ a. last_digest hash a xs) (sym hashed)
          ∙ same
          ∙ ap (λ a. last_digest hash a ys) hashed') in
      let (facts, befores) = checked_digest-injective previous previous' x y injective hashes in
      let links = linked ∙ befores ∙ sym linked' in
      let digests = hashed ∙ hashes ∙ sym hashed' in
      (
        befores,
        ap (λ f. (f, x.previous_fact_digest, x.fact_digest) ∷ map protected xs) facts
            ∙ ap (λ p. (y.fact, p, x.fact_digest) ∷ map protected xs) links
            ∙ ap (λ q. (y.fact, y.previous_fact_digest, q) ∷ map protected xs) digests
            ∙ ap (λ l. protected y ∷ l) tails,
      )
