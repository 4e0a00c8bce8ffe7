-- ===== src/Core/Scenarios.antt =====
-- A journal of two events: packages/kogg-core/src/node/diagnostic-owner-journal.ts. The digest of the
-- scenario is the list of the texts that go into it.
use kogg.Prelude.{
  &&-eq-true, map, String, String-Eq, Bool, true, false, ◌&&◌, some, List, [], ◌∷◌, ◌++◌, Eq,
  ==_refl, ◌≡◌, refl, ap, ◌∙◌, ◌↔◌,
}
use kogg.Core.Journal.{
  last_row_sequence, checked_digest, Fact, EventRow, Payload, pending, settled, DiagnosticStatus,
  started_fact, completed_fact, next_row, append, is_intact, last_digest, is_taken,
}
use kogg.Core.Chain.{protected, append-is_intact, intact-determined}

abbrev eq_all {ℓ} : {A : Type ℓ} → (A → A → Bool) → List A → List A → Bool
eq_all q [] [] = true
eq_all q [] (y ∷ ys) = false
eq_all q (x ∷ xs) [] = false
eq_all q (x ∷ xs) (y ∷ ys) = q x y && eq_all q xs ys

module _ {ℓ} {A : Type ℓ} ⦃e : Eq A⦄ where
  eq_all_sound : (xs ys : List A) → eq_all e.beq xs ys ≡ true → xs ≡ ys
  eq_all_sound [] [] h = refl
  eq_all_sound [] (y ∷ ys) h = cc
  eq_all_sound (x ∷ xs) [] h = cc
  eq_all_sound (x ∷ xs) (y ∷ ys) h =
      let (first, rest) = &&-eq-true (e.beq x y) (eq_all e.beq xs ys) h in
      ap (λ z. z ∷ xs) ((e.beq_iff x y).0 first) ∙ ap (λ l. y ∷ l) (eq_all_sound xs ys rest)

  eq_all_refl : (xs : List A) → eq_all e.beq xs xs ≡ true
  eq_all_refl [] = refl
  eq_all_refl (x ∷ xs) = rw (==_refl x, eq_all_refl xs) refl

  eq_all_iff : (xs ys : List A) → (eq_all e.beq xs ys ≡ true) ↔ (xs ≡ ys)
  eq_all_iff xs ys = (eq_all_sound xs ys, λ h. rw (← h) (eq_all_refl xs))

instance abbrev Texts-Eq : Eq (List String)
Texts-Eq = record { beq = eq_all String-Eq.beq; beq_iff = eq_all_iff }

instance abbrev Digest-Eq : Eq (List (List String))
Digest-Eq = record { beq = eq_all Texts-Eq.beq; beq_iff = eq_all_iff }

abbrev texts : List String → List (List String) → List (List String)
texts xs previous = xs ∷ previous

texts_injective :
    (xs ys : List String) (a b : List (List String)) → texts xs a ≡ texts ys b → (xs ≡ ys) × (a ≡ b)
texts_injective xs ys a b e = (
  ap (λ (l : List (List String)). elim l [ [] ↦ [] | x ∷ r ↦ x ]) e,
  ap (λ (l : List (List String)). elim l [ [] ↦ [] | x ∷ r ↦ r ]) e,
)

abbrev stringify : Payload → String
stringify pending = "pending"
stringify (settled status count) = "settled"

abbrev no_digest : List (List String)
no_digest = []

abbrev first_fact : Fact
first_fact = started_fact stringify "event-1" "report" "10"

abbrev second_fact : Fact
second_fact = completed_fact stringify "event-2" "report" DiagnosticStatus.pass 3 "20"

abbrev journal : List (EventRow (List (List String)))
journal = next_row texts 1 [] first_fact ∷ []

abbrev longer : List (EventRow (List (List String)))
longer = journal ++ next_row texts 2 (last_digest texts [] journal) second_fact ∷ []

journal-is_intact : is_intact texts [] journal ≡ true
unfolding is_intact next_row started_fact checked_digest
journal-is_intact = refl

journal_grows : append texts [] second_fact journal ≡ some longer
unfolding append is_taken next_row last_digest last_row_sequence started_fact completed_fact
journal_grows = refl

-- The same journal with another sequence, which no digest covers.
abbrev moved : List (EventRow (List (List String)))
moved = next_row texts 7 [] first_fact ∷ []

moved-is_intact : is_intact texts [] moved ≡ true
unfolding is_intact next_row started_fact checked_digest
moved-is_intact = refl

append-is_intact_example : is_intact texts [] longer ≡ true
append-is_intact_example =
    append-is_intact texts [] second_fact journal longer journal-is_intact journal_grows

intact-determined_example : (no_digest ≡ no_digest) × (map protected journal ≡ map protected moved)
unfolding next_row last_digest
intact-determined_example =
    intact-determined texts no_digest no_digest journal moved texts_injective refl journal-is_intact
      moved-is_intact refl
