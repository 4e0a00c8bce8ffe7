-- ===== src/ReadModel/Delivered.antt =====
-- A replay into the read model of packages/kogg-operations/src/node/operations-read-model.ts that has
-- nothing of the stream is taken whole.
use mathlib.Core.List.{append-nil, append_assoc}
use kogg.Prelude.{
  ◌∙◌, ◌⊎◌, arith, ℕ, zero, suc, ◌+◌, ◌≤◌, String, String-Eq, ℕ-Eq, Bool, true, false, ◌&&◌, ◌||◌,
  ◌==◌, Option, none, some, List, [], ◌∷◌, ◌++◌, ◌≡◌, refl, inl, inr, sym, ap, All, All-append,
  All-mono, any, ltb, Bool-cases, ==_refl, ==_sound, &&-eq-true,
}
use kogg.ReadModel.Events.{OwnerEvent, Platform}
use kogg.ReadModel.Validate.{validate_event}
use kogg.ReadModel.Tables.{OwnerCursor, ReadModel}
use kogg.ReadModel.Ingest.{
  accepted_event, find_event, find_cursor, is_key, zero_digest, violates, judge, follows, reopens,
  cursor_of, advance_cursor, reevaluate_lifecycle, record_event, accept, ingest_new, ingest_valid,
  ingest_checked, ingest,
}
use kogg.ReadModel.Replay.{delivered, is_taken_on, replay}

-- An event stands at a place of a stream.
pub record IsPlaced (owner epoch previous : String) (n : ℕ) (e : OwnerEvent) : Type 0 where
  pub of_owner : e.owner_instance_id ≡ owner
  pub of_epoch : e.epoch_id ≡ epoch
  pub at_place : e.sequence ≡ n
  pub behind : e.previous_event_digest ≡ previous
  pub alone : e.causal_parents ≡ []

abbrev pub is_from : String → String → OwnerEvent → Bool
is_from owner epoch a = a.owner_instance_id == owner && a.epoch_id == epoch

-- The store has the stream's first `n` events at most, and its cursor stands behind them: at the last
-- of them, or for none of them at no event of the stream.
abbrev pub StandsAt : String → String → String → ℕ → Option OwnerCursor → Type 0
StandsAt owner epoch previous zero none = previous ≡ zero_digest
StandsAt owner epoch previous zero (some c) =
    ((c.epoch_id == epoch) ≡ false) × (previous ≡ zero_digest)
StandsAt owner epoch previous (suc n) none = ⊥
StandsAt owner epoch previous (suc n) (some c) =
    (c.epoch_id ≡ epoch) × (c.sequence ≡ suc n) × (c.event_digest ≡ previous)

abbrev pub HasOnly : String → String → ℕ → List OwnerEvent → Type 0
HasOnly owner epoch n accepted = All (λ a. is_from owner epoch a ≡ true → a.sequence ≤ n) accepted

-- No accepted event has the identifier or the digest of the event.
abbrev pub IsUnseen : OwnerEvent → List OwnerEvent → Type 0
IsUnseen e accepted =
    any (λ (a : OwnerEvent). a.event_id == e.event_id || a.event_digest == e.event_digest) accepted
    ≡ false

-- The events are valid, and each is unseen when its turn comes.
abbrev pub AreNew : Platform → List OwnerEvent → List OwnerEvent → Type 0
AreNew p accepted [] = Unit
AreNew p accepted (e ∷ es) =
    (validate_event p e ≡ none) × IsUnseen e accepted × AreNew p (accepted ++ e ∷ []) es

not_before : (n : ℕ) → ltb (suc n) (n + 1) ≡ false
not_before n = ground arith

not_behind : (n : ℕ) → ltb (n + 1) (suc n) ≡ false
not_behind n = ground arith

module _ (owner epoch previous : String) (e : OwnerEvent) where
  -- The verdict lets the event in.
  judged :
      (n : ℕ) (c : Option OwnerCursor)
      → IsPlaced owner epoch previous (suc n) e
      → StandsAt owner epoch previous n c
      → (judge e c ≡ follows) ⊎ (judge e c ≡ reopens)
  unfolding judge
  judged zero none placed h = inl (rw (placed.at_place, placed.behind, h) refl)
  judged zero (some c) placed h =
      inr (rw (placed.of_epoch, h.0, placed.at_place, placed.behind, h.1) refl)
  judged (suc n) none placed h = absurd h
  judged (suc n) (some c) placed h = inl (
      rw
        (
          placed.of_epoch,
          h.0,
          ==_refl epoch,
          placed.at_place,
          h.1,
          not_before (suc n),
          not_behind (suc n),
          placed.behind,
          h.2,
          ==_refl previous,
        )
        refl)

  key_apart :
      (a : OwnerEvent)
      → is_key e.owner_instance_id e.epoch_id e.sequence a ≡ true
      → (is_from e.owner_instance_id e.epoch_id a ≡ true) × (a.sequence ≡ e.sequence)
  key_apart a t =
      let (one, rest) =
        &&-eq-true (a.owner_instance_id == e.owner_instance_id)
          (a.epoch_id == e.epoch_id && a.sequence == e.sequence) t in
      let (two, three) = &&-eq-true (a.epoch_id == e.epoch_id) (a.sequence == e.sequence) rest in
      (rw (one, two) refl, ==_sound a.sequence e.sequence three)

  absent :
      (n : ℕ) (accepted : List OwnerEvent)
      → IsPlaced owner epoch previous (suc n) e
      → HasOnly owner epoch n accepted
      → find_event e.owner_instance_id e.epoch_id e.sequence accepted ≡ none
  unfolding find_event
  absent n [] placed h = refl
  absent n (a ∷ accepted) placed h =
      elim (Bool-cases (is_key e.owner_instance_id e.epoch_id e.sequence a)) [
        | inr t ↦ rw t (absent n accepted placed h.1)
        | inl t ↦
            let (from, here) = key_apart a t in
            let low : a.sequence ≤ n = h.0 (rw (sym placed.of_owner, sym placed.of_epoch) from) in
            let high : a.sequence ≡ suc n = here ∙ placed.at_place in absurd (omega arith)
      ]

pub advanced :
    (e : OwnerEvent) (cs : List OwnerCursor)
    → (c : OwnerCursor) × (find_cursor e.owner_instance_id (advance_cursor e cs) ≡ some c)
      × (c.epoch_id ≡ e.epoch_id)
      × (c.sequence ≡ e.sequence)
      × (c.event_digest ≡ e.event_digest)
unfolding advance_cursor find_cursor cursor_of
advanced e [] = (cursor_of e, rw (==_refl e.owner_instance_id) refl, refl, refl, refl)
advanced e (c ∷ cs) = elim (Bool-cases (c.owner_instance_id == e.owner_instance_id)) [
  | inl t ↦ rw t (
    record (cursor_of e) { owner_kind = c.owner_kind },
    rw (==_refl e.owner_instance_id) refl,
    refl,
    refl,
    refl,
  )
  | inr t ↦ let later = advanced e cs in rw t (later.0, rw t later.1, later.2, later.3, later.4)
]

-- The event is accepted.
accepted_when_judged :
    (p : Platform) (e : OwnerEvent) (m : ReadModel)
    → (judge e (find_cursor e.owner_instance_id m.cursors) ≡ follows)
      ⊎ (judge e (find_cursor e.owner_instance_id m.cursors) ≡ reopens)
    → validate_event p e ≡ none
    → find_event e.owner_instance_id e.epoch_id e.sequence m.accepted ≡ none
    → IsUnseen e m.accepted
    → e.causal_parents ≡ []
    → (reopened : Bool) × (ingest p e m
        ≡ (accepted_event, reevaluate_lifecycle (record_event p e reopened m)))
unfolding ingest ingest_checked ingest_valid ingest_new accept violates
accepted_when_judged p e m (inl v) valid absent unseen alone =
    (false, rw (valid, absent, v, alone, unseen) refl)
accepted_when_judged p e m (inr v) valid absent unseen alone =
    (true, rw (valid, absent, v, alone, unseen) refl)

pub recorded-accepted :
    (p : Platform) (e : OwnerEvent) (reopened : Bool) (m : ReadModel)
    → (reevaluate_lifecycle (record_event p e reopened m)).accepted ≡ m.accepted ++ e ∷ []
unfolding record_event reevaluate_lifecycle
recorded-accepted p e reopened m = refl

pub recorded-cursors :
    (p : Platform) (e : OwnerEvent) (reopened : Bool) (m : ReadModel)
    → (reevaluate_lifecycle (record_event p e reopened m)).cursors ≡ advance_cursor e m.cursors
unfolding record_event reevaluate_lifecycle
recorded-cursors p e reopened m = refl

module _ (owner epoch : String) where
  HasOnly-next :
      (n : ℕ) (e : OwnerEvent) (accepted : List OwnerEvent)
      → e.sequence ≡ suc n
      → HasOnly owner epoch n accepted
      → HasOnly owner epoch (suc n) (accepted ++ e ∷ [])
  HasOnly-next n e accepted h only =
      All-append (λ (a : OwnerEvent). is_from owner epoch a ≡ true → a.sequence ≤ suc n) accepted
        (e ∷ [])
        (All-mono (λ (a : OwnerEvent). is_from owner epoch a ≡ true → a.sequence ≤ n)
          (λ (a : OwnerEvent). is_from owner epoch a ≡ true → a.sequence ≤ suc n) accepted
          (λ a low from. let here : a.sequence ≤ n = low from in omega arith) only)
        ((λ from. omega arith), tt)

  StandsAt-next :
      (n : ℕ) (previous : String) (e : OwnerEvent) (cs : List OwnerCursor)
      → IsPlaced owner epoch previous (suc n) e
      → StandsAt owner epoch e.event_digest (suc n) (find_cursor owner (advance_cursor e cs))
  StandsAt-next n previous e cs placed =
      let (c, found, same, at, digest) = advanced e cs in
      let here : find_cursor owner (advance_cursor e cs) ≡ some c =
        rw (sym placed.of_owner) found in
      rw here (same ∙ placed.of_epoch, at ∙ placed.at_place, digest)

module _ {Row : Type 0} (p : Platform) (map_event : String → ℕ → Row → Option OwnerEvent) where
  -- The rows map to the events, each behind the one before it.
  abbrev pub Maps : String → ℕ → List Row → List OwnerEvent → Type 0
  Maps previous n [] [] = Unit
  Maps previous n [] (e ∷ es) = ⊥
  Maps previous n (row ∷ rows) [] = ⊥
  Maps previous n (row ∷ rows) (e ∷ es) =
      (map_event previous (suc n) row ≡ some e) × Maps e.event_digest (suc n) rows es

module _ {Row : Type 0} (p : Platform) (map_event : String → ℕ → Row → Option OwnerEvent)
    (owner epoch : String)
    (places : (previous : String) (n : ℕ) (row : Row) (e : OwnerEvent)
      → map_event previous n row ≡ some e
      → IsPlaced owner epoch previous n e) where
  replay-row :
      (previous : String) (n : ℕ) (row : Row) (rows : List Row) (e : OwnerEvent) (m m' : ReadModel)
      → map_event previous (suc n) row ≡ some e
      → ingest p e m ≡ (accepted_event, m')
      → replay p map_event previous n (row ∷ rows) m
        ≡ replay p map_event e.event_digest (suc n) rows m'
  unfolding replay is_taken_on
  replay-row previous n row rows e m m' mapped taken =
      rw (mapped, replay, ap (λ r. r.0) taken)
        (ap (λ l. replay p map_event e.event_digest (suc n) rows l) (ap (λ r. r.1) taken))

  pub replay-delivered :
      (rows : List Row) (es : List OwnerEvent) (previous : String) (n : ℕ) (m : ReadModel)
      → Maps p map_event previous n rows es
      → StandsAt owner epoch previous n (find_cursor owner m.cursors)
      → HasOnly owner epoch n m.accepted
      → AreNew p m.accepted es
      → ((replay p map_event previous n rows m).0 ≡ delivered)
        × ((replay p map_event previous n rows m).1.accepted ≡ m.accepted ++ es)
  unfolding replay
  replay-delivered [] [] previous n m maps stands only new = (refl, sym (append-nil m.accepted))
  replay-delivered [] (e ∷ es) previous n m maps stands only new = absurd maps
  replay-delivered (row ∷ rows) [] previous n m maps stands only new = absurd maps
  replay-delivered (row ∷ rows) (e ∷ es) previous n m maps stands only new =
      let placed = places previous (suc n) row e maps.0 in
      let (reopened, taken) =
        accepted_when_judged p e m
          (judged owner epoch previous e n (find_cursor e.owner_instance_id m.cursors) placed
            (rw placed.of_owner stands))
          new.0 (absent owner epoch previous e n m.accepted placed only) new.1 placed.alone in
      let next = reevaluate_lifecycle (record_event p e reopened m) in
      let grown : next.accepted ≡ m.accepted ++ e ∷ [] = recorded-accepted p e reopened m in
      let rest =
        replay-delivered rows es e.event_digest (suc n) next maps.1
          (rw (recorded-cursors p e reopened m)
            (StandsAt-next owner epoch n previous e m.cursors placed))
          (rw grown (HasOnly-next owner epoch n e m.accepted placed.at_place only))
          (rw grown new.2) in
      let first =
        replay-row previous n row rows e m (reevaluate_lifecycle (record_event p e reopened m))
          maps.0 taken in
      rw first (rest.0, rest.1 ∙ (rw grown (append_assoc m.accepted (e ∷ []) es)))
