-- ===== src/ReadModel/Chained.antt =====
-- The accepted events of `ingest` in packages/kogg-operations/src/node/operations-read-model.ts form
-- one chain for each epoch of an owner's instance.
use kogg.Prelude.{
  nat_eq_iff, ◌∙◌, find?-All, all, ℕ, suc, arith, ◌+◌, String, String-Eq, ℕ-Eq, Bool, true, false,
  ◌&&◌, none, some, List, [], ◌∷◌, ◌++◌, ◌==◌, ◌≡◌, refl, ◌⊎◌, inl, inr, if◌then◌else◌, ltb, All,
  All-mono, All-append, Bool-cases, Option-cases, find?-append, find?-snoc, find?-holds, ==_refl,
  ==_sound, &&-eq-true,
}
use kogg.ReadModel.Events.{OwnerEvent, Platform}
use kogg.ReadModel.Validate.{FaultCode, validate_event}
use kogg.ReadModel.Tables.{OwnerCursor, ReadModel}
use kogg.ReadModel.Ingest.{
  violates, has_parent, zero_digest, is_key, find_event, find_cursor, Verdict, refused_by, follows,
  reopens, judge, persist_fault, reject, cursor_of, advance_cursor, reevaluate_lifecycle,
  record_event, accept, ingest_new, ingest_valid, ingest_checked, ingest,
}

-- An event is the first of its epoch, or the event before it in its epoch is accepted, and has the
-- digest that it names.
abbrev pub IsLinked : List OwnerEvent → OwnerEvent → Type 0
IsLinked events e =
    ((e.sequence ≡ 1) × (e.previous_event_digest ≡ zero_digest))
    ⊎ ((n : ℕ) × (before : OwnerEvent) × (e.sequence ≡ suc n)
        × (find_event e.owner_instance_id e.epoch_id n events ≡ some before)
        × (before.event_digest ≡ e.previous_event_digest))

-- A cursor stands at an accepted event.
abbrev pub IsAnchored : List OwnerEvent → OwnerCursor → Type 0
IsAnchored events c =
    (at_cursor : OwnerEvent) × (find_event c.owner_instance_id c.epoch_id c.sequence events
      ≡ some at_cursor)
    × (at_cursor.event_digest ≡ c.event_digest)

-- An event is the only accepted one with its key.
abbrev pub IsFound : List OwnerEvent → OwnerEvent → Type 0
IsFound events e = find_event e.owner_instance_id e.epoch_id e.sequence events ≡ some e

pub record IsChained (m : ReadModel) : Type 0 where
  pub linked : All (IsLinked m.accepted) m.accepted
  pub unique : All (IsFound m.accepted) m.accepted
  pub anchored : All (IsAnchored m.accepted) m.cursors

find_event-append :
    (instance_id epoch_id : String) (n : ℕ) (events : List OwnerEvent) (e a : OwnerEvent)
    → find_event instance_id epoch_id n events ≡ some a
    → find_event instance_id epoch_id n (events ++ e ∷ []) ≡ some a
unfolding find_event
find_event-append instance_id epoch_id n events e a h =
    find?-append (is_key instance_id epoch_id n) events (e ∷ []) a h

is_key-own : (e : OwnerEvent) → is_key e.owner_instance_id e.epoch_id e.sequence e ≡ true
is_key-own e = rw (==_refl e.owner_instance_id, ==_refl e.epoch_id, ==_refl e.sequence) refl

pub find_event-new :
    (events : List OwnerEvent) (e : OwnerEvent)
    → find_event e.owner_instance_id e.epoch_id e.sequence events ≡ none
    → IsFound (events ++ e ∷ []) e
unfolding find_event
find_event-new events e h =
    find?-snoc (is_key e.owner_instance_id e.epoch_id e.sequence) events e h (is_key-own e)

module _ (events : List OwnerEvent) (e : OwnerEvent) where
  IsLinked-later : (a : OwnerEvent) → IsLinked events a → IsLinked (events ++ e ∷ []) a
  IsLinked-later a (inl first) = inl first
  IsLinked-later a (inr (n, before, next, found, digest)) = inr (
    n,
    before,
    next,
    find_event-append a.owner_instance_id a.epoch_id n events e before found,
    digest,
  )

  IsAnchored-later : (c : OwnerCursor) → IsAnchored events c → IsAnchored (events ++ e ∷ []) c
  IsAnchored-later c (a, found, digest) =
      (a, find_event-append c.owner_instance_id c.epoch_id c.sequence events e a found, digest)

  IsFound-later : (a : OwnerEvent) → IsFound events a → IsFound (events ++ e ∷ []) a
  IsFound-later a = find_event-append a.owner_instance_id a.epoch_id a.sequence events e a

  advance_cursor-IsAnchored :
      (cursors : List OwnerCursor)
      → find_event e.owner_instance_id e.epoch_id e.sequence events ≡ none
      → All (IsAnchored events) cursors
      → All (IsAnchored (events ++ e ∷ [])) (advance_cursor e cursors)
  unfolding advance_cursor cursor_of
  advance_cursor-IsAnchored [] new h = ((e, find_event-new events e new, refl), tt)
  advance_cursor-IsAnchored (c ∷ cs) new h =
      elim (Bool-cases (c.owner_instance_id == e.owner_instance_id)) [
        | inl t ↦
            rw t ((e, find_event-new events e new, refl), All-mono _ _ cs IsAnchored-later h.1)
        | inr f ↦ rw f (IsAnchored-later c h.0, advance_cursor-IsAnchored cs new h.1)
      ]

-- What a verdict says of an event.
abbrev Justified : List OwnerEvent → OwnerEvent → Verdict → Type 0
Justified events e (refused_by code) = Unit
Justified events e follows = IsLinked events e
Justified events e reopens = IsLinked events e

find_cursor-Anchored :
    (events : List OwnerEvent) (instance_id : String) (cursors : List OwnerCursor) (c : OwnerCursor)
    → All (IsAnchored events) cursors
    → find_cursor instance_id cursors ≡ some c
    → IsAnchored events c × (c.owner_instance_id ≡ instance_id)
unfolding find_cursor
find_cursor-Anchored events instance_id cursors c h found = (
  find?-All (λ (k : OwnerCursor). k.owner_instance_id == instance_id) (IsAnchored events) cursors c
      h found,
  ==_sound c.owner_instance_id instance_id
      (find?-holds (λ (k : OwnerCursor). k.owner_instance_id == instance_id) cursors c found),
)

is_first-IsLinked :
    (events : List OwnerEvent) (e : OwnerEvent)
    → (e.sequence == 1 && e.previous_event_digest == zero_digest) ≡ true
    → IsLinked events e
is_first-IsLinked events e h =
    let (one, zero_before) =
      &&-eq-true (e.sequence == 1) (e.previous_event_digest == zero_digest) h in
    inl ((nat_eq_iff e.sequence 1).0 one, ==_sound e.previous_event_digest zero_digest zero_before)

-- A verdict that the first event of an epoch passes.
first-Justified :
    (events : List OwnerEvent) (e : OwnerEvent) (pass : Verdict) (code : FaultCode)
    → (IsLinked events e → Justified events e pass)
    → Justified events e (
        if e.sequence == 1 && e.previous_event_digest == zero_digest then pass else refused_by code)
first-Justified events e pass code k =
    elim (Bool-cases (e.sequence == 1 && e.previous_event_digest == zero_digest)) [
      | inl t ↦ rw t (k (is_first-IsLinked events e t))
      | inr f ↦ rw f tt
    ]

-- The event after the cursor.
next-IsLinked :
    (events : List OwnerEvent) (e : OwnerEvent) (c : OwnerCursor)
    → IsAnchored events c
    → c.owner_instance_id ≡ e.owner_instance_id
    → c.epoch_id ≡ e.epoch_id
    → ltb e.sequence (c.sequence + 1) ≡ false
    → ltb (c.sequence + 1) e.sequence ≡ false
    → c.event_digest ≡ e.previous_event_digest
    → IsLinked events e
next-IsLinked events e c (a, found, digest) same_owner same_epoch low high previous =
    inr (c.sequence, a, ground arith, rw (← same_owner, ← same_epoch) found, digest ∙ previous)

judge-cursor :
    (events : List OwnerEvent) (e : OwnerEvent) (c : OwnerCursor)
    → IsAnchored events c
    → c.owner_instance_id ≡ e.owner_instance_id
    → Justified events e (judge e (some c))
unfolding judge
judge-cursor events e c h same_owner = elim (Bool-cases (c.epoch_id == e.epoch_id)) [
  | inr other ↦ rw other (first-Justified events e reopens FaultCode.owner_epoch_unknown (λ l. l))
  | inl same ↦ rw same (elim (Bool-cases (ltb e.sequence (c.sequence + 1))) [
    | inl low ↦ rw low tt
    | inr not_low ↦ rw not_low (elim (Bool-cases (ltb (c.sequence + 1) e.sequence)) [
      | inl high ↦ rw high tt
      | inr not_high ↦ rw not_high (elim (Bool-cases (c.event_digest == e.previous_event_digest)) [
        | inl t ↦ rw t (
            next-IsLinked events e c h same_owner (==_sound c.epoch_id e.epoch_id same) not_low
              not_high (==_sound c.event_digest e.previous_event_digest t))
        | inr f ↦ rw f tt
      ])
    ])
  ])
]

judge-Justified :
    (events : List OwnerEvent) (e : OwnerEvent) (cursors : List OwnerCursor)
    → All (IsAnchored events) cursors
    → Justified events e (judge e (find_cursor e.owner_instance_id cursors))
unfolding judge
judge-Justified events e cursors h = elim (Option-cases (find_cursor e.owner_instance_id cursors)) [
  | inl unseen ↦ rw unseen (first-Justified events e follows FaultCode.owner_cursor_gap (λ l. l))
  | inr (c, found) ↦
      let (anchored, same_owner) =
        find_cursor-Anchored events e.owner_instance_id cursors c h found in
      rw found (judge-cursor events e c anchored same_owner)
]

-- What is recorded keeps the chain.
record_event-IsChained :
    (p : Platform) (e : OwnerEvent) (reopened : Bool) (m : ReadModel)
    → IsChained m
    → find_event e.owner_instance_id e.epoch_id e.sequence m.accepted ≡ none
    → IsLinked m.accepted e
    → IsChained (reevaluate_lifecycle (record_event p e reopened m))
unfolding record_event reevaluate_lifecycle
record_event-IsChained p e reopened m h new link = record {
  linked =
      All-append _ m.accepted (e ∷ [])
        (All-mono _ _ m.accepted (IsLinked-later m.accepted e) h.linked)
        (IsLinked-later m.accepted e e link, tt);
  unique =
      All-append _ m.accepted (e ∷ [])
        (All-mono _ _ m.accepted (IsFound-later m.accepted e) h.unique)
        (find_event-new m.accepted e new, tt);
  anchored = advance_cursor-IsAnchored m.accepted e m.cursors new h.anchored;
}

reject-IsChained :
    (e : OwnerEvent) (code : FaultCode) (m : ReadModel)
    → IsChained m
    → IsChained (reject e code m).1
unfolding reject persist_fault
reject-IsChained e code m h = record { linked = h.linked; unique = h.unique; anchored = h.anchored }

accept-IsChained :
    (p : Platform) (e : OwnerEvent) (reopened : Bool) (m : ReadModel)
    → IsChained m
    → find_event e.owner_instance_id e.epoch_id e.sequence m.accepted ≡ none
    → IsLinked m.accepted e
    → IsChained (accept p e reopened m).1
unfolding accept
accept-IsChained p e reopened m h new link =
    elim (Bool-cases (all (has_parent m.accepted) e.causal_parents)) [
      | inr f ↦ rw f (reject-IsChained e FaultCode.causal_parent_missing m h)
      | inl t ↦ rw t (elim (Bool-cases (violates e m)) [
        | inl bad ↦ rw bad h
        | inr fine ↦ rw fine (record_event-IsChained p e reopened m h new link)
      ])
    ]

ingest_new-IsChained :
    (p : Platform) (e : OwnerEvent) (v : Verdict) (m : ReadModel)
    → IsChained m
    → find_event e.owner_instance_id e.epoch_id e.sequence m.accepted ≡ none
    → Justified m.accepted e v
    → IsChained (ingest_new p e v m).1
unfolding ingest_new
ingest_new-IsChained p e (refused_by code) m h new j = reject-IsChained e code m h
ingest_new-IsChained p e follows m h new j = accept-IsChained p e false m h new j
ingest_new-IsChained p e reopens m h new j = accept-IsChained p e true m h new j

-- Whatever event arrives, and however its ingestion ends, the accepted events stay chains: each is the
-- first of its epoch or has the one before it accepted with the digest that it names, each is the only
-- one with its owner's instance, epoch and sequence, and each cursor stands at an accepted event.
pub ingest-IsChained :
    (p : Platform) (e : OwnerEvent) (m : ReadModel) → IsChained m → IsChained (ingest p e m).1
unfolding ingest ingest_checked ingest_valid
ingest-IsChained p e m h = elim (Option-cases (validate_event p e)) [
  | inr (code, invalid) ↦ rw invalid (reject-IsChained e code m h)
  | inl valid ↦
      rw valid
        (elim (Option-cases (find_event e.owner_instance_id e.epoch_id e.sequence m.accepted)) [
          | inr (existing, found) ↦
              rw found (elim (Bool-cases (existing.event_digest == e.event_digest)) [
                | inl same ↦ rw same h
                | inr other ↦ rw other (reject-IsChained e FaultCode.owner_sequence_conflict m h)
              ])
          | inl new ↦ rw new (
              ingest_new-IsChained p e (judge e (find_cursor e.owner_instance_id m.cursors)) m h new
                (judge-Justified m.accepted e m.cursors h.anchored))
        ])
]
