-- ===== src/ReadModel/Streamed.antt =====
-- A subscription of packages/kogg-operations/src/node/operations-read-model.ts gives what the history
-- has.
use kogg.Prelude.{
  ◌⊎◌, ◌<◌, ◌++◌, All, any, ◌==◌, ==_refl, ℕ-Eq, ap, true, take, ℕ, suc, arith, ◌+◌, ◌≤◌, false,
  ◌||◌, some, List, [], ◌∷◌, ◌≡◌, refl, inl, inr, length, take-whole, ltb, leb, Bool-cases,
}
use kogg.ReadModel.Tables.{ProjectionChange}
use kogg.ReadModel.Changes.{stream_change_limit, stream_byte_limit, retained_bytes}
use kogg.ReadModel.Stream.{
  Resume, anew, resumed, not_decoded, Subscription, resync_required, resync, current_stream,
  after_of, has_expired, is_undecoded, buffer_rows, last_key_of, later_than, subscription_of,
  subscribe,
}

fits :
    (bytes n : ℕ)
    → bytes ≤ 1048576
    → suc n ≤ 1000
    → (leb stream_change_limit n || ltb stream_byte_limit bytes) ≡ false
fits bytes n b h = ground arith

-- The buffer is not exceeded by rows that are within its bounds.
buffer_rows-some :
    (bytes n : ℕ) (cs : List ProjectionChange)
    → bytes + retained_bytes cs ≤ 1048576
    → n + length cs ≤ 1000
    → buffer_rows bytes n cs ≡ some cs
unfolding buffer_rows retained_bytes
buffer_rows-some bytes n [] b h = refl
buffer_rows-some bytes n (c ∷ cs) b h =
    rw
      (
        fits (bytes + c.approximate_bytes) n (omega arith) (omega arith),
        buffer_rows-some (bytes + c.approximate_bytes) (suc n) cs (omega arith) (omega arith),
      )
      refl

length-later_than :
    (after : ℕ) (cs : List ProjectionChange) → length (later_than after cs) ≤ length cs
unfolding later_than
length-later_than after [] = omega arith
length-later_than after (c ∷ cs) = elim (Bool-cases (ltb after c.sequence)) [
  | inl t ↦ rw t (omega (arith, length-later_than after cs))
  | inr f ↦ rw f (omega (arith, length-later_than after cs))
]

retained_bytes-later_than :
    (after : ℕ) (cs : List ProjectionChange)
    → retained_bytes (later_than after cs) ≤ retained_bytes cs
unfolding later_than retained_bytes
retained_bytes-later_than after [] = omega arith
retained_bytes-later_than after (c ∷ cs) = elim (Bool-cases (ltb after c.sequence)) [
  | inl t ↦ rw t (omega (arith, retained_bytes-later_than after cs))
  | inr f ↦ rw f (omega (arith, retained_bytes-later_than after cs))
]

-- The sequences of a history rise from above a bound.
abbrev pub Rises : ℕ → List ProjectionChange → Type 0
Rises low [] = Unit
Rises low (c ∷ cs) = (low < c.sequence) × Rises c.sequence cs

-- A cursor does not stand behind the last change.
abbrev pub IsReached : Resume → ℕ → Type 0
IsReached anew change_sequence = Unit
IsReached (resumed after) change_sequence = after ≤ change_sequence
IsReached not_decoded change_sequence = Unit

-- Where a client stands whose next change the history still has.
abbrev pub StandsAfter : Resume → List ProjectionChange → ℕ → Type 0
StandsAfter anew changes after = after ≡ 0
StandsAfter (resumed k) [] after = after ≡ k
StandsAfter (resumed k) (c ∷ cs) after = (after ≡ k) × (c.sequence ≤ suc k)
StandsAfter not_decoded changes after = ⊥

-- The cursor is refused, or the change after it is no longer in the history.
abbrev pub IsLost : Resume → List ProjectionChange → Type 0
IsLost anew changes = ⊥
IsLost (resumed k) [] = ⊥
IsLost (resumed k) (c ∷ cs) = suc k < c.sequence
IsLost not_decoded changes = Unit

-- The answer continues a history behind a sequence: it has all later changes, in their order, and its
-- cursor stands at the last of them, or where it stood if there are none.
pub record Continues (after : ℕ) (changes : List ProjectionChange) (s : Subscription) : Type 0 where
  pub is_current : s.state ≡ current_stream
  pub known : List ProjectionChange
  pub whole : known ++ s.changes ≡ changes
  pub known_before : All (λ (c : ProjectionChange). c.sequence ≤ after) known
  pub given_after : All (λ (c : ProjectionChange). after < c.sequence) s.changes
  pub cursor_behind : All (λ (c : ProjectionChange). c.sequence ≤ s.last_key) s.changes
  pub cursor_stands :
      ((s.changes ≡ []) × (s.last_key ≡ after))
      ⊎ (any (λ (c : ProjectionChange). c.sequence == s.last_key) s.changes ≡ true)

later_than-all :
    (after low : ℕ) (cs : List ProjectionChange)
    → after ≤ low
    → Rises low cs
    → (later_than after cs ≡ cs) × All (λ (c : ProjectionChange). after < c.sequence) cs
unfolding later_than
later_than-all after low [] h rises = (refl, tt)
later_than-all after low (c ∷ cs) h rises =
    let here : low < c.sequence = rises.0 in
    let (rest, above) = later_than-all after c.sequence cs (omega arith) rises.1 in
    let passes : ltb after c.sequence ≡ true = ground arith in
    (rw passes (ap (λ l. c ∷ l) rest), (omega arith, above))

-- What is later than a sequence is the end of a history that rises.
split :
    (after low : ℕ) (cs : List ProjectionChange)
    → Rises low cs
    → (known : List ProjectionChange) × (known ++ later_than after cs ≡ cs)
      × All (λ (c : ProjectionChange). c.sequence ≤ after) known
      × All (λ (c : ProjectionChange). after < c.sequence) (later_than after cs)
      × Rises after (later_than after cs)
unfolding later_than
split after low [] rises = ([], refl, tt, tt, tt)
split after low (c ∷ cs) rises = elim (Bool-cases (ltb after c.sequence)) [
  | inl t ↦
      let above : after < c.sequence = ground arith in
      let (rest, later) = later_than-all after c.sequence cs (omega arith) rises.1 in
      rw t ([], ap (λ l. c ∷ l) rest, tt, (above, rw rest later), (above, rw rest rises.1))
  | inr f ↦
      let below : c.sequence ≤ after = ground arith in
      let (known, whole, before, later, up) = split after c.sequence cs rises.1 in
      rw f (c ∷ known, ap (λ l. c ∷ l) whole, (below, before), later, up)
]

last_key_of-bound :
    (after : ℕ) (cs : List ProjectionChange)
    → Rises after cs
    → (after ≤ last_key_of after cs)
      × All (λ (c : ProjectionChange). c.sequence ≤ last_key_of after cs) cs
unfolding last_key_of
last_key_of-bound after [] rises = (omega arith, tt)
last_key_of-bound after (c ∷ cs) rises =
    let here : after < c.sequence = rises.0 in
    let (low, all_low) = last_key_of-bound c.sequence cs rises.1 in (omega arith, (low, all_low))

last_key_of-at :
    (after : ℕ) (cs : List ProjectionChange)
    → ((cs ≡ []) × (last_key_of after cs ≡ after))
      ⊎ (any (λ (c : ProjectionChange). c.sequence == last_key_of after cs) cs ≡ true)
unfolding last_key_of
last_key_of-at after [] = inl (refl, refl)
last_key_of-at after (c ∷ cs) = elim (last_key_of-at c.sequence cs) [
  | inl h ↦ inr (rw (h.1, ==_refl c.sequence) refl)
  | inr h ↦ inr (ground (arith, h))
]

buffered :
    (after change_sequence : ℕ) (changes : List ProjectionChange)
    → length changes ≤ 1000
    → retained_bytes changes ≤ 1048576
    → subscription_of after change_sequence (buffer_rows 0 0 (take 1001 (later_than after changes)))
      ≡ record {
        state = current_stream;
        last_key = last_key_of after (later_than after changes);
        changes = later_than after changes;
      }
unfolding subscription_of
buffered after change_sequence changes short small =
    let n = length-later_than after changes in
    let b = retained_bytes-later_than after changes in
    rw
      (
        take-whole 1001 (later_than after changes) (omega arith),
        buffer_rows-some 0 0 (later_than after changes) (omega arith) (omega arith),
      )
      refl

buffered-Continues :
    (after change_sequence : ℕ) (changes : List ProjectionChange)
    → Rises 0 changes
    → length changes ≤ 1000
    → retained_bytes changes ≤ 1048576
    → Continues after changes (
        subscription_of after change_sequence
          (buffer_rows 0 0 (take 1001 (later_than after changes))))
buffered-Continues after change_sequence changes rises short small =
    let (known, whole, before, later, up) = split after 0 changes rises in
    rw (buffered after change_sequence changes short small) (record {
      is_current = refl;
      known = known;
      whole = whole;
      known_before = before;
      given_after = later;
      cursor_behind = (last_key_of-bound after (later_than after changes) up).1;
      cursor_stands = last_key_of-at after (later_than after changes);
    })

-- A history whose sequences rise and which is within its bounds, and a cursor that is not ahead of it:
-- a client with no cursor, or with one whose next change the history still has, is given every change
-- after its cursor in the order of the history, and its new cursor is at the last of them, or where it
-- was if there is none. Only a client whose cursor is refused, or the change after it dropped, is told
-- to start again, at the last change and with no changes.
pub subscribe-whole :
    (r : Resume) (change_sequence : ℕ) (changes : List ProjectionChange)
    → Rises 0 changes
    → length changes ≤ 1000
    → retained_bytes changes ≤ 1048576
    → IsReached r change_sequence
    → ((after : ℕ) × StandsAfter r changes after
        × Continues after changes (subscribe r change_sequence changes))
      ⊎ (IsLost r changes
          × (subscribe r change_sequence changes
              ≡ record { state = resync_required; last_key = change_sequence; changes = [] }))
unfolding subscribe is_undecoded has_expired after_of resync
subscribe-whole anew change_sequence changes rises short small reached =
    inl (0, refl, buffered-Continues 0 change_sequence changes rises short small)
subscribe-whole not_decoded change_sequence changes rises short small reached = inr (tt, refl)
subscribe-whole (resumed k) change_sequence [] rises short small reached =
    inl (k, refl, buffered-Continues k change_sequence [] rises short small)
subscribe-whole (resumed k) change_sequence (c ∷ cs) rises short small reached =
    elim (Bool-cases (ltb (k + 1) c.sequence)) [
      | inl t ↦ let lost : suc k < c.sequence = ground arith in rw t (inr (lost, refl))
      | inr f ↦
          let kept : c.sequence ≤ suc k = ground arith in
          rw f
            (inl (k, (refl, kept), buffered-Continues k change_sequence (c ∷ cs) rises short small))
    ]
