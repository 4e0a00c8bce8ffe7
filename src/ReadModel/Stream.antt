-- ===== src/ReadModel/Stream.antt =====
-- `subscribe` of packages/kogg-operations/src/node/operations-read-model.ts. A cursor is what
-- `decodeCursor` makes of it.
use mathlib.Core.Option
use kogg.Prelude.{
  ℕ, suc, ◌+◌, Bool, true, false, ◌||◌, Option, none, some, List, [], ◌∷◌, take, filter, ltb, leb,
  if◌then◌else◌,
}
use kogg.ReadModel.Tables.{ProjectionChange}
use kogg.ReadModel.Changes.{stream_change_limit, stream_byte_limit}

-- No cursor, the sequence in a cursor, or a cursor that `decodeCursor` refuses.
pub data Resume : Type 0 where
  anew : Resume
  resumed : ℕ → Resume
  not_decoded : Resume

pub data StreamState : Type 0 where
  current_stream resync_required : StreamState

-- `last_key` is the sequence in the cursor that is answered.
pub record Subscription : Type 0 where
  pub state : StreamState
  pub last_key : ℕ
  pub changes : List ProjectionChange

unfoldable pub resync : ℕ → Subscription
resync change_sequence = record {
  state = resync_required;
  last_key = change_sequence;
  changes = [];
}

unfoldable pub after_of : Resume → ℕ
after_of anew = 0
after_of (resumed after) = after
after_of not_decoded = 0

-- Whether changes after the cursor's have been dropped from the history.
unfoldable pub has_expired : Resume → List ProjectionChange → Bool
has_expired (resumed after) (earliest ∷ cs) = ltb (after + 1) earliest.sequence
has_expired (resumed after) [] = false
has_expired anew cs = false
has_expired not_decoded cs = false

unfoldable pub is_undecoded : Resume → Bool
is_undecoded not_decoded = true
is_undecoded anew = false
is_undecoded (resumed after) = false

-- The loop over the rows, with the bytes and the number of the changes so far; none where the buffer is
-- exceeded.
unfoldable pub buffer_rows : ℕ → ℕ → List ProjectionChange → Option (List ProjectionChange)
buffer_rows bytes n [] = some []
buffer_rows bytes n (c ∷ cs) =
    let rest = buffer_rows (bytes + c.approximate_bytes) (suc n) cs in
    if leb stream_change_limit n || ltb stream_byte_limit (bytes + c.approximate_bytes)
    then none
    else Option.map (λ (l : List ProjectionChange). c ∷ l) rest

-- `changes.at(-1)?.sequence ?? after`.
unfoldable pub last_key_of : ℕ → List ProjectionChange → ℕ
last_key_of after [] = after
last_key_of after (c ∷ cs) = last_key_of c.sequence cs

unfoldable pub later_than : ℕ → List ProjectionChange → List ProjectionChange
later_than after changes = filter (λ (c : ProjectionChange). ltb after c.sequence) changes

unfoldable pub subscription_of : ℕ → ℕ → Option (List ProjectionChange) → Subscription
subscription_of after change_sequence none = resync change_sequence
subscription_of after change_sequence (some cs) = record {
  state = current_stream;
  last_key = last_key_of after cs;
  changes = cs;
}

unfoldable pub subscribe : Resume → ℕ → List ProjectionChange → Subscription
subscribe r change_sequence changes =
    if is_undecoded r || has_expired r changes
    then resync change_sequence
    else subscription_of (after_of r) change_sequence
        (buffer_rows 0 0 (take 1001 (later_than (after_of r) changes)))
