-- ===== src/ReadModel/Changes.antt =====
-- `appendChange` of packages/kogg-operations/src/node/operations-read-model.ts: the bounded history of
-- changes.
use Prim.Native.String.{count}
use kogg.Prelude.{
  ℕ, ◌+◌, ◌-◌, String, Bool, not, ◌&&◌, Option, none, some, List, [], ◌∷◌, ◌++◌, drop, length, ltb,
  if◌then◌else◌,
}
use kogg.Text.{ends_with}
use kogg.ReadModel.Tables.{ChangeKind, ProjectionChange}

-- `STREAM_CHANGE_LIMIT` and `STREAM_BYTE_LIMIT`.
abbrev pub stream_change_limit : ℕ
stream_change_limit = 1000

abbrev pub stream_byte_limit : ℕ
stream_byte_limit = 1048576

-- `protectedEvent`.
unfoldable pub is_protected_event : String → Bool
is_protected_event kind =
    not (ends_with kind ".activity")
    && (not (ends_with kind ".updated") && not (ends_with kind ".observed"))

-- `sum(approximate_bytes)`.
unfoldable pub retained_bytes : List ProjectionChange → ℕ
retained_bytes [] = 0
retained_bytes (c ∷ cs) = c.approximate_bytes + retained_bytes cs

-- The loop over the oldest rows, which stand first.
unfoldable pub drop_bytes : List ProjectionChange → List ProjectionChange
drop_bytes [] = []
drop_bytes (c ∷ cs) =
    let rest = drop_bytes cs in
    if ltb stream_byte_limit (retained_bytes (c ∷ cs)) then rest else c ∷ cs

abbrev text_length : Option String → ℕ
text_length none = 0
text_length (some s) = count s

unfoldable pub new_change : ChangeKind → Option String → Bool → ℕ → ProjectionChange
new_change kind run_id is_protected sequence = record {
  sequence = sequence + 1;
  kind = kind;
  run_id = run_id;
  is_protected = is_protected;
  approximate_bytes = 96 + text_length run_id;
}

unfoldable pub append_change :
    ChangeKind → Option String → Bool → ℕ → List ProjectionChange → ℕ × List ProjectionChange
append_change kind run_id is_protected sequence changes =
    let rows = changes ++ new_change kind run_id is_protected sequence ∷ [] in
    (sequence + 1, drop_bytes (drop (length rows - stream_change_limit) rows))
