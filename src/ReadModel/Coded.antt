-- ===== src/ReadModel/Coded.antt =====
-- The coding of cursors of packages/kogg-operations/src/node/operations-read-model.ts goes round.
use kogg.Prelude.{
  ℕ, ℕ-Eq, ◌+◌, ◌≤◌, String, String-Eq, Bool, true, false, not, ◌&&◌, some, List, [], ◌∷◌, ◌++◌,
  ◌==◌, ◌≡◌, refl, length, ltb, includes, ◌∙◌, if◌then◌else◌, arith, inl, inr, Bool-cases, ==_refl,
}
use kogg.Text.{is_hex64}
use kogg.ReadModel.Events.{Platform}
use kogg.ReadModel.RunPages.{PagePosition}
use kogg.ReadModel.Cursors.{
  JsonMember, json_text, json_integer, json_object, Coding, CursorKind, runs_cursor,
  timeline_cursor, stream_cursor, cursor_kind_text, Cursor, cursor_text, sign_payload, cursor_at,
  encode_cursor, is_cursor, decoded, cursor_resync_required, is_wanted, read_cursor, dot_free,
  split_dots, same_bytes, has_extra, verify_cursor, decode_parts, decode_cursor,
}

-- The members of a cursor, by their keys.
abbrev pub cursor_members : Cursor → List (String × JsonMember)
cursor_members c =
    ("expiresAt", json_integer c.expires_at)
    ∷ ("kind", json_text (cursor_kind_text c.kind))
    ∷ ("lastKey", json_text c.last_key)
    ∷ ("projectionEpoch", json_text c.projection_epoch)
    ∷ ("queryDigest", json_text c.query_digest)
    ∷ ("sortKey", json_text c.sort_key)
    ∷ []

abbrev pub is_part : List ℕ → Bool
is_part [] = false
is_part (c ∷ cs) = dot_free (c ∷ cs)

-- What the coding of a cursor relies on: `base64url` reads back what it wrote, its texts are not empty
-- and have no dot, and `JSON.parse` reads what `canonical` wrote.
pub record IsCoded (k : Coding) (p : Platform) (key : String) (c : Cursor) : Type 0 where
  pub text_back : k.decode_text (k.encode_text (cursor_text p c)) ≡ cursor_text p c
  pub signature_back :
      k.decode_bytes (k.encode_bytes (k.hmac key (k.encode_text (cursor_text p c))))
      ≡ k.hmac key (k.encode_text (cursor_text p c))
  pub payload_part : is_part (k.encode_text (cursor_text p c)) ≡ true
  pub signature_part :
      is_part (k.encode_bytes (k.hmac key (k.encode_text (cursor_text p c)))) ≡ true
  pub parsed : k.parse (cursor_text p c) ≡ some (json_object (cursor_members c))

dot_free-apart :
    (c : ℕ) (cs : List ℕ) → dot_free (c ∷ cs) ≡ true → ((c == b'.') ≡ false) × (dot_free cs ≡ true)
dot_free-apart c cs h = elim (Bool-cases (c == b'.')) [
  | inl t ↦ absurd (cc (rw t at h))
  | inr f ↦ (f, (rw f at h))
]

split_dots-part : (cs : List ℕ) → dot_free cs ≡ true → split_dots cs ≡ cs ∷ []
unfolding split_dots
split_dots-part [] h = refl
split_dots-part (c ∷ cs) h =
    let (plain, rest) = dot_free-apart c cs h in rw (plain, split_dots-part cs rest) refl

split_dots-append :
    (cs ds : List ℕ)
    → dot_free cs ≡ true
    → dot_free ds ≡ true
    → split_dots (cs ++ b'.' ∷ ds) ≡ cs ∷ ds ∷ []
unfolding split_dots
split_dots-append [] ds h k = rw (split_dots-part ds k) refl
split_dots-append (c ∷ cs) ds h k =
    let (plain, rest) = dot_free-apart c cs h in rw (plain, split_dots-append cs ds rest k) refl

same_bytes_refl : (bs : List ℕ) → same_bytes bs bs ≡ true
unfolding same_bytes
same_bytes_refl [] = refl
same_bytes_refl (b ∷ bs) = rw (==_refl b, same_bytes_refl bs) refl

kind_listed :
    (kind : CursorKind)
    → includes ("runs" ∷ "timeline" ∷ "stream" ∷ []) (cursor_kind_text kind) ≡ true
unfolding cursor_kind_text
kind_listed runs_cursor = refl
kind_listed timeline_cursor = refl
kind_listed stream_cursor = refl

cursor_members-valid :
    (c : Cursor) → is_hex64 c.query_digest ≡ true → is_cursor (cursor_members c) ≡ true
unfolding is_cursor
cursor_members-valid c h = rw (kind_listed c.kind, h) refl

-- Whether a cursor is of another kind, query or epoch, or has expired.
abbrev pub answers : String → ℕ → CursorKind → String → Cursor → Bool
answers epoch now kind query_digest c =
    cursor_kind_text c.kind == cursor_kind_text kind
    && (c.query_digest == query_digest
        && (c.projection_epoch == epoch && not (ltb c.expires_at now)))

module _ (k : Coding) (p : Platform) (key epoch : String) (now : ℕ) (kind : CursorKind)
    (query_digest : String) where
  read_cursor-members :
      (c : Cursor)
      → is_hex64 c.query_digest ≡ true
      → read_cursor epoch now kind query_digest (some (json_object (cursor_members c))) ≡ (
          if answers epoch now kind query_digest c
          then decoded (record { last_key = c.last_key; sort_key = c.sort_key })
          else cursor_resync_required)
  unfolding read_cursor is_wanted
  read_cursor-members c h = rw (cursor_members-valid c h) refl

  verify_cursor-signed :
      (c : Cursor)
      → IsCoded k p key c
      → is_hex64 c.query_digest ≡ true
      → verify_cursor k key epoch now kind query_digest
          (k.encode_text (cursor_text p c))
          (k.encode_bytes (k.hmac key (k.encode_text (cursor_text p c))))
        ≡ (if answers epoch now kind query_digest c
            then decoded (record { last_key = c.last_key; sort_key = c.sort_key })
            else cursor_resync_required)
  unfolding verify_cursor
  verify_cursor-signed c coded h =
      rw
        (
          coded.signature_back,
          same_bytes_refl (k.hmac key (k.encode_text (cursor_text p c))),
          coded.text_back,
          coded.parsed,
        )
        (read_cursor-members c h)

  decode_parts-two :
      (payload signature : List ℕ)
      → is_part payload ≡ true
      → is_part signature ≡ true
      → decode_parts k key epoch now kind query_digest (payload ∷ signature ∷ [])
        ≡ verify_cursor k key epoch now kind query_digest payload signature
  unfolding decode_parts has_extra
  decode_parts-two [] signature h g = absurd cc
  decode_parts-two (c ∷ cs) [] h g = absurd cc
  decode_parts-two (c ∷ cs) (d ∷ ds) h g = refl

part-dot_free : (cs : List ℕ) → is_part cs ≡ true → dot_free cs ≡ true
part-dot_free [] h = refl
part-dot_free (c ∷ cs) h = h

within : (n : ℕ) → n ≤ 2048 → ltb 2048 n ≡ false
within n h = ground arith

parts_of :
    (k : Coding) (p : Platform) (key epoch : String) (now : ℕ) (kind : CursorKind)
    (query_digest : String) (position : PagePosition)
    → IsCoded k p key (cursor_at epoch now kind query_digest position)
    → split_dots (encode_cursor k p key epoch now kind query_digest position)
      ≡ k.encode_text (cursor_text p (cursor_at epoch now kind query_digest position))
        ∷ k.encode_bytes (
            k.hmac key
              (k.encode_text (cursor_text p (cursor_at epoch now kind query_digest position))))
        ∷ []
unfolding encode_cursor sign_payload
parts_of k p key epoch now kind query_digest position coded =
    let payload = k.encode_text (cursor_text p (cursor_at epoch now kind query_digest position)) in
    split_dots-append payload (k.encode_bytes (k.hmac key payload))
      (part-dot_free payload coded.payload_part)
      (part-dot_free (k.encode_bytes (k.hmac key payload)) coded.signature_part)

-- Whatever kind, query, epoch and time it is decoded for, an encoded cursor is decoded to the position
-- that was encoded exactly where the kind, the query and the epoch are those that it was encoded for
-- and the time is at most a quarter of an hour later; otherwise it asks for a new start, and it is
-- never taken for an invalid one. The coding must read back what it wrote, the digest of the query be
-- 64 hexadecimal digits, and the encoded text be of at most 2048 characters.
pub decode_cursor-encode_cursor :
    (k : Coding) (p : Platform) (key epoch epoch' : String) (now now' : ℕ) (kind kind' : CursorKind)
    (query_digest query_digest' : String) (position : PagePosition)
    → IsCoded k p key (cursor_at epoch now kind query_digest position)
    → is_hex64 query_digest ≡ true
    → length (encode_cursor k p key epoch now kind query_digest position) ≤ 2048
    → decode_cursor k key epoch' now' kind' query_digest'
        (encode_cursor k p key epoch now kind query_digest position)
      ≡ (if cursor_kind_text kind == cursor_kind_text kind'
            && (query_digest == query_digest' && (epoch == epoch' && not (ltb (now + 900000) now')))
          then decoded position
          else cursor_resync_required)
unfolding decode_cursor
decode_cursor-encode_cursor k p key epoch epoch' now now' kind kind' query_digest query_digest'
      position coded digest short =
    let c = cursor_at epoch now kind query_digest position in
    rw
      (
        within (length (encode_cursor k p key epoch now kind query_digest position)) short,
        parts_of k p key epoch now kind query_digest position coded,
      )
      (decode_parts-two k p key epoch' now' kind' query_digest' (k.encode_text (cursor_text p c))
          (k.encode_bytes (k.hmac key (k.encode_text (cursor_text p c)))) coded.payload_part
          coded.signature_part
        ∙ verify_cursor-signed k p key epoch' now' kind' query_digest' c coded digest)
