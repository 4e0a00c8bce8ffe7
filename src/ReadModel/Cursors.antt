-- ===== src/ReadModel/Cursors.antt =====
-- `encodeCursor`, `decodeCursor` and `isCursor` of
-- packages/kogg-operations/src/node/operations-read-model.ts. An encoded cursor is its code units. The
-- key of the store is an argument; `base64url`, the HMAC and `JSON.parse` are parameters.
use kogg.Prelude.{
  ℕ, ℕ-Eq, ◌+◌, String, String-Eq, Bool, true, false, not, ◌&&◌, ◌||◌, Option, none, some, List, [],
  ◌∷◌, ◌++◌, ◌==◌, map, length, ltb, includes, if◌then◌else◌,
}
use kogg.Text.{is_hex64}
use kogg.ReadModel.Events.{Platform}
use kogg.ReadModel.Canonical.{object_text, sort_entries, join_comma}
use kogg.ReadModel.RunPages.{PagePosition}

-- A member of what `JSON.parse` gives: a text, a natural number that is a safe integer, or anything
-- else.
pub data JsonMember : Type 0 where
  json_text : String → JsonMember
  json_integer : ℕ → JsonMember
  json_other : JsonMember

-- What `JSON.parse` gives: an object with its members, or anything else.
pub data JsonValue : Type 0 where
  json_object : List (String × JsonMember) → JsonValue
  json_no_object : JsonValue

-- `Buffer` from and to `base64url`, of a text and of bytes, the bytes of the HMAC under a key, and
-- `JSON.parse`, none where it throws.
pub record Coding : Type 0 where
  pub encode_text : String → List ℕ
  pub decode_text : List ℕ → String
  pub encode_bytes : List ℕ → List ℕ
  pub decode_bytes : List ℕ → List ℕ
  pub hmac : String → List ℕ → List ℕ
  pub parse : String → Option JsonValue

pub data CursorKind : Type 0 where
  runs_cursor timeline_cursor stream_cursor : CursorKind

unfoldable pub cursor_kind_text : CursorKind → String
cursor_kind_text runs_cursor = "runs"
cursor_kind_text timeline_cursor = "timeline"
cursor_kind_text stream_cursor = "stream"

pub record Cursor : Type 0 where
  pub kind : CursorKind
  pub projection_epoch : String
  pub query_digest : String
  pub last_key : String
  pub sort_key : String
  pub expires_at : ℕ

-- `canonical` of the cursor.
unfoldable pub cursor_text : Platform → Cursor → String
cursor_text p c = object_text p (
    ("kind", p.stringify (cursor_kind_text c.kind))
    ∷ ("projectionEpoch", p.stringify c.projection_epoch)
    ∷ ("queryDigest", p.stringify c.query_digest)
    ∷ ("lastKey", p.stringify c.last_key)
    ∷ ("sortKey", p.stringify c.sort_key)
    ∷ ("expiresAt", p.stringify_number c.expires_at)
    ∷ [])

unfoldable pub sign_payload : Coding → String → List ℕ → List ℕ
sign_payload k key payload = payload ++ b'.' ∷ k.encode_bytes (k.hmac key payload)

abbrev pub cursor_at : String → ℕ → CursorKind → String → PagePosition → Cursor
cursor_at epoch now kind query_digest position = record {
  kind = kind;
  projection_epoch = epoch;
  query_digest = query_digest;
  last_key = position.last_key;
  sort_key = position.sort_key;
  expires_at = now + 900000;
}

-- `encodeCursor`.
unfoldable pub encode_cursor :
    Coding → Platform → String → String → ℕ → CursorKind → String → PagePosition → List ℕ
encode_cursor k p key epoch now kind query_digest position =
    sign_payload k key
      (k.encode_text (cursor_text p (cursor_at epoch now kind query_digest position)))

abbrev member : String → List (String × JsonMember) → JsonMember
member key [] = json_other
member key ((name, v) ∷ members) =
    let later = member key members in if name == key then v else later

abbrev is_text : JsonMember → Bool
is_text (json_text t) = true
is_text (json_integer n) = false
is_text json_other = false

abbrev is_text_that : (String → Bool) → JsonMember → Bool
is_text_that test (json_text t) = test t
is_text_that test (json_integer n) = false
is_text_that test json_other = false

abbrev is_number_that : (ℕ → Bool) → JsonMember → Bool
is_number_that test (json_text t) = false
is_number_that test (json_integer n) = test n
is_number_that test json_other = false

abbrev text_of : JsonMember → String
text_of (json_text t) = t
text_of (json_integer n) = ""
text_of json_other = ""

abbrev pub sorted_keys : List (String × JsonMember) → String
sorted_keys members = join_comma (
    map (λ (e : String × String). e.0)
      (sort_entries (map (λ (e : String × JsonMember). (e.0, "")) members)))

-- `isCursor`, of an object.
unfoldable pub is_cursor : List (String × JsonMember) → Bool
is_cursor members =
    sorted_keys members == "expiresAt,kind,lastKey,projectionEpoch,queryDigest,sortKey"
    && (is_text_that (includes ("runs" ∷ "timeline" ∷ "stream" ∷ [])) (member "kind" members)
        && (is_text (member "projectionEpoch" members)
            && (is_text_that is_hex64 (member "queryDigest" members)
                && (is_text (member "lastKey" members)
                    && (is_text (member "sortKey" members)
                        && is_number_that (λ n. true) (member "expiresAt" members))))))

-- What `decodeCursor` returns, or the fault that it throws.
pub data Decoded : Type 0 where
  decoded : PagePosition → Decoded
  cursor_invalid cursor_resync_required : Decoded

-- Whether the cursor is of this kind, query and epoch, and has not expired.
unfoldable pub is_wanted : String → ℕ → CursorKind → String → List (String × JsonMember) → Bool
is_wanted epoch now kind query_digest members =
    is_text_that (λ t. t == cursor_kind_text kind) (member "kind" members)
    && (is_text_that (λ t. t == query_digest) (member "queryDigest" members)
        && (is_text_that (λ t. t == epoch) (member "projectionEpoch" members)
            && is_number_that (λ n. not (ltb n now)) (member "expiresAt" members)))

unfoldable pub read_cursor : String → ℕ → CursorKind → String → Option JsonValue → Decoded
read_cursor epoch now kind query_digest none = cursor_invalid
read_cursor epoch now kind query_digest (some json_no_object) = cursor_resync_required
read_cursor epoch now kind query_digest (some (json_object members)) =
    if is_cursor members && is_wanted epoch now kind query_digest members
    then decoded (record {
      last_key = text_of (member "lastKey" members);
      sort_key = text_of (member "sortKey" members);
    })
    else cursor_resync_required

abbrev pub dot_free : List ℕ → Bool
dot_free [] = true
dot_free (c ∷ cs) = not (c == b'.') && dot_free cs

abbrev extend : ℕ → List (List ℕ) → List (List ℕ)
extend c [] = (c ∷ []) ∷ []
extend c (part ∷ parts) = (c ∷ part) ∷ parts

-- `encoded.split('.')`.
unfoldable pub split_dots : List ℕ → List (List ℕ)
split_dots [] = [] ∷ []
split_dots (c ∷ cs) = let later = split_dots cs in if c == b'.' then [] ∷ later else extend c later

-- The lengths are equal, and `timingSafeEqual`.
unfoldable pub same_bytes : List ℕ → List ℕ → Bool
same_bytes [] [] = true
same_bytes [] (b ∷ bs) = false
same_bytes (a ∷ as') [] = false
same_bytes (a ∷ as') (b ∷ bs) = a == b && same_bytes as' bs

abbrev is_nil : List ℕ → Bool
is_nil [] = true
is_nil (c ∷ cs) = false

-- Whether there is an `extra` part that is not empty.
unfoldable pub has_extra : List (List ℕ) → Bool
has_extra [] = false
has_extra (extra ∷ parts) = not (is_nil extra)

module _ (k : Coding) (key epoch : String) (now : ℕ) (kind : CursorKind)
    (query_digest : String) where
  -- From the comparison of the signatures on.
  unfoldable pub verify_cursor : List ℕ → List ℕ → Decoded
  verify_cursor payload signature =
      if same_bytes (k.decode_bytes signature) (k.hmac key payload)
      then read_cursor epoch now kind query_digest (k.parse (k.decode_text payload))
      else cursor_invalid

  unfoldable pub decode_parts : List (List ℕ) → Decoded
  decode_parts [] = cursor_invalid
  decode_parts (payload ∷ []) = cursor_invalid
  decode_parts (payload ∷ signature ∷ parts) =
      if is_nil payload || (is_nil signature || has_extra parts)
      then cursor_invalid
      else verify_cursor payload signature

  -- `decodeCursor`.
  unfoldable pub decode_cursor : List ℕ → Decoded
  decode_cursor encoded =
      if ltb 2048 (length encoded) then cursor_invalid else decode_parts (split_dots encoded)
