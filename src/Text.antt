-- ===== src/Text.antt =====
-- Texts as code units, and the regular expressions that the packages test identifiers with.
use Prim.Native.Char.{code}
use kogg.Prelude.{
  if◌then◌else◌, none, map, some, Option, ℕ, zero, suc, ◌≡◌, refl, String, Bool, true, false, ◌&&◌,
  ◌||◌, List, [], ◌∷◌, ◌++◌, ◌==◌, ℕ-Eq, leb, ltb, all, length,
}

-- The code points of a text.
abbrev pub codes : String → List ℕ
codes String.[] = []
codes (String.◌∷◌ c s) = code c ∷ codes s

pub is_digit : ℕ → Bool
is_digit c = leb b'0' c && leb c b'9'

pub is_lower_hex : ℕ → Bool
unfolding is_digit
is_lower_hex c = is_digit c || (leb b'a' c && leb c b'f')

pub is_alphanumeric : ℕ → Bool
unfolding is_digit
is_alphanumeric c = is_digit c || ((leb b'a' c && leb c b'z') || (leb b'A' c && leb c b'Z'))

-- A regular expression that is a fixed row of character classes, `^[..][..]…$`.
abbrev pub matches_row : List (ℕ → Bool) → List ℕ → Bool
matches_row [] [] = true
matches_row [] (c ∷ cs) = false
matches_row (p ∷ ps) [] = false
matches_row (p ∷ ps) (c ∷ cs) = p c && matches_row ps cs

abbrev times : ℕ → (ℕ → Bool) → List (ℕ → Bool)
times zero p = []
times (suc n) p = p ∷ times n p

-- The variant digit of a version 4 identifier, `[89ab]`.
is_variant : ℕ → Bool
is_variant c = (c == b'8' || c == b'9') || (c == b'a' || c == b'b')

uuid_row : List (ℕ → Bool)
unfolding is_lower_hex is_variant
uuid_row =
    let dash = λ (c : ℕ). c == b'-' in
    times 8 is_lower_hex
    ++ (dash
        ∷ (times 4 is_lower_hex
            ++ (dash
                ∷ (λ c. c == b'4')
                ∷ (times 3 is_lower_hex
                    ++ (dash
                        ∷ is_variant
                        ∷ (times 3 is_lower_hex ++ (dash ∷ times 12 is_lower_hex)))))))

-- `UUID.test(value)`.
unfoldable pub is_uuid : String → Bool
unfolding uuid_row
is_uuid s = matches_row uuid_row (codes s)

is_safe_char : ℕ → Bool
unfolding is_alphanumeric
is_safe_char c = is_alphanumeric c || ((c == b'.' || c == b'_') || (c == b':' || c == b'-'))

safe_id_codes : List ℕ → Bool
unfolding is_alphanumeric is_safe_char
safe_id_codes [] = false
safe_id_codes (c ∷ cs) = is_alphanumeric c && (all is_safe_char cs && ltb (length cs) 128)

-- `SAFE_ID.test(value)`: a letter or digit, then at most 127 characters of `[a-zA-Z0-9._:-]`.
unfoldable pub is_safe_id : String → Bool
unfolding safe_id_codes
is_safe_id s = safe_id_codes (codes s)

hex64_row : List (ℕ → Bool)
unfolding is_lower_hex
hex64_row = times 64 is_lower_hex

-- A text that starts with `prefix`, and what stands behind it goes through `rest`.
abbrev after_prefix : List ℕ → (List ℕ → Bool) → List ℕ → Bool
after_prefix [] rest cs = rest cs
after_prefix (p ∷ ps) rest [] = false
after_prefix (p ∷ ps) rest (c ∷ cs) = p == c && after_prefix ps rest cs

-- `/^sha256:[0-9a-f]{64}$/u.test(value)`.
unfoldable pub is_digest : String → Bool
unfolding hex64_row
is_digest s = after_prefix (codes "sha256:") (matches_row hex64_row) (codes s)

abbrev a_uuid : String
a_uuid = "3f2504e0-4f89-41d3-9a0c-0305e82c3301"

is_uuid_test : is_uuid a_uuid ≡ true
unfolding is_uuid
is_uuid_test = refl

is_uuid_version_test : is_uuid "3f2504e0-4f89-11d3-9a0c-0305e82c3301" ≡ false
unfolding is_uuid
is_uuid_version_test = refl

is_safe_id_test : is_safe_id "run:1.a-b" ≡ true
unfolding is_safe_id
is_safe_id_test = refl

-- `/^[a-f0-9]{64}$/u.test(value)`.
unfoldable pub is_hex64 : String → Bool
unfolding hex64_row
is_hex64 s = matches_row hex64_row (codes s)

is_upper : ℕ → Bool
is_upper c = leb b'A' c && leb c b'Z'

is_code_char : ℕ → Bool
unfolding is_upper is_digit
is_code_char c = is_upper c || (is_digit c || c == b'_')

safe_code_codes : List ℕ → Bool
unfolding is_upper is_code_char
safe_code_codes [] = false
safe_code_codes (c ∷ cs) = is_upper c && (all is_code_char cs && ltb (length cs) 64)

-- `/^[A-Z][A-Z0-9_]{0,63}$/u.test(value)`.
unfoldable pub is_safe_code : String → Bool
unfolding safe_code_codes
is_safe_code s = safe_code_codes (codes s)

safe_text_codes : List ℕ → Bool
unfolding is_safe_char
safe_text_codes cs = ltb 0 (length cs) && (leb (length cs) 64 && all is_safe_char cs)

-- `/^[A-Za-z0-9._:-]+$/u.test(value)`, for a text of one to 64 characters.
unfoldable pub is_safe_text : String → Bool
unfolding safe_text_codes
is_safe_text s = safe_text_codes (codes s)

ends_with_from : List ℕ → List ℕ → Bool
ends_with_from suffix [] = matches_row (map (λ c d. c == d) suffix) []
ends_with_from suffix (c ∷ cs) =
    let later = ends_with_from suffix cs in
    if matches_row (map (λ x y. x == y) suffix) (c ∷ cs) then true else later

-- `value.endsWith(suffix)`.
unfoldable pub ends_with : String → String → Bool
unfolding ends_with_from
ends_with s suffix = ends_with_from (codes suffix) (codes s)

-- What stands behind the first dot, and behind the last one.
abbrev behind_dot : String → Option String
behind_dot String.[] = none
behind_dot (String.◌∷◌ c s) = let later = behind_dot s in if code c == b'.' then some s else later

abbrev behind_last_dot : String → Option String
behind_last_dot String.[] = none
behind_last_dot (String.◌∷◌ c s) = elim (behind_last_dot s) as (λ _. Option String) [
  | some t ↦ some t
  | none ↦ if code c == b'.' then some s else none
]

-- `value.slice(value.indexOf('.') + 1)` and `value.slice(value.lastIndexOf('.') + 1)`: the whole text
-- where there is no dot.
unfoldable pub after_first_dot : String → String
after_first_dot s = elim (behind_dot s) as (λ _. String) [ some t ↦ t | none ↦ s ]

unfoldable pub after_last_dot : String → String
after_last_dot s = elim (behind_last_dot s) as (λ _. String) [ some t ↦ t | none ↦ s ]
