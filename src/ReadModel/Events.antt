-- ===== src/ReadModel/Events.antt =====
-- The events of owners: packages/kogg-operations/src/common/operations-read-model-protocol.ts. The
-- schema version has one value and is left out. A sequence is a decimal text without leading zeros in
-- the source, and a number here.
use Prim.Native.String.{slice, ◌++◌ as str_append}
use Prim.Native.Nat.{◌/◌, ◌%◌, zero}
use mathlib.Core.Option
use kogg.Prelude.{
  ◌+◌, suc, Bool, true, false, ltb, ◌≡◌, refl, ℕ, String, String-Eq, Option, none, some, List, [],
  ◌∷◌, ◌++◌, ◌==◌, if◌then◌else◌,
}
use kogg.ReadModel.Owners.{OwnerKind}

pub record SafeCorrelations : Type 0 where
  pub task_id : Option String
  pub project_id : Option String
  pub run_id : Option String
  pub node_id : Option String
  pub attempt_id : Option String
  pub operation_id : Option String
  pub process_id : Option String
  pub check_id : Option String
  pub evidence_id : Option String
  pub verdict_id : Option String
  pub merge_id : Option String

pub record CausalRef : Type 0 where
  pub owner_instance_id : String
  pub epoch_id : String
  pub sequence : ℕ
  pub event_digest : String

-- A value of a payload.
pub data PayloadValue : Type 0 where
  text_value : String → PayloadValue
  number_value : ℕ → PayloadValue

-- The payload, as its entries.
abbrev pub SafeOwnerPayload : Type 0
SafeOwnerPayload = List (String × PayloadValue)

pub record OwnerEvent : Type 0 where
  pub owner_kind : OwnerKind
  pub owner_instance_id : String
  pub epoch_id : String
  pub sequence : ℕ
  pub event_id : String
  pub event_kind : String
  pub fact_id : String
  pub fact_digest : String
  pub previous_event_digest : String
  pub causal_parents : List CausalRef
  pub correlations : SafeCorrelations
  pub observed_at : String
  pub safe_payload : SafeOwnerPayload
  pub event_digest : String

abbrev pub value_of : String → SafeOwnerPayload → Option PayloadValue
value_of key [] = none
value_of key ((k, v) ∷ payload) =
    let later = value_of key payload in if k == key then some v else later

abbrev as_text : Option PayloadValue → Option String
as_text none = none
as_text (some (text_value t)) = some t
as_text (some (number_value n)) = none

abbrev as_number : Option PayloadValue → Option ℕ
as_number none = none
as_number (some (text_value t)) = none
as_number (some (number_value n)) = some n

-- The decimal digits of a number, of which a valid payload's has thirteen at most.
unfoldable pub digits_of : ℕ → ℕ → String
digits_of zero n = ""
digits_of (suc fuel) n =
    let leading = digits_of fuel (n / 10) in
    str_append (if ltb n 10 then "" else leading) (slice "0123456789" (n % 10) (n % 10 + 1))

-- What a column of texts stores of a value: a number is bound as a real number, so 5 is stored as 5.0.
unfoldable pub column_text : PayloadValue → String
unfolding digits_of
column_text (text_value t) = t
column_text (number_value n) = str_append (digits_of 13 n) ".0"

-- A value as that of a label, of which the model keeps the text.
unfoldable pub label_text : PayloadValue → String
unfolding digits_of
label_text (text_value t) = t
label_text (number_value n) = digits_of 13 n

-- `safePayload.<key>` for a key that is declared to hold a text, as it is written to a column and to a
-- label. A number under it passes the validation too.
unfoldable pub payload_text : String → SafeOwnerPayload → Option String
unfolding column_text
payload_text key payload = Option.map column_text (value_of key payload)

unfoldable pub payload_label : String → SafeOwnerPayload → Option String
unfolding label_text
payload_label key payload = Option.map label_text (value_of key payload)

-- The text under a key. Of `safeCode`, what `safeCodeClass` classifies: the number 0 counts as nothing
-- there; events with another number, on which it throws, are not modelled.
unfoldable pub payload_code : String → SafeOwnerPayload → Option String
payload_code key payload = as_text (value_of key payload)

-- Whether a value, if there is one, is a text.
abbrev pub is_text : Option PayloadValue → Bool
is_text none = true
is_text (some (text_value t)) = true
is_text (some (number_value n)) = false

text_is_code :
    (v : Option PayloadValue)
    → is_text v ≡ true
    → (Option.map column_text v ≡ as_text v) × (Option.map label_text v ≡ as_text v)
unfolding column_text label_text
text_is_code none h = (refl, refl)
text_is_code (some (text_value t)) h = (refl, refl)
text_is_code (some (number_value n)) h = cc

-- A text is stored, put on a label and classified alike.
pub payload_text-code :
    (key : String) (payload : SafeOwnerPayload)
    → is_text (value_of key payload) ≡ true
    → (payload_text key payload ≡ payload_code key payload)
      × (payload_label key payload ≡ payload_code key payload)
unfolding payload_text payload_label payload_code
payload_text-code key payload h = text_is_code (value_of key payload) h

-- `safePayload.<key>` for a key that holds a number.

unfoldable pub payload_number : String → SafeOwnerPayload → Option ℕ
payload_number key payload = as_number (value_of key payload)

abbrev listed : Option String → List String
listed none = []
listed (some s) = s ∷ []

-- `Object.values(correlations)`.
unfoldable pub correlation_values : SafeCorrelations → List String
correlation_values c =
    listed c.task_id
    ++ listed c.project_id
    ++ listed c.run_id
    ++ listed c.node_id
    ++ listed c.attempt_id
    ++ listed c.operation_id
    ++ listed c.process_id
    ++ listed c.check_id
    ++ listed c.evidence_id
    ++ listed c.verdict_id
    ++ listed c.merge_id

-- What the model asks the platform for: the SHA-256 digest of a text, `JSON.stringify` of a text and
-- of a number, `Date.parse`, `toISOString`, and SQLite's `min` and `max` of two texts.
pub record Platform : Type 0 where
  pub sha256 : String → String
  pub stringify : String → String
  pub stringify_number : ℕ → String
  pub decimal : ℕ → String
  pub date_parse : String → Option ℕ
  pub to_iso_string : ℕ → String
  pub text_min : String → String → String
  pub text_max : String → String → String
