-- ===== src/Core/Journal.antt =====
-- `DiagnosticOwnerJournal` of packages/kogg-core/src/node/diagnostic-owner-journal.ts: a log of
-- diagnostic events, each with the digest of the one before it. The SHA-256 of the `JSON.stringify` of
-- an array of texts that ends in a digest is a parameter, `hash`, and so is the `JSON.stringify` of a
-- payload; digests are values of a type of their own with one that stands for the empty text; times
-- are texts.
use kogg.Prelude.{
  suc, ℕ, String, String-Eq, Bool, true, ◌&&◌, ◌||◌, Option, none, some, List, [], ◌∷◌, ◌++◌, Eq,
  ◌==◌, any, if◌then◌else◌,
}

pub data DiagnosticStatus : Type 0 where
  pass warn fail : DiagnosticStatus

-- What `safe_payload` is the text of, for a start and for an end with its count.
pub data Payload : Type 0 where
  pending : Payload
  settled : DiagnosticStatus → ℕ → Payload

-- What `append` is given, and the identifier and the payload's text that it makes.
pub record Fact : Type 0 where
  pub event_id : String
  pub event_kind : String
  pub report_id : String
  pub observed_at : String
  pub safe_payload : String

pub record EventRow (D : Type 0) : Type 0 where
  pub event_sequence : ℕ
  pub fact : Fact
  pub previous_fact_digest : D
  pub fact_digest : D

unfoldable pub started_fact : (Payload → String) → String → String → String → Fact
started_fact stringify event_id report_id observed_at = record {
  event_id = event_id;
  event_kind = "diagnostic.started";
  report_id = report_id;
  observed_at = observed_at;
  safe_payload = stringify pending;
}

completed_kind : DiagnosticStatus → String
completed_kind pass = "diagnostic.passed"
completed_kind warn = "diagnostic.failed"
completed_kind fail = "diagnostic.failed"

unfoldable pub completed_fact :
    (Payload → String) → String → String → DiagnosticStatus → ℕ → String → Fact
unfolding completed_kind
completed_fact stringify event_id report_id status count observed_at = record {
  event_id = event_id;
  event_kind = completed_kind status;
  report_id = report_id;
  observed_at = observed_at;
  safe_payload = stringify (settled status count);
}

-- The `AUTOINCREMENT` column of the last row; a trigger refuses every deletion.
unfoldable pub last_row_sequence : {D : Type 0} → ℕ → List (EventRow D) → ℕ
last_row_sequence sequence [] = sequence
last_row_sequence sequence (row ∷ rows) = last_row_sequence row.event_sequence rows

module _ {D : Type 0} ⦃d : Eq D⦄ (hash : List String → D → D) where
  -- The digest of the last row, or what stands before the first.
  unfoldable pub last_digest : D → List (EventRow D) → D
  last_digest previous [] = previous
  last_digest previous (row ∷ rows) = last_digest row.fact_digest rows

  unfoldable pub next_row : ℕ → D → Fact → EventRow D
  next_row sequence previous fact = record {
    event_sequence = sequence;
    fact = fact;
    previous_fact_digest = previous;
    fact_digest =
        hash
          (fact.event_id ∷ fact.event_kind ∷ fact.report_id ∷ fact.observed_at ∷ fact.safe_payload
            ∷ [])
          previous;
  }

  -- The insertion breaks a `UNIQUE` column.
  unfoldable pub is_taken : EventRow D → List (EventRow D) → Bool
  is_taken row rows =
      any
        (λ (r : EventRow D).
          r.fact.event_id == row.fact.event_id || r.fact_digest == row.fact_digest)
        rows

  -- `append`: none where the transaction is rolled back and the error thrown on.
  unfoldable pub append : D → Fact → List (EventRow D) → Option (List (EventRow D))
  append empty fact rows =
      let row = next_row (suc (last_row_sequence 0 rows)) (last_digest empty rows) fact in
      if is_taken row rows then none else some (rows ++ row ∷ [])

  -- The digest that `assertIntegrity` computes of a row.
  unfoldable pub checked_digest : D → EventRow D → D
  checked_digest previous row =
      hash
        (row.fact.event_id ∷ row.fact.event_kind ∷ row.fact.report_id ∷ row.fact.observed_at
          ∷ row.fact.safe_payload ∷ [])
        previous

  -- The loop of `assertIntegrity`.
  unfoldable pub is_intact : D → List (EventRow D) → Bool
  unfolding checked_digest
  is_intact previous [] = true
  is_intact previous (row ∷ rows) =
      let rest = is_intact (checked_digest previous row) rows in
      (row.previous_fact_digest == previous && row.fact_digest == checked_digest previous row)
      && rest
