-- ===== src/ReadModel/Actions.antt =====
-- `recordAction` and `actionReceipt` of packages/kogg-operations/src/node/operations-read-model.ts.
use mathlib.Core.Option
use kogg.Prelude.{
  String, String-Eq, Option, none, some, List, [], ◌∷◌, ◌++◌, ◌==◌, find?, map, if◌then◌else◌,
}

pub data ActionKind : Type 0 where
  cancel_action pause_action resume_action retry_action diagnose_action : ActionKind
  open_owner_view_action : ActionKind

pub data ActionStatus : Type 0 where
  forwarded_action refused_action unknown_action : ActionStatus

pub record ActionRequest : Type 0 where
  pub request_id : String
  pub action : ActionKind
  pub run_id : String
  pub operation_id : Option String
  pub expected_projection_sequence : String

pub record ActionReceipt : Type 0 where
  pub request_id : String
  pub action : ActionKind
  pub run_id : String
  pub status : ActionStatus
  pub safe_code : String

-- A row of `action_requests`.
pub record ActionRow : Type 0 where
  pub request : ActionRequest
  pub request_digest : String
  pub status : ActionStatus
  pub safe_code : String

unfoldable pub find_action : String → List ActionRow → Option ActionRow
find_action id rows = find? (λ (r : ActionRow). r.request.request_id == id) rows

-- `actionReceipt`.
unfoldable pub action_receipt : String → List ActionRow → Option ActionReceipt
action_receipt id rows =
    Option.map
      (λ (r : ActionRow). record {
        request_id = r.request.request_id;
        action = r.request.action;
        run_id = r.request.run_id;
        status = r.status;
        safe_code = r.safe_code;
      })
      (find_action id rows)

-- `UPDATE action_requests SET status=?,safe_code=? WHERE request_id=?`.
unfoldable pub update_action : String → ActionStatus → String → List ActionRow → List ActionRow
update_action id status safe_code rows =
    map
      (λ (r : ActionRow).
        if r.request.request_id == id
        then record r { status = status; safe_code = safe_code }
        else r)
      rows

-- The receipt and the rows, or none where it throws `ACTION_REQUEST_REPLAY_MISMATCH`.
unfoldable pub record_over :
    ActionRequest
    → String
    → ActionStatus
    → String
    → Option ActionRow
    → List ActionRow
    → Option (ActionReceipt × List ActionRow)
record_over request digest status safe_code prior rows =
    let receipt : ActionReceipt = record {
      request_id = request.request_id;
      action = request.action;
      run_id = request.run_id;
      status = status;
      safe_code = safe_code;
    } in
    elim prior as (λ _. Option (ActionReceipt × List ActionRow)) [
      | none ↦ some (
        receipt,
        rows
            ++ record {
              request = request;
              request_digest = digest;
              status = status;
              safe_code = safe_code;
            }
              ∷ [],
      )
      | some row ↦
          if row.request_digest == digest
          then some (receipt, update_action request.request_id status safe_code rows)
          else none
    ]

-- `recordAction`.
unfoldable pub record_action :
    ActionRequest
    → String
    → ActionStatus
    → String
    → List ActionRow
    → Option (ActionReceipt × List ActionRow)
record_action request digest status safe_code rows =
    record_over request digest status safe_code (find_action request.request_id rows) rows
