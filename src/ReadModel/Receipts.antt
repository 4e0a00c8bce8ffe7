-- ===== src/ReadModel/Receipts.antt =====
-- Receipts of actions: packages/kogg-operations/src/node/operations-read-model.ts.

use mathlib.Core.Path.{subst}
use kogg.Prelude.{
  ◌⊎◌, String, String-Eq, true, false, none, some, List, [], ◌∷◌, ◌++◌, ◌==◌, ◌≡◌, refl, ap, inl,
  inr, Bool-cases, Option-cases, some-injective, find?-snoc, find?-skip, ==_refl, ==_sound,
}
use kogg.ReadModel.Actions.{
  ActionRequest, ActionReceipt, ActionRow, ActionStatus, find_action, action_receipt, update_action,
  record_over, record_action,
}

abbrev with_status : ActionStatus → String → ActionRow → ActionRow
with_status status safe_code r = record r { status = status; safe_code = safe_code }

module _ (id : String) (status : ActionStatus) (safe_code : String) where
  update_action-found :
      (rows : List ActionRow) (row : ActionRow)
      → find_action id rows ≡ some row
      → find_action id (update_action id status safe_code rows)
        ≡ some (with_status status safe_code row)
  unfolding find_action update_action
  update_action-found [] row h = absurd cc
  update_action-found (r ∷ rows) row h = elim (Bool-cases (r.request.request_id == id)) [
    | inl t ↦
        rw (t, t) (ap (λ x. some (with_status status safe_code x)) (some-injective (rw t at h)))
    | inr f ↦ rw (f, f) (update_action-found rows row (rw f at h))
  ]

  update_action-other :
      (other : String) (rows : List ActionRow)
      → (id == other) ≡ false
      → find_action other (update_action id status safe_code rows) ≡ find_action other rows
  unfolding find_action update_action
  update_action-other other [] n = refl
  update_action-other other (r ∷ rows) n = elim (Bool-cases (r.request.request_id == id)) [
    | inl t ↦ rw (t, ==_sound r.request.request_id id t, n) (update_action-other other rows n)
    | inr f ↦ rw f (elim (Bool-cases (r.request.request_id == other)) [
      | inl u ↦ rw u refl
      | inr v ↦ rw v (update_action-other other rows n)
    ])
  ]

-- The receipt of a request with a status and a code.
abbrev pub receipt_for : ActionRequest → ActionStatus → String → ActionReceipt
receipt_for request status safe_code = record {
  request_id = request.request_id;
  action = request.action;
  run_id = request.run_id;
  status = status;
  safe_code = safe_code;
}

-- What is answered, and what the receipt of the identifier says afterwards: for a new identifier what
-- was requested, and for one that was there what had been requested then, under the same digest.
abbrev pub Recorded :
    ActionRequest
    → String
    → ActionStatus
    → String
    → List ActionRow
    → ActionReceipt × List ActionRow
    → Type 0
Recorded request digest status safe_code rows (receipt, rows') =
    (receipt ≡ receipt_for request status safe_code)
    × ((kept : ActionRequest) × (action_receipt request.request_id rows'
          ≡ some (receipt_for kept status safe_code))
        × (((kept ≡ request) × (find_action request.request_id rows ≡ none))
            ⊎ ((row : ActionRow) × (find_action request.request_id rows ≡ some row)
                × (kept ≡ row.request)
                × (row.request_digest ≡ digest))))

module _ (request : ActionRequest) (digest : String) (status : ActionStatus) (safe_code : String)
    (rows : List ActionRow) where
  abbrev added : ActionRow
  added = record {
    request = request;
    request_digest = digest;
    status = status;
    safe_code = safe_code;
  }

  find_action-added :
      find_action request.request_id rows ≡ none
      → find_action request.request_id (rows ++ added ∷ []) ≡ some added
  unfolding find_action
  find_action-added new =
      find?-snoc (λ (r : ActionRow). r.request.request_id == request.request_id) rows added new
        (==_refl request.request_id)

  find_action-others :
      (other : String)
      → (request.request_id == other) ≡ false
      → find_action other (rows ++ added ∷ []) ≡ find_action other rows
  unfolding find_action
  find_action-others other n =
      find?-skip (λ (r : ActionRow). r.request.request_id == other) rows added n

  -- What is recorded, and that another identifier's receipt is kept.
  abbrev Records : String → ActionReceipt × List ActionRow → Type 0
  Records other result =
      Recorded request digest status safe_code rows result
      × (action_receipt other result.1 ≡ action_receipt other rows)

  added-Records :
      (other : String)
      → (request.request_id == other) ≡ false
      → find_action request.request_id rows ≡ none
      → Records other (receipt_for request status safe_code, rows ++ added ∷ [])
  unfolding action_receipt
  added-Records other n new = (
    (refl, (request, rw (find_action-added new) refl, inl (refl, new))),
    rw (find_action-others other n) refl,
  )

  updated-Records :
      (other : String) (row : ActionRow)
      → (request.request_id == other) ≡ false
      → find_action request.request_id rows ≡ some row
      → (row.request_digest == digest) ≡ true
      → Records other (
        receipt_for request status safe_code,
        update_action request.request_id status safe_code rows,
      )
  unfolding action_receipt
  updated-Records other row n found same = (
    (
      refl,
      (
        row.request,
        rw (update_action-found request.request_id status safe_code rows row found) refl,
        inr (row, found, refl, ==_sound row.request_digest digest same),
      ),
    ),
    rw (update_action-other request.request_id status safe_code other rows n) refl,
  )

-- An action that is recorded is answered with a receipt of its own identifier, action and run, and of
-- the status and the code given. A look-up afterwards gives the same receipt if the identifier is new;
-- if it was there, it was recorded with the same digest, and the look-up gives the action and the run
-- recorded then, with the status and the code given. The receipt of any other identifier is what it was.
pub record_action-receipt :
    (request : ActionRequest) (digest : String) (status : ActionStatus) (safe_code : String)
    (rows rows' : List ActionRow) (receipt : ActionReceipt) (other : String)
    → record_action request digest status safe_code rows ≡ some (receipt, rows')
    → (request.request_id == other) ≡ false
    → Recorded request digest status safe_code rows (receipt, rows')
      × (action_receipt other rows' ≡ action_receipt other rows)
unfolding record_action record_over
record_action-receipt request digest status safe_code rows rows' receipt other h n =
    elim (Option-cases (find_action request.request_id rows)) [
      | inl new ↦
          subst (Records request digest status safe_code rows other) (some-injective (rw new at h))
            (added-Records request digest status safe_code rows other n new)
      | inr (row, found) ↦ elim (Bool-cases (row.request_digest == digest)) [
        | inl same ↦
            subst (Records request digest status safe_code rows other)
              (some-injective (rw (found, same) at h))
              (updated-Records request digest status safe_code rows other row n found same)
        | inr other_digest ↦ absurd (cc (rw (found, other_digest) at h))
      ]
    ]
