-- ===== src/Orders/Advance.antt =====
-- `updateOrderStatus`: PATCH /v1/orders/:id/status.
pub mod Refines
use text.Mathlib.Text.{◌==◌ as str_eq}
use comandas_multitenant_off.Prelude.{
  ℕ, ◌+◌, String, Bool, true, false, Option, none, some, List, [], ◌∷◌, not, ◌&&◌, if◌then◌else◌,
}
use comandas_multitenant_off.Dto.{UpdateOrderStatusDto, update_status, body_only}
use comandas_multitenant_off.Http.{
  bad_request, not_found, conflict, bad_transition, order_not_found, pix_pending, version_conflict,
  transition_refused, Exec, pure, raise, raise_if, gets, reads, ◌>>=◌, ◌>>◌,
}
use comandas_multitenant_off.Store.{
  State, Order, Status, opened, sent_to_kitchen, delivered, closed, canceled, same_status, Response,
}
use comandas_multitenant_off.Store.Queries.{
  find_order, has_pending_charge, update_order, fresh_order,
}
use comandas_multitenant_off.Idempotency.{get_raw_key, check_idempotency, save_idempotency}
use comandas_multitenant_off.Orders.{Env, Request, has_version, add_history, commit_update}

abbrev pub status_name : Status → String
status_name opened = "open"
status_name sent_to_kitchen = "sentToKitchen"
status_name delivered = "delivered"
status_name closed = "closed"
status_name canceled = "canceled"

-- `VALID_TRANSITIONS`
abbrev pub valid_transitions : List (Status × Status)
valid_transitions = (opened, sent_to_kitchen) ∷ (sent_to_kitchen, delivered) ∷ []

-- The first entry whose target is the wanted status.
unfoldable pub find_transition : String → List (Status × Status) → Option (Status × Status)
find_transition next [] = none
find_transition next ((from, to) ∷ rest) =
    if str_eq (status_name to) next then some (from, to) else find_transition next rest

abbrev pub move_to : Status → Order → Order
move_to next o = record o { status = next; version = o.version + 1 }

-- `result.count === 0`
explain_status : Request → ℕ → Option ℕ → Status → Option Order → Exec State Response
explain_status req id expected next none = raise (not_found order_not_found)
explain_status req id expected next (some o) =
    if same_status o.status next
    then fresh_order id
    else raise
        (conflict (if has_version expected o.version then transition_refused else version_conflict))

-- The rest of the transaction, after the update of the order.
confirm_status : ℕ → Request → ℕ → Status → Status → Exec State Response
confirm_status h req id from to = do
  add_history id (record { from_status = some from; to_status = to; changed_by = req.user })
  fresh ← fresh_order id
  save_idempotency req.tenant (get_raw_key req.key) h fresh
  pure fresh

unfoldable pub advance_status :
    ℕ → Request → ℕ → UpdateOrderStatusDto → Status → Status → Exec State Response
unfolding explain_status confirm_status
advance_status h req id body from to = do
  blocked ← gets (has_pending_charge id)
  raise_if blocked (conflict pix_pending)
  updated ←
      update_order req.tenant id
        (λ o. same_status o.status from && has_version body.expected_version o.version) (move_to to)
  existing ← gets (find_order req.tenant id)
  if updated
      then confirm_status h req id from to
      else explain_status req id body.expected_version to existing

unfoldable pub handle_status : Env → Request → ℕ → UpdateOrderStatusDto → Exec State Response
handle_status env req id body = do
  let h = env.hash (body_only (update_status body))
  cached ← reads (check_idempotency req.tenant (get_raw_key req.key) h)
  elim cached [
    | some r ↦ pure r
    | none ↦ elim (find_transition body.status valid_transitions) [
      | none ↦ raise (bad_request bad_transition)
      | some (from, to) ↦ commit_update env req (advance_status h req id body from to)
    ]
  ]
