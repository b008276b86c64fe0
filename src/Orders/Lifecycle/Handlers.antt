-- ===== src/Orders/Lifecycle/Handlers.antt =====
-- Every endpoint of the orders, served: what each change of the orders keeps, each request keeps.
use comandas_multitenant_off.Prelude.{
  refl, if◌then◌else◌, ℕ, ◌≡◌, Option, none, some, List, [], ◌∷◌,
}
use comandas_multitenant_off.Http.{bad_transition, bad_request, Exec, pure, raise, ◌>>=◌}
use comandas_multitenant_off.Dto.{
  CreateOrderDto, AddItemDto, UpdateOrderStatusDto, SettleOrderDto, CloseOrderDto, OrderPaymentDto,
  create_order, settle, post_orders, post_settle,
}
use comandas_multitenant_off.Store.{
  State, Status, Response, EventName, order_created, order_updated,
}
use comandas_multitenant_off.Store.Queries.{emit_to_tenant}
use comandas_multitenant_off.Idempotency.{Outcome}
use comandas_multitenant_off.Orders.{Env, Request, commit_update}
use comandas_multitenant_off.Orders.Create.{handle_create}
use comandas_multitenant_off.Orders.Create.Refines.{open_order-Refines}
use comandas_multitenant_off.Orders.Advance.{
  valid_transitions, find_transition, advance_status, handle_status,
}
use comandas_multitenant_off.Orders.Advance.Refines.{
  advance_status-Refines, find_transition-Transition,
}
use comandas_multitenant_off.Orders.Items.{handle_item}
use comandas_multitenant_off.Orders.Items.Refines.{append_item-Refines}
use comandas_multitenant_off.Orders.Settle.{handle_settle}
use comandas_multitenant_off.Orders.Settle.Refines.{settle_order-Refines}
use comandas_multitenant_off.Orders.Transfer.{handle_transfer}
use comandas_multitenant_off.Orders.Transfer.Refines.{transfer_order-Refines}
use comandas_multitenant_off.Orders.Close.{close_unpaid, as_settlement, close_with, handle_close}
use comandas_multitenant_off.Orders.Close.Refines.{close_order-Refines}
use comandas_multitenant_off.Orders.Lifecycle.{Evolves}
use comandas_multitenant_off.Orders.Lifecycle.Serving.{
  Serves, Serves-pure, Serves-raise, Serves-reads, Serves-if, Serves-bind, transaction-Serves,
  emit_to_tenant-Serves, execute_request-Serves, commit_update-Serves,
}

module _ (Inv : State → Type 0) (env : Env) (req : Request)
    (kept : (s s' : State) → Evolves req.tenant s s' → Inv s → Inv s')
    (others : (s : State) → Inv s → Inv (env.between s)) where
  announce :
      (name : EventName) (o : Outcome)
      → Serves Inv
          (if o.1 then pure o.0 else (emit_to_tenant req.tenant name o.0 >>= λ _. pure o.0))
  announce name o =
      Serves-if o.1 _ _ (Serves-pure o.0) (
        Serves-bind _ _ (emit_to_tenant-Serves Inv req.tenant kept name o.0) (λ _. Serves-pure o.0))

  -- the answer from the cache, or the request
  cached_or :
      (c : Option Response) (m : Exec State Response)
      → Serves Inv m
      → Serves Inv (elim c [ some r ↦ pure r | none ↦ m ])
  cached_or none m h = h
  cached_or (some r) m h = Serves-pure r

  pub handle_create-Serves : (body : CreateOrderDto) → Serves Inv (handle_create env req body)
  unfolding handle_create
  handle_create-Serves body = Serves-bind _ _ (Serves-reads _) (λ p.
      Serves-bind _ _
        (execute_request-Serves Inv env req kept others post_orders (create_order body) _
          (open_order-Refines req _ p))
        (announce order_created))

  pub handle_item-Serves : (id : ℕ) (body : AddItemDto) → Serves Inv (handle_item env req id body)
  unfolding handle_item
  handle_item-Serves id body = Serves-bind _ _ (Serves-reads _) (λ c. cached_or c _ (
      Serves-bind _ _ (Serves-reads _) (λ item.
        commit_update-Serves Inv env req kept others _
          (append_item-Refines _ req id body.expected_version item))))

  advance_or :
      (h id : ℕ) (body : UpdateOrderStatusDto) (t : Option (Status × Status))
      → find_transition body.status valid_transitions ≡ t
      → Serves {A = Response} Inv (elim t [
        | none ↦ raise (bad_request bad_transition)
        | some (from, to) ↦ commit_update env req (advance_status h req id body from to)
      ])
  advance_or h id body none e = Serves-raise _
  advance_or h id body (some (from, to)) e = commit_update-Serves Inv env req kept others _ (
      advance_status-Refines h req id body from to
        (find_transition-Transition body.status from to e))

  pub handle_status-Serves :
      (id : ℕ) (body : UpdateOrderStatusDto) → Serves Inv (handle_status env req id body)
  unfolding handle_status
  handle_status-Serves id body = Serves-bind _ _ (Serves-reads _) (λ c.
      cached_or c _ (advance_or _ id body (find_transition body.status valid_transitions) refl))

  pub handle_settle-Serves :
      (id : ℕ) (body : SettleOrderDto) → Serves Inv (handle_settle env req id body)
  unfolding handle_settle
  handle_settle-Serves id body =
      Serves-bind _ _
        (execute_request-Serves Inv env req kept others post_settle (settle id body) _
          (settle_order-Refines env req id body))
        (announce order_updated)

  pub handle_transfer-Serves :
      (id : ℕ) (target : Option ℕ) → Serves Inv (handle_transfer req id target)
  unfolding handle_transfer
  handle_transfer-Serves id none = Serves-raise _
  handle_transfer-Serves id (some t) =
      Serves-bind _ _ (transaction-Serves Inv req.tenant kept _ (transfer_order-Refines req id t))
        (λ r.
          Serves-bind _ _ (emit_to_tenant-Serves Inv req.tenant kept order_updated r)
            (λ _. Serves-pure r))

  close_unpaid-Serves : (id : ℕ) (body : CloseOrderDto) → Serves Inv (close_unpaid env req id body)
  unfolding close_unpaid
  close_unpaid-Serves id body = Serves-bind _ _ (Serves-reads _) (λ c. cached_or c _ (
      commit_update-Serves Inv env req kept others _
        (close_order-Refines _ req id body.expected_version)))

  close_with-Serves :
      (ps : Option (List OrderPaymentDto)) (id : ℕ) (body : CloseOrderDto)
      → Serves Inv (close_with ps env req id body)
  unfolding close_with
  close_with-Serves none id body = close_unpaid-Serves id body
  close_with-Serves (some []) id body = close_unpaid-Serves id body
  close_with-Serves (some (p ∷ ps)) id body = handle_settle-Serves id (as_settlement body (p ∷ ps))

  pub handle_close-Serves :
      (id : ℕ) (body : CloseOrderDto) → Serves Inv (handle_close env req id body)
  unfolding handle_close
  handle_close-Serves id body = close_with-Serves body.payments id body
