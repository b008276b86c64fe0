-- ===== src/Orders.antt =====
-- backend/src/orders.controller.ts: the endpoints of /v1/orders. A handler takes its environment,
-- the request and the body; the guards that run before it are in Guards.antt.
pub mod Create
pub mod Advance
pub mod Items
pub mod Discount
pub mod Settle
pub mod Stock
pub mod Transfer
pub mod Close
pub mod Charges
pub mod Listings
pub mod Retries
pub mod Lifecycle
pub mod Tests
pub mod Witnesses
use comandas_multitenant_off.Prelude.{
  ℕ, ◌+◌, ◌==◌, Bool, true, false, Option, none, some, ◌&&◌, List, [], ◌∷◌, ◌++◌,
}
use comandas_multitenant_off.Dto.{HashInput, Operation, Payload, whole_request}
use comandas_multitenant_off.Http.{ok, Exec, lift, reads, transaction, ◌>>=◌, ◌>>◌}
use comandas_multitenant_off.Store.{
  State, Order, Response, Role, Status, StatusChange, order_updated, sent_to_kitchen, opened,
  delivered, closed, canceled,
}
use comandas_multitenant_off.Store.Queries.{extend_order, emit_to_tenant}
use comandas_multitenant_off.Idempotency.{Header, Outcome, get_order_key, run_keyed}

-- What the code calls and does not define: the hash, the clock, and what other requests commit
-- between a handler's reads and its transaction.
pub record Env : Type 0 where
  pub hash : HashInput → ℕ
  pub now : ℕ
  pub between : State → State

-- `RequestContext`, as the guards leave it
pub record Request : Type 0 where
  pub tenant : ℕ
  pub user : Option ℕ
  pub role : Option Role
  pub key : Header

-- `body.expected_version !== undefined` makes the version part of the query.
abbrev pub has_version : Option ℕ → ℕ → Bool
has_version none v = true
has_version (some w) v = v == w

-- `status: { in: ['open', 'sentToKitchen', 'delivered'] }`
abbrev pub is_active : Status → Bool
is_active closed = false
is_active canceled = false
is_active s = true

-- In Prisma an undefined value leaves the column as it is.
abbrev pub or_old {ℓ} : {A : Type ℓ} → Option A → Option A → Option A
or_old none old = old
or_old (some a) old = some a

abbrev pub log : StatusChange → Order → Order
log c o = record o { history = o.history ++ c ∷ [] }

-- `orderStatusHistory.create`
unfoldable pub add_history : ℕ → StatusChange → Exec State (Unit {0})
unfolding extend_order
add_history id c = extend_order id (log c)

-- `OrdersController.executeIdempotent`
unfoldable pub execute_request :
    Env → Request → Operation → Payload → Exec State Response → Exec State Outcome
execute_request env req op payload mutate = do
  key ← lift (get_order_key req.key)
  run_keyed env.between req.tenant key (env.hash (whole_request op req.tenant req.user payload))
      mutate

-- The handlers that write outside `executeIdempotent`: the transaction after the other requests,
-- then the event.
unfoldable pub commit_update : Env → Request → Exec State Response → Exec State Response
unfolding emit_to_tenant
commit_update env req body s =
    (do
      updated ← transaction body
      emit_to_tenant req.tenant order_updated updated
      lift (ok updated))
      (env.between s)
