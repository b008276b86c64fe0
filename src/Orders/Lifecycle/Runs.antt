-- ===== src/Orders/Lifecycle/Runs.antt =====
-- The order endpoints as one transition system: any requests of any tenants in any order, each
-- with other requests committed between its reads and its transaction.
use comandas_multitenant_off.Prelude.{◌∙◌, ap, ℕ, String, ◌≡◌, ◌≢◌, ◌≤◌, refl, Option, some, arith}
use comandas_multitenant_off.Prelude.Dict.{get}
use comandas_multitenant_off.Http.{Exec}
use comandas_multitenant_off.Dto.{
  CreateOrderDto, AddItemDto, UpdateOrderStatusDto, SettleOrderDto, CloseOrderDto,
}
use comandas_multitenant_off.Store.{State, Order, Response, closed}
use comandas_multitenant_off.Orders.{Env, Request}
use comandas_multitenant_off.Orders.Create.{handle_create}
use comandas_multitenant_off.Orders.Advance.{handle_status}
use comandas_multitenant_off.Orders.Items.{handle_item}
use comandas_multitenant_off.Orders.Settle.{handle_settle}
use comandas_multitenant_off.Orders.Transfer.{handle_transfer}
use comandas_multitenant_off.Orders.Close.{handle_close}
use comandas_multitenant_off.Orders.Lifecycle.{Evolves}
use comandas_multitenant_off.Pix.{PixWebhookDto, receive}
use comandas_multitenant_off.Pix.Refines.{receive-Serves}
use comandas_multitenant_off.Orders.Lifecycle.Serving.{Serves}
use comandas_multitenant_off.Orders.Lifecycle.Handlers.{
  handle_create-Serves, handle_status-Serves, handle_item-Serves, handle_settle-Serves,
  handle_transfer-Serves, handle_close-Serves,
}
use comandas_multitenant_off.Orders.Lifecycle.Invariant.{IsValid, Evolves-IsValid}
use comandas_multitenant_off.Orders.Lifecycle.Terminal.{Evolves-Persists}

-- A request to the controller.
pub data Call : Type 0 where
  create : CreateOrderDto → Call
  status : ℕ → UpdateOrderStatusDto → Call
  item : ℕ → AddItemDto → Call
  settlement : ℕ → SettleOrderDto → Call
  transfer : ℕ → Option ℕ → Call
  closing : ℕ → CloseOrderDto → Call

unfoldable pub handle : Call → Env → Request → Exec State Response
handle (create body) env req = handle_create env req body
handle (status id body) env req = handle_status env req id body
handle (item id body) env req = handle_item env req id body
handle (settlement id body) env req = handle_settle env req id body
handle (transfer id target) env req = handle_transfer req id target
handle (closing id body) env req = handle_close env req id body

-- What holds of a state and is kept by every change of a tenant's orders is kept by that tenant's
-- requests, if what other requests commit in between keeps it.
pub handle-Serves :
    (Inv : State → Type 0) (c : Call) (env : Env) (req : Request)
    → ((s s' : State) → Evolves req.tenant s s' → Inv s → Inv s')
    → ((s : State) → Inv s → Inv (env.between s))
    → Serves Inv (handle c env req)
unfolding handle
handle-Serves Inv (create body) env req kept others =
    handle_create-Serves Inv env req kept others body
handle-Serves Inv (status id body) env req kept others =
    handle_status-Serves Inv env req kept others id body
handle-Serves Inv (item id body) env req kept others =
    handle_item-Serves Inv env req kept others id body
handle-Serves Inv (settlement id body) env req kept others =
    handle_settle-Serves Inv env req kept others id body
handle-Serves Inv (transfer id target) env req kept others =
    handle_transfer-Serves Inv env req kept others id target
handle-Serves Inv (closing id body) env req kept others =
    handle_close-Serves Inv env req kept others id body

-- A run: requests one after the other, of the tenants that `Who` allows. What comes between the
-- reads and the transaction of a request is a run itself. A notice of the Pix provider, whose
-- signature was accepted, changes the order that its charge names, whoever owns it: it comes only
-- into runs that allow every tenant.
pub data Run (Who : ℕ → Type 0) : State → State → Type 0 where
  rest : {s : State} → Run Who s s
  serve :
      {s t : State} (c : Call) (env : Env) (req : Request)
      → Run Who s t
      → Who req.tenant
      → ((u : State) → Run Who u (env.between u))
      → Run Who s (handle c env req t).1
  notify :
      {s t : State} (between : State → State) (now : ℕ) (provider : String) (body : PixWebhookDto)
      → Run Who s t
      → ((tenant : ℕ) → Who tenant)
      → ((u : State) → Run Who u (between u))
      → Run Who s (receive between now provider body t).1

pub Run_induction :
    (Who : ℕ → Type 0) (Inv : State → Type 0)
    → ((tenant : ℕ) (s s' : State) → Who tenant → Evolves tenant s s' → Inv s → Inv s')
    → {s t : State} → Run Who s t
    → Inv s
    → Inv t
Run_induction Who Inv kept rest h = h
Run_induction Who Inv kept (serve c env req run who others) h =
    (handle-Serves Inv c env req (λ s s' e. kept req.tenant s s' who e)
        (λ u. Run_induction Who Inv kept (others u))).at
      _ (Run_induction Who Inv kept run h)
Run_induction Who Inv kept (notify between now provider body run who others) h =
    (receive-Serves Inv (λ owner s s' e. kept owner s s' (who owner) e) between
        (λ u. Run_induction Who Inv kept (others u)) now provider body).at
      _ (Run_induction Who Inv kept run h)

abbrev pub Anyone : ℕ → Type 0
Anyone tenant = Unit

-- The state is valid, and the order is there: no older than it was, and the same if it was closed.
pub record Holds (id : ℕ) (o : Order) (s : State) : Type 0 where
  pub valid : IsValid s
  pub now : Order
  pub found : get id s.orders ≡ some now
  pub no_older : o.version ≤ now.version
  pub closed_stays : o.status ≡ closed → now ≡ o

Holds-Evolves :
    (id : ℕ) (o : Order) {tenant : ℕ} (s s' : State)
    → Evolves tenant s s'
    → Holds id o s
    → Holds id o s'
Holds-Evolves id o s s' e h =
    let p = Evolves-Persists s s' id h.now h.valid e h.found in
    record {
      valid = Evolves-IsValid s s' e h.valid;
      now = p.now;
      found = p.found;
      no_older = omega (arith, h.no_older, p.no_older);
      closed_stays = λ c.
          p.closed_stays (ap (λ (q : Order). q.status) (h.closed_stays c) ∙ c) ∙ h.closed_stays c;
    }

-- From a valid state, whatever requests and Pix notices come, by whom and how interleaved, the
-- state stays valid:
-- ids are fresh, every order is sound (its version is positive, its history ends in its status, a
-- closed order holds no table, and the payments of an order, if any, cover its total, which is
-- that of its items less the discount with the fee), and no table has two active orders of a
-- tenant.
pub Run-IsValid : {s t : State} → Run Anyone s t → IsValid s → IsValid t
Run-IsValid = Run_induction Anyone IsValid (λ tenant s s' who e. Evolves-IsValid s s' e)

-- No requests or Pix notices, whatever they are and however interleaved, lose an order or lower its version, and
-- none changes an order that is closed.
pub Run-Holds :
    {s t : State} (id : ℕ) (o : Order)
    → Run Anyone s t
    → IsValid s
    → get id s.orders ≡ some o
    → Holds id o t
Run-Holds id o run v here =
    Run_induction Anyone (Holds id o) (λ tenant s s' who e. Holds-Evolves id o s s' e) run
      (record {
        valid = v;
        now = o;
        found = here;
        no_older = omega arith;
        closed_stays = λ c. refl;
      })

record HoldsFor (id : ℕ) (o : Order) (s : State) : Type 0 where
  valid : IsValid s
  here : get id s.orders ≡ some o

-- Requests of other tenants, however interleaved, leave an order as it is.
pub Run-isolates :
    {s t : State} (id : ℕ) (o : Order)
    → Run (λ tenant. o.tenant ≢ tenant) s t
    → IsValid s
    → get id s.orders ≡ some o
    → get id t.orders ≡ some o
Run-isolates id o run v here =
    (Run_induction (λ tenant. o.tenant ≢ tenant) (HoldsFor id o)
      (λ tenant s s' who e h.
        let p = Evolves-Persists s s' id o h.valid e h.here in
        record {
          valid = Evolves-IsValid s s' e h.valid;
          here = p.found ∙ ap some (p.others_stay who);
        })
      run (record { valid = v; here = here })).here
