-- ===== src/Orders/Retries.antt =====
-- Retries of the handlers that go by `checkIdempotency` and `saveIdempotency`.
use comandas_multitenant_off.Prelude.{
  ap, sym, ◌∙◌, not, ◌&&◌, ==_refl, ℕ, ◌≡◌, inl, inr, String, Option, none, some, arith,
  Option-cases,
}
use comandas_multitenant_off.Http.{Result-cases, ok, ◌>>=◌}
use comandas_multitenant_off.Dto.{AddItemDto, add_item, body_only}
use comandas_multitenant_off.Store.{is_closed, State, OrderItem, Response}
use comandas_multitenant_off.Store.Queries.{
  find_key, update_order, extend_order, fresh_order, emit_to_tenant,
}
use comandas_multitenant_off.Idempotency.{get_raw_key, check_idempotency, save_idempotency}
use comandas_multitenant_off.Idempotency.Once.{done, find_key-append, is_row_self}
use comandas_multitenant_off.Orders.{has_version, Env, Request, commit_update}
use comandas_multitenant_off.Orders.Items.{
  push_item, bump_version, resolve_item, append_item, handle_item,
}

-- The state that the item's rows leave, before the response is saved.
abbrev with_item : Request → ℕ → Option ℕ → OrderItem → State → State
with_item req id expected item s =
    let updated =
      update_order req.tenant id (λ o. not (is_closed o.status) && has_version expected o.version)
        bump_version s in
    (extend_order id (push_item item) updated.1).1

append_item-saves :
    (h : ℕ) (req : Request) (id : ℕ) (expected : Option ℕ) (item : OrderItem) (s s' : State)
    (v : Response)
    → append_item h req id expected item s ≡ (ok v, s')
    → save_idempotency req.tenant (get_raw_key req.key) h v (with_item req id expected item s)
      ≡ (ok tt, s')
unfolding append_item fresh_order ◌>>=◌
append_item-saves h req id expected item s s' v e = ground arith

save-stores :
    (h tenant : ℕ) (key : String) (s s' : State) (v : Response)
    → save_idempotency tenant (some key) h v s ≡ (ok tt, s')
    → find_key tenant key s'.keys ≡ some (done tenant key h v)
unfolding save_idempotency
save-stores h tenant key s s' v e = elim (Option-cases (find_key tenant key s.keys)) [
  | inr (row, used) ↦ absurd (ground arith)
  | inl unused ↦ ground (
    arith,
    find_key-append tenant key s.keys (done tenant key h v) unused (is_row_self tenant key),
  )
]

append_item-stores :
    (h : ℕ) (req : Request) (id : ℕ) (expected : Option ℕ) (item : OrderItem) (key : String)
    (s s' : State) (v : Response)
    → get_raw_key req.key ≡ some key
    → append_item h req id expected item s ≡ (ok v, s')
    → find_key req.tenant key s'.keys ≡ some (done req.tenant key h v)
append_item-stores h req id expected item key s s' v k e =
    save-stores h req.tenant key (with_item req id expected item s) s' v (
      ap (λ q. save_idempotency req.tenant q h v (with_item req id expected item s)) (sym k)
      ∙ append_item-saves h req id expected item s s' v e)

module _ (env : Env) (req : Request) (body : AddItemDto) (key : String)
    (k : get_raw_key req.key ≡ some key) where
  abbrev hashed : ℕ
  hashed = env.hash (body_only (add_item body))

  commit-stores :
      (id : ℕ) (item : OrderItem) (s s' : State) (v : Response)
      → commit_update env req (append_item hashed req id body.expected_version item) s ≡ (ok v, s')
      → find_key req.tenant key s'.keys ≡ some (done req.tenant key hashed v)
  unfolding commit_update emit_to_tenant ◌>>=◌
  commit-stores id item s s' v e =
      let out = append_item hashed req id body.expected_version item (env.between s) in
      ground (
        arith,
        append_item-stores hashed req id body.expected_version item key (env.between s) out.1 v k,
      )

  handle_item-stores :
      (id : ℕ) (s s' : State) (v : Response)
      → find_key req.tenant key s.keys ≡ none
      → handle_item env req id body s ≡ (ok v, s')
      → find_key req.tenant key s'.keys ≡ some (done req.tenant key hashed v)
  unfolding handle_item check_idempotency ◌>>=◌
  handle_item-stores id s s' v unused e = elim (Result-cases (resolve_item body req.tenant s)) [
    | inr (x, failed) ↦ absurd (ground arith)
    | inl (item, chosen) ↦ commit-stores id item s s' v (ground arith)
  ]

  -- After an item has been added under a key, any request of the tenant to add an item with the
  -- same key and body is answered with the first response and writes nothing: a retry does not add
  -- the item twice, and a request for another order than the first does not add it at all.
  pub repeated_item_replays :
      (id j : ℕ) (s s' : State) (v : Response)
      → find_key req.tenant key s.keys ≡ none
      → handle_item env req id body s ≡ (ok v, s')
      → handle_item env req j body s' ≡ (ok v, s')
  unfolding handle_item check_idempotency ◌>>=◌
  repeated_item_replays id j s s' v unused e =
      ground (arith, ==_refl hashed, handle_item-stores id s s' v unused e)
