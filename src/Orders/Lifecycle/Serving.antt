-- ===== src/Orders/Lifecycle/Serving.antt =====
-- From what a transaction writes to what a request leaves behind: a property that every change of
-- the orders keeps is kept by the requests, with rollback, replays and events, and whatever other
-- requests commit in between.
use comandas_multitenant_off.Prelude.{
  ℕ, ◌≡◌, refl, String, Bool, true, false, arith, Option-cases, inl, inr, ◌⊎◌, if◌then◌else◌,
}
use comandas_multitenant_off.Http.{
  Result, Result-cases, ok, err, Error, Exec, pure, raise, lift, reads, transaction, ◌>>=◌,
}
use comandas_multitenant_off.Store.{State, Response, EventName, order_updated}
use comandas_multitenant_off.Store.Queries.{find_key, emit_to_tenant}
use comandas_multitenant_off.Dto.{Operation, Payload}
use comandas_multitenant_off.Idempotency.{
  get_order_key, claim, complete, claim_and_run, run_claimed, run_keyed,
}
use comandas_multitenant_off.Idempotency.Once.{claimed}
use comandas_multitenant_off.Orders.{Env, Request, execute_request, commit_update}
use comandas_multitenant_off.Orders.Lifecycle.{Evolves, same}

-- Every success of the body is a change that the relation allows.
pub record Refines {A : Type 0} (tenant : ℕ) (m : Exec State A) : Type 0 where
  pub at : (s s' : State) (a : A) → m s ≡ (ok a, s') → Evolves tenant s s'

-- The request keeps `Inv`, also where it throws.
pub record Serves {A : Type 0} (Inv : State → Type 0) (m : Exec State A) : Type 0 where
  pub at : (s : State) → Inv s → Inv (m s).1

module _ {Inv : State → Type 0} {A : Type 0} where
  pub Serves-pure : (a : A) → Serves Inv (pure a)
  unfolding ◌>>=◌
  Serves-pure a = record { at = λ s h. h }

  pub Serves-raise : (e : Error) → Serves Inv (raise {A = A} e)
  unfolding ◌>>=◌
  Serves-raise e = record { at = λ s h. h }

  pub Serves-lift : (r : Result A) → Serves Inv (lift r)
  unfolding ◌>>=◌
  Serves-lift r = record { at = λ s h. h }

  pub Serves-reads : (f : State → Result A) → Serves Inv (reads f)
  unfolding ◌>>=◌
  Serves-reads f = record { at = λ s h. h }

  pub Serves-if :
      (b : Bool) (m n : Exec State A)
      → Serves Inv m
      → Serves Inv n
      → Serves Inv (if b then m else n)
  Serves-if true m n hm hn = hm
  Serves-if false m n hm hn = hn

module _ {Inv : State → Type 0} {A B : Type 0} where
  pub Serves-bind :
      (m : Exec State A) (f : A → Exec State B)
      → Serves Inv m
      → ((a : A) → Serves Inv (f a))
      → Serves Inv (m >>= f)
  unfolding ◌>>=◌
  Serves-bind m f hm hf = record { at = λ s h. go (m s) (hm.at s h) }
    where
      go : (p : Result A × State) → Inv p.1 → Inv (◌>>=◌ (λ (q : State). p) f p.1).1
      go (ok a, s) h = (hf a).at s h
      go (err e, s) h = h

module _ (Inv : State → Type 0) (tenant : ℕ)
    (kept : (s s' : State) → Evolves tenant s s' → Inv s → Inv s') where
  roll_back-keeps :
      {A : Type 0} (m : Exec State A)
      → Refines tenant m
      → (s : State) → Inv s
      → (p : Result A × State) → m s ≡ p
      → Inv (transaction (λ _. p) s).1
  unfolding ◌>>=◌
  roll_back-keeps m r s h (ok a, s') e = kept s s' (r.at s s' a e) h
  roll_back-keeps m r s h (err x, s') e = h

  pub transaction-Serves :
      {A : Type 0} (m : Exec State A) → Refines tenant m → Serves Inv (transaction m)
  unfolding ◌>>=◌
  transaction-Serves m r = record { at = λ s h. roll_back-keeps m r s h (m s) refl }

  pub emit_to_tenant-Serves :
      (name : EventName) (v : Response) → Serves Inv (emit_to_tenant tenant name v)
  unfolding emit_to_tenant
  emit_to_tenant-Serves name v = record { at = λ s h. kept s _ (same refl refl) h }

-- What `claim_and_run` leaves: the state that it found, or the one of the mutation but for the keys.
claim_and_run-state :
    (tenant : ℕ) (key : String) (h : ℕ) (mutate : Exec State Response) (s : State)
    → ((claim_and_run tenant key h mutate s).1 ≡ s)
      ⊎ ((v : Response) × ((mutate (claimed tenant key h s)).0 ≡ ok v)
          × ((claim_and_run tenant key h mutate s).1.orders
              ≡ (mutate (claimed tenant key h s)).1.orders)
          × ((claim_and_run tenant key h mutate s).1.next_id
              ≡ (mutate (claimed tenant key h s)).1.next_id))
unfolding claim_and_run claim complete ◌>>=◌
claim_and_run-state tenant key h mutate s = elim (Option-cases (find_key tenant key s.keys)) [
  | inr (row, used) ↦ inl (ground arith)
  | inl unused ↦ elim (Result-cases (mutate (claimed tenant key h s)).0) [
    | inr (e, failed) ↦ inl (ground arith)
    | inl (v, done) ↦
        elim (Option-cases (find_key tenant key (mutate (claimed tenant key h s)).1.keys)) [
          | inl lost ↦ inl (ground arith)
          | inr (row, found) ↦ inr (v, done, ground arith, ground arith)
        ]
  ]
]

run_claimed-state :
    (tenant : ℕ) (key : String) (h : ℕ) (mutate : Exec State Response) (s : State)
    → (run_claimed tenant key h mutate s).1 ≡ (claim_and_run tenant key h mutate s).1
unfolding run_claimed ◌>>=◌
run_claimed-state tenant key h mutate s = ground arith

run_keyed-state :
    (between : State → State) (tenant : ℕ) (key : String) (h : ℕ) (mutate : Exec State Response)
    (s : State)
    → ((run_keyed between tenant key h mutate s).1 ≡ s)
      ⊎ ((run_keyed between tenant key h mutate s).1
          ≡ (run_claimed tenant key h mutate (between s)).1)
unfolding run_keyed ◌>>=◌
run_keyed-state between tenant key h mutate s = ground arith

module _ (Inv : State → Type 0) (tenant : ℕ)
    (kept : (s s' : State) → Evolves tenant s s' → Inv s → Inv s') where
  run_claimed-Serves :
      (key : String) (h : ℕ) (mutate : Exec State Response)
      → Refines tenant mutate
      → Serves Inv (run_claimed tenant key h mutate)
  run_claimed-Serves key h mutate r = record {
    at = λ s i. rw (run_claimed-state tenant key h mutate s) (go s i);
  }
    where
      go : (s : State) → Inv s → Inv (claim_and_run tenant key h mutate s).1
      go s i = elim (claim_and_run-state tenant key h mutate s) [
        | inl e ↦ rw e i
        | inr (v, e, orders, next) ↦
            let t : State = claimed tenant key h s in
            kept (mutate t).1 (claim_and_run tenant key h mutate s).1 (same orders next) (
              kept t (mutate t).1 (r.at t (mutate t).1 v (λ j. (e j, (mutate t).1)))
                (kept s t (same refl refl) i))
      ]

  module _ (between : State → State) (others : (s : State) → Inv s → Inv (between s)) where
    pub run_keyed-Serves :
        (key : String) (h : ℕ) (mutate : Exec State Response)
        → Refines tenant mutate
        → Serves Inv (run_keyed between tenant key h mutate)
    run_keyed-Serves key h mutate r = record {
      at = λ s i. elim (run_keyed-state between tenant key h mutate s) [
        | inl e ↦ rw e i
        | inr e ↦ rw e ((run_claimed-Serves key h mutate r).at (between s) (others s i))
      ];
    }

module _ (Inv : State → Type 0) (env : Env) (req : Request)
    (kept : (s s' : State) → Evolves req.tenant s s' → Inv s → Inv s')
    (others : (s : State) → Inv s → Inv (env.between s)) where
  pub execute_request-Serves :
      (op : Operation) (p : Payload) (mutate : Exec State Response)
      → Refines req.tenant mutate
      → Serves Inv (execute_request env req op p mutate)
  unfolding execute_request
  execute_request-Serves op p mutate r =
      Serves-bind (lift (get_order_key req.key)) _ (Serves-lift (get_order_key req.key))
        (λ key. run_keyed-Serves Inv req.tenant kept env.between others key _ mutate r)

  pub commit_update-Serves :
      (body : Exec State Response)
      → Refines req.tenant body
      → Serves Inv (commit_update env req body)
  unfolding commit_update
  commit_update-Serves body r = record {
    at = λ s i.
        (Serves-bind (transaction body) _ (transaction-Serves Inv req.tenant kept body r) (λ v.
            Serves-bind _ _ (emit_to_tenant-Serves Inv req.tenant kept order_updated v)
              (λ _. Serves-lift (ok v)))).at
          (env.between s) (others s i);
  }
