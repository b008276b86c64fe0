-- ===== src/Idempotency/Keeps.antt =====
-- What a mutation keeps, `executeIdempotent` keeps: backend/src/idempotency.utils.ts.
use comandas_multitenant_off.Prelude.{
  subst, ℕ, ◌≡◌, inl, inr, String, Option, none, some, List, arith, Option-cases,
}
use comandas_multitenant_off.Http.{ok, Exec, Result-cases, ◌>>=◌}
use comandas_multitenant_off.Store.{State, Response, IdempotencyKey}
use comandas_multitenant_off.Store.Queries.{find_key}
use comandas_multitenant_off.Idempotency.{
  claim, complete, claim_and_run, run_claimed, run_keyed, execute_idempotent,
}
use comandas_multitenant_off.Idempotency.Once.{claimed}

-- The property says nothing of the idempotency keys.
pub record IgnoresKeys (Inv : State → Type 0) : Type 1 where
  pub at : (s : State) (keys : List IdempotencyKey) → Inv s → Inv (record s { keys = keys })

module _ (Inv : State → Type 0) (free : IgnoresKeys Inv) (mutate : Exec State Response)
    (kept : (s s' : State) (v : Response) → mutate s ≡ (ok v, s') → Inv s → Inv s') where
  -- What `claim_and_run` leaves is what it found, or what the mutation left with another key.
  claim_and_run-keeps :
      (tenant : ℕ) (key : String) (h : ℕ) (s : State)
      → Inv s
      → Inv (claim_and_run tenant key h mutate s).1
  unfolding claim_and_run claim complete ◌>>=◌
  claim_and_run-keeps tenant key h s i = elim (Option-cases (find_key tenant key s.keys)) [
    | inr (row, used) ↦ subst Inv (ground arith) i
    | inl unused ↦
        let before = claimed tenant key h s in
        elim (Result-cases (mutate before).0) [
          | inr (e, fault) ↦ subst Inv (ground arith) i
          | inl (v, done) ↦ elim (Option-cases (find_key tenant key (mutate before).1.keys)) [
            | inl lost ↦ subst Inv (ground arith) i
            | inr (row, found) ↦ subst Inv (ground arith) (
                free.at (mutate before).1 (claim_and_run tenant key h mutate s).1.keys (
                  kept before (mutate before).1 v (λ j. (done j, (mutate before).1))
                    (free.at s before.keys i)))
          ]
        ]
  ]

  -- The request keeps the property, if what other requests commit meanwhile keeps it.
  pub execute_idempotent-keeps :
      (between : State → State) (tenant : ℕ) (key : Option String) (h : ℕ)
      → ((s : State) → Inv s → Inv (between s))
      → (s : State) → Inv s
      → Inv (execute_idempotent between tenant key h mutate s).1
  unfolding execute_idempotent run_keyed run_claimed ◌>>=◌
  execute_idempotent-keeps between tenant none h others s i = i
  execute_idempotent-keeps between tenant (some key) h others s i =
      elim (Option-cases (find_key tenant key s.keys)) [
        | inr (row, used) ↦ subst Inv (ground arith) i
        | inl unused ↦
            subst Inv (ground arith) (claim_and_run-keeps tenant key h (between s) (others s i))
      ]
