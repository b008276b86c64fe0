-- ===== src/Management/Keeps.antt =====
-- What a mutation keeps, the endpoint that runs it at most once keeps: `executeIdempotent` as
-- backend/src/management.controller.ts calls it.
use comandas_multitenant_off.Prelude.{◌≡◌, arith, subst}
use comandas_multitenant_off.Http.{ok, Exec, ◌>>=◌}
use comandas_multitenant_off.Store.{State, Response}
use comandas_multitenant_off.Dto.{Operation, Payload, whole_request}
use comandas_multitenant_off.Idempotency.{get_idempotency_key}
use comandas_multitenant_off.Idempotency.Keeps.{IgnoresKeys, execute_idempotent-keeps}
use comandas_multitenant_off.Orders.{Request}
use comandas_multitenant_off.Management.{Env, once}

pub once-keeps :
    (Inv : State → Type 0) (free : IgnoresKeys Inv) (env : Env) (req : Request)
    → ((s : State) → Inv s → Inv (env.between s))
    → (op : Operation) (body : Payload) (mutate : Exec State Response)
    → ((s s' : State) (v : Response) → mutate s ≡ (ok v, s') → Inv s → Inv s')
    → (s : State) → Inv s
    → Inv (once env req op body mutate s).1
unfolding once ◌>>=◌
once-keeps Inv free env req others op body mutate kept s h = subst Inv (ground arith) (
    execute_idempotent-keeps Inv free mutate kept env.between req.tenant
      (get_idempotency_key req.key) (env.hash (whole_request op req.tenant req.user body)) others s
      h)
