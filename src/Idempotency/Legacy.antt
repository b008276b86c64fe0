-- ===== src/Idempotency/Legacy.antt =====
-- The older helpers `checkIdempotency` and `saveIdempotency`, which hash the body alone.
use comandas_multitenant_off.Prelude.{
  inl, inr, ◌==◌, if◌then◌else◌, ℕ, ◌≡◌, String, some, arith, Option-cases,
}
use comandas_multitenant_off.Http.{ok, err, conflict, key_other_payload}
use comandas_multitenant_off.Store.{State, Response}
use comandas_multitenant_off.Store.Queries.{find_key}
use comandas_multitenant_off.Idempotency.{check_idempotency, save_idempotency}
use comandas_multitenant_off.Idempotency.Once.{done, find_key-append, is_row_self}

-- What `saveIdempotency` stores `checkIdempotency` finds: under the key, the same hash gives the
-- response back, and another hash is refused.
pub save-check :
    (tenant : ℕ) (key : String) (h g : ℕ) (v : Response) (s s' : State)
    → save_idempotency tenant (some key) h v s ≡ (ok tt, s')
    → check_idempotency tenant (some key) g s'
      ≡ (if h == g then ok (some v) else err (conflict key_other_payload))
unfolding save_idempotency check_idempotency
save-check tenant key h g v s s' e = elim (Option-cases (find_key tenant key s.keys)) [
  | inr (row, used) ↦ absurd (ground arith)
  | inl unused ↦ ground (
    arith,
    find_key-append tenant key s.keys (done tenant key h v) unused (is_row_self tenant key),
  )
]
