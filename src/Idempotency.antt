-- ===== src/Idempotency.antt =====
-- Requests with an idempotency key: backend/src/idempotency.utils.ts, and the private copy in
-- backend/src/orders.controller.ts with its two older helpers `checkIdempotency` and
-- `saveIdempotency`. The hash is a number that a parameter computes (SHA-256 of the JSON text). A
-- stored response is the value itself, since what `JSON.stringify` wrote `JSON.parse` reads back.
-- `between` is what other requests commit after a handler's first look at the key and before its
-- transaction.
pub mod Once
pub mod Legacy
pub mod Keeps
mod Tests
use text.Mathlib.Text.{◌==◌ as str_eq}
use comandas_multitenant_off.Prelude.{
  ℕ, String, Bool, true, false, Option, none, some, List, [], ◌∷◌, ◌++◌, ◌==◌, ◌&&◌, is_some, not,
  if◌then◌else◌,
}
use comandas_multitenant_off.Prelude.Trim.{trim, is_blank}
use comandas_multitenant_off.Http.{
  Result, ok, err, Reason, conflict, bad_request, unique_violation, record_missing, key_required,
  key_reused, key_other_payload, key_in_progress, key_concurrent, Exec, pure, raise, lift, gets,
  or_raise, transaction, catch_unique, modify, ◌>>=◌, ◌>>◌,
}
use comandas_multitenant_off.Store.{
  State, Response, KeyStatus, processing, completed, IdempotencyKey,
}
use comandas_multitenant_off.Store.Queries.{find_key}

-- `req.headers['x-idempotency-key']`
pub data Header : Type 0 where
  absent : Header
  one : String → Header
  many : List String → Header

-- `!key` holds of the empty text too.
non_blank : String → Option String
non_blank k = if is_blank k then none else some k

-- `getIdempotencyKey` of idempotency.utils.ts, and the test `!key`
unfoldable pub get_idempotency_key : Header → Option String
unfolding non_blank
get_idempotency_key absent = none
get_idempotency_key (one k) = non_blank (trim k)
get_idempotency_key (many []) = none
get_idempotency_key (many (k ∷ ks)) = non_blank (trim k)

-- `OrdersController.getIdempotencyKey`, which takes no list
unfoldable pub get_order_key : Header → Result String
unfolding non_blank
get_order_key absent = err (bad_request key_required)
get_order_key (many ks) = err (bad_request key_required)
get_order_key (one k) = elim (non_blank (trim k)) [
  | none ↦ err (bad_request key_required)
  | some j ↦ ok j
]

-- `Array.isArray(rawKey) ? rawKey[0] : rawKey`, and the test `!key`
unfoldable pub get_raw_key : Header → Option String
unfolding non_blank
get_raw_key absent = none
get_raw_key (one k) = non_blank k
get_raw_key (many []) = none
get_raw_key (many (k ∷ ks)) = non_blank k

abbrev pub has_hash : ℕ → Option ℕ → Bool
has_hash h none = false
has_hash h (some g) = g == h

-- The value of a request, and whether it was replayed.
abbrev pub Outcome : Type 0
Outcome = Response × Bool

stored : Reason → KeyStatus → Option Response → Result Outcome
stored busy completed (some r) = ok (r, true)
stored busy status response = err (conflict busy)

-- The answer for a key that has a row.
unfoldable pub replay : Reason → ℕ → IdempotencyKey → Result Outcome
unfolding stored
replay busy h row =
    if has_hash h row.request_hash
    then stored busy row.status row.response
    else err (conflict key_reused)

unfoldable pub replay_canonical : ℕ → Option IdempotencyKey → Result Outcome
unfolding replay
replay_canonical h none = err (conflict key_reused)
replay_canonical h (some row) = replay key_concurrent h row

abbrev pub is_row : ℕ → String → IdempotencyKey → Bool
is_row tenant key r = (r.tenant == tenant) && str_eq r.key key

unfoldable pub write_response : ℕ → String → Response → List IdempotencyKey → List IdempotencyKey
write_response tenant key v [] = []
write_response tenant key v (r ∷ rows) =
    if is_row tenant key r
    then record r { status = completed; response = some v } ∷ rows
    else r ∷ write_response tenant key v rows

-- `idempotencyKey.create({ data: { ..., status: 'processing', requestHash } })`
unfoldable pub claim : ℕ → String → ℕ → Exec State (Unit {0})
claim tenant key h s = elim (find_key tenant key s.keys) [
  | some row ↦ (err unique_violation, s)
  | none ↦ (
    ok tt,
    record s {
      keys =
          s.keys
          ++ (record {
            tenant = tenant;
            key = key;
            status = processing;
            request_hash = some h;
            response = none;
          })
            ∷ [];
    },
  )
]

-- `idempotencyKey.update({ data: { status: 'completed', response } })`
unfoldable pub complete : ℕ → String → Response → Exec State (Unit {0})
complete tenant key v s = elim (find_key tenant key s.keys) [
  | none ↦ (err record_missing, s)
  | some row ↦ (ok tt, record s { keys = write_response tenant key v s.keys })
]

-- The transaction: the key is claimed, the mutation made, its response stored.
unfoldable pub claim_and_run : ℕ → String → ℕ → Exec State Response → Exec State Outcome
claim_and_run tenant key h mutate =
    transaction do claim tenant key h; v ← mutate; complete tenant key v; pure (v, false)

unfoldable pub run_claimed : ℕ → String → ℕ → Exec State Response → Exec State Outcome
unfolding claim_and_run
run_claimed tenant key h mutate =
    catch_unique (claim_and_run tenant key h mutate)
      do row ← gets (λ s. find_key tenant key s.keys); lift (replay_canonical h row)

-- `executeIdempotent` for a request with a key
unfoldable pub run_keyed :
    (State → State) → ℕ → String → ℕ → Exec State Response → Exec State Outcome
run_keyed between tenant key h mutate s = elim (find_key tenant key s.keys) [
  | some row ↦ lift (replay key_in_progress h row) s
  | none ↦ run_claimed tenant key h mutate (between s)
]

-- `executeIdempotent` of idempotency.utils.ts
unfoldable pub execute_idempotent :
    (State → State) → ℕ → Option String → ℕ → Exec State Response → Exec State Outcome
execute_idempotent between tenant none h mutate = raise (bad_request key_required)
execute_idempotent between tenant (some key) h mutate = run_keyed between tenant key h mutate

-- `checkIdempotency`: the cached response, if any
unfoldable pub check_idempotency : ℕ → Option String → ℕ → State → Result (Option Response)
check_idempotency tenant none h s = ok none
check_idempotency tenant (some key) h s = elim (find_key tenant key s.keys) [
  | none ↦ ok none
  | some row ↦
      if is_some row.request_hash && not (has_hash h row.request_hash)
      then err (conflict key_other_payload)
      else elim row.status [
        | processing ↦ err (conflict key_in_progress)
        | completed ↦ ok row.response
      ]
]

-- `saveIdempotency`, inside the transaction
unfoldable pub save_idempotency : ℕ → Option String → ℕ → Response → Exec State (Unit {0})
save_idempotency tenant none h v s = (ok tt, s)
save_idempotency tenant (some key) h v s = elim (find_key tenant key s.keys) [
  | some row ↦ (err unique_violation, s)
  | none ↦ (
    ok tt,
    record s {
      keys =
          s.keys
          ++ (record {
            tenant = tenant;
            key = key;
            status = completed;
            request_hash = some h;
            response = some v;
          })
            ∷ [];
    },
  )
]
