-- ===== src/Idempotency/Once.antt =====
-- A keyed request takes effect once: what `executeIdempotent` promises to a client that retries.
use text.Mathlib.Text.{◌==◌ as str_eq}
use text.Mathlib.TextPositions.{eq_refl}
use comandas_multitenant_off.Prelude.{
  ℕ, ◌≡◌, ◌∙◌, refl, ◌⊎◌, inl, inr, String, true, false, Option, none, some, List, [], ◌∷◌, ◌++◌,
  ◌==◌, ◌&&◌, if◌then◌else◌, arith, ==_refl, Bool-cases, Option-cases,
}
use comandas_multitenant_off.Http.{Result, ok, err, Error, conflict, key_reused, Exec, ◌>>=◌}
use comandas_multitenant_off.Store.{State, Response, completed, processing, IdempotencyKey}
use comandas_multitenant_off.Store.Queries.{find_key}
use comandas_multitenant_off.Idempotency.{
  Outcome, is_row, replay, replay_canonical, write_response, claim, complete, claim_and_run,
  run_claimed, run_keyed, execute_idempotent,
}

-- The work of a handler does not touch the keys.
pub record LeavesKeys {A : Type 0} (m : Exec State A) : Type 0 where
  pub same : (s : State) → (m s).1.keys ≡ s.keys

abbrev pub done : ℕ → String → ℕ → Response → IdempotencyKey
done tenant key h v = record {
  tenant = tenant;
  key = key;
  status = completed;
  request_hash = some h;
  response = some v;
}

abbrev pub begun : ℕ → String → ℕ → IdempotencyKey
begun tenant key h = record {
  tenant = tenant;
  key = key;
  status = processing;
  request_hash = some h;
  response = none;
}

pub is_row_self : (tenant : ℕ) (key : String) → ((tenant == tenant) && str_eq key key) ≡ true
is_row_self tenant key = rw (==_refl tenant, eq_refl key)

pub find_key-append :
    (tenant : ℕ) (key : String) (rows : List IdempotencyKey) (r : IdempotencyKey)
    → find_key tenant key rows ≡ none
    → is_row tenant key r ≡ true
    → find_key tenant key (rows ++ r ∷ []) ≡ some r
unfolding find_key
find_key-append tenant key [] r h e = rw e
find_key-append tenant key (q ∷ rows) r h e = elim (Bool-cases (is_row tenant key q)) [
  | inl p ↦ absurd (ground arith)
  | inr p ↦ rw p (find_key-append tenant key rows r (ground arith) e)
]

find_key-write_response :
    (tenant : ℕ) (key : String) (v : Response) (rows : List IdempotencyKey) (r : IdempotencyKey)
    → find_key tenant key rows ≡ some r
    → find_key tenant key (write_response tenant key v rows)
      ≡ some (record r { status = completed; response = some v })
unfolding find_key write_response
find_key-write_response tenant key v [] r h = cc
find_key-write_response tenant key v (q ∷ rows) r h = elim (Bool-cases (is_row tenant key q)) [
  | inl p ↦ ground arith
  | inr p ↦ ground (arith, find_key-write_response tenant key v rows r)
]

-- What is left behind by a keyed request that found `s`, and found `b` after its first look: only a
-- first success has written.
abbrev pub Untouched : State → State → Result Outcome × State → Type 0
Untouched s b (ok (v, false), s') = Unit
Untouched s b (ok (v, true), s') = (s' ≡ s) ⊎ (s' ≡ b)
Untouched s b (err e, s') = (s' ≡ s) ⊎ (s' ≡ b)

-- The state in which a mutation runs: its key is claimed.
abbrev pub claimed : ℕ → String → ℕ → State → State
claimed tenant key h s = record s { keys = s.keys ++ begun tenant key h ∷ [] }

module _ (tenant : ℕ) (key : String) (h : ℕ) (mutate : Exec State Response) where
  claim_and_run-stores :
      (s s' : State) (v : Response)
      → LeavesKeys mutate
      → claim_and_run tenant key h mutate s ≡ (ok (v, false), s')
      → find_key tenant key s'.keys ≡ some (done tenant key h v)
  unfolding claim_and_run claim complete ◌>>=◌
  claim_and_run-stores s s' v leaves e = elim (Option-cases (find_key tenant key s.keys)) [
    | inr (row, p) ↦ absurd (ground arith)
    | inl p ↦
        let kept = leaves.same (claimed tenant key h s) in
        let found =
          find_key-append tenant key s.keys (begun tenant key h) p (is_row_self tenant key) in
        ground (
          arith,
          kept,
          found,
          find_key-write_response tenant key v (mutate (claimed tenant key h s)).1.keys
              (begun tenant key h),
        )
  ]

  -- Whatever goes wrong, the database is as other requests left it.
  claim_and_run-err :
      (s s' : State) (x : Error) → claim_and_run tenant key h mutate s ≡ (err x, s') → s' ≡ s
  unfolding claim_and_run claim complete ◌>>=◌
  claim_and_run-err s s' x e = ground arith

  run_keyed-stores :
      (between : State → State) (s s' : State) (v : Response)
      → LeavesKeys mutate
      → run_keyed between tenant key h mutate s ≡ (ok (v, false), s')
      → find_key tenant key s'.keys ≡ some (done tenant key h v)
  unfolding run_keyed run_claimed replay replay_canonical ◌>>=◌
  run_keyed-stores between s s' v leaves e =
      ground (arith, claim_and_run-stores (between s) s' v leaves)

  run_claimed-Untouched : (s : State) → Untouched s s (run_claimed tenant key h mutate s)
  unfolding run_claimed claim_and_run claim complete replay replay_canonical ◌>>=◌
  run_claimed-Untouched s = ground arith

  pub run_keyed-Untouched :
      (between : State → State) (s : State)
      → Untouched s (between s) (run_keyed between tenant key h mutate s)
  unfolding run_keyed replay ◌>>=◌
  run_keyed-Untouched between s = ground (arith, run_claimed-Untouched (between s))

-- What a request with the key is answered when its row is `done`.
abbrev pub answer : ℕ → ℕ → Response → Result Outcome
answer h g v = if h == g then ok (v, true) else err (conflict key_reused)

run_keyed-done :
    (between : State → State) (tenant : ℕ) (key : String) (h g : ℕ) (mutate : Exec State Response)
    (v : Response) (s : State)
    → find_key tenant key s.keys ≡ some (done tenant key h v)
    → run_keyed between tenant key g mutate s ≡ (answer h g v, s)
unfolding run_keyed replay ◌>>=◌
run_keyed-done between tenant key h g mutate v s e = ground arith

run_claimed-done :
    (tenant : ℕ) (key : String) (h g : ℕ) (mutate : Exec State Response) (v : Response) (s : State)
    → find_key tenant key s.keys ≡ some (done tenant key h v)
    → run_claimed tenant key g mutate s ≡ (answer h g v, s)
unfolding run_claimed claim_and_run claim replay replay_canonical ◌>>=◌
run_claimed-done tenant key h g mutate v s e = ground arith

-- A request that is refused, that fails or that is replayed writes nothing: the database is as the
-- request found it, or as the requests committed after its first look at the key left it.
pub idempotent_failure_writes_nothing :
    (between : State → State) (tenant : ℕ) (key : Option String) (h : ℕ)
    (mutate : Exec State Response) (s : State)
    → Untouched s (between s) (execute_idempotent between tenant key h mutate s)
unfolding execute_idempotent ◌>>=◌
idempotent_failure_writes_nothing between tenant none h mutate s = inl refl
idempotent_failure_writes_nothing between tenant (some key) h mutate s =
    run_keyed-Untouched tenant key h mutate between s

module _ (tenant : ℕ) (key : String) (h : ℕ) (mutate : Exec State Response)
    (between : State → State) (s s' : State) (v : Response) (leaves : LeavesKeys mutate)
    (first : execute_idempotent between tenant (some key) h mutate s ≡ (ok (v, false), s'))
    (later : State → State)
    (kept : find_key tenant key (later s').keys ≡ find_key tenant key s'.keys) where
  later-done : find_key tenant key (later s').keys ≡ some (done tenant key h v)
  unfolding execute_idempotent
  later-done = kept ∙ run_keyed-stores tenant key h mutate between s s' v leaves first

  -- After a request has succeeded under a key, any later request with the key and the same hash is
  -- answered with the same value and writes nothing, whatever its own mutation would do; one with
  -- another hash is refused. Between the two anything may happen that leaves the key's row alone.
  pub retry_replays :
      (g : ℕ) (again : Exec State Response) (between' : State → State)
      → execute_idempotent between' tenant (some key) g again (later s') ≡ (answer h g v, later s')
  unfolding execute_idempotent
  retry_replays g again between' =
      run_keyed-done between' tenant key h g again v (later s') later-done

  -- The same holds of a request that had looked for the key before the first one committed, and
  -- reaches its own transaction after that: of two racing requests one takes effect.
  pub race_takes_effect_once :
      (g : ℕ) (rival : Exec State Response) (before : State)
      → find_key tenant key before.keys ≡ none
      → execute_idempotent (λ _. later s') tenant (some key) g rival before
        ≡ (answer h g v, later s')
  unfolding execute_idempotent run_keyed
  race_takes_effect_once g rival before unseen =
      ground (arith, run_claimed-done tenant key h g rival v (later s') later-done)
