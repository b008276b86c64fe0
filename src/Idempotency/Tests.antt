-- ===== src/Idempotency/Tests.antt =====
-- The theorems about idempotency keys at concrete requests.
use comandas_multitenant_off.Prelude.{suc, ◌≡◌, refl, true, false, none, some, [], ◌∷◌}
use comandas_multitenant_off.Prelude.Trim.{trim}
use comandas_multitenant_off.Http.{ok, err, conflict, key_reused, Exec, ◌>>=◌}
use comandas_multitenant_off.Store.{State, Order, OrderType, Status, Response, order_response}
use comandas_multitenant_off.Store.Queries.{find_key}
use comandas_multitenant_off.Idempotency.{
  Header, get_idempotency_key, get_order_key, get_raw_key, claim, complete, claim_and_run,
  run_claimed, run_keyed, execute_idempotent, check_idempotency, save_idempotency, write_response,
}
use comandas_multitenant_off.Idempotency.Once.{
  LeavesKeys, Untouched, done, idempotent_failure_writes_nothing, retry_replays,
  race_takes_effect_once,
}
use comandas_multitenant_off.Idempotency.Legacy.{save-check}

abbrev empty : State
empty = record {
  next_id = 1;
  users = [];
  discount_limits = [];
  tables = [];
  products = [];
  orders = [];
  charges = [];
  movements = [];
  audit_log = [];
  categories = [];
  suppliers = [];
  expense_categories = [];
  expenses = [];
  templates = [];
  purchases = [];
  keys = [];
  events = [];
}

abbrev quick_sale : Order
quick_sale = record {
  tenant = 1;
  table_id = none;
  table_label = "Venda rápida";
  order_type = OrderType.quick_sale;
  status = Status.opened;
  version = 1;
  subtotal_cents = 0;
  discount_cents = 0;
  discount_type = none;
  discount_value = none;
  discount_authorized_by = none;
  service_fee_bps = 1000;
  service_fee_cents = 0;
  total_cents = 0;
  settled_at = none;
  settled_by = none;
  items = [];
  payments = [];
  history = [];
}

abbrev sold : Response
sold = order_response 1 quick_sale

-- counts the id generator up, so that a second run would show
abbrev sell : Exec State Response
sell s = (ok sold, record s { next_id = suc s.next_id })

sell-LeavesKeys : LeavesKeys sell
sell-LeavesKeys = record { same = λ s. refl }

abbrev idle : State → State
idle s = s

abbrev after_sale : State
after_sale = record empty { next_id = 2; keys = done 1 "k" 7 sold ∷ [] }

first_sale : execute_idempotent idle 1 (some "k") 7 sell empty ≡ (ok (sold, false), after_sale)
unfolding execute_idempotent run_keyed run_claimed claim_and_run claim complete find_key
    write_response ◌>>=◌
first_sale = refl

-- the key again, with another request: it is refused
idempotent_failure_writes_nothing_example :
    Untouched after_sale (idle after_sale) (execute_idempotent idle 1 (some "k") 8 sell after_sale)
idempotent_failure_writes_nothing_example =
    idempotent_failure_writes_nothing idle 1 (some "k") 8 sell after_sale

retry_replays_example :
    execute_idempotent idle 1 (some "k") 7 sell after_sale ≡ (ok (sold, true), after_sale)
retry_replays_example =
    retry_replays 1 "k" 7 sell idle empty after_sale sold sell-LeavesKeys first_sale idle refl 7
      sell idle

unseen_k : find_key 1 "k" empty.keys ≡ none
unfolding find_key
unseen_k = refl

race_takes_effect_once_example :
    execute_idempotent (λ s. after_sale) 1 (some "k") 8 sell empty
    ≡ (err (conflict key_reused), after_sale)
race_takes_effect_once_example =
    race_takes_effect_once 1 "k" 7 sell idle empty after_sale sold sell-LeavesKeys first_sale idle
      refl 8 sell empty unseen_k

saved :
    save_idempotency 1 (some "k") 7 sold empty
    ≡ (ok tt, record empty { keys = done 1 "k" 7 sold ∷ [] })
unfolding save_idempotency find_key
saved = refl

save-check_example :
    check_idempotency 1 (some "k") 7 (record empty { keys = done 1 "k" 7 sold ∷ [] })
    ≡ ok (some sold)
save-check_example =
    save-check 1 "k" 7 7 sold empty (record empty { keys = done 1 "k" 7 sold ∷ [] }) saved

keys_of_headers :
    (get_idempotency_key (Header.many (" k " ∷ [])) ≡ some "k")
    × (get_raw_key (Header.one " k ") ≡ some " k ")
    × (get_order_key (Header.one " k ") ≡ ok "k")
unfolding get_idempotency_key get_raw_key get_order_key trim
keys_of_headers = (refl, refl, refl)
