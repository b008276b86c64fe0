-- ===== src/Orders/Listings.antt =====
-- backend/src/orders.controller.ts: `getProducts`, `getOrders` and `getOrderById`. `newest` is the order of the
-- query, by the time of creation, which the rows do not hold.
use comandas_multitenant_off.Prelude.{
  ℕ, ◌+◌, ◌≡◌, String, Bool, true, false, Option, none, some, List, [], ◌∷◌, arith, ◌==◌, ◌&&◌,
  ◌||◌, ltb, or_else, if◌then◌else◌,
}
use comandas_multitenant_off.Prelude.Dict.{Dict}
use comandas_multitenant_off.Prelude.Lists.{length}
use text.Mathlib.Text.{◌==◌ as str_eq}
use comandas_multitenant_off.Prelude.Lists.{keep, last?, drop_last}
use comandas_multitenant_off.Prelude.Trim.{split_list}
use comandas_multitenant_off.Store.Queries.{find_order}
use comandas_multitenant_off.Http.{
  Exec, gets, or_raise, not_found, order_not_found, ◌>>=◌, Result, ok,
}
use comandas_multitenant_off.Store.{State, Order, Product, Status}
use comandas_multitenant_off.Orders.Advance.{status_name}
use comandas_multitenant_off.Pagination.{
  Limit, given, page_args, page_size, last_id, find_many, Page, page_result, list_page,
}

unfoldable pub get_products :
    (Dict Product → Dict Product) → Limit → Option ℕ → ℕ → State → Result (Page Product)
get_products newest limit cursor tenant s =
    list_page (newest (keep (λ r. r.1.tenant == tenant) s.products)) limit cursor

-- `QueryOrdersDto`
pub record QueryOrdersDto : Type 0 where
  pub status : Option String
  pub limit : Option ℕ
  pub cursor : Option ℕ

is_named : Status → List String → Bool
is_named s [] = false
is_named s (t ∷ ts) = str_eq (status_name s) t || is_named s ts

-- `statuses && statuses.length ? { status: { in: statuses } } : {}`
in_statuses : List String → Status → Bool
in_statuses [] s = true
in_statuses (t ∷ ts) s = is_named s (t ∷ ts)

statuses_of : Option String → List String
statuses_of none = []
statuses_of (some t) = split_list t

-- The orders that the query is about.
unfoldable pub matching_orders : (Dict Order → Dict Order) → QueryOrdersDto → ℕ → State → Dict Order
unfolding is_named in_statuses statuses_of
matching_orders newest query tenant s =
    newest (
      keep (λ r. r.1.tenant == tenant && in_statuses (statuses_of query.status) r.1.status)
        s.orders)

-- `Math.min(Math.max(Number(query?.limit ?? 30), 1), 100)`
unfoldable pub orders_take : Option ℕ → ℕ
orders_take limit = let n = or_else limit 30 in if ltb n 1 then 1 else if ltb 100 n then 100 else n

cut_page : ℕ → Dict Order → Page Order
cut_page take rows =
    if ltb take (length rows)
    then record { rows = drop_last rows; next_cursor = last_id (last? (drop_last rows)) }
    else record { rows = rows; next_cursor = none }

unfoldable pub get_orders : (Dict Order → Dict Order) → QueryOrdersDto → ℕ → State → Page Order
unfolding cut_page
get_orders newest query tenant s = cut_page (orders_take query.limit) (
    find_many (record { take = orders_take query.limit + 1; cursor = query.cursor })
      (matching_orders newest query tenant s))

-- `getOrderById`
unfoldable pub get_order_by_id : ℕ → ℕ → Exec State Order
get_order_by_id tenant id = do
  found ← gets (find_order tenant id)
  or_raise found (not_found order_not_found)

-- `getOrders` pages as `pageArgs` and `pageResult` do, with a limit of 30 where the query has none;
-- no query is refused.
pub get_orders-list_page :
    (newest : Dict Order → Dict Order) (query : QueryOrdersDto) (tenant : ℕ) (s : State)
    → list_page
        (matching_orders newest query tenant s)
        (given (some (orders_take query.limit)))
        query.cursor
      ≡ ok (get_orders newest query tenant s)
unfolding list_page page_args page_result page_size get_orders orders_take
get_orders-list_page newest query tenant s = ground arith
