-- ===== src/Management/Expenses/Listing.antt =====
-- backend/src/management.controller.ts, `listExpenses` and `withExpenseStatus`. The rows come in
-- the order of the query, with the dates read.
use comandas_multitenant_off.Prelude.{
  ℕ, zero, suc, ◌+◌, ◌≤◌, ◌≡◌, refl, ap, Bool, true, false, Option, none, some, [], ◌∷◌, ◌++◌, map,
  arith, ◌==◌, ◌&&◌, if◌then◌else◌,
}
use comandas_multitenant_off.Prelude.Dict.{Dict}
use comandas_multitenant_off.Prelude.Lists.{length}
use comandas_multitenant_off.Prelude.Lists.{keep}
use comandas_multitenant_off.Calendar.{Date, is_until, is_before}
use comandas_multitenant_off.Http.{Result, ok, err}
use comandas_multitenant_off.Store.{State}
use comandas_multitenant_off.Store.Books.{
  Expense, ExpenseStatus, pending, partially_paid, paid, overdue, canceled, ExpenseView,
}
use comandas_multitenant_off.Pagination.{
  Limit, given, page_args, page_size, find_many, take, Page, page_result,
}
use comandas_multitenant_off.Management.Expenses.{paid_cents, with_expense_status}
use comandas_multitenant_off.Management.Expenses.Covered.{IsCovered}

abbrev pub same_status : ExpenseStatus → ExpenseStatus → Bool
same_status pending pending = true
same_status partially_paid partially_paid = true
same_status paid paid = true
same_status overdue overdue = true
same_status canceled canceled = true
same_status a b = false

in_range : Option Date → Option Date → Date → Bool
in_range none none d = true
in_range (some a) none d = is_until a d
in_range none (some b) d = is_until d b
in_range (some a) (some b) d = is_until a d && is_until d b

abbrev pub view_row : Date → ℕ × Expense → ℕ × ExpenseView
view_row now (id, e) = (id, with_expense_status now e)

-- `expenses.map(withExpenseStatus)`, filtered where the query has a status
unfoldable pub view_rows : Date → Option ExpenseStatus → Dict Expense → Dict ExpenseView
view_rows now none rows = map (view_row now) rows
view_rows now (some status) rows =
    keep (λ r. same_status r.1.status status) (map (view_row now) rows)

-- `listExpenses`: the page is cut before the status is looked at.
unfoldable pub list_expenses :
    (Dict Expense → Dict Expense)
    → Date
    → Option Date
    → Option Date
    → Option ExpenseStatus
    → Limit
    → Option ℕ
    → ℕ
    → State
    → Result (Page ExpenseView)
unfolding in_range
list_expenses sort now from to status limit cursor tenant s = elim (page_args limit cursor) [
  | err e ↦ err e
  | ok p ↦ ok (
      page_result
        (view_rows now status (
          find_many p
            (sort (keep (λ r. r.1.tenant == tenant && in_range from to r.1.due_date) s.expenses))))
        limit)
]

length-keep : (p : ℕ × ExpenseView → Bool) (xs : Dict ExpenseView) → length (keep p xs) ≤ length xs
length-keep p [] = omega arith
length-keep p (x ∷ xs) = ground (arith, length-keep p xs)

keep_drops :
    (p : ℕ × ExpenseView → Bool) (xs ys : Dict ExpenseView) (x : ℕ × ExpenseView)
    → p x ≡ false
    → suc (length (keep p (xs ++ x ∷ ys))) ≤ length (xs ++ x ∷ ys)
keep_drops p [] ys x h = ground (arith, length-keep p ys)
keep_drops p (z ∷ xs) ys x h = ground (arith, keep_drops p xs ys x h)

length-take : (n : ℕ) (rows : Dict Expense) → length (take n rows) ≤ n
unfolding take
length-take zero rows = omega arith
length-take (suc n) [] = omega arith
length-take (suc n) (r ∷ rows) = omega (arith, length-take n rows)

length-map : (f : ℕ × Expense → ℕ × ExpenseView) (xs : Dict Expense) → length (map f xs) ≡ length xs
length-map f [] = refl
length-map f (x ∷ xs) = ap suc (length-map f xs)

-- The rows of a page and one more, filtered: where one of them has another status, there is no
-- cursor for the next page, however many rows of the status follow.
pub filtered_listing_ends :
    (now : Date) (status : ExpenseStatus) (limit : ℕ) (rows : Dict Expense)
    (xs ys : Dict ExpenseView) (x : ℕ × ExpenseView)
    → map (view_row now) (take (limit + 1) rows) ≡ xs ++ x ∷ ys
    → same_status x.1.status status ≡ false
    → (page_result
        (view_rows now (some status) (take (limit + 1) rows))
        (given (some limit))).next_cursor
      ≡ none
unfolding page_result page_size view_rows
filtered_listing_ends now status limit rows xs ys x split other =
    let p : ℕ × ExpenseView → Bool = λ r. same_status r.1.status status in
    ground (
      arith,
      length-take (limit + 1) rows,
      length-map (view_row now) (take (limit + 1) rows),
      keep_drops p xs ys x other,
      ap (λ zs. length (keep p zs)) split,
      ap length split,
    )

-- Of an expense that is not canceled and not overpaid, what is paid and the balance make the
-- amount, and the status says how much is paid: all, a part, or nothing, before or after the due
-- date.
pub with_expense_status_lem :
    (now : Date) (e : Expense)
    → e.canceled_at ≡ none
    → IsCovered e
    → 1 ≤ e.amount_cents
    → ((with_expense_status now e).paid_cents + (with_expense_status now e).balance_cents
        ≡ e.amount_cents)
      × ((with_expense_status now e).status ≡ (
          if paid_cents e == e.amount_cents
          then paid
          else if paid_cents e == 0
          then (if is_before e.due_date now then overdue else pending)
          else partially_paid))
unfolding with_expense_status
with_expense_status_lem now e active covered positive = ground arith
