-- ===== src/Reports/Sums.antt =====
-- Sums over grouped and sorted rows: backend/src/reports.controller.ts.
use comandas_multitenant_off.Prelude.{
  ℕ, ◌+◌, ◌≡◌, ◌≤◌, refl, ap, inl, inr, Bool, List, [], ◌∷◌, map, arith, ltb, Bool-cases,
}
use comandas_multitenant_off.Prelude.Lists.{sum_by, sum_by-append, All}
use comandas_multitenant_off.Store.{Order, OrderPayment, Method, State}
use comandas_multitenant_off.Orders.Lifecycle.Invariant.{paid_cents}
use comandas_multitenant_off.Reports.{
  Axis, add_to, group_into, method_row, method_rows, insert_sorted, by_amount, CategoryRow,
  named_row,
}

-- The amounts of the rows together.
abbrev pub total : {K : Type 0} → List (K × ℕ) → ℕ
total rows = sum_by (λ r. r.1) rows

module _ {K : Type 0} (same : K → K → Bool) where
  total-add_to :
      (k : K) (n : ℕ) (rows : List (K × ℕ)) → total (add_to same k n rows) ≡ n + total rows
  unfolding add_to
  total-add_to k n [] = refl
  total-add_to k n ((j, m) ∷ rows) = ground (arith, total-add_to k n rows)

  -- Grouping keeps the total.
  pub total-group_into :
      (xs rows : List (K × ℕ)) → total (group_into same xs rows) ≡ total xs + total rows
  unfolding group_into
  total-group_into [] rows = omega arith
  total-group_into ((k, n) ∷ xs) rows =
      omega (arith, total-group_into xs (add_to same k n rows), total-add_to k n rows)

total-insert_sorted : (x : ℕ × ℕ) (xs : List (ℕ × ℕ)) → total (insert_sorted x xs) ≡ x.1 + total xs
unfolding insert_sorted
total-insert_sorted x [] = refl
total-insert_sorted x (y ∷ ys) = ground (arith, total-insert_sorted x ys)

pub total-by_amount : (xs : List (ℕ × ℕ)) → total (by_amount xs) ≡ total xs
unfolding by_amount
total-by_amount [] = refl
total-by_amount (x ∷ xs) = omega (arith, total-insert_sorted x (by_amount xs), total-by_amount xs)

-- No row stands before one with a larger amount.
abbrev pub IsDescending : List (ℕ × ℕ) → Type 0
IsDescending [] = Unit
IsDescending (x ∷ xs) = All (λ y. y.1 ≤ x.1) xs × IsDescending xs

below :
    (x y : ℕ × ℕ) (ys : List (ℕ × ℕ))
    → y.1 ≤ x.1
    → All (λ z. z.1 ≤ y.1) ys
    → All (λ z. z.1 ≤ x.1) ys
below x y [] le h = tt
below x y (z ∷ zs) le (h, hs) = (omega (arith, le, h), below x y zs le hs)

insert_below :
    (x y : ℕ × ℕ) (xs : List (ℕ × ℕ))
    → x.1 ≤ y.1
    → All (λ z. z.1 ≤ y.1) xs
    → All (λ z. z.1 ≤ y.1) (insert_sorted x xs)
unfolding insert_sorted
insert_below x y [] le h = (le, tt)
insert_below x y (z ∷ zs) le (h, hs) = elim (Bool-cases (ltb x.1 z.1)) [
  | inl less ↦ rw less (h, insert_below x y zs le hs)
  | inr more ↦ rw more (le, (h, hs))
]

insert_sorted-IsDescending :
    (x : ℕ × ℕ) (xs : List (ℕ × ℕ)) → IsDescending xs → IsDescending (insert_sorted x xs)
unfolding insert_sorted
insert_sorted-IsDescending x [] h = (tt, tt)
insert_sorted-IsDescending x (y ∷ ys) (h, hs) = elim (Bool-cases (ltb x.1 y.1)) [
  | inl less ↦ rw less (insert_below x y ys (ground arith) h, insert_sorted-IsDescending x ys hs)
  | inr more ↦ let le : y.1 ≤ x.1 = ground arith in rw more ((le, below x y ys le h), (h, hs))
]

pub by_amount-IsDescending : (xs : List (ℕ × ℕ)) → IsDescending (by_amount xs)
unfolding by_amount
by_amount-IsDescending [] = tt
by_amount-IsDescending (x ∷ xs) =
    insert_sorted-IsDescending x (by_amount xs) (by_amount-IsDescending xs)

-- The amounts of the report's rows.
abbrev pub amounts : List CategoryRow → List (ℕ × ℕ)
amounts rows = map (λ r. (r.category_id, r.amount_cents)) rows

pub amounts-named_row :
    (axis : Axis) (tenant : ℕ) (s : State) (xs : List (ℕ × ℕ))
    → amounts (map (named_row axis tenant s) xs) ≡ xs
unfolding named_row
amounts-named_row axis tenant s [] = refl
amounts-named_row axis tenant s ((k, n) ∷ xs) =
    ap (λ ys. (k, n) ∷ ys) (amounts-named_row axis tenant s xs)

pub total-amounts :
    (rows : List CategoryRow) → sum_by (λ r. r.amount_cents) rows ≡ total (amounts rows)
total-amounts [] = refl
total-amounts (r ∷ rows) = omega (arith, total-amounts rows)

total-method_row : (ps : List OrderPayment) → total (map method_row ps) ≡ paid_cents ps
total-method_row [] = refl
total-method_row (p ∷ ps) = omega (arith, total-method_row ps)

pub total-method_rows :
    (os : List Order) → total (method_rows os) ≡ sum_by (λ o. paid_cents o.payments) os
unfolding method_rows
total-method_rows [] = refl
total-method_rows (o ∷ os) = omega (
  arith,
  sum_by-append (λ (r : Method × ℕ). r.1) (map method_row o.payments) (method_rows os),
  total-method_row o.payments,
  total-method_rows os,
)
