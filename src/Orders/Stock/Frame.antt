-- ===== src/Orders/Stock/Frame.antt =====
-- Selling the stock of an order leaves the orders and the charges alone.
use comandas_multitenant_off.Prelude.{ℕ, ◌≡◌, refl, Option, none, some, [], ◌∷◌, arith}
use comandas_multitenant_off.Prelude.Dict.{Dict}
use comandas_multitenant_off.Store.{State, Product}
use comandas_multitenant_off.Orders.Stock.{Sale, sell_found, sell_all}

abbrev SameOrders : State → State → Type 0
SameOrders s s' = (s'.orders ≡ s.orders) × (s'.next_id ≡ s.next_id)

sell_found-SameOrders :
    (tenant order : ℕ) (user : Option ℕ) (p : ℕ) (x : Sale) (row : Option Product) (s : State)
    → SameOrders s (sell_found tenant order user p x row s).1
unfolding sell_found
sell_found-SameOrders tenant order user p x none s = (refl, refl)
sell_found-SameOrders tenant order user p x (some row) s = ground arith

sell_found-charges :
    (tenant order : ℕ) (user : Option ℕ) (p : ℕ) (x : Sale) (row : Option Product) (s : State)
    → (sell_found tenant order user p x row s).1.charges ≡ s.charges
unfolding sell_found
sell_found-charges tenant order user p x none s = refl
sell_found-charges tenant order user p x (some row) s = ground arith

pub sell_all-charges :
    (find : ℕ → State → Option Product) (tenant order : ℕ) (user : Option ℕ) (m : Dict Sale)
    (s : State)
    → (sell_all find tenant order user m s).1.charges ≡ s.charges
unfolding sell_all
sell_all-charges find tenant order user [] s = refl
sell_all-charges find tenant order user ((p, x) ∷ m) s = ground (
  arith,
  sell_found-charges tenant order user p x (find p s) s,
  sell_all-charges find tenant order user m (sell_found tenant order user p x (find p s) s).1,
)

pub sell_all-SameOrders :
    (find : ℕ → State → Option Product) (tenant order : ℕ) (user : Option ℕ) (m : Dict Sale)
    (s : State)
    → ((sell_all find tenant order user m s).1.orders ≡ s.orders)
      × ((sell_all find tenant order user m s).1.next_id ≡ s.next_id)
unfolding sell_all
sell_all-SameOrders find tenant order user [] s = (refl, refl)
sell_all-SameOrders find tenant order user ((p, x) ∷ m) s = ground (
  arith,
  sell_found-SameOrders tenant order user p x (find p s) s,
  sell_all-SameOrders find tenant order user m (sell_found tenant order user p x (find p s) s).1,
)
