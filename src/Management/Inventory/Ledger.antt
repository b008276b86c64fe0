-- ===== src/Management/Inventory/Ledger.antt =====
-- The stock is what its movements add up to: backend/src/management.controller.ts, and the sales of
-- backend/src/orders.controller.ts and backend/src/pix.controller.ts.
use comandas_multitenant_off.Prelude.{
  subst, ℕ, ◌≡◌, inl, inr, refl, sym, ap, ◌∙◌, false, Option, none, some, List, [], ◌∷◌, ◌++◌,
  arith, ◌==◌, if◌then◌else◌, Bool-cases, Option-cases, eq_of_==,
}
use comandas_multitenant_off.Prelude.Dict.{Dict, get, put, get-put}
use comandas_multitenant_off.Prelude.Int.{ℤ, pos, ◌+ℤ◌, ◌-ℤ◌, int_laws}
use comandas_multitenant_off.Http.{ok, Result-cases, ◌>>=◌}
use comandas_multitenant_off.Store.{State, Product, StockMovement, Response}
use comandas_multitenant_off.Store.Queries.{find_product}
use comandas_multitenant_off.Dto.Management.{AdjustStockDto}
use comandas_multitenant_off.Idempotency.Keeps.{IgnoresKeys}
use comandas_multitenant_off.Orders.{Request}
use comandas_multitenant_off.Orders.Stock.{
  Sale, milli, movement_of, sell_found, record_sale, has_sale, sell_all,
}
use comandas_multitenant_off.Management.Inventory.{
  write_stock, insert_movement, adjusted, adjustment_movement, adjust_stock, find_stock_product,
}

-- The sum of a product's movements.
abbrev pub ledger : ℕ → List StockMovement → ℤ
ledger id [] = pos 0
ledger id (m ∷ ms) = (if m.product == id then m.quantity else pos 0) +ℤ ledger id ms

-- The stock of each product is an opening balance and its movements.
pub record HasLedger (opening : ℕ → ℤ) (s : State) : Type 0 where
  pub at :
      (id : ℕ) (p : Product)
      → get id s.products ≡ some p
      → p.stock_quantity ≡ opening id +ℤ ledger id s.movements

pub HasLedger-IgnoresKeys : (opening : ℕ → ℤ) → IgnoresKeys (HasLedger opening)
HasLedger-IgnoresKeys opening = record { at = λ s keys h. record { at = h.at } }

+ℤ_assoc : (a b c : ℤ) → a +ℤ b +ℤ c ≡ a +ℤ (b +ℤ c)
+ℤ_assoc a b c = omega int_laws

+ℤ_comm : (a b : ℤ) → a +ℤ b ≡ b +ℤ a
+ℤ_comm a b = omega int_laws

+ℤ_zero : (a : ℤ) → a +ℤ pos 0 ≡ a
+ℤ_zero a = omega int_laws

minus_is_plus : (a b : ℤ) → a -ℤ b ≡ a +ℤ (pos 0 -ℤ b)
minus_is_plus a b = omega int_laws

-- What a movement adds to the ledger of a product.
abbrev share : ℕ → StockMovement → ℤ
share id m = if m.product == id then m.quantity else pos 0

ledger-append :
    (id : ℕ) (ms : List StockMovement) (m : StockMovement)
    → ledger id (ms ++ m ∷ []) ≡ ledger id ms +ℤ share id m
ledger-append id [] m = +ℤ_comm (share id m) (pos 0)
ledger-append id (x ∷ ms) m =
    ap (λ z. share id x +ℤ z) (ledger-append id ms m)
    ∙ sym (+ℤ_assoc (share id x) (ledger id ms) (share id m))

share_own : (id : ℕ) (m : StockMovement) → m.product ≡ id → share id m ≡ m.quantity
share_own id m h = ground arith

share_other : (id : ℕ) (m : StockMovement) → (m.product == id) ≡ false → share id m ≡ pos 0
share_other id m h = rw h refl

-- A product's stock and its movements grow by the same quantity.
pub moved-HasLedger :
    (opening : ℕ → ℤ) (id : ℕ) (p q : Product) (m : StockMovement) (s s' : State)
    → HasLedger opening s
    → get id s.products ≡ some p
    → m.product ≡ id
    → q.stock_quantity ≡ p.stock_quantity +ℤ m.quantity
    → s'.products ≡ put id q s.products
    → s'.movements ≡ s.movements ++ m ∷ []
    → HasLedger opening s'
moved-HasLedger opening id p q m s s' h here of_it sum products movements = record {
  at = λ k r g.
      let g' : get k (put id q s.products) ≡ some r = sym (ap (get k) products) ∙ g in
      let grown : ledger k s'.movements ≡ ledger k s.movements +ℤ share k m =
        ap (ledger k) movements ∙ ledger-append k s.movements m in
      elim (Bool-cases (id == k)) [
        | inl same_key ↦
            let e : id ≡ k = eq_of_== id k same_key in
            let r_is_q : q ≡ r = ground (arith, get-put k id q s.products) in
            let here' : get k s.products ≡ some p = ground arith in
            let own : share k m ≡ m.quantity = share_own k m (of_it ∙ e) in
            sym (ap (λ (z : Product). z.stock_quantity) r_is_q)
            ∙ sum
            ∙ ap (λ z. z +ℤ m.quantity) (h.at k p here')
            ∙ +ℤ_assoc (opening k) (ledger k s.movements) m.quantity
            ∙ ap (λ z. opening k +ℤ (ledger k s.movements +ℤ z)) (sym own)
            ∙ ap (λ z. opening k +ℤ z) (sym grown)
        | inr other_key ↦
            let there : get k s.products ≡ some r = ground (arith, get-put k id q s.products) in
            let none_of_it : share k m ≡ pos 0 = share_other k m (ground arith) in
            h.at k r there
            ∙ ap (λ z. opening k +ℤ z) (sym (+ℤ_zero (ledger k s.movements)))
            ∙ ap (λ z. opening k +ℤ (ledger k s.movements +ℤ z)) (sym none_of_it)
            ∙ ap (λ z. opening k +ℤ z) (sym grown)
      ];
}

find_stock_product-get :
    (tenant id : ℕ) (s : State) (p : Product)
    → find_stock_product tenant id s ≡ some p
    → get id s.products ≡ some p
unfolding find_stock_product find_product
find_stock_product-get tenant id s p h = ground arith

-- An adjustment keeps the ledger.
pub adjust_stock-HasLedger :
    (opening : ℕ → ℤ) (req : Request) (id : ℕ) (body : AdjustStockDto) (s s' : State) (v : Response)
    → adjust_stock req id body s ≡ (ok v, s')
    → HasLedger opening s
    → HasLedger opening s'
unfolding adjust_stock write_stock insert_movement adjustment_movement adjusted ◌>>=◌
adjust_stock-HasLedger opening req id body s s' v e h =
    elim (Option-cases (find_stock_product req.tenant id s)) [
      | inl n ↦ absurd (ground arith)
      | inr (p, found) ↦
          let here = find_stock_product-get req.tenant id s p found in
          moved-HasLedger opening id p (adjusted body p) (adjustment_movement req id body) s s' h
            here refl refl (ground arith) (ground arith)
    ]

-- One round of a sale that records its movement keeps the ledger.
sell_found-HasLedger :
    (opening : ℕ → ℤ) (tenant order : ℕ) (user : Option ℕ) (id : ℕ) (x : Sale)
    (row : Option Product) (s s' : State)
    → ((p : Product) → row ≡ some p → get id s.products ≡ some p)
    → sell_found tenant order user id x row s ≡ (ok tt, s')
    → HasLedger opening s
    → HasLedger opening s'
unfolding sell_found record_sale
sell_found-HasLedger opening tenant order user id x none s s' real e h =
    subst (HasLedger opening) (ground arith) h
sell_found-HasLedger opening tenant order user id x (some p) s s' real e h =
    elim (Bool-cases p.stock_controlled) [
      | inr free ↦ subst (HasLedger opening) (ground arith) h
      | inl counted ↦
          elim (Bool-cases (has_sale (movement_of tenant order id x user) s.movements)) [
            | inl twice ↦ absurd (ground arith)
            | inr new ↦
                moved-HasLedger opening id p
                  (record p { stock_quantity = p.stock_quantity -ℤ milli x.quantity })
                  (movement_of tenant order id x user) s s' h (real p refl) refl
                  (minus_is_plus p.stock_quantity (milli x.quantity)) (ground arith) (ground arith)
          ]
    ]

-- The products that the loop looks up are those of the table.
abbrev pub IsLookup : (ℕ → State → Option Product) → Type 0
IsLookup find = (id : ℕ) (s : State) (p : Product) → find id s ≡ some p → get id s.products ≡ some p

-- Selling an order, by its settlement or by a Pix payment, keeps the ledger where it succeeds.
pub sell_all-HasLedger :
    (opening : ℕ → ℤ) (find : ℕ → State → Option Product) (tenant order : ℕ) (user : Option ℕ)
    (m : Dict Sale) (s s' : State)
    → IsLookup find
    → sell_all find tenant order user m s ≡ (ok tt, s')
    → HasLedger opening s
    → HasLedger opening s'
unfolding sell_all
sell_all-HasLedger opening find tenant order user [] s s' real e h =
    subst (HasLedger opening) (ground arith) h
sell_all-HasLedger opening find tenant order user ((id, x) ∷ m) s s' real e h =
    let t : State = (sell_found tenant order user id x (find id s) s).1 in
    elim (Result-cases (sell_found tenant order user id x (find id s) s).0) [
      | inr (why, fault) ↦ absurd (ground arith)
      | inl (u, done) ↦
          sell_all-HasLedger opening find tenant order user m t s' real (ground arith) (
            sell_found-HasLedger opening tenant order user id x (find id s) s t (λ p. real id s p)
              (λ j. (done j, t)) h)
    ]
