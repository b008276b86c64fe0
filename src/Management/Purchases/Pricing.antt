-- ===== src/Management/Purchases/Pricing.antt =====
-- The stock that a purchase brings: backend/src/management.controller.ts,
-- `PurchasesController.create`.
use comandas_multitenant_off.Prelude.{
  subst, ℕ, ◌≡◌, inl, inr, refl, sym, ap, ◌∙◌, Bool, true, false, Option, none, some, List, [], ◌∷◌,
  map, arith, ◌==◌, Bool-cases, Option-cases, eq_of_==,
}
use comandas_multitenant_off.Prelude.Dict.{Dict, get, put, get-put}
use comandas_multitenant_off.Prelude.Int.{ℤ, ◌+ℤ◌}
use comandas_multitenant_off.Calendar.{parse_date}
use comandas_multitenant_off.Http.{ok, Result-cases, ◌>>=◌}
use comandas_multitenant_off.Store.{State, Product, Response}
use comandas_multitenant_off.Store.Books.{PurchaseItem}
use comandas_multitenant_off.Dto.Management.{CreatePurchaseDto}
use comandas_multitenant_off.Orders.{Request}
use comandas_multitenant_off.Management.{Env}
use comandas_multitenant_off.Management.Expenses.{insert_expense}
use comandas_multitenant_off.Management.Inventory.{write_stock, insert_movement}
use comandas_multitenant_off.Management.Inventory.Ledger.{HasLedger, moved-HasLedger, ledger}
use comandas_multitenant_off.Management.Purchases.{
  purchase_line, new_purchase, received, purchase_movement, receive_line, receive_lines,
  receive_purchase, is_counted, insert_purchase, book_payable, wants_payable,
}

SameStock : State → State → Type 0
SameStock s s' = (s'.products ≡ s.products) × (s'.movements ≡ s.movements)

same-HasLedger :
    (opening : ℕ → ℤ) (s s' : State) → SameStock s s' → HasLedger opening s → HasLedger opening s'
unfolding SameStock
same-HasLedger opening s s' (products, movements) h = record {
  at = λ id p g.
      h.at id p (ap (get id) (sym products) ∙ g)
      ∙ ap (λ ms. opening id +ℤ ledger id ms) (sym movements);
}

-- The write of a product that keeps its stock.
rewritten-HasLedger :
    (opening : ℕ → ℤ) (id : ℕ) (p q : Product) (s s' : State)
    → HasLedger opening s
    → get id s.products ≡ some p
    → q.stock_quantity ≡ p.stock_quantity
    → s'.products ≡ put id q s.products
    → s'.movements ≡ s.movements
    → HasLedger opening s'
rewritten-HasLedger opening id p q s s' h here kept products movements = record {
  at = λ k r g.
      let g' : get k (put id q s.products) ≡ some r = ap (get k) (sym products) ∙ g in
      let same : ledger k s.movements ≡ ledger k s'.movements = ap (ledger k) (sym movements) in
      elim (Bool-cases (id == k)) [
        | inl same_key ↦
            let q_is_r : q ≡ r = ground (arith, get-put k id q s.products) in
            let here' : get k s.products ≡ some p = ground (arith, eq_of_== id k same_key) in
            sym (ap (λ (z : Product). z.stock_quantity) q_is_r)
            ∙ kept
            ∙ h.at k p here'
            ∙ ap (λ z. opening k +ℤ z) same
        | inr other_key ↦
            h.at k r (ground (arith, get-put k id q s.products)) ∙ ap (λ z. opening k +ℤ z) same
      ];
}

receive_line-HasLedger :
    (opening : ℕ → ℤ) (req : Request) (id : ℕ) (counted : Bool) (line : PurchaseItem) (s s' : State)
    → receive_line req id counted line s ≡ (ok tt, s')
    → HasLedger opening s
    → HasLedger opening s'
unfolding receive_line write_stock insert_movement received ◌>>=◌
receive_line-HasLedger opening req id false line s s' e h =
    elim (Option-cases (get line.product s.products)) [
      | inl lost ↦ absurd (ground arith)
      | inr (p, here) ↦
          rewritten-HasLedger opening line.product p (received false line p) s s' h here refl
            (ground arith) (ground arith)
    ]
receive_line-HasLedger opening req id true line s s' e h =
    elim (Option-cases (get line.product s.products)) [
      | inl lost ↦ absurd (ground arith)
      | inr (p, here) ↦
          moved-HasLedger opening line.product p (received true line p)
            (purchase_movement req id line) s s' h here refl refl (ground arith) (ground arith)
    ]

receive_lines-HasLedger :
    (opening : ℕ → ℤ) (req : Request) (id : ℕ) (products : Dict Product) (lines : List PurchaseItem)
    (s s' : State)
    → receive_lines req id products lines s ≡ (ok tt, s')
    → HasLedger opening s
    → HasLedger opening s'
unfolding receive_lines ◌>>=◌
receive_lines-HasLedger opening req id products [] s s' e h =
    subst (HasLedger opening) (ground arith) h
receive_lines-HasLedger opening req id products (line ∷ lines) s s' e h =
    let counted : Bool = is_counted line.product products in
    let t : State = (receive_line req id counted line s).1 in
    elim (Result-cases (receive_line req id counted line s).0) [
      | inr (x, fault) ↦ absurd (ground arith)
      | inl (u, done) ↦
          receive_lines-HasLedger opening req id products lines t s' (ground arith)
            (receive_line-HasLedger opening req id counted line s t (λ j. (done j, t)) h)
    ]

book_payable-SameStock :
    (wants : Bool) (category : Option ℕ) (env : Env) (req : Request) (id : ℕ)
    (body : CreatePurchaseDto) (s : State)
    → SameStock s (book_payable wants category env req id body s).1
unfolding SameStock book_payable insert_expense ◌>>=◌
book_payable-SameStock true (some category) env req id body s = ground arith
book_payable-SameStock true none env req id body s = (refl, refl)
book_payable-SameStock false category env req id body s = (refl, refl)

-- A purchase keeps the ledger: what a product's stock gains, its movement has, for the products
-- whose stock was controlled when they were read, and the others gain nothing.
pub receive_purchase-HasLedger :
    (opening : ℕ → ℤ) (env : Env) (req : Request) (body : CreatePurchaseDto)
    (products : Dict Product) (s s' : State) (v : Response)
    → receive_purchase env req body products s ≡ (ok v, s')
    → HasLedger opening s
    → HasLedger opening s'
unfolding receive_purchase parse_date SameStock ◌>>=◌
receive_purchase-HasLedger opening env req body products s s' v e h =
    elim (Option-cases body.purchased_at) [
      | inl n ↦ absurd (ground arith)
      | inr (d, p) ↦
          let lines : List PurchaseItem = map purchase_line body.items in
          let id : ℕ = s.next_id in
          let one : State = (insert_purchase (new_purchase env req body d) s).1 in
          let two : State = (receive_lines req id products lines one).1 in
          let three : State =
            (book_payable (wants_payable body) body.expense_category_id env req id body two).1 in
          elim (Result-cases (receive_lines req id products lines one).0) [
            | inr (x, fault) ↦ absurd (ground arith)
            | inl (u, done) ↦
                same-HasLedger opening three s' (ground arith, ground arith)
                  (same-HasLedger opening two three
                    (book_payable-SameStock (wants_payable body) body.expense_category_id env req id
                      body two)
                    (receive_lines-HasLedger opening req id products lines one two
                      (λ j. (done j, two)) (same-HasLedger opening s one (refl, refl) h)))
          ]
    ]
