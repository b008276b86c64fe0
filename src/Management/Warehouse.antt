-- ===== src/Management/Warehouse.antt =====
-- The stock behind the endpoints: `InventoryController.adjust` and `PurchasesController.create` of
-- backend/src/management.controller.ts.
use comandas_multitenant_off.Prelude.{ℕ, ◌≡◌, inl, inr, arith, subst, Bool-cases, ◌==◌}
use comandas_multitenant_off.Prelude.Int.{ℤ}
use comandas_multitenant_off.Http.{Result-cases, ◌>>=◌}
use comandas_multitenant_off.Store.{State}
use comandas_multitenant_off.Dto.{post_adjust, adjustment, post_purchases, purchase}
use comandas_multitenant_off.Dto.Management.{AdjustStockDto, CreatePurchaseDto}
use comandas_multitenant_off.Orders.{Request}
use comandas_multitenant_off.Management.{Env}
use comandas_multitenant_off.Management.Keeps.{once-keeps}
use comandas_multitenant_off.Management.Inventory.{abs, adjust, adjust_stock}
use comandas_multitenant_off.Management.Inventory.Ledger.{
  HasLedger, HasLedger-IgnoresKeys, adjust_stock-HasLedger,
}
use comandas_multitenant_off.Management.Purchases.{
  check_purchase, receive_purchase, create_purchase,
}
use comandas_multitenant_off.Management.Purchases.Pricing.{receive_purchase-HasLedger}

-- A request that changes the stock.
pub data StockCall : Type 0 where
  adjusting : ℕ → AdjustStockDto → StockCall
  purchasing : CreatePurchaseDto → StockCall

unfoldable pub serve_stock : StockCall → Env → Request → State → State
serve_stock (adjusting id body) env req s = (adjust env req id body s).1
serve_stock (purchasing body) env req s = (create_purchase env req body s).1

check_purchase-reads :
    (env : Env) (req : Request) (body : CreatePurchaseDto) (s : State)
    → (check_purchase env req body s).1 ≡ s
unfolding check_purchase ◌>>=◌
check_purchase-reads env req body s = ground arith

-- No request that adjusts the stock or books a purchase, retried or not, and whatever other requests
-- that keep the ledger commit in between, leaves a product with another stock than its opening
-- balance and its movements.
pub serve_stock-HasLedger :
    (opening : ℕ → ℤ) (call : StockCall) (env : Env) (req : Request) (s : State)
    → ((t : State) → HasLedger opening t → HasLedger opening (env.between t))
    → HasLedger opening s
    → HasLedger opening (serve_stock call env req s)
unfolding serve_stock adjust create_purchase ◌>>=◌
serve_stock-HasLedger opening (adjusting id body) env req s others h =
    elim (Bool-cases (abs body.quantity == 0)) [
      | inl zero_change ↦ subst (HasLedger opening) (ground arith) h
      | inr change ↦ subst (HasLedger opening) (ground arith) (
          once-keeps (HasLedger opening) (HasLedger-IgnoresKeys opening) env req others
            (post_adjust id) (adjustment body) (adjust_stock req id body)
            (adjust_stock-HasLedger opening req id body) s h)
    ]
serve_stock-HasLedger opening (purchasing body) env req s others h =
    let reads = check_purchase-reads env req body s in
    elim (Result-cases (check_purchase env req body s).0) [
      | inr (e, fault) ↦ subst (HasLedger opening) (ground arith) h
      | inl (products, passed) ↦ subst (HasLedger opening) (ground arith) (
          once-keeps (HasLedger opening) (HasLedger-IgnoresKeys opening) env req others
            post_purchases (purchase body) (receive_purchase env req body products)
            (receive_purchase-HasLedger opening env req body products) s h)
    ]
