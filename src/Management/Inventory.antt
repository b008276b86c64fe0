-- ===== src/Management/Inventory.antt =====
-- backend/src/management.controller.ts, `InventoryController`. Quantities are in thousandths, which
-- the DTO's three decimals allow; `Prisma.Decimal` adds them exactly.
pub mod Ledger
use comandas_multitenant_off.Prelude.{
  ℕ, zero, suc, ◌+◌, ◌-◌, ◌*◌, ◌/◌, ◌≤◌, ◌≡◌, ◌⊎◌, inl, inr, refl, sym, ap, ◌∙◌, String, Bool, true,
  false, Option, none, some, List, [], ◌∷◌, ◌++◌, map, arith, ◌==◌, ◌&&◌, ◌||◌, not, ltb, leb,
  is_some, or_else, if◌then◌else◌, Bool-cases, Option-cases, ==_refl, eq_of_==,
}
use comandas_multitenant_off.Prelude.Dict.{
  Dict, get, put, find_row, map_rows, get-put, put-put, get-put_self, get-map_rows,
  find_row-map_rows, find_row-none, find_row-some, dict_laws,
}
use comandas_multitenant_off.Prelude.Lists.{length, sum_by}
use comandas_multitenant_off.Prelude.Int.{ℤ, pos, negsuc, ◌+ℤ◌}
use comandas_multitenant_off.Prelude.Lists.{keep}
use comandas_multitenant_off.Http.{
  Result, ok, err, not_found, bad_request, record_missing, stock_product_not_found, zero_adjustment,
  Exec, pure, raise_if, gets, or_raise, modify, ◌>>=◌, ◌>>◌,
}
use comandas_multitenant_off.Store.{
  State, Product, StockMovement, MovementType, Response, stock_response,
}
use comandas_multitenant_off.Store.Queries.{find_product}
use comandas_multitenant_off.Dto.{post_adjust, adjustment}
use comandas_multitenant_off.Dto.Management.{
  AdjustStockDto, AdjustmentType, adjustment_in, adjustment_out, return,
}
use comandas_multitenant_off.Pagination.{Limit, Page, list_page}
use comandas_multitenant_off.Orders.{Request}
use comandas_multitenant_off.Catalog.{or_same}
use comandas_multitenant_off.Management.{Env, once}

-- `Math.abs`
abbrev pub abs : ℤ → ℕ
abs (pos n) = n
abs (negsuc n) = suc n

negated : ℕ → ℤ
negated zero = pos 0
negated (suc n) = negsuc n

-- `body.type === 'adjustment_out' ? absolute.negated() : absolute`
unfoldable pub signed_quantity : AdjustmentType → ℤ → ℤ
unfolding negated
signed_quantity adjustment_out q = negated (abs q)
signed_quantity type q = pos (abs q)

abbrev pub movement_type : AdjustmentType → MovementType
movement_type adjustment_in = MovementType.adjustment_in
movement_type adjustment_out = MovementType.adjustment_out
movement_type return = MovementType.return

-- `product.findFirst({ where: { id, tenantId, stock_controlled: true } })`
unfoldable pub find_stock_product : ℕ → ℕ → State → Option Product
find_stock_product tenant id s = elim (find_product tenant id s) [
  | none ↦ none
  | some p ↦ if p.stock_controlled then some p else none
]

-- `product.update({ where: { id } })` of columns that no unique index has
unfoldable pub write_stock : ℕ → (Product → Product) → Exec State Product
write_stock id f s = elim (get id s.products) [
  | none ↦ (err record_missing, s)
  | some p ↦ (ok (f p), record s { products = put id (f p) s.products })
]

-- `stockMovement.create`; with no reference no unique index refuses it
unfoldable pub insert_movement : StockMovement → Exec State StockMovement
insert_movement m s = (ok m, record s { movements = s.movements ++ m ∷ [] })

unfoldable pub adjusted : AdjustStockDto → Product → Product
adjusted body p = record p {
  stock_quantity = p.stock_quantity +ℤ signed_quantity body.type body.quantity;
  cost_cents = or_same body.unit_cost_cents p.cost_cents;
}

unfoldable pub adjustment_movement : Request → ℕ → AdjustStockDto → StockMovement
adjustment_movement req id body = record {
  tenant = req.tenant;
  product = id;
  type = movement_type body.type;
  quantity = signed_quantity body.type body.quantity;
  unit_cost_cents = body.unit_cost_cents;
  reference = none;
  created_by = req.user;
}

-- The mutation of `adjust`.
unfoldable pub adjust_stock : Request → ℕ → AdjustStockDto → Exec State Response
adjust_stock req id body = do
  found ← gets (find_stock_product req.tenant id)
  or_raise found (not_found stock_product_not_found)
  updated ← write_stock id (adjusted body)
  movement ← insert_movement (adjustment_movement req id body)
  pure (stock_response updated movement)

unfoldable pub adjust : Env → Request → ℕ → AdjustStockDto → Exec State Response
adjust env req id body = do
  raise_if (abs body.quantity == 0) (bad_request zero_adjustment)
  once env req (post_adjust id) (adjustment body) (adjust_stock req id body)

-- `stock`
unfoldable pub list_stock :
    (Dict Product → Dict Product) → Limit → Option ℕ → ℕ → State → Result (Page Product)
list_stock sort limit cursor tenant s =
    list_page (sort (keep (λ r. r.1.tenant == tenant && r.1.stock_controlled) s.products)) limit
      cursor
