-- ===== src/Catalog.antt =====
-- backend/src/catalog.controller.ts: categories, products and tables. The endpoints are not
-- transactions: `between` is what other requests commit between a handler's reads and its write.
-- The answers are the rows written; the listings are in Catalog/Listings.antt.
pub mod Tables
pub mod Labels
pub mod Floor
pub mod Races
pub mod Occupancy
pub mod Listings
mod Tests
use text.Mathlib.Text.{◌==◌ as str_eq}
use comandas_multitenant_off.Prelude.{
  ℕ, zero, suc, ◌+◌, ◌-◌, ◌*◌, ◌/◌, ◌≤◌, ◌≡◌, ◌⊎◌, inl, inr, refl, sym, ap, ◌∙◌, String, Bool, true,
  false, Option, none, some, List, [], ◌∷◌, ◌++◌, map, arith, ◌==◌, ◌&&◌, ◌||◌, not, ltb, leb,
  is_some, or_else, if◌then◌else◌, Bool-cases, Option-cases, ==_refl, eq_of_==,
}
use comandas_multitenant_off.Prelude.Dict.{
  Dict, get, put, find_row, map_rows, get-put, put-put, get-put_self, get-map_rows,
  find_row-map_rows, find_row-none, find_row-some, dict_laws,
}
use comandas_multitenant_off.Prelude.Lists.{length, sum_by}
use comandas_multitenant_off.Prelude.Int.{ℤ, pos}
use comandas_multitenant_off.Prelude.Trim.{trim, is_blank}
use comandas_multitenant_off.Http.{
  Result, ok, err, not_found, unique_violation, record_missing, category_not_found,
  product_not_found, Exec, pure, raise, gets, or_raise, modify, ◌>>=◌, ◌>>◌,
}
use comandas_multitenant_off.Store.{State, Product}
use comandas_multitenant_off.Store.Books.{Category, ProductionArea}
use comandas_multitenant_off.Store.Queries.{find_product}
use comandas_multitenant_off.Dto.Catalog.{
  CreateCategoryDto, UpdateCategoryDto, CreateProductDto, UpdateProductDto, CategoryChange,
  keep_category, no_category, to_category,
}

-- `...(a !== undefined ? { field: a } : {})`
abbrev pub or_same {ℓ} : {A : Type ℓ} → Option A → A → A
or_same none old = old
or_same (some a) old = a

-- `category.findFirst({ where: { id, tenantId } })`
unfoldable pub find_category : ℕ → ℕ → State → Option Category
find_category tenant id s = elim (get id s.categories) [
  | none ↦ none
  | some c ↦ if c.tenant == tenant then some c else none
]

-- `category.create`
unfoldable pub insert_category : Category → Exec State (ℕ × Category)
insert_category c s = (
  ok (s.next_id, c),
  record s { next_id = suc s.next_id; categories = put s.next_id c s.categories },
)

-- `category.update({ where: { id } })`
unfoldable pub write_category : ℕ → (Category → Category) → Exec State Category
write_category id f s = elim (get id s.categories) [
  | none ↦ (err record_missing, s)
  | some c ↦ (ok (f c), record s { categories = put id (f c) s.categories })
]

unfoldable pub create_category : ℕ → CreateCategoryDto → Exec State (ℕ × Category)
create_category tenant body = insert_category (record {
  tenant = tenant;
  name = trim body.name;
  sort_order = or_else body.sort_order (pos 0);
  active = or_else body.active true;
  production_area = or_else body.production_area ProductionArea.kitchen;
})

change_category : UpdateCategoryDto → Category → Category
change_category body c = record c {
  name = elim body.name [ none ↦ c.name | some n ↦ trim n ];
  sort_order = or_same body.sort_order c.sort_order;
  active = or_same body.active c.active;
  production_area = or_same body.production_area c.production_area;
}

unfoldable pub update_category : (State → State) → ℕ → ℕ → UpdateCategoryDto → Exec State Category
unfolding change_category
update_category between tenant id body = do
  found ← gets (find_category tenant id)
  or_raise found (not_found category_not_found)
  modify between
  write_category id (change_category body)

unfoldable pub delete_category : (State → State) → ℕ → ℕ → Exec State Category
delete_category between tenant id = do
  found ← gets (find_category tenant id)
  or_raise found (not_found category_not_found)
  modify between
  write_category id (λ c. record c { active = false })

same_sku : Option String → Option String → Bool
same_sku (some a) (some b) = str_eq a b
same_sku a b = false

-- The unique index on (tenant, sku), where another product than `id` has the sku.
unfoldable pub has_sku : ℕ → Product → State → Bool
unfolding same_sku
has_sku id p s =
    is_some
      (find_row (λ k q. q.tenant == p.tenant && same_sku q.sku p.sku && not (k == id)) s.products)

-- `product.create`
unfoldable pub insert_product : Product → Exec State (ℕ × Product)
insert_product p s = if has_sku s.next_id p s then (err unique_violation, s) else (
  ok (s.next_id, p),
  record s { next_id = suc s.next_id; products = put s.next_id p s.products },
)

-- `product.update({ where: { id } })`
unfoldable pub write_product : ℕ → (Product → Product) → Exec State Product
write_product id f s = elim (get id s.products) [
  | none ↦ (err record_missing, s)
  | some p ↦
      if has_sku id (f p) s
      then (err unique_violation, s)
      else (ok (f p), record s { products = put id (f p) s.products })
]

-- `sku?.trim() || null`
unfoldable pub clean_sku : Option String → Option String
clean_sku none = none
clean_sku (some t) = if is_blank (trim t) then none else some (trim t)

new_product : ℕ → CreateProductDto → Product
new_product tenant body = record {
  tenant = tenant;
  category = body.category_id;
  name = trim body.name;
  sku = clean_sku body.sku;
  unit = or_else body.unit "unit";
  minimum_stock = or_else body.minimum_stock (pos 0);
  sort_order = or_else body.sort_order (pos 0);
  price_cents = body.price_cents;
  cost_cents = or_else body.cost_cents 0;
  stock_controlled = or_else body.stock_controlled false;
  stock_quantity = pos 0;
  active = or_else body.active true;
  available = or_else body.available true;
}

-- `if (body.category_id)` the tenant has that category
check_category : ℕ → Option ℕ → Exec State (Unit {0})
check_category tenant none = pure tt
check_category tenant (some id) = do
  found ← gets (find_category tenant id)
  or_raise found (not_found category_not_found)
  pure tt

unfoldable pub create_product : (State → State) → ℕ → CreateProductDto → Exec State (ℕ × Product)
unfolding new_product check_category
create_product between tenant body = do
  check_category tenant body.category_id
  modify between
  insert_product (new_product tenant body)

changed_category : CategoryChange → Option ℕ
changed_category (to_category id) = some id
changed_category c = none

new_category : CategoryChange → Option ℕ → Option ℕ
new_category keep_category old = old
new_category no_category old = none
new_category (to_category id) old = some id

change_product : UpdateProductDto → Product → Product
unfolding new_category
change_product body p = record p {
  name = elim body.name [ none ↦ p.name | some n ↦ trim n ];
  price_cents = or_same body.price_cents p.price_cents;
  cost_cents = or_same body.cost_cents p.cost_cents;
  sku = elim body.sku [ none ↦ p.sku | some t ↦ clean_sku (some t) ];
  unit = or_same body.unit p.unit;
  stock_controlled = or_same body.stock_controlled p.stock_controlled;
  minimum_stock = or_same body.minimum_stock p.minimum_stock;
  category = new_category body.category_id p.category;
  active = or_same body.active p.active;
  available = or_same body.available p.available;
  sort_order = or_same body.sort_order p.sort_order;
}

unfoldable pub update_product : (State → State) → ℕ → ℕ → UpdateProductDto → Exec State Product
unfolding check_category changed_category change_product
update_product between tenant id body = do
  found ← gets (find_product tenant id)
  or_raise found (not_found product_not_found)
  check_category tenant (changed_category body.category_id)
  modify between
  write_product id (change_product body)

unfoldable pub delete_product : (State → State) → ℕ → ℕ → Exec State Product
delete_product between tenant id = do
  found ← gets (find_product tenant id)
  or_raise found (not_found product_not_found)
  modify between
  write_product id (λ p. record p { active = false })
