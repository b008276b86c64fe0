-- ===== src/Dto/Catalog.antt =====
-- The request bodies of the catalog endpoints: backend/src/dto/orders.dto.ts.
use comandas_multitenant_off.Prelude.{ℕ, String, Bool, Option, none, some, ◌&&◌, leb, true}
use comandas_multitenant_off.Prelude.Int.{ℤ}
use comandas_multitenant_off.Store.{Shape}
use comandas_multitenant_off.Store.Books.{ProductionArea}

pub record CreateCategoryDto : Type 0 where
  pub name : String
  pub sort_order : Option ℤ
  pub active : Option Bool
  pub production_area : Option ProductionArea

pub record UpdateCategoryDto : Type 0 where
  pub name : Option String
  pub sort_order : Option ℤ
  pub active : Option Bool
  pub production_area : Option ProductionArea

-- `minimum_stock` is in thousandths, and a category that is missing or empty is `none`.
pub record CreateProductDto : Type 0 where
  pub name : String
  pub price_cents : ℕ
  pub cost_cents : Option ℕ
  pub sku : Option String
  pub unit : Option String
  pub stock_controlled : Option Bool
  pub minimum_stock : Option ℤ
  pub category_id : Option ℕ
  pub active : Option Bool
  pub available : Option Bool
  pub sort_order : Option ℤ

-- `null` passes `@IsOptional` too: it takes the category away.
pub data CategoryChange : Type 0 where
  keep_category no_category : CategoryChange
  to_category : ℕ → CategoryChange

pub record UpdateProductDto : Type 0 where
  pub name : Option String
  pub price_cents : Option ℕ
  pub cost_cents : Option ℕ
  pub sku : Option String
  pub unit : Option String
  pub stock_controlled : Option Bool
  pub minimum_stock : Option ℤ
  pub category_id : CategoryChange
  pub active : Option Bool
  pub available : Option Bool
  pub sort_order : Option ℤ

pub record CreateTableDto : Type 0 where
  pub label : String
  pub capacity : Option ℕ
  pub pos_x : Option ℕ
  pub pos_y : Option ℕ
  pub width : Option ℕ
  pub height : Option ℕ
  pub shape : Option Shape

pub record UpdateTableDto : Type 0 where
  pub label : Option String
  pub capacity : Option ℕ
  pub pos_x : Option ℕ
  pub pos_y : Option ℕ
  pub width : Option ℕ
  pub height : Option ℕ
  pub shape : Option Shape
  pub active : Option Bool

pub record UpdateTableLayoutDto : Type 0 where
  pub pos_x : ℕ
  pub pos_y : ℕ
  pub width : Option ℕ
  pub height : Option ℕ
  pub shape : Option Shape

-- `@IsOptional() @IsInt() @Min(lo) @Max(hi)`
is_between : ℕ → ℕ → Option ℕ → Bool
is_between lo hi none = true
is_between lo hi (some n) = leb lo n && leb n hi

unfoldable pub is_valid_table : CreateTableDto → Bool
unfolding is_between
is_valid_table b =
    is_between 1 100 b.capacity
    && is_between 0 5000 b.pos_x
    && is_between 0 5000 b.pos_y
    && is_between 40 800 b.width
    && is_between 40 800 b.height

unfoldable pub is_valid_table_update : UpdateTableDto → Bool
unfolding is_between
is_valid_table_update b =
    is_between 1 100 b.capacity
    && is_between 0 5000 b.pos_x
    && is_between 0 5000 b.pos_y
    && is_between 40 800 b.width
    && is_between 40 800 b.height

unfoldable pub is_valid_layout : UpdateTableLayoutDto → Bool
unfolding is_between
is_valid_layout b =
    leb b.pos_x 5000 && leb b.pos_y 5000 && is_between 40 800 b.width && is_between 40 800 b.height
