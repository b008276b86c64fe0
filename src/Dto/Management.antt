-- ===== src/Dto/Management.antt =====
-- The request bodies of the management endpoints: backend/src/dto/management.dto.ts. A date is
-- what `new Date` reads in the text, `none` where it reads none; quantities are in thousandths.
use comandas_multitenant_off.Prelude.{ℕ, String, Bool, Option, List, [], ◌∷◌, ◌&&◌, leb, true}
use comandas_multitenant_off.Prelude.Int.{ℤ}
use comandas_multitenant_off.Calendar.{Date}

pub record CreateSupplierDto : Type 0 where
  pub name : String
  pub trade_name : Option String
  pub document : Option String
  pub phone : Option String
  pub email : Option String
  pub notes : Option String

pub record UpdateSupplierDto : Type 0 where
  pub name : Option String
  pub trade_name : Option String
  pub document : Option String
  pub phone : Option String
  pub email : Option String
  pub notes : Option String
  pub active : Option Bool

pub record CreateExpenseCategoryDto : Type 0 where
  pub name : String

pub record UpdateExpenseCategoryDto : Type 0 where
  pub name : Option String
  pub active : Option Bool

pub record CreateExpenseDto : Type 0 where
  pub supplier_id : Option ℕ
  pub category_id : ℕ
  pub description : String
  pub amount_cents : ℕ
  pub due_date : Option Date
  pub competence_date : Option Date
  pub notes : Option String

pub record UpdateExpenseDto : Type 0 where
  pub supplier_id : Option ℕ
  pub category_id : Option ℕ
  pub description : Option String
  pub amount_cents : Option ℕ
  pub due_date : Option (Option Date)
  pub competence_date : Option (Option Date)
  pub notes : Option String

pub record CreateExpensePaymentDto : Type 0 where
  pub amount_cents : ℕ
  pub paid_at : Option Date
  pub payment_method : Option String
  pub notes : Option String

pub record CreateRecurringExpenseDto : Type 0 where
  pub supplier_id : Option ℕ
  pub category_id : ℕ
  pub description : String
  pub amount_cents : ℕ
  pub due_day : ℕ
  pub start_date : Option Date
  pub end_date : Option (Option Date)

pub record GenerateRecurringExpensesDto : Type 0 where
  pub competence : Option Date

pub record PurchaseItemDto : Type 0 where
  pub product_id : ℕ
  pub quantity : ℕ
  pub unit_cost_cents : ℕ

pub record CreatePurchaseDto : Type 0 where
  pub supplier_id : Option ℕ
  pub document_no : Option String
  pub purchased_at : Option Date
  pub notes : Option String
  pub items : List PurchaseItemDto
  pub create_payable : Option Bool
  pub expense_category_id : Option ℕ
  pub due_date : Option (Option Date)

pub data AdjustmentType : Type 0 where
  adjustment_in adjustment_out return : AdjustmentType

pub record AdjustStockDto : Type 0 where
  pub quantity : ℤ
  pub type : AdjustmentType
  pub unit_cost_cents : Option ℕ
  pub notes : Option String

-- `@IsInt() @Min(1) amount_cents` and `@IsInt() @Min(1) @Max(31) due_day`
unfoldable pub is_valid_recurring : CreateRecurringExpenseDto → Bool
is_valid_recurring b = leb 1 b.amount_cents && leb 1 b.due_day && leb b.due_day 31

are_positive : List PurchaseItemDto → Bool
are_positive [] = true
are_positive (i ∷ is) = leb 1 i.quantity && are_positive is

-- `@Min(0.001) quantity` of each item
unfoldable pub is_valid_purchase : CreatePurchaseDto → Bool
unfolding are_positive
is_valid_purchase b = are_positive b.items
