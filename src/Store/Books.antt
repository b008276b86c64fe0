-- ===== src/Store/Books.antt =====
-- The rows of backend/prisma/schema.prisma behind the catalog and the management endpoints:
-- categories, suppliers, purchases and accounts payable.
use comandas_multitenant_off.Prelude.Int.{ℤ}
use comandas_multitenant_off.Prelude.{ℕ, String, Bool, Option, List}
use comandas_multitenant_off.Calendar.{Date}

pub data ProductionArea : Type 0 where
  kitchen bar dessert none : ProductionArea

pub record Category : Type 0 where
  pub tenant : ℕ
  pub name : String
  pub sort_order : ℤ
  pub active : Bool
  pub production_area : ProductionArea

pub record Supplier : Type 0 where
  pub tenant : ℕ
  pub name : String
  pub trade_name : Option String
  pub document : Option String
  pub phone : Option String
  pub email : Option String
  pub notes : Option String
  pub active : Bool

pub record ExpenseCategory : Type 0 where
  pub tenant : ℕ
  pub name : String
  pub active : Bool

pub record ExpensePayment : Type 0 where
  pub amount_cents : ℕ
  pub paid_at : Date
  pub payment_method : Option String
  pub notes : Option String
  pub created_by : Option ℕ

-- `PayableExpense` with its payments.
pub record Expense : Type 0 where
  pub tenant : ℕ
  pub supplier : Option ℕ
  pub category : ℕ
  pub recurring_template : Option ℕ
  pub description : String
  pub amount_cents : ℕ
  pub due_date : Date
  pub competence_date : Date
  pub notes : Option String
  pub canceled_at : Option Date
  pub created_by : Option ℕ
  pub payments : List ExpensePayment

-- `RecurringExpenseTemplate`
pub record Template : Type 0 where
  pub tenant : ℕ
  pub category : ℕ
  pub supplier : Option ℕ
  pub description : String
  pub amount_cents : ℕ
  pub due_day : ℕ
  pub start_date : Date
  pub end_date : Option Date
  pub active : Bool

-- Quantities in thousandths.
pub record PurchaseItem : Type 0 where
  pub product : ℕ
  pub quantity : ℕ
  pub unit_cost_cents : ℕ
  pub total_cents : ℕ

pub data PurchaseStatus : Type 0 where
  draft confirmed canceled : PurchaseStatus

pub record Purchase : Type 0 where
  pub tenant : ℕ
  pub supplier : Option ℕ
  pub document_no : Option String
  pub status : PurchaseStatus
  pub purchased_at : Date
  pub total_cents : ℕ
  pub notes : Option String
  pub created_by : Option ℕ
  pub confirmed_at : Option Date
  pub payable_expense : Option ℕ
  pub items : List PurchaseItem

pub data ExpenseStatus : Type 0 where
  pending partially_paid paid overdue canceled : ExpenseStatus

-- What `withExpenseStatus` gives.
pub record ExpenseView : Type 0 where
  pub expense : Expense
  pub paid_cents : ℕ
  pub balance_cents : ℕ
  pub status : ExpenseStatus
