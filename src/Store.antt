-- ===== src/Store.antt =====
-- The database behind the handlers: the models of backend/prisma/schema.prisma that they use, a
-- `Dict` for each table with a generated id, and the events sent through the gateway
-- (backend/src/orders.gateway.ts, `emitToTenant`). Ids are only compared, so they are numbers; an
-- optional id that the code tests for truth is `none` where it is missing or empty. Money is in
-- cents, and stock in thousandths of a unit (the DTOs allow three decimals).
pub mod Queries
pub mod Books
use comandas_multitenant_off.Prelude.{
  ℕ, ◌*◌, ◌==◌, String, Bool, true, false, Option, List, ◌&&◌, not, is_id,
}
use comandas_multitenant_off.Store.Books.{
  Category, Supplier, ExpenseCategory, Expense, Template, Purchase, ExpenseView,
}
use comandas_multitenant_off.Prelude.Int.{ℤ}
use comandas_multitenant_off.Prelude.Dict.{Dict}
use comandas_multitenant_off.Prelude.Lists.{sum_by}

pub data Status : Type 0 where
  opened sent_to_kitchen delivered closed canceled : Status

pub data OrderType : Type 0 where
  table quick_sale takeaway delivery : OrderType

pub data DiscountType : Type 0 where
  fixed percent : DiscountType

-- `other` is a method that is none of the five.
pub data Method : Type 0 where
  cash pix credit debit voucher other : Method

pub record OrderItem : Type 0 where
  pub product : Option ℕ
  pub product_name : String
  pub quantity : ℕ
  pub unit_price_cents : ℕ
  pub unit_cost_cents : ℕ
  pub selected_options : Option String
  pub notes : Option String

pub record OrderPayment : Type 0 where
  pub method : Method
  pub amount_cents : ℕ
  pub tendered_cents : Option ℕ
  pub change_cents : ℕ
  pub pix_charge : Option ℕ

pub record StatusChange : Type 0 where
  pub from_status : Option Status
  pub to_status : Status
  pub changed_by : Option ℕ

-- An order with the rows of its relations, in the order of creation.
pub record Order : Type 0 where
  pub tenant : ℕ
  pub table_id : Option ℕ
  pub table_label : String
  pub order_type : OrderType
  pub status : Status
  pub version : ℕ
  pub subtotal_cents : ℕ
  pub discount_cents : ℕ
  pub discount_type : Option DiscountType
  pub discount_value : Option ℕ
  pub discount_authorized_by : Option ℕ
  pub service_fee_bps : ℕ
  pub service_fee_cents : ℕ
  pub total_cents : ℕ
  pub settled_at : Option ℕ
  pub settled_by : Option ℕ
  pub items : List OrderItem
  pub payments : List OrderPayment
  pub history : List StatusChange

pub data Shape : Type 0 where
  square rectangle circle : Shape

pub record DiningTable : Type 0 where
  pub tenant : ℕ
  pub label : String
  pub capacity : ℕ
  pub position_x : ℕ
  pub position_y : ℕ
  pub width : ℕ
  pub height : ℕ
  pub shape : Shape
  pub active : Bool

pub record Product : Type 0 where
  pub tenant : ℕ
  pub category : Option ℕ
  pub name : String
  pub sku : Option String
  pub unit : String
  pub minimum_stock : ℤ
  pub sort_order : ℤ
  pub price_cents : ℕ
  pub cost_cents : ℕ
  pub stock_controlled : Bool
  pub stock_quantity : ℤ
  pub active : Bool
  pub available : Bool

pub data MovementType : Type 0 where
  purchase sale adjustment_in adjustment_out return : MovementType

pub record StockMovement : Type 0 where
  pub tenant : ℕ
  pub product : ℕ
  pub type : MovementType
  pub quantity : ℤ
  pub unit_cost_cents : Option ℕ
  pub reference : Option ℕ
  pub created_by : Option ℕ

pub data ChargeStatus : Type 0 where
  pending paid expired canceled failed : ChargeStatus

pub record PixCharge : Type 0 where
  pub tenant : ℕ
  pub order : ℕ
  pub provider : String
  pub txid : String
  pub amount_cents : ℕ
  pub discount_type : Option DiscountType
  pub discount_value : Option ℕ
  pub discount_cents : ℕ
  pub service_fee_bps : ℕ
  pub status : ChargeStatus
  pub paid_at : Option ℕ

pub record AuditEntry : Type 0 where
  pub tenant : ℕ
  pub user : Option ℕ
  pub entity : ℕ
  pub discount_type : Option DiscountType
  pub discount_value : Option ℕ
  pub amount_cents : ℕ

-- The role of a member, as the database has it; `other` is none of these.
pub data Role : Type 0 where
  waiter kitchen cashier manager owner admin other : Role

-- What a handler answers with; an order comes with its id.
pub data Response : Type 0 where
  order_response : ℕ → Order → Response
  supplier_response : ℕ → Supplier → Response
  expense_response : ℕ → ExpenseView → Response
  stock_response : Product → StockMovement → Response
  purchase_response : ℕ → Purchase → Response

pub data KeyStatus : Type 0 where
  processing completed : KeyStatus

pub record IdempotencyKey : Type 0 where
  pub tenant : ℕ
  pub key : String
  pub status : KeyStatus
  pub request_hash : Option ℕ
  pub response : Option Response

pub data EventName : Type 0 where
  order_created order_updated : EventName

pub record Event : Type 0 where
  pub tenant : ℕ
  pub name : EventName
  pub payload : Response

pub record State : Type 0 where
  -- the generator of ids: every id in use is smaller
  pub next_id : ℕ
  -- users and tenants by id; of a tenant `cashier_discount_limit_bps`
  pub users : List ℕ
  pub discount_limits : Dict ℕ
  pub tables : Dict DiningTable
  pub products : Dict Product
  pub orders : Dict Order
  pub charges : Dict PixCharge
  pub movements : List StockMovement
  pub audit_log : List AuditEntry
  pub categories : Dict Category
  pub suppliers : Dict Supplier
  pub expense_categories : Dict ExpenseCategory
  pub expenses : Dict Expense
  pub templates : Dict Template
  pub purchases : Dict Purchase
  pub keys : List IdempotencyKey
  pub events : List Event

abbrev pub is_closed : Status → Bool
is_closed closed = true
is_closed s = false

-- `['closed', 'canceled'].includes(status)`
abbrev pub is_final : Status → Bool
is_final closed = true
is_final canceled = true
is_final s = false

abbrev pub same_status : Status → Status → Bool
same_status opened opened = true
same_status sent_to_kitchen sent_to_kitchen = true
same_status delivered delivered = true
same_status closed closed = true
same_status canceled canceled = true
same_status s t = false

abbrev pub line_cents : OrderItem → ℕ
line_cents i = i.quantity * i.unit_price_cents

-- `order.items.reduce((total, item) => total + item.quantity * item.unit_price_cents, 0)`
abbrev pub items_subtotal : List OrderItem → ℕ
items_subtotal = sum_by line_cents

-- The partial unique index on the active orders of a table: another order than `id` is active at
-- the table.
unfoldable pub occupies : ℕ → ℕ → ℕ → ℕ → Order → Bool
occupies tenant t id k o =
    o.tenant == tenant && is_id o.table_id t && not (is_final o.status) && not (k == id)
