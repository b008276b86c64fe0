-- ===== src/Dto.antt =====
-- The request bodies of the order endpoints (backend/src/dto/orders.dto.ts), and the checks of
-- their decorators on values of these types: `ValidationPipe` refuses a body that fails them
-- before a handler runs (backend/src/main.ts). Class-validator has no other part in the model.
pub mod Catalog
pub mod Management
use comandas_multitenant_off.Prelude.{
  ℕ, String, Bool, true, Option, none, some, List, [], ◌∷◌, ◌&&◌, leb, is_some, if◌then◌else◌,
}
use comandas_multitenant_off.Dto.Management.{
  CreateSupplierDto, CreateExpenseDto, CreateExpensePaymentDto, CreatePurchaseDto, AdjustStockDto,
}
use comandas_multitenant_off.Store.{OrderType, DiscountType, Method}

pub record CreateOrderDto : Type 0 where
  pub table_label : Option String
  pub order_type : Option OrderType
  pub table_id : Option ℕ

pub record AddItemDto : Type 0 where
  pub product_id : Option ℕ
  pub product_name : Option String
  pub quantity : ℕ
  pub unit_price_cents : Option ℕ
  pub notes : Option String
  pub selected_options : Option String
  pub expected_version : Option ℕ

-- `status` is any text.
pub record UpdateOrderStatusDto : Type 0 where
  pub status : String
  pub expected_version : Option ℕ

pub record OrderPaymentDto : Type 0 where
  pub method : Method
  pub amount_cents : ℕ
  pub tendered_cents : Option ℕ

pub record SettleOrderDto : Type 0 where
  pub discount_cents : Option ℕ
  pub discount_type : Option DiscountType
  pub discount_value : Option ℕ
  pub service_fee_bps : Option ℕ
  pub payments : List OrderPaymentDto
  pub expected_version : Option ℕ

pub record CloseOrderDto : Type 0 where
  pub discount_cents : Option ℕ
  pub discount_type : Option DiscountType
  pub discount_value : Option ℕ
  pub service_fee_bps : Option ℕ
  pub payments : Option (List OrderPaymentDto)
  pub expected_version : Option ℕ

-- `@IsOptional() @Min(1)`
min_one : Option ℕ → Bool
min_one none = true
min_one (some n) = leb 1 n

unfoldable pub is_valid_item : AddItemDto → Bool
unfolding min_one
is_valid_item b = leb 1 b.quantity && min_one b.expected_version

are_valid_payments : List OrderPaymentDto → Bool
are_valid_payments [] = true
are_valid_payments (p ∷ ps) = leb 1 p.amount_cents && are_valid_payments ps

-- `@ValidateIf(body => body.discount_type !== undefined) @IsInt() discount_value`
unfoldable pub is_valid_settlement : SettleOrderDto → Bool
unfolding min_one are_valid_payments
is_valid_settlement b =
    (if is_some b.discount_type then is_some b.discount_value else true)
    && are_valid_payments b.payments
    && min_one b.expected_version

-- What the handlers hash: the bodies, and with `settle` the order's id beside the body.
pub data Payload : Type 0 where
  create_order : CreateOrderDto → Payload
  update_status : UpdateOrderStatusDto → Payload
  add_item : AddItemDto → Payload
  settle : ℕ → SettleOrderDto → Payload
  close : CloseOrderDto → Payload
  supplier : CreateSupplierDto → Payload
  expense : CreateExpenseDto → Payload
  expense_payment : CreateExpensePaymentDto → Payload
  adjustment : AdjustStockDto → Payload
  purchase : CreatePurchaseDto → Payload

pub data Operation : Type 0 where
  post_orders post_settle post_suppliers post_expenses post_purchases : Operation
  -- the operation's text has the id of the path
  post_expense_payments post_adjust : ℕ → Operation

-- The argument of `computePayloadHash`, whose SHA-256 is a parameter of the model: a request with
-- its operation, tenant and user, or a body alone.
pub data HashInput : Type 0 where
  whole_request : Operation → ℕ → Option ℕ → Payload → HashInput
  body_only : Payload → HashInput
