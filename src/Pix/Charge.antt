-- ===== src/Pix/Charge.antt =====
-- backend/src/pix.controller.ts, `createCharge`, and backend/src/pix.service.ts. The provider's
-- server is a parameter: what `fetch` gives for an amount and a reference. Its reply has the two
-- texts that the code needs, empty where they are missing; the QR code, the expiry and the raw
-- reply are only stored and are left out. `between` is what other requests commit while it runs.
pub mod Payable
use comandas_multitenant_off.Pix.{bill_of_charge}
use comandas_multitenant_off.Http.{Result-cases}
use comandas_multitenant_off.Prelude.{
  ℕ, suc, ◌*◌, ◌≤◌, ◌≡◌, ◌⊎◌, inl, inr, String, Bool, true, false, Option, none, some, arith, ◌==◌,
  ◌&&◌, ◌||◌, not, ltb, or_else, if◌then◌else◌, Bool-cases, Option-cases,
}
use comandas_multitenant_off.Prelude.Dict.{put, find_row}
use text.Mathlib.Text.{◌==◌ as str_eq}
use comandas_multitenant_off.Prelude.Int.{pos}
use comandas_multitenant_off.Prelude.Trim.{is_blank, trim}
use comandas_multitenant_off.Http.{
  Result, ok, err, bad_request, conflict, not_found, unavailable, record_missing, unique_violation,
  charge_not_positive, pix_unavailable, bad_percent, version_conflict, order_finished,
  order_not_found, Exec, pure, raise_if, gets, lift, or_raise, catch_unique, modify, ◌>>=◌, ◌>>◌,
}
use comandas_multitenant_off.Store.{
  State, Order, PixCharge, ChargeStatus, pending, DiscountType, fixed, percent, is_final,
  items_subtotal,
}
use comandas_multitenant_off.Store.Queries.{find_order}
use comandas_multitenant_off.Financial.{Bill, calculate_bill_totals, round_bps}
use comandas_multitenant_off.Orders.{has_version}

pub record CreatePixChargeDto : Type 0 where
  pub order_id : ℕ
  pub discount_type : Option DiscountType
  pub discount_value : Option ℕ
  pub discount_cents : Option ℕ
  pub service_fee_bps : Option ℕ
  pub expected_version : Option ℕ

-- What `fetch` gives: nothing, an error's status, or a reply.
pub data Reply : Type 0 where
  unreachable : Reply
  refused : ℕ → Reply
  replied : String → String → Reply

-- The environment's variables, and the provider: the reference is the order's id and version.
pub record Adapter : Type 0 where
  pub base_url : Option String
  pub token : Option String
  pub provider : Option String
  pub fetch : ℕ → ℕ × ℕ → Reply

pub record AdapterCharge : Type 0 where
  pub provider : String
  pub txid : String

is_set : Option String → Bool
is_set none = false
is_set (some t) = not (is_blank t)

provider_name : Option String → String
provider_name none = "configured_adapter"
provider_name (some p) = if is_blank (trim p) then "configured_adapter" else trim p

read_reply : String → Reply → Result AdapterCharge
read_reply provider unreachable = err (unavailable pix_unavailable)
read_reply provider (refused status) = err (unavailable pix_unavailable)
read_reply provider (replied txid copy_paste) =
    if is_blank txid || is_blank copy_paste
    then err (unavailable pix_unavailable)
    else ok (record { provider = provider; txid = txid })

-- `PixService.createCharge`
unfoldable pub request_charge : Adapter → ℕ → ℕ × ℕ → Result AdapterCharge
unfolding is_set provider_name read_reply
request_charge a amount reference =
    if is_set a.base_url && is_set a.token
    then read_reply (provider_name a.provider) (a.fetch amount reference)
    else err (unavailable pix_unavailable)

pub record Terms : Type 0 where
  pub type : Option DiscountType
  pub value : Option ℕ
  pub cents : ℕ

-- The discount of a charge; there is no check that value and cents agree.
terms_of : ℕ → Option DiscountType → Option ℕ → Option ℕ → Result Terms
terms_of subtotal (some percent) none cents = err (bad_request bad_percent)
terms_of subtotal (some percent) (some v) cents =
    if ltb 10000 v
    then err (bad_request bad_percent)
    else ok (record { type = some percent; value = some v; cents = round_bps (subtotal * v) })
terms_of subtotal (some fixed) value cents =
    let c = or_else value (or_else cents 0) in
    ok (record { type = some fixed; value = some c; cents = c })
terms_of subtotal none value cents =
    ok (record { type = none; value = value; cents = or_else cents 0 })

abbrev default_type : Option DiscountType → Option ℕ → Option DiscountType
default_type (some t) cents = some t
default_type none none = none
default_type none (some c) = some fixed

unfoldable pub charge_terms : ℕ → CreatePixChargeDto → Result Terms
unfolding terms_of
charge_terms subtotal body =
    terms_of subtotal (default_type body.discount_type body.discount_cents) body.discount_value
      body.discount_cents

unfoldable pub charge_bill : ℕ → ℕ → Option ℕ → Result Bill
charge_bill subtotal discount bps = calculate_bill_totals (record {
  subtotal_cents = pos subtotal;
  discount_cents = some (pos discount);
  service_fee_bps = some (pos (or_else bps 0));
})

abbrev is_pending : ChargeStatus → Bool
is_pending pending = true
is_pending s = false

-- `order.pixCharges[0]`, of the pending ones
unfoldable pub pending_charge : ℕ → State → Option (ℕ × PixCharge)
pending_charge order s = find_row (λ k c. c.order == order && is_pending c.status) s.charges

-- The unique index on (tenant, txid).
unfoldable pub find_txid : ℕ → String → State → Option (ℕ × PixCharge)
find_txid tenant txid s = find_row (λ k c. c.tenant == tenant && str_eq c.txid txid) s.charges

-- `pixCharge.create`
unfoldable pub insert_charge : PixCharge → Exec State (ℕ × PixCharge)
insert_charge c s = elim (find_txid c.tenant c.txid s) [
  | some row ↦ (err unique_violation, s)
  | none ↦
      (ok (s.next_id, c), record s { next_id = suc s.next_id; charges = put s.next_id c s.charges })
]

abbrev pub new_charge : ℕ → ℕ → AdapterCharge → Terms → Bill → PixCharge
new_charge tenant order a t b = record {
  tenant = tenant;
  order = order;
  provider = a.provider;
  txid = a.txid;
  amount_cents = b.total_cents;
  discount_type = t.type;
  discount_value = t.value;
  discount_cents = t.cents;
  service_fee_bps = b.service_fee_bps;
  status = pending;
  paid_at = none;
}

known_charge : ℕ → String → Exec State (ℕ × PixCharge)
known_charge tenant txid = do row ← gets (find_txid tenant txid); or_raise row record_missing

unfoldable pub store_charge : PixCharge → Exec State (ℕ × PixCharge)
unfolding known_charge
store_charge c = catch_unique (insert_charge c) (known_charge c.tenant c.txid)

-- The amounts and the provider, then the row.
unfoldable pub open_charge :
    Adapter → (State → State) → ℕ → CreatePixChargeDto → Order → Exec State (ℕ × PixCharge)
unfolding store_charge
open_charge a between tenant body o = do
  t ← lift (charge_terms (items_subtotal o.items) body)
  b ← lift (charge_bill (items_subtotal o.items) t.cents body.service_fee_bps)
  raise_if (b.total_cents == 0) (bad_request charge_not_positive)
  c ← lift (request_charge a b.total_cents (body.order_id, o.version))
  modify between
  store_charge (new_charge tenant body.order_id c t b)

-- `PixController.createCharge`
unfoldable pub create_charge :
    Adapter → (State → State) → ℕ → CreatePixChargeDto → Exec State (ℕ × PixCharge)
create_charge a between tenant body = do
  found ← gets (find_order tenant body.order_id)
  o ← or_raise found (not_found order_not_found)
  raise_if (is_final o.status) (bad_request order_finished)
  raise_if (not (has_version body.expected_version o.version)) (conflict version_conflict)
  waiting ← gets (pending_charge body.order_id)
  elim waiting [ some row ↦ pure row | none ↦ open_charge a between tenant body o ]
