-- ===== src/Http.antt =====
-- Requests that read and write the database and may throw: the NestJS exceptions of
-- backend/src/*.controller.ts with their messages, the error codes of the database client that the
-- code catches, and Prisma's `$transaction`. What was written outside a transaction stays written
-- after a throw, so the state comes back beside the error too.
use comandas_multitenant_off.Prelude.{
  ℕ, Bool, true, false, Option, none, some, ◌≡◌, refl, ◌⊎◌, inl, inr,
}

-- One for each message that the handlers throw.
pub data Reason : Type 0 where
  discount_exceeds_subtotal no_payments bad_payment_amount bad_payment_method : Reason
  short_tender tender_not_cash unsettled_total : Reason
  key_required key_reused key_other_payload key_in_progress key_concurrent : Reason
  table_required table_not_found table_occupied table_duplicate : Reason
  order_not_found order_closed order_canceled order_finished historic_closed : Reason
  bad_transition transition_refused pix_pending version_conflict concurrent_update : Reason
  product_not_found product_unavailable product_required price_required : Reason
  bad_percent percent_mismatch fixed_mismatch discount_over_limit target_required : Reason
  tenant_missing not_member role_denied tenant_not_selected pro_required bad_limit : Reason
  not_authenticated bad_session token_missing token_invalid : Reason
  charge_not_found amount_mismatch order_changed charge_not_positive pix_unavailable : Reason
  webhook_denied bad_date : Reason
  supplier_not_found supplier_invalid category_invalid category_not_found : Reason
  expense_not_found amount_below_paid payment_exceeds_balance : Reason
  zero_adjustment stock_product_not_found : Reason
  no_items repeated_product foreign_product payable_fields_required : Reason
  employee_exists employee_not_found own_access : Reason
  bad_period bad_axis bad_cmv_mode : Reason

pub data Error : Type 0 where
  bad_request conflict not_found forbidden unauthorized unavailable : Reason → Error
  -- `PrismaClientKnownRequestError` with the code P2002: a unique index refuses the row
  unique_violation : Error
  -- `findUniqueOrThrow` and `update` on a row that is not there (P2025)
  record_missing : Error

-- The status that `GlobalExceptionFilter` answers with.
pub http_status : Error → ℕ
http_status (bad_request r) = 400
http_status (unauthorized r) = 401
http_status (forbidden r) = 403
http_status (not_found r) = 404
http_status (conflict r) = 409
http_status (unavailable r) = 503
http_status unique_violation = 500
http_status record_missing = 500

pub data Result {ℓ} (A : Type ℓ) : Type ℓ where
  ok : A → Result A
  err : Error → Result A

abbrev pub Exec {ℓ} : Type ℓ → Type ℓ → Type ℓ
Exec S A = S → Result A × S

module _ {ℓ} {S A : Type ℓ} where
  pub pure : A → Exec S A
  pure a s = (ok a, s)

  pub raise : Error → Exec S A
  raise e s = (err e, s)

  pub lift : Result A → Exec S A
  lift r s = (r, s)

  pub gets : (S → A) → Exec S A
  gets f s = (ok (f s), s)

  -- a read that may throw
  pub reads : (S → Result A) → Exec S A
  reads f s = (f s, s)

  -- `(await ...) ?? throw`
  pub or_raise : Option A → Error → Exec S A
  or_raise none e s = (err e, s)
  or_raise (some a) e s = (ok a, s)

  roll_back : S → Result A × S → Result A × S
  roll_back s (ok a, s') = (ok a, s')
  roll_back s (err e, s') = (err e, s)

  -- `prisma.$transaction`: a throw rolls back what the body wrote
  pub transaction : Exec S A → Exec S A
  unfolding roll_back
  transaction m s = roll_back s (m s)

  -- `try { ... } catch (error) { if P2002 ... else throw error }`
  on_unique : Exec S A → Result A × S → Result A × S
  on_unique h (err unique_violation, s) = h s
  on_unique h (r, s) = (r, s)

  pub catch_unique : Exec S A → Exec S A → Exec S A
  unfolding on_unique
  catch_unique m h s = on_unique h (m s)

module _ {S : Type 0} where
  pub modify : (S → S) → Exec S (Unit {0})
  modify f s = (ok tt, f s)

  -- `if (c) throw e`
  pub raise_if : Bool → Error → Exec S (Unit {0})
  raise_if true e s = (err e, s)
  raise_if false e s = (ok tt, s)

module _ {ℓ} {S A B : Type ℓ} where
  continue : Result A × S → (A → Exec S B) → Result B × S
  continue (ok a, s) f = f a s
  continue (err e, s) f = (err e, s)

  infixl 5 ◌>>=◌ ◌>>◌
  -- opening this opens the other combinators too
  unfoldable pub ◌>>=◌ : Exec S A → (A → Exec S B) → Exec S B
  unfolding continue pure raise lift gets reads or_raise transaction catch_unique modify raise_if
  ◌>>=◌ m f s = continue (m s) f

  abbrev pub ◌>>◌ : Exec S A → Exec S B → Exec S B
  m >> k = m >>= λ _. k

pub Result-cases {ℓ} :
    {A : Type ℓ} (r : Result A) → ((a : A) × (r ≡ ok a)) ⊎ ((e : Error) × (r ≡ err e))
Result-cases (ok a) = inl (a, refl)
Result-cases (err e) = inr (e, refl)
