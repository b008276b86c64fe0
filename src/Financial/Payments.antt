-- ===== src/Financial/Payments.antt =====
-- The check of the payments of a bill (`validatePaymentsTotal`).
use comandas_multitenant_off.Prelude.{
  ℕ, zero, suc, ◌+◌, ◌<◌, ◌≡◌, refl, ◌≢◌, ◌↔◌, ◌⊎◌, inl, inr, ◌==◌, Bool-cases, eq_of_==, Option,
  none, some, subst, List, [], ◌∷◌, ◌++◌, arith,
}
use comandas_multitenant_off.Prelude.Int.{ℤ, pos, negsuc, pos_part, ◌≤ℤ◌}
use comandas_multitenant_off.Prelude.Lists.{All, sum_by, sum_by-append}
use comandas_multitenant_off.Http.{Result, ok, err}
use comandas_multitenant_off.Store.{Method, cash, pix, credit, debit, voucher, other}
use comandas_multitenant_off.Financial.{
  PaymentInput, ValidatedPayment, PaymentCheck, no_checks, check_payment, check_payments,
  expect_total, validate_payments_total,
}

-- What may be handed over: cash of at least the amount, and by any other method just the amount.
abbrev pub Tenders : Method → ℤ → Option ℤ → Type 0
Tenders method a none = Unit
Tenders cash a (some t) = a ≤ℤ t
Tenders method a (some t) = t ≡ a

-- The payments that the service accepts.
pub record IsAcceptable (p : PaymentInput) : Type 0 where
  pub positive : pos 1 ≤ℤ p.amount_cents
  pub known_method : p.method ≢ other
  pub tenders : Tenders p.method p.amount_cents p.tendered_cents

-- The change of a validated payment: only cash gives any, and it is what was handed over beyond
-- the amount.
pub record IsSound (v : ValidatedPayment) : Type 0 where
  pub positive : 0 < v.amount_cents
  pub only_cash : 0 < v.change_cents → v.method ≡ cash
  pub handed_over :
      (v.tendered_cents ≡ none) ⊎ (v.tendered_cents ≡ some (v.amount_cents + v.change_cents))

abbrev pub paid : List PaymentInput → ℕ
paid = sum_by (λ p. pos_part p.amount_cents)

abbrev as_input : Method → ℤ → Option ℤ → PaymentInput
as_input m a t = record { method = m; amount_cents = a; tendered_cents = t }

abbrev Agrees : PaymentInput → Result ValidatedPayment → Type 0
Agrees p (ok v) =
    IsAcceptable p × IsSound v × (v.amount_cents ≡ pos_part p.amount_cents) × (v.method ≡ p.method)
Agrees p (err e) = IsAcceptable p → ⊥

check-Agrees :
    (m : Method) (a : ℤ) (t : Option ℤ) → Agrees (as_input m a t) (check_payment (as_input m a t))
unfolding check_payment
check-Agrees m (negsuc n) t = λ h. omega (arith, h.positive)
check-Agrees m (pos zero) t = λ h. omega (arith, h.positive)
check-Agrees cash (pos (suc n)) none = ground arith
check-Agrees cash (pos (suc n)) (some t) = ground arith
check-Agrees other (pos (suc n)) t = λ h. h.known_method refl
check-Agrees pix (pos (suc n)) none = ground arith
check-Agrees pix (pos (suc n)) (some t) = ground arith
check-Agrees credit (pos (suc n)) none = ground arith
check-Agrees credit (pos (suc n)) (some t) = ground arith
check-Agrees debit (pos (suc n)) none = ground arith
check-Agrees debit (pos (suc n)) (some t) = ground arith
check-Agrees voucher (pos (suc n)) none = ground arith
check-Agrees voucher (pos (suc n)) (some t) = ground arith

-- The running sums are those of the list of validated payments.
pub record IsTallied (c : PaymentCheck) : Type 0 where
  pub sum_paid : c.total_paid_cents ≡ sum_by (λ v. v.amount_cents) c.payments
  pub sum_change : c.total_change_cents ≡ sum_by (λ v. v.change_cents) c.payments
  pub sound : All IsSound c.payments

All-append :
    (xs : List ValidatedPayment) (v : ValidatedPayment)
    → All IsSound xs
    → IsSound v
    → All IsSound (xs ++ v ∷ [])
All-append [] v h k = (k, tt)
All-append (x ∷ xs) v h k = (h.0, All-append xs v h.1 k)

abbrev add : PaymentCheck → ValidatedPayment → PaymentCheck
add c v = record {
  total_paid_cents = c.total_paid_cents + v.amount_cents;
  total_change_cents = c.total_change_cents + v.change_cents;
  payments = c.payments ++ v ∷ [];
}

add-IsTallied :
    (c : PaymentCheck) (v : ValidatedPayment) → IsTallied c → IsSound v → IsTallied (add c v)
add-IsTallied c v h k = record {
  sum_paid = rw (sum_by-append, h.sum_paid) (omega arith);
  sum_change = rw (sum_by-append, h.sum_change) (omega arith);
  sound = All-append c.payments v h.sound k;
}

abbrev Outcome : PaymentCheck → List PaymentInput → Result PaymentCheck → Type 0
Outcome c ps (ok d) =
    All IsAcceptable ps × (d.total_paid_cents ≡ c.total_paid_cents + paid ps) × IsTallied d
Outcome c ps (err e) = All IsAcceptable ps → ⊥

more-Outcome :
    (c : PaymentCheck) (p : PaymentInput) (v : ValidatedPayment) (ps : List PaymentInput)
    → Agrees p (ok v)
    → (r : Result PaymentCheck) → Outcome (add c v) ps r
    → Outcome c (p ∷ ps) r
more-Outcome c p v ps good (ok d) o = ((good.0, o.0), omega arith, o.2)
more-Outcome c p v ps good (err e) o = λ all. o all.1

step-Outcome :
    (c : PaymentCheck) (p : PaymentInput) (ps : List PaymentInput) (r : Result ValidatedPayment)
    → Agrees p r
    → ((v : ValidatedPayment) → IsSound v → Outcome (add c v) ps (check_payments (add c v) ps))
    → Outcome c (p ∷ ps) (elim r [ err e ↦ err e | ok v ↦ check_payments (add c v) ps ])
step-Outcome c p ps (err e) no_good rest = λ all. no_good all.0
step-Outcome c p ps (ok v) good rest =
    more-Outcome c p v ps good (check_payments (add c v) ps) (rest v good.1)

check_payments-Outcome :
    (c : PaymentCheck) (ps : List PaymentInput) → IsTallied c → Outcome c ps (check_payments c ps)
unfolding check_payments
check_payments-Outcome c [] h = (tt, omega arith, h)
check_payments-Outcome c (p ∷ ps) h =
    step-Outcome c p ps (check_payment p) (check-Agrees p.method p.amount_cents p.tendered_cents)
      (λ v sound. check_payments-Outcome (add c v) ps (add-IsTallied c v h sound))

no_checks-IsTallied : IsTallied no_checks
no_checks-IsTallied = omega arith

abbrev Settles : ℕ → List PaymentInput → Result PaymentCheck → Type 0
Settles n ps (ok d) =
    (d.total_paid_cents ≡ n) × (ps ≢ []) × All IsAcceptable ps × (paid ps ≡ n) × IsTallied d
Settles n ps (err e) = ((ps ≢ []) × All IsAcceptable ps × (paid ps ≡ n)) → ⊥

expect-Settles :
    (n : ℕ) (p : PaymentInput) (ps : List PaymentInput) (r : Result PaymentCheck)
    → Outcome no_checks (p ∷ ps) r
    → Settles n (p ∷ ps) (expect_total n r)
unfolding expect_total
expect-Settles n p ps (err e) o = λ h. o h.1
expect-Settles n p ps (ok d) o = elim (Bool-cases (d.total_paid_cents == n)) [
  | inl e ↦ rw e (eq_of_== _ _ e, (λ q. cc), o.0, omega (arith, eq_of_== _ _ e), o.2)
  | inr e ↦ rw e (λ h. ground arith)
]

validate-Settles : (n : ℕ) (ps : List PaymentInput) → Settles n ps (validate_payments_total n ps)
unfolding validate_payments_total
validate-Settles n [] = λ h. h.0 refl
validate-Settles n (p ∷ ps) =
    expect-Settles n p ps (check_payments no_checks (p ∷ ps))
      (check_payments-Outcome no_checks (p ∷ ps) no_checks-IsTallied)

-- Payments settle a bill exactly when there is one at least, each is acceptable (a positive amount
-- by a known method; cash of at least the amount, and by another method just the amount if what
-- was handed over is told), and their amounts add up to the expected total.
pub validate_payments_total_iff :
    (n : ℕ) (ps : List PaymentInput)
    → ((c : PaymentCheck) × (validate_payments_total n ps ≡ ok c))
      ↔ ((ps ≢ []) × All IsAcceptable ps × (paid ps ≡ n))
validate_payments_total_iff n ps = (accepted, accepts _ (validate-Settles n ps) refl)
  where
    accepted :
        ((c : PaymentCheck) × (validate_payments_total n ps ≡ ok c))
        → (ps ≢ []) × All IsAcceptable ps × (paid ps ≡ n)
    accepted (c, e) =
        let s : Settles n ps (ok c) = subst (Settles n ps) e (validate-Settles n ps) in
        (s.1, s.2, s.3)

    accepts :
        (r : Result PaymentCheck)
        → Settles n ps r
        → validate_payments_total n ps ≡ r
        → (ps ≢ []) × All IsAcceptable ps × (paid ps ≡ n)
        → (c : PaymentCheck) × (validate_payments_total n ps ≡ ok c)
    accepts (ok c) s e h = (c, e)
    accepts (err x) s e h = absurd (s h)

-- What an accepted check reports: the total paid is the expected one, the sums of amounts and of
-- change are those of the validated payments, each of these has a positive amount, only cash gives
-- change, and what was handed over is the amount and the change.
pub validate_payments_total-IsTallied :
    (n : ℕ) (ps : List PaymentInput) (c : PaymentCheck)
    → validate_payments_total n ps ≡ ok c
    → (c.total_paid_cents ≡ n) × IsTallied c
validate_payments_total-IsTallied n ps c e =
    let s : Settles n ps (ok c) = subst (Settles n ps) e (validate-Settles n ps) in (s.0, s.4)
