-- ===== src/Management/Expenses/Covered.antt =====
-- What each write of an expense does to its balance: backend/src/management.controller.ts, `FinanceController`.
use comandas_multitenant_off.Prelude.{
  subst, ℕ, ◌+◌, ◌≤◌, ◌≡◌, inl, inr, refl, sym, ap, ◌∙◌, false, Option, none, some, [], ◌∷◌, arith,
  ◌==◌, ltb, Bool-cases, Option-cases,
}
use comandas_multitenant_off.Prelude.Dict.{Dict, get, put, get-put}
use comandas_multitenant_off.Prelude.Lists.{sum_by-append}
use comandas_multitenant_off.Calendar.{parse_date, Date}
use comandas_multitenant_off.Http.{ok, Result-cases, ◌>>=◌}
use comandas_multitenant_off.Store.{State, Response}
use comandas_multitenant_off.Store.Books.{Expense, ExpensePayment}
use comandas_multitenant_off.Dto.Management.{
  CreateExpenseDto, UpdateExpenseDto, CreateExpensePaymentDto,
}
use comandas_multitenant_off.Idempotency.Keeps.{IgnoresKeys}
use comandas_multitenant_off.Orders.{Request}
use comandas_multitenant_off.Management.{Env, assert_finance_references}
use comandas_multitenant_off.Management.Expenses.{
  paid_cents, find_expense, find_open_expense, write_expense, insert_expense, open_expense,
  change_expense, update_expense, add_payment, settle_expense, cancel_expense, new_expense,
  payment_of, check_references, parse_optional, below_paid,
}

-- The payments of an expense do not exceed its amount.
abbrev pub IsCovered : Expense → Type 0
IsCovered e = paid_cents e ≤ e.amount_cents

pub record AreCovered (s : State) : Type 0 where
  pub at : (id : ℕ) (e : Expense) → get id s.expenses ≡ some e → IsCovered e

pub AreCovered-IgnoresKeys : IgnoresKeys AreCovered
AreCovered-IgnoresKeys = record { at = λ s keys h. record { at = h.at } }

put-IsCovered :
    (id : ℕ) (e : Expense) (m : Dict Expense)
    → ((k : ℕ) (d : Expense) → get k m ≡ some d → IsCovered d)
    → IsCovered e
    → (k : ℕ) (d : Expense) → get k (put id e m) ≡ some d
    → IsCovered d
put-IsCovered id e m h new k d g = elim (Bool-cases (id == k)) [
  | inl same_key ↦ let q : e ≡ d = ground (arith, get-put k id e m) in subst IsCovered q new
  | inr other_key ↦ h k d (ground (arith, get-put k id e m))
]

write_expense-AreCovered :
    (id : ℕ) (f : Expense → Expense) (s : State)
    → AreCovered s
    → ((e : Expense) → get id s.expenses ≡ some e → IsCovered (f e))
    → AreCovered (write_expense id f s).1
unfolding write_expense
write_expense-AreCovered id f s h covers = elim (Option-cases (get id s.expenses)) [
  | inl lost ↦ subst AreCovered (ground arith) h
  | inr (e, here) ↦ record {
    at = λ k d g. put-IsCovered id (f e) s.expenses h.at (covers e here) k d (ground arith);
  }
]

pub find_open_expense-get :
    (tenant id : ℕ) (s : State) (e : Expense)
    → find_open_expense tenant id s ≡ some e
    → get id s.expenses ≡ some e
unfolding find_open_expense find_expense
find_open_expense-get tenant id s e h = ground arith

some-inj : {A : Type 0} {a b : A} → some a ≡ some b → a ≡ b
some-inj e = cc

module _ (env : Env) (req : Request) where
  payment_fits :
      (body : CreateExpensePaymentDto) (d : Date) (x y : Expense)
      → paid_cents x + body.amount_cents ≤ x.amount_cents
      → x ≡ y
      → paid_cents y + (payment_of req body d).amount_cents ≤ y.amount_cents
  unfolding payment_of
  payment_fits body d x y h e = subst (λ z. paid_cents z + body.amount_cents ≤ z.amount_cents) e h

  pub open_expense-AreCovered :
      (body : CreateExpenseDto) (s s' : State) (v : Response)
      → open_expense env req body s ≡ (ok v, s')
      → AreCovered s
      → AreCovered s'
  unfolding open_expense insert_expense parse_date new_expense ◌>>=◌
  open_expense-AreCovered body s s' v e h = elim (Option-cases body.due_date) [
    | inl n ↦ absurd (ground arith)
    | inr (due, p) ↦ elim (Option-cases body.competence_date) [
      | inl n ↦ absurd (ground arith)
      | inr (competence, q) ↦
          let n : Expense = new_expense req body due competence in
          let written : s'.expenses ≡ put s.next_id n s.expenses = ground arith in
          record {
            at = λ k d g.
                put-IsCovered s.next_id n s.expenses h.at (omega arith) k d
                  (ap (get k) (sym written) ∙ g);
          }
    ]
  ]

  payment-IsCovered :
      (p : ExpensePayment) (e : Expense)
      → paid_cents e + p.amount_cents ≤ e.amount_cents
      → IsCovered (add_payment p e)
  unfolding add_payment
  payment-IsCovered p e h =
      omega
        (arith, sum_by-append {0} (λ (q : ExpensePayment). q.amount_cents) e.payments (p ∷ []), h)

  pub settle_expense-AreCovered :
      (id : ℕ) (body : CreateExpensePaymentDto) (s s' : State) (v : Response)
      → settle_expense env req id body s ≡ (ok v, s')
      → AreCovered s
      → AreCovered s'
  unfolding settle_expense parse_date ◌>>=◌
  settle_expense-AreCovered id body s s' v e h =
      elim (Option-cases (find_open_expense req.tenant id s)) [
        | inl n ↦ absurd (ground arith)
        | inr (x, found) ↦
            elim (Bool-cases (ltb x.amount_cents (paid_cents x + body.amount_cents))) [
              | inl over ↦ absurd (ground arith)
              | inr fits ↦ elim (Option-cases body.paid_at) [
                | inl n ↦ absurd (ground arith)
                | inr (d, q) ↦ subst AreCovered (ground arith) (
                    write_expense-AreCovered id (add_payment (payment_of req body d)) s h (λ y here.
                      payment-IsCovered (payment_of req body d) y (
                        payment_fits body d x y (ground arith)
                          (some-inj (sym (find_open_expense-get req.tenant id s x found) ∙ here)))))
              ]
            ]
      ]

  pub check_references-reads :
      (category supplier_id : Option ℕ) (old : ℕ) (s : State)
      → (check_references req.tenant category supplier_id old s).1 ≡ s
  unfolding check_references assert_finance_references ◌>>=◌
  check_references-reads none none old s = refl
  check_references-reads (some c) none old s = ground arith
  check_references-reads none (some p) old s = ground arith
  check_references-reads (some c) (some p) old s = ground arith

  change-IsCovered :
      (body : UpdateExpenseDto) (due competence : Option Date) (x y : Expense)
      → below_paid body.amount_cents x ≡ false
      → x ≡ y
      → IsCovered y
      → IsCovered (change_expense body due competence y)
  unfolding change_expense below_paid
  change-IsCovered body due competence x y above e h =
      let same : below_paid body.amount_cents y ≡ false =
        subst (λ z. below_paid body.amount_cents z ≡ false) e above in
      ground arith

  pub update_expense-AreCovered :
      (id : ℕ) (body : UpdateExpenseDto) (s : State)
      → (env.between s ≡ s)
      → AreCovered s
      → AreCovered (update_expense env req id body s).1
  unfolding update_expense ◌>>=◌
  update_expense-AreCovered id body s quiet h =
      elim (Option-cases (find_open_expense req.tenant id s)) [
        | inl lost ↦ rw lost h
        | inr (x, found) ↦
            let reads : (check_references req.tenant body.category_id body.supplier_id x.category
                  s).1
                ≡ s =
              check_references-reads body.category_id body.supplier_id x.category s in
            elim (Result-cases
              (check_references req.tenant body.category_id body.supplier_id x.category s).0) [
                | inr (e, fault) ↦ subst AreCovered (ground arith) h
                | inl (u, known) ↦ elim (Bool-cases (below_paid body.amount_cents x)) [
                  | inl below ↦ subst AreCovered (ground arith) h
                  | inr above ↦ elim (Result-cases (parse_optional body.due_date)) [
                    | inr (e, fault) ↦ subst AreCovered (ground arith) h
                    | inl (due, p) ↦ elim (Result-cases (parse_optional body.competence_date)) [
                      | inr (e, fault) ↦ subst AreCovered (ground arith) h
                      | inl (competence, q) ↦ subst AreCovered (ground arith) (
                          write_expense-AreCovered id (change_expense body due competence) s h
                            (λ y here.
                              change-IsCovered body due competence x y above
                                (some-inj
                                  (sym (find_open_expense-get req.tenant id s x found) ∙ here))
                                (h.at id y here)))
                    ]
                  ]
                ]
              ]
      ]

  pub cancel_expense-AreCovered :
      (id : ℕ) (s : State)
      → ((t : State) → AreCovered t → AreCovered (env.between t))
      → AreCovered s
      → AreCovered (cancel_expense env req id s).1
  unfolding cancel_expense ◌>>=◌
  cancel_expense-AreCovered id s others h = elim (Option-cases (find_expense req.tenant id s)) [
    | inl lost ↦ rw lost h
    | inr (e, found) ↦ rw found (
        write_expense-AreCovered id _ (env.between s) (others s h)
          (λ d here. (others s h).at id d here))
  ]
