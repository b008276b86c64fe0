-- ===== src/Management/Recurring/Once.antt =====
-- A month is generated once: backend/src/management.controller.ts, `generateRecurring`.
use comandas_multitenant_off.Prelude.{
  is_id, subst, ◌<◌, ℕ, ◌+◌, ◌≡◌, inl, inr, refl, sym, ap, ◌∙◌, Bool, true, none, some, [], ◌∷◌,
  arith, ◌==◌, ◌&&◌, ◌||◌, is_some, Bool-cases, Option-cases,
}
use comandas_multitenant_off.Prelude.Dict.{Dict, get, put, find_row, get-put}
use comandas_multitenant_off.Prelude.Lists.{keep}
use comandas_multitenant_off.Calendar.{Date, parse_date, month_start}
use comandas_multitenant_off.Http.{ok, ◌>>=◌}
use comandas_multitenant_off.Store.{State}
use comandas_multitenant_off.Store.Books.{Expense, Template}
use comandas_multitenant_off.Dto.Management.{GenerateRecurringExpensesDto}
use comandas_multitenant_off.Orders.{Request}
use comandas_multitenant_off.Management.{Env}
use comandas_multitenant_off.Management.Recurring.{
  is_due, due_templates, is_generated, generated_expense, generate_one, generate_all, Generation,
  generate_recurring, same_date,
}

-- Ids are taken from the generator.
pub record AreFresh (s : State) : Type 0 where
  pub at : (k : ℕ) (e : Expense) → get k s.expenses ≡ some e → k < s.next_id

-- Every template of the list has its expense of the month.
unfoldable pub all_generated : ℕ → Date → Dict Template → State → Bool
all_generated tenant competence [] s = true
all_generated tenant competence (r ∷ rs) s =
    is_generated tenant r.0 competence s.expenses && all_generated tenant competence rs s

-- A new row keeps what a search finds, and is found itself.
find_row-put_new :
    (p : ℕ → Expense → Bool) (k : ℕ) (e : Expense) (d : Dict Expense)
    → get k d ≡ none
    → is_some (find_row p (put k e d)) ≡ (is_some (find_row p d) || p k e)
unfolding find_row get put
find_row-put_new p k e [] h = ground arith
find_row-put_new p k e ((j, x) ∷ d) h = ground (arith, find_row-put_new p k e d)

unused : (s : State) → AreFresh s → get s.next_id s.expenses ≡ none
unused s fresh = elim (Option-cases (get s.next_id s.expenses)) [
  | inl n ↦ n
  | inr (e, here) ↦ absurd (omega (arith, fresh.at s.next_id e here))
]

module _ (req : Request) (competence : Date) where
  -- The state after a round; the template has its expense, and no other has lost one.
  round-AreFresh :
      (r : ℕ × Template) (s : State) → AreFresh s → AreFresh (generate_one req competence r s).1
  unfolding generate_one ◌>>=◌
  round-AreFresh r s fresh = elim (Bool-cases (is_generated req.tenant r.0 competence s.expenses)) [
    | inl there ↦ subst AreFresh (ground arith) fresh
    | inr new ↦ record {
      at = λ k e g. ground (
        arith,
        get-put k s.next_id (generated_expense req competence r) s.expenses,
        fresh.at k e,
      );
    }
  ]

  round-keeps :
      (r : ℕ × Template) (s : State) (tenant template : ℕ)
      → AreFresh s
      → is_generated tenant template competence s.expenses ≡ true
      → is_generated tenant template competence (generate_one req competence r s).1.expenses ≡ true
  unfolding generate_one is_generated ◌>>=◌
  round-keeps r s tenant template fresh h = ground (
    arith,
    find_row-put_new
        (λ k e.
          e.tenant == tenant
          && is_id e.recurring_template template
          && same_date e.competence_date competence)
        s.next_id (generated_expense req competence r) s.expenses (unused s fresh),
  )

  round-generates :
      (r : ℕ × Template) (s : State)
      → AreFresh s
      → is_generated req.tenant r.0 competence (generate_one req competence r s).1.expenses ≡ true
  unfolding generate_one is_generated generated_expense ◌>>=◌
  round-generates r s fresh = ground (
    arith,
    find_row-put_new
        (λ k e.
          e.tenant == req.tenant
          && is_id e.recurring_template r.0
          && same_date e.competence_date competence)
        s.next_id (generated_expense req competence r) s.expenses (unused s fresh),
  )

  round-ok : (r : ℕ × Template) (s : State) → (n : ℕ) × ((generate_one req competence r s).0 ≡ ok n)
  unfolding generate_one ◌>>=◌
  round-ok r s = elim (Bool-cases (is_generated req.tenant r.0 competence s.expenses)) [
    | inl there ↦ (0, ground arith)
    | inr new ↦ (1, ground arith)
  ]

  round-templates :
      (r : ℕ × Template) (s : State) → (generate_one req competence r s).1.templates ≡ s.templates
  unfolding generate_one ◌>>=◌
  round-templates r s = ground arith

  -- The state after the loop.
  abbrev after_all : Dict Template → State → State
  after_all rs s = (generate_all req competence rs s).1

  -- A round never throws, so the loop goes on from what it leaves.
  loop-step :
      (r : ℕ × Template) (rs : Dict Template) (s : State)
      → after_all (r ∷ rs) s ≡ after_all rs (generate_one req competence r s).1
  unfolding generate_all ◌>>=◌
  loop-step r rs s = let (n, done) = round-ok r s in ground arith

  loop-keeps :
      (rs : Dict Template) (s : State) (tenant template : ℕ)
      → AreFresh s
      → is_generated tenant template competence s.expenses ≡ true
      → is_generated tenant template competence (after_all rs s).expenses ≡ true
  unfolding generate_all ◌>>=◌
  loop-keeps [] s tenant template fresh h = h
  loop-keeps (r ∷ rs) s tenant template fresh h =
      subst (λ t. is_generated tenant template competence t.expenses ≡ true)
        (sym (loop-step r rs s))
        (loop-keeps rs (generate_one req competence r s).1 tenant template
          (round-AreFresh r s fresh) (round-keeps r s tenant template fresh h))

  loop-generates :
      (rs : Dict Template) (s : State)
      → AreFresh s
      → all_generated req.tenant competence rs (after_all rs s) ≡ true
  unfolding all_generated
  loop-generates [] s fresh = refl
  loop-generates (r ∷ rs) s fresh =
      let t : State = (generate_one req competence r s).1 in
      let first =
        loop-keeps rs t req.tenant r.0 (round-AreFresh r s fresh) (round-generates r s fresh) in
      let others = loop-generates rs t (round-AreFresh r s fresh) in
      subst
        (λ u.
          (is_generated req.tenant r.0 competence u.expenses
            && all_generated req.tenant competence rs u)
          ≡ true)
        (sym (loop-step r rs s)) (ground (arith, first, others))

  loop-templates : (rs : Dict Template) (s : State) → (after_all rs s).templates ≡ s.templates
  unfolding generate_all ◌>>=◌
  loop-templates [] s = refl
  loop-templates (r ∷ rs) s =
      ap (λ (u : State). u.templates) (loop-step r rs s)
      ∙ loop-templates rs (generate_one req competence r s).1
      ∙ round-templates r s

  loop-again :
      (rs : Dict Template) (s : State)
      → all_generated req.tenant competence rs s ≡ true
      → generate_all req competence rs s ≡ (ok 0, s)
  unfolding generate_all generate_one all_generated ◌>>=◌
  loop-again [] s h = refl
  loop-again (r ∷ rs) s h = ground (arith, loop-again rs s)

  loop-ok :
      (rs : Dict Template) (s : State)
      → (n : ℕ) × (generate_all req competence rs s ≡ (ok n, after_all rs s))
  unfolding generate_all ◌>>=◌
  loop-ok [] s = (0, refl)
  loop-ok (r ∷ rs) s =
      let (n, one) = round-ok r s in
      let (m, rest) = loop-ok rs (generate_one req competence r s).1 in
      (n + m, ground (arith, rest))

-- Generating a month again, in a run of its own, creates nothing: every template that was due is
-- skipped, and the books stay as they are.
pub generate_twice :
    (env : Env) (req : Request) (body : GenerateRecurringExpensesDto) (s s' : State)
    (g : Generation)
    → ((t : State) → env.between t ≡ t)
    → AreFresh s
    → generate_recurring env req body s ≡ (ok g, s')
    → generate_recurring env req body s'
      ≡ (ok (record g { created = 0; skipped = g.templates }), s')
unfolding generate_recurring parse_date due_templates ◌>>=◌
generate_twice env req body s s' g quiet fresh e = elim (Option-cases body.competence) [
  | inl n ↦ absurd (ground arith)
  | inr (d, p) ↦
      let c : Date = month_start d in
      let rs : Dict Template = keep (λ r. is_due req.tenant c r.1) s.templates in
      let (n, ran) = loop-ok req c rs s in
      let templates = loop-templates req c rs s in
      let again = loop-again req c rs (after_all req c rs s) (loop-generates req c rs s fresh) in
      ground (arith, ran, again, templates, quiet s, quiet s')
]
