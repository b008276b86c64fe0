-- ===== src/Catalog/Labels.antt =====
-- The labels of the tables when a row is written: backend/src/catalog.controller.ts.
use text.Mathlib.Text.{◌==◌ as str_eq}
use text.Mathlib.TextEquality.{eq_iff}
use comandas_multitenant_off.Prelude.{
  subst, ℕ, ◌≡◌, inl, inr, refl, ◌∙◌, true, false, none, some, arith, ◌==◌, ◌&&◌, not, Bool-cases,
  Option-cases,
}
use comandas_multitenant_off.Prelude.Dict.{Dict, get, put, find_row, get-put, find_row-none}
use comandas_multitenant_off.Prelude.Trim.{trim}
use comandas_multitenant_off.Store.{State, DiningTable}
use comandas_multitenant_off.Dto.Catalog.{UpdateTableDto}
use comandas_multitenant_off.Catalog.{or_same}
use comandas_multitenant_off.Catalog.Tables.{
  find_any_table, has_label, write_table, label_taken, change_table, is_duplicate,
}

-- Two active tables of a tenant with one label are one table.
pub record HasUniqueLabels (m : Dict DiningTable) : Type 0 where
  pub at :
      (i j : ℕ) (t u : DiningTable)
      → get i m ≡ some t
      → get j m ≡ some u
      → t.tenant ≡ u.tenant
      → t.active ≡ true
      → u.active ≡ true
      → t.label ≡ u.label
      → i ≡ j

pub record HasFreeLabel (k : ℕ) (n : DiningTable) (m : Dict DiningTable) : Type 0 where
  pub at :
      (j : ℕ) (u : DiningTable)
      → get j m ≡ some u
      → u.tenant ≡ n.tenant
      → u.active ≡ true
      → n.active ≡ true
      → u.label ≡ n.label
      → j ≡ k

pub put-HasUniqueLabels :
    (k : ℕ) (n : DiningTable) (m : Dict DiningTable)
    → HasUniqueLabels m
    → HasFreeLabel k n m
    → HasUniqueLabels (put k n m)
put-HasUniqueLabels k n m h free = record {
  at = λ i j t u gi gj same_tenant on_t on_u same_label.
      ground (arith, get-put i k n m, get-put j k n m, h.at i j t u, free.at i t, free.at j u);
}

pub free_label :
    (tenant : ℕ) (n : DiningTable) (k : ℕ) (s : State)
    → n.tenant ≡ tenant
    → label_taken tenant n.label s ≡ false
    → HasFreeLabel k n s.tables
unfolding label_taken
free_label tenant n k s owned free = record {
  at = λ j u g same_tenant on_u on_n same_label.
      elim (Option-cases
        (find_row (λ i t. t.tenant == tenant && str_eq t.label n.label && t.active) s.tables)) [
          | inr (row, found) ↦ absurd (ground arith)
          | inl clear ↦ absurd (
              ground (
                arith,
                eq_iff u.label n.label,
                find_row-none (λ i t. t.tenant == tenant && str_eq t.label n.label && t.active)
                    s.tables j u clear g,
              ))
        ];
}

other_label :
    (tenant : ℕ) (n : DiningTable) (k : ℕ) (s : State)
    → n.tenant ≡ tenant
    → has_label tenant n.label k s ≡ false
    → HasFreeLabel k n s.tables
unfolding has_label
other_label tenant n k s owned free = record {
  at = λ j u g same_tenant on_u on_n same_label.
      elim (Option-cases (
        find_row (λ i t. t.tenant == tenant && str_eq t.label n.label && t.active && not (i == k))
          s.tables)) [
            | inr (row, found) ↦ absurd (ground arith)
            | inl clear ↦ ground (
              arith,
              eq_iff u.label n.label,
              find_row-none
                  (λ i t. t.tenant == tenant && str_eq t.label n.label && t.active && not (i == k))
                  s.tables j u clear g,
            )
          ];
}

-- The written row has the label, tenant and at most the activity of a row that was there.
same_label_free :
    (k : ℕ) (t n : DiningTable) (m : Dict DiningTable)
    → HasUniqueLabels m
    → get k m ≡ some t
    → n.tenant ≡ t.tenant
    → n.label ≡ t.label
    → (n.active ≡ true → t.active ≡ true)
    → HasFreeLabel k n m
same_label_free k t n m h here same_tenant same_label at_most = record {
  at = λ j u g st on_u on_n sl.
      h.at j k u t g here (st ∙ same_tenant) on_u (at_most on_n) (sl ∙ same_label);
}

module _ (tenant id : ℕ) (s : State) (h : HasUniqueLabels s.tables) where
  found-here :
      (t : DiningTable)
      → find_any_table tenant id s ≡ some t
      → (get id s.tables ≡ some t) × (t.tenant ≡ tenant)
  unfolding find_any_table
  found-here t e = ground arith

  rewrite_keeps :
      (t : DiningTable) (f : DiningTable → DiningTable)
      → get id s.tables ≡ some t
      → HasFreeLabel id (f t) s.tables
      → HasUniqueLabels (write_table id f s).1.tables
  unfolding write_table
  rewrite_keeps t f here free =
      subst HasUniqueLabels (ground arith) (put-HasUniqueLabels id (f t) s.tables h free)

  pub update_keeps :
      (body : UpdateTableDto) (t : DiningTable)
      → find_any_table tenant id s ≡ some t
      → is_duplicate tenant id body.label t s ≡ false
      → (not t.active && or_same body.active false) ≡ false
      → HasUniqueLabels (write_table id (change_table body) s).1.tables
  unfolding is_duplicate change_table
  update_keeps body t found fresh stays =
      let (here, owned) = found-here t found in
      rewrite_keeps t (change_table body) here (elim (Option-cases body.label) [
        | inl none_new ↦
            same_label_free id t (change_table body t) s.tables h here refl (ground arith)
              (λ e. ground arith)
        | inr (l, new) ↦ elim (Bool-cases (str_eq (trim l) t.label)) [
          | inl old ↦
              same_label_free id t (change_table body t) s.tables h here refl
                (ground (arith, eq_iff (trim l) t.label)) (λ e. ground arith)
          | inr other ↦ other_label tenant (change_table body t) id s owned (ground arith)
        ]
      ])

  write_table-gone :
      (f : DiningTable → DiningTable)
      → get id s.tables ≡ none
      → s.tables ≡ (write_table id f s).1.tables
  unfolding write_table
  write_table-gone f gone = ground arith

  pub relabel_free :
      (f : DiningTable → DiningTable)
      → ((t : DiningTable) → (f t).tenant ≡ t.tenant)
      → ((t : DiningTable) → (f t).label ≡ t.label)
      → ((t : DiningTable) → (f t).active ≡ true → t.active ≡ true)
      → HasUniqueLabels (write_table id f s).1.tables
  relabel_free f same_tenant same_label at_most = elim (Option-cases (get id s.tables)) [
    | inl gone ↦ subst HasUniqueLabels (write_table-gone f gone) h
    | inr (t, here) ↦
        rewrite_keeps t f here
          (same_label_free id t (f t) s.tables h here (same_tenant t) (same_label t) (at_most t))
  ]
