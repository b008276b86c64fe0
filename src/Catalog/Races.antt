-- ===== src/Catalog/Races.antt =====
-- Two requests that create a table at once: backend/src/catalog.controller.ts, `createTable`.
use comandas_multitenant_off.Prelude.{ℕ, suc, ◌≡◌, false, some, refl, subst, ◌∙◌, ap, arith}
use comandas_multitenant_off.Prelude.Dict.{get, put, get-put, get-put_self}
use comandas_multitenant_off.Prelude.Trim.{trim}
use comandas_multitenant_off.Http.{◌>>=◌}
use comandas_multitenant_off.Store.{State, DiningTable}
use comandas_multitenant_off.Dto.Catalog.{CreateTableDto}
use comandas_multitenant_off.Catalog.Tables.{label_taken, create_table, insert_table, new_table}
use comandas_multitenant_off.Catalog.Floor.{creating, serve_table}
use comandas_multitenant_off.Catalog.Labels.{HasUniqueLabels}

create_table-writes :
    (between : State → State) (tenant : ℕ) (body : CreateTableDto) (s : State)
    → label_taken tenant (trim body.label) s ≡ false
    → ((create_table between tenant body s).1.tables
        ≡ put (between s).next_id (new_table tenant body) (between s).tables)
      × ((create_table between tenant body s).1.next_id ≡ suc (between s).next_id)
unfolding create_table insert_table ◌>>=◌
create_table-writes between tenant body s free = rw free (refl, refl)

-- Where the label is free, and the same request is served between the look of a request at it and
-- its write, both create a table: two active tables of the tenant have one label.
pub create_race_duplicates :
    (tenant : ℕ) (body : CreateTableDto) (s : State)
    → label_taken tenant (trim body.label) s ≡ false
    → ¬ (
        HasUniqueLabels
          (serve_table
            (λ u. serve_table (λ v. v) (creating body) tenant u)
            (creating body)
            tenant
            s).tables)
unfolding serve_table new_table
create_race_duplicates tenant body s free h =
    let n : ℕ = s.next_id in
    let t : DiningTable = new_table tenant body in
    let once = create_table-writes (λ v. v) tenant body s free in
    let twice =
      create_table-writes (λ u. serve_table (λ v. v) (creating body) tenant u) tenant body s free in
    let both : HasUniqueLabels (put (suc n) t (put n t s.tables)) =
      subst HasUniqueLabels
        (twice.0
          ∙ ap (λ m. put (create_table (λ v. v) tenant body s).1.next_id t m) once.0
          ∙ ap (λ k. put k t (put n t s.tables)) once.1)
        h in
    let first : get n (put (suc n) t (put n t s.tables)) ≡ some t =
      ground (arith, get-put n (suc n) t (put n t s.tables), get-put_self n t s.tables) in
    let one : n ≡ suc n =
      both.at n (suc n) t t first (get-put_self (suc n) t (put n t s.tables)) refl refl refl refl in
    omega (arith, one)
