-- ===== src/Catalog/Occupancy.antt =====
-- What `updateTable` of backend/src/catalog.controller.ts lets through.
use comandas_multitenant_off.Prelude.{ℕ, ◌≡◌, Bool, true, false, none, some, arith}
use comandas_multitenant_off.Prelude.Dict.{get, put, get-put, get-put_self}
use comandas_multitenant_off.Http.{ok, ◌>>=◌}
use comandas_multitenant_off.Store.{State, DiningTable}
use comandas_multitenant_off.Dto.Catalog.{UpdateTableDto}
use comandas_multitenant_off.Catalog.Tables.{
  find_any_table, write_table, update_table, change_table, is_duplicate, delete_table,
  has_open_order,
}
use comandas_multitenant_off.Catalog.Labels.{HasUniqueLabels}

-- `{ active }` alone
abbrev pub activity : Bool → UpdateTableDto
activity on = record {
  label = none;
  capacity = none;
  pos_x = none;
  pos_y = none;
  width = none;
  height = none;
  shape = none;
  active = some on;
}

-- A table with an open order is not deleted, whatever else is so, but it is made inactive by an
-- update, which does not look for orders.
pub update_table_skips_occupancy :
    (tenant id : ℕ) (t : DiningTable) (s : State)
    → find_any_table tenant id s ≡ some t
    → has_open_order tenant id s ≡ true
    → ((delete_table (λ u. u) tenant id s).1 ≡ s)
      × (update_table (λ u. u) tenant id (activity false) s ≡ (
        ok (record t { active = false }),
        record s { tables = put id (record t { active = false }) s.tables },
      ))
unfolding update_table delete_table write_table change_table find_any_table is_duplicate ◌>>=◌
update_table_skips_occupancy tenant id t s found busy = ground arith

-- A table that is made active again is not compared with the other tables: where another active
-- table of the tenant has taken its label meanwhile, two active tables have the label.
pub reopened_table_duplicates :
    (tenant id j : ℕ) (t u : DiningTable) (s : State)
    → find_any_table tenant id s ≡ some t
    → t.active ≡ false
    → get j s.tables ≡ some u
    → u.tenant ≡ t.tenant
    → u.active ≡ true
    → u.label ≡ t.label
    → ¬ (HasUniqueLabels (update_table (λ v. v) tenant id (activity true) s).1.tables)
unfolding update_table write_table change_table find_any_table is_duplicate ◌>>=◌
reopened_table_duplicates tenant id j t u s found off here same_tenant on same_label h = ground (
  arith,
  h.at j id u (record t { active = true }),
  get-put j id (record t { active = true }) s.tables,
  get-put_self id (record t { active = true }) s.tables,
)
