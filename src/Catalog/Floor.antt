-- ===== src/Catalog/Floor.antt =====
-- The labels of the tables: backend/src/catalog.controller.ts, the endpoints of /v1/tables.
use comandas_multitenant_off.Prelude.{ℕ, ◌≡◌, Bool, false, Option, none, some, ◌&&◌, not}
use comandas_multitenant_off.Prelude.Trim.{trim}
use comandas_multitenant_off.Store.{State, DiningTable}
use comandas_multitenant_off.Dto.Catalog.{CreateTableDto, UpdateTableDto, UpdateTableLayoutDto}
use comandas_multitenant_off.Catalog.{or_same}
use comandas_multitenant_off.Catalog.Tables.{
  find_any_table, label_taken, create_table, update_table, update_table_layout, delete_table,
  is_duplicate,
}

-- A request to the tables' endpoints.
pub data TableCall : Type 0 where
  creating : CreateTableDto → TableCall
  updating : ℕ → UpdateTableDto → TableCall
  laying_out : ℕ → UpdateTableLayoutDto → TableCall
  deleting : ℕ → TableCall

-- `between` is what other requests commit between the looks of the handler and its write.
unfoldable pub serve_table : (State → State) → TableCall → ℕ → State → State
serve_table between (creating body) tenant s = (create_table between tenant body s).1
serve_table between (updating id body) tenant s = (update_table between tenant id body s).1
serve_table between (laying_out id body) tenant s = (update_table_layout between tenant id body s).1
serve_table between (deleting id) tenant s = (delete_table between tenant id s).1

-- What the handler looked up about the label, and the row whose label it changes, are in the second
-- state as in the first.
unfoldable pub LooksSame : TableCall → ℕ → State → State → Type 0
LooksSame (creating body) tenant s u =
    label_taken tenant (trim body.label) u ≡ label_taken tenant (trim body.label) s
LooksSame (updating id body) tenant s u =
    (find_any_table tenant id u ≡ find_any_table tenant id s)
    × ((t : DiningTable)
        → is_duplicate tenant id body.label t u ≡ is_duplicate tenant id body.label t s)
LooksSame call tenant s u = Unit {0}

-- What the request turns back into an active table.
reopens_table : UpdateTableDto → Option DiningTable → Bool
reopens_table body none = false
reopens_table body (some t) = not t.active && or_same body.active false

-- The request makes an inactive table active again.
unfoldable pub reopens : TableCall → ℕ → State → Bool
unfolding reopens_table
reopens (updating id body) tenant s = reopens_table body (find_any_table tenant id s)
reopens call tenant s = false
