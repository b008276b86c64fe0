-- ===== src/Catalog/Tables.antt =====
-- backend/src/catalog.controller.ts: the endpoints of /v1/tables that write.
use text.Mathlib.Text.{◌==◌ as str_eq}
use comandas_multitenant_off.Prelude.{
  is_id, ℕ, suc, String, Bool, true, false, Option, none, some, ◌==◌, ◌&&◌, not, is_some, or_else,
  if◌then◌else◌,
}
use comandas_multitenant_off.Prelude.Dict.{get, put, find_row}
use comandas_multitenant_off.Prelude.Trim.{trim}
use comandas_multitenant_off.Http.{
  ok, err, not_found, conflict, record_missing, table_not_found, table_duplicate, table_occupied,
  Exec, raise_if, gets, or_raise, modify, ◌>>=◌, ◌>>◌,
}
use comandas_multitenant_off.Store.{State, DiningTable, square, is_final}
use comandas_multitenant_off.Dto.Catalog.{CreateTableDto, UpdateTableDto, UpdateTableLayoutDto}
use comandas_multitenant_off.Catalog.{or_same}

-- `diningTable.findFirst({ where: { id, tenantId } })`, active or not
unfoldable pub find_any_table : ℕ → ℕ → State → Option DiningTable
find_any_table tenant id s = elim (get id s.tables) [
  | none ↦ none
  | some t ↦ if t.tenant == tenant then some t else none
]

-- another table than `id` has the label, of the active ones
unfoldable pub has_label : ℕ → String → ℕ → State → Bool
has_label tenant label id s = is_some (
    find_row (λ k t. t.tenant == tenant && str_eq t.label label && t.active && not (k == id))
      s.tables)

-- `diningTable.create`
unfoldable pub insert_table : DiningTable → Exec State (ℕ × DiningTable)
insert_table t s =
    (ok (s.next_id, t), record s { next_id = suc s.next_id; tables = put s.next_id t s.tables })

-- `diningTable.update({ where: { id } })`
unfoldable pub write_table : ℕ → (DiningTable → DiningTable) → Exec State DiningTable
write_table id f s = elim (get id s.tables) [
  | none ↦ (err record_missing, s)
  | some t ↦ (ok (f t), record s { tables = put id (f t) s.tables })
]

unfoldable pub new_table : ℕ → CreateTableDto → DiningTable
new_table tenant body = record {
  tenant = tenant;
  label = trim body.label;
  capacity = or_else body.capacity 4;
  position_x = or_else body.pos_x 0;
  position_y = or_else body.pos_y 0;
  width = or_else body.width 120;
  height = or_else body.height 120;
  shape = or_else body.shape square;
  active = true;
}

-- `findFirst({ where: { tenantId, label, active: true } })` names no id.
unfoldable pub label_taken : ℕ → String → State → Bool
label_taken tenant label s =
    is_some (find_row (λ k t. t.tenant == tenant && str_eq t.label label && t.active) s.tables)

unfoldable pub create_table : (State → State) → ℕ → CreateTableDto → Exec State (ℕ × DiningTable)
create_table between tenant body = do
  taken ← gets (label_taken tenant (trim body.label))
  raise_if taken (conflict table_duplicate)
  modify between
  insert_table (new_table tenant body)

unfoldable pub change_table : UpdateTableDto → DiningTable → DiningTable
change_table body t = record t {
  label = elim body.label [ none ↦ t.label | some l ↦ trim l ];
  capacity = or_same body.capacity t.capacity;
  position_x = or_same body.pos_x t.position_x;
  position_y = or_same body.pos_y t.position_y;
  width = or_same body.width t.width;
  height = or_same body.height t.height;
  shape = or_same body.shape t.shape;
  active = or_same body.active t.active;
}

-- A new label is looked up; the old one is not.
unfoldable pub is_duplicate : ℕ → ℕ → Option String → DiningTable → State → Bool
is_duplicate tenant id none t s = false
is_duplicate tenant id (some l) t s =
    if str_eq (trim l) t.label then false else has_label tenant (trim l) id s

unfoldable pub update_table : (State → State) → ℕ → ℕ → UpdateTableDto → Exec State DiningTable
unfolding is_duplicate
update_table between tenant id body = do
  found ← gets (find_any_table tenant id)
  t ← or_raise found (not_found table_not_found)
  duplicate ← gets (is_duplicate tenant id body.label t)
  raise_if duplicate (conflict table_duplicate)
  modify between
  write_table id (change_table body)

change_layout : UpdateTableLayoutDto → DiningTable → DiningTable
change_layout body t = record t {
  position_x = body.pos_x;
  position_y = body.pos_y;
  width = or_same body.width t.width;
  height = or_same body.height t.height;
  shape = or_same body.shape t.shape;
}

unfoldable pub update_table_layout :
    (State → State) → ℕ → ℕ → UpdateTableLayoutDto → Exec State DiningTable
unfolding change_layout
update_table_layout between tenant id body = do
  found ← gets (find_any_table tenant id)
  or_raise found (not_found table_not_found)
  modify between
  write_table id (change_layout body)

-- `order.findFirst({ where: { tableId, tenantId, status: { notIn: [...] } } })`, found or not
unfoldable pub has_open_order : ℕ → ℕ → State → Bool
has_open_order tenant id s = is_some (
    find_row (λ k o. is_id o.table_id id && o.tenant == tenant && not (is_final o.status)) s.orders)

unfoldable pub delete_table : (State → State) → ℕ → ℕ → Exec State DiningTable
delete_table between tenant id = do
  found ← gets (find_any_table tenant id)
  or_raise found (not_found table_not_found)
  occupied ← gets (has_open_order tenant id)
  raise_if occupied (conflict table_occupied)
  modify between
  write_table id (λ t. record t { active = false })
