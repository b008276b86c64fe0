-- ===== src/Catalog/Tests.antt =====
-- The tables of a small establishment, and the theorems about them at its rows.
use comandas_multitenant_off.Catalog.Races.{create_race_duplicates}
use comandas_multitenant_off.Prelude.Trim.{trim}
use comandas_multitenant_off.Dto.Catalog.{CreateTableDto}
use comandas_multitenant_off.Catalog.Labels.{HasUniqueLabels}
use comandas_multitenant_off.Prelude.{
  none, suc, ◌≡◌, refl, String, Bool, true, false, some, [], ◌∷◌, arith,
}
use comandas_multitenant_off.Prelude.Dict.{Dict, find_row, get}
use comandas_multitenant_off.Store.{State, DiningTable, Shape, opened}
use comandas_multitenant_off.Catalog.Tables.{label_taken}
use comandas_multitenant_off.Catalog.Floor.{creating, serve_table}
use comandas_multitenant_off.Catalog.Listings.{
  TableRow, first, active_order, list_tables, list_tables_lem,
}
use comandas_multitenant_off.Pagination.Cuts.{IsUnique}
use comandas_multitenant_off.Orders.Lifecycle.Tables.{IsExclusive}
use comandas_multitenant_off.Orders.Tests.{bar}
use comandas_multitenant_off.Orders.Witnesses.{order_in}

abbrev called : String → Bool → DiningTable
called label on = record {
  tenant = 1;
  label = label;
  capacity = 4;
  position_x = 0;
  position_y = 0;
  width = 120;
  height = 120;
  shape = Shape.square;
  active = on;
}

-- Table 3 is closed and 4 has its label now.
abbrev floor : State
floor = record bar { tables = (3, called "Mesa 3" false) ∷ (4, called "Mesa 3" true) ∷ [] }

-- Table 3 has an open order.
abbrev busy : State
busy = record bar {
  tables = (3, called "Mesa 3" true) ∷ [];
  orders = (9, record (order_in opened) { table_id = some 3 }) ∷ [];
}

one_order : IsExclusive busy.orders
unfolding get
one_order = record { at = λ i j t o p gi gj same so sp. ground arith }

-- Another request takes an id meanwhile.
abbrev busy_elsewhere : State → State
busy_elsewhere s = record s { next_id = suc s.next_id }

abbrev corner : CreateTableDto
corner = record {
  label = "Canto";
  capacity = none;
  pos_x = none;
  pos_y = none;
  width = none;
  height = none;
  shape = none;
}

create_race_duplicates_example : ¬ (
    HasUniqueLabels
      (serve_table
        (λ u. serve_table (λ v. v) (creating corner) 1 u)
        (creating corner)
        1
        floor).tables)
unfolding label_taken find_row trim
create_race_duplicates_example = create_race_duplicates 1 corner floor refl

abbrev by_id : Dict DiningTable → Dict DiningTable
by_id d = d

abbrev shown : TableRow
shown = record {
  id = 3;
  table = called "Mesa 3" true;
  is_occupied = true;
  active_order = some (9, record (order_in opened) { table_id = some 3 });
}

list_tables_lem_example :
    (shown.active_order ≡ some (9, record (order_in opened) { table_id = some 3 }))
    × (shown.is_occupied ≡ true)
unfolding IsUnique get list_tables active_order find_row
list_tables_lem_example =
    list_tables_lem by_id false 1 9 (record (order_in opened) { table_id = some 3 }) busy shown
      (refl, tt) one_order refl refl (first refl) (refl, refl)
