-- ===== src/Catalog/Listings.antt =====
-- backend/src/catalog.controller.ts: the listings of categories, products and tables. How the
-- database orders rows by name or label (its collation) is a parameter, a function of the rows.
use comandas_multitenant_off.Prelude.{
  is_id, ℕ, ◌≡◌, ap, subst, ◌∙◌, inl, inr, Bool, true, Option, none, some, List, [], ◌∷◌, map,
  arith, ◌==◌, ◌&&◌, ◌||◌, not, is_some, Option-cases,
}
use comandas_multitenant_off.Prelude.Dict.{Dict, get, find_row, find_row-none, find_row-some}
use comandas_multitenant_off.Prelude.Lists.{keep}
use comandas_multitenant_off.Http.{Result}
use comandas_multitenant_off.Store.{State, Order, Product, DiningTable, is_final}
use comandas_multitenant_off.Store.Books.{Category}
use comandas_multitenant_off.Pagination.{Limit, Page, list_page}
use comandas_multitenant_off.Pagination.Cuts.{IsUnique}
use comandas_multitenant_off.Orders.Lifecycle.Tables.{IsExclusive, SeatedAt}

-- `showAll` is the query's `all`, 'true' or '1'.
unfoldable pub list_categories : (Dict Category → Dict Category) → Bool → ℕ → State → Dict Category
list_categories sort show_all tenant s =
    sort (keep (λ r. r.1.tenant == tenant && (show_all || r.1.active)) s.categories)

in_category : Option ℕ → Product → Bool
in_category none p = true
in_category (some c) p = is_id p.category c

unfoldable pub list_products :
    (Dict Product → Dict Product)
    → Bool
    → Option ℕ
    → Limit
    → Option ℕ
    → ℕ
    → State
    → Result (Page Product)
unfolding in_category
list_products sort show_all category limit cursor tenant s =
    list_page
      (sort (
        keep
          (λ r.
            r.1.tenant == tenant
            && (show_all || r.1.active && r.1.available)
            && in_category category r.1)
          s.products))
      limit cursor

-- `t.orders[0] ?? null`
unfoldable pub active_order : ℕ → ℕ → State → Option (ℕ × Order)
active_order tenant id s =
    find_row (λ k o. is_id o.table_id id && o.tenant == tenant && not (is_final o.status)) s.orders

pub record TableRow : Type 0 where
  pub id : ℕ
  pub table : DiningTable
  pub is_occupied : Bool
  pub active_order : Option (ℕ × Order)

table_row : ℕ → State → ℕ × DiningTable → TableRow
table_row tenant s (id, t) = record {
  id = id;
  table = t;
  is_occupied = is_some (active_order tenant id s);
  active_order = active_order tenant id s;
}

unfoldable pub list_tables :
    (Dict DiningTable → Dict DiningTable) → Bool → ℕ → State → List TableRow
unfolding table_row
list_tables sort show_all tenant s =
    map (table_row tenant s)
      (sort (keep (λ r. r.1.tenant == tenant && (show_all || r.1.active)) s.tables))

find_row-get :
    (p : ℕ → Order → Bool) (d : Dict Order) (k : ℕ) (o : Order)
    → IsUnique d
    → find_row p d ≡ some (k, o)
    → get k d ≡ some o
unfolding find_row get IsUnique
find_row-get p [] k o u h = cc
find_row-get p ((j, x) ∷ d) k o (fresh, u) h = ground (arith, find_row-get p d k o u)

active_order_lem :
    (tenant t k : ℕ) (o : Order) (s : State)
    → IsUnique s.orders
    → IsExclusive s.orders
    → get k s.orders ≡ some o
    → o.tenant ≡ tenant
    → SeatedAt t o
    → active_order tenant t s ≡ some (k, o)
unfolding active_order
active_order_lem tenant t k o s u h here owned seated =
    elim (Option-cases (
      find_row (λ k o. is_id o.table_id t && o.tenant == tenant && not (is_final o.status))
        s.orders)) [
          | inl none_there ↦ absurd (
              ground (
                arith,
                find_row-none
                    (λ k o. is_id o.table_id t && o.tenant == tenant && not (is_final o.status))
                    s.orders k o none_there here,
              ))
          | inr ((j, q), found) ↦
              let p : ℕ → Order → Bool =
                λ k o. is_id o.table_id t && o.tenant == tenant && not (is_final o.status) in
              let there : get j s.orders ≡ some q = find_row-get p s.orders j q u found in
              let fits : p j q ≡ true = find_row-some p s.orders j q found in
              let one : j ≡ k =
                h.at j k t q o there here (ground arith) (ground arith, ground arith) seated in
              ground (arith, one)
        ]

-- A row stands in the listing.
pub data Among (x : TableRow) : List TableRow → Type 0 where
  first : {y : TableRow} {xs : List TableRow} → x ≡ y → Among x (y ∷ xs)
  later : {y : TableRow} {xs : List TableRow} → Among x xs → Among x (y ∷ xs)

Among-map :
    (tenant : ℕ) (s : State) (x : TableRow) (d : Dict DiningTable)
    → Among x (map (table_row tenant s) d)
    → (t : ℕ × DiningTable) × (x ≡ table_row tenant s t)
Among-map tenant s x [] m = elim m [ ]
Among-map tenant s x (t ∷ d) (first same) = (t, same)
Among-map tenant s x (t ∷ d) (later m) = Among-map tenant s x d m

-- Where an order is open at a table of the tenant, and no table has two, any row that the listing
-- has for the table shows that order, and the table as occupied.
pub list_tables_lem :
    (sort : Dict DiningTable → Dict DiningTable) (show_all : Bool) (tenant k : ℕ) (o : Order)
    (s : State) (row : TableRow)
    → IsUnique s.orders
    → IsExclusive s.orders
    → get k s.orders ≡ some o
    → o.tenant ≡ tenant
    → Among row (list_tables sort show_all tenant s)
    → SeatedAt row.id o
    → (row.active_order ≡ some (k, o)) × (row.is_occupied ≡ true)
unfolding list_tables table_row
list_tables_lem sort show_all tenant k o s row u h here owned listed seated =
    let ((t, table), same) =
      Among-map tenant s row
        (sort (keep (λ r. r.1.tenant == tenant && (show_all || r.1.active)) s.tables)) listed in
    let q : row.id ≡ t = ap (λ r. r.id) same in
    let shown : active_order tenant t s ≡ some (k, o) =
      active_order_lem tenant t k o s u h here owned (subst (λ i. SeatedAt i o) q seated) in
    (ap (λ r. r.active_order) same ∙ shown, ap (λ r. r.is_occupied) same ∙ ap is_some shown)
