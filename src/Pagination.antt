-- ===== src/Pagination.antt =====
-- backend/src/pagination.ts, with the database's cursor: a listing is a list of rows in the order
-- of the query, `skip: 1, cursor: { id }` starts after the row of that id, and `take` cuts it. A
-- limit is the number that `Number(limit)` gives, or `none` where that is no natural number.
pub mod Cuts
pub mod Pages
mod Tests
use comandas_multitenant_off.Prelude.{
  ℕ, ◌+◌, zero, suc, ◌==◌, Bool, true, false, Option, none, some, List, [], ◌∷◌, ◌++◌, ◌||◌, ltb,
  leb, or_else, if◌then◌else◌,
}
use comandas_multitenant_off.Prelude.Lists.{length, last?, drop_last}
use comandas_multitenant_off.Prelude.Dict.{Dict}
use comandas_multitenant_off.Http.{Result, ok, err, bad_request, bad_limit}

-- `limit?: string` as a number: `given none` is a text that is no natural number
pub data Limit : Type 0 where
  missing : Limit
  given : Option ℕ → Limit

pub record PageArgs : Type 0 where
  pub take : ℕ
  pub cursor : Option ℕ

checked_limit : ℕ → Option ℕ → Result PageArgs
checked_limit parsed cursor =
    if ltb parsed 1 || ltb 100 parsed
    then err (bad_request bad_limit)
    else ok (record { take = parsed + 1; cursor = cursor })

-- `pageArgs`
unfoldable pub page_args : Limit → Option ℕ → Result PageArgs
unfolding checked_limit
page_args missing cursor = checked_limit 50 cursor
page_args (given none) cursor = err (bad_request bad_limit)
page_args (given (some n)) cursor = checked_limit n cursor

unfoldable pub page_size : Limit → ℕ
page_size missing = 50
page_size (given none) = 0
page_size (given (some n)) = n

module _ {A : Type 0} where
  unfoldable pub take : ℕ → Dict A → Dict A
  take zero xs = []
  take (suc n) [] = []
  take (suc n) (x ∷ xs) = x ∷ take n xs

  -- the rows after the one with the id of the cursor
  unfoldable pub after : ℕ → Dict A → Dict A
  after id [] = []
  after id ((j, x) ∷ xs) = if j == id then xs else after id xs

  -- `findMany({ ..., take, skip: 1, cursor })`
  unfoldable pub find_many : PageArgs → Dict A → Dict A
  find_many p rows = elim p.cursor [
    | none ↦ take p.take rows
    | some id ↦ take p.take (after id rows)
  ]

pub record Page (A : Type 0) : Type 0 where
  pub rows : Dict A
  pub next_cursor : Option ℕ

module _ {A : Type 0} where
  unfoldable pub last_id : Option (ℕ × A) → Option ℕ
  last_id none = none
  last_id (some (j, x)) = some j

  -- `pageResult`: the row beyond the page shows that there is a next one
  unfoldable pub page_result : Dict A → Limit → Page A
  unfolding last_id
  page_result rows limit =
      if ltb (page_size limit) (length rows)
      then record { rows = drop_last rows; next_cursor = last_id (last? (drop_last rows)) }
      else record { rows = rows; next_cursor = none }

  -- A listing's handler: the arguments, the query and the page.
  unfoldable pub list_page : Dict A → Limit → Option ℕ → Result (Page A)
  list_page rows limit cursor = elim (page_args limit cursor) [
    | err e ↦ err e
    | ok p ↦ ok (page_result (find_many p rows) limit)
  ]

  -- A client that follows the cursors, on fuel.
  unfoldable pub follow : ℕ → Dict A → Limit → Option ℕ → Option (Dict A)
  follow zero rows limit cursor = none
  follow (suc n) rows limit cursor = elim (list_page rows limit cursor) [
    | err e ↦ none
    | ok p ↦ elim p.next_cursor [
      | none ↦ some p.rows
      | some id ↦ elim (follow n rows limit (some id)) [
        | none ↦ none
        | some xs ↦ some (p.rows ++ xs)
      ]
    ]
  ]
