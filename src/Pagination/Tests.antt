-- ===== src/Pagination/Tests.antt =====
-- A client that reads a listing of three rows in pages of two.
use comandas_multitenant_off.Prelude.{ℕ, ◌≡◌, refl, none, some, [], ◌∷◌, arith}
use comandas_multitenant_off.Prelude.Dict.{Dict, get}
use comandas_multitenant_off.Pagination.{given, page_args, follow, after, PageArgs}
use comandas_multitenant_off.Pagination.Cuts.{IsUnique, rest_of}
use comandas_multitenant_off.Pagination.Pages.{follow-whole}

abbrev three_rows : Dict ℕ
three_rows = (7, 70) ∷ (5, 50) ∷ (3, 30) ∷ []

abbrev pairs : PageArgs
pairs = record { take = 3; cursor = none }

follow-whole_example : follow 4 three_rows (given (some 2)) none ≡ some three_rows
unfolding page_args IsUnique get rest_of after
follow-whole_example =
    follow-whole 3 three_rows (given (some 2)) none pairs refl (refl, (refl, (refl, tt)))
      (omega arith)
