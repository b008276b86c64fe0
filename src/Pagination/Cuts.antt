-- ===== src/Pagination/Cuts.antt =====
-- Where a page is cut from a listing: backend/src/pagination.ts.
use comandas_multitenant_off.Prelude.{
  ℕ, zero, suc, ◌≡◌, inl, inr, refl, ap, true, false, Option, none, some, [], ◌∷◌, ◌++◌, arith,
  ◌==◌, ltb, is_some, Bool-cases,
}
use comandas_multitenant_off.Prelude.Dict.{Dict, get}
use comandas_multitenant_off.Prelude.Lists.{length}
use comandas_multitenant_off.Prelude.Lists.{last?, drop_last}
use comandas_multitenant_off.Http.{ok}
use comandas_multitenant_off.Pagination.{
  Limit, missing, given, PageArgs, page_args, page_size, take, after,
}

module _ {A : Type 0} where
  -- No id stands twice.
  unfoldable pub IsUnique : Dict A → Type 0
  IsUnique [] = Unit
  IsUnique ((j, x) ∷ d) = (get j d ≡ none) × IsUnique d

  -- The rows that a request with the cursor is about.
  unfoldable pub rest_of : Option ℕ → Dict A → Dict A
  rest_of none rows = rows
  rest_of (some id) rows = after id rows

  pub drop_last-take :
      (n : ℕ) (xs : Dict A) → ltb n (length xs) ≡ true → drop_last (take (suc n) xs) ≡ take n xs
  unfolding take
  drop_last-take zero [] h = refl
  drop_last-take zero (x ∷ xs) h = refl
  drop_last-take (suc n) [] h = refl
  drop_last-take (suc n) (x ∷ []) h = absurd (ground arith)
  drop_last-take (suc n) (x ∷ y ∷ xs) h =
      ap (λ ys. x ∷ ys) (drop_last-take n (y ∷ xs) (ground arith))

  pub length-take_more :
      (n : ℕ) (xs : Dict A) → ltb n (length (take (suc n) xs)) ≡ ltb n (length xs)
  unfolding take
  length-take_more zero [] = refl
  length-take_more zero (x ∷ xs) = ground arith
  length-take_more (suc n) [] = refl
  length-take_more (suc n) (x ∷ xs) = ground (arith, length-take_more n xs)

  pub take_all : (n : ℕ) (xs : Dict A) → ltb n (length xs) ≡ false → take (suc n) xs ≡ xs
  unfolding take
  take_all zero [] h = refl
  take_all zero (x ∷ xs) h = absurd (ground arith)
  take_all (suc n) [] h = refl
  take_all (suc n) (x ∷ xs) h = ap (λ ys. x ∷ ys) (take_all n xs (ground arith))

  -- After the last id of a full page come the rows that the page leaves.
  pub record Splits (n : ℕ) (xs : Dict A) : Type 0 where
    pub id : ℕ
    pub row : A
    pub last : last? (take (suc n) xs) ≡ some (id, row)
    pub whole : xs ≡ take (suc n) xs ++ after id xs
    pub there : is_some (get id xs) ≡ true
    pub full : length (take (suc n) xs) ≡ suc n

  pub splits : (n : ℕ) (xs : Dict A) → IsUnique xs → ltb (suc n) (length xs) ≡ true → Splits n xs
  unfolding take after get IsUnique
  splits n [] u h = absurd (ground arith)
  splits n (x ∷ []) u h = absurd (ground arith)
  splits zero ((k, y) ∷ z ∷ ys) u h = record {
    id = k;
    row = y;
    last = refl;
    whole = ground arith;
    there = ground arith;
    full = refl;
  }
  splits (suc n) ((k, y) ∷ z ∷ ys) (fresh, u) h =
      let s = splits n (z ∷ ys) u (ground arith) in
      record {
        id = s.id;
        row = s.row;
        last = s.last;
        whole = ground (arith, s.whole, s.there);
        there = ground (arith, s.there);
        full = ap suc s.full;
      }

  -- A cursor that stands in the rest of a listing has the same rows after it there.
  pub after-after :
      (j id : ℕ) (rows : Dict A)
      → IsUnique rows
      → is_some (get j (after id rows)) ≡ true
      → (is_some (get j rows) ≡ true) × (after j rows ≡ after j (after id rows))
  unfolding after get IsUnique
  after-after j id [] u h = (h, refl)
  after-after j id ((k, y) ∷ ys) (fresh, u) h = elim (Bool-cases (k == id)) [
    | inl e ↦ (ground arith, ground arith)
    | inr e ↦
        let (here, same) = after-after j id ys u (ground arith) in
        (ground (arith, here), ground (arith, here, same))
  ]

  pub after-IsUnique : (id : ℕ) (rows : Dict A) → IsUnique rows → IsUnique (after id rows)
  unfolding after IsUnique
  after-IsUnique id [] u = u
  after-IsUnique id ((k, y) ∷ ys) (fresh, u) = elim (Bool-cases (k == id)) [
    | inl e ↦ rw e u
    | inr e ↦ rw e (after-IsUnique id ys u)
  ]

  pub rest-IsUnique :
      (cursor : Option ℕ) (rows : Dict A) → IsUnique rows → IsUnique (rest_of cursor rows)
  unfolding rest_of
  rest-IsUnique none rows u = u
  rest-IsUnique (some id) rows u = after-IsUnique id rows u

  pub rest-after :
      (j : ℕ) (cursor : Option ℕ) (rows : Dict A)
      → IsUnique rows
      → is_some (get j (rest_of cursor rows)) ≡ true
      → after j rows ≡ after j (rest_of cursor rows)
  unfolding rest_of
  rest-after j none rows u h = refl
  rest-after j (some id) rows u h = (after-after j id rows u h).1

pub page_args-size :
    (limit : Limit) (cursor : Option ℕ) (a : PageArgs)
    → page_args limit cursor ≡ ok a
    → (n : ℕ) × (page_size limit ≡ suc n) × (a.take ≡ suc (suc n)) × (a.cursor ≡ cursor)
unfolding page_args page_size
page_args-size missing cursor a h = (49, refl, ground arith, ground arith)
page_args-size (given none) cursor a h = absurd (ground arith)
page_args-size (given (some zero)) cursor a h = absurd (ground arith)
page_args-size (given (some (suc n))) cursor a h = (n, refl, ground arith, ground arith)

pub page_args-any :
    (limit : Limit) (c d : Option ℕ) (a : PageArgs)
    → page_args limit c ≡ ok a
    → page_args limit d ≡ ok (record { take = a.take; cursor = d })
unfolding page_args
page_args-any missing c d a h = ground arith
page_args-any (given none) c d a h = absurd (ground arith)
page_args-any (given (some n)) c d a h = ground arith

pub append_nil : {A : Type 0} (xs : Dict A) → xs ++ [] ≡ xs
append_nil [] = refl
append_nil (x ∷ xs) = ap (λ ys. x ∷ ys) (append_nil xs)
