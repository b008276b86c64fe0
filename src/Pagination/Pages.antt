-- ===== src/Pagination/Pages.antt =====
-- Pages put together: backend/src/pagination.ts.
use comandas_multitenant_off.Prelude.{
  subst, ℕ, zero, suc, ◌≤◌, ◌≡◌, inl, inr, refl, sym, ap, ◌∙◌, true, false, Option, none, some, [],
  ◌++◌, arith, ltb, Bool-cases, Option-cases,
}
use comandas_multitenant_off.Prelude.Dict.{Dict}
use comandas_multitenant_off.Prelude.Lists.{length}
use comandas_multitenant_off.Prelude.Lists.{last?, drop_last, length-append}
use comandas_multitenant_off.Http.{ok}
use comandas_multitenant_off.Pagination.{
  Limit, PageArgs, page_args, page_size, take, after, find_many, Page, page_result, list_page,
  follow,
}
use comandas_multitenant_off.Pagination.Cuts.{
  IsUnique, rest_of, Splits, drop_last-take, length-take_more, take_all, splits, rest-IsUnique,
  rest-after, page_args-size, page_args-any, append_nil,
}

module _ {A : Type 0} where
  -- A page of the rest of a listing: it ends it, or leaves what is after its cursor.
  record Leaves (rest : Dict A) (p : Page A) (rows : Dict A) : Type 0 where
    split : rest ≡ p.rows ++ elim p.next_cursor [ none ↦ [] | some id ↦ after id rows ]
    shorter : (id : ℕ) → p.next_cursor ≡ some id → suc (length (after id rows)) ≤ length rest

  page_result-short :
      (rows : Dict A) (limit : Limit)
      → ltb (page_size limit) (length rows) ≡ false
      → page_result rows limit ≡ record { rows = rows; next_cursor = none }
  unfolding page_result
  page_result-short rows limit h = rw h refl

  page_result-full :
      (rows ys : Dict A) (limit : Limit) (id : ℕ) (x : A)
      → ltb (page_size limit) (length rows) ≡ true
      → drop_last rows ≡ ys
      → last? ys ≡ some (id, x)
      → page_result rows limit ≡ record { rows = ys; next_cursor = some id }
  unfolding page_result
  page_result-full rows ys limit id x h d l = rw (h, d, l) refl

  full-Leaves :
      (n : ℕ) (rows : Dict A) (cursor : Option ℕ) (s : Splits n (rest_of cursor rows))
      → after s.id rows ≡ after s.id (rest_of cursor rows)
      → Leaves
          (rest_of cursor rows)
          (record { rows = take (suc n) (rest_of cursor rows); next_cursor = some s.id })
          rows
  unfolding rest_of
  full-Leaves n rows cursor s same = record {
    split = s.whole ∙ ap (λ ys. take (suc n) (rest_of cursor rows) ++ ys) (sym same);
    shorter = λ id e. omega (
      arith,
      ap length s.whole,
      ap length same,
      s.full,
      length-append (take (suc n) (rest_of cursor rows)) (after s.id (rest_of cursor rows)),
      ap (λ (c : Option ℕ). length (rest_of c rows)) e,
    );
  }

  short-Leaves :
      (n : ℕ) (rows : Dict A) (cursor : Option ℕ)
      → ltb (suc n) (length (rest_of cursor rows)) ≡ false
      → Leaves
          (rest_of cursor rows)
          (record { rows = take (suc (suc n)) (rest_of cursor rows); next_cursor = none })
          rows
  short-Leaves n rows cursor short = record {
    split = sym (
        append_nil (take (suc (suc n)) (rest_of cursor rows))
        ∙ take_all (suc n) (rest_of cursor rows) short);
    shorter = λ id e. absurd (cc);
  }

  page-Leaves :
      (n : ℕ) (rows : Dict A) (limit : Limit) (cursor : Option ℕ)
      → page_size limit ≡ suc n
      → IsUnique rows
      → Leaves
          (rest_of cursor rows)
          (page_result (take (suc (suc n)) (rest_of cursor rows)) limit)
          rows
  page-Leaves n rows limit cursor size u =
      let rest : Dict A = rest_of cursor rows in
      let counted : ltb (page_size limit) (length (take (suc (suc n)) rest))
          ≡ ltb (suc n) (length rest) =
        ap (λ k. ltb k (length (take (suc (suc n)) rest))) size ∙ length-take_more (suc n) rest in
      elim (Bool-cases (ltb (suc n) (length rest))) [
        | inr short ↦
            subst (λ p. Leaves rest p rows)
              (sym (page_result-short (take (suc (suc n)) rest) limit (counted ∙ short)))
              (short-Leaves n rows cursor short)
        | inl long ↦
            let s = splits n rest (rest-IsUnique cursor rows u) long in
            subst (λ p. Leaves rest p rows)
              (sym (
                page_result-full (take (suc (suc n)) rest) (take (suc n) rest) limit s.id s.row
                  (counted ∙ long) (drop_last-take (suc n) rest long) s.last))
              (full-Leaves n rows cursor s (rest-after s.id cursor rows u s.there))
      ]

  list_page-parts :
      (rows : Dict A) (limit : Limit) (cursor : Option ℕ) (a : PageArgs) (n : ℕ)
      → page_args limit cursor ≡ ok a
      → a.take ≡ suc (suc n)
      → a.cursor ≡ cursor
      → list_page rows limit cursor
        ≡ ok (page_result (take (suc (suc n)) (rest_of cursor rows)) limit)
  unfolding list_page find_many rest_of
  list_page-parts rows limit none a n h t c = ground arith
  list_page-parts rows limit (some id) a n h t c = ground arith

  rest-small :
      (id : ℕ) (rows : Dict A) (n : ℕ)
      → length (after id rows) ≤ n
      → length (rest_of (some id) rows) ≤ n
  unfolding rest_of
  rest-small id rows n h = h

  follow-last :
      (n : ℕ) (rows : Dict A) (limit : Limit) (cursor : Option ℕ) (p : Page A)
      → list_page rows limit cursor ≡ ok p
      → p.next_cursor ≡ none
      → rest_of cursor rows ≡ p.rows ++ elim p.next_cursor [ none ↦ [] | some id ↦ after id rows ]
      → follow (suc n) rows limit cursor ≡ some (rest_of cursor rows)
  unfolding follow
  follow-last n rows limit cursor p paged last split =
      let whole : rest_of cursor rows ≡ p.rows ++ [] =
        split ∙ ap (λ c. p.rows ++ elim c [ none ↦ [] | some id ↦ after id rows ]) last in
      let short : p.rows ≡ rest_of cursor rows = sym (whole ∙ append_nil p.rows) in
      ground (arith, paged, last, short)

  follow-more :
      (n id : ℕ) (rows : Dict A) (limit : Limit) (cursor : Option ℕ) (p : Page A)
      → list_page rows limit cursor ≡ ok p
      → p.next_cursor ≡ some id
      → rest_of cursor rows ≡ p.rows ++ elim p.next_cursor [ none ↦ [] | some id ↦ after id rows ]
      → follow n rows limit (some id) ≡ some (rest_of (some id) rows)
      → follow (suc n) rows limit cursor ≡ some (rest_of cursor rows)
  unfolding follow rest_of
  follow-more n id rows limit cursor p paged more split h =
      let whole : rest_of cursor rows ≡ p.rows ++ after id rows =
        split ∙ ap (λ c. p.rows ++ elim c [ none ↦ [] | some id ↦ after id rows ]) more in
      ground (arith, paged, more, h, whole)

  -- A client that follows the cursors of an accepted limit gets the whole rest of the listing, each
  -- row once and in order, in at most as many pages as there are rows and one.
  pub follow-whole :
      (fuel : ℕ) (rows : Dict A) (limit : Limit) (cursor : Option ℕ) (a : PageArgs)
      → page_args limit cursor ≡ ok a
      → IsUnique rows
      → length (rest_of cursor rows) ≤ fuel
      → follow (suc fuel) rows limit cursor ≡ some (rest_of cursor rows)
  unfolding follow
  follow-whole zero rows limit cursor a h u enough =
      let (n, size, t, c) = page_args-size limit cursor a h in
      let p : Page A = page_result (take (suc (suc n)) (rest_of cursor rows)) limit in
      let l : Leaves (rest_of cursor rows) p rows = page-Leaves n rows limit cursor size u in
      let paged : list_page rows limit cursor ≡ ok p =
        list_page-parts rows limit cursor a n h t c in
      elim (Option-cases p.next_cursor) [
        | inl last ↦ follow-last zero rows limit cursor p paged last l.split
        | inr (id, more) ↦ absurd (omega (arith, l.shorter id more, enough))
      ]
  follow-whole (suc fuel) rows limit cursor a h u enough =
      let (n, size, t, c) = page_args-size limit cursor a h in
      let p : Page A = page_result (take (suc (suc n)) (rest_of cursor rows)) limit in
      let l : Leaves (rest_of cursor rows) p rows = page-Leaves n rows limit cursor size u in
      let paged : list_page rows limit cursor ≡ ok p =
        list_page-parts rows limit cursor a n h t c in
      elim (Option-cases p.next_cursor) [
        | inl last ↦ follow-last (suc fuel) rows limit cursor p paged last l.split
        | inr (id, more) ↦ follow-more (suc fuel) id rows limit cursor p paged more l.split (
            follow-whole fuel rows limit (some id) (record { take = a.take; cursor = some id })
              (page_args-any limit cursor (some id) a h) u
              (rest-small id rows fuel (omega (arith, l.shorter id more, enough))))
      ]
