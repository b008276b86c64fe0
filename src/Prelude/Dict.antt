-- ===== src/Prelude/Dict.antt =====
-- A database table: its rows under their primary keys, in the order of insertion. A key has one
-- row, since `put` writes in place.
use comandas_multitenant_off.Prelude.{
  ℕ, ◌≡◌, refl, Bool, true, false, Option, none, some, List, [], ◌∷◌, arith, ◌==◌, if◌then◌else◌,
}

abbrev pub Dict {ℓ} : Type ℓ → Type ℓ
Dict V = List (ℕ × V)

module _ {ℓ} {V : Type ℓ} where
  -- `findUnique({ where: { id } })`
  unfoldable pub get : ℕ → Dict V → Option V
  get k [] = none
  get k ((j, v) ∷ d) = if j == k then some v else get k d

  -- writes the row of a key, a new one at the end
  unfoldable pub put : ℕ → V → Dict V → Dict V
  put k v [] = (k, v) ∷ []
  put k v ((j, w) ∷ d) = if j == k then (j, v) ∷ d else (j, w) ∷ put k v d

  -- `findFirst`: the first row that passes the test
  unfoldable pub find_row : (ℕ → V → Bool) → Dict V → Option (ℕ × V)
  find_row p [] = none
  find_row p ((j, v) ∷ d) = if p j v then some (j, v) else find_row p d

  -- `updateMany`
  unfoldable pub map_rows : (ℕ → V → V) → Dict V → Dict V
  map_rows f [] = []
  map_rows f ((j, v) ∷ d) = (j, f j v) ∷ map_rows f d

  pub get-put :
      (j k : ℕ) (v : V) (d : Dict V) → get j (put k v d) ≡ (if k == j then some v else get j d)
  unfolding get put
  get-put j k v [] = refl
  get-put j k v ((i, w) ∷ d) = ground (arith, get-put j k v d)

  -- The later of two writes stays.
  pub put-put : (k : ℕ) (v w : V) (d : Dict V) → put k v (put k w d) ≡ put k v d
  unfolding put
  put-put k v w [] = ground arith
  put-put k v w ((j, u) ∷ d) = ground (arith, put-put k v w d)

  pub get-put_self : (k : ℕ) (v : V) (d : Dict V) → get k (put k v d) ≡ some v
  get-put_self k v d = ground (arith, get-put k k v d)

  -- A row that the search does not find fails the test.
  pub find_row-none :
      (p : ℕ → V → Bool) (d : Dict V) (k : ℕ) (v : V)
      → find_row p d ≡ none
      → get k d ≡ some v
      → p k v ≡ false
  unfolding find_row get
  find_row-none p [] k v h e = cc
  find_row-none p ((j, w) ∷ d) k v h e = ground (arith, find_row-none p d k v)

  -- What the search finds passes the test.
  pub find_row-some :
      (p : ℕ → V → Bool) (d : Dict V) (k : ℕ) (v : V) → find_row p d ≡ some (k, v) → p k v ≡ true
  unfolding find_row
  find_row-some p [] k v h = cc
  find_row-some p ((j, w) ∷ d) k v h = ground (arith, find_row-some p d k v)

  pub get-map_rows :
      (f : ℕ → V → V) (k : ℕ) (v : V) (d : Dict V)
      → get k d ≡ some v
      → get k (map_rows f d) ≡ some (f k v)
  unfolding get map_rows
  get-map_rows f k v [] h = cc
  get-map_rows f k v ((j, w) ∷ d) h = ground (arith, get-map_rows f k v d)

  -- A test that no row passes after the change finds none.
  pub find_row-map_rows :
      (p : ℕ → V → Bool) (f : ℕ → V → V)
      → ((k : ℕ) (v : V) → p k (f k v) ≡ false)
      → (d : Dict V) → find_row p (map_rows f d) ≡ none
  unfolding find_row map_rows
  find_row-map_rows p f h [] = refl
  find_row-map_rows p f h ((j, w) ∷ d) = ground (arith, h j w, find_row-map_rows p f h d)

  -- The row that a search finds is found again after a write that still passes the test.
  pub find_row-put :
      (p : ℕ → V → Bool) (d : Dict V) (k : ℕ) (v w : V)
      → find_row p d ≡ some (k, v)
      → get k d ≡ some v
      → p k w ≡ true
      → find_row p (put k w d) ≡ some (k, w)
  unfolding find_row get put
  find_row-put p [] k v w h g e = cc
  find_row-put p ((j, u) ∷ d) k v w h g e =
      ground (arith, find_row-some p d k v, find_row-put p d k v w)

pub ruleset dict_laws = (get-put)
