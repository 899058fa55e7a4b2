-- ===== src/Db/Queries/Sorting.antt =====
-- `ORDER BY` keeps the rows: `sort_by` of db/queries.py's statements returns the entries that it
-- was given.
use grantora.Prelude.{◌≡◌, refl, ◌⊎◌, inl, inr, Bool, List, [], ◌∷◌, Memᴰ, Bool-cases}
use mathlib.Core.List.Memᴰ
use grantora.Db.Queries.Joins.{insert_sorted, sort_by}

module _ {ℓ} {A : Type ℓ} (le : A → A → Bool) where
  mem-insert_sorted_self : (x : A) (ys : List A) → Memᴰ x (insert_sorted le x ys)
  unfolding insert_sorted
  mem-insert_sorted_self x [] = Memᴰ.head refl
  mem-insert_sorted_self x (y ∷ ys) = elim (Bool-cases (le x y)) [
    | inl first ↦ rw first (Memᴰ.head refl)
    | inr later ↦ rw later (Memᴰ.tail (mem-insert_sorted_self x ys))
  ]

  mem-insert_sorted : (x : A) (ys : List A) {z : A} → Memᴰ z ys → Memᴰ z (insert_sorted le x ys)
  unfolding insert_sorted
  mem-insert_sorted x [] m = Memᴰ.tail m
  mem-insert_sorted x (y ∷ ys) m = elim (Bool-cases (le x y)) [
    | inl first ↦ rw first (Memᴰ.tail m)
    | inr later ↦ rw later (elim (Memᴰ.cases_cons m) [
      | inl e ↦ Memᴰ.head e
      | inr below ↦ Memᴰ.tail (mem-insert_sorted x ys below)
    ])
  ]

  insert_sorted-mem :
      (x : A) (ys : List A) {z : A} → Memᴰ z (insert_sorted le x ys) → (z ≡ x) ⊎ Memᴰ z ys
  unfolding insert_sorted
  insert_sorted-mem x [] m = Memᴰ.cases_cons m
  insert_sorted-mem x (y ∷ ys) m = elim (Bool-cases (le x y)) [
    | inl first ↦ Memᴰ.cases_cons (rw first at m)
    | inr later ↦ elim (Memᴰ.cases_cons (rw later at m)) [
      | inl e ↦ inr (Memᴰ.head e)
      | inr below ↦ elim (insert_sorted-mem x ys below) [
        | inl e ↦ inl e
        | inr old ↦ inr (Memᴰ.tail old)
      ]
    ]
  ]

  pub mem-sort_by : (xs : List A) {z : A} → Memᴰ z xs → Memᴰ z (sort_by le xs)
  unfolding sort_by
  mem-sort_by [] m = m
  mem-sort_by (x ∷ xs) (Memᴰ.head e) = rw e (mem-insert_sorted_self x (sort_by le xs))
  mem-sort_by (x ∷ xs) (Memᴰ.tail m) = mem-insert_sorted x (sort_by le xs) (mem-sort_by xs m)

  pub sort_by-mem : (xs : List A) {z : A} → Memᴰ z (sort_by le xs) → Memᴰ z xs
  unfolding sort_by
  sort_by-mem [] m = m
  sort_by-mem (x ∷ xs) m = elim (insert_sorted-mem x (sort_by le xs) m) [
    | inl e ↦ Memᴰ.head e
    | inr old ↦ Memᴰ.tail (sort_by-mem xs old)
  ]
