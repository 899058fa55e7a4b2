-- ===== src/Prelude/Lists.antt =====
-- Lists with Boolean predicates: Python's `any`, `all`, comprehension filters and slices, and the
-- first row of a selection.
use Prim.Native.Nat.{ℕ, zero, suc, ◌+◌, ◌≤◌}
use mathlib.Core.Path.{◌≡◌, refl, ap, sym, ◌∙◌}
use mathlib.Core.Bool.{Bool, true, false, ◌&&◌, ◌||◌}
use mathlib.Core.Logic.{inl, inr}
use mathlib.Core.Option.{Option, none, some}
use mathlib.Core.List.{List, [], ◌∷◌, ◌++◌}
use mathlib.Core.List.{Memᴰ}
use mathlib.Core.List.Memᴰ
use native.Mathlib.Omega.{arith}
use grantora.Prelude.Tests.{if◌then◌else◌, Bool-cases}

module _ {ℓ} {A : Type ℓ} where
  abbrev pub length : List A → ℕ
  length [] = 0
  length (x ∷ xs) = suc (length xs)

  abbrev pub take : ℕ → List A → List A
  take zero xs = []
  take (suc n) [] = []
  take (suc n) (x ∷ xs) = x ∷ take n xs

  abbrev pub drop : ℕ → List A → List A
  drop zero xs = xs
  drop (suc n) [] = []
  drop (suc n) (x ∷ xs) = drop n xs

  abbrev pub any : (A → Bool) → List A → Bool
  any p [] = false
  any p (x ∷ xs) = p x || any p xs

  abbrev pub all : (A → Bool) → List A → Bool
  all p [] = true
  all p (x ∷ xs) = p x && all p xs

  abbrev pub filter : (A → Bool) → List A → List A
  filter p [] = []
  filter p (x ∷ xs) = if p x then x ∷ filter p xs else filter p xs

  -- The first row that meets the condition.
  abbrev pub find? : (A → Bool) → List A → Option A
  find? p [] = none
  find? p (x ∷ xs) = if p x then some x else find? p xs

  -- What `find?` returns is in the list and meets the condition.
  pub find?-some :
      (p : A → Bool) (xs : List A) {a : A} → find? p xs ≡ some a → Memᴰ a xs × (p a ≡ true)
  find?-some p [] h = cc
  find?-some p (x ∷ xs) {a} h = elim (Bool-cases (p x)) [
    | inl yes_x ↦ let e : a ≡ x = ground arith in (Memᴰ.head e, rw e yes_x)
    | inr no_x ↦ let rest = find?-some p xs (rw no_x at h) in (Memᴰ.tail rest.0, rest.1)
  ]

  pub find?-of_mem :
      (p : A → Bool) (xs : List A) {a : A}
      → Memᴰ a xs
      → p a ≡ true
      → (b : A) × (find? p xs ≡ some b) × Memᴰ b xs × (p b ≡ true)
  find?-of_mem p [] m h = absurd (Memᴰ.not-nil m)
  find?-of_mem p (x ∷ xs) m h = elim (Bool-cases (p x)) [
    | inl yes_x ↦ (x, rw yes_x, Memᴰ.head refl, yes_x)
    | inr no_x ↦ elim (Memᴰ.cases_cons m) [
      | inl e ↦ absurd (ground (arith, ap p e))
      | inr later ↦
          let (b, found, mb, pb) = find?-of_mem p xs later h in (b, rw no_x found, Memᴰ.tail mb, pb)
    ]
  ]

  -- `find?` fails only where no entry meets the condition.
  pub find?-none :
      (p : A → Bool) (xs : List A) → find? p xs ≡ none → (a : A) → Memᴰ a xs → p a ≡ false
  find?-none p [] h a m = absurd (Memᴰ.not-nil m)
  find?-none p (x ∷ xs) h a (Memᴰ.head e) = ground arith
  find?-none p (x ∷ xs) h a (Memᴰ.tail m) = ground (arith, find?-none p xs (ground arith) a m)

  pub filter-mem :
      (p : A → Bool) (xs : List A) {a : A} → Memᴰ a (filter p xs) → Memᴰ a xs × (p a ≡ true)
  filter-mem p [] m = absurd (Memᴰ.not-nil m)
  filter-mem p (x ∷ xs) {a} m = elim (Bool-cases (p x)) [
    | inl yes_x ↦ elim (Memᴰ.cases_cons (rw yes_x at m)) [
      | inl e ↦ (Memᴰ.head e, rw e yes_x)
      | inr later ↦ let rest = filter-mem p xs later in (Memᴰ.tail rest.0, rest.1)
    ]
    | inr no_x ↦ let rest = filter-mem p xs (rw no_x at m) in (Memᴰ.tail rest.0, rest.1)
  ]

  pub mem-filter :
      (p : A → Bool) (xs : List A) {a : A} → Memᴰ a xs → p a ≡ true → Memᴰ a (filter p xs)
  mem-filter p [] m h = absurd (Memᴰ.not-nil m)
  mem-filter p (x ∷ xs) (Memᴰ.head e) h = rw (ap p (sym e) ∙ h) (Memᴰ.head e)
  mem-filter p (x ∷ xs) (Memᴰ.tail m) h = elim (Bool-cases (p x)) [
    | inl yes_x ↦ rw yes_x (Memᴰ.tail (mem-filter p xs m h))
    | inr no_x ↦ rw no_x (mem-filter p xs m h)
  ]

  pub length-take : (n : ℕ) (xs : List A) → length (take n xs) ≤ n
  length-take zero xs = omega arith
  length-take (suc n) [] = omega arith
  length-take (suc n) (x ∷ xs) = omega (arith, length-take n xs)

  pub length-append : (xs ys : List A) → length (xs ++ ys) ≡ length xs + length ys
  length-append [] ys = omega arith
  length-append (x ∷ xs) ys = omega (arith, length-append xs ys)

  -- An entry that `any` found.
  pub any-true : (p : A → Bool) (xs : List A) → any p xs ≡ true → (a : A) × Memᴰ a xs × (p a ≡ true)
  any-true p [] h = cc
  any-true p (x ∷ xs) h = elim (Bool-cases (p x)) [
    | inl yes_x ↦ (x, Memᴰ.head refl, yes_x)
    | inr no_x ↦ let (a, m, e) = any-true p xs (rw no_x at h) in (a, Memᴰ.tail m, e)
  ]

  pub any-of_mem : (p : A → Bool) (xs : List A) {a : A} → Memᴰ a xs → p a ≡ true → any p xs ≡ true
  any-of_mem p [] m h = absurd (Memᴰ.not-nil m)
  any-of_mem p (x ∷ xs) (Memᴰ.head e) h = let e' : p x ≡ true = ap p (sym e) ∙ h in ground arith
  any-of_mem p (x ∷ xs) (Memᴰ.tail m) h = ground (arith, any-of_mem p xs m h)
