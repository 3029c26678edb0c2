-- ===== src/Base/Sorting.antt =====
-- `sort`, `sort_by` and SQL's `ORDER BY`: an insertion sort by a Boolean order.
use Prim.Native.Nat.{suc}
use mathlib.Core.Path.{◌≡◌, refl}
use mathlib.Core.Logic.{◌↔◌, ◌⊎◌, inl, inr}
use mathlib.Core.Bool.{Bool, true}
use mathlib.Core.List.{List, [], ◌∷◌}
use native.Mathlib.Omega.{arith}
use gareji_core.Base.Tests.{if◌then◌else◌, Bool-cases}
use gareji_core.Base.Lists.{All, Elem, length, count}

module _ {A : Type 0} (le : A → A → Bool) where
  unfoldable pub place : A → List A → List A
  place a [] = a ∷ []
  place a (x ∷ xs) = if le a x then a ∷ x ∷ xs else x ∷ place a xs

  unfoldable pub sort_by : List A → List A
  unfolding place
  sort_by [] = []
  sort_by (x ∷ xs) = place x (sort_by xs)

  abbrev pub IsSorted : List A → Type 0
  IsSorted [] = Unit
  IsSorted (x ∷ xs) = All (λ y. le x y ≡ true) xs × IsSorted xs

  Elem-place_inv : (b a : A) (xs : List A) → Elem b (place a xs) → (b ≡ a) ⊎ Elem b xs
  unfolding place
  Elem-place_inv b a [] m = m
  Elem-place_inv b a (x ∷ xs) m = ground (arith, Elem-place_inv b a xs)

  Elem-place_of : (b a : A) (xs : List A) → (b ≡ a) ⊎ Elem b xs → Elem b (place a xs)
  unfolding place
  Elem-place_of b a [] m = m
  Elem-place_of b a (x ∷ xs) m = ground (arith, Elem-place_of b a xs)

  Elem-sort_by_inv : (b : A) (xs : List A) → Elem b (sort_by xs) → Elem b xs
  unfolding sort_by
  Elem-sort_by_inv b [] m = m
  Elem-sort_by_inv b (x ∷ xs) m =
      ground (arith, Elem-place_inv b x (sort_by xs) m, Elem-sort_by_inv b xs)

  Elem-sort_by_of : (b : A) (xs : List A) → Elem b xs → Elem b (sort_by xs)
  unfolding sort_by
  Elem-sort_by_of b [] m = m
  Elem-sort_by_of b (x ∷ xs) (inl e) = Elem-place_of b x (sort_by xs) (inl e)
  Elem-sort_by_of b (x ∷ xs) (inr m) = Elem-place_of b x (sort_by xs) (inr (Elem-sort_by_of b xs m))

  -- Sorting keeps the elements.
  pub Elem-sort_by : (b : A) (xs : List A) → Elem b (sort_by xs) ↔ Elem b xs
  Elem-sort_by b xs = (Elem-sort_by_inv b xs, Elem-sort_by_of b xs)

  length-place : (a : A) (xs : List A) → length (place a xs) ≡ suc (length xs)
  unfolding place
  length-place a [] = refl
  length-place a (x ∷ xs) = ground (arith, length-place a xs)

  pub length-sort_by : (xs : List A) → length (sort_by xs) ≡ length xs
  unfolding sort_by
  length-sort_by [] = refl
  length-sort_by (x ∷ xs) = omega (arith, length-place x (sort_by xs), length-sort_by xs)

  module _ (total : (a b : A) → (le a b ≡ true) ⊎ (le b a ≡ true))
      (trans : (a b c : A) → le a b ≡ true → le b c ≡ true → le a c ≡ true) where
    All-trans :
        (a x : A) (xs : List A)
        → le a x ≡ true
        → All (λ y. le x y ≡ true) xs
        → All (λ y. le a y ≡ true) xs
    All-trans a x [] h s = tt
    All-trans a x (y ∷ ys) h s = (trans a x y h s.0, All-trans a x ys h s.1)

    All-place :
        (a x : A) (xs : List A)
        → le x a ≡ true
        → All (λ y. le x y ≡ true) xs
        → All (λ y. le x y ≡ true) (place a xs)
    unfolding place
    All-place a x [] h s = (h, tt)
    All-place a x (y ∷ ys) h s = elim (Bool-cases (le a y)) [
      | inl e ↦ rw e (h, s)
      | inr n ↦ rw n (s.0, All-place a x ys h s.1)
    ]

    place-IsSorted : (a : A) (xs : List A) → IsSorted xs → IsSorted (place a xs)
    unfolding place
    place-IsSorted a [] s = (tt, tt)
    place-IsSorted a (x ∷ xs) s = elim (Bool-cases (le a x)) [
      | inl e ↦ rw e ((e, All-trans a x xs e s.0), s)
      | inr n ↦ rw n (All-place a x xs (ground (arith, total a x)) s.0, place-IsSorted a xs s.1)
    ]

    pub sort_by-IsSorted : (xs : List A) → IsSorted (sort_by xs)
    unfolding sort_by
    sort_by-IsSorted [] = tt
    sort_by-IsSorted (x ∷ xs) = place-IsSorted x (sort_by xs) (sort_by-IsSorted xs)

  place-first : (x : A) (xs : List A) → All (λ y. le x y ≡ true) xs → place x xs ≡ x ∷ xs
  unfolding place
  place-first x [] s = refl
  place-first x (y ∷ ys) s = rw (s.0)

  -- A sorted list is left as it is.
  pub sort_by-fixed : (xs : List A) → IsSorted xs → sort_by xs ≡ xs
  unfolding sort_by
  sort_by-fixed [] s = refl
  sort_by-fixed (x ∷ xs) s = rw (sort_by-fixed xs s.1) (place-first x xs s.0)

  count-place : (p : A → Bool) (a : A) (xs : List A) → count p (place a xs) ≡ count p (a ∷ xs)
  unfolding place
  count-place p a [] = refl
  count-place p a (x ∷ xs) = ground (arith, count-place p a xs)

  pub count-sort_by : (p : A → Bool) (xs : List A) → count p (sort_by xs) ≡ count p xs
  unfolding sort_by
  count-sort_by p [] = refl
  count-sort_by p (x ∷ xs) = ground (arith, count-place p x (sort_by xs), count-sort_by p xs)
