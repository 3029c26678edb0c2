-- ===== src/Base/Orders.antt =====
-- `Ord` with its derived equality, and the sets kept in its order (`BTreeSet`).
use mathlib.Core.Path.{◌≡◌, refl}
use mathlib.Core.Logic.{◌↔◌, ◌⊎◌, inl, inr}
use mathlib.Core.Bool.{Bool, true, false, ◌&&◌, ◌||◌}
use mathlib.Core.List.{List, [], ◌∷◌}
use native.Mathlib.Omega.{arith}
use gareji_core.Base.Tests.{if◌then◌else◌, Bool-cases}
use gareji_core.Base.Lists.{All, Elem, Distinct, All_at}

-- A total order with a Boolean test, as `#[derive(PartialOrd, Ord)]` gives it.
pub record Ord (A : Type 0) : Type 0 where
  pub leq : A → A → Bool
  pub leq_antisym : (a b : A) → leq a b ≡ true → leq b a ≡ true → a ≡ b
  pub leq_trans : (a b c : A) → leq a b ≡ true → leq b c ≡ true → leq a c ≡ true
  pub leq_total : (a b : A) → (leq a b ≡ true) ⊎ (leq b a ≡ true)

infix 50 ◌==◌
unfoldable pub ◌==◌ : {A : Type 0} ⦃o : Ord A⦄ → A → A → Bool
◌==◌ ⦃o⦄ a b = o.leq a b && o.leq b a

module _ {A : Type 0} ⦃o : Ord A⦄ where
  pub leq_refl : (a : A) → o.leq a a ≡ true
  leq_refl a = ground (arith, o.leq_total a a)

  pub eq_iff : (a b : A) → ((a == b) ≡ true) ↔ (a ≡ b)
  unfolding ◌==◌
  eq_iff a b = (λ h. ground (arith, o.leq_antisym a b), λ e. rw e (rw leq_refl refl))

  pub eq_refl : (a : A) → (a == a) ≡ true
  eq_refl a = (eq_iff a a).1 refl

  -- `contains`
  unfoldable pub contains : List A → A → Bool
  contains [] a = false
  contains (x ∷ xs) a = x == a || contains xs a

  pub contains_iff : (xs : List A) (a : A) → (contains xs a ≡ true) ↔ Elem a xs
  unfolding contains
  contains_iff [] a = (λ h. ground arith, λ m. absurd m)
  contains_iff (x ∷ xs) a = (
    λ h. ground (arith, eq_iff x a, (contains_iff xs a).0),
    λ m. ground (arith, eq_iff x a, (contains_iff xs a).1),
  )

  pub contains-false : (xs : List A) (a : A) → contains xs a ≡ false → ¬ Elem a xs
  contains-false xs a h = λ m. ground (arith, (contains_iff xs a).1 m)

  -- `BTreeSet::insert`, with the new set; `contains` before it tells its Boolean result.
  unfoldable pub insert : A → List A → List A
  insert a [] = a ∷ []
  insert a (x ∷ xs) = if x == a then x ∷ xs else if o.leq a x then a ∷ x ∷ xs else x ∷ insert a xs

  -- `collect::<BTreeSet<_>>()`
  unfoldable pub collect : List A → List A
  collect [] = []
  collect (x ∷ xs) = insert x (collect xs)

  -- The element is strictly below every element of the list.
  abbrev pub Below : A → List A → Type 0
  Below a xs = All (λ x. (o.leq a x ≡ true) × ((a == x) ≡ false)) xs

  -- Strictly ascending: what a `BTreeSet` iterates over.
  abbrev pub IsAscending : List A → Type 0
  IsAscending [] = Unit
  IsAscending (x ∷ xs) = Below x xs × IsAscending xs

  Elem-insert_inv : (b a : A) (xs : List A) → Elem b (insert a xs) → (b ≡ a) ⊎ Elem b xs
  unfolding insert
  Elem-insert_inv b a [] m = m
  Elem-insert_inv b a (x ∷ xs) m = ground (arith, Elem-insert_inv b a xs)

  Elem-insert_of : (b a : A) (xs : List A) → (b ≡ a) ⊎ Elem b xs → Elem b (insert a xs)
  unfolding insert
  Elem-insert_of b a [] m = m
  Elem-insert_of b a (x ∷ xs) m = ground (arith, eq_iff x a, Elem-insert_of b a xs)

  pub Elem-insert : (b a : A) (xs : List A) → Elem b (insert a xs) ↔ ((b ≡ a) ⊎ Elem b xs)
  Elem-insert b a xs = (Elem-insert_inv b a xs, Elem-insert_of b a xs)

  pub Elem-collect : (b : A) (xs : List A) → Elem b (collect xs) ↔ Elem b xs
  unfolding collect
  Elem-collect b [] = (λ m. m, λ m. m)
  Elem-collect b (x ∷ xs) = (
    λ m. ground (arith, (Elem-insert b x (collect xs)).0 m, (Elem-collect b xs).0),
    λ m. ground (arith, (Elem-insert b x (collect xs)).1, (Elem-collect b xs).1),
  )

  pub Below-trans :
      (a x : A) (xs : List A) → (o.leq a x ≡ true) × ((a == x) ≡ false) → Below x xs → Below a xs
  unfolding ◌==◌
  Below-trans a x [] h b = tt
  Below-trans a x (y ∷ ys) h b = (
    (
      o.leq_trans a x y h.0 b.0.0,
      ground (arith, o.leq_trans a x y, o.leq_trans x y a, o.leq_trans y a x),
    ),
    Below-trans a x ys h b.1,
  )

  pub apart :
      (a x : A) → o.leq a x ≡ true → (x == a) ≡ false → (o.leq a x ≡ true) × ((a == x) ≡ false)
  unfolding ◌==◌
  apart a x e n = ground arith

  pub above :
      (a x : A) → o.leq a x ≡ false → (x == a) ≡ false → (o.leq x a ≡ true) × ((x == a) ≡ false)
  above a x e n = ground (arith, o.leq_total a x)

  Below-insert :
      (x a : A) (xs : List A)
      → Below x xs
      → (o.leq x a ≡ true) × ((x == a) ≡ false)
      → Below x (insert a xs)
  unfolding insert
  Below-insert x a [] b h = (h, tt)
  Below-insert x a (y ∷ ys) b h = elim (Bool-cases (y == a)) [
    | inl e ↦ rw e b
    | inr n ↦ elim (Bool-cases (o.leq a y)) [
      | inl e ↦ rw (n, e) (h, b)
      | inr m ↦ rw (n, m) (b.0, Below-insert x a ys b.1 h)
    ]
  ]

  -- Inserting keeps a set in ascending order.
  pub insert-IsAscending : (a : A) (xs : List A) → IsAscending xs → IsAscending (insert a xs)
  unfolding insert
  insert-IsAscending a [] s = (tt, tt)
  insert-IsAscending a (x ∷ xs) s = elim (Bool-cases (x == a)) [
    | inl e ↦ rw e s
    | inr n ↦ elim (Bool-cases (o.leq a x)) [
      | inl e ↦ rw (n, e) ((apart a x e n, Below-trans a x xs (apart a x e n) s.0), s)
      | inr m ↦ rw (n, m) (Below-insert x a xs s.0 (above a x m n), insert-IsAscending a xs s.1)
    ]
  ]

  pub collect-IsAscending : (xs : List A) → IsAscending (collect xs)
  unfolding collect
  collect-IsAscending [] = tt
  collect-IsAscending (x ∷ xs) = insert-IsAscending x (collect xs) (collect-IsAscending xs)

  pub not-Elem_of_Below : (a : A) (xs : List A) → Below a xs → ¬ Elem a xs
  not-Elem_of_Below a xs b = λ m.
      let h = All_at (λ x. (o.leq a x ≡ true) × ((a == x) ≡ false)) a xs b m in cc (eq_refl a, h.1)

  pub IsAscending-Distinct : (xs : List A) → IsAscending xs → Distinct xs
  IsAscending-Distinct [] s = tt
  IsAscending-Distinct (x ∷ xs) s = (not-Elem_of_Below x xs s.0, IsAscending-Distinct xs s.1)
