-- ===== src/Base/Sets.antt =====
-- The size of a collected set, and sets with the same elements.
use Prim.Native.Nat.{suc, ◌≤◌}
use mathlib.Core.Path.{◌≡◌, refl, ap, ap₂, sym, subst, ◌∙◌}
use mathlib.Core.Logic.{◌↔◌, inl, inr}
use mathlib.Core.Bool.{true, false}
use mathlib.Core.List.{List, [], ◌∷◌}
use native.Mathlib.Omega.{arith}
use gareji_core.Base.Tests.{Bool-cases}
use gareji_core.Base.Lists.{Elem, Distinct, All_at, length}
use gareji_core.Base.Orders.{
  Ord, ◌==◌, eq_iff, contains, contains_iff, contains-false, insert, collect, Elem-collect,
  IsAscending, collect-IsAscending, apart, Below, Below-trans, not-Elem_of_Below,
}

module _ {A : Type 0} ⦃o : Ord A⦄ where
  insert_present :
      (a : A) (xs : List A) → IsAscending xs → Elem a xs → length (insert a xs) ≡ length xs
  unfolding insert
  insert_present a [] s m = absurd m
  insert_present a (x ∷ xs) s m = elim (Bool-cases (x == a)) [
    | inl e ↦ rw e
    | inr n ↦ elim (Bool-cases (o.leq a x)) [
      | inl e ↦
          absurd
            (not-Elem_of_Below a (x ∷ xs) (apart a x e n, Below-trans a x xs (apart a x e n) s.0) m)
      | inr k ↦ rw (n, k) (ap suc (insert_present a xs s.1 (ground (arith, eq_iff x a))))
    ]
  ]

  insert_absent : (a : A) (xs : List A) → (¬ Elem a xs) → length (insert a xs) ≡ suc (length xs)
  unfolding insert
  insert_absent a [] h = refl
  insert_absent a (x ∷ xs) h = elim (Bool-cases (x == a)) [
    | inl e ↦ absurd (h (inl (sym ((eq_iff x a).0 e))))
    | inr n ↦ elim (Bool-cases (o.leq a x)) [
      | inl e ↦ rw (n, e)
      | inr k ↦ rw (n, k) (ap suc (insert_absent a xs (λ m. h (inr m))))
    ]
  ]

  -- The size of a collected set tells whether an element occurs twice.
  length-collect :
      (xs : List A)
      → (length (collect xs) ≤ length xs) × ((length (collect xs) ≡ length xs) ↔ Distinct xs)
  unfolding collect
  length-collect [] = (omega arith, (λ _. tt, λ _. refl))
  length-collect (x ∷ xs) = elim (Bool-cases (contains xs x)) [
    | inl e ↦
        let m = (contains_iff xs x).0 e in
        let same =
          insert_present x (collect xs) (collect-IsAscending xs) ((Elem-collect x xs).1 m) in
        let (small, _) = length-collect xs in
        (omega arith, (λ h. absurd (omega arith), λ d. absurd (d.0 m)))
    | inr n ↦
        let absent = contains-false xs x n in
        let more = insert_absent x (collect xs) (λ k. absent ((Elem-collect x xs).0 k)) in
        let (small, same) = length-collect xs in
        (omega arith, (λ h. (absent, same.0 (omega arith)), λ d. more ∙ ap suc (same.1 d.1)))
  ]

  pub collect_size_iff : (xs : List A) → (length (collect xs) ≡ length xs) ↔ Distinct xs
  collect_size_iff xs = (length-collect xs).1

  Below-absent :
      (a : A) (xs : List A)
      → Below a xs
      → (b : A) → Elem b xs
      → (o.leq a b ≡ true) × ((a == b) ≡ false)
  Below-absent a xs h b m = All_at (λ x. (o.leq a x ≡ true) × ((a == x) ≡ false)) b xs h m

  heads_equal :
      (x y : A) (xs ys : List A)
      → IsAscending (x ∷ xs)
      → IsAscending (y ∷ ys)
      → Elem x (y ∷ ys)
      → Elem y (x ∷ xs)
      → x ≡ y
  heads_equal x y xs ys s t (inl e) n = e
  heads_equal x y xs ys s t (inr m) (inl e) = sym e
  heads_equal x y xs ys s t (inr m) (inr n) =
      o.leq_antisym x y (Below-absent x xs s.0 y n).0 (Below-absent y ys t.0 x m).0

  tail_subset :
      (x : A) (xs ys : List A)
      → IsAscending (x ∷ xs)
      → ((b : A) → Elem b (x ∷ xs) → Elem b (x ∷ ys))
      → (b : A) → Elem b xs
      → Elem b ys
  tail_subset x xs ys s h b m = elim (h b (inr m)) [
    | inl e ↦ absurd (not-Elem_of_Below x xs s.0 (subst (λ c. Elem c xs) e m))
    | inr k ↦ k
  ]

  -- Sets kept in order are equal when they have the same elements.
  pub IsAscending-ext :
      (xs ys : List A)
      → IsAscending xs
      → IsAscending ys
      → ((b : A) → Elem b xs → Elem b ys)
      → ((b : A) → Elem b ys → Elem b xs)
      → xs ≡ ys
  IsAscending-ext [] [] s t h k = refl
  IsAscending-ext [] (y ∷ ys) s t h k = absurd (k y (inl refl))
  IsAscending-ext (x ∷ xs) [] s t h k = absurd (h x (inl refl))
  IsAscending-ext (x ∷ xs) (y ∷ ys) s t h k =
      let e = heads_equal x y xs ys s t (h x (inl refl)) (k y (inl refl)) in
      let h' = subst (λ z. (b : A) → Elem b (x ∷ xs) → Elem b (z ∷ ys)) (sym e) h in
      let k' = subst (λ z. (b : A) → Elem b (z ∷ ys) → Elem b (x ∷ xs)) (sym e) k in
      let t' = subst (λ z. IsAscending (z ∷ ys)) (sym e) t in
      let rest =
        IsAscending-ext xs ys s.1 t.1 (tail_subset x xs ys s h') (tail_subset x ys xs t' k') in
      ap₂ (λ z zs. z ∷ zs) e rest

  -- What is collected depends on the elements alone.
  pub collect_ext :
      (xs ys : List A)
      → ((b : A) → Elem b xs → Elem b ys)
      → ((b : A) → Elem b ys → Elem b xs)
      → collect xs ≡ collect ys
  collect_ext xs ys h k =
      IsAscending-ext (collect xs) (collect ys) (collect-IsAscending xs) (collect-IsAscending ys)
        (λ b m. (Elem-collect b ys).1 (h b ((Elem-collect b xs).0 m)))
        (λ b m. (Elem-collect b xs).1 (k b ((Elem-collect b ys).0 m)))
