-- ===== src/Base/Lists.antt =====
-- Lists measured by native numbers, predicates on lists, and loops that stop at the first error.
use Prim.Native.Nat.{ℕ, zero, suc, ◌+◌, ◌≤◌, min}
use mathlib.Core.Path.{◌≡◌, refl, ap, sym, subst}
use mathlib.Core.Logic.{◌⊎◌, inl, inr, ◌↔◌}
use mathlib.Core.Bool.{Bool, true, false, ◌&&◌}
use mathlib.Core.List.{List, [], ◌∷◌, ◌++◌, map}
use native.Mathlib.Omega.{arith}
use gareji_core.Base.Tests.{if◌then◌else◌}
use gareji_core.Base.Results.{Result, ok, ◌>>◌, >>=-eq-ok}

module _ {ℓ} {A : Type ℓ} where
  abbrev pub length : List A → ℕ
  length [] = 0
  length (x ∷ xs) = suc (length xs)

  abbrev pub take : ℕ → List A → List A
  take zero xs = []
  take (suc n) [] = []
  take (suc n) (x ∷ xs) = x ∷ take n xs

  pub length-append : (xs ys : List A) → length (xs ++ ys) ≡ length xs + length ys
  length-append [] ys = omega arith
  length-append (x ∷ xs) ys = omega (arith, length-append xs ys)

  pub length-take : (n : ℕ) (xs : List A) → length (take n xs) ≡ min n (length xs)
  length-take zero xs = omega arith
  length-take (suc n) [] = omega arith
  length-take (suc n) (x ∷ xs) = omega (arith, length-take n xs)

  pub append_assoc : (xs ys zs : List A) → (xs ++ ys) ++ zs ≡ xs ++ (ys ++ zs)
  append_assoc [] ys zs = refl
  append_assoc (x ∷ xs) ys zs = ap (◌∷◌ x) (append_assoc xs ys zs)

  pub append-nil : (xs : List A) → xs ++ [] ≡ xs
  append-nil [] = refl
  append-nil (x ∷ xs) = ap (◌∷◌ x) (append-nil xs)

  pub take_all : (n : ℕ) (xs : List A) → length xs ≤ n → take n xs ≡ xs
  take_all zero [] h = refl
  take_all zero (x ∷ xs) h = absurd (omega (arith, h))
  take_all (suc n) [] h = refl
  take_all (suc n) (x ∷ xs) h = ap (◌∷◌ x) (take_all n xs (omega (arith, h)))

  -- `iter().filter(p)`, with a Boolean test.
  abbrev pub filter : (A → Bool) → List A → List A
  filter p [] = []
  filter p (x ∷ xs) = if p x then x ∷ filter p xs else filter p xs

  -- `iter().all(p)`
  abbrev pub all : (A → Bool) → List A → Bool
  all p [] = true
  all p (x ∷ xs) = p x && all p xs

-- Every element satisfies `P`; some element equals `a`.
abbrev pub All {ℓ κ} : {A : Type ℓ} → (A → Type κ) → List A → Type κ
All P [] = Unit
All P (x ∷ xs) = P x × All P xs

pub All-append {ℓ κ} :
    {A : Type ℓ} (P : A → Type κ) (xs ys : List A) → All P xs → All P ys → All P (xs ++ ys)
All-append P [] ys h k = k
All-append P (x ∷ xs) ys h k = (h.0, All-append P xs ys h.1 k)

abbrev pub Elem : {A : Type 0} → A → List A → Type 0
Elem a [] = ⊥
Elem a (x ∷ xs) = (a ≡ x) ⊎ Elem a xs

-- No element occurs twice.
abbrev pub Distinct : {A : Type 0} → List A → Type 0
Distinct [] = Unit
Distinct (x ∷ xs) = (¬ Elem x xs) × Distinct xs

-- `for x in xs { f(x)?; }`
abbrev pub for_each : {A E : Type 0} → (A → Result Unit E) → List A → Result Unit E
for_each f [] = ok tt
for_each f (x ∷ xs) = do f x; for_each f xs

pub for_each_sound :
    {A E : Type 0} (f : A → Result Unit E) (xs : List A)
    → for_each f xs ≡ ok tt
    → All (λ x. f x ≡ ok tt) xs
for_each_sound f [] h = tt
for_each_sound f (x ∷ xs) h =
    let (u, first, rest) = >>=-eq-ok (f x) (λ _. for_each f xs) h in
    (first, for_each_sound f xs rest)

pub for_each_complete :
    {A E : Type 0} (f : A → Result Unit E) (xs : List A)
    → All (λ x. f x ≡ ok tt) xs
    → for_each f xs ≡ ok tt
for_each_complete f [] h = refl
for_each_complete f (x ∷ xs) h = rw h.0 (for_each_complete f xs h.1)

module _ {A : Type 0} where
  pub All_at : (P : A → Type 0) (a : A) (xs : List A) → All P xs → Elem a xs → P a
  All_at P a [] h m = absurd m
  All_at P a (x ∷ xs) h (inl e) = subst P (sym e) h.0
  All_at P a (x ∷ xs) h (inr m) = All_at P a xs h.1 m

  pub All-of : (P : A → Type 0) (xs : List A) → ((a : A) → Elem a xs → P a) → All P xs
  All-of P [] h = tt
  All-of P (x ∷ xs) h = (h x (inl refl), All-of P xs (λ a m. h a (inr m)))

  pub all-eq-true : (p : A → Bool) (xs : List A) → (all p xs ≡ true) ↔ All (λ x. p x ≡ true) xs
  all-eq-true p [] = (λ _. tt, λ _. refl)
  all-eq-true p (x ∷ xs) =
      (λ h. ground (arith, (all-eq-true p xs).0), λ h. ground (arith, (all-eq-true p xs).1 h.1))

  pub all-filter : (p : A → Bool) (xs : List A) → all p (filter p xs) ≡ true
  all-filter p [] = refl
  all-filter p (x ∷ xs) = ground (arith, all-filter p xs)

  pub Elem-append : (a : A) (xs ys : List A) → Elem a (xs ++ ys) ↔ (Elem a xs ⊎ Elem a ys)
  Elem-append a [] ys = (λ m. inr m, λ m. ground arith)
  Elem-append a (x ∷ xs) ys =
      (λ m. ground (arith, (Elem-append a xs ys).0), λ m. ground (arith, (Elem-append a xs ys).1))

pub Elem-map : {A B : Type 0} (f : A → B) (a : A) (xs : List A) → Elem a xs → Elem (f a) (map f xs)
Elem-map f a [] m = m
Elem-map f a (x ∷ xs) (inl e) = inl (ap f e)
Elem-map f a (x ∷ xs) (inr m) = inr (Elem-map f a xs m)

pub Elem-map_inv :
    {A B : Type 0} (f : A → B) (b : B) (xs : List A)
    → Elem b (map f xs)
    → (a : A) × Elem a xs × (b ≡ f a)
Elem-map_inv f b [] m = absurd m
Elem-map_inv f b (x ∷ xs) (inl e) = (x, inl refl, e)
Elem-map_inv f b (x ∷ xs) (inr m) = let (a, found, e) = Elem-map_inv f b xs m in (a, inr found, e)

-- How many elements pass a test.
abbrev pub count : {A : Type 0} → (A → Bool) → List A → ℕ
count p [] = 0
count p (x ∷ xs) = if p x then suc (count p xs) else count p xs

module _ {A : Type 0} (p : A → Bool) where
  pub count-append : (xs ys : List A) → count p (xs ++ ys) ≡ count p xs + count p ys
  count-append [] ys = omega arith
  count-append (x ∷ xs) ys = ground (arith, count-append xs ys)

  pub count_none : (xs : List A) → All (λ x. p x ≡ false) xs → count p xs ≡ 0
  count_none [] h = refl
  count_none (x ∷ xs) h = rw (h.0, count_none xs h.1)

  pub none_of_count : (xs : List A) → count p xs ≡ 0 → All (λ x. p x ≡ false) xs
  none_of_count [] h = tt
  none_of_count (x ∷ xs) h = ground (arith, none_of_count xs)
