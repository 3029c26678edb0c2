-- ===== src/Base/Checks.antt =====
-- Chains of checks: what they accept.
use mathlib.Core.Path.{◌≡◌, refl, sym}
use mathlib.Core.Logic.{◌↔◌, inl, inr}
use mathlib.Core.Bool.{Bool, true, false, not}
use mathlib.Core.List.{List, [], ◌∷◌, map}
use native.Mathlib.Omega.{arith}
use gareji_core.Base.Tests.{ltb}
use gareji_core.Base.Results.{Result, ok, err, ◌>>◌, fail_if}
use Prim.Native.Nat.{ℕ, ◌≤◌}
use gareji_core.Base.Texts.{Text}
use gareji_core.Base.Lists.{
  length, All, All-of, All_at, Elem, Distinct, for_each, for_each_sound, for_each_complete,
}
use gareji_core.Base.Orders.{Ord, contains, insert, contains_iff, contains-false, Elem-insert}

-- The number of characters of a text lies within bounds.
abbrev pub Between : ℕ → ℕ → Text → Type 0
Between lo hi t = (lo ≤ length t) × (length t ≤ hi)

pub guard_iff : {E : Type 0} (b : Bool) (e : E) → (fail_if (not b) e ≡ ok tt) ↔ (b ≡ true)
guard_iff true e = (λ _. refl, λ _. refl)
guard_iff false e = (λ h. cc, λ h. cc)

-- One step of a `do` block of checks.
pub seq_iff :
    {E : Type 0} (m k : Result Unit E) {P Q : Type 0}
    → (m ≡ ok tt) ↔ P
    → (k ≡ ok tt) ↔ Q
    → ((m >> k) ≡ ok tt) ↔ (P × Q)
seq_iff (ok u) k p q = (λ h. (p.0 refl, q.0 h), λ h. q.1 h.1)
seq_iff (err e) k p q = (λ h. cc, λ h. absurd (cc (p.1 h.0)))

pub for_each_iff :
    {A E : Type 0} (f : A → Result Unit E) (P : A → Type 0)
    → ((a : A) → (f a ≡ ok tt) ↔ P a)
    → (xs : List A) → (for_each f xs ≡ ok tt) ↔ All P xs
for_each_iff f P each xs = (
  λ h. All-of P xs (λ a m. (each a).0 (All_at (λ x. f x ≡ ok tt) a xs (for_each_sound f xs h) m)),
  λ h.
      for_each_complete f xs (All-of (λ x. f x ≡ ok tt) xs (λ a m. (each a).1 (All_at P a xs h m))),
)

pub compose_iff : {A B C : Type 0} → A ↔ B → B ↔ C → A ↔ C
compose_iff f g = (λ a. g.0 (f.0 a), λ c. f.1 (g.1 c))

pub at_most_iff : {E : Type 0} (n hi : ℕ) (e : E) → (fail_if (ltb hi n) e ≡ ok tt) ↔ (n ≤ hi)
at_most_iff n hi e = (λ h. ground arith, λ h. ground arith)

-- A loop that checks each element and refuses a second one with the same key. `seen` is the set of
-- the keys so far.
abbrev pub each_once :
    {A K E : Type 0} ⦃o : Ord K⦄
    → (A → K)
    → (A → Result Unit E)
    → E
    → List K
    → List A
    → Result Unit E
each_once key check e seen [] = ok tt
each_once key check e seen (x ∷ xs) = do
  check x
  fail_if (contains seen (key x)) e
  each_once key check e (insert (key x) seen) xs

pub fails_iff : {E : Type 0} (b : Bool) (e : E) → (fail_if b e ≡ ok tt) ↔ (b ≡ false)
fails_iff true e = (λ h. cc, λ h. cc)
fails_iff false e = (λ _. refl, λ _. refl)

module _ {A K E : Type 0} ⦃o : Ord K⦄ (key : A → K) (check : A → Result Unit E) (e : E)
    (P : A → Type 0) where
  -- No key is in the set.
  abbrev Unseen : List K → List A → Type 0
  Unseen seen xs = All (λ x. ¬ Elem (key x) seen) xs

  Unseen-insert :
      (k : K) (seen : List K) (xs : List A)
      → Unseen (insert k seen) xs ↔ ((¬ Elem k (map key xs)) × Unseen seen xs)
  Unseen-insert k seen [] = (λ _. (λ m. m, tt), λ _. tt)
  Unseen-insert k seen (x ∷ xs) =
      let rest = Unseen-insert k seen xs in
      (
        λ h.
            let (apart, others) = rest.0 h.1 in
            (
              λ m. elim m [
                | inl q ↦ h.0 ((Elem-insert (key x) k seen).1 (inl (sym q)))
                | inr n ↦ apart n
              ],
              (λ m. h.0 ((Elem-insert (key x) k seen).1 (inr m)), others),
            ),
        λ h. (
          λ m. elim ((Elem-insert (key x) k seen).0 m) [
            | inl q ↦ h.0 (inl (sym q))
            | inr n ↦ h.1.0 n
          ],
          rest.1 (λ m. h.0 (inr m), h.1.1),
        ),
      )

  contains_not : (k : K) (seen : List K) → (contains seen k ≡ false) ↔ (¬ Elem k seen)
  contains_not k seen = (λ h. contains-false seen k h, λ h. ground (arith, (contains_iff seen k).0))

  pub each_once_iff :
      ((a : A) → (check a ≡ ok tt) ↔ P a)
      → (seen : List K) (xs : List A)
      → (each_once key check e seen xs ≡ ok tt)
        ↔ (All P xs × Distinct (map key xs) × Unseen seen xs)
  each_once_iff each seen [] = (λ _. (tt, tt, tt), λ _. refl)
  each_once_iff each seen (x ∷ xs) =
      let chain = seq_iff (check x) _ (each x) (
        seq_iff (fail_if (contains seen (key x)) e) _
          (compose_iff (fails_iff (contains seen (key x)) e) (contains_not (key x) seen))
          (each_once_iff each (insert (key x) seen) xs)) in
      (
        λ h.
            let (p, (fresh, (ps, ds, us))) = chain.0 h in
            let (apart, others) = (Unseen-insert (key x) seen xs).0 us in
            ((p, ps), (apart, ds), (fresh, others)),
        λ h.
            let ((p, ps), (apart, ds), (fresh, others)) = h in
            chain.1 (p, (fresh, (ps, ds, (Unseen-insert (key x) seen xs).1 (apart, others)))),
      )
