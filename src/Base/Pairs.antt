-- ===== src/Base/Pairs.antt =====
-- The order of pairs: by the first components, then by the second.
use mathlib.Core.Path.{◌≡◌, ap₂, sym}
use mathlib.Core.Logic.{◌⊎◌, inl, inr}
use mathlib.Core.Bool.{Bool, true}
use native.Mathlib.Omega.{arith}
use gareji_core.Base.Tests.{if◌then◌else◌, Bool-cases}
use gareji_core.Base.Orders.{Ord, ◌==◌, eq_iff}

module _ {A B : Type 0} ⦃o : Ord A⦄ ⦃p : Ord B⦄ where
  unfoldable pub pair_leq : A × B → A × B → Bool
  pair_leq (a, b) (c, d) = if a == c then p.leq b d else o.leq a c

  pub pair_leq_antisym : (x y : A × B) → pair_leq x y ≡ true → pair_leq y x ≡ true → x ≡ y
  unfolding pair_leq
  pair_leq_antisym (a, b) (c, d) h k = elim (Bool-cases (a == c)) [
    | inl e ↦
        let same = (eq_iff a c).0 e in
        let back : (c == a) ≡ true = (eq_iff c a).1 (sym same) in
        ap₂ (λ q r. (q, r)) same (p.leq_antisym b d (rw e at h) (rw back at k))
    | inr n ↦ elim (Bool-cases (c == a)) [
      | inl e ↦ absurd (cc (n, (eq_iff a c).1 (sym ((eq_iff c a).0 e))))
      | inr m ↦ absurd (cc (n, (eq_iff a c).1 (o.leq_antisym a c (rw n at h) (rw m at k))))
    ]
  ]

  pub pair_leq_total : (x y : A × B) → (pair_leq x y ≡ true) ⊎ (pair_leq y x ≡ true)
  unfolding pair_leq
  pair_leq_total (a, b) (c, d) = elim (Bool-cases (a == c)) [
    | inl e ↦
        let back : (c == a) ≡ true = (eq_iff c a).1 (sym ((eq_iff a c).0 e)) in
        rw (e, back) (p.leq_total b d)
    | inr n ↦ elim (Bool-cases (c == a)) [
      | inl e ↦ absurd (cc (n, (eq_iff a c).1 (sym ((eq_iff c a).0 e))))
      | inr m ↦ rw (n, m) (o.leq_total a c)
    ]
  ]

  pub pair_leq_trans :
      (x y z : A × B) → pair_leq x y ≡ true → pair_leq y z ≡ true → pair_leq x z ≡ true
  unfolding pair_leq
  pair_leq_trans (a, b) (c, d) (e, f) h k = ground (
    arith,
    eq_iff a c,
    eq_iff c e,
    eq_iff a e,
    o.leq_trans a c e,
    o.leq_antisym a c,
    o.leq_antisym c e,
    p.leq_trans b d f,
  )

instance abbrev pub pair_ord : {A B : Type 0} ⦃o : Ord A⦄ ⦃p : Ord B⦄ → Ord (A × B)
pair_ord = record {
  leq = pair_leq;
  leq_antisym = pair_leq_antisym;
  leq_trans = pair_leq_trans;
  leq_total = pair_leq_total;
}
