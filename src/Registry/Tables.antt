-- ===== src/Registry/Tables.antt =====
-- The two statements on a keyed table, `SELECT` and the upsert (crates/gareji-core/src/registry.rs).
use mathlib.Core.Path.{ap₂, subst}
use mathlib.Core.Option.{some-injective}
use gareji_core.Base.{
  ◌≡◌, ◌⊎◌, ◌↔◌, inl, inr, refl, ap, sym, ◌∙◌, true, false, some, List, [], ◌∷◌, Text, map,
  if◌then◌else◌, Bool-cases, Elem, Distinct, arith, text_ord, ◌==◌, eq_iff,
}
use gareji_core.Registry.{Table, find, upsert}

abbrev pub keys : Table → List Text
keys t = map (λ row. row.0) t

find-cons :
    (id key value : Text) (t : Table)
    → find id ((key, value) ∷ t) ≡ (if key == id then some value else find id t)
unfolding find
find-cons id key value t = refl

-- An upsert changes the value of its own key only.
pub find-upsert :
    (id key value : Text) (t : Table)
    → find key (upsert id value t) ≡ (if id == key then some value else find key t)
unfolding find upsert
find-upsert id key value [] = refl
find-upsert id key value ((k, old) ∷ t) = elim (Bool-cases (k == id)) [
  | inl e ↦
      let same = (eq_iff k id).0 e in
      rw e (elim (Bool-cases (k == key)) [
        | inl f ↦ let g : (id == key) ≡ true = rw same at f in rw (f, g)
        | inr f ↦ let g : (id == key) ≡ false = rw same at f in rw (f, g)
      ])
  | inr n ↦ rw n (elim (Bool-cases (k == key)) [
    | inl f ↦
        let g : (id == key) ≡ false = elim (Bool-cases (id == key)) [
          | inl e ↦
              absurd (cc (n, (eq_iff k id).1 ((eq_iff k key).0 f ∙ sym ((eq_iff id key).0 e))))
          | inr m ↦ m
        ] in
        rw (f, g)
    | inr f ↦ rw f (find-upsert id key value t)
  ])
]

Elem-upsert :
    (id key value : Text) (t : Table)
    → Elem key (keys (upsert id value t))
    → (key ≡ id) ⊎ Elem key (keys t)
unfolding upsert
Elem-upsert id key value [] m = m
Elem-upsert id key value ((k, old) ∷ t) m = elim (Bool-cases (k == id)) [
  | inl e ↦ inr (rw e at m)
  | inr n ↦ ground (arith, rw n at m, Elem-upsert id key value t)
]

pub keys-upsert :
    (id value : Text) (t : Table) → Distinct (keys t) → Distinct (keys (upsert id value t))
unfolding upsert
keys-upsert id value [] d = (λ m. m, tt)
keys-upsert id value ((k, old) ∷ t) d = elim (Bool-cases (k == id)) [
  | inl e ↦ rw e d
  | inr n ↦ rw n (
    λ m. elim (Elem-upsert id k value t m) [ inl e ↦ cc (n, (eq_iff k id).1 e) | inr q ↦ d.0 q ],
    keys-upsert id value t d.1,
  )
]

Elem-keys : (id value : Text) (t : Table) → Elem (id, value) t → Elem id (keys t)
Elem-keys id value [] m = m
Elem-keys id value (row ∷ t) (inl e) = inl (ap (λ p. p.0) e)
Elem-keys id value (row ∷ t) (inr m) = inr (Elem-keys id value t m)

-- A row that is there is the one that is found, since no key comes twice.
pub find-Elem :
    (id value : Text) (t : Table)
    → Distinct (keys t)
    → (find id t ≡ some value) ↔ Elem (id, value) t
unfolding find
find-Elem id value [] d = (λ h. cc, λ m. absurd m)
find-Elem id value ((k, v) ∷ t) d = elim (Bool-cases (k == id)) [
  | inl e ↦
      let same = (eq_iff k id).0 e in
      rw e (
        λ h. inl (ap₂ (λ a b. (a, b)) (sym same) (sym (some-injective _ _ h))),
        λ m. elim m [
          | inl q ↦ ap (λ p. some p.1) (sym q)
          | inr q ↦ absurd (d.0 (subst (λ z. Elem z (keys t)) (sym same) (Elem-keys id value t q)))
        ],
      )
  | inr n ↦
      let rest = find-Elem id value t d.1 in
      rw n (
        λ h. inr (rest.0 h),
        λ m. elim m [
          | inl q ↦ absurd (cc (n, (eq_iff k id).1 (sym (ap (λ p. p.0) q))))
          | inr q ↦ rest.1 q
        ],
      )
]
