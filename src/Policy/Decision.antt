-- ===== src/Policy/Decision.antt =====
-- `evaluate_verified`: when the gate approves, and what the reasons of a rejection are.
use mathlib.Core.Path.{subst}
use gareji_core.Base.{
  ◌≡◌, ◌≢◌, ◌↔◌, ◌⊎◌, inl, inr, true, List, [], ◌∷◌, Text, refl, sym, arith, All, Elem, text_ord,
  text_leq_trans, text_leq_total, contains, contains_iff, contains-false, sort_by, IsSorted,
  Elem-sort_by, sort_by-IsSorted, Bool-cases,
}
use gareji_core.Policy.{
  CapabilityPolicy, ExecutionIntent, PolicyRejection, capability_not_allowed, PolicyDecision,
  approved, rejected, reasons_for, rejection_leq, decide_on, evaluate_verified,
}

-- What the gate promises for one capability: it is allowed, and approved where that is required.
pub record IsPermitted (p : CapabilityPolicy) (granted : List Text) (c : Text) : Type 0 where
  pub is_allowed : Elem c p.allowed
  pub is_approved : Elem c p.approval_required → Elem c granted

-- A reason that holds against a requested capability.
abbrev pub IsWarranted : CapabilityPolicy → List Text → List Text → PolicyRejection → Type 0
IsWarranted p granted requested (capability_not_allowed c) = Elem c requested × (¬ Elem c p.allowed)
IsWarranted p granted requested (PolicyRejection.approval_required c) =
    Elem c requested × Elem c p.allowed × Elem c p.approval_required × (¬ Elem c granted)

module _ (p : CapabilityPolicy) (granted : List Text) where
  none_refused : (cs : List Text) → reasons_for p granted cs ≡ [] → All (IsPermitted p granted) cs
  unfolding reasons_for
  none_refused [] h = tt
  none_refused (c ∷ cs) h = elim (Bool-cases (contains p.allowed c)) [
    | inr n ↦ ground arith
    | inl e ↦ elim (Bool-cases (contains p.approval_required c)) [
      | inr free ↦ (
        record {
          is_allowed = (contains_iff p.allowed c).0 e;
          is_approved = λ m. absurd (contains-false p.approval_required c free m);
        },
        none_refused cs (ground arith),
      )
      | inl guarded ↦ elim (Bool-cases (contains granted c)) [
        | inr n ↦ ground arith
        | inl g ↦ (
          record {
            is_allowed = (contains_iff p.allowed c).0 e;
            is_approved = λ _. (contains_iff granted c).0 g;
          },
          none_refused cs (ground arith),
        )
      ]
    ]
  ]

  none_of_permitted :
      (cs : List Text) → All (IsPermitted p granted) cs → reasons_for p granted cs ≡ []
  unfolding reasons_for
  none_of_permitted [] h = refl
  none_of_permitted (c ∷ cs) h = ground (
    arith,
    (contains_iff p.allowed c).1 h.0.is_allowed,
    (contains_iff p.approval_required c).0,
    λ (m : Elem c p.approval_required). (contains_iff granted c).1 (h.0.is_approved m),
    none_of_permitted cs h.1,
  )

  reason_inv :
      (r : PolicyRejection) (cs : List Text)
      → Elem r (reasons_for p granted cs)
      → IsWarranted p granted cs r
  unfolding reasons_for
  reason_inv (capability_not_allowed d) [] m = absurd m
  reason_inv (PolicyRejection.approval_required d) [] m = absurd m
  reason_inv (capability_not_allowed d) (c ∷ cs) m =
      ground (arith, reason_inv (capability_not_allowed d) cs, contains-false p.allowed c)
  reason_inv (PolicyRejection.approval_required d) (c ∷ cs) m = ground (
    arith,
    reason_inv (PolicyRejection.approval_required d) cs,
    (contains_iff p.allowed c).0,
    (contains_iff p.approval_required c).0,
    contains-false granted c,
  )

  reason_of :
      (r : PolicyRejection) (cs : List Text)
      → IsWarranted p granted cs r
      → Elem r (reasons_for p granted cs)
  unfolding reasons_for
  reason_of (capability_not_allowed d) [] w = absurd w.0
  reason_of (PolicyRejection.approval_required d) [] w = absurd w.0
  reason_of (capability_not_allowed d) (c ∷ cs) w =
      ground (arith, reason_of (capability_not_allowed d) cs, (contains_iff p.allowed c).0)
  reason_of (PolicyRejection.approval_required d) (c ∷ cs) w = ground (
    arith,
    reason_of (PolicyRejection.approval_required d) cs,
    (contains_iff p.allowed c).1,
    (contains_iff p.approval_required c).1,
    (contains_iff granted c).0,
  )

rejection_leq_total :
    (r s : PolicyRejection) → (rejection_leq r s ≡ true) ⊎ (rejection_leq s r ≡ true)
unfolding rejection_leq
rejection_leq_total (capability_not_allowed c) (capability_not_allowed d) = text_leq_total c d
rejection_leq_total (capability_not_allowed c) (PolicyRejection.approval_required d) = inl refl
rejection_leq_total (PolicyRejection.approval_required c) (capability_not_allowed d) = inr refl
rejection_leq_total (PolicyRejection.approval_required c) (PolicyRejection.approval_required d) =
    text_leq_total c d

rejection_leq_trans :
    (r s t : PolicyRejection)
    → rejection_leq r s ≡ true
    → rejection_leq s t ≡ true
    → rejection_leq r t ≡ true
unfolding rejection_leq
rejection_leq_trans (capability_not_allowed c) (capability_not_allowed d) (capability_not_allowed e)
      h k =
    text_leq_trans c d e h k
rejection_leq_trans (PolicyRejection.approval_required c) (PolicyRejection.approval_required d)
      (PolicyRejection.approval_required e) h k =
    text_leq_trans c d e h k
rejection_leq_trans r s t h k = ground arith

-- The promise of a decision: an approval names the requested capabilities, each of them permitted;
-- a rejection has at least one reason, its reasons are those that hold, and they are in order.
abbrev pub IsSoundDecision : CapabilityPolicy → List Text → List Text → PolicyDecision → Type 0
IsSoundDecision p granted requested (approved cs) =
    (cs ≡ requested) × All (IsPermitted p granted) requested
IsSoundDecision p granted requested (rejected rs) =
    (rs ≢ [])
    × IsSorted rejection_leq rs
    × ((r : PolicyRejection) → Elem r rs ↔ IsWarranted p granted requested r)

ne_nil : {A : Type 0} (a : A) (xs : List A) → Elem a xs → xs ≢ []
ne_nil a [] m = absurd m
ne_nil a (x ∷ xs) m = λ e. cc

decide_sound :
    (p : CapabilityPolicy) (granted cs : List Text) (rs : List PolicyRejection)
    → rs ≡ reasons_for p granted cs
    → IsSoundDecision p granted cs (decide_on cs rs)
unfolding decide_on
decide_sound p granted cs [] e = (refl, none_refused p granted cs (sym e))
decide_sound p granted cs (r ∷ rs) e = (
  ne_nil r (sort_by rejection_leq (r ∷ rs)) ((Elem-sort_by rejection_leq r (r ∷ rs)).1 (inl refl)),
  sort_by-IsSorted rejection_leq rejection_leq_total rejection_leq_trans (r ∷ rs),
  λ q. (
    λ m. reason_inv p granted q cs (subst (Elem q) e ((Elem-sort_by rejection_leq q (r ∷ rs)).0 m)),
    λ w.
        (Elem-sort_by rejection_leq q (r ∷ rs)).1
          (subst (Elem q) (sym e) (reason_of p granted q cs w)),
  ),
)

-- The decision on verified input is an approval of exactly the requested capabilities, each
-- allowed and, where required, approved, or else a rejection with the reasons that hold, all of
-- them, in order.
pub evaluate_verified-IsSoundDecision :
    (p : CapabilityPolicy) (intent : ExecutionIntent) (granted : List Text)
    → IsSoundDecision p granted intent.requested (evaluate_verified p intent granted)
unfolding evaluate_verified
evaluate_verified-IsSoundDecision p intent granted =
    decide_sound p granted intent.requested (reasons_for p granted intent.requested) refl

pub evaluate_verified-eq-approved :
    (p : CapabilityPolicy) (intent : ExecutionIntent) (granted : List Text)
    → All (IsPermitted p granted) intent.requested
    → evaluate_verified p intent granted ≡ approved intent.requested
unfolding evaluate_verified decide_on
evaluate_verified-eq-approved p intent granted h =
    rw (none_of_permitted p granted intent.requested h)
