-- ===== src/Policy/Validation.antt =====
-- What `validate_capabilities`, `CapabilityPolicy::validate` and `ExecutionIntent::validate` accept.
use mathlib.Core.Path.{subst}
use gareji_core.Base.{
  text_ord, String, is_empty, ltb, ◌||◌, ℕ, ◌≤◌, ◌≡◌, ◌↔◌, ◌⊎◌, inl, inr, Bool, true, false, not,
  List, [], ◌∷◌, Text, refl, arith, ok, for_each_sound, for_each_complete, length, All, all, Elem,
  bytes, contains, contains_iff, collect, Elem-collect, collect-IsAscending, IsAscending,
  Bool-cases, >>=-eq-ok, All_at, All-of,
}
use gareji_core.Policy.{
  CapabilityPolicy, ExecutionIntent, capability_byte, valid_capability, validate_capability,
  validate_capabilities, validate_id, validate_policy, validate_intent, difference, refuse_first,
  new_policy,
}

-- `[a-z0-9._-]`
abbrev pub IsCapabilityChar : ℕ → Type 0
IsCapabilityChar c =
    ((b'a' ≤ c) × (c ≤ b'z'))
    ⊎ (((b'0' ≤ c) × (c ≤ b'9')) ⊎ ((c ≡ b'.') ⊎ ((c ≡ b'_') ⊎ (c ≡ b'-'))))

pub record IsCapability (c : Text) : Type 0 where
  pub nonempty : 1 ≤ length c
  pub bounded : length c ≤ 128
  pub chars : All IsCapabilityChar c

capability_byte_iff : (b : ℕ) → (capability_byte b ≡ true) ↔ IsCapabilityChar b
unfolding capability_byte
capability_byte_iff b = (λ h. ground arith, λ h. ground arith)

bytes_of_capability :
    (t : Text)
    → all capability_byte (bytes t) ≡ true
    → All IsCapabilityChar t × (length (bytes t) ≡ length t)
unfolding bytes capability_byte
bytes_of_capability [] h = (tt, refl)
bytes_of_capability (c ∷ t) h = ground (arith, bytes_of_capability t)

capability_of_chars :
    (t : Text)
    → All IsCapabilityChar t
    → (all capability_byte (bytes t) ≡ true) × (length (bytes t) ≡ length t)
unfolding bytes capability_byte
capability_of_chars [] h = (refl, refl)
capability_of_chars (c ∷ t) h = ground (arith, capability_of_chars t h.1)

nonempty_length : (t : Text) → is_empty t ≡ false → 1 ≤ length t
nonempty_length [] h = ground arith
nonempty_length (c ∷ t) h = omega arith

nonempty_test : (t : Text) → 1 ≤ length t → is_empty t ≡ false
nonempty_test [] h = absurd (omega arith)
nonempty_test (c ∷ t) h = refl

-- The test of the code, read and met.
test_parts :
    (empty : Bool) (n : ℕ) (fits : Bool)
    → not (empty || ltb 128 n || not fits) ≡ true
    → (empty ≡ false) × (n ≤ 128) × (fits ≡ true)
test_parts empty n fits h = ground arith

test_of_parts :
    (empty : Bool) (n : ℕ) (fits : Bool)
    → empty ≡ false
    → n ≤ 128
    → fits ≡ true
    → not (empty || ltb 128 n || not fits) ≡ true
test_of_parts empty n fits e l f = ground arith

valid-IsCapability : (c : Text) → valid_capability c ≡ true → IsCapability c
unfolding valid_capability
valid-IsCapability c h =
    let (full, fits, chars) =
      test_parts (is_empty c) (length (bytes c)) (all capability_byte (bytes c)) h in
    let found = bytes_of_capability c chars in
    record { nonempty = nonempty_length c full; bounded = omega (arith, found.1); chars = found.0 }

IsCapability-valid : (c : Text) → IsCapability c → valid_capability c ≡ true
unfolding valid_capability
IsCapability-valid c h =
    let found = capability_of_chars c h.chars in
    test_of_parts _ _ _ (nonempty_test c h.nonempty) (omega (arith, found.1)) found.0

-- The gate accepts exactly the names of 1 to 128 characters out of a-z, 0-9, dot, underscore and
-- dash, although it measures the UTF-8 bytes of the name.
pub valid_capability_iff : (c : Text) → (valid_capability c ≡ true) ↔ IsCapability c
valid_capability_iff c = (valid-IsCapability c, IsCapability-valid c)

validate_capability_iff : (c : Text) → (validate_capability c ≡ ok tt) ↔ IsCapability c
unfolding validate_capability
validate_capability_iff c =
    (λ h. valid-IsCapability c (ground arith), λ h. rw (IsCapability-valid c h))

pub validate_capabilities_iff :
    (cs : List Text) → (validate_capabilities cs ≡ ok tt) ↔ All IsCapability cs
unfolding validate_capabilities
validate_capabilities_iff cs = (
  λ h. All-of IsCapability cs (λ c m.
      (validate_capability_iff c).0
        (All_at (λ x. validate_capability x ≡ ok tt) c cs (for_each_sound _ cs h) m)),
  λ h. for_each_complete validate_capability cs (
      All-of (λ x. validate_capability x ≡ ok tt) cs
        (λ c m. (validate_capability_iff c).1 (All_at IsCapability c cs h m))),
)

pub record IsValidPolicy (p : CapabilityPolicy) : Type 0 where
  pub allowed_names : All IsCapability p.allowed
  pub guarded_names : All IsCapability p.approval_required
  pub guarded_allowed : (c : Text) → Elem c p.approval_required → Elem c p.allowed

refuse_first_empty : (xs : List Text) → refuse_first xs ≡ ok tt → xs ≡ []
unfolding refuse_first
refuse_first_empty [] h = refl
refuse_first_empty (x ∷ xs) h = cc

difference_subset : (xs ys : List Text) → difference xs ys ≡ [] → (c : Text) → Elem c xs → Elem c ys
unfolding difference
difference_subset [] ys h c m = absurd m
difference_subset (x ∷ xs) ys h c m = elim (Bool-cases (contains ys x)) [
  | inl e ↦ ground (arith, (contains_iff ys x).0, difference_subset xs ys (ground arith) c)
  | inr n ↦ ground arith
]

subset_difference :
    (xs ys : List Text) → ((c : Text) → Elem c xs → Elem c ys) → difference xs ys ≡ []
unfolding difference
subset_difference [] ys h = refl
subset_difference (x ∷ xs) ys h =
    rw ((contains_iff ys x).1 (h x (inl refl))) (subset_difference xs ys (λ c m. h c (inr m)))

validate_policy_sound : (p : CapabilityPolicy) → validate_policy p ≡ ok tt → IsValidPolicy p
unfolding validate_policy
validate_policy_sound p h =
    let (u, first, rest) = >>=-eq-ok (validate_capabilities p.allowed) _ h in
    let (v, second, last) = >>=-eq-ok (validate_capabilities p.approval_required) _ rest in
    record {
      allowed_names = (validate_capabilities_iff p.allowed).0 first;
      guarded_names = (validate_capabilities_iff p.approval_required).0 second;
      guarded_allowed = difference_subset p.approval_required p.allowed (refuse_first_empty _ last);
    }

validate_policy_complete : (p : CapabilityPolicy) → IsValidPolicy p → validate_policy p ≡ ok tt
unfolding validate_policy refuse_first
validate_policy_complete p v = rw ((validate_capabilities_iff p.allowed).1 v.allowed_names) (
    rw ((validate_capabilities_iff p.approval_required).1 v.guarded_names)
      (rw (subset_difference p.approval_required p.allowed v.guarded_allowed)))

-- A policy is accepted exactly when its names are capabilities and every capability that needs
-- approval is allowed.
pub validate_policy_iff : (p : CapabilityPolicy) → (validate_policy p ≡ ok tt) ↔ IsValidPolicy p
validate_policy_iff p = (validate_policy_sound p, validate_policy_complete p)

pub record IsValidIntent (intent : ExecutionIntent) : Type 0 where
  pub identified : 1 ≤ length intent.operation_id
  pub bounded : length intent.operation_id ≤ 128
  pub names : All IsCapability intent.requested

validate_id_sound :
    (field : String) (value : Text)
    → validate_id field value ≡ ok tt
    → (1 ≤ length value) × (length value ≤ 128)
unfolding validate_id
validate_id_sound field [] h = cc
validate_id_sound field (c ∷ t) h = ground arith

validate_id_complete :
    (field : String) (value : Text)
    → 1 ≤ length value
    → length value ≤ 128
    → validate_id field value ≡ ok tt
unfolding validate_id
validate_id_complete field [] h k = absurd (omega arith)
validate_id_complete field (c ∷ t) h k = ground arith

-- An intent is accepted exactly when its identity has 1 to 128 characters and all that it
-- requests are capabilities.
pub validate_intent_iff :
    (intent : ExecutionIntent) → (validate_intent intent ≡ ok tt) ↔ IsValidIntent intent
unfolding validate_intent
validate_intent_iff intent = (
  λ h.
      let (u, first, rest) = >>=-eq-ok (validate_id "operation_id" intent.operation_id) _ h in
      let bounds = validate_id_sound _ _ first in
      record {
        identified = bounds.0;
        bounded = bounds.1;
        names = (validate_capabilities_iff intent.requested).0 rest;
      },
  λ v.
      rw (validate_id_complete "operation_id" intent.operation_id v.identified v.bounded)
        ((validate_capabilities_iff intent.requested).1 v.names),
)

-- What `CapabilityPolicy::new` returns is valid, holds exactly the names that it was given, and
-- keeps them in ascending order.
pub new_policy-IsValidPolicy :
    (permitted guarded : List Text) {p : CapabilityPolicy}
    → new_policy permitted guarded ≡ ok p
    → IsValidPolicy p
      × ((c : Text) → Elem c p.allowed ↔ Elem c permitted)
      × ((c : Text) → Elem c p.approval_required ↔ Elem c guarded)
      × IsAscending p.allowed
      × IsAscending p.approval_required
unfolding new_policy
new_policy-IsValidPolicy permitted guarded {p} h =
    let built : CapabilityPolicy = record {
      allowed = collect permitted;
      approval_required = collect guarded;
    } in
    let (u, valid, same) = >>=-eq-ok (validate_policy built) (λ _. ok built) h in
    let e : built ≡ p = cc in
    subst
      (λ q.
        IsValidPolicy q
        × ((c : Text) → Elem c q.allowed ↔ Elem c permitted)
        × ((c : Text) → Elem c q.approval_required ↔ Elem c guarded)
        × IsAscending q.allowed
        × IsAscending q.approval_required)
      e
      (
        validate_policy_sound built valid,
        λ c. Elem-collect c permitted,
        λ c. Elem-collect c guarded,
        collect-IsAscending permitted,
        collect-IsAscending guarded,
      )
