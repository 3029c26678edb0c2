-- ===== src/Policy/Gate.antt =====
-- `CapabilityGate::authorize`: the whole gate, its approval source and its errors.
use mathlib.Core.Path.{subst}
use gareji_core.Base.{
  ◌≡◌, ◌⊎◌, inl, inr, true, List, [], ◌∷◌, Text, refl, arith, All, Elem, text_ord, contains,
  contains_iff, Bool-cases, ok, err, map_err, >>=-eq-ok, map_err-eq-ok,
}
use gareji_core.Policy.{
  CapabilityPolicy, ExecutionIntent, PolicyDecision, approved, invalid_input, approval_source,
  ApprovalSource, ApprovalSourceError, any_required, lookup_approvals, validate_capabilities,
  validate_policy, validate_intent, evaluate_verified, authorize,
}
use gareji_core.Policy.Validation.{
  IsCapability, IsValidPolicy, IsValidIntent, validate_policy_iff, validate_intent_iff,
  validate_capabilities_iff,
}
use gareji_core.Policy.Decision.{
  IsPermitted, IsSoundDecision, evaluate_verified-IsSoundDecision, evaluate_verified-eq-approved,
}

-- The intent asks for a capability that needs approval.
abbrev pub NeedsApproval : CapabilityPolicy → ExecutionIntent → Type 0
NeedsApproval p intent = (c : Text) × Elem c intent.requested × Elem c p.approval_required

any_required-true :
    (p : CapabilityPolicy) (cs : List Text)
    → any_required p cs ≡ true
    → (c : Text) × Elem c cs × Elem c p.approval_required
unfolding any_required
any_required-true p [] h = ground arith
any_required-true p (c ∷ cs) h = elim (Bool-cases (contains p.approval_required c)) [
  | inl e ↦ (c, inl refl, (contains_iff p.approval_required c).0 e)
  | inr n ↦ let (d, m, k) = any_required-true p cs (ground arith) in (d, inr m, k)
]

any_required_of :
    (p : CapabilityPolicy) (c : Text) (cs : List Text)
    → Elem c cs
    → Elem c p.approval_required
    → any_required p cs ≡ true
unfolding any_required
any_required_of p c [] m k = absurd m
any_required_of p c (d ∷ cs) m k =
    ground (arith, (contains_iff p.approval_required d).1, any_required_of p c cs)

-- The approvals that a decision rests on: those that the source returned for this operation, all
-- of them capability names, or none where no requested capability needs approval.
abbrev pub AreApprovals : ApprovalSource → CapabilityPolicy → ExecutionIntent → List Text → Type 0
AreApprovals source p intent granted =
    (NeedsApproval p intent × (source intent.operation_id ≡ ok granted) × All IsCapability granted)
    ⊎ ((¬ NeedsApproval p intent) × (granted ≡ []))

lookup_approvals_sound :
    (source : ApprovalSource) (p : CapabilityPolicy) (intent : ExecutionIntent)
    (granted : List Text)
    → lookup_approvals source p intent ≡ ok granted
    → AreApprovals source p intent granted
unfolding lookup_approvals
lookup_approvals_sound source p intent granted h =
    elim (Bool-cases (any_required p intent.requested)) [
      | inl e ↦
          let taken = rw e at h in
          let (found, asked, rest) =
            >>=-eq-ok (map_err approval_source (source intent.operation_id)) _ taken in
          let (u, named, same) =
            >>=-eq-ok (map_err invalid_input (validate_capabilities found)) _ rest in
          let e' : found ≡ granted = cc in
          inl (
            any_required-true p intent.requested e,
            subst (λ g. source intent.operation_id ≡ ok g) e'
                (map_err-eq-ok approval_source _ asked),
            subst (All IsCapability) e'
                ((validate_capabilities_iff found).0 (map_err-eq-ok invalid_input _ named)),
          )
      | inr n ↦ inr (λ w. cc (any_required_of p w.0 intent.requested w.1 w.2, n), ground arith)
    ]

module _ (p : CapabilityPolicy) (source : ApprovalSource) (intent : ExecutionIntent) where
  -- Whatever the gate decides, the policy and the intent are valid, the approvals come from the
  -- trusted source, and the decision is sound for them: an approval covers exactly the requested
  -- capabilities, each allowed and, where required, approved; a rejection has the reasons that
  -- hold, all of them, in order.
  pub authorize_sound :
      {d : PolicyDecision}
      → authorize p source intent ≡ ok d
      → (granted : List Text) × IsValidPolicy p
        × IsValidIntent intent
        × AreApprovals source p intent granted
        × IsSoundDecision p granted intent.requested d
  unfolding authorize
  authorize_sound {d} h =
      let (u, policy_ok, rest) = >>=-eq-ok (map_err invalid_input (validate_policy p)) _ h in
      let (v, intent_ok, last) =
        >>=-eq-ok (map_err invalid_input (validate_intent intent)) _ rest in
      let (granted, looked, same) = >>=-eq-ok (lookup_approvals source p intent) _ last in
      let e : evaluate_verified p intent granted ≡ d = cc in
      (
        granted,
        (validate_policy_iff p).0 (map_err-eq-ok invalid_input _ policy_ok),
        (validate_intent_iff intent).0 (map_err-eq-ok invalid_input _ intent_ok),
        lookup_approvals_sound source p intent granted looked,
        subst (IsSoundDecision p granted intent.requested) e
            (evaluate_verified-IsSoundDecision p intent granted),
      )

  -- The gate fails closed: for a valid intent under a valid policy, where an approval is needed
  -- and the source fails, there is no decision but the source's error.
  pub authorize-source_error :
      (e : ApprovalSourceError)
      → IsValidPolicy p
      → IsValidIntent intent
      → NeedsApproval p intent
      → source intent.operation_id ≡ err e
      → authorize p source intent ≡ err (approval_source e)
  unfolding authorize lookup_approvals
  authorize-source_error e vp vi n down = rw ((validate_policy_iff p).1 vp) (
      rw ((validate_intent_iff intent).1 vi)
        (rw (any_required_of p n.0 intent.requested n.1 n.2) (rw down)))

  -- A valid intent under a valid policy is approved where all its capabilities are permitted by
  -- the approvals.
  pub authorize-eq-approved :
      (granted : List Text)
      → IsValidPolicy p
      → IsValidIntent intent
      → AreApprovals source p intent granted
      → All (IsPermitted p granted) intent.requested
      → authorize p source intent ≡ ok (approved intent.requested)
  unfolding authorize lookup_approvals
  authorize-eq-approved granted vp vi (inl (n, asked, named)) permitted =
      rw ((validate_policy_iff p).1 vp) (
        rw ((validate_intent_iff intent).1 vi) (
          rw (any_required_of p n.0 intent.requested n.1 n.2) (
            rw asked (
              rw ((validate_capabilities_iff granted).1 named)
                (rw (evaluate_verified-eq-approved p intent granted permitted))))))
  authorize-eq-approved granted vp vi (inr (free, nothing)) permitted =
      elim (Bool-cases (any_required p intent.requested)) [
        | inl e ↦ absurd (free (any_required-true p intent.requested e))
        | inr e ↦ rw ((validate_policy_iff p).1 vp) (
            rw ((validate_intent_iff intent).1 vi) (
              rw e
                (rw (← nothing) (rw (evaluate_verified-eq-approved p intent granted permitted)))))
      ]
