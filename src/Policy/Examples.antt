-- ===== src/Policy/Examples.antt =====
-- The capability gate on the inputs of its own tests.
use gareji_core.Base.{
  ◌≡◌, inl, refl, List, [], ◌∷◌, Text, codes, ok, err, text_ord, text_leq, ◌==◌, contains, collect,
  insert, sort_by,
}
use gareji_core.Policy.{
  CapabilityPolicy, ExecutionIntent, ApprovalSource, approved, rejected, capability_not_allowed,
  new_source_error, valid_capability, validate_policy, new_policy, reasons_for, rejection_leq,
  evaluate_verified, authorize, any_required, PolicyRejection, validate_id, validate_capabilities,
  validate_intent, refuse_first, difference, lookup_approvals, decide_on,
}
use gareji_core.Policy.Validation.{
  IsCapability, IsValidPolicy, IsValidIntent, valid_capability_iff, validate_policy_iff,
  validate_intent_iff,
}
use gareji_core.Policy.Decision.{IsSoundDecision}
use gareji_core.Policy.Gate.{AreApprovals, authorize_sound, authorize-eq-approved}

program : Unit {0}
unfolding valid_capability validate_policy new_policy reasons_for rejection_leq evaluate_verified
    authorize any_required validate_id validate_capabilities validate_intent refuse_first difference
    lookup_approvals decide_on text_leq ◌==◌ contains collect insert sort_by new_source_error
program = tt

abbrev write : Text
write = codes "production.write"

abbrev delete : Text
delete = codes "filesystem.delete"

abbrev guarded : CapabilityPolicy
guarded = record { allowed = write ∷ []; approval_required = write ∷ [] }

abbrev one_write : ExecutionIntent
one_write = record { operation_id = codes "run-4"; requested = write ∷ [] }

abbrev granting : ApprovalSource
granting id = ok (write ∷ [])

abbrev failing : ApprovalSource
failing id = err (new_source_error (codes "board_unavailable"))

exact_approval : authorize guarded granting one_write ≡ ok (approved (write ∷ []))
unfolding program
exact_approval = refl

both_reasons :
    authorize guarded (λ id. ok []) (record one_write { requested = delete ∷ write ∷ [] })
    ≡ ok (rejected (capability_not_allowed delete ∷ PolicyRejection.approval_required write ∷ []))
unfolding program
both_reasons = refl

write-IsCapability : IsCapability write
unfolding program
write-IsCapability = (valid_capability_iff write).0 refl

guarded-IsValidPolicy : IsValidPolicy guarded
unfolding program
guarded-IsValidPolicy = (validate_policy_iff guarded).0 refl

one_write-IsValidIntent : IsValidIntent one_write
unfolding program
one_write-IsValidIntent = (validate_intent_iff one_write).0 refl

new_guarded : new_policy (write ∷ write ∷ []) (write ∷ []) ≡ ok guarded
unfolding program
new_guarded = refl

authorize_sound_example :
    (granted : List Text) × IsValidPolicy guarded
    × IsValidIntent one_write
    × AreApprovals granting guarded one_write granted
    × IsSoundDecision guarded granted one_write.requested (approved (write ∷ []))
authorize_sound_example = authorize_sound guarded granting one_write exact_approval

authorize-eq-approved_example : authorize guarded granting one_write ≡ ok (approved (write ∷ []))
authorize-eq-approved_example =
    authorize-eq-approved guarded granting one_write (write ∷ []) guarded-IsValidPolicy
      one_write-IsValidIntent (inl ((write, inl refl, inl refl), refl, (write-IsCapability, tt)))
      (record { is_allowed = inl refl; is_approved = λ m. inl refl }, tt)
