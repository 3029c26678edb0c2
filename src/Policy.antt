-- ===== src/Policy.antt =====
-- The capability gate (crates/gareji-core/src/policy.rs): policy and intent validation, the trusted
-- approval source, and the decision. A `BTreeSet<String>` is the list of its elements in order.
pub mod Validation
pub mod Decision
pub mod Gate
mod Examples
use gareji_core.Base.{
  ℕ, ◌≤◌, ◌≡◌, Bool, true, false, not, ◌&&◌, ◌||◌, Option, none, some, List, [], ◌∷◌, String, Text,
  ltb, leb, nat_beq, if◌then◌else◌, Result, ok, err, ◌>>=◌, ◌>>◌, fail_if, map_err, for_each, all,
  filter, length, take, bytes, is_ascii_lowercase, is_ascii_digit, is_empty, Ord, contains, collect,
  text_leq, text_ord, text_leq_antisym, text_leq_trans, text_leq_total, sort_by, ◌⊎◌, inl, inr, ap,
  refl, arith,
}

abbrev pub max_id_len : ℕ
max_id_len = 128

pub record CapabilityPolicy : Type 0 where
  pub allowed : List Text
  pub approval_required : List Text

pub record ExecutionIntent : Type 0 where
  pub operation_id : Text
  pub requested : List Text

pub data PolicyRejection : Type 0 where
  capability_not_allowed approval_required : Text → PolicyRejection

pub data PolicyDecision : Type 0 where
  approved : List Text → PolicyDecision
  rejected : List PolicyRejection → PolicyDecision

pub data PolicyInputError : Type 0 where
  invalid_id : String → String → PolicyInputError
  invalid_capability approval_for_disallowed_capability : Text → PolicyInputError

pub record ApprovalSourceError : Type 0 where
  pub code : Text

-- `ApprovalSourceError::new`
unfoldable pub new_source_error : Text → ApprovalSourceError
new_source_error code = record { code = take max_id_len code }

pub data GateError : Type 0 where
  invalid_input : PolicyInputError → GateError
  approval_source : ApprovalSourceError → GateError

-- The trait `ApprovalSource`: a trusted lookup that may fail.
abbrev pub ApprovalSource : Type 0
ApprovalSource = Text → Result (List Text) ApprovalSourceError

unfoldable pub capability_byte : ℕ → Bool
unfolding is_ascii_lowercase is_ascii_digit
capability_byte b =
    is_ascii_lowercase b || is_ascii_digit b || nat_beq b b'.' || nat_beq b b'_' || nat_beq b b'-'

-- The test in the loop of `validate_capabilities`.
unfoldable pub valid_capability : Text → Bool
unfolding capability_byte bytes
valid_capability c =
    not (is_empty c || ltb max_id_len (length (bytes c)) || not (all capability_byte (bytes c)))

unfoldable pub validate_capability : Text → Result Unit PolicyInputError
validate_capability c = fail_if (not (valid_capability c)) (invalid_capability c)

unfoldable pub validate_capabilities : List Text → Result Unit PolicyInputError
unfolding validate_capability
validate_capabilities capabilities = for_each validate_capability capabilities

unfoldable pub validate_id : String → Text → Result Unit PolicyInputError
validate_id field value = do
  fail_if (is_empty value) (invalid_id field "must not be empty")
  fail_if (ltb max_id_len (length value)) (invalid_id field "exceeds 128 characters")

-- `self.approval_required.difference(&self.allowed)`
unfoldable pub difference : List Text → List Text → List Text
difference xs ys = filter (λ x. not (contains ys x)) xs

unfoldable pub refuse_first : List Text → Result Unit PolicyInputError
refuse_first [] = ok tt
refuse_first (capability ∷ rest) = err (approval_for_disallowed_capability capability)

-- `CapabilityPolicy::validate`
unfoldable pub validate_policy : CapabilityPolicy → Result Unit PolicyInputError
unfolding refuse_first difference
validate_policy p = do
  validate_capabilities p.allowed
  validate_capabilities p.approval_required
  refuse_first (difference p.approval_required p.allowed)

-- `CapabilityPolicy::new`
unfoldable pub new_policy : List Text → List Text → Result CapabilityPolicy PolicyInputError
new_policy permitted guarded =
    let policy : CapabilityPolicy = record {
      allowed = collect permitted;
      approval_required = collect guarded;
    } in
    validate_policy policy >>= λ _. ok policy

-- `ExecutionIntent::validate`
unfoldable pub validate_intent : ExecutionIntent → Result Unit PolicyInputError
validate_intent intent = do
  validate_id "operation_id" intent.operation_id
  validate_capabilities intent.requested

-- The loop of `evaluate_verified`: what it pushes, in order.
unfoldable pub reasons_for : CapabilityPolicy → List Text → List Text → List PolicyRejection
reasons_for p approved_set [] = []
reasons_for p approved_set (c ∷ cs) =
    if not (contains p.allowed c)
    then capability_not_allowed c ∷ reasons_for p approved_set cs
    else if contains p.approval_required c && not (contains approved_set c)
    then PolicyRejection.approval_required c ∷ reasons_for p approved_set cs
    else reasons_for p approved_set cs

-- The derived order of `PolicyRejection`: by variant, then by capability.
unfoldable pub rejection_leq : PolicyRejection → PolicyRejection → Bool
rejection_leq (capability_not_allowed c) (capability_not_allowed d) = text_leq c d
rejection_leq (capability_not_allowed c) (PolicyRejection.approval_required d) = true
rejection_leq (PolicyRejection.approval_required c) (capability_not_allowed d) = false
rejection_leq (PolicyRejection.approval_required c) (PolicyRejection.approval_required d) =
    text_leq c d

-- The end of `evaluate_verified`.
unfoldable pub decide_on : List Text → List PolicyRejection → PolicyDecision
decide_on requested [] = approved requested
decide_on requested (r ∷ rs) = rejected (sort_by rejection_leq (r ∷ rs))

unfoldable pub evaluate_verified : CapabilityPolicy → ExecutionIntent → List Text → PolicyDecision
unfolding decide_on
evaluate_verified p intent approved_set =
    decide_on intent.requested (reasons_for p approved_set intent.requested)

unfoldable pub any_required : CapabilityPolicy → List Text → Bool
any_required p [] = false
any_required p (c ∷ cs) = contains p.approval_required c || any_required p cs

-- The approvals that `authorize` works with; the source is asked only if it matters.
unfoldable pub lookup_approvals :
    ApprovalSource → CapabilityPolicy → ExecutionIntent → Result (List Text) GateError
lookup_approvals source p intent =
    if any_required p intent.requested
    then (do
      found ← map_err approval_source (source intent.operation_id)
      map_err invalid_input (validate_capabilities found)
      ok found)
    else ok []

-- `CapabilityGate::authorize`
unfoldable pub authorize :
    CapabilityPolicy → ApprovalSource → ExecutionIntent → Result PolicyDecision GateError
authorize p source intent = do
  map_err invalid_input (validate_policy p)
  map_err invalid_input (validate_intent intent)
  found ← lookup_approvals source p intent
  ok (evaluate_verified p intent found)
