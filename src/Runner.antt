-- ===== src/Runner.antt =====
-- `RunExecutor` (crates/gareji-core/src/runner.rs): it validates a request, asks the capability
-- gate, calls the Runner Adapter once, and validates its report. The adapter is a step on a state of
-- its own.
pub mod Payloads
pub mod Reports
pub mod Runs
mod Examples
use gareji_core.RunContract.{
  AuthorizedRunnerRequest, CoreRunError, CoreRunRequest, CoreRunResult, Entries, EvidenceReference,
  RunContractViolation, RunnerAdapter, RunnerFailure, RunnerFailureCategory, RunnerOutcome,
  RunnerReport, Value, Values, array, authorization, bool, cancelled, configuration, entry_and,
  evidence, execution, failed, failure_outcome_mismatch, finished, internal,
  invalid_evidence_reference, invalid_failure, invalid_request, invalid_run_id,
  invalid_runner_report, invalid_summary, invalid_timeout, max_evidence_reference_chars,
  max_evidence_references, max_failure_message_chars, max_json_depth, max_json_nodes,
  max_request_bytes, max_result_bytes, max_run_id_chars, max_summary_chars, max_timeout_seconds,
  max_token_bytes, missing_failure, no_entries, no_values, null, number, object,
  payload_too_complex, payload_too_deep, payload_too_large, protocol, rejected, string, succeeded,
  timeout, too_many_evidence_references, unexpected_failure, usize_max, value_and,
}
use gareji_core.Base.{
  ℕ, zero, suc, min, ◌+◌, ◌-◌, ◌*◌, ◌^◌, ◌≡◌, Bool, true, false, not, ◌&&◌, ◌||◌, Option, none,
  some, List, [], ◌∷◌, ◌++◌, Text, ltb, leb, nat_beq, if◌then◌else◌, Result, ok, err, ◌>>=◌, ◌>>◌,
  fail_if, ok_or, map_err, for_each, all, length, map, bytes, is_control, is_whitespace, is_empty,
  is_ascii_lowercase, is_ascii_digit,
}
use gareji_core.Policy.{
  ApprovalSource, CapabilityPolicy, ExecutionIntent, GateError, PolicyDecision, PolicyRejection,
  approved, authorize,
}

-- `values.iter()` and `values.values()`
unfoldable pub listed : Values → List Value
listed no_values = []
listed (value_and v vs) = v ∷ listed vs

unfoldable pub entry_values : Entries → List Value
entry_values no_entries = []
entry_values (entry_and key v es) = v ∷ entry_values es

unfoldable pub children : Value → List Value
unfolding listed entry_values
children (array vs) = listed vs
children (object es) = entry_values es
children null = []
children (bool b) = []
children (number n) = []
children (string s) = []

-- `pending.extend(…)`: the stack is the list of its elements with the top first, so the last of the
-- children comes to stand first.
unfoldable pub extend : List (Value × ℕ) → List Value → ℕ → List (Value × ℕ)
extend pending [] depth = pending
extend pending (v ∷ vs) depth = extend ((v, depth) ∷ pending) vs depth

-- The loop of `validate_json`. Each round counts one node and refuses the node behind the limit, so
-- one round more than the limit is enough fuel.
unfoldable pub scan : ℕ → List (Value × ℕ) → ℕ → Result Unit RunContractViolation
unfolding children extend
scan fuel [] nodes = ok tt
scan zero (top ∷ pending) nodes = err payload_too_complex
scan (suc fuel) ((current, depth) ∷ pending) nodes =
    let counted = min (nodes + 1) usize_max in
    let rest = scan fuel (extend pending (children current) (depth + 1)) counted in
    if ltb max_json_depth depth
    then err payload_too_deep
    else if ltb max_json_nodes counted
    then err payload_too_complex
    else rest

-- `to_vec` stands for `serde_json::to_vec`.
unfoldable pub validate_json :
    (Value → Option (List ℕ)) → Value → ℕ → Result Unit RunContractViolation
unfolding scan
validate_json to_vec value max_bytes = do
  scan (suc max_json_nodes) ((value, 1) ∷ []) 0
  encoded ← ok_or (to_vec value) payload_too_complex
  fail_if (ltb max_bytes (length encoded)) payload_too_large

unfoldable pub token_byte : ℕ → Bool
unfolding is_ascii_lowercase is_ascii_digit
token_byte b =
    is_ascii_lowercase b || is_ascii_digit b || (nat_beq b b'.' || nat_beq b b'_' || nat_beq b b'-')

unfoldable pub valid_token : Text → Bool
unfolding token_byte bytes
valid_token value =
    not (is_empty value)
    && leb (length (bytes value)) max_token_bytes
    && all token_byte (bytes value)

-- `str::trim`
unfoldable pub trim_start : Text → Text
unfolding is_whitespace
trim_start [] = []
trim_start (c ∷ t) = if is_whitespace c then trim_start t else c ∷ t

unfoldable pub trim_end : Text → Text
unfolding is_whitespace
trim_end [] = []
trim_end (c ∷ t) =
    let rest = trim_end t in if is_empty rest && is_whitespace c then [] else c ∷ rest

unfoldable pub trim : Text → Text
unfolding trim_start trim_end
trim t = trim_end (trim_start t)

unfoldable pub safe_character : ℕ → Bool
unfolding is_control
safe_character c = not (is_control c) || (nat_beq c 10 || nat_beq c 13 || nat_beq c 9)

unfoldable pub valid_safe_text : Text → ℕ → Bool
unfolding trim safe_character
valid_safe_text value max_chars =
    not (is_empty (trim value)) && leb (length value) max_chars && all safe_character value

abbrev pub any_control : Text → Bool
any_control t = not (all (λ c. not (is_control c)) t)

unfoldable pub validate_request :
    (Value → Option (List ℕ)) → CoreRunRequest → Result Unit RunContractViolation
unfolding validate_json is_control
validate_request to_vec request = do
  fail_if
      (is_empty request.run_id
        || ltb max_run_id_chars (length request.run_id)
        || any_control request.run_id)
      invalid_run_id
  fail_if (nat_beq request.timeout_seconds 0 || ltb max_timeout_seconds request.timeout_seconds)
      invalid_timeout
  validate_json to_vec request.payload max_request_bytes

unfoldable pub validate_evidence : EvidenceReference → Result Unit RunContractViolation
unfolding valid_token is_control
validate_evidence e =
    fail_if
      (not (valid_token e.kind)
        || is_empty e.reference
        || ltb max_evidence_reference_chars (length e.reference)
        || any_control e.reference)
      invalid_evidence_reference

-- `matches!(outcome, RunnerOutcome::Cancelled)` and the same for the category.
unfoldable pub is_cancelled : RunnerOutcome → Bool
is_cancelled succeeded = false
is_cancelled failed = false
is_cancelled RunnerOutcome.cancelled = true

unfoldable pub is_cancellation : RunnerFailureCategory → Bool
is_cancellation configuration = false
is_cancellation execution = false
is_cancellation timeout = false
is_cancellation RunnerFailureCategory.cancelled = true
is_cancellation protocol = false
is_cancellation evidence = false
is_cancellation internal = false

abbrev pub differ : Bool → Bool → Bool
differ true b = not b
differ false b = b

unfoldable pub validate_failure : RunnerOutcome → RunnerFailure → Result Unit RunContractViolation
unfolding valid_token valid_safe_text is_cancelled is_cancellation
validate_failure outcome failure = do
  fail_if
      (not (valid_token failure.code)
        || not (valid_safe_text failure.message max_failure_message_chars))
      invalid_failure
  fail_if (differ (is_cancelled outcome) (is_cancellation failure.category))
      failure_outcome_mismatch

-- The match on the outcome and the failure.
unfoldable pub validate_outcome :
    RunnerOutcome → Option RunnerFailure → Result Unit RunContractViolation
unfolding validate_failure
validate_outcome succeeded none = ok tt
validate_outcome succeeded (some failure) = err unexpected_failure
validate_outcome failed none = err missing_failure
validate_outcome RunnerOutcome.cancelled none = err missing_failure
validate_outcome failed (some failure) = validate_failure failed failure
validate_outcome RunnerOutcome.cancelled (some failure) =
    validate_failure RunnerOutcome.cancelled failure

unfoldable pub validate_report :
    (Value → Option (List ℕ)) → RunnerReport → Result Unit RunContractViolation
unfolding valid_safe_text validate_json validate_evidence validate_outcome
validate_report to_vec report = do
  fail_if (not (valid_safe_text report.summary max_summary_chars)) invalid_summary
  validate_json to_vec report.payload max_result_bytes
  fail_if (ltb max_evidence_references (length report.evidence)) too_many_evidence_references
  for_each validate_evidence report.evidence
  validate_outcome report.outcome report.failure

abbrev pub intent_of : CoreRunRequest → ExecutionIntent
intent_of request = record {
  operation_id = request.run_id;
  requested = request.requested_capabilities;
}

abbrev pub authorized_request : CoreRunRequest → List Text → AuthorizedRunnerRequest
authorized_request request capabilities = record {
  run_id = request.run_id;
  timeout_seconds = request.timeout_seconds;
  authorized_capabilities = capabilities;
  payload = request.payload;
}

module _ {R : Type 0} (to_vec : Value → Option (List ℕ)) (policy : CapabilityPolicy)
    (source : ApprovalSource) (runner : RunnerAdapter R) where
  -- What is returned for the adapter's report.
  unfoldable pub finish :
      CoreRunRequest → List Text → RunnerReport → Result CoreRunResult CoreRunError
  finish request capabilities report = do
    map_err invalid_runner_report (validate_report to_vec report)
    ok (finished request.run_id capabilities report)

  -- The match on the gate's answer.
  unfoldable pub proceed :
      R → CoreRunRequest → Result PolicyDecision GateError → Result CoreRunResult CoreRunError × R
  unfolding finish
  proceed r request (err e) = (err (authorization e), r)
  proceed r request (ok (PolicyDecision.rejected reasons)) =
      (ok (CoreRunResult.rejected request.run_id reasons), r)
  proceed r request (ok (approved capabilities)) =
      let (report, r') = runner r (authorized_request request capabilities) in
      (finish request capabilities report, r')

  unfoldable pub checked :
      R → CoreRunRequest → Result Unit RunContractViolation → Result CoreRunResult CoreRunError × R
  unfolding proceed
  checked r request (err v) = (err (invalid_request v), r)
  checked r request (ok u) = proceed r request (authorize policy source (intent_of request))

  -- `RunExecutor::execute`
  unfoldable pub execute : R → CoreRunRequest → Result CoreRunResult CoreRunError × R
  unfolding checked
  execute r request = checked r request (validate_request to_vec request)
