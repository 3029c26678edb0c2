-- ===== src/Runner/Examples.antt =====
-- Runs of the executor on the inputs of its own tests (crates/gareji-core/src/runner.rs), with an
-- adapter that counts its calls.
use gareji_core.Base.{
  ℕ, suc, ◌≡◌, ◌⊎◌, ◌↔◌, inl, refl, Option, none, some, List, [], ◌∷◌, Text, codes, ok, All,
  text_ord, text_leq, ◌==◌, contains, sort_by, bytes, is_control, is_whitespace, is_ascii_lowercase,
  is_ascii_digit,
}
use gareji_core.Policy.{
  ApprovalSource, CapabilityPolicy, authorize, valid_capability, capability_byte,
  validate_capability, validate_capabilities, validate_id, difference, refuse_first,
  validate_policy, validate_intent, reasons_for, evaluate_verified, decide_on, any_required,
  lookup_approvals, rejection_leq,
}
use gareji_core.Policy.Validation.{
  IsValidPolicy, IsValidIntent, validate_policy_iff, validate_intent_iff,
}
use gareji_core.Policy.Decision.{IsPermitted}
use gareji_core.Policy.Gate.{AreApprovals}
use gareji_core.RunContract.{
  Value, null, array, no_values, value_and, CoreRunRequest, AuthorizedRunnerRequest, RunnerReport,
  succeeded, finished,
}
use gareji_core.Runner.{
  listed, entry_values, children, extend, scan, validate_json, token_byte, valid_token, trim_start,
  trim_end, trim, safe_character, valid_safe_text, validate_request, validate_evidence,
  is_cancelled, is_cancellation, validate_failure, validate_outcome, validate_report, intent_of,
  authorized_request, finish, proceed, checked, execute,
}
use gareji_core.Runner.Payloads.{IsBounded, validate_json_iff}
use gareji_core.Runner.Reports.Validation.{
  IsValidRequest, IsValidReport, validate_request_iff, validate_report_iff,
}
use gareji_core.Runner.Runs.{IsRefused, HasRun, execute_runs, execute-finished, execute_permitted}

program : Unit {0}
unfolding text_leq ◌==◌ contains sort_by bytes is_control is_whitespace is_ascii_lowercase
    is_ascii_digit authorize valid_capability capability_byte validate_capability
    validate_capabilities validate_id difference refuse_first validate_policy validate_intent
    reasons_for evaluate_verified decide_on any_required lookup_approvals rejection_leq listed
    entry_values children extend scan validate_json token_byte valid_token trim_start trim_end trim
    safe_character valid_safe_text validate_request validate_evidence is_cancelled is_cancellation
    validate_failure validate_outcome validate_report finish proceed checked execute
program = tt

abbrev to_vec : Value → Option (List ℕ)
to_vec v = some (codes "{}")

abbrev policy : CapabilityPolicy
policy = record {
  allowed = codes "model.invoke" ∷ [];
  approval_required = codes "model.invoke" ∷ [];
}

abbrev granting : ApprovalSource
granting id = ok (codes "model.invoke" ∷ [])

abbrev request : CoreRunRequest
request = record {
  run_id = codes "run-1";
  timeout_seconds = 60;
  requested_capabilities = codes "model.invoke" ∷ [];
  payload = array (value_and null (value_and null no_values));
}

abbrev report : RunnerReport
report = record {
  outcome = succeeded;
  summary = codes "Done.";
  payload = null;
  evidence = record { kind = codes "audit_sidecar"; reference = codes "evidence.jsonl" } ∷ [];
  failure = none;
}

abbrev runner : ℕ → AuthorizedRunnerRequest → RunnerReport × ℕ
runner calls r = (report, suc calls)

ran :
    (execute to_vec policy granting runner 0 request).0
    ≡ ok (finished (codes "run-1") (codes "model.invoke" ∷ []) report)
unfolding program
ran = refl

request-IsValidRequest : IsValidRequest to_vec request
unfolding program
request-IsValidRequest = (validate_request_iff to_vec request).0 refl

report-IsValidReport : IsValidReport to_vec report
unfolding program
report-IsValidReport = (validate_report_iff to_vec report).0 refl

policy-IsValidPolicy : IsValidPolicy policy
unfolding program
policy-IsValidPolicy = (validate_policy_iff policy).0 refl

intent-IsValidIntent : IsValidIntent (intent_of request)
unfolding program
intent-IsValidIntent = (validate_intent_iff (intent_of request)).0 refl

validate_json_iff_example : (validate_json to_vec null 2 ≡ ok tt) ↔ IsBounded to_vec 2 null
validate_json_iff_example = validate_json_iff to_vec null 2

validate_report_iff_example : (validate_report to_vec report ≡ ok tt) ↔ IsValidReport to_vec report
validate_report_iff_example = validate_report_iff to_vec report

execute_runs_example :
    (IsRefused (execute to_vec policy granting runner 0 request).0
      × ((execute to_vec policy granting runner 0 request).1 ≡ 0))
    ⊎ HasRun to_vec policy granting runner 0 request
        (execute to_vec policy granting runner 0 request).0
        (execute to_vec policy granting runner 0 request).1
execute_runs_example = execute_runs to_vec policy granting runner 0 request

execute-finished_example :
    (codes "run-1" ≡ request.run_id)
    × (codes "model.invoke" ∷ [] ≡ request.requested_capabilities)
    × IsValidRequest to_vec request
    × IsValidReport to_vec report
    × (runner 0 (authorized_request request (codes "model.invoke" ∷ []))
        ≡ (report, (execute to_vec policy granting runner 0 request).1))
    × ((granted : List Text) × AreApprovals granting policy (intent_of request) granted
        × All (IsPermitted policy granted) (codes "model.invoke" ∷ []))
execute-finished_example = execute-finished to_vec policy granting runner 0 request ran

execute_permitted_example :
    execute to_vec policy granting runner 0 request
    ≡ (ok (finished request.run_id request.requested_capabilities report), 1)
execute_permitted_example =
    execute_permitted to_vec policy granting runner 0 request (codes "model.invoke" ∷ [])
      policy-IsValidPolicy intent-IsValidIntent request-IsValidRequest
      (inl ((codes "model.invoke", inl refl, inl refl), refl, (policy-IsValidPolicy.allowed_names)))
      (record { is_allowed = inl refl; is_approved = λ m. inl refl }, tt) report-IsValidReport
