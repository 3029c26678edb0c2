-- ===== src/Runner/Runs.antt =====
-- `RunExecutor::execute` as a whole (crates/gareji-core/src/runner.rs).
use mathlib.Core.Path.{subst}
use gareji_core.Base.{
  ◌≡◌, ◌≢◌, ◌⊎◌, inl, inr, refl, ap, sym, ◌∙◌, Option, List, Text, ℕ, Result, ok, err, >>=-eq-ok,
  map_err, map_err-eq-ok, All,
}
use gareji_core.Policy.{
  ApprovalSource, CapabilityPolicy, GateError, PolicyDecision, PolicyRejection, approved, authorize,
}
use gareji_core.Policy.Validation.{IsValidPolicy, IsValidIntent}
use gareji_core.Policy.Decision.{IsPermitted}
use gareji_core.Policy.Gate.{AreApprovals, authorize_sound, authorize-eq-approved}
use gareji_core.RunContract.{
  Value, CoreRunRequest, RunnerReport, CoreRunResult, CoreRunError, RunContractViolation,
  RunnerAdapter, finished, invalid_request, authorization, invalid_runner_report,
}
use gareji_core.Runner.{
  validate_request, validate_report, intent_of, authorized_request, finish, proceed, checked,
  execute,
}
use gareji_core.Runner.Reports.Validation.{
  IsValidRequest, IsValidReport, validate_request_iff, validate_report_iff,
}

-- The results that `execute` gives without the adapter.
pub data IsRefused : Result CoreRunResult CoreRunError → Type 0 where
  bad_request : (v : RunContractViolation) → IsRefused (err (invalid_request v))
  no_authority : (e : GateError) → IsRefused (err (authorization e))
  turned_down :
      (id : Text) (reasons : List PolicyRejection)
      → IsRefused (ok (CoreRunResult.rejected id reasons))

module _ {R : Type 0} (to_vec : Value → Option (List ℕ)) (policy : CapabilityPolicy)
    (source : ApprovalSource) (runner : RunnerAdapter R) where
  -- The one call of the adapter, and what allowed it.
  pub record HasRun (r : R) (request : CoreRunRequest) (res : Result CoreRunResult CoreRunError)
      (r' : R) : Type 0 where
    pub valid : IsValidRequest to_vec request
    pub granted : List Text
    pub approvals : AreApprovals source policy (intent_of request) granted
    pub permitted : All (IsPermitted policy granted) request.requested_capabilities
    pub report : RunnerReport
    pub called : runner r (authorized_request request request.requested_capabilities) ≡ (report, r')
    pub result :
        res ≡ finish to_vec policy source runner request request.requested_capabilities report

  proceed_runs :
      (r : R) (request : CoreRunRequest) (answer : Result PolicyDecision GateError)
      → IsValidRequest to_vec request
      → authorize policy source (intent_of request) ≡ answer
      → (IsRefused (proceed to_vec policy source runner r request answer).0
          × ((proceed to_vec policy source runner r request answer).1 ≡ r))
        ⊎ HasRun r request
            (proceed to_vec policy source runner r request answer).0
            (proceed to_vec policy source runner r request answer).1
  unfolding proceed
  proceed_runs r request (err e) valid h = inl (no_authority e, refl)
  proceed_runs r request (ok (PolicyDecision.rejected reasons)) valid h =
      inl (turned_down request.run_id reasons, refl)
  proceed_runs r request (ok (approved capabilities)) valid h =
      let (granted, vp, vi, approvals, (same, permitted)) =
        authorize_sound policy source (intent_of request) h in
      inr (record {
        valid = valid;
        granted = granted;
        approvals = approvals;
        permitted = permitted;
        report = (runner r (authorized_request request capabilities)).0;
        called = ap (λ cs. runner r (authorized_request request cs)) (sym same);
        result =
            ap
              (λ cs.
                finish to_vec policy source runner request cs
                  (runner r (authorized_request request capabilities)).0)
              same;
      })

  checked_runs :
      (r : R) (request : CoreRunRequest) (c : Result Unit RunContractViolation)
      → validate_request to_vec request ≡ c
      → (IsRefused (checked to_vec policy source runner r request c).0
          × ((checked to_vec policy source runner r request c).1 ≡ r))
        ⊎ HasRun r request
            (checked to_vec policy source runner r request c).0
            (checked to_vec policy source runner r request c).1
  unfolding checked
  checked_runs r request (err v) h = inl (bad_request v, refl)
  checked_runs r request (ok u) h =
      proceed_runs r request (authorize policy source (intent_of request))
        ((validate_request_iff to_vec request).0 h) refl

  -- The adapter is called at most once, and only for a valid request whose capabilities are all
  -- permitted: either `execute` returns a refusal and the adapter's state is as it was, or it makes
  -- that one call and returns what the call's report gives.
  pub execute_runs :
      (r : R) (request : CoreRunRequest)
      → (IsRefused (execute to_vec policy source runner r request).0
          × ((execute to_vec policy source runner r request).1 ≡ r))
        ⊎ HasRun r request
            (execute to_vec policy source runner r request).0
            (execute to_vec policy source runner r request).1
  unfolding execute
  execute_runs r request = checked_runs r request (validate_request to_vec request) refl

  not_refused :
      {res : Result CoreRunResult CoreRunError} {id : Text} {capabilities : List Text}
      {report : RunnerReport}
      → IsRefused res
      → res ≢ ok (finished id capabilities report)
  not_refused (bad_request v) = λ e. cc
  not_refused (no_authority e) = λ k. cc
  not_refused (turned_down id reasons) = λ e. cc

  finished_parts :
      (request : CoreRunRequest) (requested : List Text) (given : RunnerReport) {id : Text}
      {capabilities : List Text} {report : RunnerReport}
      → finish to_vec policy source runner request requested given
        ≡ ok (finished id capabilities report)
      → (id ≡ request.run_id)
        × (capabilities ≡ requested)
        × (report ≡ given)
        × IsValidReport to_vec given
  unfolding finish
  finished_parts request requested given {id} {capabilities} {report} h =
      let (_, valid, same) =
        >>=-eq-ok (map_err invalid_runner_report (validate_report to_vec given)) _ h in
      (
        cc,
        cc,
        cc,
        (validate_report_iff to_vec given).0 (map_err-eq-ok invalid_runner_report _ valid),
      )

  -- A run that is finished was valid, made its one call with exactly the requested capabilities, all
  -- of them permitted, and returns the adapter's own report, which is within the contract.
  pub execute-finished :
      (r : R) (request : CoreRunRequest) {id : Text} {capabilities : List Text}
      {report : RunnerReport}
      → (execute to_vec policy source runner r request).0 ≡ ok (finished id capabilities report)
      → (id ≡ request.run_id)
        × (capabilities ≡ request.requested_capabilities)
        × IsValidRequest to_vec request
        × IsValidReport to_vec report
        × (runner r (authorized_request request capabilities)
            ≡ (report, (execute to_vec policy source runner r request).1))
        × ((granted : List Text) × AreApprovals source policy (intent_of request) granted
            × All (IsPermitted policy granted) capabilities)
  execute-finished r request {id} {capabilities} {report} h = elim (execute_runs r request) [
    | inl (refused, same) ↦ absurd (not_refused refused h)
    | inr run ↦
        let (named, caps, own, fine) =
          finished_parts request request.requested_capabilities run.report (sym run.result ∙ h) in
        (
          named,
          caps,
          run.valid,
          subst (IsValidReport to_vec) (sym own) fine,
          subst
              (λ cs.
                runner r (authorized_request request cs)
                ≡ (report, (execute to_vec policy source runner r request).1))
              (sym caps)
              (run.called
                ∙ ap (λ q. (q, (execute to_vec policy source runner r request).1)) (sym own)),
          (
            run.granted,
            run.approvals,
            subst (All (IsPermitted policy run.granted)) (sym caps) run.permitted,
          ),
        )
  ]

  -- With a valid policy, a valid request whose capabilities are all permitted by the approvals
  -- is finished, where the report that the adapter returns for it is valid.
  pub execute_permitted :
      (r : R) (request : CoreRunRequest) (granted : List Text)
      → IsValidPolicy policy
      → IsValidIntent (intent_of request)
      → IsValidRequest to_vec request
      → AreApprovals source policy (intent_of request) granted
      → All (IsPermitted policy granted) request.requested_capabilities
      → IsValidReport to_vec
          (runner r (authorized_request request request.requested_capabilities)).0
      → execute to_vec policy source runner r request ≡ (
        ok (
            finished request.run_id request.requested_capabilities
              (runner r (authorized_request request request.requested_capabilities)).0),
        (runner r (authorized_request request request.requested_capabilities)).1,
      )
  unfolding execute checked proceed finish
  execute_permitted r request granted vp vi vr approvals permitted fine =
      rw ((validate_request_iff to_vec request).1 vr) (
        rw
          (authorize-eq-approved policy source (intent_of request) granted vp vi approvals
            permitted)
          (rw (
            (validate_report_iff to_vec
                (runner r (authorized_request request request.requested_capabilities)).0).1
              fine)))
