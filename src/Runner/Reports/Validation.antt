-- ===== src/Runner/Reports/Validation.antt =====
-- `validate_request` and `validate_report` as a whole (crates/gareji-core/src/runner.rs).
use gareji_core.Base.{
  ℕ, ◌≤◌, ◌≡◌, ◌≢◌, ◌↔◌, refl, Bool, true, false, not, ◌||◌, Option, none, some, List, length, ltb,
  nat_beq, ok, fail_if, for_each, All, arith, is_empty, compose_iff, seq_iff, guard_iff, fails_iff,
  for_each_iff, at_most_iff,
}
use gareji_core.Policy.Validation.{IsCapability}
use gareji_core.RunContract.{
  Value, CoreRunRequest, RunnerOutcome, RunnerFailureCategory, RunnerFailure, RunnerReport,
  EvidenceReference, succeeded, failed, configuration, execution, timeout, protocol, evidence,
  internal, invalid_run_id, invalid_timeout, invalid_summary, too_many_evidence_references,
  invalid_evidence_reference, invalid_failure, failure_outcome_mismatch, max_run_id_chars,
  max_timeout_seconds, max_request_bytes, max_result_bytes, max_summary_chars,
  max_failure_message_chars, max_evidence_references, max_evidence_reference_chars,
}
use gareji_core.Runner.{
  valid_token, valid_safe_text, any_control, validate_request, validate_json, validate_evidence,
  is_cancelled, is_cancellation, differ, validate_failure, validate_outcome, validate_report,
}
use gareji_core.Runner.Payloads.{IsBounded, validate_json_iff}
use gareji_core.Runner.Reports.{
  IsSafeText, IsPlain, valid_token_iff, valid_safe_text_iff, nonempty_iff, ltb-false_iff,
  or-false_iff, not-false_iff, plain_iff,
}

pub record IsValidRequest (to_vec : Value → Option (List ℕ)) (request : CoreRunRequest)
    : Type 0 where
  pub identified : IsPlain 128 request.run_id
  pub positive : 1 ≤ request.timeout_seconds
  pub a_day : request.timeout_seconds ≤ 86400
  pub payload : IsBounded to_vec 1048576 request.payload

deadline_iff :
    {E : Type 0} (n : ℕ) (e : E)
    → (fail_if (nat_beq n 0 || ltb max_timeout_seconds n) e ≡ ok tt) ↔ ((1 ≤ n) × (n ≤ 86400))
deadline_iff n e = (λ h. ground arith, λ h. ground arith)

-- `validate_request` accepts exactly the requests with a run identity of 1 to 128 characters, none
-- of them a control character, a deadline from one second to a day, and a bounded payload.
pub validate_request_iff :
    (to_vec : Value → Option (List ℕ)) (request : CoreRunRequest)
    → (validate_request to_vec request ≡ ok tt) ↔ IsValidRequest to_vec request
unfolding validate_request
validate_request_iff to_vec request =
    let id = request.run_id in
    let identity =
      or-false_iff (is_empty id || ltb max_run_id_chars (length id)) (any_control id)
        (or-false_iff (is_empty id) (ltb max_run_id_chars (length id)) (nonempty_iff id)
          (ltb-false_iff 128 (length id)))
        (plain_iff id) in
    let chain =
      seq_iff
        (fail_if (is_empty id || ltb max_run_id_chars (length id) || any_control id) invalid_run_id)
        _
        (compose_iff
          (fails_iff (is_empty id || ltb max_run_id_chars (length id) || any_control id)
            invalid_run_id)
          identity)
        (seq_iff
          (fail_if
            (nat_beq request.timeout_seconds 0 || ltb max_timeout_seconds request.timeout_seconds)
            invalid_timeout)
          _ (deadline_iff request.timeout_seconds invalid_timeout)
          (validate_json_iff to_vec request.payload max_request_bytes)) in
    (
      λ h.
          let (((a, b), c), ((d, e), f)) = chain.0 h in
          record { identified = ((a, b), c); positive = d; a_day = e; payload = f },
      λ v. chain.1 (
        ((v.identified.0.0, v.identified.0.1), v.identified.1),
        ((v.positive, v.a_day), v.payload),
      ),
    )

abbrev pub IsEvidence : EvidenceReference → Type 0
IsEvidence e = IsCapability e.kind × IsPlain 2048 e.reference

validate_evidence_iff : (e : EvidenceReference) → (validate_evidence e ≡ ok tt) ↔ IsEvidence e
unfolding validate_evidence
validate_evidence_iff e =
    let r = e.reference in
    let test =
      or-false_iff
        (not (valid_token e.kind) || is_empty r || ltb max_evidence_reference_chars (length r))
        (any_control r)
        (or-false_iff (not (valid_token e.kind) || is_empty r)
          (ltb max_evidence_reference_chars (length r))
          (or-false_iff (not (valid_token e.kind)) (is_empty r)
            (not-false_iff (valid_token e.kind) (valid_token_iff e.kind)) (nonempty_iff r))
          (ltb-false_iff 2048 (length r)))
        (plain_iff r) in
    let whole =
      compose_iff
        (fails_iff
          (not (valid_token e.kind)
            || is_empty r
            || ltb max_evidence_reference_chars (length r)
            || any_control r)
          invalid_evidence_reference)
        test in
    (
      λ h. let (((a, b), c), d) = whole.0 h in (a, ((b, c), d)),
      λ (a, ((b, c), d)). whole.1 (((a, b), c), d),
    )

-- A failure fits its outcome: both say that the run was cancelled, or neither does.
pub record IsFailureOf (outcome : RunnerOutcome) (failure : RunnerFailure) : Type 0 where
  pub code : IsCapability failure.code
  pub message : IsSafeText 2048 failure.message
  pub agrees :
      (outcome ≡ RunnerOutcome.cancelled) ↔ (failure.category ≡ RunnerFailureCategory.cancelled)

-- A failure is there exactly when the run did not succeed.
abbrev pub FitsOutcome : RunnerOutcome → Option RunnerFailure → Type 0
FitsOutcome outcome none = outcome ≡ succeeded
FitsOutcome outcome (some failure) = (outcome ≢ succeeded) × IsFailureOf outcome failure

pub record IsValidReport (to_vec : Value → Option (List ℕ)) (report : RunnerReport) : Type 0 where
  pub summary : IsSafeText 4096 report.summary
  pub payload : IsBounded to_vec 262144 report.payload
  pub few : length report.evidence ≤ 32
  pub evidence : All IsEvidence report.evidence
  pub failure : FitsOutcome report.outcome report.failure

cancelled_iff : (o : RunnerOutcome) → (is_cancelled o ≡ true) ↔ (o ≡ RunnerOutcome.cancelled)
unfolding is_cancelled
cancelled_iff succeeded = (λ h. cc, λ h. cc)
cancelled_iff failed = (λ h. cc, λ h. cc)
cancelled_iff RunnerOutcome.cancelled = (λ _. refl, λ _. refl)

cancellation_iff :
    (c : RunnerFailureCategory) → (is_cancellation c ≡ true) ↔ (c ≡ RunnerFailureCategory.cancelled)
unfolding is_cancellation
cancellation_iff configuration = (λ h. cc, λ h. cc)
cancellation_iff execution = (λ h. cc, λ h. cc)
cancellation_iff timeout = (λ h. cc, λ h. cc)
cancellation_iff RunnerFailureCategory.cancelled = (λ _. refl, λ _. refl)
cancellation_iff protocol = (λ h. cc, λ h. cc)
cancellation_iff evidence = (λ h. cc, λ h. cc)
cancellation_iff internal = (λ h. cc, λ h. cc)

differ-false_iff :
    {P Q : Type 0} (b c : Bool) → (b ≡ true) ↔ P → (c ≡ true) ↔ Q → (differ b c ≡ false) ↔ (P ↔ Q)
differ-false_iff true true p q = (λ _. (λ _. q.0 refl, λ _. p.0 refl), λ _. refl)
differ-false_iff true false p q = (λ h. cc, λ h. absurd (cc (q.1 (h.0 (p.0 refl)))))
differ-false_iff false true p q = (λ h. cc, λ h. absurd (cc (p.1 (h.1 (q.0 refl)))))
differ-false_iff false false p q =
    (λ _. (λ m. absurd (cc (p.1 m)), λ m. absurd (cc (q.1 m))), λ _. refl)

failure_iff :
    (o : RunnerOutcome) (f : RunnerFailure) → (validate_failure o f ≡ ok tt) ↔ IsFailureOf o f
unfolding validate_failure
failure_iff o f =
    let detail =
      or-false_iff (not (valid_token f.code))
        (not (valid_safe_text f.message max_failure_message_chars))
        (not-false_iff (valid_token f.code) (valid_token_iff f.code))
        (not-false_iff (valid_safe_text f.message max_failure_message_chars)
          (valid_safe_text_iff f.message 2048)) in
    let chain =
      seq_iff
        (fail_if
          (not (valid_token f.code) || not (valid_safe_text f.message max_failure_message_chars))
          invalid_failure)
        _
        (compose_iff
          (fails_iff
            (not (valid_token f.code) || not (valid_safe_text f.message max_failure_message_chars))
            invalid_failure)
          detail)
        (compose_iff
          (fails_iff (differ (is_cancelled o) (is_cancellation f.category))
            failure_outcome_mismatch)
          (differ-false_iff (is_cancelled o) (is_cancellation f.category) (cancelled_iff o)
            (cancellation_iff f.category))) in
    (
      λ h. let ((a, b), c) = chain.0 h in record { code = a; message = b; agrees = c },
      λ v. chain.1 ((v.code, v.message), v.agrees),
    )

outcome_iff :
    (o : RunnerOutcome) (f : Option RunnerFailure)
    → (validate_outcome o f ≡ ok tt) ↔ FitsOutcome o f
unfolding validate_outcome
outcome_iff succeeded none = (λ _. refl, λ _. refl)
outcome_iff succeeded (some f) = (λ h. cc, λ h. absurd (h.0 refl))
outcome_iff failed none = (λ h. cc, λ h. cc)
outcome_iff RunnerOutcome.cancelled none = (λ h. cc, λ h. cc)
outcome_iff failed (some f) =
    (λ h. (λ e. cc, (failure_iff failed f).0 h), λ h. (failure_iff failed f).1 h.1)
outcome_iff RunnerOutcome.cancelled (some f) = (
  λ h. (λ e. cc, (failure_iff RunnerOutcome.cancelled f).0 h),
  λ h. (failure_iff RunnerOutcome.cancelled f).1 h.1,
)

-- `validate_report` accepts exactly the reports with a safe summary, a bounded payload, at most 32
-- bounded evidence references, and a failure that is there exactly when the run did not succeed and
-- says that it was cancelled exactly when the outcome does.
pub validate_report_iff :
    (to_vec : Value → Option (List ℕ)) (report : RunnerReport)
    → (validate_report to_vec report ≡ ok tt) ↔ IsValidReport to_vec report
unfolding validate_report
validate_report_iff to_vec report =
    let chain =
      seq_iff (fail_if (not (valid_safe_text report.summary max_summary_chars)) invalid_summary) _
        (compose_iff (guard_iff (valid_safe_text report.summary max_summary_chars) invalid_summary)
          (valid_safe_text_iff report.summary 4096))
        (seq_iff (validate_json to_vec report.payload max_result_bytes) _
          (validate_json_iff to_vec report.payload max_result_bytes)
          (seq_iff
            (fail_if (ltb max_evidence_references (length report.evidence))
              too_many_evidence_references)
            _ (at_most_iff (length report.evidence) 32 too_many_evidence_references)
            (seq_iff (for_each validate_evidence report.evidence) _
              (for_each_iff validate_evidence IsEvidence validate_evidence_iff report.evidence)
              (outcome_iff report.outcome report.failure)))) in
    (
      λ h.
          let (a, (b, (c, (d, e)))) = chain.0 h in
          record { summary = a; payload = b; few = c; evidence = d; failure = e },
      λ v. chain.1 (v.summary, (v.payload, (v.few, (v.evidence, v.failure)))),
    )
