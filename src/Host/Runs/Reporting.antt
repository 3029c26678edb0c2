-- ===== src/Host/Runs/Reporting.antt =====
-- What `finish` reports as a success (crates/agentmesh-host/src/run.rs): no failure was met.
use gareji_core.RunContract.{Value}
use gareji_core.Base.{
  ℕ, ◌≡◌, ◌≢◌, refl, sym, ◌∙◌, Bool, true, false, Option, none, some, List, [], ◌∷◌, Text, codes,
  Result, ok, err, if◌then◌else◌, bytes, text_ord,
}
use gareji_core.Protocol.{
  FailureCategory, FailureCode, FailureRecord, new_failure, protocol_version,
}
use gareji_core.Protocol.Compact.{CompactEnvelope, CompactOutcome, ok_envelope, error_envelope}
use gareji_core.Host.{AuditError, Libraries, Os, PersistResult, RunConfig, SidecarDocument}
use gareji_core.Host.Failures.{FailureCoordinator, record_audit_failure, record_stdout_failure}
use gareji_core.Host.Redaction.{RedactionPolicy}
use gareji_core.Host.Runs.Steps.{RunState}
use gareji_core.Host.Runs.Finish.{
  artifacts_of, delivered, document_of, envelope_of, finish, is_stdout_code, is_stdout_write_failed,
  outcome_of, persisted, write_audit,
}
use gareji_core.Host.Runs.Outcomes.{record_stdout_failure-primary}

record_audit_failure-ne_none :
    (f : FailureRecord) (g : FailureCoordinator) → (record_audit_failure f g).primary ≢ none
unfolding record_audit_failure
record_audit_failure-ne_none f g = go g.primary refl
  where
    go : (o : Option FailureRecord) → g.primary ≡ o → (record_audit_failure f g).primary ≢ none
    go none e = rw (record_audit_failure, e) (λ k. cc)
    go (some first) e = rw (record_audit_failure, e) (λ k. cc (sym e ∙ k))

outcome_of-none :
    (run_id : Text) (p : Option FailureRecord) (payload : Value) (path : Option Text)
    (g : FailureCoordinator)
    → g.primary ≡ p
    → (outcome_of run_id (envelope_of run_id p payload (artifacts_of path)) path g).envelope.outcome
      ≡ CompactOutcome.ok
    → (p ≡ none)
      × ((outcome_of run_id
            (envelope_of run_id p payload (artifacts_of path))
            path
            g).envelope.payload
          ≡ payload)
      × ((outcome_of run_id (envelope_of run_id p payload (artifacts_of path)) path g).exit_code
          ≡ 0)
unfolding outcome_of envelope_of is_stdout_write_failed ok_envelope
outcome_of-none run_id none payload path g e h = rw e (refl, refl, refl)
outcome_of-none run_id (some f) payload path g e h =
    absurd (failing (is_stdout_code f.code) (rw e at h))
  where
    failing :
        (b : Bool)
        → (if b
            then error_envelope protocol_version run_id FailureCategory.internal
                FailureCode.stdout_write_failed
                (codes "stdout write failed")
                (artifacts_of path)
            else error_envelope protocol_version run_id f.category f.code f.message
                (artifacts_of path)).outcome
          ≡ CompactOutcome.ok
        → ⊥
    failing true k = cc k
    failing false k = cc k

outcome_of-undelivered :
    (run_id message : Text) (envelope : CompactEnvelope) (path : Option Text)
    (g : FailureCoordinator)
    → ¬ (
        (outcome_of run_id envelope path (
          record_stdout_failure
            (new_failure FailureCode.stdout_write_failed message)
            g)).envelope.outcome
        ≡ CompactOutcome.ok)
unfolding outcome_of is_stdout_write_failed error_envelope new_failure
outcome_of-undelivered run_id message envelope path g h = cc (
    rw (record_stdout_failure-primary (new_failure FailureCode.stdout_write_failed message) g) at h)

-- The audit document was stored, and no failure was met.
persisted-none :
    (lib : Libraries) (g : FailureCoordinator) (r : Result PersistResult AuditError)
    → (persisted lib g r).failures.primary ≡ none
    → (g.primary ≡ none) × (path : Text) × ((persisted lib g r).sidecar_path ≡ some path)
unfolding persisted
persisted-none lib g (ok res) h = (h, res.path, refl)
persisted-none lib g (err e) h = absurd (record_audit_failure-ne_none _ g h)

write_audit-none :
    {W : Type 0} (lib : Libraries) (os : Os W) (config : RunConfig) (run_id : Text)
    (g : FailureCoordinator) (d : Result (List ℕ) Text) (w : W)
    → d ≢ ok []
    → (write_audit lib os config run_id g d w).0.failures.primary ≡ none
    → (g.primary ≡ none)
      × (path : Text) × ((write_audit lib os config run_id g d w).0.sidecar_path ≡ some path)
unfolding write_audit
write_audit-none lib os config run_id g (err e) w k h = absurd (record_audit_failure-ne_none _ g h)
write_audit-none lib os config run_id g (ok []) w k h = absurd (k refl)
write_audit-none lib os config run_id g (ok (byte ∷ bytes)) w k h =
    persisted-none lib g
      (os.persist config.sidecar_dir run_id (byte ∷ bytes) config.limits.sidecar_max_bytes w).0 h

delivered-none :
    (run_id : Text) (payload : Value) (path : Option Text) (g : FailureCoordinator)
    (r : Result Unit Text)
    → (outcome_of run_id
        (envelope_of run_id g.primary payload (artifacts_of path))
        path
        (delivered g r)).envelope.outcome
      ≡ CompactOutcome.ok
    → (g.primary ≡ none)
      × ((outcome_of run_id
            (envelope_of run_id g.primary payload (artifacts_of path))
            path
            (delivered g r)).envelope.payload
          ≡ payload)
      × ((outcome_of run_id
            (envelope_of run_id g.primary payload (artifacts_of path))
            path
            (delivered g r)).exit_code
          ≡ 0)
unfolding delivered
delivered-none run_id payload path g (ok u) h =
    outcome_of-none run_id g.primary payload path g refl h
delivered-none run_id payload path g (err e) h = absurd (outcome_of-undelivered run_id e _ path g h)

module _ {W : Type 0} (lib : Libraries) (os : Os W) (config : RunConfig)
    (writes : (d : SidecarDocument) → lib.document d ≢ ok []) where
  pub finish-none :
      (run_id : Text) (redaction : Option RedactionPolicy) (s : RunState W)
      → (finish lib os config run_id redaction s).0.envelope.outcome ≡ CompactOutcome.ok
      → (s.failures.primary ≡ none)
        × ((finish lib os config run_id redaction s).0.envelope.payload ≡ s.payload)
        × ((finish lib os config run_id redaction s).0.exit_code ≡ 0)
        × (path : Text) × ((finish lib os config run_id redaction s).0.sidecar_path ≡ some path)
  unfolding finish outcome_of
  finish-none run_id redaction s h =
      let d = lib.document (document_of lib os config run_id redaction s) in
      let audit = write_audit lib os config run_id s.failures d s.world in
      let (none_left, payload, zero_code) =
        delivered-none run_id s.payload audit.0.sidecar_path audit.0.failures _ h in
      let (unfailed, path, stored) =
        write_audit-none lib os config run_id s.failures d s.world
          (writes (document_of lib os config run_id redaction s)) none_left in
      (unfailed, payload, zero_code, path, stored)
