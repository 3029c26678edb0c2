-- ===== src/Host/Runs/Finish.antt =====
-- The end of a run (crates/agentmesh-host/src/run.rs): `finish` writes the audit document and the
-- envelope, and `execute_run_with` is the whole run.
use gareji_core.RunContract.{Value, no_entries, object}
use gareji_core.Base.{
  ℕ, Bool, true, false, Option, none, some, List, [], ◌∷◌, ◌++◌, Text, codes, if◌then◌else◌, Result,
  ok, err, is_empty,
}
use gareji_core.Framing.Encoding.{show}
use gareji_core.Protocol.{
  FailureCategory, FailureCode, FailureRecord, exit_code, new_failure, protocol_version,
}
use gareji_core.Protocol.Compact.{CompactArtifact, CompactEnvelope, error_envelope, ok_envelope}
use gareji_core.Host.{
  AuditError, Libraries, Os, PersistResult, RedactionMeta, RunConfig, RunOutcome, SidecarDocument,
  already_exists, dir_create, path_escape, rename, sync, temp_write, too_large,
}
use gareji_core.Host.Failures.{
  FailureCoordinator, new_coordinator, record_audit_failure, record_stdout_failure,
}
use gareji_core.Host.Redaction.{RedactionPolicy, is_noop}
use gareji_core.Host.Runs.Steps.{RunState, Flow, next, leave, panic, exhausted}
use gareji_core.Host.Runs.Exchange.{session}

unfoldable pub audit_code : AuditError → FailureCode
audit_code (too_large n) = FailureCode.sidecar_too_large
audit_code (dir_create e) = FailureCode.sidecar_write_failed
audit_code (temp_write e) = FailureCode.sidecar_write_failed
audit_code (sync e) = FailureCode.sidecar_write_failed
audit_code (rename e) = FailureCode.sidecar_write_failed
audit_code already_exists = FailureCode.sidecar_write_failed
audit_code path_escape = FailureCode.sidecar_write_failed

unfoldable pub audit_message : Libraries → AuditError → Text
unfolding show
audit_message lib (too_large n) = codes "sidecar " ++ (show n ++ codes " bytes exceed cap")
audit_message lib (dir_create e) = lib.audit_text (dir_create e)
audit_message lib (temp_write e) = lib.audit_text (temp_write e)
audit_message lib (sync e) = lib.audit_text (sync e)
audit_message lib (rename e) = lib.audit_text (rename e)
audit_message lib already_exists = lib.audit_text already_exists
audit_message lib path_escape = lib.audit_text path_escape

abbrev pub is_stdout_code : FailureCode → Bool
is_stdout_code FailureCode.stdout_write_failed = true
is_stdout_code _ = false

unfoldable pub is_stdout_write_failed : Option FailureRecord → Bool
is_stdout_write_failed none = false
is_stdout_write_failed (some f) = is_stdout_code f.code

-- `map(|p| vec![CompactArtifact::new(…)]).unwrap_or_default()`
abbrev pub artifacts_of : Option Text → List CompactArtifact
artifacts_of none = []
artifacts_of (some path) = record { path = path } ∷ []

abbrev pub exit_code_of : Option FailureRecord → ℕ
exit_code_of none = 0
exit_code_of (some f) = exit_code f.category

abbrev pub bytes_or_empty : Option (List ℕ) → List ℕ
bytes_or_empty none = []
bytes_or_empty (some bytes) = bytes

-- The failures and the path of the sidecar behind the writing of the audit document.
pub record Audited : Type 0 where
  pub failures : FailureCoordinator
  pub sidecar_path : Option Text

unfoldable pub persisted :
    Libraries → FailureCoordinator → Result PersistResult AuditError → Audited
unfolding record_audit_failure new_failure audit_code audit_message
persisted lib failures (ok res) = record { failures = failures; sidecar_path = some res.path }
persisted lib failures (err e) = record {
  failures = record_audit_failure (new_failure (audit_code e) (audit_message lib e)) failures;
  sidecar_path = none;
}

-- The envelope for the primary failure, or for the payload.
unfoldable pub envelope_of :
    Text → Option FailureRecord → Value → List CompactArtifact → CompactEnvelope
unfolding error_envelope ok_envelope
envelope_of run_id none payload artifacts = ok_envelope protocol_version run_id payload artifacts
envelope_of run_id (some f) payload artifacts =
    error_envelope protocol_version run_id f.category f.code f.message artifacts

unfoldable pub delivered : FailureCoordinator → Result Unit Text → FailureCoordinator
unfolding record_stdout_failure new_failure
delivered failures (ok u) = failures
delivered failures (err e) =
    record_stdout_failure (new_failure FailureCode.stdout_write_failed e) failures

unfoldable pub outcome_of : Text → CompactEnvelope → Option Text → FailureCoordinator → RunOutcome
unfolding is_stdout_write_failed error_envelope exit_code
outcome_of run_id envelope sidecar_path failures = record {
  envelope =
      if is_stdout_write_failed failures.primary
      then error_envelope protocol_version run_id FailureCategory.internal
          FailureCode.stdout_write_failed (codes "stdout write failed") (artifacts_of sidecar_path)
      else envelope;
  exit_code = exit_code_of failures.primary;
  sidecar_path = sidecar_path;
}

module _ {W : Type 0} (lib : Libraries) (os : Os W) (config : RunConfig) where
  unfoldable pub redaction_meta : Option RedactionPolicy → RedactionMeta
  unfolding is_noop
  redaction_meta (some policy) = record {
    pointers = policy.pointers;
    no_redaction_policy = is_noop policy;
    redacted_field_count = 0;
  }
  redaction_meta none = record {
    pointers = config.redact_pointers;
    no_redaction_policy = is_empty config.redact_pointers;
    redacted_field_count = 0;
  }

  unfoldable pub document_of : Text → Option RedactionPolicy → RunState W → SidecarDocument
  unfolding redaction_meta
  document_of run_id redaction s = record {
    protocol_version = protocol_version;
    host_version = lib.host_version;
    plugin_version = s.plugin_version;
    run_id = run_id;
    limits = config.limits;
    plugin_env_keys = config.plugin_env_keys;
    redaction = redaction_meta redaction;
    messages = s.messages;
    unknown_headers = s.unknown_headers;
    stderr = s.stderr;
    timings_ms = s.timings;
    exit_status = s.exit_status;
    primary_failure = s.failures.primary;
    secondary_failures = s.failures.secondary;
    hashes = s.hashes;
    interruption = s.interruption;
    commit = none;
  }

  unfoldable pub write_audit : Text → FailureCoordinator → Result (List ℕ) Text → W → Audited × W
  unfolding persisted record_audit_failure new_failure
  write_audit run_id failures (err e) w = (
    record {
      failures = record_audit_failure (new_failure FailureCode.sidecar_write_failed e) failures;
      sidecar_path = none;
    },
    w,
  )
  write_audit run_id failures (ok []) w = (record { failures = failures; sidecar_path = none }, w)
  write_audit run_id failures (ok (byte ∷ bytes)) w =
      let (result, w') =
        os.persist config.sidecar_dir run_id (byte ∷ bytes) config.limits.sidecar_max_bytes w in
      (persisted lib failures result, w')

  unfoldable pub finish : Text → Option RedactionPolicy → RunState W → RunOutcome × W
  unfolding document_of write_audit envelope_of delivered outcome_of
  finish run_id redaction s =
      let (audited, w1) =
        write_audit run_id s.failures (lib.document (document_of run_id redaction s)) s.world in
      let envelope =
        envelope_of run_id audited.failures.primary s.payload (artifacts_of audited.sidecar_path) in
      let (written, w2) = os.write_sink (bytes_or_empty (lib.envelope envelope)) w1 in
      (outcome_of run_id envelope audited.sidecar_path (delivered audited.failures written), w2)

-- How a run ends; the last is the lack of fuel.
pub data Ended : Type 0 where
  returned : RunOutcome → Ended
  panicked out_of_fuel : Ended

abbrev pub run_id_of : {W : Type 0} → Os W → Option Text → W → Text × W
run_id_of os none w = os.new_uuid w
run_id_of os (some id) w = (id, w)

module _ {W : Type 0} (lib : Libraries) (os : Os W) (config : RunConfig) where
  unfoldable pub initial_state : W → RunState W
  unfolding new_coordinator
  initial_state w = record {
    world = w;
    failures = new_coordinator;
    messages = [];
    unknown_headers = [];
    plugin_version = none;
    interruption = none;
    exit_status = none;
    hashes = [];
    payload = object no_entries;
    stderr = record {
      byte_count = 0;
      sha256 = lib.sha256_hex [];
      truncated = false;
      raw_utf8_lossy = none;
      sensitive_content = false;
    };
    timings = [];
  }

  unfoldable pub after_session : Text → Flow RedactionPolicy × RunState W → Ended × W
  unfolding finish
  after_session run_id (next redaction, s) =
      let (outcome, w) = finish lib os config run_id (some redaction) s in (returned outcome, w)
  after_session run_id (leave, s) =
      let (outcome, w) = finish lib os config run_id none s in (returned outcome, w)
  after_session run_id (panic, s) = (panicked, s.world)
  after_session run_id (exhausted, s) = (out_of_fuel, s.world)

  -- `execute_run_with`
  unfoldable pub execute_run_with : W → Ended × W
  unfolding initial_state session after_session
  execute_run_with w =
      let (run_id, w1) = run_id_of os config.run_id w in
      after_session run_id (session lib os config run_id (initial_state w1))
