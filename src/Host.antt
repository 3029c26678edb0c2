-- ===== src/Host.antt =====
-- The plugin Host (crates/agentmesh-host): what a run is configured with and what it returns
-- (lifecycle.rs), the audit document (sidecar.rs), the errors of its storage (audit.rs), and the
-- operating system and the libraries that a run calls.
pub mod Failures
pub mod Redaction
pub mod Process
pub mod Streams
pub mod Runs
mod Examples
use gareji_core.RunContract.{Value}
use gareji_core.Base.{ℕ, Bool, Option, List, Text, Result}
use gareji_core.Framing.{FrameDecodeError, Headers}
use gareji_core.Protocol.{
  FailureRecord, InitializeParams, InitializeResult, JsonRpcRequest, JsonRpcResponse, Limits,
  ProtoError, RunParams, RunResult, SecondaryFailure,
}
use gareji_core.Protocol.Compact.{CompactEnvelope}
use gareji_core.Protocol.Strict.{Scalars}

pub record RunConfig : Type 0 where
  pub plugin : Text
  pub input : List ℕ
  pub sidecar_dir : Text
  pub plugin_env_keys : List Text
  pub redact_pointers : List Text
  pub capture_plugin_stderr : Bool
  pub limits : Limits
  pub run_id : Option Text

pub record RunOutcome : Type 0 where
  pub envelope : CompactEnvelope
  pub exit_code : ℕ
  pub sidecar_path : Option Text

pub record MessageRecord : Type 0 where
  pub direction : Text
  pub method : Option Text
  pub message : Value
  pub raw_sha256 : Text

pub record StderrCapture : Type 0 where
  pub byte_count : ℕ
  pub sha256 : Text
  pub truncated : Bool
  pub raw_utf8_lossy : Option Text
  pub sensitive_content : Bool

pub record RedactionMeta : Type 0 where
  pub pointers : List Text
  pub no_redaction_policy : Bool
  pub redacted_field_count : ℕ

pub record InterruptionMeta : Type 0 where
  pub host_interrupted : Bool
  pub direct_child_termination_attempted : Bool
  pub direct_child_exit_observed : Bool

pub record CommitMeta : Type 0 where
  pub sync_level : Text
  pub commit_method : Text

pub record SidecarDocument : Type 0 where
  pub protocol_version : Text
  pub host_version : Text
  pub plugin_version : Option Text
  pub run_id : Text
  pub limits : Limits
  pub plugin_env_keys : List Text
  pub redaction : RedactionMeta
  pub messages : List MessageRecord
  pub unknown_headers : List Headers
  pub stderr : StderrCapture
  pub timings_ms : List (Text × ℕ)
  pub exit_status : Option ℕ
  pub primary_failure : Option FailureRecord
  pub secondary_failures : List SecondaryFailure
  pub hashes : Headers
  pub interruption : Option InterruptionMeta
  pub commit : Option CommitMeta

pub data AuditError : Type 0 where
  dir_create temp_write sync rename : Text → AuditError
  too_large : ℕ → AuditError
  already_exists path_escape : AuditError

pub record PersistResult : Type 0 where
  pub path : Text
  pub sync_level : Text
  pub commit_method : Text

-- The command of the plugin, and which of its pipes were opened.
pub record Command : Type 0 where
  pub program : Text
  pub env : Headers

pub record Pipes : Type 0 where
  pub stdin : Bool
  pub stdout : Bool

-- A read of a pipe within a time limit: nothing came in time, the end, at least one byte, or an error.
pub data ReadOutcome : Type 0 where
  elapsed closed : ReadOutcome
  received : ℕ → List ℕ → ReadOutcome
  read_failed : Text → ReadOutcome

-- A read of the plugin's stderr before its end: at least one byte, or an error.
pub data StderrRead : Type 0 where
  chunk : ℕ → List ℕ → StderrRead
  stderr_failed : StderrRead

-- `std::process::ExitStatus`, with `code()` as a bit pattern and its printed form.
pub record ExitStatus : Type 0 where
  pub code : Option ℕ
  pub success : Bool
  pub shown : Text

-- What a run asks of the operating system, tokio, the audit store and the sink, as steps on a state of
-- their own. Instants and time limits are in nanoseconds. `join_stderr` gives what the task that reads
-- stderr has read, or nothing when the task panicked; `wait` gives nothing when the time is over or
-- the call fails.
pub record Os (W : Type 0) : Type 0 where
  pub is_cancelled : W → Bool × W
  pub now : W → ℕ × W
  pub utc_now : W → ℕ × W
  pub new_uuid : W → Text × W
  pub metadata : Text → W → Option Bool × W
  pub spawn : Command → W → Result Pipes Text × W
  pub write_stdin : List ℕ → W → Result Unit Text × W
  pub close_stdin : W → W
  pub read_stdout : ℕ → ℕ → W → ReadOutcome × W
  pub join_stderr : W → Option (List StderrRead) × W
  pub start_kill : W → Bool × W
  pub wait : ℕ → W → Option ExitStatus × W
  pub persist : Text → Text → List ℕ → ℕ → W → Result PersistResult AuditError × W
  pub write_sink : List ℕ → W → Result Unit Text × W

-- What a run calls without an effect: serde's encoders and decoders, SHA-256 in hexadecimal, the
-- environment of the Host, and the printed forms of errors.
pub record Libraries : Type 0 where
  pub scalars : Scalars
  pub from_slice : List ℕ → Option Value
  pub initialize_request : JsonRpcRequest InitializeParams → List ℕ
  pub run_request : JsonRpcRequest RunParams → List ℕ
  pub initialize_response : Value → Option (JsonRpcResponse InitializeResult)
  pub run_response : Value → Option (JsonRpcResponse RunResult)
  pub document : SidecarDocument → Result (List ℕ) Text
  pub envelope : CompactEnvelope → Option (List ℕ)
  pub sha256_hex : List ℕ → Text
  pub from_utf8_lossy : List ℕ → Text
  pub is_absolute : Text → Bool
  pub env_var : Text → Option Text
  pub host_version : Text
  pub proto_text : ProtoError → Text
  pub frame_text : FrameDecodeError → Text
  pub audit_text : AuditError → Text
