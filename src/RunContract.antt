-- ===== src/RunContract.antt =====
-- The contract of runs (crates/gareji-core/src/runner.rs): limits, JSON values, requests, reports,
-- violations and the Runner Adapter.
use gareji_core.Base.{ℕ, ◌-◌, ◌*◌, ◌^◌, Bool, Option, List, Text}
use gareji_core.Policy.{GateError, PolicyRejection}

abbrev pub max_run_id_chars : ℕ
max_run_id_chars = 128

abbrev pub max_timeout_seconds : ℕ
max_timeout_seconds = 86400

abbrev pub max_request_bytes : ℕ
max_request_bytes = 1024 * 1024

abbrev pub max_result_bytes : ℕ
max_result_bytes = 256 * 1024

abbrev pub max_json_depth : ℕ
max_json_depth = 64

abbrev pub max_json_nodes : ℕ
max_json_nodes = 100000

abbrev pub max_summary_chars : ℕ
max_summary_chars = 4096

abbrev pub max_failure_message_chars : ℕ
max_failure_message_chars = 2048

abbrev pub max_evidence_references : ℕ
max_evidence_references = 32

abbrev pub max_evidence_reference_chars : ℕ
max_evidence_reference_chars = 2048

abbrev pub max_token_bytes : ℕ
max_token_bytes = 128

abbrev pub usize_max : ℕ
usize_max = 2 ^ 64 - 1

-- serde_json's `Value`: a number is kept as it is written, an object as its entries in order.
mutual
  pub data Value : Type 0 where
    null : Value
    bool : Bool → Value
    number string : Text → Value
    array : Values → Value
    object : Entries → Value

  pub data Values : Type 0 where
    no_values : Values
    value_and : Value → Values → Values

  pub data Entries : Type 0 where
    no_entries : Entries
    entry_and : Text → Value → Entries → Entries

pub record CoreRunRequest : Type 0 where
  pub run_id : Text
  pub timeout_seconds : ℕ
  pub requested_capabilities : List Text
  pub payload : Value

pub record AuthorizedRunnerRequest : Type 0 where
  pub run_id : Text
  pub timeout_seconds : ℕ
  pub authorized_capabilities : List Text
  pub payload : Value

pub data RunnerOutcome : Type 0 where
  succeeded failed cancelled : RunnerOutcome

pub record EvidenceReference : Type 0 where
  pub kind : Text
  pub reference : Text

pub data RunnerFailureCategory : Type 0 where
  configuration execution timeout cancelled protocol evidence internal : RunnerFailureCategory

pub record RunnerFailure : Type 0 where
  pub category : RunnerFailureCategory
  pub code : Text
  pub message : Text

pub record RunnerReport : Type 0 where
  pub outcome : RunnerOutcome
  pub summary : Text
  pub payload : Value
  pub evidence : List EvidenceReference
  pub failure : Option RunnerFailure

pub data CoreRunResult : Type 0 where
  rejected : Text → List PolicyRejection → CoreRunResult
  finished : Text → List Text → RunnerReport → CoreRunResult

pub data RunContractViolation : Type 0 where
  invalid_run_id invalid_timeout payload_too_large payload_too_deep payload_too_complex :
      RunContractViolation
  invalid_summary too_many_evidence_references invalid_evidence_reference missing_failure :
      RunContractViolation
  unexpected_failure failure_outcome_mismatch invalid_failure : RunContractViolation

pub data CoreRunError : Type 0 where
  invalid_request : RunContractViolation → CoreRunError
  authorization : GateError → CoreRunError
  invalid_runner_report : RunContractViolation → CoreRunError

-- The trait `RunnerAdapter`, on a state `R`.
abbrev pub RunnerAdapter : Type 0 → Type 0
RunnerAdapter R = R → AuthorizedRunnerRequest → RunnerReport × R
