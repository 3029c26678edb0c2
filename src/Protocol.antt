-- ===== src/Protocol.antt =====
-- The protocol between the plugin Host and a plugin (crates/agentmesh-proto): failure codes
-- (failure.rs), limits (limits.rs), and the JSON-RPC profile (rpc.rs). The child modules have the
-- compact envelope and the strict JSON parser.
pub mod Compact
pub mod Strict
use gareji_core.RunContract.{Value}
use gareji_core.Base.{
  ℕ, ◌*◌, ◌&&◌, Bool, Option, not, List, [], ◌∷◌, Text, codes, bytes, all, leb, ltb, length,
  is_empty, Result, ok, ◌>>◌, fail_if,
}

pub data FailureCategory : Type 0 where
  input protocol plugin timeout cancelled audit internal : FailureCategory

-- `FailureCategory::exit_code`
unfoldable pub exit_code : FailureCategory → ℕ
exit_code FailureCategory.input = 2
exit_code FailureCategory.protocol = 10
exit_code FailureCategory.plugin = 11
exit_code FailureCategory.timeout = 12
exit_code FailureCategory.cancelled = 12
exit_code FailureCategory.audit = 13
exit_code FailureCategory.internal = 70

pub data FailureCode : Type 0 where
  input_missing input_empty input_too_large input_read_failed input_invalid_json : FailureCode
  input_schema_violation plugin_not_found plugin_spawn_failed plugin_write_failed : FailureCode
  initialize_timeout run_timeout protocol_version_mismatch invalid_framing : FailureCode
  invalid_json schema_violation plugin_application_error unexpected_eof : FailureCode
  frame_too_large rpc_id_mismatch unexpected_output plugin_exited : FailureCode
  plugin_exit_timeout host_interrupted sidecar_too_large sidecar_write_failed : FailureCode
  stdout_write_failed host_internal_error : FailureCode

-- `FailureCode::category`
unfoldable pub category : FailureCode → FailureCategory
category FailureCode.input_missing = FailureCategory.input
category FailureCode.input_empty = FailureCategory.input
category FailureCode.input_too_large = FailureCategory.input
category FailureCode.input_read_failed = FailureCategory.input
category FailureCode.input_invalid_json = FailureCategory.input
category FailureCode.input_schema_violation = FailureCategory.input
category FailureCode.plugin_not_found = FailureCategory.plugin
category FailureCode.plugin_spawn_failed = FailureCategory.plugin
category FailureCode.plugin_write_failed = FailureCategory.plugin
category FailureCode.plugin_application_error = FailureCategory.plugin
category FailureCode.plugin_exited = FailureCategory.plugin
category FailureCode.initialize_timeout = FailureCategory.timeout
category FailureCode.run_timeout = FailureCategory.timeout
category FailureCode.plugin_exit_timeout = FailureCategory.timeout
category FailureCode.host_interrupted = FailureCategory.cancelled
category FailureCode.protocol_version_mismatch = FailureCategory.protocol
category FailureCode.invalid_framing = FailureCategory.protocol
category FailureCode.invalid_json = FailureCategory.protocol
category FailureCode.schema_violation = FailureCategory.protocol
category FailureCode.unexpected_eof = FailureCategory.protocol
category FailureCode.frame_too_large = FailureCategory.protocol
category FailureCode.rpc_id_mismatch = FailureCategory.protocol
category FailureCode.unexpected_output = FailureCategory.protocol
category FailureCode.sidecar_too_large = FailureCategory.audit
category FailureCode.sidecar_write_failed = FailureCategory.audit
category FailureCode.stdout_write_failed = FailureCategory.internal
category FailureCode.host_internal_error = FailureCategory.internal

pub record FailureRecord : Type 0 where
  pub category : FailureCategory
  pub code : FailureCode
  pub message : Text

-- `FailureRecord::new`
unfoldable pub new_failure : FailureCode → Text → FailureRecord
unfolding category
new_failure code message = record { category = category code; code = code; message = message }

pub record SecondaryFailure : Type 0 where
  pub category : FailureCategory
  pub code : FailureCode
  pub message : Text

-- `From<FailureRecord> for SecondaryFailure`
unfoldable pub to_secondary : FailureRecord → SecondaryFailure
to_secondary f = record { category = f.category; code = f.code; message = f.message }

pub record Limits : Type 0 where
  pub input_max_bytes : ℕ
  pub frame_max_bytes : ℕ
  pub stderr_retain_bytes : ℕ
  pub initialize_timeout_ms : ℕ
  pub run_timeout_ms : ℕ
  pub exit_grace_ms : ℕ
  pub sidecar_max_bytes : ℕ
  pub json_max_depth : ℕ
  pub json_max_nodes : ℕ
  pub header_block_max_bytes : ℕ
  pub header_line_max_bytes : ℕ
  pub header_max_lines : ℕ
  pub content_length_digits_max : ℕ

-- `Default for Limits`
abbrev pub default_limits : Limits
default_limits = record {
  input_max_bytes = 1 * 1024 * 1024;
  frame_max_bytes = 4 * 1024 * 1024;
  stderr_retain_bytes = 256 * 1024;
  initialize_timeout_ms = 5000;
  run_timeout_ms = 60000;
  exit_grace_ms = 2000;
  sidecar_max_bytes = 10 * 1024 * 1024;
  json_max_depth = 64;
  json_max_nodes = 100000;
  header_block_max_bytes = 8 * 1024;
  header_line_max_bytes = 1 * 1024;
  header_max_lines = 16;
  content_length_digits_max = 10;
}

-- The errors without their texts, but for the key.
pub data ProtoError : Type 0 where
  duplicate_key : Text → ProtoError
  invalid_json tree_bound schema_violation invalid_id batch_rejected : ProtoError

abbrev pub protocol_version : Text
protocol_version = codes "2026-07-15"

-- `JsonRpcId::new`: an identity of 1 to 128 bytes of visible ASCII.
unfoldable pub visible_byte : ℕ → Bool
visible_byte b = leb 0x21 b && leb b 0x7e

unfoldable pub rpc_id : Text → Result Text ProtoError
unfolding bytes visible_byte
rpc_id value = do
  fail_if (is_empty value) invalid_id
  fail_if (ltb 128 (length (bytes value))) invalid_id
  fail_if (not (all visible_byte (bytes value))) invalid_id
  ok value

pub record JsonRpcRequest (P : Type 0) : Type 0 where
  pub method : Text
  pub params : P
  pub id : Text

-- The numeric code as it is printed.
pub record JsonRpcError : Type 0 where
  pub code : Text
  pub message : Text
  pub details : Option Value

pub record JsonRpcResponse (R : Type 0) : Type 0 where
  pub result : Option R
  pub error : Option JsonRpcError
  pub id : Text

pub record InitializeParams : Type 0 where
  pub protocol_versions : List Text
  pub host_version : Text
  pub capabilities : List Text

-- `InitializeParams::phase0`
unfoldable pub phase0 : Text → InitializeParams
phase0 version = record {
  protocol_versions = protocol_version ∷ [];
  host_version = version;
  capabilities = codes "compact_output" ∷ codes "sidecar_refs" ∷ [];
}

pub record InitializeResult : Type 0 where
  pub protocol_version : Text
  pub plugin_version : Text
  pub capabilities : List Text

pub record RunParams : Type 0 where
  pub run_id : Text
  pub input : Value

pub record RunResult : Type 0 where
  pub payload : Value
