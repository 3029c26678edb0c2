-- ===== src/Protocol/Compact.antt =====
-- The compact envelope that the Host prints (crates/agentmesh-proto/src/compact.rs).
use gareji_core.RunContract.{Value, no_entries, object}
use gareji_core.Base.{Option, some, List, [], ◌∷◌, Text}
use gareji_core.Protocol.{FailureCategory, FailureCode}

pub data CompactOutcome : Type 0 where
  ok error : CompactOutcome

pub record CompactArtifact : Type 0 where
  pub path : Text

pub record CompactDiagnostic : Type 0 where
  pub category : Option FailureCategory
  pub code : Option FailureCode
  pub message : Text

pub record CompactEnvelope : Type 0 where
  pub schema_version : Text
  pub run_id : Text
  pub outcome : CompactOutcome
  pub payload : Value
  pub artifacts : List CompactArtifact
  pub diagnostics : List CompactDiagnostic

-- `CompactEnvelope::ok`
unfoldable pub ok_envelope : Text → Text → Value → List CompactArtifact → CompactEnvelope
ok_envelope schema_version run_id payload artifacts = record {
  schema_version = schema_version;
  run_id = run_id;
  outcome = CompactOutcome.ok;
  payload = payload;
  artifacts = artifacts;
  diagnostics = [];
}

-- `CompactEnvelope::error`
unfoldable pub error_envelope :
    Text → Text → FailureCategory → FailureCode → Text → List CompactArtifact → CompactEnvelope
error_envelope schema_version run_id category code message artifacts = record {
  schema_version = schema_version;
  run_id = run_id;
  outcome = CompactOutcome.error;
  payload = object no_entries;
  artifacts = artifacts;
  diagnostics = record { category = some category; code = some code; message = message } ∷ [];
}
