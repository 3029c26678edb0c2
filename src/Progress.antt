-- ===== src/Progress.antt =====
-- Progress Checkpoints (crates/gareji-core/src/progress/types.rs): the data. The children hold the
-- validation of a checkpoint, the ledger that SQLite stores, and the recorder over it.
mod Statuses
pub mod Validate
pub mod Ledger
pub mod Recorder
pub mod Samples
use gareji_core.Base.{
  ℕ, Bool, true, false, Option, none, some, List, String, Text, codes, if◌then◌else◌, ◌==◌,
  text_ord,
}

abbrev pub schema_version_v0 : Text
schema_version_v0 = codes "gareji.progress-checkpoint.v0"

pub data CheckpointSource : Type 0 where
  runner mcp manual_cli codex_stop_hook git_post_commit : CheckpointSource

pub data ActorType : Type 0 where
  human agent system : ActorType

pub record CheckpointActor : Type 0 where
  pub kind : ActorType
  pub id : Text

pub data CheckpointOutcome : Type 0 where
  progress completed needs_review blocked failed no_action : CheckpointOutcome

pub record GitState : Type 0 where
  pub head : Option Text
  pub branch : Option Text
  pub dirty : Bool

pub data VerificationStatus : Type 0 where
  passed failed not_run unknown : VerificationStatus

pub record VerificationRecord : Type 0 where
  pub name : Text
  pub status : VerificationStatus
  pub evidence_ref : Option Text

pub data WorkItemState : Type 0 where
  backlog todo in_progress in_review blocked done cancelled : WorkItemState

pub record ProgressCheckpoint : Type 0 where
  pub schema_version : Text
  pub checkpoint_id : Text
  pub recorded_at : Text
  pub project_id : Text
  pub work_item_id : Option Text
  pub execution_workspace_id : Text
  pub source : CheckpointSource
  pub actor : CheckpointActor
  pub outcome : CheckpointOutcome
  pub summary : Text
  pub changed_paths : List Text
  pub git : Option GitState
  pub verification : List VerificationRecord
  pub evidence_refs : List Text
  pub recommended_state : Option WorkItemState

pub record DeliveryTarget : Type 0 where
  pub destination_id : Text

pub data DeliveryStatus : Type 0 where
  pending synced conflict failed : DeliveryStatus

unfoldable pub as_db : DeliveryStatus → Text
as_db pending = codes "pending"
as_db synced = codes "synced"
as_db conflict = codes "conflict"
as_db DeliveryStatus.failed = codes "failed"

unfoldable pub from_db : Text → Option DeliveryStatus
from_db value =
    if value == codes "pending"
    then some pending
    else if value == codes "synced"
    then some synced
    else if value == codes "conflict"
    then some conflict
    else if value == codes "failed"
    then some DeliveryStatus.failed
    else none

pub record DeliveryReceipt : Type 0 where
  pub destination_id : Text
  pub status : DeliveryStatus
  pub attempts : ℕ
  pub last_error : Option Text

pub record RecordReceipt : Type 0 where
  pub checkpoint_id : Text
  pub duplicate : Bool
  pub deliveries : List DeliveryReceipt

pub record CheckpointStatus : Type 0 where
  pub checkpoint : ProgressCheckpoint
  pub deliveries : List DeliveryReceipt

pub record CheckpointQuery : Type 0 where
  pub project_id : Text
  pub work_item_id : Option Text
  pub before_checkpoint_id : Option Text
  pub limit : ℕ

pub record CheckpointPage : Type 0 where
  pub checkpoints : List CheckpointStatus
  pub next_cursor : Option Text

pub data ProjectionOutcome : Type 0 where
  synced : ProjectionOutcome
  conflict failed : Text → ProjectionOutcome

-- The counters are `u32`.
pub record SyncSummary : Type 0 where
  pub attempted : ℕ
  pub synced : ℕ
  pub conflict : ℕ
  pub failed : ℕ

pub record CheckpointValidationError : Type 0 where
  pub field : String
  pub message : String
