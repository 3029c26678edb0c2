-- ===== src/BridgeContract.antt =====
-- The contract of the Core bridge: requests, results and responses of
-- crates/gareji-contracts/src/lib.rs, and the Board port of crates/gareji-core/src/board.rs.
use gareji_core.Base.{ℕ, Bool, Option, List, Text, codes, Result, err, text_ord}
use gareji_core.Contracts.{ProjectView, SourcedContext, ActiveWorkItemResult, grant_ord}
use gareji_core.RunContract.{Value}

abbrev pub protocol_version_v0 : Text
protocol_version_v0 = codes "gareji.core-bridge.v0"

pub data CoreBridgeOperation : Type 0 where
  list_projects : CoreBridgeOperation
  get_project_context : Text → Option Text → CoreBridgeOperation
  set_active_work_item : Text → Text → CoreBridgeOperation
  record_progress : Value → CoreBridgeOperation
  get_checkpoint_status : Text → CoreBridgeOperation
  list_progress : Text → Option Text → Option Text → ℕ → CoreBridgeOperation

pub record CoreBridgeRequest : Type 0 where
  pub protocol_version : Text
  pub request_id : Text
  pub operation : CoreBridgeOperation

pub data CoreErrorCode : Type 0 where
  invalid_request permission_denied project_not_found work_item_not_found work_item_not_eligible :
      CoreErrorCode
  board_unavailable workspace_not_connected checkpoint_not_found conflict internal_error :
      CoreErrorCode

pub record CoreBridgeError : Type 0 where
  pub code : CoreErrorCode
  pub message : Text

pub data CoreBridgeResponse : Type 0 where
  ok_response : Text → Text → Value → CoreBridgeResponse
  error : Text → Text → CoreBridgeError → CoreBridgeResponse

pub record CoreFailure : Type 0 where
  pub code : CoreErrorCode
  pub message : Text

pub data BoardActiveWorkAssessment : Type 0 where
  eligible ineligible : BoardActiveWorkAssessment

pub data BoardPortError : Type 0 where
  project_not_found work_item_not_found unavailable invalid_response : BoardPortError

-- The trait `BoardPort`.
abbrev pub BoardPort : Type 0
BoardPort = Text → Text → Result BoardActiveWorkAssessment BoardPortError

-- `UnavailableBoard`
unfoldable pub unavailable_board : BoardPort
unavailable_board project_id work_item_id = err unavailable

pub record DeliveryView : Type 0 where
  pub destination_id : Text
  pub status : Text
  pub attempts : ℕ
  pub last_error : Option Text

pub record CheckpointStatusResult : Type 0 where
  pub checkpoint_id : Text
  pub checkpoint : Value
  pub deliveries : List DeliveryView

-- The results that are encoded as JSON: `ListProjectsResult`, `ProjectContextResult`,
-- `ActiveWorkItemResult`, `RecordProgressResult`, `CheckpointStatusResult` and `ListProgressResult`.
pub data CoreResult : Type 0 where
  projects : List ProjectView → CoreResult
  context : Text → Option Text → List SourcedContext → CoreResult
  active_work : ActiveWorkItemResult → CoreResult
  recorded : Text → Bool → List DeliveryView → CoreResult
  checkpoint_status : CheckpointStatusResult → CoreResult
  progress_page : List CheckpointStatusResult → Option Text → CoreResult
