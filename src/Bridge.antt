-- ===== src/Bridge.antt =====
-- `CoreBridge` (crates/gareji-core/src/bridge.rs), the dispatch of the local operations over the
-- registry and the recorder, with the Board port (crates/gareji-core/src/board.rs) and the requests of
-- crates/gareji-contracts/src/lib.rs. A `debug_assert_eq!` on a returned identity is left out.
pub mod Grants
pub mod Changes
pub mod Responses
mod Examples
use gareji_core.BridgeContract.{
  BoardActiveWorkAssessment, BoardPort, BoardPortError, CheckpointStatusResult, CoreBridgeError,
  CoreBridgeOperation, CoreBridgeRequest, CoreBridgeResponse, CoreErrorCode, CoreFailure,
  CoreResult, DeliveryView, active_work, board_unavailable, checkpoint_not_found, checkpoint_status,
  conflict, context, eligible, error, get_checkpoint_status, get_project_context, ineligible,
  internal_error, invalid_request, invalid_response, list_progress, list_projects, ok_response,
  permission_denied, progress_page, project_not_found, projects, protocol_version_v0,
  record_progress, recorded, set_active_work_item, unavailable, unavailable_board,
  work_item_not_eligible, work_item_not_found, workspace_not_connected,
}
use gareji_core.Base.{
  ℕ, Bool, true, false, not, ◌||◌, Option, none, some, List, [], ◌∷◌, String, Text, codes, map,
  take, length, ltb, Result, ok, err, ◌>>=◌, ◌>>◌, fail_if, map_err, ok_or, contains, is_empty,
  ◌==◌, text_ord,
}
use gareji_core.Contracts.{
  ProjectGrant, ProjectRegistration, ProjectView, SourcedContext, ActiveWorkItemResult,
  read_context, select_active_work, write_progress, grant_ord,
}
use gareji_core.Progress.{
  ProgressCheckpoint, CheckpointStatus, CheckpointQuery, CheckpointPage, DeliveryTarget,
  DeliveryReceipt, DeliveryStatus, RecordReceipt,
}
use gareji_core.Progress.Ledger.{Ledger, ProgressError}
use gareji_core.Progress.Recorder.{record_checkpoint, status, read_all}
use gareji_core.Progress.Recorder.Pages.{list}
use gareji_core.Registry.{Registry, RegistryError, get, project_view}
use gareji_core.RunContract.{Value}

-- What the bridge takes from other packages: serde_json's conversions, and what its two modules take.
pub record Externals : Type 0 where
  pub registry : gareji_core.Registry.Externals
  pub progress : gareji_core.Progress.Ledger.Externals
  pub from_value : Value → Option ProgressCheckpoint
  pub checkpoint_value : ProgressCheckpoint → Option Value
  pub to_value : CoreResult → Option Value

pub record CoreBridge : Type 0 where
  pub registry : Registry
  pub progress : Ledger

unfoldable pub invalid : Text → CoreFailure
invalid message = record { code = invalid_request; message = message }

unfoldable pub internal : CoreFailure
internal = record { code = internal_error; message = codes "local Core operation failed" }

-- `CoreFailure::from_registry`
unfoldable pub from_registry : RegistryError → CoreFailure
unfolding invalid internal
from_registry (RegistryError.invalid field message) = invalid (codes "invalid project operation")
from_registry (RegistryError.project_not_found id) = record {
  code = CoreErrorCode.project_not_found;
  message = codes "project was not found or is not visible";
}
from_registry RegistryError.create_directory = internal
from_registry RegistryError.storage = internal
from_registry RegistryError.serialization = internal

-- `CoreFailure::from_board`
unfoldable pub from_board : BoardPortError → CoreFailure
unfolding internal
from_board BoardPortError.project_not_found = record {
  code = CoreErrorCode.project_not_found;
  message = codes "project was not found or is not visible in Board";
}
from_board BoardPortError.work_item_not_found = record {
  code = CoreErrorCode.work_item_not_found;
  message = codes "Work item was not found in the requested project";
}
from_board unavailable = record {
  code = board_unavailable;
  message = codes "Gareji Board is unavailable";
}
from_board invalid_response = internal

-- `CoreFailure::from_progress`
unfoldable pub from_progress : ProgressError → CoreFailure
unfolding invalid internal
from_progress (ProgressError.invalid_checkpoint e) = invalid (codes "invalid Progress Checkpoint")
from_progress (ProgressError.checkpoint_conflict id) = record {
  code = conflict;
  message = codes "checkpoint identity conflicts with stored content or destinations";
}
from_progress (ProgressError.delivery_set_mismatch id) = record {
  code = conflict;
  message = codes "checkpoint identity conflicts with stored content or destinations";
}
from_progress (ProgressError.checkpoint_not_found id) = record {
  code = CoreErrorCode.checkpoint_not_found;
  message = codes "checkpoint was not found";
}
from_progress ProgressError.create_directory = internal
from_progress ProgressError.storage = internal
from_progress ProgressError.serialization = internal
from_progress (ProgressError.corrupt_state message) = internal

unfoldable pub require_grant : List ProjectGrant → ProjectGrant → Result Unit CoreFailure
require_grant grants required =
    fail_if (not (contains grants required))
      (record { code = permission_denied; message = codes "project does not grant this operation" })

unfoldable pub validate_optional_id : Option Text → Result Unit CoreFailure
unfolding invalid
validate_optional_id none = ok tt
validate_optional_id (some value) =
    fail_if (is_empty value || ltb 128 (length value))
      (invalid (codes "invalid Work item identity"))

unfoldable pub delivery_status : DeliveryStatus → Text
delivery_status DeliveryStatus.pending = codes "pending"
delivery_status DeliveryStatus.synced = codes "synced"
delivery_status DeliveryStatus.conflict = codes "conflict"
delivery_status DeliveryStatus.failed = codes "failed"

unfoldable pub delivery_view : DeliveryReceipt → DeliveryView
unfolding delivery_status
delivery_view d = record {
  destination_id = d.destination_id;
  status = delivery_status d.status;
  attempts = d.attempts;
  last_error = d.last_error;
}

unfoldable pub encode : Externals → CoreResult → Result Value CoreFailure
unfolding internal
encode x result = ok_or (x.to_value result) internal

unfoldable pub checkpoint_status_result :
    Externals → CheckpointStatus → Result CheckpointStatusResult CoreFailure
unfolding internal delivery_view
checkpoint_status_result x s = do
  checkpoint ← ok_or (x.checkpoint_value s.checkpoint) internal
  ok (record {
    checkpoint_id = s.checkpoint.checkpoint_id;
    checkpoint = checkpoint;
    deliveries = map delivery_view s.deliveries;
  })

-- `collect::<Result<Vec<_>, _>>()`
abbrev pub collect_results :
    {A B : Type 0} → (A → Result B CoreFailure) → List A → Result (List B) CoreFailure
collect_results f [] = ok []
collect_results f (a ∷ as_) = do b ← f a; bs ← collect_results f as_; ok (b ∷ bs)

abbrev pub targets_of : ProjectRegistration → List DeliveryTarget
targets_of project = map (λ id. record { destination_id = id }) project.delivery_targets

unfoldable pub error_response : Text → CoreFailure → CoreBridgeResponse
error_response request_id failure =
    error protocol_version_v0 request_id
      (record { code = failure.code; message = take 256 failure.message })

unfoldable pub respond : Text → Result Value CoreFailure → CoreBridgeResponse
unfolding error_response
respond request_id (ok result) = ok_response protocol_version_v0 request_id result
respond request_id (err failure) = error_response request_id failure

-- The two checks of `handle`.
unfoldable pub accept : CoreBridgeRequest → Result Unit CoreFailure
unfolding invalid
accept request = do
  fail_if (not (request.protocol_version == protocol_version_v0))
      (invalid (codes "unsupported Core bridge protocol"))
  fail_if (is_empty request.request_id || ltb 128 (length request.request_id))
      (invalid (codes "invalid request identity"))

module _ (x : Externals) (board : BoardPort) where
  -- The project of an operation, with the grant that the operation requires.
  unfoldable pub granted : CoreBridge → Text → ProjectGrant → Result ProjectRegistration CoreFailure
  unfolding require_grant
  granted b project_id grant = do
    project ← map_err from_registry (get x.registry b.registry project_id)
    require_grant project.grants grant
    ok project

  unfoldable pub list_projects_of : CoreBridge → Result Value CoreFailure
  unfolding encode
  list_projects_of b = do
    found ← map_err from_registry (gareji_core.Registry.list x.registry b.registry)
    encode x (projects (map project_view found))

  unfoldable pub context_of : CoreBridge → Text → Option Text → Result Value CoreFailure
  unfolding granted encode
  context_of b project_id work_item_id = do
    validate_optional_id work_item_id
    project ← granted b project_id read_context
    encode x (context project_id work_item_id project.sourced_context)

  unfoldable pub require_eligible : BoardActiveWorkAssessment → Result Unit CoreFailure
  require_eligible eligible = ok tt
  require_eligible ineligible = err (record {
    code = work_item_not_eligible;
    message = codes "Work item state is not eligible for active work";
  })

  -- What comes before the call of the registry.
  unfoldable pub may_select : CoreBridge → Text → Text → Result Unit CoreFailure
  unfolding granted require_eligible
  may_select b project_id work_item_id = do
    granted b project_id select_active_work
    assessment ← map_err from_board (board project_id work_item_id)
    require_eligible assessment

  -- What comes before the call of the recorder: the checkpoint and its targets.
  unfoldable pub may_record :
      CoreBridge → Value → Result (ProgressCheckpoint × List DeliveryTarget) CoreFailure
  unfolding granted invalid
  may_record b value = do
    checkpoint ← ok_or (x.from_value value) (invalid (codes "invalid Progress Checkpoint"))
    project ← granted b checkpoint.project_id write_progress
    fail_if (not (project.execution_workspace == checkpoint.execution_workspace_id)) (record {
      code = workspace_not_connected;
      message = codes "checkpoint workspace is not connected to the project";
    })
    ok (checkpoint, targets_of project)

  unfoldable pub checkpoint_status_of : CoreBridge → Text → Result Value CoreFailure
  unfolding granted encode checkpoint_status_result
  checkpoint_status_of b checkpoint_id = do
    found ← map_err from_progress (status x.progress b.progress checkpoint_id)
    granted b found.checkpoint.project_id write_progress
    result ← checkpoint_status_result x found
    encode x (checkpoint_status result)

  unfoldable pub page_of : CoreBridge → CheckpointQuery → Result Value CoreFailure
  unfolding granted encode checkpoint_status_result
  page_of b query = do
    granted b query.project_id write_progress
    page ← map_err from_progress (list x.progress b.progress query)
    checkpoints ← collect_results (checkpoint_status_result x) page.checkpoints
    encode x (progress_page checkpoints page.next_cursor)

  unfoldable pub select_in :
      CoreBridge → Text → Text → Result Unit CoreFailure → Result Value CoreFailure × CoreBridge
  unfolding encode
  select_in b project_id work_item_id (err e) = (err e, b)
  select_in b project_id work_item_id (ok u) =
      let (selected, registry) =
        gareji_core.Registry.set_active_work_item x.registry b.registry project_id work_item_id in
      (
        (do result ← map_err from_registry selected; encode x (active_work result)),
        record b { registry = registry },
      )

  unfoldable pub record_in :
      CoreBridge
      → Result (ProgressCheckpoint × List DeliveryTarget) CoreFailure
      → Result Value CoreFailure × CoreBridge
  unfolding encode delivery_view
  record_in b (err e) = (err e, b)
  record_in b (ok (checkpoint, targets)) =
      let (received, progress) = record_checkpoint x.progress b.progress checkpoint targets in
      (
        (do
          receipt ← map_err from_progress received
          encode x (
              recorded receipt.checkpoint_id receipt.duplicate
                (map delivery_view receipt.deliveries))),
        record b { progress = progress },
      )

  -- `CoreBridge::execute`
  unfoldable pub execute : CoreBridge → CoreBridgeOperation → Result Value CoreFailure × CoreBridge
  unfolding list_projects_of context_of may_select may_record checkpoint_status_of page_of select_in
      record_in
  execute b list_projects = (list_projects_of b, b)
  execute b (get_project_context project_id work_item_id) =
      (context_of b project_id work_item_id, b)
  execute b (set_active_work_item project_id work_item_id) =
      select_in b project_id work_item_id (may_select b project_id work_item_id)
  execute b (record_progress checkpoint) = record_in b (may_record b checkpoint)
  execute b (get_checkpoint_status checkpoint_id) = (checkpoint_status_of b checkpoint_id, b)
  execute b (list_progress project_id work_item_id before_checkpoint_id limit) = (
    page_of b (record {
      project_id = project_id;
      work_item_id = work_item_id;
      before_checkpoint_id = before_checkpoint_id;
      limit = limit;
    }),
    b,
  )

  unfoldable pub dispatch :
      CoreBridge → CoreBridgeRequest → Result Unit CoreFailure → CoreBridgeResponse × CoreBridge
  unfolding respond execute
  dispatch b request (err failure) = (error_response request.request_id failure, b)
  dispatch b request (ok u) =
      let (result, b') = execute b request.operation in (respond request.request_id result, b')

  -- `CoreBridge::handle`
  unfoldable pub handle : CoreBridge → CoreBridgeRequest → CoreBridgeResponse × CoreBridge
  unfolding accept dispatch
  handle b request = dispatch b request (accept request)
