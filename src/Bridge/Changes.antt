-- ===== src/Bridge/Changes.antt =====
-- What the operations of the bridge change (crates/gareji-core/src/bridge.rs).
use mathlib.Core.Path.{subst}
use gareji_core.Base.{◌≡◌, ◌⊎◌, inl, inr, refl, ap, sym, List, Text, Result, ok, err}
use gareji_core.Contracts.{ProjectRegistration}
use gareji_core.Progress.{ProgressCheckpoint, DeliveryTarget}
use gareji_core.Progress.Recorder.{record_checkpoint}
use gareji_core.Progress.Recorder.Record.{record_checkpoint-IsSound}
use gareji_core.Registry.Invariant.{set_active_work_item-IsSound}
use gareji_core.RunContract.{Value}
use gareji_core.BridgeContract.{
  CoreBridgeOperation, CoreBridgeRequest, CoreFailure, BoardPort, list_projects,
  get_project_context, set_active_work_item, record_progress, get_checkpoint_status, list_progress,
}
use gareji_core.Bridge.{
  CoreBridge, Externals, targets_of, may_select, may_record, select_in, record_in, execute, accept,
  dispatch, handle,
}
use gareji_core.Bridge.Grants.{Authorized, IsConnected, may_select-Authorized, may_record-Connected}

module _ (x : Externals) (board : BoardPort) (b : CoreBridge) where
  -- The one change that an operation makes to the state of the bridge.
  abbrev pub IsEffect : CoreBridgeOperation → CoreBridge → Type 0
  IsEffect (set_active_work_item project_id work_item_id) b' = b' ≡ record b {
    registry =
        (gareji_core.Registry.set_active_work_item x.registry b.registry project_id work_item_id).1;
  }
  IsEffect (record_progress value) b' =
      (checkpoint : ProgressCheckpoint) × ((project : ProjectRegistration) × IsConnected x board b
          value checkpoint project
        × (b' ≡ record b {
          progress = (record_checkpoint x.progress b.progress checkpoint (targets_of project)).1;
        }))
  IsEffect list_projects b' = b' ≡ b
  IsEffect (get_project_context project_id work_item_id) b' = b' ≡ b
  IsEffect (get_checkpoint_status checkpoint_id) b' = b' ≡ b
  IsEffect (list_progress project_id work_item_id before limit) b' = b' ≡ b

  select_changes :
      (project_id work_item_id : Text) (m : Result Unit CoreFailure)
      → may_select x board b project_id work_item_id ≡ m
      → ((select_in x board b project_id work_item_id m).1 ≡ b)
        ⊎ (Authorized x board b (set_active_work_item project_id work_item_id)
            × IsEffect
                (set_active_work_item project_id work_item_id)
                (select_in x board b project_id work_item_id m).1)
  unfolding select_in
  select_changes project_id work_item_id (err e) h = inl refl
  select_changes project_id work_item_id (ok u) h =
      inr (may_select-Authorized x board b project_id work_item_id h, refl)

  record_changes :
      (value : Value) (m : Result (ProgressCheckpoint × List DeliveryTarget) CoreFailure)
      → may_record x board b value ≡ m
      → ((record_in x board b m).1 ≡ b)
        ⊎ (Authorized x board b (record_progress value)
            × IsEffect (record_progress value) (record_in x board b m).1)
  unfolding record_in
  record_changes value (err e) h = inl refl
  record_changes value (ok (c, targets)) h =
      let (project, connected, same) = may_record-Connected x board b value h in
      inr (
        (c, (project, connected)),
        (
          c,
          (
            project,
            connected,
            ap (λ t. record b { progress = (record_checkpoint x.progress b.progress c t).1 }) same,
          ),
        ),
      )

  -- The state changes only by an authorized operation, errors included: a selection runs the
  -- registry's own selection and leaves the recorder, a record runs the recorder's own record for the
  -- delivery targets of the project and leaves the registry, and all else changes nothing.
  pub execute_changes :
      (operation : CoreBridgeOperation)
      → ((execute x board b operation).1 ≡ b)
        ⊎ (Authorized x board b operation × IsEffect operation (execute x board b operation).1)
  unfolding execute
  execute_changes list_projects = inl refl
  execute_changes (get_project_context project_id work_item_id) = inl refl
  execute_changes (set_active_work_item project_id work_item_id) =
      select_changes project_id work_item_id (may_select x board b project_id work_item_id) refl
  execute_changes (record_progress value) = record_changes value (may_record x board b value) refl
  execute_changes (get_checkpoint_status checkpoint_id) = inl refl
  execute_changes (list_progress project_id work_item_id before limit) = inl refl

  -- The invariants of both modules.
  pub record IsSound (c : CoreBridge) : Type 0 where
    pub registry : gareji_core.Registry.Invariant.IsSound x.registry c.registry
    pub progress : gareji_core.Progress.Ledger.Invariant.IsSound c.progress

  effect-IsSound :
      (operation : CoreBridgeOperation) (b' : CoreBridge)
      → IsSound b
      → IsEffect operation b'
      → IsSound b'
  effect-IsSound list_projects b' s e = subst IsSound (sym e) s
  effect-IsSound (get_project_context project_id work_item_id) b' s e = subst IsSound (sym e) s
  effect-IsSound (get_checkpoint_status checkpoint_id) b' s e = subst IsSound (sym e) s
  effect-IsSound (list_progress project_id work_item_id before limit) b' s e =
      subst IsSound (sym e) s
  effect-IsSound (set_active_work_item project_id work_item_id) b' s e =
      subst IsSound (sym e) (record {
        registry =
            set_active_work_item-IsSound x.registry b.registry project_id work_item_id s.registry;
        progress = s.progress;
      })
  effect-IsSound (record_progress value) b' s (checkpoint, (project, connected, e)) =
      subst IsSound (sym e) (record {
        registry = s.registry;
        progress =
            (record_checkpoint-IsSound x.progress b.progress checkpoint (targets_of project)
              s.progress).0;
      })

  execute-IsSound :
      (operation : CoreBridgeOperation) → IsSound b → IsSound (execute x board b operation).1
  execute-IsSound operation s = elim (execute_changes operation) [
    | inl same ↦ subst IsSound (sym same) s
    | inr (may, effect) ↦ effect-IsSound operation _ s effect
  ]

  dispatch-IsSound :
      (request : CoreBridgeRequest) (m : Result Unit CoreFailure)
      → IsSound b
      → IsSound (dispatch x board b request m).1
  unfolding dispatch
  dispatch-IsSound request (err e) s = s
  dispatch-IsSound request (ok u) s = execute-IsSound request.operation s

  -- Whatever a request asks for, the bridge keeps the invariants of the registry and of the ledger.
  pub handle-IsSound :
      (request : CoreBridgeRequest) → IsSound b → IsSound (handle x board b request).1
  unfolding handle
  handle-IsSound request s = dispatch-IsSound request (accept request) s
