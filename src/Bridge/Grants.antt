-- ===== src/Bridge/Grants.antt =====
-- What the operations of the bridge require (crates/gareji-core/src/bridge.rs).
use mathlib.Core.Path.{subst}
use gareji_core.Base.{
  ◌≡◌, refl, ap, sym, ◌∙◌, not, Option, some, List, Text, codes, Elem, Result, ok, err, >>=-eq-ok,
  map_err, map_err-eq-ok, ok_or, ok_or-eq-ok, fail_if, unless-eq-ok, contains, contains_iff, ◌==◌,
  eq_iff, text_ord,
}
use gareji_core.Contracts.{
  ProjectGrant, ProjectRegistration, read_context, select_active_work, write_progress, grant_ord,
}
use gareji_core.Progress.{ProgressCheckpoint, CheckpointStatus, CheckpointQuery, DeliveryTarget}
use gareji_core.Progress.Recorder.{status}
use gareji_core.Registry.{get}
use gareji_core.RunContract.{Value}
use gareji_core.BridgeContract.{
  CoreBridgeOperation, CoreFailure, BoardPort, BoardActiveWorkAssessment, eligible, ineligible,
  list_projects, get_project_context, set_active_work_item, record_progress, get_checkpoint_status,
  list_progress,
}
use gareji_core.Bridge.{
  CoreBridge, Externals, invalid, from_registry, from_board, from_progress, require_grant,
  validate_optional_id, targets_of, granted, context_of, require_eligible, may_select, may_record,
  checkpoint_status_of, page_of, select_in, record_in, execute,
}

module _ (x : Externals) (board : BoardPort) (b : CoreBridge) where
  -- A registered project with a grant.
  abbrev pub HasGrant : Text → ProjectGrant → Type 0
  HasGrant project_id grant =
      (project : ProjectRegistration) × (get x.registry b.registry project_id ≡ ok project)
      × Elem grant project.grants

  -- A checkpoint of a project that may write progress, from the project's own workspace.
  pub record IsConnected (value : Value) (checkpoint : ProgressCheckpoint)
      (project : ProjectRegistration) : Type 0 where
    pub decoded : x.from_value value ≡ some checkpoint
    pub registered : get x.registry b.registry checkpoint.project_id ≡ ok project
    pub may_write : Elem write_progress project.grants
    pub workspace : project.execution_workspace ≡ checkpoint.execution_workspace_id

  -- What must hold for an operation to be carried out.
  abbrev pub Authorized : CoreBridgeOperation → Type 0
  Authorized list_projects = Unit
  Authorized (get_project_context project_id work_item_id) = HasGrant project_id read_context
  Authorized (set_active_work_item project_id work_item_id) =
      HasGrant project_id select_active_work × (board project_id work_item_id ≡ ok eligible)
  Authorized (record_progress value) =
      (checkpoint : ProgressCheckpoint) × ((project : ProjectRegistration) × IsConnected value
          checkpoint project)
  Authorized (get_checkpoint_status checkpoint_id) =
      (found : CheckpointStatus) × (status x.progress b.progress checkpoint_id ≡ ok found)
      × HasGrant found.checkpoint.project_id write_progress
  Authorized (list_progress project_id work_item_id before limit) =
      HasGrant project_id write_progress

  grant-Elem :
      (grants : List ProjectGrant) (g : ProjectGrant)
      → require_grant grants g ≡ ok tt
      → Elem g grants
  unfolding require_grant
  grant-Elem grants g h = (contains_iff grants g).0 (unless-eq-ok (contains grants g) _ h)

  pub granted_lem :
      (project_id : Text) (g : ProjectGrant) {project : ProjectRegistration}
      → granted x board b project_id g ≡ ok project
      → (get x.registry b.registry project_id ≡ ok project) × Elem g project.grants
  unfolding granted
  granted_lem project_id g {project} h =
      let (found, read, r0) =
        >>=-eq-ok (map_err from_registry (get x.registry b.registry project_id)) _ h in
      let (_, has, same) = >>=-eq-ok (require_grant found.grants g) _ r0 in
      let e : found ≡ project = cc in
      subst (λ p. (get x.registry b.registry project_id ≡ ok p) × Elem g p.grants) e
        (map_err-eq-ok from_registry _ read, grant-Elem found.grants g has)

  HasGrant-granted :
      (project_id : Text) (g : ProjectGrant) {project : ProjectRegistration}
      → granted x board b project_id g ≡ ok project
      → HasGrant project_id g
  HasGrant-granted project_id g {project} h =
      let (read, has) = granted_lem project_id g h in (project, read, has)

  eligible_of : (a : BoardActiveWorkAssessment) → require_eligible x board a ≡ ok tt → a ≡ eligible
  unfolding require_eligible
  eligible_of eligible h = refl
  eligible_of ineligible h = cc

  pub may_select-Authorized :
      (project_id work_item_id : Text)
      → may_select x board b project_id work_item_id ≡ ok tt
      → Authorized (set_active_work_item project_id work_item_id)
  unfolding may_select
  may_select-Authorized project_id work_item_id h =
      let (project, may, r0) = >>=-eq-ok (granted x board b project_id select_active_work) _ h in
      let (a, assessed, last) =
        >>=-eq-ok (map_err from_board (board project_id work_item_id)) _ r0 in
      let (read, has) = granted_lem project_id select_active_work may in
      ((project, read, has), map_err-eq-ok from_board _ assessed ∙ ap ok (eligible_of a last))

  -- What is recorded, and where.
  pub may_record-Connected :
      (value : Value) {c : ProgressCheckpoint} {targets : List DeliveryTarget}
      → may_record x board b value ≡ ok (c, targets)
      → (project : ProjectRegistration) × IsConnected value c project
        × (targets ≡ targets_of project)
  unfolding may_record
  may_record-Connected value {c} {targets} h =
      let (checkpoint, decoded, r0) =
        >>=-eq-ok (ok_or (x.from_value value) (invalid (codes "invalid Progress Checkpoint"))) _
          h in
      let (project, may, r1) =
        >>=-eq-ok (granted x board b checkpoint.project_id write_progress) _ r0 in
      let (_, connected, last) =
        >>=-eq-ok
          (fail_if (not (project.execution_workspace == checkpoint.execution_workspace_id)) _) _
          r1 in
      let (read, has) = granted_lem checkpoint.project_id write_progress may in
      let here : IsConnected value checkpoint project = record {
        decoded = ok_or-eq-ok _ (x.from_value value) decoded;
        registered = read;
        may_write = has;
        workspace = (eq_iff project.execution_workspace checkpoint.execution_workspace_id).0 (
            unless-eq-ok (project.execution_workspace == checkpoint.execution_workspace_id) _
              connected);
      } in
      let (e, f) = pair_of checkpoint c (targets_of project) targets last in
      (project, subst (λ q. IsConnected value q project) e here, sym f)
    where
      pair_of :
          (c1 c2 : ProgressCheckpoint) (t1 t2 : List DeliveryTarget)
          → ◌≡◌ {A = Result (ProgressCheckpoint × List DeliveryTarget) CoreFailure}
              (ok (c1, t1))
              (ok (c2, t2))
          → (c1 ≡ c2) × (t1 ≡ t2)
      pair_of c1 c2 t1 t2 e = (cc, cc)

  context-Authorized :
      (project_id : Text) (work_item_id : Option Text) {v : Value}
      → context_of x board b project_id work_item_id ≡ ok v
      → HasGrant project_id read_context
  unfolding context_of
  context-Authorized project_id work_item_id h =
      let (_, _, r0) = >>=-eq-ok (validate_optional_id work_item_id) _ h in
      let (project, may, _) = >>=-eq-ok (granted x board b project_id read_context) _ r0 in
      HasGrant-granted project_id read_context may

  status-Authorized :
      (checkpoint_id : Text) {v : Value}
      → checkpoint_status_of x board b checkpoint_id ≡ ok v
      → Authorized (get_checkpoint_status checkpoint_id)
  unfolding checkpoint_status_of
  status-Authorized checkpoint_id h =
      let (found, read, r0) =
        >>=-eq-ok (map_err from_progress (status x.progress b.progress checkpoint_id)) _ h in
      let (project, may, _) =
        >>=-eq-ok (granted x board b found.checkpoint.project_id write_progress) _ r0 in
      (
        found,
        map_err-eq-ok from_progress _ read,
        HasGrant-granted found.checkpoint.project_id write_progress may,
      )

  page-Authorized :
      (q : CheckpointQuery) {v : Value}
      → page_of x board b q ≡ ok v
      → HasGrant q.project_id write_progress
  unfolding page_of
  page-Authorized q h =
      let (project, may, _) = >>=-eq-ok (granted x board b q.project_id write_progress) _ h in
      HasGrant-granted q.project_id write_progress may

  select-Authorized :
      (project_id work_item_id : Text) (m : Result Unit CoreFailure) {v : Value}
      → may_select x board b project_id work_item_id ≡ m
      → (select_in x board b project_id work_item_id m).0 ≡ ok v
      → Authorized (set_active_work_item project_id work_item_id)
  unfolding select_in
  select-Authorized project_id work_item_id (err e) h k = cc
  select-Authorized project_id work_item_id (ok u) h k =
      may_select-Authorized project_id work_item_id h

  record-Authorized :
      (value : Value) (m : Result (ProgressCheckpoint × List DeliveryTarget) CoreFailure)
      {v : Value}
      → may_record x board b value ≡ m
      → (record_in x board b m).0 ≡ ok v
      → Authorized (record_progress value)
  unfolding record_in
  record-Authorized value (err e) h k = cc
  record-Authorized value (ok (c, targets)) h k =
      let (project, connected, same) = may_record-Connected value h in (c, (project, connected))

  -- Every operation that succeeds was authorized: but for the list of projects it had the grant of a
  -- registered project, a selection was found eligible by Board, and a recorded checkpoint came from
  -- the workspace that is connected to its project.
  pub execute-Authorized :
      (operation : CoreBridgeOperation) {v : Value}
      → (execute x board b operation).0 ≡ ok v
      → Authorized operation
  unfolding execute
  execute-Authorized list_projects h = tt
  execute-Authorized (get_project_context project_id work_item_id) h =
      context-Authorized project_id work_item_id h
  execute-Authorized (set_active_work_item project_id work_item_id) h =
      select-Authorized project_id work_item_id (may_select x board b project_id work_item_id) refl
        h
  execute-Authorized (record_progress value) h =
      record-Authorized value (may_record x board b value) refl h
  execute-Authorized (get_checkpoint_status checkpoint_id) h = status-Authorized checkpoint_id h
  execute-Authorized (list_progress project_id work_item_id before limit) h =
      page-Authorized
        (record {
          project_id = project_id;
          work_item_id = work_item_id;
          before_checkpoint_id = before;
          limit = limit;
        })
        h
