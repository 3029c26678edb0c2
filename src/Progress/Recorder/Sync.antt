-- ===== src/Progress/Recorder/Sync.antt =====
-- `ProgressRecorder::sync_pending` (crates/gareji-core/src/progress/mod.rs): every pending or failed
-- delivery is handed once to the projector, and its row is updated with the outcome.
pub mod Summary
pub mod Joins
pub mod Selection
pub mod Attempts
pub mod Ledgers
mod Examples
use gareji_core.Base.{
  ℕ, ◌+◌, ◌-◌, ◌≡◌, Bool, true, false, ◌&&◌, ◌||◌, Option, none, some, List, [], ◌∷◌, ◌++◌, Text,
  codes, map, ltb, nat_beq, if◌then◌else◌, Result, ok, err, ◌>>=◌, ◌>>◌, fail_if, ok_or, filter,
  ◌==◌, text_ord, text_leq, sort_by, min,
}
use gareji_core.Progress.{
  ProgressCheckpoint, DeliveryTarget, DeliveryStatus, ProjectionOutcome, SyncSummary, as_db,
}
use gareji_core.Progress.Ledger.{
  Externals, Site, Ledger, CheckpointRow, DeliveryRow, ProgressError, serialization, sql,
  select_pending, update_delivery, update_delivery_row, u32_mod, max_delivery_message,
}
use gareji_core.Progress.Ledger.Encoding.{sanitize_message}
use gareji_core.Progress.Recorder.{read_all}

pub record PendingDelivery : Type 0 where
  pub checkpoint : ProgressCheckpoint
  pub target : DeliveryTarget

-- WHERE d.status IN ('pending', 'failed')
unfoldable pub retryable : DeliveryRow → Bool
retryable d = d.status == codes "pending" || d.status == codes "failed"

-- FROM gareji_checkpoint_deliveries d JOIN gareji_checkpoints c ON c.checkpoint_id = d.checkpoint_id
abbrev pub Joined : Type 0
Joined = CheckpointRow × DeliveryRow

abbrev pub joined_with : List CheckpointRow → DeliveryRow → List Joined
joined_with checkpoints d =
    map (λ c. (c, d)) (filter (λ c. c.checkpoint_id == d.checkpoint_id) checkpoints)

abbrev pub join : List CheckpointRow → List DeliveryRow → List Joined
join checkpoints [] = []
join checkpoints (d ∷ rows) =
    (if retryable d then joined_with checkpoints d else []) ++ join checkpoints rows

-- ORDER BY c.rowid, d.destination_id
abbrev pub by_rowid : Joined → Joined → Bool
by_rowid (c, d) (c', d') =
    ltb c.rowid c'.rowid
    || (nat_beq c.rowid c'.rowid && text_leq d.destination_id d'.destination_id)

unfoldable pub read_pending : Externals → Joined → Result PendingDelivery ProgressError
read_pending x (c, d) = do
  checkpoint ← ok_or (x.from_str c.payload_json) serialization
  ok (record { checkpoint = checkpoint; target = record { destination_id = d.destination_id } })

unfoldable pub pending_deliveries : Externals → Ledger → Result (List PendingDelivery) ProgressError
unfolding read_pending
pending_deliveries x db = do
  sql x select_pending
  read_all (read_pending x) (sort_by by_rowid (join db.checkpoints db.deliveries))

-- `u32::saturating_add(1)`
unfoldable pub bump : ℕ → ℕ
bump n = min (n + 1) (u32_mod - 1)

-- The match on the outcome: the new status, the error to store, and the counters.
unfoldable pub outcome_row : ProjectionOutcome → DeliveryStatus × Option Text
unfolding sanitize_message
outcome_row ProjectionOutcome.synced = (DeliveryStatus.synced, none)
outcome_row (ProjectionOutcome.conflict message) =
    (DeliveryStatus.conflict, some (sanitize_message message max_delivery_message))
outcome_row (ProjectionOutcome.failed message) =
    (DeliveryStatus.failed, some (sanitize_message message max_delivery_message))

unfoldable pub tally : ProjectionOutcome → SyncSummary → SyncSummary
unfolding bump
tally ProjectionOutcome.synced s = record s { attempted = bump s.attempted; synced = bump s.synced }
tally (ProjectionOutcome.conflict message) s = record s {
  attempted = bump s.attempted;
  conflict = bump s.conflict;
}
tally (ProjectionOutcome.failed message) s = record s {
  attempted = bump s.attempted;
  failed = bump s.failed;
}

unfoldable pub no_attempts : SyncSummary
no_attempts = record { attempted = 0; synced = 0; conflict = 0; failed = 0 }

-- `P` is the state of the projector, an implementation of the trait `CheckpointProjector`.
module _ {P : Type 0} (project : P → DeliveryTarget → ProgressCheckpoint → ProjectionOutcome × P)
    (x : Externals) where
  -- The loop: an update that fails ends it, and keeps the updates before it.
  unfoldable pub sync_each :
      List PendingDelivery
      → P
      → Ledger
      → SyncSummary
      → Result SyncSummary ProgressError × Ledger × P
  unfolding outcome_row tally
  sync_each [] p db summary = (ok summary, db, p)
  sync_each (d ∷ rest) p db summary =
      let (outcome, p') = project p d.target d.checkpoint in
      let id = d.checkpoint.checkpoint_id in
      let destination = d.target.destination_id in
      let (status, last_error) = outcome_row outcome in
      let going =
        sync_each rest p' (update_delivery_row id destination status last_error db)
          (tally outcome summary) in
      if x.fault (update_delivery id destination)
      then (err ProgressError.storage, db, p')
      else going

  unfoldable pub sync_from :
      Result (List PendingDelivery) ProgressError
      → P
      → Ledger
      → Result SyncSummary ProgressError × Ledger × P
  unfolding sync_each no_attempts
  sync_from (err e) p db = (err e, db, p)
  sync_from (ok pending) p db = sync_each pending p db no_attempts

  unfoldable pub sync_pending : P → Ledger → Result SyncSummary ProgressError × Ledger × P
  unfolding sync_from pending_deliveries
  sync_pending p db = sync_from (pending_deliveries x db) p db
