-- ===== src/Progress/Recorder/Sync/Attempts.antt =====
-- What one pass of `sync_pending` does to each delivery (crates/gareji-core/src/progress/mod.rs).
use gareji_core.Base.{◌+◌, ◌≡◌}
use gareji_core.Progress.{ProjectionOutcome, as_db}
use gareji_core.Progress.Ledger.{Ledger, DeliveryRow}
use gareji_core.Progress.Recorder.Sync.{outcome_row}

-- The row after one attempt: its key stays, the attempt is counted, and the status and the error are
-- those of some outcome.
pub record IsAttempted (d d' : DeliveryRow) : Type 0 where
  pub outcome : ProjectionOutcome
  pub checkpoint : d'.checkpoint_id ≡ d.checkpoint_id
  pub destination : d'.destination_id ≡ d.destination_id
  pub attempts : d'.attempts ≡ d.attempts + 1
  pub status : d'.status ≡ as_db (outcome_row outcome).0
  pub last_error : d'.last_error ≡ (outcome_row outcome).1
