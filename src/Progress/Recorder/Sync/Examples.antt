-- ===== src/Progress/Recorder/Sync/Examples.antt =====
-- A pass over two waiting deliveries (crates/gareji-core/src/progress/mod.rs), to a projector that
-- counts its calls and accepts the first delivery only.
use gareji_core.Base.{
  ℕ, zero, suc, ◌≡◌, List, [], ◌∷◌, codes, text_ord, text_leq, ◌==◌, sort_by, is_control,
}
use gareji_core.Progress.{ProgressCheckpoint, DeliveryTarget, ProjectionOutcome, SyncSummary}
use gareji_core.Progress.Samples.{
  one_recorded, one_recorded-IsSound, first_delivery, first_checkpoint, packages,
}
use gareji_core.Progress.Ledger.{
  DeliveryRow, find_checkpoint, update_row, update_delivery_row, is_delivery,
}
use gareji_core.Progress.Ledger.Encoding.{sanitize_message, kept_character}
use gareji_core.Progress.Ledger.Invariant.{IsSound}
use gareji_core.Progress.Recorder.Sync.{
  PendingDelivery, retryable, read_pending, pending_deliveries, bump, outcome_row, tally,
  no_attempts, sync_each, sync_from, sync_pending,
}
use gareji_core.Progress.Recorder.Sync.Ledgers.{sync_pending-IsSound}

program : Unit {0}
unfolding text_leq ◌==◌ sort_by is_control find_checkpoint update_row update_delivery_row
    is_delivery sanitize_message kept_character retryable read_pending pending_deliveries bump
    outcome_row tally no_attempts sync_each sync_from sync_pending
program = tt

abbrev answer : ℕ → DeliveryTarget → ProgressCheckpoint → ProjectionOutcome × ℕ
answer zero target c = (ProjectionOutcome.synced, 1)
answer (suc n) target c = (ProjectionOutcome.failed (codes "offline"), suc (suc n))

abbrev both : List PendingDelivery
both =
    record { checkpoint = first_checkpoint; target = record { destination_id = codes "board" } }
    ∷ record { checkpoint = first_checkpoint; target = record { destination_id = codes "json" } }
    ∷ []

abbrev summary : SyncSummary
summary = record { attempted = 2; synced = 1; conflict = 0; failed = 1 }

sync_pending-IsSound_example :
    IsSound (sync_pending answer packages 0 one_recorded).1
    × ((sync_pending answer packages 0 one_recorded).1.checkpoints ≡ one_recorded.checkpoints)
sync_pending-IsSound_example =
    sync_pending-IsSound answer packages 0 one_recorded one_recorded-IsSound

abbrev board_delivery : DeliveryRow
board_delivery = first_delivery (codes "board")
