-- ===== src/Progress/Recorder/Sync/Ledgers.antt =====
-- The ledger under `sync_pending`, whatever the projector answers and wherever storage fails
-- (crates/gareji-core/src/progress/mod.rs).
use gareji_core.Base.{◌≡◌, List, [], ◌∷◌, Text, Result, ok, err, refl, Bool-cases, inl, inr, ◌∙◌}
use gareji_core.Progress.{ProgressCheckpoint, DeliveryTarget, ProjectionOutcome, SyncSummary}
use gareji_core.Progress.Ledger.{
  Externals, Ledger, ProgressError, update_delivery, update_delivery_row,
}
use gareji_core.Progress.Ledger.Invariant.{IsSound}
use gareji_core.Progress.Ledger.Updates.{update_delivery_row-IsSound}
use gareji_core.Progress.Recorder.Sync.{
  PendingDelivery, outcome_row, tally, no_attempts, pending_deliveries, sync_each, sync_from,
  sync_pending,
}

update_checkpoints :
    (id destination : Text) (o : ProjectionOutcome) (db : Ledger)
    → (update_delivery_row id destination (outcome_row o).0 (outcome_row o).1 db).checkpoints
      ≡ db.checkpoints
unfolding update_delivery_row
update_checkpoints id destination o db = refl

module _ {P : Type 0} (project : P → DeliveryTarget → ProgressCheckpoint → ProjectionOutcome × P)
    (x : Externals) where
  sync_each-IsSound :
      (pending : List PendingDelivery) (p : P) (db : Ledger) (s : SyncSummary)
      → IsSound db
      → IsSound (sync_each project x pending p db s).1
        × ((sync_each project x pending p db s).1.checkpoints ≡ db.checkpoints)
  unfolding sync_each
  sync_each-IsSound [] p db s v = (v, refl)
  sync_each-IsSound (d ∷ rest) p db s v =
      let id = d.checkpoint.checkpoint_id in
      let to = d.target.destination_id in
      let o = (project p d.target d.checkpoint).0 in
      elim (Bool-cases (x.fault (update_delivery id to))) [
        | inl f ↦ rw f (v, refl)
        | inr f ↦
            let next = update_delivery_row id to (outcome_row o).0 (outcome_row o).1 db in
            let (v', same) =
              sync_each-IsSound rest (project p d.target d.checkpoint).1 next (tally o s)
                (update_delivery_row-IsSound id to (outcome_row o).0 (outcome_row o).1 db v) in
            rw f (v', same ∙ update_checkpoints id to o db)
      ]

  sync_from-IsSound :
      (read : Result (List PendingDelivery) ProgressError) (p : P) (db : Ledger)
      → IsSound db
      → IsSound (sync_from project x read p db).1
        × ((sync_from project x read p db).1.checkpoints ≡ db.checkpoints)
  unfolding sync_from
  sync_from-IsSound (err e) p db v = (v, refl)
  sync_from-IsSound (ok pending) p db v = sync_each-IsSound pending p db no_attempts v

  -- A pass over a sound ledger leaves a sound ledger and touches no checkpoint, also where it
  -- fails half way.
  pub sync_pending-IsSound :
      (p : P) (db : Ledger)
      → IsSound db
      → IsSound (sync_pending project x p db).1
        × ((sync_pending project x p db).1.checkpoints ≡ db.checkpoints)
  unfolding sync_pending
  sync_pending-IsSound p db v = sync_from-IsSound (pending_deliveries x db) p db v
