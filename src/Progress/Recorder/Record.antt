-- ===== src/Progress/Recorder/Record.antt =====
-- `ProgressRecorder::record` as a whole (crates/gareji-core/src/progress/mod.rs): the invariant,
-- what is never lost, and what an error leaves behind.
use gareji_core.Base.{◌≡◌, inr, refl, Bool, List, [], ◌∷◌, Text, Elem, Result, ok, err, text_ord}
use gareji_core.Progress.{ProgressCheckpoint, DeliveryTarget}
use gareji_core.Progress.Ledger.{
  Externals, Ledger, CheckpointRow, DeliveryRow, ProgressError, checkpoint_conflict,
  delivery_set_mismatch, invalid_checkpoint,
}
use gareji_core.Progress.Ledger.Invariant.{IsSound}
use gareji_core.Progress.Recorder.{transaction, settle, record_checkpoint}
use gareji_core.Progress.Recorder.Intake.{added, Committed, known, fresh, transaction-Committed}

-- Nothing that was stored is lost or altered.
pub record Extends (db db' : Ledger) : Type 0 where
  pub checkpoints : (r : CheckpointRow) → Elem r db.checkpoints → Elem r db'.checkpoints
  pub deliveries : (d : DeliveryRow) → Elem d db.deliveries → Elem d db'.deliveries

Extends-refl : (db : Ledger) → Extends db db
Extends-refl db = record { checkpoints = λ r m. m; deliveries = λ d m. m }

Elem-added :
    (id : Text) (targets : List DeliveryTarget) (rows : List DeliveryRow) (d : DeliveryRow)
    → Elem d rows
    → Elem d (added id targets rows)
Elem-added id [] rows d m = m
Elem-added id (t ∷ targets) rows d m = Elem-added id targets _ d (inr m)

module _ (x : Externals) (db : Ledger) (c : ProgressCheckpoint)
    (targets : List DeliveryTarget) where
  after_commit :
      {payload : Text} {duplicate : Bool} {db' : Ledger}
      → IsSound db
      → Committed x db c targets payload duplicate db'
      → IsSound db' × Extends db db'
  after_commit s (known row f same sets d e) = rw e (s, Extends-refl db)
  after_commit s (fresh f d s' rows dels) = (
    s',
    record {
      checkpoints = λ r m. rw rows (inr m);
      deliveries = λ d m. rw dels (Elem-added c.checkpoint_id targets db.deliveries d m);
    },
  )

  settle_after :
      (t : Result (Bool × Ledger) ProgressError)
      → IsSound db
      → transaction x db c targets ≡ t
      → IsSound (settle x db c t).1 × Extends db (settle x db c t).1
  unfolding settle
  settle_after (err e) s h = (s, Extends-refl db)
  settle_after (ok (duplicate, db')) s h =
      let (payload, valid, aimed, written, done) = transaction-Committed x db c targets s h in
      after_commit s done

  -- On a sound ledger, whatever `record` returns, errors and failing storage calls included, it
  -- leaves a sound ledger in which every row of before still stands as it was.
  pub record_checkpoint-IsSound :
      IsSound db
      → IsSound (record_checkpoint x db c targets).1
        × Extends db (record_checkpoint x db c targets).1
  unfolding record_checkpoint
  record_checkpoint-IsSound s = settle_after (transaction x db c targets) s refl

  -- The errors of `record` that say that the input was refused.
  abbrev pub IsRefusal : ProgressError → Type 0
  IsRefusal (invalid_checkpoint e) = Unit
  IsRefusal (checkpoint_conflict id) = Unit
  IsRefusal (delivery_set_mismatch id) = Unit
  IsRefusal e = ⊥
