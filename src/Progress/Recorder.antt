-- ===== src/Progress/Recorder.antt =====
-- `ProgressRecorder` (crates/gareji-core/src/progress/mod.rs): `record` and `status` over the
-- ledger. A method returns its result and the ledger that it leaves; an error inside the
-- transaction of `record` rolls back, so the ledger of before is what is left.
pub mod Fresh
pub mod Reads
pub mod Intake
pub mod Retries
pub mod Stored
pub mod Record
pub mod Sync
pub mod Pages
mod Examples
use gareji_core.Base.{
  ℕ, zero, suc, ◌+◌, ◌≡◌, Bool, true, false, not, ◌&&◌, ◌||◌, Option, none, some, List, [], ◌∷◌,
  String, Text, codes, map, ltb, leb, nat_beq, if◌then◌else◌, Result, ok, err, ◌>>=◌, ◌>>◌, fail_if,
  map_err, ok_or, length, filter, take, ◌==◌, text_ord, contains, collect, insert,
}
use gareji_core.Progress.{
  ProgressCheckpoint, DeliveryTarget, DeliveryReceipt, DeliveryStatus, RecordReceipt,
  CheckpointStatus, CheckpointValidationError, pending, as_db, from_db,
}
use gareji_core.Progress.Validate.{Checked, invalid, validate, validate_target}
use gareji_core.Progress.Ledger.{
  Externals, Site, Ledger, CheckpointRow, DeliveryRow, ProgressError, invalid_checkpoint,
  checkpoint_conflict, delivery_set_mismatch, checkpoint_not_found, storage, serialization,
  corrupt_state, sql, begin, select_fingerprint, select_targets, insert_checkpoint, insert_delivery,
  commit, select_payload, select_receipts, find_checkpoint, next_rowid, insert_checkpoint_row,
  insert_delivery_row, rows_of, select_deliveries, u32_mod,
}
use gareji_core.Progress.Ledger.Encoding.{hex_sha256}

-- The loop of `validate_targets`; `seen` is the set `unique`.
unfoldable pub validate_targets_from : List Text → List DeliveryTarget → Checked
validate_targets_from seen [] = ok tt
validate_targets_from seen (t ∷ targets) = do
  validate_target t
  fail_if (contains seen t.destination_id)
      (invalid "destinations" "contains duplicate destination IDs")
  validate_targets_from (insert t.destination_id seen) targets

unfoldable pub validate_targets : List DeliveryTarget → Checked
unfolding validate_targets_from
validate_targets targets = validate_targets_from [] targets

unfoldable pub validate_bounded_id : String → Text → Checked
validate_bounded_id field value = do
  fail_if (ltb (length value) 1) (invalid field "is shorter than minimum length")
  fail_if (ltb 128 (length value)) (invalid field "exceeds maximum length")

unfoldable pub validate_lookup_id : Text → Checked
unfolding validate_bounded_id
validate_lookup_id id = validate_bounded_id "checkpoint_id" id

-- One row of `delivery_receipts`.
unfoldable pub read_delivery : DeliveryRow → Result DeliveryReceipt ProgressError
read_delivery d = do
  status ← ok_or (from_db d.status) (corrupt_state "unknown delivery status")
  fail_if (leb u32_mod d.attempts) (corrupt_state "delivery attempts out of range")
  ok (record {
    destination_id = d.destination_id;
    status = status;
    attempts = d.attempts;
    last_error = d.last_error;
  })

-- A loop that reads each row, and stops at the first that it cannot read.
abbrev pub read_all :
    {A B : Type 0} → (A → Result B ProgressError) → List A → Result (List B) ProgressError
read_all f [] = ok []
read_all f (a ∷ as_) = do b ← f a; bs ← read_all f as_; ok (b ∷ bs)

unfoldable pub delivery_receipts :
    Externals → Ledger → Text → Result (List DeliveryReceipt) ProgressError
unfolding select_deliveries read_delivery
delivery_receipts x db id = do
  sql x select_receipts
  read_all read_delivery (select_deliveries id db.deliveries)

-- `ProgressRecorder::status`
unfoldable pub status : Externals → Ledger → Text → Result CheckpointStatus ProgressError
status x db id = do
  map_err invalid_checkpoint (validate_lookup_id id)
  sql x select_payload
  row ← ok_or (find_checkpoint id db.checkpoints) (checkpoint_not_found id)
  checkpoint ← ok_or (x.from_str row.payload_json) serialization
  deliveries ← delivery_receipts x db id
  ok (record { checkpoint = checkpoint; deliveries = deliveries })

-- `==` on two `BTreeSet<String>`.
unfoldable pub texts_eq : List Text → List Text → Bool
texts_eq [] [] = true
texts_eq (t ∷ ts) (u ∷ us) = t == u && texts_eq ts us
texts_eq _ _ = false

abbrev pub target_set : List DeliveryTarget → List Text
target_set targets = collect (map (λ t. t.destination_id) targets)

abbrev pub stored_set : Text → Ledger → List Text
stored_set id db = collect (map (λ d. d.destination_id) (select_deliveries id db.deliveries))

abbrev pub new_row : Ledger → ProgressCheckpoint → Text → Text → CheckpointRow
new_row db c payload fingerprint = record {
  rowid = next_rowid db.checkpoints;
  checkpoint_id = c.checkpoint_id;
  fingerprint = fingerprint;
  payload_json = payload;
  recorded_at = c.recorded_at;
  project_id = some c.project_id;
  work_item_id = c.work_item_id;
}

abbrev pub new_delivery : Text → DeliveryTarget → DeliveryRow
new_delivery id t = record {
  checkpoint_id = id;
  destination_id = t.destination_id;
  status = as_db pending;
  attempts = 0;
  last_error = none;
}

-- `for target in targets { INSERT … }`
unfoldable pub insert_deliveries :
    Externals → Text → List DeliveryTarget → Ledger → Result Ledger ProgressError
insert_deliveries x id [] db = ok db
insert_deliveries x id (t ∷ targets) db = do
  sql x (insert_delivery t.destination_id)
  db' ← insert_delivery_row (new_delivery id t) db
  insert_deliveries x id targets db'

-- The two branches of the transaction: whether it was a duplicate, and the ledger to commit.
unfoldable pub intake :
    Externals
    → Ledger
    → ProgressCheckpoint
    → List DeliveryTarget
    → Text
    → Text
    → Option CheckpointRow
    → Result (Bool × Ledger) ProgressError
intake x db c targets payload fingerprint (some row) = do
  fail_if (not (row.fingerprint == fingerprint)) (checkpoint_conflict c.checkpoint_id)
  sql x select_targets
  fail_if (not (texts_eq (stored_set c.checkpoint_id db) (target_set targets)))
      (delivery_set_mismatch c.checkpoint_id)
  ok (true, db)
intake x db c targets payload fingerprint none = do
  sql x insert_checkpoint
  db1 ← insert_checkpoint_row (new_row db c payload fingerprint) db
  db2 ← insert_deliveries x c.checkpoint_id targets db1
  ok (false, db2)

-- `record` up to its commit.
unfoldable pub transaction :
    Externals
    → Ledger
    → ProgressCheckpoint
    → List DeliveryTarget
    → Result (Bool × Ledger) ProgressError
transaction x db c targets = do
  map_err invalid_checkpoint (validate x.rfc3339 c)
  map_err invalid_checkpoint (validate_targets targets)
  payload ← ok_or (x.to_string c) serialization
  sql x begin
  sql x select_fingerprint
  done ←
      intake x db c targets payload (hex_sha256 x payload)
        (find_checkpoint c.checkpoint_id db.checkpoints)
  sql x commit
  ok done

-- `record` after its commit.
unfoldable pub receipt :
    Externals → ProgressCheckpoint → Bool → Ledger → Result RecordReceipt ProgressError
receipt x c duplicate db = do
  s ← status x db c.checkpoint_id
  ok (record { checkpoint_id = c.checkpoint_id; duplicate = duplicate; deliveries = s.deliveries })

unfoldable pub settle :
    Externals
    → Ledger
    → ProgressCheckpoint
    → Result (Bool × Ledger) ProgressError
    → Result RecordReceipt ProgressError × Ledger
settle x db c (err e) = (err e, db)
settle x db c (ok (duplicate, db')) = (receipt x c duplicate db', db')

-- `ProgressRecorder::record`
unfoldable pub record_checkpoint :
    Externals
    → Ledger
    → ProgressCheckpoint
    → List DeliveryTarget
    → Result RecordReceipt ProgressError × Ledger
record_checkpoint x db c targets = settle x db c (transaction x db c targets)
