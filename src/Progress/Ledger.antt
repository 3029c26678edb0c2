-- ===== src/Progress/Ledger.antt =====
-- The two tables of the progress recorder and the statements that it runs on them
-- (crates/gareji-core/src/progress/mod.rs). A table is the list of its rows, newest first; the
-- primary and foreign keys of the schema are checks of the inserts.
pub mod Encoding
pub mod Invariant
pub mod Updates
mod Examples
use gareji_core.Base.{
  ℕ, zero, suc, max, ◌+◌, ◌^◌, ◌*◌, ◌/◌, ◌%◌, ◌≡◌, Bool, true, false, not, ◌&&◌, ◌||◌, Option, none,
  some, List, [], ◌∷◌, ◌++◌, String, Text, codes, map, ltb, leb, nat_beq, if◌then◌else◌, Result, ok,
  err, ◌>>=◌, ◌>>◌, fail_if, ok_or, length, filter, take, bytes, is_control, ◌==◌, text_ord,
  text_leq, sort_by, contains,
}
use gareji_core.Progress.{
  ProgressCheckpoint, DeliveryReceipt, DeliveryStatus, CheckpointValidationError, pending, as_db,
  from_db,
}

abbrev pub max_delivery_message : ℕ
max_delivery_message = 1000

abbrev pub u32_mod : ℕ
u32_mod = 2 ^ 32

-- A row of `gareji_checkpoints`, with SQLite's rowid.
pub record CheckpointRow : Type 0 where
  pub rowid : ℕ
  pub checkpoint_id : Text
  pub fingerprint : Text
  pub payload_json : Text
  pub recorded_at : Text
  pub project_id : Option Text
  pub work_item_id : Option Text

-- A row of `gareji_checkpoint_deliveries`.
pub record DeliveryRow : Type 0 where
  pub checkpoint_id : Text
  pub destination_id : Text
  pub status : Text
  pub attempts : ℕ
  pub last_error : Option Text

pub record Ledger : Type 0 where
  pub checkpoints : List CheckpointRow
  pub deliveries : List DeliveryRow

pub data ProgressError : Type 0 where
  invalid_checkpoint : CheckpointValidationError → ProgressError
  checkpoint_conflict delivery_set_mismatch checkpoint_not_found : Text → ProgressError
  create_directory storage serialization : ProgressError
  corrupt_state : String → ProgressError

-- The calls of rusqlite that can fail.
pub data Site : Type 0 where
  begin select_fingerprint select_targets insert_checkpoint commit select_payload select_receipts :
      Site
  select_page select_pending : Site
  insert_delivery : Text → Site
  update_delivery : Text → Text → Site

-- What the recorder takes from other packages: which storage calls fail, serde_json's two
-- directions for a checkpoint, SHA-256, and chrono's reading of a date.
pub record Externals : Type 0 where
  pub fault : Site → Bool
  pub to_string : ProgressCheckpoint → Option Text
  pub from_str : Text → Option ProgressCheckpoint
  pub digest : List ℕ → List ℕ
  pub rfc3339 : Text → Bool

-- The documented behaviour: what was written is read back.
pub record ReadsBack (x : Externals) : Type 0 where
  pub from_str-to_string :
      (c : ProgressCheckpoint) (t : Text) → x.to_string c ≡ some t → x.from_str t ≡ some c

-- A storage call at a site: nothing, or the failure `ProgressError::Storage`.
abbrev pub sql : Externals → Site → Result Unit ProgressError
sql x site = fail_if (x.fault site) storage

-- SELECT … FROM gareji_checkpoints WHERE checkpoint_id = ?1
unfoldable pub find_checkpoint : Text → List CheckpointRow → Option CheckpointRow
find_checkpoint id [] = none
find_checkpoint id (r ∷ rows) = if r.checkpoint_id == id then some r else find_checkpoint id rows

-- The rowid that SQLite gives to a new row: one more than the largest.
unfoldable pub next_rowid : List CheckpointRow → ℕ
next_rowid [] = 1
next_rowid (r ∷ rows) = max (suc r.rowid) (next_rowid rows)

abbrev pub is_some {ℓ} : {A : Type ℓ} → Option A → Bool
is_some none = false
is_some (some a) = true

-- INSERT INTO gareji_checkpoints: `checkpoint_id` is the primary key.
unfoldable pub insert_checkpoint_row : CheckpointRow → Ledger → Result Ledger ProgressError
unfolding find_checkpoint
insert_checkpoint_row row db = do
  fail_if (is_some (find_checkpoint row.checkpoint_id db.checkpoints)) storage
  ok (record db { checkpoints = row ∷ db.checkpoints })

-- WHERE checkpoint_id = ?1 AND destination_id = ?2
unfoldable pub is_delivery : Text → Text → DeliveryRow → Bool
is_delivery id destination d = d.checkpoint_id == id && d.destination_id == destination

unfoldable pub has_delivery : Text → Text → List DeliveryRow → Bool
unfolding is_delivery
has_delivery id destination [] = false
has_delivery id destination (d ∷ rows) =
    is_delivery id destination d || has_delivery id destination rows

-- INSERT INTO gareji_checkpoint_deliveries: the pair is the primary key, and the checkpoint must
-- exist (PRAGMA foreign_keys = ON).
unfoldable pub insert_delivery_row : DeliveryRow → Ledger → Result Ledger ProgressError
unfolding find_checkpoint has_delivery
insert_delivery_row row db = do
  fail_if (not (is_some (find_checkpoint row.checkpoint_id db.checkpoints))) storage
  fail_if (has_delivery row.checkpoint_id row.destination_id db.deliveries) storage
  ok (record db { deliveries = row ∷ db.deliveries })

-- SELECT … FROM gareji_checkpoint_deliveries WHERE checkpoint_id = ?1 ORDER BY destination_id
abbrev pub by_destination : DeliveryRow → DeliveryRow → Bool
by_destination d e = text_leq d.destination_id e.destination_id

abbrev pub rows_of : Text → List DeliveryRow → List DeliveryRow
rows_of id = filter (λ d. d.checkpoint_id == id)

unfoldable pub select_deliveries : Text → List DeliveryRow → List DeliveryRow
select_deliveries id rows = sort_by by_destination (rows_of id rows)

-- UPDATE gareji_checkpoint_deliveries SET status, attempts = attempts + 1, last_error WHERE …
unfoldable pub update_row : Text → Text → DeliveryStatus → Option Text → DeliveryRow → DeliveryRow
unfolding is_delivery
update_row id destination status last_error d =
    if is_delivery id destination d
    then record d { status = as_db status; attempts = d.attempts + 1; last_error = last_error }
    else d

unfoldable pub update_delivery_row : Text → Text → DeliveryStatus → Option Text → Ledger → Ledger
unfolding update_row
update_delivery_row id destination status last_error db = record db {
  deliveries = map (update_row id destination status last_error) db.deliveries;
}
