-- ===== src/Progress/Recorder/Pages.antt =====
-- `ProgressRecorder::list` (crates/gareji-core/src/progress/mod.rs): one page of the ledger, newest
-- first, with the deliveries of each checkpoint.
pub mod Listing
mod Examples
pub mod Assembly
pub mod Order
use gareji_core.Base.{
  ℕ, ◌+◌, ◌≡◌, Bool, true, false, not, ◌&&◌, ◌||◌, Option, none, some, List, [], ◌∷◌, ◌++◌, String,
  Text, map, ltb, leb, nat_beq, if◌then◌else◌, Result, ok, err, ◌>>=◌, ◌>>◌, fail_if, ok_or,
  map_err, filter, take, length, ◌==◌, text_ord, opt_eq, sort_by,
}
use gareji_core.Progress.{
  ProgressCheckpoint, CheckpointQuery, CheckpointPage, CheckpointStatus, DeliveryReceipt,
}
use gareji_core.Progress.Validate.{Checked, invalid}
use gareji_core.Progress.Ledger.{
  Externals, Site, Ledger, CheckpointRow, DeliveryRow, ProgressError, invalid_checkpoint,
  serialization, corrupt_state, sql, select_page, find_checkpoint, select_deliveries,
}
use gareji_core.Progress.Recorder.{validate_bounded_id, read_delivery}

-- `rowid < (SELECT rowid … WHERE checkpoint_id = ?3)`: an unknown cursor gives NULL, hence no row.
unfoldable pub before_cursor : Ledger → Option Text → CheckpointRow → Bool
unfolding find_checkpoint
before_cursor db none r = true
before_cursor db (some cursor) r = elim (find_checkpoint cursor db.checkpoints) [
  | none ↦ false
  | some c ↦ ltb r.rowid c.rowid
]

abbrev pub in_work_item : Option Text → CheckpointRow → Bool
in_work_item none r = true
in_work_item (some id) r = opt_eq r.work_item_id (some id)

-- The WHERE clause of the page.
unfoldable pub selects : Ledger → CheckpointQuery → CheckpointRow → Bool
unfolding before_cursor
selects db q r =
    opt_eq r.project_id (some q.project_id)
    && in_work_item q.work_item_id r
    && before_cursor db q.before_checkpoint_id r

-- ORDER BY rowid DESC
abbrev pub newest_first : CheckpointRow → CheckpointRow → Bool
newest_first r s = leb s.rowid r.rowid

unfoldable pub page_rows : Ledger → CheckpointQuery → List CheckpointRow
unfolding selects
page_rows db q = take (q.limit + 1) (sort_by newest_first (filter (selects db q) db.checkpoints))

-- LEFT JOIN with the deliveries, in order.
abbrev pub JoinedRow : Type 0
JoinedRow = CheckpointRow × Option DeliveryRow

abbrev pub left_joined : CheckpointRow → List DeliveryRow → List JoinedRow
left_joined c [] = (c, none) ∷ []
left_joined c (d ∷ rows) = (c, some d) ∷ map (λ e. (c, some e)) rows

abbrev pub left_join : Ledger → List CheckpointRow → List JoinedRow
left_join db [] = []
left_join db (c ∷ rows) =
    left_joined c (select_deliveries c.checkpoint_id db.deliveries) ++ left_join db rows

unfoldable pub read_checkpoint : Externals → CheckpointRow → Result ProgressCheckpoint ProgressError
read_checkpoint x c = do
  checkpoint ← ok_or (x.from_str c.payload_json) serialization
  fail_if (not (checkpoint.checkpoint_id == c.checkpoint_id))
      (corrupt_state "checkpoint identity does not match stored payload")
  ok checkpoint

-- `checkpoints.last_mut()…deliveries.push(receipt)`
unfoldable pub push_last :
    DeliveryReceipt → List CheckpointStatus → Result (List CheckpointStatus) ProgressError
push_last r [] = err (corrupt_state "delivery exists without a checkpoint")
push_last r (s ∷ []) = ok (record s { deliveries = s.deliveries ++ (r ∷ []) } ∷ [])
push_last r (s ∷ t ∷ rest) = do done ← push_last r (t ∷ rest); ok (s ∷ done)

abbrev pub is_current : Option ℕ → ℕ → Bool
is_current none rowid = false
is_current (some current) rowid = nat_beq current rowid

-- The two steps of the loop over the joined rows.
unfoldable pub open_checkpoint :
    Externals
    → Option ℕ
    → CheckpointRow
    → List CheckpointStatus
    → Result (List CheckpointStatus) ProgressError
unfolding read_checkpoint
open_checkpoint x current c done = if is_current current c.rowid then ok done else (do
  checkpoint ← read_checkpoint x c
  ok (done ++ (record { checkpoint = checkpoint; deliveries = [] } ∷ [])))

unfoldable pub add_delivery :
    Option DeliveryRow → List CheckpointStatus → Result (List CheckpointStatus) ProgressError
unfolding push_last
add_delivery none done = ok done
add_delivery (some d) done = do receipt ← read_delivery d; push_last receipt done

unfoldable pub assemble :
    Externals
    → List JoinedRow
    → Option ℕ
    → List CheckpointStatus
    → Result (List CheckpointStatus) ProgressError
unfolding open_checkpoint add_delivery
assemble x [] current done = ok done
assemble x ((c, d) ∷ rows) current done = do
  opened ← open_checkpoint x current c done
  added ← add_delivery d opened
  assemble x rows (some c.rowid) added

unfoldable pub check_optional_id : String → Option Text → Checked
check_optional_id field none = ok tt
check_optional_id field (some id) = validate_bounded_id field id

unfoldable pub validate_query : CheckpointQuery → Checked
unfolding check_optional_id
validate_query q = do
  validate_bounded_id "project_id" q.project_id
  check_optional_id "work_item_id" q.work_item_id
  check_optional_id "before_checkpoint_id" q.before_checkpoint_id
  fail_if (not (leb 1 q.limit && leb q.limit 100)) (invalid "limit" "must be from 1 through 100")

abbrev pub last_id : List CheckpointStatus → Option Text
last_id [] = none
last_id (s ∷ []) = some s.checkpoint.checkpoint_id
last_id (s ∷ t ∷ rest) = last_id (t ∷ rest)

-- The end of `list`: whether there is more, and the cursor.
unfoldable pub cut_page : ℕ → List CheckpointStatus → CheckpointPage
cut_page limit checkpoints = record {
  checkpoints = take limit checkpoints;
  next_cursor = if ltb limit (length checkpoints) then last_id (take limit checkpoints) else none;
}

-- `ProgressRecorder::list`
unfoldable pub list : Externals → Ledger → CheckpointQuery → Result CheckpointPage ProgressError
unfolding validate_query page_rows assemble cut_page
list x db q = do
  map_err invalid_checkpoint (validate_query q)
  sql x select_page
  checkpoints ← assemble x (left_join db (page_rows db q)) none []
  ok (cut_page q.limit checkpoints)
