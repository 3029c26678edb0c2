-- ===== src/Progress/Recorder/Intake.antt =====
-- The transaction of `record` (crates/gareji-core/src/progress/mod.rs): what it can commit.
use mathlib.Core.Path.{subst}
use gareji_core.Base.{
  ◌≡◌, refl, ap, ◌∙◌, Bool, true, false, not, Option, none, some, List, [], ◌∷◌, Text, ok, fail_if,
  map_err, ok_or, >>=-eq-ok, map_err-eq-ok, ok_or-eq-ok, unless-eq-ok, ◌==◌, text_ord, eq_iff,
}
use gareji_core.Progress.{ProgressCheckpoint, DeliveryTarget, pending}
use gareji_core.Progress.Statuses.{from_db-as_db}
use gareji_core.Progress.Validate.{validate}
use gareji_core.Progress.Ledger.{
  Externals, Ledger, CheckpointRow, DeliveryRow, find_checkpoint, insert_checkpoint_row,
  insert_delivery_row, insert_delivery, insert_checkpoint, select_targets, commit, sql, begin,
  select_fingerprint, invalid_checkpoint, serialization,
}
use gareji_core.Progress.Ledger.Encoding.{hex_sha256}
use gareji_core.Progress.Ledger.Invariant.{
  IsSound, insert_checkpoint_row-IsSound, insert_delivery_row-IsSound,
}
use gareji_core.Progress.Recorder.{
  validate_targets, new_row, new_delivery, insert_deliveries, intake, transaction, texts_eq,
  stored_set, target_set,
}

-- The delivery rows after the inserts of `record`.
abbrev pub added : Text → List DeliveryTarget → List DeliveryRow → List DeliveryRow
added id [] rows = rows
added id (t ∷ targets) rows = added id targets (new_delivery id t ∷ rows)

pub insert_deliveries-IsSound :
    (x : Externals) (id : Text) (targets : List DeliveryTarget) (db : Ledger) {db' : Ledger}
    → IsSound db
    → insert_deliveries x id targets db ≡ ok db'
    → IsSound db'
      × (db'.checkpoints ≡ db.checkpoints)
      × (db'.deliveries ≡ added id targets db.deliveries)
unfolding insert_deliveries
insert_deliveries-IsSound x id [] db {db'} s h =
    subst (λ q. IsSound q × (q.checkpoints ≡ db.checkpoints) × (q.deliveries ≡ db.deliveries)) (cc)
      (s, refl, refl)
insert_deliveries-IsSound x id (t ∷ targets) db {db'} s h =
    let (u, called, rest) = >>=-eq-ok (sql x (insert_delivery t.destination_id)) _ h in
    let (db1, inserted, last) = >>=-eq-ok (insert_delivery_row (new_delivery id t) db) _ rest in
    let (s1, same, rows) =
      insert_delivery_row-IsSound (new_delivery id t) db s (rw (from_db-as_db pending)) inserted in
    let (s2, same2, rows2) = insert_deliveries-IsSound x id targets db1 s1 last in
    (s2, same2 ∙ same, rows2 ∙ ap (added id targets) rows)

-- What a successful transaction found or did: a duplicate changes nothing; a new checkpoint is one
-- new row with the next rowid, and one pending delivery for each target.
pub data Committed (x : Externals) (db : Ledger) (c : ProgressCheckpoint)
    (targets : List DeliveryTarget) (payload : Text) : Bool → Ledger → Type 0 where
  known :
      {duplicate : Bool} {db' : Ledger} (row : CheckpointRow)
      → find_checkpoint c.checkpoint_id db.checkpoints ≡ some row
      → row.fingerprint ≡ hex_sha256 x payload
      → texts_eq (stored_set c.checkpoint_id db) (target_set targets) ≡ true
      → duplicate ≡ true
      → db' ≡ db
      → Committed x db c targets payload duplicate db'
  fresh :
      {duplicate : Bool} {db' : Ledger}
      → find_checkpoint c.checkpoint_id db.checkpoints ≡ none
      → duplicate ≡ false
      → IsSound db'
      → db'.checkpoints ≡ new_row db c payload (hex_sha256 x payload) ∷ db.checkpoints
      → db'.deliveries ≡ added c.checkpoint_id targets db.deliveries
      → Committed x db c targets payload duplicate db'

module _ (x : Externals) (db : Ledger) (c : ProgressCheckpoint)
    (targets : List DeliveryTarget) where
  intake-Committed :
      (payload : Text) (found : Option CheckpointRow) {duplicate : Bool} {db' : Ledger}
      → IsSound db
      → find_checkpoint c.checkpoint_id db.checkpoints ≡ found
      → intake x db c targets payload (hex_sha256 x payload) found ≡ ok (duplicate, db')
      → Committed x db c targets payload duplicate db'
  unfolding intake
  intake-Committed payload (some row) {duplicate} {db'} s f h =
      let (u, same, rest) =
        >>=-eq-ok (fail_if (not (row.fingerprint == hex_sha256 x payload)) _) _ h in
      let (v, called, rest2) = >>=-eq-ok (sql x select_targets) _ rest in
      let (w, sets, last) =
        >>=-eq-ok (fail_if (not (texts_eq (stored_set c.checkpoint_id db) (target_set targets))) _)
          _ rest2 in
      known row f ((eq_iff row.fingerprint (hex_sha256 x payload)).0 (unless-eq-ok _ _ same))
        (unless-eq-ok _ _ sets) (cc) (cc)
  intake-Committed payload none {duplicate} {db'} s f h =
      let (u, called, rest) = >>=-eq-ok (sql x insert_checkpoint) _ h in
      let (db1, inserted, rest2) =
        >>=-eq-ok (insert_checkpoint_row (new_row db c payload (hex_sha256 x payload)) db) _ rest in
      let (db2, delivered, last) =
        >>=-eq-ok (insert_deliveries x c.checkpoint_id targets db1) _ rest2 in
      let (s1, row1, del1) =
        insert_checkpoint_row-IsSound (new_row db c payload (hex_sha256 x payload)) db s refl
          inserted in
      let (s2, row2, del2) = insert_deliveries-IsSound x c.checkpoint_id targets db1 s1 delivered in
      let e : db2 ≡ db' = cc in
      fresh f (cc) (subst IsSound e s2)
        (subst
          (λ (q : Ledger).
            q.checkpoints ≡ new_row db c payload (hex_sha256 x payload) ∷ db.checkpoints)
          e (row2 ∙ row1))
        (subst (λ (q : Ledger). q.deliveries ≡ added c.checkpoint_id targets db.deliveries) e
          (del2 ∙ ap (added c.checkpoint_id targets) del1))

  -- A transaction that succeeds had a valid checkpoint and valid targets.
  pub transaction-Committed :
      {duplicate : Bool} {db' : Ledger}
      → IsSound db
      → transaction x db c targets ≡ ok (duplicate, db')
      → (payload : Text) × (validate x.rfc3339 c ≡ ok tt)
        × (validate_targets targets ≡ ok tt)
        × (x.to_string c ≡ some payload)
        × Committed x db c targets payload duplicate db'
  unfolding transaction
  transaction-Committed {duplicate} {db'} s h =
      let (u0, valid, r0) = >>=-eq-ok (map_err invalid_checkpoint (validate x.rfc3339 c)) _ h in
      let (u1, aimed, r1) =
        >>=-eq-ok (map_err invalid_checkpoint (validate_targets targets)) _ r0 in
      let (payload, written, r2) = >>=-eq-ok (ok_or (x.to_string c) serialization) _ r1 in
      let (u3, begun, r3) = >>=-eq-ok (sql x begin) _ r2 in
      let (u4, asked, r4) = >>=-eq-ok (sql x select_fingerprint) _ r3 in
      let (done, taken, r5) =
        >>=-eq-ok
          (intake x db c targets payload (hex_sha256 x payload)
            (find_checkpoint c.checkpoint_id db.checkpoints))
          _ r4 in
      let (u6, closed, last) = >>=-eq-ok (sql x commit) _ r5 in
      (
        payload,
        map_err-eq-ok invalid_checkpoint (validate x.rfc3339 c) valid,
        map_err-eq-ok invalid_checkpoint (validate_targets targets) aimed,
        ok_or-eq-ok serialization (x.to_string c) written,
        intake-Committed payload (find_checkpoint c.checkpoint_id db.checkpoints) s refl
            (taken ∙ last),
      )
