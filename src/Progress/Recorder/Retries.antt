-- ===== src/Progress/Recorder/Retries.antt =====
-- A second `record` under the same identity (crates/gareji-core/src/progress/mod.rs).
use mathlib.Core.Path.{subst}
use gareji_core.Base.{
  ◌≡◌, ◌≢◌, inl, inr, refl, ap, sym, ◌∙◌, Bool, true, false, some, List, Text, arith, Result, ok,
  err, ◌>>=◌, >>=-eq-ok, text_ord, ◌==◌, eq_iff, eq_refl, Bool-cases, bytes,
}
use gareji_core.Progress.{ProgressCheckpoint, DeliveryTarget, RecordReceipt}
use gareji_core.Progress.Validate.{validate}
use gareji_core.Progress.Ledger.{
  Externals, Site, Ledger, CheckpointRow, ProgressError, find_checkpoint, checkpoint_conflict,
  delivery_set_mismatch,
}
use gareji_core.Progress.Ledger.Encoding.{hex_sha256, GivesBytes, hex_sha256_iff}
use gareji_core.Progress.Ledger.Invariant.{IsSound}
use gareji_core.Progress.Recorder.{
  validate_targets, intake, transaction, receipt, settle, record_checkpoint, stored_set, target_set,
  texts_eq, status,
}
use gareji_core.Progress.Recorder.Intake.{Committed, transaction-Committed}
use gareji_core.Progress.Recorder.Stored.{stored_after, texts_eq_refl, texts_eq_sound}

-- No storage call fails.
abbrev pub NoFaults : Externals → Type 0
NoFaults x = (site : Site) → x.fault site ≡ false

bind_ok : {A E : Type 0} (m : Result A E) → (m >>= λ a. ok a) ≡ m
bind_ok (ok a) = refl
bind_ok (err e) = refl

module _ (x : Externals) (db : Ledger) (c : ProgressCheckpoint)
    (targets : List DeliveryTarget) where
  -- Valid input, with no fault on the way, comes down to the two branches.
  pub transaction_of_valid :
      {payload : Text}
      → NoFaults x
      → validate x.rfc3339 c ≡ ok tt
      → validate_targets targets ≡ ok tt
      → x.to_string c ≡ some payload
      → transaction x db c targets
        ≡ intake x db c targets payload
            (hex_sha256 x payload)
            (find_checkpoint c.checkpoint_id db.checkpoints)
  unfolding transaction
  transaction_of_valid {payload} quiet valid aimed written = rw valid (
      rw aimed (
        rw written (
          rw (quiet Site.begin)
            (rw (quiet Site.select_fingerprint) (rw (quiet Site.commit) (bind_ok _))))))

  intake_same :
      (payload : Text) (row : CheckpointRow)
      → NoFaults x
      → row.fingerprint ≡ hex_sha256 x payload
      → stored_set c.checkpoint_id db ≡ target_set targets
      → intake x db c targets payload (hex_sha256 x payload) (some row) ≡ ok (true, db)
  unfolding intake
  intake_same payload row quiet same sets =
      rw (same, eq_refl) (rw (quiet Site.select_targets) (rw (sets, texts_eq_refl)))

  intake_other_content :
      (payload : Text) (row : CheckpointRow)
      → row.fingerprint ≢ hex_sha256 x payload
      → intake x db c targets payload (hex_sha256 x payload) (some row)
        ≡ err (checkpoint_conflict c.checkpoint_id)
  unfolding intake
  intake_other_content payload row other =
      elim (Bool-cases (row.fingerprint == hex_sha256 x payload)) [
        | inl e ↦ absurd (other ((eq_iff _ _).0 e))
        | inr n ↦ rw n
      ]

  intake_other_targets :
      (payload : Text) (row : CheckpointRow)
      → NoFaults x
      → row.fingerprint ≡ hex_sha256 x payload
      → stored_set c.checkpoint_id db ≢ target_set targets
      → intake x db c targets payload (hex_sha256 x payload) (some row)
        ≡ err (delivery_set_mismatch c.checkpoint_id)
  unfolding intake
  intake_other_targets payload row quiet same other =
      elim (Bool-cases (texts_eq (stored_set c.checkpoint_id db) (target_set targets))) [
        | inl e ↦ absurd (other (texts_eq_sound _ _ e))
        | inr n ↦ rw (same, eq_refl) (rw (quiet Site.select_targets) (rw n))
      ]

-- What a `record` that succeeded did.
pub record Accepted (x : Externals) (db : Ledger) (c : ProgressCheckpoint)
    (targets : List DeliveryTarget) (r : RecordReceipt) (db' : Ledger) : Type 0 where
  pub payload : Text
  pub duplicate : Bool
  pub valid : validate x.rfc3339 c ≡ ok tt
  pub aimed : validate_targets targets ≡ ok tt
  pub written : x.to_string c ≡ some payload
  pub committed : Committed x db c targets payload duplicate db'
  pub received : receipt x c duplicate db' ≡ ok r

settle-Accepted :
    (x : Externals) (db : Ledger) (c : ProgressCheckpoint) (targets : List DeliveryTarget)
    (t : Result (Bool × Ledger) ProgressError) {r : RecordReceipt} {db' : Ledger}
    → IsSound db
    → transaction x db c targets ≡ t
    → settle x db c t ≡ (ok r, db')
    → Accepted x db c targets r db'
unfolding settle
settle-Accepted x db c targets (err e) {r} {db'} s h k =
    let failed = ap (λ (p : Result RecordReceipt ProgressError × Ledger). p.0) k in cc
settle-Accepted x db c targets (ok (duplicate, db1)) {r} {db'} s h k =
    let answered = ap (λ (p : Result RecordReceipt ProgressError × Ledger). p.0) k in
    let kept = ap (λ (p : Result RecordReceipt ProgressError × Ledger). p.1) k in
    let (payload, valid, aimed, written, done) = transaction-Committed x db c targets s h in
    record {
      payload = payload;
      duplicate = duplicate;
      valid = valid;
      aimed = aimed;
      written = written;
      committed = subst (Committed x db c targets payload duplicate) kept done;
      received = subst (λ q. receipt x c duplicate q ≡ ok r) kept answered;
    }

pub record_checkpoint-Accepted :
    (x : Externals) (db : Ledger) (c : ProgressCheckpoint) (targets : List DeliveryTarget)
    {r : RecordReceipt} {db' : Ledger}
    → IsSound db
    → record_checkpoint x db c targets ≡ (ok r, db')
    → Accepted x db c targets r db'
unfolding record_checkpoint
record_checkpoint-Accepted x db c targets s h =
    settle-Accepted x db c targets (transaction x db c targets) s refl h

receipt_duplicate :
    (x : Externals) (c : ProgressCheckpoint) (duplicate : Bool) (db : Ledger) {r : RecordReceipt}
    → receipt x c duplicate db ≡ ok r
    → receipt x c true db ≡ ok (record r { duplicate = true })
unfolding receipt
receipt_duplicate x c duplicate db {r} h =
    let (s, found, same) = >>=-eq-ok (status x db c.checkpoint_id) _ h in rw found (ground arith)

-- A first `record` that succeeded.
module _ (x : Externals) (db : Ledger) (c : ProgressCheckpoint) (targets : List DeliveryTarget)
    {r : RecordReceipt} {db' : Ledger} (quiet : NoFaults x) (sound : IsSound db)
    (first : record_checkpoint x db c targets ≡ (ok r, db')) where
  -- Where no storage call fails, recording the checkpoint that was recorded on a sound ledger
  -- once more, for the same targets, changes nothing, and the receipt differs only in saying
  -- that it is a duplicate.
  pub record_checkpoint_again :
      record_checkpoint x db' c targets ≡ (ok (record r { duplicate = true }), db')
  unfolding record_checkpoint settle
  record_checkpoint_again =
      let a = record_checkpoint-Accepted x db c targets sound first in
      let (row, found, same, sets) = stored_after x db c targets sound a.committed in
      rw (transaction_of_valid x db' c targets quiet a.valid a.aimed a.written) (
        rw found (
          rw (intake_same x db' c targets a.payload row quiet same sets)
            (rw (receipt_duplicate x c a.duplicate db' a.received))))

  -- Where no storage call fails, other valid content under the identity that was recorded on a
  -- sound ledger is a conflict and changes nothing, unless SHA-256 collides on the two
  -- payloads.
  pub record_checkpoint_conflict :
      (c2 : ProgressCheckpoint) (targets2 : List DeliveryTarget) {payload payload2 : Text}
      → GivesBytes x
      → c2.checkpoint_id ≡ c.checkpoint_id
      → validate x.rfc3339 c2 ≡ ok tt
      → validate_targets targets2 ≡ ok tt
      → x.to_string c ≡ some payload
      → x.to_string c2 ≡ some payload2
      → x.digest (bytes payload) ≢ x.digest (bytes payload2)
      → record_checkpoint x db' c2 targets2 ≡ (err (checkpoint_conflict c2.checkpoint_id), db')
  unfolding record_checkpoint settle
  record_checkpoint_conflict c2 targets2 {payload} {payload2} gives id valid aimed written written2
        differ =
      let a = record_checkpoint-Accepted x db c targets sound first in
      let (row, found, same, sets) = stored_after x db c targets sound a.committed in
      let p : payload ≡ a.payload = ground (arith, written, a.written) in
      let other : row.fingerprint ≢ hex_sha256 x payload2 = λ e.
        differ ((hex_sha256_iff x payload payload2 gives).0 (ap (hex_sha256 x) p ∙ sym same ∙ e)) in
      rw (transaction_of_valid x db' c2 targets2 quiet valid aimed written2) (
        rw (subst (λ i. find_checkpoint i db'.checkpoints ≡ some row) (sym id) found)
          (rw (intake_other_content x db' c2 targets2 payload2 row other)))

  -- Where no storage call fails, the checkpoint that was recorded on a sound ledger is refused
  -- for another valid set of targets, and nothing changes.
  pub record_checkpoint_other_targets :
      (targets2 : List DeliveryTarget)
      → validate_targets targets2 ≡ ok tt
      → target_set targets2 ≢ target_set targets
      → record_checkpoint x db' c targets2 ≡ (err (delivery_set_mismatch c.checkpoint_id), db')
  unfolding record_checkpoint settle
  record_checkpoint_other_targets targets2 aimed differ =
      let a = record_checkpoint-Accepted x db c targets sound first in
      let (row, found, same, sets) = stored_after x db c targets sound a.committed in
      rw (transaction_of_valid x db' c targets2 quiet a.valid aimed a.written) (
        rw found (
          rw (
            intake_other_targets x db' c targets2 a.payload row quiet same
              (λ e. differ (sym (sym sets ∙ e))))))
