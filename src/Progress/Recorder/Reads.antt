-- ===== src/Progress/Recorder/Reads.antt =====
-- `status` after the first `record` of a checkpoint (crates/gareji-core/src/progress/mod.rs).
use mathlib.Core.Path.{subst}
use gareji_core.Base.{
  Between, ◌≡◌, ◌⊎◌, ◌↔◌, inl, inr, refl, ap, sym, ◌∙◌, false, none, some, List, [], ◌∷◌, map, Text,
  arith, All, All-of, All_at, Elem, ok, text_ord, eq_refl, sort_by, Elem-sort_by, String,
}
use gareji_core.Progress.{ProgressCheckpoint, DeliveryTarget, DeliveryReceipt, pending, as_db}
use gareji_core.Progress.Statuses.{from_db-as_db}
use gareji_core.Progress.Validate.{validate}
use gareji_core.Progress.Validate.Bounds.{validate_iff}
use gareji_core.Progress.Ledger.{
  Externals, Site, Ledger, DeliveryRow, ReadsBack, find_checkpoint, insert_checkpoint_row,
  select_deliveries, by_destination,
}
use gareji_core.Progress.Ledger.Encoding.{hex_sha256}
use gareji_core.Progress.Ledger.Invariant.{IsSound, find_checkpoint-cons}
use gareji_core.Progress.Recorder.{
  validate_targets, validate_bounded_id, validate_lookup_id, new_row, intake, transaction, receipt,
  settle, record_checkpoint, read_delivery, read_all, delivery_receipts, status,
}
use gareji_core.Progress.Recorder.Intake.{added}
use gareji_core.Progress.Recorder.Stored.{rows_of_unknown, rows_of-added, destinations, targeted}
use gareji_core.Progress.Recorder.Retries.{NoFaults, transaction_of_valid}
use gareji_core.Progress.Recorder.Stored.{added_sub, added_sup, sorted_sub, sorted_sup}
use gareji_core.Progress.Recorder.Fresh.{
  validate_targets-Distinct, insert_deliveries_succeeds, no_delivery_of_unknown,
}

-- A delivery that waits for its first attempt.
abbrev pub IsNew : DeliveryRow → Type 0
IsNew d = (d.status ≡ as_db pending) × (d.attempts ≡ 0) × (d.last_error ≡ none)

abbrev pub IsPending : DeliveryReceipt → Type 0
IsPending r = (r.status ≡ pending) × (r.attempts ≡ 0) × (r.last_error ≡ none)

added-IsNew :
    (id : Text) (targets : List DeliveryTarget) (rows : List DeliveryRow)
    → All IsNew rows
    → All IsNew (added id targets rows)
added-IsNew id [] rows h = h
added-IsNew id (t ∷ targets) rows h = added-IsNew id targets _ ((refl, refl, refl), h)

new_receipt : DeliveryRow → DeliveryReceipt
new_receipt d = record {
  destination_id = d.destination_id;
  status = pending;
  attempts = 0;
  last_error = none;
}

read_new : (d : DeliveryRow) → IsNew d → read_delivery d ≡ ok (new_receipt d)
unfolding read_delivery new_receipt
read_new d (s, a, e) = rw (s, a, e) (rw (from_db-as_db pending))

read_all_new :
    (rows : List DeliveryRow)
    → All IsNew rows
    → read_all read_delivery rows ≡ ok (map new_receipt rows)
read_all_new [] h = refl
read_all_new (d ∷ rows) h = rw (read_new d h.0, read_all_new rows h.1)

new_receipts-IsPending : (rows : List DeliveryRow) → All IsPending (map new_receipt rows)
unfolding new_receipt
new_receipts-IsPending [] = tt
new_receipts-IsPending (d ∷ rows) = ((refl, refl, refl), new_receipts-IsPending rows)

new_receipts_destinations :
    (rows : List DeliveryRow)
    → map (λ (r : DeliveryReceipt). r.destination_id) (map new_receipt rows) ≡ destinations rows
unfolding new_receipt
new_receipts_destinations [] = refl
new_receipts_destinations (d ∷ rows) = rw (new_receipts_destinations rows)

bounded_id_ok :
    (field : String) (id : Text) → Between 1 128 id → validate_bounded_id field id ≡ ok tt
unfolding validate_bounded_id
bounded_id_ok field id h = ground arith

lookup_id_ok : (id : Text) → Between 1 128 id → validate_lookup_id id ≡ ok tt
unfolding validate_lookup_id
lookup_id_ok id h = bounded_id_ok "checkpoint_id" id h

module _ (x : Externals) (db : Ledger) (c : ProgressCheckpoint) (targets : List DeliveryTarget)
    {payload : Text} (quiet : NoFaults x) (reads : ReadsBack x) (sound : IsSound db)
    (valid : validate x.rfc3339 c ≡ ok tt) (aimed : validate_targets targets ≡ ok tt)
    (written : x.to_string c ≡ some payload)
    (unknown : find_checkpoint c.checkpoint_id db.checkpoints ≡ none) where
  -- The ledger after the first `record`.
  abbrev pub recorded : Ledger
  recorded = record {
    checkpoints = new_row db c payload (hex_sha256 x payload) ∷ db.checkpoints;
    deliveries = added c.checkpoint_id targets db.deliveries;
  }

  abbrev rows : List DeliveryRow
  rows = sort_by by_destination (added c.checkpoint_id targets [])

  abbrev receipts : List DeliveryReceipt
  receipts = map new_receipt rows

  stored_new :
      find_checkpoint c.checkpoint_id recorded.checkpoints
      ≡ some (new_row db c payload (hex_sha256 x payload))
  stored_new = rw find_checkpoint-cons (rw (eq_refl c.checkpoint_id))

  transaction_fresh : transaction x db c targets ≡ ok (false, recorded)
  unfolding intake insert_checkpoint_row
  transaction_fresh = rw (transaction_of_valid x db c targets quiet valid aimed written) (
      rw unknown (
        rw (quiet Site.insert_checkpoint) (
          rw unknown (
            rw (
              insert_deliveries_succeeds x c.checkpoint_id targets
                (record db {
                  checkpoints = new_row db c payload (hex_sha256 x payload) ∷ db.checkpoints;
                })
                quiet (rw stored_new) (validate_targets-Distinct targets aimed)
                (λ b m.
                  no_delivery_of_unknown c.checkpoint_id b db.checkpoints db.deliveries unknown
                    sound.references))))))

  rows_fresh : select_deliveries c.checkpoint_id recorded.deliveries ≡ rows
  unfolding select_deliveries
  rows_fresh = ap (sort_by by_destination) (
      rows_of-added c.checkpoint_id targets db.deliveries
      ∙ ap (added c.checkpoint_id targets)
          (rows_of_unknown c.checkpoint_id db.checkpoints db.deliveries unknown sound.references))

  rows-IsNew : All IsNew rows
  rows-IsNew = All-of IsNew rows (λ d m.
      All_at IsNew d (added c.checkpoint_id targets []) (added-IsNew c.checkpoint_id targets [] tt)
        ((Elem-sort_by by_destination d _).0 m))

  status_fresh :
      status x recorded c.checkpoint_id ≡ ok (record { checkpoint = c; deliveries = receipts })
  unfolding status delivery_receipts
  status_fresh = rw (lookup_id_ok c.checkpoint_id ((validate_iff x.rfc3339 c).0 valid).checkpoint) (
      rw (quiet Site.select_payload) (
        rw stored_new (
          rw (reads.from_str-to_string c payload written)
            (rw (quiet Site.select_receipts) (rw rows_fresh (rw (read_all_new rows rows-IsNew)))))))

  -- Where no storage call fails and the payload reads back as it was written, a valid
  -- checkpoint whose identity a sound ledger does not have is recorded: the receipt says so,
  -- `status` returns that very checkpoint with the same deliveries, there is one for each
  -- target and no other, and each waits for its first attempt.
  pub record_checkpoint_fresh :
      (deliveries : List DeliveryReceipt) × (record_checkpoint x db c targets ≡ (
        ok (record { checkpoint_id = c.checkpoint_id; duplicate = false; deliveries = deliveries }),
        recorded,
      ))
      × (status x recorded c.checkpoint_id
          ≡ ok (record { checkpoint = c; deliveries = deliveries }))
      × All IsPending deliveries
      × ((b : Text)
          → Elem b (map (λ (r : DeliveryReceipt). r.destination_id) deliveries)
            ↔ Elem b (targeted targets))
  unfolding record_checkpoint settle receipt
  record_checkpoint_fresh = (
    receipts,
    rw transaction_fresh (rw status_fresh),
    status_fresh,
    new_receipts-IsPending rows,
    λ b. (
      λ m. only (
          added_sub c.checkpoint_id targets [] b
            (sorted_sub _ b (subst (Elem b) (new_receipts_destinations rows) m))),
      λ m.
          subst (Elem b) (sym (new_receipts_destinations rows))
            (sorted_sup _ b (added_sup c.checkpoint_id targets [] b (inl m))),
    ),
  )
    where
      only : {P : Type 0} → P ⊎ ⊥ → P
      only (inl p) = p
      only (inr q) = absurd q
