-- ===== src/Progress/Recorder/Examples.antt =====
-- The recorder on a sample checkpoint (crates/gareji-core/src/progress/mod.rs).
use native.Mathlib.Decide.{ℕ_discrete}
use gareji_core.Base.{
  ◌≡◌, ◌↔◌, refl, true, false, none, List, [], ◌∷◌, map, Text, codes, All, Elem, ok, err, text_ord,
  text_leq, ◌==◌, contains, collect, insert, sort_by, bytes, starts_with, is_control,
}
use gareji_core.Progress.{DeliveryReceipt, RecordReceipt, pending, as_db, from_db}
use gareji_core.Progress.Samples.{
  empty, empty-IsSound, one_recorded, first_checkpoint, changed_checkpoint, two_targets, one_target,
  packages, packages-ReadsBack, packages-GivesBytes,
}
use gareji_core.Progress.Validate.{
  validate, validate_text, validate_required_id, validate_optional_id, validate_optional_text,
  validate_collection_len, validate_unique, validate_path, validate_git, validate_verification,
  validate_evidence_ref, validate_target, is_safe_relative_path, split, onto_first, second_is_colon,
}
use gareji_core.Progress.Ledger.{
  checkpoint_conflict, find_checkpoint, next_rowid, insert_checkpoint_row, insert_delivery_row,
  is_delivery, has_delivery, select_deliveries, update_row, update_delivery_row,
}
use gareji_core.Progress.Ledger.Encoding.{hex_sha256, sanitize_message, kept_character}
use gareji_core.Progress.Ledger.Invariant.{IsSound}
use gareji_core.Progress.Recorder.{
  validate_targets, validate_targets_from, validate_bounded_id, validate_lookup_id, read_delivery,
  delivery_receipts, status, texts_eq, insert_deliveries, intake, transaction, receipt, settle,
  record_checkpoint,
}
use gareji_core.Progress.Recorder.Retries.{record_checkpoint_again, record_checkpoint_conflict}
use gareji_core.Progress.Recorder.Stored.{targeted}
use gareji_core.Progress.Recorder.Reads.{IsPending, record_checkpoint_fresh}
use gareji_core.Progress.Recorder.Record.{Extends, record_checkpoint-IsSound}

program : Unit {0}
unfolding text_leq ◌==◌ contains collect insert sort_by bytes starts_with is_control from_db as_db
    validate validate_text validate_required_id validate_optional_id validate_optional_text
    validate_collection_len validate_unique validate_path validate_git validate_verification
    validate_evidence_ref validate_target is_safe_relative_path split onto_first second_is_colon
    find_checkpoint next_rowid insert_checkpoint_row insert_delivery_row is_delivery has_delivery
    select_deliveries update_row update_delivery_row hex_sha256 sanitize_message kept_character
    validate_targets validate_targets_from validate_bounded_id validate_lookup_id read_delivery
    delivery_receipts status texts_eq insert_deliveries intake transaction receipt settle
    record_checkpoint
program = tt

abbrev waiting : Text → DeliveryReceipt
waiting id = record { destination_id = id; status = pending; attempts = 0; last_error = none }

abbrev first_receipt : RecordReceipt
first_receipt = record {
  checkpoint_id = codes "cp-1";
  duplicate = false;
  deliveries = waiting (codes "board") ∷ waiting (codes "json") ∷ [];
}

first_recorded :
    record_checkpoint packages empty first_checkpoint two_targets ≡ (ok first_receipt, one_recorded)
unfolding program ℕ_discrete
first_recorded = refl

record_checkpoint-IsSound_example :
    IsSound (record_checkpoint packages empty first_checkpoint two_targets).1
    × Extends empty (record_checkpoint packages empty first_checkpoint two_targets).1
record_checkpoint-IsSound_example =
    record_checkpoint-IsSound packages empty first_checkpoint two_targets empty-IsSound

record_checkpoint_again_example :
    record_checkpoint packages one_recorded first_checkpoint two_targets
    ≡ (ok (record first_receipt { duplicate = true }), one_recorded)
record_checkpoint_again_example =
    record_checkpoint_again packages empty first_checkpoint two_targets (λ site. refl) empty-IsSound
      first_recorded

changed_valid : validate packages.rfc3339 changed_checkpoint ≡ ok tt
unfolding program
changed_valid = refl

two_valid : validate_targets two_targets ≡ ok tt
unfolding program
two_valid = refl

one_valid : validate_targets one_target ≡ ok tt
unfolding program
one_valid = refl

record_checkpoint_conflict_example :
    record_checkpoint packages one_recorded changed_checkpoint one_target
    ≡ (err (checkpoint_conflict (codes "cp-1")), one_recorded)
unfolding program ℕ_discrete
record_checkpoint_conflict_example =
    record_checkpoint_conflict packages empty first_checkpoint two_targets (λ site. refl)
      empty-IsSound first_recorded changed_checkpoint one_target {payload = codes "{}"}
      {payload2 = []} packages-GivesBytes refl changed_valid one_valid refl refl (λ e. cc)

first_valid : validate packages.rfc3339 first_checkpoint ≡ ok tt
unfolding program
first_valid = refl

record_checkpoint_fresh_example :
    (deliveries : List DeliveryReceipt) × (record_checkpoint packages empty first_checkpoint
        two_targets
      ≡ (
        ok (record { checkpoint_id = codes "cp-1"; duplicate = false; deliveries = deliveries }),
        one_recorded,
      ))
    × (status packages one_recorded (codes "cp-1")
        ≡ ok (record { checkpoint = first_checkpoint; deliveries = deliveries }))
    × All IsPending deliveries
    × ((b : Text)
        → Elem b (map (λ (r : DeliveryReceipt). r.destination_id) deliveries)
          ↔ Elem b (targeted two_targets))
unfolding program ℕ_discrete
record_checkpoint_fresh_example =
    record_checkpoint_fresh packages empty first_checkpoint two_targets {payload = codes "{}"}
      (λ site. refl) packages-ReadsBack empty-IsSound first_valid two_valid refl refl
