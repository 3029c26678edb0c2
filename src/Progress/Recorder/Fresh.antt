-- ===== src/Progress/Recorder/Fresh.antt =====
-- The first `record` of a checkpoint, and `status` after it (crates/gareji-core/src/progress/mod.rs).
use mathlib.Core.Path.{subst}
use gareji_core.Base.{
  ◌≡◌, ◌≢◌, inl, inr, refl, false, none, List, [], ◌∷◌, Text, arith, All, Elem, Distinct, ok,
  >>=-eq-ok, fail_if, fail_if-eq-ok, text_ord, ◌==◌, eq_iff, eq_refl, Bool-cases, contains,
  contains-false, insert, Elem-insert,
}
use gareji_core.Progress.{DeliveryTarget}
use gareji_core.Progress.Validate.{validate_target}
use gareji_core.Progress.Ledger.{
  Externals, Ledger, CheckpointRow, DeliveryRow, find_checkpoint, has_delivery, insert_delivery_row,
  rows_of, insert_delivery,
}
use gareji_core.Progress.Ledger.Invariant.{Stored}
use gareji_core.Progress.Recorder.{
  validate_targets, validate_targets_from, new_delivery, insert_deliveries,
}
use gareji_core.Progress.Recorder.Intake.{added}
use gareji_core.Progress.Recorder.Stored.{rows_of_unknown, targeted}
use gareji_core.Progress.Recorder.Retries.{NoFaults}

targets_from-Distinct :
    (seen : List Text) (targets : List DeliveryTarget)
    → validate_targets_from seen targets ≡ ok tt
    → Distinct (targeted targets) × ((b : Text) → Elem b (targeted targets) → ¬ Elem b seen)
unfolding validate_targets_from
targets_from-Distinct seen [] h = (tt, λ b m. absurd m)
targets_from-Distinct seen (t ∷ targets) h =
    let (u, fits, r0) = >>=-eq-ok (validate_target t) _ h in
    let (v, once, r1) = >>=-eq-ok (fail_if (contains seen t.destination_id) _) _ r0 in
    let new = contains-false seen t.destination_id (fail_if-eq-ok _ _ once) in
    let (rest, later) = targets_from-Distinct (insert t.destination_id seen) targets r1 in
    (
      (
        λ m.
            later t.destination_id m
              ((Elem-insert t.destination_id t.destination_id seen).1 (inl refl)),
        rest,
      ),
      λ b m k. elim m [
        | inl e ↦ new (subst (λ q. Elem q seen) e k)
        | inr n ↦ later b n ((Elem-insert b t.destination_id seen).1 (inr k))
      ],
    )

-- Accepted targets are distinct.
pub validate_targets-Distinct :
    (targets : List DeliveryTarget) → validate_targets targets ≡ ok tt → Distinct (targeted targets)
unfolding validate_targets
validate_targets-Distinct targets h = (targets_from-Distinct [] targets h).0

pub no_delivery_of_unknown :
    (id destination : Text) (checkpoints : List CheckpointRow) (rows : List DeliveryRow)
    → find_checkpoint id checkpoints ≡ none
    → All (λ d. Stored checkpoints d.checkpoint_id) rows
    → has_delivery id destination rows ≡ false
unfolding has_delivery
no_delivery_of_unknown id destination checkpoints rows h s =
    none_here id destination rows (rows_of_unknown id checkpoints rows h s)
  where
    none_here :
        (id destination : Text) (rows : List DeliveryRow)
        → rows_of id rows ≡ []
        → has_delivery id destination rows ≡ false
    none_here id destination [] e = refl
    none_here id destination (d ∷ rows) e = ground (arith, none_here id destination rows)

ne_test : (a b : Text) → a ≢ b → (a == b) ≡ false
ne_test a b n = elim (Bool-cases (a == b)) [ inl e ↦ absurd (n ((eq_iff a b).0 e)) | inr f ↦ f ]

still_free :
    (id : Text) (t : DeliveryTarget) (rows : List DeliveryRow) (b : Text)
    → t.destination_id ≢ b
    → has_delivery id b rows ≡ false
    → has_delivery id b (new_delivery id t ∷ rows) ≡ false
unfolding has_delivery
still_free id t rows b n h = rw (eq_refl, ne_test t.destination_id b n, h)

-- The inserts of `record` succeed for new, distinct destinations.
pub insert_deliveries_succeeds :
    (x : Externals) (id : Text) (targets : List DeliveryTarget) (db : Ledger)
    → NoFaults x
    → Stored db.checkpoints id
    → Distinct (targeted targets)
    → ((b : Text) → Elem b (targeted targets) → has_delivery id b db.deliveries ≡ false)
    → insert_deliveries x id targets db
      ≡ ok (record db { deliveries = added id targets db.deliveries })
unfolding insert_deliveries insert_delivery_row
insert_deliveries_succeeds x id [] db quiet there once free = refl
insert_deliveries_succeeds x id (t ∷ targets) db quiet there once free =
    rw (quiet (insert_delivery t.destination_id)) (
      rw there (
        rw (free t.destination_id (inl refl)) (
          insert_deliveries_succeeds x id targets
            (record db { deliveries = new_delivery id t ∷ db.deliveries }) quiet there once.1
            (λ b m. still_free id t db.deliveries b (λ e. once.0 (rw e m)) (free b (inr m))))))
