-- ===== src/Progress/Recorder/Stored.antt =====
-- What stands in the ledger after a transaction of `record` (crates/gareji-core/src/progress/mod.rs).
use mathlib.Core.Path.{subst}
use gareji_core.Base.{
  ◌≡◌, ◌⊎◌, inl, inr, refl, ap, sym, ◌∙◌, Bool, true, Option, none, some, List, [], ◌∷◌, map, Text,
  arith, All, Elem, Elem-map, Elem-map_inv, text_ord, ◌==◌, eq_iff, eq_refl, Bool-cases, sort_by,
  Elem-sort_by, collect_ext,
}
use gareji_core.Progress.{ProgressCheckpoint, DeliveryTarget}
use gareji_core.Progress.Ledger.{
  Externals, Ledger, CheckpointRow, DeliveryRow, find_checkpoint, is_some, rows_of,
  select_deliveries, by_destination,
}
use gareji_core.Progress.Ledger.Encoding.{hex_sha256}
use gareji_core.Progress.Ledger.Invariant.{IsSound, Stored, find_checkpoint-cons}
use gareji_core.Progress.Recorder.{new_row, new_delivery, texts_eq, stored_set, target_set}
use gareji_core.Progress.Recorder.Intake.{added, Committed, known, fresh}

pub texts_eq_refl : (ts : List Text) → texts_eq ts ts ≡ true
unfolding texts_eq
texts_eq_refl [] = refl
texts_eq_refl (t ∷ ts) = rw (eq_refl t, texts_eq_refl ts)

pub texts_eq_sound : (ts us : List Text) → texts_eq ts us ≡ true → ts ≡ us
unfolding texts_eq
texts_eq_sound [] [] h = refl
texts_eq_sound [] (u ∷ us) h = ground arith
texts_eq_sound (t ∷ ts) [] h = ground arith
texts_eq_sound (t ∷ ts) (u ∷ us) h = ground (arith, eq_iff t u, texts_eq_sound ts us)

-- An unknown checkpoint has no deliveries.
pub rows_of_unknown :
    (id : Text) (checkpoints : List CheckpointRow) (rows : List DeliveryRow)
    → find_checkpoint id checkpoints ≡ none
    → All (λ d. Stored checkpoints d.checkpoint_id) rows
    → rows_of id rows ≡ []
rows_of_unknown id checkpoints [] h s = refl
rows_of_unknown id checkpoints (d ∷ rows) h s = elim (Bool-cases (d.checkpoint_id == id)) [
  | inl e ↦
      let there = subst (Stored checkpoints) ((eq_iff d.checkpoint_id id).0 e) s.0 in
      absurd (lost (find_checkpoint id checkpoints) h there)
  | inr n ↦ rw n (rows_of_unknown id checkpoints rows h s.1)
]
  where
    lost : (o : Option CheckpointRow) → o ≡ none → ¬ (is_some o ≡ true)
    lost none e t = cc
    lost (some r) e t = cc

-- The inserts add one row for each target, under this checkpoint.
pub rows_of-added :
    (id : Text) (targets : List DeliveryTarget) (rows : List DeliveryRow)
    → rows_of id (added id targets rows) ≡ added id targets (rows_of id rows)
rows_of-added id [] rows = refl
rows_of-added id (t ∷ targets) rows =
    rw (rows_of-added id targets (new_delivery id t ∷ rows)) (rw (eq_refl id))

abbrev pub destinations : List DeliveryRow → List Text
destinations = map (λ d. d.destination_id)

abbrev pub targeted : List DeliveryTarget → List Text
targeted = map (λ t. t.destination_id)

pub added_sub :
    (id : Text) (targets : List DeliveryTarget) (rows : List DeliveryRow) (b : Text)
    → Elem b (destinations (added id targets rows))
    → Elem b (targeted targets) ⊎ Elem b (destinations rows)
added_sub id [] rows b m = inr m
added_sub id (t ∷ targets) rows b m =
    ground (arith, added_sub id targets (new_delivery id t ∷ rows) b m)

pub added_sup :
    (id : Text) (targets : List DeliveryTarget) (rows : List DeliveryRow) (b : Text)
    → Elem b (targeted targets) ⊎ Elem b (destinations rows)
    → Elem b (destinations (added id targets rows))
added_sup id [] rows b m = ground arith
added_sup id (t ∷ targets) rows b m =
    added_sup id targets (new_delivery id t ∷ rows) b (ground arith)

pub sorted_sub :
    (rows : List DeliveryRow) (b : Text)
    → Elem b (destinations (sort_by by_destination rows))
    → Elem b (destinations rows)
sorted_sub rows b m =
    let (d, there, e) = Elem-map_inv (λ (d : DeliveryRow). d.destination_id) b _ m in
    rw e (
      Elem-map (λ (d : DeliveryRow). d.destination_id) d rows
        ((Elem-sort_by by_destination d rows).0 there))

pub sorted_sup :
    (rows : List DeliveryRow) (b : Text)
    → Elem b (destinations rows)
    → Elem b (destinations (sort_by by_destination rows))
sorted_sup rows b m =
    let (d, there, e) = Elem-map_inv (λ (d : DeliveryRow). d.destination_id) b rows m in
    rw e (
      Elem-map (λ (d : DeliveryRow). d.destination_id) d _
        ((Elem-sort_by by_destination d rows).1 there))

pub stored_set-added :
    (id : Text) (targets : List DeliveryTarget) (db : Ledger)
    → rows_of id db.deliveries ≡ added id targets []
    → stored_set id db ≡ target_set targets
unfolding select_deliveries
stored_set-added id targets db e =
    collect_ext _ _
      (λ b m. only (
        added_sub id targets [] b (
          subst (λ rows. Elem b (destinations rows)) e
            (sorted_sub (rows_of id db.deliveries) b m))))
      (λ b m.
        sorted_sup (rows_of id db.deliveries) b
          (subst (λ rows. Elem b (destinations rows)) (sym e) (added_sup id targets [] b (inl m))))
  where
    only : {P : Type 0} → P ⊎ ⊥ → P
    only (inl p) = p
    only (inr q) = absurd q

module _ (x : Externals) (db : Ledger) (c : ProgressCheckpoint)
    (targets : List DeliveryTarget) where
  -- After the transaction the checkpoint stands with its fingerprint and its delivery set.
  pub stored_after :
      {payload : Text} {duplicate : Bool} {db' : Ledger}
      → IsSound db
      → Committed x db c targets payload duplicate db'
      → (row : CheckpointRow) × (find_checkpoint c.checkpoint_id db'.checkpoints ≡ some row)
        × (row.fingerprint ≡ hex_sha256 x payload)
        × (stored_set c.checkpoint_id db' ≡ target_set targets)
  stored_after {payload} {duplicate} {db'} s (known row f same sets d e) =
      (row, rw e f, same, rw e (texts_eq_sound _ _ sets))
  stored_after {payload} {duplicate} {db'} s (fresh f d s' rows dels) = (
    new_row db c payload (hex_sha256 x payload),
    rw rows (rw find_checkpoint-cons (rw (eq_refl c.checkpoint_id))),
    refl,
    stored_set-added c.checkpoint_id targets db' (
        ap (rows_of c.checkpoint_id) dels
        ∙ rows_of-added c.checkpoint_id targets db.deliveries
        ∙ ap (added c.checkpoint_id targets)
            (rows_of_unknown c.checkpoint_id db.checkpoints db.deliveries f s.references)),
  )
