-- ===== src/Progress/Ledger/Invariant.antt =====
-- The invariant of the ledger, and that its inserts keep it (crates/gareji-core/src/progress/mod.rs).
use mathlib.Core.Path.{subst}
use gareji_core.Base.{
  suc, ◌<◌, ◌≡◌, inl, inr, refl, ap, sym, true, false, some, List, [], ◌∷◌, map, Text, arith, All,
  All-of, All_at, Elem, Distinct, ok, ◌==◌, text_ord, eq_iff, eq_refl, Bool-cases, if◌then◌else◌,
  max,
}
use gareji_core.Progress.{from_db}
use gareji_core.Progress.Ledger.{
  Ledger, CheckpointRow, DeliveryRow, find_checkpoint, next_rowid, is_some, insert_checkpoint_row,
  insert_delivery_row, has_delivery,
}

abbrev pub ids : List CheckpointRow → List Text
ids = map (λ r. r.checkpoint_id)

-- Newest first: the rowids fall strictly.
abbrev pub Falling : List CheckpointRow → Type 0
Falling [] = Unit
Falling (r ∷ rows) = All (λ q. q.rowid < r.rowid) rows × Falling rows

-- No delivery twice.
abbrev pub KeysOnce : List DeliveryRow → Type 0
KeysOnce [] = Unit
KeysOnce (d ∷ rows) = (has_delivery d.checkpoint_id d.destination_id rows ≡ false) × KeysOnce rows

abbrev pub Stored : List CheckpointRow → Text → Type 0
Stored rows id = is_some (find_checkpoint id rows) ≡ true

pub record IsSound (db : Ledger) : Type 0 where
  pub ids_once : Distinct (ids db.checkpoints)
  pub rowids : Falling db.checkpoints
  pub references : All (λ d. Stored db.checkpoints d.checkpoint_id) db.deliveries
  pub keys_once : KeysOnce db.deliveries
  pub readable : All (λ d. is_some (from_db d.status) ≡ true) db.deliveries

pub find_checkpoint-cons :
    (id : Text) (r : CheckpointRow) (rows : List CheckpointRow)
    → find_checkpoint id (r ∷ rows)
      ≡ (if r.checkpoint_id == id then some r else find_checkpoint id rows)
unfolding find_checkpoint
find_checkpoint-cons id r rows = refl

pub find_checkpoint-id :
    (id : Text) (rows : List CheckpointRow) (r : CheckpointRow)
    → find_checkpoint id rows ≡ some r
    → (r.checkpoint_id ≡ id) × Elem r rows
unfolding find_checkpoint
find_checkpoint-id id [] r h = cc
find_checkpoint-id id (q ∷ rows) r h = elim (Bool-cases (q.checkpoint_id == id)) [
  | inl e ↦
      let same : q ≡ r = ground arith in
      (subst (λ s. s.checkpoint_id ≡ id) same ((eq_iff q.checkpoint_id id).0 e), inl (sym same))
  | inr n ↦ let (i, m) = find_checkpoint-id id rows r (ground arith) in (i, inr m)
]

find_checkpoint-none :
    (id : Text) (rows : List CheckpointRow)
    → is_some (find_checkpoint id rows) ≡ false
    → ¬ Elem id (ids rows)
unfolding find_checkpoint
find_checkpoint-none id [] h = λ m. m
find_checkpoint-none id (r ∷ rows) h = elim (Bool-cases (r.checkpoint_id == id)) [
  | inl e ↦ ground arith
  | inr n ↦ λ m. ground (arith, eq_iff r.checkpoint_id id, find_checkpoint-none id rows)
]

id_of_row :
    (r : CheckpointRow) (rows : List CheckpointRow) → Elem r rows → Elem r.checkpoint_id (ids rows)
id_of_row r [] m = m
id_of_row r (q ∷ rows) (inl e) = inl (ap (λ (s : CheckpointRow). s.checkpoint_id) e)
id_of_row r (q ∷ rows) (inr m) = inr (id_of_row r rows m)

-- A row of a sound table is found by its identity.
pub find_checkpoint-Elem :
    (r : CheckpointRow) (rows : List CheckpointRow)
    → Distinct (ids rows)
    → Elem r rows
    → find_checkpoint r.checkpoint_id rows ≡ some r
unfolding find_checkpoint
find_checkpoint-Elem r [] d m = absurd m
find_checkpoint-Elem r (q ∷ rows) d (inl e) = rw e (rw eq_refl)
find_checkpoint-Elem r (q ∷ rows) d (inr m) =
    elim (Bool-cases (q.checkpoint_id == r.checkpoint_id)) [
      | inl e ↦
          absurd (d.0 (rw ((eq_iff q.checkpoint_id r.checkpoint_id).0 e) (id_of_row r rows m)))
      | inr n ↦ rw n (find_checkpoint-Elem r rows d.1 m)
    ]

next_rowid_fresh : (rows : List CheckpointRow) → All (λ q. q.rowid < next_rowid rows) rows
unfolding next_rowid
next_rowid_fresh [] = tt
next_rowid_fresh (r ∷ rows) = (
  omega arith,
  All-of (λ q. q.rowid < max (suc r.rowid) (next_rowid rows)) rows
      (λ q m.
        let h = All_at (λ q. q.rowid < next_rowid rows) q rows (next_rowid_fresh rows) m in
        omega arith),
)

Stored-cons :
    (id : Text) (r : CheckpointRow) (rows : List CheckpointRow)
    → Stored rows id
    → Stored (r ∷ rows) id
unfolding find_checkpoint
Stored-cons id r rows h = ground arith

-- INSERT of a checkpoint with the next rowid.
pub insert_checkpoint_row-IsSound :
    (row : CheckpointRow) (db : Ledger) {db' : Ledger}
    → IsSound db
    → row.rowid ≡ next_rowid db.checkpoints
    → insert_checkpoint_row row db ≡ ok db'
    → IsSound db' × (db'.checkpoints ≡ row ∷ db.checkpoints) × (db'.deliveries ≡ db.deliveries)
unfolding insert_checkpoint_row
insert_checkpoint_row-IsSound row db {db'} s n h =
    elim (Bool-cases (is_some (find_checkpoint row.checkpoint_id db.checkpoints))) [
      | inl e ↦ ground arith
      | inr free ↦
          let same : record db { checkpoints = row ∷ db.checkpoints } ≡ db' = ground arith in
          subst
            (λ q.
              IsSound q × (q.checkpoints ≡ row ∷ db.checkpoints) × (q.deliveries ≡ db.deliveries))
            same
            (
              record {
                ids_once = (find_checkpoint-none row.checkpoint_id db.checkpoints free, s.ids_once);
                rowids = (
                  subst (λ k. All (λ q. q.rowid < k) db.checkpoints) (sym n)
                      (next_rowid_fresh db.checkpoints),
                  s.rowids,
                );
                references =
                    All-of (λ d. Stored (row ∷ db.checkpoints) d.checkpoint_id) db.deliveries
                      (λ d m. Stored-cons d.checkpoint_id row db.checkpoints (
                        All_at (λ d. Stored db.checkpoints d.checkpoint_id) d db.deliveries
                          s.references m));
                keys_once = s.keys_once;
                readable = s.readable;
              },
              refl,
              refl,
            )
    ]

-- INSERT of a delivery with a readable status.
pub insert_delivery_row-IsSound :
    (row : DeliveryRow) (db : Ledger) {db' : Ledger}
    → IsSound db
    → is_some (from_db row.status) ≡ true
    → insert_delivery_row row db ≡ ok db'
    → IsSound db' × (db'.checkpoints ≡ db.checkpoints) × (db'.deliveries ≡ row ∷ db.deliveries)
unfolding insert_delivery_row
insert_delivery_row-IsSound row db {db'} s r h =
    elim (Bool-cases (is_some (find_checkpoint row.checkpoint_id db.checkpoints))) [
      | inr lost ↦ ground arith
      | inl known ↦
          elim (Bool-cases (has_delivery row.checkpoint_id row.destination_id db.deliveries)) [
            | inl e ↦ ground arith
            | inr free ↦
                let same : record db { deliveries = row ∷ db.deliveries } ≡ db' = ground arith in
                subst
                  (λ q.
                    IsSound q
                    × (q.checkpoints ≡ db.checkpoints)
                    × (q.deliveries ≡ row ∷ db.deliveries))
                  same
                  (
                    record {
                      ids_once = s.ids_once;
                      rowids = s.rowids;
                      references = (known, s.references);
                      keys_once = (free, s.keys_once);
                      readable = (r, s.readable);
                    },
                    refl,
                    refl,
                  )
          ]
    ]
