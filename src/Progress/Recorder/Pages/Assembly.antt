-- ===== src/Progress/Recorder/Pages/Assembly.antt =====
-- The loop of `list` over the joined rows reads each checkpoint with its own deliveries
-- (crates/gareji-core/src/progress/mod.rs).
use mathlib.Core.List.{append_assoc, append-nil}
use gareji_core.Base.{
  ℕ, ◌<◌, ◌≡◌, inl, inr, refl, ◌∙◌, true, false, Option, none, some, List, [], ◌∷◌, ◌++◌, map,
  arith, nat_beq, All, Result, ok, err, ◌>>=◌, Result-cases,
}
use gareji_core.Progress.{CheckpointStatus, DeliveryReceipt}
use gareji_core.Progress.Ledger.{
  Externals, Ledger, CheckpointRow, DeliveryRow, ProgressError, select_deliveries,
}
use gareji_core.Progress.Ledger.Invariant.{Falling}
use gareji_core.Progress.Recorder.{read_all, read_delivery}
use gareji_core.Progress.Recorder.Pages.{
  JoinedRow, left_joined, left_join, read_checkpoint, push_last, is_current, open_checkpoint,
  add_delivery, assemble,
}

-- One checkpoint of a page, read on its own.
unfoldable pub page_status :
    Externals → Ledger → CheckpointRow → Result CheckpointStatus ProgressError
unfolding read_checkpoint
page_status x db c = do
  checkpoint ← read_checkpoint x c
  deliveries ← read_all read_delivery (select_deliveries c.checkpoint_id db.deliveries)
  ok (record { checkpoint = checkpoint; deliveries = deliveries })

push_last-append :
    (r : DeliveryReceipt) (done : List CheckpointStatus) (s : CheckpointStatus)
    → push_last r (done ++ (s ∷ []))
      ≡ ok (done ++ (record s { deliveries = s.deliveries ++ (r ∷ []) } ∷ []))
unfolding push_last
push_last-append r [] s = refl
push_last-append r (t ∷ []) s = refl
push_last-append r (t ∷ u ∷ done) s = rw (push_last-append r (u ∷ done) s)

-- The rest of a group, whose checkpoint is open already.
regroup :
    (x : Externals) (c : CheckpointRow) (rest : List JoinedRow) (done : List CheckpointStatus)
    (s : CheckpointStatus) (r : DeliveryReceipt)
    (read : Result (List DeliveryReceipt) ProgressError)
    → (read >>= λ rs.
        assemble x rest
          (some c.rowid)
          (done ++ (record s { deliveries = (s.deliveries ++ (r ∷ [])) ++ rs } ∷ [])))
      ≡ ((read >>= λ bs. ok (r ∷ bs)) >>= λ rs.
          assemble x rest
            (some c.rowid)
            (done ++ (record s { deliveries = s.deliveries ++ rs } ∷ [])))
regroup x c rest done s r (err e) = refl
regroup x c rest done s r (ok rs) = rw append_assoc

beq_refl : (n : ℕ) → nat_beq n n ≡ true
beq_refl n = ground arith

assemble_group :
    (x : Externals) (c : CheckpointRow) (ds : List DeliveryRow) (rest : List JoinedRow)
    (done : List CheckpointStatus) (s : CheckpointStatus)
    → assemble x (map (λ e. (c, some e)) ds ++ rest) (some c.rowid) (done ++ (s ∷ [])) ≡ (do
      rs ← read_all read_delivery ds
      assemble x rest (some c.rowid) (done ++ (record s { deliveries = s.deliveries ++ rs } ∷ [])))
unfolding assemble open_checkpoint add_delivery
assemble_group x c [] rest done s = rw (append-nil s.deliveries)
assemble_group x c (d ∷ ds) rest done s =
    rw (beq_refl c.rowid) (elim (Result-cases (read_delivery d)) [
      | inr (e, bad) ↦ rw bad
      | inl (r, good) ↦
          rw (good, push_last-append r done s)
            (rw
              (assemble_group x c ds rest done (record s { deliveries = s.deliveries ++ (r ∷ []) }))
              (regroup x c rest done s r (read_all read_delivery ds)))
    ])

-- A whole group.
assemble_checkpoint :
    (x : Externals) (c : CheckpointRow) (ds : List DeliveryRow) (rest : List JoinedRow)
    (current : Option ℕ) (done : List CheckpointStatus)
    → is_current current c.rowid ≡ false
    → assemble x (left_joined c ds ++ rest) current done ≡ (do
      checkpoint ← read_checkpoint x c
      rs ← read_all read_delivery ds
      assemble x rest
          (some c.rowid)
          (done ++ (record { checkpoint = checkpoint; deliveries = rs } ∷ [])))
unfolding assemble open_checkpoint add_delivery
assemble_checkpoint x c [] rest current done h = rw h (elim (Result-cases (read_checkpoint x c)) [
  | inr (e, bad) ↦ rw bad
  | inl (checkpoint, good) ↦ rw good
])
assemble_checkpoint x c (d ∷ ds) rest current done h =
    rw h (elim (Result-cases (read_checkpoint x c)) [
      | inr (e, bad) ↦ rw bad
      | inl (checkpoint, good) ↦ rw good (elim (Result-cases (read_delivery d)) [
        | inr (e, worse) ↦ rw worse
        | inl (r, fine) ↦
            rw (fine, push_last-append r done (record { checkpoint = checkpoint; deliveries = [] }))
              (rw
                (assemble_group x c ds rest done
                  (record { checkpoint = checkpoint; deliveries = r ∷ [] }))
                (elim (Result-cases (read_all read_delivery ds)) [
                  | inr (e, no_rest) ↦ rw no_rest
                  | inl (rs, all_rest) ↦ rw all_rest
                ]))
      ])
    ])

snoc_reads :
    (read : Result CheckpointStatus ProgressError)
    (more : Result (List CheckpointStatus) ProgressError) (done : List CheckpointStatus)
    → (do s ← read; ss ← more; ok ((done ++ (s ∷ [])) ++ ss))
      ≡ (do ss ← (do s ← read; ss ← more; ok (s ∷ ss)); ok (done ++ ss))
snoc_reads (err e) more done = refl
snoc_reads (ok s) (err e) done = refl
snoc_reads (ok s) (ok ss) done = rw append_assoc

apart_rowid : (n m : ℕ) → n < m → is_current (some m) n ≡ false
apart_rowid n m h = ground arith

abbrev Apart : Option ℕ → List CheckpointRow → Type 0
Apart current rows = All (λ r. is_current current r.rowid ≡ false) rows

Apart-below :
    (m : ℕ) (rows : List CheckpointRow) → All (λ r. r.rowid < m) rows → Apart (some m) rows
Apart-below m [] h = tt
Apart-below m (r ∷ rows) h = (apart_rowid r.rowid m h.0, Apart-below m rows h.1)

-- The loop over the joined rows is the reading of the checkpoints one by one, errors included.
pub assemble-left_join :
    (x : Externals) (db : Ledger) (rows : List CheckpointRow) (current : Option ℕ)
    (done : List CheckpointStatus)
    → Falling rows
    → Apart current rows
    → assemble x (left_join db rows) current done
      ≡ (do ss ← read_all (page_status x db) rows; ok (done ++ ss))
unfolding assemble page_status
assemble-left_join x db [] current done f h = rw append-nil
assemble-left_join x db (c ∷ rows) current done f h =
    rw
      (assemble_checkpoint x c (select_deliveries c.checkpoint_id db.deliveries) (left_join db rows)
        current done h.0)
      (elim (Result-cases (read_checkpoint x c)) [
        | inr (e, bad) ↦ rw bad
        | inl (checkpoint, good) ↦
            elim (Result-cases
              (read_all read_delivery (select_deliveries c.checkpoint_id db.deliveries))) [
                | inr (e, bad) ↦ rw good (rw bad)
                | inl (rs, fine) ↦
                    rw (good, fine)
                      (rw
                        (assemble-left_join x db rows (some c.rowid)
                          (done ++ (record { checkpoint = checkpoint; deliveries = rs } ∷ [])) f.1
                          (Apart-below c.rowid rows f.0))
                        (snoc_reads (ok (record { checkpoint = checkpoint; deliveries = rs }))
                          (read_all (page_status x db) rows) done))
              ]
      ])

Apart-none : (rows : List CheckpointRow) → Apart none rows
Apart-none [] = tt
Apart-none (r ∷ rows) = (refl, Apart-none rows)

from_empty :
    (read : Result (List CheckpointStatus) ProgressError) → (do ss ← read; ok ([] ++ ss)) ≡ read
from_empty (ok ss) = refl
from_empty (err e) = refl

pub assemble_page :
    (x : Externals) (db : Ledger) (rows : List CheckpointRow)
    → Falling rows
    → assemble x (left_join db rows) none [] ≡ read_all (page_status x db) rows
assemble_page x db rows f =
    assemble-left_join x db rows none [] f (Apart-none rows)
    ∙ from_empty (read_all (page_status x db) rows)
