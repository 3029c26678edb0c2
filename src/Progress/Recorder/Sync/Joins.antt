-- ===== src/Progress/Recorder/Sync/Joins.antt =====
-- How often a delivery stands in the join of `pending_deliveries` (crates/gareji-core/src/progress/mod.rs).
use mathlib.Core.Path.{subst}
use gareji_core.Base.{
  ◌≡◌, ◌↔◌, inl, inr, refl, ap, sym, Bool, true, false, ◌&&◌, List, [], ◌∷◌, Text, arith, All,
  All-of, All_at, Elem, Distinct, count, count-append, Bool-cases, text_ord, ◌==◌, eq_iff,
  if◌then◌else◌,
}
use gareji_core.Progress.Ledger.{
  CheckpointRow, DeliveryRow, find_checkpoint, is_delivery, has_delivery,
}
use gareji_core.Progress.Ledger.Invariant.{KeysOnce, Stored, ids}
use gareji_core.Progress.Recorder.Sync.{PendingDelivery, retryable, Joined, joined_with, join}

-- Tests for the key of one row, in the join and in what is handed to the projector.
abbrev pub same_key : DeliveryRow → DeliveryRow → Bool
same_key d e = is_delivery e.checkpoint_id e.destination_id d

abbrev pub joins : DeliveryRow → Joined → Bool
joins d (c, e) = same_key d e

abbrev pub hits : DeliveryRow → PendingDelivery → Bool
hits d e = is_delivery e.checkpoint.checkpoint_id e.target.destination_id d

pub matching_none :
    (id : Text) (rows : List CheckpointRow)
    → ¬ Elem id (ids rows)
    → count (λ c. c.checkpoint_id == id) rows ≡ 0
matching_none id [] h = refl
matching_none id (r ∷ rows) h = elim (Bool-cases (r.checkpoint_id == id)) [
  | inl e ↦ absurd (h (inl (sym ((eq_iff r.checkpoint_id id).0 e))))
  | inr n ↦ rw (n, matching_none id rows (λ m. h (inr m)))
]

-- A stored identity joins with exactly one checkpoint.
pub matching_once :
    (id : Text) (rows : List CheckpointRow)
    → Distinct (ids rows)
    → Stored rows id
    → count (λ c. c.checkpoint_id == id) rows ≡ 1
unfolding find_checkpoint
matching_once id [] d s = ground arith
matching_once id (r ∷ rows) d s = elim (Bool-cases (r.checkpoint_id == id)) [
  | inl e ↦
      let same = (eq_iff r.checkpoint_id id).0 e in
      rw (e, matching_none id rows (λ m. d.0 (subst (λ q. Elem q (ids rows)) (sym same) m)))
  | inr n ↦ rw (n, matching_once id rows d.1 (ground arith))
]

pub count-joined_with :
    (d e : DeliveryRow) (rows : List CheckpointRow)
    → count (joins d) (joined_with rows e)
      ≡ (if same_key d e then count (λ c. c.checkpoint_id == e.checkpoint_id) rows else 0)
count-joined_with d e [] = ground arith
count-joined_with d e (r ∷ rows) = ground (arith, count-joined_with d e rows)

pub same_key_iff :
    (d e : DeliveryRow)
    → (same_key d e ≡ true)
      ↔ ((d.checkpoint_id ≡ e.checkpoint_id) × (d.destination_id ≡ e.destination_id))
unfolding is_delivery
same_key_iff d e = (
  λ h.
      ground
        (arith, eq_iff d.checkpoint_id e.checkpoint_id, eq_iff d.destination_id e.destination_id),
  λ h.
      ground
        (arith, eq_iff d.checkpoint_id e.checkpoint_id, eq_iff d.destination_id e.destination_id),
)

pub has_delivery-false :
    (i j : Text) (rows : List DeliveryRow)
    → has_delivery i j rows ≡ false
    → All (λ d. is_delivery i j d ≡ false) rows
unfolding has_delivery
has_delivery-false i j [] h = tt
has_delivery-false i j (d ∷ rows) h = ground (arith, has_delivery-false i j rows)

pub other_key : (d e : DeliveryRow) → same_key e d ≡ false → same_key d e ≡ false
other_key d e h = elim (Bool-cases (same_key d e)) [
  | inl k ↦ let (a, b) = (same_key_iff d e).0 k in cc (h, (same_key_iff e d).1 (sym a, sym b))
  | inr n ↦ n
]

pub join_none :
    (d : DeliveryRow) (checkpoints : List CheckpointRow) (rows : List DeliveryRow)
    → All (λ e. (retryable e && same_key d e) ≡ false) rows
    → count (joins d) (join checkpoints rows) ≡ 0
join_none d checkpoints [] h = refl
join_none d checkpoints (e ∷ rows) h = elim (Bool-cases (retryable e)) [
  | inl r ↦ rw r (
      rw (count-append (joins d) (joined_with checkpoints e) (join checkpoints rows))
        (rw (count-joined_with d e checkpoints, join_none d checkpoints rows h.1) (ground arith)))
  | inr n ↦ rw n (join_none d checkpoints rows h.1)
]

pub not_again :
    (d e q : DeliveryRow)
    → d ≡ e
    → is_delivery e.checkpoint_id e.destination_id q ≡ false
    → (retryable q && same_key d q) ≡ false
not_again d e q same h =
    let apart = other_key d q (subst (λ z. same_key q z ≡ false) (sym same) h) in
    rw apart (ground arith)

pub join_once :
    (d : DeliveryRow) (checkpoints : List CheckpointRow) (rows : List DeliveryRow)
    → Distinct (ids checkpoints)
    → All (λ e. Stored checkpoints e.checkpoint_id) rows
    → KeysOnce rows
    → Elem d rows
    → retryable d ≡ true
    → count (joins d) (join checkpoints rows) ≡ 1
join_once d checkpoints [] once stored keys m r = absurd m
join_once d checkpoints (e ∷ rows) once stored keys (inl here) r =
    let self = (same_key_iff d e).1 (
      ap (λ (q : DeliveryRow). q.checkpoint_id) here,
      ap (λ (q : DeliveryRow). q.destination_id) here,
    ) in
    let r' = subst (λ q. retryable q ≡ true) here r in
    let others = has_delivery-false e.checkpoint_id e.destination_id rows keys.0 in
    let rest = join_none d checkpoints rows (
      All-of (λ q. (retryable q && same_key d q) ≡ false) rows
        (λ q k. not_again d e q here (
          All_at (λ q. is_delivery e.checkpoint_id e.destination_id q ≡ false) q rows others k))) in
    rw r' (
      rw (count-append (joins d) (joined_with checkpoints e) (join checkpoints rows)) (
        rw (count-joined_with d e checkpoints, rest)
          (rw (self, matching_once e.checkpoint_id checkpoints once stored.0) (omega arith))))
join_once d checkpoints (e ∷ rows) once stored keys (inr there) r =
    let others = has_delivery-false e.checkpoint_id e.destination_id rows keys.0 in
    let apart =
      All_at (λ q. is_delivery e.checkpoint_id e.destination_id q ≡ false) d rows others there in
    let rest = join_once d checkpoints rows once stored.1 keys.1 there r in
    elim (Bool-cases (retryable e)) [
      | inl k ↦ rw k (
          rw (count-append (joins d) (joined_with checkpoints e) (join checkpoints rows))
            (rw (count-joined_with d e checkpoints, rest) (rw apart (omega arith))))
      | inr n ↦ rw n rest
    ]
