-- ===== src/Progress/Recorder/Sync/Selection.antt =====
-- What `pending_deliveries` selects (crates/gareji-core/src/progress/mod.rs): for each delivery that is
-- pending or failed one entry, and nothing for the others.
use mathlib.Core.Path.{subst}
use gareji_core.Base.{
  All-append, ◌≡◌, inl, inr, refl, ap, sym, ◌∙◌, true, false, ◌&&◌, some, List, [], ◌∷◌, Text,
  arith, All, All-of, All_at, Elem, count, count-sort_by, Elem-sort_by, Bool-cases, text_ord, ◌==◌,
  eq_iff, sort_by, ok, >>=-eq-ok, ok_or, ok_or-eq-ok,
}
use gareji_core.Progress.{ProgressCheckpoint}
use gareji_core.Progress.Ledger.{
  Externals, Ledger, CheckpointRow, DeliveryRow, serialization, is_delivery, select_pending, sql,
}
use gareji_core.Progress.Ledger.Invariant.{IsSound, KeysOnce}
use gareji_core.Progress.Recorder.{read_all}
use gareji_core.Progress.Recorder.Sync.{
  PendingDelivery, retryable, Joined, joined_with, join, by_rowid, read_pending, pending_deliveries,
}
use gareji_core.Progress.Recorder.Sync.Joins.{
  same_key, joins, hits, has_delivery-false, other_key, join_none, join_once,
}

-- The stored payloads carry the identity of their row.
abbrev pub AreFaithful : Externals → List CheckpointRow → Type 0
AreFaithful x rows =
    (r : CheckpointRow) (c : ProgressCheckpoint)
    → Elem r rows
    → x.from_str r.payload_json ≡ some c
    → c.checkpoint_id ≡ r.checkpoint_id

-- What an entry of the join is.
abbrev IsJoined : List CheckpointRow → Joined → Type 0
IsJoined checkpoints (c, e) = Elem c checkpoints × (c.checkpoint_id ≡ e.checkpoint_id)

joined_with-IsJoined :
    (all_rows rows : List CheckpointRow) (e : DeliveryRow)
    → ((c : CheckpointRow) → Elem c rows → Elem c all_rows)
    → All (IsJoined all_rows) (joined_with rows e)
joined_with-IsJoined all_rows [] e sub = tt
joined_with-IsJoined all_rows (r ∷ rows) e sub =
    elim (Bool-cases (r.checkpoint_id == e.checkpoint_id)) [
      | inl k ↦ rw k (
        (sub r (inl refl), (eq_iff r.checkpoint_id e.checkpoint_id).0 k),
        joined_with-IsJoined all_rows rows e (λ c m. sub c (inr m)),
      )
      | inr n ↦ rw n (joined_with-IsJoined all_rows rows e (λ c m. sub c (inr m)))
    ]

join-IsJoined :
    (checkpoints : List CheckpointRow) (rows : List DeliveryRow)
    → All (IsJoined checkpoints) (join checkpoints rows)
join-IsJoined checkpoints [] = tt
join-IsJoined checkpoints (e ∷ rows) = elim (Bool-cases (retryable e)) [
  | inl k ↦ rw k (
      All-append (IsJoined checkpoints) (joined_with checkpoints e) (join checkpoints rows)
        (joined_with-IsJoined checkpoints checkpoints e (λ c m. m))
        (join-IsJoined checkpoints rows))
  | inr n ↦ rw n (join-IsJoined checkpoints rows)
]

hits_read :
    (x : Externals) (checkpoints : List CheckpointRow) (d : DeliveryRow) (j : Joined)
    {e : PendingDelivery}
    → AreFaithful x checkpoints
    → IsJoined checkpoints j
    → read_pending x j ≡ ok e
    → hits d e ≡ joins d j
unfolding read_pending
hits_read x checkpoints d (c, q) {e} faithful (m, same) h =
    let (checkpoint, decoded, made) =
      >>=-eq-ok (ok_or (x.from_str c.payload_json) serialization) _ h in
    let id = faithful c checkpoint m (ok_or-eq-ok serialization _ decoded) ∙ same in
    let built : PendingDelivery = record {
      checkpoint = checkpoint;
      target = record { destination_id = q.destination_id };
    } in
    let e' : built ≡ e = cc in
    subst (λ z. hits d z ≡ joins d (c, q)) e'
      (ap (λ (i : Text). is_delivery i q.destination_id d) id)

count_read :
    (x : Externals) (checkpoints : List CheckpointRow) (d : DeliveryRow) (js : List Joined)
    {es : List PendingDelivery}
    → AreFaithful x checkpoints
    → All (IsJoined checkpoints) js
    → read_all (read_pending x) js ≡ ok es
    → count (hits d) es ≡ count (joins d) js
count_read x checkpoints d [] {es} faithful h e =
    let none_read : ◌≡◌ {A = List PendingDelivery} [] es = cc in rw (← none_read)
count_read x checkpoints d (j ∷ js) {es} faithful h e =
    let (first, r0, rest) = >>=-eq-ok (read_pending x j) _ e in
    let (more, r1, last) = >>=-eq-ok (read_all (read_pending x) js) _ rest in
    let same : first ∷ more ≡ es = cc in
    rw (← same) (
      rw (
        hits_read x checkpoints d j faithful h.0 r0,
        count_read x checkpoints d js faithful h.1 r1,
      ))

-- In a table without a key twice, a row of the same key is the row itself.
key_unique :
    (d e : DeliveryRow) (rows : List DeliveryRow)
    → KeysOnce rows
    → Elem d rows
    → Elem e rows
    → same_key d e ≡ true
    → d ≡ e
key_unique d e [] keys m k h = absurd m
key_unique d e (q ∷ rows) keys (inl a) (inl b) h = a ∙ sym b
key_unique d e (q ∷ rows) keys (inl a) (inr b) h =
    let free =
      All_at (λ z. same_key z q ≡ false) e rows
        (has_delivery-false q.checkpoint_id q.destination_id rows keys.0) b in
    let free' = other_key q e free in cc (free', subst (λ z. same_key z e ≡ true) a h)
key_unique d e (q ∷ rows) keys (inr a) (inl b) h =
    let free =
      All_at (λ z. same_key z q ≡ false) d rows
        (has_delivery-false q.checkpoint_id q.destination_id rows keys.0) a in
    cc (free, subst (λ z. same_key d z ≡ true) b h)
key_unique d e (q ∷ rows) keys (inr a) (inr b) h = key_unique d e rows keys.1 a b h

unlike :
    (d e : DeliveryRow) (rows : List DeliveryRow)
    → KeysOnce rows
    → Elem d rows
    → Elem e rows
    → retryable d ≡ false
    → (retryable e && same_key d e) ≡ false
unlike d e rows keys m k n = elim (Bool-cases (same_key d e)) [
  | inl s ↦ rw (subst (λ z. retryable z ≡ false) (key_unique d e rows keys m k s) n)
  | inr f ↦ rw f (ground arith)
]

module _ (x : Externals) (db : Ledger) {pending : List PendingDelivery} (sound : IsSound db)
    (faithful : AreFaithful x db.checkpoints) (read : pending_deliveries x db ≡ ok pending) where
  count_selected :
      (d : DeliveryRow)
      → count (hits d) pending ≡ count (joins d) (join db.checkpoints db.deliveries)
  unfolding pending_deliveries
  count_selected d =
      let (u, called, rest) = >>=-eq-ok (sql x select_pending) _ read in
      let sorted = sort_by by_rowid (join db.checkpoints db.deliveries) in
      count_read x db.checkpoints d sorted faithful
        (All-of (IsJoined db.checkpoints) sorted (λ j m.
          All_at (IsJoined db.checkpoints) j _ (join-IsJoined db.checkpoints db.deliveries)
            ((Elem-sort_by by_rowid j _).0 m)))
        rest
      ∙ count-sort_by by_rowid (joins d) (join db.checkpoints db.deliveries)

  -- A delivery that is pending or failed is selected exactly once.
  pub selected_once :
      (d : DeliveryRow) → Elem d db.deliveries → retryable d ≡ true → count (hits d) pending ≡ 1
  selected_once d m r =
      count_selected d
      ∙ join_once d db.checkpoints db.deliveries sound.ids_once sound.references sound.keys_once m r

  -- A delivery that is synced or in conflict is not selected.
  pub not_selected :
      (d : DeliveryRow) → Elem d db.deliveries → retryable d ≡ false → count (hits d) pending ≡ 0
  not_selected d m n =
      count_selected d
      ∙ join_none d db.checkpoints db.deliveries (
          All-of (λ e. (retryable e && same_key d e) ≡ false) db.deliveries
            (λ e k. unlike d e db.deliveries sound.keys_once m k n))
