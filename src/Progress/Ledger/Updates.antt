-- ===== src/Progress/Ledger/Updates.antt =====
-- UPDATE of a delivery keeps the invariant of the ledger (crates/gareji-core/src/progress/mod.rs).
use gareji_core.Base.{
  ◌≡◌, inl, inr, refl, true, Option, List, [], ◌∷◌, map, Text, arith, All, text_ord, Bool-cases,
}
use gareji_core.Progress.{DeliveryStatus, from_db}
use gareji_core.Progress.Statuses.{from_db-as_db}
use gareji_core.Progress.Ledger.{
  Ledger, DeliveryRow, is_some, is_delivery, has_delivery, update_row, update_delivery_row,
}
use gareji_core.Progress.Ledger.Invariant.{IsSound, KeysOnce, Stored}

module _ (id destination : Text) (status : DeliveryStatus) (last_error : Option Text) where
  update_row-keys :
      (d : DeliveryRow)
      → ((update_row id destination status last_error d).checkpoint_id ≡ d.checkpoint_id)
        × ((update_row id destination status last_error d).destination_id ≡ d.destination_id)
  unfolding update_row
  update_row-keys d = ground arith

  update_row-readable :
      (d : DeliveryRow)
      → is_some (from_db d.status) ≡ true
      → is_some (from_db (update_row id destination status last_error d).status) ≡ true
  unfolding update_row
  update_row-readable d h = elim (Bool-cases (is_delivery id destination d)) [
    | inl e ↦ rw e (rw (from_db-as_db status))
    | inr n ↦ rw n h
  ]

  has_delivery-map :
      (i j : Text) (rows : List DeliveryRow)
      → has_delivery i j (map (update_row id destination status last_error) rows)
        ≡ has_delivery i j rows
  unfolding has_delivery
  has_delivery-map i j [] = refl
  has_delivery-map i j (d ∷ rows) =
      let (a, b) = update_row-keys d in rw (a, b, has_delivery-map i j rows)

  KeysOnce-map :
      (rows : List DeliveryRow)
      → KeysOnce rows
      → KeysOnce (map (update_row id destination status last_error) rows)
  KeysOnce-map [] h = tt
  KeysOnce-map (d ∷ rows) h =
      let (a, b) = update_row-keys d in
      (
        rw (a, b, has_delivery-map d.checkpoint_id d.destination_id rows) (h.0),
        KeysOnce-map rows h.1,
      )

  All-map :
      (P : DeliveryRow → Type 0) (rows : List DeliveryRow)
      → ((d : DeliveryRow) → P d → P (update_row id destination status last_error d))
      → All P rows
      → All P (map (update_row id destination status last_error) rows)
  All-map P [] f h = tt
  All-map P (d ∷ rows) f h = (f d h.0, All-map P rows f h.1)

  -- UPDATE of a delivery.
  pub update_delivery_row-IsSound :
      (db : Ledger) → IsSound db → IsSound (update_delivery_row id destination status last_error db)
  unfolding update_delivery_row
  update_delivery_row-IsSound db s = record {
    ids_once = s.ids_once;
    rowids = s.rowids;
    references =
        All-map (λ d. Stored db.checkpoints d.checkpoint_id) db.deliveries
          (λ d h. rw ((update_row-keys d).0) h) s.references;
    keys_once = KeysOnce-map db.deliveries s.keys_once;
    readable =
        All-map (λ d. is_some (from_db d.status) ≡ true) db.deliveries update_row-readable
          s.readable;
  }
