-- ===== src/Progress/Statuses.antt =====
-- `DeliveryStatus::as_db` and `from_db` (crates/gareji-core/src/progress/types.rs).
use gareji_core.Base.{◌≡◌, refl, Text, codes, some, arith, ◌==◌, text_leq, text_ord, eq_iff}
use gareji_core.Progress.{DeliveryStatus, pending, as_db, from_db}

pub from_db-as_db : (s : DeliveryStatus) → from_db (as_db s) ≡ some s
unfolding from_db as_db ◌==◌ text_leq
from_db-as_db pending = refl
from_db-as_db s = refl

pub as_db-from_db : (value : Text) (s : DeliveryStatus) → from_db value ≡ some s → value ≡ as_db s
unfolding from_db as_db
as_db-from_db value s h = ground (
  arith,
  eq_iff value (codes "pending"),
  eq_iff value (codes "synced"),
  eq_iff value (codes "conflict"),
  eq_iff value (codes "failed"),
)
