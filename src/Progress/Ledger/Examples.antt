-- ===== src/Progress/Ledger/Examples.antt =====
-- Fingerprints and messages on samples.
use gareji_core.Base.{◌≡◌, refl, true, codes, all, is_control}
use gareji_core.Progress.Ledger.Encoding.{kept_character}

offline_kept : all kept_character (codes "offline") ≡ true
unfolding kept_character is_control
offline_kept = refl
