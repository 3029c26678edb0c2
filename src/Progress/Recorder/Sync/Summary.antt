-- ===== src/Progress/Recorder/Sync/Summary.antt =====
-- The counters of `sync_pending` (crates/gareji-core/src/progress/mod.rs).
use gareji_core.Base.{◌+◌, ◌≡◌}
use gareji_core.Progress.{SyncSummary}
use gareji_core.Progress.Ledger.{Ledger}

abbrev IsBalanced : SyncSummary → Type 0
IsBalanced s = s.attempted ≡ s.synced + s.conflict + s.failed
