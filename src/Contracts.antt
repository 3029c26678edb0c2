-- ===== src/Contracts.antt =====
-- The wire contracts that the components of Core share (crates/gareji-contracts/src/lib.rs): project
-- registrations, their views, and the result of a selection of active work.
use mathlib.Core.List.{List}
use gareji_core.Base.{ℕ, ◌≡◌, ◌⊎◌, refl, Bool, true, Option, Text, codes, leb, Ord, arith}

pub data ProjectGrant : Type 0 where
  read_context select_active_work write_progress : ProjectGrant

-- `ProjectGrant::as_str`
unfoldable pub as_str : ProjectGrant → Text
as_str read_context = codes "read_context"
as_str select_active_work = codes "select_active_work"
as_str write_progress = codes "write_progress"

pub record SourcedContext : Type 0 where
  pub workspace_id : Text
  pub source_id : Text
  pub freshness : Text
  pub content : Option Text
  pub evidence_ref : Option Text

pub record ProjectRegistration : Type 0 where
  pub project_id : Text
  pub name : Text
  pub execution_workspace : Text
  pub context_sources : List Text
  pub grants : List ProjectGrant
  pub sourced_context : List SourcedContext
  pub delivery_targets : List Text

pub record ProjectView : Type 0 where
  pub id : Text
  pub name : Text
  pub execution_workspace : Text
  pub context_sources : List Text
  pub grants : List Text

pub record ActiveWorkItemResult : Type 0 where
  pub project_id : Text
  pub previous_work_item_id : Option Text
  pub current_work_item_id : Text

-- The derived order of the grants: by position.
unfoldable pub rank : ProjectGrant → ℕ
rank read_context = 0
rank select_active_work = 1
rank write_progress = 2

unfoldable pub grant_leq : ProjectGrant → ProjectGrant → Bool
unfolding rank
grant_leq g h = leb (rank g) (rank h)

pub grant_leq_antisym : (g h : ProjectGrant) → grant_leq g h ≡ true → grant_leq h g ≡ true → g ≡ h
unfolding grant_leq rank
grant_leq_antisym read_context read_context p q = refl
grant_leq_antisym read_context select_active_work p q = absurd (ground arith)
grant_leq_antisym read_context write_progress p q = absurd (ground arith)
grant_leq_antisym select_active_work read_context p q = absurd (ground arith)
grant_leq_antisym select_active_work select_active_work p q = refl
grant_leq_antisym select_active_work write_progress p q = absurd (ground arith)
grant_leq_antisym write_progress read_context p q = absurd (ground arith)
grant_leq_antisym write_progress select_active_work p q = absurd (ground arith)
grant_leq_antisym write_progress write_progress p q = refl

pub grant_leq_trans :
    (f g h : ProjectGrant) → grant_leq f g ≡ true → grant_leq g h ≡ true → grant_leq f h ≡ true
unfolding grant_leq
grant_leq_trans f g h p q = ground arith

pub grant_leq_total : (g h : ProjectGrant) → (grant_leq g h ≡ true) ⊎ (grant_leq h g ≡ true)
unfolding grant_leq
grant_leq_total g h = ground arith

instance abbrev pub grant_ord : Ord ProjectGrant
grant_ord = record {
  leq = grant_leq;
  leq_antisym = grant_leq_antisym;
  leq_trans = grant_leq_trans;
  leq_total = grant_leq_total;
}
