-- ===== src/Registry/Examples.antt =====
-- The registry on the registration of its own tests (crates/gareji-core/src/registry.rs).
use mathlib.Core.Path.{subst}
use native.Mathlib.Decide.{ℕ_discrete}
use mathlib.Core.Option.{none-ne-some}
use gareji_core.Base.{
  ◌≡◌, ◌≢◌, ◌↔◌, refl, ap, sym, false, Option, none, some, List, [], ◌∷◌, Text, codes, map, Elem,
  ok, arith, text_ord, text_leq, ◌==◌, contains, collect, insert, sort_by, pair_leq, IsSorted,
}
use gareji_core.Contracts.{
  ProjectRegistration, ActiveWorkItemResult, read_context, select_active_work, write_progress,
  grant_leq, rank,
}
use gareji_core.Registry.{
  Externals, ReadsBack, Registry, is_some, find, upsert, validate_registration, validate_id,
  validate_text, validate_optional_text, validate_collection, validate_source, registering,
  register, selecting, set_active_work_item, active_work_item, get, list,
}
use gareji_core.Registry.Invariant.{IsSound, register-IsSound}
use gareji_core.Registry.Operations.{register-get, set_active_work_item-active_work_item}
use gareji_core.Registry.Listing.{identity, list_complete}

program : Unit {0}
unfolding text_leq ◌==◌ contains collect insert sort_by pair_leq grant_leq rank find upsert
    validate_registration validate_id validate_text validate_optional_text validate_collection
    validate_source registering register selecting set_active_work_item active_work_item get list
program = tt

abbrev core_project : ProjectRegistration
core_project = record {
  project_id = codes "gareji-core";
  name = codes "Gareji Core";
  execution_workspace = codes "workspace://gareji-core";
  context_sources = codes "local-markdown" ∷ [];
  grants = read_context ∷ select_active_work ∷ write_progress ∷ [];
  sourced_context =
      record {
        workspace_id = codes "notes";
        source_id = codes "project-brief";
        freshness = codes "configured";
        content = some (codes "Build the local trust kernel.");
        evidence_ref = none;
      }
      ∷ [];
  delivery_targets = codes "local-json" ∷ codes "knowledge-projection" ∷ [];
}

abbrev registration_discrete : Discrete ProjectRegistration
registration_discrete = hlevel ℕ_discrete

-- One known registration is written, as the text of an empty object.
abbrev write_one : (r : ProjectRegistration) → Dec (r ≡ core_project) → Option Text
write_one r (yes p) = some (codes "{}")
write_one r (no p) = none

write_one_inv :
    (r : ProjectRegistration) (d : Dec (r ≡ core_project)) (t : Text)
    → write_one r d ≡ some t
    → some core_project ≡ some r
write_one_inv r (yes p) t h = ap some (sym p)
write_one_inv r (no p) t h = absurd (none-ne-some t h)

abbrev packages : Externals
packages = record {
  fault = λ site. false;
  to_string = λ r. write_one r (registration_discrete r core_project);
  from_str = λ t. some core_project;
}

packages-ReadsBack : ReadsBack packages
packages-ReadsBack = record {
  from_str-to_string = λ r t h. write_one_inv r (registration_discrete r core_project) t h;
}

abbrev nothing : Registry
nothing = record { projects = []; active_work = [] }

nothing-IsSound : IsSound packages nothing
unfolding find
nothing-IsSound = record {
  projects_once = tt;
  active_once = tt;
  registered = λ id h. h;
  payloads = λ id payload h. absurd (none-ne-some payload h);
}

abbrev one_project : Registry
one_project = record { projects = (codes "gareji-core", codes "{}") ∷ []; active_work = [] }

registered_first : register packages nothing core_project ≡ (ok false, one_project)
unfolding program ℕ_discrete
registered_first = refl

register-IsSound_example : IsSound packages (register packages nothing core_project).1
register-IsSound_example =
    register-IsSound packages nothing core_project packages-ReadsBack nothing-IsSound

one_project-IsSound : IsSound packages one_project
one_project-IsSound =
    subst (IsSound packages) (ap (λ p. p.1) registered_first) register-IsSound_again
  where
    register-IsSound_again : IsSound packages (register packages nothing core_project).1
    register-IsSound_again =
        register-IsSound packages nothing core_project packages-ReadsBack nothing-IsSound

register-get_example :
    (get packages one_project (codes "gareji-core") ≡ ok core_project)
    × ((id : Text)
        → id ≢ codes "gareji-core"
        → get packages one_project id ≡ get packages nothing id)
    × (one_project.active_work ≡ nothing.active_work)
    × (false ≡ is_some (find (codes "gareji-core") nothing.projects))
register-get_example =
    register-get packages nothing core_project packages-ReadsBack refl registered_first

abbrev one_active : Registry
one_active = record one_project { active_work = (codes "gareji-core", codes "CORE-1") ∷ [] }

abbrev first_selection : ActiveWorkItemResult
first_selection = record {
  project_id = codes "gareji-core";
  previous_work_item_id = none;
  current_work_item_id = codes "CORE-1";
}

selected_first :
    set_active_work_item packages one_project (codes "gareji-core") (codes "CORE-1")
    ≡ (ok first_selection, one_active)
unfolding program
selected_first = refl

set_active_work_item-active_work_item_example :
    (active_work_item packages one_active (codes "gareji-core") ≡ ok (some (codes "CORE-1")))
    × ((other : Text)
        → other ≢ codes "gareji-core"
        → active_work_item packages one_active other ≡ active_work_item packages one_project other)
    × (one_active.projects ≡ one_project.projects)
    × (active_work_item packages one_project (codes "gareji-core")
        ≡ ok first_selection.previous_work_item_id)
    × (first_selection.project_id ≡ codes "gareji-core")
    × (first_selection.current_work_item_id ≡ codes "CORE-1")
set_active_work_item-active_work_item_example =
    set_active_work_item-active_work_item packages one_project (codes "gareji-core")
      (codes "CORE-1") refl selected_first

list_complete_example :
    (rs : List ProjectRegistration) × (list packages one_project ≡ ok rs)
    × IsSorted text_leq (map identity rs)
    × ((r : ProjectRegistration) → Elem r rs ↔ (get packages one_project r.project_id ≡ ok r))
list_complete_example =
    list_complete packages one_project one_project-IsSound refl refl (omega arith)
