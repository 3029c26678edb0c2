-- ===== src/Bridge/Examples.antt =====
-- The bridge over one registered project (crates/gareji-core/src/bridge.rs).
use mathlib.Core.Option.{none-ne-some}
use gareji_core.Base.{
  ◌≡◌, ◌⊎◌, inl, inr, refl, false, none, some, [], ◌∷◌, Text, codes, ok, arith, text_ord, text_leq,
  ◌==◌, contains, Between, Bool-cases, eq_iff,
}
use gareji_core.Contracts.{ProjectRegistration, read_context, select_active_work, grant_leq, rank}
use gareji_core.Progress.Samples.{empty, empty-IsSound, packages}
use gareji_core.Registry.{
  Registry, find, upsert, validate_id, validate_text, registering, selecting, get,
  validate_registration, validate_collection, validate_source, validate_optional_text,
}
use gareji_core.Registry.Bounds.{IsValidRegistration}
use gareji_core.RunContract.{null}
use gareji_core.BridgeContract.{
  CoreBridgeOperation, CoreBridgeRequest, BoardPort, eligible, set_active_work_item, ok_response,
  protocol_version_v0,
}
use gareji_core.Bridge.{
  CoreBridge, Externals, require_grant, granted, require_eligible, may_select, select_in, encode,
  execute, respond, accept, dispatch, handle,
}
use gareji_core.Bridge.Grants.{Authorized, execute-Authorized}
use gareji_core.Bridge.Changes.{IsEffect, IsSound, execute_changes, handle-IsSound}
use gareji_core.Bridge.Responses.{handle-ok_response}

program : Unit {0}
unfolding text_leq ◌==◌ contains grant_leq rank find upsert validate_id validate_text registering
    selecting get gareji_core.Registry.set_active_work_item require_grant granted require_eligible
    may_select select_in encode execute respond accept dispatch handle
program = tt

abbrev core_project : ProjectRegistration
core_project = record {
  project_id = codes "core";
  name = codes "Core";
  execution_workspace = codes "core-local";
  context_sources = [];
  grants = read_context ∷ select_active_work ∷ [];
  sourced_context = [];
  delivery_targets = codes "json" ∷ [];
}

abbrev outside : Externals
outside = record {
  registry = record {
    fault = λ site. false;
    to_string = λ r. none;
    from_str = λ t. some core_project;
  };
  progress = packages;
  from_value = λ v. none;
  checkpoint_value = λ c. some null;
  to_value = λ r. some null;
}

abbrev board : BoardPort
board project_id work_item_id = ok eligible

abbrev bridge : CoreBridge
bridge = record {
  registry = record { projects = (codes "core", codes "{}") ∷ []; active_work = [] };
  progress = empty;
}

abbrev select : CoreBridgeOperation
select = set_active_work_item (codes "core") (codes "CORE-1")

abbrev request : CoreBridgeRequest
request = record {
  protocol_version = protocol_version_v0;
  request_id = codes "r-1";
  operation = select;
}

core_project-IsValid : IsValidRegistration core_project
core_project-IsValid = record {
  project = (omega arith, omega arith);
  name = (omega arith, omega arith);
  workspace = (omega arith, omega arith);
  context_sources = (omega arith, tt, tt);
  delivery_targets = (omega arith, ((omega arith, omega arith), tt), ((λ m. m), tt));
  few_grants = omega arith;
  grants_once = ((λ m. ground arith), ((λ m. m), tt));
  few_sources = omega arith;
  sources = tt;
  sources_once = tt;
}

only_core :
    (id payload : Text) → find id bridge.registry.projects ≡ some payload → codes "core" ≡ id
unfolding find
only_core id payload h = elim (Bool-cases (codes "core" == id)) [
  | inl e ↦ (eq_iff (codes "core") id).0 e
  | inr n ↦ absurd (none-ne-some payload (rw n at h))
]

bridge-IsSound : IsSound outside board bridge bridge
unfolding find
bridge-IsSound = record {
  registry = record {
    projects_once = ((λ m. m), tt);
    active_once = tt;
    registered = λ id h. ground arith;
    payloads = λ id payload h. record {
      registration = core_project;
      reads = refl;
      identity = only_core id payload h;
      valid = core_project-IsValid;
    };
  };
  progress = empty-IsSound;
}

selected : (execute outside board bridge select).0 ≡ ok null
unfolding program
selected = refl

answered :
    (handle outside board bridge request).0 ≡ ok_response protocol_version_v0 (codes "r-1") null
unfolding program
answered = refl

execute-Authorized_example : Authorized outside board bridge select
execute-Authorized_example = execute-Authorized outside board bridge select selected

execute_changes_example :
    ((execute outside board bridge select).1 ≡ bridge)
    ⊎ (Authorized outside board bridge select
        × IsEffect outside board bridge select (execute outside board bridge select).1)
execute_changes_example = execute_changes outside board bridge select

handle-IsSound_example : IsSound outside board bridge (handle outside board bridge request).1
handle-IsSound_example = handle-IsSound outside board bridge request bridge-IsSound

handle-ok_response_example :
    (request.protocol_version ≡ protocol_version_v0)
    × Between 1 128 request.request_id
    × Authorized outside board bridge select
    × ((execute outside board bridge select).0 ≡ ok null)
handle-ok_response_example = handle-ok_response outside board bridge request answered
