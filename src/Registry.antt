-- ===== src/Registry.antt =====
-- `ProjectRegistry` (crates/gareji-core/src/registry.rs): the registrations of projects and the
-- active work item of each. The two SQLite tables are association lists from the project's identity.
pub mod Bounds
pub mod Tables
pub mod Invariant
pub mod Operations
pub mod Listing
mod Examples
use gareji_core.Base.{
  ℕ, ◌≡◌, Bool, true, false, not, ◌&&◌, ◌||◌, Option, none, some, List, [], ◌∷◌, String, Text, ltb,
  nat_beq, if◌then◌else◌, Result, ok, err, ◌>>=◌, ◌>>◌, fail_if, ok_or, map_err, each_once, length,
  take, map, ◌==◌, text_ord, text_leq, pair_ord, collect, sort_by, is_empty,
}
use gareji_core.Contracts.{
  ProjectGrant, SourcedContext, ProjectRegistration, ProjectView, ActiveWorkItemResult, as_str,
  grant_ord,
}

abbrev pub max_projects : ℕ
max_projects = 10000

abbrev pub max_context_entries : ℕ
max_context_entries = 100

abbrev pub max_collection_entries : ℕ
max_collection_entries = 100

pub data RegistryError : Type 0 where
  invalid : String → String → RegistryError
  project_not_found : Text → RegistryError
  create_directory storage serialization : RegistryError

-- The tables `gareji_projects` and `gareji_active_work`, each keyed by `project_id`.
abbrev pub Table : Type 0
Table = List (Text × Text)

pub record Registry : Type 0 where
  pub projects : Table
  pub active_work : Table

-- The calls of rusqlite that can fail.
pub data Site : Type 0 where
  begin select_exists upsert_project commit select_projects select_project select_active
        upsert_active :
      Site

-- What the registry takes from other packages: which storage calls fail, and serde_json's two
-- directions for a registration.
pub record Externals : Type 0 where
  pub fault : Site → Bool
  pub to_string : ProjectRegistration → Option Text
  pub from_str : Text → Option ProjectRegistration

-- The documented behaviour: what was written is read back.
pub record ReadsBack (x : Externals) : Type 0 where
  pub from_str-to_string :
      (r : ProjectRegistration) (t : Text) → x.to_string r ≡ some t → x.from_str t ≡ some r

abbrev pub sql : Externals → Site → Result Unit RegistryError
sql x site = fail_if (x.fault site) storage

-- SELECT … WHERE project_id = ?1
unfoldable pub find : Text → Table → Option Text
find id [] = none
find id ((key, value) ∷ rows) = if key == id then some value else find id rows

-- INSERT … ON CONFLICT(project_id) DO UPDATE
unfoldable pub upsert : Text → Text → Table → Table
upsert id value [] = (id, value) ∷ []
upsert id value ((key, old) ∷ rows) =
    if key == id then (key, value) ∷ rows else (key, old) ∷ upsert id value rows

abbrev pub is_some {ℓ} : {A : Type ℓ} → Option A → Bool
is_some none = false
is_some (some a) = true

unfoldable pub validate_text : String → Text → ℕ → ℕ → Result Unit RegistryError
validate_text field value min max = do
  fail_if (ltb (length value) min) (invalid field "is shorter than minimum length")
  fail_if (ltb max (length value)) (invalid field "exceeds maximum length")

unfoldable pub validate_id : String → Text → Result Unit RegistryError
unfolding validate_text
validate_id field value = validate_text field value 1 128

unfoldable pub validate_optional_text : String → Option Text → ℕ → Result Unit RegistryError
unfolding validate_text
validate_optional_text field none max = ok tt
validate_optional_text field (some value) max = validate_text field value 1 max

unfoldable pub validate_collection : String → List Text → Result Unit RegistryError
unfolding validate_id
validate_collection field values = do
  fail_if (ltb max_collection_entries (length values)) (invalid field "contains too many items")
  each_once (λ v. v) (validate_id field) (invalid field "contains duplicate items") [] values

-- The body of the loop over `sourced_context`, up to the set of the seen pairs.
unfoldable pub validate_source : SourcedContext → Result Unit RegistryError
unfolding validate_id validate_text validate_optional_text
validate_source s = do
  validate_id "sourced_context[].workspace_id" s.workspace_id
  validate_id "sourced_context[].source_id" s.source_id
  validate_text "sourced_context[].freshness" s.freshness 1 128
  validate_optional_text "sourced_context[].content" s.content 64000
  validate_optional_text "sourced_context[].evidence_ref" s.evidence_ref 1024
  fail_if (not (is_some s.content) && not (is_some s.evidence_ref))
      (invalid "sourced_context[]" "requires content or evidence_ref")

abbrev pub source_key : SourcedContext → Text × Text
source_key s = (s.workspace_id, s.source_id)

unfoldable pub validate_registration : ProjectRegistration → Result Unit RegistryError
unfolding validate_id validate_text validate_collection validate_source
validate_registration r = do
  validate_id "project_id" r.project_id
  validate_text "name" r.name 1 256
  validate_text "execution_workspace" r.execution_workspace 1 1024
  validate_collection "context_sources" r.context_sources
  validate_collection "delivery_targets" r.delivery_targets
  fail_if (ltb max_collection_entries (length r.grants))
      (invalid "grants" "contains too many items")
  fail_if (not (nat_beq (length (collect r.grants)) (length r.grants)))
      (invalid "grants" "contains duplicate items")
  fail_if (ltb max_context_entries (length r.sourced_context))
      (invalid "sourced_context" "contains too many items")
  each_once source_key validate_source (invalid "sourced_context" "contains duplicate source IDs")
      [] r.sourced_context

-- A transaction that changes the registry, or leaves it as it was.
abbrev pub settle :
    {A : Type 0}
    → Registry
    → Result (A × Registry) RegistryError
    → Result A RegistryError × Registry
settle g (err e) = (err e, g)
settle g (ok (a, g')) = (ok a, g')

-- `ProjectRegistry::register`
unfoldable pub registering :
    Externals → Registry → ProjectRegistration → Result (Bool × Registry) RegistryError
registering x g r = do
  validate_registration r
  payload ← ok_or (x.to_string r) serialization
  sql x begin
  sql x select_exists
  sql x upsert_project
  sql x commit
  ok (
    is_some (find r.project_id g.projects),
    record g { projects = upsert r.project_id payload g.projects },
  )

unfoldable pub register :
    Externals → Registry → ProjectRegistration → Result Bool RegistryError × Registry
unfolding registering
register x g r = settle g (registering x g r)

abbrev pub read_rows : Externals → Table → Result (List ProjectRegistration) RegistryError
read_rows x [] = ok []
read_rows x ((id, payload) ∷ rows) = do
  r ← ok_or (x.from_str payload) serialization
  rs ← read_rows x rows
  ok (r ∷ rs)

-- ORDER BY project_id
abbrev pub by_id : Text × Text → Text × Text → Bool
by_id (id, value) (id', value') = text_leq id id'

-- `ProjectRegistry::list`
unfoldable pub list : Externals → Registry → Result (List ProjectRegistration) RegistryError
list x g = do sql x select_projects; read_rows x (take max_projects (sort_by by_id g.projects))

-- `ProjectRegistry::get`
unfoldable pub get : Externals → Registry → Text → Result ProjectRegistration RegistryError
unfolding validate_id find
get x g id = do
  validate_id "project_id" id
  sql x select_project
  payload ← ok_or (find id g.projects) (project_not_found id)
  ok_or (x.from_str payload) serialization

-- The insert checks the foreign key: the project must be registered.
unfoldable pub selecting :
    Externals → Registry → Text → Text → Result (ActiveWorkItemResult × Registry) RegistryError
unfolding validate_id find
selecting x g id work_item_id = do
  validate_id "project_id" id
  validate_id "work_item_id" work_item_id
  get x g id
  sql x begin
  sql x select_active
  fail_if (x.fault upsert_active || not (is_some (find id g.projects))) storage
  sql x commit
  ok (
    record {
      project_id = id;
      previous_work_item_id = find id g.active_work;
      current_work_item_id = work_item_id;
    },
    record g { active_work = upsert id work_item_id g.active_work },
  )

-- `ProjectRegistry::set_active_work_item`
unfoldable pub set_active_work_item :
    Externals → Registry → Text → Text → Result ActiveWorkItemResult RegistryError × Registry
unfolding selecting
set_active_work_item x g id work_item_id = settle g (selecting x g id work_item_id)

-- `ProjectRegistry::active_work_item`
unfoldable pub active_work_item : Externals → Registry → Text → Result (Option Text) RegistryError
unfolding validate_id find
active_work_item x g id = do
  validate_id "project_id" id
  get x g id
  sql x select_active
  ok (find id g.active_work)

-- `project_view`
unfoldable pub project_view : ProjectRegistration → ProjectView
unfolding as_str
project_view r = record {
  id = r.project_id;
  name = r.name;
  execution_workspace = r.execution_workspace;
  context_sources = r.context_sources;
  grants = map as_str r.grants;
}
