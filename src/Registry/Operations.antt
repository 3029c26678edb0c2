-- ===== src/Registry/Operations.antt =====
-- What the operations of the registry do to what is read afterwards
-- (crates/gareji-core/src/registry.rs).
use mathlib.Core.Path.{ap₂}
use gareji_core.Base.{
  ◌≡◌, ◌≢◌, inl, inr, ap, sym, ◌∙◌, Bool, false, none, some, Text, if◌then◌else◌, Bool-cases,
  Result, ok, err, >>=-eq-ok, text_ord, ◌==◌, eq_iff, eq_refl, Between,
}
use gareji_core.Contracts.{ProjectRegistration, ActiveWorkItemResult}
use gareji_core.Registry.{
  Externals, ReadsBack, Registry, RegistryError, project_not_found, is_some, find, validate_id,
  registering, register, selecting, set_active_work_item, active_work_item, settle, get,
  select_project, select_active,
}
use gareji_core.Registry.Bounds.{IsValidRegistration, id_iff, validate_registration_iff}
use gareji_core.Registry.Tables.{find-upsert}
use gareji_core.Registry.Invariant.{registering-Registered, selecting-Selected}

-- `get` and `active_work_item` read one key.
get_cong :
    (x : Externals) (g h : Registry) (id : Text)
    → find id g.projects ≡ find id h.projects
    → get x g id ≡ get x h id
unfolding get
get_cong x g h id e = rw e

get_valid_id :
    (x : Externals) (g : Registry) (id : Text) {r : ProjectRegistration}
    → get x g id ≡ ok r
    → validate_id "project_id" id ≡ ok tt
unfolding get
get_valid_id x g id h = (>>=-eq-ok (validate_id "project_id" id) _ h).1

active_cong :
    (x : Externals) (g h : Registry) (id : Text)
    → find id g.projects ≡ find id h.projects
    → find id g.active_work ≡ find id h.active_work
    → active_work_item x g id ≡ active_work_item x h id
unfolding active_work_item
active_cong x g h id e f = rw (get_cong x g h id e, f)

active_of :
    (x : Externals) (g : Registry) (id : Text) (r : ProjectRegistration)
    → x.fault select_active ≡ false
    → get x g id ≡ ok r
    → active_work_item x g id ≡ ok (find id g.active_work)
unfolding active_work_item
active_of x g id r quiet known = rw (get_valid_id x g id known) (rw known (rw quiet))

different : (id other : Text) → other ≢ id → (id == other) ≡ false
different id other n = elim (Bool-cases (id == other)) [
  | inl e ↦ absurd (n (sym ((eq_iff id other).0 e)))
  | inr f ↦ f
]

pub get_of :
    (x : Externals) (g : Registry) (id payload : Text) (r : ProjectRegistration)
    → x.fault select_project ≡ false
    → Between 1 128 id
    → find id g.projects ≡ some payload
    → x.from_str payload ≡ some r
    → get x g id ≡ ok r
unfolding get
get_of x g id payload r quiet fits found reads =
    rw ((id_iff "project_id" id).1 fits) (rw quiet (rw found (rw reads)))

settle-eq-ok :
    {A : Type 0} (g : Registry) (m : Result (A × Registry) RegistryError) {a : A} {g' : Registry}
    → settle g m ≡ (ok a, g')
    → m ≡ ok (a, g')
settle-eq-ok g (err e) h = absurd (err_not_ok (ap (λ p. p.0) h))
  where
    err_not_ok : {A : Type 0} {a : A} → ¬ (◌≡◌ {A = Result A RegistryError} (err e) (ok a))
    err_not_ok k = cc
settle-eq-ok g (ok (b, h)) e =
    let same : b ≡ _ = cc (ap (λ p. p.0) e) in ap₂ (λ q r. ok (q, r)) same (ap (λ p. p.1) e)

-- After a registration went through, where the payload reads back as it was written and the
-- reading does not fail, `get` returns that very registration for its project and what it
-- returned before for every other, the active work is as it was, and the result tells whether
-- the project was registered before.
pub register-get :
    (x : Externals) (g : Registry) (r : ProjectRegistration) {existed : Bool} {g' : Registry}
    → ReadsBack x
    → x.fault select_project ≡ false
    → register x g r ≡ (ok existed, g')
    → (get x g' r.project_id ≡ ok r)
      × ((id : Text) → id ≢ r.project_id → get x g' id ≡ get x g id)
      × (g'.active_work ≡ g.active_work)
      × (existed ≡ is_some (find r.project_id g.projects))
unfolding register
register-get x g r {existed} {g'} reads quiet h =
    let d = registering-Registered x g r (settle-eq-ok g (registering x g r) h) in
    let valid : IsValidRegistration r = (validate_registration_iff r).0 d.valid in
    let found : find r.project_id g'.projects ≡ some d.payload =
      ap (λ q. find r.project_id q.projects) d.after
      ∙ find-upsert r.project_id r.project_id d.payload g.projects
      ∙ ap (λ b. if b then some d.payload else find r.project_id g.projects)
          (eq_refl r.project_id) in
    (
      get_of x g' r.project_id d.payload r quiet valid.project found
          (reads.from_str-to_string r d.payload d.written),
      λ id other. get_cong x g' g id (
          ap (λ q. find id q.projects) d.after
          ∙ find-upsert r.project_id id d.payload g.projects
          ∙ ap (λ b. if b then some d.payload else find id g.projects)
              (different r.project_id id other)),
      ap (λ q. q.active_work) d.after,
      d.told,
    )

-- After a selection went through, where the reading does not fail, the project's active work
-- item is the new one and every other project's is as it was, the registrations are as they
-- were, and the result names the work item that was active before.
pub set_active_work_item-active_work_item :
    (x : Externals) (g : Registry) (id work_item_id : Text) {a : ActiveWorkItemResult}
    {g' : Registry}
    → x.fault select_active ≡ false
    → set_active_work_item x g id work_item_id ≡ (ok a, g')
    → (active_work_item x g' id ≡ ok (some work_item_id))
      × ((other : Text) → other ≢ id → active_work_item x g' other ≡ active_work_item x g other)
      × (g'.projects ≡ g.projects)
      × (active_work_item x g id ≡ ok a.previous_work_item_id)
      × (a.project_id ≡ id)
      × (a.current_work_item_id ≡ work_item_id)
unfolding set_active_work_item
set_active_work_item-active_work_item x g id work_item_id {a} {g'} quiet h =
    let d =
      selecting-Selected x g id work_item_id (settle-eq-ok g (selecting x g id work_item_id) h) in
    let projects = ap (λ q. q.projects) d.after in
    let known' : get x g' id ≡ ok d.registration =
      get_cong x g' g id (ap (find id) projects) ∙ d.known in
    let now : find id g'.active_work ≡ some work_item_id =
      ap (λ q. find id q.active_work) d.after
      ∙ find-upsert id id work_item_id g.active_work
      ∙ ap (λ b. if b then some work_item_id else find id g.active_work) (eq_refl id) in
    (
      active_of x g' id d.registration quiet known' ∙ ap ok now,
      λ other n. active_cong x g' g other (ap (find other) projects) (
          ap (λ q. find other q.active_work) d.after
          ∙ find-upsert id other work_item_id g.active_work
          ∙ ap (λ b. if b then some work_item_id else find other g.active_work)
              (different id other n)),
      projects,
      active_of x g id d.registration quiet d.known
          ∙ ap (λ q. ok q.previous_work_item_id) (sym d.told),
      ap (λ q. q.project_id) d.told,
      ap (λ q. q.current_work_item_id) d.told,
    )

-- Where the reading does not fail, a selection with bounded identities for a project that is
-- not registered is refused and changes nothing.
pub set_active_work_item-unregistered :
    (x : Externals) (g : Registry) (id work_item_id : Text)
    → x.fault select_project ≡ false
    → Between 1 128 id
    → Between 1 128 work_item_id
    → find id g.projects ≡ none
    → set_active_work_item x g id work_item_id ≡ (err (project_not_found id), g)
unfolding set_active_work_item selecting get
set_active_work_item-unregistered x g id work_item_id quiet fits fits' absent =
    rw ((id_iff "project_id" id).1 fits)
      (rw ((id_iff "work_item_id" work_item_id).1 fits') (rw quiet (rw absent)))
