-- ===== src/Registry/Invariant.antt =====
-- The invariant of the registry and the operations that keep it (crates/gareji-core/src/registry.rs).
use mathlib.Core.Path.{subst}
use mathlib.Core.Option.{some-injective}
use gareji_core.Base.{
  ◌≡◌, inl, inr, refl, sym, ◌∙◌, Bool, true, not, ◌||◌, some, Text, if◌then◌else◌, Bool-cases,
  Result-cases, Result, ok, fail_if, ok_or, >>=-eq-ok, ok_or-eq-ok, fail_if-eq-ok, Distinct, arith,
  text_ord, ◌==◌, eq_iff,
}
use gareji_core.Contracts.{ProjectRegistration, ActiveWorkItemResult}
use gareji_core.Registry.{
  Externals, ReadsBack, Registry, RegistryError, storage, serialization, is_some, find, upsert,
  validate_registration, validate_id, sql, registering, register, selecting, set_active_work_item,
  get, begin, select_exists, upsert_project, commit, select_active, upsert_active,
}
use gareji_core.Registry.Bounds.{IsValidRegistration, validate_registration_iff}
use gareji_core.Registry.Tables.{keys, find-upsert, keys-upsert}

-- A payload that reads back as a valid registration under its own identity.
pub record IsPayloadOf (x : Externals) (id payload : Text) : Type 0 where
  pub registration : ProjectRegistration
  pub reads : x.from_str payload ≡ some registration
  pub identity : registration.project_id ≡ id
  pub valid : IsValidRegistration registration

pub record IsSound (x : Externals) (g : Registry) : Type 0 where
  pub projects_once : Distinct (keys g.projects)
  pub active_once : Distinct (keys g.active_work)
  pub registered :
      (id : Text) → is_some (find id g.active_work) ≡ true → is_some (find id g.projects) ≡ true
  pub payloads : (id payload : Text) → find id g.projects ≡ some payload → IsPayloadOf x id payload

-- What a registration that goes through has done.
pub record Registered (x : Externals) (g : Registry) (r : ProjectRegistration) (existed : Bool)
    (g' : Registry) : Type 0 where
  pub payload : Text
  pub valid : validate_registration r ≡ ok tt
  pub written : x.to_string r ≡ some payload
  pub told : existed ≡ is_some (find r.project_id g.projects)
  pub after : g' ≡ record g { projects = upsert r.project_id payload g.projects }

-- The two parts of a result that went through.
parts :
    {A : Type 0} (a b : A) (g h : Registry)
    → ◌≡◌ {A = Result (A × Registry) RegistryError} (ok (a, g)) (ok (b, h))
    → (b ≡ a) × (h ≡ g)
parts a b g h e = (cc, cc)

pub registering-Registered :
    (x : Externals) (g : Registry) (r : ProjectRegistration) {existed : Bool} {g' : Registry}
    → registering x g r ≡ ok (existed, g')
    → Registered x g r existed g'
unfolding registering
registering-Registered x g r {existed} {g'} h =
    let (_, valid, r0) = >>=-eq-ok (validate_registration r) _ h in
    let (payload, written, r1) = >>=-eq-ok (ok_or (x.to_string r) serialization) _ r0 in
    let (_, _, r2) = >>=-eq-ok (sql x begin) _ r1 in
    let (_, _, r3) = >>=-eq-ok (sql x select_exists) _ r2 in
    let (_, _, r4) = >>=-eq-ok (sql x upsert_project) _ r3 in
    let (_, _, r5) = >>=-eq-ok (sql x commit) _ r4 in
    record {
      payload = payload;
      valid = valid;
      written = ok_or-eq-ok serialization (x.to_string r) written;
      told = (parts _ _ _ _ r5).0;
      after = (parts _ _ _ _ r5).1;
    }

-- What a selection that goes through has done.
pub record Selected (x : Externals) (g : Registry) (id work_item_id : Text)
    (a : ActiveWorkItemResult) (g' : Registry) : Type 0 where
  pub registration : ProjectRegistration
  pub known : get x g id ≡ ok registration
  pub stored : is_some (find id g.projects) ≡ true
  pub told : a ≡ record {
    project_id = id;
    previous_work_item_id = find id g.active_work;
    current_work_item_id = work_item_id;
  }
  pub after : g' ≡ record g { active_work = upsert id work_item_id g.active_work }

pub selecting-Selected :
    (x : Externals) (g : Registry) (id work_item_id : Text) {a : ActiveWorkItemResult}
    {g' : Registry}
    → selecting x g id work_item_id ≡ ok (a, g')
    → Selected x g id work_item_id a g'
unfolding selecting
selecting-Selected x g id work_item_id {a} {g'} h =
    let (_, _, r0) = >>=-eq-ok (validate_id "project_id" id) _ h in
    let (_, _, r1) = >>=-eq-ok (validate_id "work_item_id" work_item_id) _ r0 in
    let (r, known, r2) = >>=-eq-ok (get x g id) _ r1 in
    let (_, _, r3) = >>=-eq-ok (sql x begin) _ r2 in
    let (_, _, r4) = >>=-eq-ok (sql x select_active) _ r3 in
    let (_, fine, r5) =
      >>=-eq-ok (fail_if (x.fault upsert_active || not (is_some (find id g.projects))) storage) _
        r4 in
    let (_, _, r6) = >>=-eq-ok (sql x commit) _ r5 in
    let passed =
      fail_if-eq-ok (x.fault upsert_active || not (is_some (find id g.projects))) storage fine in
    record {
      registration = r;
      known = known;
      stored = ground arith;
      told = (parts _ _ _ _ r6).0;
      after = (parts _ _ _ _ r6).1;
    }

payload_of :
    (x : Externals) (r : ProjectRegistration) (payload : Text)
    → ReadsBack x
    → validate_registration r ≡ ok tt
    → x.to_string r ≡ some payload
    → IsPayloadOf x r.project_id payload
payload_of x r payload reads valid written = record {
  registration = r;
  reads = reads.from_str-to_string r payload written;
  identity = refl;
  valid = (validate_registration_iff r).0 valid;
}

after_register :
    (x : Externals) (g : Registry) (r : ProjectRegistration) (payload : Text)
    → IsSound x g
    → IsPayloadOf x r.project_id payload
    → IsSound x (record g { projects = upsert r.project_id payload g.projects })
after_register x g r payload s p = record {
  projects_once = keys-upsert r.project_id payload g.projects s.projects_once;
  active_once = s.active_once;
  registered =
      λ id h. ground (arith, find-upsert r.project_id id payload g.projects, s.registered id h);
  payloads = λ id value h.
      let at_id = sym (find-upsert r.project_id id payload g.projects) ∙ h in
      elim (Bool-cases (r.project_id == id)) [
        | inl e ↦
            let here = (eq_iff r.project_id id).0 e in
            let same = some-injective _ _ (rw e at at_id) in
            subst (λ i. IsPayloadOf x i value) here (subst (IsPayloadOf x r.project_id) same p)
        | inr n ↦ s.payloads id value (rw n at at_id)
      ];
}

-- Where the payload reads back as it was written, `register` keeps the invariant of the
-- registry, also where it fails.
pub register-IsSound :
    (x : Externals) (g : Registry) (r : ProjectRegistration)
    → ReadsBack x
    → IsSound x g
    → IsSound x (register x g r).1
unfolding register
register-IsSound x g r reads s = elim (Result-cases (registering x g r)) [
  | inr (e, failed) ↦ rw failed s
  | inl ((existed, g'), done) ↦
      let d = registering-Registered x g r done in
      rw done (
        subst (IsSound x) (sym d.after)
          (after_register x g r d.payload s (payload_of x r d.payload reads d.valid d.written)))
]

after_select :
    (x : Externals) (g : Registry) (id work_item_id : Text)
    → IsSound x g
    → is_some (find id g.projects) ≡ true
    → IsSound x (record g { active_work = upsert id work_item_id g.active_work })
after_select x g id work_item_id s stored = record {
  projects_once = s.projects_once;
  active_once = keys-upsert id work_item_id g.active_work s.active_once;
  registered = λ other h.
      let at_other : is_some (if id == other then some work_item_id else find other g.active_work)
          ≡ true =
        rw find-upsert at h in
      elim (Bool-cases (id == other)) [
        | inl e ↦ subst (λ i. is_some (find i g.projects) ≡ true) ((eq_iff id other).0 e) stored
        | inr n ↦ s.registered other (rw n at at_other)
      ];
  payloads = s.payloads;
}

-- `set_active_work_item` keeps the invariant of the registry, also where it fails.
pub set_active_work_item-IsSound :
    (x : Externals) (g : Registry) (id work_item_id : Text)
    → IsSound x g
    → IsSound x (set_active_work_item x g id work_item_id).1
unfolding set_active_work_item
set_active_work_item-IsSound x g id work_item_id s =
    elim (Result-cases (selecting x g id work_item_id)) [
      | inr (e, failed) ↦ rw failed s
      | inl ((a, g'), done) ↦
          let d = selecting-Selected x g id work_item_id done in
          rw done (subst (IsSound x) (sym d.after) (after_select x g id work_item_id s d.stored))
    ]
