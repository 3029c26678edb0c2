-- ===== src/Registry/Listing.antt =====
-- What `list` returns (crates/gareji-core/src/registry.rs).
use mathlib.Core.Path.{subst, ap₂}
use mathlib.Core.Option.{some-injective}
use gareji_core.Base.{
  take_all, ◌≤◌, ◌≡◌, ◌↔◌, inl, inr, refl, ap, sym, ◌∙◌, true, false, some, List, [], ◌∷◌, Text,
  map, length, take, ok, >>=-eq-ok, ok_or-eq-ok, ok_or, Elem, All, All-of, arith, text_ord,
  text_leq, text_leq_trans, text_leq_total, sort_by, Elem-sort_by, sort_by-IsSorted, length-sort_by,
  IsSorted,
}
use gareji_core.Contracts.{ProjectRegistration}
use gareji_core.Registry.{
  Externals, Registry, Table, serialization, project_not_found, find, sql, get, list, read_rows,
  by_id, max_projects, select_project, select_projects, validate_id,
}
use gareji_core.Registry.Bounds.{IsValidRegistration}
use gareji_core.Registry.Tables.{keys, find-Elem}
use gareji_core.Registry.Invariant.{IsPayloadOf, IsSound}
use gareji_core.Registry.Operations.{get_of}

abbrev pub identity : ProjectRegistration → Text
identity r = r.project_id

module _ (x : Externals) where
  abbrev IsRow : Text × Text → Type 0
  IsRow (id, payload) = IsPayloadOf x id payload

  -- The registrations of the rows, in their order.
  abbrev Read : Table → List ProjectRegistration → Type 0
  Read rows rs =
      (map identity rs ≡ keys rows)
      × ((r : ProjectRegistration)
          → Elem r rs ↔ (
              (payload : Text) × Elem (r.project_id, payload) rows × (x.from_str payload ≡ some r)))

  rows_readable :
      (rows : Table)
      → All IsRow rows
      → (rs : List ProjectRegistration) × (read_rows x rows ≡ ok rs) × Read rows rs
  rows_readable [] h = ([], refl, (refl, λ r. (λ m. absurd m, λ (p, m, q). absurd m)))
  rows_readable ((id, payload) ∷ rows) (p, ps) =
      let (rs, done, (ids, same)) = rows_readable rows ps in
      (
        p.registration ∷ rs,
        rw p.reads (rw done),
        (
          ap₂ (λ k ks. k ∷ ks) p.identity ids,
          λ r. (
            λ m. elim m [
              | inl e ↦ (
                payload,
                inl (ap (λ i. (i, payload)) (ap identity e ∙ p.identity)),
                p.reads ∙ ap some (sym e),
              )
              | inr n ↦ let (q, there, reads) = (same r).0 n in (q, inr there, reads)
            ],
            λ (q, there, reads). elim there [
              | inl e ↦ inl (some-injective _ _ (sym reads ∙ ap (λ z. x.from_str z.1) e ∙ p.reads))
              | inr n ↦ inr ((same r).1 (q, n, reads))
            ],
          ),
        ),
      )

All-keys :
    (id value : Text) (rows : Table)
    → All (λ row. by_id (id, value) row ≡ true) rows
    → All (λ k. text_leq id k ≡ true) (keys rows)
All-keys id value [] h = tt
All-keys id value (row ∷ rows) h = (h.0, All-keys id value rows h.1)

IsSorted-keys : (rows : Table) → IsSorted by_id rows → IsSorted text_leq (keys rows)
IsSorted-keys [] s = tt
IsSorted-keys ((id, value) ∷ rows) s = (All-keys id value rows s.0, IsSorted-keys rows s.1)

-- The rows in the order of their identities.
abbrev ordered : Registry → Table
ordered g = sort_by by_id g.projects

ordered-IsSorted : (g : Registry) → IsSorted text_leq (keys (ordered g))
ordered-IsSorted g = IsSorted-keys (ordered g) (
    sort_by-IsSorted by_id (λ a b. text_leq_total a.0 b.0) (λ a b c. text_leq_trans a.0 b.0 c.0)
      g.projects)

rows_read : (x : Externals) (g : Registry) → IsSound x g → All (IsRow x) (ordered g)
rows_read x g s = All-of (IsRow x) (ordered g) (λ row m. s.payloads row.0 row.1 (
    (find-Elem row.0 row.1 g.projects s.projects_once).1 ((Elem-sort_by by_id row g.projects).0 m)))

-- A project that `get` returns stands in the table under its identity.
get_row :
    (x : Externals) (g : Registry) (id : Text) {r : ProjectRegistration}
    → get x g id ≡ ok r
    → (payload : Text) × (find id g.projects ≡ some payload) × (x.from_str payload ≡ some r)
unfolding get
get_row x g id {r} h =
    let (_, _, r0) = >>=-eq-ok (validate_id "project_id" id) _ h in
    let (_, _, r1) = >>=-eq-ok (sql x select_project) _ r0 in
    let (payload, found, last) =
      >>=-eq-ok (ok_or (find id g.projects) (project_not_found id)) _ r1 in
    (
      payload,
      ok_or-eq-ok _ (find id g.projects) found,
      ok_or-eq-ok serialization (x.from_str payload) last,
    )

-- On a sound registry of at most ten thousand projects, where the storage does not fail, `list`
-- returns every registered project and no other, each as `get` returns it, sorted by identity.
pub list_complete :
    (x : Externals) (g : Registry)
    → IsSound x g
    → x.fault select_projects ≡ false
    → x.fault select_project ≡ false
    → length g.projects ≤ max_projects
    → (rs : List ProjectRegistration) × (list x g ≡ ok rs)
      × IsSorted text_leq (map identity rs)
      × ((r : ProjectRegistration) → Elem r rs ↔ (get x g r.project_id ≡ ok r))
unfolding list
list_complete x g s quiet quiet' few =
    let (rs, done, (ids, same)) = rows_readable x (ordered g) (rows_read x g s) in
    let whole : take max_projects (ordered g) ≡ ordered g =
      take_all max_projects (ordered g) (omega (arith, length-sort_by by_id g.projects)) in
    (
      rs,
      rw quiet (ap (read_rows x) whole ∙ done),
      subst (IsSorted text_leq) (sym ids) (ordered-IsSorted g),
      λ r. (
        λ m.
            let (payload, there, reads) = (same r).0 m in
            let found =
              (find-Elem r.project_id payload g.projects s.projects_once).1
                ((Elem-sort_by by_id (r.project_id, payload) g.projects).0 there) in
            let p = s.payloads r.project_id payload found in
            let is_r : p.registration ≡ r = some-injective _ _ (sym p.reads ∙ reads) in
            get_of x g r.project_id payload r quiet'
              (subst IsValidRegistration is_r p.valid).project found reads,
        λ h.
            let (payload, found, reads) = get_row x g r.project_id h in
            (same r).1 (
              payload,
              (Elem-sort_by by_id (r.project_id, payload) g.projects).1
                  ((find-Elem r.project_id payload g.projects s.projects_once).0 found),
              reads,
            ),
      ),
    )
