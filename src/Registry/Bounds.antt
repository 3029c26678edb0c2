-- ===== src/Registry/Bounds.antt =====
-- What `validate_registration` accepts (crates/gareji-core/src/registry.rs).
use gareji_core.Base.{
  ℕ, ◌≤◌, ◌≡◌, ◌⊎◌, ◌↔◌, refl, true, not, ◌&&◌, Option, none, some, List, [], ◌∷◌, String, Text,
  map, length, ltb, nat_beq, ok, fail_if, All, Elem, Distinct, arith, text_ord, pair_ord, collect,
  collect_size_iff, Between, at_most_iff, seq_iff, each_once_iff,
}
use gareji_core.Contracts.{ProjectGrant, SourcedContext, ProjectRegistration, grant_ord}
use gareji_core.Registry.{
  invalid, is_some, validate_text, validate_id, validate_optional_text, validate_collection,
  validate_source, source_key, validate_registration, max_collection_entries, max_context_entries,
}

abbrev pub Fits : ℕ → Option Text → Type 0
Fits hi none = Unit
Fits hi (some t) = Between 1 hi t

-- At most a hundred identities, none twice.
abbrev pub IsIdSet : List Text → Type 0
IsIdSet ids = (length ids ≤ 100) × All (Between 1 128) ids × Distinct ids

pub record IsValidSource (s : SourcedContext) : Type 0 where
  pub workspace : Between 1 128 s.workspace_id
  pub source : Between 1 128 s.source_id
  pub freshness : Between 1 128 s.freshness
  pub content : Fits 64000 s.content
  pub evidence : Fits 1024 s.evidence_ref
  pub backed : (is_some s.content ≡ true) ⊎ (is_some s.evidence_ref ≡ true)

pub record IsValidRegistration (r : ProjectRegistration) : Type 0 where
  pub project : Between 1 128 r.project_id
  pub name : Between 1 256 r.name
  pub workspace : Between 1 1024 r.execution_workspace
  pub context_sources : IsIdSet r.context_sources
  pub delivery_targets : IsIdSet r.delivery_targets
  pub few_grants : length r.grants ≤ 100
  pub grants_once : Distinct r.grants
  pub few_sources : length r.sourced_context ≤ 100
  pub sources : All IsValidSource r.sourced_context
  pub sources_once : Distinct (map source_key r.sourced_context)

text_iff :
    (field : String) (t : Text) (lo hi : ℕ)
    → (validate_text field t lo hi ≡ ok tt) ↔ Between lo hi t
unfolding validate_text
text_iff field t lo hi = (λ h. ground arith, λ h. ground arith)

pub id_iff : (field : String) (t : Text) → (validate_id field t ≡ ok tt) ↔ Between 1 128 t
unfolding validate_id
id_iff field t = text_iff field t 1 128

optional_text_iff :
    (field : String) (o : Option Text) (hi : ℕ)
    → (validate_optional_text field o hi ≡ ok tt) ↔ Fits hi o
unfolding validate_optional_text
optional_text_iff field none hi = (λ _. tt, λ _. refl)
optional_text_iff field (some t) hi = text_iff field t 1 hi

Unseen_nil : {A K : Type 0} (key : A → K) (xs : List A) → All (λ x. ¬ Elem (key x) []) xs
Unseen_nil key [] = tt
Unseen_nil key (x ∷ xs) = (λ m. m, Unseen_nil key xs)

map_same : (xs : List Text) → map (λ v. v) xs ≡ xs
map_same [] = refl
map_same (x ∷ xs) = rw (map_same xs)

collection_iff :
    (field : String) (values : List Text)
    → (validate_collection field values ≡ ok tt) ↔ IsIdSet values
unfolding validate_collection
collection_iff field values =
    let loop =
      each_once_iff (λ v. v) (validate_id field) (invalid field "contains duplicate items")
        (Between 1 128) (id_iff field) [] values in
    let chain =
      seq_iff (fail_if (ltb max_collection_entries (length values)) _) _
        (at_most_iff (length values) 100 _) loop in
    let same = map_same values in
    (
      λ h. let (few, (fine, once, unseen)) = chain.0 h in (few, fine, rw same at once),
      λ (few, fine, once). chain.1 (few, (fine, rw same once, Unseen_nil (λ v. v) values)),
    )

backed_iff :
    {E : Type 0} (c r : Option Text) (e : E)
    → (fail_if (not (is_some c) && not (is_some r)) e ≡ ok tt)
      ↔ ((is_some c ≡ true) ⊎ (is_some r ≡ true))
backed_iff c r e = (λ h. ground arith, λ h. ground arith)

source_iff : (s : SourcedContext) → (validate_source s ≡ ok tt) ↔ IsValidSource s
unfolding validate_source
source_iff s =
    let chain =
      seq_iff (validate_id "sourced_context[].workspace_id" s.workspace_id) _
        (id_iff _ s.workspace_id)
        (seq_iff (validate_id "sourced_context[].source_id" s.source_id) _ (id_iff _ s.source_id) (
          seq_iff (validate_text "sourced_context[].freshness" s.freshness 1 128) _
            (text_iff _ s.freshness 1 128)
            (seq_iff (validate_optional_text "sourced_context[].content" s.content 64000) _
              (optional_text_iff _ s.content 64000)
              (seq_iff (validate_optional_text "sourced_context[].evidence_ref" s.evidence_ref 1024)
                _ (optional_text_iff _ s.evidence_ref 1024)
                (backed_iff s.content s.evidence_ref _))))) in
    (
      λ h.
          let (a, (b, (c, (d, (e, f))))) = chain.0 h in
          record {
            workspace = a;
            source = b;
            freshness = c;
            content = d;
            evidence = e;
            backed = f;
          },
      λ v. chain.1 (v.workspace, (v.source, (v.freshness, (v.content, (v.evidence, v.backed))))),
    )

grants_iff :
    {E : Type 0} (gs : List ProjectGrant) (e : E)
    → (fail_if (not (nat_beq (length (collect gs)) (length gs))) e ≡ ok tt) ↔ Distinct gs
grants_iff gs e =
    (λ h. (collect_size_iff gs).0 (ground arith), λ d. ground (arith, (collect_size_iff gs).1 d))

-- `validate_registration` accepts exactly the registrations within the stable bounds: sizes, no
-- identity, grant or pair of context identities twice, and content or evidence for each source.
pub validate_registration_iff :
    (r : ProjectRegistration) → (validate_registration r ≡ ok tt) ↔ IsValidRegistration r
unfolding validate_registration
validate_registration_iff r =
    let loop =
      each_once_iff source_key validate_source
        (invalid "sourced_context" "contains duplicate source IDs") IsValidSource source_iff []
        r.sourced_context in
    let chain = seq_iff (validate_id "project_id" r.project_id) _ (id_iff _ r.project_id) (
      seq_iff (validate_text "name" r.name 1 256) _ (text_iff _ r.name 1 256) (
        seq_iff (validate_text "execution_workspace" r.execution_workspace 1 1024) _
          (text_iff _ r.execution_workspace 1 1024)
          (seq_iff (validate_collection "context_sources" r.context_sources) _
            (collection_iff _ r.context_sources)
            (seq_iff (validate_collection "delivery_targets" r.delivery_targets) _
              (collection_iff _ r.delivery_targets)
              (seq_iff (fail_if (ltb max_collection_entries (length r.grants)) _) _
                (at_most_iff (length r.grants) 100 _)
                (seq_iff (fail_if (not (nat_beq (length (collect r.grants)) (length r.grants))) _) _
                  (grants_iff r.grants _)
                  (seq_iff (fail_if (ltb max_context_entries (length r.sourced_context)) _) _
                    (at_most_iff (length r.sourced_context) 100 _) loop))))))) in
    (
      λ h.
          let (a, (b, (c, (d, (e, (f, (g, (few, (fine, once, unseen))))))))) = chain.0 h in
          record {
            project = a;
            name = b;
            workspace = c;
            context_sources = d;
            delivery_targets = e;
            few_grants = f;
            grants_once = g;
            few_sources = few;
            sources = fine;
            sources_once = once;
          },
      λ v. chain.1 (
        v.project,
        (
          v.name,
          (
            v.workspace,
            (
              v.context_sources,
              (
                v.delivery_targets,
                (
                  v.few_grants,
                  (
                    v.grants_once,
                    (
                      v.few_sources,
                      (v.sources, v.sources_once, Unseen_nil source_key r.sourced_context),
                    ),
                  ),
                ),
              ),
            ),
          ),
        ),
      ),
    )
