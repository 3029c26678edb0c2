-- ===== src/Progress/Validate/Bounds.antt =====
-- What `ProgressCheckpoint::validate` accepts (crates/gareji-core/src/progress/types.rs).
use gareji_core.Base.{
  Between, guard_iff, seq_iff, for_each_iff, compose_iff, ℕ, ◌≤◌, ◌≡◌, ◌↔◌, refl, Bool, true, not,
  Option, none, some, List, Text, String, arith, ok, for_each, All, Distinct, length,
  collect_size_iff, text_ord, eq_iff, ◌==◌, fail_if,
}
use gareji_core.Progress.{
  ProgressCheckpoint, GitState, VerificationRecord, DeliveryTarget, schema_version_v0,
}
use gareji_core.Progress.Validate.{
  validate_text, validate_required_id, validate_optional_text, validate_optional_id,
  validate_collection_len, validate_unique, validate_path, validate_git, validate_verification,
  validate_evidence_ref, validate, validate_target, is_safe_relative_path,
}
use gareji_core.Progress.Validate.Paths.{IsSafePath, is_safe_relative_path_iff}

abbrev pub AtMost : ℕ → Option Text → Type 0
AtMost hi none = Unit
AtMost hi (some t) = length t ≤ hi

abbrev pub GitFits : Option GitState → Type 0
GitFits none = Unit
GitFits (some g) = AtMost 128 g.head × AtMost 256 g.branch

-- The bounds of the stable v0 contract.
pub record IsWellFormed (rfc3339 : Text → Bool) (c : ProgressCheckpoint) : Type 0 where
  pub schema : c.schema_version ≡ schema_version_v0
  pub checkpoint : Between 1 128 c.checkpoint_id
  pub project : Between 1 128 c.project_id
  pub work_item : AtMost 128 c.work_item_id
  pub workspace : Between 1 128 c.execution_workspace_id
  pub actor : Between 1 128 c.actor.id
  pub dated : rfc3339 c.recorded_at ≡ true
  pub summary : Between 1 2000 c.summary
  pub few_paths : length c.changed_paths ≤ 200
  pub paths_once : Distinct c.changed_paths
  pub paths : All (λ p. Between 1 512 p × IsSafePath p) c.changed_paths
  pub git : GitFits c.git
  pub few_checks : length c.verification ≤ 100
  pub checks : All (λ v. Between 1 256 v.name × AtMost 1024 v.evidence_ref) c.verification
  pub few_refs : length c.evidence_refs ≤ 100
  pub refs_once : Distinct c.evidence_refs
  pub refs : All (Between 1 1024) c.evidence_refs

pub text_iff :
    (field : String) (t : Text) (lo hi : ℕ)
    → (validate_text field t lo hi ≡ ok tt) ↔ Between lo hi t
unfolding validate_text
text_iff field t lo hi = (λ h. ground arith, λ h. ground arith)

required_id_iff :
    (field : String) (t : Text) → (validate_required_id field t ≡ ok tt) ↔ Between 1 128 t
unfolding validate_required_id
required_id_iff field t = text_iff field t 1 128

optional_text_iff :
    (field : String) (o : Option Text) (hi : ℕ)
    → (validate_optional_text field o hi ≡ ok tt) ↔ AtMost hi o
unfolding validate_optional_text
optional_text_iff field none hi = (λ _. tt, λ _. refl)
optional_text_iff field (some t) hi = (λ h. ground arith, λ h. ground arith)

optional_id_iff :
    (field : String) (o : Option Text) → (validate_optional_id field o ≡ ok tt) ↔ AtMost 128 o
unfolding validate_optional_id
optional_id_iff field o = optional_text_iff field o 128

collection_len_iff :
    (field : String) (n hi : ℕ) → (validate_collection_len field n hi ≡ ok tt) ↔ (n ≤ hi)
unfolding validate_collection_len
collection_len_iff field n hi = (λ h. ground arith, λ h. ground arith)

unique_iff : (field : String) (xs : List Text) → (validate_unique field xs ≡ ok tt) ↔ Distinct xs
unfolding validate_unique
unique_iff field xs =
    (λ h. (collect_size_iff xs).0 (ground arith), λ d. ground (arith, (collect_size_iff xs).1 d))

path_iff : (p : Text) → (validate_path p ≡ ok tt) ↔ (Between 1 512 p × IsSafePath p)
unfolding validate_path
path_iff p =
    let fine = compose_iff (guard_iff (is_safe_relative_path p) _) (is_safe_relative_path_iff p) in
    seq_iff (validate_text "changed_paths[]" p 1 512) _ (text_iff "changed_paths[]" p 1 512) fine

git_iff : (g : Option GitState) → (validate_git g ≡ ok tt) ↔ GitFits g
unfolding validate_git
git_iff none = (λ _. tt, λ _. refl)
git_iff (some g) =
    seq_iff (validate_optional_text "git.head" g.head 128) _
      (optional_text_iff "git.head" g.head 128) (optional_text_iff "git.branch" g.branch 256)

verification_iff :
    (v : VerificationRecord)
    → (validate_verification v ≡ ok tt) ↔ (Between 1 256 v.name × AtMost 1024 v.evidence_ref)
unfolding validate_verification
verification_iff v =
    seq_iff (validate_text "verification[].name" v.name 1 256) _
      (text_iff "verification[].name" v.name 1 256)
      (optional_text_iff "verification[].evidence_ref" v.evidence_ref 1024)

evidence_ref_iff : (t : Text) → (validate_evidence_ref t ≡ ok tt) ↔ Between 1 1024 t
unfolding validate_evidence_ref
evidence_ref_iff t = text_iff "evidence_refs[]" t 1 1024

pub target_iff : (t : DeliveryTarget) → (validate_target t ≡ ok tt) ↔ Between 1 128 t.destination_id
unfolding validate_target
target_iff t = required_id_iff "destination_id" t.destination_id

pub validate_iff :
    (rfc3339 : Text → Bool) (c : ProgressCheckpoint)
    → (validate rfc3339 c ≡ ok tt) ↔ IsWellFormed rfc3339 c
unfolding validate
validate_iff rfc3339 c =
    let chain =
      seq_iff (fail_if (not (c.schema_version == schema_version_v0)) _) _
        (compose_iff (guard_iff (c.schema_version == schema_version_v0) _)
          (eq_iff c.schema_version schema_version_v0))
        (seq_iff (validate_required_id "checkpoint_id" c.checkpoint_id) _
          (required_id_iff "checkpoint_id" c.checkpoint_id)
          (seq_iff (validate_required_id "project_id" c.project_id) _
            (required_id_iff "project_id" c.project_id)
            (seq_iff (validate_optional_id "work_item_id" c.work_item_id) _
              (optional_id_iff "work_item_id" c.work_item_id)
              (seq_iff (validate_required_id "execution_workspace_id" c.execution_workspace_id) _
                (required_id_iff "execution_workspace_id" c.execution_workspace_id)
                (seq_iff (validate_required_id "actor.id" c.actor.id) _
                  (required_id_iff "actor.id" c.actor.id)
                  (seq_iff (fail_if (not (rfc3339 c.recorded_at)) _) _
                    (guard_iff (rfc3339 c.recorded_at) _)
                    (seq_iff (validate_text "summary" c.summary 1 2000) _
                      (text_iff "summary" c.summary 1 2000)
                      (seq_iff
                        (validate_collection_len "changed_paths" (length c.changed_paths) 200) _
                        (collection_len_iff "changed_paths" (length c.changed_paths) 200)
                        (seq_iff (validate_unique "changed_paths" c.changed_paths) _
                          (unique_iff "changed_paths" c.changed_paths)
                          (seq_iff (for_each validate_path c.changed_paths) _
                            (for_each_iff validate_path (λ p. Between 1 512 p × IsSafePath p)
                              path_iff c.changed_paths)
                            (seq_iff (validate_git c.git) _ (git_iff c.git) (
                              seq_iff
                                (validate_collection_len "verification" (length c.verification) 100)
                                _ (collection_len_iff "verification" (length c.verification) 100)
                                (seq_iff (for_each validate_verification c.verification) _
                                  (for_each_iff validate_verification
                                    (λ v. Between 1 256 v.name × AtMost 1024 v.evidence_ref)
                                    verification_iff c.verification)
                                  (seq_iff
                                    (validate_collection_len "evidence_refs"
                                      (length c.evidence_refs) 100)
                                    _
                                    (collection_len_iff "evidence_refs" (length c.evidence_refs)
                                      100)
                                    (seq_iff (validate_unique "evidence_refs" c.evidence_refs) _
                                      (unique_iff "evidence_refs" c.evidence_refs)
                                      (for_each_iff validate_evidence_ref (Between 1 1024)
                                        evidence_ref_iff c.evidence_refs)))))))))))))))) in
    (
      λ h.
          let (
            a0,
            (
              a1,
              (
                a2,
                (a3, (a4, (a5, (a6, (a7, (a8, (a9, (b0, (b1, (b2, (b3, (b4, (b5, b6))))))))))))),
              ),
            ),
          ) =
            chain.0 h in
          record {
            schema = a0;
            checkpoint = a1;
            project = a2;
            work_item = a3;
            workspace = a4;
            actor = a5;
            dated = a6;
            summary = a7;
            few_paths = a8;
            paths_once = a9;
            paths = b0;
            git = b1;
            few_checks = b2;
            checks = b3;
            few_refs = b4;
            refs_once = b5;
            refs = b6;
          },
      λ w. chain.1 (
        w.schema,
        (
          w.checkpoint,
          (
            w.project,
            (
              w.work_item,
              (
                w.workspace,
                (
                  w.actor,
                  (
                    w.dated,
                    (
                      w.summary,
                      (
                        w.few_paths,
                        (
                          w.paths_once,
                          (
                            w.paths,
                            (
                              w.git,
                              (w.few_checks, (w.checks, (w.few_refs, (w.refs_once, w.refs)))),
                            ),
                          ),
                        ),
                      ),
                    ),
                  ),
                ),
              ),
            ),
          ),
        ),
      ),
    )
