-- ===== src/Progress/Validate.antt =====
-- `ProgressCheckpoint::validate` and its helpers (crates/gareji-core/src/progress/types.rs).
-- `rfc3339` stands for chrono's `DateTime::parse_from_rfc3339`: whether it accepts a text.
mod Splitting
pub mod Paths
pub mod Bounds
mod Examples
use gareji_core.Base.{
  ℕ, ◌≡◌, Bool, true, false, not, ◌&&◌, ◌||◌, Option, none, some, List, [], ◌∷◌, String, Text,
  codes, map, ltb, nat_beq, if◌then◌else◌, Result, ok, err, ◌>>=◌, ◌>>◌, fail_if, for_each, all,
  length, bytes, ◌==◌, text_ord, collect, zero, suc, starts_with,
}
use gareji_core.Progress.{
  ProgressCheckpoint, GitState, VerificationRecord, DeliveryTarget, CheckpointValidationError,
  schema_version_v0,
}

abbrev pub Checked : Type 0
Checked = Result Unit CheckpointValidationError

abbrev pub invalid : String → String → CheckpointValidationError
invalid field message = record { field = field; message = message }

unfoldable pub validate_text : String → Text → ℕ → ℕ → Checked
validate_text field value min_chars max_chars = do
  fail_if (ltb (length value) min_chars) (invalid field "is shorter than minimum length")
  fail_if (ltb max_chars (length value)) (invalid field "exceeds maximum length")

unfoldable pub validate_required_id : String → Text → Checked
unfolding validate_text
validate_required_id field value = validate_text field value 1 128

unfoldable pub validate_optional_text : String → Option Text → ℕ → Checked
validate_optional_text field none max_chars = ok tt
validate_optional_text field (some value) max_chars =
    fail_if (ltb max_chars (length value)) (invalid field "exceeds maximum length")

unfoldable pub validate_optional_id : String → Option Text → Checked
unfolding validate_optional_text
validate_optional_id field value = validate_optional_text field value 128

unfoldable pub validate_collection_len : String → ℕ → ℕ → Checked
validate_collection_len field n max_items =
    fail_if (ltb max_items n) (invalid field "contains too many items")

-- The set is collected, and its size compared.
unfoldable pub validate_unique : String → List Text → Checked
validate_unique field values =
    fail_if (not (nat_beq (length (collect values)) (length values)))
      (invalid field "contains duplicate items")

-- `str::split(c)`: the pieces between the separators, the empty ones too.
unfoldable pub onto_first : ℕ → List Text → List Text
onto_first x [] = (x ∷ []) ∷ []
onto_first x (p ∷ ps) = (x ∷ p) ∷ ps

unfoldable pub split : ℕ → Text → List Text
unfolding onto_first
split c [] = [] ∷ []
split c (x ∷ t) = let rest = split c t in if nat_beq x c then [] ∷ rest else onto_first x rest

-- `value.replace('\\', "/")`
abbrev pub slash : ℕ → ℕ
slash c = if nat_beq c 0x5c then b'/' else c

abbrev pub normalize : Text → Text
normalize = map slash

-- `bytes.get(1).is_some_and(|second| *second == b':')`
unfoldable pub second_is_colon : List ℕ → Bool
second_is_colon (a ∷ b ∷ rest) = nat_beq b b':'
second_is_colon _ = false

unfoldable pub is_safe_relative_path : Text → Bool
unfolding second_is_colon split starts_with
is_safe_relative_path value =
    let normalized = normalize value in
    if starts_with (codes "/") normalized
      || starts_with (codes "//") normalized
      || second_is_colon (bytes normalized)
    then false
    else all (λ part. not (part == codes "..")) (split b'/' normalized)

unfoldable pub validate_path : Text → Checked
unfolding validate_text is_safe_relative_path
validate_path path = do
  validate_text "changed_paths[]" path 1 512
  fail_if (not (is_safe_relative_path path))
      (invalid "changed_paths[]" "must be a relative path without parent traversal")

unfoldable pub validate_git : Option GitState → Checked
unfolding validate_optional_text
validate_git none = ok tt
validate_git (some git) = do
  validate_optional_text "git.head" git.head 128
  validate_optional_text "git.branch" git.branch 256

unfoldable pub validate_verification : VerificationRecord → Checked
unfolding validate_text validate_optional_text
validate_verification v = do
  validate_text "verification[].name" v.name 1 256
  validate_optional_text "verification[].evidence_ref" v.evidence_ref 1024

unfoldable pub validate_evidence_ref : Text → Checked
unfolding validate_text
validate_evidence_ref evidence_ref = validate_text "evidence_refs[]" evidence_ref 1 1024

-- `ProgressCheckpoint::validate`
unfoldable pub validate : (Text → Bool) → ProgressCheckpoint → Checked
unfolding validate_text validate_required_id validate_optional_id validate_collection_len
    validate_unique validate_path validate_git validate_verification validate_evidence_ref
validate rfc3339 c = do
  fail_if (not (c.schema_version == schema_version_v0))
      (invalid "schema_version" "unsupported schema version")
  validate_required_id "checkpoint_id" c.checkpoint_id
  validate_required_id "project_id" c.project_id
  validate_optional_id "work_item_id" c.work_item_id
  validate_required_id "execution_workspace_id" c.execution_workspace_id
  validate_required_id "actor.id" c.actor.id
  fail_if (not (rfc3339 c.recorded_at)) (invalid "recorded_at" "must be RFC 3339 date-time")
  validate_text "summary" c.summary 1 2000
  validate_collection_len "changed_paths" (length c.changed_paths) 200
  validate_unique "changed_paths" c.changed_paths
  for_each validate_path c.changed_paths
  validate_git c.git
  validate_collection_len "verification" (length c.verification) 100
  for_each validate_verification c.verification
  validate_collection_len "evidence_refs" (length c.evidence_refs) 100
  validate_unique "evidence_refs" c.evidence_refs
  for_each validate_evidence_ref c.evidence_refs

-- `DeliveryTarget::validate`
unfoldable pub validate_target : DeliveryTarget → Checked
unfolding validate_required_id
validate_target target = validate_required_id "destination_id" target.destination_id
