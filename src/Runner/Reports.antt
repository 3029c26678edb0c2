-- ===== src/Runner/Reports.antt =====
-- What the validation of requests and of reports accepts (crates/gareji-core/src/runner.rs).
pub mod Validation
use gareji_core.Base.{
  ℕ, zero, suc, ◌≤◌, ◌<◌, ◌≡◌, ◌≢◌, ◌⊎◌, ◌↔◌, inl, inr, refl, ap, sym, ◌∙◌, Bool, true, false, not,
  ◌&&◌, ◌||◌, Option, none, some, List, [], ◌∷◌, Text, length, bytes, ltb, leb, nat_beq,
  if◌then◌else◌, Bool-cases, Result, ok, err, ◌>>=◌, ◌>>◌, fail_if, for_each, all, All, Elem, arith,
  is_empty, is_control, is_whitespace, is_ascii_lowercase, is_ascii_digit, Between, compose_iff,
  seq_iff, guard_iff, fails_iff, for_each_iff, at_most_iff, all-eq-true, All-of, All_at, &&-eq-true,
}
use gareji_core.Policy.{valid_capability, capability_byte}
use gareji_core.Policy.Validation.{IsCapability, valid_capability_iff}
use gareji_core.RunContract.{
  Value, CoreRunRequest, RunnerOutcome, RunnerFailureCategory, RunnerFailure, RunnerReport,
  EvidenceReference, RunContractViolation, succeeded, failed, invalid_run_id, invalid_timeout,
  invalid_summary, too_many_evidence_references, invalid_evidence_reference, invalid_failure,
  failure_outcome_mismatch, max_run_id_chars, max_timeout_seconds, max_request_bytes,
  max_result_bytes, max_summary_chars, max_failure_message_chars, max_evidence_references,
  max_evidence_reference_chars, max_token_bytes,
}
use gareji_core.Runner.{
  token_byte, valid_token, trim_start, trim_end, trim, safe_character, valid_safe_text, any_control,
  validate_request, validate_json, validate_evidence, is_cancelled, is_cancellation, differ,
  validate_failure, validate_outcome, validate_report,
}
use gareji_core.Runner.Payloads.{IsBounded, validate_json_iff}

token_byte-eq : (b : ℕ) → token_byte b ≡ capability_byte b
unfolding token_byte capability_byte
token_byte-eq b = ground arith

all_token : (bs : List ℕ) → all token_byte bs ≡ all capability_byte bs
all_token [] = refl
all_token (b ∷ bs) = rw (token_byte-eq b, all_token bs)

same_test :
    (e c : Bool) (n : ℕ) → (not e && leb n max_token_bytes && c) ≡ not (e || ltb 128 n || not c)
same_test e c n = ground arith

-- Tokens and capabilities are the same names.
pub valid_token_iff : (t : Text) → (valid_token t ≡ true) ↔ IsCapability t
unfolding valid_token valid_capability
valid_token_iff t =
    let same : valid_token t ≡ valid_capability t =
      ap (λ c. not (is_empty t) && leb (length (bytes t)) max_token_bytes && c)
        (all_token (bytes t))
      ∙ same_test (is_empty t) (all capability_byte (bytes t)) (length (bytes t)) in
    (λ h. (valid_capability_iff t).0 (sym same ∙ h), λ h. same ∙ (valid_capability_iff t).1 h)

trim_end_blank : (t : Text) → is_empty (trim_end t) ≡ all is_whitespace t
unfolding trim_end
trim_end_blank [] = refl
trim_end_blank (c ∷ t) =
    let rest = trim_end_blank t in
    elim (Bool-cases (is_whitespace c)) [
      | inl e ↦ elim (Bool-cases (is_empty (trim_end t))) [
        | inl f ↦ rw (e, f) (sym f ∙ rest)
        | inr f ↦ rw (e, f) (sym f ∙ rest)
      ]
      | inr n ↦ elim (Bool-cases (is_empty (trim_end t))) [ inl f ↦ rw (n, f) | inr f ↦ rw (n, f) ]
    ]

trim_start_blank : (t : Text) → all is_whitespace (trim_start t) ≡ all is_whitespace t
unfolding trim_start
trim_start_blank [] = refl
trim_start_blank (c ∷ t) = elim (Bool-cases (is_whitespace c)) [
  | inl e ↦ rw e (trim_start_blank t)
  | inr n ↦ rw n (rw n refl)
]

-- A text of at most so many characters that is not blank, with no control characters but tabs, newlines
-- and carriage returns.
pub record IsSafeText (max_chars : ℕ) (t : Text) : Type 0 where
  pub visible : ¬ All (λ c. is_whitespace c ≡ true) t
  pub short : length t ≤ max_chars
  pub safe : All (λ c. (c ≡ 9) ⊎ ((c ≡ 10) ⊎ ((c ≡ 13) ⊎ (((32 ≤ c) × (c < 127)) ⊎ (160 ≤ c))))) t

safe_character_iff :
    (c : ℕ)
    → (safe_character c ≡ true)
      ↔ ((c ≡ 9) ⊎ ((c ≡ 10) ⊎ ((c ≡ 13) ⊎ (((32 ≤ c) × (c < 127)) ⊎ (160 ≤ c)))))
unfolding safe_character is_control
safe_character_iff c = (λ h. ground arith, λ h. ground arith)

All-iff :
    {A : Type 0} (P Q : A → Type 0) → ((a : A) → P a ↔ Q a) → (xs : List A) → All P xs ↔ All Q xs
All-iff P Q each [] = (λ _. tt, λ _. tt)
All-iff P Q each (x ∷ xs) = (
  λ h. ((each x).0 h.0, (All-iff P Q each xs).0 h.1),
  λ h. ((each x).1 h.0, (All-iff P Q each xs).1 h.1),
)

not_iff : {P : Type 0} (b : Bool) → (b ≡ true) ↔ P → (not b ≡ true) ↔ (¬ P)
not_iff true p = (λ h. cc, λ h. absurd (h (p.0 refl)))
not_iff false p = (λ _. λ q. cc (p.1 q), λ _. refl)

and_iff :
    {P Q : Type 0} (b c : Bool) → (b ≡ true) ↔ P → (c ≡ true) ↔ Q → ((b && c) ≡ true) ↔ (P × Q)
and_iff true c p q = (λ h. (p.0 refl, q.0 h), λ h. q.1 h.1)
and_iff false c p q = (λ h. cc, λ h. absurd (cc (p.1 h.0)))

blank_iff : (t : Text) → (is_empty (trim t) ≡ true) ↔ All (λ c. is_whitespace c ≡ true) t
unfolding trim
blank_iff t =
    let same = trim_end_blank (trim_start t) ∙ trim_start_blank t in
    (
      λ h. (all-eq-true is_whitespace t).0 (sym same ∙ h),
      λ h. same ∙ (all-eq-true is_whitespace t).1 h,
    )

pub valid_safe_text_iff :
    (t : Text) (max_chars : ℕ) → (valid_safe_text t max_chars ≡ true) ↔ IsSafeText max_chars t
unfolding valid_safe_text
valid_safe_text_iff t max_chars =
    let chain =
      and_iff (not (is_empty (trim t)) && leb (length t) max_chars) (all safe_character t)
        (and_iff (not (is_empty (trim t))) (leb (length t) max_chars)
          (not_iff (is_empty (trim t)) (blank_iff t)) (leb_iff (length t) max_chars))
        (compose_iff (all-eq-true safe_character t) (All-iff _ _ safe_character_iff t)) in
    (
      λ h. let ((a, b), c) = chain.0 h in record { visible = a; short = b; safe = c },
      λ v. chain.1 ((v.visible, v.short), v.safe),
    )
  where
    leb_iff : (m n : ℕ) → (leb m n ≡ true) ↔ (m ≤ n)
    leb_iff m n = (λ h. ground arith, λ h. ground arith)

-- A reference of bounded length with no control characters.
abbrev pub IsPlain : ℕ → Text → Type 0
IsPlain max_chars t = Between 1 max_chars t × All (λ c. ((32 ≤ c) × (c < 127)) ⊎ (160 ≤ c)) t

printable_iff : (c : ℕ) → (not (is_control c) ≡ true) ↔ (((32 ≤ c) × (c < 127)) ⊎ (160 ≤ c))
unfolding is_control
printable_iff c = (λ h. ground arith, λ h. ground arith)

pub nonempty_iff : (t : Text) → (is_empty t ≡ false) ↔ (1 ≤ length t)
nonempty_iff [] = (λ h. cc, λ h. absurd (omega arith))
nonempty_iff (c ∷ t) = (λ _. omega arith, λ _. refl)

pub ltb-false_iff : (m n : ℕ) → (ltb m n ≡ false) ↔ (n ≤ m)
ltb-false_iff m n = (λ h. ground arith, λ h. ground arith)

pub or-false_iff :
    {P Q : Type 0} (b c : Bool) → (b ≡ false) ↔ P → (c ≡ false) ↔ Q → ((b || c) ≡ false) ↔ (P × Q)
or-false_iff true c p q = (λ h. cc, λ h. absurd (cc (p.1 h.0)))
or-false_iff false c p q = (λ h. (p.0 refl, q.0 h), λ h. q.1 h.1)

pub not-false_iff : {P : Type 0} (b : Bool) → (b ≡ true) ↔ P → (not b ≡ false) ↔ P
not-false_iff true p = (λ _. p.0 refl, λ _. refl)
not-false_iff false p = (λ h. cc, λ h. absurd (cc (p.1 h)))

pub plain_iff :
    (t : Text) → (any_control t ≡ false) ↔ All (λ c. ((32 ≤ c) × (c < 127)) ⊎ (160 ≤ c)) t
plain_iff t =
    not-false_iff (all (λ c. not (is_control c)) t)
      (compose_iff (all-eq-true (λ c. not (is_control c)) t) (All-iff _ _ printable_iff t))
