-- ===== src/Progress/Validate/Paths.antt =====
-- What `is_safe_relative_path` keeps out: roots, drive letters and parent traversal.
use mathlib.Core.Path.{subst}
use gareji_core.Base.{
  ℕ, ◌<◌, ◌≡◌, ◌↔◌, inl, inr, refl, ap, sym, Bool, true, false, not, ◌||◌, List, [], ◌∷◌, ◌++◌,
  Text, codes, Elem, all, all-eq-true, All_at, All-of, eq_iff, Bool-cases, eq_refl, arith,
  if◌then◌else◌, bytes, utf8_char, text_ord, ◌==◌, starts_with,
}
use gareji_core.Progress.Validate.{split, slash, normalize, is_safe_relative_path, second_is_colon}
use gareji_core.Progress.Validate.Splitting.{IsSeparator, HasParent, parent_found, found_parent}

-- An absolute path, on Unix or Windows, and a path behind a drive letter or another ASCII character.
abbrev pub IsRooted : Text → Type 0
IsRooted value = (s : ℕ) × (rest : Text) × IsSeparator s × (value ≡ s ∷ rest)

abbrev pub HasDrive : Text → Type 0
HasDrive value = (c : ℕ) × (rest : Text) × (c < 128) × (value ≡ c ∷ b':' ∷ rest)

pub record IsSafePath (value : Text) : Type 0 where
  pub not_rooted : ¬ IsRooted value
  pub no_drive : ¬ HasDrive value
  pub no_parent : ¬ HasParent value

-- The three tests of the code.
rooted_test : (v : Text) → Bool
unfolding starts_with
rooted_test v = starts_with (codes "/") (normalize v) || starts_with (codes "//") (normalize v)

drive_test : (v : Text) → Bool
unfolding second_is_colon
drive_test v = second_is_colon (bytes (normalize v))

slash_first_iff : (v : Text) → (rooted_test v ≡ true) ↔ IsRooted v
unfolding rooted_test
slash_first_iff [] = (λ h. ground arith, λ (s, rest, k, e). cc)
slash_first_iff (x ∷ v) = (λ h. (x, v, ground arith, refl), λ (s, rest, k, e). ground arith)

-- The second byte is a colon only behind a character of one byte.
second_byte :
    (c : ℕ) (rest : List ℕ)
    → second_is_colon (utf8_char c ++ rest) ≡ true
    → (c < 128) × (second_is_colon (c ∷ rest) ≡ true)
unfolding second_is_colon utf8_char
second_byte c rest h = ground arith

colon_first :
    (c x : ℕ) (rest : List ℕ) → second_is_colon (x ∷ (utf8_char c ++ rest)) ≡ true → c ≡ b':'
unfolding second_is_colon utf8_char
colon_first c x rest h = ground arith

drive_sound : (v : Text) → drive_test v ≡ true → HasDrive v
unfolding drive_test bytes
drive_sound [] h = ground arith
drive_sound (x ∷ []) h = ground (arith, second_byte (slash x) [])
drive_sound (x ∷ y ∷ v) h =
    let (small, colon) = second_byte (slash x) (utf8_char (slash y) ++ bytes (normalize v)) h in
    let y' = colon_first (slash y) (slash x) (bytes (normalize v)) colon in
    (x, v, ground arith, ap (λ (c : ℕ). x ∷ c ∷ v) (ground arith))

drive_complete : (v : Text) → HasDrive v → drive_test v ≡ true
unfolding drive_test bytes utf8_char
drive_complete v (c, rest, small, e) = rw e (ground arith)

no_piece_parent : Text → Bool
no_piece_parent v = all (λ part. not (part == codes "..")) (split b'/' (normalize v))

test_parts :
    (r s d fine : Bool)
    → (if r || s || d then false else fine) ≡ true
    → ((r || s) ≡ false) × (d ≡ false) × (fine ≡ true)
test_parts r s d fine h = ground arith

test_of_parts :
    (r s d fine : Bool)
    → (r || s) ≡ false
    → d ≡ false
    → fine ≡ true
    → (if r || s || d then false else fine) ≡ true
test_of_parts r s d fine h k l = ground arith

safe_parts :
    (v : Text)
    → is_safe_relative_path v ≡ true
    → (rooted_test v ≡ false) × (drive_test v ≡ false) × (no_piece_parent v ≡ true)
unfolding is_safe_relative_path rooted_test drive_test no_piece_parent
safe_parts v h =
    test_parts (starts_with (codes "/") (normalize v)) (starts_with (codes "//") (normalize v)) _ _
      h

safe_of_parts :
    (v : Text)
    → rooted_test v ≡ false
    → drive_test v ≡ false
    → no_piece_parent v ≡ true
    → is_safe_relative_path v ≡ true
unfolding is_safe_relative_path rooted_test drive_test no_piece_parent
safe_of_parts v h k l =
    test_of_parts (starts_with (codes "/") (normalize v)) (starts_with (codes "//") (normalize v)) _
      _ h k l

not_true : (b : Bool) → ¬ (b ≡ true) → b ≡ false
not_true true h = absurd (h refl)
not_true false h = refl

pieces_sound : (v : Text) → no_piece_parent v ≡ true → ¬ HasParent v
unfolding no_piece_parent
pieces_sound v h = λ q.
    let m = parent_found q.before q.after q.left q.right in
    let there : Elem (codes "..") (split b'/' (normalize v)) =
      subst (λ t. Elem (codes "..") (split b'/' (normalize t))) (sym q.shape) m in
    let one =
      All_at (λ part. not (part == codes "..") ≡ true) (codes "..") _ ((all-eq-true _ _).0 h)
        there in
    cc (eq_refl (codes ".."), one)

piece_fine :
    (v part : Text)
    → ¬ HasParent v
    → Elem part (split b'/' (normalize v))
    → not (part == codes "..") ≡ true
piece_fine v part h m = elim (Bool-cases (part == codes "..")) [
  | inl e ↦ absurd (
      h (
        found_parent v
          (subst (λ q. Elem q (split b'/' (normalize v))) ((eq_iff part (codes "..")).0 e) m)))
  | inr n ↦ rw n
]

pieces_complete : (v : Text) → ¬ HasParent v → no_piece_parent v ≡ true
unfolding no_piece_parent
pieces_complete v h =
    (all-eq-true _ _).1
      (All-of (λ part. not (part == codes "..") ≡ true) _ (λ part m. piece_fine v part h m))

-- A path is accepted exactly when it is not absolute, does not begin with an ASCII character
-- and a colon, and none of its components is `..`, with slashes and backslashes as separators.
pub is_safe_relative_path_iff : (v : Text) → (is_safe_relative_path v ≡ true) ↔ IsSafePath v
is_safe_relative_path_iff v = (
  λ h.
      let (r, d, p) = safe_parts v h in
      record {
        not_rooted = λ q. cc ((slash_first_iff v).1 q, r);
        no_drive = λ q. cc (drive_complete v q, d);
        no_parent = pieces_sound v p;
      },
  λ s.
      safe_of_parts v (not_true _ (λ e. s.not_rooted ((slash_first_iff v).0 e)))
        (not_true _ (λ e. s.no_drive (drive_sound v e))) (pieces_complete v s.no_parent),
)
