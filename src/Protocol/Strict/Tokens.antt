-- ===== src/Protocol/Strict/Tokens.antt =====
-- The parts of the parser of crates/agentmesh-proto/src/json_strict.rs below its recursion (white
-- space, literals, strings and numbers): what each leaves of the text is shorter.
use gareji_core.Base.{
  ℕ, zero, suc, ◌≤◌, ◌<◌, ◌≡◌, inl, inr, Bool, true, false, Option, none, some, [], ◌∷◌, Text,
  nat_beq, if◌then◌else◌, Result, ok, err, ◌>>=◌, length, Bool-cases, Option-cases, arith, text_ord,
  starts_with,
}
use gareji_core.RunContract.{Value, string, array, object}
use gareji_core.Framing.{drop}
use gareji_core.Protocol.Strict.{
  Scalars, refused, exhausted, Parsed, skip_ws, expect_char, parse_literal, then_slice, scan_string,
  string_value, parse_string, number_char, number_span, number_value, parse_number, lead,
  leads_number, closes, invalid,
}

-- The parser ends, and what it leaves is shorter than `n`.
abbrev pub Ends : {A : Type 0} → ℕ → Parsed A → Type 0
Ends n (ok (a, rest)) = length rest < n
Ends n (err (refused e)) = Unit
Ends n (err exhausted) = ⊥

pub Ends-bind :
    {A B : Type 0} (n m : ℕ) (p : Parsed A) (k : A × Text → Parsed B)
    → Ends m p
    → ((a : A) (rest : Text) → length rest < m → Ends n (k (a, rest)))
    → Ends n (p >>= k)
Ends-bind n m (ok (a, rest)) k h next = next a rest h
Ends-bind n m (err (refused e)) k h next = tt
Ends-bind n m (err exhausted) k h next = absurd h

pub length-skip_ws-le : (t : Text) → length (skip_ws t) ≤ length t
unfolding skip_ws
length-skip_ws-le [] = omega arith
length-skip_ws-le (c ∷ t) = ground (arith, length-skip_ws-le t)

length-drop-le : (n : ℕ) (t : Text) → length (drop n t) ≤ length t
length-drop-le zero t = omega arith
length-drop-le (suc n) [] = omega arith
length-drop-le (suc n) (c ∷ t) = omega (arith, length-drop-le n t)

pub parse_literal-Ends :
    (l : ℕ) (lit : Text) (v : Value) (c : ℕ) (t : Text)
    → Ends (suc (length t)) (parse_literal (l ∷ lit) v (c ∷ t))
unfolding parse_literal
parse_literal-Ends l lit v c t = elim (Bool-cases (starts_with (l ∷ lit) (c ∷ t))) [
  | inl e ↦ rw e (omega (arith, length-drop-le (length lit) t))
  | inr e ↦ rw e tt
]

scan_string-shorter :
    (escaped : Bool) (t : Text) {slice rest : Text}
    → scan_string escaped t ≡ some (slice, rest)
    → length rest < length t
unfolding scan_string then_slice
scan_string-shorter escaped [] h = cc
scan_string-shorter true (c ∷ t) {slice} {rest} h = elim (Option-cases (scan_string false t)) [
  | inl e ↦ absurd (cc (rw e at h))
  | inr ((s, r), e) ↦ ground (arith, scan_string-shorter false t e)
]
scan_string-shorter false (c ∷ t) h = elim (Option-cases (scan_string (nat_beq c 92) t)) [
  | inl e ↦ ground arith
  | inr ((s, r), e) ↦ ground (arith, scan_string-shorter (nat_beq c 92) t e)
]

string_value-Ends :
    (n : ℕ) (rest : Text) (r : Result Value Text) → length rest < n → Ends n (string_value rest r)
unfolding string_value
string_value-Ends n rest (ok (string s)) h = h
string_value-Ends n rest (ok Value.null) h = tt
string_value-Ends n rest (ok (Value.bool b)) h = tt
string_value-Ends n rest (ok (Value.number s)) h = tt
string_value-Ends n rest (ok (array vs)) h = tt
string_value-Ends n rest (ok (object es)) h = tt
string_value-Ends n rest (err e) h = tt

pub parse_string-Ends : (scalars : Scalars) (t : Text) → Ends (length t) (parse_string scalars t)
unfolding parse_string
parse_string-Ends scalars [] = tt
parse_string-Ends scalars (c ∷ t) = elim (Bool-cases (nat_beq c 34)) [
  | inr e ↦ rw e tt
  | inl e ↦ rw e (elim (Option-cases (scan_string false t)) [
    | inl none_ ↦ rw none_ tt
    | inr ((slice, rest), found) ↦ rw found (
        string_value-Ends (suc (length t)) rest (scalars.string_of (c ∷ slice))
          (omega (arith, scan_string-shorter false t found)))
  ])
]

pub expect_char-Ends : (c : ℕ) (t : Text) → Ends (length t) (expect_char c t)
unfolding expect_char
expect_char-Ends c t = go (skip_ws t) (length-skip_ws-le t)
  where
    go :
        (s : Text)
        → length s ≤ length t
        → Ends {A = Unit}
            (length t)
            (elim s [ [] ↦ invalid | d ∷ rest ↦ if nat_beq d c then ok (tt, rest) else invalid ])
    go [] h = tt
    go (d ∷ rest) h = elim (Bool-cases (nat_beq d c)) [
      | inl e ↦ rw e (omega (arith, h))
      | inr e ↦ rw e tt
    ]

number_span-le : (t : Text) → length (number_span t).1 ≤ length t
unfolding number_span
number_span-le [] = omega arith
number_span-le (c ∷ t) = ground (arith, number_span-le t)

pub lead-number : (c : ℕ) → lead c ≡ leads_number → number_char c ≡ true
unfolding lead number_char
lead-number c h = ground arith

number_value-Ends :
    (n : ℕ) (rest : Text) (r : Result Value Text) → length rest < n → Ends n (number_value rest r)
unfolding number_value
number_value-Ends n rest (ok v) h = h
number_value-Ends n rest (err e) h = tt

pub parse_number-Ends :
    (scalars : Scalars) (c : ℕ) (t : Text)
    → number_char c ≡ true
    → Ends (suc (length t)) (parse_number scalars (c ∷ t))
unfolding parse_number number_span
parse_number-Ends scalars c t h = rw h (
    number_value-Ends (suc (length t)) (number_span t).1 (scalars.number_of (c ∷ (number_span t).0))
      (omega (arith, number_span-le t)))

pub closes-shorter :
    (c : ℕ) (t : Text) {rest : Text} → closes c t ≡ some rest → length rest < length t
unfolding closes
closes-shorter c t {rest} h = go (skip_ws t) (length-skip_ws-le t) h
  where
    go :
        (s : Text)
        → length s ≤ length t
        → ◌≡◌ {A = Option Text}
            (elim s [ [] ↦ none | d ∷ rest' ↦ if nat_beq d c then some rest' else none ])
            (some rest)
        → length rest < length t
    go [] k e = cc
    go (d ∷ rest') k e = ground arith

pub Ends-le : {A : Type 0} (m n : ℕ) (p : Parsed A) → m ≤ n → Ends m p → Ends n p
Ends-le m n (ok (a, rest)) k h = omega (arith, h, k)
Ends-le m n (err (refused e)) k h = tt
Ends-le m n (err exhausted) k h = absurd h

-- Where nothing but a constructor is put around the value.
pub Ends-wrap :
    {A B : Type 0} (n m : ℕ) (f : A → B) (p : Parsed A)
    → m ≤ n
    → Ends m p
    → Ends n (p >>= λ a. ok (f a.0, a.1))
Ends-wrap n m f p h e = Ends-bind n m p (λ a. ok (f a.0, a.1)) e (λ a rest k. omega (arith, h, k))
