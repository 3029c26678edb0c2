-- ===== src/Framing/Numbers.antt =====
-- The length that an encoded frame announces (crates/agentmesh-host/src/framing.rs): decimal digits
-- read back as the number that was printed.
use gareji_core.Base.{
  All-append, ℕ, zero, suc, ◌+◌, ◌*◌, ◌-◌, ◌/◌, ◌%◌, ◌≤◌, ◌≡◌, inl, inr, refl, ap, ◌∙◌, Bool, true,
  false, ◌&&◌, [], ◌∷◌, ◌++◌, Text, All, Bool-cases, ltb, leb, arith, bytes, utf8_char,
  is_ascii_digit, is_whitespace, is_empty, all, if◌then◌else◌,
}
use gareji_core.Runner.{trim, trim_start, trim_end}
use gareji_core.Framing.{decimal, is_valid_header_value}
use gareji_core.Framing.Encoding.{digits, show}

-- A decimal digit.
abbrev pub IsDigit : ℕ → Type 0
IsDigit c = (48 ≤ c) × (c ≤ 57)

digits-IsDigit : (fuel n : ℕ) → All IsDigit (digits fuel n)
unfolding digits
digits-IsDigit zero n = ((omega arith, omega arith), tt)
digits-IsDigit (suc fuel) n = elim (Bool-cases (ltb n 10)) [
  | inl e ↦ rw e ((omega arith, ground arith), tt)
  | inr e ↦ rw e (
      All-append IsDigit (digits fuel (n / 10)) ((48 + n % 10) ∷ []) (digits-IsDigit fuel (n / 10))
        ((omega arith, omega arith), tt))
]

pub show-IsDigit : (n : ℕ) → All IsDigit (show n)
unfolding show
show-IsDigit n = digits-IsDigit n n

append-ne : (xs : Text) (c : ℕ) → is_empty (xs ++ (c ∷ [])) ≡ false
append-ne [] c = refl
append-ne (x ∷ xs) c = refl

pub show_some : (n : ℕ) → is_empty (show n) ≡ false
unfolding show digits
show_some zero = refl
show_some (suc n) = elim (Bool-cases (ltb (suc n) 10)) [
  | inl e ↦ rw e refl
  | inr e ↦ rw e (append-ne (digits n (suc n / 10)) _)
]

decimal-append :
    (m : ℕ) (xs : Text) (c : ℕ) → decimal m (xs ++ (c ∷ [])) ≡ decimal m xs * 10 + (c - 48)
unfolding decimal
decimal-append m [] c = refl
decimal-append m (x ∷ xs) c = decimal-append (m * 10 + (x - 48)) xs c

decimal-digits : (fuel n : ℕ) → n ≤ fuel → decimal 0 (digits fuel n) ≡ n
unfolding digits decimal
decimal-digits zero n h = omega (arith, h)
decimal-digits (suc fuel) n h = elim (Bool-cases (ltb n 10)) [
  | inl e ↦ rw e (omega arith)
  | inr e ↦ rw e (
      decimal-append 0 (digits fuel (n / 10)) (48 + n % 10)
      ∙ (ap (λ m. m * 10 + (48 + n % 10 - 48)) (decimal-digits fuel (n / 10) (ground arith))
          ∙ omega arith))
]

pub decimal-show : (n : ℕ) → decimal 0 (show n) ≡ n
unfolding show
decimal-show n = decimal-digits n n (omega arith)

pub bytes_digits : (t : Text) → All IsDigit t → bytes t ≡ t
unfolding bytes utf8_char
bytes_digits [] h = refl
bytes_digits (c ∷ t) h =
    let small : ltb c 0x80 ≡ true = ground (arith, h.0) in
    rw small (ap (◌∷◌ c) (bytes_digits t h.1))

pub all_digits : (t : Text) → All IsDigit t → all is_ascii_digit t ≡ true
unfolding is_ascii_digit
all_digits [] h = refl
all_digits (c ∷ t) h = rw (all_digits t h.1) (ground (arith, h.0))

pub digits_value : (t : Text) → All IsDigit t → is_valid_header_value t ≡ true
unfolding is_valid_header_value
digits_value t h = rw (bytes_digits t h) (go t h)
  where
    go : (t : Text) → All IsDigit t → all (λ b. leb 0x20 b && leb b 0x7e) t ≡ true
    go [] h = refl
    go (c ∷ t) h = rw (go t h.1) (ground (arith, h.0))

digit_not_space : (c : ℕ) → IsDigit c → is_whitespace c ≡ false
unfolding is_whitespace
digit_not_space c h = ground (arith, h)

trim_end_digits : (t : Text) → All IsDigit t → trim_end t ≡ t
unfolding trim_end
trim_end_digits [] h = refl
trim_end_digits (c ∷ t) h = rw (trim_end_digits t h.1, digit_not_space c h.0) (go (is_empty t))
  where
    go : (b : Bool) → (if b && false then [] else c ∷ t) ≡ c ∷ t
    go true = refl
    go false = refl

-- The blank behind the colon is taken off.
pub trim_digits : (t : Text) → All IsDigit t → trim (32 ∷ t) ≡ t
unfolding trim trim_start is_whitespace
trim_digits [] h = unfold trim_end in refl
trim_digits (c ∷ t) h =
    let here : is_whitespace c ≡ false = digit_not_space c h.0 in
    rw here (trim_end_digits (c ∷ t) h)
