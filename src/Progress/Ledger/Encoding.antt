-- ===== src/Progress/Ledger/Encoding.antt =====
-- `hex_sha256` and `sanitize_message` (crates/gareji-core/src/progress/mod.rs).
use gareji_core.Base.{
  take_all, ℕ, zero, suc, ◌+◌, ◌/◌, ◌%◌, ◌<◌, ◌≤◌, ◌≡◌, ◌↔◌, ◌⊎◌, refl, Bool, true, not, ◌||◌, List,
  [], ◌∷◌, Text, ltb, nat_beq, if◌then◌else◌, bytes, take, filter, length, length-take, all,
  all-filter, all-eq-true, All, All-of, All_at, is_control, &&-eq-true, arith,
}
use gareji_core.Progress.Ledger.{Externals}

-- `format!("{byte:02x}")`
unfoldable pub hex_digit : ℕ → ℕ
hex_digit d = if ltb d 10 then b'0' + d else 87 + d

unfoldable pub hex_of : List ℕ → Text
unfolding hex_digit
hex_of [] = []
hex_of (b ∷ rest) = hex_digit (b / 16) ∷ hex_digit (b % 16) ∷ hex_of rest

unfoldable pub hex_sha256 : Externals → Text → Text
unfolding hex_of bytes
hex_sha256 x t = hex_of (x.digest (bytes t))

-- Equal fingerprints are equal digests, as long as a digest is made of bytes.
hex_digit_inj : (a b : ℕ) → a < 16 → b < 16 → hex_digit a ≡ hex_digit b → a ≡ b
unfolding hex_digit
hex_digit_inj a b h k e = ground arith

byte_of_digits : (a b : ℕ) → a / 16 ≡ b / 16 → a % 16 ≡ b % 16 → a ≡ b
byte_of_digits a b h k = omega arith

hex_of_inj :
    (xs ys : List ℕ)
    → All (λ b. b < 256) xs
    → All (λ b. b < 256) ys
    → hex_of xs ≡ hex_of ys
    → xs ≡ ys
unfolding hex_of
hex_of_inj [] [] h k e = refl
hex_of_inj [] (y ∷ ys) h k e = cc
hex_of_inj (x ∷ xs) [] h k e = cc
hex_of_inj (x ∷ xs) (y ∷ ys) h k e =
    let high = hex_digit_inj (x / 16) (y / 16) (omega arith) (omega arith) (cc) in
    let low = hex_digit_inj (x % 16) (y % 16) (omega arith) (omega arith) (cc) in
    let first = byte_of_digits x y high low in let rest = hex_of_inj xs ys h.1 k.1 (cc) in cc

-- SHA-256 gives bytes.
abbrev pub GivesBytes : Externals → Type 0
GivesBytes x = (m : List ℕ) → All (λ b. b < 256) (x.digest m)

-- Where the digest gives bytes, two texts have one fingerprint exactly when their UTF-8 bytes
-- have one digest.
pub hex_sha256_iff :
    (x : Externals) (s t : Text)
    → GivesBytes x
    → (hex_sha256 x s ≡ hex_sha256 x t) ↔ (x.digest (bytes s) ≡ x.digest (bytes t))
unfolding hex_sha256
hex_sha256_iff x s t h = (hex_of_inj _ _ (h (bytes s)) (h (bytes t)), λ e. rw e)

-- `sanitize_message`
unfoldable pub kept_character : ℕ → Bool
kept_character c = not (is_control c) || nat_beq c 10 || nat_beq c 9

unfoldable pub sanitize_message : Text → ℕ → Text
unfolding kept_character
sanitize_message message limit = take limit (filter kept_character message)

all-take : (p : ℕ → Bool) (n : ℕ) (xs : List ℕ) → all p xs ≡ true → all p (take n xs) ≡ true
all-take p zero xs h = refl
all-take p (suc n) [] h = refl
all-take p (suc n) (x ∷ xs) h =
    let (first, rest) = &&-eq-true (p x) (all p xs) h in rw (first, all-take p n xs rest)

pub kept_iff :
    (c : ℕ)
    → (kept_character c ≡ true) ↔ ((c ≡ 9) ⊎ ((c ≡ 10) ⊎ (((32 ≤ c) × (c < 127)) ⊎ (160 ≤ c))))
unfolding kept_character is_control
kept_iff c = (λ h. ground arith, λ h. ground arith)

-- A sanitized message is no longer than its limit and has no control characters but tabs and
-- newlines.
pub sanitize_message_lem :
    (message : Text) (limit : ℕ)
    → (length (sanitize_message message limit) ≤ limit)
      × All
          (λ c. (c ≡ 9) ⊎ ((c ≡ 10) ⊎ (((32 ≤ c) × (c < 127)) ⊎ (160 ≤ c))))
          (sanitize_message message limit)
unfolding sanitize_message
sanitize_message_lem message limit = (
  omega (arith, length-take limit (filter kept_character message)),
  All-of (λ c. (c ≡ 9) ⊎ ((c ≡ 10) ⊎ (((32 ≤ c) × (c < 127)) ⊎ (160 ≤ c))))
      (take limit (filter kept_character message))
      (λ c m. (kept_iff c).0 (
        All_at (λ c. kept_character c ≡ true) c _
          ((all-eq-true kept_character _).0
            (all-take kept_character limit _ (all-filter kept_character message)))
          m)),
)

-- A message that is short and has no control characters but tabs and newlines is kept whole.
filter-all : (p : ℕ → Bool) (xs : List ℕ) → all p xs ≡ true → filter p xs ≡ xs
filter-all p [] h = refl
filter-all p (x ∷ xs) h =
    let (first, rest) = &&-eq-true (p x) (all p xs) h in rw (first, filter-all p xs rest)

pub sanitize_message_fixed :
    (message : Text) (limit : ℕ)
    → length message ≤ limit
    → all kept_character message ≡ true
    → sanitize_message message limit ≡ message
unfolding sanitize_message
sanitize_message_fixed message limit h k =
    rw (filter-all kept_character message k) (take_all limit message h)
