-- ===== src/Framing/Lines.antt =====
-- The header of an encoded frame (crates/agentmesh-host/src/framing.rs) as the decoder reads it.
use gareji_core.Base.{
  All-append, ℕ, ◌+◌, ◌^◌, ◌≤◌, ◌<◌, ◌≡◌, ◌≢◌, refl, Bool, true, false, not, ◌&&◌, none, some, [],
  ◌∷◌, ◌++◌, Text, codes, All, ok, ltb, leb, nat_beq, length, arith, all, text_ord, text_leq, ◌==◌,
}
use gareji_core.Framing.{
  FrameLimits, then_char, utf8_step, between, from_utf8_in, from_utf8, onto_line, split_crlf,
  before_colon, split_once, parse_length, parse_line, parse_lines, parse_headers,
}
use gareji_core.Framing.Encoding.{show}
use gareji_core.Framing.Numbers.{
  IsDigit, all_digits, bytes_digits, decimal-show, digits_value, show-IsDigit, show_some,
  trim_digits,
}

-- A byte of a header line: ASCII, and neither CR nor LF.
abbrev pub IsLineByte : ℕ → Type 0
IsLineByte c = (c < 128) × (c ≢ 13) × (c ≢ 10)

abbrev pub line_of : ℕ → Text
line_of n = codes "Content-Length: " ++ show n

-- Reading the bytes as text.
ascii : (t : Text) → All (λ c. c < 128) t → from_utf8_in between t ≡ some t
unfolding from_utf8_in utf8_step then_char
ascii [] h = refl
ascii (c ∷ t) h =
    let small : ltb c 0x80 ≡ true = ground (arith, h.0) in
    rw (from_utf8_in, small, ascii t h.1) refl

split_line : (t : Text) → All IsLineByte t → split_crlf (t ++ (13 ∷ 10 ∷ [])) ≡ t ∷ [] ∷ []
unfolding split_crlf onto_line
split_line [] h = refl
split_line (c ∷ []) h = let no : nat_beq c 13 ≡ false = ground (arith, h.0.1) in rw no refl
split_line (c ∷ d ∷ t) h =
    let no : nat_beq c 13 ≡ false = ground (arith, h.0.1) in rw (no, split_line (d ∷ t) h.1) refl

header_name-IsLineByte : All IsLineByte (codes "Content-Length: ")
header_name-IsLineByte = bytes_ok (codes "Content-Length: ") refl
  where
    ok_byte : ℕ → Bool
    ok_byte c = ltb c 128 && (not (nat_beq c 13) && not (nat_beq c 10))

    bytes_ok : (t : Text) → all ok_byte t ≡ true → All IsLineByte t
    bytes_ok [] h = tt
    bytes_ok (c ∷ t) h = ((ground arith, ground arith, ground arith), bytes_ok t (ground arith))

digits-IsLineByte : (t : Text) → All IsDigit t → All IsLineByte t
digits-IsLineByte [] h = tt
digits-IsLineByte (c ∷ t) h =
    ((omega (arith, h.0), omega (arith, h.0), omega (arith, h.0)), digits-IsLineByte t h.1)

pub line_of-IsLineByte : (n : ℕ) → All IsLineByte (line_of n)
line_of-IsLineByte n =
    All-append IsLineByte (codes "Content-Length: ") (show n) header_name-IsLineByte
      (digits-IsLineByte (show n) (show-IsDigit n))

line_ascii : (t : Text) → All IsLineByte t → All (λ c. c < 128) (t ++ (13 ∷ 10 ∷ []))
line_ascii [] h = (omega arith, (omega arith, tt))
line_ascii (c ∷ t) h = (h.0.0, line_ascii t h.1)

-- The limits have room for a body of `n` bytes and for the header that announces it.
pub record Admits (limits : FrameLimits) (n : ℕ) : Type 0 where
  pub frame : n ≤ limits.frame_max_bytes
  pub word : n < 2 ^ 64
  pub digits : length (show n) ≤ limits.content_length_digits_max
  pub line : length (show n) + 18 ≤ limits.header_line_max_bytes
  pub block : length (show n) + 20 ≤ limits.header_block_max_bytes
  pub lines : 1 ≤ limits.header_max_lines

module _ (limits : FrameLimits) (n : ℕ) (fits : Admits limits n) where
  length_read : parse_length limits.content_length_digits_max limits.frame_max_bytes (show n) ≡ ok n
  unfolding parse_length
  length_read =
      let many : ltb limits.content_length_digits_max (length (show n)) ≡ false =
        ground (arith, fits.digits) in
      let wide : leb (2 ^ 64) n ≡ false = ground (arith, fits.word) in
      let large : ltb limits.frame_max_bytes n ≡ false = ground (arith, fits.frame) in
      rw
        (
          show_some n,
          bytes_digits (show n) (show-IsDigit n),
          all_digits (show n) (show-IsDigit n),
          many,
          decimal-show n,
          wide,
          large,
        )
        refl

  line_read : parse_line limits (none, []) (line_of n) ≡ ok (some n, [])
  unfolding parse_line split_once before_colon ◌==◌ text_leq
  line_read =
      rw
        (trim_digits (show n) (show-IsDigit n), digits_value (show n) (show-IsDigit n), length_read)
        refl

  pub headers_read : parse_headers limits (line_of n ++ (13 ∷ 10 ∷ [])) ≡ ok (n, [])
  unfolding parse_headers parse_lines from_utf8
  headers_read =
      let few : ltb limits.header_max_lines 1 ≡ false = ground (arith, fits.lines) in
      rw
        (
          ascii (line_of n ++ (13 ∷ 10 ∷ [])) (line_ascii (line_of n) (line_of-IsLineByte n)),
          split_line (line_of n) (line_of-IsLineByte n),
          few,
          line_read,
        )
        refl
