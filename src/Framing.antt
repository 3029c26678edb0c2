-- ===== src/Framing.antt =====
-- Content-Length framing (crates/agentmesh-host/src/framing.rs): the incremental decoder of frames.
-- The bytes that wait in `buf` are the list of them, the first in front.
pub mod Chunks
pub mod Limits
pub mod Numbers
pub mod Encoding
pub mod Lines
pub mod RoundTrip
mod Examples
use gareji_core.Base.{
  ℕ, zero, suc, ◌+◌, ◌-◌, ◌*◌, ◌^◌, ◌<◌, ◌≡◌, Bool, true, false, not, ◌&&◌, ◌||◌, Option, none,
  some, List, [], ◌∷◌, ◌++◌, Text, codes, map, ltb, leb, nat_beq, if◌then◌else◌, Result, ok, err,
  ◌>>=◌, ◌>>◌, fail_if, ok_or, map_err, all, length, take, is_empty, is_ascii_lowercase,
  is_ascii_digit, bytes, ◌==◌, text_ord, text_leq,
}
use gareji_core.Runner.{trim}

pub record FrameLimits : Type 0 where
  pub frame_max_bytes : ℕ
  pub header_block_max_bytes : ℕ
  pub header_line_max_bytes : ℕ
  pub header_max_lines : ℕ
  pub content_length_digits_max : ℕ

-- The errors, without their texts.
pub data FrameDecodeError : Type 0 where
  invalid_framing frame_too_large unexpected_eof : FrameDecodeError

-- `BTreeMap<String, String>`: the entries in the order of their keys.
abbrev pub Headers : Type 0
Headers = List (Text × Text)

unfoldable pub put_header : Text → Text → Headers → Headers
unfolding text_leq
put_header name value [] = (name, value) ∷ []
put_header name value ((key, old) ∷ rest) =
    let later = put_header name value rest in
    if key == name
    then (key, value) ∷ rest
    else if text_leq name key
    then (name, value) ∷ (key, old) ∷ rest
    else (key, old) ∷ later

pub record DecodedFrame : Type 0 where
  pub body : List ℕ
  pub unknown_headers : Headers

pub data DecodeState : Type 0 where
  headers : List ℕ → ℕ → ℕ → DecodeState
  body : ℕ → Headers → DecodeState

pub record FrameDecoder : Type 0 where
  pub limits : FrameLimits
  pub buf : List ℕ
  pub state : DecodeState

abbrev pub drop {ℓ} : {A : Type ℓ} → ℕ → List A → List A
drop zero xs = xs
drop (suc n) [] = []
drop (suc n) (x ∷ xs) = drop n xs

-- A continuation byte of UTF-8.
unfoldable pub continues : ℕ → Bool
continues b = leb 0x80 b && leb b 0xbf

unfoldable pub then_char : ℕ → Option Text → Option Text
then_char c none = none
then_char c (some t) = some (c ∷ t)

-- A character of several bytes that is under way: how many bytes are missing, the bits so far, and the
-- least code point that needs so many bytes.
pub data Utf8State : Type 0 where
  between : Utf8State
  within : ℕ → ℕ → ℕ → Utf8State

unfoldable pub finish_char : ℕ → ℕ → Option (Utf8State × Option ℕ)
finish_char c least =
    if leb least c && not (leb 0xd800 c && leb c 0xdfff) && leb c 0x10ffff
    then some (between, some c)
    else none

unfoldable pub utf8_step : Utf8State → ℕ → Option (Utf8State × Option ℕ)
unfolding continues finish_char
utf8_step between b =
    if ltb b 0x80
    then some (between, some b)
    else if leb 0xc2 b && leb b 0xdf
    then some (within 1 (b - 0xc0) 0x80, none)
    else if leb 0xe0 b && leb b 0xef
    then some (within 2 (b - 0xe0) 0x800, none)
    else if leb 0xf0 b && leb b 0xf4
    then some (within 3 (b - 0xf0) 0x10000, none)
    else none
utf8_step (within missing bits least) b =
    let c = bits * 64 + (b - 0x80) in
    if not (continues b)
    then none
    else if leb missing 1
    then finish_char c least
    else some (within (missing - 1) c least, none)

-- `std::str::from_utf8`: no overlong form, no surrogate, nothing beyond U+10FFFF.
unfoldable pub from_utf8_in : Utf8State → List ℕ → Option Text
unfolding utf8_step then_char
from_utf8_in between [] = some []
from_utf8_in (within missing bits least) [] = none
from_utf8_in s (b ∷ rest) = elim (utf8_step s b) [
  | none ↦ none
  | some (s', none) ↦ from_utf8_in s' rest
  | some (s', some c) ↦ then_char c (from_utf8_in s' rest)
]

unfoldable pub from_utf8 : List ℕ → Option Text
unfolding from_utf8_in
from_utf8 header_bytes = from_utf8_in between header_bytes

-- `text.split("\r\n")`
unfoldable pub onto_line : ℕ → List Text → List Text
onto_line c [] = (c ∷ []) ∷ []
onto_line c (l ∷ ls) = (c ∷ l) ∷ ls

unfoldable pub split_crlf : Text → List Text
unfolding onto_line
split_crlf [] = [] ∷ []
split_crlf (c ∷ []) = (c ∷ []) ∷ []
split_crlf (c ∷ d ∷ t) =
    let whole = onto_line c (split_crlf (d ∷ t)) in
    let rest = [] ∷ split_crlf t in if nat_beq c 13 && nat_beq d 10 then rest else whole

-- `raw_line.split_once(':')`
unfoldable pub before_colon : ℕ → Option (Text × Text) → Option (Text × Text)
before_colon c none = none
before_colon c (some (name, value)) = some (c ∷ name, value)

unfoldable pub split_once : Text → Option (Text × Text)
unfolding before_colon
split_once [] = none
split_once (c ∷ t) =
    let rest = before_colon c (split_once t) in if nat_beq c b':' then some ([], t) else rest

unfoldable pub header_name_byte : ℕ → Bool
unfolding is_ascii_lowercase is_ascii_digit
header_name_byte b =
    is_ascii_lowercase b
    || (leb b'A' b && leb b b'Z')
    || is_ascii_digit b
    || nat_beq b b'-'
    || nat_beq b b'_'

unfoldable pub is_valid_header_name : Text → Bool
unfolding header_name_byte bytes
is_valid_header_name name = not (is_empty name) && all header_name_byte (bytes name)

unfoldable pub is_valid_header_value : Text → Bool
unfolding bytes
is_valid_header_value value = all (λ b. leb 0x20 b && leb b 0x7e) (bytes value)

-- `eq_ignore_ascii_case`
unfoldable pub ascii_lower : ℕ → ℕ
ascii_lower c = if leb b'A' c && leb c b'Z' then c + 32 else c

-- The value of decimal digits, the first in front, behind those of `n`.
unfoldable pub decimal : ℕ → Text → ℕ
decimal n [] = n
decimal n (c ∷ t) = decimal (n * 10 + (c - b'0')) t

-- The value of a Content-Length header.
unfoldable pub parse_length : ℕ → ℕ → Text → Result ℕ FrameDecodeError
unfolding bytes is_ascii_digit decimal
parse_length digits_max frame_max value = do
  fail_if (is_empty value || not (all is_ascii_digit (bytes value))) invalid_framing
  fail_if (ltb digits_max (length (bytes value))) frame_too_large
  fail_if (leb (2 ^ 64) (decimal 0 value)) frame_too_large
  fail_if (ltb frame_max (decimal 0 value)) frame_too_large
  ok (decimal 0 value)

abbrev pub is_some {ℓ} : {A : Type ℓ} → Option A → Bool
is_some none = false
is_some (some a) = true

-- One header line, with what is known so far.
unfoldable pub parse_line :
    FrameLimits → Option ℕ × Headers → Text → Result (Option ℕ × Headers) FrameDecodeError
unfolding split_once trim is_valid_header_name is_valid_header_value ascii_lower parse_length
    put_header
parse_line limits (content_length, unknown) raw_line = do
  parts ← ok_or (split_once raw_line) invalid_framing
  let name = trim parts.0
  let value = trim parts.1
  fail_if (is_empty name || not (is_valid_header_name name)) invalid_framing
  fail_if (not (is_valid_header_value value)) invalid_framing
  let known = (do
    fail_if (is_some content_length) invalid_framing
    n ← parse_length limits.content_length_digits_max limits.frame_max_bytes value
    ok (some n, unknown))
  if map ascii_lower name == codes "content-length"
      then known
      else ok (content_length, put_header name value unknown)

-- The loop over the lines; `seen` counts those that are not empty.
unfoldable pub parse_lines :
    FrameLimits → ℕ → Option ℕ × Headers → List Text → Result (Option ℕ × Headers) FrameDecodeError
unfolding parse_line
parse_lines limits seen found [] = ok found
parse_lines limits seen found ([] ∷ lines) = parse_lines limits seen found lines
parse_lines limits seen found ((c ∷ line) ∷ lines) = do
  fail_if (ltb limits.header_max_lines (seen + 1)) invalid_framing
  found' ← parse_line limits found (c ∷ line)
  parse_lines limits (seen + 1) found' lines

unfoldable pub parse_headers : FrameLimits → List ℕ → Result (ℕ × Headers) FrameDecodeError
unfolding from_utf8 split_crlf parse_lines
parse_headers limits header_bytes = do
  text ← ok_or (from_utf8 header_bytes) invalid_framing
  found ← parse_lines limits 0 (none, []) (split_crlf text)
  n ← ok_or found.0 invalid_framing
  ok (n, found.1)

-- The last two bytes are CR LF.
unfoldable pub ends_line : List ℕ → Bool
ends_line [] = false
ends_line (a ∷ []) = false
ends_line (a ∷ b ∷ []) = nat_beq a 13 && nat_beq b 10
ends_line (a ∷ b ∷ c ∷ rest) = ends_line (b ∷ c ∷ rest)

-- What a call of `try_decode` returns, with the bytes that still wait and the state.
abbrev pub Decoded : Type 0
Decoded = Result (Option DecodedFrame) FrameDecodeError × List ℕ × DecodeState

-- The branch `Body` of `try_decode`.
unfoldable pub decode_body : ℕ → Headers → List ℕ → Decoded
decode_body n unknown buf = if ltb (length buf) n then (ok none, buf, body n unknown) else (
  ok (some (record { body = take n buf; unknown_headers = unknown })),
  drop n buf,
  headers [] 0 0,
)

-- What the loop does with the header byte that it moved to the end of `block`.
pub data HeaderStep : Type 0 where
  more_of : List ℕ → ℕ → ℕ → HeaderStep
  headers_end : ℕ → Headers → HeaderStep
  refused : FrameDecodeError → List ℕ → ℕ → ℕ → HeaderStep

unfoldable pub end_headers :
    FrameLimits → List ℕ → ℕ → ℕ → Result (ℕ × Headers) FrameDecodeError → HeaderStep
end_headers limits block line_start lines (err e) = refused e block line_start lines
end_headers limits block line_start lines (ok (n, unknown)) = headers_end n unknown

unfoldable pub header_step : FrameLimits → List ℕ → ℕ → ℕ → HeaderStep
unfolding end_headers parse_headers ends_line
header_step limits block line_start lines =
    if ltb limits.header_block_max_bytes (length block)
      || ltb limits.header_line_max_bytes (length block - line_start)
    then refused invalid_framing block line_start lines
    else if not (ends_line block)
    then more_of block line_start lines
    else if nat_beq (length block - 2) line_start
    then end_headers limits block line_start lines (parse_headers limits (take line_start block))
    else if ltb limits.header_max_lines (lines + 1)
    then refused invalid_framing block line_start (lines + 1)
    else more_of block (length block) (lines + 1)

-- The branch `Headers` of `try_decode` and its loop.
unfoldable pub decode_headers : FrameLimits → List ℕ → ℕ → ℕ → List ℕ → Decoded
unfolding decode_body header_step
decode_headers limits block line_start lines [] = (ok none, [], headers block line_start lines)
decode_headers limits block line_start lines (byte ∷ buf) =
    elim (header_step limits (block ++ (byte ∷ [])) line_start lines) [
      | more_of block' line_start' lines' ↦ decode_headers limits block' line_start' lines' buf
      | headers_end n unknown ↦ decode_body n unknown buf
      | refused e block' line_start' lines' ↦ (err e, buf, headers block' line_start' lines')
    ]

unfoldable pub decode_from : FrameLimits → DecodeState → List ℕ → Decoded
unfolding decode_headers decode_body
decode_from limits (headers block line_start lines) buf =
    decode_headers limits block line_start lines buf
decode_from limits (body n unknown) buf = decode_body n unknown buf

-- `FrameDecoder::push`
unfoldable pub push :
    FrameDecoder → List ℕ → Result (Option DecodedFrame) FrameDecodeError × FrameDecoder
unfolding decode_from
push decoder data_ =
    let (result, buf, state) = decode_from decoder.limits decoder.state (decoder.buf ++ data_) in
    (result, record { limits = decoder.limits; buf = buf; state = state })

-- `FrameDecoder::new`
unfoldable pub new_decoder : FrameLimits → FrameDecoder
new_decoder limits = record { limits = limits; buf = []; state = headers [] 0 0 }

-- `FrameDecoder::finish`
unfoldable pub finish : FrameDecoder → Result (Option DecodedFrame) FrameDecodeError × FrameDecoder
unfolding decode_from
finish decoder = elim decoder.buf [
  | [] ↦ (
    elim decoder.state [
      | headers block line_start lines ↦ if is_empty block then ok none else err unexpected_eof
      | body n unknown ↦ err unexpected_eof
    ],
    decoder,
  )
  | byte ∷ rest ↦
      let (result, buf, state) = decode_from decoder.limits decoder.state (byte ∷ rest) in
      (
        (result >>= λ frame. elim frame [ none ↦ err unexpected_eof | some f ↦ ok (some f) ]),
        record { limits = decoder.limits; buf = buf; state = state },
      )
]
