-- ===== src/Framing/Limits.antt =====
-- The decoder keeps to its limits (crates/agentmesh-host/src/framing.rs).
use mathlib.Core.Path.{subst}
use gareji_core.Base.{
  ℕ, ◌+◌, ◌-◌, ◌^◌, ◌≤◌, ◌≡◌, inl, inr, refl, false, not, ◌||◌, Option, none, some, List, [], ◌∷◌,
  ◌++◌, Text, Bool-cases, Result, ok, err, >>=-eq-ok, fail_if, ok_or, ok_or-eq-ok, ltb, leb,
  nat_beq, length, length-take, take, arith, is_empty, all, bytes, map, codes, ◌==◌, text_ord,
  is_ascii_digit, at_most_iff,
}
use gareji_core.Runner.{trim}
use gareji_core.Framing.{
  FrameLimits, FrameDecodeError, invalid_framing, frame_too_large, DecodedFrame, DecodeState,
  FrameDecoder, Headers, headers, body, HeaderStep, more_of, headers_end, refused, decimal,
  parse_length, parse_line, parse_lines, parse_headers, split_once, split_crlf, from_utf8,
  is_valid_header_name, is_valid_header_value, ascii_lower, put_header, is_some, ends_line,
  end_headers, header_step, decode_body, decode_headers, decode_from, push,
}

-- The announced length of a body is within the limit.
abbrev Fits : FrameLimits → Option ℕ → Type 0
Fits limits none = Unit
Fits limits (some n) = n ≤ limits.frame_max_bytes

parse_length-fits :
    (limits : FrameLimits) (value : Text) {n : ℕ}
    → parse_length limits.content_length_digits_max limits.frame_max_bytes value ≡ ok n
    → n ≤ limits.frame_max_bytes
unfolding parse_length
parse_length-fits limits value {n} h =
    let (_, _, r0) =
      >>=-eq-ok (fail_if (is_empty value || not (all is_ascii_digit (bytes value))) invalid_framing)
        _ h in
    let (_, _, r1) =
      >>=-eq-ok
        (fail_if (ltb limits.content_length_digits_max (length (bytes value))) frame_too_large) _
        r0 in
    let (_, _, r2) = >>=-eq-ok (fail_if (leb (2 ^ 64) (decimal 0 value)) frame_too_large) _ r1 in
    let (_, small, last) =
      >>=-eq-ok (fail_if (ltb limits.frame_max_bytes (decimal 0 value)) frame_too_large) _ r2 in
    let e : decimal 0 value ≡ n = cc in
    subst (λ k. k ≤ limits.frame_max_bytes) e
      ((at_most_iff (decimal 0 value) limits.frame_max_bytes frame_too_large).0 small)

parse_line-Fits :
    (limits : FrameLimits) (found : Option ℕ × Headers) (line : Text) {found' : Option ℕ × Headers}
    → Fits limits found.0
    → parse_line limits found line ≡ ok found'
    → Fits limits found'.0
unfolding parse_line
parse_line-Fits limits (content_length, unknown) line {found'} fits h =
    let (parts, _, r0) = >>=-eq-ok (ok_or (split_once line) invalid_framing) _ h in
    let (_, _, r1) =
      >>=-eq-ok
        (fail_if (is_empty (trim parts.0) || not (is_valid_header_name (trim parts.0)))
          invalid_framing)
        _ r0 in
    let (_, _, r2) =
      >>=-eq-ok (fail_if (not (is_valid_header_value (trim parts.1))) invalid_framing) _ r1 in
    elim (Bool-cases (map ascii_lower (trim parts.0) == codes "content-length")) [
      | inl e ↦
          let taken = rw e at r2 in
          let (_, _, r3) = >>=-eq-ok (fail_if (is_some content_length) invalid_framing) _ taken in
          let (n, parsed, last) =
            >>=-eq-ok
              (parse_length limits.content_length_digits_max limits.frame_max_bytes (trim parts.1))
              _ r3 in
          let same : (some n, unknown) ≡ found' = ok-injective last in
          subst (λ q. Fits limits q.0) same (parse_length-fits limits (trim parts.1) parsed)
      | inr n ↦
          let same : (content_length, put_header (trim parts.0) (trim parts.1) unknown) ≡ found' =
            ok-injective (rw n at r2) in
          subst (λ q. Fits limits q.0) same fits
    ]
  where
    ok-injective : {A E : Type 0} {a b : A} → ◌≡◌ {A = Result A E} (ok a) (ok b) → a ≡ b
    ok-injective e = cc

parse_lines-Fits :
    (limits : FrameLimits) (seen : ℕ) (found : Option ℕ × Headers) (lines : List Text)
    {found' : Option ℕ × Headers}
    → Fits limits found.0
    → parse_lines limits seen found lines ≡ ok found'
    → Fits limits found'.0
unfolding parse_lines
parse_lines-Fits limits seen found [] {found'} fits h =
    let e : found ≡ found' = cc in subst (λ q. Fits limits q.0) e fits
parse_lines-Fits limits seen found ([] ∷ lines) fits h =
    parse_lines-Fits limits seen found lines fits h
parse_lines-Fits limits seen found ((c ∷ line) ∷ lines) fits h =
    let (_, _, r0) =
      >>=-eq-ok (fail_if (ltb limits.header_max_lines (seen + 1)) invalid_framing) _ h in
    let (next, parsed, rest) = >>=-eq-ok (parse_line limits found (c ∷ line)) _ r0 in
    parse_lines-Fits limits (seen + 1) next lines
      (parse_line-Fits limits found (c ∷ line) fits parsed) rest

parse_headers-fits :
    (limits : FrameLimits) (block : List ℕ) {n : ℕ} {unknown : Headers}
    → parse_headers limits block ≡ ok (n, unknown)
    → n ≤ limits.frame_max_bytes
unfolding parse_headers
parse_headers-fits limits block {n} {unknown} h =
    let (text, _, r0) = >>=-eq-ok (ok_or (from_utf8 block) invalid_framing) _ h in
    let (found, parsed, r1) = >>=-eq-ok (parse_lines limits 0 (none, []) (split_crlf text)) _ r0 in
    let (k, known, last) = >>=-eq-ok (ok_or found.0 invalid_framing) _ r1 in
    let fits : Fits limits found.0 =
      parse_lines-Fits limits 0 (none, []) (split_crlf text) tt parsed in
    let there = ok_or-eq-ok invalid_framing found.0 known in
    let e : k ≡ n = first_of last in
    subst (λ m. m ≤ limits.frame_max_bytes) e (subst (Fits limits) there fits)
  where
    first_of :
        {k m : ℕ} {s u : Headers}
        → ◌≡◌ {A = Result (ℕ × Headers) FrameDecodeError} (ok (k, s)) (ok (m, u))
        → k ≡ m
    first_of e = cc

-- What a decoder holds between two calls is within the limits.
abbrev pub StateFits : FrameLimits → DecodeState → Type 0
StateFits limits (headers block line_start lines) = length block ≤ limits.header_block_max_bytes
StateFits limits (body n unknown) = n ≤ limits.frame_max_bytes

-- So is what a call returns: a frame, and the state behind it. Behind an error nothing is said.
abbrev pub CallFits :
    FrameLimits → Result (Option DecodedFrame) FrameDecodeError → DecodeState → Type 0
CallFits limits (err e) state = Unit
CallFits limits (ok none) state = StateFits limits state
CallFits limits (ok (some f)) state =
    (length f.body ≤ limits.frame_max_bytes) × StateFits limits state

abbrev pub StepFits : FrameLimits → HeaderStep → Type 0
StepFits limits (more_of block line_start lines) = length block ≤ limits.header_block_max_bytes
StepFits limits (headers_end n unknown) = n ≤ limits.frame_max_bytes
StepFits limits (refused e block line_start lines) = Unit

end_headers-fits :
    (limits : FrameLimits) (block : List ℕ) (line_start lines : ℕ)
    (parsed : Result (ℕ × Headers) FrameDecodeError)
    → parse_headers limits (take line_start block) ≡ parsed
    → StepFits limits (end_headers limits block line_start lines parsed)
unfolding end_headers
end_headers-fits limits block line_start lines (err e) h = tt
end_headers-fits limits block line_start lines (ok (n, unknown)) h =
    parse_headers-fits limits (take line_start block) h

within_block : (m n k l : ℕ) → (ltb m n || ltb l k) ≡ false → n ≤ m
within_block m n k l h = ground arith

pub header_step-fits :
    (limits : FrameLimits) (block : List ℕ) (line_start lines : ℕ)
    → StepFits limits (header_step limits block line_start lines)
unfolding header_step
header_step-fits limits block line_start lines =
    elim (Bool-cases (
      ltb limits.header_block_max_bytes (length block)
      || ltb limits.header_line_max_bytes (length block - line_start))) [
        | inl e ↦ rw e tt
        | inr small ↦
            let fits =
              within_block limits.header_block_max_bytes (length block) (length block - line_start)
                limits.header_line_max_bytes small in
            elim (Bool-cases (ends_line block)) [
              | inr n ↦ rw (small, n) fits
              | inl e ↦ elim (Bool-cases (nat_beq (length block - 2) line_start)) [
                | inl blank ↦
                    rw (small, e, blank)
                      (end_headers-fits limits block line_start lines
                        (parse_headers limits (take line_start block)) refl)
                | inr n ↦ elim (Bool-cases (ltb limits.header_max_lines (lines + 1))) [
                  | inl many ↦ rw (small, e, n, many) tt
                  | inr few ↦ rw (small, e, n, few) fits
                ]
              ]
            ]
      ]

decode_body-fits :
    (limits : FrameLimits) (n : ℕ) (unknown : Headers) (buf : List ℕ)
    → n ≤ limits.frame_max_bytes
    → CallFits limits (decode_body n unknown buf).0 (decode_body n unknown buf).2
unfolding decode_body
decode_body-fits limits n unknown buf fits = elim (Bool-cases (ltb (length buf) n)) [
  | inl short ↦ rw short fits
  | inr full ↦ rw full (omega (arith, fits, length-take n buf), omega arith)
]

decode_headers-fits :
    (limits : FrameLimits) (block : List ℕ) (line_start lines : ℕ) (buf : List ℕ)
    → length block ≤ limits.header_block_max_bytes
    → CallFits limits
        (decode_headers limits block line_start lines buf).0
        (decode_headers limits block line_start lines buf).2
unfolding decode_headers
decode_headers-fits limits block line_start lines [] fits = fits
decode_headers-fits limits block line_start lines (byte ∷ buf) fits =
    go (λ k m n w. decode_headers-fits limits k m n buf w)
      (header_step limits (block ++ (byte ∷ [])) line_start lines) refl
      (header_step-fits limits (block ++ (byte ∷ [])) line_start lines)
  where
    go :
        ((k : List ℕ) (m n : ℕ)
          → length k ≤ limits.header_block_max_bytes
          → CallFits limits (decode_headers limits k m n buf).0 (decode_headers limits k m n buf).2)
        → (s : HeaderStep) → header_step limits (block ++ (byte ∷ [])) line_start lines ≡ s
        → StepFits limits (header_step limits (block ++ (byte ∷ [])) line_start lines)
        → CallFits limits
            (decode_headers limits block line_start lines (byte ∷ buf)).0
            (decode_headers limits block line_start lines (byte ∷ buf)).2
    go again (more_of block' line_start' lines') e w =
        rw (decode_headers, e) (again block' line_start' lines' (rw e at w))
    go again (headers_end n unknown) e w =
        rw (decode_headers, e) (decode_body-fits limits n unknown buf (rw e at w))
    go again (refused f block' line_start' lines') e w = rw (decode_headers, e) tt

decode_from-fits :
    (limits : FrameLimits) (state : DecodeState) (buf : List ℕ)
    → StateFits limits state
    → CallFits limits (decode_from limits state buf).0 (decode_from limits state buf).2
unfolding decode_from
decode_from-fits limits (headers block line_start lines) buf fits =
    decode_headers-fits limits block line_start lines buf fits
decode_from-fits limits (body n unknown) buf fits = decode_body-fits limits n unknown buf fits

-- A decoder whose state is within its limits keeps within them whatever bytes are pushed: the header
-- block that it collects, the length of the body that it waits for, and the frame that it returns.
pub push_within_limits :
    (decoder : FrameDecoder) (incoming : List ℕ)
    → StateFits decoder.limits decoder.state
    → CallFits decoder.limits (push decoder incoming).0 (push decoder incoming).1.state
unfolding push
push_within_limits decoder incoming fits =
    decode_from-fits decoder.limits decoder.state (decoder.buf ++ incoming) fits
