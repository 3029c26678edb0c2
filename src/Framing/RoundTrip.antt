-- ===== src/Framing/RoundTrip.antt =====
-- A frame that the encoder writes is read back by the decoder (crates/agentmesh-host/src/framing.rs).
use gareji_core.Base.{
  append_assoc, append-nil, ℕ, ◌+◌, ◌-◌, ◌≤◌, ◌≡◌, ◌≢◌, refl, sym, ap, ◌∙◌, true, false, Option,
  some, List, [], ◌∷◌, ◌++◌, codes, All, Result, ok, ltb, nat_beq, length, length-append, take,
  arith, text_ord,
}
use gareji_core.Framing.{
  DecodedFrame, Decoded, FrameDecodeError, FrameDecoder, FrameLimits, Headers, more_of, headers_end,
  headers, parse_headers, ends_line, end_headers, header_step, decode_body, decode_headers,
  decode_from, push, new_decoder, drop,
}
use gareji_core.Framing.Encoding.{encode, show}
use gareji_core.Framing.Lines.{Admits, IsLineByte, headers_read, line_of, line_of-IsLineByte}

-- A byte that is no LF ends no line.
not_ended : (block : List ℕ) (c : ℕ) → c ≢ 10 → ends_line (block ++ (c ∷ [])) ≡ false
unfolding ends_line
not_ended [] c h = refl
not_ended (a ∷ []) c h = ground (arith, h)
not_ended (a ∷ b ∷ []) c h = not_ended (b ∷ []) c h
not_ended (a ∷ b ∷ d ∷ block) c h = not_ended (b ∷ d ∷ block) c h

ended : (block : List ℕ) → ends_line (block ++ (13 ∷ 10 ∷ [])) ≡ true
unfolding ends_line
ended [] = refl
ended (a ∷ []) = refl
ended (a ∷ b ∷ []) = refl
ended (a ∷ b ∷ d ∷ block) = ended (b ∷ d ∷ block)

take-append : (xs ys : List ℕ) → take (length xs) (xs ++ ys) ≡ xs
take-append [] ys = refl
take-append (x ∷ xs) ys = ap (◌∷◌ x) (take-append xs ys)

within_limit : (limit n : ℕ) → n ≤ limit → ltb limit n ≡ false
within_limit limit n h = ground (arith, h)

same_length : (n : ℕ) → nat_beq (n + 2 - 2) n ≡ true
same_length n = ground arith

-- The block with `more` bytes more is within the limits.
abbrev Room : FrameLimits → List ℕ → ℕ → ℕ → Type 0
Room limits block line_start more =
    (length block + more ≤ limits.header_block_max_bytes)
    × (length block + more ≤ limits.header_line_max_bytes + line_start)

module _ (limits : FrameLimits) where
  step_inside :
      (block : List ℕ) (line_start lines c : ℕ)
      → Room limits block line_start 1
      → c ≢ 10
      → header_step limits (block ++ (c ∷ [])) line_start lines
        ≡ more_of (block ++ (c ∷ [])) line_start lines
  unfolding header_step
  step_inside block line_start lines c room h =
      let n : length (block ++ (c ∷ [])) ≡ length block + 1 = length-append block (c ∷ []) in
      let small : ltb limits.header_block_max_bytes (length (block ++ (c ∷ []))) ≡ false =
        ground (arith, n, room.0) in
      let short : ltb limits.header_line_max_bytes (length (block ++ (c ∷ [])) - line_start)
          ≡ false =
        ground (arith, n, room.1) in
      rw (small, short, not_ended block c h) refl

  -- Bytes without an LF are taken one by one.
  run_inside :
      (xs block : List ℕ) (line_start lines : ℕ) (rest : List ℕ)
      → Room limits block line_start (length xs)
      → All (λ c. c ≢ 10) xs
      → decode_headers limits block line_start lines (xs ++ rest)
        ≡ decode_headers limits (block ++ xs) line_start lines rest
  unfolding decode_headers
  run_inside [] block line_start lines rest room h =
      ap (λ b. decode_headers limits b line_start lines rest) (sym (append-nil block))
  run_inside (c ∷ xs) block line_start lines rest room h =
      rw
        (
          decode_headers,
          step_inside block line_start lines c (omega (arith, room), omega (arith, room)) h.0,
        )
        (run_inside xs (block ++ (c ∷ [])) line_start lines rest
            (
              omega (arith, room, length-append block (c ∷ [])),
              omega (arith, room, length-append block (c ∷ [])),
            )
            h.1
          ∙ ap (λ b. decode_headers limits b line_start lines rest)
              (append_assoc block (c ∷ []) xs))

  next_step :
      (xs : List ℕ)
      → 1 ≤ length xs
      → Room limits xs 0 2
      → 1 ≤ limits.header_max_lines
      → header_step limits (xs ++ (13 ∷ 10 ∷ [])) 0 0
        ≡ more_of (xs ++ (13 ∷ 10 ∷ [])) (length xs + 2) 1
  unfolding header_step
  next_step xs some_ room lines =
      let n : length (xs ++ (13 ∷ 10 ∷ [])) ≡ length xs + 2 = length-append xs (13 ∷ 10 ∷ []) in
      let full : nat_beq (length xs + 2 - 2) 0 ≡ false = ground (arith, some_) in
      rw
        (
          n,
          within_limit limits.header_block_max_bytes (length xs + 2) room.0,
          within_limit limits.header_line_max_bytes (length xs + 2 - 0) (omega (arith, room)),
          ended xs,
          full,
          within_limit limits.header_max_lines (0 + 1) lines,
        )
        refl

  next_line :
      (xs rest : List ℕ)
      → 1 ≤ length xs
      → Room limits xs 0 2
      → 1 ≤ limits.header_max_lines
      → decode_headers limits (xs ++ (13 ∷ [])) 0 0 (10 ∷ rest)
        ≡ decode_headers limits (xs ++ (13 ∷ 10 ∷ [])) (length xs + 2) 1 rest
  unfolding decode_headers
  next_line xs rest some_ room lines =
      rw (decode_headers, append_assoc xs (13 ∷ []) (10 ∷ []), next_step xs some_ room lines) refl

  last_step :
      (xs : List ℕ) (lines n : ℕ) (unknown : Headers)
      → Room limits xs (length xs) 2
      → parse_headers limits xs ≡ ok (n, unknown)
      → header_step limits (xs ++ (13 ∷ 10 ∷ [])) (length xs) lines ≡ headers_end n unknown
  unfolding header_step end_headers
  last_step xs lines n unknown room parsed =
      let k : length (xs ++ (13 ∷ 10 ∷ [])) ≡ length xs + 2 = length-append xs (13 ∷ 10 ∷ []) in
      rw
        (
          k,
          within_limit limits.header_block_max_bytes (length xs + 2) room.0,
          within_limit limits.header_line_max_bytes (length xs + 2 - length xs)
              (omega (arith, room)),
          ended xs,
          same_length (length xs),
          take-append xs (13 ∷ 10 ∷ []),
          parsed,
        )
        refl

  last_line :
      (xs rest : List ℕ) (lines n : ℕ) (unknown : Headers)
      → Room limits xs (length xs) 2
      → parse_headers limits xs ≡ ok (n, unknown)
      → decode_headers limits (xs ++ (13 ∷ [])) (length xs) lines (10 ∷ rest)
        ≡ decode_body n unknown rest
  unfolding decode_headers
  last_line xs rest lines n unknown room parsed =
      rw
        (
          decode_headers,
          append_assoc xs (13 ∷ []) (10 ∷ []),
          last_step xs lines n unknown room parsed,
        )
        refl

drop-append : (xs ys : List ℕ) → drop (length xs) (xs ++ ys) ≡ ys
drop-append [] ys = refl
drop-append (x ∷ xs) ys = drop-append xs ys

body_read :
    (body extra : List ℕ)
    → decode_body (length body) [] (body ++ extra)
      ≡ (ok (some (record { body = body; unknown_headers = [] })), extra, headers [] 0 0)
unfolding decode_body
body_read body extra =
    let enough : ltb (length (body ++ extra)) (length body) ≡ false =
      within_limit (length (body ++ extra)) (length body)
        (omega (arith, length-append body extra)) in
    rw (enough, take-append body extra, drop-append body extra) refl

no_lf : (t : List ℕ) → All IsLineByte t → All (λ c. c ≢ 10) (t ++ (13 ∷ []))
no_lf [] h = (λ e. omega (arith, e), tt)
no_lf (c ∷ t) h = (h.0.2, no_lf t h.1)

encoded :
    (body extra : List ℕ)
    → encode body ++ extra
      ≡ (line_of (length body) ++ (13 ∷ [])) ++ (10 ∷ 13 ∷ 10 ∷ (body ++ extra))
unfolding encode
encoded body extra =
    append_assoc (line_of (length body)) (13 ∷ 10 ∷ 13 ∷ 10 ∷ body) extra
    ∙ sym (append_assoc (line_of (length body)) (13 ∷ []) (10 ∷ 13 ∷ 10 ∷ (body ++ extra)))

frame_read :
    (limits : FrameLimits) (body extra : List ℕ)
    → Admits limits (length body)
    → decode_headers limits [] 0 0 (encode body ++ extra)
      ≡ decode_body (length body) [] (body ++ extra)
frame_read limits body extra fits =
    let n = length body in
    let line = line_of n in
    let whole = line ++ (13 ∷ 10 ∷ []) in
    let size : length line ≡ length (show n) + 16 =
      omega (arith, length-append (codes "Content-Length: ") (show n)) in
    let size_cr : length (line ++ (13 ∷ [])) ≡ length line + 1 = length-append line (13 ∷ []) in
    let size_whole : length whole ≡ length line + 2 = length-append line (13 ∷ 10 ∷ []) in
    ap (decode_headers limits [] 0 0) (encoded body extra)
    ∙ (run_inside limits (line ++ (13 ∷ [])) [] 0 0 (10 ∷ 13 ∷ 10 ∷ (body ++ extra))
          (omega (arith, size, size_cr, fits.block), omega (arith, size, size_cr, fits.line))
          (no_lf line (line_of-IsLineByte n))
        ∙ (next_line limits line (13 ∷ 10 ∷ (body ++ extra)) (omega (arith, size))
              (omega (arith, size, fits.block), omega (arith, size, fits.line)) fits.lines
            ∙ (ap (λ k. decode_headers limits whole k 1 (13 ∷ 10 ∷ (body ++ extra)))
                  (sym size_whole)
                ∙ (run_inside limits (13 ∷ []) whole (length whole) 1 (10 ∷ (body ++ extra))
                      (
                        omega (arith, size, size_whole, fits.block),
                        omega (arith, size, size_whole, fits.line),
                      )
                      (λ e. omega (arith, e), tt)
                    ∙ last_line limits whole (body ++ extra) 1 n []
                        (
                          omega (arith, size, size_whole, fits.block),
                          omega (arith, size, size_whole, fits.line),
                        )
                        (headers_read limits n fits)))))

abbrev pushed : FrameLimits → Decoded → Result (Option DecodedFrame) FrameDecodeError × FrameDecoder
pushed limits d = (d.0, record { limits = limits; buf = d.1; state = d.2 })

-- What `FrameEncoder::encode` writes, with any bytes behind it, a new decoder reads back in one push as the
-- body that was encoded, without unknown headers; the bytes behind wait in the decoder, which is ready for the next
-- frame. The limits must have room for the body and for the header that announces it.
pub push-encode :
    (limits : FrameLimits) (body extra : List ℕ)
    → Admits limits (length body)
    → push (new_decoder limits) (encode body ++ extra) ≡ (
      ok (some (record { body = body; unknown_headers = [] })),
      record { limits = limits; buf = extra; state = headers [] 0 0 },
    )
unfolding push new_decoder decode_from
push-encode limits body extra fits =
    ap (λ (d : Decoded). pushed limits d) (frame_read limits body extra fits ∙ body_read body extra)
