-- ===== src/Host/Streams/Reading.antt =====
-- Reading a frame ends (crates/agentmesh-host/src/run.rs): each read that completes no frame leaves
-- more in the decoder, and what it can hold is bounded.
use mathlib.Core.Path.{subst}
use gareji_core.Base.{
  ℕ, zero, suc, ◌+◌, ◌-◌, ◌≤◌, ◌<◌, ◌≡◌, ◌≢◌, refl, sym, ap, Bool, true, false, ◌||◌, none, some,
  List, [], ◌∷◌, ◌++◌, Result, ok, err, length, take, length-append, ltb, nat_beq, arith,
  Bool-cases, inl, inr,
}
use gareji_core.Framing.{
  DecodeState, Decoded, FrameDecodeError, FrameDecoder, FrameLimits, Headers, HeaderStep, body,
  headers, more_of, headers_end, refused, header_step, end_headers, parse_headers, ends_line,
  decode_body, decode_headers, decode_from, push, new_decoder,
}
use gareji_core.Framing.Limits.{StepFits, header_step-fits}
use gareji_core.Host.{Os, ReadOutcome, elapsed, closed, received, read_failed}
use gareji_core.Host.Streams.{
  ReadStep, done, again, on_push, on_read, read_round, read_loop, read_fuel, read_one_frame,
}

-- How much a decoder holds: bytes of a body count on top of a full header block.
abbrev held : FrameLimits → List ℕ → DecodeState → ℕ
held limits buf (headers block line_start lines) = length block
held limits buf (body n unknown) = limits.header_block_max_bytes + 1 + length buf

-- Between two reads no byte waits before the headers are complete, and fewer than announced behind.
abbrev Waiting : FrameLimits → List ℕ → DecodeState → Type 0
Waiting limits buf (headers block line_start lines) =
    (buf ≡ []) × (length block ≤ limits.header_block_max_bytes)
Waiting limits buf (body n unknown) = (length buf < n) × (n ≤ limits.frame_max_bytes)

-- A call that completes no frame holds at least `k`.
abbrev Holds : FrameLimits → ℕ → Decoded → Type 0
Holds limits k (err e, buf, state) = Unit
Holds limits k (ok (some f), buf, state) = Unit
Holds limits k (ok none, buf, state) = Waiting limits buf state × (k ≤ held limits buf state)

-- A step that goes on leaves the block as it is.
abbrev Same : List ℕ → HeaderStep → Type 0
Same block (more_of block' line_start lines) = block' ≡ block
Same block (headers_end n unknown) = Unit
Same block (refused e block' line_start lines) = Unit

end_headers-Same :
    (limits : FrameLimits) (block : List ℕ) (line_start lines : ℕ)
    (parsed : Result (ℕ × Headers) FrameDecodeError)
    → Same block (end_headers limits block line_start lines parsed)
unfolding end_headers
end_headers-Same limits block line_start lines (err e) = tt
end_headers-Same limits block line_start lines (ok (n, unknown)) = tt

header_step-Same :
    (limits : FrameLimits) (block : List ℕ) (line_start lines : ℕ)
    → Same block (header_step limits block line_start lines)
unfolding header_step
header_step-Same limits block line_start lines =
    elim (Bool-cases (
      ltb limits.header_block_max_bytes (length block)
      || ltb limits.header_line_max_bytes (length block - line_start))) [
        | inl e ↦ rw e tt
        | inr small ↦ elim (Bool-cases (ends_line block)) [
          | inr n ↦ rw (small, n) refl
          | inl e ↦ elim (Bool-cases (nat_beq (length block - 2) line_start)) [
            | inl blank ↦
                rw (small, e, blank)
                  (end_headers-Same limits block line_start lines
                    (parse_headers limits (take line_start block)))
            | inr n ↦ elim (Bool-cases (ltb limits.header_max_lines (lines + 1))) [
              | inl many ↦ rw (small, e, n, many) tt
              | inr few ↦ rw (small, e, n, few) refl
            ]
          ]
        ]
      ]

decode_body-Holds :
    (limits : FrameLimits) (n : ℕ) (unknown : Headers) (buf : List ℕ)
    → n ≤ limits.frame_max_bytes
    → Holds limits (limits.header_block_max_bytes + 1 + length buf) (decode_body n unknown buf)
unfolding decode_body
decode_body-Holds limits n unknown buf fits = elim (Bool-cases (ltb (length buf) n)) [
  | inl short ↦ rw short ((ground arith, fits), omega arith)
  | inr full ↦ rw full tt
]

Holds-le :
    (limits : FrameLimits) (j k : ℕ) (d : Decoded) → j ≤ k → Holds limits k d → Holds limits j d
Holds-le limits j k (err e, buf, state) h d = tt
Holds-le limits j k (ok (some f), buf, state) h d = tt
Holds-le limits j k (ok none, buf, state) h d = (d.0, omega (arith, h, d.1))

decode_headers-Holds :
    (limits : FrameLimits) (block : List ℕ) (line_start lines : ℕ) (buf : List ℕ)
    → length block ≤ limits.header_block_max_bytes
    → Holds limits (length block + length buf) (decode_headers limits block line_start lines buf)
unfolding decode_headers
decode_headers-Holds limits block line_start lines [] fits = ((refl, fits), omega arith)
decode_headers-Holds limits block line_start lines (byte ∷ buf) fits =
    go (λ block' m n k. decode_headers-Holds limits block' m n buf k)
      (header_step limits (block ++ (byte ∷ [])) line_start lines) refl
      (header_step-fits limits (block ++ (byte ∷ [])) line_start lines)
      (header_step-Same limits (block ++ (byte ∷ [])) line_start lines)
  where
    go :
        ((block' : List ℕ) (m n : ℕ)
          → length block' ≤ limits.header_block_max_bytes
          → Holds limits (length block' + length buf) (decode_headers limits block' m n buf))
        → (s : HeaderStep) → header_step limits (block ++ (byte ∷ [])) line_start lines ≡ s
        → StepFits limits s
        → Same (block ++ (byte ∷ [])) s
        → Holds limits
            (length block + suc (length buf))
            (decode_headers limits block line_start lines (byte ∷ buf))
    go recur (more_of block' m n) e k same =
        rw (decode_headers, e)
          (Holds-le limits (length block + suc (length buf)) (length block' + length buf) _
            (omega (arith, ap length same, length-append block (byte ∷ []))) (recur block' m n k))
    go recur (headers_end n unknown) e k same =
        rw (decode_headers, e)
          (Holds-le limits (length block + suc (length buf))
            (limits.header_block_max_bytes + 1 + length buf) _ (omega (arith, fits))
            (decode_body-Holds limits n unknown buf k))
    go recur (refused f block' m n) e k same = rw (decode_headers, e) tt

decode_from-Holds :
    (limits : FrameLimits) (buf : List ℕ) (state : DecodeState) (byte : ℕ) (bytes : List ℕ)
    → Waiting limits buf state
    → Holds limits (suc (held limits buf state)) (decode_from limits state (buf ++ (byte ∷ bytes)))
unfolding decode_from
decode_from-Holds limits buf (headers block line_start lines) byte bytes w =
    subst
      (λ b.
        Holds limits (suc (length block))
          (decode_headers limits block line_start lines (b ++ (byte ∷ bytes))))
      (sym w.0)
      (Holds-le limits (suc (length block)) (length block + suc (length bytes)) _ (omega arith)
        (decode_headers-Holds limits block line_start lines (byte ∷ bytes) w.1))
decode_from-Holds limits buf (body n unknown) byte bytes w =
    Holds-le limits (suc (limits.header_block_max_bytes + 1 + length buf))
      (limits.header_block_max_bytes + 1 + length (buf ++ (byte ∷ bytes))) _
      (omega (arith, length-append buf (byte ∷ bytes)))
      (decode_body-Holds limits n unknown (buf ++ (byte ∷ bytes)) w.1)

held-le :
    (limits : FrameLimits) (buf : List ℕ) (state : DecodeState)
    → Waiting limits buf state
    → held limits buf state ≤ limits.header_block_max_bytes + limits.frame_max_bytes + 1
held-le limits buf (headers block line_start lines) w = omega (arith, w)
held-le limits buf (body n unknown) w = omega (arith, w)

-- A round ends the loop, or leaves a decoder that holds more.
abbrev Round : {W : Type 0} → FrameLimits → ℕ → ReadStep W → Type 0
Round limits k (done r w) = Unit
Round limits k (again d w) =
    (d.limits ≡ limits) × Waiting limits d.buf d.state × (k < held limits d.buf d.state)

on_push-Round :
    {W : Type 0} (limits : FrameLimits) (k : ℕ) (d : Decoded) (w : W)
    → Holds limits (suc k) d
    → Round limits k (on_push (d.0, record { limits = limits; buf = d.1; state = d.2 }) w)
unfolding on_push
on_push-Round limits k (ok (some f), buf, state) w h = tt
on_push-Round limits k (ok none, buf, state) w h = (refl, h.0, omega (arith, h.1))
on_push-Round limits k (err e, buf, state) w h = tt

on_read-Round :
    {W : Type 0} (limits : FrameLimits) (d : FrameDecoder) (outcome : ReadOutcome) (w : W)
    → d.limits ≡ limits
    → Waiting limits d.buf d.state
    → Round limits (held limits d.buf d.state) (on_read d outcome w)
unfolding on_read push
on_read-Round limits d elapsed w e h = tt
on_read-Round limits d closed w e h = tt
on_read-Round limits d (read_failed what) w e h = tt
on_read-Round limits d (received byte bytes) w e h =
    subst
      (λ l.
        let r = decode_from l d.state (d.buf ++ (byte ∷ bytes)) in
        Round limits (held limits d.buf d.state)
          (on_push (r.0, record { limits = l; buf = r.1; state = r.2 }) w))
      (sym e)
      (on_push-Round limits (held limits d.buf d.state)
        (decode_from limits d.state (d.buf ++ (byte ∷ bytes))) w
        (decode_from-Holds limits d.buf d.state byte bytes h))

read_round-Round :
    {W : Type 0} (os : Os W) (deadline : ℕ) (limits : FrameLimits) (d : FrameDecoder) (w : W)
    → d.limits ≡ limits
    → Waiting limits d.buf d.state
    → Round limits (held limits d.buf d.state) (read_round os deadline d w)
unfolding read_round
read_round-Round os deadline limits d w e h =
    let w1 = (os.is_cancelled w).1 in
    let now = os.now w1 in
    let read = os.read_stdout 8192 (deadline - now.0) now.1 in
    elim (Bool-cases (os.is_cancelled w).0) [
      | inl stop ↦ rw stop tt
      | inr on ↦ elim (Bool-cases (nat_beq (deadline - now.0) 0)) [
        | inl late ↦ rw (on, late) tt
        | inr early ↦ rw (on, early) (on_read-Round limits d read.0 read.1 e h)
      ]
    ]

read_loop_total :
    {W : Type 0} (os : Os W) (deadline : ℕ) (limits : FrameLimits) (fuel : ℕ) (d : FrameDecoder)
    (w : W)
    → d.limits ≡ limits
    → Waiting limits d.buf d.state
    → limits.header_block_max_bytes + limits.frame_max_bytes + 2 ≤ fuel + held limits d.buf d.state
    → (read_loop os deadline fuel d w).0 ≢ none
unfolding read_loop
read_loop_total os deadline limits zero d w e h enough =
    absurd (omega (arith, enough, held-le limits d.buf d.state h))
read_loop_total {W} os deadline limits (suc fuel) d w e h enough =
    go (read_round os deadline d w) refl (read_round-Round os deadline limits d w e h)
      (λ d' w' e' h' k. read_loop_total os deadline limits fuel d' w' e' h' k)
  where
    go :
        (s : ReadStep W)
        → read_round os deadline d w ≡ s
        → Round limits (held limits d.buf d.state) s
        → ((d' : FrameDecoder) (w' : W)
            → d'.limits ≡ limits
            → Waiting limits d'.buf d'.state
            → limits.header_block_max_bytes + limits.frame_max_bytes + 2
              ≤ fuel + held limits d'.buf d'.state
            → (read_loop os deadline fuel d' w').0 ≢ none)
        → (read_loop os deadline (suc fuel) d w).0 ≢ none
    go (done r w') q round later = rw (read_loop, q) (λ k. cc)
    go (again d' w') q round later =
        rw (read_loop, q) (later d' w' round.0 round.1 (omega (arith, enough, round.2)))

-- `read_one_frame` returns a frame or an error, whatever the plugin writes, however the clock runs and
-- whenever the run is cancelled: reads that bring bytes cannot go on without end.
pub read_one_frame_total :
    {W : Type 0} (os : Os W) (has_stdout : Bool) (limits : FrameLimits) (timeout_ns : ℕ) (w : W)
    → (read_one_frame os has_stdout limits timeout_ns w).0 ≢ none
unfolding read_one_frame new_decoder
read_one_frame_total os false limits timeout_ns w = λ k. cc
read_one_frame_total os true limits timeout_ns w =
    read_loop_total os _ limits (read_fuel limits) (new_decoder limits) _ refl (refl, omega arith)
      (omega arith)
