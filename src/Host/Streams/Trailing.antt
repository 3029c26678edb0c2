-- ===== src/Host/Streams/Trailing.antt =====
-- Bytes behind a complete frame (crates/agentmesh-host/src/run.rs, framing.rs).
use mathlib.Core.Path.{subst}
use gareji_core.Base.{
  append_assoc, ℕ, zero, suc, ◌≤◌, ◌≡◌, inl, inr, refl, ap, ◌∙◌, false, Option, none, some, List,
  [], ◌∷◌, ◌++◌, Result, ok, err, length, take, length-append, ltb, arith, Bool-cases,
}
use gareji_core.Framing.{
  DecodedFrame, DecodeState, Decoded, FrameDecodeError, FrameDecoder, FrameLimits, Headers,
  HeaderStep, body, headers, more_of, headers_end, refused, header_step, decode_body,
  decode_headers, decode_from, push,
}
use gareji_core.Host.{received}
use gareji_core.Host.Streams.{done, on_push, on_read}

-- A call that completes a frame.
abbrev Completes : Decoded → DecodedFrame → Type 0
Completes d f = d.0 ≡ ok (some f)

take_within : (n : ℕ) (xs ys : List ℕ) → n ≤ length xs → take n (xs ++ ys) ≡ take n xs
take_within zero xs ys h = refl
take_within (suc n) [] ys h = absurd (omega arith)
take_within (suc n) (x ∷ xs) ys h = ap (◌∷◌ x) (take_within n xs ys (omega arith))

abbrev the_frame : List ℕ → Headers → Result (Option DecodedFrame) FrameDecodeError
the_frame t unknown = ok (some (record { body = t; unknown_headers = unknown }))

body_trailing :
    (limits : FrameLimits) (n : ℕ) (unknown : Headers) (a b : List ℕ) {f : DecodedFrame}
    → Completes (decode_body n unknown a) f
    → Completes (decode_body n unknown (a ++ b)) f
unfolding decode_body
body_trailing limits n unknown a b h = elim (Bool-cases (ltb (length a) n)) [
  | inl short ↦ absurd (cc (rw short at h))
  | inr full ↦
      let longer : ltb (length (a ++ b)) n ≡ false = ground (arith, length-append a b) in
      rw longer (
        ap (λ (t : List ℕ). the_frame t unknown) (take_within n a b (ground arith))
        ∙ (rw full at h))
]

headers_trailing :
    (limits : FrameLimits) (block : List ℕ) (line_start lines : ℕ) (a b : List ℕ) {f : DecodedFrame}
    → Completes (decode_headers limits block line_start lines a) f
    → Completes (decode_headers limits block line_start lines (a ++ b)) f
unfolding decode_headers
headers_trailing limits block line_start lines [] b h = absurd (cc h)
headers_trailing limits block line_start lines (byte ∷ a) b {f} h =
    go (λ k m n w. headers_trailing limits k m n a b w)
      (header_step limits (block ++ (byte ∷ [])) line_start lines) refl
  where
    go :
        ((k : List ℕ) (m n : ℕ)
          → Completes (decode_headers limits k m n a) f
          → Completes (decode_headers limits k m n (a ++ b)) f)
        → (s : HeaderStep) → header_step limits (block ++ (byte ∷ [])) line_start lines ≡ s
        → Completes (decode_headers limits block line_start lines ((byte ∷ a) ++ b)) f
    go recur (more_of block' line_start' lines') e =
        rw (decode_headers, e) (recur block' line_start' lines' (rw (decode_headers, e) at h))
    go recur (headers_end n unknown) e =
        rw (decode_headers, e) (body_trailing limits n unknown a b (rw (decode_headers, e) at h))
    go recur (refused x block' line_start' lines') e = absurd (cc (rw (decode_headers, e) at h))

decode_trailing :
    (limits : FrameLimits) (s : DecodeState) (a b : List ℕ) {f : DecodedFrame}
    → Completes (decode_from limits s a) f
    → Completes (decode_from limits s (a ++ b)) f
unfolding decode_from
decode_trailing limits (headers block line_start lines) a b h =
    headers_trailing limits block line_start lines a b h
decode_trailing limits (body n unknown) a b h = body_trailing limits n unknown a b h

-- A read that completes a frame.
on_push-done :
    {W : Type 0} (r : Result (Option DecodedFrame) FrameDecodeError) (d : FrameDecoder) (w : W)
    {f : DecodedFrame}
    → on_push (r, d) w ≡ done (ok f) w
    → r ≡ ok (some f)
unfolding on_push
on_push-done (ok (some x)) d w h = cc h
on_push-done (ok none) d w h = absurd (cc h)
on_push-done (err e) d w h = absurd (cc h)

-- Bytes that come in the same read behind a complete frame change nothing: where a read completes a
-- frame, the longer read ends the loop with the same frame.
pub on_read_trailing :
    {W : Type 0} (d : FrameDecoder) (byte : ℕ) (bytes extra : List ℕ) (w : W) {f : DecodedFrame}
    → on_read d (received byte bytes) w ≡ done (ok f) w
    → on_read d (received byte (bytes ++ extra)) w ≡ done (ok f) w
unfolding on_read push on_push
on_read_trailing d byte bytes extra w {f} h =
    let complete = on_push-done (decode_from d.limits d.state (d.buf ++ (byte ∷ bytes))).0 _ w h in
    let more =
      subst (λ t. Completes (decode_from d.limits d.state t) f)
        (append_assoc d.buf (byte ∷ bytes) extra)
        (decode_trailing d.limits d.state (d.buf ++ (byte ∷ bytes)) extra complete) in
    rw more refl
