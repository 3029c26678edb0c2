-- ===== src/Framing/Chunks.antt =====
-- How the bytes are cut into calls of `push` does not matter
-- (crates/agentmesh-host/src/framing.rs).
use mathlib.Core.Path.{subst}
use gareji_core.Base.{
  append_assoc, ℕ, ◌≡◌, inl, inr, refl, ap, sym, ◌∙◌, Option, none, some, List, [], ◌∷◌, ◌++◌,
  Bool-cases, Result, ok, err, ltb, length,
}
use gareji_core.Framing.{
  FrameLimits, FrameDecodeError, DecodedFrame, DecodeState, FrameDecoder, Headers, headers, body,
  Decoded, HeaderStep, more_of, headers_end, refused, header_step, decode_body, decode_headers,
  decode_from, push,
}

-- A call that returns no frame, and what it leaves.
abbrev Waits : Decoded → List ℕ → DecodeState → Type 0
Waits d buf state = d ≡ (ok none, buf, state)

body_again :
    (limits : FrameLimits) (n : ℕ) (unknown : Headers) (a b : List ℕ) {buf : List ℕ}
    {state : DecodeState}
    → Waits (decode_body n unknown a) buf state
    → decode_body n unknown (a ++ b) ≡ decode_from limits state (buf ++ b)
unfolding decode_body decode_from
body_again limits n unknown a b {buf} {state} h = elim (Bool-cases (ltb (length a) n)) [
  | inl short ↦
      let e = rw short at h in
      let rest : a ≡ buf = ap (λ d. d.1) e in
      let same : body n unknown ≡ state = ap (λ d. d.2) e in
      subst (λ q. decode_body n unknown (a ++ b) ≡ decode_from limits state (q ++ b)) rest
        (subst (λ s. decode_body n unknown (a ++ b) ≡ decode_from limits s (a ++ b)) same refl)
  | inr full ↦ absurd (some_not_none _ (ap (λ d. d.0) (rw full at h)))
]
  where
    some_not_none :
        (f : DecodedFrame)
        → ¬ (◌≡◌ {A = Result (Option DecodedFrame) FrameDecodeError} (ok (some f)) (ok none))
    some_not_none f e = cc

headers_again :
    (limits : FrameLimits) (block : List ℕ) (line_start lines : ℕ) (a b : List ℕ) {buf : List ℕ}
    {state : DecodeState}
    → Waits (decode_headers limits block line_start lines a) buf state
    → decode_headers limits block line_start lines (a ++ b) ≡ decode_from limits state (buf ++ b)
unfolding decode_headers decode_from
headers_again limits block line_start lines [] b {buf} {state} h =
    subst (λ q. decode_headers limits block line_start lines b ≡ decode_from limits state (q ++ b))
      (ap (λ d. d.1) h)
      (subst (λ s. decode_headers limits block line_start lines b ≡ decode_from limits s b)
        (ap (λ d. d.2) h) refl)
headers_again limits block line_start lines (byte ∷ a) b {buf} {state} h =
    go (λ k m n w. headers_again limits k m n a b w)
      (header_step limits (block ++ (byte ∷ [])) line_start lines) refl
  where
    err_not_none :
        (e : FrameDecodeError)
        → ¬ (◌≡◌ {A = Result (Option DecodedFrame) FrameDecodeError} (err e) (ok none))
    err_not_none e k = cc

    go :
        ((k : List ℕ) (m n : ℕ)
          → Waits (decode_headers limits k m n a) buf state
          → decode_headers limits k m n (a ++ b) ≡ decode_from limits state (buf ++ b))
        → (s : HeaderStep) → header_step limits (block ++ (byte ∷ [])) line_start lines ≡ s
        → decode_headers limits block line_start lines ((byte ∷ a) ++ b)
          ≡ decode_from limits state (buf ++ b)
    go again (more_of block' line_start' lines') e =
        rw (decode_headers, e) (again block' line_start' lines' (rw (decode_headers, e) at h))
    go again (headers_end n unknown) e =
        rw (decode_headers, e) (body_again limits n unknown a b (rw (decode_headers, e) at h))
    go again (refused f block' line_start' lines') e =
        absurd (err_not_none f (ap (λ d. d.0) (rw (decode_headers, e) at h)))

decode_again :
    (limits : FrameLimits) (s : DecodeState) (a b : List ℕ) {buf : List ℕ} {state : DecodeState}
    → Waits (decode_from limits s a) buf state
    → decode_from limits s (a ++ b) ≡ decode_from limits state (buf ++ b)
unfolding decode_from
decode_again limits (headers block line_start lines) a b h =
    headers_again limits block line_start lines a b h
decode_again limits (body n unknown) a b h = body_again limits n unknown a b h

-- Where a first chunk of bytes completes no frame, pushing a second one does exactly what pushing
-- both at once does: the result, the bytes that are left and the state are the same.
pub push-append :
    (decoder : FrameDecoder) (a b : List ℕ) {waiting : FrameDecoder}
    → push decoder a ≡ (ok none, waiting)
    → push waiting b ≡ push decoder (a ++ b)
unfolding push
push-append decoder a b {waiting} h =
    let d = decode_from decoder.limits decoder.state (decoder.buf ++ a) in
    let left : record { limits = decoder.limits; buf = d.1; state = d.2 } ≡ waiting =
      ap (λ p. p.1) h in
    let none_yet : d.0 ≡ ok none = ap (λ p. p.0) h in
    let again =
      decode_again decoder.limits decoder.state (decoder.buf ++ a) b {buf = d.1} {state = d.2}
        (ap (λ r. (r, d.1, d.2)) none_yet) in
    subst (λ w. push w b ≡ push decoder (a ++ b)) left
      (ap (λ q. (q.0, record { limits = decoder.limits; buf = q.1; state = q.2 }))
        (sym again ∙ ap (decode_from decoder.limits decoder.state) (append_assoc decoder.buf a b)))
