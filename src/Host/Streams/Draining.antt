-- ===== src/Host/Streams/Draining.antt =====
-- What the task that drains stderr keeps (crates/agentmesh-host/src/run.rs).
use gareji_core.Base.{
  append_assoc, append-nil, ℕ, zero, suc, ◌-◌, ◌<◌, ◌≡◌, refl, sym, ap, ◌∙◌, Bool, true, false,
  some, none, List, [], ◌∷◌, ◌++◌, ltb, if◌then◌else◌, length, length-append, length-take, take,
  min, arith, Bool-cases, inl, inr,
}
use gareji_core.Host.{Libraries, StderrRead, chunk, stderr_failed}
use gareji_core.Host.Streams.{Drained, retain, drain_from, drain_stderr}

-- The bytes that came before the end or the first error.
abbrev pub observed : List StderrRead → List ℕ
observed [] = []
observed (stderr_failed ∷ reads) = []
observed (chunk byte bytes ∷ reads) = (byte ∷ bytes) ++ observed reads

take_zero : (n : ℕ) (xs : List ℕ) → n ≡ 0 → take n xs ≡ []
take_zero n xs e = rw e refl

take-min : (n : ℕ) (xs : List ℕ) → take (min (length xs) n) xs ≡ take n xs
take-min zero xs = take_zero (min (length xs) 0) xs (omega arith)
take-min (suc n) [] = take_zero (min 0 (suc n)) [] (omega arith)
take-min (suc n) (x ∷ xs) =
    ap (λ (k : ℕ). take k (x ∷ xs)) (min_suc (length xs) n) ∙ ap (◌∷◌ x) (take-min n xs)
  where
    min_suc : (a b : ℕ) → min (suc a) (suc b) ≡ suc (min a b)
    min_suc a b = omega arith

take-append :
    (n : ℕ) (xs ys : List ℕ)
    → take n (xs ++ ys) ≡ take n xs ++ take (min (length ys) (n - length xs)) ys
take-append zero [] ys = sym (take_zero (min (length ys) (0 - 0)) ys (omega arith))
take-append (suc n) [] ys =
    let e : suc n ≡ suc n - 0 = omega arith in
    ap (λ (k : ℕ). take k ys) e ∙ sym (take-min (suc n - 0) ys)
take-append zero (x ∷ xs) ys =
    sym (take_zero (min (length ys) (0 - suc (length xs))) ys (omega arith))
take-append (suc n) (x ∷ xs) ys =
    let e : n - length xs ≡ suc n - suc (length xs) = omega arith in
    ap (◌∷◌ x) (take-append n xs ys ∙ ap (λ (k : ℕ). take n xs ++ take (min (length ys) k) ys) e)

same_drained :
    {r r' h : List ℕ} {n n' : ℕ} {t t' : Bool}
    → r ≡ r'
    → n ≡ n'
    → t ≡ t'
    → ◌≡◌ {A = Drained}
        (record { retained = r; total = n; truncated = t; hashed = h })
        (record { retained = r'; total = n'; truncated = t'; hashed = h })
same_drained p q e = cc

-- What the state says of the bytes seen.
abbrev After : ℕ → List ℕ → Drained
After limit seen = record {
  retained = take limit seen;
  total = length seen;
  truncated = ltb limit (length seen);
  hashed = seen;
}

ltb→lt : (a b : ℕ) → ltb a b ≡ true → a < b
ltb→lt a b h = ground arith

retain-After :
    (limit byte : ℕ) (bytes seen : List ℕ)
    → retain limit (byte ∷ bytes) (After limit seen) ≡ After limit (seen ++ (byte ∷ bytes))
unfolding retain
retain-After limit byte bytes seen =
    let k = length-take limit seen in
    elim (Bool-cases (ltb (length (take limit seen)) limit)) [
      | inl room ↦ rw room (
          same_drained
            (ap (λ (n : ℕ). take limit seen ++ take (min (suc (length bytes)) n) (byte ∷ bytes))
                (omega (arith, k, ltb→lt _ _ room))
              ∙ sym (take-append limit seen (byte ∷ bytes)))
            (sym (length-append seen (byte ∷ bytes)))
            (ground (arith, k, length-append seen (byte ∷ bytes))))
      | inr full ↦ rw full (
          same_drained
            (sym (append-nil (take limit seen))
              ∙ ap (λ (t : List ℕ). take limit seen ++ t)
                  (sym (
                    take_zero (min (suc (length bytes)) (limit - length seen)) (byte ∷ bytes)
                      (ground (arith, k))))
              ∙ sym (take-append limit seen (byte ∷ bytes)))
            (sym (length-append seen (byte ∷ bytes)))
            (ground (arith, k, length-append seen (byte ∷ bytes))))
    ]

drain_from-After :
    (limit : ℕ) (reads : List StderrRead) (seen : List ℕ)
    → drain_from limit reads (After limit seen) ≡ After limit (seen ++ observed reads)
unfolding drain_from
drain_from-After limit [] seen = ap (After limit) (sym (append-nil seen))
drain_from-After limit (stderr_failed ∷ reads) seen = ap (After limit) (sym (append-nil seen))
drain_from-After limit (chunk byte bytes ∷ reads) seen =
    ap (drain_from limit reads) (retain-After limit byte bytes seen)
    ∙ drain_from-After limit reads (seen ++ (byte ∷ bytes))
    ∙ ap (After limit) (append_assoc seen (byte ∷ bytes) (observed reads))

start :
    (limit : ℕ)
    → After limit [] ≡ record { retained = []; total = 0; truncated = false; hashed = [] }
start zero = refl
start (suc n) = ground arith

-- However stderr is cut into reads, the capture counts and hashes all bytes that came before the end or an error,
-- keeps the first ones up to the limit, and says that it is truncated exactly when more came.
pub drain_stderr_lem :
    (lib : Libraries) (limit : ℕ) (capture_raw : Bool) (reads : List StderrRead)
    → drain_stderr lib limit capture_raw reads ≡ record {
      byte_count = length (observed reads);
      sha256 = lib.sha256_hex (observed reads);
      truncated = ltb limit (length (observed reads));
      raw_utf8_lossy =
          if capture_raw then some (lib.from_utf8_lossy (take limit (observed reads))) else none;
      sensitive_content = capture_raw;
    }
unfolding drain_stderr
drain_stderr_lem lib limit capture_raw reads =
    ap
      (λ (s : Drained). record {
        byte_count = s.total;
        sha256 = lib.sha256_hex s.hashed;
        truncated = s.truncated;
        raw_utf8_lossy = if capture_raw then some (lib.from_utf8_lossy s.retained) else none;
        sensitive_content = capture_raw;
      })
      (ap (drain_from limit reads) (sym (start limit)) ∙ drain_from-After limit reads [])
