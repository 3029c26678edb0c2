-- ===== src/Host/Runs/Closing.antt =====
-- The end of a run without a failure (crates/agentmesh-host/src/run.rs): the plugin exited well.
use gareji_core.Base.{
  ℕ, ◌-◌, ◌+◌, max, ◌≡◌, ◌≢◌, inl, inr, refl, sym, ap, ◌∙◌, Bool, true, false, Option, none, some,
  Bool-cases, ltb, bytes, nat_beq, text_ord,
}
use gareji_core.Protocol.{FailureRecord}
use gareji_core.Host.{
  ExitStatus, Libraries, Os, Pipes, ReadOutcome, RunConfig, elapsed, closed, received, read_failed,
}
use gareji_core.Host.Failures.{FailureCoordinator, record_failure}
use gareji_core.Host.Streams.{
  ChildState, close_and_reap, millis, on_exit, on_probe, probe_stdout, terminate_child,
}
use gareji_core.Host.Runs.Steps.{
  Flow, RunState, Step, next, leave, panic, exhausted, on_flow, ◌>>=◌, call, child_of, time_from,
  set_timing, join_stderr,
}
use gareji_core.Host.Runs.Exchange.{close_run, reap}

-- A step of a chain that goes on has a first step that does.
pub on_flow-next :
    {W A B : Type 0} (k : A → Step W B) (r : Flow A × RunState W) {b : B} {s : RunState W}
    → on_flow k r ≡ (next b, s)
    → (a : A) × (t : RunState W) × (r ≡ (next a, t)) × (k a t ≡ (next b, s))
on_flow-next k (next a, t) h = (a, t, refl, h)
on_flow-next k (leave, t) h = absurd (not_next (ap (λ p. p.0) h))
  where
    not_next : {A : Type 0} {a : A} → ¬ (◌≡◌ {A = Flow A} leave (next a))
    not_next e = cc
on_flow-next k (panic, t) h = absurd (not_next (ap (λ p. p.0) h))
  where
    not_next : {A : Type 0} {a : A} → ¬ (◌≡◌ {A = Flow A} panic (next a))
    not_next e = cc
on_flow-next k (exhausted, t) h = absurd (not_next (ap (λ p. p.0) h))
  where
    not_next : {A : Type 0} {a : A} → ¬ (◌≡◌ {A = Flow A} exhausted (next a))
    not_next e = cc

pub bind-next :
    {W A B : Type 0} (m : Step W A) {k : A → Step W B} (s : RunState W) {b : B} {s' : RunState W}
    → (m >>= k) s ≡ (next b, s')
    → (a : A) × (t : RunState W) × (m s ≡ (next a, t)) × (k a t ≡ (next b, s'))
bind-next m {k} s h = on_flow-next k (m s) h

pub record_failure-ne_none :
    (f : FailureRecord) (g : FailureCoordinator) → (record_failure f g).primary ≢ none
unfolding record_failure
record_failure-ne_none f g = go g.primary refl
  where
    go : (o : Option FailureRecord) → g.primary ≡ o → (record_failure f g).primary ≢ none
    go none e = rw (record_failure, e) (λ k. cc)
    go (some first) e = rw (record_failure, e) (λ k. cc (sym e ∙ k))

module _ {W : Type 0} (lib : Libraries) (os : Os W) (config : RunConfig) where
  -- The plugin was seen to exit with success.
  abbrev pub ExitedWell : Type 0
  ExitedWell =
      (limit : ℕ) × (w : W) × (status : ExitStatus) × ((os.wait limit w).0 ≡ some status)
      × (status.success ≡ true)

  on_probe-none :
      (outcome : ReadOutcome) (g : FailureCoordinator)
      → (on_probe outcome g).primary ≡ none
      → g.primary ≡ none
  unfolding on_probe
  on_probe-none elapsed g h = h
  on_probe-none closed g h = h
  on_probe-none (received byte bytes) g h = absurd (record_failure-ne_none _ g h)
  on_probe-none (read_failed what) g h = h

  probe_stdout-none :
      (deadline : ℕ) (g : FailureCoordinator) (w : W)
      → (probe_stdout os deadline g w).0.primary ≡ none
      → g.primary ≡ none
  unfolding probe_stdout
  probe_stdout-none deadline g w h =
      let before = os.now w in
      let stop = os.is_cancelled before.1 in
      let now = os.now stop.1 in
      elim (Bool-cases (ltb before.0 deadline)) [
        | inr e ↦ rw e at h
        | inl e ↦ elim (Bool-cases stop.0) [
          | inl s ↦ absurd (record_failure-ne_none _ g (rw (e, s) at h))
          | inr s ↦ elim (Bool-cases (nat_beq (deadline - now.0) 0)) [
            | inl z ↦ rw (e, s, z) at h
            | inr z ↦
                on_probe-none (os.read_stdout 1 (deadline - now.0) now.1).0 g (rw (e, s, z) at h)
          ]
        ]
      ]

  on_exit-none :
      (c : ChildState) (limit : ℕ) (w w' : W) (o : Option ExitStatus)
      → (os.wait limit w).0 ≡ o
      → (on_exit os c o w').0.failures.primary ≡ none
      → (c.failures.primary ≡ none) × ExitedWell
  unfolding on_exit terminate_child
  on_exit-none c limit w w' none e h = absurd (record_failure-ne_none _ c.failures h)
  on_exit-none c limit w w' (some status) e h = elim (Bool-cases status.success) [
    | inl well ↦ (rw well at h, (limit, w, status, e, well))
    | inr badly ↦ absurd (record_failure-ne_none _ c.failures (rw badly at h))
  ]

  close_and_reap-none :
      (has_stdout : Bool) (grace : ℕ) (c : ChildState) (w : W)
      → (close_and_reap os has_stdout grace c w).0.failures.primary ≡ none
      → (c.failures.primary ≡ none) × ExitedWell
  unfolding close_and_reap
  close_and_reap-none true grace c w h =
      let start = os.now w in
      let probe = probe_stdout os (start.0 + grace) c.failures start.1 in
      let now = os.now probe.1 in
      let (before, well) =
        on_exit-none (record c { failures = probe.0 }) (max (start.0 + grace - now.0) (millis 1))
          now.1 _ _ refl h in
      (probe_stdout-none (start.0 + grace) c.failures start.1 before, well)
  close_and_reap-none false grace c w h =
      let start = os.now w in
      let now = os.now start.1 in
      on_exit-none c (max (start.0 + grace - now.0) (millis 1)) now.1 _ _ refl h

  -- The end of a run keeps the payload, and meets no failure only if the plugin exits well.
  pub close_run-payload :
      (pipes : Pipes) (started : ℕ) (s : RunState W)
      → (close_run lib os config pipes started s).1.payload ≡ s.payload
  unfolding close_run call reap time_from set_timing join_stderr
  close_run-payload pipes started s = refl

  pub close_run-none :
      (pipes : Pipes) (started : ℕ) (s : RunState W)
      → (close_run lib os config pipes started s).1.failures.primary ≡ none
      → (s.failures.primary ≡ none) × ExitedWell
  unfolding close_run call reap time_from set_timing join_stderr
  close_run-none pipes started s h =
      close_and_reap-none pipes.stdout (millis config.limits.exit_grace_ms) (child_of s) _ h
