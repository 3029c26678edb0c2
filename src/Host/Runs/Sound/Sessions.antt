-- ===== src/Host/Runs/Sound/Sessions.antt =====
-- A run up to its end is sound (crates/agentmesh-host/src/run.rs).
use gareji_core.Base.{
  ℕ, ◌≡◌, ◌⊎◌, inl, inr, Option, none, some, ◌++◌, Text, codes, if◌then◌else◌, err, nat_beq, ◌-◌,
  ◌+◌, max, ltb, text_ord, Bool-cases,
}
use gareji_core.Protocol.{FailureCode, ProtoError, rpc_id}
use gareji_core.Host.{
  ExitStatus, Libraries, Os, ReadOutcome, RunConfig, Pipes, elapsed, closed, received, read_failed,
}
use gareji_core.Host.Failures.{FailureCoordinator}
use gareji_core.Host.Streams.{
  ChildState, terminate_child, probe_stdout, on_probe, on_exit, close_and_reap, millis,
}
use gareji_core.Host.Runs.Steps.{join_stderr, child_of}
use gareji_core.Host.Runs.Exchange.{close_run, reap, session, session_from}
use gareji_core.Host.Runs.Sound.{
  Categorised, Good, record_new, ◌then◌, call-Good, give-Good, time_from-Good,
}
use gareji_core.Host.Runs.Sound.Preparation.{
  check_redaction-Good, check_input-Good, start_plugin-Good,
}
use gareji_core.Host.Runs.Sound.Exchanges.{initialize-Good, run_plugin-Good}

module _ {W : Type 0} (lib : Libraries) (os : Os W) (config : RunConfig) (Reason : Type 0) where
  on_probe-Categorised :
      (outcome : ReadOutcome) (g : FailureCoordinator)
      → Categorised g.primary
      → Categorised (on_probe outcome g).primary
  unfolding on_probe
  on_probe-Categorised elapsed g h = h
  on_probe-Categorised closed g h = h
  on_probe-Categorised (received byte bytes) g h =
      (record_new FailureCode.unexpected_output (codes "additional stdout after valid response") g
        h).0
  on_probe-Categorised (read_failed what) g h = h

  probe_stdout-Categorised :
      (deadline : ℕ) (g : FailureCoordinator) (w : W)
      → Categorised g.primary
      → Categorised (probe_stdout os deadline g w).0.primary
  unfolding probe_stdout
  probe_stdout-Categorised deadline g w h =
      let before = os.now w in
      let stop = os.is_cancelled before.1 in
      let now = os.now stop.1 in
      elim (Bool-cases (ltb before.0 deadline)) [
        | inr e ↦ rw e h
        | inl e ↦ elim (Bool-cases stop.0) [
          | inl s ↦
              rw (e, s)
                (record_new FailureCode.host_interrupted (codes "interrupted during close") g h).0
          | inr s ↦ elim (Bool-cases (nat_beq (deadline - now.0) 0)) [
            | inl z ↦ rw (e, s, z) h
            | inr z ↦ rw (e, s, z) (on_probe-Categorised _ g h)
          ]
        ]
      ]

  on_exit-Categorised :
      (c : ChildState) (o : Option ExitStatus) (w : W)
      → Categorised c.failures.primary
      → Categorised (on_exit os c o w).0.failures.primary
  unfolding on_exit terminate_child
  on_exit-Categorised c none w h =
      (record_new FailureCode.plugin_exit_timeout (codes "plugin did not exit within exit grace")
        c.failures h).0
  on_exit-Categorised c (some status) w h = elim (Bool-cases status.success) [
    | inl e ↦ rw e h
    | inr e ↦
        rw e
          (record_new FailureCode.plugin_exited (codes "plugin exited with status " ++ status.shown)
            c.failures h).0
  ]

  reap-Good : (pipes : Pipes) → Good Reason (reap lib os config pipes)
  unfolding reap close_and_reap
  reap-Good pipes = record {
    runs = λ s h.
        let start = os.now s.world in
        let deadline = start.0 + millis config.limits.exit_grace_ms in
        let probe = probe_stdout os deadline s.failures start.1 in
        let wait = λ (w : W). os.wait (max (deadline - (os.now w).0) (millis 1)) (os.now w).1 in
        elim (Bool-cases pipes.stdout) [
          | inl e ↦ rw e (
              on_exit-Categorised (record (child_of s) { failures = probe.0 }) (wait probe.1).0
                (wait probe.1).1 (probe_stdout-Categorised deadline s.failures start.1 h))
          | inr e ↦ rw e (on_exit-Categorised (child_of s) (wait start.1).0 (wait start.1).1 h)
        ];
  }

  join_stderr-Good : Good Reason (join_stderr lib os config)
  unfolding join_stderr
  join_stderr-Good = record { runs = λ s h. h }

  close_run-Good :
      (pipes : Pipes) (started : ℕ) → Good Reason (close_run lib os config pipes started)
  unfolding close_run
  close_run-Good pipes started =
      call-Good lib os config Reason (λ w. (tt, os.close_stdin w)) then λ _.
      call-Good lib os config Reason os.utc_now then λ start. reap-Good pipes then λ _.
      time_from-Good lib os config Reason (codes "close_ms") start then λ _.
      join_stderr-Good then λ _. time_from-Good lib os config Reason (codes "total_ms") started

  pub session-Good :
      (run_id : Text)
      → ((e : ProtoError)
          → (rpc_id (codes "init-" ++ run_id) ≡ err e) ⊎ (rpc_id (codes "run-" ++ run_id) ≡ err e)
          → Reason)
      → Good Reason (session lib os config run_id)
  unfolding session session_from
  session-Good run_id why = call-Good lib os config Reason os.utc_now then λ started.
      check_redaction-Good lib os config Reason then λ redaction.
      check_input-Good lib os config Reason then λ input.
      start_plugin-Good lib os config Reason then λ pipes.
      initialize-Good lib os config Reason pipes redaction run_id (λ e h. why e (inl h)) then λ _.
      run_plugin-Good lib os config Reason pipes redaction run_id input (λ e h. why e (inr h))
      then λ _. close_run-Good pipes started then λ _. give-Good lib os config Reason redaction
