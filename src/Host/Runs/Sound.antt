-- ===== src/Host/Runs/Sound.antt =====
-- What every run ends with (crates/agentmesh-host/src/run.rs): it never hangs, it leaves early only with
-- a failure, and the category of its primary failure is that of the code.
pub mod Preparation
pub mod Exchanges
pub mod Sessions
use mathlib.Core.Path.{subst}
use gareji_core.RunContract.{Value, no_entries, object}
use gareji_core.Base.{
  ℕ, ◌≡◌, ◌≢◌, ◌⊎◌, inl, inr, refl, sym, ap, Bool, true, false, Option, none, some, List, [], ◌∷◌,
  ◌++◌, Text, codes, if◌then◌else◌, Result, ok, err, ok_or, is_empty, nat_beq, ◌-◌, ◌+◌, max, ltb,
  length, ◌==◌, text_ord, arith, Bool-cases,
}
use gareji_core.Base.{◌>>=◌ as bind_result}
use gareji_core.Protocol.{
  FailureCategory, FailureCode, FailureRecord, ProtoError, InitializeResult, JsonRpcError,
  JsonRpcResponse, phase0, protocol_version, RunResult, category, exit_code, new_failure, rpc_id,
}
use gareji_core.Protocol.Strict.{
  Stop, exhausted as no_fuel, refused, from_slice_strict, parse_value_strict,
}
use gareji_core.Protocol.Strict.Fuel.{parse_value_strict_total}
use gareji_core.Framing.{DecodedFrame, FrameDecodeError, Headers}
use gareji_core.Host.{
  ExitStatus, Libraries, Os, ReadOutcome, RunConfig, RunOutcome, Pipes, elapsed, closed, received,
  read_failed,
}
use gareji_core.Host.Failures.{
  FailureCoordinator, record_failure, record_audit_failure, record_stdout_failure, new_coordinator,
}
use gareji_core.Host.Process.{
  resolve, build_plugin_command, PluginPathError, not_absolute, not_file, not_found,
}
use gareji_core.Host.Redaction.{RedactionError, RedactionPolicy, from_pointers, invalid_pointer}
use gareji_core.Framing.Encoding.{encode}
use gareji_core.Host.Streams.{
  ChildState, frame_limits, ReadFrameError, read_one_frame, terminate_child, probe_stdout, on_probe,
  on_exit, close_and_reap, millis, map_frame_err,
}
use gareji_core.Host.Streams.Reading.{read_one_frame_total}
use gareji_core.Host.Runs.Steps.{
  Flow, RunState, Step, abort, call, fail, fail_with, exhausted, give, join_stderr, leave, leaving,
  next, note_headers, on_flow, panic, push_message, set_hash, set_payload, set_plugin_version,
  set_timing, terminate, time_from, ◌>>=◌, ◌>>◌, child_of, with_child,
}
use gareji_core.Host.Runs.Exchange.{
  initialize_method, run_method, check_input, check_redaction, close_run, exchange, expect_id,
  initialize, initialized, parsed_input, ran, reap, read_flow, read_frame, received_frame, refuse,
  refuse_started, resolved, response, run_plugin, send_frame, session, session_from, spawned,
  start_plugin, written,
}

-- A failure has the category of its code; there is a failure.
abbrev pub Categorised : Option FailureRecord → Type 0
Categorised none = Unit
Categorised (some f) = f.category ≡ category f.code

abbrev pub Failed : Option FailureRecord → Type 0
Failed none = ⊥
Failed (some f) = Unit

-- What holds behind a step that was sound before: an early end has a failure, a panic has a reason, and the fuel is enough.
abbrev pub Sound : {W A : Type 0} → Type 0 → Flow A × RunState W → Type 0
Sound Reason (next a, s) = Categorised s.failures.primary
Sound Reason (leave, s) = Categorised s.failures.primary × Failed s.failures.primary
Sound Reason (panic, s) = Reason
Sound Reason (exhausted, s) = ⊥

abbrev pub Runs : {W A : Type 0} → Type 0 → Step W A → Type 0
Runs {W} Reason m = (s : RunState W) → Categorised s.failures.primary → Sound Reason (m s)

Sound-on_flow :
    {W A B : Type 0} (Reason : Type 0) (k : A → Step W B) (r : Flow A × RunState W)
    → Sound Reason r
    → ((a : A) → Runs Reason (k a))
    → Sound Reason (on_flow k r)
Sound-on_flow Reason k (next a, s) h each = each a s h
Sound-on_flow Reason k (leave, s) h each = h
Sound-on_flow Reason k (panic, s) h each = h
Sound-on_flow Reason k (exhausted, s) h each = h

Runs-bind :
    {W A B : Type 0} (Reason : Type 0) (m : Step W A) (k : A → Step W B)
    → Runs Reason m
    → ((a : A) → Runs Reason (k a))
    → Runs Reason (m >>= k)
Runs-bind Reason m k first each s h = Sound-on_flow Reason k (m s) (first s h) each

-- The same as a record, whose parts a chain of steps is proved from.
pub record Good {W A : Type 0} (Reason : Type 0) (m : Step W A) : Type 0 where
  pub runs : Runs Reason m

infixr 4 ◌then◌
pub ◌then◌ :
    {W A B : Type 0} {Reason : Type 0} {m : Step W A} {k : A → Step W B}
    → Good Reason m
    → ((a : A) → Good Reason (k a))
    → Good Reason (m >>= k)
◌then◌ {Reason = Reason} {m = m} {k = k} first each = record {
  runs = Runs-bind Reason m k first.runs (λ a. (each a).runs);
}

-- Recording a failure.
pub record_failure-Failed :
    (f : FailureRecord) (g : FailureCoordinator)
    → f.category ≡ category f.code
    → Categorised g.primary
    → Categorised (record_failure f g).primary × Failed (record_failure f g).primary
unfolding record_failure
record_failure-Failed f g same h = go g.primary refl
  where
    go :
        (o : Option FailureRecord)
        → g.primary ≡ o
        → Categorised (record_failure f g).primary × Failed (record_failure f g).primary
    go none e = rw (record_failure, e) (same, tt)
    go (some first) e = rw (record_failure, e) (h, subst Failed (sym e) tt)

pub record_new :
    (code : FailureCode) (message : Text) (g : FailureCoordinator)
    → Categorised g.primary
    → Categorised (record_failure (new_failure code message) g).primary
      × Failed (record_failure (new_failure code message) g).primary
record_new code message g h =
    record_failure-Failed (new_failure code message) g (unfold new_failure in refl) h

module _ {W : Type 0} (lib : Libraries) (os : Os W) (config : RunConfig) (Reason : Type 0) where
  pub abort-Sound :
      (A : Type 0) (s : RunState W)
      → Categorised s.failures.primary
      → Failed s.failures.primary
      → Sound Reason (abort lib os {A = A} config s)
  unfolding abort terminate join_stderr terminate_child
  abort-Sound A s h f = (h, f)

  pub call-Good : {A : Type 0} (f : W → A × W) → Good Reason (call f)
  unfolding call
  call-Good f = record { runs = λ s h. h }

  pub fail-Good : (code : FailureCode) (message : Text) → Good {W = W} Reason (fail code message)
  unfolding fail fail_with
  fail-Good code message = record { runs = λ s h. (record_new code message s.failures h).0 }

  pub give-Good : {A : Type 0} (a : A) → Good {W = W} Reason (give a)
  give-Good a = record { runs = λ s h. h }

  pub set_hash-Good : (key hash : Text) → Good {W = W} Reason (set_hash key hash)
  unfolding set_hash
  set_hash-Good key hash = record { runs = λ s h. h }

  pub refuse-Good :
      (A : Type 0) (code : FailureCode) (message : Text)
      → Good Reason (refuse lib os config {A = A} code message)
  unfolding refuse fail fail_with
  refuse-Good A code message = record { runs = λ s h. record_new code message s.failures h }

  pub refuse_started-Good :
      (A : Type 0) (code : FailureCode) (message : Text)
      → Good Reason (refuse_started lib os config {A = A} code message)
  unfolding refuse_started fail fail_with
  refuse_started-Good A code message = record {
    runs = λ s h.
        let (c, f) = record_new code message s.failures h in
        abort-Sound A (fail code message s).1 c f;
  }

  pub time_from-Good : (key : Text) (start : ℕ) → Good Reason (time_from lib os key start)
  unfolding time_from call set_timing
  time_from-Good key start = record { runs = λ s h. h }
