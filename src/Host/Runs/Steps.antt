-- ===== src/Host/Runs/Steps.antt =====
-- The local state of a run (crates/agentmesh-host/src/run.rs) and the steps that its phases share.
use gareji_core.RunContract.{Value, null}
use gareji_core.Base.{ℕ, ◌-◌, ◌/◌, Option, none, some, List, [], ◌∷◌, ◌++◌, Text, put}
use gareji_core.Framing.{Headers}
use gareji_core.Protocol.{FailureCode, FailureRecord, new_failure}
use gareji_core.Host.{
  InterruptionMeta, Libraries, MessageRecord, Os, RunConfig, StderrCapture, StderrRead,
}
use gareji_core.Host.Failures.{FailureCoordinator, record_failure}
use gareji_core.Host.Redaction.{RedactionPolicy, apply}
use gareji_core.Host.Streams.{ChildState, drain_stderr, terminate_child}

-- The variables of `execute_run_with`, with the state of the world.
pub record RunState (W : Type 0) : Type 0 where
  pub world : W
  pub failures : FailureCoordinator
  pub messages : List MessageRecord
  pub unknown_headers : List Headers
  pub plugin_version : Option Text
  pub interruption : Option InterruptionMeta
  pub exit_status : Option ℕ
  pub hashes : Headers
  pub payload : Value
  pub stderr : StderrCapture
  pub timings : List (Text × ℕ)

-- How a step ends: it goes on, the run leaves for `finish`, it panics, or a loop has no fuel.
pub data Flow (A : Type 0) : Type 0 where
  next : A → Flow A
  leave panic exhausted : Flow A

abbrev pub Step : Type 0 → Type 0 → Type 0
Step W A = RunState W → Flow A × RunState W

abbrev pub drained_or :
    Libraries → RunConfig → StderrCapture → Option (List StderrRead) → StderrCapture
drained_or lib config before none = before
drained_or lib config before (some reads) =
    drain_stderr lib config.limits.stderr_retain_bytes config.capture_plugin_stderr reads

-- The value that a message is recorded with.
unfoldable pub redacted_message : Libraries → RedactionPolicy → List ℕ → Value
redacted_message lib redaction raw = elim (lib.from_slice raw) [
  | none ↦ (apply redaction null).1
  | some value ↦ (apply redaction value).1
]

module _ {W : Type 0} where
  abbrev pub on_flow : {A B : Type 0} → (A → Step W B) → Flow A × RunState W → Flow B × RunState W
  on_flow k (next a, s) = k a s
  on_flow k (leave, s) = (leave, s)
  on_flow k (panic, s) = (panic, s)
  on_flow k (exhausted, s) = (exhausted, s)

  infixl 5 ◌>>=◌ ◌>>◌
  abbrev pub ◌>>=◌ : {A B : Type 0} → Step W A → (A → Step W B) → Step W B
  ◌>>=◌ m k s = on_flow k (m s)

  abbrev pub ◌>>◌ : {A B : Type 0} → Step W A → Step W B → Step W B
  m >> k = m >>= λ skipped. k

  abbrev pub give : {A : Type 0} → A → Step W A
  give a s = (next a, s)

  abbrev pub leaving : {A : Type 0} → Step W A
  leaving s = (leave, s)

  abbrev pub stuck : {A : Type 0} → Step W A
  stuck s = (exhausted, s)

  abbrev pub panicking : {A : Type 0} → Step W A
  panicking s = (panic, s)

  -- A call of the world.
  unfoldable pub call : {A : Type 0} → (W → A × W) → Step W A
  call f s = (next (f s.world).0, record s { world = (f s.world).1 })

  -- `failures.record(…)`
  unfoldable pub fail_with : FailureRecord → Step W Unit
  fail_with f s = (next tt, record s { failures = record_failure f s.failures })

  unfoldable pub fail : FailureCode → Text → Step W Unit
  unfolding fail_with
  fail code message = fail_with (new_failure code message)

  unfoldable pub set_hash : Text → Text → Step W Unit
  set_hash key hash s = (next tt, record s { hashes = put key hash s.hashes })

  unfoldable pub set_timing : Text → ℕ → Step W Unit
  set_timing key ms s = (next tt, record s { timings = put key ms s.timings })

  unfoldable pub note_headers : Headers → Step W Unit
  note_headers [] s = (next tt, s)
  note_headers (h ∷ hs) s =
      (next tt, record s { unknown_headers = s.unknown_headers ++ ((h ∷ hs) ∷ []) })

  unfoldable pub set_plugin_version : Text → Step W Unit
  set_plugin_version version s = (next tt, record s { plugin_version = some version })

  unfoldable pub set_payload : Value → Step W Unit
  set_payload payload s = (next tt, record s { payload = payload })

  abbrev pub child_of : RunState W → ChildState
  child_of s = record {
    interruption = s.interruption;
    exit_status = s.exit_status;
    failures = s.failures;
  }

  abbrev pub with_child : RunState W → ChildState × W → RunState W
  with_child s (c, w) = record s {
    world = w;
    interruption = c.interruption;
    exit_status = c.exit_status;
    failures = c.failures;
  }

module _ {W : Type 0} (lib : Libraries) (os : Os W) where
  -- `timings.insert(key, (Utc::now() - start).num_milliseconds().max(0))`
  unfoldable pub time_from : Text → ℕ → Step W Unit
  unfolding call set_timing
  time_from key start = do now ← call os.utc_now; set_timing key ((now - start) / 1000000)

  unfoldable pub terminate : Step W Unit
  unfolding terminate_child
  terminate s = (next tt, with_child s (terminate_child os (child_of s) s.world))

  -- `stderr_cap = stderr_task.await.unwrap_or(stderr_cap)`
  unfoldable pub join_stderr : RunConfig → Step W Unit
  join_stderr config s =
      let (reads, w) = os.join_stderr s.world in
      (next tt, record s { world = w; stderr = drained_or lib config s.stderr reads })

  -- What an error behind the start of the plugin does before `finish`.
  unfoldable pub abort : {A : Type 0} → RunConfig → Step W A
  unfolding terminate join_stderr
  abort config = do terminate; join_stderr config; leaving

  unfoldable pub push_message : RedactionPolicy → Text → Text → List ℕ → Step W Unit
  unfolding redacted_message
  push_message redaction direction method raw s = (
    next tt,
    record s {
      messages =
          s.messages
          ++ (record {
            direction = direction;
            method = some method;
            message = redacted_message lib redaction raw;
            raw_sha256 = lib.sha256_hex raw;
          }
              ∷ []);
    },
  )
