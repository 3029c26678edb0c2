-- ===== src/Host/Streams.antt =====
-- The pipes and the process of the plugin (crates/agentmesh-host/src/run.rs): reading one frame,
-- draining stderr, closing and terminating.

pub mod Draining
pub mod Reading
pub mod Trailing
use gareji_core.Base.{
  ℕ, zero, suc, ◌+◌, ◌-◌, ◌*◌, min, max, Bool, true, false, not, ◌||◌, Option, none, some, List, [],
  ◌∷◌, ◌++◌, Text, codes, ltb, nat_beq, if◌then◌else◌, Result, ok, err, length, take,
}
use gareji_core.Framing.{
  DecodedFrame, FrameDecodeError, FrameDecoder, FrameLimits, push, finish, new_decoder,
}
use gareji_core.Protocol.{FailureCode, FailureRecord, Limits, new_failure}
use gareji_core.Host.{
  ExitStatus, InterruptionMeta, Os, ReadOutcome, StderrCapture, StderrRead, Libraries, elapsed,
  closed, received, read_failed, chunk, stderr_failed,
}
use gareji_core.Host.Failures.{FailureCoordinator, record_failure}

-- `Duration::from_millis`, and the milliseconds of a difference.
abbrev pub millis : ℕ → ℕ
millis n = n * 1000000

-- `FrameLimits::from(&limits)`
unfoldable pub frame_limits : Limits → FrameLimits
frame_limits limits = record {
  frame_max_bytes = limits.frame_max_bytes;
  header_block_max_bytes = limits.header_block_max_bytes;
  header_line_max_bytes = limits.header_line_max_bytes;
  header_max_lines = limits.header_max_lines;
  content_length_digits_max = limits.content_length_digits_max;
}

pub data ReadFrameError : Type 0 where
  timeout cancelled plugin_exited : ReadFrameError
  decode : FrameDecodeError → ReadFrameError
  io : Text → ReadFrameError

pub data ReadStep (W : Type 0) : Type 0 where
  done : Result DecodedFrame ReadFrameError → W → ReadStep W
  again : FrameDecoder → W → ReadStep W

-- What `decoder.finish()` means at the end of the stream, and what `decoder.push` means.
unfoldable pub at_end :
    Result (Option DecodedFrame) FrameDecodeError → Result DecodedFrame ReadFrameError
at_end (ok (some frame)) = ok frame
at_end (ok none) = err (decode FrameDecodeError.unexpected_eof)
at_end (err e) = err (decode e)

unfoldable pub on_push :
    {W : Type 0} → Result (Option DecodedFrame) FrameDecodeError × FrameDecoder → W → ReadStep W
on_push (ok (some frame), decoder) w = done (ok frame) w
on_push (ok none, decoder) w = again decoder w
on_push (err e, decoder) w = done (err (decode e)) w

unfoldable pub on_read : {W : Type 0} → FrameDecoder → ReadOutcome → W → ReadStep W
unfolding at_end on_push
on_read decoder elapsed w = done (err timeout) w
on_read decoder closed w = done (at_end (finish decoder).0) w
on_read decoder (received byte bytes) w = on_push (push decoder (byte ∷ bytes)) w
on_read decoder (read_failed what) w = done (err (io what)) w

-- A round of the loop of `read_one_frame`.
unfoldable pub read_round : {W : Type 0} → Os W → ℕ → FrameDecoder → W → ReadStep W
unfolding on_read
read_round os deadline decoder w =
    let (is_cancelled, w1) = os.is_cancelled w in
    let (now, w2) = os.now w1 in
    let (outcome, w3) = os.read_stdout 8192 (deadline - now) w2 in
    if is_cancelled
    then done (err cancelled) w1
    else if nat_beq (deadline - now) 0
    then done (err timeout) w2
    else on_read decoder outcome w3

-- Its loop, with nothing where the fuel runs out.
unfoldable pub read_loop :
    {W : Type 0} → Os W → ℕ → ℕ → FrameDecoder → W → Option (Result DecodedFrame ReadFrameError) × W
unfolding read_round
read_loop os deadline zero decoder w = (none, w)
read_loop os deadline (suc fuel) decoder w = elim (read_round os deadline decoder w) [
  | done r w' ↦ (some r, w')
  | again decoder' w' ↦ read_loop os deadline fuel decoder' w'
]

-- Each round that goes on has taken at least one byte, and the decoder holds no more than these bounds
-- allow.
abbrev pub read_fuel : FrameLimits → ℕ
read_fuel limits = limits.header_block_max_bytes + limits.frame_max_bytes + 3

-- `read_one_frame`; the first flag tells whether there is a stdout.
unfoldable pub read_one_frame :
    {W : Type 0}
    → Os W
    → Bool
    → FrameLimits
    → ℕ
    → W
    → Option (Result DecodedFrame ReadFrameError) × W
unfolding read_loop new_decoder
read_one_frame os false limits timeout_ns w = (some (err plugin_exited), w)
read_one_frame os true limits timeout_ns w =
    let (now, w1) = os.now w in
    read_loop os (now + timeout_ns) (read_fuel limits) (new_decoder limits) w1

-- The failure that an error of a frame is recorded as (`map_frame_err`).
unfoldable pub map_frame_err : Libraries → ReadFrameError → Bool → FailureRecord
map_frame_err lib timeout true =
    new_failure FailureCode.initialize_timeout (codes "initialize timed out")
map_frame_err lib timeout false = new_failure FailureCode.run_timeout (codes "run timed out")
map_frame_err lib cancelled is_init =
    new_failure FailureCode.host_interrupted (codes "host cancelled during frame read")
map_frame_err lib (decode FrameDecodeError.unexpected_eof) is_init =
    new_failure FailureCode.unexpected_eof (codes "stdout closed before complete frame")
map_frame_err lib (decode FrameDecodeError.frame_too_large) is_init =
    new_failure FailureCode.frame_too_large (lib.frame_text FrameDecodeError.frame_too_large)
map_frame_err lib (decode FrameDecodeError.invalid_framing) is_init =
    new_failure FailureCode.invalid_framing (lib.frame_text FrameDecodeError.invalid_framing)
map_frame_err lib (io what) is_init = new_failure FailureCode.unexpected_eof what
map_frame_err lib plugin_exited is_init =
    new_failure FailureCode.plugin_exited (codes "plugin exited before valid response")

-- The task that drains stderr: what it retains, counts and hashes.
pub record Drained : Type 0 where
  pub retained : List ℕ
  pub total : ℕ
  pub truncated : Bool
  pub hashed : List ℕ

unfoldable pub retain : ℕ → List ℕ → Drained → Drained
retain limit bytes s =
    let n = length bytes in
    let counted = record s { total = s.total + n; hashed = s.hashed ++ bytes } in
    let taken = min n (limit - length s.retained) in
    if ltb (length s.retained) limit
    then record counted {
      retained = s.retained ++ take taken bytes;
      truncated = s.truncated || ltb taken n;
    }
    else record counted { truncated = true }

unfoldable pub drain_from : ℕ → List StderrRead → Drained → Drained
unfolding retain
drain_from limit [] s = s
drain_from limit (stderr_failed ∷ reads) s = s
drain_from limit (chunk byte bytes ∷ reads) s =
    drain_from limit reads (retain limit (byte ∷ bytes) s)

unfoldable pub drain_stderr : Libraries → ℕ → Bool → List StderrRead → StderrCapture
unfolding drain_from
drain_stderr lib limit capture_raw reads =
    let s =
      drain_from limit reads
        (record { retained = []; total = 0; truncated = false; hashed = [] }) in
    record {
      byte_count = s.total;
      sha256 = lib.sha256_hex s.hashed;
      truncated = s.truncated;
      raw_utf8_lossy = if capture_raw then some (lib.from_utf8_lossy s.retained) else none;
      sensitive_content = capture_raw;
    }

-- What `terminate_child` and `close_and_reap` change.
pub record ChildState : Type 0 where
  pub interruption : Option InterruptionMeta
  pub exit_status : Option ℕ
  pub failures : FailureCoordinator

abbrev is_exit : Option ExitStatus → Bool
is_exit none = false
is_exit (some status) = true

abbrev pub status_after : Option ExitStatus → Option ℕ → Option ℕ
status_after none before = before
status_after (some status) before = status.code

unfoldable pub terminate_child : {W : Type 0} → Os W → ChildState → W → ChildState × W
terminate_child os s w =
    let (attempted, w1) = os.start_kill w in
    let (waited, w2) = os.wait (millis 2000) w1 in
    let (is_cancelled, w3) = os.is_cancelled w2 in
    let met : InterruptionMeta = record {
      host_interrupted = is_cancelled;
      direct_child_termination_attempted = attempted;
      direct_child_exit_observed = is_exit waited;
    } in
    (
      record s {
        interruption = if is_cancelled || attempted then some met else s.interruption;
        exit_status = status_after waited s.exit_status;
      },
      w3,
    )

-- The round of the loop of `close_and_reap`, which always leaves it.
unfoldable pub on_probe : ReadOutcome → FailureCoordinator → FailureCoordinator
unfolding record_failure new_failure
on_probe (received byte bytes) failures =
    record_failure
      (new_failure FailureCode.unexpected_output (codes "additional stdout after valid response"))
      failures
on_probe elapsed failures = failures
on_probe closed failures = failures
on_probe (read_failed what) failures = failures

unfoldable pub probe_stdout :
    {W : Type 0} → Os W → ℕ → FailureCoordinator → W → FailureCoordinator × W
unfolding on_probe
probe_stdout os deadline failures w =
    let (before, w1) = os.now w in
    let (is_cancelled, w2) = os.is_cancelled w1 in
    let (now, w3) = os.now w2 in
    let (outcome, w4) = os.read_stdout 1 (deadline - now) w3 in
    if not (ltb before deadline)
    then (failures, w1)
    else if is_cancelled
    then (
      record_failure (new_failure FailureCode.host_interrupted (codes "interrupted during close"))
          failures,
      w2,
    )
    else if nat_beq (deadline - now) 0
    then (failures, w3)
    else (on_probe outcome failures, w4)

-- What the exit of the plugin means; both branches of the code record the same failure.
unfoldable pub on_exit : {W : Type 0} → Os W → ChildState → Option ExitStatus → W → ChildState × W
unfolding record_failure new_failure terminate_child
on_exit os s none w =
    terminate_child os
      (record s {
        failures =
            record_failure
              (new_failure FailureCode.plugin_exit_timeout
                (codes "plugin did not exit within exit grace"))
              s.failures;
      })
      w
on_exit os s (some status) w = (
  record s {
    exit_status = status.code;
    failures =
        if status.success
        then s.failures
        else record_failure
            (new_failure FailureCode.plugin_exited
              (codes "plugin exited with status " ++ status.shown))
            s.failures;
  },
  w,
)

-- `close_and_reap`
unfoldable pub close_and_reap : {W : Type 0} → Os W → Bool → ℕ → ChildState → W → ChildState × W
unfolding probe_stdout on_exit
close_and_reap os has_stdout grace s w =
    let (start, w1) = os.now w in
    let probed =
      if has_stdout then probe_stdout os (start + grace) s.failures w1 else (s.failures, w1) in
    let (now, w2) = os.now probed.1 in
    let (waited, w3) = os.wait (max (start + grace - now) (millis 1)) w2 in
    on_exit os (record s { failures = probed.0 }) waited w3
