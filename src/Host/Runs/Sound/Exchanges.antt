-- ===== src/Host/Runs/Sound/Exchanges.antt =====
-- The exchanges of frames with the plugin are sound (crates/agentmesh-host/src/run.rs).
use gareji_core.RunContract.{Value}
use gareji_core.Base.{
  ℕ, ◌≡◌, ◌≢◌, inl, inr, refl, Bool, true, false, Option, none, some, List, [], ◌∷◌, ◌++◌, Text,
  codes, if◌then◌else◌, Result, ok, err, ok_or, ◌==◌, text_ord, Bool-cases,
}
use gareji_core.Base.{◌>>=◌ as bind_result}
use gareji_core.Protocol.{
  FailureCode, ProtoError, InitializeResult, JsonRpcError, JsonRpcResponse, phase0,
  protocol_version, RunResult, category, new_failure, rpc_id,
}
use gareji_core.Protocol.Strict.{
  Stop, exhausted as no_fuel, refused, from_slice_strict, parse_value_strict,
}
use gareji_core.Protocol.Strict.Fuel.{parse_value_strict_total}
use gareji_core.Framing.{DecodedFrame, FrameDecodeError, Headers}
use gareji_core.Host.{Libraries, Os, RunConfig, Pipes}
use gareji_core.Host.Redaction.{RedactionPolicy}
use gareji_core.Framing.Encoding.{encode}
use gareji_core.Host.Streams.{
  frame_limits, ReadFrameError, read_one_frame, terminate_child, millis, map_frame_err,
}
use gareji_core.Host.Streams.Reading.{read_one_frame_total}
use gareji_core.Host.Runs.Steps.{
  RunState, Step, call, fail, fail_with, join_stderr, note_headers, push_message, set_payload,
  set_plugin_version, set_timing, terminate, time_from,
}
use gareji_core.Host.Runs.Exchange.{
  initialize_method, run_method, exchange, expect_id, initialize, initialized, ran, read_flow,
  read_frame, received_frame, refuse_started, response, run_plugin, send_frame, written,
}
use gareji_core.Host.Runs.Sound.{
  Categorised, Good, Sound, record_failure-Failed, record_new, ◌then◌, abort-Sound, call-Good,
  fail-Good, give-Good, set_hash-Good, refuse_started-Good, time_from-Good,
}

module _ {W : Type 0} (lib : Libraries) (os : Os W) (config : RunConfig) (Reason : Type 0) where
  written-Good :
      (timing : Text) (start : ℕ) (r : Result Unit Text)
      → Good Reason (written lib os config timing start r)
  unfolding written fail fail_with terminate terminate_child join_stderr time_from call set_timing
  written-Good timing start (ok u) = record { runs = λ s h. h }
  written-Good timing start (err e) = record {
    runs = λ s h. record_new FailureCode.plugin_write_failed e s.failures h;
  }

  send_frame-Good :
      (pipes : Pipes) (timing : Text) (start : ℕ) (body : List ℕ)
      → Good Reason (send_frame lib os config pipes timing start body)
  unfolding send_frame
  send_frame-Good pipes timing start body = record {
    runs = λ s h. elim (Bool-cases pipes.stdin) [
      | inl e ↦ rw e (
          (call-Good lib os config Reason (os.write_stdin (encode body)) then λ r.
          written-Good timing start r).runs
            s h)
      | inr e ↦ rw e h
    ];
  }

  map_frame_err-category :
      (e : ReadFrameError) (is_init : Bool)
      → (map_frame_err lib e is_init).category ≡ category (map_frame_err lib e is_init).code
  unfolding map_frame_err new_failure
  map_frame_err-category ReadFrameError.timeout true = refl
  map_frame_err-category ReadFrameError.timeout false = refl
  map_frame_err-category ReadFrameError.cancelled is_init = refl
  map_frame_err-category (ReadFrameError.decode FrameDecodeError.unexpected_eof) is_init = refl
  map_frame_err-category (ReadFrameError.decode FrameDecodeError.frame_too_large) is_init = refl
  map_frame_err-category (ReadFrameError.decode FrameDecodeError.invalid_framing) is_init = refl
  map_frame_err-category (ReadFrameError.io what) is_init = refl
  map_frame_err-category ReadFrameError.plugin_exited is_init = refl

  received_frame-Good :
      (is_init : Bool) (r : Result DecodedFrame ReadFrameError)
      → Good Reason (received_frame lib os config is_init r)
  unfolding received_frame fail_with
  received_frame-Good is_init (ok frame) = record { runs = λ s h. h }
  received_frame-Good is_init (err e) = record {
    runs = λ s h.
        let (c, f) =
          record_failure-Failed (map_frame_err lib e is_init) s.failures
            (map_frame_err-category e is_init) h in
        abort-Sound lib os config Reason DecodedFrame (fail_with (map_frame_err lib e is_init) s).1
          c f;
  }

  read_frame-Good :
      (pipes : Pipes) (timeout_ms : ℕ) → Good Reason (read_frame lib os config pipes timeout_ms)
  unfolding read_frame
  read_frame-Good pipes timeout_ms = record {
    runs = λ s h.
        by_read s h
          (read_one_frame os pipes.stdout (frame_limits config.limits) (millis timeout_ms) s.world)
          (read_one_frame_total os pipes.stdout (frame_limits config.limits) (millis timeout_ms)
            s.world);
  }
    where
      by_read :
          (s : RunState W)
          → Categorised s.failures.primary
          → (r : Option (Result DecodedFrame ReadFrameError) × W) → r.0 ≢ none
          → Sound Reason (read_flow r.0, record s { world = r.1 })
      by_read s h (none, w) k = absurd (k refl)
      by_read s h (some r, w) k = h

  push_message-Good :
      (redaction : RedactionPolicy) (direction method : Text) (raw : List ℕ)
      → Good Reason (push_message lib os redaction direction method raw)
  unfolding push_message
  push_message-Good redaction direction method raw = record { runs = λ s h. h }

  note_headers-Good : (hs : Headers) → Good {W = W} Reason (note_headers hs)
  unfolding note_headers
  note_headers-Good [] = record { runs = λ s h. h }
  note_headers-Good (x ∷ hs) = record { runs = λ s h. h }

  exchange-Good :
      (pipes : Pipes) (redaction : RedactionPolicy) (is_init : Bool) (method timing hash : Text)
      (timeout_ms : ℕ) (body : List ℕ)
      → Good Reason
          (exchange lib os config pipes redaction is_init method timing hash timeout_ms body)
  unfolding exchange
  exchange-Good pipes redaction is_init method timing hash timeout_ms body =
      push_message-Good redaction (codes "host_to_plugin") method body then λ _.
      call-Good lib os config Reason os.utc_now then λ start.
      send_frame-Good pipes timing start body then λ _.
      read_frame-Good pipes timeout_ms then λ read.
      time_from-Good lib os config Reason timing start then λ _.
      received_frame-Good is_init read then λ frame.
      note_headers-Good frame.unknown_headers then λ _.
      set_hash-Good lib os config Reason hash (lib.sha256_hex frame.body) then λ _.
      push_message-Good redaction (codes "plugin_to_host") method frame.body then λ _.
      give-Good lib os config Reason frame.body

  response-Good :
      {R : Type 0} (r : Result (JsonRpcResponse R) Stop)
      → r ≢ err no_fuel
      → Good Reason (response lib os config r)
  unfolding response
  response-Good (ok r) k = give-Good lib os config Reason r
  response-Good {R} (err (refused e)) k =
      refuse_started-Good lib os config Reason (JsonRpcResponse R) _ _
  response-Good (err no_fuel) k = absurd (k refl)

  from_slice_strict_total :
      {T : Type 0} (from_value : Value → Option T) (input : List ℕ)
      → from_slice_strict lib.scalars from_value config.limits input ≢ err no_fuel
  unfolding from_slice_strict
  from_slice_strict_total {T} from_value input =
      go (parse_value_strict lib.scalars config.limits input)
        (parse_value_strict_total lib.scalars config.limits input)
    where
      decoded : (o : Option T) → ok_or o (refused ProtoError.schema_violation) ≢ err no_fuel
      decoded none e = cc
      decoded (some t) e = cc

      go :
          (r : Result Value Stop)
          → r ≢ err no_fuel
          → bind_result r (λ v. ok_or (from_value v) (refused ProtoError.schema_violation))
            ≢ err no_fuel
      go (ok v) k = decoded (from_value v)
      go (err (refused e)) k = λ q. cc
      go (err no_fuel) k = absurd (k refl)

  initialized-Good :
      (r : JsonRpcResponse InitializeResult) → Good Reason (initialized lib os config r)
  unfolding initialized set_plugin_version
  initialized-Good r = go r.error refl
    where
      by_version :
          (result : InitializeResult)
          → r.error ≡ none
          → r.result ≡ some result
          → (b : Bool) → (result.protocol_version == protocol_version) ≡ b
          → Good Reason (initialized lib os config r)
      by_version result e q true same = rw (initialized, e, q, same) (record { runs = λ s h. h })
      by_version result e q false other =
          rw (initialized, e, q, other) (refuse_started-Good lib os config Reason Unit _ _)

      by_result :
          r.error ≡ none
          → (o : Option InitializeResult) → r.result ≡ o
          → Good Reason (initialized lib os config r)
      by_result e none q =
          rw (initialized, e, q) (refuse_started-Good lib os config Reason Unit _ _)
      by_result e (some result) q =
          by_version result e q (result.protocol_version == protocol_version) refl

      go : (o : Option JsonRpcError) → r.error ≡ o → Good Reason (initialized lib os config r)
      go none e = by_result e r.result refl
      go (some x) e = rw (initialized, e) (refuse_started-Good lib os config Reason Unit _ _)

  ran-Good : (r : JsonRpcResponse RunResult) → Good Reason (ran lib os config r)
  unfolding ran set_payload
  ran-Good r = go r.error refl
    where
      by_result :
          r.error ≡ none → (o : Option RunResult) → r.result ≡ o → Good Reason (ran lib os config r)
      by_result e none q = rw (ran, e, q) (fail-Good lib os config Reason _ _)
      by_result e (some result) q = rw (ran, e, q) (record { runs = λ s h. h })

      go : (o : Option JsonRpcError) → r.error ≡ o → Good Reason (ran lib os config r)
      go none e = by_result e r.result refl
      go (some x) e = rw (ran, e) (fail-Good lib os config Reason _ _)

  if-Good :
      {A : Type 0} (b : Bool) (m k : Step W A)
      → Good Reason m
      → Good Reason k
      → Good Reason (if b then m else k)
  if-Good true m k p q = p
  if-Good false m k p q = q

  expect_id-Good :
      (r : Result Text ProtoError)
      → ((e : ProtoError) → r ≡ err e → Reason)
      → Good Reason (expect_id lib os config r)
  unfolding expect_id
  expect_id-Good (ok id) why = give-Good lib os config Reason id
  expect_id-Good (err e) why = record { runs = λ s h. why e refl }

  pub initialize-Good :
      (pipes : Pipes) (redaction : RedactionPolicy) (run_id : Text)
      → ((e : ProtoError) → rpc_id (codes "init-" ++ run_id) ≡ err e → Reason)
      → Good Reason (initialize lib os config pipes redaction run_id)
  unfolding initialize
  initialize-Good pipes redaction run_id why =
      expect_id-Good (rpc_id (codes "init-" ++ run_id)) why then λ id.
      exchange-Good pipes redaction true initialize_method (codes "initialize_ms")
        (codes "initialize_response") config.limits.initialize_timeout_ms
        (lib.initialize_request
          (record { method = initialize_method; params = phase0 lib.host_version; id = id }))
      then λ body.
          response-Good (from_slice_strict lib.scalars lib.initialize_response config.limits body)
            (from_slice_strict_total lib.initialize_response body)
          then λ r.
              if-Good (r.id == id) (initialized lib os config r)
                (refuse_started lib os config FailureCode.rpc_id_mismatch
                  (codes "initialize response id mismatch"))
                (initialized-Good r) (refuse_started-Good lib os config Reason Unit _ _)

  pub run_plugin-Good :
      (pipes : Pipes) (redaction : RedactionPolicy) (run_id : Text) (input : Value)
      → ((e : ProtoError) → rpc_id (codes "run-" ++ run_id) ≡ err e → Reason)
      → Good Reason (run_plugin lib os config pipes redaction run_id input)
  unfolding run_plugin
  run_plugin-Good pipes redaction run_id input why =
      expect_id-Good (rpc_id (codes "run-" ++ run_id)) why then λ id.
      exchange-Good pipes redaction false run_method (codes "run_ms") (codes "run_response")
        config.limits.run_timeout_ms
        (lib.run_request (record {
          method = run_method;
          params = record { run_id = run_id; input = input };
          id = id;
        }))
      then λ body.
          response-Good (from_slice_strict lib.scalars lib.run_response config.limits body)
            (from_slice_strict_total lib.run_response body)
          then λ r.
              if-Good (r.id == id) (ran lib os config r)
                (refuse_started lib os config FailureCode.rpc_id_mismatch
                  (codes "run response id mismatch"))
                (ran-Good r) (refuse_started-Good lib os config Reason Unit _ _)
