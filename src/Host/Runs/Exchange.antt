-- ===== src/Host/Runs/Exchange.antt =====
-- The phases of a run (crates/agentmesh-host/src/run.rs): the checks before the plugin starts, the two
-- exchanges of frames with it, and its end.
use gareji_core.RunContract.{Value}
use gareji_core.Base.{
  ℕ, Bool, true, false, Option, none, some, List, ◌++◌, Text, codes, ltb, if◌then◌else◌, Result, ok,
  err, length, is_empty, ◌==◌, text_ord, text_leq,
}
use gareji_core.Framing.{DecodedFrame}
use gareji_core.Framing.Encoding.{encode, show}
use gareji_core.Protocol.{
  FailureCode, InitializeResult, JsonRpcResponse, JsonRpcError, ProtoError, RunResult,
  batch_rejected, duplicate_key, invalid_id, invalid_json, phase0, protocol_version, rpc_id,
  schema_violation, tree_bound,
}
use gareji_core.Protocol.Strict.{Stop, from_slice_strict, parse_value_strict, refused}
use gareji_core.Host.{Libraries, Os, Pipes, RunConfig}
use gareji_core.Host.Process.{
  PluginPathError, build_plugin_command, not_absolute, not_file, not_found, resolve,
}
use gareji_core.Host.Redaction.{RedactionPolicy, from_pointers, invalid_pointer}
use gareji_core.Host.Streams.{
  ReadFrameError, close_and_reap, frame_limits, map_frame_err, millis, read_one_frame,
}
use gareji_core.Host.Runs.Steps.{
  Flow, Step, ◌>>=◌, ◌>>◌, next, exhausted, give, leaving, stuck, panicking, call, fail, fail_with,
  set_hash, note_headers, set_plugin_version, set_payload, time_from, terminate, join_stderr, abort,
  push_message, child_of, with_child,
}

abbrev pub initialize_method : Text
initialize_method = codes "initialize"

abbrev pub run_method : Text
run_method = codes "agentmesh.run"

-- The failure that an error of the strict parser is recorded as.
unfoldable pub input_code : ProtoError → FailureCode
input_code invalid_json = FailureCode.input_invalid_json
input_code (duplicate_key key) = FailureCode.input_invalid_json
input_code tree_bound = FailureCode.input_schema_violation
input_code schema_violation = FailureCode.input_schema_violation
input_code invalid_id = FailureCode.input_invalid_json
input_code batch_rejected = FailureCode.input_invalid_json

abbrev pub read_flow :
    Option (Result DecodedFrame ReadFrameError) → Flow (Result DecodedFrame ReadFrameError)
read_flow none = exhausted
read_flow (some r) = next r

module _ {W : Type 0} (lib : Libraries) (os : Os W) (config : RunConfig) where
  unfoldable pub refuse : {A : Type 0} → FailureCode → Text → Step W A
  unfolding fail
  refuse code message = do fail code message; leaving

  -- The same behind the start of the plugin.
  unfoldable pub refuse_started : {A : Type 0} → FailureCode → Text → Step W A
  unfolding fail abort
  refuse_started code message = do fail code message; abort lib os config

  unfoldable pub check_redaction : Step W RedactionPolicy
  unfolding from_pointers refuse
  check_redaction = elim (from_pointers config.redact_pointers) [
    | ok policy ↦ give policy
    | err (invalid_pointer message) ↦
        refuse FailureCode.input_schema_violation (codes "invalid redact pointer: " ++ message)
  ]

  unfoldable pub parsed_input : Result Value Stop → Step W Value
  unfolding refuse input_code
  parsed_input (ok value) = give value
  parsed_input (err (refused e)) = refuse (input_code e) (lib.proto_text e)
  parsed_input (err Stop.exhausted) = stuck

  unfoldable pub check_input : Step W Value
  unfolding refuse set_hash parsed_input parse_value_strict show
  check_input =
      if is_empty config.input
      then refuse FailureCode.input_empty (codes "input has zero bytes")
      else if ltb config.limits.input_max_bytes (length config.input)
      then refuse FailureCode.input_too_large (
          codes "input "
          ++ (show (length config.input)
              ++ (codes " bytes exceeds limit " ++ show config.limits.input_max_bytes)))
      else (do
        set_hash (codes "input") (lib.sha256_hex config.input)
        parsed_input (parse_value_strict lib.scalars config.limits config.input))

  unfoldable pub resolved : Result Text PluginPathError → Step W Text
  unfolding refuse
  resolved (ok path) = give path
  resolved (err not_absolute) =
      refuse FailureCode.plugin_spawn_failed
        (codes "plugin path must be an absolute native executable")
  resolved (err not_found) =
      refuse FailureCode.plugin_not_found (codes "plugin absolute path does not exist")
  resolved (err not_file) =
      refuse FailureCode.plugin_spawn_failed (codes "plugin path is not a file")

  unfoldable pub spawned : Result Pipes Text → Step W Pipes
  unfolding refuse
  spawned (ok pipes) = give pipes
  spawned (err e) = refuse FailureCode.plugin_spawn_failed e

  unfoldable pub start_plugin : Step W Pipes
  unfolding call resolve resolved build_plugin_command spawned
  start_plugin = do
    found ← call (resolve lib os config.plugin)
    path ← resolved found
    started ← call (os.spawn (build_plugin_command lib path config.plugin_env_keys))
    spawned started

  -- `JsonRpcId::new(…).expect("valid id")`
  unfoldable pub expect_id : Result Text ProtoError → Step W Text
  expect_id (ok id) = give id
  expect_id (err e) = panicking

  unfoldable pub written : Text → ℕ → Result Unit Text → Step W Unit
  unfolding fail terminate join_stderr time_from
  written timing start (ok u) = give tt
  written timing start (err e) = do
    fail FailureCode.plugin_write_failed e
    terminate lib os
    join_stderr lib os config
    time_from lib os timing start
    leaving

  unfoldable pub send_frame : Pipes → Text → ℕ → List ℕ → Step W Unit
  unfolding call written encode
  send_frame pipes timing start body =
      if pipes.stdin
      then (do result ← call (os.write_stdin (encode body)); written timing start result)
      else give tt

  unfoldable pub read_frame : Pipes → ℕ → Step W (Result DecodedFrame ReadFrameError)
  unfolding read_one_frame frame_limits
  read_frame pipes timeout_ms s =
      let (read, w) =
        read_one_frame os pipes.stdout (frame_limits config.limits) (millis timeout_ms) s.world in
      (read_flow read, record s { world = w })

  unfoldable pub received_frame : Bool → Result DecodedFrame ReadFrameError → Step W DecodedFrame
  unfolding fail_with abort map_frame_err
  received_frame is_init (ok frame) = give frame
  received_frame is_init (err e) = do fail_with (map_frame_err lib e is_init); abort lib os config

  -- A frame is sent, and one is awaited and recorded.
  unfoldable pub exchange :
      Pipes → RedactionPolicy → Bool → Text → Text → Text → ℕ → List ℕ → Step W (List ℕ)
  unfolding push_message call send_frame read_frame time_from received_frame note_headers set_hash
  exchange pipes redaction is_init method timing hash timeout_ms body = do
    push_message lib os redaction (codes "host_to_plugin") method body
    start ← call os.utc_now
    send_frame pipes timing start body
    read ← read_frame pipes timeout_ms
    time_from lib os timing start
    frame ← received_frame is_init read
    note_headers frame.unknown_headers
    set_hash hash (lib.sha256_hex frame.body)
    push_message lib os redaction (codes "plugin_to_host") method frame.body
    give frame.body

  unfoldable pub response :
      {R : Type 0} → Result (JsonRpcResponse R) Stop → Step W (JsonRpcResponse R)
  unfolding refuse_started
  response (ok r) = give r
  response (err (refused e)) = refuse_started FailureCode.schema_violation (lib.proto_text e)
  response (err Stop.exhausted) = stuck

  abbrev pub application_error : Text → JsonRpcError → Text
  application_error what e = what ++ (e.code ++ (codes ": " ++ e.message))

  unfoldable pub initialized : JsonRpcResponse InitializeResult → Step W Unit
  unfolding refuse_started set_plugin_version text_leq
  initialized r = elim r.error [
    | some e ↦
        refuse_started FailureCode.plugin_application_error
          (application_error (codes "initialize error ") e)
    | none ↦ elim r.result [
      | none ↦
          refuse_started FailureCode.schema_violation (codes "initialize response missing result")
      | some result ↦
          if result.protocol_version == protocol_version
          then set_plugin_version result.plugin_version
          else refuse_started FailureCode.protocol_version_mismatch
              (codes "no shared protocol version: plugin selected " ++ result.protocol_version)
    ]
  ]

  unfoldable pub initialize : Pipes → RedactionPolicy → Text → Step W Unit
  unfolding expect_id rpc_id phase0 exchange response from_slice_strict initialized refuse_started
      text_leq
  initialize pipes redaction run_id = do
    id ← expect_id (rpc_id (codes "init-" ++ run_id))
    body ←
        exchange pipes redaction true initialize_method (codes "initialize_ms")
          (codes "initialize_response") config.limits.initialize_timeout_ms
          (lib.initialize_request
            (record { method = initialize_method; params = phase0 lib.host_version; id = id }))
    r ← response (from_slice_strict lib.scalars lib.initialize_response config.limits body)
    if r.id == id
        then initialized r
        else refuse_started FailureCode.rpc_id_mismatch (codes "initialize response id mismatch")

  -- An error of the plugin, or a response with nothing in it, is recorded, and the run goes on to its end.
  unfoldable pub ran : JsonRpcResponse RunResult → Step W Unit
  unfolding fail set_payload
  ran r = elim r.error [
    | some e ↦
        fail FailureCode.plugin_application_error
          (application_error (codes "plugin application error ") e)
    | none ↦ elim r.result [
      | some result ↦ set_payload result.payload
      | none ↦ fail FailureCode.schema_violation (codes "run response missing result and error")
    ]
  ]

  unfoldable pub run_plugin : Pipes → RedactionPolicy → Text → Value → Step W Unit
  unfolding expect_id rpc_id exchange response from_slice_strict ran refuse_started text_leq
  run_plugin pipes redaction run_id input = do
    id ← expect_id (rpc_id (codes "run-" ++ run_id))
    body ←
        exchange pipes redaction false run_method (codes "run_ms") (codes "run_response")
          config.limits.run_timeout_ms
          (lib.run_request (record {
            method = run_method;
            params = record { run_id = run_id; input = input };
            id = id;
          }))
    r ← response (from_slice_strict lib.scalars lib.run_response config.limits body)
    if r.id == id
        then ran r
        else refuse_started FailureCode.rpc_id_mismatch (codes "run response id mismatch")

  unfoldable pub reap : Pipes → Step W Unit
  unfolding close_and_reap
  reap pipes s = (
    next tt,
    with_child s
        (close_and_reap os pipes.stdout (millis config.limits.exit_grace_ms) (child_of s) s.world),
  )

  unfoldable pub close_run : Pipes → ℕ → Step W Unit
  unfolding call reap time_from join_stderr
  close_run pipes started = do
    call (λ w. (tt, os.close_stdin w))
    start ← call os.utc_now
    reap pipes
    time_from lib os (codes "close_ms") start
    join_stderr lib os config
    time_from lib os (codes "total_ms") started

  -- Everything before `finish`; the clock is read first.
  unfoldable pub session_from : Text → ℕ → Step W RedactionPolicy
  session_from run_id started = do
    redaction ← check_redaction
    input ← check_input
    pipes ← start_plugin
    initialize pipes redaction run_id
    run_plugin pipes redaction run_id input
    close_run pipes started
    give redaction

  unfoldable pub session : Text → Step W RedactionPolicy
  session run_id = do started ← call os.utc_now; session_from run_id started
