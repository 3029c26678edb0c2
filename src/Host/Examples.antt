-- ===== src/Host/Examples.antt =====
-- A whole run of the Host (crates/agentmesh-host/src/run.rs) with a plugin that answers twice: the state of the world
-- counts the reads of its stdout.
use gareji_core.RunContract.{Value, entry_and, no_entries, object, number, string}
use gareji_core.Base.{
  ℕ, zero, suc, ◌≡◌, ◌≢◌, refl, true, false, none, some, List, [], ◌∷◌, ◌++◌, Text, codes, ok,
  text_ord, text_leq, ◌==◌, starts_with, contains, is_ascii_digit, bytes, is_whitespace,
  is_ascii_lowercase, value_at, Elem, ◌↔◌, length, take, ltb, if◌then◌else◌, map,
}
use gareji_core.Runner.{trim, trim_start, trim_end}
use gareji_core.Framing.{
  DecodedFrame, put_header, continues, then_char, finish_char, utf8_step, from_utf8_in, from_utf8,
  onto_line, split_crlf, before_colon, split_once, header_name_byte, is_valid_header_name,
  is_valid_header_value, ascii_lower, decimal, parse_length, parse_line, parse_lines, parse_headers,
  ends_line, decode_body, end_headers, header_step, decode_headers, decode_from, push, new_decoder,
  finish,
}
use gareji_core.Framing.Encoding.{digits, show, encode}
use gareji_core.Progress.Validate.{split}
use gareji_core.Protocol.{
  FailureCode, FailureRecord, category, default_limits, exit_code, new_failure, phase0,
  protocol_version, rpc_id, to_secondary, visible_byte,
}
use gareji_core.Protocol.Compact.{CompactOutcome, ok_envelope, error_envelope}
use gareji_core.Protocol.Strict.{
  is_ascii_whitespace, skip_ws, expect_char, parse_literal, then_slice, scan_string, string_value,
  parse_string, number_char, number_span, number_value, parse_number, insert_entry, lead, behind,
  closes, parse_value, enter, check_bounds, parse_text, parse_value_strict, from_slice_strict,
}
use gareji_core.Host.{
  ExitStatus, Libraries, Os, ReadOutcome, RunConfig, RunOutcome, StderrRead, closed, received,
  chunk, stderr_failed,
}
use gareji_core.Host.Failures.{
  new_coordinator, record_failure, record_audit_failure, record_stdout_failure, record_all,
  failure_precedence,
}
use gareji_core.Host.Redaction.{
  RedactionPolicy, valid_escapes, first_is, validate_pointer, from_pointers, is_noop, replace,
  decode_token, trim_slashes, tokens, parse_digits, parse_usize, with_entry, with_item, with_child,
  redact_at, redact_pointer, apply_from, apply,
}
use gareji_core.Host.Process.{
  path_of, resolve, restore, build_plugin_command, baseline_keys, build_plugin_command_env,
}
use gareji_core.Host.Streams.{
  frame_limits, at_end, on_push, on_read, read_round, read_loop, read_one_frame, map_frame_err,
  retain, drain_from, drain_stderr, terminate_child, on_probe, probe_stdout, on_exit,
  close_and_reap, done,
}
use gareji_core.Host.Streams.Draining.{observed, drain_stderr_lem}
use gareji_core.Host.Streams.Reading.{read_one_frame_total}
use gareji_core.Host.Streams.Trailing.{on_read_trailing}
use gareji_core.Host.Runs.Steps.{
  redacted_message, call, fail_with, fail, set_hash, set_timing, note_headers, set_plugin_version,
  set_payload, time_from, terminate, join_stderr, abort, push_message,
}
use gareji_core.Host.Runs.Exchange.{
  input_code, refuse, refuse_started, check_redaction, parsed_input, check_input, resolved, spawned,
  start_plugin, expect_id, written, send_frame, read_frame, received_frame, exchange, response,
  initialized, initialize, ran, run_plugin, reap, close_run, session_from, session,
}
use gareji_core.Host.Runs.Finish.{
  audit_code, audit_message, is_stdout_write_failed, persisted, envelope_of, delivered, outcome_of,
  redaction_meta, document_of, write_audit, finish as finish_run, initial_state, after_session,
  execute_run_with,
}
use gareji_core.Host.Runs.Success.{Success}

program : Unit {0}
unfolding ◌==◌ text_leq starts_with contains is_ascii_digit bytes is_whitespace is_ascii_lowercase
    value_at trim trim_start trim_end put_header continues then_char finish_char utf8_step
    from_utf8_in from_utf8 onto_line split_crlf before_colon split_once header_name_byte
    is_valid_header_name is_valid_header_value ascii_lower decimal parse_length parse_line
    parse_lines parse_headers ends_line decode_body end_headers header_step decode_headers
    decode_from push new_decoder finish digits show encode split category exit_code new_failure
    phase0 rpc_id to_secondary visible_byte ok_envelope error_envelope is_ascii_whitespace skip_ws
    expect_char parse_literal then_slice scan_string string_value parse_string number_char
    number_span number_value parse_number insert_entry lead behind closes parse_value enter
    check_bounds parse_text parse_value_strict from_slice_strict new_coordinator record_failure
    record_audit_failure record_stdout_failure valid_escapes first_is validate_pointer from_pointers
    is_noop replace decode_token trim_slashes tokens parse_digits parse_usize with_entry with_item
    with_child redact_at redact_pointer apply_from apply path_of resolve restore
    build_plugin_command frame_limits at_end on_push on_read read_round read_loop read_one_frame
    map_frame_err retain drain_from drain_stderr terminate_child on_probe probe_stdout on_exit
    close_and_reap redacted_message call fail_with fail set_hash set_timing note_headers
    set_plugin_version set_payload time_from terminate join_stderr abort push_message input_code
    refuse refuse_started check_redaction parsed_input check_input resolved spawned start_plugin
    expect_id written send_frame read_frame received_frame exchange response initialized initialize
    ran run_plugin reap close_run session_from session audit_code audit_message
    is_stdout_write_failed persisted envelope_of delivered outcome_of redaction_meta document_of
    write_audit finish_run initial_state after_session execute_run_with
program = tt

abbrev before_quote : Text → Text
before_quote [] = []
before_quote (c ∷ []) = []
before_quote (c ∷ d ∷ t) = c ∷ before_quote (d ∷ t)

abbrev inner : Text → Text
inner [] = []
inner (c ∷ t) = before_quote t

abbrev frame_bytes : List ℕ
frame_bytes = codes "ontent-Length: 2\r\n\r\n{}"

-- The two answers and then the end of stdout, by the count of reads.
abbrev stdout_at : ℕ → ReadOutcome
stdout_at zero = received b'C' frame_bytes
stdout_at (suc zero) = received b'C' frame_bytes
stdout_at (suc (suc n)) = closed

abbrev exited_well : ExitStatus
exited_well = record { code = some 0; success = true; shown = codes "exit status: 0" }

abbrev os : Os ℕ
os = record {
  is_cancelled = λ w. (false, w);
  now = λ w. (0, w);
  utc_now = λ w. (0, w);
  new_uuid = λ w. (codes "u", w);
  metadata = λ path w. (some true, w);
  spawn = λ command w. (ok (record { stdin = true; stdout = true }), w);
  write_stdin = λ body w. (ok tt, w);
  close_stdin = λ w. w;
  read_stdout = λ size limit w. (stdout_at w, suc w);
  join_stderr = λ w. (some [], w);
  start_kill = λ w. (true, w);
  wait = λ limit w. (some exited_well, w);
  persist = λ dir id document limit w. (
    ok (record { path = codes "/a/1"; sync_level = codes "full"; commit_method = codes "rename" }),
    w,
  );
  write_sink = λ envelope w. (ok tt, w);
}

abbrev answer : Value
answer = object (entry_and (codes "n") (number (codes "1")) no_entries)

abbrev lib : Libraries
lib = record {
  scalars = record { string_of = λ t. ok (string (inner t)); number_of = λ t. ok (number t) };
  from_slice = λ raw. none;
  initialize_request = λ r. codes "{}";
  run_request = λ r. codes "{}";
  initialize_response = λ v. some (record {
    result = some (record {
      protocol_version = protocol_version;
      plugin_version = codes "1";
      capabilities = [];
    });
    error = none;
    id = codes "init-1";
  });
  run_response = λ v.
      some
        (record { result = some (record { payload = answer }); error = none; id = codes "run-1" });
  document = λ d. ok (codes "{}");
  envelope = λ e. some (codes "{}");
  sha256_hex = λ b. b;
  from_utf8_lossy = λ b. b;
  is_absolute = λ p. true;
  env_var = λ key. if key == codes "TERM" then some (codes "vt100") else none;
  host_version = codes "0.1.0";
  proto_text = λ e. [];
  frame_text = λ e. [];
  audit_text = λ e. [];
}

abbrev config : RunConfig
config = record {
  plugin = codes "/p";
  input = codes "{}";
  sidecar_dir = codes "/a";
  plugin_env_keys = codes "TERM" ∷ [];
  redact_pointers = codes "/n" ∷ [];
  capture_plugin_stderr = false;
  limits = default_limits;
  run_id = some (codes "1");
}

abbrev outcome : RunOutcome
outcome = record {
  envelope = record {
    schema_version = protocol_version;
    run_id = codes "1";
    outcome = CompactOutcome.ok;
    payload = answer;
    artifacts = record { path = codes "/a/1" } ∷ [];
    diagnostics = [];
  };
  exit_code = 0;
  sidecar_path = some (codes "/a/1");
}

read_one_frame_total_example : (read_one_frame os true (frame_limits default_limits) 5 0).0 ≢ none
read_one_frame_total_example = read_one_frame_total os true (frame_limits default_limits) 5 0

abbrev frame : DecodedFrame
frame = record { body = codes "{}"; unknown_headers = [] }

frame_read :
    on_read {W = ℕ} (new_decoder (frame_limits default_limits)) (received b'C' frame_bytes) 0
    ≡ done (ok frame) 0
unfolding program
frame_read = refl

on_read_trailing_example :
    on_read {W = ℕ}
      (new_decoder (frame_limits default_limits))
      (received b'C' (frame_bytes ++ codes "more"))
      0
    ≡ done (ok frame) 0
on_read_trailing_example =
    on_read_trailing (new_decoder (frame_limits default_limits)) b'C' frame_bytes (codes "more") 0
      frame_read

abbrev stderr_reads : List StderrRead
stderr_reads = chunk 1 (2 ∷ 3 ∷ []) ∷ chunk 4 (5 ∷ []) ∷ stderr_failed ∷ chunk 6 [] ∷ []

drain_stderr_lem_example : drain_stderr lib 4 true stderr_reads ≡ record {
  byte_count = length (observed stderr_reads);
  sha256 = lib.sha256_hex (observed stderr_reads);
  truncated = ltb 4 (length (observed stderr_reads));
  raw_utf8_lossy =
      if true then some (lib.from_utf8_lossy (take 4 (observed stderr_reads))) else none;
  sensitive_content = true;
}
drain_stderr_lem_example = drain_stderr_lem lib 4 true stderr_reads

stderr_drained : drain_stderr lib 4 true stderr_reads ≡ record {
  byte_count = 5;
  sha256 = 1 ∷ 2 ∷ 3 ∷ 4 ∷ 5 ∷ [];
  truncated = true;
  raw_utf8_lossy = some (1 ∷ 2 ∷ 3 ∷ 4 ∷ []);
  sensitive_content = true;
}
unfolding program
stderr_drained = refl

abbrev policy : RedactionPolicy
policy = record { pointers = codes "/x" ∷ codes "/n" ∷ [] }

redacted_answer :
    apply policy answer
    ≡ (1, object (entry_and (codes "n") (string (codes "<redacted>")) no_entries))
unfolding program
redacted_answer = refl

build_plugin_command_env_example :
    (value_at (codes "TERM") (build_plugin_command lib (codes "/p") (codes "TERM" ∷ [])).env
      ≡ some (codes "vt100"))
    ↔ (Elem (codes "TERM") (baseline_keys ++ (codes "TERM" ∷ []))
        × (lib.env_var (codes "TERM") ≡ some (codes "vt100")))
build_plugin_command_env_example =
    build_plugin_command_env lib (codes "/p") (codes "TERM" ∷ []) (codes "TERM") (codes "vt100")

abbrev first_failure : FailureRecord
first_failure = record {
  category = category FailureCode.run_timeout;
  code = FailureCode.run_timeout;
  message = codes "a";
}

abbrev last_failure : FailureRecord
last_failure = record {
  category = category FailureCode.stdout_write_failed;
  code = FailureCode.stdout_write_failed;
  message = codes "b";
}

failure_precedence_example :
    (record_all (first_failure ∷ last_failure ∷ []) new_coordinator
      ≡ record { primary = some first_failure; secondary = map to_secondary (last_failure ∷ []) })
    × (record_stdout_failure last_failure
          (record_all (first_failure ∷ last_failure ∷ []) new_coordinator)
        ≡ record {
          primary = some last_failure;
          secondary = map to_secondary (first_failure ∷ last_failure ∷ []);
        })
failure_precedence_example = failure_precedence first_failure last_failure (last_failure ∷ [])
