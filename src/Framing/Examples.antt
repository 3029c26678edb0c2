-- ===== src/Framing/Examples.antt =====
-- A frame that comes in two chunks (crates/agentmesh-host/src/framing.rs), with the default limits.
use gareji_core.Base.{
  ℕ, ◌*◌, ◌≡◌, refl, none, some, List, [], ◌∷◌, ◌++◌, codes, ok, arith, text_ord, text_leq, ◌==◌,
  bytes, is_whitespace, is_ascii_lowercase, is_ascii_digit,
}
use gareji_core.Runner.{trim, trim_start, trim_end}
use gareji_core.Framing.{
  FrameLimits, FrameDecoder, headers, put_header, continues, then_char, finish_char, utf8_step,
  from_utf8_in, from_utf8, onto_line, split_crlf, before_colon, split_once, header_name_byte,
  is_valid_header_name, is_valid_header_value, ascii_lower, decimal, parse_length, parse_line,
  parse_lines, parse_headers, ends_line, decode_body, end_headers, header_step, decode_headers,
  decode_from, push, new_decoder,
}
use gareji_core.Framing.Chunks.{push-append}
use gareji_core.Framing.Encoding.{digits, encode, show}
use gareji_core.Framing.Lines.{Admits}
use gareji_core.Framing.RoundTrip.{push-encode}
use gareji_core.Framing.Limits.{CallFits, push_within_limits}

program : Unit {0}
unfolding text_leq ◌==◌ bytes is_whitespace is_ascii_lowercase is_ascii_digit trim trim_start
    trim_end put_header continues then_char finish_char utf8_step from_utf8_in from_utf8 onto_line
    split_crlf before_colon split_once header_name_byte is_valid_header_name is_valid_header_value
    ascii_lower decimal parse_length parse_line parse_lines parse_headers ends_line decode_body
    end_headers header_step decode_headers decode_from push new_decoder
program = tt

abbrev default_limits : FrameLimits
default_limits = record {
  frame_max_bytes = 4 * 1024 * 1024;
  header_block_max_bytes = 8 * 1024;
  header_line_max_bytes = 1024;
  header_max_lines = 16;
  content_length_digits_max = 10;
}

abbrev first_chunk : List ℕ
first_chunk = codes "content-length: 2\r\nX: y\r\n"

abbrev second_chunk : List ℕ
second_chunk = codes "\r\n{}C"

abbrev halfway : FrameDecoder
halfway = record { limits = default_limits; buf = []; state = headers first_chunk 25 2 }

first_pushed : push (new_decoder default_limits) first_chunk ≡ (ok none, halfway)
unfolding program
first_pushed = refl

frame_decoded : push halfway second_chunk ≡ (
  ok (some (record { body = codes "{}"; unknown_headers = (codes "X", codes "y") ∷ [] })),
  record { limits = default_limits; buf = codes "C"; state = headers [] 0 0 },
)
unfolding program
frame_decoded = refl

push-append_example :
    push halfway second_chunk ≡ push (new_decoder default_limits) (first_chunk ++ second_chunk)
push-append_example = push-append (new_decoder default_limits) first_chunk second_chunk first_pushed

push_within_limits_example :
    CallFits default_limits (push halfway second_chunk).0 (push halfway second_chunk).1.state
push_within_limits_example = push_within_limits halfway second_chunk (omega arith)

small_admitted : Admits default_limits 2
unfolding show digits
small_admitted = record {
  frame = omega arith;
  word = omega arith;
  digits = omega arith;
  line = omega arith;
  block = omega arith;
  lines = omega arith;
}

push-encode_example : push (new_decoder default_limits) (encode (codes "{}") ++ codes "Con") ≡ (
  ok (some (record { body = codes "{}"; unknown_headers = [] })),
  record { limits = default_limits; buf = codes "Con"; state = headers [] 0 0 },
)
push-encode_example = push-encode default_limits (codes "{}") (codes "Con") small_admitted
