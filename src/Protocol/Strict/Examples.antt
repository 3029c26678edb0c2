-- ===== src/Protocol/Strict/Examples.antt =====
-- The strict parser (crates/agentmesh-proto/src/json_strict.rs) on small texts. The scalars stand for
-- serde_json: the characters between the quotes, and a number as it is written.
use gareji_core.Base.{
  ℕ, ◌≡◌, ◌≢◌, refl, true, List, [], ◌∷◌, Text, codes, ok, err, text_ord, text_leq, ◌==◌,
  starts_with, contains, is_ascii_digit,
}
use gareji_core.RunContract.{
  Value, array, bool, entry_and, no_entries, no_values, null, number, object, string, value_and,
}
use gareji_core.Framing.{then_char, finish_char, utf8_step, from_utf8_in, from_utf8, continues}
use gareji_core.Protocol.{default_limits, duplicate_key, tree_bound, invalid_json}
use gareji_core.Protocol.Strict.{
  Scalars, refused, exhausted, is_ascii_whitespace, skip_ws, expect_char, parse_literal, then_slice,
  scan_string, string_value, parse_string, number_char, number_span, number_value, parse_number,
  insert_entry, lead, behind, closes, parse_value, enter, check_bounds, parse_text,
  parse_value_strict, parse_members,
}
use gareji_core.Protocol.Strict.Fuel.{parse_value_strict_total}
use gareji_core.Protocol.Strict.Keys.{New, member_keys, parse_members_distinct}

abbrev before_quote : Text → Text
before_quote [] = []
before_quote (c ∷ []) = []
before_quote (c ∷ d ∷ t) = c ∷ before_quote (d ∷ t)

abbrev inner : Text → Text
inner [] = []
inner (c ∷ t) = before_quote t

abbrev scalars : Scalars
scalars = record { string_of = λ t. ok (string (inner t)); number_of = λ t. ok (number t) }

program : Unit {0}
unfolding ◌==◌ text_leq starts_with contains is_ascii_digit then_char finish_char utf8_step
    from_utf8_in from_utf8 continues is_ascii_whitespace skip_ws expect_char parse_literal
    then_slice scan_string string_value parse_string number_char number_span number_value
    parse_number insert_entry lead behind closes parse_value enter check_bounds parse_text
    parse_value_strict
program = tt

abbrev sample : List ℕ
sample = codes " {\"a\": [1, true], \"b\": null} "

abbrev sample_value : Value
sample_value = object (
    entry_and (codes "a") (array (value_and (number (codes "1")) (value_and (bool true) no_values)))
      (entry_and (codes "b") null no_entries))

repeated_key :
    parse_value_strict scalars default_limits (codes "{\"a\":1,\"a\":2}")
    ≡ err (refused (duplicate_key (codes "a")))
unfolding program
repeated_key = refl

trailing_comma :
    parse_value_strict scalars default_limits (codes "[1,]") ≡ err (refused invalid_json)
unfolding program
trailing_comma = refl

too_deep :
    parse_value_strict scalars
      (record default_limits { json_max_depth = 2 })
      (codes "{\"a\":{\"b\":{\"c\":1}}}")
    ≡ err (refused tree_bound)
unfolding program
too_deep = refl

-- A form feed counts as white space.
form_feed : parse_value_strict scalars default_limits (12 ∷ codes "1") ≡ ok (number (codes "1"))
unfolding program
form_feed = refl

parse_value_strict_total_example : parse_value_strict scalars default_limits sample ≢ err exhausted
parse_value_strict_total_example = parse_value_strict_total scalars default_limits sample

members_parsed :
    parse_members scalars 9 [] no_entries (codes "\"a\":1,\"b\":2}")
    ≡ ok (
      entry_and
          (codes "a")
          (number (codes "1"))
          (entry_and (codes "b") (number (codes "2")) no_entries),
      [],
    )
unfolding program
members_parsed = refl

parse_members_distinct_example : New [] (member_keys scalars 9 (codes "\"a\":1,\"b\":2}"))
parse_members_distinct_example =
    parse_members_distinct scalars 9 [] no_entries (codes "\"a\":1,\"b\":2}") members_parsed
