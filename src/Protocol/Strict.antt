-- ===== src/Protocol/Strict.antt =====
-- Strict JSON (crates/agentmesh-proto/src/json_strict.rs): a recursive descent parser that refuses
-- duplicate keys, and bounds on the tree that it returns. The place in the text is what is left of it.

pub mod Tokens
pub mod Fuel
pub mod Bounds
pub mod Keys
mod Examples
use gareji_core.RunContract.{
  Entries, Value, Values, array, bool, entry_and, no_entries, no_values, null, number, object,
  string, value_and,
}
use gareji_core.Base.{
  ℕ, zero, suc, ◌+◌, ◌*◌, Bool, true, false, not, ◌||◌, Option, none, some, List, [], ◌∷◌, ◌++◌,
  Text, codes, ltb, leb, nat_beq, if◌then◌else◌, Result, ok, err, ◌>>=◌, ◌>>◌, fail_if, ok_or,
  map_err, length, is_empty, is_ascii_digit, contains, text_ord, text_leq, starts_with, ◌==◌,
}
use gareji_core.Framing.{drop, from_utf8}
use gareji_core.Protocol.{
  Limits, ProtoError, duplicate_key, invalid_json, schema_violation, tree_bound,
}

-- `serde_json::from_str` on the text of a string and of a number.
pub record Scalars : Type 0 where
  pub string_of : Text → Result Value Text
  pub number_of : Text → Result Value Text

-- What stops the parser; `exhausted` is the lack of fuel.
pub data Stop : Type 0 where
  refused : ProtoError → Stop
  exhausted : Stop

abbrev pub Parsed : Type 0 → Type 0
Parsed A = Result (A × Text) Stop

abbrev pub invalid : {A : Type 0} → Parsed A
invalid = err (refused invalid_json)

-- `char::is_ascii_whitespace`: a space, a tab, a line feed, a form feed or a carriage return.
unfoldable pub is_ascii_whitespace : ℕ → Bool
is_ascii_whitespace c =
    nat_beq c 0x20 || nat_beq c 9 || nat_beq c 10 || nat_beq c 12 || nat_beq c 13

-- `skip_ws`
unfoldable pub skip_ws : Text → Text
unfolding is_ascii_whitespace
skip_ws [] = []
skip_ws (c ∷ t) = if is_ascii_whitespace c then skip_ws t else c ∷ t

unfoldable pub expect_char : ℕ → Text → Parsed Unit
unfolding skip_ws
expect_char expected t = elim (skip_ws t) [
  | [] ↦ invalid
  | c ∷ rest ↦ if nat_beq c expected then ok (tt, rest) else invalid
]

unfoldable pub parse_literal : Text → Value → Text → Parsed Value
unfolding starts_with
parse_literal lit value t = if starts_with lit t then ok (value, drop (length lit) t) else invalid

-- The characters of a string behind its first quote, up to the quote that ends it, and the rest.
unfoldable pub then_slice : ℕ → Option (Text × Text) → Option (Text × Text)
then_slice c none = none
then_slice c (some (slice, rest)) = some (c ∷ slice, rest)

unfoldable pub scan_string : Bool → Text → Option (Text × Text)
unfolding then_slice
scan_string escaped [] = none
scan_string true (c ∷ t) = then_slice c (scan_string false t)
scan_string false (c ∷ t) =
    let inside = then_slice c (scan_string (nat_beq c 92) t) in
    if nat_beq c 34 then some (c ∷ [], t) else inside

unfoldable pub string_value : Text → Result Value Text → Parsed Text
string_value rest (ok (string s)) = ok (s, rest)
string_value rest (ok other) = invalid
string_value rest (err e) = invalid

unfoldable pub parse_string : Scalars → Text → Parsed Text
unfolding scan_string string_value
parse_string scalars [] = invalid
parse_string scalars (c ∷ t) = if not (nat_beq c 34) then invalid else elim (scan_string false t) [
  | none ↦ invalid
  | some (slice, rest) ↦ string_value rest (scalars.string_of (c ∷ slice))
]

unfoldable pub number_char : ℕ → Bool
unfolding is_ascii_digit
number_char c =
    is_ascii_digit c
    || nat_beq c b'-'
    || nat_beq c b'+'
    || nat_beq c b'.'
    || nat_beq c b'e'
    || nat_beq c b'E'

unfoldable pub number_span : Text → Text × Text
unfolding number_char
number_span [] = ([], [])
number_span (c ∷ t) =
    if number_char c then (c ∷ (number_span t).0, (number_span t).1) else ([], c ∷ t)

unfoldable pub number_value : Text → Result Value Text → Parsed Value
number_value rest (ok v) = ok (v, rest)
number_value rest (err e) = invalid

unfoldable pub parse_number : Scalars → Text → Parsed Value
unfolding number_span number_value
parse_number scalars t = number_value (number_span t).1 (scalars.number_of (number_span t).0)

-- `map.insert(key, value)`
unfoldable pub insert_entry : Text → Value → Entries → Entries
unfolding text_leq
insert_entry k v no_entries = entry_and k v no_entries
insert_entry k v (entry_and j w es) =
    if j == k
    then entry_and j v es
    else if text_leq k j
    then entry_and k v (entry_and j w es)
    else entry_and j w (insert_entry k v es)

-- The first character of a value, and what stands behind an element.
pub data Lead : Type 0 where
  leads_null leads_true leads_false leads_string leads_array leads_object leads_number : Lead
  leads_none : Lead

unfoldable pub lead : ℕ → Lead
unfolding is_ascii_digit
lead c =
    if nat_beq c b'n'
    then leads_null
    else if nat_beq c b't'
    then leads_true
    else if nat_beq c b'f'
    then leads_false
    else if nat_beq c 34
    then leads_string
    else if nat_beq c b'['
    then leads_array
    else if nat_beq c b'{'
    then leads_object
    else if nat_beq c b'-' || is_ascii_digit c
    then leads_number
    else leads_none

pub data Behind : Type 0 where
  comma close neither : Behind

unfoldable pub behind : ℕ → ℕ → Behind
behind closing c = if nat_beq c b',' then comma else if nat_beq c closing then close else neither

-- Whether the next character, behind white space, closes an array or an object at once.
unfoldable pub closes : ℕ → Text → Option Text
unfolding skip_ws
closes closing t = elim (skip_ws t) [
  | [] ↦ none
  | c ∷ rest ↦ if nat_beq c closing then some rest else none
]

-- `parse_value`, the loops of `parse_array` and `parse_object`. A call for a value takes one unit of
-- fuel, and so does a round of a loop.
unfoldable mutual
  unfolding lead behind closes skip_ws parse_literal parse_string parse_number expect_char
      insert_entry

  pub parse_value : Scalars → ℕ → Text → Parsed Value
  parse_value scalars zero t = err exhausted
  parse_value scalars (suc fuel) t = elim (skip_ws t) [
    | [] ↦ invalid
    | c ∷ rest ↦ elim (lead c) [
      | leads_null ↦ parse_literal (codes "null") null (c ∷ rest)
      | leads_true ↦ parse_literal (codes "true") (bool true) (c ∷ rest)
      | leads_false ↦ parse_literal (codes "false") (bool false) (c ∷ rest)
      | leads_string ↦ (do s ← parse_string scalars (c ∷ rest); ok (string s.0, s.1))
      | leads_array ↦ elim (closes b']' rest) [
        | some rest' ↦ ok (array no_values, rest')
        | none ↦ (do items ← parse_items scalars fuel rest; ok (array items.0, items.1))
      ]
      | leads_object ↦ elim (closes b'}' rest) [
        | some rest' ↦ ok (object no_entries, rest')
        | none ↦ (do
          members ← parse_members scalars fuel [] no_entries rest
          ok (object members.0, members.1))
      ]
      | leads_number ↦ parse_number scalars (c ∷ rest)
      | leads_none ↦ invalid
    ]
  ]

  pub parse_items : Scalars → ℕ → Text → Parsed Values
  parse_items scalars zero t = err exhausted
  parse_items scalars (suc fuel) t = do
    item ← parse_value scalars fuel t
    elim (skip_ws item.1) [
      | [] ↦ invalid
      | c ∷ rest ↦ elim (behind b']' c) [
        | comma ↦ (do items ← parse_items scalars fuel rest; ok (value_and item.0 items.0, items.1))
        | close ↦ ok (value_and item.0 no_values, rest)
        | neither ↦ invalid
      ]
    ]

  pub parse_members : Scalars → ℕ → List Text → Entries → Text → Parsed Entries
  parse_members scalars zero seen members t = err exhausted
  parse_members scalars (suc fuel) seen members t = do
    key ← parse_string scalars (skip_ws t)
    fail_if (contains seen key.0) (refused (duplicate_key key.0))
    colon ← expect_char b':' key.1
    value ← parse_value scalars fuel colon.1
    elim (skip_ws value.1) [
      | [] ↦ invalid
      | c ∷ rest ↦ elim (behind b'}' c) [
        | comma ↦
            parse_members scalars fuel (key.0 ∷ seen) (insert_entry key.0 value.0 members) rest
        | close ↦ ok (insert_entry key.0 value.0 members, rest)
        | neither ↦ invalid
      ]
    ]

-- `check_bounds` on a value itself: the number of nodes so far, and with this one.
unfoldable pub enter : Limits → ℕ → ℕ → Result ℕ ProtoError
enter limits depth nodes = do
  fail_if (ltb limits.json_max_depth depth) tree_bound
  fail_if (ltb limits.json_max_nodes (nodes + 1)) tree_bound
  ok (nodes + 1)

-- `check_bounds`, with its loops over the children.
unfoldable mutual
  unfolding enter

  pub check_bounds : Limits → ℕ → Value → ℕ → Result ℕ ProtoError
  check_bounds limits depth null nodes = enter limits depth nodes
  check_bounds limits depth (bool b) nodes = enter limits depth nodes
  check_bounds limits depth (number n) nodes = enter limits depth nodes
  check_bounds limits depth (string s) nodes = enter limits depth nodes
  check_bounds limits depth (array vs) nodes =
      enter limits depth nodes >>= λ n. check_values limits (depth + 1) vs n
  check_bounds limits depth (object es) nodes =
      enter limits depth nodes >>= λ n. check_entries limits (depth + 1) es n

  pub check_values : Limits → ℕ → Values → ℕ → Result ℕ ProtoError
  check_values limits depth no_values nodes = ok nodes
  check_values limits depth (value_and v vs) nodes =
      check_bounds limits depth v nodes >>= λ n. check_values limits depth vs n

  pub check_entries : Limits → ℕ → Entries → ℕ → Result ℕ ProtoError
  check_entries limits depth no_entries nodes = ok nodes
  check_entries limits depth (entry_and key v es) nodes =
      check_bounds limits depth v nodes >>= λ n. check_entries limits depth es n

-- Enough fuel for a text of that length.
abbrev pub parse_fuel : Text → ℕ
parse_fuel t = 2 * length t + 1

unfoldable pub parse_text : Scalars → Limits → Text → Result Value Stop
unfolding parse_value skip_ws check_bounds
parse_text scalars limits text = do
  parsed ← parse_value scalars (parse_fuel text) text
  fail_if (not (is_empty (skip_ws parsed.1))) (refused invalid_json)
  map_err refused (check_bounds limits 0 parsed.0 0)
  ok parsed.0

-- `parse_value_strict`
unfoldable pub parse_value_strict : Scalars → Limits → List ℕ → Result Value Stop
unfolding from_utf8 parse_text
parse_value_strict scalars limits input = do
  text ← ok_or (from_utf8 input) (refused invalid_json)
  parse_text scalars limits text

-- `from_slice_strict`; `from_value` is serde's decoder of the type.
unfoldable pub from_slice_strict :
    {T : Type 0} → Scalars → (Value → Option T) → Limits → List ℕ → Result T Stop
unfolding parse_value_strict
from_slice_strict scalars from_value limits input = do
  value ← parse_value_strict scalars limits input
  ok_or (from_value value) (refused schema_violation)
