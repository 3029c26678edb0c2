-- ===== src/Host/Redaction.antt =====
-- The redaction of audit records by JSON Pointers (crates/agentmesh-host/src/redaction.rs).

pub mod Pointers
use gareji_core.RunContract.{
  Entries, Value, Values, array, bool, entry_and, no_entries, no_values, null, number, object,
  string, value_and,
}
use gareji_core.Base.{
  ℕ, zero, suc, ◌+◌, ◌^◌, Bool, true, false, not, ◌&&◌, ◌||◌, Option, none, some, List, [], ◌∷◌,
  ◌++◌, Text, codes, ltb, leb, nat_beq, if◌then◌else◌, Result, ok, err, ◌>>=◌, ◌>>◌, fail_if,
  for_each, all, is_empty, is_ascii_digit, text_ord, text_leq, ◌==◌, map,
}
use gareji_core.Framing.{decimal}
use gareji_core.Progress.Validate.{split}

abbrev pub redacted : Value
redacted = string (codes "<redacted>")

pub record RedactionPolicy : Type 0 where
  pub pointers : List Text

-- `RedactionError`, with the message behind the prefix of `Display`.
pub data RedactionError : Type 0 where
  invalid_pointer : Text → RedactionError

-- Each `~` stands before a `0` or a `1`.
unfoldable pub valid_escapes : Text → Bool
valid_escapes [] = true
valid_escapes (c ∷ []) = not (nat_beq c b'~')
valid_escapes (c ∷ d ∷ t) =
    let escape = (nat_beq d b'0' || nat_beq d b'1') && valid_escapes t in
    let plain = valid_escapes (d ∷ t) in if nat_beq c b'~' then escape else plain

unfoldable pub first_is : ℕ → Text → Bool
first_is c [] = false
first_is c (d ∷ t) = nat_beq d c

unfoldable pub validate_pointer : Text → Result Unit RedactionError
unfolding first_is valid_escapes
validate_pointer pointer = do
  fail_if (is_empty pointer) (invalid_pointer (codes "empty pointer"))
  fail_if (not (first_is b'/' pointer)) (invalid_pointer (codes "must start with '/': " ++ pointer))
  fail_if (not (valid_escapes pointer)) (invalid_pointer (codes "invalid ~ escape in " ++ pointer))

-- `RedactionPolicy::from_pointers`
unfoldable pub from_pointers : List Text → Result RedactionPolicy RedactionError
unfolding validate_pointer
from_pointers pointers = do for_each validate_pointer pointers; ok (record { pointers = pointers })

-- `is_noop`
unfoldable pub is_noop : RedactionPolicy → Bool
is_noop policy = is_empty policy.pointers

-- `str::replace` of two characters by one.
unfoldable pub replace : ℕ → ℕ → ℕ → Text → Text
replace a b by [] = []
replace a b by (c ∷ []) = c ∷ []
replace a b by (c ∷ d ∷ t) =
    let hit = by ∷ replace a b by t in
    let miss = c ∷ replace a b by (d ∷ t) in if nat_beq c a && nat_beq d b then hit else miss

unfoldable pub decode_token : Text → Text
unfolding replace
decode_token token = replace b'~' b'0' b'~' (replace b'~' b'1' b'/' token)

-- `trim_start_matches('/')`
unfoldable pub trim_slashes : Text → Text
trim_slashes [] = []
trim_slashes (c ∷ t) = if nat_beq c b'/' then trim_slashes t else c ∷ t

unfoldable pub tokens : Text → List Text
unfolding decode_token trim_slashes text_leq split
tokens pointer =
    if pointer == codes "/" then [] ∷ [] else map decode_token (split b'/' (trim_slashes pointer))

-- `str::parse::<usize>`: digits, perhaps behind a plus sign.
unfoldable pub parse_digits : Text → Option ℕ
unfolding is_ascii_digit decimal
parse_digits t =
    if is_empty t || not (all is_ascii_digit t) || leb (2 ^ 64) (decimal 0 t)
    then none
    else some (decimal 0 t)

unfoldable pub parse_usize : Text → Option ℕ
unfolding parse_digits
parse_usize [] = none
parse_usize (c ∷ t) = if nat_beq c b'+' then parse_digits t else parse_digits (c ∷ t)

-- A step into the entry of a key, or to the place of a number, where the flag tells whether the
-- pointer was followed to its end.
unfoldable pub with_entry : Text → (Value → Bool × Value) → Entries → Bool × Entries
unfolding text_leq
with_entry key f no_entries = (false, no_entries)
with_entry key f (entry_and k v es) =
    if k == key
    then ((f v).0, entry_and k (f v).1 es)
    else ((with_entry key f es).0, entry_and k v (with_entry key f es).1)

unfoldable pub with_item : ℕ → (Value → Bool × Value) → Values → Bool × Values
with_item i f no_values = (false, no_values)
with_item zero f (value_and v vs) = ((f v).0, value_and (f v).1 vs)
with_item (suc i) f (value_and v vs) = ((with_item i f vs).0, value_and v (with_item i f vs).1)

unfoldable pub with_child : Text → (Value → Bool × Value) → Value → Bool × Value
unfolding with_entry with_item parse_usize
with_child token f (object es) = ((with_entry token f es).0, object (with_entry token f es).1)
with_child token f (array vs) = elim (parse_usize token) [
  | none ↦ (false, array vs)
  | some i ↦ ((with_item i f vs).0, array (with_item i f vs).1)
]
with_child token f null = (false, null)
with_child token f (bool b) = (false, bool b)
with_child token f (number n) = (false, number n)
with_child token f (string s) = (false, string s)

-- The loop of `redact_pointer`; where no token is left, the value that was reached is replaced.
unfoldable pub redact_at : List Text → Value → Bool × Value
unfolding with_child
redact_at [] v = (true, redacted)
redact_at (token ∷ rest) v = with_child token (redact_at rest) v

unfoldable pub redact_pointer : Value → Text → Bool × Value
unfolding redact_at tokens
redact_pointer value pointer =
    if is_empty pointer then (true, redacted) else redact_at (tokens pointer) value

-- `RedactionPolicy::apply`: the count of replaced values, and the value behind them.
unfoldable pub apply_from : List Text → ℕ → Value → ℕ × Value
unfolding redact_pointer
apply_from [] count value = (count, value)
apply_from (pointer ∷ pointers) count value =
    let (hit, next) = redact_pointer value pointer in
    apply_from pointers (if hit then count + 1 else count) next

unfoldable pub apply : RedactionPolicy → Value → ℕ × Value
unfolding apply_from
apply policy value = apply_from policy.pointers 0 value
