-- ===== src/Host/Redaction/Pointers.antt =====
-- What a redaction policy hides (crates/agentmesh-host/src/redaction.rs).
use gareji_core.RunContract.{
  Entries, Value, Values, array, bool, entry_and, no_entries, no_values, null, number, object,
  string, value_and,
}
use gareji_core.Base.{
  ℕ, zero, suc, ◌≡◌, ◌⊎◌, Bool, Option, none, some, List, [], ◌∷◌, Text, if◌then◌else◌, is_empty,
  ◌==◌, text_ord,
}
use gareji_core.Host.Redaction.{redacted, parse_usize, tokens}

-- The entry of a key, the item of a place, the child that a token names, and the value that a list of
-- tokens leads to.
abbrev pub entry_of : Text → Entries → Option Value
entry_of key no_entries = none
entry_of key (entry_and k v es) = if k == key then some v else entry_of key es

abbrev pub item_of : ℕ → Values → Option Value
item_of i no_values = none
item_of zero (value_and v vs) = some v
item_of (suc i) (value_and v vs) = item_of i vs

abbrev pub child : Text → Value → Option Value
child token (object es) = entry_of token es
child token (array vs) = elim (parse_usize token) [ none ↦ none | some i ↦ item_of i vs ]
child token null = none
child token (bool b) = none
child token (number n) = none
child token (string s) = none

abbrev pub onward : (Value → Option Value) → Option Value → Option Value
onward f none = none
onward f (some w) = f w

abbrev pub reach : List Text → Value → Option Value
reach [] v = some v
reach (token ∷ rest) v = onward (reach rest) (child token v)

-- The tokens of a pointer; the empty one names the whole document.
abbrev pub address : Text → List Text
address pointer = if is_empty pointer then [] else tokens pointer

abbrev changed : (Value → Bool × Value) → Option Value → Option Value
changed f none = none
changed f (some v) = some (f v).1

-- Nothing, or the text that stands for a redacted value.
abbrev Hidden : Option Value → Type 0
Hidden found = (found ≡ none) ⊎ (found ≡ some redacted)

-- The tokens lead nowhere, or to that text.
abbrev pub IsHidden : List Text → Value → Type 0
IsHidden path v = Hidden (reach path v)
