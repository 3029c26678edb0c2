-- ===== src/Protocol/Strict/Fuel.antt =====
-- The parser of crates/agentmesh-proto/src/json_strict.rs ends: each value and each round of a loop
-- takes characters off the text, so the fuel given is enough.
use gareji_core.Base.{
  ℕ, zero, suc, ◌+◌, ◌*◌, ◌≤◌, ◌<◌, ◌≡◌, ◌≢◌, inl, inr, refl, Bool, true, false, not, Option, none,
  some, List, [], ◌∷◌, Text, codes, Result, ok, err, ◌>>=◌, fail_if, length, Option-cases, contains,
  arith, text_ord, ok_or, map_err, is_empty,
}
use gareji_core.RunContract.{
  Value, Values, Entries, string, array, object, null, bool, no_values, no_entries, value_and,
}
use gareji_core.Framing.{from_utf8}
use gareji_core.Protocol.{Limits, duplicate_key, ProtoError, invalid_json}
use gareji_core.Protocol.Strict.{
  Scalars, refused, exhausted, Parsed, skip_ws, expect_char, parse_string, lead, Lead, leads_null,
  leads_true, leads_false, leads_string, leads_array, leads_object, leads_number, leads_none,
  Behind, behind, comma, close, neither, closes, parse_value, parse_items, parse_members,
  parse_fuel, parse_text, parse_value_strict, insert_entry, check_bounds, invalid,
}
use gareji_core.Protocol.Strict.Tokens.{
  Ends, Ends-bind, Ends-le, Ends-wrap, closes-shorter, expect_char-Ends, lead-number,
  length-skip_ws-le, parse_literal-Ends, parse_number-Ends, parse_string-Ends,
}

-- What holds of the three functions at an amount of fuel.
abbrev ValuesEnd : Scalars → ℕ → Type 0
ValuesEnd scalars fuel =
    (t : Text) → 2 * length t + 1 ≤ fuel → Ends (length t) (parse_value scalars fuel t)

abbrev ItemsEnd : Scalars → ℕ → Type 0
ItemsEnd scalars fuel =
    (t : Text) → 2 * length t + 2 ≤ fuel → Ends (length t) (parse_items scalars fuel t)

abbrev MembersEnd : Scalars → ℕ → Type 0
MembersEnd scalars fuel =
    (seen : List Text) (members : Entries) (t : Text)
    → 2 * length t + 2 ≤ fuel
    → Ends (length t) (parse_members scalars fuel seen members t)

module _ (scalars : Scalars) (fuel : ℕ) where
  value-Ends : ItemsEnd scalars fuel → MembersEnd scalars fuel → ValuesEnd scalars (suc fuel)
  unfolding parse_value
  value-Ends items members t enough = go (skip_ws t) refl (length-skip_ws-le t)
    where
      by_lead :
          (c : ℕ) (rest : Text) (l : Lead)
          → skip_ws t ≡ c ∷ rest
          → suc (length rest) ≤ length t
          → lead c ≡ l
          → Ends (length t) (parse_value scalars (suc fuel) t)
      by_lead c rest leads_null e k h =
          rw (parse_value, e, h)
            (Ends-le (suc (length rest)) (length t) _ k
              (parse_literal-Ends b'n' (codes "ull") null c rest))
      by_lead c rest leads_true e k h =
          rw (parse_value, e, h)
            (Ends-le (suc (length rest)) (length t) _ k
              (parse_literal-Ends b't' (codes "rue") (bool true) c rest))
      by_lead c rest leads_false e k h =
          rw (parse_value, e, h)
            (Ends-le (suc (length rest)) (length t) _ k
              (parse_literal-Ends b'f' (codes "alse") (bool false) c rest))
      by_lead c rest leads_string e k h =
          rw (parse_value, e, h)
            (Ends-wrap (length t) (suc (length rest)) string (parse_string scalars (c ∷ rest)) k
              (parse_string-Ends scalars (c ∷ rest)))
      by_lead c rest leads_array e k h = elim (Option-cases (closes b']' rest)) [
        | inl more ↦
            rw (parse_value, e, h, more)
              (Ends-wrap (length t) (length rest) array (parse_items scalars fuel rest)
                (omega (arith, k)) (items rest (omega (arith, k, enough))))
        | inr (rest', shut) ↦
            rw (parse_value, e, h, shut) (omega (arith, k, closes-shorter b']' rest shut))
      ]
      by_lead c rest leads_object e k h = elim (Option-cases (closes b'}' rest)) [
        | inl more ↦
            rw (parse_value, e, h, more)
              (Ends-wrap (length t) (length rest) object
                (parse_members scalars fuel [] no_entries rest) (omega (arith, k))
                (members [] no_entries rest (omega (arith, k, enough))))
        | inr (rest', shut) ↦
            rw (parse_value, e, h, shut) (omega (arith, k, closes-shorter b'}' rest shut))
      ]
      by_lead c rest leads_number e k h =
          rw (parse_value, e, h)
            (Ends-le (suc (length rest)) (length t) _ k
              (parse_number-Ends scalars c rest (lead-number c h)))
      by_lead c rest leads_none e k h = rw (parse_value, e, h) tt

      go :
          (s : Text)
          → skip_ws t ≡ s
          → length s ≤ length t
          → Ends (length t) (parse_value scalars (suc fuel) t)
      go [] e k = rw (parse_value, e) tt
      go (c ∷ rest) e k = by_lead c rest (lead c) e k refl

  items-Ends : ValuesEnd scalars fuel → ItemsEnd scalars fuel → ItemsEnd scalars (suc fuel)
  unfolding parse_items
  items-Ends values items t enough =
      Ends-bind (length t) (length t) (parse_value scalars fuel t) _
        (values t (omega (arith, enough)))
        (λ item rest short. go item (skip_ws rest) (omega (arith, length-skip_ws-le rest, short)))
    where
      behind_it :
          (item : Value) (rest : Text) (b : Behind)
          → suc (length rest) < length t
          → Ends {A = Values} (length t) (elim b [
            | comma ↦ parse_items scalars fuel rest >>= λ more. ok (value_and item more.0, more.1)
            | close ↦ ok (value_and item no_values, rest)
            | neither ↦ invalid
          ])
      behind_it item rest comma short =
          Ends-wrap (length t) (length rest) (value_and item) (parse_items scalars fuel rest)
            (omega (arith, short)) (items rest (omega (arith, short, enough)))
      behind_it item rest close short = omega (arith, short)
      behind_it item rest neither short = tt

      go :
          (item : Value) (s : Text)
          → length s < length t
          → Ends {A = Values} (length t) (elim s [
            | [] ↦ invalid
            | c ∷ rest ↦ elim (behind b']' c) [
              | comma ↦ parse_items scalars fuel rest >>= λ more. ok (value_and item more.0, more.1)
              | close ↦ ok (value_and item no_values, rest)
              | neither ↦ invalid
            ]
          ])
      go item [] short = tt
      go item (c ∷ rest) short = behind_it item rest (behind b']' c) short

  members-Ends : ValuesEnd scalars fuel → MembersEnd scalars fuel → MembersEnd scalars (suc fuel)
  unfolding parse_members
  members-Ends values more seen members t enough =
      Ends-bind (length t) (length (skip_ws t)) (parse_string scalars (skip_ws t)) _
        (parse_string-Ends scalars (skip_ws t))
        (λ key rest short.
          fresh key rest (contains seen key) (omega (arith, length-skip_ws-le t, short)))
    where
      round :
          (key : Text) (value : Value) (rest : Text) (b : Behind)
          → suc (length rest) < length t
          → Ends {A = Entries} (length t) (elim b [
            | comma ↦ parse_members scalars fuel (key ∷ seen) (insert_entry key value members) rest
            | close ↦ ok (insert_entry key value members, rest)
            | neither ↦ invalid
          ])
      round key value rest comma short =
          Ends-le (length rest) (length t) _ (omega (arith, short))
            (more (key ∷ seen) (insert_entry key value members) rest (omega (arith, short, enough)))
      round key value rest close short = omega (arith, short)
      round key value rest neither short = tt

      behind_it :
          (key : Text) (value : Value) (s : Text)
          → length s < length t
          → Ends {A = Entries} (length t) (elim s [
            | [] ↦ invalid
            | c ∷ rest ↦ elim (behind b'}' c) [
              | comma ↦
                  parse_members scalars fuel (key ∷ seen) (insert_entry key value members) rest
              | close ↦ ok (insert_entry key value members, rest)
              | neither ↦ invalid
            ]
          ])
      behind_it key value [] short = tt
      behind_it key value (c ∷ rest) short = round key value rest (behind b'}' c) short

      fresh :
          (key : Text) (rest : Text) (known : Bool)
          → length rest < length t
          → Ends {A = Entries} (length t) (
              fail_if known (refused (duplicate_key key)) >>= λ skipped.
              expect_char b':' rest >>= λ colon. parse_value scalars fuel colon.1 >>= λ value.
              elim (skip_ws value.1) [
                | [] ↦ invalid
                | c ∷ rest ↦ elim (behind b'}' c) [
                  | comma ↦
                      parse_members scalars fuel
                        (key ∷ seen)
                        (insert_entry key value.0 members)
                        rest
                  | close ↦ ok (insert_entry key value.0 members, rest)
                  | neither ↦ invalid
                ]
              ])
      fresh key rest true short = tt
      fresh key rest false short =
          Ends-bind (length t) (length rest) (expect_char b':' rest) _ (expect_char-Ends b':' rest)
            (λ u after shorter.
              Ends-bind (length t) (length after) (parse_value scalars fuel after) _
                (values after (omega (arith, short, shorter, enough)))
                (λ value last least.
                  behind_it key value (skip_ws last)
                    (omega (arith, length-skip_ws-le last, least, shorter, short))))

all-End :
    (scalars : Scalars) (fuel : ℕ)
    → ValuesEnd scalars fuel × ItemsEnd scalars fuel × MembersEnd scalars fuel
all-End scalars zero = (
  λ t h. absurd (omega arith),
  λ t h. absurd (omega arith),
  λ seen members t h. absurd (omega arith),
)
all-End scalars (suc fuel) =
    let (values, items, members) = all-End scalars fuel in
    (
      value-Ends scalars fuel items members,
      items-Ends scalars fuel values items,
      members-Ends scalars fuel values members,
    )

Ends-ne : {A : Type 0} (n : ℕ) (p : Parsed A) → Ends n p → p ≢ err exhausted
Ends-ne n (ok a) h e = cc
Ends-ne n (err (refused x)) h e = cc
Ends-ne n (err exhausted) h e = h

bounds-ne :
    (r : Result ℕ ProtoError) (v : Value) → (map_err refused r >>= λ n. ok v) ≢ err exhausted
bounds-ne (ok n) v e = cc
bounds-ne (err x) v e = cc

-- `parse_value_strict` returns a value or an error of the protocol for every input: its recursion
-- ends, whatever serde_json says of the strings and numbers.
pub parse_value_strict_total :
    (scalars : Scalars) (limits : Limits) (input : List ℕ)
    → parse_value_strict scalars limits input ≢ err exhausted
unfolding parse_value_strict parse_text
parse_value_strict_total scalars limits input e = by_text (from_utf8 input) e
  where
    by_rest :
        (v : Value) (b : Bool)
        → (fail_if b (refused invalid_json) >>= λ skipped.
            map_err refused (check_bounds limits 0 v 0) >>= λ n. ok v)
          ≢ err exhausted
    by_rest v true h = cc
    by_rest v false h = bounds-ne (check_bounds limits 0 v 0) v h

    by_value :
        (p : Parsed Value)
        → p ≢ err exhausted
        → (p >>= λ parsed.
            fail_if (not (is_empty (skip_ws parsed.1))) (refused invalid_json) >>= λ skipped.
            map_err refused (check_bounds limits 0 parsed.0 0) >>= λ n. ok parsed.0)
          ≢ err exhausted
    by_value (ok (v, rest)) k h = by_rest v (not (is_empty (skip_ws rest))) h
    by_value (err (refused x)) k h = cc
    by_value (err exhausted) k h = k refl

    by_text :
        (o : Option Text)
        → (ok_or o (refused invalid_json) >>= λ text. parse_text scalars limits text)
          ≢ err exhausted
    by_text none h = cc
    by_text (some text) h =
        by_value (parse_value scalars (parse_fuel text) text)
          (Ends-ne (length text) _ ((all-End scalars (parse_fuel text)).0 text (omega arith))) h
