-- ===== src/Runner/Payloads.antt =====
-- The bounds of JSON payloads (crates/gareji-core/src/runner.rs): the loop with an explicit stack
-- agrees with the recursive definitions of depth and of the number of nodes.
use gareji_core.Base.{
  ℕ, zero, suc, min, max, ◌+◌, ◌≤◌, ◌<◌, ◌≡◌, ◌↔◌, inl, inr, refl, ap, sym, Option, some, List, [],
  ◌∷◌, length, ltb, Bool-cases, ok, >>=-eq-ok, ok_or-eq-ok, ok_or, All, arith, compose_iff,
  at_most_iff,
}
use gareji_core.RunContract.{
  Value, Values, Entries, null, bool, number, string, array, object, no_values, value_and,
  no_entries, entry_and, payload_too_large, payload_too_complex, max_json_depth, max_json_nodes,
  usize_max,
}
use gareji_core.Runner.{listed, entry_values, children, extend, scan, validate_json}

-- The nesting of a value: one more than that of its deepest part.
abbrev mutual
  pub height : Value → ℕ
  height null = 1
  height (bool b) = 1
  height (number n) = 1
  height (string s) = 1
  height (array vs) = suc (height_values vs)
  height (object es) = suc (height_entries es)

  pub height_values : Values → ℕ
  height_values no_values = 0
  height_values (value_and v vs) = max (height v) (height_values vs)

  pub height_entries : Entries → ℕ
  height_entries no_entries = 0
  height_entries (entry_and key v es) = max (height v) (height_entries es)

-- The number of values in a value, itself included.
abbrev mutual
  pub nodes : Value → ℕ
  nodes null = 1
  nodes (bool b) = 1
  nodes (number n) = 1
  nodes (string s) = 1
  nodes (array vs) = suc (nodes_values vs)
  nodes (object es) = suc (nodes_entries es)

  pub nodes_values : Values → ℕ
  nodes_values no_values = 0
  nodes_values (value_and v vs) = nodes v + nodes_values vs

  pub nodes_entries : Entries → ℕ
  nodes_entries no_entries = 0
  nodes_entries (entry_and key v es) = nodes v + nodes_entries es

-- The same for lists of values and for the stack.
abbrev highest : List Value → ℕ
highest [] = 0
highest (v ∷ vs) = max (height v) (highest vs)

abbrev total : List Value → ℕ
total [] = 0
total (v ∷ vs) = nodes v + total vs

abbrev waiting : List (Value × ℕ) → ℕ
waiting [] = 0
waiting ((v, d) ∷ pending) = nodes v + waiting pending

abbrev Shallow : List (Value × ℕ) → Type 0
Shallow = All (λ (v, d). d + height v ≤ suc max_json_depth)

highest-listed :
    (vs : Values) → (highest (listed vs) ≡ height_values vs) × (total (listed vs) ≡ nodes_values vs)
unfolding listed
highest-listed no_values = (refl, refl)
highest-listed (value_and v vs) =
    (ap (max (height v)) (highest-listed vs).0, ap (◌+◌ (nodes v)) (highest-listed vs).1)

highest_entries :
    (es : Entries)
    → (highest (entry_values es) ≡ height_entries es) × (total (entry_values es) ≡ nodes_entries es)
unfolding entry_values
highest_entries no_entries = (refl, refl)
highest_entries (entry_and key v es) =
    (ap (max (height v)) (highest_entries es).0, ap (◌+◌ (nodes v)) (highest_entries es).1)

measures :
    (v : Value) → (height v ≡ suc (highest (children v))) × (nodes v ≡ suc (total (children v)))
unfolding children
measures null = (refl, refl)
measures (bool b) = (refl, refl)
measures (number n) = (refl, refl)
measures (string s) = (refl, refl)
measures (array vs) = (ap suc (sym (highest-listed vs).0), ap suc (sym (highest-listed vs).1))
measures (object es) = (ap suc (sym (highest_entries es).0), ap suc (sym (highest_entries es).1))

waiting-extend :
    (pending : List (Value × ℕ)) (vs : List Value) (d : ℕ)
    → waiting (extend pending vs d) ≡ total vs + waiting pending
unfolding extend
waiting-extend pending [] d = omega arith
waiting-extend pending (v ∷ vs) d = omega (arith, waiting-extend ((v, d) ∷ pending) vs d)

Shallow-extend :
    (pending : List (Value × ℕ)) (vs : List Value) (d : ℕ)
    → d ≤ suc max_json_depth
    → Shallow (extend pending vs d) ↔ ((d + highest vs ≤ suc max_json_depth) × Shallow pending)
unfolding extend
Shallow-extend pending [] d small = (λ h. (omega arith, h), λ h. h.1)
Shallow-extend pending (v ∷ vs) d small =
    let rest = Shallow-extend ((v, d) ∷ pending) vs d small in
    (
      λ h. let (high, (first, others)) = rest.0 h in (omega arith, others),
      λ h. rest.1 (omega (arith, h.0), (omega (arith, h.0), h.1)),
    )

step_iff :
    (v : Value) (d : ℕ) (pending : List (Value × ℕ)) (n : ℕ)
    → d ≤ max_json_depth
    → (Shallow (extend pending (children v) (d + 1))
        × (suc n + waiting (extend pending (children v) (d + 1)) ≤ max_json_nodes))
      ↔ (Shallow ((v, d) ∷ pending) × (n + waiting ((v, d) ∷ pending) ≤ max_json_nodes))
step_iff v d pending n small =
    let sizes = measures v in
    let shallow = Shallow-extend pending (children v) (d + 1) (omega arith) in
    let more = waiting-extend pending (children v) (d + 1) in
    (
      λ h.
          let (high, others) = shallow.0 h.0 in
          ((omega (arith, sizes.0), others), omega (arith, sizes.1, h.1)),
      λ h. (shallow.1 (omega (arith, sizes.0, h.0.0), h.0.1), omega (arith, sizes.1, h.1)),
    )

scan_iff :
    (fuel : ℕ) (pending : List (Value × ℕ)) (n : ℕ)
    → max_json_nodes < n + fuel
    → n ≤ max_json_nodes
    → (scan fuel pending n ≡ ok tt) ↔ (Shallow pending × (n + waiting pending ≤ max_json_nodes))
unfolding scan
scan_iff zero [] n enough small = (λ _. (tt, omega arith), λ _. refl)
scan_iff (suc fuel) [] n enough small = (λ _. (tt, omega arith), λ _. refl)
scan_iff zero ((v, d) ∷ pending) n enough small = absurd (omega arith)
scan_iff (suc fuel) ((v, d) ∷ pending) n enough small =
    let next : min (n + 1) usize_max ≡ suc n = omega arith in
    let node : 1 ≤ nodes v = omega (arith, (measures v).1) in
    let tall : 1 ≤ height v = omega (arith, (measures v).0) in
    rw next (elim (Bool-cases (ltb max_json_depth d)) [
      | inl deep ↦ rw deep (λ h. cc, λ h. absurd (ground (arith, h.0.0)))
      | inr shallow ↦
          let fits : d ≤ max_json_depth = ground arith in
          elim (Bool-cases (ltb max_json_nodes (suc n))) [
            | inl full ↦ rw (shallow, full) (λ h. cc, λ h. absurd (ground (arith, h.1)))
            | inr room ↦
                rw (shallow, room)
                  (compose_iff
                    (scan_iff fuel (extend pending (children v) (d + 1)) (suc n) (omega arith)
                      (ground arith))
                    (step_iff v d pending n fits))
          ]
    ])

-- What `validate_json` lets through.
pub record IsBounded (to_vec : Value → Option (List ℕ)) (max_bytes : ℕ) (v : Value) : Type 0 where
  pub shallow : height v ≤ 64
  pub few : nodes v ≤ 100000
  pub encoded : List ℕ
  pub written : to_vec v ≡ some encoded
  pub short : length encoded ≤ max_bytes

scan_value_iff :
    (v : Value)
    → (scan (suc max_json_nodes) ((v, 1) ∷ []) 0 ≡ ok tt) ↔ ((height v ≤ 64) × (nodes v ≤ 100000))
scan_value_iff v =
    compose_iff (scan_iff (suc max_json_nodes) ((v, 1) ∷ []) 0 (omega arith) (omega arith)) (
      λ h. (omega (arith, h.0.0), omega (arith, h.1)),
      λ h. ((omega (arith, h.0), tt), omega (arith, h.1)),
    )

-- `validate_json` accepts a payload exactly when it is nested at most 64 deep, has at most 100000
-- nodes, and its encoding succeeds within the limit of bytes: the loop, with the fuel it is given,
-- visits the whole value.
pub validate_json_iff :
    (to_vec : Value → Option (List ℕ)) (v : Value) (max_bytes : ℕ)
    → (validate_json to_vec v max_bytes ≡ ok tt) ↔ IsBounded to_vec max_bytes v
unfolding validate_json
validate_json_iff to_vec v max_bytes = (
  λ h.
      let (_, scanned, r0) = >>=-eq-ok (scan (suc max_json_nodes) ((v, 1) ∷ []) 0) _ h in
      let (encoded, written, last) = >>=-eq-ok (ok_or (to_vec v) payload_too_complex) _ r0 in
      let (shallow, few) = (scan_value_iff v).0 scanned in
      record {
        shallow = shallow;
        few = few;
        encoded = encoded;
        written = ok_or-eq-ok payload_too_complex (to_vec v) written;
        short = (at_most_iff (length encoded) max_bytes payload_too_large).0 last;
      },
  λ b.
      let scanned = (scan_value_iff v).1 (b.shallow, b.few) in
      rw scanned
        (rw b.written ((at_most_iff (length b.encoded) max_bytes payload_too_large).1 b.short)),
)
