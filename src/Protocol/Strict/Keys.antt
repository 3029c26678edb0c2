-- ===== src/Protocol/Strict/Keys.antt =====
-- Duplicate keys (crates/agentmesh-proto/src/json_strict.rs).
use gareji_core.Base.{
  ℕ, zero, suc, ◌≡◌, refl, sym, List, [], ◌∷◌, Text, ok, err, fail_if, fail_if-eq-ok, >>=-eq-ok,
  contains, contains-false, Elem, Distinct, inl, inr, text_ord,
}
use gareji_core.RunContract.{Value, Entries}
use gareji_core.Protocol.{duplicate_key}
use gareji_core.Protocol.Strict.{
  Scalars, refused, Parsed, invalid, skip_ws, expect_char, parse_string, parse_value, parse_members,
  Behind, behind, comma, close, neither, insert_entry,
}

-- The keys of the members of an object, in the order of the text, with no test that they differ. Where the text
-- has no further member the list ends.
abbrev pub member_keys : Scalars → ℕ → Text → List Text
member_keys scalars zero t = []
member_keys scalars (suc fuel) t = elim (parse_string scalars (skip_ws t)) [
  | err e ↦ []
  | ok (key, after) ↦ elim (expect_char b':' after) [
    | err e ↦ key ∷ []
    | ok (u, inside) ↦ elim (parse_value scalars fuel inside) [
      | err e ↦ key ∷ []
      | ok (value, rest) ↦ elim (skip_ws rest) [
        | [] ↦ key ∷ []
        | c ∷ rest' ↦ elim (behind b'}' c) [
          | comma ↦ key ∷ member_keys scalars fuel rest'
          | close ↦ key ∷ []
          | neither ↦ key ∷ []
        ]
      ]
    ]
  ]
]

-- The keys all differ, and none is among those seen.
abbrev pub New : List Text → List Text → Type 0
New seen keys = Distinct keys × ((k : Text) → Elem k keys → ¬ Elem k seen)

New-one : (seen : List Text) (key : Text) → ¬ Elem key seen → New seen (key ∷ [])
New-one seen key h = ((λ m. m, tt), λ k m n. elim m [ inl e ↦ h (rw (sym e) n) | inr x ↦ x ])

New-more :
    (seen keys : List Text) (key : Text)
    → ¬ Elem key seen
    → New (key ∷ seen) keys
    → New seen (key ∷ keys)
New-more seen keys key h (distinct, apart) = (
  (λ m. apart key m (inl refl), distinct),
  λ k m n. elim m [ inl e ↦ h (rw (sym e) n) | inr x ↦ apart k x (inr n) ],
)

-- An object is accepted only if its keys, as they stand in the text, all differ.
pub parse_members_distinct :
    (scalars : Scalars) (fuel : ℕ) (seen : List Text) (members : Entries) (t : Text)
    {parsed : Entries × Text}
    → parse_members scalars fuel seen members t ≡ ok parsed
    → New seen (member_keys scalars fuel t)
unfolding parse_members
parse_members_distinct scalars zero seen members t h = cc
parse_members_distinct scalars (suc fuel) seen members t {parsed} h =
    let (key, read, r0) = >>=-eq-ok (parse_string scalars (skip_ws t)) _ h in
    let (u, fresh, r1) =
      >>=-eq-ok (fail_if (contains seen key.0) (refused (duplicate_key key.0))) _ r0 in
    let (colon, found, r2) = >>=-eq-ok (expect_char b':' key.1) _ r1 in
    let (value, got, r3) = >>=-eq-ok (parse_value scalars fuel colon.1) _ r2 in
    let new = contains-false seen key.0 (fail_if-eq-ok _ _ fresh) in
    rw (member_keys, read, found, got)
      (go key.0 value.0 new
        (λ rest k.
          parse_members_distinct scalars fuel (key.0 ∷ seen) (insert_entry key.0 value.0 members)
            rest k)
        (skip_ws value.1) r3)
  where
    round :
        (key : Text) (value : Value)
        → ¬ Elem key seen
        → ((rest : Text)
            → parse_members scalars fuel (key ∷ seen) (insert_entry key value members) rest
              ≡ ok parsed
            → New (key ∷ seen) (member_keys scalars fuel rest))
        → (rest : Text) (b : Behind)
        → ◌≡◌ {A = Parsed Entries}
            (elim b [
              | comma ↦
                  parse_members scalars fuel (key ∷ seen) (insert_entry key value members) rest
              | close ↦ ok (insert_entry key value members, rest)
              | neither ↦ invalid
            ])
            (ok parsed)
        → New seen (elim b [
          | comma ↦ key ∷ member_keys scalars fuel rest
          | close ↦ key ∷ []
          | neither ↦ key ∷ []
        ])
    round key value new again rest comma k = New-more seen _ key new (again rest k)
    round key value new again rest close k = New-one seen key new
    round key value new again rest neither k = New-one seen key new

    go :
        (key : Text) (value : Value)
        → ¬ Elem key seen
        → ((rest : Text)
            → parse_members scalars fuel (key ∷ seen) (insert_entry key value members) rest
              ≡ ok parsed
            → New (key ∷ seen) (member_keys scalars fuel rest))
        → (s : Text)
        → ◌≡◌ {A = Parsed Entries}
            (elim s [
              | [] ↦ invalid
              | c ∷ rest ↦ elim (behind b'}' c) [
                | comma ↦
                    parse_members scalars fuel (key ∷ seen) (insert_entry key value members) rest
                | close ↦ ok (insert_entry key value members, rest)
                | neither ↦ invalid
              ]
            ])
            (ok parsed)
        → New seen (elim s [
          | [] ↦ key ∷ []
          | c ∷ rest ↦ elim (behind b'}' c) [
            | comma ↦ key ∷ member_keys scalars fuel rest
            | close ↦ key ∷ []
            | neither ↦ key ∷ []
          ]
        ])
    go key value new again [] k = New-one seen key new
    go key value new again (c ∷ rest) k = round key value new again rest (behind b'}' c) k
