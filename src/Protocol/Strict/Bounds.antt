-- ===== src/Protocol/Strict/Bounds.antt =====
-- The bounds of the strict parser (crates/agentmesh-proto/src/json_strict.rs) are those of the
-- recursive definitions of depth and of the number of nodes.
use gareji_core.Base.{ℕ, suc, ◌+◌, ◌≤◌, ◌≡◌, ◌↔◌, refl, ok, >>=-eq-ok, arith}
use gareji_core.RunContract.{
  Value, Values, Entries, null, bool, number, string, array, object, no_values, value_and,
  no_entries, entry_and,
}
use gareji_core.Runner.Payloads.{
  height, height_values, height_entries, nodes, nodes_values, nodes_entries,
}
use gareji_core.Protocol.{Limits}
use gareji_core.Protocol.Strict.{enter, check_bounds, check_values, check_entries}

module _ (limits : Limits) where
  -- A subtree of `h` levels and `k` nodes fits below a depth, behind `n` nodes.
  abbrev Fits : ℕ → ℕ → ℕ → ℕ → Type 0
  Fits depth n h k = (depth + h ≤ suc limits.json_max_depth) × (n + k ≤ limits.json_max_nodes)

  enter_iff :
      (depth n m : ℕ)
      → (enter limits depth n ≡ ok m)
        ↔ ((depth ≤ limits.json_max_depth) × (n + 1 ≤ limits.json_max_nodes) × (m ≡ n + 1))
  unfolding enter
  enter_iff depth n m = (λ h. ground arith, λ h. ground arith)

  leaf_iff : (depth n m : ℕ) → (enter limits depth n ≡ ok m) ↔ (Fits depth n 1 1 × (m ≡ n + 1))
  leaf_iff depth n m = (
    λ h. let (a, b, c) = (enter_iff depth n m).0 h in ((omega (arith, a), b), c),
    λ h. (enter_iff depth n m).1 (omega (arith, h), h.0.1, h.1),
  )

  mutual
    unfolding check_bounds

    check_bounds_iff :
        (depth : ℕ) (v : Value) (n m : ℕ)
        → (check_bounds limits depth v n ≡ ok m)
          ↔ (Fits depth n (height v) (nodes v) × (m ≡ n + nodes v))
    check_bounds_iff depth null n m = leaf_iff depth n m
    check_bounds_iff depth (bool b) n m = leaf_iff depth n m
    check_bounds_iff depth (number k) n m = leaf_iff depth n m
    check_bounds_iff depth (string s) n m = leaf_iff depth n m
    check_bounds_iff depth (array vs) n m = (
      λ h.
          let (k, entered, rest) = >>=-eq-ok (enter limits depth n) _ h in
          let (a, b, c) = (enter_iff depth n k).0 entered in
          let (fits, e) =
            (check_values_iff (depth + 1) vs k m (omega (arith, a)) (omega (arith, b, c))).0 rest in
          ((omega (arith, fits, c), omega (arith, fits, c)), omega (arith, e, c)),
      λ h. rw ((enter_iff depth n (n + 1)).1 (omega (arith, h), omega (arith, h), refl)) (
          (check_values_iff (depth + 1) vs (n + 1) m (omega (arith, h)) (omega (arith, h))).1
            ((omega (arith, h), omega (arith, h)), omega (arith, h))),
    )
    check_bounds_iff depth (object es) n m = (
      λ h.
          let (k, entered, rest) = >>=-eq-ok (enter limits depth n) _ h in
          let (a, b, c) = (enter_iff depth n k).0 entered in
          let (fits, e) =
            (check_entries_iff (depth + 1) es k m (omega (arith, a)) (omega (arith, b, c))).0
              rest in
          ((omega (arith, fits, c), omega (arith, fits, c)), omega (arith, e, c)),
      λ h. rw ((enter_iff depth n (n + 1)).1 (omega (arith, h), omega (arith, h), refl)) (
          (check_entries_iff (depth + 1) es (n + 1) m (omega (arith, h)) (omega (arith, h))).1
            ((omega (arith, h), omega (arith, h)), omega (arith, h))),
    )

    check_values_iff :
        (depth : ℕ) (vs : Values) (n m : ℕ)
        → depth ≤ suc limits.json_max_depth
        → n ≤ limits.json_max_nodes
        → (check_values limits depth vs n ≡ ok m)
          ↔ (Fits depth n (height_values vs) (nodes_values vs) × (m ≡ n + nodes_values vs))
    check_values_iff depth no_values n m p q =
        (λ h. ((omega arith, omega arith), ground arith), λ h. ground arith)
    check_values_iff depth (value_and v vs) n m p q = (
      λ h.
          let (k, first, rest) = >>=-eq-ok (check_bounds limits depth v n) _ h in
          let (a, b) = (check_bounds_iff depth v n k).0 first in
          let (c, e) = (check_values_iff depth vs k m p (omega (arith, a, b))).0 rest in
          ((omega (arith, a, c, b), omega (arith, c, b)), omega (arith, e, b)),
      λ h.
          rw
            ((check_bounds_iff depth v n (n + nodes v)).1
              ((omega (arith, h), omega (arith, h)), refl))
            ((check_values_iff depth vs (n + nodes v) m p (omega (arith, h))).1
              ((omega (arith, h), omega (arith, h)), omega (arith, h))),
    )

    check_entries_iff :
        (depth : ℕ) (es : Entries) (n m : ℕ)
        → depth ≤ suc limits.json_max_depth
        → n ≤ limits.json_max_nodes
        → (check_entries limits depth es n ≡ ok m)
          ↔ (Fits depth n (height_entries es) (nodes_entries es) × (m ≡ n + nodes_entries es))
    check_entries_iff depth no_entries n m p q =
        (λ h. ((omega arith, omega arith), ground arith), λ h. ground arith)
    check_entries_iff depth (entry_and key v es) n m p q = (
      λ h.
          let (k, first, rest) = >>=-eq-ok (check_bounds limits depth v n) _ h in
          let (a, b) = (check_bounds_iff depth v n k).0 first in
          let (c, e) = (check_entries_iff depth es k m p (omega (arith, a, b))).0 rest in
          ((omega (arith, a, c, b), omega (arith, c, b)), omega (arith, e, b)),
      λ h.
          rw
            ((check_bounds_iff depth v n (n + nodes v)).1
              ((omega (arith, h), omega (arith, h)), refl))
            ((check_entries_iff depth es (n + nodes v) m p (omega (arith, h))).1
              ((omega (arith, h), omega (arith, h)), omega (arith, h))),
    )
