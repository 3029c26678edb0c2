-- ===== src/Base/Maps.antt =====
-- `BTreeMap<String, V>`: the entries in the order of their keys.
use mathlib.Core.Path.{◌≡◌, refl}
use mathlib.Core.List.{List, [], ◌∷◌}
use mathlib.Core.Option.{Option, none, some}
use native.Mathlib.Omega.{arith}
use gareji_core.Base.Tests.{if◌then◌else◌}
use gareji_core.Base.Orders.{◌==◌, eq_iff}
use gareji_core.Base.Texts.{Text, text_ord, text_leq}

module _ {V : Type 0} where
  -- `insert`
  unfoldable pub put : Text → V → List (Text × V) → List (Text × V)
  unfolding text_leq
  put name value [] = (name, value) ∷ []
  put name value ((key, old) ∷ rest) =
      let later = put name value rest in
      if key == name
      then (key, value) ∷ rest
      else if text_leq name key
      then (name, value) ∷ (key, old) ∷ rest
      else (key, old) ∷ later

  -- `get`
  unfoldable pub value_at : Text → List (Text × V) → Option V
  value_at name [] = none
  value_at name ((key, value) ∷ rest) = if key == name then some value else value_at name rest

  pub value_at-put :
      (j k : Text) (v : V) (m : List (Text × V))
      → value_at j (put k v m) ≡ (if k == j then some v else value_at j m)
  unfolding value_at put
  value_at-put j k v [] = refl
  value_at-put j k v ((i, w) ∷ m) =
      ground (arith, eq_iff k j, eq_iff i k, eq_iff i j, value_at-put j k v m)
