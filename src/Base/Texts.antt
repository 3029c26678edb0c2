-- ===== src/Base/Texts.antt =====
-- Text as its characters (Unicode scalar values), its UTF-8 bytes, and its order.
-- Rust compares `String`s by their bytes; UTF-8 keeps the order of the scalar values.
use Prim.Native.Nat.{ℕ, ◌+◌, ◌/◌, ◌%◌}
use Prim.Native.Char.{code}
use Prim.Native.String.{String}
use mathlib.Core.Path.{◌≡◌, refl}
use mathlib.Core.Logic.{◌⊎◌, inl, inr}
use mathlib.Core.Bool.{Bool, true, false, ◌&&◌, ◌||◌}
use mathlib.Core.List.{List, [], ◌∷◌, ◌++◌}
use mathlib.Core.Option.{Option, none, some}
use native.Mathlib.Omega.{arith}
use gareji_core.Base.Tests.{if◌then◌else◌, ltb, leb, nat_beq}
use gareji_core.Base.Orders.{Ord, ◌==◌}

abbrev pub Text : Type 0
Text = List ℕ

-- The characters of a literal.
abbrev pub codes : String → Text
codes String.[] = []
codes (String.◌∷◌ c s) = code c ∷ codes s

-- The UTF-8 bytes of a character, and of a text.
unfoldable pub utf8_char : ℕ → List ℕ
utf8_char c =
    if ltb c 0x80
    then c ∷ []
    else if ltb c 0x800
    then (0xc0 + c / 64) ∷ (0x80 + c % 64) ∷ []
    else if ltb c 0x10000
    then (0xe0 + c / 4096) ∷ (0x80 + c / 64 % 64) ∷ (0x80 + c % 64) ∷ []
    else (0xf0 + c / 262144) ∷ (0x80 + c / 4096 % 64) ∷ (0x80 + c / 64 % 64) ∷ (0x80 + c % 64) ∷ []

unfoldable pub bytes : Text → List ℕ
unfolding utf8_char
bytes [] = []
bytes (c ∷ t) = utf8_char c ++ bytes t

-- `char::is_control`: the general category Cc.
unfoldable pub is_control : ℕ → Bool
is_control c = ltb c 0x20 || (leb 0x7f c && leb c 0x9f)

-- `char::is_whitespace`: the property White_Space.
unfoldable pub is_whitespace : ℕ → Bool
is_whitespace c =
    (leb 9 c && leb c 13)
    || nat_beq c 0x20
    || nat_beq c 0x85
    || nat_beq c 0xa0
    || nat_beq c 0x1680
    || (leb 0x2000 c && leb c 0x200a)
    || nat_beq c 0x2028
    || nat_beq c 0x2029
    || nat_beq c 0x202f
    || nat_beq c 0x205f
    || nat_beq c 0x3000

unfoldable pub is_ascii_lowercase : ℕ → Bool
is_ascii_lowercase b = leb b'a' b && leb b b'z'

unfoldable pub is_ascii_digit : ℕ → Bool
is_ascii_digit b = leb b'0' b && leb b b'9'

abbrev pub is_empty {ℓ} : {A : Type ℓ} → List A → Bool
is_empty [] = true
is_empty (x ∷ xs) = false

unfoldable pub text_leq : Text → Text → Bool
text_leq [] u = true
text_leq (c ∷ t) [] = false
text_leq (c ∷ t) (d ∷ u) = if ltb c d then true else if ltb d c then false else text_leq t u

pub text_leq_antisym : (t u : Text) → text_leq t u ≡ true → text_leq u t ≡ true → t ≡ u
unfolding text_leq
text_leq_antisym [] [] h k = refl
text_leq_antisym [] (d ∷ u) h k = ground arith
text_leq_antisym (c ∷ t) [] h k = ground arith
text_leq_antisym (c ∷ t) (d ∷ u) h k = ground (arith, text_leq_antisym t u)

pub text_leq_trans :
    (t u v : Text) → text_leq t u ≡ true → text_leq u v ≡ true → text_leq t v ≡ true
unfolding text_leq
text_leq_trans [] u v h k = refl
text_leq_trans (c ∷ t) [] v h k = ground arith
text_leq_trans (c ∷ t) (d ∷ u) [] h k = ground arith
text_leq_trans (c ∷ t) (d ∷ u) (e ∷ v) h k = ground (arith, text_leq_trans t u v)

pub text_leq_total : (t u : Text) → (text_leq t u ≡ true) ⊎ (text_leq u t ≡ true)
unfolding text_leq
text_leq_total [] u = inl refl
text_leq_total (c ∷ t) [] = inr refl
text_leq_total (c ∷ t) (d ∷ u) = ground (arith, text_leq_total t u)

instance abbrev pub text_ord : Ord Text
text_ord = record {
  leq = text_leq;
  leq_antisym = text_leq_antisym;
  leq_trans = text_leq_trans;
  leq_total = text_leq_total;
}

-- `Option<String>` compared with `==`, as SQL and Rust do not identify it with a text.
abbrev pub opt_eq : Option Text → Option Text → Bool
opt_eq none none = true
opt_eq (some t) (some u) = t == u
opt_eq _ _ = false

-- `str::starts_with`
unfoldable pub starts_with : Text → Text → Bool
starts_with [] t = true
starts_with (c ∷ p) [] = false
starts_with (c ∷ p) (x ∷ t) = nat_beq c x && starts_with p t
