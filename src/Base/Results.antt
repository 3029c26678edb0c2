-- ===== src/Base/Results.antt =====
-- Rust's `Result<A, E>`, its `?` as the bind of a `do` block, `map_err` and `ok_or_else`.
use mathlib.Core.Path.{◌≡◌, refl}
use mathlib.Core.Logic.{◌⊎◌, inl, inr}
use mathlib.Core.Bool.{Bool, true, false, not}
use mathlib.Core.Option.{Option, none, some}
use native.Mathlib.Omega.{arith}

pub data Result {ℓ} (A E : Type ℓ) : Type ℓ where
  ok : A → Result A E
  err : E → Result A E

-- `if test { return Err(e); }`
abbrev pub fail_if : {E : Type 0} → Bool → E → Result Unit E
fail_if true e = err e
fail_if false e = ok tt

-- `?`: an error ends the block.
infixl 5 ◌>>◌ ◌>>=◌
abbrev pub ◌>>=◌ {ℓ} : {A B E : Type ℓ} → Result A E → (A → Result B E) → Result B E
err e >>= next = err e
ok x >>= next = next x

abbrev pub ◌>>◌ {ℓ} : {A B E : Type ℓ} → Result A E → Result B E → Result B E
step >> rest = step >>= λ skipped. rest

abbrev pub map_err {ℓ} : {A E F : Type ℓ} → (E → F) → Result A E → Result A F
map_err f (ok a) = ok a
map_err f (err e) = err (f e)

abbrev pub ok_or {ℓ} : {A E : Type ℓ} → Option A → E → Result A E
ok_or none e = err e
ok_or (some a) e = ok a

abbrev pub is_ok {ℓ} : {A E : Type ℓ} → Result A E → Bool
is_ok (ok a) = true
is_ok (err e) = false

pub Result-cases {ℓ} :
    {A E : Type ℓ} (r : Result A E) → ((a : A) × (r ≡ ok a)) ⊎ ((e : E) × (r ≡ err e))
Result-cases (ok a) = inl (a, refl)
Result-cases (err e) = inr (e, refl)

-- A block that succeeds has a first step that does.
pub >>=-eq-ok {ℓ} :
    {A E B : Type ℓ} {last : B} (step : Result A E) (next : A → Result B E)
    → step >>= next ≡ ok last
    → (x : A) × (step ≡ ok x) × (next x ≡ ok last)
>>=-eq-ok (err e) next h = cc
>>=-eq-ok (ok x) next h = (x, refl, h)

-- What a successful step of a chain tells.
pub map_err-eq-ok {ℓ} :
    {A E F : Type ℓ} (f : E → F) (m : Result A E) {a : A} → map_err f m ≡ ok a → m ≡ ok a
map_err-eq-ok f (ok b) h = ground arith
map_err-eq-ok f (err e) h = cc

pub ok_or-eq-ok {ℓ} : {A E : Type ℓ} (e : E) (o : Option A) {a : A} → ok_or o e ≡ ok a → o ≡ some a
ok_or-eq-ok e none h = cc
ok_or-eq-ok e (some b) h = ground arith

pub fail_if-eq-ok : {E : Type 0} (b : Bool) (e : E) {u : Unit} → fail_if b e ≡ ok u → b ≡ false
fail_if-eq-ok true e h = cc
fail_if-eq-ok false e h = refl

pub unless-eq-ok : {E : Type 0} (b : Bool) (e : E) {u : Unit} → fail_if (not b) e ≡ ok u → b ≡ true
unless-eq-ok true e h = refl
unless-eq-ok false e h = cc
