-- ===== src/Prelude/Results.antt =====
-- Thrown errors as values: `throw new Error("X")` is `err "X"`.
use Prim.Native.String.{String}
use mathlib.Core.Path.{◌≡◌, refl}
use mathlib.Core.Bool.{Bool, true, false}
use mathlib.Core.Logic.{◌⊎◌, inl, inr}
use mathlib.Core.Option.{Option, none, some}

-- What a call comes to: the error that it throws, or what it returns.
pub data Result {ℓ} (R : Type ℓ) : Type ℓ where
  err : String → Result R
  ok : R → Result R

infixl 5 ◌>>=◌
infixl 5 ◌>>◌
-- The rest of a function after a call that may throw.
abbrev pub ◌>>=◌ {ℓ κ} : {R : Type ℓ} {S : Type κ} → Result R → (R → Result S) → Result S
err message >>= rest = err message
ok r >>= rest = rest r

-- The same after a call for its check only.
abbrev pub ◌>>◌ {ℓ} : {S : Type ℓ} → Result (Unit {0}) → Result S → Result S
check >> rest = check >>= λ passed. rest

-- `assert(c, "X")`, and `if(!c)throw new Error("X")`.
abbrev pub assert : Bool → String → Result (Unit {0})
assert false message = err message
assert true message = ok tt

-- The first row of a SELECT, or `if(!row)throw new Error("X")`.
abbrev pub or_throw {ℓ} : {A : Type ℓ} → Option A → String → Result A
or_throw none e = err e
or_throw (some a) e = ok a

pub or_throw-eq-ok {ℓ} :
    {A : Type ℓ} (o : Option A) (e : String) {a : A} → or_throw o e ≡ ok a → o ≡ some a
or_throw-eq-ok none e h = cc
or_throw-eq-ok (some a) e h = cc

-- A function that returns has come through its first call, and returns what its rest does.
pub >>=-eq-ok {ℓ κ} :
    {R : Type ℓ} {S : Type κ} (call : Result R) (rest : R → Result S) {answer : S}
    → (call >>= rest) ≡ ok answer
    → (r : R) × (call ≡ ok r) × (rest r ≡ ok answer)
>>=-eq-ok (err message) rest returned = cc
>>=-eq-ok (ok r) rest returned = (r, refl, returned)

pub Result-cases {ℓ} :
    {R : Type ℓ} (call : Result R) → ((r : R) × (call ≡ ok r)) ⊎ ((e : String) × (call ≡ err e))
Result-cases (err e) = inr (e, refl)
Result-cases (ok r) = inl (r, refl)
