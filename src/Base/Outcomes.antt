-- ===== src/Base/Outcomes.antt =====
-- What a call of the C++ code comes to.
use mathlib.Core.Path.{◌≡◌, refl}

pub data Result {ℓ} (A : Type ℓ) : Type ℓ where
  -- it returns
  ok : A → Result A
  -- `std::abort()`, or an exception that nothing catches
  abort : Result A
  -- behaviour that C++ leaves undefined, such as a read outside of an array
  undefined : Result A
  -- the bound on the depth of the recursion was met, or a loop does not end
  out_of_fuel : Result A

module _ {ℓ κ} {A : Type ℓ} {B : Type κ} where
  infixl 5 ◌>>=◌
  -- The rest of the code runs where the call returns.
  abbrev pub ◌>>=◌ : Result A → (A → Result B) → Result B
  out_of_fuel >>= rest = out_of_fuel
  undefined >>= rest = undefined
  abort >>= rest = abort
  ok x >>= rest = rest x

  -- Code that returns has run a call that returns, and then the rest.
  pub >>=-eq-ok :
      (call : Result A) (rest : A → Result B) {y : B}
      → (call >>= rest) ≡ ok y
      → (x : A) × (call ≡ ok x) × (rest x ≡ ok y)
  >>=-eq-ok out_of_fuel rest e = cc
  >>=-eq-ok undefined rest e = cc
  >>=-eq-ok abort rest e = cc
  >>=-eq-ok (ok x) rest e = (x, refl, e)

abbrev pub Returns {ℓ} : {A : Type ℓ} → Result A → Type ℓ
Returns {A = A} r = (x : A) × (r ≡ ok x)

pub >>=-Returns {ℓ κ} :
    {A : Type ℓ} {B : Type κ} (call : Result A) (rest : A → Result B)
    → Returns call
    → ((x : A) → call ≡ ok x → Returns (rest x))
    → Returns (call >>= rest)
>>=-Returns call rest (x, e) then_returns = rw e (then_returns x e)

pub >>=-ok {ℓ κ} :
    {A : Type ℓ} {B : Type κ} (call : Result A) (rest : A → Result B) {x : A} {y : B}
    → call ≡ ok x
    → rest x ≡ ok y
    → (call >>= rest) ≡ ok y
>>=-ok call rest e d = rw e d

-- The call returns, with a value that has the property.
abbrev pub Yields {ℓ κ} : {A : Type ℓ} → Result A → (A → Type κ) → Type (ℓ ⊔ κ)
Yields {A = A} r P = (x : A) × (r ≡ ok x) × P x

-- A sequence of calls that return.
pub Yields-bind {ℓ κ μ ν} :
    {A : Type ℓ} {B : Type κ} {P : A → Type μ} {Q : B → Type ν} {call : Result A}
    {rest : A → Result B}
    → Yields call P
    → ((x : A) → P x → Yields (rest x) Q)
    → Yields (call >>= rest) Q
Yields-bind {call = call} {rest = rest} (x, e, p) continue =
    let (y, d, q) = continue x p in (y, >>=-ok call rest e d, q)
