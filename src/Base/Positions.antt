-- ===== src/Base/Positions.antt =====
-- Where a member stands in a list.
use Prim.Native.Nat.{ℕ, suc, ◌+◌, ◌<◌}
use mathlib.Core.Path.{◌≡◌, refl, ◌∙◌}
use mathlib.Core.Logic.{inl, inr}
use mathlib.Core.Bool.{true, false}
use mathlib.Core.List.{List, [], ◌∷◌, ◌++◌}
use native.Mathlib.Omega.{arith}
use ustc_2021_compliers.Base.Tests.{◌==◌, if◌then◌else◌, Bool-cases}
use ustc_2021_compliers.Base.Lists.{length}
use ustc_2021_compliers.Base.Sets.{contains, contains-append, IsDistinct}

pub length-snoc : (xs : List ℕ) (x : ℕ) → length (xs ++ x ∷ []) ≡ length xs + 1
length-snoc [] x = refl
length-snoc (y ∷ xs) x = omega (arith, length-snoc xs x)

-- The length of the list where it is no member.
abbrev pub position : List ℕ → ℕ → ℕ
position [] v = 0
position (x ∷ xs) v = let rest = position xs v in if x == v then 0 else suc rest

pub position_bound : (xs : List ℕ) (v : ℕ) → contains xs v ≡ true → position xs v < length xs
position_bound [] v m = cc
position_bound (x ∷ xs) v m = elim (Bool-cases (x == v)) [
  | inl t ↦ ground arith
  | inr f ↦ ground (arith, position_bound xs v)
]

pub position-snoc_old :
    (xs : List ℕ) (x v : ℕ) → contains xs v ≡ true → position (xs ++ x ∷ []) v ≡ position xs v
position-snoc_old [] x v m = cc
position-snoc_old (y ∷ xs) x v m = elim (Bool-cases (y == v)) [
  | inl t ↦ ground arith
  | inr f ↦ ground (arith, position-snoc_old xs x v)
]

pub position-snoc_new :
    (xs : List ℕ) (x : ℕ) → contains xs x ≡ false → position (xs ++ x ∷ []) x ≡ length xs
position-snoc_new [] x m = ground arith
position-snoc_new (y ∷ xs) x m = ground (arith, position-snoc_new xs x)

pub snoc-IsDistinct :
    (xs : List ℕ) (x : ℕ) → IsDistinct xs → contains xs x ≡ false → IsDistinct (xs ++ x ∷ [])
snoc-IsDistinct [] x d m = (refl, tt)
snoc-IsDistinct (y ∷ xs) x d m =
    (contains-append xs x y ∙ ground (arith, d.0), snoc-IsDistinct xs x d.1 (ground arith))
