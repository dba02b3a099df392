-- ===== src/Base/Counting.antt =====
-- Counts and sums over a list: measures for loops that let sets grow.
use Prim.Native.Nat.{ℕ, ◌+◌, ◌*◌, ◌≤◌, ◌<◌}
use mathlib.Core.Path.{◌≡◌}
use mathlib.Core.Logic.{inl, inr}
use mathlib.Core.Bool.{Bool, true, false}
use mathlib.Core.List.{List, [], ◌∷◌}
use native.Mathlib.Omega.{arith}
use ustc_2021_compliers.Base.Tests.{◌==◌, if◌then◌else◌, Bool-cases}
use ustc_2021_compliers.Base.Lists.{length}
use ustc_2021_compliers.Base.Sets.{contains}

pub count : List ℕ → (ℕ → Bool) → ℕ
count [] p = 0
count (x ∷ xs) p = (if p x then 1 else 0) + count xs p

pub count-le-length : (xs : List ℕ) (p : ℕ → Bool) → count xs p ≤ length xs
unfolding count
count-le-length [] p = omega arith
count-le-length (x ∷ xs) p = ground (arith, count-le-length xs p)

module _ (p q : ℕ → Bool) (sub : (x : ℕ) → p x ≡ true → q x ≡ true) where
  pub count_mono : (xs : List ℕ) → count xs p ≤ count xs q
  unfolding count
  count_mono [] = omega arith
  count_mono (x ∷ xs) = ground (arith, sub x, count_mono xs)

  pub count_strict :
      (xs : List ℕ) (x : ℕ)
      → contains xs x ≡ true
      → q x ≡ true
      → p x ≡ false
      → count xs p < count xs q
  unfolding count
  count_strict [] x m t f = cc
  count_strict (y ∷ xs) x m t f = elim (Bool-cases (y == x)) [
    | inl e ↦ ground (arith, count_mono xs)
    | inr e ↦ ground (arith, sub y, count_strict xs x)
  ]

pub sum : List ℕ → (ℕ → ℕ) → ℕ
sum [] f = 0
sum (x ∷ xs) f = f x + sum xs f

pub sum_bound : (xs : List ℕ) (f : ℕ → ℕ) (n : ℕ) → ((x : ℕ) → f x ≤ n) → sum xs f ≤ length xs * n
unfolding sum
sum_bound [] f n h = omega arith
sum_bound (x ∷ xs) f n h = grind (arith, h x, sum_bound xs f n h)

module _ (f g : ℕ → ℕ) (le : (x : ℕ) → f x ≤ g x) where
  pub sum_mono : (xs : List ℕ) → sum xs f ≤ sum xs g
  unfolding sum
  sum_mono [] = omega arith
  sum_mono (x ∷ xs) = omega (arith, le x, sum_mono xs)

  pub sum_strict : (xs : List ℕ) (x : ℕ) → contains xs x ≡ true → f x < g x → sum xs f < sum xs g
  unfolding sum
  sum_strict [] x m lt = cc
  sum_strict (y ∷ xs) x m lt = elim (Bool-cases (y == x)) [
    | inl e ↦ ground (arith, sum_mono xs)
    | inr e ↦ ground (arith, le y, sum_strict xs x)
  ]
