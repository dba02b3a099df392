-- ===== src/Opt/ConstFolder/Meaning.antt =====
-- What ConstFolder (src/optimization/ConstPropagation.cpp) computes, against the meaning of the
-- instructions that it folds.
use Prim.Native.Nat.{zero, suc}
use ustc_2021_compliers.Base.{
  ◌-◌, ◌/◌, ◌%◌, ◌^◌, ◌≡◌, ◌≢◌, ◌↔◌, true, Option, none, some, ok, undefined, ltb, if◌then◌else◌,
  arith,
}
use ustc_2021_compliers.Base.Int.{ℤ, pos, negsuc, ◌+ℤ◌, ◌-ℤ◌, ◌*ℤ◌, ◌≤ℤ◌}
use ustc_2021_compliers.Ir.Instruction.{OpId, CmpOp}
use ustc_2021_compliers.Opt.ConstFolder.{abs, compute, compute_cmp, is_int, int_result, divide}

-- The i32 with the same residue modulo 2 ^ 32.
unfoldable pub wrap : ℤ → ℤ
wrap (pos n) = let r = n % 2 ^ 32 in if ltb r (2 ^ 31) then pos r else negsuc (2 ^ 32 - r - 1)
wrap (negsuc n) = let r = n % 2 ^ 32 in if ltb r (2 ^ 31) then negsuc r else pos (2 ^ 32 - r - 1)

pub wrap-is_int : (z : ℤ) → is_int z ≡ true → wrap z ≡ z
unfolding wrap
wrap-is_int z h = ground arith

pub is_int-wrap : (z : ℤ) → is_int (wrap z) ≡ true
unfolding wrap
is_int-wrap z = ground arith

-- The integer instructions of the IR on i32: sums and products wrap, and a division by zero or one
-- that overflows has no result.
unfoldable pub run_int : OpId → ℤ → ℤ → Option ℤ
run_int OpId.add a b = some (wrap (a +ℤ b))
run_int OpId.sub a b = some (wrap (a -ℤ b))
run_int OpId.mul a b = some (wrap (a *ℤ b))
run_int OpId.sdiv a (pos zero) = none
run_int OpId.sdiv a b = if is_int (divide a b) then some (divide a b) else none
run_int op a b = none

-- What each comparison operator says of two integers.
abbrev pub Compares : CmpOp → ℤ → ℤ → Type 0
Compares CmpOp.eq a b = a ≡ b
Compares CmpOp.ne a b = a ≢ b
Compares CmpOp.gt a b = ¬ (a ≤ℤ b)
Compares CmpOp.ge a b = b ≤ℤ a
Compares CmpOp.lt a b = ¬ (b ≤ℤ a)
Compares CmpOp.le a b = a ≤ℤ b

int_result-wrap : (z r : ℤ) → int_result z ≡ ok (some r) → (wrap z ≡ r) × (is_int r ≡ true)
int_result-wrap z r h = ground (arith, wrap-is_int z)

-- Where ConstFolder::compute returns a constant, the instruction has a result on the same operands,
-- the constant is that result, and it is an int.
pub compute-run_int :
    (op : OpId) (a b r : ℤ)
    → compute op a b ≡ ok (some r)
    → (run_int op a b ≡ some r) × (is_int r ≡ true)
unfolding compute run_int
compute-run_int OpId.add a b r h = ground (arith, int_result-wrap (a +ℤ b) r)
compute-run_int OpId.sub a b r h = ground (arith, int_result-wrap (a -ℤ b) r)
compute-run_int OpId.mul a b r h = ground (arith, int_result-wrap (a *ℤ b) r)
compute-run_int OpId.sdiv a (pos zero) r h = cc
compute-run_int OpId.sdiv a (pos (suc n)) r h = ground arith
compute-run_int OpId.sdiv a (negsuc n) r h = ground arith
compute-run_int _ a b r h = cc

-- ConstFolder::compute_cmp folds each of the six integer comparisons to its truth value.
pub compute_cmp-Compares : (op : CmpOp) (a b : ℤ) → (compute_cmp op a b ≡ true) ↔ Compares op a b
unfolding compute_cmp
compute_cmp-Compares CmpOp.eq a b = ground arith
compute_cmp-Compares CmpOp.ne a b = ground arith
compute_cmp-Compares _ a b = ground arith

-- Folding a division is undefined behaviour of the compiler exactly where the division has no
-- result: by zero, and on overflow.
pub compute-sdiv_undefined :
    (a b : ℤ) → (compute OpId.sdiv a b ≡ undefined) ↔ (run_int OpId.sdiv a b ≡ none)
unfolding compute run_int
compute-sdiv_undefined a (pos zero) = ground arith
compute-sdiv_undefined a (pos (suc n)) = ground arith
compute-sdiv_undefined a (negsuc n) = ground arith

-- A C++ quotient rounds towards zero: its size is the quotient of the sizes.
pub abs-divide : (a b : ℤ) → abs (divide a b) ≡ abs a / abs b
abs-divide a b = ground arith

abbrev pub IsArithmetic : OpId → Type 0
IsArithmetic OpId.add = Unit
IsArithmetic OpId.sub = Unit
IsArithmetic OpId.mul = Unit
IsArithmetic OpId.sdiv = Unit
IsArithmetic _ = ⊥

-- For the four instructions that the pass hands over, the folder returns no null pointer.
pub compute-ne-null : (op : OpId) (a b : ℤ) → IsArithmetic op → compute op a b ≢ ok none
unfolding compute
compute-ne-null OpId.add a b h = ground arith
compute-ne-null OpId.sub a b h = ground arith
compute-ne-null OpId.mul a b h = ground arith
compute-ne-null OpId.sdiv a b h = ground arith
compute-ne-null _ a b h = absurd h
