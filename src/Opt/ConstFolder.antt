-- ===== src/Opt/ConstFolder.antt =====
-- The class ConstFolder of src/optimization/ConstPropagation.cpp.
use ustc_2021_compliers.Base.{
  ℕ, ◌+◌, ◌-◌, ◌*◌, ◌/◌, ◌%◌, ◌^◌, Bool, true, false, not, ◌&&◌, ◌||◌, Option, none, some, Result,
  ok, undefined, ltb, leb, ◌==◌, if◌then◌else◌,
}
use ustc_2021_compliers.Base.Int.{
  ℤ, pos, negsuc, pos_part, neg_part, sub_ℕ, ◌+ℤ◌, ◌-ℤ◌, ◌*ℤ◌, ltb_ℤ,
}
use ustc_2021_compliers.Ir.Instruction.{OpId, CmpOp}
pub mod Meaning

-- A signed operation of C++ whose result is no int is undefined.
abbrev pub is_int : ℤ → Bool
is_int (pos n) = ltb n (2 ^ 31)
is_int (negsuc n) = ltb n (2 ^ 31)

-- The result of a call: a new constant, or the null pointer (`none`).
abbrev pub int_result : ℤ → Result (Option ℤ)
int_result z = if is_int z then ok (some z) else undefined

abbrev pub abs : ℤ → ℕ
abs a = pos_part a + neg_part a

abbrev is_negative : ℤ → Bool
is_negative (pos n) = false
is_negative (negsuc n) = true

-- C++ division rounds towards zero.
abbrev pub divide : ℤ → ℤ → ℤ
divide (pos a) (pos b) = pos (a / b)
divide (pos a) (negsuc b) = sub_ℕ 0 (a / (b + 1))
divide (negsuc a) (pos b) = sub_ℕ 0 ((a + 1) / b)
divide (negsuc a) (negsuc b) = pos ((a + 1) / (b + 1))

abbrev is_zero : ℤ → Bool
is_zero (pos n) = n == 0
is_zero (negsuc n) = false

-- ConstFolder::compute
unfoldable pub compute : OpId → ℤ → ℤ → Result (Option ℤ)
compute OpId.add a b = int_result (a +ℤ b)
compute OpId.sub a b = int_result (a -ℤ b)
compute OpId.mul a b = int_result (a *ℤ b)
compute OpId.sdiv a b = if is_zero b then undefined else int_result (divide a b)
compute op a b = ok none

-- ConstFolder::compute_cmp
unfoldable pub compute_cmp : CmpOp → ℤ → ℤ → Bool
compute_cmp CmpOp.eq a b = not (ltb_ℤ a b) && not (ltb_ℤ b a)
compute_cmp CmpOp.ne a b = ltb_ℤ a b || ltb_ℤ b a
compute_cmp CmpOp.gt a b = ltb_ℤ b a
compute_cmp CmpOp.ge a b = not (ltb_ℤ a b)
compute_cmp CmpOp.lt a b = ltb_ℤ a b
compute_cmp CmpOp.le a b = not (ltb_ℤ b a)

-- Single precision arithmetic on bit patterns, as the host computes it: `below` and `above` compare
-- with the double 1e-7, and `to_int` is undefined where the value does not fit an int.
pub record Floats : Type 0 where
  pub add : ℕ → ℕ → ℕ
  pub sub : ℕ → ℕ → ℕ
  pub mul : ℕ → ℕ → ℕ
  pub div : ℕ → ℕ → ℕ
  pub abs : ℕ → ℕ
  pub less : ℕ → ℕ → Bool
  pub less_eq : ℕ → ℕ → Bool
  pub below : ℕ → Bool
  pub above : ℕ → Bool
  pub to_int : ℕ → Result ℤ
  pub of_int : ℤ → ℕ

module _ (fl : Floats) where
  -- ConstFolder::fcompute
  unfoldable pub fcompute : OpId → ℕ → ℕ → Option ℕ
  fcompute OpId.fadd a b = some (fl.add a b)
  fcompute OpId.fsub a b = some (fl.sub a b)
  fcompute OpId.fmul a b = some (fl.mul a b)
  fcompute OpId.fdiv a b = some (fl.div a b)
  fcompute op a b = none

  -- ConstFolder::compute_cmpFP
  unfoldable pub compute_cmp_fp : CmpOp → ℕ → ℕ → Bool
  compute_cmp_fp CmpOp.eq a b = fl.below (fl.abs (fl.sub a b))
  compute_cmp_fp CmpOp.ne a b = fl.above (fl.abs (fl.sub a b))
  compute_cmp_fp CmpOp.gt a b = fl.less b a
  compute_cmp_fp CmpOp.ge a b = fl.less_eq b a
  compute_cmp_fp CmpOp.lt a b = fl.less a b
  compute_cmp_fp CmpOp.le a b = fl.less_eq a b
