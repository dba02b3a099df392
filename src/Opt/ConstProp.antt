-- ===== src/Opt/ConstProp.antt =====
-- ConstPropagation::run of src/optimization/ConstPropagation.cpp, on the heap of values. A basic
-- block is the list of its instructions.
use ustc_2021_compliers.Base.{
  ℕ, Bool, true, false, Option, none, some, List, [], ◌∷◌, Result, ok, undefined, ◌>>=◌, ◌==◌,
  if◌then◌else◌, get_elem?,
}
use ustc_2021_compliers.Base.Int.{ℤ, pos}
use ustc_2021_compliers.Ir.Instruction.{OpId, CmpOp}
use ustc_2021_compliers.Ir.Heap.{
  Heap, Kind, constant_int, constant_bool, constant_fp, instruction, replace_all_use_with,
  remove_use_of_ops, new_constant,
}
use ustc_2021_compliers.Base.{remove}
use ustc_2021_compliers.Opt.ConstFolder.{Floats, compute, compute_cmp, fcompute, compute_cmp_fp}
pub mod Values
pub mod Step
pub mod Visit
pub mod Sound
pub mod Delete
pub mod Returns
pub mod Total
pub mod Folds
pub mod Unused
pub mod Removals
pub mod Thinned

abbrev pub bool_value : Bool → ℤ
bool_value true = pos 1
bool_value false = pos 0

-- cast_constantint, and the `value_` of what it returns
abbrev pub cast_constantint : Kind → Option ℤ
cast_constantint (constant_int z) = some z
cast_constantint (constant_bool b) = some (bool_value b)
cast_constantint _ = none

-- cast_constantfp
abbrev pub cast_constantfp : Kind → Option ℕ
cast_constantfp (constant_fp x) = some x
cast_constantfp _ = none

abbrev in_range : Option ℕ → Result ℕ
in_range (some v) = ok v
in_range none = undefined

-- `get_operand(i)`
abbrev pub get_operand : Heap → ℕ → ℕ → Result ℕ
get_operand h p i = in_range (get_elem? (h.operands p) i)

-- The instruction is folded where its operands are constants, and left alone where one is not.
abbrev pub when_one :
    {A : Type 0} → Heap → Option A → (A → Result (Heap × Bool)) → Result (Heap × Bool)
when_one h (some a) fold = fold a
when_one h none fold = ok (h, false)

abbrev pub when_both :
    {A : Type 0}
    → Heap
    → Option A
    → Option A
    → (A → A → Result (Heap × Bool))
    → Result (Heap × Bool)
when_both h (some a) (some b) fold = fold a b
when_both h _ _ fold = ok (h, false)

-- The uses of `p` become uses of a new constant, and `p` is to be deleted.
unfoldable pub replace_by : Heap → ℕ → Kind → Result (Heap × Bool)
replace_by h p k = do
  let (h1, c) = new_constant h k
  h2 ← replace_all_use_with h1 p c
  ok (h2, true)

-- A null pointer from the folder would be dereferenced at the first use.
abbrev pub null_constant : Heap → ℕ → Result (Heap × Bool)
null_constant h p = elim (h.use_list p) [ [] ↦ ok (h, true) | _ ∷ _ ↦ undefined ]

abbrev pub use_int : Heap → ℕ → Option ℤ → Result (Heap × Bool)
use_int h p (some z) = replace_by h p (constant_int z)
use_int h p none = null_constant h p

abbrev pub use_fp : Heap → ℕ → Option ℕ → Result (Heap × Bool)
use_fp h p (some x) = replace_by h p (constant_fp x)
use_fp h p none = null_constant h p

unfoldable pub fold_int : Heap → ℕ → OpId → CmpOp → ℤ → ℤ → Result (Heap × Bool)
fold_int h p OpId.cmp c a b = replace_by h p (constant_bool (compute_cmp c a b))
fold_int h p op c a b = compute op a b >>= use_int h p

-- The branch for add, sub, mul, sdiv and cmp.
unfoldable pub visit_int : Heap → ℕ → OpId → CmpOp → Result (Heap × Bool)
visit_int h p op c = do
  l ← get_operand h p 0
  r ← get_operand h p 1
  when_both h (cast_constantint (h.kind l)) (cast_constantint (h.kind r)) (fold_int h p op c)

module _ (fl : Floats) where
  unfoldable pub fold_fp : Heap → ℕ → OpId → CmpOp → ℕ → ℕ → Result (Heap × Bool)
  fold_fp h p OpId.fcmp c a b = replace_by h p (constant_bool (compute_cmp_fp fl c a b))
  fold_fp h p op c a b = use_fp h p (fcompute fl op a b)

  -- The branch for fadd, fsub, fmul, fdiv and fcmp.
  unfoldable pub visit_fp : Heap → ℕ → OpId → CmpOp → Result (Heap × Bool)
  visit_fp h p op c = do
    l ← get_operand h p 0
    r ← get_operand h p 1
    when_both h (cast_constantfp (h.kind l)) (cast_constantfp (h.kind r)) (fold_fp h p op c)

  abbrev pub fold_fptosi : Heap → ℕ → ℕ → Result (Heap × Bool)
  fold_fptosi h p x = fl.to_int x >>= λ z. replace_by h p (constant_int z)

  unfoldable pub visit_fptosi : Heap → ℕ → Result (Heap × Bool)
  visit_fptosi h p = do
    l ← get_operand h p 0
    when_one h (cast_constantfp (h.kind l)) (fold_fptosi h p)

  abbrev pub fold_sitofp : Heap → ℕ → ℤ → Result (Heap × Bool)
  fold_sitofp h p z = replace_by h p (constant_fp (fl.of_int z))

  unfoldable pub visit_sitofp : Heap → ℕ → Result (Heap × Bool)
  visit_sitofp h p = do
    l ← get_operand h p 0
    when_one h (cast_constantint (h.kind l)) (fold_sitofp h p)

  -- The body of the loop over a block's instructions: at most one of its four tests holds.
  unfoldable pub visit_op : Heap → ℕ → OpId → CmpOp → Result (Heap × Bool)
  visit_op h p OpId.add c = visit_int h p OpId.add c
  visit_op h p OpId.sub c = visit_int h p OpId.sub c
  visit_op h p OpId.mul c = visit_int h p OpId.mul c
  visit_op h p OpId.sdiv c = visit_int h p OpId.sdiv c
  visit_op h p OpId.cmp c = visit_int h p OpId.cmp c
  visit_op h p OpId.fadd c = visit_fp h p OpId.fadd c
  visit_op h p OpId.fsub c = visit_fp h p OpId.fsub c
  visit_op h p OpId.fmul c = visit_fp h p OpId.fmul c
  visit_op h p OpId.fdiv c = visit_fp h p OpId.fdiv c
  visit_op h p OpId.fcmp c = visit_fp h p OpId.fcmp c
  visit_op h p OpId.fptosi c = visit_fptosi h p
  visit_op h p OpId.sitofp c = visit_sitofp h p
  visit_op h p op c = ok (h, false)

  -- An object of a block's list is an instruction.
  unfoldable pub visit_kind : Heap → ℕ → Kind → Result (Heap × Bool)
  visit_kind h p (instruction op c) = visit_op h p op c
  visit_kind h p k = undefined

  unfoldable pub visit : Heap → ℕ → Result (Heap × Bool)
  unfolding visit_kind
  visit h p = visit_kind h p (h.kind p)

  -- The second part of the result is `wait_delete`.
  unfoldable pub visit_all : Heap → List ℕ → Result (Heap × List ℕ)
  visit_all h [] = ok (h, [])
  visit_all h (p ∷ ps) = do
    (h1, folded) ← visit h p
    (h2, wait_delete) ← visit_all h1 ps
    ok (h2, if folded then p ∷ wait_delete else wait_delete)

-- BasicBlock::delete_instr, for each instruction that waits
unfoldable pub delete_all : Heap → List ℕ → List ℕ → Heap × List ℕ
delete_all h instrs [] = (h, instrs)
delete_all h instrs (p ∷ ps) = delete_all (remove_use_of_ops h p) (remove instrs p) ps

module _ (fl : Floats) where
  unfoldable pub run_block : Heap → List ℕ → Result (Heap × List ℕ)
  unfolding delete_all
  run_block h instrs = do
    (h1, wait_delete) ← visit_all fl h instrs
    ok (delete_all h1 instrs wait_delete)

  unfoldable pub run_blocks : Heap → List (List ℕ) → Result (Heap × List (List ℕ))
  run_blocks h [] = ok (h, [])
  run_blocks h (b ∷ bs) = do
    (h1, b') ← run_block h b
    (h2, bs') ← run_blocks h1 bs
    ok (h2, b' ∷ bs')

  -- ConstPropagation::run, over the blocks of each function.
  unfoldable pub run : Heap → List (List (List ℕ)) → Result (Heap × List (List (List ℕ)))
  run h [] = ok (h, [])
  run h (f ∷ fs) = do (h1, f') ← run_blocks h f; (h2, fs') ← run h1 fs; ok (h2, f' ∷ fs')
