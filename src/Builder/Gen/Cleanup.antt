-- ===== src/Builder/Gen/Cleanup.antt =====
-- src/cminusfc/cminusf_builder.cpp: the end of visit(ASTFunDeclaration), which deletes what follows the
-- first terminator of a block, and lets jumps to blocks without work go to where these end.
use Prim.Native.Nat.{zero, suc}
use ustc_2021_compliers.Base.{
  ℕ, Bool, true, false, Option, none, some, List, [], ◌∷◌, Result, ok, out_of_fuel, ◌>>=◌, ◌==◌,
  ◌||◌, if◌then◌else◌, length, get_elem?, contains, remove,
}
use ustc_2021_compliers.Ir.Instruction.{OpId}
use ustc_2021_compliers.Ir.Heap.{Kind, instruction, update, remove_use_of_ops}
use ustc_2021_compliers.Ir.Blocks.{remove_block}
use ustc_2021_compliers.Ir.Create.{Code, create_br, create_cond_br}
use ustc_2021_compliers.Builder.Gen.{dereferenced}

abbrev pub is_br : Kind → Bool
is_br (instruction OpId.br c) = true
is_br _ = false

abbrev pub is_ret : Kind → Bool
is_ret (instruction OpId.ret c) = true
is_ret _ = false

-- Instruction::isTerminator
abbrev pub is_terminator : Kind → Bool
is_terminator k = is_br k || is_ret k

-- BasicBlock::delete_instr
unfoldable pub delete_instr : Code → ℕ → ℕ → Code
delete_instr c b p = record c {
  instr_list = update c.instr_list b (remove (c.instr_list b) p);
  heap = remove_use_of_ops c.heap p;
}

-- `instr_list_.back()`, where it is a terminator
abbrev pub last_terminator : Code → List ℕ → Option ℕ
last_terminator c [] = none
last_terminator c (p ∷ []) = if is_terminator (c.heap.kind p) then some p else none
last_terminator c (p ∷ q ∷ ps) = last_terminator c (q ∷ ps)

-- BasicBlock::get_terminator
unfoldable pub get_terminator : Code → ℕ → Option ℕ
get_terminator c b = last_terminator c (c.instr_list b)

-- The loop over the instructions of a block
unfoldable pub cut_block : Code → ℕ → List ℕ → Bool → Code
cut_block c b [] end_of_bb = c
cut_block c b (p ∷ ps) true = cut_block (delete_instr c b p) b ps true
cut_block c b (p ∷ ps) false = cut_block c b ps (is_terminator (c.heap.kind p))

-- Whether a block does nothing but jump
abbrev pub only_jumps : Code → ℕ → Result Bool
only_jumps c b =
    let tested : Result Bool = (do
      t ← dereferenced (get_terminator c b)
      ok (length (c.heap.operands t) == 1)) in
    if length (c.instr_list b) == 1 then tested else ok false

-- The first loop over the blocks, which collects `emptyBBs`
unfoldable pub cut_blocks : Code → List ℕ → Result (Code × List ℕ)
cut_blocks c [] = ok (c, [])
cut_blocks c (b ∷ bs) = do
  let c1 = cut_block c b (c.instr_list b) false
  empty ← only_jumps c1 b
  (c2, empty_bbs) ← cut_blocks c1 bs
  ok (c2, if empty then b ∷ empty_bbs else empty_bbs)

abbrev pub operand_at : Code → ℕ → ℕ → Result ℕ
operand_at c p i = dereferenced (get_elem? (c.heap.operands p) i)

-- The loops at `again1` and `again2`
unfoldable pub thread_jump : ℕ → Code → List ℕ → ℕ → Result ℕ
thread_jump zero c empty_bbs b = out_of_fuel
thread_jump (suc fuel) c empty_bbs b =
    let again : Result ℕ = (do
      t ← dereferenced (get_terminator c b)
      next ← operand_at c t 0
      thread_jump fuel c empty_bbs next) in
    if contains empty_bbs b then again else ok b

-- A jump that goes through each of the blocks without work, and on, never ends.
abbrev pub thread : Code → List ℕ → ℕ → Result ℕ
thread c empty_bbs b = thread_jump (suc (length empty_bbs)) c empty_bbs b

abbrev pub redirect : Code → List ℕ → ℕ → ℕ → Result Code
redirect c empty_bbs b t =
    let jump : Result Code = (do
      br_to ← operand_at c t 0
      target ← thread c empty_bbs br_to
      r ← create_br (delete_instr c b t) target b
      ok r.0) in
    let branch : Result Code = (do
      cond ← operand_at c t 0
      br_to_1 ← operand_at c t 1
      br_to_2 ← operand_at c t 2
      target_1 ← thread c empty_bbs br_to_1
      target_2 ← thread c empty_bbs br_to_2
      r ← create_cond_br (delete_instr c b t) cond target_1 target_2 b
      ok r.0) in
    if length (c.heap.operands t) == 1 then jump else branch

-- `func->remove`, for each of the blocks without work
unfoldable pub remove_blocks : Code → List ℕ → Code
remove_blocks c [] = c
remove_blocks c (b ∷ bs) = remove_blocks (record c { blocks = remove_block c.blocks b }) bs

-- The second loop over the blocks
unfoldable pub redirect_blocks : Code → List ℕ → List ℕ → Result Code
redirect_blocks c empty_bbs [] = ok c
redirect_blocks c empty_bbs (b ∷ bs) = do
  t ← dereferenced (get_terminator c b)
  let redirected : Result Code = do c1 ← redirect c empty_bbs b t; ok (remove_blocks c1 empty_bbs)
  c2 ← (if is_br (c.heap.kind t) then redirected else ok c)
  redirect_blocks c2 empty_bbs bs

-- Both loops, over the blocks of the function that was generated
unfoldable pub clean_up : Code → Result Code
clean_up c = do
  let basic_blocks = c.blocks.basic_blocks
  (c1, empty_bbs) ← cut_blocks c basic_blocks
  redirect_blocks c1 empty_bbs basic_blocks
