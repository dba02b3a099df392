-- ===== src/Ir/Create.antt =====
-- The creation of instructions: the constructors and create functions of src/lightir/Instruction.cpp,
-- with User::User of src/lightir/User.cpp and BasicBlock::add_instruction.
use Prim.Native.Nat.{zero, suc}
use ustc_2021_compliers.Base.{
  ℕ, ◌+◌, Bool, true, false, Option, none, some, List, [], ◌∷◌, ◌++◌, Result, ok, abort, undefined,
  ◌>>=◌, ◌==◌, ◌&&◌, ◌||◌, if◌then◌else◌, length,
}
use ustc_2021_compliers.Ir.Instruction.{OpId, CmpOp}
use ustc_2021_compliers.Ir.Heap.{Heap, Kind, instruction, update, set_operand}
use ustc_2021_compliers.Ir.Blocks.{Blocks, add_edge}
use ustc_2021_compliers.Ir.Types.{
  Types, Shape, array, integer, float, get_void_type, get_int1_type, get_int32_type, get_float_type,
  get_pointer_type, get_pointer_element_type,
}
pub mod Linked
pub mod Created
pub mod Kept
pub mod Indexed

-- The objects of a module with their types, the lists of instructions and the flow graph.
pub record Code : Type 0 where
  pub heap : Heap
  pub types : Types
  pub type_of : ℕ → ℕ
  pub instr_list : ℕ → List ℕ
  pub blocks : Blocks
  -- of a function
  pub return_type : ℕ → ℕ
  pub num_of_args : ℕ → ℕ

-- `resize(num_ops, nullptr)`; the null pointer is 0.
abbrev pub nulls : ℕ → List ℕ
nulls zero = []
nulls (suc n) = 0 ∷ nulls n

-- `new`, with User::User: the object is at `next` then.
unfoldable pub new_user : Heap → Kind → ℕ → Heap
new_user h k num_ops = record h {
  kind = update h.kind h.next k;
  operands = update h.operands h.next (nulls num_ops);
  use_list = update h.use_list h.next [];
  next = suc h.next;
}

-- `set_operand(i, v)` for one value after the other
unfoldable pub set_operands : Heap → ℕ → ℕ → List ℕ → Result Heap
set_operands h user i [] = ok h
set_operands h user i (v ∷ vs) = do h1 ← set_operand h user i v; set_operands h1 user (suc i) vs

-- A constructor: Instruction::Instruction without a parent, and the operands.
unfoldable pub new_instruction : Code → OpId → CmpOp → ℕ → List ℕ → Result (Code × ℕ)
unfolding new_user set_operands
new_instruction c op cmp_op ty vals = do
  h ← set_operands (new_user c.heap (instruction op cmp_op) (length vals)) c.heap.next 0 vals
  ok (record c { heap = h; type_of = update c.type_of c.heap.next ty }, c.heap.next)

-- The constructor with a parent: BasicBlock::add_instruction
unfoldable pub create : Code → OpId → CmpOp → ℕ → List ℕ → ℕ → Result (Code × ℕ)
unfolding new_instruction
create c op cmp_op ty vals bb = do
  r ← new_instruction c op cmp_op ty vals
  ok (record (r.0) { instr_list = update c.instr_list bb (c.instr_list bb ++ r.1 ∷ []) }, r.1)

module _ (c : Code) where
  -- The comparison operator of other instructions is not read.
  abbrev pub create_plain : OpId → ℕ → List ℕ → ℕ → Result (Code × ℕ)
  create_plain op ty vals bb = create c op CmpOp.eq ty vals bb

  abbrev pub create_add : ℕ → ℕ → ℕ → Result (Code × ℕ)
  create_add v1 v2 bb = create_plain OpId.add get_int32_type (v1 ∷ v2 ∷ []) bb

  abbrev pub create_sub : ℕ → ℕ → ℕ → Result (Code × ℕ)
  create_sub v1 v2 bb = create_plain OpId.sub get_int32_type (v1 ∷ v2 ∷ []) bb

  abbrev pub create_mul : ℕ → ℕ → ℕ → Result (Code × ℕ)
  create_mul v1 v2 bb = create_plain OpId.mul get_int32_type (v1 ∷ v2 ∷ []) bb

  abbrev pub create_sdiv : ℕ → ℕ → ℕ → Result (Code × ℕ)
  create_sdiv v1 v2 bb = create_plain OpId.sdiv get_int32_type (v1 ∷ v2 ∷ []) bb

  abbrev pub create_fadd : ℕ → ℕ → ℕ → Result (Code × ℕ)
  create_fadd v1 v2 bb = create_plain OpId.fadd get_float_type (v1 ∷ v2 ∷ []) bb

  abbrev pub create_fsub : ℕ → ℕ → ℕ → Result (Code × ℕ)
  create_fsub v1 v2 bb = create_plain OpId.fsub get_float_type (v1 ∷ v2 ∷ []) bb

  abbrev pub create_fmul : ℕ → ℕ → ℕ → Result (Code × ℕ)
  create_fmul v1 v2 bb = create_plain OpId.fmul get_float_type (v1 ∷ v2 ∷ []) bb

  abbrev pub create_fdiv : ℕ → ℕ → ℕ → Result (Code × ℕ)
  create_fdiv v1 v2 bb = create_plain OpId.fdiv get_float_type (v1 ∷ v2 ∷ []) bb

  abbrev pub create_cmp : CmpOp → ℕ → ℕ → ℕ → Result (Code × ℕ)
  create_cmp op lhs rhs bb = create c OpId.cmp op get_int1_type (lhs ∷ rhs ∷ []) bb

  abbrev pub create_fcmp : CmpOp → ℕ → ℕ → ℕ → Result (Code × ℕ)
  create_fcmp op lhs rhs bb = create c OpId.fcmp op get_int1_type (lhs ∷ rhs ∷ []) bb

  -- CallInst::create, with the assertion on the number of arguments
  abbrev pub create_call : ℕ → List ℕ → ℕ → Result (Code × ℕ)
  create_call func args bb =
      let made = create_plain OpId.call (c.return_type func) (func ∷ args) bb in
      if c.num_of_args func == length args then made else abort

  abbrev pub create_ret : ℕ → ℕ → Result (Code × ℕ)
  create_ret val bb = create_plain OpId.ret get_void_type (val ∷ []) bb

  abbrev pub create_void_ret : ℕ → Result (Code × ℕ)
  create_void_ret bb = create_plain OpId.ret get_void_type [] bb

  abbrev pub create_store : ℕ → ℕ → ℕ → Result (Code × ℕ)
  create_store val ptr bb = create_plain OpId.store get_void_type (val ∷ ptr ∷ []) bb

  -- The assertions: `ptr` is a pointer to the type `ty`.
  abbrev pub points_to : Option ℕ → ℕ → Bool
  points_to none ty = false
  points_to (some e) ty = e == ty

  abbrev pub create_load : ℕ → ℕ → ℕ → Result (Code × ℕ)
  create_load ty ptr bb =
      let made = create_plain OpId.load ty (ptr ∷ []) bb in
      if points_to (get_pointer_element_type c.types (c.type_of ptr)) ty then made else abort

  abbrev pub create_zext : ℕ → ℕ → ℕ → Result (Code × ℕ)
  create_zext val ty bb = create_plain OpId.zext ty (val ∷ []) bb

  abbrev pub create_fptosi : ℕ → ℕ → ℕ → Result (Code × ℕ)
  create_fptosi val ty bb = create_plain OpId.fptosi ty (val ∷ []) bb

  abbrev pub create_sitofp : ℕ → ℕ → ℕ → Result (Code × ℕ)
  create_sitofp val ty bb = create_plain OpId.sitofp ty (val ∷ []) bb

  -- A phi is not put into its block.
  abbrev pub create_phi : ℕ → Result (Code × ℕ)
  create_phi ty = new_instruction c OpId.phi CmpOp.eq ty []

abbrev pub create_br : Code → ℕ → ℕ → Result (Code × ℕ)
create_br c if_true bb =
    create_plain (record c { blocks = add_edge c.blocks bb if_true }) OpId.br get_void_type
      (if_true ∷ []) bb

abbrev pub create_cond_br : Code → ℕ → ℕ → ℕ → ℕ → Result (Code × ℕ)
create_cond_br c cond if_true if_false bb =
    create_plain (record c { blocks = add_edge (add_edge c.blocks bb if_false) bb if_true }) OpId.br
      get_void_type (cond ∷ if_true ∷ if_false ∷ []) bb

-- AllocaInst: the type is a pointer to the type of the cell.
abbrev pub create_alloca : Code → ℕ → ℕ → Result (Code × ℕ)
create_alloca c ty bb =
    let (ts, p) = get_pointer_type c.types ty in
    create_plain (record c { types = ts }) OpId.alloca p [] bb

abbrev pub is_array : Shape → Bool
is_array (array e n) = true
is_array _ = false

abbrev pub may_index : Shape → Bool
may_index (array e n) = true
may_index (integer w) = true
may_index float = true
may_index _ = false

-- ArrayType::get_element_type, after a cast
abbrev pub array_element : Shape → Result ℕ
array_element (array e n) = ok e
array_element _ = undefined

-- The loop over the indices after the first: all but the last must come to an array.
abbrev pub walk_indices : Types → ℕ → List ℕ → Result ℕ
walk_indices ts ty [] = ok ty
walk_indices ts ty (i ∷ is) = do
  e ← array_element (ts.shape ty)
  (if (0 == length is) || is_array (ts.shape e) then walk_indices ts e is else abort)

abbrev pub indexed_type : Types → ℕ → List ℕ → Result ℕ
indexed_type ts ty [] = ok ty
indexed_type ts ty (i ∷ is) = if is_array (ts.shape ty) then walk_indices ts ty is else ok ty

-- The assertion, and the indices
abbrev pub element_of : Types → Option ℕ → List ℕ → Result ℕ
element_of ts none idxs = undefined
element_of ts (some ty) idxs = if may_index (ts.shape ty) then indexed_type ts ty idxs else abort

-- GetElementPtrInst::get_element_type, of a pointer of type `ptr_ty`
unfoldable pub get_element_type : Types → ℕ → List ℕ → Result ℕ
get_element_type ts ptr_ty idxs = element_of ts (get_pointer_element_type ts ptr_ty) idxs

abbrev pub create_gep : Code → ℕ → List ℕ → ℕ → Result (Code × ℕ)
create_gep c ptr idxs bb = do
  ty ← get_element_type c.types (c.type_of ptr) idxs
  create_plain (record c { types = (get_pointer_type c.types ty).0 }) OpId.getelementptr
      ((get_pointer_type c.types ty).1) (ptr ∷ idxs) bb
