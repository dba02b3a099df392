-- ===== src/Builder/Gen.antt =====
-- src/cminusfc/cminusf_builder.cpp: the state of the code generator, and the calls of
-- include/lightir/IRBuilder.h that its visitors make.
use Prim.Native.Nat.{suc}
use ustc_2021_compliers.Base.{
  ℕ, String, Bool, true, false, Option, none, some, List, [], ◌∷◌, ◌++◌, Result, ok, abort,
  undefined, ◌>>=◌, ◌==◌, if◌then◌else◌,
}
use ustc_2021_compliers.Base.Int.{ℤ, pos}
use ustc_2021_compliers.Ir.Instruction.{OpId, CmpOp}
use ustc_2021_compliers.Ir.Heap.{Kind, constant_int, constant_fp, update}
use ustc_2021_compliers.Ir.Types.{
  Types, get_int32_type, get_float_type, get_label_type, get_pointer_type, get_pointer_element_type,
  get_array_element_type,
}
use ustc_2021_compliers.Ir.Create.{
  Code, new_user, create_load, create_call, create_sitofp, create_fptosi, create_cmp, create_br,
  create_cond_br, create_gep,
}
use ustc_2021_compliers.Builder.Scope.{find}
pub mod Expressions
pub mod Statements
pub mod Cleanup
pub mod Functions
pub mod Typing
pub mod Ready
pub mod Emits
pub mod Addresses
pub mod Elements
pub mod Operations
pub mod Stores
pub mod Arguments
pub mod Values
pub mod Passing
pub mod WellTyped
pub mod Declared
pub mod Locals
pub mod Inside
pub mod Compounds
pub mod Checked
pub mod Threading
pub mod Deleted

-- The global variables of the file and the fields of CminusfBuilder. The block list of `code.blocks` is
-- that of the function being generated.
pub record Builder : Type 0 where
  pub code : Code
  pub scope : List (List (String × ℕ))
  pub curr_val : ℕ
  pub curr_func : ℕ
  pub curr_ret_bb : ℕ
  -- `none` is a pointer that was never assigned: in a function that returns nothing
  pub curr_ret_addr : Option ℕ
  pub compound_stmt_depth : ℕ
  pub label_num : ℕ
  -- the block where IRBuilder puts instructions
  pub insert_block : ℕ
  -- of a function
  pub arguments : ℕ → List ℕ
  -- the names of the blocks, each a word and a number, the last block first
  pub labels : List (ℕ × (String × ℕ))
  -- the module's lists, the last element first
  pub functions : List ℕ
  pub global_variables : List ℕ

-- A call of IRBuilder that makes one instruction
unfoldable pub emitted : Builder → Result (Code × ℕ) → Result (Builder × ℕ)
emitted s call = do r ← call; ok (record s { code = r.0 }, r.1)

abbrev pub set_val : Builder × ℕ → Builder
set_val (s, v) = record s { curr_val = v }

-- A value of the class `k` and the type `ty`, without operands.
unfoldable pub new_value : Builder → Kind → ℕ → Builder × ℕ
new_value s k ty = (
  record s {
    code = record (s.code) {
      heap = new_user s.code.heap k 0;
      type_of = update s.code.type_of s.code.heap.next ty;
    };
  },
  s.code.heap.next,
)

-- ConstantInt::get and ConstantFP::get
abbrev pub const_int : Builder → ℤ → Builder × ℕ
const_int s z = new_value s (constant_int z) get_int32_type

abbrev pub const_fp : Builder → ℕ → Builder × ℕ
const_fp s bits = new_value s (constant_fp bits) get_float_type

abbrev pub with_label : Builder → String → ℕ → Builder
with_label s name b = record s {
  code = record (s.code) {
    blocks = record {
      basic_blocks = s.code.blocks.basic_blocks ++ b ∷ [];
      pre_bbs = update s.code.blocks.pre_bbs b [];
      succ_bbs = update s.code.blocks.succ_bbs b [];
    };
    instr_list = update s.code.instr_list b [];
  };
  labels = (b, (name, s.label_num)) ∷ s.labels;
  label_num = suc s.label_num;
}

-- BasicBlock::create with GET_LABEL_NAME, in the function being generated
unfoldable pub new_block : Builder → String → Builder × ℕ
new_block s name =
    let (s1, b) = new_value s Kind.basic_block get_label_type in (with_label s1 name b, b)

abbrev pub set_insert_point : Builder → ℕ → Builder
set_insert_point s b = record s { insert_block = b }

-- The first read through a pointer: a null pointer is `none`.
abbrev pub dereferenced : Option ℕ → Result ℕ
dereferenced none = undefined
dereferenced (some v) = ok v

-- IRBuilder::create_load(Value *), with its assertion
abbrev pub loaded : Builder → ℕ → Option ℕ → Result (Builder × ℕ)
loaded s ptr none = abort
loaded s ptr (some ty) = emitted s (create_load s.code ty ptr s.insert_block)

unfoldable pub build_load : Builder → ℕ → Result (Builder × ℕ)
build_load s ptr = loaded s ptr (get_pointer_element_type s.code.types (s.code.type_of ptr))

abbrev pub is_function : Kind → Bool
is_function (Kind.function void) = true
is_function _ = false

-- IRBuilder::create_call, with its assertion; a null pointer is `none`.
abbrev pub build_call : Builder → Option ℕ → List ℕ → Result (Builder × ℕ)
build_call s none args = abort
build_call s (some f) args =
    let made = emitted s (create_call s.code f args s.insert_block) in
    if is_function (s.code.heap.kind f) then made else abort

abbrev pub build_br : Builder → ℕ → Result Builder
build_br s b = do r ← emitted s (create_br s.code b s.insert_block); ok r.0

abbrev pub build_cond_br : Builder → ℕ → ℕ → ℕ → Result Builder
build_cond_br s cond if_true if_false = do
  r ← emitted s (create_cond_br s.code cond if_true if_false s.insert_block)
  ok r.0

abbrev pub is_int32 : Builder → ℕ → Bool
is_int32 s v = s.code.type_of v == get_int32_type

abbrev pub is_float : Builder → ℕ → Bool
is_float s v = s.code.type_of v == get_float_type

abbrev pub build_sitofp : Builder → ℕ → Result (Builder × ℕ)
build_sitofp s v = emitted s (create_sitofp s.code v get_float_type s.insert_block)

abbrev pub build_fptosi : Builder → ℕ → Result (Builder × ℕ)
build_fptosi s v = emitted s (create_fptosi s.code v get_int32_type s.insert_block)

-- I32P_TYPE and FP_TYPE, which may make the type
abbrev pub pointer_to : Builder → ℕ → Builder × ℕ
pointer_to s ty =
    let (ts, p) = get_pointer_type s.code.types ty in
    (record s { code = record (s.code) { types = ts } }, p)

-- An operand of an operation on floats is converted where it is an integer.
unfoldable pub to_float : Builder → ℕ → Result (Builder × ℕ)
to_float s v = if is_int32 s v then build_sitofp s v else ok (s, v)

-- An index is converted where it is a float.
unfoldable pub to_index : Builder → ℕ → Result (Builder × ℕ)
to_index s v = if is_float s v then build_fptosi s v else ok (s, v)

-- The test of an index: a negative index calls neg_idx_except and returns from the function.
unfoldable pub check_index : Builder → ℕ → Result Builder
check_index s index = do
  let (s1, null_index) = const_int s (pos 0)
  (s2, is_index_valid) ← emitted s1 (create_cmp s1.code CmpOp.ge index null_index s1.insert_block)
  let (s3, invalid_bb) = new_block s2 "idx_neg"
  let (s4, valid_bb) = new_block s3 "idx_valid"
  s5 ← build_cond_br s4 is_index_valid valid_bb invalid_bb
  let s6 = set_insert_point s5 invalid_bb
  (s7, made) ← build_call s6 (find s6.scope "neg_idx_except") []
  s8 ← build_br s7 s7.curr_ret_bb
  ok (set_insert_point s8 valid_bb)

-- The element of an array that a parameter points to, or of an array variable.
abbrev pub address_in : Builder → ℕ → ℕ → Option ℕ → Result (Builder × ℕ)
address_in s base index none = do
  (s1, array) ← build_load s base
  emitted s1 (create_gep s1.code array (index ∷ []) s1.insert_block)
address_in s base index (some element_type) =
    let (s1, first) = const_int s (pos 0) in
    emitted s1 (create_gep s1.code base (first ∷ index ∷ []) s1.insert_block)

-- The array, after its index was checked
abbrev pub base_element : Builder → ℕ → Option ℕ → Result (Builder × ℕ)
base_element s index base_address = do
  base ← dereferenced base_address
  pointed ← dereferenced (get_pointer_element_type s.code.types (s.code.type_of base))
  address_in s base index (get_array_element_type s.code.types pointed)

-- The address of an element, after its index was visited
unfoldable pub element_address : Builder → Option ℕ → Result (Builder × ℕ)
element_address s base_address = do
  (s1, index) ← to_index s s.curr_val
  s2 ← check_index s1 index
  base_element s2 index base_address
