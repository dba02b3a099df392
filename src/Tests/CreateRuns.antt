-- ===== src/Tests/CreateRuns.antt =====
-- src/lightir/Instruction.cpp: the creation of an `add` of the constants 1 and 2 in the block 9, and the
-- types of indexed arrays.
use ustc_2021_compliers.Base.{ℕ, ◌≡◌, refl, List, [], ◌∷◌, ◌==◌, if◌then◌else◌, arith, Result, ok}
use ustc_2021_compliers.Base.Int.{pos}
use ustc_2021_compliers.Ir.Instruction.{OpId, CmpOp}
use ustc_2021_compliers.Ir.Heap.{Heap, constant_int, other, set_operand}
use ustc_2021_compliers.Ir.Types.{Types, array, pointer, integer, new_module, get_int32_type}
use ustc_2021_compliers.Ir.Create.{Code, create, create_add, get_element_type}
use ustc_2021_compliers.Ir.Create.Linked.{IsLinked}
use ustc_2021_compliers.Ir.Create.Created.{Created, create-Created}
use ustc_2021_compliers.Ir.Create.Indexed.{flat, deeper, get_element_type-Nested}

abbrev constants : Heap
constants = record {
  kind =
      λ p. if p == 1 then constant_int (pos 5) else if p == 2 then constant_int (pos 7) else other;
  operands = λ p. [];
  use_list = λ p. [];
  next = 3;
}

constants-IsLinked : IsLinked constants
constants-IsLinked = record {
  accurate = record {
    right = λ v. tt;
    null_unused = refl;
    bounded = λ u. tt;
    fresh = λ u le. refl;
    positive = omega arith;
  };
  complete = λ u v e z. cc;
}

abbrev start : Code
start = record {
  heap = constants;
  types = new_module;
  type_of = λ p. get_int32_type;
  instr_list = λ b. [];
  blocks = record { pre_bbs = λ b. []; succ_bbs = λ b. []; basic_blocks = 9 ∷ [] };
  return_type = λ f. get_int32_type;
  num_of_args = λ f. 0;
}

create-Created_example :
    (r : Code × ℕ) × (create start OpId.add CmpOp.eq get_int32_type (1 ∷ 2 ∷ []) 9 ≡ ok r)
    × Created start (1 ∷ 2 ∷ []) 9 r
create-Created_example =
    create-Created start OpId.add CmpOp.eq get_int32_type (1 ∷ 2 ∷ []) 9 constants-IsLinked
      ((refl, omega arith), ((refl, omega arith), tt))

operands_made : Result (Code × ℕ) → List ℕ
operands_made (ok r) = r.0.heap.operands r.1
operands_made _ = []

create_add_test : operands_made (create_add start 1 2 9) ≡ 1 ∷ 2 ∷ []
unfolding operands_made create set_operand
create_add_test = refl

-- 5 is [10 x [20 x i32]], 6 is [20 x i32], 7 points to 5.
abbrev arrays : Types
arrays = record {
  shape = λ p.
      if p == 5
      then array 6 10
      else if p == 6
      then array 3 20
      else if p == 7
      then pointer 5
      else integer 32;
  next = 8;
  pointer_map = [];
  array_map = [];
}

get_element_type-Nested_example : get_element_type arrays 7 (1 ∷ 1 ∷ 1 ∷ []) ≡ ok 3
get_element_type-Nested_example =
    get_element_type-Nested arrays 3 2 5 7 1 (1 ∷ 1 ∷ []) refl (deeper refl (deeper refl flat)) refl
      refl
