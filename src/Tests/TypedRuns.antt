-- ===== src/Tests/TypedRuns.antt =====
-- src/cminusfc/cminusf_builder.cpp: the state before `x = x + 1` in a function of the variable `int x`, whose
-- address is the object 1; the object 2 is the block of the return.
use mathlib.Core.Path.{subst}
use text.Mathlib.Text.{◌==◌ as str_eq}
use ustc_2021_compliers.Base.{
  ◌≡◌, refl, Bool-cases, inl, inr, none, some, [], ◌∷◌, ◌==◌, false, if◌then◌else◌, arith, ok,
}
use ustc_2021_compliers.Base.Int.{pos}
use ustc_2021_compliers.Ast.{
  i_val, op_plus, Expression, Factor, assign_expression, simple_expression, scalar, single_term,
  sum, single_factor,
}
use ustc_2021_compliers.Ir.Heap.{Heap, other}
use ustc_2021_compliers.Ir.Types.{
  Types, new_module, get_int32_type, get_label_type, get_void_type, get_pointer_type,
}
use ustc_2021_compliers.Ir.Types.Interned.{new_module-IsInterned, get_pointer_type-IsInterned}
use ustc_2021_compliers.Ir.Create.Linked.{IsAccurate}
use ustc_2021_compliers.Builder.Scope.{find}
use ustc_2021_compliers.Builder.Gen.{Builder}
use ustc_2021_compliers.Builder.Gen.Expressions.{build_expression}
use ustc_2021_compliers.Builder.Gen.Typing.{Env, int, basic, variable, IsTyped}
use ustc_2021_compliers.Builder.Gen.Ready.{Ready, HasEntry, Agrees}
use ustc_2021_compliers.Builder.Gen.Operations.{Visited}
use ustc_2021_compliers.Ast.{
  type_int, Statement, Statements, compound, compound_stmt, iteration_stmt, return_stmt,
}
use ustc_2021_compliers.Ir.Instruction.{OpId, CmpOp}
use ustc_2021_compliers.Ir.Heap.{instruction}
use ustc_2021_compliers.Base.{ℕ, get_elem?, ◌<◌, ==_iff}
use ustc_2021_compliers.Ir.Create.{Code}
use ustc_2021_compliers.Builder.Gen.Statements.{build_statement}
use ustc_2021_compliers.Builder.Gen.Cleanup.{cut_block, get_terminator, thread}
use ustc_2021_compliers.Builder.Gen.Deleted.{cut_block-upto_terminator}
use ustc_2021_compliers.Ir.Create.Kept.{IsSound, Grows}
use ustc_2021_compliers.Builder.Gen.Declared.{IsTypedStatement}
use ustc_2021_compliers.Builder.Gen.Addresses.{Steps}
use ustc_2021_compliers.Builder.Gen.Inside.{Inside}
use ustc_2021_compliers.Builder.Gen.Checked.{build_statement-Steps}
use ustc_2021_compliers.Builder.Gen.Threading.{GoesDown, Leads, thread-Leads}
use ustc_2021_compliers.Builder.Gen.WellTyped.{build_expression-Visited}

-- The object 3 is a jump that was deleted: its operand is there, and has no entry in a use list.
abbrev after_deletion : Heap
after_deletion = record {
  kind = λ p. if p == 3 then instruction OpId.br CmpOp.eq else other;
  operands = λ p. if p == 3 then 2 ∷ [] else [];
  use_list = λ p. [];
  next = 4;
}

after_deletion-IsAccurate : IsAccurate after_deletion
after_deletion-IsAccurate = record {
  right = λ v. tt;
  null_unused = refl;
  bounded = λ u. elim (Bool-cases (u == 3)) [ inl t ↦ rw t (omega arith, tt) | inr f ↦ rw f tt ];
  fresh = λ u le. ground arith;
  positive = omega arith;
}

abbrev with_pointer : Types
with_pointer = (get_pointer_type new_module get_int32_type).0

abbrev start : Builder
start = record {
  code = record {
    heap = after_deletion;
    types = with_pointer;
    type_of = λ p. if p == 1 then 5 else get_label_type;
    instr_list = λ b. [];
    blocks = record { pre_bbs = λ b. []; succ_bbs = λ b. []; basic_blocks = 2 ∷ [] };
    return_type = λ f. get_void_type;
    num_of_args = λ f. 0;
  };
  scope = (("x", 1) ∷ []) ∷ [];
  curr_val = 0;
  curr_func = 0;
  curr_ret_bb = 2;
  curr_ret_addr = some 1;
  compound_stmt_depth = 1;
  label_num = 4;
  insert_block = 2;
  arguments = λ f. [];
  labels = (2, ("func_ret", 1)) ∷ [];
  functions = [];
  global_variables = [];
}

start-Ready : Ready start
unfolding get_pointer_type
start-Ready = record {
  sound = record {
    accurate = after_deletion-IsAccurate;
    interned = (get_pointer_type-IsInterned new_module new_module-IsInterned get_int32_type).0;
    typed = λ v lt. ground arith;
  };
  ret = (refl, omega arith);
  labels = (omega arith, tt);
}

abbrev env : Env
env = (("x", variable (basic int)) ∷ []) ∷ []

start-Agrees : Agrees start env
unfolding find get_pointer_type
start-Agrees name entry e = elim (Bool-cases (str_eq "x" name)) [
  | inl t ↦
      let same : variable (basic int) ≡ entry = cc (rw t at e) in
      (
        1,
        rw t refl,
        subst (HasEntry start 1) same
            ((refl, omega arith), (get_int32_type, refl, omega arith, refl)),
      )
  | inr f ↦ absurd (none-ne (rw f at e))
]
  where
    none-ne : none ≡ some entry → ⊥
    none-ne d = cc

abbrev increment : Expression
increment = assign_expression (scalar "x") (
    simple_expression (
      sum (single_term (single_factor (Factor.var (scalar "x")))) op_plus
        (single_factor (Factor.num (i_val (pos 1))))))

increment-IsTyped : IsTyped env increment (basic int)
unfolding find
increment-IsTyped = (int, refl, refl, (int, (int, int, refl, refl, refl)))

build_expression-Visited_example :
    (s' : Builder) × (build_expression increment start ≡ ok s') × Visited start (basic int) s'
build_expression-Visited_example =
    build_expression-Visited env increment (basic int) start start-Ready start-Agrees
      increment-IsTyped

start-Inside : Inside env (some int) start
unfolding get_pointer_type
start-Inside = record {
  ready = start-Ready;
  agrees = start-Agrees;
  returns = (1, refl, (refl, omega arith), refl);
  depth = omega arith;
}

-- `while (x) { int y[3]; return x; }`
abbrev value_of_x : Expression
value_of_x = simple_expression (single_term (single_factor (Factor.var (scalar "x"))))

abbrev loop : Statement
loop = iteration_stmt value_of_x (
    compound_stmt (
      compound (record { type = type_int; id = "y"; num = some (pos 3) } ∷ [])
        (Statements.cons (return_stmt (some value_of_x)) Statements.nil)))

loop-IsTyped : IsTypedStatement loop env (some int)
unfolding find
loop-IsTyped = ((int, refl), (((int, refl), (int, refl)), tt))

build_statement-Steps_example :
    (s' : Builder) × (build_statement loop start ≡ ok s') × Steps start s'
build_statement-Steps_example =
    build_statement-Steps loop env (some int) start start-Inside loop-IsTyped

-- The block 1 only jumps to the block 2, by the instruction 11.
abbrev jumps : Code
jumps = record (start.code) {
  heap = record {
    kind = λ p. if p == 11 then instruction OpId.br CmpOp.eq else other;
    operands = λ p. if p == 11 then 2 ∷ [] else [];
    use_list = λ p. [];
    next = 12;
  };
  instr_list = λ b. if b == 1 then 11 ∷ [] else [];
}

abbrev rank : ℕ → ℕ
rank b = if b == 1 then 1 else 0

jumps-GoesDown : GoesDown jumps (1 ∷ []) rank
unfolding get_terminator
jumps-GoesDown b e = elim (Bool-cases (1 == b)) [
  | inl t ↦
      subst
        (λ k.
          (x : ℕ) × (get_terminator jumps k ≡ some x)
          × ((next : ℕ) × (get_elem? (jumps.heap.operands x) 0 ≡ some next) × (rank next < rank k)))
        ((==_iff 1 b).0 t) (11, refl, (2, refl, omega arith))
  | inr f ↦ absurd (ground (arith, e, f))
]

thread-Leads_example :
    (target : ℕ) × (thread jumps (1 ∷ []) 1 ≡ ok target) × Leads jumps (1 ∷ []) 1 target
thread-Leads_example = thread-Leads jumps (1 ∷ []) rank 1 jumps-GoesDown (omega arith)

-- The block 1 returns by the instruction 11; what follows is cut.
abbrev goes_on : Code
goes_on = record (start.code) {
  heap = record {
    kind = λ p.
        if p == 11
        then instruction OpId.ret CmpOp.eq
        else if p == 12
        then instruction OpId.br CmpOp.eq
        else instruction OpId.load CmpOp.eq;
    operands = λ p. if p == 12 then 2 ∷ [] else [];
    use_list = λ p. [];
    next = 20;
  };
  instr_list = λ b. if b == 1 then 10 ∷ 11 ∷ 12 ∷ 13 ∷ [] else 14 ∷ [];
}

cut_block-upto_terminator_example :
    ((cut_block goes_on 1 (10 ∷ 11 ∷ 12 ∷ 13 ∷ []) false).instr_list 1 ≡ 10 ∷ 11 ∷ [])
    × ((d : ℕ)
        → (1 == d) ≡ false
        → (cut_block goes_on 1 (10 ∷ 11 ∷ 12 ∷ 13 ∷ []) false).instr_list d ≡ goes_on.instr_list d)
    × (IsSound goes_on → IsSound (cut_block goes_on 1 (10 ∷ 11 ∷ 12 ∷ 13 ∷ []) false))
    × Grows goes_on (cut_block goes_on 1 (10 ∷ 11 ∷ 12 ∷ 13 ∷ []) false)
cut_block-upto_terminator_example =
    cut_block-upto_terminator goes_on 1 (refl, (refl, (refl, (refl, tt))))
