-- ===== src/Builder/Gen/Statements.antt =====
-- src/cminusfc/cminusf_builder.cpp: the visitors of statements.
use Prim.Native.Nat.{suc, ◌-◌, ◌^◌, ◌%◌}
use ustc_2021_compliers.Base.{
  ℕ, Option, none, some, List, [], ◌∷◌, Result, ok, undefined, ◌>>=◌, ◌==◌, ltb, if◌then◌else◌,
}
use ustc_2021_compliers.Base.Int.{ℤ, pos, negsuc}
use ustc_2021_compliers.Ast.{
  CminusType, type_int, type_float, type_void, Expression, Statement, Statements, CompoundStmt,
  compound, expression_stmt, compound_stmt, selection_stmt, selection_else_stmt, iteration_stmt,
  return_stmt, VarDeclaration,
}
use ustc_2021_compliers.Ir.Instruction.{CmpOp}
use ustc_2021_compliers.Ir.Types.{get_int32_type, get_float_type, get_array_type}
use ustc_2021_compliers.Ir.Create.{create_alloca, create_cmp, create_fcmp}
use ustc_2021_compliers.Builder.Scope.{enter, exit, push}
use ustc_2021_compliers.Builder.Gen.{
  Builder, emitted, const_int, const_fp, dereferenced, new_block, build_br, build_cond_br,
  set_insert_point, is_int32, is_float, build_sitofp, build_fptosi, pointer_to,
}
use ustc_2021_compliers.Builder.Gen.Expressions.{store_value, store_converted, build_expression}

-- The type of the variables of a declared type; those of type void are left out.
abbrev pub basic_type : CminusType → Option ℕ
basic_type type_int = some get_int32_type
basic_type type_float = some get_float_type
basic_type type_void = none

-- The length of an array, an `int` that becomes `unsigned`.
abbrev pub array_length : ℤ → ℕ
array_length (pos n) = n % 2 ^ 32
array_length (negsuc n) = 2 ^ 32 - 1 - n % 2 ^ 32

-- The type of a declared variable, which may be made here
abbrev pub declared_type : Builder → ℕ → Option ℤ → Result (Builder × ℕ)
declared_type s ty none = ok (s, ty)
declared_type s ty (some num) = do
  (ts, p) ← get_array_type s.code.types ty (array_length num)
  ok (record s { code = record (s.code) { types = ts } }, p)

abbrev pub build_local : Builder → VarDeclaration → Option ℕ → Result Builder
build_local s loc none = ok s
build_local s loc (some basic) = do
  (s1, ty) ← declared_type s basic loc.num
  (s2, variable) ← emitted s1 (create_alloca s1.code ty s1.insert_block)
  (names, inserted) ← push s2.scope loc.id variable
  ok (record s2 { scope = names })

-- The loop over the local declarations
unfoldable pub build_locals : List VarDeclaration → Builder → Result Builder
build_locals [] s = ok s
build_locals (loc ∷ locs) s = do s1 ← build_local s loc (basic_type loc.type); build_locals locs s1

-- ASTCompoundStmt, before the declarations and after the statements
abbrev pub enter_compound : Builder → Builder
enter_compound s =
    let entered = enter s.scope in
    record s {
      scope = if ltb 0 s.compound_stmt_depth then entered else s.scope;
      compound_stmt_depth = suc s.compound_stmt_depth;
    }

abbrev pub exit_compound : Builder → Result Builder
exit_compound s =
    let left = record s { compound_stmt_depth = s.compound_stmt_depth - 1 } in
    let exited : Result Builder = (do names ← exit s.scope; ok (record left { scope = names })) in
    if ltb 0 (s.compound_stmt_depth - 1) then exited else ok left

abbrev pub differs_from_0 : Builder × ℕ → Result (Builder × ℕ)
differs_from_0 (s, val) =
    let (s1, null) = const_int s (pos 0) in
    emitted s1 (create_cmp s1.code CmpOp.ne val null s1.insert_block)

-- The condition of a selection: a float is converted. For another type the condition is not initialised.
unfoldable pub if_condition : Builder → Result (Builder × ℕ)
if_condition s =
    if is_int32 s s.curr_val
    then differs_from_0 (s, s.curr_val)
    else if is_float s s.curr_val
    then (do r ← build_fptosi s s.curr_val; differs_from_0 r)
    else undefined

-- The condition of an iteration: a float is compared.
unfoldable pub while_condition : Builder → Result (Builder × ℕ)
while_condition s =
    let (s1, null) = const_fp s 0 in
    if is_int32 s s.curr_val
    then differs_from_0 (s, s.curr_val)
    else if is_float s s.curr_val
    then emitted s1 (create_fcmp s1.code CmpOp.ne s.curr_val null s1.insert_block)
    else undefined

-- The store of ASTReturnStmt
abbrev pub return_int : Builder → ℕ → Result Builder
return_int s address =
    let (s1, float_pointer) = pointer_to s get_float_type in
    if s.code.type_of address == float_pointer
    then (do r ← build_sitofp s1 s1.curr_val; store_converted r address)
    else store_value s1 s1.curr_val address

abbrev pub return_float : Builder → ℕ → Result Builder
return_float s address =
    let (s1, int_pointer) = pointer_to s get_int32_type in
    if s.code.type_of address == int_pointer
    then (do r ← build_fptosi s1 s1.curr_val; store_converted r address)
    else store_value s1 s1.curr_val address

abbrev pub return_at : Builder → ℕ → Result Builder
return_at s address =
    if is_int32 s s.curr_val
    then return_int s address
    else if is_float s s.curr_val
    then return_float s address
    else store_value s s.curr_val address

unfoldable pub build_returned : Builder → Result Builder
build_returned s = do address ← dereferenced s.curr_ret_addr; return_at s address

-- ASTExpressionStmt
abbrev pub build_optional : Option Expression → Builder → Result Builder
build_optional none s = ok s
build_optional (some e) s = build_expression e s

-- A branch to the end of a selection, after a statement of it
abbrev pub then_insert_at : ℕ → ℕ → Builder → Result Builder
then_insert_at target b s = do s1 ← build_br s target; ok (set_insert_point s1 b)

unfoldable mutual
  pub build_statement : Statement → Builder → Result Builder
  build_statement (expression_stmt e) s = build_optional e s
  build_statement (compound_stmt c) s = build_compound c s
  build_statement (selection_stmt e if_statement) s = do
    s1 ← build_expression e s
    (s2, cmp_result) ← if_condition s1
    let (s3, true_bb) = new_block s2 "if_true"
    let (s4, end_bb) = new_block s3 "if_end"
    s5 ← build_cond_br s4 cmp_result true_bb end_bb
    s6 ← build_statement if_statement (set_insert_point s5 true_bb)
    then_insert_at end_bb end_bb s6
  build_statement (selection_else_stmt e if_statement else_statement) s = do
    s1 ← build_expression e s
    (s2, cmp_result) ← if_condition s1
    let (s3, true_bb) = new_block s2 "if_true"
    let (s4, end_bb) = new_block s3 "if_end"
    let (s5, false_bb) = new_block s4 "if_false"
    s6 ← build_cond_br s5 cmp_result true_bb false_bb
    s7 ← build_statement if_statement (set_insert_point s6 true_bb)
    s8 ← then_insert_at end_bb false_bb s7
    s9 ← build_statement else_statement s8
    then_insert_at end_bb end_bb s9
  build_statement (iteration_stmt e statement) s = do
    let (s1, judge_bb) = new_block s "while_judge"
    s2 ← then_insert_at judge_bb judge_bb s1
    s3 ← build_expression e s2
    (s4, judge) ← while_condition s3
    let (s5, loop_bb) = new_block s4 "while_loop"
    let (s6, end_bb) = new_block s5 "while_end"
    s7 ← build_cond_br s6 judge loop_bb end_bb
    s8 ← build_statement statement (set_insert_point s7 loop_bb)
    then_insert_at judge_bb end_bb s8
  build_statement (return_stmt none) s = build_br s s.curr_ret_bb
  build_statement (return_stmt (some e)) s = do
    s1 ← build_expression e s
    s2 ← build_returned s1
    build_br s2 s2.curr_ret_bb

  pub build_compound : CompoundStmt → Builder → Result Builder
  build_compound (compound local_declarations statement_list) s = do
    s1 ← build_locals local_declarations (enter_compound s)
    s2 ← build_statements statement_list s1
    exit_compound s2

  pub build_statements : Statements → Builder → Result Builder
  build_statements Statements.nil s = ok s
  build_statements (Statements.cons st sts) s = do
    s1 ← build_statement st s
    build_statements sts s1
