-- ===== src/Builder/Gen/Expressions.antt =====
-- src/cminusfc/cminusf_builder.cpp: the visitors of expressions.
use ustc_2021_compliers.Base.{
  ℕ, String, Bool, true, false, Option, none, some, List, [], ◌∷◌, ◌++◌, Result, ok, undefined,
  ◌>>=◌, ◌==◌, ◌&&◌, if◌then◌else◌,
}
use ustc_2021_compliers.Base.Int.{pos}
use ustc_2021_compliers.Ast.{
  RelOp, op_le, op_lt, op_gt, op_ge, op_eq, op_neq, AddOp, op_plus, op_minus, MulOp, op_mul, op_div,
  Num, i_val, f_val, Expression, Var, AdditiveExpression, Term, Factor, Expressions,
  assign_expression, simple_expression, relation, scalar, element, single_term, sum, single_factor,
  product,
}
use ustc_2021_compliers.Ir.Instruction.{CmpOp}
use ustc_2021_compliers.Ir.Types.{Shape, pointer, get_int32_type, get_float_type}
use ustc_2021_compliers.Ir.Create.{
  Code, create_add, create_sub, create_mul, create_sdiv, create_fadd, create_fsub, create_fmul,
  create_fdiv, create_cmp, create_fcmp, create_store, create_zext, create_gep,
}
use ustc_2021_compliers.Builder.Scope.{find}
use ustc_2021_compliers.Builder.Gen.{
  Builder, emitted, set_val, const_int, const_fp, dereferenced, build_load, is_function, build_call,
  is_int32, is_float, build_sitofp, build_fptosi, pointer_to, to_float, element_address,
}

-- ASTNum
abbrev pub build_num : Num → Builder → Result Builder
build_num (i_val z) s = ok (set_val (const_int s z))
build_num (f_val bits) s = ok (set_val (const_fp s bits))

abbrev pub cmp_op_of : RelOp → CmpOp
cmp_op_of op_le = CmpOp.le
cmp_op_of op_lt = CmpOp.lt
cmp_op_of op_gt = CmpOp.gt
cmp_op_of op_ge = CmpOp.ge
cmp_op_of op_eq = CmpOp.eq
cmp_op_of op_neq = CmpOp.ne

-- Both operands are converted.
unfoldable pub build_on_floats :
    (Code → ℕ → ℕ → ℕ → Result (Code × ℕ)) → Builder → ℕ → ℕ → Result (Builder × ℕ)
build_on_floats on_floats s exp_l exp_r = do
  (s1, l) ← to_float s exp_l
  (s2, r) ← to_float s1 exp_r
  emitted s2 (on_floats s2.code l r s2.insert_block)

-- The two tables of an operator: for integers, and for floats.
abbrev pub int_sum : AddOp → Code → ℕ → ℕ → ℕ → Result (Code × ℕ)
int_sum op_plus c l r b = create_add c l r b
int_sum op_minus c l r b = create_sub c l r b

abbrev pub float_sum : AddOp → Code → ℕ → ℕ → ℕ → Result (Code × ℕ)
float_sum op_plus c l r b = create_fadd c l r b
float_sum op_minus c l r b = create_fsub c l r b

abbrev pub int_product : MulOp → Code → ℕ → ℕ → ℕ → Result (Code × ℕ)
int_product op_mul c l r b = create_mul c l r b
int_product op_div c l r b = create_sdiv c l r b

abbrev pub float_product : MulOp → Code → ℕ → ℕ → ℕ → Result (Code × ℕ)
float_product op_mul c l r b = create_fmul c l r b
float_product op_div c l r b = create_fdiv c l r b

abbrev pub int_relation : RelOp → Code → ℕ → ℕ → ℕ → Result (Code × ℕ)
int_relation op c l r b = create_cmp c (cmp_op_of op) l r b

abbrev pub float_relation : RelOp → Code → ℕ → ℕ → ℕ → Result (Code × ℕ)
float_relation op c l r b = create_fcmp c (cmp_op_of op) l r b

-- What the visitors do with two operands: integers stay integers, all else is converted to floats.
unfoldable pub build_binary :
    (Code → ℕ → ℕ → ℕ → Result (Code × ℕ))
    → (Code → ℕ → ℕ → ℕ → Result (Code × ℕ))
    → Builder
    → ℕ
    → ℕ
    → Result (Builder × ℕ)
build_binary on_ints on_floats s exp_l exp_r =
    if is_int32 s exp_l && is_int32 s exp_r
    then emitted s (on_ints s.code exp_l exp_r s.insert_block)
    else build_on_floats on_floats s exp_l exp_r

abbrev pub widened : Builder × ℕ → Result (Builder × ℕ)
widened (s, result) = emitted s (create_zext s.code result get_int32_type s.insert_block)

-- The store of an assignment, by the types of the value and of the address
abbrev pub store_value : Builder → ℕ → ℕ → Result Builder
store_value s val address = do
  r ← emitted s (create_store s.code val address s.insert_block)
  ok (record (r.0) { curr_val = val })

abbrev pub store_converted : Builder × ℕ → ℕ → Result Builder
store_converted (s, val) address = store_value s val address

abbrev pub assign_int : Builder → ℕ → Result Builder
assign_int s address =
    let (s1, int_pointer) = pointer_to s get_int32_type in
    let (s2, float_pointer) = pointer_to s1 get_float_type in
    if s.code.type_of address == int_pointer
    then store_value s1 s1.curr_val address
    else if s.code.type_of address == float_pointer
    then (do r ← build_sitofp s2 s2.curr_val; store_converted r address)
    else (do r ← build_fptosi s2 s2.curr_val; store_converted r address)

abbrev pub assign_float : Builder → ℕ → Result Builder
assign_float s address =
    let (s1, float_pointer) = pointer_to s get_float_type in
    if s.code.type_of address == float_pointer
    then store_value s1 s1.curr_val address
    else (do r ← build_fptosi s1 s1.curr_val; store_converted r address)

unfoldable pub build_assign : Builder → Option ℕ → Result Builder
build_assign s var_address = do
  address ← dereferenced var_address
  (if is_int32 s s.curr_val
      then assign_int s address
      else if is_float s s.curr_val
      then assign_float s address
      else do r ← build_fptosi s s.curr_val; store_converted r address)

-- `arg_exp->additive_expression_l->term->factor`, after the casts of ASTCall to ASTSimpleExpression and
-- to ASTVar: the name of the array, and nothing where the cast is wrong.
abbrev pub factor_id : Factor → Option String
factor_id (Factor.var (scalar id)) = some id
factor_id (Factor.var (element id e)) = some id
factor_id _ = none

abbrev pub term_id : Term → Option String
term_id (single_factor f) = factor_id f
term_id (product t o f) = factor_id f

abbrev pub additive_id : AdditiveExpression → Option String
additive_id (single_term t) = term_id t
additive_id (sum a o t) = term_id t

abbrev pub argument_id : Expression → Option String
argument_id (assign_expression v e) = none
argument_id (simple_expression a) = additive_id a
argument_id (relation a o b) = additive_id a

-- The address of the first element of an array that is an argument
abbrev pub first_element : Builder → Option String → Result Builder
first_element s none = undefined
first_element s (some id) = do
  let (s1, i) = const_int s (pos 0)
  let (s2, j) = const_int s1 (pos 0)
  base ← dereferenced (find s.scope id)
  r ← emitted s2 (create_gep s2.code base (i ∷ j ∷ []) s2.insert_block)
  ok (set_val r)

abbrev pub is_pointer : Shape → Bool
is_pointer (pointer c) = true
is_pointer _ = false

-- The conversion of an argument to the type of the parameter
unfoldable pub build_argument : Builder → Expression → ℕ → Result Builder
build_argument s arg param =
    if s.code.type_of param == s.code.type_of s.curr_val
    then ok s
    else if is_int32 s s.curr_val
    then (do r ← build_sitofp s s.curr_val; ok (set_val r))
    else if is_float s s.curr_val
    then (do r ← build_fptosi s s.curr_val; ok (set_val r))
    else if is_pointer (s.code.types.shape (s.code.type_of param))
    then first_element s (argument_id arg)
    else ok s

-- A read past the end of the list of the function's arguments
abbrev pub next_argument : List ℕ → Result (ℕ × List ℕ)
next_argument [] = undefined
next_argument (a ∷ args) = ok (a, args)

unfoldable mutual
  -- ASTAssignExpression and ASTSimpleExpression
  pub build_expression : Expression → Builder → Result Builder
  build_expression (assign_expression (scalar id) e) s = do
    let var_address = find s.scope id
    s1 ← build_expression e s
    build_assign s1 var_address
  build_expression (assign_expression (element id i) e) s = do
    let base_address = find s.scope id
    s1 ← build_expression i s
    (s2, var_address) ← element_address s1 base_address
    s3 ← build_expression e s2
    build_assign s3 (some var_address)
  build_expression (simple_expression a) s = build_additive a s
  build_expression (relation a op b) s = do
    s1 ← build_additive a s
    s2 ← build_additive b s1
    result ← build_binary (int_relation op) (float_relation op) s2 s1.curr_val s2.curr_val
    r ← widened result
    ok (set_val r)

  pub build_var : Var → Builder → Result Builder
  build_var (scalar id) s = do
    base_address ← dereferenced (find s.scope id)
    r ← build_load s base_address
    ok (set_val r)
  build_var (element id i) s = do
    let base_address = find s.scope id
    s1 ← build_expression i s
    (s2, act_addr) ← element_address s1 base_address
    r ← build_load s2 act_addr
    ok (set_val r)

  pub build_additive : AdditiveExpression → Builder → Result Builder
  build_additive (single_term t) s = build_term t s
  build_additive (sum a op t) s = do
    s1 ← build_additive a s
    s2 ← build_term t s1
    r ← build_binary (int_sum op) (float_sum op) s2 s1.curr_val s2.curr_val
    ok (set_val r)

  pub build_term : Term → Builder → Result Builder
  build_term (single_factor f) s = build_factor f s
  build_term (product t op f) s = do
    s1 ← build_term t s
    s2 ← build_factor f s1
    r ← build_binary (int_product op) (float_product op) s2 s1.curr_val s2.curr_val
    ok (set_val r)

  -- The virtual call of `accept`, and ASTCall
  pub build_factor : Factor → Builder → Result Builder
  build_factor (Factor.num n) s = build_num n s
  build_factor (Factor.expression e) s = build_expression e s
  build_factor (Factor.var v) s = build_var v s
  build_factor (Factor.call id args) s = do
    func ← dereferenced (find s.scope id)
    (if is_function (s.code.heap.kind func)
        then (do
          (s1, call_args) ← build_arguments args (s.arguments func) [] s
          r ← build_call s1 (some func) call_args
          ok (set_val r))
        else undefined)

  -- The loop over the arguments
  pub build_arguments : Expressions → List ℕ → List ℕ → Builder → Result (Builder × List ℕ)
  build_arguments Expressions.nil params call_args s = ok (s, call_args)
  build_arguments (Expressions.cons arg args) params call_args s = do
    s1 ← build_expression arg s
    (param, later) ← next_argument params
    s2 ← build_argument s1 arg param
    build_arguments args later (call_args ++ s2.curr_val ∷ []) s2
