-- ===== src/Builder/Gen/Functions.antt =====
-- src/cminusfc/cminusf_builder.cpp: the visitors of declarations, with Function::create and
-- GlobalVariable::create, and the constructor of include/cminusf_builder.hpp.
use ustc_2021_compliers.Base.{
  ℕ, String, Bool, true, false, Option, none, some, List, [], ◌∷◌, ◌++◌, Result, ok, undefined,
  ◌>>=◌, ◌==◌, length,
}
use ustc_2021_compliers.Ast.{
  CminusType, type_int, type_float, type_void, VarDeclaration, Param, FunDeclaration, Declaration,
  var_declaration, fun_declaration, Program,
}
use ustc_2021_compliers.Ir.Heap.{Heap, Kind, other, update}
use ustc_2021_compliers.Ir.Types.{
  new_module, get_int32_type, get_float_type, get_void_type, get_function_type,
}
use ustc_2021_compliers.Ir.Create.{
  new_user, set_operands, create_alloca, create_store, create_load, create_ret, create_void_ret,
}
use ustc_2021_compliers.Builder.Scope.{enter, exit, push}
use ustc_2021_compliers.Builder.Gen.{
  Builder, emitted, new_value, dereferenced, new_block, build_br, set_insert_point, pointer_to,
}
use ustc_2021_compliers.Builder.Gen.Statements.{basic_type, declared_type, build_compound}
use ustc_2021_compliers.Builder.Gen.Cleanup.{get_terminator, clean_up}

abbrev pub push_name : Builder → String → ℕ → Result Builder
push_name s id val = do (names, inserted) ← push s.scope id val; ok (record s { scope = names })

-- Function::build_args
unfoldable pub build_args : Builder → List ℕ → Builder × List ℕ
build_args s [] = (s, [])
build_args s (ty ∷ tys) =
    let (s1, argument) = new_value s other ty in
    let (s2, arguments) = build_args s1 tys in (s2, argument ∷ arguments)

-- Function::create of a function with the result `result` and the parameters `params`
unfoldable pub new_function : Builder → ℕ → List ℕ → Result (Builder × ℕ)
new_function s result params = do
  (ts, function_type) ← get_function_type s.code.types result params
  let (s1, func) =
      new_value (record s { code = record (s.code) { types = ts } })
        (Kind.function (result == get_void_type)) function_type
  let (s2, args) = build_args s1 params
  let code = record (s2.code) {
    return_type = update s2.code.return_type func result;
    num_of_args = update s2.code.num_of_args func (length params);
  }
  ok (
    record s2 {
      code = code;
      arguments = update s2.arguments func args;
      functions = func ∷ s2.functions;
    },
    func,
  )

-- GlobalVariable::create: the initial value is an operand.
abbrev pub new_global : Builder → ℕ → ℕ → Result (Builder × ℕ)
new_global s ty init = do
  let (s1, pointer) = pointer_to s ty
  let variable = s1.code.heap.next
  heap ← set_operands (new_user s1.code.heap other 1) variable 0 (init ∷ [])
  let code = record (s1.code) { heap = heap; type_of = update s1.code.type_of variable pointer }
  ok (record s1 { code = code; global_variables = variable ∷ s1.global_variables }, variable)

-- The initial value by the type of the variable. A variable of type void is never assigned.
abbrev pub initializer : CminusType → ℕ → ℕ → Result ℕ
initializer type_int int_zero float_zero = ok int_zero
initializer type_float int_zero float_zero = ok float_zero
initializer type_void int_zero float_zero = undefined

-- ASTVarDeclaration
unfoldable pub build_var_declaration : VarDeclaration → Builder → Result Builder
build_var_declaration node s = do
  let (s1, int_zero) = new_value s other get_int32_type
  let (s2, float_zero) = new_value s1 other get_float_type
  init ← initializer node.type int_zero float_zero
  basic ← dereferenced (basic_type node.type)
  (s3, ty) ← declared_type s2 basic node.num
  (s4, glo) ← new_global s3 ty init
  push_name s4 node.id glo

-- The type of a parameter; none for the type void
abbrev pub param_type : Builder → Bool → Option ℕ → Builder × List ℕ
param_type s isarray none = (s, [])
param_type s true (some basic) = let (s1, pointer) = pointer_to s basic in (s1, pointer ∷ [])
param_type s false (some basic) = (s, basic ∷ [])

-- The first loop over the parameters
unfoldable pub param_types : List Param → Builder → Builder × List ℕ
param_types [] s = (s, [])
param_types (par ∷ pars) s =
    let (s1, tys) = param_type s par.isarray (basic_type par.type) in
    let (s2, more) = param_types pars s1 in (s2, tys ++ more)

abbrev pub result_type : Option ℕ → ℕ
result_type none = get_void_type
result_type (some ty) = ty

-- The cell of a parameter: an array of type void is taken for one of floats, and for a scalar of type
-- void there is no cell.
abbrev pub param_cell : Builder → Bool → Option ℕ → Result (Builder × ℕ)
param_cell s true none =
    let (s1, pointer) = pointer_to s get_float_type in
    emitted s1 (create_alloca s1.code pointer s1.insert_block)
param_cell s true (some basic) =
    let (s1, pointer) = pointer_to s basic in
    emitted s1 (create_alloca s1.code pointer s1.insert_block)
param_cell s false none = undefined
param_cell s false (some basic) = emitted s (create_alloca s.code basic s.insert_block)

-- The second loop over the parameters, with the function's arguments
unfoldable pub build_params : List Param → List ℕ → Builder → Result Builder
build_params [] args s = ok s
build_params (par ∷ pars) [] s = undefined
build_params (par ∷ pars) (arg ∷ args) s = do
  (s1, cell) ← param_cell s par.isarray (basic_type par.type)
  (s2, stored) ← emitted s1 (create_store s1.code arg cell s1.insert_block)
  s3 ← push_name s2 par.id cell
  build_params pars args s3

-- The cell of the result, and the return from it
abbrev pub return_cell : Builder → Option ℕ → Result Builder
return_cell s none = ok (record s { curr_ret_addr = none })
return_cell s (some ty) = do
  (s1, cell) ← emitted s (create_alloca s.code ty s.insert_block)
  ok (record s1 { curr_ret_addr = some cell })

abbrev pub build_return : Builder → Option ℕ → Option ℕ → Result Builder
build_return s (some ty) (some cell) = do
  (s1, value) ← emitted s (create_load s.code ty cell s.insert_block)
  (s2, returned) ← emitted s1 (create_ret s1.code value s1.insert_block)
  ok s2
build_return s _ _ = do (s1, returned) ← emitted s (create_void_ret s.code s.insert_block); ok s1

-- The function's body is behind a branch, unless it ends with one.
abbrev pub finish_body : Builder → Option ℕ → ℕ → Result Builder
finish_body s none ret_bb = build_br s ret_bb
finish_body s (some t) ret_bb = ok s

abbrev pub start_function : Builder → ℕ → Builder
start_function s func = record s {
  curr_func = func;
  code = record (s.code) { blocks = record (s.code.blocks) { basic_blocks = [] } };
  scope = enter s.scope;
}

-- ASTFunDeclaration. The cell of the result is still `retvar` at the end: nothing within a function
-- assigns currRetaddr.
unfoldable pub build_fun_declaration : FunDeclaration → Builder → Result Builder
build_fun_declaration node s = do
  let result = basic_type node.type
  let (s1, func_params) = param_types node.params s
  (s2, func) ← new_function s1 (result_type result) func_params
  s3 ← push_name (record s2 { curr_func = func }) node.id func
  let (s4, start_bb) = new_block (start_function s3 func) "func_start"
  let (s5, ret_bb) = new_block s4 "func_ret"
  s6 ← return_cell (set_insert_point (record s5 { curr_ret_bb = ret_bb }) start_bb) result
  s7 ← build_params node.params (s6.arguments func) s6
  s8 ← build_compound node.compound_stmt s7
  s9 ← finish_body s8 (get_terminator s8.code s8.insert_block) ret_bb
  s10 ← build_return (set_insert_point s9 ret_bb) result s6.curr_ret_addr
  code ← clean_up s10.code
  names ← exit s10.scope
  ok (record s10 { code = code; scope = names })

abbrev pub build_declaration : Declaration → Builder → Result Builder
build_declaration (var_declaration d) s = build_var_declaration d s
build_declaration (fun_declaration d) s = build_fun_declaration d s

-- ASTProgram
unfoldable pub build_program : Program → Builder → Result Builder
build_program [] s = ok s
build_program (dec ∷ decs) s = do s1 ← build_declaration dec s; build_program decs s1

-- The pointer 0 is null.
abbrev pub empty_heap : Heap
empty_heap = record { kind = λ p. other; operands = λ p. []; use_list = λ p. []; next = 1 }

abbrev pub empty_builder : Builder
empty_builder = record {
  code = record {
    heap = empty_heap;
    types = new_module;
    type_of = λ p. get_void_type;
    instr_list = λ b. [];
    blocks = record { pre_bbs = λ b. []; succ_bbs = λ b. []; basic_blocks = [] };
    return_type = λ f. get_void_type;
    num_of_args = λ f. 0;
  };
  scope = [];
  curr_val = 0;
  curr_func = 0;
  curr_ret_bb = 0;
  curr_ret_addr = none;
  compound_stmt_depth = 0;
  label_num = 0;
  insert_block = 0;
  arguments = λ f. [];
  labels = [];
  functions = [];
  global_variables = [];
}

-- CminusfBuilder::CminusfBuilder
unfoldable pub new_builder : Result Builder
new_builder = do
  (s1, input) ← new_function empty_builder get_int32_type []
  (s2, output) ← new_function s1 get_void_type (get_int32_type ∷ [])
  (s3, output_float) ← new_function s2 get_void_type (get_float_type ∷ [])
  (s4, neg_idx_except) ← new_function s3 get_void_type []
  s5 ← push_name (record s4 { scope = enter s4.scope }) "input" input
  s6 ← push_name s5 "output" output
  s7 ← push_name s6 "outputFloat" output_float
  push_name s7 "neg_idx_except" neg_idx_except
