-- ===== src/Tests/GenRuns.antt =====
-- src/cminusfc/cminusf_builder.cpp on a program: `int main(void) { int a[10]; float b; b = 1;
-- while (a[b]) if (b) return a[1]; else { } return 0; }`.
use ustc_2021_compliers.Base.{
  ℕ, String, ◌≡◌, refl, none, some, List, [], ◌∷◌, Result, ok, ◌>>=◌, length, map,
}
use ustc_2021_compliers.Base.Int.{pos}
use ustc_2021_compliers.Ast.{
  type_int, type_float, i_val, Expression, Var, Factor, assign_expression, simple_expression,
  scalar, element, single_term, single_factor, Statements, CompoundStmt, compound, expression_stmt,
  compound_stmt, selection_else_stmt, iteration_stmt, return_stmt, Declaration, fun_declaration,
}
use ustc_2021_compliers.Builder.Gen.{
  Builder, emitted, new_value, new_block, build_load, to_float, to_index, check_index,
  element_address,
}
use ustc_2021_compliers.Builder.Gen.Expressions.{
  build_on_floats, build_binary, build_assign, build_argument, build_expression, build_var,
  build_additive, build_term, build_factor, build_arguments,
}
use ustc_2021_compliers.Builder.Gen.Statements.{
  build_locals, if_condition, while_condition, build_returned, build_statement, build_compound,
  build_statements,
}
use ustc_2021_compliers.Builder.Gen.Cleanup.{
  delete_instr, get_terminator, cut_block, cut_blocks, thread_jump, remove_blocks, redirect_blocks,
  clean_up,
}
use ustc_2021_compliers.Builder.Gen.Functions.{
  build_args, new_function, build_var_declaration, param_types, build_params, build_fun_declaration,
  build_program, new_builder,
}
use ustc_2021_compliers.Builder.Scope.{find, exit, enter, push}
use ustc_2021_compliers.Ir.Create.{
  create, new_instruction, new_user, set_operands, get_element_type,
}
use ustc_2021_compliers.Ir.Heap.{set_operand, add_use, remove_use, remove_use_of, remove_use_of_ops}
use ustc_2021_compliers.Ir.Blocks.{add_edge, remove_block, remove_pre, remove_succ}
use ustc_2021_compliers.Ir.Types.{get_pointer_type, get_array_type, get_function_type}

abbrev of_factor : Factor → Expression
of_factor f = simple_expression (single_term (single_factor f))

abbrev int : ℕ → Expression
int n = of_factor (Factor.num (i_val (pos n)))

abbrev the_var : Var → Expression
the_var v = of_factor (Factor.var v)

abbrev body : CompoundStmt
body =
    compound
      (record { type = type_int; id = "a"; num = some (pos 10) }
        ∷ record { type = type_float; id = "b"; num = none }
        ∷ [])
      (Statements.cons (expression_stmt (some (assign_expression (scalar "b") (int 1)))) (
        Statements.cons
          (iteration_stmt (the_var (element "a" (the_var (scalar "b")))) (
            selection_else_stmt (the_var (scalar "b"))
              (return_stmt (some (the_var (element "a" (int 1)))))
              (compound_stmt (compound [] Statements.nil))))
          (Statements.cons (return_stmt (some (int 0))) Statements.nil)))

abbrev main : Declaration
main = fun_declaration (record { type = type_int; id = "main"; params = []; compound_stmt = body })

abbrev built : Result Builder
built = do s ← new_builder; build_program (main ∷ []) s

-- The number of blocks that the clean-up leaves, and the labels, the newest first.
labels_of : Result Builder → List (String × ℕ)
labels_of (ok s) = ("blocks", length s.code.blocks.basic_blocks) ∷ map (λ l. l.1) s.labels
labels_of _ = []

-- The clean-up removes `if_end` and `if_false`.
labels_test :
    labels_of built
    ≡ ("blocks", 10)
      ∷ ("idx_valid", 11)
      ∷ ("idx_neg", 10)
      ∷ ("if_false", 9)
      ∷ ("if_end", 8)
      ∷ ("if_true", 7)
      ∷ ("while_end", 6)
      ∷ ("while_loop", 5)
      ∷ ("idx_valid", 4)
      ∷ ("idx_neg", 3)
      ∷ ("while_judge", 2)
      ∷ ("func_ret", 1)
      ∷ ("func_start", 0)
      ∷ []
unfolding labels_of emitted new_value new_block build_load to_float to_index check_index
    element_address build_on_floats build_binary build_assign build_argument build_expression
    build_var build_additive build_term build_factor build_arguments build_locals if_condition
    while_condition build_returned build_statement build_compound build_statements delete_instr
    get_terminator cut_block cut_blocks thread_jump remove_blocks redirect_blocks clean_up
    build_args new_function build_var_declaration param_types build_params build_fun_declaration
    build_program new_builder find exit enter push create new_instruction new_user set_operands
    get_element_type set_operand add_use remove_use remove_use_of remove_use_of_ops add_edge
    remove_block remove_pre remove_succ get_pointer_type get_array_type get_function_type
labels_test = refl
