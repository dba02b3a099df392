-- ===== src/Tests/AstRuns.antt =====
-- A Cminus-f program through src/parser/syntax_analyzer.y and src/common/ast.cpp.
use ustc_2021_compliers.Base.{ℕ, String, some, none, true, false, [], ◌∷◌, ◌≡◌, Result, ok, arith}
use ustc_2021_compliers.Base.Int.{ℤ, pos}
use ustc_2021_compliers.Tree.{build_node, inner, leaf, build_node-eq-inner}
use ustc_2021_compliers.Ast.{
  type_int, type_float, op_lt, op_minus, op_mul, i_val, Expression, Term, Factor, Expressions,
  assign_expression, simple_expression, relation, scalar, element, single_term, sum, single_factor,
  product, Statements, compound, expression_stmt, compound_stmt, selection_else_stmt,
  iteration_stmt, return_stmt, Declaration, var_declaration, fun_declaration,
}
use ustc_2021_compliers.Ast.Printer.{visit_program}
use ustc_2021_compliers.Ast.Printer.Preorder.{preorder}
use ustc_2021_compliers.Ast.Printer.Programs.{program_labels, visit_program-eq-preorder}
use ustc_2021_compliers.Ast.Grammar.{program_tree}
use ustc_2021_compliers.Ast.Transform.{transform}
use ustc_2021_compliers.Ast.RoundTrip.Programs.{transform-program_tree}

-- Every number of the program is 7.
abbrev read_seven : String → Result ℤ
read_seven s = ok (pos 7)

abbrev read_zero_float : String → Result ℕ
read_zero_float s = ok 0

abbrev show_seven : ℤ → String
show_seven z = "7"

abbrev show_float : ℕ → String
show_float x = "0.0"

abbrev seven : Term
seven = single_factor (Factor.num (i_val (pos 7)))

abbrev x : Term
x = single_factor (Factor.var (scalar "x"))

abbrev value : Term → Expression
value t = simple_expression (single_term t)

-- int a[7];
abbrev array_a : Declaration
array_a = var_declaration (record { type = type_int; id = "a"; num = some (pos 7) })

-- float f(int x, float y[]) {
--   int z;
--   while (x < 7) { x = x - 7 * x; }
--   if (x) ; else return f(x, 7);
--   return a[7];
-- }
abbrev function_f : Declaration
function_f = fun_declaration (record {
  type = type_float;
  id = "f";
  params =
      record { type = type_int; id = "x"; isarray = false }
      ∷ record { type = type_float; id = "y"; isarray = true }
      ∷ [];
  compound_stmt = compound (record { type = type_int; id = "z"; num = none } ∷ []) (
      Statements.cons
        (iteration_stmt (relation (single_term x) op_lt (single_term seven)) (
          compound_stmt (
            compound [] (
              Statements.cons
                (expression_stmt (
                  some (
                    assign_expression (scalar "x") (
                      simple_expression (
                        sum (single_term x) op_minus
                          (product seven op_mul (Factor.var (scalar "x"))))))))
                Statements.nil))))
        (Statements.cons
          (selection_else_stmt (value x) (expression_stmt none) (
            return_stmt (
              some (
                value (
                  single_factor (
                    Factor.call "f" (
                      Expressions.cons (value x)
                        (Expressions.cons (value seven) Expressions.nil))))))))
          (Statements.cons
            (return_stmt (some (value (single_factor (Factor.var (element "a" (value seven)))))))
            Statements.nil)));
})

transform-program_tree_example :
    transform read_seven read_zero_float 40
      (program_tree show_seven show_float array_a (function_f ∷ []))
    ≡ ok (array_a ∷ function_f ∷ [])
unfolding program_tree
transform-program_tree_example =
    transform-program_tree read_seven read_zero_float show_seven show_float array_a
      (function_f ∷ []) 40 (ground arith) (omega arith)

build_node-eq-inner_example :
    build_node "declaration-list" (leaf "a" ∷ leaf "b" ∷ [])
    ≡ ok (inner "declaration-list" (leaf "a" ∷ leaf "b" ∷ []))
build_node-eq-inner_example =
    build_node-eq-inner "declaration-list" (leaf "a" ∷ leaf "b" ∷ []) (omega arith)

visit_program-eq-preorder_example :
    visit_program (array_a ∷ function_f ∷ []) (record { depth = 0; out = [] })
    ≡ record { depth = 0; out = preorder 0 (program_labels (array_a ∷ function_f ∷ [])) }
visit_program-eq-preorder_example =
    visit_program-eq-preorder (array_a ∷ function_f ∷ []) (record { depth = 0; out = [] })
