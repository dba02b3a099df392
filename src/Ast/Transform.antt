-- ===== src/Ast/Transform.antt =====
-- AST::transform_node_iter of src/common/ast.cpp: from the concrete syntax tree to the AST. The
-- branches of its chain of string comparisons are in the child modules.
use Prim.Native.Nat.{suc, zero}
use text.Mathlib.Text.{◌==◌ as str_eq}
use ustc_2021_compliers.Base.{ℕ, String, Result, abort, out_of_fuel, ◌>>=◌, if◌then◌else◌}
use ustc_2021_compliers.Base.Int.{ℤ}
use ustc_2021_compliers.Tree.{Node}
use ustc_2021_compliers.Ast.{Program}
use ustc_2021_compliers.Ast.Node.{AstNode, as_program}
pub mod Walk
pub mod Declarations
pub mod Statements
pub mod Expressions
use Walk.{name_of, transform_only_child}
use Declarations.{
  transform_program, transform_var_declaration, transform_fun_declaration, transform_param,
}
use Statements.{
  transform_compound_stmt, transform_expression_stmt, transform_selection_stmt,
  transform_iteration_stmt, transform_return_stmt,
}
use Expressions.{
  transform_expression, transform_var, transform_simple_expression, transform_additive_expression,
  transform_term, transform_factor, transform_call,
}

-- `std::stoi` and `std::stof`; a float is its bit pattern.
module _ (stoi : String → Result ℤ) (stof : String → Result ℕ) where
  module _ (rec : Node → Result AstNode) where
    -- The chain of comparisons of `n->name`.
    unfoldable pub dispatch : String → Node → Result AstNode
    unfolding transform_program transform_var_declaration transform_fun_declaration transform_param
        transform_compound_stmt transform_expression_stmt transform_selection_stmt
        transform_iteration_stmt transform_return_stmt transform_only_child transform_expression
        transform_var transform_simple_expression transform_additive_expression transform_term
        transform_factor transform_call
    dispatch name n =
        if str_eq name "program"
        then transform_program stoi rec n
        else if str_eq name "declaration"
        then transform_only_child rec n
        else if str_eq name "var-declaration"
        then transform_var_declaration stoi rec n
        else if str_eq name "fun-declaration"
        then transform_fun_declaration stoi rec n
        else if str_eq name "param"
        then transform_param stoi rec n
        else if str_eq name "compound-stmt"
        then transform_compound_stmt rec n
        else if str_eq name "statement"
        then transform_only_child rec n
        else if str_eq name "expression-stmt"
        then transform_expression_stmt rec n
        else if str_eq name "selection-stmt"
        then transform_selection_stmt rec n
        else if str_eq name "iteration-stmt"
        then transform_iteration_stmt rec n
        else if str_eq name "return-stmt"
        then transform_return_stmt rec n
        else if str_eq name "expression"
        then transform_expression rec n
        else if str_eq name "var"
        then transform_var rec n
        else if str_eq name "simple-expression"
        then transform_simple_expression rec n
        else if str_eq name "additive-expression"
        then transform_additive_expression rec n
        else if str_eq name "term"
        then transform_term rec n
        else if str_eq name "factor"
        then transform_factor rec stoi stof n
        else if str_eq name "call"
        then transform_call rec n
        else abort

  -- The number is the depth of the recursion that is allowed.
  unfoldable pub transform_node_iter : ℕ → Node → Result AstNode
  transform_node_iter zero n = out_of_fuel
  transform_node_iter (suc f) n = name_of n >>= λ name. dispatch (transform_node_iter f) name n

  -- The constructor of `AST`: the root is taken to be the program.
  unfoldable pub transform : ℕ → Node → Result Program
  transform f n = transform_node_iter f n >>= as_program
