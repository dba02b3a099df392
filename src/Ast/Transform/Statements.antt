-- ===== src/Ast/Transform/Statements.antt =====
-- The branches of transform_node_iter (src/common/ast.cpp) for the statements. `rec` is the recursive
-- call.
use ustc_2021_compliers.Base.{[], some, none, Result, ok, ◌>>=◌, ◌==◌, if◌then◌else◌}
use ustc_2021_compliers.Tree.{Node, children_num}
use ustc_2021_compliers.Ast.{
  Expression, Statement, compound, expression_stmt, compound_stmt, selection_stmt,
  selection_else_stmt, iteration_stmt, return_stmt,
}
use ustc_2021_compliers.Ast.Node.{AstNode}
use ustc_2021_compliers.Ast.Transform.Walk.{
  child, flatten2, pop_all, statements_of, rec_var_declaration, rec_statement, rec_expression,
}

module _ (rec : Node → Result AstNode) where
  -- `s` holds the second children of the spine; the innermost node of it is not read.
  unfoldable pub transform_compound_stmt : Node → Result AstNode
  transform_compound_stmt n = do
    l ← child n 1
    ds ← pop_all (rec_var_declaration rec) (flatten2 l []).0
    t ← child n 2
    ss ← pop_all (rec_statement rec) (flatten2 t []).0
    ok (AstNode.statement (compound_stmt (compound ds (statements_of ss))))

  unfoldable pub transform_expression_stmt : Node → Result AstNode
  transform_expression_stmt n =
      if children_num n == 2
      then (do
        c ← child n 0
        e ← rec_expression rec c
        ok (AstNode.statement (expression_stmt (some e))))
      else ok (AstNode.statement (expression_stmt none))

  unfoldable pub else_branch : Expression → Statement → Node → Result AstNode
  else_branch e s n =
      if children_num n == 7
      then (do
        c ← child n 6
        f ← rec_statement rec c
        ok (AstNode.statement (selection_else_stmt e s f)))
      else ok (AstNode.statement (selection_stmt e s))

  unfoldable pub transform_selection_stmt : Node → Result AstNode
  unfolding else_branch
  transform_selection_stmt n = do
    c ← child n 2
    e ← rec_expression rec c
    b ← child n 4
    s ← rec_statement rec b
    else_branch e s n

  unfoldable pub transform_iteration_stmt : Node → Result AstNode
  transform_iteration_stmt n = do
    c ← child n 2
    e ← rec_expression rec c
    b ← child n 4
    s ← rec_statement rec b
    ok (AstNode.statement (iteration_stmt e s))

  unfoldable pub transform_return_stmt : Node → Result AstNode
  transform_return_stmt n =
      if children_num n == 3
      then (do
        c ← child n 1
        e ← rec_expression rec c
        ok (AstNode.statement (return_stmt (some e))))
      else ok (AstNode.statement (return_stmt none))
