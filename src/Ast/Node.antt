-- ===== src/Ast/Node.antt =====
-- An `ASTNode *` by the class of its object, and the casts that src/common/ast.cpp makes. A
-- `static_cast` to a class that the object is not of is undefined.
use ustc_2021_compliers.Base.{String, Result, ok, undefined}
use ustc_2021_compliers.Ast.{
  Num, Expression, Var, AdditiveExpression, Term, Factor, Expressions, Statement, CompoundStmt,
  VarDeclaration, Param, Declaration, Program,
}

pub data AstNode : Type 0 where
  program : Program → AstNode
  declaration : Declaration → AstNode
  param : Param → AstNode
  statement : Statement → AstNode
  expression : Expression → AstNode
  var : Var → AstNode
  additive_expression : AdditiveExpression → AstNode
  term : Term → AstNode
  num : Num → AstNode
  call : String → Expressions → AstNode

abbrev pub as_program : AstNode → Result Program
as_program (program p) = ok p
as_program _ = undefined

abbrev pub as_declaration : AstNode → Result Declaration
as_declaration (declaration d) = ok d
as_declaration _ = undefined

abbrev pub as_var_declaration : AstNode → Result VarDeclaration
as_var_declaration (declaration (Declaration.var_declaration d)) = ok d
as_var_declaration _ = undefined

abbrev pub as_param : AstNode → Result Param
as_param (param p) = ok p
as_param _ = undefined

abbrev pub as_statement : AstNode → Result Statement
as_statement (statement s) = ok s
as_statement _ = undefined

abbrev pub as_compound_stmt : AstNode → Result CompoundStmt
as_compound_stmt (statement (Statement.compound_stmt c)) = ok c
as_compound_stmt _ = undefined

abbrev pub as_expression : AstNode → Result Expression
as_expression (expression e) = ok e
as_expression _ = undefined

abbrev pub as_var : AstNode → Result Var
as_var (var v) = ok v
as_var _ = undefined

abbrev pub as_additive_expression : AstNode → Result AdditiveExpression
as_additive_expression (additive_expression a) = ok a
as_additive_expression _ = undefined

abbrev pub as_term : AstNode → Result Term
as_term (term t) = ok t
as_term _ = undefined

abbrev pub as_factor : AstNode → Result Factor
as_factor (num n) = ok (Factor.num n)
as_factor (expression e) = ok (Factor.expression e)
as_factor (var v) = ok (Factor.var v)
as_factor (call f es) = ok (Factor.call f es)
as_factor _ = undefined
