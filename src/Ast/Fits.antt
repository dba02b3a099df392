-- ===== src/Ast/Fits.antt =====
-- The programs of which the concrete syntax tree holds all: every name and every number fits the
-- array of struct _syntax_tree_node, and the library reads the number that a token's text shows.
use ustc_2021_compliers.Base.{All, ℕ, String, Option, none, some, ◌≡◌, ◌≢◌, Result, ok}
use ustc_2021_compliers.Base.Int.{ℤ}
use ustc_2021_compliers.Tree.{IsShort}
use ustc_2021_compliers.Ast.{
  type_void, Num, i_val, f_val, Expression, Var, AdditiveExpression, Term, Factor, Expressions,
  assign_expression, simple_expression, relation, scalar, element, single_term, sum, single_factor,
  product, Statement, Statements, CompoundStmt, compound, expression_stmt, compound_stmt,
  selection_stmt, selection_else_stmt, iteration_stmt, return_stmt, VarDeclaration, Param,
  Declaration, var_declaration, fun_declaration,
}

module _ (stoi : String → Result ℤ) (stof : String → Result ℕ) (show_int : ℤ → String)
    (show_float : ℕ → String) where
  abbrev pub FitsInt : ℤ → Type 0
  FitsInt z = IsShort (show_int z) × (stoi (show_int z) ≡ ok z)

  abbrev pub FitsNum : Num → Type 0
  FitsNum (i_val z) = FitsInt z
  FitsNum (f_val x) = IsShort (show_float x) × (stof (show_float x) ≡ ok x)

  abbrev mutual
    pub FitsExpression : Expression → Type 0
    FitsExpression (assign_expression v e) = FitsVar v × FitsExpression e
    FitsExpression (simple_expression a) = FitsAdditive a
    FitsExpression (relation a o b) = FitsAdditive a × FitsAdditive b

    pub FitsVar : Var → Type 0
    FitsVar (scalar id) = IsShort id
    FitsVar (element id e) = IsShort id × FitsExpression e

    pub FitsAdditive : AdditiveExpression → Type 0
    FitsAdditive (single_term t) = FitsTerm t
    FitsAdditive (sum a o t) = FitsAdditive a × FitsTerm t

    pub FitsTerm : Term → Type 0
    FitsTerm (single_factor f) = FitsFactor f
    FitsTerm (product t o f) = FitsTerm t × FitsFactor f

    pub FitsFactor : Factor → Type 0
    FitsFactor (Factor.num n) = FitsNum n
    FitsFactor (Factor.expression e) = FitsExpression e
    FitsFactor (Factor.var v) = FitsVar v
    FitsFactor (Factor.call id es) = IsShort id × FitsExpressions es

    pub FitsExpressions : Expressions → Type 0
    FitsExpressions Expressions.nil = Unit
    FitsExpressions (Expressions.cons e es) = FitsExpression e × FitsExpressions es

  abbrev pub FitsOptional : Option Expression → Type 0
  FitsOptional none = Unit
  FitsOptional (some e) = FitsExpression e

  abbrev pub FitsLength : Option ℤ → Type 0
  FitsLength none = Unit
  FitsLength (some z) = FitsInt z

  -- The tree forgets that a variable or a parameter is declared void.
  abbrev pub FitsVarDeclaration : VarDeclaration → Type 0
  FitsVarDeclaration d = (d.type ≢ type_void) × IsShort d.id × FitsLength d.num

  abbrev mutual
    pub FitsStatement : Statement → Type 0
    FitsStatement (expression_stmt e) = FitsOptional e
    FitsStatement (compound_stmt c) = FitsCompound c
    FitsStatement (selection_stmt e s) = FitsExpression e × FitsStatement s
    FitsStatement (selection_else_stmt e s f) = FitsExpression e × FitsStatement s × FitsStatement f
    FitsStatement (iteration_stmt e s) = FitsExpression e × FitsStatement s
    FitsStatement (return_stmt e) = FitsOptional e

    pub FitsCompound : CompoundStmt → Type 0
    FitsCompound (compound ds ss) = All FitsVarDeclaration ds × FitsStatements ss

    pub FitsStatements : Statements → Type 0
    FitsStatements Statements.nil = Unit
    FitsStatements (Statements.cons s ss) = FitsStatement s × FitsStatements ss

  abbrev pub FitsParam : Param → Type 0
  FitsParam p = (p.type ≢ type_void) × IsShort p.id

  abbrev pub FitsDeclaration : Declaration → Type 0
  FitsDeclaration (var_declaration d) = FitsVarDeclaration d
  FitsDeclaration (fun_declaration d) =
      IsShort d.id × All FitsParam d.params × FitsCompound d.compound_stmt
