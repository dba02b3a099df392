-- ===== src/Ast/Grammar.antt =====
-- The semantic actions of src/parser/syntax_analyzer.y: the tree that the parser builds for the
-- text of a program, by the rule that each node of the AST comes from. Tokens are leaves named by
-- their text; `show_int` and `show_float` are the texts of the number tokens.
use ustc_2021_compliers.Base.{
  ℕ, String, some, none, Option, List, [], ◌∷◌, ◌++◌, map, if◌then◌else◌,
}
use ustc_2021_compliers.Base.Int.{ℤ}
use ustc_2021_compliers.Tree.{Node, leaf, inner}
use ustc_2021_compliers.Ast.{
  CminusType, type_int, type_float, type_void, RelOp, op_le, op_lt, op_gt, op_ge, op_eq, op_neq,
  AddOp, op_plus, op_minus, MulOp, op_mul, op_div, Num, i_val, f_val, Expression, Var,
  AdditiveExpression, Term, Factor, Expressions, assign_expression, simple_expression, relation,
  scalar, element, single_term, sum, single_factor, product, Statement, Statements, CompoundStmt,
  compound, expression_stmt, compound_stmt, selection_stmt, selection_else_stmt, iteration_stmt,
  return_stmt, VarDeclaration, Param, Declaration, var_declaration, fun_declaration,
}

abbrev pub relop : RelOp → String
relop op_le = "<="
relop op_lt = "<"
relop op_gt = ">"
relop op_ge = ">="
relop op_eq = "=="
relop op_neq = "!="

abbrev pub addop : AddOp → String
addop op_plus = "+"
addop op_minus = "-"

abbrev pub mulop : MulOp → String
mulop op_mul = "*"
mulop op_div = "/"

abbrev pub type_specifier : CminusType → Node
type_specifier type_int = inner "type-specifier" (leaf "int" ∷ [])
type_specifier type_float = inner "type-specifier" (leaf "float" ∷ [])
type_specifier type_void = inner "type-specifier" (leaf "void" ∷ [])

-- A left-recursive list: `acc` is the node of the items before.
abbrev pub list_tree : String → Node → List Node → Node
list_tree rule acc [] = acc
list_tree rule acc (x ∷ xs) = list_tree rule (inner rule (acc ∷ x ∷ [])) xs

abbrev pub comma_tree : String → Node → List Node → Node
comma_tree rule acc [] = acc
comma_tree rule acc (x ∷ xs) = comma_tree rule (inner rule (acc ∷ leaf "," ∷ x ∷ [])) xs

module _ (show_int : ℤ → String) (show_float : ℕ → String) where
  abbrev pub num_tree : Num → Node
  num_tree (i_val z) = inner "integer" (leaf (show_int z) ∷ [])
  num_tree (f_val x) = inner "float" (leaf (show_float x) ∷ [])

  abbrev mutual
    pub expression_tree : Expression → Node
    expression_tree (assign_expression v e) =
        inner "expression" (var_tree v ∷ leaf "=" ∷ expression_tree e ∷ [])
    expression_tree (simple_expression a) =
        inner "expression" (inner "simple-expression" (additive_tree a ∷ []) ∷ [])
    expression_tree (relation a o b) = inner "expression" (
        inner "simple-expression"
          (additive_tree a ∷ inner "relop" (leaf (relop o) ∷ []) ∷ additive_tree b ∷ [])
        ∷ [])

    pub var_tree : Var → Node
    var_tree (scalar id) = inner "var" (leaf id ∷ [])
    var_tree (element id e) = inner "var" (leaf id ∷ leaf "[" ∷ expression_tree e ∷ leaf "]" ∷ [])

    pub additive_tree : AdditiveExpression → Node
    additive_tree (single_term t) = inner "additive-expression" (term_tree t ∷ [])
    additive_tree (sum a o t) =
        inner "additive-expression"
          (additive_tree a ∷ inner "addop" (leaf (addop o) ∷ []) ∷ term_tree t ∷ [])

    pub term_tree : Term → Node
    term_tree (single_factor f) = inner "term" (factor_tree f ∷ [])
    term_tree (product t o f) =
        inner "term" (term_tree t ∷ inner "mulop" (leaf (mulop o) ∷ []) ∷ factor_tree f ∷ [])

    pub factor_tree : Factor → Node
    factor_tree (Factor.num n) = inner "factor" (num_tree n ∷ [])
    factor_tree (Factor.expression e) =
        inner "factor" (leaf "(" ∷ expression_tree e ∷ leaf ")" ∷ [])
    factor_tree (Factor.var v) = inner "factor" (var_tree v ∷ [])
    factor_tree (Factor.call id es) =
        inner "factor"
          (inner "call" (leaf id ∷ leaf "(" ∷ inner "args" (args_trees es) ∷ leaf ")" ∷ []) ∷ [])

    pub args_trees : Expressions → List Node
    args_trees Expressions.nil = []
    args_trees (Expressions.cons e es) =
        comma_tree "arg-list" (inner "arg-list" (expression_tree e ∷ [])) (expression_trees es) ∷ []

    pub expression_trees : Expressions → List Node
    expression_trees Expressions.nil = []
    expression_trees (Expressions.cons e es) = expression_tree e ∷ expression_trees es

  abbrev pub declared_tree : CminusType → String → Option ℤ → Node
  declared_tree t id none = inner "var-declaration" (type_specifier t ∷ leaf id ∷ leaf ";" ∷ [])
  declared_tree t id (some n) =
      inner "var-declaration"
        (type_specifier t ∷ leaf id ∷ leaf "[" ∷ leaf (show_int n) ∷ leaf "]" ∷ leaf ";" ∷ [])

  abbrev pub var_declaration_tree : VarDeclaration → Node
  var_declaration_tree d = declared_tree d.type d.id d.num

  abbrev pub semicolon_tree : String → List Node → Option Expression → Node
  semicolon_tree rule before none = inner rule (before ++ leaf ";" ∷ [])
  semicolon_tree rule before (some e) = inner rule (before ++ expression_tree e ∷ leaf ";" ∷ [])

  abbrev mutual
    pub statement_tree : Statement → Node
    statement_tree (expression_stmt e) =
        inner "statement" (semicolon_tree "expression-stmt" [] e ∷ [])
    statement_tree (compound_stmt c) = inner "statement" (compound_tree c ∷ [])
    statement_tree (selection_stmt e s) = inner "statement" (
        inner "selection-stmt"
          (leaf "if" ∷ leaf "(" ∷ expression_tree e ∷ leaf ")" ∷ statement_tree s ∷ [])
        ∷ [])
    statement_tree (selection_else_stmt e s f) = inner "statement" (
        inner "selection-stmt" (
          leaf "if"
          ∷ leaf "("
          ∷ expression_tree e
          ∷ leaf ")"
          ∷ statement_tree s
          ∷ leaf "else"
          ∷ statement_tree f
          ∷ [])
        ∷ [])
    statement_tree (iteration_stmt e s) = inner "statement" (
        inner "iteration-stmt"
          (leaf "while" ∷ leaf "(" ∷ expression_tree e ∷ leaf ")" ∷ statement_tree s ∷ [])
        ∷ [])
    statement_tree (return_stmt e) =
        inner "statement" (semicolon_tree "return-stmt" (leaf "return" ∷ []) e ∷ [])

    pub compound_tree : CompoundStmt → Node
    compound_tree (compound ds ss) = inner "compound-stmt" (
        leaf "{"
        ∷ list_tree "local-declarations" (inner "local-declarations" [])
            (map var_declaration_tree ds)
        ∷ list_tree "statement-list" (inner "statement-list" []) (statement_trees ss)
        ∷ leaf "}"
        ∷ [])

    pub statement_trees : Statements → List Node
    statement_trees Statements.nil = []
    statement_trees (Statements.cons s ss) = statement_tree s ∷ statement_trees ss

  abbrev pub param_tree : Param → Node
  param_tree p =
      inner "param"
        (type_specifier p.type ∷ leaf p.id ∷ (if p.isarray then leaf "[" ∷ leaf "]" ∷ [] else []))

  abbrev pub params_tree : List Param → Node
  params_tree [] = inner "params" (leaf "void" ∷ [])
  params_tree (p ∷ ps) =
      inner "params"
        (comma_tree "param-list" (inner "param-list" (param_tree p ∷ [])) (map param_tree ps) ∷ [])

  abbrev pub declaration_tree : Declaration → Node
  declaration_tree (var_declaration d) = inner "declaration" (var_declaration_tree d ∷ [])
  declaration_tree (fun_declaration d) = inner "declaration" (
      inner "fun-declaration" (
        type_specifier d.type
        ∷ leaf d.id
        ∷ leaf "("
        ∷ params_tree d.params
        ∷ leaf ")"
        ∷ compound_tree d.compound_stmt
        ∷ [])
      ∷ [])

  -- A program has at least one declaration.
  unfoldable pub program_tree : Declaration → List Declaration → Node
  program_tree d ds = inner "program" (
      list_tree "declaration-list" (inner "declaration-list" (declaration_tree d ∷ []))
        (map declaration_tree ds)
      ∷ [])
