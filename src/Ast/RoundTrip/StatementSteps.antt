-- ===== src/Ast/RoundTrip/StatementSteps.antt =====
-- One step of transform_node_iter (src/common/ast.cpp) on the tree of each kind of statement and
-- declaration.
use ustc_2021_compliers.Base.{
  ℕ, String, true, false, Option, none, some, List, [], ◌∷◌, ◌≡◌, ◌≢◌, refl, ap, Result, ok, map,
  Bool,
}
use ustc_2021_compliers.Base.Int.{ℤ}
use ustc_2021_compliers.Tree.{Node, leaf, inner, IsShort}
use ustc_2021_compliers.Ast.{
  CminusType, type_int, type_float, type_void, Expression, Statement, Statements, compound,
  expression_stmt, compound_stmt, selection_stmt, selection_else_stmt, iteration_stmt, return_stmt,
  VarDeclaration, var_declaration,
}
use ustc_2021_compliers.Ast.Node.{AstNode}
use ustc_2021_compliers.Ast.Grammar.{
  expression_tree, declared_tree, var_declaration_tree, semicolon_tree, statement_tree,
  compound_tree, statement_trees, param_tree,
}
use ustc_2021_compliers.Ast.Fits.{FitsLength}
use ustc_2021_compliers.Ast.Transform.{dispatch}
use ustc_2021_compliers.Ast.Transform.Walk.{
  pop_all, statements_of, rec_var_declaration, rec_statement,
}
use ustc_2021_compliers.Ast.RoundTrip.Lists.{flatten2_all}

abbrev pub statement_list : Statements → List Statement
statement_list Statements.nil = []
statement_list (Statements.cons s ss) = s ∷ statement_list ss

pub statements_of-statement_list : (ss : Statements) → statements_of (statement_list ss) ≡ ss
statements_of-statement_list Statements.nil = refl
statements_of-statement_list (Statements.cons s ss) =
    ap (Statements.cons s) (statements_of-statement_list ss)

module _ (stoi : String → Result ℤ) (stof : String → Result ℕ) (show_int : ℤ → String)
    (show_float : ℕ → String) (rec : Node → Result AstNode) where
  abbrev step : String → Node → Result AstNode
  step = dispatch stoi stof rec

  abbrev tree_e : Expression → Node
  tree_e = expression_tree show_int show_float

  abbrev tree_s : Statement → Node
  tree_s = statement_tree show_int show_float

  pub step-statement : (n : Node) → step "statement" (inner "statement" (n ∷ [])) ≡ rec n
  unfolding dispatch
  step-statement n = refl

  pub step-declaration : (n : Node) → step "declaration" (inner "declaration" (n ∷ [])) ≡ rec n
  unfolding dispatch
  step-declaration n = refl

  pub step-var_declaration :
      (t : CminusType) (id : String) (num : Option ℤ)
      → t ≢ type_void
      → IsShort id
      → FitsLength stoi stof show_int show_float num
      → step "var-declaration" (declared_tree show_int show_float t id num)
        ≡ ok (AstNode.declaration (var_declaration (record { type = t; id = id; num = num })))
  unfolding dispatch
  step-var_declaration type_int id none v h l = simp h
  step-var_declaration type_int id (some z) v h l = simp (h, l.0, l.1)
  step-var_declaration type_float id none v h l = simp h
  step-var_declaration type_float id (some z) v h l = simp (h, l.0, l.1)
  step-var_declaration type_void id num v h l = absurd (v refl)

  pub step-param :
      (t : CminusType) (id : String) (isarray : Bool)
      → t ≢ type_void
      → IsShort id
      → step "param"
          (param_tree show_int show_float (record { type = t; id = id; isarray = isarray }))
        ≡ ok (AstNode.param (record { type = t; id = id; isarray = isarray }))
  unfolding dispatch
  step-param type_int id true v h = simp h
  step-param type_int id false v h = simp h
  step-param type_float id true v h = simp h
  step-param type_float id false v h = simp h
  step-param type_void id a v h = absurd (v refl)

  pub step-expression_stmt :
      (e : Expression)
      → rec (tree_e e) ≡ ok (AstNode.expression e)
      → step "expression-stmt" (semicolon_tree show_int show_float "expression-stmt" [] (some e))
        ≡ ok (AstNode.statement (expression_stmt (some e)))
  unfolding dispatch
  step-expression_stmt e p = simp p

  pub step-empty_stmt :
      step "expression-stmt" (semicolon_tree show_int show_float "expression-stmt" [] none)
      ≡ ok (AstNode.statement (expression_stmt none))
  unfolding dispatch
  step-empty_stmt = refl

  pub step-return :
      (e : Expression)
      → rec (tree_e e) ≡ ok (AstNode.expression e)
      → step "return-stmt"
          (semicolon_tree show_int show_float "return-stmt" (leaf "return" ∷ []) (some e))
        ≡ ok (AstNode.statement (return_stmt (some e)))
  unfolding dispatch
  step-return e p = simp p

  pub step-return_void :
      step "return-stmt"
        (semicolon_tree show_int show_float "return-stmt" (leaf "return" ∷ []) none)
      ≡ ok (AstNode.statement (return_stmt none))
  unfolding dispatch
  step-return_void = refl

  abbrev pub if_tree : Expression → Statement → Node
  if_tree e s = inner "selection-stmt" (leaf "if" ∷ leaf "(" ∷ tree_e e ∷ leaf ")" ∷ tree_s s ∷ [])

  abbrev pub if_else_tree : Expression → Statement → Statement → Node
  if_else_tree e s f =
      inner "selection-stmt"
        (leaf "if" ∷ leaf "(" ∷ tree_e e ∷ leaf ")" ∷ tree_s s ∷ leaf "else" ∷ tree_s f ∷ [])

  abbrev pub while_tree : Expression → Statement → Node
  while_tree e s =
      inner "iteration-stmt" (leaf "while" ∷ leaf "(" ∷ tree_e e ∷ leaf ")" ∷ tree_s s ∷ [])

  module _ (e : Expression) (s : Statement) (condition : rec (tree_e e) ≡ ok (AstNode.expression e))
      (body : rec (tree_s s) ≡ ok (AstNode.statement s)) where
    pub step-selection :
        step "selection-stmt" (if_tree e s) ≡ ok (AstNode.statement (selection_stmt e s))
    unfolding dispatch
    step-selection = simp (condition, body)

    pub step-selection_else :
        (f : Statement)
        → rec (tree_s f) ≡ ok (AstNode.statement f)
        → step "selection-stmt" (if_else_tree e s f)
          ≡ ok (AstNode.statement (selection_else_stmt e s f))
    unfolding dispatch
    step-selection_else f p = simp (condition, body, p)

    pub step-iteration :
        step "iteration-stmt" (while_tree e s) ≡ ok (AstNode.statement (iteration_stmt e s))
    unfolding dispatch
    step-iteration = simp (condition, body)

  pub step-compound :
      (ds : List VarDeclaration) (ss : Statements)
      → pop_all (rec_var_declaration rec) (map (var_declaration_tree show_int show_float) ds)
        ≡ ok ds
      → pop_all (rec_statement rec) (statement_trees show_int show_float ss)
        ≡ ok (statement_list ss)
      → step "compound-stmt" (compound_tree show_int show_float (compound ds ss))
        ≡ ok (AstNode.statement (compound_stmt (compound ds ss)))
  unfolding dispatch
  step-compound ds ss p q =
      let base : Node = inner "local-declarations" [] in
      let first : Node = inner "statement-list" [] in
      let ls : List Node = map (var_declaration_tree show_int show_float) ds in
      let ts : List Node = statement_trees show_int show_float ss in
      let a = flatten2_all "local-declarations" base ls (λ s. refl) in
      let b = flatten2_all "statement-list" first ts (λ s. refl) in
      simp (a, b) (simp (p, q, statements_of-statement_list ss))
