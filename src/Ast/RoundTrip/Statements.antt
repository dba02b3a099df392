-- ===== src/Ast/RoundTrip/Statements.antt =====
-- transform_node_iter (src/common/ast.cpp) on the trees of statements, by induction on them.
use ustc_2021_compliers.Base.{
  All, ℕ, ◌-◌, ◌≤◌, String, Option, none, some, List, [], ◌∷◌, ◌≡◌, ◌∙◌, refl, Result, ok, map,
  arith,
}
use ustc_2021_compliers.Base.Int.{ℤ}
use ustc_2021_compliers.Tree.{Node, leaf, inner, height}
use ustc_2021_compliers.Ast.{
  CminusType, Statement, Statements, CompoundStmt, compound, expression_stmt, compound_stmt,
  selection_stmt, selection_else_stmt, iteration_stmt, return_stmt, VarDeclaration, var_declaration,
}
use ustc_2021_compliers.Ast.Node.{AstNode}
use ustc_2021_compliers.Ast.Grammar.{
  semicolon_tree, var_declaration_tree, statement_tree, compound_tree, statement_trees,
  declared_tree,
}
use ustc_2021_compliers.Ast.Fits.{FitsVarDeclaration, FitsStatement, FitsCompound, FitsStatements}
use ustc_2021_compliers.Ast.Transform.{transform_node_iter}
use ustc_2021_compliers.Ast.Transform.Walk.{name_of, pop_all, rec_var_declaration, rec_statement}
use ustc_2021_compliers.Ast.RoundTrip.Lists.{heights, list_tree-Covers, transform_step}
use ustc_2021_compliers.Ast.RoundTrip.Expressions.{run-expression}
use ustc_2021_compliers.Ast.RoundTrip.StatementSteps.{
  statement_list, step-statement, step-var_declaration, step-expression_stmt, step-empty_stmt,
  step-return, step-return_void, if_tree, if_else_tree, while_tree, step-selection,
  step-selection_else, step-iteration, step-compound,
}

module _ (stoi : String → Result ℤ) (stof : String → Result ℕ) (show_int : ℤ → String)
    (show_float : ℕ → String) where
  abbrev run : ℕ → Node → Result AstNode
  run = transform_node_iter stoi stof

  abbrev s_tree : Statement → Node
  s_tree = statement_tree show_int show_float

  abbrev c_tree : CompoundStmt → Node
  c_tree = compound_tree show_int show_float

  abbrev d_tree : VarDeclaration → Node
  d_tree = var_declaration_tree show_int show_float

  name_of-declared_tree :
      (t : CminusType) (id : String) (num : Option ℤ)
      → name_of (declared_tree show_int show_float t id num) ≡ ok "var-declaration"
  name_of-declared_tree t id none = refl
  name_of-declared_tree t id (some z) = refl

  pub run-var_declaration :
      (d : VarDeclaration) (f : ℕ)
      → FitsVarDeclaration stoi stof show_int show_float d
      → height (d_tree d) ≤ f
      → run f (d_tree d) ≡ ok (AstNode.declaration (var_declaration d))
  run-var_declaration d f h l =
      transform_step stoi stof f (d_tree d) (name_of-declared_tree d.type d.id d.num) l
      ∙ step-var_declaration stoi stof show_int show_float (run (f - 1)) d.type d.id d.num h.0 h.1
          h.2

  run-var_declarations :
      (ds : List VarDeclaration) (f : ℕ)
      → All (FitsVarDeclaration stoi stof show_int show_float) ds
      → heights (map d_tree ds) ≤ f
      → pop_all (rec_var_declaration (run f)) (map d_tree ds) ≡ ok ds
  run-var_declarations [] f h l = refl
  run-var_declarations (d ∷ ds) f h l =
      simp (run-var_declaration d f h.0 (omega arith), run-var_declarations ds f h.1 (omega arith))

  mutual
    pub run-statement :
        (s : Statement) (f : ℕ)
        → FitsStatement stoi stof show_int show_float s
        → height (s_tree s) ≤ f
        → run f (s_tree s) ≡ ok (AstNode.statement s)
    run-statement (expression_stmt none) f h l =
        let n : Node = semicolon_tree show_int show_float "expression-stmt" [] none in
        transform_step stoi stof f (s_tree (expression_stmt none)) refl l
        ∙ step-statement stoi stof show_int show_float (run (f - 1)) n
        ∙ transform_step stoi stof (f - 1) n refl (omega arith)
        ∙ step-empty_stmt stoi stof show_int show_float (run (f - 1 - 1))
    run-statement (expression_stmt (some e)) f h l =
        let n : Node = semicolon_tree show_int show_float "expression-stmt" [] (some e) in
        transform_step stoi stof f (s_tree (expression_stmt (some e))) refl l
        ∙ step-statement stoi stof show_int show_float (run (f - 1)) n
        ∙ transform_step stoi stof (f - 1) n refl (omega arith)
        ∙ step-expression_stmt stoi stof show_int show_float (run (f - 1 - 1)) e
            (run-expression stoi stof show_int show_float e (f - 1 - 1) h (omega arith))
    run-statement (compound_stmt c) f h l =
        transform_step stoi stof f (s_tree (compound_stmt c)) refl l
        ∙ step-statement stoi stof show_int show_float (run (f - 1)) (c_tree c)
        ∙ run-compound c (f - 1) h (omega arith)
    run-statement (selection_stmt e s) f h l =
        let n : Node = if_tree stoi stof show_int show_float (run f) e s in
        transform_step stoi stof f (s_tree (selection_stmt e s)) refl l
        ∙ step-statement stoi stof show_int show_float (run (f - 1)) n
        ∙ transform_step stoi stof (f - 1) n refl (omega arith)
        ∙ step-selection stoi stof show_int show_float (run (f - 1 - 1)) e s
            (run-expression stoi stof show_int show_float e (f - 1 - 1) h.0 (omega arith))
            (run-statement s (f - 1 - 1) h.1 (omega arith))
    run-statement (selection_else_stmt e s x) f h l =
        let n : Node = if_else_tree stoi stof show_int show_float (run f) e s x in
        transform_step stoi stof f (s_tree (selection_else_stmt e s x)) refl l
        ∙ step-statement stoi stof show_int show_float (run (f - 1)) n
        ∙ transform_step stoi stof (f - 1) n refl (omega arith)
        ∙ step-selection_else stoi stof show_int show_float (run (f - 1 - 1)) e s
            (run-expression stoi stof show_int show_float e (f - 1 - 1) h.0 (omega arith))
            (run-statement s (f - 1 - 1) h.1 (omega arith)) x
            (run-statement x (f - 1 - 1) h.2 (omega arith))
    run-statement (iteration_stmt e s) f h l =
        let n : Node = while_tree stoi stof show_int show_float (run f) e s in
        transform_step stoi stof f (s_tree (iteration_stmt e s)) refl l
        ∙ step-statement stoi stof show_int show_float (run (f - 1)) n
        ∙ transform_step stoi stof (f - 1) n refl (omega arith)
        ∙ step-iteration stoi stof show_int show_float (run (f - 1 - 1)) e s
            (run-expression stoi stof show_int show_float e (f - 1 - 1) h.0 (omega arith))
            (run-statement s (f - 1 - 1) h.1 (omega arith))
    run-statement (return_stmt none) f h l =
        let n : Node = semicolon_tree show_int show_float "return-stmt" (leaf "return" ∷ []) none in
        transform_step stoi stof f (s_tree (return_stmt none)) refl l
        ∙ step-statement stoi stof show_int show_float (run (f - 1)) n
        ∙ transform_step stoi stof (f - 1) n refl (omega arith)
        ∙ step-return_void stoi stof show_int show_float (run (f - 1 - 1))
    run-statement (return_stmt (some e)) f h l =
        let n : Node =
          semicolon_tree show_int show_float "return-stmt" (leaf "return" ∷ []) (some e) in
        transform_step stoi stof f (s_tree (return_stmt (some e))) refl l
        ∙ step-statement stoi stof show_int show_float (run (f - 1)) n
        ∙ transform_step stoi stof (f - 1) n refl (omega arith)
        ∙ step-return stoi stof show_int show_float (run (f - 1 - 1)) e
            (run-expression stoi stof show_int show_float e (f - 1 - 1) h (omega arith))

    pub run-compound :
        (c : CompoundStmt) (f : ℕ)
        → FitsCompound stoi stof show_int show_float c
        → height (c_tree c) ≤ f
        → run f (c_tree c) ≡ ok (AstNode.statement (compound_stmt c))
    run-compound (compound ds ss) f h l =
        let ls : List Node = map d_tree ds in
        let ts : List Node = statement_trees show_int show_float ss in
        let a = list_tree-Covers "local-declarations" (inner "local-declarations" []) ls in
        let b = list_tree-Covers "statement-list" (inner "statement-list" []) ts in
        transform_step stoi stof f (c_tree (compound ds ss)) refl l
        ∙ step-compound stoi stof show_int show_float (run (f - 1)) ds ss
            (run-var_declarations ds (f - 1) h.0 (omega (arith, a)))
            (run-statements ss (f - 1) h.1 (omega (arith, b)))

    run-statements :
        (ss : Statements) (f : ℕ)
        → FitsStatements stoi stof show_int show_float ss
        → heights (statement_trees show_int show_float ss) ≤ f
        → pop_all (rec_statement (run f)) (statement_trees show_int show_float ss)
          ≡ ok (statement_list ss)
    run-statements Statements.nil f h l = refl
    run-statements (Statements.cons s ss) f h l =
        simp (run-statement s f h.0 (omega arith), run-statements ss f h.1 (omega arith))
