-- ===== src/Ast/RoundTrip/Programs.antt =====
-- transform_node_iter (src/common/ast.cpp) on the trees of declarations and of a whole program.
use ustc_2021_compliers.Base.{
  All, ℕ, ◌-◌, ◌≤◌, String, List, [], ◌∷◌, ◌≡◌, ◌∙◌, refl, Result, ok, map, arith,
}
use ustc_2021_compliers.Base.Int.{ℤ}
use ustc_2021_compliers.Tree.{Node, leaf, inner, height, IsShort}
use ustc_2021_compliers.Ast.{
  CminusType, type_int, type_float, type_void, CompoundStmt, Param, Declaration, compound_stmt,
  var_declaration, fun_declaration,
}
use ustc_2021_compliers.Ast.Node.{AstNode}
use ustc_2021_compliers.Ast.Grammar.{
  type_specifier, param_tree, params_tree, compound_tree, declaration_tree, var_declaration_tree,
  program_tree,
}
use ustc_2021_compliers.Ast.Fits.{FitsParam, FitsDeclaration}
use ustc_2021_compliers.Ast.Transform.{dispatch, transform_node_iter, transform}
use ustc_2021_compliers.Ast.Transform.Walk.{name_of, pop_all, rec_param, rec_declaration}
use ustc_2021_compliers.Ast.RoundTrip.Lists.{
  children_num-comma_tree, heights, list_tree-Covers, comma_tree-Covers, flatten2_all, flatten3_all,
  transform_step,
}
use ustc_2021_compliers.Ast.RoundTrip.StatementSteps.{step-param, step-declaration}
use ustc_2021_compliers.Ast.RoundTrip.Statements.{run-compound, run-var_declaration}

module _ (stoi : String → Result ℤ) (stof : String → Result ℕ) (show_int : ℤ → String)
    (show_float : ℕ → String) where
  abbrev run : ℕ → Node → Result AstNode
  run = transform_node_iter stoi stof

  abbrev p_tree : Param → Node
  p_tree = param_tree show_int show_float

  abbrev d_tree : Declaration → Node
  d_tree = declaration_tree show_int show_float

  run-param :
      (p : Param) (f : ℕ)
      → FitsParam stoi stof show_int show_float p
      → height (p_tree p) ≤ f
      → run f (p_tree p) ≡ ok (AstNode.param p)
  run-param p f h l =
      transform_step stoi stof f (p_tree p) refl l
      ∙ step-param stoi stof show_int show_float (run (f - 1)) p.type p.id p.isarray h.0 h.1

  run-params :
      (ps : List Param) (f : ℕ)
      → All (FitsParam stoi stof show_int show_float) ps
      → heights (map p_tree ps) ≤ f
      → pop_all (rec_param (run f)) (map p_tree ps) ≡ ok ps
  run-params [] f h l = refl
  run-params (p ∷ ps) f h l =
      simp (run-param p f h.0 (omega arith), run-params ps f h.1 (omega arith))

  fun_tree : CminusType → String → List Param → CompoundStmt → Node
  fun_tree t id ps c = inner "fun-declaration" (
      type_specifier t
      ∷ leaf id
      ∷ leaf "("
      ∷ params_tree show_int show_float ps
      ∷ leaf ")"
      ∷ compound_tree show_int show_float c
      ∷ [])

  step-fun_declaration :
      (rec : Node → Result AstNode) (t : CminusType) (id : String) (ps : List Param)
      (c : CompoundStmt)
      → IsShort id
      → pop_all (rec_param rec) (map p_tree ps) ≡ ok ps
      → rec (compound_tree show_int show_float c) ≡ ok (AstNode.statement (compound_stmt c))
      → dispatch stoi stof rec "fun-declaration" (fun_tree t id ps c)
        ≡ ok (
            AstNode.declaration
              (fun_declaration (record { type = t; id = id; params = ps; compound_stmt = c })))
  unfolding dispatch fun_tree
  step-fun_declaration rec type_int id [] c h p q = simp (h, q)
  step-fun_declaration rec type_float id [] c h p q = simp (h, q)
  step-fun_declaration rec type_void id [] c h p q = simp (h, q)
  step-fun_declaration rec type_int id (x ∷ ps) c h p q =
      let acc : Node = inner "param-list" (p_tree x ∷ []) in
      let a = flatten3_all "param-list" acc (map p_tree ps) (λ s. refl) in
      let b = children_num-comma_tree "param-list" acc (map p_tree ps) refl in
      simp (h, a, b) (simp (p, q))
  step-fun_declaration rec type_float id (x ∷ ps) c h p q =
      let acc : Node = inner "param-list" (p_tree x ∷ []) in
      let a = flatten3_all "param-list" acc (map p_tree ps) (λ s. refl) in
      let b = children_num-comma_tree "param-list" acc (map p_tree ps) refl in
      simp (h, a, b) (simp (p, q))
  step-fun_declaration rec type_void id (x ∷ ps) c h p q =
      let acc : Node = inner "param-list" (p_tree x ∷ []) in
      let a = flatten3_all "param-list" acc (map p_tree ps) (λ s. refl) in
      let b = children_num-comma_tree "param-list" acc (map p_tree ps) refl in
      simp (h, a, b) (simp (p, q))

  name_of-declaration_tree : (d : Declaration) → name_of (d_tree d) ≡ ok "declaration"
  name_of-declaration_tree (var_declaration d) = refl
  name_of-declaration_tree (fun_declaration d) = refl

  heights-le-params :
      (ps : List Param) → heights (map p_tree ps) ≤ height (params_tree show_int show_float ps)
  heights-le-params [] = omega arith
  heights-le-params (p ∷ ps) =
      let acc : Node = inner "param-list" (p_tree p ∷ []) in
      omega (arith, comma_tree-Covers "param-list" acc (map p_tree ps))

  run-declaration :
      (d : Declaration) (f : ℕ)
      → FitsDeclaration stoi stof show_int show_float d
      → height (d_tree d) ≤ f
      → run f (d_tree d) ≡ ok (AstNode.declaration d)
  unfolding fun_tree
  run-declaration (var_declaration d) f h l =
      let n : Node = var_declaration_tree show_int show_float d in
      transform_step stoi stof f (d_tree (var_declaration d)) refl l
      ∙ step-declaration stoi stof show_int show_float (run (f - 1)) n
      ∙ run-var_declaration stoi stof show_int show_float d (f - 1) h (omega arith)
  run-declaration (fun_declaration d) f h l =
      let n : Node = fun_tree d.type d.id d.params d.compound_stmt in
      transform_step stoi stof f (d_tree (fun_declaration d)) refl l
      ∙ step-declaration stoi stof show_int show_float (run (f - 1)) n
      ∙ transform_step stoi stof (f - 1) n refl (omega arith)
      ∙ step-fun_declaration (run (f - 1 - 1)) d.type d.id d.params d.compound_stmt h.0
          (run-params d.params (f - 1 - 1) h.1 (omega (arith, heights-le-params d.params)))
          (run-compound stoi stof show_int show_float d.compound_stmt (f - 1 - 1) h.2 (omega arith))

  run-declarations :
      (ds : List Declaration) (f : ℕ)
      → All (FitsDeclaration stoi stof show_int show_float) ds
      → heights (map d_tree ds) ≤ f
      → pop_all (rec_declaration (run f)) (map d_tree ds) ≡ ok ds
  run-declarations [] f h l = refl
  run-declarations (d ∷ ds) f h l =
      simp (run-declaration d f h.0 (omega arith), run-declarations ds f h.1 (omega arith))

  step-program :
      (rec : Node → Result AstNode) (d : Declaration) (ds : List Declaration)
      → pop_all (rec_declaration rec) (d_tree d ∷ map d_tree ds) ≡ ok (d ∷ ds)
      → dispatch stoi stof rec "program" (program_tree show_int show_float d ds)
        ≡ ok (AstNode.program (d ∷ ds))
  unfolding dispatch program_tree
  step-program rec d ds p =
      let acc : Node = inner "declaration-list" (d_tree d ∷ []) in
      let a = flatten2_all "declaration-list" acc (map d_tree ds) (λ s. refl) in simp a (simp p)

-- Transforming the tree that the grammar's actions build for a program gives the program back: for
-- every non-empty list of declarations whose names and numbers fit a node and whose variables and
-- parameters are not void, with fuel for the height of the tree, `AST::AST` returns exactly these
-- declarations.
pub transform-program_tree :
    (stoi : String → Result ℤ) (stof : String → Result ℕ) (show_int : ℤ → String)
    (show_float : ℕ → String) (d : Declaration) (ds : List Declaration) (f : ℕ)
    → All (FitsDeclaration stoi stof show_int show_float) (d ∷ ds)
    → height (program_tree show_int show_float d ds) ≤ f
    → transform stoi stof f (program_tree show_int show_float d ds) ≡ ok (d ∷ ds)
unfolding transform program_tree
transform-program_tree stoi stof show_int show_float d ds f h l =
    let n : Node = program_tree show_int show_float d ds in
    let trees : List Node = map (declaration_tree show_int show_float) ds in
    let acc : Node = inner "declaration-list" (declaration_tree show_int show_float d ∷ []) in
    let c = list_tree-Covers "declaration-list" acc trees in
    let all =
      run-declarations stoi stof show_int show_float (d ∷ ds) (f - 1) h (omega (arith, c)) in
    rw (
      transform_step stoi stof f n refl l
      ∙ step-program stoi stof show_int show_float (transform_node_iter stoi stof (f - 1)) d ds all)
