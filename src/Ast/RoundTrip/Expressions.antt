-- ===== src/Ast/RoundTrip/Expressions.antt =====
-- transform_node_iter (src/common/ast.cpp) on the trees of expressions, by induction on them.
use ustc_2021_compliers.Base.{ℕ, ◌-◌, ◌≤◌, String, List, [], ◌∷◌, ◌≡◌, ◌∙◌, refl, Result, ok, arith}
use ustc_2021_compliers.Base.Int.{ℤ}
use ustc_2021_compliers.Tree.{Node, leaf, inner, height}
use ustc_2021_compliers.Ast.{
  RelOp, i_val, f_val, Expression, Var, AdditiveExpression, Term, Factor, Expressions,
  assign_expression, simple_expression, relation, scalar, element, single_term, sum, single_factor,
  product,
}
use ustc_2021_compliers.Ast.Node.{AstNode}
use ustc_2021_compliers.Ast.Grammar.{
  relop, expression_tree, var_tree, additive_tree, term_tree, factor_tree, args_trees,
  expression_trees,
}
use ustc_2021_compliers.Ast.Fits.{
  FitsExpression, FitsVar, FitsAdditive, FitsTerm, FitsFactor, FitsExpressions,
}
use ustc_2021_compliers.Ast.Transform.{transform_node_iter}
use ustc_2021_compliers.Ast.Transform.Walk.{pop_all, rec_expression}
use ustc_2021_compliers.Ast.RoundTrip.Lists.{heights, comma_tree-Covers, transform_step}
use ustc_2021_compliers.Ast.RoundTrip.Steps.{
  list_of, factor_node, step-assign, step-expression, step-simple, step-relation, step-scalar,
  step-element, step-single_term, step-sum, step-single_factor, step-product, step-int, step-float,
  step-parenthesis, step-factor_var, step-factor_call, step-call, call_tree,
}

module _ (stoi : String → Result ℤ) (stof : String → Result ℕ) (show_int : ℤ → String)
    (show_float : ℕ → String) where
  abbrev run : ℕ → Node → Result AstNode
  run = transform_node_iter stoi stof

  abbrev e_tree : Expression → Node
  e_tree = expression_tree show_int show_float

  abbrev v_tree : Var → Node
  v_tree = var_tree show_int show_float

  abbrev a_tree : AdditiveExpression → Node
  a_tree = additive_tree show_int show_float

  abbrev t_tree : Term → Node
  t_tree = term_tree show_int show_float

  abbrev f_tree : Factor → Node
  f_tree = factor_tree show_int show_float

  abbrev es_trees : Expressions → List Node
  es_trees = expression_trees show_int show_float

  -- The inner node of an expression that assigns nothing.
  abbrev simple_tree : AdditiveExpression → Node
  simple_tree a = inner "simple-expression" (a_tree a ∷ [])

  abbrev relation_tree : AdditiveExpression → RelOp → AdditiveExpression → Node
  relation_tree a o b =
      inner "simple-expression" (a_tree a ∷ inner "relop" (leaf (relop o) ∷ []) ∷ a_tree b ∷ [])

  args_tree : Expressions → Node
  args_tree es = inner "args" (args_trees show_int show_float es)

  heights-le-args : (es : Expressions) → heights (es_trees es) ≤ height (args_tree es)
  unfolding args_tree
  heights-le-args Expressions.nil = omega arith
  heights-le-args (Expressions.cons e es) =
      omega (arith, comma_tree-Covers "arg-list" (inner "arg-list" (e_tree e ∷ [])) (es_trees es))

  mutual
    unfolding args_tree

    pub run-expression :
        (e : Expression) (f : ℕ)
        → FitsExpression stoi stof show_int show_float e
        → height (e_tree e) ≤ f
        → run f (e_tree e) ≡ ok (AstNode.expression e)
    run-expression (assign_expression v e) f h l =
        transform_step stoi stof f (e_tree (assign_expression v e)) refl l
        ∙ step-assign stoi stof show_int show_float (run (f - 1)) v e
            (run-var v (f - 1) h.0 (omega arith)) (run-expression e (f - 1) h.1 (omega arith))
    run-expression (simple_expression a) f h l =
        transform_step stoi stof f (e_tree (simple_expression a)) refl l
        ∙ step-expression stoi stof show_int show_float (run (f - 1)) (simple_tree a)
        ∙ transform_step stoi stof (f - 1) (simple_tree a) refl (omega arith)
        ∙ step-simple stoi stof show_int show_float (run (f - 1 - 1)) a
            (run-additive a (f - 1 - 1) h (omega arith))
    run-expression (relation a o b) f h l =
        transform_step stoi stof f (e_tree (relation a o b)) refl l
        ∙ step-expression stoi stof show_int show_float (run (f - 1)) (relation_tree a o b)
        ∙ transform_step stoi stof (f - 1) (relation_tree a o b) refl (omega arith)
        ∙ step-relation stoi stof show_int show_float (run (f - 1 - 1)) a o b
            (run-additive a (f - 1 - 1) h.0 (omega arith))
            (run-additive b (f - 1 - 1) h.1 (omega arith))

    pub run-var :
        (v : Var) (f : ℕ)
        → FitsVar stoi stof show_int show_float v
        → height (v_tree v) ≤ f
        → run f (v_tree v) ≡ ok (AstNode.var v)
    run-var (scalar id) f h l =
        transform_step stoi stof f (v_tree (scalar id)) refl l
        ∙ step-scalar stoi stof show_int show_float (run (f - 1)) id h
    run-var (element id e) f h l =
        transform_step stoi stof f (v_tree (element id e)) refl l
        ∙ step-element stoi stof show_int show_float (run (f - 1)) id e h.0
            (run-expression e (f - 1) h.1 (omega arith))

    pub run-additive :
        (a : AdditiveExpression) (f : ℕ)
        → FitsAdditive stoi stof show_int show_float a
        → height (a_tree a) ≤ f
        → run f (a_tree a) ≡ ok (AstNode.additive_expression a)
    run-additive (single_term t) f h l =
        transform_step stoi stof f (a_tree (single_term t)) refl l
        ∙ step-single_term stoi stof show_int show_float (run (f - 1)) t
            (run-term t (f - 1) h (omega arith))
    run-additive (sum a o t) f h l =
        transform_step stoi stof f (a_tree (sum a o t)) refl l
        ∙ step-sum stoi stof show_int show_float (run (f - 1)) a o t
            (run-additive a (f - 1) h.0 (omega arith)) (run-term t (f - 1) h.1 (omega arith))

    pub run-term :
        (t : Term) (f : ℕ)
        → FitsTerm stoi stof show_int show_float t
        → height (t_tree t) ≤ f
        → run f (t_tree t) ≡ ok (AstNode.term t)
    run-term (single_factor x) f h l =
        transform_step stoi stof f (t_tree (single_factor x)) refl l
        ∙ step-single_factor stoi stof show_int show_float (run (f - 1)) x
            (run-factor x (f - 1) h (omega arith))
    run-term (product t o x) f h l =
        transform_step stoi stof f (t_tree (product t o x)) refl l
        ∙ step-product stoi stof show_int show_float (run (f - 1)) t o x
            (run-term t (f - 1) h.0 (omega arith)) (run-factor x (f - 1) h.1 (omega arith))

    pub run-factor :
        (x : Factor) (f : ℕ)
        → FitsFactor stoi stof show_int show_float x
        → height (f_tree x) ≤ f
        → run f (f_tree x) ≡ ok (factor_node stoi stof show_int show_float x)
    run-factor (Factor.num (i_val z)) f h l =
        transform_step stoi stof f (f_tree (Factor.num (i_val z))) refl l
        ∙ step-int stoi stof show_int show_float (run (f - 1)) z h
    run-factor (Factor.num (f_val x)) f h l =
        transform_step stoi stof f (f_tree (Factor.num (f_val x))) refl l
        ∙ step-float stoi stof show_int show_float (run (f - 1)) x h
    run-factor (Factor.expression e) f h l =
        transform_step stoi stof f (f_tree (Factor.expression e)) refl l
        ∙ step-parenthesis stoi stof show_int show_float (run (f - 1)) e
        ∙ run-expression e (f - 1) h (omega arith)
    run-factor (Factor.var v) f h l =
        transform_step stoi stof f (f_tree (Factor.var v)) refl l
        ∙ step-factor_var stoi stof show_int show_float (run (f - 1)) v
        ∙ run-var v (f - 1) h (omega arith)
    run-factor (Factor.call id es) f h l =
        let n : Node = call_tree stoi stof show_int show_float (run (f - 1)) id es in
        transform_step stoi stof f (f_tree (Factor.call id es)) refl l
        ∙ step-factor_call stoi stof show_int show_float (run (f - 1)) id es
        ∙ transform_step stoi stof (f - 1) n refl (omega arith)
        ∙ step-call stoi stof show_int show_float (run (f - 1 - 1)) id es h.0
            (run-expressions es (f - 1 - 1) h.1 (omega (arith, heights-le-args es)))

    pub run-expressions :
        (es : Expressions) (f : ℕ)
        → FitsExpressions stoi stof show_int show_float es
        → heights (es_trees es) ≤ f
        → pop_all (rec_expression (run f)) (es_trees es) ≡ ok (list_of es)
    run-expressions Expressions.nil f h l = refl
    run-expressions (Expressions.cons e es) f h l =
        simp (run-expression e f h.0 (omega arith), run-expressions es f h.1 (omega arith))
