-- ===== src/Ast/RoundTrip/Steps.antt =====
-- One step of transform_node_iter (src/common/ast.cpp) on the tree of each kind of expression.
use ustc_2021_compliers.Base.{ℕ, String, List, [], ◌∷◌, ◌≡◌, refl, ap, Result, ok}
use ustc_2021_compliers.Base.Int.{ℤ}
use ustc_2021_compliers.Tree.{Node, leaf, inner, IsShort}
use ustc_2021_compliers.Ast.{
  RelOp, op_le, op_lt, op_gt, op_ge, op_eq, op_neq, AddOp, op_plus, op_minus, MulOp, op_mul, op_div,
  i_val, f_val, Expression, Var, AdditiveExpression, Term, Factor, Expressions, assign_expression,
  simple_expression, relation, scalar, element, single_term, sum, single_factor, product,
}
use ustc_2021_compliers.Ast.Node.{AstNode}
use ustc_2021_compliers.Ast.Grammar.{
  relop, expression_tree, var_tree, additive_tree, term_tree, factor_tree, args_trees,
  expression_trees,
}
use ustc_2021_compliers.Ast.Fits.{FitsNum}
use ustc_2021_compliers.Ast.Transform.{dispatch}
use ustc_2021_compliers.Ast.Transform.Walk.{rel_op, pop_all, rec_expression, expressions_of}
use ustc_2021_compliers.Ast.RoundTrip.Lists.{name_of-comma_tree, flatten3_all}

relop-IsShort : (o : RelOp) → IsShort (relop o)
relop-IsShort op_le = refl
relop-IsShort op_lt = refl
relop-IsShort op_gt = refl
relop-IsShort op_ge = refl
relop-IsShort op_eq = refl
relop-IsShort op_neq = refl

rel_op-relop : (o : RelOp) → rel_op (relop o) ≡ o
rel_op-relop op_le = refl
rel_op-relop op_lt = refl
rel_op-relop op_gt = refl
rel_op-relop op_ge = refl
rel_op-relop op_eq = refl
rel_op-relop op_neq = refl

abbrev pub list_of : Expressions → List Expression
list_of Expressions.nil = []
list_of (Expressions.cons e es) = e ∷ list_of es

pub expressions_of-list_of : (es : Expressions) → expressions_of (list_of es) ≡ es
expressions_of-list_of Expressions.nil = refl
expressions_of-list_of (Expressions.cons e es) = ap (Expressions.cons e) (expressions_of-list_of es)

module _ (stoi : String → Result ℤ) (stof : String → Result ℕ) (show_int : ℤ → String)
    (show_float : ℕ → String) where
  abbrev pub tree_e : Expression → Node
  tree_e = expression_tree show_int show_float

  abbrev pub tree_v : Var → Node
  tree_v = var_tree show_int show_float

  abbrev pub tree_a : AdditiveExpression → Node
  tree_a = additive_tree show_int show_float

  abbrev pub tree_t : Term → Node
  tree_t = term_tree show_int show_float

  abbrev pub tree_f : Factor → Node
  tree_f = factor_tree show_int show_float

  -- What each factor's node becomes.
  abbrev pub factor_node : Factor → AstNode
  factor_node (Factor.num n) = AstNode.num n
  factor_node (Factor.expression e) = AstNode.expression e
  factor_node (Factor.var v) = AstNode.var v
  factor_node (Factor.call f es) = AstNode.call f es

  -- One step, for any recursive call that is right on the parts.
  module _ (rec : Node → Result AstNode) where
    abbrev pub step : String → Node → Result AstNode
    step = dispatch stoi stof rec

    pub step-assign :
        (v : Var) (e : Expression)
        → rec (tree_v v) ≡ ok (AstNode.var v)
        → rec (tree_e e) ≡ ok (AstNode.expression e)
        → step "expression" (tree_e (assign_expression v e))
          ≡ ok (AstNode.expression (assign_expression v e))
    unfolding dispatch
    step-assign v e p q = simp (p, q)

    pub step-expression : (n : Node) → step "expression" (inner "expression" (n ∷ [])) ≡ rec n
    unfolding dispatch
    step-expression n = refl

    pub step-simple :
        (a : AdditiveExpression)
        → rec (tree_a a) ≡ ok (AstNode.additive_expression a)
        → step "simple-expression" (inner "simple-expression" (tree_a a ∷ []))
          ≡ ok (AstNode.expression (simple_expression a))
    unfolding dispatch
    step-simple a p = simp p

    pub step-relation :
        (a : AdditiveExpression) (o : RelOp) (b : AdditiveExpression)
        → rec (tree_a a) ≡ ok (AstNode.additive_expression a)
        → rec (tree_a b) ≡ ok (AstNode.additive_expression b)
        → step "simple-expression" (
            inner "simple-expression"
              (tree_a a ∷ inner "relop" (leaf (relop o) ∷ []) ∷ tree_a b ∷ []))
          ≡ ok (AstNode.expression (relation a o b))
    unfolding dispatch
    step-relation a o b p q = simp (p, q, relop-IsShort o, rel_op-relop o)

    pub step-scalar :
        (id : String) → IsShort id → step "var" (tree_v (scalar id)) ≡ ok (AstNode.var (scalar id))
    unfolding dispatch
    step-scalar id h = simp h

    pub step-element :
        (id : String) (e : Expression)
        → IsShort id
        → rec (tree_e e) ≡ ok (AstNode.expression e)
        → step "var" (tree_v (element id e)) ≡ ok (AstNode.var (element id e))
    unfolding dispatch
    step-element id e h p = simp (h, p)

    pub step-single_term :
        (t : Term)
        → rec (tree_t t) ≡ ok (AstNode.term t)
        → step "additive-expression" (tree_a (single_term t))
          ≡ ok (AstNode.additive_expression (single_term t))
    unfolding dispatch
    step-single_term t p = simp p

    pub step-sum :
        (a : AdditiveExpression) (o : AddOp) (t : Term)
        → rec (tree_a a) ≡ ok (AstNode.additive_expression a)
        → rec (tree_t t) ≡ ok (AstNode.term t)
        → step "additive-expression" (tree_a (sum a o t))
          ≡ ok (AstNode.additive_expression (sum a o t))
    unfolding dispatch
    step-sum a op_plus t p q = simp (p, q)
    step-sum a op_minus t p q = simp (p, q)

    pub step-single_factor :
        (x : Factor)
        → rec (tree_f x) ≡ ok (factor_node x)
        → step "term" (tree_t (single_factor x)) ≡ ok (AstNode.term (single_factor x))
    unfolding dispatch
    step-single_factor (Factor.num n) p = simp p
    step-single_factor _ p = simp p

    pub step-product :
        (t : Term) (o : MulOp) (x : Factor)
        → rec (tree_t t) ≡ ok (AstNode.term t)
        → rec (tree_f x) ≡ ok (factor_node x)
        → step "term" (tree_t (product t o x)) ≡ ok (AstNode.term (product t o x))
    unfolding dispatch
    step-product t op_mul (Factor.num n) p q = simp (p, q)
    step-product t op_mul _ p q = simp (p, q)
    step-product t op_div (Factor.num n) p q = simp (p, q)
    step-product t op_div _ p q = simp (p, q)

    pub step-int :
        (z : ℤ)
        → FitsNum stoi stof show_int show_float (i_val z)
        → step "factor" (tree_f (Factor.num (i_val z))) ≡ ok (AstNode.num (i_val z))
    unfolding dispatch
    step-int z h = simp (h.0, h.1)

    pub step-float :
        (x : ℕ)
        → FitsNum stoi stof show_int show_float (f_val x)
        → step "factor" (tree_f (Factor.num (f_val x))) ≡ ok (AstNode.num (f_val x))
    unfolding dispatch
    step-float x h = simp (h.0, h.1)

    pub step-parenthesis :
        (e : Expression) → step "factor" (tree_f (Factor.expression e)) ≡ rec (tree_e e)
    unfolding dispatch
    step-parenthesis (assign_expression v e) = refl
    step-parenthesis _ = refl

    pub step-factor_var : (v : Var) → step "factor" (tree_f (Factor.var v)) ≡ rec (tree_v v)
    unfolding dispatch
    step-factor_var (scalar id) = refl
    step-factor_var _ = refl

    abbrev pub call_tree : String → Expressions → Node
    call_tree id es =
        inner "call"
          (leaf id ∷ leaf "(" ∷ inner "args" (args_trees show_int show_float es) ∷ leaf ")" ∷ [])

    pub step-factor_call :
        (id : String) (es : Expressions)
        → step "factor" (tree_f (Factor.call id es)) ≡ rec (call_tree id es)
    unfolding dispatch
    step-factor_call id es = refl

    pub step-call :
        (id : String) (es : Expressions)
        → IsShort id
        → pop_all (rec_expression rec) (expression_trees show_int show_float es) ≡ ok (list_of es)
        → step "call" (call_tree id es) ≡ ok (AstNode.call id es)
    unfolding dispatch
    step-call id Expressions.nil h p = simp h
    step-call id (Expressions.cons e es) h p =
        let acc : Node = inner "arg-list" (tree_e e ∷ []) in
        let xs : List Node = expression_trees show_int show_float es in
        let q = flatten3_all "arg-list" acc xs (λ s. refl) in
        simp (h, name_of-comma_tree acc xs refl, q)
          (simp p
            (ap (λ a. ok (AstNode.call id (Expressions.cons e a))) (expressions_of-list_of es)))
