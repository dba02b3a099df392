-- ===== src/Ast/Transform/Expressions.antt =====
-- The branches of transform_node_iter (src/common/ast.cpp) for the expressions. `rec` is the
-- recursive call; `std::stoi` and `std::stof` are parameters, and a float is its bit pattern.
use text.Mathlib.Text.{◌==◌ as str_eq}
use ustc_2021_compliers.Base.{
  ℕ, String, List, [], ◌∷◌, Result, ok, abort, ◌>>=◌, ◌==◌, ◌||◌, if◌then◌else◌,
}
use ustc_2021_compliers.Base.Int.{ℤ}
use ustc_2021_compliers.Tree.{Node, children_num}
use ustc_2021_compliers.Ast.{
  Expression, i_val, f_val, assign_expression, simple_expression, relation, scalar, element,
  single_term, sum, single_factor, product,
}
use ustc_2021_compliers.Ast.Node.{AstNode, as_var, as_additive_expression, as_term, as_factor}
use ustc_2021_compliers.Ast.Transform.Walk.{
  name_of, child, flatten3, pop_all, expressions_of, rel_op, add_op, mul_op, operator_name,
  rec_expression, transform_only_child,
}

literal_text : Node → Result String
literal_text c = do t ← child c 0; name_of t

transform_integer : (String → Result ℤ) → Node → Result AstNode
unfolding literal_text
transform_integer stoi c = do text ← literal_text c; z ← stoi text; ok (AstNode.num (i_val z))

transform_float : (String → Result ℕ) → Node → Result AstNode
unfolding literal_text
transform_float stof c = do text ← literal_text c; x ← stof text; ok (AstNode.num (f_val x))

module _ (rec : Node → Result AstNode) where
  unfoldable pub transform_expression : Node → Result AstNode
  unfolding transform_only_child
  transform_expression n = if children_num n == 1 then transform_only_child rec n else (do
    c ← child n 0
    a ← rec c
    v ← as_var a
    d ← child n 2
    e ← rec_expression rec d
    ok (AstNode.expression (assign_expression v e)))

  unfoldable pub transform_var : Node → Result AstNode
  transform_var n = do
    i ← child n 0
    id ← name_of i
    if children_num n == 4
        then (do c ← child n 2; e ← rec_expression rec c; ok (AstNode.var (element id e)))
        else ok (AstNode.var (scalar id))

  unfoldable pub transform_simple_expression : Node → Result AstNode
  transform_simple_expression n = do
    c ← child n 0
    a ← rec c
    l ← as_additive_expression a
    if children_num n == 3
        then (do
          o ← operator_name n
          d ← child n 2
          b ← rec d
          r ← as_additive_expression b
          ok (AstNode.expression (relation l (rel_op o) r)))
        else ok (AstNode.expression (simple_expression l))

  unfoldable pub transform_additive_expression : Node → Result AstNode
  transform_additive_expression n =
      if children_num n == 3
      then (do
        c ← child n 0
        a ← rec c
        l ← as_additive_expression a
        o ← operator_name n
        d ← child n 2
        b ← rec d
        r ← as_term b
        ok (AstNode.additive_expression (sum l (add_op o) r)))
      else (do
        c ← child n 0
        a ← rec c
        t ← as_term a
        ok (AstNode.additive_expression (single_term t)))

  unfoldable pub transform_term : Node → Result AstNode
  transform_term n =
      if children_num n == 3
      then (do
        c ← child n 0
        a ← rec c
        l ← as_term a
        o ← operator_name n
        d ← child n 2
        b ← rec d
        r ← as_factor b
        ok (AstNode.term (product l (mul_op o) r)))
      else (do c ← child n 0; a ← rec c; f ← as_factor a; ok (AstNode.term (single_factor f)))

  unfoldable pub transform_factor :
      (String → Result ℤ) → (String → Result ℕ) → Node → Result AstNode
  unfolding transform_integer transform_float
  transform_factor stoi stof n = do
    c ← child n (if children_num n == 3 then 1 else 0)
    name ← name_of c
    if str_eq name "expression" || str_eq name "var" || str_eq name "call"
        then rec c
        else if str_eq name "integer"
        then transform_integer stoi c
        else if str_eq name "float"
        then transform_float stof c
        else abort

  unfoldable pub flatten_args : Node → Result (List Expression)
  flatten_args list = do
    let (s, last) = flatten3 list []
    first ← child last 0
    pop_all (rec_expression rec) (first ∷ s)

  unfoldable pub transform_call : Node → Result AstNode
  unfolding flatten_args
  transform_call n = do
    i ← child n 0
    id ← name_of i
    args ← child n 2
    list ← child args 0
    name ← name_of list
    es ← (if str_eq name "arg-list" then flatten_args list else ok [])
    ok (AstNode.call id (expressions_of es))
