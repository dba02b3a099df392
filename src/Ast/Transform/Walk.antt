-- ===== src/Ast/Transform/Walk.antt =====
-- What the branches of transform_node_iter (src/common/ast.cpp) share: reading names and children,
-- the loops that flatten a list, and the operators.
use Prim.Native.Nat.{suc, zero}
use text.Mathlib.Text.{◌==◌ as str_eq}
use ustc_2021_compliers.Base.{
  ℕ, String, none, some, List, [], ◌∷◌, Result, ok, undefined, ◌>>=◌, if◌then◌else◌,
}
use ustc_2021_compliers.Tree.{Node, Nodes, node}
use ustc_2021_compliers.Ast.{
  CminusType, type_int, type_float, type_void, RelOp, op_le, op_lt, op_gt, op_ge, op_eq, op_neq,
  AddOp, op_plus, op_minus, MulOp, op_mul, op_div, Expression, Expressions, Statement, Statements,
  VarDeclaration, Param,
}
use ustc_2021_compliers.Ast
use ustc_2021_compliers.Ast.Node.{
  AstNode, as_declaration, as_var_declaration, as_param, as_statement, as_expression,
}

-- `n->name` read as a C string.
abbrev pub name_of : Node → Result String
name_of (node (some s) _) = ok s
name_of (node none _) = undefined

abbrev pub nth : Nodes → ℕ → Result Node
nth Nodes.nil _ = undefined
nth (Nodes.cons x xs) zero = ok x
nth (Nodes.cons x xs) (suc i) = nth xs i

-- `n->children[i]`
abbrev pub child : Node → ℕ → Result Node
child (node _ xs) i = nth xs i

-- `while (list_ptr->children_num == 2) { s.push(list_ptr->children[1]); list_ptr = ...[0]; }`;
-- the top of the stack is the head of the list.
abbrev pub flatten2 : Node → List Node → List Node × Node
flatten2 (node nm (Nodes.cons a (Nodes.cons b Nodes.nil))) s = flatten2 a (b ∷ s)
flatten2 n s = (s, n)

-- The same with three children, of which the middle one is the comma.
abbrev pub flatten3 : Node → List Node → List Node × Node
flatten3 (node nm (Nodes.cons a (Nodes.cons b (Nodes.cons c Nodes.nil)))) s = flatten3 a (c ∷ s)
flatten3 n s = (s, n)

-- `while (!s.empty()) { ... push_back(...); s.pop(); }`
abbrev pub pop_all {ℓ} : {A : Type ℓ} → (Node → Result A) → List Node → Result (List A)
pop_all f [] = ok []
pop_all f (n ∷ s) = do x ← f n; xs ← pop_all f s; ok (x ∷ xs)

abbrev pub expressions_of : List Expression → Expressions
expressions_of [] = Expressions.nil
expressions_of (e ∷ es) = Expressions.cons e (expressions_of es)

abbrev pub statements_of : List Statement → Statements
statements_of [] = Statements.nil
statements_of (s ∷ ss) = Statements.cons s (statements_of ss)

-- `n->children[0]->children[0]->name`, a type's keyword
abbrev pub type_name : Node → Result String
type_name n = do t ← child n 0; k ← child t 0; name_of k

abbrev pub object_type : String → CminusType
object_type s = if str_eq s "int" then type_int else type_float

abbrev pub return_type : String → CminusType
return_type s =
    if str_eq s "int" then type_int else if str_eq s "float" then type_float else type_void

-- The operators. A text that is none of them leaves the field as `new` made it: zero.
abbrev pub rel_op : String → RelOp
rel_op s =
    if str_eq s "<="
    then op_le
    else if str_eq s "<"
    then op_lt
    else if str_eq s ">"
    then op_gt
    else if str_eq s ">="
    then op_ge
    else if str_eq s "=="
    then op_eq
    else if str_eq s "!="
    then op_neq
    else op_le

abbrev pub add_op : String → AddOp
add_op s = if str_eq s "+" then op_plus else if str_eq s "-" then op_minus else op_plus

abbrev pub mul_op : String → MulOp
mul_op s = if str_eq s "*" then op_mul else if str_eq s "/" then op_div else op_mul

-- `n->children[1]->children[0]->name`
abbrev pub operator_name : Node → Result String
operator_name n = do o ← child n 1; k ← child o 0; name_of k

module _ (rec : Node → Result AstNode) where
  abbrev pub rec_declaration : Node → Result Ast.Declaration
  rec_declaration n = rec n >>= as_declaration

  abbrev pub rec_var_declaration : Node → Result VarDeclaration
  rec_var_declaration n = rec n >>= as_var_declaration

  abbrev pub rec_param : Node → Result Param
  rec_param n = rec n >>= as_param

  abbrev pub rec_statement : Node → Result Statement
  rec_statement n = rec n >>= as_statement

  abbrev pub rec_expression : Node → Result Expression
  rec_expression n = rec n >>= as_expression

  unfoldable pub transform_only_child : Node → Result AstNode
  transform_only_child n = child n 0 >>= rec
