-- ===== src/Ast/Transform/Declarations.antt =====
-- The branches of transform_node_iter (src/common/ast.cpp) for the program, its declarations and the
-- parameters. `rec` is the recursive call.
use ustc_2021_compliers.Base.{
  String, none, some, List, [], ◌∷◌, Result, ok, abort, ◌>>=◌, ◌==◌, ltb, if◌then◌else◌,
}
use ustc_2021_compliers.Base.Int.{ℤ}
use ustc_2021_compliers.Tree.{Node, children_num}
use ustc_2021_compliers.Ast.{CminusType, Param, var_declaration, fun_declaration}
use ustc_2021_compliers.Ast.Node.{AstNode, as_compound_stmt}
use ustc_2021_compliers.Ast.Transform.Walk.{
  name_of, child, flatten2, flatten3, pop_all, type_name, object_type, return_type, rec_declaration,
  rec_param,
}

module _ (stoi : String → Result ℤ) (rec : Node → Result AstNode) where
  unfoldable pub transform_program : Node → Result AstNode
  transform_program n = do
    list ← child n 0
    let (s, last) = flatten2 list []
    first ← child last 0
    ds ← pop_all (rec_declaration rec) (first ∷ s)
    ok (AstNode.program ds)

  unfoldable pub scalar_declaration : CminusType → Node → Result AstNode
  scalar_declaration t n = do
    i ← child n 1
    id ← name_of i
    ok (AstNode.declaration (var_declaration (record { type = t; id = id; num = none })))

  unfoldable pub array_declaration : CminusType → Node → Result AstNode
  array_declaration t n = do
    i ← child n 1
    id ← name_of i
    l ← child n 3
    text ← name_of l
    num ← stoi text
    ok (AstNode.declaration (var_declaration (record { type = t; id = id; num = some num })))

  unfoldable pub transform_var_declaration : Node → Result AstNode
  unfolding scalar_declaration array_declaration
  transform_var_declaration n = do
    t ← type_name n
    if children_num n == 3
        then scalar_declaration (object_type t) n
        else if children_num n == 6
        then array_declaration (object_type t) n
        else abort

  -- The parameters: none where `params` holds the keyword void.
  unfoldable pub flatten_params : Node → Result (List Param)
  flatten_params list = do
    let (s, last) = flatten3 list []
    first ← child last 0
    pop_all (rec_param rec) (first ∷ s)

  unfoldable pub transform_params : Node → Result (List Param)
  unfolding flatten_params
  transform_params n = do
    ps ← child n 3
    list ← child ps 0
    if children_num list == 0 then ok [] else flatten_params list

  unfoldable pub transform_fun_declaration : Node → Result AstNode
  unfolding transform_params
  transform_fun_declaration n = do
    t ← type_name n
    i ← child n 1
    id ← name_of i
    ps ← transform_params n
    b ← child n 5
    body ← rec b
    c ← as_compound_stmt body
    ok (
        AstNode.declaration (
          fun_declaration
            (record { type = return_type t; id = id; params = ps; compound_stmt = c })))

  unfoldable pub transform_param : Node → Result AstNode
  transform_param n = do
    t ← type_name n
    i ← child n 1
    id ← name_of i
    ok (AstNode.param (record { type = object_type t; id = id; isarray = ltb 2 (children_num n) }))
