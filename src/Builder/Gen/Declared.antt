-- ===== src/Builder/Gen/Declared.antt =====
-- The type system for the statements that src/cminusfc/cminusf_builder.cpp translates.
use ustc_2021_compliers.Base.{String, ◌≡◌, Option, none, some, List, [], ◌∷◌}
use ustc_2021_compliers.Base.Int.{ℤ}
use ustc_2021_compliers.Ast.{
  CminusType, type_int, type_float, type_void, Statement, Statements, CompoundStmt, compound,
  expression_stmt, compound_stmt, selection_stmt, selection_else_stmt, iteration_stmt, return_stmt,
  VarDeclaration,
}
use ustc_2021_compliers.Builder.Scope.{map_insert}
use ustc_2021_compliers.Builder.Gen.Typing.{
  Basic, int, float, Ty, basic, array, Entry, variable, Env, IsTyped,
}

abbrev pub declared : Option ℤ → Basic → Ty
declared none b = basic b
declared (some n) b = array b

-- A variable of type void is not declared.
abbrev pub entry_of : CminusType → Option ℤ → Option Entry
entry_of type_int num = some (variable (declared num int))
entry_of type_float num = some (variable (declared num float))
entry_of type_void num = none

abbrev pub declare : String → Option Entry → List (String × Entry) → List (String × Entry)
declare id none names = names
declare id (some e) names = (map_insert id e names).0

abbrev pub declare_all : List VarDeclaration → List (String × Entry) → List (String × Entry)
declare_all [] names = names
declare_all (d ∷ ds) names = declare_all ds (declare d.id (entry_of d.type d.num) names)

-- `ret` is the result of the function, and `none` where it is void. A value is returned where there is
-- a result.
abbrev mutual
  pub IsTypedStatement : Statement → Env → Option Basic → Type 0
  IsTypedStatement (expression_stmt none) env ret = Unit
  IsTypedStatement (expression_stmt (some e)) env ret = (t : Ty) × IsTyped env e t
  IsTypedStatement (compound_stmt c) env ret = IsTypedCompound c env ret
  IsTypedStatement (selection_stmt e st) env ret =
      ((x : Basic) × IsTyped env e (basic x)) × IsTypedStatement st env ret
  IsTypedStatement (selection_else_stmt e st other) env ret =
      ((x : Basic) × IsTyped env e (basic x))
      × IsTypedStatement st env ret
      × IsTypedStatement other env ret
  IsTypedStatement (iteration_stmt e st) env ret =
      ((x : Basic) × IsTyped env e (basic x)) × IsTypedStatement st env ret
  IsTypedStatement (return_stmt none) env ret = Unit
  IsTypedStatement (return_stmt (some e)) env ret =
      ((b : Basic) × (ret ≡ some b)) × ((x : Basic) × IsTyped env e (basic x))

  pub IsTypedCompound : CompoundStmt → Env → Option Basic → Type 0
  IsTypedCompound (compound decls sts) env ret =
      IsTypedStatements sts (declare_all decls [] ∷ env) ret

  pub IsTypedStatements : Statements → Env → Option Basic → Type 0
  IsTypedStatements Statements.nil env ret = Unit
  IsTypedStatements (Statements.cons st sts) env ret =
      IsTypedStatement st env ret × IsTypedStatements sts env ret
