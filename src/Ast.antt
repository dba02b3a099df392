-- ===== src/Ast.antt =====
-- include/ast.hpp: the abstract syntax tree of a Cminus-f program.
use ustc_2021_compliers.Base.{ℕ, String, Option, List, Bool}
use ustc_2021_compliers.Base.Int.{ℤ}
pub mod Node
pub mod Transform
pub mod Grammar
pub mod Fits
pub mod RoundTrip
pub mod Printer

pub data CminusType : Type 0 where
  type_int type_float type_void : CminusType

pub data RelOp : Type 0 where
  op_le op_lt op_gt op_ge op_eq op_neq : RelOp

pub data AddOp : Type 0 where
  op_plus op_minus : AddOp

pub data MulOp : Type 0 where
  op_mul op_div : MulOp

-- `f_val` is a float by its bit pattern.
pub data Num : Type 0 where
  i_val : ℤ → Num
  f_val : ℕ → Num

-- A class with a pointer that may be null has a constructor for each case. Where the pointer is
-- null, the operator of the node is never read, and is left out.
mutual
  pub data Expression : Type 0 where
    assign_expression : Var → Expression → Expression
    simple_expression : AdditiveExpression → Expression
    relation : AdditiveExpression → RelOp → AdditiveExpression → Expression

  pub data Var : Type 0 where
    scalar : String → Var
    element : String → Expression → Var

  pub data AdditiveExpression : Type 0 where
    single_term : Term → AdditiveExpression
    sum : AdditiveExpression → AddOp → Term → AdditiveExpression

  pub data Term : Type 0 where
    single_factor : Factor → Term
    product : Term → MulOp → Factor → Term

  -- The subclasses of ASTFactor.
  pub data Factor : Type 0 where
    num : Num → Factor
    expression : Expression → Factor
    var : Var → Factor
    call : String → Expressions → Factor

  pub data Expressions : Type 0 where
    nil : Expressions
    cons : Expression → Expressions → Expressions

-- `num` is the length of an array, and `none` for a scalar.
pub record VarDeclaration : Type 0 where
  pub type : CminusType
  pub id : String
  pub num : Option ℤ

mutual
  pub data Statement : Type 0 where
    expression_stmt : Option Expression → Statement
    compound_stmt : CompoundStmt → Statement
    selection_stmt : Expression → Statement → Statement
    selection_else_stmt : Expression → Statement → Statement → Statement
    iteration_stmt : Expression → Statement → Statement
    return_stmt : Option Expression → Statement

  pub data CompoundStmt : Type 0 where
    compound : List VarDeclaration → Statements → CompoundStmt

  pub data Statements : Type 0 where
    nil : Statements
    cons : Statement → Statements → Statements

pub record Param : Type 0 where
  pub type : CminusType
  pub id : String
  pub isarray : Bool

pub record FunDeclaration : Type 0 where
  pub type : CminusType
  pub id : String
  pub params : List Param
  pub compound_stmt : CompoundStmt

pub data Declaration : Type 0 where
  var_declaration : VarDeclaration → Declaration
  fun_declaration : FunDeclaration → Declaration

abbrev pub Program : Type 0
Program = List Declaration
