-- ===== src/Builder/Gen/Typing.antt =====
-- A type system for the programs that src/cminusfc/cminusf_builder.cpp translates: which expressions
-- have a value, and of which type.
use ustc_2021_compliers.Base.{String, ◌≡◌, ◌⊎◌, some, List, [], ◌∷◌}
use ustc_2021_compliers.Ast.{
  Num, i_val, f_val, Expression, Var, AdditiveExpression, Term, Factor, Expressions,
  assign_expression, simple_expression, relation, scalar, element, single_term, sum, single_factor,
  product,
}
use ustc_2021_compliers.Builder.Scope.{find}
use ustc_2021_compliers.Builder.Gen.Expressions.{argument_id}

pub data Basic : Type 0 where
  int float : Basic

-- `array b` is the value of an array variable, and `pointer b` that of a parameter that is an array.
pub data Ty : Type 0 where
  basic array pointer : Basic → Ty
  void : Ty

-- What a name stands for: a variable of a type, or a function of a result and parameters.
pub data Entry : Type 0 where
  variable : Ty → Entry
  function : Ty → List Ty → Entry

-- The visible names, in the frames of class Scope
abbrev pub Env : Type 0
Env = List (List (String × Entry))

-- Integers give an integer, all else a float.
abbrev pub join : Basic → Basic → Basic
join int int = int
join int float = float
join float b = float

abbrev pub type_of_num : Num → Basic
type_of_num (i_val z) = int
type_of_num (f_val bits) = float

module _ (env : Env) where
  -- The name is an array of the elements, and negative indices have their handler.
  abbrev pub IsIndexable : String → Basic → Type 0
  IsIndexable id b =
      ((find env id ≡ some (variable (array b))) ⊎ (find env id ≡ some (variable (pointer b))))
      × (find env "neg_idx_except" ≡ some (function void []))

  -- The type of an argument: an array is passed by its name.
  abbrev pub IsArrayOf : Expression → Basic → Type 0
  IsArrayOf e b =
      (id : String) × (argument_id e ≡ some id) × (find env id ≡ some (variable (array b)))

  -- An argument for a parameter, where `typed` says which types the argument has: a number is converted,
  -- and an array is passed as such or by its first element.
  abbrev pub IsArgument : (Ty → Type 0) → Expression → Ty → Type 0
  IsArgument typed e (basic b) = (x : Basic) × typed (basic x)
  IsArgument typed e (pointer b) = typed (pointer b) ⊎ (typed (array b) × IsArrayOf e b)
  IsArgument typed e _ = ⊥

  abbrev mutual
    pub IsTyped : Expression → Ty → Type 0
    IsTyped (assign_expression (scalar id) e) t =
        (b : Basic) × (t ≡ basic b)
        × (find env id ≡ some (variable (basic b)))
        × ((x : Basic) × IsTyped e (basic x))
    IsTyped (assign_expression (element id i) e) t =
        (b : Basic) × (t ≡ basic b)
        × IsIndexable id b
        × ((x : Basic) × IsTyped i (basic x))
        × ((y : Basic) × IsTyped e (basic y))
    IsTyped (simple_expression a) t = IsTypedAdditive a t
    IsTyped (relation a op b) t =
        (t ≡ basic int)
        × ((x : Basic) × IsTypedAdditive a (basic x))
        × ((y : Basic) × IsTypedAdditive b (basic y))

    pub IsTypedVar : Var → Ty → Type 0
    IsTypedVar (scalar id) t = find env id ≡ some (variable t)
    IsTypedVar (element id i) t =
        (b : Basic) × (t ≡ basic b) × IsIndexable id b × ((x : Basic) × IsTyped i (basic x))

    pub IsTypedAdditive : AdditiveExpression → Ty → Type 0
    IsTypedAdditive (single_term f) t = IsTypedTerm f t
    IsTypedAdditive (sum a op f) t =
        (x : Basic) × (y : Basic) × (t ≡ basic (join x y))
        × IsTypedAdditive a (basic x)
        × IsTypedTerm f (basic y)

    pub IsTypedTerm : Term → Ty → Type 0
    IsTypedTerm (single_factor f) t = IsTypedFactor f t
    IsTypedTerm (product a op f) t =
        (x : Basic) × (y : Basic) × (t ≡ basic (join x y))
        × IsTypedTerm a (basic x)
        × IsTypedFactor f (basic y)

    pub IsTypedFactor : Factor → Ty → Type 0
    IsTypedFactor (Factor.num n) t = t ≡ basic (type_of_num n)
    IsTypedFactor (Factor.expression e) t = IsTyped e t
    IsTypedFactor (Factor.var v) t = IsTypedVar v t
    IsTypedFactor (Factor.call id args) t =
        (params : List Ty) × (find env id ≡ some (function t params)) × AreTyped args params

    pub AreTyped : Expressions → List Ty → Type 0
    AreTyped Expressions.nil [] = Unit
    AreTyped (Expressions.cons e es) (t ∷ ts) = IsArgument (λ u. IsTyped e u) e t × AreTyped es ts
    AreTyped _ _ = ⊥
