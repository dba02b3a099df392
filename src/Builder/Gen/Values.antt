-- ===== src/Builder/Gen/Values.antt =====
-- src/cminusfc/cminusf_builder.cpp: numbers, operations and loads in the code of a typed expression.
use ustc_2021_compliers.Base.{
  ℕ, ◌<◌, ◌≡◌, refl, ◌∙◌, [], ◌∷◌, arith, Result, ok, Yields, Yields-bind, ◌>>=◌,
}
use ustc_2021_compliers.Ast.{
  RelOp, AddOp, op_plus, op_minus, MulOp, op_mul, op_div, Num, i_val, f_val,
}
use ustc_2021_compliers.Ir.Instruction.{OpId, CmpOp}
use ustc_2021_compliers.Ir.Heap.{constant_int, constant_fp}
use ustc_2021_compliers.Ir.Types.{get_int32_type, get_float_type, get_int1_type}
use ustc_2021_compliers.Ir.Create.{Code, create}
use ustc_2021_compliers.Ir.Create.Created.{IsObject}
use ustc_2021_compliers.Ir.Create.Kept.{IsSound, IsObject-Grows, Gives, create-Gives}
use ustc_2021_compliers.Builder.Gen.{Builder, new_value, set_val, build_load}
use ustc_2021_compliers.Builder.Gen.Expressions.{
  build_num, int_sum, float_sum, int_product, float_product, int_relation, float_relation,
  cmp_op_of, build_binary,
}
use ustc_2021_compliers.Builder.Gen.Typing.{Basic, int, float, Ty, basic, join, type_of_num}
use ustc_2021_compliers.Builder.Gen.Ready.{type_id, IsVariable, HasType-Grows, Ready, Follows-trans}
use ustc_2021_compliers.Builder.Gen.Emits.{
  Made, Made-after, int32_known, float_known, new_value-Made,
}
use ustc_2021_compliers.Builder.Gen.Addresses.{build_load-Made}
use ustc_2021_compliers.Builder.Gen.Operations.{
  Visited, set_val-Visited, Makes, pick, build_binary-Made,
}

-- The tables of operators create instructions of a type that each module has.
module _ (op : OpId) (c : Code) (l r b : ℕ) (sound : IsSound c) (ol : IsObject c.heap l)
    (or : IsObject c.heap r) where
  instruction-Gives :
      (cmp_op : CmpOp) (ty : ℕ)
      → ty < 5
      → Yields (create c op cmp_op ty (l ∷ r ∷ []) b) (λ x. Gives c ty x.0 x.1)
  instruction-Gives cmp_op ty lt =
      create-Gives c sound ty (omega (arith, lt, sound.interned.enough)) op cmp_op (l ∷ r ∷ []) b
        (ol, (or, tt))

pub int_sum-Makes : (op : AddOp) → Makes (int_sum op) get_int32_type
int_sum-Makes op_plus c l r b sound ol or =
    instruction-Gives OpId.add c l r b sound ol or CmpOp.eq get_int32_type (omega arith)
int_sum-Makes op_minus c l r b sound ol or =
    instruction-Gives OpId.sub c l r b sound ol or CmpOp.eq get_int32_type (omega arith)

pub float_sum-Makes : (op : AddOp) → Makes (float_sum op) get_float_type
float_sum-Makes op_plus c l r b sound ol or =
    instruction-Gives OpId.fadd c l r b sound ol or CmpOp.eq get_float_type (omega arith)
float_sum-Makes op_minus c l r b sound ol or =
    instruction-Gives OpId.fsub c l r b sound ol or CmpOp.eq get_float_type (omega arith)

pub int_product-Makes : (op : MulOp) → Makes (int_product op) get_int32_type
int_product-Makes op_mul c l r b sound ol or =
    instruction-Gives OpId.mul c l r b sound ol or CmpOp.eq get_int32_type (omega arith)
int_product-Makes op_div c l r b sound ol or =
    instruction-Gives OpId.sdiv c l r b sound ol or CmpOp.eq get_int32_type (omega arith)

pub float_product-Makes : (op : MulOp) → Makes (float_product op) get_float_type
float_product-Makes op_mul c l r b sound ol or =
    instruction-Gives OpId.fmul c l r b sound ol or CmpOp.eq get_float_type (omega arith)
float_product-Makes op_div c l r b sound ol or =
    instruction-Gives OpId.fdiv c l r b sound ol or CmpOp.eq get_float_type (omega arith)

pub int_relation-Makes : (op : RelOp) → Makes (int_relation op) get_int1_type
int_relation-Makes op c l r b sound ol or =
    instruction-Gives OpId.cmp c l r b sound ol or (cmp_op_of op) get_int1_type (omega arith)

pub float_relation-Makes : (op : RelOp) → Makes (float_relation op) get_int1_type
float_relation-Makes op c l r b sound ol or =
    instruction-Gives OpId.fcmp c l r b sound ol or (cmp_op_of op) get_int1_type (omega arith)

pub pick-basic : (b : Basic) → pick b get_int32_type get_float_type ≡ type_id b
pick-basic int = refl
pick-basic float = refl

pub pick-same : (b : Basic) (ty : ℕ) → pick b ty ty ≡ ty
pick-same int ty = refl
pick-same float ty = refl

module _ (s : Builder) where
  -- A new value of the type of a number becomes that of the expression.
  pub number-Visited :
      (b : Basic) (ty : ℕ) (r : Builder × ℕ)
      → ty ≡ type_id b
      → Made s ty r.0 r.1
      → Visited s (basic b) (set_val r)
  number-Visited b ty r e m =
      set_val-Visited s r.0 r.1 (basic b) m.ready m.follows m.object (m.typed ∙ e)

pub build_num-Visited :
    (s : Builder) → Ready s → (n : Num) → Yields (build_num n s) (Visited s (basic (type_of_num n)))
build_num-Visited s ready (i_val z) = (
  set_val (new_value s (constant_int z) get_int32_type),
  refl,
  number-Visited s int get_int32_type (new_value s (constant_int z) get_int32_type) refl
      (new_value-Made s ready (constant_int z) get_int32_type (int32_known s ready)),
)
build_num-Visited s ready (f_val bits) = (
  set_val (new_value s (constant_fp bits) get_float_type),
  refl,
  number-Visited s float get_float_type (new_value s (constant_fp bits) get_float_type) refl
      (new_value-Made s ready (constant_fp bits) get_float_type (float_known s ready)),
)

-- Two operands, and then the operation on them
module _ (on_ints on_floats : Code → ℕ → ℕ → ℕ → Result (Code × ℕ)) (ty_ints ty_floats : ℕ)
    (ints : Makes on_ints ty_ints) (floats : Makes on_floats ty_floats) where
  pub operation-Made :
      (s s1 s2 : Builder) (x y : Basic)
      → Visited s (basic x) s1
      → Visited s1 (basic y) s2
      → Yields
          (build_binary on_ints on_floats s2 s1.curr_val s2.curr_val)
          (λ q. Made s (pick (join x y) ty_ints ty_floats) q.0 q.1)
  operation-Made s s1 s2 x y m n =
      let (q, e, a) =
        build_binary-Made on_ints on_floats ty_ints ty_floats ints floats s2 n.ready s1.curr_val
          s2.curr_val (IsObject-Grows s1.code s2.code n.follows.grows s1.curr_val m.object) n.object
          x y (n.follows.grows.type_same s1.curr_val m.object.1 ∙ m.typed) n.typed in
      (
        q,
        e,
        Made-after s s2 (pick (join x y) ty_ints ty_floats) q.0 q.1
            (Follows-trans s s1 s2 m.follows n.follows) a,
      )

-- The load of a variable
pub load-Visited :
    (s : Builder) (v : ℕ) (t : Ty)
    → Ready s
    → IsVariable s.code v t
    → Yields (build_load s v >>= λ r. ok (set_val r)) (Visited s t)
load-Visited s v t ready (o, (e, shape, lt, h)) =
    Yields-bind (build_load-Made s ready v e o shape lt) (λ r m. (
      set_val r,
      refl,
      set_val-Visited s r.0 r.1 t m.ready m.follows m.object
          (rw m.typed (HasType-Grows s.code r.0.code ready.sound m.follows.grows e t lt h)),
    ))
