-- ===== src/Builder/Gen/Inside.antt =====
-- src/cminusfc/cminusf_builder.cpp: the state within the body of a function, its conditions and branches.
use ustc_2021_compliers.Base.{
  ℕ, String, ◌<◌, ◌≡◌, refl, ◌∙◌, Option, none, some, [], ◌∷◌, Yields, Yields-bind,
}
use ustc_2021_compliers.Base.Int.{pos}
use ustc_2021_compliers.Ir.Instruction.{OpId, CmpOp}
use ustc_2021_compliers.Ir.Heap.{constant_int, constant_fp}
use ustc_2021_compliers.Ir.Types.{Shape, get_int32_type, get_float_type, get_int1_type}
use ustc_2021_compliers.Ir.Create.Created.{IsObject}
use ustc_2021_compliers.Ir.Create.Kept.{Grows, IsObject-Grows}
use ustc_2021_compliers.Builder.Gen.{Builder, new_value, new_block, set_insert_point, build_cond_br}
use ustc_2021_compliers.Builder.Gen.Statements.{
  differs_from_0, if_condition, while_condition, then_insert_at,
}
use ustc_2021_compliers.Builder.Gen.Typing.{Basic, int, float, Env}
use ustc_2021_compliers.Builder.Gen.Ready.{
  type_id, Agrees, Agrees-Follows, Ready, Follows, Follows-trans,
}
use ustc_2021_compliers.Builder.Gen.Emits.{
  Made, Made-after, emitted-Made, int1_known, int32_known, float_known, new_value-Made,
  new_block-Made,
}
use ustc_2021_compliers.Builder.Gen.Addresses.{
  Steps, Steps-trans, build_br-Steps, build_cond_br-Steps, set_insert_point-Steps,
}

-- The cell of the result, where the function has one
abbrev pub ReturnsTo : Builder → Option Basic → Type 0
ReturnsTo s none = Unit
ReturnsTo s (some b) =
    (a : ℕ) × (s.curr_ret_addr ≡ some a)
    × IsObject s.code.heap a
    × (s.code.types.shape (s.code.type_of a) ≡ Shape.pointer (type_id b))

-- The state within the body of a function with the result `ret`, where the names of `env` are visible
pub record Inside (env : Env) (ret : Option Basic) (s : Builder) : Type 0 where
  pub ready : Ready s
  pub agrees : Agrees s env
  pub returns : ReturnsTo s ret
  pub depth : 0 < s.compound_stmt_depth

pub ReturnsTo-Follows :
    (s s' : Builder) (ret : Option Basic)
    → Ready s
    → Grows s.code s'.code
    → s'.curr_ret_addr ≡ s.curr_ret_addr
    → ReturnsTo s ret
    → ReturnsTo s' ret
ReturnsTo-Follows s s' none ready g same r = tt
ReturnsTo-Follows s s' (some b) ready g same (a, there, o, shape) = (
  a,
  same ∙ there,
  IsObject-Grows s.code s'.code g a o,
  rw (g.type_same a o.1) (g.shape_same (s.code.type_of a) (ready.sound.typed a o.1) ∙ shape),
)

pub Inside-Steps :
    (env : Env) (ret : Option Basic) (s s' : Builder)
    → Inside env ret s
    → Ready s'
    → Follows s s'
    → Inside env ret s'
Inside-Steps env ret s s' i ready f = record {
  ready = ready;
  agrees = Agrees-Follows s s' i.ready.sound f env i.agrees;
  returns = ReturnsTo-Follows s s' ret i.ready f.grows f.ret_addr_same i.returns;
  depth = rw f.depth_same i.depth;
}

-- The conditions of selections and iterations
module _ (s : Builder) (ready : Ready s) where
  differs_from_0-Made :
      (v : ℕ)
      → IsObject s.code.heap v
      → Yields (differs_from_0 (s, v)) (λ r. Made s get_int1_type r.0 r.1)
  differs_from_0-Made v o =
      let k = constant_int (pos 0) in
      let (s1, null) = new_value s k get_int32_type in
      let m : Made s get_int32_type s1 null =
        new_value-Made s ready k get_int32_type (int32_known s ready) in
      let (r, e, n) =
        emitted-Made s1 m.ready OpId.cmp CmpOp.ne get_int1_type (v ∷ null ∷ []) s1.insert_block
          (int1_known s1 m.ready)
          (IsObject-Grows s.code s1.code m.follows.grows v o, (m.object, tt)) in
      (r, e, Made-after s s1 get_int1_type r.0 r.1 m.follows n)

module _ (s : Builder) (ready : Ready s) (o : IsObject s.code.heap s.curr_val) where
  pub if_condition-Made :
      (x : Basic)
      → s.code.type_of s.curr_val ≡ type_id x
      → Yields (if_condition s) (λ r. Made s get_int1_type r.0 r.1)
  unfolding if_condition
  if_condition-Made int t = rw t (differs_from_0-Made s ready s.curr_val o)
  if_condition-Made float t = rw t (
      Yields-bind
        (emitted-Made s ready OpId.fptosi CmpOp.eq get_int32_type (s.curr_val ∷ []) s.insert_block
          (int32_known s ready) (o, tt))
        (λ q m.
          let (r, e, n) = differs_from_0-Made q.0 m.ready q.1 m.object in
          (r, e, Made-after s q.0 get_int1_type r.0 r.1 m.follows n)))

  pub while_condition-Made :
      (x : Basic)
      → s.code.type_of s.curr_val ≡ type_id x
      → Yields (while_condition s) (λ r. Made s get_int1_type r.0 r.1)
  unfolding while_condition
  while_condition-Made int t = rw t (differs_from_0-Made s ready s.curr_val o)
  while_condition-Made float t =
      let k = constant_fp 0 in
      let (s1, null) = new_value s k get_float_type in
      let m : Made s get_float_type s1 null =
        new_value-Made s ready k get_float_type (float_known s ready) in
      let (r, e, n) =
        emitted-Made s1 m.ready OpId.fcmp CmpOp.ne get_int1_type (s.curr_val ∷ null ∷ [])
          s1.insert_block (int1_known s1 m.ready)
          (IsObject-Grows s.code s1.code m.follows.grows s.curr_val o, (m.object, tt)) in
      rw t (r, e, Made-after s s1 get_int1_type r.0 r.1 m.follows n)

pub then_insert_at-Steps :
    (s : Builder) (target b : ℕ)
    → Ready s
    → IsObject s.code.heap target
    → Yields (then_insert_at target b s) (Steps s)
then_insert_at-Steps s target b ready o = Yields-bind (build_br-Steps s ready target o) (λ s1 m. (
  set_insert_point s1 b,
  refl,
  Steps-trans s s1 (set_insert_point s1 b) m (set_insert_point-Steps s1 m.ready b),
))

-- A conditional branch at a condition, into two blocks, the first of which is where code goes on
pub branch-Steps :
    (s : Builder) (cond first second : ℕ)
    → Ready s
    → IsObject s.code.heap cond
    → IsObject s.code.heap first
    → IsObject s.code.heap second
    → Yields (build_cond_br s cond first second) (λ s1. Steps s (set_insert_point s1 first))
branch-Steps s cond first second ready oc o1 o2 =
    let (s1, e, m) = build_cond_br-Steps s ready cond first second oc o1 o2 in
    (
      s1,
      e,
      Steps-trans s s1 (set_insert_point s1 first) m (set_insert_point-Steps s1 m.ready first),
    )

-- Two new blocks
pub record Blocks2 (s : Builder) (s' : Builder) (b d : ℕ) : Type 0 where
  pub steps : Steps s s'
  pub first : IsObject s'.code.heap b
  pub second : IsObject s'.code.heap d

pub two_blocks :
    (s : Builder) (one other : String)
    → Ready s
    → Blocks2 s
        (new_block (new_block s one).0 other).0
        (new_block s one).1
        (new_block (new_block s one).0 other).1
two_blocks s one other ready =
    let m1 = new_block-Made s ready one in
    let m2 = new_block-Made (new_block s one).0 m1.ready other in
    record {
      steps = record {
        ready = m2.ready;
        follows =
            Follows-trans s (new_block s one).0 (new_block (new_block s one).0 other).0 m1.follows
              m2.follows;
      };
      first =
          IsObject-Grows (new_block s one).0.code (new_block (new_block s one).0 other).0.code
            m2.follows.grows (new_block s one).1 m1.object;
      second = m2.object;
    }
