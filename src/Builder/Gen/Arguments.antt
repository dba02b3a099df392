-- ===== src/Builder/Gen/Arguments.antt =====
-- src/cminusfc/cminusf_builder.cpp: the conversion of an argument to the type of the parameter.
use ustc_2021_compliers.Base.{
  ℕ, String, ◌<◌, ◌≡◌, ◌≢◌, refl, sym, ap, ◌∙◌, true, false, Bool-cases, inl, inr, some, [], ◌∷◌,
  arith, ok, Yields, Yields-bind, ◌>>=◌, ◌==◌, ==_iff,
}
use ustc_2021_compliers.Base.Int.{pos}
use ustc_2021_compliers.Ast.{Expression}
use ustc_2021_compliers.Ir.Instruction.{OpId, CmpOp}
use ustc_2021_compliers.Ir.Heap.{constant_int}
use ustc_2021_compliers.Ir.Types.{Types, Shape, get_int32_type, get_float_type}
use ustc_2021_compliers.Ir.Types.Interned.{is_eq_type-shape}
use ustc_2021_compliers.Ir.Create.{create}
use ustc_2021_compliers.Ir.Create.Created.{IsObject}
use ustc_2021_compliers.Ir.Create.Kept.{IsObject-Grows}
use ustc_2021_compliers.Builder.Scope.{find}
use ustc_2021_compliers.Builder.Gen.{Builder, emitted, new_value, set_val}
use ustc_2021_compliers.Builder.Gen.Expressions.{argument_id, first_element, build_argument}
use ustc_2021_compliers.Builder.Gen.Typing.{Basic, int, float, array, pointer, variable}
use ustc_2021_compliers.Builder.Gen.Ready.{
  type_id, HasType, IsVariable, HasEntry-Follows, Ready, Follows, Follows-refl, Follows-trans,
}
use ustc_2021_compliers.Builder.Gen.Emits.{
  Made, emitted-Made, int32_known, float_known, new_value-Made,
}
use ustc_2021_compliers.Builder.Gen.Addresses.{gep-Addressed}
use ustc_2021_compliers.Builder.Gen.Elements.{get_element_type-array}

-- The state after an argument
pub record Valued (s s' : Builder) : Type 0 where
  pub ready : Ready s'
  pub follows : Follows s s'
  pub object : IsObject s'.code.heap s'.curr_val

pub set_val-Valued :
    (s s' : Builder) (v : ℕ)
    → Ready s'
    → Follows s s'
    → IsObject s'.code.heap v
    → Valued s (record s' { curr_val = v })
set_val-Valued s s' v ready f o = record {
  ready = record { sound = ready.sound; ret = ready.ret; labels = ready.labels };
  follows = record {
    grows = f.grows;
    scope_same = f.scope_same;
    arguments_same = f.arguments_same;
    ret_bb_same = f.ret_bb_same;
    ret_addr_same = f.ret_addr_same;
    depth_same = f.depth_same;
  };
  object = o;
}

-- Types of different classes are different.
differ :
    (ts : Types) (p q : ℕ) (k l : Shape)
    → ts.shape p ≡ k
    → ts.shape q ≡ l
    → k ≢ l
    → (p == q) ≡ false
differ ts p q k l e f ne = elim (Bool-cases (p == q)) [
  | inl t ↦ absurd (ne (sym e ∙ ap ts.shape ((==_iff p q).0 t) ∙ f))
  | inr t ↦ t
]

module _ (s : Builder) (ready : Ready s) (arg : Expression) (param : ℕ)
    (o : IsObject s.code.heap s.curr_val) where
  as_it_is : Valued s s
  as_it_is = record { ready = ready; follows = Follows-refl s; object = o }

  converted :
      (op : OpId) (b : Basic)
      → type_id b < s.code.types.next
      → Yields
          (emitted s (create s.code op CmpOp.eq (type_id b) (s.curr_val ∷ []) s.insert_block)
            >>= λ r. ok (set_val r))
          (Valued s)
  converted op b known =
      Yields-bind
        (emitted-Made s ready op CmpOp.eq (type_id b) (s.curr_val ∷ []) s.insert_block known
          (o, tt))
        (λ r m. (set_val r, refl, set_val-Valued s r.0 r.1 m.ready m.follows m.object))

  pub build_argument-number :
      (b x : Basic)
      → s.code.type_of param ≡ type_id b
      → s.code.type_of s.curr_val ≡ type_id x
      → Yields (build_argument s arg param) (Valued s)
  unfolding build_argument
  build_argument-number int int tp t = rw (tp, t) (s, refl, as_it_is)
  build_argument-number float float tp t = rw (tp, t) (s, refl, as_it_is)
  build_argument-number int float tp t =
      rw (tp, t) (converted OpId.fptosi int (int32_known s ready))
  build_argument-number float int tp t =
      rw (tp, t) (converted OpId.sitofp float (float_known s ready))

  pub build_argument-pointer :
      (b : Basic)
      → IsObject s.code.heap param
      → HasType s.code.types (s.code.type_of param) (pointer b)
      → HasType s.code.types (s.code.type_of s.curr_val) (pointer b)
      → Yields (build_argument s arg param) (Valued s)
  unfolding build_argument
  build_argument-pointer b op tp t =
      let same : (s.code.type_of param == s.code.type_of s.curr_val) ≡ true =
        (is_eq_type-shape s.code.types ready.sound.interned (s.code.type_of param)
            (s.code.type_of s.curr_val) (ready.sound.typed param op.1)
            (ready.sound.typed s.curr_val o.1) (rw t refl)).1
          (tp ∙ sym t) in
      rw same (s, refl, as_it_is)

  first_element-Valued :
      (id : String) (v : ℕ) (b : Basic)
      → find s.scope id ≡ some v
      → IsVariable s.code v (array b)
      → Yields (first_element s (some id)) (Valued s)
  first_element-Valued id v b found var =
      let k = constant_int (pos 0) in
      let (s1, i) = new_value s k get_int32_type in
      let m1 : Made s get_int32_type s1 i =
        new_value-Made s ready k get_int32_type (int32_known s ready) in
      let (s2, j) = new_value s1 k get_int32_type in
      let m2 : Made s1 get_int32_type s2 j =
        new_value-Made s1 m1.ready k get_int32_type (int32_known s1 m1.ready) in
      let f2 : Follows s s2 = Follows-trans s s1 s2 m1.follows m2.follows in
      let (ov, (e, shape, lt, (n, array_shape))) : IsVariable s2.code v (array b) =
        HasEntry-Follows s s2 ready.sound f2 v (variable (array b)) var in
      rw found (
        Yields-bind
          (gep-Addressed s2 m2.ready v (type_id b) (i ∷ j ∷ []) ov
            (IsObject-Grows s1.code s2.code m2.follows.grows i m1.object, (m2.object, tt))
            (get_element_type-array s2.code.types (s2.code.type_of v) e (type_id b) n i j shape
              array_shape))
          (λ r m. (
            set_val r,
            refl,
            set_val-Valued s r.0 r.1 m.ready (Follows-trans s s2 r.0 f2 m.follows) m.object,
          )))

  pub build_argument-array :
      (id : String) (v : ℕ) (b : Basic)
      → HasType s.code.types (s.code.type_of param) (pointer b)
      → HasType s.code.types (s.code.type_of s.curr_val) (array b)
      → argument_id arg ≡ some id
      → find s.scope id ≡ some v
      → IsVariable s.code v (array b)
      → Yields (build_argument s arg param) (Valued s)
  unfolding build_argument
  build_argument-array id v b tp (n, t) named found var =
      let ts = s.code.types in
      let no_param : (s.code.type_of param == s.code.type_of s.curr_val) ≡ false =
        differ ts (s.code.type_of param) (s.code.type_of s.curr_val) (Shape.pointer (type_id b))
          (Shape.array (type_id b) n) tp t (λ e. cc) in
      let no_int : (s.code.type_of s.curr_val == get_int32_type) ≡ false =
        differ ts (s.code.type_of s.curr_val) get_int32_type (Shape.array (type_id b) n)
          (Shape.integer 32) t (ready.sound.interned.simple 3 (omega arith)) (λ e. cc) in
      let no_float : (s.code.type_of s.curr_val == get_float_type) ≡ false =
        differ ts (s.code.type_of s.curr_val) get_float_type (Shape.array (type_id b) n) Shape.float
          t (ready.sound.interned.simple 4 (omega arith)) (λ e. cc) in
      rw (no_param, no_int, no_float, tp, named) (first_element-Valued id v b found var)
