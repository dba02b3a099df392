-- ===== src/Builder/Gen/Elements.antt =====
-- src/cminusfc/cminusf_builder.cpp: the test of an index and the address of an element, in code that
-- is as typed.
use ustc_2021_compliers.Base.{
  ℕ, String, ◌≡◌, refl, sym, ap, ◌∙◌, inl, inr, none, some, [], ◌∷◌, arith, ok, Yields, Yields-bind,
}
use ustc_2021_compliers.Base.Int.{pos}
use ustc_2021_compliers.Ir.Instruction.{OpId, CmpOp}
use ustc_2021_compliers.Ir.Heap.{constant_int}
use ustc_2021_compliers.Ir.Types.{
  Types, Shape, first_shape, get_int32_type, get_float_type, get_label_type, get_int1_type,
}
use ustc_2021_compliers.Ir.Types.Interned.{IsInterned}
use ustc_2021_compliers.Ir.Create.{get_element_type}
use ustc_2021_compliers.Ir.Create.Created.{IsObject}
use ustc_2021_compliers.Ir.Create.Kept.{IsObject-Grows}
use ustc_2021_compliers.Builder.Scope.{find}
use ustc_2021_compliers.Builder.Gen.{
  Builder, new_value, new_block, set_insert_point, check_index, element_address, address_in,
  base_element,
}
use ustc_2021_compliers.Builder.Gen.Typing.{
  Basic, int, float, array, pointer, void, variable, function, Env, IsIndexable,
}
use ustc_2021_compliers.Builder.Gen.Ready.{
  type_id, IsVariable, HasEntry, Agrees, Ready, Follows, Follows-trans, HasEntry-Follows,
  Agrees-Follows,
}
use ustc_2021_compliers.Ir.Types.{get_array_element_type}
use ustc_2021_compliers.Builder.Gen.Addresses.{
  Steps, Addressed, get_pointer_element_type-shape, build_load-Made, build_br-Steps,
  build_cond_br-Steps, build_call-Made, gep-Addressed, to_index-Made, set_insert_point-Steps,
}
use ustc_2021_compliers.Builder.Gen.Emits.{
  Made, emitted-Made, int1_known, int32_known, new_value-Made, new_block-Made,
}

module _ (s : Builder) (ready : Ready s) where
  pub check_index-Steps :
      (index f : ℕ)
      → IsObject s.code.heap index
      → find s.scope "neg_idx_except" ≡ some f
      → HasEntry s f (function void [])
      → (s' : Builder) × (check_index s index ≡ ok s') × Steps s s'
  unfolding check_index
  check_index-Steps index f o found fn =
      let k = constant_int (pos 0) in
      let (s1, null_index) = new_value s k get_int32_type in
      let m1 : Made s get_int32_type s1 null_index =
        new_value-Made s ready k get_int32_type (int32_known s ready) in
      Yields-bind
        (emitted-Made s1 m1.ready OpId.cmp CmpOp.ge get_int1_type (index ∷ null_index ∷ [])
          s1.insert_block (int1_known s1 m1.ready)
          (IsObject-Grows s.code s1.code m1.follows.grows index o, (m1.object, tt)))
        (λ r m2.
          let (s3, invalid_bb) = new_block r.0 "idx_neg" in
          let m3 : Made r.0 get_label_type s3 invalid_bb = new_block-Made r.0 m2.ready "idx_neg" in
          let (s4, valid_bb) = new_block s3 "idx_valid" in
          let m4 : Made s3 get_label_type s4 valid_bb = new_block-Made s3 m3.ready "idx_valid" in
          let f4 : Follows s s4 =
            Follows-trans s r.0 s4 (Follows-trans s s1 r.0 m1.follows m2.follows)
              (Follows-trans r.0 s3 s4 m3.follows m4.follows) in
          Yields-bind
            (build_cond_br-Steps s4 m4.ready r.1 valid_bb invalid_bb
              (IsObject-Grows r.0.code s4.code (Follows-trans r.0 s3 s4 m3.follows m4.follows).grows
                r.1 m2.object)
              m4.object (IsObject-Grows s3.code s4.code m4.follows.grows invalid_bb m3.object))
            (λ s5 m5.
              let f5 : Follows s s5 = Follows-trans s s4 s5 f4 m5.follows in
              let m6 = set_insert_point-Steps s5 m5.ready invalid_bb in
              let s6 : Builder = set_insert_point s5 invalid_bb in
              let f6 : Follows s s6 = Follows-trans s s5 s6 f5 m6.follows in
              let here : find s5.scope "neg_idx_except" ≡ some f = rw f5.scope_same found in
              rw here (
                Yields-bind
                  (build_call-Made s6 m6.ready f (s6.arguments f) void [] []
                    (HasEntry-Follows s s6 ready.sound f6 f (function void []) fn) tt refl)
                  (λ r7 m7.
                    Yields-bind (build_br-Steps r7.0 m7.ready r7.0.curr_ret_bb m7.ready.ret)
                      (λ s8 m8.
                        let f8 : Follows s s8 =
                          Follows-trans s r7.0 s8 (Follows-trans s s6 r7.0 f6 m7.follows)
                            m8.follows in
                        let m9 = set_insert_point-Steps s8 m8.ready valid_bb in
                        (
                          set_insert_point s8 valid_bb,
                          refl,
                          record {
                            ready = m9.ready;
                            follows =
                                Follows-trans s s8 (set_insert_point s8 valid_bb) f8 m9.follows;
                          },
                        ))))))

Addressed-after :
    (a b : Builder) (ty : ℕ) (c : Builder) (v : ℕ)
    → Follows a b
    → Addressed b ty c v
    → Addressed a ty c v
Addressed-after a b ty c v f m = record {
  ready = m.ready;
  follows = Follows-trans a b c f m.follows;
  object = m.object;
  shape = m.shape;
}

-- The types of elements
module _ (ts : Types) where
  get_array_element_type-shape :
      (e t n : ℕ) → ts.shape e ≡ Shape.array t n → get_array_element_type ts e ≡ some t
  get_array_element_type-shape e t n shape = rw (get_array_element_type, shape) refl

  get_array_element_type-pointer :
      (e t : ℕ) → ts.shape e ≡ Shape.pointer t → get_array_element_type ts e ≡ none
  get_array_element_type-pointer e t shape = rw (get_array_element_type, shape) refl

  pub get_element_type-array :
      (p e t n i j : ℕ)
      → ts.shape p ≡ Shape.pointer e
      → ts.shape e ≡ Shape.array t n
      → get_element_type ts p (i ∷ j ∷ []) ≡ ok t
  unfolding get_element_type
  get_element_type-array p e t n i j shape array_shape =
      rw (get_pointer_element_type-shape ts p e shape, array_shape) refl

  pub basic_shape : IsInterned ts → (b : Basic) → ts.shape (type_id b) ≡ first_shape (type_id b)
  basic_shape interned int = interned.simple get_int32_type (omega arith)
  basic_shape interned float = interned.simple get_float_type (omega arith)

  get_element_type-basic :
      (p i : ℕ) (b : Basic)
      → IsInterned ts
      → ts.shape p ≡ Shape.pointer (type_id b)
      → get_element_type ts p (i ∷ []) ≡ ok (type_id b)
  unfolding get_element_type
  get_element_type-basic p i int interned shape =
      rw (get_pointer_element_type-shape ts p (type_id int) shape, basic_shape interned int) refl
  get_element_type-basic p i float interned shape =
      rw (get_pointer_element_type-shape ts p (type_id float) shape, basic_shape interned float)
        refl

module _ (s : Builder) (ready : Ready s) (index : ℕ) (o : IsObject s.code.heap index) where
  -- An element of an array variable
  address_in-array :
      (v t : ℕ) (b : Basic)
      → IsVariable s.code v (array b)
      → Yields (address_in s v index (some t)) (λ r. Addressed s (type_id b) r.0 r.1)
  address_in-array v t b (ov, (e, shape, lt, (n, array_shape))) =
      let k = constant_int (pos 0) in
      let (s1, first) = new_value s k get_int32_type in
      let m1 : Made s get_int32_type s1 first =
        new_value-Made s ready k get_int32_type (int32_known s ready) in
      let (ov1, (e1, shape1, lt1, (n1, array_shape1))) : IsVariable s1.code v (array b) =
        HasEntry-Follows s s1 ready.sound m1.follows v (variable (array b))
          (ov, (e, shape, lt, (n, array_shape))) in
      let (r, d, m) =
        gep-Addressed s1 m1.ready v (type_id b) (first ∷ index ∷ []) ov1
          (m1.object, (IsObject-Grows s.code s1.code m1.follows.grows index o, tt))
          (get_element_type-array s1.code.types (s1.code.type_of v) e1 (type_id b) n1 first index
            shape1 array_shape1) in
      (r, d, Addressed-after s s1 (type_id b) r.0 r.1 m1.follows m)

  -- An element of the array that a parameter points to
  address_in-pointer :
      (v : ℕ) (b : Basic)
      → IsVariable s.code v (pointer b)
      → Yields (address_in s v index none) (λ r. Addressed s (type_id b) r.0 r.1)
  address_in-pointer v b (ov, (e, shape, lt, points)) =
      Yields-bind (build_load-Made s ready v e ov shape lt) (λ r m.
        let loaded_shape : r.0.code.types.shape (r.0.code.type_of r.1) ≡ Shape.pointer (type_id b) =
          rw m.typed (m.follows.grows.shape_same e lt ∙ points) in
        let (q, d, a) =
          gep-Addressed r.0 m.ready r.1 (type_id b) (index ∷ []) m.object
            (IsObject-Grows s.code r.0.code m.follows.grows index o, tt)
            (get_element_type-basic r.0.code.types (r.0.code.type_of r.1) index b
              m.ready.sound.interned loaded_shape) in
        (q, d, Addressed-after s r.0 (type_id b) q.0 q.1 m.follows a))

-- The array is found by its name.
module _ (s : Builder) (ready : Ready s) (index : ℕ) (o : IsObject s.code.heap index) where
  base_element-array :
      (v : ℕ) (b : Basic)
      → IsVariable s.code v (array b)
      → Yields (base_element s index (some v)) (λ r. Addressed s (type_id b) r.0 r.1)
  base_element-array v b (ov, (e, shape, lt, (n, array_shape))) =
      rw
        (
          get_pointer_element_type-shape s.code.types (s.code.type_of v) e shape,
          get_array_element_type-shape s.code.types e (type_id b) n array_shape,
        )
        (address_in-array s ready index o v (type_id b) b (ov, (e, shape, lt, (n, array_shape))))

  base_element-pointer :
      (v : ℕ) (b : Basic)
      → IsVariable s.code v (pointer b)
      → Yields (base_element s index (some v)) (λ r. Addressed s (type_id b) r.0 r.1)
  base_element-pointer v b (ov, (e, shape, lt, points)) =
      rw
        (
          get_pointer_element_type-shape s.code.types (s.code.type_of v) e shape,
          get_array_element_type-pointer s.code.types e (type_id b) points,
        )
        (address_in-pointer s ready index o v b (ov, (e, shape, lt, points)))

  base_element-Addressed :
      (env : Env) (id : String) (b : Basic)
      → Agrees s env
      → IsIndexable env id b
      → Yields (base_element s index (find s.scope id)) (λ r. Addressed s (type_id b) r.0 r.1)
  base_element-Addressed env id b agrees (inl e, neg) =
      let (v, found, h) = agrees id (variable (array b)) e in rw found (base_element-array v b h)
  base_element-Addressed env id b agrees (inr e, neg) =
      let (v, found, h) = agrees id (variable (pointer b)) e in
      rw found (base_element-pointer v b h)

-- The address of an element, where the name is that of an array and the index is a number
pub element_address-Addressed :
    (s : Builder) (env : Env) (id : String) (b x : Basic)
    → Ready s
    → Agrees s env
    → IsIndexable env id b
    → IsObject s.code.heap s.curr_val
    → s.code.type_of s.curr_val ≡ type_id x
    → Yields (element_address s (find s.scope id)) (λ r. Addressed s (type_id b) r.0 r.1)
unfolding element_address
element_address-Addressed s env id b x ready agrees indexable o t =
    Yields-bind (to_index-Made s ready s.curr_val x o t) (λ r m.
      let (f, found, fn) =
        Agrees-Follows s r.0 ready.sound m.follows env agrees "neg_idx_except" (function void [])
          indexable.1 in
      Yields-bind (check_index-Steps r.0 m.ready r.1 f m.object found fn) (λ s2 m2.
        let f2 : Follows s s2 = Follows-trans s r.0 s2 m.follows m2.follows in
        let (q, d, a) =
          base_element-Addressed s2 m2.ready r.1
            (IsObject-Grows r.0.code s2.code m2.follows.grows r.1 m.object) env id b
            (Agrees-Follows s s2 ready.sound f2 env agrees) indexable in
        (
          q,
          ap (λ names. base_element s2 r.1 (find names id)) (sym f2.scope_same) ∙ d,
          Addressed-after s s2 (type_id b) q.0 q.1 f2 a,
        )))
