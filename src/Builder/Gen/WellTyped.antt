-- ===== src/Builder/Gen/WellTyped.antt =====
-- src/cminusfc/cminusf_builder.cpp: the code of a typed expression.
use ustc_2021_compliers.Base.{
  ℕ, ◌+◌, ◌≡◌, refl, ap, ◌∙◌, inl, inr, List, [], ◌∷◌, length, arith, ok, Yields, Yields-bind,
}
use ustc_2021_compliers.Ast.{
  Expression, Var, AdditiveExpression, Term, Factor, Expressions, assign_expression,
  simple_expression, relation, scalar, element, single_term, sum, single_factor, product,
}
use ustc_2021_compliers.Ir.Instruction.{OpId, CmpOp}
use ustc_2021_compliers.Ir.Types.{Shape, get_int32_type, get_float_type, get_int1_type}
use ustc_2021_compliers.Ir.Create.Kept.{IsObject-Grows}
use ustc_2021_compliers.Builder.Gen.{Builder, set_val}
use ustc_2021_compliers.Builder.Gen.Expressions.{
  int_sum, float_sum, int_product, float_product, int_relation, float_relation, build_expression,
  build_var, build_additive, build_term, build_factor, build_arguments,
}
use ustc_2021_compliers.Builder.Gen.Typing.{
  int, Ty, basic, array, pointer, void, variable, function, Env, join, IsTyped, IsTypedVar,
  IsTypedAdditive, IsTypedTerm, IsTypedFactor, AreTyped,
}
use ustc_2021_compliers.Builder.Gen.Ready.{
  type_id, HasType-at, IsVariable, IsFunction, HaveTypes, HasType-Grows, HasEntry-Follows, Agrees,
  Agrees-Follows, Ready, Follows, Follows-refl, Follows-trans,
}
use ustc_2021_compliers.Builder.Gen.Emits.{Made-after, emitted-Made, int32_known}
use ustc_2021_compliers.Builder.Gen.Addresses.{build_call-Made, basic_known}
use ustc_2021_compliers.Builder.Gen.Operations.{Visited, Visited-after, set_val-Visited, pick}
use ustc_2021_compliers.Builder.Gen.Stores.{build_assign-Visited}
use ustc_2021_compliers.Builder.Gen.Arguments.{
  build_argument-number, build_argument-pointer, build_argument-array,
}
use ustc_2021_compliers.Builder.Gen.Values.{
  int_sum-Makes, float_sum-Makes, int_product-Makes, float_product-Makes, int_relation-Makes,
  float_relation-Makes, pick-basic, number-Visited, build_num-Visited, operation-Made, load-Visited,
}
use ustc_2021_compliers.Builder.Gen.Passing.{shape_after, AllObjects, Passed, pass, element_at}

module _ (env : Env) where
  mutual
    unfolding build_expression build_var build_additive build_term build_factor build_arguments

    expression-Visited :
        (e : Expression) (t : Ty) (s : Builder)
        → Ready s
        → Agrees s env
        → IsTyped env e t
        → Yields (build_expression e s) (Visited s t)
    expression-Visited (assign_expression (scalar id) e) t s ready agrees (b, et, found, (x, te)) =
        let (v, here, var) = agrees id (variable (basic b)) found in
        Yields-bind (expression-Visited e (basic x) s ready agrees te) (λ s1 m.
          let (o, (c, shape, lt, h)) : IsVariable s1.code v (basic b) =
            HasEntry-Follows s s1 ready.sound m.follows v (variable (basic b)) var in
          let (z, d, a) =
            build_assign-Visited s1 m.ready v o m.object b x (shape ∙ ap Shape.pointer h) m.typed in
          rw (here, et) (z, d, Visited-after s s1 (basic b) z m.follows a))
    expression-Visited (assign_expression (element id i) e) t s ready agrees
          (b, et, indexable, (x, ti), (y, te)) =
        Yields-bind (expression-Visited i (basic x) s ready agrees ti) (λ s1 m1.
          Yields-bind (element_at env s s1 id b x ready agrees indexable m1) (λ q a.
            let f : Follows s q.0 = Follows-trans s s1 q.0 m1.follows a.follows in
            Yields-bind
              (expression-Visited e (basic y) q.0 a.ready
                (Agrees-Follows s q.0 ready.sound f env agrees) te)
              (λ s3 m3.
                let (z, d, c) =
                  build_assign-Visited s3 m3.ready q.1
                    (IsObject-Grows q.0.code s3.code m3.follows.grows q.1 a.object) m3.object b y
                    (shape_after q.0 s3 q.1 (type_id b) a.ready m3.follows a.object a.shape)
                    m3.typed in
                rw et
                  (z, d, Visited-after s s3 (basic b) z (Follows-trans s q.0 s3 f m3.follows) c))))
    expression-Visited (simple_expression a) t s ready agrees typed =
        additive-Visited a t s ready agrees typed
    expression-Visited (relation a op b) t s ready agrees (et, (x, ta), (y, tb)) =
        Yields-bind (additive-Visited a (basic x) s ready agrees ta) (λ s1 m.
          Yields-bind
            (additive-Visited b (basic y) s1 m.ready
              (Agrees-Follows s s1 ready.sound m.follows env agrees) tb)
            (λ s2 n.
              Yields-bind
                (operation-Made (int_relation op) (float_relation op) get_int1_type get_int1_type
                  (int_relation-Makes op) (float_relation-Makes op) s s1 s2 x y m n)
                (λ q c.
                  Yields-bind
                    (emitted-Made q.0 c.ready OpId.zext CmpOp.eq get_int32_type (q.1 ∷ [])
                      q.0.insert_block (int32_known q.0 c.ready) (c.object, tt))
                    (λ r d. rw et (
                      set_val r,
                      refl,
                      number-Visited s int get_int32_type r refl
                          (Made-after s q.0 get_int32_type r.0 r.1 c.follows d),
                    )))))

    var-Visited :
        (v : Var) (t : Ty) (s : Builder)
        → Ready s
        → Agrees s env
        → IsTypedVar env v t
        → Yields (build_var v s) (Visited s t)
    var-Visited (scalar id) t s ready agrees typed =
        let (v, here, var) = agrees id (variable t) typed in rw here (load-Visited s v t ready var)
    var-Visited (element id i) t s ready agrees (b, et, indexable, (x, ti)) =
        Yields-bind (expression-Visited i (basic x) s ready agrees ti) (λ s1 m.
          Yields-bind (element_at env s s1 id b x ready agrees indexable m) (λ q a.
            let (z, d, c) =
              load-Visited q.0 q.1 (basic b) a.ready
                (a.object, (type_id b, a.shape, basic_known q.0 a.ready b, refl)) in
            rw et (
              z,
              d,
              Visited-after s q.0 (basic b) z (Follows-trans s s1 q.0 m.follows a.follows) c,
            )))

    additive-Visited :
        (a : AdditiveExpression) (t : Ty) (s : Builder)
        → Ready s
        → Agrees s env
        → IsTypedAdditive env a t
        → Yields (build_additive a s) (Visited s t)
    additive-Visited (single_term f) t s ready agrees typed = term-Visited f t s ready agrees typed
    additive-Visited (sum a op f) t s ready agrees (x, y, et, ta, tf) =
        Yields-bind (additive-Visited a (basic x) s ready agrees ta) (λ s1 m.
          Yields-bind
            (term-Visited f (basic y) s1 m.ready
              (Agrees-Follows s s1 ready.sound m.follows env agrees) tf)
            (λ s2 n.
              Yields-bind
                (operation-Made (int_sum op) (float_sum op) get_int32_type get_float_type
                  (int_sum-Makes op) (float_sum-Makes op) s s1 s2 x y m n)
                (λ q c. rw et (
                  set_val q,
                  refl,
                  number-Visited s (join x y) (pick (join x y) get_int32_type get_float_type) q
                      (pick-basic (join x y)) c,
                ))))

    term-Visited :
        (a : Term) (t : Ty) (s : Builder)
        → Ready s
        → Agrees s env
        → IsTypedTerm env a t
        → Yields (build_term a s) (Visited s t)
    term-Visited (single_factor f) t s ready agrees typed = factor-Visited f t s ready agrees typed
    term-Visited (product a op f) t s ready agrees (x, y, et, ta, tf) =
        Yields-bind (term-Visited a (basic x) s ready agrees ta) (λ s1 m.
          Yields-bind
            (factor-Visited f (basic y) s1 m.ready
              (Agrees-Follows s s1 ready.sound m.follows env agrees) tf)
            (λ s2 n.
              Yields-bind
                (operation-Made (int_product op) (float_product op) get_int32_type get_float_type
                  (int_product-Makes op) (float_product-Makes op) s s1 s2 x y m n)
                (λ q c. rw et (
                  set_val q,
                  refl,
                  number-Visited s (join x y) (pick (join x y) get_int32_type get_float_type) q
                      (pick-basic (join x y)) c,
                ))))

    factor-Visited :
        (f : Factor) (t : Ty) (s : Builder)
        → Ready s
        → Agrees s env
        → IsTypedFactor env f t
        → Yields (build_factor f s) (Visited s t)
    factor-Visited (Factor.num n) t s ready agrees typed = rw typed (build_num-Visited s ready n)
    factor-Visited (Factor.expression e) t s ready agrees typed =
        expression-Visited e t s ready agrees typed
    factor-Visited (Factor.var v) t s ready agrees typed = var-Visited v t s ready agrees typed
    factor-Visited (Factor.call id args) t s ready agrees (params, found, typed) =
        let (v, here, fn) = agrees id (function t params) found in
        rw (here, fn.kind)
          (Yields-bind
            (arguments-Passed args params (s.arguments v) [] s ready agrees fn.arguments typed tt)
            (λ r m.
              let called : IsFunction r.0.code v (r.0.arguments v) t params =
                HasEntry-Follows s r.0 ready.sound m.follows v (function t params) fn in
              Yields-bind
                (build_call-Made r.0 m.ready v (r.0.arguments v) t params r.1 called m.objects
                  (omega (arith, m.count)))
                (λ q n. (
                  set_val q,
                  refl,
                  set_val-Visited s q.0 q.1 t n.ready (Follows-trans s r.0 q.0 m.follows n.follows)
                      n.object
                      (rw n.typed (
                        HasType-Grows r.0.code q.0.code m.ready.sound n.follows.grows
                          (r.0.code.return_type v) t called.returned_known called.returned)),
                ))))

    arguments-Passed :
        (args : Expressions) (params : List Ty) (objs call_args : List ℕ) (s : Builder)
        → Ready s
        → Agrees s env
        → HaveTypes s.code objs params
        → AreTyped env args params
        → AllObjects s call_args
        → Yields
            (build_arguments args objs call_args s)
            (Passed s (length call_args + length params))
    arguments-Passed Expressions.nil [] objs call_args s ready agrees h typed objects = (
      (s, call_args),
      refl,
      record { ready = ready; follows = Follows-refl s; objects = objects; count = omega arith },
    )
    arguments-Passed Expressions.nil (t ∷ ts) objs call_args s ready agrees h typed objects =
        absurd typed
    arguments-Passed (Expressions.cons e es) [] objs call_args s ready agrees h typed objects =
        absurd typed
    arguments-Passed (Expressions.cons e es) (t ∷ ts) [] call_args s ready agrees h typed objects =
        absurd h
    arguments-Passed (Expressions.cons e es) (basic b ∷ ts) (a ∷ objs) call_args s ready agrees h
          ((x, te), typed) objects =
        pass env s e es a objs call_args (basic b) (basic x) ts ready agrees h objects
          (expression-Visited e (basic x) s ready agrees te)
          (λ s1 m.
            build_argument-number s1 m.ready e a m.object b x
              (m.follows.grows.type_same a h.0.1 ∙ h.1) m.typed)
          (λ cs s2 r2 a2 h2 o2. arguments-Passed es ts objs cs s2 r2 a2 h2 typed o2)
    arguments-Passed (Expressions.cons e es) (pointer b ∷ ts) (a ∷ objs) call_args s ready agrees h
          (inl te, typed) objects =
        pass env s e es a objs call_args (pointer b) (pointer b) ts ready agrees h objects
          (expression-Visited e (pointer b) s ready agrees te)
          (λ s1 m.
            build_argument-pointer s1 m.ready e a m.object b
              (IsObject-Grows s.code s1.code m.follows.grows a h.0)
              (HasType-at s.code s1.code ready.sound m.follows.grows a (pointer b) h.0 h.1) m.typed)
          (λ cs s2 r2 a2 h2 o2. arguments-Passed es ts objs cs s2 r2 a2 h2 typed o2)
    arguments-Passed (Expressions.cons e es) (pointer b ∷ ts) (a ∷ objs) call_args s ready agrees h
          (inr (te, (id, named, found)), typed) objects =
        pass env s e es a objs call_args (pointer b) (array b) ts ready agrees h objects
          (expression-Visited e (array b) s ready agrees te)
          (λ s1 m.
            let (v, here, var) =
              Agrees-Follows s s1 ready.sound m.follows env agrees id (variable (array b)) found in
            build_argument-array s1 m.ready e a m.object id v b
              (HasType-at s.code s1.code ready.sound m.follows.grows a (pointer b) h.0 h.1) m.typed
              named here var)
          (λ cs s2 r2 a2 h2 o2. arguments-Passed es ts objs cs s2 r2 a2 h2 typed o2)
    arguments-Passed (Expressions.cons e es) (array b ∷ ts) (a ∷ objs) call_args s ready agrees h
          typed objects =
        absurd typed.0
    arguments-Passed (Expressions.cons e es) (void ∷ ts) (a ∷ objs) call_args s ready agrees h typed
          objects =
        absurd typed.0

-- Where the state is ready and the visible names are as the type system says, the code of an expression
-- of the type `t` is generated without an abort and without undefined behaviour; the state is ready
-- afterwards, and the names, the objects and their types stay; the value of the expression is an object of the type `t`.
pub build_expression-Visited :
    (env : Env) (e : Expression) (t : Ty) (s : Builder)
    → Ready s
    → Agrees s env
    → IsTyped env e t
    → (s' : Builder) × (build_expression e s ≡ ok s') × Visited s t s'
build_expression-Visited env e t s ready agrees typed =
    expression-Visited env e t s ready agrees typed
