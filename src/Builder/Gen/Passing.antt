-- ===== src/Builder/Gen/Passing.antt =====
-- src/cminusfc/cminusf_builder.cpp: how the code of a call passes its arguments, and the elements of arrays.
use mathlib.Core.Path.{subst}
use ustc_2021_compliers.Base.{
  ℕ, String, ◌+◌, ◌≡◌, ◌∙◌, List, [], ◌∷◌, ◌++◌, length, length-append, All, All-map, All-append,
  arith, Yields, Yields-bind,
}
use ustc_2021_compliers.Ast.{Expression, Expressions}
use ustc_2021_compliers.Ir.Types.{Shape}
use ustc_2021_compliers.Ir.Create.Created.{IsObject}
use ustc_2021_compliers.Ir.Create.Kept.{IsObject-Grows}
use ustc_2021_compliers.Builder.Scope.{find}
use ustc_2021_compliers.Builder.Gen.{Builder, element_address}
use ustc_2021_compliers.Builder.Gen.Expressions.{build_expression, build_arguments, build_argument}
use ustc_2021_compliers.Builder.Gen.Typing.{Basic, Ty, basic, Env, IsIndexable}
use ustc_2021_compliers.Builder.Gen.Ready.{
  type_id, HaveTypes, HaveTypes-Grows, Agrees, Agrees-Follows, Ready, Follows, Follows-trans,
}
use ustc_2021_compliers.Builder.Gen.Addresses.{Addressed}
use ustc_2021_compliers.Builder.Gen.Elements.{element_address-Addressed}
use ustc_2021_compliers.Builder.Gen.Operations.{Visited}
use ustc_2021_compliers.Builder.Gen.Arguments.{Valued}

-- The arguments that were visited
pub record Passed (s : Builder) (n : ℕ) (r : Builder × List ℕ) : Type 0 where
  pub ready : Ready r.0
  pub follows : Follows s r.0
  pub objects : All (IsObject r.0.code.heap) r.1
  pub count : length r.1 ≡ n

-- The address of a cell stays what it is.
pub shape_after :
    (a b : Builder) (v ty : ℕ)
    → Ready a
    → Follows a b
    → IsObject a.code.heap v
    → a.code.types.shape (a.code.type_of v) ≡ Shape.pointer ty
    → b.code.types.shape (b.code.type_of v) ≡ Shape.pointer ty
shape_after a b v ty ready f o shape =
    rw (f.grows.type_same v o.1)
      (f.grows.shape_same (a.code.type_of v) (ready.sound.typed v o.1) ∙ shape)

abbrev pub AllObjects : Builder → List ℕ → Type 0
AllObjects s vs = All (IsObject s.code.heap) vs

module _ (env : Env) where
  -- An argument is visited and converted, and then the others.
  pub pass :
      (s : Builder) (arg : Expression) (args : Expressions) (a : ℕ) (objs call_args : List ℕ)
      (t u : Ty) (ts : List Ty)
      → Ready s
      → Agrees s env
      → HaveTypes s.code (a ∷ objs) (t ∷ ts)
      → AllObjects s call_args
      → Yields (build_expression arg s) (Visited s u)
      → ((s1 : Builder) → Visited s u s1 → Yields (build_argument s1 arg a) (Valued s1))
      → ((cs : List ℕ) (s2 : Builder)
          → Ready s2
          → Agrees s2 env
          → HaveTypes s2.code objs ts
          → AllObjects s2 cs
          → Yields (build_arguments args objs cs s2) (Passed s2 (length cs + length ts)))
      → Yields
          (build_arguments (Expressions.cons arg args) (a ∷ objs) call_args s)
          (Passed s (length call_args + length (t ∷ ts)))
  unfolding build_arguments
  pass s arg args a objs call_args t u ts ready agrees h objects visited convert rest =
      Yields-bind visited (λ s1 m1. Yields-bind (convert s1 m1) (λ s2 m2.
        let f2 : Follows s s2 = Follows-trans s s1 s2 m1.follows m2.follows in
        let (r, e, m) =
          rest (call_args ++ s2.curr_val ∷ []) s2 m2.ready
            (Agrees-Follows s s2 ready.sound f2 env agrees)
            (HaveTypes-Grows s.code s2.code ready.sound f2.grows objs ts h.2)
            (All-append (IsObject s2.code.heap) call_args (s2.curr_val ∷ [])
              (All-map call_args (λ v o. IsObject-Grows s.code s2.code f2.grows v o) objects)
              (m2.object, tt)) in
        (
          r,
          e,
          record {
            ready = m.ready;
            follows = Follows-trans s s2 r.0 f2 m.follows;
            objects = m.objects;
            count = m.count ∙ omega (arith, length-append call_args (s2.curr_val ∷ []));
          },
        )))

  -- The address of an element, found before the index was visited
  pub element_at :
      (s s1 : Builder) (id : String) (b x : Basic)
      → Ready s
      → Agrees s env
      → IsIndexable env id b
      → Visited s (basic x) s1
      → Yields (element_address s1 (find s.scope id)) (λ r. Addressed s1 (type_id b) r.0 r.1)
  element_at s s1 id b x ready agrees indexable m =
      subst
        (λ names.
          Yields (element_address s1 (find names id)) (λ r. Addressed s1 (type_id b) r.0 r.1))
        m.follows.scope_same
        (element_address-Addressed s1 env id b x m.ready
          (Agrees-Follows s s1 ready.sound m.follows env agrees) indexable m.object m.typed)
