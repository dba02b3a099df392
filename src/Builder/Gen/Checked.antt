-- ===== src/Builder/Gen/Checked.antt =====
-- src/cminusfc/cminusf_builder.cpp: the code of typed statements.
use mathlib.Core.Path.{subst}
use ustc_2021_compliers.Base.{◌≡◌, refl, Option, none, some, [], ◌∷◌, ok, Yields, Yields-bind}
use ustc_2021_compliers.Ast.{
  Statement, Statements, CompoundStmt, compound, expression_stmt, compound_stmt, selection_stmt,
  selection_else_stmt, iteration_stmt, return_stmt,
}
use ustc_2021_compliers.Ir.Types.{get_label_type}
use ustc_2021_compliers.Ir.Create.Kept.{IsObject-Grows}
use ustc_2021_compliers.Builder.Gen.{Builder, new_block, set_insert_point}
use ustc_2021_compliers.Builder.Gen.Statements.{
  enter_compound, build_statement, build_compound, build_statements,
}
use ustc_2021_compliers.Builder.Gen.Typing.{Basic, basic, Env}
use ustc_2021_compliers.Builder.Gen.Declared.{
  declare_all, IsTypedStatement, IsTypedCompound, IsTypedStatements,
}
use ustc_2021_compliers.Builder.Gen.Ready.{Follows, Follows-refl, Follows-trans}
use ustc_2021_compliers.Builder.Gen.Emits.{Made, new_block-Made}
use ustc_2021_compliers.Builder.Gen.Addresses.{Steps, Steps-trans, build_br-Steps}
use ustc_2021_compliers.Builder.Gen.Stores.{build_returned-Visited}
use ustc_2021_compliers.Builder.Gen.WellTyped.{build_expression-Visited}
use ustc_2021_compliers.Builder.Gen.Locals.{build_locals-Opened}
use ustc_2021_compliers.Builder.Gen.Inside.{
  ReturnsTo, Inside, Inside-Steps, if_condition-Made, while_condition-Made, then_insert_at-Steps,
  branch-Steps, Blocks2, two_blocks,
}
use ustc_2021_compliers.Builder.Gen.Compounds.{entered-Opened, Inside-Opened, left-Steps}

-- The statements, by induction
mutual
  unfolding build_statement build_compound build_statements

  statement-Steps :
      (st : Statement) (env : Env) (ret : Option Basic) (s : Builder)
      → Inside env ret s
      → IsTypedStatement st env ret
      → Yields (build_statement st s) (Steps s)
  statement-Steps (expression_stmt none) env ret s i typed =
      (s, refl, record { ready = i.ready; follows = Follows-refl s })
  statement-Steps (expression_stmt (some e)) env ret s i (t, typed) =
      let (s1, d, m) = build_expression-Visited env e t s i.ready i.agrees typed in
      (s1, d, record { ready = m.ready; follows = m.follows })
  statement-Steps (compound_stmt c) env ret s i typed = compound-Steps c env ret s i typed
  statement-Steps (selection_stmt e st) env ret s i ((x, te), ts) =
      Yields-bind (build_expression-Visited env e (basic x) s i.ready i.agrees te) (λ s1 m1.
        Yields-bind (if_condition-Made s1 m1.ready m1.object x m1.typed) (λ r m2.
          let (s3, true_bb) = new_block r.0 "if_true" in
          let (s4, end_bb) = new_block s3 "if_end" in
          let two : Blocks2 r.0 s4 true_bb end_bb = two_blocks r.0 "if_true" "if_end" m2.ready in
          let f4 : Follows s s4 =
            Follows-trans s s1 s4 m1.follows
              (Follows-trans s1 r.0 s4 m2.follows two.steps.follows) in
          Yields-bind
            (branch-Steps s4 r.1 true_bb end_bb two.steps.ready
              (IsObject-Grows r.0.code s4.code two.steps.follows.grows r.1 m2.object) two.first
              two.second)
            (λ s5 m5.
              let s6 : Builder = set_insert_point s5 true_bb in
              let f6 : Follows s s6 = Follows-trans s s4 s6 f4 m5.follows in
              Yields-bind
                (statement-Steps st env ret s6 (Inside-Steps env ret s s6 i m5.ready f6) ts)
                (λ s7 m7.
                  let f47 : Follows s4 s7 = Follows-trans s4 s6 s7 m5.follows m7.follows in
                  let (z, d, m8) =
                    then_insert_at-Steps s7 end_bb end_bb m7.ready
                      (IsObject-Grows s4.code s7.code f47.grows end_bb two.second) in
                  (
                    z,
                    d,
                    record {
                      ready = m8.ready;
                      follows = Follows-trans s s4 z f4 (Follows-trans s4 s7 z f47 m8.follows);
                    },
                  )))))
  statement-Steps (selection_else_stmt e st other) env ret s i ((x, te), ts, to) =
      Yields-bind (build_expression-Visited env e (basic x) s i.ready i.agrees te) (λ s1 m1.
        Yields-bind (if_condition-Made s1 m1.ready m1.object x m1.typed) (λ r m2.
          let (s3, true_bb) = new_block r.0 "if_true" in
          let (s4, end_bb) = new_block s3 "if_end" in
          let (s5, false_bb) = new_block s4 "if_false" in
          let two : Blocks2 r.0 s4 true_bb end_bb = two_blocks r.0 "if_true" "if_end" m2.ready in
          let m5 : Made s4 get_label_type s5 false_bb =
            new_block-Made s4 two.steps.ready "if_false" in
          let f5 : Follows s s5 = Follows-trans s s1 s5 m1.follows (
            Follows-trans s1 r.0 s5 m2.follows
              (Follows-trans r.0 s4 s5 two.steps.follows m5.follows)) in
          let kept = m5.follows.grows in
          Yields-bind
            (branch-Steps s5 r.1 true_bb false_bb m5.ready
              (IsObject-Grows s4.code s5.code kept r.1
                (IsObject-Grows r.0.code s4.code two.steps.follows.grows r.1 m2.object))
              (IsObject-Grows s4.code s5.code kept true_bb two.first) m5.object)
            (λ s6 m6.
              let s6' : Builder = set_insert_point s6 true_bb in
              let i6 =
                Inside-Steps env ret s s6' i m6.ready (Follows-trans s s5 s6' f5 m6.follows) in
              Yields-bind (statement-Steps st env ret s6' i6 ts) (λ s7 m7.
                let f7 : Follows s5 s7 = Follows-trans s5 s6' s7 m6.follows m7.follows in
                let end5 = IsObject-Grows s4.code s5.code kept end_bb two.second in
                Yields-bind
                  (then_insert_at-Steps s7 end_bb false_bb m7.ready
                    (IsObject-Grows s5.code s7.code f7.grows end_bb end5))
                  (λ s8 m8.
                    let f8 : Follows s5 s8 = Follows-trans s5 s7 s8 f7 m8.follows in
                    let i8 = Inside-Steps env ret s s8 i m8.ready (Follows-trans s s5 s8 f5 f8) in
                    Yields-bind (statement-Steps other env ret s8 i8 to) (λ s9 m9.
                      let f9 : Follows s5 s9 = Follows-trans s5 s8 s9 f8 m9.follows in
                      let (z, d, m10) =
                        then_insert_at-Steps s9 end_bb end_bb m9.ready
                          (IsObject-Grows s5.code s9.code f9.grows end_bb end5) in
                      (
                        z,
                        d,
                        record {
                          ready = m10.ready;
                          follows = Follows-trans s s5 z f5 (Follows-trans s5 s9 z f9 m10.follows);
                        },
                      )))))))
  statement-Steps (iteration_stmt e st) env ret s i ((x, te), ts) =
      let (s1, judge_bb) = new_block s "while_judge" in
      let m1 : Made s get_label_type s1 judge_bb = new_block-Made s i.ready "while_judge" in
      Yields-bind (then_insert_at-Steps s1 judge_bb judge_bb m1.ready m1.object) (λ s2 m2.
        let f2 : Follows s s2 = Follows-trans s s1 s2 m1.follows m2.follows in
        let i2 = Inside-Steps env ret s s2 i m2.ready f2 in
        Yields-bind (build_expression-Visited env e (basic x) s2 i2.ready i2.agrees te) (λ s3 m3.
          Yields-bind (while_condition-Made s3 m3.ready m3.object x m3.typed) (λ r m4.
            let (s5, loop_bb) = new_block r.0 "while_loop" in
            let (s6, end_bb) = new_block s5 "while_end" in
            let two : Blocks2 r.0 s6 loop_bb end_bb =
              two_blocks r.0 "while_loop" "while_end" m4.ready in
            let f26 : Follows s2 s6 =
              Follows-trans s2 s3 s6 m3.follows
                (Follows-trans s3 r.0 s6 m4.follows two.steps.follows) in
            Yields-bind
              (branch-Steps s6 r.1 loop_bb end_bb two.steps.ready
                (IsObject-Grows r.0.code s6.code two.steps.follows.grows r.1 m4.object) two.first
                two.second)
              (λ s7 m7.
                let s8 : Builder = set_insert_point s7 loop_bb in
                let f28 : Follows s2 s8 = Follows-trans s2 s6 s8 f26 m7.follows in
                let i8 = Inside-Steps env ret s s8 i m7.ready (Follows-trans s s2 s8 f2 f28) in
                Yields-bind (statement-Steps st env ret s8 i8 ts) (λ s9 m9.
                  let f9 : Follows s1 s9 =
                    Follows-trans s1 s2 s9 m2.follows (Follows-trans s2 s8 s9 f28 m9.follows) in
                  let (z, d, m10) =
                    then_insert_at-Steps s9 judge_bb end_bb m9.ready
                      (IsObject-Grows s1.code s9.code f9.grows judge_bb m1.object) in
                  (
                    z,
                    d,
                    record {
                      ready = m10.ready;
                      follows =
                          Follows-trans s s1 z m1.follows (Follows-trans s1 s9 z f9 m10.follows);
                    },
                  ))))))
  statement-Steps (return_stmt none) env ret s i typed =
      build_br-Steps s i.ready s.curr_ret_bb i.ready.ret
  statement-Steps (return_stmt (some e)) env ret s i ((b, has_result), (x, te)) =
      Yields-bind (build_expression-Visited env e (basic x) s i.ready i.agrees te) (λ s1 m1.
        let (a, there, o, shape) : ReturnsTo s1 (some b) =
          (Inside-Steps env (some b) s s1 (subst (λ k. Inside env k s) has_result i) m1.ready
            m1.follows).returns in
        Yields-bind (build_returned-Visited s1 m1.ready a o m1.object b x there shape m1.typed)
          (λ s2 m2.
            let (z, d, m3) = build_br-Steps s2 m2.ready s2.curr_ret_bb m2.ready.ret in
            (
              z,
              d,
              record {
                ready = m3.ready;
                follows =
                    Follows-trans s s2 z (Follows-trans s s1 s2 m1.follows m2.follows) m3.follows;
              },
            )))

  compound-Steps :
      (c : CompoundStmt) (env : Env) (ret : Option Basic) (s : Builder)
      → Inside env ret s
      → IsTypedCompound c env ret
      → Yields (build_compound c s) (Steps s)
  compound-Steps (compound locs sts) env ret s i typed =
      Yields-bind
        (build_locals-Opened (enter_compound s) s.scope env locs (enter_compound s) []
          (entered-Opened env ret s i))
        (λ s1 o.
          Yields-bind
            (statements-Steps sts (declare_all locs [] ∷ env) ret s1
              (Inside-Opened env ret s i (declare_all locs []) s1 o) typed)
            (λ s2 m. left-Steps env ret s i (declare_all locs []) s1 s2 o m))

  statements-Steps :
      (sts : Statements) (env : Env) (ret : Option Basic) (s : Builder)
      → Inside env ret s
      → IsTypedStatements sts env ret
      → Yields (build_statements sts s) (Steps s)
  statements-Steps Statements.nil env ret s i typed =
      (s, refl, record { ready = i.ready; follows = Follows-refl s })
  statements-Steps (Statements.cons st sts) env ret s i (t, ts) =
      Yields-bind (statement-Steps st env ret s i t) (λ s1 m.
        let (z, d, n) =
          statements-Steps sts env ret s1 (Inside-Steps env ret s s1 i m.ready m.follows) ts in
        (z, d, Steps-trans s s1 z m n))

-- Where the state is that within a function's body with the result `ret`, the code of a typed statement is generated without an
-- abort and without undefined behaviour; the state is ready afterwards, the scopes and the depth of
-- compound statements are what they were, and the objects and their types stay.
pub build_statement-Steps :
    (st : Statement) (env : Env) (ret : Option Basic) (s : Builder)
    → Inside env ret s
    → IsTypedStatement st env ret
    → (s' : Builder) × (build_statement st s ≡ ok s') × Steps s s'
build_statement-Steps st env ret s i typed = statement-Steps st env ret s i typed
