-- ===== src/Builder/Gen/Compounds.antt =====
-- src/cminusfc/cminusf_builder.cpp: the start and the end of a compound statement.
use Prim.Native.Nat.{suc}
use ustc_2021_compliers.Base.{
  ℕ, String, ◌-◌, ◌≡◌, refl, ap, ◌∙◌, true, Option, List, [], ◌∷◌, arith, ok, Yields, ◌>>=◌, ltb,
  lt→ltb, if◌then◌else◌,
}
use ustc_2021_compliers.Ir.Create.Kept.{Grows, Grows-trans}
use ustc_2021_compliers.Builder.Scope.{find, enter, exit}
use ustc_2021_compliers.Builder.Gen.{Builder}
use ustc_2021_compliers.Builder.Gen.Statements.{enter_compound, exit_compound}
use ustc_2021_compliers.Builder.Gen.Typing.{Basic, Entry, variable, function, Env}
use ustc_2021_compliers.Builder.Gen.Ready.{HasEntry, Agrees, Follows-refl}
use ustc_2021_compliers.Builder.Gen.Addresses.{Steps}
use ustc_2021_compliers.Builder.Gen.Locals.{Opened}
use ustc_2021_compliers.Builder.Gen.Inside.{Inside, ReturnsTo-Follows}

-- The start of a compound statement within a function
module _ (env : Env) (ret : Option Basic) (s : Builder) (i : Inside env ret s) where
  entered_scope : (enter_compound s).scope ≡ [] ∷ s.scope
  unfolding enter
  entered_scope = rw (lt→ltb 0 s.compound_stmt_depth i.depth) refl

  entered-HasEntry :
      (v : ℕ) (entry : Entry) → HasEntry s v entry → HasEntry (enter_compound s) v entry
  entered-HasEntry v (variable t) h = h
  entered-HasEntry v (function t params) h = h

  entered-Agrees : Agrees (enter_compound s) ([] ∷ env)
  unfolding find
  entered-Agrees name entry e =
      let (v, found, h) = i.agrees name entry e in
      (v, ap (λ sc. find sc name) entered_scope ∙ found, entered-HasEntry v entry h)

  pub entered-Opened : Opened (enter_compound s) s.scope [] env (enter_compound s)
  entered-Opened = record {
    ready = record { sound = i.ready.sound; ret = i.ready.ret; labels = i.ready.labels };
    follows = Follows-refl (enter_compound s);
    frame = [];
    innermost = entered_scope;
    same = λ id. refl;
    agrees = entered-Agrees;
  }

  -- The state after the local declarations
  pub Inside-Opened :
      (names : List (String × Entry)) (s1 : Builder)
      → Opened (enter_compound s) s.scope names env s1
      → Inside (names ∷ env) ret s1
  Inside-Opened names s1 o = record {
    ready = o.ready;
    agrees = o.agrees;
    returns =
        ReturnsTo-Follows s s1 ret i.ready (grows_from s1 o.follows.grows) o.follows.ret_addr_same
          i.returns;
    depth = rw o.follows.depth_same (omega arith);
  }
    where
      grows_from : (s1 : Builder) → Grows (enter_compound s).code s1.code → Grows s.code s1.code
      grows_from s1 g = g

  -- The end of a compound statement
  pub left-Steps :
      (names : List (String × Entry)) (s1 s2 : Builder)
      → Opened (enter_compound s) s.scope names env s1
      → Steps s1 s2
      → Yields (exit_compound s2) (Steps s)
  unfolding exit
  left-Steps names s1 s2 o m =
      let depth : s2.compound_stmt_depth ≡ suc s.compound_stmt_depth =
        m.follows.depth_same ∙ o.follows.depth_same in
      let scope : s2.scope ≡ o.frame ∷ s.scope = m.follows.scope_same ∙ o.innermost in
      let left : Builder = record s2 { compound_stmt_depth = s2.compound_stmt_depth - 1 } in
      let test : ltb 0 (s2.compound_stmt_depth - 1) ≡ true =
        lt→ltb 0 (s2.compound_stmt_depth - 1) (omega (arith, depth, i.depth)) in
      (
        record left { scope = s.scope },
        ap
              (λ b.
                if b
                then (exit s2.scope >>= λ names. ok (record left { scope = names }))
                else ok left)
              test
            ∙ ap (λ sc. exit sc >>= λ names. ok (record left { scope = names })) scope,
        record {
          ready = record { sound = m.ready.sound; ret = m.ready.ret; labels = m.ready.labels };
          follows = record {
            grows = Grows-trans s.code s1.code s2.code (grown s1 o.follows.grows) m.follows.grows;
            scope_same = refl;
            arguments_same = m.follows.arguments_same ∙ o.follows.arguments_same;
            ret_bb_same = m.follows.ret_bb_same ∙ o.follows.ret_bb_same;
            ret_addr_same = m.follows.ret_addr_same ∙ o.follows.ret_addr_same;
            depth_same = omega (arith, depth);
          };
        },
      )
    where
      grown : (s1 : Builder) → Grows (enter_compound s).code s1.code → Grows s.code s1.code
      grown s1 g = g
