-- ===== src/Builder/Gen/Locals.antt =====
-- src/cminusfc/cminusf_builder.cpp: the local declarations of a compound statement.
use mathlib.Core.Path.{subst}
use text.Mathlib.Text.{◌==◌ as str_eq}
use ustc_2021_compliers.Base.{
  ℕ, String, ◌<◌, ◌≡◌, refl, sym, ap, ◌∙◌, Bool, true, false, not, ◌&&◌, Bool-cases, inl, inr,
  Option, none, some, List, [], ◌∷◌, arith, ok, Yields, Yields-bind, ◌>>=◌, if◌then◌else◌,
}
use ustc_2021_compliers.Base.Int.{ℤ}
use ustc_2021_compliers.Ast.{CminusType, type_int, type_float, type_void, VarDeclaration}
use ustc_2021_compliers.Ir.Instruction.{OpId, CmpOp}
use ustc_2021_compliers.Ir.Types.{get_pointer_type, is_valid_element_type}
use ustc_2021_compliers.Ir.Types.Interned.{
  get_array_type-WithArray, get_pointer_type-IsInterned, get_pointer_type-keeps,
}
use ustc_2021_compliers.Ir.Create.{Code, create_alloca}
use ustc_2021_compliers.Ir.Create.Kept.{IsSound, Grows, Grows-trans}
use ustc_2021_compliers.Builder.Scope.{map_find, map_insert, find, push}
use ustc_2021_compliers.Builder.Scope.Lookup.{is_none, map_find-insert_unless, find-map_insert}
use ustc_2021_compliers.Builder.Gen.{Builder, emitted}
use ustc_2021_compliers.Builder.Gen.Statements.{
  basic_type, array_length, declared_type, build_local, build_locals,
}
use ustc_2021_compliers.Builder.Gen.Typing.{Basic, int, float, Ty, Entry, variable, function, Env}
use ustc_2021_compliers.Builder.Gen.Declared.{declared, entry_of, declare, declare_all}
use ustc_2021_compliers.Builder.Gen.Ready.{
  type_id, HasType, HasType-Grows, IsVariable, HasEntry, Agrees, Agrees-Follows, Ready, Follows,
  Follows-refl, Follows-trans,
}
use ustc_2021_compliers.Builder.Gen.Emits.{
  emitted_in-Made, with_code-Ready, with_code-Follows, with_pointer-IsSound, with_pointer-Grows,
}
use ustc_2021_compliers.Builder.Gen.Addresses.{basic_known}
use ustc_2021_compliers.Builder.Gen.Elements.{basic_shape}

-- The type of a declared variable, in a state that follows
record Typed (s : Builder) (t : Ty) (s' : Builder) (p : ℕ) : Type 0 where
  ready : Ready s'
  follows : Follows s s'
  known : p < s'.code.types.next
  typed : HasType s'.code.types p t

declared_type-Typed :
    (s : Builder) (b : Basic) (num : Option ℤ)
    → Ready s
    → Yields (declared_type s (type_id b) num) (λ r. Typed s (declared num b) r.0 r.1)
declared_type-Typed s b none ready = (
  (s, type_id b),
  refl,
  record { ready = ready; follows = Follows-refl s; known = basic_known s ready b; typed = refl },
)
declared_type-Typed s b (some n) ready =
    Yields-bind
      (get_array_type-WithArray s.code.types ready.sound.interned (type_id b) (array_length n)
        (valid s ready b))
      (λ x w.
        let c : Code = record (s.code) { types = x.0 } in
        let grows : Grows s.code c = record {
          heap_le = omega arith;
          types_le = w.grown;
          type_same = λ v lt. refl;
          kind_same = λ v lt. refl;
          shape_same = w.shape_same;
          return_same = refl;
          num_same = refl;
        } in
        let sound : IsSound c = record {
          accurate = ready.sound.accurate;
          interned = w.still_interned;
          typed = λ v lt. omega (arith, w.grown, ready.sound.typed v lt);
        } in
        (
          (record s { code = c }, x.1),
          refl,
          record {
            ready = with_code-Ready s ready c sound grows;
            follows = with_code-Follows s ready c grows;
            known = w.known;
            typed = (array_length n, w.made);
          },
        ))
  where
    valid :
        (s : Builder)
        → Ready s
        → (b : Basic) → is_valid_element_type (s.code.types.shape (type_id b)) ≡ true
    valid s ready int = rw (basic_shape s.code.types ready.sound.interned int) refl
    valid s ready float = rw (basic_shape s.code.types ready.sound.interned float) refl

-- The cell of a variable
build_alloca-Variable :
    (s : Builder) (ty : ℕ) (t : Ty)
    → Ready s
    → ty < s.code.types.next
    → HasType s.code.types ty t
    → Yields
        (emitted s (create_alloca s.code ty s.insert_block))
        (λ r. Ready r.0 × Follows s r.0 × IsVariable r.0.code r.1 t)
build_alloca-Variable s ty t ready lt h =
    let ts = (get_pointer_type s.code.types ty).0 in
    let p = (get_pointer_type s.code.types ty).1 in
    let known = (get_pointer_type-keeps s.code.types ready.sound.interned ty).1 in
    let shape = (get_pointer_type-IsInterned s.code.types ready.sound.interned ty).1 in
    let (r, e, m, g) =
      emitted_in-Made s ready (record (s.code) { types = ts }) OpId.alloca CmpOp.eq p []
        s.insert_block (with_pointer-IsSound s ready ty) (with_pointer-Grows s ready ty) known tt in
    (
      r,
      e,
      (
        m.ready,
        m.follows,
        (
          m.object,
          (
            ty,
            rw m.typed (g.shape_same p known ∙ shape),
            omega (arith, lt, m.follows.grows.types_le),
            HasType-Grows s.code r.0.code ready.sound m.follows.grows ty t lt h,
          ),
        ),
      ),
    )

abbrev pub SameNames : List (String × ℕ) → List (String × Entry) → Type 0
SameNames f names = (id : String) → is_none (map_find id f) ≡ is_none (map_find id names)

-- The state within a compound statement: its innermost scope, within those of the state `s0`
pub record Opened (s0 : Builder) (fs : List (List (String × ℕ))) (names : List (String × Entry))
    (env : Env) (s : Builder) : Type 0 where
  pub ready : Ready s
  pub follows : Follows s0 (record s { scope = s0.scope })
  pub frame : List (String × ℕ)
  pub innermost : s.scope ≡ frame ∷ fs
  pub same : SameNames frame names
  pub agrees : Agrees s (names ∷ env)

HasEntry-scope :
    (s : Builder) (names : List (List (String × ℕ))) (v : ℕ) (entry : Entry)
    → HasEntry s v entry
    → HasEntry (record s { scope = names }) v entry
HasEntry-scope s names v (variable t) h = h
HasEntry-scope s names v (function t params) h = h

is_none-if :
    {V : Type 0} (c : Bool) (v : V) (o : Option V)
    → is_none (if c then some v else o) ≡ (not c && is_none o)
is_none-if true v o = refl
is_none-if false v o = refl

push-innermost :
    (f : List (String × ℕ)) (fs : List (List (String × ℕ))) (id : String) (v : ℕ)
    → push (f ∷ fs) id v ≡ ok ((map_insert id v f).0 ∷ fs, (map_insert id v f).1)
unfolding push
push-innermost f fs id v = refl

-- A declaration on both sides
module _ (f : List (String × ℕ)) (names : List (String × Entry)) (same : SameNames f names)
    (id : String) (v : ℕ) (entry : Entry) where
  inserted_same :
      (other : String)
      → (is_none (map_find id f) && str_eq id other)
        ≡ (is_none (map_find id names) && str_eq id other)
  inserted_same other = ap (λ b. b && str_eq id other) (same id)

  SameNames-map_insert : SameNames (map_insert id v f).0 (map_insert id entry names).0
  SameNames-map_insert other =
      ap is_none (map_find-insert_unless (map_find id f) f id other v)
      ∙ is_none-if (is_none (map_find id f) && str_eq id other) v (map_find other f)
      ∙ ap (λ b. not b && is_none (map_find other f)) (inserted_same other)
      ∙ ap (λ b. not (is_none (map_find id names) && str_eq id other) && b) (same other)
      ∙ sym
          (is_none-if (is_none (map_find id names) && str_eq id other) entry (map_find other names))
      ∙ sym (ap is_none (map_find-insert_unless (map_find id names) names id other entry))

  Agrees-map_insert :
      (s : Builder) (fs : List (List (String × ℕ))) (env : Env)
      → s.scope ≡ f ∷ fs
      → HasEntry s v entry
      → Agrees s (names ∷ env)
      → Agrees
          (record s { scope = (map_insert id v f).0 ∷ fs })
          ((map_insert id entry names).0 ∷ env)
  Agrees-map_insert s fs env innermost h agrees other en e =
      let there = sym (find-map_insert names env id other entry) ∙ e in
      let here =
        find-map_insert f fs id other v
        ∙ ap (λ b. if b then some v else find (f ∷ fs) other) (inserted_same other) in
      elim (Bool-cases (is_none (map_find id names) && str_eq id other)) [
        | inl t ↦
            let is_new : entry ≡ en = cc (rw t at there) in
            (
              v,
              here ∙ rw t refl,
              HasEntry-scope s ((map_insert id v f).0 ∷ fs) v en (subst (HasEntry s v) is_new h),
            )
        | inr n ↦
            let (w, found, k) = agrees other en (rw n at there) in
            (
              w,
              here ∙ rw n (ap (λ sc. find sc other) (sym innermost) ∙ found),
              HasEntry-scope s ((map_insert id v f).0 ∷ fs) w en k,
            )
      ]

module _ (s0 : Builder) (fs : List (List (String × ℕ))) (env : Env) where
  declare_variable :
      (s : Builder) (names : List (String × Entry)) (loc : VarDeclaration) (b : Basic)
      → Opened s0 fs names env s
      → Yields
          (build_local s loc (some (type_id b)))
          (Opened s0 fs (declare loc.id (some (variable (declared loc.num b))) names) env)
  declare_variable s names loc b o = Yields-bind (declared_type-Typed s b loc.num o.ready) (λ r m.
      Yields-bind (build_alloca-Variable r.0 r.1 (declared loc.num b) m.ready m.known m.typed)
        (λ q p.
          let f : Follows s q.0 = Follows-trans s r.0 q.0 m.follows p.1 in
          let scope : q.0.scope ≡ o.frame ∷ fs = f.scope_same ∙ o.innermost in
          let frame : List (String × ℕ) = (map_insert loc.id q.1 o.frame).0 in
          (
            record (q.0) { scope = frame ∷ fs },
            ap (λ u. u >>= λ x. ok (record (q.0) { scope = x.0 }))
                (ap (λ sc. push sc loc.id q.1) scope ∙ push-innermost o.frame fs loc.id q.1),
            record {
              ready = record { sound = p.0.sound; ret = p.0.ret; labels = p.0.labels };
              follows = record {
                grows = Grows-trans s0.code s.code q.0.code o.follows.grows f.grows;
                scope_same = refl;
                arguments_same = f.arguments_same ∙ o.follows.arguments_same;
                ret_bb_same = f.ret_bb_same ∙ o.follows.ret_bb_same;
                ret_addr_same = f.ret_addr_same ∙ o.follows.ret_addr_same;
                depth_same = f.depth_same ∙ o.follows.depth_same;
              };
              frame = frame;
              innermost = refl;
              same =
                  SameNames-map_insert o.frame names o.same loc.id q.1
                    (variable (declared loc.num b));
              agrees =
                  Agrees-map_insert o.frame names o.same loc.id q.1 (variable (declared loc.num b))
                    q.0 fs env scope p.2
                    (Agrees-Follows s q.0 o.ready.sound f (names ∷ env) o.agrees);
            },
          )))

  declare_one :
      (s : Builder) (names : List (String × Entry)) (loc : VarDeclaration) (ty : CminusType)
      → Opened s0 fs names env s
      → Yields
          (build_local s loc (basic_type ty))
          (Opened s0 fs (declare loc.id (entry_of ty loc.num) names) env)
  declare_one s names loc type_int o = declare_variable s names loc int o
  declare_one s names loc type_float o = declare_variable s names loc float o
  declare_one s names loc type_void o = (s, refl, o)

  pub build_locals-Opened :
      (locs : List VarDeclaration) (s : Builder) (names : List (String × Entry))
      → Opened s0 fs names env s
      → Yields (build_locals locs s) (Opened s0 fs (declare_all locs names) env)
  unfolding build_locals
  build_locals-Opened [] s names o = (s, refl, o)
  build_locals-Opened (loc ∷ locs) s names o =
      Yields-bind (declare_one s names loc loc.type o)
        (λ s1 o1. build_locals-Opened locs s1 (declare loc.id (entry_of loc.type loc.num) names) o1)
