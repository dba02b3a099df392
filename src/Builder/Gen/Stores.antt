-- ===== src/Builder/Gen/Stores.antt =====
-- src/cminusfc/cminusf_builder.cpp: the stores of assignments and returns, in code that is as typed.
use ustc_2021_compliers.Base.{
  ℕ, ◌<◌, ◌≡◌, ◌↔◌, refl, sym, ap, ◌∙◌, Bool, true, false, Bool-cases, inl, inr, some, [], ◌∷◌,
  arith, Result, Yields, Yields-bind, ◌>>=◌, ◌==◌,
}
use ustc_2021_compliers.Ir.Instruction.{OpId, CmpOp}
use ustc_2021_compliers.Ir.Types.{Types, Shape, get_float_type, get_void_type, is_eq_type}
use ustc_2021_compliers.Ir.Types.Interned.{
  get_pointer_type-IsInterned, get_pointer_type-keeps, is_eq_type-shape,
}
use ustc_2021_compliers.Ir.Create.{create}
use ustc_2021_compliers.Ir.Create.Created.{IsObject}
use ustc_2021_compliers.Ir.Create.Kept.{IsObject-Grows}
use ustc_2021_compliers.Builder.Gen.{
  Builder, dereferenced, emitted, build_sitofp, build_fptosi, pointer_to,
}
use ustc_2021_compliers.Builder.Gen.Expressions.{store_value, store_converted, build_assign}
use ustc_2021_compliers.Builder.Gen.Typing.{Basic, int, float, Ty, basic}
use ustc_2021_compliers.Builder.Gen.Ready.{
  type_id, HasType, Ready, Follows, Follows-trans, HasType-at,
}
use ustc_2021_compliers.Builder.Gen.Emits.{
  emitted-Made, void_known, int32_known, float_known, with_code-Ready, with_code-Follows,
  with_pointer-IsSound, with_pointer-Grows,
}
use ustc_2021_compliers.Builder.Gen.Statements.{return_at, build_returned}
use ustc_2021_compliers.Builder.Gen.Operations.{Visited, set_val-Visited, Visited-after}

-- The test of an address against I32P_TYPE or FP_TYPE
abbrev pub same_basic : Basic → Basic → Bool
same_basic int int = true
same_basic float float = true
same_basic _ _ = false

pointed : Shape → ℕ
pointed (Shape.pointer c) = c
pointed _ = 0

tested :
    (ts : Types) (p q : ℕ) (b x : Basic)
    → ts.shape p ≡ Shape.pointer (type_id b)
    → ts.shape q ≡ Shape.pointer (type_id x)
    → (is_eq_type p q ≡ true) ↔ (ts.shape p ≡ ts.shape q)
    → (p == q) ≡ same_basic b x
unfolding pointed
tested ts p q int int e f iff = iff.1 (e ∙ sym f)
tested ts p q float float e f iff = iff.1 (e ∙ sym f)
tested ts p q int float e f iff = elim (Bool-cases (p == q)) [
  | inl t ↦ let same : 3 ≡ 4 = ap pointed (sym e ∙ iff.0 t ∙ f) in absurd (omega (arith, same))
  | inr t ↦ t
]
tested ts p q float int e f iff = elim (Bool-cases (p == q)) [
  | inl t ↦ let same : 4 ≡ 3 = ap pointed (sym e ∙ iff.0 t ∙ f) in absurd (omega (arith, same))
  | inr t ↦ t
]

module _ (s : Builder) (ready : Ready s) (address : ℕ) (o : IsObject s.code.heap address) where
  pointer_to-Ready : (x : Basic) → Ready (pointer_to s (type_id x)).0
  pointer_to-Ready x =
      with_code-Ready s ready (pointer_to s (type_id x)).0.code
        (with_pointer-IsSound s ready (type_id x)) (with_pointer-Grows s ready (type_id x))

  pointer_to-Follows : (x : Basic) → Follows s (pointer_to s (type_id x)).0
  pointer_to-Follows x =
      with_code-Follows s ready (pointer_to s (type_id x)).0.code
        (with_pointer-Grows s ready (type_id x))

  pointer_to-same :
      (b x : Basic)
      → s.code.types.shape (s.code.type_of address) ≡ Shape.pointer (type_id b)
      → (s.code.type_of address == (pointer_to s (type_id x)).1) ≡ same_basic b x
  pointer_to-same b x shape =
      let interned = ready.sound.interned in
      let (le, lt, same) = get_pointer_type-keeps s.code.types interned (type_id x) in
      let (kept, made) = get_pointer_type-IsInterned s.code.types interned (type_id x) in
      let known = ready.sound.typed address o.1 in
      let iff =
        is_eq_type-shape (pointer_to s (type_id x)).0.code.types kept (s.code.type_of address)
          (pointer_to s (type_id x)).1 (omega (arith, known, le)) lt (rw made refl) in
      tested (pointer_to s (type_id x)).0.code.types (s.code.type_of address)
        (pointer_to s (type_id x)).1 b x (same (s.code.type_of address) known ∙ shape) made iff

-- The store of a value of the type `t`, which is the value of the expression then
module _ (s : Builder) (ready : Ready s) (v address : ℕ) (ov : IsObject s.code.heap v)
    (o : IsObject s.code.heap address) where
  store_value-Visited :
      (t : Ty)
      → HasType s.code.types (s.code.type_of v) t
      → Yields (store_value s v address) (Visited s t)
  store_value-Visited t h =
      Yields-bind
        (emitted-Made s ready OpId.store CmpOp.eq get_void_type (v ∷ address ∷ []) s.insert_block
          (void_known s ready) (ov, (o, tt)))
        (λ r m. (
          record (r.0) { curr_val = v },
          refl,
          set_val-Visited s r.0 v t m.ready m.follows
              (IsObject-Grows s.code r.0.code m.follows.grows v ov)
              (HasType-at s.code r.0.code ready.sound m.follows.grows v t ov h),
        ))

-- A conversion and the store of what it gives
module _ (s : Builder) (ready : Ready s) (v address : ℕ) (ov : IsObject s.code.heap v)
    (o : IsObject s.code.heap address) where
  convert_and_store :
      (op : OpId) (b : Basic)
      → type_id b < s.code.types.next
      → Yields
          (emitted s (create s.code op CmpOp.eq (type_id b) (v ∷ []) s.insert_block) >>= λ r.
            store_converted r address)
          (Visited s (basic b))
  convert_and_store op b known =
      Yields-bind
        (emitted-Made s ready op CmpOp.eq (type_id b) (v ∷ []) s.insert_block known (ov, tt))
        (λ r m.
          let (z, e, a) =
            store_value-Visited r.0 m.ready r.1 address m.object
              (IsObject-Grows s.code r.0.code m.follows.grows address o) (basic b) m.typed in
          (z, e, Visited-after s r.0 (basic b) z m.follows a))

  sitofp_and_store :
      Yields (build_sitofp s v >>= λ r. store_converted r address) (Visited s (basic float))
  sitofp_and_store = convert_and_store OpId.sitofp float (float_known s ready)

  fptosi_and_store :
      Yields (build_fptosi s v >>= λ r. store_converted r address) (Visited s (basic int))
  fptosi_and_store = convert_and_store OpId.fptosi int (int32_known s ready)

after :
    (a b : Builder) (t : Ty) (r : Result Builder)
    → Follows a b
    → Yields r (Visited b t)
    → Yields r (Visited a t)
after a b t r f (z, e, m) = (z, e, Visited-after a b t z f m)

module _ (s : Builder) (ready : Ready s) (address : ℕ) (o : IsObject s.code.heap address)
    (ov : IsObject s.code.heap s.curr_val) where
  -- The states in which the pointer types of the tests are there
  abbrev with_test : Basic → Builder
  with_test x = (pointer_to s (type_id x)).0

  with_test-Ready : (x : Basic) → Ready (with_test x)
  with_test-Ready x = pointer_to-Ready s ready address o x

  with_test-Follows : (x : Basic) → Follows s (with_test x)
  with_test-Follows x = pointer_to-Follows s ready address o x

  abbrev with_both : Builder
  with_both = (pointer_to (with_test int) get_float_type).0

  with_both-Ready : Ready with_both
  with_both-Ready = pointer_to-Ready (with_test int) (with_test-Ready int) address o float

  with_both-Follows : Follows s with_both
  with_both-Follows =
      Follows-trans s (with_test int) with_both (with_test-Follows int)
        (pointer_to-Follows (with_test int) (with_test-Ready int) address o float)

  stored :
      (x y : Basic)
      → s.code.type_of s.curr_val ≡ type_id x
      → Yields (store_value (with_test y) s.curr_val address) (Visited s (basic x))
  stored x y t =
      after s (with_test y) (basic x) (store_value (with_test y) s.curr_val address)
        (with_test-Follows y)
        (store_value-Visited (with_test y) (with_test-Ready y) s.curr_val address ov o (basic x) t)

  -- An assignment to a variable of the type `b` of a value of the type `x`, either a number
  pub build_assign-Visited :
      (b x : Basic)
      → s.code.types.shape (s.code.type_of address) ≡ Shape.pointer (type_id b)
      → s.code.type_of s.curr_val ≡ type_id x
      → Yields (build_assign s (some address)) (Visited s (basic b))
  unfolding build_assign
  build_assign-Visited int int shape t =
      rw (t, pointer_to-same s ready address o int int shape) (stored int int t)
  build_assign-Visited float float shape t =
      rw (t, pointer_to-same s ready address o float float shape) (stored float float t)
  build_assign-Visited float int shape t =
      rw
        (
          t,
          pointer_to-same s ready address o float int shape,
          pointer_to-same (with_test int) (with_test-Ready int) address o float float (
              (with_test-Follows int).grows.shape_same (s.code.type_of address)
                (ready.sound.typed address o.1)
              ∙ shape),
        )
        (after s with_both (basic float)
          (build_sitofp with_both s.curr_val >>= λ r. store_converted r address) with_both-Follows
          (sitofp_and_store with_both with_both-Ready s.curr_val address ov o))
  build_assign-Visited int float shape t =
      rw (t, pointer_to-same s ready address o int float shape)
        (after s (with_test float) (basic int)
          (build_fptosi (with_test float) s.curr_val >>= λ r. store_converted r address)
          (with_test-Follows float)
          (fptosi_and_store (with_test float) (with_test-Ready float) s.curr_val address ov o))

  -- A return of a number from a function whose result is a number
  return_at-Visited :
      (b x : Basic)
      → s.code.types.shape (s.code.type_of address) ≡ Shape.pointer (type_id b)
      → s.code.type_of s.curr_val ≡ type_id x
      → Yields (return_at s address) (Visited s (basic b))
  return_at-Visited int int shape t =
      rw (t, pointer_to-same s ready address o int float shape) (stored int float t)
  return_at-Visited float float shape t =
      rw (t, pointer_to-same s ready address o float int shape) (stored float int t)
  return_at-Visited float int shape t =
      rw (t, pointer_to-same s ready address o float float shape)
        (after s (with_test float) (basic float)
          (build_sitofp (with_test float) s.curr_val >>= λ r. store_converted r address)
          (with_test-Follows float)
          (sitofp_and_store (with_test float) (with_test-Ready float) s.curr_val address ov o))
  return_at-Visited int float shape t =
      rw (t, pointer_to-same s ready address o int int shape)
        (after s (with_test int) (basic int)
          (build_fptosi (with_test int) s.curr_val >>= λ r. store_converted r address)
          (with_test-Follows int)
          (fptosi_and_store (with_test int) (with_test-Ready int) s.curr_val address ov o))

  pub build_returned-Visited :
      (b x : Basic)
      → s.curr_ret_addr ≡ some address
      → s.code.types.shape (s.code.type_of address) ≡ Shape.pointer (type_id b)
      → s.code.type_of s.curr_val ≡ type_id x
      → Yields (build_returned s) (Visited s (basic b))
  unfolding build_returned
  build_returned-Visited b x there shape t =
      let (z, e, m) = return_at-Visited b x shape t in
      (z, ap (λ p. dereferenced p >>= λ a. return_at s a) there ∙ e, m)
