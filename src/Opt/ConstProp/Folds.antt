-- ===== src/Opt/ConstProp/Folds.antt =====
-- The body of the loop of ConstPropagation::run (src/optimization/ConstPropagation.cpp): what a visit
-- does to the operands and use lists, whatever the values are.
use ustc_2021_compliers.Base.{
  ℕ, ◌≡◌, ◌⊎◌, inl, inr, refl, Bool, true, false, Option, none, some, List, [], ◌∷◌, Result, ok,
  undefined, >>=-eq-ok,
}
use ustc_2021_compliers.Ir.Instruction.{OpId, CmpOp}
use ustc_2021_compliers.Ir.Heap.{Heap, Kind, Use, instruction, constant_int, constant_fp}
use ustc_2021_compliers.Base.Int.{ℤ}
use ustc_2021_compliers.Opt.ConstFolder.{Floats, compute, fcompute}
use ustc_2021_compliers.Opt.ConstProp.{
  get_operand, cast_constantint, cast_constantfp, when_one, when_both, replace_by, null_constant,
  use_int, use_fp, fold_int, fold_fp, visit_int, visit_fp, fold_fptosi, fold_sitofp, visit_fptosi,
  visit_sitofp, visit_op, visit_kind, visit,
}

-- The instructions that the pass may fold
abbrev pub is_foldable : Kind → Bool
is_foldable (instruction OpId.add c) = true
is_foldable (instruction OpId.sub c) = true
is_foldable (instruction OpId.mul c) = true
is_foldable (instruction OpId.sdiv c) = true
is_foldable (instruction OpId.cmp c) = true
is_foldable (instruction OpId.fadd c) = true
is_foldable (instruction OpId.fsub c) = true
is_foldable (instruction OpId.fmul c) = true
is_foldable (instruction OpId.fdiv c) = true
is_foldable (instruction OpId.fcmp c) = true
is_foldable (instruction OpId.fptosi c) = true
is_foldable (instruction OpId.sitofp c) = true
is_foldable _ = false

module _ (h : Heap) (p : ℕ) (h' : Heap) (folded : Bool) where
  -- A constant takes the place of `p`, or `p` has no uses.
  abbrev pub Folds : Type 0
  Folds =
      ((k : Kind) × (replace_by h p k ≡ ok (h', folded)))
      ⊎ ((h.use_list p ≡ []) × (h' ≡ h) × (folded ≡ true))

  -- What a visit comes to: nothing, or a fold.
  abbrev pub Effect : Type 0
  Effect = ((h' ≡ h) × (folded ≡ false)) ⊎ Folds

  null_constant-Folds : null_constant h p ≡ ok (h', folded) → Folds
  null_constant-Folds e = go (h.use_list p) refl e
    where
      go :
          (us : List Use)
          → h.use_list p ≡ us
          → elim us as (λ k. Result (Heap × Bool)) [ [] ↦ ok (h, true) | _ ∷ _ ↦ undefined ]
            ≡ ok (h', folded)
          → Folds
      go [] same e = inr (same, cc, cc)
      go (_ ∷ _) same e = cc

  use_int-Folds : (o : Option ℤ) → use_int h p o ≡ ok (h', folded) → Folds
  use_int-Folds (some z) e = inl (constant_int z, e)
  use_int-Folds none e = null_constant-Folds e

  use_fp-Folds : (o : Option ℕ) → use_fp h p o ≡ ok (h', folded) → Folds
  use_fp-Folds (some x) e = inl (constant_fp x, e)
  use_fp-Folds none e = null_constant-Folds e

  fold_int-Folds :
      (op : OpId) (c : CmpOp) (a b : ℤ) → fold_int h p op c a b ≡ ok (h', folded) → Folds
  unfolding fold_int
  fold_int-Folds OpId.cmp c a b e = inl (_, e)
  fold_int-Folds op c a b e = let (o, e1, e2) = >>=-eq-ok (compute op a b) _ e in use_int-Folds o e2

  when_one-Effect :
      {A : Type 0} (o : Option A) (fold : A → Result (Heap × Bool))
      → ((a : A) → fold a ≡ ok (h', folded) → Folds)
      → when_one h o fold ≡ ok (h', folded)
      → Effect
  when_one-Effect (some a) fold folds e = inr (folds a e)
  when_one-Effect none fold folds e = inl (cc, cc)

  when_both-Effect :
      {A : Type 0} (o u : Option A) (fold : A → A → Result (Heap × Bool))
      → ((a b : A) → fold a b ≡ ok (h', folded) → Folds)
      → when_both h o u fold ≡ ok (h', folded)
      → Effect
  when_both-Effect (some a) (some b) fold folds e = inr (folds a b e)
  when_both-Effect (some a) none fold folds e = inl (cc, cc)
  when_both-Effect none u fold folds e = inl (cc, cc)

  visit_int-Effect : (op : OpId) (c : CmpOp) → visit_int h p op c ≡ ok (h', folded) → Effect
  unfolding visit_int
  visit_int-Effect op c e =
      let (l, e1, e2) = >>=-eq-ok (get_operand h p 0) _ e in
      let (r, e3, e4) = >>=-eq-ok (get_operand h p 1) _ e2 in
      when_both-Effect (cast_constantint (h.kind l)) (cast_constantint (h.kind r))
        (fold_int h p op c) (fold_int-Folds op c) e4

  module _ (fl : Floats) where
    fold_fp-Folds :
        (op : OpId) (c : CmpOp) (a b : ℕ) → fold_fp fl h p op c a b ≡ ok (h', folded) → Folds
    unfolding fold_fp
    fold_fp-Folds OpId.fcmp c a b e = inl (_, e)
    fold_fp-Folds op c a b e = use_fp-Folds (fcompute fl op a b) e

    visit_fp-Effect : (op : OpId) (c : CmpOp) → visit_fp fl h p op c ≡ ok (h', folded) → Effect
    unfolding visit_fp
    visit_fp-Effect op c e =
        let (l, e1, e2) = >>=-eq-ok (get_operand h p 0) _ e in
        let (r, e3, e4) = >>=-eq-ok (get_operand h p 1) _ e2 in
        when_both-Effect (cast_constantfp (h.kind l)) (cast_constantfp (h.kind r))
          (fold_fp fl h p op c) (fold_fp-Folds op c) e4

    fold_fptosi-Folds : (x : ℕ) → fold_fptosi fl h p x ≡ ok (h', folded) → Folds
    fold_fptosi-Folds x e =
        let (z, e1, e2) = >>=-eq-ok (fl.to_int x) _ e in inl (constant_int z, e2)

    visit_fptosi-Effect : visit_fptosi fl h p ≡ ok (h', folded) → Effect
    unfolding visit_fptosi
    visit_fptosi-Effect e =
        let (l, e1, e2) = >>=-eq-ok (get_operand h p 0) _ e in
        when_one-Effect (cast_constantfp (h.kind l)) (fold_fptosi fl h p) fold_fptosi-Folds e2

    visit_sitofp-Effect : visit_sitofp fl h p ≡ ok (h', folded) → Effect
    unfolding visit_sitofp
    visit_sitofp-Effect e =
        let (l, e1, e2) = >>=-eq-ok (get_operand h p 0) _ e in
        when_one-Effect (cast_constantint (h.kind l)) (fold_sitofp fl h p)
          (λ z f. inl (constant_fp (fl.of_int z), f)) e2

    -- An instruction that is folded is one that may be.
    abbrev pub Visit : Kind → Type 0
    Visit k = ((h' ≡ h) × (folded ≡ false)) ⊎ ((is_foldable k ≡ true) × Folds)

    foldable : (k : Kind) → is_foldable k ≡ true → Effect → Visit k
    foldable k f (inl same) = inl same
    foldable k f (inr folds) = inr (f, folds)

    visit_op-Visit :
        (op : OpId) (c : CmpOp) → visit_op fl h p op c ≡ ok (h', folded) → Visit (instruction op c)
    unfolding visit_op
    visit_op-Visit OpId.add c e =
        foldable (instruction OpId.add c) refl (visit_int-Effect OpId.add c e)
    visit_op-Visit OpId.sub c e =
        foldable (instruction OpId.sub c) refl (visit_int-Effect OpId.sub c e)
    visit_op-Visit OpId.mul c e =
        foldable (instruction OpId.mul c) refl (visit_int-Effect OpId.mul c e)
    visit_op-Visit OpId.sdiv c e =
        foldable (instruction OpId.sdiv c) refl (visit_int-Effect OpId.sdiv c e)
    visit_op-Visit OpId.cmp c e =
        foldable (instruction OpId.cmp c) refl (visit_int-Effect OpId.cmp c e)
    visit_op-Visit OpId.fadd c e =
        foldable (instruction OpId.fadd c) refl (visit_fp-Effect OpId.fadd c e)
    visit_op-Visit OpId.fsub c e =
        foldable (instruction OpId.fsub c) refl (visit_fp-Effect OpId.fsub c e)
    visit_op-Visit OpId.fmul c e =
        foldable (instruction OpId.fmul c) refl (visit_fp-Effect OpId.fmul c e)
    visit_op-Visit OpId.fdiv c e =
        foldable (instruction OpId.fdiv c) refl (visit_fp-Effect OpId.fdiv c e)
    visit_op-Visit OpId.fcmp c e =
        foldable (instruction OpId.fcmp c) refl (visit_fp-Effect OpId.fcmp c e)
    visit_op-Visit OpId.fptosi c e =
        foldable (instruction OpId.fptosi c) refl (visit_fptosi-Effect e)
    visit_op-Visit OpId.sitofp c e =
        foldable (instruction OpId.sitofp c) refl (visit_sitofp-Effect e)
    visit_op-Visit op c e = inl (cc, cc)

    visit_kind-Visit : (k : Kind) → visit_kind fl h p k ≡ ok (h', folded) → Visit k
    unfolding visit_kind
    visit_kind-Visit (instruction op c) e = visit_op-Visit op c e
    visit_kind-Visit _ e = cc

    pub visit-Visit : visit fl h p ≡ ok (h', folded) → Visit (h.kind p)
    unfolding visit
    visit-Visit e = visit_kind-Visit (h.kind p) e
