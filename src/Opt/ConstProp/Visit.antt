-- ===== src/Opt/ConstProp/Visit.antt =====
-- The body of the loop of ConstPropagation::run (src/optimization/ConstPropagation.cpp) keeps the
-- values of a run, for each instruction that it folds.
use ustc_2021_compliers.Base.{
  ℕ, ◌≡◌, ◌≢◌, ◌∙◌, refl, sym, Bool, Bool-cases, inl, inr, none, some, List, [], ◌∷◌, map, Result,
  ok, abort, undefined, out_of_fuel, ◌>>=◌, All, arith, >>=-eq-ok, Option,
}
use mathlib.Core.Path.{subst}
use ustc_2021_compliers.Base.Int.{ℤ}
use ustc_2021_compliers.Ir.Instruction.{OpId, CmpOp}
use ustc_2021_compliers.Ir.Heap.{
  Heap, Kind, constant_int, constant_bool, constant_fp, instruction, function, basic_block, other,
}
use ustc_2021_compliers.Opt.ConstFolder.{Floats, compute, compute_cmp}
use ustc_2021_compliers.Opt.ConstFolder.Meaning.{
  compute-ne-null, run_int, compute-run_int, compute_cmp-Compares,
}
use ustc_2021_compliers.Opt.ConstProp.{
  use_int, when_one, when_both, cast_constantint, cast_constantfp, bool_value, replace_by, fold_int,
  visit_int, fold_fp, visit_fp, visit_fptosi, visit_sitofp, fold_fptosi, fold_sitofp,
}
use ustc_2021_compliers.Opt.ConstProp.Values.{Value, int, float, IsConstant, Means, IsReady}
use ustc_2021_compliers.Opt.ConstProp.Step.{Kept, replace_by-Kept}

pub int_of_constant :
    (k : Kind) (v : Value) (z : ℤ) → cast_constantint k ≡ some z → IsConstant k v → v ≡ int z
int_of_constant (constant_int z) v y e c = cc
int_of_constant (constant_bool b) v y e c = cc
int_of_constant (constant_fp x) v y e c = cc
int_of_constant (instruction op o) v y e c = cc
int_of_constant (function t) v y e c = cc
int_of_constant basic_block v y e c = cc
int_of_constant other v y e c = cc

pub float_of_constant :
    (k : Kind) (v : Value) (x : ℕ) → cast_constantfp k ≡ some x → IsConstant k v → v ≡ float x
float_of_constant (constant_int z) v y e c = cc
float_of_constant (constant_bool b) v y e c = cc
float_of_constant (constant_fp x) v y e c = cc
float_of_constant (instruction op o) v y e c = cc
float_of_constant (function t) v y e c = cc
float_of_constant basic_block v y e c = cc
float_of_constant other v y e c = cc

-- What a visit comes to that does not delete: nothing changes.
module _ (fl : Floats) (h : Heap) (env : ℕ → Value) (p : ℕ) (todo : List ℕ)
    (ready : IsReady fl h env (p ∷ todo)) (distinct : All (λ q. p ≢ q) todo) where
  pub unchanged : Kept fl h env h todo
  unchanged = record {
    env' = env;
    follows = record {
      kept = λ q lt. refl;
      grows = omega arith;
      kinds = λ q lt. refl;
      operands = λ u. refl;
    };
    ready = record {
      models = ready.models;
      bounded = ready.bounded;
      accurate = ready.accurate.1;
      known = ready.known.1;
      arity = ready.arity.1;
    };
  }

  by_int :
      (z : ℤ) (h' : Heap) (folded : Bool)
      → env p ≡ int z
      → replace_by h p (constant_int z) ≡ ok (h', folded)
      → Kept fl h env h' todo
  by_int z h' folded v e =
      replace_by-Kept fl h env p todo (constant_int z) (int z) ready refl (λ op c. cc) v distinct h'
        folded e

  by_bool :
      (b : Bool) (h' : Heap) (folded : Bool)
      → env p ≡ int (bool_value b)
      → replace_by h p (constant_bool b) ≡ ok (h', folded)
      → Kept fl h env h' todo
  by_bool b h' folded v e =
      replace_by-Kept fl h env p todo (constant_bool b) (int (bool_value b)) ready refl (λ op c. cc)
        v distinct h' folded e

  by_float :
      (x : ℕ) (h' : Heap) (folded : Bool)
      → env p ≡ float x
      → replace_by h p (constant_fp x) ≡ ok (h', folded)
      → Kept fl h env h' todo
  by_float x h' folded v e =
      replace_by-Kept fl h env p todo (constant_fp x) (float x) ready refl (λ op c. cc) v distinct
        h' folded e

  when_one-eq-ok :
      {A : Type 0} (o : Option A) (fold : A → Result (Heap × Bool)) (h' : Heap) (folded : Bool)
      → when_one h o fold ≡ ok (h', folded)
      → ((a : A) → o ≡ some a → fold a ≡ ok (h', folded) → Kept fl h env h' todo)
      → Kept fl h env h' todo
  when_one-eq-ok (some a) fold h' folded e keep = keep a refl e
  when_one-eq-ok none fold h' folded e keep = subst (λ x. Kept fl h env x todo) (cc) unchanged

  when_both-eq-ok :
      {A : Type 0} (o u : Option A) (fold : A → A → Result (Heap × Bool)) (h' : Heap)
      (folded : Bool)
      → when_both h o u fold ≡ ok (h', folded)
      → ((a b : A) → o ≡ some a → u ≡ some b → fold a b ≡ ok (h', folded) → Kept fl h env h' todo)
      → Kept fl h env h' todo
  when_both-eq-ok (some a) (some b) fold h' folded e keep = keep a b refl refl e
  when_both-eq-ok (some a) none fold h' folded e keep =
      subst (λ x. Kept fl h env x todo) (cc) unchanged
  when_both-eq-ok none u fold h' folded e keep = subst (λ x. Kept fl h env x todo) (cc) unchanged

  module _ (a b : ℕ) (operands : h.operands p ≡ a ∷ b ∷ []) (h' : Heap) (folded : Bool) where
    -- The values of the two operands.
    pub int_values :
        (x y : ℤ)
        → cast_constantint (h.kind a) ≡ some x
        → cast_constantint (h.kind b) ≡ some y
        → map env (h.operands p) ≡ int x ∷ int y ∷ []
    int_values x y e f = rw operands (
        cc (
          int_of_constant (h.kind a) (env a) x e (ready.models.constants a),
          int_of_constant (h.kind b) (env b) y f (ready.models.constants b),
        ))

    int_result :
        (op : OpId) (c : CmpOp) (x y : ℤ)
        → h.kind p ≡ instruction op c
        → cast_constantint (h.kind a) ≡ some x
        → cast_constantint (h.kind b) ≡ some y
        → Means fl op c (int x ∷ int y ∷ []) (env p)
    int_result op c x y k e f = rw (int_values x y e f) at (ready.models.results p op c k)

    pub visit_int_lem :
        (op : OpId) (c : CmpOp)
        → visit_int h p op c
          ≡ when_both h
              (cast_constantint (h.kind a))
              (cast_constantint (h.kind b))
              (fold_int h p op c)
    unfolding visit_int
    visit_int_lem op c = rw (operands, visit_int)

    cmp_value :
        (c : CmpOp) (x y : ℤ)
        → Means fl OpId.cmp c (int x ∷ int y ∷ []) (env p)
        → env p ≡ int (bool_value (compute_cmp c x y))
    cmp_value c x y m = elim (Bool-cases (compute_cmp c x y)) [
      | inl t ↦ rw t (m.0 ((compute_cmp-Compares c x y).0 t))
      | inr f ↦ rw f (m.1 (λ q. cc (sym f ∙ (compute_cmp-Compares c x y).1 q)))
    ]

    pub visit_cmp-Kept :
        (c : CmpOp)
        → h.kind p ≡ instruction OpId.cmp c
        → visit_int h p OpId.cmp c ≡ ok (h', folded)
        → Kept fl h env h' todo
    unfolding fold_int
    visit_cmp-Kept c k e =
        when_both-eq-ok (cast_constantint (h.kind a)) (cast_constantint (h.kind b))
          (fold_int h p OpId.cmp c) h' folded (sym (visit_int_lem OpId.cmp c) ∙ e)
          (λ x y f g d.
            by_bool (compute_cmp c x y) h' folded
              (cmp_value c x y (int_result OpId.cmp c x y k f g)) d)

    use_int-eq-ok :
        (r : Result (Option ℤ))
        → r ≢ ok none
        → (r >>= use_int h p) ≡ ok (h', folded)
        → (z : ℤ) × (r ≡ ok (some z)) × (replace_by h p (constant_int z) ≡ ok (h', folded))
    use_int-eq-ok (ok (some z)) n e = (z, refl, e)
    use_int-eq-ok (ok none) n e = absurd (n refl)
    use_int-eq-ok abort n e = cc
    use_int-eq-ok undefined n e = cc
    use_int-eq-ok out_of_fuel n e = cc

    -- An arithmetic instruction: `unfold_op` and `meaning` are the clauses of `fold_int` and of
    -- `Means` for its opcode.
    visit_arith-Kept :
        (op : OpId) (c : CmpOp)
        → ((x y : ℤ) → fold_int h p op c x y ≡ (compute op x y >>= use_int h p))
        → ((x y z : ℤ)
            → Means fl op c (int x ∷ int y ∷ []) (env p)
            → run_int op x y ≡ some z
            → env p ≡ int z)
        → ((x y : ℤ) → compute op x y ≢ ok none)
        → h.kind p ≡ instruction op c
        → visit_int h p op c ≡ ok (h', folded)
        → Kept fl h env h' todo
    visit_arith-Kept op c unfold_op meaning never k e =
        when_both-eq-ok (cast_constantint (h.kind a)) (cast_constantint (h.kind b))
          (fold_int h p op c) h' folded (sym (visit_int_lem op c) ∙ e)
          (λ x y f g d.
            let (z, q, r) = use_int-eq-ok (compute op x y) (never x y) (sym (unfold_op x y) ∙ d) in
            by_int z h' folded
              (meaning x y z (int_result op c x y k f g) (compute-run_int op x y z q).0) r)

    pub visit_add-Kept :
        (c : CmpOp)
        → h.kind p ≡ instruction OpId.add c
        → visit_int h p OpId.add c ≡ ok (h', folded)
        → Kept fl h env h' todo
    unfolding fold_int
    visit_add-Kept c =
        visit_arith-Kept OpId.add c (λ x y. refl) (λ x y z m q. m z q)
          (λ x y. compute-ne-null OpId.add x y tt)

    pub visit_sub-Kept :
        (c : CmpOp)
        → h.kind p ≡ instruction OpId.sub c
        → visit_int h p OpId.sub c ≡ ok (h', folded)
        → Kept fl h env h' todo
    unfolding fold_int
    visit_sub-Kept c =
        visit_arith-Kept OpId.sub c (λ x y. refl) (λ x y z m q. m z q)
          (λ x y. compute-ne-null OpId.sub x y tt)

    pub visit_mul-Kept :
        (c : CmpOp)
        → h.kind p ≡ instruction OpId.mul c
        → visit_int h p OpId.mul c ≡ ok (h', folded)
        → Kept fl h env h' todo
    unfolding fold_int
    visit_mul-Kept c =
        visit_arith-Kept OpId.mul c (λ x y. refl) (λ x y z m q. m z q)
          (λ x y. compute-ne-null OpId.mul x y tt)

    pub visit_sdiv-Kept :
        (c : CmpOp)
        → h.kind p ≡ instruction OpId.sdiv c
        → visit_int h p OpId.sdiv c ≡ ok (h', folded)
        → Kept fl h env h' todo
    unfolding fold_int
    visit_sdiv-Kept c =
        visit_arith-Kept OpId.sdiv c (λ x y. refl) (λ x y z m q. m z q)
          (λ x y. compute-ne-null OpId.sdiv x y tt)

    pub float_values :
        (x y : ℕ)
        → cast_constantfp (h.kind a) ≡ some x
        → cast_constantfp (h.kind b) ≡ some y
        → map env (h.operands p) ≡ float x ∷ float y ∷ []
    float_values x y e f = rw operands (
        cc (
          float_of_constant (h.kind a) (env a) x e (ready.models.constants a),
          float_of_constant (h.kind b) (env b) y f (ready.models.constants b),
        ))

    float_result :
        (op : OpId) (c : CmpOp) (x y : ℕ)
        → h.kind p ≡ instruction op c
        → cast_constantfp (h.kind a) ≡ some x
        → cast_constantfp (h.kind b) ≡ some y
        → Means fl op c (float x ∷ float y ∷ []) (env p)
    float_result op c x y k e f = rw (float_values x y e f) at (ready.models.results p op c k)

    pub visit_fp_lem :
        (op : OpId) (c : CmpOp)
        → visit_fp fl h p op c
          ≡ when_both h
              (cast_constantfp (h.kind a))
              (cast_constantfp (h.kind b))
              (fold_fp fl h p op c)
    unfolding visit_fp
    visit_fp_lem op c = rw (operands, visit_fp)

    -- A floating point instruction that gives way to the constant `run x y`.
    pub visit_fp-Kept :
        (op : OpId) (c : CmpOp) (run : ℕ → ℕ → ℕ)
        → ((x y : ℕ) → fold_fp fl h p op c x y ≡ replace_by h p (constant_fp (run x y)))
        → ((x y : ℕ) → Means fl op c (float x ∷ float y ∷ []) (env p) → env p ≡ float (run x y))
        → h.kind p ≡ instruction op c
        → visit_fp fl h p op c ≡ ok (h', folded)
        → Kept fl h env h' todo
    visit_fp-Kept op c run unfold_op meaning k e =
        when_both-eq-ok (cast_constantfp (h.kind a)) (cast_constantfp (h.kind b))
          (fold_fp fl h p op c) h' folded (sym (visit_fp_lem op c) ∙ e)
          (λ x y f g d.
            by_float (run x y) h' folded (meaning x y (float_result op c x y k f g))
              (sym (unfold_op x y) ∙ d))

  module _ (a : ℕ) (operand : h.operands p ≡ a ∷ []) (h' : Heap) (folded : Bool) where
    pub visit_fptosi_lem :
        visit_fptosi fl h p ≡ when_one h (cast_constantfp (h.kind a)) (fold_fptosi fl h p)
    unfolding visit_fptosi
    visit_fptosi_lem = rw (operand, visit_fptosi)

    pub visit_sitofp_lem :
        visit_sitofp fl h p ≡ when_one h (cast_constantint (h.kind a)) (fold_sitofp fl h p)
    unfolding visit_sitofp
    visit_sitofp_lem = rw (operand, visit_sitofp)

    pub visit_fptosi-Kept :
        (c : CmpOp)
        → h.kind p ≡ instruction OpId.fptosi c
        → visit_fptosi fl h p ≡ ok (h', folded)
        → Kept fl h env h' todo
    visit_fptosi-Kept c k e =
        when_one-eq-ok (cast_constantfp (h.kind a)) (fold_fptosi fl h p) h' folded
          (sym visit_fptosi_lem ∙ e)
          (λ x f d.
            let (z, q, r) = >>=-eq-ok (fl.to_int x) _ d in
            let value : map env (h.operands p) ≡ float x ∷ [] =
              rw operand
                (cc (float_of_constant (h.kind a) (env a) x f (ready.models.constants a))) in
            let m : Means fl OpId.fptosi c (float x ∷ []) (env p) =
              rw value at (ready.models.results p OpId.fptosi c k) in
            by_int z h' folded (m z q) r)

    pub visit_sitofp-Kept :
        (c : CmpOp)
        → h.kind p ≡ instruction OpId.sitofp c
        → visit_sitofp fl h p ≡ ok (h', folded)
        → Kept fl h env h' todo
    visit_sitofp-Kept c k e =
        when_one-eq-ok (cast_constantint (h.kind a)) (fold_sitofp fl h p) h' folded
          (sym visit_sitofp_lem ∙ e)
          (λ z f d.
            let value : map env (h.operands p) ≡ int z ∷ [] =
              rw operand (cc (int_of_constant (h.kind a) (env a) z f (ready.models.constants a))) in
            let m : Means fl OpId.sitofp c (int z ∷ []) (env p) =
              rw value at (ready.models.results p OpId.sitofp c k) in
            by_float (fl.of_int z) h' folded m d)
