-- ===== src/Opt/ConstProp/Returns.antt =====
-- The body of the loop of ConstPropagation::run (src/optimization/ConstPropagation.cpp), on
-- instructions that have a result on the values of a run.
use ustc_2021_compliers.Base.{
  ℕ, ◌≡◌, ◌≢◌, refl, Bool, true, false, Option, none, some, List, [], ◌∷◌, map, Result, ok, ◌>>=◌,
  All, arith, Returns, >>=-Returns,
}
use Prim.Native.Nat.{zero, suc}
use ustc_2021_compliers.Base.Int.{ℤ, pos, negsuc, ◌+ℤ◌, ◌-ℤ◌, ◌*ℤ◌}
use ustc_2021_compliers.Ir.Instruction.{OpId, CmpOp}
use ustc_2021_compliers.Ir.Heap.{
  Heap, Kind, constant_int, constant_bool, constant_fp, instruction, new_constant,
}
use ustc_2021_compliers.Ir.Heap.Replace.{replace_all_use_with-Returns}
use ustc_2021_compliers.Opt.ConstFolder.{Floats, compute, compute_cmp, fcompute, is_int, divide}
use ustc_2021_compliers.Opt.ConstFolder.Meaning.{run_int}
use ustc_2021_compliers.Opt.ConstProp.{
  when_one, when_both, cast_constantint, cast_constantfp, use_int, replace_by, fold_int, visit_int,
  fold_fp, visit_fp, visit_fptosi, visit_sitofp, visit_op, visit_kind, visit, fold_fptosi,
  fold_sitofp,
}
use ustc_2021_compliers.Opt.ConstProp.Values.{Value, int, float, IsReady, HasArity}
use ustc_2021_compliers.Opt.ConstProp.Visit.{
  int_values, visit_int_lem, visit_fp_lem, visit_fptosi_lem, visit_sitofp_lem, float_of_constant,
}

-- The instruction has a result on the values of its operands.
module _ (fl : Floats) where
  abbrev pub HasResult : OpId → List Value → Type 0
  HasResult OpId.add (int a ∷ int b ∷ []) = is_int (a +ℤ b) ≡ true
  HasResult OpId.sub (int a ∷ int b ∷ []) = is_int (a -ℤ b) ≡ true
  HasResult OpId.mul (int a ∷ int b ∷ []) = is_int (a *ℤ b) ≡ true
  HasResult OpId.sdiv (int a ∷ int b ∷ []) = run_int OpId.sdiv a b ≢ none
  HasResult OpId.fptosi (float x ∷ []) = Returns (fl.to_int x)
  HasResult _ vs = Unit

  -- An instruction of the listing.
  abbrev pub IsDefined : Heap → (ℕ → Value) → ℕ → Type 0
  IsDefined h env p =
      (op : OpId) × (c : CmpOp) × (h.kind p ≡ instruction op c)
      × HasResult op (map env (h.operands p))

when_one-Returns :
    {A : Type 0} (h : Heap) (o : Option A) (fold : A → Result (Heap × Bool))
    → ((a : A) → o ≡ some a → Returns (fold a))
    → Returns (when_one h o fold)
when_one-Returns h (some a) fold f = f a refl
when_one-Returns h none fold f = ((h, false), refl)

when_both-Returns :
    {A : Type 0} (h : Heap) (o u : Option A) (fold : A → A → Result (Heap × Bool))
    → ((a b : A) → o ≡ some a → u ≡ some b → Returns (fold a b))
    → Returns (when_both h o u fold)
when_both-Returns h (some a) (some b) fold f = f a b refl refl
when_both-Returns h (some a) none fold f = ((h, false), refl)
when_both-Returns h none u fold f = ((h, false), refl)

compute-sdiv_divide :
    (a b : ℤ) → run_int OpId.sdiv a b ≢ none → compute OpId.sdiv a b ≡ ok (some (divide a b))
unfolding run_int compute
compute-sdiv_divide a (pos zero) n = absurd (n refl)
compute-sdiv_divide a (pos (suc b)) n = ground arith
compute-sdiv_divide a (negsuc b) n = ground arith

module _ (fl : Floats) (h : Heap) (env : ℕ → Value) (p : ℕ) (todo : List ℕ)
    (ready : IsReady fl h env (p ∷ todo)) (distinct : All (λ q. p ≢ q) todo) where
  replace_by-Returns : (k : Kind) → Returns (replace_by h p k)
  unfolding replace_by new_constant
  replace_by-Returns k =
      >>=-Returns _ _
        (replace_all_use_with-Returns _ p h.next (omega (arith, ready.known.0)) ready.accurate.0)
        (λ h2 e. ((h2, true), refl))

  module _ (a b : ℕ) (operands : h.operands p ≡ a ∷ b ∷ []) where
    -- An arithmetic instruction, whose constant is `result x y`.
    visit_arith-Returns :
        (op : OpId) (c : CmpOp) (result : ℤ → ℤ → ℤ)
        → ((x y : ℤ) → fold_int h p op c x y ≡ (compute op x y >>= use_int h p))
        → ((x y : ℤ)
            → HasResult fl op (int x ∷ int y ∷ [])
            → compute op x y ≡ ok (some (result x y)))
        → HasResult fl op (map env (h.operands p))
        → Returns (visit_int h p op c)
    visit_arith-Returns op c result unfold_op computes has =
        rw (visit_int_lem fl h env p todo ready distinct a b operands h true op c) (
          when_both-Returns h (cast_constantint (h.kind a)) (cast_constantint (h.kind b))
            (fold_int h p op c)
            (λ x y f g. rw (unfold_op x y) (
              rw
                (computes x y (
                  rw (int_values fl h env p todo ready distinct a b operands h true x y f g) at
                    has))
                (replace_by-Returns (constant_int (result x y))))))

    visit_cmp-Returns : (c : CmpOp) → Returns (visit_int h p OpId.cmp c)
    unfolding fold_int
    visit_cmp-Returns c =
        rw (visit_int_lem fl h env p todo ready distinct a b operands h true OpId.cmp c) (
          when_both-Returns h (cast_constantint (h.kind a)) (cast_constantint (h.kind b))
            (fold_int h p OpId.cmp c)
            (λ x y f g. replace_by-Returns (constant_bool (compute_cmp c x y))))

    visit_fp-Returns :
        (op : OpId) (c : CmpOp) (result : ℕ → ℕ → ℕ)
        → ((x y : ℕ) → fold_fp fl h p op c x y ≡ replace_by h p (constant_fp (result x y)))
        → Returns (visit_fp fl h p op c)
    visit_fp-Returns op c result unfold_op =
        rw (visit_fp_lem fl h env p todo ready distinct a b operands h true op c) (
          when_both-Returns h (cast_constantfp (h.kind a)) (cast_constantfp (h.kind b))
            (fold_fp fl h p op c)
            (λ x y f g. rw (unfold_op x y) (replace_by-Returns (constant_fp (result x y)))))

  module _ (a : ℕ) (operand : h.operands p ≡ a ∷ []) where
    visit_fptosi-Returns :
        HasResult fl OpId.fptosi (map env (h.operands p)) → Returns (visit_fptosi fl h p)
    visit_fptosi-Returns has =
        rw (visit_fptosi_lem fl h env p todo ready distinct a operand h true) (
          when_one-Returns h (cast_constantfp (h.kind a)) (fold_fptosi fl h p) (λ x f.
            let value : map env (h.operands p) ≡ float x ∷ [] =
              rw operand
                (cc (float_of_constant (h.kind a) (env a) x f (ready.models.constants a))) in
            >>=-Returns (fl.to_int x) _ (rw value at has)
              (λ z e. replace_by-Returns (constant_int z))))

    visit_sitofp-Returns : Returns (visit_sitofp fl h p)
    visit_sitofp-Returns = rw (visit_sitofp_lem fl h env p todo ready distinct a operand h true) (
        when_one-Returns h (cast_constantint (h.kind a)) (fold_sitofp fl h p)
          (λ z f. replace_by-Returns (constant_fp (fl.of_int z))))

  visit_op-Returns :
      (op : OpId) (c : CmpOp)
      → HasArity op (h.operands p)
      → HasResult fl op (map env (h.operands p))
      → Returns (visit_op fl h p op c)
  unfolding visit_op fold_int compute fold_fp fcompute
  visit_op-Returns OpId.add c (a, b, o) r =
      visit_arith-Returns a b o OpId.add c (λ x y. x +ℤ y) (λ x y. refl) (λ x y t. rw t refl) r
  visit_op-Returns OpId.sub c (a, b, o) r =
      visit_arith-Returns a b o OpId.sub c (λ x y. x -ℤ y) (λ x y. refl) (λ x y t. rw t refl) r
  visit_op-Returns OpId.mul c (a, b, o) r =
      visit_arith-Returns a b o OpId.mul c (λ x y. x *ℤ y) (λ x y. refl) (λ x y t. rw t refl) r
  visit_op-Returns OpId.sdiv c (a, b, o) r =
      visit_arith-Returns a b o OpId.sdiv c divide (λ x y. refl)
        (λ x y n. compute-sdiv_divide x y n) r
  visit_op-Returns OpId.cmp c (a, b, o) r = visit_cmp-Returns a b o c
  visit_op-Returns OpId.fadd c (a, b, o) r = visit_fp-Returns a b o OpId.fadd c fl.add (λ x y. refl)
  visit_op-Returns OpId.fsub c (a, b, o) r = visit_fp-Returns a b o OpId.fsub c fl.sub (λ x y. refl)
  visit_op-Returns OpId.fmul c (a, b, o) r = visit_fp-Returns a b o OpId.fmul c fl.mul (λ x y. refl)
  visit_op-Returns OpId.fdiv c (a, b, o) r = visit_fp-Returns a b o OpId.fdiv c fl.div (λ x y. refl)
  visit_op-Returns OpId.fptosi c (a, o) r = visit_fptosi-Returns a o r
  visit_op-Returns OpId.sitofp c (a, o) r = visit_sitofp-Returns a o
  visit_op-Returns OpId.fcmp c o r = absurd o
  visit_op-Returns _ c o r = ((h, false), refl)

  pub visit-Returns : IsDefined fl h env p → Returns (visit fl h p)
  unfolding visit visit_kind
  visit-Returns (op, c, k, r) = rw k (visit_op-Returns op c (ready.arity.0 op c k) r)
