-- ===== src/Opt/ConstProp/Sound.antt =====
-- ConstPropagation::run (src/optimization/ConstPropagation.cpp) keeps the values of a run.
use ustc_2021_compliers.Base.{ℕ, ◌≡◌, ◌≢◌, refl, Bool, List, [], ◌∷◌, ◌++◌, map, ok, All, >>=-eq-ok}
use mathlib.Core.Path.{subst}
use mathlib.Core.List.{append_assoc, flatten}
use ustc_2021_compliers.Ir.Instruction.{OpId, CmpOp}
use ustc_2021_compliers.Ir.Heap.{Heap, Kind, instruction}
use ustc_2021_compliers.Opt.ConstFolder.{Floats, fcompute}
use ustc_2021_compliers.Opt.ConstProp.{
  visit, visit_kind, visit_op, visit_all, run_block, run_blocks, run, fold_fp, replace_by,
}
use ustc_2021_compliers.Opt.ConstProp.Values.{Value, IsReady, HasArity}
use ustc_2021_compliers.Opt.ConstProp.Step.{Kept}
use ustc_2021_compliers.Opt.ConstProp.Delete.{Kept-refl, Kept-trans, delete_all-Kept}
use ustc_2021_compliers.Opt.ConstProp.Visit.{
  unchanged, visit_cmp-Kept, visit_add-Kept, visit_sub-Kept, visit_mul-Kept, visit_sdiv-Kept,
  visit_fp-Kept, visit_fptosi-Kept, visit_sitofp-Kept,
}

abbrev pub Distinct : List ℕ → Type 0
Distinct [] = Unit
Distinct (p ∷ ps) = All (λ q. p ≢ q) ps × Distinct ps

pub Distinct-append : (ps qs : List ℕ) → Distinct (ps ++ qs) → Distinct qs
Distinct-append [] qs d = d
Distinct-append (p ∷ ps) qs d = Distinct-append ps qs d.1

module _ (fl : Floats) where
  module _ (h : Heap) (env : ℕ → Value) (p : ℕ) (todo : List ℕ)
      (ready : IsReady fl h env (p ∷ todo)) (distinct : All (λ q. p ≢ q) todo) (h' : Heap)
      (folded : Bool) where
    visit_op-Kept :
        (op : OpId) (c : CmpOp)
        → h.kind p ≡ instruction op c
        → HasArity op (h.operands p)
        → visit_op fl h p op c ≡ ok (h', folded)
        → Kept fl h env h' todo
    unfolding visit_op fold_fp replace_by fcompute
    visit_op-Kept OpId.add c k (a, b, o) e =
        visit_add-Kept fl h env p todo ready distinct a b o h' folded c k e
    visit_op-Kept OpId.sub c k (a, b, o) e =
        visit_sub-Kept fl h env p todo ready distinct a b o h' folded c k e
    visit_op-Kept OpId.mul c k (a, b, o) e =
        visit_mul-Kept fl h env p todo ready distinct a b o h' folded c k e
    visit_op-Kept OpId.sdiv c k (a, b, o) e =
        visit_sdiv-Kept fl h env p todo ready distinct a b o h' folded c k e
    visit_op-Kept OpId.cmp c k (a, b, o) e =
        visit_cmp-Kept fl h env p todo ready distinct a b o h' folded c k e
    visit_op-Kept OpId.fadd c k (a, b, o) e =
        visit_fp-Kept fl h env p todo ready distinct a b o h' folded OpId.fadd c fl.add
          (λ x y. refl) (λ x y m. m) k e
    visit_op-Kept OpId.fsub c k (a, b, o) e =
        visit_fp-Kept fl h env p todo ready distinct a b o h' folded OpId.fsub c fl.sub
          (λ x y. refl) (λ x y m. m) k e
    visit_op-Kept OpId.fmul c k (a, b, o) e =
        visit_fp-Kept fl h env p todo ready distinct a b o h' folded OpId.fmul c fl.mul
          (λ x y. refl) (λ x y m. m) k e
    visit_op-Kept OpId.fdiv c k (a, b, o) e =
        visit_fp-Kept fl h env p todo ready distinct a b o h' folded OpId.fdiv c fl.div
          (λ x y. refl) (λ x y m. m) k e
    visit_op-Kept OpId.fptosi c k (a, o) e =
        visit_fptosi-Kept fl h env p todo ready distinct a o h' folded c k e
    visit_op-Kept OpId.sitofp c k (a, o) e =
        visit_sitofp-Kept fl h env p todo ready distinct a o h' folded c k e
    visit_op-Kept OpId.fcmp c k o e = absurd o
    visit_op-Kept op c k o e =
        subst (λ x. Kept fl h env x todo) (cc) (unchanged fl h env p todo ready distinct)

    visit_kind-Kept :
        (k : Kind) → h.kind p ≡ k → visit_kind fl h p k ≡ ok (h', folded) → Kept fl h env h' todo
    unfolding visit_kind
    visit_kind-Kept (instruction op c) k e = visit_op-Kept op c k (ready.arity.0 op c k) e
    visit_kind-Kept _ k e = cc

    pub visit-Kept : visit fl h p ≡ ok (h', folded) → Kept fl h env h' todo
    unfolding visit
    visit-Kept e = visit_kind-Kept (h.kind p) refl e

  pub visit_all-Kept :
      (ps todo : List ℕ) (h : Heap) (env : ℕ → Value) (h' : Heap) (waits : List ℕ)
      → IsReady fl h env (ps ++ todo)
      → Distinct (ps ++ todo)
      → visit_all fl h ps ≡ ok (h', waits)
      → Kept fl h env h' todo
  unfolding visit_all
  visit_all-Kept [] todo h env h' waits r d e =
      subst (λ x. Kept fl h env x todo) (cc) (Kept-refl fl h env todo r)
  visit_all-Kept (p ∷ ps) todo h env h' waits r d e =
      let (x, e1, e2) = >>=-eq-ok (visit fl h p) _ e in
      let k1 = visit-Kept h env p (ps ++ todo) r d.0 x.0 x.1 e1 in
      let (y, e3, e4) = >>=-eq-ok (visit_all fl x.0 ps) _ e2 in
      let k2 = visit_all-Kept ps todo x.0 k1.env' y.0 y.1 k1.ready d.1 e3 in
      subst (λ z. Kept fl h env z todo) (cc e4) (Kept-trans fl h env k1 k2)

  pub run_block-Kept :
      (ps todo : List ℕ) (h : Heap) (env : ℕ → Value) (h' : Heap) (ps' : List ℕ)
      → IsReady fl h env (ps ++ todo)
      → Distinct (ps ++ todo)
      → run_block fl h ps ≡ ok (h', ps')
      → Kept fl h env h' todo
  unfolding run_block
  run_block-Kept ps todo h env h' ps' r d e =
      let (x, e1, e2) = >>=-eq-ok (visit_all fl h ps) _ e in
      let k1 = visit_all-Kept ps todo h env x.0 x.1 r d e1 in
      let k2 = delete_all-Kept fl x.1 ps x.0 k1.env' todo k1.ready in
      subst (λ z. Kept fl h env z todo) (cc e2) (Kept-trans fl h env k1 k2)

  pub run_blocks-Kept :
      (bs : List (List ℕ)) (todo : List ℕ) (h : Heap) (env : ℕ → Value) (h' : Heap)
      (bs' : List (List ℕ))
      → IsReady fl h env (flatten bs ++ todo)
      → Distinct (flatten bs ++ todo)
      → run_blocks fl h bs ≡ ok (h', bs')
      → Kept fl h env h' todo
  unfolding run_blocks flatten
  run_blocks-Kept [] todo h env h' bs' r d e =
      subst (λ x. Kept fl h env x todo) (cc) (Kept-refl fl h env todo r)
  run_blocks-Kept (b ∷ bs) todo h env h' bs' r d e =
      let q = append_assoc b (flatten bs) todo in
      let (x, e1, e2) = >>=-eq-ok (run_block fl h b) _ e in
      let k1 = run_block-Kept b (flatten bs ++ todo) h env x.0 x.1 (rw q at r) (rw q at d) e1 in
      let (y, e3, e4) = >>=-eq-ok (run_blocks fl x.0 bs) _ e2 in
      let k2 =
        run_blocks-Kept bs todo x.0 k1.env' y.0 y.1 k1.ready
          (Distinct-append b (flatten bs ++ todo) (rw q at d)) e3 in
      subst (λ z. Kept fl h env z todo) (cc e4) (Kept-trans fl h env k1 k2)

  pub run-Kept :
      (fs : List (List (List ℕ))) (h : Heap) (env : ℕ → Value) (h' : Heap)
      (fs' : List (List (List ℕ)))
      → IsReady fl h env (flatten (map flatten fs))
      → Distinct (flatten (map flatten fs))
      → run fl h fs ≡ ok (h', fs')
      → Kept fl h env h' []
  unfolding run flatten
  run-Kept [] h env h' fs' r d e = subst (λ x. Kept fl h env x []) (cc) (Kept-refl fl h env [] r)
  run-Kept (f ∷ fs) h env h' fs' r d e =
      let rest = flatten (map flatten fs) in
      let (x, e1, e2) = >>=-eq-ok (run_blocks fl h f) _ e in
      let k1 = run_blocks-Kept f rest h env x.0 x.1 r d e1 in
      let (y, e3, e4) = >>=-eq-ok (run fl x.0 fs) _ e2 in
      let k2 = run-Kept fs x.0 k1.env' y.0 y.1 k1.ready (Distinct-append (flatten f) rest d) e3 in
      subst (λ z. Kept fl h env z []) (cc e4) (Kept-trans fl h env k1 k2)
