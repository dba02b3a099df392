-- ===== src/Opt/ConstProp/Removals.antt =====
-- BasicBlock::delete_instr, as ConstPropagation::run (src/optimization/ConstPropagation.cpp) calls it: what it
-- takes from the use lists and the lists of instructions.
use mathlib.Core.Path.{subst}
use ustc_2021_compliers.Base.{
  ℕ, ◌≡◌, ◌∙◌, refl, sym, ap, Bool-cases, inl, inr, false, List, [], ◌∷◌, ◌==◌, ==_iff, All-map,
  contains, remove, remove_all, arith, get_elem?,
}
use ustc_2021_compliers.Ir.Heap.{
  Heap, Use, without_user, remove_use, remove_use_of, remove_use_of_ops,
}
use ustc_2021_compliers.Ir.Heap.Replace.{slot, listed}
use ustc_2021_compliers.Opt.ConstProp.{delete_all}
use ustc_2021_compliers.Opt.ConstProp.Unused.{operand_of, Clears}

-- Deletions take entries of the deleted users alone.
listed-without_user :
    (us : List Use) (p : ℕ) (u : Use)
    → (p == u.val) ≡ false
    → listed (without_user us p) u ≡ listed us u
listed-without_user [] p u n = refl
listed-without_user (x ∷ us) p u n = elim (Bool-cases (x.val == p)) [
  | inl t ↦
      let same : x.val ≡ p = (==_iff x.val p).0 t in
      rw t (
        listed-without_user us p u n
        ∙ ground (arith, subst (λ v. (v == u.val) ≡ false) (sym same) n))
  | inr f ↦ rw f (ground (arith, listed-without_user us p u n))
]

listed-remove_use :
    (h : Heap) (v p w : ℕ) (u : Use)
    → (p == u.val) ≡ false
    → listed ((remove_use h v p).use_list w) u ≡ listed (h.use_list w) u
unfolding remove_use
listed-remove_use h v p w u n = elim (Bool-cases (v == w)) [
  | inl t ↦ rw t (
      listed-without_user (h.use_list v) p u n
      ∙ ap (λ x. listed (h.use_list x) u) ((==_iff v w).0 t))
  | inr f ↦ rw f refl
]

listed-remove_use_of :
    (vs : List ℕ) (h : Heap) (p w : ℕ) (u : Use)
    → (p == u.val) ≡ false
    → listed ((remove_use_of h vs p).use_list w) u ≡ listed (h.use_list w) u
unfolding remove_use_of
listed-remove_use_of [] h p w u n = refl
listed-remove_use_of (v ∷ vs) h p w u n =
    listed-remove_use_of vs (remove_use h v p) p w u n ∙ listed-remove_use h v p w u n

operands-remove_use_of :
    (vs : List ℕ) (h : Heap) (p : ℕ) → (remove_use_of h vs p).operands ≡ h.operands
unfolding remove_use_of remove_use
operands-remove_use_of [] h p = refl
operands-remove_use_of (v ∷ vs) h p = operands-remove_use_of vs (remove_use h v p) p

pub delete_all-operands :
    (ps instrs : List ℕ) (h : Heap) → (delete_all h instrs ps).0.operands ≡ h.operands
unfolding delete_all remove_use_of_ops
delete_all-operands [] instrs h = refl
delete_all-operands (p ∷ ps) instrs h =
    delete_all-operands ps (remove instrs p) (remove_use_of_ops h p)
    ∙ operands-remove_use_of (h.operands p) h p

listed-delete_all :
    (ps instrs : List ℕ) (h : Heap) (w : ℕ) (u : Use)
    → contains ps u.val ≡ false
    → listed ((delete_all h instrs ps).0.use_list w) u ≡ listed (h.use_list w) u
unfolding delete_all remove_use_of_ops
listed-delete_all [] instrs h w u n = refl
listed-delete_all (p ∷ ps) instrs h w u n =
    listed-delete_all ps (remove instrs p) (remove_use_of_ops h p) w u (ground arith)
    ∙ listed-remove_use_of (h.operands p) h p w u (ground arith)

pub delete_all-list :
    (ps instrs : List ℕ) (h : Heap) → (delete_all h instrs ps).1 ≡ remove_all instrs ps
unfolding delete_all
delete_all-list [] instrs h = refl
delete_all-list (p ∷ ps) instrs h = delete_all-list ps (remove instrs p) (remove_use_of_ops h p)

pub delete_all-Clears :
    (h h' : Heap) (instrs ts todo gone : List ℕ)
    → Clears h h' ts todo gone
    → Clears h (delete_all h' instrs gone).0 ts todo gone
delete_all-Clears h h' instrs ts todo gone c =
    let h2 = (delete_all h' instrs gone).0 in
    let same : (u : Use) → slot h2 u ≡ slot h' u =
      λ u. ap (λ f. get_elem? (f u.val) u.arg_no) (delete_all-operands gone instrs h') in
    record {
      foldable = c.foldable;
      from = c.from;
      rest = c.rest;
      listed_still = λ x n l.
          All-map todo
            (λ v known i e.
              listed-delete_all gone instrs h' v (operand_of x i) n
              ∙ known i (sym (same (operand_of x i)) ∙ e))
            (c.listed_still x n l);
      unused =
          λ x n l. All-map gone (λ v u i e. u i (sym (same (operand_of x i)) ∙ e)) (c.unused x n l);
      unused_still = λ x v lt u i e. c.unused_still x v lt u i (sym (same (operand_of x i)) ∙ e);
    }
