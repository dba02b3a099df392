-- ===== src/Opt/ActiveVars/Analysis.antt =====
-- ActiveVars::run (src/optimization/ActiveVars.cpp) as a whole: the sets that the first loop gathers
-- for each block, and the result of the analysis of a function.
use ustc_2021_compliers.Base.{
  ℕ, ◌+◌, ◌*◌, ◌<◌, ◌≡◌, refl, sym, ap, ◌∙◌, Bool-cases, inl, inr, true, false, List, [], ◌∷◌, ◌==◌,
  arith, ok, >>=-eq-ok, >>=-ok, out_of_fuel, ==_iff, contains, IsDistinct, length, none, some,
}
use mathlib.Core.Path.{subst}
use ustc_2021_compliers.Ir.Heap.{Heap, update}
use ustc_2021_compliers.Ir.Blocks.{Blocks, IsClosed}
use ustc_2021_compliers.Opt.ActiveVars.{
  Facts, no_facts, Live, gather, gather_all, iterate, nothing_live, analyze,
}
use ustc_2021_compliers.Opt.ActiveVars.Growth.{IsWithin}
use ustc_2021_compliers.Opt.ActiveVars.Least.{AreSeen, iterate-AreSeen}
use ustc_2021_compliers.Opt.ActiveVars.Exposed.{exposed, defined, taken}
use ustc_2021_compliers.Opt.ActiveVars.Gathering.{gather-Adds}
use ustc_2021_compliers.Opt.ActiveVars.Operands.{
  all_operands, taken-anywhere, exposed-contains, taken-contains, all_operands-contains,
}

update-other : (k : ℕ → Facts) (p : ℕ) (f : Facts) (b : ℕ) → (p == b) ≡ false → update k p f b ≡ k b
update-other k p f b n = rw n refl

update-same : (k : ℕ → Facts) (p : ℕ) (f : Facts) → update k p f p ≡ f
update-same k p f = rw ((==_iff p p).1 refl) refl

-- The sets of a block are those that the description of the block gives.
pub record Describes (h : Heap) (ps : List ℕ) (f : Facts) : Type 0 where
  pub use_is : (v : ℕ) → contains f.use_set v ≡ exposed h ps v
  pub def_is : (v : ℕ) → contains f.def_set v ≡ defined h ps v
  pub phi_is : (b v : ℕ) → contains (f.phi_use b) v ≡ taken h ps (some b) v
  pub all_is : (v : ℕ) → contains f.phi_all v ≡ taken h ps none v

module _ (h : Heap) (instructions : ℕ → List ℕ) where
  gather-Describes : (ps : List ℕ) (f : Facts) → gather h no_facts ps ≡ ok f → Describes h ps f
  gather-Describes ps f e =
      let a = gather-Adds h ps no_facts f e in
      record {
        use_is = λ v. a.added_use v;
        def_is = λ v. a.added_def v;
        phi_is = λ b v. a.added_phi (some b) v;
        all_is = λ v. a.added_phi none v;
      }

  gather_all-each :
      (bbs : List ℕ) (k k' : ℕ → Facts)
      → gather_all h instructions k bbs ≡ ok k'
      → IsDistinct bbs
      → ((b : ℕ) → contains bbs b ≡ true → gather h (k b) (instructions b) ≡ ok (k' b))
        × ((b : ℕ) → contains bbs b ≡ false → k' b ≡ k b)
  unfolding gather_all
  gather_all-each [] k k' e d = (λ b m. cc, λ b m. cc)
  gather_all-each (bb ∷ bbs) k k' e d =
      let (f, e1, e2) =
        >>=-eq-ok (gather h (k bb) (instructions bb))
          (λ f. gather_all h instructions (update k bb f) bbs) e in
      let (inside, outside) = gather_all-each bbs (update k bb f) k' e2 d.1 in
      (
        λ b m. elim (Bool-cases (bb == b)) [
          | inl t ↦
              subst (λ x. gather h (k x) (instructions x) ≡ ok (k' x)) ((==_iff bb b).0 t)
                (e1 ∙ ap ok (sym (outside bb d.0 ∙ update-same k bb f)))
          | inr n ↦
              subst (λ x. gather h x (instructions b) ≡ ok (k' b)) (update-other k bb f b n)
                (inside b (ground arith))
        ],
        λ b m. outside b (ground arith) ∙ update-other k bb f b (ground arith),
      )

  -- In the first loop, where the blocks are distinct: a block's use set holds the values that an
  -- instruction of the block uses before every definition of them in it, its def set the values that
  -- it defines, and its phi_use, for each block, the values that a phi takes from there,
  -- and its phi_all the values that a phi takes.
  pub gather_all-Describes :
      (bbs : List ℕ) (k : ℕ → Facts)
      → IsDistinct bbs
      → gather_all h instructions (λ b. no_facts) bbs ≡ ok k
      → (b : ℕ) → contains bbs b ≡ true
      → Describes h (instructions b) (k b)
  gather_all-Describes bbs k d e b m =
      gather-Describes (instructions b) (k b) ((gather_all-each bbs (λ b. no_facts) k e d).0 b m)

  module _ (bbs : List ℕ) (k : ℕ → Facts) (d : IsDistinct bbs)
      (e : gather_all h instructions (λ b. no_facts) bbs ≡ ok k) where
    outside_empty : (b : ℕ) → contains bbs b ≡ false → k b ≡ no_facts
    outside_empty b m = (gather_all-each bbs (λ b. no_facts) k e d).1 b m

    -- What a phi takes from a block is what a phi takes.
    pub gather_all-covers :
        (b p v : ℕ) → contains ((k b).phi_use p) v ≡ true → contains (k b).phi_all v ≡ true
    gather_all-covers b p v u = elim (Bool-cases (contains bbs b)) [
      | inl m ↦
          let f = gather_all-Describes bbs k d e b m in
          f.all_is v ∙ taken-anywhere h (instructions b) p v (sym (f.phi_is p v) ∙ u)
      | inr n ↦
          let none_there : contains (no_facts.phi_use p) v ≡ true =
            subst (λ f. contains (f.phi_use p) v ≡ true) (outside_empty b n) u in
          cc
    ]

    gather_all-IsWithin : IsWithin k (all_operands h instructions bbs)
    gather_all-IsWithin = record {
      uses = λ b w u. elim (Bool-cases (contains bbs b)) [
        | inl m ↦ all_operands-contains h instructions bbs b w m (
            exposed-contains h (instructions b) w
              (sym ((gather_all-Describes bbs k d e b m).use_is w) ∙ u))
        | inr n ↦
            let none_there : contains no_facts.use_set w ≡ true =
              subst (λ f. contains f.use_set w ≡ true) (outside_empty b n) u in
            cc
      ];
      choices = λ b p w u. elim (Bool-cases (contains bbs b)) [
        | inl m ↦ all_operands-contains h instructions bbs b w m (
            taken-contains h (instructions b) (some p) w
              (sym ((gather_all-Describes bbs k d e b m).phi_is p w) ∙ u))
        | inr n ↦
            let none_there : contains (no_facts.phi_use p) w ≡ true =
              subst (λ f. contains (f.phi_use p) w ≡ true) (outside_empty b n) u in
            cc
      ];
    }

  -- The loop ends, with the ways that it sees.
  pub analyze-AreSeen :
      (g : Blocks) (k : ℕ → Facts)
      → IsDistinct g.basic_blocks
      → IsClosed g
      → gather_all h instructions (λ b. no_facts) g.basic_blocks ≡ ok k
      → (n : ℕ)
      → length g.basic_blocks
          * (length (all_operands h instructions g.basic_blocks)
              + length (all_operands h instructions g.basic_blocks))
        < n
      → (st : Live) × (analyze h instructions g n ≡ ok st)
        × ((b : ℕ) → contains g.basic_blocks b ≡ true → AreSeen k g st b)
  unfolding analyze
  analyze-AreSeen g k d closed e n lt =
      let (st, run, exact) =
        iterate-AreSeen k g (all_operands h instructions g.basic_blocks)
          (gather_all-IsWithin g.basic_blocks k d e) closed n lt in
      (
        st,
        >>=-ok (gather_all h instructions (λ b. no_facts) g.basic_blocks)
            (λ k. elim (iterate k g n nothing_live) [ none ↦ out_of_fuel | some st ↦ ok st ]) e
            (rw run refl),
        exact,
      )
