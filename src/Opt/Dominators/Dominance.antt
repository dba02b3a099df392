-- ===== src/Opt/Dominators/Dominance.antt =====
-- What Dominators::create_idom (src/optimization/Dominators.cpp) has found when a round changes nothing.
use mathlib.Core.Path.{subst}
use ustc_2021_compliers.Base.{
  ℕ, ◌+◌, ◌<◌, ◌≡◌, refl, sym, ap, ◌∙◌, ◌⊎◌, ◌↔◌, Bool, Bool-cases, inl, inr, true, false, Option,
  List, [], ◌∷◌, ◌==◌, ==_iff, arith, ok, contains,
}
use ustc_2021_compliers.Ir.Blocks.{Blocks}
use ustc_2021_compliers.Opt.Dominators.{has_idom, idom_round, no_idoms}
use ustc_2021_compliers.Opt.Dominators.Reach.{Reach, here, next}
use ustc_2021_compliers.Opt.Dominators.Ancestors.{Above, Above-step, Above-trans, root_alone}
use ustc_2021_compliers.Opt.Dominators.IdomRound.{IsOrder, IsPartial, SolvedAt, idom_round-Rounded}

-- The way passes through the block.
abbrev pub IsOn : {g : Blocks} {root b : ℕ} → ℕ → Reach g root b → Type 0
IsOn {root = root} a here = a ≡ root
IsOn a (next {c = c} way e) = (a ≡ c) ⊎ IsOn a way

-- Each block above another is on every way from the entry to it.
abbrev pub Dominate : Blocks → ℕ → (ℕ → Option ℕ) → Type 0
Dominate g root idom = (a b : ℕ) (way : Reach g root b) → Above idom a b → IsOn a way

module _ (g : Blocks) (rpo : List ℕ) (id : ℕ → ℕ) (root : ℕ) (order : IsOrder g rpo id root)
    (lists : (x : ℕ) → (contains rpo x ≡ true) ↔ Reach g root x)
    (mirrored : (p b : ℕ)
      → contains (g.succ_bbs p) b ≡ true
      → contains (g.pre_bbs b) p ≡ true) where
  -- Where the immediate dominator of every block is above all its predecessors.
  solved-Dominate :
      (nodes : List ℕ) (idom : ℕ → Option ℕ)
      → IsPartial rpo nodes id root idom
      → ((b : ℕ) → contains rpo b ≡ true → contains nodes b ≡ true)
      → ((b : ℕ) → contains rpo b ≡ true → (b == root) ≡ false → SolvedAt g idom b)
      → (a b : ℕ) (way : Reach g root b) → Above idom a b
      → IsOn a way
  solved-Dominate nodes idom part all solved a b here up_a =
      root_alone nodes id idom root part.tree up_a refl
  solved-Dominate nodes idom part all solved a b (next {b = p} way e) up_a =
      elim (Bool-cases (b == root)) [
        | inl t ↦
            let same : b ≡ root = (==_iff b root).0 t in
            inl (root_alone nodes id idom root part.tree up_a same ∙ sym same)
        | inr f ↦
            let s = solved b ((lists b).1 (next way e)) f in
            elim (Above-step up_a s.has) [
              | inl same ↦ inl (sym same)
              | inr higher ↦
                  let p_in = all p ((lists p).1 way) in
                  inr (
                    solved-Dominate nodes idom part all solved a p way
                      (Above-trans (s.above_preds p (mirrored p b e) (part.known p ∙ p_in)) higher))
            ]
      ]

  -- From a state in which the blocks with an immediate dominator make a tree, and with enough steps for
  -- intersect, a round of create_idom returns, passes its assertions, gives every block that the entry
  -- reaches an immediate dominator, and keeps the tree; and if it changed nothing, each block above
  -- another in the tree is on every way from the entry to it.
  pub idom_round-Dominate :
      (n : ℕ)
      → id root + id root + 1 < n
      → (nodes : List ℕ) (idom : ℕ → Option ℕ) → IsPartial rpo nodes id root idom
      → (r : (ℕ → Option ℕ) × Bool) × (idom_round g id root n idom rpo ≡ ok r)
        × ((nodes' : List ℕ) × IsPartial rpo nodes' id root (r.0))
        × ((b : ℕ) → contains rpo b ≡ true → has_idom (r.0 b) ≡ true)
        × (r.1 ≡ false → Dominate g root (r.0))
  idom_round-Dominate n enough nodes idom part =
      let (r, e, k) =
        idom_round-Rounded g rpo id root order n enough rpo nodes idom part order.descending
          (λ b m. m) (λ b m f. absurd (cc (m, f))) in
      (
        r,
        e,
        (k.nodes_after, k.part_after),
        λ b m. k.part_after.known b ∙ k.all_in b m,
        λ q.
            let (same, solved) = k.calm q in
            λ a b way up_a.
              solved-Dominate k.nodes_after (r.0) k.part_after k.all_in
                (λ x m f. subst (λ i. SolvedAt g i x) (sym same) (solved x m f)) a b way up_a,
      )

  -- The state before the first round.
  pub no_idoms-IsPartial :
      contains rpo root ≡ true → IsPartial rpo (root ∷ []) id root (no_idoms root)
  no_idoms-IsPartial m = record {
    tree = record {
      root_in = ground (arith, (==_iff root root).1 refl);
      root_idom = rw ((==_iff root root).1 refl) refl;
      greatest = λ b e. order.greatest b (in_rpo b e);
      apart = λ a b ea eb e. order.apart a b (in_rpo a ea) (in_rpo b eb) e;
      rises = λ b e lt. absurd (omega (arith, lt, ap id ((==_iff root b).0 (only b e))));
    };
    known = λ b. ground arith;
    within = in_rpo;
  }
    where
      only : (b : ℕ) → contains (root ∷ []) b ≡ true → (root == b) ≡ true
      only b e = ground arith

      in_rpo : (b : ℕ) → contains (root ∷ []) b ≡ true → contains rpo b ≡ true
      in_rpo b e = subst (λ x. contains rpo x ≡ true) ((==_iff root b).0 (only b e)) m
