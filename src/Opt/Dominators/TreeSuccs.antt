-- ===== src/Opt/Dominators/TreeSuccs.antt =====
-- Dominators::create_dom_tree_succ (src/optimization/Dominators.cpp).
use mathlib.Core.Path.{subst}
use ustc_2021_compliers.Base.{
  ℕ, ◌≡◌, refl, ◌∙◌, Bool, Bool-cases, inl, inr, not, ◌&&◌, ◌||◌, Option, none, some, List, [], ◌∷◌,
  ◌==◌, ==_iff, if◌then◌else◌, arith, contains, insert, contains-insert,
}
use ustc_2021_compliers.Ir.Heap.{update}
use ustc_2021_compliers.Opt.Dominators.{same_block, add_dom_tree_succ_block, create_dom_tree_succ}

-- Whether `d` is another block than `b` and its immediate dominator.
abbrev pub is_idom : (ℕ → Option ℕ) → ℕ → ℕ → Bool
is_idom idom d b = same_block (idom b) (some d) && not (d == b)

added :
    (idom : ℕ → Option ℕ) (tree : ℕ → List ℕ) (o : Option ℕ) (bb d b : ℕ)
    → contains ((if same_block o (some bb) then tree else add_dom_tree_succ_block tree o bb) d) b
      ≡ contains (tree d) b || ((bb == b) && same_block o (some d) && not (d == bb))
added idom tree none bb d b = ground arith
added idom tree (some p) bb d b = elim (Bool-cases (p == d)) [
  | inl t ↦
      subst
        (λ z.
          contains ((if p == bb then tree else update tree p (insert (tree p) bb)) z) b
          ≡ contains (tree z) b || ((bb == b) && (p == z) && not (z == bb)))
        ((==_iff p d).0 t) (ground (arith, (==_iff p p).1 refl, contains-insert (tree p) bb b))
  | inr f ↦ ground arith
]

-- create_dom_tree_succ adds to the successors of a block in the tree those of the given blocks,
-- other than itself, whose immediate dominator it is.
pub create_dom_tree_succ-is_idom :
    (idom : ℕ → Option ℕ) (tree : ℕ → List ℕ) (bbs : List ℕ) (d b : ℕ)
    → contains (create_dom_tree_succ idom tree bbs d) b
      ≡ contains (tree d) b || (contains bbs b && is_idom idom d b)
unfolding create_dom_tree_succ
create_dom_tree_succ-is_idom idom tree [] d b = ground arith
create_dom_tree_succ-is_idom idom tree (bb ∷ bbs) d b =
    create_dom_tree_succ-is_idom idom
      (if same_block (idom bb) (some bb) then tree else add_dom_tree_succ_block tree (idom bb) bb)
      bbs d b
    ∙ elim (Bool-cases (bb == b)) [
      | inl t ↦
          subst
            (λ z.
              contains
                  ((if same_block (idom bb) (some bb)
                      then tree
                      else add_dom_tree_succ_block tree (idom bb) bb)
                    d)
                  z
                || (contains bbs z && is_idom idom d z)
              ≡ contains (tree d) z || (contains (bb ∷ bbs) z && is_idom idom d z))
            ((==_iff bb b).0 t)
            (ground (arith, (==_iff bb bb).1 refl, added idom tree (idom bb) bb d bb))
      | inr f ↦ ground (arith, added idom tree (idom bb) bb d b)
    ]
