-- ===== src/Ir/Blocks/Mirrored.antt =====
-- The lists of predecessors and of successors say the same (include/lightir/BasicBlock.h,
-- src/lightir/Function.cpp).
use ustc_2021_compliers.Base.{
  contains, remove, contains-remove, contains-append, ℕ, ◌≡◌, ◌≢◌, refl, sym, ◌∙◌, false, not, ◌&&◌,
  List, [], ◌∷◌, ◌==◌, arith,
}
use ustc_2021_compliers.Ir.Heap.{update}
use ustc_2021_compliers.Ir.Blocks.{Blocks, add_edge, remove_succ, remove_pre, remove_block}

-- `q` is a successor of `p` just where `p` is a predecessor of `q`.
abbrev pub Mirrored : Blocks → Type 0
Mirrored g = (p q : ℕ) → contains (g.succ_bbs p) q ≡ contains (g.pre_bbs q) p

-- Where predecessors and successors say the same, they still do after a branch from `p` to `q` has been
-- entered in both.
pub add_edge-Mirrored : (g : Blocks) (p q : ℕ) → Mirrored g → Mirrored (add_edge g p q)
unfolding add_edge
add_edge-Mirrored g p q m a b =
    ground (arith, m a b, contains-append (g.succ_bbs p) q b, contains-append (g.pre_bbs q) p a)

succ-remove_succ :
    (g : Blocks) (bb : ℕ) (ps : List ℕ) (p q : ℕ)
    → contains ((remove_succ g bb ps).succ_bbs p) q
      ≡ contains (g.succ_bbs p) q && not (contains ps p && bb == q)
unfolding remove_succ
succ-remove_succ g bb [] p q = ground arith
succ-remove_succ g bb (x ∷ ps) p q =
    succ-remove_succ (record g { succ_bbs = update g.succ_bbs x (remove (g.succ_bbs x) bb) }) bb ps
      p q
    ∙ ground (arith, contains-remove (g.succ_bbs x) bb q)

pre-remove_succ : (g : Blocks) (bb : ℕ) (ps : List ℕ) → (remove_succ g bb ps).pre_bbs ≡ g.pre_bbs
unfolding remove_succ
pre-remove_succ g bb [] = refl
pre-remove_succ g bb (x ∷ ps) =
    pre-remove_succ (record g { succ_bbs = update g.succ_bbs x (remove (g.succ_bbs x) bb) }) bb ps

pre-remove_pre :
    (g : Blocks) (bb : ℕ) (ss : List ℕ) (p q : ℕ)
    → contains ((remove_pre g bb ss).pre_bbs q) p
      ≡ contains (g.pre_bbs q) p && not (contains ss q && bb == p)
unfolding remove_pre
pre-remove_pre g bb [] p q = ground arith
pre-remove_pre g bb (x ∷ ss) p q =
    pre-remove_pre (record g { pre_bbs = update g.pre_bbs x (remove (g.pre_bbs x) bb) }) bb ss p q
    ∙ ground (arith, contains-remove (g.pre_bbs x) bb p)

succ-remove_pre : (g : Blocks) (bb : ℕ) (ss : List ℕ) → (remove_pre g bb ss).succ_bbs ≡ g.succ_bbs
unfolding remove_pre
succ-remove_pre g bb [] = refl
succ-remove_pre g bb (x ∷ ss) =
    succ-remove_pre (record g { pre_bbs = update g.pre_bbs x (remove (g.pre_bbs x) bb) }) bb ss

blocks-remove_succ :
    (g : Blocks) (bb : ℕ) (ps : List ℕ) → (remove_succ g bb ps).basic_blocks ≡ g.basic_blocks
unfolding remove_succ
blocks-remove_succ g bb [] = refl
blocks-remove_succ g bb (x ∷ ps) =
    blocks-remove_succ (record g { succ_bbs = update g.succ_bbs x (remove (g.succ_bbs x) bb) }) bb
      ps

blocks-remove_pre :
    (g : Blocks) (bb : ℕ) (ss : List ℕ) → (remove_pre g bb ss).basic_blocks ≡ g.basic_blocks
unfolding remove_pre
blocks-remove_pre g bb [] = refl
blocks-remove_pre g bb (x ∷ ss) =
    blocks-remove_pre (record g { pre_bbs = update g.pre_bbs x (remove (g.pre_bbs x) bb) }) bb ss

module _ (g : Blocks) (bb : ℕ) (mirrored : Mirrored g) where
  -- The function without the block in its list, and the graph after the first loop.
  abbrev unlisted : Blocks
  unlisted = record g { basic_blocks = remove g.basic_blocks bb }

  abbrev unsucceeded : Blocks
  unsucceeded = remove_succ unlisted bb (g.pre_bbs bb)

  succ-unsucceeded :
      (p q : ℕ) → contains (unsucceeded.succ_bbs p) q ≡ contains (g.succ_bbs p) q && not (bb == q)
  succ-unsucceeded p q =
      succ-remove_succ unlisted bb (g.pre_bbs bb) p q ∙ ground (arith, mirrored p bb)

  succ-remove_block :
      (p q : ℕ)
      → contains ((remove_block g bb).succ_bbs p) q ≡ contains (g.succ_bbs p) q && not (bb == q)
  unfolding remove_block
  succ-remove_block p q =
      rw (succ-remove_pre unsucceeded bb (unsucceeded.succ_bbs bb)) (succ-unsucceeded p q)

  pre-remove_block :
      (p q : ℕ)
      → bb ≢ q
      → contains ((remove_block g bb).pre_bbs q) p ≡ contains (g.pre_bbs q) p && not (bb == p)
  unfolding remove_block
  pre-remove_block p q ne =
      pre-remove_pre unsucceeded bb (unsucceeded.succ_bbs bb) p q
      ∙ rw (pre-remove_succ unlisted bb (g.pre_bbs bb))
          (ground (arith, succ-unsucceeded bb q, mirrored bb q))

  -- Where predecessors and successors say the same, Function::remove takes the block out of the
  -- function and out of the successors of every block and the predecessors of every other block, and
  -- changes no edge between other blocks; for these the two lists still say the same.
  pub remove_block-Mirrored :
      (contains (remove_block g bb).basic_blocks bb ≡ false)
      × ((p q : ℕ)
          → (contains ((remove_block g bb).succ_bbs p) q
              ≡ contains (g.succ_bbs p) q && not (bb == q))
            × (bb ≢ q
                → contains ((remove_block g bb).pre_bbs q) p
                  ≡ contains (g.pre_bbs q) p && not (bb == p))
            × (bb ≢ p
                → bb ≢ q
                → contains ((remove_block g bb).succ_bbs p) q
                  ≡ contains ((remove_block g bb).pre_bbs q) p))
  unfolding remove_block
  remove_block-Mirrored = (
    rw
        (
          blocks-remove_pre unsucceeded bb (unsucceeded.succ_bbs bb),
          blocks-remove_succ unlisted bb (g.pre_bbs bb),
          contains-remove g.basic_blocks bb bb,
        )
        (ground arith),
    λ p q. (
      succ-remove_block p q,
      pre-remove_block p q,
      λ np nq. succ-remove_block p q ∙ ground (arith, mirrored p q) ∙ sym (pre-remove_block p q nq),
    ),
  )
