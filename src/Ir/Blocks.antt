-- ===== src/Ir/Blocks.antt =====
-- The control flow graph: the lists of predecessors and successors of include/lightir/BasicBlock.h, and
-- Function::remove of src/lightir/Function.cpp. A block is a number.
use ustc_2021_compliers.Base.{ℕ, ◌≡◌, true, List, [], ◌∷◌, ◌++◌, contains, remove}
use ustc_2021_compliers.Ir.Heap.{update}
pub mod Mirrored

pub record Blocks : Type 0 where
  pub pre_bbs : ℕ → List ℕ
  pub succ_bbs : ℕ → List ℕ
  -- `basic_blocks_` of the function
  pub basic_blocks : List ℕ

-- The successors of the function's blocks are blocks of the function.
abbrev pub IsClosed : Blocks → Type 0
IsClosed g =
    (b s : ℕ)
    → contains g.basic_blocks b ≡ true
    → contains (g.succ_bbs b) s ≡ true
    → contains g.basic_blocks s ≡ true

-- What the creation of a branch from `p` to `q` does: add_succ_basic_block and add_pre_basic_block
unfoldable pub add_edge : Blocks → ℕ → ℕ → Blocks
add_edge g p q = record g {
  succ_bbs = update g.succ_bbs p (g.succ_bbs p ++ q ∷ []);
  pre_bbs = update g.pre_bbs q (g.pre_bbs q ++ p ∷ []);
}

-- `pre->remove_succ_basic_block(bb)`, for each predecessor
unfoldable pub remove_succ : Blocks → ℕ → List ℕ → Blocks
remove_succ g bb [] = g
remove_succ g bb (p ∷ ps) =
    remove_succ (record g { succ_bbs = update g.succ_bbs p (remove (g.succ_bbs p) bb) }) bb ps

-- `succ->remove_pre_basic_block(bb)`, for each successor
unfoldable pub remove_pre : Blocks → ℕ → List ℕ → Blocks
remove_pre g bb [] = g
remove_pre g bb (s ∷ ss) =
    remove_pre (record g { pre_bbs = update g.pre_bbs s (remove (g.pre_bbs s) bb) }) bb ss

-- Function::remove
unfoldable pub remove_block : Blocks → ℕ → Blocks
unfolding remove_succ remove_pre
remove_block g bb =
    let g1 = record g { basic_blocks = remove g.basic_blocks bb } in
    let g2 = remove_succ g1 bb (g1.pre_bbs bb) in remove_pre g2 bb (g2.succ_bbs bb)
