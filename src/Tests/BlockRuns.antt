-- ===== src/Tests/BlockRuns.antt =====
-- The control flow graph 0 → 1, 1 → 1, 1 → 2, from which the block 1 is removed.
use ustc_2021_compliers.Base.{ℕ, ◌≡◌, ◌≢◌, refl, false, not, ◌&&◌, [], ◌∷◌, ◌==◌}
use ustc_2021_compliers.Ir.Blocks.{Blocks, add_edge, remove_block}
use ustc_2021_compliers.Base.{contains}
use ustc_2021_compliers.Ir.Blocks.Mirrored.{Mirrored, add_edge-Mirrored, remove_block-Mirrored}

abbrev no_edges : Blocks
no_edges = record { pre_bbs = λ p. []; succ_bbs = λ p. []; basic_blocks = 0 ∷ 1 ∷ 2 ∷ [] }

no_edges-Mirrored : Mirrored no_edges
no_edges-Mirrored p q = refl

abbrev looping : Blocks
looping = add_edge (add_edge (add_edge no_edges 0 1) 1 1) 1 2

add_edge-Mirrored_example : Mirrored (add_edge no_edges 0 1)
add_edge-Mirrored_example = add_edge-Mirrored no_edges 0 1 no_edges-Mirrored

looping-Mirrored : Mirrored looping
looping-Mirrored = add_edge-Mirrored (add_edge (add_edge no_edges 0 1) 1 1) 1 2 (
    add_edge-Mirrored (add_edge no_edges 0 1) 1 1
      (add_edge-Mirrored no_edges 0 1 no_edges-Mirrored))

remove_block-Mirrored_example :
    (contains (remove_block looping 1).basic_blocks 1 ≡ false)
    × ((p q : ℕ)
        → (contains ((remove_block looping 1).succ_bbs p) q
            ≡ contains (looping.succ_bbs p) q && not (1 == q))
          × (1 ≢ q
              → contains ((remove_block looping 1).pre_bbs q) p
                ≡ contains (looping.pre_bbs q) p && not (1 == p))
          × (1 ≢ p
              → 1 ≢ q
              → contains ((remove_block looping 1).succ_bbs p) q
                ≡ contains ((remove_block looping 1).pre_bbs q) p))
remove_block-Mirrored_example = remove_block-Mirrored looping 1 looping-Mirrored
