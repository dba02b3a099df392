-- ===== src/Opt/Dominators/Reach.antt =====
-- Reachability in the flow graph.
use ustc_2021_compliers.Base.{ℕ, ◌≡◌, true, contains}
use ustc_2021_compliers.Ir.Blocks.{Blocks}

pub data Reach (g : Blocks) (a : ℕ) : ℕ → Type 0 where
  here : Reach g a a
  next : {b c : ℕ} → Reach g a b → contains (g.succ_bbs b) c ≡ true → Reach g a c

pub prepend :
    {g : Blocks} {a b c : ℕ} → contains (g.succ_bbs a) b ≡ true → Reach g b c → Reach g a c
prepend e here = next here e
prepend e (next r f) = next (prepend e r) f
