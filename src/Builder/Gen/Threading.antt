-- ===== src/Builder/Gen/Threading.antt =====
-- src/cminusfc/cminusf_builder.cpp: where the loops at again1 and again2 lead.
use Prim.Native.Nat.{zero, suc}
use ustc_2021_compliers.Base.{
  ℕ, ◌<◌, ◌≤◌, ◌≡◌, refl, Bool-cases, inl, inr, true, false, some, List, arith, ok, Yields,
  contains, length, get_elem?,
}
use ustc_2021_compliers.Ir.Create.{Code}
use ustc_2021_compliers.Builder.Gen.Cleanup.{get_terminator, thread_jump, thread}

-- Each block without work jumps to a block of a lower rank.
abbrev pub GoesDown : Code → List ℕ → (ℕ → ℕ) → Type 0
GoesDown c empty_bbs rank =
    (b : ℕ)
    → contains empty_bbs b ≡ true
    → (t : ℕ) × (get_terminator c b ≡ some t)
      × ((next : ℕ) × (get_elem? (c.heap.operands t) 0 ≡ some next) × (rank next < rank b))

-- What is reached from a block by the jumps of the blocks without work
pub data Leads (c : Code) (empty_bbs : List ℕ) : ℕ → ℕ → Type 0 where
  here : {b : ℕ} → contains empty_bbs b ≡ false → Leads c empty_bbs b b
  jump :
      {b t next target : ℕ}
      → contains empty_bbs b ≡ true
      → get_terminator c b ≡ some t
      → get_elem? (c.heap.operands t) 0 ≡ some next
      → Leads c empty_bbs next target
      → Leads c empty_bbs b target

thread_jump-Leads :
    (c : Code) (empty_bbs : List ℕ) (rank : ℕ → ℕ)
    → GoesDown c empty_bbs rank
    → (fuel b : ℕ) → rank b < fuel
    → Yields (thread_jump fuel c empty_bbs b) (Leads c empty_bbs b)
unfolding thread_jump
thread_jump-Leads c empty_bbs rank down zero b lt = absurd (omega (arith, lt))
thread_jump-Leads c empty_bbs rank down (suc fuel) b lt = elim (Bool-cases (contains empty_bbs b)) [
  | inl e ↦
      let (t, at_end, (next, first, less)) = down b e in
      let (target, d, l) =
        thread_jump-Leads c empty_bbs rank down fuel next (omega (arith, lt, less)) in
      (target, rw (e, at_end, first) d, jump e at_end first l)
  | inr e ↦ (b, rw e refl, here e)
]

-- Where the blocks without work do not jump in a circle (each jumps to a block of a lower rank) and the rank of a block
-- is at most their number, the loop at again1 ends for this block: it comes to the block that has work and is reached by the jumps.
pub thread-Leads :
    (c : Code) (empty_bbs : List ℕ) (rank : ℕ → ℕ) (b : ℕ)
    → GoesDown c empty_bbs rank
    → rank b ≤ length empty_bbs
    → (target : ℕ) × (thread c empty_bbs b ≡ ok target) × Leads c empty_bbs b target
thread-Leads c empty_bbs rank b down le =
    thread_jump-Leads c empty_bbs rank down (suc (length empty_bbs)) b (omega (arith, le))
