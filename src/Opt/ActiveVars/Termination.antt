-- ===== src/Opt/ActiveVars/Termination.antt =====
-- The loop of ActiveVars::run (src/optimization/ActiveVars.cpp) ends.
use Prim.Native.Nat.{zero, suc}
use mathlib.Core.Path.{subst}
use ustc_2021_compliers.Base.{
  ℕ, ◌+◌, ◌*◌, ◌≤◌, ◌<◌, ◌≡◌, Bool-cases, inl, inr, true, some, List, [], ◌∷◌, arith, contains,
  length, All, All-map,
}
use ustc_2021_compliers.Ir.Blocks.{Blocks}
use ustc_2021_compliers.Opt.ActiveVars.{Facts, Live, nothing_live, visit_block, round, iterate}
use ustc_2021_compliers.Opt.ActiveVars.Rounds.{IsSolved, round-IsSolved}
use ustc_2021_compliers.Opt.ActiveVars.Growth.{
  IsWithin, IsAscending, nothing_live-IsAscending, after-IsAscending, size, size_bound, visit_grows,
  visit_grows_more,
}

pub All-contains : (xs : List ℕ) → All (λ x. contains xs x ≡ true) xs
All-contains [] = tt
All-contains (x ∷ xs) = ((ground arith), All-map xs (λ y m. ground arith) (All-contains xs))

module _ (k : ℕ → Facts) (g : Blocks) where
  -- An invariant of the visits is one of the loop.
  module _ (P : Live → Type 0)
      (keep : (st : Live) (bb : ℕ) → P st → P (visit_block k g st bb).0) where
    pub round_keeps : (bs : List ℕ) (st : Live) → P st → P (round k g st bs).0
    unfolding round
    round_keeps [] st p = p
    round_keeps (b ∷ bs) st p = round_keeps bs (visit_block k g st b).0 (keep st b p)

    -- What the loop returns has the invariant, and solves the equations of every block.
    pub iterate_keeps :
        (n : ℕ) (st st' : Live)
        → iterate k g n st ≡ some st'
        → P st
        → P st' × All (IsSolved k g st') g.basic_blocks
    unfolding iterate
    iterate_keeps zero st st' e p = cc
    iterate_keeps (suc n) st st' e p = elim (Bool-cases (round k g st g.basic_blocks).1) [
      | inl t ↦
          iterate_keeps n (round k g st g.basic_blocks).0 st' (ground arith)
            (round_keeps g.basic_blocks st p)
      | inr f ↦
          subst (λ x. P x × All (IsSolved k g x) g.basic_blocks) (ground arith)
            (round_keeps g.basic_blocks st p, (round-IsSolved k g g.basic_blocks st f).1)
    ]

  module _ (values : List ℕ) (within : IsWithin k values) where
    round_grows :
        (bs : List ℕ) (st : Live)
        → All (λ b. contains g.basic_blocks b ≡ true) bs
        → IsAscending k g values within st
        → (size k g values within st ≤ size k g values within (round k g st bs).0)
          × ((round k g st bs).1 ≡ true
              → size k g values within st < size k g values within (round k g st bs).0)
    unfolding round
    round_grows [] st m a = (omega arith, λ e. cc)
    round_grows (b ∷ bs) st m a =
        let st1 : Live = (visit_block k g st b).0 in
        let (le, more) = round_grows bs st1 m.1 (after-IsAscending k g values within st b a) in
        let first = visit_grows k g values within st b a in
        (
          omega (arith, le, first),
          λ e. elim (Bool-cases (visit_block k g st b).1) [
            | inl t ↦ omega (arith, le, visit_grows_more k g values within st b a m.0 t)
            | inr f ↦ omega (arith, first, more (ground arith))
          ],
        )

    -- A round for each member that the sets can have, and one more, are enough.
    iterate_returns :
        (n : ℕ) (st : Live)
        → length g.basic_blocks * (length values + length values) < size k g values within st + n
        → IsAscending k g values within st
        → (st' : Live) × (iterate k g n st ≡ some st')
    unfolding iterate
    iterate_returns zero st lt a = absurd (omega (arith, size_bound k g values within st))
    iterate_returns (suc n) st lt a = elim (Bool-cases (round k g st g.basic_blocks).1) [
      | inl t ↦
          let (x, e) =
            iterate_returns n (round k g st g.basic_blocks).0
              (omega
                (arith, lt, (round_grows g.basic_blocks st (All-contains g.basic_blocks) a).1 t))
              (round_keeps (IsAscending k g values within)
                (λ s b. after-IsAscending k g values within s b) g.basic_blocks st a) in
          (x, ground arith)
      | inr f ↦ ((round k g st g.basic_blocks).0, ground arith)
    ]

    pub run_returns :
        (n : ℕ)
        → length g.basic_blocks * (length values + length values) < n
        → (st : Live) × (iterate k g n nothing_live ≡ some st)
    run_returns n lt =
        iterate_returns n nothing_live (omega arith) (nothing_live-IsAscending k g values within)
