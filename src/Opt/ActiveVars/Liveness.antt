-- ===== src/Opt/ActiveVars/Liveness.antt =====
-- ActiveVars::run (src/optimization/ActiveVars.cpp) and liveness as Documentations/4-ir-opt defines it:
-- IN is what a block uses and OUT without what it defines, and OUT the union of the IN of the
-- successors and of what their phis take from the block.
use ustc_2021_compliers.Base.{
  ℕ, ◌+◌, ◌*◌, ◌<◌, ◌≡◌, ◌⊎◌, ◌↔◌, Bool-cases, inl, inr, true, false, arith, ok, contains,
  IsDistinct, length, List,
}
use ustc_2021_compliers.Ir.Heap.{Heap}
use ustc_2021_compliers.Ir.Blocks.{Blocks, IsClosed}
use ustc_2021_compliers.Opt.ActiveVars.{Facts, no_facts, Live, gather_all, analyze}
use ustc_2021_compliers.Opt.ActiveVars.Equations.{passes}
use ustc_2021_compliers.Opt.ActiveVars.Least.{
  IsSeenIn, used, chosen, through, into_phi, IsSeenOut, next, for_phi,
}
use ustc_2021_compliers.Opt.ActiveVars.Operands.{all_operands}
use ustc_2021_compliers.Opt.ActiveVars.Analysis.{gather_all-covers, analyze-AreSeen}

-- From the head of a block, a way along which the value is not defined leads to a use of it.
pub data IsLiveIn (k : ℕ → Facts) (g : Blocks) (v : ℕ) : ℕ → Type 0 where
  in_use : {b : ℕ} → contains (k b).use_set v ≡ true → IsLiveIn k g v b
  in_next :
      {b : ℕ} (s : ℕ)
      → contains (k b).def_set v ≡ false
      → contains (g.succ_bbs b) s ≡ true
      → IsLiveIn k g v s
      → IsLiveIn k g v b
  in_phi :
      {b : ℕ} (s : ℕ)
      → contains (k b).def_set v ≡ false
      → contains (g.succ_bbs b) s ≡ true
      → contains ((k s).phi_use b) v ≡ true
      → IsLiveIn k g v b

-- The same from the end of a block.
pub data IsLiveOut (k : ℕ → Facts) (g : Blocks) (v : ℕ) : ℕ → Type 0 where
  out_next :
      {b : ℕ} (s : ℕ) → contains (g.succ_bbs b) s ≡ true → IsLiveIn k g v s → IsLiveOut k g v b
  out_phi :
      {b : ℕ} (s : ℕ)
      → contains (g.succ_bbs b) s ≡ true
      → contains ((k s).phi_use b) v ≡ true
      → IsLiveOut k g v b

-- A phi of the block takes the value from a predecessor. The pass puts it into live_in, too.
abbrev pub IsChosen : (ℕ → Facts) → Blocks → ℕ → ℕ → Type 0
IsChosen k g b v =
    (p : ℕ) × (contains (g.pre_bbs b) p ≡ true) × (contains ((k b).phi_use p) v ≡ true)

-- No value that phis of a block take from other predecessors alone is live at the head of the block.
abbrev pub IsUnmasked : (ℕ → Facts) → Blocks → Type 0
IsUnmasked k g =
    (b s v : ℕ)
    → contains (g.succ_bbs b) s ≡ true
    → contains (k s).phi_all v ≡ true
    → contains ((k s).phi_use b) v ≡ false
    → ¬ IsLiveIn k g v s

module _ (k : ℕ → Facts) (g : Blocks) where
  -- The sets hold live variables only.
  pub record AreLive (st : Live) (b : ℕ) : Type 0 where
    pub live_in : (v : ℕ) → contains (st.live_in b) v ≡ true → IsLiveIn k g v b ⊎ IsChosen k g b v
    pub live_out : (v : ℕ) → contains (st.live_out b) v ≡ true → IsLiveOut k g v b

  -- The sets hold the live variables.
  pub record IsExact (st : Live) (b : ℕ) : Type 0 where
    pub exact_in :
        (v : ℕ) → (contains (st.live_in b) v ≡ true) ↔ (IsLiveIn k g v b ⊎ IsChosen k g b v)
    pub exact_out : (v : ℕ) → (contains (st.live_out b) v ≡ true) ↔ IsLiveOut k g v b

  module _
      (covers : (b p v : ℕ)
        → contains ((k b).phi_use p) v ≡ true
        → contains (k b).phi_all v ≡ true) where
    IsSeenIn-IsLiveIn : {v b : ℕ} → IsSeenIn k g v b → IsLiveIn k g v b ⊎ IsChosen k g b v
    IsSeenIn-IsLiveIn (used e) = inl (in_use e)
    IsSeenIn-IsLiveIn (chosen p m e) = inr (p, m, e)
    IsSeenIn-IsLiveIn {v} {b} (through s n m e d) = elim (IsSeenIn-IsLiveIn d) [
      | inl l ↦ inl (in_next s n m l)
      | inr (p, mp, t) ↦ inl (in_phi s n m (ground (arith, covers s p v t, e)))
    ]
    IsSeenIn-IsLiveIn (into_phi s n m e) = inl (in_phi s n m e)

    IsSeenOut-IsLiveOut : {v b : ℕ} → IsSeenOut k g v b → IsLiveOut k g v b
    IsSeenOut-IsLiveOut {v} {b} (next s m e d) = elim (IsSeenIn-IsLiveIn d) [
      | inl l ↦ out_next s m l
      | inr (p, mp, t) ↦ out_phi s m (ground (arith, covers s p v t, e))
    ]
    IsSeenOut-IsLiveOut (for_phi s m e) = out_phi s m e

  module _ (unmasked : IsUnmasked k g) where
    IsLiveIn-passes :
        (v b s : ℕ) → contains (g.succ_bbs b) s ≡ true → IsLiveIn k g v s → passes k g s b v ≡ true
    IsLiveIn-passes v b s m l = elim (Bool-cases (passes k g s b v)) [
      | inl t ↦ t
      | inr f ↦ absurd (unmasked b s v m (ground arith) (ground arith) l)
    ]

    IsLiveIn-IsSeenIn : {v b : ℕ} → IsLiveIn k g v b → IsSeenIn k g v b
    IsLiveIn-IsSeenIn (in_use e) = used e
    IsLiveIn-IsSeenIn {v} {b} (in_next s n m l) =
        through s n m (IsLiveIn-passes v b s m l) (IsLiveIn-IsSeenIn l)
    IsLiveIn-IsSeenIn (in_phi s n m e) = into_phi s n m e

    IsLiveOut-IsSeenOut : {v b : ℕ} → IsLiveOut k g v b → IsSeenOut k g v b
    IsLiveOut-IsSeenOut {v} {b} (out_next s m l) =
        next s m (IsLiveIn-passes v b s m l) (IsLiveIn-IsSeenIn l)
    IsLiveOut-IsSeenOut (out_phi s m e) = for_phi s m e

module _ (h : Heap) (instructions : ℕ → List ℕ) (g : Blocks) (k : ℕ → Facts)
    (distinct : IsDistinct g.basic_blocks) (closed : IsClosed g)
    (gathered : gather_all h instructions (λ b. no_facts) g.basic_blocks ≡ ok k) (n : ℕ)
    (enough : length g.basic_blocks
        * (length (all_operands h instructions g.basic_blocks)
            + length (all_operands h instructions g.basic_blocks))
      < n) where
  -- For a function whose blocks are distinct and have only its blocks as successors, where the first
  -- loop returns the sets `k`, and with more rounds than twice the number of blocks times the number
  -- of operands: the analysis returns, and the sets of each block hold live variables only. From the
  -- end of a block, a way without a definition of a value of live_out leads to a use of it. From the
  -- head of a block, such a way leads to a use of a value of live_in, or a phi of the block takes it.
  pub analyze-AreLive :
      (st : Live) × (analyze h instructions g n ≡ ok st)
      × ((b : ℕ) → contains g.basic_blocks b ≡ true → AreLive k g st b)
  analyze-AreLive =
      let covers = gather_all-covers h instructions g.basic_blocks k distinct gathered in
      let (st, e, seen) = analyze-AreSeen h instructions g k distinct closed gathered n enough in
      (
        st,
        e,
        λ b m. record {
          live_in = λ v c. IsSeenIn-IsLiveIn k g covers (((seen b m).exact_in v).0 c);
          live_out = λ v c. IsSeenOut-IsLiveOut k g covers (((seen b m).exact_out v).0 c);
        },
      )

  -- For a function whose blocks are distinct and have only its blocks as successors, where the first
  -- loop returns the sets `k`, with more rounds than twice the number of blocks times the number of
  -- operands, and where no value that phis of a block take from other predecessors alone is live at
  -- the head of the block: the analysis returns, live_out of each block holds exactly the live
  -- variables at its end, and live_in exactly those at its head and the values that a phi of the block
  -- takes from a predecessor.
  pub analyze-IsExact :
      IsUnmasked k g
      → (st : Live) × (analyze h instructions g n ≡ ok st)
        × ((b : ℕ) → contains g.basic_blocks b ≡ true → IsExact k g st b)
  analyze-IsExact unmasked =
      let covers = gather_all-covers h instructions g.basic_blocks k distinct gathered in
      let (st, e, seen) = analyze-AreSeen h instructions g k distinct closed gathered n enough in
      (
        st,
        e,
        λ b m. record {
          exact_in = λ v. (
            λ c. IsSeenIn-IsLiveIn k g covers (((seen b m).exact_in v).0 c),
            λ o. elim o [
              | inl l ↦ ((seen b m).exact_in v).1 (IsLiveIn-IsSeenIn k g unmasked l)
              | inr (p, mp, t) ↦ ((seen b m).exact_in v).1 (chosen p mp t)
            ],
          );
          exact_out = λ v. (
            λ c. IsSeenOut-IsLiveOut k g covers (((seen b m).exact_out v).0 c),
            λ l. ((seen b m).exact_out v).1 (IsLiveOut-IsSeenOut k g unmasked l),
          );
        },
      )
