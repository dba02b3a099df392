-- ===== src/Opt/ActiveVars/Least.antt =====
-- What ActiveVars::run (src/optimization/ActiveVars.cpp) computes, described by the ways through the
-- flow graph that the pass sees, and not by sets.
use mathlib.Core.Path.{subst}
use ustc_2021_compliers.Base.{
  ℕ, ◌+◌, ◌*◌, ◌<◌, ◌≡◌, ◌∙◌, ◌↔◌, Bool-cases, inl, inr, true, false, some, List, ◌==◌, arith,
  contains, any, any-true, any-intro, length, All, All-at, ==_iff,
}
use ustc_2021_compliers.Ir.Blocks.{Blocks, IsClosed}
use ustc_2021_compliers.Opt.ActiveVars.{Facts, Live, nothing_live, visit_block, iterate}
use ustc_2021_compliers.Opt.ActiveVars.Equations.{passes, flows, in_member, out_member}
use ustc_2021_compliers.Opt.ActiveVars.Rounds.{IsSolved, in-visit_block, out-visit_block}
use ustc_2021_compliers.Opt.ActiveVars.Growth.{IsWithin}
use ustc_2021_compliers.Opt.ActiveVars.Termination.{iterate_keeps, run_returns}

-- A way from the head of a block, along which the value is not defined, to a use of it, as the pass
-- sees it: no way passes into a block where phis take the value from other blocks alone, and the
-- values of a block's phis count as used at its head.
pub data IsSeenIn (k : ℕ → Facts) (g : Blocks) (v : ℕ) : ℕ → Type 0 where
  used : {b : ℕ} → contains (k b).use_set v ≡ true → IsSeenIn k g v b
  chosen :
      {b : ℕ} (p : ℕ)
      → contains (g.pre_bbs b) p ≡ true
      → contains ((k b).phi_use p) v ≡ true
      → IsSeenIn k g v b
  through :
      {b : ℕ} (s : ℕ)
      → contains (k b).def_set v ≡ false
      → contains (g.succ_bbs b) s ≡ true
      → passes k g s b v ≡ true
      → IsSeenIn k g v s
      → IsSeenIn k g v b
  into_phi :
      {b : ℕ} (s : ℕ)
      → contains (k b).def_set v ≡ false
      → contains (g.succ_bbs b) s ≡ true
      → contains ((k s).phi_use b) v ≡ true
      → IsSeenIn k g v b

-- The same from the end of a block.
pub data IsSeenOut (k : ℕ → Facts) (g : Blocks) (v : ℕ) : ℕ → Type 0 where
  next :
      {b : ℕ} (s : ℕ)
      → contains (g.succ_bbs b) s ≡ true
      → passes k g s b v ≡ true
      → IsSeenIn k g v s
      → IsSeenOut k g v b
  for_phi :
      {b : ℕ} (s : ℕ)
      → contains (g.succ_bbs b) s ≡ true
      → contains ((k s).phi_use b) v ≡ true
      → IsSeenOut k g v b

module _ (k : ℕ → Facts) (g : Blocks) where
  before : {v b : ℕ} → IsSeenOut k g v b → contains (k b).def_set v ≡ false → IsSeenIn k g v b
  before (next s m e d) n = through s n m e d
  before (for_phi s m e) n = into_phi s n m e

  -- Only values with such a way are in the sets.
  record IsJustified (st : Live) : Type 0 where
    live_in_ok : (b v : ℕ) → contains (st.live_in b) v ≡ true → IsSeenIn k g v b
    live_out_ok : (b v : ℕ) → contains (st.live_out b) v ≡ true → IsSeenOut k g v b

  nothing_live-IsJustified : IsJustified nothing_live
  nothing_live-IsJustified = record { live_in_ok = λ b v e. cc; live_out_ok = λ b v e. cc }

  module _ (st : Live) (bb : ℕ) (j : IsJustified st) where
    new_out_ok : (v : ℕ) → out_member k g st.live_in bb v ≡ true → IsSeenOut k g v bb
    new_out_ok v e =
        let (s, m, f) = any-true (g.succ_bbs bb) (flows k g st.live_in bb v) e in
        elim (Bool-cases (contains ((k s).phi_use bb) v)) [
          | inl t ↦ for_phi s m t
          | inr n ↦ next s m (ground arith) (j.live_in_ok s v (ground arith))
        ]

    new_in_ok :
        (v : ℕ) → in_member k g bb (out_member k g st.live_in bb v) v ≡ true → IsSeenIn k g v bb
    new_in_ok v e = elim (Bool-cases (contains (k bb).use_set v)) [
      | inl u ↦ used u
      | inr nu ↦ elim (Bool-cases (any (g.pre_bbs bb) (λ p. contains ((k bb).phi_use p) v))) [
        | inl c ↦
            let (p, m, t) = any-true (g.pre_bbs bb) (λ p. contains ((k bb).phi_use p) v) c in
            chosen p m t
        | inr nc ↦ before (new_out_ok v (ground arith)) (ground arith)
      ]
    ]

    visit_block-IsJustified : IsJustified (visit_block k g st bb).0
    visit_block-IsJustified = record {
      live_in_ok = λ b v e. elim (Bool-cases (bb == b)) [
        | inl t ↦
            subst (IsSeenIn k g v) ((==_iff bb b).0 t)
              (new_in_ok v (ground (arith, in-visit_block k g st bb b v)))
        | inr f ↦ j.live_in_ok b v (ground (arith, in-visit_block k g st bb b v))
      ];
      live_out_ok = λ b v e. elim (Bool-cases (bb == b)) [
        | inl t ↦
            subst (IsSeenOut k g v) ((==_iff bb b).0 t)
              (new_out_ok v (ground (arith, out-visit_block k g st bb b v)))
        | inr f ↦ j.live_out_ok b v (ground (arith, out-visit_block k g st bb b v))
      ];
    }

  module _ (st : Live) (solved : All (IsSolved k g st) g.basic_blocks) (closed : IsClosed g) where
    IsSolved-at : (b : ℕ) → contains g.basic_blocks b ≡ true → IsSolved k g st b
    IsSolved-at b m = All-at (IsSolved k g st) g.basic_blocks b solved m

    live_out_has :
        (b v s : ℕ)
        → contains g.basic_blocks b ≡ true
        → contains (g.succ_bbs b) s ≡ true
        → flows k g st.live_in b v s ≡ true
        → contains (st.live_out b) v ≡ true
    live_out_has b v s mb ms f =
        (IsSolved-at b mb).solved_out v ∙ any-intro (g.succ_bbs b) (flows k g st.live_in b v) s ms f

    live_in_has :
        {v b : ℕ}
        → IsSeenIn k g v b
        → contains g.basic_blocks b ≡ true
        → contains (st.live_in b) v ≡ true
    live_in_has {v} {b} (used e) m = (IsSolved-at b m).solved_in v ∙ ground arith
    live_in_has {v} {b} (chosen p mp e) m =
        (IsSolved-at b m).solved_in v
        ∙ ground (arith, any-intro (g.pre_bbs b) (λ p. contains ((k b).phi_use p) v) p mp e)
    live_in_has {v} {b} (through s n ms e d) m =
        (IsSolved-at b m).solved_in v
        ∙ ground (arith, live_out_has b v s m ms (ground (arith, live_in_has d (closed b s m ms))))
    live_in_has {v} {b} (into_phi s n ms e) m =
        (IsSolved-at b m).solved_in v ∙ ground (arith, live_out_has b v s m ms (ground arith))

    live_out_complete :
        {v b : ℕ}
        → IsSeenOut k g v b
        → contains g.basic_blocks b ≡ true
        → contains (st.live_out b) v ≡ true
    live_out_complete {v} {b} (next s ms e d) m =
        live_out_has b v s m ms (ground (arith, live_in_has d (closed b s m ms)))
    live_out_complete {v} {b} (for_phi s ms e) m = live_out_has b v s m ms (ground arith)

  -- The sets of a block hold the values with such a way, no others and all of them.
  pub record AreSeen (st : Live) (b : ℕ) : Type 0 where
    pub exact_in : (v : ℕ) → (contains (st.live_in b) v ≡ true) ↔ IsSeenIn k g v b
    pub exact_out : (v : ℕ) → (contains (st.live_out b) v ≡ true) ↔ IsSeenOut k g v b

  -- More rounds than twice the number of blocks times the number of the values are enough.
  pub iterate-AreSeen :
      (values : List ℕ)
      → IsWithin k values
      → IsClosed g
      → (n : ℕ) → length g.basic_blocks * (length values + length values) < n
      → (st : Live) × (iterate k g n nothing_live ≡ some st)
        × ((b : ℕ) → contains g.basic_blocks b ≡ true → AreSeen st b)
  iterate-AreSeen values within closed n lt =
      let (st, e) = run_returns k g values within n lt in
      let (j, solved) =
        iterate_keeps k g IsJustified visit_block-IsJustified n nothing_live st e
          nothing_live-IsJustified in
      (
        st,
        e,
        λ b m. record {
          exact_in = λ v. (j.live_in_ok b v, λ d. live_in_has st solved closed d m);
          exact_out = λ v. (j.live_out_ok b v, λ d. live_out_complete st solved closed d m);
        },
      )
