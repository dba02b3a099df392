-- ===== src/Opt/ActiveVars/Rounds.antt =====
-- A round of the loop of ActiveVars::run (src/optimization/ActiveVars.cpp) that changes nothing has
-- solved the equations.
use ustc_2021_compliers.Base.{
  ℕ, ◌≡◌, refl, sym, ap, ◌∙◌, Bool-cases, inl, inr, false, List, [], ◌∷◌, ◌==◌, if◌then◌else◌,
  arith, contains, same_set-true, All,
}
use ustc_2021_compliers.Ir.Blocks.{Blocks}
use ustc_2021_compliers.Opt.ActiveVars.{Facts, Live, out_of, in_of, visit_block, round}
use ustc_2021_compliers.Opt.ActiveVars.Equations.{
  in_member, out_member, contains-in_of, contains-out, out_member-ap,
}

-- The members are those from before.
pub record Unchanged (st st' : Live) : Type 0 where
  pub same_in : (b w : ℕ) → contains (st'.live_in b) w ≡ contains (st.live_in b) w
  pub same_out : (b w : ℕ) → contains (st'.live_out b) w ≡ contains (st.live_out b) w

Unchanged-refl : (st : Live) → Unchanged st st
Unchanged-refl st = record { same_in = λ b w. refl; same_out = λ b w. refl }

Unchanged-trans : {a b c : Live} → Unchanged a b → Unchanged b c → Unchanged a c
Unchanged-trans u v = record {
  same_in = λ b w. v.same_in b w ∙ u.same_in b w;
  same_out = λ b w. v.same_out b w ∙ u.same_out b w;
}

module _ (k : ℕ → Facts) (g : Blocks) where
  -- The equations of a block.
  pub record IsSolved (st : Live) (b : ℕ) : Type 0 where
    pub solved_out : (w : ℕ) → contains (st.live_out b) w ≡ out_member k g st.live_in b w
    pub solved_in :
        (w : ℕ) → contains (st.live_in b) w ≡ in_member k g b (contains (st.live_out b) w) w

  IsSolved-Unchanged : {a b : Live} → Unchanged a b → (x : ℕ) → IsSolved a x → IsSolved b x
  IsSolved-Unchanged {a} {b} u x s = record {
    solved_out = λ w.
        u.same_out x w
        ∙ s.solved_out w
        ∙ out_member-ap k g a.live_in b.live_in (λ y v. sym (u.same_in y v)) x w;
    solved_in =
        λ w. u.same_in x w ∙ s.solved_in w ∙ ap (λ t. in_member k g x t w) (sym (u.same_out x w));
  }

  module _ (st : Live) (bb : ℕ) where
    -- What a visit leaves in the sets.
    pub in-visit_block :
        (b w : ℕ)
        → contains ((visit_block k g st bb).0.live_in b) w ≡ (
            if bb == b
            then in_member k g bb (out_member k g st.live_in bb w) w
            else contains (st.live_in b) w)
    unfolding visit_block
    in-visit_block b w = elim (Bool-cases (bb == b)) [
      | inl t ↦ rw t (
          contains-in_of k g bb (out_of k g st bb [] (g.succ_bbs bb)) w
          ∙ ap (λ o. in_member k g bb o w) (contains-out k g st bb w))
      | inr f ↦ rw f refl
    ]

    pub out-visit_block :
        (b w : ℕ)
        → contains ((visit_block k g st bb).0.live_out b) w
          ≡ (if bb == b then out_member k g st.live_in bb w else contains (st.live_out b) w)
    unfolding visit_block
    out-visit_block b w = elim (Bool-cases (bb == b)) [
      | inl t ↦ rw t (contains-out k g st bb w)
      | inr f ↦ rw f refl
    ]

    module _ (calm : (visit_block k g st bb).1 ≡ false) where
      calm_out : (w : ℕ) → contains (st.live_out bb) w ≡ out_member k g st.live_in bb w
      unfolding visit_block
      calm_out w =
          same_set-true (st.live_out bb) (out_of k g st bb [] (g.succ_bbs bb)) (ground arith) w
          ∙ contains-out k g st bb w

      calm_in :
          (w : ℕ) → contains (st.live_in bb) w ≡ in_member k g bb (out_member k g st.live_in bb w) w
      unfolding visit_block
      calm_in w =
          same_set-true (st.live_in bb) (in_of k g bb (out_of k g st bb [] (g.succ_bbs bb)))
            (ground arith) w
          ∙ contains-in_of k g bb (out_of k g st bb [] (g.succ_bbs bb)) w
          ∙ ap (λ o. in_member k g bb o w) (contains-out k g st bb w)

      calm_Unchanged : Unchanged st (visit_block k g st bb).0
      calm_Unchanged = record {
        same_in = λ b w. in-visit_block b w ∙ ground (arith, calm_in w);
        same_out = λ b w. out-visit_block b w ∙ ground (arith, calm_out w);
      }

      calm_IsSolved : IsSolved st bb
      calm_IsSolved = record {
        solved_out = calm_out;
        solved_in = λ w. calm_in w ∙ ap (λ o. in_member k g bb o w) (sym (calm_out w));
      }

  -- Over all blocks.
  pub round-IsSolved :
      (bs : List ℕ) (st : Live)
      → (round k g st bs).1 ≡ false
      → Unchanged st (round k g st bs).0 × All (IsSolved (round k g st bs).0) bs
  unfolding round
  round-IsSolved [] st e = (Unchanged-refl st, tt)
  round-IsSolved (bb ∷ bs) st e =
      let st1 : Live = (visit_block k g st bb).0 in
      let calm : (visit_block k g st bb).1 ≡ false = ground arith in
      let (u, s) = round-IsSolved bs st1 (ground arith) in
      let v = Unchanged-trans (calm_Unchanged st bb calm) u in
      (v, (IsSolved-Unchanged v bb (calm_IsSolved st bb calm), s))
