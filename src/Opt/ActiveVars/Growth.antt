-- ===== src/Opt/ActiveVars/Growth.antt =====
-- The sets of ActiveVars::run (src/optimization/ActiveVars.cpp) only grow, and a round that changes
-- one makes it larger: so the loop ends.
use ustc_2021_compliers.Base.{
  ℕ, ◌+◌, ◌*◌, ◌≤◌, ◌<◌, ◌≡◌, refl, ◌∙◌, Bool, Bool-cases, inl, inr, true, false, not, ◌&&◌, ◌||◌,
  List, arith, contains, same_set, same_set-false, any_mono, count, count_mono, count_strict,
  count-le-length, sum, sum_mono, sum_strict, sum_bound, length, ==_iff, any-true,
}
use ustc_2021_compliers.Ir.Blocks.{Blocks}
use ustc_2021_compliers.Opt.ActiveVars.{Facts, Live, nothing_live, visit_block}
use ustc_2021_compliers.Opt.ActiveVars.Equations.{flows, in_member, out_member}
use ustc_2021_compliers.Opt.ActiveVars.Rounds.{in-visit_block, out-visit_block}

-- The values that the facts speak of are among `values`.
pub record IsWithin (k : ℕ → Facts) (values : List ℕ) : Type 0 where
  pub uses : (b w : ℕ) → contains (k b).use_set w ≡ true → contains values w ≡ true
  pub choices : (b p w : ℕ) → contains ((k b).phi_use p) w ≡ true → contains values w ≡ true

module _ (k : ℕ → Facts) (g : Blocks) (values : List ℕ) (within : IsWithin k values) where
  in_member_mono :
      (b w : ℕ) (o o' : Bool)
      → (o ≡ true → o' ≡ true)
      → in_member k g b o w ≡ true
      → in_member k g b o' w ≡ true
  in_member_mono b w o o' h e = ground (arith, h)

  out_member_mono :
      (a a' : ℕ → List ℕ) (b w : ℕ)
      → ((s : ℕ) → contains (a s) w ≡ true → contains (a' s) w ≡ true)
      → out_member k g a b w ≡ true
      → out_member k g a' b w ≡ true
  out_member_mono a a' b w h =
      any_mono (g.succ_bbs b) (flows k g a b w) (flows k g a' b w) (λ s e. ground (arith, h s))

  -- Every set is contained in what its equation gives.
  pub record IsAscending (st : Live) : Type 0 where
    pub below_out :
        (b w : ℕ) → contains (st.live_out b) w ≡ true → out_member k g st.live_in b w ≡ true
    pub below_in :
        (b w : ℕ)
        → contains (st.live_in b) w ≡ true
        → in_member k g b (contains (st.live_out b) w) w ≡ true
    pub known_in : (b w : ℕ) → contains (st.live_in b) w ≡ true → contains values w ≡ true
    pub known_out : (b w : ℕ) → contains (st.live_out b) w ≡ true → contains values w ≡ true

  pub nothing_live-IsAscending : IsAscending nothing_live
  nothing_live-IsAscending = record {
    below_out = λ b w e. cc;
    below_in = λ b w e. cc;
    known_in = λ b w e. cc;
    known_out = λ b w e. cc;
  }

  module _ (st : Live) (bb : ℕ) (a : IsAscending st) where
    abbrev pub after : Live
    after = (visit_block k g st bb).0

    new_out-known : (w : ℕ) → out_member k g st.live_in bb w ≡ true → contains values w ≡ true
    new_out-known w e =
        let (s, m, f) = any-true (g.succ_bbs bb) (flows k g st.live_in bb w) e in
        ground (arith, within.choices s bb w, a.known_in s w)

    new_in-known :
        (w : ℕ)
        → in_member k g bb (out_member k g st.live_in bb w) w ≡ true
        → contains values w ≡ true
    new_in-known w e = elim (Bool-cases (in_member_direct w)) [
      | inl t ↦ ground (arith, within.uses bb w, new_out-known w)
      | inr f ↦
          let (p, m, c) =
            any-true (g.pre_bbs bb) (λ p. contains ((k bb).phi_use p) w) (ground arith) in
          within.choices bb p w c
    ]
      where
        in_member_direct : ℕ → Bool
        in_member_direct w =
            (out_member k g st.live_in bb w && not (contains (k bb).def_set w))
            || contains (k bb).use_set w

    grows_out : (b w : ℕ) → contains (st.live_out b) w ≡ true → contains (after.live_out b) w ≡ true
    grows_out b w e = ground (arith, out-visit_block k g st bb b w, a.below_out b w)

    grows_in : (b w : ℕ) → contains (st.live_in b) w ≡ true → contains (after.live_in b) w ≡ true
    grows_in b w e =
        in-visit_block k g st bb b w
        ∙ ground (
          arith,
          in_member_mono b w (contains (st.live_out b) w) (out_member k g st.live_in b w)
              (a.below_out b w) (a.below_in b w e),
        )

    pub after-IsAscending : IsAscending after
    after-IsAscending = record {
      below_out = λ b w e.
          out_member_mono st.live_in after.live_in b w (λ s. grows_in s w)
            (ground (arith, out-visit_block k g st bb b w, a.below_out b w));
      below_in = λ b w e.
          ground
            (arith, in-visit_block k g st bb b w, out-visit_block k g st bb b w, a.below_in b w);
      known_in =
          λ b w e. ground (arith, in-visit_block k g st bb b w, new_in-known w, a.known_in b w);
      known_out =
          λ b w e. ground (arith, out-visit_block k g st bb b w, new_out-known w, a.known_out b w);
    }

  -- How many members the sets have.
  weight : Live → ℕ → ℕ
  weight st b = count values (contains (st.live_in b)) + count values (contains (st.live_out b))

  pub size : Live → ℕ
  unfolding weight
  size st = sum g.basic_blocks (weight st)

  pub size_bound : (st : Live) → size st ≤ length g.basic_blocks * (length values + length values)
  unfolding size weight
  size_bound st = sum_bound g.basic_blocks (weight st) (length values + length values) (λ b. omega (
    arith,
    count-le-length values (contains (st.live_in b)),
    count-le-length values (contains (st.live_out b)),
  ))

  module _ (st : Live) (bb : ℕ) (a : IsAscending st) where
    weight_grows : (b : ℕ) → weight st b ≤ weight (visit_block k g st bb).0 b
    unfolding weight
    weight_grows b = omega (
      arith,
      count_mono (contains (st.live_in b)) (contains ((visit_block k g st bb).0.live_in b))
          (grows_in st bb a b) values,
      count_mono (contains (st.live_out b)) (contains ((visit_block k g st bb).0.live_out b))
          (grows_out st bb a b) values,
    )

    pub visit_grows : size st ≤ size (visit_block k g st bb).0
    unfolding size
    visit_grows =
        sum_mono (weight st) (weight (visit_block k g st bb).0) weight_grows g.basic_blocks

    -- A set that a visit changes has a member that it had not.
    more_in :
        same_set (st.live_in bb) ((visit_block k g st bb).0.live_in bb) ≡ false
        → weight st bb < weight (visit_block k g st bb).0 bb
    unfolding weight
    more_in e =
        let new : List ℕ = (visit_block k g st bb).0.live_in bb in
        let (w, m, n) = same_set-false (st.live_in bb) new (grows_in st bb a bb) e in
        omega (
          arith,
          count_strict (contains (st.live_in bb)) (contains new) (grows_in st bb a bb) values w
              ((after-IsAscending st bb a).known_in bb w m) m n,
          count_mono (contains (st.live_out bb)) (contains ((visit_block k g st bb).0.live_out bb))
              (grows_out st bb a bb) values,
        )

    more_out :
        same_set (st.live_out bb) ((visit_block k g st bb).0.live_out bb) ≡ false
        → weight st bb < weight (visit_block k g st bb).0 bb
    unfolding weight
    more_out e =
        let new : List ℕ = (visit_block k g st bb).0.live_out bb in
        let (w, m, n) = same_set-false (st.live_out bb) new (grows_out st bb a bb) e in
        omega (
          arith,
          count_strict (contains (st.live_out bb)) (contains new) (grows_out st bb a bb) values w
              ((after-IsAscending st bb a).known_out bb w m) m n,
          count_mono (contains (st.live_in bb)) (contains ((visit_block k g st bb).0.live_in bb))
              (grows_in st bb a bb) values,
        )

    changed_lem :
        (visit_block k g st bb).1
        ≡ not (same_set (st.live_out bb) ((visit_block k g st bb).0.live_out bb))
          || not (same_set (st.live_in bb) ((visit_block k g st bb).0.live_in bb))
    unfolding visit_block
    changed_lem = rw ((==_iff bb bb).1 refl) refl

    pub visit_grows_more :
        contains g.basic_blocks bb ≡ true
        → (visit_block k g st bb).1 ≡ true
        → size st < size (visit_block k g st bb).0
    unfolding size
    visit_grows_more m e =
        sum_strict (weight st) (weight (visit_block k g st bb).0) weight_grows g.basic_blocks bb m
          (ground (arith, changed_lem, more_in, more_out))
