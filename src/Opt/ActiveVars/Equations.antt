-- ===== src/Opt/ActiveVars/Equations.antt =====
-- The data flow equations of ActiveVars::run (src/optimization/ActiveVars.cpp), member by member.
use ustc_2021_compliers.Base.{
  ℕ, ◌≡◌, ap, ◌∙◌, Bool, not, ◌&&◌, ◌||◌, List, [], ◌∷◌, if◌then◌else◌, arith, contains, insert,
  contains-insert, insert_all, contains-insert_all, remove_all, contains-remove_all, any, any-ap,
}
use ustc_2021_compliers.Ir.Blocks.{Blocks}
use ustc_2021_compliers.Opt.ActiveVars.{Facts, Live, flow_from, out_of, add_chosen, in_of}

module _ (k : ℕ → Facts) (g : Blocks) where
  -- Whether `w`, at the head of the block `succ`, is also live at the end of its predecessor `bb`.
  abbrev pub passes : ℕ → ℕ → ℕ → Bool
  passes succ bb w = not (contains ((k succ).phi_all) w && not (contains ((k succ).phi_use bb) w))

  abbrev pub flows : (ℕ → List ℕ) → ℕ → ℕ → ℕ → Bool
  flows live_in bb w succ =
      contains ((k succ).phi_use bb) w || (contains (live_in succ) w && passes succ bb w)

  contains-flow_from :
      (succ bb : ℕ) (out vs : List ℕ) (w : ℕ)
      → contains (flow_from k g succ bb out vs) w
        ≡ contains out w || (contains vs w && passes succ bb w)
  contains-flow_from succ bb out [] w = ground arith
  contains-flow_from succ bb out (v ∷ vs) w =
      contains-flow_from succ bb
        (if contains ((k succ).phi_all) v && not (contains ((k succ).phi_use bb) v)
          then out
          else insert out v)
        vs w
      ∙ ground (arith, contains-insert out v w)

  contains-out_of :
      (st : Live) (bb : ℕ) (out ss : List ℕ) (w : ℕ)
      → contains (out_of k g st bb out ss) w ≡ contains out w || any ss (flows st.live_in bb w)
  contains-out_of st bb out [] w = ground arith
  contains-out_of st bb out (s ∷ ss) w =
      contains-out_of st bb (insert_all (flow_from k g s bb out (st.live_in s)) ((k s).phi_use bb))
        ss w
      ∙ ground (
        arith,
        contains-insert_all (flow_from k g s bb out (st.live_in s)) ((k s).phi_use bb) w,
        contains-flow_from s bb out (st.live_in s) w,
      )

  contains-add_chosen :
      (bb : ℕ) (tem_in ps : List ℕ) (w : ℕ)
      → contains (add_chosen k g bb tem_in ps) w
        ≡ contains tem_in w || any ps (λ p. contains ((k bb).phi_use p) w)
  contains-add_chosen bb tem_in [] w = ground arith
  contains-add_chosen bb tem_in (p ∷ ps) w =
      contains-add_chosen bb (insert_all tem_in ((k bb).phi_use p)) ps w
      ∙ ground (arith, contains-insert_all tem_in ((k bb).phi_use p) w)

  -- The two sides of the equations: what a block's sets should hold, given those of the others.
  abbrev pub in_member : ℕ → Bool → ℕ → Bool
  in_member bb out w =
      ((out && not (contains (k bb).def_set w)) || contains (k bb).use_set w)
      || any (g.pre_bbs bb) (λ p. contains ((k bb).phi_use p) w)

  abbrev pub out_member : (ℕ → List ℕ) → ℕ → ℕ → Bool
  out_member live_in bb w = any (g.succ_bbs bb) (flows live_in bb w)

  pub contains-in_of :
      (bb : ℕ) (tem_out : List ℕ) (w : ℕ)
      → contains (in_of k g bb tem_out) w ≡ in_member bb (contains tem_out w) w
  contains-in_of bb tem_out w =
      contains-add_chosen bb (insert_all (remove_all tem_out (k bb).def_set) (k bb).use_set)
        (g.pre_bbs bb) w
      ∙ ap (λ b. b || any (g.pre_bbs bb) (λ p. contains ((k bb).phi_use p) w))
          (ground (
            arith,
            contains-insert_all (remove_all tem_out (k bb).def_set) (k bb).use_set w,
            contains-remove_all tem_out (k bb).def_set w,
          ))

  pub contains-out :
      (st : Live) (bb w : ℕ)
      → contains (out_of k g st bb [] (g.succ_bbs bb)) w ≡ out_member st.live_in bb w
  contains-out st bb w = contains-out_of st bb [] (g.succ_bbs bb) w ∙ ground arith

  -- The sides depend on the members of the sets alone.
  pub out_member-ap :
      (a b : ℕ → List ℕ)
      → ((s w : ℕ) → contains (a s) w ≡ contains (b s) w)
      → (bb w : ℕ) → out_member a bb w ≡ out_member b bb w
  out_member-ap a b e bb w =
      any-ap (g.succ_bbs bb) (flows a bb w) (flows b bb w) (λ s. ground (arith, e s w))
