-- ===== src/Tests/DominatorRuns.antt =====
-- src/optimization/Dominators.cpp on the graph 10 → 11, 12; 11 → 13; 12 → 13; 13 → 10; 14 → 13, where
-- nothing reaches 14.
use ustc_2021_compliers.Base.{
  ℕ, Bool, Bool-cases, inl, inr, ==_iff, ◌<◌, ◌≡◌, refl, true, false, List, [], ◌∷◌, ◌==◌,
  if◌then◌else◌, arith, ok, contains, Result, Option, none, some, out_of_fuel, ◌↔◌, ◌⊎◌,
}
use ustc_2021_compliers.Ir.Blocks.{Blocks}
use ustc_2021_compliers.Opt.Dominators.{
  Walk, has_idom, idom_round, create_idom, no_idoms, create_reverse_post_order, intersect,
  create_dominance_frontier, run_up, create_dom_tree_succ,
}
use mathlib.Core.Path.{subst}
use ustc_2021_compliers.Opt.Dominators.Reach.{Reach, here, next}
use ustc_2021_compliers.Opt.Dominators.IdomRound.{IsOrder, IsPartial}
use ustc_2021_compliers.Opt.Dominators.Dominance.{Dominate, idom_round-Dominate, no_idoms-IsPartial}
use ustc_2021_compliers.Opt.Dominators.Backwards.{backwards, create_reverse_post_order-IsOrder}
use ustc_2021_compliers.Opt.Dominators.Ancestors.{
  at, up, IsIdomTree, IsNearest, intersect-IsNearest,
}
use ustc_2021_compliers.Opt.Dominators.TreeSuccs.{create_dom_tree_succ-is_idom}
use ustc_2021_compliers.Opt.Dominators.Frontier.{
  run_up-unreached_diverges, InFrontier, create_dominance_frontier-InFrontier,
}
use ustc_2021_compliers.Opt.Dominators.Order.{IsPostOrder, create_reverse_post_order-IsPostOrder}

abbrev graph : Blocks
graph = record {
  succ_bbs = λ b.
      if b == 10
      then 11 ∷ 12 ∷ []
      else if b == 11
      then 13 ∷ []
      else if b == 12
      then 13 ∷ []
      else if b == 13
      then 10 ∷ []
      else if b == 14
      then 13 ∷ []
      else [];
  pre_bbs = λ b.
      if b == 10
      then 13 ∷ []
      else if b == 11
      then 10 ∷ []
      else if b == 12
      then 10 ∷ []
      else if b == 13
      then 11 ∷ 12 ∷ 14 ∷ []
      else [];
  basic_blocks = 10 ∷ 11 ∷ 12 ∷ 13 ∷ 14 ∷ [];
}

create_reverse_post_order_example :
    (w : Walk) × (create_reverse_post_order graph 5 10 ≡ ok w)
    × IsPostOrder graph 10 w
    × ((x : ℕ)
        → contains w.post_order x ≡ true
        → (10 == x) ≡ false
        → w.post_order_id x < w.post_order_id 10)
create_reverse_post_order_example =
    create_reverse_post_order-IsPostOrder graph 10 5 (λ b s m n. ground arith) refl (omega arith)

order_of : Result Walk → List ℕ
order_of (ok w) = w.post_order
order_of _ = []

create_reverse_post_order_test :
    order_of (create_reverse_post_order graph 5 10) ≡ 13 ∷ 11 ∷ 12 ∷ 10 ∷ []
unfolding order_of create_reverse_post_order
create_reverse_post_order_test = refl

-- The immediate dominators of the blocks but 14, and the ids of the post order.
abbrev idoms : ℕ → Option ℕ
idoms b = some 10

abbrev ids : ℕ → ℕ
ids b = if b == 10 then 3 else if b == 11 then 1 else if b == 12 then 2 else 0

idoms-IsIdomTree : IsIdomTree (10 ∷ 11 ∷ 12 ∷ 13 ∷ []) ids idoms 10
idoms-IsIdomTree = record {
  root_in = refl;
  root_idom = refl;
  greatest = λ b m. ground arith;
  apart = λ a b m n e. ground arith;
  rises = λ b m lt. (10, refl, refl, lt);
}

intersect-IsNearest_example :
    (c : ℕ) × (intersect ids idoms 7 11 13 ≡ ok c)
    × IsNearest (10 ∷ 11 ∷ 12 ∷ 13 ∷ []) ids idoms 10 idoms-IsIdomTree 11 13 c
intersect-IsNearest_example =
    intersect-IsNearest (10 ∷ 11 ∷ 12 ∷ 13 ∷ []) ids idoms 10 idoms-IsIdomTree 7 11 13 refl refl
      (omega arith)

-- The graph without 14.
abbrev diamond : Blocks
diamond = record {
  succ_bbs = λ b.
      if b == 10
      then 11 ∷ 12 ∷ []
      else if b == 11
      then 13 ∷ []
      else if b == 12
      then 13 ∷ []
      else [];
  pre_bbs = λ b.
      if b == 13
      then 11 ∷ 12 ∷ []
      else if b == 11
      then 10 ∷ []
      else if b == 12
      then 10 ∷ []
      else [];
  basic_blocks = 10 ∷ 11 ∷ 12 ∷ 13 ∷ [];
}

create_dominance_frontier_example :
    (f : ℕ → List ℕ) × (create_dominance_frontier diamond idoms 4 (λ b. []) (10 ∷ 11 ∷ 12 ∷ 13 ∷ [])
      ≡ ok f)
    × ((x y : ℕ)
        → (contains (f x) y ≡ true) ↔ (
            (contains [] y ≡ true)
            ⊎ ((contains (10 ∷ 11 ∷ 12 ∷ 13 ∷ []) y ≡ true)
                × InFrontier (10 ∷ 11 ∷ 12 ∷ 13 ∷ []) ids idoms 10 idoms-IsIdomTree diamond x y)))
create_dominance_frontier_example =
    create_dominance_frontier-InFrontier (10 ∷ 11 ∷ 12 ∷ 13 ∷ []) ids idoms 10 idoms-IsIdomTree
      diamond 4 (omega arith) (10 ∷ 11 ∷ 12 ∷ 13 ∷ []) (λ b. [])
      (λ b m j. (10, refl, λ p q. (ground arith, up refl at)))

-- 14, a predecessor of 13 that nothing reaches, has no immediate dominator.
run_up-unreached_example :
    run_up (λ b. if b == 13 then some 10 else none) 50 (λ b. []) (some 14) 13 ≡ out_of_fuel
run_up-unreached_example =
    run_up-unreached_diverges (λ b. if b == 13 then some 10 else none) 50 (λ b. []) 14 10 13 refl
      refl refl

create_dom_tree_succ_example :
    contains (create_dom_tree_succ idoms (λ b. []) (10 ∷ 11 ∷ 12 ∷ 13 ∷ []) 10) 13 ≡ true
create_dom_tree_succ_example =
    create_dom_tree_succ-is_idom idoms (λ b. []) (10 ∷ 11 ∷ 12 ∷ 13 ∷ []) 10 13

diamond_mirrored :
    (p b : ℕ) → contains (diamond.succ_bbs p) b ≡ true → contains (diamond.pre_bbs b) p ≡ true
diamond_mirrored p b e = ground arith

create_reverse_post_order-IsOrder_example :
    (w : Walk) × (create_reverse_post_order diamond 4 10 ≡ ok w)
    × IsOrder diamond (backwards w.post_order) w.post_order_id 10
    × ((x : ℕ) → (contains (backwards w.post_order) x ≡ true) ↔ Reach diamond 10 x)
create_reverse_post_order-IsOrder_example =
    create_reverse_post_order-IsOrder diamond 10 4 (λ b s m n. ground arith) diamond_mirrored refl
      (omega arith)

abbrev diamond_order : List ℕ
diamond_order = 10 ∷ 12 ∷ 11 ∷ 13 ∷ []

diamond-IsOrder : IsOrder diamond diamond_order ids 10
diamond-IsOrder = record {
  greatest = λ b m. ground arith;
  apart = λ a b m n e. ground arith;
  parent = λ b m f. (if b == 13 then 11 else 10, ground arith, ground arith, ground arith);
  descending = (
    (omega arith, (omega arith, (omega arith, tt))),
    ((omega arith, (omega arith, tt)), ((omega arith, tt), (tt, tt))),
  );
}

reach : (x : ℕ) → contains diamond_order x ≡ true → Reach diamond 10 x
reach x m = elim (Bool-cases (10 == x)) [
  | inl t ↦ subst (Reach diamond 10) ((==_iff 10 x).0 t) here
  | inr f ↦ elim (Bool-cases (13 == x)) [
    | inl t ↦
        subst (Reach diamond 10) ((==_iff 13 x).0 t) (next {b = 11} (next {b = 10} here refl) refl)
    | inr h ↦ next {b = 10} here (ground arith)
  ]
]

reached : {x : ℕ} → Reach diamond 10 x → contains diamond_order x ≡ true
reached here = refl
reached (next {b} {c} way e) = ground (arith, reached way)

diamond_lists : (x : ℕ) → (contains diamond_order x ≡ true) ↔ Reach diamond 10 x
diamond_lists x = (reach x, λ r. reached r)

idom_round-Dominate_example :
    (r : (ℕ → Option ℕ) × Bool) × (idom_round diamond ids 10 8 (no_idoms 10) diamond_order ≡ ok r)
    × ((nodes' : List ℕ) × IsPartial diamond_order nodes' ids 10 (r.0))
    × ((b : ℕ) → contains diamond_order b ≡ true → has_idom (r.0 b) ≡ true)
    × (r.1 ≡ false → Dominate diamond 10 (r.0))
idom_round-Dominate_example =
    idom_round-Dominate diamond diamond_order ids 10 diamond-IsOrder diamond_lists diamond_mirrored
      8 (omega arith) (10 ∷ []) (no_idoms 10)
      (no_idoms-IsPartial diamond diamond_order ids 10 diamond-IsOrder diamond_lists
        diamond_mirrored refl)

idom_at : Result (ℕ → Option ℕ) → ℕ → Option ℕ
idom_at (ok f) b = f b
idom_at _ b = none

create_idom_test : idom_at (create_idom diamond ids 10 8 3 (no_idoms 10) diamond_order) 13 ≡ some 10
unfolding idom_at create_idom
create_idom_test = refl
