-- ===== src/Opt/Dominators.antt =====
-- Dominators of src/optimization/Dominators.cpp: the post order of a function's blocks, the meeting
-- point of two blocks in the tree of immediate dominators, and the dominance frontiers.
use Prim.Native.Nat.{zero, suc}
use ustc_2021_compliers.Base.{
  ℕ, Bool, true, false, not, ◌&&◌, ◌||◌, Option, none, some, List, [], ◌∷◌, ◌++◌, Result, ok, abort,
  out_of_fuel, ◌>>=◌, ◌==◌, ltb, leb, if◌then◌else◌, length, contains, insert,
}
use ustc_2021_compliers.Ir.Heap.{update}
use ustc_2021_compliers.Ir.Blocks.{Blocks}
pub mod Reach
pub mod Explored
pub mod Order
pub mod Ancestors
pub mod Frontier
pub mod TreeSuccs
pub mod Meeting
pub mod IdomRound
pub mod Dominance
pub mod Backwards

-- `visited`, `reverse_post_order_` before it is reversed, and `post_order_id_`
pub record Walk : Type 0 where
  pub visited : List ℕ
  pub post_order : List ℕ
  pub post_order_id : ℕ → ℕ

abbrev pub enter_block : Walk → ℕ → Walk
enter_block w bb = record w { visited = insert w.visited bb }

abbrev pub leave_block : Walk → ℕ → Walk
leave_block w bb = record w {
  post_order_id = update w.post_order_id bb (length w.post_order);
  post_order = w.post_order ++ bb ∷ [];
}

module _ (g : Blocks) where
  -- The loop over the successors, with the recursive call `visit`
  abbrev pub visit_succs : (Walk → ℕ → Result Walk) → Walk → List ℕ → Result Walk
  visit_succs visit w [] = ok w
  visit_succs visit w (b ∷ bs) = do
    w1 ← (if contains w.visited b then ok w else visit w b)
    visit_succs visit w1 bs

  unfoldable pub post_order_visit : ℕ → Walk → ℕ → Result Walk
  post_order_visit zero w bb = out_of_fuel
  post_order_visit (suc n) w bb = do
    w1 ← visit_succs (post_order_visit n) (enter_block w bb) (g.succ_bbs bb)
    ok (leave_block w1 bb)

  abbrev pub not_walked : Walk
  not_walked = record { visited = []; post_order = []; post_order_id = λ b. 0 }

  -- `reverse_post_order_` is `post_order` from the end.
  unfoldable pub create_reverse_post_order : ℕ → ℕ → Result Walk
  unfolding post_order_visit
  create_reverse_post_order n entry = post_order_visit n not_walked entry

-- One of the inner loops of Dominators::intersect: `b1` climbs until it is not below `b2`.
unfoldable pub climb : (ℕ → ℕ) → (ℕ → Option ℕ) → ℕ → ℕ → ℕ → Result ℕ
climb id idom zero b1 b2 = out_of_fuel
climb id idom (suc n) b1 b2 =
    if ltb (id b1) (id b2)
    then elim (idom b1) [ none ↦ abort | some d ↦ climb id idom n d b2 ]
    else ok b1

unfoldable pub intersect : (ℕ → ℕ) → (ℕ → Option ℕ) → ℕ → ℕ → ℕ → Result ℕ
unfolding climb
intersect id idom zero b1 b2 = out_of_fuel
intersect id idom (suc n) b1 b2 =
    if b1 == b2
    then ok b1
    else (do c1 ← climb id idom n b1 b2; c2 ← climb id idom n b2 c1; intersect id idom n c1 c2)

abbrev pub same_block : Option ℕ → Option ℕ → Bool
same_block none none = true
same_block (some a) (some b) = a == b
same_block _ _ = false

abbrev pub idom_of : (ℕ → Option ℕ) → Option ℕ → Option ℕ
idom_of idom none = none
idom_of idom (some b) = idom b

abbrev pub has_idom : Option ℕ → Bool
has_idom none = false
has_idom (some d) = true

-- `pred`, the first predecessor with an immediate dominator
abbrev pub first_with_idom : (ℕ → Option ℕ) → List ℕ → Option ℕ
first_with_idom idom [] = none
first_with_idom idom (p ∷ ps) =
    let rest = first_with_idom idom ps in if has_idom (idom p) then some p else rest

-- The second loop over the predecessors
unfoldable pub meet_preds : (ℕ → ℕ) → (ℕ → Option ℕ) → ℕ → ℕ → ℕ → List ℕ → Result ℕ
unfolding intersect
meet_preds id idom n pred new_idom [] = ok new_idom
meet_preds id idom n pred new_idom (p ∷ ps) = do
  c ← (if not (p == pred) && has_idom (idom p) then intersect id idom n p new_idom else ok new_idom)
  meet_preds id idom n pred c ps

-- `assert(pred)`
abbrev pub meet_from : (ℕ → ℕ) → (ℕ → Option ℕ) → ℕ → List ℕ → Option ℕ → Result ℕ
meet_from id idom n preds none = abort
meet_from id idom n preds (some pred) = meet_preds id idom n pred pred preds

abbrev pub new_idom_of : (ℕ → ℕ) → (ℕ → Option ℕ) → ℕ → List ℕ → Result ℕ
new_idom_of id idom n preds = meet_from id idom n preds (first_with_idom idom preds)

-- The state of the loop: `idom_` and `changed`
abbrev pub change_idom : (ℕ → Option ℕ) → ℕ → ℕ → (ℕ → Option ℕ) × Bool
change_idom idom bb d =
    if same_block (idom bb) (some d) then (idom, false) else (update idom bb (some d), true)

module _ (g : Blocks) (id : ℕ → ℕ) (root : ℕ) (n : ℕ) where
  abbrev pub visit_idom : (ℕ → Option ℕ) → ℕ → Result ((ℕ → Option ℕ) × Bool)
  visit_idom idom bb =
      if bb == root
      then ok (idom, false)
      else (do d ← new_idom_of id idom n (g.pre_bbs bb); ok (change_idom idom bb d))

  -- The loop over `reverse_post_order_`
  unfoldable pub idom_round : (ℕ → Option ℕ) → List ℕ → Result ((ℕ → Option ℕ) × Bool)
  unfolding meet_preds
  idom_round idom [] = ok (idom, false)
  idom_round idom (bb ∷ bbs) = do
    first ← visit_idom idom bb
    rest ← idom_round (first.0) bbs
    ok (rest.0, first.1 || rest.1)

  -- Dominators::create_idom, whose outer loop runs at most so many times
  unfoldable pub create_idom : ℕ → (ℕ → Option ℕ) → List ℕ → Result (ℕ → Option ℕ)
  unfolding idom_round
  create_idom zero idom bbs = out_of_fuel
  create_idom (suc k) idom bbs = do
    r ← idom_round idom bbs
    elim (r.1) [ true ↦ create_idom k (r.0) bbs | false ↦ ok (r.0) ]

-- Its first two loops
abbrev pub no_idoms : ℕ → ℕ → Option ℕ
no_idoms root = update (λ b. none) root (some root)

-- Nothing reads what the null pointer has.
abbrev pub add_dominance_frontier : (ℕ → List ℕ) → Option ℕ → ℕ → ℕ → List ℕ
add_dominance_frontier frontier none bb = frontier
add_dominance_frontier frontier (some r) bb = update frontier r (insert (frontier r) bb)

-- `while (runner != get_idom(bb))`
unfoldable pub run_up : (ℕ → Option ℕ) → ℕ → (ℕ → List ℕ) → Option ℕ → ℕ → Result (ℕ → List ℕ)
run_up idom zero frontier runner bb = out_of_fuel
run_up idom (suc n) frontier runner bb =
    if same_block runner (idom bb)
    then ok frontier
    else run_up idom n (add_dominance_frontier frontier runner bb) (idom_of idom runner) bb

unfoldable pub run_up_all : (ℕ → Option ℕ) → ℕ → (ℕ → List ℕ) → List ℕ → ℕ → Result (ℕ → List ℕ)
unfolding run_up
run_up_all idom n frontier [] bb = ok frontier
run_up_all idom n frontier (p ∷ ps) bb = do
  f1 ← run_up idom n frontier (some p) bb
  run_up_all idom n f1 ps bb

module _ (g : Blocks) where
  unfoldable pub create_dominance_frontier :
      (ℕ → Option ℕ) → ℕ → (ℕ → List ℕ) → List ℕ → Result (ℕ → List ℕ)
  unfolding run_up_all
  create_dominance_frontier idom n frontier [] = ok frontier
  create_dominance_frontier idom n frontier (bb ∷ bbs) = do
    f1 ←
        (if leb 2 (length (g.pre_bbs bb))
          then run_up_all idom n frontier (g.pre_bbs bb) bb
          else ok frontier)
    create_dominance_frontier idom n f1 bbs

abbrev pub add_dom_tree_succ_block : (ℕ → List ℕ) → Option ℕ → ℕ → ℕ → List ℕ
add_dom_tree_succ_block tree none bb = tree
add_dom_tree_succ_block tree (some d) bb = update tree d (insert (tree d) bb)

unfoldable pub create_dom_tree_succ : (ℕ → Option ℕ) → (ℕ → List ℕ) → List ℕ → ℕ → List ℕ
create_dom_tree_succ idom tree [] = tree
create_dom_tree_succ idom tree (bb ∷ bbs) =
    create_dom_tree_succ idom
      (if same_block (idom bb) (some bb) then tree else add_dom_tree_succ_block tree (idom bb) bb)
      bbs
