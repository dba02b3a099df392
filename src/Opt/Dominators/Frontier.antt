-- ===== src/Opt/Dominators/Frontier.antt =====
-- Dominators::create_dominance_frontier (src/optimization/Dominators.cpp).
use Prim.Native.Nat.{zero, suc}
use mathlib.Core.Path.{subst}
use ustc_2021_compliers.Base.{
  ℕ, ◌+◌, ◌<◌, ◌≡◌, refl, sym, ap, ◌⊎◌, ◌↔◌, Bool-cases, inl, inr, true, false, ◌||◌, ◌&&◌, Option,
  none, some, List, [], ◌∷◌, ◌==◌, ==_iff, if◌then◌else◌, leb, arith, Result, ok, out_of_fuel,
  >>=-ok, contains, insert, contains-insert, length,
}
use ustc_2021_compliers.Ir.Heap.{update}
use ustc_2021_compliers.Ir.Blocks.{Blocks}
use ustc_2021_compliers.Opt.Dominators.{
  run_up, run_up_all, create_dominance_frontier, add_dominance_frontier,
}
use ustc_2021_compliers.Opt.Dominators.Ancestors.{
  Above, at, up, below, contains-Above, Above-step, IsIdomTree, id_mono,
}

null_diverges :
    (idom : ℕ → Option ℕ) (n : ℕ) (f : ℕ → List ℕ) (d bb : ℕ)
    → idom bb ≡ some d
    → run_up idom n f none bb ≡ out_of_fuel
unfolding run_up
null_diverges idom zero f d bb e = refl
null_diverges idom (suc n) f d bb e = rw e (null_diverges idom n f d bb e)

-- Where the predecessor `p` of a block has no immediate dominator, as one that the entry does not
-- reach, and the block has another than `p`, the loop of the runner does not end: no number of steps
-- is enough.
pub run_up-unreached_diverges :
    (idom : ℕ → Option ℕ) (n : ℕ) (f : ℕ → List ℕ) (p d bb : ℕ)
    → idom bb ≡ some d
    → idom p ≡ none
    → (p == d) ≡ false
    → run_up idom n f (some p) bb ≡ out_of_fuel
unfolding run_up
run_up-unreached_diverges idom zero f p d bb e u h = refl
run_up-unreached_diverges idom (suc n) f p d bb e u h =
    rw (e, h, u) (null_diverges idom n (add_dominance_frontier f (some p) bb) d bb e)

contains-update :
    (frontier : ℕ → List ℕ) (r bb x y : ℕ)
    → contains (update frontier r (insert (frontier r) bb) x) y
      ≡ contains (frontier x) y || ((r == x) && (bb == y))
contains-update frontier r bb x y = elim (Bool-cases (r == x)) [
  | inl t ↦
      subst
        (λ z.
          contains (update frontier r (insert (frontier r) bb) z) y
          ≡ contains (frontier z) y || ((r == z) && (bb == y)))
        ((==_iff r x).0 t) (ground (arith, (==_iff r r).1 refl, contains-insert (frontier r) bb y))
  | inr f ↦ ground arith
]

module _ (nodes : List ℕ) (id : ℕ → ℕ) (idom : ℕ → Option ℕ) (root : ℕ)
    (tree : IsIdomTree nodes id idom root) where
  -- Above the block `r`, and not above `d`.
  abbrev pub Between : ℕ → ℕ → ℕ → Type 0
  Between r d x = Above idom x r × (Above idom x d → ⊥)

  -- The frontiers have what they had, and `bb` for the blocks that have the property.
  abbrev pub Gains : (ℕ → List ℕ) → ℕ → (ℕ → Type 0) → (ℕ → List ℕ) → Type 0
  Gains f bb P f' =
      (x y : ℕ) → (contains (f' x) y ≡ true) ↔ ((contains (f x) y ≡ true) ⊎ ((bb ≡ y) × P x))

  -- A step of the runner from `r` to `c`.
  gained :
      (f f' : ℕ → List ℕ) (r c d bb x y : ℕ)
      → idom r ≡ some c
      → contains nodes c ≡ true
      → Above idom d c
      → id r < id c
      → (contains (f' x) y ≡ true)
        ↔ ((contains (update f r (insert (f r) bb) x) y ≡ true) ⊎ ((bb ≡ y) × Between c d x))
      → (contains (f' x) y ≡ true) ↔ ((contains (f x) y ≡ true) ⊎ ((bb ≡ y) × Between r d x))
  gained f f' r c d bb x y ec mc s rise (to, from) = (
    λ e. elim (to e) [
      | inl h ↦ elim (Bool-cases (contains (f x) y)) [
        | inl t ↦ inl t
        | inr n ↦
            let here : (r == x) ≡ true = ground (arith, contains-update f r bb x y) in
            let this : (bb == y) ≡ true = ground (arith, contains-update f r bb x y) in
            let same : r ≡ x = (==_iff r x).0 here in
            inr (
              (==_iff bb y).0 this,
              (
                subst (λ z. Above idom z r) same at,
                λ o. omega (
                  arith,
                  rise,
                  ap id same,
                  id_mono nodes id idom root tree s mc,
                  id_mono nodes id idom root tree o (contains-Above nodes id idom root tree s mc),
                ),
              ),
            )
      ]
      | inr (b, (o, not_above)) ↦ inr (b, (up ec o, not_above))
    ],
    λ g. elim g [
      | inl h ↦ from (inl (ground (arith, contains-update f r bb x y)))
      | inr (b, (o, not_above)) ↦ elim (Above-step o ec) [
        | inl same ↦ from (
            inl
              (ground (arith, contains-update f r bb x y, (==_iff r x).1 same, (==_iff bb y).1 b)))
        | inr o' ↦ from (inr (b, (o', not_above)))
      ]
    ],
  )

  run_up-Gains :
      (n : ℕ) (f : ℕ → List ℕ) (r d bb : ℕ)
      → idom bb ≡ some d
      → contains nodes r ≡ true
      → Above idom d r
      → id root < id r + n
      → (f' : ℕ → List ℕ) × (run_up idom n f (some r) bb ≡ ok f') × Gains f bb (Between r d) f'
  unfolding run_up
  run_up-Gains zero f r d bb e m s lt = absurd (omega (arith, lt, tree.greatest r m))
  run_up-Gains (suc n) f r d bb e m s lt = elim (Bool-cases (r == d)) [
    | inl t ↦
        let same : r ≡ d = (==_iff r d).0 t in
        (
          f,
          rw (e, t) refl,
          λ x y. (
            inl,
            λ g. elim g [
              | inl h ↦ h
              | inr (b, (o, not_above)) ↦ absurd (not_above (subst (Above idom x) same o))
            ],
          ),
        )
    | inr h ↦
        let (c, ec, mc, rise, s') = below nodes id idom root tree s m h in
        let (f', run, gains) =
          run_up-Gains n (update f r (insert (f r) bb)) c d bb e mc s' (omega (arith, lt, rise)) in
        (f', rw (e, h, ec) run, λ x y. (gained f f' r c d bb x y ec mc s' rise (gains x y)))
  ]

  -- The runners from several predecessors.
  run_up_all-Gains :
      (n d bb : ℕ)
      → idom bb ≡ some d
      → id root < n
      → (ps : List ℕ) (f : ℕ → List ℕ)
      → ((p : ℕ) → contains ps p ≡ true → (contains nodes p ≡ true) × Above idom d p)
      → (f' : ℕ → List ℕ) × (run_up_all idom n f ps bb ≡ ok f')
        × Gains f bb (λ x. (p : ℕ) × (contains ps p ≡ true) × Between p d x) f'
  unfolding run_up_all
  run_up_all-Gains n d bb e lt [] f h =
      (f, refl, λ x y. (inl, λ g. elim g [ inl m ↦ m | inr (b, (p, m, k)) ↦ cc ]))
  run_up_all-Gains n d bb e lt (p ∷ ps) f h =
      let (mp, ap_p) = h p (ground (arith, (==_iff p p).1 refl)) in
      let (f1, r1, g1) = run_up-Gains n f p d bb e mp ap_p (omega (arith, lt)) in
      let (f2, r2, g2) = run_up_all-Gains n d bb e lt ps f1 (λ q m. h q (ground arith)) in
      (
        f2,
        rw r1 r2,
        λ x y. (
          λ m. elim ((g2 x y).0 m) [
            | inl m1 ↦ elim ((g1 x y).0 m1) [
              | inl m0 ↦ inl m0
              | inr (b, k) ↦ inr (b, (p, ground (arith, (==_iff p p).1 refl), k))
            ]
            | inr (b, (q, mq, k)) ↦ inr (b, (q, ground arith, k))
          ],
          λ g. elim g [
            | inl m0 ↦ (g2 x y).1 (inl ((g1 x y).1 (inl m0)))
            | inr (b, (q, mq, k)) ↦ elim (Bool-cases (p == q)) [
              | inl t ↦ (g2 x y).1 (
                  inl ((g1 x y).1 (inr (b, subst (λ z. Between z d x) (sym ((==_iff p q).0 t)) k))))
              | inr n ↦ (g2 x y).1 (inr (b, (q, ground arith, k)))
            ]
          ],
        ),
      )

  -- Every predecessor of a block with several is below the block's immediate dominator.
  abbrev pub AreJoins : Blocks → List ℕ → Type 0
  AreJoins g bbs =
      (bb : ℕ)
      → contains bbs bb ≡ true
      → leb 2 (length (g.pre_bbs bb)) ≡ true
      → (d : ℕ) × (idom bb ≡ some d)
        × ((p : ℕ) → contains (g.pre_bbs bb) p ≡ true → (contains nodes p ≡ true) × Above idom d p)

  -- The block `bb` is in the frontier of `x`: `x` is above a predecessor, and not above its idom.
  pub record InFrontier (g : Blocks) (x bb : ℕ) : Type 0 where
    pub join : leb 2 (length (g.pre_bbs bb)) ≡ true
    pub pred : ℕ
    pub pred_in : contains (g.pre_bbs bb) pred ≡ true
    pub above_pred : Above idom x pred
    pub not_above : (d : ℕ) → idom bb ≡ some d → Above idom x d → ⊥

  joined :
      (g : Blocks) (x bb d : ℕ)
      → leb 2 (length (g.pre_bbs bb)) ≡ true
      → idom bb ≡ some d
      → (p : ℕ) × (contains (g.pre_bbs bb) p ≡ true) × Between p d x
      → InFrontier g x bb
  joined g x bb d t e (p, m, k) = record {
    join = t;
    pred = p;
    pred_in = m;
    above_pred = k.0;
    not_above = λ d' e' o. let same : d' ≡ d = cc in k.1 (subst (Above idom x) same o);
  }

  parted :
      (g : Blocks) (x bb d : ℕ)
      → idom bb ≡ some d
      → InFrontier g x bb
      → (p : ℕ) × (contains (g.pre_bbs bb) p ≡ true) × Between p d x
  parted g x bb d e k = (k.pred, k.pred_in, (k.above_pred, k.not_above d e))

  -- The body of the loop over the blocks.
  visit_join : Blocks → ℕ → (ℕ → List ℕ) → ℕ → Result (ℕ → List ℕ)
  visit_join g n f bb =
      if leb 2 (length (g.pre_bbs bb)) then run_up_all idom n f (g.pre_bbs bb) bb else ok f

  visit_join-Gains :
      (g : Blocks) (n : ℕ)
      → id root < n
      → (bb : ℕ) (f : ℕ → List ℕ) → AreJoins g (bb ∷ [])
      → (f' : ℕ → List ℕ) × (visit_join g n f bb ≡ ok f') × Gains f bb (λ x. InFrontier g x bb) f'
  unfolding visit_join
  visit_join-Gains g n lt bb f j = elim (Bool-cases (leb 2 (length (g.pre_bbs bb)))) [
    | inl t ↦
        let (d, e, h) = j bb (ground (arith, (==_iff bb bb).1 refl)) t in
        let (f1, r1, g1) = run_up_all-Gains n d bb e lt (g.pre_bbs bb) f h in
        (
          f1,
          rw t r1,
          λ x y. (
            λ m. elim ((g1 x y).0 m) [
              | inl m0 ↦ inl m0
              | inr (b, k) ↦ inr (b, joined g x bb d t e k)
            ],
            λ s. elim s [
              | inl m0 ↦ (g1 x y).1 (inl m0)
              | inr (b, k) ↦ (g1 x y).1 (inr (b, parted g x bb d e k))
            ],
          ),
        )
    | inr t ↦ (
      f,
      rw t refl,
      λ x y. (inl, λ s. elim s [ inl m0 ↦ m0 | inr (b, k) ↦ absurd (cc (t, k.join)) ]),
    )
  ]

  -- For a tree of immediate dominators in which every predecessor of a block with several stands below
  -- the block's idom: with more steps for a runner than the root's id, create_dominance_frontier
  -- returns, and the frontier of a block holds, beside what it held, the blocks with two predecessors
  -- or more that have one the block is above, and whose idom it is not above.
  pub create_dominance_frontier-InFrontier :
      (g : Blocks) (n : ℕ)
      → id root < n
      → (bbs : List ℕ) (f : ℕ → List ℕ) → AreJoins g bbs
      → (f' : ℕ → List ℕ) × (create_dominance_frontier g idom n f bbs ≡ ok f')
        × ((x y : ℕ)
            → (contains (f' x) y ≡ true)
              ↔ ((contains (f x) y ≡ true) ⊎ ((contains bbs y ≡ true) × InFrontier g x y)))
  unfolding create_dominance_frontier visit_join
  create_dominance_frontier-InFrontier g n lt [] f j =
      (f, refl, λ x y. (inl, λ s. elim s [ inl m ↦ m | inr (m, k) ↦ cc ]))
  create_dominance_frontier-InFrontier g n lt (bb ∷ bbs) f j =
      let (f1, r1, g1) = visit_join-Gains g n lt bb f (λ b m. j b (ground (arith))) in
      let (f2, r2, g2) =
        create_dominance_frontier-InFrontier g n lt bbs f1 (λ b m. j b (ground arith)) in
      (
        f2,
        >>=-ok (visit_join g n f bb) (λ f1. create_dominance_frontier g idom n f1 bbs) r1 r2,
        λ x y. (
          λ m. elim ((g2 x y).0 m) [
            | inl m1 ↦ elim ((g1 x y).0 m1) [
              | inl m0 ↦ inl m0
              | inr (b, k) ↦ inr (ground (arith, (==_iff bb y).1 b), subst (InFrontier g x) b k)
            ]
            | inr (mb, k) ↦ inr (ground arith, k)
          ],
          λ s. elim s [
            | inl m0 ↦ (g2 x y).1 (inl ((g1 x y).1 (inl m0)))
            | inr (mb, k) ↦ elim (Bool-cases (bb == y)) [
              | inl t ↦
                  let same : bb ≡ y = (==_iff bb y).0 t in
                  (g2 x y).1 (inl ((g1 x y).1 (inr (same, subst (InFrontier g x) (sym same) k))))
              | inr other ↦ (g2 x y).1 (inr (ground arith, k))
            ]
          ],
        ),
      )
