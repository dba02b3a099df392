-- ===== src/Opt/Dominators/Explored.antt =====
-- What a call of Dominators::post_order_visit (src/optimization/Dominators.cpp) has done when it returns.
use Prim.Native.Nat.{zero, suc}
use mathlib.Core.Path.{subst}
use ustc_2021_compliers.Base.{
  ℕ, ◌<◌, ◌≡◌, refl, sym, ◌∙◌, ◌⊎◌, Bool, Bool-cases, inl, inr, true, false, not, ◌&&◌, ◌||◌, List,
  [], ◌∷◌, ◌++◌, ◌==◌, ==_iff, arith, ok, >>=-eq-ok, length, contains, contains-insert,
  contains-append, IsDistinct, snoc-IsDistinct, position, position_bound, position-snoc_old,
  position-snoc_new,
}
use ustc_2021_compliers.Ir.Blocks.{Blocks}
use ustc_2021_compliers.Opt.Dominators.{
  Walk, enter_block, leave_block, visit_succs, post_order_visit,
}
use ustc_2021_compliers.Opt.Dominators.Reach.{Reach, here, prepend}

-- The post order holds visited blocks, none of them twice, and their numbers are their places in it.
pub record IsNumbered (w : Walk) : Type 0 where
  pub distinct : IsDistinct w.post_order
  pub seen : (x : ℕ) → contains w.post_order x ≡ true → contains w.visited x ≡ true
  pub numbers :
      (x : ℕ) → contains w.post_order x ≡ true → w.post_order_id x ≡ position w.post_order x

-- The block is visited now, and was not before.
abbrev pub is_new : Walk → Walk → ℕ → Bool
is_new w w' x = contains w'.visited x && not (contains w.visited x)

no_news : (w : Walk) (x : ℕ) → is_new w w x ≡ true → true ≡ false
no_news w x e = ground arith

module _ (g : Blocks) where
  -- The walk from `w` to `w'` has visited the blocks `roots` and what is reached from them.
  pub record Explored (w : Walk) (roots : List ℕ) (w' : Walk) : Type 0 where
    pub kept : (x : ℕ) → contains w.visited x ≡ true → contains w'.visited x ≡ true
    pub rooted : (x : ℕ) → contains roots x ≡ true → contains w'.visited x ≡ true
    pub reached : (x : ℕ) → is_new w w' x ≡ true → (r : ℕ) × (contains roots r ≡ true) × Reach g r x
    pub closed :
        (x s : ℕ)
        → is_new w w' x ≡ true
        → contains (g.succ_bbs x) s ≡ true
        → contains w'.visited s ≡ true
    pub ordered : (x : ℕ) → contains w'.post_order x ≡ contains w.post_order x || is_new w w' x
    pub renumbered :
        IsNumbered w
        → (x : ℕ) → contains w.post_order x ≡ true
        → w'.post_order_id x ≡ w.post_order_id x
    -- A new block comes from a root or from a block with a greater number.
    pub parent :
        IsNumbered w
        → (x : ℕ) → is_new w w' x ≡ true
        → (contains roots x ≡ true)
          ⊎ ((p : ℕ) × (is_new w w' p ≡ true)
              × (contains (g.succ_bbs p) x ≡ true)
              × (w'.post_order_id x < w'.post_order_id p))
    pub numbered : IsNumbered w → IsNumbered w'

  Explored-refl : (w : Walk) → Explored w [] w
  Explored-refl w = record {
    kept = λ x e. e;
    rooted = λ x e. cc;
    reached = λ x e. absurd (cc (no_news w x e));
    closed = λ x s e f. ground arith;
    ordered = λ x. ground arith;
    renumbered = λ n x e. refl;
    parent = λ n x e. absurd (cc (no_news w x e));
    numbered = λ n. n;
  }

  -- One visit after the other.
  Explored-trans :
      (b : ℕ) (bs : List ℕ) (w w1 w2 : Walk)
      → Explored w (b ∷ []) w1
      → Explored w1 bs w2
      → Explored w (b ∷ bs) w2
  Explored-trans b bs w w1 w2 a c = record {
    kept = λ x e. c.kept x (a.kept x e);
    rooted = λ x e. elim (Bool-cases (b == x)) [
      | inl t ↦ c.kept x (a.rooted x (ground arith))
      | inr n ↦ c.rooted x (ground arith)
    ];
    reached = λ x e. elim (Bool-cases (contains w1.visited x)) [
      | inl t ↦ let (r, m, p) = a.reached x (ground arith) in (r, ground arith, p)
      | inr n ↦ let (r, m, p) = c.reached x (ground arith) in (r, ground arith, p)
    ];
    closed = λ x s e f. elim (Bool-cases (contains w1.visited x)) [
      | inl t ↦ c.kept s (a.closed x s (ground arith) f)
      | inr n ↦ c.closed x s (ground arith) f
    ];
    ordered = λ x. c.ordered x ∙ ground (arith, a.ordered x, a.kept x, c.kept x);
    renumbered =
        λ n x e. c.renumbered (a.numbered n) x (ground (arith, a.ordered x)) ∙ a.renumbered n x e;
    parent = λ num x e. elim (Bool-cases (contains w1.visited x)) [
      | inl t ↦ elim (a.parent num x (ground arith)) [
        | inl m ↦ inl (ground arith)
        | inr (p, n, s, lt) ↦ inr (
          p,
          ground (arith, c.kept p),
          s,
          omega (
            arith,
            lt,
            c.renumbered (a.numbered num) x (ground (arith, a.ordered x)),
            c.renumbered (a.numbered num) p (ground (arith, a.ordered p)),
          ),
        )
      ]
      | inr f ↦ elim (c.parent (a.numbered num) x (ground arith)) [
        | inl m ↦ inl (ground arith)
        | inr (p, n, s, lt) ↦ inr (p, ground (arith, a.kept p), s, lt)
      ]
    ];
    numbered = λ n. c.numbered (a.numbered n);
  }

  Explored-skip :
      (b : ℕ) (bs : List ℕ) (w w' : Walk)
      → contains w.visited b ≡ true
      → Explored w bs w'
      → Explored w (b ∷ bs) w'
  Explored-skip b bs w w' v a = record {
    kept = a.kept;
    rooted = λ x e. elim (Bool-cases (b == x)) [
      | inl t ↦ a.kept x (subst (λ y. contains w.visited y ≡ true) ((==_iff b x).0 t) v)
      | inr n ↦ a.rooted x (ground arith)
    ];
    reached = λ x e. let (r, m, p) = a.reached x e in (r, ground arith, p);
    closed = a.closed;
    ordered = a.ordered;
    renumbered = a.renumbered;
    parent = λ num x e. elim (a.parent num x e) [ inl m ↦ inl (ground arith) | inr p ↦ inr p ];
    numbered = a.numbered;
  }

  -- A block whose successors have been explored is left.
  module _ (bb : ℕ) (w w1 : Walk) (fresh : contains w.visited bb ≡ false)
      (a : Explored (enter_block w bb) (g.succ_bbs bb) w1) where
    entered : (x : ℕ) → contains (enter_block w bb).visited x ≡ contains w.visited x || bb == x
    entered x = contains-insert w.visited bb x

    bb_visited : contains w1.visited bb ≡ true
    bb_visited = a.kept bb (ground (arith, entered bb))

    old_id : (x : ℕ) → (bb == x) ≡ false → (leave_block w1 bb).post_order_id x ≡ w1.post_order_id x
    old_id x n = rw n refl

    new_id : (leave_block w1 bb).post_order_id bb ≡ length w1.post_order
    new_id = rw ((==_iff bb bb).1 refl) refl

    at_bb :
        (x : ℕ) → (bb == x) ≡ true → (contains w1.visited x ≡ true) × (contains w.visited x ≡ false)
    at_bb x t =
        subst (λ y. (contains w1.visited y ≡ true) × (contains w.visited y ≡ false))
          ((==_iff bb x).0 t) (bb_visited, fresh)

    -- What is new is the block or was reached from its successors.
    new_below :
        (x : ℕ)
        → is_new w (leave_block w1 bb) x ≡ true
        → (bb == x) ≡ false
        → is_new (enter_block w bb) w1 x ≡ true
    new_below x e n = ground (arith, entered x)

    enter-IsNumbered : IsNumbered w → IsNumbered (enter_block w bb)
    enter-IsNumbered n = record {
      distinct = n.distinct;
      seen = λ x e. ground (arith, entered x, n.seen x);
      numbers = n.numbers;
    }

    not_ordered : IsNumbered w → contains w1.post_order bb ≡ false
    not_ordered n = ground (arith, a.ordered bb, entered bb, n.seen bb, (==_iff bb bb).1 refl)

    leave_block-IsNumbered : IsNumbered w → IsNumbered (leave_block w1 bb)
    leave_block-IsNumbered n =
        let m = a.numbered (enter-IsNumbered n) in
        record {
          distinct = snoc-IsDistinct w1.post_order bb m.distinct (not_ordered n);
          seen = λ x e. ground (arith, contains-append w1.post_order bb x, m.seen x, at_bb x);
          numbers = λ x e. elim (Bool-cases (bb == x)) [
            | inl t ↦
                subst
                  (λ y. (leave_block w1 bb).post_order_id y ≡ position (w1.post_order ++ bb ∷ []) y)
                  ((==_iff bb x).0 t)
                  (new_id ∙ sym (position-snoc_new w1.post_order bb (not_ordered n)))
            | inr f ↦
                let old : contains w1.post_order x ≡ true =
                  ground (arith, contains-append w1.post_order bb x) in
                old_id x f ∙ m.numbers x old ∙ sym (position-snoc_old w1.post_order bb x old)
          ];
        }

    -- The block's number is greater than those given before.
    below_bb :
        IsNumbered w
        → (x : ℕ) → (bb == x) ≡ false
        → contains w1.post_order x ≡ true
        → (leave_block w1 bb).post_order_id x < (leave_block w1 bb).post_order_id bb
    below_bb n x f m = omega (
      arith,
      old_id x f,
      new_id,
      (a.numbered (enter-IsNumbered n)).numbers x m,
      position_bound w1.post_order x m,
    )

    leave_block-Explored : Explored w (bb ∷ []) (leave_block w1 bb)
    leave_block-Explored = record {
      kept = λ x e. a.kept x (ground (arith, entered x));
      rooted = λ x e. (at_bb x (ground arith)).0;
      reached = λ x e. (
        bb,
        ground (arith, (==_iff bb bb).1 refl),
        elim (Bool-cases (bb == x)) [
          | inl t ↦ subst (Reach g bb) ((==_iff bb x).0 t) here
          | inr f ↦ let (s, m, p) = a.reached x (new_below x e f) in prepend m p
        ],
      );
      closed = λ x s e f. elim (Bool-cases (bb == x)) [
        | inl t ↦
            a.rooted s (subst (λ y. contains (g.succ_bbs y) s ≡ true) (sym ((==_iff bb x).0 t)) f)
        | inr n ↦ a.closed x s (new_below x e n) f
      ];
      ordered =
          λ x. contains-append w1.post_order bb x ∙ ground (arith, a.ordered x, entered x, at_bb x);
      renumbered = λ n x e. elim (Bool-cases (bb == x)) [
        | inl t ↦ absurd (cc ((at_bb x t).1, n.seen x e))
        | inr f ↦ old_id x f ∙ a.renumbered (enter-IsNumbered n) x e
      ];
      parent = λ n x e. elim (Bool-cases (bb == x)) [
        | inl t ↦ inl (ground arith)
        | inr f ↦
            let ordered_x : contains w1.post_order x ≡ true =
              ground (arith, a.ordered x, entered x) in
            elim (a.parent (enter-IsNumbered n) x (new_below x e f)) [
              | inl m ↦ inr (bb, ground (arith, bb_visited, fresh), m, below_bb n x f ordered_x)
              | inr (p, q, m, lt) ↦
                  let other : (bb == p) ≡ false = ground (arith, entered p) in
                  inr
                    (p, ground (arith, entered p), m, omega (arith, lt, old_id x f, old_id p other))
            ]
      ];
      numbered = leave_block-IsNumbered;
    }

  visit_succs-Explored :
      (n : ℕ)
      → ((w w' : Walk) (bb : ℕ)
          → contains w.visited bb ≡ false
          → post_order_visit g n w bb ≡ ok w'
          → Explored w (bb ∷ []) w')
      → (bs : List ℕ) (w w' : Walk) → visit_succs g (post_order_visit g n) w bs ≡ ok w'
      → Explored w bs w'
  visit_succs-Explored n each [] w w' e =
      let same : w ≡ w' = cc in subst (λ x. Explored w [] x) same (Explored-refl w)
  visit_succs-Explored n each (b ∷ bs) w w' e = elim (Bool-cases (contains w.visited b)) [
    | inl t ↦ Explored-skip b bs w w' t (visit_succs-Explored n each bs w w' (sym (rw t refl) ∙ e))
    | inr f ↦
        let (w1, e1, e2) =
          >>=-eq-ok (post_order_visit g n w b) (λ w1. visit_succs g (post_order_visit g n) w1 bs)
            (sym (rw f refl) ∙ e) in
        Explored-trans b bs w w1 w' (each w w1 b f e1) (visit_succs-Explored n each bs w1 w' e2)
  ]

  pub post_order_visit-Explored :
      (n : ℕ) (w w' : Walk) (bb : ℕ)
      → contains w.visited bb ≡ false
      → post_order_visit g n w bb ≡ ok w'
      → Explored w (bb ∷ []) w'
  unfolding post_order_visit
  post_order_visit-Explored zero w w' bb f e = cc
  post_order_visit-Explored (suc n) w w' bb f e =
      let (w1, e1, e2) =
        >>=-eq-ok (visit_succs g (post_order_visit g n) (enter_block w bb) (g.succ_bbs bb))
          (λ w1. ok (leave_block w1 bb)) e in
      let a =
        visit_succs-Explored n (post_order_visit-Explored n) (g.succ_bbs bb) (enter_block w bb) w1
          e1 in
      let same : leave_block w1 bb ≡ w' = cc in
      subst (λ x. Explored w (bb ∷ []) x) same (leave_block-Explored bb w w1 f a)
