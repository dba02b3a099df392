-- ===== src/Opt/Dominators/Order.antt =====
-- The post order of src/optimization/Dominators.cpp: the walk ends, and numbers the blocks that are
-- reached from the entry.
use Prim.Native.Nat.{zero, suc}
use mathlib.Core.Path.{subst}
use ustc_2021_compliers.Base.{
  ℕ, ◌+◌, ◌<◌, ◌≤◌, ◌≡◌, refl, sym, ◌∙◌, ◌↔◌, Bool-cases, inl, inr, true, false, not, List, [], ◌∷◌,
  ◌==◌, ==_iff, arith, ok, >>=-Returns, Returns, length, contains, contains-insert, IsDistinct,
  position, position_bound, count, count_mono, count_strict, count-le-length,
}
use ustc_2021_compliers.Ir.Blocks.{Blocks, IsClosed}
use ustc_2021_compliers.Opt.Dominators.{
  Walk, not_walked, enter_block, leave_block, visit_succs, post_order_visit,
  create_reverse_post_order,
}
use ustc_2021_compliers.Opt.Dominators.Reach.{Reach, here, next}
use ustc_2021_compliers.Opt.Dominators.Explored.{Explored, IsNumbered, post_order_visit-Explored}

module _ (g : Blocks) where
  -- How many blocks are not visited.
  abbrev left_over : Walk → ℕ
  left_over w = count g.basic_blocks (λ b. not (contains w.visited b))

  left_over_mono :
      (w w' : Walk)
      → ((x : ℕ) → contains w.visited x ≡ true → contains w'.visited x ≡ true)
      → left_over w' ≤ left_over w
  left_over_mono w w' kept =
      count_mono (λ b. not (contains w'.visited b)) (λ b. not (contains w.visited b))
        (λ x e. ground (arith, kept x)) g.basic_blocks

  left_over_strict :
      (w : Walk) (bb : ℕ)
      → contains g.basic_blocks bb ≡ true
      → contains w.visited bb ≡ false
      → left_over (enter_block w bb) < left_over w
  left_over_strict w bb m f =
      count_strict (λ b. not (contains (enter_block w bb).visited b))
        (λ b. not (contains w.visited b)) (λ x e. ground (arith, contains-insert w.visited bb x))
        g.basic_blocks bb m (ground arith)
        (ground (arith, contains-insert w.visited bb bb, (==_iff bb bb).1 refl))

  module _ (closed : IsClosed g) where
    visit_succs-Returns :
        (n : ℕ)
        → ((w : Walk) (bb : ℕ)
            → contains g.basic_blocks bb ≡ true
            → contains w.visited bb ≡ false
            → left_over w ≤ n
            → Returns (post_order_visit g n w bb))
        → (bs : List ℕ) (w : Walk)
        → ((x : ℕ) → contains bs x ≡ true → contains g.basic_blocks x ≡ true)
        → left_over w ≤ n
        → Returns (visit_succs g (post_order_visit g n) w bs)
    visit_succs-Returns n each [] w m le = (w, refl)
    visit_succs-Returns n each (b ∷ bs) w m le = elim (Bool-cases (contains w.visited b)) [
      | inl t ↦
          let (w', e) = visit_succs-Returns n each bs w (λ x e. m x (ground arith)) le in
          (w', rw t e)
      | inr f ↦
          let (w1, e1) = each w b (m b (ground (arith, (==_iff b b).1 refl))) f le in
          let a = post_order_visit-Explored g n w w1 b f e1 in
          let (w', e) =
            visit_succs-Returns n each bs w1 (λ x e. m x (ground arith))
              (omega (arith, le, left_over_mono w w1 a.kept)) in
          (w', rw (f, e1) e)
    ]

    post_order_visit-Returns :
        (n : ℕ) (w : Walk) (bb : ℕ)
        → contains g.basic_blocks bb ≡ true
        → contains w.visited bb ≡ false
        → left_over w ≤ n
        → Returns (post_order_visit g n w bb)
    unfolding post_order_visit
    post_order_visit-Returns zero w bb m f le =
        absurd (omega (arith, le, left_over_strict w bb m f))
    post_order_visit-Returns (suc n) w bb m f le =
        >>=-Returns (visit_succs g (post_order_visit g n) (enter_block w bb) (g.succ_bbs bb))
          (λ w1. ok (leave_block w1 bb))
          (visit_succs-Returns n (post_order_visit-Returns n) (g.succ_bbs bb) (enter_block w bb)
            (λ x e. closed bb x m e) (omega (arith, le, left_over_strict w bb m f)))
          (λ w1 e. (leave_block w1 bb, refl))

  -- The post order lists the blocks that are reached from the entry, once each; a block's number is
  -- its place; every block but the entry has a predecessor with a greater number.
  pub record IsPostOrder (entry : ℕ) (w : Walk) : Type 0 where
    pub lists : (x : ℕ) → (contains w.post_order x ≡ true) ↔ Reach g entry x
    pub once : IsDistinct w.post_order
    pub places :
        (x : ℕ) → contains w.post_order x ≡ true → w.post_order_id x ≡ position w.post_order x
    pub from_above :
        (x : ℕ)
        → contains w.post_order x ≡ true
        → (entry == x) ≡ false
        → (p : ℕ) × (contains w.post_order p ≡ true)
          × (contains (g.succ_bbs p) x ≡ true)
          × (w.post_order_id x < w.post_order_id p)

  -- The way up from a block ends at the entry.
  entry_greatest :
      (entry : ℕ) (w : Walk)
      → IsPostOrder entry w
      → (n x : ℕ) → length w.post_order ≤ w.post_order_id x + n
      → contains w.post_order x ≡ true
      → (entry == x) ≡ false
      → w.post_order_id x < w.post_order_id entry
  entry_greatest entry w o zero x le m f =
      absurd (omega (arith, le, o.places x m, position_bound w.post_order x m))
  entry_greatest entry w o (suc n) x le m f =
      let (p, q, s, lt) = o.from_above x m f in
      elim (Bool-cases (entry == p)) [
        | inl t ↦ subst (λ y. w.post_order_id x < w.post_order_id y) (sym ((==_iff entry p).0 t)) lt
        | inr h ↦ omega (arith, lt, entry_greatest entry w o n p (omega (arith, le, lt)) q h)
      ]

  not_walked-IsNumbered : IsNumbered (not_walked g)
  not_walked-IsNumbered = record { distinct = tt; seen = λ x e. cc; numbers = λ x e. cc }

  Explored-IsPostOrder :
      (entry : ℕ) (w : Walk) → Explored g (not_walked g) (entry ∷ []) w → IsPostOrder entry w
  Explored-IsPostOrder entry w a = record {
    lists = λ x. (
      (λ e.
          let (r, m, p) = a.reached x (ground (arith, a.ordered x)) in
          subst (λ y. Reach g y x) (sym ((==_iff entry r).0 (ground arith))) p),
      λ p. a.ordered x ∙ ground (arith, all_visited p),
    );
    once = (a.numbered not_walked-IsNumbered).distinct;
    places = (a.numbered not_walked-IsNumbered).numbers;
    from_above = λ x m n. elim (a.parent not_walked-IsNumbered x (ground (arith, a.ordered x))) [
      | inl e ↦ let same : (entry == x) ≡ true = ground arith in absurd (cc (n, same))
      | inr (p, q, s, lt) ↦ (p, ground (arith, a.ordered p), s, lt)
    ];
  }
    where
      all_visited : {x : ℕ} → Reach g entry x → contains w.visited x ≡ true
      all_visited here = a.rooted entry (ground (arith, (==_iff entry entry).1 refl))
      all_visited (next {b} {c} p e) = a.closed b c (ground (arith, all_visited p)) e

  -- For blocks whose successors are among them, and an entry among them: with as many nested calls as
  -- there are blocks, create_reverse_post_order returns; its order lists exactly the blocks that are
  -- reached from the entry, each once, their ids are their places in the post order, and every block
  -- but the entry has a predecessor whose id is greater; the entry has the greatest id.
  pub create_reverse_post_order-IsPostOrder :
      (entry n : ℕ)
      → IsClosed g
      → contains g.basic_blocks entry ≡ true
      → length g.basic_blocks ≤ n
      → (w : Walk) × (create_reverse_post_order g n entry ≡ ok w)
        × IsPostOrder entry w
        × ((x : ℕ)
            → contains w.post_order x ≡ true
            → (entry == x) ≡ false
            → w.post_order_id x < w.post_order_id entry)
  unfolding create_reverse_post_order
  create_reverse_post_order-IsPostOrder entry n closed m le =
      let (w, e) = post_order_visit-Returns closed n (not_walked g) entry m refl (
        omega (
          arith,
          le,
          count-le-length g.basic_blocks (λ b. not (contains (not_walked g).visited b)),
        )) in
      let o =
        Explored-IsPostOrder entry w
          (post_order_visit-Explored g n (not_walked g) w entry refl e) in
      (w, e, o, λ x. entry_greatest entry w o (length w.post_order) x (omega arith))
