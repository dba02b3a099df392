-- ===== src/Opt/Dominators/IdomRound.antt =====
-- A round of the loop of Dominators::create_idom (src/optimization/Dominators.cpp).
use mathlib.Core.Path.{subst}
use ustc_2021_compliers.Base.{
  ℕ, ◌+◌, ◌<◌, ◌≤◌, ◌≡◌, refl, sym, ap, ◌∙◌, Bool, Bool-cases, inl, inr, true, false, ◌||◌, Option,
  none, some, List, [], ◌∷◌, ◌==◌, ==_iff, arith, ok, contains, All, All-at,
}
use ustc_2021_compliers.Ir.Heap.{update}
use ustc_2021_compliers.Ir.Blocks.{Blocks}
use ustc_2021_compliers.Opt.Dominators.{has_idom, same_block, visit_idom, idom_round}
use ustc_2021_compliers.Opt.Dominators.Ancestors.{Above, IsIdomTree, id_mono}
use ustc_2021_compliers.Opt.Dominators.Meeting.{new_idom_of-Above}

-- The ids fall along the list.
abbrev pub IsDescending : (ℕ → ℕ) → List ℕ → Type 0
IsDescending id [] = Unit
IsDescending id (x ∷ xs) = All (λ y. id y < id x) xs × IsDescending id xs

head_greatest :
    (id : ℕ → ℕ) (x : ℕ) (xs : List ℕ) (y : ℕ)
    → IsDescending id (x ∷ xs)
    → contains (x ∷ xs) y ≡ true
    → id y ≤ id x
head_greatest id x xs y d m = elim (Bool-cases (x == y)) [
  | inl t ↦ omega (arith, ap id ((==_iff x y).0 t))
  | inr f ↦ omega (arith, All-at (λ z. id z < id x) xs y d.0 (ground arith))
]

not_after :
    (id : ℕ → ℕ) (x : ℕ) (xs : List ℕ) (y : ℕ)
    → IsDescending id (x ∷ xs)
    → id x < id y
    → contains (x ∷ xs) y ≡ false
not_after id x xs y d lt = elim (Bool-cases (contains (x ∷ xs) y)) [
  | inl t ↦ absurd (omega (arith, lt, head_greatest id x xs y d t))
  | inr f ↦ f
]

-- The reverse post order `rpo` and its ids: the entry `root` comes first, and every other block has a
-- predecessor before it.
pub record IsOrder (g : Blocks) (rpo : List ℕ) (id : ℕ → ℕ) (root : ℕ) : Type 0 where
  pub greatest : (b : ℕ) → contains rpo b ≡ true → id b ≤ id root
  pub apart : (a b : ℕ) → contains rpo a ≡ true → contains rpo b ≡ true → id a ≡ id b → a ≡ b
  pub parent :
      (b : ℕ)
      → contains rpo b ≡ true
      → (b == root) ≡ false
      → (p : ℕ) × (contains rpo p ≡ true) × (contains (g.pre_bbs b) p ≡ true) × (id b < id p)
  pub descending : IsDescending id rpo

-- Between two visits: the blocks `nodes` have immediate dominators, which make a tree.
pub record IsPartial (rpo nodes : List ℕ) (id : ℕ → ℕ) (root : ℕ) (idom : ℕ → Option ℕ)
    : Type 0 where
  pub tree : IsIdomTree nodes id idom root
  pub known : (b : ℕ) → has_idom (idom b) ≡ contains nodes b
  pub within : (b : ℕ) → contains nodes b ≡ true → contains rpo b ≡ true

-- The immediate dominator is above every predecessor that has one.
pub record SolvedAt (g : Blocks) (idom : ℕ → Option ℕ) (b : ℕ) : Type 0 where
  pub parent_is : ℕ
  pub has : idom b ≡ some parent_is
  pub above_preds :
      (q : ℕ) → contains (g.pre_bbs b) q ≡ true → has_idom (idom q) ≡ true → Above idom parent_is q

same_block-true : (o : Option ℕ) (d : ℕ) → same_block o (some d) ≡ true → o ≡ some d
same_block-true none d e = cc
same_block-true (some a) d e = ap some ((==_iff a d).0 e)

module _ (g : Blocks) (rpo : List ℕ) (id : ℕ → ℕ) (root : ℕ) (order : IsOrder g rpo id root) where
  -- A block gets an immediate dominator with a greater id.
  extend-IsPartial :
      (nodes : List ℕ) (idom idom' : ℕ → Option ℕ) (bb d : ℕ)
      → IsPartial rpo nodes id root idom
      → contains rpo bb ≡ true
      → (bb == root) ≡ false
      → contains nodes d ≡ true
      → id bb < id d
      → idom' bb ≡ some d
      → ((b : ℕ) → (bb == b) ≡ false → idom' b ≡ idom b)
      → IsPartial rpo (bb ∷ nodes) id root idom'
  extend-IsPartial nodes idom idom' bb d part m f md lt at_bb others =
      let in_rpo : (b : ℕ) → contains (bb ∷ nodes) b ≡ true → contains rpo b ≡ true = λ b e.
        elim (Bool-cases (bb == b)) [
          | inl t ↦ subst (λ x. contains rpo x ≡ true) ((==_iff bb b).0 t) m
          | inr n ↦ part.within b (ground arith)
        ] in
      record {
        tree = record {
          root_in = ground (arith, part.tree.root_in);
          root_idom = others root f ∙ part.tree.root_idom;
          greatest = λ b e. order.greatest b (in_rpo b e);
          apart = λ a b ea eb e. order.apart a b (in_rpo a ea) (in_rpo b eb) e;
          rises = λ b e lt_b. elim (Bool-cases (bb == b)) [
            | inl t ↦
                let same : bb ≡ b = (==_iff bb b).0 t in
                (
                  d,
                  subst (λ x. idom' x ≡ some d) same at_bb,
                  ground arith,
                  subst (λ x. id x < id d) same lt,
                )
            | inr n ↦
                let (c, ec, mc, l) = part.tree.rises b (ground arith) lt_b in
                (c, others b n ∙ ec, ground arith, l)
          ];
        };
        known = λ b. elim (Bool-cases (bb == b)) [
          | inl t ↦
              subst (λ x. has_idom (idom' x) ≡ contains (bb ∷ nodes) x) ((==_iff bb b).0 t)
                (ap has_idom at_bb ∙ ground (arith, (==_iff bb bb).1 refl))
          | inr n ↦ ap has_idom (others b n) ∙ part.known b ∙ ground arith
        ];
        within = in_rpo;
      }

  module _ (n : ℕ) (enough : id root + id root + 1 < n) where
    -- A visit of a block that has a predecessor with a greater id in the tree.
    visit_idom-IsPartial :
        (nodes : List ℕ) (idom : ℕ → Option ℕ) (bb p : ℕ)
        → IsPartial rpo nodes id root idom
        → contains rpo bb ≡ true
        → (bb == root) ≡ false
        → contains (g.pre_bbs bb) p ≡ true
        → contains nodes p ≡ true
        → id bb < id p
        → (r : (ℕ → Option ℕ) × Bool) × (visit_idom g id root n idom bb ≡ ok r)
          × IsPartial rpo (bb ∷ nodes) id root (r.0)
          × (r.1 ≡ false → (r.0 ≡ idom) × SolvedAt g idom bb)
    visit_idom-IsPartial nodes idom bb p part m f mp np lt =
        let (d, e, md, above) =
          new_idom_of-Above nodes id idom root part.tree (λ q h. sym (part.known q) ∙ h) n enough
            (g.pre_bbs bb) p mp (part.known p ∙ np) in
        let higher : id bb < id d =
          omega
            (arith, lt, id_mono nodes id idom root part.tree (above p mp (part.known p ∙ np)) np) in
        elim (Bool-cases (same_block (idom bb) (some d))) [
          | inl t ↦ (
            (idom, false),
            rw (f, e, t) refl,
            extend-IsPartial nodes idom idom bb d part m f md higher (same_block-true (idom bb) d t)
                (λ b k. refl),
            λ k. (
              refl,
              record { parent_is = d; has = same_block-true (idom bb) d t; above_preds = above },
            ),
          )
          | inr t ↦ (
            (update idom bb (some d), true),
            rw (f, e, t) refl,
            extend-IsPartial nodes idom (update idom bb (some d)) bb d part m f md higher
                (rw ((==_iff bb bb).1 refl) refl) (λ b k. rw k refl),
            λ k. cc,
          )
        ]

    -- What a round over the rest of the order has done.
    pub record Rounded (bbs nodes : List ℕ) (idom : ℕ → Option ℕ) (r : (ℕ → Option ℕ) × Bool)
        : Type 0 where
      pub nodes_after : List ℕ
      pub part_after : IsPartial rpo nodes_after id root (r.0)
      pub all_in : (b : ℕ) → contains rpo b ≡ true → contains nodes_after b ≡ true
      pub calm :
          r.1 ≡ false
          → (r.0 ≡ idom)
            × ((b : ℕ) → contains bbs b ≡ true → (b == root) ≡ false → SolvedAt g idom b)

    -- The first visit, and the rest of the round.
    Rounded-cons :
        (bb : ℕ) (bbs nodes nodes1 : List ℕ) (idom : ℕ → Option ℕ)
        (first rest : (ℕ → Option ℕ) × Bool)
        → (first.1 ≡ false → (first.0 ≡ idom) × ((bb == root) ≡ false → SolvedAt g idom bb))
        → Rounded bbs nodes1 (first.0) rest
        → Rounded (bb ∷ bbs) nodes idom (rest.0, first.1 || rest.1)
    Rounded-cons bb bbs nodes nodes1 idom first rest calm_first k = record {
      nodes_after = k.nodes_after;
      part_after = k.part_after;
      all_in = k.all_in;
      calm = λ e.
          let (same1, solved1) = calm_first (ground arith) in
          let (same2, solved2) = k.calm (ground arith) in
          (
            same2 ∙ same1,
            λ b m f. elim (Bool-cases (bb == b)) [
              | inl t ↦
                  let same : bb ≡ b = (==_iff bb b).0 t in
                  subst (SolvedAt g idom) same
                    (solved1 (subst (λ x. (x == root) ≡ false) (sym same) f))
              | inr h ↦ subst (λ i. SolvedAt g i b) same1 (solved2 b (ground arith) f)
            ],
          );
    }

    pub idom_round-Rounded :
        (bbs nodes : List ℕ) (idom : ℕ → Option ℕ)
        → IsPartial rpo nodes id root idom
        → IsDescending id bbs
        → ((b : ℕ) → contains bbs b ≡ true → contains rpo b ≡ true)
        → ((b : ℕ) → contains rpo b ≡ true → contains bbs b ≡ false → contains nodes b ≡ true)
        → (r : (ℕ → Option ℕ) × Bool) × (idom_round g id root n idom bbs ≡ ok r)
          × Rounded bbs nodes idom r
    unfolding idom_round
    idom_round-Rounded [] nodes idom part d sub done = (
      (idom, false),
      refl,
      record {
        nodes_after = nodes;
        part_after = part;
        all_in = λ b m. done b m refl;
        calm = λ e. (refl, λ b m f. cc);
      },
    )
    idom_round-Rounded (bb ∷ bbs) nodes idom part d sub done = elim (Bool-cases (bb == root)) [
      | inl t ↦
          let (r, e, k) =
            idom_round-Rounded bbs nodes idom part d.1 (λ b m. sub b (ground arith))
              (λ b m f. elim (Bool-cases (bb == b)) [
                | inl s ↦
                    subst (λ x. contains nodes x ≡ true)
                      (sym ((==_iff bb root).0 t) ∙ (==_iff bb b).0 s) part.tree.root_in
                | inr h ↦ done b m (ground arith)
              ]) in
          (
            (r.0, false || r.1),
            rw (t, e) refl,
            Rounded-cons bb bbs nodes nodes idom (idom, false) r
                (λ q. (refl, λ f. absurd (cc (t, f)))) k,
          )
      | inr f ↦
          let (p, mp, pp, lt) =
            order.parent bb (sub bb (ground (arith, (==_iff bb bb).1 refl))) f in
          let before : contains (bb ∷ bbs) p ≡ false = not_after id bb bbs p d lt in
          let (first, e1, part1, calm1) =
            visit_idom-IsPartial nodes idom bb p part
              (sub bb (ground (arith, (==_iff bb bb).1 refl))) f pp (done p mp before) lt in
          let (rest, e2, k) =
            idom_round-Rounded bbs (bb ∷ nodes) (first.0) part1 d.1 (λ b m. sub b (ground arith))
              (λ b m h. ground (arith, done b m)) in
          (
            (rest.0, first.1 || rest.1),
            rw (e1, e2) refl,
            Rounded-cons bb bbs nodes (bb ∷ nodes) idom first rest
                (λ q. let (s, v) = calm1 q in (s, λ h. v)) k,
          )
    ]
