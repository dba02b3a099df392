-- ===== src/Opt/Dominators/Backwards.antt =====
-- The reversed list of Dominators::create_reverse_post_order (src/optimization/Dominators.cpp) is an
-- order in which the rounds of create_idom can visit the blocks.
use ustc_2021_compliers.Base.{
  ℕ, ◌+◌, ◌<◌, ◌≤◌, ◌≡◌, refl, sym, ap, ◌∙◌, ◌↔◌, Bool-cases, inl, inr, true, false, List, [], ◌∷◌,
  ◌++◌, ◌==◌, ==_iff, arith, contains, contains-append, All, All-append, IsDistinct, position,
  length, ok,
}
use ustc_2021_compliers.Ir.Blocks.{Blocks, IsClosed}
use ustc_2021_compliers.Opt.Dominators.{Walk, create_reverse_post_order}
use ustc_2021_compliers.Opt.Dominators.Reach.{Reach}
use ustc_2021_compliers.Opt.Dominators.Order.{IsPostOrder, create_reverse_post_order-IsPostOrder}
use ustc_2021_compliers.Opt.Dominators.IdomRound.{IsDescending, IsOrder}

-- std::list::reverse
abbrev pub backwards : List ℕ → List ℕ
backwards [] = []
backwards (x ∷ xs) = let rest = backwards xs in rest ++ x ∷ []

pub contains-backwards : (xs : List ℕ) (v : ℕ) → contains (backwards xs) v ≡ contains xs v
contains-backwards [] v = refl
contains-backwards (x ∷ xs) v =
    contains-append (backwards xs) x v ∙ ground (arith, contains-backwards xs v)

All-intro : (P : ℕ → Type 0) (xs : List ℕ) → ((x : ℕ) → contains xs x ≡ true → P x) → All P xs
All-intro P [] h = tt
All-intro P (x ∷ xs) h =
    (h x (ground (arith, (==_iff x x).1 refl)), All-intro P xs (λ y m. h y (ground arith)))

snoc-IsDescending :
    (id : ℕ → ℕ) (xs : List ℕ) (x : ℕ)
    → IsDescending id xs
    → ((y : ℕ) → contains xs y ≡ true → id x < id y)
    → IsDescending id (xs ++ x ∷ [])
snoc-IsDescending id [] x d h = (tt, tt)
snoc-IsDescending id (y ∷ xs) x d h = (
  All-append (λ z. id z < id y) xs (x ∷ []) d.0 (h y (ground (arith, (==_iff y y).1 refl)), tt),
  snoc-IsDescending id xs x d.1 (λ z m. h z (ground arith)),
)

apart_from :
    (x : ℕ) (xs : List ℕ) (y : ℕ) → contains xs x ≡ false → contains xs y ≡ true → (x == y) ≡ false
apart_from x xs y f m = elim (Bool-cases (x == y)) [
  | inl t ↦
      let same : contains xs x ≡ contains xs y = ap (contains xs) ((==_iff x y).0 t) in
      absurd (cc (f, m, same))
  | inr n ↦ n
]

backwards-IsDescending :
    (id : ℕ → ℕ) (k : ℕ) (xs : List ℕ)
    → IsDistinct xs
    → ((y : ℕ) → contains xs y ≡ true → id y ≡ k + position xs y)
    → IsDescending id (backwards xs)
backwards-IsDescending id k [] d h = tt
backwards-IsDescending id k (x ∷ xs) d h =
    let tail : (y : ℕ) → contains xs y ≡ true → id y ≡ (k + 1) + position xs y =
      λ y m. ground (arith, h y, apart_from x xs y d.0 m) in
    let first : id x ≡ k = ground (arith, h x, (==_iff x x).1 refl) in
    snoc-IsDescending id (backwards xs) x (backwards-IsDescending id (k + 1) xs d.1 tail)
      (λ y m. omega (arith, first, tail y (sym (contains-backwards xs y) ∙ m)))

position_inj :
    (xs : List ℕ) (a b : ℕ)
    → contains xs a ≡ true
    → contains xs b ≡ true
    → position xs a ≡ position xs b
    → a ≡ b
position_inj [] a b ma mb e = cc
position_inj (x ∷ xs) a b ma mb e = elim (Bool-cases (x == a)) [
  | inl t ↦ elim (Bool-cases (x == b)) [
    | inl s ↦ sym ((==_iff x a).0 t) ∙ (==_iff x b).0 s
    | inr n ↦ ground arith
  ]
  | inr f ↦ elim (Bool-cases (x == b)) [
    | inl s ↦ ground arith
    | inr n ↦ position_inj xs a b (ground arith) (ground arith) (ground arith)
  ]
]

backwards-IsOrder :
    (g : Blocks) (entry : ℕ) (w : Walk)
    → ((p b : ℕ) → contains (g.succ_bbs p) b ≡ true → contains (g.pre_bbs b) p ≡ true)
    → IsPostOrder g entry w
    → ((x : ℕ)
        → contains w.post_order x ≡ true
        → (entry == x) ≡ false
        → w.post_order_id x < w.post_order_id entry)
    → IsOrder g (backwards w.post_order) w.post_order_id entry
backwards-IsOrder g entry w mirrored o top =
    let member : (b : ℕ)
        → contains (backwards w.post_order) b ≡ true
        → contains w.post_order b ≡ true =
      λ b m. sym (contains-backwards w.post_order b) ∙ m in
    record {
      greatest = λ b m. elim (Bool-cases (entry == b)) [
        | inl t ↦ omega (arith, ap w.post_order_id ((==_iff entry b).0 t))
        | inr f ↦ omega (arith, top b (member b m) f)
      ];
      apart = λ a b ma mb e.
          position_inj w.post_order a b (member a ma) (member b mb)
            (omega (arith, e, o.places a (member a ma), o.places b (member b mb)));
      parent = λ b m f.
          let (p, q, s, lt) = o.from_above b (member b m) (ground arith) in
          (p, contains-backwards w.post_order p ∙ q, mirrored p b s, lt);
      descending =
          backwards-IsDescending w.post_order_id 0 w.post_order o.once
            (λ y m. omega (arith, o.places y m));
    }

-- For a flow graph whose lists of predecessors hold what its lists of successors say, whose successors
-- are among its blocks, and whose entry is: create_reverse_post_order returns, and its list, reversed,
-- holds exactly the blocks that the entry reaches and is an order for the rounds of create_idom: the
-- ids differ and fall along it, and every block but the entry has a predecessor before it.
pub create_reverse_post_order-IsOrder :
    (g : Blocks) (entry n : ℕ)
    → IsClosed g
    → ((p b : ℕ) → contains (g.succ_bbs p) b ≡ true → contains (g.pre_bbs b) p ≡ true)
    → contains g.basic_blocks entry ≡ true
    → length g.basic_blocks ≤ n
    → (w : Walk) × (create_reverse_post_order g n entry ≡ ok w)
      × IsOrder g (backwards w.post_order) w.post_order_id entry
      × ((x : ℕ) → (contains (backwards w.post_order) x ≡ true) ↔ Reach g entry x)
create_reverse_post_order-IsOrder g entry n closed mirrored m le =
    let (w, e, o, top) = create_reverse_post_order-IsPostOrder g entry n closed m le in
    (
      w,
      e,
      backwards-IsOrder g entry w mirrored o top,
      λ x. (
        (λ c. (o.lists x).0 (sym (contains-backwards w.post_order x) ∙ c)),
        λ r. contains-backwards w.post_order x ∙ (o.lists x).1 r,
      ),
    )
