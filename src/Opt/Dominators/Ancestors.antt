-- ===== src/Opt/Dominators/Ancestors.antt =====
-- Dominators::intersect (src/optimization/Dominators.cpp): the nearest block that is above both blocks
-- in the tree of immediate dominators.
use Prim.Native.Nat.{zero, suc}
use mathlib.Core.Path.{subst}
use ustc_2021_compliers.Base.{
  ℕ, ◌+◌, ◌<◌, ◌≤◌, ◌≡◌, refl, sym, ap, ◌∙◌, ◌⊎◌, Bool-cases, inl, inr, true, false, Option, some,
  List, ◌==◌, ==_iff, ltb, ltb→lt, lt→ltb, arith, ok, contains,
}
use ustc_2021_compliers.Opt.Dominators.{climb, intersect}

-- The chain from a block over the immediate dominators.
pub data Above (idom : ℕ → Option ℕ) (a : ℕ) : ℕ → Type 0 where
  at : Above idom a a
  up : {b d : ℕ} → idom b ≡ some d → Above idom a d → Above idom a b

-- The ids of `nodes` differ and grow towards the root, which is its own immediate dominator.
pub record IsIdomTree (nodes : List ℕ) (id : ℕ → ℕ) (idom : ℕ → Option ℕ) (root : ℕ) : Type 0 where
  pub root_in : contains nodes root ≡ true
  pub root_idom : idom root ≡ some root
  pub greatest : (b : ℕ) → contains nodes b ≡ true → id b ≤ id root
  pub apart : (a b : ℕ) → contains nodes a ≡ true → contains nodes b ≡ true → id a ≡ id b → a ≡ b
  pub rises :
      (b : ℕ)
      → contains nodes b ≡ true
      → id b < id root
      → (d : ℕ) × (idom b ≡ some d) × (contains nodes d ≡ true) × (id b < id d)

module _ {idom : ℕ → Option ℕ} where
  pub Above-trans : {a b c : ℕ} → Above idom b c → Above idom a b → Above idom a c
  Above-trans at s = s
  Above-trans (up e r) s = up e (Above-trans r s)

  -- What is above a block is the block or is above its immediate dominator.
  pub Above-step : {a b d : ℕ} → Above idom a b → idom b ≡ some d → (b ≡ a) ⊎ Above idom a d
  Above-step at e = inl refl
  Above-step {a} {b} {d} (up {d = c} e r) f =
      let same : c ≡ d = cc in inr (subst (Above idom a) same r)

module _ (nodes : List ℕ) (id : ℕ → ℕ) (idom : ℕ → Option ℕ) (root : ℕ)
    (tree : IsIdomTree nodes id idom root) where
  -- The root has nothing above it but itself, and ids do not fall on the way up.
  pub root_alone : {a b : ℕ} → Above idom a b → b ≡ root → a ≡ root
  root_alone at e = e
  root_alone {a} {b} (up {d = c} e r) f =
      let same : c ≡ root = cc (tree.root_idom) in root_alone r same

  not_below : (b : ℕ) → ltb (id b) (id root) ≡ false → id root ≤ id b
  not_below b f = ground arith

  pub id_mono : {a b : ℕ} → Above idom a b → contains nodes b ≡ true → id b ≤ id a
  id_mono at m = omega arith
  id_mono {a} {b} (up {d = c} e r) m = elim (Bool-cases (ltb (id b) (id root))) [
    | inl t ↦
        let (d, f, md, lt) = tree.rises b m (ltb→lt (id b) (id root) t) in
        let same : d ≡ c = cc in
        omega (
          arith,
          lt,
          id_mono r (subst (λ x. contains nodes x ≡ true) same md),
          subst (λ x. id b < id x) same lt,
        )
    | inr n ↦
        let at_top : b ≡ root =
          tree.apart b root m tree.root_in (omega (arith, tree.greatest b m, not_below b n)) in
        omega (arith, ap id (root_alone (up e r) at_top), ap id at_top)
  ]

  pub contains-Above :
      {a b : ℕ} → Above idom a b → contains nodes b ≡ true → contains nodes a ≡ true
  contains-Above at m = m
  contains-Above {a} {b} (up {d = c} e r) m = elim (Bool-cases (ltb (id b) (id root))) [
    | inl t ↦
        let (d, f, md, lt) = tree.rises b m (ltb→lt (id b) (id root) t) in
        let same : d ≡ c = cc in contains-Above r (subst (λ x. contains nodes x ≡ true) same md)
    | inr n ↦
        let at_top : b ≡ root =
          tree.apart b root m tree.root_in (omega (arith, tree.greatest b m, not_below b n)) in
        subst (λ x. contains nodes x ≡ true) (sym (root_alone (up e r) at_top)) tree.root_in
  ]

  -- A block that has another above it has an immediate dominator, with a greater id.
  pub below :
      {a b : ℕ}
      → Above idom a b
      → contains nodes b ≡ true
      → (b == a) ≡ false
      → (d : ℕ) × (idom b ≡ some d) × (contains nodes d ≡ true) × (id b < id d) × Above idom a d
  below {a} {b} r m f = elim (Bool-cases (ltb (id b) (id root))) [
    | inl t ↦
        let (d, e, md, lt) = tree.rises b m (ltb→lt (id b) (id root) t) in
        elim (Above-step r e) [
          | inl same ↦ absurd (cc (f, (==_iff b a).1 same))
          | inr s ↦ (d, e, md, lt, s)
        ]
    | inr n ↦
        let at_top : b ≡ root =
          tree.apart b root m tree.root_in (omega (arith, tree.greatest b m, not_below b n)) in
        absurd (cc (f, (==_iff b a).1 (at_top ∙ sym (root_alone r at_top))))
  ]

  -- What a climb has come to.
  record Climbed (b1 b2 c : ℕ) : Type 0 where
    stays : contains nodes c ≡ true
    higher : id b1 ≤ id c
    progress : id b1 < id b2 → id b1 < id c
    above : Above idom c b1
    nearest : (a : ℕ) → Above idom a b1 → Above idom a b2 → Above idom a c

  climb-Climbed :
      (n b1 b2 : ℕ)
      → contains nodes b1 ≡ true
      → contains nodes b2 ≡ true
      → id root < id b1 + n
      → (c : ℕ) × (climb id idom n b1 b2 ≡ ok c) × Climbed b1 b2 c
  unfolding climb
  climb-Climbed zero b1 b2 m1 m2 lt = absurd (omega (arith, lt, tree.greatest b1 m1))
  climb-Climbed (suc n) b1 b2 m1 m2 lt = elim (Bool-cases (ltb (id b1) (id b2))) [
    | inl t ↦
        let below = ltb→lt (id b1) (id b2) t in
        let (d, e, md, rise) = tree.rises b1 m1 (omega (arith, below, tree.greatest b2 m2)) in
        let (c, r, k) = climb-Climbed n d b2 md m2 (omega (arith, lt, rise)) in
        (
          c,
          rw (t, e) r,
          record {
            stays = k.stays;
            higher = omega (arith, rise, k.higher);
            progress = λ l. omega (arith, rise, k.higher);
            above = up e k.above;
            nearest = λ a s1 s2. elim (Above-step s1 e) [
              | inl same ↦ absurd (omega (arith, below, id_mono s2 m2, ap id same))
              | inr s ↦ k.nearest a s s2
            ];
          },
        )
    | inr f ↦ (
      b1,
      rw f refl,
      record {
        stays = m1;
        higher = omega arith;
        progress = λ l. absurd (cc (f, lt→ltb (id b1) (id b2) l));
        above = at;
        nearest = λ a s1 s2. s1;
      },
    )
  ]

  same_id : (b1 b2 : ℕ) → ltb (id b1) (id b2) ≡ false → ltb (id b2) (id b1) ≡ false → id b1 ≡ id b2
  same_id b1 b2 f g = ground arith

  -- Two climbs from different blocks move one of them.
  moved :
      (b1 b2 c1 c2 : ℕ)
      → contains nodes b1 ≡ true
      → contains nodes b2 ≡ true
      → (b1 == b2) ≡ false
      → Climbed b1 b2 c1
      → Climbed b2 c1 c2
      → id b1 + id b2 < id c1 + id c2
  moved b1 b2 c1 c2 m1 m2 f k1 k2 = elim (Bool-cases (ltb (id b1) (id b2))) [
    | inl t ↦ omega (arith, k1.progress (ltb→lt (id b1) (id b2) t), k2.higher)
    | inr g ↦ elim (Bool-cases (ltb (id b2) (id b1))) [
      | inl t ↦
          let l : id b2 < id b1 = ltb→lt (id b2) (id b1) t in
          omega (arith, k2.progress (omega (arith, l, k1.higher)), k1.higher)
      | inr h ↦ absurd (cc (f, (==_iff b1 b2).1 (tree.apart b1 b2 m1 m2 (same_id b1 b2 g h))))
    ]
  ]

  -- The block is above both, and below all blocks that are.
  pub record IsNearest (b1 b2 c : ℕ) : Type 0 where
    pub in_tree : contains nodes c ≡ true
    pub above_first : Above idom c b1
    pub above_second : Above idom c b2
    pub nearest_above : (a : ℕ) → Above idom a b1 → Above idom a b2 → Above idom a c

  -- For two blocks of a tree of immediate dominators, intersect returns, and what it returns is the
  -- nearest block that is above both in the tree; the climbs that bring both ids to the root's, and
  -- two more, are enough.
  pub intersect-IsNearest :
      (n b1 b2 : ℕ)
      → contains nodes b1 ≡ true
      → contains nodes b2 ≡ true
      → id root + id root + 1 < id b1 + id b2 + n
      → (c : ℕ) × (intersect id idom n b1 b2 ≡ ok c) × IsNearest b1 b2 c
  unfolding intersect
  intersect-IsNearest zero b1 b2 m1 m2 lt =
      absurd (omega (arith, lt, tree.greatest b1 m1, tree.greatest b2 m2))
  intersect-IsNearest (suc n) b1 b2 m1 m2 lt = elim (Bool-cases (b1 == b2)) [
    | inl t ↦
        let same : b1 ≡ b2 = (==_iff b1 b2).0 t in
        (
          b1,
          rw t refl,
          record {
            in_tree = m1;
            above_first = at;
            above_second = subst (Above idom b1) same at;
            nearest_above = λ a s1 s2. s1;
          },
        )
    | inr f ↦
        let (c1, r1, k1) = climb-Climbed n b1 b2 m1 m2 (omega (arith, lt, tree.greatest b2 m2)) in
        let (c2, r2, k2) =
          climb-Climbed n b2 c1 m2 k1.stays (omega (arith, lt, tree.greatest b1 m1)) in
        let (c, r, k) =
          intersect-IsNearest n c1 c2 k1.stays k2.stays
            (omega (arith, lt, moved b1 b2 c1 c2 m1 m2 f k1 k2)) in
        (
          c,
          rw (f, r1, r2) r,
          record {
            in_tree = k.in_tree;
            above_first = Above-trans k1.above k.above_first;
            above_second = Above-trans k2.above k.above_second;
            nearest_above =
                λ a s1 s2. let s = k1.nearest a s1 s2 in k.nearest_above a s (k2.nearest a s2 s);
          },
        )
  ]
