-- ===== src/Opt/Dominators/Meeting.antt =====
-- The body of the loop of Dominators::create_idom (src/optimization/Dominators.cpp): the meeting point
-- of a block's predecessors.
use mathlib.Core.Path.{subst}
use ustc_2021_compliers.Base.{
  ℕ, ◌+◌, ◌<◌, ◌≡◌, refl, sym, ap, ◌∙◌, Bool, Bool-cases, inl, inr, true, false, not, ◌&&◌, Option,
  some, List, [], ◌∷◌, ◌==◌, ==_iff, arith, ok, contains,
}
use ustc_2021_compliers.Opt.Dominators.{
  has_idom, first_with_idom, meet_preds, meet_from, new_idom_of,
}
use ustc_2021_compliers.Opt.Dominators.Ancestors.{
  Above, at, Above-trans, IsIdomTree, intersect-IsNearest,
}

apart_by : (P : ℕ → Bool) (x p : ℕ) → P x ≡ false → P p ≡ true → (x == p) ≡ false
apart_by P x p f h = elim (Bool-cases (x == p)) [
  | inl t ↦ let same : P x ≡ P p = ap P ((==_iff x p).0 t) in absurd (cc (f, h, same))
  | inr n ↦ n
]

first_with_idom-some :
    (idom : ℕ → Option ℕ) (ps : List ℕ) (p : ℕ)
    → contains ps p ≡ true
    → has_idom (idom p) ≡ true
    → (q : ℕ) × (first_with_idom idom ps ≡ some q)
      × (contains ps q ≡ true)
      × (has_idom (idom q) ≡ true)
first_with_idom-some idom [] p m h = cc
first_with_idom-some idom (x ∷ ps) p m h = elim (Bool-cases (has_idom (idom x))) [
  | inl t ↦ (x, rw t refl, ground (arith, (==_iff x x).1 refl), t)
  | inr f ↦
      let other : (x == p) ≡ false = apart_by (λ z. has_idom (idom z)) x p f h in
      let (q, e, mq, hq) = first_with_idom-some idom ps p (ground arith) h in
      (q, rw f e, ground arith, hq)
]

module _ (nodes : List ℕ) (id : ℕ → ℕ) (idom : ℕ → Option ℕ) (root : ℕ)
    (tree : IsIdomTree nodes id idom root)
    (known : (p : ℕ) → has_idom (idom p) ≡ true → contains nodes p ≡ true) (n : ℕ)
    (enough : id root + id root + 1 < n) where
  meet_preds-Above :
      (pred new_idom : ℕ) (ps : List ℕ)
      → contains nodes new_idom ≡ true
      → (c : ℕ) × (meet_preds id idom n pred new_idom ps ≡ ok c)
        × (contains nodes c ≡ true)
        × Above idom c new_idom
        × ((p : ℕ)
            → contains ps p ≡ true
            → has_idom (idom p) ≡ true
            → (p == pred) ≡ false
            → Above idom c p)
  unfolding meet_preds
  meet_preds-Above pred new_idom [] m = (new_idom, refl, m, at, λ p e h f. cc)
  meet_preds-Above pred new_idom (x ∷ ps) m =
      elim (Bool-cases (not (x == pred) && has_idom (idom x))) [
        | inl t ↦
            let (c, r, k) =
              intersect-IsNearest nodes id idom root tree n x new_idom (known x (ground arith)) m
                (omega (arith, enough)) in
            let (d, s, md, up_new, up_ps) = meet_preds-Above pred c ps k.in_tree in
            (
              d,
              rw (t, r) s,
              md,
              Above-trans k.above_second up_new,
              λ p e h f. elim (Bool-cases (x == p)) [
                | inl same ↦
                    subst (Above idom d) ((==_iff x p).0 same) (Above-trans k.above_first up_new)
                | inr other ↦ up_ps p (ground arith) h f
              ],
            )
        | inr t ↦
            let (d, s, md, up_new, up_ps) = meet_preds-Above pred new_idom ps m in
            (
              d,
              rw t s,
              md,
              up_new,
              λ p e h f.
                  let other : (x == p) ≡ false =
                    apart_by (λ z. not (z == pred) && has_idom (idom z)) x p t (ground arith) in
                  up_ps p (ground arith) h f,
            )
      ]

  -- The new immediate dominator is above every predecessor that has one.
  pub new_idom_of-Above :
      (preds : List ℕ) (p : ℕ)
      → contains preds p ≡ true
      → has_idom (idom p) ≡ true
      → (c : ℕ) × (new_idom_of id idom n preds ≡ ok c)
        × (contains nodes c ≡ true)
        × ((q : ℕ) → contains preds q ≡ true → has_idom (idom q) ≡ true → Above idom c q)
  new_idom_of-Above preds p m h =
      let (q, e, mq, hq) = first_with_idom-some idom preds p m h in
      let (c, r, mc, up_new, up_ps) = meet_preds-Above q q preds (known q hq) in
      (
        c,
        ap (meet_from id idom n preds) e ∙ r,
        mc,
        λ x mx hx. elim (Bool-cases (x == q)) [
          | inl same ↦ subst (Above idom c) (sym ((==_iff x q).0 same)) up_new
          | inr other ↦ up_ps x mx hx other
        ],
      )
