-- ===== src/Opt/ConstProp/Unused.antt =====
-- ConstPropagation::run (src/optimization/ConstPropagation.cpp) deletes instructions that no other one
-- uses: what a visit and a deletion do to the uses by an instruction that stays.
use mathlib.Core.Path.{subst}
use ustc_2021_compliers.Base.{
  ℕ, ◌<◌, ◌≡◌, ◌≢◌, ◌∙◌, refl, sym, ap, Bool, Bool-cases, inl, inr, true, false, some, List, [],
  ◌∷◌, ◌++◌, if◌then◌else◌, ok, All, All-append, contains, contains-++, >>=-eq-ok, arith,
}
use ustc_2021_compliers.Ir.Heap.{Heap, Kind, Use, replace_all_use_with, new_constant}
use ustc_2021_compliers.Ir.Heap.Replace.{
  slot, listed, Accurate, IsBounded, Moved, replace_all_use_with-Replaced,
}
use ustc_2021_compliers.Opt.ConstFolder.{Floats}
use ustc_2021_compliers.Opt.ConstProp.{replace_by, visit}
use ustc_2021_compliers.Opt.ConstProp.Folds.{is_foldable, visit-Visit}

abbrev pub operand_of : ℕ → ℕ → Use
operand_of user i = record { val = user; arg_no = i }

-- Each operand of `user` that is one of the values is in the use list of the value.
abbrev pub IsListed : Heap → ℕ → List ℕ → Type 0
IsListed h user vs =
    All
      (λ v.
        (i : ℕ)
        → slot h (operand_of user i) ≡ some v
        → listed (h.use_list v) (operand_of user i) ≡ true)
      vs

-- `user` does not use the value.
abbrev pub IsUnused : Heap → ℕ → ℕ → Type 0
IsUnused h user v = (i : ℕ) → slot h (operand_of user i) ≢ some v

-- From `h` with `ts` to visit, to `h'` with `todo` to visit: `gone` are folded instructions among `ts`,
-- and a user that is none of them does not use them, nor what it did not use before.
pub record Clears (h h' : Heap) (ts todo gone : List ℕ) : Type 0 where
  pub foldable : All (λ p. is_foldable (h.kind p) ≡ true) gone
  pub from : (n : ℕ) → All (λ q. q < n) ts → All (λ q. q < n) gone
  pub rest : (n : ℕ) → All (λ q. q < n) ts → All (λ q. q < n) todo
  pub listed_still : (x : ℕ) → contains gone x ≡ false → IsListed h x ts → IsListed h' x todo
  pub unused : (x : ℕ) → contains gone x ≡ false → IsListed h x ts → All (IsUnused h' x) gone
  pub unused_still : (x v : ℕ) → v < h.next → IsUnused h x v → IsUnused h' x v

pub Clears-refl : (h : Heap) (todo : List ℕ) → Clears h h todo todo []
Clears-refl h todo = record {
  foldable = tt;
  from = λ n a. tt;
  rest = λ n a. a;
  listed_still = λ x n l. l;
  unused = λ x n l. tt;
  unused_still = λ x v lt u. u;
}

pub Clears-trans :
    {h h1 h2 : Heap} {ts ms todo gone more : List ℕ}
    → ((q : ℕ) → q < h.next → (h1.kind q ≡ h.kind q) × (q < h1.next))
    → All (λ q. q < h.next) ts
    → Clears h h1 ts ms gone
    → Clears h1 h2 ms todo more
    → Clears h h2 ts todo (gone ++ more)
Clears-trans {h} {h1} {h2} {ts} {ms} {todo} {gone} {more} same known c d = record {
  foldable =
      All-append (λ p. is_foldable (h.kind p) ≡ true) gone more c.foldable
        (both more (d.from h.next (c.rest h.next known)) d.foldable);
  from = λ n a. All-append (λ q. q < n) gone more (c.from n a) (d.from n (c.rest n a));
  rest = λ n a. d.rest n (c.rest n a);
  listed_still = λ x n l. d.listed_still x (in_more x n) (c.listed_still x (in_gone x n) l);
  unused = λ x n l.
      All-append (IsUnused h2 x) gone more
        (still gone x (c.from h.next known) (c.unused x (in_gone x n) l))
        (d.unused x (in_more x n) (c.listed_still x (in_gone x n) l));
  unused_still = λ x v lt u. d.unused_still x v (same v lt).1 (c.unused_still x v lt u);
}
  where
    in_gone : (x : ℕ) → contains (gone ++ more) x ≡ false → contains gone x ≡ false
    in_gone x n = ground (arith, contains-++ gone more x)

    in_more : (x : ℕ) → contains (gone ++ more) x ≡ false → contains more x ≡ false
    in_more x n = ground (arith, contains-++ gone more x)

    both :
        (ps : List ℕ)
        → All (λ q. q < h.next) ps
        → All (λ p. is_foldable (h1.kind p) ≡ true) ps
        → All (λ p. is_foldable (h.kind p) ≡ true) ps
    both [] a b = tt
    both (p ∷ ps) a b = (ap is_foldable (sym (same p a.0).0) ∙ b.0, both ps a.1 b.1)

    still :
        (ps : List ℕ) (x : ℕ)
        → All (λ q. q < h.next) ps
        → All (IsUnused h1 x) ps
        → All (IsUnused h2 x) ps
    still [] x a b = tt
    still (p ∷ ps) x a b = (d.unused_still x p (same p a.0).1 b.0, still ps x a.1 b.1)

-- A constant takes the place of `p`.
module _ (h : Heap) (p : ℕ) (todo : List ℕ) (k : Kind) (h' : Heap) (folded : Bool)
    (done : replace_by h p k ≡ ok (h', folded)) (bounded : IsBounded h) (accurate : Accurate h p)
    (known : All (λ q. q < h.next) (p ∷ todo)) where
  replaced : (Moved (h.use_list p) h.next (new_constant h k).0 h') × (folded ≡ true)
  unfolding replace_by new_constant
  replaced =
      let (h2, e1, e2) = >>=-eq-ok (replace_all_use_with (new_constant h k).0 p h.next) _ done in
      let same : h2 ≡ h' = cc e2 in
      let (moved, _) =
        replace_all_use_with-Replaced (λ v. tt) p h.next refl (new_constant h k).0 h'
          (subst (λ x. replace_all_use_with (new_constant h k).0 p h.next ≡ ok x) same e1)
          accurate in
      (moved, cc e2)

  slot_after : (u : Use) → slot h' u ≡ (if listed (h.use_list p) u then some h.next else slot h u)
  unfolding new_constant
  slot_after u = replaced.0.slots u

  use_list_after : (q : ℕ) → q < h.next → h'.use_list q ≡ h.use_list q
  unfolding new_constant
  use_list_after q lt = replaced.0.others q (λ e. omega arith)

  -- An operand that is an old object is what it was, and was not in the use list of `p`.
  old_slot :
      (u : Use) (q : ℕ)
      → q < h.next
      → slot h' u ≡ some q
      → (slot h u ≡ some q) × (listed (h.use_list p) u ≡ false)
  old_slot u q lt e = elim (Bool-cases (listed (h.use_list p) u)) [
    | inl t ↦
        let new : some h.next ≡ some q = sym (slot_after u ∙ rw t refl) ∙ e in absurd (ground arith)
    | inr f ↦ (sym (slot_after u ∙ rw f refl) ∙ e, f)
  ]

  IsListed-after :
      (x : ℕ) (qs : List ℕ) → All (λ q. q < h.next) qs → IsListed h x qs → IsListed h' x qs
  IsListed-after x [] a l = tt
  IsListed-after x (q ∷ qs) a l = (
    λ i e.
        ap (λ us. listed us (operand_of x i)) (use_list_after q a.0)
        ∙ l.0 i (old_slot (operand_of x i) q a.0 e).0,
    IsListed-after x qs a.1 l.1,
  )

  replace_by-Clears : is_foldable (h.kind p) ≡ true → Clears h h' (p ∷ todo) todo (p ∷ [])
  replace_by-Clears f = record {
    foldable = (f, tt);
    from = λ n a. (a.0, tt);
    rest = λ n a. a.1;
    listed_still = λ x n l. IsListed-after x todo known.1 l.1;
    unused = λ x n l. (
      λ i e.
          let (old, unlisted) = old_slot (operand_of x i) p known.0 e in cc (l.0 i old, unlisted),
      tt,
    );
    unused_still = λ x v lt u i e. u i (old_slot (operand_of x i) v lt e).0;
  }

abbrev pub waiting : Bool → ℕ → List ℕ
waiting true p = p ∷ []
waiting false p = []

module _ (fl : Floats) (h : Heap) (p : ℕ) (todo : List ℕ) (h' : Heap) (folded : Bool)
    (bounded : IsBounded h) (accurate : Accurate h p)
    (known : All (λ q. q < h.next) (p ∷ todo)) where
  unused_gone :
      h.use_list p ≡ [] → is_foldable (h.kind p) ≡ true → Clears h h (p ∷ todo) todo (p ∷ [])
  unused_gone e f = record {
    foldable = (f, tt);
    from = λ n a. (a.0, tt);
    rest = λ n a. a.1;
    listed_still = λ x n l. l.1;
    unused = λ x n l. (λ i s. cc (l.0 i s, ap (λ us. listed us (operand_of x i)) e), tt);
    unused_still = λ x v lt u. u;
  }

  pub visit-Clears : visit fl h p ≡ ok (h', folded) → Clears h h' (p ∷ todo) todo (waiting folded p)
  visit-Clears e = elim (visit-Visit h p h' folded fl e) [
    | inl (same, left) ↦
        subst (λ x. Clears h x (p ∷ todo) todo (waiting folded p)) (sym same)
          (subst (λ b. Clears h h (p ∷ todo) todo (waiting b p)) (sym left)
            (record {
              foldable = tt;
              from = λ n a. tt;
              rest = λ n a. a.1;
              listed_still = λ x n l. l.1;
              unused = λ x n l. tt;
              unused_still = λ x v lt u. u;
            }))
    | inr (f, inl (k, done)) ↦
        subst (λ b. Clears h h' (p ∷ todo) todo (waiting b p))
          (sym (replaced h p todo k h' folded done bounded accurate known).1)
          (replace_by-Clears h p todo k h' folded done bounded accurate known f)
    | inr (f, inr (empty, same, gone)) ↦
        subst (λ x. Clears h x (p ∷ todo) todo (waiting folded p)) (sym same)
          (subst (λ b. Clears h h (p ∷ todo) todo (waiting b p)) (sym gone) (unused_gone empty f))
  ]
