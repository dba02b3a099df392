-- ===== src/Builder/Gen/Deleted.antt =====
-- src/cminusfc/cminusf_builder.cpp: what the deletions at the end of visit(ASTFunDeclaration) leave of the
-- state, in which the next function is generated.
use ustc_2021_compliers.Base.{
  ℕ, ◌≡◌, refl, ◌∙◌, Bool, true, false, Bool-cases, inl, inr, List, [], ◌∷◌, ok, ◌==◌, ==_iff, ap,
  arith, contains, remove, remove_all, IsDistinct, if◌then◌else◌, >>=-eq-ok,
}
use mathlib.Core.Path.{subst}
use ustc_2021_compliers.Ir.Heap.{Heap, Kind, remove_use, remove_use_of, remove_use_of_ops}
use ustc_2021_compliers.Ir.Heap.Operands.{Accurate-remove_use}
use ustc_2021_compliers.Ir.Create.{Code}
use ustc_2021_compliers.Ir.Create.Linked.{IsAccurate}
use ustc_2021_compliers.Ir.Create.Kept.{IsSound, Grows, Grows-refl, Grows-trans}
use ustc_2021_compliers.Builder.Gen.Cleanup.{
  is_terminator, delete_instr, cut_block, only_jumps, cut_blocks,
}

remove_use-IsAccurate : (h : Heap) (v user : ℕ) → IsAccurate h → IsAccurate (remove_use h v user)
unfolding remove_use
remove_use-IsAccurate h v user a = record {
  right = λ w. Accurate-remove_use h v user w (a.right w);
  null_unused = elim (Bool-cases (v == 0)) [
    | inl t ↦ rw (t, (==_iff v 0).0 t, a.null_unused) refl
    | inr f ↦ rw f a.null_unused
  ];
  bounded = a.bounded;
  fresh = a.fresh;
  positive = a.positive;
}

-- What a part of the clean-up keeps
abbrev Keeps : Code → Code → Type 0
Keeps c c' = (IsSound c → IsSound c') × Grows c c'

remove_use_of-IsAccurate :
    (vs : List ℕ) (h : Heap) (user : ℕ)
    → (IsAccurate h → IsAccurate (remove_use_of h vs user))
      × ((remove_use_of h vs user).next ≡ h.next)
      × ((remove_use_of h vs user).kind ≡ h.kind)
unfolding remove_use_of remove_use
remove_use_of-IsAccurate [] h user = (λ a. a, refl, refl)
remove_use_of-IsAccurate (v ∷ vs) h user =
    let (a, n, k) = remove_use_of-IsAccurate vs (remove_use h v user) user in
    (λ x. a (remove_use-IsAccurate h v user x), n, k)

delete_instr-Keeps : (c : Code) (b p : ℕ) → Keeps c (delete_instr c b p)
unfolding delete_instr remove_use_of_ops
delete_instr-Keeps c b p =
    let (a, n, k) = remove_use_of-IsAccurate (c.heap.operands p) c.heap p in
    (
      λ s. record {
        accurate = a s.accurate;
        interned = s.interned;
        typed = λ v lt. s.typed v (rw n at lt);
      },
      record {
        heap_le = rw n (omega arith);
        types_le = omega arith;
        type_same = λ v lt. refl;
        kind_same = λ v lt. ap (λ f. f v) k;
        shape_same = λ q lt. refl;
        return_same = refl;
        num_same = refl;
      },
    )

Keeps-trans : (c c1 c2 : Code) → Keeps c c1 → Keeps c1 c2 → Keeps c c2
Keeps-trans c c1 c2 k l = (λ s. l.0 (k.0 s), Grows-trans c c1 c2 k.1 l.1)

cut_block-Keeps :
    (ps : List ℕ) (c : Code) (b : ℕ) (end_of_bb : Bool) → Keeps c (cut_block c b ps end_of_bb)
unfolding cut_block
cut_block-Keeps [] c b end_of_bb = (λ s. s, Grows-refl c)
cut_block-Keeps (p ∷ ps) c b true =
    Keeps-trans c (delete_instr c b p) (cut_block (delete_instr c b p) b ps true)
      (delete_instr-Keeps c b p) (cut_block-Keeps ps (delete_instr c b p) b true)
cut_block-Keeps (p ∷ ps) c b false = cut_block-Keeps ps c b (is_terminator (c.heap.kind p))

-- The first loop of the clean-up keeps the state sound, with the objects and the types in it.
cut_blocks-Keeps :
    (bs : List ℕ) (c c' : Code) (empty_bbs : List ℕ)
    → cut_blocks c bs ≡ ok (c', empty_bbs)
    → Keeps c c'
unfolding cut_blocks
cut_blocks-Keeps [] c c' empty_bbs e =
    let same : c ≡ c' = cc in subst (Keeps c) same (λ s. s, Grows-refl c)
cut_blocks-Keeps (b ∷ bs) c c' empty_bbs e =
    let c1 : Code = cut_block c b (c.instr_list b) false in
    let (empty, e1, e2) = >>=-eq-ok (only_jumps c1 b) _ e in
    let (r, e3, e4) = >>=-eq-ok (cut_blocks c1 bs) _ e2 in
    let same : r.0 ≡ c' = cc e4 in
    Keeps-trans c c1 c' (cut_block-Keeps (c.instr_list b) c b false)
      (subst (Keeps c1) same (cut_blocks-Keeps bs c1 r.0 r.1 e3))

module _ (kind : ℕ → Kind) where
  -- What follows the first terminator
  abbrev after_terminator : List ℕ → List ℕ
  after_terminator [] = []
  after_terminator (p ∷ ps) =
      let rest = after_terminator ps in if is_terminator (kind p) then ps else rest

  -- The instructions up to the first terminator
  abbrev pub upto_terminator : List ℕ → List ℕ
  upto_terminator [] = []
  upto_terminator (p ∷ ps) =
      let rest = upto_terminator ps in if is_terminator (kind p) then p ∷ [] else p ∷ rest

remove-absent : (xs : List ℕ) (v : ℕ) → contains xs v ≡ false → remove xs v ≡ xs
remove-absent [] v n = refl
remove-absent (x ∷ xs) v n = ground (arith, remove-absent xs v)

remove_all-absent :
    (xs ys : List ℕ) (x : ℕ) → contains ys x ≡ false → remove_all (x ∷ xs) ys ≡ x ∷ remove_all xs ys
remove_all-absent xs [] x n = refl
remove_all-absent xs (y ∷ ys) x n =
    let other : (x == y) ≡ false = ground arith in
    rw other (remove_all-absent (remove xs y) ys x (ground arith))

remove_all-all : (xs : List ℕ) → IsDistinct xs → remove_all xs xs ≡ []
remove_all-all [] d = refl
remove_all-all (x ∷ xs) d = rw ((==_iff x x).1 refl, remove-absent xs x d.0) (remove_all-all xs d.1)

after-absent :
    (kind : ℕ → Kind) (ps : List ℕ) (x : ℕ)
    → contains ps x ≡ false
    → contains (after_terminator kind ps) x ≡ false
after-absent kind [] x n = refl
after-absent kind (p ∷ ps) x n = elim (Bool-cases (is_terminator (kind p))) [
  | inl t ↦ rw t (ground arith)
  | inr f ↦ rw f (after-absent kind ps x (ground arith))
]

remove_all-after :
    (kind : ℕ → Kind) (ps : List ℕ)
    → IsDistinct ps
    → remove_all ps (after_terminator kind ps) ≡ upto_terminator kind ps
remove_all-after kind [] d = refl
remove_all-after kind (p ∷ ps) d = elim (Bool-cases (is_terminator (kind p))) [
  | inl t ↦ rw t (remove_all-absent ps ps p d.0 ∙ ap (λ l. p ∷ l) (remove_all-all ps d.1))
  | inr f ↦ rw f (
      remove_all-absent ps (after_terminator kind ps) p (after-absent kind ps p d.0)
      ∙ ap (λ l. p ∷ l) (remove_all-after kind ps d.1))
]

cut_block-rest :
    (ps : List ℕ) (c : Code) (b : ℕ)
    → (cut_block c b ps true).instr_list b ≡ remove_all (c.instr_list b) ps
unfolding cut_block delete_instr
cut_block-rest [] c b = refl
cut_block-rest (p ∷ ps) c b =
    cut_block-rest ps (delete_instr c b p) b ∙ rw ((==_iff b b).1 refl) refl

cut_block-after :
    (ps : List ℕ) (c : Code) (b : ℕ)
    → (cut_block c b ps false).instr_list b
      ≡ remove_all (c.instr_list b) (after_terminator c.heap.kind ps)
unfolding cut_block
cut_block-after [] c b = refl
cut_block-after (p ∷ ps) c b = elim (Bool-cases (is_terminator (c.heap.kind p))) [
  | inl t ↦ ap (λ e. (cut_block c b ps e).instr_list b) t ∙ cut_block-rest ps c b ∙ rw t refl
  | inr f ↦ ap (λ e. (cut_block c b ps e).instr_list b) f ∙ cut_block-after ps c b ∙ rw f refl
]

cut_block-others :
    (ps : List ℕ) (c : Code) (b d : ℕ) (end_of_bb : Bool)
    → (b == d) ≡ false
    → (cut_block c b ps end_of_bb).instr_list d ≡ c.instr_list d
unfolding cut_block delete_instr
cut_block-others [] c b d end_of_bb n = refl
cut_block-others (p ∷ ps) c b d true n =
    cut_block-others ps (delete_instr c b p) b d true n ∙ rw n refl
cut_block-others (p ∷ ps) c b d false n =
    cut_block-others ps c b d (is_terminator (c.heap.kind p)) n

-- In a block whose instructions are distinct, the loop over them leaves the instructions up to the
-- first terminator, with it, in their order, and the instructions of every other block. A state whose
-- use lists have entries that name operands only, and whose types are interned, stays one, and all
-- objects keep their classes and types.
pub cut_block-upto_terminator :
    (c : Code) (b : ℕ)
    → IsDistinct (c.instr_list b)
    → ((cut_block c b (c.instr_list b) false).instr_list b
        ≡ upto_terminator c.heap.kind (c.instr_list b))
      × ((d : ℕ)
          → (b == d) ≡ false
          → (cut_block c b (c.instr_list b) false).instr_list d ≡ c.instr_list d)
      × (IsSound c → IsSound (cut_block c b (c.instr_list b) false))
      × Grows c (cut_block c b (c.instr_list b) false)
cut_block-upto_terminator c b d =
    let (sound, grows) = cut_block-Keeps (c.instr_list b) c b false in
    (
      cut_block-after (c.instr_list b) c b ∙ remove_all-after c.heap.kind (c.instr_list b) d,
      λ e n. cut_block-others (c.instr_list b) c b e false n,
      sound,
      grows,
    )
