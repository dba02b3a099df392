-- ===== src/Ir/Create/Linked.antt =====
-- The creation of an instruction (src/lightir/Instruction.cpp) keeps operands and use lists in step.
use Prim.Native.Nat.{zero, suc}
use mathlib.Core.Path.{subst}
use ustc_2021_compliers.Base.{
  ℕ, ◌<◌, ◌≤◌, ◌≡◌, refl, sym, ap, ◌∙◌, Bool, Bool-cases, inl, inr, ◌⊎◌, true, false, ◌&&◌, some,
  List, [], ◌∷◌, ◌++◌, ◌==◌, ==_iff, if◌then◌else◌, get_elem?, All, All-map, All-append, arith, ok,
}
use ustc_2021_compliers.Ir.Heap.{Heap, Kind, Use, set_operand}
use ustc_2021_compliers.Ir.Heap.Replace.{
  slot, listed, Accurate, IsBounded, slot-set_operand, use_list-set_operand, operands-set_operand,
  next-set_operand, IsBounded-set_operand,
}
use ustc_2021_compliers.Ir.Create.{nulls, new_user}

listed-append_old : (xs ys : List Use) (u : Use) → listed xs u ≡ true → listed (xs ++ ys) u ≡ true
listed-append_old [] ys u e = cc
listed-append_old (x ∷ xs) ys u e = ground (arith, listed-append_old xs ys u)

listed-append_new :
    (xs : List Use) (y u : Use)
    → (y.val == u.val) ≡ true
    → (y.arg_no == u.arg_no) ≡ true
    → listed (xs ++ y ∷ []) u ≡ true
listed-append_new [] y u e f = ground arith
listed-append_new (x ∷ xs) y u e f = ground (arith, listed-append_new xs y u e f)

-- What use lists always are: their entries name operands that are the value. The operands of a
-- deleted instruction stay, without entries.
pub record IsAccurate (h : Heap) : Type 0 where
  pub right : (v : ℕ) → Accurate h v
  pub null_unused : h.use_list 0 ≡ []
  pub bounded : IsBounded h
  pub fresh : (u : ℕ) → h.next ≤ u → h.operands u ≡ []
  pub positive : 0 < h.next

-- An operand that is not null is in the use list of its value.
abbrev pub IsComplete : Heap → Type 0
IsComplete h =
    (u : Use) (v : ℕ) → slot h u ≡ some v → (0 == v) ≡ false → listed (h.use_list v) u ≡ true

-- Operands and use lists say the same, as long as no instruction is deleted.
pub record IsLinked (h : Heap) : Type 0 where
  pub accurate : IsAccurate h
  pub complete : IsComplete h

All-get : (P : ℕ → Type 0) (xs : List ℕ) (i v : ℕ) → All P xs → get_elem? xs i ≡ some v → P v
All-get P [] i v a e = cc
All-get P (x ∷ xs) zero v a e = let same : x ≡ v = cc in subst P same a.0
All-get P (x ∷ xs) (suc i) v a e = All-get P xs i v a.1 e

nulls-null : (n i v : ℕ) → get_elem? (nulls n) i ≡ some v → (0 == v) ≡ true
nulls-null zero i v e = cc
nulls-null (suc n) zero v e = let same : 0 ≡ v = cc in (==_iff 0 v).1 same
nulls-null (suc n) (suc i) v e = nulls-null n i v e

pub nulls-at : (n i : ℕ) → i < n → get_elem? (nulls n) i ≡ some 0
nulls-at zero i lt = absurd (omega (arith, lt))
nulls-at (suc n) zero lt = refl
nulls-at (suc n) (suc i) lt = nulls-at n i (omega (arith, lt))

nulls-bound : (n m : ℕ) → 0 < m → All (λ p. p < m) (nulls n)
nulls-bound zero m lt = tt
nulls-bound (suc n) m lt = (lt, nulls-bound n m lt)

module _ (h : Heap) (k : Kind) (n : ℕ) (linked : IsAccurate h) where
  pub operands-new_user :
      (u : ℕ) → (new_user h k n).operands u ≡ (if h.next == u then nulls n else h.operands u)
  unfolding new_user
  operands-new_user u = refl

  use_list-new_user :
      (v : ℕ) → (new_user h k n).use_list v ≡ (if h.next == v then [] else h.use_list v)
  unfolding new_user
  use_list-new_user v = refl

  use_list_new : (v : ℕ) → (h.next == v) ≡ true → (new_user h k n).use_list v ≡ []
  use_list_new v t = use_list-new_user v ∙ rw t refl

  use_list_same : (v : ℕ) → (h.next == v) ≡ false → (new_user h k n).use_list v ≡ h.use_list v
  use_list_same v f = use_list-new_user v ∙ rw f refl

  pub next-new_user : (new_user h k n).next ≡ suc h.next
  unfolding new_user
  next-new_user = refl

  -- The other users keep their operands.
  slot-new_user : (u : Use) (v : ℕ) → slot h u ≡ some v → slot (new_user h k n) u ≡ some v
  slot-new_user u v e = elim (Bool-cases (h.next == u.val)) [
    | inl t ↦
        let empty : h.operands u.val ≡ [] =
          linked.fresh u.val (omega (arith, (==_iff h.next u.val).0 t)) in
        absurd (cc (e, ap (λ xs. get_elem? xs u.arg_no) empty))
    | inr f ↦ rw (operands-new_user u.val, f) e
  ]

  slot_old :
      (u : Use) (v : ℕ) → slot (new_user h k n) u ≡ some v → (0 == v) ≡ false → slot h u ≡ some v
  slot_old u v e z = elim (Bool-cases (h.next == u.val)) [
    | inl t ↦
        let at_new : get_elem? (nulls n) u.arg_no ≡ some v =
          sym (ap (λ xs. get_elem? xs u.arg_no) (operands-new_user u.val ∙ rw t refl)) ∙ e in
        absurd (cc (z, nulls-null n u.arg_no v at_new))
    | inr f ↦ sym (ap (λ xs. get_elem? xs u.arg_no) (operands-new_user u.val ∙ rw f refl)) ∙ e
  ]

  below_next : (u : Use) (v : ℕ) → slot h u ≡ some v → (h.next == v) ≡ false
  below_next u v e =
      let lt : v < h.next =
        All-get (λ p. p < h.next) (h.operands u.val) u.arg_no v (linked.bounded u.val) e in
      ground (arith, lt)

  pub new_user-IsAccurate : IsAccurate (new_user h k n)
  new_user-IsAccurate = record {
    right = λ v. elim (Bool-cases (h.next == v)) [
      | inl t ↦ subst (All (λ u. slot (new_user h k n) u ≡ some v)) (sym (use_list_new v t)) tt
      | inr f ↦
          subst (All (λ u. slot (new_user h k n) u ≡ some v)) (sym (use_list_same v f))
            (All-map (h.use_list v) (λ u e. slot-new_user u v e) (linked.right v))
    ];
    null_unused = use_list-new_user 0 ∙ ground (arith, linked.null_unused);
    bounded = λ u.
        subst (All (λ p. p < (new_user h k n).next)) (sym (operands-new_user u))
          (all_below u (Bool-cases (h.next == u)));
    fresh = λ u le.
        operands-new_user u
        ∙ ground (arith, linked.fresh u (omega (arith, le, next-new_user)), le, next-new_user);
    positive = omega (arith, next-new_user);
  }
    where
      all_below :
          (u : ℕ)
          → ((h.next == u) ≡ true) ⊎ ((h.next == u) ≡ false)
          → All (λ p. p < (new_user h k n).next) (if h.next == u then nulls n else h.operands u)
      all_below u (inl t) =
          rw t (nulls-bound n (new_user h k n).next (omega (arith, next-new_user)))
      all_below u (inr f) =
          rw f
            (All-map (h.operands u) (λ p lt. omega (arith, lt, next-new_user)) (linked.bounded u))

  pub new_user-IsComplete : IsComplete h → IsComplete (new_user h k n)
  new_user-IsComplete complete u v e z =
      let old = slot_old u v e z in
      subst (λ us. listed us u ≡ true) (sym (use_list_same v (below_next u v old)))
        (complete u v old z)

-- A null operand is set.
module _ (h h' : Heap) (user i v : ℕ) (linked : IsAccurate h)
    (empty : slot h (record { val = user; arg_no = i }) ≡ some 0) (object : (0 == v) ≡ false)
    (lt : v < h.next) (done : set_operand h user i v ≡ ok h') where
  added_use : h'.use_list v ≡ h.use_list v ++ record { val = user; arg_no = i } ∷ []
  unfolding set_operand
  added_use = ground (arith, (==_iff v v).1 refl)

  other_use : (w : ℕ) → (v == w) ≡ false → h'.use_list w ≡ h.use_list w
  other_use w f = use_list-set_operand h h' user i v done w (λ e. cc (f, (==_iff v w).1 e))

  not_zero : (v == 0) ≡ false
  not_zero = ground (arith, object)

  -- The operand that is set.
  abbrev pub is_slot : Use → Bool
  is_slot u = (user == u.val) && (i == u.arg_no)

  was_empty : (u : Use) → is_slot u ≡ true → slot h u ≡ some 0
  was_empty u t =
      subst (λ a. get_elem? (h.operands a) u.arg_no ≡ some 0) ((==_iff user u.val).0 (ground arith))
        (subst (λ j. get_elem? (h.operands user) j ≡ some 0) ((==_iff i u.arg_no).0 (ground arith))
          empty)

  pub set_slot : (u : Use) → is_slot u ≡ true → slot h' u ≡ some v
  set_slot u t = slot-set_operand h h' user i v done u ∙ rw t refl

  pub other_slot : (u : Use) → is_slot u ≡ false → slot h' u ≡ slot h u
  other_slot u f = slot-set_operand h h' user i v done u ∙ rw f refl

  kept_slot : (u : Use) (w : ℕ) → slot h u ≡ some w → (0 == w) ≡ false → slot h' u ≡ some w
  kept_slot u w e z = elim (Bool-cases (is_slot u)) [
    | inl t ↦ let same : 0 ≡ w = cc (was_empty u t, e) in absurd (cc (z, (==_iff 0 w).1 same))
    | inr f ↦ other_slot u f ∙ e
  ]

  this_slot : is_slot (record { val = user; arg_no = i }) ≡ true
  this_slot = ground (arith, (==_iff user user).1 refl, (==_iff i i).1 refl)

  right-set : (w : ℕ) → ((v == w) ≡ true) ⊎ ((v == w) ≡ false) → Accurate h' w
  right-set w (inl t) = subst (Accurate h') ((==_iff v w).0 t) (
      subst (All (λ u. slot h' u ≡ some v)) (sym added_use) (
        All-append (λ u. slot h' u ≡ some v) (h.use_list v) (record { val = user; arg_no = i } ∷ [])
          (All-map (h.use_list v) (λ u e. kept_slot u v e object) (linked.right v))
          (set_slot (record { val = user; arg_no = i }) this_slot, tt)))
  right-set w (inr f) =
      subst (All (λ u. slot h' u ≡ some w)) (sym (other_use w f)) (elim (Bool-cases (0 == w)) [
        | inl z ↦
            subst (λ x. All (λ u. slot h' u ≡ some w) (h.use_list x)) ((==_iff 0 w).0 z)
              (subst (All (λ u. slot h' u ≡ some w)) (sym linked.null_unused) tt)
        | inr z ↦ All-map (h.use_list w) (λ u e. kept_slot u w e z) (linked.right w)
      ])

  still_listed :
      (w : ℕ) (u : Use) → listed (h.use_list w) u ≡ true → listed (h'.use_list w) u ≡ true
  still_listed w u e = elim (Bool-cases (v == w)) [
    | inl t ↦
        let same : v ≡ w = (==_iff v w).0 t in
        subst (λ x. listed (h'.use_list x) u ≡ true) same
          (ap (λ us. listed us u) added_use
            ∙ listed-append_old (h.use_list v) (record { val = user; arg_no = i } ∷ []) u
                (subst (λ x. listed (h.use_list x) u ≡ true) (sym same) e))
    | inr f ↦ ap (λ us. listed us u) (other_use w f) ∙ e
  ]

  newly_listed : (u : Use) → is_slot u ≡ true → listed (h'.use_list v) u ≡ true
  newly_listed u t =
      ap (λ us. listed us u) added_use
      ∙ listed-append_new (h.use_list v) (record { val = user; arg_no = i }) u (ground arith)
          (ground arith)

  pub set_operand-IsAccurate : IsAccurate h'
  set_operand-IsAccurate = record {
    right = λ w. right-set w (Bool-cases (v == w));
    null_unused = other_use 0 not_zero ∙ linked.null_unused;
    bounded = IsBounded-set_operand h h' user i v done lt linked.bounded;
    fresh = λ u le.
        let none_there : h.operands u ≡ [] =
          linked.fresh u (omega (arith, le, next-set_operand h h' user i v done)) in
        operands-set_operand h h' user i v done u ∙ elim (Bool-cases (user == u)) [
          | inl t ↦
              let gone : get_elem? (h.operands u) i ≡ some 0 =
                subst (λ a. get_elem? (h.operands a) i ≡ some 0) ((==_iff user u).0 t) empty in
              absurd (cc (gone, ap (λ xs. get_elem? xs i) none_there))
          | inr f ↦ rw f none_there
        ];
    positive = omega (arith, linked.positive, next-set_operand h h' user i v done);
  }

  pub set_operand-IsComplete : IsComplete h → IsComplete h'
  set_operand-IsComplete complete u w e z = elim (Bool-cases (is_slot u)) [
    | inl t ↦
        let same : v ≡ w = cc (set_slot u t, e) in
        subst (λ x. listed (h'.use_list x) u ≡ true) same (newly_listed u t)
    | inr f ↦ still_listed w u (complete u w (sym (other_slot u f) ∙ e) z)
  ]
