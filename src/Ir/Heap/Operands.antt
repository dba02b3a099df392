-- ===== src/Ir/Heap/Operands.antt =====
-- User::set_operand and User::add_operand (src/lightir/User.cpp) and the use lists.
use Prim.Native.Nat.{zero, suc}
use mathlib.Core.Path.{subst}
use ustc_2021_compliers.Base.{
  ℕ, ◌≡◌, refl, Bool-cases, inl, inr, false, if◌then◌else◌, some, List, [], ◌∷◌, ◌++◌, ◌==◌, ==_iff,
  length, get_elem?, All, All-map, All-append, arith,
}
use ustc_2021_compliers.Ir.Heap.{Heap, Use, add_operand, without_user, remove_use}
use ustc_2021_compliers.Ir.Heap.Replace.{slot, Accurate}

get_elem?-append :
    {A : Type 0} (xs : List A) (i : ℕ) (v w : A)
    → get_elem? xs i ≡ some w
    → get_elem? (xs ++ v ∷ []) i ≡ some w
get_elem?-append [] i v w e = cc
get_elem?-append (x ∷ xs) zero v w e = e
get_elem?-append (x ∷ xs) (suc i) v w e = get_elem?-append xs i v w e

get_elem?-last : {A : Type 0} (xs : List A) (v : A) → get_elem? (xs ++ v ∷ []) (length xs) ≡ some v
get_elem?-last [] v = refl
get_elem?-last (x ∷ xs) v = get_elem?-last xs v

module _ (h : Heap) (user v : ℕ) where
  slot-add_operand : (u : Use) (w : ℕ) → slot h u ≡ some w → slot (add_operand h user v) u ≡ some w
  unfolding add_operand
  slot-add_operand u w e = ground (arith, get_elem?-append (h.operands user) u.arg_no v w)

  slot-added :
      slot (add_operand h user v) (record { val = user; arg_no = length (h.operands user) })
      ≡ some v
  unfolding add_operand
  slot-added = ground (arith, get_elem?-last (h.operands user) v)

  kept :
      (w : ℕ) (us : List Use)
      → All (λ u. slot h u ≡ some w) us
      → All (λ u. slot (add_operand h user v) u ≡ some w) us
  kept w us = All-map us (λ u e. slot-add_operand u w e)

  Accurate-added : Accurate h v → Accurate (add_operand h user v) v
  unfolding add_operand
  Accurate-added a = rw ((==_iff v v).1 refl) (
      All-append (λ u. slot (add_operand h user v) u ≡ some v) (h.use_list v)
        (record { val = user; arg_no = length (h.operands user) } ∷ []) (kept v (h.use_list v) a)
        (slot-added, tt))

  Accurate-others : (w : ℕ) → (v == w) ≡ false → Accurate h w → Accurate (add_operand h user v) w
  unfolding add_operand
  Accurate-others w e a = rw e (kept w (h.use_list w) a)

  operands-added :
      (u : ℕ)
      → (add_operand h user v).operands u
        ≡ (if user == u then h.operands user ++ v ∷ [] else h.operands u)
  unfolding add_operand
  operands-added u = refl

  use_list-added :
      (w : ℕ)
      → (add_operand h user v).use_list w ≡ (
          if v == w
          then h.use_list v ++ record { val = user; arg_no = length (h.operands user) } ∷ []
          else h.use_list w)
  unfolding add_operand
  use_list-added w = refl

  -- User::add_operand puts the value after the other operands of the user and leaves the operands of
  -- other users. The use list of the value gets one entry, at its end, for the user and the place of
  -- the new operand, and the other use lists stay. Every use list whose entries name operands that
  -- are its value is so afterwards, that of the new operand with its new entry included.
  pub add_operand-Accurate :
      ((u : ℕ)
        → (add_operand h user v).operands u
          ≡ (if user == u then h.operands user ++ v ∷ [] else h.operands u))
      × ((w : ℕ)
          → (add_operand h user v).use_list w ≡ (
              if v == w
              then h.use_list v ++ record { val = user; arg_no = length (h.operands user) } ∷ []
              else h.use_list w))
      × ((w : ℕ) → Accurate h w → Accurate (add_operand h user v) w)
  add_operand-Accurate = (
    operands-added,
    use_list-added,
    λ w a. elim (Bool-cases (v == w)) [
      | inl t ↦
          subst (λ x. Accurate h x → Accurate (add_operand h user v) x) ((==_iff v w).0 t)
            Accurate-added a
      | inr f ↦ Accurate-others w f a
    ],
  )

-- Value::remove_use
All-without_user : (P : Use → Type 0) (us : List Use) (p : ℕ) → All P us → All P (without_user us p)
All-without_user P [] p a = tt
All-without_user P (u ∷ us) p a = elim (Bool-cases (u.val == p)) [
  | inl e ↦ rw e (All-without_user P us p a.1)
  | inr e ↦ rw e (a.0, All-without_user P us p a.1)
]

pub Accurate-remove_use :
    (h : Heap) (v user w : ℕ) → Accurate h w → Accurate (remove_use h v user) w
unfolding remove_use
Accurate-remove_use h v user w a = elim (Bool-cases (v == w)) [
  | inl e ↦
      rw e (All-without_user (λ u. slot h u ≡ some w) (h.use_list v) user (rw ((==_iff v w).0 e) a))
  | inr e ↦ rw e a
]
