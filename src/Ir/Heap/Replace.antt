-- ===== src/Ir/Heap/Replace.antt =====
-- Value::replace_all_use_with (src/lightir/Value.cpp): what it does to the operands of the users.
use Prim.Native.Nat.{zero, suc}
use mathlib.Core.Path.{subst}
use mathlib.Core.List.{append_assoc, append-nil}
use ustc_2021_compliers.Base.{
  ℕ, ◌<◌, ◌≡◌, ◌≢◌, ◌⊎◌, inl, inr, ◌∙◌, refl, sym, ap, Bool, true, false, ◌&&◌, ◌||◌, ◌++◌, Option,
  some, List, [], ◌∷◌, map, ok, ◌==◌, if◌then◌else◌, length, get_elem?, All, All-map, arith,
  >>=-eq-ok, Bool-cases, ==_iff, lt→ltb, Returns, >>=-Returns,
}
use ustc_2021_compliers.Ir.Heap.{
  Heap, Use, set, set_operand, replace_uses, replace_by_itself, replace_all_use_with,
}

get_elem?-set :
    {A : Type 0} (xs : List A) (i j : ℕ) (v : A)
    → i < length xs
    → get_elem? (set xs i v) j ≡ (if i == j then some v else get_elem? xs j)
get_elem?-set [] i j v h = elim h [ ]
get_elem?-set (x ∷ xs) zero zero v h = refl
get_elem?-set (x ∷ xs) zero (suc j) v h = ground arith
get_elem?-set (x ∷ xs) (suc i) zero v h = ground arith
get_elem?-set (x ∷ xs) (suc i) (suc j) v h = ground (arith, get_elem?-set xs i j v)

map-set :
    {A B : Type 0} (f : A → B) (xs : List A) (i : ℕ) (v w : A)
    → get_elem? xs i ≡ some w
    → f w ≡ f v
    → map f (set xs i v) ≡ map f xs
map-set f [] i v w h e = cc
map-set f (x ∷ xs) zero v w h e = ground arith
map-set f (x ∷ xs) (suc i) v w h e = ap (λ ys. f x ∷ ys) (map-set f xs i v w h e)

All-set :
    {A : Type 0} (P : A → Type 0) (xs : List A) (i : ℕ) (v : A)
    → P v
    → All P xs
    → All P (set xs i v)
All-set P [] i v p h = tt
All-set P (x ∷ xs) zero v p h = (p, h.1)
All-set P (x ∷ xs) (suc i) v p h = (h.0, All-set P xs i v p h.1)

length-set : {A : Type 0} (xs : List A) (i : ℕ) (v : A) → length (set xs i v) ≡ length xs
length-set [] i v = refl
length-set (x ∷ xs) zero v = refl
length-set (x ∷ xs) (suc i) v = ap suc (length-set xs i v)

pub get_elem?-lt-length :
    {A : Type 0} (xs : List A) (i : ℕ) (v : A) → get_elem? xs i ≡ some v → i < length xs
get_elem?-lt-length [] i v e = cc
get_elem?-lt-length (x ∷ xs) zero v e = omega arith
get_elem?-lt-length (x ∷ xs) (suc i) v e = omega (arith, get_elem?-lt-length xs i v e)

-- The operand that a use names.
abbrev pub slot : Heap → Use → Option ℕ
slot h u = get_elem? (h.operands u.val) u.arg_no

abbrev pub listed : List Use → Use → Bool
listed [] u = false
listed (x ∷ xs) u = let rest = listed xs u in ((x.val == u.val) && (x.arg_no == u.arg_no)) || rest

-- Every entry of the use list of `v` names an operand that is `v`.
abbrev pub Accurate : Heap → ℕ → Type 0
Accurate h v = All (λ u. slot h u ≡ some v) (h.use_list v)

-- Every operand is an object of the heap.
abbrev pub IsBounded : Heap → Type 0
IsBounded h = (u : ℕ) → All (λ p. p < h.next) (h.operands u)

-- The two heaps agree on the classes of the objects, and every user has operands of the same values.
pub record SameOperands {V : Type 0} (env : ℕ → V) (h h' : Heap) : Type 0 where
  pub kinds : h'.kind ≡ h.kind
  pub size : h'.next ≡ h.next
  pub values : (u : ℕ) → map env (h'.operands u) ≡ map env (h.operands u)

module _ (h h' : Heap) (user i v : ℕ) (done : set_operand h user i v ≡ ok h') where
  pub slot-set_operand :
      (u : Use) → slot h' u ≡ (if (user == u.val) && (i == u.arg_no) then some v else slot h u)
  unfolding set_operand
  slot-set_operand u = ground (arith, get_elem?-set (h.operands user) i u.arg_no v)

  pub use_list-set_operand : (w : ℕ) → v ≢ w → h'.use_list w ≡ h.use_list w
  unfolding set_operand
  use_list-set_operand w ne = ground arith

  use_list-set_new : h'.use_list v ≡ h.use_list v ++ record { val = user; arg_no = i } ∷ []
  unfolding set_operand
  use_list-set_new = ground (arith, (==_iff v v).1 refl)

  pub operands-set_operand :
      (u : ℕ) → h'.operands u ≡ (if user == u then set (h.operands user) i v else h.operands u)
  unfolding set_operand
  operands-set_operand u = ground arith

  pub next-set_operand : h'.next ≡ h.next
  unfolding set_operand
  next-set_operand = ground arith

  pub IsBounded-set_operand : v < h.next → IsBounded h → IsBounded h'
  IsBounded-set_operand lt b u = rw (operands-set_operand u, next-set_operand) (bound (user == u))
    where
      bound :
          (t : Bool) → All (λ p. p < h.next) (if t then set (h.operands user) i v else h.operands u)
      bound true = All-set (λ p. p < h.next) (h.operands user) i v lt (b user)
      bound false = b u

  set_operand-SameOperands :
      {V : Type 0} (env : ℕ → V) (w : ℕ)
      → slot h (record { val = user; arg_no = i }) ≡ some w
      → env w ≡ env v
      → SameOperands env h h'
  unfolding set_operand
  set_operand-SameOperands env w e p = record {
    kinds = ground arith;
    size = ground arith;
    values = λ u. ground (arith, map-set env (h.operands user) i v w);
  }

  -- The use list of a value that is neither the old operand nor the new one stays accurate.
  pub Accurate-set_operand :
      (w : ℕ)
      → v ≢ w
      → slot h (record { val = user; arg_no = i }) ≢ some w
      → Accurate h w
      → Accurate h' w
  Accurate-set_operand w ne kept a =
      rw (use_list-set_operand w ne)
        (All-map (h.use_list w) (λ u p. ground (arith, slot-set_operand u)) a)

-- The uses `us` are now uses of `v`: the operands that they name are `v`, no other operand is
-- another one, and they are the new entries of the use list of `v`, the only list with new entries.
pub record Moved (us : List Use) (v : ℕ) (h h' : Heap) : Type 0 where
  pub slots : (u : Use) → slot h' u ≡ (if listed us u then some v else slot h u)
  pub gained : h'.use_list v ≡ h.use_list v ++ us
  pub others : (w : ℕ) → v ≢ w → h'.use_list w ≡ h.use_list w

replace_uses-Moved :
    (us : List Use) (v : ℕ) (h h' : Heap) → replace_uses h us v ≡ ok h' → Moved us v h h'
unfolding replace_uses
replace_uses-Moved [] v h h' e =
    let same : h ≡ h' = cc in
    subst (Moved [] v h) same (record {
      slots = λ u. refl;
      gained = sym (append-nil (h.use_list v));
      others = λ w ne. refl;
    })
replace_uses-Moved (x ∷ us) v h h' e =
    let (h1, e1, e2) = >>=-eq-ok (set_operand h x.val x.arg_no v) _ e in
    let m = replace_uses-Moved us v h1 h' e2 in
    record {
      slots = λ u. m.slots u ∙ ground (arith, slot-set_operand h h1 x.val x.arg_no v e1 u);
      gained =
          m.gained
          ∙ ap (λ l. l ++ us) (use_list-set_new h h1 x.val x.arg_no v e1)
          ∙ append_assoc (h.use_list v) (x ∷ []) us;
      others = λ w ne. m.others w ne ∙ use_list-set_operand h h1 x.val x.arg_no v e1 w ne;
    }

replace_by_itself-Moved :
    (us : List Use) (v : ℕ) (h h' : Heap) → replace_by_itself h us ≡ ok h' → Moved us v h h'
unfolding replace_uses
replace_by_itself-Moved [] v h h' e = replace_uses-Moved [] v h h' e
replace_by_itself-Moved (_ ∷ _) v h h' e = cc

-- The whole loop. `old` has the value of `new_val`, and each entry names an operand that is one of
-- the two.
module _ {V : Type 0} (env : ℕ → V) (old new_val : ℕ) (same : env old ≡ env new_val) where
  abbrev IsEither : Heap → Use → Type 0
  IsEither h u = (slot h u ≡ some old) ⊎ (slot h u ≡ some new_val)

  pub record Replaced (h h' : Heap) : Type 0 where
    pub operands : SameOperands env h h'
    pub bounded : new_val < h.next → IsBounded h → IsBounded h'
    pub accurate : (w : ℕ) → old ≢ w → new_val ≢ w → Accurate h w → Accurate h' w

  IsEither-set_operand :
      (h h' : Heap) (user i : ℕ)
      → set_operand h user i new_val ≡ ok h'
      → (us : List Use) → All (IsEither h) us
      → All (IsEither h') us
  IsEither-set_operand h h' user i e us =
      All-map us (λ u p. ground (arith, slot-set_operand h h' user i new_val e u))

  Replaced-set_operand :
      (h h' : Heap) (user i : ℕ)
      → set_operand h user i new_val ≡ ok h'
      → IsEither h (record { val = user; arg_no = i })
      → Replaced h h'
  Replaced-set_operand h h' user i e (inl p) = record {
    operands = set_operand-SameOperands h h' user i new_val e env old p same;
    bounded = IsBounded-set_operand h h' user i new_val e;
    accurate = λ w a b. Accurate-set_operand h h' user i new_val e w b (λ q. ground arith);
  }
  Replaced-set_operand h h' user i e (inr p) = record {
    operands = set_operand-SameOperands h h' user i new_val e env new_val p refl;
    bounded = IsBounded-set_operand h h' user i new_val e;
    accurate = λ w a b. Accurate-set_operand h h' user i new_val e w b (λ q. ground arith);
  }

  Replaced-refl : (h : Heap) → Replaced h h
  Replaced-refl h = record {
    operands = record { kinds = refl; size = refl; values = λ u. refl };
    bounded = λ lt b. b;
    accurate = λ w a b x. x;
  }

  Replaced-trans : {h h' h'' : Heap} → Replaced h h' → Replaced h' h'' → Replaced h h''
  Replaced-trans r s = record {
    operands = record {
      kinds = s.operands.kinds ∙ r.operands.kinds;
      size = s.operands.size ∙ r.operands.size;
      values = λ u. s.operands.values u ∙ r.operands.values u;
    };
    bounded = λ lt b. s.bounded (rw r.operands.size lt) (r.bounded lt b);
    accurate = λ w a b x. s.accurate w a b (r.accurate w a b x);
  }

  replace_uses-Replaced :
      (us : List Use) (h h' : Heap)
      → replace_uses h us new_val ≡ ok h'
      → All (IsEither h) us
      → Replaced h h'
  unfolding replace_uses
  replace_uses-Replaced [] h h' e a = subst (λ k. Replaced h k) (cc) (Replaced-refl h)
  replace_uses-Replaced (u ∷ us) h h' e a =
      let (h1, e1, e2) = >>=-eq-ok (set_operand h u.val u.arg_no new_val) _ e in
      Replaced-trans (Replaced-set_operand h h1 u.val u.arg_no e1 a.0)
        (replace_uses-Replaced us h1 h' e2 (IsEither-set_operand h h1 u.val u.arg_no e1 us a.1))

  replace_by_itself-Replaced :
      (us : List Use) (h h' : Heap) → replace_by_itself h us ≡ ok h' → Replaced h h'
  replace_by_itself-Replaced [] h h' e = subst (λ k. Replaced h k) (cc) (Replaced-refl h)
  replace_by_itself-Replaced (_ ∷ _) h h' e = cc

  -- For an `old` and a `new_val` that `env` gives the same value: where the use list of `old` is
  -- accurate and `old->replace_all_use_with(new_val)` returns, each operand that an entry of the use
  -- list of `old` names is `new_val`, and no other operand is another one. These entries are added to
  -- the use list of `new_val`, all other use lists stay, that of `old` included. No object changes
  -- its class and none is created, so that every user has operands of the same values under `env` as
  -- before. Operands that were objects of the heap still are if `new_val` is one, and the use lists
  -- of all other values stay accurate.
  pub replace_all_use_with-Replaced :
      (h h' : Heap)
      → replace_all_use_with h old new_val ≡ ok h'
      → Accurate h old
      → Moved (h.use_list old) new_val h h' × Replaced h h'
  unfolding replace_all_use_with
  replace_all_use_with-Replaced h h' e a = elim (Bool-cases (old == new_val)) [
    | inl t ↦
        let done = rw t at e in
        (
          replace_by_itself-Moved (h.use_list old) new_val h h' done,
          replace_by_itself-Replaced (h.use_list old) h h' done,
        )
    | inr t ↦
        let done = rw t at e in
        (
          replace_uses-Moved (h.use_list old) new_val h h' done,
          replace_uses-Replaced (h.use_list old) h h' done
              (All-map (h.use_list old) (λ u p. inl p) a),
        )
  ]

abbrev InRange : Heap → Use → Type 0
InRange h u = u.arg_no < length (h.operands u.val)

set_operand-Returns :
    (h : Heap) (u : Use) (v : ℕ) → InRange h u → Returns (set_operand h u.val u.arg_no v)
unfolding set_operand
set_operand-Returns h u v lt = rw (lt→ltb u.arg_no (length (h.operands u.val)) lt) (_, refl)

replace_uses-Returns :
    (us : List Use) (h : Heap) (v : ℕ) → All (InRange h) us → Returns (replace_uses h us v)
unfolding replace_uses
replace_uses-Returns [] h v a = (h, refl)
replace_uses-Returns (u ∷ us) h v a =
    >>=-Returns (set_operand h u.val u.arg_no v) _ (set_operand-Returns h u v a.0) (λ h1 e.
      replace_uses-Returns us h1 v (
        All-map us
          (λ w lt. ground (
            arith,
            operands-set_operand h h1 u.val u.arg_no v e w.val,
            length-set (h.operands u.val) u.arg_no v,
          ))
          a.1))

-- Where the use list of `old` is accurate, replacing it by another value returns.
pub replace_all_use_with-Returns :
    (h : Heap) (old new_val : ℕ)
    → old ≢ new_val
    → Accurate h old
    → Returns (replace_all_use_with h old new_val)
unfolding replace_all_use_with
replace_all_use_with-Returns h old new_val ne a = elim (Bool-cases (old == new_val)) [
  | inl t ↦ absurd (ne ((==_iff old new_val).0 t))
  | inr t ↦ rw t (
      replace_uses-Returns (h.use_list old) h new_val
        (All-map (h.use_list old) (λ u e. get_elem?-lt-length (h.operands u.val) u.arg_no old e) a))
]
