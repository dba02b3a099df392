-- ===== src/Ir/Create/Created.antt =====
-- The constructors of src/lightir/Instruction.cpp, whole: the operands of a new instruction.
use Prim.Native.Nat.{zero, suc}
use mathlib.Core.Path.{subst}
use ustc_2021_compliers.Base.{
  ℕ, ◌+◌, ◌<◌, ◌≡◌, refl, ap, ◌∙◌, false, some, List, [], ◌∷◌, ◌++◌, ◌==◌, ==_iff, length,
  get_elem?, All, All-map, arith, ok, >>=-ok, lt→ltb,
}
use ustc_2021_compliers.Ir.Instruction.{OpId, CmpOp}
use ustc_2021_compliers.Ir.Heap.{Heap, Kind, Use, instruction, update, set, add_use, set_operand}
use ustc_2021_compliers.Ir.Heap.Replace.{
  slot, next-set_operand, operands-set_operand, get_elem?-lt-length,
}
use ustc_2021_compliers.Ir.Create.{Code, nulls, new_user, set_operands, new_instruction, create}
use ustc_2021_compliers.Ir.Create.Linked.{
  IsAccurate, IsComplete, IsLinked, set_operand-IsAccurate, set_operand-IsComplete,
  new_user-IsAccurate, new_user-IsComplete, operands-new_user, next-new_user, nulls-at, set_slot,
  other_slot,
}

-- A pointer to an object of the heap.
abbrev pub IsObject : Heap → ℕ → Type 0
IsObject h v = ((0 == v) ≡ false) × (v < h.next)

abbrev pub use_at : ℕ → ℕ → Use
use_at user i = record { val = user; arg_no = i }

set_operand-returns :
    (h : Heap) (user i v w : ℕ)
    → slot h (use_at user i) ≡ some w
    → (h' : Heap) × (set_operand h user i v ≡ ok h')
unfolding set_operand
set_operand-returns h user i v w e = (
  add_use (record h { operands = update h.operands user (set (h.operands user) i v) }) v
      (use_at user i),
  rw (lt→ltb i (length (h.operands user)) (get_elem?-lt-length (h.operands user) i w e)) refl,
)

-- The operands from the `i`-th are the values, and all others what they were.
pub record Filled (h : Heap) (user i : ℕ) (vs : List ℕ) (h' : Heap) : Type 0 where
  pub accurate : IsAccurate h'
  pub complete : IsComplete h → IsComplete h'
  pub size : h'.next ≡ h.next
  pub filled : (k : ℕ) → k < length vs → slot h' (use_at user (i + k)) ≡ get_elem? vs k
  pub earlier : (j : ℕ) → j < i → slot h' (use_at user j) ≡ slot h (use_at user j)
  pub elsewhere : (u : ℕ) → (user == u) ≡ false → h'.operands u ≡ h.operands u

set_operands-Filled :
    (user : ℕ) (vs : List ℕ) (i : ℕ) (h : Heap)
    → IsAccurate h
    → All (IsObject h) vs
    → ((k : ℕ) → k < length vs → slot h (use_at user (i + k)) ≡ some 0)
    → (h' : Heap) × (set_operands h user i vs ≡ ok h') × Filled h user i vs h'
unfolding set_operands
set_operands-Filled user [] i h linked a empty = (
  h,
  refl,
  record {
    accurate = linked;
    complete = λ c. c;
    size = refl;
    filled = λ k lt. absurd (omega (arith, lt));
    earlier = λ j lt. refl;
    elsewhere = λ u f. refl;
  },
)
set_operands-Filled user (v ∷ vs) i h linked a empty =
    let first : slot h (use_at user i) ≡ some 0 =
      subst (λ j. slot h (use_at user j) ≡ some 0) (omega arith) (empty 0 (omega arith)) in
    let (h1, e1) = set_operand-returns h user i v 0 first in
    let linked1 = set_operand-IsAccurate h h1 user i v linked first (a.0).0 (a.0).1 e1 in
    let same_size = next-set_operand h h1 user i v e1 in
    let (h2, e2, r) =
      set_operands-Filled user vs (suc i) h1 linked1
        (All-map vs (λ x o. (o.0, omega (arith, o.1, same_size))) a.1)
        (λ k lt.
          other_slot h h1 user i v linked first (a.0).0 (a.0).1 e1 (use_at user (suc i + k))
            (ground arith)
          ∙ subst (λ j. slot h (use_at user j) ≡ some 0) (omega arith)
              (empty (suc k) (omega (arith, lt)))) in
    (
      h2,
      >>=-ok (set_operand h user i v) (λ h1. set_operands h1 user (suc i) vs) e1 e2,
      record {
        accurate = r.accurate;
        complete = λ c.
            r.complete (set_operand-IsComplete h h1 user i v linked first (a.0).0 (a.0).1 e1 c);
        size = r.size ∙ same_size;
        filled = λ k lt. filled_all h1 h2 linked first (a.0) e1 r k lt;
        earlier = λ j lt.
            r.earlier j (omega (arith, lt))
            ∙ other_slot h h1 user i v linked first (a.0).0 (a.0).1 e1 (use_at user j)
                (ground (arith, lt));
        elsewhere = λ u f. r.elsewhere u f ∙ operands-set_operand h h1 user i v e1 u ∙ rw f refl;
      },
    )
  where
    filled_all :
        (h1 h2 : Heap)
        → IsAccurate h
        → slot h (use_at user i) ≡ some 0
        → IsObject h v
        → set_operand h user i v ≡ ok h1
        → Filled h1 user (suc i) vs h2
        → (k : ℕ) → k < length (v ∷ vs)
        → slot h2 (use_at user (i + k)) ≡ get_elem? (v ∷ vs) k
    filled_all h1 h2 linked first o e1 r zero lt =
        subst (λ j. slot h2 (use_at user j) ≡ some v) (omega arith)
          (r.earlier i (omega arith)
            ∙ set_slot h h1 user i v linked first o.0 o.1 e1 (use_at user i)
                (ground (arith, (==_iff user user).1 refl, (==_iff i i).1 refl)))
    filled_all h1 h2 linked first o e1 r (suc k) lt =
        subst (λ j. slot h2 (use_at user j) ≡ get_elem? vs k) (omega arith)
          (r.filled k (omega (arith, lt)))

-- What the creation of an instruction leaves: the new object, its operands, and all others as before.
pub record Added (c : Code) (vals : List ℕ) (bb : ℕ) (r : Code × ℕ) : Type 0 where
  pub accurate : IsAccurate r.0.heap
  pub complete : IsComplete c.heap → IsComplete r.0.heap
  pub is_next : r.1 ≡ c.heap.next
  pub has_operands : (k : ℕ) → k < length vals → slot r.0.heap (use_at r.1 k) ≡ get_elem? vals k
  pub others_keep : (u : ℕ) → (r.1 == u) ≡ false → r.0.heap.operands u ≡ c.heap.operands u
  pub is_last : r.0.instr_list bb ≡ c.instr_list bb ++ r.1 ∷ []

-- The same, with operands and use lists in step
pub record Created (c : Code) (vals : List ℕ) (bb : ℕ) (r : Code × ℕ) : Type 0 where
  pub linked : IsLinked r.0.heap
  pub is_next : r.1 ≡ c.heap.next
  pub has_operands : (k : ℕ) → k < length vals → slot r.0.heap (use_at r.1 k) ≡ get_elem? vals k
  pub others_keep : (u : ℕ) → (r.1 == u) ≡ false → r.0.heap.operands u ≡ c.heap.operands u
  pub is_last : r.0.instr_list bb ≡ c.instr_list bb ++ r.1 ∷ []

-- Entries of use lists that name operands still do.
pub create-Added :
    (c : Code) (op : OpId) (cmp_op : CmpOp) (ty : ℕ) (vals : List ℕ) (bb : ℕ)
    → IsAccurate c.heap
    → All (IsObject c.heap) vals
    → (r : Code × ℕ) × (create c op cmp_op ty vals bb ≡ ok r) × Added c vals bb r
unfolding create new_instruction
create-Added c op cmp_op ty vals bb linked objects =
    let k : Kind = instruction op cmp_op in
    let n : ℕ = length vals in
    let p : ℕ = c.heap.next in
    let new_operands : (new_user c.heap k n).operands p ≡ nulls n =
      operands-new_user c.heap k n linked p ∙ rw ((==_iff p p).1 refl) refl in
    let (h, e, f) =
      set_operands-Filled p vals 0 (new_user c.heap k n) (new_user-IsAccurate c.heap k n linked)
        (All-map vals (λ x o. (o.0, omega (arith, o.1, next-new_user c.heap k n linked))) objects)
        (λ j lt.
          ap (λ xs. get_elem? xs (0 + j)) new_operands ∙ nulls-at n (0 + j) (omega (arith, lt))) in
    let made : Code = record c {
      heap = h;
      type_of = update c.type_of p ty;
      instr_list = update c.instr_list bb (c.instr_list bb ++ p ∷ []);
    } in
    (
      (made, p),
      rw e refl,
      record {
        accurate = f.accurate;
        complete = λ complete. f.complete (new_user-IsComplete c.heap k n linked complete);
        is_next = refl;
        has_operands = λ j lt.
            subst (λ x. slot h (use_at p x) ≡ get_elem? vals j) (omega arith) (f.filled j lt);
        others_keep = λ u g. f.elsewhere u g ∙ operands-new_user c.heap k n linked u ∙ rw g refl;
        is_last = rw ((==_iff bb bb).1 refl) refl;
      },
    )

-- In a module whose operands and use lists are in step, the creation of an instruction with objects
-- of the module as operands returns; they are in step afterwards, the instruction has the given
-- operands and is the last of its block, and the operands of all others are what they were.
pub create-Created :
    (c : Code) (op : OpId) (cmp_op : CmpOp) (ty : ℕ) (vals : List ℕ) (bb : ℕ)
    → IsLinked c.heap
    → All (IsObject c.heap) vals
    → (r : Code × ℕ) × (create c op cmp_op ty vals bb ≡ ok r) × Created c vals bb r
create-Created c op cmp_op ty vals bb linked objects =
    let (r, e, a) = create-Added c op cmp_op ty vals bb linked.accurate objects in
    (
      r,
      e,
      record {
        linked = record { accurate = a.accurate; complete = a.complete linked.complete };
        is_next = a.is_next;
        has_operands = a.has_operands;
        others_keep = a.others_keep;
        is_last = a.is_last;
      },
    )
