-- ===== src/Ir/Create/Kept.antt =====
-- What the objects of a module keep while instructions are created (src/lightir/Instruction.cpp).
use mathlib.Core.Path.{subst}
use ustc_2021_compliers.Base.{
  ℕ, suc, ◌<◌, ◌≤◌, ◌≡◌, refl, ap, ◌∙◌, Bool-cases, inl, inr, List, [], ◌++◌, ◌∷◌, ◌==◌, ==_iff,
  length, All, arith, ok, >>=-eq-ok,
}
use ustc_2021_compliers.Ir.Instruction.{OpId, CmpOp}
use ustc_2021_compliers.Ir.Heap.{Heap, instruction, update, set_operand}
use ustc_2021_compliers.Ir.Heap.Replace.{next-set_operand}
use ustc_2021_compliers.Ir.Types.Interned.{IsInterned}
use ustc_2021_compliers.Ir.Create.{Code, new_user, set_operands, new_instruction, create}
use ustc_2021_compliers.Ir.Create.Linked.{IsAccurate}
use ustc_2021_compliers.Ir.Create.Created.{IsObject, Added, create-Added}

-- The entries of use lists name operands, each type is one object, and the objects have types of the module.
pub record IsSound (c : Code) : Type 0 where
  pub accurate : IsAccurate c.heap
  pub interned : IsInterned c.types
  pub typed : (v : ℕ) → v < c.heap.next → c.type_of v < c.types.next

-- What was there is there still, with its class and its type.
pub record Grows (c c' : Code) : Type 0 where
  pub heap_le : c.heap.next ≤ c'.heap.next
  pub types_le : c.types.next ≤ c'.types.next
  pub type_same : (v : ℕ) → v < c.heap.next → c'.type_of v ≡ c.type_of v
  pub kind_same : (v : ℕ) → v < c.heap.next → c'.heap.kind v ≡ c.heap.kind v
  pub shape_same : (p : ℕ) → p < c.types.next → c'.types.shape p ≡ c.types.shape p
  pub return_same : c'.return_type ≡ c.return_type
  pub num_same : c'.num_of_args ≡ c.num_of_args

pub Grows-refl : (c : Code) → Grows c c
Grows-refl c = record {
  heap_le = omega arith;
  types_le = omega arith;
  type_same = λ v lt. refl;
  kind_same = λ v lt. refl;
  shape_same = λ p lt. refl;
  return_same = refl;
  num_same = refl;
}

pub Grows-trans : (a b c : Code) → Grows a b → Grows b c → Grows a c
Grows-trans a b c g h = record {
  heap_le = omega (arith, g.heap_le, h.heap_le);
  types_le = omega (arith, g.types_le, h.types_le);
  type_same = λ v lt. h.type_same v (omega (arith, lt, g.heap_le)) ∙ g.type_same v lt;
  kind_same = λ v lt. h.kind_same v (omega (arith, lt, g.heap_le)) ∙ g.kind_same v lt;
  shape_same = λ p lt. h.shape_same p (omega (arith, lt, g.types_le)) ∙ g.shape_same p lt;
  return_same = h.return_same ∙ g.return_same;
  num_same = h.num_same ∙ g.num_same;
}

pub IsObject-Grows : (c c' : Code) → Grows c c' → (v : ℕ) → IsObject c.heap v → IsObject c'.heap v
IsObject-Grows c c' g v o = (o.0, omega (arith, o.1, g.heap_le))

kind-set_operand : (h h' : Heap) (user i v : ℕ) → set_operand h user i v ≡ ok h' → h'.kind ≡ h.kind
unfolding set_operand
kind-set_operand h h' user i v e = ground arith

set_operands-keeps :
    (user : ℕ) (vs : List ℕ) (i : ℕ) (h h' : Heap)
    → set_operands h user i vs ≡ ok h'
    → (h'.next ≡ h.next) × (h'.kind ≡ h.kind)
unfolding set_operands
set_operands-keeps user [] i h h' e = (ground arith, ground arith)
set_operands-keeps user (v ∷ vs) i h h' e =
    let (h1, e1, e2) =
      >>=-eq-ok (set_operand h user i v) (λ h1. set_operands h1 user (suc i) vs) e in
    let (n, k) = set_operands-keeps user vs (suc i) h1 h' e2 in
    (n ∙ next-set_operand h h1 user i v e1, k ∙ kind-set_operand h h1 user i v e1)

-- The new code, but for its heap
pub record Extended (c : Code) (ty : ℕ) (r : Code × ℕ) : Type 0 where
  pub size : r.0.heap.next ≡ suc c.heap.next
  pub kinds : (v : ℕ) → v < c.heap.next → r.0.heap.kind v ≡ c.heap.kind v
  pub types : r.0.types ≡ c.types
  pub type_of : r.0.type_of ≡ update c.type_of c.heap.next ty
  pub return_type : r.0.return_type ≡ c.return_type
  pub num_of_args : r.0.num_of_args ≡ c.num_of_args

create-Extended :
    (c : Code) (op : OpId) (cmp_op : CmpOp) (ty : ℕ) (vals : List ℕ) (bb : ℕ) (r : Code × ℕ)
    → create c op cmp_op ty vals bb ≡ ok r
    → Extended c ty r
unfolding create new_instruction new_user
create-Extended c op cmp_op ty vals bb r e =
    let start : Heap = new_user c.heap (instruction op cmp_op) (length vals) in
    let (r1, e1, f1) =
      >>=-eq-ok (new_instruction c op cmp_op ty vals)
        (λ r1. ok (
          record (r1.0) { instr_list = update c.instr_list bb (c.instr_list bb ++ r1.1 ∷ []) },
          r1.1,
        ))
        e in
    let (h, e2, f2) =
      >>=-eq-ok (set_operands start c.heap.next 0 vals)
        (λ h. ok (record c { heap = h; type_of = update c.type_of c.heap.next ty }, c.heap.next))
        e1 in
    let (size, kinds) = set_operands-keeps c.heap.next vals 0 start h e2 in
    let made : Code = record c {
      heap = h;
      type_of = update c.type_of c.heap.next ty;
      instr_list = update c.instr_list bb (c.instr_list bb ++ c.heap.next ∷ []);
    } in
    let same : (made, c.heap.next) ≡ r = cc (f1, f2) in
    subst (Extended c ty) same (record {
      size = size;
      kinds = λ v lt. ap (λ k. k v) kinds ∙ ground arith;
      types = refl;
      type_of = refl;
      return_type = refl;
      num_of_args = refl;
    })

-- A new object `v` of the type `ty`
pub record Gives (c : Code) (ty : ℕ) (c' : Code) (v : ℕ) : Type 0 where
  pub sound : IsSound c'
  pub grows : Grows c c'
  pub object : IsObject c'.heap v
  pub typed : c'.type_of v ≡ ty

module _ (c : Code) (sound : IsSound c) (ty : ℕ) (known : ty < c.types.next) where
  create-Gives_all :
      (vals : List ℕ) (bb : ℕ) (r : Code × ℕ)
      → Added c vals bb r
      → Extended c ty r
      → Gives c ty r.0 r.1
  create-Gives_all vals bb r made e = record {
    sound = record {
      accurate = made.accurate;
      interned = rw e.types sound.interned;
      typed = λ v lt.
          rw (e.type_of, e.types)
            (elim (Bool-cases (c.heap.next == v)) [
              | inl t ↦ rw t known
              | inr f ↦ rw f (sound.typed v (ground (arith, e.size, lt)))
            ]);
    };
    grows = record {
      heap_le = omega (arith, e.size);
      types_le = rw e.types (omega arith);
      type_same = λ v lt. ap (λ t. t v) e.type_of ∙ ground (arith, lt);
      kind_same = e.kinds;
      shape_same = λ p lt. rw e.types refl;
      return_same = e.return_type;
      num_same = e.num_of_args;
    };
    object = rw made.is_next (ground (arith, sound.accurate.positive), omega (arith, e.size));
    typed = rw (e.type_of, made.is_next, (==_iff c.heap.next c.heap.next).1 refl) refl;
  }

  -- The creation of an instruction with objects of the module as operands.
  pub create-Gives :
      (op : OpId) (cmp_op : CmpOp) (vals : List ℕ) (bb : ℕ)
      → All (IsObject c.heap) vals
      → (r : Code × ℕ) × (create c op cmp_op ty vals bb ≡ ok r) × Gives c ty r.0 r.1
  create-Gives op cmp_op vals bb objects =
      let (r, e, made) = create-Added c op cmp_op ty vals bb sound.accurate objects in
      (r, e, create-Gives_all vals bb r made (create-Extended c op cmp_op ty vals bb r e))
