-- ===== src/Ir/Heap.antt =====
-- src/lightir/Value.cpp, src/lightir/User.cpp: the values of a module as objects of a heap, with the
-- operands of each user and the list of uses of each value. A pointer is a number.
use Prim.Native.Nat.{zero, suc}
use ustc_2021_compliers.Base.{
  ℕ, Bool, List, [], ◌∷◌, ◌++◌, Result, ok, abort, out_of_fuel, ◌>>=◌, ltb, ◌==◌, if◌then◌else◌,
  length,
}
use ustc_2021_compliers.Base.Int.{ℤ}
use ustc_2021_compliers.Ir.Instruction.{OpId, CmpOp}
pub mod Replace
pub mod Operands

-- The class of a value's object, with the fields that the passes read. `cmp_op_` means something
-- for cmp and fcmp alone. A float is its bit pattern.
pub data Kind : Type 0 where
  constant_int : ℤ → Kind
  constant_bool : Bool → Kind
  constant_fp : ℕ → Kind
  instruction : OpId → CmpOp → Kind
  -- whether the return type is void
  function : Bool → Kind
  basic_block : Kind
  -- arguments and global variables
  other : Kind

-- struct Use
pub record Use : Type 0 where
  pub val : ℕ
  pub arg_no : ℕ

-- `next` is the pointer that the next `new` returns.
pub record Heap : Type 0 where
  pub kind : ℕ → Kind
  pub operands : ℕ → List ℕ
  pub use_list : ℕ → List Use
  pub next : ℕ

abbrev pub update {ℓ} : {A : Type ℓ} → (ℕ → A) → ℕ → A → ℕ → A
update f p a q = if p == q then a else f q

-- A write outside of the vector is stopped by the assertion before it.
abbrev pub set {ℓ} : {A : Type ℓ} → List A → ℕ → A → List A
set [] i v = []
set (x ∷ xs) zero v = v ∷ xs
set (x ∷ xs) (suc i) v = x ∷ set xs i v

-- Value::add_use
unfoldable pub add_use : Heap → ℕ → Use → Heap
add_use h v u = record h { use_list = update h.use_list v (h.use_list v ++ u ∷ []) }

-- User::set_operand. The entry in the use list of the former operand stays.
unfoldable pub set_operand : Heap → ℕ → ℕ → ℕ → Result Heap
unfolding add_use
set_operand h user i v =
    if ltb i (length (h.operands user))
    then ok (
        add_use (record h { operands = update h.operands user (set (h.operands user) i v) }) v
          (record { val = user; arg_no = i }))
    else abort

-- User::add_operand: `num_ops_` is the number of operands.
unfoldable pub add_operand : Heap → ℕ → ℕ → Heap
unfolding add_use
add_operand h user v =
    add_use (record h { operands = update h.operands user (h.operands user ++ v ∷ []) }) v
      (record { val = user; arg_no = length (h.operands user) })

-- The loop of Value::replace_all_use_with. Its body appends to the use list of the new value alone.
unfoldable pub replace_uses : Heap → List Use → ℕ → Result Heap
replace_uses h [] new_val = ok h
replace_uses h (u ∷ us) new_val = do
  h' ← set_operand h u.val u.arg_no new_val
  replace_uses h' us new_val

-- A value that replaces itself feeds the loop without end.
abbrev pub replace_by_itself : Heap → List Use → Result Heap
replace_by_itself h [] = ok h
replace_by_itself h (_ ∷ _) = out_of_fuel

-- Value::replace_all_use_with
unfoldable pub replace_all_use_with : Heap → ℕ → ℕ → Result Heap
unfolding replace_uses
replace_all_use_with h old new_val =
    if old == new_val
    then replace_by_itself h (h.use_list old)
    else replace_uses h (h.use_list old) new_val

abbrev pub without_user : List Use → ℕ → List Use
without_user [] p = []
without_user (u ∷ us) p = let rest = without_user us p in if u.val == p then rest else u ∷ rest

-- Value::remove_use
unfoldable pub remove_use : Heap → ℕ → ℕ → Heap
remove_use h v user = record h { use_list = update h.use_list v (without_user (h.use_list v) user) }

unfoldable pub remove_use_of : Heap → List ℕ → ℕ → Heap
remove_use_of h [] user = h
remove_use_of h (v ∷ vs) user = remove_use_of (remove_use h v user) vs user

-- User::remove_use_of_ops
unfoldable pub remove_use_of_ops : Heap → ℕ → Heap
unfolding remove_use_of remove_use
remove_use_of_ops h user = remove_use_of h (h.operands user) user

-- ConstantInt::get, ConstantFP::get: a new object.
unfoldable pub new_constant : Heap → Kind → Heap × ℕ
new_constant h k = (record h { kind = update h.kind h.next k; next = suc h.next }, h.next)
