-- ===== src/Opt/ActiveVars/Exposed.antt =====
-- The use, def and phi sets of ActiveVars::run (src/optimization/ActiveVars.cpp) described by reading
-- the instructions of a block from the last to the first.
use ustc_2021_compliers.Base.{
  ℕ, Bool, true, false, not, ◌&&◌, ◌||◌, List, [], ◌∷◌, ◌==◌, Option, none, some, contains, length,
}
use ustc_2021_compliers.Ir.Instruction.{OpId}
use ustc_2021_compliers.Ir.Heap.{Heap, Kind, instruction}
use ustc_2021_compliers.Opt.ActiveVars.{is_label, variables, not_labels, calls_void}

-- Whether the value is an operand that the pass counts.
abbrev pub is_operand : (ℕ → Bool) → List ℕ → ℕ → Bool
is_operand counts ops v = contains ops v && counts v

abbrev pub uses_op : Heap → OpId → List ℕ → ℕ → Bool
uses_op h OpId.add ops v = length ops == 2 && is_operand (variables h) ops v
uses_op h OpId.sub ops v = length ops == 2 && is_operand (variables h) ops v
uses_op h OpId.mul ops v = length ops == 2 && is_operand (variables h) ops v
uses_op h OpId.sdiv ops v = length ops == 2 && is_operand (variables h) ops v
uses_op h OpId.fadd ops v = length ops == 2 && is_operand (variables h) ops v
uses_op h OpId.fsub ops v = length ops == 2 && is_operand (variables h) ops v
uses_op h OpId.fmul ops v = length ops == 2 && is_operand (variables h) ops v
uses_op h OpId.fdiv ops v = length ops == 2 && is_operand (variables h) ops v
uses_op h OpId.ret ops v = length ops == 1 && is_operand (variables h) ops v
uses_op h OpId.br ops v = is_operand (not_labels h) ops v
uses_op h OpId.alloca ops v = false
uses_op h OpId.phi ops v = false
uses_op h _ ops v = is_operand (variables h) ops v

abbrev pub defines_op : Heap → OpId → List ℕ → Bool
defines_op h OpId.add ops = length ops == 2
defines_op h OpId.sub ops = length ops == 2
defines_op h OpId.mul ops = length ops == 2
defines_op h OpId.sdiv ops = length ops == 2
defines_op h OpId.fadd ops = length ops == 2
defines_op h OpId.fsub ops = length ops == 2
defines_op h OpId.fmul ops = length ops == 2
defines_op h OpId.fdiv ops = length ops == 2
defines_op h OpId.ret ops = false
defines_op h OpId.br ops = false
defines_op h OpId.store ops = false
defines_op h OpId.call ops = not (calls_void h ops)
defines_op h _ ops = true

-- Whether the block, or any object if none is given, is the first of the operands.
abbrev pub heads : Heap → List ℕ → Option ℕ → Bool
heads h [] b = false
heads h (x ∷ xs) none = true
heads h (x ∷ xs) (some b) = x == b && is_label (h.kind x)

-- Whether a phi takes the value from the block, or from anywhere.
abbrev pub takes : Heap → List ℕ → Option ℕ → ℕ → Bool
takes h [] b v = false
takes h (op ∷ ops) b v =
    let rest = takes h ops b v in
    (variables h op && not_labels h op && op == v && heads h ops b) || rest

abbrev pub takes_op : Heap → OpId → List ℕ → Option ℕ → ℕ → Bool
takes_op h OpId.phi ops b v = takes h ops b v
takes_op h _ ops b v = false

-- Whether the object uses the value, defines a value, or takes the value from the block.
abbrev pub uses : Heap → ℕ → Kind → ℕ → Bool
uses h p (instruction op c) v = uses_op h op (h.operands p) v
uses h p _ v = false

abbrev pub defines : Heap → ℕ → Kind → Bool
defines h p (instruction op c) = defines_op h op (h.operands p)
defines h p _ = false

abbrev pub takes_at : Heap → ℕ → Kind → Option ℕ → ℕ → Bool
takes_at h p (instruction op c) b v = takes_op h op (h.operands p) b v
takes_at h p _ b v = false

-- Whether an instruction uses the value, with no definition of it before the instruction.
abbrev pub exposed : Heap → List ℕ → ℕ → Bool
exposed h [] v = false
exposed h (p ∷ ps) v =
    let rest = exposed h ps v in
    uses h p (h.kind p) v || (not (defines h p (h.kind p) && p == v) && rest)

-- Whether an instruction defines the value.
abbrev pub defined : Heap → List ℕ → ℕ → Bool
defined h [] v = false
defined h (p ∷ ps) v = let rest = defined h ps v in (defines h p (h.kind p) && p == v) || rest

-- Whether some phi takes the value from the block.
abbrev pub taken : Heap → List ℕ → Option ℕ → ℕ → Bool
taken h [] b v = false
taken h (p ∷ ps) b v = let rest = taken h ps b v in takes_at h p (h.kind p) b v || rest
