-- ===== src/Opt/ActiveVars/Operands.antt =====
-- The values that ActiveVars::run (src/optimization/ActiveVars.cpp) speaks of are operands of the
-- function's instructions.
use ustc_2021_compliers.Base.{
  ℕ, ◌≡◌, sym, ◌∙◌, Bool-cases, inl, inr, true, List, [], ◌∷◌, ◌++◌, ◌==◌, arith, ==_iff, contains,
  contains-++, Option, none, some,
}
use mathlib.Core.Path.{subst}
use ustc_2021_compliers.Ir.Instruction.{OpId}
use ustc_2021_compliers.Ir.Heap.{Heap, Kind, instruction}
use ustc_2021_compliers.Opt.ActiveVars.Exposed.{
  exposed, taken, takes, uses_op, uses, takes_at, takes_op,
}

module _ (h : Heap) where
  -- The operands of all instructions.
  unfoldable pub operands_of : List ℕ → List ℕ
  operands_of [] = []
  operands_of (p ∷ ps) = h.operands p ++ operands_of ps

  uses_op-contains :
      (op : OpId) (ops : List ℕ) (v : ℕ) → uses_op h op ops v ≡ true → contains ops v ≡ true
  uses_op-contains OpId.ret ops v e = ground arith
  uses_op-contains OpId.br ops v e = ground arith
  uses_op-contains OpId.add ops v e = ground arith
  uses_op-contains OpId.sub ops v e = ground arith
  uses_op-contains OpId.mul ops v e = ground arith
  uses_op-contains OpId.sdiv ops v e = ground arith
  uses_op-contains OpId.fadd ops v e = ground arith
  uses_op-contains OpId.fsub ops v e = ground arith
  uses_op-contains OpId.fmul ops v e = ground arith
  uses_op-contains OpId.fdiv ops v e = ground arith
  uses_op-contains OpId.alloca ops v e = ground arith
  uses_op-contains OpId.load ops v e = ground arith
  uses_op-contains OpId.store ops v e = ground arith
  uses_op-contains OpId.cmp ops v e = ground arith
  uses_op-contains OpId.fcmp ops v e = ground arith
  uses_op-contains OpId.phi ops v e = ground arith
  uses_op-contains OpId.call ops v e = ground arith
  uses_op-contains OpId.getelementptr ops v e = ground arith
  uses_op-contains OpId.zext ops v e = ground arith
  uses_op-contains OpId.fptosi ops v e = ground arith
  uses_op-contains OpId.sitofp ops v e = ground arith

  takes-contains :
      (ops : List ℕ) (b : Option ℕ) (v : ℕ) → takes h ops b v ≡ true → contains ops v ≡ true
  takes-contains [] b v e = cc
  takes-contains (op ∷ ops) b v e = elim (Bool-cases (op == v)) [
    | inl t ↦ ground arith
    | inr n ↦ ground (arith, takes-contains ops b v)
  ]

  takes_op-contains :
      (op : OpId) (ops : List ℕ) (b : Option ℕ) (v : ℕ)
      → takes_op h op ops b v ≡ true
      → contains ops v ≡ true
  takes_op-contains OpId.phi ops b v e = takes-contains ops b v e
  takes_op-contains OpId.ret ops b v e = cc
  takes_op-contains OpId.br ops b v e = cc
  takes_op-contains OpId.add ops b v e = cc
  takes_op-contains OpId.sub ops b v e = cc
  takes_op-contains OpId.mul ops b v e = cc
  takes_op-contains OpId.sdiv ops b v e = cc
  takes_op-contains OpId.fadd ops b v e = cc
  takes_op-contains OpId.fsub ops b v e = cc
  takes_op-contains OpId.fmul ops b v e = cc
  takes_op-contains OpId.fdiv ops b v e = cc
  takes_op-contains OpId.alloca ops b v e = cc
  takes_op-contains OpId.load ops b v e = cc
  takes_op-contains OpId.store ops b v e = cc
  takes_op-contains OpId.cmp ops b v e = cc
  takes_op-contains OpId.fcmp ops b v e = cc
  takes_op-contains OpId.call ops b v e = cc
  takes_op-contains OpId.getelementptr ops b v e = cc
  takes_op-contains OpId.zext ops b v e = cc
  takes_op-contains OpId.fptosi ops b v e = cc
  takes_op-contains OpId.sitofp ops b v e = cc

  uses-contains :
      (p : ℕ) (k : Kind) (v : ℕ) → uses h p k v ≡ true → contains (h.operands p) v ≡ true
  uses-contains p (instruction op c) v e = uses_op-contains op (h.operands p) v e
  uses-contains p _ v e = cc

  takes_at-contains :
      (p : ℕ) (k : Kind) (b : Option ℕ) (v : ℕ)
      → takes_at h p k b v ≡ true
      → contains (h.operands p) v ≡ true
  takes_at-contains p (instruction op c) b v e = takes_op-contains op (h.operands p) b v e
  takes_at-contains p _ b v e = cc

  pub exposed-contains :
      (ps : List ℕ) (v : ℕ) → exposed h ps v ≡ true → contains (operands_of ps) v ≡ true
  unfolding operands_of
  exposed-contains [] v e = cc
  exposed-contains (p ∷ ps) v e =
      contains-++ (h.operands p) (operands_of ps) v
      ∙ ground (arith, uses-contains p (h.kind p) v, exposed-contains ps v)

  pub taken-contains :
      (ps : List ℕ) (b : Option ℕ) (v : ℕ)
      → taken h ps b v ≡ true
      → contains (operands_of ps) v ≡ true
  unfolding operands_of
  taken-contains [] b v e = cc
  taken-contains (p ∷ ps) b v e =
      contains-++ (h.operands p) (operands_of ps) v
      ∙ ground (arith, takes_at-contains p (h.kind p) b v, taken-contains ps b v)

  module _ (instructions : ℕ → List ℕ) where
    unfoldable pub all_operands : List ℕ → List ℕ
    unfolding operands_of
    all_operands [] = []
    all_operands (bb ∷ bbs) = operands_of (instructions bb) ++ all_operands bbs

    pub all_operands-contains :
        (bbs : List ℕ) (b v : ℕ)
        → contains bbs b ≡ true
        → contains (operands_of (instructions b)) v ≡ true
        → contains (all_operands bbs) v ≡ true
    unfolding all_operands
    all_operands-contains [] b v m e = cc
    all_operands-contains (bb ∷ bbs) b v m e =
        contains-++ (operands_of (instructions bb)) (all_operands bbs) v
        ∙ elim (Bool-cases (bb == b)) [
          | inl t ↦
              let here : contains (operands_of (instructions bb)) v ≡ true =
                subst (λ x. contains (operands_of (instructions x)) v ≡ true)
                  (sym ((==_iff bb b).0 t)) e in
              ground arith
          | inr n ↦ ground (arith, all_operands-contains bbs b v)
        ]

takes-anywhere :
    (h : Heap) (ops : List ℕ) (b v : ℕ) → takes h ops (some b) v ≡ true → takes h ops none v ≡ true
takes-anywhere h [] b v e = cc
takes-anywhere h (op ∷ []) b v e = ground arith
takes-anywhere h (op ∷ x ∷ ops) b v e = ground (arith, takes-anywhere h (x ∷ ops) b v)

takes_op-anywhere :
    (h : Heap) (op : OpId) (ops : List ℕ) (b v : ℕ)
    → takes_op h op ops (some b) v ≡ true
    → takes_op h op ops none v ≡ true
takes_op-anywhere h OpId.phi ops b v e = takes-anywhere h ops b v e
takes_op-anywhere h _ ops b v e = cc

takes_at-anywhere :
    (h : Heap) (p : ℕ) (k : Kind) (b v : ℕ)
    → takes_at h p k (some b) v ≡ true
    → takes_at h p k none v ≡ true
takes_at-anywhere h p (instruction op c) b v e = takes_op-anywhere h op (h.operands p) b v e
takes_at-anywhere h p _ b v e = cc

-- What a phi takes from a block, it takes.
pub taken-anywhere :
    (h : Heap) (ps : List ℕ) (b v : ℕ) → taken h ps (some b) v ≡ true → taken h ps none v ≡ true
taken-anywhere h [] b v e = cc
taken-anywhere h (p ∷ ps) b v e = elim (Bool-cases (takes_at h p (h.kind p) (some b) v)) [
  | inl t ↦ ground (arith, takes_at-anywhere h p (h.kind p) b v t)
  | inr f ↦ ground (arith, taken-anywhere h ps b v)
]
