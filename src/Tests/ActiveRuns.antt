-- ===== src/Tests/ActiveRuns.antt =====
-- Live variables (src/optimization/ActiveVars.cpp) of the code
--   10:  %2 = add %1, %1
--        br 11
--   11:  %3 = phi [ %2, 10 ], [ %4, 11 ]
--        %4 = sub %3, %2
--        br %4, 11, 12
--   12:  ret %4
use ustc_2021_compliers.Base.{
  ℕ, ◌≡◌, refl, true, List, [], ◌∷◌, ◌==◌, if◌then◌else◌, arith, ok, abort, undefined, out_of_fuel,
  contains, Bool, ◌||◌, Bool-cases, inl, inr, ==_iff,
}
use mathlib.Core.Path.{subst}
use ustc_2021_compliers.Ir.Instruction.{OpId, CmpOp}
use ustc_2021_compliers.Ir.Heap.{Heap, instruction, basic_block, other}
use ustc_2021_compliers.Ir.Blocks.{Blocks}
use ustc_2021_compliers.Opt.ActiveVars.{Facts, no_facts, Live, gather_all, analyze}
use ustc_2021_compliers.Opt.ActiveVars.Liveness.{
  AreLive, IsLiveIn, in_use, in_next, in_phi, IsUnmasked, IsExact, analyze-AreLive, analyze-IsExact,
}
use ustc_2021_compliers.Opt.ActiveVars.Operands.{all_operands}
use ustc_2021_compliers.Opt.ActiveVars.Analysis.{Describes, gather_all-Describes}

abbrev opcode : ℕ → OpId
opcode p =
    if p == 2
    then OpId.add
    else if p == 3
    then OpId.phi
    else if p == 4
    then OpId.sub
    else if p == 7
    then OpId.ret
    else OpId.br

abbrev code : Heap
code = record {
  kind = λ p.
      if p == 10
      then basic_block
      else if p == 11
      then basic_block
      else if p == 12
      then basic_block
      else if p == 1
      then other
      else instruction (opcode p) CmpOp.eq;
  operands = λ p.
      if p == 2
      then 1 ∷ 1 ∷ []
      else if p == 5
      then 11 ∷ []
      else if p == 3
      then 2 ∷ 10 ∷ 4 ∷ 11 ∷ []
      else if p == 4
      then 3 ∷ 2 ∷ []
      else if p == 6
      then 4 ∷ 11 ∷ 12 ∷ []
      else if p == 7
      then 4 ∷ []
      else [];
  use_list = λ p. [];
  next = 20;
}

abbrev in_block : ℕ → List ℕ
in_block b =
    if b == 10
    then 2 ∷ 5 ∷ []
    else if b == 11
    then 3 ∷ 4 ∷ 6 ∷ []
    else if b == 12
    then 7 ∷ []
    else []

abbrev graph : Blocks
graph = record {
  pre_bbs = λ b. if b == 11 then 10 ∷ 11 ∷ [] else if b == 12 then 11 ∷ [] else [];
  succ_bbs = λ b. if b == 10 then 11 ∷ [] else if b == 11 then 11 ∷ 12 ∷ [] else [];
  basic_blocks = 10 ∷ 11 ∷ 12 ∷ [];
}

abbrev facts : ℕ → Facts
unfolding gather_all
facts = elim (gather_all code in_block (λ b. no_facts) (10 ∷ 11 ∷ 12 ∷ [])) [
  | ok k ↦ k
  | abort ↦ λ b. no_facts
  | undefined ↦ λ b. no_facts
  | out_of_fuel ↦ λ b. no_facts
]

gather_all-Describes_example : Describes code (in_block 11) (facts 11)
unfolding gather_all
gather_all-Describes_example =
    gather_all-Describes code in_block (10 ∷ 11 ∷ 12 ∷ []) facts (refl, (refl, (refl, tt))) refl 11
      refl

analyze-AreLive_example :
    (st : Live) × (analyze code in_block graph 100 ≡ ok st)
    × ((b : ℕ) → contains (10 ∷ 11 ∷ 12 ∷ []) b ≡ true → AreLive facts graph st b)
unfolding gather_all all_operands
analyze-AreLive_example =
    analyze-AreLive code in_block graph facts (refl, (refl, (refl, tt))) (λ b s m n. ground arith)
      refl 100 (omega arith)

-- live_out of 10 and 11, live_in of 11 and 12. %2 is missing at the end of 11, although the `sub` of
-- the next turn reads it: the phi takes %2 from 10 alone, and the pass leaves it out for this reason.
analyze_test :
    elim (analyze code in_block graph 100) [
      | ok st ↦ st.live_out 10 ∷ st.live_out 11 ∷ st.live_in 11 ∷ st.live_in 12 ∷ []
      | _ ↦ []
    ]
    ≡ (2 ∷ []) ∷ (4 ∷ []) ∷ (4 ∷ 2 ∷ []) ∷ (4 ∷ []) ∷ []
unfolding analyze
analyze_test = refl

-- The same code, but for the `sub` of %1: then no turn reads %2 after the phi.
abbrev code_1 : Heap
code_1 = record code { operands = λ p. if p == 4 then 3 ∷ 1 ∷ [] else code.operands p }

abbrev facts_1 : ℕ → Facts
unfolding gather_all
facts_1 = elim (gather_all code_1 in_block (λ b. no_facts) (10 ∷ 11 ∷ 12 ∷ [])) [
  | ok k ↦ k
  | abort ↦ λ b. no_facts
  | undefined ↦ λ b. no_facts
  | out_of_fuel ↦ λ b. no_facts
]

abbrev is_later : ℕ → Bool
is_later b = (b == 11) || (b == 12)

-- %2 is not live after the block 10, and %4 not at the head of the block 11.
sum_dead : {b : ℕ} → IsLiveIn facts_1 graph 2 b → is_later b ≡ true → ⊥
unfolding gather_all
sum_dead (in_use e) m = ground arith
sum_dead (in_next s n e l) m = sum_dead l (ground arith)
sum_dead (in_phi s n e t) m = ground arith

difference_dead : {b : ℕ} → IsLiveIn facts_1 graph 4 b → b ≡ 11 → ⊥
unfolding gather_all
difference_dead (in_use e) m = ground arith
difference_dead (in_next s n e l) m = ground arith
difference_dead (in_phi s n e t) m = ground arith

unmasked : IsUnmasked facts_1 graph
unfolding gather_all
unmasked b s v e all none_here l = elim (Bool-cases (v == 2)) [
  | inl t ↦ sum_dead (subst (λ x. IsLiveIn facts_1 graph x s) ((==_iff v 2).0 t) l) (ground arith)
  | inr f ↦
      difference_dead (subst (λ x. IsLiveIn facts_1 graph x s) ((==_iff v 4).0 (ground arith)) l)
        (ground arith)
]

analyze-IsExact_example :
    (st : Live) × (analyze code_1 in_block graph 100 ≡ ok st)
    × ((b : ℕ) → contains (10 ∷ 11 ∷ 12 ∷ []) b ≡ true → IsExact facts_1 graph st b)
unfolding gather_all all_operands
analyze-IsExact_example =
    analyze-IsExact code_1 in_block graph facts_1 (refl, (refl, (refl, tt)))
      (λ b s m n. ground arith) refl 100 (omega arith) unmasked
