-- ===== src/Ir/Instruction.antt =====
-- include/lightir/Instruction.h: the opcodes and the comparison operators.

pub data OpId : Type 0 where
  ret br add sub mul sdiv fadd fsub fmul fdiv alloca load store cmp fcmp phi call getelementptr :
      OpId
  zext fptosi sitofp : OpId

pub data CmpOp : Type 0 where
  eq ne gt ge lt le : CmpOp
