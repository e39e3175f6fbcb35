-- ===== src/Machine/Isa.antt =====
-- Registers, operands and instructions, in the order of AT&T syntax: sources first.
use database_benchmarking_op.Prelude.{ℕ}

-- The general registers that the asm statements name, and their output operands %[t1] and %[t2],
-- which the compiler keeps in registers of their own.
pub data Reg : Type 0 where
  rsi rax rdx rcx r8 r9 r10 r11 r12 t1 t2 : Reg

-- A register, or a value fixed for the whole statement: a constant or an input operand.
pub data Operand : Type 0 where
  reg : Reg → Operand
  imm : ℕ → Operand

-- disp(base, index, scale)
pub record Address : Type 0 where
  pub base : Operand
  pub index : Operand
  pub scale : ℕ
  pub disp : ℕ

-- disp(base)
abbrev pub at : ℕ → Operand → Address
at d b = record { base = b; index = imm 0; scale = 1; disp = d }

-- disp(base, index)
abbrev pub indexed : ℕ → Operand → Operand → Address
indexed d b i = record { base = b; index = i; scale = 1; disp = d }

pub data FlushOp : Type 0 where
  clflush clflushopt clwb : FlushOp

pub data FenceOp : Type 0 where
  mfence sfence lfence : FenceOp

pub data Instr : Type 0 where
  nop rdtscp : Instr
  fence : FenceOp → Instr
  flush : FlushOp → Address → Instr
  mov : Operand → Reg → Instr  -- 64 bits
  movl : Reg → Reg → Instr  -- 32 bits: the upper half is cleared
  mov_load : Address → Reg → Instr
  mov_store : Operand → Address → Instr
  lea : Address → Reg → Instr
  add xor_ and_ or_ : Operand → Reg → Instr
  andl : ℕ → Reg → Instr  -- 32 bits: the upper half is cleared
  inc neg : Reg → Instr
  shl shr : ℕ → Reg → Instr
  vbroadcastsd : ℕ → ℕ → Instr  -- a 64-bit value into the four quarters of ymm
  movq_to_xmm : Operand → ℕ → Instr
  movq_load_xmm : Address → ℕ → Instr
  movq_from_xmm : ℕ → Reg → Instr
  -- The width in bytes (32 for ymm, 64 for zmm), then the operands.
  vmovdqa_load vmovntdqa : ℕ → Address → ℕ → Instr
  vmovdqa_store vmovnt_store : ℕ → ℕ → Address → Instr
