-- ===== src/Random/Lfsr.antt =====
-- RandLFSR64: a 64-bit shift register with feedback, stepped in place in memory.
pub mod Laws
use database_benchmarking_op.Prelude.{
  ℕ, ◌-◌, ◌*◌, ◌/◌, ◌%◌, ◌^◌, bit_xor, List, [], ◌∷◌, ◌==◌, if◌then◌else◌,
}
use database_benchmarking_op.Driver.Config.{perthread_workset}
use database_benchmarking_op.Machine.{
  rcx, r8, r9, r12, reg, imm, at, Instr, mov, mov_load, mov_store, and_, andl, xor_, neg, shr,
}

-- movabs $0xd800000000000000, %rcx
abbrev pub feedback : ℕ
feedback = 0xd800000000000000

unfoldable pub rand_lfsr64 : ℕ → ℕ → List Instr
rand_lfsr64 random accessmask =
    mov_load (at 0 (imm random)) r9
    ∷ mov (reg r9) r12
    ∷ shr 1 r9
    ∷ andl 1 r12
    ∷ neg r12
    ∷ and_ (reg rcx) r12
    ∷ xor_ (reg r9) r12
    ∷ mov_store (reg r12) (at 0 (imm random))
    ∷ mov (reg r12) r8
    ∷ and_ (imm accessmask) r8
    ∷ []

-- The step that the code stands for: shift right, and where a 1 falls out, flip the digits of
-- `feedback`.
unfoldable pub lfsr : ℕ → ℕ
lfsr s = if s % 2 == 1 then bit_xor (s / 2) feedback else s / 2

-- The mask that size_bwjob of microbenchmarks/run_thread.cc passes: line-aligned offsets into the
-- 2 GiB of a thread.
abbrev pub bitmask : ℕ
bitmask = let align_size : ℕ = 2 ^ 6 in bit_xor (perthread_workset - 1) (align_size - 1)
