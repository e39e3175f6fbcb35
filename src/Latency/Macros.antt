-- ===== src/Latency/Macros.antt =====
-- The string macros of microbenchmarks/common.hpp that the latency kernels are put together from,
-- and the shape of a kernel.
use database_benchmarking_op.Prelude.{ℕ, ◌+◌, ◌-◌, ◌*◌, ◌%◌, ◌^◌, List, [], ◌∷◌, replicate}
use database_benchmarking_op.Machine.{
  Reg, rsi, rax, rdx, rcx, r8, r9, t1, t2, reg, imm, Address, at, Instr, nop, rdtscp, fence, flush,
  clflush, mfence, lfence, mov, movl, mov_load, or_, shl, vbroadcastsd, Cpu, Outcome, done, ◌>>=◌,
  exec,
}

-- disp(%rsi)
abbrev pub rsi_at : ℕ → Address
rsi_at d = at d (reg rsi)

unfoldable pub load_value : ℕ → List Instr
load_value value = vbroadcastsd value 0 ∷ []

unfoldable pub load_addr : ℕ → List Instr
load_addr memarea = mov (imm memarea) rsi ∷ fence mfence ∷ []

unfoldable pub flush_cache_line : List Instr
flush_cache_line =
    flush clflush (rsi_at (0 * 32))
    ∷ flush clflush (rsi_at (2 * 32))
    ∷ flush clflush (rsi_at (4 * 32))
    ∷ flush clflush (rsi_at (6 * 32))
    ∷ fence mfence
    ∷ []

unfoldable pub load_cache_line : List Instr
load_cache_line =
    mov_load (rsi_at (0 * 8)) rdx
    ∷ mov_load (rsi_at (1 * 8)) rdx
    ∷ mov_load (rsi_at (2 * 8)) rdx
    ∷ mov_load (rsi_at (3 * 8)) rdx
    ∷ mov_load (rsi_at (4 * 8)) rdx
    ∷ mov_load (rsi_at (5 * 8)) rdx
    ∷ mov_load (rsi_at (6 * 8)) rdx
    ∷ mov_load (rsi_at (7 * 8)) rdx
    ∷ mov_load (rsi_at (8 * 8)) rdx
    ∷ mov_load (rsi_at (9 * 8)) rdx
    ∷ mov_load (rsi_at (10 * 8)) rdx
    ∷ mov_load (rsi_at (11 * 8)) rdx
    ∷ mov_load (rsi_at (12 * 8)) rdx
    ∷ mov_load (rsi_at (13 * 8)) rdx
    ∷ mov_load (rsi_at (14 * 8)) rdx
    ∷ mov_load (rsi_at (15 * 8)) rdx
    ∷ mov_load (rsi_at (16 * 8)) rdx
    ∷ mov_load (rsi_at (17 * 8)) rdx
    ∷ mov_load (rsi_at (18 * 8)) rdx
    ∷ mov_load (rsi_at (19 * 8)) rdx
    ∷ mov_load (rsi_at (20 * 8)) rdx
    ∷ mov_load (rsi_at (21 * 8)) rdx
    ∷ mov_load (rsi_at (22 * 8)) rdx
    ∷ mov_load (rsi_at (23 * 8)) rdx
    ∷ mov_load (rsi_at (24 * 8)) rdx
    ∷ mov_load (rsi_at (25 * 8)) rdx
    ∷ mov_load (rsi_at (26 * 8)) rdx
    ∷ mov_load (rsi_at (27 * 8)) rdx
    ∷ mov_load (rsi_at (28 * 8)) rdx
    ∷ mov_load (rsi_at (29 * 8)) rdx
    ∷ mov_load (rsi_at (30 * 8)) rdx
    ∷ mov_load (rsi_at (31 * 8)) rdx
    ∷ fence mfence
    ∷ []

unfoldable pub clear_pipeline : List Instr
clear_pipeline = replicate 42 nop

unfoldable pub timing_beg : List Instr
timing_beg = rdtscp ∷ fence lfence ∷ movl rdx r9 ∷ movl rax r8 ∷ []

unfoldable pub timing_end : List Instr
timing_end =
    fence mfence
    ∷ rdtscp
    ∷ fence lfence
    ∷ shl 32 rdx
    ∷ or_ (reg rax) rdx
    ∷ movl r9 rax
    ∷ shl 32 rax
    ∷ or_ (reg r8) rax
    ∷ mov (reg rax) t1
    ∷ mov (reg rdx) t2
    ∷ []

unfoldable pub timing_end_nofence : List Instr
timing_end_nofence =
    rdtscp
    ∷ shl 32 rdx
    ∷ or_ (reg rax) rdx
    ∷ movl r9 rax
    ∷ shl 32 rax
    ∷ or_ (reg r8) rax
    ∷ mov (reg rax) t1
    ∷ mov (reg rdx) t2
    ∷ []

-- What a statement declares that it overwrites: a general register, or ymm i.
pub data Clobber : Type 0 where
  gpr : Reg → Clobber
  ymm : ℕ → Clobber

unfoldable pub registers : List Clobber
registers = gpr rsi ∷ gpr rax ∷ gpr rdx ∷ gpr rcx ∷ gpr r8 ∷ gpr r9 ∷ ymm 0 ∷ []

unfoldable pub registers_nonsse : List Clobber
registers_nonsse = gpr rsi ∷ gpr rax ∷ gpr rdx ∷ gpr rcx ∷ gpr r8 ∷ gpr r9 ∷ []

-- The asm statement of a kernel.
pub record Kernel : Type 0 where
  pub asm : List Instr
  pub clobbers : List Clobber

-- A call of a kernel's function: t1 and t2 start at 0, the statement runs, and the difference is
-- returned, as a uint64_t.
unfoldable pub call : Kernel → Cpu → Outcome (ℕ × Cpu)
call k c = do
  c' ← exec k.asm (record c { t1 = 0; t2 = 0 })
  done ((c'.t2 + 2 ^ 64 - c'.t1) % 2 ^ 64, c')
