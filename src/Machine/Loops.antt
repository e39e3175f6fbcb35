-- ===== src/Machine/Loops.antt =====
-- Code with loops. Every loop of microbenchmarks/memaccess.cc is closed by a comparison and a `jl` back
-- to its label, so it is a do-while loop.
use database_benchmarking_op.Prelude.{ℕ, zero, suc, ◌+◌, ◌^◌, List, Bool, ltb, if◌then◌else◌}
use database_benchmarking_op.Machine.Isa.{Reg, Operand, Instr}
use database_benchmarking_op.Machine.State.{Cpu, Outcome, spin, done, ◌>>=◌, get, value_of, u64}
use database_benchmarking_op.Machine.Step.{exec}

infixr 4 ◌⨾◌
pub data Code : Type 0 where
  run : List Instr → Code
  ◌⨾◌ : Code → Code → Code
  do_while : Code → Operand → Reg → Code  -- LABEL: body; cmp bound, reg; jl LABEL

-- cmp and jl: less, as signed 64-bit values
abbrev pub less_signed : ℕ → ℕ → Bool
less_signed a b = ltb (u64 (a + 2 ^ 63)) (u64 (b + 2 ^ 63))

abbrev pub jumps_back : Operand → Reg → Cpu → Bool
jumps_back bound r c = less_signed (get r c) (value_of bound c)

-- A loop runs for at most `fuel` rounds.
unfoldable pub rounds : ℕ → (Cpu → Outcome Cpu) → (Cpu → Bool) → Cpu → Outcome Cpu
rounds zero body again c = spin
rounds (suc fuel) body again c =
    body c >>= λ d. let rest = rounds fuel body again d in if again d then rest else done d

unfoldable pub exec_code : ℕ → Code → Cpu → Outcome Cpu
exec_code fuel (run is) c = exec is c
exec_code fuel (p ⨾ q) c = exec_code fuel p c >>= exec_code fuel q
exec_code fuel (do_while p bound r) c = rounds fuel (exec_code fuel p) (jumps_back bound r) c
