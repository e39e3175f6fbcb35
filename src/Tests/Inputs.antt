-- ===== src/Tests/Inputs.antt =====
-- The processor and the machine that the examples of several modules use.
use database_benchmarking_op.Prelude.{
  ℕ, ◌+◌, ◌*◌, ◌%◌, ◌≤◌, List, [], ◌∷◌, true, zero, suc, length, some, arith,
}
use database_benchmarking_op.Machine.{Cpu}
use database_benchmarking_op.Exec.Bytes.{AllBytes}
use database_benchmarking_op.Driver.Jobs.{Action}
use database_benchmarking_op.Machine.{Outcome, done}
use database_benchmarking_op.Driver.Program.{System}

-- A processor whose counter gains a hundred ticks between two readings, with the constant of the
-- shift register in rcx.
abbrev pub cpu : Cpu
cpu = record {
  rsi = 0;
  rax = 0;
  rdx = 0;
  rcx = 0xd800000000000000;
  r8 = 0;
  r9 = 0;
  r10 = 0;
  r11 = 0;
  r12 = 0;
  t1 = 0;
  t2 = 0;
  vec = λ i b. 0;
  mem = λ a. a % 256;
  clock = λ n. 5 + n * 100;
  reads = 0;
  aux = 3;
  history = [];
}

-- The file is mapped at 2 ^ 44, in persistent memory; the block on the node starts off a page.
abbrev pub system : System
system = record {
  pmem_map_file = λ size. some (17592186044416, true);
  numa_alloc_onnode = λ size. 1000001;
  getrandom = λ n. [];
}

-- `n` bytes with the sign bit set.
unfoldable pub some_bytes : ℕ → List ℕ
some_bytes zero = []
some_bytes (suc n) = 200 ∷ some_bytes n

pub length-some_bytes : (n : ℕ) → n ≤ length (some_bytes n)
unfolding some_bytes
length-some_bytes zero = omega arith
length-some_bytes (suc n) = omega (arith, length-some_bytes n)

abbrev pub ignoring : Action → Cpu → Outcome Cpu
ignoring a c = done c

pub cpu-AllBytes : AllBytes cpu
cpu-AllBytes = (λ x. omega arith, λ v x. omega arith)
