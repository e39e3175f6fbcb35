-- ===== src/Driver/LatencyJobs.antt =====
-- The timed loops of seq_lat and random_lat in microbenchmarks/run_thread.cc, on the processor of the
-- model. `divided` is the floating-point division of the ticks by 3.8, and `truncated` makes a uint64_t of
-- a double.
use database_benchmarking_op.Prelude.{
  ℕ, zero, suc, ◌+◌, ◌-◌, ◌^◌, bit_and, List, [], ◌∷◌, get_elem?, Option, none, some, ltb,
  if◌then◌else◌,
}
use database_benchmarking_op.Machine.{Cpu, Outcome, done, fault, ◌>>=◌, u64}
use database_benchmarking_op.Latency.Macros.{Kernel, call}
use database_benchmarking_op.Latency.Tables.{bench_func}
use database_benchmarking_op.Driver.Config.{WorkerCtx, latency_ops_count, basic_op_mask}

abbrev skip : ℕ
skip = 64

-- A `char` is signed and is promoted to a 32-bit `int`.
abbrev pub int_of_char : ℕ → ℕ
int_of_char l = if ltb l 128 then l else 2 ^ 32 - 256 + l

abbrev pub random_offset : ℕ → ℕ
random_offset l = bit_and (int_of_char l) basic_op_mask

unfoldable pub seq_loop :
    {Double : Type 0}
    → (divided : ℕ → Double) → (ℕ → Kernel)
    → ℕ
    → ℕ
    → Cpu
    → Outcome (List Double × Cpu)
seq_loop divided f buf zero c = done ([], c)
seq_loop divided f buf (suc n) c = call (f buf) c >>= λ (ticks, d).
    seq_loop divided f (u64 (buf + skip)) n d >>= λ (rest, e). done (divided ticks ∷ rest, e)

-- `loc[j]` past the end of `loc` is a fault.
unfoldable pub random_loop :
    {Double : Type 0}
    → (divided : ℕ → Double) → (truncated : Double → ℕ) → (ℕ → Kernel)
    → ℕ
    → List ℕ
    → ℕ
    → Cpu
    → Outcome (List ℕ × Cpu)
random_loop divided truncated f buf loc zero c = done ([], c)
random_loop divided truncated f buf [] (suc n) c = fault
random_loop divided truncated f buf (l ∷ loc) (suc n) c =
    call (f (u64 (buf + random_offset l))) c >>= λ (ticks, d).
    random_loop divided truncated f (u64 (buf + skip)) loc n d >>= λ (rest, e).
    done (truncated (divided ticks) ∷ rest, e)

-- The other entries of bench_func are null.
unfoldable pub seq_lat_timed :
    {Double : Type 0} → (divided : ℕ → Double) → WorkerCtx → Cpu → Outcome (List Double × Cpu)
seq_lat_timed divided ctx c = elim (get_elem? bench_func ctx.op) [
  | none ↦ fault
  | some f ↦ seq_loop divided f ctx.addr latency_ops_count c
]

abbrev with_loc : Option (List ℕ) → (List ℕ → Outcome (List ℕ × Cpu)) → Outcome (List ℕ × Cpu)
with_loc none k = fault
with_loc (some loc) k = k loc

unfoldable pub random_lat_timed :
    {Double : Type 0}
    → (divided : ℕ → Double) → (truncated : Double → ℕ) → WorkerCtx
    → Cpu
    → Outcome (List ℕ × Cpu)
random_lat_timed divided truncated ctx c = elim (get_elem? bench_func ctx.op) [
  | none ↦ fault
  | some f ↦
      with_loc ctx.loc λ loc. random_loop divided truncated f ctx.addr loc latency_ops_count c
]
