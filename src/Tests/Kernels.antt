-- ===== src/Tests/Kernels.antt =====
-- Examples of the latency kernels of microbenchmarks/common.hpp and of its random numbers.
use database_benchmarking_op.Prelude.{ℕ, ◌+◌, ◌*◌, true, false, get_elem?, some, ◌≡◌, refl, arith}
use database_benchmarking_op.Exec.Ensures.{Ensures}
use database_benchmarking_op.Latency.Macros.{Kernel, call, registers}
use database_benchmarking_op.Latency.Clobbers.{is_declared, call-Keeps}
use database_benchmarking_op.Latency.Repeat.{repeat_256byte_ntstore, repeat_256byte_load}
use database_benchmarking_op.Latency.Repeated.{repeat_256byte-Measures}
use database_benchmarking_op.Latency.Names.{latency_bench_map-Measures}
use database_benchmarking_op.Latency.Tables.{bytes128, bytes256, latency_bench_map, latency_funcs}
use database_benchmarking_op.Latency.Spec.{
  LatencyOp, bench_name, store_clwb, ntstore_fence, ntload_fence, timed_spec, timed_section,
}
use database_benchmarking_op.Latency.Shape.{entry, kernel_text}
use database_benchmarking_op.Latency.Correct.{Measures, call-Measures}
use database_benchmarking_op.Latency.Coverage.{inside, touches, call-touches}
use database_benchmarking_op.Latency.Persistence.{is_flushed, call-is_flushed}
use database_benchmarking_op.Machine.{exec}
use database_benchmarking_op.Random.Lfsr.{bitmask, rand_lfsr64}
use database_benchmarking_op.Random.Lfsr.Laws.{
  unlfsr, seed_value, Stepped, exec-rand_lfsr64, unlfsr-rand_lfsr64,
}
use database_benchmarking_op.Random.RandR.{rand_r_32, unrand, unrand-rand_r_32}
use database_benchmarking_op.Latency.Spec.{line_events}
use database_benchmarking_op.Machine.{u64}
use database_benchmarking_op.Memaccess.Blocks.{by_lines, Moved}
use database_benchmarking_op.Memaccess.Regular.{
  flushing, bytes1024, macro, macro-Moved, access_by, flush_by, lines_in,
}
use database_benchmarking_op.Tests.Inputs.{cpu}

call-Measures_example :
    Ensures
      (Measures (timed_spec store_clwb bytes128 4096) cpu)
      (call (entry store_clwb bytes128 4096) cpu)
call-Measures_example = call-Measures store_clwb bytes128 4096 cpu refl

latency_bench_map-Measures_example :
    (op : LatencyOp) × (k : ℕ → Kernel) × (get_elem? latency_bench_map 3 ≡ some (bench_name op))
    × (get_elem? (latency_funcs bytes256) 3 ≡ some k)
    × Ensures (Measures (timed_spec op bytes256 4096) cpu) (call (k 4096) cpu)
latency_bench_map-Measures_example =
    latency_bench_map-Measures 3 bytes256 4096 cpu (omega arith) refl

repeat_256byte-Measures_example :
    Ensures
      (Measures (timed_spec ntstore_fence bytes256 4096) cpu)
      (call (repeat_256byte_ntstore 4096) cpu)
    × Ensures
        (Measures (timed_spec ntload_fence bytes256 4096) cpu)
        (call (repeat_256byte_load 4096) cpu)
repeat_256byte-Measures_example = repeat_256byte-Measures 4096 cpu refl

call-touches_example :
    Ensures
      (λ (r, d). touches (timed_section d.history) 4200 ≡ inside 4096 256 4200)
      (call (entry ntstore_fence bytes256 4096) cpu)
call-touches_example = call-touches ntstore_fence bytes256 4096 4200 cpu refl (omega arith)

call-is_flushed_example :
    Ensures
      (λ (r, d). is_flushed 65 (timed_section d.history) ≡ true)
      (call (entry store_clwb bytes128 4096) cpu)
call-is_flushed_example =
    call-is_flushed store_clwb bytes128 4096 1 cpu refl refl (omega arith) (omega arith)

undeclared : is_declared (entry store_clwb bytes128 4096).clobbers 1 ≡ false
unfolding kernel_text registers
undeclared = refl

call-Keeps_example :
    Ensures (λ (r, d). d.vec 1 ≡ cpu.vec 1) (call (entry store_clwb bytes128 4096) cpu)
call-Keeps_example = call-Keeps store_clwb bytes128 4096 1 cpu refl undeclared refl

exec-rand_lfsr64_example : Ensures (Stepped 512 bitmask cpu) (exec (rand_lfsr64 512 bitmask) cpu)
exec-rand_lfsr64_example = exec-rand_lfsr64 512 bitmask cpu (λ a. omega arith) refl

unlfsr-rand_lfsr64_example :
    Ensures
      (λ d. unlfsr (seed_value 512 d) ≡ seed_value 512 cpu)
      (exec (rand_lfsr64 512 bitmask) cpu)
unlfsr-rand_lfsr64_example = unlfsr-rand_lfsr64 512 bitmask cpu (λ a. omega arith) refl

unrand-rand_r_32_example : unrand (rand_r_32 7).seed ≡ 7
unrand-rand_r_32_example = unrand-rand_r_32 7 (omega arith)

macro-Moved_example :
    Ensures
      (Moved
        (u64 (cpu.r10 + lines_in bytes1024 * 64))
        (line_events
          (by_lines (access_by flushing) (flush_by flushing))
          (cpu.r9 + cpu.r10)
          (lines_in bytes1024)
          cpu.history)
        cpu)
      (exec (macro flushing bytes1024) cpu)
macro-Moved_example = macro-Moved flushing bytes1024 cpu refl
