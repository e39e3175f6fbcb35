-- ===== src/Latency/Names.antt =====
-- The tables of microbenchmarks/run_thread.cc: at every place but the last, the function measures what
-- the name at that place says.
use database_benchmarking_op.Prelude.{ℕ, zero, suc, ◌%◌, ◌<◌, get_elem?, some, ◌≡◌, refl, arith}
use database_benchmarking_op.Machine.{Cpu}
use database_benchmarking_op.Exec.Ensures.{Ensures}
use database_benchmarking_op.Latency.Macros.{Kernel, call}
use database_benchmarking_op.Latency.Tables.{
  AccessSize, bytes64, bytes128, bytes256, latency_funcs, latency_bench_map,
}
use database_benchmarking_op.Latency.Spec.{
  LatencyOp, load_fence, ntload_fence, store_fence, store_clflush, store_clwb, store_clflushopt,
  ntstore_fence, store_fence_movq, store_clflush_movq, load_fence_movq, bench_name, timed_spec,
}
use database_benchmarking_op.Latency.Shape.{index, entry}
use database_benchmarking_op.Latency.Correct.{Measures, call-Measures}

op_at : (i : ℕ) → i < 10 → (op : LatencyOp) × (index op ≡ i)
op_at zero h = (load_fence, refl)
op_at (suc zero) h = (ntload_fence, refl)
op_at (suc (suc zero)) h = (store_fence, refl)
op_at (suc (suc (suc zero))) h = (store_clflush, refl)
op_at (suc (suc (suc (suc zero)))) h = (store_clwb, refl)
op_at (suc (suc (suc (suc (suc zero))))) h = (store_clflushopt, refl)
op_at (suc (suc (suc (suc (suc (suc zero)))))) h = (ntstore_fence, refl)
op_at (suc (suc (suc (suc (suc (suc (suc zero))))))) h = (store_fence_movq, refl)
op_at (suc (suc (suc (suc (suc (suc (suc (suc zero)))))))) h = (store_clflush_movq, refl)
op_at (suc (suc (suc (suc (suc (suc (suc (suc (suc zero))))))))) h = (load_fence_movq, refl)
op_at (suc (suc (suc (suc (suc (suc (suc (suc (suc (suc n)))))))))) h = absurd (omega arith)

named : (op : LatencyOp) → get_elem? latency_bench_map (index op) ≡ some (bench_name op)
unfolding latency_bench_map
named load_fence = refl
named op = refl

listed :
    (op : LatencyOp) (size : AccessSize)
    → get_elem? (latency_funcs size) (index op) ≡ some (entry op size)
unfolding latency_funcs entry
listed load_fence bytes64 = refl
listed op bytes64 = refl
listed load_fence bytes128 = refl
listed op bytes128 = refl
listed load_fence bytes256 = refl
listed op bytes256 = refl

-- For each size and each of the first ten places of the tables there are a name and a function; a call
-- of the function at a line-aligned address does not fault, and measures what the name says, as in
-- `call-Measures`.
pub latency_bench_map-Measures :
    (i : ℕ) (size : AccessSize) (addr : ℕ) (c : Cpu)
    → i < 10
    → addr % 64 ≡ 0
    → (op : LatencyOp) × (k : ℕ → Kernel) × (get_elem? latency_bench_map i ≡ some (bench_name op))
      × (get_elem? (latency_funcs size) i ≡ some k)
      × Ensures (Measures (timed_spec op size addr) c) (call (k addr) c)
latency_bench_map-Measures i size addr c h m =
    let (op, e) = op_at i h in
    (
      op,
      entry op size,
      rw e at (named op),
      rw e at (listed op size),
      call-Measures op size addr c m,
    )
