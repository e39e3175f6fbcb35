-- ===== src/Latency/Tables.antt =====
-- The tables of latency functions and their names in microbenchmarks/run_thread.cc.
use Prim.Native.String.{String}
use database_benchmarking_op.Prelude.{ℕ, List, [], ◌∷◌}
use database_benchmarking_op.Latency.Macros.{Kernel}
use database_benchmarking_op.Latency.Size64.{
  store_64byte_fence, store_64byte_clflush, store_64byte_clwb, store_64byte_clflushopt,
  nstore_64byte_fence, load_64byte_fence, load_64byte_fence_nt, baseline, store_64byte_fence_movq,
  store_64byte_clflush_movq, load_64byte_fence_movq,
}
use database_benchmarking_op.Latency.Size128.{
  store_128byte_fence, store_128byte_clflush, store_128byte_clwb, store_128byte_clflushopt,
  nstore_128byte_fence, load_128byte_fence, load_128byte_fence_nt, store_128byte_fence_movq,
  store_128byte_clflush_movq, load_128byte_fence_movq,
}
use database_benchmarking_op.Latency.Size256.{
  store_256byte_fence, store_256byte_clflush, store_256byte_clwb, store_256byte_clflushopt,
  nstore_256byte_fence, load_256byte_fence, load_256byte_fence_nt,
}
use database_benchmarking_op.Latency.Size256Movq.{
  store_256byte_fence_movq, store_256byte_clflush_movq, load_256byte_fence_movq,
}

unfoldable pub latency_funcs_64byte : List (ℕ → Kernel)
latency_funcs_64byte =
    load_64byte_fence ∷ load_64byte_fence_nt ∷ store_64byte_fence ∷ store_64byte_clflush
    ∷ store_64byte_clwb ∷ store_64byte_clflushopt ∷ nstore_64byte_fence ∷ store_64byte_fence_movq
    ∷ store_64byte_clflush_movq ∷ load_64byte_fence_movq ∷ baseline ∷ []

unfoldable pub latency_funcs_256byte : List (ℕ → Kernel)
latency_funcs_256byte =
    load_256byte_fence ∷ load_256byte_fence_nt ∷ store_256byte_fence ∷ store_256byte_clflush
    ∷ store_256byte_clwb ∷ store_256byte_clflushopt ∷ nstore_256byte_fence
    ∷ store_256byte_fence_movq ∷ store_256byte_clflush_movq ∷ load_256byte_fence_movq ∷ baseline
    ∷ []

unfoldable pub latency_funcs_128byte : List (ℕ → Kernel)
latency_funcs_128byte =
    load_128byte_fence ∷ load_128byte_fence_nt ∷ store_128byte_fence ∷ store_128byte_clflush
    ∷ store_128byte_clwb ∷ store_128byte_clflushopt ∷ nstore_128byte_fence
    ∷ store_128byte_fence_movq ∷ store_128byte_clflush_movq ∷ load_128byte_fence_movq ∷ baseline
    ∷ []

unfoldable pub latency_bench_map : List String
latency_bench_map =
    "load-fence" ∷ "ntload-fence" ∷ "store-fence" ∷ "store-clflush" ∷ "store-clwb"
    ∷ "store-clflushopt" ∷ "ntstore-fence" ∷ "store-fence-movq" ∷ "store-clflush-movq"
    ∷ "load-fence-movq" ∷ "baseline" ∷ []

-- The entries that the initialiser lists; the others, up to BASIC_OPS_TASK_COUNT, are null.
unfoldable pub bench_func : List (ℕ → Kernel)
bench_func = load_64byte_fence ∷ store_64byte_clwb ∷ nstore_64byte_fence ∷ []

-- The three widths that the kernels come in.
pub data AccessSize : Type 0 where
  bytes64 bytes128 bytes256 : AccessSize

unfoldable pub latency_funcs : AccessSize → List (ℕ → Kernel)
unfolding latency_funcs_64byte latency_funcs_128byte latency_funcs_256byte
latency_funcs bytes64 = latency_funcs_64byte
latency_funcs bytes128 = latency_funcs_128byte
latency_funcs bytes256 = latency_funcs_256byte
