-- ===== src/Latency/Size256.antt =====
-- The 256-byte kernels of microbenchmarks/common.hpp, one for each inline function there.
use database_benchmarking_op.Prelude.{ℕ, ◌*◌, [], ◌∷◌, ◌++◌}
use database_benchmarking_op.Machine.{
  clflush, clflushopt, clwb, flush, vmovdqa_load, vmovntdqa, vmovdqa_store, vmovnt_store,
}
use database_benchmarking_op.Latency.Macros.{
  Kernel, rsi_at, load_value, load_addr, flush_cache_line, load_cache_line, clear_pipeline,
  timing_beg, timing_end, registers,
}

unfoldable pub store_256byte_fence : ℕ → Kernel
unfolding clear_pipeline load_addr load_cache_line load_value timing_beg timing_end
store_256byte_fence addr =
    let value : ℕ = 0xC0FFEEEEBABE0000 in
    record {
      asm =
          load_value value
          ++ (load_addr addr
              ++ (load_cache_line
                  ++ (clear_pipeline
                      ++ (timing_beg
                          ++ ((vmovdqa_store 32 0 (rsi_at (0 * 32))
                                ∷ vmovdqa_store 32 0 (rsi_at (1 * 32))
                                ∷ vmovdqa_store 32 0 (rsi_at (2 * 32))
                                ∷ vmovdqa_store 32 0 (rsi_at (3 * 32))
                                ∷ vmovdqa_store 32 0 (rsi_at (4 * 32))
                                ∷ vmovdqa_store 32 0 (rsi_at (5 * 32))
                                ∷ vmovdqa_store 32 0 (rsi_at (6 * 32))
                                ∷ vmovdqa_store 32 0 (rsi_at (7 * 32))
                                ∷ [])
                              ++ (timing_end))))));
      clobbers = registers;
    }

unfoldable pub store_256byte_clflush : ℕ → Kernel
unfolding clear_pipeline load_addr load_cache_line load_value timing_beg timing_end
store_256byte_clflush addr =
    let value : ℕ = 0xC0FFEEEEBABE0000 in
    record {
      asm =
          load_addr addr
          ++ (load_value value
              ++ (load_cache_line
                  ++ (clear_pipeline
                      ++ (timing_beg
                          ++ ((vmovdqa_store 32 0 (rsi_at (0 * 32))
                                ∷ vmovdqa_store 32 0 (rsi_at (1 * 32))
                                ∷ flush clflush (rsi_at (0 * 32))
                                ∷ vmovdqa_store 32 0 (rsi_at (2 * 32))
                                ∷ vmovdqa_store 32 0 (rsi_at (3 * 32))
                                ∷ flush clflush (rsi_at (2 * 32))
                                ∷ vmovdqa_store 32 0 (rsi_at (4 * 32))
                                ∷ vmovdqa_store 32 0 (rsi_at (5 * 32))
                                ∷ flush clflush (rsi_at (4 * 32))
                                ∷ vmovdqa_store 32 0 (rsi_at (6 * 32))
                                ∷ vmovdqa_store 32 0 (rsi_at (7 * 32))
                                ∷ flush clflush (rsi_at (6 * 32))
                                ∷ [])
                              ++ (timing_end))))));
      clobbers = registers;
    }

unfoldable pub store_256byte_clwb : ℕ → Kernel
unfolding clear_pipeline load_addr load_cache_line load_value timing_beg timing_end
store_256byte_clwb addr =
    let value : ℕ = 0xC0FFEEEEBABE0000 in
    record {
      asm =
          load_addr addr
          ++ (load_value value
              ++ (load_cache_line
                  ++ (clear_pipeline
                      ++ (timing_beg
                          ++ ((vmovdqa_store 32 0 (rsi_at (0 * 32))
                                ∷ vmovdqa_store 32 0 (rsi_at (1 * 32))
                                ∷ flush clwb (rsi_at (0 * 32))
                                ∷ vmovdqa_store 32 0 (rsi_at (2 * 32))
                                ∷ vmovdqa_store 32 0 (rsi_at (3 * 32))
                                ∷ flush clwb (rsi_at (2 * 32))
                                ∷ vmovdqa_store 32 0 (rsi_at (4 * 32))
                                ∷ vmovdqa_store 32 0 (rsi_at (5 * 32))
                                ∷ flush clwb (rsi_at (4 * 32))
                                ∷ vmovdqa_store 32 0 (rsi_at (6 * 32))
                                ∷ vmovdqa_store 32 0 (rsi_at (7 * 32))
                                ∷ flush clwb (rsi_at (6 * 32))
                                ∷ [])
                              ++ (timing_end))))));
      clobbers = registers;
    }

unfoldable pub store_256byte_clflushopt : ℕ → Kernel
unfolding clear_pipeline load_addr load_cache_line load_value timing_beg timing_end
store_256byte_clflushopt addr =
    let value : ℕ = 0xC0FFEEEEBABE0000 in
    record {
      asm =
          load_addr addr
          ++ (load_value value
              ++ (load_cache_line
                  ++ (clear_pipeline
                      ++ (timing_beg
                          ++ ((vmovdqa_store 32 0 (rsi_at (0 * 32))
                                ∷ vmovdqa_store 32 0 (rsi_at (1 * 32))
                                ∷ flush clflushopt (rsi_at (0 * 32))
                                ∷ vmovdqa_store 32 0 (rsi_at (2 * 32))
                                ∷ vmovdqa_store 32 0 (rsi_at (3 * 32))
                                ∷ flush clflushopt (rsi_at (2 * 32))
                                ∷ vmovdqa_store 32 0 (rsi_at (4 * 32))
                                ∷ vmovdqa_store 32 0 (rsi_at (5 * 32))
                                ∷ flush clflushopt (rsi_at (4 * 32))
                                ∷ vmovdqa_store 32 0 (rsi_at (6 * 32))
                                ∷ vmovdqa_store 32 0 (rsi_at (7 * 32))
                                ∷ flush clflushopt (rsi_at (6 * 32))
                                ∷ [])
                              ++ (timing_end))))));
      clobbers = registers;
    }

unfoldable pub nstore_256byte_fence : ℕ → Kernel
unfolding clear_pipeline flush_cache_line load_addr load_value timing_beg timing_end
nstore_256byte_fence addr =
    let value : ℕ = 0xC0FFEEEEBABE0000 in
    record {
      asm =
          load_addr addr
          ++ (load_value value
              ++ (flush_cache_line
                  ++ (clear_pipeline
                      ++ (timing_beg
                          ++ ((vmovnt_store 32 0 (rsi_at (0 * 32))
                                ∷ vmovnt_store 32 0 (rsi_at (1 * 32))
                                ∷ vmovnt_store 32 0 (rsi_at (2 * 32))
                                ∷ vmovnt_store 32 0 (rsi_at (3 * 32))
                                ∷ vmovnt_store 32 0 (rsi_at (4 * 32))
                                ∷ vmovnt_store 32 0 (rsi_at (5 * 32))
                                ∷ vmovnt_store 32 0 (rsi_at (6 * 32))
                                ∷ vmovnt_store 32 0 (rsi_at (7 * 32))
                                ∷ [])
                              ++ (timing_end))))));
      clobbers = registers;
    }

unfoldable pub load_256byte_fence : ℕ → Kernel
unfolding clear_pipeline flush_cache_line load_addr timing_beg timing_end
load_256byte_fence addr = record {
  asm =
      load_addr addr
      ++ (flush_cache_line
          ++ (clear_pipeline
              ++ (timing_beg
                  ++ ((vmovdqa_load 32 (rsi_at (0 * 32)) 0
                        ∷ vmovdqa_load 32 (rsi_at (1 * 32)) 1
                        ∷ vmovdqa_load 32 (rsi_at (2 * 32)) 1
                        ∷ vmovdqa_load 32 (rsi_at (3 * 32)) 1
                        ∷ vmovdqa_load 32 (rsi_at (4 * 32)) 1
                        ∷ vmovdqa_load 32 (rsi_at (5 * 32)) 1
                        ∷ vmovdqa_load 32 (rsi_at (6 * 32)) 1
                        ∷ vmovdqa_load 32 (rsi_at (7 * 32)) 1
                        ∷ [])
                      ++ (timing_end)))));
  clobbers = registers;
}

unfoldable pub load_256byte_fence_nt : ℕ → Kernel
unfolding clear_pipeline flush_cache_line load_addr timing_beg timing_end
load_256byte_fence_nt addr = record {
  asm =
      load_addr addr
      ++ (flush_cache_line
          ++ (clear_pipeline
              ++ (timing_beg
                  ++ ((vmovntdqa 32 (rsi_at (0 * 32)) 0
                        ∷ vmovntdqa 32 (rsi_at (1 * 32)) 1
                        ∷ vmovntdqa 32 (rsi_at (2 * 32)) 1
                        ∷ vmovntdqa 32 (rsi_at (3 * 32)) 1
                        ∷ vmovntdqa 32 (rsi_at (4 * 32)) 1
                        ∷ vmovntdqa 32 (rsi_at (5 * 32)) 1
                        ∷ vmovntdqa 32 (rsi_at (6 * 32)) 1
                        ∷ vmovntdqa 32 (rsi_at (7 * 32)) 1
                        ∷ [])
                      ++ (timing_end)))));
  clobbers = registers;
}
