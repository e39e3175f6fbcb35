-- ===== src/Latency/Size128.antt =====
-- The 128-byte kernels of microbenchmarks/common.hpp, one for each inline function there.
use database_benchmarking_op.Prelude.{ℕ, ◌*◌, [], ◌∷◌, ◌++◌}
use database_benchmarking_op.Machine.{
  rdx, reg, clflush, clflushopt, clwb, flush, mov_load, mov_store, vmovdqa_load, vmovntdqa,
  vmovdqa_store, vmovnt_store,
}
use database_benchmarking_op.Latency.Macros.{
  Kernel, rsi_at, load_value, load_addr, flush_cache_line, load_cache_line, clear_pipeline,
  timing_beg, timing_end, registers, registers_nonsse,
}

unfoldable pub store_128byte_fence : ℕ → Kernel
unfolding clear_pipeline load_addr load_cache_line load_value timing_beg timing_end
store_128byte_fence addr =
    let value : ℕ = 0xC0FFEEEEBABE0000 in
    record {
      asm =
          load_value value
          ++ (load_addr addr
              ++ (load_cache_line
                  ++ (clear_pipeline
                      ++ (timing_beg
                          ++ ((vmovdqa_store 32 0 (rsi_at (0 * 32))
                                ∷ vmovdqa_store 32 0 (rsi_at (1 * 32))
                                ∷ vmovdqa_store 32 0 (rsi_at (2 * 32))
                                ∷ vmovdqa_store 32 0 (rsi_at (3 * 32))
                                ∷ [])
                              ++ (timing_end))))));
      clobbers = registers;
    }

unfoldable pub store_128byte_clflush : ℕ → Kernel
unfolding clear_pipeline load_addr load_cache_line load_value timing_beg timing_end
store_128byte_clflush addr =
    let value : ℕ = 0xC0FFEEEEBABE0000 in
    record {
      asm =
          load_addr addr
          ++ (load_value value
              ++ (load_cache_line
                  ++ (clear_pipeline
                      ++ (timing_beg
                          ++ ((vmovdqa_store 32 0 (rsi_at (0 * 32))
                                ∷ vmovdqa_store 32 0 (rsi_at (1 * 32))
                                ∷ flush clflush (rsi_at 0)
                                ∷ vmovdqa_store 32 0 (rsi_at (2 * 32))
                                ∷ vmovdqa_store 32 0 (rsi_at (3 * 32))
                                ∷ flush clflush (rsi_at (2 * 32))
                                ∷ [])
                              ++ (timing_end))))));
      clobbers = registers;
    }

unfoldable pub store_128byte_clwb : ℕ → Kernel
unfolding clear_pipeline load_addr load_cache_line load_value timing_beg timing_end
store_128byte_clwb addr =
    let value : ℕ = 0xC0FFEEEEBABE0000 in
    record {
      asm =
          load_addr addr
          ++ (load_value value
              ++ (load_cache_line
                  ++ (clear_pipeline
                      ++ (timing_beg
                          ++ ((vmovdqa_store 32 0 (rsi_at (0 * 32))
                                ∷ vmovdqa_store 32 0 (rsi_at (1 * 32))
                                ∷ flush clwb (rsi_at 0)
                                ∷ vmovdqa_store 32 0 (rsi_at (2 * 32))
                                ∷ vmovdqa_store 32 0 (rsi_at (3 * 32))
                                ∷ flush clwb (rsi_at (2 * 32))
                                ∷ [])
                              ++ (timing_end))))));
      clobbers = registers;
    }

unfoldable pub store_128byte_clflushopt : ℕ → Kernel
unfolding clear_pipeline load_addr load_cache_line load_value timing_beg timing_end
store_128byte_clflushopt addr =
    let value : ℕ = 0xC0FFEEEEBABE0000 in
    record {
      asm =
          load_addr addr
          ++ (load_value value
              ++ (load_cache_line
                  ++ (clear_pipeline
                      ++ (timing_beg
                          ++ ((vmovdqa_store 32 0 (rsi_at (0 * 32))
                                ∷ vmovdqa_store 32 0 (rsi_at (1 * 32))
                                ∷ flush clflushopt (rsi_at 0)
                                ∷ vmovdqa_store 32 0 (rsi_at (2 * 32))
                                ∷ vmovdqa_store 32 0 (rsi_at (3 * 32))
                                ∷ flush clflushopt (rsi_at (2 * 32))
                                ∷ [])
                              ++ (timing_end))))));
      clobbers = registers;
    }

unfoldable pub nstore_128byte_fence : ℕ → Kernel
unfolding clear_pipeline flush_cache_line load_addr load_value timing_beg timing_end
nstore_128byte_fence addr =
    let value : ℕ = 0xC0FFEEEEBABE0000 in
    record {
      asm =
          load_addr addr
          ++ (load_value value
              ++ (flush_cache_line
                  ++ (clear_pipeline
                      ++ (timing_beg
                          ++ ((vmovnt_store 32 0 (rsi_at (0 * 32))
                                ∷ vmovnt_store 32 0 (rsi_at (1 * 32))
                                ∷ vmovnt_store 32 0 (rsi_at (2 * 32))
                                ∷ vmovnt_store 32 0 (rsi_at (3 * 32))
                                ∷ [])
                              ++ (timing_end))))));
      clobbers = registers;
    }

unfoldable pub load_128byte_fence : ℕ → Kernel
unfolding clear_pipeline flush_cache_line load_addr timing_beg timing_end
load_128byte_fence addr = record {
  asm =
      load_addr addr
      ++ (flush_cache_line
          ++ (clear_pipeline
              ++ (timing_beg
                  ++ ((vmovdqa_load 32 (rsi_at (0 * 32)) 0
                        ∷ vmovdqa_load 32 (rsi_at (1 * 32)) 1
                        ∷ vmovdqa_load 32 (rsi_at (2 * 32)) 1
                        ∷ vmovdqa_load 32 (rsi_at (3 * 32)) 1
                        ∷ [])
                      ++ (timing_end)))));
  clobbers = registers;
}

unfoldable pub load_128byte_fence_nt : ℕ → Kernel
unfolding clear_pipeline flush_cache_line load_addr timing_beg timing_end
load_128byte_fence_nt addr = record {
  asm =
      load_addr addr
      ++ (flush_cache_line
          ++ (clear_pipeline
              ++ (timing_beg
                  ++ ((vmovntdqa 32 (rsi_at (0 * 32)) 0
                        ∷ vmovntdqa 32 (rsi_at (1 * 32)) 1
                        ∷ vmovntdqa 32 (rsi_at (2 * 32)) 1
                        ∷ vmovntdqa 32 (rsi_at (3 * 32)) 1
                        ∷ [])
                      ++ (timing_end)))));
  clobbers = registers;
}

unfoldable pub store_128byte_fence_movq : ℕ → Kernel
unfolding clear_pipeline load_addr load_cache_line timing_beg timing_end
store_128byte_fence_movq addr = record {
  asm =
      load_addr addr
      ++ (load_cache_line
          ++ (clear_pipeline
              ++ (timing_beg
                  ++ ((mov_store (reg rdx) (rsi_at (0 * 8))
                        ∷ mov_store (reg rdx) (rsi_at (1 * 8))
                        ∷ mov_store (reg rdx) (rsi_at (2 * 8))
                        ∷ mov_store (reg rdx) (rsi_at (3 * 8))
                        ∷ mov_store (reg rdx) (rsi_at (4 * 8))
                        ∷ mov_store (reg rdx) (rsi_at (5 * 8))
                        ∷ mov_store (reg rdx) (rsi_at (6 * 8))
                        ∷ mov_store (reg rdx) (rsi_at (7 * 8))
                        ∷ mov_store (reg rdx) (rsi_at (8 * 8))
                        ∷ mov_store (reg rdx) (rsi_at (9 * 8))
                        ∷ mov_store (reg rdx) (rsi_at (10 * 8))
                        ∷ mov_store (reg rdx) (rsi_at (11 * 8))
                        ∷ mov_store (reg rdx) (rsi_at (12 * 8))
                        ∷ mov_store (reg rdx) (rsi_at (13 * 8))
                        ∷ mov_store (reg rdx) (rsi_at (14 * 8))
                        ∷ mov_store (reg rdx) (rsi_at (15 * 8))
                        ∷ [])
                      ++ (timing_end)))));
  clobbers = registers;
}

unfoldable pub store_128byte_clflush_movq : ℕ → Kernel
unfolding clear_pipeline load_addr load_cache_line timing_beg timing_end
store_128byte_clflush_movq addr = record {
  asm =
      load_addr addr
      ++ (load_cache_line
          ++ (clear_pipeline
              ++ (timing_beg
                  ++ ((mov_store (reg rdx) (rsi_at (0 * 8))
                        ∷ mov_store (reg rdx) (rsi_at (1 * 8))
                        ∷ mov_store (reg rdx) (rsi_at (2 * 8))
                        ∷ mov_store (reg rdx) (rsi_at (3 * 8))
                        ∷ mov_store (reg rdx) (rsi_at (4 * 8))
                        ∷ mov_store (reg rdx) (rsi_at (5 * 8))
                        ∷ mov_store (reg rdx) (rsi_at (6 * 8))
                        ∷ mov_store (reg rdx) (rsi_at (7 * 8))
                        ∷ flush clflush (rsi_at 0)
                        ∷ mov_store (reg rdx) (rsi_at (8 * 8))
                        ∷ mov_store (reg rdx) (rsi_at (9 * 8))
                        ∷ mov_store (reg rdx) (rsi_at (10 * 8))
                        ∷ mov_store (reg rdx) (rsi_at (11 * 8))
                        ∷ mov_store (reg rdx) (rsi_at (12 * 8))
                        ∷ mov_store (reg rdx) (rsi_at (13 * 8))
                        ∷ mov_store (reg rdx) (rsi_at (14 * 8))
                        ∷ mov_store (reg rdx) (rsi_at (15 * 8))
                        ∷ flush clflush (rsi_at (8 * 8))
                        ∷ [])
                      ++ (timing_end)))));
  clobbers = registers_nonsse;
}

unfoldable pub load_128byte_fence_movq : ℕ → Kernel
unfolding clear_pipeline flush_cache_line load_addr timing_beg timing_end
load_128byte_fence_movq addr = record {
  asm =
      load_addr addr
      ++ (flush_cache_line
          ++ (clear_pipeline
              ++ (timing_beg
                  ++ ((mov_load (rsi_at (0 * 8)) rdx
                        ∷ mov_load (rsi_at (1 * 8)) rdx
                        ∷ mov_load (rsi_at (2 * 8)) rdx
                        ∷ mov_load (rsi_at (3 * 8)) rdx
                        ∷ mov_load (rsi_at (4 * 8)) rdx
                        ∷ mov_load (rsi_at (5 * 8)) rdx
                        ∷ mov_load (rsi_at (6 * 8)) rdx
                        ∷ mov_load (rsi_at (7 * 8)) rdx
                        ∷ mov_load (rsi_at (8 * 8)) rdx
                        ∷ mov_load (rsi_at (9 * 8)) rdx
                        ∷ mov_load (rsi_at (10 * 8)) rdx
                        ∷ mov_load (rsi_at (11 * 8)) rdx
                        ∷ mov_load (rsi_at (12 * 8)) rdx
                        ∷ mov_load (rsi_at (13 * 8)) rdx
                        ∷ mov_load (rsi_at (14 * 8)) rdx
                        ∷ mov_load (rsi_at (15 * 8)) rdx
                        ∷ [])
                      ++ (timing_end)))));
  clobbers = registers_nonsse;
}
