-- ===== src/Latency/Size256Movq.antt =====
-- The 256-byte movq kernels of microbenchmarks/common.hpp, one for each inline function there.
use database_benchmarking_op.Prelude.{ℕ, ◌*◌, [], ◌∷◌, ◌++◌}
use database_benchmarking_op.Machine.{rdx, reg, clflush, flush, mov_load, mov_store}
use database_benchmarking_op.Latency.Macros.{
  Kernel, rsi_at, load_addr, flush_cache_line, load_cache_line, clear_pipeline, timing_beg,
  timing_end, registers_nonsse,
}

unfoldable pub store_256byte_fence_movq : ℕ → Kernel
unfolding clear_pipeline load_addr load_cache_line timing_beg timing_end
store_256byte_fence_movq addr = record {
  asm =
      load_addr addr
      ++ (load_cache_line
          ++ (clear_pipeline
              ++ (timing_beg
                  ++ ((mov_store (reg rdx) (rsi_at (0 * 8))
                        ∷ mov_store (reg rdx) (rsi_at (1 * 8))
                        ∷ mov_store (reg rdx) (rsi_at (2 * 8))
                        ∷ mov_store (reg rdx) (rsi_at (3 * 8))
                        ∷ mov_store (reg rdx) (rsi_at (4 * 8))
                        ∷ mov_store (reg rdx) (rsi_at (5 * 8))
                        ∷ mov_store (reg rdx) (rsi_at (6 * 8))
                        ∷ mov_store (reg rdx) (rsi_at (7 * 8))
                        ∷ mov_store (reg rdx) (rsi_at (8 * 8))
                        ∷ mov_store (reg rdx) (rsi_at (9 * 8))
                        ∷ mov_store (reg rdx) (rsi_at (10 * 8))
                        ∷ mov_store (reg rdx) (rsi_at (11 * 8))
                        ∷ mov_store (reg rdx) (rsi_at (12 * 8))
                        ∷ mov_store (reg rdx) (rsi_at (13 * 8))
                        ∷ mov_store (reg rdx) (rsi_at (14 * 8))
                        ∷ mov_store (reg rdx) (rsi_at (15 * 8))
                        ∷ mov_store (reg rdx) (rsi_at (16 * 8))
                        ∷ mov_store (reg rdx) (rsi_at (17 * 8))
                        ∷ mov_store (reg rdx) (rsi_at (18 * 8))
                        ∷ mov_store (reg rdx) (rsi_at (19 * 8))
                        ∷ mov_store (reg rdx) (rsi_at (20 * 8))
                        ∷ mov_store (reg rdx) (rsi_at (21 * 8))
                        ∷ mov_store (reg rdx) (rsi_at (22 * 8))
                        ∷ mov_store (reg rdx) (rsi_at (23 * 8))
                        ∷ mov_store (reg rdx) (rsi_at (24 * 8))
                        ∷ mov_store (reg rdx) (rsi_at (25 * 8))
                        ∷ mov_store (reg rdx) (rsi_at (26 * 8))
                        ∷ mov_store (reg rdx) (rsi_at (27 * 8))
                        ∷ mov_store (reg rdx) (rsi_at (28 * 8))
                        ∷ mov_store (reg rdx) (rsi_at (29 * 8))
                        ∷ mov_store (reg rdx) (rsi_at (30 * 8))
                        ∷ mov_store (reg rdx) (rsi_at (31 * 8))
                        ∷ [])
                      ++ (timing_end)))));
  clobbers = registers_nonsse;
}

unfoldable pub store_256byte_clflush_movq : ℕ → Kernel
unfolding clear_pipeline load_addr load_cache_line timing_beg timing_end
store_256byte_clflush_movq addr = record {
  asm =
      load_addr addr
      ++ (load_cache_line
          ++ (clear_pipeline
              ++ (timing_beg
                  ++ ((mov_store (reg rdx) (rsi_at (0 * 8))
                        ∷ mov_store (reg rdx) (rsi_at (1 * 8))
                        ∷ mov_store (reg rdx) (rsi_at (2 * 8))
                        ∷ mov_store (reg rdx) (rsi_at (3 * 8))
                        ∷ mov_store (reg rdx) (rsi_at (4 * 8))
                        ∷ mov_store (reg rdx) (rsi_at (5 * 8))
                        ∷ mov_store (reg rdx) (rsi_at (6 * 8))
                        ∷ mov_store (reg rdx) (rsi_at (7 * 8))
                        ∷ flush clflush (rsi_at (0 * 8))
                        ∷ mov_store (reg rdx) (rsi_at (8 * 8))
                        ∷ mov_store (reg rdx) (rsi_at (9 * 8))
                        ∷ mov_store (reg rdx) (rsi_at (10 * 8))
                        ∷ mov_store (reg rdx) (rsi_at (11 * 8))
                        ∷ mov_store (reg rdx) (rsi_at (12 * 8))
                        ∷ mov_store (reg rdx) (rsi_at (13 * 8))
                        ∷ mov_store (reg rdx) (rsi_at (14 * 8))
                        ∷ mov_store (reg rdx) (rsi_at (15 * 8))
                        ∷ flush clflush (rsi_at (8 * 8))
                        ∷ mov_store (reg rdx) (rsi_at (16 * 8))
                        ∷ mov_store (reg rdx) (rsi_at (17 * 8))
                        ∷ mov_store (reg rdx) (rsi_at (18 * 8))
                        ∷ mov_store (reg rdx) (rsi_at (19 * 8))
                        ∷ mov_store (reg rdx) (rsi_at (20 * 8))
                        ∷ mov_store (reg rdx) (rsi_at (21 * 8))
                        ∷ mov_store (reg rdx) (rsi_at (22 * 8))
                        ∷ mov_store (reg rdx) (rsi_at (23 * 8))
                        ∷ flush clflush (rsi_at (16 * 8))
                        ∷ mov_store (reg rdx) (rsi_at (24 * 8))
                        ∷ mov_store (reg rdx) (rsi_at (25 * 8))
                        ∷ mov_store (reg rdx) (rsi_at (26 * 8))
                        ∷ mov_store (reg rdx) (rsi_at (27 * 8))
                        ∷ mov_store (reg rdx) (rsi_at (28 * 8))
                        ∷ mov_store (reg rdx) (rsi_at (29 * 8))
                        ∷ mov_store (reg rdx) (rsi_at (30 * 8))
                        ∷ mov_store (reg rdx) (rsi_at (31 * 8))
                        ∷ flush clflush (rsi_at (24 * 8))
                        ∷ [])
                      ++ (timing_end)))));
  clobbers = registers_nonsse;
}

unfoldable pub load_256byte_fence_movq : ℕ → Kernel
unfolding clear_pipeline flush_cache_line load_addr timing_beg timing_end
load_256byte_fence_movq addr = record {
  asm =
      load_addr addr
      ++ (flush_cache_line
          ++ (clear_pipeline
              ++ (timing_beg
                  ++ ((mov_load (rsi_at (0 * 8)) rdx
                        ∷ mov_load (rsi_at (1 * 8)) rdx
                        ∷ mov_load (rsi_at (2 * 8)) rdx
                        ∷ mov_load (rsi_at (3 * 8)) rdx
                        ∷ mov_load (rsi_at (4 * 8)) rdx
                        ∷ mov_load (rsi_at (5 * 8)) rdx
                        ∷ mov_load (rsi_at (6 * 8)) rdx
                        ∷ mov_load (rsi_at (7 * 8)) rdx
                        ∷ mov_load (rsi_at (8 * 8)) rdx
                        ∷ mov_load (rsi_at (9 * 8)) rdx
                        ∷ mov_load (rsi_at (10 * 8)) rdx
                        ∷ mov_load (rsi_at (11 * 8)) rdx
                        ∷ mov_load (rsi_at (12 * 8)) rdx
                        ∷ mov_load (rsi_at (13 * 8)) rdx
                        ∷ mov_load (rsi_at (14 * 8)) rdx
                        ∷ mov_load (rsi_at (15 * 8)) rdx
                        ∷ mov_load (rsi_at (16 * 8)) rdx
                        ∷ mov_load (rsi_at (17 * 8)) rdx
                        ∷ mov_load (rsi_at (18 * 8)) rdx
                        ∷ mov_load (rsi_at (19 * 8)) rdx
                        ∷ mov_load (rsi_at (20 * 8)) rdx
                        ∷ mov_load (rsi_at (21 * 8)) rdx
                        ∷ mov_load (rsi_at (22 * 8)) rdx
                        ∷ mov_load (rsi_at (23 * 8)) rdx
                        ∷ mov_load (rsi_at (24 * 8)) rdx
                        ∷ mov_load (rsi_at (25 * 8)) rdx
                        ∷ mov_load (rsi_at (26 * 8)) rdx
                        ∷ mov_load (rsi_at (27 * 8)) rdx
                        ∷ mov_load (rsi_at (28 * 8)) rdx
                        ∷ mov_load (rsi_at (29 * 8)) rdx
                        ∷ mov_load (rsi_at (30 * 8)) rdx
                        ∷ mov_load (rsi_at (31 * 8)) rdx
                        ∷ [])
                      ++ (timing_end)))));
  clobbers = registers_nonsse;
}
