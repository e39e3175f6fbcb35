-- ===== src/Latency/Repeat.antt =====
-- The repeated 256-byte kernels of microbenchmarks/common.hpp, one for each inline function there.
use database_benchmarking_op.Prelude.{ℕ, ◌*◌, [], ◌∷◌, ◌++◌}
use database_benchmarking_op.Machine.{vmovntdqa, vmovnt_store}
use database_benchmarking_op.Latency.Macros.{
  Kernel, rsi_at, load_value, load_addr, timing_beg, timing_end, registers,
}

unfoldable pub repeat_256byte_ntstore : ℕ → Kernel
unfolding load_addr load_value timing_beg timing_end
repeat_256byte_ntstore addr =
    let value : ℕ = 0xC0FFEEEEBABE0000 in
    record {
      asm =
          load_value value
          ++ (load_addr addr
              ++ (timing_beg
                  ++ ((vmovnt_store 32 0 (rsi_at (0 * 32))
                        ∷ vmovnt_store 32 0 (rsi_at (1 * 32))
                        ∷ vmovnt_store 32 0 (rsi_at (2 * 32))
                        ∷ vmovnt_store 32 0 (rsi_at (3 * 32))
                        ∷ vmovnt_store 32 0 (rsi_at (4 * 32))
                        ∷ vmovnt_store 32 0 (rsi_at (5 * 32))
                        ∷ vmovnt_store 32 0 (rsi_at (6 * 32))
                        ∷ vmovnt_store 32 0 (rsi_at (7 * 32))
                        ∷ [])
                      ++ (timing_end))));
      clobbers = registers;
    }

unfoldable pub repeat_256byte_load : ℕ → Kernel
unfolding load_addr load_value timing_beg timing_end
repeat_256byte_load addr =
    let value : ℕ = 0xC0FFEEEEBABE0000 in
    record {
      asm =
          load_value value
          ++ (load_addr addr
              ++ (timing_beg
                  ++ ((vmovntdqa 32 (rsi_at (0 * 32)) 0
                        ∷ vmovntdqa 32 (rsi_at (1 * 32)) 1
                        ∷ vmovntdqa 32 (rsi_at (2 * 32)) 2
                        ∷ vmovntdqa 32 (rsi_at (3 * 32)) 3
                        ∷ vmovntdqa 32 (rsi_at (4 * 32)) 4
                        ∷ vmovntdqa 32 (rsi_at (5 * 32)) 5
                        ∷ vmovntdqa 32 (rsi_at (6 * 32)) 6
                        ∷ vmovntdqa 32 (rsi_at (7 * 32)) 7
                        ∷ [])
                      ++ (timing_end))));
      clobbers = registers;
    }
