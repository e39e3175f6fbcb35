-- ===== src/Memaccess/ReadAfterWrite.antt =====
-- stride_read_after_write of microbenchmarks/memaccess.cc.
use database_benchmarking_op.Prelude.{ℕ, [], ◌∷◌}
use database_benchmarking_op.Machine.{
  Code, add, do_while, fence, imm, inc, indexed, lea, mfence, movq_to_xmm, r10, r11, r8, r9, reg,
  run, xor_, ◌⨾◌,
}
use database_benchmarking_op.Memaccess.NonTemporal.{sizebtnt_64_avx512}
use database_benchmarking_op.Memaccess.StoreFlush.{sizebtstflush_64_avx512}

unfoldable pub stride_read_after_write : ℕ → ℕ → ℕ → ℕ → ℕ → Code
stride_read_after_write start_addr size skip delay count =
    run (xor_ (reg r8) r8 ∷ xor_ (reg r11) r11 ∷ movq_to_xmm (imm start_addr) 0 ∷ [])
    ⨾ do_while
        (run (lea (indexed 0 (imm start_addr) (reg r8)) r9 ∷ xor_ (reg r10) r10 ∷ [])
          ⨾ do_while (run sizebtstflush_64_avx512) (imm size) r10
          ⨾ run (fence mfence ∷ xor_ (reg r10) r10 ∷ [])
          ⨾ do_while (run sizebtnt_64_avx512) (imm size) r10
          ⨾ run (fence mfence ∷ xor_ (reg r10) r10 ∷ [])
          ⨾ do_while (run (inc r10 ∷ [])) (imm delay) r10
          ⨾ run (add (imm skip) r8 ∷ inc r11 ∷ []))
        (imm count) r11
