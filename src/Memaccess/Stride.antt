-- ===== src/Memaccess/Stride.antt =====
-- The stride_ functions of microbenchmarks/memaccess.cc: accesses of `size` bytes, `skip` bytes apart, with a delay loop after each.
use database_benchmarking_op.Prelude.{ℕ, [], ◌∷◌}
use database_benchmarking_op.Machine.{
  Code, add, do_while, imm, inc, indexed, lea, movq_to_xmm, r10, r11, r8, r9, reg, run, xor_, ◌⨾◌,
}
use database_benchmarking_op.Memaccess.Load.{sizebtld_256_avx512}
use database_benchmarking_op.Memaccess.NonTemporal.{sizebtnt_256_avx512}
use database_benchmarking_op.Memaccess.Store.{sizebtst_64_avx512}
use database_benchmarking_op.Memaccess.StoreFlush.{sizebtstflush_256_avx512}

unfoldable pub stride_load : ℕ → ℕ → ℕ → ℕ → ℕ → Code
stride_load start_addr size skip delay count =
    run (xor_ (reg r8) r8 ∷ xor_ (reg r11) r11 ∷ [])
    ⨾ do_while
        (run (lea (indexed 0 (imm start_addr) (reg r8)) r9 ∷ xor_ (reg r10) r10 ∷ [])
          ⨾ do_while (run sizebtld_256_avx512) (imm size) r10
          ⨾ run (xor_ (reg r10) r10 ∷ [])
          ⨾ do_while (run (inc r10 ∷ [])) (imm delay) r10
          ⨾ run (add (imm skip) r8 ∷ inc r11 ∷ []))
        (imm count) r11

unfoldable pub stride_nt : ℕ → ℕ → ℕ → ℕ → ℕ → Code
stride_nt start_addr size skip delay count =
    run (xor_ (reg r8) r8 ∷ xor_ (reg r11) r11 ∷ movq_to_xmm (imm start_addr) 0 ∷ [])
    ⨾ do_while
        (run (lea (indexed 0 (imm start_addr) (reg r8)) r9 ∷ xor_ (reg r10) r10 ∷ [])
          ⨾ do_while (run sizebtnt_256_avx512) (imm size) r10
          ⨾ run (xor_ (reg r10) r10 ∷ [])
          ⨾ do_while (run (inc r10 ∷ [])) (imm delay) r10
          ⨾ run (add (imm skip) r8 ∷ inc r11 ∷ []))
        (imm count) r11

unfoldable pub stride_store : ℕ → ℕ → ℕ → ℕ → ℕ → Code
stride_store start_addr size skip delay count =
    run (xor_ (reg r8) r8 ∷ xor_ (reg r11) r11 ∷ movq_to_xmm (imm start_addr) 0 ∷ [])
    ⨾ do_while
        (run (lea (indexed 0 (imm start_addr) (reg r8)) r9 ∷ xor_ (reg r10) r10 ∷ [])
          ⨾ do_while (run sizebtst_64_avx512) (imm size) r10
          ⨾ run (xor_ (reg r10) r10 ∷ [])
          ⨾ do_while (run (inc r10 ∷ [])) (imm delay) r10
          ⨾ run (add (imm skip) r8 ∷ inc r11 ∷ []))
        (imm count) r11

unfoldable pub stride_storeclwb : ℕ → ℕ → ℕ → ℕ → ℕ → Code
stride_storeclwb start_addr size skip delay count =
    run (xor_ (reg r8) r8 ∷ xor_ (reg r11) r11 ∷ movq_to_xmm (imm start_addr) 0 ∷ [])
    ⨾ do_while
        (run (lea (indexed 0 (imm start_addr) (reg r8)) r9 ∷ xor_ (reg r10) r10 ∷ [])
          ⨾ do_while (run sizebtstflush_256_avx512) (imm size) r10
          ⨾ run (xor_ (reg r10) r10 ∷ [])
          ⨾ do_while (run (inc r10 ∷ [])) (imm delay) r10
          ⨾ run (add (imm skip) r8 ∷ inc r11 ∷ []))
        (imm count) r11
