-- ===== src/Memaccess/Mapped.antt =====
-- The loops of microbenchmarks/memaccess.cc over a mapped block device.
use database_benchmarking_op.Prelude.{ℕ, [], ◌∷◌}
use database_benchmarking_op.Machine.{
  Code, add, do_while, imm, inc, indexed, lea, movq_to_xmm, r10, r11, r8, r9, reg, run, xor_, ◌⨾◌,
}
use database_benchmarking_op.Memaccess.Load.{sizebtld_4096_avx512}
use database_benchmarking_op.Memaccess.Store.{sizebtst_4096_avx512}

unfoldable pub stride_ssd_mmap_load : ℕ → ℕ → ℕ → ℕ → ℕ → Code
stride_ssd_mmap_load start_addr size offset fd count =
    let skip = size in
    let delay : ℕ = 0 in
    run (xor_ (reg r8) r8 ∷ xor_ (reg r11) r11 ∷ [])
    ⨾ do_while
        (run (lea (indexed 0 (imm start_addr) (reg r8)) r9 ∷ xor_ (reg r10) r10 ∷ [])
          ⨾ do_while (run sizebtld_4096_avx512) (imm size) r10
          ⨾ run (xor_ (reg r10) r10 ∷ [])
          ⨾ do_while (run (inc r10 ∷ [])) (imm delay) r10
          ⨾ run (add (imm skip) r8 ∷ inc r11 ∷ []))
        (imm count) r11

unfoldable pub stride_ssd_mmap_store : ℕ → ℕ → ℕ → ℕ → ℕ → Code
stride_ssd_mmap_store start_addr size offset fd count =
    let skip = size in
    let delay : ℕ = 0 in
    run (xor_ (reg r8) r8 ∷ xor_ (reg r11) r11 ∷ movq_to_xmm (imm start_addr) 0 ∷ [])
    ⨾ do_while
        (run (lea (indexed 0 (imm start_addr) (reg r8)) r9 ∷ xor_ (reg r10) r10 ∷ [])
          ⨾ do_while (run sizebtst_4096_avx512) (imm size) r10
          ⨾ run (xor_ (reg r10) r10 ∷ [])
          ⨾ do_while (run (inc r10 ∷ [])) (imm delay) r10
          ⨾ run (add (imm skip) r8 ∷ inc r11 ∷ []))
        (imm count) r11
