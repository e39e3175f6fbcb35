-- ===== src/Memaccess/Sizebw.antt =====
-- The sizebw_ functions of microbenchmarks/memaccess.cc: accesses of `size` bytes at random offsets.
use database_benchmarking_op.Prelude.{ℕ, [], ◌∷◌}
use database_benchmarking_op.Machine.{
  Code, add, do_while, imm, indexed, lea, mov, movq_to_xmm, r10, r11, r8, r9, rcx, reg, run, xor_,
  ◌⨾◌,
}
use database_benchmarking_op.Memaccess.Load.{sizebtld_512_avx512}
use database_benchmarking_op.Memaccess.NonTemporal.{sizebtnt_512_avx512}
use database_benchmarking_op.Memaccess.Store.{sizebtst_512_avx512}
use database_benchmarking_op.Memaccess.StoreFlush.{sizebtstflush_512_avx512}
use database_benchmarking_op.Random.Lfsr.{rand_lfsr64}

unfoldable pub sizebw_load : ℕ → ℕ → ℕ → ℕ → ℕ → Code
sizebw_load start_addr size count rand_seed access_mask =
    run (mov (imm 0xd800000000000000) rcx ∷ xor_ (reg r8) r8 ∷ xor_ (reg r11) r11 ∷ [])
    ⨾ do_while
        (run (rand_lfsr64 rand_seed access_mask)
          ⨾ run (lea (indexed 0 (imm start_addr) (reg r8)) r9 ∷ xor_ (reg r10) r10 ∷ [])
          ⨾ do_while (run sizebtld_512_avx512) (imm size) r10
          ⨾ run (rand_lfsr64 rand_seed access_mask)
          ⨾ run (lea (indexed 0 (imm start_addr) (reg r8)) r9 ∷ xor_ (reg r10) r10 ∷ [])
          ⨾ do_while (run sizebtld_512_avx512) (imm size) r10
          ⨾ run (rand_lfsr64 rand_seed access_mask)
          ⨾ run (lea (indexed 0 (imm start_addr) (reg r8)) r9 ∷ xor_ (reg r10) r10 ∷ [])
          ⨾ do_while (run sizebtld_512_avx512) (imm size) r10
          ⨾ run (rand_lfsr64 rand_seed access_mask)
          ⨾ run (lea (indexed 0 (imm start_addr) (reg r8)) r9 ∷ xor_ (reg r10) r10 ∷ [])
          ⨾ do_while (run sizebtld_512_avx512) (imm size) r10
          ⨾ run (add (imm 4) r11 ∷ []))
        (imm count) r11

unfoldable pub sizebw_nt : ℕ → ℕ → ℕ → ℕ → ℕ → Code
sizebw_nt start_addr size count rand_seed access_mask =
    run
      (mov (imm 0xd800000000000000) rcx ∷ xor_ (reg r11) r11 ∷ movq_to_xmm (imm start_addr) 0 ∷ [])
    ⨾ do_while
        (run (rand_lfsr64 rand_seed access_mask)
          ⨾ run (lea (indexed 0 (imm start_addr) (reg r8)) r9 ∷ xor_ (reg r10) r10 ∷ [])
          ⨾ do_while (run sizebtnt_512_avx512) (imm size) r10
          ⨾ run (rand_lfsr64 rand_seed access_mask)
          ⨾ run (lea (indexed 0 (imm start_addr) (reg r8)) r9 ∷ xor_ (reg r10) r10 ∷ [])
          ⨾ do_while (run sizebtnt_512_avx512) (imm size) r10
          ⨾ run (rand_lfsr64 rand_seed access_mask)
          ⨾ run (lea (indexed 0 (imm start_addr) (reg r8)) r9 ∷ xor_ (reg r10) r10 ∷ [])
          ⨾ do_while (run sizebtnt_512_avx512) (imm size) r10
          ⨾ run (rand_lfsr64 rand_seed access_mask)
          ⨾ run (lea (indexed 0 (imm start_addr) (reg r8)) r9 ∷ xor_ (reg r10) r10 ∷ [])
          ⨾ do_while (run sizebtnt_512_avx512) (imm size) r10
          ⨾ run (add (imm 4) r11 ∷ []))
        (imm count) r11

unfoldable pub sizebw_store : ℕ → ℕ → ℕ → ℕ → ℕ → Code
sizebw_store start_addr size count rand_seed access_mask =
    run
      (mov (imm 0xd800000000000000) rcx ∷ xor_ (reg r11) r11 ∷ movq_to_xmm (imm start_addr) 0 ∷ [])
    ⨾ do_while
        (run (rand_lfsr64 rand_seed access_mask)
          ⨾ run (lea (indexed 0 (imm start_addr) (reg r8)) r9 ∷ xor_ (reg r10) r10 ∷ [])
          ⨾ do_while (run sizebtst_512_avx512) (imm size) r10
          ⨾ run (rand_lfsr64 rand_seed access_mask)
          ⨾ run (lea (indexed 0 (imm start_addr) (reg r8)) r9 ∷ xor_ (reg r10) r10 ∷ [])
          ⨾ do_while (run sizebtst_512_avx512) (imm size) r10
          ⨾ run (rand_lfsr64 rand_seed access_mask)
          ⨾ run (lea (indexed 0 (imm start_addr) (reg r8)) r9 ∷ xor_ (reg r10) r10 ∷ [])
          ⨾ do_while (run sizebtst_512_avx512) (imm size) r10
          ⨾ run (rand_lfsr64 rand_seed access_mask)
          ⨾ run (lea (indexed 0 (imm start_addr) (reg r8)) r9 ∷ xor_ (reg r10) r10 ∷ [])
          ⨾ do_while (run sizebtst_512_avx512) (imm size) r10
          ⨾ run (add (imm 4) r11 ∷ []))
        (imm count) r11

unfoldable pub sizebw_storeclwb : ℕ → ℕ → ℕ → ℕ → ℕ → Code
sizebw_storeclwb start_addr size count rand_seed access_mask =
    run
      (mov (imm 0xd800000000000000) rcx ∷ xor_ (reg r11) r11 ∷ movq_to_xmm (imm start_addr) 0 ∷ [])
    ⨾ do_while
        (run (rand_lfsr64 rand_seed access_mask)
          ⨾ run (lea (indexed 0 (imm start_addr) (reg r8)) r9 ∷ xor_ (reg r10) r10 ∷ [])
          ⨾ do_while (run sizebtstflush_512_avx512) (imm size) r10
          ⨾ run (rand_lfsr64 rand_seed access_mask)
          ⨾ run (lea (indexed 0 (imm start_addr) (reg r8)) r9 ∷ xor_ (reg r10) r10 ∷ [])
          ⨾ do_while (run sizebtstflush_512_avx512) (imm size) r10
          ⨾ run (rand_lfsr64 rand_seed access_mask)
          ⨾ run (lea (indexed 0 (imm start_addr) (reg r8)) r9 ∷ xor_ (reg r10) r10 ∷ [])
          ⨾ do_while (run sizebtstflush_512_avx512) (imm size) r10
          ⨾ run (rand_lfsr64 rand_seed access_mask)
          ⨾ run (lea (indexed 0 (imm start_addr) (reg r8)) r9 ∷ xor_ (reg r10) r10 ∷ [])
          ⨾ do_while (run sizebtstflush_512_avx512) (imm size) r10
          ⨾ run (add (imm 4) r11 ∷ []))
        (imm count) r11
