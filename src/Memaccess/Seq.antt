-- ===== src/Memaccess/Seq.antt =====
-- The seq_ functions of microbenchmarks/memaccess.cc.
use database_benchmarking_op.Prelude.{ℕ, [], ◌∷◌}
use database_benchmarking_op.Machine.{
  Code, add, clwb, do_while, flush, imm, indexed, mov, movq_to_xmm, r8, r9, reg, run, vmovdqa_store,
  vmovnt_store, vmovntdqa, xor_, ◌⨾◌,
}

unfoldable pub seq_load : ℕ → ℕ → ℕ → Code
seq_load start_addr end_addr size =
    run (mov (imm start_addr) r9 ∷ [])
    ⨾ do_while
        (run (xor_ (reg r8) r8 ∷ [])
          ⨾ do_while (run (vmovntdqa 64 (indexed 0x0 (reg r9) (reg r8)) 0 ∷ add (imm 0x40) r8 ∷ []))
              (imm size) r8
          ⨾ run (add (imm size) r9 ∷ []))
        (imm end_addr) r9

unfoldable pub seq_store : ℕ → ℕ → ℕ → Code
seq_store start_addr end_addr size =
    run (mov (imm start_addr) r9 ∷ movq_to_xmm (imm start_addr) 0 ∷ [])
    ⨾ do_while
        (run (xor_ (reg r8) r8 ∷ [])
          ⨾ do_while
              (run (
                vmovdqa_store 64 0 (indexed 0x0 (reg r9) (reg r8))
                ∷ flush clwb (indexed 0x0 (reg r9) (reg r8))
                ∷ add (imm 0x40) r8
                ∷ []))
              (imm size) r8
          ⨾ run (add (imm size) r9 ∷ []))
        (imm end_addr) r9

unfoldable pub seq_clwb : ℕ → ℕ → ℕ → Code
seq_clwb start_addr end_addr size =
    run (mov (imm start_addr) r9 ∷ movq_to_xmm (imm start_addr) 0 ∷ [])
    ⨾ do_while
        (run (xor_ (reg r8) r8 ∷ [])
          ⨾ do_while
              (run (
                vmovdqa_store 64 0 (indexed 0x0 (reg r9) (reg r8))
                ∷ flush clwb (indexed 0x0 (reg r9) (reg r8))
                ∷ add (imm 0x40) r8
                ∷ []))
              (imm size) r8
          ⨾ run (add (imm size) r9 ∷ []))
        (imm end_addr) r9

unfoldable pub seq_nt : ℕ → ℕ → ℕ → Code
seq_nt start_addr end_addr size =
    run (mov (imm start_addr) r9 ∷ movq_to_xmm (imm start_addr) 0 ∷ [])
    ⨾ do_while
        (run (xor_ (reg r8) r8 ∷ [])
          ⨾ do_while
              (run (vmovnt_store 64 0 (indexed 0x0 (reg r9) (reg r8)) ∷ add (imm 0x40) r8 ∷ []))
              (imm size) r8
          ⨾ run (add (imm size) r9 ∷ []))
        (imm end_addr) r9
