-- ===== src/Memaccess/ChasingLoops.antt =====
-- The loops of microbenchmarks/memaccess.cc that follow a pointer-chasing index.
use database_benchmarking_op.Prelude.{ℕ, [], ◌∷◌}
use database_benchmarking_op.Machine.{
  Code, add, clwb, do_while, flush, imm, inc, indexed, lea, movq_from_xmm, movq_load_xmm, r10, r11,
  r12, r8, r9, reg, run, shl, vmovdqa_store, vmovntdqa, xor_, ◌⨾◌,
}

unfoldable pub chasing_storeclwb : ℕ → ℕ → ℕ → ℕ → ℕ → Code
chasing_storeclwb start_addr size skip count cindex =
    run (xor_ (reg r8) r8 ∷ xor_ (reg r11) r11 ∷ [])
    ⨾ do_while
        (run (
            lea (indexed 0 (imm start_addr) (reg r8)) r9
            ∷ xor_ (reg r10) r10
            ∷ xor_ (reg r12) r12
            ∷ [])
          ⨾ do_while
              (run (
                movq_load_xmm (record { base = imm cindex; index = reg r12; scale = 8; disp = 0 }) 0
                ∷ shl 6 r12
                ∷ vmovdqa_store 64 0 (indexed 0x0 (reg r9) (reg r12))
                ∷ flush clwb (indexed 0x0 (reg r9) (reg r12))
                ∷ add (imm 0x40) r10
                ∷ movq_from_xmm 0 r12
                ∷ []))
              (imm size) r10
          ⨾ run (xor_ (reg r10) r10 ∷ add (imm skip) r8 ∷ inc r11 ∷ []))
        (imm count) r11

unfoldable pub chasing_loadnt : ℕ → ℕ → ℕ → ℕ → ℕ → Code
chasing_loadnt start_addr size skip count cindex =
    run (xor_ (reg r8) r8 ∷ xor_ (reg r11) r11 ∷ [])
    ⨾ do_while
        (run (
            lea (indexed 0 (imm start_addr) (reg r8)) r9
            ∷ xor_ (reg r10) r10
            ∷ xor_ (reg r12) r12
            ∷ [])
          ⨾ do_while
              (run (
                shl 6 r12
                ∷ vmovntdqa 64 (indexed 0x0 (reg r9) (reg r12)) 0
                ∷ movq_from_xmm 0 r12
                ∷ add (imm 0x40) r10
                ∷ []))
              (imm size) r10
          ⨾ run (add (imm skip) r8 ∷ inc r11 ∷ []))
        (imm count) r11
