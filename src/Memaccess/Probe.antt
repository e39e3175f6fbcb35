-- ===== src/Memaccess/Probe.antt =====
-- cacheprobe and imcprobe of microbenchmarks/memaccess.cc.
use database_benchmarking_op.Prelude.{ℕ, [], ◌∷◌}
use database_benchmarking_op.Machine.{
  Code, add, at, clflush, do_while, fence, flush, imm, mfence, mov, movq_to_xmm, r8, r9, reg, run,
  vmovdqa_store, vmovnt_store, xor_, ◌⨾◌,
}

unfoldable pub cacheprobe : ℕ → ℕ → ℕ → Code
cacheprobe start_addr end_addr stride =
    run (mov (imm start_addr) r8 ∷ movq_to_xmm (imm start_addr) 0 ∷ [])
    ⨾ do_while
        (run (
          vmovdqa_store 64 0 (at 0x0 (reg r8))
          ∷ flush clflush (at 0 (reg r8))
          ∷ vmovdqa_store 64 0 (at 0x40 (reg r8))
          ∷ flush clflush (at 0x40 (reg r8))
          ∷ add (imm stride) r8
          ∷ []))
        (imm end_addr) r8
    ⨾ run (fence mfence ∷ [])

unfoldable pub imcprobe : ℕ → ℕ → ℕ → Code
imcprobe start_addr end_addr loop =
    run (xor_ (reg r9) r9 ∷ movq_to_xmm (imm start_addr) 0 ∷ [])
    ⨾ do_while
        (run (mov (imm start_addr) r8 ∷ [])
          ⨾ do_while (run (vmovnt_store 64 0 (at 0x0 (reg r8)) ∷ add (imm 0x40) r8 ∷ []))
              (imm end_addr) r8
          ⨾ run (add (imm 1) r9 ∷ []))
        (imm loop) r9
