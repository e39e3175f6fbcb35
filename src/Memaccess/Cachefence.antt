-- ===== src/Memaccess/Cachefence.antt =====
-- cachefence of microbenchmarks/memaccess.cc.
use database_benchmarking_op.Prelude.{ℕ, [], ◌∷◌}
use database_benchmarking_op.Machine.{
  Code, add, at, clwb, do_while, fence, flush, imm, indexed, lea, movq_to_xmm, r10, r11, r9, rcx,
  rdx, reg, run, sfence, vmovdqa_store, xor_, ◌⨾◌,
}

unfoldable pub cachefence : ℕ → ℕ → ℕ → ℕ → Code
cachefence start_addr size cache fence_size =
    run (movq_to_xmm (imm start_addr) 0 ∷ xor_ (reg r9) r9 ∷ [])
    ⨾ do_while
        (run (xor_ (reg r11) r11 ∷ [])
          ⨾ do_while
              (run (xor_ (reg r10) r10 ∷ lea (indexed 0 (imm start_addr) (reg r9)) rdx ∷ [])
                ⨾ do_while
                    (run (
                      vmovdqa_store 64 0 (indexed 0x0 (imm start_addr) (reg r9))
                      ∷ add (imm 0x40) r9
                      ∷ add (imm 0x40) r10
                      ∷ add (imm 0x40) r11
                      ∷ []))
                    (imm cache) r10
                ⨾ run (lea (indexed 0 (imm start_addr) (reg r9)) rcx ∷ [])
                ⨾ do_while (run (flush clwb (at 0 (reg rdx)) ∷ add (imm 0x40) rdx ∷ [])) (reg rcx)
                    rdx)
              (imm fence_size) r11
          ⨾ run (fence sfence ∷ []))
        (imm size) r9
