-- ===== src/Memaccess/RawKernel.antt =====
-- What stride_read_after_write of microbenchmarks/memaccess.cc does.
use database_benchmarking_op.Prelude.{
  ℕ, suc, ◌+◌, ◌-◌, ◌*◌, ◌%◌, ◌^◌, ◌≤◌, ◌<◌, List, [], ◌∷◌, none, some, ◌≡◌, refl, ap, ◌∙◌, arith,
}
use database_benchmarking_op.Machine.{
  r8, r9, r10, r11, reg, imm, indexed, lea, xor_, inc, add, fence, mfence, clwb, movq_to_xmm, Cpu,
  write, nt_write, Event, fenced, u64, step, exec, Code, run, ◌⨾◌, do_while, exec_code,
}
use database_benchmarking_op.Exec.Ensures.{Ensures, Ensures-bind, Ensures-weaken}
use database_benchmarking_op.Latency.Spec.{line_events}
use database_benchmarking_op.Memaccess.Blocks.{by_lines, block, Moved, Moved-trans}
use database_benchmarking_op.Memaccess.Pieces.{xor_self, access-Moved, delay-Moved}
use database_benchmarking_op.Memaccess.Regular.{nt_storing, flushing, bytes64, macro-block}
use database_benchmarking_op.Memaccess.ReadAfterWrite.{stride_read_after_write}
use database_benchmarking_op.Memaccess.Strides.{
  repeated, Strode, times_for, enter-Moved, next-Strode,
}
use database_benchmarking_op.Memaccess.StrideLoop.{rounds_from, starts_store}

-- One stride from address `a` on, latest first: the lines stored and written back, a full fence, the
-- lines stored again without the caches, a full fence.
abbrev pub raw_events : ℕ → ℕ → List Event → List Event
raw_events lines a h =
    fenced mfence
    ∷ line_events (by_lines nt_write none) a lines
        (fenced mfence ∷ line_events (by_lines write (some clwb)) a lines h)

fence-Moved :
    (c : Cpu)
    → Ensures
        (Moved 0 (fenced mfence ∷ c.history) c)
        (exec (fence mfence ∷ xor_ (reg r10) r10 ∷ []) c)
unfolding exec step
fence-Moved c = record {
  r8_kept = refl;
  r9_kept = refl;
  r11_kept = refl;
  rcx_kept = refl;
  clock_kept = refl;
  reads_kept = refl;
  accessed = xor_self c.r10;
  traced = refl;
}

module _ (start size skip delay count p fuel : ℕ) (short : p * 64 < size) (long : size ≤ suc p * 64)
    (small : size < 2 ^ 62) (small_delay : delay < 2 ^ 63) (enough : suc p ≤ fuel)
    (enough_delay : suc (delay - 1) ≤ fuel) where
  abbrev flush_block : Code
  flush_block = do_while (run (block write (some clwb) 1)) (imm size) r10

  abbrev nt_block : Code
  nt_block = do_while (run (block nt_write none 1)) (imm size) r10

  abbrev raw_round : Code
  raw_round =
      run (lea (indexed 0 (imm start) (reg r8)) r9 ∷ xor_ (reg r10) r10 ∷ [])
      ⨾ flush_block
      ⨾ run (fence mfence ∷ xor_ (reg r10) r10 ∷ [])
      ⨾ nt_block
      ⨾ run (fence mfence ∷ xor_ (reg r10) r10 ∷ [])
      ⨾ do_while (run (inc r10 ∷ [])) (imm delay) r10
      ⨾ run (add (imm skip) r8 ∷ inc r11 ∷ [])

  round-Strode :
      (c : Cpu)
      → (start + c.r8) % 64 ≡ 0
      → c.r11 + 1 < 2 ^ 64
      → Ensures
          (Strode
            (u64 (c.r8 + skip))
            (suc c.r11)
            (raw_events (suc p * 1) (u64 (start + c.r8)) c.history)
            c)
          (exec_code fuel raw_round c)
  unfolding exec_code
  round-Strode c m below =
      let base = u64 (start + c.r8) in
      let from = record c { r9 = base } in
      let Goal = Strode (u64 (c.r8 + skip)) (suc c.r11) (raw_events (suc p * 1) base c.history) c in
      let on_line : base % 64 ≡ 0 = omega arith in
      let s = by_lines write (some clwb) in
      let t = by_lines nt_write none in
      let lines = suc p * 1 in
      Ensures-bind (Moved 0 c.history from) Goal _ _ (enter-Moved start c) λ d₁ s₁.
        Ensures-bind (Moved (suc p * 64) (line_events s d₁.r9 lines d₁.history) d₁) Goal _ _
          (access-Moved write (some clwb) 1 p size fuel d₁ short long (omega arith) enough
            (omega (arith, s₁.r9_kept, on_line)) s₁.accessed)
          λ d₂ s₂.
            Ensures-bind (Moved 0 (fenced mfence ∷ d₂.history) d₂) Goal _ _ (fence-Moved d₂)
              λ d₃ s₃.
                let so_far = Moved-trans (Moved-trans s₁ s₂) s₃ in
                Ensures-bind (Moved (suc p * 64) (line_events t d₃.r9 lines d₃.history) d₃) Goal _ _
                  (access-Moved nt_write none 1 p size fuel d₃ short long (omega arith) enough
                    (omega (arith, so_far.r9_kept, on_line)) s₃.accessed)
                  λ d₄ s₄.
                    Ensures-bind (Moved 0 (fenced mfence ∷ d₄.history) d₄) Goal _ _ (fence-Moved d₄)
                      λ d₅ s₅.
                        Ensures-bind (Moved (suc (delay - 1)) d₅.history d₅) Goal _ _
                          (delay-Moved delay fuel d₅ small_delay enough_delay s₅.accessed)
                          λ d₆ s₆.
                            let all = Moved-trans (Moved-trans (Moved-trans so_far s₄) s₅) s₆ in
                            Ensures-weaken (Strode (u64 (d₆.r8 + skip)) (suc d₆.r11) d₆.history d₆)
                              Goal _ (next-Strode skip d₆ (omega (arith, all.r11_kept)))
                              λ e u. record {
                                offset = u.offset ∙ ap (λ (a : ℕ). u64 (a + skip)) all.r8_kept;
                                counter = u.counter ∙ ap suc all.r11_kept;
                                clock_kept = u.clock_kept ∙ all.clock_kept;
                                reads_kept = u.reads_kept ∙ all.reads_kept;
                                traced =
                                    u.traced
                                    ∙ s₆.traced
                                    ∙ s₅.traced
                                    ∙ rw
                                        (
                                          s₄.traced, s₃.traced, s₂.traced, so_far.r9_kept,
                                          s₁.r9_kept, s₁.traced,
                                        )
                                        refl;
                              }

  -- stride_read_after_write, from the start of a line on with strides of whole lines, a size
  -- below 2 ^ 62, a delay and a count below 2 ^ 63, and fuel for the rounds of each loop: each of its
  -- `count` strides, one at least, stores its lines and writes them back, makes a full fence, stores
  -- the lines again, this time without the caches, and makes another. It reads none of them, does not
  -- fault, and ends.
  pub stride_read_after_write-Strode :
      (c : Cpu)
      → count < 2 ^ 63
      → times_for count ≤ fuel
      → start % 64 ≡ 0
      → skip % 64 ≡ 0
      → Ensures
          (Strode
            (u64 (times_for count * skip))
            (times_for count)
            (repeated (raw_events (suc p * 1)) start skip (times_for count) c.history)
            c)
          (exec_code fuel (stride_read_after_write start size skip delay count) c)
  unfolding stride_read_after_write
  stride_read_after_write-Strode c small_count enough_count start_aligned skip_aligned =
      rw (macro-block flushing bytes64, macro-block nt_storing bytes64)
        (rounds_from raw_round (raw_events (suc p * 1)) start skip count fuel small_count
          enough_count start_aligned skip_aligned round-Strode
          (run (xor_ (reg r8) r8 ∷ xor_ (reg r11) r11 ∷ movq_to_xmm (imm start) 0 ∷ [])) c
          (starts_store start fuel c))
