-- ===== src/Memaccess/Strides.antt =====
-- The loop nest of the stride_ functions of microbenchmarks/memaccess.cc.
use database_benchmarking_op.Prelude.{
  ℕ, zero, suc, ◌+◌, ◌-◌, ◌*◌, ◌%◌, ◌^◌, ◌≤◌, ◌<◌, List, [], ◌∷◌, Option, ◌≡◌, refl, ap, ◌∙◌, arith,
}
use database_benchmarking_op.Machine.{
  r8, r9, r10, r11, reg, imm, indexed, inc, add, lea, xor_, movq_to_xmm, FlushOp, Cpu, Access,
  Event, u64, step, exec, Code, run, ◌⨾◌, do_while, exec_code,
}
use database_benchmarking_op.Exec.Ensures.{Ensures, Ensures-bind, Ensures-weaken}
use database_benchmarking_op.Latency.Spec.{Style, line_events}
use database_benchmarking_op.Memaccess.Blocks.{by_lines, block, Moved, Moved-trans}
use database_benchmarking_op.Memaccess.Pieces.{xor_self, clear-Moved, delay-Moved, access-Moved}

-- `n` rounds, `skip` bytes apart, latest first.
abbrev pub repeated :
    (round : ℕ → List Event → List Event) → (start skip : ℕ) → ℕ → List Event → List Event
repeated round start skip zero h = h
repeated round start skip (suc n) h = round (u64 (start + n * skip)) (repeated round start skip n h)

-- `n` accesses of `lines` lines, `skip` bytes apart.
abbrev pub strides : Style → ℕ → ℕ → ℕ → ℕ → List Event → List Event
strides s start skip lines = repeated (λ a. line_events s a lines) start skip

-- The outer loop's offset and counter, and the history.
pub record Strode (off i : ℕ) (h : List Event) (c d : Cpu) : Type 0 where
  pub offset : d.r8 ≡ off
  pub counter : d.r11 ≡ i
  pub clock_kept : d.clock ≡ c.clock
  pub reads_kept : d.reads ≡ c.reads
  pub traced : d.history ≡ h

-- The two registers cleared; a store also sets zmm0.
pub prologue_load :
    (c : Cpu)
    → Ensures (Strode 0 0 c.history c) (exec (xor_ (reg r8) r8 ∷ xor_ (reg r11) r11 ∷ []) c)
unfolding exec step
prologue_load c = record {
  offset = xor_self c.r8;
  counter = xor_self c.r11;
  clock_kept = refl;
  reads_kept = refl;
  traced = refl;
}

pub prologue_store :
    (start : ℕ) (c : Cpu)
    → Ensures
        (Strode 0 0 c.history c)
        (exec (xor_ (reg r8) r8 ∷ xor_ (reg r11) r11 ∷ movq_to_xmm (imm start) 0 ∷ []) c)
unfolding exec step
prologue_store start c = record {
  offset = xor_self c.r8;
  counter = xor_self c.r11;
  clock_kept = refl;
  reads_kept = refl;
  traced = refl;
}

-- lea (%[start_addr], %%r8), %%r9 and a cleared r10
pub enter-Moved :
    (start : ℕ) (c : Cpu)
    → Ensures
        (Moved 0 c.history (record c { r9 = u64 (start + c.r8) }))
        (exec (lea (indexed 0 (imm start) (reg r8)) r9 ∷ xor_ (reg r10) r10 ∷ []) c)
unfolding exec step
enter-Moved start c = record {
  r8_kept = refl;
  r9_kept = omega arith;
  r11_kept = refl;
  rcx_kept = refl;
  clock_kept = refl;
  reads_kept = refl;
  accessed = xor_self c.r10;
  traced = refl;
}

-- add %[skip], %%r8 and inc %%r11
pub next-Strode :
    (skip : ℕ) (c : Cpu)
    → c.r11 + 1 < 2 ^ 64
    → Ensures
        (Strode (u64 (c.r8 + skip)) (suc c.r11) c.history c)
        (exec (add (imm skip) r8 ∷ inc r11 ∷ []) c)
unfolding exec step
next-Strode skip c small = record {
  offset = refl;
  counter = omega arith;
  clock_kept = refl;
  reads_kept = refl;
  traced = refl;
}

-- The rounds of a do-while loop that counts to `count`.
abbrev pub times_for : ℕ → ℕ
times_for count = suc (count - 1)

module _ (k : Access) (f : Option FlushOp) (n : ℕ) (start size skip delay : ℕ) where
  -- One stride: the accesses, the delay, and the step to the next.
  abbrev pub stride : Code
  stride =
      run (lea (indexed 0 (imm start) (reg r8)) r9 ∷ xor_ (reg r10) r10 ∷ [])
      ⨾ do_while (run (block k f n)) (imm size) r10
      ⨾ run (xor_ (reg r10) r10 ∷ [])
      ⨾ do_while (run (inc r10 ∷ [])) (imm delay) r10
      ⨾ run (add (imm skip) r8 ∷ inc r11 ∷ [])

  module _ (p fuel : ℕ) (short : p * (n * 64) < size) (long : size ≤ suc p * (n * 64))
      (small : size + n * 64 < 2 ^ 63) (small_delay : delay < 2 ^ 63) (enough : suc p ≤ fuel)
      (enough_delay : suc (delay - 1) ≤ fuel) where
    pub stride-Strode :
        (c : Cpu)
        → (start + c.r8) % 64 ≡ 0
        → c.r11 + 1 < 2 ^ 64
        → Ensures
            (Strode
              (u64 (c.r8 + skip))
              (suc c.r11)
              (line_events (by_lines k f) (u64 (start + c.r8)) (suc p * n) c.history)
              c)
            (exec_code fuel stride c)
    unfolding exec_code
    stride-Strode c m below =
        let base = u64 (start + c.r8) in
        let from = record c { r9 = base } in
        let h = line_events (by_lines k f) base (suc p * n) c.history in
        let Goal = Strode (u64 (c.r8 + skip)) (suc c.r11) h c in
        Ensures-bind (Moved 0 c.history from) Goal _ _ (enter-Moved start c) λ d₁ s₁.
          let based : d₁.r9 % 64 ≡ 0 = omega (arith, s₁.r9_kept) in
          Ensures-bind
            (Moved (suc p * (n * 64)) (line_events (by_lines k f) d₁.r9 (suc p * n) d₁.history) d₁)
            Goal _ _ (access-Moved k f n p size fuel d₁ short long small enough based s₁.accessed)
            λ d₂ s₂. Ensures-bind (Moved 0 d₂.history d₂) Goal _ _ (clear-Moved d₂) λ d₃ s₃.
              Ensures-bind (Moved (suc (delay - 1)) d₃.history d₃) Goal _ _
                (delay-Moved delay fuel d₃ small_delay enough_delay s₃.accessed)
                λ d₄ s₄.
                  let all = Moved-trans (Moved-trans (Moved-trans s₁ s₂) s₃) s₄ in
                  Ensures-weaken (Strode (u64 (d₄.r8 + skip)) (suc d₄.r11) d₄.history d₄) Goal _
                    (next-Strode skip d₄ (omega (arith, all.r11_kept)))
                    λ e t. record {
                      offset = t.offset ∙ ap (λ (a : ℕ). u64 (a + skip)) all.r8_kept;
                      counter = t.counter ∙ ap suc all.r11_kept;
                      clock_kept = t.clock_kept ∙ all.clock_kept;
                      reads_kept = t.reads_kept ∙ all.reads_kept;
                      traced =
                          t.traced
                          ∙ s₄.traced
                          ∙ s₃.traced
                          ∙ s₂.traced
                          ∙ rw (s₁.r9_kept, s₁.traced) refl;
                    }
