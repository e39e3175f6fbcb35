-- ===== src/Memaccess/SeqLoop.antt =====
-- The loops of the seq_ functions of microbenchmarks/memaccess.cc: in r8 the offset of a line, in r9 the
-- start of a block of `size` bytes.
use database_benchmarking_op.Prelude.{
  ℕ, suc, ◌+◌, ◌*◌, ◌%◌, ◌^◌, ◌≤◌, ◌<◌, List, [], ◌∷◌, ◌++◌, map, Option, ◌≡◌, refl, ap, ap₂, ◌∙◌,
  arith,
}
use native.Mathlib.Nat.{suc-mul, zero-mul, mul-le-mul_right}
use database_benchmarking_op.Machine.{
  r8, r9, reg, imm, add, mov, movq_to_xmm, xor_, FlushOp, Instr, Cpu, Access, Event, u64, step,
  exec, Code, run, ◌⨾◌, do_while, exec_code,
}
use database_benchmarking_op.Exec.Counting.{counted-Ensures}
use database_benchmarking_op.Exec.Ensures.{Ensures, Ensures-bind, Ensures-weaken, exec_parts}
use database_benchmarking_op.Exec.Lines.{text, Same}
use database_benchmarking_op.Latency.Spec.{line_events}
use database_benchmarking_op.Memaccess.Blocks.{
  by_lines, unrolled, exec-unrolled, line_events-line_events,
}
use database_benchmarking_op.Memaccess.Pieces.{xor_self}
use database_benchmarking_op.Memaccess.StrideLoop.{mul-mod_64}
use database_benchmarking_op.Memaccess.Strides.{strides}

-- The block's start, the offset in it, and the history.
pub record Passing (base off : ℕ) (h : List Event) (c d : Cpu) : Type 0 where
  pub based : d.r9 ≡ base
  pub offset : d.r8 ≡ off
  pub clock_kept : d.clock ≡ c.clock
  pub reads_kept : d.reads ≡ c.reads
  pub traced : d.history ≡ h

-- One line: the access, the flush if there is one, and the step of the offset.
abbrev pub seq_body : Access → Option FlushOp → List Instr
seq_body k f = map (text (reg r9) (reg r8)) (unrolled k f 0 1) ++ add (imm 0x40) r8 ∷ []

-- One block.
abbrev pub seq_block : Access → Option FlushOp → ℕ → Code
seq_block k f size =
    run (xor_ (reg r8) r8 ∷ [])
    ⨾ do_while (run (seq_body k f)) (imm size) r8
    ⨾ run (add (imm size) r9 ∷ [])

seq_body-Passing :
    (k : Access) (f : Option FlushOp) (c : Cpu)
    → (c.r9 + c.r8) % 64 ≡ 0
    → Ensures
        (Passing c.r9 (u64 (c.r8 + 64)) (line_events (by_lines k f) (c.r9 + c.r8) 1 c.history) c)
        (exec (seq_body k f) c)
unfolding exec step
seq_body-Passing k f c m =
    exec_parts (Same (line_events (by_lines k f) (c.r9 + c.r8) 1 c.history) c)
      (Passing c.r9 (u64 (c.r8 + 64)) (line_events (by_lines k f) (c.r9 + c.r8) 1 c.history) c)
      (map (text (reg r9) (reg r8)) (unrolled k f 0 1)) (add (imm 0x40) r8 ∷ []) c
      (exec-unrolled k f 1 (reg r9) (reg r8) c m)
      λ d s. record {
        based = s.regs r9;
        offset = ap (λ (t : ℕ). u64 (t + 64)) (s.regs r8);
        clock_kept = s.clock_kept;
        reads_kept = s.reads_kept;
        traced = s.traced;
      }

clear-Passing : (c : Cpu) → Ensures (Passing c.r9 0 c.history c) (exec (xor_ (reg r8) r8 ∷ []) c)
unfolding exec step
clear-Passing c = record {
  based = refl;
  offset = xor_self c.r8;
  clock_kept = refl;
  reads_kept = refl;
  traced = refl;
}

next-Passing :
    (size : ℕ) (c : Cpu)
    → Ensures (Passing (u64 (c.r9 + size)) c.r8 c.history c) (exec (add (imm size) r9 ∷ []) c)
unfolding exec step
next-Passing size c = record {
  based = refl;
  offset = refl;
  clock_kept = refl;
  reads_kept = refl;
  traced = refl;
}

module _ (k : Access) (f : Option FlushOp) (p size fuel : ℕ) (short : p * 64 < size)
    (long : size ≤ suc p * 64) (small : size < 2 ^ 62) (enough : suc p ≤ fuel) where
  lines-Passing :
      (c : Cpu)
      → c.r9 % 64 ≡ 0
      → c.r8 ≡ 0
      → Ensures
          (Passing c.r9 (suc p * 64) (line_events (by_lines k f) c.r9 (suc p) c.history) c)
          (exec_code fuel (do_while (run (seq_body k f)) (imm size) r8) c)
  unfolding exec_code
  lines-Passing c on_line zeroed =
      let s = by_lines k f in
      let Inv : ℕ → Cpu → Type 0 =
        λ i d. Passing c.r9 (i * 64) (line_events s c.r9 i c.history) c d in
      let each : (i : ℕ) (d : Cpu)
          → i < suc p
          → Inv i d
          → Ensures (Inv (suc i)) (exec (seq_body k f) d) =
        λ i d lt inv.
          Ensures-weaken
            (Passing d.r9 (u64 (d.r8 + 64)) (line_events s (d.r9 + d.r8) 1 d.history) d) _
            (exec (seq_body k f) d) (seq_body-Passing k f d (omega (arith, inv.based, inv.offset)))
            λ e made.
              let here : d.r9 + d.r8 ≡ c.r9 + i * 64 = omega (arith, inv.based, inv.offset) in
              let count : u64 (d.r8 + 64) ≡ suc i * 64 = omega (arith, inv.offset) in
              let one_more : 1 + i ≡ suc i = omega arith in
              let joined : line_events s (d.r9 + d.r8) 1 d.history
                  ≡ line_events s c.r9 (suc i) c.history =
                ap₂ (λ (a : ℕ) (h : List Event). line_events s a 1 h) here inv.traced
                ∙ line_events-line_events k f c.r9 i 1 c.history
                ∙ ap (λ (j : ℕ). line_events s c.r9 j c.history) one_more in
              record {
                based = made.based ∙ inv.based;
                offset = made.offset ∙ count;
                clock_kept = made.clock_kept ∙ inv.clock_kept;
                reads_kept = made.reads_kept ∙ inv.reads_kept;
                traced = made.traced ∙ joined;
              } in
      let start : Inv 0 c = record {
        based = refl;
        offset = zeroed;
        clock_kept = refl;
        reads_kept = refl;
        traced = refl;
      } in
      counted-Ensures r8 (imm size) 0 64 p size fuel Inv (exec (seq_body k f))
        (λ i d inv. (omega (arith, inv.offset), refl)) each (omega arith) (omega arith)
        (omega arith) enough c start

  seq_block-Passing :
      (c : Cpu)
      → c.r9 % 64 ≡ 0
      → Ensures
          (Passing
            (u64 (c.r9 + size))
            (suc p * 64)
            (line_events (by_lines k f) c.r9 (suc p) c.history)
            c)
          (exec_code fuel (seq_block k f size) c)
  unfolding exec_code
  seq_block-Passing c on_line =
      let h = line_events (by_lines k f) c.r9 (suc p) c.history in
      let Goal = Passing (u64 (c.r9 + size)) (suc p * 64) h c in
      Ensures-bind (Passing c.r9 0 c.history c) Goal _ _ (clear-Passing c) λ d₁ s₁.
        Ensures-bind
          (Passing d₁.r9 (suc p * 64) (line_events (by_lines k f) d₁.r9 (suc p) d₁.history) d₁) Goal
          _ _ (lines-Passing d₁ (omega (arith, s₁.based)) s₁.offset)
          λ d₂ s₂.
            Ensures-weaken (Passing (u64 (d₂.r9 + size)) d₂.r8 d₂.history d₂) Goal _
              (next-Passing size d₂)
              λ e t. record {
                based = t.based ∙ ap (λ (a : ℕ). u64 (a + size)) (s₂.based ∙ s₁.based);
                offset = t.offset ∙ s₂.offset;
                clock_kept = t.clock_kept ∙ s₂.clock_kept ∙ s₁.clock_kept;
                reads_kept = t.reads_kept ∙ s₂.reads_kept ∙ s₁.reads_kept;
                traced =
                    t.traced
                    ∙ s₂.traced
                    ∙ ap₂ (λ (a : ℕ) (l : List Event). line_events (by_lines k f) a (suc p) l)
                        s₁.based s₁.traced;
              }

  module _ (q start end_addr : ℕ) (before : start + q * size < end_addr)
      (reached : end_addr ≤ start + suc q * size) (range : end_addr + size < 2 ^ 63)
      (passes : suc q ≤ fuel) (start_at : start % 64 ≡ 0) (size_at : size % 64 ≡ 0) where
    abbrev Passed : Cpu → ℕ → Cpu → Type 0
    Passed c i d =
        (d.r9 ≡ start + i * size)
        × (d.clock ≡ c.clock)
        × (d.reads ≡ c.reads)
        × (d.history ≡ strides (by_lines k f) start size (suc p) i c.history)

    pub seq_passes :
        (c : Cpu)
        → c.r9 ≡ start
        → Ensures
            (Passed c (suc q))
            (exec_code fuel (do_while (seq_block k f size) (imm end_addr) r9) c)
    unfolding exec_code
    seq_passes c at =
        let each : (i : ℕ) (d : Cpu)
            → i < suc q
            → Passed c i d
            → Ensures (Passed c (suc i)) (exec_code fuel (seq_block k f size) d) =
          λ i d lt (here, clock, reads, traced).
            let up : suc i * size ≡ i * size + size = suc-mul i size in
            let below : i * size ≤ q * size = mul-le-mul_right size (omega arith) in
            let h = line_events (by_lines k f) d.r9 (suc p) d.history in
            Ensures-weaken (Passing (u64 (d.r9 + size)) (suc p * 64) h d) _ _
              (seq_block-Passing d (omega (arith, here, start_at, mul-mod_64 i size size_at)))
              λ e t.
                let place : d.r9 ≡ u64 (start + i * size) = omega (arith, here) in
                (
                  omega (arith, t.based, here),
                  t.clock_kept ∙ clock,
                  t.reads_kept ∙ reads,
                  t.traced
                      ∙ ap₂ (λ (a : ℕ) (l : List Event). line_events (by_lines k f) a (suc p) l)
                          place traced,
                ) in
        counted-Ensures r9 (imm end_addr) start size q end_addr fuel (Passed c)
          (exec_code fuel (seq_block k f size)) (λ i d inv. (inv.0, refl)) each before reached range
          passes c (omega (arith, at, zero-mul size), refl, refl, refl)

    -- The same from the code before the loop on.
    pub seq_load_run :
        (c : Cpu)
        → Ensures (Passed c (suc q)) (
            exec_code fuel
              (run (mov (imm start) r9 ∷ []) ⨾ do_while (seq_block k f size) (imm end_addr) r9)
              c)
    unfolding exec_code exec step
    seq_load_run c = seq_passes (record c { r9 = start }) refl

    pub seq_store_run :
        (c : Cpu)
        → Ensures (Passed c (suc q)) (
            exec_code fuel
              (run (mov (imm start) r9 ∷ movq_to_xmm (imm start) 0 ∷ [])
                ⨾ do_while (seq_block k f size) (imm end_addr) r9)
              c)
    unfolding exec_code exec step
    seq_store_run c = seq_passes _ refl
