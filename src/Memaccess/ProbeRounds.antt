-- ===== src/Memaccess/ProbeRounds.antt =====
-- The rounds that cacheprobe and imcprobe of microbenchmarks/memaccess.cc have in common: lines stored at
-- r8, which then goes on.
use database_benchmarking_op.Prelude.{
  ℕ, suc, ◌+◌, ◌*◌, ◌%◌, ◌^◌, ◌≤◌, ◌<◌, List, [], ◌∷◌, ◌++◌, map, Option, ◌≡◌, refl, ap, ap₂, ◌∙◌,
  arith,
}
use native.Mathlib.Nat.{suc-mul, zero-mul, mul-le-mul_right}
use database_benchmarking_op.Machine.{
  r8, r9, reg, imm, add, mov, movq_to_xmm, xor_, mfence, FlushOp, Instr, Cpu, Access, Event, fence,
  fenced, u64, step, exec, run, do_while, exec_code,
}
use database_benchmarking_op.Exec.Counting.{counted-Ensures}
use database_benchmarking_op.Exec.Ensures.{Ensures, Ensures-weaken, exec_parts}
use database_benchmarking_op.Exec.Lines.{text, Same}
use database_benchmarking_op.Latency.Spec.{line_events}
use database_benchmarking_op.Memaccess.Blocks.{by_lines, unrolled, exec-unrolled}
use database_benchmarking_op.Memaccess.Pieces.{xor_self}
use database_benchmarking_op.Memaccess.StrideLoop.{mul-mod_64}
use database_benchmarking_op.Memaccess.Strides.{strides}

-- The two registers of the loops, and the history; the counter is as it was.
pub record Probing (x y : ℕ) (h : List Event) (c d : Cpu) : Type 0 where
  pub place : d.r8 ≡ x
  pub passed : d.r9 ≡ y
  pub clock_kept : d.clock ≡ c.clock
  pub reads_kept : d.reads ≡ c.reads
  pub traced : d.history ≡ h

-- A round of `n` lines at r8, which then goes on by `w` bytes.
abbrev pub lines_round : Access → Option FlushOp → ℕ → ℕ → List Instr
lines_round k f n w = map (text (reg r8) (imm 0)) (unrolled k f 0 n) ++ add (imm w) r8 ∷ []

lines_round-Probing :
    (k : Access) (f : Option FlushOp) (n w : ℕ) (c : Cpu)
    → c.r8 % 64 ≡ 0
    → Ensures
        (Probing (u64 (c.r8 + w)) c.r9 (line_events (by_lines k f) c.r8 n c.history) c)
        (exec (lines_round k f n w) c)
unfolding exec step
lines_round-Probing k f n w c m =
    let here : c.r8 + 0 ≡ c.r8 = omega arith in
    let h = line_events (by_lines k f) c.r8 n c.history in
    exec_parts (Same h c) (Probing (u64 (c.r8 + w)) c.r9 h c)
      (map (text (reg r8) (imm 0)) (unrolled k f 0 n)) (add (imm w) r8 ∷ []) c
      (rw here at (exec-unrolled k f n (reg r8) (imm 0) c (omega arith)))
      λ d s. record {
        place = ap (λ (t : ℕ). u64 (t + w)) (s.regs r8);
        passed = s.regs r9;
        clock_kept = s.clock_kept;
        reads_kept = s.reads_kept;
        traced = s.traced;
      }

module _ (k : Access) (f : Option FlushOp) (n w start end_addr p fuel : ℕ)
    (short : start + p * w < end_addr) (long : end_addr ≤ start + suc p * w)
    (range : end_addr + w < 2 ^ 63) (enough : suc p ≤ fuel) (start_at : start % 64 ≡ 0)
    (w_at : w % 64 ≡ 0) where
  -- All rounds, from `start` to `end_addr`.
  pub lines_rounds-Probing :
      (c : Cpu)
      → c.r8 ≡ start
      → Ensures
          (Probing (start + suc p * w) c.r9 (strides (by_lines k f) start w n (suc p) c.history) c)
          (exec_code fuel (do_while (run (lines_round k f n w)) (imm end_addr) r8) c)
  unfolding exec_code
  lines_rounds-Probing c at =
      let Inv : ℕ → Cpu → Type 0 =
        λ i d. Probing (start + i * w) c.r9 (strides (by_lines k f) start w n i c.history) c d in
      let each : (i : ℕ) (d : Cpu)
          → i < suc p
          → Inv i d
          → Ensures (Inv (suc i)) (exec (lines_round k f n w) d) =
        λ i d lt inv.
          let up : suc i * w ≡ i * w + w = suc-mul i w in
          let below : i * w ≤ p * w = mul-le-mul_right w (omega arith) in
          let here : d.r8 ≡ u64 (start + i * w) = omega (arith, inv.place) in
          Ensures-weaken
            (Probing (u64 (d.r8 + w)) d.r9 (line_events (by_lines k f) d.r8 n d.history) d) _
            (exec (lines_round k f n w) d)
            (lines_round-Probing k f n w d
              (omega (arith, inv.place, start_at, mul-mod_64 i w w_at)))
            λ e t. record {
              place = omega (arith, t.place, inv.place);
              passed = t.passed ∙ inv.passed;
              clock_kept = t.clock_kept ∙ inv.clock_kept;
              reads_kept = t.reads_kept ∙ inv.reads_kept;
              traced =
                  t.traced
                  ∙ ap₂ (λ (a : ℕ) (l : List Event). line_events (by_lines k f) a n l) here
                      inv.traced;
            } in
      counted-Ensures r8 (imm end_addr) start w p end_addr fuel Inv (exec (lines_round k f n w))
        (λ i d inv. (inv.place, refl)) each short long range enough c
        (record {
          place = omega (arith, at, zero-mul w);
          passed = refl;
          clock_kept = refl;
          reads_kept = refl;
          traced = refl;
        })

pub begin_probe :
    (start : ℕ) (c : Cpu)
    → Ensures
        (Probing start c.r9 c.history c)
        (exec (mov (imm start) r8 ∷ movq_to_xmm (imm start) 0 ∷ []) c)
unfolding exec step
begin_probe start c = record {
  place = refl;
  passed = refl;
  clock_kept = refl;
  reads_kept = refl;
  traced = refl;
}

pub begin_pass :
    (start : ℕ) (c : Cpu)
    → Ensures (Probing start c.r9 c.history c) (exec (mov (imm start) r8 ∷ []) c)
unfolding exec step
begin_pass start c = record {
  place = refl;
  passed = refl;
  clock_kept = refl;
  reads_kept = refl;
  traced = refl;
}

pub begin_passes :
    (start : ℕ) (c : Cpu)
    → Ensures
        (λ d. (d.r9 ≡ 0) × (d.history ≡ c.history))
        (exec (xor_ (reg r9) r9 ∷ movq_to_xmm (imm start) 0 ∷ []) c)
unfolding exec step
begin_passes start c = (xor_self c.r9, refl)

pub end_pass :
    (c : Cpu)
    → c.r9 + 1 < 2 ^ 64
    → Ensures (Probing c.r8 (suc c.r9) c.history c) (exec (add (imm 1) r9 ∷ []) c)
unfolding exec step
end_pass c below = record {
  place = refl;
  passed = omega arith;
  clock_kept = refl;
  reads_kept = refl;
  traced = refl;
}

pub end_probe :
    (c : Cpu) → Ensures (λ d. d.history ≡ fenced mfence ∷ c.history) (exec (fence mfence ∷ []) c)
unfolding exec step
end_probe c = refl
