-- ===== src/Memaccess/FenceWritten.antt =====
-- Which lines cachefence of microbenchmarks/memaccess.cc leaves written back.
use database_benchmarking_op.Prelude.{
  ℕ, suc, ◌+◌, ◌*◌, ◌/◌, ◌%◌, ◌^◌, ◌≤◌, ◌<◌, true, ◌≡◌, ap, ◌∙◌, arith,
}
use native.Mathlib.Nat.{suc-mul, mul_assoc}
use database_benchmarking_op.Machine.{Cpu, exec_code}
use database_benchmarking_op.Exec.Ensures.{Ensures, Ensures-bind, Ensures-weaken}
use database_benchmarking_op.Exec.Lines.{text}
use database_benchmarking_op.Latency.Persistence.{is_flushed}
use database_benchmarking_op.Memaccess.Cachefence.{cachefence}
use database_benchmarking_op.Memaccess.FenceSections.{section_events, section_events-WritesBack}
use database_benchmarking_op.Memaccess.Written.{repeated-WritesBack}
use database_benchmarking_op.Memaccess.Written.{repeated-WritesBack}
use database_benchmarking_op.Memaccess.Strides.{repeated}
use database_benchmarking_op.Memaccess.FenceLoop.{Sectioned, begin_all, sections_lem}

-- cachefence from the start of a line on, by blocks of one line more than `p` (what `cache` bytes take),
-- sections of one block more than `q` (what `fence` bytes take) and one section more than `s` (what `size`
-- bytes take), with addresses below 2 ^ 60 and fuel for the rounds of each loop: a section stores each
-- block and then writes it back, line by line, and ends with an sfence; the sections lie side by side. In
-- the end any line `l` of the sections has been written back after the last store to it. It does not fault, and
-- ends.
pub cachefence-is_flushed :
    (start size cache fence_size p q s fuel l : ℕ) (c : Cpu)
    → p * 64 < cache
    → cache ≤ suc p * 64
    → q * (suc p * 64) < fence_size
    → fence_size ≤ suc q * (suc p * 64)
    → s * (suc q * (suc p * 64)) < size
    → size ≤ suc s * (suc q * (suc p * 64))
    → start + suc s * (suc q * (suc p * 64)) < 2 ^ 60
    → suc p ≤ fuel
    → suc q ≤ fuel
    → suc s ≤ fuel
    → start % 64 ≡ 0
    → start / 64 ≤ l
    → l < start / 64 + suc s * (suc q * suc p)
    → Ensures
        (λ d.
          (d.history
            ≡ repeated
                (section_events (suc p) (suc q))
                start
                (suc q * (suc p * 64))
                (suc s)
                c.history)
          × (is_flushed l d.history ≡ true))
        (exec_code fuel (cachefence start size cache fence_size) c)
unfolding cachefence exec_code text
cachefence-is_flushed start size cache fence_size p q s fuel l c short long short' long' short''
      long'' near enough enough' enough'' start_at from to =
    let made = section_events (suc p) (suc q) in
    let m = suc q * suc p in
    let width : m * 64 ≡ suc q * (suc p * 64) = mul_assoc (suc q) (suc p) 64 in
    let up : m ≡ q * suc p + suc p = suc-mul q (suc p) in
    let whole : suc s * m * 64 ≡ suc s * (m * 64) = mul_assoc (suc s) m 64 in
    let whole' : suc s * (m * 64) ≡ suc s * (suc q * (suc p * 64)) =
      ap (λ (w : ℕ). suc s * w) width in
    let Goal : Cpu → Type 0 = λ d.
      (d.history ≡ repeated made start (suc q * (suc p * 64)) (suc s) c.history)
      × (is_flushed l d.history ≡ true) in
    Ensures-bind (Sectioned 0 c.r11 c.history c) Goal _ _ (begin_all start c) λ d b.
      Ensures-weaken
        (λ e.
          (e.r9 ≡ suc s * (suc q * (suc p * 64)))
          × (e.history ≡ repeated made start (suc q * (suc p * 64)) (suc s) d.history))
        Goal _
        (sections_lem start size cache fence_size p q s fuel short long short' long' short'' long''
          near enough enough' enough'' start_at d b.stored)
        λ e (at, traced).
          let done_ : e.history ≡ repeated made start (suc q * (suc p * 64)) (suc s) c.history =
            traced ∙ ap (repeated made start (suc q * (suc p * 64)) (suc s)) b.traced in
          (
            done_,
            let all =
                  repeated-WritesBack made m (suc s) (omega arith)
                    (section_events-WritesBack (suc p) (suc q) (omega arith)) start l c.history
                    start_at (omega arith) in
                ap (is_flushed l) (
                  done_
                  ∙ ap (λ (w : ℕ). repeated made start w (suc s) c.history) (omega (arith, width)))
                ∙ all
                ∙ ground arith,
          )
