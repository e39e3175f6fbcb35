-- ===== src/Latency/Timing.antt =====
-- The time stamps: TIMING_BEG and TIMING_END put the two readings of the counter together from
-- their halves, whatever straight-line code stands between them.
use database_benchmarking_op.Prelude.{
  ℕ, ◌+◌, ◌*◌, ◌/◌, ◌%◌, ◌^◌, ◌<◌, bit_or, List, ◌∷◌, ◌++◌, true, ◌≡◌, refl, ap, ◌∙◌, arith,
}
use database_benchmarking_op.Bits.{or_above}
use database_benchmarking_op.Machine.{
  Instr, Cpu, Event, stamp, fenced, mfence, lfence, u64, step, exec,
}
use database_benchmarking_op.Exec.Ensures.{Ensures, Ensures-weaken, exec_parts}
use database_benchmarking_op.Exec.Straight.{all_plain, then_events, Ran, exec-plain}
use database_benchmarking_op.Latency.Macros.{timing_beg, timing_end}

join_halves :
    (t hi lo : ℕ)
    → t < 2 ^ 64
    → lo ≡ t % 2 ^ 32
    → hi ≡ t / 2 ^ 32
    → bit_or lo (u64 (hi * 2 ^ 32)) ≡ t
join_halves t hi lo small e f =
    let small_hi : u64 (hi * 2 ^ 32) ≡ hi * 2 ^ 32 = omega arith in
    omega (arith, ap (λ (x : ℕ). bit_or lo x) small_hi, or_above 32 hi lo (omega arith))

-- The next two readings of the counter.
abbrev pub first_reading : Cpu → ℕ
first_reading c = u64 (c.clock c.reads)

abbrev pub second_reading : Cpu → ℕ
second_reading c = u64 (c.clock (c.reads + 1))

abbrev pub timed_history : List Instr → Cpu → List Event
timed_history body c =
    fenced lfence
    ∷ stamp (second_reading c)
    ∷ fenced mfence
    ∷ then_events c.rsi body (fenced lfence ∷ stamp (first_reading c) ∷ c.history)

pub record Timed (body : List Instr) (c d : Cpu) : Type 0 where
  pub first : d.t1 ≡ first_reading c
  pub second : d.t2 ≡ second_reading c
  pub recorded : d.history ≡ timed_history body c
  pub clock_kept : d.clock ≡ c.clock
  pub two_reads : d.reads ≡ c.reads + 2

record Begun (c d : Cpu) : Type 0 where
  rsi_kept : d.rsi ≡ c.rsi
  low : d.r8 ≡ first_reading c % 2 ^ 32
  high : d.r9 ≡ first_reading c / 2 ^ 32
  clock_kept : d.clock ≡ c.clock
  one_read : d.reads ≡ c.reads + 1
  begun : d.history ≡ fenced lfence ∷ stamp (first_reading c) ∷ c.history

timing_beg-Begun : (c : Cpu) → Ensures (Begun c) (exec timing_beg c)
unfolding exec step timing_beg
timing_beg-Begun c = record {
  rsi_kept = refl;
  low = omega arith;
  high = omega arith;
  clock_kept = refl;
  one_read = refl;
  begun = refl;
}

timing_end-Ensures :
    (d : Cpu) (t : ℕ)
    → t < 2 ^ 64
    → d.r8 ≡ t % 2 ^ 32
    → d.r9 ≡ t / 2 ^ 32
    → Ensures
        (λ e.
          (e.t1 ≡ t)
          × (e.t2 ≡ u64 (d.clock d.reads))
          × (e.history ≡ fenced lfence ∷ stamp (u64 (d.clock d.reads)) ∷ fenced mfence ∷ d.history)
          × (e.clock ≡ d.clock)
          × (e.reads ≡ d.reads + 1))
        (exec timing_end d)
unfolding exec step timing_end
timing_end-Ensures d t small low high =
    let now = u64 (d.clock d.reads) in
    (
      join_halves t (d.r9 % 2 ^ 32) d.r8 small low (omega arith),
      join_halves now (now / 2 ^ 32) (now % 2 ^ 32) (omega arith) refl refl,
      refl,
      refl,
      refl,
    )

-- The two time stamps around straight-line code are the two readings of the counter, in full.
pub exec-Timed :
    (body : List Instr) (c : Cpu)
    → c.rsi % 64 ≡ 0
    → all_plain body ≡ true
    → Ensures (Timed body c) (exec (timing_beg ++ (body ++ timing_end)) c)
exec-Timed body c m p =
    exec_parts (Begun c) (Timed body c) timing_beg (body ++ timing_end) c (timing_beg-Begun c)
      λ d b.
        let same : d.rsi % 64 ≡ 0 = rw b.rsi_kept m in
        let h = then_events d.rsi body d.history in
        exec_parts (Ran h d) (Timed body c) body timing_end d (exec-plain body d same p) λ e r.
          Ensures-weaken
            (λ f.
              (f.t1 ≡ first_reading c)
              × (f.t2 ≡ u64 (e.clock e.reads))
              × (f.history
                  ≡ fenced lfence ∷ stamp (u64 (e.clock e.reads)) ∷ fenced mfence ∷ e.history)
              × (f.clock ≡ e.clock)
              × (f.reads ≡ e.reads + 1))
            (Timed body c) (exec timing_end e)
            (timing_end-Ensures e (first_reading c) (omega arith) (r.frame.same_r8 ∙ b.low)
              (r.frame.same_r9 ∙ b.high))
            λ f (t, u, w, clocks, count).
              let now : u64 (e.clock e.reads) ≡ second_reading c =
                rw (r.frame.same_clock, r.frame.same_reads, b.clock_kept, b.one_read) refl in
              record {
                first = t;
                second = u ∙ now;
                recorded = rw (w, now, r.traced, b.rsi_kept, b.begun) refl;
                clock_kept = rw (clocks, r.frame.same_clock, b.clock_kept) refl;
                two_reads = omega (arith, r.frame.same_reads, b.one_read);
              }
