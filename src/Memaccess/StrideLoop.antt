-- ===== src/Memaccess/StrideLoop.antt =====
-- The outer loop of the stride_ functions of microbenchmarks/memaccess.cc.
use database_benchmarking_op.Prelude.{
  ℕ, zero, suc, ◌+◌, ◌-◌, ◌*◌, ◌%◌, ◌^◌, ◌≤◌, ◌<◌, List, [], ◌∷◌, Option, ◌≡◌, refl, ap, ◌∙◌, arith,
  ltb, lt→ltb, le→ltb,
}
use native.Mathlib.Decide.{dec_lt}
use native.Mathlib.Nat.{suc-mul, zero-mul}
use database_benchmarking_op.Machine.{
  r8, r11, reg, imm, xor_, movq_to_xmm, FlushOp, Cpu, Access, Event, u64, Code, run, ◌⨾◌, do_while,
  exec_code, less_signed, jumps_back,
}
use database_benchmarking_op.Exec.Ensures.{Ensures, Ensures-bind, Ensures-weaken}
use database_benchmarking_op.Exec.Loops.{less_signed_small, KeepsOn, rounds-Ensures}
use database_benchmarking_op.Latency.Spec.{line_events}
use database_benchmarking_op.Memaccess.Blocks.{by_lines}
use database_benchmarking_op.Memaccess.Strides.{
  strides, repeated, Strode, prologue_load, prologue_store, times_for, stride, stride-Strode,
}

pub mul-mod_64 : (i a : ℕ) → a % 64 ≡ 0 → i * a % 64 ≡ 0
mul-mod_64 zero a m = ap (λ (t : ℕ). t % 64) (zero-mul a)
mul-mod_64 (suc i) a m =
    let one_more : suc i * a ≡ i * a + a = suc-mul i a in omega (arith, mul-mod_64 i a m)

-- The test of a loop that counts rounds in a register, after round `i`.
pub counts_to :
    (count i : ℕ)
    → i < times_for count
    → count < 2 ^ 63
    → less_signed (suc i) count ≡ ltb (suc i) (times_for count)
counts_to count i lt small =
    less_signed_small (suc i) count (omega arith) small ∙ elim (dec_lt (suc i) count) [
      | yes more ↦
          lt→ltb (suc i) count more ∙ rw (lt→ltb (suc i) (times_for count) (omega arith)) refl
      | no over ↦
          le→ltb (suc i) count (omega arith)
          ∙ rw (le→ltb (suc i) (times_for count) (omega arith)) refl
    ]

-- A loop over rounds that each step r8 on by `skip` and r11 by one, with `K` after each.
module _ (round : Code) (made : ℕ → List Event → List Event) (K : ℕ → Cpu → Type 0)
    (start skip count fuel : ℕ) (small_count : count < 2 ^ 63)
    (enough_count : times_for count ≤ fuel)
    (each : (i : ℕ) (c : Cpu)
      → i < times_for count
      → K i c
      → c.r8 ≡ u64 (i * skip)
      → c.r11 + 1 < 2 ^ 64
      → Ensures
          (λ d.
            Strode (u64 (c.r8 + skip)) (suc c.r11) (made (u64 (start + c.r8)) c.history) c d
            × K (suc i) d)
          (exec_code fuel round c)) where
  abbrev After : ℕ → Cpu → Cpu → Type 0
  After i c d = Strode (u64 (i * skip)) i (repeated made start skip i c.history) c d

  round-After :
      (c : Cpu)
      → KeepsOn
          (λ i d. After i c d × K i d)
          (exec_code fuel round)
          (jumps_back (imm count) r11)
          (times_for count)
  round-After c i d lt (inv, kept) =
      let up : suc i * skip ≡ i * skip + skip = suc-mul i skip in
      Ensures-weaken
        (λ e.
          Strode (u64 (d.r8 + skip)) (suc d.r11) (made (u64 (start + d.r8)) d.history) d e
          × K (suc i) e)
        _ _ (each i d lt kept inv.offset (omega (arith, inv.counter)))
        λ e (t, kept').
          let off : u64 (d.r8 + skip) ≡ u64 (suc i * skip) = omega (arith, inv.offset) in
          let here : u64 (start + d.r8) ≡ u64 (start + i * skip) = omega (arith, inv.offset) in
          let next : After (suc i) c e = record {
            offset = t.offset ∙ off;
            counter = t.counter ∙ ap suc inv.counter;
            clock_kept = t.clock_kept ∙ inv.clock_kept;
            reads_kept = t.reads_kept ∙ inv.reads_kept;
            traced = t.traced ∙ rw (here, inv.traced) refl;
          } in
          (
            (next, kept'),
            ap (λ (a : ℕ). less_signed a count) next.counter ∙ counts_to count i lt small_count,
          )

  pub kept_rounds_from :
      (pre : Code) (c : Cpu)
      → Ensures (λ d. Strode 0 0 c.history c d × K 0 d) (exec_code fuel pre c)
      → Ensures
          (λ d. After (times_for count) c d × K (times_for count) d)
          (exec_code fuel (pre ⨾ do_while round (imm count) r11) c)
  unfolding exec_code
  kept_rounds_from pre c starts =
      Ensures-bind (λ d. Strode 0 0 c.history c d × K 0 d)
        (λ d. After (times_for count) c d × K (times_for count) d) _ _ starts
        λ d (s, kept).
          let first : After 0 c d = record {
            offset = rw (zero-mul skip) (s.offset);
            counter = s.counter;
            clock_kept = s.clock_kept;
            reads_kept = s.reads_kept;
            traced = s.traced;
          } in
          rounds-Ensures (λ i e. After i c e × K i e) (exec_code fuel round)
            (jumps_back (imm count) r11) (times_for count) fuel d (round-After c) (omega arith)
            enough_count (first, kept)

-- The same, of rounds that ask for the start of a line only.
pub rounds_from :
    (round : Code) (made : ℕ → List Event → List Event) (start skip count fuel : ℕ)
    → count < 2 ^ 63
    → times_for count ≤ fuel
    → start % 64 ≡ 0
    → skip % 64 ≡ 0
    → ((c : Cpu)
        → (start + c.r8) % 64 ≡ 0
        → c.r11 + 1 < 2 ^ 64
        → Ensures
            (Strode (u64 (c.r8 + skip)) (suc c.r11) (made (u64 (start + c.r8)) c.history) c)
            (exec_code fuel round c))
    → (pre : Code) (c : Cpu) → Ensures (Strode 0 0 c.history c) (exec_code fuel pre c)
    → Ensures
        (Strode
          (u64 (times_for count * skip))
          (times_for count)
          (repeated made start skip (times_for count) c.history)
          c)
        (exec_code fuel (pre ⨾ do_while round (imm count) r11) c)
rounds_from round made start skip count fuel small_count enough_count start_at skip_at each pre c
      starts =
    let any : ℕ → Cpu → Type 0 = λ i d. Unit in
    Ensures-weaken (λ d. Strode _ (times_for count) _ c d × Unit) _ _
      (kept_rounds_from round made any start skip count fuel small_count enough_count
        (λ i d lt kept at_i below.
          Ensures-weaken
            (Strode (u64 (d.r8 + skip)) (suc d.r11) (made (u64 (start + d.r8)) d.history) d) _ _
            (each d (omega (arith, at_i, start_at, mul-mod_64 i skip skip_at)) below)
            λ e t. (t, tt))
        pre c (Ensures-weaken (Strode 0 0 c.history c) _ _ starts λ d s. (s, tt)))
      λ d (s, kept). s

pub starts_load :
    (fuel : ℕ) (c : Cpu)
    → Ensures
        (Strode 0 0 c.history c)
        (exec_code fuel (run (xor_ (reg r8) r8 ∷ xor_ (reg r11) r11 ∷ [])) c)
unfolding exec_code
starts_load fuel c = prologue_load c

pub starts_store :
    (start fuel : ℕ) (c : Cpu)
    → Ensures (Strode 0 0 c.history c) (
        exec_code fuel
          (run (xor_ (reg r8) r8 ∷ xor_ (reg r11) r11 ∷ movq_to_xmm (imm start) 0 ∷ []))
          c)
unfolding exec_code
starts_store start fuel c = prologue_store start c

module _ (k : Access) (f : Option FlushOp) (n : ℕ) (start size skip delay count : ℕ) (p fuel : ℕ)
    (short : p * (n * 64) < size) (long : size ≤ suc p * (n * 64)) (small : size + n * 64 < 2 ^ 63)
    (small_delay : delay < 2 ^ 63) (enough : suc p ≤ fuel) (enough_delay : suc (delay - 1) ≤ fuel)
    (small_count : count < 2 ^ 63) (enough_count : times_for count ≤ fuel)
    (start_aligned : start % 64 ≡ 0) (skip_aligned : skip % 64 ≡ 0) where
  abbrev Ends : Cpu → Cpu → Type 0
  Ends c =
      Strode (u64 (times_for count * skip)) (times_for count)
        (strides (by_lines k f) start skip (suc p * n) (times_for count) c.history) c

  strides_from :
      (pre : Code) (c : Cpu)
      → Ensures (Strode 0 0 c.history c) (exec_code fuel pre c)
      → Ensures
          (Ends c)
          (exec_code fuel (pre ⨾ do_while (stride k f n start size skip delay) (imm count) r11) c)
  strides_from pre c starts =
      rounds_from (stride k f n start size skip delay)
        (λ a. line_events (by_lines k f) a (suc p * n)) start skip count fuel small_count
        enough_count start_aligned skip_aligned
        (stride-Strode k f n start size skip delay p fuel short long small small_delay enough
          enough_delay)
        pre c starts

  pub loading-Strode :
      (c : Cpu)
      → Ensures (Ends c) (
          exec_code fuel
            (run (xor_ (reg r8) r8 ∷ xor_ (reg r11) r11 ∷ [])
              ⨾ do_while (stride k f n start size skip delay) (imm count) r11)
            c)
  loading-Strode c =
      strides_from (run (xor_ (reg r8) r8 ∷ xor_ (reg r11) r11 ∷ [])) c (starts_load fuel c)

  pub storing-Strode :
      (c : Cpu)
      → Ensures (Ends c) (
          exec_code fuel
            (run (xor_ (reg r8) r8 ∷ xor_ (reg r11) r11 ∷ movq_to_xmm (imm start) 0 ∷ [])
              ⨾ do_while (stride k f n start size skip delay) (imm count) r11)
            c)
  storing-Strode c =
      strides_from (run (xor_ (reg r8) r8 ∷ xor_ (reg r11) r11 ∷ movq_to_xmm (imm start) 0 ∷ [])) c
        (starts_store start fuel c)
