-- ===== src/Memaccess/Written.antt =====
-- Which lines the functions of microbenchmarks/memaccess.cc that flush leave written back.
use database_benchmarking_op.Prelude.{
  ℕ, zero, suc, ◌+◌, ◌*◌, ◌/◌, ◌%◌, ◌^◌, ◌≤◌, ◌<◌, List, Bool, true, some, leb, ltb, ◌&&◌, ◌||◌,
  ◌≡◌, sym, ap, ◌∙◌, arith,
}
use native.Mathlib.Nat.{suc-mul, zero-mul, mul_assoc}
use database_benchmarking_op.Machine.{write, Event, clwb, Cpu, u64, exec_code}
use database_benchmarking_op.Exec.Ensures.{Ensures, Ensures-weaken}
use database_benchmarking_op.Latency.Spec.{line_events}
use database_benchmarking_op.Latency.Persistence.{is_flushed}
use database_benchmarking_op.Memaccess.Blocks.{by_lines}
use database_benchmarking_op.Memaccess.Stride.{stride_storeclwb}
use database_benchmarking_op.Memaccess.Strides.{repeated, strides, Strode, times_for}
use database_benchmarking_op.Memaccess.StrideKernels.{bench_store_flush, kernel_of-strides}

-- Line `l` is one of the `m` from line `x` on.
abbrev pub in_lines : (x m l : ℕ) → Bool
in_lines x m l = leb x l && ltb l (x + m)

-- The events from `a` on leave the `m` lines there written back, and no other line changes.
abbrev pub WritesBack : (ℕ → List Event → List Event) → ℕ → Type 0
WritesBack made m =
    (a l : ℕ) (h : List Event)
    → a % 64 ≡ 0
    → a + m * 64 ≤ 2 ^ 64
    → is_flushed l (made a h) ≡ (in_lines (a / 64) m l || is_flushed l h)

-- Events side by side.
pub repeated-WritesBack :
    (made : ℕ → List Event → List Event) (m n : ℕ)
    → 0 < m
    → WritesBack made m
    → WritesBack (λ a h. repeated made a (m * 64) n h) (n * m)
repeated-WritesBack made m zero pos each a l h on_line fits =
    let none_yet : 0 * m ≡ 0 = zero-mul m in rw none_yet (ground arith)
repeated-WritesBack made m (suc n) pos each a l h on_line fits =
    let up : suc n * m ≡ n * m + m = suc-mul n m in
    let whole : n * (m * 64) ≡ n * m * 64 = sym (mul_assoc n m 64) in
    let here : u64 (a + n * (m * 64)) ≡ a + n * m * 64 = omega arith in
    let first : (a + n * m * 64) / 64 ≡ a / 64 + n * m = omega arith in
    let rest = repeated made a (m * 64) n h in
    let last = each (a + n * m * 64) l rest (omega arith) (omega arith) in
    rw (here, up)
      (last
        ∙ ground (arith, first, repeated-WritesBack made m n pos each a l h on_line (omega arith)))

-- Lines that are stored and flushed one by one.
line_events-WritesBack :
    (n : ℕ) → WritesBack (λ a h. line_events (by_lines write (some clwb)) a n h) n
unfolding is_flushed
line_events-WritesBack zero a l h on_line fits = ground arith
line_events-WritesBack (suc n) a l h on_line fits =
    let flush_at : u64 (a + n * 64) / 64 ≡ a / 64 + n = omega arith in
    let store_at : u64 (a + (n * 64 + 0 * 64)) / 64 ≡ a / 64 + n = omega arith in
    ground (arith, flush_at, store_at, line_events-WritesBack n a l h on_line (omega arith))

-- stride_storeclwb, called as the bandwidth jobs call it: a size of whole blocks of 256 bytes, a stride
-- of that size (below 2 ^ 62), no delay, a count above 0 and below 2 ^ 63, from the start of a line on, with bytes
-- that do not run past the end of the address space and fuel for the rounds of each loop. It ends, and
-- then every line of the `count` times `size` bytes has been written back after the last store to it.
pub stride_storeclwb-is_flushed :
    (start size count p fuel l : ℕ) (c : Cpu)
    → size ≡ suc p * 256
    → size < 2 ^ 62
    → 0 < count
    → count < 2 ^ 63
    → start % 64 ≡ 0
    → start + count * size ≤ 2 ^ 64
    → suc p ≤ fuel
    → count ≤ fuel
    → start ≤ l * 64
    → l * 64 < start + count * size
    → Ensures
        (λ d. is_flushed l d.history ≡ true)
        (exec_code fuel (stride_storeclwb start size size 0 count) c)
stride_storeclwb-is_flushed start size count p fuel l c full small pos small_count aligned fits
      enough enough_count from to =
    let lines = suc p * 4 in
    let one_more : suc p * 256 ≡ p * 256 + 256 = suc-mul p 256 in
    let whole : size ≡ lines * 64 = omega arith in
    let on_line : size % 64 ≡ 0 = omega arith in
    let n : times_for count ≡ count = omega arith in
    let total : count * size ≡ count * lines * 64 =
      ap (λ (w : ℕ). count * w) whole ∙ sym (mul_assoc count lines 64) in
    let made : ℕ → List Event =
      λ m. strides (by_lines write (some clwb)) start size lines m c.history in
    Ensures-weaken
      (Strode (u64 (times_for count * size)) (times_for count) (made (times_for count)) c) _
      (exec_code fuel (stride_storeclwb start size size 0 count) c)
      (kernel_of-strides start size size 0 count p fuel small (omega arith) enough (omega arith)
        small_count (omega arith) aligned on_line bench_store_flush c (omega arith) (omega arith))
      λ d s.
        let all =
          repeated-WritesBack (λ a h. line_events (by_lines write (some clwb)) a lines h) lines
            count (omega arith) (line_events-WritesBack lines) start l c.history aligned
            (omega arith) in
        ap (is_flushed l) (
          s.traced
          ∙ ap made n
          ∙ ap (λ (w : ℕ). strides (by_lines write (some clwb)) start w lines count c.history)
              whole)
        ∙ all
        ∙ ground arith
