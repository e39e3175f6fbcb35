-- ===== src/Memaccess/StrideTouches.antt =====
-- Which bytes the stride_ functions of microbenchmarks/memaccess.cc touch when the strides lie side by
-- side, as the bandwidth jobs call them.
use database_benchmarking_op.Prelude.{
  ℕ, zero, suc, ◌+◌, ◌*◌, ◌%◌, ◌^◌, ◌≤◌, ◌<◌, List, Option, ◌≡◌, refl, sym, ap, ◌∙◌, arith,
}
use native.Mathlib.Nat.{suc-mul, zero-mul, mul_assoc}
use database_benchmarking_op.Machine.{Cpu, Access, Event, FlushOp, u64, exec_code}
use database_benchmarking_op.Exec.Ensures.{Ensures, Ensures-weaken}
use database_benchmarking_op.Latency.Coverage.{inside, touches, touches-line_events}
use database_benchmarking_op.Memaccess.Blocks.{by_lines}
use database_benchmarking_op.Memaccess.Strides.{strides, Strode, times_for}
use database_benchmarking_op.Memaccess.StrideLoop.{mul-mod_64}
use database_benchmarking_op.Memaccess.StrideKernels.{
  StridedOp, bench_store, access_of, flush_of, unroll_of, kernel_of, kernel_of-strides,
}

-- Two ranges side by side.
pub inside-add : (a m n x : ℕ) → inside (a + m) n x + inside a m x ≡ inside a (m + n) x
inside-add a m n x = ground arith

pub touches-strides :
    (k : Access) (f : Option FlushOp) (start lines n x : ℕ) (h : List Event)
    → start + n * (lines * 64) ≤ 2 ^ 64
    → 0 < lines
    → touches (strides (by_lines k f) start (lines * 64) lines n h) x
      ≡ inside start (n * (lines * 64)) x + touches h x
touches-strides k f start lines zero x h fits pos =
    let none_yet : 0 * (lines * 64) ≡ 0 = zero-mul (lines * 64) in rw none_yet (ground arith)
touches-strides k f start lines (suc n) x h fits pos =
    let w = lines * 64 in
    let up : suc n * w ≡ n * w + w = suc-mul n w in
    let base : u64 (start + n * w) ≡ start + n * w = omega arith in
    let before = strides (by_lines k f) start w lines n h in
    rw
      (
        base,
        up,
        touches-line_events (by_lines k f) (start + n * w) lines x before refl (omega arith),
        touches-strides k f start lines n x h (omega arith) pos,
      )
      (omega (arith, inside-add start (n * w) w x))

wide_round : (op : StridedOp) → 64 ≤ unroll_of op * 64
wide_round bench_store = omega arith
wide_round op = omega arith

-- Each of the four functions, called as the bandwidth jobs call them: a size that its rounds of 64 or
-- 256 bytes fill (below 2 ^ 62), a stride of that size, no delay, and a count above 0 and below 2 ^ 63.
-- From the start of a line on, if the bytes do not run past the end of the address space, and with fuel
-- for the rounds of each loop, it touches each of the `count` times `size` bytes once more, and no other.
pub kernel_of-touches :
    (op : StridedOp) (start size count p fuel : ℕ) (c : Cpu)
    → size ≡ suc p * (unroll_of op * 64)
    → size < 2 ^ 62
    → 0 < count
    → count < 2 ^ 63
    → start % 64 ≡ 0
    → start + count * size ≤ 2 ^ 64
    → suc p ≤ fuel
    → count ≤ fuel
    → Ensures
        (λ d. (x : ℕ) → touches d.history x ≡ inside start (count * size) x + touches c.history x)
        (exec_code fuel (kernel_of op start size size 0 count) c)
kernel_of-touches op start size count p fuel c full small pos small_count aligned fits enough
      enough_count =
    let w = unroll_of op * 64 in
    let k = access_of op in
    let f = flush_of op in
    let lines = suc p * unroll_of op in
    let wide : 64 ≤ w = wide_round op in
    let one_more : suc p * w ≡ p * w + w = suc-mul p w in
    let whole : size ≡ lines * 64 = full ∙ sym (mul_assoc (suc p) (unroll_of op) 64) in
    let on_line : size % 64 ≡ 0 = ap (λ (a : ℕ). a % 64) whole ∙ mul-mod_64 lines 64 refl in
    let n : times_for count ≡ count = omega arith in
    let ends : Cpu → Type 0 =
      Strode (u64 (times_for count * size)) (times_for count)
        (strides (by_lines k f) start size lines (times_for count) c.history) c in
    Ensures-weaken ends _ (exec_code fuel (kernel_of op start size size 0 count) c)
      (kernel_of-strides start size size 0 count p fuel small (omega arith) enough (omega arith)
        small_count (omega arith) aligned on_line op c (omega arith) (omega arith))
      λ d s x.
        let sides =
          touches-strides k f start lines count x c.history (rw whole at fits) (omega arith) in
        ap (λ (h : List Event). touches h x) s.traced
        ∙ ap (λ (i : ℕ). touches (strides (by_lines k f) start size lines i c.history) x) n
        ∙ rw whole sides
