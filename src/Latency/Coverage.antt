-- ===== src/Latency/Coverage.antt =====
-- Which bytes a latency kernel touches between its time stamps.
use database_benchmarking_op.Prelude.{
  ℕ, zero, suc, ◌+◌, ◌*◌, ◌%◌, ◌^◌, ◌≤◌, ◌<◌, List, [], ◌∷◌, ◌&&◌, Option, none, some, ◌≡◌, refl,
  ap, arith, ltb, leb, if◌then◌else◌,
}
use database_benchmarking_op.Machine.{Event, access, fenced, FlushOp, Cpu, u64, lfence}
use database_benchmarking_op.Exec.Ensures.{Ensures, Ensures-weaken}
use database_benchmarking_op.Latency.Macros.{call}
use database_benchmarking_op.Latency.Tables.{AccessSize}
use database_benchmarking_op.Latency.Spec.{
  LatencyOp, Style, style, lines, accesses, line_flush, line_events, timed_section, timed_spec,
}
use database_benchmarking_op.Latency.Shape.{entry}
use database_benchmarking_op.Latency.Correct.{Measures, call-Measures}

-- 1 if byte `x` is one of the `n` bytes from `a` on, else 0.
abbrev pub inside : ℕ → ℕ → ℕ → ℕ
inside a n x = if leb a x && ltb x (a + n) then 1 else 0

-- How many accesses of a history touch byte `x`.
unfoldable pub touches : List Event → ℕ → ℕ
touches [] x = 0
touches (access k a w ∷ h) x = inside a w x + touches h x
touches (_ ∷ h) x = touches h x

touches-accesses :
    (s : Style) (addr from n x : ℕ) (h : List Event)
    → 0 < s.width
    → addr + (from + n * s.width) ≤ 2 ^ 64
    → touches (accesses s addr from n h) x ≡ inside (addr + from) (n * s.width) x + touches h x
unfolding touches
touches-accesses s addr from zero x h pos fits = ground arith
touches-accesses s addr from (suc n) x h pos fits =
    let start : u64 (addr + (from + n * s.width)) ≡ addr + (from + n * s.width) = omega arith in
    ground (arith, touches-accesses s addr from n x h)

touches-line_flush :
    (f : Option FlushOp) (a x : ℕ) (h : List Event) → touches (line_flush f a h) x ≡ touches h x
unfolding touches
touches-line_flush none a x h = refl
touches-line_flush (some f) a x h = refl

pub touches-line_events :
    (s : Style) (addr n x : ℕ) (h : List Event)
    → s.per_line * s.width ≡ 64
    → addr + n * 64 ≤ 2 ^ 64
    → touches (line_events s addr n h) x ≡ inside addr (n * 64) x + touches h x
touches-line_events s addr zero x h full fits = ground arith
touches-line_events s addr (suc n) x h full fits =
    let flush_at = u64 (addr + n * 64) in
    let pos : 0 < s.width = grind arith in
    let all = accesses s addr (n * 64) s.per_line (line_events s addr n h) in
    ground (
      arith,
      touches-line_flush s.flush_by flush_at x all,
      touches-accesses s addr (n * 64) s.per_line x (line_events s addr n h),
      touches-line_events s addr n x h,
    )

pub full_line : (op : LatencyOp) → (style op).per_line * (style op).width ≡ 64
full_line LatencyOp.load_fence = refl
full_line op = refl

-- Between its time stamps a kernel touches each byte of its 64, 128 or 256 exactly once and no other,
-- at a line-aligned address from which they do not run past the end of the address space.
pub call-touches :
    (op : LatencyOp) (size : AccessSize) (addr x : ℕ) (c : Cpu)
    → addr % 64 ≡ 0
    → addr + lines size * 64 ≤ 2 ^ 64
    → Ensures
        (λ (r, d). touches (timed_section d.history) x ≡ inside addr (lines size * 64) x)
        (call (entry op size addr) c)
unfolding touches
call-touches op size addr x c m fits =
    Ensures-weaken (Measures (timed_spec op size addr) c) _ (call (entry op size addr) c)
      (call-Measures op size addr c m)
      λ d h. omega (
        arith,
        ap (λ l. touches l x) h.1,
        touches-line_events (style op) addr (lines size) x (fenced lfence ∷ []) (full_line op) fits,
      )
