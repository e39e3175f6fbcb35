-- ===== src/Memaccess/Volume.antt =====
-- How many lines the loops of microbenchmarks/memaccess.cc move.
use database_benchmarking_op.Prelude.{
  ℕ, zero, suc, ◌+◌, ◌*◌, List, [], ◌∷◌, Option, none, some, ◌==◌, ◌≡◌, arith, if◌then◌else◌,
  bit_and,
}
use native.Mathlib.Nat.{suc-mul, zero-mul}
use database_benchmarking_op.Machine.{Access, Event, access, FlushOp, u64}
use database_benchmarking_op.Latency.Spec.{line_events}
use database_benchmarking_op.Memaccess.Blocks.{by_lines}
use database_benchmarking_op.Memaccess.Strides.{strides}
use database_benchmarking_op.Memaccess.RandomLoop.{picks, state_after}

-- The accesses of whole lines in a history.
unfoldable pub lines_moved : List Event → ℕ
lines_moved [] = 0
lines_moved (access k a w ∷ h) = (if w == 64 then 1 else 0) + lines_moved h
lines_moved (_ ∷ h) = lines_moved h

pub lines_moved-line_events :
    (k : Access) (f : Option FlushOp) (a n : ℕ) (h : List Event)
    → lines_moved (line_events (by_lines k f) a n h) ≡ n + lines_moved h
unfolding lines_moved
lines_moved-line_events k f a zero h = omega arith
lines_moved-line_events k none a (suc n) h = omega (arith, lines_moved-line_events k none a n h)
lines_moved-line_events k (some o) a (suc n) h =
    omega (arith, lines_moved-line_events k (some o) a n h)

pub lines_moved-strides :
    (k : Access) (f : Option FlushOp) (start skip lines n : ℕ) (h : List Event)
    → lines_moved (strides (by_lines k f) start skip lines n h) ≡ n * lines + lines_moved h
lines_moved-strides k f start skip lines zero h = rw (zero-mul lines) (omega arith)
lines_moved-strides k f start skip lines (suc n) h = omega (
  arith,
  suc-mul n lines,
  lines_moved-line_events k f (u64 (start + n * skip)) lines
      (strides (by_lines k f) start skip lines n h),
  lines_moved-strides k f start skip lines n h,
)

pub lines_moved-picks :
    (k : Access) (f : Option FlushOp) (random start mask lines s n : ℕ) (h : List Event)
    → lines_moved (picks (by_lines k f) random start mask lines s n h) ≡ n * lines + lines_moved h
unfolding lines_moved
lines_moved-picks k f random start mask lines s zero h = rw (zero-mul lines) (omega arith)
lines_moved-picks k f random start mask lines s (suc n) h =
    let before = picks (by_lines k f) random start mask lines s n h in
    omega (
      arith,
      suc-mul n lines,
      lines_moved-line_events k f (u64 (start + bit_and mask (state_after (suc n) s))) lines
          (access Access.write (u64 random) 8 ∷ access Access.read (u64 random) 8 ∷ before),
      lines_moved-picks k f random start mask lines s n h,
    )
