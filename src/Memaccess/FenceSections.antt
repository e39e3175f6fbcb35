-- ===== src/Memaccess/FenceSections.antt =====
-- cachefence of microbenchmarks/memaccess.cc: blocks are stored and written back, and a fence follows each
-- section of them.
use database_benchmarking_op.Prelude.{
  ℕ, zero, suc, ◌+◌, ◌*◌, ◌/◌, ◌%◌, ◌^◌, ◌≤◌, ◌<◌, List, ◌∷◌, none, ◌||◌, ◌≡◌, refl, ◌∙◌, arith,
}
use database_benchmarking_op.Machine.{sfence, write, Event, fenced, u64}
use database_benchmarking_op.Latency.Persistence.{is_flushed}
use database_benchmarking_op.Latency.Spec.{line_events}
use database_benchmarking_op.Memaccess.Blocks.{by_lines}
use database_benchmarking_op.Memaccess.FenceSteps.{write_backs, block_events}
use database_benchmarking_op.Memaccess.Strides.{repeated}
use database_benchmarking_op.Memaccess.Written.{in_lines, WritesBack, repeated-WritesBack}

write_backs-WritesBack : (n : ℕ) → WritesBack (λ a h. write_backs a n h) n
unfolding is_flushed
write_backs-WritesBack zero a l h on_line fits = ground arith
write_backs-WritesBack (suc n) a l h on_line fits =
    let here : u64 (a + n * 64) / 64 ≡ a / 64 + n = omega arith in
    ground (arith, here, write_backs-WritesBack n a l h on_line (omega arith))

stores_only :
    (n a l : ℕ) (h : List Event)
    → a % 64 ≡ 0
    → a + n * 64 ≤ 2 ^ 64
    → (in_lines (a / 64) n l || is_flushed l (line_events (by_lines write none) a n h))
      ≡ (in_lines (a / 64) n l || is_flushed l h)
unfolding is_flushed
stores_only zero a l h on_line fits = refl
stores_only (suc n) a l h on_line fits =
    let here : u64 (a + (n * 64 + 0 * 64)) / 64 ≡ a / 64 + n = omega arith in
    ground (arith, here, stores_only n a l h on_line (omega arith))

pub block_events-WritesBack : (n : ℕ) → WritesBack (block_events n) n
block_events-WritesBack n a l h on_line fits =
    write_backs-WritesBack n a l (line_events (by_lines write none) a n h) on_line fits
    ∙ stores_only n a l h on_line fits

-- A section: `m` blocks of `n` lines, and a fence.
abbrev pub section_events : (n m a : ℕ) → List Event → List Event
section_events n m a h = fenced sfence ∷ repeated (block_events n) a (n * 64) m h

pub section_events-WritesBack : (n m : ℕ) → 0 < n → WritesBack (section_events n m) (m * n)
unfolding is_flushed
section_events-WritesBack n m pos a l h on_line fits =
    repeated-WritesBack (block_events n) n m pos (block_events-WritesBack n) a l h on_line fits
