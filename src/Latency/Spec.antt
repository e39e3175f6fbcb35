-- ===== src/Latency/Spec.antt =====
-- What a latency kernel is to do between its two time stamps, by its name and size.
use Prim.Native.String.{String}
use database_benchmarking_op.Prelude.{ℕ, zero, suc, ◌+◌, ◌*◌, List, [], ◌∷◌, Option, none, some}
use database_benchmarking_op.Machine.{
  Access, read, nt_read, write, nt_write, FlushOp, clflush, clwb, clflushopt, Event, access,
  flushed, fenced, stamp, mfence, lfence, u64,
}
use database_benchmarking_op.Latency.Tables.{AccessSize, bytes64, bytes128, bytes256}

-- One for each entry of latency_bench_map that names an access.
pub data LatencyOp : Type 0 where
  load_fence ntload_fence store_fence store_clflush store_clwb store_clflushopt : LatencyOp
  ntstore_fence store_fence_movq store_clflush_movq load_fence_movq : LatencyOp

abbrev pub bench_name : LatencyOp → String
bench_name load_fence = "load-fence"
bench_name ntload_fence = "ntload-fence"
bench_name store_fence = "store-fence"
bench_name store_clflush = "store-clflush"
bench_name store_clwb = "store-clwb"
bench_name store_clflushopt = "store-clflushopt"
bench_name ntstore_fence = "ntstore-fence"
bench_name store_fence_movq = "store-fence-movq"
bench_name store_clflush_movq = "store-clflush-movq"
bench_name load_fence_movq = "load-fence-movq"

-- How the bytes are moved: the access, its width in bytes, and the flush after each cache line.
pub record Style : Type 0 where
  pub kind : Access
  pub width : ℕ
  pub per_line : ℕ
  pub flush_by : Option FlushOp

abbrev by_halves : Access → Option FlushOp → Style
by_halves k f = record { kind = k; width = 32; per_line = 2; flush_by = f }

abbrev by_words : Access → Option FlushOp → Style
by_words k f = record { kind = k; width = 8; per_line = 8; flush_by = f }

abbrev pub style : LatencyOp → Style
style load_fence = by_halves read none
style ntload_fence = by_halves nt_read none
style store_fence = by_halves write none
style store_clflush = by_halves write (some clflush)
style store_clwb = by_halves write (some clwb)
style store_clflushopt = by_halves write (some clflushopt)
style ntstore_fence = by_halves nt_write none
style store_fence_movq = by_words write none
style store_clflush_movq = by_words write (some clflush)
style load_fence_movq = by_words read none

abbrev pub lines : AccessSize → ℕ
lines bytes64 = 1
lines bytes128 = 2
lines bytes256 = 4

-- `n` accesses side by side from `from` on, latest first, before the history `h`.
abbrev pub accesses : Style → ℕ → ℕ → ℕ → List Event → List Event
accesses s addr from zero h = h
accesses s addr from (suc n) h =
    access s.kind (u64 (addr + (from + n * s.width))) s.width ∷ accesses s addr from n h

abbrev pub line_flush : Option FlushOp → ℕ → List Event → List Event
line_flush none a h = h
line_flush (some f) a h = flushed f a ∷ h

-- The first `n` cache lines of a kernel, latest event first.
abbrev pub line_events : Style → ℕ → ℕ → List Event → List Event
line_events s addr zero h = h
line_events s addr (suc n) h =
    line_flush s.flush_by (u64 (addr + n * 64))
      (accesses s addr (n * 64) s.per_line (line_events s addr n h))

-- The events between the two latest time stamps of a history, latest first.
abbrev pub until_stamp : List Event → List Event
until_stamp [] = []
until_stamp (stamp t ∷ h) = []
until_stamp (e ∷ h) = e ∷ until_stamp h

abbrev pub timed_section : List Event → List Event
timed_section [] = []
timed_section (stamp t ∷ h) = until_stamp h
timed_section (e ∷ h) = timed_section h

-- The lines, in order, with a load fence before and a full fence after.
abbrev pub timed_spec : LatencyOp → AccessSize → ℕ → List Event
timed_spec op size addr =
    fenced mfence ∷ line_events (style op) addr (lines size) (fenced lfence ∷ [])
