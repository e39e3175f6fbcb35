-- ===== src/Latency/Repeated.antt =====
-- What the two repeated kernels of microbenchmarks/common.hpp measure.
use database_benchmarking_op.Prelude.{ℕ, ◌%◌, [], ◌≡◌, refl}
use database_benchmarking_op.Machine.{Cpu}
use database_benchmarking_op.Exec.Ensures.{Ensures}
use database_benchmarking_op.Latency.Macros.{load_value, load_addr, timing_beg, timing_end, call}
use database_benchmarking_op.Latency.Repeat.{repeat_256byte_ntstore, repeat_256byte_load}
use database_benchmarking_op.Latency.Tables.{bytes256}
use database_benchmarking_op.Latency.Spec.{ntload_fence, ntstore_fence, timed_spec}
use database_benchmarking_op.Latency.Shape.{Shaped, after_clock, until_fence}
use database_benchmarking_op.Latency.Correct.{Measures, Shaped-Measures}

ntstore-Shaped : (addr : ℕ) → Shaped ntstore_fence bytes256 addr (repeat_256byte_ntstore addr)
unfolding repeat_256byte_ntstore load_value load_addr timing_beg timing_end after_clock until_fence
ntstore-Shaped addr = record {
  start = load_value 0xC0FFEEEEBABE0000;
  ready = [];
  body = until_fence (after_clock (repeat_256byte_ntstore addr).asm);
  parts = refl;
  start_quiet = refl;
  ready_plain = refl;
  body_plain = refl;
  body_events = λ h. refl;
}

load-Shaped : (addr : ℕ) → Shaped ntload_fence bytes256 addr (repeat_256byte_load addr)
unfolding repeat_256byte_load load_value load_addr timing_beg timing_end after_clock until_fence
load-Shaped addr = record {
  start = load_value 0xC0FFEEEEBABE0000;
  ready = [];
  body = until_fence (after_clock (repeat_256byte_load addr).asm);
  parts = refl;
  start_quiet = refl;
  ready_plain = refl;
  body_plain = refl;
  body_events = λ h. refl;
}

-- At a line-aligned address the two repeated kernels return the ticks between two readings of the counter, and
-- do between these just what the 256-byte kernels of the table do, the non-temporal store and
-- the non-temporal load; without a fault, and reading the counter no other time.
pub repeat_256byte-Measures :
    (addr : ℕ) (c : Cpu)
    → addr % 64 ≡ 0
    → Ensures
        (Measures (timed_spec ntstore_fence bytes256 addr) c)
        (call (repeat_256byte_ntstore addr) c)
      × Ensures
          (Measures (timed_spec ntload_fence bytes256 addr) c)
          (call (repeat_256byte_load addr) c)
repeat_256byte-Measures addr c m = (
  Shaped-Measures ntstore_fence bytes256 addr (repeat_256byte_ntstore addr) c (ntstore-Shaped addr)
      m,
  Shaped-Measures ntload_fence bytes256 addr (repeat_256byte_load addr) c (load-Shaped addr) m,
)
