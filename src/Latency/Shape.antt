-- ===== src/Latency/Shape.antt =====
-- Every kernel is a preparation that sets rsi, then straight-line code between the time stamps.
use database_benchmarking_op.Prelude.{
  ℕ, List, [], ◌∷◌, ◌++◌, Bool, true, false, ◌≡◌, refl, Option, none, some, get_elem?,
}
use database_benchmarking_op.Machine.{Instr, nop, rdtscp, fence, vbroadcastsd, Event}
use database_benchmarking_op.Exec.Straight.{all_plain, then_events}
use database_benchmarking_op.Latency.Macros.{
  Kernel, load_value, load_addr, flush_cache_line, load_cache_line, clear_pipeline, timing_beg,
  timing_end,
}
use database_benchmarking_op.Latency.Size64.{
  store_64byte_fence, store_64byte_clflush, store_64byte_clwb, store_64byte_clflushopt,
  nstore_64byte_fence, load_64byte_fence, load_64byte_fence_nt, store_64byte_fence_movq,
  store_64byte_clflush_movq, load_64byte_fence_movq, baseline,
}
use database_benchmarking_op.Latency.Size128.{
  store_128byte_fence, store_128byte_clflush, store_128byte_clwb, store_128byte_clflushopt,
  nstore_128byte_fence, load_128byte_fence, load_128byte_fence_nt, store_128byte_fence_movq,
  store_128byte_clflush_movq, load_128byte_fence_movq,
}
use database_benchmarking_op.Latency.Size256.{
  store_256byte_fence, store_256byte_clflush, store_256byte_clwb, store_256byte_clflushopt,
  nstore_256byte_fence, load_256byte_fence, load_256byte_fence_nt,
}
use database_benchmarking_op.Latency.Size256Movq.{
  store_256byte_fence_movq, store_256byte_clflush_movq, load_256byte_fence_movq,
}
use database_benchmarking_op.Latency.Tables.{AccessSize, bytes64, bytes128, bytes256, latency_funcs}
use database_benchmarking_op.Latency.Spec.{
  LatencyOp, load_fence, ntload_fence, store_fence, store_clflush, store_clwb, store_clflushopt,
  ntstore_fence, store_fence_movq, store_clflush_movq, load_fence_movq, style, lines, line_events,
}

abbrev pub all_quiet : List Instr → Bool
all_quiet [] = true
all_quiet (nop ∷ is) = all_quiet is
all_quiet (vbroadcastsd n v ∷ is) = all_quiet is
all_quiet _ = false

abbrev pub index : LatencyOp → ℕ
index load_fence = 0
index ntload_fence = 1
index store_fence = 2
index store_clflush = 3
index store_clwb = 4
index store_clflushopt = 5
index ntstore_fence = 6
index store_fence_movq = 7
index store_clflush_movq = 8
index load_fence_movq = 9

abbrev value : ℕ
value = 0xC0FFEEEEBABE0000

lead : LatencyOp → List Instr
unfolding load_value
lead store_fence = load_value value
lead _ = []

cached : List Instr
unfolding load_cache_line clear_pipeline
cached = load_cache_line ++ clear_pipeline

uncached : List Instr
unfolding flush_cache_line clear_pipeline
uncached = flush_cache_line ++ clear_pipeline

pub prep : LatencyOp → List Instr
unfolding cached uncached load_value
prep load_fence = uncached
prep ntload_fence = uncached
prep store_fence = cached
prep store_clflush = load_value value ++ cached
prep store_clwb = load_value value ++ cached
prep store_clflushopt = load_value value ++ cached
prep ntstore_fence = load_value value ++ uncached
prep store_fence_movq = cached
prep store_clflush_movq = cached
prep load_fence_movq = uncached

drop_three : List Instr → List Instr
drop_three (a ∷ b ∷ c ∷ is) = is
drop_three _ = []

unfoldable pub after_clock : List Instr → List Instr
unfolding drop_three
after_clock [] = []
after_clock (rdtscp ∷ is) = drop_three is
after_clock (i ∷ is) = after_clock is

unfoldable pub until_fence : List Instr → List Instr
until_fence [] = []
until_fence (fence f ∷ is) = []
until_fence (i ∷ is) = i ∷ until_fence is

pub record Shaped (op : LatencyOp) (size : AccessSize) (addr : ℕ) (k : Kernel) : Type 0 where
  pub start : List Instr
  pub ready : List Instr
  pub body : List Instr
  pub parts : k.asm ≡ start ++ (load_addr addr ++ (ready ++ (timing_beg ++ (body ++ timing_end))))
  pub start_quiet : all_quiet start ≡ true
  pub ready_plain : all_plain ready ≡ true
  pub body_plain : all_plain body ≡ true
  pub body_events :
      (h : List Event) → then_events addr body h ≡ line_events (style op) addr (lines size) h

abbrev or_baseline : Option (ℕ → Kernel) → ℕ → Kernel
or_baseline none = baseline
or_baseline (some k) = k

-- The table's function for an operation and a size.
unfoldable pub entry : LatencyOp → AccessSize → ℕ → Kernel
unfolding latency_funcs
entry op size = or_baseline (get_elem? (latency_funcs size) (index op))

-- Unfolds all that the shape of a kernel is computed from.
unfoldable pub kernel_text : LatencyOp → AccessSize → ℕ → Kernel
unfolding entry lead prep after_clock until_fence flush_cache_line load_cache_line clear_pipeline
    load_value load_addr timing_beg timing_end store_64byte_fence store_64byte_clflush
    store_64byte_clwb store_64byte_clflushopt nstore_64byte_fence load_64byte_fence
    load_64byte_fence_nt baseline store_64byte_fence_movq store_64byte_clflush_movq
    load_64byte_fence_movq store_128byte_fence store_128byte_clflush store_128byte_clwb
    store_128byte_clflushopt nstore_128byte_fence load_128byte_fence load_128byte_fence_nt
    store_128byte_fence_movq store_128byte_clflush_movq load_128byte_fence_movq store_256byte_fence
    store_256byte_clflush store_256byte_clwb store_256byte_clflushopt nstore_256byte_fence
    load_256byte_fence load_256byte_fence_nt store_256byte_fence_movq store_256byte_clflush_movq
    load_256byte_fence_movq
kernel_text op size addr = entry op size addr

one_line : (op : LatencyOp) (addr : ℕ) → Shaped op bytes64 addr (entry op bytes64 addr)
unfolding kernel_text
one_line load_fence addr = record {
  start = lead load_fence;
  ready = prep load_fence;
  body = until_fence (after_clock (kernel_text load_fence bytes64 addr).asm);
  parts = refl;
  start_quiet = refl;
  ready_plain = refl;
  body_plain = refl;
  body_events = λ h. refl;
}
one_line op addr = record {
  start = lead op;
  ready = prep op;
  body = until_fence (after_clock (kernel_text op bytes64 addr).asm);
  parts = refl;
  start_quiet = refl;
  ready_plain = refl;
  body_plain = refl;
  body_events = λ h. refl;
}

two_lines : (op : LatencyOp) (addr : ℕ) → Shaped op bytes128 addr (entry op bytes128 addr)
unfolding kernel_text
two_lines load_fence addr = record {
  start = lead load_fence;
  ready = prep load_fence;
  body = until_fence (after_clock (kernel_text load_fence bytes128 addr).asm);
  parts = refl;
  start_quiet = refl;
  ready_plain = refl;
  body_plain = refl;
  body_events = λ h. refl;
}
two_lines op addr = record {
  start = lead op;
  ready = prep op;
  body = until_fence (after_clock (kernel_text op bytes128 addr).asm);
  parts = refl;
  start_quiet = refl;
  ready_plain = refl;
  body_plain = refl;
  body_events = λ h. refl;
}

four_lines : (op : LatencyOp) (addr : ℕ) → Shaped op bytes256 addr (entry op bytes256 addr)
unfolding kernel_text
four_lines load_fence addr = record {
  start = lead load_fence;
  ready = prep load_fence;
  body = until_fence (after_clock (kernel_text load_fence bytes256 addr).asm);
  parts = refl;
  start_quiet = refl;
  ready_plain = refl;
  body_plain = refl;
  body_events = λ h. refl;
}
four_lines op addr = record {
  start = lead op;
  ready = prep op;
  body = until_fence (after_clock (kernel_text op bytes256 addr).asm);
  parts = refl;
  start_quiet = refl;
  ready_plain = refl;
  body_plain = refl;
  body_events = λ h. refl;
}

pub entry-Shaped :
    (op : LatencyOp) (size : AccessSize) (addr : ℕ) → Shaped op size addr (entry op size addr)
entry-Shaped op bytes64 addr = one_line op addr
entry-Shaped op bytes128 addr = two_lines op addr
entry-Shaped op bytes256 addr = four_lines op addr

pub entry-prep : (op : LatencyOp) (addr : ℕ) → (entry-Shaped op bytes64 addr).ready ≡ prep op
unfolding entry-Shaped one_line
entry-prep load_fence addr = refl
entry-prep op addr = refl
