-- ===== src/Driver/WarmUp.antt =====
-- seq_lat and random_lat of microbenchmarks/run_thread.cc. The statistics printed of their results are left out.
use database_benchmarking_op.Prelude.{
  ℕ, ◌+◌, ◌*◌, ◌/◌, ◌%◌, ◌^◌, ◌≤◌, List, Bool, length, Option, none, some, ◌≡◌, refl, ◌∙◌, arith,
}
use database_benchmarking_op.Machine.{
  Cpu, Outcome, done, fault, spin, ◌>>=◌, u64, nt_read, exec_code,
}
use database_benchmarking_op.Exec.Ensures.{Ensures, Ensures-weaken}
use database_benchmarking_op.Latency.Coverage.{inside, touches}
use database_benchmarking_op.Driver.Config.{WorkerCtx, perthread_workset, latency_ops_count}
use database_benchmarking_op.Driver.Launch.{benchmark_lat_seq, benchmark_lat_random}
use database_benchmarking_op.Driver.LatencyJobs.{seq_lat_timed, random_lat_timed}
use database_benchmarking_op.Driver.LatencyRuns.{
  Timings, measured_op, line_by_line, scattered, benchmark_lat_seq-Timings,
  benchmark_lat_random-Timings,
}
use database_benchmarking_op.Driver.Sweeps.{Swept}
use database_benchmarking_op.Memaccess.Stride.{stride_load}
use database_benchmarking_op.Memaccess.Strides.{Strode, strides, times_for}
use database_benchmarking_op.Memaccess.Blocks.{by_lines}
use database_benchmarking_op.Memaccess.StrideKernels.{bench_load, kernel_of-strides}
use database_benchmarking_op.Memaccess.StrideTouches.{kernel_of-touches}

-- funcs[0](buf, 256, 256, 0, count)
unfoldable pub warm_up : ℕ → WorkerCtx → Cpu → Outcome Cpu
warm_up fuel ctx c =
    let count = perthread_workset / 256 in exec_code fuel (stride_load ctx.addr 256 256 0 count) c

-- What reading a field gives. `unset` is what it gives of a field that was never set: some value, or
-- `none` if such a read is taken to be undefined.
abbrev pub read_field : (unset field : Option ℕ) → Option ℕ
read_field unset none = unset
read_field unset (some v) = some v

-- Both tests read access_size first, and do nothing with it.
abbrev after_reading : {A : Type 0} → Option ℕ → Outcome A → Outcome A
after_reading none o = fault
after_reading (some access_size) o = o

module _ {Double : Type 0} (unset : Option ℕ) (divided : ℕ → Double) where
  unfoldable pub seq_lat : ℕ → WorkerCtx → Cpu → Outcome (List Double × Cpu)
  seq_lat fuel ctx c =
      after_reading (read_field unset ctx.access_size)
        (warm_up fuel ctx c >>= seq_lat_timed divided ctx)

  unfoldable pub random_lat :
      (truncated : Double → ℕ) → ℕ → WorkerCtx → Cpu → Outcome (List ℕ × Cpu)
  random_lat truncated fuel ctx c =
      after_reading (read_field unset ctx.access_size)
        (warm_up fuel ctx c >>= random_lat_timed divided truncated ctx)

abbrev calls : ℕ
calls = perthread_workset / 256

-- The warm-up makes no reading of the counter.
abbrev pub Untimed : Cpu → Cpu → Type 0
Untimed c d = (d.clock ≡ c.clock) × (d.reads ≡ c.reads)

warm_up-Untimed :
    (fuel : ℕ) (ctx : WorkerCtx) (c : Cpu)
    → ctx.addr % 64 ≡ 0
    → calls ≤ fuel
    → Ensures (Untimed c) (warm_up fuel ctx c)
unfolding warm_up
warm_up-Untimed fuel ctx c m enough =
    Ensures-weaken
      (Strode (u64 (times_for calls * 256)) (times_for calls)
        (strides (by_lines nt_read none) ctx.addr 256 4 (times_for calls) c.history) c)
      (Untimed c) (exec_code fuel (stride_load ctx.addr 256 256 0 calls) c)
      (kernel_of-strides ctx.addr 256 256 0 calls 0 fuel (omega arith) (omega arith)
        (omega (arith, enough)) (omega (arith, enough)) (omega arith) (omega (arith, enough)) m refl
        bench_load c (omega arith) (omega arith))
      λ d s. (s.clock_kept, s.reads_kept)

warm_up-Swept :
    (fuel : ℕ) (ctx : WorkerCtx) (c : Cpu)
    → ctx.addr % 64 ≡ 0
    → ctx.addr + perthread_workset ≤ 2 ^ 64
    → calls ≤ fuel
    → Ensures (Swept ctx.addr perthread_workset 1 c) (warm_up fuel ctx c)
unfolding warm_up
warm_up-Swept fuel ctx c m fits enough =
    Ensures-weaken
      (λ d.
        (x : ℕ) → touches d.history x ≡ inside ctx.addr perthread_workset x + touches c.history x)
      (Swept ctx.addr perthread_workset 1 c)
      (exec_code fuel (stride_load ctx.addr 256 256 0 calls) c)
      (kernel_of-touches bench_load ctx.addr 256 calls 0 fuel c refl (omega arith) (omega arith)
        (omega arith) m fits (omega (arith, enough)) enough)
      λ d s x. s x ∙ omega arith

-- The warm-up ends in a state, and the test goes on from it.
after_warm_up :
    {A : Type 0} (P : Cpu → A → Type 0) (o : Outcome Cpu) (Q R : Cpu → Type 0)
    (job : Cpu → Outcome A)
    → Ensures Q o
    → Ensures R o
    → ((d : Cpu) → Ensures (P d) (job d))
    → (w : Cpu) × (o ≡ done w) × Q w × R w × Ensures (P w) (o >>= job)
after_warm_up P (done w) Q R job q r h = (w, refl, q, r, h w)
after_warm_up P fault Q R job q r h = absurd q
after_warm_up P spin Q R job q r h = absurd q

-- The whole sequential latency test over line-aligned memory of 2 GiB that does not run past the end of
-- the address space, with fuel for 2 ^ 23 rounds a loop, where reading a field that was never set gives a
-- value: its warm-up ends, touches each byte of the 2 GiB from the start on once, and no other, and makes no reading of
-- the counter. From there the test returns, without a fault. Its results are the ticks between the
-- next two readings of the counter, between the two after these, and so on, one for each of its operations, each
-- divided. Its history is that of calls, one line after the other from the start on, of one kernel: the 64-byte load if a
-- read is asked for, the store with clwb if a non-temporal write is, and the non-temporal store if not.
pub benchmark_lat_seq-Warmed :
    {Double : Type 0} (divided : ℕ → Double) (start fuel unset : ℕ) (read nt : Bool) (c : Cpu)
    → start % 64 ≡ 0
    → start + perthread_workset ≤ 2 ^ 64
    → 2 ^ 23 ≤ fuel
    → (w : Cpu) × (warm_up fuel (benchmark_lat_seq start read nt).ctx c ≡ done w)
      × Swept start perthread_workset 1 c w
      × Untimed c w
      × Ensures
          (Timings divided
            (measured_op read nt)
            (line_by_line start latency_ops_count)
            latency_ops_count
            w)
          (seq_lat (some unset) divided fuel (benchmark_lat_seq start read nt).ctx c)
unfolding seq_lat benchmark_lat_seq
benchmark_lat_seq-Warmed divided start fuel unset read nt c m fits enough =
    let ctx = (benchmark_lat_seq start read nt).ctx in
    let lines = line_by_line start latency_ops_count in
    after_warm_up (Timings divided (measured_op read nt) lines latency_ops_count)
      (warm_up fuel ctx c) (Swept start perthread_workset 1 c) (Untimed c)
      (seq_lat_timed divided ctx) (warm_up-Swept fuel ctx c m fits enough)
      (warm_up-Untimed fuel ctx c m enough) λ d. benchmark_lat_seq-Timings divided start read nt d m

-- The whole random latency test, over the same memory, with the same fuel, and a `loc` with a byte for
-- each operation: its warm-up does the same. From there the test returns, without a fault, its results in the
-- same way, each divided and truncated; its history is that of calls of the same kernels, each at a line
-- after the one before with the offset added that the byte of `loc` gives.
pub benchmark_lat_random-Warmed :
    {Double : Type 0} (divided : ℕ → Double) (truncated : Double → ℕ) (start fuel unset : ℕ)
    (read nt : Bool) (loc : List ℕ) (c : Cpu)
    → start % 64 ≡ 0
    → start + perthread_workset ≤ 2 ^ 64
    → 2 ^ 23 ≤ fuel
    → latency_ops_count ≤ length loc
    → (w : Cpu) × (warm_up fuel (benchmark_lat_random start read nt loc).ctx c ≡ done w)
      × Swept start perthread_workset 1 c w
      × Untimed c w
      × Ensures
          (Timings
            (λ t. truncated (divided t))
            (measured_op read nt)
            (scattered start loc latency_ops_count)
            latency_ops_count
            w)
          (random_lat
            (some unset)
            divided
            truncated
            fuel
            (benchmark_lat_random start read nt loc).ctx
            c)
unfolding random_lat benchmark_lat_random
benchmark_lat_random-Warmed divided truncated start fuel unset read nt loc c m fits enough long =
    let ctx = (benchmark_lat_random start read nt loc).ctx in
    let lines = scattered start loc latency_ops_count in
    after_warm_up
      (Timings (λ t. truncated (divided t)) (measured_op read nt) lines latency_ops_count)
      (warm_up fuel ctx c) (Swept start perthread_workset 1 c) (Untimed c)
      (random_lat_timed divided truncated ctx) (warm_up-Swept fuel ctx c m fits enough)
      (warm_up-Untimed fuel ctx c m enough)
      λ d. benchmark_lat_random-Timings divided truncated start read nt loc d m long
