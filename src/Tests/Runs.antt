-- ===== src/Tests/Runs.antt =====
-- Examples of main, of the jobs and of the threads in microbenchmarks/benchmark.cc and
-- microbenchmarks/run_thread.cc.
use database_benchmarking_op.Prelude.{
  ℕ, ◌+◌, ◌*◌, ◌/◌, ◌%◌, ◌^◌, ◌≤◌, ◌<◌, List, [], ◌∷◌, ◌++◌, true, false, get_elem?, none, some,
  ◌≡◌, ◌⊎◌, inl, refl, arith, ltb, lt→ltb,
}
use native.Mathlib.Nat.{zero-add}
use database_benchmarking_op.Machine.{Event, Cpu, done}
use database_benchmarking_op.Exec.Ensures.{Ensures}
use database_benchmarking_op.Latency.Spec.{store_clwb, load_fence}
use database_benchmarking_op.Latency.Coverage.{touches}
use database_benchmarking_op.Exec.Bytes.{AllBytes}
use database_benchmarking_op.Driver.Jobs.{Action, strided_bwjob, size_bwjob}
use database_benchmarking_op.Driver.Perform.{perform_all}
use database_benchmarking_op.Driver.Sweeps.{Swept, benchmark_bw_seq-Swept}
use database_benchmarking_op.Driver.Volumes.{MovedLines, benchmark_bw_random-Moved}
use database_benchmarking_op.Driver.WarmUp.{
  warm_up, Untimed, seq_lat, random_lat, benchmark_lat_seq-Warmed, benchmark_lat_random-Warmed,
}
use database_benchmarking_op.Driver.Config.{
  region_size, alignment, perthread_workset, latency_ops_count,
}
use database_benchmarking_op.Driver.Jobs
use database_benchmarking_op.Driver.Jobs.{
  Answers, call_rand, s_fence, m_fence, returned, exited, sizebw_nt, stride_nt, stride_load,
}
use database_benchmarking_op.Driver.Launch.{
  Thread, benchmark_lat_seq, benchmark_lat_random, benchmark_bw_seq, benchmark_bw_random,
  benchmark_bw_ssd,
}
use database_benchmarking_op.Driver.Launch
use database_benchmarking_op.Driver.Launch.{bw_thread, start_threads}
use database_benchmarking_op.Driver.Interleaved.{
  Merged, no_threads, one_more, Interleaved-append, accesses_of,
}
use database_benchmarking_op.Driver.Persisted.{Persisted, benchmark_bw_seq-Persisted}
use database_benchmarking_op.Driver.Races.{thread_history, benchmark_bw_seq-Merged}
use database_benchmarking_op.Driver.Program.{finished, dram_region, main}
use database_benchmarking_op.Driver.Regions.{Placed, bandwidth_undefined}
use database_benchmarking_op.Driver.Start.{dram_region_bounds, main-Placed}
use database_benchmarking_op.Driver.Rounds.{
  Rounds, Seeded, benchmark_bw_seq-Rounds, benchmark_bw_random-Rounds,
}
use database_benchmarking_op.Driver.Synced.{
  SyncedRounds, CutShort, SsdJob, ssd_call, ssd_sync, benchmark_bw_ssd_synced,
  benchmark_bw_ssd_failed, benchmark_bw_ssd_gone,
}
use database_benchmarking_op.Driver.LatencyJobs.{random_offset}
use database_benchmarking_op.Driver.LatencyRuns.{
  Timings, line_by_line, scattered, random_offset_few,
}
use database_benchmarking_op.Tests.Inputs.{
  cpu, system, ignoring, cpu-AllBytes, some_bytes, length-some_bytes,
}

random_offset_few_example :
    (random_offset 200 ≡ 0)
    ⊎ (random_offset 200 ≡ 64)
    ⊎ (random_offset 200 ≡ 0x3FFFFF80)
    ⊎ (random_offset 200 ≡ 0x3FFFFFC0)
random_offset_few_example = random_offset_few 200 (omega arith)

main-Placed_example :
    (ts : List Thread) × (us : List Thread) × (main system (0 ∷ 4 ∷ 0 ∷ 0 ∷ 1 ∷ 1 ∷ [])
      ≡ finished ts us)
    × Placed (dram_region system) 4 ts
    × Placed 17592186044416 4 us
main-Placed_example = main-Placed system 0 4 0 1 1 17592186044416 [] (omega arith) refl

dram_region_bounds_example :
    (dram_region system % alignment ≡ 0)
    × (1000001 ≤ dram_region system)
    × (dram_region system < 1000001 + alignment)
    × (dram_region system + region_size ≤ 1000001 + (region_size + alignment))
dram_region_bounds_example = dram_region_bounds system (omega arith)

bandwidth_undefined_example :
    (benchmark_bw_seq 49 256 4096 true true ≡ none)
    × (benchmark_bw_random 49 256 4096 true true ≡ none)
    × (benchmark_bw_ssd 49 256 4096 true true 3 ≡ none)
bandwidth_undefined_example = bandwidth_undefined 49 256 4096 3 true true (omega arith)

benchmark_bw_seq-Rounds_example :
    (ts : List Thread) × (t : Thread) × (benchmark_bw_seq 2 256 4096 true false ≡ some ts)
    × (get_elem? ts 1 ≡ some t)
    × Rounds
        (Jobs.call stride_load 2147487744 256 256 0 8388608)
        (Jobs.call stride_load 2147487744 256 256 0 8388608)
        m_fence
        100
        (Jobs.strided_bwjob t.ctx)
benchmark_bw_seq-Rounds_example =
    benchmark_bw_seq-Rounds 2 256 4096 1 true false (omega arith) (omega arith) (omega arith)

benchmark_bw_random-Rounds_example :
    (ts : List Thread) × (t : Thread) × (benchmark_bw_random 2 256 4096 false true ≡ some ts)
    × (get_elem? ts 1 ≡ some t)
    × Seeded 77
        (Jobs.call stride_nt 2147487744 256 256 0 8388608)
        (call_rand sizebw_nt 2147487744 256 8388608 2147483584)
        s_fence
        100
        (Jobs.size_bwjob (some 77) t.ctx)
    × ((Jobs.size_bwjob none t.ctx).ending ≡ Jobs.undefined)
benchmark_bw_random-Rounds_example =
    benchmark_bw_random-Rounds 2 256 4096 1 77 false true (omega arith) (omega arith) (omega arith)

-- Every transfer succeeds, and so does every sync; or only the first few of the one or of the other.
abbrev all_good : Answers
all_good = record { transferred = λ k. true; synced = λ k. true }

abbrev three_syncs : Answers
three_syncs = record { transferred = λ k. true; synced = λ k. ltb k 3 }

abbrev five_transfers : Answers
five_transfers = record { transferred = λ k. ltb k 5; synced = λ k. true }

benchmark_bw_ssd_synced_example : SsdJob 2 256 4096 7 1 false true all_good (
    SyncedRounds (ssd_call 256 4096 7 false true 1) (ssd_sync 256 4096 7 false true 1) 100 returned)
benchmark_bw_ssd_synced_example =
    benchmark_bw_ssd_synced 2 256 4096 7 1 false true all_good (omega arith) (omega arith)
      (omega arith) (omega arith) (λ k lt. refl) (λ k lt. refl)

benchmark_bw_ssd_failed_example :
    SsdJob 2 256 4096 7 0 true false three_syncs
      (SyncedRounds (ssd_call 256 4096 7 true false 0) (ssd_sync 256 4096 7 true false 0) 4 exited)
benchmark_bw_ssd_failed_example =
    benchmark_bw_ssd_failed 2 256 4096 7 0 true false three_syncs (omega arith) (omega arith)
      (omega arith) (omega arith) 3 (omega arith) (λ k lt. refl)
      (λ k lt. rw (zero-add k) (lt→ltb k 3 lt)) refl

benchmark_bw_ssd_gone_example :
    SsdJob 2 256 4096 7 1 false false five_transfers
      (CutShort (ssd_call 256 4096 7 false false 1) (ssd_sync 256 4096 7 false false 1) 4)
benchmark_bw_ssd_gone_example =
    benchmark_bw_ssd_gone 2 256 4096 7 1 false false five_transfers (omega arith) (omega arith)
      (omega arith) (omega arith) 4 (omega arith) (λ k lt. rw (zero-add k) (lt→ltb k 5 lt))
      (λ k lt. refl) refl

benchmark_bw_seq-Swept_example :
    (ts : List Thread) × (t : Thread) × (benchmark_bw_seq 2 256 4096 false true ≡ some ts)
    × (get_elem? ts 1 ≡ some t)
    × Ensures
        (Swept (4096 + 1 * perthread_workset) perthread_workset 101 cpu)
        (perform_all ignoring 64 perthread_workset (Jobs.strided_bwjob t.ctx).actions cpu)
benchmark_bw_seq-Swept_example =
    benchmark_bw_seq-Swept 2 256 4096 1 0 perthread_workset 64 false true ignoring cpu (omega arith)
      (omega arith) refl refl refl (omega arith) (omega arith)

benchmark_bw_random-Moved_example :
    (ts : List Thread) × (t : Thread) × (benchmark_bw_random 2 256 4096 true false ≡ some ts)
    × (get_elem? ts 1 ≡ some t)
    × Ensures
        (λ d. AllBytes d × MovedLines (201 * (perthread_workset / 64)) cpu d)
        (perform_all ignoring 64 (2 ^ 23) (Jobs.size_bwjob (some 77) t.ctx).actions cpu)
benchmark_bw_random-Moved_example =
    benchmark_bw_random-Moved 2 4096 1 (2 ^ 23) 64 77 true false ignoring cpu (omega arith)
      (omega arith) refl (omega arith) (omega arith) (inl (omega arith)) cpu-AllBytes

-- Ticks in tenths of a nanosecond, in place of the floating-point division.
abbrev tenths : ℕ → ℕ
tenths ticks = ticks * 100 / 38

benchmark_lat_seq-Warmed_example :
    (w : Cpu) × (warm_up (2 ^ 23) (benchmark_lat_seq 4096 false true).ctx cpu ≡ done w)
    × Swept 4096 perthread_workset 1 cpu w
    × Untimed cpu w
    × Ensures
        (Timings tenths store_clwb (line_by_line 4096 latency_ops_count) latency_ops_count w)
        (seq_lat (some 9) tenths (2 ^ 23) (benchmark_lat_seq 4096 false true).ctx cpu)
benchmark_lat_seq-Warmed_example =
    benchmark_lat_seq-Warmed tenths 4096 (2 ^ 23) 9 false true cpu refl (omega arith) (omega arith)

abbrev some_loc : List ℕ
some_loc = some_bytes latency_ops_count

benchmark_lat_random-Warmed_example :
    (w : Cpu) × (warm_up (2 ^ 23) (benchmark_lat_random 4096 true false some_loc).ctx cpu ≡ done w)
    × Swept 4096 perthread_workset 1 cpu w
    × Untimed cpu w
    × Ensures
        (Timings
          (λ t. tenths t / 10)
          load_fence
          (scattered 4096 some_loc latency_ops_count)
          latency_ops_count
          w)
        (random_lat
          (some 9)
          tenths
          (λ d. d / 10)
          (2 ^ 23)
          (benchmark_lat_random 4096 true false some_loc).ctx
          cpu)
benchmark_lat_random-Warmed_example =
    benchmark_lat_random-Warmed tenths (λ d. d / 10) 4096 (2 ^ 23) 9 true false some_loc cpu refl
      (omega arith) (omega arith) (length-some_bytes latency_ops_count)

-- The two threads of a run, and their histories one after the other.
abbrev two_threads : List Thread
two_threads =
    bw_thread Launch.strided_bwjob 256 4096 false true 0 0
    ∷ bw_thread Launch.strided_bwjob 256 4096 false true 2 1
    ∷ []

two_threads_started : benchmark_bw_seq 2 256 4096 false true ≡ some two_threads
unfolding benchmark_bw_seq start_threads
two_threads_started = refl

abbrev two_histories : ℕ → List Event
two_histories = thread_history ignoring 0 (2 ^ 31) (λ i. cpu) two_threads

two_histories-Merged : Merged two_histories 2 (two_histories 0 ++ two_histories 1)
two_histories-Merged =
    one_more 1 (two_histories 0) (two_histories 0 ++ two_histories 1)
      (one_more 0 [] (two_histories 0) no_threads (Interleaved-append [] (two_histories 0)))
      (Interleaved-append (two_histories 0) (two_histories 1))

benchmark_bw_seq-Merged_example :
    (accesses_of 5000 (two_histories 0 ++ two_histories 1) ≡ accesses_of 5000 (two_histories 0))
    × (touches (two_histories 0 ++ two_histories 1) 5000 ≡ 101)
benchmark_bw_seq-Merged_example =
    benchmark_bw_seq-Merged 2 256 4096 0 (2 ^ 31) 0 false true ignoring (λ i. cpu) two_threads
      (omega arith) refl refl refl (omega arith) (omega arith) two_threads_started (λ i. refl)
      (two_histories 0 ++ two_histories 1) 0 5000 two_histories-Merged (omega arith) refl

benchmark_bw_seq-Persisted_example :
    (ts : List Thread) × (t : Thread) × (benchmark_bw_seq 2 256 4096 false false ≡ some ts)
    × (get_elem? ts 0 ≡ some t)
    × Ensures
        (Persisted 100)
        (perform_all ignoring 0 (2 ^ 31) (Jobs.strided_bwjob t.ctx).actions cpu)
benchmark_bw_seq-Persisted_example =
    benchmark_bw_seq-Persisted 2 256 4096 0 0 (2 ^ 31) 0 100 ignoring cpu (omega arith)
      (omega arith) refl refl refl (omega arith) (omega arith) (omega arith) (omega arith)
