-- ===== src/Driver/Launch.antt =====
-- The benchmark_* functions of microbenchmarks/benchmark.cc: which worker threads they start, with
-- which arguments.
use database_benchmarking_op.Prelude.{
  ℕ, zero, suc, ◌+◌, ◌*◌, List, [], ◌∷◌, Bool, get_elem?, Option, none, some, if◌then◌else◌,
}
use database_benchmarking_op.Driver.Config.{WorkerCtx, perthread_workset, affinity}

-- The thread functions.
pub data Job : Type 0 where
  seq_lat random_lat random_ssd_lat strided_bwjob size_bwjob strided_ssd_bwjob : Job

pub record Thread : Type 0 where
  pub job : Job
  pub ctx : WorkerCtx

-- if (read_bench) 0 else if (nt) 1 else 2
abbrev pub select_op : Bool → Bool → ℕ
select_op read_bench nt = if read_bench then 0 else if nt then 1 else 2

abbrev pub first_core : ℕ
first_core = 0

unfoldable pub benchmark_lat_seq : ℕ → Bool → Bool → Thread
benchmark_lat_seq start read_bench nt = record {
  job = seq_lat;
  ctx = record {
    core_id = first_core;
    tid = 0;
    addr = start;
    loc = none;
    access_size = none;
    op = select_op read_bench nt;
    fd = none;
  };
}

-- `loc` is what getrandom wrote: LATENCY_OPS_COUNT * 8 bytes.
unfoldable pub benchmark_lat_random : ℕ → Bool → Bool → List ℕ → Thread
benchmark_lat_random start read_bench nt loc = record {
  job = random_lat;
  ctx = record {
    core_id = first_core;
    tid = 0;
    addr = start;
    loc = some loc;
    access_size = none;
    op = select_op read_bench nt;
    fd = none;
  };
}

unfoldable pub benchmark_lat_random_ssd : ℕ → Bool → Bool → List ℕ → Thread
benchmark_lat_random_ssd start read_bench mmap loc = record {
  job = random_ssd_lat;
  ctx = record {
    core_id = first_core;
    tid = 0;
    addr = start;
    loc = some loc;
    access_size = none;
    op = if read_bench then 0 else 2;
    fd = some (if mmap then 0 else 1);
  };
}

-- The loop over i that starts the threads, from `i` on with `left` to go. `none`: affinity[i] is read
-- past the end.
unfoldable pub start_threads : (ℕ → ℕ → Thread) → ℕ → ℕ → Option (List Thread)
start_threads make i zero = some []
start_threads make i (suc left) =
    let rest = start_threads make (i + 1) left in
    elim (get_elem? affinity i) [
      | none ↦ none
      | some core ↦ elim rest [ none ↦ none | some ts ↦ some (make core i ∷ ts) ]
    ]

abbrev pub bw_thread : Job → ℕ → ℕ → Bool → Bool → ℕ → ℕ → Thread
bw_thread job access_size start read_bench nt core i = record {
  job = job;
  ctx = record {
    core_id = core;
    tid = i;
    addr = start + i * perthread_workset;
    loc = none;
    access_size = some access_size;
    op = select_op read_bench nt;
    fd = none;
  };
}

-- `access_size` is the first of the sizes that are passed.
unfoldable pub benchmark_bw_seq : ℕ → ℕ → ℕ → Bool → Bool → Option (List Thread)
unfolding start_threads
benchmark_bw_seq num_threads access_size start read_bench nt =
    start_threads (bw_thread strided_bwjob access_size start read_bench nt) 0 num_threads

unfoldable pub benchmark_bw_random : ℕ → ℕ → ℕ → Bool → Bool → Option (List Thread)
unfolding start_threads
benchmark_bw_random num_threads access_size start read_bench nt =
    start_threads (bw_thread size_bwjob access_size start read_bench nt) 0 num_threads

abbrev pub ssd_thread : ℕ → ℕ → Bool → Bool → ℕ → ℕ → ℕ → Thread
ssd_thread access_size start read_bench mmap fd core i = record {
  job = strided_ssd_bwjob;
  ctx = record {
    core_id = core;
    tid = i;
    addr = if mmap then start + i * perthread_workset else 0;
    loc = none;
    access_size = some access_size;
    op = if read_bench then 0 else 2;
    fd = some (if mmap then 0 else fd);
  };
}

unfoldable pub benchmark_bw_ssd : ℕ → ℕ → ℕ → Bool → Bool → ℕ → Option (List Thread)
unfolding start_threads
benchmark_bw_ssd num_threads access_size start read_bench mmap fd =
    start_threads (ssd_thread access_size start read_bench mmap fd) 0 num_threads
