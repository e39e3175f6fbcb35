-- ===== src/Driver/Start.antt =====
-- From the command line to the threads: what `main` does on every number of arguments.
use database_benchmarking_op.Prelude.{
  ℕ, ◌+◌, ◌-◌, ◌*◌, ◌/◌, ◌%◌, ◌^◌, ◌≤◌, ◌<◌, List, ◌∷◌, true, false, length, some, ◌≡◌, refl, arith,
  ltb, le→ltb, ◌==◌, Bool-cases, inl, inr,
}
use database_benchmarking_op.Bits.{and_above, and_mask}
use database_benchmarking_op.Driver.Config.{region_size, alignment}
use database_benchmarking_op.Driver.Launch.{Thread}
use database_benchmarking_op.Driver.Program.{
  System, Exit, finished, map_persistent_region, align_up, dram_region, Settings, settings, run_on,
  both_runs, main,
}
use database_benchmarking_op.Driver.Regions.{
  Placed, benchmark_bw_seq-Placed, benchmark_bw_random-Placed,
}

-- Rounding up to a page.
align_up_lem :
    (addr : ℕ)
    → addr + alignment ≤ 2 ^ 64
    → align_up addr ≡ (addr + alignment - 1) / alignment * alignment
unfolding align_up
align_up_lem addr h =
    let x = (addr + alignment - 1) % 2 ^ 64 in
    let pages : ℕ = 2 ^ 52 - 1 in
    omega (arith, and_above 12 x pages, and_mask 52 (x / 2 ^ 12) (omega arith))

-- The block that numa_alloc_onnode gives, if it ends within the address space, holds the whole DRAM region.
-- The region starts on a page, and less than a page after the start of the block: no page of the block
-- comes before it.
pub dram_region_bounds :
    (sys : System)
    → sys.numa_alloc_onnode (region_size + alignment) + (region_size + alignment) ≤ 2 ^ 64
    → (dram_region sys % alignment ≡ 0)
      × (sys.numa_alloc_onnode (region_size + alignment) ≤ dram_region sys)
      × (dram_region sys < sys.numa_alloc_onnode (region_size + alignment) + alignment)
      × (dram_region sys + region_size
          ≤ sys.numa_alloc_onnode (region_size + alignment) + (region_size + alignment))
unfolding dram_region
dram_region_bounds sys h =
    let addr = sys.numa_alloc_onnode (region_size + alignment) in omega (arith, align_up_lem addr)

abbrev bandwidth_settings : ℕ → ℕ → ℕ → ℕ → Settings
bandwidth_settings n read nt random = record {
  num_threads = n;
  bench = 0;
  toread = read == 1;
  ntstore = nt == 1;
  random = random == 1;
}

map_persistent_region_mapped :
    (sys : System) (size addr : ℕ) (next : ℕ → Exit)
    → sys.pmem_map_file size ≡ some (addr, true)
    → map_persistent_region sys size next ≡ next addr
unfolding map_persistent_region
map_persistent_region_mapped sys size addr next mapped = rw (mapped, map_persistent_region) refl

main_mapped :
    (sys : System) (name n read nt random pmem : ℕ) (more : List ℕ)
    → sys.pmem_map_file region_size ≡ some (pmem, true)
    → main sys (name ∷ n ∷ 0 ∷ read ∷ nt ∷ random ∷ more)
      ≡ both_runs
          (run_on (bandwidth_settings n read nt random) (dram_region sys) (sys.getrandom 0))
          (run_on (bandwidth_settings n read nt random) pmem (sys.getrandom 1))
unfolding main settings
main_mapped sys name n read nt random pmem more mapped =
    let argv = name ∷ n ∷ 0 ∷ read ∷ nt ∷ random ∷ more in
    let enough : ltb (length argv) 5 ≡ false = le→ltb (length argv) 5 (omega arith) in
    let s = bandwidth_settings n read nt random in
    let runs : ℕ → Exit = λ addr.
      both_runs (run_on s (dram_region sys) (sys.getrandom 0)) (run_on s addr (sys.getrandom 1)) in
    rw enough (map_persistent_region_mapped sys region_size pmem runs mapped)

run_on_bandwidth :
    (n read nt random addr : ℕ) (loc : List ℕ)
    → n ≤ 48
    → (ts : List Thread) × (run_on (bandwidth_settings n read nt random) addr loc ≡ some ts)
      × Placed addr n ts
unfolding run_on
run_on_bandwidth n read nt random addr loc few = elim (Bool-cases (random == 1)) [
  | inl yes_random ↦
      let (ts, e, p) = benchmark_bw_random-Placed n 256 addr (read == 1) (nt == 1) few in
      (ts, rw (yes_random, e) refl, p)
  | inr sequential ↦
      let (ts, e, p) = benchmark_bw_seq-Placed n 256 addr (read == 1) (nt == 1) few in
      (ts, rw (sequential, e) refl, p)
]

-- A command line of six strings or more that asks for bandwidth (its third string is 0) on up to 48
-- threads starts them twice, once over the DRAM region and once over the file that was mapped, if it
-- was mapped and lies in persistent memory. Each time there are as many threads as asked for, no two
-- share a byte, and all keep to the region exactly when they are 27 at most.
pub main-Placed :
    (sys : System) (name n read nt random pmem : ℕ) (more : List ℕ)
    → n ≤ 48
    → sys.pmem_map_file region_size ≡ some (pmem, true)
    → (ts : List Thread) × (us : List Thread) × (main sys (name ∷ n ∷ 0 ∷ read ∷ nt ∷ random ∷ more)
        ≡ finished ts us)
      × Placed (dram_region sys) n ts
      × Placed pmem n us
main-Placed sys name n read nt random pmem more few mapped =
    let (ts, e, p) = run_on_bandwidth n read nt random (dram_region sys) (sys.getrandom 0) few in
    let (us, f, q) = run_on_bandwidth n read nt random pmem (sys.getrandom 1) few in
    let both = main_mapped sys name n read nt random pmem more mapped in
    (ts, us, rw (both, e, f) refl, p, q)
