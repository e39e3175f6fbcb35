-- ===== src/Driver/Program.antt =====
-- `main` of microbenchmarks/benchmark.cc, and the mappings that it makes.
use database_benchmarking_op.Prelude.{
  ℕ, ◌+◌, ◌-◌, ◌%◌, ◌^◌, bit_and, List, [], ◌∷◌, Bool, length, Option, none, some, ltb, ◌==◌,
  if◌then◌else◌,
}
use database_benchmarking_op.Driver.Config.{region_size, alignment}
use database_benchmarking_op.Driver.Launch.{
  Thread, benchmark_lat_seq, benchmark_lat_random, benchmark_bw_seq, benchmark_bw_random,
}

-- What the program asks of the system, which answers as it likes: `pmem_map_file` maps a file of the
-- given size or fails, and tells whether it lies in persistent memory; `numa_alloc_onnode` gives the
-- start of a block of the given size; `getrandom` fills the bytes of the two random latency tests.
pub record System : Type 0 where
  pub pmem_map_file : ℕ → Option (ℕ × Bool)
  pub numa_alloc_onnode : ℕ → ℕ
  pub getrandom : ℕ → List ℕ

-- How the program ends: with its threads started and joined, by exit(1) after a message, by a failed
-- assertion, or in what C leaves undefined.
pub data Exit : Type 0 where
  finished : (dram pmem : List Thread) → Exit
  usage map_failed not_pmem undefined : Exit

-- mapPersistentRegion: the address goes to the global PMEM_ADDR.
unfoldable pub map_persistent_region : System → ℕ → (ℕ → Exit) → Exit
map_persistent_region sys size next = elim (sys.pmem_map_file size) [
  | none ↦ map_failed
  | some (addr, is_pmem) ↦ if is_pmem then next addr else not_pmem
]

-- (addr + ALIGNMENT-1) & ~(ALIGNMENT-1), on 64 bits
unfoldable pub align_up : ℕ → ℕ
align_up addr = bit_and ((addr + alignment - 1) % 2 ^ 64) (2 ^ 64 - alignment)

-- numa_alloc_onnode is asked for a page more than the region, so that it can start on a page.
unfoldable pub dram_region : System → ℕ
unfolding align_up
dram_region sys = align_up (sys.numa_alloc_onnode (region_size + alignment))

-- What the five numbers of the command line select. `access_sizes[0]` is 256.
pub record Settings : Type 0 where
  pub num_threads : ℕ
  pub bench : ℕ
  pub toread : Bool
  pub ntstore : Bool
  pub random : Bool

-- The threads of one run, on DRAM or on persistent memory; `loc` is what getrandom gives it.
unfoldable pub run_on : Settings → ℕ → List ℕ → Option (List Thread)
run_on s addr loc =
    if s.random
    then if s.bench == 0
      then benchmark_bw_random s.num_threads 256 addr s.toread s.ntstore
      else some (benchmark_lat_random addr s.toread s.ntstore loc ∷ [])
    else if s.bench == 0
    then benchmark_bw_seq s.num_threads 256 addr s.toread s.ntstore
    else some (benchmark_lat_seq addr s.toread s.ntstore ∷ [])

abbrev pub both_runs : Option (List Thread) → Option (List Thread) → Exit
both_runs none _ = undefined
both_runs (some ts) none = undefined
both_runs (some ts) (some us) = finished ts us

-- `argv` holds what atoi makes of the arguments, the program's name in front. The test is for five
-- strings, and the sixth is read.
unfoldable pub settings : List ℕ → Option Settings
settings (_ ∷ threads ∷ bench ∷ read ∷ nt ∷ random ∷ _) = some (record {
  num_threads = threads;
  bench = bench;
  toread = read == 1;
  ntstore = nt == 1;
  random = random == 1;
})
settings _ = none

unfoldable pub main : System → List ℕ → Exit
unfolding dram_region run_on settings map_persistent_region
main sys argv = if ltb (length argv) 5 then usage else elim (settings argv) [
  | none ↦ undefined
  | some s ↦ map_persistent_region sys region_size λ pmem_addr.
      both_runs (run_on s (dram_region sys) (sys.getrandom 0))
        (run_on s pmem_addr (sys.getrandom 1))
]
