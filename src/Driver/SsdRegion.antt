-- ===== src/Driver/SsdRegion.antt =====
-- mapPersistentSSDRegion of microbenchmarks/benchmark.cc, and random_ssd_lat of
-- microbenchmarks/run_thread.cc.
use database_benchmarking_op.Prelude.{
  ℕ, zero, suc, List, [], ◌∷◌, Bool, Option, none, some, if◌then◌else◌,
}
use database_benchmarking_op.Machine.{Cpu}
use database_benchmarking_op.Driver.Config.{WorkerCtx, latency_ops_count}

-- What the calls give: open a descriptor, or -1 (`none`); ftruncate of a descriptor to a size, whether it
-- succeeds; mmap of a size on a descriptor an address, or MAP_FAILED (`none`).
pub record FileCalls : Type 0 where
  pub open_file : Option ℕ
  pub ftruncate : ℕ → ℕ → Bool
  pub mmap : ℕ → ℕ → Option ℕ

-- The descriptor returned and the global PMEM_SSD_ADDR, or exit(1) after a message of perror.
pub data SsdRegion : Type 0 where
  opened : (fd : ℕ) → (pmem_ssd_addr : Option ℕ) → SsdRegion
  open_failed ftruncate_failed mmap_failed : SsdRegion

unfoldable pub map_persistent_ssd_region :
    FileCalls → (region_size : ℕ) → (mmaped : Bool) → (pmem_ssd_addr : Option ℕ) → SsdRegion
map_persistent_ssd_region calls size mmaped pmem_ssd_addr = elim calls.open_file [
  | none ↦ open_failed
  | some fd ↦
      if calls.ftruncate fd size
      then if mmaped
        then elim (calls.mmap fd size) [ none ↦ mmap_failed | some addr ↦ opened fd (some addr) ]
        else opened fd pmem_ssd_addr
      else ftruncate_failed
]

-- The loop of random_ssd_lat, its body commented out: every result stays 0.
unfoldable pub ssd_rounds_left : ℕ → List ℕ
ssd_rounds_left zero = []
ssd_rounds_left (suc n) = 0 ∷ ssd_rounds_left n

-- No access is made and nothing is timed: the state of the processor is not used. access_size, which
-- is read and never set, is not used either: the read is taken to give some value.
unfoldable pub random_ssd_lat : WorkerCtx → Cpu → List ℕ × Cpu
random_ssd_lat ctx c = (ssd_rounds_left latency_ops_count, c)
