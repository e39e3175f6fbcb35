-- ===== src/Driver/Perform.antt =====
-- The actions of a bandwidth job of microbenchmarks/run_thread.cc, carried out on the processor of the
-- model by the functions of microbenchmarks/memaccess.cc.
use database_benchmarking_op.Prelude.{ℕ, List, [], ◌∷◌, Option, none, some}
use database_benchmarking_op.Machine.{
  Cpu, Outcome, done, ◌>>=◌, fence, mfence, sfence, exec, Code, exec_code, u64, byte_of,
  store_bytes,
}
use database_benchmarking_op.Driver.Jobs.{
  BwFunc, Action, call, call_rand, step_seed, m_fence, s_fence, msync, fsync,
}
use database_benchmarking_op.Random.RandR.{rand_r_32}
use database_benchmarking_op.Memaccess.Stride
use database_benchmarking_op.Memaccess.Mapped
use database_benchmarking_op.Memaccess.Sizebw

-- The asm statements that the tables name, by their arguments; the other functions call the C library
-- or libpmem.
abbrev pub bw_code : BwFunc → ℕ → ℕ → ℕ → ℕ → ℕ → Option Code
bw_code BwFunc.stride_load a s k d n = some (Stride.stride_load a s k d n)
bw_code BwFunc.stride_nt a s k d n = some (Stride.stride_nt a s k d n)
bw_code BwFunc.stride_storeclwb a s k d n = some (Stride.stride_storeclwb a s k d n)
bw_code BwFunc.stride_ssd_mmap_load a s k d n = some (Mapped.stride_ssd_mmap_load a s k d n)
bw_code f a s k d n = none

abbrev pub rand_code : BwFunc → ℕ → ℕ → ℕ → ℕ → ℕ → Option Code
rand_code BwFunc.sizebw_load a s n seed m = some (Sizebw.sizebw_load a s n seed m)
rand_code BwFunc.sizebw_nt a s n seed m = some (Sizebw.sizebw_nt a s n seed m)
rand_code BwFunc.sizebw_storeclwb a s n seed m = some (Sizebw.sizebw_storeclwb a s n seed m)
rand_code f a s n seed m = none

-- `other` is what the operating system and the libraries do; `seed` is the address of the job's seed.
abbrev run_or : (Cpu → Outcome Cpu) → ℕ → Option Code → Cpu → Outcome Cpu
run_or other fuel none c = other c
run_or other fuel (some code) c = exec_code fuel code c

unfoldable pub perform :
    (other : Action → Cpu → Outcome Cpu) → (seed fuel : ℕ) → Action → Cpu → Outcome Cpu
perform other seed fuel (call f a s k d n) c =
    run_or (other (call f a s k d n)) fuel (bw_code f a s k d n) c
perform other seed fuel (call_rand f a s n m) c =
    run_or (other (call_rand f a s n m)) fuel (rand_code f a s n seed m) c
perform other seed fuel (step_seed value) c =
    done (record c { mem = store_bytes (u64 seed) 4 (byte_of (rand_r_32 value).seed) c.mem })
perform other seed fuel m_fence c = exec (fence mfence ∷ []) c
perform other seed fuel s_fence c = exec (fence sfence ∷ []) c
perform other seed fuel (msync a) c = other (msync a) c
perform other seed fuel (fsync fd) c = other (fsync fd) c

unfoldable pub perform_all :
    (other : Action → Cpu → Outcome Cpu) → (seed fuel : ℕ) → List Action → Cpu → Outcome Cpu
perform_all other seed fuel [] c = done c
perform_all other seed fuel (x ∷ xs) c =
    perform other seed fuel x c >>= perform_all other seed fuel xs
