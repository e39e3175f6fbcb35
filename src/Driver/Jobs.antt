-- ===== src/Driver/Jobs.antt =====
-- The bandwidth jobs of microbenchmarks/run_thread.cc, as the calls, fences and syncs that they make.
use database_benchmarking_op.Prelude.{
  ℕ, zero, suc, ◌+◌, ◌*◌, ◌/◌, List, [], ◌∷◌, ◌++◌, Bool, true, get_elem?, Option, none, some, ◌==◌,
  if◌then◌else◌,
}
use database_benchmarking_op.Random.Lfsr.{bitmask}
use database_benchmarking_op.Driver.Config.{WorkerCtx, perthread_workset}

-- The functions of microbenchmarks/memaccess.cc that the tables name.
pub data BwFunc : Type 0 where
  stride_load stride_nt stride_storeclwb : BwFunc
  stride_ssd_load stride_ssd_mmap_load stride_ssd_store stride_ssd_mmap_store_no_drain : BwFunc
  sizebw_load sizebw_nt sizebw_storeclwb : BwFunc

abbrev pub funcs : List BwFunc
funcs =
    stride_load ∷ stride_nt ∷ stride_storeclwb ∷ stride_ssd_load ∷ stride_ssd_mmap_load
    ∷ stride_ssd_store ∷ stride_ssd_mmap_store_no_drain ∷ []

abbrev pub funcs_rand : List BwFunc
funcs_rand = sizebw_load ∷ sizebw_nt ∷ sizebw_storeclwb ∷ []

-- What a job does, in order. `call` has the five arguments of a bw_func; `call_rand` those of a
-- bw_func_rand but the seed, which is the job's own; `step_seed` is rand_r_32 on the seed, with the value
-- that it finds there.
pub data Action : Type 0 where
  call : BwFunc → (start_addr size skip delay count : ℕ) → Action
  call_rand : BwFunc → (start_addr size count access_mask : ℕ) → Action
  step_seed : ℕ → Action
  m_fence s_fence : Action
  msync fsync : ℕ → Action

-- How a job ends: it returns, it calls exit(1), or it does what C leaves undefined (a read of an
-- indeterminate field, past the end of a table, or a division by zero).
pub data Ending : Type 0 where
  returned exited undefined : Ending

pub record JobRun : Type 0 where
  pub actions : List Action
  pub ending : Ending

abbrev pub undefined_run : JobRun
undefined_run = record { actions = []; ending = undefined }

-- `n` rounds of a loop body that always completes.
abbrev pub times : ℕ → List Action → List Action
times zero body = []
times (suc n) body = body ++ times n body

-- if (op==0) MFENCE(); else SFENCE();
abbrev pub fence_for : ℕ → Action
fence_for op = if op == 0 then m_fence else s_fence

abbrev strided_actions : WorkerCtx → ℕ → BwFunc → List Action
strided_actions ctx access_size f =
    let stride_size = access_size in
    let count = perthread_workset / access_size in
    let once = call f ctx.addr access_size stride_size 0 count in
    once ∷ m_fence ∷ times 10 (times 10 (once ∷ fence_for ctx.op ∷ []))

abbrev with_size : Option ℕ → (ℕ → JobRun) → JobRun
with_size none k = undefined_run
with_size (some size) k = if size == 0 then undefined_run else k size

abbrev with_func : Option BwFunc → (BwFunc → JobRun) → JobRun
with_func none k = undefined_run
with_func (some f) k = k f

unfoldable pub strided_bwjob : WorkerCtx → JobRun
strided_bwjob ctx = with_size ctx.access_size λ access_size.
    with_func (get_elem? funcs ctx.op)
      λ f. record { actions = strided_actions ctx access_size f; ending = returned }

abbrev size_actions : WorkerCtx → ℕ → BwFunc → BwFunc → List Action
size_actions ctx access_size f g =
    let stride_size = access_size in
    let count = perthread_workset / access_size in
    let once = call_rand g ctx.addr access_size count bitmask in
    call f ctx.addr access_size stride_size 0 count
    ∷ m_fence
    ∷ times 10 (times 10 (once ∷ fence_for ctx.op ∷ []))

abbrev with_value : Option ℕ → (ℕ → JobRun) → JobRun
with_value none k = undefined_run
with_value (some v) k = k v

-- The seed is never set before rand_r_32(&seed) reads it. `unset` is what that read gives: some value,
-- or `none` if it is taken to be undefined, as C++ has it.
unfoldable pub size_bwjob : (unset : Option ℕ) → WorkerCtx → JobRun
size_bwjob unset ctx = with_size ctx.access_size λ access_size. with_value unset λ seed.
    with_func (get_elem? funcs ctx.op) λ f.
      with_func (get_elem? funcs_rand ctx.op) λ g. record {
        actions = step_seed seed ∷ size_actions ctx access_size f g;
        ending = returned;
      }

abbrev pub then_actions : List Action → JobRun → JobRun
then_actions first r = record { actions = first ++ r.actions; ending = r.ending }

-- What the system answers: whether the pread or pwrite of call number `i` gives something else than
-- -1, the warm-up's being number 0, and whether the sync of round number `i` does.
pub record Answers : Type 0 where
  pub transferred : ℕ → Bool
  pub synced : ℕ → Bool

-- stride_ssd_load and stride_ssd_store call exit(1) if pread or pwrite gives -1; the functions of a
-- mapped device always return.
abbrev pub call_returns : Answers → BwFunc → ℕ → Bool
call_returns answers stride_ssd_load i = answers.transferred i
call_returns answers stride_ssd_store i = answers.transferred i
call_returns answers f i = true

abbrev exited_after : List Action → JobRun
exited_after actions = record { actions = actions; ending = exited }

-- The hundred timed rounds of strided_ssd_bwjob, `left` of them from number `i` on: the first call or sync
-- that fails ends the program.
unfoldable pub ssd_rounds : Answers → BwFunc → Action → Action → ℕ → ℕ → JobRun
ssd_rounds answers f once sync i zero = record { actions = []; ending = returned }
ssd_rounds answers f once sync i (suc left) =
    let rest = ssd_rounds answers f once sync (i + 1) left in
    if call_returns answers f (i + 1)
    then if answers.synced i
      then then_actions (once ∷ sync ∷ []) rest
      else exited_after (once ∷ sync ∷ [])
    else exited_after (once ∷ [])

unfoldable pub strided_ssd_bwjob : Answers → WorkerCtx → JobRun
strided_ssd_bwjob answers ctx = with_size ctx.access_size λ access_size. with_value ctx.fd λ fd.
    let mmap = if fd == 0 then 1 else 0 in
    with_func (get_elem? funcs (ctx.op + mmap + 3)) λ f.
      let offset = ctx.tid * perthread_workset in
      let count = perthread_workset / access_size in
      let once = call f ctx.addr access_size offset fd count in
      let sync = if mmap == 1 then msync ctx.addr else fsync fd in
      if call_returns answers f 0
      then then_actions (once ∷ []) (ssd_rounds answers f once sync 0 100)
      else exited_after (once ∷ [])
