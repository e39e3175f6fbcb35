-- ===== src/Driver/Rounds.antt =====
-- What a bandwidth thread does, call by call: the warm-up and the hundred rounds of the job that the
-- driver starts for it.
use database_benchmarking_op.Prelude.{
  ℕ, zero, suc, ◌+◌, ◌*◌, ◌/◌, ◌≤◌, ◌<◌, List, [], ◌∷◌, Bool, true, false, length, get_elem?, none,
  some, ◌≡◌, refl, arith, if◌then◌else◌, ne→==,
}
use database_benchmarking_op.Driver.Jobs
use database_benchmarking_op.Driver.Launch
use database_benchmarking_op.Random.Lfsr.{bitmask}
use database_benchmarking_op.Driver.Config.{perthread_workset}
use database_benchmarking_op.Driver.Jobs.{
  BwFunc, stride_load, stride_nt, stride_storeclwb, stride_ssd_load, stride_ssd_mmap_load,
  stride_ssd_store, stride_ssd_mmap_store_no_drain, sizebw_load, sizebw_nt, sizebw_storeclwb,
  Action, call, call_rand, step_seed, then_actions, m_fence, s_fence, msync, fsync, Ending,
  returned, exited, undefined, JobRun, times, strided_bwjob, size_bwjob, ssd_rounds,
  strided_ssd_bwjob,
}
use database_benchmarking_op.Driver.Launch.{
  Thread, Job, bw_thread, ssd_thread, benchmark_bw_seq, benchmark_bw_random, benchmark_bw_ssd,
}
use database_benchmarking_op.Driver.Regions.{start_threads-Started}

-- A run of a warm-up, then of `n` rounds, each a call and a fence: all its actions by number.
pub record Rounds (warm once closing : Action) (n : ℕ) (r : JobRun) : Type 0 where
  pub returns : r.ending ≡ returned
  pub all : length r.actions ≡ 2 + n * 2
  pub first : get_elem? r.actions 0 ≡ some warm
  pub fenced : get_elem? r.actions 1 ≡ some m_fence
  pub calls : (i : ℕ) → i < n → get_elem? r.actions (2 + i * 2) ≡ some once
  pub fences : (i : ℕ) → i < n → get_elem? r.actions (3 + i * 2) ≡ some closing

-- A run that first steps the seed, from the value told.
abbrev pub Seeded : ℕ → (warm once closing : Action) → ℕ → JobRun → Type 0
Seeded value warm once closing n r =
    (rest : JobRun) × (r ≡ then_actions (step_seed value ∷ []) rest)
    × Rounds warm once closing n rest

pub times_calls :
    (once closing : Action) (n i : ℕ)
    → i < n
    → get_elem? (times n (once ∷ closing ∷ [])) (i * 2) ≡ some once
times_calls once closing zero i lt = absurd (omega arith)
times_calls once closing (suc n) zero lt = refl
times_calls once closing (suc n) (suc i) lt =
    let next : suc i * 2 ≡ suc (suc (i * 2)) = omega arith in
    rw next (times_calls once closing n i (omega arith))

pub times_fences :
    (once closing : Action) (n i : ℕ)
    → i < n
    → get_elem? (times n (once ∷ closing ∷ [])) (suc (i * 2)) ≡ some closing
times_fences once closing zero i lt = absurd (omega arith)
times_fences once closing (suc n) zero lt = refl
times_fences once closing (suc n) (suc i) lt =
    let next : suc i * 2 ≡ suc (suc (i * 2)) = omega arith in
    rw next (times_fences once closing n i (omega arith))

pub length-times : (once closing : Action) (n : ℕ) → length (times n (once ∷ closing ∷ [])) ≡ n * 2
length-times once closing zero = refl
length-times once closing (suc n) = omega (arith, length-times once closing n)

hundred-Rounds :
    (warm once closing : Action)
    → Rounds warm once closing 100 (record {
      actions = warm ∷ m_fence ∷ times 10 (times 10 (once ∷ closing ∷ []));
      ending = returned;
    })
hundred-Rounds warm once closing = record {
  returns = refl;
  all = refl;
  first = refl;
  fenced = refl;
  calls = λ i lt.
      let past : 2 + i * 2 ≡ suc (suc (i * 2)) = omega arith in
      rw past (times_calls once closing 100 i lt);
  fences = λ i lt.
      let past : 3 + i * 2 ≡ suc (suc (suc (i * 2))) = omega arith in
      rw past (times_fences once closing 100 i lt);
}

-- The kernels that a run asks for.
abbrev pub wanted : Bool → Bool → BwFunc
wanted read nt = if read then stride_load else if nt then stride_nt else stride_storeclwb

abbrev pub wanted_rand : Bool → Bool → BwFunc
wanted_rand read nt = if read then sizebw_load else if nt then sizebw_nt else sizebw_storeclwb

abbrev pub closing_fence : Bool → Action
closing_fence read = if read then m_fence else s_fence

seq_run :
    (n size start core j : ℕ) (read nt : Bool)
    → 0 < size
    → let once =
        call
          (wanted read nt)
          (start + j * perthread_workset)
          size
          size
          0
          (perthread_workset / size) in
      Rounds once once
        (closing_fence read)
        100
        (Jobs.strided_bwjob (bw_thread Launch.strided_bwjob size start read nt core j).ctx)
unfolding Jobs.strided_bwjob
seq_run n size start core j true nt pos =
    rw (ne→== size 0 (omega arith)) (hundred-Rounds _ _ m_fence)
seq_run n size start core j false true pos =
    rw (ne→== size 0 (omega arith)) (hundred-Rounds _ _ s_fence)
seq_run n size start core j false false pos =
    rw (ne→== size 0 (omega arith)) (hundred-Rounds _ _ s_fence)

-- Thread `j` of a sequential bandwidth run on up to 48 threads, with a size above 0: it is there, and its job
-- returns after a warm-up call, a fence, and a hundred rounds. Every call is of the kernel for what is
-- asked (a load, a non-temporal store, or a store that is written back), over region `j` of the memory
-- given; a load is followed by a full fence, a store by a store fence.
pub benchmark_bw_seq-Rounds :
    (n size start j : ℕ) (read nt : Bool)
    → n ≤ 48
    → j < n
    → 0 < size
    → (ts : List Thread) × (t : Thread) × (benchmark_bw_seq n size start read nt ≡ some ts)
      × (get_elem? ts j ≡ some t)
      × Rounds
          (call
            (wanted read nt)
            (start + j * perthread_workset)
            size
            size
            0
            (perthread_workset / size))
          (call
            (wanted read nt)
            (start + j * perthread_workset)
            size
            size
            0
            (perthread_workset / size))
          (closing_fence read)
          100
          (Jobs.strided_bwjob t.ctx)
unfolding benchmark_bw_seq
benchmark_bw_seq-Rounds n size start j read nt few lt pos =
    let make = bw_thread Launch.strided_bwjob size start read nt in
    let (ts, e, s) = start_threads-Started make 0 n (omega arith) in
    let (core, _, f) = s.each j lt in
    let at_j : 0 + j ≡ j = omega arith in
    (ts, make core j, e, rw at_j at f, seq_run n size start core j read nt pos)

random_run :
    (n size start core j unset : ℕ) (read nt : Bool)
    → 0 < size
    → let own = start + j * perthread_workset in
      Seeded unset
        (call (wanted read nt) own size size 0 (perthread_workset / size))
        (call_rand (wanted_rand read nt) own size (perthread_workset / size) bitmask)
        (closing_fence read)
        100
        (Jobs.size_bwjob (some unset) (bw_thread Launch.size_bwjob size start read nt core j).ctx)
unfolding Jobs.size_bwjob
random_run n size start core j unset true nt pos =
    rw (ne→== size 0 (omega arith)) (_, refl, hundred-Rounds _ _ m_fence)
random_run n size start core j unset false true pos =
    rw (ne→== size 0 (omega arith)) (_, refl, hundred-Rounds _ _ s_fence)
random_run n size start core j unset false false pos =
    rw (ne→== size 0 (omega arith)) (_, refl, hundred-Rounds _ _ s_fence)

random_run_undefined :
    (size start core j : ℕ) (read nt : Bool)
    → 0 < size
    → (Jobs.size_bwjob none (bw_thread Launch.size_bwjob size start read nt core j).ctx).ending
      ≡ undefined
unfolding Jobs.size_bwjob
random_run_undefined size start core j read nt pos = rw (ne→== size 0 (omega arith)) refl

-- Thread `j` of a random bandwidth run on up to 48 threads, with a size above 0: it is there. Its job, where
-- reading the unset seed gives a value, steps the seed from this value, and returns after a sequential
-- warm-up call, a fence, and a hundred rounds of calls at random offsets. Every call is of the kernel for what
-- is asked, on region `j` of the memory given, with the job's mask; a load is followed by a full fence, a
-- store by a store fence. Where reading the unset seed is undefined, so is the job.
pub benchmark_bw_random-Rounds :
    (n size start j unset : ℕ) (read nt : Bool)
    → n ≤ 48
    → j < n
    → 0 < size
    → (ts : List Thread) × (t : Thread) × (benchmark_bw_random n size start read nt ≡ some ts)
      × (get_elem? ts j ≡ some t)
      × Seeded unset
          (call
            (wanted read nt)
            (start + j * perthread_workset)
            size
            size
            0
            (perthread_workset / size))
          (call_rand
            (wanted_rand read nt)
            (start + j * perthread_workset)
            size
            (perthread_workset / size)
            bitmask)
          (closing_fence read)
          100
          (Jobs.size_bwjob (some unset) t.ctx)
      × ((Jobs.size_bwjob none t.ctx).ending ≡ undefined)
unfolding benchmark_bw_random
benchmark_bw_random-Rounds n size start j unset read nt few lt pos =
    let make = bw_thread Launch.size_bwjob size start read nt in
    let (ts, e, s) = start_threads-Started make 0 n (omega arith) in
    let (core, _, f) = s.each j lt in
    let at_j : 0 + j ≡ j = omega arith in
    (
      ts,
      make core j,
      e,
      rw at_j at f,
      random_run n size start core j unset read nt pos,
      random_run_undefined size start core j read nt pos,
    )
