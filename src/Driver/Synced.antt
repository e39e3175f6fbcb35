-- ===== src/Driver/Synced.antt =====
-- What a bandwidth thread on a block device does: every round is a call and a sync, and the first of these
-- that fails ends the program.
use database_benchmarking_op.Prelude.{
  ℕ, zero, suc, ◌+◌, ◌*◌, ◌/◌, ◌≤◌, ◌<◌, ◌-◌, List, [], ◌∷◌, ◌++◌, Bool, true, false, length,
  get_elem?, some, ◌≡◌, refl, ap, ◌∙◌, arith, if◌then◌else◌, ne→==,
}
use native.Mathlib.Nat.{zero-add, add-zero}
use database_benchmarking_op.Driver.Jobs
use database_benchmarking_op.Driver.Config.{perthread_workset}
use database_benchmarking_op.Driver.Jobs.{
  BwFunc, stride_ssd_load, stride_ssd_mmap_load, stride_ssd_store, stride_ssd_mmap_store_no_drain,
  Action, call, msync, fsync, Ending, Answers, call_returns, then_actions, returned, exited, JobRun,
  times, ssd_rounds,
}
use database_benchmarking_op.Driver.Launch.{Thread, ssd_thread, benchmark_bw_ssd}
use database_benchmarking_op.Driver.Regions.{start_threads-Started}
use database_benchmarking_op.Driver.Rounds.{length-times, times_calls, times_fences}

-- A run of a warm-up and of `n` rounds, each a call and a sync, that ends as told: all its actions by
-- number.
pub record SyncedRounds (once sync : Action) (n : ℕ) (ending : Ending) (r : JobRun) : Type 0 where
  pub ends : r.ending ≡ ending
  pub all : length r.actions ≡ 1 + n * 2
  pub first : get_elem? r.actions 0 ≡ some once
  pub calls : (i : ℕ) → i < n → get_elem? r.actions (1 + i * 2) ≡ some once
  pub syncs : (i : ℕ) → i < n → get_elem? r.actions (2 + i * 2) ≡ some sync

times-SyncedRounds :
    (once sync : Action) (n : ℕ) (e : Ending)
    → SyncedRounds once sync n e
        (record { actions = once ∷ times n (once ∷ sync ∷ []); ending = e })
times-SyncedRounds once sync n e = record {
  ends = refl;
  all = omega (arith, length-times once sync n);
  first = refl;
  calls = λ i lt.
      let past : 1 + i * 2 ≡ suc (i * 2) = omega arith in rw past (times_calls once sync n i lt);
  syncs = λ i lt.
      let past : 2 + i * 2 ≡ suc (suc (i * 2)) = omega arith in
      rw past (times_fences once sync n i lt);
}

module _ (answers : Answers) (f : BwFunc) (once sync : Action) where
  -- Call number `i` and those after it return, until `n` are done; so do the syncs.
  abbrev pub CallsReturn : (i n : ℕ) → Type 0
  CallsReturn i n = (k : ℕ) → k < n → call_returns answers f (i + k) ≡ true

  abbrev pub SyncsSucceed : (i n : ℕ) → Type 0
  SyncsSucceed i n = (k : ℕ) → k < n → answers.synced (i + k) ≡ true

  -- One round that completes.
  ssd_rounds-suc :
      (i left : ℕ)
      → call_returns answers f (i + 1) ≡ true
      → answers.synced i ≡ true
      → ssd_rounds answers f once sync i (suc left)
        ≡ then_actions (once ∷ sync ∷ []) (ssd_rounds answers f once sync (i + 1) left)
  unfolding ssd_rounds
  ssd_rounds-suc i left called good = rw (called, good) refl

  -- `m` rounds that complete.
  ssd_rounds-add :
      (i m left : ℕ)
      → CallsReturn (i + 1) m
      → SyncsSucceed i m
      → ssd_rounds answers f once sync i (m + left)
        ≡ then_actions (times m (once ∷ sync ∷ [])) (ssd_rounds answers f once sync (i + m) left)
  ssd_rounds-add i zero left calls good = rw (zero-add left, add-zero i) refl
  ssd_rounds-add i (suc m) left calls good =
      let count : suc m + left ≡ suc (m + left) = omega arith in
      let next : i + 1 + m ≡ i + suc m = omega arith in
      let first = rw (add-zero (i + 1)) at (calls 0 (omega arith)) in
      let first_sync = rw (add-zero i) at (good 0 (omega arith)) in
      let calls' : CallsReturn (i + 1 + 1) m = λ k lt.
        let shift : i + 1 + 1 + k ≡ i + 1 + suc k = omega arith in
        rw shift (calls (suc k) (omega arith)) in
      let good' : SyncsSucceed (i + 1) m = λ k lt.
        let shift : i + 1 + k ≡ i + suc k = omega arith in rw shift (good (suc k) (omega arith)) in
      rw count (
        ssd_rounds-suc i (m + left) first first_sync
        ∙ rw (ssd_rounds-add (i + 1) m left calls' good', next) refl)

  -- The first that fails is a sync.
  ssd_rounds_failed :
      (i left : ℕ)
      → call_returns answers f (i + 1) ≡ true
      → answers.synced i ≡ false
      → ssd_rounds answers f once sync i (suc left)
        ≡ record { actions = once ∷ sync ∷ []; ending = exited }
  unfolding ssd_rounds
  ssd_rounds_failed i left called bad = rw (called, bad) refl

  -- The first that fails is a call.
  ssd_rounds_gone :
      (i left : ℕ)
      → call_returns answers f (i + 1) ≡ false
      → ssd_rounds answers f once sync i (suc left)
        ≡ record { actions = once ∷ []; ending = exited }
  unfolding ssd_rounds
  ssd_rounds_gone i left gone = rw gone refl

times-snoc :
    (once sync : Action) (m : ℕ)
    → times m (once ∷ sync ∷ []) ++ (once ∷ sync ∷ []) ≡ times (suc m) (once ∷ sync ∷ [])
times-snoc once sync zero = refl
times-snoc once sync (suc m) = ap (λ l. once ∷ sync ∷ l) (times-snoc once sync m)

times_nil :
    (once sync : Action) (m : ℕ) → times m (once ∷ sync ∷ []) ++ [] ≡ times m (once ∷ sync ∷ [])
times_nil once sync zero = refl
times_nil once sync (suc m) = ap (λ l. once ∷ sync ∷ l) (times_nil once sync m)

-- The functions that a run asks for, by whether the device is mapped.
abbrev pub wanted_ssd : Bool → Bool → BwFunc
wanted_ssd read mmap =
    if read
    then if mmap then stride_ssd_mmap_load else stride_ssd_load
    else if mmap
    then stride_ssd_mmap_store_no_drain
    else stride_ssd_store

module _ (size start fd : ℕ) (read mmap : Bool) where
  -- The call and the sync of thread `j`.
  abbrev pub ssd_call : ℕ → Action
  ssd_call j =
      call (wanted_ssd read mmap) (if mmap then start + j * perthread_workset else 0) size
        (j * perthread_workset) (if mmap then 0 else fd) (perthread_workset / size)

  abbrev pub ssd_sync : ℕ → Action
  ssd_sync j = if mmap then msync (start + j * perthread_workset) else fsync fd

-- A run that ends in a call after `m` whole rounds.
abbrev pub CutShort : (once sync : Action) → ℕ → JobRun → Type 0
CutShort once sync m r =
    (whole : JobRun) × SyncedRounds once sync m exited whole
    × (r ≡ record { actions = whole.actions ++ (once ∷ []); ending = exited })

cut_CutShort :
    (once sync : Action) (m : ℕ)
    → CutShort once sync m
        (record { actions = once ∷ (times m (once ∷ sync ∷ []) ++ (once ∷ [])); ending = exited })
cut_CutShort once sync m = (_, times-SyncedRounds once sync m exited, refl)

-- The run of a thread is its warm-up and, if this returns, the rounds of `ssd_rounds`.
ssd_run :
    (size start fd core j : ℕ) (read mmap : Bool) (answers : Answers)
    → 0 < size
    → 0 < fd
    → let once = ssd_call size start fd read mmap j in
      Jobs.strided_ssd_bwjob answers (ssd_thread size start read mmap fd core j).ctx ≡ (
        if call_returns answers (wanted_ssd read mmap) 0
        then then_actions (once ∷ []) (
            ssd_rounds answers
              (wanted_ssd read mmap)
              once
              (ssd_sync size start fd read mmap j)
              0
              100)
        else record { actions = once ∷ []; ending = exited })
unfolding Jobs.strided_ssd_bwjob
ssd_run size start fd core j true true answers pos opened = rw (ne→== size 0 (omega arith)) refl
ssd_run size start fd core j true false answers pos opened =
    rw (ne→== size 0 (omega arith), ne→== fd 0 (omega arith)) refl
ssd_run size start fd core j false true answers pos opened = rw (ne→== size 0 (omega arith)) refl
ssd_run size start fd core j false false answers pos opened =
    rw (ne→== size 0 (omega arith), ne→== fd 0 (omega arith)) refl

-- What thread `j` of a run does, whatever the processor it runs on.
abbrev pub SsdJob :
    (n size start fd j : ℕ) → (read mmap : Bool) → Answers → (JobRun → Type 0) → Type 0
SsdJob n size start fd j read mmap answers P =
    (ts : List Thread) × (t : Thread) × (benchmark_bw_ssd n size start read mmap fd ≡ some ts)
    × (get_elem? ts j ≡ some t)
    × P (Jobs.strided_ssd_bwjob answers t.ctx)

module _ (n size start fd j : ℕ) (read mmap : Bool) (answers : Answers) (few : n ≤ 48) (lt : j < n)
    (pos : 0 < size) (opened : 0 < fd) where
  abbrev once : Action
  once = ssd_call size start fd read mmap j

  abbrev sync : Action
  sync = ssd_sync size start fd read mmap j

  abbrev f : BwFunc
  f = wanted_ssd read mmap

  thread_run :
      (P : JobRun → Type 0)
      → P (
          if call_returns answers f 0
          then then_actions (once ∷ []) (ssd_rounds answers f once sync 0 100)
          else record { actions = once ∷ []; ending = exited })
      → SsdJob n size start fd j read mmap answers P
  unfolding benchmark_bw_ssd
  thread_run P h =
      let make = ssd_thread size start read mmap fd in
      let (ts, e, s) = start_threads-Started make 0 n (omega arith) in
      let (core, _, at_j) = s.each j lt in
      let same : 0 + j ≡ j = omega arith in
      (
        ts,
        make core j,
        e,
        rw same at at_j,
        rw (ssd_run size start fd core j read mmap answers pos opened) h,
      )

  -- After the warm-up and `m` rounds that complete.
  thread_after :
      (m left : ℕ) (P : JobRun → Type 0)
      → m + left ≡ 100
      → CallsReturn answers f once sync 0 (suc m)
      → SyncsSucceed answers f once sync 0 m
      → P (then_actions (once ∷ times m (once ∷ sync ∷ [])) (ssd_rounds answers f once sync m left))
      → SsdJob n size start fd j read mmap answers P
  thread_after m left P total calls good h =
      let first : call_returns answers f 0 ≡ true = calls 0 (omega arith) in
      let later : CallsReturn answers f once sync 1 m = λ k low.
        let shift : 1 + k ≡ 0 + suc k = omega arith in rw shift (calls (suc k) (omega arith)) in
      let rounds = ssd_rounds-add answers f once sync 0 m left later good in
      thread_run P (rw (first, ← total, rounds, zero-add m) h)

  -- Thread `j` of a bandwidth run over a block device on up to 48 threads, with a size and a descriptor
  -- above 0, when each pread, pwrite and sync that it makes succeeds: it is there, and its job returns after a
  -- warm-up call and a hundred rounds. Every call is of the function for what is asked (a load or a store,
  -- through the mapping or not), and a round ends in a sync of the thread's mapping, or of the file.
  pub benchmark_bw_ssd_synced :
      CallsReturn answers f once sync 0 101
      → SyncsSucceed answers f once sync 0 100
      → SsdJob n size start fd j read mmap answers (SyncedRounds once sync 100 returned)
  unfolding ssd_rounds
  benchmark_bw_ssd_synced calls good =
      thread_after 100 0 (SyncedRounds once sync 100 returned) (omega arith) calls good
        (rw (times_nil once sync 100) (times-SyncedRounds once sync 100 returned))

  -- The same thread when the first that fails is the sync of round `m`, below a hundred: the program ends by
  -- exit(1) right after that sync, with `m + 1` rounds begun.
  pub benchmark_bw_ssd_failed :
      (m : ℕ)
      → m < 100
      → CallsReturn answers f once sync 0 (m + 2)
      → SyncsSucceed answers f once sync 0 m
      → answers.synced m ≡ false
      → SsdJob n size start fd j read mmap answers (SyncedRounds once sync (suc m) exited)
  benchmark_bw_ssd_failed m low calls good bad =
      let here : call_returns answers f (m + 1) ≡ true =
        let shift : 0 + (m + 1) ≡ m + 1 = omega arith in
        rw shift at (calls (m + 1) (omega arith)) in
      let left : 100 - m ≡ suc (99 - m) = omega arith in
      thread_after m (suc (99 - m)) (SyncedRounds once sync (suc m) exited) (omega arith)
        (λ k below. calls k (omega arith)) good
        (rw (ssd_rounds_failed answers f once sync m (99 - m) here bad, times-snoc once sync m)
          (times-SyncedRounds once sync (suc m) exited))

  -- The same thread when the first that fails is the pread or pwrite of the call in round `m`, below a hundred:
  -- the program ends by exit(1) in that call, after `m` whole rounds.
  pub benchmark_bw_ssd_gone :
      (m : ℕ)
      → m < 100
      → CallsReturn answers f once sync 0 (suc m)
      → SyncsSucceed answers f once sync 0 m
      → call_returns answers f (m + 1) ≡ false
      → SsdJob n size start fd j read mmap answers (CutShort once sync m)
  benchmark_bw_ssd_gone m low calls good gone =
      thread_after m (suc (99 - m)) (CutShort once sync m) (omega arith) calls good
        (rw (ssd_rounds_gone answers f once sync m (99 - m) gone) (cut_CutShort once sync m))
