-- ===== src/Driver/Sweeps.antt =====
-- A sequential bandwidth job on the processor: how often it touches each byte.
use database_benchmarking_op.Prelude.{
  ℕ, suc, ◌+◌, ◌*◌, ◌/◌, ◌%◌, ◌^◌, ◌≤◌, ◌<◌, List, [], ◌∷◌, Bool, true, false, some, ◌≡◌, refl, sym,
  ap, ◌∙◌, arith, if◌then◌else◌, get_elem?, ne→==,
}
use native.Mathlib.Nat.{zero-mul, mul-le-mul_left, mul-le-mul_right, add-mul}
use native.Mathlib.Decide.{dec_lt}
use database_benchmarking_op.Machine.{Cpu, Outcome, step, exec, exec_code}
use database_benchmarking_op.Exec.Ensures.{Ensures, Ensures-weaken, bind_done}
use database_benchmarking_op.Latency.Coverage.{inside, touches}
use database_benchmarking_op.Driver.Launch
use database_benchmarking_op.Driver.Launch.{Thread, bw_thread, benchmark_bw_seq}
use database_benchmarking_op.Driver.Regions.{start_threads-Started}
use database_benchmarking_op.Driver.Config.{perthread_workset}
use database_benchmarking_op.Driver.Jobs.{Action, call, m_fence, s_fence, times, strided_bwjob}
use database_benchmarking_op.Driver.Rounds.{wanted}
use database_benchmarking_op.Driver.Runs.{Runs, Runs-job}
use database_benchmarking_op.Driver.Perform.{perform, perform_all}
use database_benchmarking_op.Memaccess.StrideKernels.{
  StridedOp, bench_load, bench_store_nt, bench_store_flush, kernel_of, unroll_of,
}
use database_benchmarking_op.Memaccess.StrideTouches.{kernel_of-touches}

-- Each byte of the `w` from `lo` on touched `n` times more, and no other.
abbrev pub Swept : (lo w n : ℕ) → Cpu → Cpu → Type 0
Swept lo w n c d = (x : ℕ) → touches d.history x ≡ n * inside lo w x + touches c.history x

module _ (other : Action → Cpu → Outcome Cpu) (seed fuel lo w : ℕ) where
  abbrev all_of : List Action → Cpu → Outcome Cpu
  all_of xs c = perform_all other seed fuel xs c

  abbrev Sweeping : ℕ → List Action → Type 0
  Sweeping n xs = (c : Cpu) → Ensures (Swept lo w n c) (all_of xs c)

  Swept-trans :
      (m n : ℕ) (c d e : Cpu) → Swept lo w m c d → Swept lo w n d e → Swept lo w (m + n) c e
  Swept-trans m n c d e h k x =
      let sides : (m + n) * inside lo w x ≡ m * inside lo w x + n * inside lo w x =
        add-mul m n (inside lo w x) in
      omega (arith, h x, k x)

  -- A fence touches nothing.
  fence-sweep : (mfences : Bool) → Sweeping 0 ((if mfences then m_fence else s_fence) ∷ [])
  unfolding perform_all perform exec step touches
  fence-sweep true c = λ x. rw (zero-mul (inside lo w x)) (omega arith)
  fence-sweep false c = λ x. rw (zero-mul (inside lo w x)) (omega arith)

  Swept-refl : (c : Cpu) → Swept lo w 0 c c
  Swept-refl c x = rw (zero-mul (inside lo w x)) (omega arith)

  -- A warm-up call, a fence, and a hundred times a call and a fence.
  job-sweep :
      (once : Action) (mfences : Bool)
      → Sweeping 1 (once ∷ [])
      → Sweeping 101 (
          once ∷ m_fence ∷ times 10 (times 10 (once ∷ (if mfences then m_fence else s_fence) ∷ [])))
  job-sweep once mfences h c =
      let any : Cpu → Type 0 = λ d. Unit in
      let closing = if mfences then m_fence else s_fence in
      let with_unit : (n : ℕ) (xs : List Action)
          → Sweeping n xs
          → Runs other seed fuel any (Swept lo w) Swept-refl Swept-trans n xs =
        λ n xs k d good. Ensures-weaken (Swept lo w n d) _ (all_of xs d) (k d) λ e s. (tt, s) in
      Ensures-weaken (λ d. Unit × Swept lo w 101 c d) (Swept lo w 101 c) _
        (Runs-job other seed fuel any (Swept lo w) Swept-refl Swept-trans once once closing 1 1
          (with_unit 1 _ h) (with_unit 0 _ (fence-sweep true)) (with_unit 1 _ h)
          (with_unit 0 _ (fence-sweep mfences)) c tt)
        λ d (good, s). s

-- What a run asks for.
abbrev pub wanted_op : Bool → Bool → StridedOp
wanted_op read nt = if read then bench_load else if nt then bench_store_nt else bench_store_flush

pub perform_wanted :
    (other : Action → Cpu → Outcome Cpu) (seed fuel a s n : ℕ) (read nt : Bool) (c : Cpu)
    → perform_all other seed fuel (call (wanted read nt) a s s 0 n ∷ []) c
      ≡ exec_code fuel (kernel_of (wanted_op read nt) a s s 0 n) c
unfolding perform_all perform
perform_wanted other seed fuel a s n true nt c =
    bind_done (exec_code fuel (kernel_of bench_load a s s 0 n) c)
perform_wanted other seed fuel a s n false true c =
    bind_done (exec_code fuel (kernel_of bench_store_nt a s s 0 n) c)
perform_wanted other seed fuel a s n false false c =
    bind_done (exec_code fuel (kernel_of bench_store_flush a s s 0 n) c)

pub fills : (read nt : Bool) → unroll_of (wanted_op read nt) ≡ 4
fills true nt = refl
fills false true = refl
fills false false = refl

module _ (other : Action → Cpu → Outcome Cpu) (seed fuel p size lo : ℕ) (full : size ≡ suc p * 256)
    (divides : perthread_workset / size * size ≡ perthread_workset) (on_line : lo % 64 ≡ 0)
    (fits : lo + perthread_workset ≤ 2 ^ 64) (enough : perthread_workset ≤ fuel) where
  call-sweep :
      (read nt : Bool)
      → Sweeping other seed fuel lo perthread_workset 1
          (call (wanted read nt) lo size size 0 (perthread_workset / size) ∷ [])
  call-sweep read nt c =
      let n = perthread_workset / size in
      let some_calls : 0 < n = elim (dec_lt 0 n) [
        | yes pos ↦ pos
        | no zeroed ↦
            let e : n ≡ 0 = omega (arith, zeroed) in
            absurd (omega (arith, divides, ap (λ (m : ℕ). m * size) e, zero-mul size))
      ] in
      let few_calls : n * 1 ≤ n * size = mul-le-mul_left n (omega (arith, full)) in
      let small : 1 * size ≤ n * size = mul-le-mul_right size some_calls in
      let four = fills read nt in
      rw (perform_wanted other seed fuel lo size n read nt c) (
        Ensures-weaken
          (λ d. (x : ℕ) → touches d.history x ≡ inside lo (n * size) x + touches c.history x)
          (Swept lo perthread_workset 1 c)
          (exec_code fuel (kernel_of (wanted_op read nt) lo size size 0 n) c)
          (kernel_of-touches (wanted_op read nt) lo size n p fuel c (rw four full)
            (omega (arith, divides)) some_calls (omega (arith, divides)) on_line
            (omega (arith, divides)) (omega (arith, divides, full)) (omega (arith, divides)))
          λ d s x. s x ∙ rw divides (omega arith))

  -- The job that the drivers give a thread, on the processor.
  strided_bwjob-sweep :
      (start core j : ℕ) (read nt : Bool)
      → lo ≡ start + j * perthread_workset
      → Sweeping other seed fuel lo perthread_workset 101
          (strided_bwjob (bw_thread Launch.strided_bwjob size start read nt core j).ctx).actions
  unfolding strided_bwjob
  strided_bwjob-sweep start core j true nt e c =
      rw (ne→== size 0 (omega (arith, full)), sym e)
        (job-sweep other seed fuel lo perthread_workset _ true (call-sweep true nt) c)
  strided_bwjob-sweep start core j false true e c =
      rw (ne→== size 0 (omega (arith, full)), sym e)
        (job-sweep other seed fuel lo perthread_workset _ false (call-sweep false true) c)
  strided_bwjob-sweep start core j false false e c =
      rw (ne→== size 0 (omega (arith, full)), sym e)
        (job-sweep other seed fuel lo perthread_workset _ false (call-sweep false false) c)

-- Thread `j` of a sequential bandwidth run on up to 48 threads, with a size that is a multiple of 256
-- and divides the 2 GiB of a thread, and memory from the start of a line on that does not run past
-- the end of the address space: it is there, and its job, with fuel for 2 ^ 31 rounds a loop, returns
-- on the processor, having touched each byte of the thread's own region exactly 101 times and no
-- other byte, whatever the operating system does.
pub benchmark_bw_seq-Swept :
    (n size start j p fuel seed : ℕ) (read nt : Bool) (other : Action → Cpu → Outcome Cpu) (c : Cpu)
    → n ≤ 48
    → j < n
    → size ≡ suc p * 256
    → perthread_workset / size * size ≡ perthread_workset
    → start % 64 ≡ 0
    → start + n * perthread_workset ≤ 2 ^ 64
    → perthread_workset ≤ fuel
    → (ts : List Thread) × (t : Thread) × (benchmark_bw_seq n size start read nt ≡ some ts)
      × (get_elem? ts j ≡ some t)
      × Ensures
          (Swept (start + j * perthread_workset) perthread_workset 101 c)
          (perform_all other seed fuel (strided_bwjob t.ctx).actions c)
unfolding benchmark_bw_seq
benchmark_bw_seq-Swept n size start j p fuel seed read nt other c few lt full divides on_line fits
      enough =
    let make = bw_thread Launch.strided_bwjob size start read nt in
    let (ts, e, s) = start_threads-Started make 0 n (omega arith) in
    let (core, _, f) = s.each j lt in
    let at_j : 0 + j ≡ j = omega arith in
    let lo = start + j * perthread_workset in
    (
      ts,
      make core j,
      e,
      rw at_j at f,
      strided_bwjob-sweep other seed fuel p size lo full divides (omega (arith, on_line))
          (omega arith) enough start core j read nt refl c,
    )
