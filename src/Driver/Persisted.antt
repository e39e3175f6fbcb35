-- ===== src/Driver/Persisted.antt =====
-- What a sequential bandwidth run that stores and writes back leaves in persistent memory.
use database_benchmarking_op.Prelude.{
  ℕ, suc, ◌+◌, ◌*◌, ◌/◌, ◌%◌, ◌^◌, ◌≤◌, ◌<◌, List, [], ◌∷◌, ◌++◌, true, false, some, ◌≡◌, refl, sym,
  ap, arith, get_elem?, ne→==,
}
use native.Mathlib.Nat.{zero-mul, mul-le-mul_left, mul-le-mul_right}
use native.Mathlib.Decide.{dec_lt}
use database_benchmarking_op.Machine.{Cpu, Outcome, Event, fenced, sfence, step, exec}
use database_benchmarking_op.Exec.Ensures.{Ensures, Ensures-bind, Ensures-weaken}
use database_benchmarking_op.Latency.Persistence.{is_flushed}
use database_benchmarking_op.Driver.Config.{perthread_workset}
use database_benchmarking_op.Driver.Jobs.{Action, call, m_fence, s_fence, times, strided_bwjob}
use database_benchmarking_op.Driver.Launch
use database_benchmarking_op.Driver.Launch.{Thread, bw_thread, benchmark_bw_seq}
use database_benchmarking_op.Driver.Perform.{perform, perform_all}
use database_benchmarking_op.Driver.Regions.{start_threads-Started}
use database_benchmarking_op.Driver.Rounds.{wanted}
use database_benchmarking_op.Driver.Runs.{Runs, Runs-append, Runs-times, perform_all-append}
use database_benchmarking_op.Driver.Sweeps.{perform_wanted}
use database_benchmarking_op.Memaccess.Written.{stride_storeclwb-is_flushed}

-- The latest event is a store fence, and before it line `l` had been written back after the last store.
abbrev pub Persisted : ℕ → Cpu → Type 0
Persisted l d = (h : List Event) × (d.history ≡ fenced sfence ∷ h) × (is_flushed l h ≡ true)

module _ (other : Action → Cpu → Outcome Cpu) (seed fuel p size lo l : ℕ)
    (full : size ≡ suc p * 256) (divides : perthread_workset / size * size ≡ perthread_workset)
    (on_line : lo % 64 ≡ 0) (fits : lo + perthread_workset ≤ 2 ^ 64)
    (enough : perthread_workset ≤ fuel) (from : lo ≤ l * 64)
    (to : l * 64 < lo + perthread_workset) where
  abbrev once : Action
  once = call (wanted false false) lo size size 0 (perthread_workset / size)

  abbrev all_of : List Action → Cpu → Outcome Cpu
  all_of xs c = perform_all other seed fuel xs c

  call-is_flushed : (c : Cpu) → Ensures (λ d. is_flushed l d.history ≡ true) (all_of (once ∷ []) c)
  call-is_flushed c =
      let n = perthread_workset / size in
      let some_calls : 0 < n = elim (dec_lt 0 n) [
        | yes pos ↦ pos
        | no zeroed ↦
            let e : n ≡ 0 = omega (arith, zeroed) in
            absurd (omega (arith, divides, ap (λ (m : ℕ). m * size) e, zero-mul size))
      ] in
      let few_calls : n * 1 ≤ n * size = mul-le-mul_left n (omega (arith, full)) in
      let small : 1 * size ≤ n * size = mul-le-mul_right size some_calls in
      rw (perform_wanted other seed fuel lo size n false false c) (
        stride_storeclwb-is_flushed lo size n p fuel l c full (omega (arith, divides)) some_calls
          (omega (arith, divides)) on_line (omega (arith, divides)) (omega (arith, divides, full))
          (omega (arith, divides)) from (omega (arith, divides)))

  -- That they end.
  abbrev Ends : ℕ → List Action → Type 0
  Ends = Runs other seed fuel (λ c. Unit) (λ n c d. Unit) (λ c. tt) (λ m n c d e r s. tt)

  one_after : (xs ys : List Action) → Ends 0 xs → Ends 0 ys → Ends 0 (xs ++ ys)
  one_after xs ys h k =
      Runs-append other seed fuel (λ c. Unit) (λ n c d. Unit) (λ c. tt) (λ m n c d e r s. tt) 0 0 xs
        ys h k

  again : (n : ℕ) (xs : List Action) → Ends 0 xs → Ends 0 (times n xs)
  again n xs h =
      Runs-times other seed fuel (λ c. Unit) (λ n c d. Unit) (λ c. tt) (λ m n c d e r s. tt) 0 n xs
        h

  call_ends : Ends 0 (once ∷ [])
  call_ends c good =
      Ensures-weaken (λ d. is_flushed l d.history ≡ true) _ _ (call-is_flushed c) λ d f. (tt, tt)

  s_fence_ends : Ends 0 (s_fence ∷ [])
  unfolding perform_all perform exec step
  s_fence_ends c good = (tt, tt)

  m_fence_ends : Ends 0 (m_fence ∷ [])
  unfolding perform_all perform exec step
  m_fence_ends c good = (tt, tt)

  close-Persisted :
      (c : Cpu) → is_flushed l c.history ≡ true → Ensures (Persisted l) (all_of (s_fence ∷ []) c)
  unfolding perform_all perform exec step
  close-Persisted c f = (c.history, refl, f)

  in_two :
      (P Q : Cpu → Type 0) (xs ys : List Action) (c : Cpu)
      → Ensures P (all_of xs c)
      → ((d : Cpu) → P d → Ensures Q (all_of ys d))
      → Ensures Q (all_of (xs ++ ys) c)
  in_two P Q xs ys c h k =
      rw
        (perform_all-append other seed fuel (λ d. Unit) (λ n d e. Unit) (λ d. tt)
          (λ m n d e f r t. tt) xs ys c)
        (Ensures-bind P Q (all_of xs c) (all_of ys) h k)

  -- The last call and fence.
  last-Persisted : (c : Cpu) → Ensures (Persisted l) (all_of (once ∷ s_fence ∷ []) c)
  last-Persisted c =
      in_two (λ d. is_flushed l d.history ≡ true) (Persisted l) (once ∷ []) (s_fence ∷ []) c
        (call-is_flushed c) close-Persisted

  -- All before them.
  abbrev before : List Action
  before =
      once ∷ m_fence ∷ (times 9 (times 10 (once ∷ s_fence ∷ [])) ++ times 9 (once ∷ s_fence ∷ []))

  before_ends : (c : Cpu) → Ensures (λ d. Unit) (all_of before c)
  before_ends c =
      let pair = one_after (once ∷ []) (s_fence ∷ []) call_ends s_fence_ends in
      let pairs = again 9 (once ∷ s_fence ∷ []) pair in
      let tens = again 9 (times 10 (once ∷ s_fence ∷ [])) (again 10 (once ∷ s_fence ∷ []) pair) in
      let opening = one_after (once ∷ []) (m_fence ∷ []) call_ends m_fence_ends in
      let rest =
        one_after (times 9 (times 10 (once ∷ s_fence ∷ []))) (times 9 (once ∷ s_fence ∷ [])) tens
          pairs in
      Ensures-weaken (λ d. Unit × Unit) (λ d. Unit) (all_of before c)
        (one_after (once ∷ m_fence ∷ [])
          (times 9 (times 10 (once ∷ s_fence ∷ [])) ++ times 9 (once ∷ s_fence ∷ [])) opening rest c
          tt)
        λ d u. tt

  job-Persisted :
      (c : Cpu)
      → Ensures
          (Persisted l)
          (all_of (once ∷ m_fence ∷ times 10 (times 10 (once ∷ s_fence ∷ []))) c)
  job-Persisted c =
      in_two (λ d. Unit) (Persisted l) before (once ∷ s_fence ∷ []) c (before_ends c)
        λ d u. last-Persisted d

  strided_bwjob-Persisted :
      (start core j : ℕ) (c : Cpu)
      → lo ≡ start + j * perthread_workset
      → Ensures (Persisted l) (
          all_of
            (strided_bwjob
              (bw_thread Launch.strided_bwjob size start false false core j).ctx).actions
            c)
  unfolding strided_bwjob
  strided_bwjob-Persisted start core j c e =
      rw (ne→== size 0 (omega (arith, full)), sym e) (job-Persisted c)

-- Thread `j` of a sequential bandwidth run that stores and writes back, on up to 48 threads, with a size
-- that is a multiple of 256 and divides the 2 GiB of a thread, memory from the start of a line on that does
-- not run past the end of the address space, and fuel for 2 ^ 31 rounds a loop: the thread is there, its job
-- returns on the processor, and in the end every line `l` of the thread's region has been written back
-- after the last store to it, and a store fence has followed.
pub benchmark_bw_seq-Persisted :
    (n size start j p fuel seed l : ℕ) (other : Action → Cpu → Outcome Cpu) (c : Cpu)
    → n ≤ 48
    → j < n
    → size ≡ suc p * 256
    → perthread_workset / size * size ≡ perthread_workset
    → start % 64 ≡ 0
    → start + n * perthread_workset ≤ 2 ^ 64
    → perthread_workset ≤ fuel
    → start + j * perthread_workset ≤ l * 64
    → l * 64 < start + j * perthread_workset + perthread_workset
    → (ts : List Thread) × (t : Thread) × (benchmark_bw_seq n size start false false ≡ some ts)
      × (get_elem? ts j ≡ some t)
      × Ensures (Persisted l) (perform_all other seed fuel (strided_bwjob t.ctx).actions c)
unfolding benchmark_bw_seq
benchmark_bw_seq-Persisted n size start j p fuel seed l other c few lt full divides on_line fits
      enough from to =
    let make = bw_thread Launch.strided_bwjob size start false false in
    let (ts, e, s) = start_threads-Started make 0 n (omega arith) in
    let (core, _, f) = s.each j lt in
    let at_j : 0 + j ≡ j = omega arith in
    let lo = start + j * perthread_workset in
    (
      ts,
      make core j,
      e,
      rw at_j at f,
      strided_bwjob-Persisted other seed fuel p size lo l full divides (omega (arith, on_line))
          (omega arith) enough from to start core j c refl,
    )
