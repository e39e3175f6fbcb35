-- ===== src/Driver/Races.antt =====
-- The worker threads of a sequential bandwidth run side by side: no two of them access the same byte, so
-- that each byte is accessed as by its own thread alone, however what the threads do is interleaved.
use database_benchmarking_op.Prelude.{
  ℕ, suc, ◌+◌, ◌*◌, ◌/◌, ◌%◌, ◌≤◌, ◌<◌, ◌^◌, List, [], Bool, get_elem?, Option, none, some, ◌≡◌,
  ◌≢◌, ap, ◌∙◌, arith,
}
use native.Mathlib.Decide.{dec_lt}
use database_benchmarking_op.Machine.{Cpu, Outcome, done, fault, spin, Event}
use database_benchmarking_op.Exec.Ensures.{Ensures}
use database_benchmarking_op.Latency.Coverage.{inside, touches}
use database_benchmarking_op.Driver.Config.{perthread_workset}
use database_benchmarking_op.Driver.Jobs.{Action, strided_bwjob}
use database_benchmarking_op.Driver.Launch.{Thread, benchmark_bw_seq}
use database_benchmarking_op.Driver.Perform.{perform_all}
use database_benchmarking_op.Driver.Sweeps.{Swept, benchmark_bw_seq-Swept}
use database_benchmarking_op.Driver.Interleaved.{
  Merged, accesses_of, accesses_of-Merged, touches-accesses_of,
}

abbrev history_of : Outcome Cpu → List Event
history_of (done d) = d.history
history_of fault = []
history_of spin = []

module _ (other : Action → Cpu → Outcome Cpu) (seed fuel : ℕ) (cs : ℕ → Cpu) where
  abbrev history_from : Option Thread → Cpu → List Event
  history_from none c = []
  history_from (some t) c = history_of (perform_all other seed fuel (strided_bwjob t.ctx).actions c)

  -- What thread `i` leaves, from the state `cs i`.
  abbrev pub thread_history : List Thread → ℕ → List Event
  thread_history ts i = history_from (get_elem? ts i) (cs i)

touches-history_of :
    (lo x : ℕ) (c : Cpu) (o : Outcome Cpu)
    → Ensures (Swept lo perthread_workset 101 c) o
    → c.history ≡ []
    → touches (history_of o) x ≡ 101 * inside lo perthread_workset x
unfolding touches
touches-history_of lo x c (done d) swept fresh =
    omega (arith, swept x, ap (λ (h : List Event). touches h x) fresh)
touches-history_of lo x c fault swept fresh = absurd swept
touches-history_of lo x c spin swept fresh = absurd swept

module _ (n size start p fuel seed : ℕ) (read nt : Bool) (other : Action → Cpu → Outcome Cpu)
    (cs : ℕ → Cpu) (ts : List Thread) (few : n ≤ 48) (full : size ≡ suc p * 256)
    (divides : perthread_workset / size * size ≡ perthread_workset) (on_line : start % 64 ≡ 0)
    (fits : start + n * perthread_workset ≤ 2 ^ 64) (enough : perthread_workset ≤ fuel)
    (started : benchmark_bw_seq n size start read nt ≡ some ts)
    (fresh : (i : ℕ) → (cs i).history ≡ []) where
  -- A byte of one thread's region is in no other's.
  apart :
      (i j x : ℕ)
      → i ≢ j
      → inside (start + j * perthread_workset) perthread_workset x ≡ 1
      → 101 * inside (start + i * perthread_workset) perthread_workset x ≡ 0
  apart i j x ne within = elim (dec_lt i j) [
    | yes before ↦ ground arith
    | no after ↦ let beyond : j < i = omega (arith, ne) in ground arith
  ]

  thread_touches :
      (i x : ℕ)
      → i < n
      → touches (thread_history other seed fuel cs ts i) x
        ≡ 101 * inside (start + i * perthread_workset) perthread_workset x
  thread_touches i x lt =
      let (us, t, e, f, swept) =
        benchmark_bw_seq-Swept n size start i p fuel seed read nt other (cs i) few lt full divides
          on_line fits enough in
      let same : us ≡ ts = cc in
      let here : get_elem? ts i ≡ some t = rw same at f in
      rw here (
        touches-history_of (start + i * perthread_workset) x (cs i)
          (perform_all other seed fuel (strided_bwjob t.ctx).actions (cs i)) swept (fresh i))

  -- A sequential bandwidth run on up to 48 threads, with a size that is a multiple of 256 and divides
  -- the 2 GiB of a thread, memory from the start of a line on that does not run past the end of the address
  -- space, and fuel for 2 ^ 31 rounds a loop; each thread starts from any state with an empty history. Take
  -- any one history in which those that the threads leave are interleaved: a byte of the region of
  -- thread `j` is accessed in it 101 times, and by thread `j` alone, in the order in which that thread
  -- accesses it.
  pub benchmark_bw_seq-Merged :
      (m : List Event) (j x : ℕ)
      → Merged (thread_history other seed fuel cs ts) n m
      → j < n
      → inside (start + j * perthread_workset) perthread_workset x ≡ 1
      → (accesses_of x m ≡ accesses_of x (thread_history other seed fuel cs ts j))
        × (touches m x ≡ 101)
  benchmark_bw_seq-Merged m j x g lt within =
      let hs = thread_history other seed fuel cs ts in
      let alone =
        accesses_of-Merged x hs j n m g lt
          λ i below ne. thread_touches i x below ∙ apart i j x ne within in
      (
        alone,
        omega (
          arith,
          touches-accesses_of x m,
          ap (λ (h : List Event). touches h x) alone,
          touches-accesses_of x (hs j),
          thread_touches j x lt,
          within,
        ),
      )
