-- ===== src/Driver/Volumes.antt =====
-- A random bandwidth job on the processor: how much it moves.
use database_benchmarking_op.Prelude.{
  ℕ, ◌+◌, ◌*◌, ◌/◌, ◌%◌, ◌^◌, ◌≤◌, ◌<◌, List, [], ◌∷◌, Bool, true, false, some, get_elem?, ◌≡◌,
  refl, sym, ap, ◌∙◌, arith, if◌then◌else◌, ◌⊎◌,
}
use native.Mathlib.Nat.{zero-add}
use database_benchmarking_op.Machine.{Cpu, Outcome, u64, byte_of, step, exec, exec_code}
use database_benchmarking_op.Exec.Ensures.{Ensures, Ensures-weaken, bind_done}
use database_benchmarking_op.Exec.Bytes.{
  AllBytes, StayBytes, code-StayBytes, byte_of-IsBytes, store-StayBytes,
}
use database_benchmarking_op.Random.RandR.{rand_r_32}
use database_benchmarking_op.Exec.Respects.{Ensures-both}
use database_benchmarking_op.Random.Lfsr.{bitmask}
use database_benchmarking_op.Random.Lfsr.Laws.{seed_value}
use database_benchmarking_op.Driver.Config.{perthread_workset}
use database_benchmarking_op.Driver.Jobs.{
  Action, call, call_rand, step_seed, m_fence, s_fence, times, size_bwjob,
}
use database_benchmarking_op.Driver.Launch
use database_benchmarking_op.Driver.Launch.{Thread, bw_thread, benchmark_bw_random}
use database_benchmarking_op.Driver.Regions.{start_threads-Started}
use database_benchmarking_op.Driver.Rounds.{wanted, wanted_rand}
use database_benchmarking_op.Driver.Perform.{perform, perform_all}
use database_benchmarking_op.Driver.Runs.{Runs, Runs-append, Runs-job}
use database_benchmarking_op.Driver.Sweeps.{perform_wanted, wanted_op, fills}
use database_benchmarking_op.Memaccess.Blocks.{by_lines}
use database_benchmarking_op.Memaccess.Regular.{
  Transfer, loading, nt_storing, flushing, access_by, flush_by,
}
use database_benchmarking_op.Memaccess.Strides.{strides, Strode, times_for}
use database_benchmarking_op.Memaccess.StrideKernels.{
  access_of, flush_of, unroll_of, kernel_of, kernel_of-strides,
}
use database_benchmarking_op.Memaccess.RandomLoop.{Chosen, quarters}
use database_benchmarking_op.Memaccess.Volume.{lines_moved, lines_moved-strides, lines_moved-picks}
use database_benchmarking_op.Memaccess.SizebwKernels.{sizebw_of, sizebw_of-Chosen}

abbrev pub MovedLines : ℕ → Cpu → Cpu → Type 0
MovedLines n c d = lines_moved d.history ≡ n + lines_moved c.history

MovedLines-refl : (c : Cpu) → MovedLines 0 c c
MovedLines-refl c = omega arith

MovedLines-trans :
    (m n : ℕ) (c d e : Cpu) → MovedLines m c d → MovedLines n d e → MovedLines (m + n) c e
MovedLines-trans m n c d e h k = omega arith

-- What a random run asks for.
abbrev wanted_transfer : Bool → Bool → Transfer
wanted_transfer read nt = if read then loading else if nt then nt_storing else flushing

perform_wanted_rand :
    (other : Action → Cpu → Outcome Cpu) (seed fuel a s n m : ℕ) (read nt : Bool) (c : Cpu)
    → perform_all other seed fuel (call_rand (wanted_rand read nt) a s n m ∷ []) c
      ≡ exec_code fuel (sizebw_of (wanted_transfer read nt) a s n seed m) c
unfolding perform_all perform
perform_wanted_rand other seed fuel a s n m true nt c =
    bind_done (exec_code fuel (sizebw_of loading a s n seed m) c)
perform_wanted_rand other seed fuel a s n m false true c =
    bind_done (exec_code fuel (sizebw_of nt_storing a s n seed m) c)
perform_wanted_rand other seed fuel a s n m false false c =
    bind_done (exec_code fuel (sizebw_of flushing a s n seed m) c)

abbrev region_lines : ℕ
region_lines = perthread_workset / 64

abbrev calls : ℕ
calls = perthread_workset / 256

module _ (other : Action → Cpu → Outcome Cpu) (seed fuel lo : ℕ) (on_line : lo % 64 ≡ 0)
    (fits : lo + perthread_workset + 512 ≤ 2 ^ 64) (enough : calls ≤ fuel)
    (apart : (u64 seed + 8 ≤ lo) ⊎ (lo + perthread_workset + 512 ≤ u64 seed)) where
  abbrev Moving : ℕ → List Action → Type 0
  Moving = Runs other seed fuel AllBytes MovedLines MovedLines-refl MovedLines-trans

  warm-Moving :
      (read nt : Bool) → Moving region_lines (call (wanted read nt) lo 256 256 0 calls ∷ [])
  warm-Moving read nt c bytes =
      let op = wanted_op read nt in
      let four = fills read nt in
      let code = kernel_of op lo 256 256 0 calls in
      let made =
        strides (by_lines (access_of op) (flush_of op)) lo 256 (1 * unroll_of op) (times_for calls)
          c.history in
      let total : 1 * unroll_of op ≡ 4 = omega (arith, four) in
      rw (perform_wanted other seed fuel lo 256 calls read nt c) (
        Ensures-weaken
          (λ d. Strode (u64 (times_for calls * 256)) (times_for calls) made c d × StayBytes c d) _
          (exec_code fuel code c)
          (Ensures-both _ (StayBytes c) (exec_code fuel code c)
            (kernel_of-strides lo 256 256 0 calls 0 fuel (omega arith) (omega arith)
              (omega (arith, enough)) (omega (arith, enough)) (omega arith) (omega (arith, enough))
              on_line refl op c (omega arith) (rw four (omega arith)))
            (code-StayBytes fuel code c))
          λ d (s, stay). (
            stay bytes,
            ap lines_moved s.traced
                ∙ lines_moved-strides (access_of op) (flush_of op) lo 256 (1 * unroll_of op)
                    (times_for calls) c.history
                ∙ rw total refl,
          ))

  rand-Moving :
      (read nt : Bool)
      → Moving (2 * region_lines) (call_rand (wanted_rand read nt) lo 256 calls bitmask ∷ [])
  rand-Moving read nt c bytes =
      let t = wanted_transfer read nt in
      let code = sizebw_of t lo 256 calls seed bitmask in
      rw (perform_wanted_rand other seed fuel lo 256 calls bitmask read nt c) (
        Ensures-weaken
          (Chosen (by_lines (access_by t) (flush_by t)) seed lo bitmask 8 (quarters calls * 4)
            (quarters calls * 4) c)
          _ (exec_code fuel code c)
          (sizebw_of-Chosen lo 256 calls seed 0 fuel on_line (omega arith) (omega arith)
            (omega arith) (omega (arith, enough)) (omega arith) (omega (arith, enough)) fits apart t
            c bytes)
          λ d s. (
            s.bytes,
            ap lines_moved s.traced
                ∙ lines_moved-picks (access_by t) (flush_by t) seed lo bitmask 8 (seed_value seed c)
                    (quarters calls * 4) c.history,
          ))

  fence-Moving : (mfences : Bool) → Moving 0 ((if mfences then m_fence else s_fence) ∷ [])
  unfolding perform_all perform exec step lines_moved
  fence-Moving true c bytes = (bytes, omega arith)
  fence-Moving false c bytes = (bytes, omega arith)

  seed_Moving : (value : ℕ) → Moving 0 (step_seed value ∷ [])
  unfolding perform_all perform
  seed_Moving value c bytes = (
    store-StayBytes (u64 seed) 4 (byte_of (rand_r_32 value).seed) c
        (λ b. byte_of-IsBytes (rand_r_32 value).seed) bytes,
    omega arith,
  )

  -- The actions that follow the access size, the seed and the functions.
  job_Moving :
      (value : ℕ) (read nt : Bool)
      → Moving (201 * region_lines) (
          step_seed value
          ∷ call (wanted read nt) lo 256 256 0 calls
          ∷ m_fence
          ∷ times 10 (
              times 10 (
                call_rand (wanted_rand read nt) lo 256 calls bitmask
                ∷ (if read then m_fence else s_fence)
                ∷ [])))
  job_Moving value read nt = rw (zero-add (201 * region_lines)) at (
      Runs-append other seed fuel AllBytes MovedLines MovedLines-refl MovedLines-trans 0
        (201 * region_lines) (step_seed value ∷ []) _ (seed_Moving value)
        (Runs-job other seed fuel AllBytes MovedLines MovedLines-refl MovedLines-trans _ _ _
          region_lines (2 * region_lines) (warm-Moving read nt) (fence-Moving true)
          (rand-Moving read nt) (fence-Moving read)))

  -- The job that the drivers give a thread, on the processor.
  size_bwjob-Moving :
      (start core j unset : ℕ) (read nt : Bool)
      → lo ≡ start + j * perthread_workset
      → Moving
          (201 * region_lines)
          (size_bwjob
            (some unset)
            (bw_thread Launch.size_bwjob 256 start read nt core j).ctx).actions
  unfolding size_bwjob
  size_bwjob-Moving start core j unset true nt e = rw (sym e) (job_Moving unset true nt)
  size_bwjob-Moving start core j unset false true e = rw (sym e) (job_Moving unset false true)
  size_bwjob-Moving start core j unset false false e = rw (sym e) (job_Moving unset false false)

-- Thread `j` of a random bandwidth run on up to 48 threads, with the access size 256 that `main`
-- gives it, over memory from the start of a line on (and 512 bytes more in the address space), with a
-- processor of bytes, and a seed whose eight bytes lie clear of the thread's 2 GiB and of the 512
-- bytes after them, where reading the unset seed gives a value: the thread is there, and its job, with fuel
-- for 2 ^ 23 rounds a loop, returns on the processor, and moves 201 times the lines of 2 GiB.
pub benchmark_bw_random-Moved :
    (n start j fuel seed unset : ℕ) (read nt : Bool) (other : Action → Cpu → Outcome Cpu) (c : Cpu)
    → n ≤ 48
    → j < n
    → start % 64 ≡ 0
    → start + n * perthread_workset + 512 ≤ 2 ^ 64
    → calls ≤ fuel
    → (u64 seed + 8 ≤ start + j * perthread_workset)
      ⊎ (start + j * perthread_workset + perthread_workset + 512 ≤ u64 seed)
    → AllBytes c
    → (ts : List Thread) × (t : Thread) × (benchmark_bw_random n 256 start read nt ≡ some ts)
      × (get_elem? ts j ≡ some t)
      × Ensures
          (λ d. AllBytes d × MovedLines (201 * (perthread_workset / 64)) c d)
          (perform_all other seed fuel (size_bwjob (some unset) t.ctx).actions c)
unfolding benchmark_bw_random
benchmark_bw_random-Moved n start j fuel seed unset read nt other c few lt on_line fits enough apart
      bytes =
    let make = bw_thread Launch.size_bwjob 256 start read nt in
    let (ts, e, s) = start_threads-Started make 0 n (omega arith) in
    let (core, _, f) = s.each j lt in
    let at_j : 0 + j ≡ j = omega arith in
    let lo = start + j * perthread_workset in
    (
      ts,
      make core j,
      e,
      rw at_j at f,
      size_bwjob-Moving other seed fuel lo (omega (arith, on_line)) (omega arith) enough apart start
          core j unset read nt refl c bytes,
    )
