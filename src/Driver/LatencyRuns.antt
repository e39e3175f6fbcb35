-- ===== src/Driver/LatencyRuns.antt =====
-- What the latency tests of microbenchmarks/run_thread.cc return.
use database_benchmarking_op.Prelude.{
  ℕ, zero, suc, ◌+◌, ◌-◌, ◌*◌, ◌/◌, ◌%◌, ◌^◌, ◌≤◌, ◌<◌, bit_and, List, [], ◌∷◌, Bool, true, false,
  length, get_elem?, some, ◌≡◌, refl, ◌∙◌, arith, if◌then◌else◌, lt→ltb, le→ltb, ◌⊎◌, inl, inr,
}
use native.Mathlib.Decide.{dec_lt}
use database_benchmarking_op.Bits.{and_above, and_mask}
use database_benchmarking_op.Machine.{Cpu, Event, Outcome, done, ◌>>=◌, u64}
use database_benchmarking_op.Exec.Ensures.{Ensures, Ensures-bind}
use database_benchmarking_op.Latency.Macros.{Kernel, call}
use database_benchmarking_op.Latency.Tables.{bytes64, bench_func}
use database_benchmarking_op.Latency.Spec.{
  LatencyOp, load_fence, store_clwb, ntstore_fence, timed_spec,
}
use database_benchmarking_op.Latency.Shape.{entry}
use database_benchmarking_op.Latency.Correct.{Called, line_history, call_line-Called}
use database_benchmarking_op.Driver.Config.{WorkerCtx, latency_ops_count}
use database_benchmarking_op.Driver.Launch.{select_op, benchmark_lat_seq, benchmark_lat_random}
use database_benchmarking_op.Driver.LatencyJobs.{
  random_offset, seq_loop, random_loop, seq_lat_timed, random_lat_timed, int_of_char,
}

-- The ticks between readings number `reads` and `reads + 1`, between the next two, and so on, each as
-- `result` keeps it.
abbrev pub intervals : {A : Type 0} → (result : ℕ → A) → (ℕ → ℕ) → ℕ → ℕ → List A
intervals result clock reads zero = []
intervals result clock reads (suc n) =
    result ((u64 (clock (reads + 1)) + 2 ^ 64 - u64 (clock reads)) % 2 ^ 64)
    ∷ intervals result clock (reads + 2) n

-- The history after calls of a 64-byte kernel, one for each of the addresses, from the history before.
unfoldable pub calls_history :
    LatencyOp → (clock : ℕ → ℕ) → (reads : ℕ) → List ℕ → List Event → List Event
calls_history op clock reads [] h = h
calls_history op clock reads (a ∷ addresses) h =
    calls_history op clock (reads + 2) addresses
      (line_history op a (u64 (clock reads)) (u64 (clock (reads + 1))) h)

-- `n` lines one after the other.
unfoldable pub line_by_line : (buf n : ℕ) → List ℕ
line_by_line buf zero = []
line_by_line buf (suc n) = buf ∷ line_by_line (u64 (buf + 64)) n

-- The same lines, each with the offset that a byte of `loc` gives added.
unfoldable pub scattered : (buf : ℕ) → List ℕ → (n : ℕ) → List ℕ
scattered buf loc zero = []
scattered buf [] (suc n) = []
scattered buf (l ∷ loc) (suc n) = u64 (buf + random_offset l) ∷ scattered (u64 (buf + 64)) loc n

-- The results are those of `n` intervals, and the history is that of calls of `op` at the addresses.
abbrev pub Timings :
    {A : Type 0} → (result : ℕ → A) → LatencyOp → List ℕ → ℕ → Cpu → List A × Cpu → Type 0
Timings result op addresses n c (rs, d) =
    (rs ≡ intervals result c.clock c.reads n)
    × (d.history ≡ calls_history op c.clock c.reads addresses c.history)
    × (d.clock ≡ c.clock)
    × (d.reads ≡ c.reads + n * 2)

then_intervals :
    {A : Type 0} (result : ℕ → A) (op : LatencyOp) (a : ℕ) (addresses : List ℕ) (n : ℕ) (c d : Cpu)
    (r : ℕ) (o : Outcome (List A × Cpu))
    → Called (timed_spec op bytes64 a) (line_history op a) c (r, d)
    → Ensures (Timings result op addresses n d) o
    → Ensures
        (Timings result op (a ∷ addresses) (suc n) c)
        (o >>= λ (rest, e). done (result r ∷ rest, e))
unfolding calls_history
then_intervals result op a addresses n c d r o (made, (took, _, clocks, reads)) h =
    Ensures-bind (Timings result op addresses n d) (Timings result op (a ∷ addresses) (suc n) c) o _
      h
      λ (rest, e) (same, left, kept, count). (
        rw (took, same, clocks, reads) refl,
        rw (clocks, reads, made) at left,
        kept ∙ clocks,
        omega (arith, count, reads),
      )

seq_loop-Timings :
    {A : Type 0} (divided : ℕ → A) (op : LatencyOp) (buf n : ℕ) (c : Cpu)
    → buf % 64 ≡ 0
    → Ensures
        (Timings divided op (line_by_line buf n) n c)
        (seq_loop divided (entry op bytes64) buf n c)
unfolding seq_loop line_by_line calls_history
seq_loop-Timings divided op buf zero c m = (refl, refl, refl, omega arith)
seq_loop-Timings divided op buf (suc n) c m =
    let next = u64 (buf + 64) in
    Ensures-bind (Called (timed_spec op bytes64 buf) (line_history op buf) c)
      (Timings divided op (buf ∷ line_by_line next n) (suc n) c) (call (entry op bytes64 buf) c) _
      (call_line-Called op buf c m)
      λ (r, d) h.
        then_intervals divided op buf (line_by_line next n) n c d r _ h
          (seq_loop-Timings divided op next n d (omega arith))

random_offset_lem : (l : ℕ) → random_offset l ≡ bit_and (int_of_char l / 64) 0xFFFFFF * 64
random_offset_lem l = and_above 6 (int_of_char l) 0xFFFFFF

random_loop-Timings :
    {A : Type 0} (divided : ℕ → A) (truncated : A → ℕ) (op : LatencyOp) (buf : ℕ) (loc : List ℕ)
    (n : ℕ) (c : Cpu)
    → buf % 64 ≡ 0
    → n ≤ length loc
    → Ensures
        (Timings (λ t. truncated (divided t)) op (scattered buf loc n) n c)
        (random_loop divided truncated (entry op bytes64) buf loc n c)
unfolding random_loop scattered calls_history
random_loop-Timings divided truncated op buf loc zero c m enough = (refl, refl, refl, omega arith)
random_loop-Timings divided truncated op buf [] (suc n) c m enough = absurd (omega arith)
random_loop-Timings divided truncated op buf (l ∷ loc) (suc n) c m enough =
    let at = u64 (buf + random_offset l) in
    let next = u64 (buf + 64) in
    let aligned : at % 64 ≡ 0 = omega (arith, random_offset_lem l) in
    let result : ℕ → ℕ = λ t. truncated (divided t) in
    Ensures-bind (Called (timed_spec op bytes64 at) (line_history op at) c)
      (Timings result op (at ∷ scattered next loc n) (suc n) c) (call (entry op bytes64 at) c) _
      (call_line-Called op at c aligned)
      λ (r, d) h.
        then_intervals result op at (scattered next loc n) n c d r _ h
          (random_loop-Timings divided truncated op next loc n d (omega arith) (omega arith))

-- The byte offsets that the random latency test adds to its moving base are four: the index is a
-- signed char, of which the mask leaves two bits and the sign.
pub random_offset_few :
    (l : ℕ)
    → l < 256
    → (random_offset l ≡ 0)
      ⊎ (random_offset l ≡ 64)
      ⊎ (random_offset l ≡ 0x3FFFFF80)
      ⊎ (random_offset l ≡ 0x3FFFFFC0)
random_offset_few l byte = elim (dec_lt l 128) [
  | yes low ↦
      let whole : int_of_char l ≡ l = rw (lt→ltb l 128 low) refl in
      let kept : bit_and (l / 64) 0xFFFFFF ≡ l / 64 = and_mask 24 (l / 64) (omega arith) in
      let same : random_offset l ≡ l / 64 * 64 = random_offset_lem l ∙ rw (whole, kept) refl in
      elim (dec_lt l 64) [ yes first ↦ inl (omega arith) | no second ↦ inr (inl (omega arith)) ]
  | no high ↦
      let extended : int_of_char l ≡ 4294967040 + l = rw (le→ltb l 128 (omega arith)) refl in
      let lem : random_offset l ≡ bit_and ((4294967040 + l) / 64) 0xFFFFFF * 64 =
        random_offset_lem l ∙ rw extended refl in
      elim (dec_lt l 192) [
        | yes first ↦
            let third : (4294967040 + l) / 64 ≡ 67108862 = omega arith in
            inr (inr (inl (lem ∙ rw third refl)))
        | no second ↦
            let fourth : (4294967040 + l) / 64 ≡ 67108863 = omega arith in
            inr (inr (inr (lem ∙ rw fourth refl)))
      ]
]

-- What the latency test measures for what is asked: bench_func has the write that is flushed at 1 and
-- the non-temporal one at 2.
abbrev pub measured_op : Bool → Bool → LatencyOp
measured_op read nt = if read then load_fence else if nt then store_clwb else ntstore_fence

pub selected :
    (read nt : Bool)
    → get_elem? bench_func (select_op read nt) ≡ some (entry (measured_op read nt) bytes64)
unfolding bench_func entry
selected true nt = refl
selected false true = refl
selected false false = refl

module _ {A : Type 0} (divided : ℕ → A) where
  seq_lat_timed-some :
      (ctx : WorkerCtx) (f : ℕ → Kernel) (c : Cpu)
      → get_elem? bench_func ctx.op ≡ some f
      → seq_lat_timed divided ctx c ≡ seq_loop divided f ctx.addr latency_ops_count c
  unfolding seq_lat_timed
  seq_lat_timed-some ctx f c e = rw (e, seq_lat_timed) refl

  random_lat_timed-some :
      (truncated : A → ℕ) (ctx : WorkerCtx) (f : ℕ → Kernel) (loc : List ℕ) (c : Cpu)
      → get_elem? bench_func ctx.op ≡ some f
      → ctx.loc ≡ some loc
      → random_lat_timed divided truncated ctx c
        ≡ random_loop divided truncated f ctx.addr loc latency_ops_count c
  unfolding random_lat_timed
  random_lat_timed-some truncated ctx f loc c e given = rw (e, given, random_lat_timed) refl

-- The sequential latency test after its warm-up.
pub benchmark_lat_seq-Timings :
    {A : Type 0} (divided : ℕ → A) (start : ℕ) (read nt : Bool) (c : Cpu)
    → start % 64 ≡ 0
    → Ensures
        (Timings divided
          (measured_op read nt)
          (line_by_line start latency_ops_count)
          latency_ops_count
          c)
        (seq_lat_timed divided (benchmark_lat_seq start read nt).ctx c)
unfolding benchmark_lat_seq
benchmark_lat_seq-Timings divided start read nt c m =
    let ctx = (benchmark_lat_seq start read nt).ctx in
    let f = entry (measured_op read nt) bytes64 in
    rw (seq_lat_timed-some divided ctx f c (selected read nt))
      (seq_loop-Timings divided (measured_op read nt) start latency_ops_count c m)

-- The random latency test after its warm-up.
pub benchmark_lat_random-Timings :
    {A : Type 0} (divided : ℕ → A) (truncated : A → ℕ) (start : ℕ) (read nt : Bool) (loc : List ℕ)
    (c : Cpu)
    → start % 64 ≡ 0
    → latency_ops_count ≤ length loc
    → Ensures
        (Timings
          (λ t. truncated (divided t))
          (measured_op read nt)
          (scattered start loc latency_ops_count)
          latency_ops_count
          c)
        (random_lat_timed divided truncated (benchmark_lat_random start read nt loc).ctx c)
unfolding benchmark_lat_random
benchmark_lat_random-Timings divided truncated start read nt loc c m enough =
    let ctx = (benchmark_lat_random start read nt loc).ctx in
    let f = entry (measured_op read nt) bytes64 in
    rw (random_lat_timed-some divided truncated ctx f loc c (selected read nt) refl) (
      random_loop-Timings divided truncated (measured_op read nt) start loc latency_ops_count c m
        enough)
