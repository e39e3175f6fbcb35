-- ===== src/Memaccess/SeqKernels.antt =====
-- The seq_ functions of microbenchmarks/memaccess.cc, and the table of them in
-- microbenchmarks/memaccess.hpp.
use database_benchmarking_op.Prelude.{
  ℕ, suc, ◌+◌, ◌-◌, ◌*◌, ◌%◌, ◌^◌, ◌≤◌, ◌<◌, List, [], ◌∷◌, Bool, true, get_elem?, Option, none,
  some, ◌≡◌, refl, sym, ap, ◌∙◌, arith, if◌then◌else◌,
}
use native.Mathlib.Nat.{suc-mul}
use database_benchmarking_op.Machine.{
  clwb, FlushOp, Cpu, nt_read, write, nt_write, Code, exec_code, u64,
}
use database_benchmarking_op.Exec.Ensures.{Ensures, Ensures-weaken}
use database_benchmarking_op.Exec.Lines.{text}
use database_benchmarking_op.Latency.Spec.{Style}
use database_benchmarking_op.Memaccess.Blocks.{by_lines}
use database_benchmarking_op.Memaccess.Seq.{seq_load, seq_store, seq_clwb, seq_nt}
use database_benchmarking_op.Memaccess.SeqLoop.{seq_load_run, seq_store_run}
use database_benchmarking_op.Memaccess.Strides.{strides, Strode, times_for}
use database_benchmarking_op.Memaccess.StrideKernels.{
  StridedOp, bench_load, bench_store_nt, bench_store, bench_store_flush, task_of, kernel_of,
  access_of, flush_of, unroll_of, kernel_of-strides,
}

unfoldable pub lfs_seq_bw : (aep_supported : Bool) → List (ℕ → ℕ → ℕ → Code)
lfs_seq_bw aep_supported =
    seq_load ∷ seq_nt ∷ seq_store ∷ (if aep_supported then seq_clwb ∷ [] else [])

-- The function for each enumerator, and the flush after each of its lines.
abbrev pub seq_of : StridedOp → ℕ → ℕ → ℕ → Code
seq_of bench_load = seq_load
seq_of bench_store_nt = seq_nt
seq_of bench_store = seq_store
seq_of bench_store_flush = seq_clwb

abbrev pub seq_flush : StridedOp → Option FlushOp
seq_flush bench_store = some clwb
seq_flush bench_store_flush = some clwb
seq_flush op = none

lfs_seq_bw-seq_of : (op : StridedOp) → get_elem? (lfs_seq_bw true) (task_of op) ≡ some (seq_of op)
unfolding lfs_seq_bw
lfs_seq_bw-seq_of bench_load = refl
lfs_seq_bw-seq_of bench_store_nt = refl
lfs_seq_bw-seq_of bench_store = refl
lfs_seq_bw-seq_of bench_store_flush = refl

module _ (p size fuel q start end_addr : ℕ) (short : p * 64 < size) (long : size ≤ suc p * 64)
    (small : size < 2 ^ 62) (enough : suc p ≤ fuel) (before : start + q * size < end_addr)
    (reached : end_addr ≤ start + suc q * size) (range : end_addr + size < 2 ^ 63)
    (passes : suc q ≤ fuel) (start_at : start % 64 ≡ 0) (size_at : size % 64 ≡ 0) where
  abbrev pub SeqPassed : StridedOp → Cpu → Cpu → Type 0
  SeqPassed op c d =
      (d.clock ≡ c.clock)
      × (d.reads ≡ c.reads)
      × (d.history
          ≡ strides (by_lines (access_of op) (seq_flush op)) start size (suc p) (suc q) c.history)

  pub seq_of-Passed :
      (op : StridedOp) (c : Cpu)
      → Ensures (SeqPassed op c) (exec_code fuel (seq_of op start end_addr size) c)
  unfolding seq_load seq_store seq_clwb seq_nt text
  seq_of-Passed bench_load c =
      Ensures-weaken _ (SeqPassed bench_load c) (exec_code fuel (seq_load start end_addr size) c)
        (seq_load_run nt_read none p size fuel short long small enough q start end_addr before
          reached range passes start_at size_at c)
        λ d (at, clock, reads, traced). (clock, reads, traced)
  seq_of-Passed bench_store_nt c =
      Ensures-weaken _ (SeqPassed bench_store_nt c) (exec_code fuel (seq_nt start end_addr size) c)
        (seq_store_run nt_write none p size fuel short long small enough q start end_addr before
          reached range passes start_at size_at c)
        λ d (at, clock, reads, traced). (clock, reads, traced)
  seq_of-Passed bench_store c =
      Ensures-weaken _ (SeqPassed bench_store c) (exec_code fuel (seq_store start end_addr size) c)
        (seq_store_run write (some clwb) p size fuel short long small enough q start end_addr before
          reached range passes start_at size_at c)
        λ d (at, clock, reads, traced). (clock, reads, traced)
  seq_of-Passed bench_store_flush c =
      Ensures-weaken _ (SeqPassed bench_store_flush c)
        (exec_code fuel (seq_clwb start end_addr size) c)
        (seq_store_run write (some clwb) p size fuel short long small enough q start end_addr before
          reached range passes start_at size_at c)
        λ d (at, clock, reads, traced). (clock, reads, traced)

-- The stride_ function that a seq_ function is to be compared with: seq_store writes back too.
abbrev pub strided_for : StridedOp → StridedOp
strided_for bench_store = bench_store_flush
strided_for op = op

strided_for_lem :
    (op : StridedOp)
    → (unroll_of (strided_for op) ≡ 4)
      × (by_lines (access_of (strided_for op)) (flush_of (strided_for op))
          ≡ by_lines (access_of op) (seq_flush op))
strided_for_lem bench_load = (refl, refl)
strided_for_lem bench_store_nt = (refl, refl)
strided_for_lem bench_store = (refl, refl)
strided_for_lem bench_store_flush = (refl, refl)

-- Each of the four seq_ functions over `count` blocks of `size` bytes, and the stride_ function of the
-- same kind (the one that flushes, for seq_store) with a skip of `size` bytes and no delay, from the
-- same state: both end without a fault, and leave the same history, line for line. For a size of whole rounds of
-- 256 bytes and below 2 ^ 62, a count above 0 and below 2 ^ 63, from the start of a line on, with an end that leaves
-- room for a block below 2 ^ 63, and fuel for the rounds of each loop.
pub seq_of-kernel_of :
    (op : StridedOp) (r start size count fuel : ℕ) (c : Cpu)
    → size ≡ suc r * 256
    → size < 2 ^ 62
    → 0 < count
    → count < 2 ^ 63
    → start % 64 ≡ 0
    → start + count * size + size < 2 ^ 63
    → suc r * 4 ≤ fuel
    → count ≤ fuel
    → Ensures
        (λ d.
          Ensures
            (λ e. d.history ≡ e.history)
            (exec_code fuel (kernel_of (strided_for op) start size size 0 count) c))
        (exec_code fuel (seq_of op start (start + count * size) size) c)
seq_of-kernel_of op r start size count fuel c full small pos small_count start_at range enough
      enough_count =
    let lines = suc r * 4 in
    let p : ℕ = r * 4 + 3 in
    let q : ℕ = count - 1 in
    let rounds : suc p ≡ lines = omega arith in
    let turns : suc q ≡ count = omega arith in
    let size_at : size % 64 ≡ 0 = omega arith in
    let ends : suc q * size ≡ count * size = ap (λ (i : ℕ). i * size) turns in
    let up : suc q * size ≡ q * size + size = suc-mul q size in
    let (four, style) = strided_for_lem op in
    let k = strided_for op in
    Ensures-weaken
      (SeqPassed p size fuel q start (start + count * size) (omega arith) (omega arith) small
        (omega arith) (omega arith) (omega arith) range (omega arith) start_at size_at op c)
      _ _
      (seq_of-Passed p size fuel q start (start + count * size) (omega arith) (omega arith) small
        (omega arith) (omega arith) (omega arith) range (omega arith) start_at size_at op c)
      λ d s.
        Ensures-weaken
          (Strode (u64 (times_for count * size)) (times_for count)
            (strides (by_lines (access_of k) (flush_of k)) start size (suc r * unroll_of k)
              (times_for count) c.history)
            c)
          _ _
          (kernel_of-strides start size size 0 count r fuel small (omega arith) (omega arith)
            (omega arith) small_count (omega arith) start_at size_at k c (rw four (omega arith))
            (rw four (omega arith)))
          λ e t.
            let there : e.history
                ≡ strides (by_lines (access_of op) (seq_flush op)) start size lines
                    (times_for count) c.history =
              t.traced
              ∙ ap
                  (λ (u : ℕ).
                    strides (by_lines (access_of k) (flush_of k)) start size (suc r * u)
                      (times_for count) c.history)
                  four
              ∙ ap (λ (y : Style). strides y start size lines (times_for count) c.history) style in
            s.2
            ∙ ap
                (λ (n : ℕ).
                  strides (by_lines (access_of op) (seq_flush op)) start size n (times_for count)
                    c.history)
                rounds
            ∙ sym there
