-- ===== src/Latency/Clobbers.antt =====
-- What the kernels of microbenchmarks/common.hpp declare that they overwrite, and what they do.
use database_benchmarking_op.Prelude.{
  ℕ, ◌%◌, List, [], ◌∷◌, Bool, true, false, false≢true, ◌||◌, ◌==◌, ◌≡◌, refl,
}
use database_benchmarking_op.Machine.{Cpu, exec}
use database_benchmarking_op.Exec.Ensures.{Ensures}
use database_benchmarking_op.Exec.Vectors.{
  OnDone-bind, Ensures-OnDone, Keeps, all_targets, exec-Keeps,
}
use database_benchmarking_op.Latency.Macros.{Clobber, gpr, ymm, registers, registers_nonsse, call}
use database_benchmarking_op.Latency.Tables.{AccessSize, bytes64, bytes128, bytes256}
use database_benchmarking_op.Latency.Spec.{LatencyOp, load_fence, ntload_fence, timed_spec}
use database_benchmarking_op.Latency.Shape.{entry, kernel_text}
use database_benchmarking_op.Latency.Correct.{Measures, call-Measures}

-- Whether ymm `v` is among the registers that a statement declares.
abbrev pub is_declared : List Clobber → ℕ → Bool
is_declared [] v = false
is_declared (gpr r ∷ cs) v = is_declared cs v
is_declared (ymm i ∷ cs) v = (i == v) || is_declared cs v

-- The operations other than the two that load into vector registers.
abbrev pub is_covered : LatencyOp → Bool
is_covered load_fence = false
is_covered ntload_fence = false
is_covered _ = true

covered : LatencyOp → AccessSize → ℕ → Bool
unfolding kernel_text registers registers_nonsse
covered op size addr =
    all_targets (is_declared (kernel_text op size addr).clobbers) (kernel_text op size addr).asm

entry-covered :
    (op : LatencyOp) (size : AccessSize) (addr : ℕ)
    → is_covered op ≡ true
    → all_targets (is_declared (entry op size addr).clobbers) (entry op size addr).asm ≡ true
unfolding kernel_text registers registers_nonsse covered
entry-covered load_fence size addr h = absurd (false≢true h)
entry-covered ntload_fence size addr h = absurd (false≢true h)
entry-covered LatencyOp.store_fence bytes64 addr h = refl
entry-covered op bytes64 addr h = refl
entry-covered LatencyOp.store_fence bytes128 addr h = refl
entry-covered op bytes128 addr h = refl
entry-covered LatencyOp.store_fence bytes256 addr h = refl
entry-covered op bytes256 addr h = refl

-- A storing kernel, or one that loads by words, leaves every vector register as it was that its statement does
-- not declare as overwritten; at a line-aligned address, where a call does not fault.
pub call-Keeps :
    (op : LatencyOp) (size : AccessSize) (addr v : ℕ) (c : Cpu)
    → is_covered op ≡ true
    → is_declared (entry op size addr).clobbers v ≡ false
    → addr % 64 ≡ 0
    → Ensures (λ (r, d). d.vec v ≡ c.vec v) (call (entry op size addr) c)
unfolding call
call-Keeps op size addr v c fits other m =
    let k = entry op size addr in
    let fresh : Cpu = record c { t1 = 0; t2 = 0 } in
    Ensures-OnDone (Measures (timed_spec op size addr) c) _ (call k c)
      (call-Measures op size addr c m)
      (OnDone-bind (Keeps v fresh) _ (exec k.asm fresh) _
        (exec-Keeps (is_declared k.clobbers) k.asm v fresh (entry-covered op size addr fits) other)
        λ d same. same)
