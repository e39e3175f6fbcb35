-- ===== src/Memaccess/MappedKernels.antt =====
-- stride_ssd_mmap_load and stride_ssd_mmap_store of microbenchmarks/memaccess.cc: pages of a mapped
-- block device.
use database_benchmarking_op.Prelude.{
  ℕ, suc, ◌+◌, ◌*◌, ◌%◌, ◌^◌, ◌≤◌, ◌<◌, none, List, ◌≡◌, refl, sym, ap, ◌∙◌, arith, Bool, true,
  false, if◌then◌else◌,
}
use native.Mathlib.Nat.{suc-mul, mul_assoc}
use database_benchmarking_op.Machine.{Cpu, Access, nt_read, write, Event, u64, Code, exec_code}
use database_benchmarking_op.Exec.Ensures.{Ensures, Ensures-weaken}
use database_benchmarking_op.Latency.Coverage.{inside, touches}
use database_benchmarking_op.Memaccess.Blocks.{by_lines}
use database_benchmarking_op.Memaccess.Regular.{sizebtld_4096-block, sizebtst_4096-block}
use database_benchmarking_op.Memaccess.Mapped.{stride_ssd_mmap_load, stride_ssd_mmap_store}
use database_benchmarking_op.Memaccess.Strides.{strides, Strode, times_for}
use database_benchmarking_op.Memaccess.StrideLoop.{loading-Strode, storing-Strode, mul-mod_64}
use database_benchmarking_op.Memaccess.StrideTouches.{touches-strides}

abbrev pub mapped_kernel : (store : Bool) → ℕ → ℕ → ℕ → ℕ → ℕ → Code
mapped_kernel store = if store then stride_ssd_mmap_store else stride_ssd_mmap_load

abbrev pub mapped_access : (store : Bool) → Access
mapped_access store = if store then write else nt_read

mapped_traced :
    (store : Bool) (start size offset fd count p fuel : ℕ) (c : Cpu)
    → size ≡ suc p * 4096
    → size < 2 ^ 62
    → 0 < count
    → count < 2 ^ 63
    → start % 64 ≡ 0
    → size % 64 ≡ 0
    → suc p ≤ fuel
    → count ≤ fuel
    → Ensures
        (Strode
          (u64 (times_for count * size))
          (times_for count)
          (strides
            (by_lines (mapped_access store) none)
            start
            size
            (suc p * 64)
            (times_for count)
            c.history)
          c)
        (exec_code fuel (mapped_kernel store start size offset fd count) c)
unfolding stride_ssd_mmap_load stride_ssd_mmap_store
mapped_traced false start size offset fd count p fuel c full small pos small_count start_at on_line
      enough enough_count =
    let one_more : suc p * 4096 ≡ p * 4096 + 4096 = suc-mul p 4096 in
    rw sizebtld_4096-block (
      loading-Strode nt_read none 64 start size size 0 count p fuel (omega arith) (omega arith)
        (omega arith) (omega arith) enough (omega arith) small_count (omega arith) start_at on_line
        c)
mapped_traced true start size offset fd count p fuel c full small pos small_count start_at on_line
      enough enough_count =
    let one_more : suc p * 4096 ≡ p * 4096 + 4096 = suc-mul p 4096 in
    rw sizebtst_4096-block (
      storing-Strode write none 64 start size size 0 count p fuel (omega arith) (omega arith)
        (omega arith) (omega arith) enough (omega arith) small_count (omega arith) start_at on_line
        c)

-- The function that loads, and the one that stores, from the start of a line on, with a size of whole
-- pages of 4096 bytes (below 2 ^ 62), a count above 0 and below 2 ^ 63, bytes that do not run past the
-- end of the address space, and fuel for the rounds of each loop: it makes `count` strides side by side,
-- each of all its lines in order. It takes no notice of the offset and of the descriptor, does not fault, and touches each of the bytes
-- once more and no other.
pub mapped_kernel-touches :
    (store : Bool) (start size offset fd count p fuel : ℕ) (c : Cpu)
    → size ≡ suc p * 4096
    → size < 2 ^ 62
    → 0 < count
    → count < 2 ^ 63
    → start % 64 ≡ 0
    → start + count * size ≤ 2 ^ 64
    → suc p ≤ fuel
    → count ≤ fuel
    → Ensures
        (λ d.
          (d.history
            ≡ strides (by_lines (mapped_access store) none) start size (suc p * 64) count c.history)
          × ((x : ℕ) → touches d.history x ≡ inside start (count * size) x + touches c.history x))
        (exec_code fuel (mapped_kernel store start size offset fd count) c)
mapped_kernel-touches store start size offset fd count p fuel c full small pos small_count start_at
      fits enough enough_count =
    let k = mapped_access store in
    let lines = suc p * 64 in
    let whole : size ≡ lines * 64 = full ∙ sym (mul_assoc (suc p) 64 64) in
    let on_line : size % 64 ≡ 0 = ap (λ (a : ℕ). a % 64) whole ∙ mul-mod_64 lines 64 refl in
    let n : times_for count ≡ count = omega arith in
    Ensures-weaken
      (Strode (u64 (times_for count * size)) (times_for count)
        (strides (by_lines k none) start size lines (times_for count) c.history) c)
      _ _
      (mapped_traced store start size offset fd count p fuel c full small pos small_count start_at
        on_line enough enough_count)
      λ d s.
        let trace : d.history ≡ strides (by_lines k none) start size lines count c.history =
          s.traced ∙ ap (λ (i : ℕ). strides (by_lines k none) start size lines i c.history) n in
        (
          trace,
          λ x.
              ap (λ (h : List Event). touches h x) trace
              ∙ rw whole (
                  touches-strides k none start lines count x c.history (rw whole at fits)
                    (omega arith)),
        )
