-- ===== src/Memaccess/StrideKernels.antt =====
-- The stride_ functions of microbenchmarks/memaccess.cc, each with its macro, and the table of them in
-- microbenchmarks/memaccess.hpp.
use Prim.Native.String.{String}
use database_benchmarking_op.Prelude.{
  ℕ, suc, ◌-◌, ◌*◌, ◌%◌, ◌^◌, ◌≤◌, ◌<◌, List, [], ◌∷◌, Bool, true, get_elem?, Option, none, some,
  ◌≡◌, refl, arith, if◌then◌else◌,
}
use database_benchmarking_op.Machine.{
  clwb, FlushOp, Cpu, Access, nt_read, write, nt_write, Code, exec_code, u64,
}
use database_benchmarking_op.Exec.Ensures.{Ensures}
use database_benchmarking_op.Memaccess.Blocks.{by_lines}
use database_benchmarking_op.Memaccess.Stride.{
  stride_load, stride_nt, stride_store, stride_storeclwb,
}
use database_benchmarking_op.Memaccess.Regular.{
  loading, nt_storing, storing, flushing, bytes64, bytes256, macro-block,
}
use database_benchmarking_op.Memaccess.Strides.{strides, Strode, times_for}
use database_benchmarking_op.Memaccess.StrideLoop.{loading-Strode, storing-Strode}

-- enum bench_size_tasks, with AEP_SUPPORTED
pub data StridedOp : Type 0 where
  bench_load bench_store_nt bench_store bench_store_flush : StridedOp

abbrev pub bench_size_map : (aep_supported : Bool) → List String
bench_size_map aep_supported =
    "load" ∷ "non-temporal" ∷ "store" ∷ (if aep_supported then "store-flush" ∷ [] else [])

unfoldable pub lfs_stride_bw : (aep_supported : Bool) → List (ℕ → ℕ → ℕ → ℕ → ℕ → Code)
lfs_stride_bw aep_supported =
    stride_load ∷ stride_nt ∷ stride_store ∷ (if aep_supported then stride_storeclwb ∷ [] else [])

-- The value of an enumerator.
abbrev pub task_of : StridedOp → ℕ
task_of bench_load = 0
task_of bench_store_nt = 1
task_of bench_store = 2
task_of bench_store_flush = 3

abbrev pub kernel_of : StridedOp → ℕ → ℕ → ℕ → ℕ → ℕ → Code
kernel_of bench_load = stride_load
kernel_of bench_store_nt = stride_nt
kernel_of bench_store = stride_store
kernel_of bench_store_flush = stride_storeclwb

-- What is asked of it: the access, the flush after each line, and the lines that a round accesses.
abbrev pub access_of : StridedOp → Access
access_of bench_load = nt_read
access_of bench_store_nt = nt_write
access_of bench_store = write
access_of bench_store_flush = write

abbrev pub flush_of : StridedOp → Option FlushOp
flush_of bench_store_flush = some clwb
flush_of op = none

abbrev pub unroll_of : StridedOp → ℕ
unroll_of bench_store = 1
unroll_of op = 4

module _ (start size skip delay count p fuel : ℕ) (small : size < 2 ^ 62)
    (small_delay : delay < 2 ^ 63) (enough : suc p ≤ fuel) (enough_delay : suc (delay - 1) ≤ fuel)
    (small_count : count < 2 ^ 63) (enough_count : times_for count ≤ fuel)
    (start_aligned : start % 64 ≡ 0) (skip_aligned : skip % 64 ≡ 0) where
  -- Each of the four functions, from the start of a line on, with a skip of whole lines, a size below
  -- 2 ^ 62, a delay and a count below 2 ^ 63, and fuel for the rounds of each of its loops, makes
  -- `count` strides, one at least, `skip` bytes apart. In each it accesses in order the lines that its rounds of 64 or 256 bytes take to reach `size` bytes; a
  -- store-flush writes each line back. It does not fault and it ends.
  pub kernel_of-strides :
      (op : StridedOp) (c : Cpu)
      → p * (unroll_of op * 64) < size
      → size ≤ suc p * (unroll_of op * 64)
      → Ensures
          (Strode
            (u64 (times_for count * skip))
            (times_for count)
            (strides
              (by_lines (access_of op) (flush_of op))
              start
              skip
              (suc p * unroll_of op)
              (times_for count)
              c.history)
            c)
          (exec_code fuel (kernel_of op start size skip delay count) c)
  unfolding stride_load stride_nt stride_store stride_storeclwb
  kernel_of-strides bench_load c short long = rw (macro-block loading bytes256) (
      loading-Strode nt_read none 4 start size skip delay count p fuel short long (omega arith)
        small_delay enough enough_delay small_count enough_count start_aligned skip_aligned c)
  kernel_of-strides bench_store_nt c short long = rw (macro-block nt_storing bytes256) (
      storing-Strode nt_write none 4 start size skip delay count p fuel short long (omega arith)
        small_delay enough enough_delay small_count enough_count start_aligned skip_aligned c)
  kernel_of-strides bench_store c short long = rw (macro-block storing bytes64) (
      storing-Strode write none 1 start size skip delay count p fuel short long (omega arith)
        small_delay enough enough_delay small_count enough_count start_aligned skip_aligned c)
  kernel_of-strides bench_store_flush c short long = rw (macro-block flushing bytes256) (
      storing-Strode write (some clwb) 4 start size skip delay count p fuel short long (omega arith)
        small_delay enough enough_delay small_count enough_count start_aligned skip_aligned c)

-- The table has at the place of each enumerator the function that it stands for.
lfs_stride_bw-kernel_of :
    (op : StridedOp) → get_elem? (lfs_stride_bw true) (task_of op) ≡ some (kernel_of op)
unfolding lfs_stride_bw
lfs_stride_bw-kernel_of bench_load = refl
lfs_stride_bw-kernel_of bench_store_nt = refl
lfs_stride_bw-kernel_of bench_store = refl
lfs_stride_bw-kernel_of bench_store_flush = refl
