-- ===== src/Tests/Loops.antt =====
-- Examples of the loops of microbenchmarks/memaccess.cc.
use database_benchmarking_op.Prelude.{ℕ, ◌+◌, ◌*◌, ◌∷◌, true, none, some, ◌≡◌, inl, refl, arith}
use database_benchmarking_op.Exec.Ensures.{Ensures}
use database_benchmarking_op.Latency.Coverage.{inside, touches}
use database_benchmarking_op.Latency.Persistence.{is_flushed}
use database_benchmarking_op.Random.Lfsr.{bitmask}
use database_benchmarking_op.Machine.{u64, exec_code}
use database_benchmarking_op.Memaccess.Blocks.{by_lines}
use database_benchmarking_op.Memaccess.Strides.{strides, repeated, Strode, times_for}
use database_benchmarking_op.Memaccess.StrideKernels.{
  bench_store_flush, bench_store, access_of, flush_of, unroll_of, kernel_of, kernel_of-strides,
}
use database_benchmarking_op.Memaccess.StrideTouches.{kernel_of-touches}
use database_benchmarking_op.Machine.{clflush, mfence, write, nt_write, fenced}
use database_benchmarking_op.Memaccess.SeqKernels.{seq_of, strided_for, seq_of-kernel_of}
use database_benchmarking_op.Memaccess.Probe.{cacheprobe, imcprobe}
use database_benchmarking_op.Memaccess.Probes.{cacheprobe-strides, imcprobe-strides}
use database_benchmarking_op.Memaccess.Cachefence.{cachefence}
use database_benchmarking_op.Memaccess.FenceSections.{section_events}
use database_benchmarking_op.Memaccess.FenceWritten.{cachefence-is_flushed}
use database_benchmarking_op.Memaccess.RandomLoop.{Chosen, quarters}
use database_benchmarking_op.Memaccess.SizebwKernels.{sizebw_of, sizebw_of-Chosen}
use database_benchmarking_op.Memaccess.Regular.{flushing, access_by, flush_by}
use database_benchmarking_op.Memaccess.MappedKernels.{
  mapped_kernel, mapped_kernel-touches, mapped_access,
}
use database_benchmarking_op.Memaccess.ReadAfterWrite.{stride_read_after_write}
use database_benchmarking_op.Memaccess.RawKernel.{raw_events, stride_read_after_write-Strode}
use database_benchmarking_op.Memaccess.Files.{
  stride_ssd_mmap_store_no_drain, side_by_side, stride_ssd_mmap_store_no_drain-side_by_side,
}
use database_benchmarking_op.Tests.Inputs.{cpu, cpu-AllBytes}

kernel_of-strides_example :
    Ensures
      (Strode
        (u64 (times_for 3 * 1024))
        (times_for 3)
        (strides
          (by_lines (access_of bench_store_flush) (flush_of bench_store_flush))
          4096
          1024
          (2 * unroll_of bench_store_flush)
          (times_for 3)
          cpu.history)
        cpu)
      (exec_code 10 (kernel_of bench_store_flush 4096 300 1024 7 3) cpu)
kernel_of-strides_example =
    kernel_of-strides 4096 300 1024 7 3 1 10 (omega arith) (omega arith) (omega arith) (omega arith)
      (omega arith) (omega arith) refl refl bench_store_flush cpu (omega arith) (omega arith)

kernel_of-touches_example :
    Ensures
      (λ d. (x : ℕ) → touches d.history x ≡ inside 4096 (3 * 128) x + touches cpu.history x)
      (exec_code 10 (kernel_of bench_store 4096 128 128 0 3) cpu)
kernel_of-touches_example =
    kernel_of-touches bench_store 4096 128 3 1 10 cpu refl (omega arith) (omega arith) (omega arith)
      refl (omega arith) (omega arith) (omega arith)

sizebw_of-Chosen_example :
    Ensures
      (Chosen
        (by_lines (access_by flushing) (flush_by flushing))
        64
        4096
        bitmask
        (1 * 8)
        (quarters 6 * 4)
        (quarters 6 * 4)
        cpu)
      (exec_code 10 (sizebw_of flushing 4096 256 6 64 bitmask) cpu)
sizebw_of-Chosen_example =
    sizebw_of-Chosen 4096 256 6 64 0 10 refl (omega arith) (omega arith) (omega arith) (omega arith)
      (omega arith) (omega arith) (omega arith) (inl (omega arith)) flushing cpu cpu-AllBytes

mapped_kernel-touches_example :
    Ensures
      (λ d.
        (d.history ≡ strides (by_lines (mapped_access true) none) 4096 8192 (2 * 64) 3 cpu.history)
        × ((x : ℕ) → touches d.history x ≡ inside 4096 (3 * 8192) x + touches cpu.history x))
      (exec_code 10 (mapped_kernel true 4096 8192 0 5 3) cpu)
mapped_kernel-touches_example =
    mapped_kernel-touches true 4096 8192 0 5 3 1 10 cpu refl (omega arith) (omega arith)
      (omega arith) refl (omega arith) (omega arith) (omega arith)

stride_read_after_write-Strode_example :
    Ensures
      (Strode
        (u64 (times_for 3 * 256))
        (times_for 3)
        (repeated (raw_events (2 * 1)) 4096 256 (times_for 3) cpu.history)
        cpu)
      (exec_code 10 (stride_read_after_write 4096 100 256 5 3) cpu)
stride_read_after_write-Strode_example =
    stride_read_after_write-Strode 4096 100 256 5 3 1 10 (omega arith) (omega arith) (omega arith)
      (omega arith) (omega arith) (omega arith) cpu (omega arith) (omega arith) refl refl

stride_ssd_mmap_store_no_drain-side_by_side_example :
    stride_ssd_mmap_store_no_drain 10 100 4096 256 0 7 3 ≡ some (side_by_side 256 4096 100 0 3)
stride_ssd_mmap_store_no_drain-side_by_side_example =
    stride_ssd_mmap_store_no_drain-side_by_side 10 100 4096 256 0 7 3 (omega arith) (omega arith)
      (omega arith) (omega arith) (omega arith)

seq_of-kernel_of_example :
    Ensures
      (λ d.
        Ensures
          (λ e. d.history ≡ e.history)
          (exec_code 10 (kernel_of (strided_for bench_store) 4096 512 512 0 3) cpu))
      (exec_code 10 (seq_of bench_store 4096 (4096 + 3 * 512) 512) cpu)
seq_of-kernel_of_example =
    seq_of-kernel_of bench_store 1 4096 512 3 10 cpu refl (omega arith) (omega arith) (omega arith)
      refl (omega arith) (omega arith) (omega arith)

cacheprobe-strides_example :
    Ensures
      (λ d.
        d.history
        ≡ fenced mfence ∷ strides (by_lines write (some clflush)) 4096 128 2 3 cpu.history)
      (exec_code 10 (cacheprobe 4096 4400 128) cpu)
cacheprobe-strides_example =
    cacheprobe-strides 4096 4400 128 2 10 cpu (omega arith) (omega arith) (omega arith)
      (omega arith) refl refl

imcprobe-strides_example :
    Ensures
      (λ d. d.history ≡ strides (by_lines nt_write none) 4096 0 4 3 cpu.history)
      (exec_code 10 (imcprobe 4096 4352 3) cpu)
imcprobe-strides_example =
    imcprobe-strides 4096 4352 3 3 10 cpu (omega arith) (omega arith) (omega arith) (omega arith)
      (omega arith) (omega arith) (omega arith) refl

cachefence-is_flushed_example :
    Ensures
      (λ d.
        (d.history ≡ repeated (section_events 2 3) 4096 (3 * (2 * 64)) 2 cpu.history)
        × (is_flushed 70 d.history ≡ true))
      (exec_code 10 (cachefence 4096 768 128 384) cpu)
cachefence-is_flushed_example =
    cachefence-is_flushed 4096 768 128 384 1 2 1 10 70 cpu (omega arith) (omega arith) (omega arith)
      (omega arith) (omega arith) (omega arith) (omega arith) (omega arith) (omega arith)
      (omega arith) refl (omega arith) (omega arith)
