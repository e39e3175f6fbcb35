-- ===== src/Memaccess/Regular.antt =====
-- The macros of microbenchmarks/memaccess.hpp by what they move and how much, and what they do.
use database_benchmarking_op.Prelude.{ℕ, ◌+◌, ◌*◌, ◌%◌, List, Option, none, some, ◌≡◌, refl}
use database_benchmarking_op.Machine.{
  FlushOp, clwb, Instr, Cpu, Access, nt_read, write, nt_write, u64, exec,
}
use database_benchmarking_op.Exec.Ensures.{Ensures}
use database_benchmarking_op.Exec.Lines.{text}
use database_benchmarking_op.Latency.Spec.{line_events}
use database_benchmarking_op.Memaccess.Blocks.{by_lines, block, Moved, exec-block}
use database_benchmarking_op.Memaccess.Load.{
  sizebtld_64_avx512, sizebtld_128_avx512, sizebtld_256_avx512, sizebtld_512_avx512,
  sizebtld_1024_avx512, sizebtld_4096_avx512,
}
use database_benchmarking_op.Memaccess.NonTemporal.{
  sizebtnt_64_avx512, sizebtnt_128_avx512, sizebtnt_256_avx512, sizebtnt_512_avx512,
  sizebtnt_1024_avx512, sizebtnt_4096_avx512,
}
use database_benchmarking_op.Memaccess.Store.{
  sizebtst_64_avx512, sizebtst_128_avx512, sizebtst_256_avx512, sizebtst_512_avx512,
  sizebtst_1024_avx512, sizebtst_4096_avx512,
}
use database_benchmarking_op.Memaccess.StoreFlush.{
  sizebtstflush_64_avx512, sizebtstflush_128_avx512, sizebtstflush_256_avx512,
  sizebtstflush_512_avx512, sizebtstflush_1024_avx512,
}

-- SIZEBTLD, SIZEBTNT, SIZEBTST and SIZEBTSTFLUSH
pub data Transfer : Type 0 where
  loading nt_storing storing flushing : Transfer

pub data BlockSize : Type 0 where
  bytes64 bytes128 bytes256 bytes512 bytes1024 : BlockSize

abbrev pub access_by : Transfer → Access
access_by loading = nt_read
access_by nt_storing = nt_write
access_by storing = write
access_by flushing = write

abbrev pub flush_by : Transfer → Option FlushOp
flush_by flushing = some clwb
flush_by t = none

abbrev pub lines_in : BlockSize → ℕ
lines_in bytes64 = 1
lines_in bytes128 = 2
lines_in bytes256 = 4
lines_in bytes512 = 8
lines_in bytes1024 = 16

abbrev pub macro : Transfer → BlockSize → List Instr
macro loading bytes64 = sizebtld_64_avx512
macro loading bytes128 = sizebtld_128_avx512
macro loading bytes256 = sizebtld_256_avx512
macro loading bytes512 = sizebtld_512_avx512
macro loading bytes1024 = sizebtld_1024_avx512
macro nt_storing bytes64 = sizebtnt_64_avx512
macro nt_storing bytes128 = sizebtnt_128_avx512
macro nt_storing bytes256 = sizebtnt_256_avx512
macro nt_storing bytes512 = sizebtnt_512_avx512
macro nt_storing bytes1024 = sizebtnt_1024_avx512
macro storing bytes64 = sizebtst_64_avx512
macro storing bytes128 = sizebtst_128_avx512
macro storing bytes256 = sizebtst_256_avx512
macro storing bytes512 = sizebtst_512_avx512
macro storing bytes1024 = sizebtst_1024_avx512
macro flushing bytes64 = sizebtstflush_64_avx512
macro flushing bytes128 = sizebtstflush_128_avx512
macro flushing bytes256 = sizebtstflush_256_avx512
macro flushing bytes512 = sizebtstflush_512_avx512
macro flushing bytes1024 = sizebtstflush_1024_avx512

pub macro-block :
    (t : Transfer) (s : BlockSize) → macro t s ≡ block (access_by t) (flush_by t) (lines_in s)
unfolding text sizebtld_64_avx512 sizebtld_128_avx512 sizebtld_256_avx512 sizebtld_512_avx512
    sizebtld_1024_avx512 sizebtnt_64_avx512 sizebtnt_128_avx512 sizebtnt_256_avx512
    sizebtnt_512_avx512 sizebtnt_1024_avx512 sizebtst_64_avx512 sizebtst_128_avx512
    sizebtst_256_avx512 sizebtst_512_avx512 sizebtst_1024_avx512 sizebtstflush_64_avx512
    sizebtstflush_128_avx512 sizebtstflush_256_avx512 sizebtstflush_512_avx512
    sizebtstflush_1024_avx512
macro-block loading bytes64 = refl
macro-block loading bytes128 = refl
macro-block loading bytes256 = refl
macro-block loading bytes512 = refl
macro-block loading bytes1024 = refl
macro-block nt_storing bytes64 = refl
macro-block nt_storing bytes128 = refl
macro-block nt_storing bytes256 = refl
macro-block nt_storing bytes512 = refl
macro-block nt_storing bytes1024 = refl
macro-block storing bytes64 = refl
macro-block storing bytes128 = refl
macro-block storing bytes256 = refl
macro-block storing bytes512 = refl
macro-block storing bytes1024 = refl
macro-block flushing bytes64 = refl
macro-block flushing bytes128 = refl
macro-block flushing bytes256 = refl
macro-block flushing bytes512 = refl
macro-block flushing bytes1024 = refl

pub sizebtld_4096-block : sizebtld_4096_avx512 ≡ block nt_read none 64
unfolding text sizebtld_4096_avx512
sizebtld_4096-block = refl

pub sizebtnt_4096-block : sizebtnt_4096_avx512 ≡ block nt_write none 64
unfolding text sizebtnt_4096_avx512
sizebtnt_4096-block = refl

pub sizebtst_4096-block : sizebtst_4096_avx512 ≡ block write none 64
unfolding text sizebtst_4096_avx512
sizebtst_4096-block = refl

-- Each of the twenty macros, from 64 to 1024 bytes, at an address on a cache line: it accesses its
-- lines one after the other from r9 + r10 on, each followed by its write-back in a SIZEBTSTFLUSH, adds
-- its size to r10, and keeps the registers that the loops count with.
pub macro-Moved :
    (t : Transfer) (s : BlockSize) (c : Cpu)
    → (c.r9 + c.r10) % 64 ≡ 0
    → Ensures
        (Moved
          (u64 (c.r10 + lines_in s * 64))
          (line_events (by_lines (access_by t) (flush_by t)) (c.r9 + c.r10) (lines_in s) c.history)
          c)
        (exec (macro t s) c)
macro-Moved t s c m = rw (macro-block t s) (exec-block (access_by t) (flush_by t) (lines_in s) c m)
