-- ===== src/Driver/Config.antt =====
-- Sizes and settings: microbenchmarks/utils.hpp and the head of microbenchmarks/benchmark.cc.
use database_benchmarking_op.Prelude.{ℕ, ◌^◌, List, [], ◌∷◌, Option}

abbrev pub prethread_bit : ℕ
prethread_bit = 31

abbrev pub perthread_workset : ℕ
perthread_workset = 2 ^ prethread_bit

abbrev pub latency_ops_count : ℕ
latency_ops_count = 1048576

abbrev pub basic_op_mask : ℕ
basic_op_mask = 0x3FFFFFC0

abbrev pub region_size : ℕ
region_size = 58719476736

abbrev pub alignment : ℕ
alignment = 4096

abbrev pub affinity : List ℕ
affinity =
    0 ∷ 2 ∷ 4 ∷ 6 ∷ 8 ∷ 10 ∷ 12 ∷ 14 ∷ 16 ∷ 18 ∷ 20 ∷ 22 ∷ 24 ∷ 26 ∷ 28 ∷ 30 ∷ 32 ∷ 34 ∷ 36 ∷ 38
    ∷ 40 ∷ 42 ∷ 44 ∷ 46 ∷ 48 ∷ 50 ∷ 52 ∷ 54 ∷ 56 ∷ 58 ∷ 60 ∷ 62 ∷ 64 ∷ 66 ∷ 68 ∷ 70 ∷ 72 ∷ 74 ∷ 76
    ∷ 78 ∷ 80 ∷ 82 ∷ 84 ∷ 86 ∷ 88 ∷ 90 ∷ 92 ∷ 94 ∷ []

-- The arguments of a worker thread. `malloc` leaves a field that is not set indeterminate: `none`.
pub record WorkerCtx : Type 0 where
  pub core_id : ℕ
  pub tid : ℕ
  pub addr : ℕ
  pub loc : Option (List ℕ)
  pub access_size : Option ℕ
  pub op : ℕ
  pub fd : Option ℕ
