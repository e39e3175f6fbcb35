-- ===== src/Memaccess/Base.antt =====
-- The address that the macros of microbenchmarks/memaccess.hpp access.
use database_benchmarking_op.Prelude.{ℕ}
use database_benchmarking_op.Machine.{Address, indexed, reg, r9, r10}

-- d(%%r9, %%r10)
abbrev pub line_at : ℕ → Address
line_at d = indexed d (reg r9) (reg r10)
