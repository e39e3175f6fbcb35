-- ===== src/Random.antt =====
-- The pseudo-random generators: RandLFSR64 of microbenchmarks/memaccess.cc, which picks the offsets of
-- the random-access kernels, and rand_r_32 of microbenchmarks/run_thread.cc, which makes their seed.
pub mod Lfsr
pub mod RandR
