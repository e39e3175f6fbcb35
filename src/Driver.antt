-- ===== src/Driver.antt =====
-- The benchmark program: the settings of microbenchmarks/utils.hpp, the worker threads' jobs of
-- microbenchmarks/run_thread.cc, and the launching of workers and `main` of
-- microbenchmarks/benchmark.cc.
pub mod Config
pub mod Jobs
pub mod Launch
pub mod Program
pub mod Regions
pub mod Start
pub mod Rounds
pub mod Synced
pub mod Perform
pub mod Runs
pub mod Sweeps
pub mod Volumes
pub mod WarmUp
pub mod LatencyJobs
pub mod LatencyRuns
pub mod SsdRegion
pub mod Interleaved
pub mod Races
pub mod Persisted
