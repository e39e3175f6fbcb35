-- ===== src/Lib.antt =====
-- The micro-benchmarks of this repository (microbenchmarks/): a program that measures the latency and
-- the bandwidth of DRAM and of persistent memory.
--
-- The parts of the program, and how they fit together. `main` (microbenchmarks/benchmark.cc) reads its
-- settings, maps a file of persistent memory and allocates a DRAM region, and runs one test over each: it
-- starts worker threads (the benchmark_* functions), each with a thread function of
-- microbenchmarks/run_thread.cc and a worker_ctx (microbenchmarks/utils.hpp). A bandwidth job calls
-- functions of microbenchmarks/memaccess.cc by a table, with fences between the calls; a latency job
-- calls the timed functions of microbenchmarks/common.hpp by another table. These last are inline asm,
-- put together from macros.
--
-- The files.
--   Prelude, Prelude/*   names of the library, Boolean tests, lists over the native numbers.
--   Bits, Bits/Digit     and, or and xor of numbers by their binary digits.
--   Machine, Machine/*   the processor as the asm uses it: Isa has the instructions, State the registers,
--                        memory, time-stamp counter and the history of accesses, flushes and fences, Step
--                        what an instruction does (an unaligned vector access faults), Loops code with
--                        do-while loops.
--   Exec, Exec/*         reasoning on programs: Ensures (a program finishes and its result satisfies a
--                        predicate), Straight (straight-line code), Memory (a number stored is read back),
--                        Vectors (registers that stay as they were), Lines (accesses of cache lines),
--                        Loops (an invariant and the number of rounds), Counting (a
--                        loop that counts up in a register), Respects (what every instruction
--                        keeps, all code keeps), Frame (memory not touched is as it was), Bytes.
--   Latency, Latency/*   microbenchmarks/common.hpp: Macros has its macros, Size64, Size128, Size256,
--                        Size256Movq and Repeat its functions, by the names they have there; Tables the
--                        tables of run_thread.cc, Tasks the task lists of common.hpp. Spec says what a function is to do by its name, Shape
--                        takes every function into its parts; Timing, Correct, Names, Repeated, Coverage,
--                        Persistence and Clobbers have the proofs.
--   Random, Random/*     Lfsr: RandLFSR64 of memaccess.cc, and the step it stands for; RandR: rand_r_32 of
--                        run_thread.cc.
--   Memaccess, Memaccess/*
--                        memaccess.hpp and memaccess.cc. Load, NonTemporal, Store and StoreFlush: the
--                        SIZEBT macros; Stride, Mapped, ReadAfterWrite, Sizebw, Seq, Probe, Cachefence and
--                        ChasingLoops: the loops, by the names they have there; Files: the functions that
--                        call the C library or libpmem. Blocks and Regular take the macros as blocks of
--                        lines; Pieces, Strides and StrideLoop have the loops of the stride_ functions,
--                        Picks and RandomLoop those of the sizebw_ functions, SeqLoop those of the seq_
--                        functions, Chase and ChaseStoreLine those of the chasing_ functions, ProbeRounds
--                        those of the probes, FenceSteps, FenceBlock, FenceSections and FenceLoop those
--                        of cachefence; StrideKernels, StrideTouches, Written, SeqKernels, Probes,
--                        FenceWritten, Linking, ChaseLoad, ChaseStore, ChaseTouches, MappedKernels,
--                        RawKernel, SizebwKernels and Volume say what the functions do.
--   Chasing, Chasing/*   get_rand and init_chasing_index of memaccess.cc; Cycle and Covers have the proofs.
--   Driver, Driver/*     Config: utils.hpp and the head of benchmark.cc. Jobs and LatencyJobs: the thread
--                        functions of run_thread.cc, as lists of actions and as runs on the processor.
--                        SsdRegion: mapPersistentSSDRegion and random_ssd_lat.
--                        Launch: the benchmark_* functions. Program: `main`. Perform carries out the
--                        actions of a job on the processor, WarmUp has the latency jobs from their warm-up
--                        call on. Interleaved puts the histories of several threads into one. Regions,
--                        Rounds, Synced, LatencyRuns, Runs, Sweeps, Persisted, Races, Volumes and Start
--                        have the proofs.
--   Tests                the theorems at concrete inputs: Inputs (the processor they start on), Kernels, Loops,
--                        Pointers and Runs (main, jobs, threads).
--
-- How the code is modelled. An asm statement is a list of instructions and `exec` runs it on the state
-- `Cpu`; `call` is the function around it. What the counter reads is a function from the number of the
-- reading, so that any passing of time is allowed for. A field of a malloc'ed worker_ctx that is not
-- set is `none`, and what C leaves undefined ends the model in `undefined` (or `fault`, in a latency
-- test). The answers of the system and of rdrand (pmem_map_file, numa_alloc_onnode, getrandom, pread,
-- pwrite, write, and which of them, msync or fsync succeeds) are parameters, and so is the floating-
-- point division of the latency tests. Reading what the program never sets (access_size in a latency
-- test, the seed of size_bwjob) gives what the parameter `unset` says: some value, or `none`, and then
-- the run is undefined. Numbers are natural, the command line's among them, with `% 2 ^ 64` where a
-- register wraps around; a thread's addresses are not wrapped, as C's pointers into one region are
-- not.
--
-- Fuel. A do-while loop of the asm ends in `spin` when its fuel is spent, and every theorem on such
-- code says how much is enough: as many rounds as the loop that makes most of them, which is what the
-- sizes, the delay and the count come to. The loop of stride_ssd_mmap_store_no_drain needs `count`
-- rounds. The do-while of init_chasing_index draws until it hits a free entry: the model has fuel for
-- each such loop and ends in `running` without. Every other loop counts up to a constant and is
-- recursion on what is left.
--
-- Threads. Each thread runs on a processor state of its own, from any state: what the sequential jobs access
-- does not depend on what memory holds. Interleavings are of the histories that the threads leave.
--
-- Not modelled. Caches, the order in which stores reach memory and the other processors: the history
-- says which flushes and fences were executed, not what the hardware did. Averages and deviations, which
-- are floating point and are printed. A function of memaccess.cc starts with its arguments as the operands
-- of the asm statement: which registers the compiler gives them, and what it keeps in registers that the
-- statement overwrites without saying so, is left out. Of the callers of pread and pwrite,
-- mapPersistentSSDRegion and random_ssd_lat there are the definitions only.
-- The scripts of tpcc/, tpch/, ycsb/ and files/, which hold no C++.
pub mod Prelude
pub mod Bits
pub mod Machine
pub mod Memaccess
pub mod Exec
pub mod Latency
pub mod Random
pub mod Chasing
pub mod Driver
pub mod Tests
