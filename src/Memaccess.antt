-- ===== src/Memaccess.antt =====
-- The loops of microbenchmarks/memaccess.cc, and the macros of microbenchmarks/memaccess.hpp that they
-- are unrolled by.
pub mod Base
pub mod NonTemporal
pub mod StoreFlush
pub mod Store
pub mod Load
pub mod Stride
pub mod Files
pub mod Mapped
pub mod ReadAfterWrite
pub mod Sizebw
pub mod Seq
pub mod Probe
pub mod Probes
pub mod ProbeRounds
pub mod Cachefence
pub mod FenceBlock
pub mod FenceSteps
pub mod FenceLoop
pub mod FenceWritten
pub mod FenceSections
pub mod ChasingLoops
pub mod Blocks
pub mod Pieces
pub mod Strides
pub mod Picks
pub mod RandomLoop
pub mod SizebwKernels
pub mod Volume
pub mod RawKernel
pub mod MappedKernels
pub mod Regular
pub mod StrideTouches
pub mod Written
pub mod StrideLoop
pub mod StrideKernels
pub mod Chase
pub mod ChaseLoad
pub mod ChaseStore
pub mod ChaseStoreLine
pub mod SeqKernels
pub mod SeqLoop
pub mod ChaseTouches
pub mod Linking
