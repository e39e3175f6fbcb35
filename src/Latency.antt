-- ===== src/Latency.antt =====
-- The latency kernels of microbenchmarks/common.hpp: the macros that they are written with, the
-- kernels by their access size, and the tables of tasks.
pub mod Macros
pub mod Timing
pub mod Tables
pub mod Tasks
pub mod Spec
pub mod Shape
pub mod Correct
pub mod Coverage
pub mod Persistence
pub mod Size64
pub mod Size128
pub mod Size256
pub mod Size256Movq
pub mod Repeat
pub mod Repeated
pub mod Names
pub mod Clobbers
