-- ===== src/Exec.antt =====
-- Reasoning about `Machine.exec`: postconditions, and straight-line code that addresses memory
-- through rsi.
pub mod Ensures
pub mod Straight
pub mod Vectors
pub mod Memory
pub mod Loops
pub mod Counting
pub mod Lines
pub mod Respects
pub mod Frame
pub mod Bytes
