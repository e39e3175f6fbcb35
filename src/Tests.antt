-- ===== src/Tests.antt =====
-- Runs of the program's parts on concrete inputs, and the theorems at such inputs.
mod Inputs
mod Kernels
mod Loops
mod Pointers
mod Runs
