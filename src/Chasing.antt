-- ===== src/Chasing.antt =====
-- Pointer chasing: init_chasing_index of microbenchmarks/memaccess.cc, which lays out the index that the
-- chasing loops follow.
pub mod Index
pub mod Cycle
pub mod Covers
