-- ===== src/Machine.antt =====
-- The part of x86-64 that the inline assembly of microbenchmarks/ uses: the instructions as data
-- (`Isa`), the processor's state (`State`), what each instruction does to it (`Step`), and loops (`Loops`).
mod Isa
mod State
mod Step
mod Loops
pub use Isa.*
unfoldable pub use State.*
unfoldable pub use Step.*
unfoldable pub use Loops.*
