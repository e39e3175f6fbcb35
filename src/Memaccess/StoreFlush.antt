-- ===== src/Memaccess/StoreFlush.antt =====
-- The SIZEBTSTFLUSH macros of microbenchmarks/memaccess.hpp: stores, each followed by a clwb, unrolled.
use database_benchmarking_op.Prelude.{List, [], ◌∷◌}
use database_benchmarking_op.Machine.{Instr, vmovdqa_store, flush, clwb, add, imm, r10}
use database_benchmarking_op.Memaccess.Base.{line_at}

unfoldable pub sizebtstflush_64_avx512 : List Instr
sizebtstflush_64_avx512 =
    vmovdqa_store 64 0 (line_at 0x0) ∷ flush clwb (line_at 0x0) ∷ add (imm 0x40) r10 ∷ []

unfoldable pub sizebtstflush_128_avx512 : List Instr
sizebtstflush_128_avx512 =
    vmovdqa_store 64 0 (line_at 0x0)
    ∷ flush clwb (line_at 0x0)
    ∷ vmovdqa_store 64 0 (line_at 0x40)
    ∷ flush clwb (line_at 0x40)
    ∷ add (imm 0x80) r10
    ∷ []

unfoldable pub sizebtstflush_256_avx512 : List Instr
sizebtstflush_256_avx512 =
    vmovdqa_store 64 0 (line_at 0x0)
    ∷ flush clwb (line_at 0x0)
    ∷ vmovdqa_store 64 0 (line_at 0x40)
    ∷ flush clwb (line_at 0x40)
    ∷ vmovdqa_store 64 0 (line_at 0x80)
    ∷ flush clwb (line_at 0x80)
    ∷ vmovdqa_store 64 0 (line_at 0xc0)
    ∷ flush clwb (line_at 0xc0)
    ∷ add (imm 0x100) r10
    ∷ []

unfoldable pub sizebtstflush_512_avx512 : List Instr
sizebtstflush_512_avx512 =
    vmovdqa_store 64 0 (line_at 0x0)
    ∷ flush clwb (line_at 0x0)
    ∷ vmovdqa_store 64 0 (line_at 0x40)
    ∷ flush clwb (line_at 0x40)
    ∷ vmovdqa_store 64 0 (line_at 0x80)
    ∷ flush clwb (line_at 0x80)
    ∷ vmovdqa_store 64 0 (line_at 0xc0)
    ∷ flush clwb (line_at 0xc0)
    ∷ vmovdqa_store 64 0 (line_at 0x100)
    ∷ flush clwb (line_at 0x100)
    ∷ vmovdqa_store 64 0 (line_at 0x140)
    ∷ flush clwb (line_at 0x140)
    ∷ vmovdqa_store 64 0 (line_at 0x180)
    ∷ flush clwb (line_at 0x180)
    ∷ vmovdqa_store 64 0 (line_at 0x1c0)
    ∷ flush clwb (line_at 0x1c0)
    ∷ add (imm 0x200) r10
    ∷ []

unfoldable pub sizebtstflush_1024_avx512 : List Instr
sizebtstflush_1024_avx512 =
    vmovdqa_store 64 0 (line_at 0x0)
    ∷ flush clwb (line_at 0x0)
    ∷ vmovdqa_store 64 0 (line_at 0x40)
    ∷ flush clwb (line_at 0x40)
    ∷ vmovdqa_store 64 0 (line_at 0x80)
    ∷ flush clwb (line_at 0x80)
    ∷ vmovdqa_store 64 0 (line_at 0xc0)
    ∷ flush clwb (line_at 0xc0)
    ∷ vmovdqa_store 64 0 (line_at 0x100)
    ∷ flush clwb (line_at 0x100)
    ∷ vmovdqa_store 64 0 (line_at 0x140)
    ∷ flush clwb (line_at 0x140)
    ∷ vmovdqa_store 64 0 (line_at 0x180)
    ∷ flush clwb (line_at 0x180)
    ∷ vmovdqa_store 64 0 (line_at 0x1c0)
    ∷ flush clwb (line_at 0x1c0)
    ∷ vmovdqa_store 64 0 (line_at 0x200)
    ∷ flush clwb (line_at 0x200)
    ∷ vmovdqa_store 64 0 (line_at 0x240)
    ∷ flush clwb (line_at 0x240)
    ∷ vmovdqa_store 64 0 (line_at 0x280)
    ∷ flush clwb (line_at 0x280)
    ∷ vmovdqa_store 64 0 (line_at 0x2c0)
    ∷ flush clwb (line_at 0x2c0)
    ∷ vmovdqa_store 64 0 (line_at 0x300)
    ∷ flush clwb (line_at 0x300)
    ∷ vmovdqa_store 64 0 (line_at 0x340)
    ∷ flush clwb (line_at 0x340)
    ∷ vmovdqa_store 64 0 (line_at 0x380)
    ∷ flush clwb (line_at 0x380)
    ∷ vmovdqa_store 64 0 (line_at 0x3c0)
    ∷ flush clwb (line_at 0x3c0)
    ∷ add (imm 0x400) r10
    ∷ []
