-- ===== src/Memaccess/Store.antt =====
-- The SIZEBTST macros of microbenchmarks/memaccess.hpp: stores, unrolled.
use database_benchmarking_op.Prelude.{List, [], ◌∷◌}
use database_benchmarking_op.Machine.{Instr, vmovdqa_store, add, imm, r10}
use database_benchmarking_op.Memaccess.Base.{line_at}

unfoldable pub sizebtst_64_avx512 : List Instr
sizebtst_64_avx512 = vmovdqa_store 64 0 (line_at 0x0) ∷ add (imm 0x40) r10 ∷ []

unfoldable pub sizebtst_128_avx512 : List Instr
sizebtst_128_avx512 =
    vmovdqa_store 64 0 (line_at 0x0) ∷ vmovdqa_store 64 0 (line_at 0x40) ∷ add (imm 0x80) r10 ∷ []

unfoldable pub sizebtst_256_avx512 : List Instr
sizebtst_256_avx512 =
    vmovdqa_store 64 0 (line_at 0x0)
    ∷ vmovdqa_store 64 0 (line_at 0x40)
    ∷ vmovdqa_store 64 0 (line_at 0x80)
    ∷ vmovdqa_store 64 0 (line_at 0xc0)
    ∷ add (imm 0x100) r10
    ∷ []

unfoldable pub sizebtst_512_avx512 : List Instr
sizebtst_512_avx512 =
    vmovdqa_store 64 0 (line_at 0x0)
    ∷ vmovdqa_store 64 0 (line_at 0x40)
    ∷ vmovdqa_store 64 0 (line_at 0x80)
    ∷ vmovdqa_store 64 0 (line_at 0xc0)
    ∷ vmovdqa_store 64 0 (line_at 0x100)
    ∷ vmovdqa_store 64 0 (line_at 0x140)
    ∷ vmovdqa_store 64 0 (line_at 0x180)
    ∷ vmovdqa_store 64 0 (line_at 0x1c0)
    ∷ add (imm 0x200) r10
    ∷ []

unfoldable pub sizebtst_1024_avx512 : List Instr
sizebtst_1024_avx512 =
    vmovdqa_store 64 0 (line_at 0x0)
    ∷ vmovdqa_store 64 0 (line_at 0x40)
    ∷ vmovdqa_store 64 0 (line_at 0x80)
    ∷ vmovdqa_store 64 0 (line_at 0xc0)
    ∷ vmovdqa_store 64 0 (line_at 0x100)
    ∷ vmovdqa_store 64 0 (line_at 0x140)
    ∷ vmovdqa_store 64 0 (line_at 0x180)
    ∷ vmovdqa_store 64 0 (line_at 0x1c0)
    ∷ vmovdqa_store 64 0 (line_at 0x200)
    ∷ vmovdqa_store 64 0 (line_at 0x240)
    ∷ vmovdqa_store 64 0 (line_at 0x280)
    ∷ vmovdqa_store 64 0 (line_at 0x2c0)
    ∷ vmovdqa_store 64 0 (line_at 0x300)
    ∷ vmovdqa_store 64 0 (line_at 0x340)
    ∷ vmovdqa_store 64 0 (line_at 0x380)
    ∷ vmovdqa_store 64 0 (line_at 0x3c0)
    ∷ add (imm 0x400) r10
    ∷ []

unfoldable pub sizebtst_4096_avx512 : List Instr
sizebtst_4096_avx512 =
    vmovdqa_store 64 0 (line_at 0x0)
    ∷ vmovdqa_store 64 0 (line_at 0x40)
    ∷ vmovdqa_store 64 0 (line_at 0x80)
    ∷ vmovdqa_store 64 0 (line_at 0xc0)
    ∷ vmovdqa_store 64 0 (line_at 0x100)
    ∷ vmovdqa_store 64 0 (line_at 0x140)
    ∷ vmovdqa_store 64 0 (line_at 0x180)
    ∷ vmovdqa_store 64 0 (line_at 0x1c0)
    ∷ vmovdqa_store 64 0 (line_at 0x200)
    ∷ vmovdqa_store 64 0 (line_at 0x240)
    ∷ vmovdqa_store 64 0 (line_at 0x280)
    ∷ vmovdqa_store 64 0 (line_at 0x2c0)
    ∷ vmovdqa_store 64 0 (line_at 0x300)
    ∷ vmovdqa_store 64 0 (line_at 0x340)
    ∷ vmovdqa_store 64 0 (line_at 0x380)
    ∷ vmovdqa_store 64 0 (line_at 0x3c0)
    ∷ vmovdqa_store 64 0 (line_at 0x400)
    ∷ vmovdqa_store 64 0 (line_at 0x440)
    ∷ vmovdqa_store 64 0 (line_at 0x480)
    ∷ vmovdqa_store 64 0 (line_at 0x4c0)
    ∷ vmovdqa_store 64 0 (line_at 0x500)
    ∷ vmovdqa_store 64 0 (line_at 0x540)
    ∷ vmovdqa_store 64 0 (line_at 0x580)
    ∷ vmovdqa_store 64 0 (line_at 0x5c0)
    ∷ vmovdqa_store 64 0 (line_at 0x600)
    ∷ vmovdqa_store 64 0 (line_at 0x640)
    ∷ vmovdqa_store 64 0 (line_at 0x680)
    ∷ vmovdqa_store 64 0 (line_at 0x6c0)
    ∷ vmovdqa_store 64 0 (line_at 0x700)
    ∷ vmovdqa_store 64 0 (line_at 0x740)
    ∷ vmovdqa_store 64 0 (line_at 0x780)
    ∷ vmovdqa_store 64 0 (line_at 0x7c0)
    ∷ vmovdqa_store 64 0 (line_at 0x800)
    ∷ vmovdqa_store 64 0 (line_at 0x840)
    ∷ vmovdqa_store 64 0 (line_at 0x880)
    ∷ vmovdqa_store 64 0 (line_at 0x8c0)
    ∷ vmovdqa_store 64 0 (line_at 0x900)
    ∷ vmovdqa_store 64 0 (line_at 0x940)
    ∷ vmovdqa_store 64 0 (line_at 0x980)
    ∷ vmovdqa_store 64 0 (line_at 0x9c0)
    ∷ vmovdqa_store 64 0 (line_at 0xa00)
    ∷ vmovdqa_store 64 0 (line_at 0xa40)
    ∷ vmovdqa_store 64 0 (line_at 0xa80)
    ∷ vmovdqa_store 64 0 (line_at 0xac0)
    ∷ vmovdqa_store 64 0 (line_at 0xb00)
    ∷ vmovdqa_store 64 0 (line_at 0xb40)
    ∷ vmovdqa_store 64 0 (line_at 0xb80)
    ∷ vmovdqa_store 64 0 (line_at 0xbc0)
    ∷ vmovdqa_store 64 0 (line_at 0xc00)
    ∷ vmovdqa_store 64 0 (line_at 0xc40)
    ∷ vmovdqa_store 64 0 (line_at 0xc80)
    ∷ vmovdqa_store 64 0 (line_at 0xcc0)
    ∷ vmovdqa_store 64 0 (line_at 0xd00)
    ∷ vmovdqa_store 64 0 (line_at 0xd40)
    ∷ vmovdqa_store 64 0 (line_at 0xd80)
    ∷ vmovdqa_store 64 0 (line_at 0xdc0)
    ∷ vmovdqa_store 64 0 (line_at 0xe00)
    ∷ vmovdqa_store 64 0 (line_at 0xe40)
    ∷ vmovdqa_store 64 0 (line_at 0xe80)
    ∷ vmovdqa_store 64 0 (line_at 0xec0)
    ∷ vmovdqa_store 64 0 (line_at 0xf00)
    ∷ vmovdqa_store 64 0 (line_at 0xf40)
    ∷ vmovdqa_store 64 0 (line_at 0xf80)
    ∷ vmovdqa_store 64 0 (line_at 0xfc0)
    ∷ add (imm 0x1000) r10
    ∷ []
