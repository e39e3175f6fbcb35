-- ===== src/Memaccess/NonTemporal.antt =====
-- The SIZEBTNT macros of microbenchmarks/memaccess.hpp: non-temporal stores, unrolled.
use database_benchmarking_op.Prelude.{List, [], ◌∷◌}
use database_benchmarking_op.Machine.{Instr, vmovnt_store, add, imm, r10}
use database_benchmarking_op.Memaccess.Base.{line_at}

unfoldable pub sizebtnt_64_avx512 : List Instr
sizebtnt_64_avx512 = vmovnt_store 64 0 (line_at 0x0) ∷ add (imm 0x40) r10 ∷ []

unfoldable pub sizebtnt_128_avx512 : List Instr
sizebtnt_128_avx512 =
    vmovnt_store 64 0 (line_at 0x0) ∷ vmovnt_store 64 0 (line_at 0x40) ∷ add (imm 0x80) r10 ∷ []

unfoldable pub sizebtnt_256_avx512 : List Instr
sizebtnt_256_avx512 =
    vmovnt_store 64 0 (line_at 0x0)
    ∷ vmovnt_store 64 0 (line_at 0x40)
    ∷ vmovnt_store 64 0 (line_at 0x80)
    ∷ vmovnt_store 64 0 (line_at 0xc0)
    ∷ add (imm 0x100) r10
    ∷ []

unfoldable pub sizebtnt_512_avx512 : List Instr
sizebtnt_512_avx512 =
    vmovnt_store 64 0 (line_at 0x0)
    ∷ vmovnt_store 64 0 (line_at 0x40)
    ∷ vmovnt_store 64 0 (line_at 0x80)
    ∷ vmovnt_store 64 0 (line_at 0xc0)
    ∷ vmovnt_store 64 0 (line_at 0x100)
    ∷ vmovnt_store 64 0 (line_at 0x140)
    ∷ vmovnt_store 64 0 (line_at 0x180)
    ∷ vmovnt_store 64 0 (line_at 0x1c0)
    ∷ add (imm 0x200) r10
    ∷ []

unfoldable pub sizebtnt_1024_avx512 : List Instr
sizebtnt_1024_avx512 =
    vmovnt_store 64 0 (line_at 0x0)
    ∷ vmovnt_store 64 0 (line_at 0x40)
    ∷ vmovnt_store 64 0 (line_at 0x80)
    ∷ vmovnt_store 64 0 (line_at 0xc0)
    ∷ vmovnt_store 64 0 (line_at 0x100)
    ∷ vmovnt_store 64 0 (line_at 0x140)
    ∷ vmovnt_store 64 0 (line_at 0x180)
    ∷ vmovnt_store 64 0 (line_at 0x1c0)
    ∷ vmovnt_store 64 0 (line_at 0x200)
    ∷ vmovnt_store 64 0 (line_at 0x240)
    ∷ vmovnt_store 64 0 (line_at 0x280)
    ∷ vmovnt_store 64 0 (line_at 0x2c0)
    ∷ vmovnt_store 64 0 (line_at 0x300)
    ∷ vmovnt_store 64 0 (line_at 0x340)
    ∷ vmovnt_store 64 0 (line_at 0x380)
    ∷ vmovnt_store 64 0 (line_at 0x3c0)
    ∷ add (imm 0x400) r10
    ∷ []

unfoldable pub sizebtnt_4096_avx512 : List Instr
sizebtnt_4096_avx512 =
    vmovnt_store 64 0 (line_at 0x0)
    ∷ vmovnt_store 64 0 (line_at 0x40)
    ∷ vmovnt_store 64 0 (line_at 0x80)
    ∷ vmovnt_store 64 0 (line_at 0xc0)
    ∷ vmovnt_store 64 0 (line_at 0x100)
    ∷ vmovnt_store 64 0 (line_at 0x140)
    ∷ vmovnt_store 64 0 (line_at 0x180)
    ∷ vmovnt_store 64 0 (line_at 0x1c0)
    ∷ vmovnt_store 64 0 (line_at 0x200)
    ∷ vmovnt_store 64 0 (line_at 0x240)
    ∷ vmovnt_store 64 0 (line_at 0x280)
    ∷ vmovnt_store 64 0 (line_at 0x2c0)
    ∷ vmovnt_store 64 0 (line_at 0x300)
    ∷ vmovnt_store 64 0 (line_at 0x340)
    ∷ vmovnt_store 64 0 (line_at 0x380)
    ∷ vmovnt_store 64 0 (line_at 0x3c0)
    ∷ vmovnt_store 64 0 (line_at 0x400)
    ∷ vmovnt_store 64 0 (line_at 0x440)
    ∷ vmovnt_store 64 0 (line_at 0x480)
    ∷ vmovnt_store 64 0 (line_at 0x4c0)
    ∷ vmovnt_store 64 0 (line_at 0x500)
    ∷ vmovnt_store 64 0 (line_at 0x540)
    ∷ vmovnt_store 64 0 (line_at 0x580)
    ∷ vmovnt_store 64 0 (line_at 0x5c0)
    ∷ vmovnt_store 64 0 (line_at 0x600)
    ∷ vmovnt_store 64 0 (line_at 0x640)
    ∷ vmovnt_store 64 0 (line_at 0x680)
    ∷ vmovnt_store 64 0 (line_at 0x6c0)
    ∷ vmovnt_store 64 0 (line_at 0x700)
    ∷ vmovnt_store 64 0 (line_at 0x740)
    ∷ vmovnt_store 64 0 (line_at 0x780)
    ∷ vmovnt_store 64 0 (line_at 0x7c0)
    ∷ vmovnt_store 64 0 (line_at 0x800)
    ∷ vmovnt_store 64 0 (line_at 0x840)
    ∷ vmovnt_store 64 0 (line_at 0x880)
    ∷ vmovnt_store 64 0 (line_at 0x8c0)
    ∷ vmovnt_store 64 0 (line_at 0x900)
    ∷ vmovnt_store 64 0 (line_at 0x940)
    ∷ vmovnt_store 64 0 (line_at 0x980)
    ∷ vmovnt_store 64 0 (line_at 0x9c0)
    ∷ vmovnt_store 64 0 (line_at 0xa00)
    ∷ vmovnt_store 64 0 (line_at 0xa40)
    ∷ vmovnt_store 64 0 (line_at 0xa80)
    ∷ vmovnt_store 64 0 (line_at 0xac0)
    ∷ vmovnt_store 64 0 (line_at 0xb00)
    ∷ vmovnt_store 64 0 (line_at 0xb40)
    ∷ vmovnt_store 64 0 (line_at 0xb80)
    ∷ vmovnt_store 64 0 (line_at 0xbc0)
    ∷ vmovnt_store 64 0 (line_at 0xc00)
    ∷ vmovnt_store 64 0 (line_at 0xc40)
    ∷ vmovnt_store 64 0 (line_at 0xc80)
    ∷ vmovnt_store 64 0 (line_at 0xcc0)
    ∷ vmovnt_store 64 0 (line_at 0xd00)
    ∷ vmovnt_store 64 0 (line_at 0xd40)
    ∷ vmovnt_store 64 0 (line_at 0xd80)
    ∷ vmovnt_store 64 0 (line_at 0xdc0)
    ∷ vmovnt_store 64 0 (line_at 0xe00)
    ∷ vmovnt_store 64 0 (line_at 0xe40)
    ∷ vmovnt_store 64 0 (line_at 0xe80)
    ∷ vmovnt_store 64 0 (line_at 0xec0)
    ∷ vmovnt_store 64 0 (line_at 0xf00)
    ∷ vmovnt_store 64 0 (line_at 0xf40)
    ∷ vmovnt_store 64 0 (line_at 0xf80)
    ∷ vmovnt_store 64 0 (line_at 0xfc0)
    ∷ add (imm 0x1000) r10
    ∷ []
