-- ===== src/Memaccess/Load.antt =====
-- The SIZEBTLD macros of microbenchmarks/memaccess.hpp: non-temporal loads, unrolled.
use database_benchmarking_op.Prelude.{List, [], ◌∷◌}
use database_benchmarking_op.Machine.{Instr, vmovntdqa, add, imm, r10}
use database_benchmarking_op.Memaccess.Base.{line_at}

unfoldable pub sizebtld_64_avx512 : List Instr
sizebtld_64_avx512 = vmovntdqa 64 (line_at 0x0) 0 ∷ add (imm 0x40) r10 ∷ []

unfoldable pub sizebtld_128_avx512 : List Instr
sizebtld_128_avx512 =
    vmovntdqa 64 (line_at 0x0) 0 ∷ vmovntdqa 64 (line_at 0x40) 1 ∷ add (imm 0x80) r10 ∷ []

unfoldable pub sizebtld_256_avx512 : List Instr
sizebtld_256_avx512 =
    vmovntdqa 64 (line_at 0x0) 0
    ∷ vmovntdqa 64 (line_at 0x40) 1
    ∷ vmovntdqa 64 (line_at 0x80) 2
    ∷ vmovntdqa 64 (line_at 0xc0) 3
    ∷ add (imm 0x100) r10
    ∷ []

unfoldable pub sizebtld_512_avx512 : List Instr
sizebtld_512_avx512 =
    vmovntdqa 64 (line_at 0x0) 0
    ∷ vmovntdqa 64 (line_at 0x40) 1
    ∷ vmovntdqa 64 (line_at 0x80) 2
    ∷ vmovntdqa 64 (line_at 0xc0) 3
    ∷ vmovntdqa 64 (line_at 0x100) 4
    ∷ vmovntdqa 64 (line_at 0x140) 5
    ∷ vmovntdqa 64 (line_at 0x180) 6
    ∷ vmovntdqa 64 (line_at 0x1c0) 7
    ∷ add (imm 0x200) r10
    ∷ []

unfoldable pub sizebtld_1024_avx512 : List Instr
sizebtld_1024_avx512 =
    vmovntdqa 64 (line_at 0x0) 0
    ∷ vmovntdqa 64 (line_at 0x40) 1
    ∷ vmovntdqa 64 (line_at 0x80) 2
    ∷ vmovntdqa 64 (line_at 0xc0) 3
    ∷ vmovntdqa 64 (line_at 0x100) 4
    ∷ vmovntdqa 64 (line_at 0x140) 5
    ∷ vmovntdqa 64 (line_at 0x180) 6
    ∷ vmovntdqa 64 (line_at 0x1c0) 7
    ∷ vmovntdqa 64 (line_at 0x200) 8
    ∷ vmovntdqa 64 (line_at 0x240) 9
    ∷ vmovntdqa 64 (line_at 0x280) 10
    ∷ vmovntdqa 64 (line_at 0x2c0) 11
    ∷ vmovntdqa 64 (line_at 0x300) 12
    ∷ vmovntdqa 64 (line_at 0x340) 13
    ∷ vmovntdqa 64 (line_at 0x380) 14
    ∷ vmovntdqa 64 (line_at 0x3c0) 15
    ∷ add (imm 0x400) r10
    ∷ []

unfoldable pub sizebtld_4096_avx512 : List Instr
sizebtld_4096_avx512 =
    vmovntdqa 64 (line_at 0x0) 0
    ∷ vmovntdqa 64 (line_at 0x40) 1
    ∷ vmovntdqa 64 (line_at 0x80) 2
    ∷ vmovntdqa 64 (line_at 0xc0) 3
    ∷ vmovntdqa 64 (line_at 0x100) 4
    ∷ vmovntdqa 64 (line_at 0x140) 5
    ∷ vmovntdqa 64 (line_at 0x180) 6
    ∷ vmovntdqa 64 (line_at 0x1c0) 7
    ∷ vmovntdqa 64 (line_at 0x200) 8
    ∷ vmovntdqa 64 (line_at 0x240) 9
    ∷ vmovntdqa 64 (line_at 0x280) 10
    ∷ vmovntdqa 64 (line_at 0x2c0) 11
    ∷ vmovntdqa 64 (line_at 0x300) 12
    ∷ vmovntdqa 64 (line_at 0x340) 13
    ∷ vmovntdqa 64 (line_at 0x380) 14
    ∷ vmovntdqa 64 (line_at 0x3c0) 15
    ∷ vmovntdqa 64 (line_at 0x400) 16
    ∷ vmovntdqa 64 (line_at 0x440) 17
    ∷ vmovntdqa 64 (line_at 0x480) 18
    ∷ vmovntdqa 64 (line_at 0x4c0) 19
    ∷ vmovntdqa 64 (line_at 0x500) 20
    ∷ vmovntdqa 64 (line_at 0x540) 21
    ∷ vmovntdqa 64 (line_at 0x580) 22
    ∷ vmovntdqa 64 (line_at 0x5c0) 23
    ∷ vmovntdqa 64 (line_at 0x600) 24
    ∷ vmovntdqa 64 (line_at 0x640) 25
    ∷ vmovntdqa 64 (line_at 0x680) 26
    ∷ vmovntdqa 64 (line_at 0x6c0) 27
    ∷ vmovntdqa 64 (line_at 0x700) 28
    ∷ vmovntdqa 64 (line_at 0x740) 29
    ∷ vmovntdqa 64 (line_at 0x780) 30
    ∷ vmovntdqa 64 (line_at 0x7c0) 31
    ∷ vmovntdqa 64 (line_at 0x800) 0
    ∷ vmovntdqa 64 (line_at 0x840) 1
    ∷ vmovntdqa 64 (line_at 0x880) 2
    ∷ vmovntdqa 64 (line_at 0x8c0) 3
    ∷ vmovntdqa 64 (line_at 0x900) 4
    ∷ vmovntdqa 64 (line_at 0x940) 5
    ∷ vmovntdqa 64 (line_at 0x980) 6
    ∷ vmovntdqa 64 (line_at 0x9c0) 7
    ∷ vmovntdqa 64 (line_at 0xa00) 8
    ∷ vmovntdqa 64 (line_at 0xa40) 9
    ∷ vmovntdqa 64 (line_at 0xa80) 10
    ∷ vmovntdqa 64 (line_at 0xac0) 11
    ∷ vmovntdqa 64 (line_at 0xb00) 12
    ∷ vmovntdqa 64 (line_at 0xb40) 13
    ∷ vmovntdqa 64 (line_at 0xb80) 14
    ∷ vmovntdqa 64 (line_at 0xbc0) 15
    ∷ vmovntdqa 64 (line_at 0xc00) 16
    ∷ vmovntdqa 64 (line_at 0xc40) 17
    ∷ vmovntdqa 64 (line_at 0xc80) 18
    ∷ vmovntdqa 64 (line_at 0xcc0) 19
    ∷ vmovntdqa 64 (line_at 0xd00) 20
    ∷ vmovntdqa 64 (line_at 0xd40) 21
    ∷ vmovntdqa 64 (line_at 0xd80) 22
    ∷ vmovntdqa 64 (line_at 0xdc0) 23
    ∷ vmovntdqa 64 (line_at 0xe00) 24
    ∷ vmovntdqa 64 (line_at 0xe40) 25
    ∷ vmovntdqa 64 (line_at 0xe80) 26
    ∷ vmovntdqa 64 (line_at 0xec0) 27
    ∷ vmovntdqa 64 (line_at 0xf00) 28
    ∷ vmovntdqa 64 (line_at 0xf40) 29
    ∷ vmovntdqa 64 (line_at 0xf80) 30
    ∷ vmovntdqa 64 (line_at 0xfc0) 31
    ∷ add (imm 0x1000) r10
    ∷ []
