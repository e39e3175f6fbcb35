-- ===== src/Random/RandR.antt =====
-- rand_r_32 of microbenchmarks/run_thread.cc: three steps of a linear congruential generator.
use database_benchmarking_op.Prelude.{
  ℕ, ◌+◌, ◌-◌, ◌*◌, ◌/◌, ◌%◌, ◌^◌, ◌<◌, bit_xor, ◌≡◌, refl, arith,
}

abbrev u32 : ℕ → ℕ
u32 n = n % 2 ^ 32

-- next *= 1103515245; next += 12345;
abbrev pub advance : ℕ → ℕ
advance next = u32 (u32 (next * 1103515245) + 12345)

-- The value returned, an int, and the seed left behind.
pub record Rand : Type 0 where
  pub result : ℕ
  pub seed : ℕ

unfoldable pub rand_r_32 : ℕ → Rand
rand_r_32 seed =
    let next₁ = advance seed in
    let result₁ = next₁ / 65536 % 2048 in
    let next₂ = advance next₁ in
    let result₂ = bit_xor (result₁ * 2 ^ 10) (next₂ / 65536 % 1024) in
    let next₃ = advance next₂ in
    record { result = bit_xor (result₂ * 2 ^ 10) (next₃ / 65536 % 1024); seed = next₃ }

-- The generator run backwards: 4005161829 * 1103515245 is 1 modulo 2 ^ 32.
unfoldable pub unadvance : ℕ → ℕ
unadvance next = u32 (u32 (next + 2 ^ 32 - 12345) * 4005161829)

unfoldable pub unrand : ℕ → ℕ
unrand seed = unadvance (unadvance (unadvance seed))

unadvance-advance : (s : ℕ) → s < 2 ^ 32 → unadvance (advance s) ≡ s
unfolding unadvance
unadvance-advance s h = omega arith

-- The seed left behind determines the seed before: no two seeds run together.
pub unrand-rand_r_32 : (s : ℕ) → s < 2 ^ 32 → unrand (rand_r_32 s).seed ≡ s
unfolding rand_r_32 unrand
unrand-rand_r_32 s h =
    rw
      (
        unadvance-advance (advance (advance s)) (omega arith),
        unadvance-advance (advance s) (omega arith),
        unadvance-advance s h,
      )
      refl
