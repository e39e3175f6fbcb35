-- ===== src/Random/Lfsr/Laws.antt =====
-- The code of RandLFSR64 takes the step `lfsr`, which loses no 64-bit value, and
-- leaves an aligned offset in r8.
use database_benchmarking_op.Prelude.{
  ℕ, ◌+◌, ◌-◌, ◌*◌, ◌/◌, ◌%◌, ◌^◌, ◌≤◌, ◌<◌, bit_and, bit_xor, ◌≡◌, refl, ap, ◌∙◌, arith, ◌∷◌, ltb,
  ◌==◌, if◌then◌else◌, Bool-cases, ==→eq, inl, inr,
}
use native.Mathlib.Nat.{add-zero}
use database_benchmarking_op.Bits.{
  one_and, xor_zero, xor_top, xor-lt, xor_cancel, and_above, and_comm, and-le,
}
use database_benchmarking_op.Machine.{Cpu, Access, access, le64, load_bytes, u64, step, exec}
use database_benchmarking_op.Exec.Memory.{IsBytes, load-store, le64-lt}
use database_benchmarking_op.Exec.Ensures.{Ensures, Ensures-weaken}
use database_benchmarking_op.Random.Lfsr.{rand_lfsr64, lfsr, feedback, bitmask}
use database_benchmarking_op.Driver.Config.{perthread_workset}

pub lfsr-lt : (s : ℕ) → s < 2 ^ 64 → lfsr s < 2 ^ 64
unfolding lfsr
lfsr-lt s h = ground (arith, xor-lt 64 (s / 2) feedback (omega arith) (omega arith))

-- The highest digit tells whether a 1 fell out.
unfoldable pub unlfsr : ℕ → ℕ
unlfsr n = if ltb n (2 ^ 63) then 2 * n else 2 * bit_xor n feedback + 1

-- `unlfsr` takes a step of the shift register back, so no two 64-bit states step to the same one.
unlfsr-lfsr : (s : ℕ) → s < 2 ^ 64 → unlfsr (lfsr s) ≡ s
unfolding lfsr unlfsr
unlfsr-lfsr s h = ground (
  arith,
  xor_top 63 (s / 2) feedback (omega arith) (omega arith) (omega arith),
  xor_cancel (s / 2) feedback,
)

-- The seed in memory, eight bytes long.
abbrev pub seed_value : ℕ → Cpu → ℕ
seed_value random c = le64 (load_bytes (u64 random) c.mem)

-- neg of the lowest digit is a mask of zeroes or ones.
feedback_step :
    (s : ℕ) → bit_xor (s / 2) (bit_and feedback (u64 (2 ^ 64 - bit_and 1 (s % 2 ^ 32)))) ≡ lfsr s
unfolding lfsr
feedback_step s =
    let digit : bit_and 1 (s % 2 ^ 32) ≡ s % 2 = one_and (s % 2 ^ 32) ∙ omega arith in
    elim (Bool-cases (s % 2 == 1)) [
      | inl odd ↦ let e : s % 2 ≡ 1 = ==→eq (s % 2) 1 odd in rw (digit, odd, e) refl
      | inr even ↦ let e : s % 2 ≡ 0 = ground arith in rw (digit, even, e) (xor_zero (s / 2))
    ]

-- What the code leaves in the registers and in memory: the next state of the register, the offset that
-- the mask takes from it, and the next state again as the seed. What the loops count with is kept.
pub record Stepped (random accessmask : ℕ) (c d : Cpu) : Type 0 where
  pub state : d.r12 ≡ lfsr (seed_value random c)
  pub picked : d.r8 ≡ bit_and accessmask (lfsr (seed_value random c))
  pub saved : seed_value random d ≡ lfsr (seed_value random c)
  pub r11_kept : d.r11 ≡ c.r11
  pub rcx_kept : d.rcx ≡ c.rcx
  pub clock_kept : d.clock ≡ c.clock
  pub reads_kept : d.reads ≡ c.reads
  pub traced :
      d.history ≡ access Access.write (u64 random) 8 ∷ access Access.read (u64 random) 8 ∷ c.history

-- RandLFSR64, with its constant in rcx and a memory of bytes, takes the seed in memory one step of the
-- shift register on, without a fault: the new state is in r12 and in memory, masked in r8. It touches
-- no memory but the seed's, and keeps r11, rcx and the counter's readings.
pub exec-rand_lfsr64 :
    (random accessmask : ℕ) (c : Cpu)
    → IsBytes c.mem
    → c.rcx ≡ feedback
    → Ensures (Stepped random accessmask c) (exec (rand_lfsr64 random accessmask) c)
unfolding exec step rand_lfsr64
exec-rand_lfsr64 random mask c bytes h =
    let s = seed_value random c in
    let small : lfsr s < 2 ^ 64 = lfsr-lt s (le64-lt c.mem (u64 random) bytes) in
    rw (add-zero random, h, feedback_step s)
      (record {
        state = refl;
        picked = refl;
        saved = load-store (u64 random) (lfsr s) c.mem small;
        r11_kept = refl;
        rcx_kept = refl;
        clock_kept = refl;
        reads_kept = refl;
        traced = refl;
      })

-- The same code loses no state: `unlfsr` of the seed that it leaves in memory is the seed that it found.
pub unlfsr-rand_lfsr64 :
    (random accessmask : ℕ) (c : Cpu)
    → IsBytes c.mem
    → c.rcx ≡ feedback
    → Ensures
        (λ d. unlfsr (seed_value random d) ≡ seed_value random c)
        (exec (rand_lfsr64 random accessmask) c)
unlfsr-rand_lfsr64 random mask c bytes h =
    Ensures-weaken (Stepped random mask c) (λ d. unlfsr (seed_value random d) ≡ seed_value random c)
      (exec (rand_lfsr64 random mask) c) (exec-rand_lfsr64 random mask c bytes h)
      λ d s.
        ap unlfsr s.saved ∙ unlfsr-lfsr (seed_value random c) (le64-lt c.mem (u64 random) bytes)

-- With the mask of size_bwjob, the offset that any state gives is the start of a line within a thread's 2 GiB.
pub offset_bounds :
    (s : ℕ) → (bit_and bitmask s % 64 ≡ 0) × (bit_and bitmask s + 64 ≤ perthread_workset)
offset_bounds s =
    let lines : ℕ = 2 ^ 25 - 1 in
    let e : bit_and bitmask s ≡ bit_and (s / 2 ^ 6) lines * 2 ^ 6 =
      and_comm bitmask s ∙ and_above 6 s lines in
    omega (arith, e, and_comm (s / 2 ^ 6) lines, and-le lines (s / 2 ^ 6))
