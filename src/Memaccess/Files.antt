-- ===== src/Memaccess/Files.antt =====
-- The functions of microbenchmarks/memaccess.cc that go through the C library or libpmem: reads and
-- writes of a file, and copies into a mapped device.
use database_benchmarking_op.Prelude.{
  ℕ, zero, suc, ◌+◌, ◌*◌, ◌^◌, ◌≤◌, ◌<◌, List, [], ◌∷◌, true, Option, none, some, ltb, lt→ltb,
  le→ltb, ◌≡◌, refl, ap, arith, if◌then◌else◌,
}
use native.Mathlib.Nat.{suc-mul, zero-mul, mul_comm, mul-le-mul_right}
use database_benchmarking_op.Machine.{u64}

-- pread, pwrite and write, on a state `W` of the files: the count of bytes done, or -1 as `none`. The
-- arguments are the descriptor, the buffer, the count, and the place in the file.
pub record Files (W : Type 0) : Type 0 where
  pub pread : ℕ → ℕ → ℕ → ℕ → W → Option ℕ × W
  pub pwrite : ℕ → ℕ → ℕ → ℕ → W → Option ℕ × W
  pub write : ℕ → ℕ → ℕ → W → Option ℕ × W

-- The function returns, or it calls exit(1) after a message.
pub data Ended (W : Type 0) : Type 0 where
  back : W → Ended W
  gone : W → Ended W

abbrev or_exit : {W : Type 0} → Option ℕ × W → Ended W
or_exit (none, w) = gone w
or_exit (some n, w) = back w

module _ {W : Type 0} (files : Files W) (allocated_buf : ℕ) where
  unfoldable pub stride_ssd_load : (start_addr size offset fd count : ℕ) → W → Ended W
  stride_ssd_load start_addr size offset fd count w =
      let total = u64 (count * size) in or_exit (files.pread fd allocated_buf total offset w)

  unfoldable pub stride_ssd_store : (start_addr size offset fd count : ℕ) → W → Ended W
  stride_ssd_store start_addr size offset fd count w =
      let total = u64 (count * size) in or_exit (files.pwrite fd allocated_buf total offset w)

  unfoldable pub stride_ssd_store_write : (start_addr size offset fd count : ℕ) → W → Ended W
  stride_ssd_store_write start_addr size offset fd count w =
      let total = u64 (count * size) in back (files.write fd allocated_buf total w).1

-- pmem_memcpy_nodrain(add, buf, size): the three arguments of a call.
abbrev pub Copy : Type 0
Copy = ℕ × ℕ × ℕ

abbrev then_copies : Copy → Option (List Copy) → Option (List Copy)
then_copies x none = none
then_copies x (some xs) = some (x ∷ xs)

-- The calls of the loop, with fuel for as many rounds: `none` is a loop that is still running.
unfoldable pub copies : (fuel total size i add buf : ℕ) → Option (List Copy)
copies zero total size i add buf = if ltb i total then none else some []
copies (suc fuel) total size i add buf =
    let rest = copies fuel total size (u64 (i + size)) (u64 (add + size)) (u64 (buf + size)) in
    if ltb i total then then_copies (add, buf, size) rest else some []

unfoldable pub stride_ssd_mmap_store_no_drain :
    (fuel allocated_buf : ℕ) → (start_addr size offset fd count : ℕ) → Option (List Copy)
stride_ssd_mmap_store_no_drain fuel allocated_buf start_addr size offset fd count =
    let total = u64 (size * count) in copies fuel total size 0 start_addr allocated_buf

-- `n` copies side by side, from their number `i` on.
abbrev pub side_by_side : (size start buf i n : ℕ) → List Copy
side_by_side size start buf i zero = []
side_by_side size start buf i (suc n) =
    (u64 (start + i * size), u64 (buf + i * size), size) ∷ side_by_side size start buf (suc i) n

copies_from :
    (fuel count size start buf i left : ℕ)
    → i + left ≡ count
    → left ≤ fuel
    → 0 < size
    → count * size < 2 ^ 64
    → copies fuel (count * size) size (i * size) (u64 (start + i * size)) (u64 (buf + i * size))
      ≡ some (side_by_side size start buf i left)
unfolding copies
copies_from zero count size start buf i zero e enough pos fits =
    let at_end : count * size ≡ i * size = ap (λ (m : ℕ). m * size) (omega arith) in
    rw (le→ltb (i * size) (count * size) (omega (arith, at_end))) refl
copies_from (suc fuel) count size start buf i zero e enough pos fits =
    let at_end : count * size ≡ i * size = ap (λ (m : ℕ). m * size) (omega arith) in
    rw (le→ltb (i * size) (count * size) (omega (arith, at_end))) refl
copies_from zero count size start buf i (suc left) e enough pos fits = absurd (omega arith)
copies_from (suc fuel) count size start buf i (suc left) e enough pos fits =
    let up : suc i * size ≡ i * size + size = suc-mul i size in
    let within : suc i * size ≤ count * size = mul-le-mul_right size (omega arith) in
    let more : ltb (i * size) (count * size) ≡ true =
      lt→ltb (i * size) (count * size) (omega (arith, up, within, pos)) in
    let next_i : u64 (i * size + size) ≡ suc i * size = omega (arith, up, within, fits) in
    let next_to : u64 (u64 (start + i * size) + size) ≡ u64 (start + suc i * size) =
      omega (arith, up) in
    let next_from : u64 (u64 (buf + i * size) + size) ≡ u64 (buf + suc i * size) =
      omega (arith, up) in
    rw
      (
        more,
        next_i,
        next_to,
        next_from,
        copies_from fuel count size start buf (suc i) left (omega arith) (omega arith) pos fits,
      )
      refl

-- stride_ssd_mmap_store_no_drain with a size above 0, 64-bit addresses, `count` times the size a 64-bit
-- value, and fuel for `count` rounds: the loop ends after exactly `count` copies of `size` bytes, number `i` from `i`
-- sizes after the start of the buffer to as many after the start address.
pub stride_ssd_mmap_store_no_drain-side_by_side :
    (fuel buf start size offset fd count : ℕ)
    → 0 < size
    → count * size < 2 ^ 64
    → start < 2 ^ 64
    → buf < 2 ^ 64
    → count ≤ fuel
    → stride_ssd_mmap_store_no_drain fuel buf start size offset fd count
      ≡ some (side_by_side size start buf 0 count)
unfolding stride_ssd_mmap_store_no_drain
stride_ssd_mmap_store_no_drain-side_by_side fuel buf start size offset fd count pos fits small
      small' enough =
    let total : u64 (size * count) ≡ count * size = omega (arith, fits, mul_comm size count) in
    let first : u64 (start + 0 * size) ≡ start = omega (arith, zero-mul size) in
    let first' : u64 (buf + 0 * size) ≡ buf = omega (arith, zero-mul size) in
    rw total (
      rw (first, first', zero-mul size) at
        (copies_from fuel count size start buf 0 count (omega arith) enough pos fits))
