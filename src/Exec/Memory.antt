-- ===== src/Exec/Memory.antt =====
-- Memory by the byte and 64-bit values in it.
use database_benchmarking_op.Prelude.{
  ℕ, ◌+◌, ◌-◌, ◌^◌, ◌<◌, ◌≤◌, ◌⊎◌, inl, inr, ◌≡◌, refl, ap, ◌∙◌, arith,
}
use database_benchmarking_op.Machine.{le64, byte_of, load_bytes, store_bytes}

abbrev pub IsBytes : (ℕ → ℕ) → Type 0
IsBytes m = (a : ℕ) → m a < 256

-- A byte just written is read back.
stored_byte : (a i : ℕ) (b m : ℕ → ℕ) → i < 8 → store_bytes a 8 b m (a + i) ≡ b i
stored_byte a i b m h = let e : a + i - a ≡ i = omega arith in ground (arith, ap b e)

pub le64_congr : (b b' : ℕ → ℕ) → ((i : ℕ) → i < 8 → b i ≡ b' i) → le64 b ≡ le64 b'
le64_congr b b' h =
    rw
      (
        h 0 (omega arith),
        h 1 (omega arith),
        h 2 (omega arith),
        h 3 (omega arith),
        h 4 (omega arith),
        h 5 (omega arith),
        h 6 (omega arith),
        h 7 (omega arith),
      )
      refl

le64-byte_of : (v : ℕ) → v < 2 ^ 64 → le64 (byte_of v) ≡ v
le64-byte_of v h = omega arith

-- A 64-bit value written to memory is read back.
pub load-store :
    (a v : ℕ) (m : ℕ → ℕ) → v < 2 ^ 64 → le64 (load_bytes a (store_bytes a 8 (byte_of v) m)) ≡ v
load-store a v m h =
    le64_congr (load_bytes a (store_bytes a 8 (byte_of v) m)) (byte_of v)
      (λ i lt. stored_byte a i (byte_of v) m lt)
    ∙ le64-byte_of v h

pub le64-lt : (m : ℕ → ℕ) (a : ℕ) → IsBytes m → le64 (load_bytes a m) < 2 ^ 64
le64-lt m a h =
    omega (
      arith,
      h (a + 0),
      h (a + 1),
      h (a + 2),
      h (a + 3),
      h (a + 4),
      h (a + 5),
      h (a + 6),
      h (a + 7),
    )

-- `x` is none of the `w` addresses from `a` on.
abbrev pub Outside : (a w x : ℕ) → Type 0
Outside a w x = (x < a) ⊎ (a + w ≤ x)

pub store-Outside : (a w : ℕ) (b m : ℕ → ℕ) (x : ℕ) → Outside a w x → store_bytes a w b m x ≡ m x
store-Outside a w b m x (inl before) = ground arith
store-Outside a w b m x (inr after) = ground arith

-- A vector just written whose first eight bytes are a value.
pub load-store_vector :
    (a w : ℕ) (b m : ℕ → ℕ) → 8 ≤ w → le64 (load_bytes a (store_bytes a w b m)) ≡ le64 b
load-store_vector a w b m wide =
    le64_congr (load_bytes a (store_bytes a w b m)) b
      λ i lt. let e : a + i - a ≡ i = omega arith in ground (arith, ap b e)
