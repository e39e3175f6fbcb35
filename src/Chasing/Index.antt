-- ===== src/Chasing/Index.antt =====
-- get_rand and init_chasing_index of microbenchmarks/memaccess.cc.
use database_benchmarking_op.Prelude.{
  ℕ, zero, suc, ◌+◌, ◌%◌, Bool, Option, none, some, ◌==◌, ◌||◌, not, if◌then◌else◌,
}

abbrev pub rdrand_max_retry : ℕ
rdrand_max_retry = 32

-- A value drawn, and the number of the next execution of rdrand.
pub record Drawn : Type 0 where
  pub value : ℕ
  pub next : ℕ

-- `rdrand n` is what execution number `n` of the instruction gives: `none` where it clears the carry.
-- `none` as a result: the function returns 1.
unfoldable pub retry : (ℕ → Option ℕ) → ℕ → ℕ → ℕ → Option Drawn
retry rdrand range k zero = none
retry rdrand range k (suc left) =
    let rest = retry rdrand range (k + 1) left in
    elim (rdrand k) [ none ↦ rest | some v ↦ some (record { value = v % range; next = k + 1 }) ]

unfoldable pub get_rand : (ℕ → Option ℕ) → ℕ → ℕ → Option Drawn
get_rand rdrand range k = retry rdrand range k rdrand_max_retry

-- A run that returns 0 with a result, that returns 1, that divides by zero, or that is still in its loop
-- when the fuel ends.
pub data Run (A : Type 0) : Type 0 where
  returned : A → Run A
  failed divided running : Run A

abbrev pub and_then : {A B : Type 0} → Run A → (A → Run B) → Run B
and_then (returned a) next = next a
and_then failed next = failed
and_then divided next = divided
and_then running next = running

-- cindex[i] = v
abbrev pub put : (ℕ → ℕ) → ℕ → ℕ → ℕ → ℕ
put cindex i v j = if j == i then v else cindex j

-- (cindex[next_pos] != 0) || (next_pos == curr_pos)
abbrev pub is_taken : (ℕ → ℕ) → ℕ → ℕ → Bool
is_taken cindex curr_pos next_pos = not (cindex next_pos == 0) || (next_pos == curr_pos)

-- The do-while loop, from draw number `k` on, for `fuel` rounds at most.
unfoldable pub pick : (ℕ → Option ℕ) → (ℕ → ℕ) → ℕ → ℕ → ℕ → ℕ → Run Drawn
pick rdrand cindex csize curr_pos k zero = running
pick rdrand cindex csize curr_pos k (suc fuel) = elim (get_rand rdrand csize k) [
  | none ↦ failed
  | some d ↦
      let rest = pick rdrand cindex csize curr_pos d.next fuel in
      if is_taken cindex curr_pos d.value then rest else returned d
]

-- The for loop, with `left` rounds to go.
unfoldable pub fill : (ℕ → Option ℕ) → ℕ → ℕ → (ℕ → ℕ) → ℕ → ℕ → ℕ → Run (ℕ → ℕ)
fill rdrand csize fuel cindex curr_pos k zero = returned cindex
fill rdrand csize fuel cindex curr_pos k (suc left) =
    and_then (pick rdrand cindex csize curr_pos k fuel)
      λ d. fill rdrand csize fuel (put cindex curr_pos d.value) d.value d.next left

-- For `csize` 0 the count csize-1 wraps around, and the first draw that succeeds is divided by 0.
unfoldable pub init_chasing_index : (ℕ → Option ℕ) → ℕ → ℕ → Run (ℕ → ℕ)
init_chasing_index rdrand fuel zero = elim (get_rand rdrand 1 0) [
  | none ↦ failed
  | some d ↦ divided
]
init_chasing_index rdrand fuel (suc rest) = fill rdrand (suc rest) fuel (λ i. 0) 0 0 rest
