-- ===== src/Memaccess/ChaseStore.antt =====
-- chasing_storeclwb of microbenchmarks/memaccess.cc.
use database_benchmarking_op.Prelude.{
  ℕ, suc, ◌+◌, ◌*◌, ◌%◌, ◌^◌, ◌≤◌, ◌<◌, [], ◌∷◌, ◌⊎◌, inl, inr, ◌≡◌, refl, ◌∙◌, subst, arith,
}
use native.Mathlib.Decide.{ℕ_discrete}
use native.Mathlib.Nat.{suc-mul, mul-le-mul_right}
use database_benchmarking_op.Machine.{r8, r11, reg, xor_, Cpu, u64, run, exec_code}
use database_benchmarking_op.Exec.Ensures.{Ensures, Ensures-weaken}
use database_benchmarking_op.Chasing.Cycle.{IsCycle}
use database_benchmarking_op.Memaccess.Chase.{
  chain, Linked, chase_round, chase_round-Strode, starts_chase,
}
use database_benchmarking_op.Memaccess.ChasingLoops.{chasing_storeclwb}
use database_benchmarking_op.Memaccess.Linking.{
  Indexed, Indexed-Apart, Linked-Apart, Written, Written-Linked,
}
use database_benchmarking_op.Memaccess.Strides.{repeated, Strode, times_for}
use database_benchmarking_op.Memaccess.StrideLoop.{kept_rounds_from, mul-mod_64}
use database_benchmarking_op.Memaccess.ChaseStoreLine.{
  store_line, body, post, body-Chasing, leave-Strode,
}

-- The strides up to `j` are linked, and no byte has changed that is in none of their lines.
pub record StridesLinked (g : ℕ → ℕ) (n start skip count : ℕ) (m : ℕ → ℕ) (j : ℕ) (m' : ℕ → ℕ)
    : Type 0 where
  pub linked : (i : ℕ) → i < j → Linked g n (start + i * skip) m'
  pub apart :
      (x : ℕ)
      → ((i : ℕ) → i < j → (x < start + i * skip) ⊎ (start + i * skip + n * 64 ≤ x))
      → m' x ≡ m x

module _ (g : ℕ → ℕ) (n p start size skip count cindex : ℕ) (lines : n ≡ suc p)
    (room : n * 64 ≤ skip) (fits : start + count * skip ≤ 2 ^ 64) (cycle : IsCycle n g) where
  -- One stride more.
  laid_next :
      (m m' m'' : ℕ → ℕ) (j : ℕ)
      → j < count
      → StridesLinked g n start skip count m j m'
      → Written g n (start + j * skip) m' n m''
      → StridesLinked g n start skip count m (suc j) m''
  laid_next m m' m'' j lt l w =
      let base = start + j * skip in
      let up : suc j * skip ≡ j * skip + skip = suc-mul j skip in
      let last : suc j * skip ≤ count * skip = mul-le-mul_right skip (omega arith) in
      record {
        linked = λ i below. elim (ℕ_discrete i j) [
          | yes now ↦ rw now (Written-Linked g n base m' m'' cycle (omega arith) w)
          | no earlier ↦
              let next : suc i * skip ≤ j * skip = mul-le-mul_right skip (omega arith) in
              let up' : suc i * skip ≡ i * skip + skip = suc-mul i skip in
              Linked-Apart g n (start + i * skip) base (n * 64) m' m'' (inl (omega arith))
                (omega arith) w.apart (l.linked i (omega arith))
        ];
        apart = λ x out. w.apart x (out j (omega arith)) ∙ l.apart x λ i below. out i (omega arith);
      }

  -- What is outside of the whole range is in no stride.
  outside_strides :
      (j x i : ℕ)
      → j < count
      → (x < start) ⊎ (start + count * skip ≤ x)
      → i < j
      → (x < start + i * skip) ⊎ (start + i * skip + n * 64 ≤ x)
  outside_strides j x i lt out below =
      let up : suc i * skip ≡ i * skip + skip = suc-mul i skip in
      let last : suc i * skip ≤ count * skip = mul-le-mul_right skip (omega arith) in
      elim out [ inl before ↦ inl (omega arith) | inr after ↦ inr (omega arith) ]

  store_round-Strode :
      (fuel j : ℕ) (m : ℕ → ℕ) (c : Cpu)
      → p * 64 < size
      → size ≤ suc p * 64
      → size < 2 ^ 62
      → suc p ≤ fuel
      → j < count
      → start % 64 ≡ 0
      → skip % 64 ≡ 0
      → c.r8 ≡ u64 (j * skip)
      → c.r11 + 1 < 2 ^ 64
      → (cindex + n * 8 ≤ start) ⊎ (start + count * skip ≤ cindex)
      → cindex + n * 8 ≤ 2 ^ 64
      → Indexed g n cindex m
      → StridesLinked g n start skip count m j c.mem
      → Ensures
          (λ d.
            Strode
              (u64 (c.r8 + skip))
              (suc c.r11)
              (chain (store_line cindex) g (suc p) (u64 (start + c.r8)) c.history)
              c
              d
            × StridesLinked g n start skip count m (suc j) d.mem)
          (exec_code fuel (chase_round (body cindex) (post skip) start size) c)
  store_round-Strode fuel j m c short long small enough lt start_at skip_at at_j below apart
        in_range index l =
      let base = start + j * skip in
      let up : suc j * skip ≡ j * skip + skip = suc-mul j skip in
      let last : suc j * skip ≤ count * skip = mul-le-mul_right skip (omega arith) in
      let here : u64 (start + c.r8) ≡ base = omega (arith, at_j) in
      let on_line : base % 64 ≡ 0 = omega (arith, start_at, mul-mod_64 j skip skip_at) in
      let first : Written g n base c.mem 0 c.mem = record {
        held = λ i none. absurd (omega arith);
        apart = λ x out. refl;
      } in
      rw here (
        Ensures-weaken
          (λ d.
            Strode (u64 (c.r8 + skip)) (suc c.r11)
              (chain (store_line cindex) g (suc p) base c.history) c d
            × Written g n base c.mem (suc p) d.mem)
          _ _
          (chase_round-Strode g (store_line cindex) (body cindex) base p size fuel
            (Written g n base c.mem)
            (λ i e early at now w.
              body-Chasing g n cindex base i c.mem e on_line (omega arith)
                (cycle.trail.bounded i (omega arith))
                (Indexed-Apart g n cindex start (count * skip) m e.mem apart in_range
                  (λ x out.
                    w.apart x
                      (elim out [ inl before ↦ inl (omega arith) | inr after ↦ inr (omega arith) ])
                    ∙ l.apart x λ i below. outside_strides j x i lt out below)
                  index)
                at now w)
            short long small enough (post skip) skip (leave-Strode skip) start c here below first)
          λ d (s, w). (s, laid_next m c.mem d.mem j lt l (rw lines (rw lines at w))))

-- chasing_storeclwb over `count` strides, of lines that the index lists as one cycle: as many entries as
-- the lines that `size` bytes take. If the index lies in memory apart from the strides, neither runs
-- past the end of the address space, the strides do not overlap and begin at the start of a line, with
-- a size below 2 ^ 62, a count above 0 and below 2 ^ 63, and fuel for the rounds of each loop, then in each
-- stride it reads, line by line in the order of the chain, an entry of the index, writes the line and
-- writes it back; in the end each line of each stride holds the number of the next, and each byte that is in
-- no line of a stride is as it was, those between the strides too. It does not fault, and ends.
pub chasing_storeclwb-StridesLinked :
    (g : ℕ → ℕ) (n p start size skip count cindex fuel : ℕ) (c : Cpu)
    → IsCycle n g
    → Indexed g n cindex c.mem
    → n ≡ suc p
    → p * 64 < size
    → size ≤ suc p * 64
    → size < 2 ^ 62
    → suc p ≤ fuel
    → 0 < count
    → count < 2 ^ 63
    → count ≤ fuel
    → start % 64 ≡ 0
    → skip % 64 ≡ 0
    → n * 64 ≤ skip
    → start + count * skip ≤ 2 ^ 64
    → cindex + n * 8 ≤ 2 ^ 64
    → (cindex + n * 8 ≤ start) ⊎ (start + count * skip ≤ cindex)
    → Ensures
        (λ d.
          Strode
            (u64 (count * skip))
            count
            (repeated (chain (store_line cindex) g n) start skip count c.history)
            c
            d
          × StridesLinked g n start skip count c.mem count d.mem)
        (exec_code fuel (chasing_storeclwb start size skip count cindex) c)
unfolding chasing_storeclwb
chasing_storeclwb-StridesLinked g n p start size skip count cindex fuel c cycle index lines short
      long small enough pos small_count enough_count start_at skip_at room fits in_range apart =
    let times : times_for count ≡ count = omega arith in
    let first : StridesLinked g n start skip count c.mem 0 c.mem = record {
      linked = λ i none. absurd (omega arith);
      apart = λ x out. refl;
    } in
    let Ends : ℕ → Cpu → Type 0 = λ k d.
      Strode (u64 (k * skip)) k
        (repeated (chain (store_line cindex) g (suc p)) start skip k c.history) c d
      × StridesLinked g n start skip count c.mem k d.mem in
    Ensures-weaken (Ends (times_for count)) _ _
      (kept_rounds_from (chase_round (body cindex) (post skip) start size)
        (chain (store_line cindex) g (suc p))
        (λ j d. StridesLinked g n start skip count c.mem j d.mem) start skip count fuel small_count
        (omega arith)
        (λ j d lt l at_j below.
          store_round-Strode g n p start size skip count cindex lines room fits cycle fuel j c.mem d
            short long small enough (omega arith) start_at skip_at at_j below apart in_range index
            l)
        (run (xor_ (reg r8) r8 ∷ xor_ (reg r11) r11 ∷ [])) c
        (Ensures-weaken (λ d. Strode 0 0 c.history c d × (d.mem ≡ c.mem)) _ _ (starts_chase fuel c)
          λ d (s, same). (s, rw same first)))
      λ d ends. let (s, l) : Ends count d = subst (λ k. Ends k d) times ends in (rw lines s, l)
