-- ===== src/Memaccess/Linking.antt =====
-- What chasing_storeclwb of microbenchmarks/memaccess.cc writes: into the first eight bytes of each line
-- the number of the next.
use database_benchmarking_op.Prelude.{
  ℕ, suc, ◌+◌, ◌*◌, ◌^◌, ◌≤◌, ◌<◌, ◌⊎◌, inl, inr, ◌≡◌, ap, ◌∙◌, arith,
}
use native.Mathlib.Decide.{dec_lt, ℕ_discrete}
use database_benchmarking_op.Machine.{le64, load_bytes, store_bytes, u64}
use database_benchmarking_op.Exec.Memory.{le64_congr, Outside, store-Outside, load-store_vector}
use database_benchmarking_op.Chasing.Cycle.{walk, IsCycle}
use database_benchmarking_op.Chasing.Covers.{walked_at}
use database_benchmarking_op.Memaccess.Chase.{Linked}

-- The index lies in memory at `cindex`, in 8 bytes for each of its `n` entries.
abbrev pub Indexed : (ℕ → ℕ) → (n cindex : ℕ) → (ℕ → ℕ) → Type 0
Indexed g n cindex m = (x : ℕ) → x < n → le64 (load_bytes (u64 (cindex + x * 8)) m) ≡ g x

-- The memories agree on all that is not among the `w` bytes from `a` on.
abbrev pub Apart : (a w : ℕ) → (m m' : ℕ → ℕ) → Type 0
Apart a w m m' = (x : ℕ) → Outside a w x → m' x ≡ m x

pub Indexed-Apart :
    (g : ℕ → ℕ) (n cindex a w : ℕ) (m m' : ℕ → ℕ)
    → (cindex + n * 8 ≤ a) ⊎ (a + w ≤ cindex)
    → cindex + n * 8 ≤ 2 ^ 64
    → Apart a w m m'
    → Indexed g n cindex m
    → Indexed g n cindex m'
Indexed-Apart g n cindex a w m m' apart fits same index x lt =
    let at : u64 (cindex + x * 8) ≡ cindex + x * 8 = omega arith in
    le64_congr (load_bytes (u64 (cindex + x * 8)) m') (load_bytes (u64 (cindex + x * 8)) m)
      (λ i low.
        same (u64 (cindex + x * 8) + i)
          (elim apart [ inl before ↦ inl (omega arith) | inr after ↦ inr (omega arith) ]))
    ∙ index x lt

pub Linked-Apart :
    (g : ℕ → ℕ) (n at a w : ℕ) (m m' : ℕ → ℕ)
    → (at + n * 64 ≤ a) ⊎ (a + w ≤ at)
    → at + n * 64 ≤ 2 ^ 64
    → Apart a w m m'
    → Linked g n at m
    → Linked g n at m'
Linked-Apart g n at a w m m' apart fits same linked x lt =
    let here : u64 (at + x * 64) ≡ at + x * 64 = omega arith in
    le64_congr (load_bytes (u64 (at + x * 64)) m') (load_bytes (u64 (at + x * 64)) m) (λ i low.
      same (u64 (at + x * 64) + i)
        (elim apart [ inl before ↦ inl (omega arith) | inr after ↦ inr (omega arith) ]))
    ∙ linked x lt

-- The first `i` lines of the chain hold what they are to, and nothing else but lines has changed.
pub record Written (g : ℕ → ℕ) (n base : ℕ) (m : ℕ → ℕ) (i : ℕ) (m' : ℕ → ℕ) : Type 0 where
  pub held : (j : ℕ) → j < i → le64 (load_bytes (base + walk g j * 64) m') ≡ g (walk g j)
  pub apart : Apart base (n * 64) m m'

-- A line more.
pub store-Written :
    (g : ℕ → ℕ) (n base i : ℕ) (m m' b : ℕ → ℕ)
    → walk g i < n
    → le64 b ≡ g (walk g i)
    → Written g n base m i m'
    → Written g n base m (suc i) (store_bytes (base + walk g i * 64) 64 b m')
store-Written g n base i m m' b lt value w =
    let a = base + walk g i * 64 in
    let now : le64 (load_bytes a (store_bytes a 64 b m')) ≡ g (walk g i) =
      load-store_vector a 64 b m' (omega arith) ∙ value in
    record {
      held = λ j before. elim (ℕ_discrete (walk g j) (walk g i)) [
        | yes same ↦ rw same now
        | no other ↦
            let earlier : j < i = elim (ℕ_discrete j i) [
              | yes last ↦ absurd (other (ap (walk g) last))
              | no ne ↦ omega arith
            ] in
            le64_congr (load_bytes (base + walk g j * 64) (store_bytes a 64 b m'))
              (load_bytes (base + walk g j * 64) m')
              (λ k low.
                store-Outside a 64 b m' (base + walk g j * 64 + k)
                  (elim (dec_lt (walk g j) (walk g i)) [
                    | yes below ↦ inl (omega arith)
                    | no above ↦ inr (omega arith)
                  ]))
            ∙ w.held j earlier
      ];
      apart = λ x out.
          store-Outside a 64 b m' x
            (elim out [ inl before ↦ inl (omega arith) | inr after ↦ inr (omega arith) ])
          ∙ w.apart x out;
    }

-- Once all entries of a cycle have been gone through, all lines are linked.
pub Written-Linked :
    (g : ℕ → ℕ) (n base : ℕ) (m m' : ℕ → ℕ)
    → IsCycle n g
    → base + n * 64 ≤ 2 ^ 64
    → Written g n base m n m'
    → Linked g n base m'
Written-Linked g n base m m' cycle fits w x lt =
    let (i, early, e) = walked_at n g x cycle lt in
    let at : u64 (base + x * 64) ≡ base + walk g i * 64 = omega (arith, e) in
    rw at (w.held i early) ∙ ap g e
