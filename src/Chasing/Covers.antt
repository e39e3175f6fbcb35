-- ===== src/Chasing/Covers.antt =====
-- A cycle through all entries comes by each of them exactly once.
use database_benchmarking_op.Prelude.{
  ℕ, zero, suc, ◌+◌, ◌*◌, ◌≤◌, ◌<◌, ◌==◌, ◌≡◌, ◌≢◌, refl, sym, ap, ◌∙◌, arith, eq→==, ne→==,
  if◌then◌else◌,
}
use native.Mathlib.Decide.{ℕ_discrete}
use native.Mathlib.Nat.{add-mul}
use database_benchmarking_op.Chasing.Cycle.{walk, IsCycle}

-- How many of the first `m` values of `f` are `l`.
abbrev pub visits : (ℕ → ℕ) → ℕ → ℕ → ℕ
visits f zero l = 0
visits f (suc m) l = (if f m == l then 1 else 0) + visits f m l

-- h 0 + … + h (n - 1)
abbrev pub sum_to : (ℕ → ℕ) → ℕ → ℕ
sum_to h zero = 0
sum_to h (suc n) = h n + sum_to h n

pub sum_to-add : (h k : ℕ → ℕ) (n : ℕ) → sum_to (λ l. h l + k l) n ≡ sum_to h n + sum_to k n
sum_to-add h k zero = refl
sum_to-add h k (suc n) = omega (arith, sum_to-add h k n)

sum_to_zero : (n : ℕ) → sum_to (λ l. 0) n ≡ 0
sum_to_zero zero = refl
sum_to_zero (suc n) = omega (arith, sum_to_zero n)

-- Below `v` the value `v` does not count, beyond it once.
sum_to_before : (v n : ℕ) → n ≤ v → sum_to (λ l. if v == l then 1 else 0) n ≡ 0
sum_to_before v zero h = refl
sum_to_before v (suc n) h =
    rw (ne→== v n (omega arith)) (omega (arith, sum_to_before v n (omega arith)))

sum_to_one : (v n : ℕ) → v < n → sum_to (λ l. if v == l then 1 else 0) n ≡ 1
sum_to_one v zero h = absurd (omega arith)
sum_to_one v (suc n) h = elim (ℕ_discrete v n) [
  | yes last ↦ rw (eq→== v n last) (omega (arith, sum_to_before v n (omega arith)))
  | no other ↦ rw (ne→== v n other) (omega (arith, sum_to_one v n (omega arith)))
]

sum_to-visits : (f : ℕ → ℕ) (m n : ℕ) → ((i : ℕ) → i < m → f i < n) → sum_to (visits f m) n ≡ m
sum_to-visits f zero n h = sum_to_zero n
sum_to-visits f (suc m) n h =
    sum_to-add (λ l. if f m == l then 1 else 0) (visits f m) n
    ∙ omega (
      arith,
      sum_to_one (f m) n (h m (omega arith)),
      sum_to-visits f m n (λ i lt. h i (omega arith)),
    )

visits_none : (f : ℕ → ℕ) (m l : ℕ) → ((i : ℕ) → i < m → f i ≢ l) → visits f m l ≡ 0
visits_none f zero l h = refl
visits_none f (suc m) l h =
    rw (ne→== (f m) l (h m (omega arith)))
      (omega (arith, visits_none f m l (λ i lt. h i (omega arith))))

visits_bound : (f : ℕ → ℕ) (m l : ℕ) → ((i j : ℕ) → i < j → j < m → f i ≢ f j) → visits f m l ≤ 1
visits_bound f zero l h = omega arith
visits_bound f (suc m) l h = elim (ℕ_discrete (f m) l) [
  | yes here ↦
      let before : visits f m l ≡ 0 =
        visits_none f m l λ i lt e. h i m lt (omega arith) (e ∙ sym here) in
      rw (eq→== (f m) l here) (omega (arith, before))
  | no other ↦
      rw (ne→== (f m) l other)
        (omega (arith, visits_bound f m l (λ i j lt below. h i j lt (omega arith))))
]

sum_to_bound : (h : ℕ → ℕ) (n : ℕ) → ((l : ℕ) → h l ≤ 1) → sum_to h n ≤ n
sum_to_bound h zero small = omega arith
sum_to_bound h (suc n) small = omega (arith, small n, sum_to_bound h n small)

all_one : (h : ℕ → ℕ) (n l : ℕ) → ((k : ℕ) → h k ≤ 1) → sum_to h n ≡ n → l < n → h l ≡ 1
all_one h zero l small full lt = absurd (omega arith)
all_one h (suc n) l small full lt =
    let rest = sum_to_bound h n small in
    elim (ℕ_discrete l n) [
      | yes last ↦ ap h last ∙ omega (arith, small n, full, rest)
      | no other ↦ all_one h n l small (omega (arith, small n, full, rest)) (omega arith)
    ]

-- On a cycle of `n` entries, entry `l` is visited once in `n` steps.
pub visits-walk : (n : ℕ) (g : ℕ → ℕ) (l : ℕ) → IsCycle n g → l < n → visits (walk g) n l ≡ 1
visits-walk n g l cycle lt =
    all_one (visits (walk g) n) n l (λ k. visits_bound (walk g) n k cycle.trail.distinct)
      (sum_to-visits (walk g) n n cycle.trail.bounded) lt

-- An entry that is visited is visited at some step.
visited_at : (f : ℕ → ℕ) (m l : ℕ) → visits f m l ≡ 1 → (i : ℕ) × (i < m) × (f i ≡ l)
visited_at f zero l h = absurd (omega arith)
visited_at f (suc m) l h = elim (ℕ_discrete (f m) l) [
  | yes here ↦ (m, omega arith, here)
  | no other ↦
      let before : visits f m l ≡ 1 = omega (arith, rw (ne→== (f m) l other) at h) in
      let (i, lt, e) = visited_at f m l before in (i, omega arith, e)
]

-- Each entry of a cycle is come by, and leads to an entry.
pub walked_at :
    (n : ℕ) (g : ℕ → ℕ) (l : ℕ) → IsCycle n g → l < n → (i : ℕ) × (i < n) × (walk g i ≡ l)
walked_at n g l cycle lt = visited_at (walk g) n l (visits-walk n g l cycle lt)

pub IsCycle-lt : (n : ℕ) (g : ℕ → ℕ) (l : ℕ) → IsCycle n g → l < n → g l < n
IsCycle-lt n g l cycle lt =
    let (i, early, e) = walked_at n g l cycle lt in
    elim (ℕ_discrete (suc i) n) [
      | yes last ↦
          let back : g (walk g i) ≡ 0 = rw (sym last) at cycle.closed in
          omega (arith, sym (ap g e) ∙ back)
      | no before ↦
          let inside_ : walk g (suc i) < n = cycle.trail.bounded (suc i) (omega arith) in
          rw e at inside_
    ]

-- What is not an entry is not visited.
pub visits_beyond : (n : ℕ) (g : ℕ → ℕ) (l : ℕ) → IsCycle n g → n ≤ l → visits (walk g) n l ≡ 0
visits_beyond n g l cycle beyond =
    visits_none (walk g) n l λ i lt e. omega (arith, e, cycle.trail.bounded i lt)

pub sum_to-congr : (h k : ℕ → ℕ) (n : ℕ) → ((i : ℕ) → i < n → h i ≡ k i) → sum_to h n ≡ sum_to k n
sum_to-congr h k zero e = refl
sum_to-congr h k (suc n) e =
    omega (arith, e n (omega arith), sum_to-congr h k n (λ i lt. e i (omega arith)))

-- One value out of `n`, and a value beyond them.
sum_to_beyond : (h : ℕ → ℕ) (v n : ℕ) → n ≤ v → sum_to (λ l. (if v == l then 1 else 0) * h l) n ≡ 0
sum_to_beyond h v zero below = refl
sum_to_beyond h v (suc n) below =
    rw (ne→== v n (omega arith)) (omega (arith, sum_to_beyond h v n (omega arith)))

sum_to_point : (h : ℕ → ℕ) (v n : ℕ) → v < n → sum_to (λ l. (if v == l then 1 else 0) * h l) n ≡ h v
sum_to_point h v zero lt = absurd (omega arith)
sum_to_point h v (suc n) lt = elim (ℕ_discrete v n) [
  | yes last ↦ rw (eq→== v n last) (omega (arith, ap h last, sum_to_beyond h v n (omega arith)))
  | no other ↦ rw (ne→== v n other) (omega (arith, sum_to_point h v n (omega arith)))
]

-- A sum along a sequence, by how often it comes by each value.
sum_to_by_visits :
    (f h : ℕ → ℕ) (m n : ℕ)
    → ((i : ℕ) → i < m → f i < n)
    → sum_to (λ i. h (f i)) m ≡ sum_to (λ l. visits f m l * h l) n
sum_to_by_visits f h zero n small =
    sym (sum_to_zero n) ∙ sum_to-congr (λ l. 0) (λ l. 0 * h l) n (λ l lt. omega arith)
sum_to_by_visits f h (suc m) n small =
    let one : ℕ → ℕ = λ l. (if f m == l then 1 else 0) * h l in
    let rest : ℕ → ℕ = λ l. visits f m l * h l in
    let split : sum_to (λ l. visits f (suc m) l * h l) n ≡ sum_to (λ l. one l + rest l) n =
      sum_to-congr (λ l. visits f (suc m) l * h l) (λ l. one l + rest l) n
        (λ l lt. add-mul (if f m == l then 1 else 0) (visits f m l) (h l)) in
    omega (
      arith,
      split,
      sum_to-add one rest n,
      sum_to_point h (f m) n (small m (omega arith)),
      sum_to_by_visits f h m n (λ i lt. small i (omega arith)),
    )

-- A sum along a cycle is the sum over its entries.
pub sum_to-walk : (n : ℕ) (g h : ℕ → ℕ) → IsCycle n g → sum_to (λ i. h (walk g i)) n ≡ sum_to h n
sum_to-walk n g h cycle =
    sum_to_by_visits (walk g) h n n cycle.trail.bounded
    ∙ sum_to-congr (λ l. visits (walk g) n l * h l) h n
        λ l lt. ap (λ (k : ℕ). k * h l) (visits-walk n g l cycle lt) ∙ omega arith
