-- ===== src/Driver/Regions.antt =====
-- Where the worker threads of a bandwidth run work.
use database_benchmarking_op.Prelude.{
  ℕ, zero, suc, ◌+◌, ◌-◌, ◌≤◌, ◌<◌, List, [], ◌∷◌, Bool, length, get_elem?, none, some, ◌≡◌, ◌≢◌,
  ◌↔◌, ◌⊎◌, inl, inr, refl, ap, arith,
}
use native.Mathlib.Nat.{add-zero}
use native.Mathlib.Decide.{dec_lt}
use database_benchmarking_op.Driver.Config.{perthread_workset, region_size, affinity}
use database_benchmarking_op.Driver.Launch.{
  Thread, Job, strided_bwjob, size_bwjob, start_threads, bw_thread, ssd_thread, benchmark_bw_seq,
  benchmark_bw_random, benchmark_bw_ssd,
}

get_elem?-some {ℓ} :
    {A : Type ℓ} (xs : List A) (i : ℕ) → i < length xs → (a : A) × (get_elem? xs i ≡ some a)
get_elem?-some [] i h = absurd (omega arith)
get_elem?-some (x ∷ xs) zero h = (x, refl)
get_elem?-some (x ∷ xs) (suc i) h = get_elem?-some xs i (omega arith)

-- Thread `j` of a list is made for core affinity[i + j].
abbrev pub MadeAt : (ℕ → ℕ → Thread) → ℕ → List Thread → ℕ → Type 0
MadeAt make i ts j =
    (core : ℕ) × (get_elem? affinity (i + j) ≡ some core)
    × (get_elem? ts j ≡ some (make core (i + j)))

-- The threads from number `i` on.
pub record Started (make : ℕ → ℕ → Thread) (i n : ℕ) (ts : List Thread) : Type 0 where
  pub all : length ts ≡ n
  pub each : (j : ℕ) → j < n → MadeAt make i ts j

each_cons :
    (make : ℕ → ℕ → Thread) (i core : ℕ) (ts : List Thread) (n : ℕ)
    → get_elem? affinity i ≡ some core
    → ((j : ℕ) → j < n → MadeAt make (i + 1) ts j)
    → (j : ℕ) → j < suc n
    → MadeAt make i (make core i ∷ ts) j
each_cons make i core ts n e h zero lt = rw (add-zero i) (core, e, refl)
each_cons make i core ts n e h (suc j) lt =
    let shift : i + 1 + j ≡ i + suc j = omega arith in rw shift at (h j (omega arith))

-- With cores enough, all threads are started.
pub start_threads-Started :
    (make : ℕ → ℕ → Thread) (i n : ℕ)
    → i + n ≤ 48
    → (ts : List Thread) × (start_threads make i n ≡ some ts) × Started make i n ts
unfolding start_threads
start_threads-Started make i zero h =
    ([], refl, record { all = refl; each = λ j lt. absurd (omega arith) })
start_threads-Started make i (suc n) h =
    let (core, e) = get_elem?-some affinity i (omega arith) in
    let (ts, started, s) = start_threads-Started make (i + 1) n (omega arith) in
    (
      make core i ∷ ts,
      rw (e, started) refl,
      record { all = ap suc s.all; each = each_cons make i core ts n e s.each },
    )

get_elem?-none {ℓ} : {A : Type ℓ} (xs : List A) (i : ℕ) → length xs ≤ i → get_elem? xs i ≡ none
get_elem?-none [] i h = refl
get_elem?-none (x ∷ xs) zero h = absurd (omega arith)
get_elem?-none (x ∷ xs) (suc i) h = get_elem?-none xs i (omega arith)

-- With too few cores, affinity is read past its end.
pub start_threads_undefined :
    (make : ℕ → ℕ → Thread) (i n : ℕ) → 48 < i + n → 0 < n → start_threads make i n ≡ none
unfolding start_threads
start_threads_undefined make i zero h pos = absurd (omega arith)
start_threads_undefined make i (suc n) h pos = elim (dec_lt i 48) [
  | yes below ↦
      let (core, e) = get_elem?-some affinity i below in
      rw (e, start_threads_undefined make (i + 1) n (omega arith) (omega arith)) refl
  | no above ↦ rw (get_elem?-none affinity i (omega arith)) refl
]

-- The bytes of thread `ts[j]` lie within the region of `region_size` bytes from `start` on.
abbrev pub InRegion : ℕ → List Thread → ℕ → Type 0
InRegion start ts j =
    (t : Thread) × (get_elem? ts j ≡ some t)
    × (start ≤ t.ctx.addr)
    × (t.ctx.addr + perthread_workset ≤ start + region_size)

-- Two threads share no byte.
abbrev pub Apart : List Thread → ℕ → ℕ → Type 0
Apart ts i j =
    (t : Thread) × (u : Thread) × (get_elem? ts i ≡ some t)
    × (get_elem? ts j ≡ some u)
    × ((t.ctx.addr + perthread_workset ≤ u.ctx.addr)
        ⊎ (u.ctx.addr + perthread_workset ≤ t.ctx.addr))

-- What holds of the threads `ts` that a bandwidth run on `n` threads starts: there are `n` of them, no
-- two share a byte, and all keep to the region from `start` on exactly when they are 27 at most.
pub record Placed (start n : ℕ) (ts : List Thread) : Type 0 where
  pub all : length ts ≡ n
  pub apart : (i j : ℕ) → i < n → j < n → i ≢ j → Apart ts i j
  pub fit : ((j : ℕ) → j < n → InRegion start ts j) ↔ (n ≤ 27)

same_thread :
    (ts : List Thread) (j : ℕ) (t u : Thread)
    → get_elem? ts j ≡ some t
    → get_elem? ts j ≡ some u
    → t.ctx.addr ≡ u.ctx.addr
same_thread ts j t u e f = let same : t ≡ u = cc in ap (λ (v : Thread). v.ctx.addr) same

module _ (job : Job) (size start : ℕ) (read nt : Bool) where
  abbrev make : ℕ → ℕ → Thread
  make = bw_thread job size start read nt

  overrun :
      (n : ℕ) (ts : List Thread)
      → 27 < n
      → Started make 0 n ts
      → ¬ ((j : ℕ) → j < n → InRegion start ts j)
  overrun n ts many s inside =
      let last = n - 1 in
      let (core, e, f) = s.each last (omega arith) in
      let (t, g, low, high) = inside last (omega arith) in
      absurd (omega (arith, same_thread ts last t (make core (0 + last)) g f))

  pub Started-Placed : (n : ℕ) (ts : List Thread) → Started make 0 n ts → Placed start n ts
  Started-Placed n ts s = record {
    all = s.all;
    apart = λ i j hi hj ne.
        let (core₁, _, e₁) = s.each i hi in
        let (core₂, _, e₂) = s.each j hj in
        (
          make core₁ (0 + i),
          make core₂ (0 + j),
          e₁,
          e₂,
          elim (dec_lt i j) [ yes lt ↦ inl (omega arith) | no ge ↦ inr (omega arith) ],
        );
    fit = (
      λ inside. elim (dec_lt 27 n) [
        | yes many ↦ absurd (overrun n ts many s inside)
        | no few ↦ omega arith
      ],
      λ few j lt.
          let (core, _, e) = s.each j lt in (make core (0 + j), e, omega arith, omega arith),
    );
  }

-- A sequential bandwidth run on up to 48 threads starts one for each core number, in regions that do
-- not meet. The region that is mapped is large enough for up to 27 threads, and for no more.
pub benchmark_bw_seq-Placed :
    (n size start : ℕ) (read nt : Bool)
    → n ≤ 48
    → (ts : List Thread) × (benchmark_bw_seq n size start read nt ≡ some ts) × Placed start n ts
unfolding benchmark_bw_seq
benchmark_bw_seq-Placed n size start read nt few =
    let (ts, e, s) =
      start_threads-Started (bw_thread strided_bwjob size start read nt) 0 n (omega arith) in
    (ts, e, Started-Placed strided_bwjob size start read nt n ts s)

-- A random bandwidth run on up to 48 threads starts one for each core number, in regions that do
-- not meet. The region that is mapped is large enough for up to 27 threads, and for no more.
pub benchmark_bw_random-Placed :
    (n size start : ℕ) (read nt : Bool)
    → n ≤ 48
    → (ts : List Thread) × (benchmark_bw_random n size start read nt ≡ some ts) × Placed start n ts
unfolding benchmark_bw_random
benchmark_bw_random-Placed n size start read nt few =
    let (ts, e, s) =
      start_threads-Started (bw_thread size_bwjob size start read nt) 0 n (omega arith) in
    (ts, e, Started-Placed size_bwjob size start read nt n ts s)

-- On more than 48 threads every bandwidth run reads past the end of the table of cores.
pub bandwidth_undefined :
    (n size start fd : ℕ) (read flag : Bool)
    → 48 < n
    → (benchmark_bw_seq n size start read flag ≡ none)
      × (benchmark_bw_random n size start read flag ≡ none)
      × (benchmark_bw_ssd n size start read flag fd ≡ none)
unfolding benchmark_bw_seq benchmark_bw_random benchmark_bw_ssd
bandwidth_undefined n size start fd read flag many = (
  start_threads_undefined (bw_thread strided_bwjob size start read flag) 0 n (omega arith)
      (omega arith),
  start_threads_undefined (bw_thread size_bwjob size start read flag) 0 n (omega arith)
      (omega arith),
  start_threads_undefined (ssd_thread size start read flag fd) 0 n (omega arith) (omega arith),
)
