-- ===== src/Memaccess/ChaseTouches.antt =====
-- Which bytes the chasing functions of microbenchmarks/memaccess.cc touch, with an index of
-- init_chasing_index.
use database_benchmarking_op.Prelude.{
  ℕ, zero, suc, ◌+◌, ◌*◌, ◌%◌, ◌^◌, ◌≤◌, ◌<◌, List, ◌⊎◌, Option, ◌≡◌, refl, sym, ap, ◌∙◌, subst,
  arith,
}
use native.Mathlib.Nat.{suc-mul, zero-mul, mul-le-mul_right}
use database_benchmarking_op.Machine.{Cpu, Event, u64, ◌⨾◌, exec_code}
use database_benchmarking_op.Exec.Ensures.{Ensures, Ensures-bind, Ensures-weaken}
use database_benchmarking_op.Latency.Coverage.{inside, touches}
use database_benchmarking_op.Chasing.Index.{returned, init_chasing_index}
use database_benchmarking_op.Chasing.Cycle.{walk, IsCycle, init_chasing_index-IsCycle}
use database_benchmarking_op.Chasing.Covers.{sum_to, sum_to-add, sum_to-walk, IsCycle-lt}
use database_benchmarking_op.Memaccess.Chase.{chain}
use database_benchmarking_op.Memaccess.ChaseLoad.{load_line, chasing_loadnt-Strode}
use database_benchmarking_op.Memaccess.ChaseStore.{StridesLinked, chasing_storeclwb-StridesLinked}
use database_benchmarking_op.Memaccess.ChaseStoreLine.{store_line}
use database_benchmarking_op.Memaccess.ChasingLoops.{chasing_loadnt, chasing_storeclwb}
use database_benchmarking_op.Memaccess.Linking.{Indexed}
use database_benchmarking_op.Memaccess.Strides.{repeated, Strode, times_for}
use database_benchmarking_op.Memaccess.StrideTouches.{inside-add}

-- Ranges side by side.
sum_to-inside : (a w n x : ℕ) → sum_to (λ l. inside (a + l * w) w x) n ≡ inside a (n * w) x
sum_to-inside a w zero x = let none_yet : 0 * w ≡ 0 = zero-mul w in rw none_yet (ground arith)
sum_to-inside a w (suc n) x =
    let up : suc n * w ≡ n * w + w = suc-mul n w in
    rw up (omega (arith, sum_to-inside a w n x, inside-add a (n * w) w x))

touches-chain :
    (line : ℕ → ℕ → List Event → List Event) (g per : ℕ → ℕ) (n a k x : ℕ) (h : List Event)
    → ((l : ℕ) (before : List Event)
        → l < n
        → touches (line a l before) x ≡ per l + touches before x)
    → ((i : ℕ) → i < k → walk g i < n)
    → touches (chain line g k a h) x ≡ sum_to (λ i. per (walk g i)) k + touches h x
touches-chain line g per n a zero x h each small = omega arith
touches-chain line g per n a (suc k) x h each small = omega (
  arith,
  each (walk g k) (chain line g k a h) (small k (omega arith)),
  touches-chain line g per n a k x h each (λ i lt. small i (omega arith)),
)

-- Along a cycle that is all of the region.
touches-cycle :
    (line : ℕ → ℕ → List Event → List Event) (g per : ℕ → ℕ) (n a x : ℕ) (h : List Event)
    → ((l : ℕ) (before : List Event)
        → l < n
        → touches (line a l before) x ≡ per l + touches before x)
    → IsCycle n g
    → touches (chain line g n a h) x ≡ sum_to per n + touches h x
touches-cycle line g per n a x h each cycle =
    touches-chain line g per n a n x h each cycle.trail.bounded
    ∙ ap (λ (s : ℕ). s + touches h x) (sum_to-walk n g per cycle)

touches-repeated :
    (made : ℕ → List Event → List Event) (per : ℕ → ℕ) (start skip k x : ℕ) (h : List Event)
    → ((i : ℕ) (before : List Event)
        → i < k
        → touches (made (u64 (start + i * skip)) before) x ≡ per i + touches before x)
    → touches (repeated made start skip k h) x ≡ sum_to per k + touches h x
touches-repeated made per start skip zero x h each = omega arith
touches-repeated made per start skip (suc k) x h each = omega (
  arith,
  each k (repeated made start skip k h) (omega arith),
  touches-repeated made per start skip k x h (λ i before lt. each i before (omega arith)),
)

touches-chain_load :
    (g : ℕ → ℕ) (n a x : ℕ) (h : List Event)
    → a + n * 64 ≤ 2 ^ 64
    → IsCycle n g
    → touches (chain load_line g n a h) x ≡ inside a (n * 64) x + touches h x
unfolding touches
touches-chain_load g n a x h fits cycle =
    touches-cycle load_line g (λ l. inside (a + l * 64) 64 x) n a x h
      (λ l before lt. let at : u64 (a + l * 64) ≡ a + l * 64 = omega arith in rw at refl) cycle
    ∙ ap (λ (s : ℕ). s + touches h x) (sum_to-inside a 64 n x)

touches-chain_store :
    (g : ℕ → ℕ) (n cindex a x : ℕ) (h : List Event)
    → a + n * 64 ≤ 2 ^ 64
    → cindex + n * 8 ≤ 2 ^ 64
    → IsCycle n g
    → touches (chain (store_line cindex) g n a h) x
      ≡ (inside a (n * 64) x + inside cindex (n * 8) x) + touches h x
unfolding touches
touches-chain_store g n cindex a x h fits in_range cycle =
    let lines : ℕ → ℕ = λ l. inside (a + l * 64) 64 x in
    let entries : ℕ → ℕ = λ l. inside (cindex + l * 8) 8 x in
    touches-cycle (store_line cindex) g (λ l. lines l + entries l) n a x h
      (λ l before lt.
        let at : u64 (a + l * 64) ≡ a + l * 64 = omega arith in
        let entry : u64 (cindex + l * 8) ≡ cindex + l * 8 = omega arith in
        rw (at, entry) (omega arith))
      cycle
    ∙ omega (arith, sum_to-add lines entries n, sum_to-inside a 64 n x, sum_to-inside cindex 8 n x)

sum_to_const : (v n : ℕ) → sum_to (λ i. v) n ≡ n * v
sum_to_const v zero = sym (zero-mul v)
sum_to_const v (suc n) =
    let up : suc n * v ≡ n * v + v = suc-mul n v in omega (arith, sum_to_const v n)

-- How many of `count` strides of `w` bytes, `skip` bytes apart, byte `x` is in.
abbrev pub in_strides : (start skip w count x : ℕ) → ℕ
in_strides start skip w count x = sum_to (λ i. inside (start + i * skip) w x) count

module _ (g : ℕ → ℕ) (n start skip count : ℕ) (room : n * 64 ≤ skip)
    (fits : start + count * skip ≤ 2 ^ 64) (cycle : IsCycle n g) where
  stride_fits : (i : ℕ) → i < count → start + i * skip + n * 64 ≤ 2 ^ 64
  stride_fits i lt =
      let up : suc i * skip ≡ i * skip + skip = suc-mul i skip in
      let last : suc i * skip ≤ count * skip = mul-le-mul_right skip (omega arith) in omega arith

  touches-loads :
      (x : ℕ) (h : List Event)
      → 0 < n
      → touches (repeated (chain load_line g n) start skip count h) x
        ≡ in_strides start skip (n * 64) count x + touches h x
  touches-loads x h pos =
      touches-repeated (chain load_line g n) (λ i. inside (start + i * skip) (n * 64) x) start skip
        count x h
        λ i before lt.
          let here : u64 (start + i * skip) ≡ start + i * skip = omega (arith, stride_fits i lt) in
          rw here (touches-chain_load g n (start + i * skip) x before (stride_fits i lt) cycle)

  touches-stores :
      (cindex x : ℕ) (h : List Event)
      → 0 < n
      → cindex + n * 8 ≤ 2 ^ 64
      → touches (repeated (chain (store_line cindex) g n) start skip count h) x
        ≡ in_strides start skip (n * 64) count x + count * inside cindex (n * 8) x + touches h x
  touches-stores cindex x h pos in_range =
      let lines : ℕ → ℕ = λ i. inside (start + i * skip) (n * 64) x in
      let entries : ℕ → ℕ = λ i. inside cindex (n * 8) x in
      touches-repeated (chain (store_line cindex) g n) (λ i. lines i + entries i) start skip count x
        h
        (λ i before lt.
          let here : u64 (start + i * skip) ≡ start + i * skip = omega (arith, stride_fits i lt) in
          rw here (
            touches-chain_store g n cindex (start + i * skip) x before (stride_fits i lt) in_range
              cycle))
      ∙ omega (arith, sum_to-add lines entries count, sum_to_const (inside cindex (n * 8) x) count)

-- The three chasing functions together. An index that init_chasing_index returns with 0 is laid in memory,
-- with as many entries as the lines that `size` bytes take; chasing_storeclwb and then chasing_loadnt run over
-- the same strides. If index and strides lie apart and neither runs past the end of the address space,
-- the strides do not overlap and begin at the start of a line, with a size below 2 ^ 62, less than
-- 2 ^ 57 lines, a count above 0 and below 2 ^ 63, and fuel for the rounds of each loop: each byte of a
-- stride is touched twice more, each byte of the index once for each stride, no other byte is touched, and in
-- the end each line of each stride holds the number of the next, and each byte that is in no line of a stride is
-- as it was, those between the strides too. Nothing faults, and both end.
pub chasing_touches :
    (rdrand : ℕ → Option ℕ) (tries : ℕ) (g : ℕ → ℕ) (n p start size skip count cindex fuel : ℕ)
    (c : Cpu)
    → init_chasing_index rdrand tries n ≡ returned g
    → Indexed g n cindex c.mem
    → n ≡ suc p
    → n < 2 ^ 57
    → p * 64 < size
    → size ≤ suc p * 64
    → size < 2 ^ 62
    → suc p ≤ fuel
    → 0 < count
    → count < 2 ^ 63
    → count ≤ fuel
    → start % 64 ≡ 0
    → skip % 64 ≡ 0
    → n * 64 ≤ skip
    → start + count * skip ≤ 2 ^ 64
    → cindex + n * 8 ≤ 2 ^ 64
    → (cindex + n * 8 ≤ start) ⊎ (start + count * skip ≤ cindex)
    → Ensures
        (λ d.
          StridesLinked g n start skip count c.mem count d.mem
          × ((x : ℕ)
              → touches d.history x
                ≡ 2 * in_strides start skip (n * 64) count x
                  + count * inside cindex (n * 8) x
                  + touches c.history x))
        (exec_code fuel
          (chasing_storeclwb start size skip count cindex
            ⨾ chasing_loadnt start size skip count cindex)
          c)
unfolding exec_code
chasing_touches rdrand tries g n p start size skip count cindex fuel c made index lines few short
      long small enough pos small_count enough_count start_at skip_at room fits in_range apart =
    let cycle : IsCycle n g =
      rw made at (init_chasing_index-IsCycle rdrand tries n (omega arith)) in
    let times : times_for count ≡ count = omega arith in
    let Stored : Cpu → Type 0 = λ d.
      Strode (u64 (count * skip)) count
        (repeated (chain (store_line cindex) g n) start skip count c.history) c d
      × StridesLinked g n start skip count c.mem count d.mem in
    Ensures-bind Stored _ _ _
      (chasing_storeclwb-StridesLinked g n p start size skip count cindex fuel c cycle index lines
        short long small enough pos small_count enough_count start_at skip_at room fits in_range
        apart)
      λ d (s, l).
        let Loaded : ℕ → Cpu → Type 0 = λ k e.
          Strode (u64 (k * skip)) k (repeated (chain load_line g (suc p)) start skip k d.history) d
            e
          × (e.mem ≡ d.mem) in
        Ensures-weaken (Loaded (times_for count)) _ _
          (chasing_loadnt-Strode g n p start size skip count cindex fuel d (omega arith) few
            (λ x lt. IsCycle-lt n g x cycle lt)
            (λ i lt.
              let here : u64 (start + i * skip) ≡ start + i * skip =
                omega (arith, stride_fits g n start skip count room fits cycle i (omega arith)) in
              rw here (l.linked i (omega arith)))
            short long small enough small_count (omega arith) start_at skip_at)
          λ e ends.
            let (t, same) : Loaded count e = subst (λ k. Loaded k e) times ends in
            (
              rw same l,
              λ x.
                  let loads =
                    touches-loads g n start skip count room fits cycle x d.history (omega arith) in
                  let stores =
                    touches-stores g n start skip count room fits cycle cindex x c.history
                      (omega arith) in_range in
                  ap (λ (h : List Event). touches h x) (rw lines t.traced)
                  ∙ loads
                  ∙ omega (arith, ap (λ (h : List Event). touches h x) s.traced, stores),
            )
