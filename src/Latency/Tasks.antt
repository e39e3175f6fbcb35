-- ===== src/Latency/Tasks.antt =====
-- The kernel-level task lists of microbenchmarks/common.hpp: the enumerators, and by them the bytes to step
-- on by and the names.
use Prim.Native.String.{String}
use mathlib.Core.Option
use database_benchmarking_op.Prelude.{
  ℕ, zero, suc, ◌+◌, ◌*◌, ◌%◌, ◌^◌, ◌≤◌, List, [], ◌∷◌, ◌++◌, Bool, true, false, get_elem?, Option,
  none, some, ◌≡◌, refl, ap, ◌∙◌, map, if◌then◌else◌,
}
use database_benchmarking_op.Machine.{Cpu}
use database_benchmarking_op.Exec.Ensures.{Ensures}
use database_benchmarking_op.Latency.Macros.{call}
use database_benchmarking_op.Latency.Coverage.{inside, touches, call-touches}
use database_benchmarking_op.Latency.Shape.{entry}
use database_benchmarking_op.Latency.Spec.{
  LatencyOp, load_fence, ntload_fence, store_fence, store_clflush, store_clwb, store_clflushopt,
  ntstore_fence, store_fence_movq, store_clflush_movq, load_fence_movq, lines, timed_section,
}
use database_benchmarking_op.Latency.Tables.{AccessSize, bytes64, bytes128, bytes256}

-- Entries that are there only if the machine is said to have persistent memory.
abbrev when {ℓ} : {A : Type ℓ} → Bool → List A → List A → List A
when present xs rest = (if present then xs else []) ++ rest

-- enum latency_tasks: what the enumerators stand for, in order; the last is the baseline.
unfoldable pub latency_tasks : (aep_supported : Bool) → List (Option (LatencyOp × AccessSize))
latency_tasks aep_supported =
    some (load_fence, bytes64)
    ∷ some (ntload_fence, bytes64)
    ∷ some (store_fence, bytes64)
    ∷ some (store_clflush, bytes64)
    ∷ when aep_supported (some (store_clwb, bytes64) ∷ some (store_clflushopt, bytes64) ∷ []) (
        some (ntstore_fence, bytes64)
        ∷ some (store_fence_movq, bytes64)
        ∷ some (store_clflush_movq, bytes64)
        ∷ some (load_fence_movq, bytes64)
        ∷ some (load_fence, bytes128)
        ∷ some (ntload_fence, bytes128)
        ∷ some (store_fence, bytes128)
        ∷ some (store_clflush, bytes128)
        ∷ when aep_supported (some (store_clwb, bytes128) ∷ some (store_clflushopt, bytes128) ∷ [])
            (some (ntstore_fence, bytes128)
              ∷ some (store_fence_movq, bytes128)
              ∷ some (store_clflush_movq, bytes128)
              ∷ some (load_fence_movq, bytes128)
              ∷ some (load_fence, bytes256)
              ∷ some (ntload_fence, bytes256)
              ∷ some (store_fence, bytes256)
              ∷ some (store_clflush, bytes256)
              ∷ when aep_supported
                  (some (store_clwb, bytes256) ∷ some (store_clflushopt, bytes256) ∷ [])
                  (some (ntstore_fence, bytes256)
                    ∷ some (store_fence_movq, bytes256)
                    ∷ some (store_clflush_movq, bytes256)
                    ∷ some (load_fence_movq, bytes256)
                    ∷ none
                    ∷ [])))

unfoldable pub latency_tasks_skip : (aep_supported : Bool) → List ℕ
latency_tasks_skip aep_supported =
    64
    ∷ 64
    ∷ 64
    ∷ 64
    ∷ when aep_supported (64 ∷ 64 ∷ []) (
        64
        ∷ 64
        ∷ 64
        ∷ 64
        ∷ 128
        ∷ 128
        ∷ 128
        ∷ 128
        ∷ when aep_supported (128 ∷ 128 ∷ []) (
            128
            ∷ 128
            ∷ 128
            ∷ 128
            ∷ 256
            ∷ 256
            ∷ 256
            ∷ 256
            ∷ when aep_supported (256 ∷ 256 ∷ []) (256 ∷ 256 ∷ 256 ∷ 256 ∷ 0 ∷ [])))

unfoldable pub latency_tasks_str : (aep_supported : Bool) → List String
latency_tasks_str aep_supported =
    "load-fence-64"
    ∷ "ntload-fence-64"
    ∷ "store-fence-64"
    ∷ "store-clflush-64"
    ∷ when aep_supported ("store-clwb-64" ∷ "store-clflushopt-64" ∷ []) (
        "nstore-fence-64"
        ∷ "store-fence-movq-64"
        ∷ "store-clflush-movq-64"
        ∷ "load-fence-movq-64"
        ∷ "load-fence-128"
        ∷ "ntload-fence-128"
        ∷ "store-fence-128"
        ∷ "store-clflush-128"
        ∷ when aep_supported ("store-clwb-128" ∷ "store-clflushopt-128" ∷ []) (
            "nstore-fence-128"
            ∷ "store-fence-movq-128"
            ∷ "store-clflush-movq-128"
            ∷ "load-fence-movq-128"
            ∷ "load-fence-256"
            ∷ "ntload-fence-256"
            ∷ "store-fence-256"
            ∷ "store-clflush-256"
            ∷ when aep_supported ("store-clwb-256" ∷ "store-clflushopt-256" ∷ []) (
                "nstore-fence-256" ∷ "store-fence-movq-256" ∷ "store-clflush-movq-256"
                ∷ "load-fence-movq-256" ∷ "baseline" ∷ [])))

-- The bytes of a task.
abbrev task_bytes : Option (LatencyOp × AccessSize) → ℕ
task_bytes none = 0
task_bytes (some (op, size)) = lines size * 64

skip_lem : (aep : Bool) → latency_tasks_skip aep ≡ map task_bytes (latency_tasks aep)
unfolding latency_tasks_skip latency_tasks
skip_lem true = refl
skip_lem false = refl

get_elem?-map {ℓ κ} :
    {A : Type ℓ} {B : Type κ} (f : A → B) (xs : List A) (i : ℕ)
    → get_elem? (map f xs) i ≡ Option.map f (get_elem? xs i)
get_elem?-map f [] i = refl
get_elem?-map f (x ∷ xs) zero = refl
get_elem?-map f (x ∷ xs) (suc i) = get_elem?-map f xs i

-- Whether or not the machine is said to have persistent memory: for each enumerator of latency_tasks but the
-- baseline, latency_tasks_skip has a number of bytes at its place, and the function of common.hpp of that name and
-- size touches between its time stamps each of that many bytes from its address on once, and no other; at a
-- line-aligned address from which they do not run past the end of the address space. So calls that many
-- bytes apart touch neighbouring ranges.
pub latency_tasks_skip_lem :
    (aep : Bool) (i : ℕ) (op : LatencyOp) (size : AccessSize) (addr x : ℕ) (c : Cpu)
    → get_elem? (latency_tasks aep) i ≡ some (some (op, size))
    → addr % 64 ≡ 0
    → addr + lines size * 64 ≤ 2 ^ 64
    → (skip : ℕ) × (get_elem? (latency_tasks_skip aep) i ≡ some skip)
      × Ensures
          (λ (r, d). touches (timed_section d.history) x ≡ inside addr skip x)
          (call (entry op size addr) c)
latency_tasks_skip_lem aep i op size addr x c at m fits = (
  lines size * 64,
  ap (λ (l : List ℕ). get_elem? l i) (skip_lem aep)
      ∙ get_elem?-map task_bytes (latency_tasks aep) i
      ∙ ap (Option.map task_bytes) at,
  call-touches op size addr x c m fits,
)
