-- ===== src/Latency/Persistence.antt =====
-- Which lines a storing latency kernel leaves flushed before its last fence.
use database_benchmarking_op.Prelude.{
  ℕ, zero, suc, ◌+◌, ◌*◌, ◌/◌, ◌%◌, ◌^◌, ◌≤◌, ◌<◌, List, [], ◌∷◌, Bool, true, false, ◌&&◌, ◌||◌,
  Option, none, some, ◌≡◌, ◌≢◌, refl, ◌∙◌, ap, arith, ◌==◌, if◌then◌else◌,
}
use native.Mathlib.Decide.{ℕ_discrete}
use database_benchmarking_op.Machine.{
  Access, read, nt_read, write, nt_write, Event, access, flushed, fenced, FlushOp, Cpu, u64, lfence,
}
use database_benchmarking_op.Exec.Ensures.{Ensures, Ensures-weaken}
use database_benchmarking_op.Latency.Macros.{call}
use database_benchmarking_op.Latency.Tables.{AccessSize}
use database_benchmarking_op.Latency.Spec.{
  LatencyOp, Style, style, lines, accesses, line_flush, line_events, timed_section, timed_spec,
}
use database_benchmarking_op.Latency.Shape.{entry}
use database_benchmarking_op.Latency.Correct.{Measures, call-Measures}
use database_benchmarking_op.Latency.Coverage.{full_line}

abbrev pub is_store : Access → Bool
is_store read = false
is_store nt_read = false
is_store write = true
is_store nt_write = true

-- Whether the latest store that begins in line `l` has been followed by a flush of that line.
unfoldable pub is_flushed : ℕ → List Event → Bool
is_flushed l [] = false
is_flushed l (flushed f a ∷ h) = (a / 64 == l) || is_flushed l h
is_flushed l (access k a w ∷ h) = if is_store k && (a / 64 == l) then false else is_flushed l h
is_flushed l (_ ∷ h) = is_flushed l h

abbrev pub has_flush : Option FlushOp → Bool
has_flush none = false
has_flush (some f) = true

module _ (s : Style) (addr line : ℕ) (m : addr % 64 ≡ 0) (stores : is_store s.kind ≡ true) where
  -- Accesses within another line leave line `l` as it was.
  elsewhere :
      (n l : ℕ) (h : List Event)
      → addr + suc line * 64 ≤ 2 ^ 64
      → n * s.width ≤ 64
      → 0 < s.width
      → addr / 64 + line ≢ l
      → is_flushed l (accesses s addr (line * 64) n h) ≡ is_flushed l h
  unfolding is_flushed
  elsewhere zero l h fits small pos other = refl
  elsewhere (suc n) l h fits small pos other =
      let here : u64 (addr + (line * 64 + n * s.width)) / 64 ≡ addr / 64 + line = omega arith in
      ground (arith, here, elsewhere n l h)

  -- A line that has been stored to and not flushed since.
  stored :
      (n : ℕ) (h : List Event)
      → addr + suc line * 64 ≤ 2 ^ 64
      → n * s.width ≤ 64
      → 0 < s.width
      → 0 < n
      → is_flushed (addr / 64 + line) (accesses s addr (line * 64) n h) ≡ false
  unfolding is_flushed
  stored zero h fits small wide pos = absurd (omega arith)
  stored (suc n) h fits small wide pos =
      let here : u64 (addr + (line * 64 + n * s.width)) / 64 ≡ addr / 64 + line = omega arith in
      ground (arith, here)

is_flushed-line_flush :
    (f : Option FlushOp) (a l : ℕ) (h : List Event)
    → is_flushed l (line_flush f a h) ≡ ((has_flush f && (a / 64 == l)) || is_flushed l h)
unfolding is_flushed
is_flushed-line_flush none a l h = refl
is_flushed-line_flush (some f) a l h = refl

pub is_flushed-line_events :
    (s : Style) (addr n i : ℕ) (h : List Event)
    → addr % 64 ≡ 0
    → is_store s.kind ≡ true
    → s.per_line * s.width ≡ 64
    → addr + n * 64 ≤ 2 ^ 64
    → i < n
    → is_flushed (addr / 64 + i) (line_events s addr n h) ≡ has_flush s.flush_by
is_flushed-line_events s addr zero i h m stores full fits lt = absurd (omega arith)
is_flushed-line_events s addr (suc n) i h m stores full fits lt =
    let flush_at = u64 (addr + n * 64) in
    let here : flush_at / 64 ≡ addr / 64 + n = omega arith in
    let before = line_events s addr n h in
    let marked =
      is_flushed-line_flush s.flush_by flush_at (addr / 64 + i)
        (accesses s addr (n * 64) s.per_line before) in
    elim (ℕ_discrete i n) [
      | yes last ↦ ground (
        arith,
        marked,
        here,
        last,
        stored s addr n m stores s.per_line before fits (omega arith) (grind arith) (grind arith),
        ap (λ (t : ℕ). is_flushed (addr / 64 + t) (accesses s addr (n * 64) s.per_line before))
            last,
      )
      | no other ↦ ground (
        arith,
        marked,
        here,
        elsewhere s addr n m stores s.per_line (addr / 64 + i) before fits (omega arith)
            (grind arith) (omega arith),
        is_flushed-line_events s addr n i h m stores full (omega arith) (omega arith),
      )
    ]

-- A storing kernel leaves line `i` of its 64, 128 or 256 bytes flushed before its last fence if its
-- name says a flush, and unflushed if not; at a line-aligned address as in `call-touches`.
pub call-is_flushed :
    (op : LatencyOp) (size : AccessSize) (addr i : ℕ) (c : Cpu)
    → is_store (style op).kind ≡ true
    → addr % 64 ≡ 0
    → addr + lines size * 64 ≤ 2 ^ 64
    → i < lines size
    → Ensures
        (λ (r, d).
          is_flushed (addr / 64 + i) (timed_section d.history) ≡ has_flush (style op).flush_by)
        (call (entry op size addr) c)
unfolding is_flushed
call-is_flushed op size addr i c stores m fits lt =
    Ensures-weaken (Measures (timed_spec op size addr) c) _ (call (entry op size addr) c)
      (call-Measures op size addr c m)
      λ d h.
        ap (is_flushed (addr / 64 + i)) h.1
        ∙ is_flushed-line_events (style op) addr (lines size) i (fenced lfence ∷ []) m stores
            (full_line op) fits lt
