-- ===== src/Latency/Correct.antt =====
-- What a call of a latency kernel measures, and what it does meanwhile.
use database_benchmarking_op.Prelude.{
  ℕ, zero, suc, ◌+◌, ◌-◌, ◌%◌, ◌^◌, List, [], ◌∷◌, ◌++◌, true, none, some, ◌≡◌, refl, ap, ◌∙◌,
  arith, false≢true,
}
use database_benchmarking_op.Machine.{
  Instr, nop, vbroadcastsd, Cpu, Event, fenced, stamp, mfence, lfence, note, step, exec,
}
use database_benchmarking_op.Exec.Ensures.{Ensures, Ensures-bind, Ensures-weaken, exec_parts}
use database_benchmarking_op.Exec.Straight.{Ran, exec-plain, then_events}
use database_benchmarking_op.Latency.Macros.{load_addr, timing_beg, timing_end, call, Kernel}
use database_benchmarking_op.Latency.Tables.{AccessSize, bytes64}
use database_benchmarking_op.Latency.Timing.{first_reading, second_reading, Timed, exec-Timed}
use database_benchmarking_op.Latency.Spec.{
  LatencyOp, Style, style, lines, accesses, line_flush, line_events, until_stamp, timed_section,
  timed_spec,
}
use database_benchmarking_op.Latency.Shape.{
  all_quiet, entry, prep, Shaped, entry-Shaped, entry-prep,
}

-- The clock is untouched, and no time stamp has been read.
record Unread (c d : Cpu) : Type 0 where
  same_clock : d.clock ≡ c.clock
  same_reads : d.reads ≡ c.reads
  same_history : d.history ≡ c.history

quiet-Unread : (is : List Instr) (c : Cpu) → all_quiet is ≡ true → Ensures (Unread c) (exec is c)
unfolding exec step
quiet-Unread [] c q = record { same_clock = refl; same_reads = refl; same_history = refl }
quiet-Unread (nop ∷ is) c q = quiet-Unread is c q
quiet-Unread (vbroadcastsd n v ∷ is) c q =
    Ensures-weaken _ (Unread c) (exec is _) (quiet-Unread is _ q) λ d u. record {
      same_clock = u.same_clock;
      same_reads = u.same_reads;
      same_history = u.same_history;
    }
quiet-Unread (_ ∷ is) c q = absurd (false≢true q)

until-line_flush :
    (f : _) (a : ℕ) (h : List Event)
    → until_stamp (line_flush f a h) ≡ line_flush f a (until_stamp h)
until-line_flush none a h = refl
until-line_flush (some f) a h = refl

until-accesses :
    (s : Style) (addr from n : ℕ) (h : List Event)
    → until_stamp (accesses s addr from n h) ≡ accesses s addr from n (until_stamp h)
until-accesses s addr from zero h = refl
until-accesses s addr from (suc n) h = rw (until-accesses s addr from n h) refl

until-line_events :
    (s : Style) (addr n : ℕ) (h : List Event)
    → until_stamp (line_events s addr n h) ≡ line_events s addr n (until_stamp h)
until-line_events s addr zero h = refl
until-line_events s addr (suc n) h =
    rw (until-line_flush, until-accesses, until-line_events s addr n h) refl

-- The difference of the counter's next two readings, as a uint64_t.
abbrev pub elapsed : Cpu → ℕ
elapsed c = (second_reading c + 2 ^ 64 - first_reading c) % 2 ^ 64

-- A call returns the time that passed between two readings of the counter, and between them it did
-- what `spec` says. It reads the counter just these two times.
abbrev pub Measures : List Event → Cpu → ℕ × Cpu → Type 0
Measures spec c (r, d) =
    (r ≡ elapsed c)
    × (timed_section d.history ≡ spec)
    × (d.clock ≡ c.clock)
    × (d.reads ≡ c.reads + 2)

-- The history after a call of a kernel with the preparation `ready`, from the history `h` before it, with
-- two readings of the counter: the preparation, the first reading, the lines, the second reading.
abbrev pub call_history :
    LatencyOp
    → AccessSize
    → (ready : List Instr) → (addr first second : ℕ) → List Event
    → List Event
call_history op size ready addr first second h =
    fenced lfence
    ∷ stamp second
    ∷ fenced mfence
    ∷ line_events (style op) addr (lines size)
        (fenced lfence ∷ stamp first ∷ then_events addr ready (fenced mfence ∷ h))

abbrev FinishedFrom : LatencyOp → AccessSize → ℕ → (List Event → List Event) → Cpu → Cpu → Type 0
FinishedFrom op size addr prepared c d =
    (d.t1 ≡ first_reading c)
    × (d.t2 ≡ second_reading c)
    × (d.history
        ≡ fenced lfence
          ∷ stamp (second_reading c)
          ∷ fenced mfence
          ∷ line_events (style op) addr (lines size)
              (fenced lfence ∷ stamp (first_reading c) ∷ prepared c.history))
    × (d.clock ≡ c.clock)
    × (d.reads ≡ c.reads + 2)

-- A call does what `spec` says between the readings, and `made` is what it makes of the history.
abbrev pub Called : List Event → (ℕ → ℕ → List Event → List Event) → Cpu → ℕ × Cpu → Type 0
Called spec made c (r, d) =
    (d.history ≡ made (first_reading c) (second_reading c) c.history) × Measures spec c (r, d)

timed_section-line_events :
    (op : LatencyOp) (size : AccessSize) (addr first second : ℕ) (h : List Event)
    → timed_section (
        fenced lfence
        ∷ stamp second
        ∷ fenced mfence
        ∷ line_events (style op) addr (lines size) (fenced lfence ∷ stamp first ∷ h))
      ≡ timed_spec op size addr
timed_section-line_events op size addr first second h =
    ap (λ l. fenced mfence ∷ l)
      (until-line_events (style op) addr (lines size) (fenced lfence ∷ stamp first ∷ h))

module _ (op : LatencyOp) (size : AccessSize) (addr : ℕ) {k : Kernel} (s : Shaped op size addr k)
    (m : addr % 64 ≡ 0) where
  -- What a part of the kernel makes of the history, up to the first reading.
  abbrev Finished : (List Event → List Event) → Cpu → Cpu → Type 0
  Finished prepared c d = FinishedFrom op size addr prepared c d

  Timed-Finished : {c d : Cpu} → c.rsi ≡ addr → Timed s.body c d → Finished (λ h. h) c d
  Timed-Finished {c} {d} e t =
      let before : List Event = fenced lfence ∷ stamp (first_reading c) ∷ c.history in
      let events : then_events c.rsi s.body before
          ≡ line_events (style op) addr (lines size) before =
        ap (λ b. then_events b s.body before) e ∙ s.body_events before in
      (
        t.first,
        t.second,
        t.recorded ∙ ap (λ l. fenced lfence ∷ stamp (second_reading c) ∷ fenced mfence ∷ l) events,
        t.clock_kept,
        t.two_reads,
      )

  after_ready :
      (c : Cpu)
      → c.rsi ≡ addr
      → Ensures
          (Finished (then_events addr s.ready) c)
          (exec (s.ready ++ (timing_beg ++ (s.body ++ timing_end))) c)
  after_ready c e =
      exec_parts (Ran (then_events c.rsi s.ready c.history) c)
        (Finished (then_events addr s.ready) c) s.ready (timing_beg ++ (s.body ++ timing_end)) c
        (exec-plain s.ready c (rw e m) s.ready_plain)
        λ d r.
          Ensures-weaken (Timed s.body d) (Finished (then_events addr s.ready) c)
            (exec (timing_beg ++ (s.body ++ timing_end)) d)
            (exec-Timed s.body d (rw (r.frame.same_rsi, e) m) s.body_plain)
            λ f t.
              let (x, y, z, clocks, count) = Timed-Finished {c = d} (r.frame.same_rsi ∙ e) t in
              let prepared : d.history ≡ then_events addr s.ready c.history =
                r.traced ∙ rw e refl in
              (
                rw (← r.frame.same_clock, ← r.frame.same_reads) x,
                rw (← r.frame.same_clock, ← r.frame.same_reads) y,
                rw (← r.frame.same_clock, ← r.frame.same_reads, ← prepared) z,
                clocks ∙ r.frame.same_clock,
                omega (arith, r.frame.same_reads),
              )

  abbrev loaded : List Event → List Event
  loaded h = then_events addr s.ready (fenced mfence ∷ h)

  after_load :
      (c : Cpu)
      → Ensures
          (Finished loaded c)
          (exec (load_addr addr ++ (s.ready ++ (timing_beg ++ (s.body ++ timing_end)))) c)
  unfolding load_addr exec step
  after_load c = after_ready (note (fenced mfence) (record c { rsi = addr })) refl

  whole : (c : Cpu) → Ensures (Finished loaded c) (exec k.asm c)
  whole c =
      let tail = load_addr addr ++ (s.ready ++ (timing_beg ++ (s.body ++ timing_end))) in
      rw s.parts (
        exec_parts (Unread c) (Finished loaded c) s.start tail c
          (quiet-Unread s.start c s.start_quiet)
          λ d u.
            Ensures-weaken (Finished loaded d) (Finished loaded c) (exec tail d) (after_load d)
              λ f (x, y, z, clocks, count). (
                rw (← u.same_clock, ← u.same_reads) x,
                rw (← u.same_clock, ← u.same_reads) y,
                rw (← u.same_clock, ← u.same_reads, ← u.same_history) z,
                clocks ∙ u.same_clock,
                omega (arith, u.same_reads),
              ))

pub Shaped-Called :
    (op : LatencyOp) (size : AccessSize) (addr : ℕ) (k : Kernel) (c : Cpu)
    (s : Shaped op size addr k)
    → addr % 64 ≡ 0
    → Ensures (Called (timed_spec op size addr) (call_history op size s.ready addr) c) (call k c)
unfolding call
Shaped-Called op size addr k c s m =
    let fresh : Cpu = record c { t1 = 0; t2 = 0 } in
    Ensures-bind
      (FinishedFrom op size addr (λ h. then_events addr s.ready (fenced mfence ∷ h)) fresh)
      (Called (timed_spec op size addr) (call_history op size s.ready addr) c) (exec k.asm fresh) _
      (whole op size addr s m fresh)
      λ d (x, y, z, clocks, count). (
        z,
        (
          rw (x, y) refl,
          ap timed_section z
              ∙ timed_section-line_events op size addr (first_reading c) (second_reading c)
                  (then_events addr s.ready (fenced mfence ∷ c.history)),
          clocks,
          count,
        ),
      )

pub Shaped-Measures :
    (op : LatencyOp) (size : AccessSize) (addr : ℕ) (k : Kernel) (c : Cpu)
    → Shaped op size addr k
    → addr % 64 ≡ 0
    → Ensures (Measures (timed_spec op size addr) c) (call k c)
Shaped-Measures op size addr k c s m =
    Ensures-weaken (Called (timed_spec op size addr) (call_history op size s.ready addr) c)
      (Measures (timed_spec op size addr) c) (call k c) (Shaped-Called op size addr k c s m)
      λ (r, d) (_, h). h

-- For each of the ten operations and three sizes, a call at a line-aligned address does not fault.
-- It returns the ticks between two readings of the counter, modulo 2 ^ 64, and between these it does
-- what the operation's name and size say: the lines in order, each with its accesses and then its
-- flush, after a load fence and before a full fence. It reads the counter no other time.
pub call-Measures :
    (op : LatencyOp) (size : AccessSize) (addr : ℕ) (c : Cpu)
    → addr % 64 ≡ 0
    → Ensures (Measures (timed_spec op size addr) c) (call (entry op size addr) c)
call-Measures op size addr c m =
    Shaped-Measures op size addr (entry op size addr) c (entry-Shaped op size addr) m

-- The history after a call of a 64-byte kernel.
abbrev pub line_history : LatencyOp → (addr first second : ℕ) → List Event → List Event
line_history op addr = call_history op bytes64 (prep op) addr

pub call_line-Called :
    (op : LatencyOp) (addr : ℕ) (c : Cpu)
    → addr % 64 ≡ 0
    → Ensures
        (Called (timed_spec op bytes64 addr) (line_history op addr) c)
        (call (entry op bytes64 addr) c)
call_line-Called op addr c m =
    rw (entry-prep op addr) at
      (Shaped-Called op bytes64 addr (entry op bytes64 addr) c (entry-Shaped op bytes64 addr) m)
