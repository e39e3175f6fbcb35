-- ===== src/Chasing/Cycle.antt =====
-- The index that init_chasing_index lays out is one cycle through all of its entries.
use database_benchmarking_op.Prelude.{
  ℕ, zero, suc, ◌+◌, ◌%◌, ◌≤◌, ◌<◌, false, Bool-cases, Option, none, some, ◌==◌, ◌≡◌, ◌≢◌, ◌⊎◌, inl,
  inr, refl, sym, ap, ◌∙◌, arith, if◌then◌else◌, ==→eq, eq→==, ne→==, false≢true,
}
use native.Mathlib.Decide.{dec_lt}
use database_benchmarking_op.Chasing.Index.{
  Drawn, retry, get_rand, Run, returned, failed, divided, running, and_then, put, is_taken, pick,
  fill, init_chasing_index, rdrand_max_retry,
}

-- Where `n` steps along the index lead from entry 0.
abbrev pub walk : (ℕ → ℕ) → ℕ → ℕ
walk f zero = 0
walk f (suc n) = f (walk f n)

-- The first `n` entries on the way are different, and are entries.
pub record Trail (csize : ℕ) (f : ℕ → ℕ) (n : ℕ) : Type 0 where
  pub distinct : (i j : ℕ) → i < j → j < n → walk f i ≢ walk f j
  pub bounded : (i : ℕ) → i < n → walk f i < csize

-- One cycle through all `csize` entries.
pub record IsCycle (csize : ℕ) (f : ℕ → ℕ) : Type 0 where
  pub trail : Trail csize f csize
  pub closed : walk f csize ≡ 0

-- The trail so far ends in `curr`, which leads nowhere yet.
pub record Laid (csize : ℕ) (f : ℕ → ℕ) (m curr : ℕ) : Type 0 where
  pub trail : Trail csize f (suc m)
  pub here : walk f m ≡ curr
  pub ends : f curr ≡ 0

pub put_same : (f : ℕ → ℕ) (i v : ℕ) → put f i v i ≡ v
put_same f i v = rw (eq→== i i refl) refl

pub put_other : (f : ℕ → ℕ) (i v j : ℕ) → j ≢ i → put f i v j ≡ f j
put_other f i v j ne = rw (ne→== j i ne) refl

module _ (csize : ℕ) (f : ℕ → ℕ) (m curr next : ℕ) (l : Laid csize f m curr) (small : next < csize)
    (free : f next ≡ 0) (moves : next ≢ curr) where
  -- The trail so far stays as it was.
  kept : (i : ℕ) → i ≤ m → walk (put f curr next) i ≡ walk f i
  kept zero h = refl
  kept (suc i) h =
      let before : walk f i ≢ curr =
        λ e. l.trail.distinct i m (omega arith) (omega arith) (e ∙ sym l.here) in
      ap (put f curr next) (kept i (omega arith)) ∙ put_other f curr next (walk f i) before

  onward : walk (put f curr next) (suc m) ≡ next
  onward = ap (put f curr next) (kept m (omega arith) ∙ l.here) ∙ put_same f curr next

  -- No entry of the trail is unset but the last.
  pub fresh : (i : ℕ) → i ≤ m → walk f i ≢ next
  fresh i h e = elim (dec_lt i m) [
    | yes lt ↦ l.trail.distinct 0 (suc i) (omega arith) (omega arith) (sym free ∙ ap f (sym e))
    | no ge ↦ let last : i ≡ m = omega arith in moves (sym e ∙ ap (walk f) last ∙ l.here)
  ]

  pub step-Laid : Laid csize (put f curr next) (suc m) next
  step-Laid = record {
    trail = record {
      distinct = λ i j lt below. elim (dec_lt j (suc m)) [
        | yes old ↦
            λ e. l.trail.distinct i j lt old (sym (kept i (omega arith)) ∙ e ∙ kept j (omega arith))
        | no new ↦ λ e.
            let last : j ≡ suc m = omega arith in
            fresh i (omega arith)
              (sym (kept i (omega arith)) ∙ e ∙ ap (walk (put f curr next)) last ∙ onward)
      ];
      bounded = λ i below. elim (dec_lt i (suc m)) [
        | yes old ↦ rw (kept i (omega arith)) (l.trail.bounded i old)
        | no new ↦
            let last : i ≡ suc m = omega arith in
            rw (ap (walk (put f curr next)) last ∙ onward) small
      ];
    };
    here = onward;
    ends = put_other f curr next next moves ∙ free;
  }

-- What is returned with 0 satisfies `P`; nothing is divided by 0.
abbrev pub OnReturn : {A : Type 0} → (A → Type 0) → Run A → Type 0
OnReturn P (returned a) = P a
OnReturn P failed = Unit
OnReturn P divided = ⊥
OnReturn P running = Unit

OnReturn-then :
    {A B : Type 0} (P : A → Type 0) (Q : B → Type 0) (r : Run A) (next : A → Run B)
    → OnReturn P r
    → ((a : A) → P a → OnReturn Q (next a))
    → OnReturn Q (and_then r next)
OnReturn-then P Q (returned a) next h k = k a h
OnReturn-then P Q failed next h k = tt
OnReturn-then P Q divided next h k = h
OnReturn-then P Q running next h k = tt

-- A draw that may be taken: an entry that is unset, and is not the current one.
pub record IsFree (csize : ℕ) (f : ℕ → ℕ) (curr : ℕ) (d : Drawn) : Type 0 where
  pub entry : d.value < csize
  pub unset : f d.value ≡ 0
  pub moves : d.value ≢ curr

pub taken_lem :
    (f : ℕ → ℕ) (curr next : ℕ) → is_taken f curr next ≡ false → (f next ≡ 0) × (next ≢ curr)
taken_lem f curr next h = elim (Bool-cases (f next == 0)) [
  | inl unset ↦ elim (Bool-cases (next == curr)) [
    | inl same ↦ absurd (false≢true (sym h ∙ rw (unset, same) refl))
    | inr other ↦ (==→eq (f next) 0 unset, λ e. false≢true (sym other ∙ eq→== next curr e))
  ]
  | inr set ↦ absurd (false≢true (sym h ∙ rw set refl))
]

pub option_cases {ℓ} : {A : Type ℓ} (o : Option A) → (o ≡ none) ⊎ ((a : A) × (o ≡ some a))
option_cases none = inl refl
option_cases (some a) = inr (a, refl)

retry-none :
    (rdrand : ℕ → Option ℕ) (range k left : ℕ)
    → rdrand k ≡ none
    → retry rdrand range k (suc left) ≡ retry rdrand range (k + 1) left
unfolding retry
retry-none rdrand range k left e = rw (e, retry) refl

pub retry-some :
    (rdrand : ℕ → Option ℕ) (range k left v : ℕ)
    → rdrand k ≡ some v
    → retry rdrand range k (suc left) ≡ some (record { value = v % range; next = k + 1 })
unfolding retry
retry-some rdrand range k left v e = rw (e, retry) refl

retry_cases :
    (rdrand : ℕ → Option ℕ) (range k left : ℕ)
    → 0 < range
    → (retry rdrand range k left ≡ none)
      ⊎ ((d : Drawn) × (retry rdrand range k left ≡ some d) × (d.value < range))
unfolding retry
retry_cases rdrand range k zero pos = inl refl
retry_cases rdrand range k (suc left) pos = elim (option_cases (rdrand k)) [
  | inl cleared ↦
      rw (retry-none rdrand range k left cleared) (retry_cases rdrand range (k + 1) left pos)
  | inr (v, drawn) ↦ inr (
    record { value = v % range; next = k + 1 },
    retry-some rdrand range k left v drawn,
    omega arith,
  )
]

get_rand_cases :
    (rdrand : ℕ → Option ℕ) (range k : ℕ)
    → 0 < range
    → (get_rand rdrand range k ≡ none)
      ⊎ ((d : Drawn) × (get_rand rdrand range k ≡ some d) × (d.value < range))
unfolding get_rand
get_rand_cases rdrand range k pos = retry_cases rdrand range k rdrand_max_retry pos

-- One round of the do-while loop, by what is drawn.
pub pick_round :
    (rdrand : ℕ → Option ℕ) (f : ℕ → ℕ) (csize curr k fuel : ℕ) (d : Drawn)
    → get_rand rdrand csize k ≡ some d
    → pick rdrand f csize curr k (suc fuel)
      ≡ (if is_taken f curr d.value then pick rdrand f csize curr d.next fuel else returned d)
unfolding pick
pick_round rdrand f csize curr k fuel d e = rw (e, pick) refl

pick_failed :
    (rdrand : ℕ → Option ℕ) (f : ℕ → ℕ) (csize curr k fuel : ℕ)
    → get_rand rdrand csize k ≡ none
    → pick rdrand f csize curr k (suc fuel) ≡ failed
unfolding pick
pick_failed rdrand f csize curr k fuel e = rw (e, pick) refl

pub pick-IsFree :
    (rdrand : ℕ → Option ℕ) (f : ℕ → ℕ) (csize curr k fuel : ℕ)
    → 0 < csize
    → OnReturn (IsFree csize f curr) (pick rdrand f csize curr k fuel)
unfolding pick
pick-IsFree rdrand f csize curr k zero pos = tt
pick-IsFree rdrand f csize curr k (suc fuel) pos = elim (get_rand_cases rdrand csize k pos) [
  | inl none_drawn ↦ rw (pick_failed rdrand f csize curr k fuel none_drawn) tt
  | inr (d, drawn, small) ↦ elim (Bool-cases (is_taken f curr d.value)) [
    | inl taken ↦
        rw (pick_round rdrand f csize curr k fuel d drawn, taken)
          (pick-IsFree rdrand f csize curr d.next fuel pos)
    | inr free ↦
        let (unset, moves) = taken_lem f curr d.value free in
        rw (pick_round rdrand f csize curr k fuel d drawn, free)
          (record { entry = small; unset = unset; moves = moves })
  ]
]

fill-IsCycle :
    (rdrand : ℕ → Option ℕ) (csize fuel : ℕ) (f : ℕ → ℕ) (m curr k left : ℕ)
    → m + left + 1 ≡ csize
    → Laid csize f m curr
    → OnReturn (IsCycle csize) (fill rdrand csize fuel f curr k left)
unfolding fill
fill-IsCycle rdrand csize fuel f m curr k zero e l =
    let whole : csize ≡ suc m = omega arith in
    rw whole (record { trail = rw whole at l.trail; closed = ap f l.here ∙ l.ends })
fill-IsCycle rdrand csize fuel f m curr k (suc left) e l =
    OnReturn-then (IsFree csize f curr) (IsCycle csize) (pick rdrand f csize curr k fuel) _
      (pick-IsFree rdrand f csize curr k fuel (omega arith))
      λ d free.
        fill-IsCycle rdrand csize fuel (put f curr d.value) (suc m) d.value d.next left
          (omega arith) (step-Laid csize f m curr d.value l free.entry free.unset free.moves)

pub start-Laid : (csize : ℕ) → 0 < csize → Laid csize (λ i. 0) 0 0
start-Laid csize pos = record {
  trail = record {
    distinct = λ i j lt below. absurd (omega arith);
    bounded = λ i below. let first : i ≡ 0 = omega arith in rw first pos;
  };
  here = refl;
  ends = refl;
}

-- For any draws and any number of entries, an index that init_chasing_index returns with 0 is one cycle: from
-- entry 0, as many steps as there are entries lead through different entries, and back to 0.
-- Nothing is divided by 0 if there is an entry.
pub init_chasing_index-IsCycle :
    (rdrand : ℕ → Option ℕ) (fuel csize : ℕ)
    → 0 < csize
    → OnReturn (IsCycle csize) (init_chasing_index rdrand fuel csize)
unfolding init_chasing_index
init_chasing_index-IsCycle rdrand fuel zero pos = absurd (omega arith)
init_chasing_index-IsCycle rdrand fuel (suc rest) pos =
    fill-IsCycle rdrand (suc rest) fuel (λ i. 0) 0 0 0 rest (omega arith)
      (start-Laid (suc rest) pos)
