-- ===== src/Driver/Interleaved.antt =====
-- Interleavings of the histories of threads that share no byte.
use database_benchmarking_op.Prelude.{
  ℕ, zero, suc, ◌+◌, ◌<◌, List, [], ◌∷◌, ◌++◌, ◌==◌, ◌≡◌, ◌≢◌, refl, ap, ◌∙◌, ne→==, if◌then◌else◌,
  arith,
}
use native.Mathlib.Decide.{ℕ_discrete}
use database_benchmarking_op.Machine.{Event, access, flushed, fenced, stamp}
use database_benchmarking_op.Latency.Coverage.{inside, touches}

-- The events of two histories in one, each in its own order.
pub data Interleaved : List Event → List Event → List Event → Type 0 where
  ended : Interleaved [] [] []
  first : (e : Event) (h k m : List Event) → Interleaved h k m → Interleaved (e ∷ h) k (e ∷ m)
  second : (e : Event) (h k m : List Event) → Interleaved h k m → Interleaved h (e ∷ k) (e ∷ m)

-- The histories of threads 0 to n - 1 in one.
pub data Merged (hs : ℕ → List Event) : ℕ → List Event → Type 0 where
  no_threads : Merged hs zero []
  one_more :
      (n : ℕ) (m l : List Event) → Merged hs n m → Interleaved m (hs n) l → Merged hs (suc n) l

-- The accesses of a history to byte `x`, in their order.
unfoldable pub accesses_of : ℕ → List Event → List Event
accesses_of x [] = []
accesses_of x (access k a w ∷ h) =
    if inside a w x == 0 then accesses_of x h else access k a w ∷ accesses_of x h
accesses_of x (_ ∷ h) = accesses_of x h

accesses_of_none : (x : ℕ) (h : List Event) → touches h x ≡ 0 → accesses_of x h ≡ []
unfolding accesses_of touches
accesses_of_none x [] none = refl
accesses_of_none x (access k a w ∷ h) none =
    let rest : touches h x ≡ 0 = omega arith in
    let here : inside a w x ≡ 0 = omega arith in rw here (accesses_of_none x h rest)
accesses_of_none x (flushed f a ∷ h) none = accesses_of_none x h none
accesses_of_none x (fenced f ∷ h) none = accesses_of_none x h none
accesses_of_none x (stamp t ∷ h) none = accesses_of_none x h none

-- One event in front of both.
accesses_of_cons :
    (x : ℕ) (e : Event) (h m : List Event)
    → accesses_of x m ≡ accesses_of x h
    → accesses_of x (e ∷ m) ≡ accesses_of x (e ∷ h)
unfolding accesses_of
accesses_of_cons x (access k a w) h m same = rw same refl
accesses_of_cons x (flushed f a) h m same = same
accesses_of_cons x (fenced f) h m same = same
accesses_of_cons x (stamp t) h m same = same

-- An event in front that is no access to `x`.
accesses_of_skip :
    (x : ℕ) (e : Event) (k m h : List Event)
    → touches (e ∷ k) x ≡ 0
    → accesses_of x m ≡ h
    → accesses_of x (e ∷ m) ≡ h
unfolding accesses_of touches
accesses_of_skip x (access kind a w) k m h none same =
    let here : inside a w x ≡ 0 = omega arith in rw here same
accesses_of_skip x (flushed f a) k m h none same = same
accesses_of_skip x (fenced f) k m h none same = same
accesses_of_skip x (stamp t) k m h none same = same

touches_tail : (x : ℕ) (e : Event) (k : List Event) → touches (e ∷ k) x ≡ 0 → touches k x ≡ 0
unfolding touches
touches_tail x (access kind a w) k none = omega arith
touches_tail x (flushed f a) k none = none
touches_tail x (fenced f) k none = none
touches_tail x (stamp t) k none = none

-- Where one of two threads does not touch a byte, the accesses to it are those of the other.
accesses_of-first :
    (x : ℕ) (h k m : List Event)
    → Interleaved h k m
    → touches k x ≡ 0
    → accesses_of x m ≡ accesses_of x h
accesses_of-first x h k m ended none = refl
accesses_of-first x h k m (first e h' k' m' i) none =
    accesses_of_cons x e h' m' (accesses_of-first x h' k' m' i none)
accesses_of-first x h k m (second e h' k' m' i) none =
    accesses_of_skip x e k' m' (accesses_of x h') none
      (accesses_of-first x h' k' m' i (touches_tail x e k' none))

swap-Interleaved : (h k m : List Event) → Interleaved h k m → Interleaved k h m
swap-Interleaved h k m ended = ended
swap-Interleaved h k m (first e h' k' m' i) = second e k' h' m' (swap-Interleaved h' k' m' i)
swap-Interleaved h k m (second e h' k' m' i) = first e k' h' m' (swap-Interleaved h' k' m' i)

-- One after the other is an interleaving.
pub Interleaved-append : (h k : List Event) → Interleaved h k (h ++ k)
Interleaved-append [] [] = ended
Interleaved-append [] (e ∷ k) = second e [] k k (Interleaved-append [] k)
Interleaved-append (e ∷ h) k = first e h k (h ++ k) (Interleaved-append h k)

touches_cons :
    (x : ℕ) (e : Event) (h : List Event) → touches (e ∷ h) x ≡ touches (e ∷ []) x + touches h x
unfolding touches
touches_cons x (access k a w) h = omega arith
touches_cons x (flushed f a) h = omega arith
touches_cons x (fenced f) h = omega arith
touches_cons x (stamp t) h = omega arith

touches-Interleaved :
    (x : ℕ) (h k m : List Event) → Interleaved h k m → touches m x ≡ touches h x + touches k x
unfolding touches
touches-Interleaved x h k m ended = omega arith
touches-Interleaved x h k m (first e h' k' m' i) =
    omega (arith, touches_cons x e h', touches_cons x e m', touches-Interleaved x h' k' m' i)
touches-Interleaved x h k m (second e h' k' m' i) =
    omega (arith, touches_cons x e k', touches_cons x e m', touches-Interleaved x h' k' m' i)

-- What no thread touches is not touched.
pub touches-Merged :
    (x : ℕ) (hs : ℕ → List Event) (n : ℕ) (m : List Event)
    → Merged hs n m
    → ((i : ℕ) → i < n → touches (hs i) x ≡ 0)
    → touches m x ≡ 0
unfolding touches
touches-Merged x hs zero m no_threads none = refl
touches-Merged x hs (suc n) m (one_more n' l m' g i) none = omega (
  arith,
  touches-Interleaved x l (hs n) m i,
  touches-Merged x hs n l g (λ j lt. none j (omega arith)),
  none n (omega arith),
)

-- What one thread alone touches is accessed as that thread does.
pub accesses_of-Merged :
    (x : ℕ) (hs : ℕ → List Event) (j n : ℕ) (m : List Event)
    → Merged hs n m
    → j < n
    → ((i : ℕ) → i < n → i ≢ j → touches (hs i) x ≡ 0)
    → accesses_of x m ≡ accesses_of x (hs j)
accesses_of-Merged x hs j zero m no_threads lt none = absurd (omega arith)
accesses_of-Merged x hs j (suc n) m (one_more n' l m' g i) lt none = elim (ℕ_discrete n j) [
  | yes last ↦
      let others : touches l x ≡ 0 =
        touches-Merged x hs n l g (λ k below. none k (omega arith) λ e. omega (arith, e, last)) in
      accesses_of-first x (hs n) l m (swap-Interleaved l (hs n) m i) others
      ∙ ap (λ (k : ℕ). accesses_of x (hs k)) last
  | no other ↦
      accesses_of-first x l (hs n) m i (none n (omega arith) other)
      ∙ accesses_of-Merged x hs j n l g (omega (arith, other)) (λ k below. none k (omega arith))
]

-- The accesses to a byte touch it as often as all do.
pub touches-accesses_of : (x : ℕ) (h : List Event) → touches (accesses_of x h) x ≡ touches h x
unfolding accesses_of touches
touches-accesses_of x [] = refl
touches-accesses_of x (access k a w ∷ h) = elim (ℕ_discrete (inside a w x) 0) [
  | yes away ↦ rw away (omega (arith, touches-accesses_of x h))
  | no here ↦ rw (ne→== (inside a w x) 0 here) (omega (arith, touches-accesses_of x h))
]
touches-accesses_of x (flushed f a ∷ h) = touches-accesses_of x h
touches-accesses_of x (fenced f ∷ h) = touches-accesses_of x h
touches-accesses_of x (stamp t ∷ h) = touches-accesses_of x h
