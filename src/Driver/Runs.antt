-- ===== src/Driver/Runs.antt =====
-- The actions of a bandwidth job one after the other: what each adds, and what the job adds.
use database_benchmarking_op.Prelude.{
  ℕ, zero, suc, ◌+◌, ◌*◌, List, [], ◌∷◌, ◌++◌, ◌≡◌, refl, sym, ◌∙◌,
}
use native.Mathlib.Nat.{suc-mul, zero-mul, add_comm}
use database_benchmarking_op.Machine.{Cpu, Outcome, ◌>>=◌}
use database_benchmarking_op.Exec.Ensures.{
  Ensures, Ensures-bind, Ensures-weaken, bind_assoc, bind_congr,
}
use database_benchmarking_op.Driver.Jobs.{Action, m_fence, times}
use database_benchmarking_op.Driver.Perform.{perform, perform_all}

-- `P` is kept all the time, and `R n` relates the processor before and after to a quantity that adds up.
module _ (other : Action → Cpu → Outcome Cpu) (seed fuel : ℕ) (P : Cpu → Type 0)
    (R : ℕ → Cpu → Cpu → Type 0) (none_yet : (c : Cpu) → R 0 c c)
    (joined : (m n : ℕ) (c d e : Cpu) → R m c d → R n d e → R (m + n) c e) where
  abbrev all_of : List Action → Cpu → Outcome Cpu
  all_of xs c = perform_all other seed fuel xs c

  abbrev pub Runs : ℕ → List Action → Type 0
  Runs n xs = (c : Cpu) → P c → Ensures (λ d. P d × R n c d) (all_of xs c)

  pub perform_all-append :
      (xs ys : List Action) (c : Cpu) → all_of (xs ++ ys) c ≡ (all_of xs c >>= all_of ys)
  unfolding perform_all
  perform_all-append [] ys c = refl
  perform_all-append (x ∷ xs) ys c =
      bind_congr (perform other seed fuel x c) (perform_all-append xs ys)
      ∙ sym (bind_assoc (perform other seed fuel x c) (all_of xs) (all_of ys))

  pub Runs-append :
      (m n : ℕ) (xs ys : List Action) → Runs m xs → Runs n ys → Runs (m + n) (xs ++ ys)
  Runs-append m n xs ys h k c good = rw (perform_all-append xs ys c) (
      Ensures-bind (λ d. P d × R m c d) (λ e. P e × R (m + n) c e) (all_of xs c) (all_of ys)
        (h c good)
        λ d (kept, r).
          Ensures-weaken (λ e. P e × R n d e) (λ e. P e × R (m + n) c e) (all_of ys d) (k d kept)
            λ e (kept', r'). (kept', joined m n c d e r r'))

  pub Runs-times : (m n : ℕ) (body : List Action) → Runs m body → Runs (n * m) (times n body)
  unfolding perform_all
  Runs-times m zero body h c good = (good, rw (zero-mul m) (none_yet c))
  Runs-times m (suc n) body h c good =
      rw (suc-mul n m, add_comm (n * m) m)
        (Runs-append m (n * m) body (times n body) h (Runs-times m n body h) c good)

  -- A warm-up, a full fence, and a hundred times a call and a fence.
  pub Runs-job :
      (warm once closing : Action) (m n : ℕ)
      → Runs m (warm ∷ [])
      → Runs 0 (m_fence ∷ [])
      → Runs n (once ∷ [])
      → Runs 0 (closing ∷ [])
      → Runs
          (m + 0 + 10 * (10 * (n + 0)))
          (warm ∷ m_fence ∷ times 10 (times 10 (once ∷ closing ∷ [])))
  Runs-job warm once closing m n w f o s =
      let one = Runs-append n 0 (once ∷ []) (closing ∷ []) o s in
      let ten = Runs-times (n + 0) 10 (once ∷ closing ∷ []) one in
      let hundred = Runs-times (10 * (n + 0)) 10 (times 10 (once ∷ closing ∷ [])) ten in
      Runs-append (m + 0) (10 * (10 * (n + 0))) (warm ∷ m_fence ∷ [])
        (times 10 (times 10 (once ∷ closing ∷ []))) (Runs-append m 0 (warm ∷ []) (m_fence ∷ []) w f)
        hundred
