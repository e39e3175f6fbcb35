-- ===== src/Exec/Ensures.antt =====
-- Total correctness of an outcome: it is `done`, and the result satisfies the postcondition.
use database_benchmarking_op.Prelude.{List, [], ◌∷◌, ◌++◌, ◌≡◌, refl, sym, ◌∙◌}
use database_benchmarking_op.Machine.{Cpu, Instr, Outcome, done, fault, spin, ◌>>=◌, step, exec}

abbrev pub Ensures {ℓ} : {A : Type ℓ} → (A → Type 0) → Outcome A → Type 0
Ensures P (done a) = P a
Ensures P fault = ⊥
Ensures P spin = ⊥

pub Ensures-bind {ℓ κ} :
    {A : Type ℓ} {B : Type κ} (P : A → Type 0) (Q : B → Type 0) (o : Outcome A) (f : A → Outcome B)
    → Ensures P o
    → ((a : A) → P a → Ensures Q (f a))
    → Ensures Q (o >>= f)
Ensures-bind P Q (done a) f h k = k a h
Ensures-bind P Q fault f h k = absurd h
Ensures-bind P Q spin f h k = absurd h

pub Ensures-weaken {ℓ} :
    {A : Type ℓ} (P Q : A → Type 0) (o : Outcome A)
    → Ensures P o
    → ((a : A) → P a → Q a)
    → Ensures Q o
Ensures-weaken P Q (done a) h k = k a h
Ensures-weaken P Q fault h k = absurd h
Ensures-weaken P Q spin h k = absurd h

pub bind_assoc {ℓ κ μ} :
    {A : Type ℓ} {B : Type κ} {C : Type μ} (o : Outcome A) (f : A → Outcome B) (g : B → Outcome C)
    → (o >>= f >>= g) ≡ (o >>= λ a. f a >>= g)
bind_assoc (done a) f g = refl
bind_assoc fault f g = refl
bind_assoc spin f g = refl

pub bind_congr {ℓ κ} :
    {A : Type ℓ} {B : Type κ} (o : Outcome A) {f g : A → Outcome B}
    → ((a : A) → f a ≡ g a)
    → (o >>= f) ≡ (o >>= g)
bind_congr (done a) h = h a
bind_congr fault h = refl
bind_congr spin h = refl

pub bind_done {ℓ} : {A : Type ℓ} (o : Outcome A) → (o >>= λ a. done a) ≡ o
bind_done (done a) = refl
bind_done fault = refl
bind_done spin = refl

pub exec-append : (xs ys : List Instr) (c : Cpu) → exec (xs ++ ys) c ≡ (exec xs c >>= exec ys)
unfolding exec
exec-append [] ys c = refl
exec-append (x ∷ xs) ys c =
    bind_congr (step x c) (exec-append xs ys) ∙ sym (bind_assoc (step x c) (exec xs) (exec ys))

-- A sequence of two parts.
pub exec_parts :
    (P Q : Cpu → Type 0) (xs ys : List Instr) (c : Cpu)
    → Ensures P (exec xs c)
    → ((d : Cpu) → P d → Ensures Q (exec ys d))
    → Ensures Q (exec (xs ++ ys) c)
exec_parts P Q xs ys c h k = rw (exec-append xs ys c) (Ensures-bind P Q (exec xs c) (exec ys) h k)
