-- ===== src/Circuit/Ternary/Steps.antt =====
-- The rounds of the loop of `ternary_eval` as a relation between its states.
use native.Mathlib.Numerals.{one-add}
use native.Mathlib.Nat.{suc-add}
use emergent_hardware_verifi.Circuit.Sig.{xor, var, or, not, nil, ite, const, cons, and, Sigs, Sig}
use emergent_hardware_verifi.Circuit.Ternary.{visit, loop, done, TriEnv, Tri, Sim}
use emergent_hardware_verifi.Prelude.{◌≡◌, ◌∷◌, ℕ, suc, some, refl, [], List, ◌+◌}

-- The environment has every name that the signal reads.
abbrev mutual
  pub Bound : TriEnv → Sig → Type 0
  Bound env (const _ b) = Unit {0}
  Bound env (var _ x) = (v : Tri) × (env x ≡ some v)
  Bound env (not _ a) = Bound env a
  Bound env (and _ xs) = BoundAll env xs
  Bound env (or _ xs) = BoundAll env xs
  Bound env (xor _ a b) = Bound env a × Bound env b
  Bound env (ite _ c t e) = Bound env c × Bound env t × Bound env e

  pub BoundAll : TriEnv → Sigs → Type 0
  BoundAll env nil = Unit {0}
  BoundAll env (cons s ss) = Bound env s × BoundAll env ss

-- Rounds of the loop from one simulator state to another.
pub data Runs (env : TriEnv) (t : Sim) : Sim → Type 0 where
  stop : Runs env t t
  next :
      {s : Sim} (s' : Sim) (top : Sig) (rest : List Sig)
      → s.stack ≡ top ∷ rest
      → visit env top rest s.memo ≡ some s'
      → Runs env t s'
      → Runs env t s

pub Runs-trans : {env : TriEnv} {t u : Sim} {s : Sim} → Runs env t s → Runs env u t → Runs env u s
Runs-trans stop r = r
Runs-trans (next s' top rest e v q) r = next s' top rest e v (Runs-trans q r)

pub loop-Runs :
    (env : TriEnv) (t : Sim) {s : Sim}
    → Runs env t s
    → t.stack ≡ []
    → (n : ℕ) × ((f : ℕ) → loop (n + f) env s ≡ done t.memo)
unfolding loop
loop-Runs env t stop e = (1, λ f. rw (one-add f) (rw (e, loop) refl))
loop-Runs env t (next s' top rest es ev r) e =
    let (n, ends) = loop-Runs env t r e in
    (suc n, λ f. rw (suc-add n f) (rw (es, loop) (rw (ev, loop) (ends f))))
