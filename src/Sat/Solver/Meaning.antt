-- ===== src/Sat/Solver/Meaning.antt =====
-- What a solver's clause database means, and when its state is well formed.
use emergent_hardware_verifi.Sat.Solver.{Solver, Ref, Clause}
use emergent_hardware_verifi.Sat.Literal.{
  ℤ, variable, member, is_pos, clause_val, all_true, IsLiteral, Assignment,
}
use emergent_hardware_verifi.Prelude.{
  ◌≤◌, ◌≡◌, ◌∷◌, ◌∙◌, ℕ, zero, true, take, suc, some, refl, none, length, get_elem?, flip, arith,
  ap, [], Option, List, Bool, ◌<◌, ◌++◌, ◌&&◌,
}

clause_at : Assignment → List Clause → Ref → Bool
clause_at μ store r = elim (get_elem? store r) [ none ↦ true | some c ↦ clause_val μ c.lits ]

unfoldable pub clauses_val : Assignment → List Clause → List Ref → Bool
unfolding clause_at
clauses_val μ store [] = true
clauses_val μ store (r ∷ rs) = clause_at μ store r && clauses_val μ store rs

-- The literals below the first decision level, which are facts.
abbrev pub root_of : List ℤ → List ℕ → List ℤ
root_of trail [] = trail
root_of trail (start ∷ _) = take start trail

-- The assignment satisfies all that was added: no empty clause, the root facts, and every clause.
unfoldable pub formula_val : Assignment → Solver → Bool
unfolding clauses_val
formula_val μ s =
    flip s.empty && (all_true μ (root_of s.trail s.trail_lim) && clauses_val μ s.store s.clauses)

abbrev pub AllBelow : ℕ → List Ref → Type 0
AllBelow n [] = Unit {0}
AllBelow n (r ∷ rs) = (r < n) × AllBelow n rs

-- A literal of a variable that `new_var` has made.
abbrev pub Known : ℕ → ℤ → Type 0
Known n l = (0 < variable l) × (variable l ≤ n)

abbrev pub AllKnown : ℕ → List ℤ → Type 0
AllKnown n [] = Unit {0}
AllKnown n (l ∷ ls) = Known n l × AllKnown n ls

pub record IsWellFormed (s : Solver) : Type 0 where
  pub stored : AllBelow (length s.store) s.clauses
  -- What is assigned is on the trail.
  pub assigned :
      (l : ℤ)
      → IsLiteral l
      → s.assign (variable l) ≡ some (some (is_pos l))
      → member l s.trail ≡ true
  pub has_assign : (v : ℕ) → 0 < v → v ≤ s.n_vars → (x : Option Bool) × (s.assign v ≡ some x)
  pub has_watches : (l : ℤ) → Known s.n_vars l → (ws : List Ref) × (s.watches l ≡ some ws)

-- Appending to the store changes no clause that is already there.
get_elem?-append_lt :
    (store : List Clause) (c : Clause) (r : Ref)
    → r < length store
    → get_elem? (store ++ c ∷ []) r ≡ get_elem? store r
get_elem?-append_lt [] c r h = absurd (omega arith)
get_elem?-append_lt (x ∷ store) c zero h = refl
get_elem?-append_lt (x ∷ store) c (suc r) h = get_elem?-append_lt store c r (omega arith)

get_elem?-append_end :
    (store : List Clause) (c : Clause) → get_elem? (store ++ c ∷ []) (length store) ≡ some c
get_elem?-append_end [] c = refl
get_elem?-append_end (x ∷ store) c = get_elem?-append_end store c

pub clauses_val-store :
    (μ : Assignment) (store : List Clause) (c : Clause) (rs : List Ref)
    → AllBelow (length store) rs
    → clauses_val μ (store ++ c ∷ []) rs ≡ clauses_val μ store rs
unfolding clauses_val
clauses_val-store μ store c [] h = refl
clauses_val-store μ store c (r ∷ rs) h =
    rw (get_elem?-append_lt store c r h.0, clause_at)
      (ap (λ b. clause_at μ store r && b) (clauses_val-store μ store c rs h.1))

clauses_val-append :
    (μ : Assignment) (store : List Clause) (rs qs : List Ref)
    → clauses_val μ store (rs ++ qs) ≡ (clauses_val μ store rs && clauses_val μ store qs)
unfolding clauses_val
clauses_val-append μ store [] qs = refl
clauses_val-append μ store (r ∷ rs) qs = ground (arith, clauses_val-append μ store rs qs)

-- Storing a clause and listing it conjoins it.
pub clauses_val-added :
    (μ : Assignment) (store : List Clause) (c : Clause) (rs : List Ref)
    → AllBelow (length store) rs
    → clauses_val μ (store ++ c ∷ []) (rs ++ length store ∷ [])
      ≡ (clauses_val μ store rs && clause_val μ c.lits)
unfolding clauses_val
clauses_val-added μ store c rs h =
    clauses_val-append μ (store ++ c ∷ []) rs (length store ∷ [])
    ∙ rw (clauses_val-store μ store c rs h)
        (rw (get_elem?-append_end store c, clause_at) (ground arith))

pub AllBelow-added : (n : ℕ) (rs : List Ref) → AllBelow n rs → AllBelow (suc n) (rs ++ n ∷ [])
AllBelow-added n [] h = (omega arith, tt)
AllBelow-added n (r ∷ rs) h = (omega arith, AllBelow-added n rs h.1)
