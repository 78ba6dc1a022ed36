-- ===== src/Tseitin/State.antt =====
-- What every step of an encoding keeps: the solver stays well formed, the new formula implies the
-- old one, and every model of the old formula extends to the new variables.
use emergent_hardware_verifi.Sat.Solver.Start.{new_solver-IsWellFormed}
use emergent_hardware_verifi.Tseitin.Clauses.{lit_vals}
use emergent_hardware_verifi.Sat.Solver.{new_solver, Solver}
use emergent_hardware_verifi.Sat.Literal.{ℤ, pos, negsuc, lit_val, clause_val, Assignment}
use emergent_hardware_verifi.Sat.Solver.Meaning.{formula_val, Known, IsWellFormed, AllKnown}
use emergent_hardware_verifi.Prelude.{
  ◌||◌, ◌≤◌, ◌≡◌, ◌∷◌, ◌∙◌, ℕ, true, suc, some, refl, flip, if◌then◌else◌, arith, ap₂, ap, [], List,
  Bool, ◌==◌, ◌<◌,
}

abbrev pub Agree : ℕ → Assignment → Assignment → Type 0
Agree n μ ν = (v : ℕ) → 0 < v → v ≤ n → μ v ≡ ν v

-- The formula reads no variable beyond those that `new_var` made.
abbrev pub IsLocal : Solver → Type 0
IsLocal s = (μ ν : Assignment) → Agree s.n_vars μ ν → formula_val μ s ≡ formula_val ν s

-- The cached true literal is one in every model.
abbrev pub TrueLit : Solver → Type 0
TrueLit s =
    (t : ℤ)
    → s.true_lit ≡ some t
    → Known s.n_vars t × ((μ : Assignment) → formula_val μ s ≡ true → lit_val μ t ≡ true)

pub record IsSound (s : Solver) : Type 0 where
  pub well_formed : IsWellFormed s
  pub is_local : IsLocal s
  pub true_lit_ok : TrueLit s

pub record Extends (s t : Solver) : Type 0 where
  pub more_vars : s.n_vars ≤ t.n_vars
  pub implies : (μ : Assignment) → formula_val μ t ≡ true → formula_val μ s ≡ true
  pub conservative :
      (μ : Assignment)
      → formula_val μ s ≡ true
      → (ν : Assignment) × Agree s.n_vars μ ν × (formula_val ν t ≡ true)

pub Extends-refl : (s : Solver) → Extends s s
Extends-refl s = record {
  more_vars = omega arith;
  implies = λ μ h. h;
  conservative = λ μ h. (μ, (λ v lo hi. refl), h);
}

pub Extends-trans : {s t u : Solver} → Extends s t → Extends t u → Extends s u
Extends-trans e f = record {
  more_vars = omega (arith, e.more_vars, f.more_vars);
  implies = λ μ h. e.implies μ (f.implies μ h);
  conservative = λ μ h.
      let (ν, a, k) = e.conservative μ h in
      let (ξ, b, l) = f.conservative ν k in
      (ξ, (λ v lo hi. a v lo hi ∙ b v lo (omega (arith, e.more_vars))), l);
}

pub Known-more : {n m : ℕ} (l : ℤ) → n ≤ m → Known n l → Known m l
Known-more l h k = (k.0, omega arith)

pub AllKnown-more : {n m : ℕ} (ls : List ℤ) → n ≤ m → AllKnown n ls → AllKnown m ls
AllKnown-more [] h k = tt
AllKnown-more (l ∷ ls) h k = (Known-more l h k.0, AllKnown-more ls h k.1)

pub lit_val-Agree :
    (n : ℕ) (μ ν : Assignment) (l : ℤ) → Agree n μ ν → Known n l → lit_val μ l ≡ lit_val ν l
lit_val-Agree n μ ν (pos v) a k = a v k.0 k.1
lit_val-Agree n μ ν (negsuc v) a k = ap flip (a (suc v) k.0 k.1)

pub clause_val-Agree :
    (n : ℕ) (μ ν : Assignment) (ls : List ℤ)
    → Agree n μ ν
    → AllKnown n ls
    → clause_val μ ls ≡ clause_val ν ls
clause_val-Agree n μ ν [] a k = refl
clause_val-Agree n μ ν (l ∷ ls) a k =
    ap₂ ◌||◌ (lit_val-Agree n μ ν l a k.0) (clause_val-Agree n μ ν ls a k.1)

pub lit_vals-Agree :
    (n : ℕ) (μ ν : Assignment) (ls : List ℤ)
    → Agree n μ ν
    → AllKnown n ls
    → lit_vals μ ls ≡ lit_vals ν ls
lit_vals-Agree n μ ν [] a k = refl
lit_vals-Agree n μ ν (l ∷ ls) a k =
    ap₂ ◌∷◌ (lit_val-Agree n μ ν l a k.0) (lit_vals-Agree n μ ν ls a k.1)

-- The assignment with the value of one variable changed.
abbrev pub update : Assignment → ℕ → Bool → Assignment
update μ k b v = if k == v then b else μ v

pub Agree-update : (μ : Assignment) (n : ℕ) (b : Bool) → Agree n μ (update μ (suc n) b)
Agree-update μ n b v lo hi = ground arith

pub lit_val-update : (μ : Assignment) (n : ℕ) (b : Bool) → lit_val (update μ n b) (pos n) ≡ b
lit_val-update μ n b = ground arith

pub new_solver-IsSound : IsSound new_solver
unfolding new_solver formula_val
new_solver-IsSound = record {
  well_formed = new_solver-IsWellFormed;
  is_local = λ μ ν a. refl;
  true_lit_ok = λ t e. cc;
}
