-- ===== src/Bmc/Step.antt =====
-- One transition between two frames.
use emergent_hardware_verifi.Sat.Solver.Meaning.{formula_val}
use text.Mathlib.TextEquality.{eq_iff}
use emergent_hardware_verifi.Circuit.Meaning.{Valuation}
use emergent_hardware_verifi.Sat.Solver.{Solver}
use emergent_hardware_verifi.Circuit.Sig.{xor, var, or, not, nil, ite, const, cons, and, Sigs, Sig}
use emergent_hardware_verifi.Tseitin.{LitEnv}
use emergent_hardware_verifi.Tseitin.Gate.{reads, IsGood}
use emergent_hardware_verifi.Frame.Runs.{ReadsNamesAll, ReadsNames, IsName, HasNexts, HasAll-listed}
use emergent_hardware_verifi.Frame.Fresh.{listed, HasAll, Has, EnvKnown}
use emergent_hardware_verifi.Frame.{TransitionSystem, Env}
use emergent_hardware_verifi.Frame.Constrain.{same_on, Constrained}
use emergent_hardware_verifi.Frame.Next.{CanStepAll}
use emergent_hardware_verifi.Prelude.{
  ◌≤◌, ◌≡◌, ◌∷◌, ◌∙◌, ℕ, true, sym, refl, inr, inl, arith, [], String, Option-cases, Option, List,
  Bool-cases, Bool,
}
use emergent_hardware_verifi.Sat.Literal.{Assignment}
use emergent_hardware_verifi.Tseitin.State.{lit_val-Agree, Known-more, IsSound, Extends, Agree}
use text.Mathlib.Text.{◌==◌ as str_eq}
use emergent_hardware_verifi.Tseitin.Correct.{Bound, BoundAll}

-- A frame that later solvers keep: its memo is right and it has every name of the system.
pub record IsFrame (ts : TransitionSystem) (D : ℕ → Sig) (env : Env) (s : Solver) : Type 0 where
  pub good : IsGood env.lits D (record { solver = s; memo = env.memo })
  pub has_state : HasAll env.lits ts.state
  pub has_inputs : HasAll env.lits ts.inputs

-- A stronger formula over as many variables or more.
pub record Narrows (s t : Solver) : Type 0 where
  pub more_vars : s.n_vars ≤ t.n_vars
  pub implies : (μ : Assignment) → formula_val μ t ≡ true → formula_val μ s ≡ true

pub Narrows-trans : {s t u : Solver} → Narrows s t → Narrows t u → Narrows s u
Narrows-trans e f = record {
  more_vars = omega (arith, e.more_vars, f.more_vars);
  implies = λ μ h. e.implies μ (f.implies μ h);
}

pub Narrows-Extends : {s t : Solver} → Extends s t → Narrows s t
Narrows-Extends x = record { more_vars = x.more_vars; implies = x.implies }

pub Narrows-Constrained :
    {s : Solver} {b : Assignment → Bool} {result : Option (Unit {0} × Solver)}
    → (c : Constrained s b result) → Narrows s c.after
Narrows-Constrained c = record {
  more_vars = omega (arith, c.same_vars);
  implies = λ μ h. ground (arith, sym (c.means μ) ∙ h);
}

pub IsFrame-narrow :
    (ts : TransitionSystem) (D : ℕ → Sig) (env : Env) (s t : Solver)
    → IsFrame ts D env s
    → Narrows s t
    → IsSound t
    → IsFrame ts D env t
IsFrame-narrow ts D env s t f x h = record {
  good = record {
    sound = h;
    env_known = λ n l e. Known-more l x.more_vars (f.good.env_known n l e);
    memo_ok = λ i l e.
        let (k, m) = f.good.memo_ok i l e in
        (Known-more l x.more_vars k, λ μ g. m μ (x.implies μ g));
  };
  has_state = f.has_state;
  has_inputs = f.has_inputs;
}

module _ (ts : TransitionSystem) (D : ℕ → Sig) (env : Env) (s : Solver)
    (f : IsFrame ts D env s) where
  pub IsFrame-Has : (x : String) → IsName ts x → Has env.lits x
  IsFrame-Has x h = elim (Bool-cases (listed x ts.state)) [
    | inl e ↦ HasAll-listed env.lits ts.state x f.has_state e
    | inr e ↦ HasAll-listed env.lits ts.inputs x f.has_inputs (ground (arith, h, e))
  ]

  mutual
    pub IsFrame-Bound : (sig : Sig) → ReadsNames ts sig → Bound env.lits sig
    IsFrame-Bound (const _ b) h = tt
    IsFrame-Bound (var _ x) h = IsFrame-Has x h
    IsFrame-Bound (not _ a) h = IsFrame-Bound a h
    IsFrame-Bound (and _ xs) h = IsFrame-BoundAll xs h
    IsFrame-Bound (or _ xs) h = IsFrame-BoundAll xs h
    IsFrame-Bound (xor _ a b) h = (IsFrame-Bound a h.0, IsFrame-Bound b h.1)
    IsFrame-Bound (ite _ c t e) h = (IsFrame-Bound c h.0, IsFrame-Bound t h.1, IsFrame-Bound e h.2)

    IsFrame-BoundAll : (ss : Sigs) → ReadsNamesAll ts ss → BoundAll env.lits ss
    IsFrame-BoundAll nil h = tt
    IsFrame-BoundAll (cons s ss) h = (IsFrame-Bound s h.0, IsFrame-BoundAll ss h.1)

  pub IsFrame-CanStepAll :
      (names : List String) → HasNexts ts D names → CanStepAll env.lits D ts.next names
  IsFrame-CanStepAll [] h = tt
  IsFrame-CanStepAll (x ∷ xs) h =
      let (sig, n, d, names) = h.0 in
      ((sig, n, d, IsFrame-Bound sig names), IsFrame-CanStepAll xs h.1)

-- Assignments that agree below the variables of an environment read it alike.
pub reads-Agree :
    (n : ℕ) (env : LitEnv) (μ ν : Assignment)
    → EnvKnown n env
    → Agree n μ ν
    → (x : String) → reads env μ x ≡ reads env ν x
reads-Agree n env μ ν k a x = elim (Option-cases (env x)) [
  | inl e ↦ rw (e, reads) refl
  | inr (l, e) ↦ rw (e, reads) (lit_val-Agree n μ ν l a (k x l e))
]

pub same_on-listed :
    (ρ σ : Valuation) (names : List String) (x : String)
    → same_on ρ σ names ≡ true
    → listed x names ≡ true
    → ρ x ≡ σ x
same_on-listed ρ σ [] x h e = cc
same_on-listed ρ σ (y ∷ ys) x h e = elim (Bool-cases (str_eq y x)) [
  | inl same ↦ let here : ρ y ≡ σ y = ground (arith, h) in rw (← (eq_iff y x).0 same) here
  | inr other ↦ same_on-listed ρ σ ys x (ground (arith, h)) (ground (arith, e, other))
]

-- Equal on the names of a part of a list.
pub same_on-true :
    (ρ σ : Valuation) (names : List String)
    → ((x : String) → listed x names ≡ true → ρ x ≡ σ x)
    → same_on ρ σ names ≡ true
same_on-true ρ σ [] h = refl
same_on-true ρ σ (y ∷ ys) h =
    let here : ρ y ≡ σ y = h y (rw ((eq_iff y y).1 refl) refl) in
    let rest = same_on-true ρ σ ys (λ x e. h x (ground (arith, e))) in ground (arith, here, rest)
