-- ===== src/Kinduction/Safe.antt =====
-- A property that holds at reset and is closed under one step holds in every run.
use emergent_hardware_verifi.Kinduction.{one_step}
use emergent_hardware_verifi.Sat.Solver.Meaning.{formula_val}
use emergent_hardware_verifi.Circuit.Meaning.{eval, Valuation}
use emergent_hardware_verifi.Kinduction.OneStep.{one_step-DecidesStep, StepToBad}
use emergent_hardware_verifi.Sat.Solver.{Solver}
use emergent_hardware_verifi.Circuit.Sig.{Sig}
use emergent_hardware_verifi.Circuit.Numbering.{Numbered}
use emergent_hardware_verifi.Frame.{TransitionSystem, Env}
use emergent_hardware_verifi.Frame.Runs.{ReadsNames, IsPathFrom, CanEncode}
use emergent_hardware_verifi.Prelude.{
  ◌≡◌, ◌∷◌, ◌∙◌, ℕ, true, sym, some, refl, none, inr, inl, false, ap, [], Option, List, Bool-cases,
}
use emergent_hardware_verifi.Bmc.Check.{last_of, BadRun}
use emergent_hardware_verifi.Sat.Literal.{Assignment}

no_bad_later :
    (ts : TransitionSystem) (bad : Sig)
    → ¬ StepToBad ts bad
    → (ρ : Valuation) (ρs : List Valuation) → eval ρ bad ≡ false
    → IsPathFrom ts ρ ρs
    → eval (last_of ρ ρs) bad ≡ false
unfolding last_of
no_bad_later ts bad none' ρ [] h p = h
no_bad_later ts bad none' ρ (σ ∷ σs) h p = elim (Bool-cases (eval σ bad)) [
  | inr holds ↦ no_bad_later ts bad none' σ σs holds p.1
  | inl fails ↦
      absurd (none' (record { before = ρ; later = σ; holds = h; step = p.0; fails = fails }))
]

-- For a system whose state bits have reset values and next-state functions over its own names,
-- with unambiguous node ids and inputs apart from the state bits, and whose bad signal is one over
-- its names too: if the query that one_step built has no model, and no reset state is bad, then no
-- run of any length from reset ends in a bad state.
pub one_step-safe :
    (ts : TransitionSystem) (D : ℕ → Sig) (bad : Sig)
    → CanEncode ts D
    → Numbered D bad
    → ReadsNames ts bad
    → ts.bad ≡ some bad
    → (start : Env) (s : Solver) → one_step ts ≡ some (start, s)
    → ((μ : Assignment) → formula_val μ s ≡ false)
    → ¬ BadRun ts bad 0
    → (k : ℕ) → ¬ BadRun ts bad k
unfolding last_of
one_step-safe ts D bad c numbered names has_bad start s built unsat base k run =
    let r = one_step-DecidesStep ts D bad c numbered names has_bad in
    let same : r.after ≡ s = ap at_solver (sym r.returns ∙ built) in
    let none' : ¬ StepToBad ts bad = λ b.
      let (μ, m) = r.sat_if_step b in
      let m' : formula_val μ s ≡ true = ap (formula_val μ) (sym same) ∙ m in
      let no : false ≡ true = sym (unsat μ) ∙ m' in cc in
    elim (Bool-cases (eval run.start bad)) [
      | inl e ↦ base (record {
        start = run.start;
        later = [];
        steps = refl;
        starts = run.starts;
        path = tt;
        ends_bad = e;
      })
      | inr e ↦
          let fine = no_bad_later ts bad none' run.start run.later e run.path in
          let no : false ≡ true = sym fine ∙ run.ends_bad in cc
    ]
  where
    at_solver : Option (Env × Solver) → Solver
    at_solver none = s
    at_solver (some (_, t)) = t
