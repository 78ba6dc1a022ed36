-- ===== src/Kinduction/Tests.antt =====
-- A latch that keeps its bit, which starts at 0: that it is never 1 is 1-inductive.
use emergent_hardware_verifi.Sat.Solve.Tests.{first_best}
use emergent_hardware_verifi.Bmc.Answers.{IsRightBelow}
use emergent_hardware_verifi.Tseitin.{xor_clauses}
use emergent_hardware_verifi.Sat.Solve.{solve}
use emergent_hardware_verifi.Bmc.{query}
use emergent_hardware_verifi.Kinduction.Loop.{Induction, step_frames}
use emergent_hardware_verifi.Bmc.Tests.{solver_of, answer_to, answer-known}
use emergent_hardware_verifi.Kinduction.Loop.{step_frames, k_induction, inductive_at}
use emergent_hardware_verifi.Kinduction.Answers.{IsRightStep, SoundAll, k_induction-Sound}
use emergent_hardware_verifi.Kinduction.Safe.{one_step-safe}
use emergent_hardware_verifi.Kinduction.{one_step}
use emergent_hardware_verifi.Sat.Solver.Meaning.{formula_val}
use emergent_hardware_verifi.Circuit.Meaning.{eval, Valuation}
use emergent_hardware_verifi.Sat.Solver.{new_solver, Solver}
use emergent_hardware_verifi.Circuit.Sig.{var, Sig}
use emergent_hardware_verifi.Frame.{put_name, TransitionSystem, Env}
use emergent_hardware_verifi.Kinduction.OneStep.{one_step-DecidesStep, StepToBad, DecidesStep}
use emergent_hardware_verifi.Frame.Runs.{CanEncode}
use emergent_hardware_verifi.Prelude.{
  ◌≤◌, ◌||◌, zero, suc, flip, ◌<◌, ◌&&◌, Bool, ◌≡◌, ◌∷◌, ◌∙◌, ℕ, true, sym, some, refl, none,
  length, inr, inl, false, arith, ap, [], Option, List, Bool-cases,
}
use emergent_hardware_verifi.Bmc.Check.{query-Decides, last_of, BadRun}
use emergent_hardware_verifi.Sat.Literal.{Assignment}

abbrev sig_q : Sig
sig_q = var 2 "q"

abbrev nodes : ℕ → Sig
nodes i = sig_q

abbrev latch : TransitionSystem
latch = record {
  name = "latch";
  state = "q" ∷ [];
  inputs = [];
  next = put_name (λ _. none) "q" sig_q;
  init = put_name (λ _. none) "q" false;
  bad = some sig_q;
  liveness = [];
  assumptions = [];
  covers = [];
}

-- The number of variables of the query.
abbrev query_vars : Option (Env × Solver) → Option ℕ
query_vars none = none
query_vars (some (_, s)) = some s.n_vars

runs_one_step : query_vars (one_step latch) ≡ some 1
unfolding one_step new_solver
runs_one_step = refl

latch-CanEncode : CanEncode latch nodes
latch-CanEncode = record {
  has_nexts = ((sig_q, refl, refl, refl), tt);
  has_inits = ((false, refl), tt);
  apart = λ x h. refl;
}

one_step-DecidesStep_example : DecidesStep latch sig_q (one_step latch)
one_step-DecidesStep_example = one_step-DecidesStep latch nodes sig_q latch-CanEncode refl refl refl

-- The step query of the latch.
latch_step : DecidesStep latch sig_q (one_step latch)
latch_step = one_step-DecidesStep latch nodes sig_q latch-CanEncode refl refl refl

latch-closed : ¬ StepToBad latch sig_q
unfolding eval
latch-closed b =
    let kept : b.later "q" ≡ b.before "q" = b.step "q" refl sig_q refl in
    let no : true ≡ false = sym b.fails ∙ kept ∙ b.holds in cc

latch-unsat : (μ : Assignment) → formula_val μ latch_step.after ≡ false
latch-unsat μ = elim (Bool-cases (formula_val μ latch_step.after)) [
  | inl e ↦ absurd (latch-closed (latch_step.step_if_sat μ e))
  | inr e ↦ e
]

latch-starts : ¬ BadRun latch sig_q 0
unfolding eval last_of
latch-starts b = starts_well b.later b.steps b.ends_bad
  where
    starts_well : (ρs : List Valuation) → length ρs ≡ 0 → eval (last_of b.start ρs) sig_q ≡ true → ⊥
    starts_well [] n e =
        let reset : some false ≡ some (b.start "q") = b.starts "q" refl in
        let no : some false ≡ some true = reset ∙ ap some e in cc
    starts_well (ρ ∷ ρs) n e = absurd (omega (arith, n))

one_step-safe_example : ¬ BadRun latch sig_q 3
one_step-safe_example =
    one_step-safe latch nodes sig_q latch-CanEncode refl refl refl latch_step.start latch_step.after
      latch_step.returns latch-unsat latch-starts 3

formula_of : (μ : Assignment) → Option (List Env × Solver) → Bool
unfolding formula_val
formula_of μ none = false
formula_of μ (some (_, s)) = formula_val μ s

-- The clauses of the step query over its two variables.
clash :
    (a b : Bool)
    → flip a && (b && true) && ((flip a || (b || false)) && ((a || (flip b || false)) && true))
      ≡ false
clash true b = refl
clash false true = refl
clash false false = refl

step_unsat : (μ : Assignment) → formula_of μ (step_frames latch 1) ≡ false
unfolding formula_of step_frames new_solver xor_clauses formula_val
step_unsat μ = clash (μ 1) (μ 2)

step_answer : answer_to (step_frames latch 1) ≡ some false
unfolding step_frames solve new_solver xor_clauses
step_answer = refl

base_answer : answer_to (query latch 0) ≡ some false
unfolding query solve new_solver xor_clauses
base_answer = refl

-- On the base case of depth 0 and on the step query of depth 1, solve is right.
base-IsRightBelow : IsRightBelow (solve 20 first_best []) latch 1
base-IsRightBelow zero lt envs s built s' b answered =
    let q = query-Decides latch nodes 0 sig_q latch-CanEncode refl refl refl in
    let same : q.after ≡ s = ap (solver_of s) (sym q.returns ∙ built) in
    let is_false = answer-known (query latch 0) envs s s' b false base_answer built answered in
    (
      λ yes. let no : true ≡ false = sym yes ∙ is_false in cc,
      λ _ μ. elim (Bool-cases (formula_val μ s)) [
        | inr e ↦ e
        | inl e ↦ absurd (latch-starts (q.bad_if_sat μ (ap (formula_val μ) same ∙ e)))
      ],
    )
base-IsRightBelow (suc k) lt envs s built s' b answered = absurd (omega (arith, lt))

step-IsRightStep : (k : ℕ) → 0 < k → k ≤ 1 → IsRightStep (solve 20 first_best []) latch k
unfolding formula_of
step-IsRightStep zero pos_k le envs s s' built answered μ = absurd (omega (arith, pos_k))
step-IsRightStep (suc zero) pos_k le envs s s' built answered μ =
    sym (ap (formula_of μ) built) ∙ step_unsat μ
step-IsRightStep (suc (suc k)) pos_k le envs s s' built answered μ = absurd (omega (arith, le))

-- The depth of a proof.
abbrev proof_depth : Option Induction → Option ℕ
proof_depth (some (inductive_at k)) = some k
proof_depth _ = none

proved_at_one : proof_depth (k_induction (solve 20 first_best []) latch 1) ≡ some 1
unfolding k_induction query step_frames solve new_solver xor_clauses
proved_at_one = refl

k_induction-Sound_example :
    SoundAll (solve 20 first_best []) latch 1 sig_q (k_induction (solve 20 first_best []) latch 1)
k_induction-Sound_example =
    k_induction-Sound latch nodes sig_q latch-CanEncode refl refl refl 20 first_best 1
      base-IsRightBelow step-IsRightStep
