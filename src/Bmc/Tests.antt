-- ===== src/Bmc/Tests.antt =====
-- A toggle: its bit starts at 0 and flips in each step in which the input is one.
use mathlib.Core.Option.{get_or}
use emergent_hardware_verifi.Circuit.Ternary.Rules.{known}
use emergent_hardware_verifi.Sat.Solve.{solve}
use emergent_hardware_verifi.Sat.Solve.Tests.{first_best}
use emergent_hardware_verifi.Circuit.Meaning.{Valuation, eval}
use emergent_hardware_verifi.Sat.Propagate.{out_of_fuel}
use emergent_hardware_verifi.Sat.Solver.Meaning.{formula_val}
use emergent_hardware_verifi.Bmc.Loop.{cex, Answer, bmc}
use emergent_hardware_verifi.Sat.Propagate.{raised, done, Run}
use emergent_hardware_verifi.Bmc.Answers.{IsRightBelow, bmc-Answers, RightAll}
use emergent_hardware_verifi.Bmc.{unroll, tie, query}
use emergent_hardware_verifi.Tseitin.State.{new_solver-IsSound}
use emergent_hardware_verifi.Frame.Fresh.{listed}
use text.Mathlib.TextEquality.{eq_iff}
use emergent_hardware_verifi.Tseitin.{xor_clauses, tseitin, emit}
use emergent_hardware_verifi.Bmc.Query.{unroll-Unrolled, Unrolled}
use emergent_hardware_verifi.Sat.Solver.{new_solver, add_clause, Solver}
use emergent_hardware_verifi.Circuit.Sig.{xor, var, Sig}
use emergent_hardware_verifi.Bmc.Unroll.{fresh_frame-FreshFrame, FreshFrame}
use emergent_hardware_verifi.Frame.{
  put_name, new_system, fresh_frame, assert_init, add_state_bit, TransitionSystem, Env,
}
use emergent_hardware_verifi.Bmc.Check.{last_of, BadRun, query-Decides, Decides}
use emergent_hardware_verifi.Frame.Runs.{IsStep, CanEncode}
use emergent_hardware_verifi.Prelude.{
  zero, suc, subst, ◌∙◌, sym, ap, ◌==◌, ◌≡◌, ◌∷◌, ℕ, ◌||◌, true, some, refl, none, length, inr, inl,
  false, if◌then◌else◌, arith, [], String, Option, List, Bool-cases, Bool,
}
use text.Mathlib.Text.{◌==◌ as str_eq}

abbrev sig_q : Sig
sig_q = var 2 "q"

abbrev sig_en : Sig
sig_en = var 3 "en"

abbrev sig_flip : Sig
sig_flip = xor 4 sig_q sig_en

abbrev nodes : ℕ → Sig
nodes i = if i == 2 then sig_q else if i == 3 then sig_en else sig_flip

abbrev toggle : TransitionSystem
toggle = record {
  name = "toggle";
  state = "q" ∷ [];
  inputs = "en" ∷ [];
  next = put_name (λ _. none) "q" sig_flip;
  init = put_name (λ _. none) "q" false;
  bad = some sig_q;
  liveness = [];
  assumptions = [];
  covers = [];
}

builds_toggle : (add_state_bit "q" false sig_flip (new_system "toggle")).next "q" ≡ toggle.next "q"
unfolding add_state_bit new_system
builds_toggle = refl

-- The number of frames and of variables of an unrolling.
abbrev sizes : Option (List Env × Solver) → Option (ℕ × ℕ)
sizes none = none
sizes (some (envs, s)) = some (length envs, s.n_vars)

unrolls_two_steps : sizes (unroll toggle 2 true new_solver) ≡ some (3, 10)
unfolding unroll new_solver add_clause fresh_frame tie assert_init tseitin emit xor_clauses
unrolls_two_steps = refl

toggle-apart : (x : String) → listed x toggle.state ≡ true → listed x toggle.inputs ≡ false
toggle-apart x h = elim (Bool-cases (str_eq "q" x)) [
  | inl e ↦ rw (← (eq_iff "q" x).0 e) refl
  | inr e ↦ absurd_bool (str_eq "q" x) e h
]
  where
    absurd_bool : (b : Bool) → b ≡ false → (b || false) ≡ true → listed x ("en" ∷ []) ≡ false
    absurd_bool b e h = ground (arith, e, h)

toggle-CanEncode : CanEncode toggle nodes
toggle-CanEncode = record {
  has_nexts = ((sig_flip, refl, (refl, refl, refl), (refl, refl)), tt);
  has_inits = ((false, refl), tt);
  apart = toggle-apart;
}

fresh_frame-FreshFrame_example : FreshFrame toggle nodes new_solver (fresh_frame toggle new_solver)
fresh_frame-FreshFrame_example = fresh_frame-FreshFrame toggle nodes new_solver new_solver-IsSound

unroll-Unrolled_example : Unrolled toggle nodes 2 true new_solver (unroll toggle 2 true new_solver)
unroll-Unrolled_example =
    unroll-Unrolled toggle nodes 2 true new_solver toggle-CanEncode new_solver-IsSound

query-Decides_example : Decides toggle sig_q 2 (query toggle 2)
query-Decides_example = query-Decides toggle nodes 2 sig_q toggle-CanEncode refl refl refl

-- What solve answers to a query.
abbrev pub said : Run Bool → Option Bool
said (done b s) = some b
said raised = none
said out_of_fuel = none

abbrev pub answer_to : Option (List Env × Solver) → Option Bool
unfolding solve
answer_to none = none
answer_to (some (_, s)) = said (solve 20 first_best [] s)

not_at_reset : answer_to (query toggle 0) ≡ some false
unfolding query solve new_solver
not_at_reset = refl

after_one_step : answer_to (query toggle 1) ≡ some true
unfolding query solve new_solver xor_clauses
after_one_step = refl

only_q : (x : String) → listed x toggle.state ≡ true → "q" ≡ x
only_q x h = elim (Bool-cases (str_eq "q" x)) [
  | inl e ↦ (eq_iff "q" x).0 e
  | inr e ↦ let no : false ≡ true = ground (arith, e, h) in cc
]

-- The input is one in the reset state, and the bit is one after a step.
flips_once : BadRun toggle sig_q 1
unfolding eval last_of
flips_once = record {
  start = str_eq "en";
  later = str_eq "q" ∷ [];
  steps = refl;
  starts = λ x e. subst (λ y. toggle.init y ≡ some (str_eq "en" y)) (only_q x e) refl;
  path = (flips, tt);
  ends_bad = refl;
}
  where
    flips : IsStep toggle (str_eq "en") (str_eq "q")
    flips x e sig n =
        let at_q = only_q x e in
        let same : some sig_flip ≡ some sig = subst (λ y. toggle.next y ≡ some sig) (sym at_q) n in
        let is_flip : sig_flip ≡ sig = ap (λ o. get_or o sig) same in rw (← at_q, ← is_flip) refl

-- No run of no steps ends bad.
low_at_reset : ¬ BadRun toggle sig_q 0
unfolding eval last_of
low_at_reset b = starts_low b.later b.steps b.ends_bad
  where
    starts_low : (ρs : List Valuation) → length ρs ≡ 0 → eval (last_of b.start ρs) sig_q ≡ true → ⊥
    starts_low [] n e =
        let reset : some false ≡ some (b.start "q") = b.starts "q" refl in
        let no : some false ≡ some true = reset ∙ ap some e in cc
    starts_low (ρ ∷ ρs) n e = absurd (omega (arith, n))

-- The answer of solve to a query that is known to be this one.
pub answer-known :
    (o : Option (List Env × Solver)) (envs : List Env) (s s' : Solver) (b c : Bool)
    → answer_to o ≡ some c
    → o ≡ some (envs, s)
    → solve 20 first_best [] s ≡ done b s'
    → b ≡ c
unfolding answer_to said
answer-known o envs s s' b c known built answered =
    let told : answer_to o ≡ some b = ap answer_to built ∙ ap said answered in
    ap (λ x. get_or x c) (sym told ∙ known)

abbrev pub solver_of : Solver → Option (List Env × Solver) → Solver
solver_of s none = s
solver_of s (some (_, t)) = t

-- On the queries of the first two depths, solve is right.
solve-IsRightBelow : IsRightBelow (solve 20 first_best []) toggle 2
solve-IsRightBelow zero lt envs s built s' b answered =
    let q = query-Decides toggle nodes 0 sig_q toggle-CanEncode refl refl refl in
    let same : q.after ≡ s = ap (solver_of s) (sym q.returns ∙ built) in
    let is_false = answer-known (query toggle 0) envs s s' b false not_at_reset built answered in
    (
      λ yes. let no : true ≡ false = sym yes ∙ is_false in cc,
      λ _ μ. elim (Bool-cases (formula_val μ s)) [
        | inr e ↦ e
        | inl e ↦ absurd (low_at_reset (q.bad_if_sat μ (ap (formula_val μ) same ∙ e)))
      ],
    )
solve-IsRightBelow (suc zero) lt envs s built s' b answered =
    let q = query-Decides toggle nodes 1 sig_q toggle-CanEncode refl refl refl in
    let same : q.after ≡ s = ap (solver_of s) (sym q.returns ∙ built) in
    let is_true = answer-known (query toggle 1) envs s s' b true after_one_step built answered in
    let (μ, m) = q.sat_if_bad flips_once in
    (
      λ _. (μ, ap (formula_val μ) (sym same) ∙ m),
      λ no. let bad : true ≡ false = sym is_true ∙ no in cc,
    )
solve-IsRightBelow (suc (suc k)) lt envs s built s' b answered = absurd (omega (arith, lt))

-- The depth of a counterexample.
abbrev cex_depth : Option Answer → Option ℕ
cex_depth (some (cex k envs s)) = some k
cex_depth _ = none

finds_the_flip : cex_depth (bmc (solve 20 first_best []) toggle 1) ≡ some 1
unfolding bmc query solve new_solver xor_clauses
finds_the_flip = refl

bmc-Answers_example :
    RightAll (solve 20 first_best []) toggle 2 sig_q (bmc (solve 20 first_best []) toggle 1)
bmc-Answers_example =
    bmc-Answers toggle nodes sig_q toggle-CanEncode refl refl refl 20 first_best 1
      solve-IsRightBelow
