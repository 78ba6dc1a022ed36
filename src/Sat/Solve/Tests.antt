-- ===== src/Sat/Solve/Tests.antt =====
-- Runs of cdcl.py's search: the module's own tests, with the first unassigned variable as the branch.
use emergent_hardware_verifi.Sat.Solve.Branch.{IsScored}
use emergent_hardware_verifi.Sat.Solve.Answer.{solve-Answers, Answers}
use emergent_hardware_verifi.Sat.Solve.{solve, new_vars}
use emergent_hardware_verifi.Sat.Literal.{ℤ, pos, negsuc}
use emergent_hardware_verifi.Sat.Solver.{times, plus, new_solver, literal, add_clause, Solver}
use emergent_hardware_verifi.Sat.Propagate.{raised, out_of_fuel, done, Run}
use emergent_hardware_verifi.Sat.Analyze.{FloatTest}
use emergent_hardware_verifi.Prelude.{
  ◌≡◌, ◌∷◌, ℕ, true, some, refl, none, false, [], Option, List, Bool,
}
use mathlib.Core.Option.{get_or}
use text.Mathlib.Text.{◌==◌ as str_eq}

-- `a > b` where all scores tie: only the loop's first bound is below them.
abbrev pub first_best : FloatTest
first_best a (literal x) = str_eq x "-1.0"
first_best a (plus _ _) = false
first_best a (times _ _) = false

abbrev add_all : List (List ℤ) → Solver → Option Solver
unfolding add_clause
add_all [] s = some s
add_all (c ∷ cs) s = elim (add_clause c s) [ none ↦ none | some (_, s') ↦ add_all cs s' ]

abbrev with_clauses : ℕ → List (List ℤ) → Option Solver
unfolding new_vars new_solver
with_clauses k cs = elim (new_vars k new_solver) [ none ↦ none | some (_, s) ↦ add_all cs s ]

data Verdict : Type 0 where
  sat unsat : List ℤ → Verdict
  broken : Verdict

abbrev verdict : Run Bool → Verdict
verdict (done true s) = sat s.trail
verdict (done false s) = unsat s.conflict_core
verdict raised = broken
verdict out_of_fuel = broken

abbrev solve_clauses : ℕ → ℕ → List (List ℤ) → List ℤ → Verdict
unfolding solve
solve_clauses f k cs given = elim (with_clauses k cs) [
  | none ↦ broken
  | some s ↦ verdict (solve f first_best given s)
]

-- The three self-tests of the file.
forced_unsat :
    solve_clauses 10 3
      ((pos 1 ∷ pos 2 ∷ [])
        ∷ (negsuc 0 ∷ pos 3 ∷ [])
        ∷ (negsuc 1 ∷ pos 3 ∷ [])
        ∷ (negsuc 2 ∷ [])
        ∷ [])
      []
    ≡ unsat []
unfolding solve_clauses with_clauses add_all
forced_unsat = refl

satisfiable :
    solve_clauses 10 3
      ((pos 1 ∷ pos 2 ∷ []) ∷ (negsuc 0 ∷ pos 3 ∷ []) ∷ (negsuc 1 ∷ pos 3 ∷ []) ∷ [])
      []
    ≡ sat (negsuc 0 ∷ pos 2 ∷ pos 3 ∷ [])
unfolding solve_clauses with_clauses add_all
satisfiable = refl

abbrev pigeonhole : List (List ℤ)
pigeonhole =
    (pos 1 ∷ pos 2 ∷ [])
    ∷ (pos 3 ∷ pos 4 ∷ [])
    ∷ (pos 5 ∷ pos 6 ∷ [])
    ∷ (negsuc 0 ∷ negsuc 2 ∷ [])
    ∷ (negsuc 0 ∷ negsuc 4 ∷ [])
    ∷ (negsuc 2 ∷ negsuc 4 ∷ [])
    ∷ (negsuc 1 ∷ negsuc 3 ∷ [])
    ∷ (negsuc 1 ∷ negsuc 5 ∷ [])
    ∷ (negsuc 3 ∷ negsuc 5 ∷ [])
    ∷ []

pigeonhole_unsat : solve_clauses 10 6 pigeonhole [] ≡ unsat []
unfolding solve_clauses with_clauses add_all
pigeonhole_unsat = refl

-- An assumption that another one refutes, and the core.
refuted_assumption :
    solve_clauses 10 3 ((negsuc 0 ∷ pos 2 ∷ []) ∷ []) (pos 3 ∷ pos 1 ∷ negsuc 1 ∷ [])
    ≡ unsat (pos 1 ∷ negsuc 1 ∷ [])
unfolding solve_clauses with_clauses add_all
refuted_assumption = refl

-- Two clauses, and the assumption that the first variable is true.
abbrev implied : Solver
unfolding with_clauses add_all
implied =
    get_or (with_clauses 3 ((negsuc 0 ∷ pos 2 ∷ []) ∷ (negsuc 1 ∷ pos 3 ∷ []) ∷ [])) new_solver

abbrev state_of : Run Bool → Solver
state_of (done b s) = s
state_of raised = new_solver
state_of out_of_fuel = new_solver

abbrev assumed : Solver
assumed = state_of (solve 10 first_best (pos 1 ∷ []) implied)

assumed_holds : solve 10 first_best (pos 1 ∷ []) implied ≡ done true assumed
unfolding solve implied new_solver add_all with_clauses
assumed_holds = refl

scored : IsScored first_best assumed
scored v x h = refl

solve-Answers_example : Answers (pos 1 ∷ []) assumed
solve-Answers_example =
    solve-Answers 10 first_best (pos 1 ∷ []) implied assumed assumed_holds scored
