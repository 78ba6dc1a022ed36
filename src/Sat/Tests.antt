-- ===== src/Sat/Tests.antt =====
-- Runs of cdcl.py at small inputs, and the theorems about it at those inputs.
-- A solver with two variables.
use emergent_hardware_verifi.Sat.Solver.Cancel.{cancel_until-Rooted, Rooted}
use emergent_hardware_verifi.Tseitin.NewVar.{with_var-IsWellFormed}
use emergent_hardware_verifi.Sat.Solver.Start.{
  new_decision_level-IsWellFormed, new_solver-IsWellFormed,
}
use emergent_hardware_verifi.Sat.Literal.{ℤ, pos, negsuc, neg}
use emergent_hardware_verifi.Sat.Solver.Stored.{add_clause-Answered}
use emergent_hardware_verifi.Sat.Solver.{
  with_assigned, new_decision_level, cancel_until, with_var, new_solver, add_clause, Solver,
}
use emergent_hardware_verifi.Sat.Solver.Meaning.{IsWellFormed}
use emergent_hardware_verifi.Prelude.{
  ◌≡◌, ◌∷◌, some, refl, none, map, arith, [], Option, List, Bool,
}
use emergent_hardware_verifi.Sat.Solver.Unit.{with_assigned-IsWellFormed, Answered}

abbrev two_vars : Solver
two_vars = with_var (with_var new_solver)

two_vars-IsWellFormed : IsWellFormed two_vars
two_vars-IsWellFormed =
    with_var-IsWellFormed (with_var new_solver)
      (with_var-IsWellFormed new_solver new_solver-IsWellFormed)

abbrev one_or_not_two : List ℤ
one_or_not_two = pos 1 ∷ neg (pos 2) ∷ pos 1 ∷ []

-- The literals of the clauses that `add_clause` stored.
abbrev stored_lits : Option (Bool × Solver) → Option (List (List ℤ))
stored_lits none = none
stored_lits (some (ok, s)) = some (map (λ c. c.lits) s.store)

drops_duplicates :
    stored_lits (add_clause one_or_not_two two_vars) ≡ some ((pos 1 ∷ negsuc 1 ∷ []) ∷ [])
unfolding add_clause new_solver
drops_duplicates = refl

drops_tautology : stored_lits (add_clause (pos 1 ∷ neg (pos 1) ∷ []) two_vars) ≡ some []
unfolding add_clause new_solver
drops_tautology = refl

add_clause-Answered_example : Answered two_vars one_or_not_two (add_clause one_or_not_two two_vars)
add_clause-Answered_example =
    add_clause-Answered two_vars one_or_not_two two_vars-IsWellFormed
      ((omega arith, omega arith), ((omega arith, omega arith), ((omega arith, omega arith), tt)))

-- The first variable decided at level 1, after the second was fixed at the root.
abbrev fixed : Solver
fixed = new_decision_level (with_assigned (pos 2) none two_vars)

abbrev decided : Solver
decided = with_assigned (pos 1) none fixed

backtracks : (cancel_until 0 decided).trail ≡ pos 2 ∷ []
unfolding cancel_until new_decision_level new_solver
backtracks = refl

decided-IsWellFormed : IsWellFormed decided
unfolding new_decision_level
decided-IsWellFormed =
    let root =
      with_assigned-IsWellFormed two_vars two_vars-IsWellFormed (pos 2) none
        (omega arith, omega arith) in
    with_assigned-IsWellFormed fixed
      (new_decision_level-IsWellFormed (with_assigned (pos 2) none two_vars) root) (pos 1) none
      (omega arith, omega arith)

cancel_until-Rooted_example : Rooted decided (cancel_until 0 decided)
cancel_until-Rooted_example = cancel_until-Rooted decided decided-IsWellFormed
