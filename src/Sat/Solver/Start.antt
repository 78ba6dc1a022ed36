-- ===== src/Sat/Solver/Start.antt =====
-- The state that `Solver.__init__` makes: it is well formed and means the empty formula.
use emergent_hardware_verifi.Sat.Solver.{new_decision_level, Solver, new_solver}
use emergent_hardware_verifi.Prelude.{◌≡◌, true, refl, arith}
use emergent_hardware_verifi.Sat.Solver.Meaning.{formula_val, IsWellFormed}
use emergent_hardware_verifi.Sat.Literal.{Assignment}

pub new_solver-IsWellFormed : IsWellFormed new_solver
unfolding new_solver
new_solver-IsWellFormed = record {
  stored = tt;
  assigned = λ l il h. cc;
  has_assign = λ v lo hi. absurd (omega (arith, lo, hi));
  has_watches = λ l k. absurd (omega (arith, k.0, k.1));
}

pub formula_val-new_solver : (μ : Assignment) → formula_val μ new_solver ≡ true
unfolding new_solver formula_val
formula_val-new_solver μ = refl

-- A decision level changes nothing that the invariant reads.
pub new_decision_level-IsWellFormed :
    (s : Solver) → IsWellFormed s → IsWellFormed (new_decision_level s)
unfolding new_decision_level
new_decision_level-IsWellFormed s w = record {
  stored = w.stored;
  assigned = w.assigned;
  has_assign = w.has_assign;
  has_watches = w.has_watches;
}
