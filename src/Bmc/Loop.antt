-- ===== src/Bmc/Loop.antt =====
-- bmc.py, `bmc`: the loop over depths. The search of the solver is an argument, for `solve` of Sat/Solve in
-- the source; the decoding of a counterexample's rows by `trace` is left out, and the frames and the
-- solver that it reads are given in its place.
use emergent_hardware_verifi.Bmc.{query}
use emergent_hardware_verifi.Sat.Propagate.{out_of_fuel}
use emergent_hardware_verifi.Sat.Solver.{Solver}
use emergent_hardware_verifi.Sat.Propagate.{raised, done, Run}
use emergent_hardware_verifi.Frame.{TransitionSystem, Env}
use emergent_hardware_verifi.Prelude.{
  ℕ, zero, true, suc, some, none, false, Option, List, Bool, ◌-◌,
}

-- "CEX" with its depth, or "SAFE-UP-TO".
pub data Answer : Type 0 where
  cex : ℕ → List Env → Solver → Answer
  safe_up_to : ℕ → Answer

abbrev pub SearchFor : Type 0
SearchFor = Solver → Run Bool

-- The `n` depths from `k` on.
unfoldable pub bmc_from : SearchFor → TransitionSystem → ℕ → ℕ → Option Answer
unfolding query
bmc_from find_model ts zero k = some (safe_up_to (k - 1))
bmc_from find_model ts (suc n) k = elim (query ts k) [
  | none ↦ none
  | some (envs, s) ↦ elim (find_model s) [
    | raised ↦ none
    | out_of_fuel ↦ none
    | done b s' ↦ elim b [ true ↦ some (cex k envs s') | false ↦ bmc_from find_model ts n (suc k) ]
  ]
]

-- `bmc(ts, kmax)`
unfoldable pub bmc : SearchFor → TransitionSystem → ℕ → Option Answer
unfolding bmc_from
bmc find_model ts kmax = bmc_from find_model ts (suc kmax) 0
