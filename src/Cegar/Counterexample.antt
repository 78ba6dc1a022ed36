-- ===== src/Cegar/Counterexample.antt =====
-- cegar.py, `_abs_cex`: the shortest counterexample of the abstraction.
-- `none` is a Python exception, or fuel that ran out in the search.
use emergent_hardware_verifi.Bmc.{query}
use emergent_hardware_verifi.Sat.Propagate.{out_of_fuel}
use emergent_hardware_verifi.Sat.Literal.{pos, negsuc}
use emergent_hardware_verifi.Sat.Solve.{solve, get_value}
use emergent_hardware_verifi.Sat.Propagate.{raised, done}
use emergent_hardware_verifi.Sat.Solver.{Solver}
use emergent_hardware_verifi.Sat.Analyze.{FloatTest}
use emergent_hardware_verifi.Frame.{put_name, TransitionSystem, Env}
use emergent_hardware_verifi.Prelude.{
  ◌∷◌, ℕ, zero, true, suc, some, none, false, [], String, Option, List, Bool, ◌++◌,
}

-- One cycle of a counterexample: a value for each name.
abbrev pub Cycle : Type 0
Cycle = String → Option Bool

-- `{n: (1 if s.get_value(e[n]) else 0) for n in names}`; a negative literal is no key of `assign`.
unfoldable pub read_names : Solver → Env → List String → Cycle → Option Cycle
unfolding get_value
read_names s env [] out = some out
read_names s env (x ∷ xs) out = elim (env.lits x) [
  | none ↦ none
  | some l ↦ elim l [
    | negsuc n ↦ none
    | pos v ↦ elim (get_value v s) [ none ↦ none | some b ↦ read_names s env xs (put_name out x b) ]
  ]
]

unfoldable pub read_cycles : Solver → List String → List Env → Option (List Cycle)
unfolding read_names
read_cycles s names [] = some []
read_cycles s names (e ∷ es) = elim (read_names s e names (λ _. none)) [
  | none ↦ none
  | some c ↦ elim (read_cycles s names es) [ none ↦ none | some cs ↦ some (c ∷ cs) ]
]

-- `_abs_cex`, for the `n` depths from `k` on; `f` bounds the rounds of a search.
unfoldable pub abs_cex : ℕ → FloatTest → TransitionSystem → ℕ → ℕ → Option (Option (List Cycle))
unfolding query solve read_cycles
abs_cex f gt ts zero k = some none
abs_cex f gt ts (suc n) k = elim (query ts k) [
  | none ↦ none
  | some (envs, s) ↦ elim (solve f gt [] s) [
    | raised ↦ none
    | out_of_fuel ↦ none
    | done b s' ↦ elim b [
      | false ↦ abs_cex f gt ts n (suc k)
      | true ↦ elim (read_cycles s' (ts.state ++ ts.inputs) envs) [
        | none ↦ none
        | some cs ↦ some (some cs)
      ]
    ]
  ]
]
