-- ===== src/Bmc.antt =====
-- bmc.py: the unrolling of a transition system, one frame for each step.
pub mod Step
pub mod Tie
pub mod Unroll
pub mod Query
pub mod Check
pub mod Loop
pub mod Answers
pub mod Tests
use emergent_hardware_verifi.Sat.Solver.{new_solver, add_clause, Solver, M}
use emergent_hardware_verifi.Prelude.{
  get_elem?, Option, ◌∷◌, ℕ, zero, true, suc, some, none, false, [], List, Bool,
}
use emergent_hardware_verifi.Frame.{
  bad_lit, fresh_frame, assert_init, Env, TransitionSystem, next_env, tie_lits,
}

-- `tie`, with the first frame as the call leaves it; its loop is that of circuit.py `tie`.
unfoldable pub tie : TransitionSystem → Env → Env → M Env
unfolding next_env tie_lits
tie ts from to s = elim (next_env ts from s) [
  | none ↦ none
  | some ((nxt, from'), s1) ↦ elim (tie_lits nxt.lits to.lits ts.state s1) [
    | none ↦ none
    | some (_, s2) ↦ some (from', s2)
  ]
]

-- The loop of `unroll` with `k` rounds left: the frames before the last, the last one, and those
-- that are added. Every frame is given as the later calls leave it.
unfoldable pub unroll_from : TransitionSystem → ℕ → Env → M (List Env)
unfolding tie fresh_frame
unroll_from ts zero last s = some (last ∷ [], s)
unroll_from ts (suc k) last s = elim (fresh_frame ts s) [
  | none ↦ none
  | some (env, s1) ↦ elim (tie ts last env s1) [
    | none ↦ none
    | some (last', s2) ↦ elim (unroll_from ts k env s2) [
      | none ↦ none
      | some (envs, s3) ↦ some (last' ∷ envs, s3)
    ]
  ]
]

-- `if from_init: assert_init(...)`
unfoldable pub start_frame : Bool → TransitionSystem → Env → M (Unit {0})
unfolding assert_init
start_frame true ts env s = assert_init ts env s
start_frame false ts env s = some (tt, s)

unfoldable pub unroll : TransitionSystem → ℕ → Bool → M (List Env)
unfolding unroll_from start_frame fresh_frame
unroll ts k from_init s = elim (fresh_frame ts s) [
  | none ↦ none
  | some (env, s1) ↦ elim (start_frame from_init ts env s1) [
    | none ↦ none
    | some (_, s2) ↦ unroll_from ts k env s2
  ]
]

-- The query of one round of `bmc`, which `solve` then decides: a new solver, the frames from reset,
-- and the clause that the last frame is bad.
unfoldable pub query : TransitionSystem → ℕ → Option (List Env × Solver)
unfolding unroll bad_lit add_clause new_solver
query ts k = elim (unroll ts k true new_solver) [
  | none ↦ none
  | some (envs, s) ↦ elim (get_elem? envs k) [
    | none ↦ none
    | some env ↦ elim (bad_lit ts env s) [
      | none ↦ none
      | some ((l, _), s1) ↦ elim (add_clause (l ∷ []) s1) [
        | none ↦ none
        | some (_, s2) ↦ some (envs, s2)
      ]
    ]
  ]
]
