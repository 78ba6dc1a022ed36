-- ===== src/Kinduction.antt =====
-- kinduction.py, `one_step_inductive`: the step query at k = 1, up to the call of `solve`.
pub mod OneStep
pub mod Safe
pub mod Loop
pub mod Answers
pub mod Window
pub mod Chain
pub mod Proved
mod Tests
-- The solver with the query, and the start frame as the calls leave it.
use emergent_hardware_verifi.Sat.Literal.{neg}
use emergent_hardware_verifi.Sat.Solver.{new_solver, add_clause, Solver}
use emergent_hardware_verifi.Prelude.{◌∷◌, some, none, [], Option}
use emergent_hardware_verifi.Frame.{next_env, fresh_frame, bad_lit, TransitionSystem, Env}

unfoldable pub one_step : TransitionSystem → Option (Env × Solver)
unfolding fresh_frame bad_lit add_clause next_env new_solver
one_step ts = elim (fresh_frame ts new_solver) [
  | none ↦ none
  | some (env0, s1) ↦ elim (bad_lit ts env0 s1) [
    | none ↦ none
    | some ((l, env1), s2) ↦ elim (add_clause (neg l ∷ []) s2) [
      | none ↦ none
      | some (_, s3) ↦ elim (next_env ts env1 s3) [
        | none ↦ none
        | some ((nxt, env2), s4) ↦ elim (bad_lit ts nxt s4) [
          | none ↦ none
          | some ((l', _), s5) ↦ elim (add_clause (l' ∷ []) s5) [
            | none ↦ none
            | some (_, s6) ↦ some (env2, s6)
          ]
        ]
      ]
    ]
  ]
]
