-- ===== src/Kinduction/Loop.antt =====
-- kinduction.py, `k_induction`: the base cases and the step queries, for growing depths. The search of
-- the solver is an argument; the rows that `trace` decodes are left out, and the frames and the solver
-- that it reads are given in their place.
use emergent_hardware_verifi.Sat.Literal.{neg}
use emergent_hardware_verifi.Frame.{fresh_frame, bad_lit, TransitionSystem, Env}
use emergent_hardware_verifi.Prelude.{
  ◌∷◌, ℕ, zero, true, suc, some, none, false, [], Option, List, ◌-◌,
}
use emergent_hardware_verifi.Bmc.{tie}
use emergent_hardware_verifi.Bmc.Loop.{bmc, SearchFor, cex, safe_up_to}
use emergent_hardware_verifi.Sat.Solver.{new_solver, add_clause, Solver, M}
use emergent_hardware_verifi.Sat.Propagate.{raised, done, out_of_fuel}

unfoldable pub fresh_frames : TransitionSystem → ℕ → M (List Env)
unfolding fresh_frame
fresh_frames ts zero s = some ([], s)
fresh_frames ts (suc n) s = elim (fresh_frame ts s) [
  | none ↦ none
  | some (env, s1) ↦ elim (fresh_frames ts n s1) [
    | none ↦ none
    | some (envs, s2) ↦ some (env ∷ envs, s2)
  ]
]

-- `for i in range(k): tie(s, ts, envs[i], envs[i + 1])`, with the frames as the calls leave them.
unfoldable pub tie_frames : TransitionSystem → Env → List Env → M (List Env)
unfolding tie
tie_frames ts env [] s = some (env ∷ [], s)
tie_frames ts env (next_frame ∷ envs) s = elim (tie ts env next_frame s) [
  | none ↦ none
  | some (env', s1) ↦ elim (tie_frames ts next_frame envs s1) [
    | none ↦ none
    | some (rest, s2) ↦ some (env' ∷ rest, s2)
  ]
]

-- The property in every frame but the last, and its negation there.
unfoldable pub assert_step : TransitionSystem → Env → List Env → M (List Env)
unfolding bad_lit add_clause
assert_step ts env [] s = elim (bad_lit ts env s) [
  | none ↦ none
  | some ((l, env'), s1) ↦ elim (add_clause (l ∷ []) s1) [
    | none ↦ none
    | some (_, s2) ↦ some (env' ∷ [], s2)
  ]
]
assert_step ts env (next_frame ∷ rest) s = elim (bad_lit ts env s) [
  | none ↦ none
  | some ((l, env'), s1) ↦ elim (add_clause (neg l ∷ []) s1) [
    | none ↦ none
    | some (_, s2) ↦ elim (assert_step ts next_frame rest s2) [
      | none ↦ none
      | some (rest', s3) ↦ some (env' ∷ rest', s3)
    ]
  ]
]

-- The step query over k + 1 frames, none of them from reset.
unfoldable pub step_frames : TransitionSystem → ℕ → Option (List Env × Solver)
unfolding fresh_frames tie_frames assert_step new_solver
step_frames ts k = elim (fresh_frames ts (suc k) new_solver) [
  | none ↦ none
  | some (envs, s1) ↦ elim envs [
    | [] ↦ none
    | env ∷ rest ↦ elim (tie_frames ts env rest s1) [
      | none ↦ none
      | some (tied, s2) ↦ elim tied [ [] ↦ none | env' ∷ rest' ↦ assert_step ts env' rest' s2 ]
    ]
  ]
]

-- "CEX", "PROVED" or "STALLED", with what `trace` would decode.
pub data Induction : Type 0 where
  base_fails : ℕ → List Env → Solver → Induction
  inductive_at : ℕ → Induction
  stalled : ℕ → Option (List Env × Solver) → Induction

-- The `n` depths from `k` on.
unfoldable pub induct_from :
    SearchFor → TransitionSystem → ℕ → ℕ → ℕ → Option (List Env × Solver) → Option Induction
unfolding bmc step_frames
induct_from find_model ts kmax zero k cti = some (stalled kmax cti)
induct_from find_model ts kmax (suc n) k cti = elim (bmc find_model ts (k - 1)) [
  | none ↦ none
  | some base ↦ elim base [
    | cex _ envs s ↦ some (base_fails k envs s)
    | safe_up_to _ ↦ elim (step_frames ts k) [
      | none ↦ none
      | some (envs, s) ↦ elim (find_model s) [
        | raised ↦ none
        | out_of_fuel ↦ none
        | done b s' ↦ elim b [
          | false ↦ some (inductive_at k)
          | true ↦ induct_from find_model ts kmax n (suc k) (some (envs, s'))
        ]
      ]
    ]
  ]
]

unfoldable pub k_induction : SearchFor → TransitionSystem → ℕ → Option Induction
unfolding induct_from
k_induction find_model ts kmax = induct_from find_model ts kmax kmax 1 none
