-- ===== src/Cegar/Replay.antt =====
-- cegar.py, `_simulate`: the replay of a counterexample on the design.
-- `none` is a Python exception, or fuel that ran out in a simulation.
use emergent_hardware_verifi.Circuit.Ternary.{out_of_fuel}
use emergent_hardware_verifi.Circuit.Ternary.{find}
use emergent_hardware_verifi.Circuit.Ternary.{done}
use emergent_hardware_verifi.Frame.{put_name, TransitionSystem}
use emergent_hardware_verifi.Circuit.Sig.{id, Sig}
use emergent_hardware_verifi.Circuit.Ternary.{ternary_eval, failed, TriEnv, Tri, Memo}
use emergent_hardware_verifi.Cegar.Counterexample.{Cycle}
use emergent_hardware_verifi.Prelude.{
  ◌∷◌, ℕ, true, suc, some, none, false, [], String, Option, List, Bool,
}

-- `ternary_eval(sig, env, memo)`, with the memo as the call leaves it.
unfoldable pub simulate_sig : ℕ → TriEnv → Sig → Memo → Option (Tri × Memo)
unfolding ternary_eval
simulate_sig f env sig memo = elim (ternary_eval f env sig memo) [
  | failed ↦ none
  | out_of_fuel ↦ none
  | done memo' ↦ elim (find (id sig) memo') [ none ↦ none | some v ↦ some (v, memo') ]
]

-- `{n: (1 if ts.init[n] else 0) for n in ts.state}`
unfoldable pub reset_state : TransitionSystem → List String → TriEnv → Option TriEnv
reset_state ts [] state = some state
reset_state ts (x ∷ xs) state = elim (ts.init x) [
  | none ↦ none
  | some b ↦ reset_state ts xs (put_name state x (some b))
]

-- `for i in ts.inputs: env[i] = step[i]`
unfoldable pub put_inputs : List String → Cycle → TriEnv → Option TriEnv
put_inputs [] c env = some env
put_inputs (x ∷ xs) c env = elim (c x) [
  | none ↦ none
  | some b ↦ put_inputs xs c (put_name env x (some b))
]

-- `{n: ternary_eval(ts.next[n], env, memo) for n in ts.state}`
unfoldable pub next_state :
    ℕ → TransitionSystem → TriEnv → List String → Memo → TriEnv → Option TriEnv
unfolding simulate_sig
next_state f ts env [] memo state = some state
next_state f ts env (x ∷ xs) memo state = elim (ts.next x) [
  | none ↦ none
  | some sig ↦ elim (simulate_sig f env sig memo) [
    | none ↦ none
    | some (v, memo') ↦ next_state f ts env xs memo' (put_name state x v)
  ]
]

abbrev pub is_one : Tri → Bool
is_one none = false
is_one (some b) = b

-- The loop over the cycles that are left, from cycle `t` on: where `bad` holds, and the rows.
unfoldable pub replay :
    ℕ → TransitionSystem → Sig → List Cycle → ℕ → TriEnv → Option (Option ℕ × List TriEnv)
unfolding put_inputs simulate_sig next_state
replay f ts bad [] t state = some (none, [])
replay f ts bad (c ∷ cs) t state = elim (put_inputs ts.inputs c state) [
  | none ↦ none
  | some env ↦ elim (simulate_sig f env bad []) [
    | none ↦ none
    | some (v, memo) ↦ elim (is_one v) [
      | true ↦ some (some t, env ∷ [])
      | false ↦ elim cs [
        | [] ↦ some (none, env ∷ [])
        | _ ∷ _ ↦ elim (next_state f ts env ts.state memo (λ _. none)) [
          | none ↦ none
          | some state' ↦ elim (replay f ts bad cs (suc t) state') [
            | none ↦ none
            | some (at_cycle, rows) ↦ some (at_cycle, env ∷ rows)
          ]
        ]
      ]
    ]
  ]
]

-- `_simulate(ts, cex)`
unfoldable pub simulate : ℕ → TransitionSystem → List Cycle → Option (Option ℕ × List TriEnv)
unfolding reset_state replay
simulate f ts cex = elim ts.bad [
  | none ↦ none
  | some bad ↦ elim (reset_state ts ts.state (λ _. none)) [
    | none ↦ none
    | some state ↦ replay f ts bad cex 0 state
  ]
]
