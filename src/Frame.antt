-- ===== src/Frame.antt =====
-- circuit.py, `class TransitionSystem` and the time frames over a solver: fresh_frame, next_env,
-- assert_init, bad_lit and tie.
-- A frame's dictionary maps names to literals and carries its memo under "__memo__"; the key
-- "__tag__" serves tracing alone.
pub mod Fresh
pub mod Next
pub mod Constrain
pub mod Runs
pub mod Words
mod Tests
use emergent_hardware_verifi.Sat.Literal.{ℤ, pos, neg}
use emergent_hardware_verifi.Sat.Solver.{new_var, add_clause, M}
use emergent_hardware_verifi.Tseitin.{tseitin, LitMemo, LitEnv, E}
use emergent_hardware_verifi.Circuit.Sig.{var_sig, Sig, Build}
use emergent_hardware_verifi.Prelude.{
  ◌∷◌, some, none, if◌then◌else◌, [], String, Option, List, Bool, ◌++◌,
}
use Prim.Native.String.{◌∷◌ as ◌∷ₛ◌, [] as ε}
use text.Mathlib.Text.{◌==◌ as str_eq}

pub record TransitionSystem : Type 0 where
  pub name : String
  pub state : List String
  pub inputs : List String
  pub next : String → Option Sig
  pub init : String → Option Bool
  pub bad : Option Sig
  pub liveness : List (Sig × Sig)
  pub assumptions : List Sig
  pub covers : List Sig

-- `+` on strings.
abbrev pub join : String → String → String
join ε y = y
join (c ∷ₛ x) y = c ∷ₛ join x y

-- `d[k] = v` on a dictionary by names.
abbrev pub put_name : {V : Type 0} → (String → Option V) → String → V → String → Option V
put_name d k v x = if str_eq k x then some v else d x

-- `TransitionSystem.__init__`
unfoldable pub new_system : String → TransitionSystem
new_system name = record {
  name = name;
  state = [];
  inputs = [];
  next = λ _. none;
  init = λ _. none;
  bad = none;
  liveness = [];
  assumptions = [];
  covers = [];
}

unfoldable pub add_state_bit : String → Bool → Sig → TransitionSystem → TransitionSystem
add_state_bit name init nxt ts = record ts {
  state = ts.state ++ name ∷ [];
  init = put_name ts.init name init;
  next = put_name ts.next name nxt;
}

unfoldable pub add_input : String → TransitionSystem → Build (Sig × TransitionSystem)
add_input name ts n =
    let (v, n') = var_sig name n in ((v, record ts { inputs = ts.inputs ++ name ∷ [] }), n')

pub record Env : Type 0 where
  pub lits : LitEnv
  pub memo : LitMemo

-- `for s in names: env[s] = solver.new_var()`
unfoldable pub bind_fresh : List String → LitEnv → M LitEnv
unfolding new_var
bind_fresh [] env s = some (env, s)
bind_fresh (x ∷ xs) env s = elim (new_var s) [
  | none ↦ none
  | some (v, s') ↦ bind_fresh xs (put_name env x (pos v)) s'
]

unfoldable pub fresh_frame : TransitionSystem → M Env
unfolding bind_fresh
fresh_frame ts s = elim (bind_fresh ts.state (λ _. none) s) [
  | none ↦ none
  | some (env, s1) ↦ elim (bind_fresh ts.inputs env s1) [
    | none ↦ none
    | some (env', s2) ↦ some (record { lits = env'; memo = [] }, s2)
  ]
]

-- The first loop of next_env, over the memo of the frame.
unfoldable pub next_lits : LitEnv → (String → Option Sig) → List String → LitEnv → E LitEnv
unfolding tseitin
next_lits env nx [] out e = some (out, e)
next_lits env nx (x ∷ xs) out e = elim (nx x) [
  | none ↦ none
  | some sig ↦ elim (tseitin env sig e) [
    | none ↦ none
    | some (l, e') ↦ next_lits env nx xs (put_name out x l) e'
  ]
]

-- The next-state literals, and the frame with its memo as the call leaves it.
unfoldable pub next_env : TransitionSystem → Env → M (Env × Env)
unfolding next_lits bind_fresh
next_env ts env s =
    elim (next_lits env.lits ts.next ts.state (λ _. none)
      (record { solver = s; memo = env.memo })) [
        | none ↦ none
        | some (out, e) ↦ elim (bind_fresh ts.inputs out e.solver) [
          | none ↦ none
          | some (out', s') ↦
              some ((record { lits = out'; memo = [] }, record env { memo = e.memo }), s')
        ]
      ]

-- `lit if ts.init[s] else -lit`
abbrev pub init_lit : Bool → ℤ → ℤ
init_lit b l = if b then l else neg l

-- The loop of assert_init over the names that are left.
unfoldable pub assert_inits : LitEnv → (String → Option Bool) → List String → M (Unit {0})
unfolding add_clause
assert_inits env init [] s = some (tt, s)
assert_inits env init (x ∷ xs) s = elim (env x) [
  | none ↦ none
  | some l ↦ elim (init x) [
    | none ↦ none
    | some b ↦ elim (add_clause (init_lit b l ∷ []) s) [
      | none ↦ none
      | some (_, s') ↦ assert_inits env init xs s'
    ]
  ]
]

unfoldable pub assert_init : TransitionSystem → Env → M (Unit {0})
unfolding assert_inits
assert_init ts env = assert_inits env.lits ts.init ts.state

-- `bad_lit`, with the frame as the call leaves it; a system without `bad` is an AttributeError.
unfoldable pub bad_lit : TransitionSystem → Env → M (ℤ × Env)
unfolding tseitin
bad_lit ts env s = elim ts.bad [
  | none ↦ none
  | some sig ↦ elim (tseitin env.lits sig (record { solver = s; memo = env.memo })) [
    | none ↦ none
    | some (l, e) ↦ some ((l, record env { memo = e.memo }), e.solver)
  ]
]

-- The loop of `tie`: the state literals of one environment equal those of another.
unfoldable pub tie_lits : LitEnv → LitEnv → List String → M (Unit {0})
unfolding add_clause
tie_lits from to [] s = some (tt, s)
tie_lits from to (x ∷ xs) s = elim (from x) [
  | none ↦ none
  | some a ↦ elim (to x) [
    | none ↦ none
    | some b ↦ elim (add_clause (neg a ∷ b ∷ []) s) [
      | none ↦ none
      | some (_, s1) ↦ elim (add_clause (a ∷ neg b ∷ []) s1) [
        | none ↦ none
        | some (_, s2) ↦ tie_lits from to xs s2
      ]
    ]
  ]
]

unfoldable pub tie : Env → Env → TransitionSystem → M (Unit {0})
unfolding tie_lits
tie env_a env_next ts = tie_lits env_next.lits env_a.lits ts.state
