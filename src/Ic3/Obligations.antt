-- ===== src/Ic3/Obligations.antt =====
-- ic3.py: `_bad_cube`, `_predecessor`, `_generalize`, `_add_blocked` and `_block`.
use emergent_hardware_verifi.Sat.Literal.{ℤ, neg, is_pos, int_eq}
use emergent_hardware_verifi.Frame.{TransitionSystem}
use emergent_hardware_verifi.Sat.Solver.{Solver}
use emergent_hardware_verifi.Circuit.Sig.{Sig}
use emergent_hardware_verifi.Bmc.Loop.{SearchFor}
use emergent_hardware_verifi.Tseitin.{LitEnv}
use emergent_hardware_verifi.Prelude.{
  ◌∷◌, ℕ, ◌||◌, zero, true, suc, some, none, map, ltb, length, flip, false, if◌then◌else◌, [],
  Option, List, Bool, ◌-◌, ◌++◌, ◌&&◌,
}
use emergent_hardware_verifi.Ic3.{
  Cube, Ic3Engine, ◌>>=◌, step_query, assert_frame, add_bad, ask, add_over, add_units,
  init_intersects, inductive_rel, state_name, names_of_lits,
}
use emergent_hardware_verifi.Ic3.Cubes.{lift, model_env}
use emergent_hardware_verifi.Interp.{subset}

-- What the source takes from outside: the search, the rounds of a simulation, and heapq.
pub record Tools : Type 0 where
  pub find_model : SearchFor
  pub sim_rounds : ℕ
  pub heappop : List (ℕ × Cube) → Option ((ℕ × Cube) × List (ℕ × Cube))
  pub heappush : ℕ × Cube → List (ℕ × Cube) → List (ℕ × Cube)

-- The cube of the model that a search found, lifted for its targets.
unfoldable pub lifted_model :
    ℕ → TransitionSystem → LitEnv → List (Sig × Bool) → Bool × Solver → Option (Option Cube)
unfolding lift model_env
lifted_model f ts cur targets (false, s) = some none
lifted_model f ts cur targets (true, s) = do
  env ← model_env s cur (ts.state ++ ts.inputs) (λ _. none)
  cube ← lift f ts env targets
  some (some cube)

unfoldable pub bad_cube : Tools → Ic3Engine → ℕ → Option (Option Cube)
unfolding step_query assert_frame add_bad ask lifted_model
bad_cube tools eng k = do
  q ← step_query eng.ts []
  q1 ← assert_frame eng k q
  q2 ← add_bad eng.ts q1
  sig ← eng.ts.bad
  answered ← ask tools.find_model q2
  lifted_model tools.sim_rounds eng.ts q2.cur ((sig, true) ∷ []) answered

-- `[(self.ts.next[self.S[abs(l) - 1]], 1 if l > 0 else 0) for l in cube]`
unfoldable pub next_targets : TransitionSystem → Cube → Option (List (Sig × Bool))
next_targets ts [] = some []
next_targets ts (l ∷ ls) = do
  n ← state_name ts l
  sig ← ts.next n
  rest ← next_targets ts ls
  some ((sig, is_pos l) ∷ rest)

unfoldable pub predecessor : Tools → Ic3Engine → Cube → ℕ → Option (Option Cube)
unfolding step_query assert_frame add_over add_units ask names_of_lits next_targets lifted_model
predecessor tools eng cube i = do
  need ← names_of_lits eng.ts cube
  q ← step_query eng.ts need
  q1 ← assert_frame eng i q
  q2 ← add_over eng.ts q1.cur (map neg cube) q1
  q3 ← add_units eng.ts q2.nxt cube q2
  answered ← ask tools.find_model q3
  targets ← next_targets eng.ts cube
  lifted_model tools.sim_rounds eng.ts q3.cur targets answered

-- `cube - {l}`
abbrev pub minus : ℤ → Cube → Cube
minus l [] = []
minus l (x ∷ xs) = let rest = minus l xs in if int_eq l x then rest else x ∷ rest

-- Whether a candidate replaces the cube: its negation is init-safe and inductive.
unfoldable pub keeps_blocked : SearchFor → Ic3Engine → Cube → ℕ → Option Bool
unfolding init_intersects inductive_rel
keeps_blocked find_model eng [] i = some false
keeps_blocked find_model eng (l ∷ ls) i = elim (init_intersects find_model eng.ts (l ∷ ls)) [
  | none ↦ none
  | some hits ↦ elim hits [
    | true ↦ some false
    | false ↦ inductive_rel find_model eng (map neg (l ∷ ls)) (i - 1)
  ]
]

-- The loop of `_generalize` over the literals left.
unfoldable pub drop_lits : SearchFor → Ic3Engine → ℕ → List ℤ → Cube → Option Cube
unfolding keeps_blocked
drop_lits find_model eng i [] cube = some cube
drop_lits find_model eng i (l ∷ ls) cube = do
  ok ← keeps_blocked find_model eng (minus l cube) i
  drop_lits find_model eng i ls (if ok then minus l cube else cube)

unfoldable pub generalize : SearchFor → Ic3Engine → Cube → ℕ → Option Cube
unfolding drop_lits
generalize find_model eng cube i = drop_lits find_model eng i cube cube

-- `clause < cl`
abbrev pub proper_subset : Cube → Cube → Bool
proper_subset a b = subset a b && flip (subset b a)

-- `cl in frame`
abbrev pub has_cube : Cube → List Cube → Bool
has_cube c [] = false
has_cube c (d ∷ ds) = (subset c d && subset d c) || has_cube c ds

-- `F.difference_update([cl for cl in F if clause < cl])`
unfoldable pub unsubsumed : Cube → List Cube → List Cube
unsubsumed clause [] = []
unsubsumed clause (cl ∷ cls) =
    let rest = unsubsumed clause cls in if proper_subset clause cl then rest else cl ∷ rest

-- and then `F.add(clause)`
unfoldable pub add_to_frame : Cube → List Cube → List Cube
unfolding unsubsumed
add_to_frame clause fr =
    let rest = unsubsumed clause fr in if has_cube clause rest then rest else clause ∷ rest

-- The loop of `_add_blocked` over `n` frames; a frame that is missing is an IndexError.
unfoldable pub add_to_frames : Cube → ℕ → List (List Cube) → Option (List (List Cube))
unfolding add_to_frame
add_to_frames clause zero frs = some frs
add_to_frames clause (suc n) [] = none
add_to_frames clause (suc n) (fr ∷ frs) = do
  rest ← add_to_frames clause n frs
  some (add_to_frame clause fr ∷ rest)

unfoldable pub add_blocked : Cube → ℕ → List (List Cube) → Option (List (List Cube))
unfolding add_to_frames
add_blocked clause upto [] = elim upto [ zero ↦ some [] | suc _ ↦ none ]
add_blocked clause upto (fr ∷ frs) = do rest ← add_to_frames clause upto frs; some (fr ∷ rest)

-- An obligation without a predecessor: its generalized clause is learnt, and it is queued again for
-- the next frame.
unfoldable pub learn_clause :
    Tools → Ic3Engine → List (ℕ × Cube) → ℕ → Cube → Option (Ic3Engine × List (ℕ × Cube))
unfolding generalize add_blocked
learn_clause tools eng queue i s = do
  g ← generalize tools.find_model eng s i
  frs ← add_blocked (map neg g) i eng.frames
  some (
    record eng { frames = frs },
    if ltb i (length eng.frames - 1) then tools.heappush (suc i, s) queue else queue,
  )

-- The obligation `(i, s)`, taken from the queue: the new state, or the cube that Init meets.
unfoldable pub discharge :
    Tools → Ic3Engine → List (ℕ × Cube) → ℕ → Cube → Option (Option (Ic3Engine × List (ℕ × Cube)))
unfolding init_intersects predecessor learn_clause
discharge tools eng queue zero s = do
  hits ← init_intersects tools.find_model eng.ts s
  some (if hits then none else some (eng, queue))
discharge tools eng queue (suc i) s = do
  found ← predecessor tools eng s i
  elim found [
    | none ↦ learn_clause tools eng queue (suc i) s >>= λ r. some (some r)
    | some p ↦ some (some (eng, tools.heappush (suc i, s) (tools.heappush (i, p) queue)))
  ]

-- `while Q:`, on fuel.
unfoldable pub block_loop : ℕ → Tools → Ic3Engine → List (ℕ × Cube) → Option (Bool × Ic3Engine)
unfolding discharge
block_loop f tools eng [] = some (true, eng)
block_loop zero tools eng (o ∷ os) = none
block_loop (suc f) tools eng (o ∷ os) = elim (tools.heappop (o ∷ os)) [
  | none ↦ none
  | some ((i, s), queue) ↦ elim (discharge tools eng queue i s) [
    | none ↦ none
    | some r ↦ elim r [
      | none ↦ some (false, record eng { cex = some s })
      | some (eng', queue') ↦ block_loop f tools eng' queue'
    ]
  ]
]

unfoldable pub block : ℕ → Tools → Ic3Engine → Cube → ℕ → Option (Bool × Ic3Engine)
unfolding block_loop
block f tools eng bad k = block_loop f tools eng ((k, bad) ∷ [])
