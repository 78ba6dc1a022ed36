-- ===== src/Ic3.antt =====
-- ic3.py: the frames of the engine and its queries over one step. `none` is a Python exception, or a
-- search or a simulation that ran out of its rounds; the solver's search is an argument, `solve` of
-- Sat/Solve in the source. A frozenset is a list; the cache of supports is left out.
pub mod Cubes
pub mod Obligations
pub mod Search
pub mod Frames
pub mod Converged
pub mod Generalized
pub mod Blocking
pub mod Reached
pub mod Simulated
pub mod Lifted
pub mod Drops
pub mod Lift
pub mod Tests
use emergent_hardware_verifi.Sat.Literal.{ℤ, variable, neg, is_pos}
use emergent_hardware_verifi.Sat.Solver.{new_solver, add_clause, Solver}
use emergent_hardware_verifi.Bmc.Loop.{SearchFor}
use emergent_hardware_verifi.Prelude.{
  ◌∷◌, ℕ, zero, suc, some, none, map, get_elem?, flip, if◌then◌else◌, drop, [], String, Option,
  List, Bool, ◌-◌,
}
use emergent_hardware_verifi.Tseitin.{LitEnv, Enc, tseitin}
use emergent_hardware_verifi.Sat.Propagate.{raised, done, out_of_fuel}
use emergent_hardware_verifi.Frame.{TransitionSystem, bind_fresh, next_lits, assert_inits}

abbrev pub Cube : Type 0
Cube = List ℤ

pub record Ic3Engine : Type 0 where
  pub ts : TransitionSystem
  pub frames : List (List Cube)
  pub cex : Option Cube

unfoldable pub new_engine : TransitionSystem → Ic3Engine
new_engine ts = record { ts = ts; frames = [] ∷ [] ∷ []; cex = none }

infixl 5 ◌>>=◌
abbrev pub ◌>>=◌ : {A B : Type 0} → Option A → (A → Option B) → Option B
none >>= f = none
some a >>= f = f a

-- A query: its solver with the memo of the encoding, and the literals now and next.
pub record Query : Type 0 where
  pub enc : Enc
  pub cur : LitEnv
  pub nxt : LitEnv

-- `_query(need)`, the names of `need` listed.
unfoldable pub step_query : TransitionSystem → List String → Option Query
unfolding bind_fresh next_lits new_solver
step_query ts need = do
  (cur, s1) ← bind_fresh ts.state (λ _. none) new_solver
  (cur', s2) ← bind_fresh ts.inputs cur s1
  (nxt, e) ← next_lits cur' ts.next need (λ _. none) (record { solver = s2; memo = [] })
  some (record { enc = e; cur = cur'; nxt = nxt })

-- `self.S[abs(l) - 1]`; no literal is 0.
abbrev pub state_name : TransitionSystem → ℤ → Option String
state_name ts l = get_elem? ts.state (variable l - 1)

-- `_cur` and `_nxt`, over the literals now or next.
unfoldable pub state_lit : TransitionSystem → LitEnv → ℤ → Option ℤ
state_lit ts over l = do n ← state_name ts l; v ← over n; some (if is_pos l then v else neg v)

unfoldable pub state_lits : TransitionSystem → LitEnv → List ℤ → Option (List ℤ)
unfolding state_lit
state_lits ts over [] = some []
state_lits ts over (l ∷ ls) = do v ← state_lit ts over l; vs ← state_lits ts over ls; some (v ∷ vs)

-- `s.add_clause(lits)` in a query.
unfoldable pub add_query_lits : List ℤ → Query → Option Query
unfolding add_clause
add_query_lits ls q = do
  (_, s) ← add_clause ls q.enc.solver
  some (record q { enc = record q.enc { solver = s } })

-- `s.add_clause([self._cur(cur, l) for l in cl])`
unfoldable pub add_over : TransitionSystem → LitEnv → List ℤ → Query → Option Query
unfolding state_lits add_query_lits
add_over ts over cl q = do ls ← state_lits ts over cl; add_query_lits ls q

-- `for l in lits: s.add_clause([...(l)])`
unfoldable pub add_units : TransitionSystem → LitEnv → List ℤ → Query → Option Query
unfolding add_over
add_units ts over [] q = some q
add_units ts over (l ∷ ls) q = do q' ← add_over ts over (l ∷ []) q; add_units ts over ls q'

-- `_assert_init`: a state bit's literal is that of its name.
unfoldable pub assert_start : TransitionSystem → Query → Option Query
unfolding assert_inits
assert_start ts q = do
  (_, s) ← assert_inits q.cur ts.init ts.state q.enc.solver
  some (record q { enc = record q.enc { solver = s } })

unfoldable pub add_frame : TransitionSystem → List Cube → Query → Option Query
unfolding add_over
add_frame ts [] q = some q
add_frame ts (cl ∷ cls) q = do q' ← add_over ts q.cur cl q; add_frame ts cls q'

unfoldable pub add_frames : TransitionSystem → List (List Cube) → Query → Option Query
unfolding add_frame
add_frames ts [] q = some q
add_frames ts (fr ∷ frs) q = do q' ← add_frame ts fr q; add_frames ts frs q'

-- `_assert_frame(s, cur, i)`: the clauses of the frames from `i` on.
unfoldable pub assert_frame : Ic3Engine → ℕ → Query → Option Query
unfolding assert_start add_frames
assert_frame eng zero q = assert_start eng.ts q
assert_frame eng (suc i) q = add_frames eng.ts (drop (suc i) eng.frames) q

-- `s.solve()`
unfoldable pub ask : SearchFor → Query → Option (Bool × Solver)
ask find_model q = elim (find_model q.enc.solver) [
  | raised ↦ none
  | out_of_fuel ↦ none
  | done b s ↦ some (b, s)
]

-- `self.ts.bad`, or an AttributeError of `tseitin` on None.
unfoldable pub add_bad : TransitionSystem → Query → Option Query
unfolding tseitin add_query_lits
add_bad ts q = do
  sig ← ts.bad
  (l, e) ← tseitin q.cur sig q.enc
  add_query_lits (l ∷ []) (record q { enc = e })

unfoldable pub init_intersects : SearchFor → TransitionSystem → Cube → Option Bool
unfolding step_query assert_start add_units ask
init_intersects find_model ts cube = do
  q ← step_query ts []
  q1 ← assert_start ts q
  q2 ← add_units ts q1.cur cube q1
  (found, _) ← ask find_model q2
  some found

unfoldable pub init_intersects_bad : SearchFor → TransitionSystem → Option Bool
unfolding step_query assert_start add_bad ask
init_intersects_bad find_model ts = do
  q ← step_query ts []
  q1 ← assert_start ts q
  q2 ← add_bad ts q1
  (found, _) ← ask find_model q2
  some found

-- `[self.S[abs(l) - 1] for l in cube]`
unfoldable pub names_of_lits : TransitionSystem → List ℤ → Option (List String)
names_of_lits ts [] = some []
names_of_lits ts (l ∷ ls) = do n ← state_name ts l; ns ← names_of_lits ts ls; some (n ∷ ns)

unfoldable pub inductive_rel : SearchFor → Ic3Engine → List ℤ → ℕ → Option Bool
unfolding step_query assert_frame add_over add_units ask names_of_lits
inductive_rel find_model eng clause i = do
  need ← names_of_lits eng.ts clause
  q ← step_query eng.ts need
  q1 ← assert_frame eng i q
  q2 ← add_over eng.ts q1.cur clause q1
  q3 ← add_units eng.ts q2.nxt (map neg clause) q2
  (found, _) ← ask find_model q3
  some (flip found)
