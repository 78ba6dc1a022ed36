-- ===== src/Ic3/Cubes.antt =====
-- ic3.py, `_state_cube`, `_model_env` and `_lift`: the cubes of a model.
use emergent_hardware_verifi.Sat.Literal.{ℤ, pos, negsuc}
use emergent_hardware_verifi.Frame.Fresh.{listed}
use emergent_hardware_verifi.Frame.{put_name, TransitionSystem}
use emergent_hardware_verifi.Sat.Solver.{Solver}
use emergent_hardware_verifi.Circuit.Sig.{Sig}
use emergent_hardware_verifi.Tseitin.{LitEnv}
use emergent_hardware_verifi.Prelude.{
  ◌∷◌, ℕ, ◌||◌, xor_bool, true, suc, some, none, flip, false, if◌then◌else◌, [], String, Option,
  List, Bool,
}
use emergent_hardware_verifi.Ic3.{Cube, ◌>>=◌}
use emergent_hardware_verifi.Circuit.Ternary.{TriEnv, Tri, Memo}
use emergent_hardware_verifi.Cegar.{support}
use emergent_hardware_verifi.Cegar.Replay.{simulate_sig}
use emergent_hardware_verifi.Frame.Words.{read_bit}

-- The literal of state bit `i`.
abbrev pub bit_lit : ℕ → Bool → ℤ
bit_lit i b = if b then pos (suc i) else negsuc i

-- `_state_cube`, from state bit `i` on.
unfoldable pub state_cube : Solver → LitEnv → List String → ℕ → Option Cube
unfolding read_bit
state_cube s cur [] i = some []
state_cube s cur (x ∷ xs) i = do
  b ← read_bit s cur x
  c ← state_cube s cur xs (suc i)
  some (bit_lit i b ∷ c)

-- `_model_env`, over the state bits and then the inputs.
unfoldable pub model_env : Solver → LitEnv → List String → TriEnv → Option TriEnv
unfolding read_bit
model_env s cur [] env = some env
model_env s cur (x ∷ xs) env = do b ← read_bit s cur x; model_env s cur xs (put_name env x (some b))

-- A target, its required value and its support.
pub record Target : Type 0 where
  pub sig : Sig
  pub req : Bool
  pub sup : List String

-- `zip(targets, sups)`
unfoldable pub with_supports : List (Sig × Bool) → Option (List Target)
unfolding support
with_supports [] = some []
with_supports ((sig, req) ∷ ts) = do
  sup ← support sig
  rest ← with_supports ts
  some (record { sig = sig; req = req; sup = sup } ∷ rest)

-- `n in cone`
abbrev pub in_cone : String → List Target → Bool
in_cone x [] = false
in_cone x (t ∷ ts) = listed x t.sup || in_cone x ts

-- The free drops: the bits that no target reads.
unfoldable pub drop_free : List Target → List String → TriEnv → TriEnv
drop_free ts [] lifted = lifted
drop_free ts (x ∷ xs) lifted =
    drop_free ts xs (if in_cone x ts then lifted else put_name lifted x none)

abbrev pub tri_is : Bool → Tri → Bool
tri_is b none = false
tri_is b (some v) = flip (xor_bool b v)

-- `all(ternary_eval(t, lifted, memo) == req for ... if n in sup)`
unfoldable pub all_definite : ℕ → TriEnv → String → List Target → Memo → Option Bool
unfolding simulate_sig
all_definite f lifted x [] memo = some true
all_definite f lifted x (t ∷ ts) memo = elim (listed x t.sup) [
  | false ↦ all_definite f lifted x ts memo
  | true ↦ elim (simulate_sig f lifted t.sig memo) [
    | none ↦ none
    | some (v, memo') ↦ elim (tri_is t.req v) [
      | true ↦ all_definite f lifted x ts memo'
      | false ↦ some false
    ]
  ]
]

-- One simulated drop; a bit that is X already is passed over.
unfoldable pub drop_bit : ℕ → List Target → String → TriEnv → Option TriEnv
unfolding all_definite
drop_bit f ts x lifted = elim (lifted x) [
  | none ↦ none
  | some v ↦ elim v [
    | none ↦ some lifted
    | some _ ↦ do
      ok ← all_definite f (put_name lifted x none) x ts []
      some (if ok then put_name lifted x none else lifted)
  ]
]

unfoldable pub drop_bits : ℕ → List Target → List String → TriEnv → Option TriEnv
unfolding drop_bit
drop_bits f ts [] lifted = some lifted
drop_bits f ts (x ∷ xs) lifted = do lifted' ← drop_bit f ts x lifted; drop_bits f ts xs lifted'

-- The literals of the bits that are not X, from state bit `i` on.
unfoldable pub cube_of : List String → ℕ → TriEnv → Option Cube
cube_of [] i env = some []
cube_of (x ∷ xs) i env = do
  v ← env x
  c ← cube_of xs (suc i) env
  some (elim v [ none ↦ c | some b ↦ bit_lit i b ∷ c ])

-- `if not cube:` the minterm.
unfoldable pub or_minterm : List String → TriEnv → Cube → Option Cube
unfolding cube_of
or_minterm names env [] = cube_of names 0 env
or_minterm names env (l ∷ ls) = some (l ∷ ls)

unfoldable pub lift : ℕ → TransitionSystem → TriEnv → List (Sig × Bool) → Option Cube
unfolding with_supports drop_free drop_bits cube_of or_minterm
lift f ts env targets = do
  tgts ← with_supports targets
  lifted ← drop_bits f tgts ts.state (drop_free tgts ts.state env)
  cube ← cube_of ts.state 0 lifted
  or_minterm ts.state env cube
