-- ===== src/Circuit/Ternary.antt =====
-- circuit.py, `ternary_eval`: three-valued simulation with an explicit stack and a memo by `Sig.id`.
-- A value is `some false`, `some true` or `none` for 0, 1 and X (Python's None).
pub mod Rules
pub mod Steps
pub mod Run
use emergent_hardware_verifi.Circuit.Sig.{xor, var, or, not, ite, id, const, args, and, Sig}
use emergent_hardware_verifi.Prelude.{
  ◌∷◌, ℕ, zero, xor_bool, true, suc, some, none, flip, false, if◌then◌else◌, [], String, Option,
  List, Bool, ◌==◌,
}

abbrev pub Tri : Type 0
Tri = Option Bool

-- `env`: the value of a VAR name, or nothing where the dictionary lacks the key.
abbrev pub TriEnv : Type 0
TriEnv = String → Option Tri

abbrev pub Memo : Type 0
Memo = List (ℕ × Tri)

-- `memo.get(i)`; what was written last is found first.
abbrev pub find : ℕ → Memo → Option Tri
find i [] = none
find i ((j, v) ∷ m) = if j == i then some v else find i m

abbrev pub is_some : Option Tri → Bool
is_some none = false
is_some (some _) = true

-- `[a for a in s.args if a.id not in memo]`
unfoldable pub todo : List Sig → Memo → List Sig
todo [] m = []
todo (a ∷ as') m = if is_some (find (id a) m) then todo as' m else a ∷ todo as' m

-- `[memo[a.id] for a in s.args]`, or a KeyError.
unfoldable pub values : List Sig → Memo → Option (List Tri)
values [] m = some []
values (a ∷ as') m = elim (find (id a) m) [
  | none ↦ none
  | some v ↦ elim (values as' m) [ none ↦ none | some vs ↦ some (v ∷ vs) ]
]

-- `any(v == 0 for v in vals)`, with the value that is looked for as an argument.
abbrev pub has : Tri → List Tri → Bool
has none [] = false
has none (none ∷ vs) = true
has none (some _ ∷ vs) = has none vs
has (some b) [] = false
has (some b) (none ∷ vs) = has (some b) vs
has (some true) (some true ∷ vs) = true
has (some true) (some false ∷ vs) = has (some true) vs
has (some false) (some true ∷ vs) = has (some false) vs
has (some false) (some false ∷ vs) = true

abbrev pub tri_not : Tri → Tri
tri_not none = none
tri_not (some b) = some (flip b)

abbrev pub tri_and : List Tri → Tri
tri_and vs = if has (some false) vs then some false else if has none vs then none else some true

abbrev pub tri_or : List Tri → Tri
tri_or vs = if has (some true) vs then some true else if has none vs then none else some false

abbrev pub tri_xor : Tri → Tri → Tri
tri_xor none b = none
tri_xor (some a) none = none
tri_xor (some a) (some b) = some (xor_bool a b)

-- `t if (t == e and t is not None) else None`
abbrev pub agreeing : Tri → Tri → Tri
agreeing (some true) (some true) = some true
agreeing (some false) (some false) = some false
agreeing _ _ = none

abbrev pub tri_ite : Tri → Tri → Tri → Tri
tri_ite (some true) t e = t
tri_ite (some false) t e = e
tri_ite none t e = agreeing t e

-- The branch on `s.kind`; `none` is a failed unpacking or the ValueError.
unfoldable pub gate : Sig → List Tri → Option Tri
gate (not _ _) (v ∷ vs) = some (tri_not v)
gate (and _ _) vs = some (tri_and vs)
gate (or _ _) vs = some (tri_or vs)
gate (xor _ _ _) (a ∷ b ∷ []) = some (tri_xor a b)
gate (ite _ _ _ _) (c ∷ t ∷ e ∷ []) = some (tri_ite c t e)
gate _ _ = none

-- The stack, its top first, and the memo.
pub record Sim : Type 0 where
  pub stack : List Sig
  pub memo : Memo

-- The arguments are known: evaluate the gate and pop it.
unfoldable pub evaluate : Sig → List Sig → Memo → Option Sim
unfolding values gate
evaluate s rest m = elim (values (args s) m) [
  | none ↦ none
  | some vs ↦ elim (gate s vs) [
    | none ↦ none
    | some r ↦ some (record { stack = rest; memo = (id s, r) ∷ m })
  ]
]

-- `stack.extend(todo)` puts the last argument on top.
abbrev pub push_all : List Sig → List Sig → List Sig
push_all [] stack = stack
push_all (a ∷ as') stack = push_all as' (a ∷ stack)

unfoldable pub visit_gate : Sig → List Sig → Memo → Option Sim
unfolding todo evaluate
visit_gate s rest m = elim (todo (args s) m) [
  | [] ↦ evaluate s rest m
  | a ∷ as' ↦ some (record { stack = push_all (a ∷ as') (s ∷ rest); memo = m })
]

-- A node that the memo lacks.
unfoldable pub visit_new : TriEnv → Sig → List Sig → Memo → Option Sim
unfolding visit_gate
visit_new env (const i b) rest m = some (record { stack = rest; memo = (i, some b) ∷ m })
visit_new env (var i x) rest m = elim (env x) [
  | none ↦ none
  | some v ↦ some (record { stack = rest; memo = (i, v) ∷ m })
]
visit_new env s rest m = visit_gate s rest m

-- One round of the `while`, on the top of the stack.
unfoldable pub visit : TriEnv → Sig → List Sig → Memo → Option Sim
unfolding visit_new
visit env s rest m = elim (find (id s) m) [
  | none ↦ visit_new env s rest m
  | some _ ↦ some (record { stack = rest; memo = m })
]

pub data Outcome : Type 0 where
  done : Memo → Outcome
  failed out_of_fuel : Outcome

-- `while stack:` with fuel.
unfoldable pub loop : ℕ → TriEnv → Sim → Outcome
unfolding visit
loop zero env s = out_of_fuel
loop (suc f) env s = elim s.stack [
  | [] ↦ done s.memo
  | top ∷ rest ↦ elim (visit env top rest s.memo) [ none ↦ failed | some s' ↦ loop f env s' ]
]

-- `ternary_eval(sig, env, memo)`: the memo that the caller shares, and the value under `sig.id`.
unfoldable pub ternary_eval : ℕ → TriEnv → Sig → Memo → Outcome
unfolding loop
ternary_eval f env s m = loop f env (record { stack = s ∷ []; memo = m })
