-- ===== src/Sat/Solver.antt =====
-- cdcl.py, `class Solver`: its state, new_var, value, add_clause, _attach, _enqueue,
-- _decision_level, _new_decision_level and _cancel_until.
-- The dictionary `names` serves tracing alone and is not kept.
pub mod Meaning
pub mod Cancel
pub mod Add
pub mod Unit
pub mod Stored
pub mod Start
use mathlib.Core.List.{reverse}
use Prim.Native.Nat.{min}
use emergent_hardware_verifi.Sat.Literal.{ℤ, variable, pos, negsuc, neg, member, is_pos, int_eq}
use emergent_hardware_verifi.Prelude.{
  ◌/◌, ◌∷◌, ℕ, true, take, suc, some, none, length, get_elem?, flip, false, if◌then◌else◌, drop, [],
  String, Option, List, Bool, ◌==◌, ◌++◌,
}

-- A Python float, as the operations that made it: the scores are only compared, never decided here.
pub data Float : Type 0 where
  literal : String → Float
  plus times : Float → Float → Float

-- `class Clause`. Clauses are shared objects that propagation reorders: a reference is an index
-- into the solver's `store`.
pub record Clause : Type 0 where
  pub lits : List ℤ
  pub learnt : Bool

abbrev pub Ref : Type 0
Ref = ℕ

-- A dictionary: `none` is a missing key.
abbrev pub Dict : Type 0 → Type 0 → Type 0
Dict K V = K → Option V

abbrev pub put : {V : Type 0} → Dict ℕ V → ℕ → V → Dict ℕ V
put d k v j = if k == j then some v else d j

abbrev pub put_int : {V : Type 0} → Dict ℤ V → ℤ → V → Dict ℤ V
put_int d k v j = if int_eq k j then some v else d j

-- `d.setdefault(k, v)`
abbrev pub set_default : {V : Type 0} → Dict ℤ V → ℤ → V → Dict ℤ V
set_default d k v = elim (d k) [ none ↦ put_int d k v | some _ ↦ d ]

pub record Solver : Type 0 where
  pub n_vars : ℕ
  pub store : List Clause
  pub clauses : List Ref
  pub learnts : List Ref
  pub watches : Dict ℤ (List Ref)
  pub assign : Dict ℕ (Option Bool)
  pub level : Dict ℕ ℤ
  pub reason : Dict ℕ (Option Ref)
  pub trail : List ℤ
  pub trail_lim : List ℕ
  pub qhead : ℕ
  pub activity : Dict ℕ Float
  pub var_inc : Float
  pub var_decay : Float
  pub phase : Dict ℕ Bool
  pub seen : Dict ℕ Bool
  pub conflict_core : List ℤ
  -- The attributes `_empty`, and circuit.py's `_true_lit`, which are absent until they are set.
  pub empty : Bool
  pub true_lit : Option ℤ

-- A method: the new state and its result, or `none` for an exception (a KeyError).
abbrev pub M : Type 0 → Type 0
M A = Solver → Option (A × Solver)

abbrev pub pure : {A : Type 0} → A → M A
pure a s = some (a, s)

infixl 5 ◌>>=◌ ◌>>◌
abbrev pub ◌>>=◌ : {A B : Type 0} → M A → (A → M B) → M B
◌>>=◌ m f s = elim (m s) [ none ↦ none | some (a, s') ↦ f a s' ]

abbrev pub ◌>>◌ : {B : Type 0} → M (Unit {0}) → M B → M B
m >> k = m >>= λ _. k

abbrev pub modify : (Solver → Solver) → M (Unit {0})
modify f s = some (tt, f s)

-- `Solver.__init__`
unfoldable pub new_solver : Solver
new_solver = record {
  n_vars = 0;
  store = [];
  clauses = [];
  learnts = [];
  watches = λ _. none;
  assign = λ _. none;
  level = λ _. none;
  reason = λ _. none;
  trail = [];
  trail_lim = [];
  qhead = 0;
  activity = λ _. none;
  var_inc = literal "1.0";
  var_decay = literal "1.0 / 0.95";
  phase = λ _. none;
  seen = λ _. none;
  conflict_core = [];
  empty = false;
  true_lit = none;
}

-- The state after `new_var`.
abbrev pub with_var : Solver → Solver
with_var s =
    let v : ℕ = suc s.n_vars in
    record s {
      n_vars = v;
      assign = put s.assign v none;
      level = put s.level v (negsuc 0);
      reason = put s.reason v none;
      activity = put s.activity v (literal "0.0");
      phase = put s.phase v false;
      seen = put s.seen v false;
      watches = set_default (set_default s.watches (pos v) []) (neg (pos v)) [];
    }

unfoldable pub new_var : M ℕ
new_var s = some (suc s.n_vars, with_var s)

-- `value(lit)`; the outer option is the KeyError of `assign[var(lit)]`.
unfoldable pub value : ℤ → Solver → Option (Option Bool)
value lit s = elim (s.assign (variable lit)) [
  | none ↦ none
  | some a ↦ elim a [ none ↦ some none | some b ↦ some (some (if is_pos lit then b else flip b)) ]
]

unfoldable pub decision_level : Solver → ℕ
decision_level s = length s.trail_lim

unfoldable pub new_decision_level : Solver → Solver
new_decision_level s = record s { trail_lim = s.trail_lim ++ length s.trail ∷ [] }

-- The state after the assignments of `_enqueue`.
abbrev pub with_assigned : ℤ → Option Ref → Solver → Solver
with_assigned lit why s =
    let v : ℕ = variable lit in
    record s {
      assign = put s.assign v (some (is_pos lit));
      level = put s.level v (pos (length s.trail_lim));
      reason = put s.reason v why;
      phase = put s.phase v (is_pos lit);
      trail = s.trail ++ lit ∷ [];
    }

unfoldable pub enqueue : ℤ → Option Ref → M Bool
unfolding value
enqueue lit why s = elim (value lit s) [
  | none ↦ none
  | some found ↦ elim found [ some b ↦ some (b, s) | none ↦ some (true, with_assigned lit why s) ]
]

-- One round of the loop of `_cancel_until`.
abbrev pub unassign : ℤ → Solver → Solver
unassign lit s =
    let v : ℕ = variable lit in
    record s {
      assign = put s.assign v none;
      reason = put s.reason v none;
      level = put s.level v (negsuc 0);
    }

unfoldable pub unassign_all : List ℤ → Solver → Solver
unassign_all [] s = s
unassign_all (l ∷ ls) s = unassign_all ls (unassign l s)

-- `_cancel_until(lvl)`, given `trail_lim[lvl]` if there is such a level: the loop runs from the end
-- of the trail back to where the level began.
unfoldable pub cancel_at : Option ℕ → ℕ → Solver → Solver
unfolding unassign_all
cancel_at none lvl s = s
cancel_at (some start) lvl s =
    let s' = unassign_all (reverse (drop start s.trail)) s in
    let kept = take start s.trail in
    record s' { trail = kept; trail_lim = take lvl s.trail_lim; qhead = min s.qhead (length kept) }

unfoldable pub cancel_until : ℕ → Solver → Solver
unfolding cancel_at
cancel_until lvl s = cancel_at (get_elem? s.trail_lim lvl) lvl s

-- The loop of `add_clause`: `none` is the return at a tautology. `seen` and `out` hold the same
-- literals, so one list stands for both.
unfoldable pub simplify : List ℤ → List ℤ → Option (List ℤ)
simplify [] out = some out
simplify (l ∷ ls) out =
    let rest = simplify ls (if member l out then out else out ++ l ∷ []) in
    if member (neg l) out then none else rest

-- `self.watches[neg(lit)].append(c)`
unfoldable pub watch : ℤ → Ref → M (Unit {0})
watch lit c s = elim (s.watches (neg lit)) [
  | none ↦ none
  | some ws ↦ some (tt, record s { watches = put_int s.watches (neg lit) (ws ++ c ∷ []) })
]

-- `_attach`, on a clause whose first two literals are given.
unfoldable pub attach : ℤ → ℤ → Ref → M (Unit {0})
unfolding watch
attach a b c = do watch a c; watch b c

-- What `add_clause` does with the literals that are left.
unfoldable pub add_simplified : List ℤ → M Bool
unfolding enqueue attach
add_simplified [] s = some (false, record s { empty = true })
add_simplified (l ∷ []) s = elim (enqueue l none s) [
  | none ↦ none
  | some (ok, s') ↦ some (ok, if ok then s' else record s' { empty = true })
]
add_simplified (a ∷ b ∷ ls) s =
    let c : ℕ = length s.store in
    let s' = record s {
      store = s.store ++ record { lits = a ∷ b ∷ ls; learnt = false } ∷ [];
      clauses = s.clauses ++ c ∷ [];
    } in
    elim (attach a b c s') [ none ↦ none | some (_, s'') ↦ some (true, s'') ]

unfoldable pub add_clause : List ℤ → M Bool
unfolding cancel_until simplify add_simplified
add_clause lits s =
    let s' = cancel_until 0 s in
    elim (simplify lits []) [ none ↦ some (true, s') | some out ↦ add_simplified out s' ]
