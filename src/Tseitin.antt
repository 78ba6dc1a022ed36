-- ===== src/Tseitin.antt =====
-- circuit.py, `_true_lit` and `tseitin`: one solver variable and its defining clauses for each gate.
-- The labels and narration under `T.on` are left out.
pub mod Clauses
pub mod Vars
pub mod Kinds
pub mod State
pub mod NewVar
pub mod Gate
pub mod Truth
pub mod Correct
mod Tests
use emergent_hardware_verifi.Circuit.Sig.{xor, var, or, not, nil, ite, const, cons, and, Sigs, Sig}
use emergent_hardware_verifi.Sat.Literal.{ℤ, pos, neg}
use emergent_hardware_verifi.Sat.Solver.{new_var, add_clause, Solver, M}
use emergent_hardware_verifi.Prelude.{
  ◌∷◌, ℕ, some, none, if◌then◌else◌, [], String, Option, List, ◌==◌, ◌++◌,
}

-- `env`: the literal of each VAR name; a missing name is a KeyError.
abbrev pub LitEnv : Type 0
LitEnv = String → Option ℤ

-- `memo`: literals by `Sig.id`.
abbrev pub LitMemo : Type 0
LitMemo = List (ℕ × ℤ)

abbrev pub find : ℕ → LitMemo → Option ℤ
find i [] = none
find i ((j, l) ∷ m) = if j == i then some l else find i m

-- The solver and the memo that an encoding changes.
pub record Enc : Type 0 where
  pub solver : Solver
  pub memo : LitMemo

abbrev pub E : Type 0 → Type 0
E A = Enc → Option (A × Enc)

abbrev pub on_solver : {A : Type 0} → M A → E A
on_solver m e = elim (m e.solver) [ none ↦ none | some (a, s) ↦ some (a, record e { solver = s }) ]

infixl 5 ◌>>=◌
abbrev pub ◌>>=◌ : {A B : Type 0} → E A → (A → E B) → E B
◌>>=◌ m f e = elim (m e) [ none ↦ none | some (a, e') ↦ f a e' ]

abbrev pub give : {A : Type 0} → A → E A
give a e = some (a, e)

abbrev pub remember : ℕ → ℤ → Enc → Enc
remember i l e = record e { memo = (i, l) ∷ e.memo }

-- `_true_lit(solver)`, by the attribute that `getattr` finds.
unfoldable pub true_lit_at : Option ℤ → M ℤ
unfolding new_var add_clause
true_lit_at (some t) s = some (t, s)
true_lit_at none s = elim (new_var s) [
  | none ↦ none
  | some (v, s1) ↦ elim (add_clause (pos v ∷ []) s1) [
    | none ↦ none
    | some (_, s2) ↦ some (pos v, record s2 { true_lit = some (pos v) })
  ]
]

unfoldable pub true_lit_of : M ℤ
unfolding true_lit_at
true_lit_of s = true_lit_at s.true_lit s

-- The defining clauses `cls` of a gate with output `y`; an `xor` or `ite` unpacks its literals.
abbrev pub pair_with : ℤ → List ℤ → List (List ℤ)
pair_with y [] = []
pair_with y (l ∷ ls) = (y ∷ l ∷ []) ∷ pair_with y ls

abbrev pub negs : List ℤ → List ℤ
negs [] = []
negs (l ∷ ls) = neg l ∷ negs ls

unfoldable pub and_clauses : List ℤ → ℤ → List (List ℤ)
and_clauses ls y = pair_with (neg y) ls ++ (y ∷ negs ls) ∷ []

unfoldable pub or_clauses : List ℤ → ℤ → List (List ℤ)
or_clauses ls y = (neg y ∷ ls) ∷ pair_with y (negs ls)

unfoldable pub xor_clauses : ℤ → ℤ → ℤ → List (List ℤ)
xor_clauses a b y =
    (neg y ∷ neg a ∷ neg b ∷ [])
    ∷ (neg y ∷ a ∷ b ∷ [])
    ∷ (y ∷ neg a ∷ b ∷ [])
    ∷ (y ∷ a ∷ neg b ∷ [])
    ∷ []

unfoldable pub ite_clauses : ℤ → ℤ → ℤ → ℤ → List (List ℤ)
ite_clauses c t e y =
    (neg c ∷ neg t ∷ y ∷ [])
    ∷ (neg c ∷ t ∷ neg y ∷ [])
    ∷ (c ∷ neg e ∷ y ∷ [])
    ∷ (c ∷ e ∷ neg y ∷ [])
    ∷ []

-- `for cl in cls: solver.add_clause(cl)`
unfoldable pub add_all : List (List ℤ) → M (Unit {0})
unfolding add_clause
add_all [] s = some (tt, s)
add_all (c ∷ cs) s = elim (add_clause c s) [ none ↦ none | some (_, s') ↦ add_all cs s' ]

-- What follows the arguments of a gate: the output variable, its clauses, and the memo entry.
unfoldable pub emit : ℕ → (ℤ → List (List ℤ)) → E ℤ
unfolding new_var add_all
emit i clauses e = elim (new_var e.solver) [
  | none ↦ none
  | some (v, s1) ↦ elim (add_all (clauses (pos v)) s1) [
    | none ↦ none
    | some (_, s2) ↦ some (pos v, remember i (pos v) (record e { solver = s2 }))
  ]
]

-- `env[sig.name]`
abbrev pub read_env : Option ℤ → E ℤ
read_env none e = none
read_env (some l) e = some (l, e)

-- `if sig.id in memo: return memo[sig.id]`, before the rest.
abbrev pub memoized : ℕ → E ℤ → E ℤ
memoized i rest e = elim (find i e.memo) [ some r ↦ some (r, e) | none ↦ rest e ]

unfoldable mutual
  unfolding true_lit_of emit

  pub tseitin : LitEnv → Sig → E ℤ
  tseitin env (const _ b) = on_solver true_lit_of >>= λ t. give (if b then t else neg t)
  tseitin env (var _ x) = read_env (env x)
  tseitin env (not i a) = memoized i (tseitin env a >>= λ l e. some (neg l, remember i (neg l) e))
  tseitin env (and i xs) = memoized i (tseitin_all env xs >>= λ ls. emit i (and_clauses ls))
  tseitin env (or i xs) = memoized i (tseitin_all env xs >>= λ ls. emit i (or_clauses ls))
  tseitin env (xor i a b) =
      memoized i (tseitin env a >>= λ la. tseitin env b >>= λ lb. emit i (xor_clauses la lb))
  tseitin env (ite i c t e) = memoized i (
      tseitin env c >>= λ lc.
      tseitin env t >>= λ lt. tseitin env e >>= λ le. emit i (ite_clauses lc lt le))

  pub tseitin_all : LitEnv → Sigs → E (List ℤ)
  tseitin_all env nil = give []
  tseitin_all env (cons s ss) = tseitin env s >>= λ l. tseitin_all env ss >>= λ ls. give (l ∷ ls)
