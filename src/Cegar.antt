-- ===== src/Cegar.antt =====
-- cegar.py: localization abstraction and the bits that it reads; and circuit.py `support`.
-- `none` is a Python exception. The children follow the search for a counterexample, its replay and
-- the refinement loop.
pub mod Localize
pub mod Counterexample
pub mod Replay
pub mod Refine
pub mod Checked
pub mod Support
pub mod Cone
pub mod Verdicts
mod Tests
use emergent_hardware_verifi.Circuit.Sig.{
  xor, var, or, not, nil, ite, id, const, cons, args, and, Sigs, Sig,
}
use emergent_hardware_verifi.Frame.{put_name, new_system, add_state_bit, TransitionSystem, Env}
use emergent_hardware_verifi.Prelude.{
  ◌∷◌, ℕ, ◌||◌, zero, true, suc, some, none, false, if◌then◌else◌, [], String, Option, List, Bool,
  ◌==◌, ◌++◌, ◌+◌,
}
use emergent_hardware_verifi.Frame.Fresh.{listed}
use emergent_hardware_verifi.Circuit.Ternary.{push_all}
use emergent_hardware_verifi.Frame.{join}

-- `for n in ts.state: if n in keep: a.add_state_bit(n, ts.init[n], ts.next[n])`
unfoldable pub keep_bits :
    TransitionSystem → List String → List String → TransitionSystem → Option TransitionSystem
unfolding add_state_bit
keep_bits ts kept [] L = some L
keep_bits ts kept (x ∷ xs) L = elim (listed x kept) [
  | false ↦ keep_bits ts kept xs L
  | true ↦ elim (ts.init x) [
    | none ↦ none
    | some b ↦ elim (ts.next x) [
      | none ↦ none
      | some sig ↦ keep_bits ts kept xs (add_state_bit x b sig L)
    ]
  ]
]

-- `[n for n in xs if n not in keep]`
unfoldable pub freed : List String → List String → List String
freed kept [] = []
freed kept (x ∷ xs) = let rest = freed kept xs in if listed x kept then rest else x ∷ rest

-- `localize(ts, keep)`
unfoldable pub localize : TransitionSystem → List String → Option TransitionSystem
unfolding new_system keep_bits freed
localize ts kept = elim (keep_bits ts kept ts.state (new_system (join ts.name "+loc"))) [
  | none ↦ none
  | some L ↦ some (record L {
    inputs = ts.inputs ++ freed kept ts.state;
    bad = ts.bad;
    assumptions = ts.assumptions;
  })
]

-- `[n for n in xs if n in chosen]`
unfoldable pub chosen : List String → List String → List String
chosen names [] = []
chosen names (x ∷ xs) = let rest = chosen names xs in if listed x names then x ∷ rest else rest

-- The number of nodes of a signal, shared ones counted each time.
unfoldable mutual
  pub size : Sig → ℕ
  size (const _ _) = 1
  size (var _ _) = 1
  size (not _ a) = suc (size a)
  size (and _ xs) = suc (size_all xs)
  size (or _ xs) = suc (size_all xs)
  size (xor _ a b) = suc (size a + size b)
  size (ite _ c t e) = suc (size c + size t + size e)

  pub size_all : Sigs → ℕ
  size_all nil = 0
  size_all (cons s ss) = size s + size_all ss

abbrev pub known_id : ℕ → List ℕ → Bool
known_id i [] = false
known_id i (j ∷ js) = j == i || known_id i js

-- A signal that the loop sees for the first time: its name, and what to visit.
abbrev pub name_of : Sig → List String → List String
name_of (var _ x) out = x ∷ out
name_of s out = out

-- The loop of `support`, on fuel: the ids seen, the names, and the stack with its top first.
unfoldable pub support_loop : ℕ → List ℕ → List String → List Sig → Option (List String)
support_loop f seen out [] = some out
support_loop zero seen out (s ∷ stack) = none
support_loop (suc f) seen out (s ∷ stack) = elim (known_id (id s) seen) [
  | true ↦ support_loop f seen out stack
  | false ↦ support_loop f (id s ∷ seen) (name_of s out) (push_all (args s) stack)
]

-- `support(sig)`; the fuel is the number of nodes.
unfoldable pub support : Sig → Option (List String)
unfolding support_loop size
support s = support_loop (size s) [] [] (s ∷ [])

-- The loop of `_Frontier.read` over the kept bits.
unfoldable pub support_of : TransitionSystem → List String → List String → Option (List String)
unfolding support
support_of ts [] r = some r
support_of ts (x ∷ xs) r = elim (ts.next x) [
  | none ↦ none
  | some sig ↦ elim (support sig) [ none ↦ none | some names ↦ support_of ts xs (names ++ r) ]
]

-- `_Frontier(ts).read(keep)`
unfoldable pub frontier : TransitionSystem → List String → List String → Option (List String)
unfolding support_of chosen freed
frontier ts bad_sup kept = elim (support_of ts kept bad_sup) [
  | none ↦ none
  | some r ↦ some (freed kept (chosen r ts.state))
]
