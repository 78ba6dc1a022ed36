-- ===== src/Liveness.antt =====
-- liveness.py: apply_assumptions and liveness_to_safety.
-- `idx` is not negative; a missing key and an index out of range are `none`.
pub mod Names
pub mod Lookup
pub mod Monitors
pub mod Augmented
pub mod Loops
pub mod Lasso
pub mod Reduction
pub mod Guarded
mod Tests
use emergent_hardware_verifi.Frame.{join, new_system, add_state_bit, add_input, TransitionSystem}
use emergent_hardware_verifi.Prelude.{
  ◌++◌, get_elem?, ◌∷◌, ℕ, true, some, none, false, [], String, Option, List,
}
use emergent_hardware_verifi.Circuit.Sig.{
  xnor_sig, var_sig, true_sig, or_sig, not_sig, ite_sig, false_sig, and_sig, Sig, Build,
}
use emergent_hardware_verifi.Circuit.Sig.{pure, ◌>>=◌}

-- `for inp in ts.inputs: L.add_input(inp)`
unfoldable pub add_inputs : List String → TransitionSystem → Build TransitionSystem
unfolding add_input
add_inputs [] L n = (L, n)
add_inputs (x ∷ xs) L n = let ((v, L'), n') = add_input x L n in add_inputs xs L' n'

-- `for s in ts.state: L.add_state_bit(s, ts.init[s], ts.next[s])`
unfoldable pub copy_bits :
    TransitionSystem → List String → TransitionSystem → Option TransitionSystem
unfolding add_state_bit
copy_bits ts [] L = some L
copy_bits ts (x ∷ xs) L = elim (ts.init x) [
  | none ↦ none
  | some b ↦ elim (ts.next x) [ none ↦ none | some sig ↦ copy_bits ts xs (add_state_bit x b sig L) ]
]

-- The latch for the assumptions, and what guards `bad`.
unfoldable pub add_latch : List Sig → TransitionSystem → Build (Sig × TransitionSystem)
unfolding and_sig var_sig add_state_bit
add_latch assumptions L = do
  assm_now ← and_sig assumptions
  aok ← var_sig "__assm_ok"
  nxt ← and_sig (aok ∷ assm_now ∷ [])
  guard ← and_sig (aok ∷ assm_now ∷ [])
  pure (guard, add_state_bit "__assm_ok" true nxt L)

unfoldable pub add_guard : List Sig → TransitionSystem → Build (Sig × TransitionSystem)
unfolding add_latch
add_guard [] L = pure (true_sig, L)
add_guard (g ∷ gs) L = add_latch (g ∷ gs) L

-- `apply_assumptions(ts)`; a system without `bad` has no `bad` to guard.
unfoldable pub guard_bad : TransitionSystem → Sig → TransitionSystem → Build TransitionSystem
unfolding and_sig var_sig add_state_bit
guard_bad ts bad L = do
  assm ← and_sig ts.assumptions
  aok ← var_sig "__assm_ok"
  nxt ← and_sig (aok ∷ assm ∷ [])
  bad' ← and_sig (bad ∷ aok ∷ assm ∷ [])
  pure (record (add_state_bit "__assm_ok" true nxt L) {
    bad = some bad';
    liveness = ts.liveness;
    assumptions = ts.assumptions;
  })

unfoldable pub guard_copy :
    TransitionSystem → Option Sig → Option TransitionSystem → ℕ → Option (TransitionSystem × ℕ)
unfolding guard_bad
guard_copy ts (some bad) (some L) n = some (guard_bad ts bad L n)
guard_copy ts (some bad) none n = none
guard_copy ts none L n = none

-- The same, given `ts.assumptions`.
unfoldable pub apply_on : TransitionSystem → List Sig → ℕ → Option (TransitionSystem × ℕ)
unfolding new_system add_inputs copy_bits guard_copy
apply_on ts [] n = some (ts, n)
apply_on ts (g ∷ gs) n =
    let (L, n1) = add_inputs ts.inputs (new_system ts.name) n in
    guard_copy ts ts.bad (copy_bits ts ts.state L) n1

unfoldable pub apply_assumptions : TransitionSystem → ℕ → Option (TransitionSystem × ℕ)
unfolding apply_on
apply_assumptions ts n = apply_on ts ts.assumptions n

abbrev pub shadow : String → String
shadow w = join "__shadow_" w

-- The loop over `watched`.
unfoldable pub add_shadow : Sig → String → TransitionSystem → Build TransitionSystem
unfolding var_sig ite_sig add_state_bit
add_shadow saved w L = do
  held ← var_sig (shadow w)
  now ← var_sig w
  nxt ← ite_sig saved held now
  pure (add_state_bit (shadow w) false nxt L)

unfoldable pub add_shadows : Sig → List String → TransitionSystem → Build TransitionSystem
unfolding add_shadow
add_shadows saved [] L n = (L, n)
add_shadows saved (w ∷ ws) L n = let (L', n') = add_shadow saved w L n in add_shadows saved ws L' n'

-- `[XNOR(VAR(w), VAR(f"__shadow_{w}")) for w in watched]`
unfoldable pub compare_shadows : List String → Build (List Sig)
unfolding var_sig xnor_sig
compare_shadows [] = pure []
compare_shadows (w ∷ ws) = do
  now ← var_sig w
  held ← var_sig (shadow w)
  x ← xnor_sig now held
  xs ← compare_shadows ws
  pure (x ∷ xs)

-- The monitors, each added with its variable: the obligation, the loop's latch, and whether the good
-- event occurred on the loop.
unfoldable pub add_pending : Sig → Sig → TransitionSystem → Build (Sig × TransitionSystem)
unfolding or_sig not_sig and_sig var_sig add_state_bit
add_pending a b L = do
  pending ← var_sig "__pending"
  owed ← or_sig (pending ∷ a ∷ [])
  nb ← not_sig b
  nxt ← and_sig (owed ∷ nb ∷ [])
  pure (pending, add_state_bit "__pending" false nxt L)

unfoldable pub add_saved : Sig → TransitionSystem → Build (Sig × TransitionSystem)
unfolding or_sig var_sig add_state_bit
add_saved save L = do
  saved ← var_sig "__saved"
  nxt ← or_sig (saved ∷ save ∷ [])
  pure (saved, add_state_bit "__saved" false nxt L)

unfoldable pub add_triggered : Sig → Sig → Sig → TransitionSystem → Build (Sig × TransitionSystem)
unfolding or_sig ite_sig var_sig add_state_bit
add_triggered saved save p L = do
  trig ← var_sig "__triggered"
  inside ← or_sig (saved ∷ save ∷ [])
  hit ← or_sig (trig ∷ p ∷ [])
  nxt ← ite_sig inside hit false_sig
  pure (trig, add_state_bit "__triggered" false nxt L)

unfoldable pub lasso_bad : Sig → Sig → Sig → List String → Build Sig
unfolding compare_shadows and_sig not_sig
lasso_bad saved trig guard watched = do
  same ← compare_shadows watched
  closed ← and_sig same
  ntrig ← not_sig trig
  and_sig (saved ∷ closed ∷ ntrig ∷ guard ∷ [])

abbrev pub watched : TransitionSystem → List String
watched ts = ts.state ++ "__pending" ∷ []

-- From the obligation monitor on, over the copied system, with the oracle's variable.
unfoldable pub add_monitors :
    TransitionSystem → Sig → Sig → Sig → TransitionSystem → Build TransitionSystem
unfolding add_pending add_saved add_shadows add_triggered add_guard lasso_bad not_sig
add_monitors ts a b save L n =
    let ((pending, L1), n1) = add_pending a b L n in
    let (p, n2) = not_sig pending n1 in
    let ((saved, L2), n3) = add_saved save L1 n2 in
    let (L3, n4) = add_shadows saved (watched ts) L2 n3 in
    let ((trig, L4), n5) = add_triggered saved save p L3 n4 in
    let ((guard, L5), n6) = add_guard ts.assumptions L4 n5 in
    let (bad, n7) = lasso_bad saved trig guard (watched ts) n6 in (record L5 { bad = some bad }, n7)

-- `liveness_to_safety(ts, idx)`
unfoldable pub liveness_to_safety : TransitionSystem → ℕ → ℕ → Option (TransitionSystem × ℕ)
unfolding new_system add_inputs add_input copy_bits add_monitors
liveness_to_safety ts idx n = elim (get_elem? ts.liveness idx) [
  | none ↦ none
  | some (a, b) ↦
      let (L, n1) = add_inputs ts.inputs (new_system (join ts.name "_L2S")) n in
      let ((save, L'), n2) = add_input "__save" L n1 in
      elim (copy_bits ts ts.state L') [
        | none ↦ none
        | some L'' ↦ some (add_monitors ts a b save L'' n2)
      ]
]
