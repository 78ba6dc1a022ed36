-- ===== src/Liveness/Reduction.antt =====
-- liveness.py, `liveness_to_safety`: what a counterexample to the augmented system's `bad` shows of
-- the design.
use emergent_hardware_verifi.Liveness.Loops.{Lasso}
use emergent_hardware_verifi.Liveness.Lookup.{copy_bits-Copied}
use emergent_hardware_verifi.Circuit.Word.Loops.{bits}
use emergent_hardware_verifi.Liveness.{liveness_to_safety, copy_bits, add_monitors, add_inputs}
use emergent_hardware_verifi.Circuit.Meaning.{eval-var_sig, eval, Valuation}
use emergent_hardware_verifi.Frame.{join, new_system, add_state_bit, add_input, TransitionSystem}
use emergent_hardware_verifi.Circuit.Sig.{Sig}
use emergent_hardware_verifi.Liveness.Lasso.{BadRun-Lasso}
use emergent_hardware_verifi.Liveness.Augmented.{add_monitors-Monitored, Monitored, HasPlainNames}
use emergent_hardware_verifi.Prelude.{
  ◌≡◌, ◌∷◌, ℕ, some, refl, get_elem?, [], String, Option, List, Bool,
}
use emergent_hardware_verifi.Bmc.Check.{BadRun}

-- Each name has a reset value and a next-state function.
abbrev pub HasBits : TransitionSystem → List String → Type 0
HasBits ts [] = Unit {0}
HasBits ts (x ∷ xs) =
    ((c : Bool) × (ts.init x ≡ some c)) × ((sig : Sig) × (ts.next x ≡ some sig)) × HasBits ts xs

-- The call returns a system with a `bad`, and a run to it gives a lasso of the design.
pub record Reduces (ts : TransitionSystem) (a b : Sig) (result : Option (TransitionSystem × ℕ))
    : Type 0 where
  pub augmented : TransitionSystem
  pub count : ℕ
  pub returns : result ≡ some (augmented, count)
  pub bad : Sig
  pub has_bad : augmented.bad ≡ some bad
  pub lasso_if_bad : (k : ℕ) → BadRun augmented bad k → Lasso ts a b

pub copy_bits-returns :
    (ts : TransitionSystem) (names : List String) (L : TransitionSystem)
    → HasBits ts names
    → (L' : TransitionSystem) × (copy_bits ts names L ≡ some L')
unfolding copy_bits
copy_bits-returns ts [] L h = (L, refl)
copy_bits-returns ts (x ∷ xs) L ((c, e), (sig, k), h) =
    let (L', r) = copy_bits-returns ts xs (add_state_bit x c sig L) h in
    (L', rw (e, copy_bits) (rw k r))

add_input-reads :
    (x : String) (L : TransitionSystem) (n : ℕ) (ρ : Valuation) → eval ρ (add_input x L n).0.0 ≡ ρ x
unfolding add_input
add_input-reads x L n ρ = eval-var_sig ρ x n

-- For a design whose state bits have reset values and next-state functions, and names that do not
-- start with two underscores, and for its property that a is eventually answered by b:
-- liveness_to_safety returns a system with a bad signal, and every run of that system from reset
-- to a bad state gives a run of the design from reset, under its assumptions throughout, that
-- comes back to an earlier state, with b owed there and absent all the way round.
pub liveness_to_safety-Reduces :
    (ts : TransitionSystem) (idx : ℕ) (a b : Sig) (n : ℕ)
    → get_elem? ts.liveness idx ≡ some (a, b)
    → HasBits ts ts.state
    → HasPlainNames ts
    → Reduces ts a b (liveness_to_safety ts idx n)
unfolding liveness_to_safety
liveness_to_safety-Reduces ts idx a b n e bits plain =
    let (L, n1) = add_inputs ts.inputs (new_system (join ts.name "_L2S")) n in
    let r = add_input "__save" L n1 in
    let (L', copied) = copy_bits-returns ts ts.state r.0.1 bits in
    let done' = add_monitors ts a b r.0.0 L' r.1 in
    let m : Monitored ts a b done'.0 =
      add_monitors-Monitored ts a b r.0.0 L' r.1 plain (add_input-reads "__save" L n1)
        (λ x q. copy_bits-Copied ts ts.state r.0.1 L' x copied q) in
    record {
      augmented = done'.0;
      count = done'.1;
      returns = rw (e, liveness_to_safety) (rw copied refl);
      bad = m.bad;
      has_bad = m.has_bad;
      lasso_if_bad = λ k run. BadRun-Lasso ts a b done'.0 m k run;
    }
