-- ===== src/Liveness/Tests.antt =====
-- Runs of liveness.py, and its theorem at a design that never answers.
use emergent_hardware_verifi.Liveness.Guarded.{apply_assumptions-Applies, AppliesAssumptions}
use emergent_hardware_verifi.Liveness.Names.{reserved}
use emergent_hardware_verifi.Liveness.{liveness_to_safety, apply_assumptions}
use emergent_hardware_verifi.Frame.{put_name, TransitionSystem}
use emergent_hardware_verifi.Liveness.Reduction.{liveness_to_safety-Reduces, Reduces}
use emergent_hardware_verifi.Liveness.Augmented.{HasPlainNames}
use emergent_hardware_verifi.Prelude.{
  ◌≡◌, ◌∷◌, ◌∙◌, ℕ, true, sym, subst, some, refl, none, inr, inl, false, [], String, Option, List,
  Bool-cases,
}
use text.Mathlib.Text.{◌==◌ as str_eq}
use text.Mathlib.TextEquality.{eq_iff}
use emergent_hardware_verifi.Circuit.Sig.{Sig, var}

-- One register that keeps its bit; `req |-> s_eventually ack`, with the register as the answer.
abbrev sig_req : Sig
sig_req = var 2 "req"

abbrev sig_ack : Sig
sig_ack = var 3 "ack"

abbrev silent : TransitionSystem
silent = record {
  name = "silent";
  state = "ack" ∷ [];
  inputs = "req" ∷ [];
  next = put_name (λ _. none) "ack" sig_ack;
  init = put_name (λ _. none) "ack" false;
  bad = some sig_ack;
  liveness = (sig_req, sig_ack) ∷ [];
  assumptions = [];
  covers = [];
}

-- The state bits of the result.
abbrev state_names : Option (TransitionSystem × ℕ) → Option (List String)
state_names none = none
state_names (some (L, n)) = some L.state

augments :
    state_names (liveness_to_safety silent 0 4)
    ≡ some (
        "ack" ∷ "__pending" ∷ "__saved" ∷ "__shadow_ack" ∷ "__shadow___pending" ∷ "__triggered"
        ∷ [])
unfolding liveness_to_safety
augments = refl

-- There is no second property.
out_of_range : state_names (liveness_to_safety silent 1 4) ≡ none
unfolding liveness_to_safety
out_of_range = refl

-- A safety property without assumptions is left as it is.
unchanged : apply_assumptions silent 4 ≡ some (silent, 4)
unfolding apply_assumptions
unchanged = refl

silent-HasPlainNames : HasPlainNames silent
silent-HasPlainNames x h = elim (Bool-cases (str_eq "ack" x)) [
  | inl e ↦ subst (λ z. reserved z ≡ false) ((eq_iff "ack" x).0 e) refl
  | inr e ↦ let bad : false ≡ true = sym (rw e refl) ∙ h in cc
]

liveness_to_safety-Reduces_example : Reduces silent sig_req sig_ack (liveness_to_safety silent 0 4)
liveness_to_safety-Reduces_example =
    liveness_to_safety-Reduces silent 0 sig_req sig_ack 4 refl ((false, refl), (sig_ack, refl), tt)
      silent-HasPlainNames

-- The same design where a request is assumed in every cycle, with the answer as its bad signal.
abbrev asked : TransitionSystem
asked = record silent { assumptions = sig_req ∷ [] }

apply_assumptions-Applies_example : AppliesAssumptions asked sig_ack (apply_assumptions asked 4)
apply_assumptions-Applies_example =
    apply_assumptions-Applies asked sig_ack 4 refl ((false, refl), (sig_ack, refl), tt)
      silent-HasPlainNames
