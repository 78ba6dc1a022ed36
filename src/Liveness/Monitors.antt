-- ===== src/Liveness/Monitors.antt =====
-- liveness.py: what each monitor of the augmented system stands for.
use emergent_hardware_verifi.Liveness.Names.{shadow_inj}
use emergent_hardware_verifi.Frame.Fresh.{listed}
use emergent_hardware_verifi.Liveness.{
  lasso_bad, add_triggered, add_saved, add_pending, add_shadow, add_latch, add_guard, shadow,
  compare_shadows, add_shadows,
}
use emergent_hardware_verifi.Frame.{TransitionSystem}
use emergent_hardware_verifi.Circuit.Sig.{Sig}
use emergent_hardware_verifi.Liveness.Lookup.{add_state_bit-keeps, add_state_bit-Defines, Defines}
use emergent_hardware_verifi.Prelude.{
  ◌⊎◌, List-cases, ◌≡◌, ◌∷◌, ℕ, ◌||◌, xor_bool, true, subst, refl, map, inr, inl, flip, false,
  if◌then◌else◌, arith, [], String, List, Bool-cases, Bool, ◌&&◌,
}
use text.Mathlib.Text.{◌==◌ as str_eq}
use text.Mathlib.TextEquality.{eq_iff}
use emergent_hardware_verifi.Circuit.Meaning.{eval, Valuation, gate_meaning, all}

-- The shadow of a bit: it follows the bit until the loop's state was saved, and then stays.
abbrev pub shadow_val : String → Valuation → Bool
shadow_val w ρ = if ρ "__saved" then ρ (shadow w) else ρ w

abbrev pub owes : Sig → Sig → Valuation → Bool
owes a b ρ = (ρ "__pending" || eval ρ a) && flip (eval ρ b)

abbrev pub in_loop : Valuation → Bool
in_loop ρ = ρ "__saved" || ρ "__save"

abbrev pub good_seen : Valuation → Bool
good_seen ρ = if in_loop ρ then ρ "__triggered" || flip (ρ "__pending") else false

-- The assumptions hold in a state.
abbrev pub allowed : TransitionSystem → Valuation → Bool
allowed ts ρ = all (map (eval ρ) ts.assumptions)

abbrev pub latched : TransitionSystem → Valuation → Bool
latched ts ρ = ρ "__assm_ok" && allowed ts ρ

abbrev pub guard_val : List Sig → Valuation → Bool
guard_val [] ρ = true
guard_val (g ∷ gs) ρ = ρ "__assm_ok" && all (map (eval ρ) (g ∷ gs))

-- The state equals its shadow.
abbrev pub loop_closed : List String → Valuation → Bool
loop_closed [] ρ = true
loop_closed (w ∷ ws) ρ = flip (xor_bool (ρ w) (ρ (shadow w))) && loop_closed ws ρ

add_shadow-keeps :
    (saved : Sig) (w : String) (L : TransitionSystem) (n : ℕ) (x : String) (c : Bool)
    (f : Valuation → Bool)
    → str_eq (shadow w) x ≡ false
    → Defines L x c f
    → Defines (add_shadow saved w L n).0 x c f
unfolding add_shadow
add_shadow-keeps saved w L n x c f other d = add_state_bit-keeps (shadow w) false _ L x c f other d

pub add_shadows-keeps :
    (saved : Sig) (ws : List String) (L : TransitionSystem) (n : ℕ) (x : String) (c : Bool)
    (f : Valuation → Bool)
    → ((w : String) → str_eq (shadow w) x ≡ false)
    → Defines L x c f
    → Defines (add_shadows saved ws L n).0 x c f
unfolding add_shadows
add_shadows-keeps saved [] L n x c f other d = d
add_shadows-keeps saved (w ∷ ws) L n x c f other d =
    let r = add_shadow saved w L n in
    add_shadows-keeps saved ws r.0 r.1 x c f other (add_shadow-keeps saved w L n x c f (other w) d)

module _ (saved : Sig) (reads_saved : (ρ : Valuation) → eval ρ saved ≡ ρ "__saved") where
  -- A round of the loop for the name itself, and for any.
  shadow_here :
      (w : String) (L : TransitionSystem) (n : ℕ)
      → Defines (add_shadow saved w L n).0 (shadow w) false (shadow_val w)
  unfolding add_shadow
  shadow_here w L n =
      add_state_bit-Defines (shadow w) false _ L (shadow_val w)
        (λ ρ. simp gate_meaning (rw (reads_saved ρ) refl))

  shadow_again :
      (y w : String) (L : TransitionSystem) (n : ℕ)
      → Defines L (shadow w) false (shadow_val w)
      → Defines (add_shadow saved y L n).0 (shadow w) false (shadow_val w)
  shadow_again y w L n d = elim (Bool-cases (str_eq (shadow y) (shadow w))) [
    | inr other ↦ add_shadow-keeps saved y L n (shadow w) false (shadow_val w) other d
    | inl same ↦
        subst (λ z. Defines (add_shadow saved y L n).0 (shadow z) false (shadow_val z))
          (shadow_inj y w same) (shadow_here y L n)
  ]

  add_shadows-again :
      (ws : List String) (L : TransitionSystem) (n : ℕ) (w : String)
      → Defines L (shadow w) false (shadow_val w)
      → Defines (add_shadows saved ws L n).0 (shadow w) false (shadow_val w)
  unfolding add_shadows
  add_shadows-again [] L n w d = d
  add_shadows-again (y ∷ ws) L n w d =
      let r = add_shadow saved y L n in add_shadows-again ws r.0 r.1 w (shadow_again y w L n d)

  pub add_shadows-Defines :
      (ws : List String) (L : TransitionSystem) (n : ℕ) (w : String)
      → listed w ws ≡ true
      → Defines (add_shadows saved ws L n).0 (shadow w) false (shadow_val w)
  unfolding add_shadows
  add_shadows-Defines [] L n w e = cc
  add_shadows-Defines (y ∷ ws) L n w e =
      let r = add_shadow saved y L n in
      elim (Bool-cases (str_eq y w)) [
        | inr other ↦ add_shadows-Defines ws r.0 r.1 w (ground (arith, e, other))
        | inl same ↦ add_shadows-again ws r.0 r.1 w (
            subst (λ z. Defines r.0 (shadow z) false (shadow_val z)) ((eq_iff y w).0 same)
              (shadow_here y L n))
      ]

compare_shadows-loop_closed :
    (ws : List String) (n : ℕ) (ρ : Valuation)
    → all (map (eval ρ) (compare_shadows ws n).0) ≡ loop_closed ws ρ
unfolding compare_shadows
compare_shadows-loop_closed [] n ρ = refl
compare_shadows-loop_closed (w ∷ ws) n ρ =
    simp gate_meaning (rw (compare_shadows-loop_closed ws _ ρ) refl)

pub add_guard-keeps :
    (gs : List Sig) (L : TransitionSystem) (n : ℕ) (x : String) (c : Bool) (f : Valuation → Bool)
    → str_eq "__assm_ok" x ≡ false
    → Defines L x c f
    → Defines (add_guard gs L n).0.1 x c f
unfolding add_guard add_latch
add_guard-keeps [] L n x c f other d = d
add_guard-keeps (g ∷ gs) L n x c f other d = add_state_bit-keeps "__assm_ok" true _ L x c f other d

pub add_guard-means :
    (gs : List Sig) (L : TransitionSystem) (n : ℕ) (ρ : Valuation)
    → eval ρ (add_guard gs L n).0.0 ≡ guard_val gs ρ
unfolding add_guard add_latch eval
add_guard-means [] L n ρ = refl
add_guard-means (g ∷ gs) L n ρ = simp gate_meaning (ground arith)

pub add_guard-Defines :
    (ts : TransitionSystem) (L : TransitionSystem) (n : ℕ)
    → (ts.assumptions ≡ [])
      ⊎ Defines (add_guard ts.assumptions L n).0.1 "__assm_ok" true (latched ts)
unfolding add_guard add_latch
add_guard-Defines ts L n = elim (List-cases ts.assumptions) [
  | inl e ↦ inl e
  | inr (g, gs, e) ↦
      inr (
        rw e (add_state_bit-Defines "__assm_ok" true _ L _ (λ ρ. simp gate_meaning (ground arith))))
]

pub add_pending-keeps :
    (a b : Sig) (L : TransitionSystem) (n : ℕ) (x : String) (c : Bool) (f : Valuation → Bool)
    → str_eq "__pending" x ≡ false
    → Defines L x c f
    → Defines (add_pending a b L n).0.1 x c f
unfolding add_pending
add_pending-keeps a b L n x c f other d = add_state_bit-keeps "__pending" false _ L x c f other d

pub add_pending-Defines :
    (a b : Sig) (L : TransitionSystem) (n : ℕ)
    → Defines (add_pending a b L n).0.1 "__pending" false (owes a b)
unfolding add_pending
add_pending-Defines a b L n =
    add_state_bit-Defines "__pending" false _ L (owes a b) (λ ρ. simp gate_meaning (ground arith))

pub add_saved-keeps :
    (save : Sig) (L : TransitionSystem) (n : ℕ) (x : String) (c : Bool) (f : Valuation → Bool)
    → str_eq "__saved" x ≡ false
    → Defines L x c f
    → Defines (add_saved save L n).0.1 x c f
unfolding add_saved
add_saved-keeps save L n x c f other d = add_state_bit-keeps "__saved" false _ L x c f other d

pub add_triggered-keeps :
    (saved save p : Sig) (L : TransitionSystem) (n : ℕ) (x : String) (c : Bool)
    (f : Valuation → Bool)
    → str_eq "__triggered" x ≡ false
    → Defines L x c f
    → Defines (add_triggered saved save p L n).0.1 x c f
unfolding add_triggered
add_triggered-keeps saved save p L n x c f other d =
    add_state_bit-keeps "__triggered" false _ L x c f other d

module _ (save : Sig) (reads_save : (ρ : Valuation) → eval ρ save ≡ ρ "__save") where
  pub add_saved-Defines :
      (L : TransitionSystem) (n : ℕ) → Defines (add_saved save L n).0.1 "__saved" false in_loop
  unfolding add_saved
  add_saved-Defines L n =
      add_state_bit-Defines "__saved" false _ L in_loop
        (λ ρ. simp gate_meaning (rw (reads_save ρ) (ground arith)))

  pub add_triggered-Defines :
      (saved p : Sig) (L : TransitionSystem) (n : ℕ)
      → ((ρ : Valuation) → eval ρ saved ≡ ρ "__saved")
      → ((ρ : Valuation) → eval ρ p ≡ flip (ρ "__pending"))
      → Defines (add_triggered saved save p L n).0.1 "__triggered" false good_seen
  unfolding add_triggered eval
  add_triggered-Defines saved p L n s q =
      add_state_bit-Defines "__triggered" false _ L good_seen
        (λ ρ. simp gate_meaning (rw (reads_save ρ, s ρ, q ρ) (ground arith)))

pub add_saved-reads :
    (save : Sig) (L : TransitionSystem) (n : ℕ) (ρ : Valuation)
    → eval ρ (add_saved save L n).0.0 ≡ ρ "__saved"
unfolding add_saved
add_saved-reads save L n ρ = simp gate_meaning

pub add_pending-reads :
    (a b : Sig) (L : TransitionSystem) (n : ℕ) (ρ : Valuation)
    → eval ρ (add_pending a b L n).0.0 ≡ ρ "__pending"
unfolding add_pending
add_pending-reads a b L n ρ = simp gate_meaning

pub add_triggered-reads :
    (saved save p : Sig) (L : TransitionSystem) (n : ℕ) (ρ : Valuation)
    → eval ρ (add_triggered saved save p L n).0.0 ≡ ρ "__triggered"
unfolding add_triggered
add_triggered-reads saved save p L n ρ = simp gate_meaning

pub lasso_bad-means :
    (saved trig guard : Sig) (ws : List String) (n : ℕ) (ρ : Valuation)
    → eval ρ (lasso_bad saved trig guard ws n).0
      ≡ (eval ρ saved && loop_closed ws ρ && flip (eval ρ trig) && eval ρ guard)
unfolding lasso_bad
lasso_bad-means saved trig guard ws n ρ =
    simp gate_meaning (rw (compare_shadows-loop_closed ws n ρ) (ground arith))
