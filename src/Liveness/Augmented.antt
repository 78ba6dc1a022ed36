-- ===== src/Liveness/Augmented.antt =====
-- liveness.py, `liveness_to_safety`: the augmented system has every monitor, and `bad` means a loop.
use emergent_hardware_verifi.Frame.Fresh.{listed}
use emergent_hardware_verifi.Liveness.Names.{
  reserved-shadow, reserved, has_fourth_h-shadow, has_fourth_h, apart,
}
use emergent_hardware_verifi.Liveness.Monitors.{
  shadow_val, owes, loop_closed, latched, lasso_bad-means, in_loop, guard_val, good_seen,
  add_triggered-reads, add_triggered-keeps, add_triggered-Defines, add_shadows-keeps,
  add_shadows-Defines, add_saved-reads, add_saved-keeps, add_saved-Defines, add_pending-reads,
  add_pending-keeps, add_pending-Defines, add_guard-means, add_guard-keeps, add_guard-Defines,
}
use emergent_hardware_verifi.Liveness.{
  watched, shadow, lasso_bad, add_triggered, add_shadows, add_saved, add_pending, add_monitors,
  add_guard,
}
use emergent_hardware_verifi.Circuit.Meaning.{eval-not_sig, eval, Valuation}
use emergent_hardware_verifi.Frame.{TransitionSystem}
use emergent_hardware_verifi.Circuit.Sig.{not_sig, Sig}
use emergent_hardware_verifi.Liveness.Lookup.{Defines, Copied}
use emergent_hardware_verifi.Prelude.{
  inr, inl, ◌⊎◌, ◌≡◌, ◌∙◌, ℕ, true, some, refl, flip, false, ap, [], String, Bool, ◌&&◌,
}
use text.Mathlib.Text.{◌==◌ as str_eq}

-- What the augmented system defines, and when its `bad` holds.
pub record Monitored (ts : TransitionSystem) (a b : Sig) (L : TransitionSystem) : Type 0 where
  pub bits : (x : String) → listed x ts.state ≡ true → Copied ts L x
  pub pending : Defines L "__pending" false (owes a b)
  pub saved : Defines L "__saved" false in_loop
  pub shadows :
      (w : String) → listed w (watched ts) ≡ true → Defines L (shadow w) false (shadow_val w)
  pub triggered : Defines L "__triggered" false good_seen
  pub latch : (ts.assumptions ≡ []) ⊎ Defines L "__assm_ok" true (latched ts)
  pub bad : Sig
  pub has_bad : L.bad ≡ some bad
  pub bad_means :
      (ρ : Valuation)
      → eval ρ bad ≡ (
          ρ "__saved"
          && loop_closed (watched ts) ρ
          && flip (ρ "__triggered")
          && guard_val ts.assumptions ρ)

-- The names of the design's state bits do not start with two underscores.
abbrev pub HasPlainNames : TransitionSystem → Type 0
HasPlainNames ts = (x : String) → listed x ts.state ≡ true → reserved x ≡ false

tells : (k w : String) → has_fourth_h k ≡ false → str_eq k (shadow w) ≡ false
tells k w h =
    apart (λ x. flip (has_fourth_h x)) k (shadow w) (ap flip h) (ap flip (has_fourth_h-shadow w))

-- Setting `bad` changes no bit.
with_bad-Defines :
    (L : TransitionSystem) (s : Sig) (x : String) (c : Bool) (f : Valuation → Bool)
    → Defines L x c f
    → Defines (record L { bad = some s }) x c f
with_bad-Defines L s x c f d = record {
  in_state = d.in_state;
  resets = d.resets;
  sig = d.sig;
  has_next = d.has_next;
  means = d.means;
}

with_bad-Copied :
    (ts L : TransitionSystem) (s : Sig) (x : String)
    → Copied ts L x
    → Copied ts (record L { bad = some s }) x
with_bad-Copied ts L s x c = record {
  reset = c.reset;
  has_init = c.has_init;
  own = c.own;
  has_own = c.has_own;
  defines = with_bad-Defines L s x c.reset (λ ρ. eval ρ c.own) c.defines;
}

-- The bit keeps its definition while the monitors are added.
module _ (ts : TransitionSystem) (a b save : Sig) (L : TransitionSystem) (n : ℕ) where
  -- The stages of `add_monitors`.
  abbrev r1 : (Sig × TransitionSystem) × ℕ
  r1 = add_pending a b L n

  abbrev r2 : Sig × ℕ
  r2 = not_sig r1.0.0 r1.1

  abbrev r3 : (Sig × TransitionSystem) × ℕ
  r3 = add_saved save r1.0.1 r2.1

  abbrev r4 : TransitionSystem × ℕ
  r4 = add_shadows r3.0.0 (watched ts) r3.0.1 r3.1

  abbrev r5 : (Sig × TransitionSystem) × ℕ
  r5 = add_triggered r3.0.0 save r2.0 r4.0 r4.1

  abbrev r6 : (Sig × TransitionSystem) × ℕ
  r6 = add_guard ts.assumptions r5.0.1 r5.1

  after_shadows :
      (x : String) (c : Bool) (f : Valuation → Bool)
      → str_eq "__triggered" x ≡ false
      → str_eq "__assm_ok" x ≡ false
      → Defines r4.0 x c f
      → Defines r6.0.1 x c f
  after_shadows x c f t g d =
      add_guard-keeps ts.assumptions r5.0.1 r5.1 x c f g
        (add_triggered-keeps r3.0.0 save r2.0 r4.0 r4.1 x c f t d)

  after_saved :
      (x : String) (c : Bool) (f : Valuation → Bool)
      → has_fourth_h x ≡ false
      → str_eq "__triggered" x ≡ false
      → str_eq "__assm_ok" x ≡ false
      → Defines r3.0.1 x c f
      → Defines r6.0.1 x c f
  after_saved x c f h t g d = after_shadows x c f t g (
      add_shadows-keeps r3.0.0 (watched ts) r3.0.1 r3.1 x c f
        (λ w. apart has_fourth_h (shadow w) x (has_fourth_h-shadow w) h) d)

  -- A bit of the design.
  plain_bit : (x : String) → reserved x ≡ false → Copied ts L x → Copied ts r6.0.1 x
  plain_bit x p c =
      let f : Valuation → Bool = λ ρ. eval ρ c.own in
      let other : (k : String) → reserved k ≡ true → str_eq k x ≡ false =
        λ k h. apart reserved k x h p in
      record {
        reset = c.reset;
        has_init = c.has_init;
        own = c.own;
        has_own = c.has_own;
        defines = after_shadows x c.reset f (other "__triggered" refl) (other "__assm_ok" refl) (
            add_shadows-keeps r3.0.0 (watched ts) r3.0.1 r3.1 x c.reset f
              (λ w. other (shadow w) (reserved-shadow w))
              (add_saved-keeps save r1.0.1 r2.1 x c.reset f (other "__saved" refl)
                (add_pending-keeps a b L n x c.reset f (other "__pending" refl) c.defines)));
      }

  abbrev lasso : Sig
  lasso = (lasso_bad r3.0.0 r5.0.0 r6.0.0 (watched ts) r6.1).0

  -- The same for the system with `bad`.
  set_bad :
      (x : String) (c : Bool) (f : Valuation → Bool)
      → Defines r6.0.1 x c f
      → Defines (add_monitors ts a b save L n).0 x c f
  unfolding add_monitors
  set_bad x c f d = with_bad-Defines r6.0.1 lasso x c f d

  set_bad-Copied : (x : String) → Copied ts r6.0.1 x → Copied ts (add_monitors ts a b save L n).0 x
  unfolding add_monitors
  set_bad-Copied x c = with_bad-Copied ts r6.0.1 lasso x c

  set_latch :
      (ts.assumptions ≡ []) ⊎ Defines r6.0.1 "__assm_ok" true (latched ts)
      → (ts.assumptions ≡ [])
        ⊎ Defines (add_monitors ts a b save L n).0 "__assm_ok" true (latched ts)
  set_latch (inl e) = inl e
  set_latch (inr d) = inr (set_bad "__assm_ok" true (latched ts) d)

  pub add_monitors-Monitored :
      HasPlainNames ts
      → ((ρ : Valuation) → eval ρ save ≡ ρ "__save")
      → ((x : String) → listed x ts.state ≡ true → Copied ts L x)
      → Monitored ts a b (add_monitors ts a b save L n).0
  unfolding add_monitors
  add_monitors-Monitored plain reads_save copied =
      let reads_saved : (ρ : Valuation) → eval ρ r3.0.0 ≡ ρ "__saved" =
        add_saved-reads save r1.0.1 r2.1 in
      let reads_p : (ρ : Valuation) → eval ρ r2.0 ≡ flip (ρ "__pending") =
        λ ρ. eval-not_sig ρ r1.0.0 r1.1 ∙ ap flip (add_pending-reads a b L n ρ) in
      record {
        bits = λ x e. set_bad-Copied x (plain_bit x (plain x e) (copied x e));
        pending = set_bad "__pending" false (owes a b) (
            after_saved "__pending" false (owes a b) refl refl refl (
              add_saved-keeps save r1.0.1 r2.1 "__pending" false (owes a b) refl
                (add_pending-Defines a b L n)));
        saved = set_bad "__saved" false in_loop (
            after_saved "__saved" false in_loop refl refl refl
              (add_saved-Defines save reads_save r1.0.1 r2.1));
        shadows = λ w e. set_bad (shadow w) false (shadow_val w) (
            after_shadows (shadow w) false (shadow_val w) (tells "__triggered" w refl)
              (tells "__assm_ok" w refl)
              (add_shadows-Defines r3.0.0 reads_saved (watched ts) r3.0.1 r3.1 w e));
        triggered = set_bad "__triggered" false good_seen (
            add_guard-keeps ts.assumptions r5.0.1 r5.1 "__triggered" false good_seen refl
              (add_triggered-Defines save reads_save r3.0.0 r2.0 r4.0 r4.1 reads_saved reads_p));
        latch = set_latch (add_guard-Defines ts r5.0.1 r5.1);
        bad = lasso;
        has_bad = refl;
        bad_means = λ ρ.
            lasso_bad-means r3.0.0 r5.0.0 r6.0.0 (watched ts) r6.1 ρ
            ∙ rw
                (
                  reads_saved ρ,
                  add_triggered-reads r3.0.0 save r2.0 r4.0 r4.1 ρ,
                  add_guard-means ts.assumptions r5.0.1 r5.1 ρ,
                )
                refl;
      }
