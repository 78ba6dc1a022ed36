-- ===== src/Liveness/Guarded.antt =====
-- liveness.py, `apply_assumptions`: a run to the guarded `bad` respects every assumption.
use emergent_hardware_verifi.Frame.Fresh.{listed}
use emergent_hardware_verifi.Liveness.Names.{reserved, apart}
use emergent_hardware_verifi.Liveness.Monitors.{latched, allowed}
use emergent_hardware_verifi.Liveness.Loops.{and_right, and_left, all_allowed}
use emergent_hardware_verifi.Liveness.{
  guard_copy, copy_bits, apply_on, guard_bad, apply_assumptions, add_inputs,
}
use emergent_hardware_verifi.Circuit.Meaning.{gate_meaning, eval, all, Valuation}
use emergent_hardware_verifi.Frame.{new_system, TransitionSystem}
use emergent_hardware_verifi.Circuit.Sig.{Sig}
use emergent_hardware_verifi.Liveness.Augmented.{HasPlainNames}
use emergent_hardware_verifi.Liveness.Reduction.{copy_bits-returns, HasBits}
use emergent_hardware_verifi.Liveness.Lookup.{
  copy_bits-Copied, add_state_bit-keeps, add_state_bit-Defines, Defines-step, Defines-start,
  Defines, Copied,
}
use emergent_hardware_verifi.Bmc.Check.{last_of, BadRun}
use emergent_hardware_verifi.Prelude.{
  ◌≡◌, ◌∷◌, ◌∙◌, ℕ, true, sym, some, refl, map, inr, inl, arith, ap₂, ap, [], String, Option,
  List-cases, List, Bool, ◌&&◌,
}
use emergent_hardware_verifi.Frame.Runs.{IsStart, IsStep, IsPathFrom}
use mathlib.Core.Option.{get_or}

-- A run of the design of `k` steps to a bad state, with the assumptions in every state.
pub record AllowedBadRun (ts : TransitionSystem) (bad : Sig) (k : ℕ) : Type 0 where
  pub run : BadRun ts bad k
  pub allows : all_allowed ts (run.start ∷ run.later) ≡ true

-- What the guarded system has: the design's bits, the latch, and the guarded `bad`.
record Guards (ts : TransitionSystem) (bad : Sig) (G : TransitionSystem) : Type 0 where
  bits : (x : String) → listed x ts.state ≡ true → Copied ts G x
  latch : Defines G "__assm_ok" true (latched ts)
  guarded : Sig
  has_guarded : G.bad ≡ some guarded
  means : (ρ : Valuation) → eval ρ guarded ≡ (eval ρ bad && latched ts ρ)

with_guard-Defines :
    (L : TransitionSystem) (s : Sig) (lv : List (Sig × Sig)) (gs : List Sig) (x : String) (c : Bool)
    (f : Valuation → Bool)
    → Defines L x c f
    → Defines (record L { bad = some s; liveness = lv; assumptions = gs }) x c f
with_guard-Defines L s lv gs x c f d = record {
  in_state = d.in_state;
  resets = d.resets;
  sig = d.sig;
  has_next = d.has_next;
  means = d.means;
}

guard_bad-Guards :
    (ts : TransitionSystem) (bad : Sig) (L : TransitionSystem) (n : ℕ)
    → HasPlainNames ts
    → ((x : String) → listed x ts.state ≡ true → Copied ts L x)
    → Guards ts bad (guard_bad ts bad L n).0
unfolding guard_bad
guard_bad-Guards ts bad L n plain copied = record {
  bits = λ x e.
      let c = copied x e in
      record {
        reset = c.reset;
        has_init = c.has_init;
        own = c.own;
        has_own = c.has_own;
        defines =
            with_guard-Defines _ _ _ _ x c.reset (λ ρ. eval ρ c.own)
              (add_state_bit-keeps "__assm_ok" true _ L x c.reset (λ ρ. eval ρ c.own)
                (apart reserved "__assm_ok" x refl (plain x e)) c.defines);
      };
  latch = with_guard-Defines _ _ _ _ "__assm_ok" true (latched ts) (
      add_state_bit-Defines "__assm_ok" true _ L (latched ts)
        (λ ρ. simp gate_meaning (ground arith)));
  guarded = _;
  has_guarded = refl;
  means = λ ρ. simp gate_meaning (ground arith);
}

module _ (ts : TransitionSystem) (bad : Sig) (G : TransitionSystem) (g : Guards ts bad G) where
  IsStep-back : (ρ σ : Valuation) → IsStep G ρ σ → IsStep ts ρ σ
  IsStep-back ρ σ taken x e sig n =
      let c = g.bits x e in
      let same : c.own ≡ sig = ap (λ o. get_or o c.own) (sym c.has_own ∙ n) in
      Defines-step ρ σ c.defines taken ∙ ap (eval ρ) same

  IsPathFrom-back : (ρ : Valuation) (ρs : List Valuation) → IsPathFrom G ρ ρs → IsPathFrom ts ρ ρs
  IsPathFrom-back ρ [] p = tt
  IsPathFrom-back ρ (σ ∷ ρs) p = (IsStep-back ρ σ p.0, IsPathFrom-back σ ρs p.1)

  IsStart-back : (ρ : Valuation) → IsStart G ρ → IsStart ts ρ
  IsStart-back ρ start x e =
      let c = g.bits x e in c.has_init ∙ ap some (sym (Defines-start ρ c.defines start))

  -- The latch at the end of a run was set all along it.
  latched_along :
      (ρ : Valuation) (ρs : List Valuation)
      → IsPathFrom G ρ ρs
      → latched ts (last_of ρ ρs) ≡ true
      → (latched ts ρ ≡ true) × (all_allowed ts (ρ ∷ ρs) ≡ true)
  unfolding last_of
  latched_along ρ [] p h = (h, ap (λ b. b && true) (and_right (ρ "__assm_ok") (allowed ts ρ) h))
  latched_along ρ (σ ∷ ρs) p h =
      let (next_latched, rest) = latched_along σ ρs p.1 h in
      let now : latched ts ρ ≡ true =
        sym (Defines-step ρ σ g.latch p.0) ∙ and_left (σ "__assm_ok") (allowed ts σ) next_latched in
      (now, ap₂ ◌&&◌ (and_right (ρ "__assm_ok") (allowed ts ρ) now) rest)

  guarded-run : (k : ℕ) → BadRun G g.guarded k → AllowedBadRun ts bad k
  guarded-run k r =
      let end = last_of r.start r.later in
      let holds : (eval end bad && latched ts end) ≡ true = sym (g.means end) ∙ r.ends_bad in
      record {
        run = record {
          start = r.start;
          later = r.later;
          steps = r.steps;
          starts = IsStart-back r.start r.starts;
          path = IsPathFrom-back r.start r.later r.path;
          ends_bad = and_left (eval end bad) (latched ts end) holds;
        };
        allows =
            (latched_along r.start r.later r.path
              (and_right (eval end bad) (latched ts end) holds)).1;
      }

-- The call returns a system with a `bad` that only runs under the assumptions reach.
pub record AppliesAssumptions (ts : TransitionSystem) (bad : Sig)
    (result : Option (TransitionSystem × ℕ)) : Type 0 where
  pub guarded : TransitionSystem
  pub count : ℕ
  pub returns : result ≡ some (guarded, count)
  pub new_bad : Sig
  pub has_bad : guarded.bad ≡ some new_bad
  pub allowed_if_bad : (k : ℕ) → BadRun guarded new_bad k → AllowedBadRun ts bad k

none_to_respect :
    (ts : TransitionSystem) → ts.assumptions ≡ [] → (ρs : List Valuation) → all_allowed ts ρs ≡ true
none_to_respect ts e [] = refl
none_to_respect ts e (ρ ∷ ρs) =
    ap₂ ◌&&◌ (ap (λ gs. all (map (eval ρ) gs)) e) (none_to_respect ts e ρs)

-- For a system with a bad signal, with reset values and next-state functions for its state bits,
-- whose names do not start with two underscores: apply_assumptions returns a system with a bad
-- signal, and every run of that system from reset to its bad state is such a run of the given
-- system in which every assumption holds in every state.
pub apply_assumptions-Applies :
    (ts : TransitionSystem) (bad : Sig) (n : ℕ)
    → ts.bad ≡ some bad
    → HasBits ts ts.state
    → HasPlainNames ts
    → AppliesAssumptions ts bad (apply_assumptions ts n)
unfolding apply_assumptions apply_on guard_copy
apply_assumptions-Applies ts bad n has_bad bits plain = elim (List-cases ts.assumptions) [
  | inl e ↦ record {
    guarded = ts;
    count = n;
    returns = ap (λ l. apply_on ts l n) e;
    new_bad = bad;
    has_bad = has_bad;
    allowed_if_bad = λ k r. record { run = r; allows = none_to_respect ts e (r.start ∷ r.later) };
  }
  | inr (g, gs, e) ↦
      let (L, n1) = add_inputs ts.inputs (new_system ts.name) n in
      let (L', copied) = copy_bits-returns ts ts.state L bits in
      let r = guard_bad ts bad L' n1 in
      let m : Guards ts bad r.0 =
        guard_bad-Guards ts bad L' n1 plain (λ x q. copy_bits-Copied ts ts.state L L' x copied q) in
      record {
        guarded = r.0;
        count = r.1;
        returns =
            ap (λ l. apply_on ts l n) e
            ∙ ap (λ o. guard_copy ts o (copy_bits ts ts.state L) n1) has_bad
            ∙ ap (λ o. guard_copy ts (some bad) o n1) copied;
        new_bad = m.guarded;
        has_bad = m.has_guarded;
        allowed_if_bad = guarded-run ts bad r.0 m;
      }
]
