-- ===== src/Cegar/Localize.antt =====
-- cegar.py, `localize`: the abstraction has every run of the design.
use emergent_hardware_verifi.Liveness.Lookup.{str_refl, listed-append}
use emergent_hardware_verifi.Frame.Fresh.{listed}
use emergent_hardware_verifi.Frame.{join}
use emergent_hardware_verifi.Cegar.{localize, keep_bits, freed}
use emergent_hardware_verifi.Circuit.Meaning.{all, Valuation}
use emergent_hardware_verifi.Frame.{new_system, add_state_bit, TransitionSystem}
use emergent_hardware_verifi.Circuit.Sig.{Sig}
use emergent_hardware_verifi.Bmc.Check.{BadRun}
use emergent_hardware_verifi.Prelude.{
  ◌≡◌, ◌∷◌, ◌∙◌, ℕ, true, sym, subst, some, refl, none, inr, inl, arith, ap, [], String,
  Option-cases, Option, List, Bool-cases, Bool, ◌++◌,
}
use emergent_hardware_verifi.Frame.Runs.{IsStart, IsStep, IsPathFrom}
use mathlib.Core.Option.{get_or}
use text.Mathlib.Text.{◌==◌ as str_eq}
use text.Mathlib.TextEquality.{eq_iff}

-- Each bit of the system is one of the design's, with its reset value and next-state function.
abbrev pub PartOf : TransitionSystem → TransitionSystem → Type 0
PartOf ts L =
    (x : String)
    → listed x L.state ≡ true
    → (listed x ts.state ≡ true) × (L.init x ≡ ts.init x) × (L.next x ≡ ts.next x)

add_state_bit-PartOf :
    (ts L : TransitionSystem) (k : String) (b : Bool) (sig : Sig)
    → listed k ts.state ≡ true
    → ts.init k ≡ some b
    → ts.next k ≡ some sig
    → PartOf ts L
    → PartOf ts (add_state_bit k b sig L)
unfolding add_state_bit
add_state_bit-PartOf ts L k b sig own i n part x h = elim (Bool-cases (str_eq k x)) [
  | inl same ↦
      subst
        (λ z.
          (listed z ts.state ≡ true)
          × ((add_state_bit k b sig L).init z ≡ ts.init z)
          × ((add_state_bit k b sig L).next z ≡ ts.next z))
        ((eq_iff k x).0 same) (own, rw (str_refl k) (sym i), rw (str_refl k) (sym n))
  | inr other ↦
      let old : listed x L.state ≡ true =
        ground (arith, sym (listed-append x L.state (k ∷ [])) ∙ h, other) in
      let p = part x old in (p.0, rw other p.1, rw other p.2)
]

-- The names that the loop has still to read are names of the design.
abbrev AllNames : TransitionSystem → List String → Type 0
AllNames ts names = (x : String) → listed x names ≡ true → listed x ts.state ≡ true

keep_bits-PartOf :
    (ts : TransitionSystem) (kept names : List String) (L L' : TransitionSystem)
    → AllNames ts names
    → PartOf ts L
    → keep_bits ts kept names L ≡ some L'
    → PartOf ts L'
unfolding keep_bits
keep_bits-PartOf ts kept [] L L' all part h = subst (λ l. PartOf ts l) (ap (λ o. get_or o L) h) part
keep_bits-PartOf ts kept (x ∷ xs) L L' all part h =
    let later : AllNames ts xs = λ y e. all y (rw e (ground arith)) in
    elim (Bool-cases (listed x kept)) [
      | inr e ↦ keep_bits-PartOf ts kept xs L L' later part (sym (rw (e, keep_bits) refl) ∙ h)
      | inl e ↦ elim (Option-cases (ts.init x)) [
        | inl i ↦
            let bad : ◌≡◌ {A = Option TransitionSystem} none (some L') =
              sym (rw (e, keep_bits) (rw i refl)) ∙ h in
            cc
        | inr (b, i) ↦ elim (Option-cases (ts.next x)) [
          | inl n ↦
              let bad : ◌≡◌ {A = Option TransitionSystem} none (some L') =
                sym (rw (e, keep_bits) (rw (i, n) refl)) ∙ h in
              cc
          | inr (sig, n) ↦
              let own : listed x ts.state ≡ true = all x (rw (str_refl x) refl) in
              keep_bits-PartOf ts kept xs (add_state_bit x b sig L) L' later
                (add_state_bit-PartOf ts L x b sig own i n part)
                (sym (rw (e, keep_bits) (rw (i, n) refl)) ∙ h)
        ]
      ]
    ]

module _ (ts L : TransitionSystem) (part : PartOf ts L) where
  IsStart-PartOf : (ρ : Valuation) → IsStart ts ρ → IsStart L ρ
  IsStart-PartOf ρ start x e = let p = part x e in p.1 ∙ start x p.0

  IsStep-PartOf : (ρ σ : Valuation) → IsStep ts ρ σ → IsStep L ρ σ
  IsStep-PartOf ρ σ taken x e sig n = let p = part x e in taken x p.0 sig (sym p.2 ∙ n)

  IsPathFrom-PartOf : (ρ : Valuation) (ρs : List Valuation) → IsPathFrom ts ρ ρs → IsPathFrom L ρ ρs
  IsPathFrom-PartOf ρ [] p = tt
  IsPathFrom-PartOf ρ (σ ∷ ρs) p = (IsStep-PartOf ρ σ p.0, IsPathFrom-PartOf σ ρs p.1)

  pub BadRun-PartOf : (bad : Sig) (k : ℕ) → BadRun ts bad k → BadRun L bad k
  BadRun-PartOf bad k r = record {
    start = r.start;
    later = r.later;
    steps = r.steps;
    starts = IsStart-PartOf r.start r.starts;
    path = IsPathFrom-PartOf r.start r.later r.path;
    ends_bad = r.ends_bad;
  }

pub localize-PartOf :
    (ts L : TransitionSystem) (kept : List String)
    → localize ts kept ≡ some L
    → PartOf ts L × (L.bad ≡ ts.bad)
unfolding localize new_system
localize-PartOf ts L kept h =
    let fresh = new_system (join ts.name "+loc") in
    elim (Option-cases (keep_bits ts kept ts.state fresh)) [
      | inl e ↦
          let bad : ◌≡◌ {A = Option TransitionSystem} none (some L) =
            sym (rw (e, localize) refl) ∙ h in
          cc
      | inr (L', e) ↦
          let part : PartOf ts L' =
            keep_bits-PartOf ts kept ts.state fresh L' (λ x q. q) (λ x q. cc) e in
          let L'' = record L' {
            inputs = ts.inputs ++ freed kept ts.state;
            bad = ts.bad;
            assumptions = ts.assumptions;
          } in
          let returned : some L'' ≡ some L = sym (rw (e, localize) refl) ∙ h in
          let same : L'' ≡ L = ap (λ o. get_or o L'') returned in
          subst (λ l. PartOf ts l × (l.bad ≡ ts.bad)) same (part, refl)
    ]

-- When localize returns, its system has every run of the design: a run of the design from reset is
-- one of the abstraction from reset, whichever bits are kept, and both have the same bad signal.
pub localize-Abstracts :
    (ts L : TransitionSystem) (kept : List String) (ρ : Valuation) (ρs : List Valuation)
    → localize ts kept ≡ some L
    → IsStart ts ρ
    → IsPathFrom ts ρ ρs
    → IsStart L ρ × IsPathFrom L ρ ρs × (L.bad ≡ ts.bad)
localize-Abstracts ts L kept ρ ρs h start path =
    let (part, same) = localize-PartOf ts L kept h in
    (IsStart-PartOf ts L part ρ start, IsPathFrom-PartOf ts L part ρ ρs path, same)
