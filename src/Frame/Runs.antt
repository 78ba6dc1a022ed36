-- ===== src/Frame/Runs.antt =====
-- The runs of a transition system, and what it takes to encode one.
use text.Mathlib.TextEquality.{eq_iff}
use emergent_hardware_verifi.Circuit.Meaning.{eval_any, eval_all, eval, Valuation}
use emergent_hardware_verifi.Frame.{TransitionSystem}
use emergent_hardware_verifi.Circuit.Sig.{xor, var, or, not, nil, ite, const, cons, and, Sigs, Sig}
use emergent_hardware_verifi.Circuit.Numbering.{Numbered}
use emergent_hardware_verifi.Tseitin.{LitEnv}
use emergent_hardware_verifi.Frame.Constrain.{HasInits}
use emergent_hardware_verifi.Frame.Fresh.{listed, HasAll, Has}
use emergent_hardware_verifi.Prelude.{
  ◌&&◌, ◌≡◌, ◌∷◌, ◌∙◌, ℕ, ◌||◌, xor_bool, true, some, refl, inr, inl, flip, false, arith, ap₂, ap,
  [], String, List, Bool-cases,
}
use text.Mathlib.Text.{◌==◌ as str_eq}

-- A valuation is a start when every state bit has its reset value.
abbrev pub IsStart : TransitionSystem → Valuation → Type 0
IsStart ts ρ = (x : String) → listed x ts.state ≡ true → ts.init x ≡ some (ρ x)

-- Every state bit takes the value of its next-state function.
abbrev pub IsStep : TransitionSystem → Valuation → Valuation → Type 0
IsStep ts ρ σ =
    (x : String) → listed x ts.state ≡ true → (sig : Sig) → ts.next x ≡ some sig → σ x ≡ eval ρ sig

-- The valuations follow one another from the first on.
abbrev pub IsPathFrom : TransitionSystem → Valuation → List Valuation → Type 0
IsPathFrom ts ρ [] = Unit {0}
IsPathFrom ts ρ (σ ∷ σs) = IsStep ts ρ σ × IsPathFrom ts σ σs

-- The name is a state bit or an input.
abbrev pub IsName : TransitionSystem → String → Type 0
IsName ts x = (listed x ts.state || listed x ts.inputs) ≡ true

-- The signal reads names of the system alone.
abbrev mutual
  pub ReadsNames : TransitionSystem → Sig → Type 0
  ReadsNames ts (const _ _) = Unit {0}
  ReadsNames ts (var _ x) = IsName ts x
  ReadsNames ts (not _ a) = ReadsNames ts a
  ReadsNames ts (and _ xs) = ReadsNamesAll ts xs
  ReadsNames ts (or _ xs) = ReadsNamesAll ts xs
  ReadsNames ts (xor _ a b) = ReadsNames ts a × ReadsNames ts b
  ReadsNames ts (ite _ c t e) = ReadsNames ts c × ReadsNames ts t × ReadsNames ts e

  pub ReadsNamesAll : TransitionSystem → Sigs → Type 0
  ReadsNamesAll ts nil = Unit {0}
  ReadsNamesAll ts (cons s ss) = ReadsNames ts s × ReadsNamesAll ts ss

-- The names have next-state functions over the names of the system, with unambiguous ids.
abbrev pub HasNexts : TransitionSystem → (ℕ → Sig) → List String → Type 0
HasNexts ts D [] = Unit {0}
HasNexts ts D (x ∷ xs) =
    ((sig : Sig) × (ts.next x ≡ some sig) × Numbered D sig × ReadsNames ts sig) × HasNexts ts D xs

pub record CanEncode (ts : TransitionSystem) (D : ℕ → Sig) : Type 0 where
  pub has_nexts : HasNexts ts D ts.state
  pub has_inits : HasInits ts.init ts.state
  pub apart : (x : String) → listed x ts.state ≡ true → listed x ts.inputs ≡ false

pub HasAll-listed :
    (env : LitEnv) (names : List String) (x : String)
    → HasAll env names
    → listed x names ≡ true
    → Has env x
HasAll-listed env [] x h e = cc
HasAll-listed env (y ∷ ys) x h e = elim (Bool-cases (str_eq y x)) [
  | inl same ↦ rw (← (eq_iff y x).0 same) h.0
  | inr other ↦ HasAll-listed env ys x h.1 (ground (arith, e, other))
]

pub HasNexts-listed :
    (ts : TransitionSystem) (D : ℕ → Sig) (names : List String) (x : String)
    → HasNexts ts D names
    → listed x names ≡ true
    → (sig : Sig) × (ts.next x ≡ some sig) × Numbered D sig × ReadsNames ts sig
HasNexts-listed ts D [] x h e = cc
HasNexts-listed ts D (y ∷ ys) x h e = elim (Bool-cases (str_eq y x)) [
  | inl same ↦ rw (← (eq_iff y x).0 same) h.0
  | inr other ↦ HasNexts-listed ts D ys x h.1 (ground (arith, e, other))
]

-- Two valuations that agree on the names of the system.
abbrev pub SameNames : TransitionSystem → Valuation → Valuation → Type 0
SameNames ts ρ σ = (x : String) → IsName ts x → ρ x ≡ σ x

module _ (ts : TransitionSystem) (ρ σ : Valuation) (same : SameNames ts ρ σ) where
  mutual
    unfolding eval

    pub eval-SameNames : (s : Sig) → ReadsNames ts s → eval ρ s ≡ eval σ s
    eval-SameNames (const _ b) h = refl
    eval-SameNames (var _ x) h = same x h
    eval-SameNames (not _ a) h = ap flip (eval-SameNames a h)
    eval-SameNames (and _ xs) h = eval_all-SameNames xs h
    eval-SameNames (or _ xs) h = eval_any-SameNames xs h
    eval-SameNames (xor _ a b) h = ap₂ xor_bool (eval-SameNames a h.0) (eval-SameNames b h.1)
    eval-SameNames (ite _ c t e) h =
        rw (eval-SameNames c h.0, eval-SameNames t h.1, eval-SameNames e h.2) refl

    eval_all-SameNames : (ss : Sigs) → ReadsNamesAll ts ss → eval_all ρ ss ≡ eval_all σ ss
    eval_all-SameNames nil h = refl
    eval_all-SameNames (cons s ss) h = ap₂ ◌&&◌ (eval-SameNames s h.0) (eval_all-SameNames ss h.1)

    eval_any-SameNames : (ss : Sigs) → ReadsNamesAll ts ss → eval_any ρ ss ≡ eval_any σ ss
    eval_any-SameNames nil h = refl
    eval_any-SameNames (cons s ss) h = ap₂ ◌||◌ (eval-SameNames s h.0) (eval_any-SameNames ss h.1)

-- What follows a valuation depends on the names of the system alone.
pub IsPathFrom-SameNames :
    (ts : TransitionSystem) (D : ℕ → Sig) (ρ σ : Valuation) (τs : List Valuation)
    → CanEncode ts D
    → SameNames ts ρ σ
    → IsPathFrom ts ρ τs
    → IsPathFrom ts σ τs
IsPathFrom-SameNames ts D ρ σ [] c h p = tt
IsPathFrom-SameNames ts D ρ σ (τ ∷ τs) c h p = (
  λ x e sig n.
      let (sig', n', _, names) = HasNexts-listed ts D ts.state x c.has_nexts e in
      let q : sig' ≡ sig = ground (arith, n, n') in
      let names' : ReadsNames ts sig = rw (← q) names in
      p.0 x e sig n ∙ eval-SameNames ts ρ σ h sig names',
  p.1,
)
