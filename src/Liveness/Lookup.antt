-- ===== src/Liveness/Lookup.antt =====
-- liveness.py: what the augmented system defines for each of its state bits, one loop at a time.
use emergent_hardware_verifi.MulSampler.{step}
use emergent_hardware_verifi.Frame.Fresh.{listed}
use emergent_hardware_verifi.Liveness.{copy_bits}
use emergent_hardware_verifi.Circuit.Meaning.{eval, Valuation}
use emergent_hardware_verifi.Frame.{add_state_bit, TransitionSystem}
use emergent_hardware_verifi.Circuit.Sig.{Sig}
use emergent_hardware_verifi.Prelude.{
  ◌≡◌, ◌∷◌, ◌∙◌, ◌||◌, true, sym, subst, some, refl, none, inr, inl, false, arith, ap, [], String,
  Option-cases, Option, List, Bool-cases, Bool, ◌++◌,
}
use mathlib.Core.Option.{get_or}
use text.Mathlib.Text.{◌==◌ as str_eq}
use text.Mathlib.TextEquality.{eq_iff}
use emergent_hardware_verifi.Frame.Runs.{IsStart, IsStep}

-- The system has the state bit, with the reset value and the next-state function.
pub record Defines (L : TransitionSystem) (x : String) (b : Bool) (f : Valuation → Bool)
    : Type 0 where
  pub in_state : listed x L.state ≡ true
  pub resets : L.init x ≡ some b
  pub sig : Sig
  pub has_next : L.next x ≡ some sig
  pub means : (ρ : Valuation) → eval ρ sig ≡ f ρ

pub Defines-step :
    {L : TransitionSystem} {x : String} {b : Bool} {f : Valuation → Bool} (ρ σ : Valuation)
    → Defines L x b f
    → IsStep L ρ σ
    → σ x ≡ f ρ
Defines-step {x = x} ρ σ d step = step x d.in_state d.sig d.has_next ∙ d.means ρ

pub Defines-start :
    {L : TransitionSystem} {x : String} {b : Bool} {f : Valuation → Bool} (ρ : Valuation)
    → Defines L x b f
    → IsStart L ρ
    → ρ x ≡ b
Defines-start {x = x} {b = b} ρ d start =
    let both : some b ≡ some (ρ x) = sym d.resets ∙ start x d.in_state in
    sym (ap (λ o. get_or o b) both)

pub listed-append :
    (x : String) (xs ys : List String) → listed x (xs ++ ys) ≡ (listed x xs || listed x ys)
listed-append x [] ys = refl
listed-append x (y ∷ xs) ys = ground (arith, listed-append x xs ys)

pub str_refl : (x : String) → str_eq x x ≡ true
str_refl x = (eq_iff x x).1 refl

-- A bit that is added, and those that were there.
pub add_state_bit-Defines :
    (k : String) (b : Bool) (sig : Sig) (L : TransitionSystem) (f : Valuation → Bool)
    → ((ρ : Valuation) → eval ρ sig ≡ f ρ)
    → Defines (add_state_bit k b sig L) k b f
unfolding add_state_bit
add_state_bit-Defines k b sig L f means = record {
  in_state = rw (listed-append k L.state (k ∷ [])) (rw (str_refl k) (ground arith));
  resets = rw (str_refl k) refl;
  sig = sig;
  has_next = rw (str_refl k) refl;
  means = means;
}

pub add_state_bit-keeps :
    (k : String) (c : Bool) (sig : Sig) (L : TransitionSystem) (x : String) (b : Bool)
    (f : Valuation → Bool)
    → str_eq k x ≡ false
    → Defines L x b f
    → Defines (add_state_bit k c sig L) x b f
unfolding add_state_bit
add_state_bit-keeps k c sig L x b f other d = record {
  in_state = rw (listed-append x L.state (k ∷ []), d.in_state) refl;
  resets = rw other d.resets;
  sig = d.sig;
  has_next = rw other d.has_next;
  means = d.means;
}

-- The bits of the design.
pub record Copied (ts L : TransitionSystem) (x : String) : Type 0 where
  pub reset : Bool
  pub has_init : ts.init x ≡ some reset
  pub own : Sig
  pub has_own : ts.next x ≡ some own
  pub defines : Defines L x reset (λ ρ. eval ρ own)

-- One more round of the copying.
copied_here :
    (ts L : TransitionSystem) (y : String) (b : Bool) (sig : Sig)
    → ts.init y ≡ some b
    → ts.next y ≡ some sig
    → Copied ts (add_state_bit y b sig L) y
copied_here ts L y b sig e k = record {
  reset = b;
  has_init = e;
  own = sig;
  has_own = k;
  defines = add_state_bit-Defines y b sig L (λ ρ. eval ρ sig) (λ ρ. refl);
}

copied_again :
    (ts L : TransitionSystem) (x y : String) (b : Bool) (sig : Sig)
    → ts.init y ≡ some b
    → ts.next y ≡ some sig
    → Copied ts L x
    → Copied ts (add_state_bit y b sig L) x
copied_again ts L x y b sig e k c = elim (Bool-cases (str_eq y x)) [
  | inl same ↦
      subst (λ z. Copied ts (add_state_bit y b sig L) z) ((eq_iff y x).0 same)
        (copied_here ts L y b sig e k)
  | inr other ↦ record {
    reset = c.reset;
    has_init = c.has_init;
    own = c.own;
    has_own = c.has_own;
    defines = add_state_bit-keeps y b sig L x c.reset (λ ρ. eval ρ c.own) other c.defines;
  }
]

-- A round that did not raise has the bit's reset value and next-state function.
copy_round :
    (ts : TransitionSystem) (y : String) (ys : List String) (L L' : TransitionSystem)
    → copy_bits ts (y ∷ ys) L ≡ some L'
    → (b : Bool) × (sig : Sig) × (ts.init y ≡ some b)
      × (ts.next y ≡ some sig)
      × (copy_bits ts ys (add_state_bit y b sig L) ≡ some L')
unfolding copy_bits
copy_round ts y ys L L' h = elim (Option-cases (ts.init y)) [
  | inl e ↦
      let bad : ◌≡◌ {A = Option TransitionSystem} none (some L') =
        sym (rw (e, copy_bits) refl) ∙ h in
      cc
  | inr (b, e) ↦ elim (Option-cases (ts.next y)) [
    | inl k ↦
        let bad : ◌≡◌ {A = Option TransitionSystem} none (some L') =
          sym (rw (e, copy_bits) (rw k refl)) ∙ h in
        cc
    | inr (sig, k) ↦ (b, sig, e, k, sym (rw (e, copy_bits) (rw k refl)) ∙ h)
  ]
]

-- A bit that is copied once keeps its definition when it is copied again.
copy_bits-keeps :
    (ts : TransitionSystem) (names : List String) (L L' : TransitionSystem) (x : String)
    → copy_bits ts names L ≡ some L'
    → Copied ts L x
    → Copied ts L' x
unfolding copy_bits
copy_bits-keeps ts [] L L' x h c =
    let same : L ≡ L' = ap (λ o. get_or o L) h in subst (λ l. Copied ts l x) same c
copy_bits-keeps ts (y ∷ ys) L L' x h c =
    let (b, sig, e, k, rest) = copy_round ts y ys L L' h in
    copy_bits-keeps ts ys (add_state_bit y b sig L) L' x rest (copied_again ts L x y b sig e k c)

pub copy_bits-Copied :
    (ts : TransitionSystem) (names : List String) (L L' : TransitionSystem) (x : String)
    → copy_bits ts names L ≡ some L'
    → listed x names ≡ true
    → Copied ts L' x
copy_bits-Copied ts [] L L' x h e = cc
copy_bits-Copied ts (y ∷ ys) L L' x h e =
    let (b, sig, i, k, rest) = copy_round ts y ys L L' h in
    elim (Bool-cases (str_eq y x)) [
      | inl same ↦
          let here : Copied ts (add_state_bit y b sig L) x =
            subst (λ z. Copied ts (add_state_bit y b sig L) z) ((eq_iff y x).0 same)
              (copied_here ts L y b sig i k) in
          copy_bits-keeps ts ys (add_state_bit y b sig L) L' x rest here
      | inr other ↦
          copy_bits-Copied ts ys (add_state_bit y b sig L) L' x rest (ground (arith, e, other))
    ]
