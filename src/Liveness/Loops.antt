-- ===== src/Liveness/Loops.antt =====
-- liveness.py: runs that come back to a state, and the lists of states that they are made of.
use emergent_hardware_verifi.Liveness.{shadow}
use emergent_hardware_verifi.Frame.Fresh.{listed}
use emergent_hardware_verifi.Liveness.Monitors.{owes, loop_closed, allowed}
use emergent_hardware_verifi.Circuit.Meaning.{eval, Valuation}
use emergent_hardware_verifi.Frame.{TransitionSystem}
use emergent_hardware_verifi.Circuit.Sig.{Sig}
use emergent_hardware_verifi.Prelude.{
  ◌≡◌, ◌∷◌, ◌||◌, xor_bool, true, subst, refl, inr, inl, flip, false, if◌then◌else◌, arith, ap, [],
  String, List, Bool-cases, Bool, ◌++◌, ◌&&◌,
}
use text.Mathlib.Text.{◌==◌ as str_eq}
use text.Mathlib.TextEquality.{eq_iff}
use emergent_hardware_verifi.Frame.Runs.{IsStart, IsPathFrom}

-- Whether `b` is still owed after these states: `a` asked for it, and it has not come since.
abbrev pub owed_after : Sig → Sig → Bool → List Valuation → Bool
owed_after a b q [] = q
owed_after a b q (ρ ∷ ρs) = owed_after a b ((q || eval ρ a) && flip (eval ρ b)) ρs

-- `b` holds in none of the states.
abbrev pub never : Sig → List Valuation → Bool
never b [] = true
never b (ρ ∷ ρs) = flip (eval ρ b) && never b ρs

abbrev pub all_allowed : TransitionSystem → List Valuation → Bool
all_allowed ts [] = true
all_allowed ts (ρ ∷ ρs) = allowed ts ρ && all_allowed ts ρs

abbrev pub IsRun : TransitionSystem → List Valuation → Type 0
IsRun ts [] = Unit {0}
IsRun ts (ρ ∷ ρs) = IsStart ts ρ × IsPathFrom ts ρ ρs

-- A run of the design that comes back to a state, with `b` owed there and absent all the way round.
pub record Lasso (ts : TransitionSystem) (a b : Sig) : Type 0 where
  pub stem : List Valuation
  pub first : Valuation
  pub between : List Valuation
  pub last : Valuation
  pub runs : IsRun ts ((stem ++ first ∷ between) ++ last ∷ [])
  pub returns : (x : String) → listed x ts.state ≡ true → last x ≡ first x
  pub owed : owed_after a b false stem ≡ true
  pub starved : never b (first ∷ between) ≡ true
  pub assumed : all_allowed ts ((stem ++ first ∷ between) ++ last ∷ []) ≡ true

pub flip-true : (x : Bool) → flip x ≡ true → x ≡ false
flip-true x h = ground (arith, h)

pub listed_last : (xs : List String) (x : String) → listed x (xs ++ x ∷ []) ≡ true
listed_last [] x = ap (λ c. c || false) ((eq_iff x x).1 refl)
listed_last (y ∷ xs) x = rw (listed_last xs x) (ground arith)

pub and_left : (x y : Bool) → (x && y) ≡ true → x ≡ true
and_left x y h = ground (arith, h)

pub and_right : (x y : Bool) → (x && y) ≡ true → y ≡ true
and_right x y h = ground (arith, h)

and_true : (x : Bool) → (x && true) ≡ x
and_true x = ground arith

and_assoc : (x y z : Bool) → (x && (y && z)) ≡ ((x && y) && z)
and_assoc x y z = ground arith

xnor_same : (x y : Bool) → flip (xor_bool x y) ≡ true → x ≡ y
xnor_same x y h = ground (arith, h)

-- On the loop the good event has not been seen: not before this step, and not at it.
pub quiet_before :
    (saved save seen owes : Bool)
    → (saved || save) ≡ true
    → (if saved || save then seen || flip owes else false) ≡ false
    → seen ≡ false
quiet_before saved save seen owes h k = ground (arith, h, k)

pub owes_before :
    (saved save seen owes : Bool)
    → (saved || save) ≡ true
    → (if saved || save then seen || flip owes else false) ≡ false
    → owes ≡ true
owes_before saved save seen owes h k = ground (arith, h, k)

pub append_in :
    (stem : List Valuation) (first : Valuation) (between tail : List Valuation)
    → (stem ++ first ∷ between) ++ tail ≡ stem ++ first ∷ (between ++ tail)
append_in [] first between tail = refl
append_in (ρ ∷ stem) first between tail = ap (λ l. ρ ∷ l) (append_in stem first between tail)

pub owed_after-append :
    (a b : Sig) (ρs : List Valuation) (q : Bool) (ρ : Valuation)
    → owed_after a b q (ρs ++ ρ ∷ []) ≡ ((owed_after a b q ρs || eval ρ a) && flip (eval ρ b))
owed_after-append a b [] q ρ = refl
owed_after-append a b (σ ∷ ρs) q ρ = owed_after-append a b ρs _ ρ

pub never-append :
    (b : Sig) (ρs : List Valuation) (ρ : Valuation)
    → never b (ρs ++ ρ ∷ []) ≡ (never b ρs && flip (eval ρ b))
never-append b [] ρ = ground arith
never-append b (σ ∷ ρs) ρ = ground (arith, never-append b ρs ρ)

pub all_allowed-append :
    (ts : TransitionSystem) (ρs : List Valuation) (ρ : Valuation)
    → all_allowed ts (ρs ++ ρ ∷ []) ≡ (all_allowed ts ρs && allowed ts ρ)
all_allowed-append ts [] ρ = and_true (allowed ts ρ)
all_allowed-append ts (σ ∷ ρs) ρ =
    rw (all_allowed-append ts ρs ρ) (and_assoc (allowed ts σ) (all_allowed ts ρs) (allowed ts ρ))

pub append_one :
    (ρs : List Valuation) (ρ : Valuation) (σs : List Valuation)
    → (ρs ++ ρ ∷ []) ++ σs ≡ ρs ++ ρ ∷ σs
append_one [] ρ σs = refl
append_one (τ ∷ ρs) ρ σs = ap (λ l. τ ∷ l) (append_one ρs ρ σs)

pub loop_closed-same :
    (ws : List String) (ρ : Valuation) (w : String)
    → loop_closed ws ρ ≡ true
    → listed w ws ≡ true
    → ρ w ≡ ρ (shadow w)
loop_closed-same [] ρ w h e = cc
loop_closed-same (v ∷ ws) ρ w h e = elim (Bool-cases (str_eq v w)) [
  | inl same ↦
      subst (λ z. ρ z ≡ ρ (shadow z)) ((eq_iff v w).0 same)
        (xnor_same (ρ v) (ρ (shadow v)) (ground (arith, h)))
  | inr other ↦ loop_closed-same ws ρ w (ground (arith, h)) (ground (arith, e, other))
]
