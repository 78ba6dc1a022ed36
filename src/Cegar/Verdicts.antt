-- ===== src/Cegar/Verdicts.antt =====
-- cegar.py, `cegar`: what the verdict SAFE says of the design.
use emergent_hardware_verifi.Cegar.{localize}
use emergent_hardware_verifi.Frame.{TransitionSystem}
use emergent_hardware_verifi.Circuit.Sig.{Sig}
use emergent_hardware_verifi.Cegar.Refine.{
  unknown, safe, refutes, proved, keeps, ends, Verdict, Round, Engine, Check,
}
use emergent_hardware_verifi.Bmc.Check.{BadRun}
use emergent_hardware_verifi.Prelude.{◌≡◌, ℕ, some, none, String, Option, List}

-- The abstraction that the check answered SAFE on: it has every bad run of the design.
pub record Abstracted (engine : Engine) (ts : TransitionSystem) (bad : Sig) (kept : List String)
    : Type 0 where
  pub abs : TransitionSystem
  pub localized : localize ts kept ≡ some abs
  pub checked : engine abs ≡ some safe
  pub same_bad : abs.bad ≡ some bad
  pub has_bad_runs : (k : ℕ) → BadRun ts bad k → BadRun abs bad k

-- A verdict SAFE rests on such an abstraction.
abbrev Justified : Engine → TransitionSystem → Sig → Verdict → Type 0
Justified engine ts bad (proved rnd kept) = Abstracted engine ts bad kept
Justified engine ts bad (unknown rnd kept) = Unit {0}
Justified engine ts bad (refutes rnd kept t rows) = Unit {0}

abbrev JustifiedAll : Engine → TransitionSystem → Sig → Option Verdict → Type 0
JustifiedAll engine ts bad none = Unit {0}
JustifiedAll engine ts bad (some v) = Justified engine ts bad v

abbrev JustifiedRound : Engine → TransitionSystem → Sig → Option Round → Type 0
JustifiedRound engine ts bad none = Unit {0}
JustifiedRound engine ts bad (some (ends v)) = Justified engine ts bad v
JustifiedRound engine ts bad (some (keeps kept)) = Unit {0}
