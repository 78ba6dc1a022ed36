-- ===== src/Cegar/Checked.antt =====
-- cegar.py, `cegar`: its check of an abstraction, ic3.py's `solve`, and what the loop reads of the answer.
use emergent_hardware_verifi.Frame.{TransitionSystem}
use emergent_hardware_verifi.Prelude.{ℕ, some, none, Option}
use emergent_hardware_verifi.Sat.Analyze.{FloatTest}
use emergent_hardware_verifi.Ic3.Search.{
  solve_frames, is_safe, fails_at_start, fails, gave_up, Conclusion,
}
use emergent_hardware_verifi.Ic3.Obligations.{Tools}
use emergent_hardware_verifi.Cegar.Refine.{cegar, safe, undecided, unsafe, Check, Engine, Verdict}

-- `r["result"]`, with `r.get("frames", r.get("depth", 0))` for UNSAFE.
abbrev pub check_of : Conclusion → Check
check_of (is_safe k inv) = safe
check_of fails_at_start = unsafe 0
check_of (fails k) = unsafe k
check_of (gave_up k) = undecided

-- `IC3(abs_ts).solve(max_frames)`
unfoldable pub ic3_check : ℕ → Tools → ℕ → Engine
unfolding solve_frames
ic3_check f tools max_frames abs = elim (solve_frames f tools abs max_frames) [
  | none ↦ none
  | some r ↦ some (check_of r)
]

-- `cegar(ts, max_frames, max_rounds)` with that check; `f` is the fuel of the loops.
unfoldable pub cegar_ic3 : ℕ → FloatTest → Tools → ℕ → ℕ → TransitionSystem → Option Verdict
unfolding cegar ic3_check
cegar_ic3 f gt tools max_frames max_rounds ts =
    cegar (ic3_check f tools max_frames) f gt max_rounds ts
