-- ===== src/Interp/Tests.antt =====
-- The textbook query of interp.py, and a satisfiable query that dpll_prove calls UNSAT.
-- A: x, and x implies y. B: not y. The shared variable is y.
use emergent_hardware_verifi.Sat.Literal.{ℤ, pos, negsuc, neg}
use emergent_hardware_verifi.Interp.{
  side_b, side_a, sat, refuted, out_of_fuel, mcmillan, dpll_prove, clauses_of, Tag, Proof, Lits,
  Labels, Found,
}
use emergent_hardware_verifi.Interp.Refute.{dpll_prove-Decided, Decided}
use emergent_hardware_verifi.Interp.Interpolant.{mcmillan-Covers, Covers}
use emergent_hardware_verifi.Circuit.Sig.{var, not_sig, Sig, Build}
use emergent_hardware_verifi.Interp.Entails.{Valid, Has, AllTrue}
use emergent_hardware_verifi.Prelude.{
  ◌≡◌, ◌∷◌, ℕ, some, refl, none, arith, [], Option, List, Bool, ◌==◌,
}

abbrev textbook : List (Lits × Tag)
textbook =
    (pos 1 ∷ [], side_a) ∷ (neg (pos 1) ∷ pos 2 ∷ [], side_a) ∷ (neg (pos 2) ∷ [], side_b) ∷ []

abbrev is_shared : ℕ → Bool
is_shared v = v == 2

abbrev shared_sig : ℤ → Build Sig
shared_sig (pos v) n = (var 2 "y", n)
shared_sig (negsuc v) n = not_sig (var 2 "y") n

-- The clause that is returned with UNSAT.
abbrev root : Found → Option Lits
root sat = none
root out_of_fuel = none
root (refuted c π) = some c

abbrev proof : Found → Proof
proof sat = []
proof out_of_fuel = []
proof (refuted c π) = π

refutes_textbook : root (dpll_prove textbook) ≡ some []
unfolding dpll_prove
refutes_textbook = refl

-- With x false, y is forced; both values of z then conflict, and the clause `not y` that they give
-- does not mention x, so x true is never tried.
abbrev misruled : List (Lits × Tag)
misruled =
    (pos 1 ∷ pos 2 ∷ [], side_a)
    ∷ (neg (pos 2) ∷ pos 3 ∷ pos 4 ∷ [], side_a)
    ∷ (neg (pos 2) ∷ pos 3 ∷ neg (pos 4) ∷ [], side_a)
    ∷ (neg (pos 2) ∷ neg (pos 3) ∷ pos 4 ∷ [], side_a)
    ∷ (neg (pos 2) ∷ neg (pos 3) ∷ neg (pos 4) ∷ [], side_b)
    ∷ []

misruled_unsat : root (dpll_prove misruled) ≡ some (neg (pos 2) ∷ [])
unfolding dpll_prove
misruled_unsat = refl

misruled_has_model : AllTrue (λ v. v == 1) (clauses_of misruled)
unfolding clauses_of
misruled_has_model = (refl, (refl, (refl, (refl, (refl, tt)))))

dpll_prove-Decided_example : Decided textbook (dpll_prove textbook)
unfolding clauses_of
dpll_prove-Decided_example = dpll_prove-Decided textbook (omega arith)

textbook-Valid : Valid textbook (proof (dpll_prove textbook)) × Has (proof (dpll_prove textbook)) []
unfolding dpll_prove clauses_of
textbook-Valid = dpll_prove-Decided textbook (omega arith)

mcmillan-Covers_example :
    (s : Sig) × (st : Labels) × (mcmillan is_shared shared_sig (proof (dpll_prove textbook)) [] 4
      ≡ some (s, st))
    × Covers textbook is_shared shared_sig s []
mcmillan-Covers_example =
    mcmillan-Covers textbook (proof (dpll_prove textbook)) [] is_shared shared_sig 4
      textbook-Valid.0 textbook-Valid.1
