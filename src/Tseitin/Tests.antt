-- ===== src/Tseitin/Tests.antt =====
-- A run of the encoding at a small signal, and its theorem at that signal.
use emergent_hardware_verifi.Tseitin.NewVar.{with_var-IsSound}
use emergent_hardware_verifi.Tseitin.Correct.{tseitin-Encoded}
use emergent_hardware_verifi.Sat.Literal.{ℤ, pos}
use emergent_hardware_verifi.Sat.Solver.{with_var, new_solver, Solver}
use emergent_hardware_verifi.Circuit.Sig.{xor, var, Sig}
use emergent_hardware_verifi.Sat.Solver.Meaning.{Known}
use emergent_hardware_verifi.Tseitin.State.{new_solver-IsSound, IsSound}
use emergent_hardware_verifi.Tseitin.Gate.{IsGood, Encoded}
use emergent_hardware_verifi.Tseitin.{xor_clauses, emit, tseitin, LitEnv, Enc}
use emergent_hardware_verifi.Prelude.{
  ◌==◌, ◌≡◌, ℕ, some, refl, none, inr, inl, if◌then◌else◌, arith, [], String, Option, Bool-cases,
}
use text.Mathlib.Text.{◌==◌ as str_eq}

abbrev two_vars : Solver
two_vars = with_var (with_var new_solver)

two_vars-IsSound : IsSound two_vars
two_vars-IsSound =
    with_var-IsSound (with_var new_solver) (with_var-IsSound new_solver new_solver-IsSound)

abbrev start : Enc
start = record { solver = two_vars; memo = [] }

abbrev lits : LitEnv
lits x = if str_eq x "a" then some (pos 1) else none

abbrev sig_a : Sig
sig_a = var 2 "a"

-- `a XOR a`
abbrev sig_xor : Sig
sig_xor = xor 3 sig_a sig_a

abbrev nodes : ℕ → Sig
nodes i = if i == 2 then sig_a else sig_xor

-- The literal that an encoding returned.
abbrev answer : Option (ℤ × Enc) → Option ℤ
answer none = none
answer (some (l, e)) = some l

encodes_xor : answer (tseitin lits sig_xor start) ≡ some (pos 3)
unfolding tseitin new_solver emit xor_clauses
encodes_xor = refl

lits_known : (x : String) (l : ℤ) → lits x ≡ some l → Known two_vars.n_vars l
unfolding new_solver
lits_known x l h = elim (Bool-cases (str_eq x "a")) [
  | inl e ↦ let one : pos 1 ≡ l = ground (arith, h, e) in rw (← one) (omega arith, omega arith)
  | inr e ↦ let none_l : none ≡ some l = ground (arith, h, e) in cc
]

start-IsGood : IsGood lits nodes start
start-IsGood = record {
  sound = two_vars-IsSound;
  env_known = λ x l h. lits_known x l h;
  memo_ok = λ i l h. cc;
}

tseitin-Encoded_example : Encoded lits nodes start sig_xor (tseitin lits sig_xor start)
tseitin-Encoded_example =
    tseitin-Encoded lits nodes sig_xor start (refl, refl, refl) ((pos 1, refl), (pos 1, refl))
      start-IsGood
