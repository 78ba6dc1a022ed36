-- ===== src/Frame/Tests.antt =====
-- Words by name at a small input.
use emergent_hardware_verifi.Circuit.Word.Value.{val}
use emergent_hardware_verifi.Tseitin.Gate.{reads}
use emergent_hardware_verifi.Frame.{put_name}
use emergent_hardware_verifi.Sat.Literal.{pos}
use emergent_hardware_verifi.Sat.Solve.{or_false}
use emergent_hardware_verifi.Sat.Solver.{with_var, with_assigned, new_solver, Solver}
use emergent_hardware_verifi.Tseitin.{LitEnv}
use emergent_hardware_verifi.Frame.Words.{
  read_bv-val, read_bv, bv_var, bit_name, IsModelOf, HasWord,
}
use emergent_hardware_verifi.Prelude.{
  false, Option, ◌≡◌, ◌∷◌, ◌∙◌, ℕ, zero, true, sym, suc, some, refl, none, map, inr, inl, arith, ap,
  [], Bool-cases, Bool, ◌==◌,
}
use mathlib.Core.Option.{get_or}

names_of_bits : map (bit_name "count") (0 ∷ 12 ∷ []) ≡ "count[0]" ∷ "count[12]" ∷ []
unfolding bit_name
names_of_bits = refl

-- A solver with two variables, of which the second is true, and the word that they make.
abbrev solved : Solver
unfolding new_solver
solved = with_assigned (pos 2) none (with_var (with_var new_solver))

abbrev word_env : LitEnv
unfolding bit_name
word_env = put_name (put_name (λ _. none) "x[0]" (pos 1)) "x[1]" (pos 2)

reads_two : read_bv solved word_env "x" 2 ≡ some 2
unfolding read_bv solved new_solver word_env bit_name
reads_two = refl

abbrev second_true : ℕ → Bool
second_true v = v == 2

two_is : (v : ℕ) → (2 == v) ≡ true → (v == 2) ≡ true
two_is v e = ground (arith, e)

two_is_not : (v : ℕ) → (2 == v) ≡ false → (v == 2) ≡ false
two_is_not v e = ground (arith, e)

solved-IsModelOf : IsModelOf solved second_true
unfolding solved new_solver
solved-IsModelOf v a h = elim (Bool-cases (2 == v)) [
  | inl e ↦
      let found : some (some true) ≡ some a = sym (rw e refl) ∙ h in
      let same : some true ≡ a = ap (λ o. get_or o (some true)) found in
      ap or_false (sym same) ∙ sym (two_is v e)
  | inr e ↦ elim (Bool-cases (1 == v)) [
    | inl k ↦
        let found : some none ≡ some a = sym (rw (e, k) refl) ∙ h in
        let same : none ≡ a = ap (λ o. get_or o none) found in
        ap or_false (sym same) ∙ sym (two_is_not v e)
    | inr k ↦
        let found : ◌≡◌ {A = Option (Option Bool)} none (some a) = sym (rw (e, k) refl) ∙ h in cc
  ]
]

solved-HasWord : HasWord solved word_env "x" 2
unfolding solved new_solver word_env bit_name
solved-HasWord zero lt = (1, none, refl, refl)
solved-HasWord (suc zero) lt = (2, some true, refl, refl)
solved-HasWord (suc (suc i)) lt = absurd (omega (arith, lt))

read_bv-val_example :
    read_bv solved word_env "x" 2 ≡ some (val (reads word_env second_true) (bv_var "x" 2 4).0)
read_bv-val_example =
    read_bv-val solved word_env second_true "x" 2 4 solved-IsModelOf solved-HasWord
