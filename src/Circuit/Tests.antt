-- ===== src/Circuit/Tests.antt =====
-- Runs of circuit.py at small inputs, and the theorems about it at those inputs.
use emergent_hardware_verifi.Circuit.Count.{count_gates}
use emergent_hardware_verifi.Circuit.Word.Multiply.{val-bv_mul}
use emergent_hardware_verifi.Circuit.Word.Arith.{val-bv_inc_dec, val-bv_sub, val-bv_add}
use emergent_hardware_verifi.Circuit.Word.Value.{val}
use emergent_hardware_verifi.Circuit.Ternary.Run.{ternary_eval_sound}
use emergent_hardware_verifi.Circuit.Word.Compare.{eval-bv_ge_const, eval-bv_eq}
use emergent_hardware_verifi.Circuit.Meaning.{eval, Valuation}
use emergent_hardware_verifi.Circuit.Ternary.{ternary_eval, find, done, TriEnv, Tri, Memo}
use emergent_hardware_verifi.Circuit.Gates.{constructors_mean, GatesMean}
use emergent_hardware_verifi.Circuit.Ternary.Rules.{Covers, Completes}
use emergent_hardware_verifi.Circuit.Word.{
  width, chosen_width, bv_sub, bv_mul, bv_inc, bv_ge_const, bv_eq, bv_dec, bv_add, Bv,
}
use emergent_hardware_verifi.Circuit.Sig.{
  not, var, nil, id, cons, and, xor_sig, true_sig, Sig, or_sig, false_sig, and_sig,
}
use emergent_hardware_verifi.Prelude.{
  ◌==◌, ◌≡◌, ◌∷◌, ℕ, some, refl, none, leb, false, if◌then◌else◌, ◌^◌, [], ◌-◌, ◌+◌, ◌*◌, ◌%◌,
}
use text.Mathlib.Text.{◌==◌ as str_eq}

abbrev valuation : Valuation
valuation x = str_eq x "a"

abbrev sig_a : Sig
sig_a = var 2 "a"

abbrev sig_b : Sig
sig_b = var 3 "b"

-- The words 3 and 1 of two bits under `valuation`.
abbrev word_three : Bv
word_three = sig_a ∷ true_sig ∷ []

abbrev word_one : Bv
word_one = sig_a ∷ sig_b ∷ []

-- `AND(a, TRUE)` simplifies to `a`, and `AND(a, FALSE)` to FALSE.
simplifies :
    ((and_sig (sig_a ∷ true_sig ∷ []) 4).0 ≡ sig_a)
    × ((and_sig (sig_a ∷ false_sig ∷ []) 4).0 ≡ false_sig)
unfolding and_sig
simplifies = (refl, refl)

constructors_mean_example : GatesMean valuation 4
constructors_mean_example = constructors_mean valuation 4

module_runs : val valuation (bv_mul word_three word_three none 4).0 ≡ 1
unfolding bv_mul xor_sig and_sig or_sig eval
module_runs = refl

val-bv_inc_dec_example :
    (val valuation (bv_inc word_three 4).0 ≡ (val valuation word_three + 1) % 2 ^ width word_three)
    × (val valuation (bv_dec word_three 4).0
        ≡ (val valuation word_three + 2 ^ width word_three - 1) % 2 ^ width word_three)
val-bv_inc_dec_example = val-bv_inc_dec valuation word_three 4

val-bv_add_example :
    val valuation (bv_add word_three word_one none 4).0
    ≡ (val valuation word_three + val valuation word_one)
      % 2 ^ chosen_width none word_three word_one
val-bv_add_example = val-bv_add valuation word_three word_one none 4

val-bv_sub_example :
    val valuation (bv_sub word_one word_three none 4).0
    ≡ (val valuation word_one
        + (2 ^ chosen_width none word_one word_three
            - val valuation word_three % 2 ^ chosen_width none word_one word_three))
      % 2 ^ chosen_width none word_one word_three
val-bv_sub_example = val-bv_sub valuation word_one word_three none 4

val-bv_mul_example :
    val valuation (bv_mul word_three word_three (some 4) 4).0
    ≡ val valuation word_three
      * val valuation word_three
      % 2 ^ chosen_width (some 4) word_three word_three
val-bv_mul_example = val-bv_mul valuation word_three word_three (some 4) 4

eval-bv_eq_example :
    eval valuation (bv_eq word_three word_one 4).0
    ≡ (val valuation word_three == val valuation word_one)
eval-bv_eq_example = eval-bv_eq valuation word_three word_one 4

eval-bv_ge_const_example :
    eval valuation (bv_ge_const word_three 2 4).0 ≡ leb 2 (val valuation word_three)
eval-bv_ge_const_example = eval-bv_ge_const valuation word_three 2 4

-- `a AND b` with `a` known to be 0 and `b` unknown.
abbrev sig_and : Sig
sig_and = and 4 (cons sig_a (cons sig_b nil))

abbrev tri_env : TriEnv
tri_env x = if str_eq x "a" then some (some false) else some none

abbrev nodes : ℕ → Sig
nodes i = if i == 2 then sig_a else if i == 3 then sig_b else sig_and

decides_despite_unknown :
    ternary_eval 9 tri_env sig_and [] ≡ done ((4, some false) ∷ (2, some false) ∷ (3, none) ∷ [])
unfolding ternary_eval
decides_despite_unknown = refl

ternary_eval_sound_example :
    (n : ℕ) × (m' : Memo) × (v : Tri) × ((f : ℕ)
      → ternary_eval (n + f) tri_env sig_and [] ≡ done m')
    × (find (id sig_and) m' ≡ some v)
    × ((ρ : Valuation) → Completes tri_env ρ → Covers v (eval ρ sig_and))
ternary_eval_sound_example =
    ternary_eval_sound tri_env nodes sig_and [] (refl, (refl, (refl, tt)))
      ((some false, refl), ((none, refl), tt)) (λ i v h. cc)

-- A shared gate counts once, and a negation counts.
shared_once : count_gates (and 5 (cons (not 3 (var 2 "x")) (cons (not 3 (var 2 "x")) nil))) ≡ 2
unfolding count_gates
shared_once = refl
