-- ===== src/WordCheck/Tests.antt =====
-- A counter of two bits that stops at 2, and that it stays under 3.
use emergent_hardware_verifi.Sat.Propagate.{done}
use emergent_hardware_verifi.Frame.Words.{bv_var_from, bv_var, bit_name}
use emergent_hardware_verifi.Sat.Solver.{new_var, new_solver, add_clause}
use emergent_hardware_verifi.Tseitin.{
  xor_clauses, tseitin, true_lit_of, true_lit_at, or_clauses, ite_clauses, emit, and_clauses,
  add_all,
}
use emergent_hardware_verifi.Frame.{put_name}
use emergent_hardware_verifi.Circuit.Meaning.{eval}
use emergent_hardware_verifi.Prelude.{
  ℕ, some, false, Option, Bool, ◌+◌, ◌≡◌, ◌∷◌, true, refl, none, [],
}
use emergent_hardware_verifi.WordCheck.{
  width_of, op_width, maxw, max_widths, is_cmp, word_sort, k_ugt, Term, var_term, const_term,
  op_term, no_terms, more_terms, k_ult, k_add, k_ite, k_eq, Kind,
}
use emergent_hardware_verifi.WordCheck.Blaster.{
  sig_of, lit, greater, go_op, go, fresh_bv, fit, compare_words, combine, borrow_loop, bind_bits,
  bind_bit, assert_sig, arith_op, ucmp,
}
use emergent_hardware_verifi.WordCheck.Borrow.{ucmp-Compares, Compares, order_test}
use emergent_hardware_verifi.WordCheck.Unroll.{
  word_unknown, word_step, word_safe, word_cex, wbmc_from, wbmc, w_kinduction, vars_at, subst_cur,
  sig_term, rename, relate, new_blaster, induct_frames, base_case, bad_at, at_frame, assert_terms,
  assert_resets, assert_equal, alloc_name, alloc_frames, alloc, advance, WordAnswer, SearchUnder,
  WordTs, add_word,
}
use emergent_hardware_verifi.Circuit.Sig.{
  xor_sig, xnor_sig, var_sig, or_sig, not_sig, ite_sig, const_sig, and_sig, var,
}
use emergent_hardware_verifi.Circuit.Word.{
  zip_build, const_from, chosen_width, bv_ite, bv_eq, bv_const, bv_add, add_loop, Bv,
}

abbrev two : Kind → Term → Term → Term
two k a b = op_term k (more_terms a (more_terms b no_terms))

abbrev count_term : Term
count_term = var_term "cnt"

abbrev counter : WordTs
counter = record {
  name = "counter";
  widths = ("cnt", word_sort 2) ∷ [];
  inputs = [];
  state = "cnt" ∷ [];
  init = put_name (λ _. none) "cnt" (const_term 0);
  next =
      put_name (λ _. none) "cnt"
        (op_term k_ite (
          more_terms (two k_eq count_term (const_term 2)) (
            more_terms (const_term 2)
              (more_terms (two k_add count_term (const_term 1)) no_terms))));
  prop = two k_ult count_term (const_term 3);
  assumptions = [];
}

builds_counter : add_word "cnt" 2 none none (record counter { widths = []; state = [] }) ≡ counter
unfolding add_word
builds_counter = refl

abbrev x_low : Bv
x_low = var 2 "x[0]" ∷ var 3 "x[1]" ∷ []

abbrev one_bit : Bv
one_bit = var 4 "y[0]" ∷ []

ucmp-Compares_example :
    Compares (λ x. true) x_low one_bit (ucmp k_ugt x_low one_bit 5) (order_test k_ugt 3 1)
unfolding eval
ucmp-Compares_example = ucmp-Compares (λ x. true) k_ugt x_low one_bit 5

abbrev answer_of : Option WordAnswer → Option ℕ
answer_of none = none
answer_of (some a) = elim a [
  | word_cex f b ↦ some (10 + f)
  | word_safe k ↦ some (20 + k)
  | word_unknown k ↦ some (30 + k)
]

abbrev always : Bool → SearchUnder
always b ls s = done b s

-- With a search that never finds a model the step is closed; with one that always does, the base
-- case fails.
abbrev both_answers : Option ℕ × Option ℕ
both_answers = (
  answer_of (w_kinduction (always false) counter 1 2),
  answer_of (w_kinduction (always true) counter 1 2),
)

abbrev expected : Option ℕ × Option ℕ
expected = (some 21, some 10)

runs_both : both_answers ≡ expected
unfolding w_kinduction base_case word_step wbmc wbmc_from alloc alloc_name alloc_frames at_frame
    fresh_bv bv_var_from bv_var bind_bits bind_bit new_var assert_resets assert_equal assert_sig lit
    rename subst_cur go go_op arith_op combine compare_words ucmp borrow_loop greater width_of
    op_width is_cmp max_widths maxw fit bit_name vars_at relate induct_frames assert_terms bad_at
    sig_term sig_of advance new_blaster new_solver add_clause tseitin emit true_lit_of true_lit_at
    add_all and_clauses or_clauses xor_clauses ite_clauses bv_eq bv_ite bv_const bv_add add_loop
    zip_build chosen_width const_from const_sig var_sig not_sig and_sig or_sig xor_sig xnor_sig
    ite_sig
runs_both = refl
