-- ===== src/Circuit/Meaning.antt =====
-- The Boolean meaning of a signal, and what each constructor of circuit.py means by it.
use emergent_hardware_verifi.Prelude.{
  ℕ, String, ◌≡◌, refl, Bool, true, false, ◌&&◌, ◌||◌, Option, none, some, List, [], ◌∷◌, map,
  arith, ap, ◌∙◌, inl, inr, flip, xor_bool, if◌then◌else◌, Option-cases,
}
use emergent_hardware_verifi.Circuit.Sig.{
  Sig, Sigs, const, var, not, and, or, xor, ite, nil, cons, of_list, const_sig, true_sig, false_sig,
  var_sig, not_sig, live_args, finish, and_sig, or_sig, xor_sig, xnor_sig, implies_sig, iff_sig,
  ite_sig,
}

-- A valuation of the VAR names.
abbrev pub Valuation : Type 0
Valuation = String → Bool

unfoldable mutual
  pub eval : Valuation → Sig → Bool
  eval ρ (const _ b) = b
  eval ρ (var _ x) = ρ x
  eval ρ (not _ a) = flip (eval ρ a)
  eval ρ (and _ xs) = eval_all ρ xs
  eval ρ (or _ xs) = eval_any ρ xs
  eval ρ (xor _ a b) = xor_bool (eval ρ a) (eval ρ b)
  eval ρ (ite _ c t e) = if eval ρ c then eval ρ t else eval ρ e

  pub eval_all : Valuation → Sigs → Bool
  eval_all ρ nil = true
  eval_all ρ (cons s ss) = eval ρ s && eval_all ρ ss

  pub eval_any : Valuation → Sigs → Bool
  eval_any ρ nil = false
  eval_any ρ (cons s ss) = eval ρ s || eval_any ρ ss

abbrev pub all : List Bool → Bool
all [] = true
all (b ∷ bs) = b && all bs

abbrev pub any : List Bool → Bool
any [] = false
any (b ∷ bs) = b || any bs

module _ (ρ : Valuation) where
  pub eval-const_sig : (b : Bool) (n : ℕ) → eval ρ (const_sig b n).0 ≡ b
  unfolding eval const_sig
  eval-const_sig b n = refl

  pub eval-var_sig : (x : String) (n : ℕ) → eval ρ (var_sig x n).0 ≡ ρ x
  unfolding eval var_sig
  eval-var_sig x n = refl

  pub eval-not_sig : (a : Sig) (n : ℕ) → eval ρ (not_sig a n).0 ≡ flip (eval ρ a)
  unfolding eval not_sig
  eval-not_sig (not i a) n = ground arith
  eval-not_sig _ n = refl

  eval_all-of_list : (xs : List Sig) → eval_all ρ (of_list xs) ≡ all (map (eval ρ) xs)
  unfolding eval
  eval_all-of_list [] = refl
  eval_all-of_list (x ∷ xs) = ap (λ b. eval ρ x && b) (eval_all-of_list xs)

  eval_any-of_list : (xs : List Sig) → eval_any ρ (of_list xs) ≡ any (map (eval ρ) xs)
  unfolding eval
  eval_any-of_list [] = refl
  eval_any-of_list (x ∷ xs) = ap (λ b. eval ρ x || b) (eval_any-of_list xs)

  -- The conjunction of what the loop kept; the early return stands for false.
  abbrev conjunction : Option (List Sig) → Bool
  conjunction none = false
  conjunction (some out) = all (map (eval ρ) out)

  abbrev disjunction : Option (List Sig) → Bool
  disjunction none = true
  disjunction (some out) = any (map (eval ρ) out)

  conjunction-live_args : (xs : List Sig) → conjunction (live_args false xs) ≡ all (map (eval ρ) xs)
  unfolding eval live_args
  conjunction-live_args [] = refl
  conjunction-live_args (const _ true ∷ xs) = conjunction-live_args xs
  conjunction-live_args (const _ false ∷ xs) = refl
  conjunction-live_args (x ∷ xs) = ground (arith, conjunction-live_args xs)

  disjunction-live_args : (xs : List Sig) → disjunction (live_args true xs) ≡ any (map (eval ρ) xs)
  unfolding eval live_args
  disjunction-live_args [] = refl
  disjunction-live_args (const _ true ∷ xs) = refl
  disjunction-live_args (const _ false ∷ xs) = disjunction-live_args xs
  disjunction-live_args (x ∷ xs) = ground (arith, disjunction-live_args xs)

  eval-finish_and :
      (out : List Sig) (n : ℕ) → eval ρ (finish true_sig and out n).0 ≡ all (map (eval ρ) out)
  unfolding eval finish
  eval-finish_and [] n = refl
  eval-finish_and (x ∷ []) n = ground arith
  eval-finish_and (x ∷ y ∷ xs) n = eval_all-of_list (x ∷ y ∷ xs)

  eval-finish_or :
      (out : List Sig) (n : ℕ) → eval ρ (finish false_sig or out n).0 ≡ any (map (eval ρ) out)
  unfolding eval finish
  eval-finish_or [] n = refl
  eval-finish_or (x ∷ []) n = ground arith
  eval-finish_or (x ∷ y ∷ xs) n = eval_any-of_list (x ∷ y ∷ xs)

  pub eval-and_sig : (xs : List Sig) (n : ℕ) → eval ρ (and_sig xs n).0 ≡ all (map (eval ρ) xs)
  unfolding eval and_sig
  eval-and_sig xs n = elim (Option-cases (live_args false xs)) [
    | inl e ↦ rw (e, and_sig) (rw e at (conjunction-live_args xs))
    | inr (out, e) ↦ rw (e, and_sig) (eval-finish_and out n ∙ (rw e at (conjunction-live_args xs)))
  ]

  pub eval-or_sig : (xs : List Sig) (n : ℕ) → eval ρ (or_sig xs n).0 ≡ any (map (eval ρ) xs)
  unfolding eval or_sig
  eval-or_sig xs n = elim (Option-cases (live_args true xs)) [
    | inl e ↦ rw (e, or_sig) (rw e at (disjunction-live_args xs))
    | inr (out, e) ↦ rw (e, or_sig) (eval-finish_or out n ∙ (rw e at (disjunction-live_args xs)))
  ]

  pub eval-xor_sig : (a b : Sig) (n : ℕ) → eval ρ (xor_sig a b n).0 ≡ xor_bool (eval ρ a) (eval ρ b)
  unfolding eval xor_sig
  eval-xor_sig (const _ true) b n = eval-not_sig b n
  eval-xor_sig (const _ false) b n = refl
  eval-xor_sig a (const _ true) n = eval-not_sig a n ∙ ground arith
  eval-xor_sig a (const _ false) n = ground arith
  eval-xor_sig a b n = refl

  pub eval-xnor_sig :
      (a b : Sig) (n : ℕ) → eval ρ (xnor_sig a b n).0 ≡ flip (xor_bool (eval ρ a) (eval ρ b))
  unfolding xnor_sig
  eval-xnor_sig a b n = simp (eval-not_sig, eval-xor_sig)

  pub eval-implies_sig :
      (a b : Sig) (n : ℕ) → eval ρ (implies_sig a b n).0 ≡ (flip (eval ρ a) || eval ρ b)
  unfolding implies_sig
  eval-implies_sig a b n = simp (eval-or_sig, eval-not_sig) (ground arith)

  pub eval-iff_sig :
      (a b : Sig) (n : ℕ) → eval ρ (iff_sig a b n).0 ≡ flip (xor_bool (eval ρ a) (eval ρ b))
  unfolding iff_sig
  eval-iff_sig a b n = eval-xnor_sig a b n

  pub eval-ite_sig :
      (c t e : Sig) (n : ℕ) → eval ρ (ite_sig c t e n).0 ≡ (if eval ρ c then eval ρ t else eval ρ e)
  unfolding eval ite_sig
  eval-ite_sig (const _ true) t e n = refl
  eval-ite_sig (const _ false) t e n = refl
  eval-ite_sig c t e n = refl

pub ruleset gate_meaning = (
  eval-const_sig, eval-var_sig, eval-not_sig, eval-and_sig, eval-or_sig, eval-xor_sig,
  eval-xnor_sig, eval-implies_sig, eval-iff_sig, eval-ite_sig,
)
