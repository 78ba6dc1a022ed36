-- ===== src/Tseitin/Clauses.antt =====
-- The defining clauses of each gate say that the output equals the gate of the inputs.
use emergent_hardware_verifi.Tseitin.{
  xor_clauses, pair_with, or_clauses, negs, ite_clauses, and_clauses,
}
use emergent_hardware_verifi.Circuit.Meaning.{any, all}
use emergent_hardware_verifi.Sat.Literal.{ℤ, neg, lit_val-neg, lit_val, clause_val, Assignment}
use emergent_hardware_verifi.Sat.Solver.Meaning.{Known, AllKnown}
use emergent_hardware_verifi.Prelude.{
  ◌≡◌, ◌∷◌, ◌∙◌, ℕ, ◌||◌, xor_bool, true, refl, map, flip, if◌then◌else◌, arith, ap, [], List, Bool,
  ◌++◌, ◌&&◌,
}

abbrev pub clauses_all : Assignment → List (List ℤ) → Bool
clauses_all μ [] = true
clauses_all μ (c ∷ cs) = clause_val μ c && clauses_all μ cs

abbrev pub AllKnownClauses : ℕ → List (List ℤ) → Type 0
AllKnownClauses n [] = Unit {0}
AllKnownClauses n (c ∷ cs) = AllKnown n c × AllKnownClauses n cs

abbrev pub lit_vals : Assignment → List ℤ → List Bool
lit_vals μ ls = map (lit_val μ) ls

-- `y` is true exactly when `b` is.
abbrev pub iff_bool : Bool → Bool → Bool
iff_bool y b = flip (xor_bool y b)

clauses_all-append :
    (μ : Assignment) (xs ys : List (List ℤ))
    → clauses_all μ (xs ++ ys) ≡ (clauses_all μ xs && clauses_all μ ys)
clauses_all-append μ [] ys = refl
clauses_all-append μ (x ∷ xs) ys = ground (arith, clauses_all-append μ xs ys)

pair_with-means :
    (μ : Assignment) (y : ℤ) (ls : List ℤ)
    → clauses_all μ (pair_with y ls) ≡ (lit_val μ y || all (lit_vals μ ls))
pair_with-means μ y [] = ground arith
pair_with-means μ y (l ∷ ls) = ground (arith, pair_with-means μ y ls)

negs-clause :
    (μ : Assignment) (n : ℕ) (ls : List ℤ)
    → AllKnown n ls
    → clause_val μ (negs ls) ≡ flip (all (lit_vals μ ls))
negs-clause μ n [] k = refl
negs-clause μ n (l ∷ ls) k = ground (arith, negs-clause μ n ls k.1, lit_val-neg μ l k.0.0)

negs-all :
    (μ : Assignment) (n : ℕ) (ls : List ℤ)
    → AllKnown n ls
    → all (lit_vals μ (negs ls)) ≡ flip (clause_val μ ls)
negs-all μ n [] k = refl
negs-all μ n (l ∷ ls) k = ground (arith, negs-all μ n ls k.1, lit_val-neg μ l k.0.0)

clause_val-any : (μ : Assignment) (ls : List ℤ) → clause_val μ ls ≡ any (lit_vals μ ls)
clause_val-any μ [] = refl
clause_val-any μ (l ∷ ls) = ap (λ b. lit_val μ l || b) (clause_val-any μ ls)

module _ (μ : Assignment) (n : ℕ) (y : ℤ) (ky : Known n y) where
  pub and_clauses-mean :
      (ls : List ℤ)
      → AllKnown n ls
      → clauses_all μ (and_clauses ls y) ≡ iff_bool (lit_val μ y) (all (lit_vals μ ls))
  unfolding and_clauses
  and_clauses-mean ls k =
      clauses_all-append μ (pair_with (neg y) ls) ((y ∷ negs ls) ∷ [])
      ∙ ground (arith, pair_with-means μ (neg y) ls, negs-clause μ n ls k, lit_val-neg μ y ky.0)

  pub or_clauses-mean :
      (ls : List ℤ)
      → AllKnown n ls
      → clauses_all μ (or_clauses ls y) ≡ iff_bool (lit_val μ y) (any (lit_vals μ ls))
  unfolding or_clauses
  or_clauses-mean ls k = ground (
    arith,
    pair_with-means μ y (negs ls),
    negs-all μ n ls k,
    clause_val-any μ ls,
    lit_val-neg μ y ky.0,
  )

  pub xor_clauses-mean :
      (a b : ℤ)
      → Known n a
      → Known n b
      → clauses_all μ (xor_clauses a b y)
        ≡ iff_bool (lit_val μ y) (xor_bool (lit_val μ a) (lit_val μ b))
  unfolding xor_clauses
  xor_clauses-mean a b ka kb =
      ground (arith, lit_val-neg μ y ky.0, lit_val-neg μ a ka.0, lit_val-neg μ b kb.0)

  pub ite_clauses-mean :
      (c t e : ℤ)
      → Known n c
      → Known n t
      → Known n e
      → clauses_all μ (ite_clauses c t e y)
        ≡ iff_bool (lit_val μ y) (if lit_val μ c then lit_val μ t else lit_val μ e)
  unfolding ite_clauses
  ite_clauses-mean c t e kc kt ke = ground (
    arith,
    lit_val-neg μ y ky.0,
    lit_val-neg μ c kc.0,
    lit_val-neg μ t kt.0,
    lit_val-neg μ e ke.0,
  )
