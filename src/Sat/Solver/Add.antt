-- ===== src/Sat/Solver/Add.antt =====
-- `add_clause` conjoins its clause to the formula: it simplifies soundly, enqueues a unit, or
-- stores and watches the clause.
use emergent_hardware_verifi.Sat.Solver.{value, simplify, Solver}
use emergent_hardware_verifi.Sat.Literal.{
  variable, pos, negsuc, is_pos, ℤ, neg, member, lit_val-neg, lit_val, clause_val-member,
  clause_val-append, clause_val, IsLiteral, Assignment,
}
use emergent_hardware_verifi.Sat.Solver.Meaning.{Known, formula_val, IsWellFormed, AllKnown}
use emergent_hardware_verifi.Prelude.{
  ◌⊎◌, zero, suc, false, ◌≡◌, ◌∷◌, ◌∙◌, ℕ, ◌||◌, true, some, refl, none, inr, inl, flip, arith, ap,
  [], Option, List, Bool-cases, Bool, ◌++◌, ◌&&◌,
}

-- The clause that is left after simplification; a tautology always holds.
abbrev pub simplified_val : Assignment → Option (List ℤ) → Bool
simplified_val μ none = true
simplified_val μ (some out) = clause_val μ out

-- A clause with both signs of a variable holds.
both_signs :
    (μ : Assignment) (l : ℤ) (out : List ℤ)
    → IsLiteral l
    → member (neg l) out ≡ true
    → (clause_val μ out || lit_val μ l) ≡ true
both_signs μ l out h m = elim (Bool-cases (lit_val μ l)) [
  | inl e ↦ rw e (ground arith)
  | inr e ↦
      let other : lit_val μ (neg l) ≡ true = lit_val-neg μ l h ∙ ap flip e in
      rw (clause_val-member μ (neg l) out m other) refl
]

pub simplified_val-simplify :
    (μ : Assignment) (n : ℕ) (ls out : List ℤ)
    → AllKnown n ls
    → simplified_val μ (simplify ls out) ≡ (clause_val μ out || clause_val μ ls)
unfolding simplify
simplified_val-simplify μ n [] out k = ground arith
simplified_val-simplify μ n (l ∷ ls) out k = elim (Bool-cases (member (neg l) out)) [
  | inl t ↦ rw (t, simplify) (ground (arith, both_signs μ l out k.0.0 t))
  | inr f ↦
      rw (f, simplify)
        (elim (Bool-cases (member l out)) [
          | inl m ↦
              rw m (
                simplified_val-simplify μ n ls out k.1
                ∙ ground (arith, clause_val-member μ l out m))
          | inr m ↦ rw m (
              simplified_val-simplify μ n ls (out ++ l ∷ []) k.1
              ∙ ap (λ b. b || clause_val μ ls) (clause_val-append μ out (l ∷ []))
              ∙ ground arith)
        ])
]

-- What simplification keeps is known.
AllKnown-append : (n : ℕ) (xs ys : List ℤ) → AllKnown n xs → AllKnown n ys → AllKnown n (xs ++ ys)
AllKnown-append n [] ys h k = k
AllKnown-append n (x ∷ xs) ys h k = (h.0, AllKnown-append n xs ys h.1 k)

abbrev pub KeptKnown : ℕ → Option (List ℤ) → Type 0
KeptKnown n none = Unit {0}
KeptKnown n (some kept) = AllKnown n kept

pub KeptKnown-simplify :
    (n : ℕ) (ls out : List ℤ) → AllKnown n ls → AllKnown n out → KeptKnown n (simplify ls out)
unfolding simplify
KeptKnown-simplify n [] out k h = h
KeptKnown-simplify n (l ∷ ls) out k h = elim (Bool-cases (member (neg l) out)) [
  | inl t ↦ rw (t, simplify) tt
  | inr f ↦
      rw (f, simplify)
        (elim (Bool-cases (member l out)) [
          | inl m ↦ rw m (KeptKnown-simplify n ls out k.1 h)
          | inr m ↦ rw m (
              KeptKnown-simplify n ls (out ++ l ∷ []) k.1
                (AllKnown-append n out (l ∷ []) h (k.0, tt)))
        ])
]

-- The state and answer after a clause was added to `s`.
pub record Added (s : Solver) (clause : List ℤ) (t : Solver) : Type 0 where
  pub well_formed : IsWellFormed t
  pub no_levels : t.trail_lim ≡ []
  pub conjoined : (μ : Assignment) → formula_val μ t ≡ (formula_val μ s && clause_val μ clause)
  pub same_vars : t.n_vars ≡ s.n_vars
  pub same_true : t.true_lit ≡ s.true_lit

-- What `value` says of a literal: its value is on the trail, or its variable is free.
pub data ValueView (s : Solver) (l : ℤ) : Type 0 where
  is_true : value l s ≡ some (some true) → member l s.trail ≡ true → ValueView s l
  is_false : value l s ≡ some (some false) → member (neg l) s.trail ≡ true → ValueView s l
  is_free : value l s ≡ some none → s.assign (variable l) ≡ some none → ValueView s l

neg_parts :
    (l : ℤ) → IsLiteral l → (variable (neg l) ≡ variable l) × (is_pos (neg l) ≡ flip (is_pos l))
neg_parts (pos zero) h = absurd (omega arith)
neg_parts (pos (suc n)) h = (refl, refl)
neg_parts (negsuc n) h = (refl, refl)

pub view : (s : Solver) (l : ℤ) → IsWellFormed s → Known s.n_vars l → ValueView s l
unfolding value
view s l w k = let (x, e) = w.has_assign (variable l) k.0 k.1 in split x e
  where
    at_neg :
        (b : Bool)
        → s.assign (variable l) ≡ some (some b)
        → flip (is_pos l) ≡ b
        → member (neg l) s.trail ≡ true
    at_neg b e h =
        let (same, sign) = neg_parts l k.0 in
        w.assigned (neg l) (rw same k.0) (rw (same, sign, h) e)

    sign_cases : (b c : Bool) → (b ≡ c) ⊎ (flip b ≡ c)
    sign_cases b c = ground arith

    split : (x : Option Bool) → s.assign (variable l) ≡ some x → ValueView s l
    split none e = is_free (rw (e, value) refl) e
    split (some b) e = elim (sign_cases (is_pos l) b) [
      | inl h ↦ is_true (rw (e, value) (ground (arith, h))) (w.assigned l k.0 (rw h e))
      | inr h ↦ is_false (rw (e, value) (ground (arith, h))) (at_neg b e h)
    ]
