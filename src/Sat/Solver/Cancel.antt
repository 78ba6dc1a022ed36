-- ===== src/Sat/Solver/Cancel.antt =====
-- Cancelling to the root keeps the formula and the state well formed.
use mathlib.Core.List.{reverse-append, reverse}
use emergent_hardware_verifi.Sat.Solver.{cancel_at, unassign_all, unassign, cancel_until, Solver}
use emergent_hardware_verifi.Sat.Solver.Meaning.{root_of, formula_val, IsWellFormed}
use emergent_hardware_verifi.Sat.Literal.{
  is_pos, ℤ, variable, member, int_eq_iff, int_eq, Assignment,
}
use emergent_hardware_verifi.Prelude.{
  get_elem?, ◌≢◌, ◌≡◌, ◌∷◌, ◌∙◌, ℕ, ◌||◌, zero, true, take, sym, suc, some, refl, none, inr, inl,
  false, drop, arith, ap, [], Option, List, Bool-cases, Bool, ◌==◌, ◌++◌,
}

unassigned :
    (ls : List ℤ) (s : Solver) (l : ℤ) (b : Bool)
    → (unassign_all ls s).assign (variable l) ≡ some (some b)
    → (s.assign (variable l) ≡ some (some b)) × (member l ls ≡ false)
unfolding unassign_all
unassigned [] s l b h = (h, refl)
unassigned (x ∷ ls) s l b h =
    let (before, away) = unassigned ls (unassign x s) l b h in
    let apart : variable x ≢ variable l = λ e. ground (arith, before) in
    let differs : int_eq l x ≡ false = ground (arith, int_eq_iff l x) in
    (ground (arith, before, apart), ground (arith, away, differs))

-- The loop touches `assign`, `reason` and `level` alone, and keeps every key of `assign`.
record Untouched (s t : Solver) : Type 0 where
  n_vars_eq : t.n_vars ≡ s.n_vars
  store_eq : t.store ≡ s.store
  clauses_eq : t.clauses ≡ s.clauses
  watches_eq : t.watches ≡ s.watches
  empty_eq : t.empty ≡ s.empty
  true_lit_eq : t.true_lit ≡ s.true_lit
  keys : (v : ℕ) (x : Option Bool) → s.assign v ≡ some x → (y : Option Bool) × (t.assign v ≡ some y)

unassign_all-Untouched : (ls : List ℤ) (s : Solver) → Untouched s (unassign_all ls s)
unfolding unassign_all
unassign_all-Untouched [] s = record {
  n_vars_eq = refl;
  store_eq = refl;
  clauses_eq = refl;
  watches_eq = refl;
  empty_eq = refl;
  true_lit_eq = refl;
  keys = λ v x h. (x, h);
}
unassign_all-Untouched (l ∷ ls) s =
    let u = unassign_all-Untouched ls (unassign l s) in
    record {
      n_vars_eq = u.n_vars_eq;
      store_eq = u.store_eq;
      clauses_eq = u.clauses_eq;
      watches_eq = u.watches_eq;
      empty_eq = u.empty_eq;
      true_lit_eq = u.true_lit_eq;
      keys = λ v x h. elim (Bool-cases (variable l == v)) [
        | inl e ↦ u.keys v none (rw e refl)
        | inr e ↦ u.keys v x (rw e h)
      ];
    }

pub member-append : (l : ℤ) (xs ys : List ℤ) → member l (xs ++ ys) ≡ (member l xs || member l ys)
member-append l [] ys = refl
member-append l (x ∷ xs) ys = ground (arith, member-append l xs ys)

member-reverse : (l : ℤ) (xs : List ℤ) → member l (reverse xs) ≡ member l xs
member-reverse l [] = refl
member-reverse l (x ∷ xs) =
    ap (member l) (reverse-append (x ∷ []) xs)
    ∙ member-append l (reverse xs) (x ∷ [])
    ∙ ground (arith, member-reverse l xs)

take-append-drop : (n : ℕ) (xs : List ℤ) → take n xs ++ drop n xs ≡ xs
take-append-drop zero xs = refl
take-append-drop (suc n) [] = refl
take-append-drop (suc n) (x ∷ xs) = ap (λ t. x ∷ t) (take-append-drop n xs)

-- What is still assigned after the loop was not in the part of the trail that is cut.
member-kept :
    (l : ℤ) (n : ℕ) (xs : List ℤ)
    → member l xs ≡ true
    → member l (reverse (drop n xs)) ≡ false
    → member l (take n xs) ≡ true
member-kept l n xs h k =
    let split : (member l (take n xs) || member l (drop n xs)) ≡ true =
      sym (member-append l (take n xs) (drop n xs)) ∙ ap (member l) (take-append-drop n xs) ∙ h in
    let gone : member l (drop n xs) ≡ false = sym (member-reverse l (drop n xs)) ∙ k in
    ground (arith, split, gone)

-- What `add_clause` starts from.
pub record Rooted (s t : Solver) : Type 0 where
  pub well_formed : IsWellFormed t
  pub no_levels : t.trail_lim ≡ []
  pub same_formula : (μ : Assignment) → formula_val μ t ≡ formula_val μ s
  pub same_vars : t.n_vars ≡ s.n_vars
  pub same_true : t.true_lit ≡ s.true_lit

no_limit : (lims : List ℕ) → get_elem? lims 0 ≡ none → lims ≡ []
no_limit [] h = refl
no_limit (x ∷ lims) h = cc

root_of-start :
    (trail : List ℤ) (lims : List ℕ) (start : ℕ)
    → get_elem? lims 0 ≡ some start
    → root_of trail lims ≡ take start trail
root_of-start trail [] start h = cc
root_of-start trail (x ∷ lims) start h = ap (λ n. take n trail) (ground (arith, h))

cancel_at-Rooted :
    (o : Option ℕ) (s : Solver)
    → get_elem? s.trail_lim 0 ≡ o
    → IsWellFormed s
    → Rooted s (cancel_at o 0 s)
unfolding cancel_at formula_val
cancel_at-Rooted none s e w = record {
  well_formed = w;
  no_levels = no_limit s.trail_lim e;
  same_formula = λ μ. refl;
  same_vars = refl;
  same_true = refl;
}
cancel_at-Rooted (some start) s e w =
    let cut = reverse (drop start s.trail) in
    let u = unassign_all-Untouched cut s in
    let s' = unassign_all cut s in
    record {
      well_formed = record {
        stored = rw (u.store_eq, u.clauses_eq) w.stored;
        assigned = λ l il h.
            let (before, away) = unassigned cut s l (is_pos l) h in
            member-kept l start s.trail (w.assigned l il before) away;
        has_assign =
            λ v lo hi. let (x, h) = w.has_assign v lo (rw u.n_vars_eq at hi) in u.keys v x h;
        has_watches = λ l k. rw u.watches_eq (w.has_watches l (rw u.n_vars_eq at k));
      };
      no_levels = refl;
      same_formula = λ μ.
          rw (u.empty_eq, u.store_eq, u.clauses_eq, root_of-start s.trail s.trail_lim start e) refl;
      same_vars = u.n_vars_eq;
      same_true = u.true_lit_eq;
    }

-- Backtracking to level 0 of a well-formed solver leaves a well-formed solver without decision
-- levels, with the same variables and the same formula: the root facts and clauses are kept.
pub cancel_until-Rooted : (s : Solver) → IsWellFormed s → Rooted s (cancel_until 0 s)
unfolding cancel_until
cancel_until-Rooted s w = cancel_at-Rooted (get_elem? s.trail_lim 0) s refl w
