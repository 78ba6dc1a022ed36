-- ===== src/Tseitin/NewVar.antt =====
-- `new_var` and a sequence of `add_clause` under the invariant of an encoding.
use emergent_hardware_verifi.Sat.Solver.Stored.{add_clause-Answered}
use emergent_hardware_verifi.Tseitin.Clauses.{clauses_all, AllKnownClauses}
use emergent_hardware_verifi.Tseitin.State.{clause_val-Agree, Known-more, IsSound, Agree}
use emergent_hardware_verifi.Sat.Solver.Meaning.{AllKnown, formula_val, IsWellFormed}
use emergent_hardware_verifi.Sat.Solver.{add_clause, with_var, set_default, Solver, Ref, Dict}
use emergent_hardware_verifi.Sat.Literal.{
  is_pos, int_eq_iff, int_eq, clause_val, ℤ, variable, pos, negsuc, neg, Assignment,
}
use emergent_hardware_verifi.Prelude.{
  ◌∷◌, ◌∙◌, ℕ, sym, ap₂, Option-cases, ==_iff, ◌&&◌, ◌⊎◌, ◌≡◌, zero, true, suc, some, refl, none,
  inr, inl, false, if◌then◌else◌, arith, [], Option, List, Bool-cases, Bool, ◌==◌, ◌<◌,
}
use emergent_hardware_verifi.Tseitin.{add_all}

pub formula_val-with_var :
    (μ : Assignment) (s : Solver) → formula_val μ (with_var s) ≡ formula_val μ s
unfolding formula_val
formula_val-with_var μ s = refl

set_default-keeps :
    (d : Dict ℤ (List Ref)) (k j : ℤ) {ws : List Ref}
    → d j ≡ some ws
    → (vs : List Ref) × (set_default d k [] j ≡ some vs)
set_default-keeps d k j {ws} h = elim (Option-cases (d k)) [
  | inl e ↦
      rw (e, set_default)
        (elim (Bool-cases (int_eq k j)) [
          | inl same ↦ ([], rw same refl)
          | inr other ↦ (ws, rw other h)
        ])
  | inr (vs, e) ↦ rw (e, set_default) (ws, h)
]

set_default-has :
    (d : Dict ℤ (List Ref)) (k : ℤ) → (vs : List Ref) × (set_default d k [] k ≡ some vs)
set_default-has d k = elim (Option-cases (d k)) [
  | inl e ↦ rw (e, set_default) ([], rw ((int_eq_iff k k).1 refl) refl)
  | inr (vs, e) ↦ rw (e, set_default) (vs, e)
]

-- Both signs of the new variable have a watch list.
new_watches :
    (d : Dict ℤ (List Ref)) (v : ℕ) (l : ℤ)
    → (l ≡ pos v) ⊎ (l ≡ neg (pos v))
    → (vs : List Ref) × (set_default (set_default d (pos v) []) (neg (pos v)) [] l ≡ some vs)
new_watches d v l (inl e) = rw e (
    set_default-keeps (set_default d (pos v) []) (neg (pos v)) (pos v)
      (set_default-has d (pos v)).1)
new_watches d v l (inr e) = rw e (set_default-has (set_default d (pos v) []) (neg (pos v)))

signs : (l : ℤ) → 0 < variable l → (l ≡ pos (variable l)) ⊎ (l ≡ neg (pos (variable l)))
signs (pos zero) h = absurd (omega arith)
signs (pos (suc n)) h = inl refl
signs (negsuc n) h = inr refl

-- An assigned variable is not the new one.
old_assign :
    (b : Bool) (y : Option (Option Bool)) (z : Bool)
    → (if b then some none else y) ≡ some (some z)
    → y ≡ some (some z)
old_assign true y z h = cc
old_assign false y z h = h

pub with_var-IsWellFormed : (s : Solver) → IsWellFormed s → IsWellFormed (with_var s)
with_var-IsWellFormed s w = record {
  stored = w.stored;
  assigned = λ l il h.
      w.assigned l il
        (old_assign (suc s.n_vars == variable l) (s.assign (variable l)) (is_pos l) h);
  has_assign = λ v lo hi. elim (Bool-cases (suc s.n_vars == v)) [
    | inl e ↦ (none, rw e refl)
    | inr e ↦ let (x, h) = w.has_assign v lo (ground (arith, e)) in (x, rw e h)
  ];
  has_watches = λ l k. elim (Bool-cases (suc s.n_vars == variable l)) [
    | inl e ↦ new_watches s.watches (suc s.n_vars) l (rw (← (==_iff _ _).0 e) at (signs l k.0))
    | inr e ↦
        let (ws, h) = w.has_watches l (k.0, ground (arith, e)) in
        let (vs, g) = set_default-keeps s.watches (pos (suc s.n_vars)) l h in
        set_default-keeps (set_default s.watches (pos (suc s.n_vars)) []) (neg (pos (suc s.n_vars)))
          l g
  ];
}

pub with_var-IsSound : (s : Solver) → IsSound s → IsSound (with_var s)
unfolding formula_val
with_var-IsSound s h = record {
  well_formed = with_var-IsWellFormed s h.well_formed;
  is_local = λ μ ν a. h.is_local μ ν (λ v lo hi. a v lo (omega arith));
  true_lit_ok = λ t e. let (k, yes') = h.true_lit_ok t e in (Known-more t (omega arith) k, yes');
}

-- A clause over the solver's variables.
pub record AddedOne (s : Solver) (c : List ℤ) : Type 0 where
  pub answer : Bool
  pub after : Solver
  pub returns : add_clause c s ≡ some (answer, after)
  pub sound : IsSound after
  pub means : (μ : Assignment) → formula_val μ after ≡ (formula_val μ s && clause_val μ c)
  pub same_vars : after.n_vars ≡ s.n_vars
  pub same_true : after.true_lit ≡ s.true_lit

pub add_clause-AddedOne : (s : Solver) (c : List ℤ) → IsSound s → AllKnown s.n_vars c → AddedOne s c
add_clause-AddedOne s c h k =
    let r = add_clause-Answered s c h.well_formed k in
    let a = r.added in
    record {
      answer = r.ok;
      after = r.after;
      returns = r.returns;
      sound = record {
        well_formed = a.well_formed;
        is_local = λ μ ν g.
            let g' : Agree s.n_vars μ ν = rw a.same_vars at g in
            a.conjoined μ
            ∙ ap₂ ◌&&◌ (h.is_local μ ν g') (clause_val-Agree s.n_vars μ ν c g' k)
            ∙ sym (a.conjoined ν);
        true_lit_ok = λ t e.
            let (kt, one) = h.true_lit_ok t (sym a.same_true ∙ e) in
            (rw a.same_vars kt, λ μ f. one μ (ground (arith, sym (a.conjoined μ) ∙ f)));
      };
      means = a.conjoined;
      same_vars = a.same_vars;
      same_true = a.same_true;
    }

pub record AddedAll (s : Solver) (cs : List (List ℤ)) : Type 0 where
  pub after : Solver
  pub returns : add_all cs s ≡ some (tt, after)
  pub sound : IsSound after
  pub means : (μ : Assignment) → formula_val μ after ≡ (formula_val μ s && clauses_all μ cs)
  pub same_vars : after.n_vars ≡ s.n_vars

pub add_all-AddedAll :
    (s : Solver) (cs : List (List ℤ)) → IsSound s → AllKnownClauses s.n_vars cs → AddedAll s cs
unfolding add_all
add_all-AddedAll s [] h k = record {
  after = s;
  returns = refl;
  sound = h;
  means = λ μ. ground arith;
  same_vars = refl;
}
add_all-AddedAll s (c ∷ cs) h k =
    let one = add_clause-AddedOne s c h k.0 in
    let rest = add_all-AddedAll one.after cs one.sound (rw one.same_vars k.1) in
    record {
      after = rest.after;
      returns = rw (one.returns, add_all) rest.returns;
      sound = rest.sound;
      means = λ μ. rest.means μ ∙ ground (arith, one.means μ);
      same_vars = rest.same_vars ∙ one.same_vars;
    }
