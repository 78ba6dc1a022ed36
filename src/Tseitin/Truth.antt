-- ===== src/Tseitin/Truth.antt =====
-- The literal that is true in every model: cached, or a fresh variable with a unit clause.
use emergent_hardware_verifi.Tseitin.NewVar.{with_var-IsSound, add_clause-AddedOne}
use emergent_hardware_verifi.Sat.Solver.{with_var, new_var, Solver}
use emergent_hardware_verifi.Prelude.{
  ◌&&◌, ◌≡◌, ◌∷◌, ◌∙◌, ℕ, true, sym, suc, some, refl, none, inr, inl, arith, ap₂, ap, [],
  Option-cases,
}
use emergent_hardware_verifi.Sat.Literal.{ℤ, pos, lit_val, Assignment}
use emergent_hardware_verifi.Sat.Solver.Meaning.{formula_val, Known}
use emergent_hardware_verifi.Tseitin.State.{
  update, lit_val-update, IsSound, Extends-refl, Extends, Agree-update,
}
use emergent_hardware_verifi.Tseitin.{true_lit_at, true_lit_of}

-- The true literal exists, from the cache or freshly made.
pub record HasTrue (s : Solver) : Type 0 where
  pub truth : ℤ
  pub after : Solver
  pub returns : true_lit_of s ≡ some (truth, after)
  pub sound : IsSound after
  pub extends : Extends s after
  pub known : Known after.n_vars truth
  pub holds : (μ : Assignment) → formula_val μ after ≡ true → lit_val μ truth ≡ true

-- Naming the true literal changes no clause.
named_true :
    (s : Solver) (t : ℤ)
    → IsSound s
    → Known s.n_vars t
    → ((μ : Assignment) → formula_val μ s ≡ true → lit_val μ t ≡ true)
    → IsSound (record s { true_lit = some t })
unfolding formula_val
named_true s t h k one = record {
  well_formed = record {
    stored = h.well_formed.stored;
    assigned = h.well_formed.assigned;
    has_assign = h.well_formed.has_assign;
    has_watches = h.well_formed.has_watches;
  };
  is_local = h.is_local;
  true_lit_ok = λ q e.
      let tq : t ≡ q = ground (arith, e) in (rw (← tq) k, λ μ f. ap (lit_val μ) (sym tq) ∙ one μ f);
}

fresh_true : (s : Solver) → IsSound s → s.true_lit ≡ none → HasTrue s
unfolding true_lit_of new_var formula_val
fresh_true s h e =
    let v : ℕ = suc s.n_vars in
    let one =
      add_clause-AddedOne (with_var s) (pos v ∷ []) (with_var-IsSound s h)
        ((omega arith, omega arith), tt) in
    let k : Known one.after.n_vars (pos v) = (omega arith, omega (arith, one.same_vars)) in
    let holds : (μ : Assignment) → formula_val μ one.after ≡ true → lit_val μ (pos v) ≡ true =
      λ μ f. ground (arith, sym (one.means μ) ∙ f) in
    record {
      truth = pos v;
      after = record one.after { true_lit = some (pos v) };
      returns = ap (λ o. true_lit_at o s) e ∙ rw (one.returns, true_lit_at) refl;
      sound = named_true one.after (pos v) one.sound k holds;
      extends = record {
        more_vars = omega (arith, one.same_vars);
        implies = λ μ f. ground (arith, sym (one.means μ) ∙ f);
        conservative = λ μ f.
            let ν = update μ v true in
            let agree = Agree-update μ s.n_vars true in
            let old : formula_val ν s ≡ true = sym (h.is_local μ ν agree) ∙ f in
            (ν, agree, one.means ν ∙ ap₂ ◌&&◌ old (ground (arith, lit_val-update μ v true)));
      };
      known = k;
      holds = holds;
    }

cached_true : (s : Solver) (t : ℤ) → IsSound s → s.true_lit ≡ some t → HasTrue s
unfolding true_lit_of
cached_true s t h e =
    let (k, one) = h.true_lit_ok t e in
    record {
      truth = t;
      after = s;
      returns = ap (λ o. true_lit_at o s) e;
      sound = h;
      extends = Extends-refl s;
      known = k;
      holds = one;
    }

pub has_true : (s : Solver) → IsSound s → HasTrue s
has_true s h = elim (Option-cases s.true_lit) [
  | inl e ↦ fresh_true s h e
  | inr (t, e) ↦ cached_true s t h e
]
