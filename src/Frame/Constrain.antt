-- ===== src/Frame/Constrain.antt =====
-- What the clauses of tie and assert_init say.
use emergent_hardware_verifi.Tseitin.Gate.{reads}
use emergent_hardware_verifi.Tseitin.Clauses.{iff_bool}
use emergent_hardware_verifi.Frame.{tie_lits, init_lit, assert_inits}
use emergent_hardware_verifi.Tseitin.NewVar.{add_clause-AddedOne}
use emergent_hardware_verifi.Circuit.Meaning.{Valuation}
use emergent_hardware_verifi.Sat.Solver.{Solver}
use emergent_hardware_verifi.Tseitin.{LitEnv}
use emergent_hardware_verifi.Tseitin.Vars.{Known-neg}
use emergent_hardware_verifi.Sat.Solver.Meaning.{formula_val, Known}
use emergent_hardware_verifi.Tseitin.State.{IsSound}
use emergent_hardware_verifi.Frame.Fresh.{HasAll, EnvKnown}
use emergent_hardware_verifi.Sat.Literal.{
  ℤ, neg, lit_val-neg, lit_val, clause_val, IsLiteral, Assignment,
}
use emergent_hardware_verifi.Prelude.{
  ◌≡◌, ◌∷◌, ◌∙◌, ℕ, true, sym, some, refl, none, false, arith, ap₂, ap, [], String, Option, List,
  Bool, ◌&&◌,
}

abbrev pub same_on : Valuation → Valuation → List String → Bool
same_on ρ σ [] = true
same_on ρ σ (x ∷ xs) = iff_bool (ρ x) (σ x) && same_on ρ σ xs

abbrev pub is_value : Option Bool → Bool → Bool
is_value none b = false
is_value (some c) b = iff_bool b c

abbrev pub starts_on : Valuation → (String → Option Bool) → List String → Bool
starts_on ρ init [] = true
starts_on ρ init (x ∷ xs) = is_value (init x) (ρ x) && starts_on ρ init xs

pub record Constrained (s : Solver) (b : Assignment → Bool) (result : Option (Unit {0} × Solver))
    : Type 0 where
  pub after : Solver
  pub returns : result ≡ some (tt, after)
  pub sound : IsSound after
  pub means : (μ : Assignment) → formula_val μ after ≡ (formula_val μ s && b μ)
  pub same_vars : after.n_vars ≡ s.n_vars

pub reads-has :
    (env : LitEnv) (μ : Assignment) (x : String) (l : ℤ)
    → env x ≡ some l
    → reads env μ x ≡ lit_val μ l
reads-has env μ x l h = rw (h, reads) refl

and_assoc : (a b c : Bool) → ((a && b) && c) ≡ (a && (b && c))
and_assoc a b c = ground arith

-- The two clauses of a pair say that its literals are equal.
pair-means :
    (μ : Assignment) (a b : ℤ)
    → IsLiteral a
    → IsLiteral b
    → (clause_val μ (neg a ∷ b ∷ []) && clause_val μ (a ∷ neg b ∷ []))
      ≡ iff_bool (lit_val μ a) (lit_val μ b)
pair-means μ a b ha hb = ground (arith, lit_val-neg μ a ha, lit_val-neg μ b hb)

pub tie_lits-Constrained :
    (from to : LitEnv) (names : List String) (s : Solver)
    → IsSound s
    → EnvKnown s.n_vars from
    → EnvKnown s.n_vars to
    → HasAll from names
    → HasAll to names
    → Constrained s (λ μ. same_on (reads from μ) (reads to μ) names) (tie_lits from to names s)
unfolding tie_lits
tie_lits-Constrained from to [] s h kf kt hf ht = record {
  after = s;
  returns = refl;
  sound = h;
  means = λ μ. ground arith;
  same_vars = refl;
}
tie_lits-Constrained from to (x ∷ xs) s h kf kt hf ht =
    let (a, ea) = hf.0 in
    let (b, eb) = ht.0 in
    let n = s.n_vars in
    let ka = kf x a ea in
    let kb = kt x b eb in
    let one = add_clause-AddedOne s (neg a ∷ b ∷ []) h (Known-neg n a ka, (kb, tt)) in
    let two =
      add_clause-AddedOne one.after (a ∷ neg b ∷ []) one.sound
        (rw one.same_vars (ka, (Known-neg n b kb, tt))) in
    let same : two.after.n_vars ≡ s.n_vars = two.same_vars ∙ one.same_vars in
    let rest =
      tie_lits-Constrained from to xs two.after two.sound (rw same kf) (rw same kt) hf.1 ht.1 in
    record {
      after = rest.after;
      returns =
          rw (ea, tie_lits)
            (rw (eb, tie_lits)
              (rw (one.returns, tie_lits) (rw (two.returns, tie_lits) rest.returns)));
      sound = rest.sound;
      means = λ μ.
          let here : (clause_val μ (neg a ∷ b ∷ []) && clause_val μ (a ∷ neg b ∷ []))
              ≡ iff_bool (reads from μ x) (reads to μ x) =
            pair-means μ a b ka.0 kb.0
            ∙ ap₂ iff_bool (sym (reads-has from μ x a ea)) (sym (reads-has to μ x b eb)) in
          rest.means μ
          ∙ ap (λ v. v && same_on (reads from μ) (reads to μ) xs)
              (two.means μ
                ∙ ap (λ v. v && clause_val μ (a ∷ neg b ∷ [])) (one.means μ)
                ∙ and_assoc (formula_val μ s) (clause_val μ (neg a ∷ b ∷ []))
                    (clause_val μ (a ∷ neg b ∷ []))
                ∙ ap (λ v. formula_val μ s && v) here)
          ∙ and_assoc (formula_val μ s) (iff_bool (reads from μ x) (reads to μ x))
              (same_on (reads from μ) (reads to μ) xs);
      same_vars = rest.same_vars ∙ same;
    }

init_lit-means :
    (μ : Assignment) (b : Bool) (l : ℤ)
    → IsLiteral l
    → clause_val μ (init_lit b l ∷ []) ≡ iff_bool (lit_val μ l) b
init_lit-means μ true l h = ground arith
init_lit-means μ false l h = ground (arith, lit_val-neg μ l h)

init_lit-Known : (n : ℕ) (b : Bool) (l : ℤ) → Known n l → Known n (init_lit b l)
init_lit-Known n true l k = k
init_lit-Known n false l k = Known-neg n l k

abbrev pub HasInits : (String → Option Bool) → List String → Type 0
HasInits init [] = Unit {0}
HasInits init (x ∷ xs) = ((b : Bool) × (init x ≡ some b)) × HasInits init xs

pub assert_inits-Constrained :
    (env : LitEnv) (init : String → Option Bool) (names : List String) (s : Solver)
    → IsSound s
    → EnvKnown s.n_vars env
    → HasAll env names
    → HasInits init names
    → Constrained s (λ μ. starts_on (reads env μ) init names) (assert_inits env init names s)
unfolding assert_inits
assert_inits-Constrained env init [] s h k he hi = record {
  after = s;
  returns = refl;
  sound = h;
  means = λ μ. ground arith;
  same_vars = refl;
}
assert_inits-Constrained env init (x ∷ xs) s h k he hi =
    let (l, el) = he.0 in
    let (b, eb) = hi.0 in
    let kl = k x l el in
    let one = add_clause-AddedOne s (init_lit b l ∷ []) h (init_lit-Known s.n_vars b l kl, tt) in
    let rest =
      assert_inits-Constrained env init xs one.after one.sound (rw one.same_vars k) he.1 hi.1 in
    record {
      after = rest.after;
      returns =
          rw (el, assert_inits)
            (rw (eb, assert_inits) (rw (one.returns, assert_inits) rest.returns));
      sound = rest.sound;
      means = λ μ.
          let here : clause_val μ (init_lit b l ∷ []) ≡ is_value (init x) (reads env μ x) =
            init_lit-means μ b l kl.0
            ∙ ap (λ v. iff_bool v b) (sym (reads-has env μ x l el))
            ∙ ap (λ o. is_value o (reads env μ x)) (sym eb) in
          rest.means μ
          ∙ ap (λ v. v && starts_on (reads env μ) init xs)
              (one.means μ ∙ ap (λ v. formula_val μ s && v) here)
          ∙ and_assoc (formula_val μ s) (is_value (init x) (reads env μ x))
              (starts_on (reads env μ) init xs);
      same_vars = rest.same_vars ∙ one.same_vars;
    }
