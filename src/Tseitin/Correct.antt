-- ===== src/Tseitin/Correct.antt =====
-- The Tseitin encoding of a whole signal, by induction on it.
use emergent_hardware_verifi.Tseitin.Truth.{has_true}
use emergent_hardware_verifi.Tseitin.Clauses.{lit_vals}
use emergent_hardware_verifi.Circuit.Ternary.Rules.{eval_list}
use emergent_hardware_verifi.Circuit.Meaning.{any, all, eval}
use emergent_hardware_verifi.Tseitin.Kinds.{xor_Defines, or_Defines, ite_Defines, and_Defines}
use emergent_hardware_verifi.Circuit.Sig.{xor, var, or, not, nil, ite, const, cons, and, Sigs, Sig}
use emergent_hardware_verifi.Circuit.Numbering.{NumberedAll, Numbered}
use emergent_hardware_verifi.Tseitin.Vars.{Known-neg}
use emergent_hardware_verifi.Tseitin.Gate.{
  reads, emit-Encoded, Means-later, Means, IsGood-remember, IsGood-later, IsGood, Encoded,
}
use emergent_hardware_verifi.Prelude.{
  xor_bool, ◌≡◌, ◌∷◌, ◌∙◌, ℕ, true, some, refl, inr, inl, flip, false, if◌then◌else◌, ap₂, ap, [],
  String, Option-cases, Option, List, Bool,
}
use emergent_hardware_verifi.Sat.Literal.{ℤ, neg, lit_val-neg, lit_val, IsLiteral, Assignment}
use emergent_hardware_verifi.Sat.Solver.Meaning.{formula_val, Known, AllKnown}
use emergent_hardware_verifi.Tseitin.State.{Known-more, Extends-trans, Extends-refl, Extends}
use emergent_hardware_verifi.Tseitin.{
  emit, xor_clauses, tseitin_all, tseitin, true_lit_of, remember, read_env, or_clauses, on_solver,
  memoized, ite_clauses, give, and_clauses, LitEnv, Enc, E, find, ◌>>=◌,
}

-- The environment has a literal for every name that the signal reads.
abbrev mutual
  pub Bound : LitEnv → Sig → Type 0
  Bound env (const _ _) = Unit {0}
  Bound env (var _ x) = (l : ℤ) × (env x ≡ some l)
  Bound env (not _ a) = Bound env a
  Bound env (and _ xs) = BoundAll env xs
  Bound env (or _ xs) = BoundAll env xs
  Bound env (xor _ a b) = Bound env a × Bound env b
  Bound env (ite _ c t e) = Bound env c × Bound env t × Bound env e

  pub BoundAll : LitEnv → Sigs → Type 0
  BoundAll env nil = Unit {0}
  BoundAll env (cons s ss) = Bound env s × BoundAll env ss

module _ (env : LitEnv) (D : ℕ → Sig) where
  record EncodedAll (e : Enc) (ss : Sigs) (result : Option (List ℤ × Enc)) : Type 0 where
    lits : List ℤ
    after : Enc
    returns : result ≡ some (lits, after)
    good : IsGood env D after
    extends : Extends e.solver after.solver
    known : AllKnown after.solver.n_vars lits
    means :
        (μ : Assignment)
        → formula_val μ after.solver ≡ true
        → lit_vals μ lits ≡ eval_list (reads env μ) ss

  -- The memo answers, or the rest is computed.
  memoized-Encoded :
      (e : Enc) (i : ℕ) (sig : Sig) (rest : E ℤ)
      → IsGood env D e
      → D i ≡ sig
      → Encoded env D e sig (rest e)
      → Encoded env D e sig (memoized i rest e)
  memoized-Encoded e i sig rest g d r = elim (Option-cases (find i e.memo)) [
    | inl n ↦ rw (n, memoized) r
    | inr (l, f) ↦
        let (k, m) = g.memo_ok i l f in
        record {
          lit = l;
          after = e;
          returns = rw (f, memoized) refl;
          good = g;
          extends = Extends-refl e.solver;
          known = k;
          means = λ μ h. m μ h ∙ ap (eval (reads env μ)) d;
        }
  ]

  -- A later result, seen from an earlier state.
  Encoded-trans :
      (e e' : Enc) (sig : Sig) (result : Option (ℤ × Enc))
      → Extends e.solver e'.solver
      → Encoded env D e' sig result
      → Encoded env D e sig result
  Encoded-trans e e' sig result x r = record {
    lit = r.lit;
    after = r.after;
    returns = r.returns;
    good = r.good;
    extends = Extends-trans x r.extends;
    known = r.known;
    means = r.means;
  }

  -- The first step of a chain has returned.
  Encoded-bind :
      {A : Type 0} (e e' : Enc) (a : A) (m : E A) (f : A → E ℤ) (sig : Sig)
      → m e ≡ some (a, e')
      → Extends e.solver e'.solver
      → Encoded env D e' sig (f a e')
      → Encoded env D e sig ((m >>= f) e)
  Encoded-bind e e' a m f sig h x r = rw (h, ◌>>=◌) (Encoded-trans e e' sig (f a e') x r)

  var-Encoded :
      (e : Enc) (i : ℕ) (x : String) (l : ℤ)
      → IsGood env D e
      → env x ≡ some l
      → Encoded env D e (var i x) (some (l, e))
  unfolding eval
  var-Encoded e i x l g h = record {
    lit = l;
    after = e;
    returns = refl;
    good = g;
    extends = Extends-refl e.solver;
    known = g.env_known x l h;
    means = λ μ f. rw (h, reads) refl;
  }

  const_known : (n : ℕ) (b : Bool) (t : ℤ) → Known n t → Known n (if b then t else neg t)
  const_known n true t k = k
  const_known n false t k = Known-neg n t k

  const_means :
      (μ : Assignment) (b : Bool) (t : ℤ)
      → IsLiteral t
      → lit_val μ t ≡ true
      → lit_val μ (if b then t else neg t) ≡ b
  const_means μ true t il h = h
  const_means μ false t il h = lit_val-neg μ t il ∙ ap flip h

  true_lit-Encoded :
      (e : Enc) (b : Bool) (i : ℕ)
      → IsGood env D e
      → Encoded env D e
          (const i b)
          ((on_solver true_lit_of >>= λ t. give (if b then t else neg t)) e)
  unfolding eval
  true_lit-Encoded e b i g =
      let r = has_true e.solver g.sound in
      record {
        lit = if b then r.truth else neg r.truth;
        after = record e { solver = r.after };
        returns = rw (r.returns, ◌>>=◌, on_solver) refl;
        good = IsGood-later env D e r.after g r.extends r.sound;
        extends = r.extends;
        known = const_known r.after.n_vars b r.truth r.known;
        means = λ μ f. const_means μ b r.truth r.known.0 (r.holds μ f);
      }

  not-Encoded :
      (e : Enc) (i : ℕ) (a : Sig) (l : ℤ)
      → IsGood env D e
      → D i ≡ not i a
      → Known e.solver.n_vars l
      → Means env D e.solver l a
      → Encoded env D e (not i a) (some (neg l, remember i (neg l) e))
  unfolding eval
  not-Encoded e i a l g d k m =
      let k' = Known-neg e.solver.n_vars l k in
      let m' : Means env D e.solver (neg l) (not i a) =
        λ μ f. lit_val-neg μ l k.0 ∙ ap flip (m μ f) in
      record {
        lit = neg l;
        after = remember i (neg l) e;
        returns = refl;
        good = IsGood-remember env D e i (neg l) (not i a) g d k' m';
        extends = Extends-refl e.solver;
        known = k';
        means = m';
      }

  mutual
    unfolding tseitin

    encoded :
        (s : Sig)
        → Numbered D s
        → Bound env s
        → (e : Enc) → IsGood env D e
        → Encoded env D e s (tseitin env s e)
    encoded (const i b) d w e g = true_lit-Encoded e b i g
    encoded (var i x) d (l, h) e g = rw (h, read_env) (var-Encoded e i x l g h)
    encoded (not i a) d w e g =
        let r = encoded a d.1 w e g in
        let step : ℤ → E ℤ = λ l e'. some (neg l, remember i (neg l) e') in
        memoized-Encoded e i (not i a) (tseitin env a >>= step) g d.0 (
          Encoded-bind e r.after r.lit (tseitin env a) step (not i a) r.returns r.extends
            (not-Encoded r.after i a r.lit r.good d.0 r.known r.means))
    encoded (and i xs) d w e g =
        let r = encoded_all xs d.1 w e g in
        let step : List ℤ → E ℤ = λ ls. emit i (and_clauses ls) in
        memoized-Encoded e i (and i xs) (tseitin_all env xs >>= step) g d.0 (
          Encoded-bind e r.after r.lits (tseitin_all env xs) step (and i xs) r.returns r.extends (
            emit-Encoded env D r.after i (and i xs) (and_clauses r.lits)
              (λ μ. all (lit_vals μ r.lits)) r.good d.0
              (and_Defines env D r.after i xs r.lits r.known r.means)))
    encoded (or i xs) d w e g =
        let r = encoded_all xs d.1 w e g in
        let step : List ℤ → E ℤ = λ ls. emit i (or_clauses ls) in
        memoized-Encoded e i (or i xs) (tseitin_all env xs >>= step) g d.0 (
          Encoded-bind e r.after r.lits (tseitin_all env xs) step (or i xs) r.returns r.extends (
            emit-Encoded env D r.after i (or i xs) (or_clauses r.lits)
              (λ μ. any (lit_vals μ r.lits)) r.good d.0
              (or_Defines env D r.after i xs r.lits r.known r.means)))
    encoded (xor i a b) d w e g =
        let p = encoded a d.1 w.0 e g in
        let q = encoded b d.2 w.1 p.after p.good in
        let last : ℤ → ℤ → E ℤ = λ la lb. emit i (xor_clauses la lb) in
        let step : ℤ → E ℤ = λ la. tseitin env b >>= last la in
        memoized-Encoded e i (xor i a b) (tseitin env a >>= step) g d.0 (
          Encoded-bind e p.after p.lit (tseitin env a) step (xor i a b) p.returns p.extends (
            Encoded-bind p.after q.after q.lit (tseitin env b) (last p.lit) (xor i a b) q.returns
              q.extends
              (emit-Encoded env D q.after i (xor i a b) (xor_clauses p.lit q.lit)
                (λ μ. xor_bool (lit_val μ p.lit) (lit_val μ q.lit)) q.good d.0
                (xor_Defines env D q.after i a b p.lit q.lit
                  (Known-more p.lit q.extends.more_vars p.known) q.known
                  (Means-later env D p.lit a q.extends p.means) q.means))))
    encoded (ite i c t f) d w e g =
        let p = encoded c d.1 w.0 e g in
        let q = encoded t d.2 w.1 p.after p.good in
        let r = encoded f d.3 w.2 q.after q.good in
        let qr = r.extends in
        let pr = Extends-trans q.extends qr in
        let last : ℤ → ℤ → ℤ → E ℤ = λ lc lt lf. emit i (ite_clauses lc lt lf) in
        let middle : ℤ → ℤ → E ℤ = λ lc lt. tseitin env f >>= last lc lt in
        let step : ℤ → E ℤ = λ lc. tseitin env t >>= middle lc in
        memoized-Encoded e i (ite i c t f) (tseitin env c >>= step) g d.0 (
          Encoded-bind e p.after p.lit (tseitin env c) step (ite i c t f) p.returns p.extends (
            Encoded-bind p.after q.after q.lit (tseitin env t) (middle p.lit) (ite i c t f)
              q.returns q.extends
              (Encoded-bind q.after r.after r.lit (tseitin env f) (last p.lit q.lit) (ite i c t f)
                r.returns r.extends
                (emit-Encoded env D r.after i (ite i c t f) (ite_clauses p.lit q.lit r.lit)
                  (λ μ. if lit_val μ p.lit then lit_val μ q.lit else lit_val μ r.lit) r.good d.0
                  (ite_Defines env D r.after i c t f p.lit q.lit r.lit
                    (Known-more p.lit pr.more_vars p.known) (Known-more q.lit qr.more_vars q.known)
                    r.known (Means-later env D p.lit c pr p.means)
                    (Means-later env D q.lit t qr q.means) r.means)))))

    encoded_all :
        (ss : Sigs)
        → NumberedAll D ss
        → BoundAll env ss
        → (e : Enc) → IsGood env D e
        → EncodedAll e ss (tseitin_all env ss e)
    encoded_all nil d w e g = record {
      lits = [];
      after = e;
      returns = refl;
      good = g;
      extends = Extends-refl e.solver;
      known = tt;
      means = λ μ h. refl;
    }
    encoded_all (cons s ss) d w e g =
        let p = encoded s d.0 w.0 e g in
        let q = encoded_all ss d.1 w.1 p.after p.good in
        record {
          lits = p.lit ∷ q.lits;
          after = q.after;
          returns = rw (p.returns, ◌>>=◌) (rw (q.returns, ◌>>=◌) refl);
          good = q.good;
          extends = Extends-trans p.extends q.extends;
          known = (Known-more p.lit q.extends.more_vars p.known, q.known);
          means = λ μ h. ap₂ ◌∷◌ (p.means μ (q.extends.implies μ h)) (q.means μ h);
        }

-- For a signal whose node ids are unambiguous, names that the environment maps to literals of the
-- solver, and a sound encoder state, tseitin returns a literal and a sound state; in every model
-- of the new formula the literal has the value of the signal under the values of the names; the
-- new formula implies the old one, and every model of the old one extends by new variables to a
-- model of the new one.
pub tseitin-Encoded :
    (env : LitEnv) (D : ℕ → Sig) (s : Sig) (e : Enc)
    → Numbered D s
    → Bound env s
    → IsGood env D e
    → Encoded env D e s (tseitin env s e)
tseitin-Encoded env D s e d w g = encoded env D s d w e g
