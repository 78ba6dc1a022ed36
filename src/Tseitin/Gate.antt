-- ===== src/Tseitin/Gate.antt =====
-- One gate of the encoding: a fresh output variable, defined by its clauses.
use emergent_hardware_verifi.Tseitin.NewVar.{
  with_var-IsSound, formula_val-with_var, add_all-AddedAll, AddedAll,
}
use emergent_hardware_verifi.Circuit.Meaning.{eval, Valuation}
use emergent_hardware_verifi.Sat.Solver.{with_var, Solver}
use emergent_hardware_verifi.Circuit.Sig.{Sig}
use emergent_hardware_verifi.Sat.Solver.Meaning.{formula_val, Known}
use emergent_hardware_verifi.Sat.Literal.{ℤ, pos, lit_val, Assignment}
use emergent_hardware_verifi.Tseitin.Clauses.{iff_bool, clauses_all, AllKnownClauses}
use emergent_hardware_verifi.Tseitin.State.{
  update, lit_val-update, Agree-update, Known-more, IsSound, Extends, Agree,
}
use emergent_hardware_verifi.Prelude.{
  refl, ap₂, ◌&&◌, ◌≡◌, ◌∙◌, ℕ, true, sym, suc, some, none, inr, inl, false, arith, ap, String,
  Option, List, Bool-cases, Bool, ==_iff, ◌==◌,
}
use emergent_hardware_verifi.Tseitin.{emit, remember, LitEnv, Enc, find}

-- The valuation of the names that an assignment gives through the environment.
abbrev pub reads : LitEnv → Assignment → Valuation
reads env μ x = elim (env x) [ none ↦ false | some l ↦ lit_val μ l ]

-- The variable that the next gate gets.
abbrev pub next_var : Enc → ℕ
next_var e = suc e.solver.n_vars

module _ (env : LitEnv) (D : ℕ → Sig) where
  -- In every model the literal has the value of the signal.
  abbrev pub Means : Solver → ℤ → Sig → Type 0
  Means s l sig = (μ : Assignment) → formula_val μ s ≡ true → lit_val μ l ≡ eval (reads env μ) sig

  pub record IsGood (e : Enc) : Type 0 where
    pub sound : IsSound e.solver
    pub env_known : (x : String) (l : ℤ) → env x ≡ some l → Known e.solver.n_vars l
    pub memo_ok :
        (i : ℕ) (l : ℤ) → find i e.memo ≡ some l → Known e.solver.n_vars l × Means e.solver l (D i)

  pub record Encoded (e : Enc) (sig : Sig) (result : Option (ℤ × Enc)) : Type 0 where
    pub lit : ℤ
    pub after : Enc
    pub returns : result ≡ some (lit, after)
    pub good : IsGood after
    pub extends : Extends e.solver after.solver
    pub known : Known after.solver.n_vars lit
    pub means : Means after.solver lit sig

  pub Means-later : {s t : Solver} (l : ℤ) (sig : Sig) → Extends s t → Means s l sig → Means t l sig
  Means-later l sig x m μ h = m μ (x.implies μ h)

  -- A larger formula keeps what the memo and the environment say.
  pub IsGood-later :
      (e : Enc) (t : Solver)
      → IsGood e
      → Extends e.solver t
      → IsSound t
      → IsGood (record e { solver = t })
  IsGood-later e t g x s = record {
    sound = s;
    env_known = λ n l h. Known-more l x.more_vars (g.env_known n l h);
    memo_ok = λ i l h.
        let (k, m) = g.memo_ok i l h in (Known-more l x.more_vars k, λ μ f. m μ (x.implies μ f));
  }

  pub IsGood-remember :
      (e : Enc) (i : ℕ) (l : ℤ) (sig : Sig)
      → IsGood e
      → D i ≡ sig
      → Known e.solver.n_vars l
      → Means e.solver l sig
      → IsGood (remember i l e)
  IsGood-remember e i l sig g d k m = record {
    sound = g.sound;
    env_known = g.env_known;
    memo_ok = λ j q h. elim (Bool-cases (i == j)) [
      | inl same ↦
          let lq : l ≡ q = ground (arith, h, same) in
          let dj : sig ≡ D j = sym d ∙ ap D ((==_iff i j).0 same) in
          (rw (← lq) k, λ μ f. ap (lit_val μ) (sym lq) ∙ m μ f ∙ ap (eval (reads env μ)) dj)
      | inr other ↦ g.memo_ok j q (ground (arith, h, other))
    ];
  }

  -- A gate whose clauses say that its output has the value `b`, which is that of the signal.
  pub record Defines (e : Enc) (sig : Sig) (clauses : ℤ → List (List ℤ)) (b : Assignment → Bool)
      : Type 0 where
    pub value : (μ : Assignment) → formula_val μ e.solver ≡ true → b μ ≡ eval (reads env μ) sig
    pub is_local : (μ ν : Assignment) → Agree e.solver.n_vars μ ν → b μ ≡ b ν
    pub mean :
        (μ : Assignment)
        → clauses_all μ (clauses (pos (next_var e))) ≡ iff_bool (lit_val μ (pos (next_var e))) (b μ)
    pub all_known : AllKnownClauses (next_var e) (clauses (pos (next_var e)))

  emit-Extends :
      (e : Enc) (sig : Sig) (clauses : ℤ → List (List ℤ)) (b : Assignment → Bool)
      → IsGood e
      → Defines e sig clauses b
      → (r : AddedAll (with_var e.solver) (clauses (pos (next_var e)))) → Extends e.solver r.after
  emit-Extends e sig clauses b g c r =
      let n = e.solver.n_vars in
      record {
        more_vars = omega (arith, r.same_vars);
        implies = λ μ h. ground (arith, sym (r.means μ) ∙ h, formula_val-with_var μ e.solver);
        conservative = λ μ h.
            let ν = update μ (suc n) (b μ) in
            let agree : Agree n μ ν = Agree-update μ n (b μ) in
            let old : formula_val ν (with_var e.solver) ≡ true =
              formula_val-with_var ν e.solver ∙ sym (g.sound.is_local μ ν agree) ∙ h in
            let out : lit_val ν (pos (suc n)) ≡ b μ = lit_val-update μ (suc n) (b μ) in
            let defined : clauses_all ν (clauses (pos (suc n))) ≡ true =
              c.mean ν ∙ ground (arith, out, c.is_local μ ν agree) in
            (ν, agree, r.means ν ∙ ap₂ ◌&&◌ old defined);
      }

  emit-Means :
      (e : Enc) (sig : Sig) (clauses : ℤ → List (List ℤ)) (b : Assignment → Bool)
      → Defines e sig clauses b
      → (r : AddedAll (with_var e.solver) (clauses (pos (next_var e))))
      → Means r.after (pos (next_var e)) sig
  emit-Means e sig clauses b c r μ h =
      let both : (formula_val μ (with_var e.solver) && clauses_all μ (clauses (pos (next_var e))))
          ≡ true =
        sym (r.means μ) ∙ h in
      let old : formula_val μ e.solver ≡ true =
        sym (formula_val-with_var μ e.solver) ∙ ground (arith, both) in
      let out : lit_val μ (pos (next_var e)) ≡ b μ = ground (arith, both, c.mean μ) in
      out ∙ c.value μ old

  pub emit-Encoded :
      (e : Enc) (i : ℕ) (sig : Sig) (clauses : ℤ → List (List ℤ)) (b : Assignment → Bool)
      → IsGood e
      → D i ≡ sig
      → Defines e sig clauses b
      → Encoded e sig (emit i clauses e)
  unfolding emit
  emit-Encoded e i sig clauses b g d c =
      let r =
        add_all-AddedAll (with_var e.solver) (clauses (pos (next_var e)))
          (with_var-IsSound e.solver g.sound) c.all_known in
      let x = emit-Extends e sig clauses b g c r in
      let m = emit-Means e sig clauses b c r in
      let k : Known r.after.n_vars (pos (next_var e)) = (omega arith, omega (arith, r.same_vars)) in
      record {
        lit = pos (next_var e);
        after = remember i (pos (next_var e)) (record e { solver = r.after });
        returns = rw (r.returns, emit) refl;
        good =
            IsGood-remember (record e { solver = r.after }) i (pos (next_var e)) sig
              (IsGood-later e r.after g x r.sound) d k m;
        extends = x;
        known = k;
        means = m;
      }
