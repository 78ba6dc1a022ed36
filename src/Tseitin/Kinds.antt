-- ===== src/Tseitin/Kinds.antt =====
-- Each kind of gate, from the meanings of its inputs' literals.
use emergent_hardware_verifi.Tseitin.Clauses.{
  xor_clauses-mean, or_clauses-mean, lit_vals, ite_clauses-mean, and_clauses-mean,
}
use emergent_hardware_verifi.Tseitin.Vars.{
  xor_clauses-known, or_clauses-known, ite_clauses-known, and_clauses-known,
}
use emergent_hardware_verifi.Circuit.Ternary.Rules.{eval_list, any-eval_list, all-eval_list}
use emergent_hardware_verifi.Circuit.Meaning.{eval, any, all}
use emergent_hardware_verifi.Circuit.Sig.{xor, or, ite, and, Sigs, Sig}
use emergent_hardware_verifi.Tseitin.{
  xor_clauses, or_clauses, ite_clauses, and_clauses, LitEnv, Enc,
}
use emergent_hardware_verifi.Tseitin.Gate.{reads, next_var, Means, Defines}
use emergent_hardware_verifi.Prelude.{
  ◌≡◌, ◌∙◌, ℕ, xor_bool, true, refl, if◌then◌else◌, arith, ap₂, ap, List, Bool,
}
use emergent_hardware_verifi.Sat.Literal.{ℤ, pos, lit_val, Assignment}
use emergent_hardware_verifi.Tseitin.State.{
  lit_vals-Agree, lit_val-Agree, Known-more, AllKnown-more,
}
use emergent_hardware_verifi.Sat.Solver.Meaning.{formula_val, Known, AllKnown}

module _ (env : LitEnv) (D : ℕ → Sig) (e : Enc) where
  out_known : Known (next_var e) (pos (next_var e))
  out_known = omega arith

  -- The literals have the values of the signals, in every model.
  abbrev pub MeanAll : List ℤ → Sigs → Type 0
  MeanAll ls xs =
      (μ : Assignment) → formula_val μ e.solver ≡ true → lit_vals μ ls ≡ eval_list (reads env μ) xs

  pub and_Defines :
      (i : ℕ) (xs : Sigs) (ls : List ℤ)
      → AllKnown e.solver.n_vars ls
      → MeanAll ls xs
      → Defines env D e (and i xs) (and_clauses ls) (λ μ. all (lit_vals μ ls))
  unfolding eval
  and_Defines i xs ls k m =
      let k' = AllKnown-more ls (omega arith) k in
      record {
        value = λ μ h. ap (λ l. all l) (m μ h) ∙ all-eval_list (reads env μ) xs;
        is_local = λ μ ν a. ap (λ l. all l) (lit_vals-Agree e.solver.n_vars μ ν ls a k);
        mean = λ μ. and_clauses-mean μ (next_var e) (pos (next_var e)) out_known ls k';
        all_known = and_clauses-known (next_var e) (pos (next_var e)) out_known ls k';
      }

  pub or_Defines :
      (i : ℕ) (xs : Sigs) (ls : List ℤ)
      → AllKnown e.solver.n_vars ls
      → MeanAll ls xs
      → Defines env D e (or i xs) (or_clauses ls) (λ μ. any (lit_vals μ ls))
  unfolding eval
  or_Defines i xs ls k m =
      let k' = AllKnown-more ls (omega arith) k in
      record {
        value = λ μ h. ap (λ l. any l) (m μ h) ∙ any-eval_list (reads env μ) xs;
        is_local = λ μ ν a. ap (λ l. any l) (lit_vals-Agree e.solver.n_vars μ ν ls a k);
        mean = λ μ. or_clauses-mean μ (next_var e) (pos (next_var e)) out_known ls k';
        all_known = or_clauses-known (next_var e) (pos (next_var e)) out_known ls k';
      }

  pub xor_Defines :
      (i : ℕ) (a b : Sig) (la lb : ℤ)
      → Known e.solver.n_vars la
      → Known e.solver.n_vars lb
      → Means env D e.solver la a
      → Means env D e.solver lb b
      → Defines env D e
          (xor i a b)
          (xor_clauses la lb)
          (λ μ. xor_bool (lit_val μ la) (lit_val μ lb))
  unfolding eval
  xor_Defines i a b la lb ka kb ma mb =
      let n = e.solver.n_vars in
      let ka' = Known-more la (omega arith) ka in
      let kb' = Known-more lb (omega arith) kb in
      record {
        value = λ μ h. ap₂ xor_bool (ma μ h) (mb μ h);
        is_local =
            λ μ ν g. ap₂ xor_bool (lit_val-Agree n μ ν la g ka) (lit_val-Agree n μ ν lb g kb);
        mean = λ μ. xor_clauses-mean μ (next_var e) (pos (next_var e)) out_known la lb ka' kb';
        all_known = xor_clauses-known (next_var e) (pos (next_var e)) out_known la lb ka' kb';
      }

  ite-cong :
      (a b c x y z : Bool) → a ≡ x → b ≡ y → c ≡ z → (if a then b else c) ≡ (if x then y else z)
  ite-cong a b c x y z p q r = rw (p, q, r) refl

  pub ite_Defines :
      (i : ℕ) (c t f : Sig) (lc lt lf : ℤ)
      → Known e.solver.n_vars lc
      → Known e.solver.n_vars lt
      → Known e.solver.n_vars lf
      → Means env D e.solver lc c
      → Means env D e.solver lt t
      → Means env D e.solver lf f
      → Defines env D e
          (ite i c t f)
          (ite_clauses lc lt lf)
          (λ μ. if lit_val μ lc then lit_val μ lt else lit_val μ lf)
  unfolding eval
  ite_Defines i c t f lc lt lf kc kt kf mc mt mf =
      let n = e.solver.n_vars in
      let kc' = Known-more lc (omega arith) kc in
      let kt' = Known-more lt (omega arith) kt in
      let kf' = Known-more lf (omega arith) kf in
      record {
        value = λ μ h. ite-cong _ _ _ _ _ _ (mc μ h) (mt μ h) (mf μ h);
        is_local = λ μ ν g.
            ite-cong _ _ _ _ _ _ (lit_val-Agree n μ ν lc g kc) (lit_val-Agree n μ ν lt g kt)
              (lit_val-Agree n μ ν lf g kf);
        mean =
            λ μ. ite_clauses-mean μ (next_var e) (pos (next_var e)) out_known lc lt lf kc' kt' kf';
        all_known =
            ite_clauses-known (next_var e) (pos (next_var e)) out_known lc lt lf kc' kt' kf';
      }
