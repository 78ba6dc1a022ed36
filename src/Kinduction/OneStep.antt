-- ===== src/Kinduction/OneStep.antt =====
-- The step query at k = 1 has a model exactly when the property is not 1-inductive.
use emergent_hardware_verifi.Tseitin.Correct.{tseitin-Encoded}
use emergent_hardware_verifi.Frame.Constrain.{reads-has}
use emergent_hardware_verifi.Kinduction.{one_step}
use emergent_hardware_verifi.Bmc.Tie.{next-value}
use emergent_hardware_verifi.Frame.Fresh.{listed}
use emergent_hardware_verifi.Sat.Solver.Start.{formula_val-new_solver}
use emergent_hardware_verifi.Sat.Solver.Meaning.{formula_val}
use emergent_hardware_verifi.Circuit.Meaning.{eval, Valuation}
use emergent_hardware_verifi.Frame.Next.{next_env-Stepped, Stepped}
use emergent_hardware_verifi.Sat.Solver.{new_solver, Solver}
use emergent_hardware_verifi.Circuit.Sig.{Sig}
use emergent_hardware_verifi.Circuit.Numbering.{Numbered}
use emergent_hardware_verifi.Tseitin.Vars.{Known-neg}
use emergent_hardware_verifi.Bmc.Step.{
  reads-Agree, IsFrame-narrow, IsFrame-CanStepAll, IsFrame-Bound, IsFrame,
}
use emergent_hardware_verifi.Frame.{next_env, fresh_frame, bad_lit, TransitionSystem, Env}
use emergent_hardware_verifi.Tseitin.Gate.{reads, Encoded}
use emergent_hardware_verifi.Frame.Runs.{
  eval-SameNames, SameNames, ReadsNames, IsStep, HasNexts-listed, HasAll-listed, CanEncode,
}
use emergent_hardware_verifi.Prelude.{
  ◌≡◌, ◌∷◌, ◌∙◌, ℕ, true, sym, some, refl, none, inr, inl, false, arith, ap, [], String, Option,
  List, Bool-cases,
}
use emergent_hardware_verifi.Sat.Literal.{ℤ, neg, lit_val-neg, lit_val, Assignment}
use emergent_hardware_verifi.Bmc.Unroll.{
  reads-SameNames, fresh_frame-FreshFrame, FreshFrame, Agrees-later,
}
use emergent_hardware_verifi.Tseitin.State.{new_solver-IsSound, IsSound, Agree}
use emergent_hardware_verifi.Tseitin.NewVar.{add_clause-AddedOne, AddedOne}
use emergent_hardware_verifi.Tseitin.{tseitin, Enc, find}

-- A counterexample to induction: a state with the property steps to one without.
pub record StepToBad (ts : TransitionSystem) (bad : Sig) : Type 0 where
  pub before : Valuation
  pub later : Valuation
  pub holds : eval before bad ≡ false
  pub step : IsStep ts before later
  pub fails : eval later bad ≡ true

pub record DecidesStep (ts : TransitionSystem) (bad : Sig) (result : Option (Env × Solver))
    : Type 0 where
  pub start : Env
  pub after : Solver
  pub returns : result ≡ some (start, after)
  pub sound : IsSound after
  pub sat_if_step : StepToBad ts bad → (μ : Assignment) × (formula_val μ after ≡ true)
  pub step_if_sat : (μ : Assignment) → formula_val μ after ≡ true → StepToBad ts bad

-- The state of an encoding within a frame.
abbrev pub at_frame : Env → Solver → Enc
at_frame env s = record { solver = s; memo = env.memo }

abbrev pub BadEncoded : (ℕ → Sig) → Sig → Env → Solver → Type 0
BadEncoded D bad env s =
    Encoded env.lits D (at_frame env s) bad (tseitin env.lits bad (at_frame env s))

module _ (ts : TransitionSystem) (D : ℕ → Sig) (bad : Sig) (c : CanEncode ts D)
    (numbered : Numbered D bad) (names : ReadsNames ts bad) where
  pub encode_bad : (env : Env) (s : Solver) → IsFrame ts D env s → BadEncoded D bad env s
  encode_bad env s f =
      tseitin-Encoded env.lits D bad (at_frame env s) numbered
        (IsFrame-Bound ts D env s f bad names) f.good

  pub bad_lit-returns :
      (env : Env) (s : Solver)
      → ts.bad ≡ some bad
      → (r : BadEncoded D bad env s)
      → bad_lit ts env s ≡ some ((r.lit, record env { memo = r.after.memo }), r.after.solver)
  unfolding bad_lit
  bad_lit-returns env s h r = rw (h, bad_lit) (rw (r.returns, bad_lit) refl)

  -- The frame after its bad literal is encoded and a clause over it is added.
  pub after_bad-IsFrame :
      (env : Env) (s : Solver) (lits : List ℤ)
      → IsFrame ts D env s
      → (r : BadEncoded D bad env s) → (o : AddedOne r.after.solver lits)
      → IsFrame ts D (record env { memo = r.after.memo }) o.after
  after_bad-IsFrame env s lits f r o =
      let env' : Env = record env { memo = r.after.memo } in
      IsFrame-narrow ts D env' r.after.solver o.after
        (record { good = r.good; has_state = f.has_state; has_inputs = f.has_inputs })
        (record {
          more_vars = omega (arith, o.same_vars);
          implies = λ μ h. ground (arith, sym (o.means μ) ∙ h);
        })
        o.sound

  -- The names that next_env binds are a frame of their own.
  next-IsFrame :
      (env : Env) (s : Solver)
      → (st : Stepped ts D env s (next_env ts env s)) → IsFrame ts D st.nxt st.after
  next-IsFrame env s st = record {
    good = record {
      sound = st.good.sound;
      env_known = st.known;
      memo_ok = λ i l e. let none_l : none ≡ some l = ap (find i) (sym st.new_memo) ∙ e in cc;
    };
    has_state = st.has_state;
    has_inputs = st.has_inputs;
  }

  module _ (a : FreshFrame ts D new_solver (fresh_frame ts new_solver))
      (r0 : BadEncoded D bad a.env a.after) (one : AddedOne r0.after.solver (neg r0.lit ∷ []))
      (st : Stepped ts D
        (record a.env { memo = r0.after.memo })
        one.after
        (next_env ts (record a.env { memo = r0.after.memo }) one.after))
      (r1 : BadEncoded D bad st.nxt st.after) (two : AddedOne r1.after.solver (r1.lit ∷ [])) where
    model-StepToBad : (μ : Assignment) → formula_val μ two.after ≡ true → StepToBad ts bad
    model-StepToBad μ m =
        let last = sym (two.means μ) ∙ m in
        let m1 : formula_val μ r1.after.solver ≡ true = ground (arith, last) in
        let is_bad : lit_val μ r1.lit ≡ true = ground (arith, last) in
        let ms = r1.extends.implies μ m1 in
        let first = sym (one.means μ) ∙ st.extends.implies μ ms in
        let m0 : formula_val μ r0.after.solver ≡ true = ground (arith, first) in
        let not_bad : lit_val μ r0.lit ≡ false =
          ground (arith, first, lit_val-neg μ r0.lit r0.known.0) in
        record {
          before = reads a.env.lits μ;
          later = reads st.nxt.lits μ;
          holds = sym (r0.means μ m0) ∙ not_bad;
          step = next-value ts D c (record a.env { memo = r0.after.memo }) one.after st μ ms;
          fails = sym (r1.means μ m1) ∙ is_bad;
        }

    -- The names of the second frame read as the later valuation.
    later-SameNames :
        (b : StepToBad ts bad) (μ : Assignment)
        → formula_val μ st.after ≡ true
        → SameNames ts (reads a.env.lits μ) b.before
        → ((x : String) (l : ℤ)
            → listed x ts.inputs ≡ true
            → st.nxt.lits x ≡ some l
            → lit_val μ l ≡ b.later x)
        → SameNames ts (reads st.nxt.lits μ) b.later
    later-SameNames b μ m same filled x h = elim (Bool-cases (listed x ts.state)) [
      | inl e ↦
          let (sig, n, _, sig_names) = HasNexts-listed ts D ts.state x c.has_nexts e in
          next-value ts D c (record a.env { memo = r0.after.memo }) one.after st μ m x e sig n
          ∙ eval-SameNames ts (reads a.env.lits μ) b.before same sig sig_names
          ∙ sym (b.step x e sig n)
      | inr e ↦
          let input : listed x ts.inputs ≡ true = ground (arith, h, e) in
          let (l, el) = HasAll-listed st.nxt.lits ts.inputs x st.has_inputs input in
          reads-has st.nxt.lits μ x l el ∙ filled x l input el
    ]

    StepToBad-model : StepToBad ts bad → (μ : Assignment) × (formula_val μ two.after ≡ true)
    StepToBad-model b =
        let μ : Assignment = λ _. false in
        let (ν, g, k1) = a.free b.before μ in
        let ma : formula_val ν a.after ≡ true = a.same_formula ν ∙ formula_val-new_solver ν in
        let (ν0, g0, m0) = r0.extends.conservative ν ma in
        let known = a.frame.good.env_known in
        let k0 = Agrees-later a.after.n_vars a.env.lits ν ν0 b.before known g0 k1 in
        let same0 = reads-SameNames ts D a.env a.after ν0 b.before a.frame k0 in
        let not_bad : lit_val ν0 r0.lit ≡ false =
          r0.means ν0 m0
          ∙ eval-SameNames ts (reads a.env.lits ν0) b.before same0 bad names
          ∙ b.holds in
        let mo : formula_val ν0 one.after ≡ true =
          one.means ν0 ∙ ground (arith, m0, not_bad, lit_val-neg ν0 r0.lit r0.known.0) in
        let (ν1, g1, m1, filled) = st.fill b.later ν0 mo in
        let g1' : Agree a.after.n_vars ν0 ν1 =
          λ v lo hi. g1 v lo (omega (arith, r0.extends.more_vars, one.same_vars)) in
        let k2 = Agrees-later a.after.n_vars a.env.lits ν0 ν1 b.before known g1' k0 in
        let same1 = reads-SameNames ts D a.env a.after ν1 b.before a.frame k2 in
        let same = later-SameNames b ν1 m1 same1 filled in
        let (ν2, g2, m2) = r1.extends.conservative ν1 m1 in
        let again = reads-Agree st.after.n_vars st.nxt.lits ν1 ν2 st.known g2 in
        let is_bad : lit_val ν2 r1.lit ≡ true =
          r1.means ν2 m2
          ∙ eval-SameNames ts (reads st.nxt.lits ν2) b.later (λ x h. sym (again x) ∙ same x h) bad
              names
          ∙ b.fails in
        (ν2, two.means ν2 ∙ ground (arith, m2, is_bad))

  -- For a system whose state bits have reset values and next-state functions over its own names,
  -- with unambiguous node ids and inputs apart from the state bits, and whose bad signal is one
  -- over its names too, the one-step query is built, and it has a model exactly when some
  -- valuation with the property steps to one without it.
  pub one_step-DecidesStep : ts.bad ≡ some bad → DecidesStep ts bad (one_step ts)
  unfolding one_step
  one_step-DecidesStep has_bad =
      let a = fresh_frame-FreshFrame ts D new_solver new_solver-IsSound in
      let r0 = encode_bad a.env a.after a.frame in
      let one =
        add_clause-AddedOne r0.after.solver (neg r0.lit ∷ []) r0.good.sound
          (Known-neg r0.after.solver.n_vars r0.lit r0.known, tt) in
      let env1 : Env = record a.env { memo = r0.after.memo } in
      let f1 = after_bad-IsFrame a.env a.after (neg r0.lit ∷ []) a.frame r0 one in
      let st =
        next_env-Stepped ts D env1 one.after f1.good
          (IsFrame-CanStepAll ts D env1 one.after f1 ts.state c.has_nexts) in
      let r1 = encode_bad st.nxt st.after (next-IsFrame env1 one.after st) in
      let two = add_clause-AddedOne r1.after.solver (r1.lit ∷ []) r1.good.sound (r1.known, tt) in
      record {
        start = st.env';
        after = two.after;
        returns =
            rw (a.returns, one_step)
              (rw (bad_lit-returns a.env a.after has_bad r0, one_step)
                (rw (one.returns, one_step)
                  (rw (st.returns, one_step)
                    (rw (bad_lit-returns st.nxt st.after has_bad r1, one_step)
                      (rw (two.returns, one_step) refl)))));
        sound = two.sound;
        sat_if_step = StepToBad-model a r0 one st r1 two;
        step_if_sat = model-StepToBad a r0 one st r1 two;
      }
