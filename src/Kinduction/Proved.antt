-- ===== src/Kinduction/Proved.antt =====
-- kinduction.py, `k_induction`: a step query without a model closes the induction.
use emergent_hardware_verifi.Sat.Solve.{no_model}
use mathlib.Core.Option.{get_or}
use emergent_hardware_verifi.Tseitin.Gate.{reads}
use emergent_hardware_verifi.Sat.Solver.Start.{formula_val-new_solver}
use emergent_hardware_verifi.Sat.Solver.Meaning.{formula_val}
use emergent_hardware_verifi.Circuit.Meaning.{eval, Valuation}
use emergent_hardware_verifi.Sat.Solver.{new_solver, Solver}
use emergent_hardware_verifi.Circuit.Sig.{Sig}
use emergent_hardware_verifi.Circuit.Numbering.{Numbered}
use emergent_hardware_verifi.Prelude.{
  length, ◌≡◌, ◌∷◌, ◌∙◌, ℕ, true, sym, suc, some, refl, false, arith, ap, [], Option, List,
}
use emergent_hardware_verifi.Tseitin.Vars.{Known-neg}
use emergent_hardware_verifi.Bmc.Step.{Narrows-trans, Narrows-Extends, Narrows, IsFrame}
use emergent_hardware_verifi.Frame.{TransitionSystem, Env}
use emergent_hardware_verifi.Frame.Runs.{eval-SameNames, ReadsNames, CanEncode}
use emergent_hardware_verifi.Sat.Literal.{ℤ, neg, lit_val-neg, lit_val, Assignment}
use emergent_hardware_verifi.Bmc.Unroll.{reads-SameNames, AgreesAll, Agrees-later}
use emergent_hardware_verifi.Frame.Fresh.{Agrees}
use emergent_hardware_verifi.Tseitin.State.{new_solver-IsSound, Agree}
use emergent_hardware_verifi.Tseitin.NewVar.{add_clause-AddedOne, AddedOne}
use emergent_hardware_verifi.Kinduction.Window.{LastBad, IsClosed}
use emergent_hardware_verifi.Kinduction.Chain.{
  Freshes, AllFrames-narrow, AllFrames, AgreesAll-later, fresh_frames-Freshes, tie_frames-TiedAll,
}
use emergent_hardware_verifi.Kinduction.Loop.{fresh_frames, assert_step, step_frames}
use emergent_hardware_verifi.Kinduction.OneStep.{BadEncoded, encode_bad, bad_lit-returns}

-- What the assertions over frames keep of the chains of states.
pub record Asserted (ts : TransitionSystem) (bad : Sig) (env : Env) (envs : List Env) (s : Solver)
    (result : Option (List Env × Solver)) : Type 0 where
  pub frames : List Env
  pub after : Solver
  pub returns : result ≡ some (frames, after)
  pub every_chain :
      (μ : Assignment) (ρ : Valuation) (ρs : List Valuation)
      → formula_val μ s ≡ true
      → Agrees μ ρ env.lits
      → AgreesAll μ ρs envs
      → LastBad bad ρ ρs
      → (ν : Assignment) × (formula_val ν after ≡ true)

module _ (ts : TransitionSystem) (D : ℕ → Sig) (bad : Sig) (c : CanEncode ts D)
    (numbered : Numbered D bad) (names : ReadsNames ts bad) (has_bad : ts.bad ≡ some bad) where
  -- A frame's bad literal after its encoding, in a model that the encoding extends.
  bad_value :
      (env : Env) (s : Solver) (f : IsFrame ts D env s) (r : BadEncoded D bad env s)
      (μ ν : Assignment) (ρ : Valuation)
      → Agree s.n_vars μ ν
      → formula_val ν r.after.solver ≡ true
      → Agrees μ ρ env.lits
      → lit_val ν r.lit ≡ eval ρ bad
  bad_value env s f r μ ν ρ g m a =
      let a' = Agrees-later s.n_vars env.lits μ ν ρ f.good.env_known g a in
      r.means ν m
      ∙ eval-SameNames ts (reads env.lits ν) ρ (reads-SameNames ts D env s ν ρ f a') bad names

  asserted-Narrows :
      (env : Env) (s : Solver) (r : BadEncoded D bad env s) (lits : List ℤ)
      → (o : AddedOne r.after.solver lits) → Narrows s o.after
  asserted-Narrows env s r lits o = Narrows-trans (Narrows-Extends r.extends) (record {
    more_vars = omega (arith, o.same_vars);
    implies = λ μ h. ground (arith, sym (o.means μ) ∙ h);
  })

  assert_step-Asserted :
      (env : Env) (envs : List Env) (s : Solver)
      → IsFrame ts D env s
      → AllFrames ts D envs s
      → Asserted ts bad env envs s (assert_step ts env envs s)
  unfolding assert_step
  assert_step-Asserted env [] s f fs =
      let r = encode_bad ts D bad c numbered names env s f in
      let o = add_clause-AddedOne r.after.solver (r.lit ∷ []) r.good.sound (r.known, tt) in
      record {
        frames = record env { memo = r.after.memo } ∷ [];
        after = o.after;
        returns =
            rw (bad_lit-returns ts D bad c numbered names env s has_bad r, assert_step)
              (rw (o.returns, assert_step) refl);
        every_chain = λ μ ρ ρs m a b l. at_end r o μ ρ ρs m a b l;
      }
    where
      at_end :
          (r : BadEncoded D bad env s)
          → (o : AddedOne r.after.solver (r.lit ∷ []))
          → (μ : Assignment) (ρ : Valuation) (ρs : List Valuation) → formula_val μ s ≡ true
          → Agrees μ ρ env.lits
          → AgreesAll μ ρs []
          → LastBad bad ρ ρs
          → (ν : Assignment) × (formula_val ν o.after ≡ true)
      at_end r o μ ρ (σ ∷ σs) m a b l = absurd b
      at_end r o μ ρ [] m a b l =
          let (ν, g, k) = r.extends.conservative μ m in
          let is_bad : lit_val ν r.lit ≡ true = bad_value env s f r μ ν ρ g k a ∙ l in
          (ν, o.means ν ∙ ground (arith, k, is_bad))
  assert_step-Asserted env (next_frame ∷ envs) s f fs =
      let r = encode_bad ts D bad c numbered names env s f in
      let o =
        add_clause-AddedOne r.after.solver (neg r.lit ∷ []) r.good.sound
          (Known-neg r.after.solver.n_vars r.lit r.known, tt) in
      let fs' =
        AllFrames-narrow ts D (next_frame ∷ envs) s o.after fs
          (asserted-Narrows env s r (neg r.lit ∷ []) o) o.sound in
      let rest = assert_step-Asserted next_frame envs o.after fs'.0 fs'.1 in
      record {
        frames = record env { memo = r.after.memo } ∷ rest.frames;
        after = rest.after;
        returns =
            rw (bad_lit-returns ts D bad c numbered names env s has_bad r, assert_step)
              (rw (o.returns, assert_step) (rw (rest.returns, assert_step) refl));
        every_chain = λ μ ρ ρs m a b l. before_end r o rest μ ρ ρs m a b l;
      }
    where
      before_end :
          (r : BadEncoded D bad env s)
          → (o : AddedOne r.after.solver (neg r.lit ∷ []))
          → (rest : Asserted ts bad next_frame envs o.after
              (assert_step ts next_frame envs o.after))
          → (μ : Assignment) (ρ : Valuation) (ρs : List Valuation) → formula_val μ s ≡ true
          → Agrees μ ρ env.lits
          → AgreesAll μ ρs (next_frame ∷ envs)
          → LastBad bad ρ ρs
          → (ν : Assignment) × (formula_val ν rest.after ≡ true)
      before_end r o rest μ ρ [] m a b l = absurd b
      before_end r o rest μ ρ (σ ∷ σs) m a b l =
          let (ν, g, k) = r.extends.conservative μ m in
          let fine : lit_val ν r.lit ≡ false = bad_value env s f r μ ν ρ g k a ∙ l.0 in
          let asserted : formula_val ν o.after ≡ true =
            o.means ν ∙ ground (arith, k, fine, lit_val-neg ν r.lit r.known.0) in
          let b' = AgreesAll-later ts D (next_frame ∷ envs) s μ ν (σ ∷ σs) fs g b in
          rest.every_chain ν σ σs asserted b'.0 b'.1 l.1

  -- A chain of k good states and a bad one is a model of the step query.
  pub step_frames-IsClosed :
      (k : ℕ) (envs : List Env) (s : Solver)
      → step_frames ts k ≡ some (envs, s)
      → ((μ : Assignment) → formula_val μ s ≡ false)
      → IsClosed ts bad k
  unfolding step_frames
  step_frames-IsClosed k envs s built no_model ρ ρs len path last =
      let fr = fresh_frames-Freshes ts D (suc k) new_solver new_solver-IsSound in
      with_frames fr fr.envs fr.returns fr.frames (fr.free (ρ ∷ ρs) (ap suc len) (λ _. false))
    where
      with_frames :
          (fr : Freshes ts D (suc k) new_solver (fresh_frames ts (suc k) new_solver))
          → (es : List Env) → fresh_frames ts (suc k) new_solver ≡ some (es, fr.after)
          → AllFrames ts D es fr.after
          → (ν : Assignment) × Agree new_solver.n_vars (λ _. false) ν × AgreesAll ν (ρ ∷ ρs) es
          → ⊥
      with_frames fr [] e fs (ν, g, a) = absurd a
      with_frames fr (env ∷ rest) e fs (ν, g, a) =
          let t = tie_frames-TiedAll ts D c env rest fr.after fs.0 fs.1 in
          let q = assert_step-Asserted t.first t.rest t.after t.first_frame t.rest_frames in
          let m : formula_val ν fr.after ≡ true = fr.same_formula ν ∙ formula_val-new_solver ν in
          let (ξ, g2, m2) = t.every_path ν ρ ρs m a.0 a.1 path in
          let a' = AgreesAll-later ts D (env ∷ rest) fr.after ν ξ (ρ ∷ ρs) fs g2 a in
          let first' : Agrees ξ ρ t.first.lits = rw t.same_lits a'.0 in
          let (ζ, m3) = q.every_chain ξ ρ ρs m2 first' (t.keeps ξ ρs a'.1) last in
          let returned : step_frames ts k ≡ some (q.frames, q.after) =
            rw (e, step_frames) (rw (t.returns, step_frames) (q.returns)) in
          let same : q.after ≡ s =
            ap (λ (o : Option (List Env × Solver)). (get_or o (envs, s)).1)
              (sym returned ∙ built) in
          let m4 : formula_val ζ s ≡ true = ap (formula_val ζ) (sym same) ∙ m3 in
          let no : false ≡ true = sym (no_model ζ) ∙ m4 in cc

  -- The step query is built at every depth.
  pub step_frames-returns :
      (k : ℕ) → (result : List Env × Solver) × (step_frames ts k ≡ some result)
  unfolding step_frames
  step_frames-returns k =
      let fr = fresh_frames-Freshes ts D (suc k) new_solver new_solver-IsSound in
      from_frames fr fr.envs fr.returns fr.frames fr.count
    where
      from_frames :
          (fr : Freshes ts D (suc k) new_solver (fresh_frames ts (suc k) new_solver))
          → (es : List Env) → fresh_frames ts (suc k) new_solver ≡ some (es, fr.after)
          → AllFrames ts D es fr.after
          → length es ≡ suc k
          → (result : List Env × Solver) × (step_frames ts k ≡ some result)
      from_frames fr [] e fs n = absurd (omega (arith, n))
      from_frames fr (env ∷ rest) e fs n =
          let t = tie_frames-TiedAll ts D c env rest fr.after fs.0 fs.1 in
          let q = assert_step-Asserted t.first t.rest t.after t.first_frame t.rest_frames in
          ((q.frames, q.after), rw (e, step_frames) (rw (t.returns, step_frames) (q.returns)))
