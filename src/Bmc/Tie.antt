-- ===== src/Bmc/Tie.antt =====
-- bmc.py `tie`: the models of the new formula are those in which the second frame follows the first.
use emergent_hardware_verifi.Tseitin.{LitEnv}
use emergent_hardware_verifi.Bmc.{tie}
use emergent_hardware_verifi.Tseitin.Gate.{reads}
use emergent_hardware_verifi.Sat.Solver.Meaning.{formula_val}
use emergent_hardware_verifi.Circuit.Meaning.{eval}
use emergent_hardware_verifi.Frame.Next.{next_env-Stepped, Stepped}
use emergent_hardware_verifi.Sat.Solver.{Solver}
use emergent_hardware_verifi.Circuit.Sig.{Sig}
use emergent_hardware_verifi.Prelude.{
  ◌&&◌, ◌≡◌, ◌∙◌, ℕ, true, sym, some, refl, arith, ap₂, ap, String, Option,
}
use emergent_hardware_verifi.Bmc.Step.{
  same_on-true, same_on-listed, reads-Agree, Narrows-trans, Narrows-Extends, Narrows-Constrained,
  Narrows, IsFrame-narrow, IsFrame-CanStepAll, IsFrame,
}
use emergent_hardware_verifi.Frame.Fresh.{listed, EnvKnown}
use emergent_hardware_verifi.Frame.{tie_lits, next_env, TransitionSystem, Env}
use emergent_hardware_verifi.Frame.Constrain.{tie_lits-Constrained, same_on, reads-has, Constrained}
use emergent_hardware_verifi.Frame.Runs.{
  eval-SameNames, IsStep, HasNexts-listed, HasAll-listed, CanEncode,
}
use emergent_hardware_verifi.Sat.Literal.{Assignment}
use emergent_hardware_verifi.Tseitin.State.{Known-more, IsSound, Agree}

pub record Tied (ts : TransitionSystem) (D : ℕ → Sig) (from to : Env) (s : Solver)
    (result : Option (Env × Solver)) : Type 0 where
  pub from' : Env
  pub after : Solver
  pub returns : result ≡ some (from', after)
  pub same_lits : from'.lits ≡ from.lits
  pub sound : IsSound after
  pub narrows : Narrows s after
  pub from_frame : IsFrame ts D from' after
  pub to_frame : IsFrame ts D to after
  pub is_step :
      (μ : Assignment)
      → formula_val μ after ≡ true
      → IsStep ts (reads from.lits μ) (reads to.lits μ)
  pub every_step :
      (μ : Assignment)
      → formula_val μ s ≡ true
      → IsStep ts (reads from.lits μ) (reads to.lits μ)
      → (ν : Assignment) × Agree s.n_vars μ ν × (formula_val ν after ≡ true)

same_env : (e : Env) (lits : LitEnv) → e.lits ≡ lits → e ≡ record { lits = lits; memo = e.memo }
same_env e lits h = ap (λ (l : LitEnv). record { lits = l; memo = e.memo }) h

-- A state name's next-state literal has the value of its function.
pub next-value :
    (ts : TransitionSystem) (D : ℕ → Sig)
    → CanEncode ts D
    → (from : Env) (s : Solver) (r : Stepped ts D from s (next_env ts from s)) → (μ : Assignment)
    → formula_val μ r.after ≡ true
    → (x : String) → listed x ts.state ≡ true
    → (sig : Sig) → ts.next x ≡ some sig
    → reads r.nxt.lits μ x ≡ eval (reads from.lits μ) sig
next-value ts D c from s r μ h x e sig n =
    let (l, el) = HasAll-listed r.nxt.lits ts.state x r.has_state e in
    let (_, sig', n', m) = r.means x l (c.apart x e) el in
    let q : sig' ≡ sig = ground (arith, n, n') in
    reads-has r.nxt.lits μ x l el ∙ m μ h ∙ ap (eval (reads from.lits μ)) q

module _ (ts : TransitionSystem) (D : ℕ → Sig) (c : CanEncode ts D) (from to : Env) (s : Solver)
    (ff : IsFrame ts D from s) (ft : IsFrame ts D to s) where
  tied-IsStep :
      (r : Stepped ts D from s (next_env ts from s))
      → (t : Constrained r.after
          (λ μ. same_on (reads r.nxt.lits μ) (reads to.lits μ) ts.state)
          (tie_lits r.nxt.lits to.lits ts.state r.after))
      → (μ : Assignment) → formula_val μ t.after ≡ true
      → IsStep ts (reads from.lits μ) (reads to.lits μ)
  tied-IsStep r t μ h x e sig n =
      let both = sym (t.means μ) ∙ h in
      let here : same_on (reads r.nxt.lits μ) (reads to.lits μ) ts.state ≡ true =
        ground (arith, both) in
      let old : formula_val μ r.after ≡ true = ground (arith, both) in
      sym (same_on-listed (reads r.nxt.lits μ) (reads to.lits μ) ts.state x here e)
      ∙ next-value ts D c from s r μ old x e sig n

  tied-every_IsStep :
      (r : Stepped ts D from s (next_env ts from s))
      → (t : Constrained r.after
          (λ μ. same_on (reads r.nxt.lits μ) (reads to.lits μ) ts.state)
          (tie_lits r.nxt.lits to.lits ts.state r.after))
      → (μ : Assignment) → formula_val μ s ≡ true
      → IsStep ts (reads from.lits μ) (reads to.lits μ)
      → (ν : Assignment) × Agree s.n_vars μ ν × (formula_val ν t.after ≡ true)
  tied-every_IsStep r t μ h st =
      let (ν, a, k) = r.extends.conservative μ h in
      let from_same = reads-Agree s.n_vars from.lits μ ν ff.good.env_known a in
      let to_same = reads-Agree s.n_vars to.lits μ ν ft.good.env_known a in
      let same : same_on (reads r.nxt.lits ν) (reads to.lits ν) ts.state ≡ true =
        same_on-true (reads r.nxt.lits ν) (reads to.lits ν) ts.state (λ x e.
          let (sig, n, _, names) = HasNexts-listed ts D ts.state x c.has_nexts e in
          next-value ts D c from s r ν k x e sig n
          ∙ sym (
              eval-SameNames ts (reads from.lits μ) (reads from.lits ν) (λ y _. from_same y) sig
                names)
          ∙ sym (st x e sig n)
          ∙ to_same x) in
      (ν, a, t.means ν ∙ ap₂ ◌&&◌ k same)

  -- Tying two frames of a sound solver returns; both stay frames, in every model of the new formula
  -- the second frame's state follows from the first's values, and every model of the old formula in
  -- which it does extends by new variables to a model of the new one.
  pub tie-Tied : Tied ts D from to s (tie ts from to s)
  unfolding tie
  tie-Tied =
      let r =
        next_env-Stepped ts D from s ff.good
          (IsFrame-CanStepAll ts D from s ff ts.state c.has_nexts) in
      let to_known : EnvKnown r.after.n_vars to.lits =
        λ x l e. Known-more l r.extends.more_vars (ft.good.env_known x l e) in
      let t =
        tie_lits-Constrained r.nxt.lits to.lits ts.state r.after r.good.sound r.known to_known
          r.has_state ft.has_state in
      let last = Narrows-Constrained t in
      let all_narrow = Narrows-trans (Narrows-Extends r.extends) last in
      let mid : IsFrame ts D (record { lits = from.lits; memo = r.env'.memo }) r.after = record {
        good = r.good;
        has_state = ff.has_state;
        has_inputs = ff.has_inputs;
      } in
      record {
        from' = record { lits = from.lits; memo = r.env'.memo };
        after = t.after;
        returns =
            rw (r.returns, tie)
              (rw (t.returns, tie)
                (ap (λ e. some (e, t.after)) (same_env r.env' from.lits r.same_lits)));
        same_lits = refl;
        sound = t.sound;
        narrows = all_narrow;
        from_frame =
            IsFrame-narrow ts D (record { lits = from.lits; memo = r.env'.memo }) r.after t.after
              mid last t.sound;
        to_frame = IsFrame-narrow ts D to s t.after ft all_narrow t.sound;
        is_step = tied-IsStep r t;
        every_step = tied-every_IsStep r t;
      }
