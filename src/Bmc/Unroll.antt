-- ===== src/Bmc/Unroll.antt =====
-- bmc.py `unroll`: the models of the unrolled formula are the runs of the system.
use emergent_hardware_verifi.Bmc.{unroll_from, tie}
use emergent_hardware_verifi.Frame.Constrain.{reads-has}
use emergent_hardware_verifi.Tseitin.Gate.{reads}
use emergent_hardware_verifi.Sat.Solver.Meaning.{formula_val}
use emergent_hardware_verifi.Circuit.Meaning.{Valuation}
use emergent_hardware_verifi.Bmc.Tie.{tie-Tied, Tied}
use emergent_hardware_verifi.Sat.Solver.{Solver}
use emergent_hardware_verifi.Circuit.Sig.{Sig}
use emergent_hardware_verifi.Tseitin.{LitEnv}
use emergent_hardware_verifi.Prelude.{
  get_elem?, ◌≡◌, ◌∷◌, ◌∙◌, ℕ, zero, true, sym, suc, some, refl, none, length, arith, ap, [],
  Option, List,
}
use emergent_hardware_verifi.Bmc.Step.{
  reads-Agree, Narrows-trans, Narrows-Extends, Narrows, IsFrame-narrow, IsFrame-Has, IsFrame,
}
use emergent_hardware_verifi.Frame.Next.{HasAll-still, Fresh-Extends}
use emergent_hardware_verifi.Frame.{fresh_frame, TransitionSystem, Env}
use emergent_hardware_verifi.Frame.Runs.{
  eval-SameNames, SameNames, ReadsNames, IsStep, IsPathFrom-SameNames, IsPathFrom, HasNexts-listed,
  CanEncode,
}
use emergent_hardware_verifi.Sat.Literal.{Assignment}
use emergent_hardware_verifi.Frame.Fresh.{bind_fresh-Fresh, EnvKnown, Agrees}
use emergent_hardware_verifi.Tseitin.State.{lit_val-Agree, IsSound, Agree}

pub record FreshFrame (ts : TransitionSystem) (D : ℕ → Sig) (s : Solver)
    (result : Option (Env × Solver)) : Type 0 where
  pub env : Env
  pub after : Solver
  pub returns : result ≡ some (env, after)
  pub frame : IsFrame ts D env after
  pub narrows : Narrows s after
  pub same_formula : (μ : Assignment) → formula_val μ after ≡ formula_val μ s
  pub free :
      (ρ : Valuation) (μ : Assignment) → (ν : Assignment) × Agree s.n_vars μ ν × Agrees ν ρ env.lits

-- A new frame of a sound solver has every name of the system; it leaves the formula as it is, and
-- every assignment extends, by new variables alone, to one that gives the names any chosen values.
pub fresh_frame-FreshFrame :
    (ts : TransitionSystem) (D : ℕ → Sig) (s : Solver)
    → IsSound s
    → FreshFrame ts D s (fresh_frame ts s)
unfolding fresh_frame
fresh_frame-FreshFrame ts D s h =
    let a = bind_fresh-Fresh ts.state (λ _. none) s h (λ x l e. cc) in
    let b = bind_fresh-Fresh ts.inputs a.env' a.after a.sound a.known in
    record {
      env = record { lits = b.env'; memo = [] };
      after = b.after;
      returns = rw (a.returns, fresh_frame) (rw (b.returns, fresh_frame) refl);
      frame = record {
        good = record { sound = b.sound; env_known = b.known; memo_ok = λ i l e. cc };
        has_state = HasAll-still a.env' b.env' ts.state b.still_has a.has_all;
        has_inputs = b.has_all;
      };
      narrows =
          Narrows-trans (Narrows-Extends (Fresh-Extends a)) (Narrows-Extends (Fresh-Extends b));
      same_formula = λ μ. b.same_formula μ ∙ a.same_formula μ;
      free = λ ρ μ.
          let (ν, g, k) = a.free ρ μ (λ x l e. cc) in
          let (ξ, g', k') = b.free ρ ν k in
          (ξ, (λ v lo hi. g v lo hi ∙ g' v lo (omega (arith, a.more_vars))), k');
    }

-- The frames under an assignment.
abbrev pub views : Assignment → List Env → List Valuation
views μ [] = []
views μ (e ∷ es) = reads e.lits μ ∷ views μ es

-- Frame by frame, the names read as the valuations say.
abbrev pub AgreesAll : Assignment → List Valuation → List Env → Type 0
AgreesAll μ (ρ ∷ ρs) (e ∷ es) = Agrees μ ρ e.lits × AgreesAll μ ρs es
AgreesAll μ [] [] = Unit {0}
AgreesAll μ _ _ = ⊥

pub record Continued (ts : TransitionSystem) (D : ℕ → Sig) (k : ℕ) (last : Env) (s : Solver)
    (result : Option (List Env × Solver)) : Type 0 where
  pub first : Env
  pub rest : List Env
  pub after : Solver
  pub returns : result ≡ some (first ∷ rest, after)
  pub same_lits : first.lits ≡ last.lits
  pub sound : IsSound after
  pub narrows : Narrows s after
  pub count : length rest ≡ k
  pub final : Env
  pub at_end : get_elem? (first ∷ rest) k ≡ some final
  pub final_frame : IsFrame ts D final after
  pub is_path :
      (μ : Assignment)
      → formula_val μ after ≡ true
      → IsPathFrom ts (reads last.lits μ) (views μ rest)
  pub every_path :
      (μ : Assignment) (ρs : List Valuation)
      → formula_val μ s ≡ true
      → length ρs ≡ k
      → IsPathFrom ts (reads last.lits μ) ρs
      → (ν : Assignment) × Agree s.n_vars μ ν × (formula_val ν after ≡ true) × AgreesAll ν ρs rest

-- What a frame shows of a valuation that its literals follow.
pub reads-SameNames :
    (ts : TransitionSystem) (D : ℕ → Sig) (env : Env) (s : Solver) (μ : Assignment) (ρ : Valuation)
    → IsFrame ts D env s
    → Agrees μ ρ env.lits
    → SameNames ts (reads env.lits μ) ρ
reads-SameNames ts D env s μ ρ f a x h =
    let (l, e) = IsFrame-Has ts D env s f x h in reads-has env.lits μ x l e ∙ a x l e

-- Values that an environment reads stay when the assignment changes beyond its variables.
pub Agrees-later :
    (n : ℕ) (env : LitEnv) (μ ν : Assignment) (ρ : Valuation)
    → EnvKnown n env
    → Agree n μ ν
    → Agrees μ ρ env
    → Agrees ν ρ env
Agrees-later n env μ ν ρ k g a x l e = sym (lit_val-Agree n μ ν l g (k x l e)) ∙ a x l e

module _ (ts : TransitionSystem) (D : ℕ → Sig) (c : CanEncode ts D) where
  -- A step from old values to the values of a fresh frame.
  IsStep-fresh :
      (last env : Env) (s t : Solver) (μ ν : Assignment) (ρ : Valuation)
      → IsFrame ts D last s
      → IsFrame ts D env t
      → Agree s.n_vars μ ν
      → Agrees ν ρ env.lits
      → IsStep ts (reads last.lits μ) ρ
      → IsStep ts (reads last.lits ν) (reads env.lits ν)
  IsStep-fresh last env s t μ ν ρ fl fe g a st x e sig n =
      let (sig', n', _, names) = HasNexts-listed ts D ts.state x c.has_nexts e in
      let q : sig' ≡ sig = ground (arith, n, n') in
      let names' : ReadsNames ts sig = rw (← q) names in
      reads-SameNames ts D env t ν ρ fe a x (ground (arith, e))
      ∙ st x e sig n
      ∙ eval-SameNames ts (reads last.lits μ) (reads last.lits ν)
          (λ y _. reads-Agree s.n_vars last.lits μ ν fl.good.env_known g y) sig names'

  pub unroll_from-Continued :
      (k : ℕ) (last : Env) (s : Solver)
      → IsFrame ts D last s
      → Continued ts D k last s (unroll_from ts k last s)
  unfolding unroll_from
  unroll_from-Continued zero last s f = record {
    first = last;
    rest = [];
    after = s;
    returns = refl;
    same_lits = refl;
    sound = f.good.sound;
    narrows = record { more_vars = omega arith; implies = λ μ h. h };
    count = refl;
    final = last;
    at_end = refl;
    final_frame = f;
    is_path = λ μ h. tt;
    every_path = λ μ ρs h n p. no_more μ ρs h n;
  }
    where
      no_more :
          (μ : Assignment) (ρs : List Valuation)
          → formula_val μ s ≡ true
          → length ρs ≡ 0
          → (ν : Assignment) × Agree s.n_vars μ ν × (formula_val ν s ≡ true) × AgreesAll ν ρs []
      no_more μ [] h n = (μ, (λ v lo hi. refl), h, tt)
      no_more μ (ρ ∷ ρs) h n = absurd (omega (arith, n))
  unroll_from-Continued (suc k) last s f =
      let a = fresh_frame-FreshFrame ts D s f.good.sound in
      let fl = IsFrame-narrow ts D last s a.after f a.narrows a.frame.good.sound in
      let t = tie-Tied ts D c last a.env a.after fl a.frame in
      let r = unroll_from-Continued k a.env t.after t.to_frame in
      let to_end = Narrows-trans (Narrows-trans a.narrows t.narrows) r.narrows in
      record {
        first = t.from';
        rest = r.first ∷ r.rest;
        after = r.after;
        returns =
            rw (a.returns, unroll_from)
              (rw (t.returns, unroll_from) (rw (r.returns, unroll_from) refl));
        same_lits = t.same_lits;
        sound = r.sound;
        narrows = to_end;
        count = ap suc r.count;
        final = r.final;
        at_end = r.at_end;
        final_frame = r.final_frame;
        is_path = λ μ h.
            let st = t.is_step μ (r.narrows.implies μ h) in
            let same : reads r.first.lits μ ≡ reads a.env.lits μ =
              ap (λ l. reads l μ) r.same_lits in
            rw same (st, r.is_path μ h);
        every_path = λ μ ρs h n p. extend a t r fl μ ρs h n p;
      }
    where
      extend :
          (a : FreshFrame ts D s (fresh_frame ts s))
          → (t : Tied ts D last a.env a.after (tie ts last a.env a.after))
          → (r : Continued ts D k a.env t.after (unroll_from ts k a.env t.after))
          → IsFrame ts D last a.after
          → (μ : Assignment) (ρs : List Valuation) → formula_val μ s ≡ true
          → length ρs ≡ suc k
          → IsPathFrom ts (reads last.lits μ) ρs
          → (ν : Assignment) × Agree s.n_vars μ ν
            × (formula_val ν r.after ≡ true)
            × AgreesAll ν ρs (r.first ∷ r.rest)
      extend a t r fl μ [] h n p = absurd (omega (arith, n))
      extend a t r fl μ (ρ ∷ ρs) h n p =
          let (ν, g, k1) = a.free ρ μ in
          let old : formula_val ν a.after ≡ true =
            a.same_formula ν ∙ sym (f.good.sound.is_local μ ν g) ∙ h in
          let st = IsStep-fresh last a.env s a.after μ ν ρ f a.frame g k1 p.0 in
          let (ξ, g2, m2) = t.every_step ν old st in
          let k2 = Agrees-later a.after.n_vars a.env.lits ν ξ ρ a.frame.good.env_known g2 k1 in
          let path : IsPathFrom ts (reads a.env.lits ξ) ρs =
            IsPathFrom-SameNames ts D ρ (reads a.env.lits ξ) ρs c
              (λ x q. sym (reads-SameNames ts D a.env t.after ξ ρ t.to_frame k2 x q)) p.1 in
          let (ζ, g3, m3, all_agree) = r.every_path ξ ρs m2 (omega (arith, n)) path in
          let k3 = Agrees-later t.after.n_vars a.env.lits ξ ζ ρ t.to_frame.good.env_known g3 k2 in
          (
            ζ,
            (λ v lo hi.
                g v lo hi
                ∙ g2 v lo (omega (arith, a.narrows.more_vars))
                ∙ g3 v lo (omega (arith, a.narrows.more_vars, t.narrows.more_vars))),
            m3,
            (rw r.same_lits k3, all_agree),
          )
