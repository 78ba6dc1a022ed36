-- ===== src/Kinduction/Chain.antt =====
-- kinduction.py, `k_induction`: the frames of a step query and the chains of states that they carry.
use emergent_hardware_verifi.Bmc.{tie}
use emergent_hardware_verifi.Tseitin.Gate.{reads}
use emergent_hardware_verifi.Sat.Solver.Meaning.{formula_val}
use emergent_hardware_verifi.Circuit.Meaning.{Valuation}
use emergent_hardware_verifi.Bmc.Tie.{tie-Tied, Tied}
use emergent_hardware_verifi.Sat.Solver.{Solver}
use emergent_hardware_verifi.Circuit.Sig.{Sig}
use emergent_hardware_verifi.Prelude.{
  ◌≡◌, ◌∷◌, ◌∙◌, ℕ, zero, true, sym, suc, some, refl, length, arith, ap, [], Option, List,
}
use emergent_hardware_verifi.Bmc.Step.{Narrows-trans, Narrows, IsFrame-narrow, IsFrame}
use emergent_hardware_verifi.Frame.{fresh_frame, TransitionSystem, Env}
use emergent_hardware_verifi.Frame.Runs.{
  eval-SameNames, ReadsNames, IsStep, IsPathFrom, HasNexts-listed, CanEncode,
}
use emergent_hardware_verifi.Sat.Literal.{Assignment}
use emergent_hardware_verifi.Frame.Fresh.{Agrees}
use emergent_hardware_verifi.Tseitin.State.{IsSound, Agree}
use emergent_hardware_verifi.Kinduction.Loop.{fresh_frames, tie_frames}
use emergent_hardware_verifi.Bmc.Unroll.{
  reads-SameNames, FreshFrame, AgreesAll, Agrees-later, fresh_frame-FreshFrame,
}

abbrev pub AllFrames : TransitionSystem → (ℕ → Sig) → List Env → Solver → Type 0
AllFrames ts D [] s = Unit {0}
AllFrames ts D (e ∷ es) s = IsFrame ts D e s × AllFrames ts D es s

pub AllFrames-narrow :
    (ts : TransitionSystem) (D : ℕ → Sig) (es : List Env) (s t : Solver)
    → AllFrames ts D es s
    → Narrows s t
    → IsSound t
    → AllFrames ts D es t
AllFrames-narrow ts D [] s t f n h = tt
AllFrames-narrow ts D (e ∷ es) s t f n h =
    (IsFrame-narrow ts D e s t f.0 n h, AllFrames-narrow ts D es s t f.1 n h)

pub AgreesAll-later :
    (ts : TransitionSystem) (D : ℕ → Sig) (es : List Env) (s : Solver) (μ ν : Assignment)
    (ρs : List Valuation)
    → AllFrames ts D es s
    → Agree s.n_vars μ ν
    → AgreesAll μ ρs es
    → AgreesAll ν ρs es
AgreesAll-later ts D [] s μ ν [] f g a = tt
AgreesAll-later ts D [] s μ ν (ρ ∷ ρs) f g a = absurd a
AgreesAll-later ts D (e ∷ es) s μ ν [] f g a = absurd a
AgreesAll-later ts D (e ∷ es) s μ ν (ρ ∷ ρs) f g a = (
  Agrees-later s.n_vars e.lits μ ν ρ f.0.good.env_known g a.0,
  AgreesAll-later ts D es s μ ν ρs f.1 g a.1,
)

pub record Freshes (ts : TransitionSystem) (D : ℕ → Sig) (n : ℕ) (s : Solver)
    (result : Option (List Env × Solver)) : Type 0 where
  pub envs : List Env
  pub after : Solver
  pub returns : result ≡ some (envs, after)
  pub count : length envs ≡ n
  pub sound : IsSound after
  pub frames : AllFrames ts D envs after
  pub narrows : Narrows s after
  pub same_formula : (μ : Assignment) → formula_val μ after ≡ formula_val μ s
  pub free :
      (ρs : List Valuation)
      → length ρs ≡ n
      → (μ : Assignment) → (ν : Assignment) × Agree s.n_vars μ ν × AgreesAll ν ρs envs

pub fresh_frames-Freshes :
    (ts : TransitionSystem) (D : ℕ → Sig) (n : ℕ) (s : Solver)
    → IsSound s
    → Freshes ts D n s (fresh_frames ts n s)
unfolding fresh_frames
fresh_frames-Freshes ts D zero s h = record {
  envs = [];
  after = s;
  returns = refl;
  count = refl;
  sound = h;
  frames = tt;
  narrows = record { more_vars = omega arith; implies = λ μ m. m };
  same_formula = λ μ. refl;
  free = λ ρs l μ. no_more ρs l μ;
}
  where
    no_more :
        (ρs : List Valuation)
        → length ρs ≡ 0
        → (μ : Assignment) → (ν : Assignment) × Agree s.n_vars μ ν × AgreesAll ν ρs []
    no_more [] l μ = (μ, (λ v lo hi. refl), tt)
    no_more (ρ ∷ ρs) l μ = absurd (omega (arith, l))
fresh_frames-Freshes ts D (suc n) s h =
    let a = fresh_frame-FreshFrame ts D s h in
    let r = fresh_frames-Freshes ts D n a.after a.frame.good.sound in
    record {
      envs = a.env ∷ r.envs;
      after = r.after;
      returns = rw (a.returns, fresh_frames) (rw (r.returns, fresh_frames) refl);
      count = ap suc r.count;
      sound = r.sound;
      frames = (IsFrame-narrow ts D a.env a.after r.after a.frame r.narrows r.sound, r.frames);
      narrows = Narrows-trans a.narrows r.narrows;
      same_formula = λ μ. r.same_formula μ ∙ a.same_formula μ;
      free = λ ρs l μ. all_free a r ρs l μ;
    }
  where
    all_free :
        (a : FreshFrame ts D s (fresh_frame ts s))
        → (r : Freshes ts D n a.after (fresh_frames ts n a.after)) → (ρs : List Valuation)
        → length ρs ≡ suc n
        → (μ : Assignment) → (ν : Assignment) × Agree s.n_vars μ ν × AgreesAll ν ρs (a.env ∷ r.envs)
    all_free a r [] l μ = absurd (omega (arith, l))
    all_free a r (ρ ∷ ρs) l μ =
        let (ν, g, k) = a.free ρ μ in
        let (ξ, g2, k2) = r.free ρs (omega (arith, l)) ν in
        (
          ξ,
          (λ v lo hi. g v lo hi ∙ g2 v lo (omega (arith, a.narrows.more_vars))),
          (Agrees-later a.after.n_vars a.env.lits ν ξ ρ a.frame.good.env_known g2 k, k2),
        )

pub record TiedAll (ts : TransitionSystem) (D : ℕ → Sig) (env : Env) (envs : List Env) (s : Solver)
    (result : Option (List Env × Solver)) : Type 0 where
  pub first : Env
  pub rest : List Env
  pub after : Solver
  pub returns : result ≡ some (first ∷ rest, after)
  pub same_lits : first.lits ≡ env.lits
  pub first_frame : IsFrame ts D first after
  pub rest_frames : AllFrames ts D rest after
  pub narrows : Narrows s after
  pub keeps : (μ : Assignment) (ρs : List Valuation) → AgreesAll μ ρs envs → AgreesAll μ ρs rest
  pub every_path :
      (μ : Assignment) (ρ : Valuation) (ρs : List Valuation)
      → formula_val μ s ≡ true
      → Agrees μ ρ env.lits
      → AgreesAll μ ρs envs
      → IsPathFrom ts ρ ρs
      → (ν : Assignment) × Agree s.n_vars μ ν × (formula_val ν after ≡ true)

module _ (ts : TransitionSystem) (D : ℕ → Sig) (c : CanEncode ts D) where
  -- A step between the values of two frames.
  IsStep-frames :
      (from to : Env) (s : Solver) (μ : Assignment) (ρ σ : Valuation)
      → IsFrame ts D from s
      → IsFrame ts D to s
      → Agrees μ ρ from.lits
      → Agrees μ σ to.lits
      → IsStep ts ρ σ
      → IsStep ts (reads from.lits μ) (reads to.lits μ)
  IsStep-frames from to s μ ρ σ ff ft a b st x e sig n =
      let (sig', n', _, names) = HasNexts-listed ts D ts.state x c.has_nexts e in
      let q : sig' ≡ sig = ground (arith, n, n') in
      let names' : ReadsNames ts sig = rw (← q) names in
      let same = reads-SameNames ts D from s μ ρ ff a in
      reads-SameNames ts D to s μ σ ft b x (ground (arith, e))
      ∙ st x e sig n
      ∙ sym (eval-SameNames ts (reads from.lits μ) ρ same sig names')

  pub tie_frames-TiedAll :
      (env : Env) (envs : List Env) (s : Solver)
      → IsFrame ts D env s
      → AllFrames ts D envs s
      → TiedAll ts D env envs s (tie_frames ts env envs s)
  unfolding tie_frames
  tie_frames-TiedAll env [] s f fs = record {
    first = env;
    rest = [];
    after = s;
    returns = refl;
    same_lits = refl;
    first_frame = f;
    rest_frames = tt;
    narrows = record { more_vars = omega arith; implies = λ μ m. m };
    keeps = λ μ ρs a. a;
    every_path = λ μ ρ ρs m a b p. (μ, (λ v lo hi. refl), m);
  }
  tie_frames-TiedAll env (next_frame ∷ envs) s f fs =
      let t = tie-Tied ts D c env next_frame s f fs.0 in
      let fs' = AllFrames-narrow ts D envs s t.after fs.1 t.narrows t.sound in
      let r = tie_frames-TiedAll next_frame envs t.after t.to_frame fs' in
      record {
        first = t.from';
        rest = r.first ∷ r.rest;
        after = r.after;
        returns = rw (t.returns, tie_frames) (rw (r.returns, tie_frames) refl);
        same_lits = t.same_lits;
        first_frame =
            IsFrame-narrow ts D t.from' t.after r.after t.from_frame r.narrows
              r.first_frame.good.sound;
        rest_frames = (r.first_frame, r.rest_frames);
        narrows = Narrows-trans t.narrows r.narrows;
        keeps = λ μ ρs a. kept t r μ ρs a;
        every_path = λ μ ρ ρs m a b p. extend t r μ ρ ρs m a b p;
      }
    where
      kept :
          (t : Tied ts D env next_frame s (tie ts env next_frame s))
          → (r : TiedAll ts D next_frame envs t.after (tie_frames ts next_frame envs t.after))
          → (μ : Assignment) (ρs : List Valuation) → AgreesAll μ ρs (next_frame ∷ envs)
          → AgreesAll μ ρs (r.first ∷ r.rest)
      kept t r μ [] a = absurd a
      kept t r μ (ρ ∷ ρs) a = (rw r.same_lits a.0, r.keeps μ ρs a.1)

      extend :
          (t : Tied ts D env next_frame s (tie ts env next_frame s))
          → (r : TiedAll ts D next_frame envs t.after (tie_frames ts next_frame envs t.after))
          → (μ : Assignment) (ρ : Valuation) (ρs : List Valuation) → formula_val μ s ≡ true
          → Agrees μ ρ env.lits
          → AgreesAll μ ρs (next_frame ∷ envs)
          → IsPathFrom ts ρ ρs
          → (ν : Assignment) × Agree s.n_vars μ ν × (formula_val ν r.after ≡ true)
      extend t r μ ρ [] m a b p = absurd b
      extend t r μ ρ (σ ∷ σs) m a b p =
          let st = IsStep-frames env next_frame s μ ρ σ f fs.0 a b.0 p.0 in
          let (ν, g, k) = t.every_step μ m st in
          let b' = AgreesAll-later ts D (next_frame ∷ envs) s μ ν (σ ∷ σs) fs g b in
          let (ξ, g2, k2) = r.every_path ν σ σs k b'.0 b'.1 p.1 in
          (ξ, (λ v lo hi. g v lo hi ∙ g2 v lo (omega (arith, t.narrows.more_vars))), k2)
