-- ===== src/Frame/Next.antt =====
-- The next-state literals of a frame.
use emergent_hardware_verifi.Circuit.Meaning.{Valuation}
use emergent_hardware_verifi.Tseitin.Correct.{Bound}
use emergent_hardware_verifi.Sat.Literal.{lit_val, Assignment, ℤ}
use emergent_hardware_verifi.Tseitin.Correct.{tseitin-Encoded}
use text.Mathlib.TextEquality.{eq_iff}
use emergent_hardware_verifi.Sat.Solver.{Solver}
use emergent_hardware_verifi.Circuit.Sig.{Sig}
use emergent_hardware_verifi.Circuit.Numbering.{Numbered}
use emergent_hardware_verifi.Sat.Solver.Meaning.{formula_val, Known}
use emergent_hardware_verifi.Tseitin.Gate.{Means, IsGood-later, IsGood}
use emergent_hardware_verifi.Tseitin.State.{
  IsSound, Agree, Known-more, Extends-trans, Extends-refl, Extends,
}
use emergent_hardware_verifi.Frame.Fresh.{
  put_name-still, put_name-has, listed, bind_fresh-Fresh, HasAll, Has, Fresh, EnvKnown,
}
use emergent_hardware_verifi.Frame.{put_name, next_lits, next_env, TransitionSystem, Env}
use emergent_hardware_verifi.Prelude.{
  true, ◌≡◌, ◌∷◌, ◌∙◌, ℕ, sym, some, refl, none, inr, inl, false, arith, [], String, Option, List,
  Bool-cases,
}
use text.Mathlib.Text.{◌==◌ as str_eq}
use emergent_hardware_verifi.Tseitin.{LitEnv, Enc}

module _ (env : LitEnv) (D : ℕ → Sig) (nx : String → Option Sig) where
  -- The name has a next-state function that the encoder can encode.
  abbrev pub CanStep : String → Type 0
  CanStep x = (sig : Sig) × (nx x ≡ some sig) × Numbered D sig × Bound env sig

  abbrev pub CanStepAll : List String → Type 0
  CanStepAll [] = Unit {0}
  CanStepAll (x ∷ xs) = CanStep x × CanStepAll xs

  -- In every model the literal has the value of the next-state function of the name.
  abbrev pub IsNext : Solver → String → ℤ → Type 0
  IsNext s x l = Known s.n_vars l × (sig : Sig) × (nx x ≡ some sig) × Means env D s l sig

  abbrev pub NextOf : Solver → LitEnv → Type 0
  NextOf s out = (x : String) (l : ℤ) → out x ≡ some l → IsNext s x l

  pub record NextLits (e : Enc) (out : LitEnv) (names : List String)
      (result : Option (LitEnv × Enc)) : Type 0 where
    pub out' : LitEnv
    pub after : Enc
    pub returns : result ≡ some (out', after)
    pub good : IsGood env D after
    pub extends : Extends e.solver after.solver
    pub means : NextOf after.solver out'
    pub has_all : HasAll out' names
    pub still_has : (x : String) → Has out x → Has out' x

  pub IsNext-later : {s t : Solver} (x : String) (l : ℤ) → Extends s t → IsNext s x l → IsNext t x l
  IsNext-later x l g (k, sig, h, m) =
      (Known-more l g.more_vars k, sig, h, λ μ f. m μ (g.implies μ f))

  NextOf-put :
      (s : Solver) (out : LitEnv) (x : String) (l : ℤ)
      → NextOf s out
      → IsNext s x l
      → NextOf s (put_name out x l)
  NextOf-put s out x l h n y k e = elim (Bool-cases (str_eq x y)) [
    | inl same ↦
        let lk : l ≡ k = ground (arith, e, same) in
        let xy : x ≡ y = (eq_iff x y).0 same in rw (← lk, ← xy) n
    | inr other ↦ h y k (ground (arith, e, other))
  ]

  pub next_lits-NextLits :
      (names : List String) (out : LitEnv) (e : Enc)
      → IsGood env D e
      → CanStepAll names
      → NextOf e.solver out
      → NextLits e out names (next_lits env nx names out e)
  unfolding next_lits
  next_lits-NextLits [] out e g c h = record {
    out' = out;
    after = e;
    returns = refl;
    good = g;
    extends = Extends-refl e.solver;
    means = h;
    has_all = tt;
    still_has = λ x k. k;
  }
  next_lits-NextLits (x ∷ xs) out e g c h =
      let (sig, has_sig, numbered, bound) = c.0 in
      let r = tseitin-Encoded env D sig e numbered bound g in
      let t = r.after.solver in
      let one : IsNext t x r.lit = (r.known, sig, has_sig, r.means) in
      let old : NextOf t out = λ y k q. IsNext-later y k r.extends (h y k q) in
      let rest =
        next_lits-NextLits xs (put_name out x r.lit) r.after r.good c.1
          (NextOf-put t out x r.lit old one) in
      record {
        out' = rest.out';
        after = rest.after;
        returns = rw (has_sig, next_lits) (rw (r.returns, next_lits) rest.returns);
        good = rest.good;
        extends = Extends-trans r.extends rest.extends;
        means = rest.means;
        has_all = (rest.still_has x (r.lit, put_name-has out x r.lit), rest.has_all);
        still_has = λ y k. rest.still_has y (put_name-still out x r.lit y k);
      }

-- What next_env gives: the names that are not inputs read as their next-state functions.
pub record Stepped (ts : TransitionSystem) (D : ℕ → Sig) (env : Env) (s : Solver)
    (result : Option ((Env × Env) × Solver)) : Type 0 where
  pub nxt : Env
  pub env' : Env
  pub after : Solver
  pub returns : result ≡ some ((nxt, env'), after)
  pub same_lits : env'.lits ≡ env.lits
  pub new_memo : nxt.memo ≡ []
  pub good : IsGood env.lits D (record { solver = after; memo = env'.memo })
  pub extends : Extends s after
  pub means :
      (x : String) (l : ℤ)
      → listed x ts.inputs ≡ false
      → nxt.lits x ≡ some l
      → IsNext env.lits D ts.next after x l
  pub known : EnvKnown after.n_vars nxt.lits
  pub has_state : HasAll nxt.lits ts.state
  pub has_inputs : HasAll nxt.lits ts.inputs
  -- The new inputs may take any values.
  pub fill :
      (ρ : Valuation) (μ : Assignment)
      → formula_val μ s ≡ true
      → (ν : Assignment) × Agree s.n_vars μ ν
        × (formula_val ν after ≡ true)
        × ((x : String) (l : ℤ)
            → listed x ts.inputs ≡ true
            → nxt.lits x ≡ some l
            → lit_val ν l ≡ ρ x)

pub Fresh-Extends :
    {s : Solver} {env : LitEnv} {names : List String} {result : Option (LitEnv × Solver)}
    → (r : Fresh s env names result) → Extends s r.after
Fresh-Extends r = record {
  more_vars = r.more_vars;
  implies = λ μ h. sym (r.same_formula μ) ∙ h;
  conservative = λ μ h. (μ, (λ v lo hi. refl), r.same_formula μ ∙ h);
}

pub HasAll-still :
    (a b : LitEnv) (names : List String)
    → ((x : String) → Has a x → Has b x)
    → HasAll a names
    → HasAll b names
HasAll-still a b [] f h = tt
HasAll-still a b (x ∷ xs) f h = (f x h.0, HasAll-still a b xs f h.1)

-- A conservative step and fresh names after it: the names may take any values.
fill-next :
    (s t : Solver)
    → Extends s t
    → IsSound t
    → {env : LitEnv} {names : List String} {result : Option (LitEnv × Solver)}
    → (f : Fresh t env names result) → (ρ : Valuation) (μ : Assignment) → formula_val μ s ≡ true
    → (ν : Assignment) × Agree s.n_vars μ ν
      × (formula_val ν f.after ≡ true)
      × ((x : String) (l : ℤ) → listed x names ≡ true → f.env' x ≡ some l → lit_val ν l ≡ ρ x)
fill-next s t x sound f ρ μ h =
    let (ν, agree, m) = x.conservative μ h in
    let (ξ, agree', filled) = f.fill ρ ν in
    (
      ξ,
      (λ v lo hi. agree v lo hi ∙ agree' v lo (omega (arith, x.more_vars))),
      f.same_formula ξ ∙ sym (sound.is_local ν ξ agree') ∙ m,
      filled,
    )

-- In a frame whose names the next-state functions read, next_env returns literals that in every
-- model have the values of the next-state functions, and a fresh variable for each input; the
-- solver stays sound, its new formula implies the old one and is a conservative extension of it.
pub next_env-Stepped :
    (ts : TransitionSystem) (D : ℕ → Sig) (env : Env) (s : Solver)
    → IsGood env.lits D (record { solver = s; memo = env.memo })
    → CanStepAll env.lits D ts.next ts.state
    → Stepped ts D env s (next_env ts env s)
unfolding next_env
next_env-Stepped ts D env s g c =
    let e : Enc = record { solver = s; memo = env.memo } in
    let r = next_lits-NextLits env.lits D ts.next ts.state (λ _. none) e g c (λ x l q. cc) in
    let f =
      bind_fresh-Fresh ts.inputs r.out' r.after.solver r.good.sound (λ x l q. (r.means x l q).0) in
    let fx = Fresh-Extends f in
    record {
      nxt = record { lits = f.env'; memo = [] };
      env' = record env { memo = r.after.memo };
      after = f.after;
      returns = rw (r.returns, next_env) (rw (f.returns, next_env) refl);
      same_lits = refl;
      new_memo = refl;
      good = IsGood-later env.lits D r.after f.after r.good fx f.sound;
      extends = Extends-trans r.extends fx;
      means =
          λ x l o q. IsNext-later env.lits D ts.next x l fx (r.means x l (sym (f.others x o) ∙ q));
      known = f.known;
      has_state = HasAll-still r.out' f.env' ts.state f.still_has r.has_all;
      has_inputs = f.has_all;
      fill = fill-next s r.after.solver r.extends r.good.sound f;
    }
