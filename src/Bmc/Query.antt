-- ===== src/Bmc/Query.antt =====
-- The formula of a round of `bmc` and the runs that it stands for.
use emergent_hardware_verifi.Bmc.{unroll, start_frame}
use emergent_hardware_verifi.Tseitin.Gate.{reads}
use emergent_hardware_verifi.Frame.Fresh.{listed}
use emergent_hardware_verifi.Sat.Solver.Meaning.{formula_val}
use text.Mathlib.TextEquality.{eq_iff}
use emergent_hardware_verifi.Circuit.Meaning.{Valuation}
use emergent_hardware_verifi.Sat.Solver.{Solver}
use emergent_hardware_verifi.Circuit.Sig.{Sig}
use emergent_hardware_verifi.Bmc.Step.{Narrows-Constrained, IsFrame-narrow, IsFrame}
use emergent_hardware_verifi.Frame.{assert_init, TransitionSystem, Env}
use emergent_hardware_verifi.Frame.Constrain.{
  starts_on, is_value, assert_inits-Constrained, Constrained,
}
use emergent_hardware_verifi.Frame.Runs.{
  SameNames, IsStart, IsPathFrom-SameNames, IsPathFrom, CanEncode,
}
use emergent_hardware_verifi.Prelude.{
  ◌&&◌, ◌≤◌, ◌≡◌, ◌∷◌, ◌∙◌, ℕ, true, sym, some, refl, none, length, inr, inl, get_elem?, false,
  arith, ap₂, ap, [], String, Option, List, Bool-cases, Bool,
}
use emergent_hardware_verifi.Sat.Literal.{Assignment}
use emergent_hardware_verifi.Bmc.Unroll.{
  views, unroll_from-Continued, reads-SameNames, fresh_frame-FreshFrame, AgreesAll, Agrees-later,
}
use emergent_hardware_verifi.Tseitin.State.{IsSound, Agree}
use text.Mathlib.Text.{◌==◌ as str_eq}

abbrev pub StartIf : Bool → TransitionSystem → Valuation → Type 0
StartIf true ts ρ = IsStart ts ρ
StartIf false ts ρ = Unit {0}

pub record Unrolled (ts : TransitionSystem) (D : ℕ → Sig) (k : ℕ) (from_init : Bool) (s : Solver)
    (result : Option (List Env × Solver)) : Type 0 where
  pub first : Env
  pub rest : List Env
  pub after : Solver
  pub returns : result ≡ some (first ∷ rest, after)
  pub count : length rest ≡ k
  pub final : Env
  pub at_end : get_elem? (first ∷ rest) k ≡ some final
  pub final_frame : IsFrame ts D final after
  pub more_vars : s.n_vars ≤ after.n_vars
  pub is_run :
      (μ : Assignment)
      → formula_val μ after ≡ true
      → StartIf from_init ts (reads first.lits μ)
        × IsPathFrom ts (reads first.lits μ) (views μ rest)
  pub every_run :
      (μ : Assignment) (ρ : Valuation) (ρs : List Valuation)
      → formula_val μ s ≡ true
      → length ρs ≡ k
      → StartIf from_init ts ρ
      → IsPathFrom ts ρ ρs
      → (ν : Assignment) × Agree s.n_vars μ ν
        × (formula_val ν after ≡ true)
        × AgreesAll ν (ρ ∷ ρs) (first ∷ rest)

starts_on-listed :
    (ρ : Valuation) (init : String → Option Bool) (names : List String) (x : String)
    → starts_on ρ init names ≡ true
    → listed x names ≡ true
    → init x ≡ some (ρ x)
starts_on-listed ρ init [] x h e = cc
starts_on-listed ρ init (y ∷ ys) x h e = elim (Bool-cases (str_eq y x)) [
  | inl same ↦ rw (← (eq_iff y x).0 same) (here (init y) (ρ y) (ground (arith, h)))
  | inr other ↦ starts_on-listed ρ init ys x (ground (arith, h)) (ground (arith, e, other))
]
  where
    here : (o : Option Bool) (b : Bool) → is_value o b ≡ true → o ≡ some b
    here none b k = cc
    here (some c) b k = ground (arith, k)

starts_on-true :
    (ρ : Valuation) (init : String → Option Bool) (names : List String)
    → ((x : String) → listed x names ≡ true → init x ≡ some (ρ x))
    → starts_on ρ init names ≡ true
starts_on-true ρ init [] h = refl
starts_on-true ρ init (y ∷ ys) h =
    let e : init y ≡ some (ρ y) = h y (rw ((eq_iff y y).1 refl) refl) in
    let here : is_value (init y) (ρ y) ≡ true = ap (λ o. is_value o (ρ y)) e ∙ ground arith in
    let rest = starts_on-true ρ init ys (λ x k. h x (ground (arith, k))) in ap₂ ◌&&◌ here rest

-- What the first frame's constraint says of its names.
abbrev start_val : Bool → TransitionSystem → Valuation → Bool
start_val true ts ρ = starts_on ρ ts.init ts.state
start_val false ts ρ = true

start_frame-Constrained :
    (b : Bool) (ts : TransitionSystem) (D : ℕ → Sig) (env : Env) (s : Solver)
    → CanEncode ts D
    → IsFrame ts D env s
    → Constrained s (λ μ. start_val b ts (reads env.lits μ)) (start_frame b ts env s)
unfolding start_frame assert_init
start_frame-Constrained true ts D env s c f =
    assert_inits-Constrained env.lits ts.init ts.state s f.good.sound f.good.env_known f.has_state
      c.has_inits
start_frame-Constrained false ts D env s c f = record {
  after = s;
  returns = refl;
  sound = f.good.sound;
  means = λ μ. ground arith;
  same_vars = refl;
}

start_val-StartIf :
    (b : Bool) (ts : TransitionSystem) (ρ : Valuation) → start_val b ts ρ ≡ true → StartIf b ts ρ
start_val-StartIf true ts ρ h = λ x e. starts_on-listed ρ ts.init ts.state x h e
start_val-StartIf false ts ρ h = tt

StartIf-start_val :
    (b : Bool) (ts : TransitionSystem) (ρ σ : Valuation)
    → SameNames ts σ ρ
    → StartIf b ts ρ
    → start_val b ts σ ≡ true
StartIf-start_val true ts ρ σ same h =
    starts_on-true σ ts.init ts.state (λ x e. h x e ∙ ap some (sym (same x (ground (arith, e)))))
StartIf-start_val false ts ρ σ same h = refl

-- For a system whose state bits have reset values and next-state functions over its own names,
-- with unambiguous node ids and inputs apart from the state bits, unrolling a sound solver returns
-- k + 1 frames; in every model of the new formula they read as a run of k steps, from a start if
-- one is asked for, and every model of the old formula extends, by new variables alone, to a model
-- in which the frames read as any chosen such run.
pub unroll-Unrolled :
    (ts : TransitionSystem) (D : ℕ → Sig) (k : ℕ) (from_init : Bool) (s : Solver)
    → CanEncode ts D
    → IsSound s
    → Unrolled ts D k from_init s (unroll ts k from_init s)
unfolding unroll
unroll-Unrolled ts D k b s c h =
    let a = fresh_frame-FreshFrame ts D s h in
    let i = start_frame-Constrained b ts D a.env a.after c a.frame in
    let in' = Narrows-Constrained i in
    let r =
      unroll_from-Continued ts D c k a.env i.after
        (IsFrame-narrow ts D a.env a.after i.after a.frame in' i.sound) in
    record {
      first = r.first;
      rest = r.rest;
      after = r.after;
      returns = rw (a.returns, unroll) (rw (i.returns, unroll) r.returns);
      count = r.count;
      final = r.final;
      at_end = r.at_end;
      final_frame = r.final_frame;
      more_vars = omega (arith, a.narrows.more_vars, in'.more_vars, r.narrows.more_vars);
      is_run = λ μ m.
          let both = sym (i.means μ) ∙ r.narrows.implies μ m in
          let same : reads r.first.lits μ ≡ reads a.env.lits μ = ap (λ l. reads l μ) r.same_lits in
          rw same
            (start_val-StartIf b ts (reads a.env.lits μ) (ground (arith, both)), r.is_path μ m);
      every_run = λ μ ρ ρs m n st p.
          let (ν, g, k1) = a.free ρ μ in
          let old : formula_val ν a.after ≡ true = a.same_formula ν ∙ sym (h.is_local μ ν g) ∙ m in
          let same = reads-SameNames ts D a.env a.after ν ρ a.frame k1 in
          let m1 : formula_val ν i.after ≡ true =
            i.means ν ∙ ap₂ ◌&&◌ old (StartIf-start_val b ts ρ (reads a.env.lits ν) same st) in
          let path =
            IsPathFrom-SameNames ts D ρ (reads a.env.lits ν) ρs c (λ x q. sym (same x q)) p in
          let (ξ, g2, m2, all_agree) = r.every_path ν ρs m1 n path in
          let g2' : Agree a.after.n_vars ν ξ = rw i.same_vars at g2 in
          let k2 = Agrees-later a.after.n_vars a.env.lits ν ξ ρ a.frame.good.env_known g2' k1 in
          (
            ξ,
            (λ v lo hi. g v lo hi ∙ g2' v lo (omega (arith, a.narrows.more_vars))),
            m2,
            (rw r.same_lits k2, all_agree),
          );
    }
