-- ===== src/Bmc/Check.antt =====
-- A round of `bmc` is a question about runs: its formula has a model exactly when a run of that many
-- steps from reset ends in a bad state.
use emergent_hardware_verifi.Tseitin.Correct.{tseitin-Encoded}
use emergent_hardware_verifi.Tseitin.{tseitin}
use emergent_hardware_verifi.Bmc.{unroll, query}
use emergent_hardware_verifi.Sat.Solver.Start.{formula_val-new_solver}
use emergent_hardware_verifi.Sat.Solver.Meaning.{formula_val}
use emergent_hardware_verifi.Circuit.Meaning.{eval, Valuation}
use emergent_hardware_verifi.Bmc.Query.{unroll-Unrolled, Unrolled}
use emergent_hardware_verifi.Sat.Solver.{new_solver, Solver}
use emergent_hardware_verifi.Circuit.Sig.{Sig}
use emergent_hardware_verifi.Circuit.Numbering.{Numbered}
use emergent_hardware_verifi.Prelude.{
  ◌≡◌, ◌∷◌, ◌∙◌, ℕ, zero, true, sym, suc, some, refl, length, get_elem?, false, arith, ap, [],
  Option, List,
}
use emergent_hardware_verifi.Tseitin.State.{new_solver-IsSound, IsSound}
use emergent_hardware_verifi.Bmc.Step.{IsFrame-Bound}
use emergent_hardware_verifi.Frame.{bad_lit, TransitionSystem, Env}
use emergent_hardware_verifi.Tseitin.Gate.{reads, Encoded}
use emergent_hardware_verifi.Frame.Runs.{eval-SameNames, ReadsNames, IsStart, IsPathFrom, CanEncode}
use emergent_hardware_verifi.Sat.Literal.{lit_val, Assignment}
use emergent_hardware_verifi.Bmc.Unroll.{views, reads-SameNames, AgreesAll, Agrees-later}
use emergent_hardware_verifi.Frame.Fresh.{Agrees}
use emergent_hardware_verifi.Tseitin.NewVar.{add_clause-AddedOne, AddedOne}

unfoldable pub last_of : Valuation → List Valuation → Valuation
last_of ρ [] = ρ
last_of ρ (σ ∷ σs) = last_of σ σs

-- A run of `k` steps from reset to a state that violates the property.
pub record BadRun (ts : TransitionSystem) (bad : Sig) (k : ℕ) : Type 0 where
  pub start : Valuation
  pub later : List Valuation
  pub steps : length later ≡ k
  pub starts : IsStart ts start
  pub path : IsPathFrom ts start later
  pub ends_bad : eval (last_of start later) bad ≡ true

pub record Decides (ts : TransitionSystem) (bad : Sig) (k : ℕ) (result : Option (List Env × Solver))
    : Type 0 where
  pub frames : List Env
  pub after : Solver
  pub returns : result ≡ some (frames, after)
  pub sound : IsSound after
  pub sat_if_bad : BadRun ts bad k → (μ : Assignment) × (formula_val μ after ≡ true)
  pub bad_if_sat : (μ : Assignment) → formula_val μ after ≡ true → BadRun ts bad k

views-last :
    (μ : Assignment) (first : Env) (rest : List Env) (k : ℕ) (final : Env)
    → length rest ≡ k
    → get_elem? (first ∷ rest) k ≡ some final
    → last_of (reads first.lits μ) (views μ rest) ≡ reads final.lits μ
unfolding last_of
views-last μ first [] zero final n e =
    let q : first ≡ final = ground (arith, e) in ap (λ (v : Env). reads v.lits μ) q
views-last μ first [] (suc k) final n e = absurd (omega (arith, n))
views-last μ first (x ∷ rest) zero final n e = absurd (omega (arith, n))
views-last μ first (x ∷ rest) (suc k) final n e = views-last μ x rest k final (omega (arith, n)) e

length-views : (μ : Assignment) (es : List Env) → length (views μ es) ≡ length es
length-views μ [] = refl
length-views μ (e ∷ es) = ap suc (length-views μ es)

AgreesAll-last :
    (ν : Assignment) (ρ : Valuation) (ρs : List Valuation) (first : Env) (rest : List Env) (k : ℕ)
    (final : Env)
    → AgreesAll ν (ρ ∷ ρs) (first ∷ rest)
    → length rest ≡ k
    → get_elem? (first ∷ rest) k ≡ some final
    → Agrees ν (last_of ρ ρs) final.lits
unfolding last_of
AgreesAll-last ν ρ [] first [] zero final a n e =
    let q : first ≡ final = ground (arith, e) in rw (← q) a.0
AgreesAll-last ν ρ (σ ∷ ρs) first [] k final a n e = absurd (a.1)
AgreesAll-last ν ρ [] first (x ∷ rest) k final a n e = absurd (a.1)
AgreesAll-last ν ρ [] first [] (suc k) final a n e = absurd (omega (arith, n))
AgreesAll-last ν ρ (σ ∷ ρs) first (x ∷ rest) zero final a n e = absurd (omega (arith, n))
AgreesAll-last ν ρ (σ ∷ ρs) first (x ∷ rest) (suc k) final a n e =
    AgreesAll-last ν σ ρs x rest k final a.1 (omega (arith, n)) e

module _ (ts : TransitionSystem) (D : ℕ → Sig) (k : ℕ) (bad : Sig) (c : CanEncode ts D)
    (numbered : Numbered D bad) (names : ReadsNames ts bad) where
  -- A model of the query reads as a run that ends bad.
  model-BadRun :
      (u : Unrolled ts D k true new_solver (unroll ts k true new_solver))
      → (r : Encoded u.final.lits D
          (record { solver = u.after; memo = u.final.memo })
          bad
          (tseitin u.final.lits bad (record { solver = u.after; memo = u.final.memo })))
      → (a : AddedOne r.after.solver (r.lit ∷ [])) → (μ : Assignment) → formula_val μ a.after ≡ true
      → BadRun ts bad k
  model-BadRun u r a μ m =
      let both = sym (a.means μ) ∙ m in
      let encoded : formula_val μ r.after.solver ≡ true = ground (arith, both) in
      let is_bad : lit_val μ r.lit ≡ true = ground (arith, both) in
      let run = u.is_run μ (r.extends.implies μ encoded) in
      record {
        start = reads u.first.lits μ;
        later = views μ u.rest;
        steps = length-views μ u.rest ∙ u.count;
        starts = run.0;
        path = run.1;
        ends_bad =
            ap (λ ρ. eval ρ bad) (views-last μ u.first u.rest k u.final u.count u.at_end)
            ∙ sym (r.means μ encoded)
            ∙ is_bad;
      }

  BadRun-model :
      (u : Unrolled ts D k true new_solver (unroll ts k true new_solver))
      → (r : Encoded u.final.lits D
          (record { solver = u.after; memo = u.final.memo })
          bad
          (tseitin u.final.lits bad (record { solver = u.after; memo = u.final.memo })))
      → (a : AddedOne r.after.solver (r.lit ∷ [])) → BadRun ts bad k
      → (μ : Assignment) × (formula_val μ a.after ≡ true)
  BadRun-model u r a b =
      let μ : Assignment = λ _. false in
      let (ν, _, m1, agree) =
        u.every_run μ b.start b.later (formula_val-new_solver μ) b.steps b.starts b.path in
      let (ξ, g, m2) = r.extends.conservative ν m1 in
      let last = AgreesAll-last ν b.start b.later u.first u.rest k u.final agree u.count u.at_end in
      let last' =
        Agrees-later u.after.n_vars u.final.lits ν ξ (last_of b.start b.later)
          u.final_frame.good.env_known g last in
      let same =
        reads-SameNames ts D u.final u.after ξ (last_of b.start b.later) u.final_frame last' in
      let is_bad : lit_val ξ r.lit ≡ true =
        r.means ξ m2
        ∙ eval-SameNames ts (reads u.final.lits ξ) (last_of b.start b.later) same bad names
        ∙ b.ends_bad in
      (ξ, a.means ξ ∙ ground (arith, m2, is_bad))

  -- For a system whose state bits have reset values and next-state functions over its own names,
  -- with unambiguous node ids and inputs apart from the state bits, and whose bad signal is one
  -- over its names too, a round of bmc builds its query; the query has a model exactly when a run
  -- of k steps from reset ends in a bad state.
  pub query-Decides : ts.bad ≡ some bad → Decides ts bad k (query ts k)
  unfolding query bad_lit
  query-Decides has_bad =
      let u = unroll-Unrolled ts D k true new_solver c new_solver-IsSound in
      let bound = IsFrame-Bound ts D u.final u.after u.final_frame bad names in
      let r =
        tseitin-Encoded u.final.lits D bad (record { solver = u.after; memo = u.final.memo })
          numbered bound u.final_frame.good in
      let a = add_clause-AddedOne r.after.solver (r.lit ∷ []) r.good.sound (r.known, tt) in
      record {
        frames = u.first ∷ u.rest;
        after = a.after;
        returns =
            rw (u.returns, query)
              (rw (u.at_end, query)
                (rw (has_bad, bad_lit) (rw (r.returns, bad_lit) (rw (a.returns, query) refl))));
        sound = a.sound;
        sat_if_bad = BadRun-model u r a;
        bad_if_sat = model-BadRun u r a;
      }
