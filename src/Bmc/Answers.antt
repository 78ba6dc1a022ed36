-- ===== src/Bmc/Answers.antt =====
-- bmc.py, `bmc`: what its answers say of the runs from reset.
use emergent_hardware_verifi.Sat.Solve.{solve}
use emergent_hardware_verifi.Bmc.{query}
use emergent_hardware_verifi.Sat.Analyze.{FloatTest}
use emergent_hardware_verifi.Sat.Propagate.{Run, out_of_fuel}
use emergent_hardware_verifi.Sat.Solver.Meaning.{formula_val}
use emergent_hardware_verifi.Sat.Propagate.{raised, done}
use emergent_hardware_verifi.Frame.{Env, TransitionSystem}
use emergent_hardware_verifi.Sat.Solver.{Solver}
use emergent_hardware_verifi.Circuit.Sig.{Sig}
use emergent_hardware_verifi.Circuit.Numbering.{Numbered}
use emergent_hardware_verifi.Frame.Runs.{ReadsNames, CanEncode}
use emergent_hardware_verifi.Bmc.Check.{query-Decides, BadRun}
use emergent_hardware_verifi.Sat.Literal.{Assignment}
use emergent_hardware_verifi.Bmc.Loop.{safe_up_to, cex, bmc_from, bmc, SearchFor, Answer}
use emergent_hardware_verifi.Prelude.{
  [], List, ◌≡◌, ◌∙◌, ℕ, zero, true, sym, suc, subst, some, refl, none, inr, inl, false, arith,
  Option, Bool-cases, Bool, ==_iff, ◌==◌, ◌<◌, ◌+◌,
}

-- The search answers True on the solver only if its formula has a model, and False only if it has
-- none.
abbrev pub IsRightOn : SearchFor → Solver → Type 0
IsRightOn find_model s =
    (s' : Solver) (b : Bool)
    → find_model s ≡ done b s'
    → (b ≡ true → (μ : Assignment) × (formula_val μ s ≡ true))
      × (b ≡ false → (μ : Assignment) → formula_val μ s ≡ false)

-- The search is right on the queries of the depths under `n`.
abbrev pub IsRightBelow : SearchFor → TransitionSystem → ℕ → Type 0
IsRightBelow find_model ts n =
    (k : ℕ)
    → k < n
    → (envs : List Env) (s : Solver) → query ts k ≡ some (envs, s)
    → IsRightOn find_model s

-- No run of fewer than `k` steps from reset ends bad.
abbrev pub NoneBelow : TransitionSystem → Sig → ℕ → Type 0
NoneBelow ts bad k = (j : ℕ) → j < k → ¬ BadRun ts bad j

-- A counterexample is real and the shortest; without one, all depths up to the bound are safe.
abbrev pub Right : TransitionSystem → Sig → Answer → Type 0
Right ts bad (cex k envs s) = BadRun ts bad k × NoneBelow ts bad k
Right ts bad (safe_up_to k) = NoneBelow ts bad (k + 1)

-- The search raises an error on the solver, or runs out of fuel.
abbrev pub IsSilentOn : SearchFor → Solver → Type 0
IsSilentOn find_model s = (b : Bool) (s' : Solver) → ¬ (find_model s ≡ done b s')

pub raised-IsSilentOn :
    (find_model : SearchFor) (s : Solver) → find_model s ≡ raised → IsSilentOn find_model s
raised-IsSilentOn find_model s e b s' h =
    let bad : ◌≡◌ {A = Run Bool} raised (done b s') = sym e ∙ h in cc

pub out_of_fuel-IsSilentOn :
    (find_model : SearchFor) (s : Solver) → find_model s ≡ out_of_fuel → IsSilentOn find_model s
out_of_fuel-IsSilentOn find_model s e b s' h =
    let bad : ◌≡◌ {A = Run Bool} out_of_fuel (done b s') = sym e ∙ h in cc

-- The query of a depth under `n` to which the search gave no answer.
pub record NoAnswer (find_model : SearchFor) (ts : TransitionSystem) (n : ℕ) : Type 0 where
  pub depth : ℕ
  pub within : depth < n
  pub frames : List Env
  pub asked : Solver
  pub built : query ts depth ≡ some (frames, asked)
  pub silent : IsSilentOn find_model asked

-- Without an answer, the search had none for a query of a depth under `n`.
abbrev pub RightAll : SearchFor → TransitionSystem → ℕ → Sig → Option Answer → Type 0
RightAll find_model ts n bad none = NoAnswer find_model ts n
RightAll find_model ts n bad (some a) = Right ts bad a

module _ (ts : TransitionSystem) (D : ℕ → Sig) (bad : Sig) (c : CanEncode ts D)
    (numbered : Numbered D bad) (names : ReadsNames ts bad) (has_bad : ts.bad ≡ some bad)
    (find_model : SearchFor) (bound : ℕ) (right : IsRightBelow find_model ts bound) where
  one_more : (k : ℕ) → NoneBelow ts bad k → ¬ BadRun ts bad k → NoneBelow ts bad (suc k)
  one_more k below here j h = elim (Bool-cases (j == k)) [
    | inl e ↦ subst (λ i. ¬ BadRun ts bad i) (sym ((==_iff j k).0 e)) here
    | inr e ↦ below j (ground (arith, h, e))
  ]

  bmc_from-Right :
      (n k : ℕ)
      → 0 < n + k
      → n + k ≡ bound
      → NoneBelow ts bad k
      → RightAll find_model ts bound bad (bmc_from find_model ts n k)
  unfolding bmc_from
  bmc_from-Right zero k pos_k len below = λ j h. below j (omega (arith, h, pos_k))
  bmc_from-Right (suc n) k pos_k len below =
      let q = query-Decides ts D k bad c numbered names has_bad in
      let here : IsRightOn find_model q.after =
        right k (omega (arith, len)) q.frames q.after q.returns in
      let unanswered : IsSilentOn find_model q.after → NoAnswer find_model ts bound = λ silent.
        record {
          depth = k;
          within = omega (arith, len);
          frames = q.frames;
          asked = q.after;
          built = q.returns;
          silent = silent;
        } in
      elim (find_model q.after)
          as (λ r.
            find_model q.after ≡ r
            → RightAll find_model ts bound bad (bmc_from find_model ts (suc n) k)) [
              | raised ↦ λ e.
                  rw (q.returns, bmc_from)
                    (rw e (unanswered (raised-IsSilentOn find_model q.after e)))
              | out_of_fuel ↦ λ e.
                  rw (q.returns, bmc_from)
                    (rw e (unanswered (out_of_fuel-IsSilentOn find_model q.after e)))
              | done true s' ↦ λ e.
                  let (μ, m) = (here s' true e).0 refl in
                  rw (q.returns, bmc_from) (rw e (q.bad_if_sat μ m, below))
              | done false s' ↦ λ e.
                  let none' : ¬ BadRun ts bad k = λ run.
                    let (μ, m) = q.sat_if_bad run in
                    let no : true ≡ false = sym m ∙ (here s' false e).1 refl μ in cc in
                  let rest =
                    bmc_from-Right n (suc k) (omega arith) (omega (arith, len))
                      (one_more k below none') in
                  rw (q.returns, bmc_from) (rw e rest)
            ]
        refl

-- The answers of bmc for a search that is right on its queries.
pub bmc-Right :
    (ts : TransitionSystem) (D : ℕ → Sig) (bad : Sig)
    → CanEncode ts D
    → Numbered D bad
    → ReadsNames ts bad
    → ts.bad ≡ some bad
    → (find_model : SearchFor) (kmax : ℕ) → IsRightBelow find_model ts (suc kmax)
    → RightAll find_model ts (suc kmax) bad (bmc find_model ts kmax)
unfolding bmc
bmc-Right ts D bad c numbered names has_bad find_model kmax right =
    bmc_from-Right ts D bad c numbered names has_bad find_model (suc kmax) right (suc kmax) 0
      (omega arith) (omega arith) (λ j lt. absurd (omega (arith, lt)))

-- For a system whose state bits have reset values and next-state functions over its own names,
-- with unambiguous node ids and inputs apart from the state bits, and whose bad signal is one over
-- its names too, and where for each query of a depth up to kmax solve answers True only if it has
-- a model and False only if it has none: bmc with solve answers, unless solve has no answer to one
-- of those queries. Its counterexample at depth k means that a run of k steps from reset ends in a
-- bad state and no shorter one does; its answer that there is none up to a depth means that no run
-- of at most that many steps from reset does.
pub bmc-Answers :
    (ts : TransitionSystem) (D : ℕ → Sig) (bad : Sig)
    → CanEncode ts D
    → Numbered D bad
    → ReadsNames ts bad
    → ts.bad ≡ some bad
    → (f : ℕ) (gt : FloatTest) (kmax : ℕ) → IsRightBelow (solve f gt []) ts (suc kmax)
    → RightAll (solve f gt []) ts (suc kmax) bad (bmc (solve f gt []) ts kmax)
bmc-Answers ts D bad c numbered names has_bad f gt kmax right =
    bmc-Right ts D bad c numbered names has_bad (solve f gt []) kmax right
