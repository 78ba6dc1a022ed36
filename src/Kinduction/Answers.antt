-- ===== src/Kinduction/Answers.antt =====
-- kinduction.py, `k_induction`: what its answers say of the runs from reset.
use emergent_hardware_verifi.Sat.Solve.{solve}
use emergent_hardware_verifi.Sat.Solver.Meaning.{formula_val}
use emergent_hardware_verifi.Sat.Analyze.{FloatTest}
use emergent_hardware_verifi.Sat.Literal.{Assignment}
use emergent_hardware_verifi.Kinduction.Proved.{step_frames-returns, step_frames-IsClosed}
use emergent_hardware_verifi.Kinduction.Window.{closed-safe, IsClosed}
use emergent_hardware_verifi.Bmc.{query}
use emergent_hardware_verifi.Sat.Propagate.{out_of_fuel}
use emergent_hardware_verifi.Sat.Propagate.{raised, done}
use emergent_hardware_verifi.Sat.Solver.{Solver}
use emergent_hardware_verifi.Circuit.Sig.{Sig}
use emergent_hardware_verifi.Circuit.Numbering.{Numbered}
use emergent_hardware_verifi.Kinduction.Loop.{
  step_frames, stalled, k_induction, inductive_at, induct_from, base_fails, Induction,
}
use emergent_hardware_verifi.Frame.{TransitionSystem, Env}
use emergent_hardware_verifi.Frame.Runs.{ReadsNames, CanEncode}
use emergent_hardware_verifi.Bmc.Check.{BadRun}
use emergent_hardware_verifi.Prelude.{
  ◌⊎◌, ◌≤◌, [], ◌∙◌, sym, ◌≡◌, ℕ, zero, true, suc, subst, some, refl, none, inr, inl, false, arith,
  Option-cases, Option, List, Bool-cases, ==_iff, ◌==◌, ◌<◌, ◌-◌, ◌+◌,
}
use emergent_hardware_verifi.Bmc.Answers.{
  raised-IsSilentOn, out_of_fuel-IsSilentOn, Right, IsSilentOn, IsRightBelow, RightAll, NoAnswer,
  bmc-Right, NoneBelow,
}
use emergent_hardware_verifi.Bmc.Loop.{safe_up_to, cex, bmc_from, bmc, SearchFor, Answer}

-- How deep an answer of bmc reaches that looked at `m` depths.
abbrev pub Reaches : ℕ → Option Answer → Type 0
Reaches m none = Unit {0}
Reaches m (some (cex k envs s)) = k < m
Reaches m (some (safe_up_to k)) = k ≡ m - 1

bmc_from-Reaches :
    (find_model : SearchFor) (ts : TransitionSystem) (n k : ℕ)
    → Reaches (n + k) (bmc_from find_model ts n k)
unfolding bmc_from
bmc_from-Reaches find_model ts zero k = omega arith
bmc_from-Reaches find_model ts (suc n) k =
    let later : Reaches (suc n + k) (bmc_from find_model ts n (suc k)) =
      subst (λ m. Reaches m (bmc_from find_model ts n (suc k))) (omega arith)
        (bmc_from-Reaches find_model ts n (suc k)) in
    elim (Option-cases (query ts k)) [
      | inl e ↦ rw (e, bmc_from) tt
      | inr ((envs, s), e) ↦
          elim (find_model s)
              as (λ r. find_model s ≡ r → Reaches (suc n + k) (bmc_from find_model ts (suc n) k)) [
                | raised ↦ λ f. rw (e, bmc_from) (rw f tt)
                | out_of_fuel ↦ λ f. rw (e, bmc_from) (rw f tt)
                | done true s' ↦ λ f. rw (e, bmc_from) (rw f (omega arith))
                | done false s' ↦ λ f. rw (e, bmc_from) (rw f later)
              ]
            refl
    ]

bmc-Reaches :
    (find_model : SearchFor) (ts : TransitionSystem) (kmax : ℕ) (a : Answer)
    → bmc find_model ts kmax ≡ some a
    → Reaches (suc kmax) (some a)
unfolding bmc
bmc-Reaches find_model ts kmax a h =
    let all : suc kmax + 0 ≡ suc kmax = omega arith in
    subst (λ m. Reaches m (some a)) all
      (subst (λ o. Reaches (suc kmax + 0) o) h (bmc_from-Reaches find_model ts (suc kmax) 0))

-- A counterexample at `k` is a shortest one, of `k - 1` steps; a proof covers runs of any length; a
-- stalled run has every run of fewer than `kmax` steps safe.
abbrev pub Sound : TransitionSystem → Sig → Induction → Type 0
Sound ts bad (base_fails k envs s) = BadRun ts bad (k - 1) × NoneBelow ts bad (k - 1)
Sound ts bad (inductive_at k) = (j : ℕ) → ¬ BadRun ts bad j
Sound ts bad (stalled kmax cti) = NoneBelow ts bad kmax

-- The search answers False on the step query of depth `k` only if it has no model.
abbrev pub IsRightStep : SearchFor → TransitionSystem → ℕ → Type 0
IsRightStep find_model ts k =
    (envs : List Env) (s s' : Solver)
    → step_frames ts k ≡ some (envs, s)
    → find_model s ≡ done false s'
    → (μ : Assignment) → formula_val μ s ≡ false

-- The step query of a depth up to `n` to which the search gave no answer.
pub record NoStepAnswer (find_model : SearchFor) (ts : TransitionSystem) (n : ℕ) : Type 0 where
  pub depth : ℕ
  pub within : depth ≤ n
  pub frames : List Env
  pub asked : Solver
  pub built : step_frames ts depth ≡ some (frames, asked)
  pub silent : IsSilentOn find_model asked

-- Without an answer, the search had none for a query of a base case or of a step.
abbrev pub SoundAll : SearchFor → TransitionSystem → ℕ → Sig → Option Induction → Type 0
SoundAll find_model ts n bad none = NoAnswer find_model ts n ⊎ NoStepAnswer find_model ts n
SoundAll find_model ts n bad (some i) = Sound ts bad i

module _ (ts : TransitionSystem) (D : ℕ → Sig) (bad : Sig) (c : CanEncode ts D)
    (numbered : Numbered D bad) (names : ReadsNames ts bad) (has_bad : ts.bad ≡ some bad)
    (find_model : SearchFor) (kmax : ℕ) (right : IsRightBelow find_model ts kmax)
    (step_right : (k : ℕ) → 0 < k → k ≤ kmax → IsRightStep find_model ts k) where
  -- The base case of depth `k`.
  base_case :
      (k : ℕ)
      → 0 < k
      → k ≤ kmax
      → RightAll find_model ts (suc (k - 1)) bad (bmc find_model ts (k - 1))
  base_case k pos_k within =
      bmc-Right ts D bad c numbered names has_bad find_model (k - 1)
        (λ j lt. right j (omega (arith, lt, within, pos_k)))

  -- A counterexample of the base case has the last depth that it looks at.
  last_depth :
      (k j : ℕ) (envs : List Env) (s : Solver)
      → 0 < k
      → k ≤ kmax
      → NoneBelow ts bad (k - 1)
      → bmc find_model ts (k - 1) ≡ some (cex j envs s)
      → BadRun ts bad (k - 1)
  last_depth k j envs s pos_k within below h =
      let r : Right ts bad (cex j envs s) =
        subst (λ o. RightAll find_model ts (suc (k - 1)) bad o) h (base_case k pos_k within) in
      let reached = bmc-Reaches find_model ts (k - 1) (cex j envs s) h in
      elim (Bool-cases (j == k - 1)) [
        | inl e ↦ subst (λ i. BadRun ts bad i) ((==_iff j (k - 1)).0 e) (r.0)
        | inr e ↦ absurd (below j (ground (arith, reached, e, pos_k)) (r.0))
      ]

  all_depths :
      (k j : ℕ)
      → 0 < k
      → k ≤ kmax
      → bmc find_model ts (k - 1) ≡ some (safe_up_to j)
      → NoneBelow ts bad k
  all_depths k j pos_k within h =
      let r : Right ts bad (safe_up_to j) =
        subst (λ o. RightAll find_model ts (suc (k - 1)) bad o) h (base_case k pos_k within) in
      let at_end = bmc-Reaches find_model ts (k - 1) (safe_up_to j) h in
      subst (λ i. NoneBelow ts bad i) (omega (arith, at_end, pos_k)) r

  induct_from-Sound :
      (n k : ℕ) (cti : Option (List Env × Solver))
      → 0 < k
      → n + k ≡ suc kmax
      → NoneBelow ts bad (k - 1)
      → SoundAll find_model ts kmax bad (induct_from find_model ts kmax n k cti)
  unfolding induct_from
  induct_from-Sound zero k cti pos_k len below =
      subst (λ i. NoneBelow ts bad i) (omega (arith, len)) below
  induct_from-Sound (suc n) k cti pos_k len below =
      let within : k ≤ kmax = omega (arith, len) in
      elim (bmc find_model ts (k - 1))
          as (λ r.
            bmc find_model ts (k - 1) ≡ r
            → SoundAll find_model ts kmax bad (induct_from find_model ts kmax (suc n) k cti)) [
              | none ↦ λ e.
                  let r : NoAnswer find_model ts (suc (k - 1)) =
                    subst (λ o. RightAll find_model ts (suc (k - 1)) bad o) e
                      (base_case k pos_k within) in
                  let silent : NoAnswer find_model ts kmax = record {
                    depth = r.depth;
                    within = omega (arith, r.within, within, pos_k);
                    frames = r.frames;
                    asked = r.asked;
                    built = r.built;
                    silent = r.silent;
                  } in
                  rw (e, induct_from) (inl silent)
              | some (cex j envs s) ↦
                  λ e. rw (e, induct_from) (last_depth k j envs s pos_k within below e, below)
              | some (safe_up_to j) ↦ λ e. elim (Option-cases (step_frames ts k)) [
                | inl f ↦
                    let built = step_frames-returns ts D bad c numbered names has_bad k in
                    let no : ◌≡◌ {A = Option (List Env × Solver)} none (some (built.0)) =
                      sym f ∙ built.1 in
                    cc
                | inr ((envs, s), f) ↦
                    let safe = all_depths k j pos_k within e in
                    let below' : NoneBelow ts bad (suc k - 1) =
                      subst (λ i. NoneBelow ts bad i) (omega arith) safe in
                    let unanswered : IsSilentOn find_model s → NoStepAnswer find_model ts kmax =
                      λ silent. record {
                        depth = k;
                        within = within;
                        frames = envs;
                        asked = s;
                        built = f;
                        silent = silent;
                      } in
                    elim (find_model s)
                        as (λ r.
                          find_model s ≡ r
                          → SoundAll find_model ts kmax bad
                              (induct_from find_model ts kmax (suc n) k cti)) [
                                | raised ↦ λ g.
                                    rw (e, f, induct_from)
                                      (rw g (inr (unanswered (raised-IsSilentOn find_model s g))))
                                | out_of_fuel ↦ λ g.
                                    rw (e, f, induct_from)
                                      (rw g
                                        (inr (unanswered (out_of_fuel-IsSilentOn find_model s g))))
                                | done true s' ↦ λ g.
                                    let rest =
                                      induct_from-Sound n (suc k) (some (envs, s')) (omega arith)
                                        (omega (arith, len)) below' in
                                    rw (e, f, induct_from) (rw g rest)
                                | done false s' ↦ λ g.
                                    let closed : IsClosed ts bad k =
                                      step_frames-IsClosed ts D bad c numbered names has_bad k envs
                                        s f (step_right k pos_k within envs s s' f g) in
                                    let proved : (j : ℕ) → ¬ BadRun ts bad j =
                                      closed-safe ts bad k pos_k safe closed in
                                    rw (e, f, induct_from) (rw g proved)
                              ]
                      refl
              ]
            ]
        refl

-- For a system whose state bits have reset values and next-state functions over its own names,
-- with unambiguous node ids and inputs apart from the state bits, and whose bad signal is one over
-- its names too, and where for each base query of a depth under kmax solve answers True only if it
-- has a model and False only if it has none, and for each step query of a depth from 1 to kmax
-- False only if it has none: k_induction with solve answers, unless solve has no answer to one of
-- those queries. If it answers CEX at k, a run of k - 1 steps from reset ends in a bad state and
-- no shorter one does; if it answers PROVED at k, no run of any length from reset ends in a bad
-- state; if it answers STALLED, no run of fewer than kmax steps from reset does.
pub k_induction-Sound :
    (ts : TransitionSystem) (D : ℕ → Sig) (bad : Sig)
    → CanEncode ts D
    → Numbered D bad
    → ReadsNames ts bad
    → ts.bad ≡ some bad
    → (f : ℕ) (gt : FloatTest) (kmax : ℕ) → IsRightBelow (solve f gt []) ts kmax
    → ((k : ℕ) → 0 < k → k ≤ kmax → IsRightStep (solve f gt []) ts k)
    → SoundAll (solve f gt []) ts kmax bad (k_induction (solve f gt []) ts kmax)
unfolding k_induction
k_induction-Sound ts D bad c numbered names has_bad f gt kmax right step_right =
    induct_from-Sound ts D bad c numbered names has_bad (solve f gt []) kmax right step_right kmax 1
      none (omega arith) (omega arith) (λ j lt. absurd (omega (arith, lt)))
