-- ===== src/Kinduction/Window.antt =====
-- A window of k + 1 states that the step query excludes: what follows for runs of any length.
use emergent_hardware_verifi.MulSampler.{run}
use emergent_hardware_verifi.Circuit.Meaning.{eval, Valuation}
use emergent_hardware_verifi.Frame.{TransitionSystem}
use emergent_hardware_verifi.Circuit.Sig.{Sig}
use emergent_hardware_verifi.Bmc.Answers.{NoneBelow}
use emergent_hardware_verifi.Bmc.Check.{last_of, BadRun}
use emergent_hardware_verifi.Prelude.{
  ◌≤◌, ◌≡◌, ◌∷◌, ◌∙◌, ℕ, zero, true, sym, suc, refl, ltb, length, inr, inl, false, arith, ap, [],
  List, Bool-cases, ◌<◌,
}
use emergent_hardware_verifi.Frame.Runs.{IsPathFrom}

-- The first `n` states after the start.
unfoldable pub first_of : ℕ → List Valuation → List Valuation
first_of zero ρs = []
first_of (suc n) [] = []
first_of (suc n) (ρ ∷ ρs) = ρ ∷ first_of n ρs

-- Every state but the last has the property.
abbrev pub LastBad : Sig → Valuation → List Valuation → Type 0
LastBad bad ρ [] = eval ρ bad ≡ true
LastBad bad ρ (σ ∷ σs) = (eval ρ bad ≡ false) × LastBad bad σ σs

-- The first `k` states, as far as there are any, have the property.
abbrev GoodFirst : Sig → ℕ → Valuation → List Valuation → Type 0
GoodFirst bad zero ρ ρs = Unit {0}
GoodFirst bad (suc k) ρ [] = eval ρ bad ≡ false
GoodFirst bad (suc k) ρ (σ ∷ σs) = (eval ρ bad ≡ false) × GoodFirst bad k σ σs

length-first_of : (n : ℕ) (ρs : List Valuation) → n ≤ length ρs → length (first_of n ρs) ≡ n
unfolding first_of
length-first_of zero ρs h = refl
length-first_of (suc n) [] h = absurd (omega (arith, h))
length-first_of (suc n) (ρ ∷ ρs) h = ap suc (length-first_of n ρs (omega (arith, h)))

IsPathFrom-first_of :
    (ts : TransitionSystem) (n : ℕ) (ρ : Valuation) (ρs : List Valuation)
    → IsPathFrom ts ρ ρs
    → IsPathFrom ts ρ (first_of n ρs)
unfolding first_of
IsPathFrom-first_of ts zero ρ ρs p = tt
IsPathFrom-first_of ts (suc n) ρ [] p = tt
IsPathFrom-first_of ts (suc n) ρ (σ ∷ σs) p = (p.0, IsPathFrom-first_of ts n σ σs p.1)

first_of-LastBad :
    (bad : Sig) (k : ℕ) (ρ : Valuation) (ρs : List Valuation)
    → GoodFirst bad k ρ ρs
    → k ≤ length ρs
    → eval (last_of ρ (first_of k ρs)) bad ≡ true
    → LastBad bad ρ (first_of k ρs)
unfolding first_of last_of
first_of-LastBad bad zero ρ ρs g h e = e
first_of-LastBad bad (suc k) ρ [] g h e = absurd (omega (arith, h))
first_of-LastBad bad (suc k) ρ (σ ∷ σs) g h e =
    (g.0, first_of-LastBad bad k σ σs g.1 (omega (arith, h)) e)

one_more_good :
    (bad : Sig) (k : ℕ) (ρ : Valuation) (ρs : List Valuation)
    → GoodFirst bad k ρ ρs
    → k ≤ length ρs
    → eval (last_of ρ (first_of k ρs)) bad ≡ false
    → GoodFirst bad (suc k) ρ ρs
unfolding first_of last_of
one_more_good bad zero ρ [] g h e = e
one_more_good bad zero ρ (σ ∷ σs) g h e = (e, tt)
one_more_good bad (suc k) ρ [] g h e = absurd (omega (arith, h))
one_more_good bad (suc k) ρ (σ ∷ σs) g h e =
    (g.0, one_more_good bad k σ σs g.1 (omega (arith, h)) e)

good_first :
    (bad : Sig) (k : ℕ) (ρ : Valuation) (ρs : List Valuation)
    → ((i : ℕ) → i < k → i ≤ length ρs → eval (last_of ρ (first_of i ρs)) bad ≡ false)
    → GoodFirst bad k ρ ρs
unfolding first_of last_of
good_first bad zero ρ ρs h = tt
good_first bad (suc k) ρ [] h = h 0 (omega arith) (omega arith)
good_first bad (suc k) ρ (σ ∷ σs) h = (
  h 0 (omega arith) (omega arith),
  good_first bad k σ σs (λ i lt le. h (suc i) (omega (arith, lt)) (omega (arith, le))),
)

-- No `k` states with the property lead to one without.
abbrev pub IsClosed : TransitionSystem → Sig → ℕ → Type 0
IsClosed ts bad k =
    (ρ : Valuation) (ρs : List Valuation) → length ρs ≡ k → IsPathFrom ts ρ ρs → ¬ LastBad bad ρ ρs

good_last :
    (bad : Sig) (k : ℕ) (ρ : Valuation) (ρs : List Valuation)
    → GoodFirst bad k ρ ρs
    → length ρs < k
    → eval (last_of ρ ρs) bad ≡ false
unfolding last_of
good_last bad zero ρ ρs g h = absurd (omega (arith, h))
good_last bad (suc k) ρ [] g h = g
good_last bad (suc k) ρ (σ ∷ σs) g h = good_last bad k σ σs g.1 (omega (arith, h))

closed-good :
    (ts : TransitionSystem) (bad : Sig) (k : ℕ)
    → 0 < k
    → IsClosed ts bad k
    → (ρ : Valuation) (ρs : List Valuation) → IsPathFrom ts ρ ρs
    → GoodFirst bad k ρ ρs
    → eval (last_of ρ ρs) bad ≡ false
unfolding last_of
closed-good ts bad k pos_k closed ρ [] p g = good_last bad k ρ [] g pos_k
closed-good ts bad k pos_k closed ρ (σ ∷ σs) p g = elim (Bool-cases (ltb (length (σ ∷ σs)) k)) [
  | inl e ↦ good_last bad k ρ (σ ∷ σs) g (ground (arith, e))
  | inr e ↦
      let le : k ≤ length (σ ∷ σs) = ground (arith, e) in
      elim (Bool-cases (eval (last_of ρ (first_of k (σ ∷ σs))) bad)) [
        | inl is_bad ↦ absurd (
            closed ρ (first_of k (σ ∷ σs)) (length-first_of k (σ ∷ σs) le)
              (IsPathFrom-first_of ts k ρ (σ ∷ σs) p)
              (first_of-LastBad bad k ρ (σ ∷ σs) g le is_bad))
        | inr not_bad ↦
            let more = one_more_good bad k ρ (σ ∷ σs) g le not_bad in
            closed-good ts bad k pos_k closed σ σs p.1 more.1
      ]
]

-- If no run of fewer than k steps from reset ends bad, and k good states never lead to a bad one,
-- no run does.
pub closed-safe :
    (ts : TransitionSystem) (bad : Sig) (k : ℕ)
    → 0 < k
    → NoneBelow ts bad k
    → IsClosed ts bad k
    → (j : ℕ) → ¬ BadRun ts bad j
closed-safe ts bad k pos_k below closed j run =
    let firsts : GoodFirst bad k run.start run.later =
      good_first bad k run.start run.later (λ i lt le. prefix_good i lt le) in
    let fine = closed-good ts bad k pos_k closed run.start run.later run.path firsts in
    let no : false ≡ true = sym fine ∙ run.ends_bad in cc
  where
    prefix_good :
        (i : ℕ)
        → i < k
        → i ≤ length run.later
        → eval (last_of run.start (first_of i run.later)) bad ≡ false
    prefix_good i lt le = elim (Bool-cases (eval (last_of run.start (first_of i run.later)) bad)) [
      | inr e ↦ e
      | inl e ↦ absurd (
          below i lt (record {
            start = run.start;
            later = first_of i run.later;
            steps = length-first_of i run.later le;
            starts = run.starts;
            path = IsPathFrom-first_of ts i run.start run.later run.path;
            ends_bad = e;
          }))
    ]
