-- ===== src/Sat/Solve/Branch.antt =====
-- cdcl.py, `_pick_branch`: it gives up only when every variable has a value.
use emergent_hardware_verifi.Sat.Literal.{pos, negsuc}
use emergent_hardware_verifi.Sat.Solve.{pick_branch, pick, better}
use emergent_hardware_verifi.Sat.Analyze.{FloatTest}
use emergent_hardware_verifi.Sat.Solver.{literal, Solver, Float}
use emergent_hardware_verifi.Prelude.{
  Option, ◌≤◌, ◌≢◌, ◌≡◌, ◌∙◌, ℕ, zero, true, sym, suc, subst, some, refl, none, inr, inl, false,
  arith, ap, Option-cases, Bool-cases, Bool, ==_iff, ◌==◌, ◌<◌, ◌+◌,
}
use mathlib.Core.Option.{get_or}

-- The variable has a value.
abbrev pub IsAssigned : Solver → ℕ → Type 0
IsAssigned s v = (b : Bool) × (s.assign v ≡ some (some b))

-- All scores are above the bound that the loop starts from.
abbrev pub IsScored : FloatTest → Solver → Type 0
IsScored gt s = (v : ℕ) (x : Float) → s.activity v ≡ some x → gt x (literal "-1.0") ≡ true

pick-positive :
    (gt : FloatTest) (k v best : ℕ) (a : Float) (s : Solver)
    → pick gt k (suc v) (suc best) a s ≢ some 0
unfolding pick
pick-positive gt zero v best a s h = ground arith
pick-positive gt (suc k) v best a s h = elim (Option-cases (better gt (suc v) a s)) [
  | inl e ↦ let bad : ◌≡◌ {A = Option ℕ} none (some 0) = sym (rw (e, pick) refl) ∙ h in cc
  | inr ((true, x), e) ↦ pick-positive gt k (suc v) v x s (sym (rw (e, pick) refl) ∙ h)
  | inr ((false, x), e) ↦ pick-positive gt k (suc v) best a s (sym (rw (e, pick) refl) ∙ h)
]

-- What the test says of a variable that does not win against the first bound.
better-IsAssigned :
    (gt : FloatTest) (s : Solver)
    → IsScored gt s
    → (v : ℕ) (x : Float) → better gt v (literal "-1.0") s ≡ some (false, x)
    → IsAssigned s v
unfolding better
better-IsAssigned gt s scored v x h = elim (Option-cases (s.assign v)) [
  | inl e ↦
      let bad : ◌≡◌ {A = Option (Bool × Float)} none (some (false, x)) =
        sym (rw (e, better) refl) ∙ h in
      cc
  | inr (some b, e) ↦ (b, e)
  | inr (none, e) ↦ elim (Option-cases (s.activity v)) [
    | inl k ↦
        let bad : ◌≡◌ {A = Option (Bool × Float)} none (some (false, x)) =
          sym (rw (e, better) (rw k refl)) ∙ h in
        cc
    | inr (y, k) ↦
        let both : some (true, y) ≡ some (false, x) =
          sym (rw (e, better) (rw k (rw (scored v y k) refl))) ∙ h in
        let bad : true ≡ false = ap (λ o. (get_or {A = Bool × Float} o (true, y)).0) both in cc
  ]
]

pick-IsAssigned :
    (gt : FloatTest) (s : Solver)
    → IsScored gt s
    → (k v : ℕ) → pick gt k (suc v) 0 (literal "-1.0") s ≡ some 0
    → (u : ℕ) → v < u
    → u ≤ v + k
    → IsAssigned s u
unfolding pick
pick-IsAssigned gt s scored zero v h u lo hi = absurd (omega arith)
pick-IsAssigned gt s scored (suc k) v h u lo hi =
    elim (Option-cases (better gt (suc v) (literal "-1.0") s)) [
      | inl e ↦ let bad : ◌≡◌ {A = Option ℕ} none (some 0) = sym (rw (e, pick) refl) ∙ h in cc
      | inr ((true, x), e) ↦ absurd (pick-positive gt k (suc v) v x s (sym (rw (e, pick) refl) ∙ h))
      | inr ((false, x), e) ↦ elim (Bool-cases (u == suc v)) [
        | inl same ↦
            subst (λ w. IsAssigned s w) (sym ((==_iff u (suc v)).0 same))
              (better-IsAssigned gt s scored (suc v) x e)
        | inr other ↦
            pick-IsAssigned gt s scored k (suc v) (sym (rw (e, pick) refl) ∙ h) u
              (ground (arith, lo, other)) (omega (arith, hi))
      ]
    ]

branch_zero :
    (gt : FloatTest) (s : Solver)
    → pick_branch gt s ≡ some (pos 0)
    → pick gt s.n_vars 1 0 (literal "-1.0") s ≡ some 0
unfolding pick_branch
branch_zero gt s h = elim (Option-cases (pick gt s.n_vars 1 0 (literal "-1.0") s)) [
  | inl e ↦ let bad : none ≡ some (pos 0) = sym (rw (e, pick_branch) refl) ∙ h in cc
  | inr (zero, e) ↦ e
  | inr (suc v, e) ↦ elim (Option-cases (s.phase (suc v))) [
    | inl k ↦ let bad : none ≡ some (pos 0) = sym (rw (e, pick_branch) (rw k refl)) ∙ h in cc
    | inr (true, k) ↦
        let bad : some (pos (suc v)) ≡ some (pos 0) = sym (rw (e, pick_branch) (rw k refl)) ∙ h in
        cc
    | inr (false, k) ↦
        let bad : some (negsuc v) ≡ some (pos 0) = sym (rw (e, pick_branch) (rw k refl)) ∙ h in cc
  ]
]

pub pick_branch-IsAssigned :
    (gt : FloatTest) (s : Solver)
    → IsScored gt s
    → pick_branch gt s ≡ some (pos 0)
    → (v : ℕ) → 0 < v
    → v ≤ s.n_vars
    → IsAssigned s v
pick_branch-IsAssigned gt s scored h v lo hi =
    pick-IsAssigned gt s scored s.n_vars 0 (branch_zero gt s h) v lo (omega (arith, hi))
