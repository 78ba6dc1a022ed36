-- ===== src/Sat/Solve/Grows.antt =====
-- cdcl.py: what `_enqueue` and `_propagate` keep of the assignment.
use emergent_hardware_verifi.Sat.Literal.{ℤ, variable, neg, is_pos}
use emergent_hardware_verifi.Sat.Propagate.{
  raised, propagate, out_of_fuel, move, keep, done, clash, Run, visit_lits, visit_all, visit,
  set_lits, is_true, is_false, imply, front, find_watch,
}
use emergent_hardware_verifi.Sat.Solver.{with_assigned, watch, value, enqueue, Solver, Ref}
use emergent_hardware_verifi.Prelude.{
  zero, suc, ◌+◌, ◌≡◌, ◌∷◌, ◌∙◌, ℕ, sym, subst, some, refl, none, inr, inl, get_elem?, flip,
  if◌then◌else◌, ap, [], Option-cases, Option, List, Bool-cases, Bool, ==_iff, ◌==◌, ◌++◌,
}

-- What is assigned stays as it is.
abbrev pub Grows : Solver → Solver → Type 0
Grows s s' = (v : ℕ) (b : Bool) → s.assign v ≡ some (some b) → s'.assign v ≡ some (some b)

abbrev pub Growing : {A : Type 0} → Solver → Option (A × Solver) → Type 0
Growing s none = Unit {0}
Growing s (some (_, s')) = Grows s s'

pub Grows-trans : (s t u : Solver) → Grows s t → Grows t u → Grows s u
Grows-trans s t u g h v b e = h v b (g v b e)

Growing-after :
    {A : Type 0} (s t : Solver) (o : Option (A × Solver)) → Grows s t → Growing t o → Growing s o
Growing-after s t none g h = tt
Growing-after s t (some (a, u)) g h = Grows-trans s t u g h

with_assigned-Grows :
    (s : Solver) (l : ℤ) (why : Option Ref)
    → s.assign (variable l) ≡ some none
    → Grows s (with_assigned l why s)
with_assigned-Grows s l why free v b e = elim (Bool-cases (variable l == v)) [
  | inr other ↦ rw other e
  | inl same ↦
      let here : s.assign v ≡ some none = ap s.assign (sym ((==_iff _ _).0 same)) ∙ free in
      let bad : some none ≡ some (some b) = sym here ∙ e in cc
]

-- A literal without a value has an unassigned variable.
value_none : (l : ℤ) (s : Solver) → value l s ≡ some none → s.assign (variable l) ≡ some none
unfolding value
value_none l s h = elim (Option-cases (s.assign (variable l))) [
  | inl e ↦ let bad : none ≡ some none = sym (rw (e, value) refl) ∙ h in cc
  | inr (none, e) ↦ e
  | inr (some b, e) ↦
      let bad : some (some (if is_pos l then b else flip b)) ≡ some none =
        sym (rw (e, value) refl) ∙ h in
      cc
]

pub enqueue-Growing : (l : ℤ) (why : Option Ref) (s : Solver) → Growing s (enqueue l why s)
unfolding enqueue
enqueue-Growing l why s = elim (Option-cases (value l s)) [
  | inl e ↦ rw (e, enqueue) tt
  | inr (none, e) ↦ rw (e, enqueue) (with_assigned-Grows s l why (value_none l s e))
  | inr (some b, e) ↦ rw (e, enqueue) (λ v c h. h)
]

imply-Growing : (l : ℤ) (c : Ref) (v : Option Bool) (s : Solver) → Growing s (imply l c v s)
unfolding imply
imply-Growing l c v s = elim (Bool-cases (is_false v)) [
  | inl e ↦ rw (e, imply) (λ u b h. h)
  | inr e ↦ elim (Option-cases (enqueue l (some c) s)) [
    | inl k ↦ rw (e, imply) (rw k tt)
    | inr ((b, s'), k) ↦
        let g : Growing s (some (b, s')) =
          subst (λ o. Growing s o) k (enqueue-Growing l (some c) s) in
        rw (e, imply) (rw k g)
  ]
]

watch-Growing : (l : ℤ) (c : Ref) (s : Solver) → Growing s (watch l c s)
unfolding watch
watch-Growing l c s = elim (Option-cases (s.watches (neg l))) [
  | inl e ↦ rw (e, watch) tt
  | inr (ws, e) ↦ rw (e, watch) (λ u b h. h)
]

visit_lits-Growing : (c : Ref) (lits : List ℤ) (s : Solver) → Growing s (visit_lits c lits s)
unfolding visit_lits
visit_lits-Growing c [] s = tt
visit_lits-Growing c (a ∷ []) s = tt
visit_lits-Growing c (first ∷ old ∷ ls) s = elim (Option-cases (value first s)) [
  | inl e ↦ rw (e, visit_lits) tt
  | inr (v, e) ↦ elim (Bool-cases (is_true v)) [
    | inl k ↦ rw (e, visit_lits) (rw k (λ u b h. h))
    | inr k ↦ elim (Option-cases (find_watch s old ls)) [
      | inl f ↦ rw (e, visit_lits) (rw (k, f) tt)
      | inr (none, f) ↦ rw (e, visit_lits) (rw (k, f) (imply-Growing first c v s))
      | inr (some (m, ls'), f) ↦
          let s1 = set_lits c (first ∷ m ∷ ls') s in
          elim (Option-cases (watch m c s1)) [
            | inl w ↦ rw (e, visit_lits) (rw (k, f) (rw w tt))
            | inr ((u, s2), w) ↦
                let g : Growing s (some (u, s2)) =
                  subst (λ o. Growing s1 o) w (watch-Growing m c s1) in
                rw (e, visit_lits) (rw (k, f) (rw w g))
          ]
    ]
  ]
]

visit-Growing : (p : ℤ) (c : Ref) (s : Solver) → Growing s (visit p c s)
unfolding visit
visit-Growing p c s = elim (Option-cases (get_elem? s.store c)) [
  | inl e ↦ rw (e, visit) tt
  | inr (cl, e) ↦
      let lits = front (neg p) cl.lits in
      rw (e, visit) (visit_lits-Growing c lits (set_lits c lits s))
]

visit_all-Growing :
    (p : ℤ) (ws new_ws : List Ref) (s : Solver) → Growing s (visit_all p ws new_ws s)
unfolding visit_all
visit_all-Growing p [] new_ws s = λ v b h. h
visit_all-Growing p (c ∷ ws) new_ws s = elim (Option-cases (visit p c s)) [
  | inl e ↦ rw (e, visit_all) tt
  | inr ((w, s'), e) ↦
      let g : Growing s (some (w, s')) = subst (λ o. Growing s o) e (visit-Growing p c s) in
      let kept = visit_all-Growing p ws (new_ws ++ c ∷ []) s' in
      let moved = visit_all-Growing p ws new_ws s' in
      elim w as (λ w. visit p c s ≡ some (w, s') → Growing s (visit_all p (c ∷ ws) new_ws s)) [
        | keep ↦ λ e. rw (e, visit_all) (Growing-after s s' _ g kept)
        | move ↦ λ e. rw (e, visit_all) (Growing-after s s' _ g moved)
        | clash ↦ λ e. rw (e, visit_all) g
      ]
        e
]

-- Propagation that ends keeps what is assigned.
abbrev pub Propagating : Solver → Run (Option Ref) → Type 0
Propagating s (done confl s') = Grows s s'
Propagating s raised = Unit {0}
Propagating s out_of_fuel = Unit {0}

Propagating-after :
    (s t : Solver) (r : Run (Option Ref)) → Grows s t → Propagating t r → Propagating s r
Propagating-after s t (done confl u) g h = Grows-trans s t u g h
Propagating-after s t raised g h = tt
Propagating-after s t out_of_fuel g h = tt

pub propagate-Propagating : (f : ℕ) (s : Solver) → Propagating s (propagate f s)
unfolding propagate
propagate-Propagating zero s = tt
propagate-Propagating (suc f) s = elim (Option-cases (get_elem? s.trail s.qhead)) [
  | inl e ↦ rw (e, propagate) (λ v b h. h)
  | inr (p, e) ↦ elim (Option-cases (s.watches p)) [
    | inl k ↦ rw (e, propagate) (rw k tt)
    | inr (ws, k) ↦
        let s0 = record s { qhead = s.qhead + 1 } in
        elim (Option-cases (visit_all p ws [] s0)) [
          | inl r ↦ rw (e, propagate) (rw (k, r) tt)
          | inr ((confl, s'), r) ↦
              let g : Growing s (some (confl, s')) =
                subst (λ o. Growing s0 o) r (visit_all-Growing p ws [] s0) in
              let rest = propagate-Propagating f s' in
              elim confl
                  as (λ x.
                    visit_all p ws [] s0 ≡ some (x, s') → Propagating s (propagate (suc f) s)) [
                      | none ↦ λ r. rw (e, propagate) (rw (k, r) (Propagating-after s s' _ g rest))
                      | some c ↦ λ r. rw (e, propagate) (rw (k, r) g)
                    ]
                r
        ]
  ]
]

-- Propagation that ends without a conflict has read the whole trail.
abbrev pub Exhausts : Run (Option Ref) → Type 0
Exhausts (done none s) = get_elem? s.trail s.qhead ≡ none
Exhausts (done (some c) s) = Unit {0}
Exhausts raised = Unit {0}
Exhausts out_of_fuel = Unit {0}

pub propagate-Exhausts : (f : ℕ) (s : Solver) → Exhausts (propagate f s)
unfolding propagate
propagate-Exhausts zero s = tt
propagate-Exhausts (suc f) s = elim (Option-cases (get_elem? s.trail s.qhead)) [
  | inl e ↦ rw (e, propagate) e
  | inr (p, e) ↦ elim (Option-cases (s.watches p)) [
    | inl k ↦ rw (e, propagate) (rw k tt)
    | inr (ws, k) ↦ elim (Option-cases (visit_all p ws [] (record s { qhead = s.qhead + 1 }))) [
      | inl r ↦ rw (e, propagate) (rw (k, r) tt)
      | inr ((none, s'), r) ↦ rw (e, propagate) (rw (k, r) (propagate-Exhausts f s'))
      | inr ((some c, s'), r) ↦ rw (e, propagate) (rw (k, r) tt)
    ]
  ]
]
