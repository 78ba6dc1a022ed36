-- ===== src/Sat/Solve/Answer.antt =====
-- cdcl.py, `solve`: what the answer True stands for.
use emergent_hardware_verifi.Sat.Solve.Branch.{pick_branch-IsAssigned, IsScored, IsAssigned}
use mathlib.Core.Option.{get_or}
use emergent_hardware_verifi.Sat.Propagate.{propagate, raised, out_of_fuel, done, Run}
use emergent_hardware_verifi.Sat.Literal.{int_eq_iff, int_eq, ℤ, variable, pos, negsuc, is_pos}
use emergent_hardware_verifi.Sat.Solver.{
  cancel_until, decision_level, with_assigned, value, new_decision_level, enqueue, Solver, Ref,
}
use emergent_hardware_verifi.Sat.Solve.{
  start_search, solve, new_search, solve_loop, round, propagate_all, on_conflict, no_model,
  no_conflict, maybe_restart, learn, after_propagation, decide, continue_with, assumption_core,
  assume, Search, stuck, starved, pick_branch, more, decide_on, answer, Outcome,
}
use emergent_hardware_verifi.Sat.Solve.Grows.{
  propagate-Propagating, propagate-Exhausts, Propagating, Exhausts, enqueue-Growing, Grows, Growing,
}
use emergent_hardware_verifi.Sat.Analyze.{FloatTest}
use emergent_hardware_verifi.Prelude.{
  ◌≤◌, ◌∷◌, leb, [], take, ◌≡◌, ◌∙◌, ℕ, zero, true, sym, suc, subst, some, refl, none, inr, inl,
  get_elem?, flip, false, if◌then◌else◌, arith, ap, Option-cases, Option, List, Bool-cases, Bool,
  ==_iff, ◌==◌, ◌<◌, ◌+◌,
}

-- The first `n` assumptions hold.
abbrev pub HoldFirst : List ℤ → ℕ → Solver → Type 0
HoldFirst given n s =
    (i : ℕ) (a : ℤ) → i < n → get_elem? given i ≡ some a → value a s ≡ some (some true)

-- The state in which the search gives up deciding.
pub record Searched (gt : FloatTest) (given : List ℤ) (s : Solver) : Type 0 where
  pub assumed : (i : ℕ) (a : ℤ) → get_elem? given i ≡ some a → value a s ≡ some (some true)
  pub propagated : get_elem? s.trail s.qhead ≡ none
  pub none_left : pick_branch gt s ≡ some (pos 0)

-- The state at the answer True: the assumptions hold, the trail has been read to its end, and every
-- variable has a value.
pub record Answers (given : List ℤ) (s : Solver) : Type 0 where
  pub assumed : (i : ℕ) (a : ℤ) → get_elem? given i ≡ some a → value a s ≡ some (some true)
  pub propagated : get_elem? s.trail s.qhead ≡ none
  pub complete : (v : ℕ) → 0 < v → v ≤ s.n_vars → IsAssigned s v

-- The index of an element is below one that is out of range.
get_elem?-below :
    (xs : List ℤ) (i n : ℕ) (a : ℤ) → get_elem? xs n ≡ none → get_elem? xs i ≡ some a → i < n
get_elem?-below [] i n a e k = cc
get_elem?-below (x ∷ xs) i zero a e k = cc
get_elem?-below (x ∷ xs) zero (suc n) a e k = omega arith
get_elem?-below (x ∷ xs) (suc i) (suc n) a e k =
    let rest = get_elem?-below xs i n a e k in omega arith

value-Grows :
    (a : ℤ) (b : Bool) (s s' : Solver)
    → Grows s s'
    → value a s ≡ some (some b)
    → value a s' ≡ some (some b)
unfolding value
value-Grows a b s s' g h = elim (Option-cases (s.assign (variable a))) [
  | inl e ↦ let bad : none ≡ some (some b) = sym (rw (e, value) refl) ∙ h in cc
  | inr (none, e) ↦ let bad : some none ≡ some (some b) = sym (rw (e, value) refl) ∙ h in cc
  | inr (some c, e) ↦
      let same : some (some (if is_pos a then c else flip c)) ≡ some (some b) =
        sym (rw (e, value) refl) ∙ h in
      rw (g (variable a) c e, value) same
]

HoldFirst-Grows :
    (given : List ℤ) (n : ℕ) (s s' : Solver)
    → Grows s s'
    → HoldFirst given n s
    → HoldFirst given n s'
HoldFirst-Grows given n s s' g h i a lt e = value-Grows a true s s' g (h i a lt e)

HoldFirst-suc :
    (given : List ℤ) (n : ℕ) (a : ℤ) (s : Solver)
    → HoldFirst given n s
    → get_elem? given n ≡ some a
    → value a s ≡ some (some true)
    → HoldFirst given (n + 1) s
HoldFirst-suc given n a s h e v i b lt k = elim (Bool-cases (i == n)) [
  | inl same ↦
      let at_n : get_elem? given n ≡ some b =
        ap (get_elem? given) (sym ((==_iff i n).0 same)) ∙ k in
      let both : some a ≡ some b = sym e ∙ at_n in
      subst (λ x. value x s ≡ some (some true)) (ap (λ o. get_or o a) both) v
  | inr other ↦ h i b (ground (arith, lt, other)) k
]

-- What holds of a round that goes on with `ui` assumptions, or answers True.
abbrev Good : FloatTest → List ℤ → Outcome → Type 0
Good gt given (more st s) = HoldFirst given st.ui s
Good gt given (answer true s) = Searched gt given s
Good gt given (answer false s) = Unit {0}
Good gt given stuck = Unit {0}
Good gt given starved = Unit {0}

-- A decided literal holds, and what was assigned stays.
abbrev Decides : ℤ → Solver → Option Solver → Type 0
Decides a s none = Unit {0}
Decides a s (some s') = Grows s s' × (value a s ≡ some none → value a s' ≡ some (some true))

value-assigned :
    (a : ℤ) (why : Option Ref) (s : Solver) → value a (with_assigned a why s) ≡ some (some true)
unfolding value
value-assigned (pos zero) why s = refl
value-assigned (pos (suc n)) why s = ground arith
value-assigned (negsuc n) why s = ground arith

value-level : (a : ℤ) (s : Solver) → value a (new_decision_level s) ≡ value a s
unfolding value new_decision_level
value-level a s = refl

decide_on-Decides : (a : ℤ) (s : Solver) → Decides a s (decide_on a s)
unfolding decide_on enqueue new_decision_level
decide_on-Decides a s =
    let s1 = new_decision_level s in
    elim (Option-cases (enqueue a none s1)) [
      | inl e ↦ rw (e, decide_on) tt
      | inr ((b, s'), e) ↦
          let g : Growing s1 (some (b, s')) =
            subst (λ o. Growing s1 o) e (enqueue-Growing a none s1) in
          let now : value a s ≡ some none → value a s' ≡ some (some true) = λ h.
            let free : value a s1 ≡ some none = value-level a s ∙ h in
            let one : some (true, with_assigned a none s1) ≡ some (b, s') =
              sym (rw (free, enqueue) refl) ∙ e in
            subst (λ x. value a x.1 ≡ some (some true)) (ap (λ o. get_or o (true, s1)) one)
              (value-assigned a none s1) in
          rw (e, decide_on) (g, now)
    ]

continue_with-Good :
    (gt : FloatTest) (given : List ℤ) (st : Search) (s : Solver) (o : Option Solver)
    → ((s' : Solver) → o ≡ some s' → HoldFirst given st.ui s')
    → Good gt given (continue_with st o)
unfolding continue_with
continue_with-Good gt given st s none h = tt
continue_with-Good gt given st s (some s') h = h s' refl

no_model-Good : (gt : FloatTest) (given : List ℤ) (r : Run (List ℤ)) → Good gt given (no_model r)
unfolding no_model
no_model-Good gt given raised = tt
no_model-Good gt given out_of_fuel = tt
no_model-Good gt given (done core s) = tt

assume-Good :
    (gt : FloatTest) (given : List ℤ) (a : ℤ) (st : Search) (s : Solver)
    → HoldFirst given st.ui s
    → get_elem? given st.ui ≡ some a
    → Good gt given (assume given a (record st { ui = st.ui + 1 }) (value a s) s)
unfolding assume
assume-Good gt given a st s h e = elim (Option-cases (value a s)) [
  | inl k ↦ rw (k, assume) tt
  | inr (some true, k) ↦ rw (k, assume) (HoldFirst-suc given st.ui a s h e k)
  | inr (some false, k) ↦
      rw (k, assume) (no_model-Good gt given (assumption_core a (take (st.ui + 1) given) s))
  | inr (none, k) ↦
      rw (k, assume)
        (continue_with-Good gt given (record st { ui = st.ui + 1 }) s (decide_on a s)
          (λ s' d.
            let (g, now) : Decides a s (some s') =
              subst (λ o. Decides a s o) d (decide_on-Decides a s) in
            HoldFirst-suc given st.ui a s' (HoldFirst-Grows given st.ui s s' g h) e (now k)))
]

decide-Good :
    (gt : FloatTest) (given : List ℤ) (st : Search) (s : Solver)
    → HoldFirst given st.ui s
    → get_elem? given st.ui ≡ none
    → get_elem? s.trail s.qhead ≡ none
    → Good gt given (decide gt st s)
unfolding decide
decide-Good gt given st s h e ended = elim (Option-cases (pick_branch gt s)) [
  | inl k ↦ rw (k, decide) tt
  | inr (l, k) ↦ elim (Bool-cases (int_eq l (pos 0))) [
    | inl z ↦
        rw (k, decide)
          (rw z (record {
            assumed = λ i a q. h i a (get_elem?-below given i st.ui a e q) q;
            propagated = ended;
            none_left = k ∙ ap some ((int_eq_iff l (pos 0)).0 z);
          }))
    | inr z ↦
        rw (k, decide)
          (rw z (
            continue_with-Good gt given st s (decide_on l s) (λ s' d.
              let (g, now) : Decides l s (some s') =
                subst (λ o. Decides l s o) d (decide_on-Decides l s) in
              HoldFirst-Grows given st.ui s s' g h)))
  ]
]

maybe_restart-HoldFirst :
    (given : List ℤ) (st : Search) (s : Solver)
    → st.ui ≡ 0
    → HoldFirst given (maybe_restart st s).0.ui (maybe_restart st s).1
unfolding maybe_restart
maybe_restart-HoldFirst given st s e = elim (Bool-cases (leb st.restart_at st.conflicts)) [
  | inl k ↦ rw (k, maybe_restart) (λ i a lt q. absurd (omega arith))
  | inr k ↦ rw (k, maybe_restart) (λ i a lt q. absurd (omega (arith, e)))
]

on_conflict-Good :
    (gt : FloatTest) (given : List ℤ) (c : Ref) (st : Search) (s : Solver)
    → Good gt given (on_conflict gt c st s)
unfolding on_conflict
on_conflict-Good gt given c st s = elim (Bool-cases (decision_level s == 0)) [
  | inl k ↦ rw (k, on_conflict) tt
  | inr k ↦ elim (Option-cases (learn gt c s)) [
    | inl e ↦ rw (k, on_conflict) (rw e tt)
    | inr (s', e) ↦
        rw (k, on_conflict)
          (rw e (
            maybe_restart-HoldFirst given (record st { conflicts = st.conflicts + 1; ui = 0 }) s'
              refl))
  ]
]

no_conflict-Good :
    (gt : FloatTest) (given : List ℤ) (st : Search) (s : Solver)
    → HoldFirst given st.ui s
    → get_elem? s.trail s.qhead ≡ none
    → Good gt given (no_conflict gt given st s)
unfolding no_conflict
no_conflict-Good gt given st s h ended = elim (Option-cases (get_elem? given st.ui)) [
  | inl e ↦ rw (e, no_conflict) (decide-Good gt given st s h e ended)
  | inr (a, e) ↦ rw (e, no_conflict) (assume-Good gt given a st s h e)
]

after-Good :
    (gt : FloatTest) (given : List ℤ) (st : Search) (s : Solver) (r : Run (Option Ref))
    → HoldFirst given st.ui s
    → Propagating s r
    → Exhausts r
    → Good gt given (after_propagation gt given st r)
unfolding after_propagation
after-Good gt given st s raised h p x = tt
after-Good gt given st s out_of_fuel h p x = tt
after-Good gt given st s (done none s') h p x =
    no_conflict-Good gt given st s' (HoldFirst-Grows given st.ui s s' p h) x
after-Good gt given st s (done (some c) s') h p x = on_conflict-Good gt given c st s'

round-Good :
    (gt : FloatTest) (given : List ℤ) (st : Search) (s : Solver)
    → HoldFirst given st.ui s
    → Good gt given (round gt given st s)
unfolding round propagate_all
round-Good gt given st s h =
    let f = suc s.n_vars in
    after-Good gt given st s (propagate f s) h (propagate-Propagating f s) (propagate-Exhausts f s)

-- What the answer True of the search stands for.
abbrev pub Trusted : FloatTest → List ℤ → Run Bool → Type 0
Trusted gt given (done true s) = Searched gt given s
Trusted gt given (done false s) = Unit {0}
Trusted gt given raised = Unit {0}
Trusted gt given out_of_fuel = Unit {0}

answered :
    (gt : FloatTest) (given : List ℤ) (b : Bool) (s : Solver)
    → Good gt given (answer b s)
    → Trusted gt given (done b s)
answered gt given true s h = h
answered gt given false s h = tt

loop-Trusted :
    (f : ℕ) (gt : FloatTest) (given : List ℤ) (st : Search) (s : Solver)
    → HoldFirst given st.ui s
    → Trusted gt given (solve_loop f gt given st s)
unfolding solve_loop
loop-Trusted zero gt given st s h = tt
loop-Trusted (suc f) gt given st s h =
    elim (round gt given st s)
        as (λ o. round gt given st s ≡ o → Trusted gt given (solve_loop (suc f) gt given st s)) [
          | stuck ↦ λ e. rw (e, solve_loop) tt
          | starved ↦ λ e. rw (e, solve_loop) tt
          | answer b s' ↦ λ e.
              let good : Good gt given (answer b s') =
                subst (λ o. Good gt given o) e (round-Good gt given st s h) in
              rw (e, solve_loop) (answered gt given b s' good)
          | more st' s' ↦ λ e.
              let good : HoldFirst given st'.ui s' =
                subst (λ o. Good gt given o) e (round-Good gt given st s h) in
              rw (e, solve_loop) (loop-Trusted f gt given st' s' good)
        ]
      refl

start-Trusted :
    (f : ℕ) (gt : FloatTest) (given : List ℤ) (r : Run (Option Ref))
    → Trusted gt given (start_search f gt given r)
unfolding start_search
start-Trusted f gt given raised = tt
start-Trusted f gt given out_of_fuel = tt
start-Trusted f gt given (done (some c) s) = tt
start-Trusted f gt given (done none s) =
    loop-Trusted f gt given new_search s (λ i a lt e. absurd (omega arith))

if-Trusted :
    (gt : FloatTest) (given : List ℤ) (b : Bool) (r r' : Run Bool)
    → Trusted gt given r
    → Trusted gt given r'
    → Trusted gt given (if b then r else r')
if-Trusted gt given true r r' h h' = h
if-Trusted gt given false r r' h h' = h'

solve-Trusted :
    (f : ℕ) (gt : FloatTest) (given : List ℤ) (s : Solver) → Trusted gt given (solve f gt given s)
unfolding solve
solve-Trusted f gt given s =
    let first = propagate_all (record (cancel_until 0 s) { qhead = 0; conflict_core = [] }) in
    if-Trusted gt given s.empty (done false s) (start_search f gt given first) tt
      (start-Trusted f gt given first)

-- Whenever solve answers True, in a state where the scores of all variables are above the bound
-- that the branching starts from: every assumption is true in that state, whatever backjumps and
-- restarts came before; propagation has read the whole trail; and every variable has a value.
pub solve-Answers :
    (f : ℕ) (gt : FloatTest) (given : List ℤ) (s s' : Solver)
    → solve f gt given s ≡ done true s'
    → IsScored gt s'
    → Answers given s'
solve-Answers f gt given s s' h scored =
    let r : Searched gt given s' = subst (λ o. Trusted gt given o) h (solve-Trusted f gt given s) in
    record {
      assumed = r.assumed;
      propagated = r.propagated;
      complete = pick_branch-IsAssigned gt s' scored r.none_left;
    }
