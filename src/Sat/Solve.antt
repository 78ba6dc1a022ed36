-- ===== src/Sat/Solve.antt =====
-- cdcl.py: new_vars, `_pick_branch`, `_assumption_core`, `_restart_next`, `solve`, model, get_value.
-- The loops run on fuel; a KeyError is `raised`.
pub mod Grows
pub mod Branch
pub mod Answer
pub mod Tests
use Prim.Native.Nat.{max}
use emergent_hardware_verifi.Sat.Literal.{ℤ, variable, pos, negsuc, member, int_eq}
use emergent_hardware_verifi.Sat.Propagate.{raised, propagate, out_of_fuel, done, Run}
use emergent_hardware_verifi.Sat.Analyze.{record_learnt, lits_of, int_gt, decay, analyze, FloatTest}
use emergent_hardware_verifi.Sat.Solver.{
  value, new_var, new_decision_level, literal, enqueue, decision_level, cancel_until, Solver, Ref,
  M, Float,
}
use emergent_hardware_verifi.Prelude.{
  ◌∷◌, ℕ, ◌||◌, zero, true, take, suc, some, none, leb, get_elem?, false, if◌then◌else◌, [], Option,
  List, Bool, ◌==◌, ◌/◌, ◌+◌, ◌*◌,
}

-- `[self.new_var() for _ in range(k)]`
unfoldable pub new_vars : ℕ → M (List ℕ)
unfolding new_var
new_vars zero s = some ([], s)
new_vars (suc k) s = elim (new_var s) [
  | none ↦ none
  | some (v, s') ↦ elim (new_vars k s') [ none ↦ none | some (vs, s'') ↦ some (v ∷ vs, s'') ]
]

-- The test of the loop of `_pick_branch`: unassigned, and of a higher score than the best.
unfoldable pub better : FloatTest → ℕ → Float → Solver → Option (Bool × Float)
better gt v best_a s = elim (s.assign v) [
  | none ↦ none
  | some a ↦ elim a [
    | some b ↦ some (false, best_a)
    | none ↦ elim (s.activity v) [ none ↦ none | some x ↦ some (gt x best_a, x) ]
  ]
]

-- The loop over the `k` variables from `v` on; it gives the best one, 0 if there is none.
unfoldable pub pick : FloatTest → ℕ → ℕ → ℕ → Float → Solver → Option ℕ
unfolding better
pick gt zero v best best_a s = some best
pick gt (suc k) v best best_a s = elim (better gt v best_a s) [
  | none ↦ none
  | some (b, a) ↦ elim b [
    | true ↦ pick gt k (suc v) v a s
    | false ↦ pick gt k (suc v) best best_a s
  ]
]

-- `_pick_branch()`; LIT_UNDEF is 0.
unfoldable pub pick_branch : FloatTest → Solver → Option ℤ
unfolding pick
pick_branch gt s = elim (pick gt s.n_vars 1 0 (literal "-1.0") s) [
  | none ↦ none
  | some zero ↦ some (pos 0)
  | some (suc v) ↦ elim (s.phase (suc v)) [
    | none ↦ none
    | some b ↦ some (if b then pos (suc v) else negsuc v)
  ]
]

-- `max(100, int(prev * 1.5))`
unfoldable pub restart_next : ℕ → ℕ
restart_next prev = max 100 (prev * 3 / 2)

abbrev pub member_var : ℕ → List ℕ → Bool
member_var v [] = false
member_var v (u ∷ us) = v == u || member_var v us

-- The assumptions on the variable `v`, added to the core.
unfoldable pub add_assumed : ℕ → List ℤ → List ℤ → List ℤ
add_assumed v [] core = core
add_assumed v (a ∷ assumed) core =
    add_assumed v assumed (if variable a == v then a ∷ core else core)

-- The loop over a reason clause: `seen`, and the stack with its top first.
unfoldable pub push_lits : List ℤ → List ℕ → List ℕ → Solver → Option (List ℕ × List ℕ)
unfolding int_gt
push_lits [] seen stack s = some (seen, stack)
push_lits (q ∷ qs) seen stack s = elim (member_var (variable q) seen) [
  | true ↦ push_lits qs seen stack s
  | false ↦ elim (s.level (variable q)) [
    | none ↦ none
    | some lvl ↦ elim (int_gt lvl (pos 0)) [
      | true ↦ push_lits qs (variable q ∷ seen) (variable q ∷ stack) s
      | false ↦ push_lits qs seen stack s
    ]
  ]
]

-- The loop of `_assumption_core`.
unfoldable pub core_loop : ℕ → List ℤ → List ℤ → List ℕ → List ℕ → Solver → Run (List ℤ)
unfolding add_assumed push_lits lits_of
core_loop f assumed core seen [] s = done core s
core_loop zero assumed core seen (v ∷ stack) s = out_of_fuel
core_loop (suc f) assumed core seen (v ∷ stack) s = elim (s.reason v) [
  | none ↦ raised
  | some r ↦ elim r [
    | none ↦ core_loop f assumed (add_assumed v assumed core) seen stack s
    | some c ↦ elim (lits_of (some (some c)) s) [
      | none ↦ raised
      | some lits ↦ elim (push_lits lits seen stack s) [
        | none ↦ raised
        | some (seen', stack') ↦ core_loop f assumed core seen' stack' s
      ]
    ]
  ]
]

-- `[a for a in assumed_so_far if a in core]`
abbrev pub keep_core : List ℤ → List ℤ → List ℤ
keep_core [] core = []
keep_core (a ∷ assumed) core =
    let rest = keep_core assumed core in if member a core then a ∷ rest else rest

-- Each variable is on the stack at most once.
unfoldable pub assumption_core : ℤ → List ℤ → Solver → Run (List ℤ)
unfolding core_loop
assumption_core a assumed s =
    elim (core_loop (suc s.n_vars) assumed (a ∷ []) (variable a ∷ []) (variable a ∷ []) s) [
      | raised ↦ raised
      | out_of_fuel ↦ out_of_fuel
      | done core s' ↦ done (keep_core assumed core) s'
    ]

-- The local variables of `solve`.
pub record Search : Type 0 where
  pub ui : ℕ
  pub conflicts : ℕ
  pub restart_base : ℕ
  pub restart_at : ℕ

abbrev pub new_search : Search
new_search = record { ui = 0; conflicts = 0; restart_base = 100; restart_at = 100 }

-- `_cancel_until(bj)`; the level of a learnt literal is not negative.
unfoldable pub cancel_to : ℤ → Solver → Option Solver
unfolding cancel_until
cancel_to (pos bj) s = some (cancel_until bj s)
cancel_to (negsuc n) s = none

-- From the analysis of the conflict to the decay of the scores.
unfoldable pub learn : FloatTest → Ref → Solver → Option Solver
unfolding analyze cancel_to record_learnt decay
learn gt confl s = elim (analyze gt confl s) [
  | none ↦ none
  | some ((learnt, bj), s1) ↦ elim (cancel_to bj s1) [
    | none ↦ none
    | some s2 ↦ elim (record_learnt learnt s2) [ none ↦ none | some (_, s3) ↦ some (decay s3) ]
  ]
]

-- `if conflicts >= restart_at`
unfoldable pub maybe_restart : Search → Solver → Search × Solver
unfolding cancel_until restart_next
maybe_restart st s =
    if leb st.restart_at st.conflicts
    then (
      record st {
        ui = 0;
        restart_base = restart_next st.restart_base;
        restart_at = st.conflicts + restart_next st.restart_base;
      },
      cancel_until 0 s,
    )
    else (st, s)

-- One round of the loop of `solve`: it goes on, or it answers.
pub data Outcome : Type 0 where
  more : Search → Solver → Outcome
  answer : Bool → Solver → Outcome
  stuck starved : Outcome

unfoldable pub on_conflict : FloatTest → Ref → Search → Solver → Outcome
unfolding learn maybe_restart decision_level
on_conflict gt confl st s =
    let st1 = record st { conflicts = st.conflicts + 1 } in
    elim (decision_level s == 0) [
      | true ↦ answer false s
      | false ↦ elim (learn gt confl s) [
        | none ↦ stuck
        | some s' ↦ let (st2, s2) = maybe_restart (record st1 { ui = 0 }) s' in more st2 s2
      ]
    ]

-- A new decision level that starts with the literal.
unfoldable pub decide_on : ℤ → Solver → Option Solver
unfolding enqueue new_decision_level
decide_on lit s = elim (enqueue lit none (new_decision_level s)) [
  | none ↦ none
  | some (_, s') ↦ some s'
]

unfoldable pub continue_with : Search → Option Solver → Outcome
continue_with st none = stuck
continue_with st (some s) = more st s

-- `self.conflict_core = core; return False`
unfoldable pub no_model : Run (List ℤ) → Outcome
no_model raised = stuck
no_model out_of_fuel = starved
no_model (done core s) = answer false (record s { conflict_core = core })

-- The assumption `a`, which the value decides; `ui` counts it already.
unfoldable pub assume : List ℤ → ℤ → Search → Option (Option Bool) → Solver → Outcome
unfolding assumption_core no_model decide_on continue_with
assume assumptions a st none s = stuck
assume assumptions a st (some (some true)) s = more st s
assume assumptions a st (some (some false)) s =
    no_model (assumption_core a (take st.ui assumptions) s)
assume assumptions a st (some none) s = continue_with st (decide_on a s)

unfoldable pub decide : FloatTest → Search → Solver → Outcome
unfolding pick_branch decide_on continue_with
decide gt st s = elim (pick_branch gt s) [
  | none ↦ stuck
  | some lit ↦ elim (int_eq lit (pos 0)) [
    | true ↦ answer true s
    | false ↦ continue_with st (decide_on lit s)
  ]
]

unfoldable pub no_conflict : FloatTest → List ℤ → Search → Solver → Outcome
unfolding value assume decide
no_conflict gt assumptions st s = elim (get_elem? assumptions st.ui) [
  | some a ↦ assume assumptions a (record st { ui = st.ui + 1 }) (value a s) s
  | none ↦ decide gt st s
]

-- Each round of propagation takes a literal of the trail.
unfoldable pub propagate_all : Solver → Run (Option Ref)
unfolding propagate
propagate_all s = propagate (suc s.n_vars) s

unfoldable pub after_propagation : FloatTest → List ℤ → Search → Run (Option Ref) → Outcome
unfolding on_conflict no_conflict
after_propagation gt assumptions st raised = stuck
after_propagation gt assumptions st out_of_fuel = starved
after_propagation gt assumptions st (done none s) = no_conflict gt assumptions st s
after_propagation gt assumptions st (done (some c) s) = on_conflict gt c st s

unfoldable pub round : FloatTest → List ℤ → Search → Solver → Outcome
unfolding propagate_all after_propagation
round gt assumptions st s = after_propagation gt assumptions st (propagate_all s)

-- The loop of `solve`, for at most `f` rounds.
unfoldable pub solve_loop : ℕ → FloatTest → List ℤ → Search → Solver → Run Bool
unfolding round
solve_loop zero gt assumptions st s = out_of_fuel
solve_loop (suc f) gt assumptions st s = elim (round gt assumptions st s) [
  | stuck ↦ raised
  | starved ↦ out_of_fuel
  | answer b s' ↦ done b s'
  | more st' s' ↦ solve_loop f gt assumptions st' s'
]

-- The rest of `solve` after the first propagation.
unfoldable pub start_search : ℕ → FloatTest → List ℤ → Run (Option Ref) → Run Bool
unfolding solve_loop
start_search f gt assumptions raised = raised
start_search f gt assumptions out_of_fuel = out_of_fuel
start_search f gt assumptions (done (some c) s) = done false s
start_search f gt assumptions (done none s) = solve_loop f gt assumptions new_search s

-- `solve(assumptions)`
unfoldable pub solve : ℕ → FloatTest → List ℤ → Solver → Run Bool
unfolding propagate_all cancel_until start_search
solve f gt assumptions s =
    if s.empty
    then done false s
    else start_search f gt assumptions
        (propagate_all (record (cancel_until 0 s) { qhead = 0; conflict_core = [] }))

-- `a if a is not None else False`
abbrev pub or_false : Option Bool → Bool
or_false none = false
or_false (some b) = b

unfoldable pub get_value : ℕ → Solver → Option Bool
get_value v s = elim (s.assign v) [ none ↦ none | some a ↦ some (or_false a) ]

-- `model()`, for the `k` variables from `v` on.
unfoldable pub model_from : ℕ → ℕ → Solver → Option (List (ℕ × Bool))
unfolding get_value
model_from zero v s = some []
model_from (suc k) v s = elim (get_value v s) [
  | none ↦ none
  | some b ↦ elim (model_from k (suc v) s) [ none ↦ none | some m ↦ some ((v, b) ∷ m) ]
]

unfoldable pub model : Solver → Option (List (ℕ × Bool))
unfolding model_from
model s = model_from s.n_vars 1 s
