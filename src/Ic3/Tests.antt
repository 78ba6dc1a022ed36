-- ===== src/Ic3/Tests.antt =====
-- A design of two bits, `p` and `q`, where `p` takes the value of `q`.
use emergent_hardware_verifi.Ic3.Blocking.{Obligation, IsHeapq, InQueue, HasLiterals}
use mathlib.Core.Option.{get_or}
use emergent_hardware_verifi.Sat.Solve.{solve}
use emergent_hardware_verifi.Sat.Solve.Tests.{first_best}
use emergent_hardware_verifi.Tseitin.{xor_clauses}
use emergent_hardware_verifi.Sat.Solver.{new_solver}
use emergent_hardware_verifi.Ic3.Reached.{block-Outcome, BlockOutcome}
use emergent_hardware_verifi.Ic3.Generalized.{generalize-Answers, Outcome}
use emergent_hardware_verifi.Circuit.Meaning.{eval, Valuation}
use emergent_hardware_verifi.Circuit.Ternary.Rules.{Completes, Covers}
use text.Mathlib.Text.{◌==◌ as str_eq}
use emergent_hardware_verifi.Sat.Literal.{negsuc, int_eq_iff, int_eq, IsLiteral, pos}
use emergent_hardware_verifi.Frame.Fresh.{listed}
use emergent_hardware_verifi.Circuit.Ternary.Rules.{known}
use emergent_hardware_verifi.Frame.{put_name, TransitionSystem}
use emergent_hardware_verifi.Circuit.Sig.{var, Sig}
use emergent_hardware_verifi.Prelude.{
  ltb, if◌then◌else◌, ◌⊎◌, subst, ap, Option, ◌≡◌, ◌∷◌, ℕ, true, sym, some, refl, none, inr, inl,
  false, arith, [], String, List, Bool-cases, Bool,
}
use emergent_hardware_verifi.Ic3.{Ic3Engine, Cube}
use emergent_hardware_verifi.Ic3.Cubes.{
  lift, with_supports, drop_free, drop_bits, drop_bit, all_definite, cube_of, or_minterm,
}
use emergent_hardware_verifi.Ic3.Obligations.{
  generalize, block, Tools, add_blocked, add_to_frames, add_to_frame, unsubsumed,
}
use emergent_hardware_verifi.Ic3.Search.{
  propagate_frames, propagate_from, push_clauses, push_clause,
}
use emergent_hardware_verifi.Ic3.Frames.{Blocked, add_blocked-Blocked}
use emergent_hardware_verifi.Ic3.Converged.{Converged, propagate_frames-Converged}
use emergent_hardware_verifi.Ic3.Lift.{lift-Meets, Meets}
use emergent_hardware_verifi.Interp.{subset}
use emergent_hardware_verifi.Cegar.{support, support_loop, size}
use emergent_hardware_verifi.Cegar.Replay.{simulate_sig}
use emergent_hardware_verifi.Circuit.Ternary.{ternary_eval, loop, visit, visit_new, TriEnv}
use emergent_hardware_verifi.Bmc.Loop.{SearchFor}
use emergent_hardware_verifi.Sat.Propagate.{done, raised}

abbrev sig_p : Sig
sig_p = var 2 "p"

abbrev sig_q : Sig
sig_q = var 3 "q"

abbrev nodes : ℕ → Sig
nodes i = sig_q

abbrev follower : TransitionSystem
follower = record {
  name = "follower";
  state = "p" ∷ "q" ∷ [];
  inputs = [];
  next = put_name (put_name (λ _. none) "p" sig_q) "q" sig_q;
  init = put_name (put_name (λ _. none) "p" false) "q" false;
  bad = some sig_p;
  liveness = [];
  assumptions = [];
  covers = [];
}

-- A model in which `p` is 0 and `q` is 1.
abbrev model_env_pq : TriEnv
model_env_pq = put_name (put_name (λ _. none) "p" (some false)) "q" (some true)

lifts_q : lift 10 follower model_env_pq ((sig_q, true) ∷ []) ≡ some (pos 2 ∷ [])
unfolding lift with_supports drop_free drop_bits drop_bit all_definite cube_of or_minterm support
    support_loop size simulate_sig ternary_eval loop visit visit_new
lifts_q = refl

Covers-others :
    (x : String) → listed x follower.state ≡ false → Covers (known (model_env_pq x)) true
Covers-others x h = elim (Bool-cases (str_eq "q" x)) [
  | inl same ↦ let bad : ◌≡◌ {A = Bool} false true = ground arith in cc
  | inr differ ↦ elim (Bool-cases (str_eq "p" x)) [
    | inl same ↦ let bad : ◌≡◌ {A = Bool} false true = ground arith in cc
    | inr differ' ↦ rw (differ, differ') tt
  ]
]

model-Meets : (ρ : Valuation) → Completes model_env_pq ρ → Meets ρ ((sig_q, true) ∷ [])
unfolding eval
model-Meets ρ c = (sym (c "q"), tt)

lift-Meets_example : Meets (λ x. true) ((sig_q, true) ∷ [])
lift-Meets_example =
    lift-Meets nodes 10 follower model_env_pq ((sig_q, true) ∷ []) (pos 2 ∷ []) (refl, tt)
      ((some true, refl), tt) model-Meets lifts_q (λ x. true) Covers-others refl

abbrev two_frames : List (List Cube)
two_frames = [] ∷ ((pos 1 ∷ pos 2 ∷ []) ∷ []) ∷ []

learns_one : add_blocked (pos 1 ∷ []) 1 two_frames ≡ some ([] ∷ ((pos 1 ∷ []) ∷ []) ∷ [])
unfolding add_blocked add_to_frames add_to_frame unsubsumed subset
learns_one = refl

add_blocked-Blocked_example :
    Blocked (pos 1 ∷ []) 1 two_frames (add_blocked (pos 1 ∷ []) 1 two_frames)
add_blocked-Blocked_example = add_blocked-Blocked (pos 1 ∷ []) 1 two_frames (omega arith)

abbrev no_search : SearchFor
no_search s = raised

abbrev converging : Ic3Engine
converging = record {
  ts = follower;
  frames = [] ∷ ((pos 1 ∷ []) ∷ []) ∷ ((pos 1 ∷ []) ∷ []) ∷ [];
  cex = none;
}

converges_at_two : propagate_frames no_search converging ≡ some (some 2, converging)
unfolding propagate_frames propagate_from push_clauses push_clause subset
converges_at_two = refl

propagate_frames-Converged_example : Converged converging.frames (some 2)
propagate_frames-Converged_example =
    propagate_frames-Converged no_search converging converging (some 2) converges_at_two

abbrev answering : Bool → SearchFor
answering b s = done b s

-- A queue that gives its first obligation.
abbrev pub take_first : List (ℕ × Cube) → Option ((ℕ × Cube) × List (ℕ × Cube))
take_first [] = none
take_first (o ∷ os) = some (o, os)

abbrev cube_pq : Cube
cube_pq = pos 1 ∷ pos 2 ∷ []

-- The search of cdcl.py.
abbrev solving : SearchFor
unfolding solve
solving s = solve 20 first_best [] s

generalizes_to_q : generalize solving converging cube_pq 1 ≡ some (pos 2 ∷ [])
unfolding generalize solving solve new_solver xor_clauses
generalizes_to_q = refl

generalize-Answers_example :
    Outcome solving converging 1 cube_pq (generalize solving converging cube_pq 1)
generalize-Answers_example = generalize-Answers solving converging 1 cube_pq (omega arith)

-- An obligation is put before those of higher frames.
abbrev pub by_frame : Obligation → List Obligation → List Obligation
by_frame x [] = x ∷ []
by_frame x (y ∷ os) = let rest = by_frame x os in if ltb (x.0) (y.0) then x ∷ y ∷ os else y ∷ rest

abbrev solving_tools : Tools
solving_tools = record {
  find_model = λ s. solve 20 first_best [] s;
  sim_rounds = 20;
  heappop = take_first;
  heappush = by_frame;
}

-- Two frames without clauses.
abbrev started : TransitionSystem → Ic3Engine
started ts = record { ts = ts; frames = [] ∷ [] ∷ []; cex = none }

-- The same design from a reset in which `q` is one.
abbrev rising : TransitionSystem
rising = record follower { init = put_name (put_name (λ _. none) "p" false) "q" true }

-- The answer of _block, with the clauses of the frame and the stored cube.
abbrev answer : Option (Bool × Ic3Engine) → Option (Bool × List (List Cube) × Option Cube)
answer none = none
answer (some (b, eng)) = some (b, eng.frames, eng.cex)

blocks_p :
    answer (block 10 solving_tools (started follower) (pos 1 ∷ []) 1)
    ≡ some (true, [] ∷ ((negsuc 0 ∷ []) ∷ []) ∷ [], none)
unfolding block solve new_solver xor_clauses subset
blocks_p = refl

finds_q :
    answer (block 10 solving_tools (started rising) (pos 1 ∷ []) 1)
    ≡ some (false, [] ∷ [] ∷ [], some (pos 2 ∷ []))
unfolding block solve new_solver xor_clauses subset
finds_q = refl

by_frame-IsHeapq : IsHeapq solving_tools
by_frame-IsHeapq = record {
  pushed = λ o x os m. from_pushed o x os m;
  pushes = λ o x os m. to_pushed o x os m;
  popped = λ o x os rest h m. from_first o x os rest h m;
  pops = λ o x os rest h m. to_first o x os rest h m;
}
  where
    from_pushed :
        (o x : Obligation) (os : List Obligation)
        → InQueue o (by_frame x os)
        → (o ≡ x) ⊎ InQueue o os
    from_pushed o x [] m = m
    from_pushed o x (y ∷ os) m = elim (Bool-cases (ltb (x.0) (y.0))) [
      | inl e ↦
          let order : by_frame x (y ∷ os) ≡ x ∷ y ∷ os = rw e refl in
          subst (λ q. InQueue o q) order m
      | inr e ↦
          let order : by_frame x (y ∷ os) ≡ y ∷ by_frame x os = rw e refl in
          let there : InQueue o (y ∷ by_frame x os) = subst (λ q. InQueue o q) order m in
          elim there [
            | inl same ↦ inr (inl same)
            | inr later ↦ elim (from_pushed o x os later) [
              | inl same ↦ inl same
              | inr old ↦ inr (inr old)
            ]
          ]
    ]

    to_pushed :
        (o x : Obligation) (os : List Obligation)
        → (o ≡ x) ⊎ InQueue o os
        → InQueue o (by_frame x os)
    to_pushed o x [] m = m
    to_pushed o x (y ∷ os) m = elim (Bool-cases (ltb (x.0) (y.0))) [
      | inl e ↦ rw e m
      | inr e ↦ rw e (elim m [
        | inl same ↦ inr (to_pushed o x os (inl same))
        | inr there ↦ elim there [
          | inl same ↦ inl same
          | inr old ↦ inr (to_pushed o x os (inr old))
        ]
      ])
    ]

    from_first :
        (o x : Obligation) (os rest : List Obligation)
        → take_first os ≡ some (x, rest)
        → (o ≡ x) ⊎ InQueue o rest
        → InQueue o os
    from_first o x [] rest h m = cc
    from_first o x (y ∷ os) rest h m =
        subst (λ (r : Obligation × List Obligation). (o ≡ r.0) ⊎ InQueue o (r.1))
          (sym (ap (λ t. get_or t (x, rest)) h)) m

    to_first :
        (o x : Obligation) (os rest : List Obligation)
        → take_first os ≡ some (x, rest)
        → InQueue o os
        → (o ≡ x) ⊎ InQueue o rest
    to_first o x [] rest h m = cc
    to_first o x (y ∷ os) rest h m =
        subst (λ (r : Obligation × List Obligation). (o ≡ r.0) ⊎ InQueue o (r.1))
          (ap (λ t. get_or t (x, rest)) h) m

cube_p-HasLiterals : HasLiterals (pos 1 ∷ [])
cube_p-HasLiterals l h = elim (Bool-cases (int_eq l (pos 1))) [
  | inl e ↦ subst (λ x. IsLiteral x) (sym ((int_eq_iff l (pos 1)).0 e)) (omega arith)
  | inr e ↦ let no : false ≡ true = ground (arith, e, h) in cc
]

block-Outcome_example :
    BlockOutcome solving_tools rising 1
      (pos 1 ∷ [])
      (block 10 solving_tools (started rising) (pos 1 ∷ []) 1)
block-Outcome_example =
    block-Outcome solving_tools by_frame-IsHeapq 10 (started rising) (pos 1 ∷ []) 1
      cube_p-HasLiterals (omega arith)
