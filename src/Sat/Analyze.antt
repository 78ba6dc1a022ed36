-- ===== src/Sat/Analyze.antt =====
-- cdcl.py, `_bump`, `_decay`, `_analyze` and `_record`: what the solver learns from a conflict.
-- Python compares floats: the comparison is a parameter here, since only scores depend on it.
use mathlib.Core.List.{reverse}
use emergent_hardware_verifi.Sat.Literal.{ℤ, variable, pos, negsuc, neg, int_eq}
use emergent_hardware_verifi.Sat.Solver.{
  times, put, plus, literal, enqueue, cancel_until, attach, Solver, Ref, M, Float, Dict,
}
use emergent_hardware_verifi.Prelude.{
  ◌∷◌, ℕ, zero, true, suc, some, none, ltb, length, leb, get_elem?, false, if◌then◌else◌, [],
  Option, List, Bool, ◌-◌, ◌++◌, ◌+◌,
}

abbrev pub FloatTest : Type 0
FloatTest = Float → Float → Bool

-- `for u in self.activity: self.activity[u] *= 1e-100`
abbrev pub rescale : Dict ℕ Float → Dict ℕ Float
rescale d u = elim (d u) [ none ↦ none | some a ↦ some (times a (literal "1e-100")) ]

unfoldable pub bump : FloatTest → ℕ → M (Unit {0})
bump gt v s = elim (s.activity v) [
  | none ↦ none
  | some a ↦
      let a' = plus a s.var_inc in
      let s1 = record s { activity = put s.activity v a' } in
      some (
        tt,
        if gt a' (literal "1e100")
            then record s1 {
              activity = rescale s1.activity;
              var_inc = times s1.var_inc (literal "1e-100");
            }
            else s1,
      )
]

unfoldable pub decay : Solver → Solver
decay s = record s { var_inc = times s.var_inc s.var_decay }

-- `a > b` of ints.
unfoldable pub int_gt : ℤ → ℤ → Bool
int_gt (pos a) (pos b) = ltb b a
int_gt (pos a) (negsuc b) = true
int_gt (negsuc a) (pos b) = false
int_gt (negsuc a) (negsuc b) = ltb a b

-- `learnt[1:]` and `counter`.
pub record Learning : Type 0 where
  pub tail : List ℤ
  pub counter : ℕ

-- A variable that is new to the analysis, at the given level.
unfoldable pub see : FloatTest → ℤ → ℤ → ℤ → Learning → M Learning
unfolding bump int_gt
see gt cur q lvl st s =
    elim (bump gt (variable q) (record s { seen = put s.seen (variable q) true })) [
      | none ↦ none
      | some (_, s') ↦ some (
        if int_gt cur lvl
            then record st { tail = st.tail ++ q ∷ [] }
            else record st { counter = st.counter + 1 },
        s',
      )
    ]

-- One literal of the clause: skipped if it is `p`, if it was seen, or at level 0.
unfoldable pub add_lit : FloatTest → ℤ → ℤ → ℤ → Learning → M Learning
unfolding see int_gt
add_lit gt cur p q st s = elim (int_eq q p) [
  | true ↦ some (st, s)
  | false ↦ elim (s.seen (variable q)) [
    | none ↦ none
    | some b ↦ elim b [
      | true ↦ some (st, s)
      | false ↦ elim (s.level (variable q)) [
        | none ↦ none
        | some lvl ↦ elim (int_gt lvl (pos 0)) [
          | false ↦ some (st, s)
          | true ↦ see gt cur q lvl st s
        ]
      ]
    ]
  ]
]

-- `for q in confl.lits`
unfoldable pub add_lits : FloatTest → ℤ → ℤ → List ℤ → Learning → M Learning
unfolding add_lit
add_lits gt cur p [] st s = some (st, s)
add_lits gt cur p (q ∷ qs) st s = elim (add_lit gt cur p q st s) [
  | none ↦ none
  | some (st', s') ↦ add_lits gt cur p qs st' s'
]

-- `confl.lits`, an AttributeError if there is no clause.
unfoldable pub lits_of : Option (Option Ref) → Solver → Option (List ℤ)
lits_of none s = none
lits_of (some none) s = none
lits_of (some (some c)) s = elim (get_elem? s.store c) [ none ↦ none | some cl ↦ some cl.lits ]

-- The loop of _analyze from the search for the next literal on, over the trail from `idx` down. It
-- gives the literal on which it ends. To run off the trail is `none`; Python would wrap round.
unfoldable pub walk : FloatTest → ℤ → List ℤ → Learning → M (ℤ × Learning)
unfolding add_lits lits_of
walk gt cur [] st s = none
walk gt cur (p ∷ below) st s = elim (s.seen (variable p)) [
  | none ↦ none
  | some b ↦ elim b [
    | false ↦ walk gt cur below st s
    | true ↦
        let s1 = record s { seen = put s.seen (variable p) false } in
        let st1 = record st { counter = st.counter - 1 } in
        elim (leb st.counter 1) [
          | true ↦ some ((p, st1), s1)
          | false ↦ elim (lits_of (s1.reason (variable p)) s1) [
            | none ↦ none
            | some lits ↦ elim (add_lits gt cur p lits st1 s1) [
              | none ↦ none
              | some (st2, s2) ↦ walk gt cur below st2 s2
            ]
          ]
        ]
  ]
]

-- The loop for the position of the second-highest level, with the best literal so far and what stands
-- before it; it gives the list with that literal in front, exchanged with the first one.
unfoldable pub level_above : Solver → ℤ → ℤ → Option Bool
unfolding int_gt
level_above s a b = elim (s.level (variable a)) [
  | none ↦ none
  | some la ↦ elim (s.level (variable b)) [ none ↦ none | some lb ↦ some (int_gt la lb) ]
]

-- `mx`, as an index into `learnt[1:]`, from index `k` on.
unfoldable pub highest : Solver → ℤ → ℕ → List ℤ → ℕ → Option ℕ
unfolding level_above
highest s best mx [] k = some mx
highest s best mx (l ∷ ls) k = elim (level_above s l best) [
  | none ↦ none
  | some b ↦ elim b [ true ↦ highest s l k ls (k + 1) | false ↦ highest s best mx ls (k + 1) ]
]

-- `learnt[1], learnt[mx] = learnt[mx], learnt[1]` on `learnt[1:]`.
unfoldable pub put_back : ℤ → List ℤ → ℕ → ℤ × List ℤ
put_back x [] j = (x, [])
put_back x (l ∷ ls) zero = (l, x ∷ ls)
put_back x (l ∷ ls) (suc j) = let rest = put_back x ls j in (rest.0, l ∷ rest.1)

abbrev pub swap_front : List ℤ → ℕ → List ℤ
swap_front [] j = []
swap_front (x ∷ ls) zero = x ∷ ls
swap_front (x ∷ ls) (suc j) = let rest = put_back x ls j in rest.0 ∷ rest.1

-- The level to go back to, and `learnt[1:]` with a literal of that level first.
unfoldable pub backjump : Solver → List ℤ → Option (List ℤ × ℤ)
unfolding highest put_back
backjump s [] = some ([], pos 0)
backjump s (l ∷ ls) = elim (highest s l 0 ls 1) [
  | none ↦ none
  | some mx ↦ elim (swap_front (l ∷ ls) mx) [
    | [] ↦ none
    | m ∷ ms ↦ elim (s.level (variable m)) [ none ↦ none | some bj ↦ some (m ∷ ms, bj) ]
  ]
]

-- `for q in learnt: seen[var(q)] = False`
unfoldable pub unsee : List ℤ → Dict ℕ Bool → Dict ℕ Bool
unsee [] d = d
unsee (q ∷ qs) d = unsee qs (put d (variable q) false)

-- `_analyze(confl)`: the learnt clause and the backjump level.
unfoldable pub analyze : FloatTest → Ref → M (List ℤ × ℤ)
unfolding add_lits lits_of walk backjump unsee
analyze gt confl s =
    let cur = pos (length s.trail_lim) in
    elim (lits_of (some (some confl)) s) [
      | none ↦ none
      | some lits ↦ elim (add_lits gt cur (pos 0) lits (record { tail = []; counter = 0 }) s) [
        | none ↦ none
        | some (st, s1) ↦ elim (walk gt cur (reverse s1.trail) st s1) [
          | none ↦ none
          | some ((p, st1), s2) ↦ elim (backjump s2 st1.tail) [
            | none ↦ none
            | some (tail, bj) ↦
                let learnt = neg p ∷ tail in
                some ((learnt, bj), record s2 { seen = unsee learnt s2.seen })
          ]
        ]
      ]
    ]

-- `_record(learnt)`
unfoldable pub record_learnt : List ℤ → M (Unit {0})
unfolding cancel_until enqueue attach
record_learnt [] s = none
record_learnt (l ∷ []) s = elim (enqueue l none (cancel_until 0 s)) [
  | none ↦ none
  | some (_, s') ↦ some (tt, s')
]
record_learnt (a ∷ b ∷ ls) s =
    let c = length s.store in
    let s1 = record s {
      store = s.store ++ record { lits = a ∷ b ∷ ls; learnt = true } ∷ [];
      learnts = s.learnts ++ c ∷ [];
    } in
    elim (attach a b c s1) [
      | none ↦ none
      | some (_, s2) ↦ elim (enqueue a (some c) s2) [ none ↦ none | some (_, s3) ↦ some (tt, s3) ]
    ]
