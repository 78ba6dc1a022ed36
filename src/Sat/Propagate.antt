-- ===== src/Sat/Propagate.antt =====
-- cdcl.py, `_propagate`: unit propagation over the watch lists.
-- What a visit of a watched clause does with the watch.
use emergent_hardware_verifi.Sat.Literal.{ℤ, neg, int_eq}
use emergent_hardware_verifi.Sat.Solver.{watch, value, put_int, enqueue, Solver, Ref, M, Clause}
use emergent_hardware_verifi.Prelude.{
  ◌∷◌, ℕ, zero, true, suc, some, none, length, get_elem?, flip, false, if◌then◌else◌, [], Option,
  List, Bool, ◌++◌, ◌+◌,
}

pub data Watch : Type 0 where
  keep move clash : Watch

abbrev pub is_true : Option Bool → Bool
is_true none = false
is_true (some b) = b

abbrev pub is_false : Option Bool → Bool
is_false none = false
is_false (some b) = flip b

-- `c.lits[0], c.lits[1] = c.lits[1], c.lits[0]` where the first is the false literal.
unfoldable pub front : ℤ → List ℤ → List ℤ
front false_lit (a ∷ b ∷ ls) = if int_eq a false_lit then b ∷ a ∷ ls else a ∷ b ∷ ls
front false_lit ls = ls

-- A write to the shared clause; the list of its literals is permuted in place.
unfoldable pub set_at : List Clause → Ref → List ℤ → List Clause
set_at [] c lits = []
set_at (d ∷ ds) zero lits = record d { lits = lits } ∷ ds
set_at (d ∷ ds) (suc c) lits = d ∷ set_at ds c lits

abbrev pub set_lits : Ref → List ℤ → Solver → Solver
set_lits c lits s = record s { store = set_at s.store c lits }

-- The loop over `c.lits[2:]`: the first literal that is not false, and the rest of the clause with
-- the old watch in its place.
unfoldable pub find_watch : Solver → ℤ → List ℤ → Option (Option (ℤ × List ℤ))
unfolding value
find_watch s old [] = some none
find_watch s old (l ∷ ls) = elim (value l s) [
  | none ↦ none
  | some v ↦ elim (is_false v) [
    | false ↦ some (some (l, old ∷ ls))
    | true ↦ elim (find_watch s old ls) [
      | none ↦ none
      | some found ↦ elim found [ none ↦ some none | some (m, ls') ↦ some (some (m, l ∷ ls')) ]
    ]
  ]
]

-- No other literal to watch: the clause is unit or conflicting on `first`.
unfoldable pub imply : ℤ → Ref → Option Bool → M Watch
unfolding enqueue
imply first c v s = elim (is_false v) [
  | true ↦ some (clash, s)
  | false ↦ elim (enqueue first (some c) s) [ none ↦ none | some (_, s') ↦ some (keep, s') ]
]

-- A visit of the clause `c`, with its literals as `front` leaves them. A new watch is not false, so
-- its list is another than the one that is being read.
unfoldable pub visit_lits : Ref → List ℤ → M Watch
unfolding value find_watch watch imply set_at
visit_lits c (first ∷ old ∷ ls) s = elim (value first s) [
  | none ↦ none
  | some v ↦ elim (is_true v) [
    | true ↦ some (keep, s)
    | false ↦ elim (find_watch s old ls) [
      | none ↦ none
      | some found ↦ elim found [
        | none ↦ imply first c v s
        | some (m, ls') ↦ elim (watch m c (set_lits c (first ∷ m ∷ ls') s)) [
          | none ↦ none
          | some (_, s') ↦ some (move, s')
        ]
      ]
    ]
  ]
]
visit_lits c lits s = none

unfoldable pub visit : ℤ → Ref → M Watch
unfolding front visit_lits set_at
visit p c s = elim (get_elem? s.store c) [
  | none ↦ none
  | some cl ↦ let lits = front (neg p) cl.lits in visit_lits c lits (set_lits c lits s)
]

-- The loop over the watch list `ws`, with `new_ws` so far.
unfoldable pub visit_all : ℤ → List Ref → List Ref → M (Option Ref)
unfolding visit
visit_all p [] new_ws s = some (none, record s { watches = put_int s.watches p new_ws })
visit_all p (c ∷ ws) new_ws s = elim (visit p c s) [
  | none ↦ none
  | some (w, s') ↦ elim w [
    | keep ↦ visit_all p ws (new_ws ++ c ∷ []) s'
    | move ↦ visit_all p ws new_ws s'
    | clash ↦ some (
      some c,
      record s' {
        watches = put_int s'.watches p ((new_ws ++ c ∷ []) ++ ws);
        qhead = length s'.trail;
      },
    )
  ]
]

-- The result of a loop on fuel.
pub data Run (A : Type 0) : Type 0 where
  done : A → Solver → Run A
  raised out_of_fuel : Run A

-- `_propagate`; each round takes a literal of the trail.
unfoldable pub propagate : ℕ → Solver → Run (Option Ref)
unfolding visit_all
propagate zero s = out_of_fuel
propagate (suc f) s = elim (get_elem? s.trail s.qhead) [
  | none ↦ done none s
  | some p ↦ elim (s.watches p) [
    | none ↦ raised
    | some ws ↦ elim (visit_all p ws [] (record s { qhead = s.qhead + 1 })) [
      | none ↦ raised
      | some (confl, s') ↦ elim confl [ none ↦ propagate f s' | some c ↦ done (some c) s' ]
    ]
  ]
]
