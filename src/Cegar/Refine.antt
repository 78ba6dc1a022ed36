-- ===== src/Cegar/Refine.antt =====
-- cegar.py, `cegar`: abstract, check, conclude or replay, refine.
-- The check of an abstraction is an argument: IC3 on it, with the frame bound. What the verdicts only
-- hand on from it, its frame count and its invariant, is left out, as is the printing.
use emergent_hardware_verifi.Circuit.Sig.{Sig}
use emergent_hardware_verifi.Cegar.Replay.{simulate}
use emergent_hardware_verifi.Cegar.{support, localize, frontier, chosen}
use emergent_hardware_verifi.Circuit.Ternary.{TriEnv, Tri}
use emergent_hardware_verifi.Frame.{TransitionSystem}
use emergent_hardware_verifi.Sat.Analyze.{FloatTest}
use emergent_hardware_verifi.Cegar.Counterexample.{abs_cex, Cycle}
use emergent_hardware_verifi.Prelude.{
  ◌∷◌, ℕ, zero, xor_bool, true, take, suc, some, none, if◌then◌else◌, [], String, Option, List,
  Bool, ◌-◌, ◌++◌, ◌+◌,
}

-- What the loop reads of the check's answer: for UNSAFE, its "frames" or "depth".
pub data Check : Type 0 where
  safe undecided : Check
  unsafe : ℕ → Check

abbrev pub Engine : Type 0
Engine = TransitionSystem → Option Check

-- SAFE and UNKNOWN with the round and the bits kept, and UNSAFE with the depth and the trace as well.
pub data Verdict : Type 0 where
  proved unknown : ℕ → List String → Verdict
  refutes : ℕ → List String → ℕ → List TriEnv → Verdict

abbrev pub differs : Bool → Tri → Bool
differs b none = true
differs b (some c) = xor_bool b c

-- `[n for n in frontier if cex[t][n] != rows[t][n]]`
unfoldable pub diverging : Cycle → TriEnv → List String → Option (List String)
diverging c row [] = some []
diverging c row (x ∷ xs) = elim (c x) [
  | none ↦ none
  | some b ↦ elim (row x) [
    | none ↦ none
    | some v ↦ elim (diverging c row xs) [
      | none ↦ none
      | some rest ↦ some (if differs b v then x ∷ rest else rest)
    ]
  ]
]

-- The loop over the rows: the bits that diverge in the first one where some do.
unfoldable pub first_divergence : List String → List Cycle → List TriEnv → Option (List String)
unfolding diverging
first_divergence read cex [] = some []
first_divergence read [] (row ∷ rows) = none
first_divergence read (c ∷ cex) (row ∷ rows) = elim (diverging c row read) [
  | none ↦ none
  | some div ↦ elim div [ [] ↦ first_divergence read cex rows | x ∷ xs ↦ some (x ∷ xs) ]
]

-- `if not div: div = frontier`
abbrev pub or_frontier : List String → List String → List String
or_frontier read [] = read
or_frontier read (x ∷ xs) = x ∷ xs

-- After a replay that does not reach `bad`: the bits to keep next.
unfoldable pub refine :
    TransitionSystem → List String → List String → List Cycle → List TriEnv → Option (List String)
unfolding frontier first_divergence chosen
refine ts bad_sup kept cex rows = elim (frontier ts bad_sup kept) [
  | none ↦ none
  | some read ↦ elim (first_divergence read cex rows) [
    | none ↦ none
    | some div ↦ some (chosen (kept ++ or_frontier read div) ts.state)
  ]
]

-- What a round ends with: a verdict, or the bits to keep in the next.
pub data Round : Type 0 where
  ends : Verdict → Round
  keeps : List String → Round

unfoldable pub after_cex :
    ℕ → TransitionSystem → List String → ℕ → List String → Option (List Cycle) → Option Round
unfolding simulate refine
after_cex f ts bad_sup rnd kept none = some (ends (unknown rnd kept))
after_cex f ts bad_sup rnd kept (some cex) = elim (simulate f ts cex) [
  | none ↦ none
  | some (found, rows) ↦ elim found [
    | some t ↦ some (ends (refutes rnd kept t (take (t + 1) rows)))
    | none ↦ elim (refine ts bad_sup kept cex rows) [
      | none ↦ none
      | some kept' ↦ some (keeps kept')
    ]
  ]
]

unfoldable pub after_check :
    ℕ
    → FloatTest
    → TransitionSystem
    → List String
    → ℕ
    → List String
    → TransitionSystem
    → Check
    → Option Round
unfolding abs_cex after_cex
after_check f gt ts bad_sup rnd kept abs safe = some (ends (proved rnd kept))
after_check f gt ts bad_sup rnd kept abs undecided = some (ends (unknown rnd kept))
after_check f gt ts bad_sup rnd kept abs (unsafe n) = elim (abs_cex f gt abs (n + 3) 0) [
  | none ↦ none
  | some cex ↦ after_cex f ts bad_sup rnd kept cex
]

unfoldable pub cegar_round :
    Engine → ℕ → FloatTest → TransitionSystem → List String → ℕ → List String → Option Round
unfolding localize after_check
cegar_round engine f gt ts bad_sup rnd kept = elim (localize ts kept) [
  | none ↦ none
  | some abs ↦ elim (engine abs) [
    | none ↦ none
    | some r ↦ after_check f gt ts bad_sup rnd kept abs r
  ]
]

-- The rounds that are left, from round `rnd` on; the last one gives up.
unfoldable pub rounds :
    Engine → ℕ → FloatTest → TransitionSystem → List String → ℕ → ℕ → List String → Option Verdict
unfolding cegar_round
rounds engine f gt ts bad_sup zero rnd kept = some (unknown (rnd - 1) kept)
rounds engine f gt ts bad_sup (suc left) rnd kept =
    elim (cegar_round engine f gt ts bad_sup rnd kept) [
      | none ↦ none
      | some r ↦ elim r [
        | ends v ↦ some v
        | keeps kept' ↦ rounds engine f gt ts bad_sup left (suc rnd) kept'
      ]
    ]

-- `cegar(ts, max_frames, max_rounds)`, given `ts.bad`.
unfoldable pub cegar_on :
    Engine → ℕ → FloatTest → ℕ → TransitionSystem → Option Sig → Option Verdict
unfolding support chosen rounds
cegar_on engine f gt max_rounds ts none = none
cegar_on engine f gt max_rounds ts (some bad) = elim (support bad) [
  | none ↦ none
  | some bad_sup ↦ rounds engine f gt ts bad_sup max_rounds 1 (chosen bad_sup ts.state)
]

unfoldable pub cegar : Engine → ℕ → FloatTest → ℕ → TransitionSystem → Option Verdict
unfolding cegar_on
cegar engine f gt max_rounds ts = cegar_on engine f gt max_rounds ts ts.bad
