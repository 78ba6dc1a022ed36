-- ===== src/Ic3/Search.antt =====
-- ic3.py: `_propagate` and `solve`.
use emergent_hardware_verifi.Frame.{TransitionSystem}
use emergent_hardware_verifi.Bmc.Loop.{SearchFor}
use emergent_hardware_verifi.Prelude.{
  ◌⊎◌, ◌∷◌, ℕ, zero, true, suc, some, none, length, inr, inl, get_elem?, false, drop, [], Option,
  List, Bool, ◌-◌, ◌++◌, ◌&&◌,
}
use emergent_hardware_verifi.Ic3.{
  new_engine, Cube, Ic3Engine, ◌>>=◌, inductive_rel, init_intersects_bad,
}
use emergent_hardware_verifi.Ic3.Obligations.{Tools, add_to_frame, has_cube, block, bad_cube}

-- `self.frames[i + 1]` with a clause added.
unfoldable pub add_at : Cube → ℕ → List (List Cube) → Option (List (List Cube))
unfolding add_to_frame
add_at clause i [] = none
add_at clause zero (fr ∷ frs) = some (add_to_frame clause fr ∷ frs)
add_at clause (suc i) (fr ∷ frs) = do rest ← add_at clause i frs; some (fr ∷ rest)

-- One clause of frame `i`, pushed to the next frame where it is inductive.
unfoldable pub push_clause : SearchFor → ℕ → Cube → Ic3Engine → Option Ic3Engine
unfolding inductive_rel add_at
push_clause find_model i cl eng = do
  next_frame ← get_elem? eng.frames (suc i)
  elim (has_cube cl next_frame) [
    | true ↦ some eng
    | false ↦ elim (inductive_rel find_model eng cl i) [
      | none ↦ none
      | some ok ↦ elim ok [
        | false ↦ some eng
        | true ↦ add_at cl (suc i) eng.frames >>= λ frs. some (record eng { frames = frs })
      ]
    ]
  ]

unfoldable pub push_clauses : SearchFor → ℕ → List Cube → Ic3Engine → Option Ic3Engine
unfolding push_clause
push_clauses find_model i [] eng = some eng
push_clauses find_model i (cl ∷ cls) eng = do
  eng' ← push_clause find_model i cl eng
  push_clauses find_model i cls eng'

-- `self.frames[i].issubset(self.frames[i + 1])`
abbrev pub all_in : List Cube → List Cube → Bool
all_in [] frame = true
all_in (cl ∷ cls) frame = has_cube cl frame && all_in cls frame

-- `self.frames[i] and self.frames[i].issubset(self.frames[i + 1])`
abbrev pub same_frames : List Cube → List Cube → Bool
same_frames [] frame = false
same_frames (cl ∷ cls) frame = all_in (cl ∷ cls) frame

-- The loop of `_propagate` with `n` rounds left, at frame `i`.
unfoldable pub propagate_from : SearchFor → ℕ → ℕ → Ic3Engine → Option (Option ℕ × Ic3Engine)
unfolding push_clauses
propagate_from find_model zero i eng = some (none, eng)
propagate_from find_model (suc n) i eng = elim (get_elem? eng.frames i) [
  | none ↦ none
  | some fr ↦ elim (push_clauses find_model i fr eng) [
    | none ↦ none
    | some eng' ↦ elim (get_elem? eng'.frames (suc i)) [
      | none ↦ none
      | some next_frame ↦ elim (same_frames fr next_frame) [
        | true ↦ some (some (suc i), eng')
        | false ↦ propagate_from find_model n (suc i) eng'
      ]
    ]
  ]
]

unfoldable pub propagate_frames : SearchFor → Ic3Engine → Option (Option ℕ × Ic3Engine)
unfolding propagate_from
propagate_frames find_model eng = propagate_from find_model (length eng.frames - 2) 1 eng

-- The dictionary that `solve` returns: its result, with "frames" or "depth" and the invariant.
pub data Conclusion : Type 0 where
  is_safe : ℕ → List Cube → Conclusion
  fails_at_start : Conclusion
  fails : ℕ → Conclusion
  gave_up : ℕ → Conclusion

-- `while True:` at the frontier `k`, on fuel: the engine once the frontier is clean, or `none` inside
-- where Init reaches a bad cube.
unfoldable pub clean_frontier : ℕ → Tools → ℕ → Ic3Engine → Option (Option Ic3Engine)
unfolding bad_cube block
clean_frontier zero tools k eng = none
clean_frontier (suc f) tools k eng = elim (bad_cube tools eng k) [
  | none ↦ none
  | some found ↦ elim found [
    | none ↦ some (some eng)
    | some bad ↦ elim (block f tools eng bad k) [
      | none ↦ none
      | some (blocked, eng') ↦ elim blocked [
        | false ↦ some none
        | true ↦ clean_frontier f tools k eng'
      ]
    ]
  ]
]

-- `all(not f for f in self.frames[1:])`
abbrev pub all_empty : List (List Cube) → Bool
all_empty [] = true
all_empty ([] ∷ frs) = all_empty frs
all_empty ((_ ∷ _) ∷ frs) = false

-- `inv |= self.frames[j]` over the frames left.
unfoldable pub join_frames : List (List Cube) → List Cube
join_frames [] = []
join_frames (fr ∷ frs) = fr ++ join_frames frs

-- The clean frontier `k`: the verdict, or the engine for the next round.
unfoldable pub after_clean : Tools → ℕ → Ic3Engine → Option (Conclusion ⊎ Ic3Engine)
unfolding propagate_frames join_frames
after_clean tools k eng = elim (all_empty (drop 1 eng.frames)) [
  | true ↦ some (inl (is_safe k []))
  | false ↦
      elim (propagate_frames tools.find_model (record eng { frames = eng.frames ++ [] ∷ [] })) [
        | none ↦ none
        | some (converged, eng') ↦ elim converged [
          | none ↦ some (inr eng')
          | some c ↦ some (inl (is_safe k (join_frames (drop c eng'.frames))))
        ]
      ]
]

-- `while len(self.frames) - 1 < max_frames`, with `n` rounds left; a round appends one frame.
unfoldable pub solve_from : ℕ → Tools → ℕ → ℕ → Ic3Engine → Option Conclusion
unfolding clean_frontier after_clean
solve_from f tools max_frames zero eng = some (gave_up max_frames)
solve_from f tools max_frames (suc n) eng =
    let k = length eng.frames - 1 in
    elim (clean_frontier f tools k eng) [
      | none ↦ none
      | some clean ↦ elim clean [
        | none ↦ some (fails k)
        | some eng' ↦ elim (after_clean tools k eng') [
          | none ↦ none
          | some r ↦ elim r [ inl v ↦ some v | inr eng'' ↦ solve_from f tools max_frames n eng'' ]
        ]
      ]
    ]

unfoldable pub solve_frames : ℕ → Tools → TransitionSystem → ℕ → Option Conclusion
unfolding init_intersects_bad new_engine solve_from
solve_frames f tools ts max_frames = elim (init_intersects_bad tools.find_model ts) [
  | none ↦ none
  | some hits ↦ elim hits [
    | true ↦ some fails_at_start
    | false ↦ solve_from f tools max_frames (max_frames - 1) (new_engine ts)
  ]
]
