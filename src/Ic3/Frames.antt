-- ===== src/Ic3/Frames.antt =====
-- ic3.py: the states that the frames allow, and what learning and propagation do to them.
use emergent_hardware_verifi.Sat.Literal.{lit_val, clause_val-member, clause_val, Assignment}
use emergent_hardware_verifi.Prelude.{
  ◌≤◌, ◌≡◌, ◌∷◌, ℕ, zero, true, suc, some, refl, ltb, length, leb, inr, inl, false, if◌then◌else◌,
  drop, arith, ap, [], Option, List, Bool-cases, Bool, ◌<◌, ◌&&◌,
}
use emergent_hardware_verifi.Ic3.{Cube, ◌>>=◌}
use emergent_hardware_verifi.Ic3.Obligations.{
  proper_subset, has_cube, unsubsumed, add_to_frame, add_to_frames, add_blocked,
}
use emergent_hardware_verifi.Interp.{subset}

-- Does a state meet every clause of a frame, and of the frames of a list? State bit i is variable i + 1.
abbrev pub frame_val : Assignment → List Cube → Bool
frame_val μ [] = true
frame_val μ (cl ∷ cls) = clause_val μ cl && frame_val μ cls

abbrev pub frames_val : Assignment → List (List Cube) → Bool
frames_val μ [] = true
frames_val μ (fr ∷ frs) = frame_val μ fr && frames_val μ frs

clause_val-subset :
    (μ : Assignment) (a b : Cube)
    → subset a b ≡ true
    → clause_val μ a ≡ true
    → clause_val μ b ≡ true
unfolding subset
clause_val-subset μ [] b h k = cc
clause_val-subset μ (l ∷ ls) b h k = elim (Bool-cases (lit_val μ l)) [
  | inl e ↦ clause_val-member μ l b (ground arith) e
  | inr e ↦ clause_val-subset μ ls b (ground arith) (ground arith)
]

pub frame_val-has_cube :
    (μ : Assignment) (c : Cube) (fr : List Cube)
    → has_cube c fr ≡ true
    → frame_val μ fr ≡ true
    → clause_val μ c ≡ true
frame_val-has_cube μ c [] h k = cc
frame_val-has_cube μ c (d ∷ ds) h k = elim (Bool-cases (subset c d && subset d c)) [
  | inl e ↦ clause_val-subset μ d c (ground arith) (ground arith)
  | inr e ↦ frame_val-has_cube μ c ds (ground arith) (ground arith)
]

-- Only clauses that the new one implies are removed.
frame_val-unsubsumed :
    (μ : Assignment) (c : Cube) (fr : List Cube)
    → clause_val μ c ≡ true
    → frame_val μ (unsubsumed c fr) ≡ frame_val μ fr
unfolding unsubsumed
frame_val-unsubsumed μ c [] h = refl
frame_val-unsubsumed μ c (cl ∷ cls) h = elim (Bool-cases (proper_subset c cl)) [
  | inl e ↦
      let weaker : clause_val μ cl ≡ true = clause_val-subset μ c cl (ground arith) h in
      rw (e, weaker) (frame_val-unsubsumed μ c cls h)
  | inr e ↦ rw e (ap (λ b. clause_val μ cl && b) (frame_val-unsubsumed μ c cls h))
]

frame_val-weaker :
    (μ : Assignment) (c : Cube) (fr : List Cube)
    → frame_val μ fr ≡ true
    → frame_val μ (unsubsumed c fr) ≡ true
unfolding unsubsumed
frame_val-weaker μ c [] v = refl
frame_val-weaker μ c (cl ∷ cls) v =
    let rest = frame_val-weaker μ c cls (ground arith) in ground arith

frame_val-add_to_frame :
    (μ : Assignment) (c : Cube) (fr : List Cube)
    → frame_val μ (add_to_frame c fr) ≡ (clause_val μ c && frame_val μ fr)
unfolding add_to_frame
frame_val-add_to_frame μ c fr = elim (Bool-cases (has_cube c (unsubsumed c fr))) [
  | inl e ↦ rw e (
      with_clause (λ v. frame_val-unsubsumed μ c fr v)
        (λ v. frame_val-has_cube μ c (unsubsumed c fr) e v) (weaker_frame fr))
  | inr e ↦ rw e (adding (clause_val μ c) refl)
]
  where
    weaker_frame :
        (cls : List Cube) → frame_val μ cls ≡ true → frame_val μ (unsubsumed c cls) ≡ true
    weaker_frame cls v = frame_val-weaker μ c cls v

    with_clause :
        (clause_val μ c ≡ true → frame_val μ (unsubsumed c fr) ≡ frame_val μ fr)
        → (frame_val μ (unsubsumed c fr) ≡ true → clause_val μ c ≡ true)
        → (frame_val μ fr ≡ true → frame_val μ (unsubsumed c fr) ≡ true)
        → frame_val μ (unsubsumed c fr) ≡ (clause_val μ c && frame_val μ fr)
    with_clause h k w = ground arith

    adding :
        (b : Bool)
        → clause_val μ c ≡ b
        → (clause_val μ c && frame_val μ (unsubsumed c fr)) ≡ (clause_val μ c && frame_val μ fr)
    adding true e = ap (λ t. clause_val μ c && t) (frame_val-unsubsumed μ c fr e)
    adding false e = rw e refl

-- `n` frames, each with the clause.
record Tightened (c : Cube) (n : ℕ) (frs : List (List Cube)) (r : Option (List (List Cube)))
    : Type 0 where
  frames' : List (List Cube)
  returns : r ≡ some frames'
  meets :
      (μ : Assignment) (i : ℕ)
      → frames_val μ (drop i frames')
        ≡ ((if ltb i n then clause_val μ c else true) && frames_val μ (drop i frs))

add_to_frames-Tightened :
    (c : Cube) (n : ℕ) (frs : List (List Cube))
    → n ≤ length frs
    → Tightened c n frs (add_to_frames c n frs)
unfolding add_to_frames
add_to_frames-Tightened c zero frs h = record {
  frames' = frs;
  returns = refl;
  meets = λ μ i. none_added μ i;
}
  where
    none_added :
        (μ : Assignment) (i : ℕ)
        → frames_val μ (drop i frs)
          ≡ ((if ltb i 0 then clause_val μ c else true) && frames_val μ (drop i frs))
    none_added μ i = ground arith
add_to_frames-Tightened c (suc n) [] h = absurd (omega arith)
add_to_frames-Tightened c (suc n) (fr ∷ frs) h =
    let rest = add_to_frames-Tightened c n frs (omega arith) in
    record {
      frames' = add_to_frame c fr ∷ rest.frames';
      returns = rw (rest.returns, add_to_frames, ◌>>=◌) refl;
      meets = λ μ i. at_frame μ i rest.frames' (rest.meets μ);
    }
  where
    at_frame :
        (μ : Assignment) (i : ℕ) (frs' : List (List Cube))
        → ((j : ℕ)
            → frames_val μ (drop j frs')
              ≡ ((if ltb j n then clause_val μ c else true) && frames_val μ (drop j frs)))
        → frames_val μ (drop i (add_to_frame c fr ∷ frs'))
          ≡ ((if ltb i (suc n) then clause_val μ c else true) && frames_val μ (drop i (fr ∷ frs)))
    at_frame μ zero frs' ih =
        let first = frame_val-add_to_frame μ c fr in
        let others : frames_val μ frs'
            ≡ ((if ltb 0 n then clause_val μ c else true) && frames_val μ frs) =
          ih 0 in
        ground arith
    at_frame μ (suc j) frs' ih = let later = ih j in ground arith

-- What `_add_blocked` makes of the frames.
pub record Blocked (clause : Cube) (upto : ℕ) (frames : List (List Cube))
    (r : Option (List (List Cube))) : Type 0 where
  pub frames' : List (List Cube)
  pub returns : r ≡ some frames'
  pub meets :
      (μ : Assignment) (i : ℕ)
      → 0 < i
      → frames_val μ (drop i frames')
        ≡ ((if leb i upto then clause_val μ clause else true) && frames_val μ (drop i frames))

-- For an upto under the number of frames, _add_blocked returns frames; for every i > 0 the states
-- that meet all clauses of the frames from i on are, if i <= upto, those that did before and meet
-- the new clause, and otherwise those that did before, although subsumed clauses are removed.
pub add_blocked-Blocked :
    (clause : Cube) (upto : ℕ) (frames : List (List Cube))
    → upto < length frames
    → Blocked clause upto frames (add_blocked clause upto frames)
unfolding add_blocked
add_blocked-Blocked clause upto [] h = absurd (omega arith)
add_blocked-Blocked clause upto (fr ∷ frs) h =
    let rest = add_to_frames-Tightened clause upto frs (omega arith) in
    record {
      frames' = fr ∷ rest.frames';
      returns = rw (rest.returns, ◌>>=◌) refl;
      meets = λ μ i l. later μ i l rest.frames' (rest.meets μ);
    }
  where
    later :
        (μ : Assignment) (i : ℕ)
        → 0 < i
        → (frs' : List (List Cube))
        → ((j : ℕ)
            → frames_val μ (drop j frs')
              ≡ ((if ltb j upto then clause_val μ clause else true) && frames_val μ (drop j frs)))
        → frames_val μ (drop i (fr ∷ frs'))
          ≡ ((if leb i upto then clause_val μ clause else true) && frames_val μ (drop i (fr ∷ frs)))
    later μ zero l frs' ih = absurd (omega arith)
    later μ (suc j) l frs' ih = let at_j = ih j in ground arith
