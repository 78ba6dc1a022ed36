-- ===== src/Ic3/Converged.antt =====
-- ic3.py, `_propagate`: what its result says of the frames.
use emergent_hardware_verifi.Ic3.Frames.{frames_val, frame_val-has_cube, frame_val}
use emergent_hardware_verifi.Bmc.Loop.{SearchFor}
use emergent_hardware_verifi.Sat.Literal.{Assignment}
use emergent_hardware_verifi.Prelude.{
  ◌≡◌, ◌∷◌, ◌∙◌, ℕ, zero, true, sym, suc, subst, some, refl, none, length, inr, inl, get_elem?,
  drop, arith, ap, [], Option-cases, Option, List, Bool-cases, Bool, ◌<◌, ◌-◌, ◌&&◌,
}
use emergent_hardware_verifi.Ic3.{Cube, Ic3Engine, ◌>>=◌, inductive_rel}
use emergent_hardware_verifi.Ic3.Obligations.{has_cube}
use emergent_hardware_verifi.Ic3.Search.{
  add_at, push_clause, push_clauses, propagate_from, propagate_frames, same_frames, all_in,
}
use mathlib.Core.Option.{get_or}

-- The frames under `n` are as they were.
abbrev Keeps : ℕ → List (List Cube) → List (List Cube) → Type 0
Keeps n xs ys = (j : ℕ) → j < n → get_elem? ys j ≡ get_elem? xs j

add_at-Keeps :
    (c : Cube) (n : ℕ) (frs frs' : List (List Cube)) → add_at c n frs ≡ some frs' → Keeps n frs frs'
unfolding add_at
add_at-Keeps c n [] frs' h j l =
    let bad : ◌≡◌ {A = Option (List (List Cube))} none (some frs') = h in cc
add_at-Keeps c zero (fr ∷ frs) frs' h j l = absurd (omega arith)
add_at-Keeps c (suc n) (fr ∷ frs) frs' h j l = elim (Option-cases (add_at c n frs)) [
  | inl e ↦
      let bad : ◌≡◌ {A = Option (List (List Cube))} none (some frs') =
        sym (rw (e, ◌>>=◌) refl) ∙ h in
      cc
  | inr (rest, e) ↦
      let same : some (fr ∷ rest) ≡ some frs' = sym (rw (e, ◌>>=◌) refl) ∙ h in
      rw (sym (ap (λ o. get_or o frs') same)) (at_place rest (add_at-Keeps c n frs rest e) j l)
]
  where
    at_place :
        (rest : List (List Cube))
        → Keeps n frs rest
        → (i : ℕ) → i < suc n
        → get_elem? (fr ∷ rest) i ≡ get_elem? (fr ∷ frs) i
    at_place rest k zero b = refl
    at_place rest k (suc i) b = k i (omega arith)

-- One clause that is pushed from frame `i` leaves the frames up to `i`.
push_clause-Keeps :
    (find_model : SearchFor) (i : ℕ) (cl : Cube) (eng eng' : Ic3Engine)
    → push_clause find_model i cl eng ≡ some eng'
    → Keeps (suc i) eng.frames eng'.frames
unfolding push_clause
push_clause-Keeps find_model i cl eng eng' h j l =
    elim (Option-cases (get_elem? eng.frames (suc i))) [
      | inl e ↦
          let bad : ◌≡◌ {A = Option Ic3Engine} none (some eng') = sym (rw (e, ◌>>=◌) refl) ∙ h in cc
      | inr (fr, e) ↦ elim (Bool-cases (has_cube cl fr)) [
        | inl there ↦
            let same : some eng ≡ some eng' = sym (rw (e, there, ◌>>=◌) refl) ∙ h in
            rw (sym (ap (λ o. get_or o eng') same)) refl
        | inr absent ↦ elim (Option-cases (inductive_rel find_model eng cl i)) [
          | inl r ↦
              let bad : ◌≡◌ {A = Option Ic3Engine} none (some eng') =
                sym (rw (e, absent, r, ◌>>=◌) refl) ∙ h in
              cc
          | inr (ok, r) ↦ elim (Bool-cases ok) [
            | inr stays ↦
                let same : some eng ≡ some eng' = sym (rw (e, absent, r, stays, ◌>>=◌) refl) ∙ h in
                rw (sym (ap (λ o. get_or o eng') same)) refl
            | inl goes ↦ elim (Option-cases (add_at cl (suc i) eng.frames)) [
              | inl a ↦
                  let bad : ◌≡◌ {A = Option Ic3Engine} none (some eng') =
                    sym (rw (e, absent, r, goes, a, ◌>>=◌) refl) ∙ h in
                  cc
              | inr (frs, a) ↦
                  let same : some (record eng { frames = frs }) ≡ some eng' =
                    sym (rw (e, absent, r, goes, a, ◌>>=◌) refl) ∙ h in
                  let frames : frs ≡ eng'.frames = ap (λ o. (get_or o eng').frames) same in
                  rw (sym frames) (add_at-Keeps cl (suc i) eng.frames frs a j l)
            ]
          ]
        ]
      ]
    ]

push_clauses-Keeps :
    (find_model : SearchFor) (i : ℕ) (cls : List Cube) (eng eng' : Ic3Engine)
    → push_clauses find_model i cls eng ≡ some eng'
    → Keeps (suc i) eng.frames eng'.frames
unfolding push_clauses
push_clauses-Keeps find_model i [] eng eng' h j l =
    let same : some eng ≡ some eng' = h in rw (sym (ap (λ o. get_or o eng') same)) refl
push_clauses-Keeps find_model i (cl ∷ cls) eng eng' h j l =
    elim (Option-cases (push_clause find_model i cl eng)) [
      | inl e ↦
          let bad : ◌≡◌ {A = Option Ic3Engine} none (some eng') = sym (rw (e, ◌>>=◌) refl) ∙ h in cc
      | inr (mid, e) ↦
          push_clauses-Keeps find_model i cls mid eng' (sym (rw (e, ◌>>=◌) refl) ∙ h) j l
          ∙ push_clause-Keeps find_model i cl eng mid e j l
    ]

frames_val-drop :
    (μ : Assignment) (i : ℕ) (frs : List (List Cube)) (fr : List Cube)
    → get_elem? frs i ≡ some fr
    → frames_val μ (drop i frs) ≡ (frame_val μ fr && frames_val μ (drop (suc i) frs))
frames_val-drop μ i [] fr h = let bad : ◌≡◌ {A = Option (List Cube)} none (some fr) = h in cc
frames_val-drop μ zero (x ∷ xs) fr h = ap (λ o. frame_val μ (get_or o x) && frames_val μ xs) h
frames_val-drop μ (suc i) (x ∷ xs) fr h = frames_val-drop μ i xs fr h

all_in-frame_val :
    (μ : Assignment) (fr other : List Cube)
    → all_in fr other ≡ true
    → frame_val μ other ≡ true
    → frame_val μ fr ≡ true
all_in-frame_val μ [] other h k = refl
all_in-frame_val μ (cl ∷ cls) other h k =
    let here = frame_val-has_cube μ cl other (ground arith) k in
    let rest = all_in-frame_val μ cls other (ground arith) k in ground arith

same_frames-all_in : (fr other : List Cube) → same_frames fr other ≡ true → all_in fr other ≡ true
same_frames-all_in [] other h = cc
same_frames-all_in (cl ∷ cls) other h = h

-- The converged frame: it allows the same states as the frame before it.
abbrev pub Converged : List (List Cube) → Option ℕ → Type 0
Converged frs none = Unit {0}
Converged frs (some c) =
    (0 < c) × ((μ : Assignment) → frames_val μ (drop (c - 1) frs) ≡ frames_val μ (drop c frs))

Converged-at :
    (i : ℕ) (frs : List (List Cube)) (fr other : List Cube)
    → get_elem? frs i ≡ some fr
    → get_elem? frs (suc i) ≡ some other
    → same_frames fr other ≡ true
    → Converged frs (some (suc i))
Converged-at i frs fr other e o h = (
  omega arith,
  λ μ.
      let here = frames_val-drop μ i frs fr e in
      let next_val = frames_val-drop μ (suc i) frs other o in
      let implied = all_in-frame_val μ fr other (same_frames-all_in fr other h) in
      let at_i : suc i - 1 ≡ i = omega arith in
      rw at_i (
        joined (frame_val μ fr) (frame_val μ other) (frames_val μ (drop (suc i) frs))
          (frames_val μ (drop (suc (suc i)) frs)) (frames_val μ (drop i frs)) here next_val
          implied),
)
  where
    joined : (a b s t r : Bool) → r ≡ (a && s) → s ≡ (b && t) → (b ≡ true → a ≡ true) → r ≡ s
    joined a b s t r h k w = ground arith

propagate_from-Converged :
    (find_model : SearchFor) (n i : ℕ) (eng eng' : Ic3Engine) (c : Option ℕ)
    → propagate_from find_model n i eng ≡ some (c, eng')
    → Converged eng'.frames c
unfolding propagate_from
propagate_from-Converged find_model zero i eng eng' c h =
    let same : none ≡ c = ap (λ (o : Option (Option ℕ × Ic3Engine)). (get_or o (c, eng')).0) h in
    rw (sym same) tt
propagate_from-Converged find_model (suc n) i eng eng' c h =
    elim (Option-cases (get_elem? eng.frames i)) [
      | inl e ↦
          let bad : ◌≡◌ {A = Option (Option ℕ × Ic3Engine)} none (some (c, eng')) =
            sym (rw (e, propagate_from) refl) ∙ h in
          cc
      | inr (fr, e) ↦ elim (Option-cases (push_clauses find_model i fr eng)) [
        | inl p ↦
            let bad : ◌≡◌ {A = Option (Option ℕ × Ic3Engine)} none (some (c, eng')) =
              sym (rw (e, p, propagate_from) refl) ∙ h in
            cc
        | inr (mid, p) ↦ elim (Option-cases (get_elem? mid.frames (suc i))) [
          | inl o ↦
              let bad : ◌≡◌ {A = Option (Option ℕ × Ic3Engine)} none (some (c, eng')) =
                sym (rw (e, p, o, propagate_from) refl) ∙ h in
              cc
          | inr (other, o) ↦ elim (Bool-cases (same_frames fr other)) [
            | inr differ ↦
                propagate_from-Converged find_model n (suc i) mid eng' c
                  (sym (rw (e, p, o, differ, propagate_from) refl) ∙ h)
            | inl agree ↦
                let same : ◌≡◌ {A = Option (Option ℕ × Ic3Engine)} (some (some (suc i), mid))
                    (some (c, eng')) =
                  sym (rw (e, p, o, agree, propagate_from) refl) ∙ h in
                let kept : get_elem? mid.frames i ≡ some fr =
                  push_clauses-Keeps find_model i fr eng mid p i (omega arith) ∙ e in
                subst (λ r. Converged r.1.frames r.0) (ap (λ x. get_or x (c, eng')) same)
                  (Converged-at i mid.frames fr other kept o agree)
          ]
        ]
      ]
    ]

-- If _propagate returns a frame number c, then c > 0, and the same states meet all clauses of the
-- frames from c - 1 on and of the frames from c on: the two adjacent frames coincide, whatever the
-- search answered.
pub propagate_frames-Converged :
    (find_model : SearchFor) (eng eng' : Ic3Engine) (c : Option ℕ)
    → propagate_frames find_model eng ≡ some (c, eng')
    → Converged eng'.frames c
unfolding propagate_frames
propagate_frames-Converged find_model eng eng' c h =
    propagate_from-Converged find_model (length eng.frames - 2) 1 eng eng' c h
