-- ===== src/Ic3/Blocking.antt =====
-- ic3.py, `_block`: what its answers say of the obligations.
use mathlib.Core.Option.{get_or}
use emergent_hardware_verifi.Interp.{subset}
use emergent_hardware_verifi.Sat.Literal.{
  ℤ, neg, member, lit_val-neg, clause_val, all_true-member, all_true, IsLiteral, Assignment,
}
use emergent_hardware_verifi.Prelude.{
  ◌⊎◌, ◌≤◌, ◌≡◌, ◌∷◌, ◌∙◌, ℕ, zero, true, sym, suc, subst, some, refl, none, map, ltb, length, leb,
  inr, inl, false, if◌then◌else◌, drop, arith, ap, [], Option-cases, Option, List, Bool-cases, ◌<◌,
  ◌-◌, ◌&&◌,
}
use emergent_hardware_verifi.Ic3.Obligations.{
  add_blocked, add_to_frames, Tools, generalize, learn_clause,
}
use emergent_hardware_verifi.Ic3.Frames.{frames_val, add_blocked-Blocked}
use emergent_hardware_verifi.Ic3.Generalized.{generalize-smaller}
use emergent_hardware_verifi.Ic3.{Cube, Ic3Engine, ◌>>=◌}

abbrev pub Obligation : Type 0
Obligation = ℕ × Cube

abbrev pub InQueue : Obligation → List Obligation → Type 0
InQueue o [] = ⊥
InQueue o (x ∷ xs) = (o ≡ x) ⊎ InQueue o xs

-- heapq: a push adds its item, and a pop takes its item out; no other item comes or goes.
pub record IsHeapq (tools : Tools) : Type 0 where
  pub pushed :
      (o x : Obligation) (os : List Obligation)
      → InQueue o (tools.heappush x os)
      → (o ≡ x) ⊎ InQueue o os
  pub pushes :
      (o x : Obligation) (os : List Obligation)
      → (o ≡ x) ⊎ InQueue o os
      → InQueue o (tools.heappush x os)
  pub popped :
      (o x : Obligation) (os rest : List Obligation)
      → tools.heappop os ≡ some (x, rest)
      → (o ≡ x) ⊎ InQueue o rest
      → InQueue o os
  pub pops :
      (o x : Obligation) (os rest : List Obligation)
      → tools.heappop os ≡ some (x, rest)
      → InQueue o os
      → (o ≡ x) ⊎ InQueue o rest

-- The literals of a cube name state bits: none is 0.
abbrev pub HasLiterals : Cube → Type 0
HasLiterals s = (l : ℤ) → member l s ≡ true → IsLiteral l

-- No state that meets the frames from `k` on is in the cube.
abbrev pub Blocks : Ic3Engine → ℕ → Cube → Type 0
Blocks eng k s = (μ : Assignment) → frames_val μ (drop k eng.frames) ≡ true → all_true μ s ≡ false

clause_val-negated :
    (μ : Assignment) (g s : Cube)
    → HasLiterals s
    → subset g s ≡ true
    → all_true μ s ≡ true
    → clause_val μ (map neg g) ≡ false
unfolding subset
clause_val-negated μ [] s h p a = refl
clause_val-negated μ (l ∷ ls) s h p a =
    let here : member l s ≡ true = ground (arith, p) in
    let holds = all_true-member μ l s here a in
    let negated = lit_val-neg μ l (h l here) in
    let rest = clause_val-negated μ ls s h (ground (arith, p)) a in
    ground (arith, holds, negated, rest)

-- Enough frames are there where _add_blocked returns.
enough_frames :
    (c : Cube) (n : ℕ) (frs frs' : List (List Cube))
    → add_to_frames c n frs ≡ some frs'
    → n ≤ length frs
unfolding add_to_frames
enough_frames c zero frs frs' h = omega arith
enough_frames c (suc n) [] frs' h =
    let bad : ◌≡◌ {A = Option (List (List Cube))} none (some frs') = h in cc
enough_frames c (suc n) (fr ∷ frs) frs' h = elim (Option-cases (add_to_frames c n frs)) [
  | inl e ↦
      let bad : ◌≡◌ {A = Option (List (List Cube))} none (some frs') =
        sym (rw (e, add_to_frames, ◌>>=◌) refl) ∙ h in
      cc
  | inr (rest, e) ↦ let le = enough_frames c n frs rest e in omega (arith, le)
]

in_range :
    (c : Cube) (i : ℕ) (frs frs' : List (List Cube))
    → add_blocked c (suc i) frs ≡ some frs'
    → suc i < length frs
unfolding add_blocked
in_range c i [] frs' h = let bad : ◌≡◌ {A = Option (List (List Cube))} none (some frs') = h in cc
in_range c i (fr ∷ frs) frs' h = elim (Option-cases (add_to_frames c (suc i) frs)) [
  | inl e ↦
      let bad : ◌≡◌ {A = Option (List (List Cube))} none (some frs') =
        sym (rw (e, ◌>>=◌) refl) ∙ h in
      cc
  | inr (rest, e) ↦ let le = enough_frames c (suc i) frs rest e in omega (arith, le)
]

-- What learning makes of the engine and of the queue.
pub record Learns (tools : Tools) (eng : Ic3Engine) (queue : List Obligation) (i : ℕ) (s : Cube)
    (eng' : Ic3Engine) (queue' : List Obligation) : Type 0 where
  pub same_ts : eng'.ts ≡ eng.ts
  pub queued : (queue' ≡ queue) ⊎ (queue' ≡ tools.heappush (suc (suc i), s) queue)
  pub blocks : HasLiterals s → Blocks eng' (suc i) s
  pub keeps :
      (μ : Assignment) (j : ℕ)
      → 0 < j
      → frames_val μ (drop j eng'.frames) ≡ true
      → frames_val μ (drop j eng.frames) ≡ true

abbrev pub LearnsAll :
    Tools → Ic3Engine → List Obligation → ℕ → Cube → Option (Ic3Engine × List Obligation) → Type 0
LearnsAll tools eng queue i s none = Unit {0}
LearnsAll tools eng queue i s (some (eng', queue')) = Learns tools eng queue i s eng' queue'

pub learn_clause-Learns :
    (tools : Tools) (eng : Ic3Engine) (queue : List Obligation) (i : ℕ) (s : Cube)
    → LearnsAll tools eng queue i s (learn_clause tools eng queue (suc i) s)
unfolding learn_clause
learn_clause-Learns tools eng queue i s =
    elim (Option-cases (generalize tools.find_model eng s (suc i))) [
      | inl e ↦ rw (e, ◌>>=◌, LearnsAll) tt
      | inr (g, e) ↦ elim (Option-cases (add_blocked (map neg g) (suc i) eng.frames)) [
        | inl a ↦ rw (e, ◌>>=◌, LearnsAll) (rw (a, ◌>>=◌, LearnsAll) tt)
        | inr (frs, a) ↦ rw (e, ◌>>=◌, LearnsAll) (rw (a, ◌>>=◌, LearnsAll) (learnt g frs e a))
      ]
    ]
  where
    added :
        (g : Cube) (frs : List (List Cube))
        → add_blocked (map neg g) (suc i) eng.frames ≡ some frs
        → (μ : Assignment) (j : ℕ) → 0 < j
        → frames_val μ (drop j frs) ≡ (
            (if leb j (suc i) then clause_val μ (map neg g) else true)
            && frames_val μ (drop j eng.frames))
    added g frs a μ j pos_j =
        let b =
          add_blocked-Blocked (map neg g) (suc i) eng.frames
            (in_range (map neg g) i eng.frames frs a) in
        let same : b.frames' ≡ frs = ap (λ o. get_or o frs) (sym b.returns ∙ a) in
        subst
          (λ x. frames_val μ (drop j x) ≡ (
            (if leb j (suc i) then clause_val μ (map neg g) else true)
            && frames_val μ (drop j eng.frames)))
          same (b.meets μ j pos_j)

    learnt :
        (g : Cube) (frs : List (List Cube))
        → generalize tools.find_model eng s (suc i) ≡ some g
        → add_blocked (map neg g) (suc i) eng.frames ≡ some frs
        → Learns tools eng queue i s
            (record eng { frames = frs })
            (if ltb (suc i) (length eng.frames - 1)
              then tools.heappush (suc (suc i), s) queue
              else queue)
    learnt g frs e a = record {
      same_ts = refl;
      queued = elim (Bool-cases (ltb (suc i) (length eng.frames - 1))) [
        | inl t ↦ inr (rw t refl)
        | inr t ↦ inl (rw t refl)
      ];
      blocks = λ lits μ m. elim (Bool-cases (all_true μ s)) [
        | inr k ↦ k
        | inl k ↦
            let negated =
              clause_val-negated μ g s lits (generalize-smaller tools.find_model eng (suc i) s g e)
                k in
            let here = added g frs a μ (suc i) (omega arith) in ground (arith, negated, here, m)
      ];
      keeps = λ μ j pos_j m. let here = added g frs a μ j pos_j in ground (arith, here, m);
    }
