-- ===== src/Liveness/Lasso.antt =====
-- liveness.py: a bad run of the augmented system is a lasso on which an obligation is never met.
use emergent_hardware_verifi.Liveness.{watched, shadow}
use emergent_hardware_verifi.MulSampler.{run}
use emergent_hardware_verifi.Frame.Fresh.{listed}
use emergent_hardware_verifi.Liveness.Monitors.{loop_closed, latched, in_loop, guard_val, allowed}
use emergent_hardware_verifi.Circuit.Meaning.{eval, all, Valuation}
use emergent_hardware_verifi.Frame.{TransitionSystem}
use emergent_hardware_verifi.Circuit.Sig.{Sig}
use emergent_hardware_verifi.Liveness.Augmented.{Monitored}
use emergent_hardware_verifi.Liveness.Loops.{
  quiet_before, owes_before, owed_after-append, owed_after, never-append, never, loop_closed-same,
  listed_last, flip-true, append_one, append_in, and_right, and_left, all_allowed-append,
  all_allowed, Lasso, IsRun,
}
use emergent_hardware_verifi.Liveness.Lookup.{listed-append, Defines-step, Defines-start}
use emergent_hardware_verifi.Bmc.Check.{last_of, BadRun}
use emergent_hardware_verifi.Prelude.{
  ◌≡◌, ◌∷◌, ◌∙◌, ℕ, ◌||◌, true, sym, subst, some, refl, map, inr, inl, flip, false, ap₂, ap, [],
  String, List-cases, List, Bool-cases, ◌++◌, ◌&&◌,
}
use mathlib.Core.Option.{get_or}
use emergent_hardware_verifi.Frame.Runs.{IsStart, IsStep, IsPathFrom}

-- What is known of the loop once its start was saved, with the states so far in `seen`.
record Since (ts : TransitionSystem) (a b : Sig) (seen : List Valuation) (ρ : Valuation)
    : Type 0 where
  stem : List Valuation
  first : Valuation
  between : List Valuation
  split : seen ≡ stem ++ first ∷ between
  frozen : (w : String) → listed w (watched ts) ≡ true → ρ (shadow w) ≡ first w
  first_owes : first "__pending" ≡ owed_after a b false stem
  owed : ρ "__triggered" ≡ false → owed_after a b false stem ≡ true
  starved : ρ "__triggered" ≡ false → ρ "__pending" ≡ true → never b (first ∷ between) ≡ true

record Tracked (ts : TransitionSystem) (a b : Sig) (seen : List Valuation) (ρ : Valuation)
    : Type 0 where
  pending_is : ρ "__pending" ≡ owed_after a b false seen
  latch_is : ρ "__assm_ok" ≡ true → all_allowed ts seen ≡ true
  since : ρ "__saved" ≡ true → Since ts a b seen ρ

module _ (ts : TransitionSystem) (a b : Sig) (L : TransitionSystem) (m : Monitored ts a b L) where
  IsStep-of_design : (ρ σ : Valuation) → IsStep L ρ σ → IsStep ts ρ σ
  IsStep-of_design ρ σ taken x e sig n =
      let c = m.bits x e in
      let same : c.own ≡ sig = ap (λ o. get_or o c.own) (sym c.has_own ∙ n) in
      Defines-step ρ σ c.defines taken ∙ ap (eval ρ) same

  IsPathFrom-of_design :
      (ρ : Valuation) (ρs : List Valuation) → IsPathFrom L ρ ρs → IsPathFrom ts ρ ρs
  IsPathFrom-of_design ρ [] p = tt
  IsPathFrom-of_design ρ (σ ∷ ρs) p = (IsStep-of_design ρ σ p.0, IsPathFrom-of_design σ ρs p.1)

  IsStart-of_design : (ρ : Valuation) → IsStart L ρ → IsStart ts ρ
  IsStart-of_design ρ start x e =
      let c = m.bits x e in c.has_init ∙ ap some (sym (Defines-start ρ c.defines start))

  start-Tracked : (ρ : Valuation) → IsStart L ρ → Tracked ts a b [] ρ
  start-Tracked ρ start = record {
    pending_is = Defines-start ρ m.pending start;
    latch_is = λ _. refl;
    since = λ h. let bad : true ≡ false = sym h ∙ Defines-start ρ m.saved start in cc;
  }

  -- A step on the loop, from the state in which the oracle fires on.
  module _ (seen : List Valuation) (ρ σ : Valuation) (taken : IsStep L ρ σ)
      (looping : in_loop ρ ≡ true) where
    calm_before : σ "__triggered" ≡ false → ρ "__triggered" ≡ false
    calm_before q =
        quiet_before (ρ "__saved") (ρ "__save") (ρ "__triggered") (ρ "__pending") looping
          (sym (Defines-step ρ σ m.triggered taken) ∙ q)

    owes_now : σ "__triggered" ≡ false → ρ "__pending" ≡ true
    owes_now q =
        owes_before (ρ "__saved") (ρ "__save") (ρ "__triggered") (ρ "__pending") looping
          (sym (Defines-step ρ σ m.triggered taken) ∙ q)

    absent_now : σ "__pending" ≡ true → flip (eval ρ b) ≡ true
    absent_now p =
        and_right (ρ "__pending" || eval ρ a) (flip (eval ρ b))
          (sym (Defines-step ρ σ m.pending taken) ∙ p)

    later-Since : ρ "__saved" ≡ true → Since ts a b seen ρ → Since ts a b (seen ++ ρ ∷ []) σ
    later-Since saved s = record {
      stem = s.stem;
      first = s.first;
      between = s.between ++ ρ ∷ [];
      split = ap (λ l. l ++ ρ ∷ []) s.split ∙ append_in s.stem s.first s.between (ρ ∷ []);
      frozen = λ w e. Defines-step ρ σ (m.shadows w e) taken ∙ rw saved (s.frozen w e);
      first_owes = s.first_owes;
      owed = λ q. s.owed (calm_before q);
      starved = λ q p.
          never-append b (s.first ∷ s.between) ρ
          ∙ ap₂ ◌&&◌ (s.starved (calm_before q) (owes_now q)) (absent_now p);
    }

    first-Since :
        ρ "__saved" ≡ false
        → ρ "__pending" ≡ owed_after a b false seen
        → Since ts a b (seen ++ ρ ∷ []) σ
    first-Since saved is = record {
      stem = seen;
      first = ρ;
      between = [];
      split = refl;
      frozen = λ w e. Defines-step ρ σ (m.shadows w e) taken ∙ rw saved refl;
      first_owes = is;
      owed = λ q. sym is ∙ owes_now q;
      starved = λ q p. rw (absent_now p) refl;
    }

  -- Without assumptions there is nothing to respect.
  none_assumed : ts.assumptions ≡ [] → (ρs : List Valuation) → all_allowed ts ρs ≡ true
  none_assumed e [] = refl
  none_assumed e (ρ ∷ ρs) = ap₂ ◌&&◌ (ap (λ gs. all (map (eval ρ) gs)) e) (none_assumed e ρs)

  next_latch :
      (seen : List Valuation) (ρ σ : Valuation)
      → IsStep L ρ σ
      → (ρ "__assm_ok" ≡ true → all_allowed ts seen ≡ true)
      → σ "__assm_ok" ≡ true
      → all_allowed ts (seen ++ ρ ∷ []) ≡ true
  next_latch seen ρ σ taken before h = elim m.latch [
    | inl e ↦ none_assumed e (seen ++ ρ ∷ [])
    | inr d ↦
        let now : latched ts ρ ≡ true = sym (Defines-step ρ σ d taken) ∙ h in
        all_allowed-append ts seen ρ
        ∙ ap₂ ◌&&◌ (before (and_left (ρ "__assm_ok") (allowed ts ρ) now))
            (and_right (ρ "__assm_ok") (allowed ts ρ) now)
  ]

  guard-latched :
      (ρ : Valuation) (g : Sig) (gs : List Sig)
      → ts.assumptions ≡ g ∷ gs
      → guard_val ts.assumptions ρ ≡ latched ts ρ
  guard-latched ρ g gs e =
      ap (λ l. guard_val l ρ) e ∙ ap (λ l. ρ "__assm_ok" && all (map (eval ρ) l)) (sym e)

  all_guarded :
      (seen : List Valuation) (ρ : Valuation)
      → (ρ "__assm_ok" ≡ true → all_allowed ts seen ≡ true)
      → guard_val ts.assumptions ρ ≡ true
      → all_allowed ts (seen ++ ρ ∷ []) ≡ true
  all_guarded seen ρ before h = elim (List-cases ts.assumptions) [
    | inl e ↦ none_assumed e (seen ++ ρ ∷ [])
    | inr (g, gs, e) ↦
        let now : latched ts ρ ≡ true = sym (guard-latched ρ g gs e) ∙ h in
        all_allowed-append ts seen ρ
        ∙ ap₂ ◌&&◌ (before (and_left (ρ "__assm_ok") (allowed ts ρ) now))
            (and_right (ρ "__assm_ok") (allowed ts ρ) now)
  ]

  next-Tracked :
      (seen : List Valuation) (ρ σ : Valuation)
      → IsStep L ρ σ
      → Tracked ts a b seen ρ
      → Tracked ts a b (seen ++ ρ ∷ []) σ
  next-Tracked seen ρ σ taken t = record {
    pending_is =
        Defines-step ρ σ m.pending taken
        ∙ rw t.pending_is (sym (owed_after-append a b seen false ρ));
    latch_is = next_latch seen ρ σ taken t.latch_is;
    since = λ h. elim (Bool-cases (ρ "__saved")) [
      | inl e ↦ later-Since seen ρ σ taken (rw e refl) e (t.since e)
      | inr e ↦ first-Since seen ρ σ taken (sym (Defines-step ρ σ m.saved taken) ∙ h) e t.pending_is
    ];
  }

  finish_loop :
      (seen : List Valuation) (ρ : Valuation)
      → Tracked ts a b seen ρ
      → IsRun ts (seen ++ ρ ∷ [])
      → eval ρ m.bad ≡ true
      → Lasso ts a b
  finish_loop seen ρ t run h =
      let shut = loop_closed (watched ts) ρ in
      let calm = flip (ρ "__triggered") in
      let kept = guard_val ts.assumptions ρ in
      let holds : (((ρ "__saved" && shut) && calm) && kept) ≡ true = sym (m.bad_means ρ) ∙ h in
      let front = and_left ((ρ "__saved" && shut) && calm) kept holds in
      let on_loop = and_left (ρ "__saved" && shut) calm front in
      let s = t.since (and_left (ρ "__saved") shut on_loop) in
      let back = and_right (ρ "__saved") shut on_loop in
      let quiet_end : ρ "__triggered" ≡ false =
        flip-true (ρ "__triggered") (and_right (ρ "__saved" && shut) calm front) in
      let owed = s.owed quiet_end in
      let same : (w : String) → listed w (watched ts) ≡ true → ρ w ≡ s.first w =
        λ w e. loop_closed-same (watched ts) ρ w back e ∙ s.frozen w e in
      let pending_end : ρ "__pending" ≡ true =
        same "__pending" (listed_last ts.state "__pending") ∙ s.first_owes ∙ owed in
      record {
        stem = s.stem;
        first = s.first;
        between = s.between;
        last = ρ;
        runs = subst (λ l. IsRun ts (l ++ ρ ∷ [])) s.split run;
        returns = λ x e. same x (rw (listed-append x ts.state ("__pending" ∷ []), e) refl);
        owed = owed;
        starved = s.starved quiet_end pending_end;
        assumed =
            subst (λ l. all_allowed ts (l ++ ρ ∷ []) ≡ true) s.split
              (all_guarded seen ρ t.latch_is
                (and_right ((ρ "__saved" && shut) && calm) kept holds));
      }

  find_loop :
      (seen : List Valuation) (ρ : Valuation) (ρs : List Valuation)
      → Tracked ts a b seen ρ
      → IsPathFrom L ρ ρs
      → IsRun ts (seen ++ ρ ∷ ρs)
      → eval (last_of ρ ρs) m.bad ≡ true
      → Lasso ts a b
  unfolding last_of
  find_loop seen ρ [] t p run h = finish_loop seen ρ t run h
  find_loop seen ρ (σ ∷ ρs) t p run h =
      find_loop (seen ++ ρ ∷ []) σ ρs (next-Tracked seen ρ σ p.0 t) p.1
        (subst (λ l. IsRun ts l) (sym (append_one seen ρ (σ ∷ ρs))) run) h

  pub BadRun-Lasso : (k : ℕ) → BadRun L m.bad k → Lasso ts a b
  BadRun-Lasso k r =
      find_loop [] r.start r.later (start-Tracked r.start r.starts) r.path
        (IsStart-of_design r.start r.starts, IsPathFrom-of_design r.start r.later r.path) r.ends_bad
