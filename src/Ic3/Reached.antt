-- ===== src/Ic3/Reached.antt =====
-- ic3.py, `_block`: the loop over the obligations.
use emergent_hardware_verifi.Frame.{TransitionSystem}
use emergent_hardware_verifi.Ic3.Obligations.{
  predecessor, learn_clause, discharge, block_loop, block, Tools,
}
use emergent_hardware_verifi.Ic3.{◌>>=◌, init_intersects, Ic3Engine, Cube}
use emergent_hardware_verifi.Prelude.{
  ◌⊎◌, ◌≡◌, ◌∷◌, ◌∙◌, ℕ, zero, true, sym, suc, subst, some, refl, none, inr, inl, false, arith, ap,
  [], Option-cases, Option, List, Bool, ◌<◌,
}
use emergent_hardware_verifi.Ic3.Blocking.{
  learn_clause-Learns, LearnsAll, Learns, Obligation, InQueue, IsHeapq, HasLiterals, Blocks,
}

-- From the cube, cubes lead to the bad one: each was found as a predecessor of the next.
pub data LeadsTo (tools : Tools) (ts : TransitionSystem) (bad : Cube) : Cube → Type 0 where
  at_bad : LeadsTo tools ts bad bad
  from_predecessor :
      (eng : Ic3Engine) (i : ℕ) (p s : Cube)
      → eng.ts ≡ ts
      → predecessor tools eng s i ≡ some (some p)
      → LeadsTo tools ts bad s
      → LeadsTo tools ts bad p

-- A cube that Init meets and that leads to the bad one, stored as the counterexample.
pub record Counterexample (tools : Tools) (ts : TransitionSystem) (bad : Cube) (eng : Ic3Engine)
    : Type 0 where
  pub cube : Cube
  pub stored : eng.cex ≡ some cube
  pub met : init_intersects tools.find_model ts cube ≡ some true
  pub leads : LeadsTo tools ts bad cube

abbrev pub BlockOutcome : Tools → TransitionSystem → ℕ → Cube → Option (Bool × Ic3Engine) → Type 0
BlockOutcome tools ts k bad none = Unit {0}
BlockOutcome tools ts k bad (some (true, eng)) = Blocks eng k bad
BlockOutcome tools ts k bad (some (false, eng)) = Counterexample tools ts bad eng

module _ (tools : Tools) (heap : IsHeapq tools) (ts : TransitionSystem) (bad : Cube) (k : ℕ)
    (lits : HasLiterals bad) (pos_k : 0 < k) where
  -- The obligation to block the bad cube is open or met.
  abbrev Pending : Ic3Engine → List Obligation → Type 0
  Pending eng queue = InQueue (k, bad) queue ⊎ Blocks eng k bad

  record Inv (eng : Ic3Engine) (queue : List Obligation) : Type 0 where
    same_ts : eng.ts ≡ ts
    pending : Pending eng queue
    leads : (i : ℕ) (s : Cube) → InQueue (i, s) queue → LeadsTo tools ts bad s

  -- The invariant while the obligation `(i, s)` is out of the queue.
  record Taken (eng : Ic3Engine) (queue : List Obligation) (i : ℕ) (s : Cube) : Type 0 where
    same_ts : eng.ts ≡ ts
    pending : (◌≡◌ {A = Obligation} (k, bad) (i, s)) ⊎ Pending eng queue
    here_leads : LeadsTo tools ts bad s
    leads : (j : ℕ) (t : Cube) → InQueue (j, t) queue → LeadsTo tools ts bad t

  Inv-Taken :
      (eng : Ic3Engine) (queue rest : List Obligation) (i : ℕ) (s : Cube)
      → Inv eng queue
      → tools.heappop queue ≡ some ((i, s), rest)
      → Taken eng rest i s
  Inv-Taken eng queue rest i s v h = record {
    same_ts = v.same_ts;
    pending = elim v.pending [
      | inl m ↦ elim (heap.pops (k, bad) (i, s) queue rest h m) [
        | inl same ↦ inl same
        | inr there ↦ inr (inl there)
      ]
      | inr blocked ↦ inr (inr blocked)
    ];
    here_leads = v.leads i s (heap.popped (i, s) (i, s) queue rest h (inl refl));
    leads = λ j t m. v.leads j t (heap.popped (j, t) (i, s) queue rest h (inr m));
  }

  -- The obligation of a pushed item, or one that was there.
  push-leads :
      (i : ℕ) (s : Cube) (queue : List Obligation)
      → LeadsTo tools ts bad s
      → ((j : ℕ) (t : Cube) → InQueue (j, t) queue → LeadsTo tools ts bad t)
      → (j : ℕ) (t : Cube) → InQueue (j, t) (tools.heappush (i, s) queue)
      → LeadsTo tools ts bad t
  push-leads i s queue here others j t m = elim (heap.pushed (j, t) (i, s) queue m) [
    | inl same ↦ subst (λ (o : Obligation). LeadsTo tools ts bad (o.1)) (sym same) here
    | inr there ↦ others j t there
  ]

  push-InQueue :
      (o x : Obligation) (queue : List Obligation)
      → InQueue o queue
      → InQueue o (tools.heappush x queue)
  push-InQueue o x queue m = heap.pushes o x queue (inr m)

  abbrev Discharged : Cube → Option (Option (Ic3Engine × List Obligation)) → Type 0
  Discharged s none = Unit {0}
  Discharged s (some none) = init_intersects tools.find_model ts s ≡ some true
  Discharged s (some (some (eng, queue))) = Inv eng queue

  back-Inv :
      (eng : Ic3Engine) (queue : List Obligation) (i : ℕ) (s p : Cube)
      → Taken eng queue (suc i) s
      → predecessor tools eng s i ≡ some (some p)
      → Inv eng (tools.heappush (suc i, s) (tools.heappush (i, p) queue))
  back-Inv eng queue i s p t h = record {
    same_ts = t.same_ts;
    pending = elim t.pending [
      | inl same ↦ inl (heap.pushes (k, bad) (suc i, s) (tools.heappush (i, p) queue) (inl same))
      | inr (inl m) ↦ inl (
          push-InQueue (k, bad) (suc i, s) (tools.heappush (i, p) queue)
            (push-InQueue (k, bad) (i, p) queue m))
      | inr (inr blocked) ↦ inr blocked
    ];
    leads =
        push-leads (suc i) s (tools.heappush (i, p) queue) t.here_leads
          (push-leads i p queue (from_predecessor eng i p s t.same_ts h t.here_leads) t.leads);
  }

  learn-Inv :
      (eng eng' : Ic3Engine) (queue queue' : List Obligation) (i : ℕ) (s : Cube)
      → Taken eng queue (suc i) s
      → Learns tools eng queue i s eng' queue'
      → Inv eng' queue'
  learn-Inv eng eng' queue queue' i s t c = record {
    same_ts = c.same_ts ∙ t.same_ts;
    pending = elim t.pending [
      | inl same ↦ inr (
          subst (λ (o : Obligation). Blocks eng' (o.0) (o.1)) (sym same)
            (c.blocks (subst (λ (o : Obligation). HasLiterals (o.1)) same lits)))
      | inr (inl m) ↦ elim c.queued [
        | inl same ↦ inl (rw same m)
        | inr grown ↦ inl (rw grown (push-InQueue (k, bad) (suc (suc i), s) queue m))
      ]
      | inr (inr blocked) ↦ inr (λ μ m. blocked μ (c.keeps μ k pos_k m))
    ];
    leads = λ j u m. elim c.queued [
      | inl same ↦ t.leads j u (subst (λ q. InQueue (j, u) q) same m)
      | inr grown ↦
          push-leads (suc (suc i)) s queue t.here_leads t.leads j u
            (subst (λ q. InQueue (j, u) q) grown m)
    ];
  }

  discharge-Discharged :
      (eng : Ic3Engine) (queue : List Obligation) (i : ℕ) (s : Cube)
      → Taken eng queue i s
      → Discharged s (discharge tools eng queue i s)
  unfolding discharge
  discharge-Discharged eng queue zero s t =
      elim (Option-cases (init_intersects tools.find_model eng.ts s)) [
        | inl e ↦ rw (e, ◌>>=◌, Discharged) tt
        | inr (true, e) ↦
            rw (e, ◌>>=◌, Discharged)
              (subst (λ x. init_intersects tools.find_model x s ≡ some true) t.same_ts e)
        | inr (false, e) ↦
            rw (e, ◌>>=◌, Discharged)
              (record {
                same_ts = t.same_ts;
                pending = elim t.pending [
                  | inl same ↦
                      let level : k ≡ 0 = ap (λ (o : Obligation). o.0) same in
                      absurd (omega (arith, level, pos_k))
                  | inr p ↦ p
                ];
                leads = t.leads;
              })
      ]
  discharge-Discharged eng queue (suc i) s t = elim (Option-cases (predecessor tools eng s i)) [
    | inl e ↦ rw (e, ◌>>=◌, Discharged) tt
    | inr (some p, e) ↦ rw (e, ◌>>=◌, Discharged) (back-Inv eng queue i s p t e)
    | inr (none, e) ↦
        let all = learn_clause-Learns tools eng queue i s in
        elim (Option-cases (learn_clause tools eng queue (suc i) s)) [
          | inl c ↦ rw (e, ◌>>=◌, Discharged) (rw (c, ◌>>=◌, Discharged) tt)
          | inr ((eng', queue'), c) ↦
              let here : Learns tools eng queue i s eng' queue' =
                subst (λ o. LearnsAll tools eng queue i s o) c all in
              rw (e, ◌>>=◌, Discharged)
                (rw (c, ◌>>=◌, Discharged) (learn-Inv eng eng' queue queue' i s t here))
        ]
  ]

  block_loop-Outcome :
      (f : ℕ) (eng : Ic3Engine) (queue : List Obligation)
      → Inv eng queue
      → BlockOutcome tools ts k bad (block_loop f tools eng queue)
  unfolding block_loop
  block_loop-Outcome f eng [] v = elim v.pending [ inl m ↦ absurd m | inr blocked ↦ blocked ]
  block_loop-Outcome zero eng (o ∷ os) v = tt
  block_loop-Outcome (suc f) eng (o ∷ os) v = elim (Option-cases (tools.heappop (o ∷ os))) [
    | inl e ↦ rw (e, block_loop, BlockOutcome) tt
    | inr (((i, s), rest), e) ↦
        let d = discharge-Discharged eng rest i s (Inv-Taken eng (o ∷ os) rest i s v e) in
        elim (Option-cases (discharge tools eng rest i s)) [
          | inl h ↦ rw (e, block_loop, BlockOutcome) (rw (h, block_loop, BlockOutcome) tt)
          | inr (none, h) ↦
              let met = subst (λ x. Discharged s x) h d in
              let leads = (Inv-Taken eng (o ∷ os) rest i s v e).here_leads in
              rw (e, block_loop, BlockOutcome)
                (rw (h, block_loop, BlockOutcome)
                  (record { cube = s; stored = refl; met = met; leads = leads }))
          | inr (some (eng', queue'), h) ↦
              let v' : Inv eng' queue' = subst (λ x. Discharged s x) h d in
              let later = block_loop-Outcome f eng' queue' v' in
              rw (e, block_loop, BlockOutcome) (rw (h, block_loop, BlockOutcome) later)
        ]
  ]

-- For a cube of literals at a frame k > 0 and a queue that keeps its items as heapq documents it:
-- if _block answers True, no state that meets the frames from k on is in the cube; if it answers
-- False, it stored a cube for which the query answered that an initial state is in it, and from
-- which cubes lead to the given one, each found as a predecessor of the next.
pub block-Outcome :
    (tools : Tools)
    → IsHeapq tools
    → (f : ℕ) (eng : Ic3Engine) (bad : Cube) (k : ℕ) → HasLiterals bad
    → 0 < k
    → BlockOutcome tools eng.ts k bad (block f tools eng bad k)
unfolding block
block-Outcome tools heap f eng bad k lits pos_k =
    block_loop-Outcome tools heap eng.ts bad k lits pos_k f eng ((k, bad) ∷ []) (record {
      same_ts = refl;
      pending = inl (inl refl);
      leads = λ i s m. elim m [
        | inl same ↦ subst (λ (o : Obligation). LeadsTo tools eng.ts bad (o.1)) (sym same) at_bad
        | inr none' ↦ absurd none'
      ];
    })
