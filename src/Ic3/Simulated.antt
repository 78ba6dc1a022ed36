-- ===== src/Ic3/Simulated.antt =====
-- circuit.py, `ternary_eval`, as `_lift` calls it: a run that ends has the value of the signal.
use emergent_hardware_verifi.Circuit.Sig.{id, Sig}
use emergent_hardware_verifi.Circuit.Numbering.{Numbered}
use emergent_hardware_verifi.Prelude.{
  ◌≡◌, ◌∷◌, ◌∙◌, ℕ, zero, sym, suc, subst, some, refl, none, inr, inl, arith, ap, [], Option-cases,
  Option, List-cases, ◌+◌,
}
use emergent_hardware_verifi.Circuit.Ternary.{
  TriEnv, Tri, Memo, Outcome, Sim, done, failed, out_of_fuel, loop, visit, ternary_eval, find,
}
use emergent_hardware_verifi.Circuit.Ternary.Rules.{tri}
use emergent_hardware_verifi.Circuit.Ternary.Steps.{Bound}
use emergent_hardware_verifi.Circuit.Ternary.Run.{Holds, ternary_eval_total}
use emergent_hardware_verifi.Cegar.Replay.{simulate_sig}
use mathlib.Core.Option.{get_or}

-- More fuel does not change a run that ended.
loop_longer :
    (f n : ℕ) (env : TriEnv) (s : Sim) (m : Memo)
    → loop f env s ≡ done m
    → loop (f + n) env s ≡ done m
unfolding loop
loop_longer zero n env s m h = let bad : out_of_fuel ≡ done m = h in cc
loop_longer (suc f) n env s m h =
    let more_fuel : suc f + n ≡ suc (f + n) = omega arith in
    rw more_fuel (elim (List-cases s.stack) [
      | inl e ↦ rw (e, loop) (sym (rw (e, loop) refl) ∙ h)
      | inr (top, rest, e) ↦ elim (Option-cases (visit env top rest s.memo)) [
        | inl v ↦ let bad : failed ≡ done m = sym (rw (e, v, loop) refl) ∙ h in cc
        | inr (s', v) ↦ rw (e, v, loop) (loop_longer f n env s' m (sym (rw (e, v, loop) refl) ∙ h))
      ]
    ])

module _ (D : ℕ → Sig) where
  pub simulate_sig-tri :
      (f : ℕ) (env : TriEnv) (sig : Sig) (memo memo' : Memo) (v : Tri)
      → Numbered D sig
      → Bound env sig
      → Holds env D memo
      → simulate_sig f env sig memo ≡ some (v, memo')
      → (v ≡ tri env sig) × Holds env D memo'
  unfolding simulate_sig ternary_eval
  simulate_sig-tri f env sig memo memo' v num b h e =
      let (n, m, returns, found, right) = ternary_eval_total env D sig memo num b h in
      at_outcome (ternary_eval f env sig memo) refl m found right (λ m1 d.
        let long : ternary_eval (n + f) env sig memo ≡ done m1 =
          ap (λ k. ternary_eval k env sig memo) (swap n f)
          ∙ loop_longer f n env (record { stack = sig ∷ []; memo = memo }) m1 d in
        let same : done m ≡ done m1 = sym (returns f) ∙ long in cc)
    where
      swap : (n f : ℕ) → n + f ≡ f + n
      swap n f = omega arith

      at_outcome :
          (o : Outcome)
          → ternary_eval f env sig memo ≡ o
          → (m : Memo) → find (id sig) m ≡ some (tri env sig)
          → Holds env D m
          → ((m1 : Memo) → ternary_eval f env sig memo ≡ done m1 → m ≡ m1)
          → (v ≡ tri env sig) × Holds env D memo'
      at_outcome failed o m found right same =
          let bad : ◌≡◌ {A = Option (Tri × Memo)} none (some (v, memo')) =
            sym (rw (o, simulate_sig) refl) ∙ e in
          cc
      at_outcome out_of_fuel o m found right same =
          let bad : ◌≡◌ {A = Option (Tri × Memo)} none (some (v, memo')) =
            sym (rw (o, simulate_sig) refl) ∙ e in
          cc
      at_outcome (done m1) o m found right same =
          let at_m1 : find (id sig) m1 ≡ some (tri env sig) =
            subst (λ x. find (id sig) x ≡ some (tri env sig)) (same m1 o) found in
          let result : ◌≡◌ {A = Option (Tri × Memo)} (some (tri env sig, m1)) (some (v, memo')) =
            sym (rw (o, at_m1, simulate_sig) refl) ∙ e in
          (
            sym (ap (λ (x : Option (Tri × Memo)). (get_or x (v, memo')).0) result),
            subst (λ x. Holds env D x)
                (same m1 o ∙ ap (λ (x : Option (Tri × Memo)). (get_or x (v, memo')).1) result)
                right,
          )
