-- ===== src/BddSampler/Selection.antt =====
-- build_bdd.py, `stream`: what the random numbers are decoded to.
use emergent_hardware_verifi.MulSampler.Clean.{total}
use emergent_hardware_verifi.BddSampler.Constraint.{predicate}
use emergent_hardware_verifi.BddSampler.Compile.{solutions, nsol-compile}
use native.Mathlib.Nat.{mod-lt}
use emergent_hardware_verifi.BddSampler.Order.{IsOrder}
use emergent_hardware_verifi.Prelude.{
  ◌≡◌, ◌∷◌, ◌∙◌, ℕ, zero, true, sym, suc, subst, some, refl, none, length, arith, ap, ◌^◌, [], List,
  Bool, ◌<◌, ◌%◌,
}
use mathlib.Core.Option.{get_or}
use emergent_hardware_verifi.BddSampler.{
  seed, lfsr_step, draws, stream, unrank, decoded, Decoded, Sampler, compile, nsol,
}
use emergent_hardware_verifi.BddSampler.Unrank.{rank_of-unrank}

-- Every result is an assignment that satisfies the constraint.
unfoldable pub AllSatisfy : (ℕ → Bool) → List ℕ → List Decoded → Type 0
AllSatisfy predicate order [] = Unit
AllSatisfy predicate order (d ∷ ds) =
    ((idx : ℕ) × (d ≡ decoded idx) × (idx < 2 ^ length order) × (predicate idx ≡ true))
    × AllSatisfy predicate order ds

module _ (order : List ℕ) (ok : IsOrder order) (predicate : ℕ → Bool) (m : Sampler)
    (built : compile predicate order ≡ some m) where
  nsol-sampler : nsol m ≡ some (solutions predicate order)
  nsol-sampler =
      let (m', e, total) = nsol-compile predicate order in
      let same : m' ≡ m = ap (λ o. get_or o m) (sym e ∙ built) in
      subst (λ x. nsol x ≡ some (solutions predicate order)) same total

  -- `n` draws from the state `s`, all solutions.
  draws-AllSatisfy :
      (t n s : ℕ)
      → solutions predicate order ≡ suc t
      → (ds : List Decoded) × (draws m (suc t) n s ≡ some ds)
        × (length ds ≡ n)
        × AllSatisfy predicate order ds
  unfolding draws AllSatisfy
  draws-AllSatisfy t zero s h = ([], refl, refl, tt)
  draws-AllSatisfy t (suc n) s h =
      let (ds, e, l, good) = draws-AllSatisfy t n (lfsr_step s) h in
      let below : s % suc t < solutions predicate order = rw h (mod-lt s (omega arith)) in
      let (idx, d, small, p, _) = rank_of-unrank order ok predicate m built (s % suc t) below in
      (unrank m (s % suc t) ∷ ds, rw (e, draws) refl, ap suc l, ((idx, d, small, p), good))

  -- For an ORDER that is a permutation of the levels, and the tables that the build makes of it
  -- for a constraint that some assignment satisfies: stream(n) returns n results, each an
  -- assignment of NV bits that satisfies the constraint.
  pub stream-AllSatisfy :
      (n : ℕ)
      → 0 < solutions predicate order
      → (ds : List Decoded) × (stream m n ≡ some ds)
        × (length ds ≡ n)
        × AllSatisfy predicate order ds
  unfolding stream
  stream-AllSatisfy n h = go (solutions predicate order) refl h
    where
      go :
          (total : ℕ)
          → solutions predicate order ≡ total
          → 0 < total
          → (ds : List Decoded) × (stream m n ≡ some ds)
            × (length ds ≡ n)
            × AllSatisfy predicate order ds
      go zero e h = absurd (omega arith)
      go (suc t) e h =
          let (ds, d, l, good) = draws-AllSatisfy t n seed e in
          (ds, rw (nsol-sampler ∙ ap some e, stream) d, l, good)

  -- With no solution there is no number to draw.
  pub stream-none : (n : ℕ) → solutions predicate order ≡ 0 → stream m (suc n) ≡ none
  unfolding stream draws
  stream-none n h = rw (nsol-sampler ∙ ap some h, stream) refl
