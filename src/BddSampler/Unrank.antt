-- ===== src/BddSampler/Unrank.antt =====
-- build_bdd.py: `unrank` numbers the solutions of the constraint.
use emergent_hardware_verifi.BddSampler.Assignments.{
  zeros, read-number, order_below, number-read, number-ones, number-lt, number, holds-number,
}
use emergent_hardware_verifi.BddSampler.Compile.{ones-root, solutions, sampler_of, rank_of}
use emergent_hardware_verifi.BddSampler.Descend.{descend-high, descend-rank}
use emergent_hardware_verifi.BddSampler.Ranks.{rank_onto, rank-lt, rank, ones}
use emergent_hardware_verifi.BddSampler.Build.{Represents}
use emergent_hardware_verifi.BddSampler.Order.{fill, IsOrder}
use emergent_hardware_verifi.Prelude.{
  length-map, ap₂, ◌-◌, true, ◌≤◌, ◌≡◌, ◌∙◌, ℕ, sym, subst, some, replicate, refl, map,
  length-replicate, length, false, if◌then◌else◌, ap, ◌^◌, List, Bool, ◌==◌, ◌<◌,
}
use emergent_hardware_verifi.Prelude.Bits.{bit, bit_at, value}
use emergent_hardware_verifi.BddSampler.{
  not_at_true, Decoded, descend, compile, Sampler, unrank, decoded, root_mask,
}

-- What `unrank` makes of the end of its walk.
abbrev at_end : Bool → ℕ → Decoded
at_end b i = if b then decoded i else not_at_true

at_end-true : (b : Bool) (i : ℕ) → (if bit b == 1 then decoded i else not_at_true) ≡ at_end b i
at_end-true true i = refl
at_end-true false i = refl

module _ (order : List ℕ) (ok : IsOrder order) (predicate : ℕ → Bool) (m : Sampler)
    (built : compile predicate order ≡ some m) where
  -- The walk at the place of a solution.
  unrank-path :
      (bs : List Bool)
      → length bs ≡ length order
      → predicate (number order ok bs) ≡ true
      → unrank m (rank bs (root_mask predicate order)) ≡ decoded (number order ok bs)
  unfolding unrank
  unrank-path bs e h =
      let (c, same) = sampler_of predicate order m built in
      let r = rank bs (root_mask predicate order) in
      let w : descend order c.sampler.nodes c.sampler.root r (zeros order)
          ≡ some (1, fill order bs (zeros order)) =
        descend-rank order bs (zeros order) c.sampler.nodes c.sampler.root
          (root_mask predicate order) e (order_below order ok) c.terminals
          (subst (λ n. Represents c.sampler.nodes n c.sampler.root (root_mask predicate order))
            (sym e) c.right)
          (holds-number order ok predicate bs e ∙ h) in
      let u : unrank c.sampler r ≡ decoded (number order ok bs) =
        rw (c.same_order, w, unrank) refl in
      subst (λ t. unrank t r ≡ decoded (number order ok bs)) same u

  -- For an ORDER that is a permutation of the levels, and the tables that the build makes of it
  -- for any constraint: every assignment of NV bits that satisfies the constraint has a place
  -- under the number of solutions, and unrank decodes that place to this assignment.
  pub unrank-rank_of :
      (idx : ℕ)
      → idx < 2 ^ length order
      → predicate idx ≡ true
      → (unrank m (rank_of predicate order idx) ≡ decoded idx)
        × (rank_of predicate order idx < solutions predicate order)
  unrank-rank_of idx h p =
      let bs = map (bit_at idx) order in
      let long : length bs ≡ length order = length-map order (bit_at idx) in
      let same : number order ok bs ≡ idx = number-read order ok idx h in
      let holds : predicate (number order ok bs) ≡ true = ap predicate same ∙ p in
      let found : unrank m (rank_of predicate order idx) ≡ decoded (number order ok bs) =
        unrank-path bs long holds in
      let below =
        rank-lt bs (root_mask predicate order) (holds-number order ok predicate bs long ∙ holds) in
      (
        found ∙ ap decoded same,
        subst (λ k. rank_of predicate order idx < k)
            (ap (λ n. ones n (root_mask predicate order)) long ∙ ones-root predicate order) below,
      )

  -- For an ORDER that is a permutation of the levels, and the tables that the build makes of it
  -- for any constraint: every R under the number of solutions is decoded by unrank, without an
  -- exception, to an assignment of NV bits that satisfies the constraint, and whose place among
  -- the solutions, in the order where ORDER[0] counts most and 0 is before 1, is R again.
  pub rank_of-unrank :
      (r : ℕ)
      → r < solutions predicate order
      → (idx : ℕ) × (unrank m r ≡ decoded idx)
        × (idx < 2 ^ length order)
        × (predicate idx ≡ true)
        × (rank_of predicate order idx ≡ r)
  rank_of-unrank r h =
      let p =
        rank_onto (length order) (root_mask predicate order) r
          (subst (λ k. r < k) (sym (ones-root predicate order)) h) in
      let holds : predicate (number order ok p.path) ≡ true =
        sym (holds-number order ok predicate p.path p.sized) ∙ p.holds in
      (
        number order ok p.path,
        ap (unrank m) (sym p.placed) ∙ unrank-path p.path p.sized holds,
        number-lt order ok p.path,
        holds,
        ap (λ bs. rank bs (root_mask predicate order)) (read-number order ok p.path p.sized)
            ∙ p.placed,
      )

  -- For an ORDER that is a permutation of the levels, and the tables that the build makes of it
  -- for any constraint: an R that is at least the number of solutions is not always refused:
  -- unrank returns the assignment of ones if that satisfies the constraint, and otherwise trips
  -- the assertion idx == T1; it never raises an IndexError.
  pub unrank-above :
      (r : ℕ)
      → solutions predicate order ≤ r
      → unrank m r
        ≡ (if predicate (2 ^ length order - 1) then decoded (2 ^ length order - 1) else not_at_true)
  unfolding unrank
  unrank-above r h =
      let (c, same) = sampler_of predicate order m built in
      let n = length order in
      let bs = replicate n true in
      let w =
        descend-high order (zeros order) c.sampler.nodes c.sampler.root (root_mask predicate order)
          r (order_below order ok) c.terminals c.right
          (subst (λ k. k ≤ r) (sym (ones-root predicate order)) h) in
      let last : number order ok bs ≡ 2 ^ n - 1 = number-ones order ok in
      let holds : bit_at (root_mask predicate order) (value bs) ≡ predicate (2 ^ n - 1) =
        holds-number order ok predicate bs (length-replicate n true) ∙ ap predicate last in
      let u : unrank c.sampler r
          ≡ at_end (bit_at (root_mask predicate order) (value bs)) (number order ok bs) =
        rw (c.same_order, w, unrank)
          (at_end-true (bit_at (root_mask predicate order) (value bs)) (number order ok bs)) in
      subst (λ t. unrank t r ≡ (if predicate (2 ^ n - 1) then decoded (2 ^ n - 1) else not_at_true))
        same (u ∙ ap₂ at_end holds last)
