-- ===== src/BddSampler/Descend.antt =====
-- build_bdd.py, the loop of `unrank`: the walk from a node that is the diagram of a mask.
use emergent_hardware_verifi.Prelude.Bits.{value, value-lt, bit_at, bit}
use emergent_hardware_verifi.BddSampler.Build.{count_of-Represents, Represents, HasTerminals}
use emergent_hardware_verifi.BddSampler.Order.{fill, below_set, AllBelow}
use emergent_hardware_verifi.Prelude.{
  ◌≤◌, ◌≡◌, ◌∷◌, ◌∙◌, ℕ, true, suc, subst, some, replicate, ltb, length-replicate, length,
  get_elem?, false, if◌then◌else◌, arith, ap, ◌^◌, [], List, Bool, ◌<◌, ◌-◌, ◌+◌,
}
use emergent_hardware_verifi.BddSampler.{Node, descend, count_of, goes_high, set_elem, assign_bit}
use emergent_hardware_verifi.BddSampler.Ranks.{
  ones-split, child_holds, bit_at-child, rank, ones, child, rank-lt,
}

-- One level of the walk.
descend-step :
    (p : ℕ) (ps : List ℕ) (nodes : List Node) (idx r c : ℕ) (b : Bool) (xs : List Bool) (nd : Node)
    → get_elem? nodes idx ≡ some nd
    → count_of nodes nd.lo ≡ some c
    → p < length xs
    → goes_high c r ≡ b
    → descend (p ∷ ps) nodes idx r xs
      ≡ descend ps nodes (if b then nd.hi else nd.lo) (if b then r - c else r) (set_elem p b xs)
unfolding descend assign_bit
descend-step p ps nodes idx r c b xs nd at_idx counted below high =
    let inside : ltb p (length xs) ≡ true = ground arith in
    rw (at_idx, counted, inside, descend, assign_bit)
      (ap
        (λ h.
          descend ps nodes (if h then nd.hi else nd.lo) (if h then r - c else r) (set_elem p h xs))
        high)

-- From the place of a solution the walk writes that solution and ends at the TRUE node.
pub descend-rank :
    (ps : List ℕ) (bs xs : List Bool) (nodes : List Node) (idx mask : ℕ)
    → length bs ≡ length ps
    → AllBelow (length xs) ps
    → HasTerminals nodes
    → Represents nodes (length bs) idx mask
    → bit_at mask (value bs) ≡ true
    → descend ps nodes idx (rank bs mask) xs ≡ some (1, fill ps bs xs)
unfolding descend fill AllBelow Represents rank
descend-rank [] [] xs nodes idx mask e below ht repr h = ap (λ i. some (i, xs)) (repr ∙ ap bit h)
descend-rank [] (b ∷ bs) xs nodes idx mask e below ht repr h = absurd (omega arith)
descend-rank (p ∷ ps) [] xs nodes idx mask e below ht repr h = absurd (omega arith)
descend-rank (p ∷ ps) (true ∷ bs) xs nodes idx mask e (here, below) ht (nd, at_idx, _, l, u) h =
    let c = ones (length bs) (child false mask (length bs)) in
    let r = rank bs (child true mask (length bs)) in
    let high : goes_high c (c + r) ≡ true = ground arith in
    let left : c + r - c ≡ r = omega arith in
    descend-step p ps nodes idx (c + r) c true xs nd at_idx
      (count_of-Represents nodes (length bs) nd.lo (child false mask (length bs)) ht l) here high
    ∙ ap (λ t. descend ps nodes nd.hi t (set_elem p true xs)) left
    ∙ descend-rank ps bs (set_elem p true xs) nodes nd.hi (child true mask (length bs))
        (omega arith) (below_set ps p true xs below) ht u (child_holds true bs mask h)
descend-rank (p ∷ ps) (false ∷ bs) xs nodes idx mask e (here, below) ht (nd, at_idx, _, l, u) h =
    let c = ones (length bs) (child false mask (length bs)) in
    let r = rank bs (child false mask (length bs)) in
    let less : r < c = rank-lt bs (child false mask (length bs)) (child_holds false bs mask h) in
    let low : goes_high c (0 + r) ≡ false = ground arith in
    let left : 0 + r ≡ r = omega arith in
    descend-step p ps nodes idx (0 + r) c false xs nd at_idx
      (count_of-Represents nodes (length bs) nd.lo (child false mask (length bs)) ht l) here low
    ∙ ap (λ t. descend ps nodes nd.lo t (set_elem p false xs)) left
    ∙ descend-rank ps bs (set_elem p false xs) nodes nd.lo (child false mask (length bs))
        (omega arith) (below_set ps p false xs below) ht l (child_holds false bs mask h)

-- A number that is too large turns high at every level, and ends where that path ends.
pub descend-high :
    (ps : List ℕ) (xs : List Bool) (nodes : List Node) (idx mask r : ℕ)
    → AllBelow (length xs) ps
    → HasTerminals nodes
    → Represents nodes (length ps) idx mask
    → ones (length ps) mask ≤ r
    → descend ps nodes idx r xs
      ≡ some (
        bit (bit_at mask (value (replicate (length ps) true))),
        fill ps (replicate (length ps) true) xs,
      )
unfolding descend fill AllBelow Represents
descend-high [] xs nodes idx mask r below ht repr h = ap (λ i. some (i, xs)) repr
descend-high (p ∷ ps) xs nodes idx mask r (here, below) ht (nd, at_idx, _, l, u) h =
    let n = length ps in
    let c = ones n (child false mask n) in
    let sum : ones (suc n) mask ≡ c + ones n (child true mask n) = ones-split n mask in
    let high : goes_high c r ≡ true = ground arith in
    let bits = replicate n true in
    let small : value bits < 2 ^ n =
      subst (λ k. value bits < 2 ^ k) (length-replicate n true) (value-lt bits) in
    descend-step p ps nodes idx r c true xs nd at_idx
      (count_of-Represents nodes n nd.lo (child false mask n) ht l) here high
    ∙ descend-high ps (set_elem p true xs) nodes nd.hi (child true mask n) (r - c)
        (below_set ps p true xs below) ht u (omega arith)
    ∙ ap (λ (t : Bool). some (bit t, fill ps bits (set_elem p true xs)))
        (bit_at-child true mask n (value bits) small)
