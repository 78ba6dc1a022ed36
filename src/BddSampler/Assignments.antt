-- ===== src/BddSampler/Assignments.antt =====
-- build_bdd.py: an assignment is its bits at the places of ORDER, and its number.
use emergent_hardware_verifi.Prelude.Numbers.{pow_double}
use native.Mathlib.Nat.{mod-eq_of_lt}
use emergent_hardware_verifi.BddSampler.Places.{
  weigh, value-fill, place-weigh, nth-bits_from, bits_from-value, bit_at-value,
}
use emergent_hardware_verifi.BddSampler.Order.{
  same_bits-nth, read-fill, nth-fill, length-fill, fill, occurs_here, occurs, nth, IsOrder,
  AllBelow,
}
use emergent_hardware_verifi.Prelude.{
  ◌-◌, true, map-same, ltb, ◌/◌, ◌%◌, ◌≤◌, ◌≡◌, ◌∷◌, ◌∙◌, ℕ, zero, sym, suc, subst, replicate, refl,
  map, length-replicate, length, false, if◌then◌else◌, arith, ap, ◌^◌, [], List, Bool, ◌==◌, ◌<◌,
  ◌+◌,
}
use emergent_hardware_verifi.Prelude.Bits.{
  value-replicate-false, length-bits_from, bit_at, value, bits_from, value-bits_from, value-lt,
}
use emergent_hardware_verifi.BddSampler.{root_mask, place}
use emergent_hardware_verifi.BddSampler.Masks.{bit_at-collect}

pub all_below : (n : ℕ) (ps : List ℕ) → ((q : ℕ) → 0 < occurs q ps → q < n) → AllBelow n ps
unfolding AllBelow occurs
all_below n [] h = tt
all_below n (p ∷ ps) h = (h p (occurs_here p ps), all_below n ps (λ q l. h q (later q l)))
  where
    later : (q : ℕ) → 0 < occurs q ps → 0 < (if q == p then 1 else 0) + occurs q ps
    later q l = ground arith

abbrev pub zeros : List ℕ → List Bool
zeros order = replicate (length order) false

pub nth-zeros : (q n : ℕ) → nth q (replicate n false) ≡ false
nth-zeros q zero = refl
nth-zeros zero (suc n) = refl
nth-zeros (suc q) (suc n) = nth-zeros q n

nth-ones : (q n : ℕ) → q < n → nth q (replicate n true) ≡ true
nth-ones q zero h = absurd (omega arith)
nth-ones zero (suc n) h = refl
nth-ones (suc q) (suc n) h = nth-ones q n (omega arith)

value-ones : (n : ℕ) → value (replicate n true) + 1 ≡ 2 ^ n
value-ones zero = omega arith
value-ones (suc n) = omega (arith, value-ones n, pow_double n)

ones-map : (order : List ℕ) → replicate (length order) true ≡ map (λ _. true) order
ones-map [] = refl
ones-map (p ∷ ps) = ap (λ t. true ∷ t) (ones-map ps)

pub order_count :
    (order : List ℕ)
    → IsOrder order
    → (q : ℕ) → occurs q order ≡ (if ltb q (length order) then 1 else 0)
unfolding IsOrder
order_count order ok q = ok q

module _ (order : List ℕ) (ok : IsOrder order) where
  pub order_below : AllBelow (length (zeros order)) order
  order_below =
      subst (λ n. AllBelow n order) (sym (length-replicate (length order) false))
        (all_below (length order) order inside)
    where
      inside : (q : ℕ) → 0 < occurs q order → q < length order
      inside q l = let e = order_count order ok q in ground arith

  pub order_once : (q : ℕ) → occurs q order ≤ 1
  order_once q = let e = order_count order ok q in ground arith

  pub order_covers : (q : ℕ) → q < length order → 0 < occurs q order
  order_covers q l = let e = order_count order ok q in ground arith

  -- The number of the assignment that a path writes.
  abbrev pub number : List Bool → ℕ
  number bs = value (fill order bs (zeros order))

  pub number-lt : (bs : List Bool) → number bs < 2 ^ length order
  number-lt bs =
      subst (λ n. number bs < 2 ^ n)
        (length-fill order bs (zeros order) ∙ length-replicate (length order) false)
        (value-lt (fill order bs (zeros order)))

  pub place-number :
      (bs : List Bool) → length bs ≡ length order → place order 0 (value bs) ≡ number bs
  place-number bs e =
      let sums =
        value-fill order bs (zeros order) order_below order_once
          (λ q l. nth-zeros q (length order)) in
      let clear = value-replicate-false (length order) in
      let weighed : weigh order bs ≡ number bs = omega (arith, sums, clear) in
      place-weigh order 0 (value bs)
      ∙ ap (weigh order) (subst (λ n. bits_from n 0 (value bs) ≡ bs) e (bits_from-value bs))
      ∙ weighed

  pub holds-number :
      (predicate : ℕ → Bool) (bs : List Bool)
      → length bs ≡ length order
      → bit_at (root_mask predicate order) (value bs) ≡ predicate (number bs)
  unfolding root_mask
  holds-number predicate bs e =
      bit_at-collect (λ s. predicate (place order 0 s)) (2 ^ length order) (value bs)
        (subst (λ n. value bs < 2 ^ n) e (value-lt bs))
      ∙ ap predicate (place-number bs e)

  -- Writing the bits of a number writes that number.
  pub number-read : (idx : ℕ) → idx < 2 ^ length order → number (map (bit_at idx) order) ≡ idx
  number-read idx h =
      let n = length order in
      let long : length (fill order (map (bit_at idx) order) (zeros order)) ≡ n =
        length-fill order (map (bit_at idx) order) (zeros order) ∙ length-replicate n false in
      ap value (
        same_bits-nth (fill order (map (bit_at idx) order) (zeros order)) (bits_from n 0 idx)
          (long ∙ sym (length-bits_from n 0 idx))
          (λ q l.
            nth-fill (bit_at idx) order (zeros order) q order_below
              (order_covers q (subst (λ k. q < k) long l))
            ∙ ap (bit_at idx) (from_first q)
            ∙ sym (nth-bits_from n 0 idx q (subst (λ k. q < k) long l))))
      ∙ value-bits_from n 0 idx
      ∙ whole n h
    where
      from_first : (q : ℕ) → q ≡ 0 + q
      from_first q = omega arith

      whole : (n : ℕ) → idx < 2 ^ n → idx / 2 ^ 0 % 2 ^ n ≡ idx
      whole n l = let one : idx / 2 ^ 0 ≡ idx = omega arith in rw one (mod-eq_of_lt l)

  pub read-number :
      (bs : List Bool) → length bs ≡ length order → map (bit_at (number bs)) order ≡ bs
  read-number bs e =
      map-same (bit_at (number bs)) (λ p. nth p (fill order bs (zeros order))) order
        (λ p. bit_at-value (fill order bs (zeros order)) p)
      ∙ read-fill order bs (zeros order) e order_below order_once

  -- The assignment of ones.
  pub number-ones : number (replicate (length order) true) ≡ 2 ^ length order - 1
  number-ones =
      let n = length order in
      let bs = map (λ _. true) order in
      let long : length (fill order bs (zeros order)) ≡ n =
        length-fill order bs (zeros order) ∙ length-replicate n false in
      let full : fill order bs (zeros order) ≡ replicate n true =
        same_bits-nth (fill order bs (zeros order)) (replicate n true)
          (long ∙ sym (length-replicate n true))
          (λ q l.
            nth-fill (λ _. true) order (zeros order) q order_below
              (order_covers q (subst (λ k. q < k) long l))
            ∙ sym (nth-ones q n (subst (λ k. q < k) long l))) in
      let same : replicate n true ≡ bs = ones-map order in
      let total = value-ones n in ap number same ∙ ap value full ∙ omega (arith, total)
