-- ===== src/BddSampler/Ranks.antt =====
-- build_bdd.py: the solutions that a mask holds, as lists of bits from the first level to the last, and
-- the place of each among them, a 0 before a 1 at every level.
use emergent_hardware_verifi.Prelude.Numbers.{pow_double}
use native.Mathlib.Decide.{dec_lt}
use emergent_hardware_verifi.BddSampler.{cofactors}
use emergent_hardware_verifi.BddSampler.Masks.{
  ones_below-same, ones_below-halves, ones_below, bit_at-collect,
}
use emergent_hardware_verifi.Prelude.{
  ◌≡◌, ◌∷◌, ◌∙◌, ℕ, zero, true, sym, suc, refl, length, false, if◌then◌else◌, arith, ap₂, ap, ◌^◌,
  [], List, Bool, ◌<◌, ◌-◌, ◌+◌, ◌*◌,
}
use emergent_hardware_verifi.Prelude.Bits.{value-lt, bit, bit_at, value}

-- The number of solutions of a mask over `n` levels.
unfoldable pub ones : ℕ → ℕ → ℕ
unfolding ones_below
ones n mask = ones_below (bit_at mask) (2 ^ n)

-- The cofactor of a mask over n + 1 levels.
unfoldable pub child : Bool → ℕ → ℕ → ℕ
unfolding cofactors
child b mask n = if b then (cofactors mask (suc n)).1 else (cofactors mask (suc n)).0

-- The number of solutions before `bs`.
unfoldable pub rank : List Bool → ℕ → ℕ
unfolding ones child
rank [] mask = 0
rank (b ∷ bs) mask =
    (if b then ones (length bs) (child false mask (length bs)) else 0)
    + rank bs (child b mask (length bs))

half : (n : ℕ) → 2 ^ (suc n - 1) ≡ 2 ^ n
half n = ap (λ t. 2 ^ t) same
  where
    same : suc n - 1 ≡ n
    same = omega arith

pub bit_at-child :
    (b : Bool) (mask n s : ℕ) → s < 2 ^ n → bit_at (child b mask n) s ≡ bit_at mask (bit b + 2 * s)
unfolding child cofactors
bit_at-child true mask n s h =
    let e : 2 * s + 1 ≡ 1 + 2 * s = omega arith in
    rw (half n, sym e) (bit_at-collect (λ sp. bit_at mask (2 * sp + 1)) (2 ^ n) s h)
bit_at-child false mask n s h =
    let e : 0 + 2 * s ≡ 2 * s = omega arith in
    rw (half n, e) (bit_at-collect (λ sp. bit_at mask (2 * sp)) (2 ^ n) s h)

pub ones-split :
    (n mask : ℕ) → ones (suc n) mask ≡ ones n (child false mask n) + ones n (child true mask n)
unfolding ones
ones-split n mask =
    let odd : (s : ℕ) → 2 * s + 1 ≡ 1 + 2 * s = λ s. omega arith in
    let even : (s : ℕ) → 2 * s ≡ 0 + 2 * s = λ s. omega arith in
    ap (ones_below (bit_at mask)) (pow_double n)
    ∙ ones_below-halves (bit_at mask) (2 ^ n)
    ∙ ap₂ (λ a b. a + b)
        (ones_below-same (λ s. bit_at mask (2 * s)) (bit_at (child false mask n)) (2 ^ n)
          (λ s h. ap (bit_at mask) (even s) ∙ sym (bit_at-child false mask n s h)))
        (ones_below-same (λ s. bit_at mask (2 * s + 1)) (bit_at (child true mask n)) (2 ^ n)
          (λ s h. ap (bit_at mask) (odd s) ∙ sym (bit_at-child true mask n s h)))

pub ones-leaf : (mask : ℕ) → ones 0 mask ≡ bit (bit_at mask 0)
unfolding ones ones_below
ones-leaf mask = omega arith

pub child_holds :
    (b : Bool) (bs : List Bool) (mask : ℕ)
    → bit_at mask (value (b ∷ bs)) ≡ true
    → bit_at (child b mask (length bs)) (value bs) ≡ true
child_holds b bs mask h = bit_at-child b mask (length bs) (value bs) (value-lt bs) ∙ h

pub rank-lt :
    (bs : List Bool) (mask : ℕ)
    → bit_at mask (value bs) ≡ true
    → rank bs mask < ones (length bs) mask
unfolding rank
rank-lt [] mask h = omega (arith, ones-leaf mask, ap bit h)
rank-lt (true ∷ bs) mask h = omega (
  arith,
  ones-split (length bs) mask,
  rank-lt bs (child true mask (length bs)) (child_holds true bs mask h),
)
rank-lt (false ∷ bs) mask h = omega (
  arith,
  ones-split (length bs) mask,
  rank-lt bs (child false mask (length bs)) (child_holds false bs mask h),
)

-- A solution of a mask over `n` levels, and its place.
pub record Ranked (n mask r : ℕ) : Type 0 where
  pub path : List Bool
  pub sized : length path ≡ n
  pub holds : bit_at mask (value path) ≡ true
  pub placed : rank path mask ≡ r

high :
    (n mask r s : ℕ)
    → s + ones n (child false mask n) ≡ r
    → Ranked n (child true mask n) s
    → Ranked (suc n) mask r
unfolding rank
high n mask r s h p = record {
  path = true ∷ p.path;
  sized = ap suc p.sized;
  holds = sym (bit_at-child true mask n (value p.path) (rw p.sized at (value-lt p.path))) ∙ p.holds;
  placed = rw p.sized (omega (arith, p.placed));
}

low : (n mask r : ℕ) → Ranked n (child false mask n) r → Ranked (suc n) mask r
unfolding rank
low n mask r p = record {
  path = false ∷ p.path;
  sized = ap suc p.sized;
  holds =
      sym (bit_at-child false mask n (value p.path) (rw p.sized at (value-lt p.path))) ∙ p.holds;
  placed = rw p.sized (omega (arith, p.placed));
}

leaf : (mask r : ℕ) (b : Bool) → bit_at mask 0 ≡ b → r < ones 0 mask → Ranked 0 mask r
unfolding rank
leaf mask r true e h = record {
  path = [];
  sized = refl;
  holds = e;
  placed = omega (arith, ones-leaf mask, ap bit e);
}
leaf mask r false e h = absurd (omega (arith, ones-leaf mask, ap bit e))

-- Every number under the count is the place of a solution.
pub rank_onto : (n mask r : ℕ) → r < ones n mask → Ranked n mask r
rank_onto zero mask r h = leaf mask r (bit_at mask 0) refl h
rank_onto (suc n) mask r h = elim (dec_lt r (ones n (child false mask n))) [
  | yes l ↦ low n mask r (rank_onto n (child false mask n) r l)
  | no g ↦ high n mask r (r - ones n (child false mask n)) (omega arith) (
      rank_onto n (child true mask n) (r - ones n (child false mask n))
        (omega (arith, ones-split n mask)))
]
