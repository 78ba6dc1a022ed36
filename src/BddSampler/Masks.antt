-- ===== src/BddSampler/Masks.antt =====
-- build_bdd.py, the truth tables `mask`: which bits the loops that collect one set, and how many.
use emergent_hardware_verifi.Prelude.Numbers.{pow_split, pow_pos, pow_double}
use native.Mathlib.Decide.{dec_lt}
use emergent_hardware_verifi.BddSampler.{collect}
use emergent_hardware_verifi.Prelude.Bits.{bit_at, bit}
use native.Mathlib.Nat.{div-eq_of_lt, add-mul-div_right, add-div_right}
use emergent_hardware_verifi.Prelude.{
  ◌≡◌, ◌∙◌, ℕ, zero, true, suc, refl, inr, inl, false, arith, ap₂, ap, ◌^◌, Bool-cases, Bool, ◌==◌,
  ◌<◌, ◌/◌, ◌-◌, ◌+◌, ◌*◌, ◌%◌,
}

unfoldable pub ones_below : (ℕ → Bool) → ℕ → ℕ
ones_below test zero = 0
ones_below test (suc s) = bit (test s) + ones_below test s

pub collect-lt : (test : ℕ → Bool) (n : ℕ) → collect test n < 2 ^ n
unfolding collect
collect-lt test zero = omega arith
collect-lt test (suc s) = ground (arith, collect-lt test s, pow_double s)

-- The bit at `s` of a number under 2 ^ n, once a multiple of 2 ^ n is added.
bit_at-above : (m n : ℕ) → m < 2 ^ n → bit_at (m + 2 ^ n) n ≡ true
bit_at-above m n h =
    let e : (m + 2 ^ n) / 2 ^ n ≡ 1 = omega (arith, add-div_right m (pow_pos n), div-eq_of_lt h) in
    ap (λ t. t % 2 == 1) e

bit_at-small : (m n : ℕ) → m < 2 ^ n → bit_at m n ≡ false
bit_at-small m n h = ap (λ t. t % 2 == 1) (div-eq_of_lt h)

bit_at-below : (m n s : ℕ) → s < n → bit_at (m + 2 ^ n) s ≡ bit_at m s
bit_at-below m n s h =
    let k = n - suc s in
    let e : 2 ^ n ≡ 2 * 2 ^ k * 2 ^ s =
      omega (arith, pow_split (suc s) n (omega arith), ap (λ (t : ℕ). t * 2 ^ k) (pow_double s)) in
    let d : (m + 2 ^ n) / 2 ^ s ≡ m / 2 ^ s + 2 * 2 ^ k =
      ap (λ t. (m + t) / 2 ^ s) e ∙ add-mul-div_right m (2 * 2 ^ k) (pow_pos s) in
    let r : (m / 2 ^ s + 2 * 2 ^ k) % 2 ≡ m / 2 ^ s % 2 = omega arith in
    ap (λ t. t % 2 == 1) d ∙ ap (λ t. t == 1) r

-- The mask that a loop collects has exactly the bits of its test.
pub bit_at-collect : (test : ℕ → Bool) (n s : ℕ) → s < n → bit_at (collect test n) s ≡ test s
unfolding collect
bit_at-collect test zero s h = absurd (omega arith)
bit_at-collect test (suc n) s h = elim (dec_lt s n) [
  | yes l ↦ elim (Bool-cases (test n)) [
    | inl e ↦ rw e (bit_at-below (collect test n) n s l ∙ bit_at-collect test n s l)
    | inr e ↦ rw e (bit_at-collect test n s l)
  ]
  | no l ↦
      let same : s ≡ n = omega arith in
      rw same (elim (Bool-cases (test n)) [
        | inl e ↦ rw e (bit_at-above (collect test n) n (collect-lt test n))
        | inr e ↦ rw e (bit_at-small (collect test n) n (collect-lt test n))
      ])
]

pub ones_below-same :
    (f g : ℕ → Bool) (n : ℕ) → ((s : ℕ) → s < n → f s ≡ g s) → ones_below f n ≡ ones_below g n
unfolding ones_below
ones_below-same f g zero h = refl
ones_below-same f g (suc n) h =
    ap₂ (λ b k. bit b + k) (h n (omega arith)) (ones_below-same f g n (λ s l. h s (omega arith)))

-- The even and the odd places of a range.
pub ones_below-halves :
    (f : ℕ → Bool) (n : ℕ)
    → ones_below f (2 * n) ≡ ones_below (λ s. f (2 * s)) n + ones_below (λ s. f (2 * s + 1)) n
unfolding ones_below
ones_below-halves f zero = refl
ones_below-halves f (suc n) =
    let e : 2 * suc n ≡ suc (suc (2 * n)) = omega arith in
    let o : 2 * n + 1 ≡ suc (2 * n) = omega arith in
    rw (e, o) (omega (arith, ones_below-halves f n))
