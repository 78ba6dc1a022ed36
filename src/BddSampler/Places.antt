-- ===== src/BddSampler/Places.antt =====
-- build_bdd.py, the numbers of assignments: `sum(v << i ...)` over a list, and over ORDER.
use emergent_hardware_verifi.Prelude.Numbers.{pow_pos, pow_double}
use native.Mathlib.Nat.{div-eq_of_lt, div-div-eq-div-mul}
use emergent_hardware_verifi.BddSampler.Order.{
  same_bits-nth, once_later, occurs_here, occurs, nth, fill, clear_later, below_set, AllBelow,
}
use emergent_hardware_verifi.Prelude.{
  ◌≤◌, ◌≡◌, ◌∷◌, ◌∙◌, ℕ, zero, true, sym, suc, subst, refl, length, false, arith, ap, ◌^◌, [], List,
  Bool, ◌==◌, ◌<◌, ◌/◌, ◌+◌, ◌*◌, ◌%◌,
}
use emergent_hardware_verifi.BddSampler.{place, set_elem}
use emergent_hardware_verifi.Prelude.Bits.{length-bits_from, bit, bit_at, value, bits_from}

-- The sum of a path's bits, each shifted to its place.
abbrev pub weigh : List ℕ → List Bool → ℕ
weigh [] bs = 0
weigh (p ∷ ps) [] = 0
weigh (p ∷ ps) (b ∷ bs) = bit b * 2 ^ p + weigh ps bs

bit_at-zero : (xs : List Bool) (b : Bool) → bit_at (bit b + 2 * value xs) 0 ≡ b
bit_at-zero xs true = let e : (1 + 2 * value xs) / 2 ^ 0 % 2 ≡ 1 = omega arith in ap (λ t. t == 1) e
bit_at-zero xs false =
    let e : (0 + 2 * value xs) / 2 ^ 0 % 2 ≡ 0 = omega arith in ap (λ t. t == 1) e

bit_at-suc : (a v i : ℕ) → a < 2 → bit_at (a + 2 * v) (suc i) ≡ bit_at v i
bit_at-suc a v i h =
    let e : 2 ^ suc i ≡ 2 * 2 ^ i = pow_double i in
    let d : (a + 2 * v) / 2 ≡ v = omega arith in
    ap (λ m. (a + 2 * v) / m % 2 == 1) e
    ∙ ap (λ t. t % 2 == 1) (sym (div-div-eq-div-mul (a + 2 * v) 2 (2 ^ i)))
    ∙ ap (λ t. t / 2 ^ i % 2 == 1) d

bit-lt : (b : Bool) → bit b < 2
bit-lt true = omega arith
bit-lt false = omega arith

bit_at-none : (i : ℕ) → bit_at 0 i ≡ false
bit_at-none i = let e : 0 / 2 ^ i ≡ 0 = div-eq_of_lt (pow_pos i) in ap (λ t. t % 2 == 1) e

-- The bits of a list's value are the list.
pub bit_at-value : (xs : List Bool) (i : ℕ) → bit_at (value xs) i ≡ nth i xs
bit_at-value [] i = bit_at-none i
bit_at-value (b ∷ xs) zero = bit_at-zero xs b
bit_at-value (b ∷ xs) (suc i) = bit_at-suc (bit b) (value xs) i (bit-lt b) ∙ bit_at-value xs i

pub nth-bits_from : (k i v q : ℕ) → q < k → nth q (bits_from k i v) ≡ bit_at v (i + q)
nth-bits_from zero i v q h = absurd (omega arith)
nth-bits_from (suc k) i v zero h = let e : i ≡ i + 0 = omega arith in ap (bit_at v) e
nth-bits_from (suc k) i v (suc q) h =
    let e : suc i + q ≡ i + suc q = omega arith in
    nth-bits_from k (suc i) v q (omega arith) ∙ ap (bit_at v) e

pub bits_from-value : (xs : List Bool) → bits_from (length xs) 0 (value xs) ≡ xs
bits_from-value xs =
    same_bits-nth (bits_from (length xs) 0 (value xs)) xs
      (length-bits_from (length xs) 0 (value xs))
      (λ q h.
        nth-bits_from (length xs) 0 (value xs) q
          (subst (λ n. q < n) (length-bits_from (length xs) 0 (value xs)) h)
        ∙ ap (bit_at (value xs)) (first q)
        ∙ bit_at-value xs q)
  where
    first : (q : ℕ) → 0 + q ≡ q
    first q = omega arith

value-set_elem :
    (p : ℕ) (b : Bool) (xs : List Bool)
    → p < length xs
    → nth p xs ≡ false
    → value (set_elem p b xs) ≡ value xs + bit b * 2 ^ p
unfolding set_elem
value-set_elem p b [] h e = absurd (omega arith)
value-set_elem zero b (x ∷ xs) h e = omega (arith, ap bit e)
value-set_elem (suc p) b (x ∷ xs) h e =
    omega (arith, value-set_elem p b xs (omega arith) e, ap (λ (t : ℕ). bit b * t) (pow_double p))

-- Written to a list that is 0 at every place of the order, the bits weigh what they weigh.
pub value-fill :
    (ps : List ℕ) (bs xs : List Bool)
    → AllBelow (length xs) ps
    → ((q : ℕ) → occurs q ps ≤ 1)
    → ((q : ℕ) → 0 < occurs q ps → nth q xs ≡ false)
    → value (fill ps bs xs) ≡ value xs + weigh ps bs
unfolding fill AllBelow
value-fill [] bs xs h once clear = omega arith
value-fill (p ∷ ps) [] xs h once clear = omega arith
value-fill (p ∷ ps) (b ∷ bs) xs (here, below) once clear =
    let still_clear : (q : ℕ) → 0 < occurs q ps → nth q (set_elem p b xs) ≡ false =
      λ q l. clear_later p ps b xs once clear q l in
    omega (
      arith,
      value-fill ps bs (set_elem p b xs) (below_set ps p b xs below) (once_later p ps once)
          still_clear,
      value-set_elem p b xs here (clear p (occurs_here p ps)),
    )

pub place-weigh : (ps : List ℕ) (j s : ℕ) → place ps j s ≡ weigh ps (bits_from (length ps) j s)
unfolding place
place-weigh [] j s = refl
place-weigh (p ∷ ps) j s =
    omega (arith, ap (λ (t : ℕ). t * 2 ^ p) (as_bit (s / 2 ^ j)), place-weigh ps (suc j) s)
  where
    as_bit : (a : ℕ) → a % 2 ≡ bit (a % 2 == 1)
    as_bit a = ground arith
