-- ===== src/Prelude/Bits.antt =====
-- Numbers as lists of bits, least significant first, and the arithmetic of a ripple-carry adder.
use Prim.Native.Nat.{ℕ, zero, suc, ◌+◌, ◌-◌, ◌*◌, ◌/◌, ◌%◌, ◌^◌, ◌<◌}
use mathlib.Core.Path.{◌≡◌, refl, sym, ap, ◌∙◌}
use mathlib.Core.Bool.{Bool, true, false, ◌&&◌, ◌||◌}
use mathlib.Core.List.{List, [], ◌∷◌, ◌++◌, map}
use native.Mathlib.Nat.{div-div-eq-div-mul}
use native.Mathlib.Omega.{arith}
use emergent_hardware_verifi.Prelude.Tests.{flip, xor_bool, ◌==◌}
use emergent_hardware_verifi.Prelude.Lists.{length, replicate, take, drop}
use emergent_hardware_verifi.Prelude.Numbers.{pow_double, pow_pos, mod_of_eq, mod_double}

abbrev pub bit : Bool → ℕ
bit true = 1
bit false = 0

abbrev pub value : List Bool → ℕ
value [] = 0
value (b ∷ bs) = bit b + 2 * value bs

pub value-lt : (bs : List Bool) → value bs < 2 ^ length bs
value-lt [] = omega arith
value-lt (true ∷ bs) = omega (arith, pow_double (length bs), value-lt bs)
value-lt (false ∷ bs) = omega (arith, pow_double (length bs), value-lt bs)

pub value-replicate-false : (n : ℕ) → value (replicate n false) ≡ 0
value-replicate-false zero = refl
value-replicate-false (suc n) = omega (arith, value-replicate-false n)

pub value-append_false : (bs : List Bool) (n : ℕ) → value (bs ++ replicate n false) ≡ value bs
value-append_false [] n = value-replicate-false n
value-append_false (b ∷ bs) n = omega (arith, value-append_false bs n)

pub value-shift : (n : ℕ) (bs : List Bool) → value (replicate n false ++ bs) ≡ 2 ^ n * value bs
value-shift zero bs = omega arith
value-shift (suc n) bs =
    omega (arith, value-shift n bs, ap (λ (t : ℕ). t * value bs) (pow_double n))

value-split : (n : ℕ) (bs : List Bool) → value bs ≡ value (drop n bs) * 2 ^ n + value (take n bs)
value-split zero bs = omega arith
value-split (suc n) [] = omega arith
value-split (suc n) (b ∷ bs) =
    omega (arith, value-split n bs, ap (λ (t : ℕ). value (drop n bs) * t) (pow_double n))

take-lt : (n : ℕ) (bs : List Bool) → value (take n bs) < 2 ^ n
take-lt zero bs = omega arith
take-lt (suc n) [] = omega (arith, pow_pos (suc n))
take-lt (suc n) (true ∷ bs) = omega (arith, take-lt n bs, pow_double n)
take-lt (suc n) (false ∷ bs) = omega (arith, take-lt n bs, pow_double n)

-- Cutting a word to `n` bits takes it modulo 2 ^ n.
pub value-take : (n : ℕ) (bs : List Bool) → value (take n bs) ≡ value bs % 2 ^ n
value-take n bs = sym (
    mod_of_eq (value bs) (value (drop n bs)) (value (take n bs)) (2 ^ n) (value-split n bs)
      (take-lt n bs))

-- A full adder: the sum bit and the carry out.
abbrev pub sum_bit : Bool → Bool → Bool → Bool
sum_bit x y c = xor_bool (xor_bool x y) c

abbrev pub carry_bit : Bool → Bool → Bool → Bool
carry_bit x y c = (x && y) || (c && xor_bool x y)

-- Two words of one width, added bit by bit.
abbrev pub add_bits : List Bool → List Bool → Bool → List Bool
add_bits (x ∷ xs) (y ∷ ys) c = sum_bit x y c ∷ add_bits xs ys (carry_bit x y c)
add_bits [] _ c = []
add_bits (x ∷ xs) [] c = []

abbrev pub carry_out : List Bool → List Bool → Bool → Bool
carry_out (x ∷ xs) (y ∷ ys) c = carry_out xs ys (carry_bit x y c)
carry_out [] _ c = c
carry_out (x ∷ xs) [] c = c

full_adder :
    (x y c : Bool) → bit (sum_bit x y c) + 2 * bit (carry_bit x y c) ≡ bit x + bit y + bit c
full_adder x y c = ground arith

value-add_bits :
    (xs ys : List Bool) (c : Bool)
    → length xs ≡ length ys
    → value (add_bits xs ys c) + bit (carry_out xs ys c) * 2 ^ length xs
      ≡ value xs + value ys + bit c
value-add_bits [] [] c h = omega arith
value-add_bits [] (y ∷ ys) c h = absurd (omega arith)
value-add_bits (x ∷ xs) [] c h = absurd (omega arith)
value-add_bits (x ∷ xs) (y ∷ ys) c h = omega (
  arith,
  full_adder x y c,
  value-add_bits xs ys (carry_bit x y c) (omega arith),
  ap (λ (t : ℕ). bit (carry_out xs ys (carry_bit x y c)) * t) (pow_double (length xs)),
)

pub length-add_bits :
    (xs ys : List Bool) (c : Bool) → length xs ≡ length ys → length (add_bits xs ys c) ≡ length xs
length-add_bits [] ys c h = refl
length-add_bits (x ∷ xs) [] c h = absurd (omega arith)
length-add_bits (x ∷ xs) (y ∷ ys) c h =
    ap suc (length-add_bits xs ys (carry_bit x y c) (omega arith))

-- The adder wraps at the width of its operands.
pub add_bits_mod :
    (xs ys : List Bool) (c : Bool)
    → length xs ≡ length ys
    → value (add_bits xs ys c) ≡ (value xs + value ys + bit c) % 2 ^ length xs
add_bits_mod xs ys c h = sym (
    mod_of_eq (value xs + value ys + bit c) (bit (carry_out xs ys c)) (value (add_bits xs ys c))
      (2 ^ length xs) (omega (arith, value-add_bits xs ys c h))
      (rw (length-add_bits xs ys c h) at (value-lt (add_bits xs ys c))))

-- Adding the carry alone, and taking the borrow alone away.
abbrev pub inc_bits : List Bool → Bool → List Bool
inc_bits [] c = []
inc_bits (b ∷ bs) c = xor_bool b c ∷ inc_bits bs (b && c)

abbrev pub dec_bits : List Bool → Bool → List Bool
dec_bits [] c = []
dec_bits (b ∷ bs) c = xor_bool b c ∷ dec_bits bs (flip b && c)

pub length-inc_bits : (bs : List Bool) (c : Bool) → length (inc_bits bs c) ≡ length bs
length-inc_bits [] c = refl
length-inc_bits (b ∷ bs) c = ap suc (length-inc_bits bs (b && c))

pub length-dec_bits : (bs : List Bool) (c : Bool) → length (dec_bits bs c) ≡ length bs
length-dec_bits [] c = refl
length-dec_bits (b ∷ bs) c = ap suc (length-dec_bits bs (flip b && c))

inc_out : List Bool → Bool → Bool
inc_out [] c = c
inc_out (b ∷ bs) c = inc_out bs (b && c)

dec_out : List Bool → Bool → Bool
dec_out [] c = c
dec_out (b ∷ bs) c = dec_out bs (flip b && c)

half_adder : (b c : Bool) → bit (xor_bool b c) + 2 * bit (b && c) ≡ bit b + bit c
half_adder b c = ground arith

half_borrow : (b c : Bool) → bit (xor_bool b c) + bit c ≡ bit b + 2 * bit (flip b && c)
half_borrow b c = ground arith

value-inc_bits :
    (bs : List Bool) (c : Bool)
    → bit (inc_out bs c) * 2 ^ length bs + value (inc_bits bs c) ≡ value bs + bit c
unfolding inc_out
value-inc_bits [] c = omega arith
value-inc_bits (b ∷ bs) c = omega (
  arith,
  half_adder b c,
  value-inc_bits bs (b && c),
  ap (λ (t : ℕ). bit (inc_out bs (b && c)) * t) (pow_double (length bs)),
)

value-dec_bits :
    (bs : List Bool) (c : Bool)
    → value (dec_bits bs c) + bit c ≡ bit (dec_out bs c) * 2 ^ length bs + value bs
unfolding dec_out
value-dec_bits [] c = omega arith
value-dec_bits (b ∷ bs) c = omega (
  arith,
  half_borrow b c,
  value-dec_bits bs (flip b && c),
  ap (λ (t : ℕ). bit (dec_out bs (flip b && c)) * t) (pow_double (length bs)),
)

-- Counting up and down, each modulo the width.
pub inc_bits_mod : (bs : List Bool) → value (inc_bits bs true) ≡ (value bs + 1) % 2 ^ length bs
inc_bits_mod bs = sym (
    mod_of_eq (value bs + 1) (bit (inc_out bs true)) (value (inc_bits bs true)) (2 ^ length bs)
      (omega (arith, value-inc_bits bs true))
      (rw (length-inc_bits bs true) at (value-lt (inc_bits bs true))))

pub dec_bits_mod :
    (bs : List Bool) → value (dec_bits bs true) ≡ (value bs + 2 ^ length bs - 1) % 2 ^ length bs
dec_bits_mod bs = sym (
    mod_of_eq (value bs + 2 ^ length bs - 1) (1 - bit (dec_out bs true)) (value (dec_bits bs true))
      (2 ^ length bs) (no_borrow (dec_out bs true) (value-dec_bits bs true))
      (rw (length-dec_bits bs true) at (value-lt (dec_bits bs true))))
  where
    no_borrow :
        (b : Bool)
        → value (dec_bits bs true) + bit true ≡ bit b * 2 ^ length bs + value bs
        → value bs + 2 ^ length bs - 1 ≡ (1 - bit b) * 2 ^ length bs + value (dec_bits bs true)
    no_borrow true h = omega arith
    no_borrow false h = omega arith

-- The complement of every bit.
pub value-complement : (bs : List Bool) → value (map flip bs) + value bs + 1 ≡ 2 ^ length bs
value-complement [] = omega arith
value-complement (true ∷ bs) = omega (arith, value-complement bs, pow_double (length bs))
value-complement (false ∷ bs) = omega (arith, value-complement bs, pow_double (length bs))

-- Two words of one width are equal bit by bit exactly when they are equal as numbers.
abbrev pub same_bits : List Bool → List Bool → Bool
same_bits (x ∷ xs) (y ∷ ys) = flip (xor_bool x y) && same_bits xs ys
same_bits [] _ = true
same_bits (x ∷ xs) [] = true

pub same_bits_eq :
    (xs ys : List Bool) → length xs ≡ length ys → same_bits xs ys ≡ (value xs == value ys)
same_bits_eq [] [] h = ground arith
same_bits_eq [] (y ∷ ys) h = absurd (omega arith)
same_bits_eq (x ∷ xs) [] h = absurd (omega arith)
same_bits_eq (x ∷ xs) (y ∷ ys) h = ground (arith, same_bits_eq xs ys)

-- The bits of `v` from place `i` on, as `(v >> i) & 1`.
abbrev pub bit_at : ℕ → ℕ → Bool
bit_at v i = v / 2 ^ i % 2 == 1

abbrev pub bits_from : ℕ → ℕ → ℕ → List Bool
bits_from zero i v = []
bits_from (suc k) i v = bit_at v i ∷ bits_from k (suc i) v

bit_mod : (a : ℕ) → bit (a % 2 == 1) ≡ a % 2
bit_mod a = ground arith

pow_suc : (i : ℕ) → 2 ^ suc i ≡ 2 ^ i * 2
pow_suc i = omega (arith, pow_double i)

pub value-bits_from : (k i v : ℕ) → value (bits_from k i v) ≡ v / 2 ^ i % 2 ^ k
value-bits_from zero i v = omega arith
value-bits_from (suc k) i v =
    let a = v / 2 ^ i in
    let next : v / 2 ^ suc i ≡ a / 2 =
      ap (λ m. v / m) (pow_suc i) ∙ sym (div-div-eq-div-mul v (2 ^ i) 2) in
    let rest : value (bits_from k (suc i) v) ≡ a / 2 % 2 ^ k =
      value-bits_from k (suc i) v ∙ ap (λ t. t % 2 ^ k) next in
    let wide : a % (2 * 2 ^ k) ≡ a % 2 ^ suc k = ap (λ m. a % m) (sym (pow_double k)) in
    omega (arith, bit_mod a, rest, wide, mod_double a (2 ^ k) (pow_pos k))

pub length-bits_from : (k i v : ℕ) → length (bits_from k i v) ≡ k
length-bits_from zero i v = refl
length-bits_from (suc k) i v = ap suc (length-bits_from k (suc i) v)
