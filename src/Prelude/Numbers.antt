-- ===== src/Prelude/Numbers.antt =====
-- Powers of two and remainders, for values that wrap at a width.
use Prim.Native.Nat.{ℕ, zero, suc, ◌+◌, ◌-◌, ◌*◌, ◌/◌, ◌%◌, ◌^◌, ◌<◌, ◌≤◌}
use mathlib.Core.Path.{ap, ◌≡◌, ◌∙◌, sym}
use native.Mathlib.Nat.{
  pow-suc, mod-eq_of_lt, mul-add-mod_self_right, zero-add, suc-add, add-mod, add-mod-mod, mod-lt,
  div-add-mod',
}
use native.Mathlib.Omega.{arith}

pub pow_double : (w : ℕ) → 2 ^ suc w ≡ 2 * 2 ^ w
pow_double w = omega (arith, pow-suc 2 w)

pub pow_pos : (w : ℕ) → 0 < 2 ^ w
pow_pos zero = omega arith
pow_pos (suc w) = omega (arith, pow_double w, pow_pos w)

-- A remainder is known from a quotient and a bound.
pub mod_unique : (q r m : ℕ) → r < m → (q * m + r) % m ≡ r
mod_unique q r m h = mul-add-mod_self_right q m r ∙ mod-eq_of_lt h

pub mod_of_eq : (a q r m : ℕ) → a ≡ q * m + r → r < m → a % m ≡ r
mod_of_eq a q r m e h = rw e (mod_unique q r m h)

-- One bit more of a remainder modulo a power of two.
pub mod_double : (a m : ℕ) → 0 < m → a % 2 + 2 * (a / 2 % m) ≡ a % (2 * m)
mod_double a m h =
    let half : a / 2 / m * m + a / 2 % m ≡ a / 2 = div-add-mod' (a / 2) m in
    sym (
      mod_of_eq a (a / 2 / m) (a % 2 + 2 * (a / 2 % m)) (2 * m) (omega arith)
        (omega (arith, mod-lt (a / 2) h)))

pub pow_add : (i j : ℕ) → 2 ^ (i + j) ≡ 2 ^ i * 2 ^ j
pow_add zero j = rw zero-add (omega arith)
pow_add (suc i) j =
    rw suc-add
      (omega (arith, pow_double (i + j), pow_add i j, ap (λ (t : ℕ). t * 2 ^ j) (pow_double i)))

pub pow_split : (i w : ℕ) → i ≤ w → 2 ^ w ≡ 2 ^ i * 2 ^ (w - i)
pow_split i w h = let e : w ≡ i + (w - i) = omega arith in ap (λ t. 2 ^ t) e ∙ pow_add i (w - i)

-- Scaling commutes with a remainder, if the modulus is scaled too.
pub scale_mod : (s x m : ℕ) → s * (x % m) % (s * m) ≡ s * x % (s * m)
scale_mod s x m =
    let whole : s * x ≡ x / m * (s * m) + s * (x % m) =
      omega (arith, ap (λ (t : ℕ). s * t) (div-add-mod' x m)) in
    sym (ap (λ (t : ℕ). t % (s * m)) whole ∙ mul-add-mod_self_right (x / m) (s * m) (s * (x % m)))

-- Under a remainder a summand may be replaced by one with the same remainder.
pub add_mod_swap : (s p q m : ℕ) → p % m ≡ q % m → (s + p) % m ≡ (s + q) % m
add_mod_swap s p q m h = sym (add-mod-mod s p m) ∙ ap (λ t. (s + t) % m) h ∙ add-mod-mod s q m

pub add_mod_both : (x y m : ℕ) → (x % m + y % m) % m ≡ (x + y) % m
add_mod_both x y m = sym (add-mod x y m)

pub mul_mod : (a b m : ℕ) → a * (b % m) % m ≡ a * b % m
mul_mod a b m =
    let whole : a * b ≡ a * (b / m) * m + a * (b % m) =
      omega (arith, ap (λ (t : ℕ). a * t) (div-add-mod' b m)) in
    sym (ap (λ t. t % m) whole ∙ mul-add-mod_self_right (a * (b / m)) m (a * (b % m)))
