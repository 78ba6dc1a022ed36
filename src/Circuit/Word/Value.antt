-- ===== src/Circuit/Word/Value.antt =====
-- The number that a word of circuit.py stands for, and words padded and cut to a width.
use mathlib.Core.List.{map-append}
use emergent_hardware_verifi.Prelude.{
  ℕ, ◌+◌, ◌-◌, ◌%◌, ◌^◌, ◌≡◌, ap, ◌∙◌, false, ◌++◌, arith, length, take, replicate, length-append,
  length-take, length-replicate, length-map, map-replicate, map-take,
}
use emergent_hardware_verifi.Prelude.Bits.{value, value-append_false, value-take}
use emergent_hardware_verifi.Circuit.Sig.{false_sig}
use emergent_hardware_verifi.Circuit.Meaning.{Valuation, eval}
use emergent_hardware_verifi.Circuit.Word.{Bv, width, pad}
use emergent_hardware_verifi.Circuit.Word.Loops.{bits}

-- The number that a word stands for under a valuation.
abbrev pub val : Valuation → Bv → ℕ
val ρ a = value (bits ρ a)

-- `(a.bits + [FALSE] * (w - a.width))[:w]`
abbrev pub cut : ℕ → Bv → Bv
cut w a = take w (pad w a)

pub length-bits : (ρ : Valuation) (a : Bv) → length (bits ρ a) ≡ width a
length-bits ρ a = length-map a (eval ρ)

pub length-pad : (w : ℕ) (a : Bv) → length (pad w a) ≡ width a + (w - width a)
length-pad w a =
    length-append a (replicate (w - width a) false_sig)
    ∙ ap (λ t. width a + t) (length-replicate (w - width a) false_sig)

pub length-cut : (w : ℕ) (a : Bv) → length (cut w a) ≡ w
length-cut w a = omega (arith, length-take w (pad w a), length-pad w a)

module _ (ρ : Valuation) where
  pub bits-pad : (w : ℕ) (a : Bv) → bits ρ (pad w a) ≡ bits ρ a ++ replicate (w - width a) false
  unfolding eval
  bits-pad w a = simp (map-append, map-replicate)

  pub val-pad : (w : ℕ) (a : Bv) → val ρ (pad w a) ≡ val ρ a
  val-pad w a = ap value (bits-pad w a) ∙ value-append_false (bits ρ a) (w - width a)

  pub val-cut : (w : ℕ) (a : Bv) → val ρ (cut w a) ≡ val ρ a % 2 ^ w
  val-cut w a =
      ap value (map-take (eval ρ) w (pad w a))
      ∙ value-take w (bits ρ (pad w a))
      ∙ ap (λ t. t % 2 ^ w) (val-pad w a)

  pub length-bits-cut : (w : ℕ) (a : Bv) → length (bits ρ (cut w a)) ≡ w
  length-bits-cut w a = length-bits ρ (cut w a) ∙ length-cut w a
