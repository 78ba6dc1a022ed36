-- ===== src/Circuit/Word/Multiply.antt =====
-- bv_mul against multiplication.
use emergent_hardware_verifi.Circuit.Word.Arith.{val-bv_add}
use emergent_hardware_verifi.Circuit.Word.Value.{val}
use mathlib.Core.List.{map-append}
use native.Mathlib.Nat.{mod-add-mod, mod-lt, mod-eq_of_lt}
use emergent_hardware_verifi.Prelude.{
  ℕ, zero, suc, ◌+◌, ◌-◌, ◌*◌, ◌%◌, ◌^◌, ◌≤◌, ◌<◌, ◌≡◌, refl, sym, ap, ap₂, ◌∙◌, Bool, true, false,
  ◌&&◌, Option, some, List, [], ◌∷◌, ◌++◌, map, arith, take, replicate, length-take, map-replicate,
  map-take,
}
use emergent_hardware_verifi.Prelude.Numbers.{
  mul_mod, pow_pos, add_mod_swap, scale_mod, pow_split, pow_double,
}
use emergent_hardware_verifi.Prelude.Bits.{
  value, value-take, value-shift, value-replicate-false, bit,
}
use emergent_hardware_verifi.Circuit.Sig.{Sig, Build, false_sig, and_sig}
use emergent_hardware_verifi.Circuit.Meaning.{Valuation, eval, eval-and_sig}
use emergent_hardware_verifi.Circuit.Word.{
  Bv, width, map_build, chosen_width, bv_add, mul_loop, bv_mul,
}
use emergent_hardware_verifi.Circuit.Word.Loops.{bits, bits-map_build}

module _ (ρ : Valuation) where
  chosen_some : (w : ℕ) (a b : Bv) → 0 < w → chosen_width (some w) a b ≡ w
  unfolding chosen_width
  chosen_some zero a b h = absurd (omega arith)
  chosen_some (suc w) a b h = refl

  -- One row of the multiplier: the bits of `a` where the bit of `b` is set, shifted into place.
  value-row : (b : Bool) (bs : List Bool) → value (map (λ x. b && x) bs) ≡ bit b * value bs
  value-row b [] = omega arith
  value-row true (x ∷ bs) = omega (arith, value-row true bs)
  value-row false (x ∷ bs) = omega (arith, value-row false bs)

  -- The row as the source builds it, cut at the width.
  abbrev row : ℕ → Bv → Sig → ℕ → Build Bv
  row w a b i = map_build (λ x. and_sig (b ∷ x ∷ [])) (take (w - i) a)

  val-row :
      (w : ℕ) (a : Bv) (b : Sig) (i n : ℕ)
      → val ρ (replicate i false_sig ++ (row w a b i n).0)
        ≡ 2 ^ i * (bit (eval ρ b) * (val ρ a % 2 ^ (w - i)))
  unfolding eval
  val-row w a b i n =
      let built =
        bits-map_build ρ (λ x. and_sig (b ∷ x ∷ [])) (λ x. eval ρ b && x)
          (λ x m. eval-and_sig ρ (b ∷ x ∷ []) m ∙ ground arith) (take (w - i) a) n in
      ap value (map-append (eval ρ) (replicate i false_sig) (row w a b i n).0)
      ∙ ap₂ (λ xs ys. value (xs ++ ys)) (map-replicate (eval ρ) i false_sig) built
      ∙ value-shift i (map (λ x. eval ρ b && x) (bits ρ (take (w - i) a)))
      ∙ ap (λ t. 2 ^ i * t)
          (value-row (eval ρ b) (bits ρ (take (w - i) a))
            ∙ ap (λ xs. bit (eval ρ b) * value xs) (map-take (eval ρ) (w - i) a)
            ∙ ap (λ t. bit (eval ρ b) * t) (value-take (w - i) (bits ρ a)))

  -- A row counts, modulo the width, as the whole of `a` would.
  row_mod :
      (w i A : ℕ) (b : Bool)
      → i ≤ w
      → 2 ^ i * (bit b * (A % 2 ^ (w - i))) % 2 ^ w ≡ 2 ^ i * (bit b * A) % 2 ^ w
  row_mod w i A false h = ap (λ t. t % 2 ^ w) (omega arith)
  row_mod w i A true h = rw (pow_split i w h) (
      ap (λ t. t % (2 ^ i * 2 ^ (w - i))) (omega arith)
      ∙ scale_mod (2 ^ i) A (2 ^ (w - i))
      ∙ ap (λ t. t % (2 ^ i * 2 ^ (w - i))) (omega arith))

  val-mul_loop :
      (w : ℕ) (a bs : Bv) (i : ℕ) (acc : Bv) (n : ℕ)
      → i + width bs ≤ w
      → val ρ acc < 2 ^ w
      → val ρ (mul_loop w a bs i acc n).0 ≡ (val ρ acc + 2 ^ i * (val ρ a * val ρ bs)) % 2 ^ w
  unfolding mul_loop
  val-mul_loop w a [] i acc n h lt = sym (mod-eq_of_lt lt) ∙ ap (λ t. t % 2 ^ w) (omega arith)
  val-mul_loop w a (b ∷ bs) i acc n h lt =
      let partial = replicate i false_sig ++ (row w a b i n).0 in
      let n' = (row w a b i n).1 in
      let sum = (bv_add acc partial (some w) n').0 in
      let A = val ρ a in
      let P = 2 ^ i * (bit (eval ρ b) * A) in
      let Y = 2 ^ suc i * (A * val ρ bs) in
      let added : val ρ sum ≡ (val ρ acc + P) % 2 ^ w =
        val-bv_add ρ acc partial (some w) n'
        ∙ ap (λ l. (val ρ acc + val ρ partial) % 2 ^ l) (chosen_some w acc partial (omega arith))
        ∙ ap (λ t. (val ρ acc + t) % 2 ^ w) (val-row w a b i n)
        ∙ add_mod_swap (val ρ acc) _ P (2 ^ w) (row_mod w i A (eval ρ b) (omega arith)) in
      val-mul_loop w a bs (suc i) sum (bv_add acc partial (some w) n').1 (omega arith)
        (rw added (mod-lt (val ρ acc + P) (pow_pos w)))
      ∙ ap (λ t. (t + Y) % 2 ^ w) added
      ∙ mod-add-mod (val ρ acc + P) (2 ^ w) Y
      ∙ ap (λ t. t % 2 ^ w) (omega (arith, ap (λ (t : ℕ). t * (A * val ρ bs)) (pow_double i)))

  -- bv_mul multiplies the values of the words, modulo 2 to the chosen width.
  pub val-bv_mul :
      (a b : Bv) (given : Option ℕ) (n : ℕ)
      → val ρ (bv_mul a b given n).0 ≡ val ρ a * val ρ b % 2 ^ chosen_width given a b
  unfolding bv_mul eval
  val-bv_mul a b given n =
      let w = chosen_width given a b in
      let zeros : val ρ (replicate w false_sig) ≡ 0 =
        ap value (map-replicate (eval ρ) w false_sig) ∙ value-replicate-false w in
      val-mul_loop w a (take w b) 0 (replicate w false_sig) n (omega (arith, length-take w b))
        (rw zeros (pow_pos w))
      ∙ ap₂ (λ (z t : ℕ). (z + 1 * (val ρ a * t)) % 2 ^ w) zeros
          (ap value (map-take (eval ρ) w b) ∙ value-take w (bits ρ b))
      ∙ ap (λ t. t % 2 ^ w) (omega arith)
      ∙ mul_mod (val ρ a) (val ρ b) (2 ^ w)
