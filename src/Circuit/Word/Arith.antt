-- ===== src/Circuit/Word/Arith.antt =====
-- bv_const, bv_inc, bv_dec, bv_add and bv_sub against arithmetic on the numbers.
use emergent_hardware_verifi.Circuit.Word.Value.{val-cut, length-bits-cut, cut, val, length-bits}
use native.Mathlib.Nat.{add-mod-mod}
use emergent_hardware_verifi.Prelude.{
  ℕ, zero, suc, ◌+◌, ◌-◌, ◌%◌, ◌^◌, ◌≡◌, refl, sym, ap, ap₂, ◌∙◌, false, Option, none, some, map,
  arith, flip, length, length-map,
}
use emergent_hardware_verifi.Prelude.Numbers.{add_mod_both}
use emergent_hardware_verifi.Prelude.Bits.{
  value, add_bits_mod, inc_bits_mod, dec_bits_mod, value-complement, value-bits_from,
  length-add_bits, length-inc_bits,
}
use emergent_hardware_verifi.Circuit.Sig.{false_sig, true_sig, not_sig}
use emergent_hardware_verifi.Circuit.Meaning.{Valuation, eval, eval-not_sig}
use emergent_hardware_verifi.Circuit.Word.{
  Bv, width, map_build, bv_const, bv_inc, bv_dec, chosen_width, bv_add, bv_sub,
}
use emergent_hardware_verifi.Circuit.Word.Loops.{
  bits, bits-const_from, bits-inc_loop, bits-dec_loop, bits-add_loop, bits-map_build,
}

module _ (ρ : Valuation) where
  pub val-bv_const : (v w n : ℕ) → val ρ (bv_const v w n).0 ≡ v % 2 ^ w
  unfolding bv_const
  val-bv_const v w n =
      ap value (bits-const_from ρ w 0 v n)
      ∙ value-bits_from w 0 v
      ∙ ap (λ t. t % 2 ^ w) (omega arith)

  pub val-bv_inc : (a : Bv) (n : ℕ) → val ρ (bv_inc a n).0 ≡ (val ρ a + 1) % 2 ^ width a
  unfolding bv_inc eval
  val-bv_inc a n =
      ap value (bits-inc_loop ρ a true_sig n)
      ∙ inc_bits_mod (bits ρ a)
      ∙ ap (λ l. (val ρ a + 1) % 2 ^ l) (length-bits ρ a)

  pub val-bv_dec :
      (a : Bv) (n : ℕ) → val ρ (bv_dec a n).0 ≡ (val ρ a + 2 ^ width a - 1) % 2 ^ width a
  unfolding bv_dec eval
  val-bv_dec a n =
      ap value (bits-dec_loop ρ a true_sig n)
      ∙ dec_bits_mod (bits ρ a)
      ∙ ap (λ l. (val ρ a + 2 ^ l - 1) % 2 ^ l) (length-bits ρ a)

  -- bv_inc adds 1 to the value of the word and bv_dec subtracts 1 from it, each wrapping at 2 to
  -- its width.
  pub val-bv_inc_dec :
      (a : Bv) (n : ℕ)
      → (val ρ (bv_inc a n).0 ≡ (val ρ a + 1) % 2 ^ width a)
        × (val ρ (bv_dec a n).0 ≡ (val ρ a + 2 ^ width a - 1) % 2 ^ width a)
  val-bv_inc_dec a n = (val-bv_inc a n, val-bv_dec a n)

  -- bv_add adds the values of the words, modulo 2 to the chosen width, whatever the widths of the
  -- operands are and whatever nodes the constructors simplify.
  pub val-bv_add :
      (a b : Bv) (given : Option ℕ) (n : ℕ)
      → val ρ (bv_add a b given n).0 ≡ (val ρ a + val ρ b) % 2 ^ chosen_width given a b
  unfolding bv_add eval
  val-bv_add a b given n =
      let w = chosen_width given a b in
      let xs = bits ρ (cut w a) in
      let ys = bits ρ (cut w b) in
      ap value (bits-add_loop ρ (cut w a) (cut w b) false_sig n)
      ∙ add_bits_mod xs ys false (length-bits-cut ρ w a ∙ sym (length-bits-cut ρ w b))
      ∙ ap (λ l. (value xs + value ys + 0) % 2 ^ l) (length-bits-cut ρ w a)
      ∙ ap₂ (λ (s t : ℕ). (s + t + 0) % 2 ^ w) (val-cut ρ w a) (val-cut ρ w b)
      ∙ ap (λ t. t % 2 ^ w) (omega arith)
      ∙ add_mod_both (val ρ a) (val ρ b) (2 ^ w)

  -- `bv_sub` passes its width on to `bv_add`, which takes 0 for "no width".
  chosen_again :
      (w : ℕ) (a c : Bv) → (w ≡ 0 → width a ≡ 0) → width c ≡ w → chosen_width (some w) a c ≡ w
  unfolding chosen_width
  chosen_again zero a c h e = omega (arith, h refl)
  chosen_again (suc w) a c h e = refl

  chosen_zero : (given : Option ℕ) (a b : Bv) → chosen_width given a b ≡ 0 → width a ≡ 0
  unfolding chosen_width
  chosen_zero none a b h = omega arith
  chosen_zero (some zero) a b h = omega arith
  chosen_zero (some (suc w)) a b h = absurd (omega arith)

  -- The two's complement of a word of `w` bits.
  complement_mod : (w x y : ℕ) → y + x + 1 ≡ 2 ^ w → (y + 1) % 2 ^ w ≡ (2 ^ w - x) % 2 ^ w
  complement_mod w x y h = ap (λ t. t % 2 ^ w) (omega arith)

  bits-negated :
      (w : ℕ) (b : Bv) (n : ℕ)
      → bits ρ (map_build not_sig (cut w b) n).0 ≡ map flip (bits ρ (cut w b))
  bits-negated w b n = bits-map_build ρ not_sig flip (eval-not_sig ρ) (cut w b) n

  width-negated : (w : ℕ) (b : Bv) (n : ℕ) → width (map_build not_sig (cut w b) n).0 ≡ w
  width-negated w b n =
      sym (length-bits ρ (map_build not_sig (cut w b) n).0)
      ∙ ap (λ l. length l) (bits-negated w b n)
      ∙ length-map (bits ρ (cut w b)) flip
      ∙ length-bits-cut ρ w b

  pub width-bv_inc : (a : Bv) (n : ℕ) → width (bv_inc a n).0 ≡ width a
  unfolding bv_inc
  width-bv_inc a n =
      sym (length-bits ρ (bv_inc a n).0)
      ∙ ap (λ l. length l) (bits-inc_loop ρ a true_sig n)
      ∙ length-inc_bits (bits ρ a) (eval ρ true_sig)
      ∙ length-bits ρ a

  -- Complement and increment: the word that bv_sub adds.
  val-negated :
      (w : ℕ) (b : Bv) (n m : ℕ)
      → val ρ (bv_inc (map_build not_sig (cut w b) n).0 m).0 ≡ (2 ^ w - val ρ b % 2 ^ w) % 2 ^ w
  val-negated w b n m =
      let xs = bits ρ (cut w b) in
      let sum : value (map flip xs) + value xs + 1 ≡ 2 ^ w =
        value-complement xs ∙ ap (λ l. 2 ^ l) (length-bits-cut ρ w b) in
      val-bv_inc (map_build not_sig (cut w b) n).0 m
      ∙ ap₂ (λ (l : ℕ) zs. (value zs + 1) % 2 ^ l) (width-negated w b n) (bits-negated w b n)
      ∙ complement_mod w (value xs) (value (map flip xs)) sum
      ∙ ap (λ t. (2 ^ w - t) % 2 ^ w) (val-cut ρ w b)

  -- bv_sub subtracts the values of the words, modulo 2 to the chosen width.
  pub val-bv_sub :
      (a b : Bv) (given : Option ℕ) (n : ℕ)
      → val ρ (bv_sub a b given n).0
        ≡ (val ρ a + (2 ^ chosen_width given a b - val ρ b % 2 ^ chosen_width given a b))
          % 2 ^ chosen_width given a b
  unfolding bv_sub
  val-bv_sub a b given n =
      let w = chosen_width given a b in
      let flipped = map_build not_sig (cut w b) n in
      let neg_b = bv_inc flipped.0 flipped.1 in
      let same =
        chosen_again w a neg_b.0 (chosen_zero given a b)
          (width-bv_inc flipped.0 flipped.1 ∙ width-negated w b n) in
      val-bv_add a neg_b.0 (some w) neg_b.1
      ∙ ap₂ (λ (t l : ℕ). (val ρ a + t) % 2 ^ l) (val-negated w b n flipped.1) same
      ∙ add-mod-mod (val ρ a) (2 ^ w - val ρ b % 2 ^ w) (2 ^ w)

  -- The adder's result has the chosen width.
  pub width-bv_add :
      (a b : Bv) (given : Option ℕ) (n : ℕ) → width (bv_add a b given n).0 ≡ chosen_width given a b
  unfolding bv_add
  width-bv_add a b given n =
      let w = chosen_width given a b in
      sym (length-bits ρ (bv_add a b given n).0)
      ∙ ap (λ l. length l) (bits-add_loop ρ (cut w a) (cut w b) false_sig n)
      ∙ length-add_bits (bits ρ (cut w a)) (bits ρ (cut w b)) (eval ρ false_sig)
          (length-bits-cut ρ w a ∙ sym (length-bits-cut ρ w b))
      ∙ length-bits-cut ρ w a
