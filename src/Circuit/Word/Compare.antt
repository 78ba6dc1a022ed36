-- ===== src/Circuit/Word/Compare.antt =====
-- bv_eq, bv_eq_const, bv_ge_const and bv_ite against comparisons of the numbers.
use emergent_hardware_verifi.Circuit.Word.Arith.{val-bv_const}
use emergent_hardware_verifi.Prelude.Bits.{value-lt, value, same_bits_eq, same_bits}
use Prim.Native.Nat.{max}
use emergent_hardware_verifi.Circuit.Word.Value.{val-pad, val, length-pad, length-bits}
use native.Mathlib.Decide.{dec_le}
use emergent_hardware_verifi.Circuit.Word.Loops.{zip_with, bits-zip_build, bits}
use emergent_hardware_verifi.Circuit.Meaning.{
  eval-xnor_sig, eval-or_sig, eval-ite_sig, eval-and_sig, eval, any, all, Valuation,
}
use emergent_hardware_verifi.Circuit.Word.{
  zip_build, width, pad, eq_consts, bv_ite, bv_ge_const, bv_eq_const, bv_eq, bv_const, Bv,
}
use emergent_hardware_verifi.Circuit.Sig.{xnor_sig, Sig, ite_sig, and_sig}
use emergent_hardware_verifi.Prelude.{
  ◌||◌, ◌≤◌, ◌≡◌, ◌∷◌, ◌∙◌, ℕ, zero, xor_bool, true, sym, suc, refl, ltb, length, leb, flip,
  if◌then◌else◌, arith, ap₂, ap, ◌^◌, [], List, Bool, ◌==◌, ◌<◌, ◌-◌, ◌+◌, ◌&&◌, ◌%◌,
}
use native.Mathlib.Nat.{mod-eq_of_lt}

module _ (ρ : Valuation) where
  all-zip_xnor :
      (xs ys : List Bool)
      → length xs ≡ length ys
      → all (zip_with (λ x y. flip (xor_bool x y)) xs ys) ≡ same_bits xs ys
  all-zip_xnor [] ys h = refl
  all-zip_xnor (x ∷ xs) [] h = refl
  all-zip_xnor (x ∷ xs) (y ∷ ys) h =
      ap (λ b. flip (xor_bool x y) && b) (all-zip_xnor xs ys (omega arith))

  length-bits_pads :
      (a b : Bv)
      → length (bits ρ (pad (max (width a) (width b)) a))
        ≡ length (bits ρ (pad (max (width a) (width b)) b))
  length-bits_pads a b =
      let w = max (width a) (width b) in
      length-bits ρ (pad w a)
      ∙ length-pad w a
      ∙ omega arith
      ∙ sym (length-pad w b)
      ∙ sym (length-bits ρ (pad w b))

  -- The signal of bv_eq is one exactly when the values of the words, of any widths, are equal.
  pub eval-bv_eq : (a b : Bv) (n : ℕ) → eval ρ (bv_eq a b n).0 ≡ (val ρ a == val ρ b)
  unfolding bv_eq
  eval-bv_eq a b n =
      let w = max (width a) (width b) in
      let xs = bits ρ (pad w a) in
      let ys = bits ρ (pad w b) in
      let zipped = zip_build xnor_sig (pad w a) (pad w b) n in
      eval-and_sig ρ zipped.0 zipped.1
      ∙ ap (λ l. all l)
          (bits-zip_build ρ xnor_sig (λ x y. flip (xor_bool x y)) (eval-xnor_sig ρ) (pad w a)
            (pad w b) n)
      ∙ all-zip_xnor xs ys (length-bits_pads a b)
      ∙ same_bits_eq xs ys (length-bits_pads a b)
      ∙ ap₂ ◌==◌ (val-pad ρ w a) (val-pad ρ w b)

  pub eval-bv_eq_const :
      (a : Bv) (k n : ℕ) → eval ρ (bv_eq_const a k n).0 ≡ (val ρ a == k % 2 ^ width a)
  unfolding bv_eq_const
  eval-bv_eq_const a k n =
      let c = bv_const k (width a) n in
      eval-bv_eq a c.0 c.1 ∙ ap (λ t. val ρ a == t) (val-bv_const ρ k (width a) n)

  val-lt : (a : Bv) → val ρ a < 2 ^ width a
  val-lt a = rw (length-bits ρ a) at (value-lt (bits ρ a))

  -- The disjunction over `range(k, k + n)` finds the value exactly if it lies there.
  any-eq_consts :
      (a : Bv) (m k n : ℕ)
      → k + m ≤ 2 ^ width a
      → any (bits ρ (eq_consts a m k n).0) ≡ (leb k (val ρ a) && ltb (val ρ a) (k + m))
  unfolding eq_consts
  any-eq_consts a zero k n h = ground arith
  any-eq_consts a (suc m) k n h =
      let e = bv_eq_const a k n in
      let x = and_sig (e.0 ∷ []) e.1 in
      let here : eval ρ x.0 ≡ (val ρ a == k) =
        eval-and_sig ρ (e.0 ∷ []) e.1
        ∙ ap (λ b. b && true)
            (eval-bv_eq_const a k n ∙ ap (λ t. val ρ a == t) (mod-eq_of_lt (omega arith)))
        ∙ ground arith in
      ap₂ ◌||◌ here (any-eq_consts a m (suc k) x.1 (omega arith)) ∙ ground arith

  -- The signal of bv_ge_const is one exactly when the value of the word is at least `k`.
  pub eval-bv_ge_const : (a : Bv) (k n : ℕ) → eval ρ (bv_ge_const a k n).0 ≡ leb k (val ρ a)
  unfolding bv_ge_const
  eval-bv_ge_const a k n = elim (dec_le k (2 ^ width a)) [
    | yes h ↦
        let xs = eq_consts a (2 ^ width a - k) k n in
        eval-or_sig ρ xs.0 xs.1
        ∙ any-eq_consts a (2 ^ width a - k) k n (omega arith)
        ∙ ground (arith, val-lt a)
    | no h ↦
        let none_left : 2 ^ width a - k ≡ 0 = omega arith in
        let xs = eq_consts a (2 ^ width a - k) k n in
        eval-or_sig ρ xs.0 xs.1
        ∙ ap (λ m. any (bits ρ (eq_consts a m k n).0)) none_left
        ∙ ground (arith, val-lt a)
  ]

  if-zip :
      (c : Bool) (xs ys : List Bool)
      → length xs ≡ length ys
      → zip_with (λ x y. if c then x else y) xs ys ≡ (if c then xs else ys)
  if-zip c [] [] h = ground arith
  if-zip c [] (y ∷ ys) h = absurd (omega arith)
  if-zip c (x ∷ xs) [] h = absurd (omega arith)
  if-zip c (x ∷ xs) (y ∷ ys) h = ground (arith, if-zip c xs ys)

  -- bv_ite has the value of its first word when the condition is one, else that of its second.
  pub val-bv_ite :
      (c : Sig) (a b : Bv) (n : ℕ)
      → val ρ (bv_ite c a b n).0 ≡ (if eval ρ c then val ρ a else val ρ b)
  unfolding bv_ite
  val-bv_ite c a b n =
      let w = max (width a) (width b) in
      let xs = bits ρ (pad w a) in
      let ys = bits ρ (pad w b) in
      ap value (
        bits-zip_build ρ (ite_sig c) (λ x y. if eval ρ c then x else y) (eval-ite_sig ρ c) (pad w a)
          (pad w b) n)
      ∙ ap value (if-zip (eval ρ c) xs ys (length-bits_pads a b))
      ∙ ground (arith, val-pad ρ w a, val-pad ρ w b)
