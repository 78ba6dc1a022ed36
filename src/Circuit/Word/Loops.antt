-- ===== src/Circuit/Word/Loops.antt =====
-- What each word loop of circuit.py computes, bit by bit.
use emergent_hardware_verifi.Prelude.{ℕ, zero, suc, ◌≡◌, refl, ap₂, Bool, List, [], ◌∷◌, map, arith}
use emergent_hardware_verifi.Prelude.Bits.{bits_from, add_bits, inc_bits, dec_bits}
use emergent_hardware_verifi.Circuit.Sig.{Sig, Build}
use emergent_hardware_verifi.Circuit.Meaning.{
  Valuation, eval, eval-const_sig, eval-not_sig, eval-and_sig, eval-or_sig, eval-xor_sig,
}
use emergent_hardware_verifi.Circuit.Word.{
  Bv, map_build, zip_build, const_from, inc_loop, dec_loop, add_loop,
}

-- The bits of a word under a valuation.
abbrev pub bits : Valuation → Bv → List Bool
bits ρ a = map (eval ρ) a

abbrev pub zip_with : (Bool → Bool → Bool) → List Bool → List Bool → List Bool
zip_with f (x ∷ xs) (y ∷ ys) = f x y ∷ zip_with f xs ys
zip_with f [] _ = []
zip_with f (x ∷ xs) [] = []

module _ (ρ : Valuation) where
  pub bits-const_from : (k i v n : ℕ) → bits ρ (const_from k i v n).0 ≡ bits_from k i v
  unfolding const_from
  bits-const_from zero i v n = refl
  bits-const_from (suc k) i v n = ap₂ ◌∷◌ (eval-const_sig ρ _ n) (bits-const_from k (suc i) v _)

  pub bits-inc_loop :
      (a : Bv) (c : Sig) (n : ℕ) → bits ρ (inc_loop a c n).0 ≡ inc_bits (bits ρ a) (eval ρ c)
  unfolding inc_loop
  bits-inc_loop [] c n = refl
  bits-inc_loop (b ∷ bs) c n = simp (bits-inc_loop bs, eval-xor_sig, eval-and_sig) (ground arith)

  pub bits-dec_loop :
      (a : Bv) (c : Sig) (n : ℕ) → bits ρ (dec_loop a c n).0 ≡ dec_bits (bits ρ a) (eval ρ c)
  unfolding dec_loop
  bits-dec_loop [] c n = refl
  bits-dec_loop (b ∷ bs) c n =
      simp (bits-dec_loop bs, eval-xor_sig, eval-and_sig, eval-not_sig) (ground arith)

  pub bits-add_loop :
      (a b : Bv) (c : Sig) (n : ℕ)
      → bits ρ (add_loop a b c n).0 ≡ add_bits (bits ρ a) (bits ρ b) (eval ρ c)
  unfolding add_loop
  bits-add_loop [] b c n = refl
  bits-add_loop (x ∷ xs) [] c n = refl
  bits-add_loop (x ∷ xs) (y ∷ ys) c n =
      simp (bits-add_loop xs ys, eval-xor_sig, eval-and_sig, eval-or_sig) (ground arith)

  -- A node that means `g` of its argument, at every element.
  pub bits-map_build :
      (f : Sig → Build Sig) (g : Bool → Bool)
      → ((x : Sig) (n : ℕ) → eval ρ (f x n).0 ≡ g (eval ρ x))
      → (xs : List Sig) (n : ℕ) → bits ρ (map_build f xs n).0 ≡ map g (bits ρ xs)
  unfolding map_build
  bits-map_build f g h [] n = refl
  bits-map_build f g h (x ∷ xs) n = ap₂ ◌∷◌ (h x n) (bits-map_build f g h xs _)

  pub bits-zip_build :
      (f : Sig → Sig → Build Sig) (g : Bool → Bool → Bool)
      → ((x y : Sig) (n : ℕ) → eval ρ (f x y n).0 ≡ g (eval ρ x) (eval ρ y))
      → (xs ys : List Sig) (n : ℕ)
      → bits ρ (zip_build f xs ys n).0 ≡ zip_with g (bits ρ xs) (bits ρ ys)
  unfolding zip_build
  bits-zip_build f g h [] ys n = refl
  bits-zip_build f g h (x ∷ xs) [] n = refl
  bits-zip_build f g h (x ∷ xs) (y ∷ ys) n = ap₂ ◌∷◌ (h x y n) (bits-zip_build f g h xs ys _)
