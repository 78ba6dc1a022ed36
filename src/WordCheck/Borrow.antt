-- ===== src/WordCheck/Borrow.antt =====
-- word.py, `_ucmp`: the borrow of a subtraction orders the numbers.
use emergent_hardware_verifi.Prelude.{
  true, ◌==◌, ◌≡◌, ◌∷◌, ◌∙◌, ℕ, ◌||◌, xor_bool, some, refl, none, ltb, length, leb, flip, arith,
  ap₂, ap, [], Option, Bool, ◌+◌, ◌*◌, ◌&&◌,
}
use Prim.Native.Nat.{max}
use emergent_hardware_verifi.WordCheck.Blaster.{ucmp, borrow_loop, greater}
use emergent_hardware_verifi.WordCheck.{Kind, k_ult, k_ule, k_ugt, k_uge}
use emergent_hardware_verifi.Circuit.Sig.{Sig, not_sig, and_sig, xor_sig, or_sig, false_sig}
use emergent_hardware_verifi.Circuit.Word.{bv_eq, Bv, width, pad}
use emergent_hardware_verifi.Circuit.Word.Loops.{bits}
use emergent_hardware_verifi.Circuit.Word.Value.{val, val-pad, length-pad}
use emergent_hardware_verifi.Circuit.Word.Compare.{eval-bv_eq}
use emergent_hardware_verifi.Circuit.Meaning.{
  Valuation, eval, eval-not_sig, eval-and_sig, eval-xor_sig, eval-or_sig,
}
use emergent_hardware_verifi.Prelude.Bits.{bit, value}

-- One place of the subtraction.
borrow_place :
    (x y c : Bool) (m n : ℕ)
    → ltb m (n + bit ((flip x && y) || (c && flip (xor_bool x y))))
      ≡ ltb (bit x + 2 * m) (bit y + 2 * n + bit c)
borrow_place x y c m n = ground arith

strictly_above : (m n : ℕ) → (flip (ltb m n) && (flip (m == n) && true)) ≡ ltb n m
strictly_above m n = ground arith

module _ (ρ : Valuation) where
  eval-borrow_loop :
      (xs ys : Bv) (c : Sig) (n : ℕ)
      → length xs ≡ length ys
      → eval ρ (borrow_loop xs ys c n).0
        ≡ ltb (value (bits ρ xs)) (value (bits ρ ys) + bit (eval ρ c))
  unfolding borrow_loop
  eval-borrow_loop [] [] c n h = ground arith
  eval-borrow_loop [] (y ∷ ys) c n h = absurd (omega arith)
  eval-borrow_loop (x ∷ xs) [] c n h = absurd (omega arith)
  eval-borrow_loop (x ∷ xs) (y ∷ ys) c n h =
      let (nx, n1) = not_sig x n in
      let (below, n2) = and_sig (nx ∷ y ∷ []) n1 in
      let (differ, n3) = xor_sig x y n2 in
      let (same, n4) = not_sig differ n3 in
      let (through, n5) = and_sig (c ∷ same ∷ []) n4 in
      let (b, n6) = or_sig (below ∷ through ∷ []) n5 in
      let means : eval ρ b
          ≡ ((flip (eval ρ x) && eval ρ y) || (eval ρ c && flip (xor_bool (eval ρ x) (eval ρ y)))) =
        simp (eval-or_sig, eval-and_sig, eval-not_sig, eval-xor_sig) (ground arith) in
      eval-borrow_loop xs ys b n6 (omega arith)
      ∙ ap (λ t. ltb (value (bits ρ xs)) (value (bits ρ ys) + bit t)) means
      ∙ borrow_place (eval ρ x) (eval ρ y) (eval ρ c) (value (bits ρ xs)) (value (bits ρ ys))

  -- The chain over two words, each padded to the width of the wider one.
  eval-borrow :
      (a b : Bv) (n : ℕ)
      → eval ρ
          (borrow_loop
            (pad (max (width a) (width b)) a)
            (pad (max (width a) (width b)) b)
            false_sig
            n).0
        ≡ ltb (val ρ a) (val ρ b)
  unfolding eval
  eval-borrow a b n =
      let w = max (width a) (width b) in
      let long : length (pad w a) ≡ length (pad w b) =
        omega (arith, length-pad w a, length-pad w b) in
      let none_in : val ρ (pad w b) + 0 ≡ val ρ b = omega (arith, val-pad ρ w b) in
      eval-borrow_loop (pad w a) (pad w b) false_sig n long
      ∙ ap₂ (λ x y. ltb x y) (val-pad ρ w a) none_in

  eval-greater :
      (lt : Sig) (a b : Bv) (n : ℕ)
      → eval ρ lt ≡ ltb (val ρ a) (val ρ b)
      → eval ρ (greater lt a b n).0 ≡ ltb (val ρ b) (val ρ a)
  unfolding greater
  eval-greater lt a b n h =
      let (not_lt, n1) = not_sig lt n in
      let (same, n2) = bv_eq a b n1 in
      let (differ, n3) = not_sig same n2 in
      let not_below : eval ρ not_lt ≡ flip (ltb (val ρ a) (val ρ b)) =
        eval-not_sig ρ lt n ∙ ap flip h in
      let apart_val : eval ρ differ ≡ flip (val ρ a == val ρ b) =
        eval-not_sig ρ same n2 ∙ ap flip (eval-bv_eq ρ a b n1) in
      eval-and_sig ρ (not_lt ∷ differ ∷ []) n3
      ∙ ap₂ (λ p q. p && (q && true)) not_below apart_val
      ∙ strictly_above (val ρ a) (val ρ b)

-- The order that a comparison asks for.
abbrev pub order_test : Kind → ℕ → ℕ → Option Bool
order_test k_ult m n = some (ltb m n)
order_test k_ule m n = some (leb m n)
order_test k_ugt m n = some (ltb n m)
order_test k_uge m n = some (leb n m)
order_test k m n = none

-- A node that means the comparison of the two numbers.
abbrev pub Compares : Valuation → Bv → Bv → Option (Sig × ℕ) → Option Bool → Type 0
Compares ρ a b r none = r ≡ none
Compares ρ a b r (some t) = (sig : Sig) × (n : ℕ) × (r ≡ some (sig, n)) × (eval ρ sig ≡ t)

-- For words of any widths, _ucmp of ult, ule, ugt and uge creates a node that means, under every
-- valuation, that the number of the first word is less than, at most, greater than, or at least
-- that of the second; of any other kind it has no result.
pub ucmp-Compares :
    (ρ : Valuation) (k : Kind) (a b : Bv) (n : ℕ)
    → Compares ρ a b (ucmp k a b n) (order_test k (val ρ a) (val ρ b))
unfolding ucmp
ucmp-Compares ρ k a b n =
    let w = max (width a) (width b) in
    let (lt, n1) = borrow_loop (pad w a) (pad w b) false_sig n in
    let below : eval ρ lt ≡ ltb (val ρ a) (val ρ b) = eval-borrow ρ a b n in
    let (gt, n2) = greater lt a b n1 in
    let above : eval ρ gt ≡ ltb (val ρ b) (val ρ a) = eval-greater ρ lt a b n1 below in
    elim k as (λ k. Compares ρ a b (ucmp k a b n) (order_test k (val ρ a) (val ρ b))) [
      | k_ult ↦ (lt, n1, refl, below)
      | k_uge ↦ (
        (not_sig lt n1).0,
        (not_sig lt n1).1,
        refl,
        eval-not_sig ρ lt n1 ∙ ap flip below ∙ ground arith,
      )
      | k_ugt ↦ (gt, n2, refl, above)
      | k_ule ↦ (
        (not_sig gt n2).0,
        (not_sig gt n2).1,
        refl,
        eval-not_sig ρ gt n2 ∙ ap flip above ∙ ground arith,
      )
      | _ ↦ refl
    ]
