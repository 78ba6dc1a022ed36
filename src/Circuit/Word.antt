-- ===== src/Circuit/Word.antt =====
-- circuit.py, `class BV` and the word operations bv_const, bv_eq, bv_eq_const, bv_ge_const, bv_ite,
-- bv_inc, bv_dec, bv_add, bv_mul and bv_sub.
pub mod Loops
pub mod Value
pub mod Arith
pub mod Multiply
pub mod Compare
use Prim.Native.Nat.{max}
use emergent_hardware_verifi.Prelude.{
  ℕ, zero, suc, ◌+◌, ◌-◌, ◌^◌, Bool, Option, none, some, List, [], ◌∷◌, ◌++◌, length, take,
  replicate,
}
use emergent_hardware_verifi.Prelude.Bits.{bit_at}
use emergent_hardware_verifi.Circuit.Sig.{
  Sig, Build, pure, ◌>>=◌, const_sig, true_sig, false_sig, not_sig, and_sig, or_sig, xor_sig,
  xnor_sig, ite_sig,
}

-- `BV.bits`, least significant first.
abbrev pub Bv : Type 0
Bv = List Sig

abbrev pub width : Bv → ℕ
width a = length a

-- `a.bits + [FALSE] * (w - a.width)`
abbrev pub pad : ℕ → Bv → Bv
pad w a = a ++ replicate (w - width a) false_sig

-- `[f(x) for x in xs]` and `[f(x, y) for x, y in zip(xs, ys)]`, where `f` may create nodes.
unfoldable pub map_build : (Sig → Build Sig) → List Sig → Build (List Sig)
map_build f [] = pure []
map_build f (x ∷ xs) = do y ← f x; ys ← map_build f xs; pure (y ∷ ys)

unfoldable pub zip_build : (Sig → Sig → Build Sig) → List Sig → List Sig → Build (List Sig)
zip_build f (x ∷ xs) (y ∷ ys) = do z ← f x y; zs ← zip_build f xs ys; pure (z ∷ zs)
zip_build f [] _ = pure []
zip_build f (x ∷ xs) [] = pure []

-- The bits of `v` at the places `i, i + 1, …`, of which there are `k`.
unfoldable pub const_from : ℕ → ℕ → ℕ → Build Bv
const_from zero i v = pure []
const_from (suc k) i v = do b ← const_sig (bit_at v i); bs ← const_from k (suc i) v; pure (b ∷ bs)

unfoldable pub bv_const : ℕ → ℕ → Build Bv
unfolding const_from
bv_const v w = const_from w 0 v

unfoldable pub bv_eq : Bv → Bv → Build Sig
unfolding zip_build
bv_eq a b =
    let w = max (width a) (width b) in
    do same ← zip_build xnor_sig (pad w a) (pad w b); and_sig same

unfoldable pub bv_eq_const : Bv → ℕ → Build Sig
unfolding bv_const bv_eq
bv_eq_const a k = do c ← bv_const k (width a); bv_eq a c

-- `[AND(bv_eq_const(a, v)) for v in range(v, v + n)]`
unfoldable pub eq_consts : Bv → ℕ → ℕ → Build (List Sig)
unfolding bv_eq_const
eq_consts a zero v = pure []
eq_consts a (suc n) v = do
  e ← bv_eq_const a v
  x ← and_sig (e ∷ [])
  xs ← eq_consts a n (suc v)
  pure (x ∷ xs)

-- `range(k, 1 << a.width)` is empty where it starts at or past its end.
unfoldable pub bv_ge_const : Bv → ℕ → Build Sig
unfolding eq_consts
bv_ge_const a k = do xs ← eq_consts a (2 ^ width a - k) k; or_sig xs

unfoldable pub bv_ite : Sig → Bv → Bv → Build Bv
unfolding zip_build
bv_ite c a b = let w = max (width a) (width b) in zip_build (ite_sig c) (pad w a) (pad w b)

-- The loop of bv_inc, with its carry.
unfoldable pub inc_loop : Bv → Sig → Build Bv
inc_loop [] carry = pure []
inc_loop (b ∷ bs) carry = do
  s ← xor_sig b carry
  c ← and_sig (b ∷ carry ∷ [])
  out ← inc_loop bs c
  pure (s ∷ out)

unfoldable pub bv_inc : Bv → Build Bv
unfolding inc_loop
bv_inc a = inc_loop a true_sig

-- The loop of bv_dec, with its borrow.
unfoldable pub dec_loop : Bv → Sig → Build Bv
dec_loop [] borrow = pure []
dec_loop (b ∷ bs) borrow = do
  s ← xor_sig b borrow
  nb ← not_sig b
  c ← and_sig (nb ∷ borrow ∷ [])
  out ← dec_loop bs c
  pure (s ∷ out)

unfoldable pub bv_dec : Bv → Build Bv
unfolding dec_loop
bv_dec a = dec_loop a true_sig

-- The loop of bv_add, with its carry.
unfoldable pub add_loop : Bv → Bv → Sig → Build Bv
add_loop (x ∷ xs) (y ∷ ys) carry = do
  t ← xor_sig x y
  s ← xor_sig t carry
  both ← and_sig (x ∷ y ∷ [])
  u ← xor_sig x y
  through ← and_sig (carry ∷ u ∷ [])
  c ← or_sig (both ∷ through ∷ [])
  out ← add_loop xs ys c
  pure (s ∷ out)
add_loop [] _ carry = pure []
add_loop (x ∷ xs) [] carry = pure []

-- `width or max(a.width, b.width)`: a width that is absent or 0 leaves the choice to the operands.
unfoldable pub chosen_width : Option ℕ → Bv → Bv → ℕ
chosen_width none a b = max (width a) (width b)
chosen_width (some zero) a b = max (width a) (width b)
chosen_width (some (suc w)) a b = suc w

unfoldable pub bv_add : Bv → Bv → Option ℕ → Build Bv
unfolding add_loop chosen_width
bv_add a b given =
    let w = chosen_width given a b in add_loop (take w (pad w a)) (take w (pad w b)) false_sig

-- The loop of bv_mul from bit `i` of `b` on.
unfoldable pub mul_loop : ℕ → Bv → Bv → ℕ → Bv → Build Bv
unfolding bv_add map_build
mul_loop w a [] i acc = pure acc
mul_loop w a (b ∷ bs) i acc = do
  row ← map_build (λ x. and_sig (b ∷ x ∷ [])) (take (w - i) a)
  sum ← bv_add acc (replicate i false_sig ++ row) (some w)
  mul_loop w a bs (suc i) sum

unfoldable pub bv_mul : Bv → Bv → Option ℕ → Build Bv
unfolding mul_loop chosen_width
bv_mul a b given =
    let w = chosen_width given a b in mul_loop w a (take w b) 0 (replicate w false_sig)

unfoldable pub bv_sub : Bv → Bv → Option ℕ → Build Bv
unfolding bv_add bv_inc map_build chosen_width
bv_sub a b given =
    let w = chosen_width given a b in
    do
      flipped ← map_build not_sig (take w (pad w b))
      neg_b ← bv_inc flipped
      bv_add a neg_b (some w)
