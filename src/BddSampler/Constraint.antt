-- ===== src/BddSampler/Constraint.antt =====
-- build_bdd.py: `predicate`, ORDER and `fields`, the constraint on a 12-bit transaction.
use emergent_hardware_verifi.Prelude.{
  ◌∙◌, ◌↔◌, sym, refl, arith, ap, ◌^◌, ◌≤◌, ◌≡◌, ◌∷◌, ℕ, ◌||◌, true, flip, false, if◌then◌else◌, [],
  List, Bool, ◌==◌, ◌<◌, ◌/◌, ◌+◌, ◌*◌, ◌&&◌, ◌%◌,
}
use emergent_hardware_verifi.Prelude.Bits.{bit_at, bit}

-- The tests of `predicate` on the bits of `idx`, in the source's order.
unfoldable pub predicate : ℕ → Bool
predicate idx =
    let addr0 = bit_at idx 0 in
    let addr1 = bit_at idx 1 in
    let addr7 = bit_at idx 7 in
    let kind = bit_at idx 8 in
    let prio_msb = bit_at idx 11 in
    let prioval = bit (bit_at idx 9) + 2 * bit (bit_at idx 10) + 4 * bit (bit_at idx 11) in
    if addr0 || addr1
    then false
    else if kind && addr7
    then false
    else if prioval == 0
    then false
    else if flip kind && prio_msb
    then false
    else true

abbrev pub source_order : List ℕ
source_order = 8 ∷ 0 ∷ 1 ∷ 7 ∷ 11 ∷ 9 ∷ 10 ∷ 2 ∷ 3 ∷ 4 ∷ 5 ∷ 6 ∷ []

-- `fields(idx)`: `idx & 0xFF`, `(idx >> 8) & 1`, `(idx >> 9) & 7`.
pub record Fields : Type 0 where
  pub addr : ℕ
  pub kind : ℕ
  pub prio : ℕ

unfoldable pub fields : ℕ → Fields
fields idx = record { addr = idx % 256; kind = idx / 256 % 2; prio = idx / 512 % 8 }

-- The transactions that the constraint allows: an aligned address, in the low half for a write, and a
-- priority that is not 0, and at most 3 for a read.
pub record IsLegal (t : Fields) : Type 0 where
  pub aligned : t.addr % 4 ≡ 0
  pub low_half : t.kind ≡ 1 → t.addr < 128
  pub has_prio : 0 < t.prio
  pub low_prio : t.kind ≡ 0 → t.prio ≤ 3

as_bit : (a : ℕ) → bit (a % 2 == 1) ≡ a % 2
as_bit a = ground arith

bit_value : (idx i p : ℕ) → 2 ^ i ≡ p → bit (bit_at idx i) ≡ idx / p % 2
bit_value idx i p e = ap (λ m. bit (idx / m % 2 == 1)) e ∙ as_bit (idx / p)

-- The parts of a transaction as its bits.
kind_bit : (idx : ℕ) → idx / 256 % 2 ≡ bit (bit_at idx 8)
kind_bit idx = sym (bit_value idx 8 256 refl)

prio_bits :
    (idx : ℕ)
    → idx / 512 % 8 ≡ bit (bit_at idx 9) + 2 * bit (bit_at idx 10) + 4 * bit (bit_at idx 11)
prio_bits idx =
    omega (arith, bit_value idx 9 512 refl, bit_value idx 10 1024 refl, bit_value idx 11 2048 refl)

aligned_bits : (idx : ℕ) → idx % 256 % 4 ≡ bit (bit_at idx 0) + 2 * bit (bit_at idx 1)
aligned_bits idx = omega (arith, bit_value idx 0 1 refl, bit_value idx 1 2 refl)

half_bit : (idx : ℕ) → idx % 256 / 128 ≡ bit (bit_at idx 7)
half_bit idx = omega (arith, bit_value idx 7 128 refl)

-- The tests on their own.
abbrev tests : Bool → Bool → Bool → Bool → Bool → Bool → Bool → Bool
tests a0 a1 a7 k p9 p10 p11 =
    if a0 || a1
    then false
    else if k && a7
    then false
    else if bit p9 + 2 * bit p10 + 4 * bit p11 == 0
    then false
    else if flip k && p11
    then false
    else true

tests-IsLegal :
    (a0 a1 a7 k p9 p10 p11 : Bool) (addr kind prio : ℕ)
    → addr % 4 ≡ bit a0 + 2 * bit a1
    → addr / 128 ≡ bit a7
    → kind ≡ bit k
    → prio ≡ bit p9 + 2 * bit p10 + 4 * bit p11
    → tests a0 a1 a7 k p9 p10 p11 ≡ true
    → IsLegal (record { addr = addr; kind = kind; prio = prio })
tests-IsLegal a0 a1 a7 k p9 p10 p11 addr kind prio ea eh ek ep h = record {
  aligned = ground arith;
  low_half = λ w. ground arith;
  has_prio = ground arith;
  low_prio = λ w. ground arith;
}

IsLegal-tests :
    (a0 a1 a7 k p9 p10 p11 : Bool) (addr kind prio : ℕ)
    → addr % 4 ≡ bit a0 + 2 * bit a1
    → addr / 128 ≡ bit a7
    → kind ≡ bit k
    → prio ≡ bit p9 + 2 * bit p10 + 4 * bit p11
    → IsLegal (record { addr = addr; kind = kind; prio = prio })
    → tests a0 a1 a7 k p9 p10 p11 ≡ true
IsLegal-tests a0 a1 a7 k p9 p10 p11 addr kind prio ea eh ek ep h =
    let aligned = h.aligned in
    let has_prio = h.has_prio in
    let low_half = h.low_half in let low_prio = h.low_prio in ground arith

-- predicate holds of a number exactly if its fields are a legal transaction: the address is a
-- multiple of 4 and for a write under 128, and the priority is not 0 and for a read at most 3.
pub predicate-IsLegal : (idx : ℕ) → (predicate idx ≡ true) ↔ IsLegal (fields idx)
unfolding predicate fields
predicate-IsLegal idx = (
  tests-IsLegal (bit_at idx 0) (bit_at idx 1) (bit_at idx 7) (bit_at idx 8) (bit_at idx 9)
      (bit_at idx 10) (bit_at idx 11) (idx % 256) (idx / 256 % 2) (idx / 512 % 8) (aligned_bits idx)
      (half_bit idx) (kind_bit idx) (prio_bits idx),
  IsLegal-tests (bit_at idx 0) (bit_at idx 1) (bit_at idx 7) (bit_at idx 8) (bit_at idx 9)
      (bit_at idx 10) (bit_at idx 11) (idx % 256) (idx / 256 % 2) (idx / 512 % 8) (aligned_bits idx)
      (half_bit idx) (kind_bit idx) (prio_bits idx),
)
