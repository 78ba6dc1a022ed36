-- ===== src/MulSampler/Lfsr.antt =====
-- The shift register of the first operand never reaches 0 and stays within 16 bits.
use emergent_hardware_verifi.MulSampler.{bit_xor, step, xor_bits}
use emergent_hardware_verifi.Prelude.{
  inr, inl, Bool-cases, ◌==◌, ◌+◌, ◌%◌, ◌≤◌, ◌≡◌, ℕ, zero, suc, arith, ◌^◌, ◌<◌, ◌/◌,
}

xor_bits-zero : (f a : ℕ) → a ≤ f → xor_bits f a 0 ≡ a
unfolding xor_bits
xor_bits-zero zero a h = omega (arith, h)
xor_bits-zero (suc f) a h =
    let ih = xor_bits-zero f (a / 2) (omega (arith, h)) in ground (arith, ih)

xor_bits-lt : (w f a b : ℕ) → a < 2 ^ w → b < 2 ^ w → xor_bits f a b < 2 ^ w
unfolding xor_bits
xor_bits-lt w zero a b ha hb = omega (arith, ha)
xor_bits-lt zero (suc f) a b ha hb =
    let ih = xor_bits-lt zero f (a / 2) (b / 2) (omega (arith, ha)) (omega (arith, hb)) in
    ground (arith, ih, ha, hb)
xor_bits-lt (suc w) (suc f) a b ha hb =
    let ih = xor_bits-lt w f (a / 2) (b / 2) (omega (arith, ha)) (omega (arith, hb)) in
    ground (arith, ih)

-- The top bit that only the second number has stays.
xor_bits-top :
    (w f a b : ℕ) → w < f → a < 2 ^ w → 2 ^ w ≤ b → b < 2 ^ w + 2 ^ w → 2 ^ w ≤ xor_bits f a b
unfolding xor_bits
xor_bits-top w zero a b hf ha hb hc = absurd (omega (arith, hf))
xor_bits-top zero (suc f) a b hf ha hb hc =
    let az : a ≡ 0 = omega (arith, ha) in
    let bo : b ≡ 1 = omega (arith, hb, hc) in rw (az, bo) (omega arith)
xor_bits-top (suc w) (suc f) a b hf ha hb hc =
    let ih =
      xor_bits-top w f (a / 2) (b / 2) (omega (arith, hf)) (omega (arith, ha)) (omega (arith, hb))
        (omega (arith, hc)) in
    ground (arith, ih)

-- A number of 16 bits that is not 0.
abbrev pub IsSeed : ℕ → Type 0
IsSeed s = (0 < s) × (s < 65536)

pub step-IsSeed : (s taps : ℕ) → 32768 ≤ taps → taps < 65536 → IsSeed s → IsSeed (step s taps)
unfolding step
step-IsSeed s taps lo hi h = elim (Bool-cases (s % 2 == 1)) [
  | inl odd ↦ rw odd (
    xor_pos s taps h lo hi,
    xor_bits-lt 16 (s / 2 + taps) (s / 2) taps (omega (arith, h.1)) (omega (arith, hi)),
  )
  | inr even ↦
      let same = xor_bits-zero (s / 2 + 0) (s / 2) (omega arith) in
      let not_one : s % 2 ≡ 0 = ground (arith, even) in
      rw (even, same) (omega (arith, h.0, not_one), omega (arith, h.1))
]
  where
    xor_pos : (s taps : ℕ) → IsSeed s → 32768 ≤ taps → taps < 65536 → 0 < bit_xor (s / 2) taps
    xor_pos s taps h lo hi =
        let top =
          xor_bits-top 15 (s / 2 + taps) (s / 2) taps (omega (arith, lo)) (omega (arith, h.1))
            (omega (arith, lo)) (omega (arith, hi)) in
        omega (arith, top)
