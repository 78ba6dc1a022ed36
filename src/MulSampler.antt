-- ===== src/MulSampler.antt =====
-- tier2_mul/ref.py: the constructive sampler for A * B < LIMIT.
pub mod Lfsr
pub mod Clean
mod Tests
-- Python's `^` on natural numbers, bit by bit; no number has more bits than its value.
use emergent_hardware_verifi.Prelude.{
  ◌∷◌, ℕ, zero, suc, some, replicate, none, leb, if◌then◌else◌, ◌^◌, [], Option, List, ◌==◌, ◌/◌,
  ◌-◌, ◌++◌, ◌+◌, ◌*◌, ◌%◌,
}

unfoldable pub xor_bits : ℕ → ℕ → ℕ → ℕ
xor_bits zero a b = 0
xor_bits (suc f) a b =
    let rest = xor_bits f (a / 2) (b / 2) in (if a % 2 == b % 2 then 0 else 1) + 2 * rest

abbrev pub bit_xor : ℕ → ℕ → ℕ
bit_xor a b = xor_bits (a + b) a b

abbrev pub limit : ℕ
limit = 2 ^ 24

abbrev pub bmax : ℕ
bmax = 65535

abbrev pub taps_a : ℕ
taps_a = 46080

abbrev pub taps_b : ℕ
taps_b = 32790

abbrev pub seed_a : ℕ
seed_a = 44257

abbrev pub seed_b : ℕ
seed_b = 4660

unfoldable pub step : ℕ → ℕ → ℕ
unfolding xor_bits
step s taps = bit_xor (s / 2) (if s % 2 == 1 then taps else 0)

-- `buckets[i] += 1`, or an IndexError.
unfoldable pub bump : ℕ → List ℕ → Option (List ℕ)
bump i [] = none
bump zero (x ∷ xs) = some ((x + 1) ∷ xs)
bump (suc i) (x ∷ xs) = elim (bump i xs) [ none ↦ none | some ys ↦ some (x ∷ ys) ]

-- `bound_b = BMAX if q > BMAX else q` for `q = (LIMIT - 1) // A`.
unfoldable pub bound_b : ℕ → ℕ
bound_b a = let q = (limit - 1) / a in if leb q bmax then q else bmax

unfoldable pub draw : ℕ → ℕ → ℕ
unfolding bound_b
draw a b = b % (bound_b a + 1)

pub record Tally : Type 0 where
  pub viol : ℕ
  pub first : List (ℕ × ℕ)
  pub buckets : List ℕ

-- What one round records; a division by 0 or an index out of range is `none`.
unfoldable pub record_round : ℕ → ℕ → ℕ → Tally → Option Tally
unfolding draw bump
record_round i zero b t = none
record_round i (suc a') b t =
    let a = suc a' in
    elim (bump (a / 2 ^ 13) t.buckets) [
      | none ↦ none
      | some bs ↦ some (record {
        viol = if leb limit (a * draw a b) then t.viol + 1 else t.viol;
        first = if leb 20 i then t.first else t.first ++ (a, draw a b) ∷ [];
        buckets = bs;
      })
    ]

-- The loop with `n` rounds left, at round `i`.
unfoldable pub rounds : ℕ → ℕ → ℕ → ℕ → Tally → Option Tally
unfolding record_round step
rounds zero i a b t = some t
rounds (suc n) i a b t = elim (record_round i a b t) [
  | none ↦ none
  | some t' ↦ rounds n (i + 1) (step a taps_a) (step b taps_b) t'
]

unfoldable pub run : ℕ → Option Tally
unfolding rounds
run n = rounds n 0 seed_a seed_b (record { viol = 0; first = []; buckets = replicate 8 0 })
