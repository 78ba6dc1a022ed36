-- ===== src/MulSampler/Clean.antt =====
-- The checker of the sampler never finds a violation.
use native.Mathlib.Nat.{mul-le-mul_left, mul-div-le, mod-lt}
use emergent_hardware_verifi.MulSampler.{
  taps_b, taps_a, step, seed_b, seed_a, run, rounds, record_round, limit, draw, bump, bound_b,
  Tally,
}
use emergent_hardware_verifi.MulSampler.Lfsr.{step-IsSeed, IsSeed}
use emergent_hardware_verifi.Prelude.{
  ◌≤◌, ◌≡◌, ◌∷◌, ◌∙◌, ℕ, zero, suc, some, replicate, refl, length, leb, if◌then◌else◌, arith, ap,
  ◌^◌, [], List, ◌<◌, ◌/◌, ◌-◌, ◌++◌, ◌+◌, ◌*◌,
}

abbrev pub total : List ℕ → ℕ
total [] = 0
total (x ∷ xs) = x + total xs

bump-total :
    (i : ℕ) (xs : List ℕ)
    → i < length xs
    → (ys : List ℕ) × (bump i xs ≡ some ys) × (length ys ≡ length xs) × (total ys ≡ suc (total xs))
unfolding bump
bump-total i [] h = absurd (omega (arith, h))
bump-total zero (x ∷ xs) h = ((x + 1) ∷ xs, refl, refl, omega arith)
bump-total (suc i) (x ∷ xs) h =
    let (ys, e, l, s) = bump-total i xs (omega (arith, h)) in
    (x ∷ ys, rw (e, bump) refl, ap suc l, omega (arith, s))

bound_b-le : (a : ℕ) → bound_b a ≤ (limit - 1) / a
unfolding bound_b
bound_b-le a = ground arith

draw-le-bound_b : (a b : ℕ) → draw a b ≤ bound_b a
unfolding draw
draw-le-bound_b a b =
    let inside = mod-lt b {m = bound_b a + 1} (omega arith) in omega (arith, inside)

-- The bound by division keeps the product below the limit.
draw-lt : (a b : ℕ) → a * draw a b < limit
draw-lt a b =
    let le_q : draw a b ≤ (limit - 1) / a = omega (arith, draw-le-bound_b a b, bound_b-le a) in
    let product : a * draw a b ≤ a * ((limit - 1) / a) = mul-le-mul_left a le_q in
    let below = mul-div-le (limit - 1) a in omega (arith, product, below)

-- What holds of the state of the loop.
pub record IsClean (n : ℕ) (t : Tally) : Type 0 where
  pub no_violation : t.viol ≡ 0
  pub eight : length t.buckets ≡ 8
  pub counted : total t.buckets ≡ n

record_round-IsClean :
    (n i a b : ℕ) (t : Tally)
    → IsSeed a
    → IsClean n t
    → (t' : Tally) × (record_round i a b t ≡ some t') × IsClean (suc n) t'
unfolding record_round
record_round-IsClean n i zero b t s c = absurd (omega (arith, s.0))
record_round-IsClean n i (suc a') b t s c =
    let a = suc a' in
    let (bs, e, l, total') = bump-total (a / 2 ^ 13) t.buckets (omega (arith, s.1, c.eight)) in
    let fine = draw-lt a b in
    (
      record {
        viol = if leb limit (a * draw a b) then t.viol + 1 else t.viol;
        first = if leb 20 i then t.first else t.first ++ (a, draw a b) ∷ [];
        buckets = bs;
      },
      rw (e, record_round) refl,
      record {
        no_violation = ground (arith, fine, c.no_violation);
        eight = l ∙ c.eight;
        counted = total' ∙ ap suc c.counted;
      },
    )

zero_plus : (m : ℕ) → 0 + m ≡ m
zero_plus m = omega arith

plus_zero : (m : ℕ) → m + 0 ≡ m
plus_zero m = omega arith

rounds-IsClean :
    (n m i a b : ℕ) (t : Tally)
    → IsSeed a
    → IsClean m t
    → (t' : Tally) × (rounds n i a b t ≡ some t') × IsClean (n + m) t'
unfolding rounds
rounds-IsClean zero m i a b t s c = (t, refl, rw (zero_plus m) c)
rounds-IsClean (suc n) m i a b t s c =
    let (t', e, c') = record_round-IsClean m i a b t s c in
    let s' = step-IsSeed a taps_a (omega arith) (omega arith) s in
    let (t'', e', c'') =
      rounds-IsClean n (suc m) (i + 1) (step a taps_a) (step b taps_b) t' s' c' in
    (t'', rw (e, rounds) e', rw (← moved n m) at c'')
  where
    moved : (n m : ℕ) → suc n + m ≡ n + suc m
    moved n m = omega arith

-- The sampler runs for any number of rounds without a division by zero or a bucket out of range;
-- the checker counts no violation of A * B < LIMIT, and each round is counted in one of the eight
-- buckets.
pub run-IsClean : (n : ℕ) → (t : Tally) × (run n ≡ some t) × IsClean n t
unfolding run
run-IsClean n =
    let start : Tally = record { viol = 0; first = []; buckets = replicate 8 0 } in
    let (t, e, c) =
      rounds-IsClean n 0 0 seed_a seed_b start (omega arith, omega arith)
        (record { no_violation = refl; eight = refl; counted = refl }) in
    (t, e, rw (plus_zero n) at c)
