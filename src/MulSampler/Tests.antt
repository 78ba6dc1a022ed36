-- ===== src/MulSampler/Tests.antt =====
-- Three rounds of the sampler.
use emergent_hardware_verifi.MulSampler.{
  xor_bits, step, run, rounds, record_round, draw, bump, bound_b, Tally,
}
use emergent_hardware_verifi.Prelude.{◌≡◌, ◌∷◌, ℕ, some, refl, none, [], Option, List}
use emergent_hardware_verifi.MulSampler.Clean.{run-IsClean, IsClean}

abbrev answers : Option Tally → Option (ℕ × List ℕ)
answers none = none
answers (some t) = some (t.viol, t.buckets)

runs_three_rounds : answers (run 3) ≡ some (0, 0 ∷ 0 ∷ 0 ∷ 1 ∷ 0 ∷ 1 ∷ 0 ∷ 1 ∷ [])
unfolding run rounds record_round step xor_bits bump draw bound_b
runs_three_rounds = refl

run-IsClean_example : (t : Tally) × (run 3 ≡ some t) × IsClean 3 t
run-IsClean_example = run-IsClean 3
