-- ===== src/BddSampler/Compile.antt =====
-- build_bdd.py: the build of the tables, ROOT and NSOL.
use mathlib.Core.Option.{get_or}
use emergent_hardware_verifi.BddSampler.Ranks.{rank, ones}
use emergent_hardware_verifi.BddSampler.Build.{
  count_of-Represents, build-Built, Represents, IsRight, HasTerminals, Built, AllRight,
}
use emergent_hardware_verifi.Prelude.{
  ◌≡◌, ◌∙◌, ℕ, sym, some, refl, map, length, arith, ap, ◌^◌, List, Bool,
}
use emergent_hardware_verifi.Prelude.Bits.{bit_at}
use emergent_hardware_verifi.BddSampler.{
  count_of, compile, Sampler, root_mask, place, nsol, initial, build,
}
use emergent_hardware_verifi.BddSampler.Masks.{bit_at-collect, ones_below, ones_below-same}

-- The number of assignments, in the order of the levels, that satisfy the constraint.
abbrev pub solutions : (ℕ → Bool) → List ℕ → ℕ
solutions predicate order = ones_below (λ s. predicate (place order 0 s)) (2 ^ length order)

-- The number of solutions before an assignment, when ORDER[0] counts most.
abbrev pub rank_of : (ℕ → Bool) → List ℕ → ℕ → ℕ
rank_of predicate order idx = rank (map (bit_at idx) order) (root_mask predicate order)

pub ones-root :
    (predicate : ℕ → Bool) (order : List ℕ)
    → ones (length order) (root_mask predicate order) ≡ solutions predicate order
unfolding ones root_mask
ones-root predicate order =
    ones_below-same (bit_at (root_mask predicate order)) (λ s. predicate (place order 0 s))
      (2 ^ length order)
      (λ s h. bit_at-collect (λ t. predicate (place order 0 t)) (2 ^ length order) s h)

-- What the tables are after the build.
pub record Compiled (predicate : ℕ → Bool) (order : List ℕ) : Type 0 where
  pub sampler : Sampler
  pub result : compile predicate order ≡ some sampler
  pub same_order : sampler.order ≡ order
  pub terminals : HasTerminals sampler.nodes
  pub right : Represents sampler.nodes (length order) sampler.root (root_mask predicate order)

initial-IsRight : (nv : ℕ) → IsRight nv initial
unfolding count_of AllRight
initial-IsRight nv = record { terminals = record { at_false = refl; at_true = refl }; entries = tt }

pub compile-Compiled : (predicate : ℕ → Bool) (order : List ℕ) → Compiled predicate order
unfolding compile
compile-Compiled predicate order =
    let n = length order in
    let b : Built n n (root_mask predicate order) initial
        (build n n (root_mask predicate order) initial) =
      build-Built n n (root_mask predicate order) initial (omega arith) (initial-IsRight n) in
    record {
      sampler = record { order = order; nodes = b.after.nodes; root = b.idx };
      result = rw (b.result, compile) refl;
      same_order = refl;
      terminals = b.kept.terminals;
      right = b.right;
    }

-- For any constraint and ORDER the build returns tables, and NSOL is the number of those s under 2
-- ** NV whose assignment, the bits of s at the places of ORDER, satisfies the constraint.
pub nsol-compile :
    (predicate : ℕ → Bool) (order : List ℕ)
    → (m : Sampler) × (compile predicate order ≡ some m)
      × (nsol m ≡ some (solutions predicate order))
unfolding nsol
nsol-compile predicate order =
    let c = compile-Compiled predicate order in
    (
      c.sampler,
      c.result,
      count_of-Represents c.sampler.nodes (length order) c.sampler.root (root_mask predicate order)
            c.terminals c.right
          ∙ ap some (ones-root predicate order),
    )

-- The sampler of a constraint is the one that the build returns.
pub sampler_of :
    (predicate : ℕ → Bool) (order : List ℕ) (m : Sampler)
    → compile predicate order ≡ some m
    → (c : Compiled predicate order) × (c.sampler ≡ m)
sampler_of predicate order m h =
    let c = compile-Compiled predicate order in (c, ap (λ o. get_or o m) (sym c.result ∙ h))
