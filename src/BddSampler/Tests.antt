-- ===== src/BddSampler/Tests.antt =====
-- The constraint of the source, and a small one: two bits that are not both 0, the high one first.
use native.Mathlib.Decide.{dec_lt}
use emergent_hardware_verifi.BddSampler.Unrank.{unrank-rank_of, unrank-above, rank_of-unrank}
use emergent_hardware_verifi.BddSampler.Masks.{ones_below}
use emergent_hardware_verifi.BddSampler.Compile.{solutions, rank_of, nsol-compile}
use emergent_hardware_verifi.BddSampler.Selection.{stream-AllSatisfy, AllSatisfy}
use emergent_hardware_verifi.Prelude.{
  ◌≤◌, zero, suc, ◌&&◌, ◌≡◌, ◌∷◌, ◌↔◌, ℕ, true, some, refl, none, length, flip, arith, ◌^◌, [],
  Option, List, Bool, ◌==◌, ◌<◌,
}
use emergent_hardware_verifi.BddSampler.{
  compile, build, root_mask, place, collect, cofactors, find_node, add_node, count_of, descend,
  assign_bit, set_elem, unrank, decoded, not_at_true, nsol, Sampler, stream, Decoded,
}
use emergent_hardware_verifi.BddSampler.Constraint.{
  predicate-IsLegal, predicate, source_order, IsLegal, fields,
}
use emergent_hardware_verifi.BddSampler.Order.{IsOrder, occurs}

abbrev small_order : List ℕ
small_order = 1 ∷ 0 ∷ []

abbrev not_both : ℕ → Bool
not_both i = flip (i == 3)

abbrev decoded_all : Option Sampler → List Decoded
decoded_all none = []
decoded_all (some m) = unrank m 0 ∷ unrank m 1 ∷ unrank m 2 ∷ unrank m 3 ∷ []

runs_small :
    decoded_all (compile not_both small_order)
    ≡ decoded 0 ∷ decoded 1 ∷ decoded 2 ∷ not_at_true ∷ []
unfolding compile build root_mask place collect cofactors find_node add_node count_of descend
    assign_bit set_elem unrank
runs_small = refl

small_order-IsOrder : IsOrder small_order
unfolding IsOrder occurs
small_order-IsOrder p = ground arith

-- Is every number under `n` once in the list?
abbrev each_once : List ℕ → ℕ → Bool
each_once order zero = true
each_once order (suc n) = (occurs n order == 1) && each_once order n

each_once-below : (order : List ℕ) (n p : ℕ) → each_once order n ≡ true → p < n → occurs p order ≡ 1
each_once-below order zero p h l = absurd (omega arith)
each_once-below order (suc n) p h l = elim (dec_lt p n) [
  | yes less ↦ each_once-below order n p (ground arith) less
  | no more_or_same ↦ let same : p ≡ n = omega arith in rw same (ground arith)
]

source_order-above : (p : ℕ) → 12 ≤ p → occurs p source_order ≡ 0
unfolding occurs
source_order-above p h = ground arith

source_order-once : each_once source_order 12 ≡ true
unfolding occurs
source_order-once = refl

source_order-IsOrder : IsOrder source_order
unfolding IsOrder
source_order-IsOrder p = elim (dec_lt p 12) [
  | yes less ↦ let once = each_once-below source_order 12 p source_order-once less in ground arith
  | no above ↦ let none_of = source_order-above p (omega arith) in ground arith
]

small-solutions : solutions not_both small_order ≡ 3
unfolding ones_below place
small-solutions = refl

nsol-compile_example :
    (m : Sampler) × (compile predicate source_order ≡ some m)
    × (nsol m ≡ some (solutions predicate source_order))
nsol-compile_example = nsol-compile predicate source_order

legal_516 : predicate 516 ≡ true
unfolding predicate
legal_516 = refl

unrank-rank_of_example :
    (unrank (nsol-compile predicate source_order).0 (rank_of predicate source_order 516)
      ≡ decoded 516)
    × (rank_of predicate source_order 516 < solutions predicate source_order)
unrank-rank_of_example =
    unrank-rank_of source_order source_order-IsOrder predicate
      (nsol-compile predicate source_order).0 (nsol-compile predicate source_order).1 516
      (omega arith) legal_516

rank_of-unrank_example :
    (idx : ℕ) × (unrank (nsol-compile not_both small_order).0 2 ≡ decoded idx)
    × (idx < 2 ^ 2)
    × (not_both idx ≡ true)
    × (rank_of not_both small_order idx ≡ 2)
rank_of-unrank_example =
    rank_of-unrank small_order small_order-IsOrder not_both (nsol-compile not_both small_order).0
      (nsol-compile not_both small_order).1 2 (omega (arith, small-solutions))

unrank-above_example : unrank (nsol-compile not_both small_order).0 3 ≡ not_at_true
unrank-above_example =
    unrank-above small_order small_order-IsOrder not_both (nsol-compile not_both small_order).0
      (nsol-compile not_both small_order).1 3 (omega (arith, small-solutions))

stream-AllSatisfy_example :
    (ds : List Decoded) × (stream (nsol-compile not_both small_order).0 4 ≡ some ds)
    × (length ds ≡ 4)
    × AllSatisfy not_both small_order ds
stream-AllSatisfy_example =
    stream-AllSatisfy small_order small_order-IsOrder not_both (nsol-compile not_both small_order).0
      (nsol-compile not_both small_order).1 4 (omega (arith, small-solutions))

predicate-IsLegal_example : (predicate 516 ≡ true) ↔ IsLegal (fields 516)
predicate-IsLegal_example = predicate-IsLegal 516
