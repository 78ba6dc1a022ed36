-- ===== src/BddSampler.antt =====
-- tier1_bdd/build_bdd.py: the count-annotated decision diagram of a constraint and the decoding of a
-- number into a solution. `predicate` and ORDER are arguments, and NV is the length of ORDER, as the
-- source asserts; the constraint of the source is in BddSampler/Constraint.
pub mod Constraint
pub mod Masks
pub mod Ranks
pub mod Order
pub mod Build
pub mod Descend
pub mod Places
pub mod Compile
pub mod Assignments
pub mod Unrank
pub mod Selection
mod Tests
use emergent_hardware_verifi.BddSampler.Constraint.{predicate}
use emergent_hardware_verifi.MulSampler.{xor_bits, bit_xor}
use emergent_hardware_verifi.MulSampler.Clean.{total}
use emergent_hardware_verifi.Interp.{assign}
use emergent_hardware_verifi.Prelude.{
  ◌∷◌, ℕ, zero, suc, some, replicate, none, ltb, length, leb, get_elem?, false, if◌then◌else◌, ◌^◌,
  [], Option, List, Bool, ◌==◌, ◌/◌, ◌-◌, ◌++◌, ◌+◌, ◌*◌, ◌&&◌, ◌%◌,
}
use emergent_hardware_verifi.Prelude.Bits.{bit_at, value}

-- A node `(lo, hi, count)`, and an entry of `unique` with its key.
pub record Node : Type 0 where
  pub lo : ℕ
  pub hi : ℕ
  pub count : ℕ

pub record Entry : Type 0 where
  pub level : ℕ
  pub mask : ℕ
  pub idx : ℕ

pub record Table : Type 0 where
  pub nodes : List Node
  pub unique : List Entry

-- The loop `for s in range(n): if test(s): mask |= 1 << s`; no earlier round has set bit `s`.
unfoldable pub collect : (ℕ → Bool) → ℕ → ℕ
collect test zero = 0
collect test (suc s) = let mask = collect test s in if test s then mask + 2 ^ s else mask

-- The two masks that the loop over `sp` sets.
unfoldable pub cofactors : ℕ → ℕ → ℕ × ℕ
unfolding collect
cofactors mask n =
    let half = 2 ^ (n - 1) in
    (collect (λ sp. bit_at mask (2 * sp)) half, collect (λ sp. bit_at mask (2 * sp + 1)) half)

unfoldable pub find_node : ℕ → ℕ → List Entry → Option ℕ
find_node level mask [] = none
find_node level mask (e ∷ es) =
    let rest = find_node level mask es in
    if (level == e.level) && (mask == e.mask) then some e.idx else rest

-- `nodes[i][2]`, or an IndexError.
unfoldable pub count_of : List Node → ℕ → Option ℕ
count_of nodes i = elim (get_elem? nodes i) [ none ↦ none | some nd ↦ some nd.count ]

-- The new node of `build`, with its entry in `unique`.
unfoldable pub add_node : ℕ → ℕ → ℕ → ℕ → Table → Option (ℕ × Table)
unfolding count_of
add_node level mask lo hi t = elim (count_of t.nodes lo) [
  | none ↦ none
  | some a ↦ elim (count_of t.nodes hi) [
    | none ↦ none
    | some b ↦ some (
      length t.nodes,
      record {
        nodes = t.nodes ++ record { lo = lo; hi = hi; count = a + b } ∷ [];
        unique = record { level = level; mask = mask; idx = length t.nodes } ∷ t.unique;
      },
    )
  ]
]

-- `build(level, mask)` with `n` = NV - level levels left.
unfoldable pub build : ℕ → ℕ → ℕ → Table → Option (ℕ × Table)
unfolding cofactors find_node add_node
build nv zero mask t = some (if bit_at mask 0 then 1 else 0, t)
build nv (suc n) mask t = elim (find_node (nv - suc n) mask t.unique) [
  | some idx ↦ some (idx, t)
  | none ↦ elim (build nv n (cofactors mask (suc n)).0 t) [
    | none ↦ none
    | some (lo, t1) ↦ elim (build nv n (cofactors mask (suc n)).1 t1) [
      | none ↦ none
      | some (hi, t2) ↦ add_node (nv - suc n) mask lo hi t2
    ]
  ]
]

-- `sum(((s >> j) & 1) << ORDER[j] ...)` from level `j` on.
unfoldable pub place : List ℕ → ℕ → ℕ → ℕ
place [] j s = 0
place (p ∷ ps) j s = s / 2 ^ j % 2 * 2 ^ p + place ps (suc j) s

unfoldable pub root_mask : (ℕ → Bool) → List ℕ → ℕ
unfolding collect place
root_mask predicate order = collect (λ s. predicate (place order 0 s)) (2 ^ length order)

-- `nodes` and `unique` before the build.
abbrev pub initial : Table
initial = record {
  nodes = record { lo = 0; hi = 0; count = 0 } ∷ record { lo = 1; hi = 1; count = 1 } ∷ [];
  unique = [];
}

-- The module's tables after the build: ORDER, `nodes` and ROOT.
pub record Sampler : Type 0 where
  pub order : List ℕ
  pub nodes : List Node
  pub root : ℕ

unfoldable pub compile : (ℕ → Bool) → List ℕ → Option Sampler
unfolding build root_mask
compile predicate order =
    elim (build (length order) (length order) (root_mask predicate order) initial) [
      | none ↦ none
      | some (root, t) ↦ some (record { order = order; nodes = t.nodes; root = root })
    ]

-- `NSOL`
unfoldable pub nsol : Sampler → Option ℕ
unfolding count_of
nsol m = count_of m.nodes m.root

-- `xs[p] = b`; the caller has tested the index.
unfoldable pub set_elem : ℕ → Bool → List Bool → List Bool
set_elem p b [] = []
set_elem zero b (x ∷ xs) = b ∷ xs
set_elem (suc p) b (x ∷ xs) = x ∷ set_elem p b xs

-- `assign[p] = b`, or an IndexError.
unfoldable pub assign_bit : ℕ → Bool → List Bool → Option (List Bool)
unfolding set_elem
assign_bit p b xs = if ltb p (length xs) then some (set_elem p b xs) else none

-- The bit of a node whose low child counts `c`: is `R` past it?
abbrev pub goes_high : ℕ → ℕ → Bool
goes_high c r = leb c r

-- The loop of `unrank` over the levels left.
unfoldable pub descend : List ℕ → List Node → ℕ → ℕ → List Bool → Option (ℕ × List Bool)
unfolding count_of assign_bit
descend [] nodes idx r xs = some (idx, xs)
descend (p ∷ ps) nodes idx r xs = elim (get_elem? nodes idx) [
  | none ↦ none
  | some nd ↦ elim (count_of nodes nd.lo) [
    | none ↦ none
    | some c ↦ elim (assign_bit p (goes_high c r) xs) [
      | none ↦ none
      | some ys ↦
          descend ps nodes (if goes_high c r then nd.hi else nd.lo)
            (if goes_high c r then r - c else r) ys
    ]
  ]
]

-- What `unrank` comes to: an assignment, the AssertionError of `idx == T1`, or an IndexError.
pub data Decoded : Type 0 where
  decoded : ℕ → Decoded
  not_at_true : Decoded
  index_error : Decoded

unfoldable pub unrank : Sampler → ℕ → Decoded
unfolding descend
unrank m r = elim (descend m.order m.nodes m.root r (replicate (length m.order) false)) [
  | none ↦ index_error
  | some (idx, xs) ↦ if idx == 1 then decoded (value xs) else not_at_true
]

abbrev pub seed : ℕ
seed = 44257

abbrev pub taps : ℕ
taps = 46080

unfoldable pub lfsr_step : ℕ → ℕ
unfolding xor_bits
lfsr_step s = bit_xor (s / 2) (if s % 2 == 1 then taps else 0)

-- The loop of `stream` with `n` rounds left; `s % NSOL` by zero is the ZeroDivisionError `none`.
unfoldable pub draws : Sampler → ℕ → ℕ → ℕ → Option (List Decoded)
unfolding unrank lfsr_step
draws m total zero s = some []
draws m total (suc n) s = elim total [
  | zero ↦ none
  | suc t ↦ elim (draws m total n (lfsr_step s)) [
    | none ↦ none
    | some rest ↦ some (unrank m (s % suc t) ∷ rest)
  ]
]

unfoldable pub stream : Sampler → ℕ → Option (List Decoded)
unfolding draws nsol
stream m n = elim (nsol m) [ none ↦ none | some total ↦ draws m total n seed ]
