-- ===== src/BddSampler/Build.antt =====
-- build_bdd.py, `build`: the diagram that it adds to the tables is the one of its mask.
use emergent_hardware_verifi.BddSampler.Ranks.{ones-split, ones-leaf, ones, child}
use emergent_hardware_verifi.Prelude.Bits.{bit_at, bit}
use emergent_hardware_verifi.Prelude.{
  ◌≤◌, ◌≡◌, ◌∷◌, ◌∙◌, ℕ, zero, true, sym, suc, subst, some, refl, none, length, inr, inl, get_elem?,
  false, if◌then◌else◌, arith, ap, [], Option-cases, Option, List, Bool-cases, Bool, ◌==◌, ◌-◌,
  ◌++◌, ◌+◌, ◌&&◌,
}
use mathlib.Core.Option.{get_or}
use emergent_hardware_verifi.BddSampler.{Node, Table, Entry, build, add_node, find_node, count_of}

-- Node `idx` is the diagram of `mask` over `n` levels, every count right.
unfoldable pub Represents : List Node → ℕ → ℕ → ℕ → Type 0
unfolding child ones
Represents nodes zero idx mask = idx ≡ bit (bit_at mask 0)
Represents nodes (suc n) idx mask =
    (nd : Node) × (get_elem? nodes idx ≡ some nd)
    × (nd.count ≡ ones (suc n) mask)
    × Represents nodes n nd.lo (child false mask n)
    × Represents nodes n nd.hi (child true mask n)

-- The two terminals stand first, with their counts.
pub record HasTerminals (nodes : List Node) : Type 0 where
  pub at_false : count_of nodes 0 ≡ some 0
  pub at_true : count_of nodes 1 ≡ some 1

abbrev pub Extends : List Node → List Node → Type 0
Extends xs ys = (i : ℕ) (nd : Node) → get_elem? xs i ≡ some nd → get_elem? ys i ≡ some nd

-- Every entry of `unique` names the diagram of its mask at its level.
unfoldable pub AllRight : ℕ → List Node → List Entry → Type 0
unfolding Represents
AllRight nv nodes [] = Unit
AllRight nv nodes (e ∷ es) = Represents nodes (nv - e.level) e.idx e.mask × AllRight nv nodes es

pub count_of-Represents :
    (nodes : List Node) (n idx mask : ℕ)
    → HasTerminals nodes
    → Represents nodes n idx mask
    → count_of nodes idx ≡ some (ones n mask)
unfolding Represents count_of
count_of-Represents nodes zero idx mask ht h = terminal (bit_at mask 0) refl
  where
    terminal : (b : Bool) → bit_at mask 0 ≡ b → count_of nodes idx ≡ some (ones 0 mask)
    terminal true e = rw (h, ones-leaf mask, e) ht.at_true
    terminal false e = rw (h, ones-leaf mask, e) ht.at_false
count_of-Represents nodes (suc n) idx mask ht (nd, at_idx, c, _, _) =
    rw (at_idx, count_of) (ap some c)

pub Represents-Extends :
    (xs ys : List Node) (n idx mask : ℕ)
    → Extends xs ys
    → Represents xs n idx mask
    → Represents ys n idx mask
unfolding Represents
Represents-Extends xs ys zero idx mask ext h = h
Represents-Extends xs ys (suc n) idx mask ext (nd, at_idx, c, l, h) = (
  nd,
  ext idx nd at_idx,
  c,
  Represents-Extends xs ys n nd.lo (child false mask n) ext l,
  Represents-Extends xs ys n nd.hi (child true mask n) ext h,
)

AllRight-Extends :
    (nv : ℕ) (xs ys : List Node) (es : List Entry)
    → Extends xs ys
    → AllRight nv xs es
    → AllRight nv ys es
unfolding AllRight
AllRight-Extends nv xs ys [] ext h = tt
AllRight-Extends nv xs ys (e ∷ es) ext (h, hs) = (
  Represents-Extends xs ys (nv - e.level) e.idx e.mask ext h,
  AllRight-Extends nv xs ys es ext hs,
)

append-Extends : (xs : List Node) (nd : Node) → Extends xs (xs ++ nd ∷ [])
append-Extends [] nd i x h = let bad : ◌≡◌ {A = Option Node} none (some x) = h in cc
append-Extends (y ∷ xs) nd zero x h = h
append-Extends (y ∷ xs) nd (suc i) x h = append-Extends xs nd i x h

at_length : (xs : List Node) (nd : Node) → get_elem? (xs ++ nd ∷ []) (length xs) ≡ some nd
at_length [] nd = refl
at_length (y ∷ xs) nd = at_length xs nd

count_of-Extends :
    (xs ys : List Node) (i c : ℕ) → Extends xs ys → count_of xs i ≡ some c → count_of ys i ≡ some c
unfolding count_of
count_of-Extends xs ys i c ext h = elim (Option-cases (get_elem? xs i)) [
  | inl e ↦ let bad : ◌≡◌ {A = Option ℕ} none (some c) = sym (rw (e, count_of) refl) ∙ h in cc
  | inr (nd, e) ↦
      let c_eq : ◌≡◌ {A = Option ℕ} (some nd.count) (some c) = sym (rw (e, count_of) refl) ∙ h in
      rw (ext i nd e, count_of) c_eq
]

HasTerminals-Extends : (xs ys : List Node) → Extends xs ys → HasTerminals xs → HasTerminals ys
HasTerminals-Extends xs ys ext h = record {
  at_false = count_of-Extends xs ys 0 0 ext h.at_false;
  at_true = count_of-Extends xs ys 1 1 ext h.at_true;
}

-- What `build` keeps of its tables.
pub record IsRight (nv : ℕ) (t : Table) : Type 0 where
  pub terminals : HasTerminals t.nodes
  pub entries : AllRight nv t.nodes t.unique

find_node-Represents :
    (nv n mask i : ℕ) (nodes : List Node) (es : List Entry)
    → n ≤ nv
    → AllRight nv nodes es
    → find_node (nv - n) mask es ≡ some i
    → Represents nodes n i mask
unfolding find_node AllRight
find_node-Represents nv n mask i nodes [] h every found =
    let bad : ◌≡◌ {A = Option ℕ} none (some i) = found in cc
find_node-Represents nv n mask i nodes (e ∷ es) h (right, rights) found =
    elim (Bool-cases ((nv - n == e.level) && (mask == e.mask))) [
      | inl hit ↦
          let level : nv - e.level ≡ n = ground arith in
          let masks : e.mask ≡ mask = ground arith in
          let found_here : some e.idx ≡ find_node (nv - n) mask (e ∷ es) =
            rw (hit, find_node) refl in
          let idx : e.idx ≡ i = ap (λ o. get_or o i) (found_here ∙ found) in
          rw (sym level, sym masks, sym idx) right
      | inr miss ↦
          let later : find_node (nv - n) mask es ≡ find_node (nv - n) mask (e ∷ es) =
            rw (miss, find_node) refl in
          find_node-Represents nv n mask i nodes es h rights (later ∙ found)
    ]

-- What `build` returns for `mask` with `n` levels left.
pub record Built (nv n mask : ℕ) (t : Table) (r : Option (ℕ × Table)) : Type 0 where
  pub idx : ℕ
  pub after : Table
  pub result : r ≡ some (idx, after)
  pub kept : IsRight nv after
  pub grown : Extends t.nodes after.nodes
  pub right : Represents after.nodes n idx mask

add_node-Built :
    (nv n mask lo hi : ℕ) (t : Table)
    → suc n ≤ nv
    → IsRight nv t
    → Represents t.nodes n lo (child false mask n)
    → Represents t.nodes n hi (child true mask n)
    → Built nv (suc n) mask t (add_node (nv - suc n) mask lo hi t)
unfolding add_node Represents AllRight
add_node-Built nv n mask lo hi t h ok l r =
    let a = ones n (child false mask n) in
    let b = ones n (child true mask n) in
    let nd : Node = record { lo = lo; hi = hi; count = a + b } in
    let ext : Extends t.nodes (t.nodes ++ nd ∷ []) = append-Extends t.nodes nd in
    let repr : Represents (t.nodes ++ nd ∷ []) (suc n) (length t.nodes) mask = (
      nd,
      at_length t.nodes nd,
      sym (ones-split n mask),
      Represents-Extends t.nodes (t.nodes ++ nd ∷ []) n lo (child false mask n) ext l,
      Represents-Extends t.nodes (t.nodes ++ nd ∷ []) n hi (child true mask n) ext r,
    ) in
    let level : suc n ≡ nv - (nv - suc n) = omega arith in
    record {
      idx = length t.nodes;
      after = record {
        nodes = t.nodes ++ nd ∷ [];
        unique = record { level = nv - suc n; mask = mask; idx = length t.nodes } ∷ t.unique;
      };
      result =
          rw
            (
              count_of-Represents t.nodes n lo (child false mask n) ok.terminals l,
              count_of-Represents t.nodes n hi (child true mask n) ok.terminals r,
              add_node,
            )
            refl;
      kept = record {
        terminals = HasTerminals-Extends t.nodes (t.nodes ++ nd ∷ []) ext ok.terminals;
        entries = (
          subst (λ k. Represents (t.nodes ++ nd ∷ []) k (length t.nodes) mask) level repr,
          AllRight-Extends nv t.nodes (t.nodes ++ nd ∷ []) t.unique ext ok.entries,
        );
      };
      grown = ext;
      right = repr;
    }

-- A miss in `unique`: the two cofactors are built, one after the other, and joined by a new node.
build-join :
    (nv n mask : ℕ) (t : Table)
    → suc n ≤ nv
    → find_node (nv - suc n) mask t.unique ≡ none
    → (l : Built nv n (child false mask n) t (build nv n (child false mask n) t))
    → Built nv n (child true mask n) l.after (build nv n (child true mask n) l.after)
    → Built nv (suc n) mask t (build nv (suc n) mask t)
unfolding build child
build-join nv n mask t h missing l r =
    let top =
      add_node-Built nv n mask l.idx r.idx r.after h r.kept
        (Represents-Extends l.after.nodes r.after.nodes n l.idx (child false mask n) r.grown
          l.right)
        r.right in
    record {
      idx = top.idx;
      after = top.after;
      result = rw (missing, l.result, r.result, build) top.result;
      kept = top.kept;
      grown = λ i nd e. top.grown i nd (r.grown i nd (l.grown i nd e));
      right = top.right;
    }

-- The build returns, and the node that it returns is the diagram of its mask.
pub build-Built :
    (nv n mask : ℕ) (t : Table) → n ≤ nv → IsRight nv t → Built nv n mask t (build nv n mask t)
unfolding build Represents
build-Built nv zero mask t h ok = record {
  idx = bit (bit_at mask 0);
  after = t;
  result = leaf (bit_at mask 0);
  kept = ok;
  grown = λ i nd e. e;
  right = refl;
}
  where
    leaf :
        (b : Bool) → ◌≡◌ {A = Option (ℕ × Table)} (some (if b then 1 else 0, t)) (some (bit b, t))
    leaf true = refl
    leaf false = refl
build-Built nv (suc n) mask t h ok = elim (Option-cases (find_node (nv - suc n) mask t.unique)) [
  | inr (i, found) ↦ record {
    idx = i;
    after = t;
    result = rw (found, build) refl;
    kept = ok;
    grown = λ i nd e. e;
    right = find_node-Represents nv (suc n) mask i t.nodes t.unique h ok.entries found;
  }
  | inl missing ↦
      let l : Built nv n (child false mask n) t (build nv n (child false mask n) t) =
        build-Built nv n (child false mask n) t (omega arith) ok in
      let r : Built nv n (child true mask n) l.after (build nv n (child true mask n) l.after) =
        build-Built nv n (child true mask n) l.after (omega arith) l.kept in
      build-join nv n mask t h missing l r
]
