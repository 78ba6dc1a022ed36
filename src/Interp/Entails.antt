-- ===== src/Interp/Entails.antt =====
-- When a proof is valid, and that what a valid proof derives follows from the clauses.
use emergent_hardware_verifi.Interp.Sets.{
  some_lit-same_set, some_lit-resolve_both, some_lit-clause_val, same_set_refl,
}
use emergent_hardware_verifi.Interp.{
  set_default, same_set, resolve, res, lookup, load, leaf, frozenset, clauses_of, Tag, Source,
  Proof, Lits,
}
use emergent_hardware_verifi.Prelude.{
  ◌⊎◌, ◌≡◌, ◌∷◌, ◌∙◌, true, sym, some, refl, none, inr, inl, arith, [], Option-cases, List,
  Bool-cases,
}
use emergent_hardware_verifi.Sat.Literal.{
  ℤ, lit_val-neg, lit_val, clause_val, IsLiteral, Assignment,
}

abbrev pub AllTrue : Assignment → List Lits → Type 0
AllTrue μ [] = Unit {0}
AllTrue μ (c ∷ cs) = (clause_val μ c ≡ true) × AllTrue μ cs

abbrev pub Has : Proof → Lits → Type 0
Has π c = (s : Source) × (lookup c π ≡ some s)

abbrev pub HasAll : Proof → List Lits → Type 0
HasAll π [] = Unit {0}
HasAll π (c ∷ cs) = Has π c × HasAll π cs

-- A clause of the side with that tag.
abbrev pub InSide : List (Lits × Tag) → Tag → Lits → Type 0
InSide [] tag c = ⊥
InSide ((d, t) ∷ ts) tag c = ((frozenset d ≡ c) × (t ≡ tag)) ⊎ InSide ts tag c

-- A leaf is a clause of its side; a resolvent comes from two clauses that were there before.
abbrev pub Justified : List (Lits × Tag) → Source → Lits → Proof → Type 0
Justified ts (leaf tag) c π = InSide ts tag c
Justified ts (res l r x) c π = (c ≡ resolve l r x) × Has π l × Has π r × IsLiteral x

-- No clause has two entries, and each is justified by those before it.
abbrev pub Valid : List (Lits × Tag) → Proof → Type 0
Valid ts [] = Unit {0}
Valid ts ((c, s) ∷ π) = (lookup c π ≡ none) × Justified ts s c π × Valid ts π

pub set_default-Has_self : (c : Lits) (s : Source) (π : Proof) → Has (set_default c s π) c
unfolding set_default
set_default-Has_self c s π = elim (Option-cases (lookup c π)) [
  | inl e ↦ rw (e, set_default) (s, rw (same_set_refl c, lookup) refl)
  | inr (t, e) ↦ rw (e, set_default) (t, e)
]

pub set_default-Has :
    (c : Lits) (s : Source) (π : Proof) (d : Lits) → Has π d → Has (set_default c s π) d
unfolding set_default
set_default-Has c s π d h = elim (Option-cases (lookup c π)) [
  | inr (t, e) ↦ rw (e, set_default) h
  | inl e ↦
      rw (e, set_default)
        (elim (Bool-cases (same_set c d)) [
          | inl k ↦ (s, rw (k, lookup) refl)
          | inr k ↦ (h.0, rw (k, lookup) h.1)
        ])
]

pub HasAll-set_default :
    (c : Lits) (s : Source) (π : Proof) (cs : List Lits)
    → HasAll π cs
    → HasAll (set_default c s π) cs
HasAll-set_default c s π [] h = tt
HasAll-set_default c s π (d ∷ cs) h = (set_default-Has c s π d h.0, HasAll-set_default c s π cs h.1)

pub same_set-true :
    (μ : Assignment) (k c : Lits)
    → same_set k c ≡ true
    → clause_val μ k ≡ true
    → clause_val μ c ≡ true
same_set-true μ k c e h =
    sym (some_lit-clause_val μ c)
    ∙ some_lit-same_set (lit_val μ) k c e (some_lit-clause_val μ k ∙ h)

module _ (ts : List (Lits × Tag)) where
  pub set_default-Valid :
      (c : Lits) (s : Source) (π : Proof)
      → Valid ts π
      → Justified ts s c π
      → Valid ts (set_default c s π)
  unfolding set_default
  set_default-Valid c s π v j = elim (Option-cases (lookup c π)) [
    | inl e ↦ rw (e, set_default) (e, j, v)
    | inr (t, e) ↦ rw (e, set_default) v
  ]

  InSide-AllTrue :
      (rest : List (Lits × Tag)) (tag : Tag) (c : Lits) (μ : Assignment)
      → InSide rest tag c
      → AllTrue μ (clauses_of rest)
      → clause_val μ c ≡ true
  unfolding clauses_of
  InSide-AllTrue [] tag c μ i h = absurd i
  InSide-AllTrue ((d, t) ∷ rest) tag c μ (inl (e, _)) h = rw (← e) h.0
  InSide-AllTrue ((d, t) ∷ rest) tag c μ (inr i) h = InSide-AllTrue rest tag c μ i h.1

  pub resolve-true :
      (μ : Assignment) (l r : Lits) (x : ℤ)
      → IsLiteral x
      → clause_val μ l ≡ true
      → clause_val μ r ≡ true
      → clause_val μ (resolve l r x) ≡ true
  resolve-true μ l r x il hl hr =
      sym (some_lit-clause_val μ (resolve l r x))
      ∙ some_lit-resolve_both (lit_val μ) l r x (ground (arith, lit_val-neg μ x il))
          (some_lit-clause_val μ l ∙ hl) (some_lit-clause_val μ r ∙ hr)

  -- What a valid proof holds is true in every model of the clauses.
  pub Valid-Has :
      (π : Proof) (c : Lits)
      → Valid ts π
      → Has π c
      → (μ : Assignment) → AllTrue μ (clauses_of ts)
      → clause_val μ c ≡ true
  unfolding lookup
  Valid-Has [] c v h μ m = cc
  Valid-Has ((k, leaf tag) ∷ π) c v h μ m = elim (Bool-cases (same_set k c)) [
    | inl e ↦ same_set-true μ k c e (InSide-AllTrue ts tag k μ v.1 m)
    | inr e ↦ Valid-Has π c v.2 (h.0, sym (rw e refl) ∙ h.1) μ m
  ]
  Valid-Has ((k, res l r x) ∷ π) c v h μ m = elim (Bool-cases (same_set k c)) [
    | inl e ↦
        let j = v.1 in
        let hl = Valid-Has π l v.2 j.1 μ m in
        let hr = Valid-Has π r v.2 j.2 μ m in
        let hk : clause_val μ k ≡ true = rw (j.0) (resolve-true μ l r x j.3 hl hr) in
        same_set-true μ k c e hk
    | inr e ↦ Valid-Has π c v.2 (h.0, sym (rw e refl) ∙ h.1) μ m
  ]

  -- The leaves of all clauses are put into the proof.
  pub load-Valid :
      (rest : List (Lits × Tag)) (π : Proof)
      → ((tag : Tag) (c : Lits) → InSide rest tag c → InSide ts tag c)
      → Valid ts π
      → Valid ts (load rest π)
  unfolding load
  load-Valid [] π i v = v
  load-Valid ((c, tag) ∷ rest) π i v =
      load-Valid rest (set_default (frozenset c) (leaf tag) π) (λ t d k. i t d (inr k))
        (set_default-Valid (frozenset c) (leaf tag) π v (i tag (frozenset c) (inl (refl, refl))))

pub load-Has : (rest : List (Lits × Tag)) (π : Proof) (c : Lits) → Has π c → Has (load rest π) c
unfolding load
load-Has [] π c h = h
load-Has ((d, tag) ∷ rest) π c h =
    load-Has rest (set_default (frozenset d) (leaf tag) π) c
      (set_default-Has (frozenset d) (leaf tag) π c h)

pub load-HasAll : (rest : List (Lits × Tag)) (π : Proof) → HasAll (load rest π) (clauses_of rest)
unfolding load clauses_of
load-HasAll [] π = tt
load-HasAll ((c, tag) ∷ rest) π =
    let π1 = set_default (frozenset c) (leaf tag) π in
    (
      load-Has rest π1 (frozenset c) (set_default-Has_self (frozenset c) (leaf tag) π),
      load-HasAll rest π1,
    )
