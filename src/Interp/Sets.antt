-- ===== src/Interp/Sets.antt =====
-- Sets of literals: what holds of some literal of a set, and when two sets are the same.
-- Some literal of the list passes the test.
use emergent_hardware_verifi.Interp.{without, subset, same_set, resolve, frozenset, Lits}
use emergent_hardware_verifi.Sat.Literal.{
  ℤ, neg, member, lit_val, int_eq_iff, int_eq, clause_val, Assignment,
}
use emergent_hardware_verifi.Prelude.{
  ◌≡◌, ◌∷◌, ◌∙◌, ◌||◌, true, sym, refl, inr, inl, false, arith, ap, [], Bool-cases, Bool, ◌++◌,
  ◌&&◌,
}

abbrev pub some_lit : (ℤ → Bool) → Lits → Bool
some_lit p [] = false
some_lit p (l ∷ ls) = p l || some_lit p ls

pub some_lit-clause_val : (μ : Assignment) (c : Lits) → some_lit (lit_val μ) c ≡ clause_val μ c
some_lit-clause_val μ [] = refl
some_lit-clause_val μ (l ∷ ls) = ap (λ b. lit_val μ l || b) (some_lit-clause_val μ ls)

module _ (p : ℤ → Bool) where
  pub some_lit-member : (l : ℤ) (c : Lits) → member l c ≡ true → p l ≡ true → some_lit p c ≡ true
  some_lit-member l [] h k = cc
  some_lit-member l (x ∷ xs) h k = elim (Bool-cases (int_eq l x)) [
    | inl e ↦
        let lx : l ≡ x = (int_eq_iff l x).0 e in
        let px : p x ≡ true = ap p (sym lx) ∙ k in rw px refl
    | inr e ↦ let rest = some_lit-member l xs (ground (arith, h, e)) k in ground (arith, rest)
  ]

  pub some_lit-subset : (c d : Lits) → subset c d ≡ true → some_lit p c ≡ true → some_lit p d ≡ true
  unfolding subset
  some_lit-subset [] d h k = cc
  some_lit-subset (l ∷ ls) d h k = elim (Bool-cases (p l)) [
    | inl e ↦ some_lit-member l d (ground (arith, h)) e
    | inr e ↦ some_lit-subset ls d (ground (arith, h)) (ground (arith, k, e))
  ]

  pub some_lit-same_set :
      (c d : Lits) → same_set c d ≡ true → some_lit p c ≡ true → some_lit p d ≡ true
  unfolding same_set
  some_lit-same_set c d h k = some_lit-subset c d (ground (arith, h)) k

  pub some_lit-frozenset : (c : Lits) → some_lit p (frozenset c) ≡ some_lit p c
  unfolding frozenset
  some_lit-frozenset [] = refl
  some_lit-frozenset (l ∷ ls) = elim (Bool-cases (member l (frozenset ls))) [
    | inr e ↦ rw e (ap (λ b. p l || b) (some_lit-frozenset ls))
    | inl e ↦ rw e (elim (Bool-cases (p l)) [
      | inl k ↦ rw k (some_lit-member l (frozenset ls) e k)
      | inr k ↦ rw k (some_lit-frozenset ls)
    ])
  ]

  pub some_lit-append : (c d : Lits) → some_lit p (c ++ d) ≡ (some_lit p c || some_lit p d)
  some_lit-append [] d = refl
  some_lit-append (l ∷ ls) d = ground (arith, some_lit-append ls d)

  -- Only the literal that is dropped can be lost.
  pub some_lit-without :
      (x : ℤ) (c : Lits) → p x ≡ false → some_lit p c ≡ true → some_lit p (without x c) ≡ true
  unfolding without
  some_lit-without x [] h k = cc
  some_lit-without x (l ∷ ls) h k = elim (Bool-cases (int_eq l x)) [
    | inl e ↦
        let lx : l ≡ x = (int_eq_iff l x).0 e in
        let pl : p l ≡ false = ap p lx ∙ h in rw e (some_lit-without x ls h (ground (arith, k, pl)))
    | inr e ↦ rw e (elim (Bool-cases (p l)) [
      | inl q ↦ rw q refl
      | inr q ↦ let rest = some_lit-without x ls h (ground (arith, k, q)) in ground (arith, rest)
    ])
  ]

  some_lit-resolve :
      (c1 c2 : Lits) (x : ℤ)
      → some_lit p (resolve c1 c2 x)
        ≡ (some_lit p (without x c1) || some_lit p (without (neg x) c2))
  unfolding resolve
  some_lit-resolve c1 c2 x =
      some_lit-frozenset (without x c1 ++ without (neg x) c2)
      ∙ some_lit-append (without x c1) (without (neg x) c2)

  pub some_lit-resolve_left :
      (c1 c2 : Lits) (x : ℤ)
      → p x ≡ false
      → some_lit p c1 ≡ true
      → some_lit p (resolve c1 c2 x) ≡ true
  some_lit-resolve_left c1 c2 x h k =
      some_lit-resolve c1 c2 x ∙ ground (arith, some_lit-without x c1 h k)

  pub some_lit-resolve_right :
      (c1 c2 : Lits) (x : ℤ)
      → p (neg x) ≡ false
      → some_lit p c2 ≡ true
      → some_lit p (resolve c1 c2 x) ≡ true
  some_lit-resolve_right c1 c2 x h k =
      some_lit-resolve c1 c2 x ∙ ground (arith, some_lit-without (neg x) c2 h k)

  -- A test that the two pivots do not both pass keeps holding of the resolvent.
  pub some_lit-resolve_both :
      (c1 c2 : Lits) (x : ℤ)
      → (p x && p (neg x)) ≡ false
      → some_lit p c1 ≡ true
      → some_lit p c2 ≡ true
      → some_lit p (resolve c1 c2 x) ≡ true
  some_lit-resolve_both c1 c2 x h k1 k2 = elim (Bool-cases (p x)) [
    | inr e ↦ some_lit-resolve_left c1 c2 x e k1
    | inl e ↦ some_lit-resolve_right c1 c2 x (ground (arith, h, e)) k2
  ]

int_eq_refl : (l : ℤ) → int_eq l l ≡ true
int_eq_refl l = (int_eq_iff l l).1 refl

-- A subset is what keeps every test; in particular membership.
pub member-subset : (l : ℤ) (c d : Lits) → subset c d ≡ true → member l c ≡ true → member l d ≡ true
member-subset l c d h k =
    member_some l d ∙ some_lit-subset (int_eq l) c d h (sym (member_some l c) ∙ k)
  where
    member_some : (l : ℤ) (c : Lits) → member l c ≡ some_lit (int_eq l) c
    member_some l [] = refl
    member_some l (x ∷ xs) = ap (λ b. int_eq l x || b) (member_some l xs)

subset-cons : (l : ℤ) (c d : Lits) → subset c d ≡ true → subset c (l ∷ d) ≡ true
unfolding subset
subset-cons l [] d h = refl
subset-cons l (x ∷ xs) d h =
    let rest = subset-cons l xs d (ground (arith, h)) in
    let here : member x d ≡ true = ground (arith, h) in ground (arith, rest, here)

pub subset_refl : (c : Lits) → subset c c ≡ true
unfolding subset
subset_refl [] = refl
subset_refl (l ∷ ls) =
    let rest = subset-cons l ls ls (subset_refl ls) in ground (arith, rest, int_eq_refl l)

pub subset_trans : (c d e : Lits) → subset c d ≡ true → subset d e ≡ true → subset c e ≡ true
unfolding subset
subset_trans [] d e h k = refl
subset_trans (l ∷ ls) d e h k =
    let here = member-subset l d e k (ground (arith, h)) in
    let rest = subset_trans ls d e (ground (arith, h)) k in ground (arith, here, rest)

pub same_set_refl : (c : Lits) → same_set c c ≡ true
unfolding same_set
same_set_refl c = rw (subset_refl c) refl

pub same_set_sym : (c d : Lits) → same_set c d ≡ true → same_set d c ≡ true
unfolding same_set
same_set_sym c d h = ground (arith, h)

pub same_set_trans :
    (c d e : Lits) → same_set c d ≡ true → same_set d e ≡ true → same_set c e ≡ true
unfolding same_set
same_set_trans c d e h k =
    let one = subset_trans c d e (ground (arith, h)) (ground (arith, k)) in
    let two = subset_trans e d c (ground (arith, k)) (ground (arith, h)) in ground (arith, one, two)
