-- ===== src/Interp/Partial.antt =====
-- What the label of a clause means, and that the labels of leaves and resolvents mean it.
use emergent_hardware_verifi.Interp.Sets.{
  some_lit-same_set, some_lit-resolve_right, some_lit-resolve_left, some_lit-resolve_both, some_lit,
}
use emergent_hardware_verifi.Circuit.Meaning.{eval-or_sig, eval, any, Valuation}
use emergent_hardware_verifi.Circuit.Sig.{Sig, Build}
use emergent_hardware_verifi.Sat.Literal.{
  ℤ, variable, pos, negsuc, neg, lit_val-neg, lit_val, clause_val, IsLiteral, Assignment,
}
use emergent_hardware_verifi.Prelude.{
  ap, List-cases, ◌≡◌, ◌∷◌, ◌∙◌, ℕ, ◌||◌, zero, true, sym, suc, refl, map, inr, inl, flip, false,
  if◌then◌else◌, arith, ap₂, [], Bool-cases, Bool, ◌&&◌,
}
use emergent_hardware_verifi.Interp.{
  side_b, side_a, same_set, resolve, leaf_sig, global_sigs, Tag, Lits,
}

module _ (g : ℕ → Bool) (μ : Assignment) where
  -- A literal of a variable that is not shared, and true.
  abbrev pub local_true : ℤ → Bool
  local_true l = flip (g (variable l)) && lit_val μ l

  -- A shared literal that is true.
  abbrev pub global_true : ℤ → Bool
  global_true l = g (variable l) && lit_val μ l

  -- The label is one, or an unshared literal of the clause is true.
  abbrev pub Covered : Bool → Lits → Type 0
  Covered i c = (i || some_lit local_true c) ≡ true

  variable-neg : (x : ℤ) → variable (neg x) ≡ variable x
  variable-neg (pos zero) = refl
  variable-neg (pos (suc n)) = refl
  variable-neg (negsuc n) = refl

  clause-split :
      (c : Lits) → clause_val μ c ≡ true → (some_lit global_true c || some_lit local_true c) ≡ true
  clause-split [] h = cc
  clause-split (l ∷ ls) h = elim (Bool-cases (lit_val μ l)) [
    | inl e ↦ ground (arith, e)
    | inr e ↦ let rest = clause-split ls (ground (arith, h, e)) in ground (arith, rest)
  ]

  -- A resolution on an unshared pivot joins the labels, one on a shared pivot meets them.
  pub Covered-resolve :
      (l r : Lits) (x : ℤ) (i j : Bool)
      → IsLiteral x
      → Covered i l
      → Covered j r
      → Covered (if g (variable x) then i && j else i || j) (resolve l r x)
  Covered-resolve l r x i j il hi hj = elim (Bool-cases (g (variable x))) [
    | inl shared ↦
        let off : local_true x ≡ false = ground (arith, shared) in
        let off' : local_true (neg x) ≡ false = rw (variable-neg x) (ground (arith, shared)) in
        rw shared (elim (Bool-cases (some_lit local_true (resolve l r x))) [
          | inl t ↦ ground (arith, t)
          | inr f ↦
              let no_l : some_lit local_true l ≡ false =
                not_true (some_lit local_true l) (resolve l r x) f
                  (some_lit-resolve_left local_true l r x off) in
              let no_r : some_lit local_true r ≡ false =
                not_true (some_lit local_true r) (resolve l r x) f
                  (some_lit-resolve_right local_true l r x off') in
              ground (arith, hi, hj, no_l, no_r)
        ])
    | inr unshared ↦ rw unshared (elim (Bool-cases (i || j)) [
      | inl t ↦ ground (arith, t)
      | inr f ↦
          let apart : (local_true x && local_true (neg x)) ≡ false =
            rw (variable-neg x) (ground (arith, lit_val-neg μ x il)) in
          let both =
            some_lit-resolve_both local_true l r x apart (ground (arith, hi, f))
              (ground (arith, hj, f)) in
          ground (arith, both)
    ])
  ]
    where
      not_true :
          (b : Bool) (c : Lits)
          → some_lit local_true c ≡ false
          → (b ≡ true → some_lit local_true c ≡ true)
          → b ≡ false
      not_true true c f k = let bad : false ≡ true = sym f ∙ k refl in cc
      not_true false c f k = refl

  pub Covered-same_set : (k c : Lits) (i : Bool) → same_set k c ≡ true → Covered i k → Covered i c
  Covered-same_set k c true e h = refl
  Covered-same_set k c false e h = some_lit-same_set local_true k c e h

  module _ (ρ : Valuation) (lit_sig : ℤ → Build Sig)
      (reads : (l : ℤ) (n : ℕ) → g (variable l) ≡ true → eval ρ (lit_sig l n).0 ≡ lit_val μ l) where
    global_sigs-any :
        (c : Lits) (n : ℕ)
        → any (map (eval ρ) (global_sigs g lit_sig c n).0) ≡ some_lit global_true c
    unfolding global_sigs
    global_sigs-any [] n = refl
    global_sigs-any (l ∷ ls) n = elim (Bool-cases (g (variable l))) [
      | inl e ↦ rw e (ap₂ ◌||◌ (reads l n e) (global_sigs-any ls (lit_sig l n).1))
      | inr e ↦ rw e (global_sigs-any ls n)
    ]

    pub leaf_sig-Covered :
        (tag : Tag) (c : Lits) (n : ℕ)
        → (tag ≡ side_a → clause_val μ c ≡ true)
        → Covered (eval ρ (leaf_sig g lit_sig tag c n).0) c
    unfolding leaf_sig eval
    leaf_sig-Covered side_b c n h = refl
    leaf_sig-Covered side_a c n h = rw (leaf_sig-eval c n) (clause-split c (h refl))
      where
        leaf_sig-eval :
            (c : Lits) (n : ℕ) → eval ρ (leaf_sig g lit_sig side_a c n).0 ≡ some_lit global_true c
        leaf_sig-eval c n = elim (List-cases (global_sigs g lit_sig c n).0) [
          | inl e ↦
              let no_any : any (map (eval ρ) (global_sigs g lit_sig c n).0) ≡ false = rw e refl in
              rw (e, leaf_sig) (sym no_any ∙ global_sigs-any c n)
          | inr (s, ss, e) ↦
              let same : any (map (eval ρ) (global_sigs g lit_sig c n).0)
                  ≡ any (map (eval ρ) (s ∷ ss)) =
                ap (λ xs. any (map (eval ρ) xs)) e in
              rw (e, leaf_sig)
                (eval-or_sig ρ (s ∷ ss) (global_sigs g lit_sig c n).1
                  ∙ sym same
                  ∙ global_sigs-any c n)
        ]
