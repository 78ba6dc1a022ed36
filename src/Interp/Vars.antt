-- ===== src/Interp/Vars.antt =====
-- The variables of the clauses, and how many of them are unassigned.
use emergent_hardware_verifi.Sat.Literal.{ℤ, variable, member, int_eq_iff, int_eq}
use emergent_hardware_verifi.Interp.{
  unassigned, insert_vars, insert_var, assign, all_vars, Partial, Lits,
}
use emergent_hardware_verifi.Interp.Search.{AllLiterals, AllLiteral, in_vars, InList}
use emergent_hardware_verifi.Prelude.{
  ◌≤◌, ◌≢◌, ◌≡◌, ◌∷◌, ◌∙◌, ℕ, ◌||◌, true, sym, refl, none, length, inr, inl, arith, ap, [],
  Option-cases, List, Bool-cases, Bool, ==_iff, ◌==◌, ◌<◌,
}

module _ (a : Partial) where
  pub unassigned-in_vars :
      (v : ℕ) (vs : List ℕ) → in_vars v vs ≡ true → a v ≡ none → unassigned a vs ≢ []
  unfolding unassigned
  unassigned-in_vars v [] h e k = cc
  unassigned-in_vars v (u ∷ us) h e k = elim (Bool-cases (v == u)) [
    | inl same ↦
        let free : a u ≡ none = ap a (sym ((==_iff v u).0 same)) ∙ e in
        let bad : u ∷ unassigned a us ≡ [] = sym (rw (free, unassigned) refl) ∙ k in cc
    | inr other ↦ elim (Option-cases (a u)) [
      | inl free ↦ let bad : u ∷ unassigned a us ≡ [] = sym (rw (free, unassigned) refl) ∙ k in cc
      | inr (b, set) ↦
          unassigned-in_vars v us (ground (arith, h, other)) e (sym (rw (set, unassigned) refl) ∙ k)
    ]
  ]

  -- Setting a variable leaves no more of them.
  unassigned-assign-le :
      (v : ℕ) (b : Bool) (vs : List ℕ)
      → length (unassigned (assign a v b) vs) ≤ length (unassigned a vs)
  unfolding unassigned
  unassigned-assign-le v b [] = omega arith
  unassigned-assign-le v b (u ∷ us) =
      let rest = unassigned-assign-le v b us in
      elim (Bool-cases (v == u)) [
        | inl same ↦
            rw (same, unassigned)
              (elim (Option-cases (a u)) [
                | inl free ↦ rw (free, unassigned) (omega (arith, rest))
                | inr (c, set) ↦ rw (set, unassigned) rest
              ])
        | inr other ↦
            rw (other, unassigned)
              (elim (Option-cases (a u)) [
                | inl free ↦ rw (free, unassigned) (omega (arith, rest))
                | inr (c, set) ↦ rw (set, unassigned) rest
              ])
      ]

  -- Setting an unassigned variable leaves fewer.
  pub unassigned-assign-lt :
      (v : ℕ) (b : Bool) (vs : List ℕ)
      → in_vars v vs ≡ true
      → a v ≡ none
      → length (unassigned (assign a v b) vs) < length (unassigned a vs)
  unfolding unassigned
  unassigned-assign-lt v b [] h e = cc
  unassigned-assign-lt v b (u ∷ us) h e = elim (Bool-cases (v == u)) [
    | inl same ↦
        let free : a u ≡ none = ap a (sym ((==_iff v u).0 same)) ∙ e in
        rw (same, unassigned) (rw (free, unassigned) (omega (arith, unassigned-assign-le v b us)))
    | inr other ↦
        let rest = unassigned-assign-lt v b us (ground (arith, h, other)) e in
        rw (other, unassigned)
          (elim (Option-cases (a u)) [
            | inl free ↦ rw (free, unassigned) (omega (arith, rest))
            | inr (c, set) ↦ rw (set, unassigned) rest
          ])
  ]

  pub unassigned-head :
      (vs : List ℕ) (x : ℕ) (xs : List ℕ)
      → unassigned a vs ≡ x ∷ xs
      → (in_vars x vs ≡ true) × (a x ≡ none)
  unfolding unassigned
  unassigned-head [] x xs e = cc
  unassigned-head (u ∷ us) x xs e = elim (Option-cases (a u)) [
    | inl free ↦
        let same : u ∷ unassigned a us ≡ x ∷ xs = sym (rw (free, unassigned) refl) ∙ e in
        let ux : u ≡ x = cc in (rw ux (ground arith), ap a (sym ux) ∙ free)
    | inr (b, set) ↦
        let rest = unassigned-head us x xs (sym (rw (set, unassigned) refl) ∙ e) in
        (ground (arith, rest.0), rest.1)
  ]

in_vars-insert_var :
    (v u : ℕ) (vs : List ℕ) → in_vars v (insert_var u vs) ≡ (v == u || in_vars v vs)
unfolding insert_var
in_vars-insert_var v u [] = refl
in_vars-insert_var v u (w ∷ ws) = ground (arith, in_vars-insert_var v u ws)

in_vars-insert_vars :
    (l : ℤ) (c : Lits) (vs : List ℕ)
    → member l c ≡ true
    → in_vars (variable l) (insert_vars c vs) ≡ true
unfolding insert_vars
in_vars-insert_vars l [] vs h = cc
in_vars-insert_vars l (x ∷ xs) vs h =
    in_vars-insert_var (variable l) (variable x) (insert_vars xs vs)
    ∙ elim (Bool-cases (int_eq l x)) [
      | inl e ↦
          let lx : variable l ≡ variable x = ap variable ((int_eq_iff l x).0 e) in
          rw ((==_iff (variable l) (variable x)).1 lx) refl
      | inr e ↦
          let rest = in_vars-insert_vars l xs vs (ground (arith, h, e)) in ground (arith, rest)
    ]

in_vars-insert_vars_old :
    (v : ℕ) (c : Lits) (vs : List ℕ) → in_vars v vs ≡ true → in_vars v (insert_vars c vs) ≡ true
unfolding insert_vars
in_vars-insert_vars_old v [] vs h = h
in_vars-insert_vars_old v (x ∷ xs) vs h =
    in_vars-insert_var v (variable x) (insert_vars xs vs)
    ∙ ground (arith, in_vars-insert_vars_old v xs vs h)

-- Every variable of the clauses is listed.
pub in_vars-all_vars :
    (cs : List Lits) (c : Lits) (l : ℤ)
    → InList c cs
    → member l c ≡ true
    → in_vars (variable l) (all_vars cs) ≡ true
unfolding all_vars
in_vars-all_vars [] c l i h = absurd i
in_vars-all_vars (d ∷ ds) c l (inl e) h =
    in_vars-insert_vars l d (all_vars ds) (ap (member l) e ∙ h)
in_vars-all_vars (d ∷ ds) c l (inr i) h =
    in_vars-insert_vars_old (variable l) d (all_vars ds) (in_vars-all_vars ds c l i h)

pub length-unassigned-le : (a : Partial) (vs : List ℕ) → length (unassigned a vs) ≤ length vs
unfolding unassigned
length-unassigned-le a [] = omega arith
length-unassigned-le a (v ∷ vs) =
    let rest = length-unassigned-le a vs in
    elim (Option-cases (a v)) [
      | inl free ↦ rw (free, unassigned) (omega (arith, rest))
      | inr (b, set) ↦ rw (set, unassigned) (omega (arith, rest))
    ]

insert_vars-pos :
    (c : Lits) (vs : List ℕ)
    → AllLiteral c
    → ((v : ℕ) → in_vars v vs ≡ true → 0 < v)
    → (v : ℕ) → in_vars v (insert_vars c vs) ≡ true
    → 0 < v
unfolding insert_vars
insert_vars-pos [] vs h k v e = k v e
insert_vars-pos (l ∷ ls) vs h k v e =
    let either = sym (in_vars-insert_var v (variable l) (insert_vars ls vs)) ∙ e in
    elim (Bool-cases (v == variable l)) [
      | inl same ↦ rw ((==_iff v (variable l)).0 same) h.0
      | inr other ↦ insert_vars-pos ls vs h.1 k v (ground (arith, either, other))
    ]

-- A variable of the clauses is not 0.
pub all_vars-pos :
    (cs : List Lits) → AllLiterals cs → (v : ℕ) → in_vars v (all_vars cs) ≡ true → 0 < v
unfolding all_vars
all_vars-pos [] h v e = cc
all_vars-pos (c ∷ cs) h v e = insert_vars-pos c (all_vars cs) h.0 (all_vars-pos cs h.1) v e
