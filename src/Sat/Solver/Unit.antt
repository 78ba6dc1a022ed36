-- ===== src/Sat/Solver/Unit.antt =====
-- `add_clause` on what simplification leaves: nothing, a unit, or a clause to watch.
use emergent_hardware_verifi.Sat.Solver.Cancel.{member-append}
use emergent_hardware_verifi.Sat.Solver.{value, with_assigned, enqueue, add_simplified, Solver, Ref}
use emergent_hardware_verifi.Sat.Solver.Meaning.{
  root_of, formula_val, clauses_val, Known, IsWellFormed,
}
use emergent_hardware_verifi.Sat.Literal.{
  pos, negsuc, int_eq_iff, all_true-append, ℤ, variable, neg, member, lit_val-neg, lit_val, is_pos,
  clause_val, all_true-member, all_true, IsLiteral, Assignment,
}
use emergent_hardware_verifi.Sat.Solver.Add.{ValueView, view, is_true, is_free, is_false, Added}
use emergent_hardware_verifi.Prelude.{
  zero, suc, none, ==_iff, ◌≡◌, ◌∷◌, ◌∙◌, true, sym, some, refl, inr, inl, flip, false, arith, ap,
  [], Option, List, Bool-cases, Bool, ◌==◌, ◌&&◌,
}

pub record Answered (s : Solver) (clause : List ℤ) (result : Option (Bool × Solver)) : Type 0 where
  pub ok : Bool
  pub after : Solver
  pub returns : result ≡ some (ok, after)
  pub added : Added s clause after
  -- The answer False means that nothing satisfies the formula any more.
  pub refuted : ok ≡ false → (μ : Assignment) → formula_val μ after ≡ false

literal_eq : (a b : ℤ) → IsLiteral a → variable a ≡ variable b → is_pos a ≡ is_pos b → a ≡ b
literal_eq (pos zero) b h e k = absurd (omega arith)
literal_eq (pos (suc a)) (pos zero) h e k = cc
literal_eq (pos (suc a)) (pos (suc b)) h e k = ap pos e
literal_eq (pos (suc a)) (negsuc b) h e k = cc
literal_eq (negsuc a) (pos zero) h e k = absurd (omega arith)
literal_eq (negsuc a) (pos (suc b)) h e k = cc
literal_eq (negsuc a) (negsuc b) h e k = ap negsuc (omega arith)

-- A new entry of the trail keeps a solver well formed.
pub with_assigned-IsWellFormed :
    (s : Solver)
    → IsWellFormed s
    → (l : ℤ) (why : Option Ref) → Known s.n_vars l
    → IsWellFormed (with_assigned l why s)
with_assigned-IsWellFormed s w l why k = record {
  stored = w.stored;
  assigned = λ q iq h. elim (Bool-cases (variable l == variable q)) [
    | inl e ↦
        let sign : is_pos l ≡ is_pos q = ground (arith, h, e) in
        let same : q ≡ l = literal_eq q l iq (sym ((==_iff _ _).0 e)) (sym sign) in
        rw (member-append q s.trail (l ∷ []), same) (rw ((int_eq_iff l l).1 refl) (ground arith))
    | inr e ↦
        let old : member q s.trail ≡ true = w.assigned q iq (ground (arith, h, e)) in
        rw (member-append q s.trail (l ∷ [])) (rw old refl)
  ];
  has_assign = λ v lo hi. elim (Bool-cases (variable l == v)) [
    | inl e ↦ (some (is_pos l), rw e refl)
    | inr e ↦ let (x, h) = w.has_assign v lo hi in (x, rw e h)
  ];
  has_watches = w.has_watches;
}

module _ (s : Solver) (w : IsWellFormed s) (root : s.trail_lim ≡ []) where
  formula_val-root :
      (μ : Assignment)
      → formula_val μ s ≡ (flip s.empty && (all_true μ s.trail && clauses_val μ s.store s.clauses))
  unfolding formula_val
  formula_val-root μ =
      ap
        (λ lims.
          flip s.empty && (all_true μ (root_of s.trail lims) && clauses_val μ s.store s.clauses))
        root

  pub empty_clause : Answered s [] (add_simplified [] s)
  unfolding add_simplified formula_val
  empty_clause = record {
    ok = false;
    after = record s { empty = true };
    returns = refl;
    added = record {
      well_formed = record {
        stored = w.stored;
        assigned = w.assigned;
        has_assign = w.has_assign;
        has_watches = w.has_watches;
      };
      no_levels = root;
      conjoined = λ μ. ground arith;
      same_vars = refl;
      same_true = refl;
    };
    refuted = λ _ μ. refl;
  }

  -- A literal on the root trail is a consequence of the formula.
  formula-member :
      (μ : Assignment) (l : ℤ)
      → member l s.trail ≡ true
      → formula_val μ s ≡ true
      → lit_val μ l ≡ true
  formula-member μ l m h =
      let parts = sym (formula_val-root μ) ∙ h in
      all_true-member μ l s.trail m (ground (arith, parts))

  formula-true_unit :
      (μ : Assignment) (l : ℤ)
      → member l s.trail ≡ true
      → formula_val μ s ≡ (formula_val μ s && clause_val μ (l ∷ []))
  formula-true_unit μ l m = elim (Bool-cases (formula_val μ s)) [
    | inl e ↦ rw e (rw (formula-member μ l m e) refl)
    | inr e ↦ rw e refl
  ]

  formula-false_unit :
      (μ : Assignment) (l : ℤ)
      → IsLiteral l
      → member (neg l) s.trail ≡ true
      → false ≡ (formula_val μ s && clause_val μ (l ∷ []))
  formula-false_unit μ l il m = elim (Bool-cases (formula_val μ s)) [
    | inl e ↦
        let opposite : flip (lit_val μ l) ≡ true =
          sym (lit_val-neg μ l il) ∙ formula-member μ (neg l) m e in
        rw e (ground (arith, opposite))
    | inr e ↦ rw e refl
  ]

  enqueue-known :
      (l : ℤ) (why : Option Ref) (b : Bool)
      → value l s ≡ some (some b)
      → enqueue l why s ≡ some (b, s)
  unfolding enqueue
  enqueue-known l why b e = rw (e, enqueue) refl

  enqueue-free :
      (l : ℤ) (why : Option Ref)
      → value l s ≡ some none
      → enqueue l why s ≡ some (true, with_assigned l why s)
  unfolding enqueue
  enqueue-free l why e = rw (e, enqueue) refl

  unit_free :
      (l : ℤ)
      → Known s.n_vars l
      → value l s ≡ some none
      → Answered s (l ∷ []) (add_simplified (l ∷ []) s)
  unfolding add_simplified formula_val
  unit_free l k v = record {
    ok = true;
    after = with_assigned l none s;
    returns = rw (enqueue-free l none v, add_simplified) refl;
    added = record {
      well_formed = with_assigned-IsWellFormed s w l none k;
      no_levels = root;
      conjoined = λ μ. rw root (ground (arith, all_true-append μ s.trail (l ∷ [])));
      same_vars = refl;
      same_true = refl;
    };
    refuted = λ e. cc;
  }

  unit_true :
      (l : ℤ)
      → value l s ≡ some (some true)
      → member l s.trail ≡ true
      → Answered s (l ∷ []) (add_simplified (l ∷ []) s)
  unfolding add_simplified
  unit_true l v m = record {
    ok = true;
    after = s;
    returns = rw (enqueue-known l none true v, add_simplified) refl;
    added = record {
      well_formed = w;
      no_levels = root;
      conjoined = λ μ. formula-true_unit μ l m;
      same_vars = refl;
      same_true = refl;
    };
    refuted = λ e. cc;
  }

  unit_false :
      (l : ℤ)
      → Known s.n_vars l
      → value l s ≡ some (some false)
      → member (neg l) s.trail ≡ true
      → Answered s (l ∷ []) (add_simplified (l ∷ []) s)
  unfolding add_simplified formula_val
  unit_false l k v m = record {
    ok = false;
    after = record s { empty = true };
    returns = rw (enqueue-known l none false v, add_simplified) refl;
    added = record {
      well_formed = record {
        stored = w.stored;
        assigned = w.assigned;
        has_assign = w.has_assign;
        has_watches = w.has_watches;
      };
      no_levels = root;
      conjoined = λ μ. formula-false_unit μ l k.0 m;
      same_vars = refl;
      same_true = refl;
    };
    refuted = λ e μ. refl;
  }

  pub unit_clause : (l : ℤ) → Known s.n_vars l → Answered s (l ∷ []) (add_simplified (l ∷ []) s)
  unit_clause l k = split (view s l w k)
    where
      split : ValueView s l → Answered s (l ∷ []) (add_simplified (l ∷ []) s)
      split (is_true v m) = unit_true l v m
      split (is_false v m) = unit_false l k v m
      split (is_free v a) = unit_free l k v
