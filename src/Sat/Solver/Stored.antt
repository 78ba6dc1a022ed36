-- ===== src/Sat/Solver/Stored.antt =====
-- `add_clause` as a whole: a clause of two or more literals is stored and watched by its first two.
use emergent_hardware_verifi.Sat.Solver.Cancel.{cancel_until-Rooted}
use emergent_hardware_verifi.Sat.Solver.Add.{
  simplified_val-simplify, simplified_val, KeptKnown-simplify,
}
use emergent_hardware_verifi.Sat.Literal.{clause_val, Assignment, ℤ, pos, negsuc, neg, int_eq}
use native.Mathlib.Numerals.{add-one}
use emergent_hardware_verifi.Sat.Solver.{
  simplify, cancel_until, ◌>>=◌, watch, put_int, attach, add_simplified, add_clause, Solver, Ref,
  Dict, Clause,
}
use emergent_hardware_verifi.Sat.Solver.Unit.{unit_clause, empty_clause, Answered}
use emergent_hardware_verifi.Sat.Solver.Meaning.{
  formula_val, clauses_val-added, Known, IsWellFormed, AllKnown, AllBelow-added,
}
use emergent_hardware_verifi.Prelude.{
  ◌&&◌, ◌∙◌, sym, none, ap₂, ap, Option, ◌≡◌, ◌∷◌, ℕ, zero, true, suc, some, refl, length-append,
  length, inr, inl, false, arith, [], List, Bool-cases, ◌++◌,
}

-- Every literal of a known variable keeps a watch list.
abbrev HasWatches : Solver → Type 0
HasWatches s = (l : ℤ) → Known s.n_vars l → (ws : List Ref) × (s.watches l ≡ some ws)

abbrev with_watches : Solver → Dict ℤ (List Ref) → Solver
with_watches s d = record s { watches = d }

record Watched (s : Solver) (l : ℤ) (c : Ref) : Type 0 where
  lists : Dict ℤ (List Ref)
  watched : watch l c s ≡ some (tt, with_watches s lists)
  keeps : HasWatches (with_watches s lists)

neg-Known : (n : ℕ) (l : ℤ) → Known n l → Known n (neg l)
neg-Known n (pos zero) h = absurd (omega arith)
neg-Known n (pos (suc m)) h = h
neg-Known n (negsuc m) h = h

watch-Watched : (s : Solver) (l : ℤ) (c : Ref) → HasWatches s → Known s.n_vars l → Watched s l c
unfolding watch
watch-Watched s l c h k =
    let (ws, e) = h (neg l) (neg-Known s.n_vars l k) in
    record {
      lists = put_int s.watches (neg l) (ws ++ c ∷ []);
      watched = rw (e, watch) refl;
      keeps = λ q kq. elim (Bool-cases (int_eq (neg l) q)) [
        | inl same ↦ (ws ++ c ∷ [], rw same refl)
        | inr other ↦ let (vs, f) = h q kq in (vs, rw other f)
      ];
    }

record Attached (s : Solver) (a b : ℤ) (c : Ref) : Type 0 where
  lists : Dict ℤ (List Ref)
  attached : attach a b c s ≡ some (tt, with_watches s lists)
  keeps : HasWatches (with_watches s lists)

attach-Attached :
    (s : Solver) (a b : ℤ) (c : Ref)
    → HasWatches s
    → Known s.n_vars a
    → Known s.n_vars b
    → Attached s a b c
unfolding attach
attach-Attached s a b c h ka kb =
    let first = watch-Watched s a c h ka in
    let second = watch-Watched (with_watches s first.lists) b c first.keeps kb in
    record {
      lists = second.lists;
      attached = rw (first.watched, ◌>>=◌) second.watched;
      keeps = second.keeps;
    }

module _ (s : Solver) (w : IsWellFormed s) (root : s.trail_lim ≡ []) where
  abbrev with_clause : List ℤ → Solver
  with_clause ls = record s {
    store = s.store ++ record { lits = ls; learnt = false } ∷ [];
    clauses = s.clauses ++ length s.store ∷ [];
  }

  stored_clause :
      (a b : ℤ) (ls : List ℤ)
      → AllKnown s.n_vars (a ∷ b ∷ ls)
      → Answered s (a ∷ b ∷ ls) (add_simplified (a ∷ b ∷ ls) s)
  unfolding add_simplified formula_val
  stored_clause a b ls k =
      let c : Clause = record { lits = a ∷ b ∷ ls; learnt = false } in
      let hung =
        attach-Attached (with_clause (a ∷ b ∷ ls)) a b (length s.store) w.has_watches k.0 k.1.0 in
      record {
        ok = true;
        after = with_watches (with_clause (a ∷ b ∷ ls)) hung.lists;
        returns = rw (hung.attached, add_simplified) refl;
        added = record {
          well_formed = record {
            stored =
                rw (length-append s.store (c ∷ []))
                  (rw add-one (AllBelow-added (length s.store) s.clauses w.stored));
            assigned = w.assigned;
            has_assign = w.has_assign;
            has_watches = hung.keeps;
          };
          no_levels = root;
          conjoined =
              λ μ. rw root (ground (arith, clauses_val-added μ s.store c s.clauses w.stored));
          same_vars = refl;
          same_true = refl;
        };
        refuted = λ e. cc;
      }

  add_simplified-Answered :
      (out : List ℤ) → AllKnown s.n_vars out → Answered s out (add_simplified out s)
  add_simplified-Answered [] k = empty_clause s w root
  add_simplified-Answered (l ∷ []) k = unit_clause s w root l k.0
  add_simplified-Answered (a ∷ b ∷ ls) k = stored_clause a b ls k

-- The clause means what is left of it.
kept-means :
    (μ : Assignment) (n : ℕ) (lits : List ℤ) (o : Option (List ℤ))
    → AllKnown n lits
    → simplify lits [] ≡ o
    → clause_val μ lits ≡ simplified_val μ o
kept-means μ n lits o k e = sym (simplified_val-simplify μ n lits [] k) ∙ ap (simplified_val μ) e

finish_add :
    (s : Solver) (lits : List ℤ) (o : Option (List ℤ))
    → simplify lits [] ≡ o
    → IsWellFormed s
    → AllKnown s.n_vars lits
    → Answered s lits (add_clause lits s)
unfolding add_clause
finish_add s lits none e w k =
    let r = cancel_until-Rooted s w in
    record {
      ok = true;
      after = cancel_until 0 s;
      returns = rw (e, add_clause) refl;
      added = record {
        well_formed = r.well_formed;
        no_levels = r.no_levels;
        conjoined = λ μ. r.same_formula μ ∙ ground (arith, kept-means μ s.n_vars lits none k e);
        same_vars = r.same_vars;
        same_true = r.same_true;
      };
      refuted = λ h. cc;
    }
finish_add s lits (some out) e w k =
    let r = cancel_until-Rooted s w in
    let t = cancel_until 0 s in
    let known : AllKnown s.n_vars out = rw e at (KeptKnown-simplify s.n_vars lits [] k tt) in
    let ans = add_simplified-Answered t r.well_formed r.no_levels out (rw r.same_vars known) in
    record {
      ok = ans.ok;
      after = ans.after;
      returns = rw (e, add_clause) ans.returns;
      added = record {
        well_formed = ans.added.well_formed;
        no_levels = ans.added.no_levels;
        conjoined = λ μ.
            ans.added.conjoined μ
            ∙ ap₂ ◌&&◌ (r.same_formula μ) (sym (kept-means μ s.n_vars lits (some out) k e));
        same_vars = ans.added.same_vars ∙ r.same_vars;
        same_true = ans.added.same_true ∙ r.same_true;
      };
      refuted = ans.refuted;
    }

-- On a well-formed solver and a clause over its variables, add_clause returns; the new state is
-- well formed, has no decision level and the same variables, its formula is the old formula and
-- the clause, and the answer False is given only when the new formula has no model.
pub add_clause-Answered :
    (s : Solver) (lits : List ℤ)
    → IsWellFormed s
    → AllKnown s.n_vars lits
    → Answered s lits (add_clause lits s)
add_clause-Answered s lits w k = finish_add s lits (simplify lits []) refl w k
