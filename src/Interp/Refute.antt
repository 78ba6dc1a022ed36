-- ===== src/Interp/Refute.antt =====
-- dpll_prove ends; its SAT answer has a model, and its UNSAT answer has a valid proof.
use emergent_hardware_verifi.Frame.Fresh.{listed}
use emergent_hardware_verifi.Interp.Vars.{
  all_vars-pos, unassigned-head, unassigned-assign-lt, length-unassigned-le, unassigned-in_vars,
  in_vars-all_vars,
}
use emergent_hardware_verifi.Circuit.Meaning.{all}
use emergent_hardware_verifi.Interp.{
  load, dpll_prove, clauses_of, assign, unit, scan, rec, quiet, conflict, Scan, unassigned, status,
  set_default, sat, resolve, res, refuted, out_of_fuel, mentions, join, explain, all_vars, Tag,
  Proof, Partial, Lits, Found,
}
use emergent_hardware_verifi.Sat.Literal.{
  is_pos, ℤ, variable, pos, negsuc, neg, member, clause_val, IsLiteral, Assignment,
}
use emergent_hardware_verifi.Interp.Entails.{
  load-Valid, load-HasAll, HasAll, Has, set_default-Valid, set_default-Has_self, set_default-Has,
  Valid, AllTrue,
}
use emergent_hardware_verifi.Interp.Search.{
  ScanSays, AllLiterals-InList, AllLiteral-member, scan-ScanSays, in_vars, status-some, status-none,
  completed, Settled, InList, AllLiterals,
}
use emergent_hardware_verifi.Prelude.{
  List-cases, length, ◌⊎◌, ◌≡◌, ◌∷◌, ℕ, zero, true, suc, some, refl, none, inr, inl, false,
  if◌then◌else◌, arith, [], List, Bool-cases, Bool, ◌<◌,
}

abbrev Keeps : Proof → Proof → Type 0
Keeps π π' = (c : Lits) → Has π c → Has π' c

-- What an answer of `rec` says, given the proof before it.
abbrev Says : List (Lits × Tag) → List Lits → Proof → Found → Type 0
Says ts cs π sat = (μ : Assignment) × AllTrue μ cs
Says ts cs π (refuted c π') = Valid ts π' × Has π' c × Keeps π π'
Says ts cs π out_of_fuel = ⊥

-- The literals of `order`, and their reasons.
abbrev Reasons : Proof → List (ℤ × Lits) → Type 0
Reasons π [] = Unit {0}
Reasons π ((l, why) ∷ order) = (IsLiteral l × Has π why) × Reasons π order

neg-IsLiteral : (l : ℤ) → IsLiteral l → IsLiteral (neg l)
neg-IsLiteral (pos zero) h = h
neg-IsLiteral (pos (suc n)) h = h
neg-IsLiteral (negsuc n) h = omega arith

Reasons-Keeps :
    (π π' : Proof) (order : List (ℤ × Lits)) → Keeps π π' → Reasons π order → Reasons π' order
Reasons-Keeps π π' [] k r = tt
Reasons-Keeps π π' ((l, why) ∷ order) k r = ((r.0.0, k why r.0.1), Reasons-Keeps π π' order k r.1)

HasAll-Keeps : (π π' : Proof) (cs : List Lits) → Keeps π π' → HasAll π cs → HasAll π' cs
HasAll-Keeps π π' [] k h = tt
HasAll-Keeps π π' (c ∷ cs) k h = (k c h.0, HasAll-Keeps π π' cs k h.1)

HasAll-InList : (π : Proof) (cs : List Lits) (c : Lits) → HasAll π cs → InList c cs → Has π c
HasAll-InList π [] c h i = absurd i
HasAll-InList π (d ∷ ds) c h (inl e) = rw (← e) h.0
HasAll-InList π (d ∷ ds) c h (inr i) = HasAll-InList π ds c h.1 i

-- Nothing unassigned and nothing to do: the assignment is a model.
Settled-AllTrue :
    (a : Partial) (all cs : List Lits)
    → AllLiterals cs
    → ((c : Lits) → InList c cs → InList c all)
    → unassigned a (all_vars all) ≡ []
    → Settled a cs
    → AllTrue (completed a) cs
Settled-AllTrue a all [] l i e s = tt
Settled-AllTrue a all (c ∷ cs) l i e s =
    (here s.0, Settled-AllTrue a all cs l.1 (λ d k. i d (inr k)) e s.1)
  where
    here :
        (status a c ≡ none) ⊎ ((k : ℤ) × (un : Lits) × (status a c ≡ some (k ∷ un)))
        → clause_val (completed a) c ≡ true
    here (inl closed) = status-none a c l.0 closed
    here (inr (k, un, left)) =
        let (m, free) = status-some a c k un left in
        absurd (
          unassigned-in_vars a (variable k) (all_vars all)
            (in_vars-all_vars all c k (i c (inl refl)) m) free e)

Scan-cases :
    (s : Scan)
    → ((c : Lits) × (s ≡ conflict c)) ⊎ (((l : ℤ) × (why : Lits) × (s ≡ unit l why)) ⊎ (s ≡ quiet))
Scan-cases (conflict c) = inl (c, refl)
Scan-cases (unit l why) = inr (inl (l, why, refl))
Scan-cases quiet = inr (inr refl)

new_unit :
    (a : Partial) (cs : List Lits) (l : ℤ) (why : Lits)
    → ScanSays a cs quiet (unit l why)
    → InList why cs × (member l why ≡ true) × (a (variable l) ≡ none)
new_unit a cs l why (inl h) = cc
new_unit a cs l why (inr h) = h

module _ (ts : List (Lits × Tag)) where
  -- One resolution, put into the proof.
  res-Says :
      (cs : List Lits) (l r : Lits) (x : ℤ) (π : Proof)
      → Valid ts π
      → Has π l
      → Has π r
      → IsLiteral x
      → Says ts cs π (refuted (resolve l r x) (set_default (resolve l r x) (res l r x) π))
  res-Says cs l r x π v hl hr il =
      let c = resolve l r x in
      (
        set_default-Valid ts c (res l r x) π v (refl, hl, hr, il),
        set_default-Has_self c (res l r x) π,
        set_default-Has c (res l r x) π,
      )

  explain-Says :
      (cs : List Lits) (order : List (ℤ × Lits)) (c : Lits) (π : Proof)
      → Valid ts π
      → Has π c
      → Reasons π order
      → Says ts cs π (refuted (explain order c π).0 (explain order c π).1)
  unfolding explain
  explain-Says cs [] c π v h r = (v, h, λ d k. k)
  explain-Says cs ((l, why) ∷ order) c π v h r = elim (Bool-cases (member (neg l) c)) [
    | inr e ↦ rw (e, explain) (explain-Says cs order c π v h r.1)
    | inl e ↦
        let nc = resolve c why (neg l) in
        let π1 = set_default nc (res c why (neg l)) π in
        let one = res-Says cs c why (neg l) π v h r.0.1 (neg-IsLiteral l r.0.0) in
        let rest = explain-Says cs order nc π1 one.0 one.1 (Reasons-Keeps π π1 order one.2 r.1) in
        rw (e, explain) (rest.0, rest.1, λ d k. rest.2 d (one.2 d k))
  ]

  later-Says :
      (cs : List Lits) (π π1 : Proof) (found : Found)
      → Keeps π π1
      → Says ts cs π1 found
      → Says ts cs π found
  later-Says cs π π1 sat k s = s
  later-Says cs π π1 (refuted c π') k s = (s.0, s.1, λ d h. s.2 d (k d h))
  later-Says cs π π1 out_of_fuel k s = s

  join-Says :
      (cs : List Lits) (x : ℕ) (c0 : Lits) (π1 : Proof) (found : Found)
      → 0 < x
      → Has π1 c0
      → Says ts cs π1 found
      → Says ts cs π1 (join x c0 found)
  unfolding join
  join-Says cs x c0 π1 sat il h s = s
  join-Says cs x c0 π1 out_of_fuel il h s = s
  join-Says cs x c0 π1 (refuted c1 π2) il h s = elim (Bool-cases (mentions x c1)) [
    | inr e ↦ rw e s
    | inl e ↦ rw e (
        later-Says cs π1 π2 (refuted _ _) s.2 (
          res-Says cs c0 c1 (if member (pos x) c0 then pos x else neg (pos x)) π2 s.0 (s.2 c0 h) s.1
            (pivot-IsLiteral (member (pos x) c0))))
  ]
    where
      pivot-IsLiteral : (b : Bool) → IsLiteral (if b then pos x else neg (pos x))
      pivot-IsLiteral true = il
      pivot-IsLiteral false = neg-IsLiteral (pos x) il

  -- The clauses are in the proof that an answer leaves.
  abbrev Ready : List Lits → Proof → Type 0
  Ready cs π = Valid ts π × HasAll π cs

  -- A branch on `x`, given what the two calls say.
  branch-Says :
      (f : ℕ) (cs : List Lits) (a : Partial) (π : Proof) (x : ℕ)
      → 0 < x
      → Ready cs π
      → ((b : Bool) (π1 : Proof)
          → Ready cs π1
          → Says ts cs π1 (rec f cs (all_vars cs) (assign a x b) [] π1))
      → Says ts cs π (elim (rec f cs (all_vars cs) (assign a x false) [] π) [
        | sat ↦ sat
        | out_of_fuel ↦ out_of_fuel
        | refuted c0 π1 ↦ elim (mentions x c0) [
          | false ↦ refuted c0 π1
          | true ↦ join x c0 (rec f cs (all_vars cs) (assign a x true) [] π1)
        ]
      ])
  branch-Says f cs a π x il ready calls =
      go (rec f cs (all_vars cs) (assign a x false) [] π) (calls false π ready)
    where
      go :
          (found : Found)
          → Says ts cs π found
          → Says ts cs π (elim found [
            | sat ↦ sat
            | out_of_fuel ↦ out_of_fuel
            | refuted c0 π1 ↦ elim (mentions x c0) [
              | false ↦ refuted c0 π1
              | true ↦ join x c0 (rec f cs (all_vars cs) (assign a x true) [] π1)
            ]
          ])
      go sat s = s
      go out_of_fuel s = s
      go (refuted c0 π1) s = elim (Bool-cases (mentions x c0)) [
        | inr e ↦ rw e s
        | inl e ↦
            let ready1 : Ready cs π1 = (s.0, HasAll-Keeps π π1 cs s.2 ready.1) in
            let second = calls true π1 ready1 in
            rw e (
              later-Says cs π π1 (join x c0 (rec f cs (all_vars cs) (assign a x true) [] π1)) s.2 (
                join-Says cs x c0 π1 (rec f cs (all_vars cs) (assign a x true) [] π1) il s.1
                  second))
      ]

  rec-Says :
      (f : ℕ) (cs : List Lits) (a : Partial) (order : List (ℤ × Lits)) (π : Proof)
      → AllLiterals cs
      → length (unassigned a (all_vars cs)) < f
      → Ready cs π
      → Reasons π order
      → ((v : ℕ) → in_vars v (all_vars cs) ≡ true → 0 < v)
      → Says ts cs π (rec f cs (all_vars cs) a order π)
  unfolding rec
  rec-Says zero cs a order π ls m v r pos_vars = absurd (omega (arith, m))
  rec-Says (suc f) cs a order π ls m v r pos_vars = elim (Scan-cases (scan a cs quiet)) [
    | inl (c, e) ↦
        let i = scan-ScanSays a cs quiet (conflict c) (λ d k. cc) e in
        rw (e, rec) (explain-Says cs order c π v.0 (HasAll-InList π cs c v.1 i) r)
    | inr (inl (l, why, e)) ↦
        let (i, mem, free) =
          new_unit a cs l why (scan-ScanSays a cs quiet (unit l why) (λ d k. cc) e) in
        let k = variable l in
        let fewer =
          unassigned-assign-lt a k (is_pos l) (all_vars cs) (in_vars-all_vars cs why l i mem)
            free in
        let lit = AllLiteral-member l why (AllLiterals-InList why cs ls i) mem in
        rw (e, rec)
          (rec-Says f cs (assign a k (is_pos l)) ((l, why) ∷ order) π ls (omega (arith, m, fewer)) v
            ((lit, HasAll-InList π cs why v.1 i), r) pos_vars)
    | inr (inr e) ↦
        let settled = (scan-ScanSays a cs quiet quiet (λ d k. cc) e).1 in
        rw (e, rec)
          (elim (List-cases (unassigned a (all_vars cs))) [
            | inl none_left ↦
                rw (none_left, rec)
                  (completed a, Settled-AllTrue a cs cs ls (λ c i. i) none_left settled)
            | inr (x, xs, some_left) ↦
                let (listed, free) = unassigned-head a (all_vars cs) x xs some_left in
                rw (some_left, rec)
                  (branch-Says f cs a π x (pos_vars x listed) v (λ b π1 ready.
                    rec-Says f cs (assign a x b) [] π1 ls
                      (omega (arith, m, unassigned-assign-lt a x b (all_vars cs) listed free)) ready
                      tt pos_vars))
          ])
  ]

-- What dpll_prove says of the two halves: SAT comes with a model of the clauses, and UNSAT with a
-- valid proof that derives the clause which is returned.
abbrev pub Decided : List (Lits × Tag) → Found → Type 0
Decided ts sat = (μ : Assignment) × AllTrue μ (clauses_of ts)
Decided ts (refuted c π) = Valid ts π × Has π c
Decided ts out_of_fuel = ⊥

-- For clauses of literals, dpll_prove ends. Its answer SAT comes with a model of the clauses; its
-- answer UNSAT comes with a proof in which no clause has two entries and each is a clause of its
-- side or a resolvent of earlier ones, and which holds the clause that is returned.
pub dpll_prove-Decided :
    (ts : List (Lits × Tag)) → AllLiterals (clauses_of ts) → Decided ts (dpll_prove ts)
unfolding dpll_prove
dpll_prove-Decided ts h =
    let cs = clauses_of ts in
    let π = load ts [] in
    let v = load-Valid ts ts [] (λ tag c i. i) tt in
    forget cs π (dpll_prove ts) (
      rec-Says ts (suc (length (all_vars cs))) cs (λ _. none) [] π h
        (omega (arith, length-unassigned-le (λ _. none) (all_vars cs))) (v, load-HasAll ts []) tt
        (all_vars-pos cs h))
  where
    forget :
        (cs : List Lits) (π : Proof) (found : Found)
        → Says ts (clauses_of ts) π found
        → Decided ts found
    forget cs π sat s = s
    forget cs π (refuted c π') s = (s.0, s.1)
    forget cs π out_of_fuel s = s
