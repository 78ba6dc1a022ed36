-- ===== src/Interp/Search.antt =====
-- The passes over the clauses, and the variables that are left.
use emergent_hardware_verifi.Interp.{
  unit, status, scan, quiet, first_unit, conflict, bool_eq, Scan, Partial, Lits,
}
use emergent_hardware_verifi.Sat.Literal.{
  ℤ, variable, pos, negsuc, member, lit_val, is_pos, int_eq_iff, int_eq, clause_val, IsLiteral,
  Assignment,
}
use emergent_hardware_verifi.Prelude.{
  ◌⊎◌, ◌≢◌, ◌≡◌, ◌∷◌, ◌∙◌, ℕ, ◌||◌, zero, true, sym, suc, some, refl, none, inr, inl, false, arith,
  ap, [], Option-cases, List-cases, List, Bool-cases, Bool, ◌==◌,
}

abbrev pub InList : Lits → List Lits → Type 0
InList c [] = ⊥
InList c (d ∷ ds) = (d ≡ c) ⊎ InList c ds

abbrev pub in_vars : ℕ → List ℕ → Bool
in_vars v [] = false
in_vars v (u ∷ us) = v == u || in_vars v us

-- A literal that is not 0 in each clause.
abbrev pub AllLiteral : Lits → Type 0
AllLiteral [] = Unit {0}
AllLiteral (l ∷ ls) = IsLiteral l × AllLiteral ls

abbrev pub AllLiterals : List Lits → Type 0
AllLiterals [] = Unit {0}
AllLiterals (c ∷ cs) = AllLiteral c × AllLiterals cs

abbrev pub completed : Partial → Assignment
completed a v = elim (a v) [ none ↦ false | some b ↦ b ]

pub AllLiteral-member : (l : ℤ) (c : Lits) → AllLiteral c → member l c ≡ true → IsLiteral l
AllLiteral-member l [] h k = cc
AllLiteral-member l (x ∷ xs) h k = elim (Bool-cases (int_eq l x)) [
  | inl e ↦ rw ((int_eq_iff l x).0 e) h.0
  | inr e ↦ AllLiteral-member l xs h.1 (ground (arith, k, e))
]

pub AllLiterals-InList : (c : Lits) (cs : List Lits) → AllLiterals cs → InList c cs → AllLiteral c
AllLiterals-InList c [] h i = absurd i
AllLiterals-InList c (d ∷ ds) h (inl e) = rw (← e) h.0
AllLiterals-InList c (d ∷ ds) h (inr i) = AllLiterals-InList c ds h.1 i

lit_true :
    (a : Partial) (l : ℤ) (b : Bool)
    → IsLiteral l
    → a (variable l) ≡ some b
    → bool_eq b (is_pos l) ≡ true
    → lit_val (completed a) l ≡ true
lit_true a (pos zero) b h e k = absurd (omega (arith, h))
lit_true a (pos (suc n)) true h e k = rw (e, completed) refl
lit_true a (pos (suc n)) false h e k = cc
lit_true a (negsuc n) true h e k = cc
lit_true a (negsuc n) false h e k = rw (e, completed) refl

-- A clause that the pass finds true is true in every completion that sets the rest to false.
pub status-none :
    (a : Partial) (c : Lits) → AllLiteral c → status a c ≡ none → clause_val (completed a) c ≡ true
unfolding status
status-none a [] h e = cc
status-none a (l ∷ ls) h e = elim (Option-cases (a (variable l))) [
  | inl free ↦ elim (Option-cases (status a ls)) [
    | inl closed ↦ let rest = status-none a ls h.1 closed in ground (arith, rest)
    | inr (un, more) ↦
        let bad : some (l ∷ un) ≡ none = sym (rw (free, status) (rw (more, status) refl)) ∙ e in cc
  ]
  | inr (b, set) ↦ elim (Bool-cases (bool_eq b (is_pos l))) [
    | inl t ↦ let here = lit_true a l b h.0 set t in ground (arith, here)
    | inr f ↦
        let rest_none : status a ls ≡ none = sym (rw (set, status) (rw f refl)) ∙ e in
        let rest = status-none a ls h.1 rest_none in ground (arith, rest)
  ]
]

-- What is left of a clause is unassigned.
pub status-some :
    (a : Partial) (c : Lits) (l : ℤ) (un : Lits)
    → status a c ≡ some (l ∷ un)
    → (member l c ≡ true) × (a (variable l) ≡ none)
unfolding status
status-some a [] l un e = cc
status-some a (x ∷ xs) l un e = elim (Option-cases (a (variable x))) [
  | inl free ↦ elim (Option-cases (status a xs)) [
    | inl closed ↦
        let bad : none ≡ some (l ∷ un) = sym (rw (free, status) (rw (closed, status) refl)) ∙ e in
        cc
    | inr (vs, more) ↦
        let same : some (x ∷ vs) ≡ some (l ∷ un) =
          sym (rw (free, status) (rw (more, status) refl)) ∙ e in
        let xl : x ≡ l = cc in
        (rw xl (ground (arith, (int_eq_iff l l).1 refl)), ap (λ k. a (variable k)) (sym xl) ∙ free)
  ]
  | inr (b, set) ↦ elim (Bool-cases (bool_eq b (is_pos x))) [
    | inl t ↦ let bad : none ≡ some (l ∷ un) = sym (rw (set, status) (rw t refl)) ∙ e in cc
    | inr f ↦
        let rest = status-some a xs l un (sym (rw (set, status) (rw f refl)) ∙ e) in
        (ground (arith, rest.0), rest.1)
  ]
]

-- Each clause is true, or has a literal that is unassigned.
abbrev pub Settled : Partial → List Lits → Type 0
Settled a [] = Unit {0}
Settled a (c ∷ cs) =
    ((status a c ≡ none) ⊎ ((l : ℤ) × (un : Lits) × (status a c ≡ some (l ∷ un)))) × Settled a cs

-- What a pass over the clauses says.
abbrev pub ScanSays : Partial → List Lits → Scan → Scan → Type 0
ScanSays a cs found (conflict c) = InList c cs
ScanSays a cs found (unit l why) =
    (found ≡ unit l why) ⊎ (InList why cs × (member l why ≡ true) × (a (variable l) ≡ none))
ScanSays a cs found quiet = (found ≡ quiet) × Settled a cs

ScanSays-skip :
    (a : Partial) (c : Lits) (cs : List Lits) (found result : Scan)
    → status a c ≡ none
    → ScanSays a cs found result
    → ScanSays a (c ∷ cs) found result
ScanSays-skip a c cs found (conflict d) e h = inr h
ScanSays-skip a c cs found (unit l why) e (inl h) = inl h
ScanSays-skip a c cs found (unit l why) e (inr h) = inr (inr h.0, h.1, h.2)
ScanSays-skip a c cs found quiet e h = (h.0, (inl e, h.1))

ScanSays-open :
    (a : Partial) (c : Lits) (cs : List Lits) (found result : Scan) (l : ℤ) (un : Lits)
    → status a c ≡ some (l ∷ un)
    → ScanSays a cs (first_unit found l un c) result
    → ScanSays a (c ∷ cs) found result
ScanSays-open a c cs found (conflict d) l un e h = inr h
ScanSays-open a c cs found (unit k why) l un e (inr h) = inr (inr h.0, h.1, h.2)
ScanSays-open a c cs (conflict d) (unit k why) l un e (inl h) = cc
ScanSays-open a c cs (unit j d) (unit k why) l un e (inl h) = inl h
ScanSays-open a c cs quiet (unit k why) l [] e (inl h) =
    let cw : c ≡ why = cc in
    let lk : l ≡ k = cc in
    let (m, free) = status-some a c l [] e in inr (inl cw, rw (← cw, ← lk) m, rw (← lk) free)
ScanSays-open a c cs quiet (unit k why) l (u ∷ us) e (inl h) = cc
ScanSays-open a c cs (conflict d) quiet l un e h = cc
ScanSays-open a c cs (unit j d) quiet l un e h = cc
ScanSays-open a c cs quiet quiet l un e h = (refl, (inr (l, un, e), h.1))

pub scan-ScanSays :
    (a : Partial) (cs : List Lits) (found : Scan) (result : Scan)
    → ((c : Lits) → found ≢ conflict c)
    → scan a cs found ≡ result
    → ScanSays a cs found result
unfolding scan
scan-ScanSays a [] (conflict c) result n e = absurd (n c refl)
scan-ScanSays a [] (unit l why) result n e = rw (← e) (inl refl)
scan-ScanSays a [] quiet result n e = rw (← e) (refl, tt)
scan-ScanSays a (c ∷ cs) found result n e = elim (Option-cases (status a c)) [
  | inl closed ↦
      ScanSays-skip a c cs found result closed
        (scan-ScanSays a cs found result n (sym (rw (closed, scan) refl) ∙ e))
  | inr (un, left) ↦ elim (List-cases un) [
    | inl empty ↦
        let same : scan a (c ∷ cs) found ≡ conflict c = rw (left, scan) (rw empty refl) in
        let ends : conflict c ≡ result = sym same ∙ e in rw (← ends) (inl refl)
    | inr (l, more, some_left) ↦
        let here : status a c ≡ some (l ∷ more) = left ∙ ap some some_left in
        ScanSays-open a c cs found result l more here (
          scan-ScanSays a cs (first_unit found l more c) result (keeps found l more c n)
            (sym (rw (here, scan) refl) ∙ e))
  ]
]
  where
    keeps :
        (found : Scan) (l : ℤ) (un c : Lits)
        → ((d : Lits) → found ≢ conflict d)
        → (d : Lits) → first_unit found l un c ≢ conflict d
    keeps (conflict b) l un c n d h = absurd (n b refl)
    keeps (unit k w) l un c n d h = cc
    keeps quiet l [] c n d h = cc
    keeps quiet l (u ∷ us) c n d h = cc
