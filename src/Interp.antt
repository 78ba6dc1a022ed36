-- ===== src/Interp.antt =====
-- interp.py: `class Proof`, `resolve`, the proof-producing DPLL `dpll_prove`, and `mcmillan`.
-- A frozenset of literals is a list without repetitions; a dictionary keyed by such sets is searched
-- up to the order of their literals.
pub mod Sets
pub mod Entails
pub mod Search
pub mod Vars
pub mod Refute
pub mod Partial
pub mod Interpolant
mod Tests
use emergent_hardware_verifi.Sat.Literal.{ℤ, variable, pos, neg, member, is_pos, int_eq}
use emergent_hardware_verifi.Circuit.Sig.{true_sig, or_sig, false_sig, and_sig, Sig, Build}
use emergent_hardware_verifi.Prelude.{
  ◌∷◌, ℕ, ◌||◌, zero, true, suc, some, none, ltb, length, flip, false, if◌then◌else◌, [], Option,
  List, Bool, ◌==◌, ◌++◌, ◌&&◌,
}

abbrev pub Lits : Type 0
Lits = List ℤ

-- `frozenset(c)`
unfoldable pub frozenset : Lits → Lits
frozenset [] = []
frozenset (l ∷ ls) = let rest = frozenset ls in if member l rest then rest else l ∷ rest

unfoldable pub subset : Lits → Lits → Bool
subset [] d = true
subset (l ∷ ls) d = member l d && subset ls d

-- `==` of frozensets.
unfoldable pub same_set : Lits → Lits → Bool
unfolding subset
same_set c d = subset c d && subset d c

-- The tags "A" and "B" of the two halves of the query.
pub data Tag : Type 0 where
  side_a side_b : Tag

pub data Source : Type 0 where
  leaf : Tag → Source
  res : Lits → Lits → ℤ → Source

-- `Proof.src`, its newest entry first.
abbrev pub Proof : Type 0
Proof = List (Lits × Source)

-- `self.src.get(c)`
unfoldable pub lookup : Lits → Proof → Option Source
unfolding same_set
lookup c [] = none
lookup c ((k, s) ∷ π) = if same_set k c then some s else lookup c π

-- `self.src.setdefault(c, s)`, the body of `Proof.leaf` and `Proof.res`.
unfoldable pub set_default : Lits → Source → Proof → Proof
unfolding lookup
set_default c s π = elim (lookup c π) [ none ↦ (c, s) ∷ π | some _ ↦ π ]

-- `l for l in c if l != x`
unfoldable pub without : ℤ → Lits → Lits
without x [] = []
without x (l ∷ ls) = let rest = without x ls in if int_eq l x then rest else l ∷ rest

unfoldable pub resolve : Lits → Lits → ℤ → Lits
unfolding frozenset without
resolve c1 c2 x = frozenset (without x c1 ++ without (neg x) c2)

-- The first loop of dpll_prove: the leaves and the clauses.
unfoldable pub load : List (Lits × Tag) → Proof → Proof
unfolding frozenset set_default
load [] π = π
load ((c, tag) ∷ cs) π = load cs (set_default (frozenset c) (leaf tag) π)

unfoldable pub clauses_of : List (Lits × Tag) → List Lits
unfolding frozenset
clauses_of [] = []
clauses_of ((c, tag) ∷ cs) = frozenset c ∷ clauses_of cs

-- `sorted({...})`, by insertion; a number that is there already is not inserted again.
unfoldable pub insert_var : ℕ → List ℕ → List ℕ
insert_var v [] = v ∷ []
insert_var v (u ∷ us) =
    let rest = insert_var v us in
    if v == u then u ∷ us else if ltb v u then v ∷ u ∷ us else u ∷ rest

unfoldable pub insert_vars : Lits → List ℕ → List ℕ
unfolding insert_var
insert_vars [] vs = vs
insert_vars (l ∷ ls) vs = insert_var (variable l) (insert_vars ls vs)

unfoldable pub all_vars : List Lits → List ℕ
unfolding insert_vars
all_vars [] = []
all_vars (c ∷ cs) = insert_vars c (all_vars cs)

-- `a`: the partial assignment of one call of `rec`.
abbrev pub Partial : Type 0
Partial = ℕ → Option Bool

abbrev pub assign : Partial → ℕ → Bool → Partial
assign a k b v = if k == v then some b else a v

abbrev pub bool_eq : Bool → Bool → Bool
bool_eq true b = b
bool_eq false b = flip b

-- The loop over the literals of a clause: `none` where one is true, else the unassigned ones.
unfoldable pub status : Partial → Lits → Option Lits
status a [] = some []
status a (l ∷ ls) = elim (a (variable l)) [
  | none ↦ elim (status a ls) [ none ↦ none | some un ↦ some (l ∷ un) ]
  | some b ↦ if bool_eq b (is_pos l) then none else status a ls
]

-- The outcome of a pass over the clauses.
pub data Scan : Type 0 where
  conflict : Lits → Scan
  unit : ℤ → Lits → Scan
  quiet : Scan

-- `if len(un) == 1 and unit is None: unit, ucl = un[0], c`
abbrev pub first_unit : Scan → ℤ → Lits → Lits → Scan
first_unit quiet l [] c = unit l c
first_unit found l un c = found

-- The pass, with the unit found so far; it ends at a conflict.
unfoldable pub scan : Partial → List Lits → Scan → Scan
unfolding status
scan a [] found = found
scan a (c ∷ cs) found = elim (status a c) [
  | none ↦ scan a cs found
  | some un ↦ elim un [ [] ↦ conflict c | l ∷ more ↦ scan a cs (first_unit found l more c) ]
]

-- The loop over `reversed(order)` that turns a conflict into the clause that is returned; each
-- literal of `order` stands with its reason, the last one first.
unfoldable pub explain : List (ℤ × Lits) → Lits → Proof → Lits × Proof
unfolding resolve set_default
explain [] c π = (c, π)
explain ((l, why) ∷ order) c π =
    let nc = resolve c why (neg l) in
    explain order (if member (neg l) c then nc else c)
      (if member (neg l) c then set_default nc (res c why (neg l)) π else π)

-- `[v for v in allvars if a.get(v) is None]`
unfoldable pub unassigned : Partial → List ℕ → List ℕ
unassigned a [] = []
unassigned a (v ∷ vs) = let rest = unassigned a vs in elim (a v) [ none ↦ v ∷ rest | some _ ↦ rest ]

-- What `rec` gives: None, or a clause with the proof as it is then.
pub data Found : Type 0 where
  sat : Found
  refuted : Lits → Proof → Found
  out_of_fuel : Found

abbrev pub mentions : ℕ → Lits → Bool
mentions x c = member (pos x) c || member (neg (pos x)) c

-- What follows the second call of `rec`.
unfoldable pub join : ℕ → Lits → Found → Found
unfolding resolve set_default
join x c0 sat = sat
join x c0 out_of_fuel = out_of_fuel
join x c0 (refuted c1 π) =
    let piv = if member (pos x) c0 then pos x else neg (pos x) in
    let nc = resolve c0 c1 piv in
    if mentions x c1 then refuted nc (set_default nc (res c0 c1 piv) π) else refuted c1 π

-- `rec(a)` from the head of its loop: a round that propagates a unit, or a branch, takes one fuel.
-- A new call of `rec` starts with an empty `order`.
unfoldable pub rec : ℕ → List Lits → List ℕ → Partial → List (ℤ × Lits) → Proof → Found
unfolding scan explain unassigned join
rec zero cs vs a order π = out_of_fuel
rec (suc f) cs vs a order π = elim (scan a cs quiet) [
  | conflict c ↦ refuted (explain order c π).0 (explain order c π).1
  | unit l why ↦ rec f cs vs (assign a (variable l) (is_pos l)) ((l, why) ∷ order) π
  | quiet ↦ elim (unassigned a vs) [
    | [] ↦ sat
    | x ∷ _ ↦ elim (rec f cs vs (assign a x false) [] π) [
      | sat ↦ sat
      | out_of_fuel ↦ out_of_fuel
      | refuted c0 π1 ↦ elim (mentions x c0) [
        | false ↦ refuted c0 π1
        | true ↦ join x c0 (rec f cs vs (assign a x true) [] π1)
      ]
    ]
  ]
]

-- With one fuel for each variable, and one more.
unfoldable pub dpll_prove : List (Lits × Tag) → Found
unfolding rec clauses_of all_vars load
dpll_prove tagged =
    let cs = clauses_of tagged in
    let vs = all_vars cs in rec (suc (length vs)) cs vs (λ _. none) [] (load tagged [])

-- `memo` of mcmillan, and the counter of signals.
pub record Labels : Type 0 where
  pub memo : List (Lits × Sig)
  pub counter : ℕ

unfoldable pub find_label : Lits → List (Lits × Sig) → Option Sig
unfolding same_set
find_label c [] = none
find_label c ((k, s) ∷ m) = if same_set k c then some s else find_label c m

-- `[lit_sig(l) for l in c if is_global(abs(l))]`
unfoldable pub global_sigs : (ℕ → Bool) → (ℤ → Build Sig) → Lits → Build (List Sig)
global_sigs g lit_sig [] n = ([], n)
global_sigs g lit_sig (l ∷ ls) n =
    let one = lit_sig l n in
    let n' = if g (variable l) then one.1 else n in
    let rest = global_sigs g lit_sig ls n' in
    (if g (variable l) then one.0 ∷ rest.0 else rest.0, rest.1)

-- The label of a leaf: `OR(*g) if g else FALSE`, or TRUE.
unfoldable pub leaf_sig : (ℕ → Bool) → (ℤ → Build Sig) → Tag → Lits → Build Sig
unfolding global_sigs
leaf_sig g lit_sig side_b c n = (true_sig, n)
leaf_sig g lit_sig side_a c n =
    let (gs, n') = global_sigs g lit_sig c n in
    elim gs [ [] ↦ (false_sig, n') | s ∷ ss ↦ or_sig (s ∷ ss) n' ]

unfoldable pub res_sig : (ℕ → Bool) → ℤ → Sig → Sig → Build Sig
res_sig g piv il ir n =
    if g (variable piv) then and_sig (il ∷ ir ∷ []) n else or_sig (il ∷ ir ∷ []) n

-- `memo[c] = r; return r`
abbrev pub label : Lits → List (Lits × Sig) → Sig × ℕ → Option (Sig × Labels)
label c memo (s, n) = some (s, record { memo = (c, s) ∷ memo; counter = n })

-- `self.src.get(c, ("A",))`
abbrev pub source_or_a : Option Source → Source
source_or_a none = leaf side_a
source_or_a (some s) = s

-- `itp(c)`; the recursion takes fuel.
unfoldable pub itp :
    ℕ → (ℕ → Bool) → (ℤ → Build Sig) → Proof → Lits → Labels → Option (Sig × Labels)
unfolding find_label lookup leaf_sig res_sig
itp zero g lit_sig π c st = none
itp (suc f) g lit_sig π c st = elim (find_label c st.memo) [
  | some s ↦ some (s, st)
  | none ↦ elim (source_or_a (lookup c π)) [
    | leaf tag ↦ label c st.memo (leaf_sig g lit_sig tag c st.counter)
    | res l r piv ↦ elim (itp f g lit_sig π l st) [
      | none ↦ none
      | some (il, st1) ↦ elim (itp f g lit_sig π r st1) [
        | none ↦ none
        | some (ir, st2) ↦ label c st2.memo (res_sig g piv il ir st2.counter)
      ]
    ]
  ]
]

-- `mcmillan(proof, empty, is_global, lit_sig)`, with one fuel for each entry of the proof.
unfoldable pub mcmillan : (ℕ → Bool) → (ℤ → Build Sig) → Proof → Lits → ℕ → Option (Sig × Labels)
unfolding itp
mcmillan g lit_sig π root n =
    itp (suc (length π)) g lit_sig π root (record { memo = []; counter = n })
