-- ===== src/Circuit/Ternary/Run.antt =====
-- The stack loop of `ternary_eval` evaluates every signal whose ids are unambiguous and whose
-- names the environment knows, and keeps the memo right.
use emergent_hardware_verifi.Circuit.Meaning.{eval, Valuation}
use emergent_hardware_verifi.Prelude.Bits.{value}
use emergent_hardware_verifi.Circuit.Ternary.Rules.{tri-Covers, Covers, Completes, tri_args, tri}
use emergent_hardware_verifi.Circuit.Sig.{
  xor, var, to_list, or, not, nil, ite, id, const, cons, args, and, Sigs, Sig,
}
use emergent_hardware_verifi.Circuit.Numbering.{NumberedAll, Numbered-id, Numbered}
use emergent_hardware_verifi.Circuit.Ternary.{
  ternary_eval, done, visit_new, visit_gate, visit, values, tri_or, tri_and, todo, push_all, gate,
  find, evaluate, TriEnv, Tri, Memo,
}
use emergent_hardware_verifi.Circuit.Ternary.Steps.{
  loop-Runs, next, stop, Runs-trans, Runs, BoundAll, Bound,
}
use emergent_hardware_verifi.Prelude.{
  ◌+◌, ◌≡◌, ◌∷◌, ◌∙◌, ℕ, sym, some, refl, none, map, inr, inl, arith, ap, [], Option-cases,
  List-cases, List, Bool-cases, ==_iff, ◌==◌,
}

module _ (env : TriEnv) (D : ℕ → Sig) where
  -- Every memo entry is the value of the node with that id.
  abbrev pub Holds : Memo → Type 0
  Holds m = (i : ℕ) (v : Tri) → find i m ≡ some v → v ≡ tri env (D i)

  abbrev Extends : Memo → Memo → Type 0
  Extends m m' = (i : ℕ) (v : Tri) → find i m ≡ some v → find i m' ≡ some v

  abbrev Found : Memo → Sig → Type 0
  Found m s = find (id s) m ≡ some (tri env s)

  record Ran (m : Memo) (before : List Sig → List Sig) (P : Memo → Type 0) : Type 0 where
    memo' : Memo
    runs :
        (rest : List Sig)
        → Runs env
            (record { stack = rest; memo = memo' })
            (record { stack = before rest; memo = m })
    holds : Holds memo'
    extends : Extends m memo'
    result : P memo'

  Ready : Sig → Type 0
  Ready s = (m : Memo) → Holds m → Ran m (λ rest. s ∷ rest) (λ m'. Found m' s)

  Extends-cons : (m : Memo) (i : ℕ) (w : Tri) → find i m ≡ none → Extends m ((i, w) ∷ m)
  Extends-cons m i w h j v e = ground (arith, h, e)

  Holds-cons : (m : Memo) (i : ℕ) (w : Tri) → Holds m → w ≡ tri env (D i) → Holds ((i, w) ∷ m)
  Holds-cons m i w h e j v k = elim (Bool-cases (i == j)) [
    | inl same ↦
        let wv : w ≡ v = ground (arith, k, same) in
        sym wv ∙ e ∙ ap (λ t. tri env (D t)) ((==_iff i j).0 same)
    | inr other ↦ h j v (ground (arith, k, other))
  ]

  -- The new entry is found.
  find-cons_self : (m : Memo) (i : ℕ) (w : Tri) → find i ((i, w) ∷ m) ≡ some w
  find-cons_self m i w = ground arith

  -- One round that pops the top because it is in the memo.
  Ran-known :
      (m : Memo) (s : Sig) (v : Tri)
      → D (id s) ≡ s
      → Holds m
      → find (id s) m ≡ some v
      → Ran m (λ rest. s ∷ rest) (λ m'. Found m' s)
  unfolding visit
  Ran-known m s v d h e =
      let val : v ≡ tri env s = h (id s) v e ∙ ap (λ t. tri env t) d in
      record {
        memo' = m;
        runs =
            λ rest. next (record { stack = rest; memo = m }) s rest refl (rw (e, visit) refl) stop;
        holds = h;
        extends = λ i w k. k;
        result = e ∙ ap some val;
      }

  -- One round that stores the value and pops the top.
  Ran-stored :
      (m : Memo) (s : Sig)
      → D (id s) ≡ s
      → Holds m
      → find (id s) m ≡ none
      → ((rest : List Sig)
          → visit_new env s rest m ≡ some (record { stack = rest; memo = (id s, tri env s) ∷ m }))
      → Ran m (λ rest. s ∷ rest) (λ m'. Found m' s)
  unfolding visit
  Ran-stored m s d h e stores = record {
    memo' = (id s, tri env s) ∷ m;
    runs = λ rest.
        next (record { stack = rest; memo = (id s, tri env s) ∷ m }) s rest refl
          (rw (e, visit) (stores rest)) stop;
    holds = Holds-cons m (id s) (tri env s) h (ap (λ t. tri env t) (sym d));
    extends = Extends-cons m (id s) (tri env s) e;
    result = find-cons_self m (id s) (tri env s);
  }

  -- What the arguments of a gate have to be for one round to store its value.
  abbrev AllFound : Memo → List Sig → Type 0
  AllFound m [] = Unit {0}
  AllFound m (a ∷ as') = Found m a × AllFound m as'

  todo-AllFound : (m : Memo) (as' : List Sig) → AllFound m as' → todo as' m ≡ []
  unfolding todo
  todo-AllFound m [] h = refl
  todo-AllFound m (a ∷ as') h = rw (h.0) (todo-AllFound m as' h.1)

  values-AllFound :
      (m : Memo) (as' : List Sig) → AllFound m as' → values as' m ≡ some (map (tri env) as')
  unfolding values
  values-AllFound m [] h = refl
  values-AllFound m (a ∷ as') h = rw (h.0, values) (rw (values-AllFound m as' h.1) refl)

  -- A gate whose arguments are all in the memo is stored in one round.
  Ran-gate :
      (m : Memo) (s : Sig)
      → D (id s) ≡ s
      → Holds m
      → AllFound m (args s)
      → ((rest : List Sig) → visit_new env s rest m ≡ visit_gate s rest m)
      → gate s (map (tri env) (args s)) ≡ some (tri env s)
      → Ran m (λ rest. s ∷ rest) (λ m'. Found m' s)
  unfolding visit_gate evaluate
  Ran-gate m s d h found is_gate value = elim (Option-cases (find (id s) m)) [
    | inr (v, e) ↦ Ran-known m s v d h e
    | inl e ↦ Ran-stored m s d h e λ rest.
        is_gate rest
        ∙ rw (todo-AllFound m (args s) found, visit_gate)
            (rw (values-AllFound m (args s) found, evaluate) (rw (value, evaluate) refl))
  ]

  abbrev AllReady : List Sig → Type 0
  AllReady [] = Unit {0}
  AllReady (a ∷ as') = Ready a × AllReady as'

  abbrev AllNamed : List Sig → Type 0
  AllNamed [] = Unit {0}
  AllNamed (a ∷ as') = (D (id a) ≡ a) × AllNamed as'

  AllFound-Extends :
      (m m' : Memo) (as' : List Sig) → Extends m m' → AllFound m as' → AllFound m' as'
  AllFound-Extends m m' [] x h = tt
  AllFound-Extends m m' (a ∷ as') x h = (x (id a) (tri env a) h.0, AllFound-Extends m m' as' x h.1)

  AllReady-todo : (m : Memo) (as' : List Sig) → AllReady as' → AllReady (todo as' m)
  unfolding todo
  AllReady-todo m [] h = tt
  AllReady-todo m (a ∷ as') h = elim (Option-cases (find (id a) m)) [
    | inl e ↦ rw (e, todo) (h.0, AllReady-todo m as' h.1)
    | inr (v, e) ↦ rw (e, todo) (AllReady-todo m as' h.1)
  ]

  -- Once the arguments that were missing have been found, all have been.
  AllFound-of_todo :
      (m m' : Memo) (as' : List Sig)
      → AllNamed as'
      → Holds m
      → Extends m m'
      → AllFound m' (todo as' m)
      → AllFound m' as'
  unfolding todo
  AllFound-of_todo m m' [] d h x f = tt
  AllFound-of_todo m m' (a ∷ as') d h x f = elim (Option-cases (find (id a) m)) [
    | inl e ↦
        let g : Found m' a × AllFound m' (todo as' m) = rw (e, todo) at f in
        (g.0, AllFound-of_todo m m' as' d.1 h x g.1)
    | inr (v, e) ↦
        let g : AllFound m' (todo as' m) = rw (e, todo) at f in
        let val : v ≡ tri env a = h (id a) v e ∙ ap (λ t. tri env t) d.0 in
        (x (id a) v e ∙ ap some val, AllFound-of_todo m m' as' d.1 h x g)
  ]

  -- The pushed arguments are evaluated from the top of the stack down.
  Ran-pushed :
      (as' : List Sig)
      → AllReady as'
      → (m : Memo) → Holds m
      → Ran m (λ rest. push_all as' rest) (λ m'. AllFound m' as')
  unfolding Ready
  Ran-pushed [] r m h = record {
    memo' = m;
    runs = λ rest. stop;
    holds = h;
    extends = λ i v k. k;
    result = tt;
  }
  Ran-pushed (a ∷ as') r m h =
      let below = Ran-pushed as' r.1 m h in
      let top = r.0 below.memo' below.holds in
      record {
        memo' = top.memo';
        runs = λ rest. Runs-trans (below.runs (a ∷ rest)) (top.runs rest);
        holds = top.holds;
        extends = λ i v k. top.extends i v (below.extends i v k);
        result = (top.result, AllFound-Extends below.memo' top.memo' as' top.extends below.result);
      }

  -- A gate is visited twice: to push what is missing, and to store its value.
  Ready-gate :
      (s : Sig)
      → D (id s) ≡ s
      → AllNamed (args s)
      → AllReady (args s)
      → ((rest : List Sig) (m : Memo) → visit_new env s rest m ≡ visit_gate s rest m)
      → gate s (map (tri env) (args s)) ≡ some (tri env s)
      → Ready s
  unfolding Ready visit visit_gate
  Ready-gate s d ds rs is_gate value m h = elim (Option-cases (find (id s) m)) [
    | inr (v, e) ↦ Ran-known m s v d h e
    | inl e ↦ elim (List-cases (todo (args s) m)) [
      | inl k ↦
          Ran-gate m s d h (AllFound-of_todo m m (args s) ds h (λ i v q. q) (rw k tt))
            (λ rest. is_gate rest m) value
      | inr (a, as', k) ↦
          let missing = todo (args s) m in
          let sub = Ran-pushed missing (AllReady-todo m (args s) rs) m h in
          let found = AllFound-of_todo m sub.memo' (args s) ds h sub.extends sub.result in
          let last =
            Ran-gate sub.memo' s d sub.holds found (λ rest. is_gate rest sub.memo') value in
          record {
            memo' = last.memo';
            runs = λ rest.
                next (record { stack = push_all missing (s ∷ rest); memo = m }) s rest refl
                  (rw (e, visit) (is_gate rest m ∙ rw (k, visit_gate) refl))
                  (Runs-trans (sub.runs (s ∷ rest)) (last.runs rest));
            holds = last.holds;
            extends = λ i v q. last.extends i v (sub.extends i v q);
            result = last.result;
          }
    ]
  ]

  tri_args-map : (ss : Sigs) → tri_args env ss ≡ map (tri env) (to_list ss)
  unfolding tri
  tri_args-map nil = refl
  tri_args-map (cons s ss) = ap (λ l. tri env s ∷ l) (tri_args-map ss)

  NumberedAll-AllNamed : (ss : Sigs) → NumberedAll D ss → AllNamed (to_list ss)
  NumberedAll-AllNamed nil h = tt
  NumberedAll-AllNamed (cons s ss) h = (Numbered-id D s h.0, NumberedAll-AllNamed ss h.1)

  Ready-leaf :
      (s : Sig)
      → D (id s) ≡ s
      → ((rest : List Sig) (m : Memo)
          → visit_new env s rest m ≡ some (record { stack = rest; memo = (id s, tri env s) ∷ m }))
      → Ready s
  unfolding Ready
  Ready-leaf s d stores m h = elim (Option-cases (find (id s) m)) [
    | inl e ↦ Ran-stored m s d h e (λ rest. stores rest m)
    | inr (v, e) ↦ Ran-known m s v d h e
  ]

  mutual
    unfolding tri gate visit_new

    ready : (s : Sig) → Numbered D s → Bound env s → Ready s
    ready (const i b) d b' = Ready-leaf (const i b) d (λ rest m. refl)
    ready (var i x) d (v, e) = Ready-leaf (var i x) d (λ rest m. rw (e, visit_new) refl)
    ready (not i a) d b =
        Ready-gate (not i a) d.0 (Numbered-id D a d.1, tt) (ready a d.1 b, tt) (λ rest m. refl) refl
    ready (and i xs) d b =
        Ready-gate (and i xs) d.0 (NumberedAll-AllNamed xs d.1) (ready_all xs d.1 b)
          (λ rest m. refl) (ap (λ l. some (tri_and l)) (sym (tri_args-map xs)))
    ready (or i xs) d b =
        Ready-gate (or i xs) d.0 (NumberedAll-AllNamed xs d.1) (ready_all xs d.1 b) (λ rest m. refl)
          (ap (λ l. some (tri_or l)) (sym (tri_args-map xs)))
    ready (xor i a c) d b =
        Ready-gate (xor i a c) d.0 (Numbered-id D a d.1, (Numbered-id D c d.2, tt))
          (ready a d.1 b.0, (ready c d.2 b.1, tt)) (λ rest m. refl) refl
    ready (ite i c t e) d b =
        Ready-gate (ite i c t e) d.0
          (Numbered-id D c d.1, (Numbered-id D t d.2, (Numbered-id D e d.3, tt)))
          (ready c d.1 b.0, (ready t d.2 b.1, (ready e d.3 b.2, tt))) (λ rest m. refl) refl

    ready_all : (ss : Sigs) → NumberedAll D ss → BoundAll env ss → AllReady (to_list ss)
    ready_all nil d b = tt
    ready_all (cons s ss) d b = (ready s d.0 b.0, ready_all ss d.1 b.1)

-- With enough fuel the loop ends, with the value of the signal in the memo under its id.
pub ternary_eval_total :
    (env : TriEnv) (D : ℕ → Sig) (s : Sig) (m : Memo)
    → Numbered D s
    → Bound env s
    → Holds env D m
    → (n : ℕ) × (m' : Memo) × ((f : ℕ) → ternary_eval (n + f) env s m ≡ done m')
      × (find (id s) m' ≡ some (tri env s))
      × Holds env D m'
unfolding ternary_eval Ready
ternary_eval_total env D s m d b h =
    let ran = ready env D s d b m h in
    let (n, ends) = loop-Runs env (record { stack = []; memo = ran.memo' }) (ran.runs []) refl in
    (n, ran.memo', ends, ran.result, ran.holds)

-- For a signal whose node ids are unambiguous, an environment that has all its names, and a memo
-- that holds right values, the stack loop ends for every fuel from some bound on with the same
-- memo, which has a value for the signal; where that value is definite, it is the value of the
-- signal under every completion of the environment.
pub ternary_eval_sound :
    (env : TriEnv) (D : ℕ → Sig) (s : Sig) (m : Memo)
    → Numbered D s
    → Bound env s
    → Holds env D m
    → (n : ℕ) × (m' : Memo) × (v : Tri) × ((f : ℕ) → ternary_eval (n + f) env s m ≡ done m')
      × (find (id s) m' ≡ some v)
      × ((ρ : Valuation) → Completes env ρ → Covers v (eval ρ s))
ternary_eval_sound env D s m d b h =
    let (n, m', ends, found, _) = ternary_eval_total env D s m d b h in
    (n, m', tri env s, ends, found, λ ρ c. tri-Covers env ρ s c)
