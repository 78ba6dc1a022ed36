-- ===== src/Cegar/Cone.antt =====
-- circuit.py, `support`: the value of a signal depends on the names that it returns alone.
use emergent_hardware_verifi.Cegar.Support.{size-args, load-push_all, load}
use emergent_hardware_verifi.Circuit.Meaning.{eval_any, eval_all, eval, Valuation}
use emergent_hardware_verifi.Liveness.Lookup.{str_refl}
use emergent_hardware_verifi.Circuit.Ternary.{push_all}
use emergent_hardware_verifi.Frame.Fresh.{listed}
use emergent_hardware_verifi.Cegar.{support_loop, support, size, name_of, known_id}
use emergent_hardware_verifi.Circuit.Sig.{
  xor, var, to_list, or, not, nil, ite, id, const, cons, args, and, Sigs, Sig,
}
use emergent_hardware_verifi.Circuit.Numbering.{Numbered-id, NumberedAll, Numbered}
use emergent_hardware_verifi.Prelude.{
  ◌&&◌, ◌≤◌, zero, xor_bool, suc, some, flip, ap₂, Option, ◌≡◌, ◌∷◌, ◌∙◌, ℕ, ◌||◌, true, sym, subst,
  refl, inr, inl, false, arith, ap, [], String, List, Bool-cases, Bool, ==_iff, ◌==◌,
}

abbrev has_id : ℕ → List Sig → Bool
has_id i [] = false
has_id i (s ∷ ss) = id s == i || has_id i ss

-- The node was opened, or it waits on the stack.
abbrev reached : ℕ → List ℕ → List Sig → Bool
reached i seen stack = known_id i seen || has_id i stack

abbrev AllReached : List ℕ → List Sig → List Sig → Type 0
AllReached seen stack [] = Unit {0}
AllReached seen stack (a ∷ as') = (reached (id a) seen stack ≡ true) × AllReached seen stack as'

abbrev NameIn : List String → Sig → Type 0
NameIn out (var _ x) = listed x out ≡ true
NameIn out _ = Unit {0}

-- What holds of a node whose id is in `seen`.
abbrev Opened : List ℕ → List String → List Sig → Sig → Type 0
Opened seen out stack s = NameIn out s × AllReached seen stack (args s)

abbrev AllNumbered : (ℕ → Sig) → List Sig → Type 0
AllNumbered D [] = Unit {0}
AllNumbered D (s ∷ ss) = Numbered D s × AllNumbered D ss

to_list-AllNumbered : (D : ℕ → Sig) (ss : Sigs) → NumberedAll D ss → AllNumbered D (to_list ss)
to_list-AllNumbered D nil h = tt
to_list-AllNumbered D (cons s ss) h = (h.0, to_list-AllNumbered D ss h.1)

args-AllNumbered : (D : ℕ → Sig) (s : Sig) → Numbered D s → AllNumbered D (args s)
args-AllNumbered D (const i b) h = tt
args-AllNumbered D (var i x) h = tt
args-AllNumbered D (not i a) h = (h.1, tt)
args-AllNumbered D (and i xs) h = to_list-AllNumbered D xs h.1
args-AllNumbered D (or i xs) h = to_list-AllNumbered D xs h.1
args-AllNumbered D (xor i a b) h = (h.1, (h.2, tt))
args-AllNumbered D (ite i c t e) h = (h.1, (h.2, (h.3, tt)))

push_all-AllNumbered :
    (D : ℕ → Sig) (xs ys : List Sig)
    → AllNumbered D xs
    → AllNumbered D ys
    → AllNumbered D (push_all xs ys)
push_all-AllNumbered D [] ys h k = k
push_all-AllNumbered D (x ∷ xs) ys h k = push_all-AllNumbered D xs (x ∷ ys) h.1 (h.0, k)

-- What is on the stack stays on it, and the arguments come on it.
has_id-push_all : (i : ℕ) (xs ys : List Sig) → has_id i ys ≡ true → has_id i (push_all xs ys) ≡ true
has_id-push_all i [] ys h = h
has_id-push_all i (x ∷ xs) ys h = has_id-push_all i xs (x ∷ ys) (ground (arith, h))

reached-push_all : (seen : List ℕ) (xs ys : List Sig) → AllReached seen (push_all xs ys) xs
reached-push_all seen [] ys = tt
reached-push_all seen (x ∷ xs) ys =
    let here : has_id (id x) (push_all xs (x ∷ ys)) ≡ true =
      has_id-push_all (id x) xs (x ∷ ys) (ground arith) in
    (ground (arith, here), reached-push_all seen xs (x ∷ ys))

-- A round reaches no less than before.
module _ (seen seen' : List ℕ) (stack stack' : List Sig)
    (more_reached : (i : ℕ) → reached i seen stack ≡ true → reached i seen' stack' ≡ true) where
  AllReached-later : (xs : List Sig) → AllReached seen stack xs → AllReached seen' stack' xs
  AllReached-later [] h = tt
  AllReached-later (x ∷ xs) h = (more_reached (id x) h.0, AllReached-later xs h.1)

NameIn-later :
    (s : Sig) (out out' : List String)
    → ((x : String) → listed x out ≡ true → listed x out' ≡ true)
    → NameIn out s
    → NameIn out' s
NameIn-later (var i x) out out' more_names h = more_names x h
NameIn-later (const _ _) out out' more_names h = tt
NameIn-later (not _ _) out out' more_names h = tt
NameIn-later (and _ _) out out' more_names h = tt
NameIn-later (or _ _) out out' more_names h = tt
NameIn-later (xor _ _ _) out out' more_names h = tt
NameIn-later (ite _ _ _ _) out out' more_names h = tt

name_of-NameIn : (s : Sig) (out : List String) → NameIn (name_of s out) s
name_of-NameIn (var i x) out = rw (str_refl x) refl
name_of-NameIn (const _ _) out = tt
name_of-NameIn (not _ _) out = tt
name_of-NameIn (and _ _) out = tt
name_of-NameIn (or _ _) out = tt
name_of-NameIn (xor _ _ _) out = tt
name_of-NameIn (ite _ _ _ _) out = tt

name_of-listed :
    (s : Sig) (out : List String) (x : String)
    → listed x out ≡ true
    → listed x (name_of s out) ≡ true
name_of-listed (var i y) out x h = ground (arith, h)
name_of-listed (const _ _) out x h = h
name_of-listed (not _ _) out x h = h
name_of-listed (and _ _) out x h = h
name_of-listed (or _ _) out x h = h
name_of-listed (xor _ _ _) out x h = h
name_of-listed (ite _ _ _ _) out x h = h

module _ (D : ℕ → Sig) where
  -- Every node that was opened has its name noted, and its arguments are opened or wait.
  abbrev Inv : List ℕ → List String → List Sig → Type 0
  Inv seen out stack = (i : ℕ) → known_id i seen ≡ true → Opened seen out stack (D i)

  seen_again :
      (seen : List ℕ) (s : Sig) (stack : List Sig)
      → known_id (id s) seen ≡ true
      → (i : ℕ) → reached i seen (s ∷ stack) ≡ true
      → reached i seen stack ≡ true
  seen_again seen s stack k i h = elim (Bool-cases (id s == i)) [
    | inl e ↦ rw (sym (ap (λ j. known_id j seen) ((==_iff (id s) i).0 e)) ∙ k) refl
    | inr e ↦ ground (arith, h, e)
  ]

  Inv-seen :
      (seen : List ℕ) (out : List String) (s : Sig) (stack : List Sig)
      → known_id (id s) seen ≡ true
      → Inv seen out (s ∷ stack)
      → Inv seen out stack
  Inv-seen seen out s stack k inv i e =
      let (name, reaches) = inv i e in
      (
        name,
        AllReached-later seen seen (s ∷ stack) stack (seen_again seen s stack k) (args (D i))
            reaches,
      )

  opens :
      (seen : List ℕ) (s : Sig) (stack : List Sig) (i : ℕ)
      → reached i seen (s ∷ stack) ≡ true
      → reached i (id s ∷ seen) (push_all (args s) stack) ≡ true
  opens seen s stack i h = elim (Bool-cases (id s == i)) [
    | inl e ↦ rw e refl
    | inr e ↦ elim (Bool-cases (known_id i seen)) [
      | inl k ↦ rw (e, k) refl
      | inr k ↦
          let waits : has_id i (push_all (args s) stack) ≡ true =
            has_id-push_all i (args s) stack (ground (arith, h, e, k)) in
          rw (e, k, waits) refl
    ]
  ]

  Inv-opened :
      (seen : List ℕ) (out : List String) (s : Sig) (stack : List Sig)
      → D (id s) ≡ s
      → Inv seen out (s ∷ stack)
      → Inv (id s ∷ seen) (name_of s out) (push_all (args s) stack)
  Inv-opened seen out s stack d inv i e = elim (Bool-cases (id s == i)) [
    | inl same ↦
        let at_i : s ≡ D i = sym d ∙ ap D ((==_iff (id s) i).0 same) in
        subst (λ t. Opened (id s ∷ seen) (name_of s out) (push_all (args s) stack) t) at_i
          (name_of-NameIn s out, reached-push_all (id s ∷ seen) (args s) stack)
    | inr other ↦
        let (name, reaches) = inv i (ground (arith, e, other)) in
        (
          NameIn-later (D i) out (name_of s out) (name_of-listed s out) name,
          AllReached-later seen (id s ∷ seen) (s ∷ stack) (push_all (args s) stack)
              (opens seen s stack) (args (D i)) reaches,
        )
  ]

  -- The loop ends with every reached node opened.
  record Ended (seen : List ℕ) (stack : List Sig) (result : Option (List String)) : Type 0 where
    opened : List ℕ
    names : List String
    returns : result ≡ some names
    inv : Inv opened names []
    all_opened : (i : ℕ) → reached i seen stack ≡ true → known_id i opened ≡ true

  loop-Ended :
      (f : ℕ) (seen : List ℕ) (out : List String) (stack : List Sig)
      → load stack ≤ f
      → AllNumbered D stack
      → Inv seen out stack
      → Ended seen stack (support_loop f seen out stack)
  unfolding support_loop
  loop-Ended f seen out [] h ns inv = record {
    opened = seen;
    names = out;
    returns = refl;
    inv = inv;
    all_opened = λ i e. ground (arith, e);
  }
  loop-Ended zero seen out (s ∷ stack) h ns inv = let e = size-args s in absurd (omega arith)
  loop-Ended (suc f) seen out (s ∷ stack) h ns inv =
      let e = size-args s in
      elim (Bool-cases (known_id (id s) seen)) [
        | inl k ↦
            let r =
              loop-Ended f seen out stack (omega arith) ns.1 (Inv-seen seen out s stack k inv) in
            record {
              opened = r.opened;
              names = r.names;
              returns = rw (k, support_loop) r.returns;
              inv = r.inv;
              all_opened = λ i q. r.all_opened i (seen_again seen s stack k i q);
            }
        | inr k ↦
            let p = load-push_all (args s) stack in
            let r =
              loop-Ended f (id s ∷ seen) (name_of s out) (push_all (args s) stack) (omega arith)
                (push_all-AllNumbered D (args s) stack (args-AllNumbered D s ns.0) ns.1)
                (Inv-opened seen out s stack (Numbered-id D s ns.0) inv) in
            record {
              opened = r.opened;
              names = r.names;
              returns = rw (k, support_loop) r.returns;
              inv = r.inv;
              all_opened = λ i q. r.all_opened i (opens seen s stack i q);
            }
      ]

  -- Valuations that agree on the names give an opened node one value.
  module _ (seen : List ℕ) (out : List String) (inv : Inv seen out []) (ρ σ : Valuation)
      (same : (x : String) → listed x out ≡ true → ρ x ≡ σ x) where
    Opened-here : (s : Sig) → D (id s) ≡ s → known_id (id s) seen ≡ true → Opened seen out [] s
    Opened-here s d k = subst (λ t. Opened seen out [] t) d (inv (id s) k)

    only_seen : (i : ℕ) → reached i seen [] ≡ true → known_id i seen ≡ true
    only_seen i h = ground (arith, h)

    mutual
      unfolding eval

      eval_cone : (s : Sig) → Numbered D s → known_id (id s) seen ≡ true → eval ρ s ≡ eval σ s
      eval_cone (const i b) d k = refl
      eval_cone (var i x) d k = same x (Opened-here (var i x) d k).0
      eval_cone (not i a) d k =
          let (_, r) = Opened-here (not i a) d.0 k in
          ap flip (eval_cone a d.1 (only_seen (id a) r.0))
      eval_cone (and i xs) d k = let (_, r) = Opened-here (and i xs) d.0 k in eval_all-cone xs d.1 r
      eval_cone (or i xs) d k = let (_, r) = Opened-here (or i xs) d.0 k in eval_any-cone xs d.1 r
      eval_cone (xor i a b) d k =
          let (_, r) = Opened-here (xor i a b) d.0 k in
          ap₂ xor_bool (eval_cone a d.1 (only_seen (id a) r.0))
            (eval_cone b d.2 (only_seen (id b) r.1.0))
      eval_cone (ite i c t e) d k =
          let (_, r) = Opened-here (ite i c t e) d.0 k in
          rw
            (
              eval_cone c d.1 (only_seen (id c) r.0),
              eval_cone t d.2 (only_seen (id t) r.1.0),
              eval_cone e d.3 (only_seen (id e) r.1.1.0),
            )
            refl

      eval_all-cone :
          (ss : Sigs)
          → NumberedAll D ss
          → AllReached seen [] (to_list ss)
          → eval_all ρ ss ≡ eval_all σ ss
      eval_all-cone nil d r = refl
      eval_all-cone (cons s ss) d r =
          ap₂ ◌&&◌ (eval_cone s d.0 (only_seen (id s) r.0)) (eval_all-cone ss d.1 r.1)

      eval_any-cone :
          (ss : Sigs)
          → NumberedAll D ss
          → AllReached seen [] (to_list ss)
          → eval_any ρ ss ≡ eval_any σ ss
      eval_any-cone nil d r = refl
      eval_any-cone (cons s ss) d r =
          ap₂ ◌||◌ (eval_cone s d.0 (only_seen (id s) r.0)) (eval_any-cone ss d.1 r.1)

-- The names that are returned, and that the value hangs on them alone.
pub record ReadsOnly (s : Sig) (result : Option (List String)) : Type 0 where
  pub names : List String
  pub returns : result ≡ some names
  pub decides :
      (ρ σ : Valuation) → ((x : String) → listed x names ≡ true → ρ x ≡ σ x) → eval ρ s ≡ eval σ s

-- For a signal whose node ids are unambiguous, the stack loop of support ends within as many
-- rounds as the signal has nodes and returns names; the value of the signal depends on these names
-- alone: valuations that agree on them give it the same value.
pub support-ReadsOnly : (D : ℕ → Sig) (s : Sig) → Numbered D s → ReadsOnly s (support s)
unfolding support
support-ReadsOnly D s d =
    let r = loop-Ended D (size s) [] [] (s ∷ []) (omega arith) (d, tt) (λ i e. cc) in
    record {
      names = r.names;
      returns = r.returns;
      decides = λ ρ σ same.
          eval_cone D r.opened r.names r.inv ρ σ same s d (r.all_opened (id s) (ground arith));
    }
