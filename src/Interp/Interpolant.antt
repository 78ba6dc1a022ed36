-- ===== src/Interp/Interpolant.antt =====
-- mcmillan labels every clause of a valid proof, and its label covers the first half of the query.
use emergent_hardware_verifi.Interp.Sets.{same_set_trans, same_set_sym}
use emergent_hardware_verifi.Circuit.Ternary.Rules.{known}
use emergent_hardware_verifi.Circuit.Meaning.{eval-or_sig, eval-and_sig, eval, Valuation}
use emergent_hardware_verifi.Interp.Entails.{same_set-true, Valid, Justified, InSide, Has}
use emergent_hardware_verifi.Interp.Partial.{
  leaf_sig-Covered, Covered-same_set, Covered-resolve, Covered,
}
use emergent_hardware_verifi.Circuit.Sig.{Sig, Build}
use emergent_hardware_verifi.Sat.Literal.{ℤ, variable, lit_val, clause_val, IsLiteral, Assignment}
use emergent_hardware_verifi.Prelude.{
  ◌≡◌, ◌∷◌, ◌∙◌, ℕ, ◌||◌, zero, true, sym, suc, some, refl, none, length, inr, inl, false,
  if◌then◌else◌, arith, [], Option-cases, Option, List, Bool-cases, Bool, ◌<◌, ◌&&◌,
}
use emergent_hardware_verifi.Interp.{
  side_a, same_set, resolve, res_sig, res, mcmillan, leaf_sig, leaf, label, itp, find_label, Tag,
  Source, Proof, Lits, Labels, lookup,
}

-- Every clause of the side is true.
abbrev pub SideTrue : List (Lits × Tag) → Tag → Assignment → Type 0
SideTrue ts tag μ = (c : Lits) → InSide ts tag c → clause_val μ c ≡ true

-- The signal that stands for a shared literal has the literal's value.
abbrev pub ReadsShared : (ℕ → Bool) → (ℤ → Build Sig) → Valuation → Assignment → Type 0
ReadsShared g lit_sig ρ μ =
    (l : ℤ) (n : ℕ) → g (variable l) ≡ true → eval ρ (lit_sig l n).0 ≡ lit_val μ l

lookup-same_set :
    (k c : Lits) (π : Proof) → same_set k c ≡ true → lookup k π ≡ none → lookup c π ≡ none
unfolding lookup
lookup-same_set k c [] e h = refl
lookup-same_set k c ((j, s) ∷ π) e h = elim (Bool-cases (same_set j k)) [
  | inl jk ↦ let bad : some s ≡ none = sym (rw (jk, lookup) refl) ∙ h in cc
  | inr jk ↦ elim (Bool-cases (same_set j c)) [
    | inl jc ↦
        let same = same_set_trans j c k jc (same_set_sym k c e) in
        let bad : true ≡ false = sym same ∙ jk in cc
    | inr jc ↦ rw (jc, lookup) (lookup-same_set k c π e (sym (rw (jk, lookup) refl) ∙ h))
  ]
]

res_sig-eval :
    (ρ : Valuation) (g : ℕ → Bool) (x : ℤ) (i j : Sig) (n : ℕ)
    → eval ρ (res_sig g x i j n).0
      ≡ (if g (variable x) then eval ρ i && eval ρ j else eval ρ i || eval ρ j)
unfolding res_sig
res_sig-eval ρ g x i j n = elim (Bool-cases (g (variable x))) [
  | inl e ↦ rw e (eval-and_sig ρ (i ∷ j ∷ []) n ∙ ground arith)
  | inr e ↦ rw e (eval-or_sig ρ (i ∷ j ∷ []) n ∙ ground arith)
]

module _ (ts : List (Lits × Tag)) (g : ℕ → Bool) (lit_sig : ℤ → Build Sig) where
  -- Where the first half holds, the label is one or an unshared literal of the clause is true.
  abbrev pub Covers : Sig → Lits → Type 0
  Covers s c =
      (μ : Assignment) (ρ : Valuation)
      → SideTrue ts side_a μ
      → ReadsShared g lit_sig ρ μ
      → Covered g μ (eval ρ s) c

  abbrev MemoCovers : List (Lits × Sig) → Type 0
  MemoCovers m = (c : Lits) (s : Sig) → find_label c m ≡ some s → Covers s c

  abbrev Labelled : Lits → Option (Sig × Labels) → Type 0
  Labelled c result =
      (s : Sig) × (st : Labels) × (result ≡ some (s, st)) × Covers s c × MemoCovers st.memo

  Covers-same_set : (k c : Lits) (s : Sig) → same_set k c ≡ true → Covers s k → Covers s c
  Covers-same_set k c s e h μ ρ a r = Covered-same_set g μ k c (eval ρ s) e (h μ ρ a r)

  MemoCovers-cons :
      (m : List (Lits × Sig)) (c : Lits) (s : Sig)
      → MemoCovers m
      → Covers s c
      → MemoCovers ((c, s) ∷ m)
  unfolding find_label
  MemoCovers-cons m c s h k d t e = elim (Bool-cases (same_set c d)) [
    | inl same ↦
        let st : some s ≡ some t = sym (rw (same, find_label) refl) ∙ e in
        let st' : s ≡ t = cc in rw (← st') (Covers-same_set c d s same k)
    | inr other ↦ h d t (sym (rw (other, find_label) refl) ∙ e)
  ]

  label-Labelled :
      (c : Lits) (m : List (Lits × Sig)) (made : Sig × ℕ)
      → MemoCovers m
      → Covers made.0 c
      → Labelled c (label c m made)
  label-Labelled c m (s, n) h k =
      (s, record { memo = (c, s) ∷ m; counter = n }, refl, k, MemoCovers-cons m c s h k)

  leaf-Covers :
      (tag : Tag) (k c : Lits) (n : ℕ)
      → InSide ts tag k
      → same_set k c ≡ true
      → Covers (leaf_sig g lit_sig tag c n).0 c
  leaf-Covers tag k c n i e μ ρ a r =
      leaf_sig-Covered g μ ρ lit_sig r tag c n
        (λ is_a. let i' : InSide ts side_a k = rw is_a at i in same_set-true μ k c e (a k i'))

  res-Covers :
      (l r c : Lits) (x : ℤ) (i j : Sig) (n : ℕ)
      → IsLiteral x
      → same_set (resolve l r x) c ≡ true
      → Covers i l
      → Covers j r
      → Covers (res_sig g x i j n).0 c
  res-Covers l r c x i j n il e hi hj μ ρ a rd =
      Covered-same_set g μ (resolve l r x) c (eval ρ (res_sig g x i j n).0) e (
        rw (res_sig-eval ρ g x i j n)
          (Covered-resolve g μ l r x (eval ρ i) (eval ρ j) il (hi μ ρ a rd) (hj μ ρ a rd)))

  module _ (π : Proof) where
    -- The older entries are found in the whole proof.
    abbrev Agrees : Proof → Type 0
    Agrees σ = (c : Lits) (s : Source) → lookup c σ ≡ some s → lookup c π ≡ some s

    Agrees-tail :
        (k : Lits) (s : Source) (σ : Proof) → lookup k σ ≡ none → Agrees ((k, s) ∷ σ) → Agrees σ
    unfolding lookup
    Agrees-tail k s σ new h c t e = elim (Bool-cases (same_set k c)) [
      | inl same ↦ let bad : none ≡ some t = sym (lookup-same_set k c σ same new) ∙ e in cc
      | inr other ↦ h c t (rw (other, lookup) e)
    ]

    itp-Labelled :
        (σ : Proof) (f : ℕ) (c : Lits) (st : Labels)
        → Valid ts σ
        → Agrees σ
        → length σ < f
        → Has σ c
        → MemoCovers st.memo
        → Labelled c (itp f g lit_sig π c st)
    unfolding itp lookup
    itp-Labelled σ zero c st v ag b h m = absurd (omega (arith, b))
    itp-Labelled [] (suc f) c st v ag b h m = let bad = h.1 in cc
    itp-Labelled ((k, s) ∷ σ) (suc f) c st v ag b h m = elim (Option-cases (find_label c st.memo)) [
      | inr (known, e) ↦ (known, st, rw (e, itp) refl, m c known e, m)
      | inl unknown ↦ elim (Bool-cases (same_set k c)) [
        | inr other ↦
            itp-Labelled σ (suc f) c st v.2 (Agrees-tail k s σ v.0 ag) (omega (arith, b))
              (h.0, sym (rw (other, lookup) refl) ∙ h.1) m
        | inl same ↦
            rw (unknown, itp)
              (rw (ag c s (rw (same, lookup) refl), itp)
                (entry s v.1 same (λ d hd st' m'.
                  itp-Labelled σ f d st' v.2 (Agrees-tail k s σ v.0 ag) (omega (arith, b)) hd m')))
      ]
    ]
      where
        entry :
            (s : Source)
            → Justified ts s k σ
            → same_set k c ≡ true
            → ((d : Lits)
                → Has σ d
                → (st' : Labels) → MemoCovers st'.memo
                → Labelled d (itp f g lit_sig π d st'))
            → Labelled c (elim s [
              | leaf tag ↦ label c st.memo (leaf_sig g lit_sig tag c st.counter)
              | res l r piv ↦ elim (itp f g lit_sig π l st) [
                | none ↦ none
                | some (il, st1) ↦ elim (itp f g lit_sig π r st1) [
                  | none ↦ none
                  | some (ir, st2) ↦ label c st2.memo (res_sig g piv il ir st2.counter)
                ]
              ]
            ])
        entry (leaf tag) j e call =
            label-Labelled c st.memo (leaf_sig g lit_sig tag c st.counter) m
              (leaf-Covers tag k c st.counter j e)
        entry (res l r x) j e call =
            let (il, st1, e1, c1, m1) = call l j.1 st m in
            let (ir, st2, e2, c2, m2) = call r j.2 st1 m1 in
            let e' : same_set (resolve l r x) c ≡ true = rw (← j.0) e in
            rw (e1, itp)
              (rw (e2, itp)
                (label-Labelled c st2.memo (res_sig g x il ir st2.counter) m2
                  (res-Covers l r c x il ir st2.counter j.3 e' c1 c2)))

-- On a valid proof that holds the root, mcmillan returns a signal; whenever the first half of the
-- query holds, and shared literals read as their signals, the signal is one or an unshared literal
-- of the root is true. So for an empty root the first half implies the signal.
pub mcmillan-Covers :
    (ts : List (Lits × Tag)) (π : Proof) (root : Lits) (g : ℕ → Bool) (lit_sig : ℤ → Build Sig)
    (n : ℕ)
    → Valid ts π
    → Has π root
    → (s : Sig) × (st : Labels) × (mcmillan g lit_sig π root n ≡ some (s, st))
      × Covers ts g lit_sig s root
unfolding mcmillan find_label
mcmillan-Covers ts π root g lit_sig n v h =
    let (s, st, e, c, _) =
      itp-Labelled ts g lit_sig π π (suc (length π)) root (record { memo = []; counter = n }) v
        (λ c s q. q) (omega arith) h (λ c s q. cc) in
    (s, st, e, c)
