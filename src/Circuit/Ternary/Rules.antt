-- ===== src/Circuit/Ternary/Rules.antt =====
-- The value that ternary simulation assigns, by recursion on the signal, and Kleene's rules: a
-- definite output under unknown inputs is the output of every completion.
use emergent_hardware_verifi.Circuit.Meaning.{eval_any, eval_all, eval, any, all, Valuation}
use emergent_hardware_verifi.Circuit.Ternary.{
  tri_xor, tri_or, tri_not, tri_ite, tri_and, has, TriEnv, Tri,
}
use emergent_hardware_verifi.Circuit.Sig.{xor, var, or, not, nil, ite, const, cons, and, Sigs, Sig}
use emergent_hardware_verifi.Prelude.{
  ◌||◌, sym, inr, inl, Bool-cases, ◌&&◌, ◌≡◌, ◌∷◌, xor_bool, true, some, refl, none, flip, false,
  if◌then◌else◌, arith, ap₂, ap, [], String, Option, List, Bool,
}

-- The recursive reading of `ternary_eval`; a missing name counts as X.
abbrev pub known : Option Tri → Tri
known none = none
known (some v) = v

unfoldable mutual
  pub tri : TriEnv → Sig → Tri
  tri env (const _ b) = some b
  tri env (var _ x) = known (env x)
  tri env (not _ a) = tri_not (tri env a)
  tri env (and _ xs) = tri_and (tri_args env xs)
  tri env (or _ xs) = tri_or (tri_args env xs)
  tri env (xor _ a b) = tri_xor (tri env a) (tri env b)
  tri env (ite _ c t e) = tri_ite (tri env c) (tri env t) (tri env e)

  pub tri_args : TriEnv → Sigs → List Tri
  tri_args env nil = []
  tri_args env (cons s ss) = tri env s ∷ tri_args env ss

-- `v ⊑ b`: a definite value is the Boolean itself.
abbrev pub Covers : Tri → Bool → Type 0
Covers none b = Unit {0}
Covers (some a) b = a ≡ b

-- A valuation completes an environment if it agrees with each definite entry.
abbrev pub Completes : TriEnv → Valuation → Type 0
Completes env ρ = (x : String) → Covers (known (env x)) (ρ x)

-- More is known in the first value than in the second.
abbrev pub Refines : Tri → Tri → Type 0
Refines v none = Unit {0}
Refines v (some b) = v ≡ some b

Covers-tri_not : (v : Tri) (b : Bool) → Covers v b → Covers (tri_not v) (flip b)
Covers-tri_not none b h = tt
Covers-tri_not (some a) b h = ap flip h

Covers-tri_xor :
    (v w : Tri) (a b : Bool) → Covers v a → Covers w b → Covers (tri_xor v w) (xor_bool a b)
Covers-tri_xor none w a b h k = tt
Covers-tri_xor (some x) none a b h k = tt
Covers-tri_xor (some x) (some y) a b h k = ap₂ xor_bool h k

Covers-tri_ite :
    (u v w : Tri) (a b c : Bool)
    → Covers u a
    → Covers v b
    → Covers w c
    → Covers (tri_ite u v w) (if a then b else c)
Covers-tri_ite (some true) v w a b c h k l = rw (← h) k
Covers-tri_ite (some false) v w a b c h k l = rw (← h) l
Covers-tri_ite none (some true) (some true) a b c h k l = ground arith
Covers-tri_ite none (some false) (some false) a b c h k l = ground arith
Covers-tri_ite none _ _ a b c h k l = tt

-- The values cover the Booleans one by one.
abbrev pub CoverAll : List Tri → List Bool → Type 0
CoverAll [] [] = Unit {0}
CoverAll (v ∷ vs) (b ∷ bs) = Covers v b × CoverAll vs bs
CoverAll [] (b ∷ bs) = ⊥
CoverAll (v ∷ vs) [] = ⊥

-- An AND whose remaining values are `vs` is false as soon as one of them is.
has-false :
    (vs : List Tri) (bs : List Bool) → CoverAll vs bs → has (some false) vs ≡ true → all bs ≡ false
has-false [] [] h e = cc
has-false [] (b ∷ bs) h e = absurd h
has-false (v ∷ vs) [] h e = absurd h
has-false (none ∷ vs) (b ∷ bs) h e = ground (arith, has-false vs bs h.1 e)
has-false (some true ∷ vs) (b ∷ bs) h e = ground (arith, has-false vs bs h.1 e)
has-false (some false ∷ vs) (b ∷ bs) h e = rw (← h.0) refl

no_false :
    (vs : List Tri) (bs : List Bool)
    → CoverAll vs bs
    → has (some false) vs ≡ false
    → has none vs ≡ false
    → all bs ≡ true
no_false [] [] h e k = refl
no_false [] (b ∷ bs) h e k = absurd h
no_false (v ∷ vs) [] h e k = absurd h
no_false (none ∷ vs) (b ∷ bs) h e k = cc
no_false (some true ∷ vs) (b ∷ bs) h e k = rw (← h.0) (no_false vs bs h.1 e k)
no_false (some false ∷ vs) (b ∷ bs) h e k = cc

Covers-tri_and : (vs : List Tri) (bs : List Bool) → CoverAll vs bs → Covers (tri_and vs) (all bs)
Covers-tri_and vs bs h = elim (Bool-cases (has (some false) vs)) [
  | inl e ↦ rw e (sym (has-false vs bs h e))
  | inr e ↦ rw e (elim (Bool-cases (has none vs)) [
    | inl k ↦ rw k tt
    | inr k ↦ rw k (sym (no_false vs bs h e k))
  ])
]

has-true :
    (vs : List Tri) (bs : List Bool) → CoverAll vs bs → has (some true) vs ≡ true → any bs ≡ true
has-true [] [] h e = cc
has-true [] (b ∷ bs) h e = absurd h
has-true (v ∷ vs) [] h e = absurd h
has-true (none ∷ vs) (b ∷ bs) h e = ground (arith, has-true vs bs h.1 e)
has-true (some false ∷ vs) (b ∷ bs) h e = ground (arith, has-true vs bs h.1 e)
has-true (some true ∷ vs) (b ∷ bs) h e = rw (← h.0) refl

no_true :
    (vs : List Tri) (bs : List Bool)
    → CoverAll vs bs
    → has (some true) vs ≡ false
    → has none vs ≡ false
    → any bs ≡ false
no_true [] [] h e k = refl
no_true [] (b ∷ bs) h e k = absurd h
no_true (v ∷ vs) [] h e k = absurd h
no_true (none ∷ vs) (b ∷ bs) h e k = cc
no_true (some false ∷ vs) (b ∷ bs) h e k = rw (← h.0) (no_true vs bs h.1 e k)
no_true (some true ∷ vs) (b ∷ bs) h e k = cc

Covers-tri_or : (vs : List Tri) (bs : List Bool) → CoverAll vs bs → Covers (tri_or vs) (any bs)
Covers-tri_or vs bs h = elim (Bool-cases (has (some true) vs)) [
  | inl e ↦ rw e (sym (has-true vs bs h e))
  | inr e ↦ rw e (elim (Bool-cases (has none vs)) [
    | inl k ↦ rw k tt
    | inr k ↦ rw k (sym (no_true vs bs h e k))
  ])
]

abbrev pub eval_list : Valuation → Sigs → List Bool
eval_list ρ nil = []
eval_list ρ (cons s ss) = eval ρ s ∷ eval_list ρ ss

pub all-eval_list : (ρ : Valuation) (ss : Sigs) → all (eval_list ρ ss) ≡ eval_all ρ ss
unfolding eval
all-eval_list ρ nil = refl
all-eval_list ρ (cons s ss) = ap (λ b. eval ρ s && b) (all-eval_list ρ ss)

pub any-eval_list : (ρ : Valuation) (ss : Sigs) → any (eval_list ρ ss) ≡ eval_any ρ ss
unfolding eval
any-eval_list ρ nil = refl
any-eval_list ρ (cons s ss) = ap (λ b. eval ρ s || b) (any-eval_list ρ ss)

mutual
  unfolding tri eval

  covers :
      (env : TriEnv) (ρ : Valuation) → Completes env ρ → (s : Sig) → Covers (tri env s) (eval ρ s)
  covers env ρ h (const _ b) = refl
  covers env ρ h (var _ x) = h x
  covers env ρ h (not _ a) = Covers-tri_not (tri env a) (eval ρ a) (covers env ρ h a)
  covers env ρ h (and _ xs) =
      rw (← all-eval_list ρ xs)
        (Covers-tri_and (tri_args env xs) (eval_list ρ xs) (covers_args env ρ h xs))
  covers env ρ h (or _ xs) =
      rw (← any-eval_list ρ xs)
        (Covers-tri_or (tri_args env xs) (eval_list ρ xs) (covers_args env ρ h xs))
  covers env ρ h (xor _ a b) =
      Covers-tri_xor (tri env a) (tri env b) (eval ρ a) (eval ρ b) (covers env ρ h a)
        (covers env ρ h b)
  covers env ρ h (ite _ c t e) =
      Covers-tri_ite (tri env c) (tri env t) (tri env e) (eval ρ c) (eval ρ t) (eval ρ e)
        (covers env ρ h c) (covers env ρ h t) (covers env ρ h e)

  covers_args :
      (env : TriEnv) (ρ : Valuation)
      → Completes env ρ
      → (ss : Sigs) → CoverAll (tri_args env ss) (eval_list ρ ss)
  covers_args env ρ h nil = tt
  covers_args env ρ h (cons s ss) = (covers env ρ h s, covers_args env ρ h ss)

-- A definite output is the output of every completion.
pub tri-Covers :
    (env : TriEnv) (ρ : Valuation) (s : Sig) → Completes env ρ → Covers (tri env s) (eval ρ s)
tri-Covers env ρ s h = covers env ρ h s
