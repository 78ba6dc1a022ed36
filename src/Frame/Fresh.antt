-- ===== src/Frame/Fresh.antt =====
-- The fresh variables of a frame: each name gets one that nothing constrains.
use emergent_hardware_verifi.Tseitin.Gate.{reads}
use emergent_hardware_verifi.Tseitin.NewVar.{with_var-IsSound, formula_val-with_var}
use text.Mathlib.TextEquality.{eq_iff}
use emergent_hardware_verifi.Frame.{put_name, bind_fresh}
use emergent_hardware_verifi.Circuit.Meaning.{Valuation}
use emergent_hardware_verifi.Sat.Solver.{with_var, new_var, Solver}
use emergent_hardware_verifi.Tseitin.{LitEnv}
use emergent_hardware_verifi.Sat.Solver.Meaning.{formula_val, Known}
use emergent_hardware_verifi.Prelude.{
  true, ◌≤◌, ◌≡◌, ◌∷◌, ◌∙◌, ℕ, ◌||◌, sym, suc, some, refl, inr, inl, false, arith, ap, [], String,
  Option, List, Bool-cases, Bool,
}
use emergent_hardware_verifi.Sat.Literal.{ℤ, pos, lit_val, Assignment}
use emergent_hardware_verifi.Tseitin.State.{
  update, lit_val-update, lit_val-Agree, Known-more, IsSound, Agree-update, Agree,
}
use text.Mathlib.Text.{◌==◌ as str_eq}

abbrev pub EnvKnown : ℕ → LitEnv → Type 0
EnvKnown n env = (x : String) (l : ℤ) → env x ≡ some l → Known n l

-- Under the assignment every name that the environment has reads as the valuation says.
abbrev pub Agrees : Assignment → Valuation → LitEnv → Type 0
Agrees μ ρ env = (x : String) (l : ℤ) → env x ≡ some l → lit_val μ l ≡ ρ x

abbrev pub Has : LitEnv → String → Type 0
Has env x = (l : ℤ) × (env x ≡ some l)

abbrev pub HasAll : LitEnv → List String → Type 0
HasAll env [] = Unit {0}
HasAll env (x ∷ xs) = Has env x × HasAll env xs

abbrev pub listed : String → List String → Bool
listed x [] = false
listed x (y ∷ ys) = str_eq y x || listed x ys

pub record Fresh (s : Solver) (env : LitEnv) (names : List String)
    (result : Option (LitEnv × Solver)) : Type 0 where
  pub env' : LitEnv
  pub after : Solver
  pub returns : result ≡ some (env', after)
  pub sound : IsSound after
  pub same_formula : (μ : Assignment) → formula_val μ after ≡ formula_val μ s
  pub more_vars : s.n_vars ≤ after.n_vars
  pub known : EnvKnown after.n_vars env'
  pub has_all : HasAll env' names
  pub still_has : (x : String) → Has env x → Has env' x
  pub others : (x : String) → listed x names ≡ false → env' x ≡ env x
  pub free :
      (ρ : Valuation) (μ : Assignment)
      → Agrees μ ρ env
      → (ν : Assignment) × Agree s.n_vars μ ν × Agrees ν ρ env'
  -- The bound names may take any values, whatever the other names read as.
  pub fill :
      (ρ : Valuation) (μ : Assignment)
      → (ν : Assignment) × Agree s.n_vars μ ν
        × ((x : String) (l : ℤ) → listed x names ≡ true → env' x ≡ some l → lit_val ν l ≡ ρ x)

pub put_name-has : (env : LitEnv) (k : String) (l : ℤ) → put_name env k l k ≡ some l
put_name-has env k l = rw ((eq_iff k k).1 refl) refl

pub put_name-still :
    (env : LitEnv) (k : String) (l : ℤ) (x : String) → Has env x → Has (put_name env k l) x
put_name-still env k l x h = elim (Bool-cases (str_eq k x)) [
  | inl e ↦ (l, rw e refl)
  | inr e ↦ rw e h
]

put_name-EnvKnown :
    (n : ℕ) (env : LitEnv) (k : String)
    → EnvKnown n env
    → EnvKnown (suc n) (put_name env k (pos (suc n)))
put_name-EnvKnown n env k h x l e = elim (Bool-cases (str_eq k x)) [
  | inl same ↦
      let q : pos (suc n) ≡ l = ground (arith, e, same) in rw (← q) (omega arith, omega arith)
  | inr other ↦ Known-more l (omega arith) (h x l (ground (arith, e, other)))
]

-- The new variable may take any value.
put_name-Agrees :
    (n : ℕ) (env : LitEnv) (k : String) (ρ : Valuation) (μ : Assignment)
    → EnvKnown n env
    → Agrees μ ρ env
    → Agrees (update μ (suc n) (ρ k)) ρ (put_name env k (pos (suc n)))
put_name-Agrees n env k ρ μ h a x l e = elim (Bool-cases (str_eq k x)) [
  | inl same ↦
      let q : pos (suc n) ≡ l = ground (arith, e, same) in
      let kx : k ≡ x = (eq_iff k x).0 same in rw (← q) (lit_val-update μ (suc n) (ρ k) ∙ ap ρ kx)
  | inr other ↦
      let old : env x ≡ some l = ground (arith, e, other) in
      sym (lit_val-Agree n μ (update μ (suc n) (ρ k)) l (Agree-update μ n (ρ k)) (h x l old))
      ∙ a x l old
]

-- The first name keeps its variable unless a later one has the same name.
fill-cons :
    (n : ℕ) (env env' : LitEnv) (k : String) (ks : List String) (ρ : Valuation) (μ ν : Assignment)
    → ((x : String) → listed x ks ≡ false → env' x ≡ put_name env k (pos (suc n)) x)
    → Agree (suc n) (update μ (suc n) (ρ k)) ν
    → ((x : String) (l : ℤ) → listed x ks ≡ true → env' x ≡ some l → lit_val ν l ≡ ρ x)
    → (x : String) (l : ℤ) → listed x (k ∷ ks) ≡ true
    → env' x ≡ some l
    → lit_val ν l ≡ ρ x
fill-cons n env env' k ks ρ μ ν others agree filled x l e q = elim (Bool-cases (listed x ks)) [
  | inl later ↦ filled x l later q
  | inr not_later ↦
      let same : str_eq k x ≡ true = ground (arith, e, not_later) in
      let mine : put_name env k (pos (suc n)) x ≡ some l = sym (others x not_later) ∙ q in
      let is_new : pos (suc n) ≡ l = ground (arith, mine, same) in
      let kx : k ≡ x = (eq_iff k x).0 same in
      rw (← is_new)
        (sym (agree (suc n) (omega arith) (omega arith)) ∙ lit_val-update μ (suc n) (ρ k) ∙ ap ρ kx)
]

pub bind_fresh-Fresh :
    (names : List String) (env : LitEnv) (s : Solver)
    → IsSound s
    → EnvKnown s.n_vars env
    → Fresh s env names (bind_fresh names env s)
unfolding bind_fresh new_var
bind_fresh-Fresh [] env s h k = record {
  env' = env;
  after = s;
  returns = refl;
  sound = h;
  same_formula = λ μ. refl;
  more_vars = omega arith;
  known = k;
  has_all = tt;
  still_has = λ x e. e;
  others = λ x e. refl;
  free = λ ρ μ a. (μ, (λ v lo hi. refl), a);
  fill = λ ρ μ. (μ, (λ v lo hi. refl), (λ x l e q. cc));
}
bind_fresh-Fresh (x ∷ xs) env s h k =
    let n = s.n_vars in
    let env1 = put_name env x (pos (suc n)) in
    let r =
      bind_fresh-Fresh xs env1 (with_var s) (with_var-IsSound s h) (put_name-EnvKnown n env x k) in
    record {
      env' = r.env';
      after = r.after;
      returns = r.returns;
      sound = r.sound;
      same_formula = λ μ. r.same_formula μ ∙ formula_val-with_var μ s;
      more_vars = omega (arith, r.more_vars);
      known = r.known;
      has_all = (r.still_has x (pos (suc n), put_name-has env x (pos (suc n))), r.has_all);
      still_has = λ y e. r.still_has y (put_name-still env x (pos (suc n)) y e);
      others = λ y e. r.others y (ground (arith, e)) ∙ ground (arith, e);
      free = λ ρ μ a.
          let μ1 = update μ (suc n) (ρ x) in
          let (ν, agree, reads) = r.free ρ μ1 (put_name-Agrees n env x ρ μ k a) in
          (ν, (λ v lo hi. Agree-update μ n (ρ x) v lo hi ∙ agree v lo (omega arith)), reads);
      fill = λ ρ μ.
          let (ν, agree, filled) = r.fill ρ (update μ (suc n) (ρ x)) in
          (
            ν,
            (λ v lo hi. Agree-update μ n (ρ x) v lo hi ∙ agree v lo (omega arith)),
            fill-cons n env r.env' x xs ρ μ ν r.others agree filled,
          );
    }
