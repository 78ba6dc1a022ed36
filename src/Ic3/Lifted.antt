-- ===== src/Ic3/Lifted.antt =====
-- ic3.py, `_lift`: the drops of state bits, one after the other.
use emergent_hardware_verifi.Ic3.Simulated.{simulate_sig-tri}
use text.Mathlib.Text.{◌==◌ as str_eq}
use text.Mathlib.TextEquality.{eq_iff}
use emergent_hardware_verifi.Frame.{put_name}
use emergent_hardware_verifi.Frame.Fresh.{listed}
use emergent_hardware_verifi.Cegar.Refine.{differs}
use emergent_hardware_verifi.Circuit.Meaning.{eval, Valuation}
use emergent_hardware_verifi.Ic3.Cubes.{tri_is, in_cone, all_definite, Target}
use emergent_hardware_verifi.Circuit.Sig.{xor, var, or, not, nil, ite, const, cons, and, Sigs, Sig}
use emergent_hardware_verifi.Circuit.Numbering.{Numbered}
use emergent_hardware_verifi.Prelude.{
  true, false, String, List, Bool-cases, Bool, ◌≡◌, ◌∷◌, ◌∙◌, ℕ, sym, subst, some, refl, none, inr,
  inl, arith, [], Option-cases, Option,
}
use emergent_hardware_verifi.Circuit.Ternary.{TriEnv, Tri, Memo}
use emergent_hardware_verifi.Circuit.Ternary.Rules.{Covers, tri-Covers, known, Completes}
use emergent_hardware_verifi.Circuit.Ternary.Steps.{Bound, BoundAll}
use emergent_hardware_verifi.Circuit.Ternary.Run.{Holds}
use emergent_hardware_verifi.Cegar.Replay.{simulate_sig}

-- The value of a target hangs on its support alone.
abbrev pub Decides : Target → Type 0
Decides t =
    (ρ σ : Valuation)
    → ((x : String) → listed x t.sup ≡ true → ρ x ≡ σ x)
    → eval ρ t.sig ≡ eval σ t.sig

module _ (D : ℕ → Sig) where
  abbrev pub AllNumbered : List Target → Type 0
  AllNumbered [] = Unit {0}
  AllNumbered (t ∷ ts) = (Numbered D t.sig × Decides t) × AllNumbered ts

abbrev pub AllBound : TriEnv → List Target → Type 0
AllBound env [] = Unit {0}
AllBound env (t ∷ ts) = Bound env t.sig × AllBound env ts

-- Every state that completes the environment gives each target its required value.
abbrev pub Sound : TriEnv → Target → Type 0
Sound env t = (ρ : Valuation) → Completes env ρ → eval ρ t.sig ≡ t.req

abbrev pub AllSound : TriEnv → List Target → Type 0
AllSound env [] = Unit {0}
AllSound env (t ∷ ts) = Sound env t × AllSound env ts

mutual
  Bound-put : (env : TriEnv) (x : String) (s : Sig) → Bound env s → Bound (put_name env x none) s
  Bound-put env x (const i b) h = tt
  Bound-put env x (var i y) (v, e) = elim (Bool-cases (str_eq x y)) [
    | inl same ↦ (none, rw same refl)
    | inr differ ↦ (v, rw differ e)
  ]
  Bound-put env x (not i a) h = Bound-put env x a h
  Bound-put env x (and i xs) h = BoundAll-put env x xs h
  Bound-put env x (or i xs) h = BoundAll-put env x xs h
  Bound-put env x (xor i a b) (h, k) = (Bound-put env x a h, Bound-put env x b k)
  Bound-put env x (ite i c t e) (h, k, l) =
      (Bound-put env x c h, Bound-put env x t k, Bound-put env x e l)

  BoundAll-put :
      (env : TriEnv) (x : String) (ss : Sigs) → BoundAll env ss → BoundAll (put_name env x none) ss
  BoundAll-put env x nil h = tt
  BoundAll-put env x (cons s ss) (h, k) = (Bound-put env x s h, BoundAll-put env x ss k)

pub AllBound-put :
    (env : TriEnv) (x : String) (ts : List Target)
    → AllBound env ts
    → AllBound (put_name env x none) ts
AllBound-put env x [] h = tt
AllBound-put env x (t ∷ ts) (h, hs) = (Bound-put env x t.sig h, AllBound-put env x ts hs)

-- A valuation moved to agree with what an environment knows.
abbrev settle : Tri → Bool → Bool
settle none b = b
settle (some a) b = a

settle-Covers : (v : Tri) (b : Bool) → Covers v (settle v b)
settle-Covers none b = tt
settle-Covers (some a) b = refl

Covers-settle : (v : Tri) (b : Bool) → Covers v b → settle v b ≡ b
Covers-settle none b h = refl
Covers-settle (some a) b h = h

-- A bit that a target does not read may be dropped.
unread-Sound :
    (env : TriEnv) (x : String) (t : Target)
    → Decides t
    → listed x t.sup ≡ false
    → Sound env t
    → Sound (put_name env x none) t
unread-Sound env x t decides unread sound ρ h =
    let σ : Valuation = λ y. settle (known (env y)) (ρ y) in
    decides ρ σ (λ y l. same_at y l) ∙ sound σ (λ y. settle-Covers (known (env y)) (ρ y))
  where
    same_at : (y : String) → listed y t.sup ≡ true → ρ y ≡ settle (known (env y)) (ρ y)
    same_at y l = elim (Bool-cases (str_eq x y)) [
      | inl same ↦
          let at_x : listed x t.sup ≡ true = rw ((eq_iff x y).0 same) l in
          let bad : ◌≡◌ {A = Bool} false true = sym unread ∙ at_x in cc
      | inr differ ↦
          let entry : put_name env x none y ≡ env y = rw differ refl in
          let covers : Covers (known (env y)) (ρ y) =
            subst (λ v. Covers (known v) (ρ y)) entry (h y) in
          sym (Covers-settle (known (env y)) (ρ y) covers)
    ]

pub unread-AllSound :
    (D : ℕ → Sig) (env : TriEnv) (x : String) (ts : List Target)
    → AllNumbered D ts
    → in_cone x ts ≡ false
    → AllSound env ts
    → AllSound (put_name env x none) ts
unread-AllSound D env x [] num free sound = tt
unread-AllSound D env x (t ∷ ts) ((_, decides), num) free (sound, sounds) = (
  unread-Sound env x t decides (ground arith) sound,
  unread-AllSound D env x ts num (ground arith) sounds,
)

tri_is-Covers : (a b : Bool) (v : Tri) → tri_is a v ≡ true → Covers v b → b ≡ a
tri_is-Covers a b none h k = let bad : ◌≡◌ {A = Bool} false true = h in cc
tri_is-Covers a b (some c) h k = ground arith

-- A simulated drop that every target survives.
pub all_definite-AllSound :
    (D : ℕ → Sig) (f : ℕ) (env : TriEnv) (x : String) (ts : List Target) (memo : Memo)
    → AllNumbered D ts
    → AllBound (put_name env x none) ts
    → Holds (put_name env x none) D memo
    → AllSound env ts
    → all_definite f (put_name env x none) x ts memo ≡ some true
    → AllSound (put_name env x none) ts
unfolding all_definite
all_definite-AllSound D f env x [] memo num bound right sound h = tt
all_definite-AllSound D f env x (t ∷ ts) memo ((n, decides), num) (b, bound) right (sound, sounds)
      h =
    elim (Bool-cases (listed x t.sup)) [
      | inr unread ↦ (
        unread-Sound env x t decides unread sound,
        all_definite-AllSound D f env x ts memo num bound right sounds
            (sym (rw (unread, all_definite) refl) ∙ h),
      )
      | inl reads_it ↦ elim (Option-cases (simulate_sig f (put_name env x none) t.sig memo)) [
        | inl e ↦
            let bad : ◌≡◌ {A = Option Bool} none (some true) =
              sym (rw (reads_it, e, all_definite) refl) ∙ h in
            cc
        | inr ((v, memo'), e) ↦ elim (Bool-cases (tri_is t.req v)) [
          | inr differs ↦
              let bad : ◌≡◌ {A = Option Bool} (some false) (some true) =
                sym (rw (reads_it, e, differs, all_definite) refl) ∙ h in
              cc
          | inl agrees ↦
              let (value_of, right') =
                simulate_sig-tri D f (put_name env x none) t.sig memo memo' v n b right e in
              (
                λ ρ c. tri_is-Covers t.req (eval ρ t.sig) v agrees (
                    subst (λ w. Covers w (eval ρ t.sig)) (sym value_of)
                      (tri-Covers (put_name env x none) ρ t.sig c)),
                all_definite-AllSound D f env x ts memo' num bound right' sounds
                    (sym (rw (reads_it, e, agrees, all_definite) refl) ∙ h),
              )
        ]
      ]
    ]
