-- ===== src/Ic3/Drops.antt =====
-- ic3.py, `_lift`: what its two loops of drops keep.
use emergent_hardware_verifi.Frame.Fresh.{listed}
use emergent_hardware_verifi.Frame.{put_name}
use emergent_hardware_verifi.Circuit.Sig.{Sig}
use emergent_hardware_verifi.Prelude.{
  ◌≡◌, ◌∷◌, ◌∙◌, ℕ, true, sym, subst, some, refl, none, inr, inl, false, arith, ap, [], String,
  Option-cases, Option, List, Bool-cases,
}
use text.Mathlib.Text.{◌==◌ as str_eq}
use mathlib.Core.Option.{get_or}
use emergent_hardware_verifi.Ic3.{◌>>=◌}
use emergent_hardware_verifi.Ic3.Cubes.{
  Target, in_cone, drop_free, all_definite, drop_bit, drop_bits,
}
use emergent_hardware_verifi.Ic3.Lifted.{
  AllNumbered, AllBound, AllSound, AllBound-put, unread-AllSound, all_definite-AllSound,
}
use emergent_hardware_verifi.Circuit.Ternary.{TriEnv, Tri}

-- What a series of drops keeps: the targets, and the entries of the names it does not touch.
pub record Kept (ts : List Target) (xs : List String) (before after : TriEnv) : Type 0 where
  pub sound : AllSound after ts
  pub bound : AllBound after ts
  pub others : (y : String) → listed y xs ≡ false → after y ≡ before y

put_other :
    (env : TriEnv) (x y : String) (v : Tri) → str_eq x y ≡ false → put_name env x v y ≡ env y
put_other env x y v h = rw h refl

module _ (D : ℕ → Sig) (ts : List Target) (num : AllNumbered D ts) where
  pub drop_free-Kept :
      (xs : List String) (env : TriEnv)
      → AllSound env ts
      → AllBound env ts
      → Kept ts xs env (drop_free ts xs env)
  unfolding drop_free
  drop_free-Kept [] env s b = record { sound = s; bound = b; others = λ y h. refl }
  drop_free-Kept (x ∷ xs) env s b = elim (Bool-cases (in_cone x ts)) [
    | inl reads_it ↦
        let k = drop_free-Kept xs env s b in
        rw reads_it
          (record { sound = k.sound; bound = k.bound; others = λ y h. k.others y (ground arith) })
    | inr free ↦
        let k =
          drop_free-Kept xs (put_name env x none) (unread-AllSound D env x ts num free s)
            (AllBound-put env x ts b) in
        rw free (record {
          sound = k.sound;
          bound = k.bound;
          others = λ y h. k.others y (ground arith) ∙ put_other env x y none (ground arith);
        })
  ]

  drop_bit-Kept :
      (f : ℕ) (x : String) (env env' : TriEnv)
      → AllSound env ts
      → AllBound env ts
      → drop_bit f ts x env ≡ some env'
      → Kept ts (x ∷ []) env env'
  unfolding drop_bit
  drop_bit-Kept f x env env' s b h = elim (Option-cases (env x)) [
    | inl e ↦
        let bad : ◌≡◌ {A = Option TriEnv} none (some env') = sym (rw (e, drop_bit) refl) ∙ h in cc
    | inr (v, e) ↦ elim (Option-cases v) [
      | inl x_already ↦ same (sym (rw (e, x_already, drop_bit) refl) ∙ h)
      | inr (_, w) ↦ elim (Option-cases (all_definite f (put_name env x none) x ts [])) [
        | inl a ↦
            let bad : ◌≡◌ {A = Option TriEnv} none (some env') =
              sym (rw (e, w, a, drop_bit, ◌>>=◌) refl) ∙ h in
            cc
        | inr (ok, a) ↦ elim (Bool-cases ok) [
          | inr not_ok ↦ same (sym (rw (e, w, a, not_ok, drop_bit, ◌>>=◌) refl) ∙ h)
          | inl yes_ok ↦
              let result : ◌≡◌ {A = Option TriEnv} (some (put_name env x none)) (some env') =
                sym (rw (e, w, a, yes_ok, drop_bit, ◌>>=◌) refl) ∙ h in
              let definite : all_definite f (put_name env x none) x ts [] ≡ some true =
                a ∙ ap some yes_ok in
              subst (λ t. Kept ts (x ∷ []) env t) (ap (λ o. get_or o env') result)
                (record {
                  sound =
                      all_definite-AllSound D f env x ts [] num (AllBound-put env x ts b)
                        (λ i t q. let bad : ◌≡◌ {A = Option Tri} none (some t) = q in cc) s
                        definite;
                  bound = AllBound-put env x ts b;
                  others = λ y q. put_other env x y none (ground arith);
                })
        ]
      ]
    ]
  ]
    where
      same : some env ≡ some env' → Kept ts (x ∷ []) env env'
      same e =
          subst (λ t. Kept ts (x ∷ []) env t) (ap (λ o. get_or o env') e)
            (record { sound = s; bound = b; others = λ y q. refl })

  pub drop_bits-Kept :
      (f : ℕ) (xs : List String) (env env' : TriEnv)
      → AllSound env ts
      → AllBound env ts
      → drop_bits f ts xs env ≡ some env'
      → Kept ts xs env env'
  unfolding drop_bits
  drop_bits-Kept f [] env env' s b h =
      subst (λ t. Kept ts [] env t) (ap (λ o. get_or o env') h)
        (record { sound = s; bound = b; others = λ y q. refl })
  drop_bits-Kept f (x ∷ xs) env env' s b h = elim (Option-cases (drop_bit f ts x env)) [
    | inl e ↦
        let bad : ◌≡◌ {A = Option TriEnv} none (some env') = sym (rw (e, ◌>>=◌) refl) ∙ h in cc
    | inr (mid, e) ↦
        let first = drop_bit-Kept f x env mid s b e in
        let rest =
          drop_bits-Kept f xs mid env' first.sound first.bound (sym (rw (e, ◌>>=◌) refl) ∙ h) in
        record {
          sound = rest.sound;
          bound = rest.bound;
          others = λ y q. rest.others y (ground arith) ∙ first.others y (ground arith);
        }
  ]
