-- ===== src/Ic3/Lift.antt =====
-- ic3.py, `_lift`: a lifted cube speaks for all of its states.
use emergent_hardware_verifi.Ic3.Drops.{drop_free-Kept, drop_bits-Kept}
use emergent_hardware_verifi.Cegar.Cone.{support-ReadsOnly}
use emergent_hardware_verifi.Circuit.Numbering.{Numbered}
use emergent_hardware_verifi.Frame.Fresh.{listed}
use emergent_hardware_verifi.Sat.Literal.{ℤ, pos, negsuc, is_pos}
use emergent_hardware_verifi.Circuit.Meaning.{eval, Valuation}
use emergent_hardware_verifi.Frame.{TransitionSystem}
use emergent_hardware_verifi.Circuit.Sig.{Sig}
use emergent_hardware_verifi.Prelude.{
  ◌≡◌, ◌∷◌, ◌∙◌, ℕ, true, sym, suc, subst, some, refl, none, inr, inl, get_elem?, flip, false,
  if◌then◌else◌, arith, ap, [], String, Option-cases, Option, List, Bool-cases, Bool, ◌-◌, ◌+◌,
  ◌&&◌,
}
use emergent_hardware_verifi.Circuit.Ternary.Steps.{Bound}
use text.Mathlib.Text.{◌==◌ as str_eq}
use text.Mathlib.TextEquality.{eq_iff}
use mathlib.Core.Option.{get_or}
use emergent_hardware_verifi.Ic3.{◌>>=◌, Cube, state_name}
use emergent_hardware_verifi.Ic3.Cubes.{
  with_supports, or_minterm, lift, Target, drop_free, drop_bits, cube_of, bit_lit,
}
use emergent_hardware_verifi.Ic3.Lifted.{AllNumbered, AllBound, AllSound}
use emergent_hardware_verifi.Circuit.Ternary.Rules.{Completes, Covers, known}
use emergent_hardware_verifi.Circuit.Ternary.{TriEnv, Tri}

-- Does a state have the value that a literal of a cube gives its bit?
abbrev pub lit_holds : TransitionSystem → Valuation → ℤ → Bool
lit_holds ts ρ l = elim (state_name ts l) [
  | none ↦ false
  | some n ↦ if is_pos l then ρ n else flip (ρ n)
]

abbrev pub in_cube : TransitionSystem → Valuation → Cube → Bool
in_cube ts ρ [] = true
in_cube ts ρ (l ∷ ls) = lit_holds ts ρ l && in_cube ts ρ ls

bit_lit-Covers :
    (ts : TransitionSystem) (ρ : Valuation) (i : ℕ) (x : String) (b : Bool)
    → get_elem? ts.state i ≡ some x
    → lit_holds ts ρ (bit_lit i b) ≡ true
    → Covers (some b) (ρ x)
bit_lit-Covers ts ρ i x true h k =
    let place : suc i - 1 ≡ i = omega arith in
    let lit_at : state_name ts (pos (suc i)) ≡ some x = ap (get_elem? ts.state) place ∙ h in
    let read : lit_holds ts ρ (pos (suc i)) ≡ ρ x = rw (lit_at, lit_holds) refl in sym k ∙ read
bit_lit-Covers ts ρ i x false h k =
    let place : suc i - 1 ≡ i = omega arith in
    let lit_at : state_name ts (negsuc i) ≡ some x = ap (get_elem? ts.state) place ∙ h in
    let read : lit_holds ts ρ (negsuc i) ≡ flip (ρ x) = rw (lit_at, lit_holds) refl in
    let value : flip (ρ x) ≡ true = sym read ∙ k in ground arith

-- A state of the cube agrees with the environment on the names that the cube is made of.
cube_of-Covers :
    (ts : TransitionSystem) (ρ : Valuation) (env : TriEnv) (names : List String) (i : ℕ)
    (cube : Cube)
    → ((j : ℕ) → get_elem? ts.state (i + j) ≡ get_elem? names j)
    → cube_of names i env ≡ some cube
    → in_cube ts ρ cube ≡ true
    → (x : String) → listed x names ≡ true
    → Covers (known (env x)) (ρ x)
unfolding cube_of
cube_of-Covers ts ρ env [] i cube at_place h inside x l =
    let bad : ◌≡◌ {A = Bool} false true = l in cc
cube_of-Covers ts ρ env (n ∷ ns) i cube at_place h inside x l = elim (Option-cases (env n)) [
  | inl e ↦ let bad : ◌≡◌ {A = Option Cube} none (some cube) = sym (rw (e, ◌>>=◌) refl) ∙ h in cc
  | inr (v, e) ↦ elim (Option-cases (cube_of ns (suc i) env)) [
    | inl c ↦
        let bad : ◌≡◌ {A = Option Cube} none (some cube) = sym (rw (e, c, ◌>>=◌) refl) ∙ h in cc
    | inr (c, r) ↦
        let result : ◌≡◌ {A = Option Cube} (some (elim v [ none ↦ c | some b ↦ bit_lit i b ∷ c ]))
            (some cube) =
          sym (rw (e, r, ◌>>=◌) refl) ∙ h in
        let made : elim v [ none ↦ c | some b ↦ bit_lit i b ∷ c ] ≡ cube =
          ap (λ o. get_or o cube) result in
        at_name v e c r (ap (in_cube ts ρ) made ∙ inside)
          (λ c' r' q l'. cube_of-Covers ts ρ env ns (suc i) c' there r' q x l')
  ]
]
  where
    here : get_elem? ts.state i ≡ some n
    here =
        let z : i + 0 ≡ i = omega arith in subst (λ k. get_elem? ts.state k ≡ some n) z (at_place 0)

    there : (j : ℕ) → get_elem? ts.state (suc i + j) ≡ get_elem? ns j
    there j =
        let z : i + suc j ≡ suc i + j = omega arith in
        subst (λ k. get_elem? ts.state k ≡ get_elem? ns j) z (at_place (suc j))

    at_name :
        (v : Tri)
        → env n ≡ some v
        → (c : Cube) → cube_of ns (suc i) env ≡ some c
        → in_cube ts ρ (elim v [ none ↦ c | some b ↦ bit_lit i b ∷ c ]) ≡ true
        → ((c' : Cube)
            → cube_of ns (suc i) env ≡ some c'
            → in_cube ts ρ c' ≡ true
            → listed x ns ≡ true
            → Covers (known (env x)) (ρ x))
        → Covers (known (env x)) (ρ x)
    at_name none e c r q rest = elim (Bool-cases (str_eq n x)) [
      | inl same ↦ rw (sym ((eq_iff n x).0 same), e) tt
      | inr differ ↦ rest c r q (ground arith)
    ]
    at_name (some b) e c r q rest = elim (Bool-cases (str_eq n x)) [
      | inl same ↦ rw (sym ((eq_iff n x).0 same), e) (bit_lit-Covers ts ρ i n b here (ground arith))
      | inr differ ↦ rest c r (ground arith) (ground arith)
    ]

-- The targets of a query, and the names that have a value in its model.
abbrev pub NumberedTargets : (ℕ → Sig) → List (Sig × Bool) → Type 0
NumberedTargets D [] = Unit {0}
NumberedTargets D ((sig, _) ∷ ts) = Numbered D sig × NumberedTargets D ts

abbrev pub BoundTargets : TriEnv → List (Sig × Bool) → Type 0
BoundTargets env [] = Unit {0}
BoundTargets env ((sig, _) ∷ ts) = Bound env sig × BoundTargets env ts

-- Every target has its required value.
abbrev pub Meets : Valuation → List (Sig × Bool) → Type 0
Meets ρ [] = Unit {0}
Meets ρ ((sig, req) ∷ ts) = (eval ρ sig ≡ req) × Meets ρ ts

-- The targets with their supports say what the targets said.
record Supported (D : ℕ → Sig) (env : TriEnv) (targets : List (Sig × Bool))
    (r : Option (List Target)) : Type 0 where
  tgts : List Target
  returns : r ≡ some tgts
  numbered : AllNumbered D tgts
  bound : AllBound env tgts
  sound : ((ρ : Valuation) → Completes env ρ → Meets ρ targets) → AllSound env tgts
  meets : (env' : TriEnv) (ρ : Valuation) → Completes env' ρ → AllSound env' tgts → Meets ρ targets

with_supports-Supported :
    (D : ℕ → Sig) (env : TriEnv) (targets : List (Sig × Bool))
    → NumberedTargets D targets
    → BoundTargets env targets
    → Supported D env targets (with_supports targets)
unfolding with_supports
with_supports-Supported D env [] n b = record {
  tgts = [];
  returns = refl;
  numbered = tt;
  bound = tt;
  sound = λ h. tt;
  meets = λ env' ρ c s. tt;
}
with_supports-Supported D env ((sig, req) ∷ ts) (n, ns) (b, bs) =
    let first = support-ReadsOnly D sig n in
    let rest = with_supports-Supported D env ts ns bs in
    record {
      tgts = record { sig = sig; req = req; sup = first.names } ∷ rest.tgts;
      returns = rw (first.returns, rest.returns, ◌>>=◌) refl;
      numbered = ((n, first.decides), rest.numbered);
      bound = (b, rest.bound);
      sound = λ h. ((λ ρ c. (h ρ c).0), rest.sound (λ ρ c. (h ρ c).1));
      meets = λ env' ρ c s. (s.0 ρ c, rest.meets env' ρ c s.1);
    }

-- For target signals whose node ids are unambiguous and whose names all have entries in the
-- valuation that _lift is given, and required values that every completion of this valuation
-- meets: if _lift returns a cube, every state of the cube, under the inputs of the valuation,
-- gives every target its required value, so the cube speaks for all of its states.
pub lift-Meets :
    (D : ℕ → Sig) (f : ℕ) (ts : TransitionSystem) (env : TriEnv) (targets : List (Sig × Bool))
    (cube : Cube)
    → NumberedTargets D targets
    → BoundTargets env targets
    → ((ρ : Valuation) → Completes env ρ → Meets ρ targets)
    → lift f ts env targets ≡ some cube
    → (ρ : Valuation) → ((x : String) → listed x ts.state ≡ false → Covers (known (env x)) (ρ x))
    → in_cube ts ρ cube ≡ true
    → Meets ρ targets
unfolding lift or_minterm
lift-Meets D f ts env targets cube n b witnessed h ρ inputs inside =
    let sup = with_supports-Supported D env targets n b in
    let free =
      drop_free-Kept D sup.tgts sup.numbered ts.state env (sup.sound witnessed) sup.bound in
    let start = drop_free sup.tgts ts.state env in
    elim (Option-cases (drop_bits f sup.tgts ts.state start)) [
      | inl e ↦
          let bad : ◌≡◌ {A = Option Cube} none (some cube) =
            sym (rw (sup.returns, e, lift, ◌>>=◌) refl) ∙ h in
          cc
      | inr (lifted, e) ↦
          let kept =
            drop_bits-Kept D sup.tgts sup.numbered f ts.state start lifted free.sound free.bound
              e in
          elim (Option-cases (cube_of ts.state 0 lifted)) [
            | inl c ↦
                let bad : ◌≡◌ {A = Option Cube} none (some cube) =
                  sym (rw (sup.returns, e, c, lift, ◌>>=◌) refl) ∙ h in
                cc
            | inr (found, c) ↦
                let result : or_minterm ts.state env found ≡ some cube =
                  sym (rw (sup.returns, e, c, lift, ◌>>=◌) refl) ∙ h in
                at_end lifted found c result (λ x l. kept.others x l ∙ free.others x l)
                  (λ k. sup.meets lifted ρ k kept.sound)
          ]
    ]
  where
    from_zero : (j : ℕ) → get_elem? ts.state (0 + j) ≡ get_elem? ts.state j
    from_zero j = let z : 0 + j ≡ j = omega arith in ap (get_elem? ts.state) z

    completes :
        (env' : TriEnv) (c : Cube)
        → cube_of ts.state 0 env' ≡ some c
        → in_cube ts ρ c ≡ true
        → ((x : String) → listed x ts.state ≡ false → env' x ≡ env x)
        → Completes env' ρ
    completes env' c e k same x = elim (Bool-cases (listed x ts.state)) [
      | inl state_bit ↦ cube_of-Covers ts ρ env' ts.state 0 c from_zero e k x state_bit
      | inr other ↦ subst (λ v. Covers (known v) (ρ x)) (sym (same x other)) (inputs x other)
    ]

    at_end :
        (lifted : TriEnv) (found : Cube)
        → cube_of ts.state 0 lifted ≡ some found
        → or_minterm ts.state env found ≡ some cube
        → ((x : String) → listed x ts.state ≡ false → lifted x ≡ env x)
        → (Completes lifted ρ → Meets ρ targets)
        → Meets ρ targets
    at_end lifted [] c r same meets = witnessed ρ (completes env cube r inside (λ x l. refl))
    at_end lifted (l ∷ ls) c r same meets =
        let whole : l ∷ ls ≡ cube = ap (λ o. get_or o cube) r in
        meets (completes lifted (l ∷ ls) c (ap (in_cube ts ρ) whole ∙ inside) same)
