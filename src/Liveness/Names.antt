-- ===== src/Liveness/Names.antt =====
-- liveness.py: the names of the monitors are apart from one another and from a design's own names.
use emergent_hardware_verifi.Liveness.{shadow}
use emergent_hardware_verifi.Prelude.{
  ◌==◌, ◌≡◌, ◌∙◌, true, sym, refl, inr, inl, false, ap, String, Bool-cases, Bool, ◌&&◌,
}
use text.Mathlib.Text.{◌==◌ as str_eq}
use text.Mathlib.TextEquality.{eq_iff}
use Prim.Native.String.{◌∷◌ as ◌∷ₛ◌}
use Prim.Native.Char.{code}

-- The name starts with two underscores.
abbrev pub reserved : String → Bool
reserved (c ∷ₛ d ∷ₛ x) = code c == 95 && code d == 95
reserved x = false

-- The fourth letter is an h, as in `__shadow_w`.
abbrev pub has_fourth_h : String → Bool
has_fourth_h (_ ∷ₛ _ ∷ₛ _ ∷ₛ c ∷ₛ x) = code c == 104
has_fourth_h x = false

-- A test that tells two names apart.
pub apart :
    (test : String → Bool) (x y : String) → test x ≡ true → test y ≡ false → str_eq x y ≡ false
apart test x y h k = elim (Bool-cases (str_eq x y)) [
  | inr e ↦ e
  | inl e ↦ let bad : true ≡ false = sym h ∙ ap test ((eq_iff x y).0 e) ∙ k in cc
]

pub has_fourth_h-shadow : (w : String) → has_fourth_h (shadow w) ≡ true
has_fourth_h-shadow w = refl

pub reserved-shadow : (w : String) → reserved (shadow w) ≡ true
reserved-shadow w = refl

abbrev unshadow : String → String
unshadow (_ ∷ₛ _ ∷ₛ _ ∷ₛ _ ∷ₛ _ ∷ₛ _ ∷ₛ _ ∷ₛ _ ∷ₛ _ ∷ₛ w) = w
unshadow x = x

unshadow-shadow : (w : String) → unshadow (shadow w) ≡ w
unshadow-shadow w = refl

pub shadow_inj : (v w : String) → str_eq (shadow v) (shadow w) ≡ true → v ≡ w
shadow_inj v w h =
    sym (unshadow-shadow v) ∙ ap unshadow ((eq_iff (shadow v) (shadow w)).0 h) ∙ unshadow-shadow w
