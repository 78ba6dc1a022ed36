-- ===== src/WordCheck.antt =====
-- word.py: terms of smt.py, their widths, and the word-level engine in the children. `none` is a Python
-- exception. A width is `none` where Python has None.
pub mod Blaster
pub mod Unroll
pub mod Borrow
mod Tests
use emergent_hardware_verifi.Circuit.Sig.{args}
use emergent_hardware_verifi.Prelude.{
  true, false, if◌then◌else◌, Bool, ◌∷◌, ℕ, some, none, get_elem?, [], String, Option, List, ◌-◌,
  ◌+◌,
}
use Prim.Native.Nat.{max}

-- `Term.kind` of a term with arguments, with the `val` of extract and zext.
pub data Kind : Type 0 where
  k_eq k_ne k_ult k_ule k_ugt k_uge : Kind
  k_add k_sub k_mul k_and k_or k_xor k_neg k_shl k_lshr : Kind
  k_not k_ite k_select k_store k_concat : Kind
  k_extract : ℕ → ℕ → Kind
  k_zext : ℕ → Kind

-- `k in _CMP`
unfoldable pub is_cmp : Kind → Bool
is_cmp k_eq = true
is_cmp k_ne = true
is_cmp k_ult = true
is_cmp k_ule = true
is_cmp k_ugt = true
is_cmp k_uge = true
is_cmp k = false

mutual
  pub data Term : Type 0 where
    var_term : String → Term
    const_term : ℕ → Term
    op_term : Kind → Terms → Term

  pub data Terms : Type 0 where
    no_terms : Terms
    more_terms : Term → Terms → Terms

-- A value of `wenv`: the width of a word, or ('mem', aw, dw).
pub data Sort : Type 0 where
  word_sort : ℕ → Sort
  mem_sort : ℕ → ℕ → Sort

abbrev pub Width : Type 0
Width = Option ℕ

abbrev pub WidthEnv : Type 0
WidthEnv = String → Option Sort

-- `(aw, dw)` of an array term; a select of anything else is a ValueError or a TypeError.
unfoldable pub mem_widths : WidthEnv → Term → Option (ℕ × ℕ)
mem_widths wenv (var_term x) = elim (wenv x) [
  | none ↦ none
  | some s ↦ elim s [ word_sort _ ↦ none | mem_sort aw dw ↦ some (aw, dw) ]
]
mem_widths wenv (const_term _) = none
mem_widths wenv (op_term k_store (more_terms a _)) = mem_widths wenv a
mem_widths wenv (op_term k args) = none

-- `_maxw`
unfoldable pub maxw : Width → Width → Width
maxw none b = b
maxw (some a) none = some a
maxw (some a) (some b) = some (max a b)

-- `sum(width_of(a, wenv) for a in t.args)`; None is a TypeError.
unfoldable pub sum_widths : List (Option Width) → Option ℕ
sum_widths [] = some 0
sum_widths (none ∷ ws) = none
sum_widths (some none ∷ ws) = none
sum_widths (some (some w) ∷ ws) = elim (sum_widths ws) [ none ↦ none | some s ↦ some (w + s) ]

-- The loop of `_maxw` over the arguments.
unfoldable pub max_widths : Width → List (Option Width) → Option Width
unfolding maxw
max_widths w [] = some w
max_widths w (none ∷ ws) = none
max_widths w (some v ∷ ws) = max_widths (maxw w v) ws

abbrev pub first_array : Terms → Option Term
first_array no_terms = none
first_array (more_terms t _) = some t

-- `width_of` of a term with arguments, whose widths are given.
unfoldable pub op_width : WidthEnv → Kind → Terms → List (Option Width) → Option Width
unfolding mem_widths max_widths sum_widths is_cmp
op_width wenv (k_extract hi lo) args ws = some (some (hi + 1 - lo))
op_width wenv (k_zext w) args ws = some (some w)
op_width wenv k_concat args ws = elim (sum_widths ws) [ none ↦ none | some s ↦ some (some s) ]
op_width wenv k_select args ws = elim (first_array args) [
  | none ↦ none
  | some a ↦ elim (mem_widths wenv a) [ none ↦ none | some (_, dw) ↦ some (some dw) ]
]
op_width wenv k_ite args ws = elim (get_elem? ws 1) [
  | none ↦ none
  | some t ↦ elim (get_elem? ws 2) [ none ↦ none | some e ↦ max_widths none (t ∷ e ∷ []) ]
]
op_width wenv k_not args ws = elim (get_elem? ws 0) [ none ↦ none | some w ↦ w ]
op_width wenv k_store args ws = none
op_width wenv k args ws = if is_cmp k then some (some 1) else max_widths none ws

unfoldable mutual
  unfolding op_width

  pub width_of : WidthEnv → Term → Option Width
  width_of wenv (var_term x) = elim (wenv x) [
    | none ↦ none
    | some s ↦ elim s [ word_sort w ↦ some (some w) | mem_sort _ _ ↦ some none ]
  ]
  width_of wenv (const_term _) = some none
  width_of wenv (op_term k args) = op_width wenv k args (widths_of wenv args)

  pub widths_of : WidthEnv → Terms → List (Option Width)
  widths_of wenv no_terms = []
  widths_of wenv (more_terms t ts) = width_of wenv t ∷ widths_of wenv ts
