-- ===== src/WordCheck/Blaster.antt =====
-- word.py, `class _Blaster`: the terms as words of gates, memories by read-over-write.
use emergent_hardware_verifi.Sat.Literal.{ℤ, pos}
use emergent_hardware_verifi.Sat.Solver.{new_var, add_clause}
use emergent_hardware_verifi.WordCheck.{
  width_of, var_term, op_term, no_terms, more_terms, mem_widths, maxw, k_zext, k_xor, k_ult, k_ule,
  k_ugt, k_uge, k_sub, k_store, k_shl, k_select, k_or, k_not, k_neg, k_ne, k_mul, k_lshr, k_ite,
  k_extract, k_eq, k_concat, k_and, k_add, is_cmp, const_term, WidthEnv, Width, Terms, Term, Kind,
}
use emergent_hardware_verifi.Prelude.{
  String, ◌∷◌, ℕ, zero, true, take, suc, some, replicate, none, length, get_elem?, false,
  if◌then◌else◌, drop, [], Option, List, ◌-◌, ◌++◌, ◌+◌,
}
use Prim.Native.String.{◌∷◌ as ◌∷ₛ◌, [] as ε}
use Prim.Native.Nat.{max}
use mathlib.Core.Option.{get_or}
use text.Mathlib.Text.{◌==◌ as str_eq}
use emergent_hardware_verifi.Circuit.Sig.{
  args, Sig, Build, var, not_sig, and_sig, or_sig, xor_sig, false_sig,
}
use emergent_hardware_verifi.Circuit.Word.{
  Bv, width, pad, bv_eq, bv_ite, bv_const, bv_add, bv_sub, bv_mul, map_build, zip_build,
}
use emergent_hardware_verifi.Frame.Words.{bv_var, decimal}
use emergent_hardware_verifi.Frame.{join, put_name}
use emergent_hardware_verifi.Tseitin.{LitEnv, Enc, tseitin}

-- The state of a blaster, with the class counter `Sig._n`; `reads` lists the newest read last.
pub record Blaster : Type 0 where
  pub next_id : ℕ
  pub enc : Enc
  pub wenv : WidthEnv
  pub env : String → Option Bv
  pub tenv : LitEnv
  pub reads : String → Option (List (Bv × Bv))

abbrev pub Blast : Type 0 → Type 0
Blast A = Blaster → Option (A × Blaster)

abbrev pub give : {A : Type 0} → A → Blast A
give a b = some (a, b)

abbrev pub raise : {A : Type 0} → Blast A
raise b = none

infixl 5 ◌>>=◌
abbrev pub ◌>>=◌ : {A B : Type 0} → Blast A → (A → Blast B) → Blast B
◌>>=◌ m f b = elim (m b) [ none ↦ none | some (a, b') ↦ f a b' ]

-- A constructor of circuit.py, and a value that may raise.
abbrev pub gates : {A : Type 0} → Build A → Blast A
gates m b = some ((m b.next_id).0, record b { next_id = (m b.next_id).1 })

abbrev pub given : {A : Type 0} → Option A → Blast A
given none b = none
given (some a) b = some (a, b)

-- `self.tenv[b.name] = self.s.new_var()`
unfoldable pub bind_bit : Sig → Blast (Unit {0})
unfolding new_var
bind_bit (var i x) b = elim (new_var b.enc.solver) [
  | none ↦ none
  | some (v, s) ↦
      some (tt, record b { enc = record b.enc { solver = s }; tenv = put_name b.tenv x (pos v) })
]
bind_bit sig b = none

unfoldable pub bind_bits : List Sig → Blast (Unit {0})
unfolding bind_bit
bind_bits [] = give tt
bind_bits (x ∷ xs) = bind_bit x >>= λ _. bind_bits xs

unfoldable pub fresh_bv : String → ℕ → Blast Bv
unfolding bv_var bind_bits
fresh_bv name w = gates (bv_var name w) >>= λ bv. bind_bits bv >>= λ _. give bv

-- `_fit`
unfoldable pub fit : Bv → Width → Bv
fit bv none = bv
fit bv (some w) = take w (pad w bv)

unfoldable pub lit : Sig → Blast ℤ
unfolding tseitin
lit sig b = elim (tseitin b.tenv sig b.enc) [
  | none ↦ none
  | some (l, e) ↦ some (l, record b { enc = e })
]

-- `_assert`
unfoldable pub assert_sig : Sig → Blast (Unit {0})
unfolding lit add_clause
assert_sig sig = lit sig >>= λ l b. elim (add_clause (l ∷ []) b.enc.solver) [
  | none ↦ none
  | some (_, s) ↦ some (tt, record b { enc = record b.enc { solver = s } })
]

-- `x.replace('@', '_')`
unfoldable pub replace_at : String → String
replace_at ε = ε
replace_at (c ∷ₛ x) =
    let rest = replace_at x in if str_eq (c ∷ₛ ε) "@" then join "_" rest else c ∷ₛ rest

-- The congruence of a read with the earlier ones.
unfoldable pub assert_congruent : Bv → Bv → List (Bv × Bv) → Blast (Unit {0})
unfolding bv_eq assert_sig
assert_congruent j rv [] = give tt
assert_congruent j rv ((jk, rk) ∷ rl) = do
  same_at ← gates (bv_eq j jk)
  apart_at ← gates (not_sig same_at)
  same_val ← gates (bv_eq rv rk)
  sig ← gates (or_sig (apart_at ∷ same_val ∷ []))
  assert_sig sig >>= λ _. assert_congruent j rv rl

abbrev pub reads_of : String → Blaster → List (Bv × Bv)
reads_of x b = elim (b.reads x) [ none ↦ [] | some rl ↦ rl ]

-- `select` of a memory variable: a fresh value.
unfoldable pub select_var : String → Bv → Blast Bv
unfolding mem_widths fresh_bv assert_congruent replace_at
select_var x j b = elim (mem_widths b.wenv (var_term x)) [
  | none ↦ none
  | some (_, dw) ↦
      let rl = reads_of x b in
      (do
        rv ←
            fresh_bv
              (join "__rd_" (join (replace_at x) (join "_" (decimal (length rl) (length rl))))) dw
        assert_congruent j rv rl >>= λ _ b'.
            some (rv, record b' { reads = put_name b'.reads x (rl ++ (j, rv) ∷ []) }))
        b
]

-- An argument: `go` and `select` of it, and the term.
pub record Part : Type 0 where
  pub term : Term
  pub blast : Width → Blast Bv
  pub read : Bv → Blast Bv

abbrev pub part : ℕ → List Part → Blast Part
part i ps = given (get_elem? ps i)

-- `select` of a store.
unfoldable pub select_op : Kind → List Part → Bv → Blast Bv
unfolding mem_widths bv_eq bv_ite fit
select_op k_store (a ∷ i ∷ v ∷ []) j = do
  ibv ← i.blast (some (width j))
  (_, dw) ← λ b. given (mem_widths b.wenv a.term) b
  vbv ← v.blast (some dw)
  same ← gates (bv_eq ibv (fit j (some (width ibv))))
  rest ← a.read j
  gates (bv_ite same vbv rest)
select_op k ps j = raise

-- `self.go(t, 1).bits[0]`
unfoldable pub sig_of : Part → Blast Sig
sig_of p = p.blast (some 1) >>= λ bv. given (get_elem? bv 0)

-- `w or other`: a width that is absent or 0 leaves the choice.
abbrev pub or_width : Width → Width → Width
or_width none v = v
or_width (some zero) v = v
or_width (some (suc w)) v = some (suc w)

-- The borrow chain of `_ucmp`.
unfoldable pub borrow_loop : Bv → Bv → Sig → Build Sig
borrow_loop (x ∷ xs) (y ∷ ys) borrow n0 =
    let (nx, n1) = not_sig x n0 in
    let (below, n2) = and_sig (nx ∷ y ∷ []) n1 in
    let (differ, n3) = xor_sig x y n2 in
    let (same, n4) = not_sig differ n3 in
    let (through, n5) = and_sig (borrow ∷ same ∷ []) n4 in
    let (next_borrow, n6) = or_sig (below ∷ through ∷ []) n5 in borrow_loop xs ys next_borrow n6
borrow_loop [] _ borrow n0 = (borrow, n0)
borrow_loop (x ∷ xs) [] borrow n0 = (borrow, n0)

-- `AND(NOT(lt), NOT(bv_eq(a, b)))`
unfoldable pub greater : Sig → Bv → Bv → Build Sig
unfolding bv_eq
greater lt a b n0 =
    let (not_lt, n1) = not_sig lt n0 in
    let (same, n2) = bv_eq a b n1 in
    let (differ, n3) = not_sig same n2 in and_sig (not_lt ∷ differ ∷ []) n3

-- `_ucmp`; a kind that is no comparison falls through to None.
unfoldable pub ucmp : Kind → Bv → Bv → ℕ → Option (Sig × ℕ)
unfolding borrow_loop greater
ucmp k a b n0 =
    let w = max (width a) (width b) in
    let (lt, n1) = borrow_loop (pad w a) (pad w b) false_sig n0 in
    elim k [
      | k_ult ↦ some (lt, n1)
      | k_uge ↦ some (not_sig lt n1)
      | k_ugt ↦ some (greater lt a b n1)
      | k_ule ↦ let (gt, n2) = greater lt a b n1 in some (not_sig gt n2)
      | _ ↦ none
    ]

abbrev pub ucmp_gates : Kind → Bv → Bv → Blast Sig
ucmp_gates k a b s = elim (ucmp k a b s.next_id) [
  | none ↦ none
  | some (sig, n) ↦ some (sig, record s { next_id = n })
]

-- The comparisons of `go`, over words of one width.
unfoldable pub compare_words : Kind → Bv → Bv → Blast Bv
unfolding bv_eq ucmp
compare_words k a b = gates (bv_eq a b) >>= λ eq. elim k [
  | k_eq ↦ give (eq ∷ [])
  | k_ne ↦ gates (not_sig eq) >>= λ ne. give (ne ∷ [])
  | other ↦ ucmp_gates other a b >>= λ r. give (r ∷ [])
]

-- `bits[:w]`
abbrev pub take_opt : Width → Bv → Bv
take_opt none bv = bv
take_opt (some w) bv = take w bv

-- `_shift`, by constants alone.
unfoldable pub shift : Kind → Bv → Term → Width → Option Bv
shift k_shl a (const_term amt) w = some (take_opt w (replicate amt false_sig ++ a))
shift k a (const_term amt) w = some (take_opt w (drop amt a ++ replicate amt false_sig))
shift k a t w = none

-- The bit operations of `go` on two words.
unfoldable pub combine : Kind → Bv → Bv → Width → Blast Bv
unfolding fit zip_build bv_add bv_sub bv_mul
combine k_and a b w = gates (zip_build (λ x y. and_sig (x ∷ y ∷ [])) a (fit b w))
combine k_or a b w = gates (zip_build (λ x y. or_sig (x ∷ y ∷ [])) a (fit b w))
combine k_xor a b w = gates (zip_build xor_sig a (fit b w))
combine k_add a b w = gates (bv_add a b w)
combine k_sub a b w = gates (bv_sub a b w)
combine k_mul a b w = gates (bv_mul a b w)
combine k a b w = raise

-- `-x` as a subtraction from 0; None has no bits.
unfoldable pub negate : Part → Width → Blast Bv
unfolding bv_const bv_sub
negate p none = raise
negate p (some w) = do
  zero_word ← gates (bv_const 0 w)
  x ← p.blast (some w)
  gates (bv_sub zero_word x (some w))

unfoldable pub arith_op : Kind → List Part → Width → Blast Bv
unfolding negate combine shift
arith_op k_neg ps w = part 0 ps >>= λ p. negate p w
arith_op k ps w = do
  p ← part 0 ps
  q ← part 1 ps
  a ← p.blast w
  b ← q.blast w
  elim k [
    | k_shl ↦ given (shift k_shl a q.term w)
    | k_lshr ↦ given (shift k_lshr a q.term w)
    | other ↦ combine other a b w
  ]

abbrev pub width_here : Term → Blast Width
width_here t b = given (width_of b.wenv t) b

abbrev pub max_width : Part → Part → Blast Width
max_width p q = width_here p.term >>= λ u. width_here q.term >>= λ v. give (maxw u v)

-- `w or other`, the other only where it is needed.
abbrev pub width_or : Width → Blast Width → Blast Width
width_or (some (suc w)) m = give (some (suc w))
width_or (some zero) m = m
width_or none m = m

-- `self.go(a).bits` for the arguments from the last to the first.
unfoldable pub concat_words : List Part → Blast Bv
concat_words [] = give []
concat_words (p ∷ ps) = concat_words ps >>= λ low. p.blast none >>= λ bv. give (low ++ bv)

-- `go` of a term with arguments; `t` is the term.
unfoldable pub go_op : Kind → Term → List Part → Width → Blast Bv
unfolding is_cmp mem_widths width_of sig_of compare_words arith_op concat_words fit bv_ite map_build
    maxw
go_op k_select t ps w = do
  arr ← part 0 ps
  i ← part 1 ps
  (aw, _) ← λ b. given (mem_widths b.wenv arr.term) b
  j ← i.blast (some aw)
  v ← arr.read j
  give (fit v w)
go_op (k_extract hi lo) t ps w =
    part 0 ps >>= λ p. p.blast none >>= λ base. give (take (hi + 1 - lo) (drop lo base))
go_op k_concat t ps w = concat_words ps
go_op (k_zext n) t ps w = part 0 ps >>= λ p. p.blast none >>= λ x. give (fit x (some n))
go_op k_ite t ps w = do
  c ← part 0 ps
  p ← part 1 ps
  q ← part 2 ps
  test ← sig_of c
  nw ← width_or w (max_width p q)
  a ← p.blast nw
  b ← q.blast nw
  gates (bv_ite test a b)
go_op k_not t ps w = part 0 ps >>= λ p. p.blast w >>= λ x. gates (map_build not_sig x)
go_op k_store t ps w = raise
go_op k t ps w = elim (is_cmp k) [
  | true ↦ do
    p ← part 0 ps
    q ← part 1 ps
    v ← max_width p q
    a ← p.blast (or_width v (or_width w (some 1)))
    b ← q.blast (or_width v (or_width w (some 1)))
    compare_words k a b
  | false ↦ width_or w (width_here t) >>= λ nw. arith_op k ps nw
]

unfoldable mutual
  unfolding go_op select_op select_var bv_const fit

  pub go : Term → Width → Blast Bv
  go (const_term v) w = gates (bv_const v (get_or (or_width w (some 1)) 1))
  go (var_term x) w = λ b. elim (b.env x) [ none ↦ none | some bv ↦ some (fit bv w, b) ]
  go (op_term k args) w = go_op k (op_term k args) (parts args) w

  pub select : Term → Bv → Blast Bv
  select (var_term x) j = select_var x j
  select (const_term _) j = raise
  select (op_term k args) j = select_op k (parts args) j

  pub parts : Terms → List Part
  parts no_terms = []
  parts (more_terms t ts) = record { term = t; blast = go t; read = select t } ∷ parts ts
