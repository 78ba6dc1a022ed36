-- ===== src/WordCheck/Unroll.antt =====
-- word.py: `class WordTS`, `_rename`, `_subst_cur`, `wbmc` and `w_kinduction`. The search under
-- assumptions is an argument, `solve` of the solver in the source; `_model`, which reads a
-- counterexample for printing, is left out, and the blaster that it reads is given in its place.
use emergent_hardware_verifi.Sat.Literal.{ℤ}
use emergent_hardware_verifi.WordCheck.{
  word_sort, var_term, op_term, no_terms, more_terms, mem_sort, const_term, Terms, Term, Sort,
}
use emergent_hardware_verifi.Prelude.{
  ◌∷◌, ℕ, ◌||◌, zero, true, suc, some, none, get_elem?, false, if◌then◌else◌, [], String, Option,
  List, Bool, ◌++◌,
}
use text.Mathlib.Text.{◌==◌ as str_eq}
use emergent_hardware_verifi.WordCheck.Blaster.{
  Blaster, Blast, ◌>>=◌, give, raise, gates, given, go, lit, assert_sig, fresh_bv,
}
use emergent_hardware_verifi.Circuit.Word.{Bv, bv_eq}
use emergent_hardware_verifi.Circuit.Sig.{args, Sig, not_sig}
use emergent_hardware_verifi.Frame.{join, put_name}
use emergent_hardware_verifi.Frame.Words.{decimal}
use emergent_hardware_verifi.Sat.Solver.{Solver, new_solver}
use emergent_hardware_verifi.Sat.Propagate.{Run, raised, done, out_of_fuel}

-- A name is declared once; `widths` lists the declarations in their order.
pub record WordTs : Type 0 where
  pub name : String
  pub widths : List (String × Sort)
  pub inputs : List String
  pub state : List String
  pub init : String → Option Term
  pub next : String → Option Term
  pub prop : Term
  pub assumptions : List Term

-- `d[name] = x` where `x` is not None.
abbrev pub put_term : (String → Option Term) → String → Option Term → String → Option Term
put_term d name none = d
put_term d name (some t) = put_name d name t

unfoldable pub add_word : String → ℕ → Option Term → Option Term → WordTs → WordTs
add_word name w init nxt ts = record ts {
  widths = ts.widths ++ (name, word_sort w) ∷ [];
  state = ts.state ++ name ∷ [];
  init = put_term ts.init name init;
  next = put_term ts.next name nxt;
}

unfoldable pub add_mem : String → ℕ → ℕ → Option Term → WordTs → WordTs
add_mem name aw dw nxt ts = record ts {
  widths = ts.widths ++ (name, mem_sort aw dw) ∷ [];
  state = ts.state ++ name ∷ [];
  next = put_term ts.next name nxt;
}

unfoldable pub add_word_input : String → ℕ → WordTs → WordTs
add_word_input name w ts = record ts {
  widths = ts.widths ++ (name, word_sort w) ∷ [];
  inputs = ts.inputs ++ name ∷ [];
}

-- The sort of a name in `ts.widths`.
abbrev pub sort_of : List (String × Sort) → String → Option Sort
sort_of [] x = none
sort_of ((y, s) ∷ ws) x = if str_eq y x then some s else sort_of ws x

abbrev pub is_mem : Option Sort → Bool
is_mem none = false
is_mem (some (word_sort _)) = false
is_mem (some (mem_sort _ _)) = true

-- `f"{n}@{frame}"`
unfoldable pub at_frame : String → ℕ → String
at_frame x i = join x (join "@" (decimal i i))

-- `_rename`, with `names` the names of `ts.widths`.
unfoldable mutual
  unfolding at_frame

  pub rename : List (String × Sort) → ℕ → Term → Term
  rename names tag (var_term x) = elim (sort_of names x) [
    | none ↦ var_term x
    | some _ ↦ var_term (at_frame x tag)
  ]
  rename names tag (const_term v) = const_term v
  rename names tag (op_term k args) = op_term k (rename_all names tag args)

  pub rename_all : List (String × Sort) → ℕ → Terms → Terms
  rename_all names tag no_terms = no_terms
  rename_all names tag (more_terms t ts) = more_terms (rename names tag t) (rename_all names tag ts)

abbrev pub Current : Type 0
Current = String → Option Term

-- `_subst_cur`
unfoldable mutual
  pub subst_cur : Current → Term → Term
  subst_cur cur (var_term x) = elim (cur x) [ none ↦ var_term x | some t ↦ t ]
  subst_cur cur (const_term v) = const_term v
  subst_cur cur (op_term k args) = op_term k (subst_cur_all cur args)

  pub subst_cur_all : Current → Terms → Terms
  subst_cur_all cur no_terms = no_terms
  subst_cur_all cur (more_terms t ts) = more_terms (subst_cur cur t) (subst_cur_all cur ts)

-- One name of `alloc`: a word gets fresh bits, a memory stays symbolic.
unfoldable pub alloc_name : ℕ → String → Sort → Blast (Unit {0})
unfolding at_frame fresh_bv
alloc_name frame x (mem_sort aw dw) b =
    some (tt, record b { wenv = put_name b.wenv (at_frame x frame) (mem_sort aw dw) })
alloc_name frame x (word_sort w) b =
    (fresh_bv (at_frame x frame) w >>= λ bv b'.
    some (tt, record b' { env = put_name b'.env (at_frame x frame) bv }))
      (record b { wenv = put_name b.wenv (at_frame x frame) (word_sort w) })

-- `alloc(frame)`
unfoldable pub alloc : ℕ → List (String × Sort) → Blast (Unit {0})
unfolding alloc_name
alloc frame [] = give tt
alloc frame ((x, s) ∷ ws) = alloc_name frame x s >>= λ _. alloc frame ws

-- `{n: bvvar(f"{n}@{frame}") for n in names}`
unfoldable pub vars_at : ℕ → List (String × Sort) → Current
unfolding at_frame
vars_at frame ws x = elim (sort_of ws x) [
  | none ↦ none
  | some _ ↦ some (var_term (at_frame x frame))
]

abbrev pub env_at : String → Blast Bv
env_at x b = given (b.env x) b

-- `B._assert(bv_eq(B.env[tag], B.go(e, w)))`
unfoldable pub assert_equal : String → Term → ℕ → Blast (Unit {0})
unfolding go bv_eq assert_sig
assert_equal tag e w = do
  now ← env_at tag
  v ← go e (some w)
  same ← gates (bv_eq now v)
  assert_sig same

-- The reset values of frame 0.
unfoldable pub assert_resets : WordTs → List String → Blast (Unit {0})
unfolding assert_equal rename
assert_resets ts [] = give tt
assert_resets ts (x ∷ xs) = elim (ts.init x) [
  | none ↦ assert_resets ts xs
  | some t ↦ elim (sort_of ts.widths x) [
    | none ↦ raise
    | some s ↦ elim s [
      | mem_sort _ _ ↦ assert_resets ts xs
      | word_sort w ↦
          assert_equal (at_frame x 0) (rename ts.widths 0 t) w >>= λ _. assert_resets ts xs
    ]
  ]
]

-- `B.sig(t)`
unfoldable pub sig_term : Term → Blast Sig
unfolding go
sig_term t = go t (some 1) >>= λ bv. given (get_elem? bv 0)

-- `for a in ts.assumptions: B._assert(B.sig(_subst_cur(a, cur, names)))`
unfoldable pub assert_terms : Current → List Term → Blast (Unit {0})
unfolding sig_term subst_cur assert_sig
assert_terms cur [] = give tt
assert_terms cur (t ∷ ts) =
    sig_term (subst_cur cur t) >>= λ sig. assert_sig sig >>= λ _. assert_terms cur ts

-- The assumptions of a frame, and the literal of the negated property there.
unfoldable pub bad_at : WordTs → Current → Blast ℤ
unfolding assert_terms sig_term subst_cur lit
bad_at ts cur = do
  good ← assert_terms cur ts.assumptions >>= λ _. sig_term (subst_cur cur ts.prop)
  bad ← gates (not_sig good)
  lit bad

abbrev pub listed_in : String → List String → Bool
listed_in x [] = false
listed_in x (y ∷ ys) = str_eq y x || listed_in x ys

-- The next term of a signal that is not a word with a next function.
abbrev pub held_term : WordTs → Current → ℕ → String → Option Term
held_term ts cur frame x =
    if listed_in x ts.state then cur x else some (var_term (at_frame x frame))

-- `nxt`, one signal after the other; a word with a next function is related by a clause.
unfoldable pub advance : WordTs → Current → ℕ → List (String × Sort) → Current → Blast Current
unfolding subst_cur assert_equal
advance ts cur frame [] nxt = give nxt
advance ts cur frame ((x, s) ∷ ws) nxt = elim (if listed_in x ts.state then ts.next x else none) [
  | none ↦ advance ts cur frame ws (put_term nxt x (held_term ts cur frame x))
  | some t ↦ elim s [
    | mem_sort _ _ ↦ advance ts cur frame ws (put_name nxt x (subst_cur cur t))
    | word_sort w ↦ assert_equal (at_frame x frame) (subst_cur cur t) w >>= λ _.
        advance ts cur frame ws (put_name nxt x (var_term (at_frame x frame)))
  ]
]

-- `s.solve([l])` on the blaster's solver.
abbrev pub SearchUnder : Type 0
SearchUnder = List ℤ → Solver → Run Bool

abbrev pub ask_under : SearchUnder → ℤ → Blast Bool
ask_under find_model l b = elim (find_model (l ∷ []) b.enc.solver) [
  | raised ↦ none
  | out_of_fuel ↦ none
  | done r s ↦ some (r, record b { enc = record b.enc { solver = s } })
]

pub data WordAnswer : Type 0 where
  word_cex : ℕ → Blaster → WordAnswer
  word_safe : ℕ → WordAnswer
  word_unknown : ℕ → WordAnswer

-- The loop of `wbmc` at a frame, with `n` more to come.
unfoldable pub wbmc_from : SearchUnder → WordTs → ℕ → ℕ → Current → Blast WordAnswer
unfolding bad_at alloc advance
wbmc_from find_model ts zero frame cur = do
  l ← bad_at ts cur
  found ← ask_under find_model l
  λ b. some (if found then word_cex frame b else word_safe frame, b)
wbmc_from find_model ts (suc n) frame cur = do
  l ← bad_at ts cur
  found ← ask_under find_model l
  elim found [
    | true ↦ λ b. some (word_cex frame b, b)
    | false ↦ alloc (suc frame) ts.widths >>= λ _.
        advance ts cur (suc frame) ts.widths (λ _. none) >>= λ nxt.
        wbmc_from find_model ts n (suc frame) nxt
  ]

-- `_Blaster(s)`, given the counter `Sig._n`.
unfoldable pub new_blaster : ℕ → Blaster
unfolding new_solver
new_blaster n = record {
  next_id = n;
  enc = record { solver = new_solver; memo = [] };
  wenv = λ _. none;
  env = λ _. none;
  tenv = λ _. none;
  reads = λ _. none;
}

unfoldable pub wbmc : SearchUnder → WordTs → ℕ → Blast WordAnswer
unfolding alloc vars_at assert_resets wbmc_from
wbmc find_model ts k = alloc 0 ts.widths >>= λ _.
    assert_resets ts ts.state >>= λ _. wbmc_from find_model ts k 0 (vars_at 0 ts.widths)

-- `for f in range(k + 1): alloc(f)`, from frame `f` on.
unfoldable pub alloc_frames : List (String × Sort) → ℕ → ℕ → Blast (Unit {0})
unfolding alloc
alloc_frames ws zero frame = give tt
alloc_frames ws (suc n) frame = alloc frame ws >>= λ _. alloc_frames ws n (suc frame)

-- The relation of a frame with the next one: the terms of the memories there.
unfoldable pub relate : WordTs → Current → ℕ → List String → Current → Blast Current
unfolding subst_cur assert_equal
relate ts cur frame [] nxt = give nxt
relate ts cur frame (x ∷ xs) nxt = elim (ts.next x) [
  | none ↦ relate ts cur frame xs nxt
  | some t ↦ elim (sort_of ts.widths x) [
    | none ↦ raise
    | some s ↦ elim s [
      | mem_sort _ _ ↦ relate ts cur frame xs (put_name nxt x (subst_cur cur t))
      | word_sort w ↦
          assert_equal (at_frame x frame) (subst_cur cur t) w >>= λ _. relate ts cur frame xs nxt
    ]
  ]
]

-- The loop over the frames that assume the property, from frame `f`, and then the last frame.
unfoldable pub induct_frames : WordTs → ℕ → ℕ → Current → Blast ℤ
unfolding relate vars_at assert_terms bad_at
induct_frames ts zero frame cur = bad_at ts cur
induct_frames ts (suc n) frame cur =
    relate ts cur (suc frame) ts.state (vars_at (suc frame) ts.widths) >>= λ nxt.
    assert_terms cur (ts.assumptions ++ ts.prop ∷ []) >>= λ _. induct_frames ts n (suc frame) nxt

-- The step of `w_kinduction`, on a new blaster.
unfoldable pub word_step : SearchUnder → WordTs → ℕ → Blast WordAnswer
unfolding alloc_frames vars_at induct_frames
word_step find_model ts k = do
  l ← alloc_frames ts.widths (suc k) 0 >>= λ _. induct_frames ts k 0 (vars_at 0 ts.widths)
  found ← ask_under find_model l
  give (if found then word_unknown k else word_safe k)

-- `wbmc(ts, k - 1)`; at k = 0 it has no frame, but its resets are asserted.
unfoldable pub base_case : SearchUnder → WordTs → ℕ → Blast WordAnswer
unfolding wbmc alloc assert_resets
base_case find_model ts zero =
    alloc 0 ts.widths >>= λ _. assert_resets ts ts.state >>= λ _. give (word_safe 0)
base_case find_model ts (suc k) = wbmc find_model ts k

-- `w_kinduction(ts, k)` from the counter `n`.
unfoldable pub w_kinduction : SearchUnder → WordTs → ℕ → ℕ → Option WordAnswer
unfolding base_case word_step new_blaster
w_kinduction find_model ts k n = elim (base_case find_model ts k (new_blaster n)) [
  | none ↦ none
  | some (base, b) ↦ elim base [
    | word_cex f bl ↦ some (word_cex f bl)
    | word_unknown j ↦ some (word_unknown j)
    | word_safe j ↦ elim (word_step find_model ts k (new_blaster b.next_id)) [
      | none ↦ none
      | some (r, _) ↦ some r
    ]
  ]
]
