-- ===== src/Frame/Words.antt =====
-- circuit.py, words by name: bv_var, add_state_bv and read_bv.
use emergent_hardware_verifi.Circuit.Word.Value.{val}
use emergent_hardware_verifi.Tseitin.Gate.{reads}
use emergent_hardware_verifi.Prelude.Numbers.{pow_double}
use emergent_hardware_verifi.Sat.Solve.{or_false, get_value}
use emergent_hardware_verifi.Circuit.Meaning.{eval}
use emergent_hardware_verifi.Prelude.Bits.{bit}
use emergent_hardware_verifi.Frame.{join, add_state_bit, TransitionSystem}
use emergent_hardware_verifi.Sat.Solver.{Solver}
use emergent_hardware_verifi.Tseitin.{LitEnv}
use emergent_hardware_verifi.Circuit.Word.{Bv}
use emergent_hardware_verifi.Circuit.Sig.{var_sig, Build}
use emergent_hardware_verifi.Sat.Literal.{pos, negsuc, Assignment}
use emergent_hardware_verifi.Prelude.{
  sym, refl, ◌≤◌, ◌≡◌, ◌∷◌, ◌∙◌, ℕ, zero, suc, some, none, ltb, length, get_elem?, if◌then◌else◌,
  arith, ap, ◌^◌, [], String, Option, Bool, ◌==◌, ◌<◌, ◌/◌, ◌+◌, ◌*◌, ◌%◌,
}

-- `str(i)`: the digits of the number, the last one first in the recursion.
abbrev pub digit : ℕ → String
digit d =
    if d == 0
    then "0"
    else if d == 1
    then "1"
    else if d == 2
    then "2"
    else if d == 3
    then "3"
    else if d == 4
    then "4"
    else if d == 5
    then "5"
    else if d == 6
    then "6"
    else if d == 7
    then "7"
    else if d == 8
    then "8"
    else "9"

abbrev pub decimal : ℕ → ℕ → String
decimal zero i = digit i
decimal (suc f) i =
    let front = decimal f (i / 10) in if ltb i 10 then digit i else join front (digit (i % 10))

-- `f"{name}[{i}]"`; a number has fewer digits than its value and one.
unfoldable pub bit_name : String → ℕ → String
bit_name name i = join name (join "[" (join (decimal i i) "]"))

-- `bv_var(name, w)`, for the `w` bits from `i` on.
unfoldable pub bv_var_from : String → ℕ → ℕ → Build Bv
unfolding var_sig
bv_var_from name zero i n = ([], n)
bv_var_from name (suc w) i n =
    let (x, n1) = var_sig (bit_name name i) n in
    let (xs, n2) = bv_var_from name w (suc i) n1 in (x ∷ xs, n2)

unfoldable pub bv_var : String → ℕ → Build Bv
unfolding bv_var_from
bv_var name w = bv_var_from name w 0

-- `add_state_bv(bv_name, bv_now, init_val, nxt_bv)`, for the `w` bits from `i` on; a missing bit of
-- `nxt_bv` is an IndexError.
unfoldable pub add_state_bits : String → ℕ → ℕ → ℕ → Bv → TransitionSystem → Option TransitionSystem
unfolding add_state_bit bit_name
add_state_bits name zero i init_val nxt ts = some ts
add_state_bits name (suc w) i init_val nxt ts = elim (get_elem? nxt i) [
  | none ↦ none
  | some sig ↦
      add_state_bits name w (suc i) init_val nxt
        (add_state_bit (bit_name name i) (init_val / 2 ^ i % 2 == 1) sig ts)
]

unfoldable pub add_state_bv : String → Bv → ℕ → Bv → TransitionSystem → Option TransitionSystem
unfolding add_state_bits
add_state_bv name now init_val nxt ts = add_state_bits name (length now) 0 init_val nxt ts

-- `solver.get_value(env[x])`; a negative literal is no key of `assign`.
unfoldable pub read_bit : Solver → LitEnv → String → Option Bool
unfolding get_value
read_bit s env x = elim (env x) [
  | none ↦ none
  | some l ↦ elim l [ negsuc k ↦ none | pos v ↦ get_value v s ]
]

-- `read_bv(solver, env, bv_name, width)`, for the `w` bits from `i` on.
unfoldable pub read_bits : Solver → LitEnv → String → ℕ → ℕ → Option ℕ
unfolding read_bit
read_bits s env name zero i = some 0
read_bits s env name (suc w) i = elim (read_bit s env (bit_name name i)) [
  | none ↦ none
  | some b ↦ elim (read_bits s env name w (suc i)) [
    | none ↦ none
    | some rest ↦ some (2 ^ i * bit b + rest)
  ]
]

unfoldable pub read_bv : Solver → LitEnv → String → ℕ → Option ℕ
unfolding read_bits
read_bv s env name w = read_bits s env name w 0

-- The model that `get_value` reads: an unassigned variable is false.
abbrev pub IsModelOf : Solver → Assignment → Type 0
IsModelOf s μ = (v : ℕ) (a : Option Bool) → s.assign v ≡ some a → or_false a ≡ μ v

-- The bits of the word have variables of the solver.
abbrev pub HasWord : Solver → LitEnv → String → ℕ → Type 0
HasWord s env name w =
    (i : ℕ)
    → i < w
    → (v : ℕ) × (a : Option Bool) × (env (bit_name name i) ≡ some (pos v)) × (s.assign v ≡ some a)

reads_at :
    (env : LitEnv) (μ : Assignment) (x : String) (v : ℕ)
    → env x ≡ some (pos v)
    → reads env μ x ≡ μ v
reads_at env μ x v e = rw (e, reads) refl

read_bit-reads :
    (s : Solver) (env : LitEnv) (μ : Assignment) (x : String) (v : ℕ) (a : Option Bool)
    → IsModelOf s μ
    → env x ≡ some (pos v)
    → s.assign v ≡ some a
    → read_bit s env x ≡ some (reads env μ x)
unfolding read_bit get_value
read_bit-reads s env μ x v a m e k =
    rw (e, read_bit) (rw (k, get_value) (ap some (m v a k ∙ sym (reads_at env μ x v e))))

shifted : (i b r : ℕ) → 2 ^ i * b + 2 ^ suc i * r ≡ 2 ^ i * (b + 2 * r)
shifted i b r = omega (arith, ap (λ (t : ℕ). t * r) (pow_double i))

read_bits-val :
    (s : Solver) (env : LitEnv) (μ : Assignment) (name : String)
    → IsModelOf s μ
    → (w i n : ℕ)
    → ((j : ℕ)
        → i ≤ j
        → j < i + w
        → (v : ℕ) × (a : Option Bool) × (env (bit_name name j) ≡ some (pos v))
          × (s.assign v ≡ some a))
    → read_bits s env name w i ≡ some (2 ^ i * val (reads env μ) (bv_var_from name w i n).0)
unfolding read_bits bv_var_from eval var_sig
read_bits-val s env μ name m zero i n h = ap some (omega arith)
read_bits-val s env μ name m (suc w) i n h =
    let (v, a, e, k) = h i (omega arith) (omega arith) in
    let x = bit_name name i in
    let here = read_bit-reads s env μ x v a m e k in
    let n1 = (var_sig x n).1 in
    let rest =
      read_bits-val s env μ name m w (suc i) n1 (λ j lo hi. h j (omega arith) (omega arith)) in
    rw (here, read_bits)
      (rw rest (
        ap some
          (shifted i (bit (reads env μ x)) (val (reads env μ) (bv_var_from name w (suc i) n1).0))))

-- When the bits of a word have variables that the solver knows, and an assignment agrees with what
-- get_value reads, an unassigned variable as false, read_bv returns the number that the word of
-- bv_var with that name and width stands for under the assignment.
pub read_bv-val :
    (s : Solver) (env : LitEnv) (μ : Assignment) (name : String) (w n : ℕ)
    → IsModelOf s μ
    → HasWord s env name w
    → read_bv s env name w ≡ some (val (reads env μ) (bv_var name w n).0)
unfolding read_bv bv_var
read_bv-val s env μ name w n m h =
    read_bits-val s env μ name m w 0 n (λ j lo hi. h j (omega arith)) ∙ ap some (omega arith)
