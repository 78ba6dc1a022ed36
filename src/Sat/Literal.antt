-- ===== src/Sat/Literal.antt =====
-- cdcl.py, literals in the DIMACS convention (`var`, `neg`), and their values under an assignment.
use emergent_hardware_verifi.Prelude.{
  ◌≡◌, ◌∷◌, ◌↔◌, ℕ, ◌||◌, zero, true, suc, refl, inr, inl, flip, false, arith, [], List, Bool-cases,
  Bool, ◌==◌, ◌<◌, ◌++◌, ◌&&◌,
}

-- Python's int. `negsuc n` is -(n + 1).
pub data ℤ : Type 0 where
  pos : ℕ → ℤ
  negsuc : ℕ → ℤ

-- `abs(lit)`
abbrev pub variable : ℤ → ℕ
variable (pos n) = n
variable (negsuc n) = suc n

-- `-lit`
abbrev pub neg : ℤ → ℤ
neg (pos zero) = pos zero
neg (pos (suc n)) = negsuc n
neg (negsuc n) = pos (suc n)

-- `lit > 0`
abbrev pub is_pos : ℤ → Bool
is_pos (pos zero) = false
is_pos (pos (suc n)) = true
is_pos (negsuc n) = false

abbrev pub int_eq : ℤ → ℤ → Bool
int_eq (pos a) (pos b) = a == b
int_eq (pos a) (negsuc b) = false
int_eq (negsuc a) (pos b) = false
int_eq (negsuc a) (negsuc b) = a == b

pub int_eq_iff : (a b : ℤ) → (int_eq a b ≡ true) ↔ (a ≡ b)
int_eq_iff a b = ground arith

-- `l in out`
abbrev pub member : ℤ → List ℤ → Bool
member l [] = false
member l (x ∷ xs) = int_eq l x || member l xs

-- A literal names a variable: 0 is not one.
abbrev pub IsLiteral : ℤ → Type 0
IsLiteral l = 0 < variable l

abbrev pub Assignment : Type 0
Assignment = ℕ → Bool

abbrev pub lit_val : Assignment → ℤ → Bool
lit_val μ (pos n) = μ n
lit_val μ (negsuc n) = flip (μ (suc n))

abbrev pub clause_val : Assignment → List ℤ → Bool
clause_val μ [] = false
clause_val μ (l ∷ ls) = lit_val μ l || clause_val μ ls

abbrev pub all_true : Assignment → List ℤ → Bool
all_true μ [] = true
all_true μ (l ∷ ls) = lit_val μ l && all_true μ ls

pub lit_val-neg : (μ : Assignment) (l : ℤ) → IsLiteral l → lit_val μ (neg l) ≡ flip (lit_val μ l)
lit_val-neg μ (pos zero) h = absurd (omega arith)
lit_val-neg μ (pos (suc n)) h = refl
lit_val-neg μ (negsuc n) h = ground arith

pub clause_val-append :
    (μ : Assignment) (xs ys : List ℤ)
    → clause_val μ (xs ++ ys) ≡ (clause_val μ xs || clause_val μ ys)
clause_val-append μ [] ys = refl
clause_val-append μ (x ∷ xs) ys = ground (arith, clause_val-append μ xs ys)

pub all_true-append :
    (μ : Assignment) (xs ys : List ℤ) → all_true μ (xs ++ ys) ≡ (all_true μ xs && all_true μ ys)
all_true-append μ [] ys = refl
all_true-append μ (x ∷ xs) ys = ground (arith, all_true-append μ xs ys)

-- A member that holds makes the clause hold; one that fails refutes the conjunction.
pub clause_val-member :
    (μ : Assignment) (l : ℤ) (xs : List ℤ)
    → member l xs ≡ true
    → lit_val μ l ≡ true
    → clause_val μ xs ≡ true
clause_val-member μ l [] h k = cc
clause_val-member μ l (x ∷ xs) h k = elim (Bool-cases (int_eq l x)) [
  | inl e ↦ rw (← (int_eq_iff l x).0 e) (rw k refl)
  | inr e ↦ let rest = clause_val-member μ l xs (ground (arith, h, e)) k in ground (arith, rest)
]

pub all_true-member :
    (μ : Assignment) (l : ℤ) (xs : List ℤ)
    → member l xs ≡ true
    → all_true μ xs ≡ true
    → lit_val μ l ≡ true
all_true-member μ l [] h k = cc
all_true-member μ l (x ∷ xs) h k = elim (Bool-cases (int_eq l x)) [
  | inl e ↦ rw ((int_eq_iff l x).0 e) (ground (arith, k))
  | inr e ↦ all_true-member μ l xs (ground (arith, h, e)) (ground (arith, k))
]
