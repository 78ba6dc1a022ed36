-- ===== src/Circuit/Gates.antt =====
-- The constructors of circuit.py together: whatever they simplify, the node means the gate.
use emergent_hardware_verifi.Circuit.Meaning.{
  eval-xor_sig, eval-xnor_sig, eval-var_sig, eval-or_sig, eval-not_sig, eval-ite_sig,
  eval-implies_sig, eval-iff_sig, eval-const_sig, eval-and_sig, eval, any, all, Valuation,
}
use emergent_hardware_verifi.Prelude.{
  ◌≡◌, ℕ, ◌||◌, xor_bool, map, flip, if◌then◌else◌, String, List, Bool,
}
use emergent_hardware_verifi.Circuit.Sig.{
  xor_sig, xnor_sig, var_sig, Sig, or_sig, not_sig, ite_sig, implies_sig, iff_sig, const_sig,
  and_sig,
}

pub record GatesMean (ρ : Valuation) (n : ℕ) : Type 0 where
  pub const_means : (b : Bool) → eval ρ (const_sig b n).0 ≡ b
  pub var_means : (x : String) → eval ρ (var_sig x n).0 ≡ ρ x
  pub not_means : (a : Sig) → eval ρ (not_sig a n).0 ≡ flip (eval ρ a)
  pub and_means : (xs : List Sig) → eval ρ (and_sig xs n).0 ≡ all (map (eval ρ) xs)
  pub or_means : (xs : List Sig) → eval ρ (or_sig xs n).0 ≡ any (map (eval ρ) xs)
  pub xor_means : (a b : Sig) → eval ρ (xor_sig a b n).0 ≡ xor_bool (eval ρ a) (eval ρ b)
  pub xnor_means : (a b : Sig) → eval ρ (xnor_sig a b n).0 ≡ flip (xor_bool (eval ρ a) (eval ρ b))
  pub implies_means : (a b : Sig) → eval ρ (implies_sig a b n).0 ≡ (flip (eval ρ a) || eval ρ b)
  pub iff_means : (a b : Sig) → eval ρ (iff_sig a b n).0 ≡ flip (xor_bool (eval ρ a) (eval ρ b))
  pub ite_means :
      (c t e : Sig) → eval ρ (ite_sig c t e n).0 ≡ (if eval ρ c then eval ρ t else eval ρ e)

-- Under every valuation, each constructor's node has the value of its gate: NOT, AND, OR, XOR,
-- XNOR, IMPLIES, IFF and ITE of their arguments' values, whether or not the constructor
-- simplified.
pub constructors_mean : (ρ : Valuation) (n : ℕ) → GatesMean ρ n
constructors_mean ρ n = record {
  const_means = λ b. eval-const_sig ρ b n;
  var_means = λ x. eval-var_sig ρ x n;
  not_means = λ a. eval-not_sig ρ a n;
  and_means = λ xs. eval-and_sig ρ xs n;
  or_means = λ xs. eval-or_sig ρ xs n;
  xor_means = λ a b. eval-xor_sig ρ a b n;
  xnor_means = λ a b. eval-xnor_sig ρ a b n;
  implies_means = λ a b. eval-implies_sig ρ a b n;
  iff_means = λ a b. eval-iff_sig ρ a b n;
  ite_means = λ c t e. eval-ite_sig ρ c t e n;
}
