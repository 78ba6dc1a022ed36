-- ===== src/Circuit/Sig.antt =====
-- circuit.py, `class Sig` and the simplifying constructors CONST, VAR, NOT, AND, OR, XOR, XNOR,
-- IMPLIES, IFF and ITE. A constructor takes the class counter `Sig._n` and returns it with the node.
use emergent_hardware_verifi.Prelude.{
  ℕ, suc, String, Bool, true, false, Option, none, some, List, [], ◌∷◌, flip, if◌then◌else◌,
}

-- Each node carries its `id`; `kind` is the constructor. A gate's tuple `args` is a list of the block.
mutual
  pub data Sig : Type 0 where
    const : ℕ → Bool → Sig
    var : ℕ → String → Sig
    not : ℕ → Sig → Sig
    and : ℕ → Sigs → Sig
    or : ℕ → Sigs → Sig
    xor : ℕ → Sig → Sig → Sig
    ite : ℕ → Sig → Sig → Sig → Sig

  pub data Sigs : Type 0 where
    nil : Sigs
    cons : Sig → Sigs → Sigs

abbrev pub to_list : Sigs → List Sig
to_list nil = []
to_list (cons s ss) = s ∷ to_list ss

abbrev pub of_list : List Sig → Sigs
of_list [] = nil
of_list (s ∷ ss) = cons s (of_list ss)

abbrev pub id : Sig → ℕ
id (const i _) = i
id (var i _) = i
id (not i _) = i
id (and i _) = i
id (or i _) = i
id (xor i _ _) = i
id (ite i _ _ _) = i

abbrev pub args : Sig → List Sig
args (const _ _) = []
args (var _ _) = []
args (not _ a) = a ∷ []
args (and _ xs) = to_list xs
args (or _ xs) = to_list xs
args (xor _ a b) = a ∷ b ∷ []
args (ite _ c t e) = c ∷ t ∷ e ∷ []

-- A computation that may create nodes: it threads `Sig._n`.
abbrev pub Build : Type 0 → Type 0
Build A = ℕ → A × ℕ

abbrev pub pure : {A : Type 0} → A → Build A
pure a n = (a, n)

infixl 5 ◌>>=◌
abbrev pub ◌>>=◌ : {A B : Type 0} → Build A → (A → Build B) → Build B
◌>>=◌ m f n = f (m n).0 (m n).1

-- `Sig.__init__`
abbrev pub new_sig : (ℕ → Sig) → Build Sig
new_sig make n = (make n, suc n)

-- `Sig(kind, args)` for a gate kind that takes any number of arguments.
abbrev pub Gate : Type 0
Gate = ℕ → Sigs → Sig

unfoldable pub const_sig : Bool → Build Sig
const_sig b = new_sig (λ i. const i b)

-- The module's first two nodes.
abbrev pub true_sig : Sig
true_sig = const 0 true

abbrev pub false_sig : Sig
false_sig = const 1 false

unfoldable pub var_sig : String → Build Sig
var_sig name = new_sig (λ i. var i name)

unfoldable pub not_sig : Sig → Build Sig
unfolding const_sig
not_sig (const _ b) = const_sig (flip b)
not_sig (not _ a) = pure a
not_sig a = new_sig (λ i. not i a)

-- The loop of AND and OR: constants are dropped, and `none` is the early return at the constant
-- that decides the gate (false for AND, true for OR).
unfoldable pub live_args : Bool → List Sig → Option (List Sig)
live_args stop [] = some []
live_args stop (const _ true ∷ xs) = if stop then none else live_args stop xs
live_args stop (const _ false ∷ xs) = if stop then live_args stop xs else none
live_args stop (x ∷ xs) = elim (live_args stop xs) [ none ↦ none | some out ↦ some (x ∷ out) ]

-- What AND and OR return after the loop.
unfoldable pub finish : Sig → Gate → List Sig → Build Sig
finish unit make [] = pure unit
finish unit make (x ∷ []) = pure x
finish unit make xs = new_sig (λ i. make i (of_list xs))

unfoldable pub and_sig : List Sig → Build Sig
unfolding live_args finish
and_sig xs = elim (live_args false xs) [
  | none ↦ pure false_sig
  | some out ↦ finish true_sig and out
]

unfoldable pub or_sig : List Sig → Build Sig
unfolding live_args finish
or_sig xs = elim (live_args true xs) [ none ↦ pure true_sig | some out ↦ finish false_sig or out ]

unfoldable pub xor_sig : Sig → Sig → Build Sig
unfolding not_sig
xor_sig (const _ true) b = not_sig b
xor_sig (const _ false) b = pure b
xor_sig a (const _ true) = not_sig a
xor_sig a (const _ false) = pure a
xor_sig a b = new_sig (λ i. xor i a b)

unfoldable pub xnor_sig : Sig → Sig → Build Sig
unfolding not_sig xor_sig
xnor_sig a b = do x ← xor_sig a b; not_sig x

unfoldable pub implies_sig : Sig → Sig → Build Sig
unfolding not_sig or_sig
implies_sig a b = do na ← not_sig a; or_sig (na ∷ b ∷ [])

unfoldable pub iff_sig : Sig → Sig → Build Sig
unfolding xnor_sig
iff_sig a b = xnor_sig a b

unfoldable pub ite_sig : Sig → Sig → Sig → Build Sig
ite_sig (const _ true) t e = pure t
ite_sig (const _ false) t e = pure e
ite_sig c t e = new_sig (λ i. ite i c t e)
