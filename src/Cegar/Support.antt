-- ===== src/Cegar/Support.antt =====
-- circuit.py, `support`: a round of its loop opens a node or drops one, so the nodes bound the rounds.
use emergent_hardware_verifi.Circuit.Ternary.{push_all}
use emergent_hardware_verifi.Cegar.{size_all, size}
use emergent_hardware_verifi.Circuit.Sig.{
  xor, var, to_list, or, not, nil, ite, const, cons, args, and, Sigs, Sig,
}
use emergent_hardware_verifi.Prelude.{◌≡◌, ◌∷◌, ℕ, sym, suc, refl, arith, ap, [], List, ◌+◌}

-- The nodes of all signals on the stack.
abbrev pub load : List Sig → ℕ
load [] = 0
load (s ∷ ss) = size s + load ss

load-to_list : (ss : Sigs) → load (to_list ss) ≡ size_all ss
unfolding size
load-to_list nil = refl
load-to_list (cons s ss) = ap (λ k. size s + k) (load-to_list ss)

pub load-push_all : (xs ys : List Sig) → load (push_all xs ys) ≡ load xs + load ys
load-push_all [] ys = omega arith
load-push_all (x ∷ xs) ys = let rest = load-push_all xs (x ∷ ys) in omega arith

pub size-args : (s : Sig) → size s ≡ suc (load (args s))
unfolding size
size-args (const i b) = refl
size-args (var i x) = refl
size-args (not i a) = omega arith
size-args (and i xs) = ap suc (sym (load-to_list xs))
size-args (or i xs) = ap suc (sym (load-to_list xs))
size-args (xor i a b) = omega arith
size-args (ite i c t e) = omega arith
