-- ===== src/Circuit/Count.antt =====
-- circuit.py, `count_gates`: the ids of the gates of a signal, each once.
use emergent_hardware_verifi.Circuit.Sig.{xor, var, or, not, nil, ite, const, cons, and, Sigs, Sig}
use emergent_hardware_verifi.Prelude.{
  ◌∷◌, ℕ, ◌||◌, length, false, if◌then◌else◌, [], List, Bool, ◌==◌,
}

abbrev is_seen : ℕ → List ℕ → Bool
is_seen i [] = false
is_seen i (j ∷ js) = j == i || is_seen i js

-- `go(s)`, over the set `seen`; the visit of the arguments comes after the id.
unfoldable mutual
  pub go : Sig → List ℕ → List ℕ
  go (const _ _) seen = seen
  go (var _ _) seen = seen
  go (not i a) seen = let after = go a (i ∷ seen) in if is_seen i seen then seen else after
  go (and i xs) seen = let after = go_all xs (i ∷ seen) in if is_seen i seen then seen else after
  go (or i xs) seen = let after = go_all xs (i ∷ seen) in if is_seen i seen then seen else after
  go (xor i a b) seen = let after = go b (go a (i ∷ seen)) in if is_seen i seen then seen else after
  go (ite i c t e) seen =
      let after = go e (go t (go c (i ∷ seen))) in if is_seen i seen then seen else after

  pub go_all : Sigs → List ℕ → List ℕ
  go_all nil seen = seen
  go_all (cons s ss) seen = go_all ss (go s seen)

unfoldable pub count_gates : Sig → ℕ
unfolding go
count_gates s = length (go s [])
