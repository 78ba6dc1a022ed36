-- ===== src/Circuit/Numbering.antt =====
-- `Sig.id` as a key. circuit.py's caches are keyed by it, which is sound because the class counter
-- never gives two nodes one id: there is a table that holds every node of a signal under its id.
use emergent_hardware_verifi.Prelude.{◌≡◌, ℕ}
use emergent_hardware_verifi.Circuit.Sig.{
  xor, var, or, not, nil, ite, id, const, cons, and, Sigs, Sig,
}

-- The table `D` holds each node of a signal under the node's id.
abbrev mutual
  pub Numbered : (ℕ → Sig) → Sig → Type 0
  Numbered D (const i b) = D i ≡ const i b
  Numbered D (var i x) = D i ≡ var i x
  Numbered D (not i a) = (D i ≡ not i a) × Numbered D a
  Numbered D (and i xs) = (D i ≡ and i xs) × NumberedAll D xs
  Numbered D (or i xs) = (D i ≡ or i xs) × NumberedAll D xs
  Numbered D (xor i a b) = (D i ≡ xor i a b) × Numbered D a × Numbered D b
  Numbered D (ite i c t e) = (D i ≡ ite i c t e) × Numbered D c × Numbered D t × Numbered D e

  pub NumberedAll : (ℕ → Sig) → Sigs → Type 0
  NumberedAll D nil = Unit {0}
  NumberedAll D (cons s ss) = Numbered D s × NumberedAll D ss

pub Numbered-id : (D : ℕ → Sig) (s : Sig) → Numbered D s → D (id s) ≡ s
Numbered-id D (const i b) h = h
Numbered-id D (var i x) h = h
Numbered-id D (not i a) h = h.0
Numbered-id D (and i xs) h = h.0
Numbered-id D (or i xs) h = h.0
Numbered-id D (xor i a b) h = h.0
Numbered-id D (ite i c t e) h = h.0
