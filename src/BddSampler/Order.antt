-- ===== src/BddSampler/Order.antt =====
-- build_bdd.py, ORDER: writing a bit at each place of an order, and reading the places again.
use native.Mathlib.Decide.{dec_lt}
use emergent_hardware_verifi.Prelude.{
  ◌≤◌, ◌≡◌, ◌∷◌, ◌∙◌, ℕ, zero, sym, suc, subst, refl, map, ltb, length, false, if◌then◌else◌, arith,
  ap₂, ap, [], List, Bool, ◌==◌, ◌<◌, ◌+◌,
}
use emergent_hardware_verifi.BddSampler.{set_elem}

unfoldable pub occurs : ℕ → List ℕ → ℕ
occurs p [] = 0
occurs p (q ∷ qs) = (if p == q then 1 else 0) + occurs p qs

-- `sorted(ORDER) == list(range(NV))`: every number under NV stands once in ORDER, and no other does.
unfoldable pub IsOrder : List ℕ → Type 0
unfolding occurs
IsOrder order = (p : ℕ) → occurs p order ≡ (if ltb p (length order) then 1 else 0)

unfoldable pub AllBelow : ℕ → List ℕ → Type 0
AllBelow n [] = Unit
AllBelow n (p ∷ ps) = (p < n) × AllBelow n ps

-- The writes of a path of bits at the places of `ps`.
unfoldable pub fill : List ℕ → List Bool → List Bool → List Bool
unfolding set_elem
fill [] bs xs = xs
fill (p ∷ ps) [] xs = xs
fill (p ∷ ps) (b ∷ bs) xs = fill ps bs (set_elem p b xs)

abbrev pub nth : ℕ → List Bool → Bool
nth i [] = false
nth zero (x ∷ xs) = x
nth (suc i) (x ∷ xs) = nth i xs

pub length-set_elem : (p : ℕ) (b : Bool) (xs : List Bool) → length (set_elem p b xs) ≡ length xs
unfolding set_elem
length-set_elem p b [] = refl
length-set_elem zero b (x ∷ xs) = refl
length-set_elem (suc p) b (x ∷ xs) = ap suc (length-set_elem p b xs)

pub length-fill : (ps : List ℕ) (bs xs : List Bool) → length (fill ps bs xs) ≡ length xs
unfolding fill
length-fill [] bs xs = refl
length-fill (p ∷ ps) [] xs = refl
length-fill (p ∷ ps) (b ∷ bs) xs = length-fill ps bs (set_elem p b xs) ∙ length-set_elem p b xs

nth-set_same : (p : ℕ) (b : Bool) (xs : List Bool) → p < length xs → nth p (set_elem p b xs) ≡ b
unfolding set_elem
nth-set_same p b [] h = absurd (omega arith)
nth-set_same zero b (x ∷ xs) h = refl
nth-set_same (suc p) b (x ∷ xs) h = nth-set_same p b xs (omega arith)

nth-set_other :
    (p q : ℕ) (b : Bool) (xs : List Bool) → ¬ (q ≡ p) → nth q (set_elem p b xs) ≡ nth q xs
unfolding set_elem
nth-set_other p q b [] h = refl
nth-set_other zero zero b (x ∷ xs) h = absurd (h refl)
nth-set_other zero (suc q) b (x ∷ xs) h = refl
nth-set_other (suc p) zero b (x ∷ xs) h = refl
nth-set_other (suc p) (suc q) b (x ∷ xs) h = nth-set_other p q b xs (λ e. h (ap suc e))

nth-fill_other :
    (ps : List ℕ) (bs xs : List Bool) (q : ℕ) → occurs q ps ≡ 0 → nth q (fill ps bs xs) ≡ nth q xs
unfolding fill occurs
nth-fill_other [] bs xs q h = refl
nth-fill_other (p ∷ ps) [] xs q h = refl
nth-fill_other (p ∷ ps) (b ∷ bs) xs q h =
    let away : ¬ (q ≡ p) = λ e. absurd (ground arith) in
    let rest : occurs q ps ≡ 0 = ground arith in
    nth-fill_other ps bs (set_elem p b xs) q rest ∙ nth-set_other p q b xs away

pub below_set :
    (ps : List ℕ) (p : ℕ) (b : Bool) (xs : List Bool)
    → AllBelow (length xs) ps
    → AllBelow (length (set_elem p b xs)) ps
below_set ps p b xs h = subst (λ n. AllBelow n ps) (sym (length-set_elem p b xs)) h

pub once_later :
    (p : ℕ) (ps : List ℕ) → ((q : ℕ) → occurs q (p ∷ ps) ≤ 1) → (q : ℕ) → occurs q ps ≤ 1
unfolding occurs
once_later p ps h q = let here : occurs q (p ∷ ps) ≤ 1 = h q in ground arith

absent_later : (p : ℕ) (ps : List ℕ) → ((q : ℕ) → occurs q (p ∷ ps) ≤ 1) → occurs p ps ≡ 0
unfolding occurs
absent_later p ps h = let here : occurs p (p ∷ ps) ≤ 1 = h p in ground arith

pub occurs_here : (p : ℕ) (ps : List ℕ) → 0 < occurs p (p ∷ ps)
unfolding occurs
occurs_here p ps = ground arith

-- A place to write later is still as it was.
pub clear_later :
    (p : ℕ) (ps : List ℕ) (b : Bool) (xs : List Bool)
    → ((q : ℕ) → occurs q (p ∷ ps) ≤ 1)
    → ((q : ℕ) → 0 < occurs q (p ∷ ps) → nth q xs ≡ false)
    → (q : ℕ) → 0 < occurs q ps
    → nth q (set_elem p b xs) ≡ false
unfolding occurs
clear_later p ps b xs once clear q h =
    let counts : occurs q (p ∷ ps) ≤ 1 = once q in
    let away : ¬ (q ≡ p) = λ e. absurd (ground arith) in
    let here : 0 < occurs q (p ∷ ps) = ground arith in nth-set_other p q b xs away ∙ clear q here

-- The bits written are read again.
pub read-fill :
    (ps : List ℕ) (bs xs : List Bool)
    → length bs ≡ length ps
    → AllBelow (length xs) ps
    → ((q : ℕ) → occurs q ps ≤ 1)
    → map (λ p. nth p (fill ps bs xs)) ps ≡ bs
unfolding fill AllBelow
read-fill [] [] xs e h once = refl
read-fill [] (b ∷ bs) xs e h once = absurd (omega arith)
read-fill (p ∷ ps) [] xs e h once = absurd (omega arith)
read-fill (p ∷ ps) (b ∷ bs) xs e (below, belows) once =
    ap₂ (λ y ys. y ∷ ys)
      (nth-fill_other ps bs (set_elem p b xs) p (absent_later p ps once)
        ∙ nth-set_same p b xs below)
      (read-fill ps bs (set_elem p b xs) (omega arith) (below_set ps p b xs belows)
        (once_later p ps once))

-- Writing what a function says of each place leaves it at every place that is written.
pub nth-fill :
    (f : ℕ → Bool) (ps : List ℕ) (xs : List Bool) (q : ℕ)
    → AllBelow (length xs) ps
    → 0 < occurs q ps
    → nth q (fill ps (map f ps) xs) ≡ f q
unfolding fill AllBelow occurs
nth-fill f [] xs q h here = absurd (omega arith)
nth-fill f (p ∷ ps) xs q (below, belows) here = elim (dec_lt 0 (occurs q ps)) [
  | yes later ↦ nth-fill f ps (set_elem p (f p) xs) q (below_set ps p (f p) xs belows) later
  | no gone ↦
      let absent : occurs q ps ≡ 0 = omega arith in
      let same : q ≡ p = ground arith in
      nth-fill_other ps (map f ps) (set_elem p (f p) xs) q absent
      ∙ rw same (nth-set_same p (f p) xs below)
]

pub same_bits-nth :
    (xs ys : List Bool)
    → length xs ≡ length ys
    → ((q : ℕ) → q < length xs → nth q xs ≡ nth q ys)
    → xs ≡ ys
same_bits-nth [] [] e h = refl
same_bits-nth [] (y ∷ ys) e h = absurd (omega arith)
same_bits-nth (x ∷ xs) [] e h = absurd (omega arith)
same_bits-nth (x ∷ xs) (y ∷ ys) e h =
    ap₂ (λ z zs. z ∷ zs) (h 0 (omega arith))
      (same_bits-nth xs ys (omega arith) (λ q l. h (suc q) (omega arith)))
