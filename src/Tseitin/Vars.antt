-- ===== src/Tseitin/Vars.antt =====
-- The defining clauses of a gate use its output and its inputs alone.
use emergent_hardware_verifi.Sat.Literal.{ℤ, pos, negsuc, neg}
use emergent_hardware_verifi.Tseitin.{
  xor_clauses, pair_with, or_clauses, negs, ite_clauses, and_clauses,
}
use emergent_hardware_verifi.Tseitin.Clauses.{AllKnownClauses}
use emergent_hardware_verifi.Sat.Solver.Meaning.{Known, AllKnown}
use emergent_hardware_verifi.Prelude.{◌∷◌, ℕ, zero, suc, arith, [], List, ◌++◌}

pub Known-neg : (n : ℕ) (l : ℤ) → Known n l → Known n (neg l)
Known-neg n (pos zero) h = absurd (omega arith)
Known-neg n (pos (suc m)) h = h
Known-neg n (negsuc m) h = h

AllKnown-negs : (n : ℕ) (ls : List ℤ) → AllKnown n ls → AllKnown n (negs ls)
AllKnown-negs n [] k = tt
AllKnown-negs n (l ∷ ls) k = (Known-neg n l k.0, AllKnown-negs n ls k.1)

pair_with-known :
    (n : ℕ) (y : ℤ) (ls : List ℤ) → Known n y → AllKnown n ls → AllKnownClauses n (pair_with y ls)
pair_with-known n y [] ky k = tt
pair_with-known n y (l ∷ ls) ky k = ((ky, (k.0, tt)), pair_with-known n y ls ky k.1)

AllKnownClauses-append :
    (n : ℕ) (xs ys : List (List ℤ))
    → AllKnownClauses n xs
    → AllKnownClauses n ys
    → AllKnownClauses n (xs ++ ys)
AllKnownClauses-append n [] ys h k = k
AllKnownClauses-append n (x ∷ xs) ys h k = (h.0, AllKnownClauses-append n xs ys h.1 k)

module _ (n : ℕ) (y : ℤ) (ky : Known n y) where
  pub and_clauses-known : (ls : List ℤ) → AllKnown n ls → AllKnownClauses n (and_clauses ls y)
  unfolding and_clauses
  and_clauses-known ls k =
      AllKnownClauses-append n (pair_with (neg y) ls) ((y ∷ negs ls) ∷ [])
        (pair_with-known n (neg y) ls (Known-neg n y ky) k) ((ky, AllKnown-negs n ls k), tt)

  pub or_clauses-known : (ls : List ℤ) → AllKnown n ls → AllKnownClauses n (or_clauses ls y)
  unfolding or_clauses
  or_clauses-known ls k =
      ((Known-neg n y ky, k), pair_with-known n y (negs ls) ky (AllKnown-negs n ls k))

  pub xor_clauses-known : (a b : ℤ) → Known n a → Known n b → AllKnownClauses n (xor_clauses a b y)
  unfolding xor_clauses
  xor_clauses-known a b ka kb =
      let ny = Known-neg n y ky in
      let na = Known-neg n a ka in
      let nb = Known-neg n b kb in
      (
        (ny, (na, (nb, tt))),
        ((ny, (ka, (kb, tt))), ((ky, (na, (kb, tt))), ((ky, (ka, (nb, tt))), tt))),
      )

  pub ite_clauses-known :
      (c t e : ℤ) → Known n c → Known n t → Known n e → AllKnownClauses n (ite_clauses c t e y)
  unfolding ite_clauses
  ite_clauses-known c t e kc kt ke =
      let ny = Known-neg n y ky in
      let nc = Known-neg n c kc in
      let nt = Known-neg n t kt in
      let ne = Known-neg n e ke in
      (
        (nc, (nt, (ky, tt))),
        ((nc, (kt, (ny, tt))), ((kc, (ne, (ky, tt))), ((kc, (ke, (ny, tt))), tt))),
      )
