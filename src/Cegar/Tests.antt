-- ===== src/Cegar/Tests.antt =====
-- Runs of cegar.py on small designs, and its theorems there.
use emergent_hardware_verifi.Ic3.Tests.{take_first, by_frame}
use emergent_hardware_verifi.Interp.{subset}
use emergent_hardware_verifi.Ic3.Search.{solve_frames}
use emergent_hardware_verifi.Sat.Solve.{solve}
use emergent_hardware_verifi.Cegar.Checked.{cegar_ic3}
use emergent_hardware_verifi.Ic3.Obligations.{Tools}
use emergent_hardware_verifi.Cegar.Cone.{ReadsOnly, support-ReadsOnly}
use emergent_hardware_verifi.Cegar.Localize.{localize-Abstracts}
use emergent_hardware_verifi.Cegar.{support, localize}
use emergent_hardware_verifi.Circuit.Meaning.{eval, Valuation}
use emergent_hardware_verifi.Frame.Runs.{IsStep, IsStart, IsPathFrom}
use emergent_hardware_verifi.Sat.Solve.Tests.{first_best}
use emergent_hardware_verifi.Frame.{put_name, TransitionSystem}
use emergent_hardware_verifi.Cegar.Refine.{refutes, Verdict}
use emergent_hardware_verifi.Prelude.{
  ◌==◌, ◌∙◌, sym, inr, inl, ap, Bool-cases, ◌≡◌, ◌∷◌, ℕ, true, some, refl, none, false,
  if◌then◌else◌, [], String, Option, List,
}
use emergent_hardware_verifi.Circuit.Sig.{nil, cons, and, Sig, var, not}
use text.Mathlib.Text.{◌==◌ as str_eq}
use mathlib.Core.Option.{get_or}

abbrev sig_q : Sig
sig_q = var 2 "q"

abbrev sig_r : Sig
sig_r = var 3 "r"

-- A latch that keeps its 0, and a toggle that the property does not read.
abbrev two_bits : TransitionSystem
two_bits = record {
  name = "two_bits";
  state = "q" ∷ "r" ∷ [];
  inputs = [];
  next = put_name (put_name (λ _. none) "q" sig_q) "r" (not 4 sig_r);
  init = put_name (put_name (λ _. none) "q" false) "r" false;
  bad = some sig_q;
  liveness = [];
  assumptions = [];
  covers = [];
}

-- The same where the latch loads the toggle.
abbrev loads_toggle : TransitionSystem
loads_toggle = record two_bits {
  next = put_name (put_name (λ _. none) "q" sig_r) "r" (not 4 sig_r);
}

-- The search of cdcl.py, and a queue that gives an obligation of the lowest frame.
abbrev tools : Tools
tools = record {
  find_model = λ s. solve 20 first_best [] s;
  sim_rounds = 20;
  heappop = take_first;
  heappush = by_frame;
}

-- The round, the bits kept and the depth of a counterexample.
abbrev bug : Option Verdict → Option (ℕ × List String × ℕ)
bug (some (refutes rnd kept t rows)) = some (rnd, kept, t)
bug _ = none

-- The first abstraction's counterexample is spurious or replays.
finds_bug : bug (cegar_ic3 20 first_best tools 10 5 loads_toggle) ≡ some (2, "q" ∷ "r" ∷ [], 2)
unfolding cegar_ic3 solve_frames solve subset
finds_bug = refl

-- The abstraction that keeps the latch, and a run of one step.
abbrev latch_alone : TransitionSystem
latch_alone = get_or (localize two_bits ("q" ∷ [])) two_bits

latch_alone-localize : localize two_bits ("q" ∷ []) ≡ some latch_alone
unfolding localize
latch_alone-localize = refl

abbrev at_reset : Valuation
at_reset x = false

abbrev toggled : Valuation
toggled x = str_eq "r" x

two_bits-IsStart : IsStart two_bits at_reset
two_bits-IsStart x e = elim (Bool-cases (str_eq "r" x)) [
  | inl r ↦ rw r refl
  | inr r ↦ elim (Bool-cases (str_eq "q" x)) [
    | inl q ↦ rw (r, q) refl
    | inr q ↦ let bad : false ≡ true = sym (rw (r, q) refl) ∙ e in cc
  ]
]

two_bits-IsStep : IsStep two_bits at_reset toggled
unfolding eval
two_bits-IsStep x e sig n = elim (Bool-cases (str_eq "r" x)) [
  | inl r ↦
      let same : some (not 4 sig_r) ≡ some sig = sym (rw r refl) ∙ n in
      r ∙ ap (λ o. eval at_reset (get_or o sig)) same
  | inr r ↦ elim (Bool-cases (str_eq "q" x)) [
    | inl q ↦
        let same : some sig_q ≡ some sig = sym (rw (r, q) refl) ∙ n in
        r ∙ ap (λ o. eval at_reset (get_or o sig)) same
    | inr q ↦ let bad : false ≡ true = sym (rw (r, q) refl) ∙ e in cc
  ]
]

localize-Abstracts_example :
    IsStart latch_alone at_reset
    × IsPathFrom latch_alone at_reset (toggled ∷ [])
    × (latch_alone.bad ≡ two_bits.bad)
localize-Abstracts_example =
    localize-Abstracts two_bits latch_alone ("q" ∷ []) at_reset (toggled ∷ []) latch_alone-localize
      two_bits-IsStart (two_bits-IsStep, tt)

abbrev cone_nodes : ℕ → Sig
cone_nodes i =
    if i == 2
    then sig_q
    else if i == 3
    then sig_r
    else if i == 4
    then not 4 sig_r
    else and 6 (cons sig_q (cons (not 4 sig_r) nil))

support-ReadsOnly_example :
    ReadsOnly
      (and 6 (cons sig_q (cons (not 4 sig_r) nil)))
      (support (and 6 (cons sig_q (cons (not 4 sig_r) nil))))
support-ReadsOnly_example =
    support-ReadsOnly cone_nodes (and 6 (cons sig_q (cons (not 4 sig_r) nil)))
      (refl, (refl, ((refl, refl), tt)))
