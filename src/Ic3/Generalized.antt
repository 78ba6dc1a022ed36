-- ===== src/Ic3/Generalized.antt =====
-- ic3.py, `_generalize`: what is learnt.
use emergent_hardware_verifi.Sat.Literal.{neg, member, int_eq_iff, ℤ, int_eq}
use emergent_hardware_verifi.Bmc.Loop.{SearchFor}
use emergent_hardware_verifi.Prelude.{
  map, List, ◌-◌, ◌⊎◌, ◌≡◌, ◌∷◌, ◌∙◌, ℕ, true, sym, subst, some, refl, none, length, inr, inl,
  false, arith, [], Option-cases, Option, Bool-cases, Bool, ◌<◌,
}
use emergent_hardware_verifi.Ic3.{init_intersects, inductive_rel, Cube, Ic3Engine, ◌>>=◌}
use emergent_hardware_verifi.Ic3.Obligations.{minus, keeps_blocked, drop_lits, generalize}
use emergent_hardware_verifi.Interp.{subset}
use emergent_hardware_verifi.Interp.Sets.{subset_trans, member-subset, subset_refl}

minus-subset : (l : ℤ) (xs ys : Cube) → subset xs ys ≡ true → subset (minus l xs) ys ≡ true
unfolding subset
minus-subset l [] ys h = refl
minus-subset l (x ∷ xs) ys h = elim (Bool-cases (int_eq l x)) [
  | inl e ↦ rw e (minus-subset l xs ys (ground arith))
  | inr e ↦ let rest = minus-subset l xs ys (ground arith) in rw e (ground arith)
]

minus-smaller : (l : ℤ) (xs : Cube) → subset (minus l xs) xs ≡ true
minus-smaller l xs = minus-subset l xs xs (subset_refl xs)

member-minus : (l : ℤ) (xs : Cube) → member l (minus l xs) ≡ false
member-minus l [] = refl
member-minus l (x ∷ xs) = elim (Bool-cases (int_eq l x)) [
  | inl e ↦ rw e (member-minus l xs)
  | inr e ↦ rw e (rw e (member-minus l xs))
]

module _ (find_model : SearchFor) (eng : Ic3Engine) (i : ℕ) where
  -- Init has no state in the cube, and the cube's negation is inductive relative to the frame before.
  abbrev pub Passed : Cube → Type 0
  Passed g =
      (init_intersects find_model eng.ts g ≡ some false)
      × (inductive_rel find_model eng (map neg g) (i - 1) ≡ some true)

  -- The cube is empty, or one of the two queries is answered the other way.
  abbrev pub Failed : Cube → Type 0
  Failed g =
      (length g ≡ 0)
      ⊎ (init_intersects find_model eng.ts g ≡ some true)
      ⊎ (inductive_rel find_model eng (map neg g) (i - 1) ≡ some false)

  -- One of the two queries has no answer.
  abbrev pub Silent : Cube → Type 0
  Silent g =
      (init_intersects find_model eng.ts g ≡ none)
      ⊎ (inductive_rel find_model eng (map neg g) (i - 1) ≡ none)

  abbrev Checked : Cube → Option Bool → Type 0
  Checked g none = Silent g
  Checked g (some true) = (0 < length g) × Passed g
  Checked g (some false) = Failed g

  keeps_blocked-Checked : (g : Cube) → Checked g (keeps_blocked find_model eng g i)
  unfolding keeps_blocked
  keeps_blocked-Checked [] = inl refl
  keeps_blocked-Checked (l ∷ ls) =
      elim (Option-cases (init_intersects find_model eng.ts (l ∷ ls))) [
        | inl e ↦ rw (e, Checked) (inl e)
        | inr (true, e) ↦ rw (e, Checked) (inr (inl e))
        | inr (false, e) ↦
            elim (Option-cases (inductive_rel find_model eng (map neg (l ∷ ls)) (i - 1))) [
              | inl h ↦ rw (e, Checked) (rw (h, Checked) (inr h))
              | inr (true, h) ↦ rw (e, Checked) (rw (h, Checked) (omega arith, (e, h)))
              | inr (false, h) ↦ rw (e, Checked) (rw (h, Checked) (inr (inr h)))
            ]
      ]

  -- A literal that stays: from some cube between the two it could not be dropped.
  pub record Needed (cube g : Cube) (l : ℤ) : Type 0 where
    pub from : Cube
    pub above : subset g from ≡ true
    pub below : subset from cube ≡ true
    pub fails : Failed (minus l from)

  -- What dropping the literals `ls` one by one makes of the cube `c`.
  record Dropped (cube : Cube) (ls : List ℤ) (c g : Cube) : Type 0 where
    pub smaller : subset g c ≡ true
    pub passed : (g ≡ c) ⊎ ((0 < length g) × Passed g)
    pub needed : (l : ℤ) → member l ls ≡ true → (member l g ≡ false) ⊎ Needed cube g l

  -- A cube with literals of the cube alone for which a query has no answer.
  pub record Unanswered (cube : Cube) : Type 0 where
    pub candidate : Cube
    pub part : subset candidate cube ≡ true
    pub silent : Silent candidate

  abbrev DroppedAll : Cube → List ℤ → Cube → Option Cube → Type 0
  DroppedAll cube ls c none = Unanswered cube
  DroppedAll cube ls c (some g) = Dropped cube ls c g

  -- The literal that is dropped stays away.
  drop_one :
      (cube : Cube) (l : ℤ) (ls : List ℤ) (c g : Cube)
      → (0 < length (minus l c)) × Passed (minus l c)
      → Dropped cube ls (minus l c) g
      → Dropped cube (l ∷ ls) c g
  drop_one cube l ls c g ok d = record {
    smaller = subset_trans g (minus l c) c d.smaller (minus-smaller l c);
    passed = inr (elim d.passed [
      | inl same ↦ subst (λ x. (0 < length x) × Passed x) (sym same) ok
      | inr p ↦ p
    ]);
    needed = λ x h. elim (Bool-cases (int_eq x l)) [
      | inr e ↦ d.needed x (ground (arith, h, e))
      | inl e ↦ elim (Bool-cases (member x g)) [
        | inr away ↦ inl away
        | inl kept ↦
            let there : member x (minus l c) ≡ true =
              member-subset x g (minus l c) d.smaller kept in
            let is_l : x ≡ l = (int_eq_iff x l).0 e in
            let gone : member x (minus l c) ≡ false =
              subst (λ y. member y (minus l c) ≡ false) (sym is_l) (member-minus l c) in
            let no : true ≡ false = sym there ∙ gone in cc
      ]
    ];
  }

  keep_one :
      (cube : Cube) (l : ℤ) (ls : List ℤ) (c g : Cube)
      → subset c cube ≡ true
      → Failed (minus l c)
      → Dropped cube ls c g
      → Dropped cube (l ∷ ls) c g
  keep_one cube l ls c g part not_ok d = record {
    smaller = d.smaller;
    passed = d.passed;
    needed = λ x h. elim (Bool-cases (int_eq x l)) [
      | inr e ↦ d.needed x (ground (arith, h, e))
      | inl e ↦
          let is_l : x ≡ l = (int_eq_iff x l).0 e in
          inr (record {
            from = c;
            above = d.smaller;
            below = part;
            fails = subst (λ y. Failed (minus y c)) (sym is_l) not_ok;
          })
    ];
  }

  drop_lits-Dropped :
      (cube : Cube) (ls : List ℤ) (c : Cube)
      → subset c cube ≡ true
      → DroppedAll cube ls c (drop_lits find_model eng i ls c)
  unfolding drop_lits
  drop_lits-Dropped cube [] c part = record {
    smaller = subset_refl c;
    passed = inl refl;
    needed = λ l h. cc;
  }
  drop_lits-Dropped cube (l ∷ ls) c part =
      let smaller = subset_trans (minus l c) c cube (minus-smaller l c) part in
      let checked = keeps_blocked-Checked (minus l c) in
      elim (Option-cases (keeps_blocked find_model eng (minus l c) i)) [
        | inl e ↦
            let silent : Silent (minus l c) = subst (λ o. Checked (minus l c) o) e checked in
            rw (e, ◌>>=◌) (record { candidate = minus l c; part = smaller; silent = silent })
        | inr (true, e) ↦
            let ok = subst (λ o. Checked (minus l c) o) e checked in
            rw (e, ◌>>=◌)
              (after_drop ok (drop_lits find_model eng i ls (minus l c))
                (drop_lits-Dropped cube ls (minus l c) smaller))
        | inr (false, e) ↦
            let not_ok = subst (λ o. Checked (minus l c) o) e checked in
            rw (e, ◌>>=◌)
              (after_keep not_ok (drop_lits find_model eng i ls c)
                (drop_lits-Dropped cube ls c part))
      ]
    where
      after_drop :
          (0 < length (minus l c)) × Passed (minus l c)
          → (o : Option Cube) → DroppedAll cube ls (minus l c) o
          → DroppedAll cube (l ∷ ls) c o
      after_drop ok none u = u
      after_drop ok (some g) d = drop_one cube l ls c g ok d

      after_keep :
          Failed (minus l c)
          → (o : Option Cube) → DroppedAll cube ls c o
          → DroppedAll cube (l ∷ ls) c o
      after_keep not_ok none u = u
      after_keep not_ok (some g) d = keep_one cube l ls c g part not_ok d

  -- What it returns has literals of the cube alone.
  pub generalize-smaller :
      (cube g : Cube) → generalize find_model eng cube i ≡ some g → subset g cube ≡ true
  unfolding generalize
  generalize-smaller cube g h =
      let d : Dropped cube cube cube g =
        subst (λ o. DroppedAll cube cube cube o) h
          (drop_lits-Dropped cube cube cube (subset_refl cube)) in
      d.smaller

  -- A generalized cube.
  pub record Generalized (cube g : Cube) : Type 0 where
    pub smaller : subset g cube ≡ true
    pub nonempty : 0 < length g
    pub passed : (g ≡ cube) ⊎ Passed g
    pub needed : (l : ℤ) → member l g ≡ true → Needed cube g l

  -- The outcome of _generalize: a cube that is right, or a query without an answer.
  abbrev pub Outcome : Cube → Option Cube → Type 0
  Outcome cube none = Unanswered cube
  Outcome cube (some g) = Generalized cube g

  -- For a cube that is not empty, _generalize returns a cube, unless the query whether an initial
  -- state is in a cube, or the one whether the cube's negation is inductive relative to the frame
  -- before, has no answer for a cube made of literals of the given one. What it returns is not
  -- empty and has literals of the given cube alone; it is that cube itself, or the two queries
  -- answered that no initial state is in it and that its negation is inductive relative to the
  -- frame before; and for each literal that it keeps there is a cube between the two that without
  -- the literal is empty or for which one of the two queries was answered the other way.
  pub generalize-Answers :
      (cube : Cube) → 0 < length cube → Outcome cube (generalize find_model eng cube i)
  unfolding generalize
  generalize-Answers cube l =
      at_end (drop_lits find_model eng i cube cube)
        (drop_lits-Dropped cube cube cube (subset_refl cube))
    where
      at_end : (o : Option Cube) → DroppedAll cube cube cube o → Outcome cube o
      at_end none u = u
      at_end (some g) d = record {
        smaller = d.smaller;
        nonempty = elim d.passed [
          | inl same ↦ subst (λ x. 0 < length x) (sym same) l
          | inr p ↦ p.0
        ];
        passed = elim d.passed [ inl same ↦ inl same | inr p ↦ inr (p.1) ];
        needed = λ x h. elim (d.needed x (member-subset x g cube d.smaller h)) [
          | inl away ↦ let no : true ≡ false = sym h ∙ away in cc
          | inr n ↦ n
        ];
      }
