-- ===== src/Debt/Waterfall/Target.antt =====
-- The loan that the pool of a month goes to (optimise.go, `pickTarget`).
use hybrid_quantum_banking_b.Base.{
  ℕ, suc, ◌+◌, ◌≤◌, ◌≡◌, refl, sym, ap, ◌∙◌, Bool, true, false, not, ◌&&◌, List, [], ◌∷◌, All,
  Option, none, some, arith, get_elem?, ◌⊎◌, inl, inr, Bool-cases, if◌then◌else◌,
}
use hybrid_quantum_banking_b.Base.Int64.{non_positive, lt64}
use hybrid_quantum_banking_b.Base.Float.{Floats}
use hybrid_quantum_banking_b.Debt.{Powers}
use hybrid_quantum_banking_b.Debt.Waterfall.{Acct, is_better, pick_from, pick_target}

module _ (fl : Floats) (pw : Powers fl) where
  -- The loan has a positive balance.
  abbrev pub IsActive : Acct fl → Type 0
  IsActive a = non_positive a.bal ≡ false

  -- No active loan has a smaller balance than the given one.
  abbrev pub IsLeast : Acct fl → List (Acct fl) → Type 0
  IsLeast a = All (λ x. IsActive x → a.bal ≤ x.bal)

  abbrev Picked : Type 0
  Picked = Option (ℕ × Acct fl)

  -- The best loan before the rest of the loop is active, and what is picked is not above it.
  ActiveBest : Option (ℕ × Acct fl) → Type 0
  ActiveBest none = Unit
  ActiveBest (some best) = IsActive best.1

  abbrev NotAbove : Acct fl → Option (ℕ × Acct fl) → Type 0
  NotAbove a none = Unit
  NotAbove a (some best) = a.bal ≤ best.1.bal

  picked-eq : {j : ℕ} {a : Acct fl} (best : ℕ × Acct fl) → some best ≡ some (j, a) → best.1 ≡ a
  picked-eq best e = cc

  least :
      (i j : ℕ) (a : Acct fl) (best : Option (ℕ × Acct fl)) (accts : List (Acct fl))
      → ActiveBest best
      → pick_from fl pw true i best accts ≡ some (j, a)
      → IsActive a × NotAbove a best × IsLeast a accts
  unfolding pick_from ActiveBest is_better
  least i j a none [] h e = absurd cc
  least i j a (some best) [] h e =
      let same = picked-eq best e in
      (ap (λ x. non_positive x.bal) (sym same) ∙ h, omega (arith, ap (λ x. x.bal) same), tt)
  least i j a none (x ∷ accts) h e = elim (Bool-cases (non_positive x.bal)) [
    | inl y ↦
        let rest = least (suc i) j a none accts tt (
          sym (ap (λ t. pick_from fl pw true (suc i) (if t then none else some (i, x)) accts) y)
          ∙ e) in
        (rest.0, tt, (λ n. absurd (ground arith), rest.2))
    | inr n ↦
        let rest = least (suc i) j a (some (i, x)) accts n (
          sym (ap (λ t. pick_from fl pw true (suc i) (if t then none else some (i, x)) accts) n)
          ∙ e) in
        (rest.0, tt, (λ _. rest.1, rest.2))
  ]
  least i j a (some best) (x ∷ accts) h e =
      let test = not (non_positive x.bal) && lt64 x.bal best.1.bal in
      elim (Bool-cases test) [
        | inl y ↦
            let n : non_positive x.bal ≡ false = ground arith in
            let rest = least (suc i) j a (some (i, x)) accts n (
              sym (
                ap (λ t. pick_from fl pw true (suc i) (if t then some (i, x) else some best) accts)
                  y)
              ∙ e) in
            (rest.0, ground (arith, rest.1, h), (λ _. rest.1, rest.2))
        | inr n ↦
            let rest = least (suc i) j a (some best) accts h (
              sym (
                ap (λ t. pick_from fl pw true (suc i) (if t then some (i, x) else some best) accts)
                  n)
              ∙ e) in
            (rest.0, rest.1, (λ k. ground (arith, rest.1, h), rest.2))
      ]

  -- The index `j`, counted from `i`, is that of the loan `a`.
  abbrev StandsAt : ℕ → ℕ → Acct fl → List (Acct fl) → Type 0
  StandsAt i j a accts = (d : ℕ) × (j ≡ i + d) × (get_elem? accts d ≡ some a)

  index-eq :
      {j : ℕ} {a : Acct fl} (i : ℕ) (x : Acct fl)
      → ◌≡◌ {A = Picked} (some (i, x)) (some (j, a))
      → i ≡ j
  index-eq i x e = cc

  here :
      {j : ℕ} {a : Acct fl} (i : ℕ) (x : Acct fl) (accts : List (Acct fl))
      → ◌≡◌ {A = Picked} (some (i, x)) (some (j, a))
      → StandsAt i j a (x ∷ accts)
  here i x accts e = (0, omega (arith, index-eq i x e), ap some (picked-eq (i, x) e))

  later :
      {j : ℕ} {a : Acct fl} (i : ℕ) (x : Acct fl) (accts : List (Acct fl))
      → StandsAt (suc i) j a accts
      → StandsAt i j a (x ∷ accts)
  later i x accts (d, q, g) = (suc d, omega (arith, q), g)

  after :
      {j : ℕ} {a : Acct fl} (i : ℕ) (x : Acct fl) (accts : List (Acct fl))
      (best next : Option (ℕ × Acct fl))
      → (next ≡ best) ⊎ (next ≡ some (i, x))
      → (next ≡ some (j, a)) ⊎ StandsAt (suc i) j a accts
      → (best ≡ some (j, a)) ⊎ StandsAt i j a (x ∷ accts)
  after i x accts best next (inl q) (inl e) = inl (sym q ∙ e)
  after i x accts best next (inr q) (inl e) = inr (here i x accts (sym q ∙ e))
  after i x accts best next q (inr h) = inr (later i x accts h)

  choice :
      (t : Bool) (taken other : Option (ℕ × Acct fl))
      → ((if t then taken else other) ≡ other) ⊎ ((if t then taken else other) ≡ taken)
  choice true taken other = inr refl
  choice false taken other = inl refl

  choice-none :
      (t : Bool) (best : ℕ × Acct fl)
      → ((if t then none else some best) ≡ none) ⊎ ((if t then none else some best) ≡ some best)
  choice-none true best = inl refl
  choice-none false best = inr refl

  standing :
      (accts : List (Acct fl)) (i : ℕ) (a : Acct fl)
      → (◌≡◌ {A = Picked} none (some (i, a))) ⊎ StandsAt 0 i a accts
      → get_elem? accts i ≡ some a
  standing accts i a (inl e) = absurd cc
  standing accts i a (inr (d, q, g)) =
      let same : i ≡ d = omega (arith, q) in ap (get_elem? accts) same ∙ g

  indexed :
      (s : Bool) (i j : ℕ) (a : Acct fl) (best : Option (ℕ × Acct fl)) (accts : List (Acct fl))
      → pick_from fl pw s i best accts ≡ some (j, a)
      → (best ≡ some (j, a)) ⊎ StandsAt i j a accts
  unfolding pick_from
  indexed s i j a none [] e = inl e
  indexed s i j a (some best) [] e = inl e
  indexed s i j a none (x ∷ accts) e =
      let next = if non_positive x.bal then none else some (i, x) in
      after i x accts none next (choice-none (non_positive x.bal) (i, x))
        (indexed s (suc i) j a next accts e)
  indexed s i j a (some best) (x ∷ accts) e =
      let test = not (non_positive x.bal) && is_better fl pw s x best.1 in
      let next = if test then some (i, x) else some best in
      after i x accts (some best) next (choice test (some (i, x)) (some best))
        (indexed s (suc i) j a next accts e)

-- The loan that the snowball pours its pool onto stands at the picked index, has a positive
-- balance, and no other loan with a positive balance has a smaller one.
pub pick_target-IsLeast :
    (fl : Floats) (pw : Powers fl) (accts : List (Acct fl)) (i : ℕ) (a : Acct fl)
    → pick_target fl pw true accts ≡ some (i, a)
    → (get_elem? accts i ≡ some a) × IsActive fl pw a × IsLeast fl pw a accts
unfolding pick_target
pick_target-IsLeast fl pw accts i a e =
    let (active, _, smallest) = least fl pw 0 i a none accts (unfold ActiveBest in tt) e in
    (standing fl pw accts i a (indexed fl pw true 0 i a none accts e), active, smallest)
