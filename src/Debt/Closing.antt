-- ===== src/Debt/Closing.antt =====
-- How an amortisation schedule ends (amortisation.go, `Schedule`).
use hybrid_quantum_banking_b.Base.{
  ℕ, zero, suc, ◌+◌, ◌-◌, ◌≤◌, ◌<◌, ◌≡◌, refl, ap, ◌∙◌, Bool, true, false, ◌==◌, List, [], ◌∷◌,
  length, arith, leb, leb→le, ◌⊎◌, inl, inr, Bool-cases, if◌then◌else◌,
}
use hybrid_quantum_banking_b.Base.Int64.{positive, sub64, le64, sign_bit, non_positive}
use hybrid_quantum_banking_b.Base.Float.{Floats}
use hybrid_quantum_banking_b.Debt.{
  Powers, Row, total_principal, schedule_converged, interest_of, principal_of, schedule_loop,
  schedule, emi, monthly_rate,
}

-- The rows pay off the amount in at most so many months and end with balance 0.
pub record Closes (amount months : ℕ) (rows : List Row) : Type 0 where
  pub paid : total_principal rows ≡ amount
  pub closed : schedule_converged rows ≡ true
  pub in_time : length rows ≤ months

module _ (fl : Floats) (pw : Powers fl) (r : fl.F) (instalment bound : ℕ) where
  -- The instalment covers the interest of every balance up to the bound.
  abbrev pub Covers : Type 0
  Covers = (b : ℕ) → b ≤ bound → interest_of fl pw r b ≤ instalment

  loop-nil : (left k : ℕ) → schedule_loop fl pw r instalment left k 0 ≡ []
  unfolding schedule_loop
  loop-nil zero k = refl
  loop-nil (suc left) k = refl

  loop-step :
      (left k b paid after : ℕ)
      → non_positive b ≡ false
      → principal_of (left == 0) instalment (interest_of fl pw r b) b ≡ paid
      → sub64 b paid ≡ after
      → schedule_loop fl pw r instalment (suc left) k b
        ≡ record {
          month = k;
          interest_paise = interest_of fl pw r b;
          principal_paise = paid;
          balance_paise = after;
        }
          ∷ schedule_loop fl pw r instalment left (k + 1) after
  unfolding schedule_loop
  loop-step left k b paid after n q s = rw (n, q, s) refl

  -- What is left after an instalment that does not pay off the balance.
  part : ℕ → ℕ
  part b = instalment - interest_of fl pw r b

  paying_row : ℕ → ℕ → Row
  paying_row k b = record {
    month = k;
    interest_paise = interest_of fl pw r b;
    principal_paise = b;
    balance_paise = 0;
  }

  part_row : ℕ → ℕ → Row
  unfolding part
  part_row k b = record {
    month = k;
    interest_paise = interest_of fl pw r b;
    principal_paise = part b;
    balance_paise = b - part b;
  }

  module _ (limit : bound < sign_bit) (small : instalment < sign_bit) (covers : Covers) where
    principal-all :
        (left b : ℕ)
        → b ≤ bound
        → (left ≡ 0) ⊎ (b ≤ part b)
        → principal_of (left == 0) instalment (interest_of fl pw r b) b ≡ b
    unfolding principal_of part
    principal-all left b h c = ground (arith, covers b h)

    principal-part :
        (left b : ℕ)
        → b ≤ bound
        → part b < b
        → principal_of (suc left == 0) instalment (interest_of fl pw r b) b ≡ part b
    unfolding principal_of part
    principal-part left b h c = ground (arith, covers b h)

    -- The last row pays all that is left.
    loop-pays :
        (left k b : ℕ)
        → 0 < b
        → b ≤ bound
        → (left ≡ 0) ⊎ (b ≤ part b)
        → schedule_loop fl pw r instalment (suc left) k b ≡ paying_row k b ∷ []
    unfolding paying_row
    loop-pays left k b p h c =
        loop-step left k b b 0 (ground arith) (principal-all left b h c) (omega arith)
        ∙ ap (λ rows. paying_row k b ∷ rows) (loop-nil left (k + 1))

    -- An earlier row pays a part.
    loop-part :
        (left k b : ℕ)
        → b ≤ bound
        → part b < b
        → schedule_loop fl pw r instalment (suc (suc left)) k b
          ≡ part_row k b ∷ schedule_loop fl pw r instalment (suc left) (k + 1) (b - part b)
    unfolding part_row
    loop-part left k b h c =
        loop-step (suc left) k b (part b) (b - part b) (ground arith) (principal-part left b h c)
          (omega arith)

    pays-Closes : (k b n : ℕ) → b ≤ bound → Closes b (suc n) (paying_row k b ∷ [])
    unfolding paying_row total_principal schedule_converged
    pays-Closes k b n h = record { paid = omega arith; closed = refl; in_time = omega arith }

    part-Closes :
        (k b n : ℕ) (rows : List Row)
        → b ≤ bound
        → part b < b
        → Closes (b - part b) n rows
        → Closes b (suc n) (part_row k b ∷ rows)
    unfolding part_row total_principal schedule_converged
    part-Closes k b n [] h c rest = absurd (omega (arith, rest.paid))
    part-Closes k b n (row ∷ rows) h c rest = record {
      paid = omega (arith, rest.paid);
      closed = rest.closed;
      in_time = omega (arith, rest.in_time);
    }

    loop-Closes :
        (left k b : ℕ)
        → 0 < b
        → b ≤ bound
        → Closes b (suc left) (schedule_loop fl pw r instalment (suc left) k b)
    loop-Closes zero k b p h = rw (loop-pays 0 k b p h (inl refl)) (pays-Closes k b 0 h)
    loop-Closes (suc left) k b p h = elim (Bool-cases (leb b (part b))) [
      | inl y ↦
          rw (loop-pays (suc left) k b p h (inr (leb→le b (part b) y)))
            (pays-Closes k b (suc left) h)
      | inr n ↦
          let c : part b < b = ground arith in
          rw (loop-part left k b h c) (
            part-Closes k b (suc left)
              (schedule_loop fl pw r instalment (suc left) (k + 1) (b - part b)) h c
              (loop-Closes left (k + 1) (b - part b) (omega (arith, c)) (omega (arith, h))))
    ]

le64-above : (a b : ℕ) → b < a → a < sign_bit → le64 a b ≡ false
le64-above a b h k = ground arith

if-same : (b : Bool) → (if b then false else false) ≡ false
if-same true = refl
if-same false = refl

-- A loan whose instalment is above the interest of the first month, where no smaller balance
-- bears more interest than the principal, gets a schedule of at most the wanted months that ends
-- with balance 0 and whose principal payments add up to exactly the principal.
pub schedule-Closes :
    (fl : Floats) (pw : Powers fl) (principal : ℕ) (annual : fl.F) (months : ℕ)
    → 0 < principal
    → principal < sign_bit
    → 0 < months
    → months < sign_bit
    → ((b : ℕ)
        → b ≤ principal
        → interest_of fl pw (monthly_rate fl pw annual) b
          ≤ interest_of fl pw (monthly_rate fl pw annual) principal)
    → interest_of fl pw (monthly_rate fl pw annual) principal < emi fl pw principal annual months
    → emi fl pw principal annual months < sign_bit
    → Closes principal months (schedule fl pw principal annual months)
unfolding schedule
schedule-Closes fl pw principal annual zero p l m n mono above small = absurd (omega arith)
schedule-Closes fl pw principal annual (suc left) p l m n mono above small =
    let r = monthly_rate fl pw annual in
    let instalment = emi fl pw principal annual (suc left) in
    let closes =
      loop-Closes fl pw r instalment principal l small (λ b h. omega (arith, mono b h, above)) left
        1 principal p (omega arith) in
    rw
      (
        positive (suc left) m n,
        positive principal p l,
        positive instalment (omega (arith, above)) small,
        le64-above instalment (interest_of fl pw r principal) above small,
        if-same (fl.lt (fl.lit 0) r),
      )
      closes
