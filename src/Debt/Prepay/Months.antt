-- ===== src/Debt/Prepay/Months.antt =====
-- The months of two schedules of one loan, with and without prepayments (optimise.go,
-- `prepaySchedule`).
use hybrid_quantum_banking_b.Base.{
  ℕ, zero, suc, ◌+◌, ◌-◌, ◌*◌, ◌≤◌, ◌<◌, ◌≡◌, refl, Bool, true, false, not, ◌&&◌, ◌==◌, List, [],
  ◌∷◌, length, arith, inl, inr, Bool-cases, Option, none, some, leb,
}
use hybrid_quantum_banking_b.Base.Int64.{positive, sub64-eq-sub, sub64, sign_bit}
use hybrid_quantum_banking_b.Base.Float.{Floats}
use hybrid_quantum_banking_b.Debt.{Powers, Row, total_interest, interest_of}
use hybrid_quantum_banking_b.Debt.Prepay.{Prepayments, extra_of, capped, prepay_loop}

-- The first schedule is no longer, and no month of it bears more interest.
abbrev pub Below : List Row → List Row → Type 0
Below [] rows = Unit
Below (x ∷ xs) [] = ⊥
Below (x ∷ xs) (y ∷ ys) = (x.interest_paise ≤ y.interest_paise) × Below xs ys

pub Below-length : (xs ys : List Row) → Below xs ys → length xs ≤ length ys
Below-length [] ys h = omega arith
Below-length (x ∷ xs) [] h = absurd h
Below-length (x ∷ xs) (y ∷ ys) h = omega (arith, Below-length xs ys h.1)

-- The interest without wrap-around.
pub interest_sum : List Row → ℕ
interest_sum [] = 0
interest_sum (row ∷ rows) = row.interest_paise + interest_sum rows

pub total_interest-eq-sum :
    (rows : List Row) → interest_sum rows < sign_bit → total_interest rows ≡ interest_sum rows
unfolding total_interest interest_sum
total_interest-eq-sum [] h = refl
total_interest-eq-sum (row ∷ rows) h = omega (arith, total_interest-eq-sum rows (omega (arith, h)))

pub Below-sum : (xs ys : List Row) → Below xs ys → interest_sum xs ≤ interest_sum ys
unfolding interest_sum
Below-sum [] ys h = omega arith
Below-sum (x ∷ xs) [] h = absurd h
Below-sum (x ∷ xs) (y ∷ ys) h = omega (arith, h.0, Below-sum xs ys h.1)

extra_of-le : (o : Option ℕ) (b : ℕ) → b < sign_bit → extra_of o b ≤ b
unfolding extra_of
extra_of-le none b h = omega arith
extra_of-le (some e) b h = ground arith

capped-le : (b p : ℕ) → b < sign_bit → p < sign_bit → capped b p ≤ b
unfolding capped
capped-le b p h k = ground arith

-- A smaller balance under a larger instalment leaves less.
capped-rest :
    (b c p q : ℕ) → b ≤ c → q ≤ p → c < sign_bit → p < sign_bit → b - capped b p ≤ c - capped c q
unfolding capped
capped-rest b c p q h k l m = ground arith

ne-zero : (n : ℕ) → 0 < n → (n == 0) ≡ false
ne-zero n h = ground arith

and-false : (b : Bool) → b && false ≡ false
and-false true = refl
and-false false = refl

module _ (fl : Floats) (pw : Powers fl) (r : fl.F) (instalment : ℕ) where
  loop-nil : (pre : Prepayments) (left k : ℕ) → prepay_loop fl pw r instalment pre left k 0 ≡ []
  unfolding prepay_loop
  loop-nil pre zero k = refl
  loop-nil pre (suc left) k = refl

  -- A month whose prepayment pays off the loan.
  loop-closed :
      (pre : Prepayments) (left k b : ℕ)
      → 0 < b
      → b < sign_bit
      → extra_of (pre k) b ≡ b
      → prepay_loop fl pw r instalment pre (suc left) k b
        ≡ record { month = k; interest_paise = 0; principal_paise = b; balance_paise = 0 } ∷ []
  unfolding prepay_loop
  loop-closed pre left k b p h e = rw (e) (ground arith)

  -- Any other month, with the balance after its prepayment.
  loop-row :
      (pre : Prepayments) (left k b lowered principal : ℕ)
      → 0 < lowered
      → b < sign_bit
      → lowered ≤ b
      → sub64 b (extra_of (pre k) b) ≡ lowered
      → sub64 instalment (interest_of fl pw r lowered) ≡ principal
      → 0 < principal
      → principal < sign_bit
      → prepay_loop fl pw r instalment pre (suc left) k b
        ≡ record {
          month = k;
          interest_paise = interest_of fl pw r lowered;
          principal_paise = capped lowered principal;
          balance_paise = lowered - capped lowered principal;
        }
          ∷ prepay_loop fl pw r instalment pre left (k + 1) (lowered - capped lowered principal)
  unfolding prepay_loop
  loop-row pre left k b lowered principal z h le e q p m =
      rw
        (
          e,
          q,
          positive b (omega (arith, z, le)) h,
          ne-zero lowered z,
          and-false (not (extra_of (pre k) b == 0)),
          positive principal p m,
          sub64-eq-sub lowered (capped lowered principal)
              (capped-le lowered principal (omega (arith, le, h)) m) (omega (arith, le, h)),
        )
        refl

  module _ (bound : ℕ)
      (mono : (b c : ℕ) → b ≤ c → c ≤ bound → interest_of fl pw r b ≤ interest_of fl pw r c)
      (above : interest_of fl pw r bound < instalment) (small : instalment < sign_bit)
      (limit : bound < sign_bit) where
    -- The principal part of an instalment.
    part : ℕ → ℕ
    part b = instalment - interest_of fl pw r b

    part-fits : (b : ℕ) → b ≤ bound → (0 < part b) × (part b < sign_bit)
    unfolding part
    part-fits b h = (omega (arith, mono b bound h (omega arith), above), omega (arith, small))

    row_of : ℕ → ℕ → Row
    unfolding part
    row_of k b = record {
      month = k;
      interest_paise = interest_of fl pw r b;
      principal_paise = capped b (part b);
      balance_paise = b - capped b (part b);
    }

    -- A month that starts, after its prepayment, with the balance `l`.
    loop-month :
        (pre : Prepayments) (left k b l : ℕ)
        → b ≤ bound
        → l ≤ b
        → 0 < l
        → sub64 b (extra_of (pre k) b) ≡ l
        → prepay_loop fl pw r instalment pre (suc left) k b
          ≡ row_of k l ∷ prepay_loop fl pw r instalment pre left (k + 1) (l - capped l (part l))
    unfolding row_of part
    loop-month pre left k b l h c z q =
        let fits = part-fits l (omega (arith, h, c)) in
        loop-row pre left k b l (part l) z (omega (arith, h)) c q
          (omega (arith, mono l bound (omega (arith, h, c)) (omega arith), above)) fits.0 fits.1

    interest-le :
        (k l c : ℕ) → l ≤ c → c ≤ bound → (row_of k l).interest_paise ≤ (row_of k c).interest_paise
    unfolding row_of
    interest-le k l c h j = mono l c h j

    -- A month on a smaller balance leaves less.
    rest-le : (b c : ℕ) → b ≤ c → c ≤ bound → b - capped b (part b) ≤ c - capped c (part c)
    rest-le b c h k =
        capped-rest b c (part b) (part c) h (unfold part in omega (arith, mono b c h k))
          (omega (arith, k)) (part-fits b (omega (arith, h, k))).1

    -- The schedule with prepayments from a smaller balance stays below the one without.
    pub loop-Below :
        (pre : Prepayments) (left k b c : ℕ)
        → b ≤ c
        → c ≤ bound
        → Below
            (prepay_loop fl pw r instalment pre left k b)
            (prepay_loop fl pw r instalment (λ _. none) left k c)
    loop-Below pre zero k b c h j = unfold prepay_loop in tt
    loop-Below pre (suc left) k zero c h j = rw (loop-nil pre (suc left) k) tt
    loop-Below pre (suc left) k (suc b) c h j =
        let e = extra_of (pre k) (suc b) in
        let le = extra_of-le (pre k) (suc b) (omega (arith, h, j)) in
        let base =
          loop-month (λ _. none) left k c c j (omega arith) (omega (arith, h))
            (unfold extra_of in omega (arith, j)) in
        elim (Bool-cases (leb (suc b) e)) [
          | inl y ↦
              let all : e ≡ suc b = ground (arith, le) in
              rw (base, loop-closed pre left k (suc b) (omega arith) (omega (arith, h, j)) all)
                (omega arith, tt)
          | inr n ↦
              let some_left : e < suc b = ground arith in
              let l = suc b - e in
              let next =
                loop-month pre left k (suc b) l (omega (arith, h, j)) (omega arith)
                  (omega (arith, some_left)) (omega (arith, le, h, j)) in
              let l-le : l ≤ c = omega (arith, h) in
              rw (base, next)
                (
                  interest-le k l c l-le j,
                  loop-Below pre left (k + 1) (l - capped l (part l)) (c - capped c (part c))
                      (rest-le l c l-le j) (omega (arith, j)),
                )
        ]

    -- The interest of the schedule without prepayments, by its first month and its length.
    pub loop-sum :
        (left k c : ℕ)
        → c ≤ bound
        → interest_sum (prepay_loop fl pw r instalment (λ _. none) left k c)
          ≤ left * interest_of fl pw r bound
    unfolding interest_sum
    loop-sum zero k c h = unfold prepay_loop in omega arith
    loop-sum (suc left) k zero h = rw (loop-nil (λ _. none) (suc left) k) (omega arith)
    loop-sum (suc left) k (suc c) h =
        let base =
          loop-month (λ _. none) left k (suc c) (suc c) h (omega arith) (omega arith)
            (unfold extra_of in omega (arith, h)) in
        let rest =
          loop-sum left (k + 1) (suc c - capped (suc c) (part (suc c))) (omega (arith, h)) in
        let top : (row_of k (suc c)).interest_paise ≤ interest_of fl pw r bound =
          unfold row_of in mono (suc c) bound h (omega arith) in
        rw base (omega (arith, rest, top))
