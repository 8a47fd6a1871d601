-- ===== src/Chaincode/Order.antt =====
-- The order of the range scans (main.go, `queryByPartial`).
use hybrid_quantum_banking_b.Base.{
  ◌<◌, ◌≡◌, refl, ap, ◌∙◌, sym, String, eq_iff, Bool, true, false, ◌||◌, List, [], ◌∷◌, ◌++◌, All,
  arith, select, Bool-cases, inl, inr,
}
use hybrid_quantum_banking_b.Chaincode.Events.{
  Event, is_category, insert_by_seq, sort_by_seq, of_user, in_category, scan_category, scan,
}

-- The sequence numbers increase.
abbrev pub Ascending : List Event → Type 0
Ascending [] = Unit
Ascending (e ∷ es) = All (λ x. e.seq < x.seq) es × Ascending es

pub All-select :
    (P : Event → Type 0) (p : Event → Bool) (xs : List Event) → All P xs → All P (select p xs)
All-select P p [] h = tt
All-select P p (x ∷ xs) h = elim (Bool-cases (p x)) [
  | inl y ↦ rw y (h.0, All-select P p xs h.1)
  | inr n ↦ rw n (All-select P p xs h.1)
]

pub Ascending-select : (p : Event → Bool) (xs : List Event) → Ascending xs → Ascending (select p xs)
Ascending-select p [] h = tt
Ascending-select p (x ∷ xs) h = elim (Bool-cases (p x)) [
  | inl y ↦ rw y (All-select (λ y. x.seq < y.seq) p xs h.0, Ascending-select p xs h.1)
  | inr n ↦ rw n (Ascending-select p xs h.1)
]

insert_by_seq-first :
    (e : Event) (xs : List Event) → All (λ x. e.seq < x.seq) xs → insert_by_seq e xs ≡ e ∷ xs
unfolding insert_by_seq
insert_by_seq-first e [] h = refl
insert_by_seq-first e (x ∷ xs) h = ground (arith, h.0)

pub sort_by_seq-Ascending : (xs : List Event) → Ascending xs → sort_by_seq xs ≡ xs
unfolding sort_by_seq
sort_by_seq-Ascending [] h = refl
sort_by_seq-Ascending (x ∷ xs) h =
    ap (insert_by_seq x) (sort_by_seq-Ascending xs h.1) ∙ insert_by_seq-first x xs h.0

-- The events of the first list, sorted into the second.
insert_all : List Event → List Event → List Event
insert_all [] ys = ys
insert_all (x ∷ xs) ys = insert_by_seq x (insert_all xs ys)

sort_by_seq-append : (xs ys : List Event) → sort_by_seq (xs ++ ys) ≡ insert_all xs (sort_by_seq ys)
unfolding sort_by_seq insert_all
sort_by_seq-append [] ys = refl
sort_by_seq-append (x ∷ xs) ys = ap (insert_by_seq x) (sort_by_seq-append xs ys)

-- What is smaller than all that is sorted in stays first.
insert_all-first :
    (y : Event) (xs ys : List Event)
    → All (λ x. y.seq < x.seq) xs
    → insert_all xs (y ∷ ys) ≡ y ∷ insert_all xs ys
unfolding insert_all insert_by_seq
insert_all-first y [] ys h = refl
insert_all-first y (x ∷ xs) ys h = rw (insert_all-first y xs ys h.1) (ground (arith, h.0))

merged : (Event → Bool) → (Event → Bool) → Event → Bool
merged p q e = p e || q e

module _ (p q : Event → Bool) (apart : (e : Event) → p e ≡ true → q e ≡ false) where
  insert_all-select :
      (xs : List Event)
      → Ascending xs
      → insert_all (select p xs) (select q xs) ≡ select (merged p q) xs
  unfolding insert_all merged
  insert_all-select [] h = refl
  insert_all-select (x ∷ xs) h = elim (Bool-cases (p x)) [
    | inl y ↦
        rw (y, apart x y)
          (ap (insert_by_seq x) (insert_all-select xs h.1)
            ∙ insert_by_seq-first x (select (merged p q) xs)
                (All-select (λ y. x.seq < y.seq) (merged p q) xs h.0))
    | inr n ↦ elim (Bool-cases (q x)) [
      | inl y ↦
          rw (n, y)
            (insert_all-first x (select p xs) (select q xs)
                (All-select (λ y. x.seq < y.seq) p xs h.0)
              ∙ ap (λ l. x ∷ l) (insert_all-select xs h.1))
      | inr m ↦ rw (n, m) (insert_all-select xs h.1)
    ]
  ]

-- No category is listed twice.
abbrev pub Distinct : List String → Type 0
Distinct [] = Unit
Distinct (c ∷ cs) = (is_category cs c ≡ false) × Distinct cs

-- The event's category is one of those.
abbrev pub within : List String → Event → Bool
within cs e = is_category cs e.category

within-cons :
    (c : String) (cs : List String) (xs : List Event)
    → select (merged (in_category c) (within cs)) xs ≡ select (within (c ∷ cs)) xs
unfolding merged in_category is_category
within-cons c cs xs = refl

-- The event's category is not among the others.
apart-in_category :
    (c : String) (cs : List String)
    → is_category cs c ≡ false
    → (e : Event) → in_category c e ≡ true
    → within cs e ≡ false
unfolding in_category
apart-in_category c cs h e y = ap (is_category cs) (sym ((eq_iff c e.category).0 y)) ∙ h

within-nil : (xs : List Event) → select (within []) xs ≡ []
unfolding is_category
within-nil [] = refl
within-nil (x ∷ xs) = within-nil xs

pub scan-sorted :
    (user : String) (store : List Event) (cs : List String)
    → Distinct cs
    → Ascending (select (of_user user) store)
    → sort_by_seq (scan user store cs) ≡ select (within cs) (select (of_user user) store)
unfolding scan scan_category
scan-sorted user store [] d h = unfold sort_by_seq in sym (within-nil (select (of_user user) store))
scan-sorted user store (c ∷ cs) d h =
    let own = select (of_user user) store in
    let one = select (in_category c) own in
    sort_by_seq-append (sort_by_seq one) (scan user store cs)
    ∙ ap (λ l. insert_all l (sort_by_seq (scan user store cs)))
        (sort_by_seq-Ascending one (Ascending-select (in_category c) own h))
    ∙ ap (insert_all one) (scan-sorted user store cs d.1 h)
    ∙ insert_all-select (in_category c) (within cs) (apart-in_category c cs d.0) own h
    ∙ within-cons c cs own

pub select-All : (p : Event → Bool) (xs : List Event) → All (λ e. p e ≡ true) xs → select p xs ≡ xs
select-All p [] h = refl
select-All p (x ∷ xs) h = rw (h.0) (ap (λ l. x ∷ l) (select-All p xs h.1))
