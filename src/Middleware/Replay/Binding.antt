-- ===== src/Middleware/Replay/Binding.antt =====
-- What a key stays bound to (idempotency.go, `RequireIdempotency`).
use hybrid_quantum_banking_b.Base.{
  ℕ, ◌+◌, ◌<◌, ◌≡◌, refl, sym, ap, ◌∙◌, leb, ltb, String, str_eq, eq_iff, eq_refl, Bool, true,
  false, not, ◌&&◌, ◌||◌, List, [], ◌∷◌, All, Option, none, some, arith, Bool-cases, inl, inr,
  select, length, lt→ltb, if◌then◌else◌,
}
use hybrid_quantum_banking_b.Base.Text.{trim_space}
use hybrid_quantum_banking_b.Middleware.Replay.{
  Seen, Guard, KeyedRequest, passed_on, key_conflict, key_ttl, one_hour, max_seen, store_key,
  find_seen, put_seen, sweep_seen, bind_key, require_idempotency,
}

find_seen-put_seen : (x : Seen) (es : List Seen) → find_seen x.key (put_seen x es) ≡ some x
unfolding find_seen put_seen
find_seen-put_seen x [] = rw (eq_refl x.key) refl
find_seen-put_seen x (e ∷ es) = elim (Bool-cases (str_eq e.key x.key)) [
  | inl y ↦ rw (y, eq_refl x.key) refl
  | inr n ↦ rw (n, n) (find_seen-put_seen x es)
]

find_seen-put_other :
    (x : Seen) (key : String) (es : List Seen)
    → str_eq x.key key ≡ false
    → find_seen key (put_seen x es) ≡ find_seen key es
unfolding find_seen put_seen
find_seen-put_other x key [] n = rw n refl
find_seen-put_other x key (e ∷ es) n = elim (Bool-cases (str_eq e.key x.key)) [
  | inl y ↦
      let m : str_eq e.key key ≡ false = ap (λ k. str_eq k key) ((eq_iff e.key x.key).0 y) ∙ n in
      rw (y, n, m) refl
  | inr m ↦ elim (Bool-cases (str_eq e.key key)) [
    | inl y ↦ rw (m, y) refl
    | inr k ↦ rw (m, k) (find_seen-put_other x key es n)
  ]
]

some-eq : {x e : Seen} → some x ≡ some e → x ≡ e
some-eq h = cc

find_seen-live :
    (key : String) (now : ℕ) (e : Seen) (es : List Seen)
    → find_seen key es ≡ some e
    → now < e.expires
    → find_seen key (select (λ x. not (ltb x.expires now)) es) ≡ some e
unfolding find_seen
find_seen-live key now e [] q h = cc
find_seen-live key now e (x ∷ es) q h = elim (Bool-cases (str_eq x.key key)) [
  | inl y ↦
      let same : x ≡ e = some-eq (sym (ap (λ t. if t then some x else find_seen key es) y) ∙ q) in
      let kept : not (ltb x.expires now) ≡ true =
        ap (λ s. not (ltb s.expires now)) same ∙ ground arith in
      rw (kept, y) (ap some same)
  | inr n ↦
      let rest : find_seen key es ≡ some e =
        sym (ap (λ t. if t then some x else find_seen key es) n) ∙ q in
      elim (Bool-cases (not (ltb x.expires now))) [
        | inl t ↦ rw (t, n) (find_seen-live key now e es rest h)
        | inr t ↦ rw t (find_seen-live key now e es rest h)
      ]
]

sweep_seen-live :
    (key : String) (now : ℕ) (e : Seen) (g : Guard)
    → find_seen key g.seen ≡ some e
    → now < e.expires
    → find_seen key (sweep_seen now g).seen ≡ some e
unfolding sweep_seen
sweep_seen-live key now e g q h =
    elim (Bool-cases (leb (g.last_sweep + one_hour) now || ltb max_seen (length g.seen))) [
      | inl y ↦ rw y (find_seen-live key now e g.seen q h)
      | inr n ↦ rw n q
    ]

find_seen-none :
    (key : String) (p : Seen → Bool) (es : List Seen)
    → find_seen key es ≡ none
    → find_seen key (select p es) ≡ none
unfolding find_seen
find_seen-none key p [] q = refl
find_seen-none key p (x ∷ es) q = elim (Bool-cases (str_eq x.key key)) [
  | inl y ↦ absurd (ground (arith, q, y))
  | inr n ↦
      let rest : find_seen key es ≡ none =
        sym (ap (λ t. if t then some x else find_seen key es) n) ∙ q in
      elim (Bool-cases (p x)) [
        | inl t ↦ rw (t, n) (find_seen-none key p es rest)
        | inr t ↦ rw t (find_seen-none key p es rest)
      ]
]

sweep_seen-none :
    (key : String) (now : ℕ) (g : Guard)
    → find_seen key g.seen ≡ none
    → find_seen key (sweep_seen now g).seen ≡ none
unfolding sweep_seen
sweep_seen-none key now g q =
    elim (Bool-cases (leb (g.last_sweep + one_hour) now || ltb max_seen (length g.seen))) [
      | inl y ↦ rw y (find_seen-none key (λ e. not (ltb e.expires now)) g.seen q)
      | inr n ↦ rw n q
    ]

-- A binding is kept by every request before it expires.
module _ (key : String) (e : Seen) (now : ℕ) (live : now < e.expires) where
  bind_key-other :
      (k hash : String) (o : Option Seen) (g : Guard)
      → str_eq k key ≡ false
      → find_seen key g.seen ≡ some e
      → find_seen key (bind_key now k hash o g).0.seen ≡ some e
  unfolding bind_key
  bind_key-other k hash none g n q = find_seen-put_other _ key g.seen n ∙ q
  bind_key-other k hash (some prev) g n q = elim (Bool-cases (ltb now prev.expires)) [
    | inl y ↦ elim (Bool-cases (not (str_eq prev.body_hash hash))) [
      | inl d ↦ rw (y, d) q
      | inr d ↦ rw (y, d) q
    ]
    | inr m ↦ rw m (find_seen-put_other _ key g.seen n ∙ q)
  ]

  -- The key itself: the answer depends on the body only, and nothing changes.
  bind_key-own :
      (hash : String) (g : Guard)
      → bind_key now key hash (some e) g
        ≡ (g, if not (str_eq e.body_hash hash) then key_conflict else passed_on)
  unfolding bind_key
  bind_key-own hash g = elim (Bool-cases (not (str_eq e.body_hash hash))) [
    | inl d ↦ rw (lt→ltb now e.expires live, d) refl
    | inr d ↦ rw (lt→ltb now e.expires live, d) refl
  ]

  bind_key-keeps :
      (k hash : String) (g : Guard)
      → find_seen key g.seen ≡ some e
      → find_seen key (bind_key now k hash (find_seen k g.seen) g).0.seen ≡ some e
  bind_key-keeps k hash g q = elim (Bool-cases (str_eq k key)) [
    | inl y ↦ rw ((eq_iff k key).0 y, q, bind_key-own hash g) q
    | inr n ↦ bind_key-other k hash (find_seen k g.seen) g n q
  ]

  require-keeps :
      (r : KeyedRequest) (g : Guard)
      → find_seen key g.seen ≡ some e
      → find_seen key (require_idempotency now r g).0.seen ≡ some e
  unfolding require_idempotency
  require-keeps r g q =
      elim (Bool-cases (not (str_eq r.method "POST") && not (str_eq r.method "PATCH"))) [
        | inl a ↦ rw a q
        | inr a ↦ elim (Bool-cases (not r.requires_key)) [
          | inl b ↦ rw (a, b) q
          | inr b ↦ elim (Bool-cases (str_eq (trim_space r.idempotency_key) "")) [
            | inl c ↦ rw (a, b, c) q
            | inr c ↦
                rw (a, b, c)
                  (bind_key-keeps (store_key r) r.body_hash (sweep_seen now g)
                    (sweep_seen-live key now e g q live))
          ]
        ]
      ]

-- The guard asks for a key and has one.
pub record IsKeyed (r : KeyedRequest) : Type 0 where
  pub mutating : not (str_eq r.method "POST") && not (str_eq r.method "PATCH") ≡ false
  pub wants_key : not r.requires_key ≡ false
  pub named : str_eq (trim_space r.idempotency_key) "" ≡ false

-- The guard after a run of requests with their times.
unfoldable pub run : List (ℕ × KeyedRequest) → Guard → Guard
run [] g = g
run ((now, r) ∷ rs) g = run rs (require_idempotency now r g).0

keyed-request :
    (now : ℕ) (r : KeyedRequest) (g : Guard)
    → IsKeyed r
    → require_idempotency now r g
      ≡ bind_key now
          (store_key r)
          r.body_hash
          (find_seen (store_key r) (sweep_seen now g).seen)
          (sweep_seen now g)
unfolding require_idempotency
keyed-request now r g h = rw (h.mutating, h.wants_key, h.named) refl

run-keeps :
    (key : String) (e : Seen) (rs : List (ℕ × KeyedRequest)) (g : Guard)
    → All (λ p. p.0 < e.expires) rs
    → find_seen key g.seen ≡ some e
    → find_seen key (run rs g).seen ≡ some e
unfolding run
run-keeps key e [] g h q = q
run-keeps key e ((now, r) ∷ rs) g h q =
    run-keeps key e rs (require_idempotency now r g).0 h.1 (require-keeps key e now h.0 r g q)

-- What the first use of a key binds it to.
abbrev pub binding : ℕ → KeyedRequest → Seen
binding now r = record { key = store_key r; body_hash = r.body_hash; expires = now + key_ttl }

first-binds :
    (now : ℕ) (r : KeyedRequest) (g : Guard)
    → IsKeyed r
    → find_seen (store_key r) g.seen ≡ none
    → (find_seen (store_key r) (require_idempotency now r g).0.seen ≡ some (binding now r))
      × ((require_idempotency now r g).1 ≡ passed_on)
unfolding bind_key
first-binds now r g h q =
    rw (keyed-request now r g h, sweep_seen-none (store_key r) now g q)
      (find_seen-put_seen (binding now r) (sweep_seen now g).seen, refl)

-- The first request with a key is passed on. For 24 hours after it, whatever other requests come
-- in between, a request of the same user to the same path with the same key is passed on where its
-- body hashes to the same text, and is answered with a conflict where it does not.
pub key_stays_bound :
    (start later : ℕ) (first again : KeyedRequest) (rs : List (ℕ × KeyedRequest)) (g : Guard)
    → IsKeyed first
    → IsKeyed again
    → store_key again ≡ store_key first
    → find_seen (store_key first) g.seen ≡ none
    → All (λ p. p.0 < start + key_ttl) rs
    → later < start + key_ttl
    → ((require_idempotency start first g).1 ≡ passed_on)
      × ((require_idempotency later again (run rs (require_idempotency start first g).0)).1
          ≡ (if not (str_eq first.body_hash again.body_hash) then key_conflict else passed_on))
key_stays_bound start later first again rs g h k same q before live =
    let e = binding start first in
    let key = store_key first in
    let opened = first-binds start first g h q in
    let g1 = run rs (require_idempotency start first g).0 in
    let kept = run-keeps key e rs (require_idempotency start first g).0 before opened.0 in
    (
      opened.1,
      rw (keyed-request later again g1 k, same, sweep_seen-live key later e g1 kept live)
          (ap (λ o. o.1) (bind_key-own key e later live again.body_hash (sweep_seen later g1))),
    )
