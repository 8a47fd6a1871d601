-- ===== src/SimBinding/Lifecycle.antt =====
-- A binding from its challenge to its revocation (sim_binding.go).
use hybrid_quantum_banking_b.Base.{
  ℕ, ◌≡◌, refl, sym, subst, ap, ◌∙◌, String, eq_iff, eq_refl, true, false, Option, none, some, ltb,
  arith,
}
use hybrid_quantum_banking_b.Base.Maps.{put, put_self}
use hybrid_quantum_banking_b.SimBinding.{
  SimManager, Challenge, Binding, challenge_not_found, verify_challenge, verify_found, verify_ubt,
  is_bound, new_binding, revoke_binding, revoke_found, reverify_sim, reverify_found,
  detect_sim_swap, revoked,
}

-- The challenge was made, is not used, not expired, and has that code.
pub record IsOpen (now : ℕ) (id code : String) (ch : Challenge) (m : SimManager) : Type 0 where
  pub found : m.challenges id ≡ some ch
  pub unused : ch.verified ≡ false
  pub live : ltb ch.expires_at now ≡ false
  pub right : code ≡ ch.vnn_code

found_opens :
    (hash : String → String) (now : ℕ) (ubt id code iccid : String) (o : Option Challenge)
    (m : SimManager)
    → m.challenges id ≡ o
    → (verify_found hash now ubt id code iccid o m).1 ≡ none
    → (ch : Challenge) × IsOpen now id code ch m
      × ((verify_found hash now ubt id code iccid o m).0 ≡ record m {
        bindings = put m.bindings ch.user_id (some (new_binding now (hash iccid) ubt ch));
        challenges = put m.challenges id none;
      })
unfolding verify_found
found_opens hash now ubt id code iccid none m f h = absurd (ground (arith, h))
found_opens hash now ubt id code iccid (some ch) m f h = (
  ch,
  record {
    found = f;
    unused = ground (arith, h);
    live = ground (arith, h);
    right = ground (arith, h, eq_iff code ch.vnn_code);
  },
  ground (arith, h),
)

challenge_used :
    (hash : String → String) (later : ℕ) (ubt id code iccid : String) (m : SimManager)
    → m.challenges id ≡ none
    → verify_challenge hash later ubt id code iccid m ≡ (m, some challenge_not_found)
unfolding verify_challenge verify_found
challenge_used hash later ubt id code iccid m h =
    ap (λ o. verify_found hash later ubt id code iccid o m) h

-- A verified challenge was open and its code was given. Its user, and not who asks, is bound from
-- then on: the new token and the same card are accepted, and the challenge cannot be used again.
pub verify_challenge_binds :
    (hash : String → String) (now : ℕ) (ubt id code iccid : String) (m : SimManager)
    → (verify_challenge hash now ubt id code iccid m).1 ≡ none
    → let m' = (verify_challenge hash now ubt id code iccid m).0 in
      (ch : Challenge) × IsOpen now id code ch m
      × (is_bound ch.user_id m' ≡ true)
      × (verify_ubt ch.user_id ubt m' ≡ none)
      × (detect_sim_swap ch.user_id (hash iccid) m' ≡ false)
      × ((later : ℕ) (ubt' code' iccid' : String)
          → verify_challenge hash later ubt' id code' iccid' m' ≡ (m', some challenge_not_found))
unfolding verify_challenge is_bound verify_ubt detect_sim_swap
verify_challenge_binds hash now ubt id code iccid m h =
    let m' = (verify_challenge hash now ubt id code iccid m).0 in
    let f = found_opens hash now ubt id code iccid (m.challenges id) m refl h in
    let b = some (new_binding now (hash iccid) ubt f.0) in
    let k : m'.bindings f.0.user_id ≡ b =
      ap (λ n. n.bindings f.0.user_id) f.2 ∙ put_self m.bindings f.0.user_id b in
    (
      f.0,
      f.1,
      rw k refl,
      rw (k, eq_refl ubt) refl,
      rw (k, eq_refl (hash iccid)) refl,
      λ later ubt' code' iccid'.
          challenge_used hash later ubt' id code' iccid' m'
            (ap (λ n. n.challenges id) f.2 ∙ put_self m.challenges id none),
    )

revoke_found_lem :
    (now : ℕ) (user : String) (o : Option Binding) (m : SimManager)
    → (revoke_found now user o m).1 ≡ none
    → (b : Binding) × ((revoke_found now user o m).0.bindings user
        ≡ some (record b { revoked_at = some now; ubt = "" }))
revoke_found_lem now user none m h = absurd (ground (arith, h))
revoke_found_lem now user (some b) m h =
    (b, put_self m.bindings user (some (record b { revoked_at = some now; ubt = "" })))

reverify_found_lem :
    (later t : ℕ) (user ubt sim_hash : String) (b : Binding) (m : SimManager)
    → m.bindings user ≡ some b
    → b.revoked_at ≡ some t
    → let m' = (reverify_found later user sim_hash (some b) m).0 in
      (verify_ubt user ubt m' ≡ some revoked) × (is_bound user m' ≡ false)
unfolding verify_ubt is_bound
reverify_found_lem later t user ubt sim_hash b m f r = ground (arith, f, r, eq_refl user)

-- After a revocation no token is accepted and the user is not bound, whatever card is checked in
-- between.
pub revoked_stays_out :
    (now later : ℕ) (user ubt sim_hash : String) (m : SimManager)
    → (revoke_binding now user m).1 ≡ none
    → let m' = (reverify_sim later user sim_hash (revoke_binding now user m).0).0 in
      (verify_ubt user ubt m' ≡ some revoked) × (is_bound user m' ≡ false)
unfolding revoke_binding reverify_sim
revoked_stays_out now later user ubt sim_hash m h =
    let r = revoke_found_lem now user (m.bindings user) m h in
    let t = (revoke_binding now user m).0 in
    let b = record r.0 { revoked_at = some now; ubt = "" } in
    subst
      (λ o.
        let m' = (reverify_found later user sim_hash o t).0 in
        (verify_ubt user ubt m' ≡ some revoked) × (is_bound user m' ≡ false))
      (sym r.1) (reverify_found_lem later now user ubt sim_hash b t r.1 refl)
