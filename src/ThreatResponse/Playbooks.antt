-- ===== src/ThreatResponse/Playbooks.antt =====
-- What responding and counting failed logins do (threat_response.go).
use hybrid_quantum_banking_b.Base.{
  ℕ, zero, suc, ◌≤◌, ◌<◌, ◌≡◌, ◌≢◌, ◌↔◌, refl, String, eq_iff, eq_refl, true, Option, [], ◌∷◌, ◌++◌,
  arith,
}
use hybrid_quantum_banking_b.Base.Int64.{sign_bit}
use hybrid_quantum_banking_b.ThreatResponse.{
  Manager, Response, ThreatType, sim_swap, credential_stuffing, respond_to_threat,
  record_failed_login, reset_failed_logins, stuffing_detected, playbook, escalate, blank,
}

escalate_keeps :
    (threat : ThreatType) (ip : Option String) (m : Manager)
    → ((escalate threat ip m).active_threats ≡ m.active_threats)
      × ((escalate threat ip m).credential_attempts ≡ m.credential_attempts)
unfolding escalate
escalate_keeps credential_stuffing ip m = (refl, refl)
escalate_keeps _ ip m = (refl, refl)

playbook_logs :
    (threat : ThreatType) (r : Response) → (playbook threat r).blockchain_log ≡ r.blockchain_log
unfolding playbook
playbook_logs sim_swap r = refl
playbook_logs _ r = refl

-- A response is recorded last among its user's threats and for nobody else, it asks for
-- a record on the ledger, and the login counters stay.
pub respond_to_threat_records :
    (now : ℕ) (threat : ThreatType) (user other : String) (ip : Option String) (m : Manager)
    → other ≢ user
    → let (m', r) = respond_to_threat now threat user ip m in
      (m'.active_threats user ≡ m.active_threats user ++ r ∷ [])
      × (m'.active_threats other ≡ m.active_threats other)
      × (m'.credential_attempts ≡ m.credential_attempts)
      × (r.blockchain_log ≡ true)
unfolding respond_to_threat
respond_to_threat_records now threat user other ip m h = ground (
  arith,
  eq_refl user,
  eq_iff other user,
  escalate_keeps threat ip m,
  playbook_logs threat (blank threat user now),
)

-- `n` failed logins in a row from one address.
abbrev pub fail_times : ℕ → String → Manager → Manager
fail_times zero ip m = m
fail_times (suc n) ip m = record_failed_login ip (fail_times n ip m)

fail_times_count :
    (n : ℕ) (ip : String) (m : Manager)
    → n < sign_bit
    → (fail_times n ip (reset_failed_logins ip m)).credential_attempts ip ≡ n
unfolding record_failed_login reset_failed_logins
fail_times_count zero ip m h = rw (eq_refl ip)
fail_times_count (suc n) ip m h =
    rw (eq_refl ip) (omega (arith, fail_times_count n ip m (omega arith)))

-- After the counter of an address is reset, credential stuffing is detected from the tenth failed
-- login in a row on and not before.
pub stuffing_after_ten :
    (n : ℕ) (ip : String) (m : Manager)
    → n < sign_bit
    → (stuffing_detected ip (fail_times n ip (reset_failed_logins ip m)) ≡ true) ↔ (10 ≤ n)
unfolding stuffing_detected
stuffing_after_ten n ip m h = ground (arith, fail_times_count n ip m h)
