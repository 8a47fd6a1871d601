-- ===== src/SimBinding.antt =====
-- The binding of a user to a SIM card, of backend/internal/domain/security/sim_binding.go. The clock
-- and the random draws are arguments; the keyed hash of a card number is a parameter.
pub mod Lifecycle
use hybrid_quantum_banking_b.Base.{
  ℕ, ◌+◌, String, str_eq, Bool, true, false, not, ◌||◌, Option, none, some, ltb, if◌then◌else◌,
}
use hybrid_quantum_banking_b.Base.Maps.{put}

-- `SIMBindingRecord`
pub record Binding : Type 0 where
  pub user_id : String
  pub mobile_number : String
  pub device_id : String
  pub sim_hash : String
  pub ubt : String
  pub verified : Bool
  pub verified_at : ℕ
  pub created_at : ℕ
  pub last_checked_at : ℕ
  pub revoked_at : Option ℕ

-- `SIMBindingChallenge`
pub record Challenge : Type 0 where
  pub challenge_id : String
  pub user_id : String
  pub mobile_number : String
  pub device_id : String
  pub vnn_code : String
  pub created_at : ℕ
  pub expires_at : ℕ
  pub verified : Bool

-- `SIMBindingManager`
pub record SimManager : Type 0 where
  pub bindings : String → Option Binding
  pub challenges : String → Option Challenge

pub data SimError : Type 0 where
  fields_missing challenge_not_found already_used challenge_expired : SimError
  code_mismatch no_binding revoked ubt_mismatch sim_mismatch : SimError

-- `simBindingChallengeTTL`, 10 minutes in nanoseconds.
abbrev pub challenge_ttl : ℕ
challenge_ttl = 600000000000

-- One round of the loop of `pruneExpiredChallengesLocked`.
abbrev pub keep_live : ℕ → Option Challenge → Option Challenge
keep_live now none = none
keep_live now (some c) = if ltb c.expires_at now then none else some c

-- `pruneExpiredChallengesLocked`
unfoldable pub prune_challenges : ℕ → SimManager → SimManager
prune_challenges now m = record m { challenges = λ id. keep_live now (m.challenges id) }

-- `CreateBindingChallenge`, with the id and the code drawn.
unfoldable pub create_challenge :
    ℕ → String → String → String → String → String → SimManager → SimManager × Option SimError
unfolding prune_challenges
create_challenge now id code user mobile device m =
    if str_eq user "" || str_eq mobile ""
    then (m, some fields_missing)
    else let ch : Challenge = record {
      challenge_id = id;
      user_id = user;
      mobile_number = mobile;
      device_id = device;
      vnn_code = code;
      created_at = now;
      expires_at = now + challenge_ttl;
      verified = false;
    } in
      let m' = prune_challenges now m in
      (record m' { challenges = put m'.challenges id (some ch) }, none)

-- The binding that a challenge ends in.
abbrev pub new_binding : ℕ → String → String → Challenge → Binding
new_binding now sim_hash ubt ch = record {
  user_id = ch.user_id;
  mobile_number = ch.mobile_number;
  device_id = ch.device_id;
  sim_hash = sim_hash;
  ubt = ubt;
  verified = true;
  verified_at = now;
  created_at = now;
  last_checked_at = now;
  revoked_at = none;
}

-- `VerifyBindingChallenge` on the challenge that was found, with the token drawn.
unfoldable pub verify_found :
    (String → String)
    → ℕ
    → String
    → String
    → String
    → String
    → Option Challenge
    → SimManager
    → SimManager × Option SimError
verify_found hash now ubt id code iccid none m = (m, some challenge_not_found)
verify_found hash now ubt id code iccid (some ch) m =
    if ch.verified
    then (m, some already_used)
    else if ltb ch.expires_at now
    then (record m { challenges = put m.challenges id none }, some challenge_expired)
    else if not (str_eq code ch.vnn_code)
    then (m, some code_mismatch)
    else (
      record m {
        bindings = put m.bindings ch.user_id (some (new_binding now (hash iccid) ubt ch));
        challenges = put m.challenges id none;
      },
      none,
    )

-- `VerifyBindingChallenge`
unfoldable pub verify_challenge :
    (String → String)
    → ℕ
    → String
    → String
    → String
    → String
    → SimManager
    → SimManager × Option SimError
unfolding verify_found
verify_challenge hash now ubt id code iccid m =
    verify_found hash now ubt id code iccid (m.challenges id) m

-- `VerifyUBT` on the binding of the user: the error, if there is one.
abbrev pub check_ubt : String → Option Binding → Option SimError
check_ubt ubt none = some no_binding
check_ubt ubt (some b) = elim b.revoked_at [
  | some _ ↦ some revoked
  | none ↦ if not (str_eq b.ubt ubt) then some ubt_mismatch else none
]

-- `VerifyUBT`
unfoldable pub verify_ubt : String → String → SimManager → Option SimError
verify_ubt user ubt m = check_ubt ubt (m.bindings user)

abbrev pub reverify_found :
    ℕ → String → String → Option Binding → SimManager → SimManager × Option SimError
reverify_found now user sim_hash none m = (m, some no_binding)
reverify_found now user sim_hash (some b) m =
    if not (str_eq b.sim_hash sim_hash) then (m, some sim_mismatch) else (
      record m { bindings = put m.bindings user (some (record b { last_checked_at = now })) },
      none,
    )

-- `ReverifySIM`
unfoldable pub reverify_sim : ℕ → String → String → SimManager → SimManager × Option SimError
reverify_sim now user sim_hash m = reverify_found now user sim_hash (m.bindings user) m

abbrev pub revoke_found : ℕ → String → Option Binding → SimManager → SimManager × Option SimError
revoke_found now user none m = (m, some no_binding)
revoke_found now user (some b) m = (
  record m { bindings = put m.bindings user (some (record b { revoked_at = some now; ubt = "" })) },
  none,
)

-- `RevokeBinding`
unfoldable pub revoke_binding : ℕ → String → SimManager → SimManager × Option SimError
revoke_binding now user m = revoke_found now user (m.bindings user) m

abbrev pub is_active : Option Binding → Bool
is_active none = false
is_active (some b) = elim b.revoked_at [ none ↦ b.verified | some _ ↦ false ]

-- `IsBound`
unfoldable pub is_bound : String → SimManager → Bool
is_bound user m = is_active (m.bindings user)

abbrev pub is_other_sim : String → Option Binding → Bool
is_other_sim sim_hash none = false
is_other_sim sim_hash (some b) = not (str_eq b.sim_hash sim_hash)

-- `DetectSIMSwap`
unfoldable pub detect_sim_swap : String → String → SimManager → Bool
detect_sim_swap user sim_hash m = is_other_sim sim_hash (m.bindings user)
