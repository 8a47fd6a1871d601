-- ===== src/Login/State.antt =====
-- The state behind the login (service.go, `Service`, `AuthProfile`) and the store of sessions
-- (backend/internal/domain/platform/oauth_redis_telemetry.go, `InMemorySessionStore`).
use hybrid_quantum_banking_b.Base.{
  ℕ, ◌+◌, String, Bool, List, [], ◌∷◌, ◌++◌, Option, none, some, ltb, if◌then◌else◌,
}
use hybrid_quantum_banking_b.Base.Maps.{put}

-- The fields of `AuthProfile` that the login reads and writes.
pub record LoginProfile : Type 0 where
  pub password_hash : String
  pub failed_login_count : ℕ
  pub pin_locked_until : Option ℕ
  pub last_login_time : Option ℕ
  pub session_token_id : String
  pub session_start_time : Option ℕ
  pub session_expiry : Option ℕ
  pub device_id_fingerprint : String
  pub step_up_auth_required : Bool

-- `inMemoryEntry`
pub record Stored : Type 0 where
  pub value : String
  pub expires : ℕ

-- An audit event: its user, type and outcome.
pub record Audited : Type 0 where
  pub user_id : String
  pub event_type : String
  pub outcome : String

pub record Auth : Type 0 where
  pub is_user : String → Bool
  pub ckyc_index : String → Option String
  pub mobile_index : String → Option String
  pub profiles : String → Option LoginProfile
  pub sessions : String → Option String
  pub session_start : String → Option ℕ
  pub session_expiry : String → Option ℕ
  pub session_device : String → Option String
  -- The session store under `"session:" + token`, `"session_device:" + token` and
  -- `"session_expiry:" + token`: the prefixes keep the keys apart.
  pub stored_user : String → Option Stored
  pub stored_device : String → Option Stored
  pub stored_expiry : String → Option Stored
  pub audit : List Audited

-- `golang.org/x/crypto/bcrypt`, the pattern of a CKYC number, `len` of a text, and
-- `strings.EqualFold`.
pub record Credentials : Type 0 where
  pub verify_pin : String → String → Bool
  pub generate_hash : String → Option String
  pub is_ckyc : String → Bool
  pub byte_length : String → ℕ
  pub equal_fold : String → String → Bool

-- 15 minutes in nanoseconds.
abbrev pub session_life : ℕ
session_life = 900000000000

-- `InMemorySessionStore.Set`
abbrev pub entry_of : ℕ → String → Option Stored
entry_of now value = some (record { value = value; expires = now + session_life })

-- `InMemorySessionStore.Get`; `none` stands for the error.
unfoldable pub store_get : ℕ → Option Stored → Option String
store_get now none = none
store_get now (some entry) = if ltb entry.expires now then none else some entry.value

unfoldable pub add_audit : String → String → String → Auth → Auth
add_audit user event_type outcome s = record s {
  audit = s.audit ++ record { user_id = user; event_type = event_type; outcome = outcome } ∷ [];
}

-- The `delete` calls on the four maps of sessions.
unfoldable pub drop_session : String → Auth → Auth
drop_session token s = record s {
  sessions = put s.sessions token none;
  session_start = put s.session_start token none;
  session_expiry = put s.session_expiry token none;
  session_device = put s.session_device token none;
}

-- `s.sessions[token] = …`, the three maps beside it and the two entries of the store.
unfoldable pub open_session : ℕ → String → String → String → Auth → Auth
open_session now token user device s = record s {
  sessions = put s.sessions token (some user);
  session_start = put s.session_start token (some now);
  session_expiry = put s.session_expiry token (some (now + session_life));
  session_device = put s.session_device token (some device);
  stored_user = put s.stored_user token (entry_of now user);
  stored_device = put s.stored_device token (entry_of now device);
}
