-- ===== src/Login/Refresh.antt =====
-- The exchange of a signed token for a fresh one (auth_pin.go, `RefreshToken`).
use hybrid_quantum_banking_b.Base.{
  ℕ, ◌+◌, ◌≡◌, refl, String, str_eq, eq_refl, Bool, false, not, ◌&&◌, Option, none, some,
  if◌then◌else◌,
}
use hybrid_quantum_banking_b.Base.Maps.{put}
use hybrid_quantum_banking_b.Base.Text.{trim_space}
use hybrid_quantum_banking_b.Login.State.{
  Auth, LoginProfile, drop_session, open_session, session_life,
}

-- A fresh token with the user and the device of its claims.
pub record Rotated : Type 0 where
  pub token : String
  pub user_id : String
  pub device_fp : String

-- The token manager: it refreshes a token for a device and verifies the result, or refuses.
abbrev pub TokenManager : Type 0
TokenManager = String → String → Option Rotated

pub data RefreshError : Type 0 where
  not_supported token_required device_changed token_refused : RefreshError

pub data RefreshResult : Type 0 where
  refreshed : String → String → RefreshResult
  refresh_refused : RefreshError → RefreshResult

-- The presented device is not the one that the session is bound to.
unfoldable pub is_other_device : String → Option String → Bool
is_other_device presented none = false
is_other_device presented (some stored) = not (str_eq stored "") && not (str_eq presented stored)

abbrev pub with_session : ℕ → String → Option LoginProfile → Option LoginProfile
with_session now token none = none
with_session now token (some p) = some (record p {
  session_token_id = token;
  session_start_time = some now;
  session_expiry = some (now + session_life);
})

unfoldable pub rotate : ℕ → String → Option Rotated → Auth → Auth × RefreshResult
rotate now old none s = (s, refresh_refused token_refused)
rotate now old (some t) s0 =
    let s = open_session now t.token t.user_id t.device_fp (drop_session old s0) in
    (
      record s {
        profiles = put s.profiles t.user_id (with_session now t.token (s.profiles t.user_id));
      },
      refreshed t.user_id t.token,
    )

unfoldable pub refresh_with : TokenManager → ℕ → String → String → Auth → Auth × RefreshResult
refresh_with manager now old presented s =
    if str_eq old ""
    then (s, refresh_refused token_required)
    else if is_other_device presented (s.session_device old)
    then (s, refresh_refused device_changed)
    else rotate now old (manager old presented) s

-- `RefreshToken`; no manager stands for `nil`.
unfoldable pub refresh_token :
    Option TokenManager → ℕ → String → String → Auth → Auth × RefreshResult
refresh_token none now old device s = (s, refresh_refused not_supported)
refresh_token (some manager) now old device s =
    refresh_with manager now (trim_space old) (trim_space device) s

-- A session that is bound to another device is not refreshed, and nothing changes.
pub refresh_needs_device :
    (manager : TokenManager) (now : ℕ) (old device bound : String) (s : Auth)
    → str_eq (trim_space old) "" ≡ false
    → s.session_device (trim_space old) ≡ some bound
    → str_eq bound "" ≡ false
    → str_eq (trim_space device) bound ≡ false
    → refresh_token (some manager) now old device s ≡ (s, refresh_refused device_changed)
unfolding refresh_token refresh_with is_other_device
refresh_needs_device manager now old device bound s a b c d = rw (a, b, c, d) refl

-- Where the session has no device any more, what the manager answers decides alone, for every
-- device.
pub refresh_without_device :
    (manager : TokenManager) (now : ℕ) (old device : String) (s : Auth)
    → str_eq (trim_space old) "" ≡ false
    → s.session_device (trim_space old) ≡ none
    → refresh_token (some manager) now old device s
      ≡ rotate now (trim_space old) (manager (trim_space old) (trim_space device)) s
unfolding refresh_token refresh_with is_other_device
refresh_without_device manager now old device s a b = rw (a, b) refl

-- A refresh takes the old token out of the sessions and opens one for the new token.
pub rotate-sessions :
    (now : ℕ) (old : String) (t : Rotated) (s : Auth)
    → str_eq old t.token ≡ false
    → ((rotate now old (some t) s).0.sessions old ≡ none)
      × ((rotate now old (some t) s).0.sessions t.token ≡ some t.user_id)
      × ((rotate now old (some t) s).0.session_device t.token ≡ some t.device_fp)
unfolding rotate open_session drop_session
rotate-sessions now old t s n =
    (rw (n, eq_refl old) refl, rw (eq_refl t.token) refl, rw (eq_refl t.token) refl)
