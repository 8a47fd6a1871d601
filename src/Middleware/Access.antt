-- ===== src/Middleware/Access.antt =====
-- Requests with the tokens of the PIN login (backend/internal/api/middleware/auth.go with
-- `AuthenticateToken` and `SetPIN`).
use hybrid_quantum_banking_b.Base.{ℕ, ◌≡◌, refl, String, str_eq, false, Option, none, some}
use hybrid_quantum_banking_b.Base.Text.{trim_space}
use hybrid_quantum_banking_b.Login.State.{Auth, Credentials}
use hybrid_quantum_banking_b.Login.Sessions.{authenticate_token, set_pin}
use hybrid_quantum_banking_b.Login.Lifetime.{ended_session}
use hybrid_quantum_banking_b.Middleware.Bearer.{
  JwtAnswer, token_invalid, denied, invalid, auth, check_token, judge, legacy,
}

-- The authenticator of the server, in a state of the login.
abbrev pub server_authenticator :
    (String → Option ℕ) → ℕ → ℕ → Auth → String → String → Option String
server_authenticator parse now later s token device =
    (authenticate_token parse now later token device s).1

-- After a user has set a PIN, no request that bears an opaque token of the user's sessions of
-- before goes on, whatever device it names and whenever it comes.
pub old_token_denied :
    (to_lower : String → String) (fetch_role : Option (String → String))
    (verify : String → String → JwtAnswer) (cr : Credentials) (parse : String → Option ℕ)
    (now later : ℕ) (user pin text device : String) (s : Auth)
    → (set_pin cr user pin s).1 ≡ none
    → s.sessions (trim_space text) ≡ some user
    → str_eq (trim_space text) "" ≡ false
    → verify (trim_space text) (trim_space device) ≡ token_invalid
    → auth to_lower
        (server_authenticator parse now later (set_pin cr user pin s).0)
        fetch_role
        (some verify)
        (some text)
        device
      ≡ denied invalid
unfolding auth check_token judge legacy
old_token_denied to_lower fetch_role verify cr parse now later user pin text device s ok a n v =
    rw
      (n, v, ended_session cr parse now later user pin (trim_space text) (trim_space device) s ok a)
      refl
