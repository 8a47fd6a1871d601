-- ===== src/Login.antt =====
-- The PIN login and its sessions: backend/internal/domain/platform/auth_pin.go and, of
-- backend/internal/domain/platform/service.go, `AuthenticateToken` and
-- `invalidateAllSessionsLocked`. The service lock makes each call one step. bcrypt, the CKYC
-- pattern and `strings.EqualFold` are the fields of `Credentials`; the token that a login issues
-- is an argument, and `jwt.RefreshToken` with `jwt.VerifyToken` is a function. The revocation list
-- of signed tokens is left out.
pub mod State
pub mod Pin
pub mod Sessions
pub mod Refresh
pub mod Lockout
pub mod Lifetime
