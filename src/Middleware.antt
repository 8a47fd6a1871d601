-- ===== src/Middleware.antt =====
-- Guards in front of the HTTP handlers (backend/internal/api/middleware). A guard is a step on
-- its own state that says whether the request goes on to the handler; headers, paths and bodies
-- come in as the texts that the guard reads.
pub mod RateLimit
pub mod Replay
pub mod Roles
pub mod Gates
pub mod Bearer
pub mod Access
