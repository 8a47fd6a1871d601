-- ===== src/Middleware/Roles/Levels.antt =====
-- Who passes a guard on a minimal role (rbac.go, `RequireMinRole`).
use hybrid_quantum_banking_b.Base.{◌≡◌, refl, leb, Bool, false, none, some, select, arith}
use hybrid_quantum_banking_b.Middleware.Roles.{
  Role, customer, agent, compliance_officer, admin, auditor, level_of, all_roles, role_func,
  is_allowed, require_role, require_min_role,
}

is_allowed-select : (p : Role → Bool) (role : Role) → is_allowed role (select p all_roles) ≡ p role
unfolding is_allowed
is_allowed-select p customer = ground arith
is_allowed-select p agent = ground arith
is_allowed-select p compliance_officer = ground arith
is_allowed-select p admin = ground arith
is_allowed-select p auditor = ground arith

-- A guard on a minimal role passes exactly the requests with a role of at least its level, and
-- none without a role.
pub require_min_role-level :
    (min_role role : Role)
    → (require_min_role min_role (some role) ≡ leb (level_of min_role) (level_of role))
      × (require_min_role min_role none ≡ false)
unfolding require_min_role require_role role_func
require_min_role-level min_role role =
    (is_allowed-select (λ r. leb (level_of min_role) (level_of r)) role, refl)
