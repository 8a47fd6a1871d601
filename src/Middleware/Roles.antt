-- ===== src/Middleware/Roles.antt =====
-- Roles (backend/internal/api/middleware/rbac.go).
pub mod Levels
use hybrid_quantum_banking_b.Base.{
  ℕ, leb, ◌==◌, String, str_eq, Bool, true, false, ◌||◌, List, [], ◌∷◌, Option, none, some, select,
  if◌then◌else◌,
}
use hybrid_quantum_banking_b.Base.Text.{trim_space}

-- `Role`
pub data Role : Type 0 where
  customer agent compliance_officer admin auditor : Role

-- `roleHierarchy`
unfoldable pub level_of : Role → ℕ
level_of customer = 1
level_of agent = 2
level_of compliance_officer = 3
level_of admin = 4
level_of auditor = 4

-- The number of a role among the constants, for the comparison of two roles.
abbrev pub index_of : Role → ℕ
index_of customer = 0
index_of agent = 1
index_of compliance_officer = 2
index_of admin = 3
index_of auditor = 4

-- `role == allowed`
abbrev pub role_eq : Role → Role → Bool
role_eq a b = index_of a == index_of b

abbrev pub all_roles : List Role
all_roles = customer ∷ agent ∷ compliance_officer ∷ admin ∷ auditor ∷ []

-- `RoleFunc`; the order of the map does not matter to its caller.
unfoldable pub role_func : Role → List Role
role_func min_role = select (λ r. leb (level_of min_role) (level_of r)) all_roles

-- The loop of `RequireRole`.
unfoldable pub is_allowed : Role → List Role → Bool
is_allowed role [] = false
is_allowed role (allowed ∷ roles) = role_eq role allowed || is_allowed role roles

-- `RequireRole`: without a role in the context no request passes.
unfoldable pub require_role : List Role → Option Role → Bool
require_role allowed none = false
require_role allowed (some role) = is_allowed role allowed

-- `RequireMinRole`
unfoldable pub require_min_role : Role → Option Role → Bool
require_min_role min_role = require_role (role_func min_role)

-- `ParseRole`, with `strings.ToLower`.
unfoldable pub parse_role : (String → String) → String → Role
parse_role to_lower text =
    let s = to_lower (trim_space text) in
    if str_eq s "agent"
    then agent
    else if str_eq s "compliance_officer" || str_eq s "compliance"
    then compliance_officer
    else if str_eq s "admin"
    then admin
    else if str_eq s "auditor"
    then auditor
    else customer
