-- ===== src/Middleware/Bearer.antt =====
-- The check of the bearer token (backend/internal/api/middleware/auth.go, `Auth`). The token is
-- given as it stands after the word `bearer`, `none` where the header is missing or another one.
use hybrid_quantum_banking_b.Base.{
  ◌≡◌, ◌⊎◌, inl, inr, refl, sym, ap, ◌∙◌, String, str_eq, false, Option, none, some, Bool-cases,
  arith, if◌then◌else◌,
}
use hybrid_quantum_banking_b.Base.Text.{trim_space}
use hybrid_quantum_banking_b.Middleware.Roles.{Role, parse_role}

-- What `JWTVerify` answers: the user and the role of the claims, or a code.
pub data JwtAnswer : Type 0 where
  claims : String → String → JwtAnswer
  token_expired device_mismatch token_revoked token_invalid : JwtAnswer

pub data Refusal : Type 0 where
  missing_token expired mismatch withdrawn invalid : Refusal

-- The user and the role in the context of a request that goes on, or the refusal.
pub data Access : Type 0 where
  granted : String → Option Role → Access
  denied : Refusal → Access

abbrev pub fetched : Option (String → String) → String → String
fetched none user = ""
fetched (some fetch) user = fetch user

module _ (to_lower : String → String) (authenticator : String → String → Option String)
    (fetch_role : Option (String → String)) where
  -- The role of the claims, or the fetched one where they name none.
  unfoldable pub role_of_claims : String → String → Role
  role_of_claims user role =
      parse_role to_lower (if str_eq role "" then fetched fetch_role user else role)

  abbrev pub fetched_role : Option (String → String) → String → Option Role
  fetched_role none user = none
  fetched_role (some fetch) user = some (parse_role to_lower (fetch user))

  -- The path of opaque tokens.
  unfoldable pub legacy : Option String → Access
  legacy none = denied invalid
  legacy (some user) =
      if str_eq user "" then denied invalid else granted user (fetched_role fetch_role user)

  unfoldable pub judge : JwtAnswer → String → String → Access
  judge (claims user role) token device = granted user (some (role_of_claims user role))
  judge token_expired token device = denied expired
  judge device_mismatch token device = denied mismatch
  judge token_revoked token device = denied withdrawn
  judge token_invalid token device = legacy (authenticator token device)

  unfoldable pub check_token : Option (String → String → JwtAnswer) → String → String → Access
  check_token none token device = legacy (authenticator token device)
  check_token (some verify) token device = judge (verify token device) token device

  -- `Auth`
  unfoldable pub auth : Option (String → String → JwtAnswer) → Option String → String → Access
  auth verify none device = denied missing_token
  auth verify (some text) device =
      if str_eq (trim_space text) ""
      then denied missing_token
      else check_token verify (trim_space text) (trim_space device)

  -- Who vouches for a user: the claims of the signed token, or the authenticator where the token
  -- is no valid signed one.
  abbrev pub Vouched : (String → String → JwtAnswer) → String → String → String → Type 0
  Vouched verify token device user =
      ((role : String) × (verify token device ≡ claims user role))
      ⊎ ((verify token device ≡ token_invalid)
          × (authenticator token device ≡ some user)
          × (str_eq user "" ≡ false))

  granted-eq : {u v : String} {q r : Option Role} → granted u q ≡ granted v r → u ≡ v
  granted-eq h = cc

  legacy-granted :
      (o : Option String) (user : String) (role : Option Role)
      → legacy o ≡ granted user role
      → (o ≡ some user) × (str_eq user "" ≡ false)
  unfolding legacy
  legacy-granted none user role h = absurd cc
  legacy-granted (some u) user role h = elim (Bool-cases (str_eq u "")) [
    | inl y ↦ absurd (ground (arith, h, y))
    | inr n ↦
        let q = granted-eq (
          sym (ap (λ t. if t then denied invalid else granted u (fetched_role fetch_role u)) n)
          ∙ h) in
        (ap some q, ap (λ x. str_eq x "") (sym q) ∙ n)
  ]

  judge-granted :
      (v : JwtAnswer) (token device user : String) (role : Option Role)
      → judge v token device ≡ granted user role
      → ((r : String) × (v ≡ claims user r))
        ⊎ ((v ≡ token_invalid)
            × (authenticator token device ≡ some user)
            × (str_eq user "" ≡ false))
  unfolding judge
  judge-granted (claims u r) token device user role h = inl (r, ap (λ x. claims x r) (granted-eq h))
  judge-granted token_expired token device user role h = absurd cc
  judge-granted device_mismatch token device user role h = absurd cc
  judge-granted token_revoked token device user role h = absurd cc
  judge-granted token_invalid token device user role h =
      let l = legacy-granted (authenticator token device) user role h in inr (refl, l.0, l.1)

  -- A request goes on as a user only with a token that is not blank and for which either the
  -- verified claims or, for a token that is no valid signed one, the authenticator vouch for
  -- that user and the presented device; an expired, revoked or foreign signed token never falls
  -- back on the authenticator.
  pub auth-Vouched :
      (verify : String → String → JwtAnswer) (text device user : String) (role : Option Role)
      → auth (some verify) (some text) device ≡ granted user role
      → (str_eq (trim_space text) "" ≡ false)
        × Vouched verify (trim_space text) (trim_space device) user
  unfolding auth check_token
  auth-Vouched verify text device user role h = elim (Bool-cases (str_eq (trim_space text) "")) [
    | inl y ↦ absurd (ground (arith, h, y))
    | inr n ↦ (
      n,
      judge-granted (verify (trim_space text) (trim_space device)) (trim_space text)
          (trim_space device) user role
          (sym (
              ap
                (λ t.
                  if t
                  then denied missing_token
                  else judge (verify (trim_space text) (trim_space device)) (trim_space text)
                      (trim_space device))
                n)
            ∙ h),
    )
  ]
