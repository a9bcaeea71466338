-- ===== src/Access.antt =====
-- The access of dashboard users: pdf_ingestion/api/routes/admin_auth.py,
-- pdf_ingestion/api/middleware/rbac.py and pdf_ingestion/api/admin/auth_utils.py. The JWT and
-- bcrypt libraries are parameters; times are seconds, and the clock and new UUIDs are arguments.
use smart_pdf_extractor.Prelude.{
  is_some, get_or, ℕ, ◌+◌, ◌*◌, String, Bool, true, false, not, ◌&&◌, ◌||◌, Option, none, some,
  List, [], ◌∷◌, any, ◌==◌, string_eq, if◌then◌else◌, Text, nat_beq,
}
use smart_pdf_extractor.Dict
use smart_pdf_extractor.Dict.{Dict}
pub mod Permissions
pub mod Sessions

-- A token's claims; None where `payload.get` finds none. Every token made here has an expiry.
pub record Payload : Type 0 where
  pub sub : Option String
  pub email : Option String
  pub role : Option String
  pub tenant_ids : Option (List String)
  pub jti : Option String
  pub exp : ℕ

pub record User : Type 0 where
  pub id : String
  pub email : String
  pub password_hash : String
  pub role : String
  pub is_active : Bool
  pub tenant_ids : List String

-- A revoked token: when it was revoked, and when it expires.
pub record Revocation : Type 0 where
  pub revoked_at : ℕ
  pub expires_at : ℕ

pub record AuthState : Type 0 where
  pub demo_users : Dict String User
  pub revoked_tokens : Dict String Revocation

-- A response, or an HTTPException with its status and detail.
pub data Answer (A : Type 0) : Type 0 where
  answer : A → Answer A
  unauthorized : String → Answer A
  forbidden : String → Answer A

pub data Permission : Type 0 where
  read : Permission
  write : Permission
  admin : Permission

-- `permission in _ROLE_PERMISSIONS.get(role, set())`
unfoldable pub role_allows : String → Permission → Bool
role_allows role read = role == "admin" || role == "operator" || role == "viewer"
role_allows role write = role == "admin" || role == "operator"
role_allows role admin = role == "admin"

-- What stands behind a prefix, if the text starts with it.
abbrev pub behind : Text → Text → Option Text
behind [] s = some s
behind (c ∷ p) [] = none
behind (c ∷ p) (d ∷ s) = let rest = behind p s in if nat_beq c d then rest else none

-- "Bearer "
abbrev pub scheme : Text
scheme = b'B' ∷ b'e' ∷ b'a' ∷ b'r' ∷ b'e' ∷ b'r' ∷ b' ' ∷ []

-- `if not jti`: a claim that is missing or empty.
abbrev pub truthy : Option String → Option String
truthy none = none
truthy (some s) = if s == "" then none else some s

abbrev pub is_revoked : Option String → AuthState → Bool
is_revoked none st = false
is_revoked (some jti) st = is_some (Dict.lookup jti st.revoked_tokens)

-- `path_params.get(name)`, and else `query_params.get(name)`
abbrev pub or_query : Option String → Option String → Option String
or_query none query = query
or_query (some tid) query = some tid

abbrev pub bad_header : String
bad_header = "Invalid authorization header format. Expected 'Bearer <token>'"

abbrev pub logout_token : Option String → Payload → ℕ → AuthState → Answer Bool × AuthState
logout_token none p now st = (unauthorized "Invalid token: missing jti", st)
logout_token (some jti) p now st =
    if is_revoked (some jti) st then (unauthorized "Token already revoked", st) else (
      answer true,
      record st {
        revoked_tokens =
            Dict.put jti (record { revoked_at = now; expires_at = p.exp }) st.revoked_tokens;
      },
    )

abbrev pub logout_payload : Option Payload → ℕ → AuthState → Answer Bool × AuthState
logout_payload none now st = (unauthorized "Invalid token", st)
logout_payload (some p) now st = logout_token (truthy p.jti) p now st

-- The tenant of the request, where the route names one and the request has it.
abbrev pub check_tenant : Option String → Payload → Answer Payload
check_tenant none p = answer p
check_tenant (some tid) p =
    if get_or p.role "" == "admin"
    then answer p
    else if any (λ t. t == tid) (get_or p.tenant_ids [])
    then answer p
    else forbidden "Access denied for tenant"

abbrev pub check_payload : Permission → Option String → Option Payload → AuthState → Answer Payload
check_payload permission tid none st = unauthorized "Invalid or expired token"
check_payload permission tid (some p) st =
    if is_revoked (truthy p.jti) st
    then unauthorized "Token has been revoked"
    else if not (role_allows (get_or p.role "") permission)
    then forbidden "Insufficient permissions"
    else check_tenant tid p

module _ (jwt_encode : Payload → Text) (jwt_decode : Text → ℕ → Option Payload)
    (checkpw : String → String → Bool) (jwt_expiration_hours : ℕ) where
  abbrev pub claims :
      Option String → Option String → Option String → Option (List String) → String → ℕ → Payload
  claims sub email role tenant_ids uuid now = record {
    sub = sub;
    email = email;
    role = role;
    tenant_ids = tenant_ids;
    jti = some uuid;
    exp = now + jwt_expiration_hours * 3600;
  }

  -- `create_access_token`, without the time of issue
  unfoldable pub create_access_token :
      Option String → Option String → Option String → List String → String → ℕ → Text
  create_access_token sub email role tenant_ids uuid now =
      jwt_encode (claims sub email role (some tenant_ids) uuid now)

  abbrev pub login_user : String → String → ℕ → Option User → Answer Text
  login_user password uuid now none = unauthorized "Invalid email or password"
  login_user password uuid now (some user) =
      if not (checkpw password user.password_hash)
      then unauthorized "Invalid email or password"
      else if not user.is_active
      then unauthorized "Account is inactive"
      else answer (
          create_access_token (some user.id) (some user.email) (some user.role) user.tenant_ids uuid
            now)

  unfoldable pub login : String → String → String → ℕ → AuthState → Answer Text
  login email password uuid now st = login_user password uuid now (Dict.lookup email st.demo_users)

  abbrev pub logout_header : Option Text → ℕ → AuthState → Answer Bool × AuthState
  logout_header none now st = (unauthorized bad_header, st)
  logout_header (some token) now st = logout_payload (jwt_decode token now) now st

  unfoldable pub logout : Text → ℕ → AuthState → Answer Bool × AuthState
  logout authorization now st = logout_header (behind scheme authorization) now st

  abbrev pub refresh_token : Option String → Payload → String → ℕ → AuthState → Answer Text
  refresh_token none p uuid now st = unauthorized "Invalid token: missing jti"
  refresh_token (some jti) p uuid now st =
      if is_revoked (some jti) st
      then unauthorized "Token has been revoked"
      else answer (create_access_token p.sub p.email p.role (get_or p.tenant_ids []) uuid now)

  abbrev pub refresh_payload : Option Payload → String → ℕ → AuthState → Answer Text
  refresh_payload none uuid now st = unauthorized "Invalid or expired token"
  refresh_payload (some p) uuid now st = refresh_token (truthy p.jti) p uuid now st

  abbrev pub refresh_header : Option Text → String → ℕ → AuthState → Answer Text
  refresh_header none uuid now st = unauthorized bad_header
  refresh_header (some token) uuid now st = refresh_payload (jwt_decode token now) uuid now st

  unfoldable pub refresh : Text → String → ℕ → AuthState → Answer Text
  refresh authorization uuid now st = refresh_header (behind scheme authorization) uuid now st

  abbrev pub check_header :
      Permission → Option String → Option Text → ℕ → AuthState → Answer Payload
  check_header permission tid none now st = unauthorized bad_header
  check_header permission tid (some []) now st = unauthorized "Missing token"
  check_header permission tid (some (c ∷ token)) now st =
      check_payload permission tid (jwt_decode (c ∷ token) now) st

  -- The dependency that `require_permission` makes: with the tenant of the path and that of the
  -- query, both None where the route names no tenant.
  unfoldable pub require_permission :
      Permission → Option String → Option String → Text → ℕ → AuthState → Answer Payload
  require_permission permission path query authorization now st =
      check_header permission (or_query path query) (behind scheme authorization) now st
