-- ===== src/Tests/AccessRuns.antt =====
-- A user's session, with a JWT library that knows one token, and the theorems at it.
use smart_pdf_extractor.Prelude.{
  ℕ, ◌+◌, ◌*◌, ◌≡◌, ◌≢◌, refl, String, Bool, true, Option, none, some, [], ◌∷◌, ◌++◌, arith, Text,
  ltb, if◌then◌else◌, ==_iff, ◌==◌, string_eq, inl, inr,
}
use smart_pdf_extractor.Dict
use smart_pdf_extractor.Access.{
  Payload, User, AuthState, answer, read, role_allows, logout, login, require_permission, scheme,
}
use smart_pdf_extractor.Access.Sessions.{log_out, set_users, apply_all, logout_final, login-granted}

abbrev payload : Payload
payload = record {
  sub = some "u1";
  email = some "v@example.com";
  role = some "viewer";
  tenant_ids = some ("tenant-1" ∷ []);
  jti = some "j1";
  exp = 100 + 1 * 3600;
}

abbrev token : Text
token = b'x' ∷ []

abbrev encode : Payload → Text
encode p = token

abbrev decode : Text → ℕ → Option Payload
decode t now = if ltb now 3700 then some payload else none

abbrev checkpw : String → String → Bool
checkpw password hash = password == hash

abbrev viewer : User
viewer = record {
  id = "u1";
  email = "v@example.com";
  password_hash = "secret";
  role = "viewer";
  is_active = true;
  tenant_ids = "tenant-1" ∷ [];
}

abbrev users : AuthState
users = record { demo_users = ("v@example.com", viewer) ∷ []; revoked_tokens = [] }

abbrev header : Text
header = b'B' ∷ b'e' ∷ b'a' ∷ b'r' ∷ b'e' ∷ b'r' ∷ b' ' ∷ b'x' ∷ []

decode_stable :
    (t : Text) (m n : ℕ) (a b : Payload) → decode t m ≡ some a → decode t n ≡ some b → a ≡ b
decode_stable t m n a b h k = ground (arith, h, k)

logged_out : (logout encode decode checkpw 1 header 300 users).0 ≡ answer true
unfolding logout Dict.lookup
logged_out = refl

logout_final_example :
    require_permission encode decode checkpw 1 read none none header 400 (
      apply_all encode decode checkpw 1
        (log_out header 350 ∷ set_users [] ∷ [])
        (logout encode decode checkpw 1 header 300 users).1)
    ≢ answer payload
logout_final_example =
    logout_final encode decode checkpw 1 header 300 400 users
      (log_out header 350 ∷ set_users [] ∷ []) read none none payload decode_stable logged_out

login-granted_run :
    (login encode decode checkpw 1 "v@example.com" "secret" "j1" 100 users ≡ answer token)
    × (require_permission encode decode checkpw 1 read
          (some "tenant-1")
          none
          (scheme ++ token)
          200
          users
        ≡ answer payload)
unfolding Dict.lookup role_allows
login-granted_run =
    login-granted encode decode checkpw 1 "v@example.com" "secret" "j1" 100 200 users users viewer
      read (some "tenant-1") none (λ t h. ground (arith, h)) (ground arith) refl refl refl
      (ground (arith, ==_iff {K = String} "j1" "")) (omega arith) refl refl (inr (inl refl))
