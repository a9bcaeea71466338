-- ===== src/Access/Sessions.antt =====
-- From login to logout: pdf_ingestion/api/routes/admin_auth.py with
-- pdf_ingestion/api/middleware/rbac.py.
use smart_pdf_extractor.Prelude.{
  get_or, is_some, ℕ, ◌+◌, ◌*◌, ◌<◌, ◌≡◌, ◌≢◌, inl, inr, refl, ap, ◌∙◌, subst, Bool, true, false,
  String, Option, none, some, List, [], ◌∷◌, ◌++◌, arith, ==_iff, string_eq, Text, Option-cases,
}
use smart_pdf_extractor.Dict
use smart_pdf_extractor.Dict.{Dict, lookup-put, lookup-put_same}
use smart_pdf_extractor.Access.{
  Payload, User, AuthState, answer, Permission, role_allows, behind, scheme, is_revoked, truthy,
  or_query, Revocation, logout, logout_payload, logout_token, require_permission, login,
  create_access_token, claims, check_header, check_payload,
}
use smart_pdf_extractor.Access.Permissions.{
  require_permission-Granted, IsAssigned, check_tenant-answers,
}

-- What may happen to the state after a logout: other logouts, and any change of the users.
pub data Change : Type 0 where
  log_out : Text → ℕ → Change
  set_users : Dict String User → Change

put_kept :
    (jti j : String) (r : Revocation) (d : Dict String Revocation)
    → is_some (Dict.lookup jti d) ≡ true
    → is_some (Dict.lookup jti (Dict.put j r d)) ≡ true
put_kept jti j r d h = ground (arith, h, lookup-put j jti r d)

logout_token-kept :
    (jti : String) (j : Option String) (p : Payload) (now : ℕ) (st : AuthState)
    → is_revoked (some jti) st ≡ true
    → is_revoked (some jti) (logout_token j p now st).1 ≡ true
logout_token-kept jti none p now st h = h
logout_token-kept jti (some j) p now st h =
    ground
      (arith, h, put_kept jti j (record { revoked_at = now; expires_at = p.exp }) st.revoked_tokens)

logout_payload-kept :
    (jti : String) (o : Option Payload) (now : ℕ) (st : AuthState)
    → is_revoked (some jti) st ≡ true
    → is_revoked (some jti) (logout_payload o now st).1 ≡ true
logout_payload-kept jti none now st h = h
logout_payload-kept jti (some p) now st h = logout_token-kept jti (truthy p.jti) p now st h

logout_token-revokes :
    (jti : String) (p : Payload) (now : ℕ) (st : AuthState)
    → (logout_token (some jti) p now st).0 ≡ answer true
    → is_revoked (some jti) (logout_token (some jti) p now st).1 ≡ true
logout_token-revokes jti p now st h = ground (
  arith,
  h,
  lookup-put_same jti (record { revoked_at = now; expires_at = p.exp }) st.revoked_tokens,
)

-- What a logout that succeeded leaves: the claim by which its token is revoked.
record LoggedOut (jwt_decode : Text → ℕ → Option Payload) (authorization : Text) (now : ℕ)
    (after : AuthState) : Type 0 where
  token : Text
  payload : Payload
  jti : String
  bears : behind scheme authorization ≡ some token
  decoded : jwt_decode token now ≡ some payload
  claimed : truthy payload.jti ≡ some jti
  revoked : is_revoked (some jti) after ≡ true

truthy_named : (s : String) → s ≢ "" → truthy (some s) ≡ some s
truthy_named s h = ground (arith, h, ==_iff s "")

check_payload-answers :
    (permission : Permission) (tid : Option String) (p : Payload) (st : AuthState) (jti : String)
    → truthy p.jti ≡ some jti
    → is_revoked (some jti) st ≡ false
    → role_allows (get_or p.role "") permission ≡ true
    → IsAssigned tid p
    → check_payload permission tid (some p) st ≡ answer p
check_payload-answers permission tid p st jti c f a i =
    simp (c, f, a) (check_tenant-answers tid p i)

module _ (jwt_encode : Payload → Text) (jwt_decode : Text → ℕ → Option Payload)
    (checkpw : String → String → Bool) (hours : ℕ) where
  abbrev pub apply : Change → AuthState → AuthState
  apply (log_out authorization now) st =
      (logout jwt_encode jwt_decode checkpw hours authorization now st).1
  apply (set_users users) st = record st { demo_users = users }

  abbrev pub apply_all : List Change → AuthState → AuthState
  apply_all [] st = st
  apply_all (c ∷ changes) st = apply_all changes (apply c st)

  apply-kept :
      (jti : String) (c : Change) (st : AuthState)
      → is_revoked (some jti) st ≡ true
      → is_revoked (some jti) (apply c st) ≡ true
  unfolding logout
  apply-kept jti (set_users users) st h = h
  apply-kept jti (log_out authorization now) st h =
      elim (Option-cases (behind scheme authorization)) [
        | inl e ↦ simp e h
        | inr (token, e) ↦ simp e (logout_payload-kept jti (jwt_decode token now) now st h)
      ]

  apply_all-kept :
      (jti : String) (changes : List Change) (st : AuthState)
      → is_revoked (some jti) st ≡ true
      → is_revoked (some jti) (apply_all changes st) ≡ true
  apply_all-kept jti [] st h = h
  apply_all-kept jti (c ∷ changes) st h =
      apply_all-kept jti changes (apply c st) (apply-kept jti c st h)

  logout-LoggedOut :
      (authorization : Text) (now : ℕ) (st : AuthState)
      → (logout jwt_encode jwt_decode checkpw hours authorization now st).0 ≡ answer true
      → LoggedOut jwt_decode authorization now
          (logout jwt_encode jwt_decode checkpw hours authorization now st).1
  unfolding logout
  logout-LoggedOut authorization now st h = elim (Option-cases (behind scheme authorization)) [
    | inl e ↦ absurd (ground (arith, h, e))
    | inr (token, b) ↦ elim (Option-cases (jwt_decode token now)) [
      | inl e ↦ absurd (ground (arith, h, b, e))
      | inr (p, d) ↦ elim (Option-cases (truthy p.jti)) [
        | inl e ↦ absurd (ground (arith, h, b, d, e))
        | inr (jti, c) ↦ record {
          token = token;
          payload = p;
          jti = jti;
          bears = b;
          decoded = d;
          claimed = c;
          revoked = simp (b, d, c) (logout_token-revokes jti p now st (simp (b, d, c) at h));
        }
      ]
    ]
  ]

  -- A logout is final: if the library never decodes one token to two payloads, then after a logout
  -- that succeeded no request with the same header is let in, for any permission and tenant, at any
  -- time, whatever logouts and changes of the users came in between.
  pub logout_final :
      (authorization : Text) (now later : ℕ) (st : AuthState) (changes : List Change)
      (permission : Permission) (path query : Option String) (p : Payload)
      → ((token : Text) (t u : ℕ) (a b : Payload)
          → jwt_decode token t ≡ some a
          → jwt_decode token u ≡ some b
          → a ≡ b)
      → (logout jwt_encode jwt_decode checkpw hours authorization now st).0 ≡ answer true
      → let after =
          apply_all changes (logout jwt_encode jwt_decode checkpw hours authorization now st).1 in
        require_permission jwt_encode jwt_decode checkpw hours permission path query authorization
          later after
        ≢ answer p
  logout_final authorization now later st changes permission path query p stable h granted =
      let left = (logout jwt_encode jwt_decode checkpw hours authorization now st).1 in
      let out = logout-LoggedOut authorization now st h in
      let grant =
        require_permission-Granted jwt_encode jwt_decode checkpw hours permission path query
          authorization later (apply_all changes left) p granted in
      let token : out.token ≡ grant.token = ground (arith, out.bears, grant.bears) in
      let same : out.payload ≡ p =
        stable grant.token now later out.payload p
          (subst (λ t. jwt_decode t now ≡ some out.payload) token out.decoded) grant.decoded in
      let claimed : truthy p.jti ≡ some out.jti =
        subst (λ (q : Payload). truthy q.jti ≡ some out.jti) same out.claimed in
      let kept = apply_all-kept out.jti changes left out.revoked in
      let fresh : is_revoked (some out.jti) (apply_all changes left) ≡ false =
        subst (λ j. is_revoked j (apply_all changes left) ≡ false) claimed grant.not_revoked in
      ground (arith, kept, fresh)

  check_header-payload :
      (permission : Permission) (tid : Option String) (token : Text) (now : ℕ) (st : AuthState)
      → token ≢ []
      → check_header jwt_encode jwt_decode checkpw hours permission tid (some token) now st
        ≡ check_payload permission tid (jwt_decode token now) st
  check_header-payload permission tid [] now st h = absurd (h refl)
  check_header-payload permission tid (c ∷ token) now st h = refl

  -- The token of a login is good until it expires: if the library makes a token that is not
  -- empty and decodes it to what it encoded as long as it has not expired, then a user who logged in is let in to
  -- whatever the role allows, for any tenant that the user is assigned to, or for any tenant as an
  -- administrator, unless the new identifier of the token has been revoked.
  pub login-granted :
      (email password uuid : String) (now later : ℕ) (st after : AuthState) (user : User)
      (permission : Permission) (path query : Option String)
      → let p =
          claims jwt_encode jwt_decode checkpw hours
            (some user.id)
            (some user.email)
            (some user.role)
            (some user.tenant_ids)
            uuid
            now in
        ((t : ℕ) → t < p.exp → jwt_decode (jwt_encode p) t ≡ some p)
        → jwt_encode p ≢ []
        → Dict.lookup email st.demo_users ≡ some user
        → checkpw password user.password_hash ≡ true
        → user.is_active ≡ true
        → uuid ≢ ""
        → later < now + hours * 3600
        → is_revoked (some uuid) after ≡ false
        → role_allows user.role permission ≡ true
        → IsAssigned (or_query path query) p
        → (login jwt_encode jwt_decode checkpw hours email password uuid now st
            ≡ answer (jwt_encode p))
          × (require_permission jwt_encode jwt_decode checkpw hours permission path query
                (scheme ++ jwt_encode p)
                later
                after
              ≡ answer p)
  unfolding login create_access_token require_permission
  login-granted email password uuid now later st after user permission path query decodes nonempty
        found good active named alive fresh allowed assigned =
      let p =
        claims jwt_encode jwt_decode checkpw hours (some user.id) (some user.email) (some user.role)
          (some user.tenant_ids) uuid now in
      (
        simp (found, good, active) refl,
        check_header-payload permission (or_query path query) (jwt_encode p) later after nonempty
            ∙ ap (λ o. check_payload permission (or_query path query) o after) (decodes later alive)
            ∙ check_payload-answers permission (or_query path query) p after uuid
                (truthy_named uuid named) fresh allowed assigned,
      )
