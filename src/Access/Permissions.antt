-- ===== src/Access/Permissions.antt =====
-- Whom require_permission of pdf_ingestion/api/middleware/rbac.py lets in.
use smart_pdf_extractor.Prelude.{
  get_or, ℕ, ◌≡◌, ◌⊎◌, inl, inr, refl, Bool, true, false, String, Option, none, some, List, [], ◌∷◌,
  any, arith, ◌==◌, ==_iff, string_eq, Text, Elem, Bool-cases, subst,
}
use smart_pdf_extractor.Access.{
  Payload, AuthState, answer, Permission, role_allows, behind, scheme, is_revoked, truthy, or_query,
  check_payload, check_tenant, check_header, require_permission,
}

any-Elem : (x : String) (xs : List String) → any (λ y. y == x) xs ≡ true → Elem x xs
any-Elem x [] h = cc
any-Elem x (y ∷ ys) h = ground (arith, h, ==_iff y x, any-Elem x ys)

is_admin : (r : Option String) → (get_or r "" == "admin") ≡ true → r ≡ some "admin"
is_admin none h = absurd (ground (arith, h, ==_iff {K = String} "" "admin"))
is_admin (some r) h = ground (arith, h, ==_iff r "admin")

-- Nothing names a tenant, or the payload is an administrator's, or it is assigned to the tenant.
abbrev pub IsAssigned : Option String → Payload → Type 0
IsAssigned none p = Unit
IsAssigned (some t) p = (p.role ≡ some "admin") ⊎ Elem t (get_or p.tenant_ids [])

-- What holds when a request is let in with a payload.
pub record Granted (jwt_decode : Text → ℕ → Option Payload) (permission : Permission)
    (tid : Option String) (authorization : Text) (now : ℕ) (st : AuthState) (p : Payload)
    : Type 0 where
  pub token : Text
  pub bears : behind scheme authorization ≡ some token
  pub decoded : jwt_decode token now ≡ some p
  pub not_revoked : is_revoked (truthy p.jti) st ≡ false
  pub allowed : role_allows (get_or p.role "") permission ≡ true
  pub assigned : IsAssigned tid p

answer_same : {A : Type 0} (a b : A) → answer a ≡ answer b → a ≡ b
answer_same a b h = cc

check_tenant-IsAssigned :
    (tid : Option String) (q p : Payload)
    → check_tenant tid q ≡ answer p
    → (q ≡ p) × IsAssigned tid q
check_tenant-IsAssigned none q p h = (answer_same q p h, tt)
check_tenant-IsAssigned (some t) q p h =
    ground (arith, h, is_admin q.role, any-Elem t (get_or q.tenant_ids []))

Elem-any : (x : String) (xs : List String) → Elem x xs → any (λ y. y == x) xs ≡ true
Elem-any x [] h = elim h [ ]
Elem-any x (y ∷ ys) (inl h) = ground (arith, h, ==_iff y x)
Elem-any x (y ∷ ys) (inr h) = ground (arith, Elem-any x ys h)

pub check_tenant-answers :
    (tid : Option String) (p : Payload) → IsAssigned tid p → check_tenant tid p ≡ answer p
check_tenant-answers none p h = refl
check_tenant-answers (some t) p (inl h) =
    simp h (ground (arith, ==_iff {K = String} "admin" "admin"))
check_tenant-answers (some t) p (inr h) = ground (arith, Elem-any t (get_or p.tenant_ids []) h)

check_payload-tests :
    (permission : Permission) (tid : Option String) (q p : Payload) (st : AuthState)
    → check_payload permission tid (some q) st ≡ answer p
    → (is_revoked (truthy q.jti) st ≡ false)
      × (role_allows (get_or q.role "") permission ≡ true)
      × (check_tenant tid q ≡ answer p)
check_payload-tests permission tid q p st h = elim (Bool-cases (is_revoked (truthy q.jti) st)) [
  | inl e ↦ ground (arith, h, e)
  | inr e ↦ elim (Bool-cases (role_allows (get_or q.role "") permission)) [
    | inl a ↦ (e, a, simp (e, a) at h)
    | inr a ↦ ground (arith, h, e, a)
  ]
]

check_payload-Granted :
    (jwt_decode : Text → ℕ → Option Payload) (permission : Permission) (tid : Option String)
    (authorization token : Text) (now : ℕ) (st : AuthState) (p : Payload) (o : Option Payload)
    → behind scheme authorization ≡ some token
    → jwt_decode token now ≡ o
    → check_payload permission tid o st ≡ answer p
    → Granted jwt_decode permission tid authorization now st p
check_payload-Granted jwt_decode permission tid authorization token now st p none b d h = cc
check_payload-Granted jwt_decode permission tid authorization token now st p (some q) b d h =
    let (fresh, allowed, tenant) = check_payload-tests permission tid q p st h in
    let (same, assigned) = check_tenant-IsAssigned tid q p tenant in
    subst (Granted jwt_decode permission tid authorization now st) same (record {
      token = token;
      bears = b;
      decoded = d;
      not_revoked = fresh;
      allowed = allowed;
      assigned = assigned;
    })

pub require_permission-Granted :
    (jwt_encode : Payload → Text) (jwt_decode : Text → ℕ → Option Payload)
    (checkpw : String → String → Bool) (hours : ℕ) (permission : Permission)
    (path query : Option String) (authorization : Text) (now : ℕ) (st : AuthState) (p : Payload)
    → require_permission jwt_encode jwt_decode checkpw hours permission path query authorization now
        st
      ≡ answer p
    → Granted jwt_decode permission (or_query path query) authorization now st p
unfolding require_permission
require_permission-Granted jwt_encode jwt_decode checkpw hours permission path query authorization
      now st p h =
    through (behind scheme authorization) refl h
  where
    through :
        (o : Option Text)
        → behind scheme authorization ≡ o
        → check_header jwt_encode jwt_decode checkpw hours permission (or_query path query) o now st
          ≡ answer p
        → Granted jwt_decode permission (or_query path query) authorization now st p
    through none e k = cc
    through (some []) e k = cc
    through (some (c ∷ token)) e k =
        check_payload-Granted jwt_decode permission (or_query path query) authorization (c ∷ token)
          now st p (jwt_decode (c ∷ token) now) e refl k
