-- ===== src/Rbac/Requests.antt =====
-- security/rbac.py: which requests the middleware lets through to their handlers.
use Prim.Native.Char.{Char}
use text.Mathlib.TextLemmas.{nil-append, cons-append}
use tugas3_sinkronisasi_dist.Common.{
  ℕ, ◌+◌, String, true, false, Option, none, some, if◌then◌else◌, string_eq, ltb, or_else, lookup,
  member, is_empty, hex, ◌⧺◌, ◌≡◌, ◌≢◌, refl, ◌∙◌, arith, beq_refl, Bool-cases, Option-cases, inl,
  inr,
}
use tugas3_sinkronisasi_dist.Rbac.{
  Role, admin, operator, viewer, role_value, parse_role, check_permission, Payload, Stdlib, User,
  RbacManager, handled, unauthorized, forbidden, skip_paths, bearer_token, derive_action, claims,
  sign, generate_token, authenticate, verify_token, check_role, check_token, middleware,
}
use tugas3_sinkronisasi_dist.Rbac.Permissions.{
  area, areas, permits, check_permission_lem, admin_covers,
}
use tugas3_sinkronisasi_dist.Rbac.Tokens.{
  dot, IsReadBack, IsSigned, verify_token-sign, sign-Lacks, bearer_token_lem, verify_token-IsSigned,
}

parse_role-role_value : (role : Role) → parse_role (role_value role) ≡ some role
unfolding parse_role
parse_role-role_value admin = refl
parse_role-role_value operator = refl
parse_role-role_value viewer = refl

check_permission-role_value :
    (role : Role) (action : String)
    → check_permission (role_value role) action ≡ permits role action
check_permission-role_value role action =
    check_permission_lem (role_value role) action ∙ (rw (parse_role-role_value role) refl)

is_empty-append : (s t : String) (c : Char) → is_empty (s ⧺ String.◌∷◌ c t) ≡ false
is_empty-append String.[] t c = rw nil-append refl
is_empty-append (String.◌∷◌ d s) t c = rw cons-append refl

module _ (lib : Stdlib) (r : RbacManager) where
  sign_full : (p : Payload) → is_empty (sign lib p r) ≡ false
  unfolding sign
  sign_full p =
      let payload = lib.dumps p in
      let sig = lib.hmac r.secret_key payload in
      rw (dot sig) (is_empty-append (hex (lib.encode payload)) sig ".")

  -- The token of a payload that was signed here, with the wait until it expires.
  check_token_signed :
      (later : ℕ) (path : String) (p : Payload)
      → IsReadBack lib p r.secret_key
      → check_token lib later path ("Bearer " ⧺ sign lib p r) r ≡ (
          if ltb (or_else p.expires_at 0) later
          then unauthorized "Invalid token"
          else check_role (derive_action path) p)
  unfolding check_token
  check_token_signed later path p h =
      let read = bearer_token_lem (sign lib p r) (sign-Lacks lib p r h) (sign_full p) in
      let verified = verify_token-sign lib p r later h in
      elim (Bool-cases (ltb (or_else p.expires_at 0) later)) [
        | inl late ↦
            let none_left : verify_token lib later (sign lib p r) r ≡ none =
              verified ∙ (rw late refl) in
            rw (read, check_token, none_left, late) refl
        | inr fresh ↦
            let some_left : verify_token lib later (sign lib p r) r ≡ some p =
              verified ∙ (rw fresh refl) in
            rw (read, check_token, some_left, fresh) refl
      ]

  -- A user who logs in with the right password gets a token. Until it expires, 3600 seconds after it
  -- was made, a guarded request with it runs if the user's role permits the action of its path, with
  -- the user's claims attached, and is forbidden otherwise; later it is unauthorized.
  pub login_lem :
      (issued now later : ℕ) (name password path : String) (user : User)
      → lookup name r.users ≡ some user
      → user.password_hash ≡ lib.sha256 password
      → member path skip_paths ≡ false
      → IsReadBack lib (claims issued now name (role_value user.role)) r.secret_key
      → (token : String) × (authenticate lib issued now name password r ≡ some token)
        × (middleware lib later true path ("Bearer " ⧺ token) r ≡ (
            if ltb (now + 3600) later
            then unauthorized "Invalid token"
            else if permits user.role (derive_action path)
            then handled (some (claims issued now name (role_value user.role)))
            else forbidden (role_value user.role) (derive_action path)))
  unfolding authenticate generate_token middleware check_role
  login_lem issued now later name password path user known right guarded h =
      let p = claims issued now name (role_value user.role) in
      let may = check_permission-role_value user.role (derive_action path) in
      (
        sign lib p r,
        rw (known, authenticate, right, beq_refl (lib.sha256 password)) refl,
        rw (guarded, check_token_signed later path p h, check_role, may) refl,
      )

  handled_token :
      (now : ℕ) (path header : String) (user : Option Payload)
      → check_token lib now path header r ≡ handled user
      → (token : String) × (role : String) × (p : Payload) × (bearer_token header ≡ some token)
        × IsSigned lib now token p r.secret_key
        × (p.role ≡ some role)
        × (check_permission role (derive_action path) ≡ true)
        × (user ≡ some p)
  unfolding check_token check_role
  handled_token now path header user h = elim (Option-cases (bearer_token header)) [
    | inl no_token ↦ absurd (ground (arith, h, no_token))
    | inr (token, bears) ↦ elim (Option-cases (verify_token lib now token r)) [
      | inl invalid ↦ absurd (ground (arith, h, bears, invalid))
      | inr (p, valid) ↦ elim (Option-cases p.role) [
        | inl no_role ↦ absurd (ground (arith, h, bears, valid, no_role))
        | inr (role, has_role) ↦ elim (Bool-cases (check_permission role (derive_action path))) [
          | inr denied ↦ absurd (ground (arith, h, bears, valid, has_role, denied))
          | inl permitted ↦ (
            token,
            role,
            p,
            bears,
            verify_token-IsSigned lib now token r p valid,
            has_role,
            permitted,
            ground (arith, h, bears, valid, has_role, permitted),
          )
        ]
      ]
    ]
  ]

  -- A guarded request runs only if its header bears a token that is signed with the secret key and has
  -- not expired, whose role permits the action of the path. The user attached is that of the token.
  pub handled-IsSigned :
      (now : ℕ) (path header : String) (user : Option Payload)
      → member path skip_paths ≡ false
      → middleware lib now true path header r ≡ handled user
      → (token : String) × (role : String) × (p : Payload) × (bearer_token header ≡ some token)
        × IsSigned lib now token p r.secret_key
        × (p.role ≡ some role)
        × (check_permission role (derive_action path) ≡ true)
        × (user ≡ some p)
  unfolding middleware
  handled-IsSigned now path header user guarded h =
      handled_token now path header user (ground (arith, h, guarded))

  -- Whatever token it bears, no guarded request runs whose path stands outside the eight areas.
  pub outside_areas_never_runs :
      (now : ℕ) (path header : String) (user : Option Payload)
      → member path skip_paths ≡ false
      → member (area (derive_action path)) areas ≡ false
      → middleware lib now true path header r ≢ handled user
  unfolding parse_role permits
  outside_areas_never_runs now path header user guarded outside h =
      let (_, role, _, _, _, _, may, _) = handled-IsSigned now path header user guarded h in
      ground (
        arith,
        outside,
        admin_covers role (derive_action path) may,
        check_permission_lem "admin" (derive_action path),
      )
