-- ===== src/Rbac.antt =====
-- security/rbac.py: `RBACManager` and `rbac_middleware`. What the standard library does with keys and
-- JSON is the parameter `lib`: sha256 and HMAC as hexadecimal texts, UTF-8, and JSON dictionaries. The
-- clock is an argument, in whole seconds.
pub mod Permissions
pub mod Tokens
pub mod Requests
pub mod Tests
use tugas3_sinkronisasi_dist.Common.{
  ℕ, ◌+◌, String, Bool, true, false, not, ◌||◌, Option, none, some, List, [], ◌∷◌, if◌then◌else◌,
  string_eq, ◌==◌, ltb, or_else, Dict, lookup, map_values, member, take, split, join, strip,
  starts_with, remove_from, is_empty, hex, fromhex, ◌⧺◌, ◌>>=◌, nat_eq,
}

pub data Role : Type 0 where
  admin operator viewer : Role

abbrev pub role_value : Role → String
role_value admin = "admin"
role_value operator = "operator"
role_value viewer = "viewer"

-- `Role(text)`, with `none` for the ValueError
unfoldable pub parse_role : String → Option Role
parse_role text =
    if text == "admin"
    then some admin
    else if text == "operator"
    then some operator
    else if text == "viewer"
    then some viewer
    else none

abbrev pub permissions : Role → List String
permissions admin =
    "lock:*" ∷ "queue:*" ∷ "cache:*" ∷ "admin:*" ∷ "auth:*" ∷ "audit:*" ∷ "security:*" ∷ "geo:*"
    ∷ []
permissions operator =
    "lock:acquire" ∷ "lock:release" ∷ "lock:status" ∷ "queue:enqueue" ∷ "queue:dequeue"
    ∷ "queue:ack" ∷ "queue:status" ∷ "cache:get" ∷ "cache:put" ∷ "cache:stats" ∷ "geo:regions"
    ∷ "geo:latency" ∷ []
permissions viewer =
    "lock:status" ∷ "lock:deadlocks" ∷ "queue:status" ∷ "queue:ring" ∷ "cache:get" ∷ "cache:stats"
    ∷ "cache:state" ∷ "geo:regions" ∷ "geo:latency" ∷ "geo:replication-status" ∷ []

-- `text.split(sep)[0]`; the list is never empty
abbrev pub first_part : List String → String
first_part [] = ""
first_part (part ∷ parts) = part

-- `action in allowed or f"{action_parts[0]}:*" in allowed`
unfoldable pub allows : (allowed : List String) (action : String) → Bool
allows allowed action =
    if member action allowed then true else member (first_part (split b':' action) ⧺ ":*") allowed

unfoldable pub check_permission : (role_str action : String) → Bool
check_permission role_str action = elim (parse_role role_str) [
  | none ↦ false
  | some role ↦ allows (permissions role) action
]

-- The dictionary in a token, with `none` for a key that is missing.
pub record Payload : Type 0 where
  pub username : Option String
  pub role : Option String
  pub issued_at : Option ℕ
  pub expires_at : Option ℕ

-- `loads` is `none` where json.loads raises or gives no dictionary of these types, `decode` where the
-- bytes are no UTF-8.
pub record Stdlib : Type 0 where
  pub sha256 : String → String
  pub hmac : (key message : String) → String
  pub encode : String → List ℕ
  pub decode : List ℕ → Option String
  pub dumps : Payload → String
  pub loads : String → Option Payload

pub record User : Type 0 where
  pub role : Role
  pub password_hash : String

pub record RbacManager : Type 0 where
  pub secret_key : String
  pub users : Dict String User

-- What the middleware does with a request: the handler runs, with the token's user attached if there
-- is one; 401; 403; or the KeyError of a payload without a role.
pub data Access : Type 0 where
  handled : (user : Option Payload) → Access
  unauthorized : (message : String) → Access
  forbidden : (role action : String) → Access
  failed : Access

abbrev pub skip_paths : List String
skip_paths = "/health" ∷ "/metrics" ∷ "/rpc" ∷ "/auth/token" ∷ []

-- The token of the Authorization header, "" where the header is missing. An empty one is no token.
unfoldable pub bearer_token : (header : String) → Option String
bearer_token header =
    if starts_with "Bearer " header
    then (let token = remove_from 0 "B" "earer " header in
        if is_empty token then none else some token)
    else none

abbrev pub action_of : List String → String
action_of (area ∷ name ∷ more) = join ":" (area ∷ name ∷ [])
action_of parts = first_part parts

unfoldable pub derive_action : (path : String) → String
derive_action path = action_of (split b'/' (strip (λ c. c == b'/') path))

unfoldable pub get_users : RbacManager → Dict String String
get_users r = names r.users
  where
    names : Dict String User → Dict String String
    names [] = []
    names ((name, user) ∷ users) = (name, role_value user.role) ∷ names users

-- The claims of a new token; the clock is read twice.
abbrev pub claims : (issued now : ℕ) (username role : String) → Payload
claims issued now username role = record {
  username = some username;
  role = some role;
  issued_at = some issued;
  expires_at = some (now + 3600);
}

-- what the middleware does with a payload that has been verified
unfoldable pub check_role : (action : String) → Payload → Access
check_role action p = elim p.role [
  | none ↦ failed
  | some role ↦ if check_permission role action then handled (some p) else forbidden role action
]

module _ (lib : Stdlib) where
  abbrev pub new_manager : (secret_key : String) → RbacManager
  new_manager secret_key = record {
    secret_key = secret_key;
    users =
        ("admin", record { role = admin; password_hash = lib.sha256 "admin123" })
        ∷ ("operator", record { role = operator; password_hash = lib.sha256 "oper123" })
        ∷ ("viewer", record { role = viewer; password_hash = lib.sha256 "view123" })
        ∷ [];
  }

  unfoldable pub sign : Payload → RbacManager → String
  sign p r =
      let payload = lib.dumps p in hex (lib.encode payload) ⧺ ("." ⧺ lib.hmac r.secret_key payload)

  unfoldable pub generate_token : (issued now : ℕ) (username role : String) → RbacManager → String
  generate_token issued now username role r = sign (claims issued now username role) r

  unfoldable pub authenticate :
      (issued now : ℕ) (username password : String) → RbacManager → Option String
  authenticate issued now username password r = elim (lookup username r.users) [
    | none ↦ none
    | some user ↦
        if user.password_hash == lib.sha256 password
        then some (generate_token issued now username (role_value user.role) r)
        else none
  ]

  -- the second half of `verify_token`, on the text that was signed
  unfoldable pub verify_payload : (now : ℕ) (payload sig : String) → RbacManager → Option Payload
  verify_payload now payload sig r =
      if sig == lib.hmac r.secret_key payload
      then (do
        found ← lib.loads payload
        if ltb (or_else found.expires_at 0) now then none else some found)
      else none

  unfoldable pub verify_parts : (now : ℕ) → List String → RbacManager → Option Payload
  verify_parts now (payload_hex ∷ sig ∷ []) r = do
    bytes ← fromhex payload_hex
    payload ← lib.decode bytes
    verify_payload now payload sig r
  verify_parts now parts r = none

  unfoldable pub verify_token : (now : ℕ) (token : String) → RbacManager → Option Payload
  verify_token now token r = verify_parts now (split b'.' token) r

  unfoldable pub check_token : (now : ℕ) (path header : String) → RbacManager → Access
  check_token now path header r = elim (bearer_token header) [
    | none ↦ unauthorized "Token required"
    | some token ↦ elim (verify_token now token r) [
      | none ↦ unauthorized "Invalid token"
      | some payload ↦ check_role (derive_action path) payload
    ]
  ]

  -- `header` is the Authorization header, "" where there is none.
  unfoldable pub middleware :
      (now : ℕ) (enabled : Bool) (path header : String) → RbacManager → Access
  middleware now enabled path header r =
      if member path skip_paths || not enabled then handled none else check_token now path header r
