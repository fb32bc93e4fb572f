-- ===== src/Rbac/Tests.antt =====
-- security/rbac.py: an operator logs in, and the theorems at that. The library of the tests knows one
-- dictionary.
use Prim.Native.Char.{code}
use tugas3_sinkronisasi_dist.Common.{
  ℕ, String, true, false, none, some, List, [], ◌∷◌, if◌then◌else◌, string_eq, ◌==◌, ltb, lookup,
  member, split, join, lstrip, rstrip, starts_with, text_length, remove_from, hex_digit, hex,
  digit_value, is_space, fromhex, ◌⧺◌, ◌≡◌, ◌≢◌, refl, arith,
}
use tugas3_sinkronisasi_dist.Rbac.{
  operator, parse_role, allows, check_permission, Payload, Stdlib, RbacManager, handled,
  unauthorized, forbidden, bearer_token, derive_action, get_users, new_manager, claims, sign,
  generate_token, authenticate, verify_payload, verify_parts, verify_token, check_role, check_token,
  middleware,
}
use tugas3_sinkronisasi_dist.Rbac.Permissions.{permits, check_permission_lem}
use tugas3_sinkronisasi_dist.Rbac.Tokens.{IsReadBack, IsSigned}
use tugas3_sinkronisasi_dist.Rbac.Requests.{login_lem, handled-IsSigned, outside_areas_never_runs}

program : Unit {0}
unfolding lookup member split join lstrip rstrip starts_with text_length remove_from hex_digit hex
    digit_value is_space fromhex parse_role allows check_permission bearer_token derive_action
    get_users sign generate_token authenticate verify_payload verify_parts verify_token check_role
    check_token middleware permits
program = tt

abbrev codes : String → List ℕ
codes String.[] = []
codes (String.◌∷◌ c s) = code c ∷ codes s

abbrev the_claims : Payload
the_claims = claims 100 101 "operator" "operator"

abbrev the_text : String
the_text = "{op}"

abbrev lib : Stdlib
lib = record {
  sha256 = λ s. s;
  hmac = λ key message. if key == "secret" then "5e" else "0b";
  encode = codes;
  decode = λ bytes. some the_text;
  dumps = λ p. the_text;
  loads = λ text. if text == the_text then some the_claims else none;
}

abbrev manager : RbacManager
manager = new_manager lib "secret"

abbrev the_token : String
the_token = "7b6f707d.5e"

logs_in : authenticate lib 100 101 "operator" "oper123" manager ≡ some the_token
unfolding program
logs_in = refl

users_listed :
    get_users manager ≡ ("admin", "admin") ∷ ("operator", "operator") ∷ ("viewer", "viewer") ∷ []
unfolding program
users_listed = refl

actions :
    (derive_action "/lock/acquire" ≡ "lock:acquire")
    × (derive_action "//cache/get/a/b/" ≡ "cache:get")
    × (derive_action "/status" ≡ "status")
unfolding program
actions = (refl, refl, refl)

answers :
    (middleware lib 200 true "/lock/acquire" "Bearer 7b6f707d.5e" manager
      ≡ handled (some the_claims))
    × (middleware lib 200 true "/audit/logs" "Bearer 7b6f707d.5e" manager
        ≡ forbidden "operator" "audit:logs")
    × (middleware lib 3702 true "/lock/acquire" "Bearer 7b6f707d.5e" manager
        ≡ unauthorized "Invalid token")
    × (middleware lib 200 true "/lock/acquire" "Bearer 7b6f707d.0b" manager
        ≡ unauthorized "Invalid token")
    × (middleware lib 200 true "/lock/acquire" "Basic x" manager ≡ unauthorized "Token required")
    × (middleware lib 200 true "/rpc" "" manager ≡ handled none)
unfolding program
answers = (refl, refl, refl, refl, refl, refl)

check_permission_lem_example :
    check_permission "viewer" "lock:acquire"
    ≡ elim (parse_role "viewer") [ none ↦ false | some r ↦ permits r "lock:acquire" ]
check_permission_lem_example = check_permission_lem "viewer" "lock:acquire"

-- Only an admin may ask whether a token is valid.
verify_forbidden :
    (check_permission "viewer" "auth:verify" ≡ false)
    × (check_permission "operator" "auth:verify" ≡ false)
    × (check_permission "operator" "lock:deadlocks" ≡ false)
unfolding program
verify_forbidden = (refl, refl, refl)

read_back : IsReadBack lib the_claims "secret"
read_back = record {
  is_bytes = omega arith;
  decoded = refl;
  loaded = refl;
  no_dot = omega arith;
  no_space = omega arith;
}

login_lem_example :
    (token : String) × (authenticate lib 100 101 "operator" "oper123" manager ≡ some token)
    × (middleware lib 200 true "/lock/acquire" ("Bearer " ⧺ token) manager ≡ (
        if ltb 3701 200
        then unauthorized "Invalid token"
        else if permits operator (derive_action "/lock/acquire")
        then handled (some the_claims)
        else forbidden "operator" (derive_action "/lock/acquire")))
login_lem_example =
    login_lem lib manager 100 101 200 "operator" "oper123" "/lock/acquire"
      (record { role = operator; password_hash = "oper123" }) (unfold program in refl) refl
      (unfold program in refl) read_back

handled-IsSigned_example :
    (token : String) × (role : String) × (p : Payload) × (bearer_token "Bearer 7b6f707d.5e"
      ≡ some token)
    × IsSigned lib 200 token p manager.secret_key
    × (p.role ≡ some role)
    × (check_permission role (derive_action "/lock/acquire") ≡ true)
    × ((some the_claims) ≡ some p)
handled-IsSigned_example =
    handled-IsSigned lib manager 200 "/lock/acquire" "Bearer 7b6f707d.5e" (some the_claims)
      (unfold program in refl) (unfold program in refl)

outside_areas_never_runs_example :
    middleware lib 200 true "/raft/status" "Bearer 7b6f707d.5e" manager ≢ handled (some the_claims)
outside_areas_never_runs_example =
    outside_areas_never_runs lib manager 200 "/raft/status" "Bearer 7b6f707d.5e" (some the_claims)
      (unfold program in refl) (unfold program in refl)
