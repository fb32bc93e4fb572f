-- ===== src/Unified/Requests.antt =====
-- main.py: the lock, authentication and audit handlers of `DistributedNode`. A lock handler is split at
-- its wait for `raft.propose`, whose result is the argument `ok`. A key that is missing in a request is
-- `none`.
use tugas3_sinkronisasi_dist.Common.{
  ℕ, String, Bool, Option, none, some, List, [], if◌then◌else◌, or_else, string_eq,
}
use tugas3_sinkronisasi_dist.Audit.{Content, ChainError, verify_chain}
use tugas3_sinkronisasi_dist.Locks.{Command}
use tugas3_sinkronisasi_dist.Raft.{Peer, Message, is_leader}
use tugas3_sinkronisasi_dist.Raft.Handlers.{propose}
use tugas3_sinkronisasi_dist.Rbac.{
  Payload, Stdlib, Access, bearer_token, authenticate, verify_token, middleware,
}
use tugas3_sinkronisasi_dist.Unified.State.{DistributedNode, record_audit}

pub record LockRequest : Type 0 where
  pub resource : Option String
  pub client_id : Option String
  pub lock_type : Option String

-- 307, 200 with a status, and the 500 of a request without a resource
pub data LockAnswer : Type 0 where
  not_leader : (leader_id : Option String) → LockAnswer
  lock_status : (status : String) → LockAnswer
  lock_failed : LockAnswer

-- `data.get("client_id", "anon")`
abbrev pub client_of : LockRequest → String
client_of req = or_else req.client_id "anon"

abbrev pub acquire_command : (resource : String) → LockRequest → Command
acquire_command resource req = record {
  action = "acquire";
  resource = resource;
  client_id = client_of req;
  lock_type = some (or_else req.lock_type "exclusive");
  lease_timeout = none;
}

abbrev pub release_command : (resource : String) → LockRequest → Command
release_command resource req = record {
  action = "release";
  resource = resource;
  client_id = client_of req;
  lock_type = none;
  lease_timeout = none;
}

-- An answer at once, or what is sent to the peers by a proposal that is then waited for.
pub data LockStep : Type 0 where
  answered : LockAnswer → LockStep
  proposed : (resource : String) → List (Peer × Message Command) → LockStep

module _ {V P : Type 0} where
  -- `raft.propose` up to its wait. On a leader it always proposes.
  unfoldable pub propose_command :
      (ticket : ℕ) (resource : String)
      → Command
      → DistributedNode V P
      → DistributedNode V P × LockStep
  propose_command ticket resource c n = elim (propose ticket c n.raft) [
    | none ↦ (n, proposed resource [])
    | some (raft', sent) ↦ (record n { raft = raft' }, proposed resource sent)
  ]

  abbrev pub begin_lock :
      (ticket : ℕ) (leader_id : Option String) (command : String → LockRequest → Command)
      → LockRequest
      → DistributedNode V P
      → DistributedNode V P × LockStep
  begin_lock ticket leader_id command req n =
      if is_leader n.raft
      then elim req.resource [
        | none ↦ (n, answered lock_failed)
        | some resource ↦ propose_command ticket resource (command resource req) n
      ]
      else (n, answered (not_leader leader_id))

  -- `_handle_lock_acquire` and `_handle_lock_release` up to the wait. A release does not tell the leader.
  unfoldable pub begin_acquire :
      (ticket : ℕ) → LockRequest → DistributedNode V P → DistributedNode V P × LockStep
  begin_acquire ticket req n = begin_lock ticket n.raft.leader_id acquire_command req n

  unfoldable pub begin_release :
      (ticket : ℕ) → LockRequest → DistributedNode V P → DistributedNode V P × LockStep
  begin_release ticket req n = begin_lock ticket none release_command req n

  -- The handlers after the wait: the result is logged, and answered.
  unfoldable pub finish_acquire :
      (digest : Content → String) (now : ℕ) (resource : String)
      → LockRequest
      → (ok : Bool) → DistributedNode V P
      → DistributedNode V P × LockAnswer
  finish_acquire digest now resource req ok n = (
    record_audit digest now (client_of req) "lock_acquire" resource
        (if ok then "success" else "failed") n,
    lock_status (if ok then "acquired" else "failed"),
  )

  unfoldable pub finish_release :
      (digest : Content → String) (now : ℕ) (resource : String)
      → LockRequest
      → (ok : Bool) → DistributedNode V P
      → DistributedNode V P × LockAnswer
  finish_release digest now resource req ok n = (
    record_audit digest now (client_of req) "lock_release" resource
        (if ok then "success" else "failed") n,
    lock_status (if ok then "released" else "failed"),
  )

  -- `_handle_auth_token`: the token, or the 401.
  unfoldable pub auth_token :
      (lib : Stdlib) (digest : Content → String) (issued now : ℕ)
      (username password : Option String)
      → DistributedNode V P
      → DistributedNode V P × Option String
  auth_token lib digest issued now username password n =
      elim (authenticate lib issued now (or_else username "") (or_else password "") n.rbac) [
        | some token ↦ (
          record_audit digest now (or_else username "") "auth_login" "auth" "success" n,
          some token,
        )
        | none ↦ (
          record_audit digest now (or_else username "unknown") "auth_login" "auth" "failed" n,
          none,
        )
      ]

  -- `_handle_auth_verify`: the user of a valid token, or the 401.
  unfoldable pub auth_verify :
      (lib : Stdlib) (now : ℕ) (header : String) → DistributedNode V P → Option Payload
  auth_verify lib now header n = elim (bearer_token header) [
    | none ↦ none
    | some token ↦ verify_token lib now token n.rbac
  ]

  -- `_handle_audit_verify`
  unfoldable pub audit_verify : (digest : Content → String) → DistributedNode V P → List ChainError
  audit_verify digest n = verify_chain digest n.audit

  -- The two middlewares: a preflight request is answered with no handler and no check of its token.
  unfoldable pub admit :
      (lib : Stdlib) (now : ℕ) (is_options : Bool) (path header : String)
      → DistributedNode V P
      → Option Access
  admit lib now is_options path header n =
      if is_options then none else some (middleware lib now n.config.enable_rbac path header n.rbac)
