-- ===== src/Audit.antt =====
-- security/audit_logger.py: `AuditLogger`, a chain of entries that each hold the hash of the one before.
-- `digest` is the parameter for sha256 of the JSON text of an entry's fields. The log file is the list
-- `lines` of what `_persist_entry` has appended; the clock is the argument `now`.
pub mod Chain
pub mod Queries
pub mod Tests
use tugas3_sinkronisasi_dist.Common.{
  ℕ, ◌+◌, max, String, Bool, true, false, Option, none, some, List, [], ◌∷◌, ◌++◌, if◌then◌else◌,
  string_eq, ◌==◌, get_last?, leb, length, ◌&&◌, reverse,
}

-- The fields that are hashed.
pub record Content : Type 0 where
  pub sequence : ℕ
  pub timestamp : ℕ
  pub node_id : String
  pub user : String
  pub action : String
  pub resource : String
  pub result : String
  pub prev_hash : String

pub record AuditEntry : Type 0 where
  pub content : Content
  pub entry_hash : String

pub record AuditLogger : Type 0 where
  pub node_id : String
  pub entries : List AuditEntry
  pub sequence : ℕ
  pub lines : List AuditEntry

pub data ChainError : Type 0 where
  hash_mismatch invalid_genesis chain_broken : (sequence : ℕ) → ChainError

abbrev pub genesis : String
genesis = "genesis"

abbrev pub new_logger : (node_id : String) → AuditLogger
new_logger node_id = record { node_id = node_id; entries = []; sequence = 0; lines = [] }

-- `_load_from_file`. A line that cannot be read is `none`: it raises, and the rest is not read.
unfoldable pub load_lines : List (Option AuditEntry) → AuditLogger → AuditLogger
load_lines [] l = l
load_lines (none ∷ lines) l = l
load_lines (some e ∷ lines) l =
    load_lines lines
      (record l { entries = l.entries ++ e ∷ []; sequence = max l.sequence e.content.sequence })

-- `self._entries[-1].entry_hash if self._entries else "genesis"`
abbrev pub last_hash : List AuditEntry → String
last_hash es = elim (get_last? es) [ none ↦ genesis | some e ↦ e.entry_hash ]

module _ (digest : Content → String) where
  -- `AuditEntry.__init__` with an `entry_hash`, which may be empty
  abbrev pub new_entry : Content → (entry_hash : String) → AuditEntry
  new_entry c entry_hash = record {
    content = c;
    entry_hash = if entry_hash == "" then digest c else entry_hash;
  }

  unfoldable pub log : (now : ℕ) (user action resource result : String) → AuditLogger → AuditLogger
  log now user action resource result l =
      let entry =
        new_entry
          (record {
            sequence = l.sequence + 1;
            timestamp = now;
            node_id = l.node_id;
            user = user;
            action = action;
            resource = resource;
            result = result;
            prev_hash = last_hash l.entries;
          })
          "" in
      record l {
        sequence = l.sequence + 1;
        entries = l.entries ++ entry ∷ [];
        lines = l.lines ++ entry ∷ [];
      }

  -- What `verify_chain` finds wrong with one entry, after the entry before it.
  abbrev pub check_hash : AuditEntry → List ChainError
  check_hash e =
      if e.entry_hash == digest e.content then [] else hash_mismatch e.content.sequence ∷ []

  abbrev pub check_link : Option AuditEntry → AuditEntry → List ChainError
  check_link none e =
      if e.content.prev_hash == genesis then [] else invalid_genesis e.content.sequence ∷ []
  check_link (some before) e =
      if e.content.prev_hash == before.entry_hash then [] else chain_broken e.content.sequence ∷ []

  unfoldable pub verify_from : Option AuditEntry → List AuditEntry → List ChainError
  verify_from before [] = []
  verify_from before (e ∷ es) = check_hash e ++ (check_link before e ++ verify_from (some e) es)

  -- The errors; the chain is valid where there are none.
  unfoldable pub verify_chain : AuditLogger → List ChainError
  verify_chain l = verify_from none l.entries

-- `not wanted or field == wanted`, where no filter is the empty text
abbrev pub passes : (wanted field : String) → Bool
passes wanted field = if wanted == "" then true else field == wanted

abbrev pub fits : (user action : String) → AuditEntry → Bool
fits user action e = passes user e.content.user && passes action e.content.action

-- The loop of `query`; a limit is at least 0.
unfoldable pub query_from :
    (user action : String) (limit : ℕ) (entries results : List AuditEntry) → List AuditEntry
query_from user action limit [] results = results
query_from user action limit (e ∷ es) results = elim (fits user action e) [
  | false ↦ query_from user action limit es results
  | true ↦ elim (leb limit (length (results ++ e ∷ []))) [
    | true ↦ results ++ e ∷ []
    | false ↦ query_from user action limit es (results ++ e ∷ [])
  ]
]

unfoldable pub query : (user action : String) (limit : ℕ) → AuditLogger → List AuditEntry
query user action limit l = query_from user action limit (reverse l.entries) []

pub record AuditStats : Type 0 where
  pub total_entries : ℕ
  pub last_sequence : ℕ
  pub chain_valid : Bool

abbrev pub no_errors : List ChainError → Bool
no_errors [] = true
no_errors (e ∷ es) = false

unfoldable pub get_stats : (digest : Content → String) → AuditLogger → AuditStats
get_stats digest l = record {
  total_entries = length l.entries;
  last_sequence = l.sequence;
  chain_valid = no_errors (verify_chain digest l);
}
