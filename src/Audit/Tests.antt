-- ===== src/Audit/Tests.antt =====
-- security/audit_logger.py: two entries, and the theorems at them. The digest tells the two
-- users apart.
use tugas3_sinkronisasi_dist.Common.{
  String, Option, none, some, List, [], ◌∷◌, if◌then◌else◌, string_eq, ◌==◌, ◌≡◌, refl, ◌∙◌,
  ne_of_beq, map, zero, suc, sym, ap,
}
use tugas3_sinkronisasi_dist.Audit.{
  Content, AuditEntry, AuditLogger, hash_mismatch, new_logger, load_lines, log, verify_from,
  verify_chain,
}
use tugas3_sinkronisasi_dist.Audit.Chain.{Record, log_all, last_hash_fixes_entries, NoCollision}

program : Unit {0}
unfolding load_lines log log_all verify_from verify_chain
program = tt

abbrev digest : Content → String
digest c = if c.user == "eve" then "h1" else "h2"

abbrev records : List Record
records =
    record { now = 1; user = "eve"; action = "get"; resource = "r"; result = "ok" }
    ∷ record { now = 2; user = "bob"; action = "put"; resource = "r"; result = "no" }
    ∷ []

abbrev logger : AuditLogger
logger = log_all digest records (new_logger "n")

-- The log that is read back from the file.
abbrev read_back : AuditLogger
read_back = load_lines (map some logger.lines) (new_logger "n")

-- One line of the file says something else.
tampered :
    verify_chain digest (
      load_lines
        (some (record {
          content = record {
            sequence = 1;
            timestamp = 1;
            node_id = "n";
            user = "bob";
            action = "get";
            resource = "r";
            result = "ok";
            prev_hash = "genesis";
          };
          entry_hash = "h1";
        })
          ∷ none
          ∷ [])
        (new_logger "n"))
    ≡ hash_mismatch 1 ∷ []
unfolding program
tampered = refl

abbrev digest_of : Option AuditEntry → String
digest_of none = ""
digest_of (some e) = digest e.content

no_collision : NoCollision digest logger.entries read_back.entries
unfolding program
no_collision zero zero e e' at at' h = cc
no_collision zero (suc zero) e e' at at' h =
    absurd (ne_of_beq "h1" "h2" refl (ap digest_of at ∙ h ∙ sym (ap digest_of at')))
no_collision (suc zero) zero e e' at at' h =
    absurd (ne_of_beq "h2" "h1" refl (ap digest_of at ∙ h ∙ sym (ap digest_of at')))
no_collision (suc zero) (suc zero) e e' at at' h = cc
no_collision zero (suc (suc j)) e e' at at' h = absurd cc
no_collision (suc zero) (suc (suc j)) e e' at at' h = absurd cc
no_collision (suc (suc i)) j e e' at at' h = absurd cc

last_hash_fixes_entries_example : logger.entries ≡ read_back.entries
last_hash_fixes_entries_example =
    last_hash_fixes_entries digest logger read_back no_collision (unfold program in refl)
      (unfold program in refl) (unfold program in refl) (unfold program in refl)
