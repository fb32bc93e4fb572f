-- ===== src/Audit/Chain.antt =====
-- security/audit_logger.py: what is logged is a valid chain, and the last hash of a valid chain fixes
-- all of its entries.
use tugas3_sinkronisasi_dist.Common.{
  ℕ, suc, ◌+◌, String, Option, none, some, List, [], ◌∷◌, ◌++◌, length, string_eq, ◌==◌, get_last?,
  get_elem?, ◌≡◌, refl, sym, ap, ◌∙◌, arith, beq_eq, beq_refl, Bool-cases, inl, inr,
}
use tugas3_sinkronisasi_dist.Audit.{
  Content, AuditEntry, AuditLogger, ChainError, genesis, new_logger, last_hash, new_entry, log,
  check_hash, check_link, verify_from, verify_chain,
}

-- The hash that the next entry must hold.
abbrev pub hash_of : Option AuditEntry → String
hash_of none = genesis
hash_of (some e) = e.entry_hash

-- One call of `log`.
pub record Record : Type 0 where
  pub now : ℕ
  pub user : String
  pub action : String
  pub resource : String
  pub result : String

both-nil : (xs ys : List ChainError) → xs ++ ys ≡ [] → (xs ≡ []) × (ys ≡ [])
both-nil [] ys h = (refl, h)
both-nil (x ∷ xs) ys h = absurd cc

abbrev pub end_hash : String → List AuditEntry → String
end_hash prev [] = prev
end_hash prev (e ∷ es) = end_hash e.entry_hash es

end_hash-cons :
    (p p' : String) (e : AuditEntry) (es : List AuditEntry)
    → elim (get_last? (e ∷ es)) [ none ↦ p | some e ↦ e.entry_hash ]
      ≡ elim (get_last? (e ∷ es)) [ none ↦ p' | some e ↦ e.entry_hash ]
end_hash-cons p p' e [] = refl
end_hash-cons p p' e (x ∷ es) = end_hash-cons p p' x es

end_hash-last_hash :
    (prev : String) (es : List AuditEntry)
    → end_hash prev es ≡ elim (get_last? es) [ none ↦ prev | some e ↦ e.entry_hash ]
end_hash-last_hash prev [] = refl
end_hash-last_hash prev (e ∷ []) = refl
end_hash-last_hash prev (e ∷ e' ∷ es) =
    end_hash-last_hash e.entry_hash (e' ∷ es) ∙ end_hash-cons e.entry_hash prev e' es

end_hash-append :
    (prev : String) (es : List AuditEntry) (e : AuditEntry)
    → end_hash prev (es ++ e ∷ []) ≡ e.entry_hash
end_hash-append prev [] e = refl
end_hash-append prev (x ∷ es) e = end_hash-append x.entry_hash es e

module _ (digest : Content → String) where
  unfoldable pub log_all : List Record → AuditLogger → AuditLogger
  log_all [] l = l
  log_all (r ∷ rs) l = log_all rs (log digest r.now r.user r.action r.resource r.result l)

  -- The entries from one on, each with the hash of its fields and that of the entry before it.
  pub IsChain : String → List AuditEntry → Type 0
  IsChain prev [] = Unit
  IsChain prev (e ∷ es) =
      (e.entry_hash ≡ digest e.content) × (e.content.prev_hash ≡ prev) × IsChain e.entry_hash es

  hashed : (e : AuditEntry) → check_hash digest e ≡ [] → e.entry_hash ≡ digest e.content
  hashed e h = elim (Bool-cases (e.entry_hash == digest e.content)) [
    | inl same ↦ beq_eq e.entry_hash (digest e.content) same
    | inr other ↦ absurd (ground (arith, h, other))
  ]

  linked :
      (before : Option AuditEntry) (e : AuditEntry)
      → check_link digest before e ≡ []
      → e.content.prev_hash ≡ hash_of before
  linked none e h = elim (Bool-cases (e.content.prev_hash == genesis)) [
    | inl same ↦ beq_eq e.content.prev_hash genesis same
    | inr other ↦ absurd (ground (arith, h, other))
  ]
  linked (some b) e h = elim (Bool-cases (e.content.prev_hash == b.entry_hash)) [
    | inl same ↦ beq_eq e.content.prev_hash b.entry_hash same
    | inr other ↦ absurd (ground (arith, h, other))
  ]

  linked_back :
      (before : Option AuditEntry) (e : AuditEntry)
      → e.content.prev_hash ≡ hash_of before
      → check_link digest before e ≡ []
  linked_back none e h = rw h refl
  linked_back (some b) e h = rw (h, beq_refl b.entry_hash) refl

  verify_from-IsChain :
      (before : Option AuditEntry) (es : List AuditEntry)
      → verify_from digest before es ≡ []
      → IsChain (hash_of before) es
  unfolding verify_from IsChain
  verify_from-IsChain before [] h = tt
  verify_from-IsChain before (e ∷ es) h =
      let (hash, more) =
        both-nil (check_hash digest e)
          (check_link digest before e ++ verify_from digest (some e) es) h in
      let (link, rest) =
        both-nil (check_link digest before e) (verify_from digest (some e) es) more in
      (hashed e hash, linked before e link, verify_from-IsChain (some e) es rest)

  IsChain-verify_from :
      (before : Option AuditEntry) (es : List AuditEntry)
      → IsChain (hash_of before) es
      → verify_from digest before es ≡ []
  unfolding verify_from IsChain
  IsChain-verify_from before [] h = refl
  IsChain-verify_from before (e ∷ es) (hash, link, rest) =
      let checked : check_hash digest e ≡ [] = rw (← hash, beq_refl e.entry_hash) refl in
      let good : check_link digest before e ≡ [] = linked_back before e link in
      rw (checked, good) (IsChain-verify_from (some e) es rest)

  -- No entry of one log has the hash of a different content in the other.
  abbrev pub NoCollision : List AuditEntry → List AuditEntry → Type 0
  NoCollision es es' =
      (i j : ℕ) (e e' : AuditEntry)
      → get_elem? es i ≡ some e
      → get_elem? es' j ≡ some e'
      → digest e.content ≡ digest e'.content
      → e.content ≡ e'.content

  -- Two chains of one length that end in the same hash are the same.
  chains_agree :
      (p p' : String) (es es' : List AuditEntry)
      → NoCollision es es'
      → length es ≡ length es'
      → IsChain p es
      → IsChain p' es'
      → end_hash p es ≡ end_hash p' es'
      → (es ≡ es') × (p ≡ p')
  unfolding IsChain
  chains_agree p p' [] [] unlike len c c' last = (refl, last)
  chains_agree p p' [] (e ∷ es) unlike len c c' last = absurd (omega arith)
  chains_agree p p' (e ∷ es) [] unlike len c c' last = absurd (omega arith)
  chains_agree p p' (e ∷ es) (e' ∷ es') unlike len (hash, link, rest) (hash', link', rest') last =
      let (same_rest, same_hash) =
        chains_agree e.entry_hash e'.entry_hash es es' (λ i j. unlike (suc i) (suc j)) (omega arith)
          rest rest' last in
      let content : e.content ≡ e'.content =
        unlike 0 0 e e' refl refl (sym hash ∙ same_hash ∙ hash') in
      let entry : e ≡ e' =
        ap (λ (x : Content × String). record { content = x.0; entry_hash = x.1 })
          (λ i. (content i, same_hash i)) in
      ((λ i. entry i ∷ same_rest i), sym link ∙ ap (λ x. x.prev_hash) content ∙ link')

  -- If no two different contents of theirs have one hash, two loggers of the same number of entries whose chains verify and
  -- end in the same hash have the same entries: an entry that is changed, moved or taken out shows in
  -- the last hash.
  pub last_hash_fixes_entries :
      (l l' : AuditLogger)
      → NoCollision l.entries l'.entries
      → length l.entries ≡ length l'.entries
      → verify_chain digest l ≡ []
      → verify_chain digest l' ≡ []
      → last_hash l.entries ≡ last_hash l'.entries
      → l.entries ≡ l'.entries
  unfolding verify_chain
  last_hash_fixes_entries l l' unlike len ok ok' last =
      (chains_agree genesis genesis l.entries l'.entries unlike len
        (verify_from-IsChain none l.entries ok) (verify_from-IsChain none l'.entries ok')
        (end_hash-last_hash genesis l.entries
          ∙ last
          ∙ sym (end_hash-last_hash genesis l'.entries))).0

  IsChain-append :
      (p : String) (es : List AuditEntry) (e : AuditEntry)
      → IsChain p es
      → e.entry_hash ≡ digest e.content
      → e.content.prev_hash ≡ end_hash p es
      → IsChain p (es ++ e ∷ [])
  unfolding IsChain
  IsChain-append p [] e c hash link = (hash, link, tt)
  IsChain-append p (x ∷ es) e (h, l, rest) hash link =
      (h, l, IsChain-append x.entry_hash es e rest hash link)

  log_all-IsChain :
      (rs : List Record) (l : AuditLogger)
      → IsChain genesis l.entries
      → IsChain genesis (log_all rs l).entries
  unfolding log_all log
  log_all-IsChain [] l c = c
  log_all-IsChain (r ∷ rs) l c =
      let l' = log digest r.now r.user r.action r.resource r.result l in
      log_all-IsChain rs l' (
        IsChain-append genesis l.entries
          (new_entry digest
            (record {
              sequence = l.sequence + 1;
              timestamp = r.now;
              node_id = l.node_id;
              user = r.user;
              action = r.action;
              resource = r.resource;
              result = r.result;
              prev_hash = last_hash l.entries;
            })
            "")
          c refl (sym (end_hash-last_hash genesis l.entries)))

  -- Whatever is logged from an empty log on, its chain verifies.
  pub log_all_verifies :
      (rs : List Record) (node_id : String)
      → verify_chain digest (log_all rs (new_logger node_id)) ≡ []
  unfolding verify_chain
  log_all_verifies rs node_id =
      IsChain-verify_from none (log_all rs (new_logger node_id)).entries
        (log_all-IsChain rs (new_logger node_id) (unfold IsChain in tt))
