-- ===== src/Audit/Queries.antt =====
-- security/audit_logger.py: `query` against the entries that match, newest first.
use tugas3_sinkronisasi_dist.Common.{
  ℕ, suc, ◌+◌, ◌-◌, ◌<◌, max, String, List, [], ◌∷◌, ◌++◌, length, take, reverse, leb, append_assoc,
  append-nil, length-append, ◌≡◌, refl, sym, ap, ◌∙◌, arith, Bool-cases, inl, inr, if◌then◌else◌,
}
use tugas3_sinkronisasi_dist.Audit.{AuditEntry, AuditLogger, fits, query_from, query}

-- The entries that match, in their order.
unfoldable pub matching : (user action : String) → List AuditEntry → List AuditEntry
matching user action [] = []
matching user action (e ∷ es) =
    let rest = matching user action es in if fits user action e then e ∷ rest else rest

query_from_lem :
    (user action : String) (limit n : ℕ) (es results : List AuditEntry)
    → suc n + length results ≡ max 1 limit
    → query_from user action limit es results ≡ results ++ take (suc n) (matching user action es)
unfolding query_from matching
query_from_lem user action limit n [] results room = sym (append-nil results)
query_from_lem user action limit n (e ∷ es) results room = elim (Bool-cases (fits user action e)) [
  | inr other ↦ rw (other, query_from) (query_from_lem user action limit n es results room)
  | inl match ↦
      let longer = length-append results (e ∷ []) in
      elim (Bool-cases (leb limit (length (results ++ e ∷ [])))) [
        | inl full ↦
            let last : n ≡ 0 = ground (arith, full, longer) in
            rw (match, full, last, query_from) refl
        | inr short ↦
            let positive : 0 < n = ground (arith, short, longer) in
            let e' : suc (n - 1) ≡ n = omega arith in
            rw (match, short, query_from)
              (query_from_lem user action limit (n - 1) es (results ++ e ∷ [])
                  (ground (arith, longer, positive))
                ∙ append_assoc results (e ∷ []) (take (suc (n - 1)) (matching user action es))
                ∙ ap (λ n. results ++ e ∷ take n (matching user action es)) e')
      ]
]

-- A query returns the first entries that match among all from the newest to the oldest: `limit` of
-- them or all if they are fewer, but one also where `limit` is 0.
pub query_lem :
    (user action : String) (limit : ℕ) (l : AuditLogger)
    → query user action limit l ≡ take (max 1 limit) (matching user action (reverse l.entries))
unfolding query
query_lem user action limit l =
    let n = max 1 limit - 1 in
    let e : suc n ≡ max 1 limit = omega arith in
    query_from_lem user action limit n (reverse l.entries) [] (omega arith)
    ∙ ap (λ n. take n (matching user action (reverse l.entries))) e
