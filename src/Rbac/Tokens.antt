-- ===== src/Rbac/Tokens.antt =====
-- security/rbac.py: tokens are read back as they were signed, until they expire, and what verifies was
-- signed with the secret key.
use text.Mathlib.TextLemmas.{nil-append, cons-append}
use tugas3_sinkronisasi_dist.Common.{
  ℕ, ◌<◌, ◌≤◌, String, false, none, some, List, [], ◌∷◌, if◌then◌else◌, string_eq, ◌==◌, ltb,
  or_else, All, split, Lacks, Lacks-append, split-append, split_of_Lacks, ◌⧺◌, hex, fromhex,
  digit_value, fromhex-hex, hex-Lacks, remove_from, is_empty, starts_with-append,
  remove_from-append, remove_from_of_Lacks, ◌≡◌, refl, ap, ◌∙◌, subst, arith, beq_eq, beq_refl,
  Bool-cases, Option-cases, inl, inr,
}
use tugas3_sinkronisasi_dist.Rbac.{
  Payload, Stdlib, RbacManager, bearer_token, sign, verify_payload, verify_parts, verify_token,
}

-- What the standard library promises about one payload: its text is read back, and the HMAC is a
-- hexadecimal text, so it has no dot and no space.
pub record IsReadBack (lib : Stdlib) (p : Payload) (key : String) : Type 0 where
  pub is_bytes : All (λ b. b < 256) (lib.encode (lib.dumps p))
  pub decoded : lib.decode (lib.encode (lib.dumps p)) ≡ some (lib.dumps p)
  pub loaded : lib.loads (lib.dumps p) ≡ some p
  pub no_dot : Lacks b'.' (lib.hmac key (lib.dumps p))
  pub no_space : Lacks 32 (lib.hmac key (lib.dumps p))

pub dot : (s : String) → "." ⧺ s ≡ String.◌∷◌ "." s
dot s = cons-append "." "" s ∙ ap (String.◌∷◌ ".") (nil-append s)

module _ (lib : Stdlib) (p : Payload) (r : RbacManager) where
  split-sign :
      IsReadBack lib p r.secret_key
      → split b'.' (sign lib p r)
        ≡ hex (lib.encode (lib.dumps p)) ∷ lib.hmac r.secret_key (lib.dumps p) ∷ []
  unfolding sign
  split-sign h =
      let payload = lib.dumps p in
      let sig = lib.hmac r.secret_key payload in
      let front = hex (lib.encode payload) in
      let lacks : Lacks b'.' front =
        unfold digit_value in hex-Lacks b'.' (lib.encode payload) h.is_bytes refl in
      rw (dot sig) (
        split-append b'.' front sig "." refl lacks
        ∙ ap (λ parts. front ∷ parts) (split_of_Lacks b'.' sig h.no_dot))

  verify_payload_signed :
      (now : ℕ)
      → lib.loads (lib.dumps p) ≡ some p
      → verify_payload lib now (lib.dumps p) (lib.hmac r.secret_key (lib.dumps p)) r
        ≡ (if ltb (or_else p.expires_at 0) now then none else some p)
  unfolding verify_payload
  verify_payload_signed now loaded =
      rw (beq_refl (lib.hmac r.secret_key (lib.dumps p)), loaded) refl

  -- A signed payload verifies as it was, until it expires.
  pub verify_token-sign :
      (now : ℕ)
      → IsReadBack lib p r.secret_key
      → verify_token lib now (sign lib p r) r
        ≡ (if ltb (or_else p.expires_at 0) now then none else some p)
  unfolding verify_token verify_parts
  verify_token-sign now h =
      rw (split-sign h, fromhex-hex (lib.encode (lib.dumps p)) h.is_bytes, h.decoded)
        (verify_payload_signed now h.loaded)

  pub sign-Lacks : IsReadBack lib p r.secret_key → Lacks 32 (sign lib p r)
  unfolding sign
  sign-Lacks h =
      let payload = lib.dumps p in
      Lacks-append 32 (hex (lib.encode payload)) ("." ⧺ lib.hmac r.secret_key payload)
        (unfold digit_value in hex-Lacks 32 (lib.encode payload) h.is_bytes refl)
        (Lacks-append 32 "." (lib.hmac r.secret_key payload) (omega arith) h.no_space)

-- The header gives back the token that it was made of.
pub bearer_token_lem :
    (token : String)
    → Lacks 32 token
    → is_empty token ≡ false
    → bearer_token ("Bearer " ⧺ token) ≡ some token
unfolding bearer_token
bearer_token_lem token lacks full =
    let kept : remove_from 0 "B" "earer " ("Bearer " ⧺ token) ≡ token =
      remove_from-append "B" "earer " token
      ∙ remove_from_of_Lacks 32 "B" "earer " token (λ has. has.1.1.1.1.1.1.0 refl) lacks in
    rw (starts_with-append "Bearer " token, kept, full) refl

-- A token is the hexadecimal text of a payload, a dot, and the HMAC of the payload under the key, and
-- the payload has not expired.
pub record IsSigned (lib : Stdlib) (now : ℕ) (token : String) (p : Payload) (key : String)
    : Type 0 where
  pub payload_hex : String
  pub bytes : List ℕ
  pub payload : String
  pub parts : split b'.' token ≡ payload_hex ∷ lib.hmac key payload ∷ []
  pub from_hex : fromhex payload_hex ≡ some bytes
  pub decoded : lib.decode bytes ≡ some payload
  pub loaded : lib.loads payload ≡ some p
  pub unexpired : now ≤ or_else p.expires_at 0

verify_payload-loads :
    (lib : Stdlib) (now : ℕ) (payload sig : String) (r : RbacManager) (p : Payload)
    → verify_payload lib now payload sig r ≡ some p
    → (sig ≡ lib.hmac r.secret_key payload)
      × (lib.loads payload ≡ some p)
      × (now ≤ or_else p.expires_at 0)
unfolding verify_payload
verify_payload-loads lib now payload sig r p h =
    elim (Bool-cases (sig == lib.hmac r.secret_key payload)) [
      | inr differ ↦ absurd (ground (arith, h, differ))
      | inl same ↦ elim (Option-cases (lib.loads payload)) [
        | inl unread ↦ absurd (ground (arith, h, same, unread))
        | inr (q, read) ↦ elim (Bool-cases (ltb (or_else q.expires_at 0) now)) [
          | inl late ↦ absurd (ground (arith, h, same, read, late))
          | inr fresh ↦
              let e : q ≡ p = ground (arith, h, same, read, fresh) in
              (
                beq_eq sig (lib.hmac r.secret_key payload) same,
                read ∙ ap some e,
                subst (λ (x : Payload). now ≤ or_else x.expires_at 0) e (ground (arith, fresh)),
              )
        ]
      ]
    ]

verify_parts-IsSigned :
    (lib : Stdlib) (now : ℕ) (token : String) (r : RbacManager) (p : Payload) (parts : List String)
    → split b'.' token ≡ parts
    → verify_parts lib now parts r ≡ some p
    → IsSigned lib now token p r.secret_key
unfolding verify_parts
verify_parts-IsSigned lib now token r p [] e h = absurd cc
verify_parts-IsSigned lib now token r p (a ∷ []) e h = absurd cc
verify_parts-IsSigned lib now token r p (a ∷ b ∷ c ∷ parts) e h = absurd cc
verify_parts-IsSigned lib now token r p (a ∷ sig ∷ []) e h = elim (Option-cases (fromhex a)) [
  | inl odd ↦ absurd (ground (arith, h, odd))
  | inr (bytes, from_hex) ↦ elim (Option-cases (lib.decode bytes)) [
    | inl unread ↦ absurd (ground (arith, h, from_hex, unread))
    | inr (payload, decoded) ↦
        let h' : verify_payload lib now payload sig r ≡ some p =
          ground (arith, h, from_hex, decoded) in
        let (signed, loaded, unexpired) = verify_payload-loads lib now payload sig r p h' in
        record {
          payload_hex = a;
          bytes = bytes;
          payload = payload;
          parts = e ∙ ap (λ x. a ∷ x ∷ []) signed;
          from_hex = from_hex;
          decoded = decoded;
          loaded = loaded;
          unexpired = unexpired;
        }
  ]
]

pub verify_token-IsSigned :
    (lib : Stdlib) (now : ℕ) (token : String) (r : RbacManager) (p : Payload)
    → verify_token lib now token r ≡ some p
    → IsSigned lib now token p r.secret_key
unfolding verify_token
verify_token-IsSigned lib now token r p h =
    verify_parts-IsSigned lib now token r p (split b'.' token) refl h
