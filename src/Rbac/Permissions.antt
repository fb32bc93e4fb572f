-- ===== src/Rbac/Permissions.antt =====
-- security/rbac.py: what `check_permission` lets each role do.
use text.Mathlib.TextLemmas.{nil-append, cons-append, append_cancel_right}
use tugas3_sinkronisasi_dist.Common.{
  ℕ, String, Bool, true, false, none, some, List, [], ◌∷◌, map, ◌&&◌, string_eq, ◌==◌, member, All,
  split, Lacks, split-append, ◌⧺◌, ◌≡◌, ◌≢◌, refl, sym, ap, ◌∙◌, subst, arith, beq_eq, beq_ne,
  beq_refl, Bool-cases, Option-cases, inl, inr,
}
use tugas3_sinkronisasi_dist.Rbac.{
  Role, admin, operator, viewer, parse_role, permissions, first_part, allows, check_permission,
}

-- The part of an action before its first colon.
abbrev pub area : (action : String) → String
area action = first_part (split b':' action)

abbrev pub areas : List String
areas = "lock" ∷ "queue" ∷ "cache" ∷ "admin" ∷ "auth" ∷ "audit" ∷ "security" ∷ "geo" ∷ []

-- An operator and a viewer may do what their list names, an admin whatever stands in one of the areas.
unfoldable pub permits : Role → (action : String) → Bool
permits admin action = member (area action) areas
permits operator action = member action (permissions operator)
permits viewer action = member action (permissions viewer)

abbrev pub any_area : String → String
any_area name = name ⧺ ":*"

every : (String → Bool) → List String → Bool
every p [] = true
every p (w ∷ ws) = p w && every p ws

every-member :
    (p : String → Bool) (a : String) (ws : List String)
    → every p ws ≡ true
    → member a ws ≡ true
    → p a ≡ true
unfolding member every
every-member p a [] all h = absurd cc
every-member p a (w ∷ ws) all h = elim (Bool-cases (w == a)) [
  | inl same ↦ subst (λ x. p x ≡ true) (beq_eq w a same) (ground (arith, all))
  | inr differ ↦ every-member p a ws (ground (arith, all)) (ground (arith, h, differ))
]

member-All-ne : (a : String) (ws : List String) → All (λ w. w ≢ a) ws → member a ws ≡ false
unfolding member
member-All-ne a [] h = refl
member-All-ne a (w ∷ ws) h = rw (beq_ne w a h.0) (member-All-ne a ws h.1)

Lacks-back : (k : ℕ) (s t : String) → Lacks k (s ⧺ t) → Lacks k t
Lacks-back k String.[] t h = subst (Lacks k) (nil-append t) h
Lacks-back k (String.◌∷◌ c s) t h =
    let h' : Lacks k (String.◌∷◌ c (s ⧺ t)) = subst (Lacks k) (cons-append c s t) h in
    Lacks-back k s t h'.1

-- A text without a star is no pattern for an area.
no_pattern : (w name : String) → Lacks b'*' w → w ≢ any_area name
no_pattern w name h e =
    let back : Lacks b'*' ":*" = Lacks-back b'*' name ":*" (subst (Lacks b'*') e h) in back.1.0 refl

no_patterns :
    (name : String) (ws : List String) → All (Lacks b'*') ws → All (λ w. w ≢ any_area name) ws
no_patterns name [] h = tt
no_patterns name (w ∷ ws) h = (no_pattern w name h.0, no_patterns name ws h.1)

-- Where nothing is a pattern, only what the list names is allowed.
allows_named :
    (ws : List String) (action : String) → All (Lacks b'*') ws → allows ws action ≡ member action ws
unfolding allows
allows_named ws action h =
    let none_fits = member-All-ne (any_area (area action)) ws (no_patterns (area action) ws h) in
    ground (arith, none_fits)

area-any_area : (name : String) → Lacks b':' name → area (any_area name) ≡ name
area-any_area name h = ap first_part (split-append b':' name "*" ":" refl h)

member-any_area :
    (name : String) (ns : List String) → member (any_area name) (map any_area ns) ≡ member name ns
unfolding member
member-any_area name [] = refl
member-any_area name (n ∷ ns) = elim (Bool-cases (n == name)) [
  | inl same ↦
      let e = beq_eq n name same in
      let e' : (any_area n == any_area name) ≡ true =
        ap (λ x. any_area x == any_area name) e ∙ beq_refl (any_area name) in
      rw (same, e') refl
  | inr differ ↦
      let apart : any_area n ≢ any_area name =
        λ e. ne n name differ (append_cancel_right n name ":*" e) in
      rw (differ, beq_ne (any_area n) (any_area name) apart) (member-any_area name ns)
]
  where
    ne : (n name : String) → (n == name) ≡ false → n ≢ name
    ne n name h e = ground (arith, h, beq_refl n, ap (λ x. n == x) e)

member-area :
    (action : String) (ns : List String)
    → All (Lacks b':') ns
    → member action (map any_area ns) ≡ true
    → member (area action) ns ≡ true
unfolding member
member-area action [] lack h = absurd cc
member-area action (n ∷ ns) lack h = elim (Bool-cases (any_area n == action)) [
  | inl same ↦
      let e : area action ≡ n =
        ap area (sym (beq_eq (any_area n) action same)) ∙ area-any_area n lack.0 in
      rw (e, beq_refl n) refl
  | inr differ ↦ ground (arith, member-area action ns lack.1, h, differ)
]

-- Where all are patterns, what stands in one of the areas is allowed.
allows_areas :
    (ns : List String) (action : String)
    → All (Lacks b':') ns
    → allows (map any_area ns) action ≡ member (area action) ns
unfolding allows
allows_areas ns action lack = elim (Bool-cases (member action (map any_area ns))) [
  | inl named ↦ rw (named, member-area action ns lack named) refl
  | inr other ↦ rw other (member-any_area (area action) ns)
]

allows-permits : (r : Role) (action : String) → allows (permissions r) action ≡ permits r action
unfolding permits
allows-permits admin action = allows_areas areas action (omega arith)
allows-permits operator action = allows_named (permissions operator) action (omega arith)
allows-permits viewer action = allows_named (permissions viewer) action (omega arith)

-- A role's name lets one do exactly what that role may: an operator and a viewer what their lists name,
-- an admin every action of the eight areas. Any other text lets one do nothing.
pub check_permission_lem :
    (role_str action : String)
    → check_permission role_str action
      ≡ elim (parse_role role_str) [ none ↦ false | some r ↦ permits r action ]
unfolding check_permission
check_permission_lem role_str action = elim (Option-cases (parse_role role_str)) [
  | inl unknown ↦ rw (unknown, check_permission) refl
  | inr (r, known) ↦ rw (known, check_permission) (allows-permits r action)
]

-- The listed actions of the other roles stand in the areas.
listed_in_areas :
    (r : Role) (action : String) → permits r action ≡ true → permits admin action ≡ true
unfolding permits member every split
listed_in_areas admin action h = h
listed_in_areas operator action h =
    every-member (permits admin) action (permissions operator) refl h
listed_in_areas viewer action h = every-member (permits admin) action (permissions viewer) refl h

-- An admin may do whatever another role may.
pub admin_covers :
    (role_str action : String)
    → check_permission role_str action ≡ true
    → check_permission "admin" action ≡ true
unfolding parse_role
admin_covers role_str action h = elim (Option-cases (parse_role role_str)) [
  | inl unknown ↦ absurd (ground (arith, h, check_permission_lem role_str action, unknown))
  | inr (r, known) ↦
      let may : permits r action ≡ true =
        ground (arith, h, check_permission_lem role_str action, known) in
      check_permission_lem "admin" action ∙ listed_in_areas r action may
]
