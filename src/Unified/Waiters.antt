-- ===== src/Unified/Waiters.antt =====
-- main.py: locks stay exclusive, and a client comes to hold a lock only by a command of its own.
use tugas3_sinkronisasi_dist.Common.{
  ◌≤◌, String, Bool, true, false, none, some, List, [], ◌∷◌, if◌then◌else◌, or_else, ◌==◌,
  string_eq, lookup, insert, lookup-insert, member, add, discard, member-add, member-discard,
  length, length-discard-le, ◌≡◌, refl, sym, ap, ◌∙◌, subst, arith, beq_eq, beq_refl, Bool-cases,
  Option-cases, inl, inr, ◌⊎◌, All, ◌&&◌,
}
use tugas3_sinkronisasi_dist.Locks.{LockType, shared, exclusive, parse_lock_type, Command}
use tugas3_sinkronisasi_dist.Unified.LockCommands.{
  NodeLock, LockDict, new_node_lock, take_lock, apply_acquire, apply_release, apply_command,
  apply_commands, lock_of,
}

-- An exclusive lock has one holder at most.
abbrev pub IsExclusive : NodeLock → Type 0
IsExclusive lock = lock.lock_type ≡ some exclusive → length lock.holders ≤ 1

take_lock-IsExclusive :
    (client_id : String) (lt : LockType) (lock : NodeLock)
    → IsExclusive lock
    → IsExclusive (take_lock client_id lt lock)
unfolding take_lock add
take_lock-IsExclusive client_id shared lock h e = ground (arith, h)
take_lock-IsExclusive client_id exclusive lock h e = ground (arith, h)

take_lock-member :
    (client client_id : String) (lt : LockType) (lock : NodeLock)
    → member client (take_lock client_id lt lock).holders ≡ true
    → (member client lock.holders ≡ true) ⊎ (client_id ≡ client)
unfolding take_lock member
take_lock-member client client_id lt lock h =
    ground (arith, h, beq_eq client_id client, member-add client_id client lock.holders)

-- What a command makes of the lock that it names.
abbrev pub command_lock : Command → NodeLock → NodeLock
command_lock c lock =
    if c.action == "acquire"
    then elim (parse_lock_type (or_else c.lock_type "exclusive")) [
      | none ↦ lock
      | some lt ↦ take_lock c.client_id lt lock
    ]
    else if c.action == "release"
    then record lock { holders = discard c.client_id lock.holders }
    else lock

lock_of-insert :
    (k j : String) (lock : NodeLock) (locks : LockDict)
    → lock_of j (insert k lock locks) ≡ (if k == j then lock else lock_of j locks)
lock_of-insert k j lock locks = elim (Bool-cases (k == j)) [
  | inl same ↦ rw (lookup-insert k j lock locks, same) refl
  | inr differ ↦ rw (lookup-insert k j lock locks, differ) refl
]

own_lock :
    (c : Command) (lock : NodeLock) (locks : LockDict)
    → lock_of c.resource (insert c.resource lock locks) ≡ lock
own_lock c lock locks =
    lock_of-insert c.resource c.resource lock locks ∙ (rw (beq_refl c.resource) refl)

other_lock :
    (c : Command) (resource : String) (lock : NodeLock) (locks : LockDict)
    → (c.resource == resource) ≡ false
    → lock_of resource (insert c.resource lock locks) ≡ lock_of resource locks
other_lock c resource lock locks differ =
    lock_of-insert c.resource resource lock locks ∙ (rw differ refl)

pub named_lock :
    (c : Command) (locks : LockDict)
    → lock_of c.resource (apply_command c locks) ≡ command_lock c (lock_of c.resource locks)
unfolding apply_command discard
named_lock c locks = elim (Bool-cases (c.action == "acquire")) [
  | inl acquire ↦ elim (Option-cases (parse_lock_type (or_else c.lock_type "exclusive"))) [
    | inl odd ↦
        rw (acquire, apply_command, apply_acquire, odd)
          (own_lock c (lock_of c.resource locks) locks)
    | inr (lt, known) ↦
        rw (acquire, apply_command, apply_acquire, known)
          (own_lock c (take_lock c.client_id lt (lock_of c.resource locks)) locks)
  ]
  | inr other ↦ elim (Bool-cases (c.action == "release")) [
    | inr neither ↦ rw (other, apply_command, neither) refl
    | inl release ↦ elim (Option-cases (lookup c.resource locks)) [
      | inl absent ↦
          rw (other, apply_command, release, apply_release, absent)
            (ap (λ l. or_else l new_node_lock) absent)
      | inr (lock, there) ↦
          rw (other, apply_command, release, apply_release, there)
            (own_lock c (record lock { holders = discard c.client_id lock.holders }) locks)
    ]
  ]
]

unnamed_lock :
    (c : Command) (resource : String) (locks : LockDict)
    → (c.resource == resource) ≡ false
    → lock_of resource (apply_command c locks) ≡ lock_of resource locks
unfolding apply_command
unnamed_lock c resource locks differ = elim (Bool-cases (c.action == "acquire")) [
  | inl acquire ↦ elim (Option-cases (parse_lock_type (or_else c.lock_type "exclusive"))) [
    | inl odd ↦
        rw (acquire, apply_command, apply_acquire, odd)
          (other_lock c resource (lock_of c.resource locks) locks differ)
    | inr (lt, known) ↦
        rw (acquire, apply_command, apply_acquire, known)
          (other_lock c resource (take_lock c.client_id lt (lock_of c.resource locks)) locks differ)
  ]
  | inr other ↦ elim (Bool-cases (c.action == "release")) [
    | inr neither ↦ rw (other, apply_command, neither) refl
    | inl release ↦ elim (Option-cases (lookup c.resource locks)) [
      | inl absent ↦ rw (other, apply_command, release, apply_release, absent) refl
      | inr (lock, there) ↦
          rw (other, apply_command, release, apply_release, there)
            (other_lock c resource (record lock { holders = discard c.client_id lock.holders })
              locks differ)
    ]
  ]
]

-- A command that asks for the lock of a resource on behalf of a client.
abbrev pub asks_for : (client resource : String) → Command → Bool
asks_for client resource c =
    c.action == "acquire" && (c.client_id == client && c.resource == resource)

command_lock-IsExclusive :
    (c : Command) (lock : NodeLock) → IsExclusive lock → IsExclusive (command_lock c lock)
command_lock-IsExclusive c lock h = elim (Bool-cases (c.action == "acquire")) [
  | inl acquire ↦ elim (Option-cases (parse_lock_type (or_else c.lock_type "exclusive"))) [
    | inl odd ↦ rw (acquire, odd) h
    | inr (lt, known) ↦ rw (acquire, known) (take_lock-IsExclusive c.client_id lt lock h)
  ]
  | inr other ↦ elim (Bool-cases (c.action == "release")) [
    | inl release ↦
        rw (other, release) (λ e. omega (arith, h e, length-discard-le c.client_id lock.holders))
    | inr neither ↦ rw (other, neither) h
  ]
]

command_lock-member :
    (client : String) (c : Command) (lock : NodeLock)
    → asks_for client c.resource c ≡ false
    → member client (command_lock c lock).holders ≡ true
    → member client lock.holders ≡ true
command_lock-member client c lock quiet h = elim (Bool-cases (c.action == "acquire")) [
  | inl acquire ↦ elim (Option-cases (parse_lock_type (or_else c.lock_type "exclusive"))) [
    | inl odd ↦ ground (arith, h, acquire, odd)
    | inr (lt, known) ↦ ground (
      arith,
      quiet,
      acquire,
      beq_refl c.resource,
      beq_refl client,
      h,
      known,
      take_lock-member client c.client_id lt lock,
    )
  ]
  | inr other ↦ elim (Bool-cases (c.action == "release")) [
    | inl release ↦
        ground (arith, h, other, release, member-discard c.client_id client lock.holders)
    | inr neither ↦ ground (arith, h, other, neither)
  ]
]

-- Whatever a command does to the lock it names, it does to that lock only.
each_lock :
    (P : NodeLock → NodeLock → Type 0) (c : Command) (resource : String) (locks : LockDict)
    → P (lock_of resource locks) (lock_of resource locks)
    → (c.resource ≡ resource → P (lock_of resource locks) (command_lock c (lock_of resource locks)))
    → P (lock_of resource locks) (lock_of resource (apply_command c locks))
each_lock P c resource locks same_lock named = elim (Bool-cases (c.resource == resource)) [
  | inr differ ↦
      subst (P (lock_of resource locks)) (sym (unnamed_lock c resource locks differ)) same_lock
  | inl same ↦
      let e = beq_eq c.resource resource same in
      let own : lock_of resource (apply_command c locks) ≡ command_lock c (lock_of resource locks) =
        subst (λ r. lock_of r (apply_command c locks) ≡ command_lock c (lock_of r locks)) e
          (named_lock c locks) in
      subst (P (lock_of resource locks)) (sym own) (named e)
]

run-IsExclusive_from :
    (cs : List Command) (resource : String) (locks : LockDict)
    → IsExclusive (lock_of resource locks)
    → IsExclusive (lock_of resource (apply_commands cs locks))
unfolding apply_commands
run-IsExclusive_from [] resource locks h = h
run-IsExclusive_from (c ∷ cs) resource locks h =
    run-IsExclusive_from cs resource (apply_command c locks) (
      each_lock (λ old new. IsExclusive old → IsExclusive new) c resource locks (λ h. h)
        (λ e. command_lock-IsExclusive c (lock_of resource locks)) h)

-- Whatever commands are committed on a new node, a lock that is exclusive has one holder at most.
pub commands-IsExclusive :
    (cs : List Command) (resource : String) → IsExclusive (lock_of resource (apply_commands cs []))
unfolding lookup
commands-IsExclusive cs resource = run-IsExclusive_from cs resource [] (λ e. omega arith)

-- No command of the list asks for the lock of the resource on behalf of the client.
abbrev pub IsQuiet : (client resource : String) → List Command → Type 0
IsQuiet client resource cs = All (λ c. asks_for client resource c ≡ false) cs

-- A client that does not hold a lock does not come to hold it before it asks for it, whoever releases
-- it: also one that has asked and waits is never granted the lock.
pub waiter_is_not_granted :
    (client resource : String) (cs : List Command) (locks : LockDict)
    → IsQuiet client resource cs
    → member client (lock_of resource locks).holders ≡ false
    → member client (lock_of resource (apply_commands cs locks)).holders ≡ false
unfolding apply_commands
waiter_is_not_granted client resource [] locks quiet h = h
waiter_is_not_granted client resource (c ∷ cs) locks (quiet, rest) h =
    waiter_is_not_granted client resource cs (apply_command c locks) rest (
      each_lock (λ old new. member client old.holders ≡ false → member client new.holders ≡ false) c
        resource locks (λ h. h) (λ e h. not_granted e h) h)
  where
    not_granted :
        c.resource ≡ resource
        → member client (lock_of resource locks).holders ≡ false
        → member client (command_lock c (lock_of resource locks)).holders ≡ false
    not_granted e h =
        elim (Bool-cases (member client (command_lock c (lock_of resource locks)).holders)) [
          | inr out ↦ out
          | inl granted ↦
              let q : asks_for client c.resource c ≡ false =
                subst (λ r. asks_for client r c ≡ false) (sym e) quiet in
              absurd
                (ground (arith, h, command_lock-member client c (lock_of resource locks) q granted))
        ]
