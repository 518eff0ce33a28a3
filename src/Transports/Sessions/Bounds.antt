-- ===== src/Transports/Sessions/Bounds.antt =====
-- transports/http/sessions.py: the number of sessions, and who may use one.
use mcp_zero_trust_layer.Base.{
  ltb, if◌then◌else◌, Bool-cases, Option-cases, ◌==◌, truthy, nat_eq, string_eq, option_eq, length,
  ℤ, int_eq, bool_eq, ℕ, suc, ◌≤◌, String, ◌≡◌, refl, ◌∙◌, inl, inr, Bool, true, false, not, ◌&&◌,
  Option, none, some, [], ◌∷◌, arith,
}
use mcp_zero_trust_layer.Base.Dict.{Dict, lookup, insert, length-insert, length-erase}
use mcp_zero_trust_layer.Value.{key_error, value_error, Outcome, ok, raise}
use mcp_zero_trust_layer.Config.{capability_type_eq, Identity}
use mcp_zero_trust_layer.Transports.Sessions.{
  Owner, Session, SessionRegistry, owner_of, same_owner, remove, is_expired, sweep,
  resolve_supplied, resolve_new, resolve,
}

abbrev IsBounded : ℕ → SessionRegistry → Type 0
IsBounded capacity r = length r.entries ≤ capacity

remove-IsBounded :
    (capacity : ℕ) (key : String) (r : SessionRegistry)
    → IsBounded capacity r
    → IsBounded capacity (remove key r)
unfolding remove
remove-IsBounded capacity key r h = elim (Option-cases (lookup key r.entries)) [
  | inl missing ↦ rw (missing, remove) h
  | inr (s, found) ↦ rw (found, remove) (omega (arith, length-erase key r.entries, h))
]

if-IsBounded :
    (capacity : ℕ) (b : Bool) (x y : SessionRegistry)
    → IsBounded capacity x
    → IsBounded capacity y
    → IsBounded capacity (if b then x else y)
if-IsBounded capacity true x y h k = h
if-IsBounded capacity false x y h k = k

sweep-IsBounded :
    (capacity : ℕ) (ttl now : ℤ) (copy : Dict String Session) (r : SessionRegistry)
    → IsBounded capacity r
    → IsBounded capacity (sweep ttl now copy r)
unfolding sweep
sweep-IsBounded capacity ttl now [] r h = h
sweep-IsBounded capacity ttl now ((key, s) ∷ rest) r h = sweep-IsBounded capacity ttl now rest _ (
    if-IsBounded capacity (is_expired ttl now s) (remove key r) r
      (remove-IsBounded capacity key r h) h)

pair_if-IsBounded :
    (capacity : ℕ) (b : Bool) (p q : Outcome (Option String) × SessionRegistry)
    → IsBounded capacity p.1
    → (b ≡ false → IsBounded capacity q.1)
    → IsBounded capacity (if b then p else q).1
pair_if-IsBounded capacity true p q h k = h
pair_if-IsBounded capacity false p q h k = k refl

-- a write at a key that is there
length-insert_there :
    (key : String) (v s : Session) (d : Dict String Session)
    → lookup key d ≡ some s
    → length (insert key v d) ≡ length d
length-insert_there key v s d found = length-insert key v d ∙ rw found

length-insert_le :
    (key : String) (v : Session) (d : Dict String Session)
    → length (insert key v d) ≤ suc (length d)
length-insert_le key v d = ground (arith, length-insert key v d)

room : (n capacity : ℕ) → not (ltb n capacity) ≡ false → suc n ≤ capacity
room n capacity h = ground arith

resolve_supplied-IsBounded :
    (capacity : ℕ) (now : ℤ) (server : String) (owner : Owner) (supplied : String)
    (initialize : Bool) (r : SessionRegistry)
    → IsBounded capacity r
    → IsBounded capacity (resolve_supplied now server owner supplied initialize r).1
unfolding resolve_supplied
resolve_supplied-IsBounded capacity now server owner supplied initialize r h =
    elim (Option-cases (lookup supplied r.entries)) [
      | inl missing ↦ rw (missing, resolve_supplied) h
      | inr (entry, found) ↦
          let later = record entry { touched = now } in
          let kept : length (insert supplied later r.entries) ≤ capacity =
            omega (arith, h, length-insert_there supplied later entry r.entries found) in
          rw (found, resolve_supplied)
            (pair_if-IsBounded capacity
              (not (entry.server == server && same_owner entry.owner owner))
              (raise (key_error "Unknown session"), r)
              (if initialize
                then (raise (value_error "Initialize must start a new session"), r)
                else (ok (some supplied), record r { entries = insert supplied later r.entries }))
              h
              (λ _.
                pair_if-IsBounded capacity initialize
                  (raise (value_error "Initialize must start a new session"), r)
                  (ok (some supplied), record r { entries = insert supplied later r.entries }) h
                  (λ _. kept)))
    ]

resolve_new-IsBounded :
    (capacity : ℕ) (now : ℤ) (server : String) (owner : Owner) (key : String) (initialize : Bool)
    (r : SessionRegistry)
    → IsBounded capacity r
    → IsBounded capacity (resolve_new capacity now server owner key initialize r).1
unfolding resolve_new
resolve_new-IsBounded capacity now server owner key initialize r h =
    pair_if-IsBounded capacity (not initialize) _ _ h λ _.
      pair_if-IsBounded capacity (not (ltb (length r.entries) capacity)) _ _ h λ free. omega (
        arith,
        room (length r.entries) capacity free,
        length-insert_le key (record { server = server; owner = owner; touched = now }) r.entries,
      )

-- The registry never grows past its capacity: if it holds at most that many sessions, it does so
-- after any call of `resolve`, whether it returns or raises.
pub resolve-IsBounded :
    (ttl : ℤ) (capacity : ℕ) (now : ℤ) (key server : String) (identity : Identity)
    (supplied : Option String) (initialize : Bool) (r : SessionRegistry)
    → length r.entries ≤ capacity
    → length (resolve ttl capacity now key server identity supplied initialize r).1.entries
      ≤ capacity
unfolding resolve
resolve-IsBounded ttl capacity now key server identity none initialize r h =
    resolve_new-IsBounded capacity now server (owner_of identity) key initialize _
      (sweep-IsBounded capacity ttl now r.entries r h)
resolve-IsBounded ttl capacity now key server identity (some id) initialize r h =
    let swept = sweep-IsBounded capacity ttl now r.entries r h in
    elim (Bool-cases (truthy id)) [
      | inl given ↦
          rw given (
            resolve_supplied-IsBounded capacity now server (owner_of identity) id initialize _
              swept)
      | inr empty ↦
          rw empty
            (resolve_new-IsBounded capacity now server (owner_of identity) key initialize _ swept)
    ]
