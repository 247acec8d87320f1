-- ===== src/Resolver/Locking.antt =====
-- What the lock has after packages are resolved.
use akua.Base.{
  ℕ, suc, ◌≡◌, refl, sym, ap, ◌∙◌, true, Option, none, some, List, [], ◌∷◌, arith, get_elem?,
  position, find, if◌then◌else◌, Bool-cases, inl, inr, ◌==◌, nat_eq, list_eq, list_beq,
  list_beq_iff,
}
use akua.Base.Orders.{nat_ord, list_ord, pair_ord}
use akua.Base.Texts.{Text}
use akua.Lock.{AkuaLock, LockedPackage, has_key, find_slot, upsert_at, upsert}
use akua.Lock.Entries.{entry_of, entry_of-upsert}
use akua.Resolver.{
  ResolvedSource, to_locked_fields, carried, at_slot, locked_entry, carry_field,
  upsert_locked_from_source,
}

get_elem?-position :
    (name version : Text) (ps : List LockedPackage)
    → (elim (position (has_key name version) ps) [ none ↦ none | some i ↦ get_elem? ps i ])
      ≡ entry_of name version ps
unfolding position find
get_elem?-position name version [] = refl
get_elem?-position name version (p ∷ ps) = elim (Bool-cases (has_key name version p)) [
  | inl h ↦ rw h refl
  | inr h ↦ rw h (later (position (has_key name version) ps) (get_elem?-position name version ps))
]
  where
    later :
        (slot : Option ℕ) {o : Option LockedPackage}
        → (elim slot [ none ↦ none | some i ↦ get_elem? ps i ]) ≡ o
        → (elim (elim slot as (λ _. Option ℕ) [ none ↦ none | some i ↦ some (suc i) ]) [
          | none ↦ none
          | some i ↦ get_elem? (p ∷ ps) i
        ])
          ≡ o
    later none e = e
    later (some i) e = e

at_slot-elim :
    (slot : Option ℕ) (lock : AkuaLock)
    → at_slot slot lock ≡ (elim slot [ none ↦ none | some i ↦ get_elem? lock.packages i ])
unfolding at_slot
at_slot-elim none lock = refl
at_slot-elim (some i) lock = refl

-- The entry at the slot is the one of the name and version.
pub at_slot-find_slot :
    (name version : Text) (lock : AkuaLock)
    → at_slot (find_slot name version lock) lock ≡ entry_of name version lock.packages
unfolding find_slot
at_slot-find_slot name version lock =
    at_slot-elim (find_slot name version lock) lock ∙ get_elem?-position name version lock.packages

-- The entry that is written: what it carries over is taken from the entry of the same name and version.
abbrev pub written_entry : Text → ResolvedSource → Text → AkuaLock → LockedPackage
written_entry name source digest lock =
    let fields = to_locked_fields source in
    locked_entry name fields digest (carried digest (entry_of name fields.1 lock.packages))

pub upsert_locked-upsert :
    (name : Text) (source : ResolvedSource) (digest : Text) (lock : AkuaLock)
    → upsert_locked_from_source name source digest lock
      ≡ upsert (written_entry name source digest lock) lock
unfolding upsert_locked_from_source upsert
upsert_locked-upsert name source digest lock =
    let fields = to_locked_fields source in
    ap
      (λ p.
        upsert_at (find_slot name fields.1 lock)
          (locked_entry name fields digest (carried digest p)) lock)
      (at_slot-find_slot name fields.1 lock)

-- The entry of the name and version is the written one, and no other entry changes.
pub entry_of-upsert_locked :
    (n v name : Text) (source : ResolvedSource) (digest : Text) (lock : AkuaLock)
    → entry_of n v (upsert_locked_from_source name source digest lock).packages ≡ (
        if has_key n v (written_entry name source digest lock)
        then some (written_entry name source digest lock)
        else entry_of n v lock.packages)
entry_of-upsert_locked n v name source digest lock =
    ap (λ l. entry_of n v l.packages) (upsert_locked-upsert name source digest lock)
    ∙ entry_of-upsert n v (written_entry name source digest lock) lock

pub written_entry-key :
    (name : Text) (source : ResolvedSource) (digest : Text) (lock : AkuaLock)
    → has_key name (to_locked_fields source).1 (written_entry name source digest lock) ≡ true
unfolding list_beq
written_entry-key name source digest lock =
    let version = (to_locked_fields source).1 in
    ground (arith, list_beq_iff name name, list_beq_iff version version)

carried-signature :
    (digest s : Text) (old : Option LockedPackage)
    → carry_field (carried digest old) (λ p. p.signature) ≡ some s
    → (p : LockedPackage) × (old ≡ some p) × (p.digest ≡ digest) × (p.signature ≡ some s)
unfolding carried
carried-signature digest s none h = cc
carried-signature digest s (some p) h = elim (Bool-cases (p.digest == digest)) [
  | inl e ↦ (p, refl, (list_beq_iff p.digest digest).0 e, ground arith)
  | inr e ↦ absurd (ground arith)
]

-- A signature is in the entry that a resolved package writes only if the entry of the same name and
-- version had it before, under the same digest.
pub upsert_locked-signature :
    (name : Text) (source : ResolvedSource) (digest : Text) (lock : AkuaLock) {p : LockedPackage}
    {s : Text}
    → entry_of name
        (to_locked_fields source).1
        (upsert_locked_from_source name source digest lock).packages
      ≡ some p
    → p.signature ≡ some s
    → (p.digest ≡ digest)
      × (old : LockedPackage) × (entry_of name (to_locked_fields source).1 lock.packages ≡ some old)
      × (old.digest ≡ digest)
      × (old.signature ≡ some s)
upsert_locked-signature name source digest lock {p} {s} h k =
    let version = (to_locked_fields source).1 in
    let entry = written_entry name source digest lock in
    let stored = entry_of-upsert_locked name version name source digest lock in
    let found : some entry ≡ some p =
      sym (stored ∙ rw (written_entry-key name source digest lock) refl) ∙ h in
    let written : entry ≡ p = cc in
    let (old, was, same, signed) =
      carried-signature digest s (entry_of name version lock.packages)
        (ap (λ q. q.signature) written ∙ k) in
    (sym (ap (λ q. q.digest) written), old, was, same, signed)
