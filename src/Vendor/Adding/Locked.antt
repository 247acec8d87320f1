-- ===== src/Vendor/Adding/Locked.antt =====
-- What the lock has after a dependency is vendored.
use akua.Base.{
  ℕ, ◌≡◌, refl, sym, ap, ap₂, ◌∙◌, Bool, true, false, Option, none, some, List, [], ◌∷◌, inl, inr,
  find, Bool-cases, nat_eq, list_eq, if◌then◌else◌,
}
use akua.Base.Orders.{nat_ord, list_ord}
use akua.Base.Runs.{Run, returns}
use akua.Base.Texts.{Text}
use akua.Lock.{AkuaLock, LockedPackage, has_key, find_slot, upsert_at, upsert}
use akua.Lock.Entries.{entry_of, entry_of-upsert, has_key_iff}
use akua.Manifest.{Dependency}
use akua.Resolver.{ResolvedSource, to_locked_fields, at_slot, upsert_locked_from_source}
use akua.Resolver.Locking.{
  at_slot-find_slot, written_entry, written_entry-key, entry_of-upsert_locked,
}
use akua.Vendor.Adding.{
  vendor_lock_source, set_vendor_digest_at, record_vendor_digest, vendored_lock,
}

find-true {ℓ} : {A : Type ℓ} (f : A → Bool) (xs : List A) {a : A} → find f xs ≡ some a → f a ≡ true
unfolding find
find-true f [] h = cc
find-true f (x ∷ xs) {a} h = elim (Bool-cases (f x)) [
  | inl e ↦
      let same : some x ≡ some a = sym (rw e refl) ∙ h in let eq : x ≡ a = cc in sym (ap f eq) ∙ e
  | inr e ↦ find-true f xs (sym (rw e refl) ∙ h)
]

with_vendor_digest : LockedPackage → Text → LockedPackage
with_vendor_digest p digest = record p { vendor_digest = some digest }

-- The write to the slot puts the changed entry in the place of its old one.
record_vendor_digest-upsert :
    (name : Text) (source : ResolvedSource) (digest : Text) (lock : AkuaLock) {p : LockedPackage}
    → entry_of name (to_locked_fields source).1 lock.packages ≡ some p
    → record_vendor_digest name source (some digest) lock
      ≡ upsert (with_vendor_digest p digest) lock
unfolding record_vendor_digest upsert with_vendor_digest set_vendor_digest_at upsert_at at_slot
record_vendor_digest-upsert name source digest lock {p} h =
    let version = (to_locked_fields source).1 in
    let slot = find_slot name version lock in
    let key = (has_key_iff name version p).0 (find-true (has_key name version) lock.packages h) in
    let stored : at_slot slot lock ≡ some p = at_slot-find_slot name version lock ∙ h in
    ap (λ q. set_vendor_digest_at slot q digest lock) stored
    ∙ at_found slot stored
    ∙ ap₂ (λ n v. upsert_at (find_slot n v lock) (with_vendor_digest p digest) lock)
        (sym (ap (λ k. k.0) key)) (sym (ap (λ k. k.1) key))
  where
    at_found :
        (slot : Option ℕ)
        → at_slot slot lock ≡ some p
        → set_vendor_digest_at slot (some p) digest lock
          ≡ upsert_at slot (with_vendor_digest p digest) lock
    at_found none e = cc
    at_found (some i) e = refl

-- The entry that a vendored dependency has: the digest of its tree, where it is not the lock's.
abbrev pub vendored_entry : Text → ResolvedSource → Text → Option Text → AkuaLock → LockedPackage
vendored_entry name source digest none lock = written_entry name source digest lock
vendored_entry name source digest (some tree) lock =
    record (written_entry name source digest lock) { vendor_digest = some tree }

record_vendor_digest-entry_of :
    (n v name : Text) (source : ResolvedSource) (digest : Text) (vendor_digest : Option Text)
    (lock : AkuaLock)
    → entry_of n v
        (record_vendor_digest name source vendor_digest
          (upsert_locked_from_source name source digest lock)).packages
      ≡ (if has_key n v (written_entry name source digest lock)
          then some (vendored_entry name source digest vendor_digest lock)
          else entry_of n v lock.packages)
unfolding record_vendor_digest with_vendor_digest
record_vendor_digest-entry_of n v name source digest none lock =
    entry_of-upsert_locked n v name source digest lock
record_vendor_digest-entry_of n v name source digest (some tree) lock =
    let version = (to_locked_fields source).1 in
    let entry = written_entry name source digest lock in
    let next = upsert_locked_from_source name source digest lock in
    let stored =
      entry_of-upsert_locked name version name source digest lock
      ∙ rw (written_entry-key name source digest lock) refl in
    ap (λ l. entry_of n v l.packages)
      (record_vendor_digest-upsert name source tree next {p = entry} stored)
    ∙ entry_of-upsert n v (with_vendor_digest entry tree) next
    ∙ ap (λ o. if has_key n v entry then some (with_vendor_digest entry tree) else o)
        (entry_of-upsert_locked n v name source digest lock)
    ∙ under_test (has_key n v entry) (with_vendor_digest entry tree) entry
        (entry_of n v lock.packages)
  where
    under_test :
        (b : Bool) (x y : LockedPackage) (o : Option LockedPackage)
        → (if b then some x else (if b then some y else o)) ≡ (if b then some x else o)
    under_test true x y o = refl
    under_test false x y o = refl

returned_lock :
    {E : Type 0} (made l : AkuaLock)
    → ◌≡◌ {A = Run E AkuaLock} (returns made) (returns l)
    → made ≡ l
returned_lock made l e = cc

-- The lock after a dependency is vendored: its name and the version of its source have the entry that the
-- resolver would write for the digest, with the digest of the tree where one is given, and every other name
-- and version have what they had before.
pub entry_of-vendored_lock :
    {E : Type 0} (n v name : Text) (dep : Dependency) (lock_digest : Text)
    (vendor_digest : Option Text) (lock : AkuaLock) {source : ResolvedSource} {digest : Text}
    {after : AkuaLock}
    → vendor_lock_source {E = E} dep lock_digest ≡ returns (source, digest)
    → vendored_lock {E = E} name dep lock_digest vendor_digest lock ≡ returns after
    → entry_of n v after.packages ≡ (
        if has_key n v (written_entry name source digest lock)
        then some (vendored_entry name source digest vendor_digest lock)
        else entry_of n v lock.packages)
unfolding vendored_lock
entry_of-vendored_lock n v name dep lock_digest vendor_digest lock {source} {digest} {after} h k =
    let made =
      record_vendor_digest name source vendor_digest
        (upsert_locked_from_source name source digest lock) in
    ap (λ l. entry_of n v l.packages) (sym (returned_lock made after (sym (rw h refl) ∙ k)))
    ∙ record_vendor_digest-entry_of n v name source digest vendor_digest lock
