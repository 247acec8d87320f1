-- ===== src/Lock/Entries.antt =====
-- The lock as a map from a name and a version to an entry.
use akua.Base.{
  ℕ, suc, ◌≡◌, refl, sym, ap, ap₂, ◌∙◌, subst, ◌↔◌, true, Option, none, some, List, [], ◌∷◌, ◌++◌,
  arith, All, ◌==◌, nat_eq, list_eq, list_beq_iff, find, position, set, if◌then◌else◌, Bool-cases,
  inl, inr, ok,
}
use akua.Base.Orders.{nat_ord, list_ord, pair_ord, pair_lt}
use akua.Base.Sorting.{HasDistinctKeys, insert_by_key, sort_by_key, All-sort_of}
use akua.Base.Texts.{Text}
use akua.Lock.{
  LockedPackage, AkuaLock, has_known_digest, validate, sort_key, sort, has_key, find_slot,
  upsert_at, upsert,
}
use akua.Lock.Order.{KnownDigests, sort-validate}

-- The first entry of a name and a version.
abbrev pub entry_of : Text → Text → List LockedPackage → Option LockedPackage
entry_of name version ps = find (has_key name version) ps

-- The entries after `upsert`.
put : LockedPackage → List LockedPackage → List LockedPackage
put entry [] = entry ∷ []
put entry (p ∷ ps) = if has_key entry.name entry.version p then entry ∷ ps else p ∷ put entry ps

upsert_at_slot : Option ℕ → LockedPackage → List LockedPackage → List LockedPackage
upsert_at_slot none entry ps = ps ++ (entry ∷ [])
upsert_at_slot (some i) entry ps = set ps i entry

upsert_at_slot-position :
    (entry : LockedPackage) (ps : List LockedPackage)
    → upsert_at_slot (position (has_key entry.name entry.version) ps) entry ps ≡ put entry ps
unfolding upsert_at_slot position put
upsert_at_slot-position entry [] = refl
upsert_at_slot-position entry (p ∷ ps) = elim (Bool-cases (has_key entry.name entry.version p)) [
  | inl h ↦ rw h refl
  | inr h ↦
      rw h
        (later (position (has_key entry.name entry.version) ps) (upsert_at_slot-position entry ps))
]
  where
    later :
        (slot : Option ℕ)
        → upsert_at_slot slot entry ps ≡ put entry ps
        → upsert_at_slot (elim slot [ none ↦ none | some i ↦ some (suc i) ]) entry (p ∷ ps)
          ≡ p ∷ put entry ps
    later none e = ap (p ∷◌) e
    later (some i) e = ap (p ∷◌) e

upsert_at-packages :
    (slot : Option ℕ) (entry : LockedPackage) (lock : AkuaLock)
    → upsert_at slot entry lock ≡ record lock { packages = upsert_at_slot slot entry lock.packages }
unfolding upsert_at upsert_at_slot
upsert_at-packages none entry lock = refl
upsert_at-packages (some i) entry lock = refl

upsert-put :
    (entry : LockedPackage) (lock : AkuaLock)
    → upsert entry lock ≡ record lock { packages = put entry lock.packages }
unfolding upsert find_slot
upsert-put entry lock =
    upsert_at-packages (find_slot entry.name entry.version lock) entry lock
    ∙ ap (λ ps. record lock { packages = ps }) (upsert_at_slot-position entry lock.packages)

pub has_key_iff :
    (name version : Text) (p : LockedPackage)
    → has_key name version p ≡ true ↔ (sort_key p ≡ (name, version))
has_key_iff name version p = (
  (λ h.
      ap₂ (λ n v. (n, v)) (ground (arith, list_beq_iff p.name name))
        (ground (arith, list_beq_iff p.version version))),
  (λ e.
      let n : p.name ≡ name = ap (λ k. k.0) e in
      let v : p.version ≡ version = ap (λ k. k.1) e in
      ground (arith, list_beq_iff p.name name, list_beq_iff p.version version)),
)

find-put :
    (name version : Text) (entry : LockedPackage) (ps : List LockedPackage)
    → entry_of name version (put entry ps)
      ≡ (if has_key name version entry then some entry else entry_of name version ps)
unfolding put find
find-put name version entry [] = refl
find-put name version entry (p ∷ ps) = elim (Bool-cases (has_key entry.name entry.version p)) [
  | inl h ↦ rw h (
      ground (
        arith,
        list_beq_iff p.name entry.name,
        list_beq_iff p.version entry.version,
        list_beq_iff p.name name,
        list_beq_iff p.version version,
        list_beq_iff entry.name name,
        list_beq_iff entry.version version,
        ap (λ n. n == name),
        ap (λ v. v == version),
      ))
  | inr h ↦ rw h (
      ground (
        arith,
        find-put name version entry ps,
        list_beq_iff p.name entry.name,
        list_beq_iff p.version entry.version,
        list_beq_iff p.name name,
        list_beq_iff p.version version,
        list_beq_iff entry.name name,
        list_beq_iff entry.version version,
      ))
]

-- After `upsert` the entry's name and version have the entry, and every other name and version have what
-- they had before.
pub entry_of-upsert :
    (name version : Text) (entry : LockedPackage) (lock : AkuaLock)
    → entry_of name version (upsert entry lock).packages
      ≡ (if has_key name version entry then some entry else entry_of name version lock.packages)
entry_of-upsert name version entry lock =
    ap (λ l. entry_of name version l.packages) (upsert-put entry lock)
    ∙ find-put name version entry lock.packages

All-put {ℓ} :
    (P : LockedPackage → Type ℓ) (entry : LockedPackage) (ps : List LockedPackage)
    → P entry
    → All P ps
    → All P (put entry ps)
unfolding put
All-put P entry [] h a = (h, tt)
All-put P entry (p ∷ ps) h a = elim (Bool-cases (has_key entry.name entry.version p)) [
  | inl e ↦ rw e (h, a.1)
  | inr e ↦ rw e (a.0, All-put P entry ps h a.1)
]

HasDistinctKeys-put :
    (entry : LockedPackage) (ps : List LockedPackage)
    → HasDistinctKeys sort_key ps
    → HasDistinctKeys sort_key (put entry ps)
unfolding put
HasDistinctKeys-put entry [] h = (tt, tt)
HasDistinctKeys-put entry (p ∷ ps) h = elim (Bool-cases (has_key entry.name entry.version p)) [
  | inl e ↦ rw e (
    subst (λ k. All (λ y. ¬ (k ≡ sort_key y)) ps) ((has_key_iff entry.name entry.version p).0 e)
        h.0,
    h.1,
  )
  | inr e ↦ rw e (
    All-put (λ y. ¬ (sort_key p ≡ sort_key y)) entry ps
        (λ k. let true_key = (has_key_iff entry.name entry.version p).1 k in ground arith) h.0,
    HasDistinctKeys-put entry ps h.1,
  )
]

-- Where a lock of version 1 has no two entries of one name and version and every digest has a known
-- prefix, then after `upsert` of an entry with a known digest it has this again, and sorted it is valid.
pub upsert-valid :
    {TomlError : Type 0} (entry : LockedPackage) (lock : AkuaLock)
    → lock.version ≡ 1
    → HasDistinctKeys sort_key lock.packages
    → KnownDigests lock.packages
    → has_known_digest entry ≡ true
    → HasDistinctKeys sort_key (upsert entry lock).packages
      × KnownDigests (upsert entry lock).packages
      × (validate {TomlError = TomlError} (sort (upsert entry lock)) ≡ ok tt)
upsert-valid {TomlError} entry lock v h d k =
    let distinct = HasDistinctKeys-put entry lock.packages h in
    let known = All-put (λ p. has_known_digest p ≡ true) entry lock.packages k d in
    let back = sym (upsert-put entry lock) in
    subst
      (λ l.
        HasDistinctKeys sort_key l.packages
        × KnownDigests l.packages
        × (validate {TomlError = TomlError} (sort l) ≡ ok tt))
      back
      (
        distinct,
        known,
        sort-validate (record lock { packages = put entry lock.packages }) v distinct known,
      )

pub upsert-version :
    (entry : LockedPackage) (lock : AkuaLock) → (upsert entry lock).version ≡ lock.version
upsert-version entry lock = ap (λ l. l.version) (upsert-put entry lock)

has_key-sort_key :
    (name version : Text) (p q : LockedPackage)
    → has_key name version p ≡ true
    → has_key name version q ≡ true
    → sort_key p ≡ sort_key q
has_key-sort_key name version p q h k =
    (has_key_iff name version p).0 h ∙ sym ((has_key_iff name version q).0 k)

find-insert_by_key :
    (name version : Text) (p : LockedPackage) (ps : List LockedPackage)
    → All (λ q. ¬ (sort_key p ≡ sort_key q)) ps
    → entry_of name version (insert_by_key sort_key p ps)
      ≡ (if has_key name version p then some p else entry_of name version ps)
unfolding insert_by_key find
find-insert_by_key name version p [] a = refl
find-insert_by_key name version p (q ∷ ps) a =
    let ih = find-insert_by_key name version p ps a.1 in
    elim (Bool-cases (pair_lt (sort_key q) (sort_key p))) [
      | inl e ↦ rw e (elim (Bool-cases (has_key name version q)) [
        | inl hq ↦ elim (Bool-cases (has_key name version p)) [
          | inl hp ↦ absurd (a.0 (has_key-sort_key name version p q hp hq))
          | inr hp ↦ rw (hp, hq) refl
        ]
        | inr hq ↦ rw hq ih
      ])
      | inr e ↦ rw e refl
    ]

find-sort_by_key :
    (name version : Text) (ps : List LockedPackage)
    → HasDistinctKeys sort_key ps
    → entry_of name version (sort_by_key sort_key ps) ≡ entry_of name version ps
unfolding sort_by_key find
find-sort_by_key name version [] h = refl
find-sort_by_key name version (p ∷ ps) h =
    find-insert_by_key name version p (sort_by_key sort_key ps)
      (All-sort_of sort_key (λ q. ¬ (sort_key p ≡ sort_key q)) ps h.0)
    ∙ ap (λ o. if has_key name version p then some p else o) (find-sort_by_key name version ps h.1)

-- Sorting leaves the entry of every name and version, where no two entries have the same.
pub entry_of-sort :
    (name version : Text) (lock : AkuaLock)
    → HasDistinctKeys sort_key lock.packages
    → entry_of name version (sort lock).packages ≡ entry_of name version lock.packages
unfolding sort
entry_of-sort name version lock h = find-sort_by_key name version lock.packages h
