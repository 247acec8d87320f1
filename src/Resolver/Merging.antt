-- ===== src/Resolver/Merging.antt =====
-- The lock after `merge_into_lock`.
use akua.Base.{
  ◌≡◌, refl, sym, ap, ◌∙◌, subst, true, ◌||◌, some, [], ◌∷◌, ok, All, In, here, there, Bool-cases,
  inl, inr, nat_eq, list_eq,
}
use akua.Base.Maps.{Map}
use akua.Base.Orders.{nat_ord, list_ord, pair_ord}
use akua.Base.Sorting.{HasDistinctKeys}
use akua.Base.Texts.{Text, starts_with}
use akua.Lock.{
  AkuaLock, LockedPackage, has_key, sort_key, validate, sha256_digest_prefix, git_digest_prefix,
}
use akua.Lock.Order.{KnownDigests, sort-validate}
use akua.Lock.Entries.{entry_of, has_key_iff, entry_of-sort, upsert-valid, upsert-version}
use akua.Resolver.{
  ResolvedChart, ResolvedCharts, to_locked_fields, upsert_locked_from_source, upsert_all,
  merge_into_lock,
}
use akua.Resolver.Locking.{
  written_entry, written_entry-key, upsert_locked-upsert, entry_of-upsert_locked,
}

-- Resolved charts whose digests have a known prefix.
abbrev pub KnownCharts : Map Text ResolvedChart → Type 0
KnownCharts = All (λ (e : Text × ResolvedChart).
    (starts_with e.1.sha256 sha256_digest_prefix || starts_with e.1.sha256 git_digest_prefix)
    ≡ true)

upsert_all-valid :
    (charts : Map Text ResolvedChart) (lock : AkuaLock)
    → lock.version ≡ 1
    → HasDistinctKeys sort_key lock.packages
    → KnownDigests lock.packages
    → KnownCharts charts
    → ((upsert_all charts lock).version ≡ 1)
      × HasDistinctKeys sort_key (upsert_all charts lock).packages
      × KnownDigests (upsert_all charts lock).packages
unfolding upsert_all
upsert_all-valid [] lock v h d k = (v, h, d)
upsert_all-valid ((_, chart) ∷ charts) lock v h d k =
    let back = sym (upsert_locked-upsert chart.name chart.source chart.sha256 lock) in
    let entry = written_entry chart.name chart.source chart.sha256 lock in
    let (distinct, known, _) = upsert-valid {TomlError = Unit {0}} entry lock v h d k.0 in
    upsert_all-valid charts (upsert_locked_from_source chart.name chart.source chart.sha256 lock)
      (ap (λ l. l.version) (sym back) ∙ upsert-version entry lock ∙ v)
      (subst (λ l. HasDistinctKeys sort_key l.packages) back distinct)
      (subst (λ l. KnownDigests l.packages) back known) k.1

-- Merging resolved charts whose digests have a known prefix into a lock of version 1 that has no two
-- entries of one name and version and only known digests gives a valid lock.
pub merge_into_lock-valid :
    {TomlError : Type 0} (resolved : ResolvedCharts) (lock : AkuaLock)
    → lock.version ≡ 1
    → HasDistinctKeys sort_key lock.packages
    → KnownDigests lock.packages
    → KnownCharts resolved.entries
    → validate {TomlError = TomlError} (merge_into_lock resolved lock) ≡ ok tt
unfolding merge_into_lock
merge_into_lock-valid resolved lock v h d k =
    let (version, distinct, known) = upsert_all-valid resolved.entries lock v h d k in
    sort-validate (upsert_all resolved.entries lock) version distinct known

abbrev pub locked_key : Text × ResolvedChart → Text × Text
locked_key (_, chart) = (chart.name, (to_locked_fields chart.source).1)

upsert_all-other :
    (n v : Text) (charts : Map Text ResolvedChart) (lock : AkuaLock)
    → All (λ e. ¬ ((n, v) ≡ locked_key e)) charts
    → entry_of n v (upsert_all charts lock).packages ≡ entry_of n v lock.packages
unfolding upsert_all
upsert_all-other n v [] lock a = refl
upsert_all-other n v ((m, chart) ∷ charts) lock a =
    upsert_all-other n v charts
      (upsert_locked_from_source chart.name chart.source chart.sha256 lock) a.1
    ∙ entry_of-upsert_locked n v chart.name chart.source chart.sha256 lock
    ∙ (elim (Bool-cases (has_key n v (written_entry chart.name chart.source chart.sha256 lock))) [
      | inl e ↦ absurd (
          a.0
            (sym ((has_key_iff n v (written_entry chart.name chart.source chart.sha256 lock)).0 e)))
      | inr e ↦ rw e refl
    ])

upsert_all-member :
    (charts : Map Text ResolvedChart) (lock : AkuaLock) (e : Text × ResolvedChart)
    → HasDistinctKeys locked_key charts
    → In e charts
    → (p : LockedPackage) × (entry_of e.1.name
          (to_locked_fields e.1.source).1
          (upsert_all charts lock).packages
        ≡ some p)
      × (p.digest ≡ e.1.sha256)
unfolding upsert_all
upsert_all-member [] lock e h m = elim m [ ]
upsert_all-member ((n, chart) ∷ charts) lock e h (there m) =
    upsert_all-member charts (upsert_locked_from_source chart.name chart.source chart.sha256 lock) e
      h.1 m
upsert_all-member ((n, chart) ∷ charts) lock e h (here same) =
    let entry = written_entry chart.name chart.source chart.sha256 lock in
    let version = (to_locked_fields chart.source).1 in
    subst
      (λ x.
        (p : LockedPackage) × (entry_of x.1.name (to_locked_fields x.1.source).1
            (upsert_all ((n, chart) ∷ charts) lock).packages
          ≡ some p)
        × (p.digest ≡ x.1.sha256))
      (sym same)
      (
        entry,
        upsert_all-other chart.name version charts
              (upsert_locked_from_source chart.name chart.source chart.sha256 lock) h.0
            ∙ entry_of-upsert_locked chart.name version chart.name chart.source chart.sha256 lock
            ∙ rw (written_entry-key chart.name chart.source chart.sha256 lock) refl,
        refl,
      )

-- After a merge every resolved chart has an entry of its name and its version with its digest, where no
-- two of them have the same name and version, and the lock is as in `merge_into_lock-valid`.
pub merge_into_lock-member :
    (resolved : ResolvedCharts) (lock : AkuaLock) (e : Text × ResolvedChart)
    → lock.version ≡ 1
    → HasDistinctKeys sort_key lock.packages
    → KnownDigests lock.packages
    → KnownCharts resolved.entries
    → HasDistinctKeys locked_key resolved.entries
    → In e resolved.entries
    → (p : LockedPackage) × (entry_of e.1.name
          (to_locked_fields e.1.source).1
          (merge_into_lock resolved lock).packages
        ≡ some p)
      × (p.digest ≡ e.1.sha256)
unfolding merge_into_lock
merge_into_lock-member resolved lock e v h d k distinct m =
    let (_, apart, _) = upsert_all-valid resolved.entries lock v h d k in
    let (p, found, same) = upsert_all-member resolved.entries lock e distinct m in
    (
      p,
      entry_of-sort e.1.name (to_locked_fields e.1.source).1 (upsert_all resolved.entries lock)
            apart
          ∙ found,
      same,
    )

-- A merge keeps the entry of every name and version that no resolved chart has: also that of an older
-- version of a package that was resolved to a newer one. The lock is as in `merge_into_lock-valid`.
merge_into_lock-stale :
    (resolved : ResolvedCharts) (lock : AkuaLock) (n v : Text)
    → lock.version ≡ 1
    → HasDistinctKeys sort_key lock.packages
    → KnownDigests lock.packages
    → KnownCharts resolved.entries
    → All (λ e. ¬ ((n, v) ≡ locked_key e)) resolved.entries
    → entry_of n v (merge_into_lock resolved lock).packages ≡ entry_of n v lock.packages
unfolding merge_into_lock
merge_into_lock-stale resolved lock n v version h d k a =
    let (_, apart, _) = upsert_all-valid resolved.entries lock version h d k in
    entry_of-sort n v (upsert_all resolved.entries lock) apart
    ∙ upsert_all-other n v resolved.entries lock a
