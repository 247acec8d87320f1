-- ===== src/Lock/Order.antt =====
-- The order of the entries: what `validate` checks of it, and what `sort` makes of it.
use mathlib.Core.List.{Permᴰ}
use akua.Base.{
  ◌≡◌, refl, sym, ap, ◌∙◌, ◌≢◌, ◌↔◌, true, false, List, [], ◌∷◌, ok, arith, All, nat_eq, list_eq,
  list_beq_iff,
}
use akua.Base.Orders.{nat_ord, list_ord, list_lt_irrefl, pair_ord, pair_lt}
use akua.Base.Sorting.{
  IsSorted, MayFollow, HasDistinctKeys, sort_by_key, sort_by_key-IsSorted, sort_by_key-Permᴰ,
  All-sort_by_key, HasDistinctKeys-sort_by_key, All-MayFollow,
}
use akua.Base.Texts.{Text}
use akua.Lock.{
  LockedPackage, AkuaLock, name_lt, has_known_digest, check_windows, check_digests, validate,
  sort_key, sort,
}

abbrev pub package_name : LockedPackage → Text
package_name p = p.name

-- Neighbours differ in name or version.
abbrev pub NoTwins : List LockedPackage → Type 0
NoTwins [] = Unit
NoTwins (a ∷ []) = Unit
NoTwins (a ∷ b ∷ ps) = (sort_key a ≢ sort_key b) × NoTwins (b ∷ ps)

abbrev pub KnownDigests : List LockedPackage → Type 0
KnownDigests = All (λ p. has_known_digest p ≡ true)

module _ {TomlError : Type 0} where
  check_windows→ :
      (ps : List LockedPackage)
      → check_windows {TomlError = TomlError} ps ≡ ok tt
      → IsSorted package_name ps × NoTwins ps
  unfolding check_windows
  check_windows→ [] h = (tt, tt)
  check_windows→ (a ∷ []) h = ((tt, tt), tt)
  check_windows→ (a ∷ b ∷ ps) h =
      let (s, t) = check_windows→ (b ∷ ps) (ground arith) in
      let first : name_lt b.name a.name ≡ false = ground arith in
      (
        ((first, All-MayFollow package_name a b ps first s.0), s),
        (ground (arith, list_beq_iff a.name b.name, list_beq_iff a.version b.version), t),
      )

  check_windows← :
      (ps : List LockedPackage)
      → IsSorted package_name ps
      → NoTwins ps
      → check_windows {TomlError = TomlError} ps ≡ ok tt
  unfolding check_windows
  check_windows← [] s t = refl
  check_windows← (a ∷ []) s t = refl
  check_windows← (a ∷ b ∷ ps) s t =
      let ih = check_windows← (b ∷ ps) s.1 t.1 in
      let first : name_lt b.name a.name ≡ false = s.0.0 in
      let apart = t.0 in
      ground (arith, list_beq_iff a.name b.name, list_beq_iff a.version b.version)

  check_digests_iff :
      (ps : List LockedPackage) → check_digests {TomlError = TomlError} ps ≡ ok tt ↔ KnownDigests ps
  unfolding check_digests
  check_digests_iff [] = ((λ _. tt), (λ _. refl))
  check_digests_iff (p ∷ ps) = (
    (λ h. (ground arith, (check_digests_iff ps).0 (ground arith))),
    (λ k. let first = k.0 in let rest = (check_digests_iff ps).1 k.1 in ground arith),
  )

  -- A lock is valid iff its version is 1, its entries are sorted by name, no two neighbours have the
  -- same name and version, and every digest starts with `sha256:` or `git:`.
  pub validate_lock_iff :
      (lock : AkuaLock)
      → validate {TomlError = TomlError} lock ≡ ok tt
        ↔ (lock.version ≡ 1)
          × IsSorted package_name lock.packages
          × NoTwins lock.packages
          × KnownDigests lock.packages
  unfolding validate
  validate_lock_iff lock = (
    (λ h.
        let windows : check_windows {TomlError = TomlError} lock.packages ≡ ok tt = ground arith in
        let digests : check_digests {TomlError = TomlError} lock.packages ≡ ok tt = ground arith in
        let (s, t) = check_windows→ lock.packages windows in
        (ground arith, s, t, (check_digests_iff lock.packages).0 digests)),
    (λ (v, s, t, d).
        let windows = check_windows← lock.packages s t in
        let digests = (check_digests_iff lock.packages).1 d in ground arith),
  )

sorted_by_name :
    (a : LockedPackage) (ps : List LockedPackage)
    → All (MayFollow sort_key a) ps
    → All (MayFollow package_name a) ps
unfolding pair_lt
sorted_by_name a [] h = tt
sorted_by_name a (b ∷ ps) h = (let first = h.0 in ground arith, sorted_by_name a ps h.1)

sort_key-package_name : (ps : List LockedPackage) → IsSorted sort_key ps → IsSorted package_name ps
sort_key-package_name [] s = tt
sort_key-package_name (a ∷ ps) s = (sorted_by_name a ps s.0, sort_key-package_name ps s.1)

HasDistinctKeys-NoTwins : (ps : List LockedPackage) → HasDistinctKeys sort_key ps → NoTwins ps
HasDistinctKeys-NoTwins [] h = tt
HasDistinctKeys-NoTwins (a ∷ []) h = tt
HasDistinctKeys-NoTwins (a ∷ b ∷ ps) h = (h.0.0, HasDistinctKeys-NoTwins (b ∷ ps) h.1)

-- Where the version is 1, no two entries have the same name and version and every digest has a known
-- prefix, the sorted lock is valid.
pub sort-validate :
    {TomlError : Type 0} (lock : AkuaLock)
    → lock.version ≡ 1
    → HasDistinctKeys sort_key lock.packages
    → KnownDigests lock.packages
    → validate {TomlError = TomlError} (sort lock) ≡ ok tt
unfolding sort
sort-validate lock v h d =
    let ps = sort_by_key sort_key lock.packages in
    (validate_lock_iff (sort lock)).1 (
      v,
      sort_key-package_name ps (sort_by_key-IsSorted sort_key lock.packages),
      HasDistinctKeys-NoTwins ps (HasDistinctKeys-sort_by_key sort_key lock.packages h),
      All-sort_by_key sort_key _ lock.packages d,
    )

-- Two locks of the same version whose entries are the same in some order, no two of them with the same
-- name and version, are equal once sorted.
pub sort_order_free :
    (lock : AkuaLock) (ps : List LockedPackage)
    → Permᴰ lock.packages ps
    → HasDistinctKeys sort_key lock.packages
    → sort lock ≡ sort (record lock { packages = ps })
unfolding sort
sort_order_free lock ps d h =
    ap (λ qs. record lock { packages = qs }) (sort_by_key-Permᴰ sort_key d h)

-- A duplicate that has another version of its package between its two copies passes: the lock `p`, `q`,
-- `p` is valid where `p` and `q` have one name, two versions and known digests.
validate_misses_duplicate :
    {TomlError : Type 0} (p q : LockedPackage)
    → p.name ≡ q.name
    → p.version ≢ q.version
    → has_known_digest p ≡ true
    → has_known_digest q ≡ true
    → validate {TomlError = TomlError} (record { version = 1; packages = p ∷ q ∷ p ∷ [] }) ≡ ok tt
      × (¬ HasDistinctKeys sort_key (p ∷ q ∷ p ∷ []))
validate_misses_duplicate p q n v dp dq =
    let same_name : name_lt p.name q.name ≡ false =
      ap (name_lt p.name) (sym n) ∙ nat_list_irrefl p.name in
    let name_same : name_lt q.name p.name ≡ false =
      ap (name_lt q.name) n ∙ nat_list_irrefl q.name in
    (
      (validate_lock_iff _).1 (
        refl,
        ((name_same, (nat_list_irrefl p.name, tt)), ((same_name, tt), (tt, tt))),
        ((λ e. v (ap (λ k. k.1) e)), ((λ e. v (sym (ap (λ k. k.1) e))), tt)),
        (dp, (dq, (dp, tt))),
      ),
      (λ h. h.0.1.0 refl),
    )
  where
    nat_list_irrefl : (xs : Text) → name_lt xs xs ≡ false
    nat_list_irrefl xs = list_lt_irrefl xs
