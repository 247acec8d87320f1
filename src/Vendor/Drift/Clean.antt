-- ===== src/Vendor/Drift/Clean.antt =====
-- Where `check` finds no drift, and only there, the vendor directory is what is expected of it.
use akua.Base.{
  ◌≡◌, refl, sym, ap, ◌∙◌, ◌↔◌, ◌⊎◌, inl, inr, Bool, true, false, not, ◌||◌, Option, none, some,
  List, [], ◌∷◌, arith, All, In, here, there, Bool-cases, Option-cases, ◌==◌, nat_eq, list_eq,
  list_beq, list_beq_iff,
}
use akua.Base.Maps.{Map, get, insert, get-insert, same_key, same_key→eq, same_key_refl}
use akua.Base.Orders.{nat_ord, list_ord}
use akua.Base.Paths.{FilePath}
use akua.Base.Sorting.{HasDistinctKeys}
use akua.Base.Texts.{Text}
use akua.Vendor.{VendorListEntry, VendorCheckOutput}
use akua.Vendor.Inventory.{ExpectedDep, ExpectedSet, contains_key}
use akua.Vendor.Drift.{
  disk_map, vendored_digest, compare, compare_all, report_orphans, report_orphan, sort_output,
  drift_report, no_drift,
}

abbrev entry_name : VendorListEntry → Text
entry_name e = e.name

-- The lookup finds an entry with the wanted digest.
is_intact : ExpectedDep → Option VendorListEntry → Bool
unfolding list_beq
is_intact expected none = false
is_intact expected (some actual) = actual.digest == vendored_digest expected

compare-drift :
    (root : FilePath) (e : ExpectedDep) (actual : Option VendorListEntry) (out : VendorCheckOutput)
    → (compare root e actual out).drift ≡ (out.drift || not (is_intact e actual))
unfolding compare is_intact
compare-drift root e none out = ground arith
compare-drift root e (some actual) out = refl

compare_all-drift :
    (root : FilePath) (m : Map Text VendorListEntry) (es : List ExpectedDep)
    (out : VendorCheckOutput)
    → (compare_all root m es out).drift ≡ false
      ↔ ((out.drift ≡ false) × All (λ e. is_intact e (get e.name m) ≡ true) es)
unfolding compare_all
compare_all-drift root m [] out = ((λ h. (h, tt)), (λ h. h.0))
compare_all-drift root m (e ∷ es) out =
    let step = compare-drift root e (get e.name m) out in
    let ih = compare_all-drift root m es (compare root e (get e.name m) out) in
    (
      (λ h. let (d, rest) = ih.0 h in (ground arith, (ground arith, rest))),
      (λ h. ih.1 (ground arith, h.1.1)),
    )

report_orphans-drift :
    (names : Map Text (Unit {0})) (es : List VendorListEntry) (out : VendorCheckOutput)
    → (report_orphans names es out).drift ≡ false
      ↔ ((out.drift ≡ false) × All (λ e. contains_key e.name names ≡ true) es)
unfolding report_orphans report_orphan
report_orphans-drift names [] out = ((λ h. (h, tt)), (λ h. h.0))
report_orphans-drift names (e ∷ es) out = elim (Bool-cases (contains_key e.name names)) [
  | inl k ↦
      rw k
        let ih = report_orphans-drift names es out in
          ((λ h. let (d, rest) = ih.0 h in (d, (refl, rest))), (λ h. ih.1 (h.0, h.1.1)))
  | inr k ↦
      rw k
        let ih = report_orphans-drift names es (report_orphan e out) in
          ((λ h. let (d, rest) = ih.0 h in cc), (λ h. let absurd_key = h.1.0 in cc))
]

get-disk_map :
    (k : Text) (es : List VendorListEntry) (m : Map Text VendorListEntry) {a : VendorListEntry}
    → get k (disk_map es m) ≡ some a
    → (get k m ≡ some a) ⊎ (In a es × (a.name ≡ k))
unfolding disk_map
get-disk_map k [] m h = inl h
get-disk_map k (e ∷ es) m {a} h = elim (get-disk_map k es (insert e.name e m) h) [
  | inr (i, n) ↦ inr (there i, n)
  | inl g ↦ elim (Bool-cases (same_key e.name k)) [
    | inl s ↦
        let same : some e ≡ some a = sym (get-insert k e.name e m ∙ rw s refl) ∙ g in
        let eq : a ≡ e = cc in inr (here eq, ap entry_name eq ∙ same_key→eq e.name k s)
    | inr s ↦ inl (sym (get-insert k e.name e m ∙ rw s refl) ∙ g)
  ]
]

get-disk_map-absent :
    (k : Text) (es : List VendorListEntry) (m : Map Text VendorListEntry)
    → All (λ e. ¬ (k ≡ entry_name e)) es
    → get k (disk_map es m) ≡ get k m
unfolding disk_map
get-disk_map-absent k [] m h = refl
get-disk_map-absent k (e ∷ es) m h =
    get-disk_map-absent k es (insert e.name e m) h.1
    ∙ get-insert k e.name e m
    ∙ elim (Bool-cases (same_key e.name k)) [
      | inl s ↦ absurd (h.0 (sym (same_key→eq e.name k s)))
      | inr s ↦ rw s refl
    ]

get-disk_map-In :
    (es : List VendorListEntry) (m : Map Text VendorListEntry) {a : VendorListEntry}
    → HasDistinctKeys entry_name es
    → In a es
    → get a.name (disk_map es m) ≡ some a
unfolding disk_map
get-disk_map-In [] m d i = elim i [ ]
get-disk_map-In (e ∷ es) m {a} d (there i) = get-disk_map-In es (insert e.name e m) d.1 i
get-disk_map-In (e ∷ es) m {a} d (here eq) =
    ap (λ b. get b.name (disk_map es (insert e.name e m))) eq
    ∙ get-disk_map-absent e.name es (insert e.name e m) d.0
    ∙ get-insert e.name e.name e m
    ∙ rw (same_key_refl e.name) (ap some (sym eq))

-- The directory has a tree of the expected name and digest.
abbrev pub IsVendored : List VendorListEntry → ExpectedDep → Type 0
IsVendored on_disk expected =
    (a : VendorListEntry) × In a on_disk
    × (a.name ≡ expected.name)
    × (a.digest ≡ vendored_digest expected)

intact-IsVendored :
    (on_disk : List VendorListEntry) (e : ExpectedDep)
    → is_intact e (get e.name (disk_map on_disk [])) ≡ true
    → IsVendored on_disk e
unfolding is_intact get
intact-IsVendored on_disk e h = elim (Option-cases (get e.name (disk_map on_disk []))) [
  | inl n ↦ let none_found = ap (is_intact e) n in cc
  | inr (a, s) ↦
      let same : (a.digest == vendored_digest e) ≡ true = sym (ap (is_intact e) s) ∙ h in
      elim (get-disk_map e.name on_disk [] s) [
        | inl empty ↦ cc
        | inr (i, n) ↦ (a, i, n, (list_beq_iff a.digest (vendored_digest e)).0 same)
      ]
]

IsVendored-intact :
    (on_disk : List VendorListEntry) (e : ExpectedDep)
    → HasDistinctKeys entry_name on_disk
    → IsVendored on_disk e
    → is_intact e (get e.name (disk_map on_disk [])) ≡ true
unfolding is_intact
IsVendored-intact on_disk e d (a, i, n, same) =
    ap (λ k. is_intact e (get k (disk_map on_disk []))) (sym n)
    ∙ ap (is_intact e) (get-disk_map-In on_disk [] d i)
    ∙ (list_beq_iff a.digest (vendored_digest e)).1 same

All-map {ℓ} :
    {A : Type ℓ} {P Q : A → Type 0} (f : (a : A) → P a → Q a) (xs : List A) → All P xs → All Q xs
All-map f [] h = tt
All-map f (x ∷ xs) h = (f x h.0, All-map f xs h.1)

-- The report has no drift exactly where every expected entry has its tree in the vendor directory, with the
-- digest that is expected, and every tree in the directory is expected. The names in the directory are distinct.
pub drift_report_iff :
    (root : FilePath) (expected : ExpectedSet) (on_disk : List VendorListEntry)
    → HasDistinctKeys (λ (e : VendorListEntry). e.name) on_disk
    → (drift_report root expected on_disk).drift ≡ false ↔ (
        All (IsVendored on_disk) expected.entries
        × All (λ (a : VendorListEntry). contains_key a.name expected.names ≡ true) on_disk)
unfolding drift_report sort_output
drift_report_iff root expected on_disk d =
    let compared = compare_all root (disk_map on_disk []) expected.entries no_drift in
    let orphans = report_orphans-drift expected.names on_disk compared in
    let entries = compare_all-drift root (disk_map on_disk []) expected.entries no_drift in
    (
      (λ h.
          let (c, known) = orphans.0 h in
          (All-map (intact-IsVendored on_disk) expected.entries (entries.0 c).1, known)),
      (λ h. orphans.1 (
        entries.1 (refl, All-map (λ e. IsVendored-intact on_disk e d) expected.entries h.0),
        h.1,
      )),
    )
