-- ===== src/Auth/AuthParse/Merge.antt =====
-- Later credentials for a prefix replace earlier ones, and flags replace the file's.
use akua.Base.{
  ◌≡◌, refl, ap, ◌∙◌, false, Option, none, some, List, [], ◌∷◌, ◌++◌, ok, arith, Result-cases,
  eq_refl, inl, inr, is_empty, if◌then◌else◌, ◌==◌, list_eq, nat_eq, list_beq_iff,
}
use akua.Base.Texts.{Text}
use akua.Auth.HostAuth.{BasicAuth, HostAuthMap, get, insert}
use akua.Auth.AuthParse.{parse_auth_pair, parse_auth_loop, parse_auth_pairs, insert_all, merge_auth}

-- A `HashMap` has one entry for each key.
abbrev pub HasOneEntry : HostAuthMap → Type 0
HasOneEntry [] = Unit
HasOneEntry ((k, _) ∷ m) = (get k m ≡ none) × HasOneEntry m

pub get-insert :
    (j k : Text) (v : BasicAuth) (m : HostAuthMap)
    → get j (insert k v m) ≡ (if k == j then some v else get j m)
unfolding get insert
get-insert j k v [] = refl
get-insert j k v ((i, w) ∷ m) =
    ground (arith, list_beq_iff i k, list_beq_iff i j, list_beq_iff k j, get-insert j k v m)

get-insert_all :
    (j : Text) (over base : HostAuthMap)
    → HasOneEntry over
    → get j (insert_all base over) ≡ elim (get j over) [ some v ↦ some v | none ↦ get j base ]
unfolding insert_all get
get-insert_all j [] base h = refl
get-insert_all j ((k, v) ∷ over) base h = ground (
  arith,
  get-insert_all j over (insert k v base) h.1,
  get-insert j k v base,
  list_beq_iff k j,
  ap (λ t. get t over),
)

-- After a merge each prefix has the credentials that the flags give it, and those of the file where
-- the flags give none. The flags' map has one entry for each key.
merge_auth_lem :
    (j : Text) (file flags : HostAuthMap)
    → HasOneEntry flags
    → (merged : HostAuthMap) × (merge_auth (some file) (some flags) ≡ some merged)
      × (get j merged ≡ elim (get j flags) [ some v ↦ some v | none ↦ get j file ])
unfolding merge_auth
merge_auth_lem j file flags h = (insert_all file flags, refl, get-insert_all j flags file h)

insert-ne-nil : (k : Text) (v : BasicAuth) (m : HostAuthMap) → is_empty (insert k v m) ≡ false
unfolding insert
insert-ne-nil k v [] = refl
insert-ne-nil k v ((j, w) ∷ m) = ground arith

module _ {IoError TomlError : Type 0} where
  loop-snoc :
      (values : List Text) (v : Text) (m n : HostAuthMap)
      → parse_auth_loop {IoError = IoError} {TomlError = TomlError} (values ++ (v ∷ [])) m ≡ ok n
      → (p : Text) × (c : BasicAuth) × (before : HostAuthMap) × (parse_auth_pair {IoError = IoError}
            {TomlError = TomlError} v
          ≡ ok (p, c))
        × (n ≡ insert p c before)
  unfolding parse_auth_loop
  loop-snoc [] v m n h =
      elim (Result-cases (parse_auth_pair {IoError = IoError} {TomlError = TomlError} v)) [
        | inl (e, k) ↦ ground arith
        | inr ((p, c), k) ↦ (p, c, m, k, ground arith)
      ]
  loop-snoc (w ∷ values) v m n h =
      elim (Result-cases (parse_auth_pair {IoError = IoError} {TomlError = TomlError} w)) [
        | inl (e, k) ↦ ground arith
        | inr ((q, d), k) ↦ loop-snoc values v (insert q d m) n (ground arith)
      ]

  -- The last of several `--auth` values decides for its prefix.
  parse_auth_pairs_last :
      (values : List Text) (v : Text) (result : Option HostAuthMap)
      → parse_auth_pairs {IoError = IoError} {TomlError = TomlError} (values ++ (v ∷ []))
        ≡ ok result
      → (p : Text) × (c : BasicAuth) × (map : HostAuthMap) × (parse_auth_pair {IoError = IoError}
            {TomlError = TomlError} v
          ≡ ok (p, c))
        × (result ≡ some map)
        × (get p map ≡ some c)
  unfolding parse_auth_pairs
  parse_auth_pairs_last values v result h =
      elim (Result-cases
        (parse_auth_loop {IoError = IoError} {TomlError = TomlError} (values ++ (v ∷ [])) [])) [
          | inl (e, k) ↦ ground arith
          | inr (map, k) ↦
              let (p, c, before, f, g) = loop-snoc values v [] map k in
              (
                p,
                c,
                map,
                f,
                ground (arith, insert-ne-nil p c before, ap is_empty g),
                ap (get p) g ∙ get-insert p p c before ∙ rw (eq_refl p),
              )
        ]
