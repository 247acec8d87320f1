-- ===== src/Manifest/Names.antt =====
-- Names of packages, and the KCL identifiers made from the names of dependencies.
use akua.Base.{
  ℕ, ◌≡◌, refl, ◌≢◌, ◌↔◌, Bool, true, false, ◌&&◌, ◌||◌, [], ◌∷◌, arith, all, leb, ◌==◌, nat_eq,
  if◌then◌else◌,
}
use akua.Base.Texts.{Text, is_ascii_alphanumeric, is_ascii_digit}
use akua.Manifest.{ident_chars, kcl_ident, is_valid_package_name, is_name_char, starts_with_digit}

-- A letter, a digit or `_`.
abbrev is_ident_char : ℕ → Bool
is_ident_char c = is_ascii_alphanumeric c || c == b'_'

-- A KCL identifier: identifier characters, the first of which is no digit.
abbrev pub IsIdentifier : Text → Type 0
IsIdentifier [] = ⊥
IsIdentifier (c ∷ s) =
    (is_ident_char c ≡ true) × (is_ascii_digit c ≡ false) × (all is_ident_char s ≡ true)

all-ident_chars : (s : Text) → all is_ident_char (ident_chars s) ≡ true
unfolding all ident_chars
all-ident_chars [] = refl
all-ident_chars (c ∷ s) = ground (arith, all-ident_chars s)

-- Identifier characters are left as they are.
ident_chars_id : (s : Text) → all is_ident_char s ≡ true → ident_chars s ≡ s
unfolding all ident_chars
ident_chars_id [] h = refl
ident_chars_id (c ∷ s) h = ground (arith, ident_chars_id s)

-- The name of a dependency becomes a KCL identifier, whatever characters it has, if it is not empty:
-- its first byte begins a character.
pub kcl_ident-IsIdentifier :
    (c : ℕ) (s : Text) → (leb 128 c && leb c 191) ≡ false → IsIdentifier (kcl_ident (c ∷ s))
unfolding all kcl_ident
kcl_ident-IsIdentifier c s h = ground (arith, all-ident_chars s)

-- An identifier names itself, so making an identifier twice makes it once.
pub kcl_ident_idem : (s : Text) → kcl_ident (kcl_ident s) ≡ kcl_ident s
unfolding all kcl_ident
kcl_ident_idem s = by_chars (ident_chars s) (all-ident_chars s)
  where
    by_chars :
        (t : Text)
        → all is_ident_char t ≡ true
        → kcl_ident (if starts_with_digit t then b'_' ∷ t else t)
          ≡ (if starts_with_digit t then b'_' ∷ t else t)
    by_chars [] h = refl
    by_chars (c ∷ t) h = ground (arith, ident_chars_id (c ∷ t), ident_chars_id (b'_' ∷ c ∷ t))

-- The rule of package names: letters, digits, `_` and `-`, at least one, and no `-` in front.
abbrev pub IsPackageName : Text → Type 0
IsPackageName [] = ⊥
IsPackageName (c ∷ s) = (c ≢ b'-') × (all is_name_char (c ∷ s) ≡ true)

-- The test accepts exactly the names of the rule.
pub is_valid_package_name_iff : (s : Text) → (is_valid_package_name s ≡ true) ↔ IsPackageName s
unfolding is_valid_package_name
is_valid_package_name_iff [] = ground arith
is_valid_package_name_iff (c ∷ s) = ground arith
