-- ===== src/Base/Texts.antt =====
-- Strings as their UTF-8 bytes, with the functions of Rust's `str` that the sources call. All the
-- patterns searched for are ASCII, so that a search by bytes is a search by characters.
pub mod Laws
pub mod Parts
use Prim.Native.Char.{code}
use Prim.Native.String.{String}
use Prim.Native.Nat.{ℕ, zero, suc, ◌+◌, ◌-◌}
use mathlib.Core.Bool.{Bool, true, false, not, ◌&&◌, ◌||◌}
use mathlib.Core.List.{List, [], ◌∷◌, ◌++◌, reverse}
use mathlib.Core.Option.{Option, none, some}
use akua.Base.Tests.{leb, if◌then◌else◌, ◌==◌, nat_eq, list_eq, list_beq}

abbrev pub Text : Type 0
Text = List ℕ

-- A literal of ASCII characters.
abbrev pub codes : String → Text
codes String.[] = []
codes (String.◌∷◌ c s) = code c ∷ codes s

-- The character U+2014.
abbrev pub em_dash : Text
em_dash = 226 ∷ 128 ∷ 148 ∷ []

-- `s.starts_with(prefix)`
unfoldable pub starts_with : Text → Text → Bool
starts_with s [] = true
starts_with [] (p ∷ ps) = false
starts_with (c ∷ s) (p ∷ ps) = c == p && starts_with s ps

-- `s.strip_prefix(prefix)`
unfoldable pub strip_prefix : Text → Text → Option Text
strip_prefix s [] = some s
strip_prefix [] (p ∷ ps) = none
strip_prefix (c ∷ s) (p ∷ ps) = if c == p then strip_prefix s ps else none

-- `s.contains(c)`
unfoldable pub contains_char : ℕ → Text → Bool
contains_char c [] = false
contains_char c (d ∷ s) = d == c || contains_char c s

-- `s.contains(pattern)`
unfoldable pub contains_text : Text → Text → Bool
unfolding starts_with
contains_text [] p = starts_with [] p
contains_text (c ∷ s) p = starts_with (c ∷ s) p || contains_text s p

-- `s.split_once(c)`: at the first occurrence.
unfoldable pub split_once : ℕ → Text → Option (Text × Text)
split_once c [] = none
split_once c (d ∷ s) =
    if d == c
    then some ([], s)
    else elim (split_once c s) [ none ↦ none | some (a, b) ↦ some (d ∷ a, b) ]

-- `s.rsplit_once(c)`: at the last occurrence.
unfoldable pub rsplit_once : ℕ → Text → Option (Text × Text)
rsplit_once c [] = none
rsplit_once c (d ∷ s) = elim (rsplit_once c s) [
  | some (a, b) ↦ some (d ∷ a, b)
  | none ↦ if d == c then some ([], s) else none
]

-- `s.split_once(pattern)`: at the first occurrence.
unfoldable pub split_once_text : Text → Text → Option (Text × Text)
unfolding strip_prefix
split_once_text p [] = elim (strip_prefix [] p) [ none ↦ none | some rest ↦ some ([], rest) ]
split_once_text p (d ∷ s) = elim (strip_prefix (d ∷ s) p) [
  | some rest ↦ some ([], rest)
  | none ↦ elim (split_once_text p s) [ none ↦ none | some (a, b) ↦ some (d ∷ a, b) ]
]

-- The bytes before the first `c`, or all: `&s[..s.find(c).unwrap_or(s.len())]`.
unfoldable pub before : ℕ → Text → Text
before c [] = []
before c (d ∷ s) = if d == c then [] else d ∷ before c s

-- A byte in front of a trimmed text: it goes too where nothing is left behind it.
pub trim_cons : ℕ → ℕ → Text → Text
trim_cons c d [] = if d == c then [] else d ∷ []
trim_cons c d (e ∷ t) = d ∷ e ∷ t

-- `s.trim_end_matches(c)`
unfoldable pub trim_end_matches : ℕ → Text → Text
unfolding trim_cons
trim_end_matches c [] = []
trim_end_matches c (d ∷ s) = trim_cons c d (trim_end_matches c s)

-- The text without this suffix, if it has it: `ends_with` and `truncate`.
unfoldable pub strip_suffix : Text → Text → Option Text
unfolding list_beq
strip_suffix suffix [] = if suffix == [] then some [] else none
strip_suffix suffix (d ∷ s) =
    if (d ∷ s) == suffix
    then some []
    else elim (strip_suffix suffix s) [ none ↦ none | some t ↦ some (d ∷ t) ]

abbrev pub is_ascii_digit : ℕ → Bool
is_ascii_digit c = leb b'0' c && leb c b'9'

abbrev pub is_ascii_alphabetic : ℕ → Bool
is_ascii_alphabetic c = (leb b'a' c && leb c b'z') || (leb b'A' c && leb c b'Z')

abbrev pub is_ascii_alphanumeric : ℕ → Bool
is_ascii_alphanumeric c = is_ascii_alphabetic c || is_ascii_digit c
