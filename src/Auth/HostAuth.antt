-- ===== src/Auth/HostAuth.antt =====
-- crates/akua-core/src/host_auth.rs: credentials by URL prefix, and canonical URLs.
-- A `HashMap` is the list of its entries in the order of its iteration, which is arbitrary.
pub mod Lookup
pub mod Canonical
pub mod Repeated
use akua.Base.{
  ℕ, suc, ◌+◌, Bool, true, false, ◌&&◌, ◌||◌, Option, none, some, List, [], ◌∷◌, ◌++◌, length, drop,
  is_empty, ◌==◌, nat_eq, list_eq, list_beq, if◌then◌else◌,
}
use akua.Base.Orders.{Ord, nat_ord, reverse_ord}
use akua.Base.Maps.{keys}
use akua.Base.Sorting.{sort_by_key}
use akua.Base.Texts.{
  Text, codes, starts_with, contains_char, split_once, rsplit_once, split_once_text, before,
  trim_end_matches, strip_suffix,
}

pub record BasicAuth : Type 0 where
  pub username : Text
  pub password : Text

-- The header, with the base64 encoder of the `base64` crate as an argument.
pub to_authorization_header : (Text → Text) → BasicAuth → Text
to_authorization_header base64 a = codes "Basic " ++ base64 (a.username ++ (b':' ∷ a.password))

abbrev pub HostAuthMap : Type 0
HostAuthMap = List (Text × BasicAuth)

-- `HashMap::get`
unfoldable pub get : Text → HostAuthMap → Option BasicAuth
unfolding list_beq
get k [] = none
get k ((j, v) ∷ m) = if j == k then some v else get k m

-- `HashMap::insert`
unfoldable pub insert : Text → BasicAuth → HostAuthMap → HostAuthMap
unfolding list_beq
insert k v [] = (k, v) ∷ []
insert k v ((j, w) ∷ m) = if j == k then (j, v) ∷ m else (j, w) ∷ insert k v m

unfoldable pub strip_scheme : Text → Text
unfolding split_once_text
strip_scheme url = elim (split_once_text (codes "://") url) [ some (_, rest) ↦ rest | none ↦ url ]

-- The authority is what stands before the first `/`.
unfoldable pub strip_userinfo : Text → Text
unfolding before rsplit_once
strip_userinfo authority_and_path = elim (rsplit_once b'@' (before b'/' authority_and_path)) [
  | some (user, _) ↦ drop (suc (length user)) authority_and_path
  | none ↦ authority_and_path
]

unfoldable pub url_has_userinfo : Text → Bool
unfolding strip_scheme before contains_char
url_has_userinfo url = contains_char b'@' (before b'/' (strip_scheme url))

unfoldable pub match_key : Text → Option Text
unfolding strip_scheme strip_userinfo trim_end_matches
match_key url =
    let after_userinfo = strip_userinfo (strip_scheme url) in
    if is_empty after_userinfo then none else some (trim_end_matches b'/' after_userinfo)

-- The byte behind the prefix, if there is one.
abbrev boundary : Text → Bool
boundary [] = true
boundary (next ∷ _) = next == b'/' || next == b':'

unfoldable pub prefix_matches : Text → Text → Bool
unfolding starts_with
prefix_matches key prefix =
    if starts_with key prefix then boundary (drop (length prefix) key) else false

-- The loop over the prefixes: the entry of the first that matches.
unfoldable pub first_match : Text → List Text → HostAuthMap → Option BasicAuth
unfolding prefix_matches get
first_match key [] map = none
first_match key (prefix ∷ prefixes) map =
    if prefix_matches key prefix then get prefix map else first_match key prefixes map

-- `sort_by_key(|s| Reverse(s.len()))`
unfoldable pub longest_first : List Text → List Text
unfolding sort_by_key
longest_first = sort_by_key ⦃o = reverse_ord nat_ord⦄ length

unfoldable pub lookup : HostAuthMap → Text → Option BasicAuth
unfolding match_key first_match longest_first
lookup map url = if is_empty map then none else elim (match_key url) [
  | none ↦ none
  | some key ↦ first_match key (longest_first (keys map)) map
]

unfoldable pub is_default_port : Text → Text → Bool
unfolding list_beq
is_default_port scheme port =
    (scheme == codes "https" && port == codes "443")
    || (scheme == codes "http" && port == codes "80")

-- The authority without its default port.
unfoldable pub canonical_authority : Text → Text → Text
unfolding rsplit_once is_default_port
canonical_authority scheme authority = elim (rsplit_once b':' authority) [
  | some (host, port) ↦ if is_default_port scheme port then host else authority
  | none ↦ authority
]

-- The trimming of trailing slashes and of one `.git`.
unfoldable pub tidy : Text → Text
unfolding trim_end_matches strip_suffix
tidy out =
    let trimmed = trim_end_matches b'/' out in
    elim (strip_suffix (codes ".git") trimmed) [
      | some stem ↦ trim_end_matches b'/' stem
      | none ↦ trim_end_matches b'/' trimmed
    ]

-- The authority and the path, with its slash.
unfoldable pub split_path : Text → Text × Text
unfolding split_once
split_path after_userinfo = elim (split_once b'/' after_userinfo) [
  | some (a, p) ↦ (a, b'/' ∷ p)
  | none ↦ (after_userinfo, [])
]

unfoldable pub canonicalize_url : Text → Text
unfolding split_once_text strip_userinfo split_path canonical_authority tidy
canonicalize_url url = elim (split_once_text (codes "://") url) [
  | none ↦ url
  | some (scheme, after_scheme) ↦
      let (authority, path) = split_path (strip_userinfo after_scheme) in
      tidy (scheme ++ (codes "://" ++ (canonical_authority scheme authority ++ path)))
]
