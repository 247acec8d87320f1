-- ===== src/Auth/Tests.antt =====
-- Runs of the credential code, and its theorems at concrete inputs.
use akua.Base.{
  ◌≡◌, refl, true, false, Option, none, some, List, [], ◌∷◌, ◌++◌, Result, ok, err, arith, list_eq,
  nat_eq, list_beq_iff,
}
use akua.Base.Texts.{Text, codes, contains_char, split_once_text}
use akua.Auth.HostAuth.{
  BasicAuth, HostAuthMap, get, match_key, prefix_matches, lookup, url_has_userinfo,
  canonicalize_url,
}
use akua.Auth.HostAuth.Lookup.{EndsSegment, IsBest, prefix_matches_iff, lookup-IsBest}
use akua.Auth.HostAuth.Canonical.{canonicalize_url-no_user}
use akua.Auth.AuthParse.{AuthParseError, empty_prefix, parse_auth_pair, parse_auth_pairs}

abbrev alice : BasicAuth
alice = record { username = codes "alice"; password = codes "a:=b" }

abbrev bob : BasicAuth
bob = record { username = codes "bob"; password = codes "pw" }

abbrev two_hosts : HostAuthMap
two_hosts = (codes "git.dev", alice) ∷ (codes "git.dev/org", bob) ∷ []

abbrev other_order : HostAuthMap
other_order = (codes "git.dev/org", bob) ∷ (codes "git.dev", alice) ∷ []

abbrev org_url : Text
org_url = codes "https://me:x@git.dev/org/repo/"

longest_wins : lookup two_hosts org_url ≡ some bob
unfolding lookup
longest_wins = refl

no_partial_segment : lookup two_hosts (codes "https://git.dev.evil.com/org") ≡ none
unfolding lookup
no_partial_segment = refl

canonical_run :
    canonicalize_url (codes "https://u:p@git.dev:443/org/repo.git/")
    ≡ codes "https://git.dev/org/repo"
unfolding canonicalize_url
canonical_run = refl

prefix_matches_iff_example : (prefix_matches (codes "git.dev:8443") (codes "git.dev") ≡ true)
prefix_matches_iff_example =
    (prefix_matches_iff (codes "git.dev:8443") (codes "git.dev")).1
      (codes ":8443", refl, EndsSegment.at_port (codes "8443"))

lookup-IsBest_example : (key : Text) × (match_key org_url ≡ some key) × IsBest two_hosts key bob
lookup-IsBest_example = lookup-IsBest two_hosts org_url longest_wins

same_entries : (q : Text) → get q two_hosts ≡ get q other_order
unfolding get
same_entries q =
    ground (arith, list_beq_iff (codes "git.dev") q, list_beq_iff (codes "git.dev/org") q)

canonicalize_url-no_user_example : url_has_userinfo (canonicalize_url org_url) ≡ false
unfolding split_once_text contains_char
canonicalize_url-no_user_example =
    canonicalize_url-no_user org_url (codes "https") (codes "me:x@git.dev/org/repo/") refl refl

abbrev parse : Text → Result (AuthParseError (Unit {0}) (Unit {0})) (Text × BasicAuth)
parse = parse_auth_pair

no_prefix : parse (codes "=alice:x") ≡ err (empty_prefix (codes "=alice:x"))
unfolding parse_auth_pair
no_prefix = refl

abbrev parse_all : List Text → Result (AuthParseError (Unit {0}) (Unit {0})) (Option HostAuthMap)
parse_all = parse_auth_pairs

abbrev first_value : List Text
first_value = codes "git.dev=bob:pw" ∷ []

last_wins :
    parse_all (first_value ++ (codes "git.dev=alice:a:=b" ∷ []))
    ≡ ok (some ((codes "git.dev", alice) ∷ []))
unfolding parse_auth_pairs
last_wins = refl
