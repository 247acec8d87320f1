-- ===== src/Auth/AuthParse/Pairs.antt =====
-- What `--auth` values are accepted, and what they mean.
use akua.Base.{◌≡◌, refl, ◌≢◌, true, false, [], ◌∷◌, ◌++◌, is_empty}
use akua.Base.Texts.{Text, contains_char}
use akua.Auth.HostAuth.{BasicAuth}

-- The first `=` and then the first `:` split a value, so a password may hold either.
pub record IsPair (value prefix : Text) (creds : BasicAuth) : Type 0 where
  pub shape : value ≡ prefix ++ (b'=' ∷ (creds.username ++ (b':' ∷ creds.password)))
  pub prefix_plain : contains_char b'=' prefix ≡ false
  pub prefix_given : prefix ≢ []
  pub username_plain : contains_char b':' creds.username ≡ false
  pub username_given : creds.username ≢ []

is_empty→eq-nil : (s : Text) → is_empty s ≡ true → s ≡ []
is_empty→eq-nil [] h = refl
is_empty→eq-nil (c ∷ s) h = cc
