-- ===== src/Oci/Transport.antt =====
-- The requests to a registry, of oci_transport.rs. Base64, the decoding of a token and of an error's text,
-- and the exchange of requests for responses are arguments; the exchange has a state of its own.
use akua.Base.{
  ℕ, zero, suc, map_err, ◌>>=◌, Bool, ◌&&◌, Option, none, some, List, [], ◌∷◌, ◌++◌, Result, ok,
  err, ◌==◌, nat_eq, list_eq, list_beq, leb, ltb, is_empty, length, if◌then◌else◌,
}
use akua.Base.Texts.{Text, codes, strip_prefix, split_once, trim_end_matches}
use akua.Resolver.Digest.{saturating_add}

abbrev pub max_manifest_bytes : ℕ
max_manifest_bytes = 33554432

abbrev pub max_blob_bytes : ℕ
max_blob_bytes = 1073741824

abbrev pub max_error_body_chars : ℕ
max_error_body_chars = 300

-- `Credentials` of oci_auth.rs.
pub data Credentials : Type 0 where
  basic : (username password : Text) → Credentials
  bearer : (token : Text) → Credentials

pub data TransportError (HttpError : Type 0) : Type 0 where
  http : (url : Text) → HttpError → TransportError HttpError
  status_error : (url : Text) → (status : ℕ) → (body : Text) → TransportError HttpError
  auth_required : (registry : Text) → TransportError HttpError
  response_too_large : (url : Text) → (limit : ℕ) → (declared : Option ℕ) → TransportError HttpError
  body_read : (url : Text) → HttpError → TransportError HttpError

-- A request: `authorization` is the whole value of its header.
pub record Request : Type 0 where
  pub url : Text
  pub authorization : Option Text
  pub query : List (Text × Text)
  pub accept : Option Text

-- A body as it is read: whole, or broken off by an error.
pub data Body (HttpError : Type 0) : Type 0 where
  whole : Text → Body HttpError
  broken : Text → HttpError → Body HttpError

pub record Response (HttpError : Type 0) : Type 0 where
  pub status : ℕ
  pub www_authenticate : Option Text
  pub content_length : Option ℕ
  pub body : Body HttpError

-- The libraries. `token_fields` is the decoding of a token response, with its `token` and `access_token`.
pub record Client (HttpError Server : Type 0) : Type 0 where
  pub send : Request → Server → Result HttpError (Response HttpError) × Server
  pub encode_base64 : Text → Text
  pub text : Body HttpError → Option Text
  pub token_fields : Body HttpError → Result HttpError (Text × Text)
  pub trim : Text → Text

-- What a call sees and leaves: the token, the server's state, and the requests that were sent, the last
-- one first.
pub record Session (Server : Type 0) : Type 0 where
  pub token : Option Text
  pub server : Server
  pub sent : List Request

pub record BearerChallenge : Type 0 where
  pub realm : Text
  pub service : Option Text
  pub scope : Option Text

abbrev pub is_success : ℕ → Bool
is_success status = leb 200 status && leb status 299

abbrev pub take_bytes : ℕ → Text → Text
take_bytes n [] = []
take_bytes zero (c ∷ s) = []
take_bytes (suc n) (c ∷ s) = c ∷ take_bytes n s

-- `chars().take(n)`: a byte that continues a character goes with it.
unfoldable pub take_chars : ℕ → Text → Text
take_chars n [] = []
take_chars zero (c ∷ s) = if leb 128 c && leb c 191 then c ∷ take_chars zero s else []
take_chars (suc n) (c ∷ s) =
    if leb 128 c && leb c 191 then c ∷ take_chars (suc n) s else c ∷ take_chars n s

unfoldable pub truncate_error_body : Text → Text
unfolding take_chars
truncate_error_body body = take_chars max_error_body_chars body

-- `s.split(c)`
push_first : ℕ → List Text → List Text
push_first c [] = (c ∷ []) ∷ []
push_first c (s ∷ rest) = (c ∷ s) ∷ rest

split : ℕ → Text → List Text
unfolding push_first
split c [] = [] ∷ []
split c (d ∷ s) = let rest = split c s in if d == c then [] ∷ rest else push_first d rest

-- `s.trim_matches(c)`
trim_start_matches : ℕ → Text → Text
trim_start_matches c [] = []
trim_start_matches c (d ∷ s) = let rest = trim_start_matches c s in if d == c then rest else d ∷ s

trim_matches : ℕ → Text → Text
unfolding trim_start_matches trim_end_matches
trim_matches c s = trim_end_matches c (trim_start_matches c s)

set_field : Text → Text → BearerChallenge → BearerChallenge
unfolding list_beq
set_field k v out =
    if k == codes "realm"
    then record out { realm = v }
    else if k == codes "service"
    then record out { service = some v }
    else if k == codes "scope"
    then record out { scope = some v }
    else out

named_realm : Option BearerChallenge → Option BearerChallenge
named_realm none = none
named_realm (some out) = if is_empty out.realm then none else some out

module _ (trim : Text → Text) where
  fields : List Text → BearerChallenge → Option BearerChallenge
  unfolding split_once set_field trim_matches
  fields [] out = some out
  fields (part ∷ parts) out = elim (split_once b'=' (trim part)) [
    | none ↦ none
    | some kv ↦ fields parts (set_field (trim kv.0) (trim_matches b'"' (trim kv.1)) out)
  ]

  unfoldable pub from_resp : Option Text → Option BearerChallenge
  unfolding fields strip_prefix split named_realm
  from_resp none = none
  from_resp (some hdr) = elim (strip_prefix hdr (codes "Bearer ")) [
    | none ↦ none
    | some rest ↦
        named_realm (fields (split b',' rest) (record { realm = []; service = none; scope = none }))
  ]

-- `request.bearer_auth(token)`
unfoldable pub bearer_auth : Text → Request → Request
bearer_auth token req = record req { authorization = some (codes "Bearer " ++ token) }

unfoldable pub apply_bearer : Request → Option Text → Option Credentials → Request
unfolding bearer_auth
apply_bearer req (some token) creds = bearer_auth token req
apply_bearer req none (some (bearer token)) = bearer_auth token req
apply_bearer req none (some (basic username password)) = req
apply_bearer req none none = req

-- `client.get(url)`
unfoldable pub get_request : Text → Request
get_request url = record { url = url; authorization = none; query = []; accept = none }

module _ {HttpError : Type 0} where
  -- What a reader that stops after `limit` bytes has read.
  pub read_limited : ℕ → Body HttpError → Result HttpError Text
  read_limited limit (whole bytes) = ok (take_bytes limit bytes)
  read_limited limit (broken bytes e) =
      if leb limit (length bytes) then ok (take_bytes limit bytes) else err e

  unfoldable pub read_body_capped :
      Response HttpError → Text → ℕ → Result (TransportError HttpError) Text
  unfolding read_limited
  read_body_capped resp url max_bytes =
      let read : Result (TransportError HttpError) Text = do
        buf ← map_err (body_read url) (read_limited (saturating_add max_bytes 1) resp.body)
        if ltb max_bytes (length buf) then err (response_too_large url max_bytes none) else ok buf
      in elim resp.content_length [
        | none ↦ read
        | some declared ↦
            if ltb max_bytes declared
            then err (response_too_large url max_bytes (some declared))
            else read
      ]
