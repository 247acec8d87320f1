-- ===== src/Oci/Requests.antt =====
-- `fetch_token`, `get_with_auth` and `get_with_auth_capped` of oci_transport.rs: a request, and the exchange
-- of a challenge for a token. What the callers add to a request, `decorate`, is an argument.
pub mod Bounded
pub mod Sent
use akua.Base.{
  ℕ, Bool, Option, none, some, List, [], ◌∷◌, ◌++◌, Result, ok, err, ◌>>=◌, map_err, ◌==◌, nat_eq,
  is_empty, push, if◌then◌else◌,
}
use akua.Base.Texts.{Text, codes}
use akua.Resolver.Fetching.{unwrap_or}
use akua.Oci.Transport.{
  Credentials, basic, bearer, TransportError, http, status_error, auth_required, Request, Response,
  Body, Client, Session, BearerChallenge, from_resp, bearer_auth, apply_bearer, get_request,
  read_body_capped, is_success, truncate_error_body, max_blob_bytes,
}

module _ {HttpError Server : Type 0} (client : Client HttpError Server) where
  unfoldable pub to_authorization_header : Credentials → Text
  to_authorization_header (basic username password) =
      codes "Basic " ++ client.encode_base64 (username ++ (b':' ∷ password))
  to_authorization_header (bearer token) = codes "Bearer " ++ token

  -- `request.send()`, with the error that each caller gives it.
  unfoldable pub send :
      Text
      → Request
      → Session Server
      → Result (TransportError HttpError) (Response HttpError) × Session Server
  send url req session =
      let answer = client.send req session.server in
      (map_err (http url) answer.0, record session { server = answer.1; sent = req ∷ session.sent })

  unfoldable pub ensure_ok : Response HttpError → Text → ℕ → Result (TransportError HttpError) Text
  unfolding truncate_error_body read_body_capped
  ensure_ok resp url max_bytes =
      if is_success resp.status
      then read_body_capped resp url max_bytes
      else err (
          status_error url resp.status (truncate_error_body (unwrap_or [] (client.text resp.body))))

  optional_query : Text → Option Text → List (Text × Text)
  optional_query key none = []
  optional_query key (some value) = (key, value) ∷ []

  unfoldable pub token_request : BearerChallenge → Option Credentials → Request
  unfolding to_authorization_header optional_query
  token_request challenge creds = record {
    url = challenge.realm;
    authorization = elim creds [ none ↦ none | some c ↦ some (to_authorization_header c) ];
    query =
        optional_query (codes "service") challenge.service
        ++ optional_query (codes "scope") challenge.scope;
    accept = none;
  }

  chosen_token : BearerChallenge → Text × Text → Result (TransportError HttpError) Text
  chosen_token challenge (token, access_token) =
      let tok = if is_empty token then access_token else token in
      if is_empty tok
      then err (auth_required (unwrap_or challenge.realm challenge.service))
      else ok tok

  unfoldable pub read_token :
      BearerChallenge → Response HttpError → Result (TransportError HttpError) Text
  unfolding chosen_token
  read_token challenge resp =
      if is_success resp.status
      then map_err (http challenge.realm) (client.token_fields resp.body) >>= chosen_token challenge
      else err (status_error challenge.realm resp.status (unwrap_or [] (client.text resp.body)))

  unfoldable pub fetch_token :
      BearerChallenge
      → Option Credentials
      → Session Server
      → Result (TransportError HttpError) Text × Session Server
  unfolding send token_request read_token
  fetch_token challenge creds session =
      let answer = send challenge.realm (token_request challenge creds) session in
      (answer.0 >>= read_token challenge, answer.1)

  module _ (url registry : Text) (decorate : Request → Request) (max_bytes : ℕ) where
    -- What a retry returns for its answer.
    unfoldable pub retried :
        Result (TransportError HttpError) (Response HttpError)
        → Result (TransportError HttpError) Text
    unfolding ensure_ok
    retried (err e) = err e
    retried (ok resp) =
        if resp.status == 401 then err (auth_required registry) else ensure_ok resp url max_bytes

    unfoldable pub retry_with :
        Result (TransportError HttpError) Text
        → Session Server
        → Result (TransportError HttpError) Text × Session Server
    unfolding send retried get_request bearer_auth
    retry_with (err e) session = (err e, session)
    retry_with (ok token) session =
        let answer =
          send url (bearer_auth token (decorate (get_request url)))
            (record session { token = some token }) in
        (retried answer.0, answer.1)

    unfoldable pub answer_challenge :
        Option BearerChallenge
        → Option Credentials
        → Session Server
        → Result (TransportError HttpError) Text × Session Server
    unfolding fetch_token retry_with
    answer_challenge none creds session = (err (auth_required registry), session)
    answer_challenge (some challenge) creds session =
        let fetched = fetch_token challenge creds session in retry_with fetched.0 fetched.1

    unfoldable pub first_answer :
        Result (TransportError HttpError) (Response HttpError)
        → Option Credentials
        → Session Server
        → Result (TransportError HttpError) Text × Session Server
    unfolding ensure_ok answer_challenge from_resp
    first_answer (err e) creds session = (err e, session)
    first_answer (ok resp) creds session =
        if resp.status == 401
        then answer_challenge (from_resp client.trim resp.www_authenticate) creds session
        else (ensure_ok resp url max_bytes, session)

    unfoldable pub get_with_auth_capped :
        Option Credentials
        → Session Server
        → Result (TransportError HttpError) Text × Session Server
    unfolding send first_answer apply_bearer get_request
    get_with_auth_capped creds session =
        let answer =
          send url (apply_bearer (decorate (get_request url)) session.token creds) session in
        first_answer answer.0 creds answer.1

  unfoldable pub get_with_auth :
      Text
      → Text
      → Option Credentials
      → (Request → Request)
      → Session Server
      → Result (TransportError HttpError) Text × Session Server
  unfolding get_with_auth_capped
  get_with_auth url registry creds decorate session =
      get_with_auth_capped url registry decorate max_blob_bytes creds session
