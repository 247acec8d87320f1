-- ===== src/Oci/Requests/Bounded.antt =====
-- The size of what the requests of oci_transport.rs return.
use akua.Base.{
  ℕ, ◌≡◌, ◌≤◌, Option, none, some, Result, ok, err, ◌==◌, nat_eq, length, ltb, inl, inr, Bool-cases,
  arith, if◌then◌else◌,
}
use akua.Base.Texts.{Text}
use akua.Oci.Transport.{
  Credentials, TransportError, Request, Response, Client, Session, read_body_capped, bearer_auth,
  apply_bearer, get_request, from_resp, BearerChallenge, is_success,
}
use akua.Oci.Requests.{
  ensure_ok, retried, retry_with, answer_challenge, first_answer, get_with_auth_capped, fetch_token,
  send,
}

module _ {HttpError : Type 0} where
  within_limit :
      (e : TransportError HttpError) (max_bytes : ℕ) (buf bytes : Text)
      → (if ltb max_bytes (length buf) then err e else ok buf) ≡ ok bytes
      → length bytes ≤ max_bytes
  within_limit e max_bytes buf bytes h = ground arith

  read_body_capped-bound :
      (resp : Response HttpError) (url : Text) (max_bytes : ℕ) (bytes : Text)
      → read_body_capped resp url max_bytes ≡ ok bytes
      → length bytes ≤ max_bytes
  unfolding read_body_capped
  read_body_capped-bound resp url max_bytes bytes h = ground arith

module _ {HttpError Server : Type 0} (client : Client HttpError Server) where
  ensure_ok-bound :
      (resp : Response HttpError) (url : Text) (max_bytes : ℕ) (bytes : Text)
      → ensure_ok client resp url max_bytes ≡ ok bytes
      → length bytes ≤ max_bytes
  unfolding ensure_ok
  ensure_ok-bound resp url max_bytes bytes h = elim (Bool-cases (is_success resp.status)) [
    | inl success ↦ read_body_capped-bound resp url max_bytes bytes (rw success at h)
    | inr other ↦ cc
  ]

  module _ (url registry : Text) (decorate : Request → Request) (max_bytes : ℕ) (bytes : Text) where
    retried-bound :
        (answer : Result (TransportError HttpError) (Response HttpError))
        → retried client url registry decorate max_bytes answer ≡ ok bytes
        → length bytes ≤ max_bytes
    unfolding retried
    retried-bound (err e) h = cc
    retried-bound (ok resp) h = elim (Bool-cases (resp.status == 401)) [
      | inl refused ↦ cc
      | inr other ↦ ensure_ok-bound resp url max_bytes bytes (rw other at h)
    ]

    retry_with-bound :
        (token : Result (TransportError HttpError) Text) (session : Session Server)
        → (retry_with client url registry decorate max_bytes token session).0 ≡ ok bytes
        → length bytes ≤ max_bytes
    unfolding retry_with
    retry_with-bound (err e) session h = cc
    retry_with-bound (ok token) session h =
        retried-bound
          (send client url (bearer_auth token (decorate (get_request url)))
            (record session { token = some token })).0
          h

    answer_challenge-bound :
        (challenge : Option BearerChallenge) (creds : Option Credentials) (session : Session Server)
        → (answer_challenge client url registry decorate max_bytes challenge creds session).0
          ≡ ok bytes
        → length bytes ≤ max_bytes
    unfolding answer_challenge
    answer_challenge-bound none creds session h = cc
    answer_challenge-bound (some challenge) creds session h =
        let fetched = fetch_token client challenge creds session in
        retry_with-bound fetched.0 fetched.1 h

    first_answer-bound :
        (answer : Result (TransportError HttpError) (Response HttpError))
        (creds : Option Credentials) (session : Session Server)
        → (first_answer client url registry decorate max_bytes answer creds session).0 ≡ ok bytes
        → length bytes ≤ max_bytes
    unfolding first_answer
    first_answer-bound (err e) creds session h = cc
    first_answer-bound (ok resp) creds session h = elim (Bool-cases (resp.status == 401)) [
      | inl challenged ↦
          answer_challenge-bound (from_resp client.trim resp.www_authenticate) creds session
            (rw challenged at h)
      | inr other ↦ ensure_ok-bound resp url max_bytes bytes (rw other at h)
    ]

    -- The bytes that a call returns are no more than its limit, whatever length the registry declared and
    -- whatever it sent, on the first request and on the retry.
    pub get_with_auth_capped-bound :
        (creds : Option Credentials) (session : Session Server)
        → (get_with_auth_capped client url registry decorate max_bytes creds session).0 ≡ ok bytes
        → length bytes ≤ max_bytes
    unfolding get_with_auth_capped
    get_with_auth_capped-bound creds session h =
        let answer =
          send client url (apply_bearer (decorate (get_request url)) session.token creds) session in
        first_answer-bound answer.0 creds answer.1 h
