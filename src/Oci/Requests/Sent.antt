-- ===== src/Oci/Requests/Sent.antt =====
-- The requests that a call of oci_transport.rs sends.
use akua.Base.{
  arith, ℕ, ◌≡◌, refl, ◌⊎◌, inl, inr, Option, none, some, List, ◌∷◌, ◌++◌, Result, ok, err, ◌==◌,
  nat_eq, Bool-cases,
}
use akua.Base.Texts.{Text, codes}
use akua.Oci.Transport.{
  Credentials, basic, bearer, TransportError, Request, Response, Client, Session, BearerChallenge,
  from_resp, apply_bearer, bearer_auth, get_request,
}
use akua.Oci.Requests.{
  retry_with, answer_challenge, first_answer, get_with_auth_capped, fetch_token, send,
  token_request,
}

-- A request to a URL without a user's name and password: it has a bearer token or nothing.
abbrev pub IsOwn : Text → Request → Type 0
IsOwn url q =
    (q.url ≡ url)
    × ((q.authorization ≡ none) ⊎ ((t : Text) × (q.authorization ≡ some (codes "Bearer " ++ t))))

-- Nothing more, or one more request to the URL.
abbrev AtMostOneMore : Text → List Request → List Request → Type 0
AtMostOneMore url before after =
    (after ≡ before) ⊎ ((q : Request) × IsOwn url q × (after ≡ q ∷ before))

module _ {HttpError Server : Type 0} (client : Client HttpError Server)
    (creds : Option Credentials) where
  -- What follows a response: nothing more, or, where its status is 401 and it has a challenge, the request of a
  -- token for that challenge, with a retry or without.
  abbrev pub Follows :
      Text
      → Result (TransportError HttpError) (Response HttpError)
      → List Request
      → List Request
      → Type 0
  Follows url answer before after =
      (after ≡ before)
      ⊎ ((resp : Response HttpError) × (c : BearerChallenge) × (answer ≡ ok resp)
          × (resp.status ≡ 401)
          × (from_resp client.trim resp.www_authenticate ≡ some c)
          × AtMostOneMore url (token_request client c creds ∷ before) after)

  -- What a call to a URL sends: a first request to it, and what follows the response to that.
  abbrev pub IsCall : Text → Session Server → List Request → Type 0
  IsCall url session after =
      (q : Request) × IsOwn url q
      × Follows url (send client url q session).0 (q ∷ session.sent) after

bearer_auth-IsOwn : (url token : Text) (q : Request) → q.url ≡ url → IsOwn url (bearer_auth token q)
unfolding bearer_auth
bearer_auth-IsOwn url token q same = (same, inr (token, refl))

apply_bearer-IsOwn :
    (url : Text) (q : Request) (token : Option Text) (creds : Option Credentials)
    → q.url ≡ url
    → q.authorization ≡ none
    → IsOwn url (apply_bearer q token creds)
unfolding apply_bearer
apply_bearer-IsOwn url q (some token) creds same bare = bearer_auth-IsOwn url token q same
apply_bearer-IsOwn url q none (some (bearer token)) same bare = bearer_auth-IsOwn url token q same
apply_bearer-IsOwn url q none (some (basic username password)) same bare = (same, inl bare)
apply_bearer-IsOwn url q none none same bare = (same, inl bare)

module _ {HttpError Server : Type 0} (client : Client HttpError Server) (url registry : Text)
    (decorate : Request → Request) (max_bytes : ℕ) (same : (decorate (get_request url)).url ≡ url)
    (bare : (decorate (get_request url)).authorization ≡ none) where
  retry_with-AtMostOneMore :
      (token : Result (TransportError HttpError) Text) (session : Session Server)
      → AtMostOneMore url session.sent
          (retry_with client url registry decorate max_bytes token session).1.sent
  unfolding retry_with send
  retry_with-AtMostOneMore (err e) session = inl refl
  retry_with-AtMostOneMore (ok token) session = inr (
    bearer_auth token (decorate (get_request url)),
    bearer_auth-IsOwn url token (decorate (get_request url)) same,
    refl,
  )

  answer_challenge-Follows :
      (resp : Response HttpError) (challenge : Option BearerChallenge) (creds : Option Credentials)
      (session : Session Server)
      → from_resp client.trim resp.www_authenticate ≡ challenge
      → resp.status ≡ 401
      → Follows client creds url
          (ok resp)
          session.sent
          (answer_challenge client url registry decorate max_bytes challenge creds session).1.sent
  unfolding answer_challenge fetch_token send
  answer_challenge-Follows resp none creds session named refused = inl refl
  answer_challenge-Follows resp (some c) creds session named refused = inr (
    resp,
    c,
    refl,
    refused,
    named,
    retry_with-AtMostOneMore (fetch_token client c creds session).0
        (fetch_token client c creds session).1,
  )

  first_answer-Follows :
      (answer : Result (TransportError HttpError) (Response HttpError)) (creds : Option Credentials)
      (session : Session Server)
      → Follows client creds url answer session.sent
          (first_answer client url registry decorate max_bytes answer creds session).1.sent
  unfolding first_answer
  first_answer-Follows (err e) creds session = inl refl
  first_answer-Follows (ok resp) creds session = elim (Bool-cases (resp.status == 401)) [
    | inr other ↦ rw other (inl refl)
    | inl refused ↦ rw refused (
        answer_challenge-Follows resp (from_resp client.trim resp.www_authenticate) creds session
          refl (ground arith))
  ]

  -- Where what the caller adds leaves the URL and sets no `Authorization`: a call sends a first request to its URL;
  -- only where the response to that has status 401 and a challenge, it sends the request of a token for that
  -- challenge (`token_request`, which goes with the credentials to the realm that the challenge names, whatever URL
  -- that is), and after it at most a retry to its URL. The first request and the retry have no `Authorization` or a
  -- bearer token.
  pub get_with_auth_capped-IsCall :
      (creds : Option Credentials) (session : Session Server)
      → IsCall client creds url session
          (get_with_auth_capped client url registry decorate max_bytes creds session).1.sent
  unfolding get_with_auth_capped send
  get_with_auth_capped-IsCall creds session =
      let first = apply_bearer (decorate (get_request url)) session.token creds in
      let answer = send client url first session in
      (
        first,
        apply_bearer-IsOwn url (decorate (get_request url)) session.token creds same bare,
        first_answer-Follows answer.0 creds answer.1,
      )
