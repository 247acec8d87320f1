-- ===== src/Oci/Tests.antt =====
-- References and requests at concrete inputs.
use akua.Base.{
  ℕ, ◌≡◌, ◌≤◌, refl, ◌↔◌, Option, none, some, [], ok, length, nat_eq, list_eq, zero, suc,
}
use akua.Base.Texts.{codes}
use akua.Oci.Reference.{OciRef, IsReference, parse_ref, parse_ref_iff, registry_scheme}
use akua.Oci.Transport.{
  Client, Response, Session, Credentials, basic, whole, from_resp, get_request,
}
use akua.Oci.Requests.{get_with_auth_capped}
use akua.Oci.Requests.Bounded.{get_with_auth_capped-bound}
use akua.Oci.Requests.Sent.{IsCall, get_with_auth_capped-IsCall}

abbrev chart_ref : OciRef
chart_ref = record { registry = codes "ghcr.io"; repository = codes "acme/app" }

parse_ref_iff_example :
    (parse_ref (codes "oci://ghcr.io/acme/app") ≡ ok chart_ref)
    ↔ IsReference (codes "oci://ghcr.io/acme/app") chart_ref
parse_ref_iff_example = parse_ref_iff (codes "oci://ghcr.io/acme/app") chart_ref

registry_scheme_local : registry_scheme (codes "[::1]:5000") ≡ codes "http"
unfolding registry_scheme
registry_scheme_local = refl

registry_scheme_remote : registry_scheme (codes "ghcr.io") ≡ codes "https"
unfolding registry_scheme
registry_scheme_remote = refl

from_resp_example_header :
    from_resp (λ s. s) (some (codes "Bearer realm=\"https://t\",service=\"r\""))
    ≡ some (record { realm = codes "https://t"; service = some (codes "r"); scope = none })
unfolding from_resp
from_resp_example_header = refl

-- A server that answers 401 first, then a token, then the bytes.
abbrev answer_at : ℕ → Response ℕ
answer_at zero = record {
  status = 401;
  www_authenticate = some (codes "Bearer realm=\"https://t\"");
  content_length = none;
  body = whole [];
}
answer_at (suc n) = record {
  status = 200;
  www_authenticate = none;
  content_length = none;
  body = whole (codes "data");
}

abbrev test_client : Client ℕ ℕ
test_client = record {
  send = λ q n. (ok (answer_at n), suc n);
  encode_base64 = λ s. s;
  text = λ _. none;
  token_fields = λ _. ok (codes "abc", []);
  trim = λ s. s;
}

abbrev start : Session ℕ
start = record { token = none; server = 0; sent = [] }

abbrev alice : Option Credentials
alice = some (basic (codes "alice") (codes "secret"))

get_with_auth_capped-bound_example : length (codes "data") ≤ 4
unfolding get_with_auth_capped from_resp
get_with_auth_capped-bound_example =
    get_with_auth_capped-bound test_client (codes "https://r/v2") (codes "r") (λ q. q) 4
      (codes "data") alice start refl

get_with_auth_capped-IsCall_example :
    IsCall test_client alice
      (codes "https://r/v2")
      start
      (get_with_auth_capped test_client
        (codes "https://r/v2")
        (codes "r")
        (λ q. q)
        4
        alice
        start).1.sent
unfolding get_request
get_with_auth_capped-IsCall_example =
    get_with_auth_capped-IsCall test_client (codes "https://r/v2") (codes "r") (λ q. q) 4 refl refl
      alice start
