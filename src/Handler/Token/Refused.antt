-- ===== src/Handler/Token/Refused.antt =====
-- What the token and the revocation handlers answer to a client that does not prove who it is.
use oauth_2_0_and_open_id_co.BasicAuth.{parse_basic_auth}
use oauth_2_0_and_open_id_co.Uri.{get_value}
use oauth_2_0_and_open_id_co.Errors.{as_token}
use oauth_2_0_and_open_id_co.Service.Errors.{process_token_refused}
use oauth_2_0_and_open_id_co.Handler.{conflict, choose_client, request_client}
use oauth_2_0_and_open_id_co.Grant.Dispatch.{grant_types}
use oauth_2_0_and_open_id_co.Handler.Token.{
  no_store, form_or_query, run_revoke, revoke_handler, token_error_response, token_result_response,
  token_request, run_token, token_handler,
}
use oauth_2_0_and_open_id_co.Dict.{get-put}
use oauth_2_0_and_open_id_co.Server.{validate_client, World}
use oauth_2_0_and_open_id_co.Base.{==-of-ne, ◌≢◌, refl, false, Has, some, ◌≡◌, String}
use oauth_2_0_and_open_id_co.External.{External}
use oauth_2_0_and_open_id_co.Http.{
  error_json, error_body, HttpRequest, with_header, challenge_basic, Response,
}
use oauth_2_0_and_open_id_co.Dict

-- The answer 401 invalid_client.
pub record IsUnauthorized (resp : Response) : Type 0 where
  pub description : String
  pub status : resp.status ≡ 401
  pub body : resp.body ≡ error_body "invalid_client" description

-- The same with the challenge of RFC 6749, §5.2.
abbrev pub IsChallenged : Response → Type 0
IsChallenged resp =
    IsUnauthorized resp × (Dict.get resp.headers "WWW-Authenticate" ≡ some "Basic realm=\"OAuth2\"")

challenge_basic-header :
    (resp : Response)
    → Dict.get (challenge_basic resp).headers "WWW-Authenticate" ≡ some "Basic realm=\"OAuth2\""
unfolding challenge_basic with_header
challenge_basic-header resp =
    get-put resp.headers "WWW-Authenticate" "Basic realm=\"OAuth2\"" "WWW-Authenticate"

challenge_basic-IsChallenged :
    (resp : Response) → IsUnauthorized resp → IsChallenged (challenge_basic resp)
unfolding challenge_basic with_header
challenge_basic-IsChallenged resp h = (
  record { description = h.description; status = h.status; body = h.body },
  challenge_basic-header resp,
)

refused_answer : String → Response
refused_answer description = error_json 401 "invalid_client" description

refused_answer-IsUnauthorized : (description : String) → IsUnauthorized (refused_answer description)
unfolding refused_answer
refused_answer-IsUnauthorized description = record {
  description = description;
  status = refl;
  body = refl;
}

module _ (ext : External) (r : HttpRequest) (w : World) where
  token_handler-refused :
      (id secret : String)
      → Has (form_or_query r "grant_type") grant_types
      → request_client r ≡ some (id, secret)
      → validate_client w.server id secret ≡ false
      → token_handler ext r w
        ≡ (challenge_basic (no_store (refused_answer "authentication failed")), w)
  unfolding token_handler run_token token_request token_result_response token_error_response
      as_token refused_answer
  token_handler-refused id secret known client bad =
      rw (client, process_token_refused ext (token_request r id secret) w known bad) refl

  revoke_handler-refused :
      (id secret : String)
      → request_client r ≡ some (id, secret)
      → validate_client w.server id secret ≡ false
      → revoke_handler ext r w
        ≡ (challenge_basic (refused_answer "client authentication failed"), w)
  unfolding revoke_handler run_revoke refused_answer
  revoke_handler-refused id secret client bad = rw (client, bad) refl

  no_store-IsUnauthorized : (resp : Response) → IsUnauthorized resp → IsUnauthorized (no_store resp)
  unfolding no_store with_header
  no_store-IsUnauthorized resp h = record {
    description = h.description;
    status = h.status;
    body = h.body;
  }

  -- Where the header and the body of a request name an id and a secret that are not a registered
  -- client's, a token request for one of the four grant types and a revocation request are answered
  -- with 401 invalid_client and a challenge for Basic authentication, and nothing changes.
  pub handlers_refused :
      (id secret : String)
      → Has (form_or_query r "grant_type") grant_types
      → request_client r ≡ some (id, secret)
      → validate_client w.server id secret ≡ false
      → (IsChallenged (token_handler ext r w).0 × ((token_handler ext r w).1 ≡ w))
        × (IsChallenged (revoke_handler ext r w).0 × ((revoke_handler ext r w).1 ≡ w))
  handlers_refused id secret known client bad = (
    rw (token_handler-refused id secret known client bad) (
      challenge_basic-IsChallenged _
          (no_store-IsUnauthorized _ (refused_answer-IsUnauthorized "authentication failed")),
      refl,
    ),
    rw (revoke_handler-refused id secret client bad) (
      challenge_basic-IsChallenged _ (refused_answer-IsUnauthorized "client authentication failed"),
      refl,
    ),
  )

  -- A request whose header and body name two clients is refused with 401 invalid_client by both
  -- handlers, whatever else it says, and nothing changes.
  pub handlers_conflict :
      (get_value r.form "client_id" ≢ "")
      → ((parse_basic_auth r.authorization).0 ≢ "")
      → (get_value r.form "client_id" ≢ (parse_basic_auth r.authorization).0)
      → (token_handler ext r w ≡ (conflict, w)) × (revoke_handler ext r w ≡ (conflict, w))
  unfolding token_handler run_token revoke_handler run_revoke request_client choose_client
  handlers_conflict body header other =
      rw
        (
          ==-of-ne (parse_basic_auth r.authorization).0 "" header,
          ==-of-ne (get_value r.form "client_id") "" body,
          ==-of-ne (get_value r.form "client_id") (parse_basic_auth r.authorization).0 other,
        )
        (refl, refl)
