-- ===== src/Handler/Token.antt =====
-- internal/handler/token.go, and Revoke of internal/handler/revoke.go.
pub mod Refused
pub mod Credentials
use oauth_2_0_and_open_id_co.Bearer.{revoke_token}
use oauth_2_0_and_open_id_co.Service.{extract_oauth_error, process_token}
use oauth_2_0_and_open_id_co.Uri.{get_value}
use oauth_2_0_and_open_id_co.Handler.{conflict, request_client}
use oauth_2_0_and_open_id_co.Server.{validate_client, World}
use oauth_2_0_and_open_id_co.Grant.{TokenRequest, TokenResponse}
use oauth_2_0_and_open_id_co.Base.{not, none, some, ◌==◌, Option, if◌then◌else◌, String}
use oauth_2_0_and_open_id_co.External.{External}
use oauth_2_0_and_open_id_co.Action.{err, ok, Result}
use oauth_2_0_and_open_id_co.Errors.{as_oauth, as_token, error_text, OAuthError, Error, TokenError}
use oauth_2_0_and_open_id_co.Http.{
  challenge_basic, token_body, bare, json, options, error_json, with_header, Response, HttpRequest,
}

-- The value of the form, or else that of the query.
abbrev pub form_or_query : HttpRequest → String → String
form_or_query r k = if get_value r.form k == "" then get_value r.query k else get_value r.form k

unfoldable pub token_request : HttpRequest → String → String → TokenRequest
token_request r client_id client_secret = record {
  grant_type = form_or_query r "grant_type";
  client_id = client_id;
  client_secret = client_secret;
  code = form_or_query r "code";
  redirect_uri = form_or_query r "redirect_uri";
  scope = form_or_query r "scope";
  username = form_or_query r "username";
  password = form_or_query r "password";
  refresh_token = form_or_query r "refresh_token";
  code_verifier = form_or_query r "code_verifier";
}

unfoldable pub no_store : Response → Response
no_store r = with_header "Pragma" "no-cache" (with_header "Cache-Control" "no-store" r)

-- The answer to a TokenError.
unfoldable pub token_error_response : TokenError → Response
unfolding no_store
token_error_response e =
    let answer = no_store (error_json e.http_status e.code e.description) in
    if e.code == "invalid_client" then challenge_basic answer else answer

abbrev pub failed_response : Error → Option TokenError → Response
failed_response e (some t) = token_error_response t
failed_response e none = error_json 400 "invalid_request" (error_text e)

unfoldable pub token_result_response : Result TokenResponse → Response
unfolding no_store
token_result_response (ok resp) = no_store (json 200 (token_body resp))
token_result_response (err e) = failed_response e (as_token e)

-- The answer of Revoke to an error of RevokeToken.
abbrev pub revoke_error_response : Error → Option OAuthError → Response
revoke_error_response e (some o) =
    if o.code == "invalid_client"
    then challenge_basic (error_json 401 o.code o.description)
    else error_json 400 o.code o.description
revoke_error_response e none = error_json 400 (extract_oauth_error (error_text e)) (error_text e)

unfoldable pub revoke_result_response : Result {0} Unit → Response
revoke_result_response (ok u) = bare 200
revoke_result_response (err e) = revoke_error_response e (as_oauth e)

module _ (ext : External) where
  unfoldable pub run_token : HttpRequest → Option (String × String) → World → Response × World
  run_token r none w = (conflict, w)
  run_token r (some (client_id, client_secret)) w =
      let (result, w') = process_token ext (token_request r client_id client_secret) w in
      (token_result_response result, w')

  -- Handler.Token
  unfoldable pub token_handler : HttpRequest → World → Response × World
  token_handler r w = run_token r (request_client r) w

  unfoldable pub run_revoke : HttpRequest → Option (String × String) → World → Response × World
  run_revoke r none w = (conflict, w)
  run_revoke r (some (client_id, client_secret)) w =
      let token = get_value r.form "token" in
      let (result, w') = revoke_token ext token (get_value r.form "token_type_hint") client_id w in
      if not (validate_client w.server client_id client_secret)
      then (challenge_basic (error_json 401 "invalid_client" "client authentication failed"), w)
      else if token == ""
      then (error_json 400 "invalid_request" "token parameter is required", w)
      else (revoke_result_response result, w')

  -- Handler.Revoke
  unfoldable pub revoke_handler : HttpRequest → World → Response × World
  revoke_handler r w = run_revoke r (request_client r) w
