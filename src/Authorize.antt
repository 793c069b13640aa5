-- ===== src/Authorize.antt =====
-- internal/server/authorize.go: the authorization endpoint.
pub mod Kept
pub mod Safety
pub mod Complete
use oauth_2_0_and_open_id_co.Base.{◌*◌, ℕ, String, Bool, not, Option, ◌∷◌, [], ◌==◌, concat}
use oauth_2_0_and_open_id_co.Errors.{
  Error, OAuthError, authorize, error_text, err_invalid_client, err_invalid_request,
  err_invalid_scope, err_unsupported_response_type,
}
use oauth_2_0_and_open_id_co.Action.{
  Result, ok, err, Action, pure, lift, read, or_fail, check, ◌>>=◌, ◌>>◌,
}
use oauth_2_0_and_open_id_co.Time.{Time, add, minute}
use oauth_2_0_and_open_id_co.External.{External}
use oauth_2_0_and_open_id_co.Store
use oauth_2_0_and_open_id_co.Store.{Client, AuthorizationCode}
use oauth_2_0_and_open_id_co.Scope.{validate_client_scope}
use oauth_2_0_and_open_id_co.Generator.{authorization_code_bytes}
use oauth_2_0_and_open_id_co.Server.{World, read_clock, draw, update_codes, wrapping}
use oauth_2_0_and_open_id_co.Redirect.{validate_redirect_uri}

pub record AuthorizeRequest : Type 0 where
  pub response_type : String
  pub client_id : String
  pub redirect_uri : String
  pub scope : String
  pub state : String
  pub nonce : String
  pub code_challenge : String
  pub code_challenge_method : String
  pub user_id : String
  pub auth_time : ℕ

pub record AuthorizeResult : Type 0 where
  pub redirect_uri : String
  pub code : String
  pub state : String

-- An error that is shown to the user, and not sent to the redirect URI.
abbrev pub shown : OAuthError → Error
shown e = authorize (record { oauth_error = e; redirect_uri = ""; state = "" })

-- An error that is sent to the redirect URI of the request.
abbrev pub redirected : AuthorizeRequest → OAuthError → Error
redirected req e =
    authorize (record { oauth_error = e; redirect_uri = req.redirect_uri; state = req.state })

-- ErrInvalidScope(err.Error()) on the error of the scope check.
abbrev pub redirect_scope_error : AuthorizeRequest → Result String → Result String
redirect_scope_error req (ok scope) = ok scope
redirect_scope_error req (err e) = err (redirected req (err_invalid_scope (error_text e)))

-- The code that is stored for a request, created at a moment.
abbrev pub issued_code : AuthorizeRequest → String → Time → AuthorizationCode
issued_code req code now = record {
  code = code;
  client_id = req.client_id;
  user_id = req.user_id;
  redirect_uri = req.redirect_uri;
  scope = req.scope;
  nonce = req.nonce;
  response_type = req.response_type;
  code_challenge = req.code_challenge;
  code_challenge_method = req.code_challenge_method;
  auth_time = req.auth_time;
  expires_at = add now (1 * minute);
}

module _ (ext : External) where
  unfoldable pub authorize_code : AuthorizeRequest → Action World AuthorizeResult
  authorize_code req = do
    code ←
        wrapping "server_error: failed to generate authorization code: "
          (draw ext authorization_code_bytes)
    now ← read_clock ext
    update_codes (λ s. Store.create_code s (issued_code req code now))
    pure (record { redirect_uri = req.redirect_uri; code = code; state = req.state })

  -- The checks that come before the redirect URI is known to be the client's.
  unfoldable pub known_client : AuthorizeRequest → Action World Client
  known_client req = do
    found ← read (λ w. Store.get_by_id w.clients req.client_id)
    client ←
        or_fail
          (shown (err_invalid_client (concat ("client " ∷ req.client_id ∷ " not found" ∷ []))))
          found
    check (validate_redirect_uri client.redirect_uris req.redirect_uri) (
        shown (
          err_invalid_request
            "redirect_uri does not match any registered redirect URI for this client"))
    check (not (req.redirect_uri == "")) (shown (err_invalid_request "redirect_uri is required"))
    pure client

  -- The checks whose errors are sent to the redirect URI; the scope that is granted.
  unfoldable pub granted_scope : AuthorizeRequest → Client → Action World String
  granted_scope req client = do
    scope ← lift (redirect_scope_error req (validate_client_scope ext.quote client req.scope))
    check (not (req.code_challenge == "")) (
        redirected req
          (err_invalid_request "PKCE code_challenge is required per OAuth 2.1 (RFC 9728 §7.1)"))
    check (req.code_challenge_method == "S256") (
        redirected req
          (err_invalid_request "code_challenge_method must be S256 per OAuth 2.1 (RFC 9728 §7.1)"))
    check (req.response_type == "code") (
        redirected req (
          err_unsupported_response_type (
            concat
              (req.response_type ∷ " (implicit and hybrid flows are removed per OAuth 2.1)" ∷ []))))
    pure scope

  -- Server.Authorize
  unfoldable pub authorize_request : AuthorizeRequest → Action World AuthorizeResult
  authorize_request req = do
    client ← known_client req
    scope ← granted_scope req client
    authorize_code (record req { scope = scope })
