-- ===== src/Grant.antt =====
-- internal/server/grant.go: the token endpoint, one action for each grant type. The client that
-- `validateAndAuthenticate` looks up again is dereferenced; `nil_client` stands for the panic if it
-- were not there.
pub mod Info
pub mod Answer
pub mod Complete
pub mod Kept
pub mod Login
pub mod Parts
pub mod Frame
pub mod Issue
pub mod Exchange
pub mod SingleUse
pub mod NewScope
pub mod Rotate
pub mod Machine
pub mod Password
pub mod Dispatch
pub mod Race
pub mod Renewal
unfoldable pub use Answer.{issue_token_pair, add_id_token}
pub use Answer.{find_user, with_id_token}
pub use Info.{TokenRequest, TokenResponse, nil_client, invalid_grant, access_info, refresh_info}
use oauth_2_0_and_open_id_co.Base.{
  ℕ, String, Bool, not, ◌&&◌, Option, none, some, ◌∷◌, [], ◌==◌, concat, if◌then◌else◌,
}
use oauth_2_0_and_open_id_co.Errors.{
  Error, oauth, plain, error_text, err_invalid_client, err_invalid_grant, err_invalid_scope,
  err_unauthorized_client, err_unsupported_grant_type,
}
use oauth_2_0_and_open_id_co.Action.{
  Result, ok, err, Action, pure, fail, lift, read, or_fail, check, ◌>>=◌, ◌>>◌,
}
use oauth_2_0_and_open_id_co.Time.{Time, add, unix, whole_seconds}
use oauth_2_0_and_open_id_co.External.{External}
use oauth_2_0_and_open_id_co.Model
use oauth_2_0_and_open_id_co.Model.{User, UserStore}
use oauth_2_0_and_open_id_co.Store
use oauth_2_0_and_open_id_co.Store.{Client, AuthorizationCode, TokenInfo}
use oauth_2_0_and_open_id_co.Scope.{
  validate_client_scope, is_scope_narrowed, contains_scope, should_include_id_token,
}
use oauth_2_0_and_open_id_co.Pkce.{verify_pkce}
use oauth_2_0_and_open_id_co.Generator.{sign_access_token, generate_id_token, refresh_token_bytes}
use oauth_2_0_and_open_id_co.Server.{
  World, validate_client, read_clock, draw, update_codes, update_tokens, wrapping, load_code,
  load_refresh_token,
}

unfoldable pub validate_and_authenticate : String → String → String → Action World Client
validate_and_authenticate client_id client_secret grant_type = do
  valid ← read (λ w. validate_client w.server client_id client_secret)
  check valid (oauth (err_invalid_client "authentication failed"))
  found ← read (λ w. Store.get_by_id w.clients client_id)
  client ← or_fail nil_client found
  check (Store.is_grant_type_allowed client grant_type) (
      oauth (
        err_unauthorized_client
          (concat (grant_type ∷ " grant is not allowed for this client" ∷ []))))
  pure client

-- if scope == "" { scope = oldInfo.Scope }
abbrev pub default_scope : String → String → String
default_scope requested original = if requested == "" then original else requested

-- The error of the password function is reported as an invalid grant.
abbrev pub login_result : Result String → Result String
login_result (ok user_id) = ok user_id
login_result (err e) = err (invalid_grant (error_text e))

-- Any error of the scope check of an authorization code has one message.
abbrev pub code_scope_result : Result String → Result String
code_scope_result (ok s) = ok s
code_scope_result (err e) =
    err (oauth (err_invalid_scope "authorization code scope no longer permitted for this client"))

module _ (ext : External) where
  -- What must hold of a code that was found, and was deleted.
  unfoldable pub check_code : TokenRequest → Client → AuthorizationCode → Action World Unit
  check_code req client auth_code = do
    check (auth_code.client_id == req.client_id)
        (invalid_grant "authorization code was not issued to this client")
    check (auth_code.redirect_uri == req.redirect_uri) (invalid_grant "redirect_uri mismatch")
    check
        (verify_pkce ext.sum256 auth_code.code_challenge auth_code.code_challenge_method
          req.code_verifier)
        (invalid_grant "PKCE verification failed")
    lift (code_scope_result (validate_client_scope ext.quote client auth_code.scope))
    pure tt

  -- What is done with a code after it was deleted.
  unfoldable pub redeem_code :
      TokenRequest → Client → AuthorizationCode → Action World TokenResponse
  redeem_code req client auth_code = do
    check_code req client auth_code
    resp ← issue_token_pair ext auth_code.client_id auth_code.user_id auth_code.scope
    include ← read (λ w. should_include_id_token auth_code.scope auth_code.user_id w.user_store)
    if include
        then add_id_token ext resp auth_code.client_id auth_code.user_id auth_code.nonce
            auth_code.auth_time auth_code.scope
        else pure resp

  unfoldable pub grant_authorization_code : TokenRequest → Action World TokenResponse
  grant_authorization_code req = do
    client ← validate_and_authenticate req.client_id req.client_secret "authorization_code"
    found ← load_code ext req.code
    auth_code ← or_fail (invalid_grant "authorization code not found or expired") found
    update_codes (λ s. Store.delete_code s req.code)
    redeem_code req client auth_code

  unfoldable pub grant_password : TokenRequest → Action World TokenResponse
  grant_password req = do
    client ← validate_and_authenticate req.client_id req.client_secret "password"
    handler ← read (λ w. w.password_auth_func)
    authenticate ← or_fail (oauth (err_unauthorized_client "password grant not configured")) handler
    scope ← lift (validate_client_scope ext.quote client req.scope)
    user_id ← lift (login_result (authenticate req.client_id req.username req.password))
    now ← read_clock ext
    resp ← issue_token_pair ext req.client_id user_id scope
    include ← read (λ w. should_include_id_token scope user_id w.user_store)
    if include then add_id_token ext resp req.client_id user_id "" (unix now) scope else pure resp

  -- The client_credentials grant after the scope is validated.
  unfoldable pub issue_for_client : String → String → Action World TokenResponse
  issue_for_client client_id scope = do
    check (not (contains_scope scope "openid"))
        (oauth (err_invalid_scope "openid scope is not allowed for client_credentials grant"))
    g ← read (λ w. w.generator)
    now ← read_clock ext
    access_token ← lift (sign_access_token ext g now client_id "" scope)
    update_tokens (λ s.
        Store.create_access_token s
          (access_info access_token client_id "" scope (add now g.access_expiry)))
    pure (record {
      access_token = access_token;
      token_type = "Bearer";
      expires_in = whole_seconds g.access_expiry;
      refresh_token = "";
      scope = scope;
      id_token = "";
    })

  unfoldable pub grant_client_credentials : TokenRequest → Action World TokenResponse
  grant_client_credentials req = do
    client ← validate_and_authenticate req.client_id req.client_secret "client_credentials"
    scope ← lift (validate_client_scope ext.quote client req.scope)
    issue_for_client req.client_id scope

  -- What must hold of a refresh token that was found; the scope of the new tokens.
  unfoldable pub check_refresh : TokenRequest → Client → TokenInfo → Action World String
  check_refresh req client old = do
    check (old.client_id == req.client_id)
        (invalid_grant "refresh token was not issued to this client")
    scope ← lift (validate_client_scope ext.quote client (default_scope req.scope old.scope))
    check (not (not (req.scope == "") && not (is_scope_narrowed scope old.scope))) (
        oauth (
          err_invalid_scope
            "requested scope exceeds the scope granted in the original authorization"))
    pure scope

  -- What is done for a refresh token after it and its access token were deleted.
  unfoldable pub renew_tokens : TokenInfo → String → Action World TokenResponse
  renew_tokens old scope = do
    resp ← issue_token_pair ext old.client_id old.user_id scope
    include ← read (λ w. should_include_id_token scope old.user_id w.user_store)
    if include
        then (do
          now ← read_clock ext
          add_id_token ext resp old.client_id old.user_id "" (unix now) scope)
        else pure resp

  unfoldable pub grant_refresh_token : TokenRequest → Action World TokenResponse
  grant_refresh_token req = do
    client ← validate_and_authenticate req.client_id req.client_secret "refresh_token"
    found ← load_refresh_token ext req.refresh_token
    old ← or_fail (invalid_grant "refresh token not found") found
    scope ← check_refresh req client old
    update_tokens (λ s. Store.delete_refresh_token s req.refresh_token)
    update_tokens (λ s. Store.delete_access_token s old.access_token)
    renew_tokens old scope

  -- Server.Token
  unfoldable pub token : TokenRequest → Action World TokenResponse
  token req =
      if req.grant_type == "authorization_code"
      then grant_authorization_code req
      else if req.grant_type == "password"
      then grant_password req
      else if req.grant_type == "client_credentials"
      then grant_client_credentials req
      else if req.grant_type == "refresh_token"
      then grant_refresh_token req
      else fail (oauth (err_unsupported_grant_type req.grant_type))
