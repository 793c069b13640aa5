-- ===== src/Tests/Runs.antt =====
-- Runs of the endpoints over the small installation of Tests/Sample.
use oauth_2_0_and_open_id_co.Tests.Sample.{server, access}
use oauth_2_0_and_open_id_co.Bearer.{trim_space, trim_prefix, bearer_of, validate_bearer_token}
use oauth_2_0_and_open_id_co.Pkce.{s256, verify_pkce}
use oauth_2_0_and_open_id_co.Expiry.{fetch}
use oauth_2_0_and_open_id_co.Server.{
  World, load_access_token, load_refresh_token, load_code, validate_client,
}
use oauth_2_0_and_open_id_co.Dict
use oauth_2_0_and_open_id_co.Store
use oauth_2_0_and_open_id_co.Encoding.{bytes, raw_url_encode}
use oauth_2_0_and_open_id_co.Generator.{
  validate_access_token, generate_id_token, sign_access_token, random_string,
}
use oauth_2_0_and_open_id_co.Redirect.{validate_redirect_uri}
use oauth_2_0_and_open_id_co.Scope.{
  should_include_id_token, is_scope_narrowed, split_spaces, contains_scope, validate_client_scope,
}
use oauth_2_0_and_open_id_co.Action.{proceed, ok}
use oauth_2_0_and_open_id_co.Grant.{
  TokenRequest, token, renew_tokens, check_refresh, issue_for_client, add_id_token,
  issue_token_pair, check_code, redeem_code, validate_and_authenticate, TokenResponse,
  grant_client_credentials, grant_password, grant_refresh_token, grant_authorization_code,
}
use oauth_2_0_and_open_id_co.Base.{[], ◌∷◌, refl, join, String, ◌≡◌}
use oauth_2_0_and_open_id_co.Tests.Sample.{access, ext, world, authorize_req, token_req}
use oauth_2_0_and_open_id_co.Authorize.{
  authorize_code, granted_scope, known_client, AuthorizeResult, authorize_request,
}

-- What a run of the server computes with.
unfoldable pub running : Unit {0}
unfolding authorize_request known_client granted_scope authorize_code validate_client_scope
    validate_redirect_uri contains_scope split_spaces random_string raw_url_encode proceed
    Store.get_by_id Dict.get Dict.put Dict.delete Store.create_code is_scope_narrowed
    validate_and_authenticate validate_client Store.is_grant_type_allowed grant_authorization_code
    redeem_code check_code issue_token_pair add_id_token load_code load_refresh_token
    load_access_token Store.get_code Store.get_access_token Store.get_refresh_token
    Store.delete_code Store.delete_access_token Store.delete_refresh_token Store.create_access_token
    Store.create_refresh_token fetch verify_pkce s256 bytes should_include_id_token
    sign_access_token generate_id_token grant_password grant_client_credentials issue_for_client
    check_refresh renew_tokens grant_refresh_token token validate_bearer_token validate_access_token
    bearer_of join trim_prefix trim_space
running = tt

abbrev pub authorized : AuthorizeResult
authorized = record { redirect_uri = "https://app/cb"; code = "ABgA"; state = "xyz" }

pub authorize_run :
    authorize_request ext authorize_req world
    ≡ (ok authorized, (authorize_request ext authorize_req world).1)
unfolding running
authorize_run = refl

abbrev pub answered : String → String → TokenResponse
answered refresh scope = record {
  access_token = "jwt";
  token_type = "Bearer";
  expires_in = 7200;
  refresh_token = refresh;
  scope = scope;
  id_token = "";
}

pub exchange_run :
    grant_authorization_code ext token_req world
    ≡ (ok (answered "ACAA" "openid read"), (grant_authorization_code ext token_req world).1)
unfolding running
exchange_run = refl

pub refresh_run :
    grant_refresh_token ext token_req world
    ≡ (ok (answered "ACAA" "openid read"), (grant_refresh_token ext token_req world).1)
unfolding running
refresh_run = refl

-- The sample's request, for one scope.
abbrev pub read_req : TokenRequest
read_req = record token_req { scope = "read" }

pub password_run :
    grant_password ext read_req world
    ≡ (ok (answered "ACAA" "read"), (grant_password ext read_req world).1)
unfolding running
password_run = refl

pub machine_run :
    grant_client_credentials ext read_req world
    ≡ (ok (answered "" "read"), (grant_client_credentials ext read_req world).1)
unfolding running
machine_run = refl

-- The stored access token is accepted under a signature that the package verifies.
abbrev pub signed_world : World
signed_world = record world {
  server = record server {
    tokens = record server.tokens { access_tokens = record { entries = ("jwt", access) ∷ [] } };
  };
}

pub bearer_run :
    validate_bearer_token ext "Bearer jwt" signed_world
    ≡ (ok access, (validate_bearer_token ext "Bearer jwt" signed_world).1)
unfolding running
bearer_run = refl
