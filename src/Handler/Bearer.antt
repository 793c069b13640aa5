-- ===== src/Handler/Bearer.antt =====
-- internal/handler/userinfo.go and discovery.go, and HandleTokenVerify and TokenTest of revoke.go.
use oauth_2_0_and_open_id_co.Server.{World}
use oauth_2_0_and_open_id_co.Model.{UserStore}
use oauth_2_0_and_open_id_co.Store.{TokenInfo}
use oauth_2_0_and_open_id_co.Service.{validate_bearer, get_user_info, UserInfoResponse}
use oauth_2_0_and_open_id_co.Oidc.{build_jwks, build_discovery, JwksBuilder, AppConfig}
use oauth_2_0_and_open_id_co.External.{External}
use oauth_2_0_and_open_id_co.Base.{none, ◌==◌, some, if◌then◌else◌, Option}
use oauth_2_0_and_open_id_co.Action.{err, ok, Result}
use oauth_2_0_and_open_id_co.Errors.{error_text, Error}
use oauth_2_0_and_open_id_co.Http.{
  text_body, token_info_body, user_info_body, key_set_body, discovery_body, header_after, json,
  HttpRequest, error_json, Response,
}

abbrev pub header_required : Response
header_required = error_json 401 "invalid_token" "Authorization header required"

-- The answer to an error of GetUserInfo.
unfoldable pub user_info_error : Error → Response
user_info_error e =
    if error_text e == "user_not_found: user not found"
    then error_json 404 "user_not_found" "user not found"
    else error_json 401 "invalid_token" (error_text e)

unfoldable pub user_info_response : Result UserInfoResponse → Response
user_info_response (ok info) = json 200 (user_info_body info)
user_info_response (err e) = user_info_error e

-- TokenTest, after the middleware has or has not set the TokenInfo
abbrev pub token_test : Option TokenInfo → Response
token_test (some info) = json 200 (token_info_body info)
token_test none = json 200 (text_body "not found")

-- HandleTokenVerify, which calls the next handler with the TokenInfo
abbrev pub verify_response : (Option TokenInfo → Response) → Result TokenInfo → Response
verify_response next (ok info) = next (some info)
verify_response next (err e) = error_json 401 "invalid_token" (error_text e)

module _ (ext : External) where
  -- Handler.UserInfo
  unfoldable pub user_info_handler : UserStore → HttpRequest → World → Response × World
  user_info_handler users r w =
      let (result, w') = get_user_info ext users r.authorization w in
      if r.authorization == "" then (header_required, w) else (user_info_response result, w')

  -- The route /api/test
  unfoldable pub token_test_handler : HttpRequest → World → Response × World
  token_test_handler r w =
      let (result, w') = validate_bearer ext r.authorization w in
      if r.authorization == ""
      then (header_required, w)
      else (verify_response token_test result, w')

-- Handler.Discovery
unfoldable pub discovery_handler : AppConfig → Response
discovery_handler config = json 200 (discovery_body (build_discovery config))

-- Handler.JWKS
unfoldable pub jwks_handler : JwksBuilder → Response
jwks_handler builder = header_after "Access-Control-Allow-Origin" "*" (
    header_after "Cache-Control" "public, max-age=3600"
      (json 200 (key_set_body (build_jwks builder))))
